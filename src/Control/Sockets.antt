-- ===== src/Control/Sockets.antt =====
-- internal/control/socket_unix.go: what a starter finds at the path of a control socket. The
-- answers of the operating system are values.
use winsh.Base.{
  ℕ, Bool, true, false, not, ◌&&◌, ◌||◌, Option, none, some, List, leb, ◌==◌, if◌then◌else◌,
  case_option,
}
use winsh.Control.Category
use winsh.Control.Protocol.{frame_result}
use winsh.Control.Wire.{
  CategoryText, no_category, valid_category, Decoder, ControlFailure, category_error, unresponsive,
  protocol_error, other_failure,
}

-- `os.FileInfo`, as far as the code reads it.
pub record FileInfo : Type 0 where
  pub is_dir : Bool
  pub is_socket : Bool
  pub is_regular : Bool
  pub permissions : ℕ
  pub owner : ℕ

-- `os.Lstat`
pub data Lstat : Type 0 where
  absent failed_lstat : Lstat
  present : FileInfo → Lstat

abbrev pub case_lstat {ℓ} : {B : Type ℓ} → Lstat → B → B → (FileInfo → B) → B
case_lstat absent a b f = a
case_lstat failed_lstat a b f = b
case_lstat (present i) a b f = f i

-- `ownedByCurrentUser`, for the user of a process.
abbrev pub owned_by : ℕ → FileInfo → Bool
owned_by uid i = i.owner == uid

-- The permissions 0600 and 0700.
abbrev pub mode_600 : ℕ
mode_600 = 384

abbrev pub mode_700 : ℕ
mode_700 = 448

-- `socketState`: an error, or whether the socket exists.
pub data SocketState : Type 0 where
  unsafe_socket : SocketState
  no_socket : SocketState
  socket_exists : SocketState

abbrev pub is_private_socket : ℕ → FileInfo → Bool
is_private_socket uid i = i.is_socket && i.permissions == mode_600 && owned_by uid i

unfoldable pub socket_state : ℕ → Lstat → SocketState
socket_state uid answer =
    case_lstat answer no_socket unsafe_socket
      (λ i. if is_private_socket uid i then socket_exists else unsafe_socket)

abbrev pub is_private_directory : ℕ → FileInfo → Bool
is_private_directory uid i = i.is_dir && i.permissions == mode_700 && owned_by uid i

-- `checkSocketDirectory`: an error (`none`), or whether the directory exists. `is_clean` says that
-- the path is absolute and clean.
unfoldable pub check_socket_directory : ℕ → Bool → ℕ → Lstat → Option Bool
check_socket_directory uid is_clean path_length answer =
    if not is_clean || leb 104 path_length
    then none
    else case_lstat answer (some false) none
        (λ i. if is_private_directory uid i then some true else none)

-- `os.Mkdir`
pub data Mkdir : Type 0 where
  made existed failed_mkdir : Mkdir

abbrev pub is_failed_mkdir : Mkdir → Bool
is_failed_mkdir failed_mkdir = true
is_failed_mkdir _ = false

-- `prepareSocketPath`: whether it succeeds.
unfoldable pub prepare_socket_path : ℕ → ℕ → Mkdir → Lstat → Bool
prepare_socket_path uid path_length mkdir answer =
    if leb 104 path_length
    then false
    else (if is_failed_mkdir mkdir
        then false
        else case_lstat answer false false (λ i. is_private_directory uid i))

-- `openLock`: the descriptor's file where it can be opened and read.
unfoldable pub open_lock : ℕ → Option (Option FileInfo) → Bool
open_lock uid opened = case_option opened false (λ stat.
    case_option stat false (λ i. i.is_regular && i.permissions == mode_600 && owned_by uid i))

-- `tryLock`
pub data Flock : Type 0 where
  acquired held failed_lock : Flock

-- A probe meets a socket that refuses (ENOENT or ECONNREFUSED), another failure to connect, or a
-- connection: whether the request could be written, and the frame that came back.
pub data Dial : Type 0 where
  refused : Dial
  failed_dial : ControlFailure → Dial
  dialed : Bool → Option (ℕ × List ℕ) → Dial

-- `probeMaster`'s three results.
pub record Probe : Type 0 where
  pub live : Bool
  pub connected : Bool
  pub failure : Option ControlFailure

abbrev pub not_responding : Probe
not_responding = record { live = false; connected = true; failure = some unresponsive }

abbrev pub case_category {ℓ} : {B : Type ℓ} → CategoryText → B → (CategoryText → B) → B
case_category no_category a f = a
case_category c a f = f c

unfoldable pub read_probe : Decoder → Option (ℕ × List ℕ) → Probe
read_probe decoder reply = case_option reply not_responding (λ (kind, payload).
    if not (kind == frame_result)
    then not_responding
    else case_option (decoder.strict payload) not_responding (λ r.
      case_category r.category (record { live = true; connected = true; failure = none })
        (λ c.
          if valid_category c
          then record { live = false; connected = true; failure = some (category_error c) }
          else not_responding)))

unfoldable pub probe_master : Decoder → Dial → Probe
probe_master decoder refused = record { live = false; connected = false; failure = none }
probe_master decoder (failed_dial e) = record { live = false; connected = false; failure = some e }
probe_master decoder (dialed sent reply) = if sent then read_probe decoder reply else not_responding

-- `Check`: an error, or whether a master answers.
pub data Checked : Type 0 where
  check_failed : ControlFailure → Checked
  checked : Bool → Checked

abbrev pub case_state {ℓ} : {B : Type ℓ} → SocketState → B → B → B → B
case_state unsafe_socket a b c = a
case_state no_socket a b c = b
case_state socket_exists a b c = c

unfoldable pub check : Decoder → Option Bool → SocketState → Dial → Checked
check decoder directory state dial =
    case_option directory (check_failed other_failure) (λ dir_exists.
      if not dir_exists
      then checked false
      else case_state state (check_failed other_failure) (checked false) (
          let p = probe_master decoder dial in
          case_option p.failure (checked p.live) (λ e. check_failed e)))

-- `Exit`: its error. `before` is that of a failed dial or write, and `reply` the frame that came
-- back, with the read's error.
pub data ExitReply : Type 0 where
  no_reply : ControlFailure → ExitReply
  frame : ℕ → List ℕ → ExitReply

abbrev pub case_exit_reply {ℓ} :
    {B : Type ℓ} → ExitReply → (ControlFailure → B) → (ℕ → List ℕ → B) → B
case_exit_reply (no_reply e) f g = f e
case_exit_reply (frame kind payload) f g = g kind payload

unfoldable pub read_exit : Decoder → ExitReply → Option ControlFailure
read_exit decoder reply =
    case_exit_reply reply (λ e. some e)
      (λ kind payload.
        if not (kind == frame_result)
        then some protocol_error
        else case_option (decoder.strict payload) (some protocol_error) (λ r.
          case_category r.category none
            (λ c. if valid_category c then some (category_error c) else some protocol_error)))

unfoldable pub exit : Decoder → Option Bool → SocketState → ExitReply → Option ControlFailure
exit decoder directory state reply = case_option directory (some other_failure) (λ dir_exists.
    if not dir_exists
    then some (category_error (CategoryText.known winsh.Control.Category.unavailable))
    else case_state state (some other_failure)
        (some (category_error (CategoryText.known winsh.Control.Category.unavailable)))
        (read_exit decoder reply))
