-- ===== src/Control/Startup.antt =====
-- `StartOrConnect` and `launchMaster` of internal/control/master_unix.go. A trace lists what was
-- done, newest first, and the operating system answers as a function of it, so another process may
-- change anything between two steps.
pub mod Discipline
pub mod Orders
pub mod Rounds
use winsh.Base.{
  ℕ, zero, suc, Bool, true, false, not, ◌&&◌, ◌||◌, Option, none, some, List, [], ◌∷◌, length, ltb,
  leb, ◌==◌, if◌then◌else◌, case_option, ContextError, context_error,
}
use winsh.Control.Protocol.{frame_result}
use winsh.Control.Wire.{
  CategoryText, no_category, WireResult, Decoder, ControlFailure, context_done, category_error,
  unresponsive, protocol_error, other_failure,
}
use winsh.Control.Sockets.{
  FileInfo, Lstat, SocketState, unsafe_socket, no_socket, socket_exists, socket_state, case_state,
  open_lock, Flock, acquired, held, failed_lock, Dial, Probe, probe_master, case_category,
}
use winsh.Remote.Response.{same_text}

-- What a starter did: the state of the socket it saw, the probe, the lock taken and closed, the
-- wait for another starter, the unlinking of a socket, the call of the resolver, and the start and
-- the killing of a child.
pub data Event : Type 0 where
  inspected : SocketState → Event
  probed : Probe → Event
  locked lock_closed waited removed resolved started killed : Event

abbrev pub Trace : Type 0
Trace = List Event

-- The part of `Identity` that the bootstrap is compared with.
pub record Target : Type 0 where
  pub endpoint : List ℕ
  pub user : List ℕ
  pub target_host : List ℕ

abbrev pub same_target : Target → Target → Bool
same_target a b =
    same_text a.endpoint b.endpoint
    && same_text a.user b.user
    && same_text a.target_host b.target_host

-- The steps of `launchMaster` that can fail, the frame that the child sends, and the context's
-- error behind it.
pub record Launch : Type 0 where
  pub pair : Bool
  pub located : Bool
  pub starts : Bool
  pub connects : Bool
  pub encodes : Bool
  pub reply : Option (ℕ × List ℕ)
  pub context : Option ContextError

pub record Os : Type 0 where
  pub uid : ℕ
  pub decoder : Decoder
  pub lstat : Trace → Lstat
  pub dial : Trace → Dial
  pub open_file : Trace → Option (Option FileInfo)
  pub flock : Trace → Flock
  pub wait : Trace → Option ContextError
  pub context : Trace → Option ContextError
  pub remove : Trace → Bool
  pub resolve : Trace → Option Target
  pub launch : Trace → Launch

pub data Outcome : Type 0 where
  connected : Outcome
  failed : ControlFailure → Outcome
  out_of_rounds : Outcome

abbrev pub case_flock {ℓ} : {B : Type ℓ} → Flock → B → B → B → B
case_flock failed_lock a b c = a
case_flock held a b c = b
case_flock acquired a b c = c

abbrev pub is_empty_category : CategoryText → Bool
is_empty_category no_category = true
is_empty_category _ = false

-- The child is killed, and the lock closed by the deferred call.
abbrev pub kill_child : ControlFailure → Trace → Outcome × Trace
kill_child e tr = (failed e, lock_closed ∷ killed ∷ tr)

unfoldable pub read_ready : Decoder → Launch → Trace → Outcome × Trace
read_ready decoder l tr =
    let lost =
      kill_child (case_option l.context other_failure (λ e. context_done (context_error e))) tr in
    case_option l.reply lost (λ (kind, payload).
      if not (kind == frame_result)
      then lost
      else case_option (decoder.loose payload) (kill_child other_failure tr) (λ r.
        if is_empty_category r.category
        then (connected, lock_closed ∷ tr)
        else kill_child other_failure tr))

-- `launchMaster`
unfoldable pub launch_master : Decoder → Launch → Trace → Outcome × Trace
launch_master decoder l tr =
    if not (l.pair && l.located && l.starts)
    then (failed other_failure, lock_closed ∷ tr)
    else (if not (l.connects && l.encodes)
        then kill_child other_failure (started ∷ tr)
        else read_ready decoder l (started ∷ tr))

abbrev pub is_unresponsive : ControlFailure → Bool
is_unresponsive unresponsive = true
is_unresponsive _ = false

abbrev pub close_failed : ControlFailure → Trace → Outcome × Trace
close_failed e tr = (failed e, lock_closed ∷ tr)

-- Whether the first probe ends the call: its outcome, or none.
unfoldable pub judge_probe : Probe → Option Outcome
judge_probe p =
    if p.live
    then some connected
    else case_option p.failure none
        (λ e. if not (is_unresponsive e) || not p.connected then some (failed e) else none)

module _ (os : Os) (target : Target) where
  -- From the call of the resolver on.
  unfoldable pub bootstrap : Trace → Outcome × Trace
  bootstrap tr =
      case_option (os.context tr)
        (let tr1 = resolved ∷ tr in
          case_option (os.resolve tr) (close_failed other_failure tr1) (λ boot.
            if not (same_target boot target)
            then close_failed other_failure tr1
            else case_option (os.context tr1) (launch_master os.decoder (os.launch tr1) tr1)
                (λ e. close_failed (context_done (context_error e)) tr1)))
        (λ e. close_failed (context_done (context_error e)) tr)

  -- What follows from the second probe.
  unfoldable pub replace_stale : Probe → Trace → Outcome × Trace
  replace_stale p tr =
      if p.live
      then (connected, lock_closed ∷ tr)
      else (if p.connected
          then close_failed (case_option p.failure unresponsive (λ e. e)) tr
          else (if os.remove tr then bootstrap (removed ∷ tr) else close_failed other_failure tr))

  -- The body of the loop once the lock is held.
  unfoldable pub start_locked : Trace → Outcome × Trace
  start_locked tr =
      let state = socket_state os.uid (os.lstat tr) in
      let tr1 = inspected state ∷ tr in
      case_state state (close_failed other_failure tr1) (bootstrap tr1)
        (let p = probe_master os.decoder (os.dial tr1) in replace_stale p (probed p ∷ tr1))

  -- The loop of `StartOrConnect`: the part from the lock on, which goes back to the loop's
  -- beginning where another starter holds the lock.
  unfoldable pub take_lock : (Trace → Outcome × Trace) → Trace → Outcome × Trace
  take_lock again tr =
      if not (open_lock os.uid (os.open_file tr))
      then (failed other_failure, tr)
      else case_flock (os.flock tr) (close_failed other_failure tr)
          (case_option (os.wait (lock_closed ∷ tr)) (again (waited ∷ lock_closed ∷ tr))
            (λ e. close_failed (context_done (context_error e)) tr))
          (start_locked (locked ∷ tr))

  unfoldable pub start_rounds : ℕ → Trace → Outcome × Trace
  start_rounds zero tr = (out_of_rounds, tr)
  start_rounds (suc fuel) tr =
      let state = socket_state os.uid (os.lstat tr) in
      let tr1 = inspected state ∷ tr in
      let again = λ (t : Trace). start_rounds fuel t in
      case_state state (failed other_failure, tr1) (take_lock again tr1)
        (let p = probe_master os.decoder (os.dial tr1) in
          let tr2 = probed p ∷ tr1 in
          case_option (judge_probe p) (take_lock again tr2) (λ o. (o, tr2)))

-- `StartOrConnect`. `is_auto` and `persist_ok` are the checks of the settings; `path_ok` says that
-- `socketPath` and `prepareSocketPath` succeeded.
unfoldable pub start_or_connect : Os → Target → ℕ → Bool → Bool → Bool → Outcome × Trace
start_or_connect os target fuel is_auto persist_ok path_ok =
    if not (is_auto && persist_ok && path_ok)
    then (failed other_failure, [])
    else start_rounds os target fuel []
