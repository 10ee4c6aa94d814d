-- ===== src/Remote/Upload.antt =====
-- internal/remote/upload.go: the finalizer of an upload, the command that applies the commit.
pub mod Commit
pub mod Accounts
pub mod Settled
pub mod Lanes
pub mod Memory
pub mod Verified
use winsh.Base.{
  ℕ, Bool, true, false, ◌&&◌, Option, none, some, List, [], ◌∷◌, ◌++◌, length, ◌==◌, if◌then◌else◌,
  case_option, Error, ContextError,
}
use winsh.Remote.Codec.Lines.{BoundedOutput, bounded_write}
use winsh.Remote.Response.{Sink, trim_left, trim_right, same_text}
use winsh.Remote.Session.{
  cleanup, History, Network, Session, start_session_lanes, send_input, close_with,
}
use winsh.Remote.Runner.{Clock, receive_loop, receive_result, case_started}

pub record TransferResult : Type 0 where
  pub bytes : ℕ
  pub sha256 : List ℕ
  pub committed : Bool

-- A non-nil error of the transfer, as `errors.As` sees it: whether a FinalizationUnknownError is in
-- it, and the code of its RemoteExitError.
pub record Failure : Type 0 where
  pub unknown : Bool
  pub exit : Option ℕ

abbrev pub plain_failure : Failure
plain_failure = record { unknown = false; exit = none }

abbrev pub finalization_unknown : Failure
finalization_unknown = record { unknown = true; exit = none }

abbrev pub remote_exit : ℕ → Failure
remote_exit code = record { unknown = false; exit = some code }

-- base64.StdEncoding, and the runes of a Go string.
pub record Encoding : Type 0 where
  pub base64 : List ℕ → Option (List ℕ)
  pub runes : List ℕ → List ℕ

abbrev pub Outputs : Type 0
Outputs = BoundedOutput × BoundedOutput

abbrev pub empty_output : ℕ → BoundedOutput
empty_output limit = record { held = []; limit = limit }

abbrev pub written : List ℕ → Bool → ℕ × Option Error
written bytes ok = if ok then (length bytes, none) else (0, some [])

abbrev pub put_output : Bool → Outputs → List ℕ → ℕ × Option Error × Outputs
put_output true (out, err) bytes =
    let (ok, err') = bounded_write err bytes in
    let (n, failure) = written bytes ok in (n, failure, (out, err'))
put_output false (out, err) bytes =
    let (ok, out') = bounded_write out bytes in
    let (n, failure) = written bytes ok in (n, failure, (out', err))

abbrev pub output_sink : Encoding → Sink
output_sink encoding = record { State = Outputs; out = put_output; decode = encoding.base64 }

-- `strings.TrimSpace`
abbrev pub trimmed : Encoding → BoundedOutput → List ℕ
trimmed encoding output = trim_right (trim_left (encoding.runes output.held))

-- "OK: committed:"
abbrev pub committed_prefix : List ℕ
committed_prefix = 79 ∷ 75 ∷ 58 ∷ 32 ∷ 99 ∷ 111 ∷ 109 ∷ 109 ∷ 105 ∷ 116 ∷ 116 ∷ 101 ∷ 100 ∷ 58 ∷ []

abbrev pub join_failure : Option Failure → Option Error → Option Failure
join_failure (some f) e = some f
join_failure none (some e) = some plain_failure
join_failure none none = none

abbrev pub commit : TransferResult → TransferResult
commit r = record r { committed = true }

module _ (encoding : Encoding) where
  -- What the finalizer's exit and output mean.
  unfoldable pub judge :
      List ℕ → TransferResult → ℕ × Option Error → Outputs → TransferResult × Option Failure
  judge id r (code, err) (out, err_out) =
      case_option err
        (if code == 0
          then (if same_text (trimmed encoding out) (committed_prefix ++ id)
                && length err_out.held == 0
              then (commit r, none)
              else (r, some finalization_unknown))
          else (r, some (remote_exit code)))
        (λ e. (r, some finalization_unknown))

module _ (net : Network) (clock : Clock) (encoding : Encoding) where
  -- The deferred close of the finalizer's session.
  unfoldable pub close_finalizer :
      Session
      → Option ContextError
      → TransferResult × Option Failure
      → History
      → TransferResult × Option Failure × History
  close_finalizer s joined (r, f) h =
      let (failure, h') = close_with net cleanup cleanup false s joined h in
      (r, join_failure f failure, h')

  -- `dispatchFinalizer`. `script_ok` says that `transferScript` succeeded, and `prepared` is what
  -- `Command` makes of the script.
  unfoldable pub dispatch_finalizer :
      ℕ
      → Bool
      → Option (List ℕ)
      → Option ContextError
      → Option ContextError
      → List ℕ
      → TransferResult
      → History
      → TransferResult × Option Failure × History
  dispatch_finalizer fuel script_ok prepared interrupted joined id r h =
      if script_ok
      then (let (started, h1) = start_session_lanes net prepared true true h in
          case_started started
            (λ s.
              let (sent_error, h2) = send_input net [] true h1 in
              case_option sent_error
                (let (ended, h3, outputs) =
                    receive_loop net clock (output_sink encoding) fuel h2
                      (empty_output 256, empty_output 1024) in
                  close_finalizer s joined
                    (judge encoding id r (receive_result interrupted ended) outputs) h3)
                (λ e. close_finalizer s joined (r, some finalization_unknown) h2))
            (λ e. (r, some finalization_unknown, h1)))
      else (r, some plain_failure, h)
