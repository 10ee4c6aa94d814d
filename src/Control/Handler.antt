-- ===== src/Control/Handler.antt =====
-- `handle` and `checkTarget` of internal/control/server.go: what the master does with the one request
-- of a connection, up to the wait for an answer.
pub mod Entry
use winsh.Base.{
  ℕ, Bool, true, false, not, ◌&&◌, ◌||◌, Option, none, some, List, ◌==◌, if◌then◌else◌, case_option,
}
use winsh.Control.Category.{
  Category, Result, not_started, unavailable, identity_mismatch, persist_mismatch, timeout, failure,
}
use winsh.Control.Protocol.{Read, read_frame, frame_request, frame_check, frame_exit}
use winsh.Control.Client.{Request, validate_call, case_read}
use winsh.Control.Server.{Job, Server, Contexts, enqueue, stop_admission}

-- `controlTarget`, where the identity is compared by `sameTarget`.
pub record ControlTarget (Identity : Type 0) : Type 0 where
  pub identity : Identity
  pub persist : ℕ

-- A call as it arrives: what `validateCall` reads, its target, and whether its deadline is still to
-- come.
pub record Arrival (Call Identity : Type 0) : Type 0 where
  pub request : Request
  pub target : ControlTarget Identity
  pub in_time : Bool
  pub call : Call

-- The payloads that `decodeStrictJSON` reads.
pub record Payloads (Call Identity : Type 0) : Type 0 where
  pub target_of : List ℕ → Option (ControlTarget Identity)
  pub call_of : List ℕ → Option (Arrival Call Identity)

-- How `handle` goes on: it closes the connection without a word, writes a result or an error, waits
-- for its job, or waits for the master's end.
pub data Handled (Call : Type 0) : Type 0 where
  silent : Handled Call
  result_reply : Result → Handled Call
  error_reply : Category → Handled Call
  waits_for : Job Call → Handled Call
  waits_for_end : Handled Call

abbrev pub done_result : Result
done_result = record { exit_code = 0; category = none }

module _ {Call Identity : Type 0} (payloads : Payloads Call Identity)
    (same_target : Identity → Bool) (persist : ℕ) where
  -- `checkTarget`: none where its result has no category.
  unfoldable pub check_target : Bool → ControlTarget Identity → Option Category
  check_target exiting target =
      if exiting
      then some unavailable
      else (if not (same_target target.identity)
          then some identity_mismatch
          else (if not (persist == target.persist) then some persist_mismatch else none))

  unfoldable pub handle_target : Bool → Bool → List ℕ → Server Call → Handled Call × Server Call
  handle_target is_exit exiting payload s =
      case_option (payloads.target_of payload) (error_reply not_started, s)
        (λ target.
          case_option (check_target exiting target)
            (if is_exit then (waits_for_end, stop_admission s) else (result_reply done_result, s))
            (λ c. (result_reply (failure c), s)))

  -- The arrival of a call; `id` is the identity of the new `done` channel.
  unfoldable pub submit :
      Contexts → ℕ → Arrival Call Identity → Server Call → Handled Call × Server Call
  submit contexts id arrival s =
      let job : Job Call = record { id = id; call = arrival.call } in
      let (category, s') = enqueue contexts job s in
      (case_option category (waits_for job) (λ c. error_reply c), s')

  unfoldable pub handle_call :
      Contexts → ℕ → Bool → List ℕ → Server Call → Handled Call × Server Call
  handle_call contexts id exiting payload s =
      case_option (payloads.call_of payload) (error_reply not_started, s)
        (λ arrival.
          if not (validate_call arrival.request)
          then (error_reply not_started, s)
          else case_option (check_target exiting arrival.target)
              (if arrival.in_time
                then submit contexts id arrival s
                else (result_reply (failure timeout), s))
              (λ c. (result_reply (failure c), s)))

  -- `handle`. `exiting` is what `checkTarget` read; the state may have changed since then.
  unfoldable pub handle : Contexts → ℕ → Bool → List ℕ → Server Call → Handled Call × Server Call
  handle contexts id exiting input s =
      case_read (read_frame input) (λ e. (silent, s))
        (λ (kind, payload, rest).
          if kind == frame_check || kind == frame_exit
          then handle_target (kind == frame_exit) exiting payload s
          else (if kind == frame_request
              then handle_call contexts id exiting payload s
              else (error_reply not_started, s)))
