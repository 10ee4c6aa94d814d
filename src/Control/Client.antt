-- ===== src/Control/Client.antt =====
-- internal/control/client.go: `Invoke`, the client's side of one command. The connection is the
-- list of bytes that the master sends before a read fails.
pub mod Relay
pub mod Carrying
use winsh.Base.{
  ℕ, zero, suc, ◌+◌, Bool, true, false, not, ◌&&◌, ◌||◌, Option, none, some, List, [], ◌∷◌, length,
  ltb, leb, ◌==◌, if◌then◌else◌, case_option, Error, has_mark, deadline_exceeded, canceled,
  ContextError, context_error, deadline,
}
use winsh.Control.Category
use winsh.Control.Category.{Category, Result}
use winsh.Control.Protocol.{
  Read, ok, err, ReadError, read_frame, frame_stdout, frame_stderr, frame_result, frame_error,
}
use winsh.Control.Wire.{
  CategoryText, no_category, known, valid_category, read_category, ExitCode, code, negative,
  WireResult, Decoder, ControlError, Invoked, invoked, not_invoked,
}

-- The fields of `Call` that `validateCall` reads. `is_utf8` is of unicode/utf8.
pub record Request : Type 0 where
  pub command : List ℕ
  pub is_utf8 : Bool
  pub has_deadline : Bool

abbrev pub has_nul : List ℕ → Bool
has_nul [] = false
has_nul (c ∷ cs) = c == 0 || has_nul cs

-- `validateCall`
unfoldable pub validate_call : Request → Bool
validate_call r =
    not
      (length r.command == 0 || ltb 32768 (length r.command) || not r.is_utf8 || has_nul r.command)
    && r.has_deadline

-- The state of the command when a transport error is looked at: whether its deadline passed, its
-- context's error, whether the error is a network timeout, and what `errors.Is` finds in it.
pub record Ending : Type 0 where
  pub deadline_passed : Bool
  pub context : Option ContextError
  pub timed_out : Bool
  pub marks : Error

-- `transportError` and `transportCommandError`
unfoldable pub transport_marks : Ending → Error
transport_marks e =
    if e.deadline_passed
    then deadline_exceeded ∷ []
    else case_option e.context (if e.timed_out then deadline_exceeded ∷ [] else e.marks)
        (λ done. context_error done)

abbrev pub unknown_state : Error → ControlError
unknown_state marks = record {
  marks = marks;
  password = false;
  category = some Category.remote_state_unknown;
}

-- `uncertainCommandError`
unfoldable pub uncertain_command_error : Ending → ControlError
uncertain_command_error e =
    let marks = transport_marks e in
    if has_mark canceled marks || has_mark deadline_exceeded marks
    then unknown_state marks
    else unknown_state []

-- `ErrProtocol`
abbrev pub bad_protocol : ControlError
bad_protocol = record { marks = []; password = false; category = none }

abbrev pub plain_marks : Error → ControlError
plain_marks marks = record { marks = marks; password = false; category = none }

-- The category of a result that a client accepts, and its exit code.
abbrev pub exit_value : ExitCode → Option ℕ
exit_value (code n) = if ltb 4294967295 n then none else some n
exit_value negative = none

abbrev pub accept_category : Option ContextError → ℕ → CategoryText → Invoked
accept_category ctx n no_category =
    case_option ctx (invoked (record { exit_code = n; category = none }))
      (λ done. not_invoked (plain_marks (context_error done)))
accept_category ctx n (known c) = invoked (record { exit_code = n; category = some c })
accept_category ctx n CategoryText.other_category = not_invoked bad_protocol

-- The frame of a result.
unfoldable pub accept_result : Decoder → Option ContextError → List ℕ → Invoked
accept_result decoder ctx payload =
    case_option (decoder.strict payload) (not_invoked bad_protocol) (λ r.
      case_option (exit_value r.exit_code) (not_invoked bad_protocol)
        (λ n. accept_category ctx n r.category))

abbrev pub refuse_category : CategoryText → Invoked
refuse_category (known c) = not_invoked (record { marks = []; password = false; category = some c })
refuse_category _ = not_invoked bad_protocol

abbrev pub case_read {ℓ} : {A : Type 0} {B : Type ℓ} → Read A → (ReadError → B) → (A → B) → B
case_read (ok a) f g = g a
case_read (err e) f g = f e

-- The caller's writers: `true` is stderr.
pub record Outputs : Type 1 where
  pub State : Type 0
  pub write : Bool → State → List ℕ → ℕ × Option Error × State

-- What happens beside the connection: the error of `commandCtx` behind the n-th frame, and that
-- with which the context ends while the writer of the n-th frame still blocks.
pub record Course : Type 0 where
  pub clock : ℕ → Option ContextError
  pub interrupts : ℕ → Option ContextError
  pub ending : Ending

abbrev pub is_output : ℕ → Bool
is_output kind = kind == frame_stdout || kind == frame_stderr

module _ (decoder : Decoder) (course : Course) (outputs : Outputs) where
  open outputs use {State, write}

  -- The write of an output frame; `again` goes on with the next frame.
  unfoldable pub relay_output :
      (State → Option Invoked × State) → ℕ → ℕ → List ℕ → State → Option Invoked × State
  relay_output again n kind payload s =
      case_option (course.interrupts n)
        (let (count, failure, s') = write (kind == frame_stderr) s payload in
          case_option failure
            (if count == length payload
              then again s'
              else (some (not_invoked (unknown_state [])), s'))
            (λ e. (some (not_invoked (unknown_state e)), s')))
        (λ done. (some (not_invoked (unknown_state (context_error done))), s))

  -- The loop over the frames; `n` counts them. It returns none where it is out of rounds.
  unfoldable pub invoke_rounds : ℕ → ℕ → List ℕ → State → Option Invoked × State
  invoke_rounds zero n input s = (none, s)
  invoke_rounds (suc fuel) n input s =
      case_read (read_frame input)
        (λ e. (some (not_invoked (uncertain_command_error course.ending)), s))
        (λ (kind, payload, rest).
          let again = λ (t : State). invoke_rounds fuel (suc n) rest t in
          if is_output kind
          then case_option (course.clock n) (relay_output again n kind payload s) (λ done. again s)
          else (if kind == frame_result
              then (some (accept_result decoder (course.clock n) payload), s)
              else (if kind == frame_error
                  then (some (refuse_category (read_category payload)), s)
                  else (some (not_invoked bad_protocol), s))))

  -- `invokeConn`. `has_writers` says that neither writer is nil, `deadline_set` that the deadline of
  -- the connection could be set, and `sent` that the request could be written.
  unfoldable pub invoke_conn :
      Request → Bool → Bool → Bool → List ℕ → State → Option Invoked × State
  invoke_conn request has_writers deadline_set sent input s =
      if not (validate_call request && has_writers)
      then (some (not_invoked bad_protocol), s)
      else (if not deadline_set
          then (some (not_invoked (plain_marks [])), s)
          else (if not sent
              then (some (not_invoked (uncertain_command_error course.ending)), s)
              else invoke_rounds (suc (length input)) 0 input s))

  -- `Invoke`. `in_time` says that the deadline is still to come, and `dial_error` is that of the
  -- connection.
  unfoldable pub invoke :
      Request → Bool → Option Error → Bool → Bool → Bool → List ℕ → State → Option Invoked × State
  invoke request in_time dial_error has_writers deadline_set sent input s =
      if not (validate_call request)
      then (some (not_invoked bad_protocol), s)
      else (if not in_time
          then (some (not_invoked (plain_marks (context_error deadline))), s)
          else case_option dial_error (invoke_conn request has_writers deadline_set sent input s)
              (λ e. (some (not_invoked (plain_marks e)), s)))
