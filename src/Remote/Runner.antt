-- ===== src/Remote/Runner.antt =====
-- internal/remote/control_runner.go and runner.go: one command over preauthenticated connections,
-- and the receive loop of session.go that it drains.
pub mod Loop
pub mod Fate
pub mod Completion
pub mod Writers
use winsh.Base.{
  ℕ, zero, suc, Bool, true, false, ◌||◌, Option, none, some, List, [], ◌∷◌, if◌then◌else◌,
  case_option, Error, has_mark, operation_timeout, remote_state_unknown, cleanup_failed, join,
  ContextError, context_error,
}
use winsh.Remote.Response.{Sink, case_received, receive_output, parse_response}
use winsh.Remote.Session.{
  Lane, main, cleanup, receive_lane, receive, History, Network, Session, Started, session,
  not_session, post, case_outcome, case_parsed, is_some, start_session_lanes, send_input,
  close_with,
}

-- How the receive loop ends. The source's loop has no bound on its rounds; `out_of_rounds` is no Go
-- value.
pub data LoopEnd : Type 0 where
  exited : ℕ → LoopEnd
  broke : Error → LoopEnd
  out_of_rounds : LoopEnd

abbrev pub is_context_done : Option ContextError → Bool
is_context_done none = false
is_context_done (some e) = true

abbrev pub case_started {ℓ} : {B : Type ℓ} → Started → (Session → B) → (Error → B) → B
case_started (session s) f g = f s
case_started (not_session e) f g = g e

-- `ctx.Err()` as a function of what has been exchanged so far.
abbrev pub Clock : Type 0
Clock = History → Option ContextError

module _ (net : Network) (clock : Clock) (sink : Sink) where
  open sink use {State}

  -- The loop of `receiveLoop`, once the writers are set.
  unfoldable pub receive_loop : ℕ → History → State → LoopEnd × History × State
  receive_loop zero h s = (out_of_rounds, h, s)
  receive_loop (suc fuel) h s =
      case_option (clock h)
        (let (outcome, h1) = post net receive_lane receive h in
          let again = receive_loop fuel h1 s in
          case_outcome outcome
            (λ e. if has_mark operation_timeout e then again else (broke e, h1, s))
            (λ r.
              case_parsed (parse_response r)
                (λ e. if has_mark operation_timeout e then again else (broke e, h1, s))
                (λ response.
                  let (got, s1) = receive_output sink response s in
                  let more = receive_loop fuel h1 s1 in
                  case_received got (λ e. (broke e, h1, s1)) more (λ code. (exited code, h1, s1)))))
        (λ e. (broke (context_error e), h, s))

-- What `session.receive` hands on: the result of the loop, or the error of its own context where
-- that is done first. A loop that is out of rounds has not ended; its context ends it.
unfoldable pub receive_result : Option ContextError → LoopEnd → ℕ × Option Error
receive_result (some e) end = (0, some (context_error e))
receive_result none (exited code) = (code, none)
receive_result none (broke e) = (0, some e)
receive_result none out_of_rounds = (0, some [])

pub record Outcome : Type 0 where
  pub code : ℕ
  pub run_error : Option Error
  pub cleanup_error : Option Error

module _ (net : Network) (clock : Clock) (sink : Sink) where
  open sink use {State}

  -- The deferred cleanup of `runWithPosters`. A finished command needs only Delete; an interrupted
  -- one is signaled and deleted on the cleanup connection.
  unfoldable pub clean_up :
      Session → Option ContextError → ℕ × Option Error → History → Outcome × History
  clean_up s joined (code, err) h =
      let interrupted = is_some err || is_context_done (clock h) in
      let (failure, h') =
        (if interrupted
          then close_with net cleanup cleanup true s joined h
          else close_with net main cleanup false s joined h) in
      (record { code = code; run_error = err; cleanup_error = failure }, h')

  -- `runWithPosters` with its connections, which no caller leaves nil. `interrupted` is the error with which `receive` leaves before the loop ends,
  -- and `joined` that of the cleanup budget where the loop does not end within it.
  unfoldable pub run_with_posters :
      ℕ
      → Option (List ℕ)
      → Bool
      → Bool
      → Option ContextError
      → Option ContextError
      → History
      → State
      → Outcome × History × State
  run_with_posters fuel prepared codepage_ok has_alternative interrupted joined h s =
      let (started, h1) = start_session_lanes net prepared codepage_ok has_alternative h in
      case_started started
        (λ ses.
          let (sent_error, h2) = send_input net [] true h1 in
          case_option sent_error
            (let (ended, h3, s3) = receive_loop net clock sink fuel h2 s in
              let (o, h4) = clean_up ses joined (receive_result interrupted ended) h3 in
              (o, h4, s3))
            (λ e. let (o, h3) = clean_up ses joined (0, some e) h2 in (o, h3, s)))
        (λ e. (record { code = 0; run_error = some e; cleanup_error = none }, h1, s))

-- `runWithCleanup`, and `run` where the connection is one.
module _ (net : Network) (clock : Clock) (sink : Sink) where
  open sink use {State}

  -- The deferred close.
  unfoldable pub close_quietly :
      Session → Option ContextError → ℕ × Option Error → History → ℕ × Option Error × History
  close_quietly s joined (code, err) h =
      let (failed, h') = close_with net cleanup cleanup false s joined h in
      (code, case_option err (case_option failed none (λ _. some [])) (λ e. some e), h')

  unfoldable pub run_with_cleanup :
      ℕ
      → Option (List ℕ)
      → Bool
      → Bool
      → Option ContextError
      → Option ContextError
      → History
      → State
      → ℕ × Option Error × History × State
  run_with_cleanup fuel prepared codepage_ok has_fallback interrupted joined h s =
      let (started, h1) = start_session_lanes net prepared codepage_ok has_fallback h in
      case_started started
        (λ ses.
          let (sent_error, h2) = send_input net [] true h1 in
          case_option sent_error
            (let (ended, h3, s3) = receive_loop net clock sink fuel h2 s in
              let (code, err, h4) =
                close_quietly ses joined (receive_result interrupted ended) h3 in
              (code, err, h4, s3))
            (λ e.
              let (code, err, h3) = close_quietly ses joined (0, some e) h2 in (code, err, h3, s)))
        (λ e. (0, some e, h1, s))

-- `completedCleanupError`
unfoldable pub completed_cleanup_error : Error → Error
completed_cleanup_error e =
    if has_mark remote_state_unknown e then remote_state_unknown ∷ [] else cleanup_failed ∷ []

-- What `Run` makes of an outcome, and what `RunWithPosters` does: both errors joined.
unfoldable pub run_outcome : Outcome → ℕ × Option Error
run_outcome o =
    case_option o.run_error
      (case_option o.cleanup_error (o.code, none) (λ e. (o.code, some (completed_cleanup_error e))))
      (λ e. (o.code, join (some e) o.cleanup_error))

unfoldable pub joined_outcome : Outcome → ℕ × Option Error
joined_outcome o = (o.code, join o.run_error o.cleanup_error)
