-- ===== src/Remote/Session.antt =====
-- internal/remote/session.go: the SOAP exchanges of a session, from the Create of its shell to the
-- Delete. The connections are posters of the caller: the answer of one may depend on every earlier
-- exchange. A history lists the exchanges, newest first.
pub mod Fate
pub mod Closing
pub mod Receives
use winsh.Base.{
  ℕ, ◌≡◌, refl, zero, suc, ◌+◌, Bool, true, false, not, ◌&&◌, ◌||◌, Option, none, some, List, [],
  ◌∷◌, ◌++◌, if◌then◌else◌, case_option, Error, has_mark, unsent, operation_timeout,
  remote_state_unknown, not_started, cleanup_failed, join, join_errors, ContextError, context_error,
}
use winsh.Base.{Mark}
use winsh.Remote.Response.{
  Reply, Response, Parsed, parsed, refused, parse_response, same_action, valid_id, create_response,
  command_response, send_response, signal_response, delete_response, Action,
}

-- The posters that a session is given. `alternative` is the session's own fallback.
pub data Lane : Type 0 where
  main cleanup send_lane receive_lane alternative : Lane

-- The requests that go-winrm builds. The shell and the command that the later requests of a session
-- name are left out, but for the shell of a Command: they are the two of the session.
pub data Message : Type 0 where
  create : Message
  command : List ℕ → List ℕ → Message
  send : List ℕ → Bool → Message
  receive : Message
  signal : Message
  delete : Message

-- What `post` returns: a reply or an error. The mark `unsent` says that the request did not leave.
pub data Outcome : Type 0 where
  reply : Reply → Outcome
  lost : Error → Outcome

pub record Exchange : Type 0 where
  pub lane : Lane
  pub message : Message
  pub outcome : Outcome

abbrev pub History : Type 0
History = List Exchange

abbrev pub Network : Type 0
Network = Lane → Message → History → Outcome

unfoldable pub post : Network → Lane → Message → History → Outcome × History
post net lane message h =
    let outcome = net lane message h in
    (outcome, record { lane = lane; message = message; outcome = outcome } ∷ h)

abbrev pub case_outcome {ℓ} : {B : Type ℓ} → Outcome → (Error → B) → (Reply → B) → B
case_outcome (lost e) f g = f e
case_outcome (reply r) f g = g r

abbrev pub case_parsed {ℓ} : {B : Type ℓ} → Parsed Response → (Error → B) → (Response → B) → B
case_parsed (refused e) f g = f e
case_parsed (parsed r) f g = g r

pub case_outcome-elim {ℓ κ} :
    {B : Type ℓ} (P : B → Type κ) (o : Outcome) {f : Error → B} {g : Reply → B}
    → ((e : Error) → o ≡ lost e → P (f e))
    → ((r : Reply) → o ≡ reply r → P (g r))
    → P (case_outcome o f g)
case_outcome-elim P (lost e) p q = p e refl
case_outcome-elim P (reply r) p q = q r refl

pub case_parsed-elim {ℓ κ} :
    {B : Type ℓ} (P : B → Type κ) (o : Parsed Response) {f : Error → B} {g : Response → B}
    → ((e : Error) → o ≡ refused e → P (f e))
    → ((r : Response) → o ≡ parsed r → P (g r))
    → P (case_parsed o f g)
case_parsed-elim P (refused e) p q = p e refl
case_parsed-elim P (parsed r) p q = q r refl

-- `errors.Is(err, errUnsent)`
unfoldable pub is_unsent : Outcome → Bool
is_unsent (reply r) = false
is_unsent (lost e) = has_mark unsent e

-- The error of an exchange that expects a reply with a given action, as the callers of `post` find
-- it: that of the poster, that of `parseResponse`, or one for another action.
unfoldable pub expect : Action → Outcome → Option Error
expect action outcome =
    case_outcome outcome (λ e. some e)
      (λ r.
        case_parsed (parse_response r) (λ e. some e)
          (λ response. if same_action response.action action then none else some []))

-- The parts of a session that a later call reads.
pub record Session : Type 0 where
  pub shell_id : List ℕ
  pub command_id : List ℕ
  pub has_alternative : Bool

pub data Started : Type 0 where
  session : Session → Started
  not_session : Error → Started

abbrev pub uncertain : Error → Started
uncertain e = not_session (join_errors e (remote_state_unknown ∷ []))

abbrev pub alternatives : Lane → Session → List Lane
alternatives fallback s = fallback ∷ (if s.has_alternative then alternative ∷ [] else [])

-- The result of `closeWith` from the errors of Delete and Signal. `joined` is `none` where the
-- receive loop ended within the cleanup budget, and otherwise the budget's error.
unfoldable pub close_result : Option Error → Bool → Option ContextError → Option Error
close_result failed signal_failed joined =
    case_option joined
      (case_option failed (if signal_failed then some (cleanup_failed ∷ []) else none)
        (λ _. some (remote_state_unknown ∷ [])))
      (λ e.
        case_option failed (some (join_errors (cleanup_failed ∷ []) (context_error e)))
          (λ _. some (join_errors (remote_state_unknown ∷ []) (context_error e))))

abbrev pub is_some : Option Error → Bool
is_some none = false
is_some (some e) = true

-- The result of a later call of `closeWith`.
abbrev pub close_again : Option ContextError → Option Error
close_again none = none
close_again (some e) = some (context_error e)

module _ (net : Network) where
  -- `deleteShellBestEffort`, where the shell's identifier is set, as it is behind `validID`.
  unfoldable pub delete_shell_best_effort : Bool → History → Option Error × History
  delete_shell_best_effort has_alternative h =
      let (first, h1) = post net cleanup delete h in
      if is_unsent first && has_alternative
      then (let (second, h2) = post net alternative delete h1 in
          (expect delete_response second, h2))
      else (expect delete_response first, h1)

  -- After a failed Command: the error, and whether the shell's fate is known.
  unfoldable pub abandon : Bool → Error → History → Started × History
  abandon has_alternative e h =
      let (failed, h') = delete_shell_best_effort has_alternative h in
      case_option failed (not_session e, h')
        (λ _. (not_session (join_errors e (remote_state_unknown ∷ [])), h'))

  -- The Command exchange of a shell that is open.
  unfoldable pub start_command : Bool → List ℕ → List ℕ → History → Started × History
  start_command has_alternative shell_id text h =
      let (outcome, h1) = post net main (command shell_id text) h in
      case_outcome outcome (λ e. abandon has_alternative e h1)
        (λ r.
          case_parsed (parse_response r) (λ e. abandon has_alternative e h1)
            (λ started.
              if same_action started.action command_response && valid_id started.command_id
              then (
                session (record {
                  shell_id = shell_id;
                  command_id = started.command_id;
                  has_alternative = has_alternative;
                }),
                h1,
              )
              else abandon has_alternative [] h1))

  -- The Create exchange and what follows from it.
  unfoldable pub open_shell : List ℕ → Bool → History → Started × History
  open_shell text has_alternative h =
      let (outcome, h1) = post net main create h in
      case_outcome outcome
        (λ e. if has_mark unsent e then (not_session (not_started ∷ e), h1) else (uncertain e, h1))
        (λ r.
          case_parsed (parse_response r) (λ e. (uncertain e, h1))
            (λ opened.
              if same_action opened.action create_response && valid_id opened.shell_id
              then start_command has_alternative opened.shell_id text h1
              else (uncertain [], h1)))

  -- `startSessionLanes`. `prepared` is what `Command` returned, and `codepage_ok` is false where a
  -- codepage is asked for and the request has not exactly one place for it.
  unfoldable pub start_session_lanes : Option (List ℕ) → Bool → Bool → History → Started × History
  start_session_lanes prepared codepage_ok has_alternative h =
      case_option prepared (not_session [], h)
        (λ text. if codepage_ok then open_shell text has_alternative h else (not_session [], h))

  -- The loop over the alternatives of `closeWith`: a Delete is sent again only where it did not leave.
  unfoldable pub delete_again : List Lane → Outcome → History → Outcome × History
  delete_again [] outcome h = (outcome, h)
  delete_again (lane ∷ lanes) outcome h =
      let (outcome', h') = post net lane delete h in
      let again = delete_again lanes outcome' h' in
      if is_unsent outcome then again else (outcome, h)

  unfoldable pub close_delete :
      Lane → Lane → Bool → Session → Option ContextError → History → Option Error × History
  close_delete lane fallback signal_failed s joined h =
      let (first, h1) = post net lane delete h in
      let (last, h2) = delete_again (alternatives fallback s) first h1 in
      (close_result (expect delete_response last) signal_failed joined, h2)

  -- The first call of `closeWith`.
  unfoldable pub close_with :
      Lane → Lane → Bool → Session → Option ContextError → History → Option Error × History
  close_with primary fallback with_signal s joined h =
      if with_signal
      then (let (outcome, h1) = post net primary signal h in
          let signal_failed = is_some (expect signal_response outcome) in
          close_delete (if signal_failed then fallback else primary) fallback signal_failed s joined
            h1)
      else close_delete primary fallback false s joined h

  -- `closeWith`. Where an earlier call closed the session, it waits for the end of the receive
  -- loop or of its context.
  unfoldable pub close_session :
      Bool → Lane → Lane → Bool → Session → Option ContextError → History → Option Error × History
  close_session closed primary fallback with_signal s joined h =
      if closed then (close_again joined, h) else close_with primary fallback with_signal s joined h

  -- `send` of a session that is not closed.
  unfoldable pub send_input : List ℕ → Bool → History → Option Error × History
  send_input bytes eof h =
      let (outcome, h1) = post net send_lane (send bytes eof) h in
      (expect send_response outcome, h1)
