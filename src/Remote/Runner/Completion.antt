-- ===== src/Remote/Runner/Completion.antt =====
-- internal/remote/control_runner.go and runner.go: what a run without an error shows.
use winsh.Base.{
  ℕ, ◌≡◌, ◌≢◌, refl, sym, ap, ◌∙◌, Bool, true, false, ◌||◌, if-elim, Option, none, some, List, [],
  case_option-elim, arith, Error, ContextError,
}
use winsh.Remote.Response.{Sink}
use winsh.Remote.Session.{
  main, cleanup, is_some, History, Network, Session, send_input, start_session_lanes,
}
use winsh.Remote.Session.Receives.{receives, receives-close_with}
use winsh.Remote.Session.Fate.{Added, Deleted}
use winsh.Remote.Session.Closing.{is_certain}
use winsh.Remote.Runner.{
  Clock, LoopEnd, exited, broke, out_of_rounds, receive_loop, receive_result, Outcome, clean_up,
  run_with_posters, run_outcome, is_context_done,
}
use winsh.Remote.Runner.Loop.{Exited, receive_loop-Exited}
use winsh.Remote.Runner.Fate.{case_started-elim, clean_up-Deleted}

-- What stands behind a run without an error: the exit code of the reply to its last Receive, no
-- Receive behind it, and a Delete behind it that was answered by a DeleteResponse.
pub record Completed (net : Network) (clock : Clock) (sink : Sink) (code : ℕ) (h : History)
    (t : sink.State) : Type 0 where
  pub drained : History
  pub exit : Exited net clock sink code drained t
  pub ended : receives h ≡ receives drained
  pub deleted : Added Deleted drained h

pub received_code :
    (interrupted : Option ContextError) (end : LoopEnd) (code : ℕ)
    → receive_result interrupted end ≡ (code, none)
    → end ≡ exited code
unfolding receive_result
received_code (some e) end code q = absurd (cc)
received_code none (exited n) code q = cc
received_code none (broke e) code q = absurd (cc)
received_code none out_of_rounds code q = absurd (cc)

pub received-none :
    (interrupted : Option ContextError) (end : LoopEnd) (code : ℕ)
    → receive_result interrupted end ≡ (code, none)
    → interrupted ≡ none
unfolding receive_result
received-none (some e) end code q = absurd (cc)
received-none none end code q = refl

run_fine :
    (o : Outcome) (code : ℕ)
    → run_outcome o ≡ (code, none)
    → (o.code ≡ code) × (o.run_error ≡ none) × (o.cleanup_error ≡ none)
unfolding run_outcome
run_fine o code e = ground arith

clean_up-result :
    (net : Network) (clock : Clock) (sink : Sink) (s : Session) (joined : Option ContextError)
    (r : ℕ × Option Error) (h : History)
    → let c = clean_up net clock sink s joined r h in (c.0.code ≡ r.0) × (c.0.run_error ≡ r.1)
unfolding clean_up
clean_up-result net clock sink s joined (code, e) h = (refl, refl)

same_pair :
    {a c : ℕ} {b d : Option Error} → a ≡ c → b ≡ d → ◌≡◌ {A = ℕ × Option Error} (a, b) (c, d)
same_pair p q = cc

module _ (net : Network) (clock : Clock) (sink : Sink) where
  open sink use {State}

  receives-clean_up :
      (ses : Session) (joined : Option ContextError) (r : ℕ × Option Error) (h : History)
      → receives (clean_up net clock sink ses joined r h).1 ≡ receives h
  unfolding clean_up
  receives-clean_up ses joined (code, e) h =
      if-elim (λ (c : Option Error × History). receives c.1 ≡ receives h)
        (is_some e || is_context_done (clock h))
        (λ _. receives-close_with net cleanup cleanup true ses joined h)
        (λ _. receives-close_with net main cleanup false ses joined h)

  drained-Completed :
      (fuel : ℕ) (ses : Session) (interrupted joined : Option ContextError) (h : History)
      (s : State) (code : ℕ)
      → let l = receive_loop net clock sink fuel h s in
        let c = clean_up net clock sink ses joined (receive_result interrupted l.0) l.1 in
        run_outcome c.0 ≡ (code, none) → Completed net clock sink code c.1 l.2
  drained-Completed fuel ses interrupted joined h s code q =
      let l = receive_loop net clock sink fuel h s in
      let r = receive_result interrupted l.0 in
      let c = clean_up net clock sink ses joined r l.1 in
      let (same_code, no_error, cleaned) = run_fine c.0 code q in
      let same = clean_up-result net clock sink ses joined r l.1 in
      let ended =
        received_code interrupted l.0 code
          (same_pair (sym same.0 ∙ same_code) (sym same.1 ∙ no_error)) in
      let d = clean_up-Deleted net clock sink ses joined r l.1 in
      record {
        drained = l.1;
        exit =
            receive_loop-Exited net clock sink fuel h l.1 s l.2 code
              (ap (λ (x : LoopEnd). (x, l.1, l.2)) ended);
        ended = receives-clean_up ses joined r l.1;
        deleted = record {
          new = d.new;
          extends = d.extends;
          shows = d.shows (ap is_certain cleaned);
        };
      }

  failed-Incomplete :
      (ses : Session) (e : Error) (joined : Option ContextError) (h : History) (code : ℕ)
      → run_outcome (clean_up net clock sink ses joined (0, some e) h).0 ≢ (code, none)
  failed-Incomplete ses e joined h code q =
      let c = clean_up net clock sink ses joined (0, some e) h in
      let (same_code, no_error, cleaned) = run_fine c.0 code q in
      cc ((clean_up-result net clock sink ses joined (0, some e) h).1, no_error)

  -- A run of `Run` that returns without an error returns the exit code that the reply to its last
  -- Receive carries, after the writers took all of that reply's output, and a Delete behind this
  -- Receive was answered by a DeleteResponse. No Receive is sent behind it.
  pub run-Completed :
      (fuel : ℕ) (prepared : Option (List ℕ)) (codepage_ok has_alternative : Bool)
      (interrupted joined : Option ContextError) (h : History) (s : State) (code : ℕ)
      → let r =
          run_with_posters net clock sink fuel prepared codepage_ok has_alternative interrupted
            joined h s in
        run_outcome r.0 ≡ (code, none) → Completed net clock sink code r.1 r.2
  unfolding run_with_posters
  run-Completed fuel prepared codepage_ok has_alternative interrupted joined h s code =
      let Q : Outcome × History × State → Type 0 =
        λ r. (run_outcome r.0 ≡ (code, none) → Completed net clock sink code r.1 r.2) in
      let h1 = (start_session_lanes net prepared codepage_ok has_alternative h).1 in
      case_started-elim Q (start_session_lanes net prepared codepage_ok has_alternative h).0
        (λ ses _.
          let h2 = (send_input net [] true h1).1 in
          case_option-elim Q (send_input net [] true h1).0
            (λ _ q. drained-Completed fuel ses interrupted joined h2 s code q)
            (λ e _ q. absurd (failed-Incomplete ses e joined h2 code q)))
        (λ e failed q. absurd (
          cc ((run_fine (record { code = 0; run_error = some e; cleanup_error = none }) code q).1)))
