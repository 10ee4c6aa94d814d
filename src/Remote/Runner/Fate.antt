-- ===== src/Remote/Runner/Fate.antt =====
-- internal/remote/control_runner.go and runner.go: what a run reports about the remote shell and
-- the exit code.
use winsh.Base.{
  ℕ, ◌≡◌, ◌⊎◌, inl, inr, refl, sym, ap, ◌∙◌, Bool, true, false, ◌||◌, Option, none, some, List, [],
  ◌∷◌, ◌++◌, if-elim, case_option-elim, arith, Error, has_mark, has_mark-append,
  remote_state_unknown, join, ContextError,
}
use winsh.Base.{subst}
use mathlib.Core.List.{append_assoc}
use winsh.Remote.Response.{Sink}
use winsh.Remote.Session.{
  main, cleanup, Exchange, History, Network, Session, Started, session, not_session, send_input,
  send_lane, send, post, start_session_lanes, is_some,
}
use winsh.Remote.Session.Fate.{
  Added, Untouched, Deleted, Deleted-append, Settled, start_session_lanes-Settled,
}
use winsh.Remote.Session.Closing.{is_certain, close_with_certain}
use winsh.Remote.Runner.{
  Clock, receive_loop, receive_result, Outcome, clean_up, run_with_posters, completed_cleanup_error,
  run_outcome, joined_outcome, is_context_done, case_started,
}
use winsh.Remote.Runner.Loop.{Extends, Extends-trans, receive_loop-Extends}

-- An outcome without `ErrRemoteStateUnknown` in either of its errors.
abbrev pub IsSure : Outcome → Type 0
IsSure o = (is_certain o.run_error ≡ true) × (is_certain o.cleanup_error ≡ true)

join-sure :
    (a b : Option Error)
    → is_certain (join a b) ≡ true
    → (is_certain a ≡ true) × (is_certain b ≡ true)
join-sure none b e = (refl, e)
join-sure (some a) none e = (e, refl)
join-sure (some a) (some b) e = ground (arith, has_mark-append remote_state_unknown a b)

completed-sure :
    (e : Error)
    → is_certain (some (completed_cleanup_error e)) ≡ true
    → has_mark remote_state_unknown e ≡ false
unfolding completed_cleanup_error has_mark
completed-sure e c = ground arith

run_sure :
    (code : ℕ) (run_error cleanup_error : Option Error)
    → is_certain
        (run_outcome
          (record { code = code; run_error = run_error; cleanup_error = cleanup_error })).1
      ≡ true
    → (is_certain run_error ≡ true) × (is_certain cleanup_error ≡ true)
unfolding run_outcome
run_sure code none none e = (refl, refl)
run_sure code none (some c) e = (refl, ground (arith, completed-sure c e))
run_sure code (some a) c e = join-sure (some a) c e

run_outcome-IsSure : (o : Outcome) → is_certain (run_outcome o).1 ≡ true → IsSure o
run_outcome-IsSure o e = run_sure o.code o.run_error o.cleanup_error e

joined_outcome-IsSure : (o : Outcome) → is_certain (joined_outcome o).1 ≡ true → IsSure o
unfolding joined_outcome
joined_outcome-IsSure o e = join-sure o.run_error o.cleanup_error e

pub case_started-elim {ℓ κ} :
    {B : Type ℓ} (P : B → Type κ) (o : Started) {f : Session → B} {g : Error → B}
    → ((s : Session) → o ≡ session s → P (f s))
    → ((e : Error) → o ≡ not_session e → P (g e))
    → P (case_started o f g)
case_started-elim P (session s) p q = p s refl
case_started-elim P (not_session e) p q = q e refl

any_Extends : {P : List Exchange → Type 0} (h h' : History) → Added P h h' → Extends h h'
any_Extends h h' a = record { new = a.new; extends = a.extends; shows = tt }

not_marked : (e : Error) → is_certain (some e) ≡ true → has_mark remote_state_unknown e ≡ false
not_marked e c = ground arith

module _ (net : Network) (clock : Clock) (sink : Sink) where
  open sink use {State}

  pub clean_up-Deleted :
      (s : Session) (joined : Option ContextError) (r : ℕ × Option Error) (h : History)
      → let c = clean_up net clock sink s joined r h in
        Added (λ new. is_certain c.0.cleanup_error ≡ true → Deleted new) h c.1
  unfolding clean_up
  clean_up-Deleted s joined (code, err) h =
      let P : Option Error × History → Type 0 =
        λ c. Added (λ new. is_certain c.0 ≡ true → Deleted new) h c.1 in
      if-elim P (is_some err || is_context_done (clock h))
        (λ _.
          let a = close_with_certain net cleanup cleanup true s joined h in
          record { new = a.new; extends = a.extends; shows = a.shows.0 })
        (λ _.
          let a = close_with_certain net main cleanup false s joined h in
          record { new = a.new; extends = a.extends; shows = a.shows.0 })

  -- The exchanges between the start of the session and its cleanup.
  Cleared : History → Outcome × History × State → Type 0
  Cleared h r = Added (λ new. is_certain r.0.cleanup_error ≡ true → Deleted new) h r.1

  Cleared-after :
      (h h' : History) (r : Outcome × History × State) → Extends h h' → Cleared h' r → Cleared h r
  unfolding Cleared
  Cleared-after h h' r a c = record {
    new = c.new ++ a.new;
    extends = c.extends ∙ ap (◌++◌ c.new) a.extends ∙ sym (append_assoc c.new a.new h);
    shows = λ sure. Deleted-append c.new a.new (c.shows sure);
  }

  sent_input : (h h1 : History) → Extends h h1 → Extends h (send_input net [] true h1).1
  unfolding send_input post
  sent_input h h1 a =
      let x : Exchange = record {
        lane = send_lane;
        message = send [] true;
        outcome = net send_lane (send [] true) h1;
      } in
      record { new = x ∷ a.new; extends = ap (◌∷◌ x) a.extends; shows = tt }

  drained :
      (fuel : ℕ) (interrupted joined : Option ContextError) (s : State) (ses : Session)
      (h h1 : History)
      → Extends h h1
      → let h2 = (send_input net [] true h1).1 in
        let l = receive_loop net clock sink fuel h2 s in
        let c = clean_up net clock sink ses joined (receive_result interrupted l.0) l.1 in
        Cleared h (c.0, c.1, l.2)
  drained fuel interrupted joined s ses h h1 a =
      let h2 = (send_input net [] true h1).1 in
      let l = receive_loop net clock sink fuel h2 s in
      let e =
        Extends-trans h h2 l.1 (sent_input h h1 a)
          (receive_loop-Extends net clock sink fuel h2 s) in
      let c = clean_up net clock sink ses joined (receive_result interrupted l.0) l.1 in
      Cleared-after h l.1 (c.0, c.1, l.2) e
        (unfold Cleared in clean_up-Deleted ses joined (receive_result interrupted l.0) l.1)

  run_with_posters-Settled :
      (fuel : ℕ) (prepared : Option (List ℕ)) (codepage_ok has_alternative : Bool)
      (interrupted joined : Option ContextError) (h : History) (s : State)
      → let r =
          run_with_posters net clock sink fuel prepared codepage_ok has_alternative interrupted
            joined h s in
        Added (λ new. IsSure r.0 → Untouched new ⊎ Deleted new) h r.1
  unfolding run_with_posters Cleared
  run_with_posters-Settled fuel prepared codepage_ok has_alternative interrupted joined h s =
      let Q : Outcome × History × State → Type 0 =
        λ r. Added (λ new. IsSure r.0 → Untouched new ⊎ Deleted new) h r.1 in
      let from_clear : (r : Outcome × History × State) → Cleared h r → Q r =
        λ r c. record { new = c.new; extends = c.extends; shows = λ sure. inr (c.shows sure.1) } in
      let a = start_session_lanes-Settled net prepared codepage_ok has_alternative h in
      let h1 = (start_session_lanes net prepared codepage_ok has_alternative h).1 in
      case_started-elim Q (start_session_lanes net prepared codepage_ok has_alternative h).0
        (λ ses _.
          let h2 = (send_input net [] true h1).1 in
          let l = receive_loop net clock sink fuel h2 s in
          let c = clean_up net clock sink ses joined (receive_result interrupted l.0) l.1 in
          case_option-elim Q (send_input net [] true h1).0
            (λ _.
              from_clear (c.0, c.1, l.2)
                (drained fuel interrupted joined s ses h h1 (any_Extends h h1 a)))
            (λ e _.
              let c' = clean_up net clock sink ses joined (0, some e) h2 in
              from_clear (c'.0, c'.1, s)
                (Cleared-after h h2 (c'.0, c'.1, s) (sent_input h h1 (any_Extends h h1 a))
                  (clean_up-Deleted ses joined (0, some e) h2))))
        (λ e failed. record {
          new = a.new;
          extends = a.extends;
          shows = λ sure. subst (λ t. Settled t a.new) failed a.shows (not_marked e sure.0);
        })

  -- Where the error of `Run` or of `RunWithPosters` does not carry `ErrRemoteStateUnknown`, or there
  -- is none, either every request of the run came back with `errUnsent`, or a Delete of its shell was
  -- answered by a DeleteResponse, whatever the connections answer and whenever the context ends.
  pub run_accounted :
      (fuel : ℕ) (prepared : Option (List ℕ)) (codepage_ok has_alternative : Bool)
      (interrupted joined : Option ContextError) (h : History) (s : State)
      → let r =
          run_with_posters net clock sink fuel prepared codepage_ok has_alternative interrupted
            joined h s in
        Added
          (λ new.
            (is_certain (run_outcome r.0).1 ≡ true) ⊎ (is_certain (joined_outcome r.0).1 ≡ true)
            → Untouched new ⊎ Deleted new)
          h
          r.1
  run_accounted fuel prepared codepage_ok has_alternative interrupted joined h s =
      let r =
        run_with_posters net clock sink fuel prepared codepage_ok has_alternative interrupted joined
          h s in
      let a =
        run_with_posters-Settled fuel prepared codepage_ok has_alternative interrupted joined h s in
      record {
        new = a.new;
        extends = a.extends;
        shows = λ sure.
            a.shows (elim sure [
              | inl x ↦ run_outcome-IsSure r.0 x
              | inr x ↦ joined_outcome-IsSure r.0 x
            ]);
      }
