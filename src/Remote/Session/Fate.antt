-- ===== src/Remote/Session/Fate.antt =====
-- internal/remote/session.go: what the errors of `startSessionLanes` and `closeWith` say about the
-- remote shell.
use winsh.Base.{
  ℕ, ◌≡◌, ◌⊎◌, inl, inr, refl, sym, ◌∙◌, Bool, true, false, ◌&&◌, Option, none, List, [], ◌∷◌, ◌++◌,
  if-elim, case_option-elim, arith, Error, All, Any, has_mark, has_mark-append, unsent,
  remote_state_unknown, join_errors,
}
use mathlib.Core.List.{append_assoc}
use winsh.Remote.Response.{parse_response, delete_response}
use winsh.Remote.Session.{
  create, command, delete, cleanup, alternative, main, Exchange, History, Network, post, is_unsent,
  expect, case_outcome-elim, case_parsed-elim, uncertain, Started, session, not_session,
  delete_shell_best_effort, abandon, start_command, open_shell, start_session_lanes,
}

-- The exchanges that a call added to the history, and what they show.
pub record Added {ℓ} (P : List Exchange → Type ℓ) (h h' : History) : Type ℓ where
  pub new : List Exchange
  pub extends : h' ≡ new ++ h
  pub shows : P new

-- Every request came back unsent.
abbrev pub Untouched : List Exchange → Type 0
Untouched = All (λ x. is_unsent x.outcome ≡ true)

-- A Delete was answered by a DeleteResponse.
abbrev pub IsConfirmed : Exchange → Type 0
IsConfirmed x = (x.message ≡ delete) × (expect delete_response x.outcome ≡ none)

abbrev pub Deleted : List Exchange → Type 0
Deleted = Any IsConfirmed

pub Deleted-append : (xs ys : List Exchange) → Deleted xs → Deleted (xs ++ ys)
Deleted-append [] ys d = absurd d
Deleted-append (x ∷ xs) ys (inl d) = inl d
Deleted-append (x ∷ xs) ys (inr d) = inr (Deleted-append xs ys d)

unknown_joined :
    (e : Error) → has_mark remote_state_unknown (join_errors e (remote_state_unknown ∷ [])) ≡ true
unfolding has_mark
unknown_joined e =
    ground (arith, has_mark-append remote_state_unknown e (remote_state_unknown ∷ []))

-- A call that ends without the mark of an uncertain state left nothing behind: no request of it
-- left, or the shell was deleted.
abbrev pub Settled : Started → List Exchange → Type 0
Settled (session s) new = Unit {0}
Settled (not_session e) new = has_mark remote_state_unknown e ≡ false → Untouched new ⊎ Deleted new

abbrev pub Cleaned : Started → List Exchange → Type 0
Cleaned (session s) new = Unit {0}
Cleaned (not_session e) new = has_mark remote_state_unknown e ≡ false → Deleted new

Cleaned-append : (s : Started) (new old : List Exchange) → Cleaned s new → Cleaned s (new ++ old)
Cleaned-append (session s) new old c = tt
Cleaned-append (not_session e) new old c = λ m. Deleted-append new old (c m)

Cleaned-Settled : (s : Started) (new : List Exchange) → Cleaned s new → Settled s new
Cleaned-Settled (session s) new c = tt
Cleaned-Settled (not_session e) new c = λ m. inr (c m)

-- The exchanges behind one that came first.
Cleaned-after :
    (s : Started) (x : Exchange) (h h' : History)
    → Added (Cleaned s) (x ∷ h) h'
    → Added (Cleaned s) h h'
Cleaned-after s x h h' a = record {
  new = a.new ++ (x ∷ []);
  extends = a.extends ∙ sym (append_assoc a.new (x ∷ []) h);
  shows = Cleaned-append s a.new (x ∷ []) a.shows;
}

module _ (net : Network) where
  best_effort-Deleted :
      (has_alternative : Bool) (h : History)
      → let r = delete_shell_best_effort net has_alternative h in
        Added (λ new. r.0 ≡ none → Deleted new) h r.1
  unfolding delete_shell_best_effort post
  best_effort-Deleted has_alternative h =
      let P : Option Error × History → Type 0 =
        λ r. Added (λ new. r.0 ≡ none → Deleted new) h r.1 in
      let first = net cleanup delete h in
      let x : Exchange = record { lane = cleanup; message = delete; outcome = first } in
      if-elim P (is_unsent first && has_alternative)
        (λ _.
          let y : Exchange = record {
            lane = alternative;
            message = delete;
            outcome = net alternative delete (x ∷ h);
          } in
          record { new = y ∷ x ∷ []; extends = refl; shows = λ e. inl (refl, e) })
        (λ _. record { new = x ∷ []; extends = refl; shows = λ e. inl (refl, e) })

  abandon-Cleaned :
      (has_alternative : Bool) (e : Error) (h : History)
      → let r = abandon net has_alternative e h in Added (Cleaned r.0) h r.1
  unfolding abandon
  abandon-Cleaned has_alternative e h =
      let d = best_effort-Deleted has_alternative h in
      let P : Started × History → Type 0 = λ r. Added (Cleaned r.0) h r.1 in
      case_option-elim P (delete_shell_best_effort net has_alternative h).0
        (λ fine. record { new = d.new; extends = d.extends; shows = λ _. d.shows fine })
        (λ failure _. record {
          new = d.new;
          extends = d.extends;
          shows = λ m. absurd (cc (unknown_joined e));
        })

  start_command-Cleaned :
      (has_alternative : Bool) (shell_id text : List ℕ) (h : History)
      → let r = start_command net has_alternative shell_id text h in Added (Cleaned r.0) h r.1
  unfolding start_command post
  start_command-Cleaned has_alternative shell_id text h =
      let P : Started × History → Type 0 = λ r. Added (Cleaned r.0) h r.1 in
      let outcome = net main (command shell_id text) h in
      let x : Exchange = record {
        lane = main;
        message = command shell_id text;
        outcome = outcome;
      } in
      let given_up : (e : Error) → P (abandon net has_alternative e (x ∷ h)) =
        λ e. Cleaned-after _ x h _ (abandon-Cleaned has_alternative e (x ∷ h)) in
      case_outcome-elim P outcome (λ e _. given_up e)
        (λ r _.
          case_parsed-elim P (parse_response r) (λ e _. given_up e)
            (λ started _.
              if-elim P _ (λ _. record { new = x ∷ []; extends = refl; shows = tt })
                (λ _. given_up [])))

  open_shell-Settled :
      (text : List ℕ) (has_alternative : Bool) (h : History)
      → let r = open_shell net text has_alternative h in Added (Settled r.0) h r.1
  unfolding open_shell post
  open_shell-Settled text has_alternative h =
      let P : Started × History → Type 0 = λ r. Added (Settled r.0) h r.1 in
      let outcome = net main create h in
      let x : Exchange = record { lane = main; message = create; outcome = outcome } in
      let unknown : (e : Error) → P (uncertain e, x ∷ h) =
        λ e. record { new = x ∷ []; extends = refl; shows = λ m. absurd (cc (unknown_joined e)) } in
      case_outcome-elim P outcome
        (λ e lost'.
          if-elim P (has_mark unsent e)
            (λ m. record {
              new = x ∷ [];
              extends = refl;
              shows = λ _. inl (rw lost' (unfold is_unsent in m), tt);
            })
            (λ _. unknown e))
        (λ r _.
          case_parsed-elim P (parse_response r) (λ e _. unknown e)
            (λ opened _.
              if-elim P _
                (λ _.
                  let a = start_command-Cleaned has_alternative opened.shell_id text (x ∷ h) in
                  let b = Cleaned-after _ x h _ a in
                  record {
                    new = b.new;
                    extends = b.extends;
                    shows = Cleaned-Settled _ b.new b.shows;
                  })
                (λ _. unknown [])))

  -- Where `startSessionLanes` fails with an error that does not carry `ErrRemoteStateUnknown`,
  -- either every request of it came back with `errUnsent`, or a Delete of it was answered by a
  -- DeleteResponse, whatever the connections answer.
  pub start_session_lanes-Settled :
      (prepared : Option (List ℕ)) (codepage_ok has_alternative : Bool) (h : History)
      → let r = start_session_lanes net prepared codepage_ok has_alternative h in
        Added (Settled r.0) h r.1
  unfolding start_session_lanes
  start_session_lanes-Settled prepared codepage_ok has_alternative h =
      let P : Started × History → Type 0 = λ r. Added (Settled r.0) h r.1 in
      let early : P (not_session [], h) = record {
        new = [];
        extends = refl;
        shows = λ _. inl tt;
      } in
      case_option-elim P prepared (λ _. early)
        (λ text _.
          if-elim P codepage_ok (λ _. open_shell-Settled text has_alternative h) (λ _. early))
