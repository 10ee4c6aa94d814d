-- ===== src/Remote/Session/Closing.antt =====
-- internal/remote/session.go: what `closeWith` reports about the Delete of the shell.
use winsh.Base.{
  ◌≡◌, ◌≢◌, ◌⊎◌, ◌↔◌, inl, inr, refl, sym, ◌∙◌, Bool, true, false, not, Option, none, some, List,
  [], ◌∷◌, ◌++◌, if◌then◌else◌, if-elim, Error, has_mark, remote_state_unknown, ContextError,
  deadline, cancellation,
}
use mathlib.Core.List.{append_assoc}
use winsh.Remote.Response.{delete_response, signal_response}
use winsh.Remote.Session.{
  Lane, delete, signal, Outcome, reply, lost, Exchange, History, Network, post, is_unsent, expect,
  Session, delete_again, close_result, close_delete, close_with, close_session, close_again,
  alternatives, is_some,
}
use winsh.Remote.Session.Fate.{Added, Deleted, IsConfirmed, Deleted-append}

Deleted-snoc :
    (xs : List Exchange) (x : Exchange) → Deleted (xs ++ (x ∷ [])) → Deleted xs ⊎ IsConfirmed x
Deleted-snoc [] x (inl c) = inr c
Deleted-snoc [] x (inr d) = absurd d
Deleted-snoc (y ∷ xs) x (inl c) = inl (inl c)
Deleted-snoc (y ∷ xs) x (inr d) = elim (Deleted-snoc xs x d) [ inl e ↦ inl (inr e) | inr c ↦ inr c ]

Deleted-last : (xs : List Exchange) (x : Exchange) → IsConfirmed x → Deleted (xs ++ (x ∷ []))
Deleted-last [] x c = inl c
Deleted-last (y ∷ xs) x c = inr (Deleted-last xs x c)

-- A request that did not leave has no reply.
unsent-unanswered : (o : Outcome) → is_unsent o ≡ true → expect delete_response o ≢ none
unfolding is_unsent expect
unsent-unanswered (lost e) u n = cc
unsent-unanswered (reply r) u n = cc

module _ (net : Network) where
  -- The loop over the alternatives ends with a DeleteResponse exactly where one came.
  delete_again-Deleted :
      (lanes : List Lane) (o : Outcome) (h : History)
      → let r = delete_again net lanes o h in
        Added
          (λ new.
            (expect delete_response r.0 ≡ none) ↔ (Deleted new ⊎ (expect delete_response o ≡ none)))
          h
          r.1
  unfolding delete_again post
  delete_again-Deleted [] o h = record {
    new = [];
    extends = refl;
    shows = (λ e. inr e, λ d. elim d [ inl x ↦ absurd x | inr e ↦ e ]);
  }
  delete_again-Deleted (lane ∷ lanes) o h =
      let o1 = net lane delete h in
      let y : Exchange = record { lane = lane; message = delete; outcome = o1 } in
      let P : Outcome × History → Type 0 = λ r.
        Added
          (λ new.
            (expect delete_response r.0 ≡ none) ↔ (Deleted new ⊎ (expect delete_response o ≡ none)))
          h r.1 in
      let a = delete_again-Deleted lanes o1 (y ∷ h) in
      if-elim P (is_unsent o)
        (λ u. record {
          new = a.new ++ (y ∷ []);
          extends = a.extends ∙ sym (append_assoc a.new (y ∷ []) h);
          shows = (
            (λ e. elim (a.shows.0 e) [
              | inl d ↦ inl (Deleted-append a.new (y ∷ []) d)
              | inr d ↦ inl (Deleted-last a.new y (refl, d))
            ]),
            (λ d. elim d [
              | inl x ↦ elim (Deleted-snoc a.new y x) [
                | inl z ↦ a.shows.1 (inl z)
                | inr c ↦ a.shows.1 (inr c.1)
              ]
              | inr e ↦ absurd (unsent-unanswered o u e)
            ]),
          );
        })
        (λ _. record {
          new = [];
          extends = refl;
          shows = (λ e. inr e, λ d. elim d [ inl x ↦ absurd x | inr e ↦ e ]);
        })

-- An outcome of `closeWith` that leaves no doubt about the shell.
abbrev pub is_certain : Option Error → Bool
is_certain none = true
is_certain (some e) = not (has_mark remote_state_unknown e)

-- What a call of `closeWith` reports: the first one, of the exchanges that it adds, and a later
-- one, which adds none.
abbrev pub Closes : Bool → Option ContextError → Option Error → List Exchange → Type 0
Closes false joined failed new = (is_certain failed ≡ true) ↔ Deleted new
Closes true joined failed new = (new ≡ []) × ((failed ≡ none) ↔ (joined ≡ none))

close_again-none : (joined : Option ContextError) → (close_again joined ≡ none) ↔ (joined ≡ none)
close_again-none none = (λ e. refl, λ e. refl)
close_again-none (some x) = (λ e. absurd (cc), λ e. absurd (cc))

close_result-certain :
    (failed : Option Error) (signal_failed : Bool) (joined : Option ContextError)
    → (is_certain (close_result failed signal_failed joined) ≡ true) ↔ (failed ≡ none)
unfolding close_result has_mark
close_result-certain none true none = (λ _. refl, λ _. refl)
close_result-certain none false none = (λ _. refl, λ _. refl)
close_result-certain none b (some deadline) = (λ _. refl, λ _. refl)
close_result-certain none b (some cancellation) = (λ _. refl, λ _. refl)
close_result-certain (some e) b none = (λ x. absurd (cc), λ x. absurd (cc))
close_result-certain (some e) b (some deadline) = (λ x. absurd (cc), λ x. absurd (cc))
close_result-certain (some e) b (some cancellation) = (λ x. absurd (cc), λ x. absurd (cc))

module _ (net : Network) where
  Certain : History → Option Error × History → Type 0
  Certain h r = Added (λ new. (is_certain r.0 ≡ true) ↔ Deleted new) h r.1

  close_delete-Certain :
      (lane fallback : Lane) (b : Bool) (s : Session) (joined : Option ContextError) (h : History)
      → Certain h (close_delete net lane fallback b s joined h)
  unfolding close_delete post Certain
  close_delete-Certain lane fallback b s joined h =
      let o = net lane delete h in
      let x : Exchange = record { lane = lane; message = delete; outcome = o } in
      let a = delete_again-Deleted net (alternatives fallback s) o (x ∷ h) in
      let c =
        close_result-certain
          (expect delete_response (delete_again net (alternatives fallback s) o (x ∷ h)).0) b
          joined in
      record {
        new = a.new ++ (x ∷ []);
        extends = a.extends ∙ sym (append_assoc a.new (x ∷ []) h);
        shows = (
          (λ sure. elim (a.shows.0 (c.0 sure)) [
            | inl d ↦ Deleted-append a.new (x ∷ []) d
            | inr e ↦ Deleted-last a.new x (refl, e)
          ]),
          (λ d. c.1 (elim (Deleted-snoc a.new x d) [
            | inl z ↦ a.shows.1 (inl z)
            | inr z ↦ a.shows.1 (inr z.1)
          ])),
        );
      }

  -- The first call of `closeWith`.
  pub close_with_certain :
      (primary fallback : Lane) (with_signal : Bool) (s : Session) (joined : Option ContextError)
      (h : History)
      → let r = close_with net primary fallback with_signal s joined h in
        Added (λ new. (is_certain r.0 ≡ true) ↔ Deleted new) h r.1
  unfolding close_with post Certain
  close_with_certain primary fallback with_signal s joined h =
      let o = net primary signal h in
      let x : Exchange = record { lane = primary; message = signal; outcome = o } in
      let b = is_some (expect signal_response o) in
      if-elim (Certain h) with_signal
        (λ _.
          let a =
            close_delete-Certain (if b then fallback else primary) fallback b s joined (x ∷ h) in
          record {
            new = a.new ++ (x ∷ []);
            extends = a.extends ∙ sym (append_assoc a.new (x ∷ []) h);
            shows = (
              (λ sure. Deleted-append a.new (x ∷ []) (a.shows.0 sure)),
              (λ d.
                  a.shows.1
                    (elim (Deleted-snoc a.new x d) [ inl z ↦ z | inr z ↦ absurd (cc z.0) ])),
            );
          })
        (λ _. close_delete-Certain primary fallback false s joined h)

  -- Whatever the connections answer, the first call of `closeWith` reports an outcome without
  -- `ErrRemoteStateUnknown` exactly where a Delete that it sent was answered by a DeleteResponse. A
  -- later call makes no request, and returns nil exactly where the receive loop ended in time.
  pub close_session-Closes :
      (closed : Bool) (primary fallback : Lane) (with_signal : Bool) (s : Session)
      (joined : Option ContextError) (h : History)
      → let r = close_session net closed primary fallback with_signal s joined h in
        Added (Closes closed joined r.0) h r.1
  unfolding close_session
  close_session-Closes false primary fallback with_signal s joined h =
      close_with_certain primary fallback with_signal s joined h
  close_session-Closes true primary fallback with_signal s joined h = record {
    new = [];
    extends = refl;
    shows = (refl, close_again-none joined);
  }
