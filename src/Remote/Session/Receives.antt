-- ===== src/Remote/Session/Receives.antt =====
-- internal/remote/session.go: `closeWith` sends no Receive.
use winsh.Base.{
  ℕ, suc, ◌≡◌, refl, Bool, true, false, Option, List, [], ◌∷◌, if◌then◌else◌, if-elim, Error,
  ContextError,
}
use winsh.Remote.Response.{signal_response}
use winsh.Remote.Session.{
  Lane, Message, receive, signal, delete, Outcome, Exchange, History, Network, post, is_unsent,
  expect, Session, is_some, alternatives, delete_again, close_delete, close_with,
}

abbrev pub is_receive : Message → Bool
is_receive receive = true
is_receive _ = false

-- How many Receives a history has.
abbrev pub receives : History → ℕ
receives [] = 0
receives (x ∷ h) = let n = receives h in if is_receive x.message then suc n else n

module _ (net : Network) where
  receives-delete_again :
      (lanes : List Lane) (o : Outcome) (h : History)
      → receives (delete_again net lanes o h).1 ≡ receives h
  unfolding delete_again post
  receives-delete_again [] o h = refl
  receives-delete_again (lane ∷ lanes) o h =
      let o1 = net lane delete h in
      let y : Exchange = record { lane = lane; message = delete; outcome = o1 } in
      if-elim (λ (r : Outcome × History). receives r.1 ≡ receives h) (is_unsent o)
        (λ _. receives-delete_again lanes o1 (y ∷ h)) (λ _. refl)

  receives-close_delete :
      (lane fallback : Lane) (b : Bool) (s : Session) (joined : Option ContextError) (h : History)
      → receives (close_delete net lane fallback b s joined h).1 ≡ receives h
  unfolding close_delete post
  receives-close_delete lane fallback b s joined h =
      let o = net lane delete h in
      let x : Exchange = record { lane = lane; message = delete; outcome = o } in
      receives-delete_again (alternatives fallback s) o (x ∷ h)

  pub receives-close_with :
      (primary fallback : Lane) (with_signal : Bool) (s : Session) (joined : Option ContextError)
      (h : History)
      → receives (close_with net primary fallback with_signal s joined h).1 ≡ receives h
  unfolding close_with post
  receives-close_with primary fallback with_signal s joined h =
      let o = net primary signal h in
      let x : Exchange = record { lane = primary; message = signal; outcome = o } in
      let b = is_some (expect signal_response o) in
      if-elim (λ (r : Option Error × History). receives r.1 ≡ receives h) with_signal
        (λ _. receives-close_delete (if b then fallback else primary) fallback b s joined (x ∷ h))
        (λ _. receives-close_delete primary fallback false s joined h)
