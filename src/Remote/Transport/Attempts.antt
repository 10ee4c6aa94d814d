-- ===== src/Remote/Transport/Attempts.antt =====
-- internal/remote/transport.go: how often a standalone exchange is tried.
use winsh.Base.{
  ℕ, zero, suc, ◌+◌, ◌-◌, ◌≤◌, ◌<◌, ◌≡◌, ◌≢◌, refl, Bool, true, false, not, ◌&&◌, Option, none,
  some, List, [], ◌∷◌, length, leb, if-elim, case_option, case_option-elim, All, arith, unsent,
}
use winsh.Remote.Poster.{Wire, Poster, Turn, refused}
use winsh.Remote.Transport.{
  Opened, Handshake, authenticate_connection, may_retry, Attempt, with_handshake_retries, post_once,
  transport_post,
}

-- An attempt that ended in the handshake, before a SOAP request was written.
pub record Spared (a : Attempt) : Type 0 where
  pub in_handshake : a.opened ≢ none
  pub unwritten : a.wrote ≡ false

-- What an exchange did: attempts that were spared, and a last one.
pub record Tried (limit : ℕ) (r : Option (List Attempt × Attempt)) : Type 0 where
  pub before : List Attempt
  pub final : Attempt
  pub ended : r ≡ some (before, final)
  pub few : length before ≤ limit
  pub spared : All Spared before
  pub settled : final.opened ≢ none → (final.posted ≡ refused (unsent ∷ [])) × (final.wrote ≡ false)

module _ (wire : Wire) (message : List ℕ) where
  post_once-refused :
      (a : Handshake) (t : Turn) (p : Poster wire)
      → let r = post_once wire a t p message in
        r.opened ≢ none → (r.posted ≡ refused (unsent ∷ [])) × (r.wrote ≡ false)
  unfolding post_once
  post_once-refused a t p =
      case_option-elim
        (λ (r : Attempt). r.opened ≢ none → (r.posted ≡ refused (unsent ∷ [])) × (r.wrote ≡ false))
        (authenticate_connection a) (λ _ c. absurd (c refl)) (λ e _ _. (refl, refl))

  retried : (o : Opened) → may_retry o ≡ true → o ≢ none
  retried none e c = absurd (cc)
  retried (some x) e c = absurd (cc)

  with_first :
      (a : Attempt) (before : List Attempt) (final : Attempt)
      (rest : Option (List Attempt × Attempt))
      → rest ≡ some (before, final)
      → case_option {B = Option (List Attempt × Attempt)} rest none (λ (b, f). some (a ∷ b, f))
        ≡ some (a ∷ before, final)
  with_first a before final rest e = rw e refl

  module _ (done : ℕ → Bool) (handshakes : ℕ → Handshake) (turns : ℕ → Turn)
      (lanes : ℕ → Poster wire) where
    tried :
        (fuel i : ℕ)
        → 2 < fuel + i
        → i ≤ 2
        → Tried (2 - i) (
            with_handshake_retries done
              (λ k. post_once wire (handshakes k) (turns k) (lanes k) message)
              fuel
              i)
    unfolding with_handshake_retries
    tried zero i enough le = absurd (omega arith)
    tried (suc fuel) i enough le =
        let attempt : ℕ → Attempt =
          λ k. post_once wire (handshakes k) (turns k) (lanes k) message in
        let a = attempt i in
        let facts = post_once-refused (handshakes i) (turns i) (lanes i) in
        if-elim (Tried (2 - i)) (may_retry a.opened && not (done i) && not (leb 2 i))
          (λ again.
            let failed = retried a.opened (ground arith) in
            let more = tried fuel (suc i) (omega arith) (ground arith) in
            let early : suc (2 - suc i) ≤ 2 - i = ground arith in
            record {
              before = a ∷ more.before;
              final = more.final;
              ended =
                  with_first a more.before more.final
                    (with_handshake_retries done attempt fuel (suc i)) more.ended;
              few = omega (arith, more.few, early);
              spared =
                  (record { in_handshake = failed; unwritten = (facts failed).1 }, more.spared);
              settled = more.settled;
            })
          (λ _. record {
            before = [];
            final = a;
            ended = refl;
            few = omega arith;
            spared = tt;
            settled = facts;
          })

    -- A standalone exchange makes at most three attempts. Every one but the last ended in the NTLM
    -- handshake, with no SOAP request written, so at most one request leaves. Where the last one
    -- ends in the handshake too, no request was written at all, and the error carries errUnsent.
    pub transport_post-Tried : Tried 2 (transport_post wire done handshakes turns lanes message)
    unfolding transport_post
    transport_post-Tried = tried 3 0 (omega arith) (omega arith)
