-- ===== src/Remote/Transport/Opening.antt =====
-- `authenticateConnection` of internal/remote/persistent.go: what an open connection went through.
use winsh.Base.{
  ℕ, ◌≡◌, ◌⊎◌, refl, ap, ◌∙◌, true, not, ◌&&◌, ◌||◌, none, some, List, [], ◌==◌, if-elim,
  case_option-elim, arith, ==→eq, inl, inr, Bool-cases,
}
use winsh.Remote.Challenge.{validate_challenge}
use winsh.Remote.Transport.{
  Cause, Headers, Answer, no_answer, status_answer, challenge, case_answer, Handshake, Opened,
  complete_handshake, answer_challenge, negotiate_connection, authenticate_connection,
}

case_answer-elim :
    (P : Opened → Type 0) (a : Answer) {f : Cause → Opened} {g : ℕ → Headers → Opened}
    → ((c : Cause) → P (f c))
    → ((status : ℕ) (headers : Headers) → a ≡ status_answer status headers → P (g status headers))
    → P (case_answer a f g)
case_answer-elim P (no_answer c) p q = p c
case_answer-elim P (status_answer status headers) p q = q status headers refl

-- The handshake of an open connection: the scheme that the server asked for, its type-2 message,
-- and the answer to the type-3 message.
pub record Authenticated (a : Handshake) : Type 0 where
  pub offered : Headers
  pub asked : a.discovery ≡ status_answer 401 offered
  pub scheme : List ℕ
  pub first : List ℕ
  pub chosen : challenge a.ntlm.decode [] offered ≡ some (scheme, first)
  pub hello : List ℕ
  pub headers : Headers
  pub challenged : a.negotiation scheme hello ≡ status_answer 401 headers
  pub found : List ℕ
  pub input : List ℕ
  pub carried : challenge a.ntlm.decode scheme headers ≡ some (found, input)
  pub valid : validate_challenge input a.is_http ≡ none
  pub token : List ℕ
  pub responded : a.ntlm.respond input ≡ some token
  pub status : ℕ
  pub last : Headers
  pub answered : a.authentication scheme token ≡ status_answer status last
  pub accepted : (status ≡ 200) ⊎ (status ≡ 400)
  pub complete : a.ntlm.is_complete ≡ true

-- `authenticateConnection` opens a connection only where the server asked for authentication, its
-- type-2 message under the same scheme passed `validateChallenge` for this endpoint, the type-3
-- message was answered by HTTP 200 or 400, and the NTLM client is complete.
pub authenticate_connection-Authenticated :
    (a : Handshake) → authenticate_connection a ≡ none → Authenticated a
unfolding authenticate_connection negotiate_connection answer_challenge complete_handshake
authenticate_connection-Authenticated a =
    let P : Opened → Type 0 = λ o. o ≡ none → Authenticated a in
    if-elim P ((a.is_https && not a.roots_ok) || not a.ntlm.created) (λ _ x. absurd (cc))
      (λ _.
        case_answer-elim P a.discovery (λ c x. absurd (cc))
          (λ s1 offered asked.
            if-elim P (s1 == 401)
              (λ t1.
                case_option-elim P (challenge a.ntlm.decode [] offered) (λ _ x. absurd (cc))
                  (λ (scheme, first) chosen.
                    case_option-elim P a.ntlm.negotiate (λ _ x. absurd (cc))
                      (λ hello _.
                        case_answer-elim P (a.negotiation scheme hello) (λ c x. absurd (cc))
                          (λ s2 headers challenged.
                            if-elim P (s2 == 401)
                              (λ t2.
                                case_option-elim P (challenge a.ntlm.decode scheme headers)
                                  (λ _ x. absurd (cc))
                                  (λ (found, input) carried.
                                    case_option-elim P (validate_challenge input a.is_http)
                                      (λ valid.
                                        case_option-elim P (a.ntlm.respond input)
                                          (λ _ x. absurd (cc))
                                          (λ token responded.
                                            case_answer-elim P (a.authentication scheme token)
                                              (λ c x. absurd (cc))
                                              (λ status last answered.
                                                if-elim P
                                                  ((status == 200 || status == 400)
                                                    && a.ntlm.is_complete)
                                                  (λ good _. record {
                                                    offered = offered;
                                                    asked =
                                                        asked
                                                        ∙ ap (λ s. status_answer s offered)
                                                            (==→eq s1 401 t1);
                                                    scheme = scheme;
                                                    first = first;
                                                    chosen = chosen;
                                                    hello = hello;
                                                    headers = headers;
                                                    challenged =
                                                        challenged
                                                        ∙ ap (λ s. status_answer s headers)
                                                            (==→eq s2 401 t2);
                                                    found = found;
                                                    input = input;
                                                    carried = carried;
                                                    valid = valid;
                                                    token = token;
                                                    responded = responded;
                                                    status = status;
                                                    last = last;
                                                    answered = answered;
                                                    accepted = good_status status (ground arith);
                                                    complete = ground arith;
                                                  })
                                                  (λ _ x. absurd (cc)))))
                                      (λ e _ x. absurd (cc))))
                              (λ _ x. absurd (cc))))))
              (λ _ x. absurd (cc))))
  where
    good_status : (n : ℕ) → (n == 200 || n == 400) ≡ true → (n ≡ 200) ⊎ (n ≡ 400)
    good_status n e = elim (Bool-cases (n == 200)) [
      | inl t ↦ inl (==→eq n 200 t)
      | inr f ↦ inr (ground arith)
    ]
