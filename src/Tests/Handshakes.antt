-- ===== src/Tests/Handshakes.antt =====
-- A handshake whose first connection is reset, and one that succeeds.
use winsh.Base.{ℕ, ◌≡◌, refl, true, false, none, some, [], ◌∷◌, ◌==◌, if◌then◌else◌}
use winsh.Remote.Challenge.{
  validate_challenge, check_target_info, attribute_rounds, is_outside, is_bad_width,
}
use winsh.Remote.Transport.{
  Answer, no_answer, status_answer, Ntlm, ntlm_scheme, Handshake, token_of, challenge,
  complete_handshake, answer_challenge, negotiate_connection, authenticate_connection,
  transport_post,
}
use winsh.Remote.Transport.Attempts.{Tried, transport_post-Tried}
use winsh.Remote.Transport.Opening.{Authenticated, authenticate_connection-Authenticated}
use winsh.Tests.Challenges.{message}
use winsh.Tests.Lanes.{clear_wire, fresh, good}

abbrev ntlm : Ntlm
ntlm = record {
  created = true;
  negotiate = some (1 ∷ []);
  respond = λ input. some (3 ∷ []);
  is_complete = true;
  decode = λ t. some t;
}

abbrev handshake_with : Answer → Handshake
handshake_with discovery = record {
  is_https = false;
  is_http = true;
  roots_ok = true;
  ntlm = ntlm;
  discovery = discovery;
  negotiation = λ scheme token. status_answer 401 ((scheme ∷ message ∷ []) ∷ []);
  authentication = λ scheme token. status_answer 200 [];
}

abbrev fine : Handshake
fine = handshake_with (status_answer 401 ((ntlm_scheme ∷ []) ∷ []))

abbrev reset_once : ℕ → Handshake
reset_once i =
    if i == 0
    then handshake_with (no_answer (record { timed_out = false; ended = false; reset = true }))
    else fine

fine_opened : authenticate_connection fine ≡ none
unfolding authenticate_connection negotiate_connection answer_challenge complete_handshake challenge
    token_of validate_challenge check_target_info attribute_rounds is_outside is_bad_width
fine_opened = refl

authenticate_connection-Authenticated_example : Authenticated fine
authenticate_connection-Authenticated_example =
    authenticate_connection-Authenticated fine fine_opened

transport_post-Tried_example :
    Tried 2 (transport_post clear_wire (λ i. false) reset_once (λ i. good) (λ i. fresh) (7 ∷ []))
transport_post-Tried_example =
    transport_post-Tried clear_wire (7 ∷ []) (λ i. false) reset_once (λ i. good) (λ i. fresh)
