-- ===== src/Remote/Transport.antt =====
-- internal/remote/transport.go, and `authenticateConnection` of persistent.go: the NTLM handshake of a
-- connection, and the attempts of a standalone exchange.
pub mod Attempts
pub mod Opening
use winsh.Base.{
  ℕ, zero, suc, ◌+◌, Bool, true, false, not, ◌&&◌, ◌||◌, Option, none, some, List, [], ◌∷◌, ◌++◌,
  length, ltb, leb, ◌==◌, if◌then◌else◌, case_option, Error, unsent,
}
use winsh.Remote.Challenge.{ChallengeError, validate_challenge}
use winsh.Remote.Response.{same_text}
use winsh.Remote.Poster.{Wire, Poster, Posted, refused, Turn, post_locked}

-- What `retryableHandshake` finds in the cause of an error: a network timeout, the end of the
-- stream, or a reset of the connection.
pub record Cause : Type 0 where
  pub timed_out : Bool
  pub ended : Bool
  pub reset : Bool

unfoldable pub retryable_handshake : Cause → Bool
retryable_handshake c = c.timed_out || c.ended || c.reset

-- The error of an attempt: a `handshakeTransportError` or another one.
pub data Refusal : Type 0 where
  handshake : Cause → Refusal
  no_handshake : Refusal

-- The parts of the WWW-Authenticate lines, each as its fields.
abbrev pub Headers : Type 0
Headers = List (List (List ℕ))

-- `sendHTTP` with an empty body.
pub data Answer : Type 0 where
  no_answer : Cause → Answer
  status_answer : ℕ → Headers → Answer

-- The NTLM client of ntlmssp, and Base64.
pub record Ntlm : Type 0 where
  pub created : Bool
  pub negotiate : Option (List ℕ)
  pub respond : List ℕ → Option (List ℕ)
  pub is_complete : Bool
  pub decode : List ℕ → Option (List ℕ)

abbrev pub lower : ℕ → ℕ
lower c = if leb 65 c && leb c 90 then c + 32 else c

-- `strings.EqualFold` on ASCII.
abbrev pub equal_fold : List ℕ → List ℕ → Bool
equal_fold [] [] = true
equal_fold (a ∷ as') (b ∷ bs) = lower a == lower b && equal_fold as' bs
equal_fold _ _ = false

-- "Negotiate" and "NTLM"
abbrev pub negotiate_scheme : List ℕ
negotiate_scheme = 78 ∷ 101 ∷ 103 ∷ 111 ∷ 116 ∷ 105 ∷ 97 ∷ 116 ∷ 101 ∷ []

abbrev pub ntlm_scheme : List ℕ
ntlm_scheme = 78 ∷ 84 ∷ 76 ∷ 77 ∷ []

abbrev pub is_wanted : List ℕ → List ℕ → Bool
is_wanted want scheme =
    (equal_fold scheme negotiate_scheme || equal_fold scheme ntlm_scheme)
    && (length want == 0 || equal_fold scheme want)

module _ (decode : List ℕ → Option (List ℕ)) where
  -- The token of a part with two fields.
  unfoldable pub token_of : List ℕ → Option (List ℕ)
  token_of field =
      case_option (decode field) none
        (λ b. if ltb 0 (length b) && ltb (length b) 65536 then some b else none)

  -- `challenge`: the scheme and the token of the first part that fits. `want` is empty where any
  -- scheme will do.
  unfoldable pub challenge : List ℕ → Headers → Option (List ℕ × List ℕ)
  challenge want [] = none
  challenge want ([] ∷ parts) = challenge want parts
  challenge want ((scheme ∷ []) ∷ parts) =
      let later = challenge want parts in
      if is_wanted want scheme && length want == 0 then some (scheme, []) else later
  challenge want ((scheme ∷ field ∷ []) ∷ parts) =
      let later = challenge want parts in
      if is_wanted want scheme
      then case_option (token_of field) later (λ b. some (scheme, b))
      else later
  challenge want ((scheme ∷ field ∷ other ∷ fields) ∷ parts) = challenge want parts

abbrev pub case_answer {ℓ} : {B : Type ℓ} → Answer → (Cause → B) → (ℕ → Headers → B) → B
case_answer (no_answer c) f g = f c
case_answer (status_answer status headers) f g = g status headers

-- What the three exchanges of a handshake meet. `roots_ok` says that the certificate pool could be
-- read.
pub record Handshake : Type 0 where
  pub is_https : Bool
  pub is_http : Bool
  pub roots_ok : Bool
  pub ntlm : Ntlm
  pub discovery : Answer
  pub negotiation : List ℕ → List ℕ → Answer
  pub authentication : List ℕ → List ℕ → Answer

-- `none` stands for an open connection.
abbrev pub Opened : Type 0
Opened = Option Refusal

-- From the type-3 message on.
unfoldable pub complete_handshake : Handshake → List ℕ → List ℕ → Opened
complete_handshake a scheme token =
    case_answer (a.authentication scheme token) (λ c. some (handshake c))
      (λ status headers.
        if (status == 200 || status == 400) && a.ntlm.is_complete then none else some no_handshake)

-- From the type-2 message on.
unfoldable pub answer_challenge : Handshake → List ℕ → List ℕ → Opened
answer_challenge a scheme input =
    case_option (validate_challenge input a.is_http)
      (case_option (a.ntlm.respond input) (some no_handshake)
        (λ token. complete_handshake a scheme token))
      (λ e. some no_handshake)

unfoldable pub negotiate_connection : Handshake → List ℕ → Opened
negotiate_connection a scheme = case_option a.ntlm.negotiate (some no_handshake) (λ token.
    case_answer (a.negotiation scheme token) (λ c. some (handshake c))
      (λ status headers.
        if status == 401
        then case_option (challenge a.ntlm.decode scheme headers) (some no_handshake)
            (λ (found, input). answer_challenge a scheme input)
        else some no_handshake))

-- `authenticateConnection`
unfoldable pub authenticate_connection : Handshake → Opened
authenticate_connection a =
    if (a.is_https && not a.roots_ok) || not a.ntlm.created
    then some no_handshake
    else case_answer a.discovery (λ c. some (handshake c))
        (λ status headers.
          if status == 401
          then case_option (challenge a.ntlm.decode [] headers) (some no_handshake)
              (λ (scheme, token). negotiate_connection a scheme)
          else some no_handshake)

abbrev pub may_retry : Opened → Bool
may_retry (some (handshake c)) = retryable_handshake c
may_retry (some no_handshake) = false
may_retry none = false

-- What an attempt of a standalone exchange did: the handshake, the answer, and whether the SOAP
-- request was written.
pub record Attempt : Type 0 where
  pub opened : Opened
  pub posted : Posted
  pub wrote : Bool

module _ (done : ℕ → Bool) (attempt : ℕ → Attempt) where
  -- `withHandshakeRetries`, with the attempts made. `done` is `ctx.Err()` behind the i-th one.
  unfoldable pub with_handshake_retries : ℕ → ℕ → Option (List Attempt × Attempt)
  with_handshake_retries zero i = none
  with_handshake_retries (suc fuel) i =
      let again = with_handshake_retries fuel (suc i) in
      if may_retry (attempt i).opened && not (done i) && not (leb 2 i)
      then case_option again none (λ (before, final). some (attempt i ∷ before, final))
      else some ([], attempt i)

module _ (wire : Wire) where
  -- `postOnce`: the handshake, and one exchange over the connection that it opens.
  unfoldable pub post_once : Handshake → Turn → Poster wire → List ℕ → Attempt
  post_once a t p message =
      let opened = authenticate_connection a in
      let (posted, p', wrote) = post_locked wire t p message in
      case_option opened (record { opened = none; posted = posted; wrote = wrote })
        (λ e. record { opened = some e; posted = refused (unsent ∷ []); wrote = false })

  -- `transport.post`. Each attempt has a handshake and a connection of its own.
  unfoldable pub transport_post :
      (ℕ → Bool)
      → (ℕ → Handshake)
      → (ℕ → Turn)
      → (ℕ → Poster wire)
      → List ℕ
      → Option (List Attempt × Attempt)
  transport_post done handshakes turns lanes message =
      with_handshake_retries done (λ i. post_once (handshakes i) (turns i) (lanes i) message) 3 0
