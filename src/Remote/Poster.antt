-- ===== src/Remote/Poster.antt =====
-- internal/remote/persistent.go: an authenticated connection that carries one SOAP exchange at a
-- time. `failed` and `lastUsed` are guarded by the mutex, so the calls of a poster are a sequence;
-- a Close that comes during an exchange acts on it through its HTTP result alone.
pub mod Replay
pub mod Silence
use winsh.Base.{
  ℕ, ◌-◌, Bool, true, false, ◌||◌, Option, none, some, List, [], ◌∷◌, length, ltb, ◌==◌,
  if◌then◌else◌, case_option, Error, has_mark, unsent, replay_refused, ContextError, context_error,
}

-- The NTLM session of go's ntlmssp behind `sealMessage` and `unsealMessage`, and the two XML
-- documents that encoding/xml looks for.
pub record Wire : Type 1 where
  pub Security : Type 0
  pub seal : Security → List ℕ → Option (List ℕ) × Security
  pub unseal : Security → List ℕ → Option (List ℕ) × Security
  pub is_envelope : List ℕ → Bool
  pub is_identified : List ℕ → Bool

-- What `http.Client.Do` and the reading of the body give: an error, or the status, whether the
-- content type begins with application/soap+xml, and the body up to one byte above the limit.
pub data Http : Type 0 where
  http_error : Error → Http
  http_answer : ℕ → Bool → List ℕ → Http

-- What one call meets. `wrote` says whether the HTTP client wrote the request to the connection;
-- `busy` says that the mutex is held.
pub record Turn : Type 0 where
  pub context : Option ContextError
  pub busy : Bool
  pub now : ℕ
  pub http : List ℕ → Http
  pub wrote : Bool

abbrev pub max_response : ℕ
max_response = 4194304

abbrev pub case_http {ℓ} : {B : Type ℓ} → Http → (Error → B) → (ℕ → Bool → List ℕ → B) → B
case_http (http_error e) f g = f e
case_http (http_answer status soap body) f g = g status soap body

-- `sendHTTP`
unfoldable pub send_http : Turn → List ℕ → Http
send_http t payload =
    case_http (t.http payload) (λ e. http_error e)
      (λ status soap body.
        if ltb max_response (length body) then http_error [] else http_answer status soap body)

-- `identifyRequest`
abbrev pub identify_request : List ℕ
identify_request =
    60 ∷ 115 ∷ 58 ∷ 69 ∷ 110 ∷ 118 ∷ 101 ∷ 108 ∷ 111 ∷ 112 ∷ 101 ∷ 32 ∷ 120 ∷ 109 ∷ 108 ∷ 110 ∷ 115
    ∷ 58 ∷ 115 ∷ 61 ∷ 34 ∷ 104 ∷ 116 ∷ 116 ∷ 112 ∷ 58 ∷ 47 ∷ 47 ∷ 119 ∷ 119 ∷ 119 ∷ 46 ∷ 119 ∷ 51
    ∷ 46 ∷ 111 ∷ 114 ∷ 103 ∷ 47 ∷ 50 ∷ 48 ∷ 48 ∷ 51 ∷ 47 ∷ 48 ∷ 53 ∷ 47 ∷ 115 ∷ 111 ∷ 97 ∷ 112 ∷ 45
    ∷ 101 ∷ 110 ∷ 118 ∷ 101 ∷ 108 ∷ 111 ∷ 112 ∷ 101 ∷ 34 ∷ 32 ∷ 120 ∷ 109 ∷ 108 ∷ 110 ∷ 115 ∷ 58
    ∷ 119 ∷ 115 ∷ 109 ∷ 105 ∷ 100 ∷ 61 ∷ 34 ∷ 104 ∷ 116 ∷ 116 ∷ 112 ∷ 58 ∷ 47 ∷ 47 ∷ 115 ∷ 99 ∷ 104
    ∷ 101 ∷ 109 ∷ 97 ∷ 115 ∷ 46 ∷ 100 ∷ 109 ∷ 116 ∷ 102 ∷ 46 ∷ 111 ∷ 114 ∷ 103 ∷ 47 ∷ 119 ∷ 98 ∷ 101
    ∷ 109 ∷ 47 ∷ 119 ∷ 115 ∷ 109 ∷ 97 ∷ 110 ∷ 47 ∷ 105 ∷ 100 ∷ 101 ∷ 110 ∷ 116 ∷ 105 ∷ 116 ∷ 121
    ∷ 47 ∷ 49 ∷ 47 ∷ 119 ∷ 115 ∷ 109 ∷ 97 ∷ 110 ∷ 105 ∷ 100 ∷ 101 ∷ 110 ∷ 116 ∷ 105 ∷ 116 ∷ 121 ∷ 46
    ∷ 120 ∷ 115 ∷ 100 ∷ 34 ∷ 62 ∷ 60 ∷ 115 ∷ 58 ∷ 72 ∷ 101 ∷ 97 ∷ 100 ∷ 101 ∷ 114 ∷ 47 ∷ 62 ∷ 60
    ∷ 115 ∷ 58 ∷ 66 ∷ 111 ∷ 100 ∷ 121 ∷ 62 ∷ 60 ∷ 119 ∷ 115 ∷ 109 ∷ 105 ∷ 100 ∷ 58 ∷ 73 ∷ 100 ∷ 101
    ∷ 110 ∷ 116 ∷ 105 ∷ 102 ∷ 121 ∷ 47 ∷ 62 ∷ 60 ∷ 47 ∷ 115 ∷ 58 ∷ 66 ∷ 111 ∷ 100 ∷ 121 ∷ 62 ∷ 60
    ∷ 47 ∷ 115 ∷ 58 ∷ 69 ∷ 110 ∷ 118 ∷ 101 ∷ 108 ∷ 111 ∷ 112 ∷ 101 ∷ 62 ∷ []

pub data Posted : Type 0 where
  answered : List ℕ → Posted
  refused : Error → Posted

abbrev pub case_posted {ℓ} : {B : Type ℓ} → Posted → (Error → B) → (List ℕ → B) → B
case_posted (refused e) f g = f e
case_posted (answered reply) f g = g reply

module _ (wire : Wire) where
  open wire use {Security, seal, unseal, is_envelope, is_identified}

  -- The parts of `persistentPoster` that change.
  pub record Poster : Type 0 where
    pub encrypted : Bool
    pub security : Security
    pub failed : Bool
    pub closed : Bool
    pub last_used : ℕ

  -- `fail`
  abbrev pub fail : Poster → Poster
  fail p = record p { failed = true }

  -- `Close`; a second call finds the flag set.
  abbrev pub close : Poster → Poster
  close p = record p { closed = true }

  -- The end of `postLocked`: the envelope, and the time of the exchange.
  unfoldable pub accept_reply : Turn → Poster → List ℕ → Posted × Poster × Bool
  accept_reply t p data' =
      if is_envelope data'
      then (answered data', record p { last_used = t.now }, t.wrote)
      else (refused [], fail p, t.wrote)

  unfoldable pub read_reply : Turn → Poster → Bool → List ℕ → Posted × Poster × Bool
  read_reply t p soap body =
      if p.encrypted
      then (let (opened, security') = unseal p.security body in
          let p' = record p { security = security' } in
          case_option opened (refused [], fail p', t.wrote) (λ data'. accept_reply t p' data'))
      else (if soap then accept_reply t p body else (refused [], fail p, t.wrote))

  unfoldable pub exchange : Turn → Poster → List ℕ → Posted × Poster × Bool
  exchange t p payload =
      case_http (send_http t payload)
        (λ e. (refused (if has_mark replay_refused e then unsent ∷ e else e), fail p, t.wrote))
        (λ status soap body.
          if status == 200 || status == 500
          then read_reply t p soap body
          else (refused [], fail p, t.wrote))

  -- `postLocked`, with the poster it leaves and whether a request was written.
  unfoldable pub post_locked : Turn → Poster → List ℕ → Posted × Poster × Bool
  post_locked t p message =
      if p.closed || p.failed
      then (refused (unsent ∷ []), p, false)
      else case_option t.context
          (if p.encrypted
            then (let (sealed, security') = seal p.security message in
                let p' = record p { security = security' } in
                case_option sealed (refused (unsent ∷ []), fail p', false)
                  (λ payload. exchange t p' payload))
            else exchange t p message)
          (λ e. (refused (unsent ∷ context_error e), p, false))

  -- `KeepAlive`: its error, the poster, and whether a request was written.
  unfoldable pub keep_alive : Turn → ℕ → Poster → Option Error × Poster × Bool
  keep_alive t idle p =
      if t.busy
      then (none, p, false)
      else (if p.closed || p.failed
          then (some [], p, false)
          else (if ltb (t.now - p.last_used) idle
              then (none, p, false)
              else (let (posted, p', wrote) = post_locked t p identify_request in
                  case_posted posted (λ e. (some e, p', wrote))
                    (λ reply.
                      if is_identified reply
                      then (none, p', wrote)
                      else (some [], fail p', wrote)))))

pub data Call : Type 0 where
  posting : Turn → List ℕ → Call
  heartbeat : Turn → ℕ → Call
  close_call : Call

-- What a call did: whether a request was written, and whether the call failed.
pub record Event : Type 0 where
  pub wrote : Bool
  pub broken : Bool

abbrev pub is_refused : Posted → Bool
is_refused (answered reply) = false
is_refused (refused e) = true

abbrev pub is_failure : Option Error → Bool
is_failure none = false
is_failure (some e) = true

module _ (wire : Wire) where
  unfoldable pub call : Call → Poster wire → Event × Poster wire
  call (posting t message) p =
      let (posted, p', wrote) = post_locked wire t p message in
      (record { wrote = wrote; broken = is_refused posted }, p')
  call (heartbeat t idle) p =
      let (failure, p', wrote) = keep_alive wire t idle p in
      (record { wrote = wrote; broken = is_failure failure }, p')
  call close_call p = (record { wrote = false; broken = false }, close wire p)

  unfoldable pub run_calls : List Call → Poster wire → List Event
  run_calls [] p = []
  run_calls (c ∷ cs) p = let (event, p') = call c p in event ∷ run_calls cs p'
