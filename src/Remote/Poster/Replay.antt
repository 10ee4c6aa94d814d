-- ===== src/Remote/Poster/Replay.antt =====
-- internal/remote/persistent.go: which calls of a poster write a request, and none after a failure.
use winsh.Base.{
  ℕ, ◌≡◌, refl, Bool, true, false, ◌||◌, List, [], ◌∷◌, ltb, ◌==◌, if◌then◌else◌, if-elim,
  case_option-elim, length, inl, inr, subst, ap, ◌∙◌, Bool-cases, Mark, Error, has_mark, unsent,
  replay_refused,
}
use winsh.Remote.Poster.{
  Wire, Http, http_error, http_answer, Turn, case_http, send_http, Posted, answered, refused,
  case_posted, Poster, fail, accept_reply, read_reply, exchange, post_locked, max_response,
}

case_http-elim {ℓ κ} :
    {B : Type ℓ} (P : B → Type κ) (o : Http) {f : Error → B} {g : ℕ → Bool → List ℕ → B}
    → ((e : Error) → o ≡ http_error e → P (f e))
    → ((status : ℕ) (soap : Bool) (body : List ℕ)
        → o ≡ http_answer status soap body
        → P (g status soap body))
    → P (case_http o f g)
case_http-elim P (http_error e) p q = p e refl
case_http-elim P (http_answer status soap body) p q = q status soap body refl

pub case_posted-elim {ℓ κ} :
    {B : Type ℓ} (P : B → Type κ) (o : Posted) {f : Error → B} {g : List ℕ → B}
    → ((e : Error) → o ≡ refused e → P (f e))
    → ((r : List ℕ) → o ≡ answered r → P (g r))
    → P (case_posted o f g)
case_posted-elim P (refused e) p q = p e refl
case_posted-elim P (answered r) p q = q r refl

none_marked : (m : Mark) → has_mark m [] ≡ false
unfolding has_mark
none_marked m = refl

refused_error : {a b : Error} → refused a ≡ refused b → a ≡ b
refused_error q = cc

-- What winsh relies on in net/http: it knows nothing of the mark `errUnsent`, and returns the
-- error of `DialContext` only where no request was written.
pub record IsHonest (t : Turn) : Type 0 where
  pub unmarked :
      (payload : List ℕ) (e : Error) → t.http payload ≡ http_error e → has_mark unsent e ≡ false
  pub refusing :
      (payload : List ℕ) (e : Error)
      → t.http payload ≡ http_error e
      → has_mark replay_refused e ≡ true
      → t.wrote ≡ false

send_http-IsHonest :
    (t : Turn) (payload : List ℕ) (e : Error)
    → IsHonest t
    → send_http t payload ≡ http_error e
    → (has_mark unsent e ≡ false) × (has_mark replay_refused e ≡ true → t.wrote ≡ false)
unfolding send_http
send_http-IsHonest t payload e honest got =
    let R : Type 0 =
      (has_mark unsent e ≡ false) × (has_mark replay_refused e ≡ true → t.wrote ≡ false) in
    let P : Http → Type 0 = λ x. (x ≡ http_error e → R) in
    case_http-elim P (t.http payload)
      (λ d is q.
        let same : d ≡ e = cc in
        subst
          (λ x. (has_mark unsent x ≡ false) × (has_mark replay_refused x ≡ true → t.wrote ≡ false))
          same (honest.unmarked payload d is, honest.refusing payload d is))
      (λ status soap body _.
        if-elim P (ltb max_response (length body))
          (λ _ q.
            let same : [] ≡ e = cc in
            subst
              (λ x.
                (has_mark unsent x ≡ false) × (has_mark replay_refused x ≡ true → t.wrote ≡ false))
              same (none_marked unsent, λ m. absurd (cc (none_marked replay_refused))))
          (λ _ q. absurd (cc)))
      got

-- The error that `postLocked` returns for a failed exchange.
marked-unwritten :
    (t : Turn) (payload : List ℕ) (e : Error)
    → IsHonest t
    → send_http t payload ≡ http_error e
    → has_mark unsent (if has_mark replay_refused e then unsent ∷ e else e) ≡ true
    → t.wrote ≡ false
marked-unwritten t payload e honest got m =
    let h = send_http-IsHonest t payload e honest got in
    elim (Bool-cases (has_mark replay_refused e)) [
      | inl yes' ↦ h.1 yes'
      | inr no' ↦ absurd (cc (h.0, ap (λ b. has_mark unsent (if b then unsent ∷ e else e)) no'))
    ]

module _ (wire : Wire) where
  -- What a call of `post` shows of the connection.
  pub record Posts (t : Turn) (r : Posted × Poster wire × Bool) : Type 0 where
    pub unsent_unwritten : (e : Error) → r.0 ≡ refused e → has_mark unsent e ≡ true → r.2 ≡ false
    pub failed_lane : (e : Error) → r.0 ≡ refused e → r.2 ≡ true → r.1.failed ≡ true

  -- An answer breaks nothing, and neither does an error on a lane that has failed.
  answered-Posts :
      (t : Turn) (reply : List ℕ) (p : Poster wire) (w : Bool) → Posts t (answered reply, p, w)
  answered-Posts t reply p w = record {
    unsent_unwritten = λ e q m. absurd (cc);
    failed_lane = λ e q w'. absurd (cc);
  }

  unmarked-Posts :
      (t : Turn) (p : Poster wire) (w : Bool) → p.failed ≡ true → Posts t (refused [], p, w)
  unmarked-Posts t p w broken = record {
    unsent_unwritten = λ e q m.
        let same : [] ≡ e = cc in absurd (cc (none_marked unsent, m, ap (has_mark unsent) same));
    failed_lane = λ e q w'. broken;
  }

  unwritten-Posts : (t : Turn) (e : Error) (p : Poster wire) → Posts t (refused e, p, false)
  unwritten-Posts t e p = record {
    unsent_unwritten = λ d q m. refl;
    failed_lane = λ d q w'. absurd (cc);
  }

  accept_reply-Posts :
      (t : Turn) (p : Poster wire) (body : List ℕ) → Posts t (accept_reply wire t p body)
  unfolding accept_reply
  accept_reply-Posts t p body =
      if-elim (Posts t) (wire.is_envelope body) (λ _. answered-Posts t body _ t.wrote)
        (λ _. unmarked-Posts t (fail wire p) t.wrote refl)

  read_reply-Posts :
      (t : Turn) (p : Poster wire) (soap : Bool) (body : List ℕ)
      → Posts t (read_reply wire t p soap body)
  unfolding read_reply
  read_reply-Posts t p soap body =
      let p' : Poster wire = record p { security = (wire.unseal p.security body).1 } in
      if-elim (Posts t) p.encrypted
        (λ _.
          case_option-elim (Posts t) (wire.unseal p.security body).0
            (λ _. unmarked-Posts t (fail wire p') t.wrote refl)
            (λ opened _. accept_reply-Posts t p' opened))
        (λ _.
          if-elim (Posts t) soap (λ _. accept_reply-Posts t p body)
            (λ _. unmarked-Posts t (fail wire p) t.wrote refl))

  exchange-Posts :
      (p : Poster wire) (t : Turn) (payload : List ℕ)
      → IsHonest t
      → Posts t (exchange wire t p payload)
  unfolding exchange
  exchange-Posts p t payload honest =
      case_http-elim (Posts t) (send_http t payload)
        (λ e got. record {
          unsent_unwritten = λ d q m.
              marked-unwritten t payload e honest got (ap (has_mark unsent) (refused_error q) ∙ m);
          failed_lane = λ d q w. refl;
        })
        (λ status soap body _.
          if-elim (Posts t) (status == 200 || status == 500) (λ _. read_reply-Posts t p soap body)
            (λ _. unmarked-Posts t (fail wire p) t.wrote refl))

  -- An exchange that `postLocked` refuses: where its error carries `errUnsent`, no request was
  -- written, and where a request was written, the lane has failed.
  pub post_locked-Posts :
      (t : Turn) (p : Poster wire) (message : List ℕ)
      → IsHonest t
      → Posts t (post_locked wire t p message)
  unfolding post_locked
  post_locked-Posts t p message honest =
      let p' : Poster wire = record p { security = (wire.seal p.security message).1 } in
      if-elim (Posts t) (p.closed || p.failed) (λ _. unwritten-Posts t _ p)
        (λ _.
          case_option-elim (Posts t) t.context
            (λ _.
              if-elim (Posts t) p.encrypted
                (λ _.
                  case_option-elim (Posts t) (wire.seal p.security message).0
                    (λ _. unwritten-Posts t _ (fail wire p'))
                    (λ payload _. exchange-Posts p' t payload honest))
                (λ _. exchange-Posts p t message honest))
            (λ e _. unwritten-Posts t _ p))
