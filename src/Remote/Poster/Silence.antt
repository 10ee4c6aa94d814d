-- ===== src/Remote/Poster/Silence.antt =====
-- internal/remote/persistent.go: a lane that has failed writes nothing more.
use winsh.Base.{
  ℕ, ◌-◌, ◌≡◌, refl, sym, ap, subst, Bool, true, false, ◌||◌, Option, List, [], ◌∷◌, ltb, if-elim,
  All, arith, Error, unsent,
}
use winsh.Remote.Poster.{
  Wire, Turn, Posted, answered, refused, Poster, post_locked, keep_alive, identify_request, Call,
  posting, heartbeat, close_call, Event, is_refused, is_failure, call, run_calls,
}
use winsh.Remote.Poster.Replay.{IsHonest, post_locked-Posts, case_posted-elim}

-- The calls of a sequence meet an honest HTTP client.
abbrev pub HonestCall : Call → Type 0
HonestCall (posting t message) = IsHonest t
HonestCall (heartbeat t idle) = IsHonest t
HonestCall close_call = Unit {0}

abbrev pub IsSilent : Event → Type 0
IsSilent e = e.wrote ≡ false

-- A request that was written in a call that failed is the last one that is written.
abbrev pub LastFailure : List Event → Type 0
LastFailure [] = Unit {0}
LastFailure (e ∷ es) = (e.wrote ≡ true → e.broken ≡ true → All IsSilent es) × LastFailure es

module _ (wire : Wire) where
  abbrev IsDead : Poster wire → Type 0
  IsDead p = (p.closed || p.failed) ≡ true

  failed-IsDead : (p : Poster wire) → p.failed ≡ true → IsDead p
  failed-IsDead p e = ground arith

  post_locked-dead :
      (t : Turn) (p : Poster wire) (message : List ℕ)
      → IsDead p
      → post_locked wire t p message ≡ (refused (unsent ∷ []), p, false)
  unfolding post_locked
  post_locked-dead t p message dead = rw dead

  keep_alive-dead :
      (t : Turn) (idle : ℕ) (p : Poster wire)
      → IsDead p
      → ((keep_alive wire t idle p).1 ≡ p) × ((keep_alive wire t idle p).2 ≡ false)
  unfolding keep_alive
  keep_alive-dead t idle p dead =
      let P : Option Error × Poster wire × Bool → Type 0 = λ r. ((r.1 ≡ p) × (r.2 ≡ false)) in
      if-elim P t.busy (λ _. (refl, refl))
        (λ _. if-elim P (p.closed || p.failed) (λ _. (refl, refl)) (λ live. absurd (cc)))

  -- A dead lane stays dead, and no call of it writes.
  run_calls-dead :
      (cs : List Call) (p : Poster wire) → IsDead p → All IsSilent (run_calls wire cs p)
  unfolding run_calls call
  run_calls-dead [] p dead = tt
  run_calls-dead (posting t message ∷ cs) p dead =
      let e = post_locked-dead t p message dead in
      (
        ap (λ (r : Posted × Poster wire × Bool). r.2) e,
        run_calls-dead cs _
            (subst IsDead (sym (ap (λ (r : Posted × Poster wire × Bool). r.1) e)) dead),
      )
  run_calls-dead (heartbeat t idle ∷ cs) p dead =
      let e = keep_alive-dead t idle p dead in
      (e.1, run_calls-dead cs _ (subst IsDead (sym e.0) dead))
  run_calls-dead (close_call ∷ cs) p dead = (refl, run_calls-dead cs _ (ground arith))

  broken_post :
      {X : Type 0} (o : Posted) → is_refused o ≡ true → ((e : Error) → o ≡ refused e → X) → X
  broken_post (refused e) b f = f e refl
  broken_post (answered x) b f = absurd (cc)

  keep_alive-broken :
      (t : Turn) (idle : ℕ) (p : Poster wire)
      → IsHonest t
      → let r = keep_alive wire t idle p in r.2 ≡ true → is_failure r.0 ≡ true → r.1.failed ≡ true
  unfolding keep_alive
  keep_alive-broken t idle p honest =
      let P : Option Error × Poster wire × Bool → Type 0 =
        λ r. (r.2 ≡ true → is_failure r.0 ≡ true → r.1.failed ≡ true) in
      let posts = post_locked-Posts wire t p identify_request honest in
      if-elim P t.busy (λ _ w b. absurd (cc))
        (λ _.
          if-elim P (p.closed || p.failed) (λ _ w b. absurd (cc))
            (λ _.
              if-elim P (ltb (t.now - p.last_used) idle) (λ _ w b. absurd (cc))
                (λ _.
                  case_posted-elim P (post_locked wire t p identify_request).0
                    (λ e q w b. posts.failed_lane e q w)
                    (λ reply _.
                      if-elim P (wire.is_identified reply) (λ _ w b. absurd (cc))
                        (λ _ w b. refl)))))

  -- A call that wrote and failed leaves a dead lane.
  call-broken :
      (c : Call) (p : Poster wire)
      → HonestCall c
      → let r = call wire c p in r.0.wrote ≡ true → r.0.broken ≡ true → IsDead r.1
  unfolding call
  call-broken (posting t message) p honest w b =
      let r = post_locked wire t p message in
      let posts = post_locked-Posts wire t p message honest in
      failed-IsDead r.1 (broken_post r.0 b (λ e q. posts.failed_lane e q w))
  call-broken (heartbeat t idle) p honest w b =
      failed-IsDead (keep_alive wire t idle p).1 (keep_alive-broken t idle p honest w b)
  call-broken close_call p honest w b = absurd (cc)

  -- Over any sequence of posts, heartbeats and a close, in any order, a request that was written in
  -- a call that failed is the last one that the lane writes: nothing is sent behind an exchange
  -- whose outcome is uncertain, where the HTTP client behaves as net/http does.
  pub run_calls-LastFailure :
      (cs : List Call) (p : Poster wire) → All HonestCall cs → LastFailure (run_calls wire cs p)
  unfolding run_calls
  run_calls-LastFailure [] p honest = tt
  run_calls-LastFailure (c ∷ cs) p (h, hs) = (
    (λ w b. run_calls-dead cs (call wire c p).1 (call-broken c p h w b)),
    run_calls-LastFailure cs (call wire c p).1 hs,
  )
