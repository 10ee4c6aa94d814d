-- ===== src/Control/Server/Counting.antt =====
-- How often a job occurs in the queue, as the active job and among the answered ones, through the
-- loops of internal/control/server.go.
use winsh.Base.{
  ℕ, ◌+◌, ◌≤◌, ◌≡◌, refl, ◌∙◌, true, ◌||◌, Option, none, some, List, [], ◌∷◌, ◌++◌, inl, inr,
  length, ltb, ◌==◌, if◌then◌else◌, arith, Option-cases,
}
use winsh.Control.Category.{failure, not_started, context_result}
use winsh.Control.Server.{
  Job, Server, Contexts, count_jobs, count_active, count_answers, answer, answer_all, promote,
  remove_job, has_job, start,
}

module _ {Call : Type 0} where
  pub count_jobs-append :
      (i : ℕ) (js ks : List (Job Call))
      → count_jobs i (js ++ ks) ≡ count_jobs i js + count_jobs i ks
  count_jobs-append i [] ks = omega arith
  count_jobs-append i (j ∷ js) ks = omega (arith, count_jobs-append i js ks)

  -- Rejecting touches the answers only.
  pub answer_all_frame :
      (js : List (Job Call)) (s : Server Call)
      → answer_all js s
        ≡ record s { answered = (answer_all js s).answered; panicked = (answer_all js s).panicked }
  unfolding answer_all answer
  answer_all_frame [] s = refl
  answer_all_frame (j ∷ js) s = answer_all_frame js (answer j (failure not_started) s)

  pub count-answer_all :
      (i : ℕ) (js : List (Job Call)) (s : Server Call)
      → count_answers i (answer_all js s).answered ≡ count_jobs i js + count_answers i s.answered
  unfolding answer_all answer
  count-answer_all i [] s = omega arith
  count-answer_all i (j ∷ js) s =
      omega (arith, count-answer_all i js (answer j (failure not_started) s))

  -- The jobs of a list are distinct, and none of them is answered yet.
  abbrev pub Distinct : List (Job Call) → Server Call → Type 0
  Distinct js s = (i : ℕ) → count_jobs i js + count_answers i s.answered ≤ 1

  Distinct-tail :
      (j : Job Call) (js : List (Job Call)) (s t : Server Call)
      → ((i : ℕ)
          → count_answers i t.answered ≡ (if j.id == i then 1 else 0) + count_answers i s.answered)
      → Distinct (j ∷ js) s
      → Distinct js t
  Distinct-tail j js s t e d = λ i. omega (arith, e i, d i)

  answer_calm :
      (j : Job Call) (js : List (Job Call)) (s : Server Call)
      → Distinct (j ∷ js) s
      → (s.panicked || ltb 0 (count_answers j.id s.answered)) ≡ s.panicked
  answer_calm j js s d = ground (arith, d j.id)

  pub answer_all_calm :
      (js : List (Job Call)) (s : Server Call)
      → Distinct js s
      → (answer_all js s).panicked ≡ s.panicked
  unfolding answer_all answer
  answer_all_calm [] s d = refl
  answer_all_calm (j ∷ js) s d =
      let t = answer j (failure not_started) s in
      answer_all_calm js t (Distinct-tail j js s t (λ i. refl) d) ∙ answer_calm j js s d

  abbrev pub active_list : Option (Job Call) → List (Job Call)
  active_list none = []
  active_list (some j) = j ∷ []

  -- What the loop of `run` keeps, from a state with no active job and no worker.
  pub record Promoted (q : List (Job Call)) (s u : Server Call) : Type 0 where
    pub same_exiting : u.exiting ≡ s.exiting
    pub same_stopped : u.stopped ≡ s.stopped
    pub same_armed : u.idle_armed ≡ s.idle_armed
    pub same_fired : u.idle_fired ≡ s.idle_fired
    pub one_worker : u.workers ≡ active_list u.active
    pub waits_behind : u.active ≡ none → u.queue ≡ []
    pub no_longer : length u.queue ≤ length q
    pub counts :
        (i : ℕ)
        → count_active i u.active + count_jobs i u.queue + count_answers i u.answered
          ≡ count_jobs i q + count_answers i s.answered

  pub promote-Promoted :
      (contexts : Contexts) (q : List (Job Call)) (s : Server Call)
      → s.active ≡ none
      → s.workers ≡ []
      → Promoted q s (promote contexts q s)
  unfolding promote start answer
  promote-Promoted contexts [] s a w = record {
    same_exiting = refl;
    same_stopped = refl;
    same_armed = refl;
    same_fired = refl;
    one_worker = ground arith;
    waits_behind = λ _. refl;
    no_longer = omega arith;
    counts = λ i. ground arith;
  }
  promote-Promoted contexts (j ∷ q) s a w = elim (Option-cases (contexts j.id)) [
    | inl e ↦
        rw (e, promote)
          (record {
            same_exiting = refl;
            same_stopped = refl;
            same_armed = refl;
            same_fired = refl;
            one_worker = ground arith;
            waits_behind = λ n. cc;
            no_longer = omega arith;
            counts = λ i. omega arith;
          })
    | inr (x, e) ↦
        let t = answer j (context_result x) s in
        let p = promote-Promoted contexts q t a w in
        rw (e, promote)
          (record {
            same_exiting = p.same_exiting;
            same_stopped = p.same_stopped;
            same_armed = p.same_armed;
            same_fired = p.same_fired;
            one_worker = p.one_worker;
            waits_behind = p.waits_behind;
            no_longer = omega (arith, p.no_longer);
            counts = λ i. omega (arith, p.counts i);
          })
  ]

  pub promote_calm :
      (contexts : Contexts) (q : List (Job Call)) (s : Server Call)
      → Distinct q s
      → (promote contexts q s).panicked ≡ s.panicked
  unfolding promote start answer
  promote_calm contexts [] s d = refl
  promote_calm contexts (j ∷ q) s d = elim (Option-cases (contexts j.id)) [
    | inl e ↦ rw (e, promote) refl
    | inr (x, e) ↦
        let t = answer j (context_result x) s in
        rw (e, promote)
          (promote_calm contexts q t (Distinct-tail j q s t (λ i. refl) d) ∙ answer_calm j q s d)
  ]

  pub count-remove_job :
      (i k : ℕ) (js : List (Job Call))
      → has_job k js ≡ true
      → count_jobs i js ≡ (if k == i then 1 else 0) + count_jobs i (remove_job k js)
  unfolding remove_job
  count-remove_job i k [] h = cc
  count-remove_job i k (j ∷ js) h = ground (arith, count-remove_job i k js)

  pub length-remove_job : (k : ℕ) (js : List (Job Call)) → length (remove_job k js) ≤ length js
  unfolding remove_job
  length-remove_job k [] = omega arith
  length-remove_job k (j ∷ js) = ground (arith, length-remove_job k js)
