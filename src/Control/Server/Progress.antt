-- ===== src/Control/Server/Progress.antt =====
-- internal/control/server.go: no admitted job is lost, and whom the end of `run` starts next.
use winsh.Base.{
  ℕ, ◌≤◌, ◌≡◌, refl, sym, subst, ◌∙◌, Bool, true, false, ◌&&◌, ◌||◌, Option, none, some, List, [],
  ◌∷◌, ◌++◌, All, map, if-elim, arith, ContextError, Error,
}
use winsh.Control.Category.{Result, context_result}
use winsh.Control.Server.{
  Job, Server, Contexts, count_answers, answer, promote, is_none, is_empty, reject_queue_locked,
  shutdown_locked, stop_if_idle, stop_serving, stop_admission, enqueue, admit_job, start,
  cancel_queued, finish, reset_idle, new_server, run_result,
}
use winsh.Control.Server.Counting.{
  count_jobs-append, count-answer_all, promote-Promoted, count-remove_job,
}
use winsh.Control.Server.Steps.{
  Step, Reach, complete_run, occurrences, admit, cancel, complete, fire_idle, idle, stop_serve,
  stop_admit, here, next,
}
use winsh.Control.Server.Invariant.{Inv, reject_frame}
use winsh.Control.Server.Safety.{worker-active, Step-Inv, Reach-Inv, retired, retired-workers}

module _ {Call : Type 0} where
  occurrences-reject :
      (i : ℕ) (s : Server Call) → occurrences i (reject_queue_locked s) ≡ occurrences i s
  occurrences-reject i s = rw (reject_frame s) (omega (arith, count-answer_all i s.queue s))

  occurrences-shutdown :
      (i : ℕ) (s : Server Call) → occurrences i (shutdown_locked s) ≡ occurrences i s
  unfolding shutdown_locked
  occurrences-shutdown i s = ground arith

  occurrences-stop_if_idle :
      (i : ℕ) (s : Server Call) → occurrences i (stop_if_idle s) ≡ occurrences i s
  unfolding stop_if_idle
  occurrences-stop_if_idle i s =
      if-elim (λ (t : Server Call). occurrences i t ≡ occurrences i s)
        (is_none s.active && is_empty s.queue) (λ _. occurrences-shutdown i s) (λ _. refl)

  occurrences-stop_serving :
      (i : ℕ) (s : Server Call) → occurrences i (stop_serving s) ≡ occurrences i s
  unfolding stop_serving
  occurrences-stop_serving i s = occurrences-shutdown i _ ∙ occurrences-reject i s

  occurrences-stop_admission :
      (i : ℕ) (s : Server Call) → occurrences i (stop_admission s) ≡ occurrences i s
  unfolding stop_admission
  occurrences-stop_admission i s =
      let t = record s { exiting = true } in
      if-elim (λ (u : Server Call). occurrences i u ≡ occurrences i s) (is_none s.active)
        (λ _. occurrences-shutdown i _ ∙ occurrences-reject i t) (λ _. occurrences-reject i t)

  occurrences-enqueue :
      (i : ℕ) (contexts : Contexts) (job : Job Call) (s : Server Call)
      → occurrences i s ≤ occurrences i (enqueue contexts job s).1
  unfolding enqueue admit_job start
  occurrences-enqueue i contexts job s = ground (arith, count_jobs-append i s.queue (job ∷ []))

  occurrences-cancel_queued :
      (i : ℕ) (e : ContextError) (job : Job Call) (s : Server Call)
      → occurrences i (cancel_queued e job s) ≡ occurrences i s
  unfolding cancel_queued answer reset_idle
  occurrences-cancel_queued i e job s = ground (arith, count-remove_job i job.id s.queue)

  occurrences-finish :
      (i : ℕ) (contexts : Contexts) (job : Job Call) (result : Result) (terminal : Bool)
      (s : Server Call)
      → s.active ≡ some job
      → s.workers ≡ job ∷ []
      → occurrences i (finish contexts job result terminal s) ≡ occurrences i s
  unfolding finish retired answer
  occurrences-finish i contexts job result terminal s a w =
      let t = retired job result terminal s in
      let same : occurrences i t ≡ occurrences i s = ground arith in
      let u = promote contexts t.queue t in
      let p = promote-Promoted contexts t.queue t refl (retired-workers job s w) in
      let reset : occurrences i (reset_idle u) ≡ occurrences i s =
        unfold reset_idle in omega (arith, p.counts i, same) in
      if-elim (λ (u : Server Call). occurrences i u ≡ occurrences i s) (s.exiting || terminal)
        (λ _. occurrences-shutdown i _ ∙ occurrences-reject i t ∙ same)
        (λ _.
          if-elim (λ (u : Server Call). occurrences i u ≡ occurrences i s)
            (is_none (promote contexts t.queue t).active) (λ _. reset)
            (λ _. omega (arith, p.counts i, same)))

  abbrev pub done_answers : List (Job Call × ContextError) → List (ℕ × Result) → List (ℕ × Result)
  done_answers [] answers = answers
  done_answers ((j, e) ∷ skipped) answers =
      done_answers skipped ((j.id, context_result e) ∷ answers)

  promote_skips :
      (contexts : Contexts) (skipped : List (Job Call × ContextError)) (next' : Job Call)
      (rest : List (Job Call)) (s : Server Call)
      → All (λ p. contexts p.0.id ≡ some p.1) skipped
      → contexts next'.id ≡ none
      → let u = promote contexts (map (λ p. p.0) skipped ++ (next' ∷ rest)) s in
        (u.active ≡ some next') × (u.queue ≡ rest) × (u.answered ≡ done_answers skipped s.answered)
  unfolding promote start answer
  promote_skips contexts [] next' rest s h e = rw (e, promote) (refl, refl, refl)
  promote_skips contexts ((j, x) ∷ skipped) next' rest s h e =
      rw (h.0, promote)
        (promote_skips contexts skipped next' rest (answer j (context_result x) s) h.1 e)

  -- Where the master takes commands and the finished command did not fail, the first job of the
  -- queue whose context is live becomes the active one, those behind it keep their order, and
  -- those before it, whose contexts are done, are answered with the category of their context.
  pub finish_promotes :
      (contexts : Contexts) (job next' : Job Call) (result : Result) (s : Server Call)
      (skipped : List (Job Call × ContextError)) (rest : List (Job Call))
      → s.exiting ≡ false
      → s.queue ≡ map (λ p. p.0) skipped ++ (next' ∷ rest)
      → All (λ p. contexts p.0.id ≡ some p.1) skipped
      → contexts next'.id ≡ none
      → let u = finish contexts job result false s in
        (u.active ≡ some next')
        × (u.queue ≡ rest)
        × (u.answered ≡ done_answers skipped ((job.id, result) ∷ s.answered))
  unfolding finish answer retired reset_idle
  finish_promotes contexts job next' result s skipped rest x q h e =
      let t = retired job result false s in
      let Promotes : List (Job Call) → Type 0 = λ queue.
        (((promote contexts queue t).active ≡ some next')
          × ((promote contexts queue t).queue ≡ rest)
          × ((promote contexts queue t).answered ≡ done_answers skipped t.answered)) in
      let p = subst Promotes (sym q) (promote_skips contexts skipped next' rest t h e) in
      ground (arith, p.0, p.1, p.2)

module _ {Call : Type 0} (same_target : Call → Bool) (execute : Call → ℕ × Option Error) where
  occurrences-Step :
      (i : ℕ) {s t : Server Call}
      → Step same_target execute s t
      → Inv s
      → occurrences i s ≤ occurrences i t
  unfolding complete_run
  occurrences-Step i {s} (admit contexts job new) v = occurrences-enqueue i contexts job s
  occurrences-Step i {s} (cancel e job) v = omega (arith, occurrences-cancel_queued i e job s)
  occurrences-Step i {s} (complete before after job others more w) v =
      let (a, only) = worker-active s.active job others more (sym w ∙ v.shape.one_worker) in
      let (result, terminal) = run_result same_target execute before job in
      omega (arith, occurrences-finish i after job result terminal s a (w ∙ only))
  occurrences-Step i {s} (fire_idle e) v = omega arith
  occurrences-Step i {s} (idle n e) v =
      omega (arith, occurrences-stop_if_idle i (record s { idle_fired = n }))
  occurrences-Step i {s} stop_serve v = omega (arith, occurrences-stop_serving i s)
  occurrences-Step i {s} stop_admit v = omega (arith, occurrences-stop_admission i s)

  occurrences-Reach :
      (i : ℕ) {s t : Server Call}
      → Inv s
      → Reach same_target execute s t
      → Inv t × (occurrences i s ≤ occurrences i t)
  occurrences-Reach i v here = (v, omega arith)
  occurrences-Reach i v (next r st) =
      let (w, le) = occurrences-Reach i v r in
      (Step-Inv same_target execute st w, omega (arith, occurrences-Step i st w))

  -- A job that a reachable master has admitted (it is active, queued or answered) is answered
  -- exactly once in every later state in which no job is active.
  pub admitted_answered :
      (i : ℕ) {s t : Server Call}
      → Reach same_target execute new_server s
      → occurrences i s ≡ 1
      → Reach same_target execute s t
      → t.active ≡ none
      → count_answers i t.answered ≡ 1
  admitted_answered i {s} {t} r one r' a =
      let (w, le) = occurrences-Reach i (Reach-Inv same_target execute r) r' in
      ground (arith, w.unique.once i, w.shape.waits_behind a)
