-- ===== src/Control/Server/Steps.antt =====
-- internal/control/server.go: the interleavings of a running master, one step for each locked
-- section, and one for the firing of the idle timer.
use winsh.Base.{ℕ, suc, ◌+◌, ◌≡◌, Bool, true, false, Option, List, ◌∷◌, ◌++◌, Error, ContextError}
use winsh.Control.Server.{
  Job, Server, Contexts, count_jobs, count_active, count_answers, stop_if_idle, stop_serving,
  stop_admission, enqueue, cancel_queued, run_result, finish,
}

module _ {Call : Type 0} where
  -- `run`: what it computes without the mutex, then its locked section.
  unfoldable pub complete_run :
      (Call → Bool)
      → (Call → ℕ × Option Error)
      → Contexts
      → Contexts
      → Job Call
      → Server Call
      → Server Call
  complete_run same_target execute before after job s =
      let outcome = run_result same_target execute before job in
      finish after job outcome.0 outcome.1 s

  -- The steps of a running master. A job is new where no `done` channel is its own.
  abbrev pub occurrences : ℕ → Server Call → ℕ
  occurrences i s = count_active i s.active + count_jobs i s.queue + count_answers i s.answered

  pub data Step (same_target : Call → Bool) (execute : Call → ℕ × Option Error) (s : Server Call)
      : Server Call → Type 0 where
    admit :
        (contexts : Contexts) (job : Job Call)
        → occurrences job.id s ≡ 0
        → Step same_target execute s (enqueue contexts job s).1
    cancel :
        (e : ContextError) (job : Job Call) → Step same_target execute s (cancel_queued e job s)
    complete :
        (before after : Contexts) (job : Job Call) (others more : List (Job Call))
        → s.workers ≡ others ++ (job ∷ more)
        → Step same_target execute s (complete_run same_target execute before after job s)
    fire_idle :
        s.idle_armed ≡ true
        → Step same_target execute s
            (record s { idle_armed = false; idle_fired = suc s.idle_fired })
    idle :
        (n : ℕ)
        → s.idle_fired ≡ suc n
        → Step same_target execute s (stop_if_idle (record s { idle_fired = n }))
    stop_serve : Step same_target execute s (stop_serving s)
    stop_admit : Step same_target execute s (stop_admission s)

  pub data Reach (same_target : Call → Bool) (execute : Call → ℕ × Option Error) (s : Server Call)
      : Server Call → Type 0 where
    here : Reach same_target execute s s
    next :
        {t u : Server Call}
        → Reach same_target execute s t
        → Step same_target execute t u
        → Reach same_target execute s u
