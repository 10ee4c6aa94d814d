-- ===== src/Control/Server.antt =====
-- internal/control/server.go: the state of `masterServer` and each section that its mutex guards.
-- A job stands for its pointer: `id` is the identity of its `done` channel.
pub mod Counting
pub mod Steps
pub mod Invariant
pub mod Safety
pub mod Progress
pub mod Stopping
pub mod Line
pub mod Refinement
use winsh.Base.{
  ℕ, zero, suc, ◌+◌, ◌≡◌, Bool, true, false, not, ◌&&◌, ◌||◌, Option, none, some, List, [], ◌∷◌,
  ◌++◌, length, ltb, leb, ◌==◌, if◌then◌else◌, case_option, Error, ContextError, context_error,
}
use winsh.Control.Category.{Category, Result, not_started, queue_full, failure, context_result}
use winsh.Control.Category.{category_from_error, identity_mismatch}
use winsh.Control.Category

pub record Job (Call : Type 0) : Type 0 where
  pub id : ℕ
  pub call : Call

-- `stopped` says that the channel is closed, and `answered` lists the closed `done` channels with
-- the results set before. A second close of a channel panics in Go: `panicked` records it.
-- `idle_fired` counts the runs of the idle timer's function that have not got the mutex yet, and
-- `workers` the goroutines that execute `run`.
pub record Server (Call : Type 0) : Type 0 where
  pub active : Option (Job Call)
  pub queue : List (Job Call)
  pub exiting : Bool
  pub stopped : Bool
  pub listening : Bool
  pub idle_armed : Bool
  pub idle_fired : ℕ
  pub workers : List (Job Call)
  pub answered : List (ℕ × Result)
  pub panicked : Bool

-- `job.ctx.Err()` for each job, when a section reads it.
abbrev pub Contexts : Type 0
Contexts = ℕ → Option ContextError

abbrev pub max_queue : ℕ
max_queue = 16

abbrev pub count_answers : ℕ → List (ℕ × Result) → ℕ
count_answers i [] = 0
count_answers i ((j, r) ∷ rs) = (if j == i then 1 else 0) + count_answers i rs

module _ {Call : Type 0} where
  unfoldable pub new_server : Server Call
  new_server = record {
    active = none;
    queue = [];
    exiting = false;
    stopped = false;
    listening = true;
    idle_armed = true;
    idle_fired = 0;
    workers = [];
    answered = [];
    panicked = false;
  }

  abbrev pub count_jobs : ℕ → List (Job Call) → ℕ
  count_jobs i [] = 0
  count_jobs i (j ∷ js) = (if j.id == i then 1 else 0) + count_jobs i js

  abbrev pub count_active : ℕ → Option (Job Call) → ℕ
  count_active i none = 0
  count_active i (some j) = if j.id == i then 1 else 0

  abbrev pub is_none : Option (Job Call) → Bool
  is_none none = true
  is_none (some j) = false

  abbrev pub is_empty : List (Job Call) → Bool
  is_empty [] = true
  is_empty (j ∷ js) = false

  -- `job.result = result; close(job.done)`
  unfoldable pub answer : Job Call → Result → Server Call → Server Call
  answer job result s = record s {
    answered = (job.id, result) ∷ s.answered;
    panicked = s.panicked || ltb 0 (count_answers job.id s.answered);
  }

  unfoldable pub answer_all : List (Job Call) → Server Call → Server Call
  answer_all [] s = s
  answer_all (job ∷ jobs) s = answer_all jobs (answer job (failure not_started) s)

  unfoldable pub reject_queue_locked : Server Call → Server Call
  reject_queue_locked s = record (answer_all s.queue s) { queue = [] }

  unfoldable pub shutdown_locked : Server Call → Server Call
  shutdown_locked s = if s.exiting && s.stopped then s else record s {
    exiting = true;
    idle_armed = false;
    listening = false;
    stopped = true;
    panicked = s.panicked || s.stopped;
  }

  -- The idle timer's function.
  unfoldable pub stop_if_idle : Server Call → Server Call
  stop_if_idle s = if is_none s.active && is_empty s.queue then shutdown_locked s else s

  -- What `serve` does when its context is done and when Accept fails.
  unfoldable pub stop_serving : Server Call → Server Call
  stop_serving s = shutdown_locked (reject_queue_locked s)

  -- The locked section of an exit request, and that of `keepAlive` after a failed heartbeat.
  unfoldable pub stop_admission : Server Call → Server Call
  stop_admission s =
      let rejected = reject_queue_locked (record s { exiting = true }) in
      if is_none s.active then shutdown_locked rejected else rejected

  unfoldable pub start : Job Call → Server Call → Server Call
  start job s = record s { active = some job; workers = job ∷ s.workers }

  -- The rest of `enqueue`, once the idle timer is stopped.
  unfoldable pub admit_job : Job Call → Server Call → Option Category × Server Call
  admit_job job s =
      if is_none s.active
      then (none, start job s)
      else if leb max_queue (length s.queue)
      then (some queue_full, s)
      else (none, record s { queue = s.queue ++ (job ∷ []) })

  -- `none` means that the job was accepted.
  unfoldable pub enqueue : Contexts → Job Call → Server Call → Option Category × Server Call
  enqueue contexts job s =
      if s.exiting
      then (some not_started, s)
      else case_option (contexts job.id) (admit_job job (record s { idle_armed = false }))
          (λ e. (some (category_from_error (context_error e)), s))

  abbrev pub has_job : ℕ → List (Job Call) → Bool
  has_job i [] = false
  has_job i (j ∷ js) = j.id == i || has_job i js

  -- The queue without its first entry for the job.
  unfoldable pub remove_job : ℕ → List (Job Call) → List (Job Call)
  remove_job i [] = []
  remove_job i (j ∷ js) = if j.id == i then js else j ∷ remove_job i js

  unfoldable pub reset_idle : Server Call → Server Call
  reset_idle s = record s { idle_armed = true }

  -- `e` is `job.ctx.Err()`: the handler calls this after the job's context is done.
  unfoldable pub cancel_queued : ContextError → Job Call → Server Call → Server Call
  cancel_queued e job s =
      if has_job job.id s.queue
      then (let t =
            answer job (context_result e) (record s { queue = remove_job job.id s.queue }) in
          if is_none t.active && is_empty t.queue && not t.exiting then reset_idle t else t)
      else s

  -- The loop at the end of `run`: queued jobs whose context is done are answered, and the first
  -- of the others becomes the active one.
  unfoldable pub promote : Contexts → List (Job Call) → Server Call → Server Call
  promote contexts [] s = record s { queue = [] }
  promote contexts (next ∷ rest) s = elim (contexts next.id) [
    | some e ↦ promote contexts rest (answer next (context_result e) s)
    | none ↦ start next (record s { queue = rest })
  ]

  -- What `run` computes before it takes the mutex, and whether the failure is terminal.
  unfoldable pub run_result :
      (Call → Bool) → (Call → ℕ × Option Error) → Contexts → Job Call → Result × Bool
  run_result same_target execute contexts job = elim (contexts job.id) [
    | some e ↦ (context_result e, false)
    | none ↦
        if same_target job.call
        then (let (code, err) = execute job.call in
            elim err [
              | none ↦ (record { exit_code = code; category = none }, false)
              | some e ↦
                  (record { exit_code = code; category = some (category_from_error e) }, true)
            ])
        else (failure identity_mismatch, false)
  ]

  -- The locked section of `run`, and the end of its goroutine.
  unfoldable pub finish : Contexts → Job Call → Result → Bool → Server Call → Server Call
  finish contexts job result terminal s =
      let t = record (answer job result s) {
        active = none;
        workers = remove_job job.id s.workers;
        exiting = s.exiting || terminal;
      } in
      if t.exiting
      then shutdown_locked (reject_queue_locked t)
      else (let u = promote contexts t.queue t in if is_none u.active then reset_idle u else u)
