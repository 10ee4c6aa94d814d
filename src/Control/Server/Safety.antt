-- ===== src/Control/Server/Safety.antt =====
-- internal/control/server.go: the end of `run`, cancellation of a queued job, and the invariant
-- over every interleaving.
use winsh.Base.{
  ℕ, suc, ◌≤◌, ◌≡◌, ◌≢◌, refl, sym, ◌∙◌, Bool, true, false, not, ◌&&◌, ◌||◌, Option, none, some,
  List, [], ◌∷◌, ◌++◌, inl, inr, length, ==_refl, if◌then◌else◌, if-elim, arith, ContextError,
  Error,
}
use winsh.Control.Category.{Result, context_result}
use winsh.Control.Server.{
  Job, Server, Contexts, answer, promote, remove_job, has_job, is_none, is_empty,
  reject_queue_locked, cancel_queued, finish, reset_idle, new_server, max_queue, run_result,
}
use winsh.Control.Server.Counting.{
  Distinct, active_list, promote-Promoted, promote_calm, count-remove_job, length-remove_job,
}
use winsh.Control.Server.Steps.{
  Step, Reach, complete_run, admit, cancel, complete, fire_idle, idle, stop_serve, stop_admit, here,
  next,
}
use winsh.Control.Server.Invariant.{
  Shape, Once, Inv, Ready, shutdown-Inv, reject-Once, reject-queue, reject_frame, enqueue-Inv,
  stop_if_idle-Inv, stop_serving-Inv, stop_admission-Inv,
}

module _ {Call : Type 0} where
  pub nil-remove_job : (k : ℕ) (q : List (Job Call)) → q ≡ [] → has_job k q ≡ false
  nil-remove_job k [] e = refl
  nil-remove_job k (j ∷ q) e = cc

  -- The state of `cancelQueued` after it answered the job.
  cancelled : ContextError → Job Call → Server Call → Server Call
  cancelled e job s = answer job (context_result e) (record s { queue = remove_job job.id s.queue })

  cancelled-Once :
      (e : ContextError) (job : Job Call) (s : Server Call)
      → Once s
      → has_job job.id s.queue ≡ true
      → Once (cancelled e job s)
  unfolding cancelled answer
  cancelled-Once e job s o h = record {
    once = λ i. ground (arith, o.once i, count-remove_job i job.id s.queue h);
    calm = ground (arith, o.once job.id, o.calm, count-remove_job job.id job.id s.queue h);
  }

  -- A job that waits shows that another is active and that the master takes commands.
  waiting_behind :
      (k : ℕ) (s : Server Call)
      → Shape s
      → has_job k s.queue ≡ true
      → (s.active ≢ none) × (s.exiting ≢ true)
  waiting_behind k s h w = (
    (λ e. cc (w, nil-remove_job k s.queue (h.waits_behind e))),
    (λ e. cc (w, nil-remove_job k s.queue (h.drained e))),
  )

  cancelled-Shape :
      (e : ContextError) (job : Job Call) (s : Server Call)
      → Shape s
      → has_job job.id s.queue ≡ true
      → Shape (cancelled e job s)
  unfolding cancelled answer
  cancelled-Shape e job s h w =
      let (busy, serving) = waiting_behind job.id s h w in
      record {
        one_worker = h.one_worker;
        waits_behind = λ a. absurd (busy a);
        bounded = omega (arith, h.bounded, length-remove_job job.id s.queue);
        drained = λ x. absurd (serving x);
        closing = h.closing;
        timed = λ x a. absurd (busy a);
      }

  reset-Inv : (s : Server Call) → Inv s → Inv (reset_idle s)
  unfolding reset_idle
  reset-Inv s v = record {
    shape = record {
      one_worker = v.shape.one_worker;
      waits_behind = v.shape.waits_behind;
      bounded = v.shape.bounded;
      drained = v.shape.drained;
      closing = v.shape.closing;
      timed = λ x a. inl refl;
    };
    unique = record { once = v.unique.once; calm = v.unique.calm };
  }

  cancelled-Inv :
      (e : ContextError) (job : Job Call) (s : Server Call)
      → Inv s
      → has_job job.id s.queue ≡ true
      → Inv (cancelled e job s)
  cancelled-Inv e job s v w = record {
    shape = cancelled-Shape e job s v.shape w;
    unique = cancelled-Once e job s v.unique w;
  }

  pub cancel_queued-Inv :
      (e : ContextError) (job : Job Call) (s : Server Call) → Inv s → Inv (cancel_queued e job s)
  unfolding cancel_queued cancelled answer
  cancel_queued-Inv e job s v =
      if-elim Inv (has_job job.id s.queue)
        (λ w.
          if-elim Inv (is_none s.active && is_empty (remove_job job.id s.queue) && not s.exiting)
            (λ _. reset-Inv _ (cancelled-Inv e job s v w)) (λ _. cancelled-Inv e job s v w))
        (λ _. v)

  pub worker-active :
      (o : Option (Job Call)) (job : Job Call) (others more : List (Job Call))
      → others ++ (job ∷ more) ≡ active_list o
      → (o ≡ some job) × (others ++ (job ∷ more) ≡ job ∷ [])
  worker-active none job [] more e = cc
  worker-active none job (x ∷ others) more e = cc
  worker-active (some j) job [] more e = (ground arith, ground arith)
  worker-active (some j) job (x ∷ []) more e = absurd (cc)
  worker-active (some j) job (x ∷ y ∷ others) more e = absurd (cc)

  -- The state of `run` after it answered its job and gave up the place of the active one.
  unfoldable pub retired : Job Call → Result → Bool → Server Call → Server Call
  retired job result terminal s = record (answer job result s) {
    active = none;
    workers = remove_job job.id s.workers;
    exiting = s.exiting || terminal;
  }

  pub retired-workers :
      (job : Job Call) (s : Server Call) → s.workers ≡ job ∷ [] → remove_job job.id s.workers ≡ []
  unfolding remove_job
  retired-workers job s w = rw w (rw (==_refl job.id) refl)

  retired-Once :
      (job : Job Call) (result : Result) (terminal : Bool) (s : Server Call)
      → Once s
      → s.active ≡ some job
      → Once (retired job result terminal s)
  unfolding retired answer
  retired-Once job result terminal s o a = record {
    once = λ i. ground (arith, o.once i);
    calm = ground (arith, o.once job.id, o.calm);
  }

  reject-Ready :
      (t : Server Call)
      → t.workers ≡ active_list t.active
      → (t.stopped ≡ true → t.exiting ≡ true)
      → Once t
      → Ready (reject_queue_locked t)
  reject-Ready t w c o = record {
    one_worker = rw (reject_frame t) w;
    no_queue = reject-queue t;
    closing = rw (reject_frame t) c;
    unique = reject-Once t o;
  }

  promoted-Once :
      (contexts : Contexts) (t : Server Call)
      → t.active ≡ none
      → t.workers ≡ []
      → Once t
      → Once (promote contexts t.queue t)
  promoted-Once contexts t a w o =
      let p = promote-Promoted contexts t.queue t a w in
      let d : Distinct t.queue t = λ i. omega (arith, o.once i) in
      record {
        once = λ i. omega (arith, p.counts i, o.once i);
        calm = promote_calm contexts t.queue t d ∙ o.calm;
      }

  promoted-Inv :
      (contexts : Contexts) (t : Server Call)
      → t.active ≡ none
      → t.workers ≡ []
      → t.exiting ≡ false
      → t.stopped ≡ false
      → length t.queue ≤ max_queue
      → Once t
      → let u = promote contexts t.queue t in Inv (if is_none u.active then reset_idle u else u)
  unfolding reset_idle
  promoted-Inv contexts t a w x st len o =
      let u = promote contexts t.queue t in
      let p = promote-Promoted contexts t.queue t a w in
      let q = promoted-Once contexts t a w o in
      let short : length u.queue ≤ max_queue = omega (arith, p.no_longer) in
      let serving : u.exiting ≡ false = p.same_exiting ∙ x in
      let running : u.stopped ≡ false = p.same_stopped ∙ st in
      if-elim Inv (is_none u.active)
        (λ e. record {
          shape = record {
            one_worker = p.one_worker;
            waits_behind = p.waits_behind;
            bounded = short;
            drained = λ y. cc;
            closing = λ y. cc;
            timed = λ y z. inl refl;
          };
          unique = record { once = q.once; calm = q.calm };
        })
        (λ e. record {
          shape = record {
            one_worker = p.one_worker;
            waits_behind = p.waits_behind;
            bounded = short;
            drained = λ y. cc;
            closing = λ y. cc;
            timed = λ y z. ground arith;
          };
          unique = q;
        })

  finish-Inv :
      (contexts : Contexts) (job : Job Call) (result : Result) (terminal : Bool) (s : Server Call)
      → Inv s
      → s.active ≡ some job
      → s.workers ≡ job ∷ []
      → Inv (finish contexts job result terminal s)
  unfolding finish retired answer
  finish-Inv contexts job result terminal s v a w =
      let o = retired-Once job result terminal s v.unique a in
      let idle' = retired-workers job s w in
      if-elim Inv (s.exiting || terminal) (λ e. shutdown-Inv _ (reject-Ready _ idle' (λ _. e) o))
        (λ e.
          let serving : s.exiting ≡ false = ground arith in
          promoted-Inv contexts (retired job result terminal s) refl idle' e
            (ground (arith, v.shape.closing)) v.shape.bounded o)

  new_server-Inv : Inv (new_server {Call = Call})
  unfolding new_server
  new_server-Inv = record {
    shape = record {
      one_worker = refl;
      waits_behind = λ _. refl;
      bounded = omega arith;
      drained = λ _. refl;
      closing = λ e. cc;
      timed = λ _ _. inl refl;
    };
    unique = record { once = λ i. omega arith; calm = refl };
  }

  fired-Inv :
      (s : Server Call)
      → Inv s
      → Inv (record s { idle_armed = false; idle_fired = suc s.idle_fired })
  fired-Inv s v = record {
    shape = record {
      one_worker = v.shape.one_worker;
      waits_behind = v.shape.waits_behind;
      bounded = v.shape.bounded;
      drained = v.shape.drained;
      closing = v.shape.closing;
      timed = λ x a. inr (omega arith);
    };
    unique = record { once = v.unique.once; calm = v.unique.calm };
  }

module _ {Call : Type 0} (same_target : Call → Bool) (execute : Call → ℕ × Option Error) where
  pub Step-Inv : {s t : Server Call} → Step same_target execute s t → Inv s → Inv t
  unfolding complete_run
  Step-Inv {s} (admit contexts job new) v = enqueue-Inv contexts job s v new
  Step-Inv {s} (cancel e job) v = cancel_queued-Inv e job s v
  Step-Inv {s} (complete before after job others more w) v =
      let (a, only) = worker-active s.active job others more (sym w ∙ v.shape.one_worker) in
      let (result, terminal) = run_result same_target execute before job in
      finish-Inv after job result terminal s v a (w ∙ only)
  Step-Inv {s} (fire_idle e) v = fired-Inv s v
  Step-Inv {s} (idle n e) v = stop_if_idle-Inv n s v e
  Step-Inv {s} stop_serve v = stop_serving-Inv s v
  Step-Inv {s} stop_admit v = stop_admission-Inv s v

  -- In every state that a new master can reach, the goroutines of `run` are exactly the one of the
  -- active job, at most 16 jobs wait, they wait only behind an active job, none waits once the
  -- master is exiting, an idle master has its idle timer pending, each job is active, queued or
  -- answered once at most, and no channel was closed twice.
  pub Reach-Inv : {s : Server Call} → Reach same_target execute new_server s → Inv s
  Reach-Inv here = new_server-Inv
  Reach-Inv (next r st) = Step-Inv st (Reach-Inv r)
