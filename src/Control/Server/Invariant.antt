-- ===== src/Control/Server/Invariant.antt =====
-- internal/control/server.go: what every interleaving of the master's locked sections keeps.
use winsh.Base.{
  ℕ, suc, ◌≤◌, ◌<◌, ◌≡◌, ◌⊎◌, refl, ap, ◌∙◌, true, false, ◌&&◌, Option, none, some, List, [], ◌∷◌,
  length, length-append, if-elim, case_option-elim, arith,
}
use winsh.Control.Category.{Category}
use winsh.Control.Server.{
  Job, Server, Contexts, answer_all, is_none, is_empty, reject_queue_locked, shutdown_locked,
  stop_if_idle, stop_serving, stop_admission, enqueue, admit_job, start, max_queue,
}
use winsh.Control.Server.Counting.{
  count_jobs-append, answer_all_frame, count-answer_all, answer_all_calm, active_list,
}
use winsh.Control.Server.Steps.{occurrences}

module _ {Call : Type 0} where
  -- The control part of the state: one worker, a bounded queue behind an active job, an empty
  -- queue once the master is exiting, and an idle timer that is pending whenever nothing runs.
  pub record Shape (s : Server Call) : Type 0 where
    pub one_worker : s.workers ≡ active_list s.active
    pub waits_behind : s.active ≡ none → s.queue ≡ []
    pub bounded : length s.queue ≤ max_queue
    pub drained : s.exiting ≡ true → s.queue ≡ []
    pub closing : s.stopped ≡ true → s.exiting ≡ true
    pub timed : s.exiting ≡ false → s.active ≡ none → (s.idle_armed ≡ true) ⊎ (0 < s.idle_fired)

  -- Each job is in one place at most, and no channel was closed twice.
  pub record Once (s : Server Call) : Type 0 where
    pub once : (i : ℕ) → occurrences i s ≤ 1
    pub calm : s.panicked ≡ false

  rejected_calm : (s : Server Call) → Once s → (answer_all s.queue s).panicked ≡ false
  rejected_calm s o = answer_all_calm s.queue s (λ i. omega (arith, o.once i)) ∙ o.calm

  pub reject_frame :
      (s : Server Call)
      → reject_queue_locked s ≡ record s {
        queue = [];
        answered = (answer_all s.queue s).answered;
        panicked = (answer_all s.queue s).panicked;
      }
  unfolding reject_queue_locked
  reject_frame s = ap (λ (t : Server Call). record t { queue = [] }) (answer_all_frame s.queue s)

  pub reject-Once : (s : Server Call) → Once s → Once (reject_queue_locked s)
  reject-Once s o = rw (reject_frame s) (record {
    once = λ i. omega (arith, count-answer_all i s.queue s, o.once i);
    calm = rejected_calm s o;
  })

  shutdown-Once :
      (s : Server Call) → (s.stopped ≡ true → s.exiting ≡ true) → Once s → Once (shutdown_locked s)
  unfolding shutdown_locked
  shutdown-Once s h o = record { once = λ i. ground (arith, o.once i); calm = ground arith }

  pub record Inv (s : Server Call) : Type 0 where
    pub shape : Shape s
    pub unique : Once s

  -- Emptying the queue keeps the rest, and shutting down needs an empty queue.
  reject-Shape : (s : Server Call) → Shape s → Shape (reject_queue_locked s)
  reject-Shape s h = rw (reject_frame s) (record {
    one_worker = h.one_worker;
    waits_behind = λ _. refl;
    bounded = omega arith;
    drained = λ _. refl;
    closing = h.closing;
    timed = h.timed;
  })

  pub reject-queue : (s : Server Call) → (reject_queue_locked s).queue ≡ []
  reject-queue s = ap (λ (t : Server Call). t.queue) (reject_frame s)

  -- What shutting down needs of a state; it may have lost its timer.
  pub record Ready (s : Server Call) : Type 0 where
    pub one_worker : s.workers ≡ active_list s.active
    pub no_queue : s.queue ≡ []
    pub closing : s.stopped ≡ true → s.exiting ≡ true
    pub unique : Once s

  pub shutdown-Inv : (s : Server Call) → Ready s → Inv (shutdown_locked s)
  unfolding shutdown_locked
  shutdown-Inv s r = record {
    shape = record {
      one_worker = ground arith;
      waits_behind = λ _. ground arith;
      bounded = ground arith;
      drained = λ _. ground arith;
      closing = λ _. ground arith;
      timed = λ x _. ground arith;
    };
    unique = unfold shutdown_locked in shutdown-Once s r.closing r.unique;
  }

  ready : {s : Server Call} → Inv s → s.queue ≡ [] → Ready s
  ready v q = record {
    one_worker = v.shape.one_worker;
    no_queue = q;
    closing = v.shape.closing;
    unique = v.unique;
  }

  pub reject-Inv : (s : Server Call) → Inv s → Inv (reject_queue_locked s)
  reject-Inv s v = record { shape = reject-Shape s v.shape; unique = reject-Once s v.unique }

  pub stop_serving-Inv : (s : Server Call) → Inv s → Inv (stop_serving s)
  unfolding stop_serving
  stop_serving-Inv s v = shutdown-Inv _ (ready (reject-Inv s v) (reject-queue s))

  -- Rejection right after the exit flag was set, while the queue may still be full.
  rejected-Inv : (s : Server Call) → Inv s → Inv (reject_queue_locked (record s { exiting = true }))
  rejected-Inv s v =
      let t = record s { exiting = true } in
      record {
        shape = rw (reject_frame t) (record {
          one_worker = v.shape.one_worker;
          waits_behind = λ _. refl;
          bounded = omega arith;
          drained = λ _. refl;
          closing = λ _. refl;
          timed = λ e. ground arith;
        });
        unique = reject-Once t (record { once = v.unique.once; calm = v.unique.calm });
      }

  pub none_of : (o : Option (Job Call)) → is_none o ≡ true → o ≡ none
  none_of none e = refl
  none_of (some j) e = cc

  pub empty_of : (q : List (Job Call)) → is_empty q ≡ true → q ≡ []
  empty_of [] e = refl
  empty_of (j ∷ q) e = cc

  pub stop_admission-Inv : (s : Server Call) → Inv s → Inv (stop_admission s)
  unfolding stop_admission
  stop_admission-Inv s v =
      if-elim Inv (is_none s.active)
        (λ _. shutdown-Inv _ (ready (rejected-Inv s v) (reject-queue _))) (λ _. rejected-Inv s v)

  pub stop_if_idle-Inv :
      (n : ℕ) (s : Server Call)
      → Inv s
      → s.idle_fired ≡ suc n
      → Inv (stop_if_idle (record s { idle_fired = n }))
  unfolding stop_if_idle
  stop_if_idle-Inv n s v e =
      if-elim Inv (is_none s.active && is_empty s.queue)
        (λ h. shutdown-Inv _ (record {
          one_worker = v.shape.one_worker;
          no_queue = v.shape.waits_behind (ground arith);
          closing = v.shape.closing;
          unique = record { once = v.unique.once; calm = v.unique.calm };
        }))
        (λ h. record {
          shape = record {
            one_worker = v.shape.one_worker;
            waits_behind = v.shape.waits_behind;
            bounded = v.shape.bounded;
            drained = v.shape.drained;
            closing = v.shape.closing;
            timed = λ x a. ground (arith, v.shape.waits_behind a);
          };
          unique = record { once = v.unique.once; calm = v.unique.calm };
        })

  -- Admission while the master takes commands; the timer was stopped.
  admit_job-Inv :
      (job : Job Call) (s : Server Call)
      → Inv s
      → s.exiting ≡ false
      → occurrences job.id s ≡ 0
      → Inv (admit_job job (record s { idle_armed = false })).1
  unfolding admit_job start
  admit_job-Inv job s v accepting new = record {
    shape = record {
      one_worker = ground (arith, v.shape.one_worker);
      waits_behind = λ a. ground (arith, v.shape.waits_behind);
      bounded = ground (arith, length-append s.queue (job ∷ []));
      drained = λ x. ground arith;
      closing = λ x. ground (arith, v.shape.closing);
      timed = λ x a. ground arith;
    };
    unique = record {
      once = λ i. ground (arith, new, v.unique.once i, count_jobs-append i s.queue (job ∷ []));
      calm = ground arith;
    };
  }

  pub enqueue-Inv :
      (contexts : Contexts) (job : Job Call) (s : Server Call)
      → Inv s
      → occurrences job.id s ≡ 0
      → Inv (enqueue contexts job s).1
  unfolding enqueue
  enqueue-Inv contexts job s v new =
      let After : Option Category × Server Call → Type 0 = λ r. Inv r.1 in
      if-elim After s.exiting (λ _. v)
        (λ open'.
          case_option-elim After (contexts job.id) (λ _. admit_job-Inv job s v open' new)
            (λ e _. v))
