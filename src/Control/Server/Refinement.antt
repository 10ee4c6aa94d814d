-- ===== src/Control/Server/Refinement.antt =====
-- internal/control/server.go: `masterServer`, with its timers, goroutines and flags, refines the line.
use winsh.Base.{
  ℕ, ◌≡◌, refl, sym, ap, subst, ◌∙◌, Bool, true, false, not, ◌&&◌, ◌||◌, Option, none, some, List,
  [], ◌∷◌, ◌++◌, length, leb, ◌==◌, if◌then◌else◌, if-elim, case_option-elim, Bool-cases,
  Option-cases, inl, inr, arith, Error, ContextError, context_error, ==→eq,
}
use winsh.Control.Category.{
  Category, Result, not_started, failure, context_result, category_from_error,
}
use winsh.Control.Server.{
  Job, Server, Contexts, max_queue, new_server, is_none, is_empty, answer, answer_all,
  reject_queue_locked, shutdown_locked, stop_if_idle, stop_serving, stop_admission, start,
  admit_job, enqueue, has_job, remove_job, reset_idle, cancel_queued, promote, run_result, finish,
}
use winsh.Control.Server.Steps.{
  Step, Reach, admit, cancel, complete, fire_idle, idle, stop_serve, stop_admit, here, next,
  complete_run,
}
use winsh.Control.Server.Invariant.{Inv, none_of}
use winsh.Control.Server.Safety.{Reach-Inv, worker-active}
use winsh.Control.Server.Line.{
  begin, join, drop_out, end, advance, stay, then_move, Line, Moves, append-Moves, view, at,
}

module _ {Call : Type 0} where
  shutdown-view : (s : Server Call) → view (shutdown_locked s) ≡ view s
  unfolding shutdown_locked
  shutdown-view s =
      if-elim (λ (t : Server Call). view t ≡ view s) (s.exiting && s.stopped) (λ _. refl)
        (λ _. refl)

  -- The whole line is answered, and nothing else changes.
  rejected :
      (o : Option (Job Call)) (js : List (Job Call)) (s : Server Call)
      → Moves (at o js s.answered) (at o [] (answer_all js s).answered)
  unfolding answer_all answer
  rejected o [] s = stay
  rejected o (j ∷ js) s =
      append-Moves (then_move stay (drop_out o [] js j s.answered not_started))
        (rejected o js (answer j (failure not_started) s))

  reject-active : (js : List (Job Call)) (s : Server Call) → (answer_all js s).active ≡ s.active
  unfolding answer_all answer
  reject-active [] s = refl
  reject-active (j ∷ js) s = reject-active js (answer j (failure not_started) s)

  reject-Moves : (s : Server Call) → Moves (view s) (view (reject_queue_locked s))
  unfolding reject_queue_locked
  reject-Moves s =
      subst (λ o. Moves (view s) (at o [] (answer_all s.queue s).answered))
        (sym (reject-active s.queue s)) (rejected s.active s.queue s)

  shut-Moves :
      (a : Line Call) (s : Server Call) → Moves a (view s) → Moves a (view (shutdown_locked s))
  shut-Moves a s m = subst (λ b. Moves a b) (sym (shutdown-view s)) m

  -- The jobs before the first live one are answered, and that one begins to run.
  promote-Moves :
      (contexts : Contexts) (js : List (Job Call)) (s : Server Call)
      → s.active ≡ none
      → Moves (at none js s.answered) (view (promote contexts js s))
  unfolding promote answer start context_result
  promote-Moves contexts [] s e =
      subst (λ o. Moves (at none [] s.answered) (at o [] s.answered)) (sym e) stay
  promote-Moves contexts (j ∷ js) s e = elim (Option-cases (contexts j.id)) [
    | inl live ↦ rw (live, promote) (then_move stay (advance j js s.answered))
    | inr (x, done) ↦
        let c = category_from_error (context_error x) in
        rw (done, promote)
          (append-Moves (then_move stay (drop_out none [] js j s.answered c))
            (promote-Moves contexts js (answer j (context_result x) s) e))
  ]

  begun :
      (job : Job Call) (o : Option (Job Call)) (js : List (Job Call)) (ans : List (ℕ × Result))
      → o ≡ none
      → js ≡ []
      → Moves (at o js ans) (at (some job) js ans)
  begun job none [] ans e q = then_move stay (begin job ans)
  begun job none (j ∷ js) ans e q = absurd (cc)
  begun job (some r) js ans e q = absurd (cc)

  joined :
      (job : Job Call) (o : Option (Job Call)) (js : List (Job Call)) (ans : List (ℕ × Result))
      → is_none o ≡ false
      → leb max_queue (length js) ≡ false
      → Moves (at o js ans) (at o (js ++ (job ∷ [])) ans)
  joined job none js ans e room = absurd (cc)
  joined job (some r) js ans e room = then_move stay (join r job js ans (ground arith))

  choose :
      (a : Line Call) (b : Bool) (x y : Server Call)
      → Moves a (view x)
      → Moves a (view y)
      → Moves a (view (if b then x else y))
  choose a true x y m n = m
  choose a false x y m n = n

  admit_job-Moves :
      (job : Job Call) (s : Server Call)
      → (s.active ≡ none → s.queue ≡ [])
      → Moves (view s) (view (admit_job job s).1)
  unfolding admit_job start
  admit_job-Moves job s behind =
      let P : Option Category × Server Call → Type 0 = λ x. Moves (view s) (view x.1) in
      if-elim P (is_none s.active)
        (λ e. let a = none_of s.active e in begun job s.active s.queue s.answered a (behind a))
        (λ e.
          if-elim P (leb max_queue (length s.queue)) (λ _. stay)
            (λ room. joined job s.active s.queue s.answered e room))

  enqueue-Moves :
      (contexts : Contexts) (job : Job Call) (s : Server Call)
      → (s.active ≡ none → s.queue ≡ [])
      → Moves (view s) (view (enqueue contexts job s).1)
  unfolding enqueue
  enqueue-Moves contexts job s behind =
      let P : Option Category × Server Call → Type 0 = λ x. Moves (view s) (view x.1) in
      if-elim P s.exiting (λ _. stay)
        (λ _.
          case_option-elim P (contexts job.id)
            (λ _. admit_job-Moves job (record s { idle_armed = false }) behind) (λ e _. stay))

  -- The entry that is removed.
  record Cut (i : ℕ) (js : List (Job Call)) : Type 0 where
    before : List (Job Call)
    after : List (Job Call)
    job : Job Call
    same : job.id ≡ i
    whole : js ≡ before ++ (job ∷ after)
    rest : remove_job i js ≡ before ++ after

  remove_job-Cut : (i : ℕ) (js : List (Job Call)) → has_job i js ≡ true → Cut i js
  unfolding remove_job
  remove_job-Cut i [] h = absurd (cc)
  remove_job-Cut i (j ∷ js) h = elim (Bool-cases (j.id == i)) [
    | inl e ↦ record {
      before = [];
      after = js;
      job = j;
      same = ==→eq j.id i e;
      whole = refl;
      rest = rw e refl;
    }
    | inr e ↦
        let c = remove_job-Cut i js (ground arith) in
        record {
          before = j ∷ c.before;
          after = c.after;
          job = c.job;
          same = c.same;
          whole = ap (λ x. j ∷ x) c.whole;
          rest = rw e (ap (λ x. j ∷ x) c.rest);
        }
  ]

  cancelled :
      (e : ContextError) (job : Job Call) (s : Server Call)
      → has_job job.id s.queue ≡ true
      → Moves
          (view s)
          (at s.active (remove_job job.id s.queue) ((job.id, context_result e) ∷ s.answered))
  unfolding context_result
  cancelled e job s h =
      let c = remove_job-Cut job.id s.queue h in
      let m =
        drop_out s.active c.before c.after c.job s.answered
          (category_from_error (context_error e)) in
      let f = context_result e in
      let q = s.queue in
      let line = at s.active q s.answered in
      subst (λ k. Moves line (at s.active (remove_job job.id q) ((k, f) ∷ s.answered))) c.same
        (subst (λ x. Moves line (at s.active x ((c.job.id, f) ∷ s.answered))) (sym c.rest)
          (subst
            (λ x.
              Moves (at s.active x s.answered)
                (at s.active (c.before ++ c.after) ((c.job.id, f) ∷ s.answered)))
            (sym c.whole) (then_move stay m)))

  cancel_queued-Moves :
      (e : ContextError) (job : Job Call) (s : Server Call)
      → Moves (view s) (view (cancel_queued e job s))
  unfolding cancel_queued answer reset_idle
  cancel_queued-Moves e job s =
      let P : Server Call → Type 0 = λ t. Moves (view s) (view t) in
      if-elim P (has_job job.id s.queue)
        (λ h.
          if-elim P (is_none s.active && is_empty (remove_job job.id s.queue) && not s.exiting)
            (λ _. cancelled e job s h) (λ _. cancelled e job s h))
        (λ _. stay)

  finish-Moves :
      (contexts : Contexts) (job : Job Call) (result : Result) (terminal : Bool) (s : Server Call)
      → s.active ≡ some job
      → Moves (view s) (view (finish contexts job result terminal s))
  unfolding finish answer reset_idle
  finish-Moves contexts job result terminal s a =
      let P : Server Call → Type 0 = λ t. Moves (view s) (view t) in
      let t : Server Call = record (answer job result s) {
        active = none;
        workers = remove_job job.id s.workers;
        exiting = s.exiting || terminal;
      } in
      let m : Moves (view s) (view t) =
        subst (λ o. Moves (at o s.queue s.answered) (view t)) (sym a)
          (then_move stay (end job s.queue s.answered result)) in
      let u = promote contexts t.queue t in
      let n = append-Moves m (promote-Moves contexts t.queue t refl) in
      if-elim P t.exiting
        (λ _. shut-Moves (view s) (reject_queue_locked t) (append-Moves m (reject-Moves t)))
        (λ _. if-elim P (is_none u.active) (λ _. n) (λ _. n))

  stop_serving-Moves : (s : Server Call) → Moves (view s) (view (stop_serving s))
  unfolding stop_serving
  stop_serving-Moves s = shut-Moves (view s) (reject_queue_locked s) (reject-Moves s)

  stop_admission-Moves : (s : Server Call) → Moves (view s) (view (stop_admission s))
  unfolding stop_admission
  stop_admission-Moves s =
      let r = reject_queue_locked (record s { exiting = true }) in
      let m = reject-Moves (record s { exiting = true }) in
      choose (view s) (is_none s.active) (shutdown_locked r) r (shut-Moves (view s) r m) m

  stop_if_idle-Moves : (s : Server Call) → Moves (view s) (view (stop_if_idle s))
  unfolding stop_if_idle
  stop_if_idle-Moves s =
      if-elim (λ (t : Server Call). Moves (view s) (view t)) (is_none s.active && is_empty s.queue)
        (λ _. shut-Moves (view s) s stay) (λ _. stay)

module _ {Call : Type 0} (same_target : Call → Bool) (execute : Call → ℕ × Option Error) where
  Step-Moves : {s t : Server Call} → Step same_target execute s t → Inv s → Moves (view s) (view t)
  unfolding complete_run
  Step-Moves {s} (admit contexts job new) v = enqueue-Moves contexts job s v.shape.waits_behind
  Step-Moves {s} (cancel e job) v = cancel_queued-Moves e job s
  Step-Moves {s} (complete before after job others more w) v =
      let (a, only) = worker-active s.active job others more (sym w ∙ v.shape.one_worker) in
      let (result, terminal) = run_result same_target execute before job in
      finish-Moves after job result terminal s a
  Step-Moves {s} (fire_idle e) v = stay
  Step-Moves {s} (idle n e) v = stop_if_idle-Moves (record s { idle_fired = n })
  Step-Moves {s} stop_serve v = stop_serving-Moves s
  Step-Moves {s} stop_admit v = stop_admission-Moves s

  -- Whatever the interleaving, what a new master does to its active job, its queue and its answers
  -- is a sequence of moves of a line: a command begins at once where none runs and none waits, or
  -- joins the end behind fewer than 16 others; it leaves the line unrun only with a failure as its
  -- answer; and the next one runs only where the running one was answered, and is the first.
  pub Reach-Moves :
      {s : Server Call} → Reach same_target execute new_server s → Moves (view new_server) (view s)
  Reach-Moves here = stay
  Reach-Moves (next r st) =
      append-Moves (Reach-Moves r) (Step-Moves st (Reach-Inv same_target execute r))
