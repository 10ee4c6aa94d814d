-- ===== src/Cmd/Status/Success.antt =====
-- When winsh exits with status 0.
use winsh.Base.{
  ℕ, ◌≡◌, ◌≤◌, ◌⊎◌, inl, inr, refl, ap, ◌∙◌, Bool, true, false, not, ◌&&◌, ◌||◌, Option, none, some,
  if-elim, case_option-elim, arith, Error, has_mark, deadline_exceeded, canceled, ContextError,
  context_error,
}
use winsh.Control.Category.{Category, Result}
use winsh.Control.Category
use winsh.Remote.Upload.{TransferResult}
use winsh.Control.Wire.{ControlError, Invoked, invoked, not_invoked, case_invoked}
use winsh.Cmd.Status.{
  status_for_context, context_marked, control_failure, category_status, is_state_unknown,
  plain_error, run_controlled, TransferError, transfer_status, run_transfer,
}

-- A status that winsh keeps for its own failures.
abbrev pub IsLocal : ℕ → Type 0
IsLocal n = (201 ≤ n) × (n ≤ 204)

status_for_context-IsLocal : (e : Error) → IsLocal (status_for_context e)
unfolding status_for_context
status_for_context-IsLocal e = (ground arith, ground arith)

category_status-IsLocal : (c : Category) → IsLocal (category_status c)
category_status-IsLocal winsh.Control.Category.not_started = (omega arith, omega arith)
category_status-IsLocal winsh.Control.Category.identity_mismatch = (omega arith, omega arith)
category_status-IsLocal winsh.Control.Category.persist_mismatch = (omega arith, omega arith)
category_status-IsLocal winsh.Control.Category.queue_full = (omega arith, omega arith)
category_status-IsLocal winsh.Control.Category.timeout = (omega arith, omega arith)
category_status-IsLocal winsh.Control.Category.canceled = (omega arith, omega arith)
category_status-IsLocal winsh.Control.Category.cleanup_failed = (omega arith, omega arith)
category_status-IsLocal winsh.Control.Category.remote_state_unknown = (omega arith, omega arith)
category_status-IsLocal winsh.Control.Category.unavailable = (omega arith, omega arith)

-- `controlFailure` answers every error with a status from 201 to 204.
control_failure-IsLocal :
    (ctx : Option ContextError) (e : ControlError) → IsLocal (control_failure ctx e)
unfolding control_failure
control_failure-IsLocal ctx e =
    case_option-elim IsLocal ctx
      (λ _.
        if-elim IsLocal e.password (λ _. (omega arith, omega arith))
          (λ _.
            case_option-elim IsLocal e.category
              (λ _.
                if-elim IsLocal (has_mark deadline_exceeded e.marks || has_mark canceled e.marks)
                  (λ _. status_for_context-IsLocal e.marks) (λ _. (omega arith, omega arith)))
              (λ c _.
                if-elim IsLocal
                  (is_state_unknown c
                    && (has_mark canceled e.marks || has_mark deadline_exceeded e.marks))
                  (λ _. status_for_context-IsLocal e.marks) (λ _. category_status-IsLocal c))))
      (λ done _. status_for_context-IsLocal (context_error done))

case_invoked-elim {ℓ κ} :
    {B : Type ℓ} (P : B → Type κ) (o : Invoked) {f : Result → B} {g : ControlError → B}
    → ((r : Result) → o ≡ invoked r → P (f r))
    → ((e : ControlError) → o ≡ not_invoked e → P (g e))
    → P (case_invoked o f g)
case_invoked-elim P (invoked r) p q = p r refl
case_invoked-elim P (not_invoked e) p q = q e refl

-- The status of `runControlled` is the exit code of a call that the master answered without a
-- category, behind a start that succeeded, or else one of winsh's own statuses from 201 to 204.
pub run_controlled-IsLocal :
    (started : Option ControlError) (has_deadline : Bool) (call : Invoked)
    (before behind : Option ContextError)
    → ((r : Result) × (started ≡ none)
        × (call ≡ invoked r)
        × (r.category ≡ none)
        × (run_controlled started has_deadline call before behind ≡ r.exit_code))
      ⊎ IsLocal (run_controlled started has_deadline call before behind)
unfolding run_controlled
run_controlled-IsLocal started has_deadline call before behind =
    let P : ℕ → Type 0 = λ n.
      (((r : Result) × (started ≡ none)
          × (call ≡ invoked r)
          × (r.category ≡ none)
          × (n ≡ r.exit_code))
        ⊎ IsLocal n) in
    case_option-elim P started
      (λ fine.
        if-elim P has_deadline
          (λ _.
            case_invoked-elim P call
              (λ r is.
                case_option-elim P r.category (λ plain. inl (r, fine, is, plain, refl))
                  (λ c _. inr (control_failure-IsLocal behind _)))
              (λ e _. inr (control_failure-IsLocal behind e)))
          (λ _. inr (control_failure-IsLocal before plain_error)))
      (λ e _. inr (control_failure-IsLocal before e))

-- A transfer that `runTransfer` takes for a success: it was committed without an error, or its error
-- carries the remote exit code 0.
abbrev pub Successful : TransferResult → Option TransferError → Type 0
Successful result err =
    ((err ≡ none) × (result.committed ≡ true))
    ⊎ ((e : TransferError) × (err ≡ some e) × (e.failure.exit ≡ some 0))

transfer_status_zero :
    (ctx : Option ContextError) (result : TransferResult) (err : Option TransferError)
    → transfer_status ctx result err ≡ 0
    → Successful result err
unfolding transfer_status
transfer_status_zero ctx result err z =
    let P : ℕ → Type 0 = λ n. (n ≡ 0 → Successful result err) in
    case_option-elim P err
      (λ fine.
        if-elim P result.committed (λ done _. inl (fine, done))
          (λ _.
            if-elim P (context_marked (has_mark deadline_exceeded) ctx)
              (λ _ q. absurd (omega (arith, q)))
              (λ _.
                if-elim P (context_marked (has_mark canceled) ctx)
                  (λ _ q. absurd (omega (arith, q))) (λ _ q. absurd (omega (arith, q))))))
      (λ e is.
        if-elim P
          (has_mark deadline_exceeded e.marks || context_marked (has_mark deadline_exceeded) ctx)
          (λ _ q. absurd (omega (arith, q)))
          (λ _.
            if-elim P (has_mark canceled e.marks || context_marked (has_mark canceled) ctx)
              (λ _ q. absurd (omega (arith, q)))
              (λ _.
                if-elim P e.input (λ _ q. absurd (omega (arith, q)))
                  (λ _.
                    case_option-elim P e.failure.exit (λ _ q. absurd (omega (arith, q)))
                      (λ code found q. inr (e, is, found ∙ ap (λ (n : ℕ). some n) q))))))
      z

-- `runTransfer` exits with status 0 only where the arguments ask for help, or where they were
-- parsed, the password was read before the context ended, and a call of `Transfer` either committed
-- without an error or returned an error that carries the remote exit code 0.
pub run_transfer_zero :
    (parsed : Option Bool) (interrupted password_ok : Bool)
    (transfer : Option (TransferResult × Option TransferError)) (ctx : Option ContextError)
    → run_transfer parsed interrupted password_ok transfer ctx ≡ 0
    → (parsed ≡ some true)
      ⊎ ((parsed ≡ some false)
          × (interrupted ≡ false)
          × (password_ok ≡ true)
          × ((result : TransferResult) × (err : Option TransferError) × (transfer
                ≡ some (result, err))
              × Successful result err))
unfolding run_transfer
run_transfer_zero parsed interrupted password_ok transfer ctx z =
    let P : ℕ → Type 0 = λ n.
      (n ≡ 0
        → (parsed ≡ some true)
          ⊎ ((parsed ≡ some false)
              × (interrupted ≡ false)
              × (password_ok ≡ true)
              × ((result : TransferResult) × (err : Option TransferError) × (transfer
                    ≡ some (result, err))
                  × Successful result err))) in
    case_option-elim P parsed (λ _ q. absurd (omega (arith, q)))
      (λ help asked.
        if-elim P help (λ h _. inl (asked ∙ ap (λ (b : Bool). some b) h))
          (λ h.
            if-elim P interrupted (λ _ q. absurd (omega (arith, q)))
              (λ live.
                if-elim P (not password_ok) (λ _ q. absurd (omega (arith, q)))
                  (λ read.
                    case_option-elim P transfer (λ _ q. absurd (omega (arith, q)))
                      (λ (result, err) called q. inr (
                        asked ∙ ap (λ (b : Bool). some b) h,
                        live,
                        ground arith,
                        (result, err, called, transfer_status_zero ctx result err q),
                      ))))))
      z
