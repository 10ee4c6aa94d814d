-- ===== src/Cmd/Status.antt =====
-- The exit statuses of internal/cmd: `Run` of cmd.go behind the password, `runControlled` and
-- `controlFailure` of control.go, and `runTransfer` of transfer.go. What is printed is left out.
pub mod Success
use winsh.Base.{
  ℕ, Bool, true, false, not, ◌&&◌, ◌||◌, Option, none, some, List, [], ◌∷◌, if◌then◌else◌,
  case_option, Error, has_mark, deadline_exceeded, canceled, ContextError, context_error, deadline,
  cancellation,
}
use winsh.Control.Category.{Category, Result, timeout, remote_state_unknown}
use winsh.Control.Category
use winsh.Control.Wire.{ControlError, Invoked, case_invoked}
use winsh.Remote.Upload.{TransferResult, Failure}

-- `statusForContext`
unfoldable pub status_for_context : Error → ℕ
status_for_context err =
    if has_mark deadline_exceeded err then 203 else (if has_mark canceled err then 204 else 202)

abbrev pub context_marked : (Error → Bool) → Option ContextError → Bool
context_marked f none = false
context_marked f (some e) = f (context_error e)

-- The end of `Run`: what `Execute` returned, with the error of the context behind it.
unfoldable pub execute_status : Option ContextError → ℕ × Option Error → ℕ
execute_status ctx (rc, err) = case_option err rc (λ e.
    if has_mark deadline_exceeded e || context_marked (has_mark deadline_exceeded) ctx
    then 203
    else (if has_mark canceled e || context_marked (has_mark canceled) ctx then 204 else 202))

abbrev pub is_state_unknown : Category → Bool
is_state_unknown remote_state_unknown = true
is_state_unknown _ = false

-- The switch over the category.
abbrev pub category_status : Category → ℕ
category_status timeout = 203
category_status winsh.Control.Category.canceled = 204
category_status _ = 202

-- `controlFailure`
unfoldable pub control_failure : Option ContextError → ControlError → ℕ
control_failure ctx e =
    case_option ctx
      (if e.password
        then 201
        else case_option e.category
            (if has_mark deadline_exceeded e.marks || has_mark canceled e.marks
              then status_for_context e.marks
              else 202)
            (λ c.
              if is_state_unknown c
                && (has_mark canceled e.marks || has_mark deadline_exceeded e.marks)
              then status_for_context e.marks
              else category_status c))
      (λ done. status_for_context (context_error done))

abbrev pub plain_error : ControlError
plain_error = record { marks = []; password = false; category = none }

-- `runControlled`. `started` is the error of the start, `before` and `behind` are the errors of
-- the context at the start and behind the call.
unfoldable pub run_controlled :
    Option ControlError → Bool → Invoked → Option ContextError → Option ContextError → ℕ
run_controlled started has_deadline call before behind =
    case_option started
      (if has_deadline
        then case_invoked call
            (λ r. case_option r.category r.exit_code (λ c.
              control_failure behind (record { marks = []; password = false; category = some c })))
            (λ e. control_failure behind e)
        else control_failure before plain_error)
      (λ e. control_failure before e)

-- An error of a transfer: the marks, what `errors.As` finds, and whether it is a
-- TransferInputError.
pub record TransferError : Type 0 where
  pub marks : Error
  pub failure : Failure
  pub input : Bool

-- The end of `runTransfer`: the result of `Transfer`, with the error of the context behind it.
unfoldable pub transfer_status : Option ContextError → TransferResult → Option TransferError → ℕ
transfer_status ctx result err =
    case_option err
      (if result.committed
        then 0
        else (if context_marked (has_mark deadline_exceeded) ctx
            then 203
            else (if context_marked (has_mark canceled) ctx then 204 else 202)))
      (λ e.
        if has_mark deadline_exceeded e.marks || context_marked (has_mark deadline_exceeded) ctx
        then 203
        else (if has_mark canceled e.marks || context_marked (has_mark canceled) ctx
            then 204
            else (if e.input then 201 else case_option e.failure.exit 202 (λ code. code))))

-- `runTransfer`. `parsed` is what `parseTransfer` returned: an error, or whether help is asked for.
-- `interrupted` says that the context is done behind the reading of the password, `password_ok`
-- that it was read, and `transfer` is what the call of `Transfer` returned, if there is one.
unfoldable pub run_transfer :
    Option Bool
    → Bool
    → Bool
    → Option (TransferResult × Option TransferError)
    → Option ContextError
    → ℕ
run_transfer parsed interrupted password_ok transfer ctx = case_option parsed 201 (λ help.
    if help
    then 0
    else (if interrupted
        then 204
        else (if not password_ok
            then 201
            else case_option transfer 202 (λ (result, err). transfer_status ctx result err))))
