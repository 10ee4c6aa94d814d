-- ===== src/Control/Category.antt =====
-- The failure categories of internal/control/protocol.go, and how server.go finds the one of an
-- error (`categoryFromError`). The empty category of a success is `none` of an `Option`.
use winsh.Base.{Option, some, if◌then◌else◌, has_mark, Error}
use winsh.Base.{Mark, ContextError, context_error, ℕ}

pub data Category : Type 0 where
  not_started identity_mismatch persist_mismatch queue_full timeout canceled : Category
  cleanup_failed remote_state_unknown unavailable : Category

pub record Result : Type 0 where
  pub exit_code : ℕ
  pub category : Option Category

unfoldable pub category_from_error : Error → Category
category_from_error err =
    if has_mark Mark.remote_state_unknown err
    then remote_state_unknown
    else if has_mark Mark.not_started err
    then not_started
    else if has_mark Mark.cleanup_failed err
    then cleanup_failed
    else if has_mark Mark.deadline_exceeded err
    then timeout
    else if has_mark Mark.canceled err
    then canceled
    else unavailable

abbrev pub failure : Category → Result
failure c = record { exit_code = 0; category = some c }

-- The result of a job whose context is done before it runs.
unfoldable pub context_result : ContextError → Result
unfolding category_from_error
context_result e = failure (category_from_error (context_error e))
