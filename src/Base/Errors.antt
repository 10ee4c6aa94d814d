-- ===== src/Base/Errors.antt =====
-- Go error values, seen through `errors.Is`: a wrapped or joined error is the list of the
-- sentinel errors that can be found in it.
use mathlib.Core.Path.{◌≡◌, refl}
use mathlib.Core.Bool.{Bool, true, false, ◌||◌}
use mathlib.Core.Option.{Option, none, some}
use mathlib.Core.List.{List, [], ◌∷◌, ◌++◌}
use native.Mathlib.Omega.{arith}

pub data Mark : Type 0 where
  remote_state_unknown not_started cleanup_failed unsent operation_timeout : Mark
  replay_refused deadline_exceeded canceled : Mark

abbrev pub same_mark : Mark → Mark → Bool
same_mark remote_state_unknown remote_state_unknown = true
same_mark not_started not_started = true
same_mark cleanup_failed cleanup_failed = true
same_mark unsent unsent = true
same_mark operation_timeout operation_timeout = true
same_mark replay_refused replay_refused = true
same_mark deadline_exceeded deadline_exceeded = true
same_mark canceled canceled = true
same_mark _ _ = false

-- A non-nil error. The text of an error is not modelled.
abbrev pub Error : Type 0
Error = List Mark

-- `errors.Is(err, mark)` for a non-nil `err`.
unfoldable pub has_mark : Mark → Error → Bool
has_mark m [] = false
has_mark m (n ∷ e) = same_mark n m || has_mark m e

-- `errors.Join` of two errors that are not nil.
abbrev pub join_errors : Error → Error → Error
join_errors a b = a ++ b

-- `errors.Join` of two errors that may be nil.
abbrev pub join : Option Error → Option Error → Option Error
join none b = b
join (some a) none = some a
join (some a) (some b) = some (join_errors a b)

-- The error of a context that is done.
pub data ContextError : Type 0 where
  deadline cancellation : ContextError

abbrev pub context_error : ContextError → Error
context_error deadline = deadline_exceeded ∷ []
context_error cancellation = canceled ∷ []

pub has_mark-append :
    (m : Mark) (a b : Error) → has_mark m (a ++ b) ≡ (has_mark m a || has_mark m b)
unfolding has_mark
has_mark-append m [] b = refl
has_mark-append m (n ∷ a) b = ground (arith, has_mark-append m a b)
