-- ===== src/Control/Startup/Discipline.antt =====
-- internal/control/master_unix.go: in what order a starter locks, unlinks, resolves and starts.
use winsh.Base.{◌≡◌, false}
use winsh.Control.Startup.{Trace, Target, Os, Outcome}
use winsh.Control.Startup.Orders.{holding, has_resolved, Disciplined, Orderly}

module _ (os : Os) (target : Target) where
  -- A loop that is orderly from every trace of its own kind.
  Again : (Trace → Outcome × Trace) → Type 0
  Again again =
      (tr : Trace)
      → Disciplined tr
      → holding tr ≡ false
      → has_resolved tr ≡ false
      → (Orderly os) (again tr)
