-- ===== src/Base/Writers.antt =====
-- An `io.Writer` as the code sees it: a call takes bytes, says how many it took, and may fail.
-- A count below 1 is 0 here, since the code treats both alike.
use Prim.Native.Nat.{ℕ, ◌≤◌}
use mathlib.Core.Path.{◌≡◌}
use mathlib.Core.Option.{Option}
use mathlib.Core.List.{List, ◌++◌}
use winsh.Base.Lists.{length, take}
use winsh.Base.Errors.{Error}

pub record WriteResult (W : Type 0) : Type 0 where
  pub count : ℕ
  pub failure : Option Error
  pub state : W

-- `sent` is what reached the other side. The law is the contract of `io.Writer`: the first
-- `count` bytes of the argument were written, and no other.
pub record Writer : Type 1 where
  pub State : Type 0
  pub write : State → List ℕ → WriteResult State
  pub sent : State → List ℕ
  pub count_le : (w : State) (p : List ℕ) → (write w p).count ≤ length p
  pub sent-write :
      (w : State) (p : List ℕ) → sent (write w p).state ≡ sent w ++ take (write w p).count p
