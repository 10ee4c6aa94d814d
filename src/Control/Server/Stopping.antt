-- ===== src/Control/Server/Stopping.antt =====
-- internal/control/server.go: how a failed command stops the master for good.
use winsh.Base.{ℕ, ◌≡◌, true, none, [], Any}
use winsh.Control.Category.{Result}
use winsh.Control.Server.{Server}

module _ {Call : Type 0} where
  -- A `done` channel was closed with this result.
  abbrev pub HasAnswer : ℕ → Result → Server Call → Type 0
  HasAnswer i result s = Any (λ a. a ≡ (i, result)) s.answered

  -- The master takes no command, runs none and holds none back.
  abbrev pub Ended : Server Call → Type 0
  Ended s = (s.exiting ≡ true) × (s.active ≡ none) × (s.queue ≡ [])
