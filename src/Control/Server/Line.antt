-- ===== src/Control/Server/Line.antt =====
-- What a client of internal/control/server.go may rely on: one command runs at a time, and the
-- others stand in a line. `masterServer` with its timers, goroutines and flags refines this.
use winsh.Base.{ℕ, ◌<◌, Option, none, some, List, [], ◌∷◌, ◌++◌, length}
use winsh.Control.Category.{Category, Result, failure}
use winsh.Control.Server.{Job, Server, max_queue}

-- The running command, the line behind it, and the answers given, newest first.
pub record Line (Call : Type 0) : Type 0 where
  pub running : Option (Job Call)
  pub waiting : List (Job Call)
  pub answers : List (ℕ × Result)

module _ {Call : Type 0} where
  -- A command starts at once where none runs, and joins the end of the line behind one that does,
  -- where fewer than 16 stand there. Any command in the line can be answered with a failure
  -- instead of running. The running one ends with an answer, and then the first of the line runs.
  pub data Move : Line Call → Line Call → Type 0 where
    begin :
        (j : Job Call) (ans : List (ℕ × Result))
        → Move
            (record { running = none; waiting = []; answers = ans })
            (record { running = some j; waiting = []; answers = ans })
    join :
        (r j : Job Call) (js : List (Job Call)) (ans : List (ℕ × Result))
        → length js < max_queue
        → Move
            (record { running = some r; waiting = js; answers = ans })
            (record { running = some r; waiting = js ++ (j ∷ []); answers = ans })
    drop_out :
        (o : Option (Job Call)) (before after : List (Job Call)) (j : Job Call)
        (ans : List (ℕ × Result)) (c : Category)
        → Move
            (record { running = o; waiting = before ++ (j ∷ after); answers = ans })
            (record { running = o; waiting = before ++ after; answers = (j.id, failure c) ∷ ans })
    end :
        (j : Job Call) (js : List (Job Call)) (ans : List (ℕ × Result)) (r : Result)
        → Move
            (record { running = some j; waiting = js; answers = ans })
            (record { running = none; waiting = js; answers = (j.id, r) ∷ ans })
    advance :
        (j : Job Call) (js : List (Job Call)) (ans : List (ℕ × Result))
        → Move
            (record { running = none; waiting = j ∷ js; answers = ans })
            (record { running = some j; waiting = js; answers = ans })

  pub data Moves (a : Line Call) : Line Call → Type 0 where
    stay : Moves a a
    then_move : {b c : Line Call} → Moves a b → Move b c → Moves a c

  pub append-Moves : {a b c : Line Call} → Moves a b → Moves b c → Moves a c
  append-Moves m stay = m
  append-Moves m (then_move n x) = then_move (append-Moves m n) x

  -- What the line sees of the server.
  abbrev pub view : Server Call → Line Call
  view s = record { running = s.active; waiting = s.queue; answers = s.answered }

  abbrev pub at : Option (Job Call) → List (Job Call) → List (ℕ × Result) → Line Call
  at o js ans = record { running = o; waiting = js; answers = ans }
