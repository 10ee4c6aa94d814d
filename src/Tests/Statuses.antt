-- ===== src/Tests/Statuses.antt =====
-- Exit statuses of finished calls.
use winsh.Base.{◌≡◌, ◌⊎◌, refl, Bool, true, false, Option, none, some, [], ◌∷◌}
use winsh.Control.Category.{Result}
use winsh.Remote.Upload.{TransferResult}
use winsh.Control.Wire.{ControlError, invoked}
use winsh.Cmd.Status.{run_controlled, TransferError, transfer_status, run_transfer}
use winsh.Cmd.Status.Success.{IsLocal, run_controlled-IsLocal, Successful, run_transfer_zero}

abbrev no_failure : Option ControlError
no_failure = none

abbrev no_error : Option TransferError
no_error = none

abbrev seven : Result
seven = record { exit_code = 7; category = none }

run_controlled-IsLocal_example :
    ((r : Result) × (no_failure ≡ none)
      × (invoked seven ≡ invoked r)
      × (r.category ≡ none)
      × (run_controlled no_failure true (invoked seven) none none ≡ r.exit_code))
    ⊎ IsLocal (run_controlled no_failure true (invoked seven) none none)
run_controlled-IsLocal_example = run_controlled-IsLocal no_failure true (invoked seven) none none

abbrev sent : TransferResult
sent = record { bytes = 3; sha256 = 97 ∷ []; committed = true }

status_of_sent : run_transfer (some false) false true (some (sent, no_error)) none ≡ 0
unfolding run_transfer transfer_status
status_of_sent = refl

abbrev parsed : Option Bool
parsed = some false

abbrev returned : Option (TransferResult × Option TransferError)
returned = some (sent, no_error)

run_transfer_zero_example :
    (parsed ≡ some true)
    ⊎ ((parsed ≡ some false)
        × (false ≡ false)
        × (true ≡ true)
        × ((result : TransferResult) × (err : Option TransferError) × (returned
              ≡ some (result, err))
            × Successful result err))
run_transfer_zero_example = run_transfer_zero parsed false true returned none status_of_sent
