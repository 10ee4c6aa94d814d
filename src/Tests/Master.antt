-- ===== src/Tests/Master.antt =====
-- The command master on short histories. A call is the number that identifies its target.
use winsh.Base.{
  ℕ, ◌≡◌, refl, Bool, true, false, Option, none, some, [], ◌∷◌, Error, has_mark, deadline, ◌==◌,
}
use winsh.Control.Category.{failure, timeout, context_result, category_from_error}
use winsh.Control.Server.{
  Job, Server, Contexts, new_server, enqueue, admit_job, start, finish, promote, answer, run_result,
  count_answers, reset_idle, remove_job,
}
use winsh.Control.Server.Steps.{Reach, admit, complete, here, next, complete_run, occurrences}
use winsh.Control.Server.Invariant.{Inv}
use winsh.Control.Server.Safety.{Reach-Inv}
use winsh.Control.Server.Line.{Moves, view}
use winsh.Control.Server.Refinement.{Reach-Moves}
use winsh.Control.Server.Progress.{admitted_answered, finish_promotes, done_answers}

abbrev job : ℕ → Job ℕ
job i = record { id = i; call = 7 }

abbrev same : ℕ → Bool
same call = call == 7

-- Every command ends with status 3.
abbrev execute : ℕ → ℕ × Option Error
execute call = (3, none)

abbrev live : Contexts
live i = none

abbrev one_expired : Contexts
one_expired i = elim (i == 1) [ true ↦ some deadline | false ↦ none ]

abbrev first : Server ℕ
first = (enqueue live (job 0) new_server).1

abbrev second : Server ℕ
second = (enqueue live (job 1) first).1

abbrev third : Server ℕ
third = (enqueue live (job 2) second).1

-- Job 1 runs into its deadline while job 0 is active, so job 2 follows job 0.
abbrev fourth : Server ℕ
fourth = complete_run same execute live one_expired (job 0) third

fourth_active : fourth.active ≡ some (job 2)
unfolding new_server enqueue admit_job start complete_run run_result finish answer promote
    context_result category_from_error
fourth_active = refl

fourth_answers :
    fourth.answered ≡ (1, failure timeout) ∷ (0, record { exit_code = 3; category = none }) ∷ []
unfolding new_server enqueue admit_job start complete_run run_result finish answer promote
    context_result category_from_error has_mark
fourth_answers = refl

to_third : Reach same execute new_server third
unfolding new_server enqueue admit_job start
to_third =
    next (next (next here (admit live (job 0) refl)) (admit live (job 1) refl))
      (admit live (job 2) refl)

to_fourth : Reach same execute third fourth
unfolding new_server enqueue admit_job start
to_fourth = next here (complete live one_expired (job 0) [] [] refl)

Reach-Inv_example : Inv third
Reach-Inv_example = Reach-Inv same execute to_third

abbrev fifth : Server ℕ
fifth = complete_run same execute live live (job 2) fourth

to_fifth : Reach same execute third fifth
unfolding new_server enqueue admit_job start complete_run run_result finish answer promote
    context_result category_from_error remove_job
to_fifth = next to_fourth (complete live live (job 2) [] [] refl)

third_one : occurrences 1 third ≡ 1
unfolding new_server enqueue admit_job start
third_one = refl

fifth_idle : fifth.active ≡ none
unfolding new_server enqueue admit_job start complete_run run_result finish answer promote
    context_result category_from_error remove_job reset_idle
fifth_idle = refl

admitted_answered_example : count_answers 1 fifth.answered ≡ 1
admitted_answered_example = admitted_answered same execute 1 to_third third_one to_fifth fifth_idle

abbrev waiting : Server ℕ
waiting = record {
  active = some (job 0);
  queue = job 1 ∷ job 2 ∷ job 3 ∷ [];
  exiting = false;
  stopped = false;
  listening = true;
  idle_armed = false;
  idle_fired = 0;
  workers = job 0 ∷ [];
  answered = [];
  panicked = false;
}

finish_promotes_example :
    let u = finish one_expired (job 0) (failure timeout) false waiting in
    (u.active ≡ some (job 2))
    × (u.queue ≡ job 3 ∷ [])
    × (u.answered ≡ done_answers ((job 1, deadline) ∷ []) ((0, failure timeout) ∷ []))
finish_promotes_example =
    finish_promotes one_expired (job 0) (job 2) (failure timeout) waiting ((job 1, deadline) ∷ [])
      (job 3 ∷ []) refl refl (refl, tt) refl

-- A command that runs and fails while three others wait.
abbrev breaks : ℕ → ℕ × Option Error
breaks call = (5, some [])

Reach-Moves_example : Moves (view new_server) (view third)
Reach-Moves_example = Reach-Moves same execute to_third
