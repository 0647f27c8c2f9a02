-- ===== src/Examples/Running.antt =====
-- The order of four runs, and three answers of the checker.
use stryker_js_effect.Prelude.{
  ℕ, Text, text, Bool, true, false, some, List, [], ◌∷◌, Consecutive, sort_by, ◌≡◌, refl, map,
  length,
}
use mathlib.Core.List.{Perm}
use stryker_js_effect.Numbers.{whole_numbers}
use stryker_js_effect.TypeChecker.Rounds.{range_from}
use stryker_js_effect.Execution.Checked.{
  CheckResult, check_passed, check_compile_error, check_ignored, partition_checked_plans, answer_of,
  entry_index_of, partition_checked_plans-answers,
}
use stryker_js_effect.Execution.RunOrder.{
  OrderedRunPlan, runs_before, sort_run_plans, RunsNoLater, sort_run_plans-Ordered,
}

abbrev run_plan : Text → ℕ → Bool → OrderedRunPlan whole_numbers
run_plan id net_time reload = record {
  id = id;
  net_time = some net_time;
  reload_environment = reload;
}

abbrev four_runs : List (OrderedRunPlan whole_numbers)
four_runs =
    run_plan (text "a") 9 true
    ∷ run_plan (text "c") 5 false
    ∷ run_plan (text "b") 5 false
    ∷ run_plan (text "d") 7 false
    ∷ []

sort_four :
    sort_run_plans whole_numbers four_runs
    ≡ run_plan (text "d") 7 false
      ∷ run_plan (text "b") 5 false
      ∷ run_plan (text "c") 5 false
      ∷ run_plan (text "a") 9 true
      ∷ []
unfolding sort_run_plans sort_by runs_before
sort_four = refl

sort_run_plans-Ordered_example :
    Perm (sort_run_plans whole_numbers four_runs) four_runs
    × Consecutive (RunsNoLater whole_numbers) (sort_run_plans whole_numbers four_runs)
sort_run_plans-Ordered_example = sort_run_plans-Ordered whole_numbers four_runs

abbrev three_answers : List (Text × CheckResult)
three_answers =
    (text "a", check_passed)
    ∷ (text "b", check_compile_error (text "x is not defined"))
    ∷ (text "c", check_ignored (text "rule: why"))
    ∷ []

partition_checked_plans-answers_example :
    (map answer_of (partition_checked_plans three_answers) ≡ three_answers)
    × (map entry_index_of (partition_checked_plans three_answers)
        ≡ range_from 0 (length three_answers))
partition_checked_plans-answers_example = partition_checked_plans-answers three_answers
