-- ===== src/Examples/Planning.antt =====
-- The plan for two mutants: one that two tests cover, and one that is ignored.
use stryker_js_effect.Prelude.{
  sort_by, Text, text, text_eq, text_beq, lookup, contains, is_empty, false, none, some, List, [],
  ◌∷◌, succeed, ◌≡◌, refl, fail, map, All, Consecutive,
}
use stryker_js_effect.Numbers.{whole_numbers}
use stryker_js_effect.Planning.Command.{
  covered_mutant_hit_count_missing, MutantTestPlanCommand, per_test, at_runtime, MutantPlan,
  planned_run, planned_early_result, PlannedRunMutant, TestEntry,
}
use stryker_js_effect.Mutant.{Mutant, ignored}
use stryker_js_effect.Planning.Runs.{
  calculate_total_time_for_ids, mutant_is_static, to_run_plan, floored_timeout_of,
  prior_killer_field, prior_killer_of, to_early_result_plan, with_killer,
}
use stryker_js_effect.Planning.Decide.{
  ordered_tests_of, covering_test_ids_of, decide_plan_for_mutant, plan_mutant_tests,
  plan_of_open_mutant, is_per_test_uncovered_non_static, mutant_is_covered,
  plan_for_statically_covered, run_with_covered_tests, planned_mutants_of, missing_hit_count_ids,
  hit_count_required_and_absent, without_killer, entries_from,
}
use mathlib.Core.List.{Perm}
use stryker_js_effect.Planning.Quickest.{RunsNoLater, IsTestAt, ordered_tests_of-Ordered}
use stryker_js_effect.Planning.Filter.{decide_plan_for_mutant-Filters}
use stryker_js_effect.Planning.Outcomes.{AllPairs, Planned}
use stryker_js_effect.Planning.Plans.{plan_mutant_tests-Planned, FailsFor, plan_mutant_tests-fails}
use stryker_js_effect.Examples.Remembering.{plain_mutant}

abbrev first_mutant : Mutant
first_mutant = plain_mutant (text "1")

abbrev ignored_mutant : Mutant
ignored_mutant = record (plain_mutant (text "2")) { status = some ignored }

abbrev two_tests : List Text
two_tests = text "slow" ∷ text "quick" ∷ []

abbrev plan_two : MutantTestPlanCommand whole_numbers
plan_two = record {
  mutants = first_mutant ∷ ignored_mutant ∷ [];
  time_overhead_ms = some 10;
  time_spent_all_tests = some 500;
  global_test_filter = none;
  hits_by_mutant_id = (text "1", 7) ∷ [];
  static_coverage = some [];
  tests_by_mutant_id = (text "1", two_tests) ∷ [];
  prior_killed_by_by_mutant_id = none;
  test_time_by_id = (text "slow", some 90) ∷ (text "quick", some 5) ∷ [];
  options = record {
    coverage_analysis = per_test;
    disable_bail = false;
    timeout_ms = some 50;
    timeout_factor = some 2;
    ignore_static = false;
  };
  sandbox_file_by_name = [];
}

abbrev run_of_first : PlannedRunMutant whole_numbers
run_of_first = record {
  mutant_id = text "1";
  net_time = some 95;
  run_options = record {
    mutant_activation = at_runtime;
    timeout = some 250;
    sandbox_file_name = text "a.ts";
    disable_bail = false;
    reload_environment = false;
    test_filter = some (text "quick" ∷ text "slow" ∷ []);
    prior_killer_test_ids = none;
    hit_limit = some 700;
  };
  static = some false;
  covered_by = some two_tests;
}

abbrev the_plans : List (MutantPlan whole_numbers)
the_plans =
    planned_run run_of_first
    ∷ planned_early_result (record {
      mutant_id = text "2";
      status = ignored;
      status_reason = none;
      static = some false;
      covered_by = none;
    })
    ∷ []

first_planned :
    decide_plan_for_mutant whole_numbers first_mutant plan_two ≡ succeed (planned_run run_of_first)
unfolding decide_plan_for_mutant plan_of_open_mutant is_per_test_uncovered_non_static lookup
    mutant_is_covered text_beq plan_for_statically_covered run_with_covered_tests to_run_plan
    floored_timeout_of calculate_total_time_for_ids ordered_tests_of prior_killer_field
    prior_killer_of sort_by
first_planned = refl

both_planned : plan_mutant_tests whole_numbers plan_two ≡ succeed the_plans
unfolding plan_mutant_tests planned_mutants_of missing_hit_count_ids hit_count_required_and_absent
    to_early_result_plan decide_plan_for_mutant plan_of_open_mutant is_per_test_uncovered_non_static
    lookup mutant_is_covered text_beq plan_for_statically_covered run_with_covered_tests to_run_plan
    floored_timeout_of calculate_total_time_for_ids ordered_tests_of prior_killer_field
    prior_killer_of sort_by
both_planned = refl

plan_mutant_tests-Planned_example :
    AllPairs (Planned whole_numbers plan_two) plan_two.mutants the_plans
plan_mutant_tests-Planned_example =
    plan_mutant_tests-Planned whole_numbers plan_two the_plans both_planned

not_static : mutant_is_static whole_numbers plan_two (text "1") ≡ false
unfolding lookup
not_static = refl

is_covered : is_empty (covering_test_ids_of whole_numbers plan_two (text "1")) ≡ false
unfolding covering_test_ids_of lookup text_beq
is_covered = refl

decide_plan_for_mutant-Filters_example :
    let covering = covering_test_ids_of whole_numbers plan_two (text "1") in
    (r : PlannedRunMutant whole_numbers) × (filter : List Text) × (planned_run run_of_first
      ≡ planned_run r)
    × (r.run_options.test_filter ≡ some filter)
    × ((t : Text) → contains t filter ≡ contains t covering)
    × (r.net_time ≡ calculate_total_time_for_ids whole_numbers plan_two covering)
    × (r.run_options.mutant_activation ≡ at_runtime)
    × (r.run_options.reload_environment ≡ false)
decide_plan_for_mutant-Filters_example =
    decide_plan_for_mutant-Filters whole_numbers first_mutant plan_two (planned_run run_of_first)
      refl refl not_static is_covered first_planned

-- The same plan without the hit count of the covered mutant.
abbrev plan_uncounted : MutantTestPlanCommand whole_numbers
plan_uncounted = record plan_two { hits_by_mutant_id = [] }

uncounted_fails :
    plan_mutant_tests whole_numbers plan_uncounted
    ≡ fail (covered_mutant_hit_count_missing (text "1" ∷ []))
unfolding plan_mutant_tests missing_hit_count_ids hit_count_required_and_absent mutant_is_covered
    lookup text_beq
uncounted_fails = refl

plan_mutant_tests-fails_example :
    FailsFor whole_numbers plan_uncounted (covered_mutant_hit_count_missing (text "1" ∷ []))
plan_mutant_tests-fails_example =
    plan_mutant_tests-fails whole_numbers plan_uncounted
      (covered_mutant_hit_count_missing (text "1" ∷ [])) uncounted_fails

ordered_tests_of-Ordered_example :
    let killer = prior_killer_of whole_numbers plan_two (text "1") two_tests in
    (entries : List (TestEntry whole_numbers)) × (ordered_tests_of whole_numbers plan_two
        (text "1")
        two_tests
      ≡ with_killer killer (map (λ entry. entry.test_id) entries))
    × Consecutive (RunsNoLater whole_numbers) entries
    × All (IsTestAt whole_numbers plan_two two_tests) entries
    × Perm entries
        (without_killer whole_numbers killer (entries_from whole_numbers 0 plan_two two_tests))
ordered_tests_of-Ordered_example =
    ordered_tests_of-Ordered whole_numbers plan_two (text "1") two_tests
