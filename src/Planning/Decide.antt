-- ===== src/Planning/Decide.antt =====
-- plan-mutant-tests.workflow.ts: the order of the tests, the plan of one mutant, and all plans.
use stryker_js_effect.Prelude.{
  sort_by, ℕ, suc, ltb, Text, lookup, get_or_else, is_empty, filter, Bool, true, not, ◌&&◌, ◌||◌,
  Option, none, some, List, [], ◌∷◌, ◌++◌, map, foldl, if◌then◌else◌, Result, fail, succeed,
  map_result, flat_map_result,
}
use stryker_js_effect.Numbers.{Numbers}
use stryker_js_effect.Mutant.{MutantStatus, ignored, Mutant}
use stryker_js_effect.Incremental.{is_present}
use stryker_js_effect.Planning.Command.{
  MutantTestPlanError, covered_mutant_hit_count_missing, MutantTestPlanCommand, MutantPlan,
  TestEntry,
}
use stryker_js_effect.Planning.Runs.{
  non_empty_test_filter_of, is_per_test, ignored_static_mutant_reason, with_killer, is_killer,
  mutant_is_static, time_of_test_of, calculate_total_time_for_ids, to_run_plan,
  to_early_result_plan, prior_killer_of,
}

module _ (numbers : Numbers) where
  open numbers use {Number, of_ℕ, less}

  abbrev pub entries_from : ℕ → MutantTestPlanCommand numbers → List Text → List (TestEntry numbers)
  entries_from index command [] = []
  entries_from index command (test_id ∷ tests) =
      record { test_id = test_id; index = index; time = time_of_test_of numbers command test_id }
      ∷ entries_from (suc index) command tests

  -- The comparator of the sort is negative: the times are finite, so that the sign of their
  -- difference is their order.
  abbrev pub comes_before : TestEntry numbers → TestEntry numbers → Bool
  comes_before left right =
      less left.time right.time || not (less right.time left.time) && ltb left.index right.index

  abbrev pub without_killer : Option Text → List (TestEntry numbers) → List (TestEntry numbers)
  without_killer killer [] = []
  without_killer killer (entry ∷ entries) =
      let rest = without_killer killer entries in
      if is_killer killer entry.test_id then rest else entry ∷ rest

  unfoldable pub rest_of : MutantTestPlanCommand numbers → Option Text → List Text → List Text
  rest_of command killer tests =
      map (λ entry. entry.test_id)
        (sort_by comes_before (without_killer killer (entries_from 0 command tests)))

  unfoldable pub ordered_tests_of : MutantTestPlanCommand numbers → Text → List Text → List Text
  unfolding rest_of
  ordered_tests_of command mutant_id tests =
      let killer = prior_killer_of numbers command mutant_id tests in
      with_killer killer (rest_of command killer tests)

  abbrev pub PlanResult : Type 0
  PlanResult = Result MutantTestPlanError (MutantPlan numbers)

  unfoldable pub run_with_covered_tests :
      Mutant → MutantTestPlanCommand numbers → Bool → List Text → List Text → PlanResult
  run_with_covered_tests mutant command is_static tests covered_by =
      to_run_plan numbers mutant command (calculate_total_time_for_ids numbers command tests)
        (non_empty_test_filter_of (some (ordered_tests_of command mutant.id tests)))
        (some is_static) (some covered_by)

  unfoldable pub to_no_coverage_run_plan :
      Mutant → MutantTestPlanCommand numbers → Bool → List Text → PlanResult
  to_no_coverage_run_plan mutant command is_static covered_by =
      to_run_plan numbers mutant command (of_ℕ 0) (some []) (some is_static) (some covered_by)

  unfoldable pub plan_for_uncovered_static :
      Mutant → MutantTestPlanCommand numbers → Bool → List Text → PlanResult
  plan_for_uncovered_static mutant command is_static covered_by =
      if command.options.ignore_static
      then succeed (
          to_early_result_plan numbers mutant (some is_static) ignored
            (some ignored_static_mutant_reason) (some covered_by))
      else to_run_plan numbers mutant command command.time_spent_all_tests
          (non_empty_test_filter_of command.global_test_filter) (some is_static) (some covered_by)

  unfoldable pub covering_test_ids_of : MutantTestPlanCommand numbers → Text → List Text
  covering_test_ids_of command mutant_id =
      get_or_else (lookup mutant_id command.tests_by_mutant_id) []

  unfoldable pub plan_for_statically_covered :
      Mutant → MutantTestPlanCommand numbers → Bool → PlanResult
  unfolding covering_test_ids_of
  plan_for_statically_covered mutant command is_static =
      let tests = covering_test_ids_of command mutant.id in
      if (if is_static then command.options.ignore_static && not (is_empty tests) else true)
      then run_with_covered_tests mutant command is_static tests tests
      else plan_for_uncovered_static mutant command is_static tests

  abbrev pub covered_by_tests : Option (List Text) → Bool → Bool
  covered_by_tests none is_static = is_static
  covered_by_tests (some tests) is_static = not (is_empty tests) || is_static

  unfoldable pub mutant_is_covered : MutantTestPlanCommand numbers → Text → Bool
  mutant_is_covered command mutant_id =
      covered_by_tests (lookup mutant_id command.tests_by_mutant_id)
        (mutant_is_static numbers command mutant_id)

  unfoldable pub is_per_test_uncovered_non_static :
      MutantTestPlanCommand numbers → Mutant → Bool → Bool
  is_per_test_uncovered_non_static command mutant is_static =
      is_per_test command.options.coverage_analysis
      && not is_static
      && not (mutant_is_covered command mutant.id)

  unfoldable pub plan_of_open_mutant : Mutant → MutantTestPlanCommand numbers → Bool → PlanResult
  plan_of_open_mutant mutant command is_static =
      if is_per_test_uncovered_non_static command mutant is_static
      then to_no_coverage_run_plan mutant command is_static (covering_test_ids_of command mutant.id)
      else if is_present command.static_coverage
      then plan_for_statically_covered mutant command is_static
      else to_run_plan numbers mutant command command.time_spent_all_tests
          (non_empty_test_filter_of command.global_test_filter) none none

  abbrev pub plan_by_status :
      Option MutantStatus → Mutant → MutantTestPlanCommand numbers → Bool → PlanResult
  plan_by_status none mutant command is_static = plan_of_open_mutant mutant command is_static
  plan_by_status (some status) mutant command is_static = succeed (
      to_early_result_plan numbers mutant (some is_static) status mutant.status_reason
        mutant.covered_by)

  unfoldable pub decide_plan_for_mutant : Mutant → MutantTestPlanCommand numbers → PlanResult
  decide_plan_for_mutant mutant command =
      plan_by_status mutant.status mutant command (mutant_is_static numbers command mutant.id)

  unfoldable pub hit_count_required_and_absent : MutantTestPlanCommand numbers → Mutant → Bool
  hit_count_required_and_absent command mutant =
      mutant_is_covered command mutant.id
      && is_present command.static_coverage
      && not (is_present (lookup mutant.id command.hits_by_mutant_id))

  -- Over the mutants whose status is open.
  unfoldable pub missing_hit_count_ids : MutantTestPlanCommand numbers → List Text
  missing_hit_count_ids command =
      map (λ mutant. mutant.id)
        (filter
          (λ mutant. not (is_present mutant.status) && hit_count_required_and_absent command mutant)
          command.mutants)

  abbrev pub planned_step :
      MutantTestPlanCommand numbers
      → Result MutantTestPlanError (List (MutantPlan numbers))
      → Mutant
      → Result MutantTestPlanError (List (MutantPlan numbers))
  planned_step command planned mutant =
      flat_map_result planned
        (λ so_far. map_result (λ next. so_far ++ next ∷ []) (decide_plan_for_mutant mutant command))

  unfoldable pub planned_mutants_of :
      MutantTestPlanCommand numbers → Result MutantTestPlanError (List (MutantPlan numbers))
  planned_mutants_of command = foldl (planned_step command) (succeed []) command.mutants

  abbrev pub unless_missing :
      List Text
      → Result MutantTestPlanError (List (MutantPlan numbers))
      → Result MutantTestPlanError (List (MutantPlan numbers))
  unless_missing [] planned = planned
  unless_missing (first ∷ ids) planned = fail (covered_mutant_hit_count_missing (first ∷ ids))

  unfoldable pub plan_mutant_tests :
      MutantTestPlanCommand numbers → Result MutantTestPlanError (List (MutantPlan numbers))
  plan_mutant_tests command =
      unless_missing (missing_hit_count_ids command) (planned_mutants_of command)
