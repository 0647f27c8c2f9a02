-- ===== src/Planning/Runs.antt =====
-- plan-mutant-tests.workflow.ts: the pieces of a plan, and the run of one mutant with given tests.
use stryker_js_effect.Prelude.{
  ℕ, ◌*◌, ltb, Text, text, text_eq, nat_eq, ◌==◌, Dict, lookup, get_or_else, map_option, is_empty,
  filter, find_first, contains, Bool, true, false, Option, none, some, List, [], ◌∷◌, foldl,
  if◌then◌else◌, Result, fail, succeed,
}
use stryker_js_effect.Numbers.{Numbers}
use stryker_js_effect.Mutant.{MutantStatus, Mutant}
use stryker_js_effect.Incremental.{is_present}
use stryker_js_effect.Planning.Command.{
  CoverageAnalysisMode, per_test, MutantActivation, at_runtime, statically, MutantTestPlanError,
  mutant_timeout_not_finite, MutantTestPlanCommand, PlannedRunMutant, MutantPlan, planned_run,
  planned_early_result,
}

abbrev pub first_defined {ℓ} : {A : Type ℓ} → Option A → Option A → Option A
first_defined (some a) second = some a
first_defined none second = second

abbrev pub non_empty : List Text → Option (List Text)
non_empty tests = if is_empty tests then none else some tests

abbrev pub non_empty_test_filter_of : Option (List Text) → Option (List Text)
non_empty_test_filter_of none = none
non_empty_test_filter_of (some tests) = non_empty tests

abbrev pub hit_limit_for_count : ℕ → ℕ
hit_limit_for_count hit_count = hit_count * 100

abbrev pub mutant_activation_of : Option (List Text) → MutantActivation
mutant_activation_of none = statically
mutant_activation_of (some tests) = at_runtime

abbrev pub reload_environment_of : Option (List Text) → Option Bool → Bool
reload_environment_of none is_static = true
reload_environment_of (some tests) none = true
reload_environment_of (some tests) (some flag) = flag

abbrev pub is_per_test : CoverageAnalysisMode → Bool
is_per_test per_test = true
is_per_test _ = false

abbrev pub ignored_static_mutant_reason : Text
ignored_static_mutant_reason =
    text "ignore-static: Static mutant (and \"ignoreStatic\" was enabled)"

-- `priorKilledByByMutantId` at a mutant; no entry counts as no killer.
abbrev pub killers_of : Option (Dict (List Text)) → Text → List Text
killers_of none mutant_id = []
killers_of (some by_mutant_id) mutant_id = get_or_else (lookup mutant_id by_mutant_id) []

abbrev pub static_coverage_count_of : Option (Dict ℕ) → Text → ℕ
static_coverage_count_of none mutant_id = 0
static_coverage_count_of (some counts) mutant_id = get_or_else (lookup mutant_id counts) 0

abbrev pub with_killer : Option Text → List Text → List Text
with_killer none rest = rest
with_killer (some present) rest = present ∷ rest

abbrev pub is_killer : Option Text → Text → Bool
is_killer none test_id = false
is_killer (some killer) test_id = test_id == killer

module _ (numbers : Numbers) where
  open numbers use {Number, of_ℕ, plus, times, less, is_finite}

  abbrev pub mutant_is_static : MutantTestPlanCommand numbers → Text → Bool
  mutant_is_static command mutant_id =
      ltb 0 (static_coverage_count_of command.static_coverage mutant_id)

  abbrev pub time_of_test_of : MutantTestPlanCommand numbers → Text → Number
  time_of_test_of command test_id = get_or_else (lookup test_id command.test_time_by_id) (of_ℕ 0)

  unfoldable pub calculate_total_time_for_ids : MutantTestPlanCommand numbers → List Text → Number
  calculate_total_time_for_ids command test_ids =
      foldl (λ net_time test_id. plus net_time (time_of_test_of command test_id)) (of_ℕ 0) test_ids

  unfoldable pub prior_killer_test_ids_of : MutantTestPlanCommand numbers → Text → List Text
  prior_killer_test_ids_of command mutant_id =
      filter (λ killer. is_present (lookup killer command.test_time_by_id))
        (killers_of command.prior_killed_by_by_mutant_id mutant_id)

  unfoldable pub prior_killer_field :
      MutantTestPlanCommand numbers → Text → Option (List Text) → Option (List Text)
  prior_killer_field command mutant_id (some test_filter) = none
  prior_killer_field command mutant_id none = non_empty (prior_killer_test_ids_of command mutant_id)

  unfoldable pub floored_timeout_of : Number → Number
  floored_timeout_of timeout = if less timeout (of_ℕ 100) then of_ℕ 100 else timeout

  unfoldable pub mutant_timeout_of : MutantTestPlanCommand numbers → Number → Number
  mutant_timeout_of command net_time = floored_timeout_of (
      plus (plus (times command.options.timeout_factor net_time) command.options.timeout_ms)
        command.time_overhead_ms)

  unfoldable pub run_plan_of :
      Mutant
      → MutantTestPlanCommand numbers
      → Number
      → Number
      → Option (List Text)
      → Option Bool
      → Option (List Text)
      → PlannedRunMutant numbers
  run_plan_of mutant command timeout net_time test_filter is_static covered_by = record {
    mutant_id = mutant.id;
    net_time = net_time;
    run_options = record {
      mutant_activation = mutant_activation_of test_filter;
      timeout = timeout;
      sandbox_file_name =
          get_or_else (lookup mutant.file_name command.sandbox_file_by_name) mutant.file_name;
      disable_bail = command.options.disable_bail;
      reload_environment = reload_environment_of test_filter is_static;
      test_filter = test_filter;
      prior_killer_test_ids = prior_killer_field command mutant.id test_filter;
      hit_limit = map_option hit_limit_for_count (lookup mutant.id command.hits_by_mutant_id);
    };
    static = is_static;
    covered_by = covered_by;
  }

  unfoldable pub to_run_plan :
      Mutant
      → MutantTestPlanCommand numbers
      → Number
      → Option (List Text)
      → Option Bool
      → Option (List Text)
      → Result MutantTestPlanError (MutantPlan numbers)
  unfolding mutant_timeout_of run_plan_of
  to_run_plan mutant command net_time test_filter is_static covered_by =
      let timeout = mutant_timeout_of command net_time in
      if is_finite timeout
      then succeed (
          planned_run
            (run_plan_of mutant command timeout net_time test_filter is_static covered_by))
      else fail (mutant_timeout_not_finite mutant.id)

  unfoldable pub to_early_result_plan :
      Mutant → Option Bool → MutantStatus → Option Text → Option (List Text) → MutantPlan numbers
  to_early_result_plan mutant is_static status status_reason covered_by =
      planned_early_result (record {
        mutant_id = mutant.id;
        status = status;
        status_reason = first_defined status_reason mutant.status_reason;
        static = is_static;
        covered_by = covered_by;
      })

  unfoldable pub prior_killer_of : MutantTestPlanCommand numbers → Text → List Text → Option Text
  prior_killer_of command mutant_id tests =
      find_first (λ killer. contains killer tests)
        (killers_of command.prior_killed_by_by_mutant_id mutant_id)
