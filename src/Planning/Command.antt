-- ===== src/Planning/Command.antt =====
-- The commands, decisions and errors of plan-mutant-tests.workflow.ts.
use stryker_js_effect.Prelude.{ℕ, Text, Dict, Bool, Option, List}
use stryker_js_effect.Numbers.{Numbers}
use stryker_js_effect.Mutant.{MutantStatus, Mutant}

pub data CoverageAnalysisMode : Type 0 where
  off all per_test : CoverageAnalysisMode

pub data MutantActivation : Type 0 where
  at_runtime statically : MutantActivation

pub data MutantTestPlanError : Type 0 where
  covered_mutant_hit_count_missing : List Text → MutantTestPlanError
  mutant_timeout_not_finite : Text → MutantTestPlanError

pub record PlannedEarlyResultMutant : Type 0 where
  pub mutant_id : Text
  pub status : MutantStatus
  pub status_reason : Option Text
  pub static : Option Bool
  pub covered_by : Option (List Text)

module _ (numbers : Numbers) where
  open numbers use {Number}

  pub record PlanOptions : Type 0 where
    pub coverage_analysis : CoverageAnalysisMode
    pub disable_bail : Bool
    pub timeout_ms : Number
    pub timeout_factor : Number
    pub ignore_static : Bool

  pub record MutantTestPlanCommand : Type 0 where
    pub mutants : List Mutant
    pub time_overhead_ms : Number
    pub time_spent_all_tests : Number
    pub global_test_filter : Option (List Text)
    pub hits_by_mutant_id : Dict ℕ
    pub static_coverage : Option (Dict ℕ)
    pub tests_by_mutant_id : Dict (List Text)
    pub prior_killed_by_by_mutant_id : Option (Dict (List Text))
    pub test_time_by_id : Dict Number
    pub options : PlanOptions
    pub sandbox_file_by_name : Dict Text

  pub record PlannedMutantRunOptions : Type 0 where
    pub mutant_activation : MutantActivation
    pub timeout : Number
    pub sandbox_file_name : Text
    pub disable_bail : Bool
    pub reload_environment : Bool
    pub test_filter : Option (List Text)
    pub prior_killer_test_ids : Option (List Text)
    pub hit_limit : Option ℕ

  pub record PlannedRunMutant : Type 0 where
    pub mutant_id : Text
    pub net_time : Number
    pub run_options : PlannedMutantRunOptions
    pub static : Option Bool
    pub covered_by : Option (List Text)

  pub data MutantPlan : Type 0 where
    planned_run : PlannedRunMutant → MutantPlan
    planned_early_result : PlannedEarlyResultMutant → MutantPlan

  -- `OrderedTest`: a test at its place among the covering tests, with its time.
  pub record TestEntry : Type 0 where
    pub test_id : Text
    pub index : ℕ
    pub time : Number
