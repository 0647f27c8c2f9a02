-- ===== src/MutantPlan.antt =====
-- packages/stryker-js-instrumenter/src/plan-mutants.workflow.ts: of the mutants at a node, which are
-- placed, and why the others are ignored. `Reasons` has the reasons, and `Plan` the workflow.
pub mod Reasons
pub mod Plan
use stryker_js_effect.Prelude.{ℕ, Text, Option, List}
use stryker_js_effect.Mutant.{Location, Position, MutantSetPolicy}
use stryker_js_effect.MutantSet.{MutantSetFacts}
use stryker_js_effect.Subsumption.Subsume.{SubsumptionSite, SubsumptionReplacement}

pub data DirectiveAction : Type 0 where
  disable restore : DirectiveAction

pub data DirectiveScope : Type 0 where
  next_line block : DirectiveScope

pub record Directive : Type 0 where
  pub action : DirectiveAction
  pub scope : DirectiveScope
  pub mutator_names : List Text
  pub reason : Text

pub record LocatedDirective : Type 0 where
  pub directive : Directive
  pub at_position : Position
  pub governed_line : ℕ

-- An answer that is not a string is `none`.
pub record IgnorerAnswer : Type 0 where
  pub ignorer_name : Text
  pub answer : Option Text

pub record MutantCandidate : Type 0 where
  pub id : Text
  pub mutator_name : Text
  pub replacement_code : Text
  pub location : Option Location
  pub ignorer_answer : Option IgnorerAnswer
  pub arid_reason : Option Text
  pub mutant_set : MutantSetFacts
  pub subsumption : SubsumptionReplacement

-- Of a subsumption the dominators; its rule is always `complement`.
pub record PlannedMutant : Type 0 where
  pub id : Text
  pub mutator_name : Text
  pub replacement_code : Text
  pub location : Location
  pub ignore_reason : Option Text
  pub subsumption : Option (List Text)

-- Where a script begins in its file.
pub record ScriptOrigin : Type 0 where
  pub line : ℕ
  pub column_shift : ℕ

pub record PlanMutantsCommand : Type 0 where
  pub file_name : Text
  pub offset : ScriptOrigin
  pub line : ℕ
  pub mutator_names : List Text
  pub excluded_mutations : List Text
  pub rule : List LocatedDirective
  pub directives : List LocatedDirective
  pub candidates : List MutantCandidate
  pub site : SubsumptionSite
  pub mutant_set_policy : MutantSetPolicy

pub data MutantPlan : Type 0 where
  mutants_planned : List PlannedMutant → List Text → List Text → MutantPlan
  mutants_fully_ignored : List PlannedMutant → List Text → MutantPlan

-- `MutantWithoutLocation`, of the file and the mutator, and `IgnorerAnsweredWithoutReason`, of the
-- file, the mutant and the ignorer.
pub data PlanFailure : Type 0 where
  mutant_without_location : Text → Text → PlanFailure
  ignorer_answered_without_reason : Text → Text → Text → PlanFailure
