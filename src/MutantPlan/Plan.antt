-- ===== src/MutantPlan/Plan.antt =====
-- The plan of the mutants at a node.
pub mod Outcome
pub mod Placed
use stryker_js_effect.Prelude.{
  ℕ, ◌+◌, ◌-◌, nat_eq, Text, text, text_eq, ◌==◌, decimal, contains, filter, flatten, some_of, Bool,
  true, false, not, ◌&&◌, Option, none, some, Result, fail, succeed, map_result, flat_map_result,
  List, [], ◌∷◌, ◌++◌, map, if◌then◌else◌,
}
use stryker_js_effect.Mutant.{Position, Location}
use stryker_js_effect.MutantSet.{Trimming}
use stryker_js_effect.Subsumption.Subsume.{
  StaticStatus, statically_kept, statically_ignored, SubsumptionCandidate, SubsumptionDecision,
  unaffected, subsumed, subsume_mutants,
}
use stryker_js_effect.MutantPlan.{
  DirectiveAction, disable, restore, DirectiveScope, next_line, block, Directive, LocatedDirective,
  MutantCandidate, PlannedMutant, ScriptOrigin, PlanMutantsCommand, MutantPlan, mutants_planned,
  mutants_fully_ignored, PlanFailure, mutant_without_location,
}
use stryker_js_effect.MutantPlan.Reasons.{static_reasons_at, ignorer_refusal_of}

abbrev pub static_status_of : Option Text → StaticStatus
static_status_of none = statically_kept
static_status_of (some reason) = statically_ignored

-- The static reason is the one at the same place.
abbrev pub subsumption_candidates :
    List MutantCandidate → List (Option Text) → List SubsumptionCandidate
subsumption_candidates [] reasons = []
subsumption_candidates (c ∷ candidates) [] =
    record { id = c.id; replacement = c.subsumption; status = statically_kept }
    ∷ subsumption_candidates candidates []
subsumption_candidates (c ∷ candidates) (r ∷ reasons) =
    record { id = c.id; replacement = c.subsumption; status = static_status_of r }
    ∷ subsumption_candidates candidates reasons

unfoldable pub subsumptions_at : PlanMutantsCommand → List (Option Text) → List SubsumptionDecision
subsumptions_at command static_reasons = subsume_mutants (record {
  policy = command.mutant_set_policy;
  site = command.site;
  candidates = subsumption_candidates command.candidates static_reasons;
})

abbrev pub subsumed_of : SubsumptionDecision → Option (List Text)
subsumed_of (subsumed dominators) = some dominators
subsumed_of unaffected = none

pub record CandidateReasons : Type 0 where
  pub ignore_reason : Option Text
  pub subsumption : Option (List Text)

-- `Arr.zip`, which ends with the shorter list.
abbrev pub zip_reasons : List (Option Text) → List SubsumptionDecision → List CandidateReasons
zip_reasons (r ∷ reasons) (d ∷ decisions) =
    record { ignore_reason = r; subsumption = subsumed_of d } ∷ zip_reasons reasons decisions
zip_reasons _ _ = []

abbrev pub scope_label : DirectiveScope → Text → Text
scope_label next_line action = action ++ text " next-line"
scope_label block action = action

abbrev pub action_text : DirectiveAction → Text
action_text disable = text "disable"
action_text restore = text "restore"

-- The warning of `unusedDirectiveWarning`; 39 is a quote and 58 a colon.
abbrev pub unused_directive_warning : LocatedDirective → Text → Text → Text
unused_directive_warning located file_name mutator_name =
    text "Unused 'Stryker "
    ++ scope_label located.directive.scope (action_text located.directive.action)
    ++ text "' directive. Mutator with name '"
    ++ mutator_name
    ++ text "' not found. Directive found at: "
    ++ file_name
    ++ 58
      ∷ (decimal located.at_position.line ++ 58 ∷ (decimal located.at_position.column ++ text "."))

abbrev pub column_offset_of : Position → ScriptOrigin → ℕ
column_offset_of source offset = if source.line == 1 then offset.column_shift else 0

-- Lines count from 1, so that the subtraction does not go below zero.
abbrev pub shifted_position : Position → ScriptOrigin → Position
shifted_position source offset = record {
  line = source.line + offset.line - 1;
  column = source.column + column_offset_of source offset;
}

abbrev pub shifted_location : Location → ScriptOrigin → Location
shifted_location location offset = record {
  start_at = shifted_position location.start_at offset;
  end_at = shifted_position location.end_at offset;
}

abbrev pub planned_at :
    PlanMutantsCommand
    → MutantCandidate
    → CandidateReasons
    → Option Location
    → Result PlanFailure PlannedMutant
planned_at command candidate reasons none =
    fail (mutant_without_location command.file_name candidate.mutator_name)
planned_at command candidate reasons (some location) = succeed (record {
  id = candidate.id;
  mutator_name = candidate.mutator_name;
  replacement_code = candidate.replacement_code;
  location = shifted_location location command.offset;
  ignore_reason = reasons.ignore_reason;
  subsumption = reasons.subsumption;
})

abbrev pub refused_or_planned :
    PlanMutantsCommand
    → MutantCandidate
    → CandidateReasons
    → Option PlanFailure
    → Result PlanFailure PlannedMutant
refused_or_planned command candidate reasons (some refusal) = fail refusal
refused_or_planned command candidate reasons none =
    planned_at command candidate reasons candidate.location

abbrev pub has_no_reason : Option Text → Bool
has_no_reason none = true
has_no_reason (some reason) = false

abbrev pub without_reason : PlannedMutant → Bool
without_reason mutant = has_no_reason mutant.ignore_reason

module _ (trimming : Trimming) (to_lower_case : Text → Text) where
  abbrev pub candidate_reasons_at : PlanMutantsCommand → List CandidateReasons
  candidate_reasons_at command =
      let static_reasons = static_reasons_at trimming to_lower_case command in
      zip_reasons static_reasons (subsumptions_at command static_reasons)

  abbrev pub warnings_of_directive : PlanMutantsCommand → LocatedDirective → List Text
  warnings_of_directive command located = map (unused_directive_warning located command.file_name) (
      filter (λ name. not (contains (to_lower_case name) command.mutator_names))
        (filter (λ name. not (name == text "all")) located.directive.mutator_names))

  unfoldable pub warnings_of : PlanMutantsCommand → List Text
  warnings_of command = flatten (map (warnings_of_directive command) command.directives)

  unfoldable pub planned_mutant :
      PlanMutantsCommand → MutantCandidate → CandidateReasons → Result PlanFailure PlannedMutant
  planned_mutant command candidate reasons =
      refused_or_planned command candidate reasons
        (ignorer_refusal_of trimming to_lower_case command candidate)

  -- `Arr.zip` with the reasons, and the reduction up to the first failure.
  abbrev pub planned_mutants :
      PlanMutantsCommand
      → List MutantCandidate
      → List CandidateReasons
      → Result PlanFailure (List PlannedMutant)
  planned_mutants command (c ∷ candidates) (r ∷ reasons) =
      flat_map_result (planned_mutant command c r) (λ mutant.
        map_result (λ mutants. mutant ∷ mutants) (planned_mutants command candidates reasons))
  planned_mutants command _ _ = succeed []

  unfoldable pub plan_of : PlanMutantsCommand → List PlannedMutant → MutantPlan
  plan_of command mutants =
      if some_of without_reason mutants
      then mutants_planned mutants (map (λ mutant. mutant.id) (filter without_reason mutants))
          (warnings_of command)
      else mutants_fully_ignored mutants (warnings_of command)

  unfoldable pub plan_mutants : PlanMutantsCommand → Result PlanFailure MutantPlan
  plan_mutants command =
      map_result (plan_of command)
        (planned_mutants command command.candidates (candidate_reasons_at command))
