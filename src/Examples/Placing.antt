-- ===== src/Examples/Placing.antt =====
-- The plan of the mutants at a comparison, at concrete inputs.
use stryker_js_effect.Prelude.{
  ℕ, leb, ◌+◌, Text, text, text_beq, text_eq, filter, ◌&&◌, Option, none, some, succeed, List, [],
  ◌∷◌, map, if◌then◌else◌, All, ◌≡◌, refl,
}
use stryker_js_effect.Mutant.{Location, default}
use stryker_js_effect.MutantSet.{mutant_set_policy, canonical_form, strip_outer_parentheses}
use stryker_js_effect.Subsumption.Subsume.{
  RelationalOperator, lt, le, ge, relational_site, ordering_operator, subsume_mutants,
}
use stryker_js_effect.MutantPlan.{
  LocatedDirective, disable, next_line, MutantCandidate, PlannedMutant, PlanMutantsCommand,
  MutantPlan, mutants_planned,
}
use stryker_js_effect.MutantPlan.Reasons.{
  directive_reason, ignorer_refusal_of, ignore_reason_of, policy_reasons_at, static_reasons_at,
}
use stryker_js_effect.MutantPlan.Plan.{
  without_reason, subsumptions_at, warnings_of, planned_mutant, plan_of, plan_mutants,
}
use stryker_js_effect.MutantPlan.Plan.Placed.{AllIn}
use stryker_js_effect.MutantPlan.Plan.Outcome.{mutants_of, placeable_of, plan_mutants-Placed}
use stryker_js_effect.Examples.Printing.{spaces}

abbrev lower_case : Text → Text
lower_case t = map (λ c. if leb 65 c && leb c 90 then c + 32 else c) t

abbrev at_line : ℕ → Location
at_line n = record {
  start_at = record { line = n; column = 2 };
  end_at = record { line = n; column = 7 };
}

abbrev candidate_of : Text → Text → Text → RelationalOperator → MutantCandidate
candidate_of id mutator code operator = record {
  id = id;
  mutator_name = mutator;
  replacement_code = code;
  location = some (at_line 1);
  ignorer_answer = none;
  arid_reason = none;
  mutant_set = record { original_code = text "a < b"; replacement_code = code };
  subsumption = ordering_operator operator;
}

-- A directive disables the mutator of the third candidate.
abbrev off_next_line : LocatedDirective
off_next_line = record {
  directive = record {
    action = disable;
    scope = next_line;
    mutator_names = text "BOUNDARY" ∷ [];
    reason = text "noise";
  };
  at_position = record { line = 2; column = 1 };
  governed_line = 3;
}

abbrev planning : PlanMutantsCommand
planning = record {
  file_name = text "a.ts";
  offset = record { line = 3; column_shift = 4 };
  line = 3;
  mutator_names = text "boundary" ∷ [];
  excluded_mutations = [];
  rule = off_next_line ∷ [];
  directives = [];
  candidates =
      candidate_of (text "1") (text "Equality") (text "a >= b") ge
      ∷ candidate_of (text "2") (text "Equality") (text "a <= b") le
      ∷ candidate_of (text "3") (text "Boundary") (text "a < c") lt
      ∷ [];
  site = relational_site lt;
  mutant_set_policy = default;
}

abbrev shifted : Location
shifted = record {
  start_at = record { line = 3; column = 6 };
  end_at = record { line = 3; column = 11 };
}

abbrev planned_as : Text → Text → Text → Option Text → Option (List Text) → PlannedMutant
planned_as id mutator code reason subsumption = record {
  id = id;
  mutator_name = mutator;
  replacement_code = code;
  location = shifted;
  ignore_reason = reason;
  subsumption = subsumption;
}

abbrev expected_plan : MutantPlan
expected_plan =
    mutants_planned
      (planned_as (text "1") (text "Equality") (text "a >= b") none (some (text "2" ∷ []))
        ∷ planned_as (text "2") (text "Equality") (text "a <= b") none none
        ∷ planned_as (text "3") (text "Boundary") (text "a < c") (some (text "directive: noise"))
            none
        ∷ [])
      (text "1" ∷ text "2" ∷ []) []

plans : plan_mutants spaces lower_case planning ≡ succeed expected_plan
unfolding plan_mutants static_reasons_at policy_reasons_at mutant_set_policy subsumptions_at
    subsume_mutants planned_mutant ignorer_refusal_of plan_of ignore_reason_of directive_reason
    text_beq canonical_form strip_outer_parentheses warnings_of
plans = refl

plan_mutants-Placed_example :
    (map (λ m. m.id) (mutants_of expected_plan) ≡ map (λ c. c.id) planning.candidates)
    × (map (λ m. m.ignore_reason) (mutants_of expected_plan)
        ≡ static_reasons_at spaces lower_case planning)
    × (placeable_of expected_plan
        ≡ map (λ m. m.id) (filter without_reason (mutants_of expected_plan)))
    × All (λ m. AllIn (placeable_of expected_plan) m.subsumption) (mutants_of expected_plan)
plan_mutants-Placed_example = plan_mutants-Placed spaces lower_case planning expected_plan plans
