-- ===== src/MutantPlan/Reasons.antt =====
-- Why a mutant is ignored. The first that applies is given: a directive of the source, an excluded
-- mutator, an ignorer, the policy on redundant mutants, or arid code. `toLowerCase` is a parameter.
use stryker_js_effect.Prelude.{
  ℕ, nat_eq, Text, text, text_eq, ◌==◌, contains, some_of, is_empty, Bool, true, ◌&&◌, ◌||◌, Option,
  none, some, map_option, List, [], ◌∷◌, ◌++◌, map, if◌then◌else◌,
}
use stryker_js_effect.MutantSet.{
  Trimming, MutantSetRuleId, equivalent_to_original, duplicate_at_site, MutantSetOutcome,
  mutant_suppressed, mutant_kept, mutant_set_policy,
}
use stryker_js_effect.MutantPlan.{
  DirectiveAction, disable, restore, DirectiveScope, next_line, block, LocatedDirective,
  IgnorerAnswer, MutantCandidate, PlanMutantsCommand, PlanFailure, ignorer_answered_without_reason,
}

abbrev pub ignore_reason_for : Text → Text → Text
ignore_reason_for rule_id detail = rule_id ++ text ": " ++ detail

abbrev pub reaches_by : DirectiveScope → ℕ → ℕ → Bool
reaches_by next_line governed line = governed == line
reaches_by block governed line = true

abbrev pub reached_line : LocatedDirective → ℕ → Bool
reached_line located line = reaches_by located.directive.scope located.governed_line line

-- `Array.prototype.findLast`, of what stands later and what stands here.
abbrev pub later_or {ℓ} : {A : Type ℓ} → Option A → Option A → Option A
later_or (some a) here = some a
later_or none here = here

abbrev pub find_last {ℓ} : {A : Type ℓ} → (A → Bool) → List A → Option A
find_last p [] = none
find_last p (x ∷ xs) = later_or (find_last p xs) (if p x then some x else none)

abbrev pub or_else_reason : Option Text → Option Text → Option Text
or_else_reason (some reason) later = some reason
or_else_reason none later = later

module _ (trimming : Trimming) (to_lower_case : Text → Text) where
  open trimming use {trim}

  abbrev pub names_mutator : LocatedDirective → Text → Bool
  names_mutator located lower_mutator_name =
      some_of (λ name. name == text "all" || to_lower_case name == lower_mutator_name)
        located.directive.mutator_names

  abbrev pub last_reaching_directive : List LocatedDirective → Text → ℕ → Option LocatedDirective
  last_reaching_directive rule lower_mutator_name line =
      find_last (λ located. reached_line located line && names_mutator located lower_mutator_name)
        rule

  abbrev pub reason_by_action : DirectiveAction → Text → Option Text
  reason_by_action disable reason = some (ignore_reason_for (text "directive") reason)
  reason_by_action restore reason = none

  abbrev pub reason_of_directive : Option LocatedDirective → Option Text
  reason_of_directive none = none
  reason_of_directive (some located) =
      reason_by_action located.directive.action located.directive.reason

  unfoldable pub directive_reason : List LocatedDirective → Text → ℕ → Option Text
  directive_reason rule mutator_name line =
      reason_of_directive (last_reaching_directive rule (to_lower_case mutator_name) line)

  abbrev pub exclusion_reason : List Text → Text → Option Text
  exclusion_reason excluded_mutations mutator_name =
      if contains mutator_name excluded_mutations
      then some (
          ignore_reason_for (text "excluded-mutator")
            (text "Ignored because of excluded mutation " ++ 34 ∷ (mutator_name ++ 34 ∷ [])))
      else none

  abbrev pub reason_text : Option Text → Option Text
  reason_text none = none
  reason_text (some reason) = if is_empty (trim reason) then none else some reason

  abbrev pub ignorer_reason_text : IgnorerAnswer → Option Text
  ignorer_reason_text answered = reason_text answered.answer

  abbrev pub refusal_unless :
      PlanMutantsCommand → MutantCandidate → IgnorerAnswer → Option Text → Option PlanFailure
  refusal_unless command candidate answered (some reason) = none
  refusal_unless command candidate answered none =
      some (ignorer_answered_without_reason command.file_name candidate.id answered.ignorer_name)

  abbrev pub refusal_of_answer :
      PlanMutantsCommand → MutantCandidate → Option IgnorerAnswer → Option PlanFailure
  refusal_of_answer command candidate none = none
  refusal_of_answer command candidate (some answered) =
      refusal_unless command candidate answered (ignorer_reason_text answered)

  unfoldable pub ignorer_refusal_of : PlanMutantsCommand → MutantCandidate → Option PlanFailure
  ignorer_refusal_of command candidate =
      refusal_of_answer command candidate candidate.ignorer_answer

  abbrev pub reason_of_answer : Option IgnorerAnswer → Option Text
  reason_of_answer none = none
  reason_of_answer (some answered) =
      map_option (ignore_reason_for (text "ignorer")) (ignorer_reason_text answered)

  abbrev pub ignorer_reason : MutantCandidate → Option Text
  ignorer_reason candidate = reason_of_answer candidate.ignorer_answer

  unfoldable pub ignore_reason_of : PlanMutantsCommand → MutantCandidate → Option Text → Option Text
  ignore_reason_of command candidate policy_reason =
      or_else_reason (directive_reason command.rule candidate.mutator_name command.line) (
        or_else_reason (exclusion_reason command.excluded_mutations candidate.mutator_name) (
          or_else_reason (ignorer_reason candidate)
            (or_else_reason policy_reason candidate.arid_reason)))

  abbrev pub rule_id_text : MutantSetRuleId → Text
  rule_id_text equivalent_to_original = text "equivalent-to-original"
  rule_id_text duplicate_at_site = text "duplicate-at-site"

  abbrev pub policy_reason_of : MutantSetOutcome → Option Text
  policy_reason_of (mutant_suppressed rule_id detail) =
      some (ignore_reason_for (rule_id_text rule_id) detail)
  policy_reason_of mutant_kept = none

  unfoldable pub policy_reasons_at : PlanMutantsCommand → List (Option Text)
  policy_reasons_at command = map policy_reason_of (
      mutant_set_policy trimming (record {
        policy = command.mutant_set_policy;
        candidates = map (λ candidate. candidate.mutant_set) command.candidates;
      }))

  -- The reason of the policy is the one at the same place.
  abbrev pub reasons_with :
      PlanMutantsCommand → List MutantCandidate → List (Option Text) → List (Option Text)
  reasons_with command [] policy_reasons = []
  reasons_with command (c ∷ candidates) [] =
      ignore_reason_of command c none ∷ reasons_with command candidates []
  reasons_with command (c ∷ candidates) (r ∷ policy_reasons) =
      ignore_reason_of command c r ∷ reasons_with command candidates policy_reasons

  unfoldable pub static_reasons_at : PlanMutantsCommand → List (Option Text)
  static_reasons_at command = reasons_with command command.candidates (policy_reasons_at command)
