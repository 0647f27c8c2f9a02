-- ===== src/Examples/Deciding.antt =====
-- The subsumption of mutants and the verdict of a run at concrete inputs.
use stryker_js_effect.Prelude.{
  ℕ, Text, text, true, false, none, some, fail, List, [], ◌∷◌, map, All, Memᴰ, text_beq, get_elem?,
  find_first, is_empty, ltb, ◌≡◌, ◌≢◌, ◌↔◌, ◌⊎◌, refl,
}
use stryker_js_effect.Numbers.{whole_numbers}
use stryker_js_effect.Mutant.{killed, default}
use stryker_js_effect.Subsumption.Subsume.{
  RelationalOperator, lt, le, ge, relational_site, ordering_operator, other_replacement,
  statically_kept, complement, unaffected, subsumed, SubsumptionCandidate, SubsumeMutantsCommand,
  is_kept_as, subsume_mutants,
}
use stryker_js_effect.Subsumption.Subsume.Semantics.{
  below, same, unordered, holds, dominator_differs-complement,
}
use stryker_js_effect.Subsumption.Subsume.Decisions.{
  Dominates, subsume_mutants-Dominates, subsume_mutants_complete,
}
use stryker_js_effect.Subsumption.Readmit.{
  settled, compiled_with_error, ReadmitCause, HeldMutant, DominatorSettlement, still_subsumed,
  readmitted, ruling_of, readmit_subsumed, cause_compiled_with_error, cause_unsettled,
}
use stryker_js_effect.Subsumption.Readmit.Rulings.{ran, IsCause, ruling_of_lem}
use stryker_js_effect.Verdict.Exit.{
  ExitClass, verdict_fail, config_error, runtime_error, classify_exit, exit_runtime_errored,
}
use stryker_js_effect.Verdict.Exit.Precedence.{gravest, decision_gravity, classify_exit-gravest}
use stryker_js_effect.Verdict.Score.{
  scored, exit_class_of, judge_mutation_score, break_threshold_from_option,
  judge_mutation_score-fails_iff,
}
use stryker_js_effect.Verdict.Budget.{
  BudgetGateCommand, budget_gate, budget_exceeded, Branches, budget_gate-Branches,
}

dominator_differs-complement_example :
    ((holds le below ≢ holds lt below) ↔ (below ≡ same))
    × ((holds ge below ≢ holds lt below) ↔ (below ≢ unordered))
dominator_differs-complement_example = dominator_differs-complement lt below

-- At `a < b`: the mutants `a <= b`, `a >= b` and `false`.
abbrev at_less_equal : SubsumptionCandidate
at_less_equal = record {
  id = text "1";
  replacement = ordering_operator le;
  status = statically_kept;
}

abbrev at_greater_equal : SubsumptionCandidate
at_greater_equal = record {
  id = text "2";
  replacement = ordering_operator ge;
  status = statically_kept;
}

abbrev never : SubsumptionCandidate
never = record { id = text "3"; replacement = other_replacement; status = statically_kept }

abbrev at_less : SubsumeMutantsCommand
at_less = record {
  policy = default;
  site = relational_site lt;
  candidates = at_less_equal ∷ at_greater_equal ∷ never ∷ [];
}

subsume_at_less : subsume_mutants at_less ≡ unaffected ∷ subsumed (text "1" ∷ []) ∷ unaffected ∷ []
unfolding subsume_mutants
subsume_at_less = refl

second_subsumed : get_elem? (subsume_mutants at_less) 1 ≡ some (subsumed (text "1" ∷ []))
unfolding subsume_mutants
second_subsumed = refl

kept_as_ge : is_kept_as at_greater_equal ge ≡ true
unfolding is_kept_as
kept_as_ge = refl

kept_as_le : is_kept_as at_less_equal le ≡ true
unfolding is_kept_as
kept_as_le = refl

subsume_mutants-Dominates_example :
    (operator : RelationalOperator) × (candidate : SubsumptionCandidate) × (at_less.policy
      ≡ default)
    × (at_less.site ≡ relational_site operator)
    × (get_elem? at_less.candidates 1 ≡ some candidate)
    × (is_kept_as candidate (complement operator) ≡ true)
    × (is_empty (text "1" ∷ []) ≡ false)
    × All (Dominates at_less.candidates operator) (text "1" ∷ [])
subsume_mutants-Dominates_example =
    subsume_mutants-Dominates at_less 1 (text "1" ∷ []) second_subsumed

subsume_mutants_complete_example :
    (ds : List Text) × (get_elem? (subsume_mutants at_less) 1 ≡ some (subsumed ds))
    × Memᴰ (text "1") ds
subsume_mutants_complete_example =
    subsume_mutants_complete lt (at_less_equal ∷ at_greater_equal ∷ never ∷ []) 1 at_greater_equal
      at_less_equal refl kept_as_ge (Memᴰ.head refl) kept_as_le

abbrev two_settlements : List DominatorSettlement
two_settlements =
    record { id = text "1"; outcome = compiled_with_error }
    ∷ record { id = text "2"; outcome = settled killed }
    ∷ []

abbrev held_by : List Text → HeldMutant
held_by dominators = record { id = text "9"; dominators = dominators }

abbrev held_by_both : HeldMutant
held_by_both = held_by (text "1" ∷ text "2" ∷ [])

readmit_two :
    readmit_subsumed (record {
      held = held_by_both ∷ held_by (text "1" ∷ text "7" ∷ []) ∷ [];
      settlements = two_settlements;
    })
    ≡ still_subsumed (text "9") (text "2")
      ∷ readmitted (text "9") (
          record { dominator = text "1"; outcome = cause_compiled_with_error }
          ∷ record { dominator = text "7"; outcome = cause_unsettled }
          ∷ [])
      ∷ []
unfolding readmit_subsumed text_beq
readmit_two = refl

ruling_of_lem_example :
    ((d : Text) × (find_first (ran two_settlements) held_by_both.dominators ≡ some d)
      × (ruling_of two_settlements held_by_both ≡ still_subsumed held_by_both.id d))
    ⊎ ((find_first (ran two_settlements) held_by_both.dominators ≡ none)
        × ((causes : List ReadmitCause) × (ruling_of two_settlements held_by_both
              ≡ readmitted held_by_both.id causes)
            × (map (λ c. c.dominator) causes ≡ held_by_both.dominators)
            × All (IsCause two_settlements) causes))
ruling_of_lem_example = ruling_of_lem two_settlements held_by_both

abbrev two_pending : List ExitClass
two_pending = verdict_fail ∷ runtime_error ∷ config_error ∷ []

classify_two : classify_exit two_pending ≡ exit_runtime_errored
unfolding classify_exit
classify_two = refl

classify_exit-gravest_example : decision_gravity (classify_exit two_pending) ≡ gravest two_pending
classify_exit-gravest_example = classify_exit-gravest two_pending

judge_mutation_score-fails_iff_example :
    (exit_class_of (judge_mutation_score ltb (scored 79) (break_threshold_from_option (some 80)))
      ≡ some verdict_fail)
    ↔ ((p : ℕ) × (t : ℕ) × (scored 79 ≡ scored p) × (some 80 ≡ some t) × (ltb p t ≡ true))
judge_mutation_score-fails_iff_example = judge_mutation_score-fails_iff ltb (scored 79) (some 80)

-- 21 seconds where the baseline of 10 with the tolerance 1 allows 20.
abbrev slow_run : BudgetGateCommand whole_numbers
slow_run = record {
  actual_seconds = some 21;
  baseline = some (record { actual_seconds = some 10 });
  tolerance = some 1;
  update_baseline = false;
  baseline_file = text "budget.json";
}

slow_run_exceeds :
    budget_gate whole_numbers slow_run
    ≡ fail (budget_exceeded (some 10) (some 20) (some 21) (some 1))
unfolding budget_gate
slow_run_exceeds = refl

budget_gate-Branches_example : Branches whole_numbers slow_run
budget_gate-Branches_example = budget_gate-Branches whole_numbers slow_run
