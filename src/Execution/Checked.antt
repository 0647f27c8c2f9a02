-- ===== src/Execution/Checked.antt =====
-- partition-checked-plans.workflow.ts: the mutants by the checker's answers.
use stryker_js_effect.Prelude.{ℕ, suc, Text, length, List, [], ◌∷◌, map, ◌≡◌, refl, ap₂}
use stryker_js_effect.TypeChecker.Rounds.{range_from}

-- `Checker.CheckResult`.
pub data CheckResult : Type 0 where
  check_passed : CheckResult
  check_compile_error : Text → CheckResult
  check_ignored : Text → CheckResult

-- The id of the mutant and its place among the answers; a mutant that failed or is ignored has the
-- reason and the whole answer too.
pub data CheckedPlanDecision : Type 0 where
  checked_plan_passed : Text → ℕ → CheckedPlanDecision
  checked_plan_failed : Text → ℕ → Text → CheckResult → CheckedPlanDecision
  checked_plan_ignored : Text → ℕ → Text → CheckResult → CheckedPlanDecision

abbrev pub decide_checked_plan : Text → CheckResult → ℕ → CheckedPlanDecision
decide_checked_plan mutant_id (check_ignored reason) entry_index =
    checked_plan_ignored mutant_id entry_index reason (check_ignored reason)
decide_checked_plan mutant_id (check_compile_error reason) entry_index =
    checked_plan_failed mutant_id entry_index reason (check_compile_error reason)
decide_checked_plan mutant_id check_passed entry_index = checked_plan_passed mutant_id entry_index

-- `map` with the index, which starts at the one given.
abbrev pub decisions_from : ℕ → List (Text × CheckResult) → List CheckedPlanDecision
decisions_from entry_index [] = []
decisions_from entry_index ((mutant_id, result) ∷ checked) =
    decide_checked_plan mutant_id result entry_index ∷ decisions_from (suc entry_index) checked

unfoldable pub partition_checked_plans : List (Text × CheckResult) → List CheckedPlanDecision
partition_checked_plans checked = decisions_from 0 checked

-- What a decision says that the checker answered, by its kind and its reason alone.
abbrev pub answer_of : CheckedPlanDecision → Text × CheckResult
answer_of (checked_plan_passed mutant_id i) = (mutant_id, check_passed)
answer_of (checked_plan_failed mutant_id i reason result) = (mutant_id, check_compile_error reason)
answer_of (checked_plan_ignored mutant_id i reason result) = (mutant_id, check_ignored reason)

abbrev pub entry_index_of : CheckedPlanDecision → ℕ
entry_index_of (checked_plan_passed mutant_id i) = i
entry_index_of (checked_plan_failed mutant_id i reason result) = i
entry_index_of (checked_plan_ignored mutant_id i reason result) = i

answer_of-decide :
    (mutant_id : Text) (result : CheckResult) (i : ℕ)
    → answer_of (decide_checked_plan mutant_id result i) ≡ (mutant_id, result)
answer_of-decide mutant_id check_passed i = refl
answer_of-decide mutant_id (check_compile_error reason) i = refl
answer_of-decide mutant_id (check_ignored reason) i = refl

entry_index_of-decide :
    (mutant_id : Text) (result : CheckResult) (i : ℕ)
    → entry_index_of (decide_checked_plan mutant_id result i) ≡ i
entry_index_of-decide mutant_id check_passed i = refl
entry_index_of-decide mutant_id (check_compile_error reason) i = refl
entry_index_of-decide mutant_id (check_ignored reason) i = refl

answers_from :
    (i : ℕ) (checked : List (Text × CheckResult))
    → map answer_of (decisions_from i checked) ≡ checked
answers_from i [] = refl
answers_from i ((mutant_id, result) ∷ checked) =
    ap₂ (λ a as'. a ∷ as') (answer_of-decide mutant_id result i) (answers_from (suc i) checked)

indexes_from :
    (i : ℕ) (checked : List (Text × CheckResult))
    → map entry_index_of (decisions_from i checked) ≡ range_from i (length checked)
unfolding range_from
indexes_from i [] = refl
indexes_from i ((mutant_id, result) ∷ checked) =
    ap₂ (λ j js. j ∷ js) (entry_index_of-decide mutant_id result i) (indexes_from (suc i) checked)

-- The decisions give the checker's answers back, in their order and with their reasons, and the
-- entry indexes count from zero.
pub partition_checked_plans-answers :
    (checked : List (Text × CheckResult))
    → (map answer_of (partition_checked_plans checked) ≡ checked)
      × (map entry_index_of (partition_checked_plans checked) ≡ range_from 0 (length checked))
unfolding partition_checked_plans
partition_checked_plans-answers checked = (answers_from 0 checked, indexes_from 0 checked)
