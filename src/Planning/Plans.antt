-- ===== src/Planning/Plans.antt =====
-- What holds of each plan, and when the planning fails.
use mathlib.Core.List.Memᴰ
use stryker_js_effect.Prelude.{
  Text, is_empty, false, List, [], ◌∷◌, fail, succeed, ◌≡◌, refl, sym, subst, Memᴰ, ◌↔◌,
}
use stryker_js_effect.Numbers.{Numbers}
use stryker_js_effect.Mutant.{Mutant}
use stryker_js_effect.Planning.Command.{
  MutantTestPlanError, covered_mutant_hit_count_missing, mutant_timeout_not_finite,
  MutantTestPlanCommand, MutantPlan,
}
use stryker_js_effect.Planning.Missing.{LacksHitCount, missing_hit_count_ids_iff}
use stryker_js_effect.Planning.Decide.{
  planned_mutants_of, missing_hit_count_ids, unless_missing, plan_mutant_tests,
}
use stryker_js_effect.Planning.Outcomes.{AllPairs, Planned, TakesForever, Outcomes, foldl-Outcomes}

module _ (numbers : Numbers) (command : MutantTestPlanCommand numbers) where
  -- Where the planning succeeds there is one plan for each mutant, in the same order and with its
  -- id. A run is of a mutant without a status, with a finite timeout that is not below 100 ms. An
  -- early result keeps the status that the mutant came with, or is `Ignored` for a mutant without
  -- one where the option `ignoreStatic` is on.
  pub plan_mutant_tests-Planned :
      (plans : List (MutantPlan numbers))
      → plan_mutant_tests numbers command ≡ succeed plans
      → AllPairs (Planned numbers command) command.mutants plans
  unfolding plan_mutant_tests planned_mutants_of
  plan_mutant_tests-Planned plans h = found (missing_hit_count_ids numbers command) h
    where
      found :
          (ids : List Text)
          → unless_missing numbers ids (planned_mutants_of numbers command) ≡ succeed plans
          → AllPairs (Planned numbers command) command.mutants plans
      found [] q =
          let (new, e, all) =
            subst (Outcomes numbers command [] command.mutants) q
              (foldl-Outcomes numbers command [] command.mutants) in
          subst (AllPairs (Planned numbers command) command.mutants) (sym e) all
      found (i ∷ ids) q = absurd (cc q)

  -- What is true of the command when the planning fails with this error.
  abbrev pub FailsFor : MutantTestPlanError → Type 0
  FailsFor (covered_mutant_hit_count_missing ids) =
      (is_empty ids ≡ false)
      × ((id : Text)
          → Memᴰ id ids ↔ (
              (m : Mutant) × Memᴰ m command.mutants
              × (m.id ≡ id)
              × LacksHitCount numbers command m))
  FailsFor (mutant_timeout_not_finite id) =
      ¬ ((x : Mutant) × Memᴰ x command.mutants × LacksHitCount numbers command x)
      × ((m : Mutant) × Memᴰ m command.mutants × (m.id ≡ id) × TakesForever numbers command m)

  -- Where the planning fails, either mutants lack a hit count, and the ids that the error names are
  -- exactly the ids of these mutants, at least one; or none lacks it, and the error names the id of
  -- a mutant of the command without a status whose timeout, computed from zero, from the time of all
  -- tests or from the time of its covering tests, is not finite. A mutant lacks a hit count if it
  -- has no status, is covered by a test or static, there is static coverage, and no hit count of it
  -- is known.
  pub plan_mutant_tests-fails :
      (error : MutantTestPlanError)
      → plan_mutant_tests numbers command ≡ fail error
      → FailsFor error
  unfolding plan_mutant_tests planned_mutants_of
  plan_mutant_tests-fails error h = found (missing_hit_count_ids numbers command) refl h
    where
      found :
          (ids : List Text)
          → missing_hit_count_ids numbers command ≡ ids
          → unless_missing numbers ids (planned_mutants_of numbers command) ≡ fail error
          → FailsFor error
      found [] e q =
          let (m, at, slow, why) =
            subst (Outcomes numbers command [] command.mutants) q
              (foldl-Outcomes numbers command [] command.mutants) in
          subst FailsFor (sym why) (
            λ (x, there, lacks). Memᴰ.not-nil (
                subst (Memᴰ x.id) e
                  ((missing_hit_count_ids_iff numbers command x.id).1 (x, there, refl, lacks))),
            (m, at, refl, slow),
          )
      found (i ∷ ids) e q =
          let why : covered_mutant_hit_count_missing (i ∷ ids) ≡ error = cc q in
          subst FailsFor why (
            refl,
            λ id.
                subst
                  (λ xs. Memᴰ id xs ↔ (
                    (m : Mutant) × Memᴰ m command.mutants
                    × (m.id ≡ id)
                    × LacksHitCount numbers command m))
                  e (missing_hit_count_ids_iff numbers command id),
          )
