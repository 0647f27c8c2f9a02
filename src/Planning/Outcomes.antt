-- ===== src/Planning/Outcomes.antt =====
-- What the planning of one mutant, and of several, comes to.
use stryker_js_effect.Prelude.{
  Text, is_empty, Bool, true, false, not, ◌&&◌, Option, none, some, Option-cases, Bool-cases, List,
  [], ◌∷◌, ◌++◌, foldl, if◌then◌else◌, fail, succeed, Result-cases, ◌≡◌, ◌⊎◌, refl, sym, ◌∙◌, subst,
  inl, inr, append-nil, append_assoc, Result, Memᴰ,
}
use stryker_js_effect.Numbers.{Numbers}
use stryker_js_effect.Mutant.{ignored, Mutant}
use stryker_js_effect.Planning.Command.{
  MutantTestPlanError, mutant_timeout_not_finite, MutantTestPlanCommand, MutantPlan, planned_run,
  planned_early_result,
}
use stryker_js_effect.Planning.Runs.{
  floored_timeout_of, mutant_timeout_of, run_plan_of, to_run_plan, to_early_result_plan,
  calculate_total_time_for_ids,
}
use stryker_js_effect.Planning.Decide.{
  decide_plan_for_mutant, plan_of_open_mutant, plan_for_statically_covered,
  plan_for_uncovered_static, run_with_covered_tests, to_no_coverage_run_plan, planned_step,
  is_per_test_uncovered_non_static, covering_test_ids_of,
}
use stryker_js_effect.Incremental.{is_present}

-- The two lists are as long, and the relation holds at each place.
abbrev pub AllPairs {ℓ κ} : {A : Type ℓ} {B : Type κ} → (A → B → Type 0) → List A → List B → Type 0
AllPairs R [] [] = Unit
AllPairs R (x ∷ xs) (y ∷ ys) = R x y × AllPairs R xs ys
AllPairs R _ _ = ⊥

module _ (numbers : Numbers) (command : MutantTestPlanCommand numbers) where
  open numbers use {Number, of_ℕ, less, is_finite, less_irrefl}

  -- A run is of an open mutant, with a finite timeout that is not below 100 ms; an early result
  -- has the status that the mutant came with, or is the `Ignored` of an open mutant under the
  -- option `ignoreStatic`.
  abbrev pub Planned : Mutant → MutantPlan numbers → Type 0
  Planned mutant (planned_run r) =
      (r.mutant_id ≡ mutant.id)
      × (mutant.status ≡ none)
      × (is_finite r.run_options.timeout ≡ true)
      × (less r.run_options.timeout (of_ℕ 100) ≡ false)
  Planned mutant (planned_early_result r) =
      (r.mutant_id ≡ mutant.id)
      × ((mutant.status ≡ some r.status)
          ⊎ ((mutant.status ≡ none)
              × (r.status ≡ ignored)
              × (command.options.ignore_static ≡ true)))

  floored_lem : (t : Number) → less (floored_timeout_of numbers t) (of_ℕ 100) ≡ false
  unfolding floored_timeout_of
  floored_lem t = elim (Bool-cases (less t (of_ℕ 100))) [
    | inl l ↦ rw l (less_irrefl (of_ℕ 100))
    | inr n ↦ rw n n
  ]

  -- A net time that a run of the mutant can have: zero, that of all tests, or that of the tests that
  -- cover it.
  abbrev pub IsNetTimeOf : Mutant → Number → Type 0
  IsNetTimeOf mutant t =
      (t ≡ of_ℕ 0)
      ⊎ (t ≡ command.time_spent_all_tests)
      ⊎ (t
          ≡ calculate_total_time_for_ids numbers command
              (covering_test_ids_of numbers command mutant.id))

  -- The mutant has no status, and the timeout that follows from such a net time is not finite.
  abbrev pub TakesForever : Mutant → Type 0
  TakesForever mutant =
      (mutant.status ≡ none)
      × ((net_time : Number) × IsNetTimeOf mutant net_time
          × (is_finite (mutant_timeout_of numbers command net_time) ≡ false))

  -- A plan that is right, or the error that the timeout of an open mutant is not finite.
  abbrev Outcome : Mutant → Result MutantTestPlanError (MutantPlan numbers) → Type 0
  Outcome mutant (succeed p) = Planned mutant p
  Outcome mutant (fail e) = TakesForever mutant × (e ≡ mutant_timeout_not_finite mutant.id)

  to_run_plan-Outcome :
      (mutant : Mutant) (net_time : Number) (filter covered_by : Option (List Text))
      (static : Option Bool)
      → mutant.status ≡ none
      → IsNetTimeOf mutant net_time
      → Outcome mutant (to_run_plan numbers mutant command net_time filter static covered_by)
  unfolding to_run_plan mutant_timeout_of run_plan_of
  to_run_plan-Outcome mutant net_time filter covered_by static fresh known =
      elim (Bool-cases (is_finite (mutant_timeout_of numbers command net_time))) [
        | inl f ↦ rw f (refl, fresh, f, floored_lem _)
        | inr n ↦ rw n ((fresh, (net_time, known, n)), refl)
      ]

  uncovered_static-Outcome :
      (mutant : Mutant) (static : Bool) (covered_by : List Text)
      → mutant.status ≡ none
      → Outcome mutant (plan_for_uncovered_static numbers mutant command static covered_by)
  unfolding plan_for_uncovered_static to_early_result_plan
  uncovered_static-Outcome mutant static covered_by fresh =
      elim (Bool-cases command.options.ignore_static) [
        | inl i ↦ simp i (refl, inr (fresh, refl, refl))
        | inr n ↦ simp n (to_run_plan-Outcome mutant _ _ _ _ fresh (inr (inl refl)))
      ]

  statically_covered-Outcome :
      (mutant : Mutant) (static : Bool)
      → mutant.status ≡ none
      → Outcome mutant (plan_for_statically_covered numbers mutant command static)
  unfolding plan_for_statically_covered run_with_covered_tests
  statically_covered-Outcome mutant static fresh =
      let tests = covering_test_ids_of numbers command mutant.id in
      let useful = if static then command.options.ignore_static && not (is_empty tests) else true in
      elim (Bool-cases useful) [
        | inl u ↦ rw u (to_run_plan-Outcome mutant _ _ _ _ fresh (inr (inr refl)))
        | inr n ↦ rw n (uncovered_static-Outcome mutant static tests fresh)
      ]

  open_mutant-Outcome :
      (mutant : Mutant) (static : Bool)
      → mutant.status ≡ none
      → Outcome mutant (plan_of_open_mutant numbers mutant command static)
  unfolding plan_of_open_mutant to_no_coverage_run_plan
  open_mutant-Outcome mutant static fresh =
      elim (Bool-cases (is_per_test_uncovered_non_static numbers command mutant static)) [
        | inl u ↦ rw u (to_run_plan-Outcome mutant _ _ _ _ fresh (inl refl))
        | inr n ↦ rw n (elim (Bool-cases (is_present command.static_coverage)) [
          | inl c ↦ rw c (statically_covered-Outcome mutant static fresh)
          | inr c ↦ rw c (to_run_plan-Outcome mutant _ _ _ _ fresh (inr (inl refl)))
        ])
      ]

  decide_plan-Outcome :
      (mutant : Mutant) → Outcome mutant (decide_plan_for_mutant numbers mutant command)
  unfolding decide_plan_for_mutant to_early_result_plan
  decide_plan-Outcome mutant = elim (Option-cases mutant.status) [
    | inl e ↦ simp e (open_mutant-Outcome mutant _ e)
    | inr (s, e) ↦ simp e (refl, inl refl)
  ]

  -- Of the planning of the mutants `ms` after the plans `so_far`.
  abbrev pub Outcomes :
      List (MutantPlan numbers)
      → List Mutant
      → Result MutantTestPlanError (List (MutantPlan numbers))
      → Type 0
  Outcomes so_far ms (succeed plans) =
      (new : List (MutantPlan numbers)) × (plans ≡ so_far ++ new) × AllPairs Planned ms new
  Outcomes so_far ms (fail e) =
      (m : Mutant) × Memᴰ m ms × TakesForever m × (e ≡ mutant_timeout_not_finite m.id)

  foldl-fail :
      (e : MutantTestPlanError) (ms : List Mutant)
      → foldl (planned_step numbers command) (fail e) ms ≡ fail e
  foldl-fail e [] = refl
  foldl-fail e (m ∷ ms) = foldl-fail e ms

  extended :
      (so_far : List (MutantPlan numbers)) (p : MutantPlan numbers) (m : Mutant) (ms : List Mutant)
      (r : Result MutantTestPlanError (List (MutantPlan numbers)))
      → Planned m p
      → Outcomes (so_far ++ p ∷ []) ms r
      → Outcomes so_far (m ∷ ms) r
  extended so_far p m ms (succeed plans) ok (new, e, all) =
      (p ∷ new, e ∙ append_assoc so_far (p ∷ []) new, (ok, all))
  extended so_far p m ms (fail e) ok (x, at, fresh, why) = (x, Memᴰ.tail at, fresh, why)

  pub foldl-Outcomes :
      (so_far : List (MutantPlan numbers)) (ms : List Mutant)
      → Outcomes so_far ms (foldl (planned_step numbers command) (succeed so_far) ms)
  foldl-Outcomes so_far [] = ([], sym (append-nil so_far), tt)
  foldl-Outcomes so_far (m ∷ ms) = elim (Result-cases (decide_plan_for_mutant numbers m command)) [
    | inl (e, f) ↦
        let (fresh, why) = subst (Outcome m) f (decide_plan-Outcome m) in
        rw (f, foldl-fail e ms) (m, Memᴰ.head refl, fresh, why)
    | inr (p, f) ↦ rw f (
        extended so_far p m ms _ (subst (Outcome m) f (decide_plan-Outcome m))
          (foldl-Outcomes (so_far ++ p ∷ []) ms))
  ]
