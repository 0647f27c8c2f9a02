-- ===== src/Planning/Filter.antt =====
-- The tests that run against a covered mutant.
use stryker_js_effect.Prelude.{
  insert_by, sort_by, ℕ, suc, Text, text_eq, text_beq, text_beq_iff, ◌==◌, lookup, get_or_else,
  contains, find_first, is_empty, Bool, true, false, not, ◌&&◌, ◌||◌, Option, none, some,
  Bool-cases, List, [], ◌∷◌, map, succeed, ◌≡◌, refl, ap, sym, ◌∙◌, subst, ==_refl, inl, inr, arith,
  true≢false,
}
use stryker_js_effect.Numbers.{Numbers}
use stryker_js_effect.Mutant.{Mutant}
use stryker_js_effect.Incremental.{is_present}
use stryker_js_effect.Planning.Command.{
  MutantTestPlanCommand, PlannedRunMutant, MutantPlan, planned_run, at_runtime, TestEntry,
}
use stryker_js_effect.Planning.Runs.{
  killers_of, is_killer, with_killer, non_empty, prior_killer_of, mutant_is_static, to_run_plan,
  mutant_timeout_of, run_plan_of, calculate_total_time_for_ids,
}
use stryker_js_effect.Planning.Decide.{
  entries_from, comes_before, covered_by_tests, without_killer, rest_of, ordered_tests_of,
  covering_test_ids_of, decide_plan_for_mutant, plan_of_open_mutant,
  is_per_test_uncovered_non_static, mutant_is_covered, plan_for_statically_covered,
  run_with_covered_tests,
}

find_first-holds {ℓ} :
    {A : Type ℓ} (p : A → Bool) (xs : List A) (x : A) → find_first p xs ≡ some x → p x ≡ true
find_first-holds p [] x h = cc
find_first-holds p (y ∷ xs) x h = elim (Bool-cases (p y)) [
  | inl t ↦ let e : y ≡ x = cc (simp t at h) in subst (λ z. p z ≡ true) e t
  | inr f ↦ find_first-holds p xs x (simp f at h)
]

module _ (numbers : Numbers) where
  abbrev test_ids : List (TestEntry numbers) → List Text
  test_ids entries = map (λ entry. entry.test_id) entries

  contains-insert_by :
      (t : Text) (e : TestEntry numbers) (es : List (TestEntry numbers))
      → contains t (test_ids (insert_by (comes_before numbers) e es))
        ≡ (e.test_id == t || contains t (test_ids es))
  contains-insert_by t e [] = refl
  contains-insert_by t e (x ∷ es) = elim (Bool-cases (comes_before numbers x e)) [
    | inl b ↦ rw b (ground (arith, contains-insert_by t e es))
    | inr n ↦ rw n refl
  ]

  contains-sort_by :
      (t : Text) (es : List (TestEntry numbers))
      → contains t (test_ids (sort_by (comes_before numbers) es)) ≡ contains t (test_ids es)
  unfolding sort_by
  contains-sort_by t [] = refl
  contains-sort_by t (e ∷ es) =
      contains-insert_by t e (sort_by (comes_before numbers) es)
      ∙ ap (λ b. e.test_id == t || b) (contains-sort_by t es)

  contains-without_killer :
      (t : Text) (killer : Option Text) (es : List (TestEntry numbers))
      → contains t (test_ids (without_killer numbers killer es))
        ≡ (contains t (test_ids es) && not (is_killer killer t))
  contains-without_killer t none [] = refl
  contains-without_killer t (some k) [] = refl
  contains-without_killer t none (e ∷ es) = ground (arith, contains-without_killer t none es)
  contains-without_killer t (some k) (e ∷ es) = ground (
    arith,
    text_beq_iff e.test_id k,
    text_beq_iff t k,
    text_beq_iff e.test_id t,
    contains-without_killer t (some k) es,
  )

  test_ids-entries_from :
      (i : ℕ) (command : MutantTestPlanCommand numbers) (tests : List Text)
      → test_ids (entries_from numbers i command tests) ≡ tests
  test_ids-entries_from i command [] = refl
  test_ids-entries_from i command (t ∷ tests) =
      ap (λ ts. t ∷ ts) (test_ids-entries_from (suc i) command tests)

  contains-rest_of :
      (t : Text) (command : MutantTestPlanCommand numbers) (killer : Option Text)
      (tests : List Text)
      → contains t (rest_of numbers command killer tests)
        ≡ (contains t tests && not (is_killer killer t))
  unfolding rest_of
  contains-rest_of t command killer tests =
      let es = entries_from numbers 0 command tests in
      contains-sort_by t (without_killer numbers killer es)
      ∙ contains-without_killer t killer es
      ∙ ap (λ ts. contains t ts && not (is_killer killer t)) (test_ids-entries_from 0 command tests)

  killer-contained :
      (t : Text) (command : MutantTestPlanCommand numbers) (killer : Option Text)
      (tests : List Text)
      → ((k : Text) → killer ≡ some k → contains k tests ≡ true)
      → contains t (with_killer killer (rest_of numbers command killer tests)) ≡ contains t tests
  killer-contained t command none tests _ = contains-rest_of t command none tests ∙ ground arith
  killer-contained t command (some k) tests h = elim (Bool-cases (text_beq k t)) [
    | inl same ↦
        let e : k ≡ t = (text_beq_iff k t).0 same in
        rw same (sym (subst (λ x. contains x tests ≡ true) e (h k refl)))
    | inr other ↦ rw other (
        contains-rest_of t command (some k) tests
        ∙ ground (arith, text_beq_iff k t, text_beq_iff t k))
  ]

  -- The ordered tests hold exactly the tests they are made of, whatever killer comes first.
  pub contains-ordered_tests_of :
      (command : MutantTestPlanCommand numbers) (mutant_id : Text) (tests : List Text) (t : Text)
      → contains t (ordered_tests_of numbers command mutant_id tests) ≡ contains t tests
  unfolding ordered_tests_of prior_killer_of
  contains-ordered_tests_of command mutant_id tests t =
      killer-contained t command (prior_killer_of numbers command mutant_id tests) tests (λ k h.
        find_first-holds (λ killer. contains killer tests)
          (killers_of command.prior_killed_by_by_mutant_id mutant_id) k h)

  covering-lookup :
      (o : Option (List Text)) (is_static : Bool)
      → is_empty (get_or_else o []) ≡ false
      → covered_by_tests numbers o is_static ≡ true
  covering-lookup none s h = absurd (true≢false h)
  covering-lookup (some []) s h = absurd (true≢false h)
  covering-lookup (some (t ∷ tests)) s h = refl

  nonempty_ordered :
      (command : MutantTestPlanCommand numbers) (mutant_id : Text) (tests ordered : List Text)
      → is_empty tests ≡ false
      → ((t : Text) → contains t ordered ≡ contains t tests)
      → non_empty ordered ≡ some ordered
  nonempty_ordered command mutant_id [] ordered h c = absurd (true≢false h)
  nonempty_ordered command mutant_id (t ∷ tests) [] h c =
      absurd (true≢false (sym (c t ∙ ap (λ b. b || contains t tests) (==_refl t))))
  nonempty_ordered command mutant_id (t ∷ tests) (o ∷ ordered) h c = refl

  not_uncovered :
      (command : MutantTestPlanCommand numbers) (mutant : Mutant) (is_static : Bool)
      → mutant_is_covered numbers command mutant.id ≡ true
      → is_per_test_uncovered_non_static numbers command mutant is_static ≡ false
  unfolding is_per_test_uncovered_non_static
  not_uncovered command mutant is_static h = ground arith

  decide-run :
      (mutant : Mutant) (command : MutantTestPlanCommand numbers)
      → let tests = covering_test_ids_of numbers command mutant.id in
        let ordered = ordered_tests_of numbers command mutant.id tests in
        mutant.status ≡ none
        → is_present command.static_coverage ≡ true
        → mutant_is_static numbers command mutant.id ≡ false
        → is_empty tests ≡ false
        → non_empty ordered ≡ some ordered
        → decide_plan_for_mutant numbers mutant command
          ≡ to_run_plan numbers mutant command
              (calculate_total_time_for_ids numbers command tests)
              (some ordered)
              (some false)
              (some tests)
  unfolding decide_plan_for_mutant plan_of_open_mutant mutant_is_covered plan_for_statically_covered
      run_with_covered_tests covering_test_ids_of
  decide-run mutant command fresh present dynamic covers filled =
      let covered = not_uncovered command mutant false (
        covering-lookup (lookup mutant.id command.tests_by_mutant_id)
          (mutant_is_static numbers command mutant.id) covers) in
      simp (fresh, dynamic, covered, present, filled)

  -- A mutant without a status that is not static and that some tests cover, where coverage was
  -- recorded: if its plan succeeds, it is a run, at run time and without reloading the environment,
  -- its filter has exactly the covering tests, and its net time is the sum of their times.
  pub decide_plan_for_mutant-Filters :
      (mutant : Mutant) (command : MutantTestPlanCommand numbers) (p : MutantPlan numbers)
      → mutant.status ≡ none
      → is_present command.static_coverage ≡ true
      → mutant_is_static numbers command mutant.id ≡ false
      → is_empty (covering_test_ids_of numbers command mutant.id) ≡ false
      → decide_plan_for_mutant numbers mutant command ≡ succeed p
      → (r : PlannedRunMutant numbers) × (filter : List Text) × (p ≡ planned_run r)
        × (r.run_options.test_filter ≡ some filter)
        × ((t : Text)
            → contains t filter ≡ contains t (covering_test_ids_of numbers command mutant.id))
        × (r.net_time
            ≡ calculate_total_time_for_ids numbers command
                (covering_test_ids_of numbers command mutant.id))
        × (r.run_options.mutant_activation ≡ at_runtime)
        × (r.run_options.reload_environment ≡ false)
  unfolding to_run_plan run_plan_of
  decide_plan_for_mutant-Filters mutant command p fresh present dynamic covers h =
      let tests = covering_test_ids_of numbers command mutant.id in
      let ordered = ordered_tests_of numbers command mutant.id tests in
      let same = contains-ordered_tests_of command mutant.id tests in
      let filled = nonempty_ordered command mutant.id tests ordered covers same in
      let net_time = calculate_total_time_for_ids numbers command tests in
      let timeout = mutant_timeout_of numbers command net_time in
      let run =
        run_plan_of numbers mutant command timeout net_time (some ordered) (some false)
          (some tests) in
      let q : to_run_plan numbers mutant command net_time (some ordered) (some false) (some tests)
          ≡ succeed p =
        sym (decide-run mutant command fresh present dynamic covers filled) ∙ h in
      elim (Bool-cases (numbers.is_finite timeout)) [
        | inl f ↦
            let e : planned_run run ≡ p = cc (simp f at q) in
            (run, ordered, sym e, refl, same, refl, refl, refl)
        | inr n ↦ absurd (cc (simp n at q))
      ]
