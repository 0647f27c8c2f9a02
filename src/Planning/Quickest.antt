-- ===== src/Planning/Quickest.antt =====
-- The order in which the tests of a mutant run.
use stryker_js_effect.Prelude.{
  ℕ, ltb, Text, true, false, not, ◌&&◌, ◌||◌, List, map, sort_by, sort_by-perm, sort_by-Ordered,
  Ordered-Consecutive, Consecutive, Bool-cases, inl, inr, ◌⊎◌, ◌≤◌, All, get_elem?, length, ◌++◌,
  [], ◌∷◌, some, Option, append_assoc, subst, suc, ap, sort_by-All, ◌≡◌, refl, arith,
}
use mathlib.Core.List.{Perm}
use stryker_js_effect.Numbers.{Numbers}
use stryker_js_effect.Planning.Command.{MutantTestPlanCommand, TestEntry}
use stryker_js_effect.Planning.Runs.{with_killer, prior_killer_of, is_killer, time_of_test_of}
use stryker_js_effect.Planning.Decide.{
  entries_from, comes_before, without_killer, rest_of, ordered_tests_of,
}

get_elem?-middle :
    (front : List Text) (t : Text) (tests : List Text)
    → get_elem? (front ++ t ∷ tests) (length front) ≡ some t
get_elem?-middle [] t tests = refl
get_elem?-middle (x ∷ front) t tests = get_elem?-middle front t tests

length-snoc : (front : List Text) (t : Text) → length (front ++ t ∷ []) ≡ suc (length front)
length-snoc [] t = refl
length-snoc (x ∷ front) t = ap suc (length-snoc front t)

module _ (numbers : Numbers) where
  open numbers use {Number, less, less_asym}

  ranks-asym :
      (s t : Number) (i j : ℕ)
      → (less s t || not (less t s) && ltb i j) ≡ true
      → (less t s || not (less s t) && ltb j i) ≡ false
  ranks-asym s t i j h = ground (arith, less_asym s t, less_asym t s)

  -- The first takes less time, or the second takes no less and its place is not earlier.
  abbrev pub RunsNoLater : TestEntry numbers → TestEntry numbers → Type 0
  RunsNoLater x y =
      (less x.time y.time ≡ true) ⊎ ((less y.time x.time ≡ false) × (x.index ≤ y.index))

  ranks-RunsNoLater :
      (s t : Number) (i j : ℕ)
      → (less t s || not (less s t) && ltb j i) ≡ false
      → (less s t ≡ true) ⊎ ((less t s ≡ false) × (i ≤ j))
  ranks-RunsNoLater s t i j h = elim (Bool-cases (less s t)) [
    | inl y ↦ inl y
    | inr n ↦ let h' = rw n at h in inr (ground arith, ground arith)
  ]

  -- The entry is of the test at that place, with the time of that test.
  abbrev pub IsTestAt : MutantTestPlanCommand numbers → List Text → TestEntry numbers → Type 0
  IsTestAt command tests entry =
      (get_elem? tests entry.index ≡ some entry.test_id)
      × (entry.time ≡ time_of_test_of numbers command entry.test_id)

  module _ (command : MutantTestPlanCommand numbers) where
    entries_from-IsTestAt :
        (front tests : List Text)
        → All
            (IsTestAt command (front ++ tests))
            (entries_from numbers (length front) command tests)
    entries_from-IsTestAt front [] = tt
    entries_from-IsTestAt front (t ∷ tests) =
        let next = entries_from-IsTestAt (front ++ t ∷ []) tests in
        (
          (get_elem?-middle front t tests, refl),
          subst
              (λ n.
                All (IsTestAt command (front ++ t ∷ tests)) (entries_from numbers n command tests))
              (length-snoc front t)
              (subst
                (λ ts.
                  All (IsTestAt command ts)
                    (entries_from numbers (length (front ++ t ∷ [])) command tests))
                (append_assoc front (t ∷ []) tests) next),
        )

    without_killer-IsTestAt :
        (killer : Option Text) (tests : List Text) (entries : List (TestEntry numbers))
        → All (IsTestAt command tests) entries
        → All (IsTestAt command tests) (without_killer numbers killer entries)
    without_killer-IsTestAt killer tests [] h = tt
    without_killer-IsTestAt killer tests (entry ∷ entries) h =
        elim (Bool-cases (is_killer killer entry.test_id)) [
          | inl y ↦ rw y (without_killer-IsTestAt killer tests entries h.1)
          | inr n ↦ rw n (h.0, without_killer-IsTestAt killer tests entries h.1)
        ]

  -- The tests of a mutant are its prior killer, where there is one, and then all other tests, each
  -- as often as it came. Of two neighbours among these the first takes less time, or the second
  -- takes no less and does not come earlier in `tests`. The places and times by which they are
  -- compared are those of the tests.
  pub ordered_tests_of-Ordered :
      (command : MutantTestPlanCommand numbers) (mutant_id : Text) (tests : List Text)
      → let killer = prior_killer_of numbers command mutant_id tests in
        (entries : List (TestEntry numbers)) × (ordered_tests_of numbers command mutant_id tests
          ≡ with_killer killer (map (λ entry. entry.test_id) entries))
        × Consecutive RunsNoLater entries
        × All (IsTestAt command tests) entries
        × Perm entries (without_killer numbers killer (entries_from numbers 0 command tests))
  unfolding ordered_tests_of rest_of
  ordered_tests_of-Ordered command mutant_id tests =
      let before = comes_before numbers in
      let killer = prior_killer_of numbers command mutant_id tests in
      let entries = without_killer numbers killer (entries_from numbers 0 command tests) in
      (
        sort_by before entries,
        refl,
        Ordered-Consecutive before RunsNoLater (sort_by before entries)
            (λ x y. ranks-RunsNoLater x.time y.time x.index y.index)
            (sort_by-Ordered before (λ x y. ranks-asym x.time y.time x.index y.index) entries),
        sort_by-All before (IsTestAt command tests) entries (
            without_killer-IsTestAt command killer tests (entries_from numbers 0 command tests)
              (entries_from-IsTestAt command [] tests)),
        sort_by-perm before entries,
      )
