-- ===== src/Planning/Missing.antt =====
-- plan-mutant-tests.workflow.ts: which mutants miss a hit count.
use mathlib.Core.List.Memᴰ
use stryker_js_effect.Prelude.{
  Text, lookup, is_empty, filter, Bool, true, false, not, ◌&&◌, Bool-cases, none, List, [], ◌∷◌,
  map, ◌≡◌, ◌↔◌, refl, sym, ◌∙◌, ap, subst, Memᴰ-cons, inl, inr, Memᴰ, arith,
}
use stryker_js_effect.Numbers.{Numbers}
use stryker_js_effect.Mutant.{Mutant}
use stryker_js_effect.Incremental.{is_present}
use stryker_js_effect.Planning.Command.{MutantTestPlanCommand}
use stryker_js_effect.Planning.Runs.{mutant_is_static}
use stryker_js_effect.Planning.Decide.{
  covering_test_ids_of, mutant_is_covered, hit_count_required_and_absent, missing_hit_count_ids,
}

-- The images of the elements that a test keeps.
Memᴰ-map-filter {ℓ κ} :
    {A : Type ℓ} {B : Type κ} (f : A → B) (p : A → Bool) (xs : List A) (b : B)
    → Memᴰ b (map f (filter p xs))
    → (a : A) × Memᴰ a xs × (f a ≡ b) × (p a ≡ true)
Memᴰ-map-filter f p [] b m = absurd (Memᴰ.not-nil m)
Memᴰ-map-filter f p (x ∷ xs) b m = elim (Bool-cases (p x)) [
  | inr n ↦ let (a, k, e, h) = Memᴰ-map-filter f p xs b (rw n at m) in (a, Memᴰ.tail k, e, h)
  | inl y ↦ elim ((Memᴰ-cons b (f x) (map f (filter p xs))).0 (rw y at m)) [
    | inl e ↦ (x, Memᴰ.head refl, sym e, y)
    | inr k ↦ let (a, k', e, h) = Memᴰ-map-filter f p xs b k in (a, Memᴰ.tail k', e, h)
  ]
]

map-filter-Memᴰ {ℓ κ} :
    {A : Type ℓ} {B : Type κ} (f : A → B) (p : A → Bool) (xs : List A) {a : A}
    → Memᴰ a xs
    → p a ≡ true
    → Memᴰ (f a) (map f (filter p xs))
map-filter-Memᴰ f p [] m h = absurd (Memᴰ.not-nil m)
map-filter-Memᴰ f p (x ∷ xs) {a} m h = elim ((Memᴰ-cons a x xs).0 m) [
  | inl e ↦ rw (ap p (sym e) ∙ h) (Memᴰ.head (ap f e))
  | inr k ↦ elim (Bool-cases (p x)) [
    | inl y ↦ rw y (Memᴰ.tail (map-filter-Memᴰ f p xs k h))
    | inr n ↦ rw n (map-filter-Memᴰ f p xs k h)
  ]
]

module _ (numbers : Numbers) (command : MutantTestPlanCommand numbers) where
  -- The mutant has no status yet, a test covers it or it is static, there is static coverage, and
  -- no hit count of it is known.
  abbrev pub LacksHitCount : Mutant → Type 0
  LacksHitCount m =
      (m.status ≡ none)
      × ((is_empty (covering_test_ids_of numbers command m.id)
            && not (mutant_is_static numbers command m.id))
          ≡ false)
      × (is_present command.static_coverage ≡ true)
      × (lookup m.id command.hits_by_mutant_id ≡ none)

  lacks_iff :
      (m : Mutant)
      → ((not (is_present m.status) && hit_count_required_and_absent numbers command m) ≡ true)
        ↔ LacksHitCount m
  unfolding hit_count_required_and_absent mutant_is_covered covering_test_ids_of
  lacks_iff m = ground arith

  -- An id is missing exactly where a mutant of the command with this id lacks its hit count.
  pub missing_hit_count_ids_iff :
      (id : Text)
      → Memᴰ id (missing_hit_count_ids numbers command)
        ↔ ((m : Mutant) × Memᴰ m command.mutants × (m.id ≡ id) × LacksHitCount m)
  unfolding missing_hit_count_ids
  missing_hit_count_ids_iff id =
      let lacks : Mutant → Bool =
        λ m. not (is_present m.status) && hit_count_required_and_absent numbers command m in
      (
        λ k.
            let (m, at, e, h) = Memᴰ-map-filter (λ m. m.id) lacks command.mutants id k in
            (m, at, e, (lacks_iff m).0 h),
        λ (m, at, e, h).
            subst (λ t. Memᴰ t (map (λ m. m.id) (filter lacks command.mutants))) e
              (map-filter-Memᴰ (λ m. m.id) lacks command.mutants at ((lacks_iff m).1 h)),
      )
