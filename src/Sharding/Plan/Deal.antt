-- ===== src/Sharding/Plan/Deal.antt =====
-- What dealing out does to the mutants that the shards hold.
use stryker_js_effect.Prelude.{
  ℕ, zero, suc, ◌+◌, ◌≤◌, ◌<◌, Text, text_eq, ◌==◌, Bool, Bool-cases, Option, none, some, Dict,
  lookup, insert, lookup-insert, get_or_else, List, [], ◌∷◌, length, All, All-imp, All-map,
  All-take, All-sort_by, count_of, count_of-append, sum_of, ◌≡◌, refl, ◌∙◌, subst, sym, inl, inr,
  arith,
}
use stryker_js_effect.Sharding.Plan.{
  CostNumbers, PlannedMutant, DependentProject, least_of, dry_run_bins_needed_of,
}
use stryker_js_effect.Sharding.Plan.Bins.{
  indices_of, indices_from, Bin, empty_bins, reserved_bins, reserved_bin, least_loaded_of,
  best_from, first_of, least_loaded_indices_of, load_at, loaded_before, LoadedBin,
}
use stryker_js_effect.Sharding.Plan.Place.{
  Reserved, reserve_all, reserve_for, PlacementGroup, take_in, with_group_in, place_dependents,
  place_rest, indices_for,
}
use stryker_js_effect.Sharding.Plan.Count.{length-update_at, length-reserved_bins}

indices_from-bounds : (s n : ℕ) → All (λ i. i < s + n) (indices_from s n)
indices_from-bounds s zero = tt
indices_from-bounds s (suc n) = (
  omega arith,
  All-imp _ _ (indices_from (suc s) n) (λ i h. omega arith) (indices_from-bounds (suc s) n),
)

pub indices_of-bounds : (n : ℕ) → All (λ i. i < n) (indices_of n)
indices_of-bounds n = All-imp _ _ (indices_of n) (λ i h. omega arith) (indices_from-bounds 0 n)

first_of-lt : (n : ℕ) (indices : List ℕ) → 1 ≤ n → All (λ i. i < n) indices → first_of indices < n
first_of-lt n [] p h = p
first_of-lt n (i ∷ indices) p h = h.0

module _ (costs : CostNumbers) where
  open costs use {numbers}
  open numbers use {Number, less}

  best_from-lt :
      (n : ℕ) (bins : List (Bin costs)) (best : ℕ) (indices : List ℕ)
      → best < n
      → All (λ i. i < n) indices
      → best_from costs bins best indices < n
  best_from-lt n bins best [] b h = b
  best_from-lt n bins best (i ∷ indices) b h =
      elim (Bool-cases (less (load_at costs bins i) (load_at costs bins best))) [
        | inl y ↦ rw y (best_from-lt n bins i indices h.0 h.1)
        | inr o ↦ rw o (best_from-lt n bins best indices b h.1)
      ]

  pub least_loaded_of-lt :
      (n : ℕ) (bins : List (Bin costs)) (indices : List ℕ)
      → 1 ≤ n
      → All (λ i. i < n) indices
      → least_loaded_of costs bins indices < n
  unfolding least_loaded_of
  least_loaded_of-lt n bins indices p h =
      best_from-lt n bins (first_of indices) indices (first_of-lt n indices p h) h

  least_loaded_indices_of-bounds :
      (bins : List (Bin costs)) (count : ℕ)
      → All (λ i. i < length bins) (least_loaded_indices_of costs bins count)
  unfolding least_loaded_indices_of
  least_loaded_indices_of-bounds bins count =
      let n = length bins in
      let entry = λ (i : ℕ).
        (let e : LoadedBin costs = record { index = i; load = load_at costs bins i } in e) in
      All-map (λ i. i < n) (λ (e : LoadedBin costs). e.index) _
        (All-take (λ e. e.index < n) count _
          (All-sort_by (λ e. e.index < n) (loaded_before costs) _
            (All-map (λ e. e.index < n) entry (indices_of n) (indices_of-bounds n))))

  abbrev pub AllBelow : ℕ → Option (List ℕ) → Type 0
  AllBelow n none = Unit
  AllBelow n (some indices) = All (λ i. i < n) indices

  insert-below :
      (n : ℕ) (key sought : Text) (indices : List ℕ) (entries : Dict (List ℕ))
      → All (λ i. i < n) indices
      → AllBelow n (lookup sought entries)
      → AllBelow n (lookup sought (insert key indices entries))
  insert-below n key sought indices entries h k =
      rw (lookup-insert key sought indices entries)
        (elim (Bool-cases (key == sought)) [ inl y ↦ rw y h | inr o ↦ rw o k ])

  pub reserve_all-below :
      (n count : ℕ) (target : Number) (r : Reserved costs)
      (projects : List (DependentProject costs)) (sought : Text)
      → length r.bins ≡ n
      → AllBelow n (lookup sought r.indices_by_project)
      → AllBelow n (lookup sought (reserve_all costs count target r projects).indices_by_project)
  reserve_all-below n count target r [] sought e h = h
  reserve_all-below n count target r (p ∷ projects) sought e h =
      let needed = least_of count (dry_run_bins_needed_of costs p target) in
      let indices = least_loaded_indices_of costs r.bins needed in
      reserve_all-below n count target (reserve_for costs count target r p) projects sought
        (length-reserved_bins costs r.bins indices p.dry_run_cost_ms ∙ e)
        (insert-below n p.project sought indices r.indices_by_project
          (subst (λ m. All (λ i. i < m) indices) e (least_loaded_indices_of-bounds r.bins needed))
          h)

  get_or_else-below :
      (n : ℕ) (o : Option (List ℕ)) → AllBelow n o → All (λ i. i < n) (get_or_else o (indices_of n))
  get_or_else-below n none h = indices_of-bounds n
  get_or_else-below n (some indices) h = h

  pub indices_for-below :
      (n : ℕ) (r : Reserved costs) (g : PlacementGroup costs)
      → AllBelow n (lookup g.project r.indices_by_project)
      → All (λ i. i < n) (indices_for costs r n g)
  indices_for-below n r g h = get_or_else-below n (lookup g.project r.indices_by_project) h

  -- How many mutants of the shards satisfy the test.
  module _ (p : PlannedMutant costs → Bool) where
    abbrev pub held : List (Bin costs) → ℕ
    held bins = sum_of (λ b. count_of p b.mutants) bins

    held-with_group_in :
        (bins : List (Bin costs)) (i : ℕ) (g : PlacementGroup costs)
        → i < length bins
        → held (with_group_in costs bins i g) ≡ held bins + count_of p g.mutants
    held-with_group_in [] i g h = omega arith
    held-with_group_in (b ∷ bins) zero g h = omega (arith, count_of-append p b.mutants g.mutants)
    held-with_group_in (b ∷ bins) (suc i) g h =
        omega (arith, held-with_group_in bins i g (omega arith))

    held-reserved_bin :
        (bins : List (Bin costs)) (i : ℕ) (cost : Number)
        → held (reserved_bin costs bins i cost) ≡ held bins
    held-reserved_bin [] i cost = refl
    held-reserved_bin (b ∷ bins) zero cost = refl
    held-reserved_bin (b ∷ bins) (suc i) cost = omega (arith, held-reserved_bin bins i cost)

    held-reserved_bins :
        (bins : List (Bin costs)) (indices : List ℕ) (cost : Number)
        → held (reserved_bins costs bins indices cost) ≡ held bins
    held-reserved_bins bins [] cost = refl
    held-reserved_bins bins (i ∷ indices) cost =
        held-reserved_bins (reserved_bin costs bins i cost) indices cost
        ∙ held-reserved_bin bins i cost

    pub held-reserve_all :
        (count : ℕ) (target : Number) (r : Reserved costs)
        (projects : List (DependentProject costs))
        → held (reserve_all costs count target r projects).bins ≡ held r.bins
    held-reserve_all count target r [] = refl
    held-reserve_all count target r (q ∷ projects) =
        held-reserve_all count target (reserve_for costs count target r q) projects
        ∙ held-reserved_bins r.bins
            (least_loaded_indices_of costs r.bins
              (least_of count (dry_run_bins_needed_of costs q target)))
            q.dry_run_cost_ms

    pub held-empty_bins : (n : ℕ) → held (empty_bins costs n) ≡ 0
    held-empty_bins zero = refl
    held-empty_bins (suc n) = omega (arith, held-empty_bins n)

    abbrev pub grouped : List (PlacementGroup costs) → ℕ
    grouped groups = sum_of (λ g. count_of p g.mutants) groups

    pub held-place_dependents :
        (r : Reserved costs) (bins : List (Bin costs)) (groups : List (PlacementGroup costs))
        (n : ℕ)
        → 1 ≤ n
        → length bins ≡ n
        → ((sought : Text) → AllBelow n (lookup sought r.indices_by_project))
        → held (place_dependents costs r n bins groups) ≡ held bins + grouped groups
    held-place_dependents r bins [] n one e h = omega arith
    held-place_dependents r bins (g ∷ groups) n one e h =
        let indices = indices_for costs r n g in
        let i = least_loaded_of costs bins indices in
        let below = least_loaded_of-lt n bins indices one (indices_for-below n r g (h g.project)) in
        omega (
          arith,
          held-place_dependents r (with_group_in costs bins i g) groups n one
              (length-update_at costs (take_in costs g) bins i ∙ e) h,
          held-with_group_in bins i g (subst (λ m. i < m) (sym e) below),
        )

    pub held-place_rest :
        (bins : List (Bin costs)) (groups : List (PlacementGroup costs)) (n : ℕ)
        → 1 ≤ n
        → length bins ≡ n
        → held (place_rest costs bins groups) ≡ held bins + grouped groups
    held-place_rest bins [] n one e = omega arith
    held-place_rest bins (g ∷ groups) n one e =
        let indices = indices_of (length bins) in
        let i = least_loaded_of costs bins indices in
        omega (
          arith,
          held-place_rest (with_group_in costs bins i g) groups n one
              (length-update_at costs (take_in costs g) bins i ∙ e),
          held-with_group_in bins i g (
              least_loaded_of-lt (length bins) bins indices (omega arith)
                (indices_of-bounds (length bins))),
        )
