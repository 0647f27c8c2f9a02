-- ===== src/Sharding/Plan/Together.antt =====
-- Where the mutants with one placement key run.
use stryker_js_effect.Prelude.{
  ℕ, zero, suc, ◌+◌, ◌≤◌, Text, text_eq, text_beq_iff, ◌==◌, Bool, not, Bool-cases, filter, List,
  [], ◌∷◌, map, length, All, All-sort_by, sort_by-perm, count_of, count_of-append, count_of-perm,
  members, distinct, if◌then◌else◌, ◌≡◌, ◌⊎◌, refl, ◌∙◌, inl, inr, arith,
}
use stryker_js_effect.Sharding.Plan.{CostNumbers, PlannedMutant, PlanShardsCommand}
use stryker_js_effect.Sharding.Plan.Bins.{Bin, least_loaded_of, indices_of}
use stryker_js_effect.Sharding.Plan.Place.{
  PlacementGroup, group_of, placement_key_of, placement_groups_of, project_then_id_before,
  costliest_first, dependent_groups_of, rest_groups_of, with_dependents, reserved_for, Reserved,
  with_group_in, place_dependents, place_rest, indices_for, count_for, filled_bins,
}
use stryker_js_effect.Sharding.Plan.Deal.{held, grouped}
use stryker_js_effect.Sharding.Plan.Complete.{
  held-reserved_for, grouped-split, grouped-placement_groups_of,
}

All-filter {ℓ κ} :
    {A : Type ℓ} (P : A → Type κ) (p : A → Bool) (xs : List A) → All P xs → All P (filter p xs)
All-filter P p [] h = tt
All-filter P p (x ∷ xs) h = elim (Bool-cases (p x)) [
  | inl y ↦ rw y (h.0, All-filter P p xs h.1)
  | inr n ↦ rw n (All-filter P p xs h.1)
]

-- `total` mutants of the whole plan have the key.
module _ (costs : CostNumbers) (has_key : PlannedMutant costs → Bool) (total : ℕ) where
  abbrev pub AllOrNone : List (PlannedMutant costs) → Type 0
  AllOrNone mutants = (count_of has_key mutants ≡ 0) ⊎ (count_of has_key mutants ≡ total)

  abbrev BinsWhole : List (Bin costs) → Type 0
  BinsWhole bins = All (λ b. AllOrNone b.mutants) bins

  abbrev GroupsWhole : List (PlacementGroup costs) → Type 0
  GroupsWhole groups = All (λ g. AllOrNone g.mutants) groups

  append-AllOrNone :
      (xs ys : List (PlannedMutant costs)) (n : ℕ)
      → AllOrNone xs
      → AllOrNone ys
      → count_of has_key xs + n + count_of has_key ys ≤ total
      → (count_of has_key xs + count_of has_key ys ≡ 0)
        ⊎ (count_of has_key xs + count_of has_key ys ≡ total)
  append-AllOrNone xs ys n (inl a) (inl b) h = inl (omega arith)
  append-AllOrNone xs ys n (inl a) (inr b) h = inr (omega arith)
  append-AllOrNone xs ys n (inr a) b h = inr (omega arith)

  with_group_in-BinsWhole :
      (bins : List (Bin costs)) (i : ℕ) (g : PlacementGroup costs)
      → BinsWhole bins
      → AllOrNone g.mutants
      → held costs has_key bins + count_of has_key g.mutants ≤ total
      → BinsWhole (with_group_in costs bins i g)
  with_group_in-BinsWhole [] i g w k h = tt
  with_group_in-BinsWhole (b ∷ bins) zero g w k h = (
    rw (count_of-append has_key b.mutants g.mutants)
        (append-AllOrNone b.mutants g.mutants (held costs has_key bins) w.0 k (omega arith)),
    w.1,
  )
  with_group_in-BinsWhole (b ∷ bins) (suc i) g w k h =
      (w.0, with_group_in-BinsWhole bins i g w.1 k (omega arith))

  held-with_group_in-le :
      (bins : List (Bin costs)) (i : ℕ) (g : PlacementGroup costs)
      → held costs has_key (with_group_in costs bins i g)
        ≤ held costs has_key bins + count_of has_key g.mutants
  held-with_group_in-le [] i g = omega arith
  held-with_group_in-le (b ∷ bins) zero g =
      omega (arith, count_of-append has_key b.mutants g.mutants)
  held-with_group_in-le (b ∷ bins) (suc i) g = omega (arith, held-with_group_in-le bins i g)

  place_dependents-BinsWhole :
      (r : Reserved costs) (n : ℕ) (bins : List (Bin costs)) (groups : List (PlacementGroup costs))
      (later : ℕ)
      → BinsWhole bins
      → GroupsWhole groups
      → held costs has_key bins + grouped costs has_key groups + later ≤ total
      → BinsWhole (place_dependents costs r n bins groups)
        × (held costs has_key (place_dependents costs r n bins groups) + later ≤ total)
  place_dependents-BinsWhole r n bins [] later w k h = (w, omega arith)
  place_dependents-BinsWhole r n bins (g ∷ groups) later w k h =
      let i = least_loaded_of costs bins (indices_for costs r n g) in
      place_dependents-BinsWhole r n (with_group_in costs bins i g) groups later
        (with_group_in-BinsWhole bins i g w k.0 (omega arith)) k.1
        (omega (arith, held-with_group_in-le bins i g))

  place_rest-BinsWhole :
      (bins : List (Bin costs)) (groups : List (PlacementGroup costs))
      → BinsWhole bins
      → GroupsWhole groups
      → held costs has_key bins + grouped costs has_key groups ≤ total
      → BinsWhole (place_rest costs bins groups)
  place_rest-BinsWhole bins [] w k h = w
  place_rest-BinsWhole bins (g ∷ groups) w k h =
      let i = least_loaded_of costs bins (indices_of (length bins)) in
      place_rest-BinsWhole (with_group_in costs bins i g) groups
        (with_group_in-BinsWhole bins i g w k.0 (omega arith)) k.1
        (omega (arith, held-with_group_in-le bins i g))

  held_none-BinsWhole : (bins : List (Bin costs)) → held costs has_key bins ≡ 0 → BinsWhole bins
  held_none-BinsWhole [] h = tt
  held_none-BinsWhole (b ∷ bins) h = (inl (omega arith), held_none-BinsWhole bins (omega arith))

module _ (costs : CostNumbers) (key : Text) where
  abbrev pub has_placement_key : PlannedMutant costs → Bool
  has_placement_key m = placement_key_of costs m == key

  count_of-members_key :
      (j : Text) (ms : List (PlannedMutant costs))
      → count_of has_placement_key (members (placement_key_of costs) j ms)
        ≡ (if j == key then count_of has_placement_key ms else 0)
  count_of-members_key j [] = ground arith
  count_of-members_key j (m ∷ ms) = elim (Bool-cases (placement_key_of costs m == j)) [
    | inl same ↦ rw same (
        ground (
          arith,
          count_of-members_key j ms,
          text_beq_iff (placement_key_of costs m) j,
          text_beq_iff (placement_key_of costs m) key,
          text_beq_iff j key,
        ))
    | inr other ↦ rw other (
        ground (
          arith,
          count_of-members_key j ms,
          text_beq_iff (placement_key_of costs m) j,
          text_beq_iff (placement_key_of costs m) key,
          text_beq_iff j key,
        ))
  ]

  group_of-AllOrNone :
      (ms : List (PlannedMutant costs)) (j : Text)
      → AllOrNone costs has_placement_key
          (count_of has_placement_key ms)
          (group_of costs (j, members (placement_key_of costs) j ms)).mutants
  group_of-AllOrNone ms j =
      let own = members (placement_key_of costs) j ms in
      let e =
        count_of-perm has_placement_key (sort_by-perm (project_then_id_before costs) own)
        ∙ count_of-members_key j ms in
      elim (Bool-cases (j == key)) [ inl y ↦ inr (e ∙ rw y refl) | inr n ↦ inl (e ∙ rw n refl) ]

  keyed-GroupsWhole :
      (ms : List (PlannedMutant costs)) (ks : List Text)
      → All
          (λ g. AllOrNone costs has_placement_key (count_of has_placement_key ms) g.mutants)
          (map (group_of costs) (map (λ k. (k, members (placement_key_of costs) k ms)) ks))
  keyed-GroupsWhole ms [] = tt
  keyed-GroupsWhole ms (k ∷ ks) = (group_of-AllOrNone ms k, keyed-GroupsWhole ms ks)

  placement_groups_of-GroupsWhole :
      (ms : List (PlannedMutant costs))
      → All
          (λ g. AllOrNone costs has_placement_key (count_of has_placement_key ms) g.mutants)
          (placement_groups_of costs ms)
  unfolding placement_groups_of
  placement_groups_of-GroupsWhole ms =
      keyed-GroupsWhole ms (distinct (map (placement_key_of costs) ms))

  -- Whatever the numbers and the command: of the mutants with one placement key, each shard holds
  -- either none or all.
  pub filled_bins-AllOrNone :
      (command : PlanShardsCommand costs)
      → All
          (λ b.
            AllOrNone costs has_placement_key
              (count_of has_placement_key command.mutants)
              b.mutants)
          (filled_bins costs command)
  unfolding filled_bins
  filled_bins-AllOrNone command =
      let total = count_of has_placement_key command.mutants in
      let r = reserved_for costs command in
      let groups = placement_groups_of costs command.mutants in
      let dependent = dependent_groups_of costs groups in
      let others = rest_groups_of costs groups in
      let whole = placement_groups_of-GroupsWhole command.mutants in
      let P = λ (g : PlacementGroup costs). AllOrNone costs has_placement_key total g.mutants in
      let none_yet = held-reserved_for costs has_placement_key command in
      let split = grouped-split costs has_placement_key groups in
      let all = grouped-placement_groups_of costs has_placement_key command.mutants in
      let after =
        place_dependents-BinsWhole costs has_placement_key total r (count_for costs command) r.bins
          dependent (grouped costs has_placement_key others)
          (held_none-BinsWhole costs has_placement_key total r.bins none_yet)
          (All-sort_by P (costliest_first costs) _
            (All-filter P (λ g. g.depends_on_dry_run) groups whole))
          (omega (arith, none_yet, split, all)) in
      place_rest-BinsWhole costs has_placement_key total (with_dependents costs command) others
        after.0
        (All-sort_by P (costliest_first costs) _
          (All-filter P (λ g. not g.depends_on_dry_run) groups whole))
        after.1
