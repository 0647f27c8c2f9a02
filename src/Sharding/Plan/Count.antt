-- ===== src/Sharding/Plan/Count.antt =====
-- How many shards there are, and their numbers.
use stryker_js_effect.Prelude.{
  ℕ, zero, suc, ◌+◌, ◌≤◌, max, Option, none, some, List, [], ◌∷◌, map, length, All, ◌≡◌, refl, ap,
  ap₂, ◌∙◌, arith,
}
use stryker_js_effect.Sharding.Plan.{
  CostNumbers, PlanShardsCommand, DependentProject, least_of, at_least_one, capped_by,
  shard_count_of, dependent_projects_of, dry_run_bins_needed_of,
}
use stryker_js_effect.Sharding.Plan.Bins.{
  indices_of, indices_from, Bin, empty_bins, update_at, reserved_bins, reserved_bin, reserve,
  least_loaded_of, least_loaded_indices_of,
}
use stryker_js_effect.Sharding.Plan.Place.{
  Reserved, reserve_all, reserve_for, reserved_for, PlacementGroup, take_in, with_group_in,
  place_dependents, place_rest, indices_for, count_for, target_ms_of, filled_bins,
  placement_groups_of, dependent_groups_of, rest_groups_of, with_dependents, shards_from,
  plan_shards,
}

abbrev pub WithinMaximum : Option ℕ → ℕ → Type 0
WithinMaximum none n = Unit
WithinMaximum (some max_shards) n = n ≤ max 1 max_shards

least_of-bounds :
    (m : ℕ) (needed : Option ℕ)
    → 1 ≤ m
    → (1 ≤ least_of m (at_least_one needed)) × (least_of m (at_least_one needed) ≤ m)
least_of-bounds m none h = (h, omega arith)
least_of-bounds m (some n) h = (omega arith, omega arith)

least_of-capped :
    (m k : ℕ) (needed : Option ℕ) → least_of m (some (max 1 (least_of k needed))) ≤ max 1 k
least_of-capped m k none = omega arith
least_of-capped m k (some n) = omega arith

capped_by-bounds :
    (m : ℕ) (maximum needed : Option ℕ)
    → 1 ≤ m
    → let n = least_of m (capped_by maximum (at_least_one needed)) in
      (1 ≤ n) × (n ≤ m) × WithinMaximum maximum n
capped_by-bounds m none needed h =
    ((least_of-bounds m needed h).0, (least_of-bounds m needed h).1, tt)
capped_by-bounds m (some k) needed h =
    (omega arith, omega arith, least_of-capped m k (at_least_one needed))

module _ (costs : CostNumbers) where
  open costs use {numbers}
  open numbers use {Number}

  pub length-update_at :
      (change : Bin costs → Bin costs) (bins : List (Bin costs)) (i : ℕ)
      → length (update_at costs change bins i) ≡ length bins
  length-update_at change [] i = refl
  length-update_at change (bin ∷ bins) zero = refl
  length-update_at change (bin ∷ bins) (suc i) = ap suc (length-update_at change bins i)

  pub length-reserved_bins :
      (bins : List (Bin costs)) (indices : List ℕ) (cost : Number)
      → length (reserved_bins costs bins indices cost) ≡ length bins
  length-reserved_bins bins [] cost = refl
  length-reserved_bins bins (i ∷ indices) cost =
      length-reserved_bins (reserved_bin costs bins i cost) indices cost
      ∙ length-update_at (reserve costs cost) bins i

  length-reserve_all :
      (count : ℕ) (target : Number) (r : Reserved costs) (projects : List (DependentProject costs))
      → length (reserve_all costs count target r projects).bins ≡ length r.bins
  length-reserve_all count target r [] = refl
  length-reserve_all count target r (p ∷ projects) =
      length-reserve_all count target (reserve_for costs count target r p) projects
      ∙ length-reserved_bins r.bins
          (least_loaded_indices_of costs r.bins
            (least_of count (dry_run_bins_needed_of costs p target)))
          p.dry_run_cost_ms

  pub length-empty_bins : (n : ℕ) → length (empty_bins costs n) ≡ n
  length-empty_bins zero = refl
  length-empty_bins (suc n) = ap suc (length-empty_bins n)

  pub length-reserved_for :
      (command : PlanShardsCommand costs)
      → length (reserved_for costs command).bins ≡ count_for costs command
  length-reserved_for command =
      length-reserve_all (count_for costs command) (target_ms_of costs command) _
        (dependent_projects_of costs command)
      ∙ length-empty_bins (count_for costs command)

  pub length-place_dependents :
      (r : Reserved costs) (n : ℕ) (bins : List (Bin costs)) (groups : List (PlacementGroup costs))
      → length (place_dependents costs r n bins groups) ≡ length bins
  length-place_dependents r n bins [] = refl
  length-place_dependents r n bins (g ∷ groups) =
      let i = least_loaded_of costs bins (indices_for costs r n g) in
      length-place_dependents r n (with_group_in costs bins i g) groups
      ∙ length-update_at (take_in costs g) bins i

  length-place_rest :
      (bins : List (Bin costs)) (groups : List (PlacementGroup costs))
      → length (place_rest costs bins groups) ≡ length bins
  length-place_rest bins [] = refl
  length-place_rest bins (g ∷ groups) =
      let i = least_loaded_of costs bins (indices_of (length bins)) in
      length-place_rest (with_group_in costs bins i g) groups
      ∙ length-update_at (take_in costs g) bins i

  pub length-with_dependents :
      (command : PlanShardsCommand costs)
      → length (with_dependents costs command) ≡ count_for costs command
  length-with_dependents command =
      let r = reserved_for costs command in
      length-place_dependents r (count_for costs command) r.bins
        (dependent_groups_of costs (placement_groups_of costs command.mutants))
      ∙ length-reserved_for command

  length-filled_bins :
      (command : PlanShardsCommand costs)
      → length (filled_bins costs command) ≡ count_for costs command
  unfolding filled_bins
  length-filled_bins command =
      length-place_rest (with_dependents costs command)
        (rest_groups_of costs (placement_groups_of costs command.mutants))
      ∙ length-with_dependents command

  indexes-shards_from :
      (i n : ℕ) (bins : List (Bin costs))
      → map (λ s. s.index) (shards_from costs i n bins) ≡ indices_from (suc i) (length bins)
  indexes-shards_from i n [] = refl
  indexes-shards_from i n (bin ∷ bins) =
      let here : i + 1 ≡ suc i = omega arith in
      ap₂ ◌∷◌ here
        (indexes-shards_from (i + 1) n bins ∙ ap (λ j. indices_from (suc j) (length bins)) here)

  counts-shards_from :
      (i n : ℕ) (bins : List (Bin costs)) → All (λ s. s.count ≡ n) (shards_from costs i n bins)
  counts-shards_from i n [] = tt
  counts-shards_from i n (bin ∷ bins) = (refl, counts-shards_from (i + 1) n bins)

  length-shards_from :
      (i n : ℕ) (bins : List (Bin costs)) → length (shards_from costs i n bins) ≡ length bins
  length-shards_from i n [] = refl
  length-shards_from i n (bin ∷ bins) = ap suc (length-shards_from (i + 1) n bins)

  pub count_for-bounds :
      (command : PlanShardsCommand costs)
      → let n = count_for costs command in
        (1 ≤ n) × (n ≤ max (length command.mutants) 1) × WithinMaximum command.max_shards n
  unfolding count_for shard_count_of
  count_for-bounds command =
      capped_by-bounds (max (length command.mutants) 1) command.max_shards _ (omega arith)

  -- Whatever the numbers and the command, there is at least one shard, there are no more than
  -- mutants but for one shard without mutants, and no more than the maximum where one is given, at
  -- least 1; the shards are numbered from 1 on, and each states how many there are.
  pub plan_shards-count :
      (command : PlanShardsCommand costs)
      → let shards = plan_shards costs command in
        (1 ≤ length shards)
        × (length shards ≤ max (length command.mutants) 1)
        × WithinMaximum command.max_shards (length shards)
        × (map (λ s. s.index) shards ≡ indices_from 1 (length shards))
        × All (λ s. s.count ≡ length shards) shards
  unfolding plan_shards
  plan_shards-count command =
      let n = count_for costs command in
      let bins = filled_bins costs command in
      let same = length-shards_from 0 n bins ∙ length-filled_bins command in
      let bounds = count_for-bounds command in
      rw same (
        bounds.0,
        bounds.1,
        bounds.2,
        indexes-shards_from 0 n bins ∙ ap (indices_from 1) (length-filled_bins command),
        counts-shards_from 0 n bins,
      )
