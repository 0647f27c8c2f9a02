-- ===== src/Sharding/Plan/Complete.antt =====
-- Which mutants the shards list.
use stryker_js_effect.Prelude.{
  ℕ, ◌+◌, Text, text_eq, text_beq_iff, ◌==◌, text_ltb, Bool, not, ◌&&◌, Bool-cases, lookup, filter,
  List, [], ◌∷◌, map, All, sort_by, sort_by-perm, count_of, count_of-perm, sum_of, sum_of-perm,
  sum_of-map, sum_of-eq, sum_of-filter, sum_of-group_by, members, group_by, distinct, if◌then◌else◌,
  ◌≡◌, refl, ap, ap₂, ◌∙◌, fun_ext, inl, inr, arith,
}
use stryker_js_effect.Sharding.Plan.{
  CostNumbers, PlannedMutant, PlanShardsCommand, key_before, dependent_projects_of,
}
use stryker_js_effect.Sharding.Plan.Bins.{Bin, empty_bins}
use stryker_js_effect.Sharding.Plan.Place.{
  ShardProject, shard_project_of, projects_of, PlacementGroup, group_of, placement_key_of,
  placement_groups_of, project_then_id_before, costliest_first, dependent_groups_of, rest_groups_of,
  with_dependents, reserved_for, Reserved, count_for, target_ms_of, filled_bins, PlannedShard,
  shards_from, plan_shards,
}
use stryker_js_effect.Sharding.Plan.Count.{
  length-empty_bins, length-reserved_for, length-with_dependents, count_for-bounds,
}
use stryker_js_effect.Sharding.Plan.Deal.{
  held, grouped, held-place_dependents, held-place_rest, held-reserve_all, held-empty_bins,
  reserve_all-below,
}

module _ (costs : CostNumbers) (project id : Text) where
  abbrev pub is_mutant : PlannedMutant costs → Bool
  is_mutant m = m.project == project && m.id == id

  -- How often the projects of a shard list the mutant.
  abbrev pub listed : ShardProject → ℕ
  listed entry = if entry.project == project then count_of (λ i. i == id) entry.mutants else 0

  abbrev pub assigned : List (PlannedShard costs) → ℕ
  assigned shards = sum_of (λ s. sum_of listed s.projects) shards

  count_of-id :
      (ms : List (PlannedMutant costs))
      → count_of (λ i. i == id) (map (λ m. m.id) ms) ≡ count_of (λ m. m.id == id) ms
  count_of-id [] = refl
  count_of-id (m ∷ ms) = omega (arith, count_of-id ms)

  count_of-members :
      (k : Text) (ms : List (PlannedMutant costs))
      → (if k == project then count_of (λ m. m.id == id) (members (λ m. m.project) k ms) else 0)
        ≡ count_of is_mutant (members (λ m. m.project) k ms)
  count_of-members k [] = ground arith
  count_of-members k (m ∷ ms) = elim (Bool-cases (m.project == k)) [
    | inl same ↦ rw same (
        ground (
          arith,
          count_of-members k ms,
          text_beq_iff m.project k,
          text_beq_iff m.project project,
          text_beq_iff k project,
        ))
    | inr other ↦ rw other (count_of-members k ms)
  ]

  listed-members :
      (ms : List (PlannedMutant costs)) (k : Text)
      → listed (shard_project_of costs (k, members (λ m. m.project) k ms))
        ≡ count_of is_mutant (members (λ m. m.project) k ms)
  listed-members ms k =
      let own = members (λ m. m.project) k ms in
      ap (λ n. if k == project then n else 0)
        (count_of-perm (λ i. i == id) (sort_by-perm text_ltb (map (λ m. m.id) own))
          ∙ count_of-id own)
      ∙ count_of-members k ms

  All-listed :
      (ms : List (PlannedMutant costs)) (ks : List Text)
      → All
          (λ e. listed (shard_project_of costs e) ≡ count_of is_mutant e.1)
          (map (λ k. (k, members (λ m. m.project) k ms)) ks)
  All-listed ms [] = tt
  All-listed ms (k ∷ ks) = (listed-members ms k, All-listed ms ks)

  listed-projects_of :
      (ms : List (PlannedMutant costs))
      → sum_of listed (projects_of costs ms) ≡ count_of is_mutant ms
  unfolding projects_of
  listed-projects_of ms =
      let groups = group_by (λ m. m.project) ms in
      sum_of-map listed (shard_project_of costs) (sort_by (key_before costs) groups)
      ∙ sum_of-perm (λ e. listed (shard_project_of costs e))
          (sort_by-perm (key_before costs) groups)
      ∙ sum_of-eq _ _ groups (All-listed ms (distinct (map (λ m. m.project) ms)))
      ∙ sum_of-group_by (λ m. m.project) is_mutant ms

  assigned-shards_from :
      (i n : ℕ) (bins : List (Bin costs))
      → assigned (shards_from costs i n bins) ≡ held costs is_mutant bins
  assigned-shards_from i n [] = refl
  assigned-shards_from i n (b ∷ bins) =
      ap₂ ◌+◌ (listed-projects_of b.mutants) (assigned-shards_from (i + 1) n bins)

module _ (costs : CostNumbers) (p : PlannedMutant costs → Bool) where
  pub grouped-placement_groups_of :
      (ms : List (PlannedMutant costs))
      → grouped costs p (placement_groups_of costs ms) ≡ count_of p ms
  unfolding placement_groups_of
  grouped-placement_groups_of ms =
      let groups = group_by (placement_key_of costs) ms in
      sum_of-map (λ g. count_of p g.mutants) (group_of costs) groups
      ∙ ap (λ f. sum_of f groups)
          (fun_ext (λ e. count_of-perm p (sort_by-perm (project_then_id_before costs) e.1)))
      ∙ sum_of-group_by (placement_key_of costs) p ms

  pub grouped-split :
      (groups : List (PlacementGroup costs))
      → grouped costs p (dependent_groups_of costs groups)
          + grouped costs p (rest_groups_of costs groups)
        ≡ grouped costs p groups
  grouped-split groups = omega (
    arith,
    sum_of-perm (λ g. count_of p g.mutants)
        (sort_by-perm (costliest_first costs) (filter (λ g. g.depends_on_dry_run) groups)),
    sum_of-perm (λ g. count_of p g.mutants)
        (sort_by-perm (costliest_first costs) (filter (λ g. not g.depends_on_dry_run) groups)),
    sum_of-filter (λ g. count_of p g.mutants) (λ g. g.depends_on_dry_run) groups,
  )

  pub held-reserved_for :
      (command : PlanShardsCommand costs) → held costs p (reserved_for costs command).bins ≡ 0
  held-reserved_for command =
      held-reserve_all costs p (count_for costs command) (target_ms_of costs command) _
        (dependent_projects_of costs command)
      ∙ held-empty_bins costs p (count_for costs command)

  -- What holds of the shards together holds of the command.
  pub held-filled_bins :
      (command : PlanShardsCommand costs)
      → held costs p (filled_bins costs command) ≡ count_of p command.mutants
  unfolding filled_bins lookup
  held-filled_bins command =
      let n = count_for costs command in
      let one = (count_for-bounds costs command).0 in
      let r = reserved_for costs command in
      let groups = placement_groups_of costs command.mutants in
      let below = λ (sought : Text).
        reserve_all-below costs n n (target_ms_of costs command)
          (let start : Reserved costs = record {
            bins = empty_bins costs n;
            indices_by_project = [];
          } in
            start)
          (dependent_projects_of costs command) sought (length-empty_bins costs n) tt in
      omega (
        arith,
        held-place_rest costs p (with_dependents costs command) (rest_groups_of costs groups) n one
            (length-with_dependents costs command),
        held-place_dependents costs p r r.bins (dependent_groups_of costs groups) n one
            (length-reserved_for costs command) below,
        held-reserved_for command,
        grouped-split groups,
        grouped-placement_groups_of command.mutants,
      )

-- Whatever the numbers and the command, the projects of the shards together list each mutant of
-- the command as often as the command has it, and no other mutant.
pub plan_shards_complete :
    (costs : CostNumbers) (command : PlanShardsCommand costs) (project id : Text)
    → assigned costs project id (plan_shards costs command)
      ≡ count_of (is_mutant costs project id) command.mutants
unfolding plan_shards
plan_shards_complete costs command project id =
    assigned-shards_from costs project id 0 (count_for costs command) (filled_bins costs command)
    ∙ held-filled_bins costs (is_mutant costs project id) command
