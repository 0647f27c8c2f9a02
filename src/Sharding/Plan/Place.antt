-- ===== src/Sharding/Plan/Place.antt =====
-- How the mutants are dealt out to the shards.
use stryker_js_effect.Prelude.{
  ℕ, ◌+◌, Text, text_eq, ◌==◌, text_ltb, Bool, not, Dict, lookup, insert, get_or_else, List, [],
  ◌∷◌, ◌++◌, map, filter, some_of, length, sort_by, group_by, if◌then◌else◌,
}
use stryker_js_effect.Sharding.Plan.{
  CostNumbers, PlannedMutant, PlanShardsCommand, mutant_key_of, total_cost_ms_of, DependentProject,
  key_before, dependent_projects_of, dry_run_bins_needed_of, planned_load_ms_of, shard_count_of,
  least_of,
}
use stryker_js_effect.Sharding.Plan.Bins.{
  indices_of, Bin, empty_bins, least_loaded_of, least_loaded_indices_of, update_at, reserved_bins,
}

-- `ShardProject`: a project and the ids of its mutants.
pub record ShardProject : Type 0 where
  pub project : Text
  pub mutants : List Text

module _ (costs : CostNumbers) where
  open costs use {numbers, over, equals}
  open numbers use {Number, of_ℕ, plus, times, less}

  pub record PlannedShard : Type 0 where
    pub index : ℕ
    pub count : ℕ
    pub predicted_seconds : Number
    pub projects : List ShardProject

  abbrev Mutants : Type 0
  Mutants = List (PlannedMutant costs)

  abbrev Bins : Type 0
  Bins = List (Bin costs)

  abbrev pub project_then_id_before : PlannedMutant costs → PlannedMutant costs → Bool
  project_then_id_before left right =
      if left.project == right.project
      then text_ltb left.id right.id
      else text_ltb left.project right.project

  pub record PlacementGroup : Type 0 where
    pub key : Text
    pub project : Text
    pub mutants : Mutants
    pub cost_ms : Number
    pub depends_on_dry_run : Bool

  abbrev pub placement_key_of : PlannedMutant costs → Text
  placement_key_of mutant = get_or_else mutant.placement_key (mutant_key_of costs mutant)

  abbrev pub project_of_group : Mutants → Text
  project_of_group [] = []
  project_of_group (head ∷ members) = head.project

  abbrev pub group_of : Text × Mutants → PlacementGroup
  group_of entry =
      let sorted = sort_by project_then_id_before entry.1 in
      record {
        key = entry.0;
        project = project_of_group sorted;
        mutants = sorted;
        cost_ms = total_cost_ms_of costs sorted;
        depends_on_dry_run = some_of (λ m. m.depends_on_dry_run) sorted;
      }

  unfoldable pub placement_groups_of : Mutants → List PlacementGroup
  placement_groups_of mutants = map group_of (group_by placement_key_of mutants)

  -- `compareGroupsCostliestFirst` is negative.
  abbrev pub costliest_first : PlacementGroup → PlacementGroup → Bool
  costliest_first left right =
      if equals left.cost_ms right.cost_ms
      then (if left.project == right.project
          then text_ltb left.key right.key
          else text_ltb left.project right.project)
      else less right.cost_ms left.cost_ms

  abbrev pub take_in : PlacementGroup → Bin costs → Bin costs
  take_in group bin = record {
    mutants = bin.mutants ++ group.mutants;
    load = plus bin.load group.cost_ms;
  }

  abbrev pub with_group_in : Bins → ℕ → PlacementGroup → Bins
  with_group_in bins index group = update_at costs (take_in group) bins index

  abbrev pub shard_project_of : Text × Mutants → ShardProject
  shard_project_of entry = record {
    project = entry.0;
    mutants = sort_by text_ltb (map (λ m. m.id) entry.1);
  }

  unfoldable pub projects_of : Mutants → List ShardProject
  projects_of mutants =
      map shard_project_of (sort_by (key_before costs) (group_by (λ m. m.project) mutants))

  pub record Reserved : Type 0 where
    pub bins : Bins
    pub indices_by_project : Dict (List ℕ)

  -- The shards that a project's dependent mutants may go to each reserve its dry run.
  abbrev pub reserve_for : ℕ → Number → Reserved → DependentProject costs → Reserved
  reserve_for count target_ms accumulated project =
      let indices =
        least_loaded_indices_of costs accumulated.bins
          (least_of count (dry_run_bins_needed_of costs project target_ms)) in
      record {
        bins = reserved_bins costs accumulated.bins indices project.dry_run_cost_ms;
        indices_by_project = insert project.project indices accumulated.indices_by_project;
      }

  abbrev pub reserve_all : ℕ → Number → Reserved → List (DependentProject costs) → Reserved
  reserve_all count target_ms accumulated [] = accumulated
  reserve_all count target_ms accumulated (p ∷ projects) =
      reserve_all count target_ms (reserve_for count target_ms accumulated p) projects

  abbrev pub indices_for : Reserved → ℕ → PlacementGroup → List ℕ
  indices_for reserved count group =
      get_or_else (lookup group.project reserved.indices_by_project) (indices_of count)

  -- `dependentGroups.reduce`.
  abbrev pub place_dependents : Reserved → ℕ → Bins → List PlacementGroup → Bins
  place_dependents reserved count bins [] = bins
  place_dependents reserved count bins (g ∷ groups) =
      place_dependents reserved count
        (with_group_in bins (least_loaded_of costs bins (indices_for reserved count g)) g) groups

  -- `restGroups.reduce`.
  abbrev pub place_rest : Bins → List PlacementGroup → Bins
  place_rest bins [] = bins
  place_rest bins (g ∷ groups) =
      place_rest (with_group_in bins (least_loaded_of costs bins (indices_of (length bins))) g)
        groups

  abbrev pub target_ms_of : PlanShardsCommand costs → Number
  target_ms_of command = times command.target_seconds (of_ℕ 1000)

  unfoldable pub count_for : PlanShardsCommand costs → ℕ
  count_for command = shard_count_of costs command (
      planned_load_ms_of costs command (dependent_projects_of costs command) (target_ms_of command))

  abbrev pub reserved_for : PlanShardsCommand costs → Reserved
  reserved_for command =
      reserve_all (count_for command) (target_ms_of command)
        (record { bins = empty_bins costs (count_for command); indices_by_project = [] })
        (dependent_projects_of costs command)

  abbrev pub dependent_groups_of : List PlacementGroup → List PlacementGroup
  dependent_groups_of groups = sort_by costliest_first (filter (λ g. g.depends_on_dry_run) groups)

  abbrev pub rest_groups_of : List PlacementGroup → List PlacementGroup
  rest_groups_of groups = sort_by costliest_first (filter (λ g. not g.depends_on_dry_run) groups)

  abbrev pub with_dependents : PlanShardsCommand costs → Bins
  with_dependents command =
      let reserved = reserved_for command in
      place_dependents reserved (count_for command) reserved.bins
        (dependent_groups_of (placement_groups_of command.mutants))

  unfoldable pub filled_bins : PlanShardsCommand costs → Bins
  filled_bins command =
      place_rest (with_dependents command) (rest_groups_of (placement_groups_of command.mutants))

  abbrev pub shards_from : ℕ → ℕ → Bins → List PlannedShard
  shards_from index count [] = []
  shards_from index count (bin ∷ bins) =
      record {
        index = index + 1;
        count = count;
        predicted_seconds = over bin.load (of_ℕ 1000);
        projects = projects_of bin.mutants;
      }
      ∷ shards_from (index + 1) count bins

  -- `shardsOf`, which `decide` returns.
  unfoldable pub plan_shards : PlanShardsCommand costs → List PlannedShard
  plan_shards command = shards_from 0 (count_for command) (filled_bins command)
