-- ===== src/Examples/Dealing.antt =====
-- The plan of the shards, at a concrete input.
use Prim.Native.Nat.{◌/◌}
use stryker_js_effect.Prelude.{
  ℕ, ◌+◌, ◌-◌, ◌≤◌, max, nat_eq, Text, text, text_eq, text_beq, ◌==◌, sort_by, lookup, insert,
  length, map, count_of, Bool, true, false, if◌then◌else◌, All, Option, none, some, List, [], ◌∷◌,
  ◌≡◌, ◌↔◌, refl, text_beq_iff, contains, fail, arith,
}
use stryker_js_effect.Numbers.{whole_numbers}
use stryker_js_effect.Sharding.Plan.{
  CostNumbers, PlannedMutant, PlanShardsCommand, dependent_projects_of, dry_run_bins_needed_of,
  shard_count_of,
}
use stryker_js_effect.Sharding.Plan.Bins.{indices_from, least_loaded_of, least_loaded_indices_of}
use stryker_js_effect.Sharding.Plan.Place.{
  ShardProject, plan_shards, filled_bins, count_for, placement_groups_of, projects_of,
}
use stryker_js_effect.Sharding.Plan.Count.{WithinMaximum, plan_shards-count}
use stryker_js_effect.Sharding.Plan.Complete.{assigned, is_mutant, plan_shards_complete}
use stryker_js_effect.Mutant.{survived, killed}
use stryker_js_effect.Sharding.Merge.{
  ReportedShardProject, MergeShardReportsCommand, shard_report_overlap, mutant_id_of,
  planned_entries_of, merged_project_of, merge_shard_reports, overlap_ids_of,
}
use stryker_js_effect.Sharding.Merge.Contents.{has_id, verdicts_on, merged_project_of-once}
use stryker_js_effect.Sharding.Merge.Outcomes.{
  EntryReported, ReportedOnce, succeeds, merge_shard_reports-succeeds,
}
use stryker_js_effect.Sharding.Whole.{
  complete_reports, planned_shard, DistinctMutants, plan_shards-merge,
}
use stryker_js_effect.Sharding.Plan.Together.{AllOrNone, has_placement_key, filled_bins-AllOrNone}

abbrev whole_minus : Option ℕ → Option ℕ → Option ℕ
whole_minus (some a) (some b) = some (a - b)
whole_minus _ _ = none

-- A quotient, rounded up.
abbrev whole_over : Option ℕ → Option ℕ → Option ℕ
whole_over (some a) (some b) = if b == 0 then none else some ((a + b - 1) / b)
whole_over _ _ = none

abbrev whole_equals : Option ℕ → Option ℕ → Bool
whole_equals (some a) (some b) = a == b
whole_equals none none = true
whole_equals _ _ = false

abbrev whole_costs : CostNumbers
whole_costs = record {
  numbers = whole_numbers;
  minus = whole_minus;
  over = whole_over;
  equals = whole_equals;
  ceil = λ n. n;
}

abbrev planned : Text → Text → ℕ → Bool → Option Text → PlannedMutant whole_costs
planned project id cost depends key = record {
  project = project;
  id = id;
  cost_ms = some cost;
  depends_on_dry_run = depends;
  placement_key = key;
}

-- Two mutants share a placement key, and two depend on the dry run of their project.
abbrev dealing : PlanShardsCommand whole_costs
dealing = record {
  target_seconds = some 2;
  max_shards = some 2;
  mutants =
      planned (text "a") (text "1") 900 true none
      ∷ planned (text "a") (text "2") 500 false (some (text "k"))
      ∷ planned (text "b") (text "3") 700 true none
      ∷ planned (text "a") (text "4") 300 false (some (text "k"))
      ∷ [];
  dry_run_costs = (text "a", some 400) ∷ (text "b", some 100) ∷ [];
}

abbrev second_shard : List ShardProject
second_shard =
    record { project = text "a"; mutants = text "2" ∷ text "4" ∷ [] }
    ∷ record { project = text "b"; mutants = text "3" ∷ [] }
    ∷ []

abbrev first_shard : List ShardProject
first_shard = record { project = text "a"; mutants = text "1" ∷ [] } ∷ []

two_shards :
    map (λ s. s.projects) (plan_shards whole_costs dealing) ≡ first_shard ∷ second_shard ∷ []
unfolding plan_shards filled_bins sort_by placement_groups_of text_beq dependent_projects_of
    least_loaded_indices_of dry_run_bins_needed_of lookup count_for shard_count_of least_loaded_of
    insert projects_of
two_shards = refl

plan_shards-count_example :
    let shards = plan_shards whole_costs dealing in
    (1 ≤ length shards)
    × (length shards ≤ max 4 1)
    × WithinMaximum (some 2) (length shards)
    × (map (λ s. s.index) shards ≡ indices_from 1 (length shards))
    × All (λ s. s.count ≡ length shards) shards
plan_shards-count_example = plan_shards-count whole_costs dealing

plan_shards_complete_example :
    assigned whole_costs (text "a") (text "4") (plan_shards whole_costs dealing)
    ≡ count_of (is_mutant whole_costs (text "a") (text "4")) dealing.mutants
plan_shards_complete_example = plan_shards_complete whole_costs dealing (text "a") (text "4")

filled_bins-AllOrNone_example :
    All
      (λ b.
        AllOrNone whole_costs
          (has_placement_key whole_costs (text "k"))
          (count_of (has_placement_key whole_costs (text "k")) dealing.mutants)
          b.mutants)
      (filled_bins whole_costs dealing)
filled_bins-AllOrNone_example = filled_bins-AllOrNone whole_costs (text "k") dealing

dealing-DistinctMutants : DistinctMutants whole_costs dealing
dealing-DistinctMutants project id = ground (
  arith,
  text_beq_iff (text "1") id,
  text_beq_iff (text "2") id,
  text_beq_iff (text "3") id,
  text_beq_iff (text "4") id,
)

plan_shards-merge_example :
    succeeds (
      merge_shard_reports (
        complete_reports
          (λ project id. survived)
          (map (planned_shard whole_costs) (plan_shards whole_costs dealing))))
    ≡ true
plan_shards-merge_example =
    plan_shards-merge whole_costs dealing (λ project id. survived) dealing-DistinctMutants

-- Two reports of one project, of which the second one repeats a mutant.
abbrev repeating : List ReportedShardProject
repeating =
    record {
      shard = 1;
      project = text "a";
      mutants = record { id = text "1"; status = killed } ∷ [];
    }
    ∷ record {
      shard = 2;
      project = text "a";
      mutants =
          record { id = text "1"; status = survived }
          ∷ record { id = text "2"; status = killed }
          ∷ [];
    }
    ∷ []

abbrev merging : MergeShardReportsCommand
merging = record {
  shards =
      record { index = 1; projects = record { project = text "a"; mutants = text "1" ∷ [] } ∷ [] }
      ∷ record { index = 2; projects = record { project = text "a"; mutants = text "2" ∷ [] } ∷ [] }
      ∷ [];
  reports = repeating;
}

repeated : merge_shard_reports merging ≡ fail (shard_report_overlap (text "1" ∷ []))
unfolding merge_shard_reports overlap_ids_of sort_by text_beq
repeated = refl

merge_shard_reports-succeeds_example : (succeeds (merge_shard_reports merging) ≡ true) ↔ (
    All (ReportedOnce repeating) repeating
    × All (EntryReported repeating) (planned_entries_of merging.shards))
merge_shard_reports-succeeds_example = merge_shard_reports-succeeds merging

merged_project_of-once_example :
    count_of (has_id (text "1")) (merged_project_of repeating (text "a")).mutants
    ≡ (if contains (text "1") (map mutant_id_of (verdicts_on repeating (text "a"))) then 1 else 0)
merged_project_of-once_example = merged_project_of-once (text "1") repeating (text "a")
