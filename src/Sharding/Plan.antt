-- ===== src/Sharding/Plan.antt =====
-- plan-shards.workflow.ts: how many shards a run has, and which mutants each shard runs. `Bins` has
-- what a shard holds, `Place` how the mutants are dealt out, and the workflow.
--
-- Costs are numbers of the interface below, finite and not negative.
pub mod Bins
pub mod Place
pub mod Count
pub mod Deal
pub mod Complete
pub mod Together
use stryker_js_effect.Prelude.{
  ℕ, zero, suc, ◌+◌, ◌-◌, ◌*◌, min, max, ltb, Text, text_eq, ◌==◌, text_ltb, Bool, true, false, not,
  ◌&&◌, Option, none, some, Dict, lookup, get_or_else, List, [], ◌∷◌, ◌++◌, map, foldl, filter,
  length, sort_by, group_by, if◌then◌else◌, ◌≡◌,
}
use stryker_js_effect.Numbers.{Numbers}

-- What the plan computes with besides: `equals` is `===`, and `ceil` is `Math.ceil` of a number
-- that is not negative, with `none` for `Infinity`.
pub record CostNumbers : Type 1 where
  pub numbers : Numbers
  pub minus : numbers.Number → numbers.Number → numbers.Number
  pub over : numbers.Number → numbers.Number → numbers.Number
  pub equals : numbers.Number → numbers.Number → Bool
  pub ceil : numbers.Number → Option ℕ

-- `Infinity` and a whole number: the lesser of the two.
abbrev pub least_of : ℕ → Option ℕ → ℕ
least_of m none = m
least_of m (some n) = min m n

abbrev pub at_least_one : Option ℕ → Option ℕ
at_least_one none = none
at_least_one (some n) = some (max 1 n)

abbrev pub capped_by : Option ℕ → Option ℕ → Option ℕ
capped_by none needed = needed
capped_by (some max_shards) needed = some (max 1 (least_of max_shards needed))

module _ (costs : CostNumbers) where
  open costs use {numbers, minus, over, ceil}
  open numbers use {Number, of_ℕ, plus, times, less}

  pub record PlannedMutant : Type 0 where
    pub project : Text
    pub id : Text
    pub cost_ms : Number
    pub depends_on_dry_run : Bool
    pub placement_key : Option Text

  pub record PlanShardsCommand : Type 0 where
    pub target_seconds : Number
    pub max_shards : Option ℕ
    pub mutants : List PlannedMutant
    pub dry_run_costs : Dict Number

  -- A mutant without a placement key is placed by its own key.
  abbrev pub mutant_key_of : PlannedMutant → Text
  mutant_key_of mutant = 0 ∷ (mutant.project ++ 0 ∷ mutant.id)

  abbrev pub add_costs : Number → List PlannedMutant → Number
  add_costs total [] = total
  add_costs total (m ∷ mutants) = add_costs (plus total m.cost_ms) mutants

  abbrev pub total_cost_ms_of : List PlannedMutant → Number
  total_cost_ms_of mutants = add_costs (of_ℕ 0) mutants

  abbrev pub dry_run_cost_of : PlanShardsCommand → Text → Number
  dry_run_cost_of command project = get_or_else (lookup project command.dry_run_costs) (of_ℕ 0)

  pub record DependentProject : Type 0 where
    pub project : Text
    pub dependent_cost_ms : Number
    pub dry_run_cost_ms : Number
    pub mutants : List PlannedMutant

  -- Entries of a record, in the order of their keys.
  abbrev pub key_before {ℓ} : {V : Type ℓ} → Text × V → Text × V → Bool
  key_before left right = text_ltb left.0 right.0

  abbrev pub dependent_project : PlanShardsCommand → Text × List PlannedMutant → DependentProject
  dependent_project command entry = record {
    project = entry.0;
    dependent_cost_ms = total_cost_ms_of entry.1;
    dry_run_cost_ms = dry_run_cost_of command entry.0;
    mutants = entry.1;
  }

  unfoldable pub dependent_projects_of : PlanShardsCommand → List DependentProject
  dependent_projects_of command = map (dependent_project command) (
      sort_by key_before
        (group_by (λ m. m.project) (filter (λ m. m.depends_on_dry_run) command.mutants)))

  unfoldable pub dry_run_bins_needed_of : DependentProject → Number → Option ℕ
  dry_run_bins_needed_of project target_ms =
      let remaining_ms = minus target_ms project.dry_run_cost_ms in
      if less (of_ℕ 0) remaining_ms
      then at_least_one (ceil (over project.dependent_cost_ms remaining_ms))
      else none

  abbrev pub add_bins : Number → Option ℕ → Number → Number
  add_bins total none cost_ms = total
  add_bins total (some bins) cost_ms = plus total (times (of_ℕ bins) cost_ms)

  abbrev pub add_dry_runs : Number → List DependentProject → Number → Number
  add_dry_runs total [] target_ms = total
  add_dry_runs total (p ∷ projects) target_ms =
      add_dry_runs (add_bins total (dry_run_bins_needed_of p target_ms) p.dry_run_cost_ms) projects
        target_ms

  abbrev pub planned_load_ms_of : PlanShardsCommand → List DependentProject → Number → Number
  planned_load_ms_of command projects target_ms =
      plus (total_cost_ms_of command.mutants) (add_dry_runs (of_ℕ 0) projects target_ms)

  abbrev pub needed_shards_of : PlanShardsCommand → Number → Option ℕ
  needed_shards_of command load_ms =
      at_least_one (ceil (over (over load_ms (of_ℕ 1000)) command.target_seconds))

  abbrev pub capped_shards_of : PlanShardsCommand → Number → Option ℕ
  capped_shards_of command load_ms = capped_by command.max_shards (needed_shards_of command load_ms)

  unfoldable pub shard_count_of : PlanShardsCommand → Number → ℕ
  shard_count_of command load_ms =
      least_of (max (length command.mutants) 1) (capped_shards_of command load_ms)
