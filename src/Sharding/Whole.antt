-- ===== src/Sharding/Whole.antt =====
-- A plan of shards and the merge of their reports.
use stryker_js_effect.Prelude.{
  ℕ, ◌+◌, ◌≤◌, nat_eq, Text, text_eq, text_beq_iff, ◌==◌, ==_refl, contains, contains-append,
  some_of, true, ◌&&◌, ◌||◌, Bool-cases, Memᴰ, Memᴰ-cons, All, count_of, sum_of, List, [], ◌∷◌,
  ◌++◌, map, if◌then◌else◌, ◌≡◌, refl, ap, subst, sym, inl, inr, arith,
}
use mathlib.Core.List.Memᴰ
use stryker_js_effect.Mutant.{MutantStatus}
use stryker_js_effect.Sharding.Plan.{CostNumbers, PlanShardsCommand}
use stryker_js_effect.Sharding.Plan.Place.{ShardProject, plan_shards}
use stryker_js_effect.Sharding.Plan.Place
use stryker_js_effect.Sharding.Plan.Complete.{is_mutant, listed, assigned, plan_shards_complete}
use stryker_js_effect.Sharding.Merge.{
  PlannedShardProject, PlannedShard, PlannedEntry, ReportedShardProject, ShardMutantVerdict,
  MergeShardReportsCommand, mutant_id_of, entries_of_shard, planned_entries_of, reported_ids_of,
  reports_mutant, occurrences_of, merge_shard_reports,
}
use stryker_js_effect.Sharding.Merge.Outcomes.{
  EntryReported, succeeds, merge_shard_reports-succeeds,
}

-- A report of what is planned, with a verdict for each mutant.
module _ (verdict : Text → Text → MutantStatus) where
  abbrev pub report_of : PlannedEntry → ReportedShardProject
  report_of entry = record {
    shard = entry.shard;
    project = entry.project;
    mutants = map (λ id. record { id = id; status = verdict entry.project id }) entry.mutants;
  }

  abbrev pub complete_reports : List PlannedShard → MergeShardReportsCommand
  complete_reports shards = record {
    shards = shards;
    reports = map report_of (planned_entries_of shards);
  }

All-of {ℓ κ} : {A : Type ℓ} (P : A → Type κ) (xs : List A) → ((a : A) → Memᴰ a xs → P a) → All P xs
All-of P [] h = tt
All-of P (x ∷ xs) h = (h x (Memᴰ.head refl), All-of P xs (λ a m. h a (Memᴰ.tail m)))

contains-mem : (i : Text) (xs : List Text) → Memᴰ i xs → contains i xs ≡ true
contains-mem i [] m = absurd (Memᴰ.not-nil m)
contains-mem i (x ∷ xs) m = elim ((Memᴰ-cons i x xs).0 m) [
  | inl e ↦ ground (arith, text_beq_iff x i, sym e)
  | inr r ↦ ground (arith, contains-mem i xs r)
]

reported-cons :
    (id : Text) (r : ReportedShardProject) (rs : List ReportedShardProject) (shard : ℕ)
    (project : Text)
    → contains id (reported_ids_of (r ∷ rs) shard project) ≡ (
        (r.project == project && r.shard == shard && contains id (map mutant_id_of r.mutants))
        || contains id (reported_ids_of rs shard project))
reported-cons id r rs shard project = elim (Bool-cases (r.project == project)) [
  | inr n ↦ rw n refl
  | inl y ↦ elim (Bool-cases (r.shard == shard)) [
    | inr n ↦ rw (y, n) refl
    | inl z ↦
        rw (y, z)
          (contains-append id (map mutant_id_of r.mutants) (reported_ids_of rs shard project))
  ]
]

module _ (verdict : Text → Text → MutantStatus) where
  contains-reported :
      (id : Text) (e : PlannedEntry)
      → contains id (map mutant_id_of (report_of verdict e).mutants) ≡ contains id e.mutants
  contains-reported id e = go e.mutants
    where
      go :
          (ids : List Text)
          → contains id
              (map mutant_id_of (map (λ i. record { id = i; status = verdict e.project i }) ids))
            ≡ contains id ids
      go [] = refl
      go (i ∷ ids) = ap (λ b. i == id || b) (go ids)

  entry-reported :
      (id : Text) (e : PlannedEntry) (entries : List PlannedEntry)
      → Memᴰ e entries
      → contains id e.mutants ≡ true
      → contains id (reported_ids_of (map (report_of verdict) entries) e.shard e.project) ≡ true
  entry-reported id e [] m h = absurd (Memᴰ.not-nil m)
  entry-reported id e (x ∷ entries) m h =
      let step =
        reported-cons id (report_of verdict x) (map (report_of verdict) entries) e.shard
          e.project in
      elim ((Memᴰ-cons e x entries).0 m) [
        | inl same ↦
            subst
              (λ y.
                contains id (
                  reported_ids_of (report_of verdict y ∷ map (report_of verdict) entries) e.shard
                    e.project)
                ≡ true)
              same
              (ground (
                arith,
                reported-cons id (report_of verdict e) (map (report_of verdict) entries) e.shard
                    e.project,
                ==_refl e.project,
                ==_refl e.shard,
                contains-reported id e,
              ))
        | inr rest ↦ ground (arith, step, entry-reported id e entries rest h)
      ]

  entries-reported :
      (entries : List PlannedEntry) → All (EntryReported (map (report_of verdict) entries)) entries
  entries-reported entries = All-of _ entries (λ e m.
      All-of _ e.mutants (λ id k. entry-reported id e entries m (contains-mem id e.mutants k)))

module _ (verdict : Text → Text → MutantStatus) (project id : Text) where
  abbrev entry_count : PlannedEntry → ℕ
  entry_count entry = if entry.project == project then count_of (λ i. i == id) entry.mutants else 0

  reports_mutant-count :
      (p : Text) (ids : List Text)
      → (if some_of
            (λ m. m.id == id)
            (map
              (λ i. (let v : ShardMutantVerdict = record { id = i; status = verdict p i } in v))
              ids)
          then 1
          else 0)
        ≤ count_of (λ i. i == id) ids
  reports_mutant-count p [] = omega arith
  reports_mutant-count p (i ∷ ids) = ground (arith, reports_mutant-count p ids)

  occurrences-le :
      (entries : List PlannedEntry)
      → occurrences_of (map (report_of verdict) entries) project id ≤ sum_of entry_count entries
  occurrences-le [] = omega arith
  occurrences-le (e ∷ entries) = elim (Bool-cases (e.project == project)) [
    | inr n ↦ rw n (omega (arith, occurrences-le entries))
    | inl y ↦ elim (Bool-cases (reports_mutant id (report_of verdict e))) [
      | inr n ↦ rw (y, n) (omega (arith, occurrences-le entries))
      | inl z ↦
          rw (y, z)
            (omega (
              arith,
              occurrences-le entries,
              subst (λ b. (if b then 1 else 0) ≤ count_of (λ i. i == id) e.mutants) z
                  (reports_mutant-count e.project e.mutants),
            ))
    ]
  ]

-- A shard of the plan, as the merge reads it.
abbrev pub planned_project : ShardProject → PlannedShardProject
planned_project p = record { project = p.project; mutants = p.mutants }

module _ (costs : CostNumbers) where
  abbrev pub planned_shard : Place.PlannedShard costs → PlannedShard
  planned_shard s = record { index = s.index; projects = map planned_project s.projects }

  -- No two mutants of the command share a project and an id, as its schema demands.
  abbrev pub DistinctMutants : PlanShardsCommand costs → Type 0
  DistinctMutants command =
      (project id : Text) → count_of (is_mutant costs project id) command.mutants ≤ 1

  module _ (verdict : Text → Text → MutantStatus) (project id : Text) where
    sum-entries_of_shard :
        (index : ℕ) (projects : List ShardProject) (later : List PlannedEntry)
        → sum_of
            (entry_count verdict project id)
            (entries_of_shard index (map planned_project projects) ++ later)
          ≡ sum_of (listed costs project id) projects
            + sum_of (entry_count verdict project id) later
    sum-entries_of_shard index [] later = omega arith
    sum-entries_of_shard index (p ∷ projects) later =
        omega (arith, sum-entries_of_shard index projects later)

    sum-planned_entries_of :
        (shards : List (Place.PlannedShard costs))
        → sum_of (entry_count verdict project id) (planned_entries_of (map planned_shard shards))
          ≡ assigned costs project id shards
    sum-planned_entries_of [] = refl
    sum-planned_entries_of (s ∷ shards) = omega (
      arith,
      sum-entries_of_shard s.index s.projects (planned_entries_of (map planned_shard shards)),
      sum-planned_entries_of shards,
    )

  -- If no two mutants of the command share a project and an id, and each shard of the plan reports
  -- exactly the mutants that are planned for it, with any verdicts, then the merge of the reports
  -- succeeds.
  pub plan_shards-merge :
      (command : PlanShardsCommand costs) (verdict : Text → Text → MutantStatus)
      → DistinctMutants command
      → succeeds (
          merge_shard_reports
            (complete_reports verdict (map planned_shard (plan_shards costs command))))
        ≡ true
  plan_shards-merge command verdict distinct =
      let shards = map planned_shard (plan_shards costs command) in
      let entries = planned_entries_of shards in
      let once : (project id : Text)
          → occurrences_of (map (report_of verdict) entries) project id ≤ 1 =
        λ project id. omega (
          arith,
          occurrences-le verdict project id entries,
          sum-planned_entries_of verdict project id (plan_shards costs command),
          plan_shards_complete costs command project id,
          distinct project id,
        ) in
      (merge_shard_reports-succeeds (complete_reports verdict shards)).1 (
        All-of _ (map (report_of verdict) entries)
            (λ r m. All-of _ (map mutant_id_of r.mutants) (λ i k. once r.project i)),
        entries-reported verdict entries,
      )
