-- ===== src/Sharding/Merge.antt =====
-- shard/merge-shard-reports.workflow.ts: the reports of the shards, as one report. Of the number of
-- a shard only the comparison is used.
pub mod Contents
pub mod Outcomes
use stryker_js_effect.Prelude.{
  ℕ, ltb, nat_eq, Text, text_eq, ◌==◌, text_ltb, contains, distinct, Dict, insert, filter, some_of,
  flatten, length, sort_by, Bool, true, false, not, Result, fail, succeed, List, [], ◌∷◌, ◌++◌, map,
}
use stryker_js_effect.Mutant.{MutantStatus}

pub record ShardMutantVerdict : Type 0 where
  pub id : Text
  pub status : MutantStatus

pub record PlannedShardProject : Type 0 where
  pub project : Text
  pub mutants : List Text

pub record PlannedShard : Type 0 where
  pub index : ℕ
  pub projects : List PlannedShardProject

pub record ReportedShardProject : Type 0 where
  pub shard : ℕ
  pub project : Text
  pub mutants : List ShardMutantVerdict

pub record MergedShardProject : Type 0 where
  pub project : Text
  pub mutants : List ShardMutantVerdict

pub record MergeShardReportsCommand : Type 0 where
  pub shards : List PlannedShard
  pub reports : List ReportedShardProject

-- `ShardReportGap` and `ShardReportOverlap`.
pub data MergeShardReportsError : Type 0 where
  shard_report_gap shard_report_overlap : List Text → MergeShardReportsError

abbrev pub sorted_ids : List Text → List Text
sorted_ids ids = sort_by text_ltb (distinct ids)

abbrev pub verdict_before : ShardMutantVerdict → ShardMutantVerdict → Bool
verdict_before left right = text_ltb left.id right.id

abbrev pub mutant_id_of : ShardMutantVerdict → Text
mutant_id_of mutant = mutant.id

abbrev pub reports_of_project : List ReportedShardProject → Text → List ReportedShardProject
reports_of_project reports project = filter (λ report. report.project == project) reports

abbrev pub reported_ids_of : List ReportedShardProject → ℕ → Text → List Text
reported_ids_of reports shard project = flatten (
    map (λ report. map mutant_id_of report.mutants)
      (filter (λ report. report.shard == shard) (reports_of_project reports project)))

-- A project of a shard, as `plannedEntriesOf` lists it.
pub record PlannedEntry : Type 0 where
  pub shard : ℕ
  pub project : Text
  pub mutants : List Text

abbrev pub entries_of_shard : ℕ → List PlannedShardProject → List PlannedEntry
entries_of_shard index [] = []
entries_of_shard index (p ∷ projects) =
    record { shard = index; project = p.project; mutants = p.mutants }
    ∷ entries_of_shard index projects

abbrev pub planned_entries_of : List PlannedShard → List PlannedEntry
planned_entries_of [] = []
planned_entries_of (s ∷ shards) = entries_of_shard s.index s.projects ++ planned_entries_of shards

abbrev pub missing_ids_of : List ReportedShardProject → PlannedEntry → List Text
missing_ids_of reports entry =
    filter (λ id. not (contains id (reported_ids_of reports entry.shard entry.project)))
      entry.mutants

unfoldable pub gap_ids_of : MergeShardReportsCommand → List Text
gap_ids_of command =
    sorted_ids (flatten (map (missing_ids_of command.reports) (planned_entries_of command.shards)))

abbrev pub reports_mutant : Text → ReportedShardProject → Bool
reports_mutant id report = some_of (λ mutant. mutant.id == id) report.mutants

abbrev pub occurrences_of : List ReportedShardProject → Text → Text → ℕ
occurrences_of reports project id =
    length (filter (reports_mutant id) (reports_of_project reports project))

abbrev pub repeated_ids_of : List ReportedShardProject → ReportedShardProject → List Text
repeated_ids_of reports report =
    filter (λ id. ltb 1 (occurrences_of reports report.project id))
      (map mutant_id_of report.mutants)

unfoldable pub overlap_ids_of : MergeShardReportsCommand → List Text
overlap_ids_of command =
    sorted_ids (flatten (map (repeated_ids_of command.reports) command.reports))

-- Of two verdicts on one mutant the later one stays.
abbrev pub set_verdicts :
    Dict ShardMutantVerdict → List ShardMutantVerdict → Dict ShardMutantVerdict
set_verdicts by_id [] = by_id
set_verdicts by_id (mutant ∷ mutants) = set_verdicts (insert mutant.id mutant by_id) mutants

abbrev pub by_id_of : List ReportedShardProject → Text → Dict ShardMutantVerdict
by_id_of reports project =
    set_verdicts [] (flatten (map (λ report. report.mutants) (reports_of_project reports project)))

abbrev pub merged_project_of : List ReportedShardProject → Text → MergedShardProject
merged_project_of reports project = record {
  project = project;
  mutants = sort_by verdict_before (map (λ entry. entry.1) (by_id_of reports project));
}

unfoldable pub merged_projects_of : MergeShardReportsCommand → List MergedShardProject
merged_projects_of command =
    map (merged_project_of command.reports)
      (distinct (map (λ entry. entry.project) (planned_entries_of command.shards)))

abbrev pub MergeResult : Type 0
MergeResult = Result MergeShardReportsError (List MergedShardProject)

-- `completenessOf` finds an overlap first, then a gap; `decide` fails with either.
abbrev pub unless_incomplete : List Text → List Text → List MergedShardProject → MergeResult
unless_incomplete (id ∷ overlap) gap merged = fail (shard_report_overlap (id ∷ overlap))
unless_incomplete [] (id ∷ gap) merged = fail (shard_report_gap (id ∷ gap))
unless_incomplete [] [] merged = succeed merged

unfoldable pub merge_shard_reports : MergeShardReportsCommand → MergeResult
merge_shard_reports command =
    unless_incomplete (overlap_ids_of command) (gap_ids_of command) (merged_projects_of command)
