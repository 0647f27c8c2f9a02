-- ===== src/Sharding/Merge/Outcomes.antt =====
-- When the merge of the reports succeeds.
use stryker_js_effect.Prelude.{
  ltb, ◌≤◌, Text, text_eq, text_ltb, contains, filter, flatten, is_empty, insert_by, sort_by, All,
  Bool, true, false, not, Bool-cases, Result, fail, succeed, List, [], ◌∷◌, ◌++◌, map, ◌≡◌, ◌↔◌,
  refl, ◌∙◌, sym, inl, inr, arith,
}
use stryker_js_effect.Sharding.Merge.{
  ReportedShardProject, PlannedEntry, MergeShardReportsCommand, MergeShardReportsError,
  MergedShardProject, mutant_id_of, sorted_ids, reported_ids_of, planned_entries_of, missing_ids_of,
  gap_ids_of, occurrences_of, repeated_ids_of, overlap_ids_of, merged_projects_of,
  unless_incomplete, merge_shard_reports,
}

is_empty-insert_by :
    (before : Text → Text → Bool) (x : Text) (xs : List Text)
    → is_empty (insert_by before x xs) ≡ false
is_empty-insert_by before x [] = refl
is_empty-insert_by before x (y ∷ xs) = elim (Bool-cases (before y x)) [
  | inl b ↦ rw b refl
  | inr n ↦ rw n refl
]

is_empty-sorted_ids : (ids : List Text) → is_empty (sorted_ids ids) ≡ is_empty ids
unfolding sort_by
is_empty-sorted_ids [] = refl
is_empty-sorted_ids (x ∷ ids) = is_empty-insert_by text_ltb x _

is_empty-append {ℓ} :
    {A : Type ℓ} (xs ys : List A)
    → (is_empty (xs ++ ys) ≡ true) ↔ ((is_empty xs ≡ true) × (is_empty ys ≡ true))
is_empty-append [] ys = (λ h. (refl, h), λ h. h.1)
is_empty-append (x ∷ xs) ys = ground arith

is_empty-filter {ℓ} :
    {A : Type ℓ} (p : A → Bool) (xs : List A)
    → (is_empty (filter p xs) ≡ true) ↔ All (λ x. p x ≡ false) xs
is_empty-filter p [] = (λ h. tt, λ h. refl)
is_empty-filter p (x ∷ xs) = elim (Bool-cases (p x)) [
  | inl y ↦ (λ h. ground arith, λ h. ground arith)
  | inr n ↦ rw n (λ h. (refl, (is_empty-filter p xs).0 h), λ h. (is_empty-filter p xs).1 h.1)
]

-- The parts of a list are empty, each because no element of it passes its test.
is_empty-parts {ℓ κ} :
    {A : Type ℓ} {B : Type κ} (part : A → List B) (Passes : A → Type 0) (xs : List A)
    → ((x : A) → (is_empty (part x) ≡ true) ↔ Passes x)
    → (is_empty (flatten (map part xs)) ≡ true) ↔ All Passes xs
is_empty-parts part Passes [] h = (λ e. tt, λ a. refl)
is_empty-parts part Passes (x ∷ xs) h =
    let rest = is_empty-parts part Passes xs h in
    let split = is_empty-append (part x) (flatten (map part xs)) in
    (λ e. ((h x).0 (split.0 e).0, rest.0 (split.0 e).1), λ a. split.1 ((h x).1 a.0, rest.1 a.1))

-- Every planned mutant is reported, by the shard that it is planned for.
abbrev pub EntryReported : List ReportedShardProject → PlannedEntry → Type 0
EntryReported reports entry =
    All (λ id. contains id (reported_ids_of reports entry.shard entry.project) ≡ true) entry.mutants

-- No mutant of the report is in two reports of its project.
abbrev pub ReportedOnce : List ReportedShardProject → ReportedShardProject → Type 0
ReportedOnce reports report =
    All (λ id. occurrences_of reports report.project id ≤ 1) (map mutant_id_of report.mutants)

All-iff {ℓ κ μ} :
    {A : Type ℓ} (P : A → Type κ) (Q : A → Type μ) (xs : List A)
    → ((x : A) → P x ↔ Q x)
    → All P xs ↔ All Q xs
All-iff P Q [] h = (λ a. tt, λ a. tt)
All-iff P Q (x ∷ xs) h =
    let rest = All-iff P Q xs h in (λ a. ((h x).0 a.0, rest.0 a.1), λ a. ((h x).1 a.0, rest.1 a.1))

missing_ids_of_iff :
    (reports : List ReportedShardProject) (entry : PlannedEntry)
    → (is_empty (missing_ids_of reports entry) ≡ true) ↔ EntryReported reports entry
missing_ids_of_iff reports entry =
    let known = reported_ids_of reports entry.shard entry.project in
    let a = is_empty-filter (λ id. not (contains id known)) entry.mutants in
    let b =
      All-iff (λ id. not (contains id known) ≡ false) (λ id. contains id known ≡ true) entry.mutants
        (λ id. ground arith) in
    (λ h. b.0 (a.0 h), λ h. a.1 (b.1 h))

repeated_ids_of_iff :
    (reports : List ReportedShardProject) (report : ReportedShardProject)
    → (is_empty (repeated_ids_of reports report) ≡ true) ↔ ReportedOnce reports report
repeated_ids_of_iff reports report =
    let ids = map mutant_id_of report.mutants in
    let n = λ (id : Text). occurrences_of reports report.project id in
    let a = is_empty-filter (λ id. ltb 1 (n id)) ids in
    let b = All-iff (λ id. ltb 1 (n id) ≡ false) (λ id. n id ≤ 1) ids (λ id. ground arith) in
    (λ h. b.0 (a.0 h), λ h. a.1 (b.1 h))

abbrev pub succeeds : Result MergeShardReportsError (List MergedShardProject) → Bool
succeeds (succeed merged) = true
succeeds (fail error) = false

unless_incomplete-succeeds :
    (overlap gap : List Text) (merged : List MergedShardProject)
    → (succeeds (unless_incomplete overlap gap merged) ≡ true)
      ↔ ((is_empty overlap ≡ true) × (is_empty gap ≡ true))
unless_incomplete-succeeds [] [] merged = (λ h. (refl, refl), λ h. refl)
unless_incomplete-succeeds [] (x ∷ gap) merged = ground arith
unless_incomplete-succeeds (x ∷ overlap) gap merged = ground arith

-- Whatever the plan and the reports, the merge succeeds if and only if no reported mutant is in
-- two reports of its project and every planned mutant is in a report of its project by the shard
-- that it is planned for.
pub merge_shard_reports-succeeds :
    (command : MergeShardReportsCommand)
    → (succeeds (merge_shard_reports command) ≡ true) ↔ (
        All (ReportedOnce command.reports) command.reports
        × All (EntryReported command.reports) (planned_entries_of command.shards))
unfolding merge_shard_reports overlap_ids_of gap_ids_of
merge_shard_reports-succeeds command =
    let reports = command.reports in
    let repeated = flatten (map (repeated_ids_of reports) reports) in
    let missing = flatten (map (missing_ids_of reports) (planned_entries_of command.shards)) in
    let outcome =
      unless_incomplete-succeeds (sorted_ids repeated) (sorted_ids missing)
        (merged_projects_of command) in
    let once =
      is_empty-parts (repeated_ids_of reports) (ReportedOnce reports) reports
        (repeated_ids_of_iff reports) in
    let whole =
      is_empty-parts (missing_ids_of reports) (EntryReported reports)
        (planned_entries_of command.shards) (missing_ids_of_iff reports) in
    (
      λ h. (
        once.0 (sym (is_empty-sorted_ids repeated) ∙ (outcome.0 h).0),
        whole.0 (sym (is_empty-sorted_ids missing) ∙ (outcome.0 h).1),
      ),
      λ h.
          outcome.1
            (is_empty-sorted_ids repeated ∙ once.1 h.0, is_empty-sorted_ids missing ∙ whole.1 h.1),
    )
