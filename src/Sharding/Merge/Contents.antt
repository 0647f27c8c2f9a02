-- ===== src/Sharding/Merge/Contents.antt =====
-- What the merged report of a project lists.
use stryker_js_effect.Prelude.{
  ℕ, max, Text, text_eq, text_beq_iff, ◌==◌, contains, flatten, sort_by-perm, insert, Dict, All,
  count_of, count_of-perm, Bool, Bool-cases, List, [], ◌∷◌, map, if◌then◌else◌, ◌≡◌, refl, ◌∙◌, inl,
  inr, arith,
}
use stryker_js_effect.Sharding.Merge.{
  ShardMutantVerdict, ReportedShardProject, verdict_before, mutant_id_of, reports_of_project,
  set_verdicts, by_id_of, merged_project_of,
}

-- What the reports of a project list, in their order.
abbrev pub verdicts_on : List ReportedShardProject → Text → List ShardMutantVerdict
verdicts_on reports project =
    flatten (map (λ report. report.mutants) (reports_of_project reports project))

module _ (i : Text) where
  abbrev pub has_id : ShardMutantVerdict → Bool
  has_id mutant = mutant.id == i

  abbrev Keyed : Dict ShardMutantVerdict → Type 0
  Keyed by_id = All (λ e. e.1.id ≡ e.0) by_id

  abbrev number_in : Dict ShardMutantVerdict → ℕ
  number_in by_id = count_of has_id (map (λ e. e.1) by_id)

  insert-Keyed :
      (mutant : ShardMutantVerdict) (by_id : Dict ShardMutantVerdict)
      → Keyed by_id
      → Keyed (insert mutant.id mutant by_id)
  unfolding insert
  insert-Keyed mutant [] h = (refl, tt)
  insert-Keyed mutant ((name, old) ∷ rest) h = elim (Bool-cases (name == mutant.id)) [
    | inl y ↦ rw y (refl, h.1)
    | inr n ↦ rw n (h.0, insert-Keyed mutant rest h.1)
  ]

  number_in-insert :
      (mutant : ShardMutantVerdict) (by_id : Dict ShardMutantVerdict)
      → Keyed by_id
      → number_in (insert mutant.id mutant by_id)
        ≡ (if has_id mutant then max 1 (number_in by_id) else number_in by_id)
  unfolding insert
  number_in-insert mutant [] h = ground arith
  number_in-insert mutant ((name, old) ∷ rest) h = elim (Bool-cases (name == mutant.id)) [
    | inl y ↦ rw y (
        ground (
          arith,
          h.0,
          text_beq_iff name mutant.id,
          text_beq_iff name i,
          text_beq_iff mutant.id i,
          text_beq_iff old.id i,
        ))
    | inr n ↦ rw n (
        ground (
          arith,
          number_in-insert mutant rest h.1,
          h.0,
          text_beq_iff name mutant.id,
          text_beq_iff name i,
          text_beq_iff mutant.id i,
          text_beq_iff old.id i,
        ))
  ]

  number_in-set_verdicts :
      (mutants : List ShardMutantVerdict) (by_id : Dict ShardMutantVerdict)
      → Keyed by_id
      → number_in (set_verdicts by_id mutants) ≡ (
          if contains i (map mutant_id_of mutants)
          then max 1 (number_in by_id)
          else number_in by_id)
  number_in-set_verdicts [] by_id h = refl
  number_in-set_verdicts (m ∷ mutants) by_id h = ground (
    arith,
    number_in-set_verdicts mutants (insert m.id m by_id) (insert-Keyed m by_id h),
    number_in-insert m by_id h,
  )

  -- Whatever the reports, the merged report of a project lists an id once if a report of that
  -- project lists it, however often, and not at all otherwise.
  pub merged_project_of-once :
      (reports : List ReportedShardProject) (project : Text)
      → count_of has_id (merged_project_of reports project).mutants
        ≡ (if contains i (map mutant_id_of (verdicts_on reports project)) then 1 else 0)
  merged_project_of-once reports project =
      count_of-perm has_id (sort_by-perm verdict_before (map (λ e. e.1) (by_id_of reports project)))
      ∙ number_in-set_verdicts (verdicts_on reports project) [] tt
