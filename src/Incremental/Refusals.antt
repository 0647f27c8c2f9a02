-- ===== src/Incremental/Refusals.antt =====
-- The reason that a mutant runs.
use stryker_js_effect.Prelude.{
  text_eq, last?, Bool, true, false, ◌||◌, Option, none, some, if◌then◌else◌, ◌≡◌, ◌⊎◌,
}
use stryker_js_effect.Mutant.{Mutant}
use stryker_js_effect.Incremental.{
  ReuseRefusalReason, flaky_dependency, timeout_unreproduced, no_prior_record, decided_per_run,
  TimeoutEvidence, PreviousReuseRecord, IncrementalDiffCommand, is_present,
}
use stryker_js_effect.Incremental.Decide.{evidence_of_newest, flaky_dependent, records_by_id_of}
use stryker_js_effect.Incremental.Explains.{Explains}

-- The reason is true of the newest record of the mutant, or it is `decidedPerRun`, because the
-- mutant or that record has a subsumption and nothing else speaks against the record.
abbrev pub Justified :
    IncrementalDiffCommand → Mutant → Option PreviousReuseRecord → ReuseRefusalReason → Type 0
Justified command mutant none reason =
    (reason ≡ no_prior_record) × (is_present mutant.subsumption ≡ false)
    ⊎ (reason ≡ decided_per_run) × (is_present mutant.subsumption ≡ true)
Justified command mutant (some r) reason =
    Explains command r reason
    ⊎ (reason ≡ decided_per_run)
      × Explains command r no_prior_record
      × ((is_present mutant.subsumption || is_present r.subsumption) ≡ true)

abbrev pub is_timeout : ReuseRefusalReason → Bool
is_timeout timeout_unreproduced = true
is_timeout _ = false

abbrev Verdict :
    IncrementalDiffCommand → ReuseRefusalReason → Option TimeoutEvidence → Mutant → Type 0
Verdict command reason evidence mutant =
    let newest = last? (records_by_id_of command.previous_records mutant.id) in
    ((flaky_dependent command mutant ≡ true) × (reason ≡ flaky_dependency) × (evidence ≡ none))
    ⊎ ((flaky_dependent command mutant ≡ false)
        × Justified command mutant newest reason
        × (evidence ≡ (if is_timeout reason then evidence_of_newest newest else none)))
