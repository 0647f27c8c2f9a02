-- ===== src/Incremental/Decide.antt =====
-- incremental-diff.workflow.ts: the decision for one mutant, and for all of a command.
use stryker_js_effect.Prelude.{
  Text, text_eq, ◌==◌, lookup, get_or_else, is_empty, last?, filter, contains, Bool, true, false,
  not, ◌&&◌, ◌||◌, Option, none, some, List, [], map, foldl, if◌then◌else◌,
}
use stryker_js_effect.Mutant.{Mutant, MutantSetPolicy, default, full}
use stryker_js_effect.Incremental.{
  ReuseRefusalReason, semantics_changed, policy_changed, run_inputs_changed, closure_changed,
  closure_analysis_failed, program_changed, flaky_dependency, timeout_unreproduced, no_prior_record,
  decided_per_run, TimeoutEvidence, PreviousReuseRecord, IncrementalDiffCommand, MutantRemembered,
  IncrementalDiffDecision, mutant_remembered, mutant_to_run, is_present,
  is_unreproduced_wall_clock_timeout, carries_subsumption_reference, is_reusable_record,
  timeout_evidence_of, digest_of, is_compile_error_record, key_of,
}

abbrev pub policy_beq : MutantSetPolicy → MutantSetPolicy → Bool
policy_beq default default = true
policy_beq full full = true
policy_beq _ _ = false

unfoldable pub current_key_of : IncrementalDiffCommand → Text → Text
current_key_of command mutant_id =
    key_of mutant_id (lookup mutant_id command.closure_digests_by_mutant_id) command.engine_digest
      command.mutant_set_policy command.run_inputs_digest

unfoldable pub matching_program_key : IncrementalDiffCommand → PreviousReuseRecord → Bool
matching_program_key command r =
    not (is_empty (digest_of r.program_digest))
    && key_of r.mutant_id r.program_digest r.engine_digest r.mutant_set_policy r.run_inputs_digest
      == key_of r.mutant_id command.program_digest command.engine_digest command.mutant_set_policy
          command.run_inputs_digest

unfoldable pub matching_key : IncrementalDiffCommand → PreviousReuseRecord → Bool
unfolding current_key_of
matching_key command r =
    not command.closure_analysis_failed
    && (if is_compile_error_record r
        then matching_program_key command r
        else key_of r.mutant_id r.closure_digest r.engine_digest r.mutant_set_policy
            r.run_inputs_digest
          == current_key_of command r.mutant_id)

unfoldable pub closure_digest_changed : IncrementalDiffCommand → PreviousReuseRecord → Bool
closure_digest_changed command r =
    not (is_compile_error_record r)
    && not (
        digest_of r.closure_digest
        == digest_of (lookup r.mutant_id command.closure_digests_by_mutant_id))

unfoldable pub program_has_changed : IncrementalDiffCommand → PreviousReuseRecord → Bool
program_has_changed command r = is_compile_error_record r && not (matching_program_key command r)

unfoldable pub reason_after_closure :
    IncrementalDiffCommand → PreviousReuseRecord → ReuseRefusalReason
reason_after_closure command r =
    if command.closure_analysis_failed
    then closure_analysis_failed
    else if closure_digest_changed command r
    then closure_changed
    else if is_unreproduced_wall_clock_timeout r
    then timeout_unreproduced
    else no_prior_record

unfoldable pub reason_after_run_inputs :
    IncrementalDiffCommand → PreviousReuseRecord → ReuseRefusalReason
reason_after_run_inputs command r =
    if not (r.run_inputs_digest == command.run_inputs_digest)
    then run_inputs_changed
    else if program_has_changed command r
    then program_changed
    else reason_after_closure command r

unfoldable pub reason_after_policy :
    IncrementalDiffCommand → PreviousReuseRecord → ReuseRefusalReason
reason_after_policy command r =
    if not (policy_beq r.mutant_set_policy command.mutant_set_policy)
    then policy_changed
    else reason_after_run_inputs command r

unfoldable pub refusal_of : IncrementalDiffCommand → PreviousReuseRecord → ReuseRefusalReason
unfolding reason_after_policy reason_after_run_inputs reason_after_closure closure_digest_changed
    program_has_changed
refusal_of command r =
    if not (r.engine_digest == command.engine_digest)
    then semantics_changed
    else reason_after_policy command r

abbrev pub matches : IncrementalDiffCommand → PreviousReuseRecord → Bool
matches command r = is_reusable_record r && matching_key command r

unfoldable pub newest_matching_of :
    List PreviousReuseRecord → IncrementalDiffCommand → Option PreviousReuseRecord
newest_matching_of records command =
    foldl (λ found r. if matches command r then some r else found) none records

-- The status reason of an `Ignored` record is always present: see `PreviousReuseRecord`.
unfoldable pub remembered_of : Mutant → PreviousReuseRecord → MutantRemembered
remembered_of mutant r = record {
  mutant_id = mutant.id;
  status = r.status;
  status_reason = r.status_reason;
  timeout_kind = r.timeout_kind;
  reproductions = r.reproductions;
  tests_completed = r.tests_completed;
  covered_by = r.covered_by;
  killed_by = r.killed_by;
}

abbrev pub refusal_of_newest :
    IncrementalDiffCommand → Option PreviousReuseRecord → ReuseRefusalReason
refusal_of_newest command none = no_prior_record
refusal_of_newest command (some newest) = refusal_of command newest

unfoldable pub refusal_for_mutant :
    IncrementalDiffCommand → List PreviousReuseRecord → ReuseRefusalReason
refusal_for_mutant command records = refusal_of_newest command (last? records)

abbrev pub evidence_of_newest : Option PreviousReuseRecord → Option TimeoutEvidence
evidence_of_newest none = none
evidence_of_newest (some newest) = timeout_evidence_of newest

abbrev pub prior_timeout_field :
    ReuseRefusalReason → List PreviousReuseRecord → Option TimeoutEvidence
prior_timeout_field timeout_unreproduced records = evidence_of_newest (last? records)
prior_timeout_field _ records = none

abbrev pub flaky_mutant_ids_of : IncrementalDiffCommand → List Text
flaky_mutant_ids_of command = get_or_else command.flaky_mutant_ids []

abbrev pub is_static : Option Bool → Bool
is_static (some true) = true
is_static _ = false

unfoldable pub flaky_dependent : IncrementalDiffCommand → Mutant → Bool
flaky_dependent command mutant =
    let flaky = flaky_mutant_ids_of command in
    contains mutant.id flaky || is_static mutant.static && not (is_empty flaky)

unfoldable pub flaky_refused_of : Mutant → List PreviousReuseRecord → IncrementalDiffDecision
flaky_refused_of mutant records =
    mutant_to_run mutant flaky_dependency (prior_timeout_field flaky_dependency records)

abbrev pub carries : Option PreviousReuseRecord → Bool
carries none = false
carries (some newest) = carries_subsumption_reference newest

abbrev pub is_decided_per_run : Mutant → List PreviousReuseRecord → Bool
is_decided_per_run mutant records = is_present mutant.subsumption || carries (last? records)

abbrev pub per_run : Bool → ReuseRefusalReason → ReuseRefusalReason
per_run true no_prior_record = decided_per_run
per_run _ reason = reason

unfoldable pub to_run_of :
    Mutant → IncrementalDiffCommand → List PreviousReuseRecord → IncrementalDiffDecision
unfolding refusal_for_mutant
to_run_of mutant command records =
    let refusal =
      per_run (is_decided_per_run mutant records) (refusal_for_mutant command records) in
    mutant_to_run mutant refusal (prior_timeout_field refusal records)

unfoldable pub rememberable_of :
    Mutant → IncrementalDiffCommand → List PreviousReuseRecord → Option PreviousReuseRecord
rememberable_of mutant command records =
    if is_present mutant.subsumption then none else newest_matching_of records command

-- `recordsByIdOf`, read at one mutant: its records, in their order.
unfoldable pub records_by_id_of : List PreviousReuseRecord → Text → List PreviousReuseRecord
records_by_id_of records mutant_id = filter (λ r. r.mutant_id == mutant_id) records

abbrev pub remembered_or_run :
    Mutant
    → IncrementalDiffCommand
    → List PreviousReuseRecord
    → Option PreviousReuseRecord
    → IncrementalDiffDecision
remembered_or_run mutant command records none = to_run_of mutant command records
remembered_or_run mutant command records (some r) = mutant_remembered (remembered_of mutant r)

unfoldable pub decide_for_mutant : IncrementalDiffCommand → Mutant → IncrementalDiffDecision
unfolding flaky_refused_of
decide_for_mutant command mutant =
    let records = records_by_id_of command.previous_records mutant.id in
    if flaky_dependent command mutant
    then flaky_refused_of mutant records
    else remembered_or_run mutant command records (rememberable_of mutant command records)

abbrev pub forced_run : Mutant → IncrementalDiffDecision
forced_run mutant = mutant_to_run mutant no_prior_record none

unfoldable pub incremental_diff : IncrementalDiffCommand → List IncrementalDiffDecision
unfolding decide_for_mutant
incremental_diff command =
    if command.force
    then map forced_run command.current_mutants
    else map (decide_for_mutant command) command.current_mutants
