-- ===== src/Examples/Remembering.antt =====
-- Which verdicts of an earlier run are remembered, at concrete inputs.
use stryker_js_effect.Prelude.{
  ℕ, Text, text, text_beq, text_eq, lookup, get_elem?, true, false, Option, none, some, [], ◌∷◌,
  map, ◌≡◌, ◌≢◌, ◌↔◌, ◌⊎◌, refl, arith,
}
use stryker_js_effect.Mutant.{Mutant, MutantStatus, killed, default, Location}
use stryker_js_effect.Incremental.{
  PreviousReuseRecord, IncrementalDiffCommand, TimeoutEvidence, mutant_remembered, digest_of,
  is_compile_error_record, key_of, join,
}
use stryker_js_effect.Incremental.Decide.{incremental_diff, remembered_of, matching_key}
use stryker_js_effect.Incremental.Keys.{
  NoNul, key_of-injective, Digests, SameRun, matching_key-SameRun,
}
use stryker_js_effect.Incremental.Reuse.{
  Reusable, incremental_diff-remembers_iff, mutant_id_of, incremental_diff-ids,
}

abbrev pub first_line : Location
first_line = record {
  start_at = record { line = 1; column = 0 };
  end_at = record { line = 1; column = 5 };
}

abbrev pub plain_mutant : Text → Mutant
plain_mutant id = record {
  id = id;
  file_name = text "a.ts";
  mutator_name = text "BooleanLiteral";
  replacement = text "false";
  location = first_line;
  status = none;
  status_reason = none;
  covered_by = none;
  static = none;
  tests_completed = none;
  description = none;
  subsumption = none;
}

-- Made by the engine `e1`.
abbrev record_of : Text → Text → MutantStatus → PreviousReuseRecord
record_of id engine status = record {
  mutant_id = id;
  closure_digest = some (text "c1");
  program_digest = none;
  engine_digest = engine;
  mutant_set_policy = default;
  run_inputs_digest = text "i1";
  timeout_kind = none;
  reproductions = none;
  tests_completed = some 3;
  covered_by = none;
  killed_by = some (text "t1" ∷ []);
  subsumption = none;
  status = status;
  status_reason = none;
}

abbrev new_record : PreviousReuseRecord
new_record = record_of (text "1") (text "e1") killed

abbrev old_record : PreviousReuseRecord
old_record = record_of (text "2") (text "e0") killed

-- Mutants 1, 2 and 3, of which 1 and 2 have a record and 3 depends on a flaky test.
abbrev the_command : IncrementalDiffCommand
the_command = record {
  current_mutants =
      plain_mutant (text "1") ∷ plain_mutant (text "2") ∷ plain_mutant (text "3") ∷ [];
  previous_records = new_record ∷ old_record ∷ [];
  closure_digests_by_mutant_id = (text "1", text "c1") ∷ (text "2", text "c1") ∷ [];
  closure_analysis_failed = false;
  engine_digest = text "e1";
  mutant_set_policy = default;
  run_inputs_digest = text "i1";
  force = false;
  flaky_mutant_ids = some (text "3" ∷ []);
  program_digest = none;
}

incremental_diff-remembers_iff_example :
    (get_elem? (incremental_diff the_command) 0
      ≡ some (mutant_remembered (remembered_of (plain_mutant (text "1")) new_record)))
    ↔ ((the_command.force ≡ false)
        × ((r : PreviousReuseRecord) × (remembered_of (plain_mutant (text "1")) new_record
              ≡ remembered_of (plain_mutant (text "1")) r)
            × Reusable the_command (plain_mutant (text "1")) r))
incremental_diff-remembers_iff_example =
    incremental_diff-remembers_iff the_command 0 (plain_mutant (text "1"))
      (remembered_of (plain_mutant (text "1")) new_record) refl

incremental_diff-ids_example :
    map mutant_id_of (incremental_diff the_command) ≡ text "1" ∷ text "2" ∷ text "3" ∷ []
incremental_diff-ids_example = incremental_diff-ids the_command

abbrev no_evidence : Option TimeoutEvidence
no_evidence = none

nul_free : (a b : ℕ) → a ≢ 0 → b ≢ 0 → NoNul (a ∷ b ∷ [])
nul_free a b h k = (h, (k, tt))

new_record-Digests : Digests the_command new_record
unfolding lookup text_beq
new_record-Digests = record {
  id = (λ e. ground arith, tt);
  closure = nul_free 99 49 (ground arith) (ground arith);
  closure_now = nul_free 99 49 (ground arith) (ground arith);
  program = tt;
  program_now = tt;
  engine = nul_free 101 49 (ground arith) (ground arith);
  engine_now = nul_free 101 49 (ground arith) (ground arith);
}

new_record_matches : matching_key the_command new_record ≡ true
unfolding matching_key is_compile_error_record text_beq key_of join lookup
new_record_matches = refl

matching_key-SameRun_example :
    (the_command.closure_analysis_failed ≡ false)
    × SameRun the_command new_record
    × (((is_compile_error_record new_record ≡ true)
          × (digest_of new_record.program_digest ≢ [])
          × (digest_of new_record.program_digest ≡ digest_of the_command.program_digest))
        ⊎ ((is_compile_error_record new_record ≡ false)
            × (digest_of new_record.closure_digest
                ≡ digest_of
                    (lookup new_record.mutant_id the_command.closure_digests_by_mutant_id))))
matching_key-SameRun_example =
    matching_key-SameRun the_command new_record new_record-Digests new_record_matches

same_keys :
    key_of (text "1") none (text "e1") default (text "i1")
    ≡ key_of (text "1") (some []) (text "e1") default (text "i1")
unfolding key_of
same_keys = refl

key_of-injective_example :
    (digest_of none ≡ digest_of (some []))
    × (text "e1" ≡ text "e1")
    × (default ≡ default)
    × (text "i1" ≡ text "i1")
key_of-injective_example =
    key_of-injective (text "1") none (some []) (text "e1") (text "e1") default default (text "i1")
      (text "i1") new_record-Digests.id tt tt new_record-Digests.engine new_record-Digests.engine
      same_keys
