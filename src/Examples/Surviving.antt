-- ===== src/Examples/Surviving.antt =====
-- Caps on survivors and the gate on new survivors, at concrete inputs.
use stryker_js_effect.Prelude.{
  ℕ, ◌+◌, ◌≤◌, nat_eq, Text, text, text_eq, text_beq, sort_by, ◌==◌, contains, length, count_of,
  if◌then◌else◌, true, false, none, some, succeed, List, [], ◌∷◌, ◌≡◌, refl,
}
use stryker_js_effect.Mutant.{survived, no_coverage, killed, pending}
use stryker_js_effect.Survivors.Cap.{
  SurvivorRef, CapSurvivorsCommand, survivor_ids_of, cap_survivors, surfaced_of, capped_of,
}
use stryker_js_effect.Survivors.Cap.Bounds.{on_line_of, cap_survivors-le}
use stryker_js_effect.Survivors.Cap.Partition.{is_of, cap_survivors_complete}
use stryker_js_effect.Survivors.Gate.{
  GateEntry, GateNewSurvivorsCommand, gate_cleared, gate_new_survivors,
}
use stryker_js_effect.Survivors.Gate.Update.{gate_new_survivors-update}
use stryker_js_effect.Survivors.Gate.Outcomes.{
  error_exit, rejected_among, exit_expected, rejected_expected, gate_new_survivors-exit,
}

abbrev survivor_at : Text → ℕ → SurvivorRef
survivor_at id line = record { id = id; file_name = text "a.ts"; line = line }

-- Two survivors of a line, one of another line, and the first of them again.
abbrev capping : CapSurvivorsCommand
capping = record {
  survivors =
      survivor_at (text "m2") 4
      ∷ survivor_at (text "m1") 4
      ∷ survivor_at (text "m3") 7
      ∷ survivor_at (text "m2") 4
      ∷ [];
  caps = record { per_line = 1; per_file = 2 };
}

reported : survivor_ids_of (surfaced_of (cap_survivors capping)) ≡ text "m1" ∷ text "m3" ∷ []
unfolding cap_survivors sort_by text_beq
reported = refl

held_back : survivor_ids_of (capped_of (cap_survivors capping)) ≡ text "m2" ∷ []
unfolding cap_survivors sort_by text_beq
held_back = refl

cap_survivors-le_example :
    (count_of (λ r. r.file_name == text "a.ts") (surfaced_of (cap_survivors capping)) ≤ 2)
    × (count_of (on_line_of (survivor_at (text "m1") 4)) (surfaced_of (cap_survivors capping)) ≤ 1)
cap_survivors-le_example = cap_survivors-le capping (survivor_at (text "m1") 4)

cap_survivors_complete_example :
    count_of (is_of (text "m2")) (surfaced_of (cap_survivors capping))
      + count_of (is_of (text "m2")) (capped_of (cap_survivors capping))
    ≡ (if contains (text "m2") (survivor_ids_of capping.survivors) then 1 else 0)
cap_survivors_complete_example = cap_survivors_complete capping (text "m2")

abbrev gate_entries : List GateEntry
gate_entries =
    record { id = text "m2"; file_name = text "a.ts"; line = 4; status = survived }
    ∷ record { id = text "m1"; file_name = text "a.ts"; line = 1; status = no_coverage }
    ∷ record { id = text "m3"; file_name = text "a.ts"; line = 9; status = killed }
    ∷ record { id = text "m4"; file_name = text "a.ts"; line = 9; status = pending }
    ∷ []

abbrev gating : GateNewSurvivorsCommand
gating = record {
  entries = gate_entries;
  committed = some (text "m1" ∷ []);
  baseline_file = text "survivors.json";
  update_baseline = false;
}

rejected_one : rejected_expected gate_entries gating.committed ≡ 1
unfolding text_beq
rejected_one = refl

gate_new_survivors-exit_example :
    (error_exit (gate_new_survivors gating) ≡ exit_expected gating.entries gating.committed)
    × (length (rejected_among (gate_new_survivors gating))
        ≡ rejected_expected gating.entries gating.committed)
gate_new_survivors-exit_example = gate_new_survivors-exit gating refl

gate_new_survivors-update_example :
    let update : GateNewSurvivorsCommand = record {
      entries = gate_entries;
      committed = none;
      baseline_file = text "survivors.json";
      update_baseline = true;
    } in
    (baseline : List Text) × (unchecked : List Text) × (gate_new_survivors update
      ≡ succeed (gate_cleared (some baseline) unchecked))
    × (gate_new_survivors (record update { committed = some baseline; update_baseline = false })
        ≡ succeed (gate_cleared none unchecked))
gate_new_survivors-update_example =
    gate_new_survivors-update gate_entries none (text "survivors.json")
