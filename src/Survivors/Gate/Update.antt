-- ===== src/Survivors/Gate/Update.antt =====
-- A baseline that the gate writes, read by the gate.
use stryker_js_effect.Prelude.{
  Text, text_eq, ==_refl, text_ltb, contains, contains-sort_by, sort_by, true, false, ◌||◌, Option,
  none, some, succeed, List, [], ◌∷◌, All, All-imp, All-sort_by, ◌≡◌, refl, ap, ◌∙◌, arith,
}
use stryker_js_effect.Survivors.Gate.{
  GateEntry, GateNewSurvivorsCommand, gate_cleared, survivors_among, unchecked_among, entry_ids_of,
  sorted_ids_of, entry_before, absent_from, new_survivors_of, cleared_unless, gate_new_survivors,
}

absent_from_none :
    (known : List Text) (entries : List GateEntry)
    → All (λ e. contains e.id known ≡ true) entries
    → absent_from known entries ≡ []
absent_from_none known [] h = refl
absent_from_none known (e ∷ entries) h = rw (h.0) (absent_from_none known entries h.1)

weaken : (x a : Text) (xs : List Text) → contains a xs ≡ true → contains a (x ∷ xs) ≡ true
weaken x a xs h = ground arith

All-contained :
    (entries : List GateEntry) → All (λ e. contains e.id (entry_ids_of entries) ≡ true) entries
All-contained [] = tt
All-contained (e ∷ entries) = (
  ap (λ b. b || contains e.id (entry_ids_of entries)) (==_refl e.id),
  All-imp _ _ entries (λ a h. weaken e.id a.id (entry_ids_of entries) h) (All-contained entries),
)

new_survivors_of_self :
    (entries : List GateEntry)
    → new_survivors_of entries (sorted_ids_of (survivors_among entries)) ≡ []
unfolding new_survivors_of
new_survivors_of_self entries =
    let survivors = survivors_among entries in
    absent_from_none (sorted_ids_of survivors) (sort_by entry_before survivors) (
      All-sort_by _ entry_before survivors (
        All-imp _ _ survivors (λ a h. contains-sort_by text_ltb a.id (entry_ids_of survivors) ∙ h)
          (All-contained survivors)))

-- Whatever the entries: the gate with the update flag clears and writes a baseline, and the gate
-- on the same entries without the flag, against that baseline, clears and writes none; both list
-- the same unchecked mutants.
pub gate_new_survivors-update :
    (entries : List GateEntry) (committed : Option (List Text)) (file : Text)
    → let update : GateNewSurvivorsCommand = record {
      entries = entries;
      committed = committed;
      baseline_file = file;
      update_baseline = true;
    } in
      (baseline : List Text) × (unchecked : List Text) × (gate_new_survivors update
        ≡ succeed (gate_cleared (some baseline) unchecked))
      × (gate_new_survivors (record update { committed = some baseline; update_baseline = false })
          ≡ succeed (gate_cleared none unchecked))
unfolding gate_new_survivors
gate_new_survivors-update entries committed file =
    let unchecked = sorted_ids_of (unchecked_among entries) in
    (
      sorted_ids_of (survivors_among entries),
      unchecked,
      refl,
      ap (λ new. cleared_unless new unchecked) (new_survivors_of_self entries),
    )
