-- ===== src/Survivors/Gate/Outcomes.antt =====
-- When the gate clears, and with which error it fails.
use stryker_js_effect.Prelude.{
  ℕ, Text, text_eq, ◌==◌, contains, length, sort_by, sort_by-perm, count_of, count_of-perm, Bool,
  false, not, ◌&&◌, Option, none, some, fail, succeed, List, [], ◌∷◌, if◌then◌else◌, ◌≡◌, refl, ◌∙◌,
  arith, nat_eq,
}
use stryker_js_effect.Verdict.Exit.{ExitClass, verdict_fail, config_error}
use stryker_js_effect.Survivors.Gate.{
  GateEntry, GateResult, GateNewSurvivorsCommand, gate_rejected, gate_exit_class, has_survived,
  survivors_among, unchecked_among, sorted_ids_of, entry_before, absent_from, new_survivors_of,
  cleared_unless, cleared_or_rejected, gate_new_survivors, with_committed,
}

abbrev is_unknown : List Text → GateEntry → Bool
is_unknown known e = not (contains e.id known)

-- A survivor that the baseline does not have.
abbrev pub is_new : List Text → GateEntry → Bool
is_new known e = has_survived e.status && is_unknown known e

-- The class the run exits with, and the survivors that the error names.
abbrev pub error_exit : GateResult → Option ExitClass
error_exit (succeed decision) = none
error_exit (fail error) = some (gate_exit_class error)

abbrev pub rejected_among : GateResult → List GateEntry
rejected_among (fail (gate_rejected new_survivors unchecked)) = new_survivors
rejected_among _ = []

abbrev pub exit_expected : List GateEntry → Option (List Text) → Option ExitClass
exit_expected entries none = some config_error
exit_expected entries (some known) =
    if count_of (is_new known) entries == 0 then none else some verdict_fail

abbrev pub rejected_expected : List GateEntry → Option (List Text) → ℕ
rejected_expected entries none = 0
rejected_expected entries (some known) = count_of (is_new known) entries

length-absent_from :
    (known : List Text) (xs : List GateEntry)
    → length (absent_from known xs) ≡ count_of (is_unknown known) xs
length-absent_from known [] = refl
length-absent_from known (e ∷ xs) = ground (arith, length-absent_from known xs)

count_of-survivors_among :
    (known : List Text) (xs : List GateEntry)
    → count_of (is_unknown known) (survivors_among xs) ≡ count_of (is_new known) xs
count_of-survivors_among known [] = refl
count_of-survivors_among known (e ∷ xs) = ground (arith, count_of-survivors_among known xs)

length-new_survivors_of :
    (entries : List GateEntry) (known : List Text)
    → length (new_survivors_of entries known) ≡ count_of (is_new known) entries
unfolding new_survivors_of
length-new_survivors_of entries known =
    length-absent_from known (sort_by entry_before (survivors_among entries))
    ∙ count_of-perm (is_unknown known) (sort_by-perm entry_before (survivors_among entries))
    ∙ count_of-survivors_among known entries

cleared_unless-exit :
    (new_survivors : List GateEntry) (unchecked : List Text)
    → (error_exit (cleared_unless new_survivors unchecked)
        ≡ (if length new_survivors == 0 then none else some verdict_fail))
      × (rejected_among (cleared_unless new_survivors unchecked) ≡ new_survivors)
cleared_unless-exit [] unchecked = (refl, refl)
cleared_unless-exit (e ∷ new_survivors) unchecked = (ground arith, refl)

with_committed-exit :
    (command : GateNewSurvivorsCommand) (committed : Option (List Text))
    → (error_exit (with_committed command committed) ≡ exit_expected command.entries committed)
      × (length (rejected_among (with_committed command committed))
          ≡ rejected_expected command.entries committed)
unfolding cleared_or_rejected
with_committed-exit command none = (refl, refl)
with_committed-exit command (some known) =
    let new = new_survivors_of command.entries known in
    let unchecked = sorted_ids_of (unchecked_among command.entries) in
    let exit = cleared_unless-exit new unchecked in
    let len = length-new_survivors_of command.entries known in
    (exit.0 ∙ rw len refl, rw (exit.1) len)

-- Without the update flag, whatever the entries and the baseline: the gate fails as a
-- configuration error exactly if there is no committed baseline, it fails as a failed verdict
-- exactly if some survivor is not in the committed baseline, and it clears otherwise; and a
-- rejection names as many survivors as there are that the baseline does not have.
pub gate_new_survivors-exit :
    (command : GateNewSurvivorsCommand)
    → command.update_baseline ≡ false
    → (error_exit (gate_new_survivors command) ≡ exit_expected command.entries command.committed)
      × (length (rejected_among (gate_new_survivors command))
          ≡ rejected_expected command.entries command.committed)
unfolding gate_new_survivors
gate_new_survivors-exit command h = simp h (with_committed-exit command command.committed)
