-- ===== src/Survivors/Gate.antt =====
-- gate-new-survivors.workflow.ts: a run passes the gate if the committed baseline has every
-- survivor. A `HashSet` is read through `contains` alone.
pub mod Outcomes
pub mod Update
use stryker_js_effect.Prelude.{
  ℕ, Text, text_eq, ◌==◌, text_ltb, contains, sort_by, Bool, true, false, Option, none, some,
  Result, fail, succeed, List, [], ◌∷◌, map, if◌then◌else◌,
}
use stryker_js_effect.Mutant.{MutantStatus, survived, no_coverage, pending}
use stryker_js_effect.Verdict.Exit.{ExitClass, verdict_fail, config_error}

pub record GateEntry : Type 0 where
  pub id : Text
  pub file_name : Text
  pub line : ℕ
  pub status : MutantStatus

-- `GateCleared`: the survivors of the baseline to write, if any, and the unchecked mutants.
pub data GateNewSurvivorsDecision : Type 0 where
  gate_cleared : Option (List Text) → List Text → GateNewSurvivorsDecision

-- `GateRejected`, and `GateInputUnusable`, whose reason names the file.
pub data GateNewSurvivorsError : Type 0 where
  gate_rejected : List GateEntry → List Text → GateNewSurvivorsError
  gate_input_unusable : Text → GateNewSurvivorsError

abbrev pub gate_exit_class : GateNewSurvivorsError → ExitClass
gate_exit_class (gate_rejected new_survivors unchecked) = verdict_fail
gate_exit_class (gate_input_unusable file) = config_error

pub record GateNewSurvivorsCommand : Type 0 where
  pub entries : List GateEntry
  pub committed : Option (List Text)
  pub baseline_file : Text
  pub update_baseline : Bool

abbrev pub has_survived : MutantStatus → Bool
has_survived survived = true
has_survived no_coverage = true
has_survived _ = false

abbrev pub is_pending : MutantStatus → Bool
is_pending pending = true
is_pending _ = false

abbrev pub survivors_among : List GateEntry → List GateEntry
survivors_among [] = []
survivors_among (e ∷ entries) =
    let rest = survivors_among entries in if has_survived e.status then e ∷ rest else rest

abbrev pub unchecked_among : List GateEntry → List GateEntry
unchecked_among [] = []
unchecked_among (e ∷ entries) =
    let rest = unchecked_among entries in if is_pending e.status then e ∷ rest else rest

abbrev pub entry_ids_of : List GateEntry → List Text
entry_ids_of entries = map (λ e. e.id) entries

abbrev pub sorted_ids_of : List GateEntry → List Text
sorted_ids_of entries = sort_by text_ltb (entry_ids_of entries)

abbrev pub entry_before : GateEntry → GateEntry → Bool
entry_before left right = text_ltb left.id right.id

abbrev pub absent_from : List Text → List GateEntry → List GateEntry
absent_from known [] = []
absent_from known (e ∷ entries) =
    let rest = absent_from known entries in if contains e.id known then rest else e ∷ rest

unfoldable pub new_survivors_of : List GateEntry → List Text → List GateEntry
new_survivors_of entries committed =
    absent_from committed (sort_by entry_before (survivors_among entries))

abbrev pub GateResult : Type 0
GateResult = Result GateNewSurvivorsError GateNewSurvivorsDecision

abbrev pub cleared_unless : List GateEntry → List Text → GateResult
cleared_unless [] unchecked = succeed (gate_cleared none unchecked)
cleared_unless (e ∷ new_survivors) unchecked = fail (gate_rejected (e ∷ new_survivors) unchecked)

unfoldable pub cleared_or_rejected : GateNewSurvivorsCommand → List Text → GateResult
unfolding new_survivors_of
cleared_or_rejected command committed =
    cleared_unless (new_survivors_of command.entries committed)
      (sorted_ids_of (unchecked_among command.entries))

abbrev pub with_committed : GateNewSurvivorsCommand → Option (List Text) → GateResult
with_committed command none = fail (gate_input_unusable command.baseline_file)
with_committed command (some committed) = cleared_or_rejected command committed

abbrev pub cleared_for_update : GateNewSurvivorsCommand → GateNewSurvivorsDecision
cleared_for_update command =
    gate_cleared (some (sorted_ids_of (survivors_among command.entries)))
      (sorted_ids_of (unchecked_among command.entries))

unfoldable pub gate_new_survivors : GateNewSurvivorsCommand → GateResult
unfolding cleared_or_rejected
gate_new_survivors command =
    if command.update_baseline
    then succeed (cleared_for_update command)
    else with_committed command command.committed
