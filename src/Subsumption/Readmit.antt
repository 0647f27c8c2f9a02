-- ===== src/Subsumption/Readmit.antt =====
-- readmit-subsumed.workflow.ts: a mutant that was held back stays subsumed if one of its
-- dominators ran, and runs after all if none did.
pub mod Rulings
use stryker_js_effect.Prelude.{
  Text, text_eq, ◌==◌, some_of, find_first, Bool, Option, none, some, Result, fail, succeed,
  map_result, all_results, List, [], ◌∷◌, map, if◌then◌else◌,
}
use stryker_js_effect.Mutant.{
  MutantStatus, killed, survived, timeout, no_coverage, runtime_error, status_eq,
}

-- The status of `settled` is one of `running_statuses`.
pub data DominatorOutcome : Type 0 where
  settled : MutantStatus → DominatorOutcome
  ignored_at_check : Text → DominatorOutcome
  compiled_with_error : DominatorOutcome
  ignored_at_plan : DominatorOutcome
  remembered : MutantStatus → DominatorOutcome

pub data ReadmitCauseOutcome : Type 0 where
  cause_ignored_at_check : Text → ReadmitCauseOutcome
  cause_compiled_with_error : ReadmitCauseOutcome
  cause_ignored_at_plan : ReadmitCauseOutcome
  cause_remembered : MutantStatus → ReadmitCauseOutcome
  cause_unsettled : ReadmitCauseOutcome

pub record ReadmitCause : Type 0 where
  pub dominator : Text
  pub outcome : ReadmitCauseOutcome

pub record HeldMutant : Type 0 where
  pub id : Text
  pub dominators : List Text

pub record DominatorSettlement : Type 0 where
  pub id : Text
  pub outcome : DominatorOutcome

pub record ReadmitSubsumedCommand : Type 0 where
  pub held : List HeldMutant
  pub settlements : List DominatorSettlement

pub data SubsumptionRuling : Type 0 where
  still_subsumed : Text → Text → SubsumptionRuling
  readmitted : Text → List ReadmitCause → SubsumptionRuling

abbrev pub running_statuses : List MutantStatus
running_statuses = killed ∷ survived ∷ timeout ∷ no_coverage ∷ runtime_error ∷ []

abbrev pub runs_with_status : MutantStatus → Bool
runs_with_status status = some_of (λ s. s == status) running_statuses

abbrev pub verdict_of_outcome : DominatorOutcome → Text → Result Text ReadmitCauseOutcome
verdict_of_outcome (settled status) dominator = fail dominator
verdict_of_outcome (remembered status) dominator =
    if runs_with_status status then fail dominator else succeed (cause_remembered status)
verdict_of_outcome (ignored_at_check reason) dominator = succeed (cause_ignored_at_check reason)
verdict_of_outcome ignored_at_plan dominator = succeed cause_ignored_at_plan
verdict_of_outcome compiled_with_error dominator = succeed cause_compiled_with_error

pub settlement_of : List DominatorSettlement → Text → Option DominatorSettlement
settlement_of settlements dominator = find_first (λ s. s.id == dominator) settlements

abbrev pub verdict_of : Option DominatorSettlement → Text → Result Text ReadmitCauseOutcome
verdict_of none dominator = succeed cause_unsettled
verdict_of (some settlement) dominator = verdict_of_outcome settlement.outcome dominator

pub cause_of : List DominatorSettlement → Text → Result Text ReadmitCause
cause_of settlements dominator =
    map_result (λ o. record { dominator = dominator; outcome = o })
      (verdict_of (settlement_of settlements dominator) dominator)

abbrev pub ruling : Text → Result Text (List ReadmitCause) → SubsumptionRuling
ruling id (fail dominator) = still_subsumed id dominator
ruling id (succeed causes) = readmitted id causes

unfoldable pub ruling_of : List DominatorSettlement → HeldMutant → SubsumptionRuling
unfolding cause_of settlement_of
ruling_of settlements held =
    ruling held.id (all_results (map (cause_of settlements) held.dominators))

unfoldable pub readmit_subsumed : ReadmitSubsumedCommand → List SubsumptionRuling
unfolding ruling_of
readmit_subsumed command = map (ruling_of command.settlements) command.held
