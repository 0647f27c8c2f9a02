-- ===== src/Mutant.antt =====
-- packages/stryker-js-plugin-interface/src/Mutant.schema.ts: the data that the other parts share.
-- `testsCompleted`, a finite number of the schema, is a count here.
use stryker_js_effect.Prelude.{ℕ, Text, Eq, Bool, true, false, Option, List, ◌↔◌, ◌≡◌, arith}

pub data MutantStatus : Type 0 where
  killed survived no_coverage compile_error runtime_error timeout ignored pending : MutantStatus

abbrev pub status_beq : MutantStatus → MutantStatus → Bool
status_beq killed killed = true
status_beq survived survived = true
status_beq no_coverage no_coverage = true
status_beq compile_error compile_error = true
status_beq runtime_error runtime_error = true
status_beq timeout timeout = true
status_beq ignored ignored = true
status_beq pending pending = true
status_beq _ _ = false

pub status_beq_iff : (a b : MutantStatus) → (status_beq a b ≡ true) ↔ (a ≡ b)
status_beq_iff a b = ground arith

instance abbrev pub status_eq : Eq MutantStatus
status_eq = record { beq = status_beq; beq_iff = status_beq_iff }

-- `S.is(RememberedStatusSchema)`.
abbrev pub is_remembered_status : MutantStatus → Bool
is_remembered_status survived = true
is_remembered_status killed = true
is_remembered_status timeout = true
is_remembered_status no_coverage = true
is_remembered_status ignored = true
is_remembered_status compile_error = true
is_remembered_status _ = false

pub data ReadmitCauseCode : Type 0 where
  dominator_ignored_at_check dominator_compile_error dominator_ignored_at_plan
        dominator_remembered_without_running dominator_unsettled :
      ReadmitCauseCode

pub record ReadmitReason : Type 0 where
  pub dominator : Text
  pub code : ReadmitCauseCode
  pub detail : Text

-- The only `rule` is `complement`.
pub data Subsumption : Type 0 where
  subsumed : List Text → Subsumption
  readmitted : List ReadmitReason → Subsumption

pub record Position : Type 0 where
  pub line : ℕ
  pub column : ℕ

pub record Location : Type 0 where
  pub start_at : Position
  pub end_at : Position

pub record Mutant : Type 0 where
  pub id : Text
  pub file_name : Text
  pub mutator_name : Text
  pub replacement : Text
  pub location : Location
  pub status : Option MutantStatus
  pub status_reason : Option Text
  pub covered_by : Option (List Text)
  pub static : Option Bool
  pub tests_completed : Option ℕ
  pub description : Option Text
  pub subsumption : Option Subsumption

-- `options.mutantSetPolicy`.
pub data MutantSetPolicy : Type 0 where
  default full : MutantSetPolicy
