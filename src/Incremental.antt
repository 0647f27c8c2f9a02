-- ===== src/Incremental.antt =====
-- incremental-diff.workflow.ts and IncrementalDiff.schema.ts (packages/stryker-js/src): for each
-- mutant of this run, whether the verdict of an earlier run is remembered or the mutant runs.
pub mod Decide
pub mod Keys
pub mod Reuse
pub mod Explains
pub mod Refusals
use stryker_js_effect.Prelude.{
  ℕ, Text, text, text_eq, ◌==◌, Dict, lookup, get_or_else, map_option, ltb, is_empty, last?, filter,
  contains, Bool, true, false, not, ◌&&◌, ◌||◌, Option, none, some, List, [], ◌∷◌, ◌++◌, map, foldl,
  if◌then◌else◌,
}
use stryker_js_effect.Mutant.{
  MutantStatus, timeout, compile_error, ignored, status_eq, is_remembered_status, Subsumption,
  Mutant, MutantSetPolicy, default, full,
}

pub data ReuseRefusalReason : Type 0 where
  semantics_changed policy_changed run_inputs_changed closure_changed closure_analysis_failed
        program_changed flaky_dependency timeout_unreproduced no_prior_record decided_per_run :
      ReuseRefusalReason

pub data TimeoutKind : Type 0 where
  wall_clock hit_limit : TimeoutKind

pub record TimeoutEvidence : Type 0 where
  pub timeout_kind : TimeoutKind
  pub reproductions : ℕ

-- The two cases of the schema differ in `status` alone: an `Ignored` record has a status reason.
pub record PreviousReuseRecord : Type 0 where
  pub mutant_id : Text
  pub closure_digest : Option Text
  pub program_digest : Option Text
  pub engine_digest : Text
  pub mutant_set_policy : MutantSetPolicy
  pub run_inputs_digest : Text
  pub timeout_kind : Option TimeoutKind
  pub reproductions : Option ℕ
  pub tests_completed : Option ℕ
  pub covered_by : Option (List Text)
  pub killed_by : Option (List Text)
  pub subsumption : Option Subsumption
  pub status : MutantStatus
  pub status_reason : Option Text

pub record IncrementalDiffCommand : Type 0 where
  pub current_mutants : List Mutant
  pub previous_records : List PreviousReuseRecord
  pub closure_digests_by_mutant_id : Dict Text
  pub closure_analysis_failed : Bool
  pub engine_digest : Text
  pub mutant_set_policy : MutantSetPolicy
  pub run_inputs_digest : Text
  pub force : Bool
  pub flaky_mutant_ids : Option (List Text)
  pub program_digest : Option Text

-- `MutantRememberedIgnored` and `MutantRememberedSettled`, told apart by `status`.
pub record MutantRemembered : Type 0 where
  pub mutant_id : Text
  pub status : MutantStatus
  pub status_reason : Option Text
  pub timeout_kind : Option TimeoutKind
  pub reproductions : Option ℕ
  pub tests_completed : Option ℕ
  pub covered_by : Option (List Text)
  pub killed_by : Option (List Text)

pub data IncrementalDiffDecision : Type 0 where
  mutant_remembered : MutantRemembered → IncrementalDiffDecision
  mutant_to_run : Mutant → ReuseRefusalReason → Option TimeoutEvidence → IncrementalDiffDecision

abbrev pub is_hit_limit : Option TimeoutKind → Bool
is_hit_limit (some hit_limit) = true
is_hit_limit _ = false

abbrev pub is_present {ℓ} : {A : Type ℓ} → Option A → Bool
is_present none = false
is_present (some a) = true

unfoldable pub is_unreproduced_wall_clock_timeout : PreviousReuseRecord → Bool
is_unreproduced_wall_clock_timeout r =
    r.status == timeout
    && (not (is_hit_limit r.timeout_kind) && ltb (get_or_else r.reproductions 0) 1)

unfoldable pub carries_subsumption_reference : PreviousReuseRecord → Bool
carries_subsumption_reference r = is_present r.subsumption

unfoldable pub is_reusable_record : PreviousReuseRecord → Bool
is_reusable_record r =
    is_remembered_status r.status
    && not (is_unreproduced_wall_clock_timeout r)
    && not (carries_subsumption_reference r)

unfoldable pub timeout_evidence_of : PreviousReuseRecord → Option TimeoutEvidence
timeout_evidence_of r =
    map_option
      (λ kind. record { timeout_kind = kind; reproductions = get_or_else r.reproductions 0 })
      r.timeout_kind

abbrev pub digest_of : Option Text → Text
digest_of digest = get_or_else digest []

unfoldable pub is_compile_error_record : PreviousReuseRecord → Bool
is_compile_error_record r = r.status == compile_error

-- The literals of `Options.MutantSetPolicy`.
abbrev pub policy_text : MutantSetPolicy → Text
policy_text default = text "default"
policy_text full = text "full"

-- `[a, b, …].join('\u0000')`.
unfoldable pub join : List Text → Text
join [] = []
join (x ∷ []) = x
join (x ∷ y ∷ ys) = x ++ 0 ∷ join (y ∷ ys)

unfoldable pub key_of : Text → Option Text → Text → MutantSetPolicy → Text → Text
key_of mutant_id digest engine policy inputs =
    join (mutant_id ∷ digest_of digest ∷ engine ∷ policy_text policy ∷ inputs ∷ [])
