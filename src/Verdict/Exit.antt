-- ===== src/Verdict/Exit.antt =====
-- classify-exit.workflow.ts: of all pending exit classes the gravest decides.
pub mod Precedence
use stryker_js_effect.Prelude.{
  Eq, ◌==◌, ◌↔◌, ◌≡◌, arith, some_of, find_first, Bool, true, false, Option, none, some, List, [],
  ◌∷◌, if◌then◌else◌,
}

-- `Plugin.ExitClass`.
pub data ExitClass : Type 0 where
  verdict_fail config_error runtime_error internal_error : ExitClass

abbrev pub exit_class_beq : ExitClass → ExitClass → Bool
exit_class_beq verdict_fail verdict_fail = true
exit_class_beq config_error config_error = true
exit_class_beq runtime_error runtime_error = true
exit_class_beq internal_error internal_error = true
exit_class_beq _ _ = false

pub exit_class_beq_iff : (a b : ExitClass) → (exit_class_beq a b ≡ true) ↔ (a ≡ b)
exit_class_beq_iff a b = ground arith

instance abbrev pub exit_class_eq : Eq ExitClass
exit_class_eq = record { beq = exit_class_beq; beq_iff = exit_class_beq_iff }

pub data ClassifyExitDecision : Type 0 where
  exit_passed exit_verdict_failed exit_config_errored exit_runtime_errored exit_internal_errored :
      ClassifyExitDecision

abbrev pub precedence : List ExitClass
precedence = internal_error ∷ runtime_error ∷ config_error ∷ verdict_fail ∷ []

-- `pending.includes(candidate)`.
abbrev pub includes : List ExitClass → ExitClass → Bool
includes [] candidate = false
includes (c ∷ pending) candidate = if c == candidate then true else includes pending candidate

pub precedence_of : List ExitClass → Option ExitClass
precedence_of pending = find_first (includes pending) precedence

abbrev pub decision_of : ExitClass → ClassifyExitDecision
decision_of verdict_fail = exit_verdict_failed
decision_of config_error = exit_config_errored
decision_of runtime_error = exit_runtime_errored
decision_of internal_error = exit_internal_errored

abbrev pub decided : Option ExitClass → ClassifyExitDecision
decided none = exit_passed
decided (some exit_class) = decision_of exit_class

unfoldable pub classify_exit : List ExitClass → ClassifyExitDecision
unfolding precedence_of
classify_exit pending = decided (precedence_of pending)
