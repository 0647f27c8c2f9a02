-- ===== src/Verdict/Budget.antt =====
-- budget-gate.workflow.ts: the run's seconds against the accepted baseline.
use stryker_js_effect.Prelude.{
  Text, Bool, true, false, Option, none, some, Result, fail, succeed, ◌≡◌, ◌↔◌, refl, arith,
  if◌then◌else◌,
}
use stryker_js_effect.Numbers.{Numbers}
use stryker_js_effect.Verdict.Exit.{ExitClass, verdict_fail, config_error}

module _ (numbers : Numbers) where
  open numbers use {Number, of_ℕ, plus, times, less}

  -- The only `schemaVersion` is the current one.
  pub record BudgetBaseline : Type 0 where
    pub actual_seconds : Number

  pub record BudgetGateCommand : Type 0 where
    pub actual_seconds : Number
    pub baseline : Option BudgetBaseline
    pub tolerance : Number
    pub update_baseline : Bool
    pub baseline_file : Text

  -- `BudgetWithin`: the baseline to write, if any.
  pub data BudgetGateDecision : Type 0 where
    budget_within : Option BudgetBaseline → BudgetGateDecision

  -- `BudgetExceeded` with its four numbers, and `BudgetInputUnusable`, whose reason names the file.
  pub data BudgetGateError : Type 0 where
    budget_exceeded : Number → Number → Number → Number → BudgetGateError
    budget_input_unusable : Text → BudgetGateError

  abbrev pub budget_exit_class : BudgetGateError → ExitClass
  budget_exit_class (budget_exceeded b a s t) = verdict_fail
  budget_exit_class (budget_input_unusable file) = config_error

  abbrev pub allowed_seconds_of : Number → Number → Number
  allowed_seconds_of baseline_seconds tolerance = times baseline_seconds (plus (of_ℕ 1) tolerance)

  -- `a > b` is `b < a`.
  pub within_or_exceeded :
      BudgetGateCommand → BudgetBaseline → Result BudgetGateError BudgetGateDecision
  within_or_exceeded command baseline =
      let allowed = allowed_seconds_of baseline.actual_seconds command.tolerance in
      if less allowed command.actual_seconds
      then fail
          (budget_exceeded baseline.actual_seconds allowed command.actual_seconds command.tolerance)
      else succeed (budget_within none)

  pub updated : BudgetGateCommand → BudgetGateDecision
  updated command = budget_within (some (record { actual_seconds = command.actual_seconds }))

  abbrev pub against :
      BudgetGateCommand → Option BudgetBaseline → Result BudgetGateError BudgetGateDecision
  against command none = fail (budget_input_unusable command.baseline_file)
  against command (some baseline) = within_or_exceeded command baseline

  unfoldable pub budget_gate : BudgetGateCommand → Result BudgetGateError BudgetGateDecision
  unfolding within_or_exceeded updated
  budget_gate command =
      if command.update_baseline
      then succeed (updated command)
      else against command command.baseline

  abbrev pub Fails : BudgetGateCommand → ExitClass → Type 0
  Fails command class =
      (e : BudgetGateError) × (budget_gate command ≡ fail e) × (budget_exit_class e ≡ class)

  abbrev pub Over : BudgetGateCommand → Type 0
  Over command =
      (b : BudgetBaseline) × (command.baseline ≡ some b)
      × (less (allowed_seconds_of b.actual_seconds command.tolerance) command.actual_seconds ≡ true)

  abbrev pub Branches : BudgetGateCommand → Type 0
  Branches command =
      (Fails command verdict_fail ↔ ((command.update_baseline ≡ false) × Over command))
      × (Fails command config_error
          ↔ ((command.update_baseline ≡ false) × (command.baseline ≡ none)))
      × ((b : BudgetBaseline)
          → (budget_gate command ≡ succeed (budget_within (some b)))
            ↔ ((command.update_baseline ≡ true) × (b.actual_seconds ≡ command.actual_seconds)))

  branches :
      (a t : Number) (base : Option BudgetBaseline) (u : Bool) (file : Text)
      → let command : BudgetGateCommand = record {
        actual_seconds = a;
        baseline = base;
        tolerance = t;
        update_baseline = u;
        baseline_file = file;
      } in
        Branches command
  unfolding budget_gate
  branches a t base true file = (
    (λ (e, f, g). absurd (ground arith), λ (f, o). absurd (ground arith)),
    (λ (e, f, g). absurd (ground arith), λ (f, o). absurd (ground arith)),
    λ b. (λ h. (refl, ground arith), λ h. ground arith),
  )
  branches a t none false file = (
    (λ (e, f, g). absurd (ground arith), λ (f, (b, o, l)). absurd (ground arith)),
    (λ h. (refl, refl), λ h. (budget_input_unusable file, refl, refl)),
    λ b. (λ h. absurd (ground arith), λ h. absurd (ground arith)),
  )
  branches a t (some base) false file =
      let allowed = allowed_seconds_of base.actual_seconds t in
      (
        (
          λ (e, f, g). (refl, (base, refl, ground arith)),
          λ (f, (b, o, l)). (budget_exceeded base.actual_seconds allowed a t, ground arith, refl),
        ),
        (λ (e, f, g). absurd (ground arith), λ (f, o). absurd (ground arith)),
        λ b. (λ h. absurd (ground arith), λ h. absurd (ground arith)),
      )

  -- The gate fails the verdict exactly when it does not update, has a baseline, and the run took
  -- longer than the baseline allows. It reports a configuration error exactly when it does not
  -- update and has no baseline. It writes a baseline only when it updates, the seconds of this run.
  pub budget_gate-Branches : (command : BudgetGateCommand) → Branches command
  budget_gate-Branches command =
      branches command.actual_seconds command.tolerance command.baseline command.update_baseline
        command.baseline_file
