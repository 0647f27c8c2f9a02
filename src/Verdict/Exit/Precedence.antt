-- ===== src/Verdict/Exit/Precedence.antt =====
-- The gravity of the exit and of the pending classes.
use stryker_js_effect.Prelude.{ℕ, max, List, [], ◌∷◌, ◌++◌, ◌≡◌, refl, arith}
use stryker_js_effect.Verdict.Exit.{
  ExitClass, verdict_fail, config_error, runtime_error, internal_error, exit_class_eq,
  ClassifyExitDecision, exit_passed, exit_verdict_failed, exit_config_errored, exit_runtime_errored,
  exit_internal_errored, classify_exit,
}

-- How grave a class is, and the gravity of a decision.
abbrev pub gravity : ExitClass → ℕ
gravity verdict_fail = 1
gravity config_error = 2
gravity runtime_error = 3
gravity internal_error = 4

abbrev pub gravest : List ExitClass → ℕ
gravest [] = 0
gravest (c ∷ pending) = max (gravity c) (gravest pending)

abbrev pub decision_gravity : ClassifyExitDecision → ℕ
decision_gravity exit_passed = 0
decision_gravity exit_verdict_failed = 1
decision_gravity exit_config_errored = 2
decision_gravity exit_runtime_errored = 3
decision_gravity exit_internal_errored = 4

-- The decision is by the gravest pending class; with none pending the run passed.
pub classify_exit-gravest :
    (pending : List ExitClass) → decision_gravity (classify_exit pending) ≡ gravest pending
unfolding classify_exit
classify_exit-gravest [] = refl
classify_exit-gravest (c ∷ pending) = ground (arith, classify_exit-gravest pending)

gravest-append : (p q : List ExitClass) → gravest (p ++ q) ≡ max (gravest p) (gravest q)
gravest-append [] q = omega arith
gravest-append (c ∷ p) q = omega (arith, gravest-append p q)

gravity_injective : (a b : ClassifyExitDecision) → decision_gravity a ≡ decision_gravity b → a ≡ b
gravity_injective a b h = ground arith

-- With the pending classes of two parts of a run together, the exit is the graver of the two
-- exits, and in which order the parts report makes no difference.
pub classify_exit-append :
    (p q : List ExitClass)
    → (decision_gravity (classify_exit (p ++ q))
        ≡ max (decision_gravity (classify_exit p)) (decision_gravity (classify_exit q)))
      × (classify_exit (p ++ q) ≡ classify_exit (q ++ p))
classify_exit-append p q =
    let g = λ (x : List ExitClass). classify_exit-gravest x in
    (
      omega (arith, g (p ++ q), g p, g q, gravest-append p q),
      gravity_injective _ _
          (omega (arith, g (p ++ q), g (q ++ p), gravest-append p q, gravest-append q p)),
    )
