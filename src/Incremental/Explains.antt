-- ===== src/Incremental/Explains.antt =====
-- What each reason of `refusalOf` says of the record and the run.
use stryker_js_effect.Prelude.{
  Text, text_eq, text_beq_iff, true, false, true≢false, text_beq, not, ◌&&◌, Bool-cases,
  if◌then◌else◌, ◌≡◌, ◌≢◌, refl, sym, ◌∙◌, inl, inr, arith, lookup, ◌⊎◌, ◌↔◌,
}
use stryker_js_effect.Mutant.{MutantSetPolicy}
use stryker_js_effect.Incremental.{
  ReuseRefusalReason, semantics_changed, policy_changed, run_inputs_changed, closure_changed,
  closure_analysis_failed, program_changed, timeout_unreproduced, no_prior_record,
  PreviousReuseRecord, IncrementalDiffCommand, is_unreproduced_wall_clock_timeout,
  is_compile_error_record, digest_of,
}
use stryker_js_effect.Incremental.Decide.{
  matching_program_key, refusal_of, policy_beq, closure_digest_changed, reason_after_closure,
  program_has_changed,
}

-- What every record that is compared further has in common with the run.
abbrev pub HasSameInputs : IncrementalDiffCommand → PreviousReuseRecord → Type 0
HasSameInputs command r =
    (r.engine_digest ≡ command.engine_digest)
    × (r.mutant_set_policy ≡ command.mutant_set_policy)
    × (r.run_inputs_digest ≡ command.run_inputs_digest)

-- A compile error stands under the same program, any other result under the same closure.
abbrev pub HasSameProgram : IncrementalDiffCommand → PreviousReuseRecord → Type 0
HasSameProgram command r =
    ((is_compile_error_record r ≡ true) × (matching_program_key command r ≡ true))
    ⊎ ((is_compile_error_record r ≡ false)
        × (digest_of r.closure_digest
            ≡ digest_of (lookup r.mutant_id command.closure_digests_by_mutant_id)))

-- What the record says of the run when its reason is this one: the reason is true of it, and what
-- is tested before that reason does not speak against the record.
abbrev pub Explains : IncrementalDiffCommand → PreviousReuseRecord → ReuseRefusalReason → Type 0
Explains command r semantics_changed = r.engine_digest ≢ command.engine_digest
Explains command r policy_changed =
    (r.engine_digest ≡ command.engine_digest) × (r.mutant_set_policy ≢ command.mutant_set_policy)
Explains command r run_inputs_changed =
    (r.engine_digest ≡ command.engine_digest)
    × (r.mutant_set_policy ≡ command.mutant_set_policy)
    × (r.run_inputs_digest ≢ command.run_inputs_digest)
Explains command r program_changed =
    HasSameInputs command r
    × (is_compile_error_record r ≡ true)
    × (matching_program_key command r ≡ false)
Explains command r closure_analysis_failed =
    HasSameInputs command r
    × ((is_compile_error_record r ≡ false) ⊎ (matching_program_key command r ≡ true))
    × (command.closure_analysis_failed ≡ true)
Explains command r closure_changed =
    HasSameInputs command r
    × (command.closure_analysis_failed ≡ false)
    × (is_compile_error_record r ≡ false)
    × (digest_of r.closure_digest
        ≢ digest_of (lookup r.mutant_id command.closure_digests_by_mutant_id))
Explains command r timeout_unreproduced =
    HasSameInputs command r
    × (command.closure_analysis_failed ≡ false)
    × HasSameProgram command r
    × (is_unreproduced_wall_clock_timeout r ≡ true)
Explains command r no_prior_record =
    HasSameInputs command r
    × (command.closure_analysis_failed ≡ false)
    × HasSameProgram command r
    × (is_unreproduced_wall_clock_timeout r ≡ false)
Explains command r _ = ⊥

policy_beq_iff : (p q : MutantSetPolicy) → (policy_beq p q ≡ true) ↔ (p ≡ q)
policy_beq_iff p q = ground arith

ne_of_beq : (a b : Text) → text_beq a b ≡ false → a ≢ b
ne_of_beq a b n e = true≢false (sym ((text_beq_iff a b).1 e) ∙ n)

module _ (command : IncrementalDiffCommand) (r : PreviousReuseRecord)
    (inputs : HasSameInputs command r) where
  timeout_or_none :
      command.closure_analysis_failed ≡ false
      → HasSameProgram command r
      → Explains command r
          (if is_unreproduced_wall_clock_timeout r then timeout_unreproduced else no_prior_record)
  timeout_or_none fine program = elim (Bool-cases (is_unreproduced_wall_clock_timeout r)) [
    | inl t ↦ rw t (inputs, fine, program, t)
    | inr n ↦ rw n (inputs, fine, program, n)
  ]

  after_closure :
      (is_compile_error_record r ≡ false) ⊎ (matching_program_key command r ≡ true)
      → Explains command r (reason_after_closure command r)
  unfolding reason_after_closure closure_digest_changed
  after_closure program = elim (Bool-cases command.closure_analysis_failed) [
    | inl failed ↦ simp failed (inputs, program, refl)
    | inr fine ↦ simp fine (elim (Bool-cases (is_compile_error_record r)) [
      | inl compile ↦
          simp compile (timeout_or_none fine (inl (compile, ground (arith, program, compile))))
      | inr other ↦
          simp other
            (elim (Bool-cases (
              text_beq (digest_of r.closure_digest)
                (digest_of (lookup r.mutant_id command.closure_digests_by_mutant_id)))) [
                  | inl same ↦
                      simp same (timeout_or_none fine (inr (other, (text_beq_iff _ _).0 same)))
                  | inr differs ↦ simp differs (inputs, fine, other, ne_of_beq _ _ differs)
                ])
    ])
  ]

  after_program :
      Explains command r
        (if program_has_changed command r then program_changed else reason_after_closure command r)
  unfolding program_has_changed
  after_program =
      elim (Bool-cases (is_compile_error_record r && not (matching_program_key command r))) [
        | inl c ↦ rw c (inputs, ground arith, ground arith)
        | inr n ↦ rw n (after_closure (ground arith))
      ]

-- The tests of `refusalOf` in their order; each branch is explained by the tests that lead to it.
pub refusal_of-Explains :
    (command : IncrementalDiffCommand) (r : PreviousReuseRecord)
    → Explains command r (refusal_of command r)
unfolding refusal_of
refusal_of-Explains command r = elim (Bool-cases (text_beq r.engine_digest command.engine_digest)) [
  | inr e ↦ rw e (ne_of_beq _ _ e)
  | inl e ↦ rw e (elim (Bool-cases (policy_beq r.mutant_set_policy command.mutant_set_policy)) [
    | inr p ↦ rw p ((text_beq_iff _ _).0 e, λ q. true≢false (sym ((policy_beq_iff _ _).1 q) ∙ p))
    | inl p ↦ rw p (elim (Bool-cases (text_beq r.run_inputs_digest command.run_inputs_digest)) [
      | inr i ↦ rw i ((text_beq_iff _ _).0 e, (policy_beq_iff _ _).0 p, ne_of_beq _ _ i)
      | inl i ↦ rw i (
          after_program command r
            ((text_beq_iff _ _).0 e, (policy_beq_iff _ _).0 p, (text_beq_iff _ _).0 i))
    ])
  ])
]
