-- ===== src/Incremental/Keys.antt =====
-- The parts of a cache key.
use stryker_js_effect.Prelude.{
  Text, text_eq, text_beq_iff, ◌==◌, lookup, is_empty, not, true, false, Option, [], ◌∷◌, ◌++◌, All,
  ◌≡◌, ◌≢◌, refl, ap₂, arith, ◌⊎◌, inl, inr, Bool-cases, and-true_iff,
}
use stryker_js_effect.Mutant.{MutantSetPolicy, default, full}
use stryker_js_effect.Incremental.{
  PreviousReuseRecord, IncrementalDiffCommand, digest_of, is_compile_error_record, policy_text,
  join, key_of,
}
use stryker_js_effect.Incremental.Decide.{matching_key, matching_program_key, current_key_of}

-- No code unit is the separator.
abbrev pub NoNul : Text → Type 0
NoNul = All (λ c. c ≢ 0)

-- Texts without a NUL are found again in front of the first one.
split-at_nul : (a b x y : Text) → NoNul a → NoNul b → a ++ 0 ∷ x ≡ b ++ 0 ∷ y → (a ≡ b) × (x ≡ y)
split-at_nul [] [] x y na nb e = (refl, ground arith)
split-at_nul [] (d ∷ b) x y na nb e = absurd (nb.0 (ground arith))
split-at_nul (c ∷ a) [] x y na nb e = absurd (na.0 (ground arith))
split-at_nul (c ∷ a) (d ∷ b) x y na nb e =
    let (h, t) = split-at_nul a b x y na.1 nb.1 (ground arith) in (ap₂ ◌∷◌ (ground arith) h, t)

policy_text-NoNul : (p : MutantSetPolicy) → NoNul (policy_text p)
policy_text-NoNul default = omega arith
policy_text-NoNul full = omega arith

policy_text-injective : (p q : MutantSetPolicy) → policy_text p ≡ policy_text q → p ≡ q
policy_text-injective default default e = refl
policy_text-injective full full e = refl
policy_text-injective default full e = ground arith
policy_text-injective full default e = ground arith

-- Two keys with the same mutant id are equal only if their other parts are, where the id, the two
-- digests and the two engine digests hold no NUL. The digest of the inputs may be any text, and an
-- absent digest counts as the empty one.
pub key_of-injective :
    (id : Text) (d d' : Option Text) (engine engine' : Text) (policy policy' : MutantSetPolicy)
    (inputs inputs' : Text)
    → NoNul id
    → NoNul (digest_of d)
    → NoNul (digest_of d')
    → NoNul engine
    → NoNul engine'
    → key_of id d engine policy inputs ≡ key_of id d' engine' policy' inputs'
    → (digest_of d ≡ digest_of d') × (engine ≡ engine') × (policy ≡ policy') × (inputs ≡ inputs')
unfolding key_of join
key_of-injective id d d' g g' p p' i i' nid nd nd' ng ng' e =
    let (_, e₁) = split-at_nul id id _ _ nid nid e in
    let (same_d, e₂) = split-at_nul (digest_of d) (digest_of d') _ _ nd nd' e₁ in
    let (same_g, e₃) = split-at_nul g g' _ _ ng ng' e₂ in
    let (same_p, e₄) =
      split-at_nul (policy_text p) (policy_text p') _ _ (policy_text-NoNul p) (policy_text-NoNul p')
        e₃ in
    (same_d, same_g, policy_text-injective p p' same_p, e₄)

-- The digests of the record and of the command hold no NUL, as those of SHA-256 in hexadecimal.
pub record Digests (command : IncrementalDiffCommand) (r : PreviousReuseRecord) : Type 0 where
  pub id : NoNul r.mutant_id
  pub closure : NoNul (digest_of r.closure_digest)
  pub closure_now : NoNul (digest_of (lookup r.mutant_id command.closure_digests_by_mutant_id))
  pub program : NoNul (digest_of r.program_digest)
  pub program_now : NoNul (digest_of command.program_digest)
  pub engine : NoNul r.engine_digest
  pub engine_now : NoNul command.engine_digest

-- The record was made by the same engine, policy and run inputs.
pub record SameRun (command : IncrementalDiffCommand) (r : PreviousReuseRecord) : Type 0 where
  pub engine : r.engine_digest ≡ command.engine_digest
  pub policy : r.mutant_set_policy ≡ command.mutant_set_policy
  pub inputs : r.run_inputs_digest ≡ command.run_inputs_digest

compile_error-match :
    (command : IncrementalDiffCommand) (r : PreviousReuseRecord)
    → Digests command r
    → matching_program_key command r ≡ true
    → SameRun command r
      × (digest_of r.program_digest ≢ [])
      × (digest_of r.program_digest ≡ digest_of command.program_digest)
unfolding matching_program_key
compile_error-match command r n h =
    let (there, same) = (and-true_iff _ _).0 h in
    let (d, g, p, i) =
      key_of-injective r.mutant_id r.program_digest command.program_digest _ _ _ _ _ _ n.id
        n.program n.program_now n.engine n.engine_now ((text_beq_iff _ _).0 same) in
    (record { engine = g; policy = p; inputs = i }, λ e. absurd (is_empty-ne _ there e), d)
  where
    is_empty-ne : (t : Text) → not (is_empty t) ≡ true → t ≡ [] → ⊥
    is_empty-ne [] q e = cc
    is_empty-ne (x ∷ t) q e = cc

closure-match :
    (command : IncrementalDiffCommand) (r : PreviousReuseRecord)
    → Digests command r
    → (key_of r.mutant_id r.closure_digest r.engine_digest r.mutant_set_policy r.run_inputs_digest
        == current_key_of command r.mutant_id)
      ≡ true
    → SameRun command r
      × (digest_of r.closure_digest
          ≡ digest_of (lookup r.mutant_id command.closure_digests_by_mutant_id))
unfolding current_key_of
closure-match command r n h =
    let (d, g, p, i) =
      key_of-injective r.mutant_id r.closure_digest
        (lookup r.mutant_id command.closure_digests_by_mutant_id) _ _ _ _ _ _ n.id n.closure
        n.closure_now n.engine n.engine_now ((text_beq_iff _ _).0 h) in
    (record { engine = g; policy = p; inputs = i }, d)

-- Where the keys match, the closure analysis of this run succeeded, the engine, the policy and
-- the run inputs are those of the record, and so is the closure digest, or for a compile error
-- the program digest, which is there.
pub matching_key-SameRun :
    (command : IncrementalDiffCommand) (r : PreviousReuseRecord)
    → Digests command r
    → matching_key command r ≡ true
    → (command.closure_analysis_failed ≡ false)
      × SameRun command r
      × (((is_compile_error_record r ≡ true)
            × (digest_of r.program_digest ≢ [])
            × (digest_of r.program_digest ≡ digest_of command.program_digest))
          ⊎ ((is_compile_error_record r ≡ false)
              × (digest_of r.closure_digest
                  ≡ digest_of (lookup r.mutant_id command.closure_digests_by_mutant_id))))
unfolding matching_key
matching_key-SameRun command r n h = elim (Bool-cases (is_compile_error_record r)) [
  | inl ce ↦
      let (run, there, same) = compile_error-match command r n (ground arith) in
      (ground arith, run, inl (ce, there, same))
  | inr other ↦
      let (run, same) = closure-match command r n (ground arith) in
      (ground arith, run, inr (other, same))
]
