-- ===== src/MutantSet/Keeps.antt =====
-- Which mutants of a site are kept.
use stryker_js_effect.Prelude.{
  Text, text_eq, ◌==◌, contains, get_elem?, length, Bool, true, false, not, ◌&&◌, ◌||◌, some, List,
  [], ◌∷◌, ◌++◌, append_assoc, append-nil, map, ◌≡◌, refl, ap, ◌∙◌, sym, arith,
}
use stryker_js_effect.Mutant.{MutantSetPolicy, default, full}
use stryker_js_effect.MutantSet.{
  Trimming, MutantSetFacts, MutantSetOutcome, MutantSetPolicyCommand, mutant_kept,
  mutant_suppressed, canonical_form, prints_something, outcome_of, fold_candidates,
  mutant_set_policy,
}

abbrev pub stays_in : MutantSetOutcome → Bool
stays_in mutant_kept = true
stays_in (mutant_suppressed rule detail) = false

module _ (trimming : Trimming) where
  abbrev pub printed : List MutantSetFacts → List Text
  printed candidates = map (λ facts. canonical_form trimming facts.replacement_code) candidates

  -- It prints something, and the original code or an earlier candidate prints the same.
  abbrev pub is_redundant : List MutantSetFacts → MutantSetFacts → Bool
  is_redundant before facts =
      prints_something trimming facts.replacement_code
      && (canonical_form trimming facts.replacement_code
            == canonical_form trimming facts.original_code
          || contains (canonical_form trimming facts.replacement_code) (printed before))

  abbrev pub stays : MutantSetPolicy → List MutantSetFacts → MutantSetFacts → Bool
  stays full before facts = true
  stays default before facts = not (is_redundant before facts)

  outcome_of-kept :
      (policy : MutantSetPolicy) (before : List MutantSetFacts) (facts : MutantSetFacts)
      → stays_in (outcome_of trimming facts (printed before) policy) ≡ stays policy before facts
  outcome_of-kept full before facts = refl
  outcome_of-kept default before facts = ground arith

  fold-at :
      (policy : MutantSetPolicy) (earlier : List Text) (before : List MutantSetFacts)
      (facts : MutantSetFacts) (after : List MutantSetFacts)
      → get_elem?
          (fold_candidates trimming policy earlier (before ++ facts ∷ after))
          (length before)
        ≡ some (outcome_of trimming facts (earlier ++ printed before) policy)
  fold-at policy earlier [] facts after =
      ap (λ l. some (outcome_of trimming facts l policy)) (sym (append-nil earlier))
  fold-at policy earlier (b ∷ before) facts after =
      let form = canonical_form trimming b.replacement_code in
      fold-at policy (earlier ++ form ∷ []) before facts after
      ∙ ap (λ l. some (outcome_of trimming facts l policy))
          (append_assoc earlier (form ∷ []) (printed before))

  -- Whatever the policy and the candidates, and wherever a candidate stands among them: the policy
  -- has an outcome for it, at its place, and the full policy keeps it, while the default policy
  -- keeps it if and only if it prints nothing, or neither the original code nor a candidate before
  -- it has the canonical form that it has.
  pub mutant_set_policy-keeps :
      (policy : MutantSetPolicy) (before : List MutantSetFacts) (facts : MutantSetFacts)
      (after : List MutantSetFacts)
      → let command : MutantSetPolicyCommand = record {
        policy = policy;
        candidates = before ++ facts ∷ after;
      } in
        (outcome : MutantSetOutcome) × (get_elem?
            (mutant_set_policy trimming command)
            (length before)
          ≡ some outcome)
        × (stays_in outcome ≡ stays policy before facts)
  unfolding mutant_set_policy
  mutant_set_policy-keeps policy before facts after = (
    outcome_of trimming facts (printed before) policy,
    fold-at policy [] before facts after,
    outcome_of-kept policy before facts,
  )
