-- ===== src/Subsumption/Readmit/Rulings.antt =====
-- When a ruling is which.
use stryker_js_effect.Prelude.{
  Text, text_eq, find_first, Bool, true, false, Option, none, some, Option-cases, Bool-cases,
  Result, fail, succeed, all_results, List, [], ◌∷◌, map, All, ◌≡◌, refl, ap, subst, sym, ◌⊎◌, inl,
  inr, arith,
}
use stryker_js_effect.Mutant.{MutantStatus, compile_error, ignored, pending}
use stryker_js_effect.Subsumption.Readmit.{
  DominatorOutcome, settled, ignored_at_check, compiled_with_error, ignored_at_plan, remembered,
  ReadmitCauseOutcome, cause_unsettled, cause_ignored_at_check, cause_compiled_with_error,
  cause_ignored_at_plan, cause_remembered, ReadmitCause, HeldMutant, DominatorSettlement,
  still_subsumed, readmitted, verdict_of, verdict_of_outcome, settlement_of, cause_of, ruling,
  ruling_of,
}

-- The tests ran against a mutant of this status, in this run or in the one it is remembered from.
abbrev pub ran_status : MutantStatus → Bool
ran_status compile_error = false
ran_status ignored = false
ran_status pending = false
ran_status _ = true

abbrev pub ran_outcome : DominatorOutcome → Bool
ran_outcome (settled status) = true
ran_outcome (remembered status) = ran_status status
ran_outcome _ = false

abbrev ran_settlement : Option DominatorSettlement → Bool
ran_settlement none = false
ran_settlement (some s) = ran_outcome s.outcome

-- The first settlement of the dominator says that it ran.
unfoldable pub ran : List DominatorSettlement → Text → Bool
unfolding settlement_of
ran settlements dominator = ran_settlement (settlement_of settlements dominator)

verdict_ran :
    (o : Option DominatorSettlement) (d : Text) → ran_settlement o ≡ true → verdict_of o d ≡ fail d
verdict_ran o d h = ground arith

outcome_not_ran :
    (o : DominatorOutcome) (d : Text)
    → ran_outcome o ≡ false
    → (c : ReadmitCauseOutcome) × (verdict_of_outcome o d ≡ succeed c)
outcome_not_ran (settled status) d h = cc
outcome_not_ran (ignored_at_check reason) d h = (cause_ignored_at_check reason, refl)
outcome_not_ran compiled_with_error d h = (cause_compiled_with_error, refl)
outcome_not_ran ignored_at_plan d h = (cause_ignored_at_plan, refl)
outcome_not_ran (remembered status) d h = (cause_remembered status, ground arith)

verdict_not_ran :
    (o : Option DominatorSettlement) (d : Text)
    → ran_settlement o ≡ false
    → (c : ReadmitCauseOutcome) × (verdict_of o d ≡ succeed c)
verdict_not_ran none d h = (cause_unsettled, refl)
verdict_not_ran (some s) d h = outcome_not_ran s.outcome d h

module _ (ss : List DominatorSettlement) where
  cause_ran : (d : Text) → ran ss d ≡ true → cause_of ss d ≡ fail d
  unfolding ran cause_of
  cause_ran d h = rw (verdict_ran (settlement_of ss d) d h)

  cause_not_ran :
      (d : Text)
      → ran ss d ≡ false
      → (c : ReadmitCause) × (cause_of ss d ≡ succeed c) × (c.dominator ≡ d)
  unfolding ran cause_of
  cause_not_ran d h =
      let (o, e) = verdict_not_ran (settlement_of ss d) d h in
      (record { dominator = d; outcome = o }, rw e, refl)

  -- The cause is the one that its dominator's settlement gives.
  abbrev pub IsCause : ReadmitCause → Type 0
  IsCause c = cause_of ss c.dominator ≡ succeed c

  abbrev Causes : List Text → Result Text (List ReadmitCause) → Type 0
  Causes ds r =
      (causes : List ReadmitCause) × (r ≡ succeed causes)
      × (map (λ c. c.dominator) causes ≡ ds)
      × All IsCause causes

  all_ran :
      (ds : List Text) (d : Text)
      → find_first (ran ss) ds ≡ some d
      → all_results (map (cause_of ss) ds) ≡ fail d
  all_ran [] d h = cc
  all_ran (x ∷ ds) d h = elim (Bool-cases (ran ss x)) [
    | inl r ↦ rw (cause_ran x r) (ground arith)
    | inr n ↦ let (c, e, _) = cause_not_ran x n in rw e (rw (all_ran ds d (ground arith)) refl)
  ]

  all_not_ran :
      (ds : List Text)
      → find_first (ran ss) ds ≡ none
      → Causes ds (all_results (map (cause_of ss) ds))
  all_not_ran [] h = ([], refl, refl, tt)
  all_not_ran (x ∷ ds) h = elim (Bool-cases (ran ss x)) [
    | inl r ↦ absurd (ground arith)
    | inr n ↦
        let (c, e, same) = cause_not_ran x n in
        let (cs, es, names, fits) = all_not_ran ds (ground arith) in
        (
          c ∷ cs,
          rw (e, es),
          cc (same, names),
          (subst (λ y. cause_of ss y ≡ succeed c) (sym same) e, fits),
        )
  ]

  -- If a dominator of the held mutant ran, the ruling is `StillSubsumed` under the first, in the
  -- order of `dominators`, that did. If none ran, it is `Readmitted` with one cause for each
  -- dominator, in that order, each the one that the dominator's first settlement gives.
  pub ruling_of_lem :
      (held : HeldMutant)
      → ((d : Text) × (find_first (ran ss) held.dominators ≡ some d)
          × (ruling_of ss held ≡ still_subsumed held.id d))
        ⊎ ((find_first (ran ss) held.dominators ≡ none)
            × ((causes : List ReadmitCause) × (ruling_of ss held ≡ readmitted held.id causes)
                × (map (λ c. c.dominator) causes ≡ held.dominators)
                × All IsCause causes))
  unfolding ruling_of
  ruling_of_lem held = elim (Option-cases (find_first (ran ss) held.dominators)) [
    | inr (d, h) ↦ inl (d, h, ap (ruling held.id) (all_ran held.dominators d h))
    | inl h ↦
        let (cs, e, names, fits) = all_not_ran held.dominators h in
        inr (h, (cs, ap (ruling held.id) e, names, fits))
  ]
