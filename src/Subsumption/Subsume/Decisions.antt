-- ===== src/Subsumption/Subsume/Decisions.antt =====
-- What a decision names.
use stryker_js_effect.Prelude.{
  ℕ, Text, length, length-map, Memᴰ-cons, is_empty_of_mem, get_elem?-map-some, get_elem?,
  get_elem?-map, filter, is_empty, true, false, some, List, [], ◌∷◌, map, Bool-cases, All, Memᴰ,
  ◌≡◌, refl, ap, ◌∙◌, subst, inl, inr, arith,
}
use mathlib.Core.List.Memᴰ
use stryker_js_effect.Mutant.{MutantSetPolicy, default, full}
use stryker_js_effect.Subsumption.Subsume.{
  RelationalOperator, complement, dominator, operator_eq, SubsumptionSite, relational_site,
  other_site, SubsumptionCandidate, SubsumeMutantsCommand, unaffected, subsumed, is_kept_as,
  dominators_of, decide_at, decisions_at_site, all_unaffected, subsume_mutants,
}

module _ (candidates : List SubsumptionCandidate) (operator : RelationalOperator) where
  -- A candidate of the list that stays in the run and replaces by the dominating operator.
  pub record Dominates (id : Text) : Type 0 where
    pub candidate : SubsumptionCandidate
    pub listed : Memᴰ candidate candidates
    pub named : candidate.id ≡ id
    pub kept : is_kept_as candidate (dominator operator) ≡ true
    pub stays : decide_at candidates operator candidate ≡ unaffected

  -- No candidate replaces by two operators.
  not_both :
      (c : SubsumptionCandidate)
      → is_kept_as c (dominator operator) ≡ true
      → is_kept_as c (complement operator) ≡ false
  unfolding is_kept_as
  not_both c h = ground arith

  stays_of_kept :
      (c : SubsumptionCandidate)
      → is_kept_as c (dominator operator) ≡ true
      → decide_at candidates operator c ≡ unaffected
  unfolding decide_at
  stays_of_kept c h = rw (not_both c h)

  dominators-Dominates :
      (cs : List SubsumptionCandidate)
      → ((c : SubsumptionCandidate) → Memᴰ c cs → Memᴰ c candidates)
      → All Dominates (map (λ c. c.id) (filter (λ c. is_kept_as c (dominator operator)) cs))
  dominators-Dominates [] h = tt
  dominators-Dominates (c ∷ cs) h = elim (Bool-cases (is_kept_as c (dominator operator))) [
    | inl kept ↦ rw kept (
      record {
        candidate = c;
        listed = h c (Memᴰ.head refl);
        named = refl;
        kept = kept;
        stays = stays_of_kept c kept;
      },
      dominators-Dominates cs (λ d m. h d (Memᴰ.tail m)),
    )
    | inr other ↦ rw other (dominators-Dominates cs (λ d m. h d (Memᴰ.tail m)))
  ]

  subsumed-Dominates :
      (c : SubsumptionCandidate) (ds : List Text)
      → decide_at candidates operator c ≡ subsumed ds
      → (is_kept_as c (complement operator) ≡ true) × (is_empty ds ≡ false) × All Dominates ds
  unfolding decide_at dominators_of
  subsumed-Dominates c ds h =
      let e : dominators_of candidates operator ≡ ds = ground arith in
      (
        ground arith,
        ground arith,
        subst (All Dominates) e (dominators-Dominates candidates (λ d m. m)),
      )

abbrev Explains : SubsumeMutantsCommand → ℕ → List Text → Type 0
Explains command i ds =
    (operator : RelationalOperator) × (candidate : SubsumptionCandidate) × (command.policy
      ≡ default)
    × (command.site ≡ relational_site operator)
    × (get_elem? command.candidates i ≡ some candidate)
    × (is_kept_as candidate (complement operator) ≡ true)
    × (is_empty ds ≡ false)
    × All (Dominates command.candidates operator) ds

explained :
    (p : MutantSetPolicy) (s : SubsumptionSite) (cs : List SubsumptionCandidate) (i : ℕ)
    (ds : List Text)
    → let command : SubsumeMutantsCommand = record { policy = p; site = s; candidates = cs } in
      get_elem? (subsume_mutants command) i ≡ some (subsumed ds) → Explains command i ds
unfolding subsume_mutants all_unaffected decisions_at_site
explained full s cs i ds h = absurd (let (c, e, d) = get_elem?-map _ cs i h in cc d)
explained default other_site cs i ds h = absurd (let (c, e, d) = get_elem?-map _ cs i h in cc d)
explained default (relational_site o) cs i ds h =
    let (c, e, d) = get_elem?-map (decide_at cs o) cs i h in
    let (kept, named, all) = subsumed-Dominates cs o c ds d in
    (o, c, refl, refl, e, kept, named, all)

-- Where a decision of the workflow is `Subsumed`, the policy is `default`, the site is a
-- comparison, and the candidate at that place is kept and replaces by the complement operator.
-- The decision names at least one dominator, and each is a candidate of the site that is kept,
-- replaces by the dominating operator and is not subsumed itself.
pub subsume_mutants-Dominates :
    (command : SubsumeMutantsCommand) (i : ℕ) (ds : List Text)
    → get_elem? (subsume_mutants command) i ≡ some (subsumed ds)
    → (operator : RelationalOperator) × (candidate : SubsumptionCandidate) × (command.policy
        ≡ default)
      × (command.site ≡ relational_site operator)
      × (get_elem? command.candidates i ≡ some candidate)
      × (is_kept_as candidate (complement operator) ≡ true)
      × (is_empty ds ≡ false)
      × All (Dominates command.candidates operator) ds
subsume_mutants-Dominates command i ds h =
    explained command.policy command.site command.candidates i ds h

mem-dominators_of :
    (o : RelationalOperator) (cs : List SubsumptionCandidate) {d : SubsumptionCandidate}
    → Memᴰ d cs
    → is_kept_as d (dominator o) ≡ true
    → Memᴰ d.id (dominators_of cs o)
unfolding dominators_of
mem-dominators_of o [] m k = absurd (Memᴰ.not-nil m)
mem-dominators_of o (c ∷ cs) {d} m k = elim ((Memᴰ-cons d c cs).0 m) [
  | inl e ↦
      let k' = subst (λ x. is_kept_as x (dominator o) ≡ true) e k in
      rw k' (Memᴰ.head (ap (λ x. x.id) e))
  | inr r ↦ elim (Bool-cases (is_kept_as c (dominator o))) [
    | inl k' ↦ rw k' (Memᴰ.tail (mem-dominators_of o cs r k))
    | inr n ↦ rw n (mem-dominators_of o cs r k)
  ]
]

-- A kept complement mutant whose site has a kept dominating mutant is subsumed under `default`.
pub subsume_mutants_complete :
    (operator : RelationalOperator) (candidates : List SubsumptionCandidate) (i : ℕ)
    (candidate dominating : SubsumptionCandidate)
    → get_elem? candidates i ≡ some candidate
    → is_kept_as candidate (complement operator) ≡ true
    → Memᴰ dominating candidates
    → is_kept_as dominating (dominator operator) ≡ true
    → (ds : List Text) × (get_elem?
          (subsume_mutants
            (record { policy = default; site = relational_site operator; candidates = candidates }))
          i
        ≡ some (subsumed ds))
      × Memᴰ dominating.id ds
unfolding subsume_mutants decisions_at_site decide_at
subsume_mutants_complete o cs i c d at kept m dom =
    let ds = dominators_of cs o in
    let named = mem-dominators_of o cs m dom in
    (ds, get_elem?-map-some (decide_at cs o) cs i at ∙ rw (kept, is_empty_of_mem ds named), named)

length-by_policy :
    (p : MutantSetPolicy) (s : SubsumptionSite) (cs : List SubsumptionCandidate)
    → length (subsume_mutants (record { policy = p; site = s; candidates = cs })) ≡ length cs
unfolding subsume_mutants all_unaffected decisions_at_site
length-by_policy full s cs = length-map _ cs
length-by_policy default other_site cs = length-map _ cs
length-by_policy default (relational_site o) cs = length-map (decide_at cs o) cs

pub length-subsume_mutants :
    (command : SubsumeMutantsCommand) → length (subsume_mutants command) ≡ length command.candidates
length-subsume_mutants command = length-by_policy command.policy command.site command.candidates
