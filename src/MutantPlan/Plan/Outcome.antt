-- ===== src/MutantPlan/Plan/Outcome.antt =====
-- What a plan has of the candidates.
use stryker_js_effect.Prelude.{
  suc, Text, text_eq, filter, some_of, length, All, false, Bool-cases, Option, none, some, succeed,
  Result-cases, List, [], ◌∷◌, map, ◌≡◌, refl, ap, ap₂, ◌∙◌, sym, subst, inl, inr, arith,
}
use stryker_js_effect.Mutant.{Location}
use stryker_js_effect.MutantSet.{Trimming}
use stryker_js_effect.Subsumption.Subsume.{SubsumeMutantsCommand, subsume_mutants}
use stryker_js_effect.Subsumption.Subsume.Decisions.{length-subsume_mutants}
use stryker_js_effect.MutantPlan.{
  MutantCandidate, PlannedMutant, PlanMutantsCommand, MutantPlan, mutants_planned,
  mutants_fully_ignored, PlanFailure,
}
use stryker_js_effect.MutantPlan.Reasons.{
  reasons_with, policy_reasons_at, static_reasons_at, ignorer_refusal_of,
}
use stryker_js_effect.MutantPlan.Plan.{
  subsumption_candidates, subsumptions_at, CandidateReasons, zip_reasons, refused_or_planned,
  without_reason, planned_mutant, planned_mutants, plan_of, plan_mutants,
}
use stryker_js_effect.MutantPlan.Plan.Placed.{
  open_ids, open_ids-eq, AllIn, AllIn-decision, zip_reasons-AllIn, zip_reasons-reasons,
  length-zip_reasons, length-subsumption_candidates,
}

abbrev pub mutants_of : MutantPlan → List PlannedMutant
mutants_of (mutants_planned mutants placeable warnings) = mutants
mutants_of (mutants_fully_ignored mutants warnings) = mutants

abbrev pub placeable_of : MutantPlan → List Text
placeable_of (mutants_planned mutants placeable warnings) = placeable
placeable_of (mutants_fully_ignored mutants warnings) = []

module _ (trimming : Trimming) (to_lower_case : Text → Text) (command : PlanMutantsCommand) where
  length-reasons_with :
      (cs : List MutantCandidate) (reasons : List (Option Text))
      → length (reasons_with trimming to_lower_case command cs reasons) ≡ length cs
  length-reasons_with [] reasons = refl
  length-reasons_with (c ∷ cs) [] = ap suc (length-reasons_with cs [])
  length-reasons_with (c ∷ cs) (r ∷ reasons) = ap suc (length-reasons_with cs reasons)

  length-static_reasons_at :
      length (static_reasons_at trimming to_lower_case command) ≡ length command.candidates
  unfolding static_reasons_at
  length-static_reasons_at =
      length-reasons_with command.candidates (policy_reasons_at trimming to_lower_case command)

  planned_mutant-fields :
      (c : MutantCandidate) (r : CandidateReasons) (refusal : Option PlanFailure)
      (location : Option Location) (m : PlannedMutant)
      → c.location ≡ location
      → refused_or_planned command c r refusal ≡ succeed m
      → (m.id ≡ c.id) × (m.ignore_reason ≡ r.ignore_reason) × (m.subsumption ≡ r.subsumption)
  planned_mutant-fields c r (some refusal) location m e h = absurd (ground arith)
  planned_mutant-fields c r none none m e h = absurd (let h' = simp e at h in ground arith)
  planned_mutant-fields c r none (some location) m e h = let h' = simp e at h in ground arith

  abbrev Aligned : List MutantCandidate → List CandidateReasons → List PlannedMutant → Type 0
  Aligned cs rs ms =
      (map (λ m. m.id) ms ≡ map (λ c. c.id) cs)
      × (map (λ m. m.ignore_reason) ms ≡ map (λ r. r.ignore_reason) rs)
      × (map (λ m. m.subsumption) ms ≡ map (λ r. r.subsumption) rs)

  planned_mutants-Aligned :
      (cs : List MutantCandidate) (rs : List CandidateReasons) (ms : List PlannedMutant)
      → length cs ≡ length rs
      → planned_mutants trimming to_lower_case command cs rs ≡ succeed ms
      → Aligned cs rs ms
  unfolding planned_mutant
  planned_mutants-Aligned [] [] ms l h =
      let same : [] ≡ ms = ground arith in subst (Aligned [] []) same (refl, refl, refl)
  planned_mutants-Aligned [] (r ∷ rs) ms l h = absurd (omega (arith, l))
  planned_mutants-Aligned (c ∷ cs) [] ms l h = absurd (omega (arith, l))
  planned_mutants-Aligned (c ∷ cs) (r ∷ rs) ms l h =
      let refusal = ignorer_refusal_of trimming to_lower_case command c in
      elim (Result-cases (refused_or_planned command c r refusal)) [
        | inl (e, x) ↦ absurd (let h' = rw x at h in ground arith)
        | inr (m, x) ↦ elim (Result-cases (planned_mutants trimming to_lower_case command cs rs)) [
          | inl (e, y) ↦ absurd (let h' = rw (x, y) at h in ground arith)
          | inr (later, y) ↦
              let same : m ∷ later ≡ ms = let h' = rw (x, y) at h in ground arith in
              let one = planned_mutant-fields c r refusal c.location m refl x in
              let rest = planned_mutants-Aligned cs rs later (omega (arith, l)) y in
              subst (Aligned (c ∷ cs) (r ∷ rs)) same
                (ap₂ ◌∷◌ one.0 rest.0, ap₂ ◌∷◌ one.1 rest.1, ap₂ ◌∷◌ one.2 rest.2)
        ]
      ]

All-of_map {ℓ κ μ} :
    {A : Type ℓ} {B : Type κ} (P : B → Type μ) (f : A → B) (xs : List A)
    → All P (map f xs)
    → All (λ a. P (f a)) xs
All-of_map P f [] h = tt
All-of_map P f (x ∷ xs) h = (h.0, All-of_map P f xs h.1)

some_of-filter :
    (ms : List PlannedMutant) → some_of without_reason ms ≡ false → filter without_reason ms ≡ []
some_of-filter [] h = refl
some_of-filter (m ∷ ms) h = ground (arith, some_of-filter ms)

-- The plan has the mutants, and the ids of those without a reason to ignore them.
abbrev HasMutants : List PlannedMutant → MutantPlan → Type 0
HasMutants ms plan =
    (mutants_of plan ≡ ms) × (placeable_of plan ≡ map (λ m. m.id) (filter without_reason ms))

plan_of-HasMutants :
    (trimming : Trimming) (to_lower_case : Text → Text) (command : PlanMutantsCommand)
    (ms : List PlannedMutant)
    → HasMutants ms (plan_of trimming to_lower_case command ms)
unfolding plan_of
plan_of-HasMutants trimming to_lower_case command ms =
    elim (Bool-cases (some_of without_reason ms)) [
      | inl y ↦ rw y (refl, refl)
      | inr n ↦ rw n (refl, ap (map (λ m. m.id)) (sym (some_of-filter ms n)))
    ]

-- If the planning succeeds, the plan has one mutant for each candidate, in order, with its id and
-- the reason, if any, for which it is ignored; the placeable ids are those of the mutants without
-- such a reason; and of a subsumed mutant every dominator is placeable.
pub plan_mutants-Placed :
    (trimming : Trimming) (to_lower_case : Text → Text) (command : PlanMutantsCommand)
    (plan : MutantPlan)
    → plan_mutants trimming to_lower_case command ≡ succeed plan
    → (map (λ m. m.id) (mutants_of plan) ≡ map (λ c. c.id) command.candidates)
      × (map (λ m. m.ignore_reason) (mutants_of plan)
          ≡ static_reasons_at trimming to_lower_case command)
      × (placeable_of plan ≡ map (λ m. m.id) (filter without_reason (mutants_of plan)))
      × All (λ m. AllIn (placeable_of plan) m.subsumption) (mutants_of plan)
unfolding plan_mutants subsumptions_at
plan_mutants-Placed trimming to_lower_case command plan h =
    let reasons = static_reasons_at trimming to_lower_case command in
    let site : SubsumeMutantsCommand = record {
      policy = command.mutant_set_policy;
      site = command.site;
      candidates = subsumption_candidates command.candidates reasons;
    } in
    let decisions = subsume_mutants site in
    let rs = zip_reasons reasons decisions in
    let reasons_len = length-static_reasons_at trimming to_lower_case command in
    let decisions_len =
      length-subsume_mutants site ∙ length-subsumption_candidates command.candidates reasons in
    let equal : length reasons ≡ length decisions = reasons_len ∙ sym decisions_len in
    elim (Result-cases (planned_mutants trimming to_lower_case command command.candidates rs)) [
      | inl (e, x) ↦ absurd (let h' = rw x at h in ground arith)
      | inr (ms, x) ↦
          let same : plan_of trimming to_lower_case command ms ≡ plan =
            let h' = rw x at h in ground arith in
          let has =
            subst (HasMutants ms) same (plan_of-HasMutants trimming to_lower_case command ms) in
          let aligned =
            planned_mutants-Aligned trimming to_lower_case command command.candidates rs ms
              (sym (length-zip_reasons reasons decisions equal ∙ reasons_len)) x in
          let given = aligned.1 ∙ zip_reasons-reasons reasons decisions equal in
          let open_now : placeable_of plan ≡ open_ids (map (λ c. c.id) command.candidates) reasons =
            has.1 ∙ open_ids-eq ms ∙ ap₂ open_ids aligned.0 given in
          let dominated =
            zip_reasons-AllIn (open_ids (map (λ c. c.id) command.candidates) reasons) reasons
              decisions (λ i ds at. AllIn-decision site command.candidates reasons i ds refl at) in
          rw (has.0) (
            aligned.0,
            given,
            has.1,
            subst (λ l. All (λ m. AllIn l m.subsumption) ms) (sym open_now)
                (All-of_map (AllIn (open_ids (map (λ c. c.id) command.candidates) reasons))
                  (λ m. m.subsumption) ms (subst (All (AllIn _)) (sym aligned.2) dominated)),
          )
    ]
