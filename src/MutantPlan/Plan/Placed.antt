-- ===== src/MutantPlan/Plan/Placed.antt =====
-- The candidates that nothing ignores, and the dominators among them.
use stryker_js_effect.Prelude.{
  ℕ, suc, Text, text_eq, text_beq_iff, contains, filter, get_elem?, get_or_else, length, All,
  All-imp, true, ◌||◌, Bool-cases, Option, none, some, Memᴰ, Memᴰ-cons, List, [], ◌∷◌, map,
  if◌then◌else◌, ◌≡◌, refl, ap, ◌∙◌, sym, subst, inl, inr, arith,
}
use mathlib.Core.List.Memᴰ
use stryker_js_effect.Subsumption.Subsume.{
  RelationalOperator, statically_kept, SubsumptionCandidate, SubsumptionDecision,
  SubsumeMutantsCommand, unaffected, subsumed, is_kept_as, subsume_mutants,
}
use stryker_js_effect.Subsumption.Subsume.Decisions.{subsume_mutants-Dominates}
use stryker_js_effect.MutantPlan.{MutantCandidate, PlannedMutant}
use stryker_js_effect.MutantPlan.Plan.{
  subsumption_candidates, static_status_of, zip_reasons, has_no_reason, without_reason,
}

-- The ids at whose place no reason stands.
abbrev pub open_ids : List Text → List (Option Text) → List Text
open_ids [] reasons = []
open_ids (i ∷ ids) [] = i ∷ open_ids ids []
open_ids (i ∷ ids) (r ∷ reasons) =
    let rest = open_ids ids reasons in if has_no_reason r then i ∷ rest else rest

pub open_ids-eq :
    (ms : List PlannedMutant)
    → map (λ m. m.id) (filter without_reason ms)
      ≡ open_ids (map (λ m. m.id) ms) (map (λ m. m.ignore_reason) ms)
open_ids-eq [] = refl
open_ids-eq (m ∷ ms) = elim (Bool-cases (has_no_reason m.ignore_reason)) [
  | inl y ↦ rw y (ap (λ l. m.id ∷ l) (open_ids-eq ms))
  | inr n ↦ rw n (open_ids-eq ms)
]

kept-status :
    (c : SubsumptionCandidate) (operator : RelationalOperator)
    → is_kept_as c operator ≡ true
    → c.status ≡ statically_kept
unfolding is_kept_as
kept-status c operator h = ground arith

no_reason_of_kept :
    (r : Option Text) → static_status_of r ≡ statically_kept → has_no_reason r ≡ true
no_reason_of_kept none h = refl
no_reason_of_kept (some reason) h = cc

kept-open :
    (cs : List MutantCandidate) (reasons : List (Option Text)) (k : SubsumptionCandidate)
    → Memᴰ k (subsumption_candidates cs reasons)
    → k.status ≡ statically_kept
    → contains k.id (open_ids (map (λ c. c.id) cs) reasons) ≡ true
kept-open [] reasons k m h = absurd (Memᴰ.not-nil m)
kept-open (c ∷ cs) [] k m h = elim ((Memᴰ-cons k _ _).0 m) [
  | inl e ↦
      ap (λ b. b || contains k.id (open_ids (map (λ c. c.id) cs) []))
        ((text_beq_iff c.id k.id).1 (sym (ap (λ s. s.id) e)))
  | inr r ↦ ground (arith, kept-open cs [] k r h)
]
kept-open (c ∷ cs) (r ∷ reasons) k m h = elim ((Memᴰ-cons k _ _).0 m) [
  | inl e ↦ rw (no_reason_of_kept r (sym (ap (λ s. s.status) e) ∙ h)) (
      ap (λ b. b || contains k.id (open_ids (map (λ c. c.id) cs) reasons))
        ((text_beq_iff c.id k.id).1 (sym (ap (λ s. s.id) e))))
  | inr rest ↦ ground (arith, kept-open cs reasons k rest h)
]

abbrev pub AllIn : List Text → Option (List Text) → Type 0
AllIn placeable dominators = All (λ d. contains d placeable ≡ true) (get_or_else dominators [])

pub AllIn-decision :
    (command : SubsumeMutantsCommand) (cs : List MutantCandidate) (reasons : List (Option Text))
    (i : ℕ) (ds : List Text)
    → command.candidates ≡ subsumption_candidates cs reasons
    → get_elem? (subsume_mutants command) i ≡ some (subsumed ds)
    → All (λ d. contains d (open_ids (map (λ c. c.id) cs) reasons) ≡ true) ds
AllIn-decision command cs reasons i ds e h =
    let (operator, candidate, p, s, at, kept, named, all) =
      subsume_mutants-Dominates command i ds h in
    All-imp _ _ ds
      (λ d w.
        subst (λ t. contains t (open_ids (map (λ c. c.id) cs) reasons) ≡ true) w.named
          (kept-open cs reasons w.candidate (subst (λ l. Memᴰ w.candidate l) e w.listed)
            (kept-status w.candidate _ w.kept)))
      all

pub zip_reasons-AllIn :
    (placeable : List Text) (reasons : List (Option Text)) (decisions : List SubsumptionDecision)
    → ((i : ℕ) (ds : List Text)
        → get_elem? decisions i ≡ some (subsumed ds)
        → AllIn placeable (some ds))
    → All (AllIn placeable) (map (λ r. r.subsumption) (zip_reasons reasons decisions))
zip_reasons-AllIn placeable [] decisions h = tt
zip_reasons-AllIn placeable (r ∷ reasons) [] h = tt
zip_reasons-AllIn placeable (r ∷ reasons) (unaffected ∷ decisions) h =
    (tt, zip_reasons-AllIn placeable reasons decisions (λ i. h (suc i)))
zip_reasons-AllIn placeable (r ∷ reasons) (subsumed ds ∷ decisions) h =
    (h 0 ds refl, zip_reasons-AllIn placeable reasons decisions (λ i. h (suc i)))

pub zip_reasons-reasons :
    (reasons : List (Option Text)) (decisions : List SubsumptionDecision)
    → length reasons ≡ length decisions
    → map (λ r. r.ignore_reason) (zip_reasons reasons decisions) ≡ reasons
zip_reasons-reasons [] decisions h = refl
zip_reasons-reasons (r ∷ reasons) [] h = absurd (omega (arith, h))
zip_reasons-reasons (r ∷ reasons) (d ∷ decisions) h =
    ap (λ l. r ∷ l) (zip_reasons-reasons reasons decisions (omega (arith, h)))

pub length-zip_reasons :
    (reasons : List (Option Text)) (decisions : List SubsumptionDecision)
    → length reasons ≡ length decisions
    → length (zip_reasons reasons decisions) ≡ length reasons
length-zip_reasons [] decisions h = refl
length-zip_reasons (r ∷ reasons) [] h = absurd (omega (arith, h))
length-zip_reasons (r ∷ reasons) (d ∷ decisions) h =
    ap suc (length-zip_reasons reasons decisions (omega (arith, h)))

pub length-subsumption_candidates :
    (cs : List MutantCandidate) (reasons : List (Option Text))
    → length (subsumption_candidates cs reasons) ≡ length cs
length-subsumption_candidates [] reasons = refl
length-subsumption_candidates (c ∷ cs) [] = ap suc (length-subsumption_candidates cs [])
length-subsumption_candidates (c ∷ cs) (r ∷ reasons) =
    ap suc (length-subsumption_candidates cs reasons)
