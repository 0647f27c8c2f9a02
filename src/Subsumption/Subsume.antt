-- ===== src/Subsumption/Subsume.antt =====
-- subsume-mutants.workflow.ts: at a comparison `a < b` the mutant `a >= b` is subsumed by the
-- kept mutant `a <= b`, and so for the other three operators.
pub mod Semantics
pub mod Decisions
use stryker_js_effect.Prelude.{
  Text, Eq, ◌==◌, ◌↔◌, ◌≡◌, arith, filter, is_empty, Bool, true, false, ◌&&◌, List, [], ◌∷◌, map,
  if◌then◌else◌,
}
use stryker_js_effect.Mutant.{MutantSetPolicy, default, full}

pub data RelationalOperator : Type 0 where
  lt le gt ge : RelationalOperator

abbrev pub operator_beq : RelationalOperator → RelationalOperator → Bool
operator_beq lt lt = true
operator_beq le le = true
operator_beq gt gt = true
operator_beq ge ge = true
operator_beq _ _ = false

pub operator_beq_iff : (a b : RelationalOperator) → (operator_beq a b ≡ true) ↔ (a ≡ b)
operator_beq_iff a b = ground arith

instance abbrev pub operator_eq : Eq RelationalOperator
operator_eq = record { beq = operator_beq; beq_iff = operator_beq_iff }

-- `COMPLEMENT_ROWS`.
abbrev pub complement : RelationalOperator → RelationalOperator
complement lt = ge
complement le = gt
complement gt = le
complement ge = lt

abbrev pub dominator : RelationalOperator → RelationalOperator
dominator lt = le
dominator le = lt
dominator gt = ge
dominator ge = gt

pub data SubsumptionSite : Type 0 where
  relational_site : RelationalOperator → SubsumptionSite
  other_site : SubsumptionSite

pub data SubsumptionReplacement : Type 0 where
  ordering_operator : RelationalOperator → SubsumptionReplacement
  other_replacement : SubsumptionReplacement

pub data StaticStatus : Type 0 where
  statically_kept statically_ignored : StaticStatus

pub record SubsumptionCandidate : Type 0 where
  pub id : Text
  pub replacement : SubsumptionReplacement
  pub status : StaticStatus

pub record SubsumeMutantsCommand : Type 0 where
  pub policy : MutantSetPolicy
  pub site : SubsumptionSite
  pub candidates : List SubsumptionCandidate

-- The rule of `subsumed` is always `complement`.
pub data SubsumptionDecision : Type 0 where
  unaffected : SubsumptionDecision
  subsumed : List Text → SubsumptionDecision

abbrev replaces : SubsumptionReplacement → RelationalOperator → Bool
replaces (ordering_operator o) operator = o == operator
replaces other_replacement operator = false

pub replaces_with : SubsumptionCandidate → RelationalOperator → Bool
replaces_with candidate operator = replaces candidate.replacement operator

abbrev is_kept : StaticStatus → Bool
is_kept statically_kept = true
is_kept statically_ignored = false

unfoldable pub is_kept_as : SubsumptionCandidate → RelationalOperator → Bool
unfolding replaces_with
is_kept_as candidate operator = is_kept candidate.status && replaces_with candidate operator

-- The dominating candidates; where there are none the code has `None`, and here the list is empty.
pub dominators_of : List SubsumptionCandidate → RelationalOperator → List Text
dominators_of candidates operator =
    map (λ c. c.id) (filter (λ c. is_kept_as c (dominator operator)) candidates)

pub decide_at :
    List SubsumptionCandidate → RelationalOperator → SubsumptionCandidate → SubsumptionDecision
decide_at candidates operator candidate =
    let dominators = dominators_of candidates operator in
    if is_kept_as candidate (complement operator)
    then (if is_empty dominators then unaffected else subsumed dominators)
    else unaffected

all_unaffected : List SubsumptionCandidate → List SubsumptionDecision
all_unaffected candidates = map (λ _. unaffected) candidates

abbrev decisions_at : SubsumptionSite → List SubsumptionCandidate → List SubsumptionDecision
decisions_at (relational_site operator) candidates = map (decide_at candidates operator) candidates
decisions_at other_site candidates = map (λ _. unaffected) candidates

pub decisions_at_site : SubsumeMutantsCommand → List SubsumptionDecision
decisions_at_site command = decisions_at command.site command.candidates

abbrev by_policy : MutantSetPolicy → SubsumeMutantsCommand → List SubsumptionDecision
by_policy full command = all_unaffected command.candidates
by_policy default command = decisions_at_site command

unfoldable pub subsume_mutants : SubsumeMutantsCommand → List SubsumptionDecision
unfolding all_unaffected decisions_at_site decide_at dominators_of is_kept_as
subsume_mutants command = by_policy command.policy command
