-- ===== src/MutantSet.antt =====
-- packages/stryker-js-instrumenter/src/mutant-set-policy.workflow.ts: which of the mutants of a
-- site print the original code, or what an earlier one prints. `trim` is the method of strings,
-- which is not defined here. The loop that strips parentheses takes fuel, the length of the text.
pub mod Canonical
pub mod Keeps
use stryker_js_effect.Prelude.{
  ℕ, zero, suc, ltb, nat_eq, Text, text, text_eq, ◌==◌, contains, last?, is_empty, every, length,
  Bool, true, false, not, ◌&&◌, ◌||◌, Option, none, some, get_or_else, List, [], ◌∷◌, ◌++◌, map,
  if◌then◌else◌, ◌≤◌, ◌≡◌,
}
use stryker_js_effect.Mutant.{MutantSetPolicy, default, full}

-- What the code relies on of `trim`: it adds nothing, and a trimmed text has nothing to trim.
pub record Trimming : Type 0 where
  pub trim : Text → Text
  pub length-trim : (t : Text) → length (trim t) ≤ length t
  pub trim_twice : (t : Text) → trim (trim t) ≡ trim t

pub record MutantSetFacts : Type 0 where
  pub original_code : Text
  pub replacement_code : Text

pub data MutantSetRuleId : Type 0 where
  equivalent_to_original duplicate_at_site : MutantSetRuleId

pub record MutantSetPolicyCommand : Type 0 where
  pub policy : MutantSetPolicy
  pub candidates : List MutantSetFacts

pub data MutantSetOutcome : Type 0 where
  mutant_suppressed : MutantSetRuleId → Text → MutantSetOutcome
  mutant_kept : MutantSetOutcome

-- Depths of parentheses, which may be below zero.
pub data ℤ : Type 0 where
  pos : ℕ → ℤ
  negsuc : ℕ → ℤ

abbrev pub one_more : ℤ → ℤ
one_more (pos n) = pos (suc n)
one_more (negsuc zero) = pos 0
one_more (negsuc (suc n)) = negsuc n

abbrev pub one_less : ℤ → ℤ
one_less (pos zero) = negsuc 0
one_less (pos (suc n)) = pos n
one_less (negsuc n) = negsuc (suc n)

-- `parenDepthDelta`, added to a depth.
abbrev pub depth_after : ℕ → ℤ → ℤ
depth_after character depth =
    if character == 40 then one_more depth else if character == 41 then one_less depth else depth

abbrev pub depths_from : ℤ → Text → List ℤ
depths_from depth [] = []
depths_from depth (character ∷ t) =
    depth_after character depth ∷ depths_from (depth_after character depth) t

abbrev pub is_inside : ℤ → Bool
is_inside (pos n) = ltb 0 n
is_inside (negsuc n) = false

abbrev pub is_closed : ℤ → Bool
is_closed (pos n) = n == 0
is_closed (negsuc n) = false

-- All depths but the last are inside, and the last is zero.
abbrev pub closes_last : List ℤ → Bool
closes_last [] = false
closes_last (depth ∷ []) = is_closed depth
closes_last (depth ∷ next ∷ depths) = is_inside depth && closes_last (next ∷ depths)

abbrev pub starts_open : Text → Bool
starts_open [] = false
starts_open (c ∷ t) = c == 40

abbrev pub ends_closed : Option ℕ → Bool
ends_closed none = false
ends_closed (some c) = c == 41

abbrev pub wraps_whole : Text → Bool
wraps_whole t = starts_open t && ends_closed (last? t) && closes_last (depths_from (pos 0) t)

-- `slice(1, -1)`.
abbrev pub init_of : Text → Text
init_of [] = []
init_of (c ∷ []) = []
init_of (c ∷ d ∷ t) = c ∷ init_of (d ∷ t)

abbrev pub inner_of : Text → Text
inner_of [] = []
inner_of (c ∷ t) = init_of t

module _ (trimming : Trimming) where
  open trimming use {trim}

  unfoldable pub strip_outer_parentheses : ℕ → Text → Text
  strip_outer_parentheses zero t = t
  strip_outer_parentheses (suc fuel) t =
      let rest = strip_outer_parentheses fuel (trim (inner_of t)) in
      if wraps_whole t then rest else t

  unfoldable pub canonical_form : Text → Text
  canonical_form t = strip_outer_parentheses (length t) (trim t)

  abbrev pub prints_something : Text → Bool
  prints_something code = not (is_empty (canonical_form code))

  abbrev pub same_printed_code : Text → Text → Bool
  same_printed_code left right =
      prints_something left && canonical_form left == canonical_form right

  abbrev pub already_printed : Text → List Text → Bool
  already_printed code earlier = prints_something code && contains (canonical_form code) earlier

  abbrev pub duplicate_or_kept : MutantSetFacts → List Text → MutantSetOutcome
  duplicate_or_kept facts earlier =
      if already_printed facts.replacement_code earlier
      then mutant_suppressed duplicate_at_site
          (canonical_form facts.replacement_code ++ text " is already planted at this site")
      else mutant_kept

  abbrev pub outcome_of : MutantSetFacts → List Text → MutantSetPolicy → MutantSetOutcome
  outcome_of facts earlier full = mutant_kept
  outcome_of facts earlier default =
      if same_printed_code facts.replacement_code facts.original_code
      then mutant_suppressed equivalent_to_original
          (canonical_form facts.replacement_code ++ text " is the original code")
      else duplicate_or_kept facts earlier

  -- `candidates.reduce`, with what the earlier candidates print.
  abbrev pub fold_candidates :
      MutantSetPolicy → List Text → List MutantSetFacts → List MutantSetOutcome
  fold_candidates policy earlier [] = []
  fold_candidates policy earlier (facts ∷ candidates) =
      outcome_of facts earlier policy
      ∷ fold_candidates policy (earlier ++ canonical_form facts.replacement_code ∷ []) candidates

  unfoldable pub mutant_set_policy : MutantSetPolicyCommand → List MutantSetOutcome
  mutant_set_policy command = fold_candidates command.policy [] command.candidates
