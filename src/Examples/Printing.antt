-- ===== src/Examples/Printing.antt =====
-- The mutants that the policy keeps, at concrete inputs, with a `trim` that removes spaces.
use stryker_js_effect.Prelude.{
  ◌≤◌, nat_eq, Text, text, text_eq, text_beq, ◌==◌, is_empty, get_elem?, length, false, ◌&&◌,
  Bool-cases, some, [], ◌∷◌, if◌then◌else◌, ◌≡◌, refl, ap, ◌∙◌, inl, inr, arith,
}
use stryker_js_effect.Mutant.{default}
use stryker_js_effect.MutantSet.{
  Trimming, MutantSetFacts, MutantSetOutcome, MutantSetPolicyCommand, mutant_kept,
  mutant_suppressed, equivalent_to_original, duplicate_at_site, wraps_whole,
  strip_outer_parentheses, canonical_form, mutant_set_policy,
}
use stryker_js_effect.MutantSet.Canonical.{canonical_form-canonical}
use stryker_js_effect.MutantSet.Keeps.{stays_in, stays, mutant_set_policy-keeps}

abbrev pub trim_start : Text → Text
trim_start [] = []
trim_start (c ∷ t) = let rest = trim_start t in if c == 32 then rest else c ∷ t

abbrev pub trim_end : Text → Text
trim_end [] = []
trim_end (c ∷ t) = let rest = trim_end t in if c == 32 && is_empty rest then [] else c ∷ rest

pub length-trim_start : (t : Text) → length (trim_start t) ≤ length t
length-trim_start [] = omega arith
length-trim_start (c ∷ t) = ground (arith, length-trim_start t)

pub length-trim_end : (t : Text) → length (trim_end t) ≤ length t
length-trim_end [] = omega arith
length-trim_end (c ∷ t) = ground (arith, length-trim_end t)

trim_start_twice : (t : Text) → trim_start (trim_start t) ≡ trim_start t
trim_start_twice [] = refl
trim_start_twice (c ∷ t) = elim (Bool-cases (c == 32)) [
  | inl y ↦ rw y (trim_start_twice t)
  | inr n ↦ rw n (rw n refl)
]

-- The tests of the two ends do not disturb each other.
trim_end_twice : (t : Text) → trim_end (trim_end t) ≡ trim_end t
trim_end_twice [] = refl
trim_end_twice (c ∷ t) = elim (Bool-cases (c == 32 && is_empty (trim_end t))) [
  | inl y ↦ rw y refl
  | inr n ↦ rw n (rw (trim_end_twice t, n) refl)
]

abbrev pub trim_spaces : Text → Text
trim_spaces t = trim_end (trim_start t)

starts_kept : (t : Text) → trim_start t ≡ t → trim_start (trim_end t) ≡ trim_end t
starts_kept [] h = refl
starts_kept (c ∷ t) h = elim (Bool-cases (c == 32)) [
  | inl y ↦ absurd (omega (arith, length-trim_start t, ap length (rw y at h)))
  | inr n ↦ rw n (rw n refl)
]

pub trim_spaces_twice : (t : Text) → trim_spaces (trim_spaces t) ≡ trim_spaces t
trim_spaces_twice t =
    ap trim_end (starts_kept (trim_start t) (trim_start_twice t)) ∙ trim_end_twice (trim_start t)

abbrev pub spaces : Trimming
spaces = record {
  trim = trim_spaces;
  length-trim = λ t. omega (arith, length-trim_end (trim_start t), length-trim_start t);
  trim_twice = trim_spaces_twice;
}

stripped : canonical_form spaces (text " (( a + (b) )) ") ≡ text "a + (b)"
unfolding canonical_form strip_outer_parentheses
stripped = refl

not_a_pair : canonical_form spaces (text "(a) + (b)") ≡ text "(a) + (b)"
unfolding canonical_form strip_outer_parentheses
not_a_pair = refl

canonical_form-canonical_example :
    (wraps_whole (canonical_form spaces (text "((a))")) ≡ false)
    × (trim_spaces (canonical_form spaces (text "((a))")) ≡ canonical_form spaces (text "((a))"))
    × (canonical_form spaces (canonical_form spaces (text "((a))"))
        ≡ canonical_form spaces (text "((a))"))
canonical_form-canonical_example = canonical_form-canonical spaces (text "((a))")

abbrev prints : Text → MutantSetFacts
prints code = record { original_code = text "a"; replacement_code = code }

abbrev four : MutantSetPolicyCommand
four = record {
  policy = default;
  candidates =
      prints (text "b") ∷ prints (text "(a)") ∷ prints (text "( b )") ∷ prints (text "c") ∷ [];
}

four_outcomes :
    mutant_set_policy spaces four
    ≡ mutant_kept
      ∷ mutant_suppressed equivalent_to_original (text "a is the original code")
      ∷ mutant_suppressed duplicate_at_site (text "b is already planted at this site")
      ∷ mutant_kept
      ∷ []
unfolding mutant_set_policy canonical_form strip_outer_parentheses text_beq
four_outcomes = refl

mutant_set_policy-keeps_example :
    (outcome : MutantSetOutcome) × (get_elem? (mutant_set_policy spaces four) 2 ≡ some outcome)
    × (stays_in outcome
        ≡ stays spaces default
            (prints (text "b") ∷ prints (text "(a)") ∷ [])
            (prints (text "( b )")))
mutant_set_policy-keeps_example =
    mutant_set_policy-keeps spaces default (prints (text "b") ∷ prints (text "(a)") ∷ [])
      (prints (text "( b )")) (prints (text "c") ∷ [])
