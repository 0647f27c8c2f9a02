-- ===== src/Examples/Comparing.antt =====
-- Two reports compared, at concrete inputs.
use stryker_js_effect.Prelude.{
  Text, text, text_eq, text_beq, ◌==◌, contains, lookup, insert, sort_by, Bool, true, ◌||◌, Option,
  none, some, fail, [], ◌∷◌, ◌≡◌, ◌↔◌, refl,
}
use stryker_js_effect.Verdict.Compare.{
  VerdictReport, VerdictMismatch, StatusValue, status_text, value_beq, CompareVerdictsCommand,
  verdicts_differ, compare_verdicts, mismatches_of,
}
use stryker_js_effect.Verdict.Compare.Agrees.{
  matches_well, status_before, status_after, compare_verdicts-agrees,
}

abbrev report_with : Text → Text → VerdictReport
report_with first second =
    (
      text "a.ts",
      record { id = text "1"; status = first } ∷ record { id = text "2"; status = second } ∷ [],
    )
    ∷ []

-- The first mutant is noise, the second one differs.
abbrev comparing : CompareVerdictsCommand
comparing = record {
  baseline = report_with (text "Killed") (text "Killed");
  fresh = report_with (text "Timeout") (text "Survived");
  noise = text "1" ∷ [];
}

abbrev inherits_to_string : Text → Bool
inherits_to_string id = id == text "toString"

abbrev made_of_texts : Text → StatusValue → StatusValue → Option VerdictMismatch
made_of_texts id (status_text a) (status_text b) =
    some (record { id = id; baseline = a; fresh = b })
made_of_texts id _ _ = none

one_differs :
    compare_verdicts inherits_to_string made_of_texts comparing
    ≡ some (
        fail (
          verdicts_differ
            (record { id = text "2"; baseline = text "Killed"; fresh = text "Survived" } ∷ [])))
unfolding compare_verdicts mismatches_of sort_by text_beq lookup insert
one_differs = refl

-- A mutant with the id `toString` in one report only is no mismatch: the comparison throws.
abbrev comparing_to_string : CompareVerdictsCommand
comparing_to_string = record {
  baseline = (text "a.ts", record { id = text "toString"; status = text "Killed" } ∷ []) ∷ [];
  fresh = [];
  noise = [];
}

to_string_throws : compare_verdicts inherits_to_string made_of_texts comparing_to_string ≡ none
unfolding compare_verdicts mismatches_of sort_by text_beq lookup insert
to_string_throws = refl

compare_verdicts-agrees_example :
    (matches_well (compare_verdicts inherits_to_string made_of_texts comparing) ≡ true) ↔ (
      (id : Text)
      → (contains id comparing.noise
          || value_beq
              (status_before inherits_to_string comparing id)
              (status_after inherits_to_string comparing id))
        ≡ true)
compare_verdicts-agrees_example = compare_verdicts-agrees inherits_to_string made_of_texts comparing
