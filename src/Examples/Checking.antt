-- ===== src/Examples/Checking.antt =====
-- The type checker's planning at five mutants of three files.
use stryker_js_effect.Prelude.{
  Text, text, text_eq, contains, Bool, true, false, some, List, [], ◌∷◌, map, flatten, All,
  is_empty, lookup, insert, text_beq, ◌≡◌, ◌↔◌, refl,
}
use mathlib.Core.List.{Perm}
use stryker_js_effect.TypeChecker.FileIds.{FileMutant, FileIds, file_ids_of}
use stryker_js_effect.TypeChecker.FileIds.Order.{ids_in, first_seen, file_ids_of-eq}
use stryker_js_effect.TypeChecker.Group.{GroupMutantsCommand, pack_batches, group_mutants}
use stryker_js_effect.TypeChecker.Group.Packed.{IsPacked, FitsBound}
use stryker_js_effect.TypeChecker.Group.Files.{group_mutants-IsPacked, group_mutants-perm}
use stryker_js_effect.TypeChecker.Rounds.{
  RoundCandidate, solo_round, shared_round, layer_rounds, plan_rounds,
}
use stryker_js_effect.TypeChecker.Rounds.Layers.{ids_of, OnePerFile, layer_rounds-OnePerFile}
use stryker_js_effect.TypeChecker.Rounds.Coverage.{plan_rounds-perm}
use stryker_js_effect.TypeChecker.Trace.{
  AffectedFile, mutated_file_affected, dependent_file_affected, TraceAffectedFilesCommand,
  trace_affected_files,
}
use stryker_js_effect.TypeChecker.Trace.Reach.{
  Affected, mutated_names, dependent_names, trace_affected_files_lem,
}

abbrev in_file : Text → Text → FileMutant
in_file file_name id = record { file_name = file_name; id = id }

abbrev five_mutants : List FileMutant
five_mutants =
    in_file (text "a") (text "1")
    ∷ in_file (text "b") (text "2")
    ∷ in_file (text "a") (text "3")
    ∷ in_file (text "c") (text "4")
    ∷ in_file (text "b") (text "5")
    ∷ []

abbrev three_files : List FileIds
three_files =
    record { file_name = text "a"; ids = text "1" ∷ text "3" ∷ [] }
    ∷ record { file_name = text "b"; ids = text "2" ∷ text "5" ∷ [] }
    ∷ record { file_name = text "c"; ids = text "4" ∷ [] }
    ∷ []

file_ids_of_five : file_ids_of five_mutants ≡ three_files
unfolding file_ids_of lookup insert text_beq
file_ids_of_five = refl

file_ids_of-eq_example :
    file_ids_of five_mutants
    ≡ map (λ f. record { file_name = f; ids = ids_in f five_mutants }) (first_seen five_mutants)
file_ids_of-eq_example = file_ids_of-eq five_mutants

abbrev at_most_three : GroupMutantsCommand
at_most_three = record { mutants = five_mutants; bound = 3 }

group_five :
    group_mutants at_most_three
    ≡ (text "1" ∷ text "3" ∷ []) ∷ (text "2" ∷ text "5" ∷ text "4" ∷ []) ∷ []
unfolding group_mutants file_ids_of pack_batches lookup insert text_beq
group_five = refl

abbrev the_batches : List (List Text)
the_batches = map (λ f. ids_in f five_mutants) (first_seen five_mutants)

group_mutants-IsPacked_example :
    IsPacked 3 the_batches (group_mutants at_most_three)
    × All (FitsBound 3 the_batches) (group_mutants at_most_three)
    × All (λ g. is_empty g ≡ false) (group_mutants at_most_three)
group_mutants-IsPacked_example = group_mutants-IsPacked at_most_three

group_mutants-perm_example :
    Perm (flatten (group_mutants at_most_three)) (map (λ m. m.id) five_mutants)
group_mutants-perm_example = group_mutants-perm at_most_three

-- A batch that is larger than the bound is a group by itself.
abbrev large_batch : List (List Text)
large_batch = (text "1" ∷ []) ∷ (text "2" ∷ text "3" ∷ text "4" ∷ []) ∷ []

abbrev candidate : Text → Text → Bool → RoundCandidate
candidate id file_name eligible = record { id = id; file_name = file_name; eligible = eligible }

abbrev four_candidates : List RoundCandidate
four_candidates =
    candidate (text "1") (text "a") true
    ∷ candidate (text "2") (text "b") true
    ∷ candidate (text "3") (text "a") true
    ∷ candidate (text "4") (text "b") false
    ∷ []

plan_four :
    plan_rounds four_candidates
    ≡ solo_round (text "4") ∷ shared_round (text "1" ∷ text "2" ∷ []) ∷ solo_round (text "3") ∷ []
unfolding plan_rounds layer_rounds file_ids_of lookup insert text_beq
plan_four = refl

plan_none : plan_rounds [] ≡ []
unfolding plan_rounds layer_rounds file_ids_of
plan_none = refl

plan_rounds-perm_example :
    Perm (flatten (map ids_of (plan_rounds four_candidates))) (map (λ c. c.id) four_candidates)
plan_rounds-perm_example = plan_rounds-perm four_candidates

layer_rounds-OnePerFile_example :
    All (λ round. OnePerFile three_files (ids_of round)) (layer_rounds three_files)
layer_rounds-OnePerFile_example = layer_rounds-OnePerFile three_files

-- `c` imports `b`, `b` imports `a` and `c`, and `d` imports `e`, a library.
abbrev mutated_a : TraceAffectedFilesCommand
mutated_a = record {
  imports_by_file =
      (text "c", text "b" ∷ [])
      ∷ (text "b", text "a" ∷ text "c" ∷ [])
      ∷ (text "d", text "e" ∷ [])
      ∷ [];
  mutated_file_names = text "a" ∷ text "a" ∷ [];
}

trace_a :
    trace_affected_files mutated_a
    ≡ some (
        mutated_file_affected (text "a")
        ∷ dependent_file_affected (text "b")
        ∷ dependent_file_affected (text "c")
        ∷ [])
unfolding trace_affected_files lookup insert text_beq
trace_a = refl

trace_affected_files_lem_example :
    (events : List AffectedFile) × (trace_affected_files mutated_a ≡ some events)
    × ((f : Text)
        → ((contains f (mutated_names events) ≡ true)
            ↔ (contains f mutated_a.mutated_file_names ≡ true))
          × ((contains f (dependent_names events) ≡ true) ↔ (
              (contains f mutated_a.mutated_file_names ≡ false)
              × Affected mutated_a.imports_by_file mutated_a.mutated_file_names f)))
trace_affected_files_lem_example = trace_affected_files_lem mutated_a
