-- ===== src/TypeChecker/Rounds.antt =====
-- plan-check-rounds.workflow.ts and CheckRound.schema.ts: candidates that are not eligible are
-- checked alone; of the others, the n-th mutants of all files share the n-th round.
pub mod Layers
pub mod Coverage
use stryker_js_effect.Prelude.{
  ℕ, zero, suc, ◌+◌, ◌-◌, max, Text, length, get_elem?, get_somes, map_option, filter, is_empty,
  Bool, not, Option, none, some, List, [], ◌∷◌, ◌++◌, map, foldl, if◌then◌else◌,
}
use stryker_js_effect.TypeChecker.FileIds.{FileMutant, FileIds, file_ids_of}

pub record RoundCandidate : Type 0 where
  pub id : Text
  pub file_name : Text
  pub eligible : Bool

pub data CheckRound : Type 0 where
  solo_round : Text → CheckRound
  shared_round : List Text → CheckRound

-- The layer is not empty: its head and its tail are given apart.
unfoldable pub round_of_layer : Text → List Text → CheckRound
round_of_layer id [] = solo_round id
round_of_layer id (other ∷ others) = shared_round (id ∷ other ∷ others)

-- The ids that the files have at one place of their lists, `None` where no file has one.
pub layer_at : List FileIds → ℕ → Option (Text × List Text)
layer_at files layer = elim (get_somes (map (λ file. get_elem? file.ids layer) files)) [
  | [] ↦ none
  | id ∷ others ↦ some (id, others)
]

pub layer_count_of : List FileIds → ℕ
layer_count_of files = foldl (λ count file. max count (length file.ids)) 0 files

unfoldable pub range_from : ℕ → ℕ → List ℕ
range_from start zero = []
range_from start (suc k) = start ∷ range_from (suc start) k

-- `Arr.range(start, end)` includes both ends, and is `[start]` where `end` lies below `start`.
unfoldable pub range : ℕ → ℕ → List ℕ
unfolding range_from
range start end = range_from start (suc (end - start))

unfoldable pub layer_rounds : List FileIds → List CheckRound
unfolding layer_at round_of_layer layer_count_of range
layer_rounds files = get_somes (
    map (λ layer. map_option (λ l. round_of_layer l.0 l.1) (layer_at files layer))
      (range 0 (layer_count_of files - 1)))

ineligible_solos : List RoundCandidate → List CheckRound
ineligible_solos candidates = map (λ c. solo_round c.id) (filter (λ c. not c.eligible) candidates)

abbrev pub file_mutant_of : RoundCandidate → FileMutant
file_mutant_of c = record { file_name = c.file_name; id = c.id }

unfoldable pub plan_rounds : List RoundCandidate → List CheckRound
unfolding ineligible_solos
plan_rounds candidates =
    ineligible_solos candidates
    ++ layer_rounds (file_ids_of (map file_mutant_of (filter (λ c. c.eligible) candidates)))
