-- ===== src/TypeChecker/Group.antt =====
-- group-mutants.workflow.ts: the files' batches of ids are packed, in order, into groups of at
-- most `bound` mutants; a batch is never split.
pub mod Files
pub mod Packed
use stryker_js_effect.Prelude.{
  ℕ, ◌+◌, Text, leb, length, is_empty, Bool, ◌||◌, List, [], ◌∷◌, ◌++◌, map, foldl, if◌then◌else◌,
}
use stryker_js_effect.TypeChecker.FileIds.{FileMutant, FileIds, file_ids_of}

pub record GroupMutantsCommand : Type 0 where
  pub mutants : List FileMutant
  pub bound : ℕ

pub file_batches_of : List FileMutant → List (List Text)
file_batches_of mutants = map (λ file. file.ids) (file_ids_of mutants)

pub record Packing : Type 0 where
  pub groups : List (List Text)
  pub current : List Text
  pub current_size : ℕ

abbrev pub empty_packing : Packing
empty_packing = record { groups = []; current = []; current_size = 0 }

abbrev pub fits_within : Packing → ℕ → List Text → Bool
fits_within packing bound ids =
    is_empty packing.current || leb (packing.current_size + length ids) bound

unfoldable pub pack_file : ℕ → Packing → List Text → Packing
pack_file bound packing ids =
    if fits_within packing bound ids
    then record packing {
      current = packing.current ++ ids;
      current_size = packing.current_size + length ids;
    }
    else record {
      groups = packing.groups ++ packing.current ∷ [];
      current = ids;
      current_size = length ids;
    }

unfoldable pub close_packing : Packing → List (List Text)
close_packing packing =
    if is_empty packing.current then packing.groups else packing.groups ++ packing.current ∷ []

unfoldable pub pack_batches : ℕ → List (List Text) → List (List Text)
unfolding pack_file close_packing
pack_batches bound batches = close_packing (foldl (pack_file bound) empty_packing batches)

-- `decide`: the ids of each `MutantGroup`.
unfoldable pub group_mutants : GroupMutantsCommand → List (List Text)
unfolding file_batches_of
group_mutants command = pack_batches command.bound (file_batches_of command.mutants)
