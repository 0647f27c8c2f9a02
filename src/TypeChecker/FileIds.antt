-- ===== src/TypeChecker/FileIds.antt =====
-- FileIds.schema.ts: the ids of the mutants, file by file.
pub mod Exhaustive
pub mod Order
use stryker_js_effect.Prelude.{
  Text, Dict, lookup, insert, map_option, get_somes, Option, none, some, List, [], ◌∷◌, ◌++◌, map,
  foldl,
}

pub record FileMutant : Type 0 where
  pub file_name : Text
  pub id : Text

-- The schema asks that `ids` is not empty.
pub record FileIds : Type 0 where
  pub file_name : Text
  pub ids : List Text

pub record Grouping : Type 0 where
  pub files : List Text
  pub ids_by_file : Dict (List Text)

abbrev pub empty_grouping : Grouping
empty_grouping = record { files = []; ids_by_file = [] }

unfoldable pub adding : Grouping → FileMutant → Grouping
adding grouping mutant = elim (lookup mutant.file_name grouping.ids_by_file) [
  | none ↦ record {
    files = grouping.files ++ mutant.file_name ∷ [];
    ids_by_file = insert mutant.file_name (mutant.id ∷ []) grouping.ids_by_file;
  }
  | some ids ↦ record grouping {
    ids_by_file = insert mutant.file_name (ids ++ mutant.id ∷ []) grouping.ids_by_file;
  }
]

pub file_entry : Grouping → Text → Option FileIds
file_entry grouping file =
    map_option (λ ids. record { file_name = file; ids = ids }) (lookup file grouping.ids_by_file)

unfoldable pub file_ids_of : List FileMutant → List FileIds
unfolding adding file_entry
file_ids_of mutants =
    let grouping = foldl adding empty_grouping mutants in
    get_somes (map (file_entry grouping) grouping.files)
