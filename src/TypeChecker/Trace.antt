-- ===== src/TypeChecker/Trace.antt =====
-- trace-affected-files.workflow.ts: the mutated files and all that import them, directly or not.
-- A `HashSet` is a list without repetition; its order of iteration is not specified, so nothing
-- here or in the children speaks of the order of the events. The closing loop takes fuel:
-- one round more than there are files that import another.
pub mod Sets
pub mod Reach
use stryker_js_effect.Prelude.{
  ℕ, zero, suc, Text, nat_eq, ◌==◌, Dict, lookup, insert, get_or_else, map_option, length, contains,
  Bool, true, false, Option, none, some, List, [], ◌∷◌, ◌++◌, map, foldl, flatten, if◌then◌else◌,
}

pub data AffectedFile : Type 0 where
  mutated_file_affected : Text → AffectedFile
  dependent_file_affected : Text → AffectedFile

pub record TraceAffectedFilesCommand : Type 0 where
  pub imports_by_file : Dict (List Text)
  pub mutated_file_names : List Text

-- `HashSet.add`, `HashSet.union`, `HashSet.fromIterable`.
pub set_add : List Text → Text → List Text
set_add xs x = if contains x xs then xs else xs ++ x ∷ []

pub set_union : List Text → List Text → List Text
set_union xs ys = foldl set_add xs ys

pub from_iterable : List Text → List Text
from_iterable ys = foldl set_add [] ys

pub add_dependent : Text → Dict (List Text) → Text → Dict (List Text)
add_dependent file_name dependents imported =
    insert imported (set_add (get_or_else (lookup imported dependents) []) file_name) dependents

pub add_file : Dict (List Text) → Text × List Text → Dict (List Text)
add_file dependents (file_name, imports) = foldl (add_dependent file_name) dependents imports

pub dependents_of : Dict (List Text) → Dict (List Text)
dependents_of imports_by_file = foldl add_file [] imports_by_file

pub dependents_of_file : Dict (List Text) → Text → List Text
dependents_of_file dependents file_name = get_or_else (lookup file_name dependents) []

pub grow : Dict (List Text) → List Text → List Text
grow dependents affected =
    set_union affected (from_iterable (flatten (map (dependents_of_file dependents) affected)))

pub close_over_dependents : ℕ → Dict (List Text) → List Text → Option (List Text)
close_over_dependents zero dependents affected = none
close_over_dependents (suc fuel) dependents affected =
    let grown = grow dependents affected in
    let rest = close_over_dependents fuel dependents grown in
    if length grown == length affected then some grown else rest

pub affected_event : List Text → Text → AffectedFile
affected_event seed file_name =
    if contains file_name seed
    then mutated_file_affected file_name
    else dependent_file_affected file_name

unfoldable pub trace_affected_files : TraceAffectedFilesCommand → Option (List AffectedFile)
unfolding from_iterable close_over_dependents dependents_of grow set_union set_add
    dependents_of_file affected_event add_file add_dependent
trace_affected_files command =
    let seed = from_iterable command.mutated_file_names in
    let fuel = suc (length command.imports_by_file) in
    map_option (map (affected_event seed))
      (close_over_dependents fuel (dependents_of command.imports_by_file) seed)
