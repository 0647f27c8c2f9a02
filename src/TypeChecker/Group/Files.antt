-- ===== src/TypeChecker/Group/Files.antt =====
-- What `groupMutants` does to the mutants of a command.
use mathlib.Core.List.{Perm}
use stryker_js_effect.Prelude.{List, map, flatten, is_empty, All, All-map, false, ◌≡◌, map-map}
use stryker_js_effect.TypeChecker.FileIds.{FileMutant, file_ids_of}
use stryker_js_effect.TypeChecker.FileIds.Order.{
  ids_in, first_seen, file_ids_of-eq, file_ids_of-nonempty,
}
use stryker_js_effect.TypeChecker.FileIds.Exhaustive.{file_ids_of-perm}
use stryker_js_effect.TypeChecker.Group.{GroupMutantsCommand, file_batches_of, group_mutants}
use stryker_js_effect.TypeChecker.Group.Packed.{
  IsPacked, FitsBound, pack_batches-Closed, flatten-pack_batches,
}

file_batches_of-nonempty :
    (mutants : List FileMutant) → All (λ b. is_empty b ≡ false) (file_batches_of mutants)
unfolding file_batches_of
file_batches_of-nonempty mutants = All-map _ _ (file_ids_of mutants) (file_ids_of-nonempty mutants)

file_batches_of-eq :
    (mutants : List FileMutant)
    → file_batches_of mutants ≡ map (λ f. ids_in f mutants) (first_seen mutants)
unfolding file_batches_of
file_batches_of-eq mutants = rw (file_ids_of-eq mutants) (map-map _ _ _)

-- The groups are consecutive runs of the files' id lists, the files in the order of their first
-- mutant: no file is split over two groups. Each group has at most `bound` ids, unless it is one
-- file by itself, and none is empty.
pub group_mutants-IsPacked :
    (command : GroupMutantsCommand)
    → let batches = map (λ f. ids_in f command.mutants) (first_seen command.mutants) in
      IsPacked command.bound batches (group_mutants command)
      × All (FitsBound command.bound batches) (group_mutants command)
      × All (λ g. is_empty g ≡ false) (group_mutants command)
unfolding group_mutants
group_mutants-IsPacked command = rw (← file_batches_of-eq command.mutants) (
    pack_batches-Closed command.bound (file_batches_of command.mutants)
      (file_batches_of-nonempty command.mutants))

-- Every mutant is in the groups, as often as it was in the command.
pub group_mutants-perm :
    (command : GroupMutantsCommand)
    → Perm (flatten (group_mutants command)) (map (λ m. m.id) command.mutants)
unfolding group_mutants file_batches_of
group_mutants-perm command =
    rw
      (flatten-pack_batches command.bound (file_batches_of command.mutants)
        (file_batches_of-nonempty command.mutants))
      (file_ids_of-perm command.mutants)
