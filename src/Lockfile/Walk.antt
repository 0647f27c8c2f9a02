-- ===== src/Lockfile/Walk.antt =====
-- What the entries of a lockfile refer to, and all that is reached from some of them.
--
-- A `HashSet` is a list without repetition. `reachedFrom` takes fuel, one round more than the
-- lockfile has importers and snapshots.
pub mod Ends
pub mod Reached
use stryker_js_effect.Prelude.{
  ℕ, zero, suc, ◌+◌, Text, text_eq, ◌==◌, contains, distinct, filter, flatten, length, Bool, true,
  false, not, Option, none, some, map_option, get_or_else, Dict, lookup, List, [], ◌∷◌, ◌++◌, map,
  if◌then◌else◌,
}
use stryker_js_effect.Lockfile.{PnpmImporterDependency, PnpmImporter, PnpmSnapshot, PnpmLockfile}
use stryker_js_effect.Lockfile.Refs.{
  strip_prefix, importer_node, snapshot_node, root_importer, ref_nodes_of, ancestors_of,
}

abbrev pub versions_of : Option (Dict PnpmImporterDependency) → Dict Text
versions_of none = []
versions_of (some dependencies) = map (λ entry. (entry.0, entry.1.version)) dependencies

unfoldable pub importer_successors_of : Text → PnpmImporter → List Text
importer_successors_of key importer =
    ref_nodes_of key (versions_of importer.dependencies)
    ++ ref_nodes_of key (versions_of importer.dev_dependencies)
    ++ ref_nodes_of key (versions_of importer.optional_dependencies)

unfoldable pub snapshot_successors_of : PnpmSnapshot → List Text
snapshot_successors_of snapshot =
    ref_nodes_of root_importer (get_or_else snapshot.dependencies [])
    ++ ref_nodes_of root_importer (get_or_else snapshot.optional_dependencies [])

-- `Arr.filter` of the new nodes, by what is seen.
abbrev pub unseen : List Text → List Text → List Text
unseen seen [] = []
unseen seen (node ∷ nodes) =
    let rest = unseen seen nodes in if contains node seen then rest else node ∷ rest

-- The set itself where nothing is new, and the rest of the walk otherwise.
abbrev pub seen_or : List Text → Option (List Text) → List Text → Option (List Text)
seen_or seen rest [] = some seen
seen_or seen rest (node ∷ next) = rest

module _ (successors : Text → List Text) where
  abbrev pub next_of : List Text → List Text → List Text
  next_of seen frontier = unseen seen (distinct (flatten (map successors frontier)))

  unfoldable pub reached_from : ℕ → List Text → List Text → Option (List Text)
  reached_from zero seen frontier = none
  reached_from (suc fuel) seen frontier =
      let next = next_of seen frontier in
      let rest = reached_from fuel (seen ++ next) next in seen_or seen rest next

-- `Option.orElse`.
abbrev pub or_else : Option (List Text) → Option (List Text) → Option (List Text)
or_else none later = later
or_else (some nodes) later = some nodes

abbrev pub has_key {ℓ} : {V : Type ℓ} → Dict V → Text → Bool
has_key [] key = false
has_key ((name, value) ∷ entries) key =
    let rest = has_key entries key in if name == key then true else rest

module _ {Json : Type 0} where
  abbrev pub snapshots_of : PnpmLockfile Json → Dict PnpmSnapshot
  snapshots_of lockfile = get_or_else lockfile.snapshots []

  abbrev pub packages_of : PnpmLockfile Json → Dict Json
  packages_of lockfile = get_or_else lockfile.packages []

  abbrev pub from_importer : PnpmLockfile Json → Option Text → Option (List Text)
  from_importer lockfile none = none
  from_importer lockfile (some key) =
      map_option (importer_successors_of key) (lookup key lockfile.importers)

  abbrev pub from_snapshot : PnpmLockfile Json → Option Text → Option (List Text)
  from_snapshot lockfile none = none
  from_snapshot lockfile (some key) =
      map_option snapshot_successors_of (lookup key (snapshots_of lockfile))

  unfoldable pub successors_of : PnpmLockfile Json → Text → List Text
  successors_of lockfile node =
      get_or_else
        (or_else (from_importer lockfile (strip_prefix importer_node node))
          (from_snapshot lockfile (strip_prefix snapshot_node node)))
        []

  unfoldable pub start_nodes_of : PnpmLockfile Json → Text → List Text
  start_nodes_of lockfile importer_key =
      map (λ key. importer_node ++ key)
        (importer_key ∷ filter (has_key lockfile.importers) (ancestors_of importer_key))

  unfoldable pub fuel_for : PnpmLockfile Json → ℕ
  fuel_for lockfile = length lockfile.importers + length (snapshots_of lockfile) + 1

  unfoldable pub nodes_from : PnpmLockfile Json → Text → Option (List Text)
  nodes_from lockfile importer_key =
      let start = start_nodes_of lockfile importer_key in
      reached_from (successors_of lockfile) (fuel_for lockfile) (distinct start) start
