-- ===== src/Examples/Locking.antt =====
-- The closure of a lockfile, at concrete inputs.
use stryker_js_effect.Prelude.{
  ℕ, Text, text, text_beq, text_eq, contains, lookup, map, Option, none, some, true, List, [], ◌∷◌,
  ◌≡◌, ◌↔◌, refl,
}
use stryker_js_effect.Lockfile.{
  PnpmImporter, PnpmSnapshot, PnpmLockfile, InstallSettings, PnpmLockfileRead,
  LockfileClosureDecision, lockfile_decoded, install_settings_read, pnpm_lockfile_read,
  lockfile_closure_of, link_ref, snapshot_ref,
}
use stryker_js_effect.Lockfile.Refs.{
  strip_prefix, lock_ref_of, linked_importer_of, ancestors_of, ref_nodes_of, package_key_of,
}
use stryker_js_effect.Lockfile.Walk.{
  reached_from, importer_successors_of, snapshot_successors_of, successors_of, start_nodes_of,
  fuel_for, nodes_from,
}
use stryker_js_effect.Lockfile.Walk.Reached.{Reachable}
use stryker_js_effect.Lockfile.Walk.Ends.{nodes_from_lem}
use stryker_js_effect.Lockfile.Decide.{lockfile_closure, walked_from, dangling_of, closure_of}
use stryker_js_effect.Lockfile.Decide.Closed.{ClosureOrWhole, lockfile_closure-ClosureOrWhole}

link : lock_ref_of (text "link:../b") (text "b") ≡ link_ref (text "../b")
unfolding lock_ref_of strip_prefix
link = refl

version : lock_ref_of (text "1.0.0(y@2.0.0)") (text "x") ≡ snapshot_ref (text "x@1.0.0(y@2.0.0)")
unfolding lock_ref_of strip_prefix
version = refl

alias : lock_ref_of (text "is-odd@3.0.1") (text "plain-alias") ≡ snapshot_ref (text "is-odd@3.0.1")
unfolding lock_ref_of strip_prefix
alias = refl

package_key : package_key_of (text "x@1.0.0(y@2.0.0)") ≡ text "x@1.0.0"
package_key = refl

sibling : linked_importer_of (text "packages/a") (text "../b") ≡ text "packages/b"
unfolding linked_importer_of text_beq
sibling = refl

ancestors : ancestors_of (text "packages/a") ≡ text "." ∷ text "packages" ∷ text "packages/a" ∷ []
unfolding ancestors_of text_beq
ancestors = refl

abbrev depends : Text → Text → PnpmImporter
depends name version = record {
  dependencies = some ((name, record { specifier = version; version = version }) ∷ []);
  dev_dependencies = none;
  optional_dependencies = none;
}

abbrev refers : Text → Text → PnpmSnapshot
refers name version = record {
  dependencies = some ((name, version) ∷ []);
  optional_dependencies = none;
}

-- Two snapshots that refer to each other, and one that nothing refers to.
abbrev locked : PnpmLockfile ℕ
locked = record {
  lockfile_version = text "9.0";
  settings = none;
  importers = (text "a", depends (text "x") (text "1")) ∷ [];
  packages = some ((text "x@1", 1) ∷ (text "y@1", 2) ∷ (text "z@1", 3) ∷ []);
  snapshots = some (
      (text "x@1", refers (text "y") (text "1"))
      ∷ (text "y@1", refers (text "x") (text "1"))
      ∷ (text "z@1", refers (text "x") (text "1"))
      ∷ []);
}

abbrev default_settings : InstallSettings
default_settings = record {
  hoist = none;
  hoist_pattern = none;
  public_hoist_pattern = none;
  node_linker = none;
  shamefully_hoist = none;
  package_manager = none;
}

abbrev reading : PnpmLockfileRead ℕ
reading = record {
  content = text "lockfileVersion: 9.0";
  lockfile = lockfile_decoded locked;
  importer_key = some (text "a");
  install_settings = install_settings_read default_settings;
}

abbrev snapshots_in : Option (LockfileClosureDecision ℕ) → List Text
snapshots_in (some (lockfile_closure_of closure)) = map (λ entry. entry.0) closure.snapshots
snapshots_in _ = []

two_snapshots :
    snapshots_in (lockfile_closure (pnpm_lockfile_read reading)) ≡ text "x@1" ∷ text "y@1" ∷ []
unfolding lockfile_closure text_beq walked_from nodes_from reached_from fuel_for start_nodes_of
    successors_of strip_prefix lookup importer_successors_of ref_nodes_of lock_ref_of ancestors_of
    snapshot_successors_of dangling_of closure_of
two_snapshots = refl

nodes_from_lem_example :
    (nodes : List Text) × (nodes_from locked (text "a") ≡ some nodes)
    × ((n : Text)
        → (contains n nodes ≡ true)
          ↔ Reachable (successors_of locked) (start_nodes_of locked (text "a")) n)
nodes_from_lem_example = nodes_from_lem locked (text "a")

lockfile_closure-ClosureOrWhole_example :
    (decision : LockfileClosureDecision ℕ) × (lockfile_closure (pnpm_lockfile_read reading)
      ≡ some decision)
    × ClosureOrWhole locked (text "a") reading reading.install_settings decision
lockfile_closure-ClosureOrWhole_example =
    lockfile_closure-ClosureOrWhole reading locked (text "a") refl refl
