-- ===== src/Lockfile/Decide.antt =====
-- The decision of lockfile-closure.workflow.ts: the part of the lockfile that the importer depends
-- on, or the whole lockfile with the reason. `none` stands for a walk without fuel.
pub mod Closed
pub mod Picked
use stryker_js_effect.Prelude.{
  ℕ, Text, text, text_eq, ◌==◌, find_first, get_somes, Bool, true, false, not, ◌&&◌, Option, none,
  some, map_option, Dict, lookup, List, [], ◌∷◌, ◌++◌, map, if◌then◌else◌,
}
use stryker_js_effect.Lockfile.{
  InstallSettings, LockfileFallback, LockfileFallbackReason, lockfile_unparseable,
  install_settings_unparseable, unsupported_lockfile_version, no_package_manifest, importer_missing,
  dangling_ref, PnpmLockfile, LockfileRead, lockfile_decoded, lockfile_undecodable, SettingsRead,
  install_settings_read, install_settings_unreadable, PnpmLockfileRead, LockfileSource,
  pnpm_lockfile_read, other_lockfile_read, no_lockfile_read, LockfileClosure,
  LockfileClosureDecision, lockfile_closure_of, whole_lockfile,
}
use stryker_js_effect.Lockfile.Refs.{
  strip_prefix, split_at, package_key_of, importer_node, snapshot_node,
}
use stryker_js_effect.Lockfile.Walk.{snapshots_of, packages_of, has_key, nodes_from}

abbrev pub fallback_of : LockfileFallbackReason → Text → Option LockfileFallback
fallback_of reason detail =
    (let f : LockfileFallback = record { reason = reason; detail = detail } in some f)

abbrev pub keys_of_kind : List Text → Text → List Text
keys_of_kind nodes kind = get_somes (map (strip_prefix kind) nodes)

abbrev pub first_some_of {ℓ} : {A : Type ℓ} → List (Option A) → Option A
first_some_of [] = none
first_some_of (none ∷ options) = first_some_of options
first_some_of (some a ∷ options) = some a

abbrev pub picked_from {ℓ} : {V : Type ℓ} → Dict V → List Text → Dict V
picked_from entries keys =
    get_somes (map (λ key. map_option (λ value. (key, value)) (lookup key entries)) keys)

abbrev quoted : Text → Text → Text
quoted kind key = kind ++ 34 ∷ (key ++ 34 ∷ [])

abbrev first_part : List Text → Text
first_part [] = []
first_part (part ∷ parts) = part

module _ {Json : Type 0} where
  abbrev pub dangling_snapshot_of : PnpmLockfile Json → Text → Option Text
  dangling_snapshot_of lockfile key =
      if has_key (snapshots_of lockfile) key && has_key (packages_of lockfile) (package_key_of key)
      then none
      else some (quoted (text "snapshot ") key)

  abbrev pub dangling_importer_of : PnpmLockfile Json → Text → Option Text
  dangling_importer_of lockfile key =
      if has_key lockfile.importers key then none else some (quoted (text "importer ") key)

  unfoldable pub dangling_of : PnpmLockfile Json → List Text → Option Text
  dangling_of lockfile nodes = first_some_of (
      map (dangling_importer_of lockfile) (keys_of_kind nodes importer_node)
      ++ map (dangling_snapshot_of lockfile) (keys_of_kind nodes snapshot_node))

  unfoldable pub closure_of : PnpmLockfile Json → InstallSettings → List Text → LockfileClosure Json
  closure_of lockfile install_settings nodes =
      let snapshot_keys = keys_of_kind nodes snapshot_node in
      record {
        lockfile_version = lockfile.lockfile_version;
        settings = lockfile.settings;
        install_settings = install_settings;
        importers = picked_from lockfile.importers (keys_of_kind nodes importer_node);
        snapshots = picked_from (snapshots_of lockfile) snapshot_keys;
        packages = picked_from (packages_of lockfile) (map package_key_of snapshot_keys);
      }

  abbrev pub closure_or_whole :
      PnpmLockfileRead Json
      → PnpmLockfile Json
      → InstallSettings
      → List Text
      → Option Text
      → LockfileClosureDecision Json
  closure_or_whole read lockfile install_settings nodes none =
      lockfile_closure_of (closure_of lockfile install_settings nodes)
  closure_or_whole read lockfile install_settings nodes (some ref) =
      whole_lockfile read.content (
        fallback_of dangling_ref
          (ref ++ text " is referenced but the lockfile has no entry for it"))

  unfoldable pub walked_from :
      PnpmLockfileRead Json
      → PnpmLockfile Json
      → InstallSettings
      → Text
      → Option (LockfileClosureDecision Json)
  walked_from read lockfile install_settings importer_key =
      map_option
        (λ nodes.
          closure_or_whole read lockfile install_settings nodes (dangling_of lockfile nodes))
        (nodes_from lockfile importer_key)

  abbrev pub importer_decision_of :
      PnpmLockfileRead Json
      → PnpmLockfile Json
      → InstallSettings
      → Option Text
      → Option (LockfileClosureDecision Json)
  importer_decision_of read lockfile install_settings none = some (
      whole_lockfile read.content (
        fallback_of no_package_manifest
          (text "no package.json was found above the project directory")))
  importer_decision_of read lockfile install_settings (some importer_key) =
      let walked = walked_from read lockfile install_settings importer_key in
      if has_key lockfile.importers importer_key
      then walked
      else some (
          whole_lockfile read.content (
            fallback_of importer_missing
              (quoted (text "the lockfile has no importer ") importer_key)))

  abbrev pub is_supported : PnpmLockfile Json → Bool
  is_supported lockfile = first_part (split_at 46 lockfile.lockfile_version) == text "9"

  abbrev pub decoded_decision_of :
      PnpmLockfileRead Json
      → PnpmLockfile Json
      → InstallSettings
      → Option (LockfileClosureDecision Json)
  decoded_decision_of read lockfile install_settings =
      if is_supported lockfile
      then importer_decision_of read lockfile install_settings read.importer_key
      else some (
          whole_lockfile read.content (
            fallback_of unsupported_lockfile_version
              (text "lockfileVersion " ++ lockfile.lockfile_version ++ text " is not 9.x")))

  abbrev pub settings_decision_of :
      PnpmLockfileRead Json
      → PnpmLockfile Json
      → SettingsRead Json
      → Option (LockfileClosureDecision Json)
  settings_decision_of read lockfile (install_settings_read settings) =
      decoded_decision_of read lockfile settings
  settings_decision_of read lockfile (install_settings_unreadable message) =
      some (whole_lockfile read.content (fallback_of install_settings_unparseable message))

  abbrev pub pnpm_decision_of :
      PnpmLockfileRead Json → LockfileRead Json → Option (LockfileClosureDecision Json)
  pnpm_decision_of read (lockfile_decoded lockfile) =
      settings_decision_of read lockfile read.install_settings
  pnpm_decision_of read (lockfile_undecodable message) =
      some (whole_lockfile read.content (fallback_of lockfile_unparseable message))

  -- `decide`.
  unfoldable pub lockfile_closure : LockfileSource Json → Option (LockfileClosureDecision Json)
  lockfile_closure (pnpm_lockfile_read read) = pnpm_decision_of read read.lockfile
  lockfile_closure (other_lockfile_read content) = some (whole_lockfile content none)
  lockfile_closure no_lockfile_read = some (whole_lockfile [] none)
