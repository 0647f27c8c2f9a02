-- ===== src/Lockfile.antt =====
-- packages/stryker-js/src: the part of a lockfile that an importer depends on. Here the data of
-- pnpm-lock.schema.ts and lockfile-closure.workflow.ts. `Refs` resolves references to nodes of a
-- graph, `Walk` follows them, and `Decide` has the workflow. The JSON values that the workflow
-- only passes on are of a type that is a parameter.
pub mod Refs
pub mod Walk
pub mod Decide
use stryker_js_effect.Prelude.{Text, Bool, Option, List, Dict}

-- A dependency of an importer, with the version that it is resolved to.
pub record PnpmImporterDependency : Type 0 where
  pub specifier : Text
  pub version : Text

pub record PnpmSnapshot : Type 0 where
  pub dependencies : Option (Dict Text)
  pub optional_dependencies : Option (Dict Text)

pub record PnpmImporter : Type 0 where
  pub dependencies : Option (Dict PnpmImporterDependency)
  pub dev_dependencies : Option (Dict PnpmImporterDependency)
  pub optional_dependencies : Option (Dict PnpmImporterDependency)

pub data LockRef : Type 0 where
  link_ref snapshot_ref : Text → LockRef

pub data HoistPatterns : Type 0 where
  one_pattern : Text → HoistPatterns
  many_patterns : List Text → HoistPatterns

pub record InstallSettings : Type 0 where
  pub hoist : Option Bool
  pub hoist_pattern : Option HoistPatterns
  pub public_hoist_pattern : Option HoistPatterns
  pub node_linker : Option Text
  pub shamefully_hoist : Option Bool
  pub package_manager : Option Text

pub data LockfileFallbackReason : Type 0 where
  lockfile_unparseable install_settings_unparseable unsupported_lockfile_version :
      LockfileFallbackReason
  no_package_manifest importer_missing dangling_ref : LockfileFallbackReason

pub record LockfileFallback : Type 0 where
  pub reason : LockfileFallbackReason
  pub detail : Text

module _ (Json : Type 0) where
  pub record PnpmLockfile : Type 0 where
    pub lockfile_version : Text
    pub settings : Option (Dict Json)
    pub importers : Dict PnpmImporter
    pub packages : Option (Dict Json)
    pub snapshots : Option (Dict PnpmSnapshot)

  pub data LockfileRead : Type 0 where
    lockfile_decoded : PnpmLockfile → LockfileRead
    lockfile_undecodable : Text → LockfileRead

  pub data SettingsRead : Type 0 where
    install_settings_read : InstallSettings → SettingsRead
    install_settings_unreadable : Text → SettingsRead

  pub record PnpmLockfileRead : Type 0 where
    pub content : Text
    pub lockfile : LockfileRead
    pub importer_key : Option Text
    pub install_settings : SettingsRead

  pub data LockfileSource : Type 0 where
    pnpm_lockfile_read : PnpmLockfileRead → LockfileSource
    other_lockfile_read : Text → LockfileSource
    no_lockfile_read : LockfileSource

  pub record LockfileClosure : Type 0 where
    pub lockfile_version : Text
    pub settings : Option (Dict Json)
    pub install_settings : InstallSettings
    pub importers : Dict PnpmImporter
    pub snapshots : Dict PnpmSnapshot
    pub packages : Dict Json

  pub data LockfileClosureDecision : Type 0 where
    lockfile_closure_of : LockfileClosure → LockfileClosureDecision
    whole_lockfile : Text → Option LockfileFallback → LockfileClosureDecision
