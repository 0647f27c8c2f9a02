-- ===== src/Lockfile/Decide/Closed.antt =====
-- What the closure of a lockfile has.
use stryker_js_effect.Prelude.{
  Text, nat_eq, text_eq, contains, true, false, ◌&&◌, Bool-cases, Option, none, some, map_option,
  List, [], ◌++◌, map, ◌≡◌, ◌↔◌, ◌⊎◌, append-nil, ⊎_elim, refl, ap, ◌∙◌, sym, inl, inr, arith,
}
use stryker_js_effect.Lockfile.{
  InstallSettings, LockfileFallbackReason, install_settings_unparseable,
  unsupported_lockfile_version, importer_missing, dangling_ref, PnpmLockfile, lockfile_decoded,
  SettingsRead, install_settings_read, install_settings_unreadable, PnpmLockfileRead,
  pnpm_lockfile_read, LockfileClosure, LockfileClosureDecision, lockfile_closure_of, whole_lockfile,
}
use stryker_js_effect.Lockfile.Refs.{package_key_of, importer_node, snapshot_node}
use stryker_js_effect.Lockfile.Walk.{
  snapshots_of, packages_of, has_key, successors_of, start_nodes_of,
}
use stryker_js_effect.Lockfile.Walk.Reached.{Reachable}
use stryker_js_effect.Lockfile.Walk.Ends.{nodes_from_lem}
use stryker_js_effect.Lockfile.Decide.{
  keys_of_kind, first_some_of, dangling_importer_of, dangling_snapshot_of, dangling_of, closure_of,
  closure_or_whole, walked_from, importer_decision_of, is_supported, settings_decision_of,
  lockfile_closure,
}
use stryker_js_effect.Lockfile.Decide.Picked.{
  contains-keys_of_kind, none_first, some_first, PartOf, picked_from-PartOf,
}

module _ {Json : Type 0} (lockfile : PnpmLockfile Json) (importer_key : Text) where
  -- Reached from the importer, or from an importer of one of its ancestors.
  abbrev pub Needed : Text → Type 0
  Needed node = Reachable (successors_of lockfile) (start_nodes_of lockfile importer_key) node

  abbrev pub IsClosure : LockfileClosure Json → Type 0
  IsClosure closure =
      (key : Text)
      → PartOf (Needed (importer_node ++ key)) lockfile.importers closure.importers key
        × PartOf (Needed (snapshot_node ++ key)) (snapshots_of lockfile) closure.snapshots key

  -- A needed importer or snapshot that the lockfile lacks, or whose package it lacks.
  abbrev pub Dangling : Type 0
  Dangling =
      ((key : Text) × Needed (importer_node ++ key) × (has_key lockfile.importers key ≡ false))
      ⊎ ((key : Text) × Needed (snapshot_node ++ key)
          × ((has_key (snapshots_of lockfile) key
                && has_key (packages_of lockfile) (package_key_of key))
              ≡ false))

  abbrev pub IsReason : SettingsRead Json → LockfileFallbackReason → Type 0
  IsReason (install_settings_unreadable message) install_settings_unparseable = Unit
  IsReason settings unsupported_lockfile_version = is_supported lockfile ≡ false
  IsReason settings importer_missing = has_key lockfile.importers importer_key ≡ false
  IsReason settings dangling_ref = Dangling
  IsReason settings reason = ⊥

  -- The closure, or the whole text of the lockfile with a reason that is there.
  abbrev pub ClosureOrWhole :
      PnpmLockfileRead Json → SettingsRead Json → LockfileClosureDecision Json → Type 0
  ClosureOrWhole read settings (lockfile_closure_of closure) = IsClosure closure
  ClosureOrWhole read settings (whole_lockfile content none) = ⊥
  ClosureOrWhole read settings (whole_lockfile content (some fallback)) =
      (content ≡ read.content) × IsReason settings fallback.reason

  importer_there :
      (key : Text)
      → dangling_importer_of lockfile key ≡ none
      → has_key lockfile.importers key ≡ true
  importer_there key h = ground arith

  snapshot_there :
      (key : Text)
      → dangling_snapshot_of lockfile key ≡ none
      → has_key (snapshots_of lockfile) key ≡ true
  snapshot_there key h = ground arith

  importer_gone :
      (key : Text) {ref : Text}
      → dangling_importer_of lockfile key ≡ some ref
      → has_key lockfile.importers key ≡ false
  importer_gone key h = ground arith

  snapshot_gone :
      (key : Text) {ref : Text}
      → dangling_snapshot_of lockfile key ≡ some ref
      → (has_key (snapshots_of lockfile) key && has_key (packages_of lockfile) (package_key_of key))
        ≡ false
  snapshot_gone key h = ground arith

  closure_of-IsClosure :
      (settings : InstallSettings) (nodes : List Text)
      → ((n : Text) → (contains n nodes ≡ true) ↔ Needed n)
      → dangling_of lockfile nodes ≡ none
      → IsClosure (closure_of lockfile settings nodes)
  unfolding closure_of dangling_of
  closure_of-IsClosure settings nodes closed h key =
      let importers = keys_of_kind nodes importer_node in
      let snapshots = keys_of_kind nodes snapshot_node in
      let first =
        none_first (dangling_importer_of lockfile) importers
          (map (dangling_snapshot_of lockfile) snapshots) h in
      let second =
        none_first (dangling_snapshot_of lockfile) snapshots [] (
          ap first_some_of (append-nil (map (dangling_snapshot_of lockfile) snapshots))
          ∙ first.1) in
      (
        picked_from-PartOf _ lockfile.importers importer_node key nodes
            (closed (importer_node ++ key)) (λ c. importer_there key (first.0 key c)),
        picked_from-PartOf _ (snapshots_of lockfile) snapshot_node key nodes
            (closed (snapshot_node ++ key)) (λ c. snapshot_there key (second.0 key c)),
      )

  dangling_of-Dangling :
      (nodes : List Text) {ref : Text}
      → ((n : Text) → (contains n nodes ≡ true) ↔ Needed n)
      → dangling_of lockfile nodes ≡ some ref
      → Dangling
  unfolding dangling_of
  dangling_of-Dangling nodes closed h =
      let importers = keys_of_kind nodes importer_node in
      let snapshots = keys_of_kind nodes snapshot_node in
      let others = map (dangling_snapshot_of lockfile) snapshots in
      ⊎_elim
        (λ r. inl (
          r.0,
          (closed (importer_node ++ r.0)).0
              (sym (contains-keys_of_kind importer_node r.0 nodes) ∙ r.1),
          importer_gone r.0 r.2,
        ))
        (λ o.
          ⊎_elim
            (λ r. inr (
              r.0,
              (closed (snapshot_node ++ r.0)).0
                  (sym (contains-keys_of_kind snapshot_node r.0 nodes) ∙ r.1),
              snapshot_gone r.0 r.2,
            ))
            (λ e. absurd (ground arith))
            (some_first (dangling_snapshot_of lockfile) snapshots []
              (ap first_some_of (append-nil others) ∙ o)))
        (some_first (dangling_importer_of lockfile) importers others h)

  closure_or_whole-ClosureOrWhole :
      (read : PnpmLockfileRead Json) (settings : InstallSettings) (nodes : List Text)
      (ref : Option Text)
      → ((n : Text) → (contains n nodes ≡ true) ↔ Needed n)
      → dangling_of lockfile nodes ≡ ref
      → ClosureOrWhole read
          (install_settings_read settings)
          (closure_or_whole read lockfile settings nodes ref)
  closure_or_whole-ClosureOrWhole read settings nodes none closed h =
      closure_of-IsClosure settings nodes closed h
  closure_or_whole-ClosureOrWhole read settings nodes (some ref) closed h =
      (refl, dangling_of-Dangling nodes closed h)

  abbrev Decides :
      PnpmLockfileRead Json → SettingsRead Json → Option (LockfileClosureDecision Json) → Type 0
  Decides read settings outcome =
      (decision : LockfileClosureDecision Json) × (outcome ≡ some decision)
      × ClosureOrWhole read settings decision

  walked_from-Decides :
      (read : PnpmLockfileRead Json) (settings : InstallSettings)
      → Decides read
          (install_settings_read settings)
          (walked_from read lockfile settings importer_key)
  unfolding walked_from
  walked_from-Decides read settings =
      let (nodes, ends, closed) = nodes_from_lem lockfile importer_key in
      (
        closure_or_whole read lockfile settings nodes (dangling_of lockfile nodes),
        ap (map_option (λ ns. closure_or_whole read lockfile settings ns (dangling_of lockfile ns)))
            ends,
        closure_or_whole-ClosureOrWhole read settings nodes _ closed refl,
      )

  importer_decision_of-Decides :
      (read : PnpmLockfileRead Json) (settings : InstallSettings)
      → Decides read
          (install_settings_read settings)
          (importer_decision_of read lockfile settings (some importer_key))
  importer_decision_of-Decides read settings =
      elim (Bool-cases (has_key lockfile.importers importer_key)) [
        | inl y ↦ rw y (walked_from-Decides read settings)
        | inr n ↦ rw n (_, refl, (refl, n))
      ]

  settings_decision_of-Decides :
      (read : PnpmLockfileRead Json) (settings : SettingsRead Json)
      → read.importer_key ≡ some importer_key
      → Decides read settings (settings_decision_of read lockfile settings)
  settings_decision_of-Decides read (install_settings_unreadable message) h = (_, refl, (refl, tt))
  settings_decision_of-Decides read (install_settings_read settings) h =
      elim (Bool-cases (is_supported lockfile)) [
        | inl y ↦ rw y (simp h (importer_decision_of-Decides read settings))
        | inr n ↦ rw n (_, refl, (refl, n))
      ]

-- Of a lockfile that is decoded, read for an importer: the workflow decides, for a closure or for
-- the whole lockfile. A closure has, with their entries, all importers and snapshots that are
-- reached from the importer and from those of its ancestors that are importers, each of which the
-- lockfile has, and no others. The decision for the whole lockfile has its text and a reason that
-- holds: unreadable settings, an unsupported version, no entry of the importer, or something that
-- is reached and has no entry.
pub lockfile_closure-ClosureOrWhole :
    {Json : Type 0} (read : PnpmLockfileRead Json) (lockfile : PnpmLockfile Json)
    (importer_key : Text)
    → read.lockfile ≡ lockfile_decoded lockfile
    → read.importer_key ≡ some importer_key
    → (decision : LockfileClosureDecision Json) × (lockfile_closure (pnpm_lockfile_read read)
        ≡ some decision)
      × ClosureOrWhole lockfile importer_key read read.install_settings decision
unfolding lockfile_closure
lockfile_closure-ClosureOrWhole read lockfile importer_key h k =
    simp h (settings_decision_of-Decides lockfile importer_key read read.install_settings k)
