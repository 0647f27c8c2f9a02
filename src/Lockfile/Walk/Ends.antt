-- ===== src/Lockfile/Walk/Ends.antt =====
-- The walk over the entries of a lockfile.
use stryker_js_effect.Prelude.{
  ◌<◌, Text, nat_eq, nat_beq_iff, text_eq, text_beq_iff, ◌==◌, contains, contains-append, length,
  length-append, length-map, Dict, lookup, true, ◌||◌, Bool-cases, Option, none, some, Option-cases,
  get_or_else, List, [], ◌∷◌, ◌++◌, map, ◌≡◌, ◌↔◌, refl, ap, ap₂, sym, inl, inr, arith,
}
use stryker_js_effect.Lockfile.{PnpmLockfile}
use stryker_js_effect.Lockfile.Refs.{strip_prefix, importer_node, snapshot_node}
use stryker_js_effect.Lockfile.Walk.{
  snapshots_of, or_else, from_importer, from_snapshot, successors_of, start_nodes_of, fuel_for,
  nodes_from,
}
use stryker_js_effect.Lockfile.Walk.Reached.{Reachable, reached_from_lem}

pub strip_prefix-some :
    (kind string rest : Text) → strip_prefix kind string ≡ some rest → string ≡ kind ++ rest
unfolding strip_prefix
strip_prefix-some [] string rest h = ground arith
strip_prefix-some (c ∷ kind) [] rest h = cc
strip_prefix-some (c ∷ kind) (d ∷ string) rest h = elim (Bool-cases (c == d)) [
  | inl same ↦
      ap₂ ◌∷◌ (sym ((nat_beq_iff c d).0 same)) (strip_prefix-some kind string rest (rw same at h))
  | inr other ↦ absurd (let h' = rw other at h in ground arith)
]

-- The nodes of the entries with the keys.
abbrev nodes_of {ℓ} : {V : Type ℓ} → Text → Dict V → List Text
nodes_of kind entries = map (λ entry. kind ++ entry.0) entries

contains-nodes_of {ℓ} :
    {V : Type ℓ} (kind key : Text) (entries : Dict V) {value : V}
    → lookup key entries ≡ some value
    → contains (kind ++ key) (nodes_of kind entries) ≡ true
unfolding lookup
contains-nodes_of kind key [] h = cc
contains-nodes_of kind key ((name, value) ∷ entries) h = elim (Bool-cases (name == key)) [
  | inl same ↦
      let e : kind ++ name ≡ kind ++ key = ap (λ k. kind ++ k) ((text_beq_iff name key).0 same) in
      ap (λ b. b || contains (kind ++ key) (nodes_of kind entries))
        ((text_beq_iff (kind ++ name) (kind ++ key)).1 e)
  | inr other ↦ ground (arith, contains-nodes_of kind key entries (rw other at h))
]

module _ {Json : Type 0} (lockfile : PnpmLockfile Json) where
  abbrev pub entry_nodes_of : List Text
  entry_nodes_of =
      nodes_of importer_node lockfile.importers ++ nodes_of snapshot_node (snapshots_of lockfile)

  from_importer-entry :
      (node : Text) (key : Option Text) {nodes : List Text}
      → strip_prefix importer_node node ≡ key
      → from_importer lockfile key ≡ some nodes
      → contains node entry_nodes_of ≡ true
  from_importer-entry node none e h = cc
  from_importer-entry node (some key) e h = elim (Option-cases (lookup key lockfile.importers)) [
    | inl n ↦ absurd (let h' = rw n at h in ground arith)
    | inr s ↦
        let at_key = contains-nodes_of importer_node key lockfile.importers s.1 in
        rw (strip_prefix-some importer_node node key e) (
          ground (
            arith,
            at_key,
            contains-append (importer_node ++ key) (nodes_of importer_node lockfile.importers)
                (nodes_of snapshot_node (snapshots_of lockfile)),
          ))
  ]

  from_snapshot-entry :
      (node : Text) (key : Option Text) {nodes : List Text}
      → strip_prefix snapshot_node node ≡ key
      → from_snapshot lockfile key ≡ some nodes
      → contains node entry_nodes_of ≡ true
  from_snapshot-entry node none e h = cc
  from_snapshot-entry node (some key) e h =
      elim (Option-cases (lookup key (snapshots_of lockfile))) [
        | inl n ↦ absurd (let h' = rw n at h in ground arith)
        | inr s ↦
            let at_key = contains-nodes_of snapshot_node key (snapshots_of lockfile) s.1 in
            rw (strip_prefix-some snapshot_node node key e) (
              ground (
                arith,
                at_key,
                contains-append (snapshot_node ++ key) (nodes_of importer_node lockfile.importers)
                    (nodes_of snapshot_node (snapshots_of lockfile)),
              ))
      ]

  refers-entry :
      (node m : Text) (first second : Option (List Text))
      → from_importer lockfile (strip_prefix importer_node node) ≡ first
      → from_snapshot lockfile (strip_prefix snapshot_node node) ≡ second
      → contains m (get_or_else (or_else first second) []) ≡ true
      → contains node entry_nodes_of ≡ true
  refers-entry node m none none e d h = absurd (ground arith)
  refers-entry node m none (some nodes) e d h = from_snapshot-entry node _ refl d
  refers-entry node m (some nodes) second e d h = from_importer-entry node _ refl e

  -- A node that refers to something has an entry.
  successors_of-entry :
      (node m : Text)
      → contains m (successors_of lockfile node) ≡ true
      → contains node entry_nodes_of ≡ true
  unfolding successors_of
  successors_of-entry node m h = refers-entry node m _ _ refl refl h

  entry_nodes_of-lt : length entry_nodes_of < fuel_for lockfile
  unfolding fuel_for
  entry_nodes_of-lt = omega (
    arith,
    length-append (nodes_of importer_node lockfile.importers)
        (nodes_of snapshot_node (snapshots_of lockfile)),
    length-map (λ entry. importer_node ++ entry.0) lockfile.importers,
    length-map (λ entry. snapshot_node ++ entry.0) (snapshots_of lockfile),
  )

-- Whatever the lockfile and the importer, circular references included: the walk ends within its
-- fuel, and it ends with exactly the nodes that are reached from the importer and from those of its
-- ancestors that are importers.
pub nodes_from_lem :
    {Json : Type 0} (lockfile : PnpmLockfile Json) (importer_key : Text)
    → (nodes : List Text) × (nodes_from lockfile importer_key ≡ some nodes)
      × ((n : Text)
          → (contains n nodes ≡ true)
            ↔ Reachable (successors_of lockfile) (start_nodes_of lockfile importer_key) n)
unfolding nodes_from
nodes_from_lem lockfile importer_key =
    reached_from_lem (successors_of lockfile) (start_nodes_of lockfile importer_key)
      (entry_nodes_of lockfile) (successors_of-entry lockfile) (fuel_for lockfile)
      (entry_nodes_of-lt lockfile)
