-- ===== src/Lockfile/Refs.antt =====
-- References between the entries of a lockfile: `lockRefOf` and `packageKeyOf` of
-- pnpm-lock.schema.ts, and the paths and nodes of lockfile-closure.workflow.ts.
use stryker_js_effect.Prelude.{
  ℕ, suc, ltb, nat_eq, Text, text, text_eq, ◌==◌, take, filter, last?, Bool, true, false, not, ◌&&◌,
  ◌||◌, Option, none, some, map_option, Dict, List, [], ◌∷◌, ◌++◌, map, foldl, if◌then◌else◌,
}
use stryker_js_effect.Lockfile.{LockRef, link_ref, snapshot_ref}

-- `startsWith`, and the rest of the text.
unfoldable pub strip_prefix : Text → Text → Option Text
strip_prefix [] string = some string
strip_prefix (c ∷ kind) [] = none
strip_prefix (c ∷ kind) (d ∷ string) =
    let rest = strip_prefix kind string in if c == d then rest else none

-- `indexOf` of a single character.
abbrev pub index_of : ℕ → Text → Option ℕ
index_of c [] = none
index_of c (d ∷ string) =
    let later = map_option (λ i. suc i) (index_of c string) in if d == c then some 0 else later

abbrev pub cons_first : ℕ → List Text → List Text
cons_first d [] = (d ∷ []) ∷ []
cons_first d (part ∷ parts) = (d ∷ part) ∷ parts

-- `split` at a character.
abbrev pub split_at : ℕ → Text → List Text
split_at c [] = [] ∷ []
split_at c (d ∷ string) =
    let parts = split_at c string in if d == c then [] ∷ parts else cons_first d parts

abbrev pub join_with : ℕ → List Text → Text
join_with c [] = []
join_with c (part ∷ []) = part
join_with c (part ∷ next ∷ parts) = part ++ c ∷ join_with c (next ∷ parts)

abbrev pub precedes : ℕ → Option ℕ → Bool
precedes at none = true
precedes at (some other) = ltb at other

-- An `@` in front of the first `:` and the first `(`.
abbrev pub names_at : Option ℕ → Text → Bool
names_at none ref = false
names_at (some at) ref = precedes at (index_of 58 ref) && precedes at (index_of 40 ref)

abbrev pub starts_with_at : Text → Bool
starts_with_at [] = false
starts_with_at (c ∷ ref) = c == 64

abbrev pub names_its_snapshot : Text → Bool
names_its_snapshot ref = starts_with_at ref || names_at (index_of 64 ref) ref

abbrev pub snapshot_key_of : Text → Text → Text
snapshot_key_of name ref = if names_its_snapshot ref then ref else name ++ 64 ∷ ref

abbrev pub link_or_snapshot : Text → Text → Option Text → LockRef
link_or_snapshot ref name (some target) = link_ref target
link_or_snapshot ref name none = snapshot_ref (snapshot_key_of name ref)

unfoldable pub lock_ref_of : Text → Text → LockRef
lock_ref_of ref name = link_or_snapshot ref name (strip_prefix (text "link:") ref)

abbrev pub before_index : Text → Option ℕ → Text
before_index key none = key
before_index key (some at) = take at key

-- `packageKeyOf` of a `SnapshotRef` with the key.
abbrev pub package_key_of : Text → Text
package_key_of key = before_index key (index_of 40 key)

abbrev pub segments_of : Text → List Text
segments_of key =
    filter (λ segment. not (segment == []) && not (segment == text ".")) (split_at 47 key)

abbrev pub without_last : List Text → List Text
without_last [] = []
without_last (x ∷ []) = []
without_last (x ∷ y ∷ segments) = x ∷ without_last (y ∷ segments)

abbrev pub climbed_from : List Text → Text → Option Text → List Text
climbed_from segments segment none = segments ++ segment ∷ []
climbed_from segments segment (some last) =
    if last == text ".." then segments ++ segment ∷ [] else without_last segments

abbrev pub climbed : List Text → Text → List Text
climbed segments segment = climbed_from segments segment (last? segments)

abbrev pub stepped_into : List Text → Text → List Text
stepped_into segments segment =
    if segment == text ".." then climbed segments segment else segments ++ segment ∷ []

abbrev pub root_importer : Text
root_importer = text "."

abbrev pub or_root : Text → Text
or_root [] = root_importer
or_root (c ∷ joined) = c ∷ joined

abbrev pub key_of_segments : List Text → Text
key_of_segments segments = or_root (join_with 47 segments)

unfoldable pub linked_importer_of : Text → Text → Text
linked_importer_of importer target =
    key_of_segments (foldl stepped_into (segments_of importer) (segments_of target))

-- `slice(0, depth)` for every depth.
abbrev pub prefixes_of : List Text → List (List Text)
prefixes_of [] = [] ∷ []
prefixes_of (s ∷ segments) = [] ∷ map (λ p. s ∷ p) (prefixes_of segments)

unfoldable pub ancestors_of : Text → List Text
ancestors_of importer_key = map key_of_segments (prefixes_of (segments_of importer_key))

abbrev pub importer_node : Text
importer_node = text "importer" ++ 0 ∷ []

abbrev pub snapshot_node : Text
snapshot_node = text "snapshot" ++ 0 ∷ []

abbrev pub node_of : Text → LockRef → Text
node_of importer (link_ref target) = importer_node ++ linked_importer_of importer target
node_of importer (snapshot_ref key) = snapshot_node ++ key

unfoldable pub ref_nodes_of : Text → Dict Text → List Text
ref_nodes_of importer refs = map (λ entry. node_of importer (lock_ref_of entry.1 entry.0)) refs
