-- ===== src/TypeChecker/FileIds/Order.antt =====
-- The order of the files in `fileIdsOf`, and of the ids of each.
use stryker_js_effect.Prelude.{
  without, Text, text_eq, text_beq_iff, ◌==◌, lookup, lookup-insert, get_somes, false, Option, none,
  some, List, [], ◌∷◌, ◌++◌, map, foldl, is_empty, All, All-map, if◌then◌else◌, Bool-cases,
  Option-cases, ◌≡◌, refl, ap, ◌∙◌, inl, inr, arith, append_assoc, append-nil, subst,
}
use stryker_js_effect.TypeChecker.FileIds.{
  FileMutant, Grouping, empty_grouping, adding, file_entry, file_ids_of,
}

-- The ids of one file, in the order of the input.
abbrev pub ids_in : Text → List FileMutant → List Text
ids_in f [] = []
ids_in f (m ∷ ms) = let rest = ids_in f ms in if m.file_name == f then m.id ∷ rest else rest

-- The files of the mutants without repetition, at the first place of each.
abbrev pub first_seen : List FileMutant → List Text
first_seen [] = []
first_seen (m ∷ ms) = m.file_name ∷ without m.file_name (first_seen ms)

-- What the map of the loop holds for a file whose ids are `xs` so far.
abbrev found : List Text → Option (List Text)
found [] = none
found (x ∷ xs) = some (x ∷ xs)

ids_in-append : (f : Text) (p q : List FileMutant) → ids_in f (p ++ q) ≡ ids_in f p ++ ids_in f q
ids_in-append f [] q = refl
ids_in-append f (x ∷ p) q = ground (arith, ids_in-append f p q)

without-append : (f : Text) (p q : List Text) → without f (p ++ q) ≡ without f p ++ without f q
without-append f [] q = refl
without-append f (x ∷ p) q = ground (arith, without-append f p q)

-- One more mutant adds its file exactly where the file has no id yet.
first_seen-snoc :
    (p : List FileMutant) (m : FileMutant)
    → first_seen (p ++ m ∷ [])
      ≡ (if is_empty (ids_in m.file_name p) then first_seen p ++ m.file_name ∷ [] else first_seen p)
first_seen-snoc [] m = refl
first_seen-snoc (x ∷ p) m = ground (
  arith,
  first_seen-snoc p m,
  without-append x.file_name (first_seen p) (m.file_name ∷ []),
  append-nil (without x.file_name (first_seen p)),
  text_beq_iff m.file_name x.file_name,
  text_beq_iff x.file_name m.file_name,
)

found-snoc : (xs : List Text) (y : Text) → found (xs ++ y ∷ []) ≡ some (xs ++ y ∷ [])
found-snoc [] y = refl
found-snoc (x ∷ xs) y = refl

-- The loop's state after the mutants `p`.
record Holds (p : List FileMutant) (g : Grouping) : Type 0 where
  files_seen : g.files ≡ first_seen p
  ids_found : (f : Text) → lookup f g.ids_by_file ≡ found (ids_in f p)

Holds-adding :
    (p : List FileMutant) (g : Grouping) (m : FileMutant)
    → Holds p g
    → Holds (p ++ m ∷ []) (adding g m)
unfolding adding
Holds-adding p g m h = elim (Option-cases (lookup m.file_name g.ids_by_file)) [
  | inl new ↦ record {
    files_seen = ground (arith, h.ids_found m.file_name, h.files_seen, first_seen-snoc p m);
    ids_found = λ f. ground (
      arith,
      h.ids_found f,
      h.ids_found m.file_name,
      ids_in-append f p (m ∷ []),
      append-nil (ids_in f p),
      lookup-insert m.file_name f (m.id ∷ []) g.ids_by_file,
      text_beq_iff m.file_name f,
    );
  }
  | inr (ids, old) ↦ record {
    files_seen = ground (arith, h.ids_found m.file_name, h.files_seen, first_seen-snoc p m);
    ids_found = λ f. ground (
      arith,
      h.ids_found f,
      h.ids_found m.file_name,
      ids_in-append f p (m ∷ []),
      append-nil (ids_in f p),
      lookup-insert m.file_name f (ids ++ m.id ∷ []) g.ids_by_file,
      text_beq_iff m.file_name f,
    );
  }
]

Holds-foldl :
    (p ms : List FileMutant) (g : Grouping) → Holds p g → Holds (p ++ ms) (foldl adding g ms)
Holds-foldl p [] g h = rw append-nil h
Holds-foldl p (m ∷ ms) g h =
    subst (λ q. Holds q (foldl adding g (m ∷ ms))) (append_assoc p (m ∷ []) ms)
      (Holds-foldl (p ++ m ∷ []) ms (adding g m) (Holds-adding p g m h))

abbrev HasIds : List FileMutant → Text → Type 0
HasIds ms f = is_empty (ids_in f ms) ≡ false

HasIds-cons :
    (m : FileMutant) (ms : List FileMutant) (g : Text) (fs : List Text)
    → All (HasIds ms) fs
    → All (HasIds (m ∷ ms)) (without g fs)
HasIds-cons m ms g [] h = tt
HasIds-cons m ms g (f ∷ fs) h = elim (Bool-cases (f == g)) [
  | inl same ↦ rw same (HasIds-cons m ms g fs h.1)
  | inr other ↦ rw other (ground arith, HasIds-cons m ms g fs h.1)
]

-- A file that is listed has an id.
first_seen-HasIds : (ms : List FileMutant) → All (HasIds ms) (first_seen ms)
first_seen-HasIds [] = tt
first_seen-HasIds (m ∷ ms) = (
  ground (arith, text_beq_iff m.file_name m.file_name),
  HasIds-cons m ms m.file_name (first_seen ms) (first_seen-HasIds ms),
)

get_somes-entries :
    (ms : List FileMutant) (g : Grouping) (fs : List Text)
    → Holds ms g
    → All (HasIds ms) fs
    → get_somes (map (file_entry g) fs) ≡ map (λ f. record { file_name = f; ids = ids_in f ms }) fs
unfolding file_entry
get_somes-entries ms g [] h ne = refl
get_somes-entries ms g (f ∷ fs) h ne =
    ground (arith, h.ids_found f, get_somes-entries ms g fs h ne.1)

-- The entries are the files in the order of their first mutant, and the entry of a file holds
-- the ids of that file's mutants in the order of the input.
pub file_ids_of-eq :
    (mutants : List FileMutant)
    → file_ids_of mutants
      ≡ map (λ f. record { file_name = f; ids = ids_in f mutants }) (first_seen mutants)
unfolding file_ids_of lookup
file_ids_of-eq mutants =
    let grouping = foldl adding empty_grouping mutants in
    let h =
      Holds-foldl [] mutants empty_grouping (record { files_seen = refl; ids_found = λ f. refl }) in
    ap (λ fs. get_somes (map (file_entry grouping) fs)) h.files_seen
    ∙ get_somes-entries mutants grouping (first_seen mutants) h (first_seen-HasIds mutants)

-- No entry is without an id, as the schema of `FileIds` asks.
pub file_ids_of-nonempty :
    (mutants : List FileMutant) → All (λ file. is_empty file.ids ≡ false) (file_ids_of mutants)
file_ids_of-nonempty mutants =
    rw (file_ids_of-eq mutants) (All-map _ _ (first_seen mutants) (first_seen-HasIds mutants))
