-- ===== src/TypeChecker/Trace/Reach.antt =====
-- The closing loop, and the files that reach a mutated file by imports.
use stryker_js_effect.Prelude.{
  ℕ, zero, suc, ◌+◌, ◌≤◌, ◌<◌, Text, text_eq, nat_eq, text_beq_iff, ◌==◌, Dict, length,
  length-append, contains, contains-append, not, Bool, true, false, ◌&&◌, ◌||◌, some, map_option,
  List, [], ◌∷◌, ◌++◌, map, foldl, flatten, if◌then◌else◌, Bool-cases, nat_beq_iff, ◌≡◌, refl, ap,
  ◌∙◌, sym, ◌↔◌, inl, inr, arith,
}
use stryker_js_effect.TypeChecker.Trace.{
  AffectedFile, mutated_file_affected, dependent_file_affected, TraceAffectedFilesCommand, set_add,
  set_union, from_iterable, dependents_of, dependents_of_file, grow, close_over_dependents,
  affected_event, trace_affected_files,
}
use stryker_js_effect.TypeChecker.Trace.Sets.{
  imported_by, imports_any, contains-grow, contains-from_iterable, contains-set_add, contains-foldl,
}

-- A file is affected if it is mutated, or imports an affected file.
pub data Affected (imports : Dict (List Text)) (seed : List Text) : Text → Type 0 where
  mutated : {f : Text} → contains f seed ≡ true → Affected imports seed f
  importing :
      {g f : Text}
      → imported_by imports g f ≡ true
      → Affected imports seed f
      → Affected imports seed g

-- The entries whose file is not in the set yet.
abbrev missing : Dict (List Text) → List Text → ℕ
missing [] xs = 0
missing ((k, is) ∷ m) xs = let rest = missing m xs in if contains k xs then rest else suc rest

abbrev is_file : Dict (List Text) → Text → Bool
is_file [] g = false
is_file ((k, is) ∷ m) g = k == g || is_file m g

missing-le :
    (m : Dict (List Text)) (xs : List Text) (x : Text) → missing m (xs ++ x ∷ []) ≤ missing m xs
missing-le [] xs x = omega arith
missing-le ((k, is) ∷ m) xs x = ground (arith, missing-le m xs x, contains-append k xs (x ∷ []))

missing-lt :
    (m : Dict (List Text)) (xs : List Text) (x : Text)
    → is_file m x ≡ true
    → contains x xs ≡ false
    → missing m (xs ++ x ∷ []) < missing m xs
missing-lt [] xs x h n = cc
missing-lt ((k, is) ∷ m) xs x h n = ground (
  arith,
  missing-lt m xs x,
  missing-le m xs x,
  contains-append k xs (x ∷ []),
  text_beq_iff k x,
  text_beq_iff x k,
)

missing-le-length : (m : Dict (List Text)) (xs : List Text) → missing m xs ≤ length m
missing-le-length [] xs = omega arith
missing-le-length ((k, is) ∷ m) xs = ground (arith, missing-le-length m xs)

-- Every name that `ys` has and `xs` has not is a file of the record.
abbrev NewAreFiles : Dict (List Text) → List Text → List Text → Type 0
NewAreFiles m xs ys = (y : Text) → contains y ys ≡ true → contains y xs ≡ false → is_file m y ≡ true

set_add-grows :
    (m : Dict (List Text)) (xs : List Text) (x : Text)
    → (contains x xs ≡ false → is_file m x ≡ true)
    → (length xs ≤ length (set_add xs x))
      × (length (set_add xs x) + missing m (set_add xs x) ≤ length xs + missing m xs)
unfolding set_add
set_add-grows m xs x h = elim (Bool-cases (contains x xs)) [
  | inl old ↦ rw old (omega arith)
  | inr new ↦ rw new (omega (arith, length-append xs (x ∷ []), missing-lt m xs x (h new) new))
]

foldl-grows :
    (m : Dict (List Text)) (xs ys : List Text)
    → NewAreFiles m xs ys
    → (length xs ≤ length (foldl set_add xs ys))
      × (length (foldl set_add xs ys) + missing m (foldl set_add xs ys) ≤ length xs + missing m xs)
foldl-grows m xs [] h = omega arith
foldl-grows m xs (y ∷ ys) h =
    let one = set_add-grows m xs y (λ n. h y (ground (arith, text_beq_iff y y)) n) in
    let all =
      foldl-grows m (set_add xs y) ys
        (λ z c n. h z (ground arith) (ground (arith, contains-set_add z y xs))) in
    omega (arith, one, all)

length-foldl-le : (xs ys : List Text) → length xs ≤ length (foldl set_add xs ys)
unfolding set_add
length-foldl-le xs [] = omega arith
length-foldl-le xs (y ∷ ys) =
    ground (arith, length-foldl-le (set_add xs y) ys, length-append xs (y ∷ []))

-- Where the size has not grown, nothing was added.
foldl_same :
    (xs ys : List Text) → length (foldl set_add xs ys) ≡ length xs → foldl set_add xs ys ≡ xs
unfolding set_add
foldl_same xs [] e = refl
foldl_same xs (y ∷ ys) e = elim (Bool-cases (contains y xs)) [
  | inl old ↦ rw old (foldl_same xs ys (rw old at e))
  | inr new ↦ absurd (
      let e' = rw new at e in
      omega (arith, e', length-foldl-le (xs ++ y ∷ []) ys, length-append xs (y ∷ [])))
]

imported_by-is_file :
    (m : Dict (List Text)) (g f : Text) → imported_by m g f ≡ true → is_file m g ≡ true
imported_by-is_file [] g f h = cc
imported_by-is_file ((k, is) ∷ m) g f h = ground (arith, imported_by-is_file m g f)

imports_any-is_file :
    (m : Dict (List Text)) (g : Text) (fs : List Text)
    → imports_any m g fs ≡ true
    → is_file m g ≡ true
imports_any-is_file m g [] h = cc
imports_any-is_file m g (f ∷ fs) h = elim (Bool-cases (imported_by m g f)) [
  | inl direct ↦ imported_by-is_file m g f direct
  | inr other ↦ imports_any-is_file m g fs (ground arith)
]

imports_any_intro :
    (m : Dict (List Text)) (g f : Text) (fs : List Text)
    → contains f fs ≡ true
    → imported_by m g f ≡ true
    → imports_any m g fs ≡ true
imports_any_intro m g f [] c i = cc
imports_any_intro m g f (x ∷ fs) c i = ground (arith, imports_any_intro m g f fs, text_beq_iff x f)

module _ (imports : Dict (List Text)) (seed : List Text) where
  imports_any-Affected :
      (g : Text) (fs : List Text)
      → ((f : Text) → contains f fs ≡ true → Affected imports seed f)
      → imports_any imports g fs ≡ true
      → Affected imports seed g
  imports_any-Affected g [] h i = cc
  imports_any-Affected g (f ∷ fs) h i = elim (Bool-cases (imported_by imports g f)) [
    | inl direct ↦ importing direct (h f (ground (arith, text_beq_iff f f)))
    | inr other ↦ imports_any-Affected g fs (λ x c. h x (ground arith)) (ground arith)
  ]

  record Sound (fs : List Text) : Type 0 where
    seeded : (f : Text) → contains f seed ≡ true → contains f fs ≡ true
    sound : (f : Text) → contains f fs ≡ true → Affected imports seed f

  grow-Sound : (fs : List Text) → Sound fs → Sound (grow (dependents_of imports) fs)
  grow-Sound fs h = record {
    seeded = λ f c. ground (arith, contains-grow imports f fs, h.seeded f c);
    sound = λ f c. elim (Bool-cases (contains f fs)) [
      | inl old ↦ h.sound f old
      | inr new ↦ imports_any-Affected f fs h.sound (ground (arith, contains-grow imports f fs))
    ];
  }

  grow-NewAreFiles :
      (fs : List Text)
      → (length fs ≤ length (grow (dependents_of imports) fs))
        × (length (grow (dependents_of imports) fs)
              + missing imports (grow (dependents_of imports) fs)
            ≤ length fs + missing imports fs)
  unfolding grow set_union
  grow-NewAreFiles fs =
      let ys = from_iterable (flatten (map (dependents_of_file (dependents_of imports)) fs)) in
      foldl-grows imports fs ys (λ y c n.
        imports_any-is_file imports y fs
          (ground (arith, contains-grow imports y fs, contains-foldl y fs ys)))

  grow_same :
      (fs : List Text)
      → length (grow (dependents_of imports) fs) ≡ length fs
      → grow (dependents_of imports) fs ≡ fs
  unfolding grow set_union
  grow_same fs e =
      foldl_same fs (from_iterable (flatten (map (dependents_of_file (dependents_of imports)) fs)))
        e

  complete :
      (fs : List Text)
      → Sound fs
      → length (grow (dependents_of imports) fs) ≡ length fs
      → {g : Text} → Affected imports seed g
      → contains g fs ≡ true
  complete fs h e {g} (mutated c) = h.seeded g c
  complete fs h e {g} (importing {f} i a) =
      let c = complete fs h e a in
      let any = imports_any_intro imports g f fs c i in
      let same = grow_same fs e in
      ap (contains g) (sym same) ∙ contains-grow imports g fs ∙ ground arith

  abbrev Closure : List Text → Type 0
  Closure fs = (f : Text) → (contains f fs ≡ true) ↔ Affected imports seed f

  close_lem :
      (fuel : ℕ) (fs : List Text)
      → missing imports fs < fuel
      → Sound fs
      → (a : List Text) × (close_over_dependents fuel (dependents_of imports) fs ≡ some a)
        × Closure a
  unfolding close_over_dependents
  close_lem zero fs m h = absurd (omega arith)
  close_lem (suc fuel) fs m h =
      elim (Bool-cases (length (grow (dependents_of imports) fs) == length fs)) [
        | inl same ↦
            let e = (nat_beq_iff _ _).0 same in
            let kept = grow_same fs e in
            (
              grow (dependents_of imports) fs,
              rw same,
              λ f. ((grow-Sound fs h).sound f, λ a. ap (contains f) kept ∙ complete fs h e a),
            )
        | inr grew ↦ rw grew (
            close_lem fuel (grow (dependents_of imports) fs) (ground (arith, grow-NewAreFiles fs))
              (grow-Sound fs h))
      ]

abbrev pub mutated_names : List AffectedFile → List Text
mutated_names [] = []
mutated_names (mutated_file_affected f ∷ es) = f ∷ mutated_names es
mutated_names (dependent_file_affected f ∷ es) = mutated_names es

abbrev pub dependent_names : List AffectedFile → List Text
dependent_names [] = []
dependent_names (mutated_file_affected f ∷ es) = dependent_names es
dependent_names (dependent_file_affected f ∷ es) = f ∷ dependent_names es

contains-mutated_names :
    (seed fs : List Text) (f : Text)
    → contains f (mutated_names (map (affected_event seed) fs)) ≡ (contains f fs && contains f seed)
unfolding affected_event
contains-mutated_names seed [] f = refl
contains-mutated_names seed (x ∷ fs) f =
    ground (arith, contains-mutated_names seed fs f, text_beq_iff x f)

contains-dependent_names :
    (seed fs : List Text) (f : Text)
    → contains f (dependent_names (map (affected_event seed) fs))
      ≡ (contains f fs && not (contains f seed))
unfolding affected_event
contains-dependent_names seed [] f = refl
contains-dependent_names seed (x ∷ fs) f =
    ground (arith, contains-dependent_names seed fs f, text_beq_iff x f)

-- The trace ends within its fuel. A file is reported as mutated exactly when it is named as such,
-- and as dependent exactly when it is not, and imports, directly or through others, one that is.
pub trace_affected_files_lem :
    (command : TraceAffectedFilesCommand)
    → let names = command.mutated_file_names in
      (events : List AffectedFile) × (trace_affected_files command ≡ some events)
      × ((f : Text)
          → ((contains f (mutated_names events) ≡ true) ↔ (contains f names ≡ true))
            × ((contains f (dependent_names events) ≡ true)
                ↔ ((contains f names ≡ false) × Affected command.imports_by_file names f)))
unfolding trace_affected_files
trace_affected_files_lem command =
    let names = command.mutated_file_names in
    let imports = command.imports_by_file in
    let seed = from_iterable names in
    let start : Sound imports names seed = record {
      seeded = λ f c. contains-from_iterable f names ∙ c;
      sound = λ f c. mutated (sym (contains-from_iterable f names) ∙ c);
    } in
    let (a, ends, closed) =
      close_lem imports names (suc (length imports)) seed
        (omega (arith, missing-le-length imports seed)) start in
    (
      map (affected_event seed) a,
      ap (map_option (map (affected_event seed))) ends,
      λ f. (
        (
          λ c. ground (arith, contains-mutated_names seed a f, contains-from_iterable f names),
          λ c.
              let m = (closed f).1 (mutated c) in
              ground (arith, contains-mutated_names seed a f, contains-from_iterable f names),
        ),
        (
          λ c. (
            ground (arith, contains-dependent_names seed a f, contains-from_iterable f names),
            (closed f).0 (ground (arith, contains-dependent_names seed a f)),
          ),
          λ h.
              let m = (closed f).1 h.1 in
              let n = h.0 in
              ground (arith, contains-dependent_names seed a f, contains-from_iterable f names),
        ),
      ),
    )
