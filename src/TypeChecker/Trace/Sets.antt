-- ===== src/TypeChecker/Trace/Sets.antt =====
-- What the sets of the trace contain.
use stryker_js_effect.Prelude.{
  Text, text_eq, text_beq_iff, ◌==◌, Dict, lookup, lookup-insert, get_or_else, contains,
  contains-append, Bool, false, ◌&&◌, ◌||◌, List, [], ◌∷◌, map, foldl, flatten, ◌≡◌, refl, arith,
}
use stryker_js_effect.TypeChecker.Trace.{
  set_add, set_union, from_iterable, add_dependent, add_file, dependents_of, dependents_of_file,
  grow,
}

pub contains-set_add :
    (y x : Text) (xs : List Text) → contains y (set_add xs x) ≡ (contains y xs || x == y)
unfolding set_add
contains-set_add y x xs = ground (arith, contains-append y xs (x ∷ []), text_beq_iff x y)

pub contains-foldl :
    (y : Text) (xs ys : List Text)
    → contains y (foldl set_add xs ys) ≡ (contains y xs || contains y ys)
contains-foldl y xs [] = ground arith
contains-foldl y xs (x ∷ ys) =
    ground (arith, contains-foldl y (set_add xs x) ys, contains-set_add y x xs)

-- `g` has an entry that imports `f`.
abbrev pub imported_by : Dict (List Text) → Text → Text → Bool
imported_by [] g f = false
imported_by ((k, imports) ∷ m) g f = k == g && contains f imports || imported_by m g f

contains-add_dependent :
    (k i g f : Text) (acc : Dict (List Text))
    → contains g (dependents_of_file (add_dependent k acc i) f)
      ≡ (contains g (dependents_of_file acc f) || k == g && i == f)
unfolding add_dependent dependents_of_file
contains-add_dependent k i g f acc = ground (
  arith,
  lookup-insert i f (set_add (get_or_else (lookup i acc) []) k) acc,
  text_beq_iff i f,
  contains-set_add g k (get_or_else (lookup i acc) []),
)

contains-add_imports :
    (k g f : Text) (imports : List Text) (acc : Dict (List Text))
    → contains g (dependents_of_file (foldl (add_dependent k) acc imports) f)
      ≡ (contains g (dependents_of_file acc f) || k == g && contains f imports)
contains-add_imports k g f [] acc = ground arith
contains-add_imports k g f (i ∷ imports) acc = ground (
  arith,
  contains-add_imports k g f imports (add_dependent k acc i),
  contains-add_dependent k i g f acc,
)

contains-add_files :
    (g f : Text) (entries acc : Dict (List Text))
    → contains g (dependents_of_file (foldl add_file acc entries) f)
      ≡ (contains g (dependents_of_file acc f) || imported_by entries g f)
unfolding add_file
contains-add_files g f [] acc = ground arith
contains-add_files g f ((k, imports) ∷ entries) acc = ground (
  arith,
  contains-add_files g f entries (foldl (add_dependent k) acc imports),
  contains-add_imports k g f imports acc,
)

-- The dependents of a file are the files with an entry that imports it.
pub contains-dependents_of :
    (imports : Dict (List Text)) (g f : Text)
    → contains g (dependents_of_file (dependents_of imports) f) ≡ imported_by imports g f
unfolding dependents_of dependents_of_file lookup
contains-dependents_of imports g f = contains-add_files g f imports []

-- Some file of the list is imported by `g`.
abbrev pub imports_any : Dict (List Text) → Text → List Text → Bool
imports_any imports g [] = false
imports_any imports g (f ∷ fs) = imported_by imports g f || imports_any imports g fs

contains-flatten :
    (imports : Dict (List Text)) (g : Text) (fs : List Text)
    → contains g (flatten (map (dependents_of_file (dependents_of imports)) fs))
      ≡ imports_any imports g fs
contains-flatten imports g [] = refl
contains-flatten imports g (f ∷ fs) = ground (
  arith,
  contains-append g (dependents_of_file (dependents_of imports) f)
      (flatten (map (dependents_of_file (dependents_of imports)) fs)),
  contains-dependents_of imports g f,
  contains-flatten imports g fs,
)

pub contains-from_iterable :
    (y : Text) (ys : List Text) → contains y (from_iterable ys) ≡ contains y ys
unfolding from_iterable
contains-from_iterable y ys = contains-foldl y [] ys

pub contains-grow :
    (imports : Dict (List Text)) (g : Text) (fs : List Text)
    → contains g (grow (dependents_of imports) fs) ≡ (contains g fs || imports_any imports g fs)
unfolding grow set_union
contains-grow imports g fs =
    let new = flatten (map (dependents_of_file (dependents_of imports)) fs) in
    ground (
      arith,
      contains-foldl g fs (from_iterable new),
      contains-from_iterable g new,
      contains-flatten imports g fs,
    )
