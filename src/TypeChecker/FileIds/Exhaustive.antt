-- ===== src/TypeChecker/FileIds/Exhaustive.antt =====
-- The ids of the files together, against the ids of the mutants.
use mathlib.Core.List.{Perm}
use mathlib.Core.List.Perm
use stryker_js_effect.Prelude.{
  without, Distinct, contains-without_self, contains-without_ne, Distinct-without, extract-perm,
  Text, text_eq, text_beq_iff, contains, ◌==◌, not, List, [], ◌∷◌, map, flatten, is_empty,
  if◌then◌else◌, Bool-cases, ◌≡◌, refl, ap₂, ==_refl, inl, inr, arith, map-map,
}
use stryker_js_effect.TypeChecker.FileIds.{FileMutant, FileIds, file_ids_of}
use stryker_js_effect.TypeChecker.FileIds.Order.{ids_in, first_seen, file_ids_of-eq}

pub first_seen-Distinct : (ms : List FileMutant) → Distinct (first_seen ms)
first_seen-Distinct [] = tt
first_seen-Distinct (m ∷ ms) = (
  contains-without_self m.file_name (first_seen ms),
  Distinct-without m.file_name _ (first_seen-Distinct ms),
)

contains-first_seen :
    (f : Text) (ms : List FileMutant) → contains f (first_seen ms) ≡ not (is_empty (ids_in f ms))
contains-first_seen f [] = refl
contains-first_seen f (m ∷ ms) =
    ground (arith, contains-first_seen f ms, contains-without_ne f m.file_name (first_seen ms))

ids_in-without :
    (m : FileMutant) (ms : List FileMutant) (fs : List Text)
    → map (λ f. ids_in f (m ∷ ms)) (without m.file_name fs)
      ≡ map (λ f. ids_in f ms) (without m.file_name fs)
ids_in-without m ms [] = refl
ids_in-without m ms (x ∷ fs) = elim (Bool-cases (x == m.file_name)) [
  | inl same ↦ rw same (ids_in-without m ms fs)
  | inr other ↦ rw other (
      ap₂ ◌∷◌ (ground (arith, text_beq_iff x m.file_name, text_beq_iff m.file_name x))
        (ids_in-without m ms fs))
]

contained-ids_in :
    (f : Text) (ms : List FileMutant)
    → (if contains f (first_seen ms) then ids_in f ms else []) ≡ ids_in f ms
contained-ids_in f ms = ground (arith, contains-first_seen f ms)

groups-perm :
    (ms : List FileMutant)
    → Perm (flatten (map (λ f. ids_in f ms) (first_seen ms))) (map (λ m. m.id) ms)
groups-perm [] = Perm.rfl
groups-perm (m ∷ ms) =
    let fs = first_seen ms in
    let g = λ (f : Text). ids_in f ms in
    let split = extract-perm g m.file_name fs (first_seen-Distinct ms) in
    let whole = rw (contained-ids_in m.file_name ms) at split in
    rw (ids_in-without m ms fs, ==_refl m.file_name)
      (Perm.cons m.id (Perm.trans (Perm.symm whole) (groups-perm ms)))

-- The ids of the entries, taken together, are the ids of the mutants: each as often as it came.
pub file_ids_of-perm :
    (mutants : List FileMutant)
    → Perm (flatten (map (λ file. file.ids) (file_ids_of mutants))) (map (λ m. m.id) mutants)
file_ids_of-perm mutants =
    rw
      (
        file_ids_of-eq mutants,
        map-map (λ (file : FileIds). file.ids)
            (λ f. record { file_name = f; ids = ids_in f mutants }) (first_seen mutants),
      )
      (groups-perm mutants)
