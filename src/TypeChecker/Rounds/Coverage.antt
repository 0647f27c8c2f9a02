-- ===== src/TypeChecker/Rounds/Coverage.antt =====
-- The candidates that the rounds hold.
use mathlib.Core.List.{Perm, perm_middle}
use mathlib.Core.List.Perm
use stryker_js_effect.Prelude.{
  perm_swap_front, ℕ, zero, suc, ◌-◌, ◌≤◌, max, Text, length, get_elem?, get_somes, map_option,
  filter, Bool, not, Option, none, some, Option-cases, Bool-cases, List, [], ◌∷◌, ◌++◌, map, foldl,
  flatten, flatten-append, All, All-imp, ◌≡◌, refl, inl, inr, ap, sym, ◌∙◌, subst, arith,
  append_assoc, map-append, map-map,
}
use stryker_js_effect.TypeChecker.FileIds.{FileIds, file_ids_of}
use stryker_js_effect.TypeChecker.FileIds.Exhaustive.{file_ids_of-perm}
use stryker_js_effect.TypeChecker.Rounds.{
  RoundCandidate, CheckRound, solo_round, round_of_layer, layer_at, layer_count_of, range_from,
  range, layer_rounds, ineligible_solos, file_mutant_of, plan_rounds,
}
use stryker_js_effect.TypeChecker.Rounds.Layers.{ids_of, ids_of-round_of_layer, column}

abbrev round_at : List FileIds → ℕ → Option CheckRound
round_at files layer = map_option (λ l. round_of_layer l.0 l.1) (layer_at files layer)

abbrev round_ids : Option CheckRound → List Text
round_ids none = []
round_ids (some round) = ids_of round

round_ids-round_at :
    (files : List FileIds) (layer : ℕ) → round_ids (round_at files layer) ≡ column files layer
unfolding layer_at
round_ids-round_at files layer = go (column files layer)
  where
    go :
        (ids : List Text)
        → round_ids (
            map_option {B = CheckRound}
              (λ l. round_of_layer l.0 l.1)
              (elim ids as (λ _. Option (Text × List Text)) [
                | [] ↦ none
                | id ∷ others ↦ some (id, others)
              ]))
          ≡ ids
    go [] = refl
    go (id ∷ others) = ids_of-round_of_layer id others

flatten-rounds :
    (files : List FileIds) (layers : List ℕ)
    → flatten (map ids_of (get_somes (map (round_at files) layers)))
      ≡ flatten (map (column files) layers)
flatten-rounds files [] = refl
flatten-rounds files (l ∷ layers) = elim (Option-cases (round_at files l)) [
  | inl e ↦ rw (e, sym (round_ids-round_at files l) ∙ ap round_ids e) (flatten-rounds files layers)
  | inr (round, e) ↦
      rw (e, sym (round_ids-round_at files l) ∙ ap round_ids e)
        (ap (◌++◌ (ids_of round)) (flatten-rounds files layers))
]

abbrev to_list : Option Text → List Text
to_list none = []
to_list (some x) = x ∷ []

column-cons :
    (file : FileIds) (files : List FileIds) (l : ℕ)
    → column (file ∷ files) l ≡ to_list (get_elem? file.ids l) ++ column files l
column-cons file files l = elim (Option-cases (get_elem? file.ids l)) [
  | inl e ↦ rw e
  | inr (x, e) ↦ rw e
]

-- The layers of one file's list, from place 0 on.
places : List Text → List ℕ → List Text
places xs layers = flatten (map (λ l. to_list (get_elem? xs l)) layers)

places-shift :
    (x : Text) (xs : List Text) (s k : ℕ)
    → places (x ∷ xs) (range_from (suc s) k) ≡ places xs (range_from s k)
unfolding places range_from
places-shift x xs s zero = refl
places-shift x xs s (suc k) = ap (◌++◌ (to_list (get_elem? xs s))) (places-shift x xs (suc s) k)

places-nil : (layers : List ℕ) → places [] layers ≡ []
unfolding places
places-nil [] = refl
places-nil (l ∷ layers) = places-nil layers

places-range : (xs : List Text) (k : ℕ) → length xs ≤ k → places xs (range_from 0 k) ≡ xs
unfolding places range_from
places-range [] k h = places-nil (range_from 0 k)
places-range (x ∷ xs) zero h = absurd (omega arith)
places-range (x ∷ xs) (suc k) h =
    ap (◌∷◌ x) (places-shift x xs 0 k ∙ places-range xs k (omega arith))

columns-cons-perm :
    (file : FileIds) (files : List FileIds) (layers : List ℕ)
    → Perm
        (flatten (map (column (file ∷ files)) layers))
        (places file.ids layers ++ flatten (map (column files) layers))
unfolding places
columns-cons-perm file files [] = Perm.rfl
columns-cons-perm file files (l ∷ layers) =
    let h = to_list (get_elem? file.ids l) in
    let c = column files l in
    let p = places file.ids layers in
    rw (column-cons file files l) (
      subst (λ x. Perm ((h ++ c) ++ flatten (map (column (file ∷ files)) layers)) x)
        (sym (append_assoc h p (c ++ flatten (map (column files) layers))))
        (subst (λ x. Perm x (h ++ (p ++ (c ++ flatten (map (column files) layers)))))
          (sym (append_assoc h c (flatten (map (column (file ∷ files)) layers))))
          (Perm.append_left h (
            Perm.trans (Perm.append_left c (columns-cons-perm file files layers))
              (perm_swap_front c p _)))))

columns-nil : (layers : List ℕ) → flatten (map (column []) layers) ≡ []
columns-nil [] = refl
columns-nil (l ∷ layers) = columns-nil layers

columns-perm :
    (files : List FileIds) (k : ℕ)
    → All (λ file. length file.ids ≤ k) files
    → Perm (flatten (map (column files) (range_from 0 k))) (flatten (map (λ file. file.ids) files))
columns-perm [] k h = rw (columns-nil (range_from 0 k)) Perm.rfl
columns-perm (file ∷ files) k h =
    Perm.trans (columns-cons-perm file files (range_from 0 k))
      (rw (places-range file.ids k h.0) (Perm.append_left file.ids (columns-perm files k h.1)))

foldl-max :
    (files : List FileIds) (c : ℕ)
    → let m = foldl (λ count file. max count (length file.ids)) c files in
      (c ≤ m) × All (λ file. length file.ids ≤ m) files
foldl-max [] c = (omega arith, tt)
foldl-max (file ∷ files) c =
    let h = foldl-max files (max c (length file.ids)) in
    (omega (arith, h.0), (omega (arith, h.0), h.1))

-- The shared rounds hold the ids of the files, each as often as the files do.
layer_rounds-perm :
    (files : List FileIds)
    → Perm (flatten (map ids_of (layer_rounds files))) (flatten (map (λ file. file.ids) files))
unfolding layer_rounds range layer_count_of
layer_rounds-perm files =
    let count = layer_count_of files in
    let fits : All (λ file. length file.ids ≤ suc (count - 1 - 0)) files =
      All-imp _ _ files (λ file h. omega arith) (foldl-max files 0).1 in
    rw (flatten-rounds files (range_from 0 (suc (count - 1 - 0))))
      (columns-perm files (suc (count - 1 - 0)) fits)

abbrev is_eligible : RoundCandidate → Bool
is_eligible c = c.eligible

abbrev not_eligible : RoundCandidate → Bool
not_eligible c = not c.eligible

solos-ids :
    (cs : List RoundCandidate)
    → flatten (map ids_of (map (λ c. solo_round c.id) cs)) ≡ map (λ c. c.id) cs
solos-ids [] = refl
solos-ids (c ∷ cs) = ap (◌∷◌ c.id) (solos-ids cs)

partition-perm :
    (cs : List RoundCandidate)
    → Perm
        (map (λ c. c.id) (filter not_eligible cs) ++ map (λ c. c.id) (filter is_eligible cs))
        (map (λ c. c.id) cs)
partition-perm [] = Perm.rfl
partition-perm (c ∷ cs) = elim (Bool-cases c.eligible) [
  | inl e ↦ simp e (Perm.trans (perm_middle _ _) (Perm.cons c.id (partition-perm cs)))
  | inr e ↦ simp e (Perm.cons c.id (partition-perm cs))
]

-- The ids of the rounds, taken together, are the ids of the candidates: each as often as it came.
pub plan_rounds-perm :
    (candidates : List RoundCandidate)
    → Perm (flatten (map ids_of (plan_rounds candidates))) (map (λ c. c.id) candidates)
unfolding plan_rounds ineligible_solos
plan_rounds-perm candidates =
    let eligible = filter is_eligible candidates in
    let files = file_ids_of (map file_mutant_of eligible) in
    let solos = ineligible_solos candidates in
    let shared : Perm (flatten (map ids_of (layer_rounds files))) (map (λ c. c.id) eligible) =
      Perm.trans (layer_rounds-perm files) (
        subst (Perm (flatten (map (λ file. file.ids) files)))
          (map-map (λ m. m.id) file_mutant_of eligible)
          (file_ids_of-perm (map file_mutant_of eligible))) in
    rw
      (
        map-append ids_of solos (layer_rounds files),
        flatten-append (map ids_of solos) (map ids_of (layer_rounds files)),
        solos-ids (filter not_eligible candidates),
      )
      (Perm.trans (Perm.append_left _ shared) (partition-perm candidates))
