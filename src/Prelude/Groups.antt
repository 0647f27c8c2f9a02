-- ===== src/Prelude/Groups.antt =====
-- Lists of strings without repetition, and the groups of a list by a key: `Arr.dedupe` and
-- `Arr.groupBy`. The groups stand here in the order of the first element of each; the code sorts
-- what it makes of them by their keys, so that no result depends on that order.
use mathlib.Core.Path.{◌≡◌, refl, ap₂, subst, sym}
use mathlib.Core.Logic.{inl, inr}
use mathlib.Core.Bool.{false}
use mathlib.Core.List.{List, [], ◌∷◌, ◌++◌, map, map-map, append_assoc, Perm, perm_append_comm}
use mathlib.Core.List.Perm
use native.Mathlib.Omega.{arith}
use stryker_js_effect.Prelude.Tests.{if◌then◌else◌, Bool-cases, ◌==◌, ==_refl}
use stryker_js_effect.Prelude.Lists.{flatten}
use stryker_js_effect.Prelude.Texts.{Text, text_eq, text_beq_iff, contains}

abbrev pub without : Text → List Text → List Text
without f [] = []
without f (g ∷ gs) = let rest = without f gs in if g == f then rest else g ∷ rest

abbrev pub distinct : List Text → List Text
distinct [] = []
distinct (x ∷ xs) = x ∷ without x (distinct xs)

abbrev pub Distinct : List Text → Type 0
Distinct [] = Unit
Distinct (f ∷ fs) = (contains f fs ≡ false) × Distinct fs

pub contains-without :
    (f g : Text) (fs : List Text) → contains f fs ≡ false → contains f (without g fs) ≡ false
contains-without f g [] h = refl
contains-without f g (x ∷ fs) h = ground (arith, contains-without f g fs)

pub contains-without_self : (f : Text) (fs : List Text) → contains f (without f fs) ≡ false
contains-without_self f [] = refl
contains-without_self f (x ∷ fs) = ground (arith, contains-without_self f fs)

pub contains-without_ne :
    (f g : Text) (fs : List Text) → (g == f) ≡ false → contains f (without g fs) ≡ contains f fs
contains-without_ne f g [] h = refl
contains-without_ne f g (x ∷ fs) h =
    ground (arith, contains-without_ne f g fs, text_beq_iff x g, text_beq_iff x f, text_beq_iff g f)

pub without_absent : (f : Text) (fs : List Text) → contains f fs ≡ false → without f fs ≡ fs
without_absent f [] h = refl
without_absent f (x ∷ fs) h = ground (arith, without_absent f fs)

pub Distinct-without : (g : Text) (fs : List Text) → Distinct fs → Distinct (without g fs)
Distinct-without g [] h = tt
Distinct-without g (x ∷ fs) h = elim (Bool-cases (x == g)) [
  | inl same ↦ rw same (Distinct-without g fs h.1)
  | inr other ↦ rw other (contains-without x g fs h.0, Distinct-without g fs h.1)
]

pub distinct-Distinct : (xs : List Text) → Distinct (distinct xs)
distinct-Distinct [] = tt
distinct-Distinct (x ∷ xs) =
    (contains-without_self x (distinct xs), Distinct-without x (distinct xs) (distinct-Distinct xs))

pub contains-distinct : (f : Text) (xs : List Text) → contains f (distinct xs) ≡ contains f xs
contains-distinct f [] = refl
contains-distinct f (x ∷ xs) =
    ground (arith, contains-distinct f xs, contains-without_ne f x (distinct xs), text_beq_iff x f)

pub perm_swap_front {ℓ} : {A : Type ℓ} (a b c : List A) → Perm (a ++ (b ++ c)) (b ++ (a ++ c))
perm_swap_front a b c =
    subst (λ l. Perm l (b ++ (a ++ c))) (append_assoc a b c)
      (subst (Perm ((a ++ b) ++ c)) (append_assoc b a c)
        (Perm.append_right c (perm_append_comm a b)))

-- One key's part, taken out of the parts of all keys.
pub extract-perm {ℓ} :
    {A : Type ℓ} (g : Text → List A) (f : Text) (fs : List Text)
    → Distinct fs
    → Perm
        (flatten (map g fs))
        ((if contains f fs then g f else []) ++ flatten (map g (without f fs)))
extract-perm g f [] h = Perm.rfl
extract-perm g f (x ∷ fs) h = elim (Bool-cases (x == f)) [
  | inl same ↦
      let e = (text_beq_iff x f).0 same in
      rw (same, without_absent f fs (subst (λ y. contains y fs ≡ false) e h.0))
        (subst (λ y. Perm (g x ++ flatten (map g fs)) (g y ++ flatten (map g fs))) e Perm.rfl)
  | inr other ↦
      rw other
        (Perm.trans (Perm.append_left (g x) (extract-perm g f fs h.1)) (perm_swap_front (g x) _ _))
]

module _ {ℓ} {A : Type ℓ} (key : A → Text) where
  -- The elements with the key, in their order.
  abbrev pub members : Text → List A → List A
  members k [] = []
  members k (x ∷ xs) = let rest = members k xs in if key x == k then x ∷ rest else rest

  abbrev pub group_by : List A → List (Text × List A)
  group_by xs = map (λ k. (k, members k xs)) (distinct (map key xs))

  members-without :
      (x : A) (xs : List A) (ks : List Text)
      → map (λ k. members k (x ∷ xs)) (without (key x) ks)
        ≡ map (λ k. members k xs) (without (key x) ks)
  members-without x xs [] = refl
  members-without x xs (k ∷ ks) = elim (Bool-cases (k == key x)) [
    | inl same ↦ rw same (members-without x xs ks)
    | inr other ↦ rw other (
        ap₂ ◌∷◌ (ground (arith, text_beq_iff k (key x), text_beq_iff (key x) k))
          (members-without x xs ks))
  ]

  members_absent : (k : Text) (xs : List A) → contains k (map key xs) ≡ false → members k xs ≡ []
  members_absent k [] h = refl
  members_absent k (x ∷ xs) h = ground (arith, members_absent k xs)

  contained-members :
      (k : Text) (xs : List A)
      → (if contains k (distinct (map key xs)) then members k xs else []) ≡ members k xs
  contained-members k xs = elim (Bool-cases (contains k (map key xs))) [
    | inl c ↦ rw (contains-distinct k (map key xs), c) refl
    | inr n ↦ rw (contains-distinct k (map key xs), n) (sym (members_absent k xs n))
  ]

  members-perm : (xs : List A) → Perm (flatten (map (λ k. members k xs) (distinct (map key xs)))) xs
  members-perm [] = Perm.rfl
  members-perm (x ∷ xs) =
      let ks = distinct (map key xs) in
      let g = λ (k : Text). members k xs in
      let rest : Perm (g (key x) ++ flatten (map g (without (key x) ks))) xs =
        Perm.trans
          (subst (λ l. Perm (l ++ flatten (map g (without (key x) ks))) (flatten (map g ks)))
            (contained-members (key x) xs)
            (Perm.symm (extract-perm g (key x) ks (distinct-Distinct (map key xs)))))
          (members-perm xs) in
      rw (==_refl (key x), members-without x xs ks) (Perm.cons x rest)

  -- The groups hold the list.
  pub group_by-perm : (xs : List A) → Perm (flatten (map (λ g. g.1) (group_by xs))) xs
  group_by-perm xs =
      subst (λ l. Perm (flatten l) xs)
        (sym (map-map (λ g. g.1) (λ k. (k, members k xs)) (distinct (map key xs))))
        (members-perm xs)
