-- ===== src/Prelude/Sorting.antt =====
-- `Array.prototype.sort`: stable, by a test that says when the comparator is negative.
use mathlib.Core.Path.{◌≡◌}
use mathlib.Core.Logic.{inl, inr}
use mathlib.Core.Bool.{Bool, true, false}
use mathlib.Core.List.{List, [], ◌∷◌, Perm}
use mathlib.Core.List.Perm
use stryker_js_effect.Prelude.Lists.{All}
use stryker_js_effect.Prelude.Tests.{if◌then◌else◌, Bool-cases}

module _ {ℓ} {A : Type ℓ} (before : A → A → Bool) where
  abbrev pub insert_by : A → List A → List A
  insert_by a [] = a ∷ []
  insert_by a (x ∷ xs) = let later = insert_by a xs in if before x a then x ∷ later else a ∷ x ∷ xs

  unfoldable pub sort_by : List A → List A
  sort_by [] = []
  sort_by (a ∷ xs) = insert_by a (sort_by xs)

  insert_by-perm : (a : A) (xs : List A) → Perm (insert_by a xs) (a ∷ xs)
  insert_by-perm a [] = Perm.refl (a ∷ [])
  insert_by-perm a (x ∷ xs) = elim (Bool-cases (before x a)) [
    | inl b ↦ rw b (Perm.trans (Perm.cons x (insert_by-perm a xs)) (Perm.swap a x xs))
    | inr n ↦ rw n (Perm.refl (a ∷ x ∷ xs))
  ]

  pub sort_by-perm : (xs : List A) → Perm (sort_by xs) xs
  unfolding sort_by
  sort_by-perm [] = Perm.refl []
  sort_by-perm (a ∷ xs) = Perm.trans (insert_by-perm a (sort_by xs)) (Perm.cons a (sort_by-perm xs))

  -- No element comes before the one in front of it.
  abbrev pub FollowsAll : A → List A → Type 0
  FollowsAll a [] = Unit
  FollowsAll a (x ∷ xs) = before x a ≡ false

  abbrev pub Ordered : List A → Type 0
  Ordered [] = Unit
  Ordered (x ∷ xs) = FollowsAll x xs × Ordered xs

  module _ (asym : (x y : A) → before x y ≡ true → before y x ≡ false) where
    insert_by-follows :
        (x a : A) (xs : List A)
        → before x a ≡ true
        → FollowsAll x xs
        → FollowsAll x (insert_by a xs)
    insert_by-follows x a [] b f = asym x a b
    insert_by-follows x a (y ∷ xs) b f = elim (Bool-cases (before y a)) [
      | inl c ↦ rw c f
      | inr n ↦ rw n (asym x a b)
    ]

    insert_by-Ordered : (a : A) (xs : List A) → Ordered xs → Ordered (insert_by a xs)
    insert_by-Ordered a [] o = (tt, tt)
    insert_by-Ordered a (x ∷ xs) (f, o) = elim (Bool-cases (before x a)) [
      | inl b ↦ rw b (insert_by-follows x a xs b f, insert_by-Ordered a xs o)
      | inr n ↦ rw n (n, (f, o))
    ]

    pub sort_by-Ordered : (xs : List A) → Ordered (sort_by xs)
    unfolding sort_by
    sort_by-Ordered [] = tt
    sort_by-Ordered (a ∷ xs) = insert_by-Ordered a (sort_by xs) (sort_by-Ordered xs)

-- The relation holds between each element and the next one.
abbrev pub Consecutive {ℓ} : {A : Type ℓ} → (A → A → Type 0) → List A → Type 0
Consecutive R [] = Unit
Consecutive R (x ∷ []) = Unit
Consecutive R (x ∷ y ∷ xs) = R x y × Consecutive R (y ∷ xs)

-- A sorted list satisfies what follows from not coming before.
pub Ordered-Consecutive {ℓ} :
    {A : Type ℓ} (before : A → A → Bool) (R : A → A → Type 0) (xs : List A)
    → ((x y : A) → before y x ≡ false → R x y)
    → Ordered before xs
    → Consecutive R xs
Ordered-Consecutive before R [] f h = tt
Ordered-Consecutive before R (x ∷ []) f h = tt
Ordered-Consecutive before R (x ∷ y ∷ xs) f h =
    (f x y h.0, Ordered-Consecutive before R (y ∷ xs) f h.1)

insert_by-All {ℓ κ} :
    {A : Type ℓ} (before : A → A → Bool) (P : A → Type κ) (a : A) (xs : List A)
    → P a
    → All P xs
    → All P (insert_by before a xs)
insert_by-All before P a [] p h = (p, tt)
insert_by-All before P a (x ∷ xs) p h = elim (Bool-cases (before x a)) [
  | inl y ↦ rw y (h.0, insert_by-All before P a xs p h.1)
  | inr n ↦ rw n (p, h)
]

-- What holds of every element holds of every element of the sorted list.
pub sort_by-All {ℓ κ} :
    {A : Type ℓ} (before : A → A → Bool) (P : A → Type κ) (xs : List A)
    → All P xs
    → All P (sort_by before xs)
unfolding sort_by
sort_by-All before P [] h = tt
sort_by-All before P (x ∷ xs) h =
    insert_by-All before P x (sort_by before xs) h.0 (sort_by-All before P xs h.1)
