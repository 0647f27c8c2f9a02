-- ===== src/Prelude/Counts.antt =====
-- How many elements of a list satisfy a test; what sorting and taking do to that number.
use Prim.Native.Nat.{ℕ, zero, suc, ◌+◌, ◌≤◌}
use mathlib.Core.Path.{◌≡◌, refl, ap, sym, ◌∙◌}
use mathlib.Core.Logic.{inl, inr, ∥∥₁_elim}
use mathlib.Core.Bool.{Bool, false, not, ◌||◌}
use mathlib.Core.List.{List, [], ◌∷◌, ◌++◌, map, Perm, Permᴰ}
use native.Mathlib.Nat.{ℕ_set}
use native.Mathlib.Omega.{arith}
use stryker_js_effect.Prelude.Tests.{if◌then◌else◌, Bool-cases, ◌==◌}
use stryker_js_effect.Prelude.Lists.{length, take, All, filter, flatten}
use stryker_js_effect.Prelude.Texts.{Text, text_eq, contains}
use stryker_js_effect.Prelude.Sorting.{insert_by, sort_by}
use stryker_js_effect.Prelude.Groups.{group_by, group_by-perm}

module _ {ℓ} {A : Type ℓ} where
  abbrev pub count_of : (A → Bool) → List A → ℕ
  count_of p [] = 0
  count_of p (x ∷ xs) = (if p x then 1 else 0) + count_of p xs

  pub count_of-append :
      (p : A → Bool) (xs ys : List A) → count_of p (xs ++ ys) ≡ count_of p xs + count_of p ys
  count_of-append p [] ys = omega arith
  count_of-append p (x ∷ xs) ys = omega (arith, count_of-append p xs ys)

  count_of-permᴰ : (p : A → Bool) {xs ys : List A} → Permᴰ xs ys → count_of p xs ≡ count_of p ys
  count_of-permᴰ p Permᴰ.nil = refl
  count_of-permᴰ p (Permᴰ.cons {a = a} {b = b} e h) =
      omega (arith, count_of-permᴰ p h, ap (λ x. count_of p (x ∷ [])) e)
  count_of-permᴰ p (Permᴰ.swap {a = a} {b = b} e f) =
      omega (arith, ap (λ x. count_of p (x ∷ [])) e, ap (λ x. count_of p (x ∷ [])) f)
  count_of-permᴰ p (Permᴰ.trans h k) = count_of-permᴰ p h ∙ count_of-permᴰ p k

  pub count_of-perm : (p : A → Bool) {xs ys : List A} → Perm xs ys → count_of p xs ≡ count_of p ys
  count_of-perm p h = ∥∥₁_elim h (ℕ_set _ _) (λ d. count_of-permᴰ p d)

  pub count_of-le-length : (p : A → Bool) (xs : List A) → count_of p xs ≤ length xs
  count_of-le-length p [] = omega arith
  count_of-le-length p (x ∷ xs) = ground (arith, count_of-le-length p xs)

  pub count_of-take : (p : A → Bool) (n : ℕ) (xs : List A) → count_of p (take n xs) ≤ count_of p xs
  count_of-take p zero xs = omega arith
  count_of-take p (suc n) [] = omega arith
  count_of-take p (suc n) (x ∷ xs) = omega (arith, count_of-take p n xs)

  pub length-take-le : (n : ℕ) (xs : List A) → length (take n xs) ≤ n
  length-take-le zero xs = omega arith
  length-take-le (suc n) [] = omega arith
  length-take-le (suc n) (x ∷ xs) = omega (arith, length-take-le n xs)

  pub count_of_none : (p : A → Bool) (xs : List A) → All (λ x. p x ≡ false) xs → count_of p xs ≡ 0
  count_of_none p [] h = refl
  count_of_none p (x ∷ xs) h = ground (arith, count_of_none p xs)

  pub All-take {κ} : (P : A → Type κ) (n : ℕ) (xs : List A) → All P xs → All P (take n xs)
  All-take P zero xs h = tt
  All-take P (suc n) [] h = tt
  All-take P (suc n) (x ∷ xs) h = (h.0, All-take P n xs h.1)

  pub All-insert_by {κ} :
      (P : A → Type κ) (before : A → A → Bool) (a : A) (xs : List A)
      → P a
      → All P xs
      → All P (insert_by before a xs)
  All-insert_by P before a [] p h = (p, tt)
  All-insert_by P before a (x ∷ xs) p h = elim (Bool-cases (before x a)) [
    | inl b ↦ rw b (h.0, All-insert_by P before a xs p h.1)
    | inr n ↦ rw n (p, h)
  ]

  pub All-sort_by {κ} :
      (P : A → Type κ) (before : A → A → Bool) (xs : List A) → All P xs → All P (sort_by before xs)
  unfolding sort_by
  All-sort_by P before [] h = tt
  All-sort_by P before (x ∷ xs) h =
      All-insert_by P before x (sort_by before xs) h.0 (All-sort_by P before xs h.1)

pub contains-insert_by :
    (before : Text → Text → Bool) (f x : Text) (xs : List Text)
    → contains f (insert_by before x xs) ≡ (x == f || contains f xs)
contains-insert_by before f x [] = refl
contains-insert_by before f x (y ∷ xs) = elim (Bool-cases (before y x)) [
  | inl b ↦ rw b (ground (arith, contains-insert_by before f x xs))
  | inr n ↦ rw n refl
]

pub contains-sort_by :
    (before : Text → Text → Bool) (f : Text) (xs : List Text)
    → contains f (sort_by before xs) ≡ contains f xs
unfolding sort_by
contains-sort_by before f [] = refl
contains-sort_by before f (x ∷ xs) =
    contains-insert_by before f x (sort_by before xs)
    ∙ ap (λ b. x == f || b) (contains-sort_by before f xs)

-- The sum of a measure over a list.
abbrev pub sum_of {ℓ} : {A : Type ℓ} → (A → ℕ) → List A → ℕ
sum_of f [] = 0
sum_of f (x ∷ xs) = f x + sum_of f xs

module _ {ℓ} {A : Type ℓ} where
  sum_of-permᴰ : (f : A → ℕ) {xs ys : List A} → Permᴰ xs ys → sum_of f xs ≡ sum_of f ys
  sum_of-permᴰ f Permᴰ.nil = refl
  sum_of-permᴰ f (Permᴰ.cons e h) = omega (arith, sum_of-permᴰ f h, ap f e)
  sum_of-permᴰ f (Permᴰ.swap e d) = omega (arith, ap f e, ap f d)
  sum_of-permᴰ f (Permᴰ.trans h k) = sum_of-permᴰ f h ∙ sum_of-permᴰ f k

  pub sum_of-perm : (f : A → ℕ) {xs ys : List A} → Perm xs ys → sum_of f xs ≡ sum_of f ys
  sum_of-perm f h = ∥∥₁_elim h (ℕ_set _ _) (λ d. sum_of-permᴰ f d)

  pub sum_of-filter :
      (f : A → ℕ) (p : A → Bool) (xs : List A)
      → sum_of f (filter p xs) + sum_of f (filter (λ x. not (p x)) xs) ≡ sum_of f xs
  sum_of-filter f p [] = refl
  sum_of-filter f p (x ∷ xs) = elim (Bool-cases (p x)) [
    | inl y ↦ rw y (omega (arith, sum_of-filter f p xs))
    | inr n ↦ rw n (omega (arith, sum_of-filter f p xs))
  ]

  pub sum_of-eq : (f g : A → ℕ) (xs : List A) → All (λ x. f x ≡ g x) xs → sum_of f xs ≡ sum_of g xs
  sum_of-eq f g [] h = refl
  sum_of-eq f g (x ∷ xs) h = omega (arith, h.0, sum_of-eq f g xs h.1)

  pub count_of-flatten :
      (p : A → Bool) (xss : List (List A)) → count_of p (flatten xss) ≡ sum_of (count_of p) xss
  count_of-flatten p [] = refl
  count_of-flatten p (xs ∷ xss) =
      omega (arith, count_of-append p xs (flatten xss), count_of-flatten p xss)

pub sum_of-map {ℓ κ} :
    {A : Type ℓ} {B : Type κ} (f : B → ℕ) (g : A → B) (xs : List A)
    → sum_of f (map g xs) ≡ sum_of (λ x. f (g x)) xs
sum_of-map f g [] = refl
sum_of-map f g (x ∷ xs) = ap (λ n. f (g x) + n) (sum_of-map f g xs)

pub sum_of-group_by {ℓ} :
    {A : Type ℓ} (key : A → Text) (p : A → Bool) (xs : List A)
    → sum_of (λ g. count_of p g.1) (group_by key xs) ≡ count_of p xs
sum_of-group_by key p xs =
    sym (sum_of-map (count_of p) (λ g. g.1) (group_by key xs))
    ∙ sym (count_of-flatten p (map (λ g. g.1) (group_by key xs)))
    ∙ count_of-perm p (group_by-perm key xs)
