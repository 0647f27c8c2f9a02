-- ===== src/Prelude/Results.antt =====
-- Effect's `Result`: a success or the failure that stopped the computation.
use mathlib.Core.Path.{◌≡◌, refl}
use mathlib.Core.Logic.{◌⊎◌, inl, inr}
use mathlib.Core.List.{List, [], ◌∷◌}

pub data Result {ℓ κ} (E : Type ℓ) (A : Type κ) : Type (ℓ ⊔ κ) where
  fail : E → Result E A
  succeed : A → Result E A

module _ {ℓ κ} {E : Type ℓ} {A : Type κ} where
  -- `Result.map` and `Result.flatMap`.
  abbrev pub map_result {μ} : {B : Type μ} → (A → B) → Result E A → Result E B
  map_result f (fail e) = fail e
  map_result f (succeed a) = succeed (f a)

  abbrev pub flat_map_result {μ} : {B : Type μ} → Result E A → (A → Result E B) → Result E B
  flat_map_result (fail e) f = fail e
  flat_map_result (succeed a) f = f a

  -- `Result.all` over an array: all the successes, or the first failure.
  abbrev pub all_results : List (Result E A) → Result E (List A)
  all_results [] = succeed []
  all_results (fail e ∷ rs) = fail e
  all_results (succeed a ∷ rs) = elim (all_results rs) [
    | fail e ↦ fail e
    | succeed as' ↦ succeed (a ∷ as')
  ]

pub Result-cases {ℓ κ} :
    {E : Type ℓ} {A : Type κ} (r : Result E A)
    → ((e : E) × (r ≡ fail e)) ⊎ ((a : A) × (r ≡ succeed a))
Result-cases (fail e) = inl (e, refl)
Result-cases (succeed a) = inr (a, refl)
