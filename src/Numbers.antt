-- ===== src/Numbers.antt =====
-- The numbers of the language where a component computes with fractions, as an interface:
-- IEEE 754 double precision floats are not defined here. `less` is `<`, `plus` is `+`, `times` is
-- `*`, `of_ℕ` is a literal, and `is_finite` is `Number.isFinite`.
use stryker_js_effect.Prelude.{
  ℕ, ◌+◌, ◌*◌, ltb, Bool, true, false, Option, none, some, ◌≡◌, refl, arith,
}

pub record Numbers : Type 1 where
  pub Number : Type 0
  pub of_ℕ : ℕ → Number
  pub plus : Number → Number → Number
  pub times : Number → Number → Number
  pub less : Number → Number → Bool
  pub is_finite : Number → Bool
  -- No number is below itself, and of two at most one is below the other, not a number included.
  pub less_irrefl : (x : Number) → less x x ≡ false
  pub less_asym : (x y : Number) → less x y ≡ true → less y x ≡ false

-- Whole numbers with an infinity, `none`: a concrete choice that meets the interface.
abbrev pub whole_less : Option ℕ → Option ℕ → Bool
whole_less (some a) (some b) = ltb a b
whole_less (some a) none = true
whole_less none b = false

pub whole_less_irrefl : (x : Option ℕ) → whole_less x x ≡ false
whole_less_irrefl none = refl
whole_less_irrefl (some a) = ground arith

pub whole_less_asym : (x y : Option ℕ) → whole_less x y ≡ true → whole_less y x ≡ false
whole_less_asym none none h = refl
whole_less_asym none (some b) h = cc
whole_less_asym (some a) none h = refl
whole_less_asym (some a) (some b) h = ground arith

abbrev pub whole_plus : Option ℕ → Option ℕ → Option ℕ
whole_plus (some a) (some b) = some (a + b)
whole_plus _ _ = none

abbrev pub whole_times : Option ℕ → Option ℕ → Option ℕ
whole_times (some a) (some b) = some (a * b)
whole_times _ _ = none

abbrev pub whole_finite : Option ℕ → Bool
whole_finite (some a) = true
whole_finite none = false

abbrev pub whole_numbers : Numbers
whole_numbers = record {
  Number = Option ℕ;
  of_ℕ = λ n. some n;
  plus = whole_plus;
  times = whole_times;
  less = whole_less;
  is_finite = whole_finite;
  less_irrefl = whole_less_irrefl;
  less_asym = whole_less_asym;
}
