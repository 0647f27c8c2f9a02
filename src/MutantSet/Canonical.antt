-- ===== src/MutantSet/Canonical.antt =====
-- The canonical form of a printed text.
use stryker_js_effect.Prelude.{
  ℕ, zero, suc, ◌≤◌, nat_eq, Text, length, false, Bool-cases, [], ◌∷◌, ◌≡◌, refl, ap, ◌∙◌, inl, inr,
  arith,
}
use stryker_js_effect.MutantSet.{
  Trimming, wraps_whole, init_of, inner_of, strip_outer_parentheses, canonical_form,
}

length-init_of : (t : Text) → length (init_of t) ≤ length t
length-init_of [] = omega arith
length-init_of (c ∷ []) = omega arith
length-init_of (c ∷ d ∷ t) = omega (arith, length-init_of (d ∷ t))

length-inner_of : (t : Text) (n : ℕ) → length t ≤ suc n → length (inner_of t) ≤ n
length-inner_of [] n h = omega arith
length-inner_of (c ∷ t) n h = omega (arith, length-init_of t)

module _ (trimming : Trimming) where
  open trimming use {trim, length-trim, trim_twice}

  strip_ends :
      (fuel : ℕ) (t : Text)
      → length t ≤ fuel
      → wraps_whole (strip_outer_parentheses trimming fuel t) ≡ false
  unfolding strip_outer_parentheses
  strip_ends zero [] h = refl
  strip_ends zero (c ∷ t) h = absurd (omega arith)
  strip_ends (suc fuel) t h = elim (Bool-cases (wraps_whole t)) [
    | inl y ↦ rw y (
        strip_ends fuel (trim (inner_of t))
          (omega (arith, length-trim (inner_of t), length-inner_of t fuel h)))
    | inr n ↦ rw n n
  ]

  strip-trimmed :
      (fuel : ℕ) (t : Text)
      → trim t ≡ t
      → trim (strip_outer_parentheses trimming fuel t) ≡ strip_outer_parentheses trimming fuel t
  unfolding strip_outer_parentheses
  strip-trimmed zero t h = h
  strip-trimmed (suc fuel) t h = elim (Bool-cases (wraps_whole t)) [
    | inl y ↦ rw y (strip-trimmed fuel (trim (inner_of t)) (trim_twice (inner_of t)))
    | inr n ↦ rw n h
  ]

  strip_same :
      (fuel : ℕ) (t : Text) → wraps_whole t ≡ false → strip_outer_parentheses trimming fuel t ≡ t
  unfolding strip_outer_parentheses
  strip_same zero t h = refl
  strip_same (suc fuel) t h = rw h refl

  -- If trimming a text adds nothing to it and a trimmed text has nothing to trim: the stripping of
  -- parentheses ends by its own test, since the result is not wrapped in a pair of them; the result
  -- has nothing to trim, and is its own canonical form.
  pub canonical_form-canonical :
      (t : Text)
      → (wraps_whole (canonical_form trimming t) ≡ false)
        × (trim (canonical_form trimming t) ≡ canonical_form trimming t)
        × (canonical_form trimming (canonical_form trimming t) ≡ canonical_form trimming t)
  unfolding canonical_form
  canonical_form-canonical t =
      let form = strip_outer_parentheses trimming (length t) (trim t) in
      let ends = strip_ends (length t) (trim t) (length-trim t) in
      let trimmed = strip-trimmed (length t) (trim t) (trim_twice t) in
      (
        ends,
        trimmed,
        ap (strip_outer_parentheses trimming (length form)) trimmed
            ∙ strip_same (length form) form ends,
      )
