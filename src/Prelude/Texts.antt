-- ===== src/Prelude/Texts.antt =====
-- A string of the source: the list of its UTF-16 code units, compared by them as `===`, `<` and
-- `Array.prototype.join` do.
use Prim.Native.Nat.{ℕ, zero, suc, ◌+◌, ◌/◌, ◌%◌}
use Prim.Native.Char.{code}
use Prim.Native.String.{String}
use mathlib.Core.Path.{◌≡◌, refl, sym}
use mathlib.Core.Logic.{◌↔◌}
use mathlib.Core.Bool.{Bool, true, false, true≢false, ◌&&◌, ◌||◌}
use mathlib.Core.List.{List, [], ◌∷◌, ◌++◌}
use native.Mathlib.Omega.{arith}
use stryker_js_effect.Prelude.Tests.{Eq, ◌==◌, nat_beq, ltb, if◌then◌else◌}

abbrev pub Text : Type 0
Text = List ℕ

-- The code units of a literal whose characters lie below U+10000.
abbrev pub text : String → Text
text String.[] = []
text (String.◌∷◌ c s) = code c ∷ text s

unfoldable pub text_beq : Text → Text → Bool
text_beq [] [] = true
text_beq [] (y ∷ ys) = false
text_beq (x ∷ xs) [] = false
text_beq (x ∷ xs) (y ∷ ys) = nat_beq x y && text_beq xs ys

pub text_beq_iff : (a b : Text) → (text_beq a b ≡ true) ↔ (a ≡ b)
unfolding text_beq
text_beq_iff [] [] = (λ _. refl, λ _. refl)
text_beq_iff [] (y ∷ ys) = (λ h. cc, λ h. cc)
text_beq_iff (x ∷ xs) [] = (λ h. cc, λ h. cc)
text_beq_iff (x ∷ xs) (y ∷ ys) = ground (arith, text_beq_iff xs ys)

instance abbrev pub text_eq : Eq Text
text_eq = record { beq = text_beq; beq_iff = text_beq_iff }

-- `Array.prototype.includes` and `HashSet.has`.
abbrev pub contains : Text → List Text → Bool
contains f [] = false
contains f (g ∷ gs) = g == f || contains f gs

pub contains-append :
    (f : Text) (xs ys : List Text) → contains f (xs ++ ys) ≡ (contains f xs || contains f ys)
contains-append f [] ys = refl
contains-append f (x ∷ xs) ys = ground (arith, contains-append f xs ys)

-- `<` on strings: by their code units.
abbrev pub text_ltb : Text → Text → Bool
text_ltb a [] = false
text_ltb [] (y ∷ ys) = true
text_ltb (x ∷ xs) (y ∷ ys) =
    let rest = text_ltb xs ys in if ltb x y then true else if ltb y x then false else rest

pub text_ltb-asym : (a b : Text) → text_ltb a b ≡ true → text_ltb b a ≡ false
text_ltb-asym a [] h = absurd (true≢false (sym h))
text_ltb-asym [] (y ∷ ys) h = refl
text_ltb-asym (x ∷ xs) (y ∷ ys) h = ground (arith, text_ltb-asym xs ys)

-- The decimal digits of a number, as `${n}` writes them; a number has less digits than `suc n`.
abbrev pub digits : ℕ → ℕ → Text → Text
digits zero n rest = rest
digits (suc fuel) n rest =
    let more = digits fuel (n / 10) ((48 + n % 10) ∷ rest) in
    if ltb n 10 then (48 + n) ∷ rest else more

abbrev pub decimal : ℕ → Text
decimal n = digits (suc n) n []
