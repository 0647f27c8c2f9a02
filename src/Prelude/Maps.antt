-- ===== src/Prelude/Maps.antt =====
-- Records keyed by strings, as association lists: `Record.get`, `HashMap.get`, `HashMap.set`.
use mathlib.Core.Path.{◌≡◌, refl}
use mathlib.Core.Option.{Option, none, some}
use mathlib.Core.List.{List, [], ◌∷◌}
use native.Mathlib.Omega.{arith}
use stryker_js_effect.Prelude.Tests.{◌==◌, if◌then◌else◌}
use stryker_js_effect.Prelude.Texts.{Text, text_eq, text_beq_iff}

abbrev pub Dict {ℓ} : Type ℓ → Type ℓ
Dict V = List (Text × V)

module _ {ℓ} {V : Type ℓ} where
  unfoldable pub lookup : Text → Dict V → Option V
  lookup key [] = none
  lookup key ((name, value) ∷ rest) =
      let later = lookup key rest in if name == key then some value else later

  -- A key that is there keeps its place.
  unfoldable pub insert : Text → V → Dict V → Dict V
  insert key value [] = (key, value) ∷ []
  insert key value ((name, old) ∷ rest) =
      let later = insert key value rest in
      if name == key then (key, value) ∷ rest else (name, old) ∷ later

  pub lookup-insert :
      (key sought : Text) (value : V) (entries : Dict V)
      → lookup sought (insert key value entries)
        ≡ (if key == sought then some value else lookup sought entries)
  unfolding lookup insert
  lookup-insert key sought value [] = refl
  lookup-insert key sought value ((name, old) ∷ rest) = ground (
    lookup-insert key sought value rest,
    text_beq_iff name sought,
    text_beq_iff key sought,
    text_beq_iff name key,
    arith,
  )

-- `Option.getOrElse`.
abbrev pub get_or_else {ℓ} : {A : Type ℓ} → Option A → A → A
get_or_else none d = d
get_or_else (some a) d = a

-- `Option.map`.
abbrev pub map_option {ℓ κ} : {A : Type ℓ} {B : Type κ} → (A → B) → Option A → Option B
map_option f none = none
map_option f (some a) = some (f a)
