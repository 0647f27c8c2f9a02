-- ===== src/TypeChecker/Rounds/Layers.antt =====
-- The mutants that share a round.
use stryker_js_effect.Prelude.{
  ℕ, ◌-◌, zero, suc, Text, get_elem?, get_somes, map_option, Option, none, some, Option-cases, List,
  [], ◌∷◌, map, All, Memᴰ, ◌≡◌, refl, inl, inr, subst, arith,
}
use stryker_js_effect.TypeChecker.FileIds.{FileIds}
use stryker_js_effect.TypeChecker.Rounds.{
  CheckRound, solo_round, shared_round, round_of_layer, layer_at, layer_rounds, range,
  layer_count_of,
}

abbrev pub ids_of : CheckRound → List Text
ids_of (solo_round id) = id ∷ []
ids_of (shared_round ids) = ids

-- `ids` has, in the order of the files, at most one of the ids of each file, and no other id.
pub data OnePerFile : List FileIds → List Text → Type 0 where
  end : OnePerFile [] []
  skip :
      {file : FileIds} {files : List FileIds} {ids : List Text}
      → OnePerFile files ids
      → OnePerFile (file ∷ files) ids
  pick :
      {file : FileIds} {files : List FileIds} {id : Text} {ids : List Text}
      → Memᴰ id file.ids
      → OnePerFile files ids
      → OnePerFile (file ∷ files) (id ∷ ids)

mem-get_elem? : (xs : List Text) (n : ℕ) (x : Text) → get_elem? xs n ≡ some x → Memᴰ x xs
mem-get_elem? [] n x e = absurd (ground arith)
mem-get_elem? (y ∷ xs) zero x e = Memᴰ.head (ground arith)
mem-get_elem? (y ∷ xs) (suc n) x e = Memᴰ.tail (mem-get_elem? xs n x e)

-- The ids at one place of the files' lists.
abbrev pub column : List FileIds → ℕ → List Text
column files layer = get_somes (map (λ file. get_elem? file.ids layer) files)

column-OnePerFile : (files : List FileIds) (layer : ℕ) → OnePerFile files (column files layer)
column-OnePerFile [] layer = end
column-OnePerFile (file ∷ files) layer = elim (Option-cases (get_elem? file.ids layer)) [
  | inl e ↦ rw e (skip (column-OnePerFile files layer))
  | inr (id, e) ↦ rw e (pick (mem-get_elem? file.ids layer id e) (column-OnePerFile files layer))
]

pub ids_of-round_of_layer :
    (id : Text) (others : List Text) → ids_of (round_of_layer id others) ≡ id ∷ others
unfolding round_of_layer
ids_of-round_of_layer id [] = refl
ids_of-round_of_layer id (x ∷ others) = refl

All-get_somes :
    {A : Type 0} (P : A → Type 0) (f : ℕ → Option A) (ls : List ℕ)
    → ((l : ℕ) (a : A) → f l ≡ some a → P a)
    → All P (get_somes (map f ls))
All-get_somes P f [] h = tt
All-get_somes P f (l ∷ ls) h = elim (Option-cases (f l)) [
  | inl e ↦ rw e (All-get_somes P f ls h)
  | inr (a, e) ↦ rw e (h l a e, All-get_somes P f ls h)
]

round-OnePerFile :
    (files : List FileIds) (layer : ℕ) (round : CheckRound)
    → map_option (λ l. round_of_layer l.0 l.1) (layer_at files layer) ≡ some round
    → OnePerFile files (ids_of round)
unfolding layer_at
round-OnePerFile files layer round e = go _ refl e
  where
    go :
        (ids : List Text)
        → get_somes (map (λ file. get_elem? file.ids layer) files) ≡ ids
        → map_option {B = CheckRound}
            (λ l. round_of_layer l.0 l.1)
            (elim ids as (λ _. Option (Text × List Text)) [
              | [] ↦ none
              | id ∷ others ↦ some (id, others)
            ])
          ≡ some round
        → OnePerFile files (ids_of round)
    go [] c e = cc
    go (id ∷ others) c e =
        let r : round_of_layer id others ≡ round = ground arith in
        subst (λ q. OnePerFile files (ids_of q)) r
          (rw (ids_of-round_of_layer id others)
            (subst (OnePerFile files) c (column-OnePerFile files layer)))

-- Each round that eligible mutants share has at most one mutant of each file.
pub layer_rounds-OnePerFile :
    (files : List FileIds) → All (λ round. OnePerFile files (ids_of round)) (layer_rounds files)
unfolding layer_rounds
layer_rounds-OnePerFile files =
    All-get_somes _ _ (range 0 (layer_count_of files - 1)) (round-OnePerFile files)
