-- ===== src/Lockfile/Decide/Picked.antt =====
-- The keys of one kind among the nodes, and the entries that have them.
use stryker_js_effect.Prelude.{
  ℕ, Text, nat_eq, nat_beq_iff, text_eq, text_beq_iff, ==_refl, ◌==◌, contains, get_somes, Dict,
  lookup, Bool, true, false, ◌||◌, ◌&&◌, Bool-cases, Option, none, some, Option-cases, map_option,
  List, [], ◌∷◌, ◌++◌, map, if◌then◌else◌, ◌≡◌, ◌↔◌, ◌⊎◌, true≢false, append-nil, ⊎_elim, refl, ap,
  ap₂, ◌∙◌, sym, subst, inl, inr, arith,
}
use stryker_js_effect.Lockfile.Refs.{strip_prefix}
use stryker_js_effect.Lockfile.Walk.{has_key}
use stryker_js_effect.Lockfile.Walk.Ends.{strip_prefix-some}
use stryker_js_effect.Lockfile.Decide.{keys_of_kind, picked_from, first_some_of}

strip_prefix_self : (kind key : Text) → strip_prefix kind (kind ++ key) ≡ some key
unfolding strip_prefix
strip_prefix_self [] key = refl
strip_prefix_self (c ∷ kind) key = rw ((nat_beq_iff c c).1 refl) (strip_prefix_self kind key)

append_beq : (kind a b : Text) → (kind ++ a == kind ++ b) ≡ (a == b)
unfolding stryker_js_effect.Prelude.text_beq
append_beq [] a b = refl
append_beq (c ∷ kind) a b = rw ((nat_beq_iff c c).1 refl) (append_beq kind a b)

other_kind : (kind key node : Text) → strip_prefix kind node ≡ none → (node == kind ++ key) ≡ false
other_kind kind key node n = elim (Bool-cases (node == kind ++ key)) [
  | inr o ↦ o
  | inl y ↦
      let e = (text_beq_iff node (kind ++ key)).0 y in
      let clash : none ≡ some key = sym n ∙ ap (strip_prefix kind) e ∙ strip_prefix_self kind key in
      absurd (ground arith)
]

pub contains-keys_of_kind :
    (kind key : Text) (nodes : List Text)
    → contains key (keys_of_kind nodes kind) ≡ contains (kind ++ key) nodes
contains-keys_of_kind kind key [] = refl
contains-keys_of_kind kind key (node ∷ nodes) = elim (Option-cases (strip_prefix kind node)) [
  | inl n ↦ rw (n, other_kind kind key node n) (contains-keys_of_kind kind key nodes)
  | inr (rest, s) ↦ rw s (
      ap₂ ◌||◌
        (subst (λ t. (rest == key) ≡ (t == kind ++ key)) (sym (strip_prefix-some kind node rest s))
          (sym (append_beq kind rest key)))
        (contains-keys_of_kind kind key nodes))
]

either_none {ℓ} : {A : Type ℓ} (b : Bool) (o : Option A) → o ≡ none → (if b then o else none) ≡ o
either_none true o h = refl
either_none false o h = sym h

module _ {ℓ} {V : Type ℓ} (entries : Dict V) (key : Text) where
  lookup-picked_from :
      (keys : List Text)
      → lookup key (picked_from entries keys)
        ≡ (if contains key keys then lookup key entries else none)
  unfolding lookup
  lookup-picked_from [] = refl
  lookup-picked_from (k ∷ keys) = elim (Option-cases (lookup k entries)) [
    | inl n ↦ elim (Bool-cases (k == key)) [
      | inl same ↦
          let absent = subst (λ t. lookup t entries ≡ none) ((text_beq_iff k key).0 same) n in
          rw (n, same)
            (lookup-picked_from keys ∙ either_none (contains key keys) (lookup key entries) absent)
      | inr other ↦ rw (n, other) (lookup-picked_from keys)
    ]
    | inr (value, s) ↦ elim (Bool-cases (k == key)) [
      | inl same ↦
          rw (s, same)
            (sym (subst (λ t. lookup t entries ≡ some value) ((text_beq_iff k key).0 same) s))
      | inr other ↦ rw (s, other) (lookup-picked_from keys)
    ]
  ]

has_key-lookup {ℓ} :
    {V : Type ℓ} (entries : Dict V) (key : Text)
    → has_key entries key ≡ true
    → (value : V) × (lookup key entries ≡ some value)
unfolding lookup
has_key-lookup [] key h = absurd (ground arith)
has_key-lookup ((name, value) ∷ entries) key h = elim (Bool-cases (name == key)) [
  | inl same ↦ rw same (value, refl)
  | inr other ↦ rw other (has_key-lookup entries key (rw other at h))
]

-- Where no option is there, none of the keys has one.
pub none_first {ℓ} :
    {A : Type ℓ} (f : Text → Option A) (keys : List Text) (others : List (Option A))
    → first_some_of (map f keys ++ others) ≡ none
    → ((k : Text) → contains k keys ≡ true → f k ≡ none) × (first_some_of others ≡ none)
none_first f [] others h = (λ k c. absurd (ground arith), h)
none_first f (key ∷ keys) others h = elim (Option-cases (f key)) [
  | inl n ↦
      let rest = none_first f keys others (rw n at h) in
      (
        λ k c. elim (Bool-cases (key == k)) [
          | inl same ↦ subst (λ t. f t ≡ none) ((text_beq_iff key k).0 same) n
          | inr other ↦ rest.0 k (rw other at c)
        ],
        rest.1,
      )
  | inr (a, s) ↦ absurd (let h' = rw s at h in ground arith)
]

-- Where an option is there, one of the keys has it, or it is among the others.
pub some_first {ℓ} :
    {A : Type ℓ} (f : Text → Option A) (keys : List Text) (others : List (Option A)) {a : A}
    → first_some_of (map f keys ++ others) ≡ some a
    → ((k : Text) × (contains k keys ≡ true) × (f k ≡ some a)) ⊎ (first_some_of others ≡ some a)
some_first f [] others h = inr h
some_first f (key ∷ keys) others h = elim (Option-cases (f key)) [
  | inr (b, s) ↦ inl (key, ground (arith, text_beq_iff key key), s ∙ (rw s at h))
  | inl n ↦
      ⊎_elim (λ r. inl (r.0, ground (arith, r.1), r.2)) (λ o. inr o)
        (some_first f keys others (rw n at h))
]

-- An entry of the whole is in the part if the node of its key is reached, and every reached node
-- has one; no other entry is in the part.
abbrev pub PartOf : {V : Type 0} → Type 0 → Dict V → Dict V → Text → Type 0
PartOf {V} Reached whole part key =
    (Reached × (value : V) × (lookup key whole ≡ some value) × (lookup key part ≡ some value))
    ⊎ ((¬ Reached) × (lookup key part ≡ none))

pub picked_from-PartOf :
    {V : Type 0} (Reached : Type 0) (whole : Dict V) (kind key : Text) (nodes : List Text)
    → (contains (kind ++ key) nodes ≡ true) ↔ Reached
    → (contains key (keys_of_kind nodes kind) ≡ true → has_key whole key ≡ true)
    → PartOf Reached whole (picked_from whole (keys_of_kind nodes kind)) key
picked_from-PartOf Reached whole kind key nodes reached present =
    let same = contains-keys_of_kind kind key nodes in
    let picked = lookup-picked_from whole key (keys_of_kind nodes kind) in
    elim (Bool-cases (contains (kind ++ key) nodes)) [
      | inl y ↦
          let (value, found) = has_key-lookup whole key (present (same ∙ y)) in
          inl (reached.0 y, value, found, picked ∙ rw (same, y) found)
      | inr n ↦ inr (λ r. true≢false (sym (reached.1 r) ∙ n), picked ∙ rw (same, n) refl)
    ]
