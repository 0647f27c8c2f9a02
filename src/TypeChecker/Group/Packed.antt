-- ===== src/TypeChecker/Group/Packed.antt =====
-- What a packing keeps: every id once and in order, whole batches, and the bound.
use stryker_js_effect.Prelude.{
  ℕ, ◌+◌, ◌≤◌, Text, length, length-append, is_empty, true, false, true≢false, List, [], ◌∷◌, ◌++◌,
  map, foldl, flatten, All, All-append, Bool-cases, ◌≡◌, refl, ap, ◌∙◌, sym, subst, ◌⊎◌, inl, inr,
  arith, append-nil, append_assoc, map-append, Memᴰ, Memᴰ-append, leb, leb→le, All-imp,
  flatten-append, ⊎_elim,
}
use stryker_js_effect.TypeChecker.Group.{
  Packing, empty_packing, pack_file, close_packing, pack_batches,
}

-- `chunks` cuts `batches` into consecutive runs, and each group is one run joined up.
pub record IsPacked (bound : ℕ) (batches groups : List (List Text)) : Type 0 where
  pub chunks : List (List (List Text))
  pub whole : flatten chunks ≡ batches
  pub joined : map flatten chunks ≡ groups

-- Within the bound, or one batch that is larger than the bound by itself.
abbrev pub FitsBound : ℕ → List (List Text) → List Text → Type 0
FitsBound bound batches group = (length group ≤ bound) ⊎ Memᴰ group batches

-- The loop after the batches `done`: `chunks` for the closed groups, `open_chunk` for the current.
record Packs (bound : ℕ) (done : List (List Text)) (p : Packing) : Type 0 where
  chunks : List (List (List Text))
  open_chunk : List (List Text)
  whole : flatten chunks ++ open_chunk ≡ done
  joined : map flatten chunks ≡ p.groups
  current : flatten open_chunk ≡ p.current
  idle : is_empty p.current ≡ true → open_chunk ≡ []
  size : length p.current ≡ p.current_size
  bounded : All (FitsBound bound done) p.groups
  current_bounded : (p.current ≡ []) ⊎ FitsBound bound done p.current
  nonempty : All (λ g. is_empty g ≡ false) p.groups

FitsBound-append :
    (bound : ℕ) (done more : List (List Text)) (g : List Text)
    → FitsBound bound done g
    → FitsBound bound (done ++ more) g
FitsBound-append bound done more g (inl h) = inl h
FitsBound-append bound done more g (inr m) = inr ((Memᴰ-append g done more).1 (inl m))

is_empty-eq_nil : (xs : List Text) → is_empty xs ≡ true → xs ≡ []
is_empty-eq_nil [] h = refl
is_empty-eq_nil (x ∷ xs) h = cc

not_empty-append : (xs ys : List Text) → is_empty ys ≡ false → is_empty (xs ++ ys) ≡ false
not_empty-append [] ys h = h
not_empty-append (x ∷ xs) ys h = refl

module _ (bound : ℕ) (done : List (List Text)) (p : Packing) (ids : List Text)
    (full : is_empty ids ≡ false) (h : Packs bound done p) where
  mem_ids : Memᴰ ids (done ++ ids ∷ [])
  mem_ids = (Memᴰ-append ids done (ids ∷ [])).1 (inr (Memᴰ.head refl))

  kept : All (FitsBound bound (done ++ ids ∷ [])) p.groups
  kept = All-imp _ _ p.groups (FitsBound-append bound done (ids ∷ [])) h.bounded

  -- The batch joins the current group.
  joins :
      FitsBound bound (done ++ ids ∷ []) (p.current ++ ids)
      → Packs bound
          (done ++ ids ∷ [])
          (record p { current = p.current ++ ids; current_size = p.current_size + length ids })
  joins fits = record {
    chunks = h.chunks;
    open_chunk = h.open_chunk ++ ids ∷ [];
    whole = cc (append_assoc (flatten h.chunks) h.open_chunk (ids ∷ []), h.whole);
    joined = h.joined;
    current = flatten-append h.open_chunk (ids ∷ []) ∙ cc (append-nil ids, h.current);
    idle = λ e. absurd (true≢false (sym e ∙ not_empty-append p.current ids full));
    size = omega (arith, length-append p.current ids, h.size);
    bounded = kept;
    current_bounded = inr fits;
    nonempty = h.nonempty;
  }

  -- The current group is closed and the batch starts a new one.
  starts :
      is_empty p.current ≡ false
      → Packs bound
          (done ++ ids ∷ [])
          (record { groups = p.groups ++ p.current ∷ []; current = ids; current_size = length ids })
  starts filled = record {
    chunks = h.chunks ++ h.open_chunk ∷ [];
    open_chunk = ids ∷ [];
    whole = cc (flatten-append h.chunks (h.open_chunk ∷ []), append-nil h.open_chunk, h.whole);
    joined = map-append flatten h.chunks (h.open_chunk ∷ []) ∙ cc (h.joined, h.current);
    current = append-nil ids;
    idle = λ e. absurd (true≢false (sym e ∙ full));
    size = refl;
    bounded = All-append _ p.groups (p.current ∷ []) kept (
      ⊎_elim (λ e. cc (e, filled)) (FitsBound-append bound done (ids ∷ []) p.current)
          h.current_bounded,
      tt,
    );
    current_bounded = inr (inr mem_ids);
    nonempty = All-append _ p.groups (p.current ∷ []) h.nonempty (filled, tt);
  }

  pack_file-Packs : Packs bound (done ++ ids ∷ []) (pack_file bound p ids)
  unfolding pack_file
  pack_file-Packs = elim (Bool-cases (is_empty p.current)) [
    | inl empty ↦ rw empty (joins (inr (rw (is_empty-eq_nil p.current empty) mem_ids)))
    | inr filled ↦ elim (Bool-cases (leb (p.current_size + length ids) bound)) [
      | inl fits ↦
          rw (filled, fits)
            (joins (inl (omega (arith, length-append p.current ids, h.size, leb→le _ _ fits))))
      | inr over ↦ rw (filled, over) (starts filled)
    ]
  ]

foldl-Packs :
    (bound : ℕ) (done rest : List (List Text)) (p : Packing)
    → All (λ b. is_empty b ≡ false) rest
    → Packs bound done p
    → Packs bound (done ++ rest) (foldl (pack_file bound) p rest)
foldl-Packs bound done [] p ne h = rw append-nil h
foldl-Packs bound done (ids ∷ rest) p ne h =
    subst (λ q. Packs bound q (foldl (pack_file bound) p (ids ∷ rest)))
      (append_assoc done (ids ∷ []) rest)
      (foldl-Packs bound (done ++ ids ∷ []) rest (pack_file bound p ids) ne.1
        (pack_file-Packs bound done p ids ne.0 h))

start-Packs : (bound : ℕ) → Packs bound [] empty_packing
start-Packs bound = record {
  chunks = [];
  open_chunk = [];
  whole = refl;
  joined = refl;
  current = refl;
  idle = λ _. refl;
  size = refl;
  bounded = tt;
  current_bounded = inl refl;
  nonempty = tt;
}

-- What closing the last group leaves.
record Closed (bound : ℕ) (batches groups : List (List Text)) : Type 0 where
  packed : IsPacked bound batches groups
  bounded : All (FitsBound bound batches) groups
  nonempty : All (λ g. is_empty g ≡ false) groups

close_packing-Closed :
    (bound : ℕ) (done : List (List Text)) (p : Packing)
    → Packs bound done p
    → Closed bound done (close_packing p)
unfolding close_packing
close_packing-Closed bound done p h = elim (Bool-cases (is_empty p.current)) [
  | inl empty ↦ rw empty (record {
    packed = record {
      chunks = h.chunks;
      whole = cc (append-nil (flatten h.chunks), h.whole, h.idle empty);
      joined = h.joined;
    };
    bounded = h.bounded;
    nonempty = h.nonempty;
  })
  | inr filled ↦ rw filled (record {
    packed = record {
      chunks = h.chunks ++ h.open_chunk ∷ [];
      whole = cc (flatten-append h.chunks (h.open_chunk ∷ []), append-nil h.open_chunk, h.whole);
      joined = map-append flatten h.chunks (h.open_chunk ∷ []) ∙ cc (h.joined, h.current);
    };
    bounded =
        All-append _ p.groups (p.current ∷ []) h.bounded
          (⊎_elim (λ e. cc (e, filled)) (λ f. f) h.current_bounded, tt);
    nonempty = All-append _ p.groups (p.current ∷ []) h.nonempty (filled, tt);
  })
]

-- For batches that are not empty: the groups are consecutive runs of whole batches, so no id is
-- lost, repeated or moved and no batch is split; each group has at most `bound` ids or is one
-- batch by itself; no group is empty.
pub pack_batches-Closed :
    (bound : ℕ) (batches : List (List Text))
    → All (λ b. is_empty b ≡ false) batches
    → IsPacked bound batches (pack_batches bound batches)
      × All (FitsBound bound batches) (pack_batches bound batches)
      × All (λ g. is_empty g ≡ false) (pack_batches bound batches)
unfolding pack_batches
pack_batches-Closed bound batches ne =
    let c =
      close_packing-Closed bound batches (foldl (pack_file bound) empty_packing batches)
        (foldl-Packs bound [] batches empty_packing ne (start-Packs bound)) in
    (c.packed, c.bounded, c.nonempty)

map-flatten : (xsss : List (List (List Text))) → flatten (map flatten xsss) ≡ flatten (flatten xsss)
map-flatten [] = refl
map-flatten (x ∷ xs) = cc (flatten-append x (flatten xs), map-flatten xs)

-- The groups hold the ids of the batches, all of them, in the same order.
pub flatten-pack_batches :
    (bound : ℕ) (batches : List (List Text))
    → All (λ b. is_empty b ≡ false) batches
    → flatten (pack_batches bound batches) ≡ flatten batches
flatten-pack_batches bound batches ne =
    let k = (pack_batches-Closed bound batches ne).0 in
    ap flatten (sym k.joined) ∙ map-flatten k.chunks ∙ ap flatten k.whole
