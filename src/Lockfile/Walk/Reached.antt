-- ===== src/Lockfile/Walk/Reached.antt =====
-- What the walk reaches.
use stryker_js_effect.Prelude.{
  ℕ, zero, suc, ◌+◌, ◌≤◌, ◌<◌, Text, text_eq, text_beq_iff, ◌==◌, contains, contains-append,
  contains-distinct, distinct, flatten, length, Bool, true, false, not, ◌&&◌, ◌||◌, Bool-cases,
  some, List, [], ◌∷◌, ◌++◌, map, if◌then◌else◌, ◌≡◌, ◌↔◌, refl, ap, ◌∙◌, sym, subst, inl, inr,
  arith,
}
use stryker_js_effect.Lockfile.Walk.{unseen, next_of, seen_or, reached_from}

contains-unseen :
    (m : Text) (seen nodes : List Text)
    → contains m (unseen seen nodes) ≡ (contains m nodes && not (contains m seen))
contains-unseen m seen [] = refl
contains-unseen m seen (n ∷ nodes) = ground (arith, contains-unseen m seen nodes, text_beq_iff n m)

-- How many of the entries are yet to be followed.
abbrev left_of : List Text → List Text → List Text → ℕ
left_of seen frontier [] = 0
left_of seen frontier (e ∷ entries) =
    (if not (contains e seen) || contains e frontier then 1 else 0) + left_of seen frontier entries

left_of-le :
    (seen frontier next entries : List Text)
    → ((m : Text) → contains m next ≡ true → contains m seen ≡ false)
    → left_of (seen ++ next) next entries ≤ left_of seen frontier entries
left_of-le seen frontier next [] fresh = omega arith
left_of-le seen frontier next (e ∷ entries) fresh = elim (Bool-cases (contains e next)) [
  | inl y ↦
      ground
        (arith, left_of-le seen frontier next entries fresh, contains-append e seen next, fresh e y)
  | inr n ↦ ground (arith, left_of-le seen frontier next entries fresh, contains-append e seen next)
]

left_of-lt :
    (seen frontier next entries : List Text) (n : Text)
    → ((m : Text) → contains m next ≡ true → contains m seen ≡ false)
    → contains n seen ≡ true
    → contains n frontier ≡ true
    → contains n entries ≡ true
    → left_of (seen ++ next) next entries < left_of seen frontier entries
left_of-lt seen frontier next [] n fresh s f h = cc
left_of-lt seen frontier next (e ∷ entries) n fresh s f h =
    let rest = left_of-le seen frontier next entries fresh in
    elim (Bool-cases (e == n)) [
      | inl same ↦
          let q = sym ((text_beq_iff e n).0 same) in
          let es = subst (λ t. contains t seen ≡ true) q s in
          let ef = subst (λ t. contains t frontier ≡ true) q f in
          elim (Bool-cases (contains e next)) [
            | inl y ↦ ground (arith, fresh e y)
            | inr o ↦ ground (arith, rest, contains-append e seen next)
          ]
      | inr other ↦
          let more = left_of-lt seen frontier next entries n fresh s f (ground arith) in
          elim (Bool-cases (contains e next)) [
            | inl y ↦ ground (arith, more, contains-append e seen next, fresh e y)
            | inr o ↦ ground (arith, more, contains-append e seen next)
          ]
    ]

left_of-le-length :
    (seen frontier entries : List Text) → left_of seen frontier entries ≤ length entries
left_of-le-length seen frontier [] = omega arith
left_of-le-length seen frontier (e ∷ entries) =
    ground (arith, left_of-le-length seen frontier entries)

module _ (successors : Text → List Text) where
  -- A node of the start, or one that a reached node refers to.
  pub data Reachable (start : List Text) : Text → Type 0 where
    begins : {n : Text} → contains n start ≡ true → Reachable start n
    follows :
        {n m : Text} → Reachable start n → contains m (successors n) ≡ true → Reachable start m

  abbrev from_any : Text → List Text → Bool
  from_any m [] = false
  from_any m (n ∷ nodes) = contains m (successors n) || from_any m nodes

  contains-flatten :
      (m : Text) (nodes : List Text)
      → contains m (flatten (map successors nodes)) ≡ from_any m nodes
  contains-flatten m [] = refl
  contains-flatten m (n ∷ nodes) = ground (
    arith,
    contains-append m (successors n) (flatten (map successors nodes)),
    contains-flatten m nodes,
  )

  contains-next_of :
      (m : Text) (seen frontier : List Text)
      → contains m (next_of successors seen frontier)
        ≡ (from_any m frontier && not (contains m seen))
  contains-next_of m seen frontier = ground (
    arith,
    contains-unseen m seen (distinct (flatten (map successors frontier))),
    contains-distinct m (flatten (map successors frontier)),
    contains-flatten m frontier,
  )

  from_any_elim :
      (m : Text) (nodes : List Text)
      → from_any m nodes ≡ true
      → (n : Text) × (contains n nodes ≡ true) × (contains m (successors n) ≡ true)
  from_any_elim m [] h = absurd (ground arith)
  from_any_elim m (n ∷ nodes) h = elim (Bool-cases (contains m (successors n))) [
    | inl y ↦ (n, ground (arith, text_beq_iff n n), y)
    | inr o ↦ let (k, c, s) = from_any_elim m nodes (ground arith) in (k, ground arith, s)
  ]

  from_any_intro :
      (m n : Text) (nodes : List Text)
      → contains n nodes ≡ true
      → contains m (successors n) ≡ true
      → from_any m nodes ≡ true
  from_any_intro m n [] c s = cc
  from_any_intro m n (k ∷ nodes) c s = ground (arith, from_any_intro m n nodes, text_beq_iff k n)

  module _ (start : List Text) where
    record Walked (seen frontier : List Text) : Type 0 where
      seeded : (n : Text) → contains n start ≡ true → contains n seen ≡ true
      sound : (n : Text) → contains n seen ≡ true → Reachable start n
      behind : (n : Text) → contains n frontier ≡ true → contains n seen ≡ true
      followed :
          (n m : Text)
          → contains n seen ≡ true
          → contains n frontier ≡ false
          → contains m (successors n) ≡ true
          → contains m seen ≡ true

    fresh-next_of :
        (seen frontier : List Text) (m : Text)
        → contains m (next_of successors seen frontier) ≡ true
        → contains m seen ≡ false
    fresh-next_of seen frontier m h = ground (arith, contains-next_of m seen frontier)

    -- What a reached node refers to is seen or new.
    successor_seen :
        (seen frontier : List Text)
        → Walked seen frontier
        → (n m : Text) → contains n seen ≡ true
        → contains m (successors n) ≡ true
        → contains m (seen ++ next_of successors seen frontier) ≡ true
    successor_seen seen frontier w n m c s =
        let both = contains-append m seen (next_of successors seen frontier) in
        elim (Bool-cases (contains n frontier)) [
          | inl y ↦
              ground
                (arith, both, contains-next_of m seen frontier, from_any_intro m n frontier y s)
          | inr o ↦ ground (arith, both, w.followed n m c o s)
        ]

    next-Walked :
        (seen frontier : List Text)
        → Walked seen frontier
        → Walked (seen ++ next_of successors seen frontier) (next_of successors seen frontier)
    next-Walked seen frontier w =
        let next = next_of successors seen frontier in
        record {
          seeded = λ n c. ground (arith, contains-append n seen next, w.seeded n c);
          sound = λ n c. elim (Bool-cases (contains n seen)) [
            | inl old ↦ w.sound n old
            | inr new ↦
                let (k, f, s) =
                  from_any_elim n frontier (
                    ground
                      (arith, contains-append n seen next, contains-next_of n seen frontier)) in
                follows (w.sound k (w.behind k f)) s
          ];
          behind = λ n c. ground (arith, contains-append n seen next);
          followed = λ n m c o s.
              successor_seen seen frontier w n m (ground (arith, contains-append n seen next)) s;
        }

    complete :
        (seen frontier : List Text)
        → Walked seen frontier
        → next_of successors seen frontier ≡ []
        → {n : Text} → Reachable start n
        → contains n seen ≡ true
    complete seen frontier w e {n} (begins c) = w.seeded n c
    complete seen frontier w e {n} (follows {n = k} r s) =
        let c = successor_seen seen frontier w k n (complete seen frontier w e r) s in
        ground
          (arith, c, contains-append n seen (next_of successors seen frontier), ap (contains n) e)

    module _ (entries : List Text)
        (known : (n m : Text) → contains m (successors n) ≡ true → contains n entries ≡ true) where
      left_of-next :
          (seen frontier : List Text) (m : Text)
          → Walked seen frontier
          → contains m (next_of successors seen frontier) ≡ true
          → left_of
              (seen ++ next_of successors seen frontier)
              (next_of successors seen frontier)
              entries
            < left_of seen frontier entries
      left_of-next seen frontier m w c =
          let (n, f, s) =
            from_any_elim m frontier (ground (arith, contains-next_of m seen frontier)) in
          left_of-lt seen frontier (next_of successors seen frontier) entries n
            (fresh-next_of seen frontier) (w.behind n f) f (known n m s)

      abbrev EndsWith : ℕ → List Text → List Text → Type 0
      EndsWith fuel seen frontier =
          (nodes : List Text) × (reached_from successors fuel seen frontier ≡ some nodes)
          × ((n : Text) → (contains n nodes ≡ true) ↔ Reachable start n)

      one_round :
          (fuel : ℕ) (seen frontier next : List Text)
          → next_of successors seen frontier ≡ next
          → Walked seen frontier
          → ((m : Text) → contains m next ≡ true → EndsWith fuel (seen ++ next) next)
          → (nodes : List Text) × (seen_or seen
                (reached_from successors fuel (seen ++ next) next)
                next
              ≡ some nodes)
            × ((n : Text) → (contains n nodes ≡ true) ↔ Reachable start n)
      one_round fuel seen frontier [] e w rest =
          (seen, refl, λ n. (w.sound n, λ r. complete seen frontier w e r))
      one_round fuel seen frontier (m ∷ next) e w rest = rest m (ground (arith, text_beq_iff m m))

      walk_ends :
          (fuel : ℕ) (seen frontier : List Text)
          → left_of seen frontier entries < fuel
          → Walked seen frontier
          → EndsWith fuel seen frontier
      unfolding reached_from
      walk_ends zero seen frontier h w = absurd (omega arith)
      walk_ends (suc fuel) seen frontier h w =
          let next = next_of successors seen frontier in
          one_round fuel seen frontier next refl w (λ m c.
            walk_ends fuel (seen ++ next) next (omega (arith, left_of-next seen frontier m w c))
              (next-Walked seen frontier w))

      -- Of a walk in which only the listed entries refer to something: from whatever start, with
      -- fuel above the number of entries, it ends, and it ends with exactly the reachable nodes.
      pub reached_from_lem :
          (fuel : ℕ)
          → length entries < fuel
          → (nodes : List Text) × (reached_from successors fuel (distinct start) start ≡ some nodes)
            × ((n : Text) → (contains n nodes ≡ true) ↔ Reachable start n)
      reached_from_lem fuel h =
          walk_ends fuel (distinct start) start
            (omega (arith, left_of-le-length (distinct start) start entries))
            (record {
              seeded = λ n c. contains-distinct n start ∙ c;
              sound = λ n c. begins (sym (contains-distinct n start) ∙ c);
              behind = λ n c. contains-distinct n start ∙ c;
              followed = λ n m c o s. absurd (ground (arith, contains-distinct n start));
            })
