-- ===== src/Survivors/Cap/Bounds.antt =====
-- How many survivors of a file and of a line are reported.
use stryker_js_effect.Prelude.{
  ap₂, decimal, ℕ, ◌≤◌, nat_eq, Text, text_eq, text_beq_iff, ◌==◌, contains, take, flatten, members,
  distinct, Distinct, distinct-Distinct, sort_by, sort_by-perm, group_by-perm, Bool, false, ◌&&◌,
  Bool-cases, List, [], ◌∷◌, ◌++◌, map, map-map, All, ◌≡◌, refl, ap, sym, ◌∙◌, subst, inl, inr,
  arith, count_of, count_of-append, count_of-perm, count_of-le-length, count_of-take,
  length-take-le, count_of_none, All-take, All-sort_by,
}
use stryker_js_effect.Survivors.Cap.{
  SurvivorRef, CapSurvivorsCommand, id_before, position_before, line_key_of, file_key_of,
  takes_first_per_key, with_distinct_ids, not_among, survivor_ids_of, decision_for, cap_survivors,
  surfaced_of,
}

-- One key's share of the result.
abbrev taken : (SurvivorRef → Text) → ℕ → List SurvivorRef → Text → List SurvivorRef
taken key n xs k = take n (sort_by id_before (members key k xs))

takes_first_per_key-eq :
    (survivors : List SurvivorRef) (key : SurvivorRef → Text) (n : ℕ)
    → let sorted = sort_by position_before survivors in
      takes_first_per_key survivors key n
      ≡ flatten (map (taken key n sorted) (distinct (map key sorted)))
unfolding takes_first_per_key
takes_first_per_key-eq survivors key n =
    let sorted = sort_by position_before survivors in
    ap flatten (
      map-map (λ (g : Text × List SurvivorRef). take n (sort_by id_before g.1))
        (λ k. (k, members key k sorted)) (distinct (map key sorted)))

module _ (key : SurvivorRef → Text) (n : ℕ) (k : Text) (xs : List SurvivorRef) where
  abbrev is_keyed : SurvivorRef → Bool
  is_keyed s = key s == k

  members-other :
      (j : Text) (ys : List SurvivorRef)
      → (j == k) ≡ false
      → All (λ s. is_keyed s ≡ false) (members key j ys)
  members-other j [] h = tt
  members-other j (s ∷ ys) h = elim (Bool-cases (key s == j)) [
    | inl same ↦ rw same (
      subst (λ t. (t == k) ≡ false) (sym ((text_beq_iff (key s) j).0 same)) h,
      members-other j ys h,
    )
    | inr other ↦ rw other (members-other j ys h)
  ]

  count_of-taken_other : (j : Text) → (j == k) ≡ false → count_of is_keyed (taken key n xs j) ≡ 0
  count_of-taken_other j h =
      count_of_none is_keyed (taken key n xs j)
        (All-take _ n _ (All-sort_by _ id_before (members key j xs) (members-other j xs h)))

  count_of-taken-le : (j : Text) → count_of is_keyed (taken key n xs j) ≤ n
  count_of-taken-le j = omega (
    arith,
    count_of-le-length is_keyed (taken key n xs j),
    length-take-le n (sort_by id_before (members key j xs)),
  )

  count_of-absent :
      (ks : List Text)
      → contains k ks ≡ false
      → count_of is_keyed (flatten (map (taken key n xs) ks)) ≡ 0
  count_of-absent [] h = refl
  count_of-absent (j ∷ ks) h = ground (
    arith,
    count_of-append is_keyed (taken key n xs j) (flatten (map (taken key n xs) ks)),
    count_of-taken_other j,
    count_of-absent ks,
  )

  count_of-keys :
      (ks : List Text) → Distinct ks → count_of is_keyed (flatten (map (taken key n xs) ks)) ≤ n
  count_of-keys [] d = omega arith
  count_of-keys (j ∷ ks) d =
      let split = count_of-append is_keyed (taken key n xs j) (flatten (map (taken key n xs) ks)) in
      elim (Bool-cases (j == k)) [
        | inl same ↦ omega (
          arith,
          split,
          count_of-taken-le j,
          count_of-absent ks (subst (λ t. contains t ks ≡ false) ((text_beq_iff j k).0 same) d.0),
        )
        | inr other ↦ omega (arith, split, count_of-taken_other j other, count_of-keys ks d.1)
      ]

-- At most `n` of a key are taken, and of nothing more than there is.
pub takes_first_per_key-le :
    (survivors : List SurvivorRef) (key : SurvivorRef → Text) (n : ℕ) (k : Text)
    → count_of (λ s. key s == k) (takes_first_per_key survivors key n) ≤ n
takes_first_per_key-le survivors key n k =
    let sorted = sort_by position_before survivors in
    rw (takes_first_per_key-eq survivors key n) (
      count_of-keys key n k sorted (distinct (map key sorted)) (distinct-Distinct (map key sorted)))

taken-le :
    (p : SurvivorRef → Bool) (key : SurvivorRef → Text) (n : ℕ) (xs : List SurvivorRef)
    (ks : List Text)
    → count_of p (flatten (map (taken key n xs) ks))
      ≤ count_of p (flatten (map (λ k. members key k xs) ks))
taken-le p key n xs [] = omega arith
taken-le p key n xs (k ∷ ks) = omega (
  arith,
  count_of-append p (taken key n xs k) (flatten (map (taken key n xs) ks)),
  count_of-append p (members key k xs) (flatten (map (λ j. members key j xs) ks)),
  count_of-take p n (sort_by id_before (members key k xs)),
  count_of-perm p (sort_by-perm id_before (members key k xs)),
  taken-le p key n xs ks,
)

pub takes_first_per_key-some :
    (p : SurvivorRef → Bool) (survivors : List SurvivorRef) (key : SurvivorRef → Text) (n : ℕ)
    → count_of p (takes_first_per_key survivors key n) ≤ count_of p survivors
takes_first_per_key-some p survivors key n =
    let sorted = sort_by position_before survivors in
    let ks = distinct (map key sorted) in
    let whole = count_of-perm p (group_by-perm key sorted) in
    rw (takes_first_per_key-eq survivors key n) (
      omega (
        arith,
        taken-le p key n sorted ks,
        whole,
        ap (λ l. count_of p (flatten l))
            (map-map (λ (g : Text × List SurvivorRef). g.1) (λ k. (k, members key k sorted)) ks),
        count_of-perm p (sort_by-perm position_before survivors),
      ))

pub surfaced_of-decision_for :
    (surfaced capped : List SurvivorRef) → surfaced_of (decision_for surfaced capped) ≡ surfaced
surfaced_of-decision_for surfaced [] = refl
surfaced_of-decision_for surfaced (s ∷ capped) = refl

-- What `cap_survivors` reports, before it is sorted.
abbrev pub kept : CapSurvivorsCommand → List SurvivorRef
kept command =
    takes_first_per_key
      (takes_first_per_key (with_distinct_ids command.survivors) line_key_of command.caps.per_line)
      file_key_of command.caps.per_file

pub count_of-surfaced_of :
    (p : SurvivorRef → Bool) (command : CapSurvivorsCommand)
    → count_of p (surfaced_of (cap_survivors command)) ≡ count_of p (kept command)
unfolding cap_survivors
count_of-surfaced_of p command =
    let surfaced = sort_by position_before (kept command) in
    ap (count_of p) (
      surfaced_of-decision_for surfaced (
        sort_by position_before
          (not_among (survivor_ids_of surfaced) (with_distinct_ids command.survivors))))
    ∙ count_of-perm p (sort_by-perm position_before (kept command))

abbrev pub on_line_of : SurvivorRef → SurvivorRef → Bool
on_line_of s r = r.file_name == s.file_name && r.line == s.line

count_of-on_line_of :
    (s : SurvivorRef) (xs : List SurvivorRef)
    → count_of (on_line_of s) xs ≤ count_of (λ r. line_key_of r == line_key_of s) xs
count_of-on_line_of s [] = omega arith
count_of-on_line_of s (r ∷ xs) = elim (Bool-cases (on_line_of s r)) [
  | inr n ↦ rw n (omega (arith, count_of-on_line_of s xs))
  | inl y ↦
      let file : r.file_name ≡ s.file_name = ground (arith, text_beq_iff r.file_name s.file_name) in
      let line : r.line ≡ s.line = ground arith in
      let same : line_key_of r ≡ line_key_of s = ap₂ (λ f l. f ++ 0 ∷ decimal l) file line in
      rw (y, (text_beq_iff (line_key_of r) (line_key_of s)).1 same)
        (omega (arith, count_of-on_line_of s xs))
]

-- At most `perFile` survivors of any one file are surfaced, and at most `perLine` that share the
-- file and the line of any one survivor.
pub cap_survivors-le :
    (command : CapSurvivorsCommand) (s : SurvivorRef)
    → (count_of (λ r. r.file_name == s.file_name) (surfaced_of (cap_survivors command))
        ≤ command.caps.per_file)
      × (count_of (on_line_of s) (surfaced_of (cap_survivors command)) ≤ command.caps.per_line)
cap_survivors-le command s =
    let picks =
      takes_first_per_key (with_distinct_ids command.survivors) line_key_of command.caps.per_line in
    let same_key = λ (r : SurvivorRef). line_key_of r == line_key_of s in
    (
      omega (
        arith,
        count_of-surfaced_of (λ r. file_key_of r == s.file_name) command,
        takes_first_per_key-le picks file_key_of command.caps.per_file s.file_name,
      ),
      omega (
        arith,
        count_of-on_line_of s (surfaced_of (cap_survivors command)),
        count_of-surfaced_of same_key command,
        takes_first_per_key-some same_key picks file_key_of command.caps.per_file,
        takes_first_per_key-le (with_distinct_ids command.survivors) line_key_of
            command.caps.per_line (line_key_of s),
      ),
    )
