-- ===== src/Survivors/Cap/Partition.antt =====
-- Which survivors are reported, and which are counted as capped.
use stryker_js_effect.Prelude.{
  nat_eq, ◌+◌, Text, text_eq, text_beq_iff, ◌==◌, contains, sort_by, sort_by-perm, Bool, true,
  false, not, Bool-cases, List, [], ◌∷◌, if◌then◌else◌, ◌≡◌, refl, sym, ◌∙◌, subst, inl, inr, arith,
  count_of, count_of-perm,
}
use stryker_js_effect.Survivors.Cap.{
  SurvivorRef, CapSurvivorsCommand, position_before, line_key_of, file_key_of, takes_first_per_key,
  without_id, with_distinct_ids, not_among, survivor_ids_of, decision_for, cap_survivors,
  surfaced_of, capped_of,
}
use stryker_js_effect.Survivors.Cap.Bounds.{
  kept, count_of-surfaced_of, surfaced_of-decision_for, takes_first_per_key-some,
}

module _ (i : Text) where
  abbrev pub is_of : SurvivorRef → Bool
  is_of s = s.id == i

  count_of-without_id :
      (j : Text) (xs : List SurvivorRef)
      → count_of is_of (without_id j xs) ≡ (if j == i then 0 else count_of is_of xs)
  count_of-without_id j [] = ground arith
  count_of-without_id j (s ∷ xs) =
      ground (
        arith,
        count_of-without_id j xs,
        text_beq_iff s.id j,
        text_beq_iff s.id i,
        text_beq_iff j i,
      )

  count_of-distinct :
      (xs : List SurvivorRef)
      → count_of is_of (with_distinct_ids xs) ≡ (if contains i (survivor_ids_of xs) then 1 else 0)
  count_of-distinct [] = refl
  count_of-distinct (s ∷ xs) =
      ground (arith, count_of-without_id s.id (with_distinct_ids xs), count_of-distinct xs)

  count_of-not_among :
      (ids : List Text) (xs : List SurvivorRef)
      → count_of is_of (not_among ids xs) ≡ (if contains i ids then 0 else count_of is_of xs)
  count_of-not_among ids [] = ground arith
  count_of-not_among ids (s ∷ xs) = elim (Bool-cases (s.id == i)) [
    | inl same ↦
        let e = (text_beq_iff s.id i).0 same in
        elim (Bool-cases (contains i ids)) [
          | inl c ↦
              rw (same, c, subst (λ t. contains t ids ≡ true) (sym e) c)
                (ground (arith, count_of-not_among ids xs))
          | inr c ↦
              rw (same, c, subst (λ t. contains t ids ≡ false) (sym e) c)
                (ground (arith, count_of-not_among ids xs))
        ]
    | inr other ↦ ground (arith, count_of-not_among ids xs)
  ]

  contains-survivor_ids_of :
      (xs : List SurvivorRef) → contains i (survivor_ids_of xs) ≡ not (count_of is_of xs == 0)
  contains-survivor_ids_of [] = refl
  contains-survivor_ids_of (s ∷ xs) = ground (arith, contains-survivor_ids_of xs)

  capped_of-decision_for :
      (surfaced capped : List SurvivorRef) → capped_of (decision_for surfaced capped) ≡ capped
  capped_of-decision_for surfaced [] = refl
  capped_of-decision_for surfaced (s ∷ capped) = refl

  count_of-capped_of :
      (command : CapSurvivorsCommand)
      → count_of is_of (capped_of (cap_survivors command)) ≡ (
          if contains i (survivor_ids_of (surfaced_of (cap_survivors command)))
          then 0
          else count_of is_of (with_distinct_ids command.survivors))
  unfolding cap_survivors
  count_of-capped_of command =
      let surfaced = sort_by position_before (kept command) in
      let rest = not_among (survivor_ids_of surfaced) (with_distinct_ids command.survivors) in
      rw
        (
          capped_of-decision_for surfaced (sort_by position_before rest),
          surfaced_of-decision_for surfaced (sort_by position_before rest),
        )
        (count_of-perm is_of (sort_by-perm position_before rest)
          ∙ count_of-not_among (survivor_ids_of surfaced) (with_distinct_ids command.survivors))

-- Each id of the survivors is either surfaced or capped, in one survivor of the two lists together;
-- no other id is in them.
pub cap_survivors_complete :
    (command : CapSurvivorsCommand) (i : Text)
    → count_of (is_of i) (surfaced_of (cap_survivors command))
        + count_of (is_of i) (capped_of (cap_survivors command))
      ≡ (if contains i (survivor_ids_of command.survivors) then 1 else 0)
cap_survivors_complete command i =
    let surfaced = surfaced_of (cap_survivors command) in
    let picks =
      takes_first_per_key (with_distinct_ids command.survivors) line_key_of command.caps.per_line in
    ground (
      arith,
      count_of-capped_of i command,
      contains-survivor_ids_of i surfaced,
      count_of-surfaced_of (is_of i) command,
      count_of-distinct i command.survivors,
      takes_first_per_key-some (is_of i) picks file_key_of command.caps.per_file,
      takes_first_per_key-some (is_of i) (with_distinct_ids command.survivors) line_key_of
          command.caps.per_line,
    )
