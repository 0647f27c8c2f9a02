-- ===== src/Verdict/Compare/Agrees.antt =====
-- When two reports match.
use stryker_js_effect.Prelude.{
  Text, text_eq, text_beq_iff, ◌==◌, ==_refl, text_ltb, contains, contains-append,
  contains-distinct, contains-sort_by, distinct, get_somes, Dict, lookup, lookup-insert, insert,
  Bool, true, false, not, ◌&&◌, ◌||◌, Bool-cases, Option, none, some, Option-cases, Result, succeed,
  List, [], ◌∷◌, ◌++◌, map, ◌≡◌, ◌↔◌, refl, ap, ◌∙◌, subst, inl, inr, arith,
}
use stryker_js_effect.Verdict.Compare.{
  VerdictStatus, VerdictMismatch, VerdictsMatch, VerdictsDiffer, CompareVerdictsCommand, mutants_in,
  ids_in, set_statuses, statuses_of, status_or_absent, mismatch_of, mismatch_at, without_noise,
  compared_ids_of, mismatches_of, unless_differing, compare_verdicts, StatusValue, status_text,
  inherited_member, value_beq, inherited_or_absent, all_made,
}

lookup-set_statuses :
    (id : Text) (mutants : List VerdictStatus) (statuses : Dict Text)
    → contains id (map (λ m. m.id) mutants) ≡ false
    → lookup id (set_statuses statuses mutants) ≡ lookup id statuses
lookup-set_statuses id [] statuses h = refl
lookup-set_statuses id (m ∷ mutants) statuses h =
    let other : (m.id == id) ≡ false = ground arith in
    lookup-set_statuses id mutants (insert m.id m.status statuses) (ground arith)
    ∙ lookup-insert m.id id m.status statuses
    ∙ rw other refl

contains-without_noise :
    (id : Text) (noise ids : List Text)
    → contains id (without_noise noise ids) ≡ (contains id ids && not (contains id noise))
contains-without_noise id noise [] = refl
contains-without_noise id noise (x ∷ ids) =
    ground (arith, contains-without_noise id noise ids, text_beq_iff x id)

none_there {ℓ} :
    {A : Type ℓ} (f : Text → Option A) (ids : List Text) (id : Text)
    → get_somes (map f ids) ≡ []
    → contains id ids ≡ true
    → f id ≡ none
none_there f [] id e c = absurd (ground arith)
none_there f (x ∷ ids) id e c = elim (Option-cases (f x)) [
  | inr (a, s) ↦ absurd (let e' = rw s at e in ground arith)
  | inl n ↦ elim (Bool-cases (x == id)) [
    | inl same ↦ subst (λ t. f t ≡ none) ((text_beq_iff x id).0 same) n
    | inr other ↦ none_there f ids id (rw n at e) (rw other at c)
  ]
]

none_at_all {ℓ} :
    {A : Type ℓ} (f : Text → Option A) (ids : List Text)
    → ((id : Text) → contains id ids ≡ true → f id ≡ none)
    → get_somes (map f ids) ≡ []
none_at_all f [] h = refl
none_at_all f (x ∷ ids) h =
    rw (h x (ap (λ b. b || contains x ids) (==_refl x)))
      (none_at_all f ids (λ id c. h id (ground arith)))

value_beq_refl : (v : StatusValue) → value_beq v v ≡ true
value_beq_refl (status_text a) = ==_refl a
value_beq_refl (inherited_member a) = ==_refl a

abbrev pub matches_well : Option (Result VerdictsDiffer VerdictsMatch) → Bool
matches_well (some (succeed decision)) = true
matches_well _ = false

unless_differing_iff :
    (ms : List (Option VerdictMismatch))
    → (matches_well (unless_differing (all_made ms)) ≡ true) ↔ (ms ≡ [])
unless_differing_iff [] = (λ h. refl, λ h. refl)
unless_differing_iff (none ∷ ms) = ground arith
unless_differing_iff (some m ∷ ms) = elim (Option-cases (all_made ms)) [
  | inl e ↦ rw e (ground arith)
  | inr (made, e) ↦ rw e (ground arith)
]

contains-compared_ids_of :
    (command : CompareVerdictsCommand) (id : Text)
    → contains id (compared_ids_of command) ≡ (
        (contains id (ids_in command.baseline) || contains id (ids_in command.fresh))
        && not (contains id command.noise))
contains-compared_ids_of command id =
    let ids = ids_in command.baseline ++ ids_in command.fresh in
    contains-sort_by text_ltb id (without_noise command.noise (distinct ids))
    ∙ contains-without_noise id command.noise (distinct ids)
    ∙ ap (λ b. b && not (contains id command.noise))
        (contains-distinct id ids
          ∙ contains-append id (ids_in command.baseline) (ids_in command.fresh))

module _ (inherits : Text → Bool) (command : CompareVerdictsCommand) where
  abbrev pub status_before : Text → StatusValue
  status_before id = status_or_absent inherits (statuses_of command.baseline) id

  abbrev pub status_after : Text → StatusValue
  status_after id = status_or_absent inherits (statuses_of command.fresh) id

  absent_from_both :
      (id : Text)
      → (contains id (ids_in command.baseline) || contains id (ids_in command.fresh)) ≡ false
      → value_beq (status_before id) (status_after id) ≡ true
  unfolding lookup
  absent_from_both id h =
      let before = lookup-set_statuses id (mutants_in command.baseline) [] (ground arith) in
      let after = lookup-set_statuses id (mutants_in command.fresh) [] (ground arith) in
      rw (before, after) (value_beq_refl (inherited_or_absent inherits id))

module _ (inherits : Text → Bool)
    (make_mismatch : Text → StatusValue → StatusValue → Option VerdictMismatch) where
  mismatch_of-none :
      (id : Text) (before after : StatusValue)
      → (mismatch_of inherits make_mismatch id before after ≡ none)
        ↔ (value_beq before after ≡ true)
  mismatch_of-none id before after = elim (Bool-cases (value_beq before after)) [
    | inl y ↦ rw y (λ h. refl, λ h. refl)
    | inr n ↦ rw n (λ h. cc h, λ h. cc h)
  ]

  -- Two reports match if and only if every id is noise or has the same status in both. Of two
  -- mutants of a report with one id the later one counts. An id that a report does not have stands
  -- for what every object inherits under it, or for the status `absent` where that is nothing.
  pub compare_verdicts-agrees :
      (command : CompareVerdictsCommand)
      → (matches_well (compare_verdicts inherits make_mismatch command) ≡ true) ↔ (
          (id : Text)
          → (contains id command.noise
              || value_beq (status_before inherits command id) (status_after inherits command id))
            ≡ true)
  unfolding compare_verdicts mismatches_of
  compare_verdicts-agrees command =
      let f =
        mismatch_at inherits make_mismatch (statuses_of command.baseline)
          (statuses_of command.fresh) in
      let outcome = unless_differing_iff (get_somes (map f (compared_ids_of command))) in
      (
        λ h id. elim (Bool-cases (contains id command.noise)) [
          | inl y ↦ rw y refl
          | inr n ↦
              rw n
                (elim (Bool-cases
                  (contains id (ids_in command.baseline) || contains id (ids_in command.fresh))) [
                    | inl there ↦
                        (mismatch_of-none id (status_before inherits command id)
                            (status_after inherits command id)).0
                          (none_there f (compared_ids_of command) id (outcome.0 h)
                            (contains-compared_ids_of command id ∙ rw (there, n) refl))
                    | inr nowhere ↦ absent_from_both inherits command id nowhere
                  ])
        ],
        λ h. outcome.1 (
            none_at_all f (compared_ids_of command) (λ id c.
              let now = contains-compared_ids_of command id in
              (mismatch_of-none id (status_before inherits command id)
                  (status_after inherits command id)).1
                (ground (arith, h id, now, c)))),
      )
