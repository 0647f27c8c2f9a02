-- ===== src/Incremental/Reuse.antt =====
-- When a verdict is remembered, and from which record.
use stryker_js_effect.Prelude.{
  ℕ, Text, text_eq, get_elem?, get_elem?-map, get_elem?-map-some, true, false, Option, none, some,
  Option-cases, Bool-cases, List, [], ◌∷◌, ◌++◌, map, foldl, if◌then◌else◌, All, All-append, ◌≡◌,
  ◌↔◌, refl, ap, sym, ◌∙◌, subst, inl, inr, arith, append-nil, append_assoc, map-map, fun_ext,
}
use stryker_js_effect.Mutant.{Mutant}
use stryker_js_effect.Incremental.{
  PreviousReuseRecord, IncrementalDiffCommand, MutantRemembered, IncrementalDiffDecision,
  mutant_remembered, mutant_to_run,
}
use stryker_js_effect.Incremental.Decide.{
  matches, newest_matching_of, remembered_of, to_run_of, flaky_dependent, rememberable_of,
  records_by_id_of, decide_for_mutant, forced_run, incremental_diff,
}

abbrev keep :
    IncrementalDiffCommand
    → Option PreviousReuseRecord
    → PreviousReuseRecord
    → Option PreviousReuseRecord
keep command found r = if matches command r then some r else found

-- `records` has `r`, which matches, and nothing that matches behind it.
pub record Newest (command : IncrementalDiffCommand) (records : List PreviousReuseRecord)
    (r : PreviousReuseRecord) : Type 0 where
  pub older : List PreviousReuseRecord
  pub newer : List PreviousReuseRecord
  pub place : records ≡ older ++ r ∷ newer
  pub fits : matches command r ≡ true
  pub last : All (λ n. matches command n ≡ false) newer

abbrev Found :
    IncrementalDiffCommand → List PreviousReuseRecord → Option PreviousReuseRecord → Type 0
Found command records none = All (λ n. matches command n ≡ false) records
Found command records (some r) = Newest command records r

newest_snoc :
    (command : IncrementalDiffCommand) (rs : List PreviousReuseRecord)
    (found : Option PreviousReuseRecord) (r : PreviousReuseRecord)
    → Found command rs found
    → Found command (rs ++ r ∷ []) (keep command found r)
newest_snoc command rs found r h = elim (Bool-cases (matches command r)) [
  | inl m ↦ rw m (record { older = rs; newer = []; place = refl; fits = m; last = tt })
  | inr n ↦ rw n (go found h n)
]
  where
    go :
        (found : Option PreviousReuseRecord)
        → Found command rs found
        → matches command r ≡ false
        → Found command (rs ++ r ∷ []) found
    go none h n = All-append _ rs (r ∷ []) h (n, tt)
    go (some x) h n = record {
      older = h.older;
      newer = h.newer ++ r ∷ [];
      place = cc (h.place, append_assoc h.older (x ∷ h.newer) (r ∷ []));
      fits = h.fits;
      last = All-append _ h.newer (r ∷ []) h.last (n, tt);
    }

foldl-Found :
    (command : IncrementalDiffCommand) (done rs : List PreviousReuseRecord)
    (found : Option PreviousReuseRecord)
    → Found command done found
    → Found command (done ++ rs) (foldl (keep command) found rs)
foldl-Found command done [] found h = rw append-nil h
foldl-Found command done (r ∷ rs) found h =
    subst (λ l. Found command l (foldl (keep command) found (r ∷ rs)))
      (append_assoc done (r ∷ []) rs)
      (foldl-Found command (done ++ r ∷ []) rs (keep command found r)
        (newest_snoc command done found r h))

newest_matching_of-Found :
    (command : IncrementalDiffCommand) (rs : List PreviousReuseRecord)
    → Found command rs (newest_matching_of rs command)
unfolding newest_matching_of
newest_matching_of-Found command rs = foldl-Found command [] rs none tt

-- What has to hold for the verdict of the record `r` to be remembered for `mutant`.
pub record Reusable (command : IncrementalDiffCommand) (mutant : Mutant) (r : PreviousReuseRecord)
    : Type 0 where
  pub steady : flaky_dependent command mutant ≡ false
  pub free : mutant.subsumption ≡ none
  pub newest : Newest command (records_by_id_of command.previous_records mutant.id) r

decide_for_mutant-Reusable :
    (command : IncrementalDiffCommand) (mutant : Mutant) (m : MutantRemembered)
    → decide_for_mutant command mutant ≡ mutant_remembered m
    → (r : PreviousReuseRecord) × (m ≡ remembered_of mutant r) × Reusable command mutant r
unfolding decide_for_mutant rememberable_of to_run_of
decide_for_mutant-Reusable command mutant m h =
    elim (Option-cases
      (newest_matching_of (records_by_id_of command.previous_records mutant.id) command)) [
        | inl e ↦ absurd (ground arith)
        | inr (r, e) ↦ (
          r,
          ground arith,
          record {
            steady = ground arith;
            free = ground arith;
            newest =
                subst (Found command (records_by_id_of command.previous_records mutant.id)) e
                  (newest_matching_of-Found command _);
          },
        )
      ]

foldl_skip :
    (command : IncrementalDiffCommand) (rs : List PreviousReuseRecord)
    (found : Option PreviousReuseRecord)
    → All (λ n. matches command n ≡ false) rs
    → foldl (keep command) found rs ≡ found
foldl_skip command [] found h = refl
foldl_skip command (r ∷ rs) found h = rw h.0 (foldl_skip command rs found h.1)

foldl_split :
    (command : IncrementalDiffCommand) (older newer : List PreviousReuseRecord)
    (r : PreviousReuseRecord) (found : Option PreviousReuseRecord)
    → matches command r ≡ true
    → All (λ n. matches command n ≡ false) newer
    → foldl (keep command) found (older ++ r ∷ newer) ≡ some r
foldl_split command [] newer r found m h =
    let e : keep command found r ≡ some r = rw m in
    ap (λ s. foldl (keep command) s newer) e ∙ foldl_skip command newer (some r) h
foldl_split command (x ∷ older) newer r found m h =
    foldl_split command older newer r (keep command found x) m h

Newest-eq :
    (command : IncrementalDiffCommand) (rs : List PreviousReuseRecord) (r : PreviousReuseRecord)
    → Newest command rs r
    → newest_matching_of rs command ≡ some r
unfolding newest_matching_of
Newest-eq command rs r h =
    ap (foldl (keep command) none) h.place
    ∙ foldl_split command h.older h.newer r none h.fits h.last

remembered_of-Reusable :
    (command : IncrementalDiffCommand) (mutant : Mutant) (r : PreviousReuseRecord)
    → Reusable command mutant r
    → decide_for_mutant command mutant ≡ mutant_remembered (remembered_of mutant r)
unfolding decide_for_mutant rememberable_of
remembered_of-Reusable command mutant r h =
    ground (arith, Newest-eq command _ r h.newest, h.steady, h.free)

get_elem?-same :
    {A : Type 0} (xs : List A) (i : ℕ) {a b : A}
    → get_elem? xs i ≡ some a
    → get_elem? xs i ≡ some b
    → a ≡ b
get_elem?-same xs i p q = ground arith

-- The decision at the place of a mutant remembers a verdict exactly when the run is not forced,
-- the mutant depends on no flaky test and has no subsumption, and it is the verdict of the last
-- record of that mutant that is reusable and has the keys of this run; every field of the verdict
-- is that record's.
pub incremental_diff-remembers_iff :
    (command : IncrementalDiffCommand) (i : ℕ) (mutant : Mutant) (m : MutantRemembered)
    → get_elem? command.current_mutants i ≡ some mutant
    → (get_elem? (incremental_diff command) i ≡ some (mutant_remembered m)) ↔ (
        (command.force ≡ false)
        × ((r : PreviousReuseRecord) × (m ≡ remembered_of mutant r) × Reusable command mutant r))
unfolding incremental_diff
incremental_diff-remembers_iff command i mutant m at = elim (Bool-cases command.force) [
  | inl forced ↦ (
    λ h. absurd (
        let (x, e, d) = get_elem?-map forced_run command.current_mutants i (simp forced at h) in
        ground arith),
    λ (unforced, rest). absurd (ground arith),
  )
  | inr unforced ↦ (
    λ h.
        let (x, e, d) =
          get_elem?-map (decide_for_mutant command) command.current_mutants i
            (simp unforced at h) in
        (
          unforced,
          decide_for_mutant-Reusable command mutant m (
              subst (λ y. decide_for_mutant command y ≡ mutant_remembered m)
                (get_elem?-same command.current_mutants i e at) d),
        ),
    λ (_, (r, e, ok)). simp unforced (
        get_elem?-map-some (decide_for_mutant command) command.current_mutants i at
        ∙ ap some (remembered_of-Reusable command mutant r ok ∙ ap mutant_remembered (sym e))),
  )
]

abbrev pub mutant_id_of : IncrementalDiffDecision → Text
mutant_id_of (mutant_remembered m) = m.mutant_id
mutant_id_of (mutant_to_run mutant reason evidence) = mutant.id

decide_for_mutant-id :
    (command : IncrementalDiffCommand) (mutant : Mutant)
    → mutant_id_of (decide_for_mutant command mutant) ≡ mutant.id
unfolding decide_for_mutant remembered_of to_run_of rememberable_of
decide_for_mutant-id command mutant = ground arith

-- There is one decision for each mutant of the run, in the same order, and each is about its mutant.
pub incremental_diff-ids :
    (command : IncrementalDiffCommand)
    → map mutant_id_of (incremental_diff command)
      ≡ map (λ mutant. mutant.id) command.current_mutants
unfolding incremental_diff
incremental_diff-ids command = elim (Bool-cases command.force) [
  | inl forced ↦ simp (forced, map-map)
  | inr unforced ↦ simp unforced (
      map-map mutant_id_of (decide_for_mutant command) command.current_mutants
      ∙ ap (λ f. map f command.current_mutants) (fun_ext (decide_for_mutant-id command)))
]
