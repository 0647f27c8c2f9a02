-- ===== src/Survivors/Cap.antt =====
-- cap-survivors.workflow.ts: at most so many survivors of a line and of a file are reported.
pub mod Bounds
pub mod Partition
use stryker_js_effect.Prelude.{
  ℕ, ltb, Text, text_eq, nat_eq, ◌==◌, text_ltb, decimal, contains, take, is_empty, filter, flatten,
  group_by, sort_by, Bool, true, false, not, ◌&&◌, ◌||◌, List, [], ◌∷◌, ◌++◌, map, if◌then◌else◌,
}

pub record SurvivorRef : Type 0 where
  pub id : Text
  pub file_name : Text
  pub line : ℕ

pub record SurfacingCaps : Type 0 where
  pub per_line : ℕ
  pub per_file : ℕ

pub data CapSurvivorsDecision : Type 0 where
  survivors_within_caps : List SurvivorRef → CapSurvivorsDecision
  survivors_capped : List SurvivorRef → List SurvivorRef → CapSurvivorsDecision

pub record CapSurvivorsCommand : Type 0 where
  pub survivors : List SurvivorRef
  pub caps : SurfacingCaps

abbrev pub id_before : SurvivorRef → SurvivorRef → Bool
id_before left right = text_ltb left.id right.id

-- `positionOrder`: by file, then by line, then by id.
abbrev pub position_before : SurvivorRef → SurvivorRef → Bool
position_before left right =
    text_ltb left.file_name right.file_name
    || left.file_name == right.file_name
      && (ltb left.line right.line || left.line == right.line && id_before left right)

abbrev pub line_key_of : SurvivorRef → Text
line_key_of survivor = survivor.file_name ++ 0 ∷ decimal survivor.line

abbrev pub file_key_of : SurvivorRef → Text
file_key_of survivor = survivor.file_name

unfoldable pub takes_first_per_key : List SurvivorRef → (SurvivorRef → Text) → ℕ → List SurvivorRef
takes_first_per_key survivors key_of per_key = flatten (
    map (λ group. take per_key (sort_by id_before group.1))
      (group_by key_of (sort_by position_before survivors)))

abbrev pub without_id : Text → List SurvivorRef → List SurvivorRef
without_id id [] = []
without_id id (s ∷ survivors) =
    let rest = without_id id survivors in if s.id == id then rest else s ∷ rest

-- The first survivor of each id.
abbrev pub with_distinct_ids : List SurvivorRef → List SurvivorRef
with_distinct_ids [] = []
with_distinct_ids (s ∷ survivors) = s ∷ without_id s.id (with_distinct_ids survivors)

abbrev pub survivor_ids_of : List SurvivorRef → List Text
survivor_ids_of survivors = map (λ s. s.id) survivors

abbrev pub not_among : List Text → List SurvivorRef → List SurvivorRef
not_among ids [] = []
not_among ids (s ∷ survivors) =
    let rest = not_among ids survivors in if contains s.id ids then rest else s ∷ rest

abbrev pub decision_for : List SurvivorRef → List SurvivorRef → CapSurvivorsDecision
decision_for surfaced [] = survivors_within_caps surfaced
decision_for surfaced (s ∷ capped) = survivors_capped surfaced (s ∷ capped)

unfoldable pub cap_survivors : CapSurvivorsCommand → CapSurvivorsDecision
unfolding takes_first_per_key
cap_survivors command =
    let distinct = with_distinct_ids command.survivors in
    let picks = takes_first_per_key distinct line_key_of command.caps.per_line in
    let surfaced =
      sort_by position_before (takes_first_per_key picks file_key_of command.caps.per_file) in
    decision_for surfaced (sort_by position_before (not_among (survivor_ids_of surfaced) distinct))

abbrev pub surfaced_of : CapSurvivorsDecision → List SurvivorRef
surfaced_of (survivors_within_caps surfaced) = surfaced
surfaced_of (survivors_capped surfaced capped) = surfaced

abbrev pub capped_of : CapSurvivorsDecision → List SurvivorRef
capped_of (survivors_within_caps surfaced) = []
capped_of (survivors_capped surfaced capped) = capped
