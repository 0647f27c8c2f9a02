-- ===== src/Verdict/Compare.antt =====
-- compare-verdicts.workflow.ts: the statuses of the mutants of two reports.
pub mod Agrees
use mathlib.Core.Option
use stryker_js_effect.Prelude.{
  Text, text, text_eq, ◌==◌, text_ltb, contains, distinct, sort_by, flatten, get_somes, Dict,
  lookup, insert, get_or_else, Bool, true, false, Option, none, some, Result, fail, succeed, List,
  [], ◌∷◌, ◌++◌, map, if◌then◌else◌,
}

pub record VerdictStatus : Type 0 where
  pub id : Text
  pub status : Text

-- The mutants of each file.
abbrev pub VerdictReport : Type 0
VerdictReport = Dict (List VerdictStatus)

pub record VerdictMismatch : Type 0 where
  pub id : Text
  pub baseline : Text
  pub fresh : Text

pub record CompareVerdictsCommand : Type 0 where
  pub baseline : VerdictReport
  pub fresh : VerdictReport
  pub noise : List Text

pub data VerdictsMatch : Type 0 where
  verdicts_match : VerdictsMatch

pub data VerdictsDiffer : Type 0 where
  verdicts_differ : List VerdictMismatch → VerdictsDiffer

abbrev pub mutants_in : VerdictReport → List VerdictStatus
mutants_in report = flatten (map (λ file. file.1) report)

abbrev pub ids_in : VerdictReport → List Text
ids_in report = map (λ mutant. mutant.id) (mutants_in report)

-- `Object.fromEntries`: the own entries of the object. Of two with one key the later one stays.
abbrev pub set_statuses : Dict Text → List VerdictStatus → Dict Text
set_statuses statuses [] = statuses
set_statuses statuses (m ∷ mutants) = set_statuses (insert m.id m.status statuses) mutants

abbrev pub statuses_of : VerdictReport → Dict Text
statuses_of report = set_statuses [] (mutants_in report)

-- What an object has under a key: a status of its own, or what `Object.prototype` has under that
-- key, which is an object or a function.
pub data StatusValue : Type 0 where
  status_text : Text → StatusValue
  inherited_member : Text → StatusValue

-- `===`; the members that are compared are under the same key.
abbrev pub value_beq : StatusValue → StatusValue → Bool
value_beq (status_text a) (status_text b) = a == b
value_beq (inherited_member a) (inherited_member b) = a == b
value_beq _ _ = false

abbrev pub without_noise : List Text → List Text → List Text
without_noise noise [] = []
without_noise noise (id ∷ ids) =
    let rest = without_noise noise ids in if contains id noise then rest else id ∷ rest

abbrev pub compared_ids_of : CompareVerdictsCommand → List Text
compared_ids_of command =
    sort_by text_ltb
      (without_noise command.noise (distinct (ids_in command.baseline ++ ids_in command.fresh)))

-- Where the mismatches are made, or `none` where making one throws.
abbrev pub all_made : List (Option VerdictMismatch) → Option (List VerdictMismatch)
all_made [] = some []
all_made (none ∷ ms) = none
all_made (some m ∷ ms) = Option.map (λ made. m ∷ made) (all_made ms)

-- The outcome, or `none` where the comparison throws.
abbrev pub unless_differing :
    Option (List VerdictMismatch) → Option (Result VerdictsDiffer VerdictsMatch)
unless_differing none = none
unless_differing (some []) = some (succeed verdicts_match)
unless_differing (some (m ∷ mismatches)) = some (fail (verdicts_differ (m ∷ mismatches)))

-- `inherits` says under which keys `Object.prototype` has a member.
module _ (inherits : Text → Bool) where
  abbrev pub inherited_or_absent : Text → StatusValue
  inherited_or_absent id = if inherits id then inherited_member id else status_text (text "absent")

  -- An own status comes before what the object inherits.
  abbrev pub status_or_absent : Dict Text → Text → StatusValue
  status_or_absent statuses id =
      get_or_else (Option.map status_text (lookup id statuses)) (inherited_or_absent id)

-- `make_mismatch` is `VerdictMismatch.make` of the schema library, `none` where it throws, because
-- a value is no text.
module _ (inherits : Text → Bool)
    (make_mismatch : Text → StatusValue → StatusValue → Option VerdictMismatch) where
  abbrev pub mismatch_of : Text → StatusValue → StatusValue → Option (Option VerdictMismatch)
  mismatch_of id before after =
      if value_beq before after then none else some (make_mismatch id before after)

  abbrev pub mismatch_at : Dict Text → Dict Text → Text → Option (Option VerdictMismatch)
  mismatch_at baseline fresh id =
      mismatch_of id (status_or_absent inherits baseline id) (status_or_absent inherits fresh id)

  unfoldable pub mismatches_of : CompareVerdictsCommand → Option (List VerdictMismatch)
  mismatches_of command = all_made (
      get_somes (
        map (mismatch_at (statuses_of command.baseline) (statuses_of command.fresh))
          (compared_ids_of command)))

  unfoldable pub compare_verdicts :
      CompareVerdictsCommand → Option (Result VerdictsDiffer VerdictsMatch)
  compare_verdicts command = unless_differing (mismatches_of command)
