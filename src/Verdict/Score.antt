-- ===== src/Verdict/Score.antt =====
-- judge-mutation-score.workflow.ts: the mutation score against the breaking threshold.
use stryker_js_effect.Prelude.{Bool, true, Option, none, some, ◌≡◌, ◌↔◌, refl, arith, if◌then◌else◌}
use stryker_js_effect.Verdict.Exit.{ExitClass, verdict_fail}

-- `Report.MutationScore`; `N` is the type of percentages.
pub data MutationScore (N : Type 0) : Type 0 where
  scored : N → MutationScore N
  unscored : MutationScore N

pub data BreakThreshold (N : Type 0) : Type 0 where
  no_break_threshold : BreakThreshold N
  break_at : N → BreakThreshold N

pub data ScoreJudgement (N : Type 0) : Type 0 where
  scored_without_threshold : N → ScoreJudgement N
  score_at_or_above_threshold : N → N → ScoreJudgement N
  score_below_threshold : N → N → ScoreJudgement N
  unscored_against_threshold : N → ScoreJudgement N
  unscored_without_threshold : ScoreJudgement N

module _ {N : Type 0} where
  -- `BreakThresholdFromOption`: the option that decodes to a threshold, and back.
  pub break_threshold_from_option : Option N → BreakThreshold N
  break_threshold_from_option none = no_break_threshold
  break_threshold_from_option (some threshold) = break_at threshold

  pub break_threshold_to_option : BreakThreshold N → Option N
  break_threshold_to_option no_break_threshold = none
  break_threshold_to_option (break_at threshold) = some threshold

  -- The field `exitClass` of each case, `None` for `null`.
  abbrev pub exit_class_of : ScoreJudgement N → Option ExitClass
  exit_class_of (score_below_threshold percentage threshold) = some verdict_fail
  exit_class_of _ = none

-- `less` is `<` on percentages.
module _ {N : Type 0} (less : N → N → Bool) where
  abbrev pub scored_against : N → N → ScoreJudgement N
  scored_against percentage threshold =
      if less percentage threshold
      then score_below_threshold percentage threshold
      else score_at_or_above_threshold percentage threshold

  unfoldable pub judge_mutation_score : MutationScore N → BreakThreshold N → ScoreJudgement N
  judge_mutation_score (scored percentage) no_break_threshold = scored_without_threshold percentage
  judge_mutation_score (scored percentage) (break_at threshold) =
      scored_against percentage threshold
  judge_mutation_score unscored no_break_threshold = unscored_without_threshold
  judge_mutation_score unscored (break_at threshold) = unscored_against_threshold threshold

  -- The run fails its verdict exactly when there are a score and a threshold and the score lies
  -- below it: a run without a score and one without a threshold never fail it.
  pub judge_mutation_score-fails_iff :
      (score : MutationScore N) (option : Option N)
      → (exit_class_of (judge_mutation_score score (break_threshold_from_option option))
          ≡ some verdict_fail)
        ↔ ((p : N) × (t : N) × (score ≡ scored p) × (option ≡ some t) × (less p t ≡ true))
  unfolding judge_mutation_score break_threshold_from_option
  judge_mutation_score-fails_iff (scored p) (some t) =
      (λ h. (p, t, refl, refl, ground arith), λ (q, u, e, f, l). ground arith)
  judge_mutation_score-fails_iff (scored p) none =
      (λ h. absurd (ground arith), λ (q, u, e, f, l). absurd (ground arith))
  judge_mutation_score-fails_iff unscored none =
      (λ h. absurd (ground arith), λ (q, u, e, f, l). absurd (ground arith))
  judge_mutation_score-fails_iff unscored (some t) =
      (λ h. absurd (ground arith), λ (q, u, e, f, l). absurd (ground arith))
