-- ===== src/Execution/RunOrder.antt =====
-- sort-run-plans.workflow.ts: the order in which the mutants run.
use stryker_js_effect.Prelude.{
  text_ltb, text_ltb-asym, nat_eq, Text, Bool, true, false, not, ◌&&◌, List, if◌then◌else◌, sort_by,
  sort_by-perm, sort_by-Ordered, Ordered-Consecutive, Consecutive, ◌⊎◌, ◌≡◌, arith,
}
use mathlib.Core.List.{Perm}
use stryker_js_effect.Numbers.{Numbers}

module _ (numbers : Numbers) where
  open numbers use {Number, less, less_asym}

  pub record OrderedRunPlan : Type 0 where
    pub id : Text
    pub net_time : Number
    pub reload_environment : Bool

  abbrev pub reload_rank_less : Bool → Bool → Bool
  reload_rank_less left right = not left && right

  -- `comparePlans` is negative. The net times are finite, so that the sign of their difference is
  -- their order. The first rank that is not zero decides.
  unfoldable pub runs_before : OrderedRunPlan → OrderedRunPlan → Bool
  runs_before left right =
      if reload_rank_less left.reload_environment right.reload_environment
      then true
      else if reload_rank_less right.reload_environment left.reload_environment
      then false
      else if less right.net_time left.net_time
      then true
      else if less left.net_time right.net_time
      then false
      else text_ltb left.id right.id

  unfoldable pub ordered_of : List OrderedRunPlan → List OrderedRunPlan
  ordered_of plans = sort_by runs_before plans

  -- `decide`, of the plans of the command.
  unfoldable pub sort_run_plans : List OrderedRunPlan → List OrderedRunPlan
  unfolding ordered_of
  sort_run_plans plans = ordered_of plans

  ranks-asym :
      (p q : Bool) (s t : Number) (a b : Text)
      → (if not p && q
          then true
          else if not q && p
          then false
          else if less t s
          then true
          else if less s t
          then false
          else text_ltb a b)
        ≡ true
      → (if not q && p
          then true
          else if not p && q
          then false
          else if less s t
          then true
          else if less t s
          then false
          else text_ltb b a)
        ≡ false
  ranks-asym p q s t a b h = ground (arith, less_asym s t, less_asym t s, text_ltb-asym a b)

  runs_before-asym : (p q : OrderedRunPlan) → runs_before p q ≡ true → runs_before q p ≡ false
  unfolding runs_before
  runs_before-asym p q h =
      ranks-asym p.reload_environment q.reload_environment p.net_time q.net_time p.id q.id h

  -- The plan keeps the environment and the other one reloads it; or they agree in this, and its net
  -- time is longer, or neither is longer and the other one has no lesser id.
  abbrev pub RunsNoLater : OrderedRunPlan → OrderedRunPlan → Type 0
  RunsNoLater x y =
      ((x.reload_environment ≡ false) × (y.reload_environment ≡ true))
      ⊎ ((x.reload_environment ≡ y.reload_environment) × (less y.net_time x.net_time ≡ true))
      ⊎ ((x.reload_environment ≡ y.reload_environment)
          × (less x.net_time y.net_time ≡ false)
          × (less y.net_time x.net_time ≡ false)
          × (text_ltb y.id x.id ≡ false))

  runs_before-RunsNoLater : (x y : OrderedRunPlan) → runs_before y x ≡ false → RunsNoLater x y
  unfolding runs_before
  runs_before-RunsNoLater x y h = ground arith

  -- The sorted plans are the plans of the command, each as often as it came. Of two neighbours
  -- either the first keeps the environment and the second reloads it, or they agree in this and the
  -- net time of the first is longer, or neither is longer and the id of the second is not lesser.
  pub sort_run_plans-Ordered :
      (plans : List OrderedRunPlan)
      → Perm (sort_run_plans plans) plans × Consecutive RunsNoLater (sort_run_plans plans)
  unfolding sort_run_plans
  sort_run_plans-Ordered plans = (
    sort_by-perm runs_before plans,
    Ordered-Consecutive runs_before RunsNoLater (sort_by runs_before plans) runs_before-RunsNoLater
        (sort_by-Ordered runs_before runs_before-asym plans),
  )
