-- ===== src/Resilience/Recovery.antt =====
-- src/ecosphere/meta_validation/recovery_engine.py: the selection of a plan. The identifier and the
-- time of a decision are arguments, and numbers in a reason stand for themselves.
pub mod Best
pub mod Selection
use beaconwise_tek.Base.{
  ℕ, zero, suc, ◌+◌, ◌-◌, ◌*◌, ◌≤◌, ◌<◌, String, ◌≡◌, refl, sym, ap, ◌∙◌, subst, ◌≢◌, ◌↔◌, ◌⊎◌, inl,
  inr, Bool, true, false, not, ◌&&◌, ◌||◌, Option, none, some, List, [], ◌∷◌, ◌++◌, map,
  append_assoc, append-nil, arith, ltb, leb, ◌==◌, if◌then◌else◌, ltb→lt, lt→ltb, leb→le, le→leb,
  ==→eq, eq→==, Bool-cases, and_true, Option-cases, Text, codes, text_eq, text_lt, text_eq→eq,
  text_eq_refl, eq→text_eq, truthy, length, take, drop, take_last, any, all, length-append,
}
use beaconwise_tek.Float.{Floats, flt, fmax}
use beaconwise_tek.Json.{Fields}
use beaconwise_tek.Kernel.Gates.{contains_text}

pub data SystemStatus : Type 0 where
  ok degraded incident : SystemStatus

unfoldable pub is_ok : SystemStatus → Bool
is_ok ok = true
is_ok _ = false

-- The texts of `should_trigger`.
pub data TriggerReason : Type 0 where
  by_status : SystemStatus → TriggerReason
  below_minimum concentration_high no_trigger : TriggerReason

-- The values under `rejected`.
pub data Rejection : Type 0 where
  circuit_breaker_open latency_budget cost_budget : Rejection

module _ (fl : Floats) where
  pub record RecoveryTargets : Type 0 where
    pub tsi_target : fl.F
    pub tsi_min : fl.F
    pub tsi_critical : fl.F
    pub max_recovery_minutes : ℕ

  pub record RecoveryBudgets : Type 0 where
    pub latency_ms_max : ℕ
    pub cost_usd_max : fl.F

  pub record RecoveryPlan : Type 0 where
    pub name : Text
    pub tier : ℕ
    pub predicted_tsi_median : fl.F
    pub predicted_tsi_low : fl.F
    pub predicted_tsi_high : fl.F
    pub predicted_latency_ms : ℕ
    pub predicted_cost_usd : fl.F
    pub predicted_independence_gain : fl.F
    pub routing_patch : Fields

  pub record RecoveryState : Type 0 where
    pub tsi_current : fl.F
    pub tsi_forecast_15m : fl.F
    pub der_density : fl.F
    pub concentration_index : fl.F
    pub system_status : SystemStatus
    pub oscillation_index : fl.F

  -- What `_serialize_scored` lists: the score of a plan, or why it was rejected.
  pub record Evaluated : Type 0 where
    pub plan : RecoveryPlan
    pub score : Option fl.F
    pub rejected : Option Rejection

  pub record RecoveryDecision : Type 0 where
    pub decision_id : Text
    pub timestamp_ms : ℕ
    pub reason : TriggerReason
    -- the reason ends in "|no_viable_plans"
    pub no_viable_plans : Bool
    pub tsi_before : fl.F
    pub tsi_forecast : fl.F
    pub evaluated : List Evaluated
    pub chosen : Option RecoveryPlan

  pub record RecoveryEngine : Type 0 where
    pub budgets : RecoveryBudgets
    pub targets : RecoveryTargets
    pub diversity_bonus_weight : fl.F
    pub penalty_latency_weight : fl.F
    pub penalty_cost_weight : fl.F
    pub confidence_low_penalty_weight : fl.F
    pub tier_penalties : List (ℕ × fl.F)

  unfoldable pub should_trigger : RecoveryEngine → RecoveryState → Bool × TriggerReason
  unfolding is_ok
  should_trigger e s =
      if not (is_ok s.system_status)
      then (true, by_status s.system_status)
      else if flt fl s.tsi_forecast_15m e.targets.tsi_min
      then (true, below_minimum)
      else if fl.le (fl.lit 70 100) s.concentration_index
          && flt fl s.tsi_forecast_15m e.targets.tsi_target
      then (true, concentration_high)
      else (false, no_trigger)

  -- `tier_penalties.get(tier, 0.1)`
  unfoldable pub tier_penalty : List (ℕ × fl.F) → ℕ → fl.F
  tier_penalty [] tier = fl.lit 1 10
  tier_penalty ((t, p) ∷ ps) tier = let rest = tier_penalty ps tier in if t == tier then p else rest

  unfoldable pub score_plan : RecoveryEngine → RecoveryState → RecoveryPlan → fl.F
  unfolding tier_penalty
  score_plan e s p =
      let zero_f : fl.F = fl.lit 0 1 in
      let gain : fl.F = fmax fl zero_f (fl.sub p.predicted_tsi_median s.tsi_current) in
      let low_risk : fl.F = fmax fl zero_f (fl.sub e.targets.tsi_min p.predicted_tsi_low) in
      let confidence_pen : fl.F = fl.mul e.confidence_low_penalty_weight low_risk in
      let latency_pen : fl.F = fl.mul e.penalty_latency_weight (fl.lit p.predicted_latency_ms 1) in
      let cost_pen : fl.F = fl.mul e.penalty_cost_weight p.predicted_cost_usd in
      let diversity_bonus : fl.F = fl.mul e.diversity_bonus_weight p.predicted_independence_gain in
      let osc_pen : fl.F =
        if flt fl (fl.lit 15 100) s.oscillation_index && leb 3 p.tier
        then fl.lit 1 10
        else zero_f in
      fl.sub (fl.add gain diversity_bonus) (
        fl.add
          (fl.add (fl.add (fl.add latency_pen cost_pen) confidence_pen)
            (tier_penalty e.tier_penalties p.tier))
          osc_pen)

  -- The tests of the loop of `decide`, in order.
  unfoldable pub rejection : RecoveryEngine → List Text → RecoveryPlan → Option Rejection
  rejection e excluded p =
      if contains_text p.name excluded
      then some circuit_breaker_open
      else if ltb e.budgets.latency_ms_max p.predicted_latency_ms
      then some latency_budget
      else if flt fl e.budgets.cost_usd_max p.predicted_cost_usd
      then some cost_budget
      else none

  unfoldable pub evaluate :
      RecoveryEngine → RecoveryState → List Text → List RecoveryPlan → List Evaluated
  evaluate e s excluded [] = []
  evaluate e s excluded (p ∷ ps) =
      elim (rejection e excluded p) [
        | some why ↦ record { plan = p; score = none; rejected = some why }
        | none ↦ record { plan = p; score = some (score_plan e s p); rejected = none }
      ]
      ∷ evaluate e s excluded ps

  -- `viable`, in the order of the plans
  unfoldable pub viable :
      RecoveryEngine → RecoveryState → List Text → List RecoveryPlan → List (fl.F × RecoveryPlan)
  viable e s excluded [] = []
  viable e s excluded (p ∷ ps) =
      let rest : List (fl.F × RecoveryPlan) = viable e s excluded ps in
      elim (rejection e excluded p) [ some why ↦ rest | none ↦ (score_plan e s p, p) ∷ rest ]

  -- `a < b` on the keys of the sort: the score, the gain, and the tier from high to low.
  unfoldable pub key_lt : fl.F × RecoveryPlan → fl.F × RecoveryPlan → Bool
  key_lt (a, p) (b, q) =
      if flt fl a b
      then true
      else if flt fl b a
      then false
      else if flt fl p.predicted_independence_gain q.predicted_independence_gain
      then true
      else if flt fl q.predicted_independence_gain p.predicted_independence_gain
      then false
      else ltb q.tier p.tier

  -- `viable.sort(key=.., reverse=True)`, which keeps the order of equal keys
  unfoldable pub insert_plan :
      fl.F × RecoveryPlan → List (fl.F × RecoveryPlan) → List (fl.F × RecoveryPlan)
  unfolding key_lt
  insert_plan x [] = x ∷ []
  insert_plan x (y ∷ ys) =
      let rest : List (fl.F × RecoveryPlan) = insert_plan x ys in
      if key_lt x y then y ∷ rest else x ∷ y ∷ ys

  unfoldable pub sort_plans : List (fl.F × RecoveryPlan) → List (fl.F × RecoveryPlan)
  unfolding insert_plan
  sort_plans [] = []
  sort_plans (x ∷ xs) = insert_plan x (sort_plans xs)

  unfoldable pub first_plan : List (fl.F × RecoveryPlan) → Option RecoveryPlan
  first_plan [] = none
  first_plan ((a, p) ∷ rest) = some p

  unfoldable pub decide :
      RecoveryEngine → Text → ℕ → RecoveryState → List RecoveryPlan → List Text → RecoveryDecision
  unfolding evaluate viable sort_plans first_plan
  decide e decision_id now_ms s plans excluded =
      let (triggered, reason) = should_trigger e s in
      let chosen : Option RecoveryPlan = first_plan (sort_plans (viable e s excluded plans)) in
      let none_viable : Bool = length (viable e s excluded plans) == 0 in
      record {
        decision_id = decision_id;
        timestamp_ms = now_ms;
        reason = reason;
        no_viable_plans = triggered && none_viable;
        tsi_before = s.tsi_current;
        tsi_forecast = s.tsi_forecast_15m;
        evaluated = if triggered then evaluate e s excluded plans else [];
        chosen = if triggered then chosen else none;
      }
