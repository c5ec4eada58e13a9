-- ===== src/Tests/ResilienceExamples.antt =====
-- A circuit breaker and a choice among three plans.
use beaconwise_tek.Base.{
  ℕ, ◌≤◌, ◌≡◌, refl, ◌≢◌, inl, inr, true, false, none, some, List, [], ◌∷◌, arith, Text, codes,
  text_eq,
}
use beaconwise_tek.Resilience.Breaker.{
  new_breaker, update, maybe_transition, is_blocked, transitions, blocked_names, failed, is_opened,
  is_half_open,
}
use beaconwise_tek.Resilience.Recovery.{RecoveryDecision}
use beaconwise_tek.Resilience.Runtime.{
  TrustSnapshot, ResilienceRuntime, Instant, state_of, cooling, damped, apply_decision,
  maybe_recover, settle, verify_applied, verify_recovery,
}
use beaconwise_tek.Resilience.Runtime.Loop.{
  excluded_at, maybe_recover-eligible, verify_recovery-excludes,
}
use beaconwise_tek.Resilience.Verifier.{is_improved}
use beaconwise_tek.Json.{end}
use beaconwise_tek.Kernel.Gates.{contains_text}
use beaconwise_tek.Resilience.Breaker.{CircuitBreaker, record_failure, excluded_plans}
use beaconwise_tek.Resilience.Breaker.Tripping.{failure, run_op, AllTight, run_op-AllTight}
use beaconwise_tek.Resilience.Breaker.Excluding.{failures, failures-excluded}
use beaconwise_tek.Resilience.Breaker.Recovering.{record_failure-recovers}
use beaconwise_tek.Resilience.Recovery.{
  degraded, RecoveryPlan, RecoveryState, RecoveryEngine, should_trigger, score_plan, decide,
  evaluate, viable, sort_plans, first_plan, insert_plan, key_lt, rejection, tier_penalty, is_ok,
}
use beaconwise_tek.Resilience.Recovery.Selection.{Among}
use beaconwise_tek.Resilience.Recovery.Best.{decide-best}
use beaconwise_tek.Resilience.Verifier.{VerificationConfig, verify}
use beaconwise_tek.Tests.Fixtures.{toy_floats, toy_floats-IsOrdered}

-- The default settings, in seconds.
abbrev breaker : CircuitBreaker toy_floats
breaker = record {
  config = record { failure_threshold = 3; cooldown_seconds = 1200000; half_open_max_attempts = 1 };
  breakers = [];
}

run_op-AllTight_example :
    AllTight toy_floats breaker.config
      (run_op toy_floats (failure (codes "reroute") 500) breaker).breakers
unfolding run_op record_failure
run_op-AllTight_example =
    run_op-AllTight toy_floats (failure (codes "reroute") 500) breaker (omega arith) tt

failures-excluded_example :
    contains_text (codes "reroute") (
      (excluded_plans toy_floats 10000 (
        record_failure toy_floats
          (codes "reroute")
          9000
          (failures toy_floats (codes "reroute") (100 ∷ 200 ∷ []) breaker))).1)
    ≡ true
failures-excluded_example =
    failures-excluded toy_floats (codes "reroute") (100 ∷ 200 ∷ []) 9000 10000 breaker (omega arith)
      refl

-- The third failure in a row, and the state a cooldown later.
abbrev failing : CircuitBreaker toy_floats
failing = failures toy_floats (codes "reroute") (100 ∷ 200 ∷ []) breaker

record_failure-recovers_example :
    contains_text
      (codes "reroute")
      (excluded_plans toy_floats 1209000
        (record_failure toy_floats (codes "reroute") 9000 failing)).1
    ≡ false
unfolding failures record_failure update failed is_half_open new_breaker text_eq codes
record_failure-recovers_example =
    record_failure-recovers toy_floats (codes "reroute") 9000 1209000 failing (omega arith) refl
      (omega arith)

abbrev plan : Text → ℕ → ℕ → RecoveryPlan toy_floats
plan name latency median = record {
  name = name;
  tier = 1;
  predicted_tsi_median = median;
  predicted_tsi_low = 7000;
  predicted_tsi_high = 9000;
  predicted_latency_ms = latency;
  predicted_cost_usd = 100;
  predicted_independence_gain = 0;
  routing_patch = end;
}

abbrev engine : RecoveryEngine toy_floats
engine = record {
  budgets = record { latency_ms_max = 800; cost_usd_max = 5000 };
  targets = record {
    tsi_target = 7500;
    tsi_min = 7000;
    tsi_critical = 5500;
    max_recovery_minutes = 15;
  };
  diversity_bonus_weight = 1500;
  penalty_latency_weight = 5;
  penalty_cost_weight = 2500;
  confidence_low_penalty_weight = 3000;
  tier_penalties = (1, 0) ∷ (2, 500) ∷ (3, 1200) ∷ [];
}

abbrev state : RecoveryState toy_floats
state = record {
  tsi_current = 6000;
  tsi_forecast_15m = 6000;
  der_density = 0;
  concentration_index = 3000;
  system_status = degraded;
  oscillation_index = 0;
}

abbrev plans : List (RecoveryPlan toy_floats)
plans =
    plan (codes "blocked") 100 9000
    ∷ plan (codes "slow") 900 9000
    ∷ plan (codes "reroute") 200 8000
    ∷ []

decide-best_example :
    (p : RecoveryPlan toy_floats) × ((decide toy_floats engine
        (codes "d1")
        1
        state
        plans
        (codes "blocked" ∷ [])).chosen
      ≡ some p)
    × (toy_floats.le
          (score_plan toy_floats engine state (plan (codes "reroute") 200 8000))
          (score_plan toy_floats engine state p)
        ≡ true)
unfolding should_trigger is_ok contains_text codes text_eq
decide-best_example =
    decide-best toy_floats toy_floats-IsOrdered engine state (codes "blocked" ∷ []) (codes "d1") 1
      plans (plan (codes "reroute") 200 8000) refl (inr (inr (inl refl))) refl (omega arith) refl

abbrev checks : VerificationConfig toy_floats
checks = record {
  replay_samples = 3;
  mvi_check = true;
  min_tsi_improvement = 200;
  max_tsi_degradation = 500;
}

-- A runtime that has applied the plan "reroute" without success, twice before.
abbrev runtime : ResilienceRuntime toy_floats
runtime = record {
  engine = engine;
  plans = plans;
  damping = none;
  circuit_breaker = failures toy_floats (codes "reroute") (100 ∷ 200 ∷ []) breaker;
  verifier_config = checks;
  enabled = true;
  last_decision = none;
  last_applied_plan = some (plan (codes "reroute") 200 8000);
  tsi_at_recovery = some 6000;
}

abbrev now : Instant toy_floats
now = record {
  breaker_now = 10000;
  damping_now = 10000;
  applied_now = 10000;
  now_ms = 1;
  decision_id = codes "d2";
}

abbrev trust : TrustSnapshot toy_floats
trust = record {
  tsi_current = 6000;
  tsi_forecast_15m = 6000;
  der_density = 0;
  dep_concentration_index = 0;
  degraded = true;
}

-- The third verification without success.
abbrev verified : ResilienceRuntime toy_floats
verified = (verify_recovery toy_floats 9000 6000 [] runtime).0

abbrev next_decision : RecoveryDecision toy_floats
next_decision =
    record (decide toy_floats engine (codes "d2") 1 (state_of toy_floats trust) plans
      (codes "reroute" ∷ [])) { chosen = some (plan (codes "blocked") 100 9000) }

abbrev recovering : ResilienceRuntime toy_floats
recovering = record verified {
  circuit_breaker = (excluded_plans toy_floats 10000 verified.circuit_breaker).0;
  last_decision = some next_decision;
  last_applied_plan = some (plan (codes "blocked") 100 9000);
  tsi_at_recovery = some 6000;
}

another_is_applied :
    maybe_recover toy_floats now trust verified ≡ some (recovering, some next_decision)
unfolding maybe_recover state_of cooling damped apply_decision verify_recovery verify_applied settle
    verify is_improved failures record_failure excluded_plans update new_breaker failed transitions
    maybe_transition blocked_names is_blocked is_opened is_half_open decide should_trigger evaluate
    viable sort_plans first_plan insert_plan key_lt rejection score_plan tier_penalty is_ok
    contains_text codes text_eq
another_is_applied = refl

maybe_recover-eligible_example :
    (verified.enabled ≡ true)
    × (cooling toy_floats verified.damping 10000 ≡ false)
    × (contains_text (codes "blocked") (excluded_at toy_floats now verified) ≡ false)
    × (p : RecoveryPlan toy_floats) × Among p verified.plans
    × (codes "blocked" ≡ p.name)
    × (p.predicted_latency_ms ≤ verified.engine.budgets.latency_ms_max)
maybe_recover-eligible_example =
    maybe_recover-eligible toy_floats now trust verified recovering next_decision
      (plan (codes "blocked") 100 9000) another_is_applied refl

verify_recovery-excludes_example : codes "blocked" ≢ codes "reroute"
unfolding is_improved
verify_recovery-excludes_example =
    verify_recovery-excludes toy_floats now trust 9000 6000 6000 [] (100 ∷ 200 ∷ []) breaker runtime
      recovering (plan (codes "reroute") 200 8000) (plan (codes "blocked") 100 9000) next_decision
      refl refl refl refl (omega arith) refl another_is_applied refl
