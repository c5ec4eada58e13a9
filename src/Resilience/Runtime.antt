-- ===== src/Resilience/Runtime.antt =====
-- src/ecosphere/meta_validation/resilience_runtime.py and damping_stabilizer.py: the closed loop of
-- recovery. Every reading of the clock is an argument. The tracker of the TSI, whose signal the caller
-- passes on, is in Resilience/Tracker. A damped plan is a new plan; that the
-- program writes the hints into the dict `rds` of the plan it is given, if there is one, is left out.
pub mod Loop
use beaconwise_tek.Base.{
  ℕ, zero, suc, ◌+◌, ◌-◌, ◌*◌, ◌≤◌, ◌<◌, String, ◌≡◌, refl, sym, ap, ◌∙◌, subst, ◌≢◌, ◌↔◌, ◌⊎◌, inl,
  inr, Bool, true, false, not, ◌&&◌, ◌||◌, Option, none, some, List, [], ◌∷◌, ◌++◌, map,
  append_assoc, append-nil, arith, ltb, leb, ◌==◌, if◌then◌else◌, ltb→lt, lt→ltb, leb→le, le→leb,
  ==→eq, eq→==, Bool-cases, and_true, Option-cases, Text, codes, text_eq, text_lt, text_eq→eq,
  text_eq_refl, eq→text_eq, truthy, length, take, drop, take_last, any, all, length-append,
}
use beaconwise_tek.Float.{Floats, flt, fmin, fmax}
use beaconwise_tek.Json.{Json, Fields, get, set, num, real, str, obj, end}
use beaconwise_tek.Resilience.Breaker.{
  CircuitBreaker, excluded_plans, record_success, record_failure,
}
use beaconwise_tek.Resilience.Recovery.{
  SystemStatus, ok, degraded, RecoveryTargets, RecoveryPlan, RecoveryState, RecoveryEngine,
  RecoveryDecision, decide,
}
use beaconwise_tek.Resilience.Verifier.{VerificationConfig, VerificationResult, verify}

-- The hints under "rds": missing, an object, or what has no `update`.
unfoldable pub rds_hints : Option Json → Option Fields
rds_hints none = some end
rds_hints (some (obj fs)) = some fs
rds_hints (some _) = none

module _ (fl : Floats) where
  pub record PidParams : Type 0 where
    pub kp : fl.F
    pub ki : fl.F
    pub kd : fl.F
    pub integral_cap : fl.F

  pub record DampingStabilizer : Type 0 where
    pub pid : PidParams
    pub max_oscillation : fl.F
    pub cooldown_seconds : ℕ
    pub integral : fl.F
    pub prev_error : fl.F
    pub last_applied_ts : fl.F

  unfoldable pub in_cooldown : fl.F → DampingStabilizer → Bool
  in_cooldown now d = flt fl (fl.sub now d.last_applied_ts) (fl.lit d.cooldown_seconds 1)

  -- The share of the rollout that the controller output `u` asks for.
  unfoldable pub canary_pct :
      DampingStabilizer → RecoveryTargets fl → RecoveryState fl → fl.F → fl.F
  canary_pct d t s u =
      let base : fl.F = fl.add (fl.lit 15 100) (fmin fl (fl.lit 85 100) (fmax fl (fl.lit 0 1) u)) in
      let bumped : fl.F =
        if fl.le (fl.lit 75 100) s.concentration_index || flt fl s.tsi_forecast_15m t.tsi_critical
        then fmin fl (fl.lit 1 1) (fl.add base (fl.lit 15 100))
        else base in
      if flt fl d.max_oscillation s.oscillation_index
      then fmax fl (fl.lit 15 100) (fl.mul bumped (fl.lit 8 10))
      else bumped

  -- `damp_plan`: the new state of the controller, and the plan, or none where the hints of the plan
  -- are no dict
  unfoldable pub damp_plan :
      fl.F
      → RecoveryTargets fl
      → RecoveryState fl
      → RecoveryPlan fl
      → DampingStabilizer
      → DampingStabilizer × Option (RecoveryPlan fl)
  unfolding canary_pct
  damp_plan now t s p d =
      let error : fl.F = fmax fl (fl.lit 0 1) (fl.sub t.tsi_target s.tsi_forecast_15m) in
      let integral : fl.F =
        fmax fl (fl.sub (fl.lit 0 1) d.pid.integral_cap)
          (fmin fl d.pid.integral_cap (fl.add d.integral error)) in
      let deriv : fl.F = fl.sub error d.prev_error in
      let u : fl.F =
        fl.add (fl.add (fl.mul d.pid.kp error) (fl.mul d.pid.ki integral))
          (fl.mul d.pid.kd deriv) in
      let canary : fl.F = canary_pct d t s u in
      (
        record d { integral = integral; prev_error = error; last_applied_ts = now },
        elim (rds_hints (get (codes "rds") p.routing_patch)) [
          | none ↦ none
          | some hints ↦ some (record p {
            routing_patch =
                set (codes "rds")
                  (obj (
                    set (codes "note") (str (codes "pid_damped")) (
                      set (codes "cooldown_seconds") (num d.cooldown_seconds)
                        (set (codes "canary_pct") (real (fl.repr (fl.round canary 3))) hints))))
                  p.routing_patch;
          })
        ],
      )

  pub record TrustSnapshot : Type 0 where
    pub tsi_current : fl.F
    pub tsi_forecast_15m : fl.F
    pub der_density : fl.F
    pub dep_concentration_index : fl.F
    pub degraded : Bool

  pub record ResilienceRuntime : Type 0 where
    pub engine : RecoveryEngine fl
    pub plans : List (RecoveryPlan fl)
    pub damping : Option DampingStabilizer
    pub circuit_breaker : CircuitBreaker fl
    pub verifier_config : VerificationConfig fl
    pub enabled : Bool
    pub last_decision : Option (RecoveryDecision fl)
    pub last_applied_plan : Option (RecoveryPlan fl)
    pub tsi_at_recovery : Option fl.F

  -- The clock, as the breaker, the damping and the engine read it, and the id of the decision.
  pub record Instant : Type 0 where
    pub breaker_now : fl.F
    pub damping_now : fl.F
    pub applied_now : fl.F
    pub now_ms : ℕ
    pub decision_id : Text

  unfoldable pub state_of : TrustSnapshot → RecoveryState fl
  state_of x = record {
    tsi_current = x.tsi_current;
    tsi_forecast_15m = x.tsi_forecast_15m;
    der_density = x.der_density;
    concentration_index = x.dep_concentration_index;
    system_status = if x.degraded then degraded else ok;
    oscillation_index = fl.lit 0 1;
  }

  unfoldable pub cooling : Option DampingStabilizer → fl.F → Bool
  unfolding in_cooldown
  cooling none now = false
  cooling (some d) now = in_cooldown now d

  -- The chosen plan behind the damping, if there is one.
  unfoldable pub damped :
      Instant
      → RecoveryTargets fl
      → RecoveryState fl
      → RecoveryPlan fl
      → Option DampingStabilizer
      → Option DampingStabilizer × Option (RecoveryPlan fl)
  damped at_ t s p none = (none, some p)
  damped at_ t s p (some d) = let (e, q) = damp_plan at_.applied_now t s p d in (some e, q)

  -- The end of `maybe_recover`, for the decision; none where the damping raises.
  unfoldable pub apply_decision :
      Instant
      → RecoveryState fl
      → ResilienceRuntime
      → RecoveryDecision fl
      → Option (RecoveryPlan fl)
      → Option (ResilienceRuntime × Option (RecoveryDecision fl))
  apply_decision at_ s rt d none = some (record rt { last_decision = some d }, some d)
  apply_decision at_ s rt d (some p) =
      let (damping, q) = damped at_ rt.engine.targets s p rt.damping in
      elim q [
        | none ↦ none
        | some plan ↦
            let e : RecoveryDecision fl = record d { chosen = some plan } in
            some (
              record rt {
                damping = damping;
                last_decision = some e;
                last_applied_plan = some plan;
                tsi_at_recovery = some s.tsi_current;
              },
              some e,
            )
      ]

  unfoldable pub maybe_recover :
      Instant
      → TrustSnapshot
      → ResilienceRuntime
      → Option (ResilienceRuntime × Option (RecoveryDecision fl))
  maybe_recover at_ x rt =
      let s : RecoveryState fl = state_of x in
      let (breaker, excluded) = excluded_plans fl at_.breaker_now rt.circuit_breaker in
      let listed : ResilienceRuntime = record rt { circuit_breaker = breaker } in
      let d : RecoveryDecision fl =
        decide fl rt.engine at_.decision_id at_.now_ms s rt.plans excluded in
      let rest = apply_decision at_ s listed d d.chosen in
      if not rt.enabled
      then some (rt, none)
      else if cooling rt.damping at_.damping_now
      then some (listed, none)
      else rest

  -- Behind the verification: the breaker hears of it, and a rollback forgets the plan.
  unfoldable pub settle :
      fl.F → ResilienceRuntime → RecoveryPlan fl → VerificationResult fl → ResilienceRuntime
  settle now rt p r =
      let breaker : CircuitBreaker fl =
        if r.tsi_improved
        then record_success fl p.name now rt.circuit_breaker
        else record_failure fl p.name now rt.circuit_breaker in
      record rt {
        circuit_breaker = breaker;
        last_applied_plan = if r.recommend_rollback then none else rt.last_applied_plan;
        tsi_at_recovery = if r.recommend_rollback then none else rt.tsi_at_recovery;
      }

  -- The body of `verify_recovery`, for `last_applied_plan` and `tsi_at_recovery`.
  unfoldable pub verify_applied :
      fl.F
      → fl.F
      → List Fields
      → ResilienceRuntime
      → Option (RecoveryPlan fl)
      → Option fl.F
      → ResilienceRuntime × Option (VerificationResult fl)
  unfolding settle
  verify_applied now current_tsi samples rt (some p) (some before) =
      let r : VerificationResult fl =
        verify fl rt.verifier_config rt.engine.targets p before current_tsi samples in
      (settle now rt p r, some r)
  verify_applied now current_tsi samples rt _ _ = (rt, none)

  unfoldable pub verify_recovery :
      fl.F
      → fl.F
      → List Fields
      → ResilienceRuntime
      → ResilienceRuntime × Option (VerificationResult fl)
  unfolding verify_applied
  verify_recovery now current_tsi samples rt =
      verify_applied now current_tsi samples rt rt.last_applied_plan rt.tsi_at_recovery
