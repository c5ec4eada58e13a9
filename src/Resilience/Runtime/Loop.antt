-- ===== src/Resilience/Runtime/Loop.antt =====
-- What the loop of recovery guarantees.
use beaconwise_tek.Base.{
  ◌+◌, ◌≤◌, ◌≡◌, refl, sym, ap, ◌∙◌, subst, ◌≢◌, inl, inr, true, false, Option, none, some, List,
  arith, Bool-cases, Option-cases, Text, length,
}
use beaconwise_tek.Float.{Floats}
use beaconwise_tek.Json.{Fields}
use beaconwise_tek.Kernel.Gates.{contains_text}
use beaconwise_tek.Resilience.Breaker.{CircuitBreaker, excluded_plans, record_failure}
use beaconwise_tek.Resilience.Breaker.Excluding.{failures, failures-excluded}
use beaconwise_tek.Resilience.Recovery.{
  RecoveryTargets, RecoveryPlan, RecoveryState, RecoveryDecision, decide,
}
use beaconwise_tek.Resilience.Recovery.Selection.{Among, decide-eligible}
use beaconwise_tek.Resilience.Verifier.{is_improved, verify}
use beaconwise_tek.Resilience.Runtime.{
  DampingStabilizer, damp_plan, TrustSnapshot, ResilienceRuntime, Instant, state_of, cooling,
  damped, apply_decision, maybe_recover, settle, verify_applied, verify_recovery,
}

module _ (fl : Floats) where
  damp_plan-name :
      (now : fl.F) (t : RecoveryTargets fl) (s : RecoveryState fl) (p q : RecoveryPlan fl)
      (d : DampingStabilizer fl)
      → (damp_plan fl now t s p d).1 ≡ some q
      → q.name ≡ p.name
  unfolding damp_plan
  damp_plan-name now t s p q d e = ground arith

  damped-name :
      (i : Instant fl) (t : RecoveryTargets fl) (s : RecoveryState fl) (p q : RecoveryPlan fl)
      (d : Option (DampingStabilizer fl))
      → (damped fl i t s p d).1 ≡ some q
      → q.name ≡ p.name
  unfolding damped
  damped-name i t s p q none e = ground arith
  damped-name i t s p q (some d) e = damp_plan-name i.applied_now t s p q d e

  apply_decision-name :
      (i : Instant fl) (s : RecoveryState fl) (rt after : ResilienceRuntime fl)
      (d e : RecoveryDecision fl) (c : Option (RecoveryPlan fl)) (q : RecoveryPlan fl)
      → c ≡ d.chosen
      → apply_decision fl i s rt d c ≡ some (after, some e)
      → e.chosen ≡ some q
      → (p : RecoveryPlan fl) × (d.chosen ≡ some p) × (q.name ≡ p.name)
  unfolding apply_decision
  apply_decision-name i s rt after d e none q k h chosen = cc
  apply_decision-name i s rt after d e (some p) q k h chosen =
      elim (Option-cases ((damped fl i rt.engine.targets s p rt.damping).1)) [
        | inl raised ↦ ground arith
        | inr (plan, done) ↦
            let same : plan ≡ q = ground arith in
            (
              p,
              sym k,
              ap (λ r. r.name) (sym same)
                  ∙ damped-name i rt.engine.targets s p plan rt.damping done,
            )
      ]

  -- The names that the breaker of a runtime excludes at an instant.
  abbrev pub excluded_at : Instant fl → ResilienceRuntime fl → List Text
  excluded_at i rt = (excluded_plans fl i.breaker_now rt.circuit_breaker).1

  recovered :
      (i : Instant fl) (x : TrustSnapshot fl) (rt after : ResilienceRuntime fl)
      (e : RecoveryDecision fl)
      → maybe_recover fl i x rt ≡ some (after, some e)
      → (rt.enabled ≡ true)
        × (cooling fl rt.damping i.damping_now ≡ false)
        × (let d =
              decide fl rt.engine i.decision_id i.now_ms
                (state_of fl x)
                rt.plans
                (excluded_at i rt) in
            apply_decision fl i
              (state_of fl x)
              (record rt {
                circuit_breaker = (excluded_plans fl i.breaker_now rt.circuit_breaker).0;
              })
              d
              d.chosen
            ≡ some (after, some e))
  unfolding maybe_recover
  recovered i x rt after e h = elim (Bool-cases rt.enabled) [
    | inr off ↦ ground arith
    | inl on ↦ elim (Bool-cases (cooling fl rt.damping i.damping_now)) [
      | inl cold ↦ ground arith
      | inr warm ↦ (on, warm, ground arith)
    ]
  ]

  -- The runtime applies a plan only when it is enabled and not in the cooldown of the damping, and
  -- the applied plan bears the name of one of its plans that the circuit breaker does not exclude at that
  -- time and whose predicted latency is within the budget.
  pub maybe_recover-eligible :
      (i : Instant fl) (x : TrustSnapshot fl) (rt after : ResilienceRuntime fl)
      (e : RecoveryDecision fl) (q : RecoveryPlan fl)
      → maybe_recover fl i x rt ≡ some (after, some e)
      → e.chosen ≡ some q
      → (rt.enabled ≡ true)
        × (cooling fl rt.damping i.damping_now ≡ false)
        × (contains_text q.name (excluded_at i rt) ≡ false)
        × (p : RecoveryPlan fl) × Among p rt.plans
        × (q.name ≡ p.name)
        × (p.predicted_latency_ms ≤ rt.engine.budgets.latency_ms_max)
  maybe_recover-eligible i x rt after e q h chosen =
      let (on, warm, applied) = recovered i x rt after e h in
      let s : RecoveryState fl = state_of fl x in
      let d : RecoveryDecision fl =
        decide fl rt.engine i.decision_id i.now_ms s rt.plans (excluded_at i rt) in
      let (p, first, named) =
        apply_decision-name i s
          (record rt { circuit_breaker = (excluded_plans fl i.breaker_now rt.circuit_breaker).0 })
          after d e d.chosen q refl applied chosen in
      let (triggered, among, free, quick, cheap) =
        decide-eligible fl rt.engine s (excluded_at i rt) i.decision_id i.now_ms rt.plans p first in
      (on, warm, rw named free, p, among, named, quick)

  next_breaker :
      (now before current : fl.F) (samples : List Fields) (rt : ResilienceRuntime fl)
      (p : RecoveryPlan fl)
      → rt.last_applied_plan ≡ some p
      → rt.tsi_at_recovery ≡ some before
      → is_improved fl rt.verifier_config (fl.sub current before) ≡ false
      → (verify_recovery fl now current samples rt).0.circuit_breaker
        ≡ record_failure fl p.name now rt.circuit_breaker
  unfolding verify_recovery verify_applied settle verify
  next_breaker now before current samples rt p applied noted flat = rw (applied, noted, flat) refl

  -- The loop closes: a runtime whose applied plan has failed often enough in a row, the verification of
  -- now included, so that the threshold is reached, does not apply a plan of that name again before
  -- the cooldown of its breaker is over.
  pub verify_recovery-excludes :
      (i : Instant fl) (x : TrustSnapshot fl) (now before current : fl.F) (samples : List Fields)
      (ts : List fl.F) (cb : CircuitBreaker fl) (rt after : ResilienceRuntime fl)
      (p q : RecoveryPlan fl) (e : RecoveryDecision fl)
      → rt.last_applied_plan ≡ some p
      → rt.tsi_at_recovery ≡ some before
      → is_improved fl rt.verifier_config (fl.sub current before) ≡ false
      → rt.circuit_breaker ≡ failures fl p.name ts cb
      → cb.config.failure_threshold ≤ length ts + 1
      → fl.le cb.config.cooldown_seconds (fl.sub i.breaker_now now) ≡ false
      → maybe_recover fl i x (verify_recovery fl now current samples rt).0 ≡ some (after, some e)
      → e.chosen ≡ some q
      → q.name ≢ p.name
  verify_recovery-excludes i x now before current samples ts cb rt after p q e applied noted flat
        failed enough cold h chosen same =
      let next : ResilienceRuntime fl = (verify_recovery fl now current samples rt).0 in
      let breaker = next_breaker now before current samples rt p applied noted flat in
      let eligible = maybe_recover-eligible i x next after e q h chosen in
      let shut = failures-excluded fl p.name ts now i.breaker_now cb enough cold in
      let free : contains_text p.name
            (excluded_plans fl i.breaker_now
              (record_failure fl p.name now (failures fl p.name ts cb))).1
          ≡ false =
        subst
          (λ n.
            contains_text n
              (excluded_plans fl i.breaker_now
                (record_failure fl p.name now (failures fl p.name ts cb))).1
            ≡ false)
          same
          (subst (λ b. contains_text q.name (excluded_plans fl i.breaker_now b).1 ≡ false)
            (breaker ∙ ap (λ b. record_failure fl p.name now b) failed) eligible.2) in
      cc
