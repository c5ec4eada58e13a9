-- ===== src/Resilience/Verifier.antt =====
-- src/ecosphere/meta_validation/post_recovery_verifier.py: was a recovery a success. Numbers in a
-- reason stand for themselves; a replay sample is a JSON object.
use beaconwise_tek.Base.{
  ℕ, ◌+◌, ◌≡◌, ◌↔◌, Bool, true, false, not, ◌&&◌, ◌||◌, none, some, List, [], ◌∷◌, ◌++◌, arith, ltb,
  if◌then◌else◌, Text, codes, length,
}
use beaconwise_tek.Float.{Floats, flt}
use beaconwise_tek.Json.{Fields, get, json_truthy}
use beaconwise_tek.Resilience.Recovery.{RecoveryPlan, RecoveryTargets}

-- The texts under `reasons`.
pub data VerifyReason (fl : Floats) : Type 0 where
  tsi_degraded : fl.F → VerifyReason fl
  tsi_degradation_exceeds_threshold : VerifyReason fl
  tsi_flat : fl.F → fl.F → VerifyReason fl
  tsi_still_critical : fl.F → fl.F → VerifyReason fl
  mvi_failed : ℕ → ℕ → VerifyReason fl
  recovery_verified_ok : VerifyReason fl

-- `not r.get("governance_match", True)`
unfoldable pub is_mismatch : Fields → Bool
is_mismatch r = elim (get (codes "governance_match") r) [
  | none ↦ false
  | some v ↦ not (json_truthy v)
]

unfoldable pub count_mismatches : List Fields → ℕ
unfolding is_mismatch
count_mismatches [] = 0
count_mismatches (r ∷ rs) =
    let rest = count_mismatches rs in if is_mismatch r then rest + 1 else rest

module _ (fl : Floats) where
  pub record VerificationResult : Type 0 where
    pub plan_name : Text
    pub samples_checked : ℕ
    pub tsi_before : fl.F
    pub tsi_after : fl.F
    pub tsi_improved : Bool
    pub mvi_passed : Bool
    pub recommend_rollback : Bool
    pub reasons : List (VerifyReason fl)

  pub record VerificationConfig : Type 0 where
    pub replay_samples : ℕ
    pub mvi_check : Bool
    pub min_tsi_improvement : fl.F
    pub max_tsi_degradation : fl.F

  unfoldable pub is_improved : VerificationConfig → fl.F → Bool
  is_improved c delta = fl.le c.min_tsi_improvement delta

  -- `abs(delta) >= max_tsi_degradation`, for a `delta` below 0
  unfoldable pub is_degraded : VerificationConfig → fl.F → Bool
  is_degraded c delta =
      flt fl delta (fl.lit 0 1) && fl.le c.max_tsi_degradation (fl.sub (fl.lit 0 1) delta)

  -- The reasons of the first test.
  unfoldable pub delta_reasons : VerificationConfig → fl.F → List (VerifyReason fl)
  unfolding is_improved is_degraded
  delta_reasons c delta =
      if is_improved c delta
      then []
      else if flt fl delta (fl.lit 0 1)
      then (if is_degraded c delta
          then tsi_degraded delta ∷ tsi_degradation_exceeds_threshold ∷ []
          else tsi_degraded delta ∷ [])
      else tsi_flat delta c.min_tsi_improvement ∷ []

  unfoldable pub critical_reasons : RecoveryTargets fl → fl.F → List (VerifyReason fl)
  critical_reasons t tsi_after =
      if flt fl tsi_after t.tsi_critical
      then tsi_still_critical tsi_after t.tsi_critical ∷ []
      else []

  unfoldable pub mismatches : VerificationConfig → List Fields → ℕ
  unfolding count_mismatches
  mismatches c replay_results = if c.mvi_check then count_mismatches replay_results else 0

  unfoldable pub mvi_reasons : VerificationConfig → List Fields → List (VerifyReason fl)
  mvi_reasons c replay_results =
      if ltb 0 (mismatches c replay_results)
      then mvi_failed (mismatches c replay_results) (length replay_results) ∷ []
      else []

  unfoldable pub or_verified : List (VerifyReason fl) → List (VerifyReason fl)
  or_verified [] = recovery_verified_ok ∷ []
  or_verified (r ∷ rs) = r ∷ rs

  -- `verify`; no results count as an empty list
  unfoldable pub verify :
      VerificationConfig
      → RecoveryTargets fl
      → RecoveryPlan fl
      → fl.F
      → fl.F
      → List Fields
      → VerificationResult
  unfolding delta_reasons critical_reasons mvi_reasons or_verified
  verify c t plan tsi_before tsi_after replay_results =
      let delta : fl.F = fl.sub tsi_after tsi_before in
      let failed : ℕ = mismatches c replay_results in
      record {
        plan_name = plan.name;
        samples_checked = if c.mvi_check then length replay_results else 0;
        tsi_before = tsi_before;
        tsi_after = tsi_after;
        tsi_improved = is_improved c delta;
        mvi_passed = not (ltb 0 failed);
        recommend_rollback =
            (not (is_improved c delta) && is_degraded c delta)
            || (flt fl tsi_after t.tsi_critical || ltb 0 failed);
        reasons = or_verified (
            delta_reasons c delta
            ++ (critical_reasons t tsi_after ++ mvi_reasons c replay_results));
      }

  -- A recovery is reported as verified, with that as the only reason, exactly when the TSI improved by
  -- the required amount, is not below the critical value, no checked sample is a mismatch, and no
  -- rollback is recommended.
  pub verify-verified :
      (c : VerificationConfig) (t : RecoveryTargets fl) (plan : RecoveryPlan fl)
      (before after : fl.F) (samples : List Fields)
      → let r = verify c t plan before after samples in
        (r.reasons ≡ recovery_verified_ok ∷ []) ↔ (
          (r.tsi_improved ≡ true)
          × (fl.le t.tsi_critical after ≡ true)
          × (r.mvi_passed ≡ true)
          × (r.recommend_rollback ≡ false))
  unfolding verify delta_reasons critical_reasons mvi_reasons or_verified
  verify-verified c t plan before after samples = (λ h. ground arith, λ h. ground arith)
