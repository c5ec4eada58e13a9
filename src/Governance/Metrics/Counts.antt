-- ===== src/Governance/Metrics/Counts.antt =====
-- What the counters add up to.
use beaconwise_tek.Base.{
  ℕ, zero, suc, ◌+◌, ◌-◌, ◌≤◌, ◌≡◌, refl, sym, ◌∙◌, inl, inr, Bool, true, false, List, [], ◌∷◌,
  ◌++◌, arith, ltb, if◌then◌else◌, Bool-cases, Text, length, drop, take_last, length-append,
}
use beaconwise_tek.Float.{Floats, flt}
use beaconwise_tek.Governance.Metrics.{
  GovernanceMetrics, new_metrics, upper, count_route, count_validation, count_scope, add_latency,
  count_latency, count_one, record_interaction,
}

module _ (fl : Floats) where
  -- The counters agree with each other, and the list of latencies is not too long.
  abbrev pub IsConsistent : GovernanceMetrics fl → Type 0
  IsConsistent m =
      (m.total_epacks ≡ m.total_interactions)
      × (m.total_bound + m.total_defer + m.total_reflect + m.total_tdm ≡ m.total_interactions)
      × (m.total_validation_pass + m.total_validation_fail ≡ m.total_interactions)
      × (m.total_scope_pass + m.total_scope_refuse + m.total_scope_rewrite ≤ m.total_interactions)
      × (length m.latencies ≤ 1000)

  -- The metrics that interactions lead to from new ones.
  pub data Recorded : GovernanceMetrics fl → Type 0 where
    fresh : Recorded (new_metrics fl)
    recorded :
        {m : GovernanceMetrics fl} (route : Text) (validation_ok : Bool) (scope_decision : Text)
        (latency_ms : fl.F)
        → Recorded m
        → Recorded (record_interaction fl route validation_ok scope_decision latency_ms m)

  length-drop_le : (k : ℕ) (xs : List fl.F) → length (drop k xs) ≤ length xs - k
  length-drop_le zero xs = omega arith
  length-drop_le (suc k) [] = omega arith
  length-drop_le (suc k) (x ∷ xs) = omega (arith, length-drop_le k xs)

  -- A property of both branches holds of the test.
  both : {A : Type 0} (P : A → Type 0) (b : Bool) {x y : A} → P x → P y → P (if b then x else y)
  both P true px py = px
  both P false px py = py

  latencies_le :
      (x : fl.F) (xs : List fl.F) → length xs ≤ 1000 → length (add_latency fl x xs) ≤ 1000
  unfolding add_latency
  latencies_le x xs h =
      let longer : List fl.F = xs ++ x ∷ [] in
      let cut : length (take_last 500 longer) ≤ length longer - (length longer - 500) =
        length-drop_le (length longer - 500) longer in
      let kept : length (if ltb 1000 (length longer) then take_last 500 longer else longer) ≤ 1000 =
        elim (Bool-cases (ltb 1000 (length longer))) [
          | inl long ↦ rw long (omega (arith, cut, length-append xs (x ∷ []), h))
          | inr short ↦ rw short (ground arith)
        ] in
      both {A = List fl.F} (λ ys. length ys ≤ 1000) (flt fl (fl.lit 0 1) x) kept h

  -- The counters while an interaction is being recorded.
  abbrev Counted : (n r v k : ℕ) → GovernanceMetrics fl → Type 0
  Counted n r v k m =
      (m.total_interactions ≡ n)
      × (m.total_epacks ≡ n)
      × (m.total_bound + m.total_defer + m.total_reflect + m.total_tdm ≡ r)
      × (m.total_validation_pass + m.total_validation_fail ≡ v)
      × (m.total_scope_pass + m.total_scope_refuse + m.total_scope_rewrite ≤ k)
      × (length m.latencies ≤ 1000)

  module _ {n r v k : ℕ} (m : GovernanceMetrics fl) where
    count_one-Counted : Counted n r v k m → Counted (n + 1) r v k (count_one fl m)
    unfolding count_one
    count_one-Counted (a, b, c, d, e, l) = (omega (arith, a), omega (arith, b), c, d, e, l)

    count_route-Counted :
        (route : Text) → Counted n r v k m → Counted n (r + 1) v k (count_route fl route m)
    unfolding count_route
    count_route-Counted route (a, b, c, d, e, l) =
        (ground arith, ground arith, ground arith, ground arith, ground arith, ground (arith, l))

    count_validation-Counted :
        (ok : Bool) → Counted n r v k m → Counted n r (v + 1) k (count_validation fl ok m)
    unfolding count_validation
    count_validation-Counted ok (a, b, c, d, e, l) =
        both (Counted n r (v + 1) k) ok (a, b, c, omega (arith, d), e, l)
          (a, b, c, omega (arith, d), e, l)

    count_scope-Counted :
        (scope : Text) → Counted n r v k m → Counted n r v (k + 1) (count_scope fl scope m)
    unfolding count_scope
    count_scope-Counted scope (a, b, c, d, e, l) =
        (ground arith, ground arith, ground arith, ground arith, ground arith, ground (arith, l))

    count_latency-Counted : (x : fl.F) → Counted n r v k m → Counted n r v k (count_latency fl x m)
    unfolding count_latency
    count_latency-Counted x (a, b, c, d, e, l) = (a, b, c, d, e, latencies_le x m.latencies l)

  Counted-IsConsistent : {n : ℕ} (m : GovernanceMetrics fl) → Counted n n n n m → IsConsistent m
  Counted-IsConsistent m (a, b, c, d, e, l) =
      (b ∙ sym a, c ∙ sym a, d ∙ sym a, omega (arith, e, a), l)

  record-IsConsistent :
      (route : Text) (validation_ok : Bool) (scope : Text) (latency : fl.F)
      (m : GovernanceMetrics fl)
      → IsConsistent m
      → IsConsistent (record_interaction fl route validation_ok scope latency m)
  unfolding record_interaction
  record-IsConsistent route validation_ok scope latency m (b, c, d, e, l) =
      let m1 : GovernanceMetrics fl = count_one fl m in
      let m2 : GovernanceMetrics fl = count_route fl (upper route) m1 in
      let m3 : GovernanceMetrics fl = count_validation fl validation_ok m2 in
      let m4 : GovernanceMetrics fl = count_scope fl (upper scope) m3 in
      Counted-IsConsistent (count_latency fl latency m4) (
        count_latency-Counted m4 latency (
          count_scope-Counted m3 (upper scope) (
            count_validation-Counted m2 validation_ok
              (count_route-Counted m1 (upper route) (count_one-Counted m (refl, b, c, d, e, l))))))

  -- After any number of interactions there are as many records as interactions, every interaction
  -- is counted under one route and one result of the validation and under at most one decision of
  -- the scope gate, and at most 1000 latencies are kept.
  pub Recorded-IsConsistent : {m : GovernanceMetrics fl} → Recorded m → IsConsistent m
  unfolding new_metrics
  Recorded-IsConsistent fresh = (refl, refl, refl, omega arith, omega arith)
  Recorded-IsConsistent (recorded {m} route validation_ok scope latency r) =
      record-IsConsistent route validation_ok scope latency m (Recorded-IsConsistent r)
