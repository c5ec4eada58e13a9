-- ===== src/Governance/Metrics.antt =====
-- src/ecosphere/governance/metrics.py: the counters of the governed interactions. `int(x)` of a float
-- that is not negative is the argument `int_of`.
pub mod Counts
use beaconwise_tek.Base.{
  ℕ, zero, suc, ◌+◌, ◌-◌, ◌*◌, ◌≤◌, ◌<◌, String, ◌≡◌, refl, sym, ap, ◌∙◌, subst, ◌≢◌, ◌↔◌, ◌⊎◌, inl,
  inr, Bool, true, false, not, ◌&&◌, ◌||◌, Option, none, some, List, [], ◌∷◌, ◌++◌, map,
  append_assoc, append-nil, arith, ltb, leb, ◌==◌, if◌then◌else◌, ltb→lt, lt→ltb, leb→le, le→leb,
  ==→eq, eq→==, Bool-cases, and_true, Option-cases, Text, codes, text_eq, text_lt, text_eq→eq,
  text_eq_refl, eq→text_eq, truthy, length, take, drop, take_last, any, all, length-append,
}
use beaconwise_tek.Float.{Floats, flt}
use beaconwise_tek.Kernel.Patterns.{in_range}

pub record GovernanceMetrics (fl : Floats) : Type 0 where
  pub total_interactions : ℕ
  pub total_epacks : ℕ
  pub total_bound : ℕ
  pub total_defer : ℕ
  pub total_reflect : ℕ
  pub total_tdm : ℕ
  pub total_validation_pass : ℕ
  pub total_validation_fail : ℕ
  pub total_scope_pass : ℕ
  pub total_scope_refuse : ℕ
  pub total_scope_rewrite : ℕ
  pub latencies : List fl.F
  pub anomaly_signals : ℕ
  pub critical_violations : ℕ

-- `s.upper()`
unfoldable pub upper : Text → Text
unfolding in_range
upper [] = []
upper (c ∷ s) = (if in_range b'a' b'z' c then c - 32 else c) ∷ upper s

module _ (fl : Floats) where
  unfoldable pub new_metrics : GovernanceMetrics fl
  new_metrics = record {
    total_interactions = 0;
    total_epacks = 0;
    total_bound = 0;
    total_defer = 0;
    total_reflect = 0;
    total_tdm = 0;
    total_validation_pass = 0;
    total_validation_fail = 0;
    total_scope_pass = 0;
    total_scope_refuse = 0;
    total_scope_rewrite = 0;
    latencies = [];
    anomaly_signals = 0;
    critical_violations = 0;
  }

  unfoldable pub count_route : Text → GovernanceMetrics fl → GovernanceMetrics fl
  count_route route m =
      if text_eq route (codes "BOUND")
      then record m { total_bound = m.total_bound + 1 }
      else if text_eq route (codes "DEFER")
      then record m { total_defer = m.total_defer + 1 }
      else if text_eq route (codes "REFLECT")
      then record m { total_reflect = m.total_reflect + 1 }
      else record m { total_tdm = m.total_tdm + 1 }

  unfoldable pub count_validation : Bool → GovernanceMetrics fl → GovernanceMetrics fl
  count_validation validation_ok m =
      if validation_ok
      then record m { total_validation_pass = m.total_validation_pass + 1 }
      else record m { total_validation_fail = m.total_validation_fail + 1 }

  unfoldable pub count_scope : Text → GovernanceMetrics fl → GovernanceMetrics fl
  count_scope scope m =
      if text_eq scope (codes "PASS")
      then record m { total_scope_pass = m.total_scope_pass + 1 }
      else if text_eq scope (codes "REFUSE")
      then record m { total_scope_refuse = m.total_scope_refuse + 1 }
      else if text_eq scope (codes "REWRITE")
      then record m { total_scope_rewrite = m.total_scope_rewrite + 1 }
      else m

  -- A list past 1000 keeps its last 500.
  unfoldable pub add_latency : fl.F → List fl.F → List fl.F
  add_latency latency_ms xs =
      let longer : List fl.F = xs ++ latency_ms ∷ [] in
      if flt fl (fl.lit 0 1) latency_ms
      then (if ltb 1000 (length longer) then take_last 500 longer else longer)
      else xs

  unfoldable pub count_latency : fl.F → GovernanceMetrics fl → GovernanceMetrics fl
  unfolding add_latency
  count_latency latency_ms m = record m { latencies = add_latency latency_ms m.latencies }

  unfoldable pub count_one : GovernanceMetrics fl → GovernanceMetrics fl
  count_one m = record m {
    total_interactions = m.total_interactions + 1;
    total_epacks = m.total_epacks + 1;
  }

  unfoldable pub record_interaction :
      Text → Bool → Text → fl.F → GovernanceMetrics fl → GovernanceMetrics fl
  unfolding upper count_route count_validation count_scope count_latency count_one
  record_interaction route validation_ok scope_decision latency_ms m = count_latency latency_ms (
      count_scope (upper scope_decision)
        (count_validation validation_ok (count_route (upper route) (count_one m))))

  -- `a / b`, and `default` for no interactions
  unfoldable pub ratio : fl.F → ℕ → ℕ → fl.F
  ratio default a b = if b == 0 then default else fl.div (fl.lit a 1) (fl.lit b 1)

  unfoldable pub audit_completeness : GovernanceMetrics fl → fl.F
  unfolding ratio
  audit_completeness m = ratio (fl.lit 1 1) m.total_epacks m.total_interactions

  unfoldable pub safety_block_rate : GovernanceMetrics fl → fl.F
  unfolding ratio
  safety_block_rate m = ratio (fl.lit 0 1) m.total_bound m.total_interactions

  unfoldable pub validation_pass_rate : GovernanceMetrics fl → fl.F
  unfolding ratio
  validation_pass_rate m =
      ratio (fl.lit 1 1) m.total_validation_pass (m.total_validation_pass + m.total_validation_fail)

  unfoldable pub sum_latencies : fl.F → List fl.F → fl.F
  sum_latencies acc [] = acc
  sum_latencies acc (x ∷ xs) = sum_latencies (fl.add acc x) xs

  unfoldable pub avg_latency_ms : GovernanceMetrics fl → fl.F
  unfolding sum_latencies
  avg_latency_ms m = elim m.latencies [
    | [] ↦ fl.lit 0 1
    | x ∷ xs ↦ fl.div (sum_latencies (fl.lit 0 1) (x ∷ xs)) (fl.lit (length (x ∷ xs)) 1)
  ]

  -- `sorted(xs)`
  unfoldable pub insert_float : fl.F → List fl.F → List fl.F
  insert_float x [] = x ∷ []
  insert_float x (y ∷ ys) =
      let rest = insert_float x ys in if fl.le x y then x ∷ y ∷ ys else y ∷ rest

  unfoldable pub sort_floats : List fl.F → List fl.F
  unfolding insert_float
  sort_floats [] = []
  sort_floats (x ∷ xs) = insert_float x (sort_floats xs)

  -- `xs[i]` of a list that is long enough
  unfoldable pub at_index : ℕ → fl.F → List fl.F → fl.F
  at_index i default [] = default
  at_index zero default (x ∷ xs) = x
  at_index (suc i) default (x ∷ xs) = at_index i default xs

  unfoldable pub p95_latency_ms : (fl.F → ℕ) → GovernanceMetrics fl → fl.F
  unfolding sort_floats at_index
  p95_latency_ms int_of m =
      let n : ℕ = length m.latencies in
      let idx : ℕ = int_of (fl.mul (fl.lit n 1) (fl.lit 95 100)) in
      at_index (if ltb (n - 1) idx then n - 1 else idx) (fl.lit 0 1) (sort_floats m.latencies)
