-- ===== src/Resilience/Breaker/Excluding.antt =====
-- A plan that keeps failing is kept from selection.
use beaconwise_tek.Base.{
  ◌+◌, ◌≤◌, ◌≡◌, refl, ap, inl, inr, true, false, List, [], ◌∷◌, arith, if◌then◌else◌, Bool-cases,
  Text, text_eq, text_eq_refl, length,
}
use beaconwise_tek.Float.{Floats}
use beaconwise_tek.Kernel.Gates.{contains_text}
use beaconwise_tek.Resilience.Breaker.{
  opened, is_opened, is_half_open, BreakerConfig, PlanBreaker, CircuitBreaker, new_breaker, update,
  maybe_transition, is_blocked, transitions, blocked_names, excluded_plans, failed, record_failure,
}

module _ (fl : Floats) where
  -- The breaker that `_get` gives for a name.
  unfoldable pub breaker_of : Text → List (PlanBreaker fl) → PlanBreaker fl
  breaker_of name [] = new_breaker fl name
  breaker_of name (b ∷ bs) =
      let rest : PlanBreaker fl = breaker_of name bs in if text_eq b.plan_name name then b else rest

  -- Failures of one plan, one after the other.
  unfoldable pub failures : Text → List fl.F → CircuitBreaker fl → CircuitBreaker fl
  failures name [] cb = cb
  failures name (t ∷ ts) cb = failures name ts (record_failure fl name t cb)

  breaker_of-update :
      (name : Text) (f : PlanBreaker fl → PlanBreaker fl) (bs : List (PlanBreaker fl))
      → ((b : PlanBreaker fl) → (f b).plan_name ≡ b.plan_name)
      → breaker_of name (update fl name f bs) ≡ f (breaker_of name bs)
  unfolding breaker_of update new_breaker
  breaker_of-update name f [] same = rw (same (new_breaker fl name), text_eq_refl name) refl
  breaker_of-update name f (b ∷ bs) same = elim (Bool-cases (text_eq b.plan_name name)) [
    | inl y ↦ rw (y, same b, y) refl
    | inr n ↦ rw (n, n) (breaker_of-update name f bs same)
  ]

  pub breaker_of-transitions :
      (c : BreakerConfig fl) (now : fl.F) (name : Text) (bs : List (PlanBreaker fl))
      → breaker_of name (transitions fl c now bs) ≡ maybe_transition fl c now (breaker_of name bs)
  unfolding breaker_of transitions maybe_transition new_breaker is_opened
  breaker_of-transitions c now name [] = refl
  breaker_of-transitions c now name (b ∷ bs) =
      let later = breaker_of-transitions c now name bs in ground arith

  blocked-contains :
      (c : BreakerConfig fl) (name : Text) (bs : List (PlanBreaker fl))
      → is_blocked fl c (breaker_of name bs) ≡ true
      → contains_text name (blocked_names fl c bs) ≡ true
  unfolding breaker_of blocked_names new_breaker is_blocked is_opened is_half_open contains_text
  blocked-contains c name [] e = cc
  blocked-contains c name (b ∷ bs) e = elim (Bool-cases (text_eq b.plan_name name)) [
    | inl y ↦ ground arith
    | inr n ↦ let later = blocked-contains c name bs (rw n at e) in ground arith
  ]

  pub failed-plan_name :
      (c : BreakerConfig fl) (now : fl.F) (b : PlanBreaker fl)
      → (failed fl c now b).plan_name ≡ b.plan_name
  unfolding failed
  failed-plan_name c now b = ground arith

  pub breaker_of-failure :
      (name : Text) (t : fl.F) (cb : CircuitBreaker fl)
      → breaker_of name (record_failure fl name t cb).breakers
        ≡ failed fl cb.config t (breaker_of name cb.breakers)
  unfolding record_failure
  breaker_of-failure name t cb =
      breaker_of-update name (failed fl cb.config t) cb.breakers (failed-plan_name cb.config t)

  failed-counts :
      (c : BreakerConfig fl) (now : fl.F) (b : PlanBreaker fl)
      → (failed fl c now b).consecutive_failures ≡ b.consecutive_failures + 1
  unfolding failed
  failed-counts c now b = ground arith

  failures-config :
      (name : Text) (ts : List fl.F) (cb : CircuitBreaker fl)
      → (failures name ts cb).config ≡ cb.config
  unfolding failures record_failure
  failures-config name [] cb = refl
  failures-config name (t ∷ ts) cb = failures-config name ts (record_failure fl name t cb)

  failures-counts :
      (name : Text) (ts : List fl.F) (cb : CircuitBreaker fl)
      → (breaker_of name (failures name ts cb).breakers).consecutive_failures
        ≡ length ts + (breaker_of name cb.breakers).consecutive_failures
  unfolding failures
  failures-counts name [] cb = omega arith
  failures-counts name (t ∷ ts) cb =
      let next : CircuitBreaker fl = record_failure fl name t cb in
      let later = failures-counts name ts next in
      let step = ap (λ b. b.consecutive_failures) (breaker_of-failure name t cb) in
      let one = failed-counts cb.config t (breaker_of name cb.breakers) in omega arith

  failed-opened :
      (c : BreakerConfig fl) (t : fl.F) (b : PlanBreaker fl)
      → c.failure_threshold ≤ b.consecutive_failures + 1
      → ((failed fl c t b).state ≡ opened) × ((failed fl c t b).last_failure_ts ≡ t)
  unfolding failed
  failed-opened c t b enough = ground arith

  opened-blocked :
      (c : BreakerConfig fl) (now : fl.F) (b : PlanBreaker fl)
      → b.state ≡ opened
      → fl.le c.cooldown_seconds (fl.sub now b.last_failure_ts) ≡ false
      → is_blocked fl c (maybe_transition fl c now b) ≡ true
  unfolding is_blocked maybe_transition is_opened
  opened-blocked c now b o cold = ground arith

  -- No death spiral: a plan that fails as often in a row as the threshold says, whatever the state
  -- of its breaker was, is among the excluded plans until the cooldown behind its last failure is over.
  pub failures-excluded :
      (name : Text) (ts : List fl.F) (t now : fl.F) (cb : CircuitBreaker fl)
      → cb.config.failure_threshold ≤ length ts + 1
      → fl.le cb.config.cooldown_seconds (fl.sub now t) ≡ false
      → contains_text name
          (excluded_plans fl now (record_failure fl name t (failures name ts cb))).1
        ≡ true
  unfolding excluded_plans record_failure
  failures-excluded name ts t now cb enough cold =
      let before : CircuitBreaker fl = failures name ts cb in
      let b : PlanBreaker fl = breaker_of name before.breakers in
      let same = failures-config name ts cb in
      let (o, l) =
        failed-opened before.config t b
          (rw same (let n = failures-counts name ts cb in omega arith)) in
      let blocked =
        opened-blocked before.config now (failed fl before.config t b) o (rw (l, same) cold) in
      blocked-contains before.config name
        (transitions fl before.config now (record_failure fl name t before).breakers)
        (rw
          (
            breaker_of-transitions before.config now name
                (record_failure fl name t before).breakers,
            breaker_of-failure name t before,
          )
          blocked)
