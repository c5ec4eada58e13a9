-- ===== src/Resilience/Breaker/Recovering.antt =====
-- A plan that failed comes back after the cooldown.
use beaconwise_tek.Base.{
  ℕ, ◌+◌, ◌≤◌, ◌≡◌, refl, inl, inr, true, false, List, [], ◌∷◌, arith, if◌then◌else◌, Bool-cases,
  Text, text_eq, text_eq_refl,
}
use beaconwise_tek.Float.{Floats}
use beaconwise_tek.Kernel.Gates.{contains_text}
use beaconwise_tek.Resilience.Breaker.{
  is_opened, is_half_open, BreakerConfig, PlanBreaker, CircuitBreaker, new_breaker, update,
  maybe_transition, is_blocked, transitions, blocked_names, excluded_plans, failed, record_failure,
}
use beaconwise_tek.Resilience.Breaker.Excluding.{
  breaker_of, breaker_of-transitions, failed-plan_name, breaker_of-failure,
}

module _ (fl : Floats) where
  -- The breakers of one name: a dict has at most one.
  abbrev pub count_named : Text → List (PlanBreaker fl) → ℕ
  count_named name [] = 0
  count_named name (b ∷ bs) =
      let rest = count_named name bs in if text_eq b.plan_name name then rest + 1 else rest

  count_named-update :
      (name : Text) (f : PlanBreaker fl → PlanBreaker fl) (bs : List (PlanBreaker fl))
      → ((b : PlanBreaker fl) → (f b).plan_name ≡ b.plan_name)
      → count_named name bs ≤ 1
      → count_named name (update fl name f bs) ≤ 1
  unfolding update new_breaker
  count_named-update name f [] same h =
      rw (same (new_breaker fl name), text_eq_refl name) (omega arith)
  count_named-update name f (b ∷ bs) same h = elim (Bool-cases (text_eq b.plan_name name)) [
    | inl y ↦ rw (y, same b, y) (rw y at h)
    | inr n ↦ rw (n, n) (count_named-update name f bs same (rw n at h))
  ]

  maybe_transition-plan_name :
      (c : BreakerConfig fl) (now : fl.F) (b : PlanBreaker fl)
      → (maybe_transition fl c now b).plan_name ≡ b.plan_name
  unfolding maybe_transition
  maybe_transition-plan_name c now b = ground arith

  count_named-transitions :
      (c : BreakerConfig fl) (now : fl.F) (name : Text) (bs : List (PlanBreaker fl))
      → count_named name (transitions fl c now bs) ≡ count_named name bs
  unfolding transitions
  count_named-transitions c now name [] = refl
  count_named-transitions c now name (b ∷ bs) =
      rw (maybe_transition-plan_name c now b, count_named-transitions c now name bs) refl

  none-blocked :
      (c : BreakerConfig fl) (name : Text) (bs : List (PlanBreaker fl))
      → count_named name bs ≤ 0
      → contains_text name (blocked_names fl c bs) ≡ false
  unfolding blocked_names contains_text
  none-blocked c name [] h = refl
  none-blocked c name (b ∷ bs) h = elim (Bool-cases (text_eq b.plan_name name)) [
    | inl y ↦ absurd (omega (arith, (rw y at h)))
    | inr n ↦ let later = none-blocked c name bs (rw n at h) in ground arith
  ]

  not_blocked-contains :
      (c : BreakerConfig fl) (name : Text) (bs : List (PlanBreaker fl))
      → count_named name bs ≤ 1
      → is_blocked fl c (breaker_of fl name bs) ≡ false
      → contains_text name (blocked_names fl c bs) ≡ false
  unfolding breaker_of blocked_names contains_text
  not_blocked-contains c name [] h e = refl
  not_blocked-contains c name (b ∷ bs) h e = elim (Bool-cases (text_eq b.plan_name name)) [
    | inl y ↦
        let free : is_blocked fl c b ≡ false = rw y at e in
        rw free (none-blocked c name bs (omega (arith, (rw y at h))))
    | inr n ↦ let later = not_blocked-contains c name bs (rw n at h) (rw n at e) in ground arith
  ]

  cooled-free :
      (c : BreakerConfig fl) (t now : fl.F) (b : PlanBreaker fl)
      → fl.le c.cooldown_seconds (fl.sub now t) ≡ true
      → 1 ≤ c.half_open_max_attempts
      → is_blocked fl c (maybe_transition fl c now (failed fl c t b)) ≡ false
  unfolding is_blocked maybe_transition is_opened failed is_half_open
  cooled-free c t now b over some_attempts = ground arith

  -- Where an attempt is allowed to a plan that is half open, a plan is selectable again, however often
  -- it has failed, as soon as the cooldown behind its last failure is over.
  pub record_failure-recovers :
      (name : Text) (t now : fl.F) (cb : CircuitBreaker fl)
      → count_named name cb.breakers ≤ 1
      → fl.le cb.config.cooldown_seconds (fl.sub now t) ≡ true
      → 1 ≤ cb.config.half_open_max_attempts
      → contains_text name (excluded_plans fl now (record_failure fl name t cb)).1 ≡ false
  unfolding excluded_plans record_failure
  record_failure-recovers name t now cb one over some_attempts =
      let after : List (PlanBreaker fl) = (record_failure fl name t cb).breakers in
      let still : count_named name after ≤ 1 =
        count_named-update name (failed fl cb.config t) cb.breakers
          (failed-plan_name fl cb.config t) one in
      not_blocked-contains cb.config name (transitions fl cb.config now after)
        (rw (count_named-transitions cb.config now name after) still)
        (rw (breaker_of-transitions fl cb.config now name after, breaker_of-failure fl name t cb)
          (cooled-free cb.config t now (breaker_of fl name cb.breakers) over some_attempts))
