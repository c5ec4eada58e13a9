-- ===== src/Resilience/Breaker.antt =====
-- src/ecosphere/meta_validation/circuit_breaker.py: breakers per plan. The dict of breakers is the
-- list of its values in the order of insertion, and a time is an argument.
pub mod Excluding
pub mod Recovering
pub mod Tripping
use beaconwise_tek.Base.{
  ℕ, zero, suc, ◌+◌, ◌-◌, ◌*◌, ◌≤◌, ◌<◌, String, ◌≡◌, refl, sym, ap, ◌∙◌, subst, ◌≢◌, ◌↔◌, ◌⊎◌, inl,
  inr, Bool, true, false, not, ◌&&◌, ◌||◌, Option, none, some, List, [], ◌∷◌, ◌++◌, map,
  append_assoc, append-nil, arith, ltb, leb, ◌==◌, if◌then◌else◌, ltb→lt, lt→ltb, leb→le, le→leb,
  ==→eq, eq→==, Bool-cases, and_true, Option-cases, Text, codes, text_eq, text_lt, text_eq→eq,
  text_eq_refl, eq→text_eq, truthy, length, take, drop, take_last, any, all, length-append,
}
use beaconwise_tek.Float.{Floats, flt}

-- The strings CLOSED, OPEN and HALF_OPEN.
pub data BreakerState : Type 0 where
  closed opened half_open : BreakerState

unfoldable pub is_opened : BreakerState → Bool
is_opened opened = true
is_opened _ = false

unfoldable pub is_half_open : BreakerState → Bool
is_half_open half_open = true
is_half_open _ = false

module _ (fl : Floats) where
  pub record BreakerConfig : Type 0 where
    pub failure_threshold : ℕ
    pub cooldown_seconds : fl.F
    pub half_open_max_attempts : ℕ

  pub record PlanBreaker : Type 0 where
    pub plan_name : Text
    pub consecutive_failures : ℕ
    pub state : BreakerState
    pub last_failure_ts : fl.F
    pub last_success_ts : fl.F
    pub half_open_attempts : ℕ
    pub total_failures : ℕ
    pub total_successes : ℕ

  pub record CircuitBreaker : Type 0 where
    pub config : BreakerConfig
    pub breakers : List PlanBreaker

  -- `PlanBreaker(plan_name=..)`
  unfoldable pub new_breaker : Text → PlanBreaker
  new_breaker plan_name = record {
    plan_name = plan_name;
    consecutive_failures = 0;
    state = closed;
    last_failure_ts = fl.lit 0 1;
    last_success_ts = fl.lit 0 1;
    half_open_attempts = 0;
    total_failures = 0;
    total_successes = 0;
  }

  -- `b = self._get(plan_name)` and what is then done to `b`
  unfoldable pub update : Text → (PlanBreaker → PlanBreaker) → List PlanBreaker → List PlanBreaker
  unfolding new_breaker
  update name f [] = f (new_breaker name) ∷ []
  update name f (b ∷ bs) =
      let rest : List PlanBreaker = update name f bs in
      if text_eq b.plan_name name then f b ∷ bs else b ∷ rest

  unfoldable pub maybe_transition : BreakerConfig → fl.F → PlanBreaker → PlanBreaker
  unfolding is_opened
  maybe_transition c now b =
      if is_opened b.state && fl.le c.cooldown_seconds (fl.sub now b.last_failure_ts)
      then record b { state = half_open; half_open_attempts = 0 }
      else b

  -- Is a plan blocked, behind the transition
  unfoldable pub is_blocked : BreakerConfig → PlanBreaker → Bool
  unfolding is_opened is_half_open
  is_blocked c b =
      is_opened b.state
      || (is_half_open b.state && leb c.half_open_max_attempts b.half_open_attempts)

  unfoldable pub transitions : BreakerConfig → fl.F → List PlanBreaker → List PlanBreaker
  unfolding maybe_transition
  transitions c now [] = []
  transitions c now (b ∷ bs) = maybe_transition c now b ∷ transitions c now bs

  unfoldable pub blocked_names : BreakerConfig → List PlanBreaker → List Text
  unfolding is_blocked
  blocked_names c [] = []
  blocked_names c (b ∷ bs) =
      let rest : List Text = blocked_names c bs in
      if is_blocked c b then b.plan_name ∷ rest else rest

  unfoldable pub excluded_plans : fl.F → CircuitBreaker → CircuitBreaker × List Text
  unfolding transitions blocked_names
  excluded_plans now cb =
      let bs : List PlanBreaker = transitions cb.config now cb.breakers in
      (record cb { breakers = bs }, blocked_names cb.config bs)

  unfoldable pub succeeded : fl.F → PlanBreaker → PlanBreaker
  succeeded now b = record b {
    consecutive_failures = 0;
    state = closed;
    last_success_ts = now;
    half_open_attempts = 0;
    total_successes = b.total_successes + 1;
  }

  unfoldable pub failed : BreakerConfig → fl.F → PlanBreaker → PlanBreaker
  unfolding is_half_open
  failed c now b =
      let counted : PlanBreaker = record b {
        consecutive_failures = b.consecutive_failures + 1;
        total_failures = b.total_failures + 1;
        last_failure_ts = now;
      } in
      if is_half_open b.state
      then record counted { state = opened; half_open_attempts = 0 }
      else if leb c.failure_threshold (b.consecutive_failures + 1)
      then record counted { state = opened }
      else counted

  unfoldable pub record_success : Text → fl.F → CircuitBreaker → CircuitBreaker
  unfolding update succeeded
  record_success name now cb = record cb { breakers = update name (succeeded now) cb.breakers }

  unfoldable pub record_failure : Text → fl.F → CircuitBreaker → CircuitBreaker
  unfolding update failed
  record_failure name now cb = record cb {
    breakers = update name (failed cb.config now) cb.breakers;
  }

  unfoldable pub probed : PlanBreaker → PlanBreaker
  unfolding is_half_open
  probed b =
      if is_half_open b.state then record b { half_open_attempts = b.half_open_attempts + 1 } else b

  unfoldable pub record_half_open_attempt : Text → CircuitBreaker → CircuitBreaker
  unfolding update probed
  record_half_open_attempt name cb = record cb { breakers = update name probed cb.breakers }

  unfoldable pub renew : Text → List PlanBreaker → List PlanBreaker
  unfolding new_breaker
  renew name [] = []
  renew name (b ∷ bs) =
      let rest : List PlanBreaker = renew name bs in
      if text_eq b.plan_name name then new_breaker name ∷ bs else b ∷ rest

  -- `reset`; an empty name counts as none
  unfoldable pub reset : Option Text → CircuitBreaker → CircuitBreaker
  unfolding renew
  reset none cb = record cb { breakers = [] }
  reset (some name) cb = record cb { breakers = if truthy name then renew name cb.breakers else [] }
