-- ===== src/Resilience/Breaker/Tripping.antt =====
-- When a breaker is closed, and how long it keeps a plan from selection.
use beaconwise_tek.Base.{
  ◌<◌, ◌≡◌, inl, inr, Bool, true, false, Option, none, some, List, [], ◌∷◌, arith, ltb, Bool-cases,
  Text, text_eq, truthy,
}
use beaconwise_tek.Float.{Floats}
use beaconwise_tek.Resilience.Breaker.{
  BreakerState, closed, is_opened, is_half_open, BreakerConfig, PlanBreaker, CircuitBreaker,
  new_breaker, update, maybe_transition, transitions, excluded_plans, succeeded, failed,
  record_success, record_failure, probed, record_half_open_attempt, renew, reset,
}

-- The operations of a circuit breaker.
pub data BreakerOp (fl : Floats) : Type 0 where
  success failure : Text → fl.F → BreakerOp fl
  probe : Text → BreakerOp fl
  listing : fl.F → BreakerOp fl
  resetting : Option Text → BreakerOp fl

module _ (fl : Floats) where
  unfoldable pub run_op : BreakerOp fl → CircuitBreaker fl → CircuitBreaker fl
  run_op (success name now) cb = record_success fl name now cb
  run_op (failure name now) cb = record_failure fl name now cb
  run_op (probe name) cb = record_half_open_attempt fl name cb
  run_op (listing now) cb = (excluded_plans fl now cb).0
  run_op (resetting name) cb = reset fl name cb

  abbrev pub is_closed : BreakerState → Bool
  is_closed closed = true
  is_closed _ = false

  -- A breaker is closed exactly when its consecutive failures are fewer than the threshold.
  abbrev pub IsTight : BreakerConfig fl → PlanBreaker fl → Type 0
  IsTight c b = is_closed b.state ≡ ltb b.consecutive_failures c.failure_threshold

  abbrev pub AllTight : BreakerConfig fl → List (PlanBreaker fl) → Type 0
  AllTight c [] = Unit
  AllTight c (b ∷ bs) = IsTight c b × AllTight c bs

  new-IsTight :
      (c : BreakerConfig fl) (name : Text)
      → 0 < c.failure_threshold
      → IsTight c (new_breaker fl name)
  unfolding new_breaker
  new-IsTight c name p = ground arith

  succeeded-IsTight :
      (c : BreakerConfig fl) (now : fl.F) (b : PlanBreaker fl)
      → 0 < c.failure_threshold
      → IsTight c (succeeded fl now b)
  unfolding succeeded
  succeeded-IsTight c now b p = ground arith

  failed-IsTight :
      (c : BreakerConfig fl) (now : fl.F) (b : PlanBreaker fl)
      → IsTight c b
      → IsTight c (failed fl c now b)
  unfolding failed is_half_open
  failed-IsTight c now b t = ground arith

  probed-IsTight :
      (c : BreakerConfig fl) (b : PlanBreaker fl) → IsTight c b → IsTight c (probed fl b)
  unfolding probed
  probed-IsTight c b t = ground arith

  transition-IsTight :
      (c : BreakerConfig fl) (now : fl.F) (b : PlanBreaker fl)
      → IsTight c b
      → IsTight c (maybe_transition fl c now b)
  unfolding maybe_transition is_opened
  transition-IsTight c now b t = ground arith

  update-AllTight :
      (c : BreakerConfig fl) (name : Text) (f : PlanBreaker fl → PlanBreaker fl)
      (bs : List (PlanBreaker fl))
      → 0 < c.failure_threshold
      → ((b : PlanBreaker fl) → IsTight c b → IsTight c (f b))
      → AllTight c bs
      → AllTight c (update fl name f bs)
  unfolding update
  update-AllTight c name f [] p step t = (step (new_breaker fl name) (new-IsTight c name p), tt)
  update-AllTight c name f (b ∷ bs) p step t = elim (Bool-cases (text_eq b.plan_name name)) [
    | inl y ↦ rw y (step b t.0, t.1)
    | inr n ↦ rw n (t.0, update-AllTight c name f bs p step t.1)
  ]

  renew-AllTight :
      (c : BreakerConfig fl) (name : Text) (bs : List (PlanBreaker fl))
      → 0 < c.failure_threshold
      → AllTight c bs
      → AllTight c (renew fl name bs)
  unfolding renew
  renew-AllTight c name [] p t = tt
  renew-AllTight c name (b ∷ bs) p t = elim (Bool-cases (text_eq b.plan_name name)) [
    | inl y ↦ rw y (new-IsTight c name p, t.1)
    | inr n ↦ rw n (t.0, renew-AllTight c name bs p t.1)
  ]

  transitions-AllTight :
      (c : BreakerConfig fl) (now : fl.F) (bs : List (PlanBreaker fl))
      → AllTight c bs
      → AllTight c (transitions fl c now bs)
  unfolding transitions
  transitions-AllTight c now [] t = tt
  transitions-AllTight c now (b ∷ bs) t =
      (transition-IsTight c now b t.0, transitions-AllTight c now bs t.1)

  -- Under a positive threshold, every operation of a circuit breaker keeps this: each plan's breaker
  -- is CLOSED exactly when its consecutive failures are fewer than the threshold.
  pub run_op-AllTight :
      (op : BreakerOp fl) (cb : CircuitBreaker fl)
      → 0 < cb.config.failure_threshold
      → AllTight cb.config cb.breakers
      → AllTight (run_op op cb).config (run_op op cb).breakers
  unfolding run_op record_success record_failure record_half_open_attempt excluded_plans reset
  run_op-AllTight (success name now) cb p t =
      update-AllTight cb.config name (succeeded fl now) cb.breakers p
        (λ b u. succeeded-IsTight cb.config now b p) t
  run_op-AllTight (failure name now) cb p t =
      update-AllTight cb.config name (failed fl cb.config now) cb.breakers p
        (λ b u. failed-IsTight cb.config now b u) t
  run_op-AllTight (probe name) cb p t =
      update-AllTight cb.config name (probed fl) cb.breakers p (λ b u. probed-IsTight cb.config b u)
        t
  run_op-AllTight (listing now) cb p t = transitions-AllTight cb.config now cb.breakers t
  run_op-AllTight (resetting none) cb p t = tt
  run_op-AllTight (resetting (some name)) cb p t = elim (Bool-cases (truthy name)) [
    | inl y ↦ rw y (renew-AllTight cb.config name cb.breakers p t)
    | inr n ↦ rw n tt
  ]
