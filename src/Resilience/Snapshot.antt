-- ===== src/Resilience/Snapshot.antt =====
-- src/ecosphere/meta_validation/circuit_breaker.py: what a snapshot of the breakers shows; and
-- damping_stabilizer.py: the reset of the controller. A float is shown as it is printed.
use beaconwise_tek.Base.{List, [], ◌∷◌, Text, codes}
use beaconwise_tek.Float.{Floats}
use beaconwise_tek.Json.{Items, Fields, num, real, str, obj, nil, cons, end, field}
use beaconwise_tek.Resilience.Breaker.{
  BreakerState, closed, opened, half_open, PlanBreaker, CircuitBreaker,
}
use beaconwise_tek.Resilience.Runtime.{DampingStabilizer}

unfoldable pub state_text : BreakerState → Text
state_text closed = codes "CLOSED"
state_text opened = codes "OPEN"
state_text half_open = codes "HALF_OPEN"

module _ (fl : Floats) where
  unfoldable pub breaker_row : PlanBreaker fl → Fields
  unfolding state_text
  breaker_row b = field (codes "plan_name") (str b.plan_name) (
      field (codes "state") (str (state_text b.state)) (
        field (codes "consecutive_failures") (num b.consecutive_failures) (
          field (codes "total_failures") (num b.total_failures) (
            field (codes "total_successes") (num b.total_successes) (
              field (codes "last_failure_ts") (real (fl.repr b.last_failure_ts))
                (field (codes "last_success_ts") (real (fl.repr b.last_success_ts)) end))))))

  unfoldable pub breaker_rows : List (PlanBreaker fl) → Items
  unfolding breaker_row
  breaker_rows [] = nil
  breaker_rows (b ∷ bs) = cons (obj (breaker_row b)) (breaker_rows bs)

  unfoldable pub state_snapshot : CircuitBreaker fl → Items
  unfolding breaker_rows
  state_snapshot cb = breaker_rows cb.breakers

  unfoldable pub reset_damping : DampingStabilizer fl → DampingStabilizer fl
  reset_damping d = record d {
    integral = fl.lit 0 1;
    prev_error = fl.lit 0 1;
    last_applied_ts = fl.lit 0 1;
  }
