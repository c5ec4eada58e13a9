-- ===== src/Resilience/Tracker/Signal.antt =====
-- The bounds of what the tracker computes.
use beaconwise_tek.Base.{◌≡◌, true, List, [], ◌∷◌, arith, Text}
use beaconwise_tek.Float.{Floats, IsOrdered, clamp_bounds}
use beaconwise_tek.Resilience.Tracker.{
  InteractionOutcome, TsiTracker, score_of, scores_of, forecast_of, dependency_metrics,
}

module _ (fl : Floats) (o : IsOrdered fl) where
  abbrev pub InUnit : fl.F → Type 0
  InUnit x = (fl.le (fl.lit 0 1) x ≡ true) × (fl.le x (fl.lit 1 1) ≡ true)

  abbrev pub AllInUnit : List fl.F → Type 0
  AllInUnit [] = Unit {0}
  AllInUnit (x ∷ xs) = InUnit x × AllInUnit xs

  zero_le_one : fl.le (fl.lit 0 1) (fl.lit 1 1) ≡ true
  zero_le_one = o.lit-le 0 1 1 1 (omega arith) (omega arith) (omega arith)

  scores-AllInUnit :
      (t : TsiTracker fl) (os : List (InteractionOutcome fl)) → AllInUnit (scores_of fl t os)
  unfolding scores_of score_of
  scores-AllInUnit t [] = tt
  scores-AllInUnit t (x ∷ os) =
      (clamp_bounds fl o (fl.lit 0 1) (fl.lit 1 1) _ zero_le_one, scores-AllInUnit t os)

  -- Whatever the outcomes and the penalties of a tracker, every score that it takes the mean of is
  -- between 0 and 1, and so are the forecast before its rounding, whatever the mean and the trend,
  -- and the concentration index of any weights.
  pub scores-InUnit :
      (t : TsiTracker fl) (os : List (InteractionOutcome fl)) (tsi trend : fl.F)
      (weights : List (Text × fl.F))
      → AllInUnit (scores_of fl t os)
        × InUnit (forecast_of fl tsi trend)
        × InUnit (dependency_metrics fl weights).1
  unfolding forecast_of dependency_metrics
  scores-InUnit t os tsi trend [] = (
    scores-AllInUnit t os,
    clamp_bounds fl o (fl.lit 0 1) (fl.lit 1 1) _ zero_le_one,
    (zero_le_one, o.le_refl (fl.lit 1 1)),
  )
  scores-InUnit t os tsi trend (w ∷ ws) = (
    scores-AllInUnit t os,
    clamp_bounds fl o (fl.lit 0 1) (fl.lit 1 1) _ zero_le_one,
    clamp_bounds fl o (fl.lit 0 1) (fl.lit 1 1) _ zero_le_one,
  )
