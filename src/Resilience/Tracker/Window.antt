-- ===== src/Resilience/Tracker/Window.antt =====
-- The window of the tracker holds the last outcomes.
use beaconwise_tek.Base.{
  ℕ, ◌-◌, ◌≤◌, ◌≡◌, sym, ap, ◌∙◌, subst, List, [], ◌∷◌, ◌++◌, append_assoc, append-nil, arith,
  length, take_last, drop-nil, take_last-take_last, length-take_last,
}
use beaconwise_tek.Float.{Floats}
use beaconwise_tek.Resilience.Tracker.{InteractionOutcome, TsiTracker, new_tracker, record_one}

module _ (fl : Floats) where
  -- Any number of calls of `record`.
  unfoldable pub record_all : List (InteractionOutcome fl) → TsiTracker fl → TsiTracker fl
  record_all [] t = t
  record_all (o ∷ os) t = record_all os (record_one fl o t)

  window_lem :
      (os prev : List (InteractionOutcome fl)) (t : TsiTracker fl)
      → t.buffer ≡ take_last t.window_size prev
      → (record_all os t).buffer ≡ take_last t.window_size (prev ++ os)
  unfolding record_all record_one
  window_lem [] prev t e = e ∙ ap (take_last t.window_size) (sym (append-nil prev))
  window_lem (o ∷ os) prev t e =
      let step : (record_one fl o t).buffer ≡ take_last t.window_size (prev ++ o ∷ []) =
        ap (λ b. take_last t.window_size (b ++ o ∷ [])) e
        ∙ take_last-take_last t.window_size prev o in
      window_lem os (prev ++ o ∷ []) (record_one fl o t) step
      ∙ ap (take_last t.window_size) (append_assoc prev (o ∷ []) os)

  -- A new tracker that has recorded any outcomes holds the last of them, in their order: as many as
  -- its window takes, which are at least five, or all of them.
  pub record_all-IsWindow :
      (size : ℕ) (os : List (InteractionOutcome fl))
      → ((record_all os (new_tracker fl size)).buffer
          ≡ take_last (new_tracker fl size).window_size os)
        × (length (record_all os (new_tracker fl size)).buffer ≤ (new_tracker fl size).window_size)
        × (5 ≤ (new_tracker fl size).window_size)
  unfolding new_tracker
  record_all-IsWindow size os =
      let w : ℕ = (new_tracker fl size).window_size in
      let same : (record_all os (new_tracker fl size)).buffer ≡ take_last w os =
        window_lem os [] (new_tracker fl size) (sym (drop-nil (0 - w))) in
      let five_le : 5 ≤ w = ground arith in
      (same, subst (λ b. length b ≤ w) (sym same) (length-take_last w os), five_le)
