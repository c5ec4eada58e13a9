-- ===== src/Governance/Adversarial/Detected.antt =====
-- What the detector reports of any sequence of interactions.
use beaconwise_tek.Base.{
  ℕ, suc, ◌+◌, ◌-◌, ◌≤◌, ◌≡◌, refl, sym, ap, ◌∙◌, subst, Bool, ◌&&◌, List, [], ◌∷◌, ◌++◌, map,
  append_assoc, append-nil, arith, leb, if◌then◌else◌, Text, codes, text_eq, length, take_last, any,
  length-append, push_bounded, push_bounded-take_last, drop-nil, take_last-take_last,
  take_last-shorter, length-take_last, leb-take_last,
}
use beaconwise_tek.Float.{Floats, flt}
use beaconwise_tek.Governance.Adversarial.{
  AnomalySignal, Interaction, GovernanceAnomalyDetector, signal_if, to_list, count_changes,
  new_detector, check_confidence_anomaly, check_route_flipping, check_validation_rate,
  check_consensus_divergence, track, new_signals, record_interaction,
}

-- A signal of the type is among them.
abbrev pub has_signal : Text → List AnomalySignal → Bool
has_signal t ss = any (λ s. text_eq s.signal_type t) ss

-- The signals of the four checks, by their tests.
abbrev signals_of : (a b c e : Bool) → List AnomalySignal
signals_of a b c e =
    to_list (signal_if a (codes "confidence_spike") (codes "medium"))
    ++ to_list (signal_if b (codes "route_flip") (codes "high"))
    ++ to_list (signal_if c (codes "validation_failure_rate") (codes "high"))
    ++ to_list (signal_if e (codes "consensus_divergence") (codes "critical"))

flip-signals_of : (a b c e : Bool) → has_signal (codes "route_flip") (signals_of a b c e) ≡ b
unfolding text_eq codes to_list signal_if
flip-signals_of a b c e = ground arith

rate-signals_of :
    (a b c e : Bool) → has_signal (codes "validation_failure_rate") (signals_of a b c e) ≡ c
unfolding text_eq codes to_list signal_if
rate-signals_of a b c e = ground arith

module _ (fl : Floats) (sqrt : fl.F → fl.F) where
  -- Any number of calls of `record_interaction`.
  unfoldable pub observe :
      List (Interaction fl) → GovernanceAnomalyDetector fl → GovernanceAnomalyDetector fl
  observe [] d = d
  observe (i ∷ is) d = observe is (record_interaction fl sqrt i d).1

  abbrev pub routes : List (Interaction fl) → List Text
  routes is = map (λ i. i.route) is

  abbrev pub count_failures : List (Interaction fl) → ℕ
  count_failures [] = 0
  count_failures (i ∷ is) =
      let rest = count_failures is in if i.validation_ok then rest else rest + 1

  -- What a detector holds of the interactions since it was new.
  abbrev Holds : ℕ → List (Interaction fl) → GovernanceAnomalyDetector fl → Type 0
  Holds w is d =
      (d.window_size ≡ w)
      × (d.route_history ≡ take_last w (routes is))
      × (d.total_interactions ≡ length is)
      × (d.validation_failures ≡ count_failures is)

  count_failures-append :
      (is js : List (Interaction fl))
      → count_failures (is ++ js) ≡ count_failures is + count_failures js
  count_failures-append [] js = omega arith
  count_failures-append (i ∷ is) js = ground (arith, count_failures-append is js)

  routes-append : (is js : List (Interaction fl)) → routes (is ++ js) ≡ routes is ++ routes js
  routes-append [] js = refl
  routes-append (i ∷ is) js = ap (λ rs. i.route ∷ rs) (routes-append is js)

  length-routes : (is : List (Interaction fl)) → length (routes is) ≡ length is
  length-routes [] = refl
  length-routes (i ∷ is) = ap suc (length-routes is)

  track-Holds :
      (w : ℕ) (is : List (Interaction fl)) (i : Interaction fl) (d : GovernanceAnomalyDetector fl)
      → Holds w is d
      → Holds w (is ++ i ∷ []) (track fl i d)
  unfolding track
  track-Holds w is i d (hw, hr, ht, hf) = (
    hw,
    ap (λ v. push_bounded v d.route_history i.route) hw
        ∙ (ap (λ h. push_bounded w h i.route) hr
            ∙ (push_bounded-take_last w (take_last w (routes is)) i.route
                  (length-take_last w (routes is))
                ∙ (take_last-take_last w (routes is) i.route
                    ∙ ap (take_last w) (sym (routes-append is (i ∷ [])))))),
    omega (arith, ht, length-append is (i ∷ [])),
    ground (arith, hf, count_failures-append is (i ∷ [])),
  )

  observe-Holds :
      (w : ℕ) (prev is : List (Interaction fl)) (d : GovernanceAnomalyDetector fl)
      → Holds w prev d
      → Holds w (prev ++ is) (observe is d)
  unfolding observe record_interaction
  observe-Holds w prev [] d h = subst (λ js. Holds w js d) (sym (append-nil prev)) h
  observe-Holds w prev (i ∷ is) d h =
      subst (λ js. Holds w js (observe is (record_interaction fl sqrt i d).1))
        (append_assoc prev (i ∷ []) is)
        (observe-Holds w (prev ++ i ∷ []) is (record_interaction fl sqrt i d).1
          (track-Holds w prev i d h))

  -- The detector after the interactions of a list, and what it then reports of one more.
  abbrev pub reported : ℕ → List (Interaction fl) → Interaction fl → List AnomalySignal
  reported w is i = (record_interaction fl sqrt i (observe is (new_detector fl w))).0

  new-Holds : (w : ℕ) → Holds w [] (new_detector fl w)
  unfolding new_detector
  new-Holds w = (refl, sym (drop-nil (0 - w)), refl, refl)

  flip_lem :
      (i : Interaction fl) (d : GovernanceAnomalyDetector fl)
      → has_signal (codes "route_flip") (new_signals fl sqrt i d)
        ≡ (leb 6 (length d.route_history) && leb 4 (count_changes (take_last 6 d.route_history)))
  unfolding new_signals check_confidence_anomaly check_route_flipping check_validation_rate
      check_consensus_divergence
  flip_lem i d = flip-signals_of _ _ _ _

  rate_lem :
      (i : Interaction fl) (d : GovernanceAnomalyDetector fl)
      → has_signal (codes "validation_failure_rate") (new_signals fl sqrt i d) ≡ (
          leb 10 d.total_interactions
          && flt fl
              (fl.lit 4 10)
              (fl.div (fl.lit d.validation_failures 1) (fl.lit d.total_interactions 1)))
  unfolding new_signals check_confidence_anomaly check_route_flipping check_validation_rate
      check_consensus_divergence
  rate_lem i d = rate-signals_of _ _ _ _

  -- Whatever a detector with a window of at least 6 has recorded, it reports a flip of routes exactly
  -- if the route has changed at least 4 times in the last 6 of all interactions, and a failing
  -- validation exactly if there have been 10 interactions and more than 4 in 10 of all of them failed.
  pub record_interaction-detects :
      (w : ℕ) (is : List (Interaction fl)) (i : Interaction fl)
      → 6 ≤ w
      → (has_signal (codes "route_flip") (reported w is i) ≡ (
          leb 6 (length (is ++ i ∷ []))
          && leb 4 (count_changes (take_last 6 (routes (is ++ i ∷ []))))))
        × (has_signal (codes "validation_failure_rate") (reported w is i) ≡ (
            leb 10 (length (is ++ i ∷ []))
            && flt fl (fl.lit 4 10) (
                fl.div
                  (fl.lit (count_failures (is ++ i ∷ [])) 1)
                  (fl.lit (length (is ++ i ∷ [])) 1))))
  unfolding record_interaction
  record_interaction-detects w is i h =
      let d : GovernanceAnomalyDetector fl = observe is (new_detector fl w) in
      let (hw, hr, ht, hf) =
        track-Holds w is i d (observe-Holds w [] is (new_detector fl w) (new-Holds w)) in
      (
        flip_lem i (track fl i d)
            ∙ (rw hr (
                rw
                  (
                    leb-take_last 6 w (routes (is ++ i ∷ [])) h,
                    take_last-shorter 6 w (routes (is ++ i ∷ [])) h,
                    length-routes (is ++ i ∷ []),
                  )
                  refl)),
        rate_lem i (track fl i d) ∙ (rw ht (rw hf refl)),
      )
