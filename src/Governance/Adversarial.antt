-- ===== src/Governance/Adversarial.antt =====
-- src/ecosphere/governance/adversarial.py: the detector of anomalies and the checks of texts and of
-- models. The time stamp, the description and the details of a signal, which are only reported, are
-- left out. `math.sqrt` is the argument `sqrt`.
pub mod Detected
use beaconwise_tek.Base.{
  ℕ, zero, suc, ◌+◌, ◌-◌, ◌*◌, ◌≤◌, ◌<◌, String, ◌≡◌, refl, sym, ap, ◌∙◌, subst, ◌≢◌, ◌↔◌, ◌⊎◌, inl,
  inr, Bool, true, false, not, ◌&&◌, ◌||◌, Option, none, some, List, [], ◌∷◌, ◌++◌, map,
  append_assoc, append-nil, arith, ltb, leb, ◌==◌, if◌then◌else◌, ltb→lt, lt→ltb, leb→le, le→leb,
  ==→eq, eq→==, Bool-cases, and_true, Option-cases, Text, codes, text_eq, text_lt, text_eq→eq,
  text_eq_refl, eq→text_eq, truthy, length, take, drop, take_last, any, all, length-append,
  push_bounded,
}
use beaconwise_tek.Float.{Floats, flt}
use beaconwise_tek.Kernel.Patterns.{lower}
use beaconwise_tek.Kernel.Router.{has_substring}

pub record AnomalySignal : Type 0 where
  pub signal_type : Text
  pub severity : Text

-- What is recorded of an interaction; no scores are the empty list.
pub record Interaction (fl : Floats) : Type 0 where
  pub confidence : fl.F
  pub route : Text
  pub validation_ok : Bool
  pub consensus_scores : List fl.F

pub record GovernanceAnomalyDetector (fl : Floats) : Type 0 where
  pub window_size : ℕ
  pub confidence_history : List fl.F
  pub route_history : List Text
  pub validation_failures : ℕ
  pub total_interactions : ℕ
  pub signals : List AnomalySignal

unfoldable pub signal_if : Bool → Text → Text → Option AnomalySignal
signal_if b signal_type severity =
    if b then some record { signal_type = signal_type; severity = severity } else none

-- `if sig: new_signals.append(sig)`
unfoldable pub to_list : Option AnomalySignal → List AnomalySignal
to_list none = []
to_list (some sig) = sig ∷ []

-- The changes from one route to the next.
unfoldable pub count_changes : List Text → ℕ
count_changes [] = 0
count_changes (a ∷ []) = 0
count_changes (a ∷ b ∷ rs) =
    let rest = count_changes (b ∷ rs) in if text_eq a b then rest else rest + 1

unfoldable pub severity_order : Text → ℕ
severity_order s =
    if text_eq s (codes "medium")
    then 1
    else if text_eq s (codes "high")
    then 2
    else if text_eq s (codes "critical")
    then 3
    else 0

unfoldable pub select_from : ℕ → List AnomalySignal → List AnomalySignal
unfolding severity_order
select_from threshold [] = []
select_from threshold (s ∷ ss) =
    let rest = select_from threshold ss in
    if leb threshold (severity_order s.severity) then s ∷ rest else rest

module _ (fl : Floats) where
  unfoldable pub new_detector : ℕ → GovernanceAnomalyDetector fl
  new_detector window_size = record {
    window_size = window_size;
    confidence_history = [];
    route_history = [];
    validation_failures = 0;
    total_interactions = 0;
    signals = [];
  }

  unfoldable pub abs : fl.F → fl.F
  abs x = if flt fl x (fl.lit 0 1) then fl.sub (fl.lit 0 1) x else x

  unfoldable pub sum_floats : fl.F → List fl.F → fl.F
  sum_floats acc [] = acc
  sum_floats acc (x ∷ xs) = sum_floats (fl.add acc x) xs

  unfoldable pub mean_of : List fl.F → fl.F
  unfolding sum_floats
  mean_of xs = fl.div (sum_floats (fl.lit 0 1) xs) (fl.lit (length xs) 1)

  unfoldable pub check_confidence_anomaly :
      fl.F → GovernanceAnomalyDetector fl → Option AnomalySignal
  unfolding mean_of abs
  check_confidence_anomaly current d =
      let mean : fl.F = mean_of (take_last 5 d.confidence_history) in
      signal_if
        (leb 5 (length d.confidence_history) && flt fl (fl.lit 3 10) (abs (fl.sub current mean)))
        (codes "confidence_spike") (codes "medium")

  unfoldable pub check_route_flipping : GovernanceAnomalyDetector fl → Option AnomalySignal
  unfolding count_changes
  check_route_flipping d =
      signal_if
        (leb 6 (length d.route_history) && leb 4 (count_changes (take_last 6 d.route_history)))
        (codes "route_flip") (codes "high")

  unfoldable pub check_validation_rate : GovernanceAnomalyDetector fl → Option AnomalySignal
  check_validation_rate d =
      signal_if
        (leb 10 d.total_interactions
          && flt fl (fl.lit 4 10)
              (fl.div (fl.lit d.validation_failures 1) (fl.lit d.total_interactions 1)))
        (codes "validation_failure_rate") (codes "high")

  unfoldable pub squares_from : fl.F → List fl.F → List fl.F
  squares_from mean [] = []
  squares_from mean (s ∷ ss) = fl.mul (fl.sub s mean) (fl.sub s mean) ∷ squares_from mean ss

  unfoldable pub check_consensus_divergence : (fl.F → fl.F) → List fl.F → Option AnomalySignal
  unfolding mean_of squares_from
  check_consensus_divergence sqrt scores =
      let std : fl.F = sqrt (mean_of (squares_from (mean_of scores) scores)) in
      signal_if (leb 2 (length scores) && flt fl (fl.lit 35 100) std) (codes "consensus_divergence")
        (codes "critical")

  -- The counters and histories after an interaction.
  unfoldable pub track :
      Interaction fl → GovernanceAnomalyDetector fl → GovernanceAnomalyDetector fl
  track i d = record d {
    total_interactions = d.total_interactions + 1;
    confidence_history = push_bounded d.window_size d.confidence_history i.confidence;
    route_history = push_bounded d.window_size d.route_history i.route;
    validation_failures =
        if i.validation_ok then d.validation_failures else d.validation_failures + 1;
  }

  unfoldable pub new_signals :
      (fl.F → fl.F) → Interaction fl → GovernanceAnomalyDetector fl → List AnomalySignal
  unfolding to_list check_confidence_anomaly check_route_flipping check_validation_rate
      check_consensus_divergence
  new_signals sqrt i d =
      to_list (check_confidence_anomaly i.confidence d)
      ++ to_list (check_route_flipping d)
      ++ to_list (check_validation_rate d)
      ++ to_list (check_consensus_divergence sqrt i.consensus_scores)

  unfoldable pub record_interaction :
      (fl.F → fl.F)
      → Interaction fl
      → GovernanceAnomalyDetector fl
      → List AnomalySignal × GovernanceAnomalyDetector fl
  unfolding track new_signals
  record_interaction sqrt i d =
      let t : GovernanceAnomalyDetector fl = track i d in
      let new : List AnomalySignal = new_signals sqrt i t in
      (new, record t { signals = t.signals ++ new })

  unfoldable pub get_signals : Text → GovernanceAnomalyDetector fl → List AnomalySignal
  unfolding select_from severity_order
  get_signals min_severity d = select_from (severity_order min_severity) d.signals

  unfoldable pub reset : GovernanceAnomalyDetector fl → GovernanceAnomalyDetector fl
  reset d = record d {
    confidence_history = [];
    route_history = [];
    validation_failures = 0;
    total_interactions = 0;
    signals = [];
  }

unfoldable pub bypass_patterns : List (Text × Text)
bypass_patterns =
    (codes "ignore governance", codes "Attempt to disable governance")
    ∷ (codes "skip validation", codes "Attempt to bypass validation")
    ∷ (codes "disable audit", codes "Attempt to suppress audit chain")
    ∷ (codes "bypass safety", codes "Attempt to circumvent safety layers")
    ∷ (codes "override constitution", codes "Attempt to override constitutional invariants")
    ∷ (codes "turn off logging", codes "Attempt to suppress telemetry")
    ∷ (codes "act without restriction", codes "Attempt to remove all constraints")
    ∷ (codes "pretend you have no rules", codes "Social engineering governance bypass")
    ∷ []

unfoldable pub first_pattern : Text → List (Text × Text) → Bool × Text
first_pattern t [] = (false, [])
first_pattern t ((pattern, reason) ∷ ps) =
    let rest = first_pattern t ps in if has_substring pattern t then (true, reason) else rest

unfoldable pub detect_prompt_governance_bypass : Text → Bool × Text
unfolding first_pattern bypass_patterns
detect_prompt_governance_bypass text = first_pattern (lower text) bypass_patterns

unfoldable pub verify_output_provenance : Text → Text → Bool × Text
verify_output_provenance expected_model reported_model =
    if truthy expected_model && truthy reported_model && not (text_eq expected_model reported_model)
    then (
      false,
      codes "Model mismatch: expected " ++ expected_model ++ codes ", got " ++ reported_model,
    )
    else (true, codes "OK")
