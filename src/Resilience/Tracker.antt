-- ===== src/Resilience/Tracker.antt =====
-- src/ecosphere/meta_validation/tsi_tracker.py: the window of outcomes behind the trust signal, and
-- the methods of resilience_runtime.py that use it. `math.exp` is the argument `exp`; the clock is read
-- by the caller.
pub mod Window
pub mod Signal
use beaconwise_tek.Base.{
  ℕ, zero, suc, ◌+◌, ◌-◌, ◌*◌, ◌≤◌, ◌<◌, String, ◌≡◌, refl, sym, ap, ◌∙◌, subst, ◌≢◌, ◌↔◌, ◌⊎◌, inl,
  inr, Bool, true, false, not, ◌&&◌, ◌||◌, Option, none, some, List, [], ◌∷◌, ◌++◌, map,
  append_assoc, append-nil, arith, ltb, leb, ◌==◌, if◌then◌else◌, ltb→lt, lt→ltb, leb→le, le→leb,
  ==→eq, eq→==, Bool-cases, and_true, Option-cases, Text, codes, text_eq, text_lt, text_eq→eq,
  text_eq_refl, eq→text_eq, truthy, length, take, drop, take_last, any, all, length-append,
}
use beaconwise_tek.Float.{Floats, flt, fmin, fmax, clamp}
use beaconwise_tek.Resilience.Recovery.{RecoveryPlan}
use beaconwise_tek.Resilience.Runtime.{ResilienceRuntime}

pub record InteractionOutcome (fl : Floats) : Type 0 where
  pub timestamp : fl.F
  pub status : Text
  pub validator_agreement : fl.F
  pub latency_ms : ℕ
  pub challenger_fired : Bool
  pub recovery_active : Bool

pub record TsiSignal (fl : Floats) : Type 0 where
  pub tsi_current : fl.F
  pub tsi_forecast_15m : fl.F
  pub window_size : ℕ
  pub pass_rate : fl.F
  pub refuse_rate : fl.F
  pub error_rate : fl.F
  pub avg_agreement : fl.F
  pub trend_slope : fl.F

pub record TsiTracker (fl : Floats) : Type 0 where
  pub window_size : ℕ
  pub decay_lambda : fl.F
  pub agreement_weight : fl.F
  pub latency_penalty_per_s : fl.F
  pub challenger_penalty : fl.F
  pub buffer : List (InteractionOutcome fl)

module _ (fl : Floats) where
  -- `TSITracker(window_size=..)` with the other defaults
  unfoldable pub new_tracker : ℕ → TsiTracker fl
  new_tracker window_size = record {
    window_size = if leb 5 window_size then window_size else 5;
    decay_lambda = fl.lit 1 10;
    agreement_weight = fl.lit 20 100;
    latency_penalty_per_s = fl.lit 2 100;
    challenger_penalty = fl.lit 3 100;
    buffer = [];
  }

  -- `record`: the deque drops its first outcomes when it is full.
  unfoldable pub record_one : InteractionOutcome fl → TsiTracker fl → TsiTracker fl
  record_one o t = record t { buffer = take_last t.window_size (t.buffer ++ o ∷ []) }

  unfoldable pub clear : TsiTracker fl → TsiTracker fl
  clear t = record t { buffer = [] }

  -- `STATUS_BASE.get(status, 0.50)`
  unfoldable pub status_base : Text → fl.F
  status_base status =
      if text_eq status (codes "PASS")
      then fl.lit 90 100
      else if text_eq status (codes "WARN")
      then fl.lit 70 100
      else if text_eq status (codes "REFUSE")
      then fl.lit 45 100
      else if text_eq status (codes "ERROR")
      then fl.lit 30 100
      else fl.lit 50 100

  unfoldable pub score_of : TsiTracker fl → InteractionOutcome fl → fl.F
  unfolding status_base
  score_of t o =
      let agreement_mod : fl.F =
        fl.mul t.agreement_weight (fl.sub o.validator_agreement (fl.lit 5 10)) in
      let lat_pen : fl.F =
        fl.mul t.latency_penalty_per_s (fl.div (fl.lit o.latency_ms 1) (fl.lit 1000 1)) in
      let ch_pen : fl.F = if o.challenger_fired then t.challenger_penalty else fl.lit 0 1 in
      clamp fl (fl.lit 0 1) (fl.lit 1 1)
        (fl.sub (fl.sub (fl.add (status_base o.status) agreement_mod) lat_pen) ch_pen)

  unfoldable pub scores_of : TsiTracker fl → List (InteractionOutcome fl) → List fl.F
  unfolding score_of
  scores_of t [] = []
  scores_of t (o ∷ os) = score_of t o ∷ scores_of t os

  -- `sum(xs)`: plain additions from the left
  unfoldable pub sum_from : fl.F → List fl.F → fl.F
  sum_from acc [] = acc
  sum_from acc (x ∷ xs) = sum_from (fl.add acc x) xs

  unfoldable pub total : List fl.F → fl.F
  unfolding sum_from
  total xs = sum_from (fl.lit 0 1) xs

  unfoldable pub products : List fl.F → List fl.F → List fl.F
  products [] ys = []
  products (x ∷ xs) [] = []
  products (x ∷ xs) (y ∷ ys) = fl.mul x y ∷ products xs ys

  unfoldable pub count_status : Text → List (InteractionOutcome fl) → ℕ
  count_status s [] = 0
  count_status s (o ∷ os) =
      let rest = count_status s os in if text_eq o.status s then rest + 1 else rest

  unfoldable pub agreements : List (InteractionOutcome fl) → List fl.F
  agreements [] = []
  agreements (o ∷ os) = o.validator_agreement ∷ agreements os

  -- `i - x_mean` for the indices from `i` on
  unfoldable pub offsets : fl.F → ℕ → List fl.F → List fl.F
  offsets x_mean i [] = []
  offsets x_mean i (x ∷ xs) = fl.sub (fl.lit i 1) x_mean ∷ offsets x_mean (i + 1) xs

  unfoldable pub deviations : fl.F → List fl.F → List fl.F
  deviations y_mean [] = []
  deviations y_mean (x ∷ xs) = fl.sub x y_mean ∷ deviations y_mean xs

  -- The slope of at most ten recent scores, 0 for fewer than three.
  unfoldable pub slope : List fl.F → fl.F
  unfolding total products offsets deviations
  slope scores =
      let recent : List fl.F = take_last 10 scores in
      let n : ℕ = length recent in
      let x_mean : fl.F = fl.div (fl.lit (n - 1) 1) (fl.lit 2 1) in
      let y_mean : fl.F = fl.div (total recent) (fl.lit n 1) in
      let xs : List fl.F = offsets x_mean 0 recent in
      let den : fl.F = total (products xs xs) in
      if leb 3 n && flt fl (fl.lit 0 1) den
      then fl.div (total (products xs (deviations y_mean recent))) den
      else fl.lit 0 1

  -- `max(0.0, min(1.0, tsi + trend_slope * 2.0))`
  unfoldable pub forecast_of : fl.F → fl.F → fl.F
  forecast_of tsi trend =
      clamp fl (fl.lit 0 1) (fl.lit 1 1) (fl.add tsi (fl.mul trend (fl.lit 2 1)))

  -- What the tracker says of an empty window.
  unfoldable pub empty_signal : TsiSignal fl
  empty_signal = record {
    tsi_current = fl.lit 82 100;
    tsi_forecast_15m = fl.lit 80 100;
    window_size = 0;
    pass_rate = fl.lit 0 1;
    refuse_rate = fl.lit 0 1;
    error_rate = fl.lit 0 1;
    avg_agreement = fl.lit 0 1;
    trend_slope = fl.lit 0 1;
  }

  module _ (exp : fl.F → fl.F) where
    -- `exp(-decay_lambda * age_s / 60.0)`
    unfoldable pub weight_of : TsiTracker fl → fl.F → InteractionOutcome fl → fl.F
    weight_of t now o =
        let age_s : fl.F = fmax fl (fl.lit 0 1) (fl.sub now o.timestamp) in
        exp (fl.div (fl.mul (fl.sub (fl.lit 0 1) t.decay_lambda) age_s) (fl.lit 60 1))

    unfoldable pub weights_of : TsiTracker fl → fl.F → List (InteractionOutcome fl) → List fl.F
    unfolding weight_of
    weights_of t now [] = []
    weights_of t now (o ∷ os) = weight_of t now o ∷ weights_of t now os

    unfoldable pub weighted : List fl.F → List fl.F → fl.F
    unfolding total products
    weighted weights scores =
        if flt fl (fl.lit 0 1) (total weights)
        then fl.div (total (products weights scores)) (total weights)
        else fl.lit 50 100

    -- The signal of a window that is not empty.
    unfoldable pub window_signal :
        TsiTracker fl → fl.F → List (InteractionOutcome fl) → TsiSignal fl
    unfolding weights_of scores_of weighted slope forecast_of count_status agreements
    window_signal t now os =
        let scores : List fl.F = scores_of t os in
        let tsi : fl.F = weighted (weights_of t now os) scores in
        let trend : fl.F = slope scores in
        let n : fl.F = fl.lit (length os) 1 in
        let rate : Text → fl.F = λ s. fl.round (fl.div (fl.lit (count_status s os) 1) n) 3 in
        record {
          tsi_current = fl.round tsi 4;
          tsi_forecast_15m = fl.round (forecast_of tsi trend) 4;
          window_size = length os;
          pass_rate = rate (codes "PASS");
          refuse_rate = rate (codes "REFUSE");
          error_rate = rate (codes "ERROR");
          avg_agreement = fl.round (fl.div (total (agreements os)) n) 3;
          trend_slope = fl.round trend 5;
        }

    -- `signal` at the time `now`
    unfoldable pub signal : TsiTracker fl → fl.F → TsiSignal fl
    unfolding window_signal
    signal t now = elim t.buffer [ [] ↦ empty_signal | o ∷ os ↦ window_signal t now (o ∷ os) ]

    -- `current_signal` of the runtime
    unfoldable pub current_signal : TsiTracker fl → fl.F → TsiSignal fl
    unfolding signal
    current_signal t now = signal t now

  unfoldable pub is_applied : Option (RecoveryPlan fl) → Bool
  is_applied none = false
  is_applied (some p) = true

  -- `record_outcome` of the runtime, on its tracker
  unfoldable pub record_outcome :
      ResilienceRuntime fl → fl.F → Text → fl.F → ℕ → Bool → TsiTracker fl → TsiTracker fl
  unfolding record_one is_applied
  record_outcome rt now status agreement latency_ms challenger_fired t =
      record_one
        record {
          timestamp = now;
          status = status;
          validator_agreement = agreement;
          latency_ms = latency_ms;
          challenger_fired = challenger_fired;
          recovery_active = is_applied rt.last_applied_plan;
        }
        t

  unfoldable pub weights_in : List (Text × fl.F) → List fl.F
  weights_in [] = []
  weights_in ((name, w) ∷ ws) = w ∷ weights_in ws

  -- The shares of a total.
  unfoldable pub shares : fl.F → List fl.F → List fl.F
  shares sum [] = []
  shares sum (w ∷ ws) = fl.div w sum ∷ shares sum ws

  -- `dependency_metrics`: the density and the concentration index
  unfoldable pub dependency_metrics : List (Text × fl.F) → fl.F × fl.F
  unfolding total products weights_in shares
  dependency_metrics [] = (fl.lit 0 1, fl.lit 1 1)
  dependency_metrics (w ∷ ws) =
      let weights : List fl.F = weights_in (w ∷ ws) in
      let n : ℕ = length weights in
      let sum : fl.F = total weights in
      -- a total of 0 counts as 1
      let divisor : fl.F =
        if fl.le sum (fl.lit 0 1) && fl.le (fl.lit 0 1) sum then fl.lit 1 1 else sum in
      let norm : List fl.F = shares divisor weights in
      (
        if leb n 1 then fl.lit 0 1 else fl.div (fl.lit (n - 1) 1) (fl.lit (n * (n - 1)) 1),
        clamp fl (fl.lit 0 1) (fl.lit 1 1) (total (products norm norm)),
      )
