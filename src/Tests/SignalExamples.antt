-- ===== src/Tests/SignalExamples.antt =====
-- The tools, the window of the trust signal and the counters of the metrics, on small inputs.
use beaconwise_tek.Base.{
  Bool, ◌++◌, ◌&&◌, leb, arith, ℕ, zero, suc, ◌+◌, ◌-◌, ◌*◌, ◌≤◌, ◌≡◌, refl, true, false, none,
  some, List, [], ◌∷◌, if◌then◌else◌, Text, codes, text_eq, length, take_last, all,
}
use beaconwise_tek.Json.{Items, set, num, str, arr, nil, cons, end, field, value}
use beaconwise_tek.Kernel.Patterns.{strip, is_space, skip_spaces, strip_end}
use beaconwise_tek.Kernel.Tools.{
  Node, expression, constant, bin_op, add, evaluated, nonneg, ToolEnv, is_calc_char, eval_node,
  safe_calc, call_tool, calc_chars, calc_result, calc_reply, parsed_value, then_eval, apply_bin,
  is_known_bin, finished, allowlist, is_brave, web_search, get_str, get_int, int_or, clamp_count,
  cut_results, take_items,
}
use beaconwise_tek.Kernel.Gates.{contains_text}
use beaconwise_tek.Kernel.Tools.Calc.{IsArithmetic, safe_calc-IsArithmetic}
use beaconwise_tek.Kernel.Tools.Allowed.{count_items, call_tool-bounded}
use beaconwise_tek.Resilience.Tracker.{
  InteractionOutcome, new_tracker, scores_of, forecast_of, dependency_metrics,
}
use beaconwise_tek.Resilience.Tracker.Window.{record_all, record_all-IsWindow}
use beaconwise_tek.Resilience.Tracker.Signal.{InUnit, AllInUnit, scores-InUnit}
use beaconwise_tek.Governance.Metrics.{GovernanceMetrics, new_metrics, record_interaction}
use beaconwise_tek.Governance.Metrics.Counts.{IsConsistent, fresh, recorded, Recorded-IsConsistent}
use beaconwise_tek.Float.{flt}
use beaconwise_tek.Governance.Adversarial.{Interaction, count_changes}
use beaconwise_tek.Governance.Adversarial.Detected.{
  has_signal, routes, count_failures, reported, record_interaction-detects,
}
use beaconwise_tek.Tests.Encoding.{toy_crypto}
use beaconwise_tek.Tests.Fixtures.{toy_floats, toy_floats-IsOrdered}

abbrev items : ℕ → Items
items zero = nil
items (suc n) = cons (str (codes "x")) (items n)

-- Natural numbers, a parser of one expression and engines that give twelve results.
abbrev toy_tools : ToolEnv
toy_tools = record {
  N = ℕ;
  plus = λ a b. evaluated (a + b);
  minus = λ a b. evaluated (a - b);
  times = λ a b. evaluated (a * b);
  over = λ a b. evaluated a;
  positive = λ a. a;
  opposite = λ a. a;
  nonfinite = λ a. evaluated false;
  float_text = λ a. evaluated (codes "3.0");
  parse = λ s.
      if text_eq s (codes "1+2")
      then some (expression (bin_op add (constant 1) (constant 2)))
      else none;
  show = λ v. codes "news";
  int_of = λ v. some (nonneg 12);
  brave_web_search = λ q n. field (codes "results") (arr (items 12)) end;
  serper_search = λ q n. field (codes "results") (arr (items 12)) end;
}

safe_calc-IsArithmetic_example :
    (all is_calc_char (codes " 1+2") ≡ true)
    × ((tree : Node ℕ) × (v : ℕ) × (toy_tools.parse (strip (codes " 1+2")) ≡ some tree)
        × (eval_node toy_tools tree ≡ evaluated v)
        × IsArithmetic toy_tools tree)
unfolding strip text_eq codes is_space skip_spaces strip_end safe_calc is_calc_char calc_chars
    calc_result calc_reply parsed_value then_eval eval_node apply_bin is_known_bin finished
safe_calc-IsArithmetic_example = safe_calc-IsArithmetic toy_tools toy_crypto (codes " 1+2") refl

-- Twelve results are asked for and twelve are found.
call_tool-bounded_example : count_items (items 10) ≤ 10
unfolding value text_eq codes call_tool contains_text allowlist is_brave web_search get_str get_int
    int_or strip is_space skip_spaces strip_end clamp_count cut_results take_items set
call_tool-bounded_example =
    call_tool-bounded toy_tools toy_crypto (codes "brave_search")
      (field (codes "q") (str (codes "news")) (field (codes "count") (num 12) end)) (items 10) refl

abbrev outcome : Text → ℕ → InteractionOutcome toy_floats
outcome status at = record {
  timestamp = at;
  status = status;
  validator_agreement = 8000;
  latency_ms = 200;
  challenger_fired = false;
  recovery_active = false;
}

-- Six outcomes in a window of five.
abbrev six : List (InteractionOutcome toy_floats)
six =
    outcome (codes "PASS") 1
    ∷ outcome (codes "REFUSE") 2
    ∷ outcome (codes "PASS") 3
    ∷ outcome (codes "WARN") 4
    ∷ outcome (codes "ERROR") 5
    ∷ outcome (codes "PASS") 6
    ∷ []

record_all-IsWindow_example :
    ((record_all toy_floats six (new_tracker toy_floats 3)).buffer
      ≡ take_last (new_tracker toy_floats 3).window_size six)
    × (length (record_all toy_floats six (new_tracker toy_floats 3)).buffer
        ≤ (new_tracker toy_floats 3).window_size)
    × (5 ≤ (new_tracker toy_floats 3).window_size)
record_all-IsWindow_example = record_all-IsWindow toy_floats 3 six

abbrev providers : List (Text × ℕ)
providers = (codes "openai", 5500) ∷ (codes "groq", 2500) ∷ (codes "xai", 2000) ∷ []

scores-InUnit_example :
    AllInUnit toy_floats toy_floats-IsOrdered (scores_of toy_floats (new_tracker toy_floats 20) six)
    × InUnit toy_floats toy_floats-IsOrdered (forecast_of toy_floats 9000 1000)
    × InUnit toy_floats toy_floats-IsOrdered (dependency_metrics toy_floats providers).1
scores-InUnit_example =
    scores-InUnit toy_floats toy_floats-IsOrdered (new_tracker toy_floats 20) six 9000 1000
      providers

-- A refused turn after a blocked one.
abbrev two_turns : GovernanceMetrics toy_floats
two_turns =
    record_interaction toy_floats (codes "tdm") true (codes "refuse") 900
      (record_interaction toy_floats (codes "BOUND") false (codes "N/A") 0 (new_metrics toy_floats))

Recorded-IsConsistent_example : IsConsistent toy_floats two_turns
Recorded-IsConsistent_example = Recorded-IsConsistent toy_floats (
    recorded (codes "tdm") true (codes "refuse") 900
      (recorded (codes "BOUND") false (codes "N/A") 0 fresh))

-- Interactions that go back and forth between two routes.
abbrev probe : Text → Bool → Interaction toy_floats
probe route validation_ok = record {
  confidence = 5000;
  route = route;
  validation_ok = validation_ok;
  consensus_scores = 9000 ∷ 1000 ∷ [];
}

abbrev probes : List (Interaction toy_floats)
probes =
    probe (codes "TDM") true
    ∷ probe (codes "BOUND") false
    ∷ probe (codes "TDM") true
    ∷ probe (codes "BOUND") false
    ∷ probe (codes "TDM") true
    ∷ probe (codes "TDM") true
    ∷ []

abbrev last_probe : Interaction toy_floats
last_probe = probe (codes "BOUND") false

record_interaction-detects_example :
    (has_signal (codes "route_flip") (reported toy_floats (λ x. x) 6 probes last_probe) ≡ (
      leb 6 (length (probes ++ last_probe ∷ []))
      && leb 4
          (count_changes (take_last 6 (routes toy_floats (λ x. x) (probes ++ last_probe ∷ []))))))
    × (has_signal
          (codes "validation_failure_rate")
          (reported toy_floats (λ x. x) 6 probes last_probe)
        ≡ (leb 10 (length (probes ++ last_probe ∷ []))
            && flt toy_floats (toy_floats.lit 4 10) (
                toy_floats.div
                  (toy_floats.lit
                    (count_failures toy_floats (λ x. x) (probes ++ last_probe ∷ []))
                    1)
                  (toy_floats.lit (length (probes ++ last_probe ∷ [])) 1))))
record_interaction-detects_example =
    record_interaction-detects toy_floats (λ x. x) 6 probes last_probe (omega arith)
