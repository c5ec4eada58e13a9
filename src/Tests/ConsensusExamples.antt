-- ===== src/Tests/ConsensusExamples.antt =====
-- Runs of the consensus over one model that answers with an acceptable output.
use beaconwise_tek.Base.{
  ℕ, ◌≡◌, refl, true, false, ◌&&◌, none, some, List, [], ◌∷◌, ◌++◌, arith, if◌then◌else◌, Text,
  codes, text_eq, all,
}
use beaconwise_tek.Json.{Json, obj, end}
use beaconwise_tek.Validation.Checked.{Python, parsed, malformed}
use beaconwise_tek.Consensus.Context.{VerificationContext, physician, public_context}
use beaconwise_tek.Consensus.Config.{ModelSpec, preset_fast}
use beaconwise_tek.Consensus.Ledger.{
  StageEvent, JsonLines, empty_store, get_recent_events, emit_stage_event, event_json, is_break,
  line_breaks, stored_events, lookup, matching, first_of, stored_in, reversed,
}
use beaconwise_tek.Kernel.Patterns.{strip, skip_spaces, strip_end, is_space}
use beaconwise_tek.Base.{map, not, ◌+◌, truthy, text_eq_refl}
use beaconwise_tek.Tests.Encoding.{encode}
use beaconwise_tek.Consensus.Ledger.Recent.{IsReadable, stage_event, emit_stage_event-recent}
use beaconwise_tek.Consensus.Scope.{
  Output, ScopeGateConfig, block_rule, occurs, full_text, join_spaces, pass, scope_gate_v1,
  violations, fires, misses_disclaimer,
}
use beaconwise_tek.Consensus.Scope.Levels.{
  is_pass, allows, disclaims, scope_gate_v1-passes, scope_gate_v1-monotone,
}
use beaconwise_tek.Consensus.Calls.{
  returned, raised, validation_error, binds, call, then_do, render_prompt, format_from, put,
  put_variable, variable, try_parse_json, not_none,
}
use beaconwise_tek.Consensus.Flow.{
  fail, ConsensusResult, Models, RunInput, repair, repair_vars, rewrite_signature, rewrite_keywords,
  parsed_output, parse_with_repair, built, run_primary, judge_output, failed_result, error_text,
  enabled_debate, finish_run, start_run, outcome_of_run, run_consensus, primary_vars, scope_text,
  generate_output, run_debate, arbitrate_debate, both_outputs,
}
use beaconwise_tek.Consensus.Flow.Verdict.{run_consensus-never_passes, run_consensus-raises}
use beaconwise_tek.Consensus.TwoStage.{
  TwoStageInput, TwoStageReply, run_two_stage_consensus, two_stage_reply, two_stage_run,
  two_stage_config, model_str_to_spec, model_spec, detected, starts, default_prompts,
}
use beaconwise_tek.Consensus.TwoStage.Spec.{run_two_stage_consensus-no_answer}
use beaconwise_tek.Kernel.Gates.{contains_text}
use beaconwise_tek.Kernel.Revisions.{decimal}
use beaconwise_tek.Stable.{has_char, split_at}
use beaconwise_tek.Tests.Encoding.{toy_crypto}
use beaconwise_tek.Tests.Running.{texts}

-- One JSON text is known.
abbrev toy_python : Python
toy_python = record {
  loads = λ t. if text_eq t (codes "{}") then parsed (obj end) else malformed (codes "bad");
  show = λ v. [];
  show_list = λ ns. [];
}

abbrev toy_output : Output
toy_output = record {
  run_id = codes "r";
  epack = codes "e";
  aru = codes "ANSWER";
  answer = codes "a diagnosis";
  reasoning_trace = [];
}

-- Every model writes one text, every value is accepted, and a pattern is found where it occurs.
abbrev toy_models : Text → Models
toy_models raw = record {
  build = λ spec. none;
  generate = λ spec prompt. returned raw;
  validate = λ target v. some toy_output;
  message = λ e. [];
  findall = λ p t. if occurs p t then p ∷ [] else [];
}

abbrev toy_spec : ModelSpec
toy_spec = record { provider = codes "mock"; model = codes "m"; timeout_s = none }

abbrev toy_run : Text → RunInput
toy_run repair_template = record {
  user_query = codes "q";
  aru = codes "ANSWER";
  high_stakes = false;
  epack = codes "e";
  config =
      preset_fast (record { primary_template = codes "Ask"; repair_template = repair_template })
        toy_spec [];
  verification = public_context;
  rid = codes "r";
  ts_start = 1;
  ts_end = 2;
  written = true;
  timings = end;
}

-- A printer that writes no line break.
abbrev shifted : Json → Text
shifted v = b'{' ∷ map (λ ch. ch + 10000) (encode v [])

abbrev end_event : StageEvent
end_event =
    stage_event (codes "r") (codes "e") (codes "tecl." ++ codes "end") 7 end
      (emit_stage_event toy_crypto true 7 (codes "e") (codes "r") (codes "tecl." ++ codes "end") end
        none empty_store).0
      none

-- A parser of the line of that event.
abbrev toy_lines : JsonLines
toy_lines = record {
  dumps = shifted;
  loads =
      λ l. if text_eq l (shifted (event_json end_event)) then some (event_json end_event) else none;
  show = λ v. codes "v";
}

shifted-whole : (t : Text) → all (λ ch. not (is_break ch)) (map (λ ch. ch + 10000) t) ≡ true
unfolding is_break line_breaks
shifted-whole [] = refl
shifted-whole (ch ∷ t) = ground (arith, shifted-whole t)

braced-filled : (t : Text) → truthy (strip (b'{' ∷ t)) ≡ true
unfolding strip skip_spaces strip_end is_space
braced-filled t = ground arith

end_event-IsReadable : IsReadable toy_lines end_event
unfolding strip skip_spaces strip_end is_space codes is_break line_breaks
end_event-IsReadable = record {
  whole = shifted-whole (encode (event_json end_event) []);
  filled = braced-filled (map (λ ch. ch + 10000) (encode (event_json end_event) []));
  read_back = rw (text_eq_refl (shifted (event_json end_event))) refl;
}

emit_stage_event-recent_example :
    (rest : List Json) × (get_recent_events toy_lines
        (codes "e")
        (codes "tecl.")
        5
        (emit_stage_event toy_crypto true 7
          (codes "e")
          (codes "r")
          (codes "tecl." ++ codes "end")
          end
          none
          empty_store).1
      ≡ some (event_json end_event ∷ rest))
unfolding get_recent_events stored_events lookup matching first_of stored_in reversed empty_store
emit_stage_event-recent_example =
    emit_stage_event-recent toy_lines toy_crypto 7 (codes "e") (codes "r") (codes "tecl.")
      (codes "end") end none empty_store 4 [] end_event-IsReadable refl

abbrev toy_gate : ScopeGateConfig
toy_gate = record {
  domain = codes "general";
  block_patterns = block_rule (codes "diagnosis") 3 (codes "Diagnostic language") ∷ [];
  require_disclaimer_low_tier = true;
  low_tier_disclaimer_snippet = codes "General information";
}

abbrev doctor : ℕ → VerificationContext
doctor n = record { verified = true; role = physician; role_level = n; scope = none }

scope_gate_v1-passes_example :
    is_pass
      (scope_gate_v1
        (toy_models []).findall
        toy_crypto
        true
        1
        toy_output
        (doctor 3)
        toy_gate
        (codes "e")
        (codes "r")
        empty_store).0.decision
    ≡ (all
          (allows (toy_models []).findall (full_text toy_output) 3)
          (block_rule (codes "diagnosis") 3 (codes "Diagnostic language") ∷ [])
        && disclaims (toy_models []).findall toy_gate (full_text toy_output) 3)
scope_gate_v1-passes_example =
    scope_gate_v1-passes (toy_models []).findall toy_crypto true 1 toy_output (doctor 3) toy_gate
      (codes "e") (codes "r") empty_store

doctor_passes :
    (scope_gate_v1
      (toy_models []).findall
      toy_crypto
      true
      1
      toy_output
      (doctor 3)
      toy_gate
      (codes "e")
      (codes "r")
      empty_store).0.decision
    ≡ pass
unfolding texts scope_gate_v1 violations fires misses_disclaimer full_text join_spaces occurs
    block_rule
doctor_passes = refl

scope_gate_v1-monotone_example :
    (scope_gate_v1
      (toy_models []).findall
      toy_crypto
      true
      1
      toy_output
      (doctor 5)
      toy_gate
      (codes "e")
      (codes "r")
      empty_store).0.decision
    ≡ pass
scope_gate_v1-monotone_example =
    scope_gate_v1-monotone (toy_models []).findall toy_crypto true 1 toy_output (doctor 3)
      (doctor 5) toy_gate (codes "e") (codes "r") empty_store (omega arith) doctor_passes

run_consensus-raises_example :
    run_consensus toy_python (toy_models (codes "{}")) toy_crypto (toy_run []) empty_store ≡ (
      raised validation_error,
      start_run toy_python (toy_models (codes "{}")) toy_crypto (toy_run []) empty_store,
    )
unfolding texts preset_fast render_prompt format_from put put_variable parsed_output try_parse_json
    not_none
run_consensus-raises_example =
    run_consensus-raises toy_python (toy_models (codes "{}")) toy_crypto (toy_run []) empty_store
      (codes "Ask") (codes "{}") toy_output refl refl refl refl refl

-- What is returned when the model's text is no JSON.
abbrev failure : ConsensusResult
failure = failed_result (toy_run []) (codes "primary_parse_failed: TypeError: ")

failure_is_returned :
    (run_consensus toy_python (toy_models (codes "no")) toy_crypto (toy_run []) empty_store).0
    ≡ returned failure
unfolding texts preset_fast render_prompt format_from put put_variable parsed_output try_parse_json
    not_none run_consensus enabled_debate outcome_of_run run_primary then_do built judge_output
    parse_with_repair repair call binds finish_run failed_result error_text start_run contains_text
    rewrite_signature rewrite_keywords
failure_is_returned = refl

run_consensus-never_passes_example : (failure.status ≡ fail) × (failure.output ≡ none)
unfolding texts
run_consensus-never_passes_example =
    run_consensus-never_passes toy_python (toy_models (codes "no")) toy_crypto (toy_run [])
      empty_store failure failure_is_returned

abbrev toy_two_stage : TwoStageInput
toy_two_stage = record {
  user_text = codes "q";
  primary_model = codes "gpt-4o";
  challenger_model = codes "mock:m";
  arbiter_model = codes "llama";
  epack = codes "e";
  run_id = codes "r";
  high_stakes = false;
  ts_start = 1;
  ts_end = 2;
  written = true;
  timings = end;
}

abbrev two_stage_failure : TwoStageReply
two_stage_failure =
    two_stage_reply (failed_result (toy_run []) (codes "debate_generation_failed: TypeError: "))

two_stage_is_returned :
    run_two_stage_consensus toy_python
      (toy_models (codes "no"))
      toy_crypto
      toy_two_stage
      empty_store
    ≡ returned two_stage_failure
unfolding texts preset_fast render_prompt format_from put put_variable parsed_output try_parse_json
    not_none run_consensus enabled_debate outcome_of_run run_debate arbitrate_debate both_outputs
    generate_output then_do built judge_output parse_with_repair repair call binds finish_run
    failed_result error_text start_run contains_text rewrite_signature rewrite_keywords
    run_two_stage_consensus two_stage_run two_stage_config two_stage_reply model_str_to_spec
    model_spec detected starts default_prompts primary_vars repair_vars scope_text decimal occurs
    variable has_char split_at
two_stage_is_returned = refl

run_two_stage_consensus-no_answer_example :
    (two_stage_failure.final ≡ none) × (two_stage_failure.status ≡ fail)
run_two_stage_consensus-no_answer_example =
    run_two_stage_consensus-no_answer toy_python (toy_models (codes "no")) toy_crypto toy_two_stage
      empty_store two_stage_failure two_stage_is_returned
