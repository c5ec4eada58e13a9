-- ===== src/Consensus/Flow.antt =====
-- src/ecosphere/consensus/orchestrator/flow.py: a run over one model, or over a defender, a critic and
-- an arbiter. The adapters and the pydantic models of the outputs are the fields of `Models`. Of a
-- result, the timings and the debate's raw outputs, which are only reported, are left out.
pub mod Verdict
use beaconwise_tek.Base.{
  ℕ, zero, suc, ◌+◌, ◌-◌, ◌*◌, ◌≤◌, ◌<◌, String, ◌≡◌, refl, sym, ap, ◌∙◌, subst, ◌≢◌, ◌↔◌, ◌⊎◌, inl,
  inr, Bool, true, false, not, ◌&&◌, ◌||◌, Option, none, some, List, [], ◌∷◌, ◌++◌, map,
  append_assoc, append-nil, arith, ltb, leb, ◌==◌, if◌then◌else◌, ltb→lt, lt→ltb, leb→le, le→leb,
  ==→eq, eq→==, Bool-cases, and_true, Option-cases, Text, codes, text_eq, text_lt, text_eq→eq,
  text_eq_refl, eq→text_eq, truthy, length, take, drop, take_last, any, all, length-append,
}
use beaconwise_tek.Json.{Json, Fields, null, bool, num, str, obj, end, field}
use beaconwise_tek.Stable.{Crypto}
use beaconwise_tek.Kernel.Revisions.{decimal}
use beaconwise_tek.Validation.Checked.{Python}
use beaconwise_tek.Consensus.Context.{VerificationContext, role_text}
use beaconwise_tek.Consensus.Config.{ModelSpec, PromptBundle, DebateConfig, ConsensusConfig}
use beaconwise_tek.Consensus.Ledger.{EventStore, emit_stage_event}
use beaconwise_tek.Consensus.Scope.{
  ScopeGateConfig, default_config, Output, GateReply, scope_gate_v1,
}
use beaconwise_tek.Consensus.Calls.{
  Exc, type_error, attribute_error, validation_error, Outcome, returned, raised, exc_name,
  Signature, call, construct, then_do, render_prompt, try_parse_json,
}

pub data Status : Type 0 where
  pass gated fail : Status

unfoldable pub status_text : Status → Text
status_text pass = codes "PASS"
status_text gated = codes "GATED"
status_text fail = codes "FAIL"

pub record ConsensusResult : Type 0 where
  pub status : Status
  pub run_id : Text
  pub epack : Text
  pub aru : Text
  pub output : Option Output
  pub gate : Option GateReply
  pub error : Option Text

-- The schemas that an output is parsed to.
pub data Target : Type 0 where
  primary_output synthesizer_output : Target

pub record Models : Type 0 where
  -- `build_adapter`: nothing, or what it raises
  pub build : ModelSpec → Option Exc
  -- `generate_text` of a model's adapter, for a prompt
  pub generate : ModelSpec → Text → Outcome Text
  -- `model_validate` of a schema, `none` for its ValidationError
  pub validate : Target → Json → Option Output
  -- `str(e)`
  pub message : Exc → Text
  pub findall : Text → Text → List Text

-- `stage_rewrite_once` of stage_rewrite.py, and the keywords that `_parse_with_repair` gives it
unfoldable pub rewrite_signature : Signature
rewrite_signature =
    let names : List Text =
      codes "rid"
      ∷ codes "epack"
      ∷ codes "original_output"
      ∷ codes "rewrite_prompt"
      ∷ codes "config"
      ∷ codes "verification"
      ∷ [] in
    record { params = names; required = names }

unfoldable pub rewrite_keywords : List Text
rewrite_keywords = codes "adapter" ∷ codes "prompt" ∷ codes "temperature" ∷ codes "timeout_s" ∷ []

-- `scope_gate_v1` of scope_gate.py, and the keywords that the flow gives it
unfoldable pub gate_signature : Signature
gate_signature =
    let names : List Text =
      codes "output"
      ∷ codes "verification"
      ∷ codes "config"
      ∷ codes "epack"
      ∷ codes "run_id"
      ∷ [] in
    record { params = names; required = names }

unfoldable pub gate_keywords : List Text
gate_keywords = codes "answer_text" ∷ codes "config" ∷ []

-- The fields of `ScopeGateConfig`, which all have defaults, and the keyword that the flow gives
unfoldable pub gate_config_signature : Signature
gate_config_signature = record {
  params =
      codes "domain"
      ∷ codes "block_patterns"
      ∷ codes "require_disclaimer_low_tier"
      ∷ codes "low_tier_disclaimer_snippet"
      ∷ [];
  required = [];
}

unfoldable pub gate_config_keywords : List Text
gate_config_keywords = codes "high_stakes" ∷ []

-- The arguments of `run_consensus` and what is the same for a whole run; `timings` are those of the
-- result.
pub record RunInput : Type 0 where
  pub user_query : Text
  pub aru : Text
  pub high_stakes : Bool
  pub epack : Text
  pub config : ConsensusConfig
  pub verification : VerificationContext
  pub rid : Text
  pub ts_start : ℕ
  pub ts_end : ℕ
  pub written : Bool
  pub timings : Fields

-- The variables of the repair template
unfoldable pub repair_vars : RunInput → Text → List (Text × Text)
repair_vars i bad_output =
    (codes "RUN_ID", i.rid)
    ∷ (codes "EPACK", i.epack)
    ∷ (codes "ARU", i.aru)
    ∷ (codes "BAD_OUTPUT", bad_output)
    ∷ []

-- `verification.scope or "none"`
unfoldable pub scope_text : Option Text → Text
scope_text none = codes "none"
scope_text (some []) = codes "none"
scope_text (some (c ∷ s)) = c ∷ s

unfoldable pub primary_vars : RunInput → Text → List (Text × Text)
unfolding decimal role_text scope_text
primary_vars i user_query =
    (codes "RUN_ID", i.rid)
    ∷ (codes "EPACK", i.epack)
    ∷ (codes "ARU", i.aru)
    ∷ (codes "USER_QUERY", user_query)
    ∷ (codes "VERIFIED", if i.verification.verified then codes "true" else codes "false")
    ∷ (codes "ROLE", role_text i.verification.role)
    ∷ (codes "ROLE_LEVEL", decimal i.verification.role_level)
    ∷ (codes "SCOPE", scope_text i.verification.scope)
    ∷ []

unfoldable pub critic_query : Text → Text
critic_query user_query =
    codes
      "You are the Challenger. Produce an independent answer, then list weaknesses/risks in typical answers and propose safer alternatives."
    ++ 10 ∷ 10 ∷ codes "USER_QUERY:"
    ++ 10 ∷ user_query

unfoldable pub synth_prompt : RunInput → Text → Text → Text
synth_prompt i defender_raw critic_raw =
    codes "You are the Arbiter. You MUST output valid JSON matching SynthesizerOutput."
    ++ (10 ∷ codes "Choose the best answer given safety, policy, and evidence quality.")
    ++ (10 ∷ 10 ∷ codes "RUN_ID: " ++ i.rid)
    ++ (10 ∷ codes "EPACK: " ++ i.epack)
    ++ (10 ∷ codes "ARU: " ++ i.aru)
    ++ (10 ∷ 10 ∷ codes "USER_QUERY:" ++ 10 ∷ i.user_query)
    ++ (10 ∷ 10 ∷ codes "PRIMARY (Defender) JSON:" ++ 10 ∷ defender_raw)
    ++ (10 ∷ 10 ∷ codes "CHALLENGER (Critic) JSON:" ++ 10 ∷ critic_raw)
    ++ (10 ∷ 10 ∷ codes "Synthesize a final answer. Keep reasoning_trace concise and policy-aware.")

unfoldable pub failed_result : RunInput → Text → ConsensusResult
failed_result i error = record {
  status = fail;
  run_id = i.rid;
  epack = i.epack;
  aru = i.aru;
  output = none;
  gate = none;
  error = some error;
}

module _ (py : Python) (m : Models) where
  -- The repair loop with `attempts` of them left. A call of `stage_rewrite_once` that bound would
  -- give an output, which has no attribute `text`.
  unfoldable pub repair : RunInput → ℕ → Text → Outcome Output
  repair i zero last_text = raised validation_error
  repair i (suc attempts) last_text =
      then_do (render_prompt i.config.prompts.repair_template (repair_vars i last_text))
        (λ p. call rewrite_signature rewrite_keywords (raised attribute_error))

  -- `target_model.model_validate(data)` where there is data
  unfoldable pub parsed_output : Target → Option Json → Option Output
  parsed_output target none = none
  parsed_output target (some j) = m.validate target j

  unfoldable pub parse_with_repair : RunInput → Target → Text → Outcome Output
  unfolding repair parsed_output
  parse_with_repair i target raw_text = elim (parsed_output target (try_parse_json py raw_text)) [
    | some o ↦ returned o
    | none ↦ repair i i.config.max_repair_attempts raw_text
  ]

  -- `_generate_primary` and `_generate_synth`: the output and its raw text
  unfoldable pub generate_output : RunInput → Target → ModelSpec → Text → Outcome (Output × Text)
  generate_output i target spec prompt =
      then_do (m.generate spec prompt)
        (λ raw. then_do (parse_with_repair i target raw) (λ o. returned (o, raw)))

  -- The end of both runs: the gate on the answer, and the status. The dict of the gate has no key
  -- `ok`, so that `gate.get("ok", True)` is true.
  unfoldable pub gate_answer : Crypto → RunInput → EventStore → Output → Outcome ConsensusResult
  gate_answer c i s o =
      then_do (construct gate_config_signature gate_config_keywords default_config) (λ cfg.
        then_do
          (call gate_signature gate_keywords (
            returned
              (scope_gate_v1 m.findall c i.written i.ts_start o i.verification cfg i.epack i.rid
                s).0))
          (λ gate. returned record {
            status = pass;
            run_id = i.rid;
            epack = i.epack;
            aru = i.aru;
            output = some o;
            gate = none;
            error = none;
          }))

  -- `f"{stage}: {type(e).__name__}: {e}"`
  unfoldable pub error_text : Text → Exc → Text
  unfolding exc_name
  error_text stage e = stage ++ codes ": " ++ exc_name e ++ (codes ": " ++ m.message e)

  -- `build_adapter`
  unfoldable pub built : ModelSpec → Outcome ModelSpec
  built spec = elim (m.build spec) [ none ↦ returned spec | some e ↦ raised e ]

  module _ (c : Crypto) where
    -- A result with the name of the failed stage, or the gate on the output
    unfoldable pub judge_output :
        RunInput → EventStore → Text → Outcome Output → Outcome ConsensusResult
    judge_output i s stage (raised e) = returned (failed_result i (error_text stage e))
    judge_output i s stage (returned o) = gate_answer c i s o

    -- `_run_primary`, with the adapter and the prompt in front of it; what the model raises is not
    -- caught
    unfoldable pub run_primary : RunInput → EventStore → Outcome ConsensusResult
    unfolding judge_output
    run_primary i s = then_do (built i.config.primary) (λ spec.
        then_do (render_prompt i.config.prompts.primary_template (primary_vars i i.user_query))
          (λ prompt. then_do (m.generate spec prompt) (λ raw.
            judge_output i s (codes "primary_parse_failed")
              (parse_with_repair i primary_output raw))))

    -- The outputs of the defender and the critic, which run at once; of two exceptions, the
    -- defender's is seen.
    unfoldable pub both_outputs :
        Outcome (Output × Text) → Outcome (Output × Text) → Outcome (Text × Text)
    both_outputs defender critic = then_do defender (λ d. then_do critic (λ k. returned (d.1, k.1)))

    -- `_run_debate` from the two outputs on
    unfoldable pub arbitrate_debate :
        RunInput → EventStore → ModelSpec → Outcome (Text × Text) → Outcome ConsensusResult
    arbitrate_debate i s arbiter (raised e) =
        returned (failed_result i (error_text (codes "debate_generation_failed") e))
    arbitrate_debate i s arbiter (returned (d, k)) = judge_output i s (codes "synth_parse_failed") (
        then_do (generate_output i synthesizer_output arbiter (synth_prompt i d k))
          (λ g. returned g.0))

    unfoldable pub run_debate : RunInput → EventStore → DebateConfig → Outcome ConsensusResult
    unfolding both_outputs arbitrate_debate
    run_debate i s debate = then_do (built debate.defender_model) (λ defender.
        then_do (built debate.critic_model) (λ critic.
          then_do (built debate.synthesizer_model) (λ arbiter.
            then_do (render_prompt i.config.prompts.primary_template (primary_vars i i.user_query))
              (λ defender_prompt.
                then_do
                  (render_prompt i.config.prompts.primary_template
                    (primary_vars i (critic_query i.user_query)))
                  (λ critic_prompt. arbitrate_debate i s arbiter (
                    both_outputs (generate_output i primary_output defender defender_prompt)
                      (generate_output i primary_output critic critic_prompt)))))))

    -- The debate of a configuration that has one and enables it.
    unfoldable pub enabled_debate : ConsensusConfig → Option DebateConfig
    enabled_debate config = if config.enable_debate then config.debate else none

    unfoldable pub debates : Option DebateConfig → Bool
    debates none = false
    debates (some d) = true

    unfoldable pub start_payload : RunInput → Fields
    unfolding debates enabled_debate role_text
    start_payload i = field (codes "aru") (str i.aru) (
        field (codes "high_stakes") (bool i.high_stakes) (
          field (codes "verification")
            (obj (
              field (codes "verified") (bool i.verification.verified) (
                field (codes "role") (str (role_text i.verification.role))
                  (field (codes "role_level") (num i.verification.role_level) end))))
            (field (codes "primary_model")
              (str (i.config.primary.provider ++ b':' ∷ i.config.primary.model))
              (field (codes "enable_debate") (bool (debates (enabled_debate i.config))) end))))

    -- The event of the end, which an exception skips.
    unfoldable pub finish_run :
        RunInput
        → Bool
        → EventStore
        → Outcome ConsensusResult
        → Outcome ConsensusResult × EventStore
    unfolding status_text
    finish_run i debate s (raised e) = (raised e, s)
    finish_run i debate s (returned r) = (
      returned r,
      (emit_stage_event c i.written i.ts_end i.epack i.rid (codes "tecl.end")
          (field (codes "status") (str (status_text r.status))
            (field (codes "timings") (obj i.timings) (field (codes "debate") (bool debate) end)))
          none s).1,
    )

    unfoldable pub start_run : RunInput → EventStore → EventStore
    unfolding start_payload
    start_run i s =
        (emit_stage_event c i.written i.ts_start i.epack i.rid (codes "tecl.start")
          (start_payload i) none s).1

    unfoldable pub outcome_of_run :
        RunInput → EventStore → Option DebateConfig → Outcome ConsensusResult
    unfolding run_primary run_debate
    outcome_of_run i s none = run_primary i s
    outcome_of_run i s (some d) = run_debate i s d

    unfoldable pub run_consensus : RunInput → EventStore → Outcome ConsensusResult × EventStore
    unfolding enabled_debate debates start_run
    run_consensus i s =
        finish_run i (debates (enabled_debate i.config)) (start_run i s)
          (outcome_of_run i (start_run i s) (enabled_debate i.config))
