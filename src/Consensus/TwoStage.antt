-- ===== src/Consensus/TwoStage.antt =====
-- `run_two_stage_consensus` and `_model_str_to_spec` of
-- src/ecosphere/consensus/orchestrator/flow.py.
pub mod Spec
use beaconwise_tek.Base.{
  ℕ, zero, suc, ◌+◌, ◌-◌, ◌*◌, ◌≤◌, ◌<◌, String, ◌≡◌, refl, sym, ap, ◌∙◌, subst, ◌≢◌, ◌↔◌, ◌⊎◌, inl,
  inr, Bool, true, false, not, ◌&&◌, ◌||◌, Option, none, some, List, [], ◌∷◌, ◌++◌, map,
  append_assoc, append-nil, arith, ltb, leb, ◌==◌, if◌then◌else◌, ltb→lt, lt→ltb, leb→le, le→leb,
  ==→eq, eq→==, Bool-cases, and_true, Option-cases, Text, codes, text_eq, text_lt, text_eq→eq,
  text_eq_refl, eq→text_eq, truthy, length, take, drop, take_last, any, all, length-append,
}
use beaconwise_tek.Json.{Json, Fields}
use beaconwise_tek.Stable.{Crypto, has_char, split_at}
use beaconwise_tek.Kernel.Patterns.{lower, strip}
use beaconwise_tek.Validation.Checked.{Python}
use beaconwise_tek.Validation.Regions.{behind}
use beaconwise_tek.Consensus.Context.{VerificationContext, public_context}
use beaconwise_tek.Consensus.Config.{ModelSpec, PromptBundle, DebateConfig, ConsensusConfig}
use beaconwise_tek.Consensus.Ledger.{EventStore}
use beaconwise_tek.Consensus.Scope.{Output, GateReply, occurs}
use beaconwise_tek.Consensus.Calls.{Exc, validation_error, Outcome, returned, raised, then_do}
use beaconwise_tek.Consensus.Flow.{Status, ConsensusResult, Models, RunInput, run_consensus}

-- `ModelSpec(..)`: white space is stripped, and an empty name raises a ValidationError.
unfoldable pub model_spec : Text → Text → ℕ → Outcome ModelSpec
unfolding strip
model_spec provider model timeout_s =
    if truthy (strip provider) && truthy (strip model)
    then returned
        record { provider = strip provider; model = strip model; timeout_s = some timeout_s }
    else raised validation_error

-- `s.startswith(p)`
unfoldable pub starts : Text → Text → Bool
unfolding behind
starts p s = elim (behind p s) [ none ↦ false | some r ↦ true ]

-- The provider of a bare model name in lower case.
unfoldable pub detected : Text → Text
unfolding occurs starts
detected m =
    if occurs (codes "claude") m
    then codes "anthropic"
    else if occurs (codes "gpt") m
        || (starts (codes "o1") m || (starts (codes "o3") m || starts (codes "o4") m))
    then codes "openai"
    else if occurs (codes "llama") m
        || (occurs (codes "mixtral") m || (occurs (codes "gemma") m || occurs (codes "qwen") m))
    then codes "groq"
    else if occurs (codes "deepseek") m
    then codes "deepseek"
    else if occurs (codes "gemini") m
    then codes "google"
    else codes "openai"

-- `_model_str_to_spec`
unfoldable pub model_str_to_spec : Text → ℕ → Outcome ModelSpec
unfolding model_spec detected lower
model_str_to_spec model_str timeout_s =
    let (provider, model) = split_at b':' model_str in
    if has_char b':' model_str
    then model_spec (strip provider) (strip model) timeout_s
    else model_spec (detected (lower model_str)) model_str timeout_s

-- The prompts, without the white space at their ends, which the model of the bundle strips
unfoldable pub default_prompts : PromptBundle
default_prompts = record {
  primary_template =
      codes "You are the Transparency Ecosphere Consensus Layer primary model."
      ++ (10
          ∷ codes
              "Return ONLY valid JSON for PrimaryOutput with fields: run_id, epack, aru, answer, reasoning_trace, claims, overall_confidence, uncertainty_flags, next_step.")
      ++ (10
          ∷ codes
              "Use these context variables: VERIFIED={VERIFIED} ROLE={ROLE} ROLE_LEVEL={ROLE_LEVEL} SCOPE={SCOPE}.")
      ++ (10 ∷ codes "RUN_ID={RUN_ID} EPACK={EPACK} ARU={ARU}.")
      ++ (10 ∷ codes "User query:")
      ++ (10 ∷ codes "{USER_QUERY}");
  repair_template =
      codes "The following text was supposed to be JSON for PrimaryOutput, but it was invalid."
      ++ (10 ∷ codes "Rewrite it as valid JSON ONLY, matching PrimaryOutput exactly.")
      ++ (10 ∷ codes "RUN_ID={RUN_ID} EPACK={EPACK} ARU={ARU}.")
      ++ (10 ∷ codes "Invalid text:")
      ++ (10 ∷ codes "{BAD_OUTPUT}");
}

-- The arguments of `run_two_stage_consensus`, with the ids and the other inputs of its run.
pub record TwoStageInput : Type 0 where
  pub user_text : Text
  pub primary_model : Text
  pub challenger_model : Text
  pub arbiter_model : Text
  pub epack : Text
  pub run_id : Text
  pub high_stakes : Bool
  pub ts_start : ℕ
  pub ts_end : ℕ
  pub written : Bool
  pub timings : Fields

unfoldable pub two_stage_config : ModelSpec → ModelSpec → ModelSpec → ConsensusConfig
two_stage_config primary challenger arbiter = record {
  primary = primary;
  validators = [];
  primary_timeout_s = 90;
  max_repair_attempts = 1;
  prompts = default_prompts;
  enable_debate = true;
  debate =
      some
        record { critic_model = challenger; defender_model = primary; synthesizer_model = arbiter };
}

-- The input of the run; the default of `aru` is ANSWER, that of the context is the public one.
unfoldable pub two_stage_run : TwoStageInput → ConsensusConfig → RunInput
two_stage_run t config = record {
  user_query = t.user_text;
  aru = codes "ANSWER";
  high_stakes = t.high_stakes;
  epack = t.epack;
  config = config;
  verification = public_context;
  rid = t.run_id;
  ts_start = t.ts_start;
  ts_end = t.ts_end;
  written = t.written;
  timings = t.timings;
}

-- The dict that is returned; `answer` is the same as `final`.
pub record TwoStageReply : Type 0 where
  pub final : Option Text
  pub status : Status
  pub run_id : Text
  pub epack : Text
  pub error : Option Text
  pub gate : Option GateReply

unfoldable pub two_stage_reply : ConsensusResult → TwoStageReply
two_stage_reply r = record {
  final = elim r.output [ none ↦ none | some o ↦ some o.answer ];
  status = r.status;
  run_id = r.run_id;
  epack = r.epack;
  error = r.error;
  gate = r.gate;
}

module _ (py : Python) (m : Models) (c : Crypto) where
  -- The reply of a run over a store of events, which keeps the events of `run_consensus`.
  unfoldable pub run_two_stage_consensus : TwoStageInput → EventStore → Outcome TwoStageReply
  unfolding two_stage_run two_stage_config two_stage_reply
  run_two_stage_consensus t s = then_do (model_str_to_spec t.primary_model 90) (λ primary.
      then_do (model_str_to_spec t.challenger_model 90) (λ challenger.
        then_do (model_str_to_spec t.arbiter_model 90) (λ arbiter.
          then_do
            (run_consensus py m c (two_stage_run t (two_stage_config primary challenger arbiter))
              s).0
            (λ r. returned (two_stage_reply r)))))
