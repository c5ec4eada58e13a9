-- ===== src/Consensus/Config.antt =====
-- src/ecosphere/consensus/config.py: models, prompts and presets. Of a `ModelSpec`, `family` and
-- `extra`, and of a configuration, `profile_name`, which the flow does not read, are left out.
use beaconwise_tek.Base.{
  ℕ, Bool, true, false, not, ◌||◌, Option, none, some, List, leb, ◌==◌, if◌then◌else◌, Text, length,
  take,
}
use beaconwise_tek.Consensus.Context.{VerificationContext}

pub record ModelSpec : Type 0 where
  pub provider : Text
  pub model : Text
  pub timeout_s : Option ℕ

pub record PromptBundle : Type 0 where
  pub primary_template : Text
  pub repair_template : Text

pub record DebateConfig : Type 0 where
  pub critic_model : ModelSpec
  pub defender_model : ModelSpec
  pub synthesizer_model : ModelSpec

-- The temperature of the primary model, which every preset sets to 0.0, is left out.
pub record ConsensusConfig : Type 0 where
  pub primary : ModelSpec
  pub validators : List ModelSpec
  pub primary_timeout_s : ℕ
  pub max_repair_attempts : ℕ
  pub prompts : PromptBundle
  pub enable_debate : Bool
  pub debate : Option DebateConfig

unfoldable pub preset_fast : PromptBundle → ModelSpec → List ModelSpec → ConsensusConfig
preset_fast prompts primary validators = record {
  primary = primary;
  validators = take 1 validators;
  primary_timeout_s = 35;
  max_repair_attempts = 1;
  prompts = prompts;
  enable_debate = false;
  debate = none;
}

unfoldable pub preset_high_assurance : PromptBundle → ModelSpec → List ModelSpec → ConsensusConfig
preset_high_assurance prompts primary validators = record {
  primary = primary;
  validators = if leb 2 (length validators) then take 2 validators else validators;
  primary_timeout_s = 60;
  max_repair_attempts = 2;
  prompts = prompts;
  enable_debate = false;
  debate = none;
}

unfoldable pub is_some : Option DebateConfig → Bool
is_some none = false
is_some (some d) = true

unfoldable pub preset_consensus :
    PromptBundle → ModelSpec → List ModelSpec → Option DebateConfig → ConsensusConfig
unfolding is_some
preset_consensus prompts primary validators debate = record {
  primary = primary;
  validators = if leb 3 (length validators) then take 3 validators else validators;
  primary_timeout_s = 75;
  max_repair_attempts = 2;
  prompts = prompts;
  enable_debate = is_some debate;
  debate = debate;
}

unfoldable pub preset_for_verification :
    PromptBundle
    → ModelSpec
    → List ModelSpec
    → VerificationContext
    → Option DebateConfig
    → ConsensusConfig
preset_for_verification prompts primary validators v debate =
    if not v.verified || leb v.role_level 1
    then preset_fast prompts primary validators
    else if v.role_level == 2
    then preset_high_assurance prompts primary validators
    else preset_consensus prompts primary validators debate
