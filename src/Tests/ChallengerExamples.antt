-- ===== src/Tests/ChallengerExamples.antt =====
-- A critique and the rules of the challenger.
use beaconwise_tek.Base.{◌≡◌, refl, ◌↔◌, true, [], ◌∷◌, codes, text_eq}
use beaconwise_tek.Challenger.{
  pass, ChallengePack, arbitrate, ChallengerRules, ChallengerInput, should_trigger_challenger,
  trigger_reasons, when,
}
use beaconwise_tek.Challenger.Verdict.{is_harmless, arbitrate-passes}
use beaconwise_tek.Tests.Fixtures.{toy_floats}

abbrev refusing : ChallengePack
refusing = record {
  attack_surface = [];
  critical_claims =
      record { claim = codes "dose"; risk = codes "high"; why = []; evidence_needed = codes "E3" }
      ∷ [];
  conflicts = [];
  missing_evidence = [];
  questions_for_primary = [];
  recommended_action = codes "REFUSE";
  rewrite_instructions = [];
}

arbitrate-passes_example :
    ((arbitrate refusing (codes "PASS") 3 (codes "GENERAL")).final_action ≡ pass)
    ↔ (is_harmless refusing 3 (codes "GENERAL") ≡ true)
arbitrate-passes_example = arbitrate-passes refusing (codes "PASS") 3 (codes "GENERAL")

abbrev rules : ChallengerRules toy_floats
rules = record {
  enabled = true;
  trigger_on_high_stakes = true;
  trigger_on_disagreement = true;
  disagreement_threshold = 2200;
  trigger_on_gate = true;
  trigger_on_low_evidence = true;
  max_challenges_per_session = 10;
  timeout_s = 60000;
  max_tokens = 400;
}

abbrev question : ChallengerInput toy_floats
question = record {
  domain = codes "HIGH_STAKES";
  disagreement_score = 0;
  scope_gate_decision = codes "PASS";
  evidence_level = codes "E2";
  challenges_this_session = 9;
}

triggered : (should_trigger_challenger toy_floats rules question).should_trigger ≡ true
unfolding should_trigger_challenger trigger_reasons when codes text_eq
triggered = refl
