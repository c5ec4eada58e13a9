-- ===== src/Tests/TsvExamples.antt =====
-- Beliefs and tagged hashes at concrete inputs.
use beaconwise_tek.Base.{ℕ, ◌≡◌, refl, true, false, List, [], ◌∷◌}
use beaconwise_tek.Json.{end}
use beaconwise_tek.Tsv.{
  set_belief, get_belief, is_expired, SkillEvidence, EvidenceType, EvidenceStrength, Skill,
  add_evidence, has_e3, high_stakes_ready, skill_eq, is_e3, cap_strength_for_type,
}
use beaconwise_tek.Tsv.Readiness.{gather, asserted-not_ready}
use beaconwise_tek.Tests.Fixtures.{toy_floats, toy_tsv}

abbrev claim : EvidenceType → SkillEvidence toy_floats
claim t = record {
  skill = Skill.verification;
  evidence_type = t;
  strength = EvidenceStrength.e3;
  details = end;
  timestamp = 10000;
}

-- Checked steps of verification open the gate.
verified_ready :
    high_stakes_ready toy_floats
      (add_evidence toy_floats 20000 (claim EvidenceType.ev_verification_step) toy_tsv)
    ≡ true
unfolding high_stakes_ready add_evidence has_e3 skill_eq is_e3 cap_strength_for_type set_belief
    get_belief is_expired
verified_ready = refl

abbrev boasts : List (ℕ × SkillEvidence toy_floats)
boasts =
    (20000, claim EvidenceType.ev_self_assertion)
    ∷ (30000, claim EvidenceType.ev_self_assertion)
    ∷ []

asserted-not_ready_example : high_stakes_ready toy_floats (gather toy_floats boasts toy_tsv) ≡ false
unfolding has_e3
asserted-not_ready_example = asserted-not_ready toy_floats boasts toy_tsv (refl, (refl, tt)) refl
