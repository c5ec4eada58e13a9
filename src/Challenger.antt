-- ===== src/Challenger.antt =====
-- src/ecosphere/challenger: when the adversarial review of an answer is asked for (engine.py), and what
-- its critique (config.py) makes of the answer. The parsing of the critique is not modelled.
pub mod Verdict
use beaconwise_tek.Base.{
  ℕ, zero, suc, ◌+◌, ◌-◌, ◌*◌, ◌≤◌, ◌<◌, String, ◌≡◌, refl, sym, ap, ◌∙◌, subst, ◌≢◌, ◌↔◌, ◌⊎◌, inl,
  inr, Bool, true, false, not, ◌&&◌, ◌||◌, Option, none, some, List, [], ◌∷◌, ◌++◌, map,
  append_assoc, append-nil, arith, ltb, leb, ◌==◌, if◌then◌else◌, ltb→lt, lt→ltb, leb→le, le→leb,
  ==→eq, eq→==, Bool-cases, and_true, Option-cases, Text, codes, text_eq, text_lt, text_eq→eq,
  text_eq_refl, eq→text_eq, truthy, length, take, drop, take_last, any, all, length-append,
}
use beaconwise_tek.Float.{Floats}

-- "PASS", "REWRITE" and "REFUSE", in their order of strictness.
pub data Action : Type 0 where
  pass rewrite refuse : Action

pub data TriggerReason : Type 0 where
  high_stakes disagreement gate_hit low_evidence max_challenges_reached : TriggerReason

-- The texts under `constraints_applied`.
pub data Constraint : Type 0 where
  refuse_downgraded_for_expert refuse_enforced high_risk_claims_for_low_tier : Constraint
  conflicts_on_high_stakes missing_evidence_high_stakes rewrite_recommended : Constraint

pub record CriticalClaim : Type 0 where
  pub claim : Text
  pub risk : Text
  pub why : Text
  pub evidence_needed : Text

pub record Conflict : Type 0 where
  pub between : List Text
  pub topic : Text
  pub impact : Text

pub record MissingEvidence : Type 0 where
  pub for_claim : Text
  pub suggested_sources : List Text

pub record ChallengePack : Type 0 where
  pub attack_surface : List Text
  pub critical_claims : List CriticalClaim
  pub conflicts : List Conflict
  pub missing_evidence : List MissingEvidence
  pub questions_for_primary : List Text
  pub recommended_action : Text
  pub rewrite_instructions : List Text

pub record ArbitrationResult : Type 0 where
  pub final_action : Action
  pub challenger_applied : Bool
  pub constraints_applied : List Constraint
  pub original_gate_decision : Text
  pub rewrite_instructions : List Text

unfoldable pub has_high_risk_claims : ChallengePack → Bool
has_high_risk_claims p =
    any (λ c. text_eq c.risk (codes "high") || text_eq c.risk (codes "critical")) p.critical_claims

unfoldable pub has_conflicts : ChallengePack → Bool
has_conflicts p = ltb 0 (length p.conflicts)

-- `pack.missing_evidence`, as a condition
unfoldable pub lacks_evidence : ChallengePack → Bool
lacks_evidence p = ltb 0 (length p.missing_evidence)

unfoldable pub forces_rewrite : ChallengePack → Bool
forces_rewrite p = text_eq p.recommended_action (codes "REWRITE")

unfoldable pub forces_refuse : ChallengePack → Bool
forces_refuse p = text_eq p.recommended_action (codes "REFUSE")

-- `max(action, "REWRITE", key=..)`
unfoldable pub at_least_rewrite : Action → Action
at_least_rewrite pass = rewrite
at_least_rewrite a = a

unfoldable pub is_pass : Action → Bool
is_pass pass = true
is_pass _ = false

-- The action, the constraints and the instructions that `arbitrate` collects.
pub record Collected : Type 0 where
  pub action : Action
  pub constraints : List Constraint
  pub instructions : List Text

-- One of the rules 2 to 4: under its condition, at least REWRITE, a constraint and instructions.
unfoldable pub tighten : Bool → Constraint → List Text → Collected → Collected
unfolding at_least_rewrite
tighten applies c texts k =
    if applies
    then record {
      action = at_least_rewrite k.action;
      constraints = k.constraints ++ c ∷ [];
      instructions = k.instructions ++ texts;
    }
    else k

-- Rule 5.
unfoldable pub recommend : Bool → Collected → Collected
unfolding is_pass
recommend applies k =
    if applies && is_pass k.action
    then record k { action = rewrite; constraints = k.constraints ++ rewrite_recommended ∷ [] }
    else k

-- The rules 2 to 5.
unfoldable pub constrain : ChallengePack → ℕ → Bool → Collected → Collected
unfolding tighten recommend
constrain p role_level on_high_stakes k = recommend (forces_rewrite p) (
    tighten (lacks_evidence p && on_high_stakes) missing_evidence_high_stakes
      (codes "Reframe to E1-safe (general information only)" ∷ [])
      (tighten (has_conflicts p && on_high_stakes) conflicts_on_high_stakes
        (codes "Add explicit uncertainty language"
          ∷ codes "Present alternative hypotheses where models disagree"
          ∷ [])
        (tighten (has_high_risk_claims p && ltb role_level 2) high_risk_claims_for_low_tier
          (codes "Remove or soften high-risk clinical claims"
            ∷ codes "Add mandatory disclaimer for non-professional tier"
            ∷ [])
          k)))

unfoldable pub arbitrate : ChallengePack → Text → ℕ → Text → ArbitrationResult
arbitrate p scope_gate_decision role_level domain =
    let downgraded : Collected = record {
      action = rewrite;
      constraints = refuse_downgraded_for_expert ∷ [];
      instructions =
          p.rewrite_instructions ++ codes "Add expert-only caveat and verification reminder" ∷ [];
    } in
    let plain : Collected = record {
      action = pass;
      constraints = [];
      instructions = p.rewrite_instructions;
    } in
    let k : Collected =
      constrain p role_level (text_eq domain (codes "HIGH_STAKES"))
        (if forces_refuse p then downgraded else plain) in
    if forces_refuse p && not (leb 3 role_level && text_eq scope_gate_decision (codes "PASS"))
    then record {
      final_action = refuse;
      challenger_applied = true;
      constraints_applied = refuse_enforced ∷ [];
      original_gate_decision = scope_gate_decision;
      rewrite_instructions = p.rewrite_instructions;
    }
    else record {
      final_action = k.action;
      challenger_applied = true;
      constraints_applied = k.constraints;
      original_gate_decision = scope_gate_decision;
      rewrite_instructions = k.instructions;
    }

module _ (fl : Floats) where
  pub record ChallengerRules : Type 0 where
    pub enabled : Bool
    pub trigger_on_high_stakes : Bool
    pub trigger_on_disagreement : Bool
    pub disagreement_threshold : fl.F
    pub trigger_on_gate : Bool
    pub trigger_on_low_evidence : Bool
    pub max_challenges_per_session : ℕ
    pub timeout_s : fl.F
    pub max_tokens : ℕ

  pub record ChallengerTriggerResult : Type 0 where
    pub should_trigger : Bool
    pub reasons : List TriggerReason
    pub disagreement_score : fl.F

  -- The arguments of `should_trigger_challenger` behind the rules.
  pub record ChallengerInput : Type 0 where
    pub domain : Text
    pub disagreement_score : fl.F
    pub scope_gate_decision : Text
    pub evidence_level : Text
    pub challenges_this_session : ℕ

  unfoldable pub when : Bool → TriggerReason → List TriggerReason
  when b r = if b then r ∷ [] else []

  unfoldable pub trigger_reasons : ChallengerRules → ChallengerInput → List TriggerReason
  unfolding when
  trigger_reasons r i =
      let on_high_stakes : Bool = text_eq i.domain (codes "HIGH_STAKES") in
      when (r.trigger_on_high_stakes && on_high_stakes) high_stakes
      ++ (when (r.trigger_on_disagreement && fl.le r.disagreement_threshold i.disagreement_score)
            disagreement
          ++ (when
                (r.trigger_on_gate
                  && (text_eq i.scope_gate_decision (codes "REWRITE")
                      || text_eq i.scope_gate_decision (codes "REFUSE")))
                gate_hit
              ++ when
                  (r.trigger_on_low_evidence
                    && (on_high_stakes
                        && (text_eq i.evidence_level (codes "E0")
                            || text_eq i.evidence_level (codes "E1"))))
                  low_evidence))

  unfoldable pub should_trigger_challenger :
      ChallengerRules → ChallengerInput → ChallengerTriggerResult
  unfolding trigger_reasons
  should_trigger_challenger r i =
      let none_yet : fl.F = fl.lit 0 1 in
      if not r.enabled
      then record { should_trigger = false; reasons = []; disagreement_score = none_yet }
      else if leb r.max_challenges_per_session i.challenges_this_session
      then record {
        should_trigger = false;
        reasons = max_challenges_reached ∷ [];
        disagreement_score = none_yet;
      }
      else record {
        should_trigger = ltb 0 (length (trigger_reasons r i));
        reasons = trigger_reasons r i;
        disagreement_score = i.disagreement_score;
      }
