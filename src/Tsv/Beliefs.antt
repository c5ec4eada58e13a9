-- ===== src/Tsv/Beliefs.antt =====
-- Beliefs stay between 0 and 1.
use beaconwise_tek.Base.{◌≡◌, true, List, [], ◌∷◌, arith, Text}
use beaconwise_tek.Float.{Floats, IsOrdered, clamp_bounds}
use beaconwise_tek.Tsv.{
  SkillEvidence, TsvState, TsvSkillBeliefs, Skill, clarity, context, verification, constraints,
  translation_intent, other, add_evidence, clamp01, set_belief, set_other,
}

module _ (fl : Floats) where
  abbrev pub InUnit : fl.F → Type 0
  InUnit x = (fl.le (fl.lit 0 1) x ≡ true) × (fl.le x (fl.lit 1 1) ≡ true)

  abbrev pub AllInUnit : List (Text × fl.F) → Type 0
  AllInUnit [] = Unit
  AllInUnit ((k, v) ∷ r) = InUnit v × AllInUnit r

  pub record IsCalibrated (b : TsvSkillBeliefs fl) : Type 0 where
    pub clarity_in : InUnit b.clarity
    pub context_in : InUnit b.context
    pub verification_in : InUnit b.verification
    pub constraints_in : InUnit b.constraints
    pub translation_intent_in : InUnit b.translation_intent
    pub others_in : AllInUnit b.others

  clamp01-InUnit : IsOrdered fl → (x : fl.F) → InUnit (clamp01 fl x)
  unfolding clamp01
  clamp01-InUnit o x =
      clamp_bounds fl o (fl.lit 0 1) (fl.lit 1 1) x
        (o.lit-le 0 1 1 1 (omega arith) (omega arith) (omega arith))

  set_other-InUnit :
      (k : Text) (v : fl.F) (r : List (Text × fl.F))
      → InUnit v
      → AllInUnit r
      → AllInUnit (set_other fl k v r)
  unfolding set_other
  set_other-InUnit k v [] h a = (h, tt)
  set_other-InUnit k v ((j, w) ∷ r) h a = ground (arith, set_other-InUnit k v r h a.1)

  set_belief-IsCalibrated :
      (k : Skill) (v : fl.F) (b : TsvSkillBeliefs fl)
      → InUnit v
      → IsCalibrated b
      → IsCalibrated (set_belief fl k v b)
  unfolding set_belief
  set_belief-IsCalibrated clarity v b h c = ground arith
  set_belief-IsCalibrated context v b h c = ground arith
  set_belief-IsCalibrated verification v b h c = ground arith
  set_belief-IsCalibrated constraints v b h c = ground arith
  set_belief-IsCalibrated translation_intent v b h c = ground arith
  set_belief-IsCalibrated (other k) v b h c = record {
    clarity_in = c.clarity_in;
    context_in = c.context_in;
    verification_in = c.verification_in;
    constraints_in = c.constraints_in;
    translation_intent_in = c.translation_intent_in;
    others_in = set_other-InUnit k v b.others h c.others_in;
  }

  -- Whatever the evidence, its strength and its details, `add_evidence` leaves every belief
  -- between 0 and 1 if all were so before.
  pub add_evidence-IsCalibrated :
      IsOrdered fl
      → (now : fl.F) (ev : SkillEvidence fl) (s : TsvState fl) → IsCalibrated s.beliefs
      → IsCalibrated (add_evidence fl now ev s).beliefs
  unfolding add_evidence
  add_evidence-IsCalibrated o now ev s c =
      set_belief-IsCalibrated ev.skill (clamp01 fl _) s.beliefs (clamp01-InUnit o _) c
