-- ===== src/Tsv/Snapshot.antt =====
-- src/ecosphere/tsv/state.py: `snapshot`, which is also a `_decay`.
use beaconwise_tek.Base.{List, [], ◌∷◌, Text, codes, take_last}
use beaconwise_tek.Float.{Floats}
use beaconwise_tek.Json.{Json, Items, bool, num, real, str, arr, obj, nil, cons, end, field}
use beaconwise_tek.Tsv.{
  EvidenceType, ev_self_assertion, ev_performance, ev_compliance, ev_error_pattern,
  ev_verification_step, EvidenceStrength, e0, e1, e2, e3, Skill, clarity, context, verification,
  constraints, translation_intent, other, SkillEvidence, TsvState, has_e3, decay,
}

unfoldable pub type_text : EvidenceType → Text
type_text ev_self_assertion = codes "EV_SELF_ASSERTION"
type_text ev_performance = codes "EV_PERFORMANCE"
type_text ev_compliance = codes "EV_COMPLIANCE"
type_text ev_error_pattern = codes "EV_ERROR_PATTERN"
type_text ev_verification_step = codes "EV_VERIFICATION_STEP"

unfoldable pub strength_text : EvidenceStrength → Text
strength_text e0 = codes "E0"
strength_text e1 = codes "E1"
strength_text e2 = codes "E2"
strength_text e3 = codes "E3"

unfoldable pub skill_text : Skill → Text
skill_text clarity = codes "clarity"
skill_text context = codes "context"
skill_text verification = codes "verification"
skill_text constraints = codes "constraints"
skill_text translation_intent = codes "translation_intent"
skill_text (other s) = s

module _ (fl : Floats) where
  unfoldable pub evidence_json : SkillEvidence fl → Json
  evidence_json e = obj (
      field (codes "skill") (str (skill_text e.skill)) (
        field (codes "evidence_type") (str (type_text e.evidence_type)) (
          field (codes "strength") (str (strength_text e.strength)) (
            field (codes "timestamp") (real (fl.repr e.timestamp))
              (field (codes "details") (obj e.details) end)))))

  unfoldable pub evidence_items : List (SkillEvidence fl) → Items
  evidence_items [] = nil
  evidence_items (e ∷ es) = cons (evidence_json e) (evidence_items es)

  -- The value of `snapshot()`, of a state that was decayed.
  unfoldable pub snapshot_json : TsvState fl → Json
  snapshot_json s = obj (
      field (codes "beliefs")
        (obj (
          field (codes "clarity") (real (fl.repr s.beliefs.clarity)) (
            field (codes "context") (real (fl.repr s.beliefs.context)) (
              field (codes "verification") (real (fl.repr s.beliefs.verification)) (
                field (codes "constraints") (real (fl.repr s.beliefs.constraints)) (
                  field (codes "translation_intent") (real (fl.repr s.beliefs.translation_intent))
                    end))))))
        (field (codes "evidence_window_s") (num s.evidence_window_s) (
          field (codes "evidence_recent") (arr (evidence_items (take_last 20 s.evidence_log)))
            (field (codes "has_e3_verification") (bool (has_e3 fl verification s)) end))))

  -- `snapshot` at the time `now`: the new state and the value.
  unfoldable pub snapshot : fl.F → TsvState fl → TsvState fl × Json
  snapshot now s = let s' : TsvState fl = decay fl now s in (s', snapshot_json s')
