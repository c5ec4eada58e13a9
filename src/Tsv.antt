-- ===== src/Tsv.antt =====
-- src/ecosphere/tsv/state.py: beliefs about the user's skills, moved by logged evidence.
pub mod Beliefs
pub mod Readiness
pub mod Snapshot
use beaconwise_tek.Base.{
  ℕ, zero, suc, ◌+◌, ◌-◌, ◌*◌, ◌≤◌, ◌<◌, String, ◌≡◌, refl, sym, ap, ◌∙◌, subst, ◌≢◌, ◌↔◌, ◌⊎◌, inl,
  inr, Bool, true, false, not, ◌&&◌, ◌||◌, Option, none, some, List, [], ◌∷◌, ◌++◌, map,
  append_assoc, append-nil, arith, ltb, leb, ◌==◌, if◌then◌else◌, ltb→lt, lt→ltb, leb→le, le→leb,
  ==→eq, eq→==, Bool-cases, Option-cases, Text, codes, text_eq, text_lt, text_eq→eq, text_eq_refl,
  eq→text_eq, truthy, length, take, drop, take_last, any, all, length-append,
}
use beaconwise_tek.Float.{Floats, flt, clamp}
use beaconwise_tek.Json.{Json, Fields, get, json_truthy}

pub data EvidenceType : Type 0 where
  ev_self_assertion ev_performance ev_compliance ev_error_pattern ev_verification_step :
      EvidenceType

pub data EvidenceStrength : Type 0 where
  e0 e1 e2 e3 : EvidenceStrength

-- The five attributes of `TSVSkillBeliefs`; any other attribute name is kept as it is written.
pub data Skill : Type 0 where
  clarity context verification constraints translation_intent : Skill
  other : Text → Skill

unfoldable pub skill_eq : Skill → Skill → Bool
skill_eq clarity clarity = true
skill_eq context context = true
skill_eq verification verification = true
skill_eq constraints constraints = true
skill_eq translation_intent translation_intent = true
skill_eq (other s) (other t) = text_eq s t
skill_eq _ _ = false

unfoldable pub is_e3 : EvidenceStrength → Bool
is_e3 e3 = true
is_e3 _ = false

unfoldable pub cap_strength_for_type : EvidenceType → EvidenceStrength → EvidenceStrength
cap_strength_for_type ev_self_assertion s = e1
cap_strength_for_type _ s = s

module _ (fl : Floats) where
  pub record SkillEvidence : Type 0 where
    pub skill : Skill
    pub evidence_type : EvidenceType
    pub strength : EvidenceStrength
    pub details : Fields
    pub timestamp : fl.F

  pub record TsvSkillBeliefs : Type 0 where
    pub clarity : fl.F
    pub context : fl.F
    pub verification : fl.F
    pub constraints : fl.F
    pub translation_intent : fl.F
    -- attributes that `setattr` has added under other names
    pub others : List (Text × fl.F)

  pub record TsvState : Type 0 where
    pub beliefs : TsvSkillBeliefs
    pub evidence_log : List SkillEvidence
    pub evidence_window_s : ℕ

  unfoldable pub strength_weight : EvidenceStrength → fl.F
  strength_weight e0 = fl.lit 0 1
  strength_weight e1 = fl.lit 10 100
  strength_weight e2 = fl.lit 25 100
  strength_weight e3 = fl.lit 55 100

  unfoldable pub clamp01 : fl.F → fl.F
  clamp01 x = clamp fl (fl.lit 0 1) (fl.lit 1 1) x

  unfoldable pub is_expired : SkillEvidence → fl.F → ℕ → Bool
  is_expired e now window_s = flt fl (fl.lit window_s 1) (fl.sub now e.timestamp)

  unfoldable pub keep_fresh : fl.F → ℕ → List SkillEvidence → List SkillEvidence
  keep_fresh now w [] = []
  keep_fresh now w (e ∷ es) =
      let rest = keep_fresh now w es in if is_expired e now w then rest else e ∷ rest

  -- `_decay`
  unfoldable pub decay : fl.F → TsvState → TsvState
  unfolding keep_fresh
  decay now s = record s { evidence_log = keep_fresh now s.evidence_window_s s.evidence_log }

  unfoldable pub has_e3 : Skill → TsvState → Bool
  has_e3 k s = any (λ e. skill_eq e.skill k && is_e3 e.strength) s.evidence_log

  unfoldable pub lookup_other : Text → List (Text × fl.F) → fl.F
  lookup_other k [] = fl.lit 50 100
  lookup_other k ((j, v) ∷ r) = if text_eq j k then v else lookup_other k r

  unfoldable pub set_other : Text → fl.F → List (Text × fl.F) → List (Text × fl.F)
  set_other k v [] = (k, v) ∷ []
  set_other k v ((j, w) ∷ r) = if text_eq j k then (j, v) ∷ r else (j, w) ∷ set_other k v r

  -- `getattr(self.beliefs, skill, 0.50)`
  unfoldable pub get_belief : Skill → TsvSkillBeliefs → fl.F
  unfolding lookup_other
  get_belief clarity b = b.clarity
  get_belief context b = b.context
  get_belief verification b = b.verification
  get_belief constraints b = b.constraints
  get_belief translation_intent b = b.translation_intent
  get_belief (other k) b = lookup_other k b.others

  -- `setattr(self.beliefs, skill, v)`
  unfoldable pub set_belief : Skill → fl.F → TsvSkillBeliefs → TsvSkillBeliefs
  unfolding set_other
  set_belief clarity v b = record b { clarity = v }
  set_belief context v b = record b { context = v }
  set_belief verification v b = record b { verification = v }
  set_belief constraints v b = record b { constraints = v }
  set_belief translation_intent v b = record b { translation_intent = v }
  set_belief (other k) v b = record b { others = set_other k v b.others }

  -- `details.get(k)` and `details.get(k, True)`, as a condition
  unfoldable pub flag : Text → Bool → Fields → Bool
  flag k default d = elim (get k d) [ none ↦ default | some v ↦ json_truthy v ]

  -- Where the evidence pulls its belief to.
  unfoldable pub target_of : SkillEvidence → fl.F
  unfolding flag
  target_of e = elim e.evidence_type [
    | ev_performance ↦ if flag (codes "success") false e.details then fl.lit 1 1 else fl.lit 0 1
    | ev_error_pattern ↦ fl.lit 0 1
    | ev_verification_step ↦ fl.lit 1 1
    | _ ↦ if flag (codes "positive") true e.details then fl.lit 1 1 else fl.lit 0 1
  ]

  -- `add_evidence`, at the time `now`
  unfoldable pub add_evidence : fl.F → SkillEvidence → TsvState → TsvState
  unfolding decay clamp01 target_of strength_weight
  add_evidence now ev s =
      let capped : SkillEvidence = record ev {
        strength = cap_strength_for_type ev.evidence_type ev.strength;
      } in
      let s' : TsvState = decay now (record s { evidence_log = s.evidence_log ++ capped ∷ [] }) in
      let w : fl.F = strength_weight capped.strength in
      let current : fl.F = get_belief capped.skill s'.beliefs in
      let updated : fl.F = fl.add current (fl.mul w (fl.sub (target_of capped) current)) in
      record s' { beliefs = set_belief capped.skill (clamp01 updated) s'.beliefs }

  unfoldable pub high_stakes_ready : TsvState → Bool
  high_stakes_ready s =
      (fl.le (fl.lit 70 100) s.beliefs.clarity
        && (fl.le (fl.lit 70 100) s.beliefs.constraints
            && fl.le (fl.lit 70 100) s.beliefs.verification))
      && has_e3 verification s
