-- ===== src/Tsv/Readiness.antt =====
-- What the high-stakes gate of the belief state rests on.
use beaconwise_tek.Base.{
  ℕ, ◌≡◌, ◌≢◌, ◌⊎◌, inl, inr, Bool, true, false, ◌&&◌, List, [], ◌∷◌, ◌++◌, arith, Bool-cases,
  and_true, any,
}
use beaconwise_tek.Float.{Floats}
use beaconwise_tek.Tsv.{
  SkillEvidence, TsvState, Skill, EvidenceType, EvidenceStrength, ev_self_assertion, e3, is_e3,
  verification, skill_eq, add_evidence, has_e3, keep_fresh, is_expired, high_stakes_ready,
  cap_strength_for_type,
}

-- Only an uncapped E3 stays an E3.
capped_e3 :
    (t : EvidenceType) (s : EvidenceStrength)
    → is_e3 (cap_strength_for_type t s) ≡ true
    → (t ≢ ev_self_assertion) × (s ≡ e3)
unfolding is_e3 cap_strength_for_type
capped_e3 t s h = ground arith

module _ (fl : Floats) where
  abbrev pub AllFresh : fl.F → ℕ → List (SkillEvidence fl) → Type 0
  AllFresh now w [] = Unit
  AllFresh now w (e ∷ es) = (is_expired fl e now w ≡ false) × AllFresh now w es

  keep_fresh-AllFresh :
      (now : fl.F) (w : ℕ) (es : List (SkillEvidence fl)) → AllFresh now w (keep_fresh fl now w es)
  unfolding keep_fresh
  keep_fresh-AllFresh now w [] = tt
  keep_fresh-AllFresh now w (e ∷ es) = ground (arith, keep_fresh-AllFresh now w es)

  -- An entry that is found after `keep_fresh` was there before.
  any-keep_fresh :
      (p : SkillEvidence fl → Bool) (now : fl.F) (w : ℕ) (es : List (SkillEvidence fl))
      → any p (keep_fresh fl now w es) ≡ true
      → any p es ≡ true
  unfolding keep_fresh
  any-keep_fresh p now w [] h = h
  any-keep_fresh p now w (e ∷ es) h = ground (arith, any-keep_fresh p now w es)

  any-append_one :
      (p : SkillEvidence fl → Bool) (e : SkillEvidence fl) (es : List (SkillEvidence fl))
      → any p (es ++ e ∷ []) ≡ true
      → (any p es ≡ true) ⊎ (p e ≡ true)
  any-append_one p e [] h = ground arith
  any-append_one p e (x ∷ es) h = ground (arith, any-append_one p e es)

  -- No entry of the log that `add_evidence` leaves is past the window.
  pub add_evidence-AllFresh :
      (now : fl.F) (ev : SkillEvidence fl) (s : TsvState fl)
      → AllFresh now s.evidence_window_s (add_evidence fl now ev s).evidence_log
  unfolding add_evidence
  add_evidence-AllFresh now ev s = keep_fresh-AllFresh now s.evidence_window_s _

  -- After `add_evidence` the log has an E3 entry for a skill only if it had one before, or if the
  -- new evidence is of that skill, has strength E3 and is no self-assertion.
  pub add_evidence-has_e3 :
      (now : fl.F) (ev : SkillEvidence fl) (s : TsvState fl) (k : Skill)
      → has_e3 fl k (add_evidence fl now ev s) ≡ true
      → (has_e3 fl k s ≡ true)
        ⊎ ((skill_eq ev.skill k ≡ true)
            × (ev.evidence_type ≢ ev_self_assertion)
            × (ev.strength ≡ e3))
  unfolding add_evidence has_e3
  add_evidence-has_e3 now ev s k h =
      let capped : SkillEvidence fl = record ev {
        strength = cap_strength_for_type ev.evidence_type ev.strength;
      } in
      let p : SkillEvidence fl → Bool = λ e. skill_eq e.skill k && is_e3 e.strength in
      elim (any-append_one p capped s.evidence_log
        (any-keep_fresh p now s.evidence_window_s (s.evidence_log ++ capped ∷ []) h)) [
          | inl old ↦ inl old
          | inr new ↦
              let (same, strong) = and_true (skill_eq ev.skill k) (is_e3 capped.strength) new in
              let (honest, top) = capped_e3 ev.evidence_type ev.strength strong in
              inr (same, honest, top)
        ]

  -- A run of `add_evidence` calls, each at its time.
  abbrev pub gather : List (fl.F × SkillEvidence fl) → TsvState fl → TsvState fl
  gather [] s = s
  gather ((now, ev) ∷ r) s = gather r (add_evidence fl now ev s)

  abbrev pub AllAsserted : List (fl.F × SkillEvidence fl) → Type 0
  AllAsserted [] = Unit
  AllAsserted ((now, ev) ∷ r) = (ev.evidence_type ≡ ev_self_assertion) × AllAsserted r

  -- However often a user only asserts a skill, at whatever strength, a state without E3 evidence of
  -- verification does not become ready for high-stakes questions.
  pub asserted-not_ready :
      (r : List (fl.F × SkillEvidence fl)) (s : TsvState fl)
      → AllAsserted r
      → has_e3 fl verification s ≡ false
      → high_stakes_ready fl (gather r s) ≡ false
  asserted-not_ready [] s a n = unfold high_stakes_ready in ground arith
  asserted-not_ready ((now, ev) ∷ r) s a n =
      asserted-not_ready r (add_evidence fl now ev s) a.1
        (elim (Bool-cases (has_e3 fl verification (add_evidence fl now ev s))) [
          | inl e ↦ elim (add_evidence-has_e3 now ev s verification e) [
            | inl old ↦ cc
            | inr new ↦ absurd (new.1 a.0)
          ]
          | inr e ↦ e
        ])
