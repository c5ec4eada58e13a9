-- ===== src/Challenger/Verdict.antt =====
-- What the arbitration decides.
use beaconwise_tek.Base.{
  ℕ, ◌<◌, ◌≡◌, ◌↔◌, ◌⊎◌, Bool, true, false, not, ◌&&◌, arith, ltb, Text, codes, text_eq, length,
}
use beaconwise_tek.Float.{Floats}
use beaconwise_tek.Challenger.{
  pass, refuse, ChallengePack, has_high_risk_claims, has_conflicts, lacks_evidence, forces_rewrite,
  forces_refuse, at_least_rewrite, is_pass, tighten, recommend, constrain, arbitrate,
  ChallengerRules, ChallengerInput, should_trigger_challenger,
}

-- Nothing in a critique speaks against an answer, for a role and a domain.
abbrev pub is_harmless : ChallengePack → ℕ → Text → Bool
is_harmless p role_level domain =
    not (forces_refuse p)
    && (not (forces_rewrite p)
        && (not (has_high_risk_claims p && ltb role_level 2)
            && (not (has_conflicts p && text_eq domain (codes "HIGH_STAKES"))
                && not (lacks_evidence p && text_eq domain (codes "HIGH_STAKES")))))

-- The final action by the critique alone: `arbitrate` lets an answer pass exactly when the critique
-- neither refuses nor asks for a rewrite, has no high-risk claim for a role below 2, and, where the
-- domain is HIGH_STAKES, names no conflict and no missing evidence.
pub arbitrate-passes :
    (p : ChallengePack) (gate : Text) (role_level : ℕ) (domain : Text)
    → ((arbitrate p gate role_level domain).final_action ≡ pass)
      ↔ (is_harmless p role_level domain ≡ true)
unfolding arbitrate constrain tighten recommend at_least_rewrite is_pass
arbitrate-passes p gate role_level domain = (λ h. ground arith, λ h. ground arith)

-- `arbitrate` refuses exactly when the critique refuses and the reader is no expert (role 3 or more)
-- whom the scope gate lets pass.
pub arbitrate-refuses :
    (p : ChallengePack) (gate : Text) (role_level : ℕ) (domain : Text)
    → ((arbitrate p gate role_level domain).final_action ≡ refuse)
      ↔ ((forces_refuse p ≡ true) × ((role_level < 3) ⊎ (text_eq gate (codes "PASS") ≡ false)))
unfolding arbitrate constrain tighten recommend at_least_rewrite is_pass
arbitrate-refuses p gate role_level domain = (λ h. ground arith, λ h. ground arith)

-- The challenger is asked at most as often as the rules allow in a session, never when it is
-- disabled, and only with one of the four reasons.
pub should_trigger_challenger-bounded :
    (fl : Floats) (r : ChallengerRules fl) (i : ChallengerInput fl)
    → (should_trigger_challenger fl r i).should_trigger ≡ true
    → (r.enabled ≡ true)
      × (i.challenges_this_session < r.max_challenges_per_session)
      × (0 < length (should_trigger_challenger fl r i).reasons)
unfolding should_trigger_challenger
should_trigger_challenger-bounded fl r i y = ground arith
