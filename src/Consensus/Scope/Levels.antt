-- ===== src/Consensus/Scope/Levels.antt =====
-- What the scope gate decides, and how it depends on the level of the role.
use beaconwise_tek.Base.{
  ℕ, ◌≤◌, ◌<◌, ◌≡◌, refl, sym, ap, ◌∙◌, ◌⊎◌, inl, inr, Bool, true, false, not, ◌&&◌, ◌||◌, List, [],
  ◌∷◌, arith, ltb, leb, ◌==◌, Bool-cases, and_true, Text, length, all,
}
use beaconwise_tek.Stable.{Crypto}
use beaconwise_tek.Kernel.Patterns.{lower}
use beaconwise_tek.Consensus.Context.{VerificationContext}
use beaconwise_tek.Consensus.Ledger.{EventStore}
use beaconwise_tek.Consensus.Scope.{
  BlockRule, ScopeGateConfig, Output, Decision, pass, rewrite, refuse, occurs, full_text, Violation,
  fires, violations, misses_disclaimer, gate_violation, scope_gate_v1,
}

abbrev pub is_pass : Decision → Bool
is_pass pass = true
is_pass _ = false

module _ (findall : Text → Text → List Text) where
  -- A rule does not match a text, or is for roles up to this level only.
  abbrev pub allows : Text → ℕ → BlockRule → Bool
  allows text level r = length (findall r.pattern_ text) == 0 || leb r.min_level level

  -- No disclaimer is asked for at this level, or it is there.
  abbrev pub disclaims : ScopeGateConfig → Text → ℕ → Bool
  disclaims config text level =
      not config.require_disclaimer_low_tier
      || (ltb 2 level || occurs (lower config.low_tier_disclaimer_snippet) (lower text))

  violations_lem :
      (text : Text) (level : ℕ) (rs : List BlockRule)
      → (length (violations findall text level rs) == 0) ≡ all (allows text level) rs
  unfolding violations fires
  violations_lem text level [] = refl
  violations_lem text level (r ∷ rs) = elim (Bool-cases (length (findall r.pattern_ text) == 0)) [
    | inl a ↦ rw a (violations_lem text level rs)
    | inr a ↦ elim (Bool-cases (ltb level r.min_level)) [
      | inl b ↦ rw (a, b) (ground arith)
      | inr b ↦ rw (a, b) (rw (violations_lem text level rs) (ground arith))
    ]
  ]

  disclaimer_lem :
      (config : ScopeGateConfig) (text : Text) (level : ℕ)
      → misses_disclaimer findall config text level ≡ not (disclaims config text level)
  unfolding misses_disclaimer
  disclaimer_lem config text level = ground arith

  violation-not_pass :
      (config : ScopeGateConfig) (v : VerificationContext) (text : Text) (vs : List Violation)
      (missing : Bool)
      → is_pass (gate_violation findall config v text vs missing).decision ≡ false
  unfolding gate_violation
  violation-not_pass config v text vs missing = elim (Bool-cases (leb 2 v.role_level)) [
    | inl a ↦ rw a refl
    | inr a ↦ rw a refl
  ]

  -- The scope gate passes an output exactly when no rule of the configuration that matches the text is
  -- for a level above that of the role, and the disclaimer is in the text if the configuration asks
  -- for it and the level is at most 2.
  pub scope_gate_v1-passes :
      (c : Crypto) (written : Bool) (ts_ms : ℕ) (output : Output) (v : VerificationContext)
      (config : ScopeGateConfig) (epack run_id : Text) (s : EventStore)
      → is_pass (scope_gate_v1 findall c written ts_ms output v config epack run_id s).0.decision
        ≡ (all (allows (full_text output) v.role_level) config.block_patterns
            && disclaims config (full_text output) v.role_level)
  unfolding scope_gate_v1
  scope_gate_v1-passes c written ts_ms output v config epack run_id s = ground (
    arith,
    violations_lem (full_text output) v.role_level config.block_patterns,
    disclaimer_lem config (full_text output) v.role_level,
  )

  allows_more :
      (text : Text) (n m : ℕ) (rs : List BlockRule)
      → n ≤ m
      → all (allows text n) rs ≡ true
      → all (allows text m) rs ≡ true
  allows_more text n m [] h e = refl
  allows_more text n m (r ∷ rs) h e = ground (arith, allows_more text n m rs)

  disclaims_more :
      (config : ScopeGateConfig) (text : Text) (n m : ℕ)
      → n ≤ m
      → disclaims config text n ≡ true
      → disclaims config text m ≡ true
  disclaims_more config text n m h e = ground arith

  is_pass→eq : (d : Decision) → is_pass d ≡ true → d ≡ pass
  is_pass→eq pass e = refl
  is_pass→eq rewrite e = ground arith
  is_pass→eq refuse e = ground arith

  -- What the scope gate passes for one role it passes for every role of at least its level, under
  -- the same configuration.
  pub scope_gate_v1-monotone :
      (c : Crypto) (written : Bool) (ts_ms : ℕ) (output : Output) (v w : VerificationContext)
      (config : ScopeGateConfig) (epack run_id : Text) (s : EventStore)
      → v.role_level ≤ w.role_level
      → (scope_gate_v1 findall c written ts_ms output v config epack run_id s).0.decision ≡ pass
      → (scope_gate_v1 findall c written ts_ms output w config epack run_id s).0.decision ≡ pass
  scope_gate_v1-monotone c written ts_ms output v w config epack run_id s h e =
      let text : Text = full_text output in
      let open_v =
        sym (scope_gate_v1-passes c written ts_ms output v config epack run_id s) ∙ ap is_pass e in
      let (rules, said) =
        and_true (all (allows text v.role_level) config.block_patterns)
          (disclaims config text v.role_level) open_v in
      is_pass→eq _ (
        scope_gate_v1-passes c written ts_ms output w config epack run_id s
        ∙ ground (
          arith,
          allows_more text v.role_level w.role_level config.block_patterns h rules,
          disclaims_more config text v.role_level w.role_level h said,
        ))

  -- The scope gate asks for a rewrite only of outputs for roles of level 2 or more, and refuses only
  -- outputs for roles below.
  pub scope_gate_v1-severity :
      (c : Crypto) (written : Bool) (ts_ms : ℕ) (output : Output) (v : VerificationContext)
      (config : ScopeGateConfig) (epack run_id : Text) (s : EventStore)
      → ((scope_gate_v1 findall c written ts_ms output v config epack run_id s).0.decision ≡ pass)
        ⊎ (((scope_gate_v1 findall c written ts_ms output v config epack run_id s).0.decision
              ≡ rewrite)
            × (2 ≤ v.role_level))
        ⊎ (((scope_gate_v1 findall c written ts_ms output v config epack run_id s).0.decision
              ≡ refuse)
            × (v.role_level < 2))
  unfolding scope_gate_v1 gate_violation
  scope_gate_v1-severity c written ts_ms output v config epack run_id s = ground arith
