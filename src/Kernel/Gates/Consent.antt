-- ===== src/Kernel/Gates/Consent.antt =====
-- What sets and what revokes the two consent flags of a session.
use beaconwise_tek.Base.{◌≡◌, ◌⊎◌, inl, inr, Bool, true, false, arith, Text, text_eq→eq}
use beaconwise_tek.Kernel.Host.{Host}
use beaconwise_tek.Kernel.Session.{
  PendingGate, reflect_confirm, scaffold_approve, PendingGateState, is_active, is_expired,
}
use beaconwise_tek.Kernel.Gates.{
  Kind, BindingStatus, rejected, binding_decision, has_revision_intent, GateMeta, cleared_reflect,
  cleared_scaffold, rejects, extract_token,
}
use beaconwise_tek.Kernel.Gates.Pending.{
  Session, nonce_already_used, consume_nonce, clear_pending, trace, refresh_pending_gate_crypto,
}
use beaconwise_tek.Kernel.Gates.Handle.{
  GateReply, kind_of, is_reflect, trace_same, on_timeout, on_revision, on_replay, on_accept,
  on_reject, on_mismatch, on_missing_token, on_unclear, on_decision, handle_pending_gate,
}
use beaconwise_tek.Kernel.Patterns.{lower, strip}
use beaconwise_tek.Kernel.Gates.Outcome.{
  decision, Outcome, idle, late, revised, decided, handle-Outcome,
}

-- An accepted text names the expected token, or no token was required.
accepted_token :
    (text token : Text) (require : Bool) (k : Kind)
    → (binding_decision text token require k).0 ≡ true
    → (rejects k (lower (strip text)) ≡ false)
      × ((extract_token text k ≡ token) ⊎ (require ≡ false))
unfolding binding_decision
accepted_token text token require k h = ground (arith, text_eq→eq (extract_token text k) token)

-- The conditions under which a gate accepts a text.
pub record Consents (h : Host) (s : Session h) (text : Text) : Type 0 where
  pub active : is_active s.pending_gate ≡ true
  pub in_time : is_expired s.pending_gate s.interaction_count ≡ false
  pub no_revision : has_revision_intent text ≡ false
  pub no_rejection : rejects (kind_of s.pending_gate.gate) (lower (strip text)) ≡ false
  pub fresh : nonce_already_used h s ≡ false
  pub token :
      (extract_token text (kind_of s.pending_gate.gate) ≡ s.pending_gate.confirm_token)
      ⊎ (s.pending_gate.require_token_binding ≡ false)

-- The gate was cleared by an acceptance.
abbrev pub is_cleared : GateMeta → Bool
is_cleared (cleared_reflect _) = true
is_cleared (cleared_scaffold _) = true
is_cleared _ = false

module _ (h : Host) where
  accepted :
      (s : Session h) (k : Kind) (d : Bool × BindingStatus × Text)
      → is_cleared (on_decision h s k d).meta ≡ true
      → (d.0 ≡ true) × (nonce_already_used h s ≡ false)
  unfolding on_decision on_replay on_accept on_reject on_mismatch on_missing_token on_unclear
  accepted s k (true, status, provided) e = ground arith
  accepted s k (false, rejected, provided) e = ground arith
  accepted s k (false, _, provided) e = ground arith

  Outcome-Consents :
      {s : Session h} {text : Text} {r : GateReply h}
      → Outcome h s text r
      → is_cleared r.meta ≡ true
      → Consents h s text
  unfolding on_timeout on_revision
  Outcome-Consents (idle i) e = cc
  Outcome-Consents (late a l) e = cc
  Outcome-Consents (revised a n v) e = cc
  Outcome-Consents {s} {text} (decided a n p) e =
      let k : Kind = kind_of s.pending_gate.gate in
      let g : PendingGateState = s.pending_gate in
      let (ok, fresh) = accepted s k (decision h s text) e in
      let (kept, token) = accepted_token text g.confirm_token g.require_token_binding k ok in
      record {
        active = a;
        in_time = n;
        no_revision = p;
        no_rejection = kept;
        fresh = fresh;
        token = token;
      }

  -- A gate is cleared by acceptance only if it was active and not expired, the text asks for no
  -- revision and holds no rejection, the nonce was never consumed, and the text
  -- names the expected token or the gate requires none.
  pub cleared-Consents :
      (s : Session h) (text : Text)
      → is_cleared (handle_pending_gate h s text).meta ≡ true
      → Consents h s text
  cleared-Consents s text e = Outcome-Consents (handle-Outcome h s text) e

  -- How a decision can raise a flag.
  decision_flags :
      (s : Session h) (k : Kind) (d : Bool × BindingStatus × Text)
      → let r = on_decision h s k d in
        ((r.session.reflect_confirmed ≡ true)
          → (s.reflect_confirmed ≡ true)
            ⊎ ((is_cleared r.meta ≡ true) × (is_reflect s.pending_gate.gate ≡ true)))
        × ((r.session.scaffold_approved ≡ true)
            → (s.scaffold_approved ≡ true)
              ⊎ ((is_cleared r.meta ≡ true) × (is_reflect s.pending_gate.gate ≡ false)))
  unfolding on_decision on_replay on_accept on_reject on_mismatch on_missing_token on_unclear
      consume_nonce clear_pending trace trace_same
  decision_flags s k (true, status, provided) = (λ b. ground arith, λ b. ground arith)
  decision_flags s k (false, rejected, provided) = (λ b. ground arith, λ b. ground arith)
  decision_flags s k (false, _, provided) = (λ b. ground arith, λ b. ground arith)

  Outcome-reflect :
      {s : Session h} {text : Text} {r : GateReply h}
      → Outcome h s text r
      → r.session.reflect_confirmed ≡ true
      → (s.reflect_confirmed ≡ true)
        ⊎ ((is_cleared r.meta ≡ true) × (is_reflect s.pending_gate.gate ≡ true))
  unfolding on_timeout on_revision clear_pending trace trace_same refresh_pending_gate_crypto
  Outcome-reflect (idle i) e = inl e
  Outcome-reflect (late a l) e = cc
  Outcome-reflect (revised a n v) e = inl e
  Outcome-reflect {s} {text} (decided a n p) e =
      (decision_flags s (kind_of s.pending_gate.gate) (decision h s text)).0 e

  Outcome-scaffold :
      {s : Session h} {text : Text} {r : GateReply h}
      → Outcome h s text r
      → r.session.scaffold_approved ≡ true
      → (s.scaffold_approved ≡ true)
        ⊎ ((is_cleared r.meta ≡ true) × (is_reflect s.pending_gate.gate ≡ false))
  unfolding on_timeout on_revision clear_pending trace trace_same refresh_pending_gate_crypto
  Outcome-scaffold (idle i) e = inl e
  Outcome-scaffold (late a l) e = cc
  Outcome-scaffold (revised a n v) e = inl e
  Outcome-scaffold {s} {text} (decided a n p) e =
      (decision_flags s (kind_of s.pending_gate.gate) (decision h s text)).1 e

  reflect_gate : (g : PendingGate) → is_reflect g ≡ true → g ≡ reflect_confirm
  unfolding is_reflect
  reflect_gate g e = ground arith

  scaffold_gate :
      (g : PendingGateState)
      → is_active g ≡ true
      → is_reflect g.gate ≡ false
      → g.gate ≡ scaffold_approve
  unfolding is_reflect is_active
  scaffold_gate g a e = ground arith

  -- `reflect_confirmed` is set only by a consent to the gate REFLECT_CONFIRM: a session whose flag
  -- is false gets it true from `handle_pending_gate` only under all conditions of `Consents`.
  pub reflect_confirmed-Consents :
      (s : Session h) (text : Text)
      → s.reflect_confirmed ≡ false
      → (handle_pending_gate h s text).session.reflect_confirmed ≡ true
      → Consents h s text × (s.pending_gate.gate ≡ reflect_confirm)
  reflect_confirmed-Consents s text n y = elim (Outcome-reflect (handle-Outcome h s text) y) [
    | inl old ↦ cc
    | inr new ↦ (cleared-Consents s text new.0, reflect_gate s.pending_gate.gate new.1)
  ]

  -- `scaffold_approved` is set only by a consent to the gate SCAFFOLD_APPROVE: a session whose flag
  -- is false gets it true from `handle_pending_gate` only under all conditions of `Consents`.
  pub scaffold_approved-Consents :
      (s : Session h) (text : Text)
      → s.scaffold_approved ≡ false
      → (handle_pending_gate h s text).session.scaffold_approved ≡ true
      → Consents h s text × (s.pending_gate.gate ≡ scaffold_approve)
  scaffold_approved-Consents s text n y = elim (Outcome-scaffold (handle-Outcome h s text) y) [
    | inl old ↦ cc
    | inr new ↦
        let consent : Consents h s text = cleared-Consents s text new.0 in
        (consent, scaffold_gate s.pending_gate consent.active new.1)
  ]
