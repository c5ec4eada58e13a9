-- ===== src/Kernel/Gates/Nonces.antt =====
-- A consumed nonce stays consumed, and its gate is not accepted again.
use beaconwise_tek.Base.{
  ◌≡◌, inl, inr, Bool, true, false, List, arith, Bool-cases, Text, text_eq_refl, truthy,
}
use beaconwise_tek.Kernel.Host.{Host}
use beaconwise_tek.Kernel.Gates.{Kind, BindingStatus, rejected, contains_text}
use beaconwise_tek.Kernel.Gates.Pending.{
  Session, nonce_already_used, consume_nonce, clear_pending, trace, refresh_pending_gate_crypto,
}
use beaconwise_tek.Kernel.Gates.Handle.{
  GateReply, kind_of, trace_same, on_timeout, on_revision, on_replay, on_accept, on_reject,
  on_mismatch, on_missing_token, on_unclear, on_decision, handle_pending_gate,
}
use beaconwise_tek.Kernel.Gates.Outcome.{
  decision, Outcome, idle, late, revised, decided, handle-Outcome,
}
use beaconwise_tek.Kernel.Gates.Consent.{is_cleared, cleared-Consents}

-- Every nonce of the one list is in the other.
abbrev pub Consumes : List Text → List Text → Type 0
Consumes xs ys = (n : Text) → contains_text n xs ≡ true → contains_text n ys ≡ true

module _ (h : Host) where
  decision_consumes :
      (s : Session h) (k : Kind) (d : Bool × BindingStatus × Text) (n : Text)
      → contains_text n s.pending_gate.consumed_nonces ≡ true
      → contains_text n (on_decision h s k d).session.pending_gate.consumed_nonces ≡ true
  unfolding on_decision on_replay on_accept on_reject on_mismatch on_missing_token on_unclear
      consume_nonce clear_pending trace trace_same contains_text
  decision_consumes s k (true, status, provided) n e = ground arith
  decision_consumes s k (false, rejected, provided) n e = e
  decision_consumes s k (false, _, provided) n e = e

  Outcome-Consumes :
      {s : Session h} {text : Text} {r : GateReply h}
      → Outcome h s text r
      → Consumes s.pending_gate.consumed_nonces r.session.pending_gate.consumed_nonces
  unfolding on_timeout on_revision clear_pending trace trace_same refresh_pending_gate_crypto
  Outcome-Consumes (idle i) n e = e
  Outcome-Consumes (late a l) n e = e
  Outcome-Consumes (revised a m v) n e = e
  Outcome-Consumes {s} {text} (decided a m p) n e =
      decision_consumes s (kind_of s.pending_gate.gate) (decision h s text) n e

  -- No branch of `handle_pending_gate` forgets a consumed nonce.
  pub handle-Consumes :
      (s : Session h) (text : Text)
      → Consumes s.pending_gate.consumed_nonces
          (handle_pending_gate h s text).session.pending_gate.consumed_nonces
  handle-Consumes s text n e = Outcome-Consumes (handle-Outcome h s text) n e

  decision_stores :
      (s : Session h) (k : Kind) (d : Bool × BindingStatus × Text)
      → truthy s.pending_gate.nonce ≡ true
      → is_cleared (on_decision h s k d).meta ≡ true
      → contains_text s.pending_gate.nonce
          (on_decision h s k d).session.pending_gate.consumed_nonces
        ≡ true
  unfolding on_decision on_replay on_accept on_reject on_mismatch on_missing_token on_unclear
      consume_nonce clear_pending trace trace_same contains_text
  decision_stores s k (true, status, provided) t e =
      ground (arith, text_eq_refl s.pending_gate.nonce)
  decision_stores s k (false, rejected, provided) t e = cc
  decision_stores s k (false, _, provided) t e = cc

  Outcome-stores :
      {s : Session h} {text : Text} {r : GateReply h}
      → Outcome h s text r
      → truthy s.pending_gate.nonce ≡ true
      → is_cleared r.meta ≡ true
      → contains_text s.pending_gate.nonce r.session.pending_gate.consumed_nonces ≡ true
  unfolding on_timeout on_revision
  Outcome-stores (idle i) t e = cc
  Outcome-stores (late a l) t e = cc
  Outcome-stores (revised a m v) t e = cc
  Outcome-stores {s} {text} (decided a m p) t e =
      decision_stores s (kind_of s.pending_gate.gate) (decision h s text) t e

  -- An acceptance is used once: after a gate with a nonce was accepted, no session that
  -- has consumed what that session has consumed, and whose gate has the same nonce, accepts any text.
  pub accepted_once :
      (s t : Session h) (text later : Text)
      → truthy s.pending_gate.nonce ≡ true
      → is_cleared (handle_pending_gate h s text).meta ≡ true
      → t.pending_gate.nonce ≡ s.pending_gate.nonce
      → Consumes
          (handle_pending_gate h s text).session.pending_gate.consumed_nonces
          t.pending_gate.consumed_nonces
      → is_cleared (handle_pending_gate h t later).meta ≡ false
  unfolding nonce_already_used
  accepted_once s t text later set e same more =
      elim (Bool-cases (is_cleared (handle_pending_gate h t later).meta)) [
        | inr refused ↦ refused
        | inl again ↦
            let used = more s.pending_gate.nonce (Outcome-stores (handle-Outcome h s text) set e) in
            let fresh = (cleared-Consents h t later again).fresh in
            let known : contains_text t.pending_gate.nonce t.pending_gate.consumed_nonces ≡ true =
              rw same used in
            let filled : truthy t.pending_gate.nonce ≡ true = rw same set in ground arith
      ]
