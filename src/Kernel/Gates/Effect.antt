-- ===== src/Kernel/Gates/Effect.antt =====
-- The gate as an abstract machine over the pending gate and the two consent flags, and
-- `handle_pending_gate` as an implementation of it.
use beaconwise_tek.Base.{◌≡◌, refl, Bool, true, false, not, arith, Text}
use beaconwise_tek.Kernel.Host.{Host}
use beaconwise_tek.Kernel.Session.{PendingGate, no_gate, is_active}
use beaconwise_tek.Kernel.Gates.{
  Kind, BindingStatus, rejected, GateMeta, no_meta, timeout, was_rejected, cleared_reflect,
  cleared_scaffold,
}
use beaconwise_tek.Kernel.Gates.Pending.{
  Session, consume_nonce, clear_pending, trace, refresh_pending_gate_crypto,
}
use beaconwise_tek.Kernel.Gates.Handle.{
  GateReply, kind_of, trace_same, on_timeout, on_revision, on_replay, on_accept, on_reject,
  on_mismatch, on_missing_token, on_unclear, on_decision, handle_pending_gate,
}
use beaconwise_tek.Kernel.Gates.Outcome.{
  decision, Outcome, idle, late, revised, decided, handle-Outcome,
}

-- What the router sees of the gates.
pub record Consent : Type 0 where
  pub gate : PendingGate
  pub reflect_confirmed : Bool
  pub scaffold_approved : Bool

abbrev pub consent : (h : Host) → Session h → Consent
consent h s = record {
  gate = s.pending_gate.gate;
  reflect_confirmed = s.reflect_confirmed;
  scaffold_approved = s.scaffold_approved;
}

-- A timeout and a rejection revoke everything, an acceptance clears the gate and sets its flag, and
-- all other replies leave the three as they are.
abbrev pub effect : GateMeta → Consent → Consent
effect timeout c = record { gate = no_gate; reflect_confirmed = false; scaffold_approved = false }
effect was_rejected c = record {
  gate = no_gate;
  reflect_confirmed = false;
  scaffold_approved = false;
}
effect (cleared_reflect _) c = record c { gate = no_gate; reflect_confirmed = true }
effect (cleared_scaffold _) c = record c { gate = no_gate; scaffold_approved = true }
effect _ c = c

-- The turn goes on exactly when nothing was pending or a gate was cleared.
abbrev pub goes_on : GateMeta → Bool
goes_on no_meta = true
goes_on (cleared_reflect _) = true
goes_on (cleared_scaffold _) = true
goes_on _ = false

abbrev pub Implements : (h : Host) → Session h → GateReply h → Type 0
Implements h s r =
    (consent h r.session ≡ effect r.meta (consent h s)) × (r.handled ≡ not (goes_on r.meta))

module _ (h : Host) where
  decision-Implements :
      (s : Session h) (k : Kind) (d : Bool × BindingStatus × Text)
      → Implements h s (on_decision h s k d)
  unfolding on_decision on_replay on_accept on_reject on_mismatch on_missing_token on_unclear
      consume_nonce clear_pending trace trace_same
  decision-Implements s k (true, status, provided) = ground arith
  decision-Implements s k (false, rejected, provided) = (refl, refl)
  decision-Implements s k (false, _, provided) = (refl, refl)

  Outcome-Implements :
      {s : Session h} {text : Text} {r : GateReply h} → Outcome h s text r → Implements h s r
  unfolding on_timeout on_revision clear_pending trace trace_same refresh_pending_gate_crypto
  Outcome-Implements (idle i) = (refl, refl)
  Outcome-Implements (late a l) = (refl, refl)
  Outcome-Implements (revised a m v) = (refl, refl)
  Outcome-Implements {s} {text} (decided a m p) =
      decision-Implements s (kind_of s.pending_gate.gate) (decision h s text)

  -- In every session and for every text, the pending gate and the two flags after
  -- `handle_pending_gate` are what the abstract machine makes of them under the reported outcome, and
  -- the reply is final exactly when that outcome does not let the turn go on.
  pub handle-Implements :
      (s : Session h) (text : Text) → Implements h s (handle_pending_gate h s text)
  handle-Implements s text = Outcome-Implements (handle-Outcome h s text)

  decision-no_gate :
      (s : Session h) (k : Kind) (d : Bool × BindingStatus × Text)
      → (on_decision h s k d).handled ≡ false
      → (on_decision h s k d).session.pending_gate.gate ≡ no_gate
  unfolding on_decision on_replay on_accept on_reject on_mismatch on_missing_token on_unclear
      consume_nonce clear_pending trace trace_same
  decision-no_gate s k (true, status, provided) e = ground arith
  decision-no_gate s k (false, rejected, provided) e = cc
  decision-no_gate s k (false, _, provided) e = cc

  Outcome-no_gate :
      {s : Session h} {text : Text} {r : GateReply h}
      → Outcome h s text r
      → r.handled ≡ false
      → r.session.pending_gate.gate ≡ no_gate
  unfolding on_timeout on_revision is_active
  Outcome-no_gate (idle i) e = ground arith
  Outcome-no_gate (late a l) e = cc
  Outcome-no_gate (revised a m v) e = cc
  Outcome-no_gate {s} {text} (decided a m p) e =
      decision-no_gate s (kind_of s.pending_gate.gate) (decision h s text) e

  -- The kernel goes on to routing and generation only with no gate pending.
  pub unhandled-no_gate :
      (s : Session h) (text : Text)
      → (handle_pending_gate h s text).handled ≡ false
      → (handle_pending_gate h s text).session.pending_gate.gate ≡ no_gate
  unhandled-no_gate s text e = Outcome-no_gate (handle-Outcome h s text) e
