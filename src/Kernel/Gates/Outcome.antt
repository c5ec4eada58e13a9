-- ===== src/Kernel/Gates/Outcome.antt =====
-- The branches that `handle_pending_gate` can take, as a relation between a session, a text and
-- the reply; each branch with the tests that lead to it.
use beaconwise_tek.Base.{◌≡◌, inl, inr, Bool, true, false, [], Bool-cases, Text}
use beaconwise_tek.Kernel.Host.{Host}
use beaconwise_tek.Kernel.Session.{is_active, is_expired}
use beaconwise_tek.Kernel.Gates.{BindingStatus, binding_decision, has_revision_intent, no_meta}
use beaconwise_tek.Kernel.Gates.Pending.{Session}
use beaconwise_tek.Kernel.Gates.Handle.{
  GateReply, kind_of, on_timeout, on_revision, on_decision, handle_pending_gate,
}

abbrev pub idle_reply : (h : Host) → Session h → GateReply h
idle_reply h s = record { session = s; handled = false; text = []; meta = no_meta }

-- What `_binding_decision` says of a text at the pending gate.
abbrev pub decision : (h : Host) → Session h → Text → Bool × BindingStatus × Text
decision h s text =
    binding_decision text s.pending_gate.confirm_token s.pending_gate.require_token_binding
      (kind_of s.pending_gate.gate)

pub data Outcome (h : Host) (s : Session h) (text : Text) : GateReply h → Type 0 where
  idle : is_active s.pending_gate ≡ false → Outcome h s text (idle_reply h s)
  late :
      is_active s.pending_gate ≡ true
      → is_expired s.pending_gate s.interaction_count ≡ true
      → Outcome h s text (on_timeout h s)
  revised :
      is_active s.pending_gate ≡ true
      → is_expired s.pending_gate s.interaction_count ≡ false
      → has_revision_intent text ≡ true
      → Outcome h s text (on_revision h s text)
  decided :
      is_active s.pending_gate ≡ true
      → is_expired s.pending_gate s.interaction_count ≡ false
      → has_revision_intent text ≡ false
      → Outcome h s text (on_decision h s (kind_of s.pending_gate.gate) (decision h s text))

pub handle-Outcome :
    (h : Host) (s : Session h) (text : Text) → Outcome h s text (handle_pending_gate h s text)
unfolding handle_pending_gate
handle-Outcome h s text = elim (Bool-cases (is_active s.pending_gate)) [
  | inr i ↦ rw i (idle i)
  | inl a ↦ elim (Bool-cases (is_expired s.pending_gate s.interaction_count)) [
    | inl l ↦ rw (a, l) (late a l)
    | inr n ↦ elim (Bool-cases (has_revision_intent text)) [
      | inl v ↦ rw (a, n, v) (revised a n v)
      | inr p ↦ rw (a, n, p) (decided a n p)
    ]
  ]
]
