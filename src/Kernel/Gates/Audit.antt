-- ===== src/Kernel/Gates/Audit.antt =====
-- What `handle_pending_gate` leaves alone, what it traces, and where it leaves the gate.
use beaconwise_tek.Base.{
  ◌≡◌, refl, inl, inr, Bool, true, false, [], ◌∷◌, ◌++◌, arith, Bool-cases, Text, truthy,
}
use beaconwise_tek.Kernel.Host.{Host}
use beaconwise_tek.Kernel.Session.{gate_text, StateTrace, is_active}
use beaconwise_tek.Kernel.Gates.{Kind, BindingStatus, rejected}
use beaconwise_tek.Kernel.Gates.Pending.{
  Session, nonce_already_used, consume_nonce, clear_pending, trace, refresh_pending_gate_crypto,
}
use beaconwise_tek.Kernel.Gates.Handle.{
  GateReply, kind_of, is_reflect, trace_same, on_timeout, on_revision, on_replay, on_accept,
  on_reject, on_mismatch, on_missing_token, on_unclear, on_decision, handle_pending_gate,
}
use beaconwise_tek.Kernel.Gates.Outcome.{
  decision, Outcome, idle, late, revised, decided, handle-Outcome,
}

-- All that a turn's gate step must not touch.
pub record SameRest (h : Host) (s t : Session h) : Type 0 where
  pub session_id : t.session_id ≡ s.session_id
  pub session_secret : t.session_secret ≡ s.session_secret
  pub interaction_count : t.interaction_count ≡ s.interaction_count
  pub current_profile : t.current_profile ≡ s.current_profile
  pub workflow_queue : t.workflow_queue ≡ s.workflow_queue
  pub tsv : t.tsv ≡ s.tsv
  pub epack_seq : t.epack_seq ≡ s.epack_seq
  pub epack_prev_hash : t.epack_prev_hash ≡ s.epack_prev_hash
  pub epacks : t.epacks ≡ s.epacks
  pub last_persisted_seq : t.last_persisted_seq ≡ s.last_persisted_seq
  pub last_failure_interaction : t.last_failure_interaction ≡ s.last_failure_interaction

-- One entry more, made in this interaction.
abbrev pub TracedOnce : (h : Host) → Session h → Session h → Type 0
TracedOnce h s t =
    (entry : StateTrace) × (t.traces ≡ s.traces ++ entry ∷ [])
    × (entry.interaction ≡ s.interaction_count)
    × (entry.state_before ≡ gate_text s.pending_gate.gate)

module _ (h : Host) where
  decision-SameRest :
      (s : Session h) (k : Kind) (d : Bool × BindingStatus × Text)
      → SameRest h s (on_decision h s k d).session
  unfolding on_decision on_replay on_accept on_reject on_mismatch on_missing_token on_unclear
      consume_nonce clear_pending trace trace_same
  decision-SameRest s k (true, status, provided) = ground arith
  decision-SameRest s k (false, rejected, provided) = ground arith
  decision-SameRest s k (false, _, provided) = ground arith

  Outcome-SameRest :
      {s : Session h} {text : Text} {r : GateReply h} → Outcome h s text r → SameRest h s r.session
  unfolding on_timeout on_revision clear_pending trace trace_same refresh_pending_gate_crypto
  Outcome-SameRest (idle i) = ground arith
  Outcome-SameRest (late a l) = ground arith
  Outcome-SameRest (revised a m v) = ground arith
  Outcome-SameRest {s} {text} (decided a m p) =
      decision-SameRest s (kind_of s.pending_gate.gate) (decision h s text)

  -- No branch of `handle_pending_gate` touches the identity of the session, its counters, profile
  -- and queue, its beliefs or its audit chain.
  pub handle-SameRest :
      (s : Session h) (text : Text) → SameRest h s (handle_pending_gate h s text).session
  handle-SameRest s text = Outcome-SameRest (handle-Outcome h s text)

  accept-TracedOnce :
      (s : Session h) (status : BindingStatus) (provided : Text)
      → TracedOnce h s (on_accept h s status provided).session
  unfolding on_accept consume_nonce clear_pending trace
  accept-TracedOnce s status provided = elim (Bool-cases (truthy s.pending_gate.nonce)) [
    | inl f ↦ elim (Bool-cases (is_reflect s.pending_gate.gate)) [
      | inl r ↦ rw (f, r) (_, refl, refl, refl)
      | inr r ↦ rw (f, r) (_, refl, refl, refl)
    ]
    | inr f ↦ elim (Bool-cases (is_reflect s.pending_gate.gate)) [
      | inl r ↦ rw (f, r) (_, refl, refl, refl)
      | inr r ↦ rw (f, r) (_, refl, refl, refl)
    ]
  ]

  decision-TracedOnce :
      (s : Session h) (k : Kind) (d : Bool × BindingStatus × Text)
      → TracedOnce h s (on_decision h s k d).session
  unfolding on_decision on_replay on_reject on_mismatch on_missing_token on_unclear clear_pending
      trace trace_same
  decision-TracedOnce s k (true, status, provided) = elim (Bool-cases (nonce_already_used h s)) [
    | inl u ↦ rw u (_, refl, refl, refl)
    | inr u ↦ rw u (accept-TracedOnce s status provided)
  ]
  decision-TracedOnce s k (false, rejected, provided) = (_, refl, refl, refl)
  decision-TracedOnce s k (false, _, provided) = (_, refl, refl, refl)

  Outcome-TracedOnce :
      {s : Session h} {text : Text} {r : GateReply h}
      → Outcome h s text r
      → is_active s.pending_gate ≡ true
      → TracedOnce h s r.session
  unfolding on_timeout on_revision clear_pending trace trace_same refresh_pending_gate_crypto
  Outcome-TracedOnce (idle i) e = absurd (cc)
  Outcome-TracedOnce (late a l) e = (_, refl, refl, refl)
  Outcome-TracedOnce (revised a m v) e = (_, refl, refl, refl)
  Outcome-TracedOnce {s} {text} (decided a m p) e =
      decision-TracedOnce s (kind_of s.pending_gate.gate) (decision h s text)

  -- Whatever the user answers to a pending gate, exactly one entry is added to the trace, and it
  -- names the interaction and the gate that was pending.
  pub handle-TracedOnce :
      (s : Session h) (text : Text)
      → is_active s.pending_gate ≡ true
      → TracedOnce h s (handle_pending_gate h s text).session
  handle-TracedOnce s text e = Outcome-TracedOnce (handle-Outcome h s text) e
