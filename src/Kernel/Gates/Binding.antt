-- ===== src/Kernel/Gates/Binding.antt =====
-- The cryptographic fields of a pending gate always belong to the payload that it shows.
use beaconwise_tek.Base.{
  ◌≤◌, ◌≡◌, refl, ◌≢◌, ◌⊎◌, inl, inr, Bool, true, false, [], arith, Bool-cases, Text,
}
use beaconwise_tek.Json.{Fields, obj}
use beaconwise_tek.Stable.{stable_hash, hash_suffix}
use beaconwise_tek.Kernel.Host.{Host}
use beaconwise_tek.Kernel.Session.{Profile, PendingGate, no_gate, PendingGateState, is_active}
use beaconwise_tek.Kernel.Gates.{Kind, BindingStatus, rejected}
use beaconwise_tek.Kernel.Gates.Pending.{
  consume_nonce, Session, token_length_for_profile, make_gate_nonce, session_scope,
  nonce_already_used, consume_nonce, cleared_gate, clear_pending, trace, set_pending_gate,
  refresh_pending_gate_crypto,
}
use beaconwise_tek.Kernel.Gates.Handle.{
  GateReply, kind_of, is_reflect, trace_same, on_timeout, on_revision, on_replay, on_accept,
  on_reject, on_mismatch, on_missing_token, on_unclear, on_decision, handle_pending_gate,
}
use beaconwise_tek.Kernel.Gates.Outcome.{
  decision, Outcome, idle, late, revised, decided, handle-Outcome,
}

-- A gate that does not wait holds nothing that could be accepted.
pub record IsIdle (g : PendingGateState) : Type 0 where
  pub gate : g.gate ≡ no_gate
  pub payload_hash : g.payload_hash ≡ []
  pub confirm_token : g.confirm_token ≡ []
  pub nonce : g.nonce ≡ []
  pub require_token_binding : g.require_token_binding ≡ false

-- A gate that waits holds the hash of its own payload, a token cut from that hash for some profile,
-- and the nonce of the interaction in which it was made.
pub record IsWaiting (h : Host) (s : Session h) : Type 0 where
  pub active : is_active s.pending_gate ≡ true
  pub payload_hash : s.pending_gate.payload_hash ≡ stable_hash h.crypto (obj s.pending_gate.payload)
  pub profile : Profile
  pub confirm_token :
      s.pending_gate.confirm_token
      ≡ hash_suffix s.pending_gate.payload_hash (token_length_for_profile h profile)
  pub nonce :
      s.pending_gate.nonce
      ≡ make_gate_nonce h s.session_id s.pending_gate.created_at_interaction s.pending_gate.gate
          s.pending_gate.payload_hash
          (session_scope h s)

abbrev pub IsBound : (h : Host) → Session h → Type 0
IsBound h s =
    (s.pending_gate.created_at_interaction ≤ s.interaction_count)
    × (IsIdle s.pending_gate ⊎ IsWaiting h s)

module _ (h : Host) where
  -- A gate that is set is bound, whatever stood there before.
  pub set_pending_gate-IsBound :
      (g : PendingGate) (payload : Fields) (s : Session h)
      → g ≢ no_gate
      → IsBound h (set_pending_gate h g payload s)
  unfolding set_pending_gate session_scope is_active
  set_pending_gate-IsBound g payload s n = (
    omega arith,
    inr (record {
      active = ground arith;
      payload_hash = refl;
      profile = s.current_profile;
      confirm_token = refl;
      nonce = refl;
    }),
  )

  cleared-IsIdle : (g : PendingGateState) → IsIdle (cleared_gate h g)
  unfolding cleared_gate
  cleared-IsIdle g = record {
    gate = refl;
    payload_hash = refl;
    confirm_token = refl;
    nonce = refl;
    require_token_binding = refl;
  }

  consume-past :
      (s : Session h)
      → s.pending_gate.created_at_interaction ≤ s.interaction_count
      → (consume_nonce h s).pending_gate.created_at_interaction
        ≤ (consume_nonce h s).interaction_count
  unfolding consume_nonce
  consume-past s p = ground arith

  accept-IsBound :
      (s : Session h) (status : BindingStatus) (provided : Text)
      → IsBound h s
      → IsBound h (on_accept h s status provided).session
  unfolding on_accept clear_pending trace
  accept-IsBound s status provided b =
      let gate : PendingGateState = (consume_nonce h s).pending_gate in
      elim (Bool-cases (is_reflect s.pending_gate.gate)) [
        | inl r ↦ rw r (consume-past s b.0, inl (cleared-IsIdle gate))
        | inr r ↦ rw r (consume-past s b.0, inl (cleared-IsIdle gate))
      ]

  same-IsBound :
      (s : Session h) (event : Text) (meta : Fields)
      → IsBound h s
      → IsBound h (trace_same h event meta s)
  unfolding trace_same session_scope
  same-IsBound s event meta (p, inl i) = (p, inl i)
  same-IsBound s event meta (p, inr w) = (
    p,
    inr (record {
      active = w.active;
      payload_hash = w.payload_hash;
      profile = w.profile;
      confirm_token = w.confirm_token;
      nonce = w.nonce;
    }),
  )

  decision-IsBound :
      (s : Session h) (k : Kind) (d : Bool × BindingStatus × Text)
      → IsBound h s
      → IsBound h (on_decision h s k d).session
  unfolding on_decision on_replay on_reject on_mismatch on_missing_token on_unclear clear_pending
      trace
  decision-IsBound s k (true, status, provided) b = elim (Bool-cases (nonce_already_used h s)) [
    | inl u ↦ rw u (same-IsBound s _ _ b)
    | inr u ↦ rw u (accept-IsBound s status provided b)
  ]
  decision-IsBound s k (false, rejected, provided) b = (b.0, inl (cleared-IsIdle s.pending_gate))
  decision-IsBound s k (false, _, provided) b = same-IsBound s _ _ b

  Outcome-IsBound :
      {s : Session h} {text : Text} {r : GateReply h}
      → Outcome h s text r
      → IsBound h s
      → IsBound h r.session
  unfolding on_timeout on_revision clear_pending trace trace_same refresh_pending_gate_crypto
      session_scope is_active
  Outcome-IsBound (idle i) b = b
  Outcome-IsBound {s} (late a l) b = (b.0, inl (cleared-IsIdle s.pending_gate))
  Outcome-IsBound {s} (revised a m v) b = (
    omega arith,
    inr (record {
      active = a;
      payload_hash = refl;
      profile = s.current_profile;
      confirm_token = refl;
      nonce = refl;
    }),
  )
  Outcome-IsBound {s} {text} (decided a m p) b =
      decision-IsBound s (kind_of s.pending_gate.gate) (decision h s text) b

  -- `handle_pending_gate` keeps the gate bound on every branch, also when it revises the payload.
  pub handle-IsBound :
      (s : Session h) (text : Text) → IsBound h s → IsBound h (handle_pending_gate h s text).session
  handle-IsBound s text b = Outcome-IsBound (handle-Outcome h s text) b
