-- ===== src/Kernel/Gates/Pending.antt =====
-- src/ecosphere/kernel/gates.py: the functions that change the session.
use beaconwise_tek.Base.{
  ℕ, Bool, false, ◌&&◌, [], ◌∷◌, ◌++◌, if◌then◌else◌, Text, codes, truthy, take,
}
use beaconwise_tek.Json.{Fields, num, str, obj, end, field}
use beaconwise_tek.Stable.{stable_hash, hash_suffix}
use beaconwise_tek.Kernel.Host.{Host}
use beaconwise_tek.Kernel.Session.{
  Profile, a_fast, a_standard, a_high_assurance, PendingGate, no_gate, gate_text, PendingGateState,
  SessionState,
}
use beaconwise_tek.Kernel.Revisions.{render_revision_block}
use beaconwise_tek.Kernel.Gates.{
  timeout_for_profile, require_binding_for_profile, ClearReason, reset, confirmed, contains_text,
}

abbrev pub Session : Host → Type 0
Session h = SessionState h.floats

module _ (h : Host) where
  unfoldable pub token_length_for_profile : Profile → ℕ
  token_length_for_profile a_fast = h.settings.tokenlen_fast
  token_length_for_profile a_high_assurance = h.settings.tokenlen_high
  token_length_for_profile a_standard = h.settings.tokenlen_standard

  unfoldable pub make_gate_nonce : Text → ℕ → PendingGate → Text → Text → Text
  make_gate_nonce session_id interaction gate payload_hash session_scope = take 10 (
      stable_hash h.crypto (
        obj (
          field (codes "session_id") (str session_id) (
            field (codes "interaction") (num interaction) (
              field (codes "gate") (str (gate_text gate)) (
                field (codes "payload_hash") (str payload_hash)
                  (field (codes "session_scope") (str session_scope) end)))))))

  unfoldable pub derive_scoped : Text → Text → Text → Text
  derive_scoped session_id session_secret purpose = take 16 (
      stable_hash h.crypto (
        obj (
          field (codes "session_id") (str session_id) (
            field (codes "session_secret") (str session_secret)
              (field (codes "purpose") (str purpose) end)))))

  unfoldable pub session_scope : Session h → Text
  session_scope s =
      if truthy s.session_secret
      then derive_scoped s.session_id s.session_secret (codes "gate_scope")
      else codes "noscope"

  unfoldable pub nonce_already_used : Session h → Bool
  nonce_already_used s =
      truthy s.pending_gate.nonce
      && contains_text s.pending_gate.nonce s.pending_gate.consumed_nonces

  unfoldable pub consume_nonce : Session h → Session h
  consume_nonce s =
      if truthy s.pending_gate.nonce
      then record s {
        pending_gate = record (s.pending_gate) {
          consumed_nonces = s.pending_gate.nonce ∷ s.pending_gate.consumed_nonces;
        };
      }
      else s

  unfoldable pub cleared_gate : PendingGateState → PendingGateState
  cleared_gate g = record g {
    gate = no_gate;
    payload = end;
    payload_hash = [];
    confirm_token = [];
    require_token_binding = false;
    nonce = [];
    prompt_cache_hash = [];
  }

  unfoldable pub clear_pending : ClearReason → Session h → Session h
  unfolding cleared_gate
  clear_pending reset s = record s {
    pending_gate = cleared_gate s.pending_gate;
    reflect_confirmed = false;
    scaffold_approved = false;
  }
  clear_pending confirmed s = record s { pending_gate = cleared_gate s.pending_gate }

  unfoldable pub trace : Text → Text → Text → Fields → Session h → Session h
  trace before after event meta s = record s {
    traces =
        s.traces
        ++ record {
          state_before = before;
          state_after = after;
          event = event;
          gate = s.pending_gate.gate;
          interaction = s.interaction_count;
          meta = meta;
        }
          ∷ [];
  }

  unfoldable pub prompt_cache_hash : PendingGate → Text → Text → Text
  prompt_cache_hash gate ph token = stable_hash h.crypto (
      obj (
        field (codes "gate") (str (gate_text gate))
          (field (codes "payload_hash") (str ph) (field (codes "token") (str token) end))))

  unfoldable pub set_pending_gate : PendingGate → Fields → Session h → Session h
  set_pending_gate gate payload s =
      let ph : Text = stable_hash h.crypto (obj payload) in
      let token : Text = hash_suffix ph (token_length_for_profile s.current_profile) in
      record s {
        pending_gate = record {
          gate = gate;
          created_at_interaction = s.interaction_count;
          expires_after_turns = timeout_for_profile s.current_profile;
          payload = payload;
          payload_hash = ph;
          confirm_token = token;
          require_token_binding = require_binding_for_profile s.current_profile;
          nonce = make_gate_nonce s.session_id s.interaction_count gate ph (session_scope s);
          consumed_nonces = s.pending_gate.consumed_nonces;
          prompt_cache_hash = prompt_cache_hash gate ph token;
        };
      }

  unfoldable pub refresh_pending_gate_crypto : Session h → Session h
  refresh_pending_gate_crypto s =
      let gate : PendingGate = s.pending_gate.gate in
      let ph : Text = stable_hash h.crypto (obj s.pending_gate.payload) in
      let token : Text = hash_suffix ph (token_length_for_profile s.current_profile) in
      record s {
        pending_gate = record (s.pending_gate) {
          payload_hash = ph;
          confirm_token = token;
          nonce = make_gate_nonce s.session_id s.interaction_count gate ph (session_scope s);
          created_at_interaction = s.interaction_count;
          prompt_cache_hash = prompt_cache_hash gate ph token;
        };
      }

  -- A line break and the rest.
  abbrev nl : Text → Text
  nl t = 10 ∷ t

  revision_text : Session h → Text
  revision_text s =
      let rev_block : Text = render_revision_block s.pending_gate.payload in
      if truthy rev_block then nl (nl (rev_block ++ nl [])) else nl []

  unfoldable pub render_reflect_prompt : Session h → Text → Text
  unfolding revision_text
  render_reflect_prompt s summary =
      if s.pending_gate.require_token_binding
      then codes "REFLECT (CONFIRMATION REQUIRED)"
        ++ nl (
            summary
            ++ (revision_text s
                ++ nl (
                    codes "Reply exactly: CONFIRM "
                    ++ (s.pending_gate.confirm_token
                        ++ nl (codes "Or: REVISE <what to change>" ++ nl [])))))
      else codes "REFLECT"
        ++ nl (
            summary
            ++ (revision_text s
                ++ nl (
                    codes "Optional binding: CONFIRM "
                    ++ (s.pending_gate.confirm_token
                        ++ nl (codes "Or reply 'yes' to confirm, 'no' to revise." ++ nl [])))))

  unfoldable pub render_scaffold_prompt : Session h → Text → Text
  unfolding revision_text
  render_scaffold_prompt s plan =
      if s.pending_gate.require_token_binding
      then codes "SCAFFOLD (APPROVAL REQUIRED)"
        ++ nl (
            plan
            ++ (revision_text s
                ++ nl (
                    codes "Reply exactly: APPROVE "
                    ++ (s.pending_gate.confirm_token
                        ++ nl (codes "Or: REVISE <what to change>" ++ nl [])))))
      else codes "SCAFFOLD"
        ++ nl (
            plan
            ++ (revision_text s
                ++ nl (
                    codes "Optional binding: APPROVE "
                    ++ (s.pending_gate.confirm_token
                        ++ nl (codes "Or reply 'approved' to proceed, 'no' to revise." ++ nl [])))))
