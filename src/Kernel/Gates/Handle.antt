-- ===== src/Kernel/Gates/Handle.antt =====
-- src/ecosphere/kernel/gates.py: `handle_pending_gate`, a function for each of its branches.
use beaconwise_tek.Base.{Bool, true, false, not, [], ◌++◌, if◌then◌else◌, Text, codes, take}
use beaconwise_tek.Json.{Fields, num, str, end, field}
use beaconwise_tek.Stable.{stable_hash}
use beaconwise_tek.Kernel.Host.{Host}
use beaconwise_tek.Kernel.Session.{
  PendingGate, no_gate, reflect_confirm, scaffold_approve, gate_text, is_active, is_expired,
}
use beaconwise_tek.Kernel.Revisions.{append_revision, step_json}
use beaconwise_tek.Kernel.Gates.{
  Kind, confirm, approve, kind_text, BindingStatus, rejected, bound_ok, token_mismatch,
  missing_token, unbound_ok, unknown, binding_decision, has_revision_intent, parse_revision, reset,
  confirmed, GateMeta, no_meta, timeout, revision, replay, was_rejected, mismatch, token_missing,
  unclear, cleared_reflect, cleared_scaffold, status_text,
}
use beaconwise_tek.Kernel.Gates.Pending.{
  Session, nonce_already_used, consume_nonce, clear_pending, trace, refresh_pending_gate_crypto,
  render_reflect_prompt, render_scaffold_prompt,
}

-- `before.lower()` in the name of a trace event
unfoldable pub accepted_event : PendingGate → Text
accepted_event no_gate = codes "none_accepted"
accepted_event reflect_confirm = codes "reflect_confirm_accepted"
accepted_event scaffold_approve = codes "scaffold_approve_accepted"

unfoldable pub kind_of : PendingGate → Kind
kind_of reflect_confirm = confirm
kind_of _ = approve

unfoldable pub is_reflect : PendingGate → Bool
is_reflect reflect_confirm = true
is_reflect _ = false

-- The result of `handle_pending_gate`: the session, and the three components of its reply.
pub record GateReply (h : Host) : Type 0 where
  pub session : Session h
  pub handled : Bool
  pub text : Text
  pub meta : GateMeta

module _ (h : Host) where
  -- A trace h that leaves the gate as it is.
  unfoldable pub trace_same : Text → Fields → Session h → Session h
  unfolding trace
  trace_same event meta s =
      trace h (gate_text s.pending_gate.gate) (gate_text s.pending_gate.gate) event meta s

  -- The branch of an expired gate.
  unfoldable pub on_timeout : Session h → GateReply h
  on_timeout s =
      let s' : Session h = clear_pending h reset s in
      record {
        session =
            trace h (gate_text s.pending_gate.gate) (gate_text no_gate) (codes "pending_timeout")
              (field (codes "expires_after_turns") (num s'.pending_gate.expires_after_turns) end)
              s';
        handled = true;
        text = codes "Timeout on pending gate. Let's start over—what is your goal and constraints?";
        meta = timeout;
      }

  -- The branch of a text that asks for a revision.
  unfoldable pub on_revision : Session h → Text → GateReply h
  on_revision s user_text =
      let (step, text) = parse_revision user_text in
      let s' : Session h = refresh_pending_gate_crypto h (record s {
        pending_gate = record (s.pending_gate) {
          payload = append_revision h.crypto s.pending_gate.payload step text;
        };
      }) in
      let meta : Fields = field (codes "old_token") (str s.pending_gate.confirm_token) (
        field (codes "new_token") (str s'.pending_gate.confirm_token) (
          field (codes "old_payload_hash") (str s.pending_gate.payload_hash) (
            field (codes "new_payload_hash") (str s'.pending_gate.payload_hash) (
              field (codes "old_nonce") (str s.pending_gate.nonce) (
                field (codes "new_nonce") (str s'.pending_gate.nonce) (
                  field (codes "revision_step") (step_json step) (
                    field (codes "revision_text_hash16")
                      (str (take 16 (stable_hash h.crypto (str text)))) end))))))) in
      let t : Session h = trace_same (codes "revise_in_place_applied") meta s' in
      record {
        session = t;
        handled = true;
        text =
            if is_reflect t.pending_gate.gate
            then render_reflect_prompt h t
                (codes "Updated pending request with your revision. Confirm updated intent.")
            else render_scaffold_prompt h t
                (codes "Updated pending plan with your revision. Approve updated plan.");
        meta = revision;
      }

  -- `accepted`, with a nonce that was consumed before
  unfoldable pub on_replay : Session h → Text → GateReply h
  on_replay s provided = record {
    session =
        trace_same (codes "replay_detected")
          (field (codes "nonce") (str s.pending_gate.nonce)
            (field (codes "attempted_token") (str provided) end))
          s;
    handled = true;
    text =
        codes
          "That confirmation was already processed (replay detected). If you have a new request, restate it.";
    meta = replay;
  }

  -- `accepted`, with a fresh nonce
  unfoldable pub on_accept : Session h → BindingStatus → Text → GateReply h
  on_accept s status provided =
      let before : PendingGate = s.pending_gate.gate in
      let t : Session h =
        trace h (gate_text before) (gate_text no_gate) (accepted_event before)
          (field (codes "binding_status") (str (status_text status))
            (field (codes "provided_token") (str provided) end))
          (clear_pending h confirmed (consume_nonce h s)) in
      if is_reflect before
      then record {
        session = record t { reflect_confirmed = true };
        handled = false;
        text = [];
        meta = cleared_reflect status;
      }
      else record {
        session = record t { scaffold_approved = true };
        handled = false;
        text = [];
        meta = cleared_scaffold status;
      }

  unfoldable pub on_reject : Session h → Kind → GateReply h
  on_reject s kind = record {
    session =
        trace h (gate_text s.pending_gate.gate) (gate_text no_gate) (codes "gate_rejected")
          (field (codes "kind") (str (kind_text kind)) end) (clear_pending h reset s);
    handled = true;
    text = codes "Okay—tell me what you want instead (goal + constraints + output format).";
    meta = was_rejected;
  }

  unfoldable pub on_mismatch : Session h → Text → GateReply h
  on_mismatch s provided = record {
    session =
        trace_same (codes "token_mismatch")
          (field (codes "provided") (str provided)
            (field (codes "expected") (str s.pending_gate.confirm_token) end))
          s;
    handled = true;
    text =
        (if is_reflect s.pending_gate.gate
          then codes "Token mismatch. Please reply: CONFIRM "
          else codes "Token mismatch. Please reply: APPROVE ")
        ++ s.pending_gate.confirm_token;
    meta = mismatch;
  }

  unfoldable pub on_missing_token : Session h → GateReply h
  on_missing_token s = record {
    session =
        trace_same (codes "missing_token")
          (field (codes "expected") (str s.pending_gate.confirm_token) end) s;
    handled = true;
    text =
        (if is_reflect s.pending_gate.gate
          then codes "I need explicit confirmation. Reply: CONFIRM "
          else codes "I need explicit approval. Reply: APPROVE ")
        ++ s.pending_gate.confirm_token;
    meta = token_missing;
  }

  unfoldable pub on_unclear : Session h → Kind → GateReply h
  on_unclear s kind =
      let t : Session h =
        trace_same (codes "unclear_gate_response") (field (codes "kind") (str (kind_text kind)) end)
          s in
      record {
        session = t;
        handled = true;
        text =
            if is_reflect s.pending_gate.gate
            then render_reflect_prompt h t (codes "Please confirm if this matches your intent.")
            else render_scaffold_prompt h t (codes "Please approve if this plan is correct.");
        meta = unclear;
      }

  -- The branches on the outcome of `_binding_decision`.
  unfoldable pub on_decision : Session h → Kind → Bool × BindingStatus × Text → GateReply h
  on_decision s kind (true, status, provided) =
      if nonce_already_used h s then on_replay s provided else on_accept s status provided
  on_decision s kind (false, rejected, provided) = on_reject s kind
  on_decision s kind (false, token_mismatch, provided) = on_mismatch s provided
  on_decision s kind (false, missing_token, provided) = on_missing_token s
  on_decision s kind (false, bound_ok, provided) = on_unclear s kind
  on_decision s kind (false, unbound_ok, provided) = on_unclear s kind
  on_decision s kind (false, unknown, provided) = on_unclear s kind

  unfoldable pub handle_pending_gate : Session h → Text → GateReply h
  handle_pending_gate s user_text =
      let kind : Kind = kind_of s.pending_gate.gate in
      if not (is_active s.pending_gate)
      then record { session = s; handled = false; text = []; meta = no_meta }
      else if is_expired s.pending_gate s.interaction_count
      then on_timeout s
      else if has_revision_intent user_text
      then on_revision s user_text
      else on_decision s kind (
          binding_decision user_text s.pending_gate.confirm_token
            s.pending_gate.require_token_binding kind)
