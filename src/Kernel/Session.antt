-- ===== src/Kernel/Session.antt =====
-- src/ecosphere/kernel/session.py: the state of a session.
use beaconwise_tek.Base.{ℕ, ◌+◌, Bool, true, false, List, [], leb, if◌then◌else◌, Text, codes}
use beaconwise_tek.Float.{Floats}
use beaconwise_tek.Json.{Json, Fields}
use beaconwise_tek.Tsv.{TsvState}

pub data Profile : Type 0 where
  a_fast a_standard a_high_assurance : Profile

unfoldable pub profile_text : Profile → Text
profile_text a_fast = codes "A_FAST"
profile_text a_standard = codes "A_STANDARD"
profile_text a_high_assurance = codes "A_HIGH_ASSURANCE"

-- The values of `PendingGate`; `no_gate` is `NONE`.
pub data PendingGate : Type 0 where
  no_gate reflect_confirm scaffold_approve : PendingGate

unfoldable pub gate_text : PendingGate → Text
gate_text no_gate = codes "NONE"
gate_text reflect_confirm = codes "REFLECT_CONFIRM"
gate_text scaffold_approve = codes "SCAFFOLD_APPROVE"

-- The steps that the router and the workflow queue name.
pub data Aru : Type 0 where
  bound reflect scaffold deferred tdm : Aru

pub record StateTrace : Type 0 where
  pub state_before : Text
  pub state_after : Text
  pub event : Text
  pub gate : PendingGate
  pub interaction : ℕ
  pub meta : Fields

pub record PendingGateState : Type 0 where
  pub gate : PendingGate
  pub created_at_interaction : ℕ
  pub expires_after_turns : ℕ
  pub payload : Fields
  pub payload_hash : Text
  pub confirm_token : Text
  pub require_token_binding : Bool
  pub nonce : Text
  -- a set, as the list of what was added
  pub consumed_nonces : List Text
  pub prompt_cache_hash : Text

abbrev pub empty_gate : PendingGateState
empty_gate = record {
  gate = no_gate;
  created_at_interaction = 0;
  expires_after_turns = 3;
  payload = Fields.end;
  payload_hash = [];
  confirm_token = [];
  require_token_binding = false;
  nonce = [];
  consumed_nonces = [];
  prompt_cache_hash = [];
}

unfoldable pub is_active : PendingGateState → Bool
is_active g = elim g.gate [ no_gate ↦ false | _ ↦ true ]

-- `interaction_count - created_at_interaction >= expires_after_turns`, over Python's integers
unfoldable pub is_expired : PendingGateState → ℕ → Bool
unfolding is_active
is_expired g n =
    if is_active g then leb (g.expires_after_turns + g.created_at_interaction) n else false

-- A record that `_seal` appends to the session.
pub record Epack (fl : Floats) : Type 0 where
  pub seq : ℕ
  pub ts : fl.F
  pub prev_hash : Text
  pub payload_hash : Text
  pub signature : Text
  pub hash : Text
  pub payload : Json

pub record SessionState (fl : Floats) : Type 0 where
  pub session_id : Text
  -- the attribute `_session_secret`, empty when it is not set
  pub session_secret : Text
  pub interaction_count : ℕ
  pub current_profile : Profile
  pub pending_gate : PendingGateState
  pub traces : List StateTrace
  pub reflect_confirmed : Bool
  pub scaffold_approved : Bool
  pub workflow_queue : List Aru
  pub tsv : TsvState fl
  pub epack_seq : ℕ
  pub epack_prev_hash : Text
  pub epacks : List (Epack fl)
  pub last_persisted_seq : ℕ
  pub last_failure_interaction : ℕ
