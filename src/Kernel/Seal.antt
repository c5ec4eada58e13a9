-- ===== src/Kernel/Seal.antt =====
-- src/ecosphere/kernel/engine.py: `_seal`, which ends every turn. The build manifest and the times
-- are arguments; the JSONL file of src/ecosphere/storage/store.py is the list of its records.
pub mod Chained
use beaconwise_tek.Base.{
  ℕ, zero, suc, ◌+◌, ◌-◌, ◌*◌, ◌≤◌, ◌<◌, String, ◌≡◌, refl, sym, ap, ◌∙◌, subst, ◌≢◌, ◌↔◌, ◌⊎◌, inl,
  inr, Bool, true, false, not, ◌&&◌, ◌||◌, Option, none, some, List, [], ◌∷◌, ◌++◌, map,
  append_assoc, append-nil, arith, ltb, leb, ◌==◌, if◌then◌else◌, ltb→lt, lt→ltb, leb→le, le→leb,
  ==→eq, eq→==, Bool-cases, and_true, Option-cases, Text, codes, text_eq, text_lt, text_eq→eq,
  text_eq_refl, eq→text_eq, truthy, length, take, drop, take_last, any, all, length-append,
}
use beaconwise_tek.Float.{Floats}
use beaconwise_tek.Json.{
  Json, Items, Fields, null, bool, num, real, str, arr, obj, nil, cons, end, field,
}
use beaconwise_tek.Stable.{Crypto, stable_hash}
use beaconwise_tek.Epack.{EpackBlock, sealed_core, new_epack, sign_payload_hash}
use beaconwise_tek.Security.{redact_payload}
use beaconwise_tek.Tsv.{TsvState, high_stakes_ready}
use beaconwise_tek.Tsv.Snapshot.{snapshot}
use beaconwise_tek.Kernel.Host.{Host}
use beaconwise_tek.Kernel.Session.{
  Profile, profile_text, PendingGate, no_gate, reflect_confirm, scaffold_approve, gate_text, Aru,
  bound, reflect, scaffold, deferred, tdm, StateTrace, PendingGateState, Epack, SessionState,
}
use beaconwise_tek.Kernel.Gates.Pending.{Session}

-- The session and the file at EPACK_STORE_PATH.
pub record Machine (h : Host) : Type 0 where
  pub session : Session h
  pub store : List (Epack h.floats)

unfoldable pub trace_json : StateTrace → Json
trace_json t = obj (
    field (codes "state_before") (str t.state_before) (
      field (codes "state_after") (str t.state_after) (
        field (codes "event") (str t.event) (
          field (codes "gate") (str (gate_text t.gate)) (
            field (codes "interaction") (num t.interaction)
              (field (codes "meta") (obj t.meta) end))))))

unfoldable pub trace_items : List StateTrace → Items
trace_items [] = nil
trace_items (t ∷ ts) = cons (trace_json t) (trace_items ts)

unfoldable pub pending_json : PendingGateState → Json
pending_json g = obj (
    field (codes "gate") (str (gate_text g.gate)) (
      field (codes "created_at_interaction") (num g.created_at_interaction) (
        field (codes "expires_after_turns") (num g.expires_after_turns) (
          field (codes "pending_payload_hash") (str g.payload_hash) (
            field (codes "pending_confirm_token") (str g.confirm_token) (
              field (codes "pending_require_token_binding") (bool g.require_token_binding) (
                field (codes "pending_nonce") (str g.nonce)
                  (field (codes "prompt_cache_hash") (str g.prompt_cache_hash) end))))))))

-- What a turn is sealed with: the times of the snapshot and of the block, and the manifest.
pub record SealInput (h : Host) : Type 0 where
  pub now : h.floats.F
  pub ts : h.floats.F
  pub manifest : Json

-- The value that `_seal` returns.
pub record TurnReply (h : Host) : Type 0 where
  pub assistant_text : Text
  pub epack : Epack h.floats

module _ (h : Host) where
  unfoldable pub seal_payload : Session h → SealInput h → Text → Text → Fields → Json
  seal_payload s i user_text assistant_text extra = obj (
      field (codes "interaction") (num s.interaction_count) (
        field (codes "profile") (str (profile_text s.current_profile)) (
          field (codes "user_text_hash") (str (stable_hash h.crypto (str user_text))) (
            field (codes "assistant_text_hash") (str (stable_hash h.crypto (str assistant_text))) (
              field (codes "pending_gate") (pending_json s.pending_gate) (
                field (codes "traces_tail") (arr (trace_items (take_last 20 s.traces))) (
                  field (codes "tsv_snapshot") ((snapshot h.floats i.now s.tsv).1) (
                    field (codes "build_manifest") i.manifest
                      (field (codes "extra") (obj extra) end)))))))))

  -- The record that `_seal` appends.
  unfoldable pub seal_record : Session h → SealInput h → Json → Epack h.floats
  seal_record s i payload =
      let payload_hash : Text = stable_hash h.crypto payload in
      let ep : EpackBlock h.floats =
        new_epack h.floats h.crypto i.ts (s.epack_seq + 1) s.epack_prev_hash payload payload_hash in
      record {
        seq = ep.seq;
        ts = ep.ts;
        prev_hash = ep.prev_hash;
        payload_hash = ep.payload_hash;
        signature = sign_payload_hash h.crypto h.settings.signing_key payload_hash;
        hash = ep.hash;
        payload = ep.payload;
      }

  -- `_seal`
  unfoldable pub seal : Machine h → SealInput h → Text → Text → Fields → Machine h × TurnReply h
  seal m i user_text assistant_text extra =
      let s : Session h = m.session in
      let payload : Json = seal_payload s i user_text assistant_text extra in
      let r : Epack h.floats = seal_record s i payload in
      let persist : Bool = h.settings.persist_epacks && ltb s.last_persisted_seq r.seq in
      let stored : Epack h.floats = record r {
        payload = redact_payload h.crypto h.settings.redact payload;
      } in
      (
        record {
          session = record s {
            tsv = (snapshot h.floats i.now s.tsv).0;
            epack_seq = r.seq;
            epack_prev_hash = r.hash;
            epacks = s.epacks ++ r ∷ [];
            last_persisted_seq = if persist then r.seq else s.last_persisted_seq;
          };
          store = if persist then m.store ++ stored ∷ [] else m.store;
        },
        record { assistant_text = assistant_text; epack = r },
      )
