-- ===== src/Governance/Receipt.antt =====
-- src/ecosphere/governance/proof.py: proofs of a route, signed receipts and proof bundles. Times are
-- arguments; an empty text stands for no key, and an empty object for none.
pub mod Signed
use beaconwise_tek.Base.{
  ℕ, zero, suc, ◌+◌, ◌-◌, ◌*◌, ◌≤◌, ◌<◌, String, ◌≡◌, refl, sym, ap, ◌∙◌, subst, ◌≢◌, ◌↔◌, ◌⊎◌, inl,
  inr, Bool, true, false, not, ◌&&◌, ◌||◌, Option, none, some, List, [], ◌∷◌, ◌++◌, map,
  append_assoc, append-nil, arith, ltb, leb, ◌==◌, if◌then◌else◌, ltb→lt, lt→ltb, leb→le, le→leb,
  ==→eq, eq→==, Bool-cases, and_true, Option-cases, Text, codes, text_eq, text_lt, text_eq→eq,
  text_eq_refl, eq→text_eq, truthy, length, take, drop, take_last, any, all, length-append,
}
use beaconwise_tek.Float.{Floats}
use beaconwise_tek.Json.{
  Json, Items, Fields, bool, num, real, str, arr, obj, nil, cons, end, field, json_truthy,
}
use beaconwise_tek.Stable.{Crypto, stable_json, stable_hash}
use beaconwise_tek.Kernel.Session.{Epack}

-- `ProofMode`
pub data ProofMode : Type 0 where
  lightweight standard forensic : ProofMode

unfoldable pub mode_text : ProofMode → Text
mode_text lightweight = codes "lightweight"
mode_text standard = codes "standard"
mode_text forensic = codes "forensic"

-- `mode in (ProofMode.STANDARD, ProofMode.FORENSIC)`
unfoldable pub has_receipt : ProofMode → Bool
has_receipt lightweight = false
has_receipt _ = true

unfoldable pub is_forensic : ProofMode → Bool
is_forensic forensic = true
is_forensic _ = false

-- `[r["hash"] for r in epack_chain]`
unfoldable pub chain_hashes : {fl : Floats} → List (Epack fl) → List Text
chain_hashes [] = []
chain_hashes (r ∷ rs) = r.hash ∷ chain_hashes rs

-- `xs[-1] if xs else ""`
unfoldable pub last_or_empty : List Text → Text
last_or_empty [] = []
last_or_empty (x ∷ []) = x
last_or_empty (x ∷ y ∷ ys) = last_or_empty (y ∷ ys)

unfoldable pub text_items : List Text → Items
text_items [] = nil
text_items (t ∷ ts) = cons (str t) (text_items ts)

-- The replies of `verify_routing_proof`.
pub data RoutingVerdict : Type 0 where
  unsafe_not_bound seal_empty routing_ok : RoutingVerdict

module _ (fl : Floats) where
  pub record RoutingProof : Type 0 where
    pub input_hash : Text
    pub route_sequence : List Text
    pub route_reason : Text
    pub safety_stage1_ok : Bool
    pub safety_stage2_ok : Bool
    pub safety_stage2_score : fl.F
    pub domain : Text
    pub complexity : ℕ
    pub profile : Text
    pub timestamp : fl.F

  pub record GovernanceReceipt : Type 0 where
    pub receipt_id : Text
    pub epack_hash : Text
    pub routing_proof_hash : Text
    pub manifest_hash : Text
    pub tsv_snapshot_hash : Text
    pub scope_gate_decision : Text
    pub profile : Text
    pub mode : Text
    pub timestamp : fl.F
    pub signature : Text

  pub record GovernanceProof : Type 0 where
    pub mode : ProofMode
    pub receipt : Option GovernanceReceipt
    pub routing_proof : Option RoutingProof
    pub epack_chain_hashes : List Text
    pub state_replay : Fields

  module _ (c : Crypto) where
    -- `RoutingProof.seal`
    unfoldable pub seal_routing : RoutingProof → Text
    unfolding text_items
    seal_routing p = stable_hash c (
        obj (
          field (codes "input_hash") (str p.input_hash) (
            field (codes "route_sequence") (arr (text_items p.route_sequence)) (
              field (codes "route_reason") (str p.route_reason) (
                field (codes "safety_stage1_ok") (bool p.safety_stage1_ok) (
                  field (codes "safety_stage2_ok") (bool p.safety_stage2_ok) (
                    field (codes "safety_stage2_score") (real (fl.repr p.safety_stage2_score)) (
                      field (codes "domain") (str p.domain) (
                        field (codes "complexity") (num p.complexity) (
                          field (codes "profile") (str p.profile)
                            (field (codes "timestamp") (real (fl.repr p.timestamp)) end)))))))))))

    -- The fields that a receipt's signature covers.
    unfoldable pub signed_fields : GovernanceReceipt → Json
    signed_fields r = obj (
        field (codes "receipt_id") (str r.receipt_id) (
          field (codes "epack_hash") (str r.epack_hash) (
            field (codes "routing_proof_hash") (str r.routing_proof_hash) (
              field (codes "manifest_hash") (str r.manifest_hash) (
                field (codes "tsv_snapshot_hash") (str r.tsv_snapshot_hash) (
                  field (codes "scope_gate_decision") (str r.scope_gate_decision) (
                    field (codes "profile") (str r.profile) (
                      field (codes "mode") (str r.mode)
                        (field (codes "timestamp") (real (fl.repr r.timestamp)) end)))))))))

    unfoldable pub sign_receipt_fields : GovernanceReceipt → Text → Text
    sign_receipt_fields r key = c.hmac_sha256 key (stable_json c (signed_fields r))

    -- `sign_receipt` of the receipt whose signature is still empty
    unfoldable pub sign_receipt : GovernanceReceipt → Text → GovernanceReceipt
    unfolding sign_receipt_fields
    sign_receipt unsigned key = record unsigned { signature = sign_receipt_fields unsigned key }

    unfoldable pub verify_receipt : GovernanceReceipt → Text → Bool
    unfolding sign_receipt_fields
    verify_receipt r key = text_eq r.signature (sign_receipt_fields r key)

    -- Does the first step of a route differ from BOUND.
    unfoldable pub starts_elsewhere : List Text → Bool
    starts_elsewhere [] = false
    starts_elsewhere (step ∷ steps) = not (text_eq step (codes "BOUND"))

    unfoldable pub verify_routing_proof : RoutingProof → Bool × RoutingVerdict
    unfolding starts_elsewhere seal_routing
    verify_routing_proof p =
        if not (p.safety_stage1_ok && p.safety_stage2_ok) && starts_elsewhere p.route_sequence
        then (false, unsafe_not_bound)
        else if truthy (seal_routing p)
        then (true, routing_ok)
        else (false, seal_empty)

    -- The arguments of `generate_proof`, with the two times that it reads.
    pub record ProofRequest : Type 0 where
      pub mode : ProofMode
      pub epack_chain : List (Epack fl)
      pub routing_proof : Option RoutingProof
      pub manifest_hash : Text
      pub tsv_snapshot : Fields
      pub scope_gate_decision : Text
      pub profile : Text
      pub signing_key : Text
      pub state_replay : Fields
      pub id_time : fl.F
      pub receipt_time : fl.F

    unfoldable pub unsigned_receipt : ProofRequest → GovernanceReceipt
    unfolding mode_text last_or_empty chain_hashes
    unsigned_receipt q =
        let epack_hash : Text = last_or_empty (chain_hashes q.epack_chain) in
        record {
          receipt_id = take 16 (
              stable_hash c (
                obj (
                  field (codes "epack_hash") (str epack_hash)
                    (field (codes "ts") (real (fl.repr q.id_time)) end))));
          epack_hash = epack_hash;
          routing_proof_hash = elim q.routing_proof [ none ↦ [] | some p ↦ seal_routing p ];
          manifest_hash = q.manifest_hash;
          tsv_snapshot_hash =
              if json_truthy (obj q.tsv_snapshot) then stable_hash c (obj q.tsv_snapshot) else [];
          scope_gate_decision = q.scope_gate_decision;
          profile = q.profile;
          mode = mode_text q.mode;
          timestamp = q.receipt_time;
          signature = [];
        }

    unfoldable pub generate_proof : ProofRequest → GovernanceProof
    unfolding has_receipt is_forensic chain_hashes
    generate_proof q =
        let signed : GovernanceReceipt = sign_receipt (unsigned_receipt q) q.signing_key in
        record {
          mode = q.mode;
          receipt = if has_receipt q.mode && truthy q.signing_key then some signed else none;
          routing_proof = q.routing_proof;
          epack_chain_hashes = chain_hashes q.epack_chain;
          state_replay = if is_forensic q.mode then q.state_replay else end;
        }
