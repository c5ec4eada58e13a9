-- ===== src/Governance/Receipt/Signed.antt =====
-- What the signature of a receipt is good for.
use beaconwise_tek.Base.{
  ◌≡◌, refl, sym, ◌∙◌, true, some, Text, codes, text_lt, text_eq→eq, text_eq_refl, truthy,
}
use beaconwise_tek.Float.{Floats}
use beaconwise_tek.Json.{real, str, obj, end, field, canonical, insert_field}
use beaconwise_tek.Stable.{Crypto, IsCollisionFree, stable_json}
use beaconwise_tek.Governance.Receipt.{
  last_or_empty, has_receipt, GovernanceReceipt, ProofRequest, signed_fields, sign_receipt_fields,
  sign_receipt, verify_receipt, unsigned_receipt, generate_proof,
}

-- What is relied on of HMAC: under one key, no two messages in use have one tag.
pub record IsUnforged (c : Crypto) : Type 0 where
  pub hmac_inj : (key s t : Text) → c.hmac_sha256 key s ≡ c.hmac_sha256 key t → s ≡ t

module _ (fl : Floats) (c : Crypto) where
  -- Two receipts that agree in all that is signed; a time is read by the text printed for it.
  pub record SameReceipt (a b : GovernanceReceipt fl) : Type 0 where
    pub receipt_id : a.receipt_id ≡ b.receipt_id
    pub epack_hash : a.epack_hash ≡ b.epack_hash
    pub routing_proof_hash : a.routing_proof_hash ≡ b.routing_proof_hash
    pub manifest_hash : a.manifest_hash ≡ b.manifest_hash
    pub tsv_snapshot_hash : a.tsv_snapshot_hash ≡ b.tsv_snapshot_hash
    pub scope_gate_decision : a.scope_gate_decision ≡ b.scope_gate_decision
    pub profile : a.profile ≡ b.profile
    pub mode : a.mode ≡ b.mode
    pub timestamp : fl.repr a.timestamp ≡ fl.repr b.timestamp

  signed_fields_lem :
      (r : GovernanceReceipt fl)
      → canonical (signed_fields fl c r)
        ≡ obj (
            field (codes "epack_hash") (str r.epack_hash) (
              field (codes "manifest_hash") (str r.manifest_hash) (
                field (codes "mode") (str r.mode) (
                  field (codes "profile") (str r.profile) (
                    field (codes "receipt_id") (str r.receipt_id) (
                      field (codes "routing_proof_hash") (str r.routing_proof_hash) (
                        field (codes "scope_gate_decision") (str r.scope_gate_decision) (
                          field (codes "timestamp") (real (fl.repr r.timestamp)) (
                            field (codes "tsv_snapshot_hash") (str r.tsv_snapshot_hash) end)))))))))
  unfolding canonical insert_field signed_fields codes text_lt
  signed_fields_lem r = refl

  verified_tag :
      (r : GovernanceReceipt fl) (key : Text)
      → verify_receipt fl c r key ≡ true
      → r.signature ≡ c.hmac_sha256 key (stable_json c (signed_fields fl c r))
  unfolding verify_receipt sign_receipt_fields
  verified_tag r key v = text_eq→eq r.signature _ v

  -- Tamper evidence of receipts: under a printer of JSON and an HMAC without collisions, two receipts
  -- that verify under one key and carry one signature agree in every signed field.
  pub verify_receipt-pins :
      IsCollisionFree c
      → IsUnforged c
      → (key : Text) (a b : GovernanceReceipt fl) → verify_receipt fl c a key ≡ true
      → verify_receipt fl c b key ≡ true
      → a.signature ≡ b.signature
      → SameReceipt a b
  unfolding stable_json
  verify_receipt-pins f u key a b va vb e =
      let printed =
        u.hmac_inj key (stable_json c (signed_fields fl c a)) (stable_json c (signed_fields fl c b))
          (sym (verified_tag a key va) ∙ (e ∙ verified_tag b key vb)) in
      let same =
        f.dumps_inj (canonical (signed_fields fl c a)) (canonical (signed_fields fl c b)) printed in
      let plain = sym (signed_fields_lem a) ∙ (same ∙ signed_fields_lem b) in
      record {
        receipt_id = cc plain;
        epack_hash = cc plain;
        routing_proof_hash = cc plain;
        manifest_hash = cc plain;
        tsv_snapshot_hash = cc plain;
        scope_gate_decision = cc plain;
        profile = cc plain;
        mode = cc plain;
        timestamp = cc plain;
      }

  -- For every request in the mode STANDARD or FORENSIC that has a key, `generate_proof` gives a receipt,
  -- the receipt verifies under that key, and it names the last hash of the chain of the bundle.
  pub generate_proof-receipt :
      (q : ProofRequest fl c)
      → has_receipt q.mode ≡ true
      → truthy q.signing_key ≡ true
      → (r : GovernanceReceipt fl) × ((generate_proof fl c q).receipt ≡ some r)
        × (verify_receipt fl c r q.signing_key ≡ true)
        × (r.epack_hash ≡ last_or_empty (generate_proof fl c q).epack_chain_hashes)
  unfolding generate_proof verify_receipt sign_receipt sign_receipt_fields unsigned_receipt
      signed_fields
  generate_proof-receipt q asks key = (
    sign_receipt fl c (unsigned_receipt fl c q) q.signing_key,
    rw (asks, key) refl,
    text_eq_refl _,
    refl,
  )
