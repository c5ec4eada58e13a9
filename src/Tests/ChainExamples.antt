-- ===== src/Tests/ChainExamples.antt =====
-- Audit chains of one and two records.
use beaconwise_tek.Base.{
  ℕ, ◌≡◌, refl, ◌↔◌, true, false, none, [], ◌∷◌, ◌++◌, Text, codes, text_eq_refl,
}
use beaconwise_tek.Governance.Receipt.{
  standard, GovernanceReceipt, ProofRequest, signed_fields, sign_receipt_fields, sign_receipt,
  verify_receipt, unsigned_receipt,
}
use beaconwise_tek.Governance.Receipt.Signed.{IsUnforged, SameReceipt, verify_receipt-pins}
use beaconwise_tek.Json.{end}
use beaconwise_tek.Json.{Json, num, str}
use beaconwise_tek.Stable.{stable_hash}
use beaconwise_tek.Epack.{new_epack}
use beaconwise_tek.Kernel.Revisions.{decimal}
use beaconwise_tek.Kernel.Session.{Epack}
use beaconwise_tek.Governance.Proof.{
  audited_core, verify_epack_chain, chain_errors, errors_after, hash_errors, hash_ok, link_errors,
  broken_link,
}
use beaconwise_tek.Governance.Proof.Chain.{IsIntact, verify_epack_chain_iff}
use beaconwise_tek.Governance.Proof.Tamper.{SameChain, verified-pinned}
use beaconwise_tek.Governance.Proof.Sealed.{stored, new_epack-rejected}
use beaconwise_tek.Tests.Encoding.{toy_crypto, toy_crypto-IsCollisionFree}
use beaconwise_tek.Tests.Fixtures.{toy_floats}
use beaconwise_tek.Tests.Running.{digests}

-- A record with the hash that the verifiers compute.
abbrev pub genuine : ℕ → Text → Json → Epack toy_floats
genuine n prev payload =
    let r : Epack toy_floats = record {
      seq = n;
      ts = 15000;
      prev_hash = prev;
      payload_hash = [];
      signature = [];
      hash = [];
      payload = payload;
    } in
    record r { hash = stable_hash toy_crypto (audited_core toy_floats toy_crypto r) }

abbrev pub first : Epack toy_floats
first = genuine 1 (codes "GENESIS") (num 7)

abbrev pub second : Epack toy_floats
second = genuine 2 first.hash (str (codes "later"))

chain_is_valid : (verify_epack_chain toy_floats toy_crypto (first ∷ second ∷ [])).0 ≡ true
unfolding digests verify_epack_chain chain_errors errors_after hash_errors hash_ok link_errors
    audited_core decimal
chain_is_valid = refl

-- Swapped records break the link.
swapped_is_found :
    (verify_epack_chain toy_floats toy_crypto (second ∷ first ∷ [])).1 ≡ broken_link 1 2 ∷ []
unfolding digests verify_epack_chain chain_errors errors_after hash_errors hash_ok link_errors
    audited_core decimal
swapped_is_found = refl

verify_epack_chain_iff_example :
    ((verify_epack_chain toy_floats toy_crypto (first ∷ second ∷ [])).0 ≡ true)
    ↔ IsIntact toy_floats toy_crypto (first ∷ second ∷ [])
verify_epack_chain_iff_example = verify_epack_chain_iff toy_floats toy_crypto (first ∷ second ∷ [])

verified-pinned_example :
    SameChain toy_floats toy_crypto (first ∷ second ∷ []) (first ∷ second ∷ [])
verified-pinned_example =
    verified-pinned toy_floats toy_crypto toy_crypto-IsCollisionFree first first (second ∷ [])
      (second ∷ []) chain_is_valid chain_is_valid refl refl

new_epack-rejected_example :
    (verify_epack_chain toy_floats toy_crypto (
      []
      ++ stored toy_floats toy_crypto
          (new_epack toy_floats toy_crypto 15000 1 (codes "GENESIS") (num 7) [])
          (codes "sig")
        ∷ [])).0
    ≡ false
new_epack-rejected_example =
    new_epack-rejected toy_floats toy_crypto toy_crypto-IsCollisionFree 15000 1 (codes "GENESIS")
      (num 7) [] (codes "sig") [] []

append_cancel : (xs ys zs : Text) → xs ++ ys ≡ xs ++ zs → ys ≡ zs
append_cancel [] ys zs e = e
append_cancel (x ∷ xs) ys zs e = append_cancel xs ys zs (cc e)

toy_crypto-IsUnforged : IsUnforged toy_crypto
toy_crypto-IsUnforged = record { hmac_inj = λ key s t e. append_cancel key s t e }

-- A request for a signed proof of a chain.
abbrev request : ProofRequest toy_floats toy_crypto
request = record {
  mode = standard;
  epack_chain = first ∷ second ∷ [];
  routing_proof = none;
  manifest_hash = codes "m";
  tsv_snapshot = end;
  scope_gate_decision = codes "N/A";
  profile = codes "STANDARD";
  signing_key = codes "key";
  state_replay = end;
  id_time = 15000;
  receipt_time = 15000;
}

-- The receipt that is signed for the request.
abbrev signed : GovernanceReceipt toy_floats
signed =
    sign_receipt toy_floats toy_crypto (unsigned_receipt toy_floats toy_crypto request)
      (codes "key")

signed_verifies : verify_receipt toy_floats toy_crypto signed (codes "key") ≡ true
unfolding verify_receipt sign_receipt sign_receipt_fields signed_fields
signed_verifies = text_eq_refl _

verify_receipt-pins_example : SameReceipt toy_floats toy_crypto signed signed
verify_receipt-pins_example =
    verify_receipt-pins toy_floats toy_crypto toy_crypto-IsCollisionFree toy_crypto-IsUnforged
      (codes "key") signed signed signed_verifies signed_verifies refl
