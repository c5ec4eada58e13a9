-- ===== src/Replay/Package.antt =====
-- src/ecosphere/replay/package.py: packages of a run's artifacts, sealed by a hash. The records of a
-- package have the keys that the kernel writes. A package has the records of the session at the time it
-- is built; the program's package keeps the session's own list.
pub mod Sealing
pub mod Pinned
use beaconwise_tek.Base.{
  ℕ, zero, suc, ◌+◌, ◌-◌, ◌*◌, ◌≤◌, ◌<◌, String, ◌≡◌, refl, sym, ap, ◌∙◌, subst, ◌≢◌, ◌↔◌, ◌⊎◌, inl,
  inr, Bool, true, false, not, ◌&&◌, ◌||◌, Option, none, some, List, [], ◌∷◌, ◌++◌, map,
  append_assoc, append-nil, arith, ltb, leb, ◌==◌, if◌then◌else◌, ltb→lt, lt→ltb, leb→le, le→leb,
  ==→eq, eq→==, Bool-cases, and_true, Option-cases, Text, codes, text_eq, text_lt, text_eq→eq,
  text_eq_refl, eq→text_eq, truthy, length, take, drop, take_last, any, all, length-append,
}
use beaconwise_tek.Float.{Floats}
use beaconwise_tek.Json.{
  Json, Items, Fields, null, bool, num, neg, real, str, arr, obj, nil, cons, end, field, get, value,
}
use beaconwise_tek.Stable.{Crypto, stable_hash}
use beaconwise_tek.Kernel.Session.{Epack}
use beaconwise_tek.Governance.Proof.{hash_ok}
use beaconwise_tek.Replay.Engine.{get_or, fields_of}

-- Of the messages of `verify_replay_package`, those on the chain, with the index of the record.
pub data LinkError : Type 0 where
  hash_mismatch expected_genesis broken_linkage : ℕ → LinkError

-- The fields of `ReplayPackage` but its hash; an absent `consensus_result` is null.
pub record Content (fl : Floats) : Type 0 where
  pub input_payload_hash : Text
  pub input_metadata : Fields
  pub kernel_version : Text
  pub governance_profile_id : Text
  pub validator_set_id : Text
  pub determinism_policy : Text
  pub routing_decisions : Fields
  pub epack_chain : List (Epack fl)
  pub epack_head_hash : Text
  pub validator_results : Items
  pub consensus_result : Json
  pub environment : Fields

pub record ReplayPackage (fl : Floats) : Type 0 where
  pub content : Content fl
  pub package_hash : Text

-- The keyword arguments of `build_replay_package`, with their defaults filled in.
pub record BuildInput (fl : Floats) : Type 0 where
  pub session_epacks : List (Epack fl)
  pub kernel_version : Text
  pub governance_profile : Text
  pub validator_set_id : Text
  pub routing_decisions : Fields
  pub validator_results : Items
  pub consensus_result : Json
  pub environment : Fields

-- The value of `verify_replay_package`: the four checks and their conjunction.
pub record PackageVerdict : Type 0 where
  pub passed : Bool
  pub package_seal : Bool
  pub chain_integrity : Bool
  pub chain_errors : List LinkError
  pub head_hash : Bool
  pub required_fields : Bool

module _ (fl : Floats) (c : Crypto) where
  -- A record as `_seal` builds it.
  unfoldable pub epack_json : Epack fl → Json
  epack_json r = obj (
      field (codes "seq") (num r.seq) (
        field (codes "ts") (real (fl.repr r.ts)) (
          field (codes "prev_hash") (str r.prev_hash) (
            field (codes "payload_hash") (str r.payload_hash) (
              field (codes "signature") (str r.signature)
                (field (codes "hash") (str r.hash) (field (codes "payload") r.payload end)))))))

  unfoldable pub epack_items : List (Epack fl) → Items
  unfolding epack_json
  epack_items [] = nil
  epack_items (r ∷ rs) = cons (epack_json r) (epack_items rs)

  -- What `seal` hashes.
  unfoldable pub content_json : Content fl → Json
  unfolding epack_items
  content_json k = obj (
      field (codes "input_payload_hash") (str k.input_payload_hash) (
        field (codes "input_metadata") (obj k.input_metadata) (
          field (codes "kernel_version") (str k.kernel_version) (
            field (codes "governance_profile_id") (str k.governance_profile_id) (
              field (codes "validator_set_id") (str k.validator_set_id) (
                field (codes "determinism_policy") (str k.determinism_policy) (
                  field (codes "routing_decisions") (obj k.routing_decisions) (
                    field (codes "epack_chain") (arr (epack_items k.epack_chain)) (
                      field (codes "epack_head_hash") (str k.epack_head_hash) (
                        field (codes "validator_results") (arr k.validator_results) (
                          field (codes "consensus_result") k.consensus_result
                            (field (codes "environment") (obj k.environment) end))))))))))))

  unfoldable pub seal : ReplayPackage fl → ReplayPackage fl
  seal rp = record rp { package_hash = stable_hash c (content_json rp.content) }

  -- `verify_seal`, which puts the saved hash back
  unfoldable pub verify_seal : ReplayPackage fl → Bool × ReplayPackage fl
  unfolding seal
  verify_seal rp =
      let saved : Text = rp.package_hash in
      let sealed : ReplayPackage fl = seal rp in
      (text_eq sealed.package_hash saved, record sealed { package_hash = saved })

  -- `chain[-1]["hash"]`, with a default for an empty chain
  unfoldable pub last_hash : Text → List (Epack fl) → Text
  last_hash default [] = default
  last_hash default (r ∷ rs) = last_hash r.hash rs

  -- The hash of the user's text in the first record's payload
  unfoldable pub input_hash : List (Epack fl) → Text
  input_hash [] = []
  input_hash (r ∷ rs) = elim (get_or (codes "user_text_hash") (str []) (fields_of r.payload)) [
    | str s ↦ s
    | _ ↦ []
  ]

  unfoldable pub build_replay_package : BuildInput fl → ReplayPackage fl
  unfolding seal last_hash input_hash
  build_replay_package i = seal record {
    content = record {
      input_payload_hash = input_hash i.session_epacks;
      input_metadata = field (codes "epack_count") (num (length i.session_epacks)) end;
      kernel_version = i.kernel_version;
      governance_profile_id = i.governance_profile;
      validator_set_id = i.validator_set_id;
      determinism_policy = codes "strict";
      routing_decisions = i.routing_decisions;
      epack_chain = i.session_epacks;
      epack_head_hash = last_hash [] i.session_epacks;
      validator_results = i.validator_results;
      consensus_result = i.consensus_result;
      environment = i.environment;
    };
    package_hash = [];
  }

  unfoldable pub hash_error_at : ℕ → Epack fl → List LinkError
  hash_error_at i r = if hash_ok fl c r then [] else hash_mismatch i ∷ []

  unfoldable pub genesis_error : Epack fl → List LinkError
  genesis_error r = if text_eq r.prev_hash (codes "GENESIS") then [] else expected_genesis 0 ∷ []

  unfoldable pub linkage_error : ℕ → Epack fl → Epack fl → List LinkError
  linkage_error i p r = if text_eq r.prev_hash p.hash then [] else broken_linkage i ∷ []

  -- The loop from the index `i` on, behind a record `p`.
  unfoldable pub linkage_from : ℕ → Epack fl → List (Epack fl) → List LinkError
  unfolding hash_error_at linkage_error
  linkage_from i p [] = []
  linkage_from i p (r ∷ rs) =
      hash_error_at i r ++ (linkage_error i p r ++ linkage_from (i + 1) r rs)

  unfoldable pub package_errors : List (Epack fl) → List LinkError
  unfolding hash_error_at genesis_error linkage_from
  package_errors [] = []
  package_errors (r ∷ rs) = hash_error_at 0 r ++ (genesis_error r ++ linkage_from 1 r rs)

  -- The head hash is that of the last record, if there is one.
  unfoldable pub head_ok : Content fl → Bool
  unfolding last_hash
  head_ok k = text_eq k.epack_head_hash (last_hash k.epack_head_hash k.epack_chain)

  unfoldable pub verify_replay_package : ReplayPackage fl → PackageVerdict
  unfolding verify_seal package_errors head_ok
  verify_replay_package rp =
      let sealed : Bool = (verify_seal rp).0 in
      let errors : List LinkError = package_errors rp.content.epack_chain in
      let head : Bool = head_ok rp.content in
      let required : Bool =
        truthy rp.content.kernel_version && truthy rp.content.input_payload_hash in
      record {
        passed = sealed && ((length errors == 0) && (head && required));
        package_seal = sealed;
        chain_integrity = length errors == 0;
        chain_errors = errors;
        head_hash = head;
        required_fields = required;
      }
