-- ===== src/Replay/Package/Pinned.antt =====
-- What the seal of a package covers.
use beaconwise_tek.Base.{◌≡◌, refl, sym, ◌∙◌, true, List, [], ◌∷◌, codes, text_lt, text_eq→eq}
use beaconwise_tek.Float.{Floats}
use beaconwise_tek.Json.{
  num, real, str, arr, obj, end, field, canonical, canonical_items, canonical_fields, insert_field,
}
use beaconwise_tek.Stable.{Crypto, IsCollisionFree}
use beaconwise_tek.Stable.Tagged.{stable_hash_inj}
use beaconwise_tek.Kernel.Session.{Epack}
use beaconwise_tek.Replay.Package.{
  Content, ReplayPackage, epack_json, epack_items, content_json, seal, verify_seal,
}

module _ (fl : Floats) where
  -- Two records with the same fields. A time is read by the text that is printed for it, and JSON
  -- values are compared up to the order of the keys of their dicts.
  pub record SameEpack (a b : Epack fl) : Type 0 where
    pub seq : a.seq ≡ b.seq
    pub ts : fl.repr a.ts ≡ fl.repr b.ts
    pub prev_hash : a.prev_hash ≡ b.prev_hash
    pub payload_hash : a.payload_hash ≡ b.payload_hash
    pub signature : a.signature ≡ b.signature
    pub hash : a.hash ≡ b.hash
    pub payload : canonical a.payload ≡ canonical b.payload

  abbrev pub SameEpacks : List (Epack fl) → List (Epack fl) → Type 0
  SameEpacks [] [] = Unit
  SameEpacks [] (y ∷ ys) = ⊥
  SameEpacks (x ∷ xs) [] = ⊥
  SameEpacks (x ∷ xs) (y ∷ ys) = SameEpack x y × SameEpacks xs ys

  -- Two contents with the same fields.
  pub record SameContent (a b : Content fl) : Type 0 where
    pub input_payload_hash : a.input_payload_hash ≡ b.input_payload_hash
    pub input_metadata : canonical_fields a.input_metadata ≡ canonical_fields b.input_metadata
    pub kernel_version : a.kernel_version ≡ b.kernel_version
    pub governance_profile_id : a.governance_profile_id ≡ b.governance_profile_id
    pub validator_set_id : a.validator_set_id ≡ b.validator_set_id
    pub determinism_policy : a.determinism_policy ≡ b.determinism_policy
    pub routing_decisions :
        canonical_fields a.routing_decisions ≡ canonical_fields b.routing_decisions
    pub epack_chain : SameEpacks a.epack_chain b.epack_chain
    pub epack_head_hash : a.epack_head_hash ≡ b.epack_head_hash
    pub validator_results :
        canonical_items a.validator_results ≡ canonical_items b.validator_results
    pub consensus_result : canonical a.consensus_result ≡ canonical b.consensus_result
    pub environment : canonical_fields a.environment ≡ canonical_fields b.environment

module _ (fl : Floats) (c : Crypto) where
  epack_json_lem :
      (r : Epack fl)
      → canonical (epack_json fl c r)
        ≡ obj (
            field (codes "hash") (str r.hash) (
              field (codes "payload") (canonical r.payload) (
                field (codes "payload_hash") (str r.payload_hash) (
                  field (codes "prev_hash") (str r.prev_hash) (
                    field (codes "seq") (num r.seq) (
                      field
                        (codes "signature")
                        (str r.signature)
                        (field (codes "ts") (real (fl.repr r.ts)) end)))))))
  unfolding canonical insert_field epack_json codes text_lt
  epack_json_lem r = refl

  epack_inj :
      (a b : Epack fl)
      → canonical (epack_json fl c a) ≡ canonical (epack_json fl c b)
      → SameEpack fl a b
  epack_inj a b e =
      let plain = sym (epack_json_lem a) ∙ (e ∙ epack_json_lem b) in
      record {
        seq = cc plain;
        ts = cc plain;
        prev_hash = cc plain;
        payload_hash = cc plain;
        signature = cc plain;
        hash = cc plain;
        payload = cc plain;
      }

  epacks_inj :
      (rs ss : List (Epack fl))
      → canonical_items (epack_items fl c rs) ≡ canonical_items (epack_items fl c ss)
      → SameEpacks fl rs ss
  unfolding canonical epack_items
  epacks_inj [] [] e = tt
  epacks_inj [] (s ∷ ss) e = cc
  epacks_inj (r ∷ rs) [] e = cc
  epacks_inj (r ∷ rs) (s ∷ ss) e = (epack_inj r s (cc e), epacks_inj rs ss (cc e))

  content_json_lem :
      (k : Content fl)
      → canonical (content_json fl c k)
        ≡ obj (
            field (codes "consensus_result") (canonical k.consensus_result) (
              field (codes "determinism_policy") (str k.determinism_policy) (
                field (codes "environment") (obj (canonical_fields k.environment)) (
                  field
                    (codes "epack_chain")
                    (arr (canonical_items (epack_items fl c k.epack_chain)))
                    (field (codes "epack_head_hash") (str k.epack_head_hash) (
                      field (codes "governance_profile_id") (str k.governance_profile_id) (
                        field (codes "input_metadata") (obj (canonical_fields k.input_metadata)) (
                          field (codes "input_payload_hash") (str k.input_payload_hash) (
                            field (codes "kernel_version") (str k.kernel_version) (
                              field
                                (codes "routing_decisions")
                                (obj (canonical_fields k.routing_decisions))
                                (field
                                  (codes "validator_results")
                                  (arr (canonical_items k.validator_results))
                                  (field
                                    (codes "validator_set_id")
                                    (str k.validator_set_id)
                                    end))))))))))))
  unfolding canonical insert_field content_json codes text_lt
  content_json_lem k = refl

  content_inj :
      (a b : Content fl)
      → canonical (content_json fl c a) ≡ canonical (content_json fl c b)
      → SameContent fl a b
  content_inj a b e =
      let plain = sym (content_json_lem a) ∙ (e ∙ content_json_lem b) in
      record {
        input_payload_hash = cc plain;
        input_metadata = cc plain;
        kernel_version = cc plain;
        governance_profile_id = cc plain;
        validator_set_id = cc plain;
        determinism_policy = cc plain;
        routing_decisions = cc plain;
        epack_chain = epacks_inj a.epack_chain b.epack_chain (cc plain);
        epack_head_hash = cc plain;
        validator_results = cc plain;
        consensus_result = cc plain;
        environment = cc plain;
      }

  -- A package's seal pins all of its content: under a hash without collisions, two packages with one
  -- package hash whose seals both verify have the same twelve fields, the records of their chains
  -- field by field, up to the order of the keys of the dicts.
  pub verify_seal-pins :
      IsCollisionFree c
      → (a b : ReplayPackage fl) → (verify_seal fl c a).0 ≡ true
      → (verify_seal fl c b).0 ≡ true
      → a.package_hash ≡ b.package_hash
      → SameContent fl a.content b.content
  unfolding verify_seal seal
  verify_seal-pins f a b va vb same = content_inj a.content b.content (
      stable_hash_inj c f (content_json fl c a.content) (content_json fl c b.content)
        (text_eq→eq _ _ va ∙ (same ∙ sym (text_eq→eq _ _ vb))))
