-- ===== src/Governance/Checks/Verdict.antt =====
-- When the constitution reports a critical violation.
use beaconwise_tek.Base.{
  ℕ, ◌≡◌, refl, inl, inr, Bool, true, false, not, ◌&&◌, ◌||◌, Option, List, [], ◌∷◌, ◌++◌, arith,
  ltb, leb, ◌==◌, Bool-cases, Text, codes, text_eq, length, any,
}
use beaconwise_tek.Float.{Floats}
use beaconwise_tek.Json.{Fields, end, field, value}
use beaconwise_tek.Stable.{Crypto}
use beaconwise_tek.Kernel.Gates.{contains_text}
use beaconwise_tek.Kernel.Session.{Epack}
use beaconwise_tek.Governance.Proof.{
  hash_ok, hash_errors, link_errors, errors_after, chain_errors, verify_epack_chain,
}
use beaconwise_tek.Governance.Constitution.{constitution, critical_ids, is_critical}
use beaconwise_tek.Governance.Checks.{
  CheckResult, check_result, check_audit_completeness, manifest_fields, manifest_verdict,
  check_provenance_manifest, is_false, check_validation_before_delivery, count_distinct,
  check_vendor_neutrality, providers_or_default, any_critical_violations, chain_verdict,
  mismatch_at, broken_at, check_links, check_hash_chain_integrity, CheckInput, manifest_results,
  run_constitutional_checks,
}

-- Nothing was delivered, or a validation ran and did not fail.
abbrev pub delivered_well : Bool → Option Bool → Bool → Bool
delivered_well validation_ran validation_ok output_delivered =
    not output_delivered || (validation_ran && not (is_false validation_ok))

module _ (fl : Floats) (c : Crypto) where
  check_links_agrees :
      (verified : Text) (p : Epack fl) (rs : List (Epack fl))
      → (check_links fl c verified p rs).passed ≡ (length (errors_after fl c p rs) == 0)
  unfolding check_links errors_after hash_errors link_errors chain_verdict mismatch_at broken_at
      check_result
  check_links_agrees verified p [] = refl
  check_links_agrees verified p (r ∷ rs) = elim (Bool-cases (hash_ok fl c r)) [
    | inl a ↦ elim (Bool-cases (text_eq r.prev_hash p.hash)) [
      | inl b ↦ rw (a, b) (check_links_agrees verified r rs)
      | inr b ↦ rw (a, b) (ground arith)
    ]
    | inr a ↦ rw a (ground arith)
  ]

  -- The constitution's check of the hash chain, which stops at the first error, passes exactly when
  -- `verify_epack_chain` of the governance proofs, which collects all of them, reports the chain
  -- as valid.
  pub check_hash_chain_integrity-agrees :
      (rs : List (Epack fl))
      → (check_hash_chain_integrity fl c rs).passed ≡ (verify_epack_chain fl c rs).0
  unfolding check_hash_chain_integrity verify_epack_chain chain_errors hash_errors chain_verdict
      mismatch_at check_result
  check_hash_chain_integrity-agrees [] = refl
  check_hash_chain_integrity-agrees (r ∷ rs) = elim (Bool-cases (hash_ok fl c r)) [
    | inl a ↦ rw a (check_links_agrees _ r rs)
    | inr a ↦ rw a (ground arith)
  ]

  -- The ids of the checks in the set of the critical ones.
  ids_lem :
      (contains_text (codes "INV-TRA-001") (critical_ids constitution) ≡ true)
      × (contains_text (codes "INV-AUD-001") (critical_ids constitution) ≡ true)
      × (contains_text (codes "INV-AUD-002") (critical_ids constitution) ≡ false)
      × (contains_text (codes "INV-SAF-001") (critical_ids constitution) ≡ true)
      × (contains_text (codes "INV-CAP-001") (critical_ids constitution) ≡ true)
  unfolding contains_text critical_ids constitution is_critical text_eq codes
  ids_lem = (refl, refl, refl, refl, refl)

  -- A result counts when it failed and its invariant is critical.
  abbrev violates : CheckResult → Bool
  violates r = not r.passed && contains_text r.invariant_id (critical_ids constitution)

  violates_completeness : (n m : ℕ) → violates (check_audit_completeness n m) ≡ not (leb n m)
  unfolding check_audit_completeness check_result
  violates_completeness n m = rw (ids_lem.0) (ground arith)

  check_links-id :
      (verified : Text) (p : Epack fl) (rs : List (Epack fl))
      → (check_links fl c verified p rs).invariant_id ≡ codes "INV-AUD-001"
  unfolding check_links chain_verdict mismatch_at broken_at check_result
  check_links-id verified p [] = refl
  check_links-id verified p (r ∷ rs) = ground (arith, check_links-id verified r rs)

  chain_id :
      (rs : List (Epack fl))
      → (check_hash_chain_integrity fl c rs).invariant_id ≡ codes "INV-AUD-001"
  unfolding check_hash_chain_integrity chain_verdict mismatch_at check_result
  chain_id [] = refl
  chain_id (r ∷ rs) = elim (Bool-cases (hash_ok fl c r)) [
    | inl a ↦ rw a (check_links-id _ r rs)
    | inr a ↦ rw a refl
  ]

  violates_chain :
      (rs : List (Epack fl))
      → violates (check_hash_chain_integrity fl c rs) ≡ not (verify_epack_chain fl c rs).0
  violates_chain rs =
      rw (chain_id rs, ids_lem.1, check_hash_chain_integrity-agrees rs) (ground arith)

  manifest_id : (fs : Fields) → (manifest_verdict fs).invariant_id ≡ codes "INV-AUD-002"
  unfolding manifest_verdict check_result
  manifest_id end = refl
  manifest_id (field k v fs) = ground arith

  manifest_harmless : (fs : Fields) → any violates (manifest_results fl c fs) ≡ false
  unfolding manifest_results check_provenance_manifest
  manifest_harmless end = refl
  manifest_harmless (field k v fs) =
      rw (manifest_id (manifest_fields (value (codes "build_manifest") (field k v fs))), ids_lem.2)
        (ground arith)

  violates_delivery :
      (ran : Bool) (ok : Option Bool) (delivered : Bool)
      → violates (check_validation_before_delivery ran ok delivered)
        ≡ not (delivered_well ran ok delivered)
  unfolding check_validation_before_delivery check_result
  violates_delivery ran ok false = ground arith
  violates_delivery false ok true = rw (ids_lem.3) refl
  violates_delivery true ok true = elim (Bool-cases (is_false ok)) [
    | inl a ↦ rw (a, ids_lem.3) refl
    | inr a ↦ rw a (ground arith)
  ]

  violates_neutrality :
      (ps : List Text) → violates (check_vendor_neutrality ps) ≡ ltb (count_distinct ps) 2
  unfolding check_vendor_neutrality check_result
  violates_neutrality ps = elim (Bool-cases (ltb (count_distinct ps) 2)) [
    | inl a ↦ rw (a, ids_lem.4) refl
    | inr a ↦ rw a refl
  ]

  any-append :
      (p : CheckResult → Bool) (xs ys : List CheckResult)
      → any p (xs ++ ys) ≡ (any p xs || any p ys)
  any-append p [] ys = refl
  any-append p (x ∷ xs) ys = ground (arith, any-append p xs ys)

  -- The constitution reports a critical violation exactly when there are fewer records than
  -- interactions, or the chain of records is not valid, or an output was delivered without a
  -- validation or against one, or fewer than two different providers are counted, where no
  -- provider at all counts as the three defaults. A missing build manifest never counts.
  pub any_critical_violations-run :
      (i : CheckInput fl c)
      → any_critical_violations (run_constitutional_checks fl c i)
        ≡ not (
            leb i.interaction_count (length i.epack_chain)
            && ((verify_epack_chain fl c i.epack_chain).0
                && (delivered_well i.validation_ran i.validation_ok i.output_delivered
                    && not (ltb (count_distinct (providers_or_default i.adapter_providers)) 2))))
  unfolding any_critical_violations run_constitutional_checks
  any_critical_violations-run i =
      rw
        (
          violates_completeness i.interaction_count (length i.epack_chain),
          violates_chain i.epack_chain,
          any-append violates (manifest_results fl c i.epack_payload) (
              check_validation_before_delivery i.validation_ran i.validation_ok i.output_delivered
              ∷ check_vendor_neutrality (providers_or_default i.adapter_providers)
              ∷ []),
          manifest_harmless i.epack_payload,
          violates_delivery i.validation_ran i.validation_ok i.output_delivered,
          violates_neutrality (providers_or_default i.adapter_providers),
        )
        (ground arith)
