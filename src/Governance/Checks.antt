-- ===== src/Governance/Checks.antt =====
-- src/ecosphere/governance/constitution.py: the checks of the invariants. The fields `timestamp` and
-- `details` of a result, which are only reported, are left out.
pub mod Verdict
pub mod Turns
use beaconwise_tek.Base.{
  ℕ, zero, suc, ◌+◌, ◌-◌, ◌*◌, ◌≤◌, ◌<◌, String, ◌≡◌, refl, sym, ap, ◌∙◌, subst, ◌≢◌, ◌↔◌, ◌⊎◌, inl,
  inr, Bool, true, false, not, ◌&&◌, ◌||◌, Option, none, some, List, [], ◌∷◌, ◌++◌, map,
  append_assoc, append-nil, arith, ltb, leb, ◌==◌, if◌then◌else◌, ltb→lt, lt→ltb, leb→le, le→leb,
  ==→eq, eq→==, Bool-cases, and_true, Option-cases, Text, codes, text_eq, text_lt, text_eq→eq,
  text_eq_refl, eq→text_eq, truthy, length, take, drop, take_last, any, all, length-append,
}
use beaconwise_tek.Float.{Floats}
use beaconwise_tek.Json.{
  Json, Items, Fields, null, str, arr, obj, nil, cons, end, field, value, has_key,
}
use beaconwise_tek.Stable.{Crypto, stable_hash}
use beaconwise_tek.Kernel.Gates.{contains_text}
use beaconwise_tek.Kernel.Revisions.{decimal}
use beaconwise_tek.Kernel.Session.{Epack}
use beaconwise_tek.Governance.Proof.{audited_core, hash_ok}
use beaconwise_tek.Governance.Constitution.{constitution, critical_ids}

pub record CheckResult : Type 0 where
  pub invariant_id : Text
  pub passed : Bool
  pub message : Text

unfoldable pub check_result : Text → Bool → Text → CheckResult
check_result id ok message = record { invariant_id = id; passed = ok; message = message }

unfoldable pub check_audit_completeness : ℕ → ℕ → CheckResult
unfolding check_result decimal
check_audit_completeness interaction_count epack_count =
    let ok : Bool = leb interaction_count epack_count in
    check_result (codes "INV-TRA-001") ok (
      if ok
      then codes "OK"
      else codes "Missing EPACKs: "
        ++ decimal interaction_count
        ++ codes " interactions but only "
        ++ decimal epack_count
        ++ codes " records")

-- `build_manifest` of a payload; the kernel stores nothing but a dict there
unfoldable pub manifest_fields : Json → Fields
manifest_fields (obj fs) = fs
manifest_fields _ = end

unfoldable pub manifest_verdict : Fields → CheckResult
unfolding check_result
manifest_verdict end =
    check_result (codes "INV-AUD-002") false (codes "Missing build_manifest in EPACK payload")
manifest_verdict (field k v fs) =
    if has_key (codes "manifest_hash") (field k v fs)
    then check_result (codes "INV-AUD-002") true (codes "OK")
    else check_result (codes "INV-AUD-002") false (codes "Build manifest missing manifest_hash")

unfoldable pub check_provenance_manifest : Fields → CheckResult
unfolding manifest_verdict manifest_fields
check_provenance_manifest payload =
    manifest_verdict (manifest_fields (value (codes "build_manifest") payload))

-- `validation_ok is False`
unfoldable pub is_false : Option Bool → Bool
is_false none = false
is_false (some b) = not b

unfoldable pub check_validation_before_delivery : Bool → Option Bool → Bool → CheckResult
unfolding check_result is_false
check_validation_before_delivery validation_ran validation_ok output_delivered =
    if output_delivered && not validation_ran
    then check_result (codes "INV-SAF-001") false (codes "Output delivered without validation")
    else if output_delivered && is_false validation_ok
    then check_result (codes "INV-SAF-001") false (codes "Failed validation output was delivered")
    else check_result (codes "INV-SAF-001") true (codes "OK")

-- `len(set(xs))`
unfoldable pub count_distinct : List Text → ℕ
count_distinct [] = 0
count_distinct (x ∷ xs) =
    let rest = count_distinct xs in if contains_text x xs then rest else rest + 1

unfoldable pub check_vendor_neutrality : List Text → CheckResult
unfolding check_result decimal
check_vendor_neutrality adapter_providers =
    let n : ℕ = count_distinct adapter_providers in
    if ltb n 2
    then check_result (codes "INV-CAP-001") false
        (codes "Only " ++ decimal n ++ codes " adapter provider(s) registered; minimum 2 required")
    else check_result (codes "INV-CAP-001") true
        (codes "OK: " ++ decimal n ++ codes " providers registered")

-- `adapter_providers or ["anthropic", "openai", "mock"]`
unfoldable pub providers_or_default : List Text → List Text
providers_or_default [] = codes "anthropic" ∷ codes "openai" ∷ codes "mock" ∷ []
providers_or_default (x ∷ xs) = x ∷ xs

-- Is a critical invariant violated?
unfoldable pub any_critical_violations : List CheckResult → Bool
any_critical_violations rs =
    any (λ r. not r.passed && contains_text r.invariant_id (critical_ids constitution)) rs

module _ (fl : Floats) (c : Crypto) where
  unfoldable pub chain_verdict : Bool → Text → CheckResult
  unfolding check_result
  chain_verdict ok message = check_result (codes "INV-AUD-001") ok message

  unfoldable pub mismatch_at : Epack fl → CheckResult
  unfolding chain_verdict decimal
  mismatch_at r = chain_verdict false (codes "Hash mismatch at seq=" ++ decimal r.seq)

  unfoldable pub broken_at : Epack fl → CheckResult
  unfolding chain_verdict decimal
  broken_at r = chain_verdict false (codes "Chain link broken at seq=" ++ decimal r.seq)

  -- The loop behind a record `p`, with the message of its end.
  unfoldable pub check_links : Text → Epack fl → List (Epack fl) → CheckResult
  unfolding chain_verdict mismatch_at broken_at
  check_links verified p [] = chain_verdict true verified
  check_links verified p (r ∷ rs) =
      let rest = check_links verified r rs in
      if not (hash_ok fl c r)
      then mismatch_at r
      else if not (text_eq r.prev_hash p.hash)
      then broken_at r
      else rest

  unfoldable pub check_hash_chain_integrity : List (Epack fl) → CheckResult
  unfolding chain_verdict mismatch_at decimal
  check_hash_chain_integrity [] = chain_verdict true (codes "Empty chain (trivially valid)")
  check_hash_chain_integrity (r ∷ rs) =
      let verified : Text =
        codes "Chain verified: " ++ decimal (length (r ∷ rs)) ++ codes " records" in
      if not (hash_ok fl c r) then mismatch_at r else check_links verified r rs

  -- The keyword arguments of `run_constitutional_checks`
  pub record CheckInput : Type 0 where
    pub interaction_count : ℕ
    pub epack_chain : List (Epack fl)
    -- a payload that is absent counts as an empty one
    pub epack_payload : Fields
    pub validation_ran : Bool
    pub validation_ok : Option Bool
    pub output_delivered : Bool
    pub adapter_providers : List Text

  -- The check of the manifest, where there is a payload.
  unfoldable pub manifest_results : Fields → List CheckResult
  manifest_results end = []
  manifest_results (field k v fs) = check_provenance_manifest (field k v fs) ∷ []

  unfoldable pub run_constitutional_checks : CheckInput → List CheckResult
  run_constitutional_checks i =
      check_audit_completeness i.interaction_count (length i.epack_chain)
      ∷ check_hash_chain_integrity i.epack_chain
      ∷ (manifest_results i.epack_payload
          ++ check_validation_before_delivery i.validation_ran i.validation_ok i.output_delivered
            ∷ check_vendor_neutrality (providers_or_default i.adapter_providers)
            ∷ [])
