-- ===== src/Governance/Constitution.antt =====
-- src/ecosphere/governance/constitution.py: the invariants that the governance declares.
use beaconwise_tek.Base.{Bool, true, false, List, [], ◌∷◌, if◌then◌else◌, Text, codes}
use beaconwise_tek.Json.{Json, Items, str, arr, obj, nil, cons, end, field}
use beaconwise_tek.Stable.{Crypto, stable_hash}

pub data Severity : Type 0 where
  critical warning advisory : Severity

pub data Invariant : Type 0 where
  -- id, name, description, severity, name of the check, category
  invariant : Text → Text → Text → Severity → Text → Text → Invariant

unfoldable pub severity_text : Severity → Text
severity_text critical = codes "critical"
severity_text warning = codes "warning"
severity_text advisory = codes "advisory"

unfoldable pub constitution : List Invariant
constitution =
    invariant (codes "INV-DET-001") (codes "Deterministic Routing")
      (codes
        "All routing decisions must be pure functions of their inputs. Given the same InputVector and SessionState, the same route must be chosen.")
      critical (codes "check_deterministic_routing") (codes "determinism")
    ∷ invariant (codes "INV-DET-002") (codes "No Hidden State")
        (codes
          "No governance decision may depend on state not captured in the EPACK chain. All decision-relevant state must be auditable.")
        critical (codes "check_no_hidden_state") (codes "determinism")
    ∷ invariant (codes "INV-TRA-001") (codes "Audit Chain Completeness")
        (codes
          "Every governed interaction must produce an EPACK record. No interaction may bypass the audit chain.")
        critical (codes "check_audit_completeness") (codes "transparency")
    ∷ invariant (codes "INV-TRA-002") (codes "Failure Transparency")
        (codes
          "When governance cannot determine safety, uncertainty must be explicitly signaled. Silent fallback is prohibited.")
        critical (codes "check_failure_transparency") (codes "transparency")
    ∷ invariant (codes "INV-TRA-003") (codes "Non-Persuasion")
        (codes
          "BeaconWise must not optimize for persuasion, engagement, or behavioral influence. Any output-influencing capability must include corresponding transparency and user override controls.")
        critical (codes "check_non_persuasion") (codes "transparency")
    ∷ invariant (codes "INV-AUD-001") (codes "Hash Chain Integrity")
        (codes
          "EPACK records must form a tamper-evident hash chain. Each record's prev_hash must equal the prior record's hash.")
        critical (codes "check_hash_chain_integrity") (codes "audit")
    ∷ invariant (codes "INV-AUD-002") (codes "Provenance Manifests")
        (codes
          "Every EPACK record must include a build manifest with kernel version and feature flags, sealed with a manifest hash.")
        warning (codes "check_provenance_manifest") (codes "audit")
    ∷ invariant (codes "INV-CAP-001") (codes "Vendor Neutrality")
        (codes
          "No single AI provider, cloud platform, or organization may gain privileged governance control. Adapters must be provider-agnostic.")
        critical (codes "check_vendor_neutrality") (codes "anti-capture")
    ∷ invariant (codes "INV-CAP-002") (codes "Fork Continuity")
        (codes
          "Audit chains must survive forks. Any fork of BeaconWise must preserve the existing audit chain and governance proofs.")
        warning (codes "check_fork_continuity") (codes "anti-capture")
    ∷ invariant (codes "INV-CAP-003") (codes "Configuration Transparency")
        (codes
          "All governance configuration changes must produce audit events. No silent reconfiguration is permitted.")
        critical (codes "check_config_transparency") (codes "anti-capture")
    ∷ invariant (codes "INV-SAF-001") (codes "Validation Before Delivery")
        (codes
          "No model output may reach the user without validation. Validation failure must result in CLARIFY or REFUSE, never passthrough.")
        critical (codes "check_validation_before_delivery") (codes "safety")
    ∷ invariant (codes "INV-SAF-002") (codes "Human Override Preservation")
        (codes
          "Governance infrastructure must augment human judgment, not replace it. Meaningful human override capability must always be preserved.")
        critical (codes "check_human_override") (codes "safety")
    ∷ invariant (codes "INV-EVO-001") (codes "Backward Compatibility")
        (codes
          "Upgrades must preserve backward compatibility of audit formats, governance proofs, and interoperability schemas wherever feasible.")
        warning (codes "check_backward_compatibility") (codes "evolution")
    ∷ []

unfoldable pub invariant_json : Invariant → Json
unfolding severity_text
invariant_json (invariant id name description severity check category) = obj (
    field (codes "id") (str id) (
      field (codes "name") (str name) (
        field (codes "description") (str description) (
          field (codes "severity") (str (severity_text severity)) (
            field (codes "check_fn_name") (str check)
              (field (codes "category") (str category) end))))))

unfoldable pub invariant_items : List Invariant → Items
unfolding invariant_json
invariant_items [] = nil
invariant_items (i ∷ is) = cons (invariant_json i) (invariant_items is)

unfoldable pub get_constitution : Json
unfolding invariant_items
get_constitution = arr (invariant_items constitution)

unfoldable pub get_constitution_hash : Crypto → Text
get_constitution_hash c = stable_hash c get_constitution

unfoldable pub is_critical : Severity → Bool
is_critical critical = true
is_critical _ = false

-- `{inv.id for inv in CONSTITUTION if inv.severity == "critical"}`
unfoldable pub critical_ids : List Invariant → List Text
unfolding is_critical
critical_ids [] = []
critical_ids (invariant id name description severity check category ∷ is) =
    let rest = critical_ids is in if is_critical severity then id ∷ rest else rest
