-- ===== src/Kernel/Gates.antt =====
-- src/ecosphere/kernel/gates.py: a question that waits for the user's confirmation or approval.
pub mod Pending
pub mod Handle
pub mod Outcome
pub mod Consent
pub mod Nonces
pub mod Audit
pub mod Effect
pub mod Binding
use beaconwise_tek.Base.{
  ℕ, Bool, true, false, ◌||◌, Option, none, some, List, [], ◌∷◌, if◌then◌else◌, Text, codes,
  text_eq, truthy,
}
use beaconwise_tek.Json.{Json, Fields, str, end, field}
use beaconwise_tek.Kernel.Session.{Profile, a_fast, a_standard, a_high_assurance}
use beaconwise_tek.Kernel.Patterns.{
  lower, strip, has_word, search_word, token_at, digits_at, first_some, found, to_int, cut_token,
  cut_assent,
}

-- The argument `kind`.
pub data Kind : Type 0 where
  confirm approve : Kind

unfoldable pub kind_text : Kind → Text
kind_text confirm = codes "confirm"
kind_text approve = codes "approve"

pub data BindingStatus : Type 0 where
  rejected bound_ok token_mismatch missing_token unbound_ok unknown : BindingStatus

unfoldable pub timeout_for_profile : Profile → ℕ
timeout_for_profile a_fast = 2
timeout_for_profile a_standard = 3
timeout_for_profile a_high_assurance = 5

unfoldable pub require_binding_for_profile : Profile → Bool
require_binding_for_profile a_high_assurance = true
require_binding_for_profile _ = false

-- `CONFIRM_YES` and `APPROVE_YES`
unfoldable pub accepts : Kind → Text → Bool
accepts confirm t =
    has_word
      (codes "yes"
        ∷ codes "yep"
        ∷ codes "yeah"
        ∷ codes "correct"
        ∷ codes "confirmed"
        ∷ codes "confirm"
        ∷ codes "sounds good"
        ∷ codes "that works"
        ∷ [])
      t
accepts approve t =
    has_word
      (codes "approve"
        ∷ codes "approved"
        ∷ codes "go ahead"
        ∷ codes "proceed"
        ∷ codes "greenlight"
        ∷ codes "ok to proceed"
        ∷ [])
      t

-- `CONFIRM_NO` and `APPROVE_NO`
unfoldable pub rejects : Kind → Text → Bool
rejects confirm t =
    has_word
      (codes "no"
        ∷ codes "nope"
        ∷ codes "incorrect"
        ∷ codes "not that"
        ∷ codes "revise"
        ∷ codes "change"
        ∷ [])
      t
rejects approve t =
    has_word
      (codes "reject"
        ∷ codes "not approved"
        ∷ codes "don't proceed"
        ∷ codes "revise plan"
        ∷ codes "change plan"
        ∷ [])
      t

unfoldable pub extract_token : Text → Kind → Text
extract_token text kind =
    elim (search_word (token_at (kind_text kind)) false (lower (strip text))) [
      | none ↦ []
      | some token ↦ lower token
    ]

-- Accepted or not, the status, and the token that was given.
unfoldable pub binding_decision : Text → Text → Bool → Kind → Bool × BindingStatus × Text
binding_decision user_text expected_token require kind =
    let t = lower (strip user_text) in
    let provided = extract_token user_text kind in
    if rejects kind t
    then (false, rejected, [])
    else if truthy provided
    then (if text_eq provided expected_token
        then (true, bound_ok, provided)
        else (false, token_mismatch, provided))
    else if require
    then (if accepts kind t then (false, missing_token, []) else (false, unknown, []))
    else if accepts kind t
    then (true, unbound_ok, [])
    else (false, unknown, [])

unfoldable pub has_revision_intent : Text → Bool
has_revision_intent text =
    let t = lower text in
    has_word
      (codes "but"
        ∷ codes "except"
        ∷ codes "however"
        ∷ codes "change"
        ∷ codes "revise"
        ∷ codes "modify"
        ∷ codes "adjust"
        ∷ codes "instead"
        ∷ codes "swap"
        ∷ codes "replace"
        ∷ codes "add"
        ∷ codes "remove"
        ∷ codes "omit"
        ∷ [])
      t
    || (found (search_word (digits_at (codes "step")) false t)
        || found (search_word (digits_at (codes "phase")) false t))

-- The step that is named, and the text without its leading assent.
unfoldable pub parse_revision : Text → Option ℕ × Text
parse_revision user_text =
    let step_ref : Text → Option Text =
      λ s. first_some (digits_at (codes "step") s ∷ digits_at (codes "phase") s ∷ []) in
    (
      elim (search_word step_ref false user_text) [ none ↦ none | some ds ↦ some (to_int 0 ds) ],
      strip (cut_assent (cut_token user_text)),
    )

-- The argument `reason`.
pub data ClearReason : Type 0 where
  reset confirmed : ClearReason

unfoldable pub contains_text : Text → List Text → Bool
contains_text t [] = false
contains_text t (x ∷ xs) = text_eq x t || contains_text t xs

-- The third component of the reply of `handle_pending_gate`.
pub data GateMeta : Type 0 where
  no_meta timeout revision replay was_rejected mismatch token_missing unclear : GateMeta
  cleared_reflect cleared_scaffold : BindingStatus → GateMeta

unfoldable pub status_text : BindingStatus → Text
status_text rejected = codes "rejected"
status_text bound_ok = codes "bound_ok"
status_text token_mismatch = codes "token_mismatch"
status_text missing_token = codes "missing_token"
status_text unbound_ok = codes "unbound_ok"
status_text unknown = codes "unknown"

unfoldable pub gate_meta_fields : GateMeta → Fields
gate_meta_fields no_meta = end
gate_meta_fields timeout = field (codes "timeout") (Json.bool true) end
gate_meta_fields revision = field (codes "revision") (Json.bool true) end
gate_meta_fields replay = field (codes "replay") (Json.bool true) end
gate_meta_fields was_rejected = field (codes "rejected") (Json.bool true) end
gate_meta_fields mismatch = field (codes "mismatch") (Json.bool true) end
gate_meta_fields token_missing = field (codes "missing_token") (Json.bool true) end
gate_meta_fields unclear = field (codes "unknown") (Json.bool true) end
gate_meta_fields (cleared_reflect s) =
    field (codes "gate_cleared") (str (codes "reflect"))
      (field (codes "binding_status") (str (status_text s)) end)
gate_meta_fields (cleared_scaffold s) =
    field (codes "gate_cleared") (str (codes "scaffold"))
      (field (codes "binding_status") (str (status_text s)) end)
