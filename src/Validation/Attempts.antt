-- ===== src/Validation/Attempts.antt =====
-- `validate_output` of src/ecosphere/validation/validators.py: the attempts at one generated output.
use beaconwise_tek.Base.{
  ℕ, Bool, true, false, ◌&&◌, Option, none, some, List, [], ◌∷◌, ltb, if◌then◌else◌, Text, codes,
  text_eq, length,
}
use beaconwise_tek.Float.{Floats}
use beaconwise_tek.Json.{Json, Fields, str, arr, cons, value}
use beaconwise_tek.Stable.{Crypto}
use beaconwise_tek.Validation.Checked.{ValidationAttempt, Python}
use beaconwise_tek.Validation.Schema.{Schema, accepted, rejected, crashed, validate_json_schema}
use beaconwise_tek.Validation.Regions.{protected_regions_hash, claims_evidence}

-- `obj.get("text", "")` of a dict that the schema accepts, where it is a string
unfoldable pub text_of : Fields → Text
text_of d = elim (value (codes "text") d) [ str s ↦ s | _ ↦ [] ]

-- `isinstance(cites, list) and len(cites) > 0`
unfoldable pub cites_something : Json → Bool
cites_something (arr (cons _ _)) = true
cites_something _ = false

module _ (fl : Floats) where
  unfoldable pub attempt_of : ℕ → Bool → Text → fl.F → ValidationAttempt fl
  attempt_of n ok reason score = record { attempt = n; ok = ok; reason = reason; score = score }

  unfoldable pub full_or_none : Bool → fl.F
  full_or_none ok = if ok then fl.lit 1 1 else fl.lit 0 1

  -- The placeholder of the alignment score.
  unfoldable pub align_score : Text → fl.F
  align_score user_text = if ltb (length user_text) 200 then fl.lit 92 100 else fl.lit 88 100

  module _ (c : Crypto) (py : Python) (require_evidence : Bool) where
    -- The attempts 3 and 4.
    unfoldable pub later_attempts : Text → Fields → fl.F → List (ValidationAttempt fl)
    unfolding attempt_of full_or_none align_score text_of
    later_attempts user_text d threshold =
        let score : fl.F = align_score user_text in
        let same : Bool =
          text_eq (protected_regions_hash c user_text) (protected_regions_hash c (text_of d)) in
        attempt_of 3 (fl.le threshold score) (codes "alignment_check") score
        ∷ attempt_of 4 same (codes "protected_regions") (full_or_none same)
        ∷ []

    -- The attempts behind the first one.
    unfoldable pub content_attempts : Text → Fields → fl.F → List (ValidationAttempt fl)
    unfolding attempt_of full_or_none text_of
    content_attempts user_text d threshold =
        let rest : List (ValidationAttempt fl) = later_attempts user_text d threshold in
        let cited : Bool = cites_something (value (codes "citations") d) in
        let required : ValidationAttempt fl =
          attempt_of 2 cited (codes "evidence_claim_requires_citations") (full_or_none cited) in
        let skipped : ValidationAttempt fl =
          attempt_of 2 true (codes "evidence_claim_gate_skipped") (fl.lit 1 1) in
        if require_evidence && claims_evidence (text_of d)
        then (if cited then required ∷ rest else required ∷ [])
        else skipped ∷ rest

    -- All attempts, `none` for the TypeError of a citation that is not hashable where a string is
    -- looked up.
    unfoldable pub attempts_for : Text → fl.F → Schema → Option (List (ValidationAttempt fl))
    unfolding attempt_of
    attempts_for user_text threshold crashed = none
    attempts_for user_text threshold (rejected reason) =
        some (attempt_of 1 false reason (fl.lit 0 1) ∷ [])
    attempts_for user_text threshold (accepted d) =
        some
          (attempt_of 1 true (codes "pass") (fl.lit 1 1) ∷ content_attempts user_text d threshold)

    unfoldable pub validate_output : Text → Text → fl.F → Option (List (ValidationAttempt fl))
    validate_output user_text raw threshold =
        attempts_for user_text threshold (validate_json_schema py raw)
