-- ===== src/Validation/Accepted.antt =====
-- What it takes that every attempt at an output succeeds, and what that means for the kernel.
use beaconwise_tek.Base.{
  ◌≡◌, refl, ◌⊎◌, inl, inr, Bool, true, false, ◌&&◌, some, List, arith, Bool-cases, Text, codes,
  text_eq→eq, all,
}
use beaconwise_tek.Float.{Floats}
use beaconwise_tek.Json.{Fields, obj, value}
use beaconwise_tek.Stable.{Crypto}
use beaconwise_tek.Validation.Checked.{ValidationAttempt, parsed, Python}
use beaconwise_tek.Validation.Schema.{
  Schema, accepted, rejected, crashed, validate_json_schema, IsOutput,
  validate_json_schema-IsOutput,
}
use beaconwise_tek.Validation.Regions.{protected_regions_hash, claims_evidence}
use beaconwise_tek.Validation.Attempts.{
  text_of, cites_something, attempt_of, align_score, later_attempts, content_attempts, attempts_for,
  validate_output,
}

module _ (fl : Floats) (c : Crypto) (py : Python) (require_evidence : Bool) where
  -- The dict of a raw text that stands for a well-formed answer to a user's text.
  pub record IsAccepted (user_text : Text) (raw : Text) (threshold : fl.F) : Type 0 where
    pub dict : Fields
    pub parses : py.loads raw ≡ parsed (obj dict)
    pub described : IsOutput dict
    -- a text that claims evidence comes with citations, if the setting asks for it
    pub cited :
        ((require_evidence && claims_evidence (text_of dict)) ≡ false)
        ⊎ (cites_something (value (codes "citations") dict) ≡ true)
    pub aligned : fl.le threshold (align_score fl user_text) ≡ true
    -- the protected regions of the user's text are those of the answer, by their hash
    pub kept : protected_regions_hash c user_text ≡ protected_regions_hash c (text_of dict)

  content-cited :
      (user_text : Text) (d : Fields) (threshold : fl.F)
      → all (λ a. a.ok) (content_attempts fl c py require_evidence user_text d threshold) ≡ true
      → (((require_evidence && claims_evidence (text_of d)) ≡ false)
          ⊎ (cites_something (value (codes "citations") d) ≡ true))
        × (all (λ a. a.ok) (later_attempts fl c py require_evidence user_text d threshold) ≡ true)
  unfolding content_attempts attempt_of
  content-cited user_text d threshold e =
      elim (Bool-cases (require_evidence && claims_evidence (text_of d))) [
        | inr free ↦ (inl free, rw free at e)
        | inl claimed ↦ elim (Bool-cases (cites_something (value (codes "citations") d))) [
          | inl cited ↦ (inr cited, rw (claimed, cited) at e)
          | inr bare ↦ ground (arith, (rw (claimed, bare) at e))
        ]
      ]

  later-kept :
      (user_text : Text) (d : Fields) (threshold : fl.F)
      → all (λ a. a.ok) (later_attempts fl c py require_evidence user_text d threshold) ≡ true
      → (fl.le threshold (align_score fl user_text) ≡ true)
        × (protected_regions_hash c user_text ≡ protected_regions_hash c (text_of d))
  unfolding later_attempts attempt_of
  later-kept user_text d threshold e = ground (
    arith,
    text_eq→eq (protected_regions_hash c user_text) (protected_regions_hash c (text_of d)),
  )

  attempts-IsAccepted :
      (user_text raw : Text) (threshold : fl.F) (vs : List (ValidationAttempt fl)) (r : Schema)
      → validate_json_schema py raw ≡ r
      → attempts_for fl c py require_evidence user_text threshold r ≡ some vs
      → all (λ a. a.ok) vs ≡ true
      → IsAccepted user_text raw threshold
  unfolding attempts_for attempt_of
  attempts-IsAccepted user_text raw threshold vs crashed at e ok = ground arith
  attempts-IsAccepted user_text raw threshold vs (rejected m) at e ok = ground arith
  attempts-IsAccepted user_text raw threshold vs (accepted d) at e ok =
      let (parses, described) = validate_json_schema-IsOutput py raw d at in
      let (cited, later) = content-cited user_text d threshold (ground arith) in
      let (aligned, kept) = later-kept user_text d threshold later in
      record {
        dict = d;
        parses = parses;
        described = described;
        cited = cited;
        aligned = aligned;
        kept = kept;
      }

  -- An output all of whose attempts succeed parses to a dict that the schema describes, carries
  -- citations if its text claims evidence and the setting asks for them, comes with an alignment
  -- score of at least the threshold, and has the protected regions of the user's text.
  pub validate_output-IsAccepted :
      (user_text raw : Text) (threshold : fl.F) (vs : List (ValidationAttempt fl))
      → validate_output fl c py require_evidence user_text raw threshold ≡ some vs
      → all (λ a. a.ok) vs ≡ true
      → IsAccepted user_text raw threshold
  unfolding validate_output
  validate_output-IsAccepted user_text raw threshold vs e ok =
      attempts-IsAccepted user_text raw threshold vs (validate_json_schema py raw) refl e ok
