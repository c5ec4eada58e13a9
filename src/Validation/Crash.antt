-- ===== src/Validation/Crash.antt =====
-- Generated outputs on which src/ecosphere/validation/validators.py raises: a value that is not
-- hashable where a set of strings is searched.
use beaconwise_tek.Base.{ℕ, ◌≡◌, refl, ap, Bool, true, none, [], Text, codes}
use beaconwise_tek.Float.{Floats}
use beaconwise_tek.Json.{Json, Items, Fields, arr, obj, cons, value, keys}
use beaconwise_tek.Stable.{Crypto}
use beaconwise_tek.Validation.Checked.{
  passed, raised, parsed, Python, then_check, require, member, is_nil, absent, foreign, is_filled,
  is_note,
}
use beaconwise_tek.Validation.Citations.{
  required_fields, citation_fields, is_year, check_citation, check_citation_value, check_citations,
  validate_citations,
}
use beaconwise_tek.Validation.Schema.{
  crashed, allowed_keys, check_assumptions, check_output, judged, judged_value,
  validate_json_schema,
}
use beaconwise_tek.Validation.Attempts.{attempts_for, validate_output}

-- A citation that is fine up to its source type, which is a list.
pub record HasListedType (c : Fields) : Type 0 where
  pub complete : absent required_fields (keys c) ≡ []
  pub closed : foreign citation_fields (keys c) ≡ []
  pub title : is_filled (value (codes "title") c) ≡ true
  pub authors : is_filled (value (codes "authors_or_org") c) ≡ true
  pub year : is_year (value (codes "year") c) ≡ true
  pub kinds : Items
  pub listed : value (codes "source_type") c ≡ arr kinds

-- A dict that is fine up to its citations.
pub record FinePrefix (d : Fields) : Type 0 where
  pub closed : foreign allowed_keys (keys d) ≡ []
  pub text : is_filled (value (codes "text") d) ≡ true
  pub disclosure : is_note (value (codes "disclosure") d) ≡ true
  pub assumptions : check_assumptions (value (codes "assumptions") d) ≡ passed

check_citation-raises :
    (py : Python) (i : ℕ) (c : Fields) → HasListedType c → check_citation py i c ≡ raised
unfolding check_citation then_check require member is_nil
check_citation-raises py i c bad =
    rw (bad.complete, bad.closed, bad.title, bad.authors, bad.year, bad.listed) refl

citations-raise :
    (py : Python) (c : Fields) (cs : Items) (v : Json)
    → HasListedType c
    → v ≡ arr (cons (obj c) cs)
    → validate_citations py v ≡ raised
unfolding validate_citations check_citations check_citation_value then_check
citations-raise py c cs v bad e = rw e (rw (check_citation-raises py 0 c bad) refl)

check_output-raises :
    (py : Python) (d c : Fields) (cs : Items)
    → FinePrefix d
    → HasListedType c
    → value (codes "citations") d ≡ arr (cons (obj c) cs)
    → check_output py d ≡ raised
unfolding check_output then_check require is_nil
check_output-raises py d c cs fine bad e =
    rw
      (
        fine.closed,
        fine.text,
        fine.disclosure,
        fine.assumptions,
        citations-raise py c cs (value (codes "citations") d) bad e,
      )
      refl

schema-crashes :
    (py : Python) (raw : Text) (d c : Fields) (cs : Items)
    → py.loads raw ≡ parsed (obj d)
    → FinePrefix d
    → HasListedType c
    → value (codes "citations") d ≡ arr (cons (obj c) cs)
    → validate_json_schema py raw ≡ crashed
unfolding judged_value judged validate_json_schema
schema-crashes py raw d c cs loads fine bad e =
    rw (loads, validate_json_schema) (rw (check_output-raises py d c cs fine bad e) refl)

-- A model output whose first citation has a list as its source type, and is fine otherwise, makes
-- `validate_output` raise a TypeError, for every user's text and threshold: the file catches
-- nothing but JSONDecodeError.
pub validate_output-raises :
    (fl : Floats) (k : Crypto) (py : Python) (require_evidence : Bool) (user_text raw : Text)
    (threshold : fl.F) (d c : Fields) (cs : Items)
    → py.loads raw ≡ parsed (obj d)
    → FinePrefix d
    → HasListedType c
    → value (codes "citations") d ≡ arr (cons (obj c) cs)
    → validate_output fl k py require_evidence user_text raw threshold ≡ none
unfolding validate_output attempts_for
validate_output-raises fl k py require_evidence user_text raw threshold d c cs loads fine bad e =
    ap (attempts_for fl k py require_evidence user_text threshold)
      (schema-crashes py raw d c cs loads fine bad e)
