-- ===== src/Validation/Schema.antt =====
-- `validate_json_schema` of src/ecosphere/validation/validators.py, and the outputs that it accepts.
use beaconwise_tek.Base.{
  ℕ, ◌+◌, ◌≡◌, refl, ap, ◌∙◌, subst, ◌≢◌, ◌⊎◌, inl, inr, true, List, [], ◌∷◌, ◌++◌, arith, Text,
  codes, truthy, all,
}
use beaconwise_tek.Json.{Json, Items, Fields, null, str, arr, obj, nil, cons, value, keys}
use beaconwise_tek.Kernel.Gates.{contains_text}
use beaconwise_tek.Kernel.Patterns.{strip}
use beaconwise_tek.Kernel.Revisions.{decimal}
use beaconwise_tek.Validation.Checked.{
  Checked, passed, refused, raised, Loaded, parsed, malformed, Python, then_check, require, foreign,
  is_nil, is_filled, is_note, then_check-passed, require-passed, is_nil→eq, foreign-none,
  is_filled→text, is_note→text,
}
use beaconwise_tek.Validation.Citations.{
  check_citation_value, check_citations, validate_citations, AllCitations, IsCitation,
  check_citation-IsCitation,
}

unfoldable pub allowed_keys : List Text
allowed_keys = codes "text" ∷ codes "disclosure" ∷ codes "citations" ∷ codes "assumptions" ∷ []

unfoldable pub check_assumption_items : ℕ → Items → Checked
unfolding decimal
check_assumption_items i nil = passed
check_assumption_items i (cons (str s) js) = check_assumption_items (i + 1) js
check_assumption_items i (cons _ js) =
    refused (codes "assumptions_" ++ decimal i ++ codes "_not_string")

-- The check of `obj.get("assumptions")`
unfoldable pub check_assumptions : Json → Checked
check_assumptions null = passed
check_assumptions (arr js) = check_assumption_items 0 js
check_assumptions _ = refused (codes "assumptions_not_list")

-- The checks of a dict, in their order.
unfoldable pub check_output : Python → Fields → Checked
check_output py d =
    let extra : List Text = foreign allowed_keys (keys d) in
    then_check (require (is_nil extra) (codes "extra_keys:" ++ py.show_list extra)) (
      then_check (require (is_filled (value (codes "text") d)) (codes "missing_or_empty_text")) (
        then_check
          (require (is_note (value (codes "disclosure") d)) (codes "disclosure_not_string"))
          (then_check (check_assumptions (value (codes "assumptions") d))
            (validate_citations py (value (codes "citations") d)))))

-- The dict, the reason, or the TypeError.
pub data Schema : Type 0 where
  accepted : Fields → Schema
  rejected : Text → Schema
  crashed : Schema

unfoldable pub judged : Fields → Checked → Schema
judged d passed = accepted d
judged d (refused reason) = rejected reason
judged d raised = crashed

unfoldable pub judged_value : Python → Json → Schema
unfolding judged check_output
judged_value py (obj d) = judged d (check_output py d)
judged_value py _ = rejected (codes "not_object")

unfoldable pub validate_json_schema : Python → Text → Schema
unfolding judged_value
validate_json_schema py raw = elim (py.loads raw) [
  | malformed message ↦ rejected (codes "json_error:" ++ message)
  | parsed j ↦ judged_value py j
]

-- Every value of a list is a string.
pub AllStrings : Items → Type 0
AllStrings nil = Unit {0}
AllStrings (cons j js) = ((s : Text) × (j ≡ str s)) × AllStrings js

-- An output that the schema describes.
pub record IsOutput (d : Fields) : Type 0 where
  pub closed : all (λ k. contains_text k allowed_keys) (keys d) ≡ true
  pub text : (s : Text) × (value (codes "text") d ≡ str s) × (truthy (strip s) ≡ true)
  pub disclosure :
      (value (codes "disclosure") d ≡ null) ⊎ ((s : Text) × (value (codes "disclosure") d ≡ str s))
  pub assumptions :
      (value (codes "assumptions") d ≡ null)
      ⊎ ((js : Items) × (value (codes "assumptions") d ≡ arr js) × AllStrings js)
  pub citations :
      (value (codes "citations") d ≡ null)
      ⊎ ((cs : Items) × (value (codes "citations") d ≡ arr cs) × AllCitations cs)

items-AllStrings : (i : ℕ) (js : Items) → check_assumption_items i js ≡ passed → AllStrings js
unfolding check_assumption_items AllStrings
items-AllStrings i nil e = tt
items-AllStrings i (cons (str s) js) e = ((s, refl), items-AllStrings (i + 1) js e)
items-AllStrings i (cons _ js) e = ground arith

assumptions-passed :
    (v : Json)
    → check_assumptions v ≡ passed
    → (v ≡ null) ⊎ ((js : Items) × (v ≡ arr js) × AllStrings js)
unfolding check_assumptions
assumptions-passed null e = inl refl
assumptions-passed (arr js) e = inr (js, refl, items-AllStrings 0 js e)
assumptions-passed _ e = ground arith

value-IsCitation :
    (py : Python) (i : ℕ) (v : Json)
    → check_citation_value py i v ≡ passed
    → (c : Fields) × (v ≡ obj c) × IsCitation c
unfolding check_citation_value
value-IsCitation py i (obj c) e = (c, refl, check_citation-IsCitation py i c e)
value-IsCitation py i _ e = ground arith

citations-AllCitations :
    (py : Python) (i : ℕ) (cs : Items) → check_citations py i cs ≡ passed → AllCitations cs
unfolding check_citations AllCitations
citations-AllCitations py i nil e = tt
citations-AllCitations py i (cons c cs) e =
    let (one, rest) = then_check-passed _ _ e in
    (value-IsCitation py i c one, citations-AllCitations py (i + 1) cs rest)

citations-passed :
    (py : Python) (v : Json)
    → validate_citations py v ≡ passed
    → (v ≡ null) ⊎ ((cs : Items) × (v ≡ arr cs) × AllCitations cs)
unfolding validate_citations
citations-passed py null e = inl refl
citations-passed py (arr cs) e = inr (cs, refl, citations-AllCitations py 0 cs e)
citations-passed py _ e = ground arith

pub check_output-IsOutput : (py : Python) (d : Fields) → check_output py d ≡ passed → IsOutput d
unfolding check_output
check_output-IsOutput py d e =
    let (extra, e) = then_check-passed _ _ e in
    let (text, e) = then_check-passed _ _ e in
    let (disclosure, e) = then_check-passed _ _ e in
    let (assumptions, citations) = then_check-passed _ _ e in
    record {
      closed = foreign-none allowed_keys (keys d) (is_nil→eq _ (require-passed _ _ extra));
      text = is_filled→text _ (require-passed _ _ text);
      disclosure = is_note→text _ (require-passed _ _ disclosure);
      assumptions = assumptions-passed _ assumptions;
      citations = citations-passed py _ citations;
    }

judged-accepted : (d d' : Fields) (r : Checked) → judged d r ≡ accepted d' → (d ≡ d') × (r ≡ passed)
unfolding judged
judged-accepted d d' passed e = ground arith
judged-accepted d d' (refused reason) e = ground arith
judged-accepted d d' raised e = ground arith

judged_value-IsOutput :
    (py : Python) (j : Json) (d : Fields)
    → judged_value py j ≡ accepted d
    → (j ≡ obj d) × IsOutput d
unfolding judged_value
judged_value-IsOutput py (obj c) d e =
    let (same, ok) = judged-accepted c d (check_output py c) e in
    (ap obj same, subst IsOutput same (check_output-IsOutput py c ok))
judged_value-IsOutput py _ d e = ground arith

loaded_cases : (l : Loaded) → ((j : Json) × (l ≡ parsed j)) ⊎ ((m : Text) × (l ≡ malformed m))
loaded_cases (parsed j) = inl (j, refl)
loaded_cases (malformed m) = inr (m, refl)

accepted≢rejected : (d : Fields) (reason : Text) → rejected reason ≢ accepted d
accepted≢rejected d reason e = ground arith

-- What `validate_json_schema` accepts is the dict that the raw text parses to, and it has the form
-- that the schema describes, its citations included.
pub validate_json_schema-IsOutput :
    (py : Python) (raw : Text) (d : Fields)
    → validate_json_schema py raw ≡ accepted d
    → (py.loads raw ≡ parsed (obj d)) × IsOutput d
unfolding validate_json_schema
validate_json_schema-IsOutput py raw d e = elim (loaded_cases (py.loads raw)) [
  | inl (j, at) ↦
      let (same, ok) = judged_value-IsOutput py j d (rw (at, validate_json_schema) at e) in
      (at ∙ ap parsed same, ok)
  | inr (message, at) ↦ absurd (accepted≢rejected d _ (rw (at, validate_json_schema) at e))
]
