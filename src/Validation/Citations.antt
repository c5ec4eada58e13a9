-- ===== src/Validation/Citations.antt =====
-- `_validate_citations` of src/ecosphere/validation/validators.py, and the citations that it lets
-- pass.
use beaconwise_tek.Base.{
  ℕ, ◌+◌, ◌≡◌, ◌⊎◌, Bool, true, false, List, [], ◌∷◌, ◌++◌, Text, codes, text_eq, truthy, all,
}
use beaconwise_tek.Json.{
  Json, Items, Fields, null, bool, num, neg, str, arr, obj, nil, cons, value, keys,
}
use beaconwise_tek.Kernel.Gates.{contains_text}
use beaconwise_tek.Kernel.Patterns.{strip}
use beaconwise_tek.Kernel.Revisions.{decimal}
use beaconwise_tek.Validation.Checked.{
  Checked, passed, refused, Python, then_check, require, member, absent, foreign, is_nil, is_filled,
  is_note, then_check-passed, require-passed, member-passed, is_nil→eq, absent-none, foreign-none,
  is_filled→text, is_note→text,
}

unfoldable pub required_fields : List Text
required_fields =
    codes "authors_or_org"
    ∷ codes "evidence_strength"
    ∷ codes "source_type"
    ∷ codes "title"
    ∷ codes "verification_status"
    ∷ codes "year"
    ∷ []

unfoldable pub citation_fields : List Text
unfolding required_fields
citation_fields = codes "identifier" ∷ codes "notes" ∷ required_fields

unfoldable pub source_types : List Text
source_types =
    codes "randomized_trial"
    ∷ codes "meta_analysis"
    ∷ codes "systematic_review"
    ∷ codes "clinical_guideline"
    ∷ codes "observational_study"
    ∷ codes "technical_standard"
    ∷ codes "institutional_report"
    ∷ codes "textbook_reference"
    ∷ codes "general_background"
    ∷ []

unfoldable pub evidence_strengths : List Text
evidence_strengths =
    codes "strong_consensus"
    ∷ codes "moderate_evidence"
    ∷ codes "emerging_evidence"
    ∷ codes "contested"
    ∷ codes "contextual_reference"
    ∷ []

unfoldable pub verification_statuses : List Text
verification_statuses =
    codes "verified_reference"
    ∷ codes "probable_reference"
    ∷ codes "unverified_model_recall"
    ∷ codes "citation_not_retrieved"
    ∷ []

-- `isinstance(year, int) or year == "unknown"`; a bool is an int
unfoldable pub is_year : Json → Bool
is_year (num n) = true
is_year (neg n) = true
is_year (bool b) = true
is_year (str s) = text_eq s (codes "unknown")
is_year _ = false

-- `f"citation_{i}_.."`
unfoldable pub reason_at : ℕ → Text → Text
unfolding decimal
reason_at i what = codes "citation_" ++ decimal i ++ (codes "_" ++ what)

-- The checks of one dict `c`, in their order.
unfoldable pub check_citation : Python → ℕ → Fields → Checked
check_citation py i c =
    let missing : List Text = absent required_fields (keys c) in
    let extra : List Text = foreign citation_fields (keys c) in
    let kind : Json = value (codes "source_type") c in
    let strength : Json = value (codes "evidence_strength") c in
    let status : Json = value (codes "verification_status") c in
    then_check (require (is_nil missing) (reason_at i (codes "missing:" ++ py.show_list missing))) (
      then_check (require (is_nil extra) (reason_at i (codes "extra:" ++ py.show_list extra))) (
        then_check (require (is_filled (value (codes "title") c)) (reason_at i (codes "bad_title")))
          (then_check
            (require (is_filled (value (codes "authors_or_org") c))
              (reason_at i (codes "bad_authors_or_org")))
            (then_check
              (require (is_year (value (codes "year") c)) (reason_at i (codes "bad_year")))
              (then_check
                (member source_types (reason_at i (codes "bad_source_type:" ++ py.show kind)) kind)
                (then_check
                  (member evidence_strengths
                    (reason_at i (codes "bad_evidence_strength:" ++ py.show strength)) strength)
                  (then_check
                    (member verification_statuses
                      (reason_at i (codes "bad_verification_status:" ++ py.show status)) status)
                    (then_check
                      (require (is_note (value (codes "identifier") c))
                        (reason_at i (codes "bad_identifier")))
                      (require (is_note (value (codes "notes") c))
                        (reason_at i (codes "bad_notes")))))))))))

unfoldable pub check_citation_value : Python → ℕ → Json → Checked
check_citation_value py i (obj c) = check_citation py i c
check_citation_value py i _ = refused (reason_at i (codes "not_object"))

-- The loop, from the index `i` on.
unfoldable pub check_citations : Python → ℕ → Items → Checked
check_citations py i nil = passed
check_citations py i (cons c cs) =
    then_check (check_citation_value py i c) (check_citations py (i + 1) cs)

-- `_validate_citations` on the value of `obj.get("citations")`
unfoldable pub validate_citations : Python → Json → Checked
validate_citations py null = passed
validate_citations py (arr cs) = check_citations py 0 cs
validate_citations py _ = refused (codes "citations_not_list")

-- A citation that has all that the schema asks for.
pub record IsCitation (c : Fields) : Type 0 where
  pub complete : all (λ n. contains_text n (keys c)) required_fields ≡ true
  pub closed : all (λ k. contains_text k citation_fields) (keys c) ≡ true
  pub title : (s : Text) × (value (codes "title") c ≡ str s) × (truthy (strip s) ≡ true)
  pub authors : (s : Text) × (value (codes "authors_or_org") c ≡ str s) × (truthy (strip s) ≡ true)
  pub year : is_year (value (codes "year") c) ≡ true
  pub source_type :
      (s : Text) × (value (codes "source_type") c ≡ str s) × (contains_text s source_types ≡ true)
  pub strength :
      (s : Text) × (value (codes "evidence_strength") c ≡ str s)
      × (contains_text s evidence_strengths ≡ true)
  pub status :
      (s : Text) × (value (codes "verification_status") c ≡ str s)
      × (contains_text s verification_statuses ≡ true)
  pub identifier :
      (value (codes "identifier") c ≡ null) ⊎ ((s : Text) × (value (codes "identifier") c ≡ str s))
  pub notes : (value (codes "notes") c ≡ null) ⊎ ((s : Text) × (value (codes "notes") c ≡ str s))

-- Every value of a list is such a citation.
unfoldable pub AllCitations : Items → Type 0
AllCitations nil = Unit {0}
AllCitations (cons c cs) = ((fs : Fields) × (c ≡ obj fs) × IsCitation fs) × AllCitations cs

pub check_citation-IsCitation :
    (py : Python) (i : ℕ) (c : Fields) → check_citation py i c ≡ passed → IsCitation c
unfolding check_citation
check_citation-IsCitation py i c e =
    let (missing, e) = then_check-passed _ _ e in
    let (extra, e) = then_check-passed _ _ e in
    let (title, e) = then_check-passed _ _ e in
    let (authors, e) = then_check-passed _ _ e in
    let (year, e) = then_check-passed _ _ e in
    let (kind, e) = then_check-passed _ _ e in
    let (strength, e) = then_check-passed _ _ e in
    let (status, e) = then_check-passed _ _ e in
    let (identifier, notes) = then_check-passed _ _ e in
    record {
      complete = absent-none required_fields (keys c) (is_nil→eq _ (require-passed _ _ missing));
      closed = foreign-none citation_fields (keys c) (is_nil→eq _ (require-passed _ _ extra));
      title = is_filled→text _ (require-passed _ _ title);
      authors = is_filled→text _ (require-passed _ _ authors);
      year = require-passed _ _ year;
      source_type = member-passed _ _ _ kind;
      strength = member-passed _ _ _ strength;
      status = member-passed _ _ _ status;
      identifier = is_note→text _ (require-passed _ _ identifier);
      notes = is_note→text _ (require-passed _ _ notes);
    }
