-- ===== src/Tests/ValidationExamples.antt =====
-- Outputs that the validators accept, and one on which they raise.
use beaconwise_tek.Base.{
  ℕ, ◌≡◌, refl, ◌⊎◌, true, none, some, List, [], if◌then◌else◌, Text, codes, text_eq,
}
use beaconwise_tek.Json.{Json, Fields, null, num, str, arr, obj, nil, cons, end, field}
use beaconwise_tek.Kernel.Session.{Profile, a_standard, a_high_assurance}
use beaconwise_tek.Kernel.Tdm.{
  Generated, Finished, Services, alignment_threshold, generate_validated, clarify_text,
}
use beaconwise_tek.Kernel.Tdm.Delivery.{Raises}
use beaconwise_tek.Validation.Checked.{ValidationAttempt, Python, Loaded, parsed, malformed}
use beaconwise_tek.Validation.Attempts.{validate_output}
use beaconwise_tek.Validation.Accepted.{IsAccepted, validate_output-IsAccepted}
use beaconwise_tek.Validation.Delivered.{generated-IsAccepted, high_assurance-clarifies}
use beaconwise_tek.Validation.Crash.{HasListedType, validate_output-raises}
use beaconwise_tek.Tests.Fixtures.{toy_host, toy_floats, toy_floats-IsOrdered, fresh_session}
use beaconwise_tek.Tests.Encoding.{toy_crypto}
use beaconwise_tek.Tests.Running.{validation}
use beaconwise_tek.Tests.TurnExamples.{toy_services}

abbrev citation : Json → Fields
citation kind = field (codes "title") (str (codes "T")) (
    field (codes "authors_or_org") (str (codes "A")) (
      field (codes "year") (num 2020) (
        field (codes "source_type") kind (
          field (codes "evidence_strength") (str (codes "contested"))
            (field (codes "verification_status") (str (codes "probable_reference")) end)))))

abbrev answer_dict : Json → Fields
answer_dict kind =
    field (codes "text") (str (codes "Studies show {a}."))
      (field (codes "citations") (arr (cons (obj (citation kind)) nil)) end)

-- Of three raw texts, one is no JSON.
abbrev toy_loads : Text → Loaded
toy_loads raw =
    if text_eq raw (codes "good")
    then parsed (obj (answer_dict (str (codes "meta_analysis"))))
    else if text_eq raw (codes "listed")
    then parsed (obj (answer_dict (arr nil)))
    else malformed (codes "Expecting value")

abbrev toy_python : Python
toy_python = record { loads = toy_loads; show = λ v. codes "v"; show_list = λ ns. codes "[]" }

abbrev attempts_at : Text → Text → ℕ → List (ValidationAttempt toy_floats)
attempts_at user_text raw threshold =
    elim (validate_output toy_floats toy_crypto toy_python true user_text raw threshold) [
      | none ↦ []
      | some vs ↦ vs
    ]

abbrev validated_services : Services toy_floats
validated_services = record (toy_services true) {
  generate = λ p.
      some
        record { text = codes "good"; provider = codes "mock"; model = codes "mock"; usage = null };
  python = toy_python;
}

validate_output-IsAccepted_example :
    IsAccepted toy_floats toy_crypto toy_python true (codes "why {a}") (codes "good") 9000
unfolding validation
validate_output-IsAccepted_example =
    validate_output-IsAccepted toy_floats toy_crypto toy_python true (codes "why {a}")
      (codes "good") 9000 (attempts_at (codes "why {a}") (codes "good") 9000) refl refl

-- The fate of a text that is generated from the raw text `good`.
abbrev Delivers : Profile → Type 0
Delivers profile =
    (((generate_validated toy_host validated_services (fresh_session profile) (codes "why {a}")).1
        ≡ none)
      × Raises toy_host validated_services (codes "why {a}") (alignment_threshold toy_host profile))
    ⊎ ((text : Text) × (meta : Fields) × ((generate_validated toy_host validated_services
            (fresh_session profile) (codes "why {a}")).1
          ≡ some (text, meta))
        × ((text ≡ clarify_text)
            ⊎ ((prompt : Text) × (gen : Generated) × (fin : Finished) × (validated_services.generate
                    prompt
                  ≡ some gen)
                × IsAccepted toy_floats toy_crypto toy_python true (codes "why {a}") gen.text
                    (alignment_threshold toy_host profile)
                × (validated_services.finish gen.text ≡ some fin)
                × (text ≡ fin.text))))

generated-IsAccepted_example : Delivers a_standard
generated-IsAccepted_example =
    generated-IsAccepted toy_host validated_services (fresh_session a_standard) (codes "why {a}")

high_assurance-clarifies_example :
    (((generate_validated toy_host validated_services
          (fresh_session a_high_assurance)
          (codes "why {a}")).1
        ≡ none)
      × Raises toy_host validated_services
          (codes "why {a}")
          (alignment_threshold toy_host a_high_assurance))
    ⊎ ((meta : Fields) × ((generate_validated toy_host validated_services
            (fresh_session a_high_assurance)
            (codes "why {a}")).1
          ≡ some (clarify_text, meta)))
high_assurance-clarifies_example =
    high_assurance-clarifies toy_host validated_services toy_floats-IsOrdered
      (fresh_session a_high_assurance) (codes "why {a}") refl refl

abbrev listed_kind : HasListedType (citation (arr nil))
unfolding validation
listed_kind = record {
  complete = refl;
  closed = refl;
  title = refl;
  authors = refl;
  year = refl;
  kinds = nil;
  listed = refl;
}

validate_output-raises_example :
    validate_output toy_floats toy_crypto toy_python true (codes "why") (codes "listed") 9000 ≡ none
unfolding validation
validate_output-raises_example =
    validate_output-raises toy_floats toy_crypto toy_python true (codes "why") (codes "listed") 9000
      (answer_dict (arr nil)) (citation (arr nil)) nil refl
      record { closed = refl; text = refl; disclosure = refl; assumptions = refl } listed_kind refl
