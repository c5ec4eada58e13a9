-- ===== src/Validation/Delivered.antt =====
-- The kernel's retry loop over `validate_output`: what reaches a user.
use beaconwise_tek.Base.{
  ◌≡◌, refl, sym, ◌⊎◌, inl, inr, true, false, none, some, arith, ltb, Bool-cases, Text, length,
}
use beaconwise_tek.Float.{IsOrdered}
use beaconwise_tek.Kernel.Host.{Host}
use beaconwise_tek.Kernel.Gates.Pending.{Session}
use beaconwise_tek.Kernel.Session.{a_high_assurance}
use beaconwise_tek.Kernel.Tdm.{
  Generated, Finished, Services, validated, alignment_threshold, generate_validated, clarify_text,
}
use beaconwise_tek.Kernel.Tdm.Delivery.{Raises, generated-IsValidated}
use beaconwise_tek.Json.{Fields}
use beaconwise_tek.Validation.Attempts.{align_score}
use beaconwise_tek.Validation.Accepted.{IsAccepted, validate_output-IsAccepted}

module _ (h : Host) (sv : Services h.floats) where
  -- What the retry loop of `_execute_tdm` gives for a user's text is an exception of the language
  -- model, of the validators or of the post-processing, or the fixed request to clarify, or the
  -- finished form of an output that the validators' description accepts at the threshold of the session's profile.
  pub generated-IsAccepted :
      (s : Session h) (user_text : Text)
      → (((generate_validated h sv s user_text).1 ≡ none)
          × Raises h sv user_text (alignment_threshold h s.current_profile))
        ⊎ ((text : Text) × (meta : Fields) × ((generate_validated h sv s user_text).1
              ≡ some (text, meta))
            × ((text ≡ clarify_text)
                ⊎ ((prompt : Text) × (gen : Generated) × (fin : Finished) × (sv.generate prompt
                      ≡ some gen)
                    × IsAccepted h.floats h.crypto sv.python h.settings.require_evidence_citations
                        user_text gen.text
                        (alignment_threshold h s.current_profile)
                    × (sv.finish gen.text ≡ some fin)
                    × (text ≡ fin.text))))
  unfolding validated
  generated-IsAccepted s user_text = elim (generated-IsValidated h sv s user_text) [
    | inl raised ↦ inl raised
    | inr (text, meta, e, inl closed) ↦ inr (text, meta, e, inl closed)
    | inr (text, meta, e, inr v) ↦ inr (
      text,
      meta,
      e,
      inr (
        v.prompt,
        v.gen,
        v.fin,
        v.generated,
        validate_output-IsAccepted h.floats h.crypto sv.python h.settings.require_evidence_citations
            user_text v.gen.text (alignment_threshold h s.current_profile) v.vs v.attempts v.valid,
        v.finished,
        v.same,
      ),
    )
  ]

  -- No text has a better alignment score than 0.92.
  align_score_le :
      (o : IsOrdered h.floats) (user_text : Text)
      → h.floats.le (align_score h.floats user_text) (h.floats.lit 92 100) ≡ true
  unfolding align_score
  align_score_le o user_text = elim (Bool-cases (ltb (length user_text) 200)) [
    | inl short ↦ rw short (o.le_refl (h.floats.lit 92 100))
    | inr long ↦ rw long (o.lit-le 88 100 92 100 (omega arith) (omega arith) (omega arith))
  ]

  -- Where the threshold of A_HIGH_ASSURANCE is above 0.92, what the retry loop of `_execute_tdm` gives
  -- for any text that reaches it in a session of that profile is the fixed request to clarify,
  -- or an exception of the language model, of the validators or of the post-processing, whatever the
  -- language model writes: no output can reach the alignment score that the profile asks for.
  pub high_assurance-clarifies :
      (o : IsOrdered h.floats) (s : Session h) (user_text : Text)
      → s.current_profile ≡ a_high_assurance
      → h.floats.le h.align_high (h.floats.lit 92 100) ≡ false
      → (((generate_validated h sv s user_text).1 ≡ none)
          × Raises h sv user_text (alignment_threshold h s.current_profile))
        ⊎ ((meta : Fields) × ((generate_validated h sv s user_text).1 ≡ some (clarify_text, meta)))
  unfolding alignment_threshold
  high_assurance-clarifies o s user_text high above =
      let at : alignment_threshold h s.current_profile ≡ h.align_high = rw high refl in
      elim (generated-IsAccepted s user_text) [
        | inl raised ↦ inl raised
        | inr (text, meta, e, inl closed) ↦ inr (meta, rw (sym closed) e)
        | inr (text, meta, e, inr (_, _, _, _, fits, _, _)) ↦
            let enough : h.floats.le h.align_high (align_score h.floats user_text) ≡ true =
              rw at at fits.aligned in
            absurd (
              ground (
                arith,
                o.le_trans h.align_high (align_score h.floats user_text) (h.floats.lit 92 100)
                    enough (align_score_le o user_text),
                above,
              ))
      ]
