-- ===== src/Kernel/Tdm/Delivery.antt =====
-- What the retry loop of `_execute_tdm` can deliver.
use beaconwise_tek.Base.{
  ℕ, zero, suc, ◌+◌, ◌≡◌, refl, sym, ap, subst, ◌⊎◌, inl, inr, true, Option, none, some, List, ◌++◌,
  Bool-cases, Option-cases, Text, truthy, all,
}
use beaconwise_tek.Json.{Fields}
use beaconwise_tek.Kernel.Host.{Host}
use beaconwise_tek.Kernel.Gates.Pending.{Session}
use beaconwise_tek.Validation.Checked.{ValidationAttempt}
use beaconwise_tek.Kernel.Tdm.{
  Generated, Finished, Services, max_retries_for_profile, retry_rules, clarify_text,
  alignment_threshold, Loop, validated, passed_round, failed_round, judged_round, one_round,
  retry_loop, outcome_of, after_loop, generate_validated,
}

module _ (h : Host) (sv : Services h.floats) where
  -- A text that some generated output, valid at the threshold, was finished to.
  pub record IsValidated (user_text : Text) (thr : h.floats.F) (text : Text) : Type 0 where
    pub prompt : Text
    pub gen : Generated
    pub generated : sv.generate prompt ≡ some gen
    pub vs : List (ValidationAttempt h.floats)
    pub attempts : validated h sv user_text gen.text thr ≡ some vs
    pub valid : all (λ a. a.ok) vs ≡ true
    pub fin : Finished
    pub finished : sv.finish gen.text ≡ some fin
    pub same : text ≡ fin.text

  -- An exception that ends the loop: of the language model, or of the validators or the
  -- post-processing on what it wrote.
  abbrev pub Raises : Text → h.floats.F → Type 0
  Raises user_text thr =
      (prompt : Text) × ((sv.generate prompt ≡ none)
        ⊎ ((gen : Generated) × (sv.generate prompt ≡ some gen)
            × ((validated h sv user_text gen.text thr ≡ none) ⊎ (sv.finish gen.text ≡ none))))

  -- How the loop ends.
  abbrev LoopEnds : Text → h.floats.F → Option (Loop h) → Type 0
  LoopEnds user_text thr l =
      ((l ≡ none) × Raises user_text thr)
      ⊎ ((r : Loop h) × (l ≡ some r)
          × ((r.chosen ≡ none)
              ⊎ ((text : Text) × (meta : Fields) × (r.chosen ≡ some (text, meta))
                  × IsValidated user_text thr text)))

  passed_lem :
      (user_text : Text) (thr : h.floats.F) (attempt : ℕ) (prompt : Text) (gen : Generated)
      (vs : List (ValidationAttempt h.floats)) (o : Option Finished)
      → sv.generate prompt ≡ some gen
      → validated h sv user_text gen.text thr ≡ some vs
      → all (λ a. a.ok) vs ≡ true
      → sv.finish gen.text ≡ o
      → LoopEnds user_text thr (passed_round h sv gen attempt vs thr o)
  unfolding passed_round
  passed_lem user_text thr attempt prompt gen vs none g v ok f =
      inl (refl, (prompt, inr (gen, g, inr f)))
  passed_lem user_text thr attempt prompt gen vs (some fin) g v ok f =
      let valid : IsValidated user_text thr fin.text = record {
        prompt = prompt;
        gen = gen;
        generated = g;
        vs = vs;
        attempts = v;
        valid = ok;
        fin = fin;
        finished = f;
        same = refl;
      } in
      inr (_, refl, inr (fin.text, _, refl, valid))

  failed_lem :
      (user_text : Text) (thr : h.floats.F) (vs : List (ValidationAttempt h.floats))
      (rest : Option (Loop h))
      → LoopEnds user_text thr rest
      → LoopEnds user_text thr (failed_round h sv vs rest)
  unfolding failed_round
  failed_lem user_text thr vs rest (inl (e, why)) = inl (ap (failed_round h sv vs) e, why)
  failed_lem user_text thr vs rest (inr (r, e, chosen)) =
      inr (_, ap (failed_round h sv vs) e, chosen)

  loop_lem :
      (user_text : Text) (thr : h.floats.F) (left attempt : ℕ) (prompt : Text)
      → LoopEnds user_text thr (retry_loop h sv user_text thr left attempt prompt)
  unfolding retry_loop one_round judged_round
  loop_lem user_text thr zero attempt prompt = inr (_, refl, inl refl)
  loop_lem user_text thr (suc left) attempt prompt =
      let later = loop_lem user_text thr left (attempt + 1) (prompt ++ retry_rules) in
      elim (Option-cases (sv.generate prompt)) [
        | inl silent ↦ inl (rw silent refl, (prompt, inl silent))
        | inr (gen, g) ↦ elim (Option-cases (validated h sv user_text gen.text thr)) [
          | inl crash ↦ inl (rw (g, crash) refl, (prompt, inr (gen, g, inl crash)))
          | inr (vs, v) ↦ elim (Bool-cases (all (λ a. a.ok) vs)) [
            | inl ok ↦ rw (g, v, ok) (passed_lem user_text thr attempt prompt gen vs _ g v ok refl)
            | inr bad ↦ rw (g, v, bad) (failed_lem user_text thr vs _ later)
          ]
        ]
      ]

  outcome_chosen :
      (n : ℕ) (thr : h.floats.F) (l : Loop h) (text : Text) (meta : Fields)
      → l.chosen ≡ some (text, meta)
      → ((outcome_of h sv n thr l).0 ≡ clarify_text) ⊎ ((outcome_of h sv n thr l).0 ≡ text)
  unfolding outcome_of
  outcome_chosen n thr l text meta e = elim (Bool-cases (truthy text)) [
    | inl filled ↦ inr (rw e (rw filled refl))
    | inr empty ↦ inl (rw e (rw empty refl))
  ]

  outcome_none :
      (n : ℕ) (thr : h.floats.F) (l : Loop h)
      → l.chosen ≡ none
      → (outcome_of h sv n thr l).0 ≡ clarify_text
  unfolding outcome_of
  outcome_none n thr l e = rw e refl

  -- No text of the language model is delivered unvalidated: what `_execute_tdm` generates for a user's
  -- text is an exception of the language model, of the validators or of the post-processing, the
  -- fixed request to clarify, or the finished form of an output all of whose validation attempts,
  -- at the threshold of the session's profile, succeeded.
  pub generated-IsValidated :
      (s : Session h) (user_text : Text)
      → (((generate_validated h sv s user_text).1 ≡ none)
          × Raises user_text (alignment_threshold h s.current_profile))
        ⊎ ((text : Text) × (meta : Fields) × ((generate_validated h sv s user_text).1
              ≡ some (text, meta))
            × ((text ≡ clarify_text)
                ⊎ IsValidated user_text (alignment_threshold h s.current_profile) text))
  unfolding generate_validated after_loop
  generated-IsValidated s user_text =
      let thr : h.floats.F = alignment_threshold h s.current_profile in
      let n : ℕ = max_retries_for_profile s.current_profile in
      elim (loop_lem user_text thr n 1 (sv.prompt_for user_text)) [
        | inl (e, why) ↦ inl (ap (λ l. (after_loop h sv s n thr l).1) e, why)
        | inr (l, e, inl nothing) ↦
            inr
              (_, _, ap (λ l. (after_loop h sv s n thr l).1) e, inl (outcome_none n thr l nothing))
        | inr (l, e, inr (text, meta, at, fits)) ↦ elim (outcome_chosen n thr l text meta at) [
          | inl closed ↦ inr (_, _, ap (λ l. (after_loop h sv s n thr l).1) e, inl closed)
          | inr same ↦ inr (
            _,
            _,
            ap (λ l. (after_loop h sv s n thr l).1) e,
            inr (subst (IsValidated user_text thr) (sym same) fits),
          )
        ]
      ]
