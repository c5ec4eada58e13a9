-- ===== src/Kernel/Tdm.antt =====
-- src/ecosphere/kernel/engine.py: `_execute_tdm`, which generates, validates and retries, and
-- `_escalate_profile`. The language model, the tools and the post-processing of citations are the
-- fields of `Services`, which the results leave arbitrary. An exception is `none`.
pub mod Delivery
pub mod Escalation
use beaconwise_tek.Base.{
  ℕ, zero, suc, ◌+◌, ◌-◌, ◌*◌, ◌≤◌, ◌<◌, String, ◌≡◌, refl, sym, ap, ◌∙◌, subst, ◌≢◌, ◌↔◌, ◌⊎◌, inl,
  inr, Bool, true, false, not, ◌&&◌, ◌||◌, Option, none, some, List, [], ◌∷◌, ◌++◌, map,
  append_assoc, append-nil, arith, ltb, leb, ◌==◌, if◌then◌else◌, ltb→lt, lt→ltb, leb→le, le→leb,
  ==→eq, eq→==, Bool-cases, and_true, Option-cases, Text, codes, text_eq, text_lt, text_eq→eq,
  text_eq_refl, eq→text_eq, truthy, length, take, drop, take_last, any, all, length-append,
}
use beaconwise_tek.Float.{Floats}
use beaconwise_tek.Json.{
  Json, Items, Fields, null, bool, num, real, str, arr, obj, nil, cons, end, field,
}
use beaconwise_tek.Stable.{Crypto, stable_hash}
use beaconwise_tek.Epack.{EpackBlock, sealed_core, new_epack, sign_payload_hash}
use beaconwise_tek.Security.{redact_payload}
use beaconwise_tek.Tsv.{TsvState, high_stakes_ready}
use beaconwise_tek.Tsv.Snapshot.{snapshot}
use beaconwise_tek.Kernel.Host.{Host}
use beaconwise_tek.Kernel.Session.{
  Profile, profile_text, PendingGate, no_gate, reflect_confirm, scaffold_approve, gate_text, Aru,
  bound, reflect, scaffold, deferred, tdm, StateTrace, PendingGateState, Epack, SessionState,
}
use beaconwise_tek.Kernel.Session.{a_fast, a_standard, a_high_assurance}
use beaconwise_tek.Kernel.Patterns.{lower, strip, after}
use beaconwise_tek.Kernel.Router.{InputVector, Stage2Result}
use beaconwise_tek.Kernel.Gates.Pending.{Session, trace}
use beaconwise_tek.Validation.Checked.{ValidationAttempt, Python}
use beaconwise_tek.Validation.Attempts.{validate_output}

-- What a provider returns.
pub record Generated : Type 0 where
  pub text : Text
  pub provider : Text
  pub model : Text
  pub usage : Json

-- A tool's text, if it is there, and its records.
pub record ToolReply : Type 0 where
  pub value : Option Text
  pub tool_records : Json

-- A validated text after `_verify_citations_in_tdm_json` and `_postprocess_tdm_json`.
pub record Finished : Type 0 where
  pub text : Text
  pub citation_verification : Json
  pub citation_cache_updates : Json

-- What a turn calls; `none` is an exception of the call.
pub record Services (fl : Floats) : Type 0 where
  pub stage2 : Text → Stage2Result fl
  pub calc : Text → ToolReply
  -- `_tool_search`, which may raise on a result that is no dict
  pub search : Text → Option (Text × Json)
  -- `_prompt_for_tdm`
  pub prompt_for : Text → Text
  -- `make_llm_provider()` returns a provider
  pub has_provider : Bool
  pub generate : Text → Option Generated
  -- what the validators take from Python
  pub python : Python
  pub finish : Text → Option Finished

unfoldable pub max_retries_for_profile : Profile → ℕ
max_retries_for_profile a_fast = 1
max_retries_for_profile a_standard = 2
max_retries_for_profile a_high_assurance = 3

unfoldable pub raised : Profile → Profile
raised a_fast = a_standard
raised a_standard = a_high_assurance
raised a_high_assurance = a_high_assurance

unfoldable pub lowered : Profile → Profile
lowered a_high_assurance = a_standard
lowered a_standard = a_fast
lowered a_fast = a_fast

unfoldable pub is_fast : Profile → Bool
is_fast a_fast = true
is_fast _ = false

-- The text behind the first colon.
unfoldable pub after_colon : Text → Text
after_colon [] = []
after_colon (c ∷ s) = if c == b':' then s else after_colon s

unfoldable pub starts_with : Text → Text → Bool
unfolding after
starts_with p t = elim (after p t) [ none ↦ false | some _ ↦ true ]

-- What is added to the prompt after a failure.
unfoldable pub retry_rules : Text
retry_rules =
    10 ∷ 10 ∷ codes "Previous output failed validation."
    ++ (10 ∷ codes "Retry rules:")
    ++ (10 ∷ codes "- Output MUST be valid JSON.")
    ++ (10 ∷ codes "- Only keys: text, disclosure, citations, assumptions.")
    ++ (10 ∷ codes "- No extra keys.")
    ++ (10 ∷ codes "- No text outside JSON.")
    ++ 10 ∷ []

unfoldable pub clarify_text : Text
clarify_text =
    codes
      "CLARIFY: Output validation failed after retries. Provide goal + constraints + output format in 1–3 bullets."

module _ (h : Host) where
  unfoldable pub alignment_threshold : Profile → h.floats.F
  alignment_threshold a_fast = h.align_fast
  alignment_threshold a_high_assurance = h.align_high
  alignment_threshold a_standard = h.align_standard

  unfoldable pub count_fails : List (ValidationAttempt h.floats) → ℕ
  count_fails [] = 0
  count_fails (a ∷ as_) = let rest = count_fails as_ in if a.ok then rest else rest + 1

  unfoldable pub escalate_profile : Session h → List (ValidationAttempt h.floats) → Bool → Session h
  unfolding raised lowered is_fast
  escalate_profile s attempts domain_shift =
      let fails : ℕ = count_fails attempts in
      let last_fail : ℕ = if ltb 0 fails then s.interaction_count else s.last_failure_interaction in
      let clean_streak : ℕ = s.interaction_count - last_fail in
      let t : Session h = record s { last_failure_interaction = last_fail } in
      if leb 2 fails || domain_shift
      then trace h (codes "PROFILE") (codes "PROFILE") (codes "profile_up")
          (field (codes "fails") (num fails) (field (codes "domain_shift") (bool domain_shift) end))
          (record t { current_profile = raised s.current_profile })
      else if leb 8 clean_streak && not (is_fast s.current_profile)
      then trace h (codes "PROFILE") (codes "PROFILE") (codes "profile_down")
          (field (codes "clean_streak") (num clean_streak) end)
          (record t { current_profile = lowered s.current_profile })
      else t

  unfoldable pub attempt_items : List (ValidationAttempt h.floats) → Items
  attempt_items [] = nil
  attempt_items (a ∷ as_) =
      cons
        (obj (
          field (codes "attempt") (num a.attempt) (
            field (codes "ok") (bool a.ok) (
              field (codes "reason") (str a.reason)
                (field (codes "score") (real (h.floats.repr a.score)) end)))))
        (attempt_items as_)

  -- What the retry loop ends with: the validated text and its metadata, if there is one, and all
  -- attempts.
  pub record Loop : Type 0 where
    pub chosen : Option (Text × Fields)
    pub attempts : List (ValidationAttempt h.floats)

  module _ (sv : Services h.floats) where
    unfoldable pub success_meta :
        Generated → Finished → ℕ → List (ValidationAttempt h.floats) → h.floats.F → Fields
    success_meta gen fin attempt vs thr = field (codes "provider") (str gen.provider) (
        field (codes "model") (str gen.model) (
          field (codes "usage") gen.usage (
            field (codes "attempt") (num attempt) (
              field (codes "citation_verification") fin.citation_verification (
                field (codes "citation_cache_updates") fin.citation_cache_updates (
                  field (codes "validation") (arr (attempt_items vs)) (
                    field (codes "validation_ok") (bool true)
                      (field (codes "align_threshold") (real (h.floats.repr thr)) end))))))))

    -- `validate_output(user_text, raw_output, threshold)`
    unfoldable pub validated : Text → Text → h.floats.F → Option (List (ValidationAttempt h.floats))
    validated user_text raw thr =
        validate_output h.floats h.crypto sv.python h.settings.require_evidence_citations user_text
          raw thr

    -- A round whose attempts all succeeded ends the loop.
    unfoldable pub passed_round :
        Generated
        → ℕ
        → List (ValidationAttempt h.floats)
        → h.floats.F
        → Option Finished
        → Option Loop
    unfolding success_meta
    passed_round gen attempt vs thr none = none
    passed_round gen attempt vs thr (some fin) =
        some record { chosen = some (fin.text, success_meta gen fin attempt vs thr); attempts = vs }

    -- A round with an attempt that failed, and the rounds behind it.
    unfoldable pub failed_round : List (ValidationAttempt h.floats) → Option Loop → Option Loop
    failed_round vs none = none
    failed_round vs (some l) = some record { chosen = l.chosen; attempts = vs ++ l.attempts }

    unfoldable pub judged_round :
        Generated
        → ℕ
        → h.floats.F
        → Option (List (ValidationAttempt h.floats))
        → Option Loop
        → Option Loop
    unfolding passed_round failed_round
    judged_round gen attempt thr none rest = none
    judged_round gen attempt thr (some vs) rest =
        if all (λ a. a.ok) vs
        then passed_round gen attempt vs thr (sv.finish gen.text)
        else failed_round vs rest

    unfoldable pub one_round : Text → ℕ → h.floats.F → Option Generated → Option Loop → Option Loop
    unfolding validated judged_round
    one_round user_text attempt thr none rest = none
    one_round user_text attempt thr (some gen) rest =
        judged_round gen attempt thr (validated user_text gen.text thr) rest

    -- The rounds `attempt`, .., with `left` of them left; `none` if one of them raises.
    unfoldable pub retry_loop : Text → h.floats.F → ℕ → ℕ → Text → Option Loop
    unfolding one_round
    retry_loop user_text thr zero attempt prompt = some record { chosen = none; attempts = [] }
    retry_loop user_text thr (suc left) attempt prompt =
        let rest : Option Loop =
          retry_loop user_text thr left (attempt + 1) (prompt ++ retry_rules) in
        one_round user_text attempt thr (sv.generate prompt) rest

    -- The text and the metadata of a loop's end.
    unfoldable pub outcome_of : ℕ → h.floats.F → Loop → Text × Fields
    outcome_of max_retries thr l =
        let closed : Text × Fields = (
          clarify_text,
          field (codes "provider") (str (codes "validation_fail_closed")) (
              field (codes "attempts") (num max_retries) (
                field (codes "validation_ok") (bool false) (
                  field (codes "align_threshold") (real (h.floats.repr thr))
                    (field (codes "validation") (arr (attempt_items l.attempts)) end)))),
        ) in
        elim l.chosen [
          | none ↦ closed
          | some (text, meta) ↦ if truthy text then (text, meta) else closed
        ]

    -- What is done behind the loop: an exception leaves the session as it is.
    unfoldable pub after_loop :
        Session h → ℕ → h.floats.F → Option Loop → Session h × Option (Text × Fields)
    unfolding outcome_of
    after_loop s max_retries thr none = (s, none)
    after_loop s max_retries thr (some l) =
        (escalate_profile s l.attempts false, some (outcome_of max_retries thr l))

    unfoldable pub generate_validated : Session h → Text → Session h × Option (Text × Fields)
    unfolding after_loop
    generate_validated s user_text =
        let thr : h.floats.F = alignment_threshold s.current_profile in
        let max_retries : ℕ = max_retries_for_profile s.current_profile in
        after_loop s max_retries thr
          (retry_loop user_text thr max_retries 1 (sv.prompt_for user_text))

    unfoldable pub tool_meta : Json → Fields
    tool_meta records =
        field (codes "provider") (str (codes "tool_sandbox"))
          (field (codes "tool_records") records end)

    unfoldable pub searched : Option (Text × Json) → Option (Text × Fields)
    unfolding tool_meta
    searched none = none
    searched (some (found, records)) = some (found, tool_meta records)

    -- `_execute_tdm`
    unfoldable pub execute_tdm :
        Session h → InputVector h.floats → Session h × Option (Text × Fields)
    unfolding starts_with after_colon tool_meta searched
    execute_tdm s iv =
        let t : Text = lower (strip iv.user_text) in
        let argument : Text = strip (after_colon iv.user_text) in
        let calculated : ToolReply = sv.calc argument in
        if not sv.has_provider
        then (s, none)
        else if starts_with (codes "calc:") t
        then (
          s,
          some (
            elim calculated.value [ none ↦ codes "CLARIFY: invalid calc expression." | some v ↦ v ],
            tool_meta calculated.tool_records,
          ),
        )
        else if starts_with (codes "search:") t
        then (s, searched (sv.search argument))
        else generate_validated s iv.user_text
