-- ===== src/Tests/Running.antt =====
-- Names that a test opens to run a whole component.
use beaconwise_tek.Base.{codes, text_eq, text_lt}
use beaconwise_tek.Stable.{stable_hash, hash_suffix}
use beaconwise_tek.Kernel.Session.{gate_text, is_active, is_expired}
use beaconwise_tek.Kernel.Revisions.{append_revision, render_revision_block, step_json}
use beaconwise_tek.Kernel.Gates.{
  kind_text, timeout_for_profile, require_binding_for_profile, binding_decision,
  has_revision_intent, parse_revision, contains_text, status_text, accepts, rejects, extract_token,
}
use beaconwise_tek.Kernel.Gates.Pending.{
  token_length_for_profile, make_gate_nonce, derive_scoped, session_scope, nonce_already_used,
  consume_nonce, cleared_gate, clear_pending, trace, prompt_cache_hash, set_pending_gate,
  refresh_pending_gate_crypto, render_reflect_prompt, render_scaffold_prompt,
}
use beaconwise_tek.Kernel.Gates.Handle.{
  accepted_event, kind_of, is_reflect, trace_same, on_timeout, on_revision, on_replay, on_accept,
  on_reject, on_mismatch, on_missing_token, on_unclear, on_decision, handle_pending_gate,
}
use beaconwise_tek.Json.{canonical, get, set, append, insert_field}
use beaconwise_tek.Stable.{stable_json, has_char, split_at, last_chars}
use beaconwise_tek.Kernel.Session.{profile_text}
use beaconwise_tek.Kernel.Patterns.{
  is_digit, is_word, is_space, lower, is_hex, strip, has_word, token_at, digits_at, first_some,
  search_word, found, to_int, cut_token, cut_assent,
}
use beaconwise_tek.Kernel.Patterns.{skip_spaces, strip_end, after, word_ends, whole, lower_char}
use beaconwise_tek.Json.{value, has_key, keys}
use beaconwise_tek.Kernel.Revisions.{decimal}
use beaconwise_tek.Validation.Checked.{
  require, member, then_check, absent, foreign, insert_text, is_nil, is_filled, is_note,
}
use beaconwise_tek.Validation.Citations.{
  required_fields, citation_fields, source_types, evidence_strengths, verification_statuses,
  is_year, reason_at, check_citation, check_citation_value, check_citations, validate_citations,
}
use beaconwise_tek.Validation.Schema.{
  allowed_keys, check_assumption_items, check_assumptions, check_output, judged, judged_value,
  validate_json_schema,
}
use beaconwise_tek.Validation.Regions.{
  find_regions, region_at, behind, through, join_lines, protected_regions, protected_regions_hash,
  claims_evidence,
}
use beaconwise_tek.Validation.Attempts.{
  text_of, cites_something, attempt_of, full_or_none, align_score, later_attempts, content_attempts,
  attempts_for, validate_output,
}
use beaconwise_tek.Tests.Encoding.{encode}

unfoldable pub digests : Unit {0}
unfolding codes text_eq text_lt canonical get set append insert_field stable_hash stable_json
    hash_suffix has_char split_at last_chars encode profile_text
digests = tt

unfoldable pub texts : Unit {0}
unfolding codes is_digit is_word is_space lower is_hex strip has_word token_at digits_at first_some
    search_word found to_int cut_token cut_assent text_eq
texts = tt

unfoldable pub gates : Unit {0}
unfolding digests texts gate_text is_active is_expired append_revision render_revision_block
    step_json kind_text timeout_for_profile require_binding_for_profile accepts rejects
    extract_token binding_decision has_revision_intent parse_revision contains_text status_text
    token_length_for_profile make_gate_nonce derive_scoped session_scope nonce_already_used
    consume_nonce cleared_gate clear_pending trace prompt_cache_hash set_pending_gate
    refresh_pending_gate_crypto render_reflect_prompt render_scaffold_prompt accepted_event kind_of
    is_reflect trace_same on_timeout on_revision on_replay on_accept on_reject on_mismatch
    on_missing_token on_unclear on_decision handle_pending_gate
gates = tt

unfoldable pub validation : Unit {0}
unfolding digests texts decimal value has_key keys require member then_check absent foreign
    insert_text is_nil is_filled is_note required_fields citation_fields source_types
    evidence_strengths verification_statuses is_year check_citation check_citation_value
    check_citations validate_citations allowed_keys check_assumption_items check_assumptions
    check_output judged judged_value validate_json_schema find_regions region_at behind through
    join_lines protected_regions protected_regions_hash claims_evidence text_of cites_something
    attempt_of full_or_none align_score later_attempts content_attempts attempts_for validate_output
    stable_hash stable_json canonical contains_text reason_at skip_spaces strip_end after word_ends
    whole lower_char
validation = tt
