-- ===== src/Tests/ConstitutionExamples.antt =====
-- The constitution's checks on chains and on a session of two turns.
use beaconwise_tek.Base.{
  sym, ◌≡◌, refl, true, false, not, ◌&&◌, some, [], ◌∷◌, ltb, leb, codes, length,
}
use mathlib.Core.Option.{IsSome, get, some-get}
use beaconwise_tek.Kernel.Seal.{TurnReply}
use beaconwise_tek.Json.{end}
use beaconwise_tek.Kernel.Session.{is_active}
use beaconwise_tek.Kernel.Patterns.{after}
use beaconwise_tek.Tsv.{high_stakes_ready}
use beaconwise_tek.Kernel.Gates.Handle.{handle_pending_gate}
use beaconwise_tek.Kernel.Router.{
  build_input_vector, route_aru_sequence, estimate_complexity, detect_domain, has_substring, stage1,
  count_words, first_match, bad_phrases,
}
use beaconwise_tek.Kernel.Tdm.{execute_tdm, starts_with, after_colon}
use beaconwise_tek.Kernel.Seal.{seal}
use beaconwise_tek.Kernel.Turn.{
  answer, begin, handle_turn, ensure_session_secret, after_gate, chain_hooks, on_queue, on_route,
  run_tdm, with_meta, said, seal_reply,
}
use beaconwise_tek.Kernel.Turn.Reached.{new_session}
use beaconwise_tek.Tests.Running.{texts}
use beaconwise_tek.Governance.Proof.{verify_epack_chain}
use beaconwise_tek.Governance.Checks.{
  CheckInput, any_critical_violations, run_constitutional_checks, count_distinct,
  providers_or_default,
}
use beaconwise_tek.Governance.Checks.Verdict.{delivered_well, any_critical_violations-run}
use beaconwise_tek.Governance.Checks.Turns.{handle_turn-violates}
use beaconwise_tek.Tests.Encoding.{toy_crypto, toy_crypto-IsCollisionFree}
use beaconwise_tek.Tests.Fixtures.{toy_floats, toy_host}
use beaconwise_tek.Tests.ChainExamples.{first, second}
use beaconwise_tek.Tests.TurnExamples.{fresh_machine, toy_input}

-- An output that was delivered although its validation failed.
abbrev unvalidated : CheckInput toy_floats toy_crypto
unvalidated = record {
  interaction_count = 2;
  epack_chain = first ∷ second ∷ [];
  epack_payload = end;
  validation_ran = true;
  validation_ok = some false;
  output_delivered = true;
  adapter_providers = [];
}

any_critical_violations-run_example :
    any_critical_violations (run_constitutional_checks toy_floats toy_crypto unvalidated)
    ≡ not (
        leb 2 (length (first ∷ second ∷ []))
        && ((verify_epack_chain toy_floats toy_crypto (first ∷ second ∷ [])).0
            && (delivered_well true (some false) true
                && not (ltb (count_distinct (providers_or_default [])) 2))))
any_critical_violations-run_example = any_critical_violations-run toy_floats toy_crypto unvalidated

-- A refused text is answered.
refused-returns : IsSome (handle_turn toy_host fresh_machine toy_input (codes "kill myself")).1
unfolding handle_turn answer after_gate handle_pending_gate begin ensure_session_secret chain_hooks
    on_queue on_route run_tdm with_meta said seal_reply execute_tdm new_session build_input_vector
    route_aru_sequence stage1 first_match bad_phrases estimate_complexity count_words detect_domain
    texts starts_with after_colon has_substring is_active after seal high_stakes_ready
refused-returns = tt

abbrev refused : TurnReply toy_host
refused = get (handle_turn toy_host fresh_machine toy_input (codes "kill myself")).1 refused-returns

abbrev after_refused : CheckInput toy_floats toy_crypto
after_refused = record unvalidated {
  epack_chain =
      (handle_turn toy_host fresh_machine toy_input (codes "kill myself")).0.session.epacks;
  output_delivered = false;
}

handle_turn-violates_example :
    any_critical_violations (run_constitutional_checks toy_floats toy_crypto after_refused) ≡ true
handle_turn-violates_example =
    handle_turn-violates toy_host toy_crypto-IsCollisionFree fresh_machine toy_input
      (codes "kill myself") refused after_refused
      (sym (
        some-get {o = (handle_turn toy_host fresh_machine toy_input (codes "kill myself")).1}
          refused-returns))
      refl
