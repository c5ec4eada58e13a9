-- ===== src/Tests/TurnExamples.antt =====
-- Turns of a session over services that answer with fixed texts.
use beaconwise_tek.Base.{◌≡◌, refl, inl, Bool, true, false, some, [], ◌++◌, arith, codes}
use beaconwise_tek.Json.{null, end}
use beaconwise_tek.Kernel.Session.{a_standard, is_active}
use beaconwise_tek.Kernel.Patterns.{after}
use beaconwise_tek.Tsv.{high_stakes_ready}
use beaconwise_tek.Kernel.Gates.Pending.{Session}
use beaconwise_tek.Kernel.Gates.Handle.{handle_pending_gate}
use beaconwise_tek.Kernel.Router.{
  build_input_vector, route_aru_sequence, estimate_complexity, detect_domain, has_substring, stage1,
  count_words, first_match, bad_phrases,
}
use beaconwise_tek.Kernel.Tdm.{Services, execute_tdm, starts_with, after_colon}
use beaconwise_tek.Validation.Checked.{Python, malformed}
use beaconwise_tek.Kernel.Seal.{Machine, seal}
use beaconwise_tek.Kernel.Seal.Chained.{IsStored}
use beaconwise_tek.Kernel.Turn.{
  TurnInput, answer, begin, bound_text, handle_turn, ensure_session_secret, text_of_reply,
  after_gate, chain_hooks, on_queue, on_route, run_tdm, with_meta, said, seal_reply,
}
use beaconwise_tek.Kernel.Turn.Reached.{
  Reached, started, turned, Settled, new_session, Reached-Settled, Reached-IsStored,
}
use beaconwise_tek.Kernel.Turn.Bypass.{facts, unsafe-bound, confirmed-tdm}
use beaconwise_tek.Tests.Fixtures.{toy_host, toy_floats, toy_tsv, fresh_session, waiting}
use beaconwise_tek.Tests.Running.{gates, texts}

-- A Python to which no text is JSON.
abbrev no_json : Python
no_json = record {
  loads = λ t. malformed (codes "Expecting value");
  show = λ v. codes "v";
  show_list = λ ns. codes "[]";
}

-- Services over which every text of the language model is refused, or which has no provider.
abbrev pub toy_services : Bool → Services toy_floats
toy_services has_provider = record {
  stage2 = λ t. record { ok = true; score = 100; meta = end };
  calc = λ t. record { value = some (codes "4"); tool_records = null };
  search = λ t. some (codes "found", null);
  prompt_for = λ t. codes "USER:" ++ t;
  has_provider = has_provider;
  generate = λ p.
      some
        record { text = codes "{}"; provider = codes "mock"; model = codes "mock"; usage = null };
  python = no_json;
  finish =
      λ t. some record { text = t; citation_verification = null; citation_cache_updates = null };
}

abbrev pub toy_input : TurnInput toy_host
toy_input = record {
  secret = codes "secret";
  three_decimals = λ x. codes "0.010";
  services = toy_services true;
  seal_input = record { now = 20000; ts = 20000; manifest = null };
}

-- A session whose last failure is long past.
abbrev calm : Session toy_host
calm = record (fresh_session a_standard) { interaction_count = 12; last_failure_interaction = 3 }

unsafe-bound_example :
    ((answer toy_host toy_input (fresh_session a_standard) (codes "Kill myself")).session
      ≡ begin toy_host (codes "secret") (fresh_session a_standard))
    × (text_of_reply
          (answer toy_host toy_input (fresh_session a_standard) (codes "Kill myself")).reply
        ≡ some (bound_text toy_host toy_input (facts toy_host toy_input (codes "Kill myself"))))
unfolding texts stage1 first_match bad_phrases gates
unsafe-bound_example =
    unsafe-bound toy_host toy_input (fresh_session a_standard) (codes "Kill myself") refl refl
      (inl refl)

-- The same words behind an assent reach the language model.
confirmed-tdm_example :
    (t : Session toy_host) × (text_of_reply
        (answer toy_host toy_input (waiting a_standard) (codes "yes kill myself")).reply
      ≡ text_of_reply
          (execute_tdm toy_host
            (toy_services true)
            t
            (facts toy_host toy_input (codes "yes kill myself"))).1)
unfolding gates begin ensure_session_secret count_words
confirmed-tdm_example =
    confirmed-tdm toy_host toy_input (waiting a_standard) (codes "yes kill myself") refl
      (omega arith)

abbrev pub fresh_machine : Machine toy_host
fresh_machine = record { session = new_session toy_host (codes "s1") toy_tsv; store = [] }

-- A turn without a provider raises; a text that is refused is answered without one.
abbrev broken_input : TurnInput toy_host
broken_input = record toy_input { services = toy_services false }

abbrev pub two_turns : Machine toy_host
two_turns =
    (handle_turn toy_host (handle_turn toy_host fresh_machine broken_input (codes "hello")).0
      toy_input (codes "kill myself")).0

pub two_turns-Reached : Reached toy_host 2 1 two_turns
unfolding handle_turn answer after_gate handle_pending_gate begin ensure_session_secret chain_hooks
    on_queue on_route run_tdm with_meta said seal_reply execute_tdm new_session build_input_vector
    route_aru_sequence stage1 first_match bad_phrases estimate_complexity count_words detect_domain
    texts starts_with after_colon has_substring is_active after seal high_stakes_ready
two_turns-Reached =
    turned toy_input (codes "kill myself")
      (turned broken_input (codes "hello") (started (codes "s1") toy_tsv))

Reached-Settled_example : Settled toy_host 2 1 two_turns
Reached-Settled_example = Reached-Settled toy_host two_turns-Reached

Reached-IsStored_example : IsStored toy_host two_turns
Reached-IsStored_example = Reached-IsStored toy_host two_turns-Reached refl
