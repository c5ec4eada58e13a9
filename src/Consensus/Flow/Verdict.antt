-- ===== src/Consensus/Flow/Verdict.antt =====
-- What a run of the consensus can end with.
use beaconwise_tek.Base.{
  ◌≡◌, refl, sym, ap, ◌∙◌, Bool, false, Option, none, some, arith, Text, codes, text_eq,
}
use beaconwise_tek.Stable.{Crypto}
use beaconwise_tek.Kernel.Gates.{contains_text}
use beaconwise_tek.Validation.Checked.{Python}
use beaconwise_tek.Consensus.Config.{ModelSpec, DebateConfig}
use beaconwise_tek.Consensus.Ledger.{EventStore}
use beaconwise_tek.Consensus.Scope.{Output}
use beaconwise_tek.Consensus.Calls.{
  Exc, validation_error, Outcome, returned, raised, binds, construct, then_do, render_prompt,
  try_parse_json,
}
use beaconwise_tek.Consensus.Flow.{
  fail, ConsensusResult, primary_output, Models, gate_config_signature, gate_config_keywords,
  RunInput, primary_vars, failed_result, parsed_output, parse_with_repair, gate_answer, built,
  judge_output, run_primary, arbitrate_debate, run_debate, enabled_debate, debates, finish_run,
  start_run, outcome_of_run, run_consensus,
}

module _ {ℓ κ} {A : Type ℓ} {B : Type κ} where
  -- What returns had a first part that returned.
  pub then_do-returned :
      (x : Outcome A) (f : A → Outcome B) (b : B)
      → then_do x f ≡ returned b
      → (a : A) × (x ≡ returned a) × (f a ≡ returned b)
  unfolding then_do
  then_do-returned (returned a) f b e = (a, refl, e)
  then_do-returned (raised x) f b e = ground arith

module _ (py : Python) (m : Models) where
  -- The keyword `high_stakes` is no field of the gate's configuration.
  gate_answer_lem :
      (c : Crypto) (i : RunInput) (s : EventStore) (o : Output)
      → gate_answer py m c i s o ≡ raised validation_error
  unfolding gate_answer construct binds gate_config_signature gate_config_keywords contains_text
      text_eq codes then_do
  gate_answer_lem c i s o = refl

  module _ (c : Crypto) where
    abbrev IsFailure : Outcome ConsensusResult → Type 0
    IsFailure x = (r : ConsensusResult) → x ≡ returned r → (r.status ≡ fail) × (r.output ≡ none)

    failed-IsFailure : (i : RunInput) (error : Text) → IsFailure (returned (failed_result i error))
    unfolding failed_result
    failed-IsFailure i error r e = ground arith

    raised-IsFailure : (x : Exc) → IsFailure (raised x)
    raised-IsFailure x r e = ground arith

    judged-IsFailure :
        (i : RunInput) (s : EventStore) (stage : Text) (x : Outcome Output)
        → IsFailure (judge_output py m c i s stage x)
    unfolding judge_output failed_result
    judged-IsFailure i s stage (raised e) r h = ground arith
    judged-IsFailure i s stage (returned o) r h = ground (arith, gate_answer_lem c i s o)

    primary-IsFailure : (i : RunInput) (s : EventStore) → IsFailure (run_primary py m c i s)
    unfolding run_primary
    primary-IsFailure i s r h =
        let (spec, _, h) = then_do-returned _ _ r h in
        let (prompt, _, h) = then_do-returned _ _ r h in
        let (raw, _, h) = then_do-returned _ _ r h in
        judged-IsFailure i s (codes "primary_parse_failed")
          (parse_with_repair py m i primary_output raw) r h

    arbitrated-IsFailure :
        (i : RunInput) (s : EventStore) (arbiter : ModelSpec) (x : Outcome (Text × Text))
        → IsFailure (arbitrate_debate py m c i s arbiter x)
    unfolding arbitrate_debate failed_result
    arbitrated-IsFailure i s arbiter (raised e) r h = ground arith
    arbitrated-IsFailure i s arbiter (returned (d, k)) r h =
        judged-IsFailure i s (codes "synth_parse_failed") _ r h

    debate-IsFailure :
        (i : RunInput) (s : EventStore) (d : DebateConfig) → IsFailure (run_debate py m c i s d)
    unfolding run_debate
    debate-IsFailure i s d r h =
        let (defender, _, h) = then_do-returned _ _ r h in
        let (critic, _, h) = then_do-returned _ _ r h in
        let (arbiter, _, h) = then_do-returned _ _ r h in
        let (defender_prompt, _, h) = then_do-returned _ _ r h in
        let (critic_prompt, _, h) = then_do-returned _ _ r h in
        arbitrated-IsFailure i s arbiter _ r h

    outcome-IsFailure :
        (i : RunInput) (s : EventStore) (d : Option DebateConfig)
        → IsFailure (outcome_of_run py m c i s d)
    unfolding outcome_of_run
    outcome-IsFailure i s none r h = primary-IsFailure i s r h
    outcome-IsFailure i s (some d) r h = debate-IsFailure i s d r h

    finish_run_lem :
        (i : RunInput) (debate : Bool) (s : EventStore) (x : Outcome ConsensusResult)
        → (finish_run py m c i debate s x).0 ≡ x
    unfolding finish_run
    finish_run_lem i debate s (returned r) = refl
    finish_run_lem i debate s (raised e) = refl

    -- A run of the consensus never passes or gates an answer: whatever the models write, it returns
    -- a result with the status FAIL and without an output, or ends with an exception.
    pub run_consensus-never_passes :
        (i : RunInput) (s : EventStore) (r : ConsensusResult)
        → (run_consensus py m c i s).0 ≡ returned r
        → (r.status ≡ fail) × (r.output ≡ none)
    unfolding run_consensus
    run_consensus-never_passes i s r h =
        outcome-IsFailure i (start_run py m c i s) (enabled_debate py m c i.config) r
          (sym (finish_run_lem i _ (start_run py m c i s) _) ∙ h)

    finish_raised :
        (i : RunInput) (debate : Bool) (s : EventStore) (x : Outcome ConsensusResult) (e : Exc)
        → x ≡ raised e
        → finish_run py m c i debate s x ≡ (raised e, s)
    unfolding finish_run
    finish_raised i debate s (raised x) e h = ground arith
    finish_raised i debate s (returned r) e h = ground arith

    parsed_returned :
        (i : RunInput) (raw : Text) (o : Output)
        → parsed_output py m primary_output (try_parse_json py raw) ≡ some o
        → parse_with_repair py m i primary_output raw ≡ returned o
    unfolding parse_with_repair
    parsed_returned i raw o accepted = rw (accepted, parse_with_repair) refl

    primary-raises :
        (i : RunInput) (s : EventStore) (prompt raw : Text) (o : Output)
        → m.build i.config.primary ≡ none
        → render_prompt i.config.prompts.primary_template (primary_vars i i.user_query)
          ≡ returned prompt
        → m.generate i.config.primary prompt ≡ returned raw
        → parse_with_repair py m i primary_output raw ≡ returned o
        → run_primary py m c i s ≡ raised validation_error
    unfolding run_primary then_do judge_output built parse_with_repair
    primary-raises i s prompt raw o found rendered generated read =
        rw (found, run_primary, built)
          (rw rendered (rw generated (rw read (gate_answer_lem c i s o))))

    -- A run without a debate whose model writes an answer that the schema accepts ends with a
    -- ValidationError, and no event is stored behind that of its start.
    pub run_consensus-raises :
        (i : RunInput) (s : EventStore) (prompt raw : Text) (o : Output)
        → i.config.enable_debate ≡ false
        → m.build i.config.primary ≡ none
        → render_prompt i.config.prompts.primary_template (primary_vars i i.user_query)
          ≡ returned prompt
        → m.generate i.config.primary prompt ≡ returned raw
        → parsed_output py m primary_output (try_parse_json py raw) ≡ some o
        → run_consensus py m c i s ≡ (raised validation_error, start_run py m c i s)
    unfolding run_consensus outcome_of_run enabled_debate
    run_consensus-raises i s prompt raw o single found rendered generated accepted =
        let ends : run_primary py m c i (start_run py m c i s) ≡ raised validation_error =
          primary-raises i (start_run py m c i s) prompt raw o found rendered generated
            (parsed_returned i raw o accepted) in
        let alone : enabled_debate py m c i.config ≡ none = rw (single, enabled_debate) refl in
        finish_raised i (debates py m c (enabled_debate py m c i.config)) (start_run py m c i s) _
          validation_error (ap (outcome_of_run py m c i (start_run py m c i s)) alone ∙ ends)
