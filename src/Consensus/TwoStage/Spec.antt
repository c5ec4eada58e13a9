-- ===== src/Consensus/TwoStage/Spec.antt =====
-- Names of models, and what the two-stage run can give.
use beaconwise_tek.Base.{
  ℕ, ◌≡◌, refl, sym, ap, ◌∙◌, true, false, none, some, [], ◌∷◌, ◌++◌, arith, Text, truthy,
}
use beaconwise_tek.Stable.{Crypto, has_char, split_at}
use beaconwise_tek.Kernel.Patterns.{strip}
use beaconwise_tek.Validation.Checked.{Python}
use beaconwise_tek.Consensus.Ledger.{EventStore}
use beaconwise_tek.Consensus.Calls.{returned}
use beaconwise_tek.Consensus.Flow.{fail, Models, ConsensusResult}
use beaconwise_tek.Consensus.Flow.Verdict.{then_do-returned, run_consensus-never_passes}
use beaconwise_tek.Consensus.TwoStage.{
  model_spec, model_str_to_spec, TwoStageInput, two_stage_config, two_stage_run, TwoStageReply,
  two_stage_reply, run_two_stage_consensus,
}

split_lem :
    (p m : Text)
    → has_char b':' p ≡ false
    → (has_char b':' (p ++ b':' ∷ m) ≡ true) × (split_at b':' (p ++ b':' ∷ m) ≡ (p, m))
unfolding has_char split_at
split_lem [] m h = (refl, refl)
split_lem (x ∷ p) m h = ground (arith, split_lem p m)

model_spec_lem :
    (p m : Text) (timeout_s : ℕ)
    → truthy (strip p) ≡ true
    → truthy (strip m) ≡ true
    → model_spec p m timeout_s
      ≡ returned record { provider = strip p; model = strip m; timeout_s = some timeout_s }
unfolding model_spec
model_spec_lem p m timeout_s pf mf = rw (pf, mf) refl

-- A name `provider:model` gives the model of that provider, each without the white space around it,
-- whatever the model's name holds, when the provider has no colon and neither is blank.
pub model_str_to_spec-named :
    (p m : Text) (timeout_s : ℕ)
    → has_char b':' p ≡ false
    → truthy (strip (strip p)) ≡ true
    → truthy (strip (strip m)) ≡ true
    → model_str_to_spec (p ++ b':' ∷ m) timeout_s
      ≡ returned
          record { provider = strip (strip p); model = strip (strip m); timeout_s = some timeout_s }
unfolding model_str_to_spec
model_str_to_spec-named p m timeout_s h pf mf =
    let (there, parts) = split_lem p m h in
    rw (there, model_str_to_spec) (rw parts (model_spec_lem (strip p) (strip m) timeout_s pf mf))

reply_lem :
    (r : ConsensusResult) (t : TwoStageReply)
    → (r.status ≡ fail) × (r.output ≡ none)
    → returned (two_stage_reply r) ≡ returned t
    → (t.final ≡ none) × (t.status ≡ fail)
unfolding two_stage_reply
reply_lem r t (failed, empty) e =
    let same : two_stage_reply r ≡ t = cc in
    (
      sym (ap (λ x. x.final) same) ∙ rw (empty, two_stage_reply) refl,
      sym (ap (λ x. x.status) same) ∙ failed,
    )

-- The two-stage run never gives an answer: what it returns has no final text and the status FAIL.
pub run_two_stage_consensus-no_answer :
    (py : Python) (m : Models) (c : Crypto) (t : TwoStageInput) (s : EventStore) (r : TwoStageReply)
    → run_two_stage_consensus py m c t s ≡ returned r
    → (r.final ≡ none) × (r.status ≡ fail)
unfolding run_two_stage_consensus
run_two_stage_consensus-no_answer py m c t s r e =
    let (primary, _, e) = then_do-returned _ _ r e in
    let (challenger, _, e) = then_do-returned _ _ r e in
    let (arbiter, _, e) = then_do-returned _ _ r e in
    let (result, ran, e) = then_do-returned _ _ r e in
    reply_lem result r
      (run_consensus-never_passes py m c
        (two_stage_run t (two_stage_config primary challenger arbiter)) s result ran)
      e
