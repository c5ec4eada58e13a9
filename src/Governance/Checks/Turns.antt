-- ===== src/Governance/Checks/Turns.antt =====
-- The constitution's checks on the sessions of the kernel.
use beaconwise_tek.Base.{
  ℕ, leb, Option, none, some, ◌+◌, ◌≡◌, refl, ◌∙◌, true, false, [], arith, Text, length,
}
use beaconwise_tek.Json.{Json, Fields}
use beaconwise_tek.Stable.{IsCollisionFree, stable_hash}
use beaconwise_tek.Kernel.Host.{Host}
use beaconwise_tek.Kernel.Seal.{Machine, SealInput, TurnReply, seal, seal_record, seal_payload}
use beaconwise_tek.Kernel.Turn.{TurnInput, Answer, answer, seal_reply, handle_turn}
use beaconwise_tek.Kernel.Turn.Reached.{Reached, Reached-Settled}
use beaconwise_tek.Epack.{sign_payload_hash}
use beaconwise_tek.Governance.Proof.{verify_epack_chain}
use beaconwise_tek.Governance.Proof.Sealed.{new_epack-rejected}
use beaconwise_tek.Governance.Checks.{
  check_result, check_audit_completeness, any_critical_violations, CheckInput,
  run_constitutional_checks,
}
use beaconwise_tek.Governance.Checks.Verdict.{any_critical_violations-run}

module _ (h : Host) where
  -- After any number of turns from a new session, the check that every interaction has its record
  -- passes exactly if all turns returned.
  pub Reached-completes :
      {n k : ℕ} {m : Machine h}
      → Reached h n k m
      → (check_audit_completeness m.session.interaction_count (length m.session.epacks)).passed
        ≡ leb n k
  unfolding check_audit_completeness check_result
  Reached-completes r = let (c, e, count, seq, l) = Reached-Settled h r in rw (count, l) refl

  reply-rejected :
      IsCollisionFree h.crypto
      → (m : Machine h) (i : SealInput h) (user_text : Text) (a : Option (Text × Fields))
        (r : TurnReply h)
      → (seal_reply h m i user_text a).1 ≡ some r
      → (verify_epack_chain h.floats h.crypto (seal_reply h m i user_text a).0.session.epacks).0
        ≡ false
  unfolding seal_reply seal seal_record
  reply-rejected f m i user_text none r e = cc
  reply-rejected f m i user_text (some (text, extra)) r e =
      let payload : Json = seal_payload h m.session i user_text text extra in
      new_epack-rejected h.floats h.crypto f i.ts (m.session.epack_seq + 1)
        m.session.epack_prev_hash payload (stable_hash h.crypto payload)
        (sign_payload_hash h.crypto h.settings.signing_key (stable_hash h.crypto payload))
        m.session.epacks []

  pub turn-rejected :
      IsCollisionFree h.crypto
      → (m : Machine h) (i : TurnInput h) (user_text : Text) (r : TurnReply h)
      → (handle_turn h m i user_text).1 ≡ some r
      → (verify_epack_chain h.floats h.crypto (handle_turn h m i user_text).0.session.epacks).0
        ≡ false
  unfolding handle_turn
  turn-rejected f m i user_text r e =
      let a : Answer h = answer h i m.session user_text in
      reply-rejected f (record m { session = a.session }) i.seal_input user_text a.reply r e

  -- Under a hash without collisions, the constitution reports a critical violation for the records
  -- of every session behind a turn of the kernel that returned, whatever else is checked with them: the
  -- kernel and the check of the hash chain hash different headers.
  pub handle_turn-violates :
      IsCollisionFree h.crypto
      → (m : Machine h) (i : TurnInput h) (user_text : Text) (r : TurnReply h)
        (k : CheckInput h.floats h.crypto)
      → (handle_turn h m i user_text).1 ≡ some r
      → k.epack_chain ≡ (handle_turn h m i user_text).0.session.epacks
      → any_critical_violations (run_constitutional_checks h.floats h.crypto k) ≡ true
  handle_turn-violates f m i user_text r k returned e =
      let bad : (verify_epack_chain h.floats h.crypto k.epack_chain).0 ≡ false =
        rw e (turn-rejected f m i user_text r returned) in
      any_critical_violations-run h.floats h.crypto k ∙ rw bad (ground arith)
