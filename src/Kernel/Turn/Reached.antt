-- ===== src/Kernel/Turn/Reached.antt =====
-- What any number of turns makes of a new session.
use beaconwise_tek.Base.{
  ℕ, Option, none, some, ◌+◌, ◌≡◌, refl, sym, ap, ◌∙◌, true, false, [], arith, Text, codes, length,
  length-append,
}
use beaconwise_tek.Json.{Fields}
use beaconwise_tek.Tsv.{TsvState}
use beaconwise_tek.Kernel.Host.{Host}
use beaconwise_tek.Epack.{new_epack}
use beaconwise_tek.Kernel.Session.{a_standard, empty_gate}
use beaconwise_tek.Kernel.Gates.Pending.{Session}
use beaconwise_tek.Kernel.Seal.{Machine, SealInput, TurnReply, seal, seal_record}
use beaconwise_tek.Kernel.Seal.Chained.{IsChained, IsStored, seal-IsChained, seal-IsStored}
use beaconwise_tek.Kernel.Turn.{TurnInput, Answer, answer, seal_reply, handle_turn}
use beaconwise_tek.Kernel.Turn.Ledger.{Next, answer-Next}

-- `SessionState(session_id=..)`, with a state of the beliefs
unfoldable pub new_session : (h : Host) → Text → TsvState h.floats → Session h
new_session h session_id tsv = record {
  session_id = session_id;
  session_secret = [];
  interaction_count = 0;
  current_profile = a_standard;
  pending_gate = empty_gate;
  traces = [];
  reflect_confirmed = false;
  scaffold_approved = false;
  workflow_queue = [];
  tsv = tsv;
  epack_seq = 0;
  epack_prev_hash = codes "GENESIS";
  epacks = [];
  last_persisted_seq = 0;
  last_failure_interaction = 0;
}

-- 1 for a turn that returned, 0 for one that raised
abbrev pub count_reply : {h : Host} → Option (TurnReply h) → ℕ
count_reply none = 0
count_reply (some r) = 1

-- The machines that turns lead to from a new session and an empty file: how many turns, and how many
-- of them returned.
pub data Reached (h : Host) : ℕ → ℕ → Machine h → Type 0 where
  started :
      (session_id : Text) (tsv : TsvState h.floats)
      → Reached h 0 0 (record { session = new_session h session_id tsv; store = [] })
  turned :
      {n k : ℕ} {m : Machine h} (i : TurnInput h) (user_text : Text)
      → Reached h n k m
      → Reached h
          (n + 1)
          (k + count_reply (handle_turn h m i user_text).1)
          (handle_turn h m i user_text).0

-- What holds between two turns.
abbrev pub Settled : (h : Host) → ℕ → ℕ → Machine h → Type 0
Settled h n k m =
    IsChained h m.session
    × (m.session.workflow_queue ≡ [])
    × (m.session.interaction_count ≡ n)
    × (m.session.epack_seq ≡ k)
    × (length m.session.epacks ≡ k)

module _ (h : Host) where
  -- What `_seal` does to a session that a turn has answered, and nothing where it has raised.
  sealed-Settled :
      (n k : ℕ) (m : Machine h) (i : SealInput h) (user_text : Text) (r : Option (Text × Fields))
      → Settled h n k m
      → Settled h n
          (k + count_reply (seal_reply h m i user_text r).1)
          (seal_reply h m i user_text r).0
  unfolding seal_reply seal seal_record new_epack
  sealed-Settled n k m i user_text none (c, e, count, seq, l) =
      (c, e, count, omega (arith, seq), omega (arith, l))
  sealed-Settled n k m i user_text (some (text, extra)) (c, e, count, seq, l) = (
    seal-IsChained h m i user_text text extra c,
    e,
    count,
    omega (arith, seq),
    length-append m.session.epacks _ ∙ ap (λ j. j + 1) l,
  )

  sealed-IsStored :
      (m : Machine h) (i : SealInput h) (user_text : Text) (r : Option (Text × Fields))
      → h.settings.persist_epacks ≡ true
      → IsStored h m
      → IsStored h (seal_reply h m i user_text r).0
  unfolding seal_reply
  sealed-IsStored m i user_text none on st = st
  sealed-IsStored m i user_text (some (text, extra)) on st =
      seal-IsStored h m i user_text text extra on st

  turn-Settled :
      (n k : ℕ) (m : Machine h) (i : TurnInput h) (user_text : Text)
      → Settled h n k m
      → Settled h
          (n + 1)
          (k + count_reply (handle_turn h m i user_text).1)
          (handle_turn h m i user_text).0
  unfolding handle_turn
  turn-Settled n k m i user_text (c, e, count, seq, l) =
      let a : Answer h = answer h i m.session user_text in
      let next : Next h m.session a.session = answer-Next h i m.session user_text e in
      sealed-Settled (n + 1) k (record m { session = a.session }) i.seal_input user_text a.reply
        (
          rw (next.4, next.2, next.3) c,
          next.1,
          next.0 ∙ ap (λ j. j + 1) count,
          next.2 ∙ seq,
          ap length next.4 ∙ l,
        )

  turn-IsStored :
      (m : Machine h) (i : TurnInput h) (user_text : Text)
      → h.settings.persist_epacks ≡ true
      → m.session.workflow_queue ≡ []
      → IsStored h m
      → IsStored h (handle_turn h m i user_text).0
  unfolding handle_turn
  turn-IsStored m i user_text on e (p, l) =
      let a : Answer h = answer h i m.session user_text in
      let next : Next h m.session a.session = answer-Next h i m.session user_text e in
      sealed-IsStored (record m { session = a.session }) i.seal_input user_text a.reply on
        (rw next.4 p, next.5 ∙ (l ∙ sym next.2))

  -- After any number of turns from a new session, of which some may have raised an exception in the
  -- generation, the tools or the validators, the session counts all turns, its records are chained
  -- from GENESIS, there are exactly as many as turns that returned, the last number is that count,
  -- and no step of a workflow is left.
  pub Reached-Settled : {n k : ℕ} {m : Machine h} → Reached h n k m → Settled h n k m
  unfolding new_session
  Reached-Settled (started session_id tsv) = ((refl, refl), refl, refl, refl, refl)
  Reached-Settled (turned {n} {k} {m} i user_text r) =
      turn-Settled n k m i user_text (Reached-Settled r)

  -- With persistence on, the file holds the records of the session, in order and up to the
  -- redaction of their payloads, after any number of turns from a new session and an empty file.
  pub Reached-IsStored :
      {n k : ℕ} {m : Machine h} → Reached h n k m → h.settings.persist_epacks ≡ true → IsStored h m
  unfolding new_session
  Reached-IsStored (started session_id tsv) on = (tt, refl)
  Reached-IsStored (turned {n} {k} {m} i user_text r) on =
      turn-IsStored m i user_text on (Reached-Settled r).1 (Reached-IsStored r on)
