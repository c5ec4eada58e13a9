-- ===== src/Kernel/Turn/Ledger.antt =====
-- What a whole turn does to the ledger of the session and to its workflow queue.
use beaconwise_tek.Base.{
  ℕ, Option, none, some, ◌+◌, ◌≡◌, refl, ◌∙◌, inl, inr, Bool, false, List, [], ◌∷◌, arith,
  Bool-cases, Text, codes,
}
use beaconwise_tek.Json.{Fields, str, field}
use beaconwise_tek.Kernel.Host.{Host}
use beaconwise_tek.Kernel.Session.{PendingGate, Aru, bound, reflect, scaffold, deferred, tdm}
use beaconwise_tek.Kernel.Gates.{GateMeta, cleared_reflect, cleared_scaffold}
use beaconwise_tek.Kernel.Gates.Pending.{Session, trace, set_pending_gate}
use beaconwise_tek.Kernel.Gates.Handle.{GateReply, handle_pending_gate}
use beaconwise_tek.Kernel.Gates.Audit.{SameRest, handle-SameRest}
use beaconwise_tek.Kernel.Router.{InputVector, build_input_vector, route_aru_sequence}
use beaconwise_tek.Validation.Checked.{ValidationAttempt}
use beaconwise_tek.Kernel.Tdm.{
  Services, Loop, after_loop, escalate_profile, generate_validated, execute_tdm,
}
use beaconwise_tek.Kernel.Turn.{
  TurnInput, ensure_session_secret, chain_hooks, notify_reflect_confirmed_hook,
  notify_scaffold_approved_hook, enter_gate, said, chained_scaffold, run_tdm, on_route, on_queue,
  begin, after_gate, answer, dequeued,
}

-- The fields of a session that only `_seal`, the count of turns and the queue change.
pub record Kept (h : Host) (s t : Session h) : Type 0 where
  pub interaction_count : t.interaction_count ≡ s.interaction_count
  pub workflow_queue : t.workflow_queue ≡ s.workflow_queue
  pub epack_seq : t.epack_seq ≡ s.epack_seq
  pub epack_prev_hash : t.epack_prev_hash ≡ s.epack_prev_hash
  pub epacks : t.epacks ≡ s.epacks
  pub last_persisted_seq : t.last_persisted_seq ≡ s.last_persisted_seq

abbrev tail : {A : Type 0} → List A → List A
tail [] = []
tail (x ∷ xs) = xs

module _ (h : Host) where
  Kept-refl : (s : Session h) → Kept h s s
  Kept-refl s = record {
    interaction_count = refl;
    workflow_queue = refl;
    epack_seq = refl;
    epack_prev_hash = refl;
    epacks = refl;
    last_persisted_seq = refl;
  }

  Kept-trans : {s t u : Session h} → Kept h s t → Kept h t u → Kept h s u
  Kept-trans a b = record {
    interaction_count = b.interaction_count ∙ a.interaction_count;
    workflow_queue = b.workflow_queue ∙ a.workflow_queue;
    epack_seq = b.epack_seq ∙ a.epack_seq;
    epack_prev_hash = b.epack_prev_hash ∙ a.epack_prev_hash;
    epacks = b.epacks ∙ a.epacks;
    last_persisted_seq = b.last_persisted_seq ∙ a.last_persisted_seq;
  }

  escalate-Kept :
      (s : Session h) (attempts : List (ValidationAttempt h.floats)) (shift : Bool)
      → Kept h s (escalate_profile h s attempts shift)
  unfolding escalate_profile trace
  escalate-Kept s attempts shift = ground arith

  loop-Kept :
      (sv : Services h.floats) (s : Session h) (n : ℕ) (thr : h.floats.F) (l : Option (Loop h))
      → Kept h s (after_loop h sv s n thr l).0
  unfolding after_loop
  loop-Kept sv s n thr none = Kept-refl s
  loop-Kept sv s n thr (some l) = escalate-Kept s l.attempts false

  tdm-Kept :
      (sv : Services h.floats) (s : Session h) (iv : InputVector h.floats)
      → Kept h s (execute_tdm h sv s iv).0
  unfolding execute_tdm generate_validated
  tdm-Kept sv s iv =
      let kept = Kept-refl s in
      let generated : Kept h s (generate_validated h sv s iv.user_text).0 = loop-Kept sv s _ _ _ in
      ground arith

  gate-Kept :
      (gate : PendingGate) (payload : Fields) (event : Text) (why : Fields → Fields) (s : Session h)
      → Kept h s (enter_gate h gate payload event why s)
  unfolding enter_gate set_pending_gate trace
  gate-Kept gate payload event why s = ground arith

  route-Kept :
      (i : TurnInput h) (s : Session h) (iv : InputVector h.floats) (r : Aru × Text)
      → Kept h s (on_route h i s iv r).session
  unfolding on_route run_tdm said
  route-Kept i s iv (bound, why) = Kept-refl s
  route-Kept i s iv (deferred, why) = Kept-refl s
  route-Kept i s iv (reflect, why) = gate-Kept _ _ _ (field (codes "why") (str why)) s
  route-Kept i s iv (scaffold, why) = gate-Kept _ _ _ (field (codes "why") (str why)) s
  route-Kept i s iv (tdm, why) = tdm-Kept i.services s iv

  dequeued-Kept :
      (s : Session h) (next : Aru) (q : List Aru)
      → Kept h (record s { workflow_queue = q }) (dequeued h next q s)
  unfolding dequeued trace
  dequeued-Kept s next q = ground arith

  queue-Kept :
      (i : TurnInput h) (s : Session h) (iv : InputVector h.floats) (q : List Aru)
      → s.workflow_queue ≡ q
      → Kept h (record s { workflow_queue = tail q }) (on_queue h i s iv q).session
  unfolding on_queue run_tdm chained_scaffold said
  queue-Kept i s iv [] e = let k = route-Kept i s iv (route_aru_sequence h iv s) in ground arith
  queue-Kept i s iv (tdm ∷ q) e =
      Kept-trans (dequeued-Kept s tdm q) (tdm-Kept i.services (dequeued h tdm q s) iv)
  queue-Kept i s iv (scaffold ∷ q) e =
      Kept-trans (dequeued-Kept s scaffold q) (gate-Kept _ _ _ (λ f. f) (dequeued h scaffold q s))
  queue-Kept i s iv (bound ∷ q) e =
      Kept-trans (dequeued-Kept s bound q)
        (let t = dequeued h bound q s in route-Kept i t iv (route_aru_sequence h iv t))
  queue-Kept i s iv (reflect ∷ q) e =
      Kept-trans (dequeued-Kept s reflect q)
        (let t = dequeued h reflect q s in route-Kept i t iv (route_aru_sequence h iv t))
  queue-Kept i s iv (deferred ∷ q) e =
      Kept-trans (dequeued-Kept s deferred q)
        (let t = dequeued h deferred q s in route-Kept i t iv (route_aru_sequence h iv t))

  -- The ledger of a session, and a count that is one more.
  abbrev pub Next : Session h → Session h → Type 0
  Next s t =
      (t.interaction_count ≡ s.interaction_count + 1)
      × (t.workflow_queue ≡ [])
      × (t.epack_seq ≡ s.epack_seq)
      × (t.epack_prev_hash ≡ s.epack_prev_hash)
      × (t.epacks ≡ s.epacks)
      × (t.last_persisted_seq ≡ s.last_persisted_seq)

  hooks-Kept :
      (m : GateMeta) (iv : InputVector h.floats) (s : Session h)
      → s.workflow_queue ≡ []
      → Kept h s (record (chain_hooks h m iv s) {
        workflow_queue = tail (chain_hooks h m iv s).workflow_queue;
      })
  unfolding chain_hooks notify_reflect_confirmed_hook notify_scaffold_approved_hook
  hooks-Kept (cleared_reflect x) iv s e = ground arith
  hooks-Kept (cleared_scaffold x) iv s e = ground arith
  hooks-Kept _ iv s e = ground arith

  pub answer-Next :
      (i : TurnInput h) (s : Session h) (user_text : Text)
      → s.workflow_queue ≡ []
      → Next s (answer h i s user_text).session
  unfolding answer begin ensure_session_secret after_gate said
  answer-Next i s user_text e =
      let b : Session h = begin h i.secret s in
      let g : GateReply h = handle_pending_gate h b user_text in
      let same : SameRest h b g.session = handle-SameRest h b user_text in
      let iv : InputVector h.floats =
        build_input_vector h (i.services.stage2 user_text) user_text in
      let c : Session h = chain_hooks h g.meta iv g.session in
      let begun : Next s b = ground arith in
      let hooked = hooks-Kept g.meta iv g.session (same.workflow_queue ∙ begun.1) in
      let queued = queue-Kept i c iv c.workflow_queue refl in
      elim (Bool-cases g.handled) [ inl y ↦ ground arith | inr n ↦ ground arith ]
