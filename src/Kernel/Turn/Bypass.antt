-- ===== src/Kernel/Turn/Bypass.antt =====
-- Which turns reach the language model: the route refuses what the filters of safety refuse, and the
-- queue of the workflow goes past the route.
use beaconwise_tek.Base.{
  Option, none, some, ◌≤◌, ◌≡◌, refl, ap, ◌∙◌, ◌⊎◌, true, false, not, [], ◌∷◌, arith, Text,
}
use beaconwise_tek.Json.{Fields}
use beaconwise_tek.Kernel.Host.{Host}
use beaconwise_tek.Kernel.Session.{tdm, is_active}
use beaconwise_tek.Kernel.Gates.{GateMeta, cleared_reflect, cleared_scaffold}
use beaconwise_tek.Kernel.Gates.Pending.{Session}
use beaconwise_tek.Kernel.Gates.Handle.{GateReply, handle_pending_gate}
use beaconwise_tek.Kernel.Gates.Consent.{is_cleared}
use beaconwise_tek.Kernel.Gates.Effect.{handle-Implements, goes_on}
use beaconwise_tek.Kernel.Router.{
  InputVector, stage1, count_words, estimate_complexity, build_input_vector, route_aru_sequence,
}
use beaconwise_tek.Kernel.Tdm.{execute_tdm}
use beaconwise_tek.Kernel.Turn.{
  TurnInput, chained_extra, said, text_of_reply, with_meta, chain_hooks,
  notify_reflect_confirmed_hook, notify_scaffold_approved_hook, bound_text, dequeued, run_tdm,
  on_route, on_queue, begin, ensure_session_secret, after_gate, answer,
}

module _ (h : Host) where
  -- The facts that `_build_input_vector` finds for a text.
  abbrev pub facts : TurnInput h → Text → InputVector h.floats
  facts i user_text = build_input_vector h (i.services.stage2 user_text) user_text

  -- A text that the filter of stage 1 or of stage 2 refuses, with no gate pending and no step of a
  -- workflow queued, gets the answer BOUND, and the turn changes nothing of the session before its
  -- record but the count of turns and a missing secret.
  pub unsafe-bound :
      (i : TurnInput h) (s : Session h) (user_text : Text)
      → is_active s.pending_gate ≡ false
      → s.workflow_queue ≡ []
      → ((stage1 user_text).0 ≡ false) ⊎ ((i.services.stage2 user_text).ok ≡ false)
      → (answer h i s user_text).session ≡ begin h i.secret s
        × text_of_reply (answer h i s user_text).reply ≡ some (bound_text h i (facts i user_text))
  unfolding answer after_gate handle_pending_gate chain_hooks on_queue on_route route_aru_sequence
      begin ensure_session_secret build_input_vector said
  unsafe-bound i s user_text idle empty refused = ground arith

  short-no_scaffold :
      (i : TurnInput h) (user_text : Text)
      → count_words false user_text ≤ 60
      → (facts i user_text).requires_scaffold ≡ false
  unfolding build_input_vector estimate_complexity
  short-no_scaffold i user_text short = ground arith

  cleared-tdm :
      (m : GateMeta) (iv : InputVector h.floats) (s : Session h)
      → is_cleared m ≡ true
      → iv.requires_scaffold ≡ false
      → (chain_hooks h m iv s).workflow_queue ≡ tdm ∷ []
  unfolding chain_hooks notify_reflect_confirmed_hook notify_scaffold_approved_hook
  cleared-tdm (cleared_reflect x) iv s c e = ground arith
  cleared-tdm (cleared_scaffold x) iv s c e = refl
  cleared-tdm _ iv s c e = cc

  cleared-goes_on : (m : GateMeta) → is_cleared m ≡ true → goes_on m ≡ true
  cleared-goes_on (cleared_reflect x) c = refl
  cleared-goes_on (cleared_scaffold x) c = refl
  cleared-goes_on _ c = cc

  cleared-unhandled :
      (s : Session h) (user_text : Text)
      → is_cleared (handle_pending_gate h s user_text).meta ≡ true
      → (handle_pending_gate h s user_text).handled ≡ false
  cleared-unhandled s user_text c =
      (handle-Implements h s user_text).1
      ∙ ap not (cleared-goes_on (handle_pending_gate h s user_text).meta c)

  with_meta-text_of_reply :
      (extra : Fields → Fields) (r : Option (Text × Fields))
      → text_of_reply (with_meta extra r) ≡ text_of_reply r
  unfolding with_meta
  with_meta-text_of_reply extra none = refl
  with_meta-text_of_reply extra (some (text, meta)) = refl

  -- A text of at most 60 words that clears a pending gate is itself answered by `_execute_tdm`, or
  -- ends with the exception that this raises, in the same turn, whatever the filters of safety and the domain of the text are, and whatever
  -- the request behind the gate requires.
  pub confirmed-tdm :
      (i : TurnInput h) (s : Session h) (user_text : Text)
      → is_cleared (handle_pending_gate h (begin h i.secret s) user_text).meta ≡ true
      → count_words false user_text ≤ 60
      → (t : Session h) × (text_of_reply (answer h i s user_text).reply
          ≡ text_of_reply (execute_tdm h i.services t (facts i user_text)).1)
  unfolding answer after_gate on_queue run_tdm
  confirmed-tdm i s user_text c short =
      let g : GateReply h = handle_pending_gate h (begin h i.secret s) user_text in
      let iv : InputVector h.floats = facts i user_text in
      let u : Session h = chain_hooks h g.meta iv g.session in
      let on = cleared-unhandled (begin h i.secret s) user_text c in
      let queue : u.workflow_queue ≡ tdm ∷ [] =
        cleared-tdm g.meta iv g.session c (short-no_scaffold i user_text short) in
      (dequeued h tdm [] u, rw (on, queue) (with_meta-text_of_reply (chained_extra h iv) _))
