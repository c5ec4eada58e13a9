-- ===== src/Kernel/Turn.antt =====
-- src/ecosphere/kernel/engine.py: `handle_turn` in its default mode (BW_KERNEL_MODE is not "v9"),
-- with the hooks of the workflow queue. Every turn that raises no exception ends with `_seal`; `answer`
-- is what comes before.
pub mod Bypass
pub mod Ledger
pub mod Reached
use beaconwise_tek.Base.{
  ℕ, zero, suc, ◌+◌, ◌-◌, ◌*◌, ◌≤◌, ◌<◌, String, ◌≡◌, refl, sym, ap, ◌∙◌, subst, ◌≢◌, ◌↔◌, ◌⊎◌, inl,
  inr, Bool, true, false, not, ◌&&◌, ◌||◌, Option, none, some, List, [], ◌∷◌, ◌++◌, map,
  append_assoc, append-nil, arith, ltb, leb, ◌==◌, if◌then◌else◌, ltb→lt, lt→ltb, leb→le, le→leb,
  ==→eq, eq→==, Bool-cases, and_true, Option-cases, Text, codes, text_eq, text_lt, text_eq→eq,
  text_eq_refl, eq→text_eq, truthy, length, take, drop, take_last, any, all, length-append,
}
use beaconwise_tek.Float.{Floats}
use beaconwise_tek.Json.{
  Json, Items, Fields, null, bool, num, real, str, arr, obj, nil, cons, end, field,
}
use beaconwise_tek.Stable.{Crypto, stable_hash}
use beaconwise_tek.Kernel.Host.{Host}
use beaconwise_tek.Kernel.Session.{
  Profile, profile_text, PendingGate, no_gate, reflect_confirm, scaffold_approve, gate_text, Aru,
  bound, reflect, scaffold, deferred, tdm, Epack, SessionState,
}
use beaconwise_tek.Kernel.Patterns.{strip}
use beaconwise_tek.Kernel.Gates.{
  GateMeta, no_meta, timeout, revision, replay, was_rejected, mismatch, token_missing, unclear,
  cleared_reflect, cleared_scaffold, gate_meta_fields,
}
use beaconwise_tek.Kernel.Gates.Pending.{
  Session, trace, set_pending_gate, render_reflect_prompt, render_scaffold_prompt,
}
use beaconwise_tek.Kernel.Gates.Handle.{GateReply, handle_pending_gate}
use beaconwise_tek.Kernel.Router.{
  InputVector, domain_text, Stage2Result, build_input_vector, route_aru_sequence, iv_json,
}
use beaconwise_tek.Kernel.Tdm.{Services, execute_tdm}
use beaconwise_tek.Kernel.Seal.{Machine, SealInput, TurnReply, seal}

-- What a turn takes from outside: a fresh `secrets.token_hex(16)`, the layout `.3f` of a float, the
-- services, and what the record is sealed with.
pub record TurnInput (h : Host) : Type 0 where
  pub secret : Text
  pub three_decimals : h.floats.F → Text
  pub services : Services h.floats
  pub seal_input : SealInput h

-- The session before `_seal`, and what is sealed: the text of the answer and `extra`, or nothing where
-- `_execute_tdm` raises. What a turn did to the session before it raised stays done.
pub record Answer (h : Host) : Type 0 where
  pub session : Session h
  pub reply : Option (Text × Fields)

unfoldable pub said : (h : Host) → Text → Fields → Session h → Answer h
said h text extra s = record { session = s; reply = some (text, extra) }

-- The text of a reply
abbrev pub text_of_reply : Option (Text × Fields) → Option Text
text_of_reply none = none
text_of_reply (some (text, extra)) = some text

-- The metadata of a generated text as the last part of `extra`
unfoldable pub with_meta : (Fields → Fields) → Option (Text × Fields) → Option (Text × Fields)
with_meta extra none = none
with_meta extra (some (text, meta)) = some (text, extra (field (codes "gen_meta") (obj meta) end))

unfoldable pub aru_text : Aru → Text
aru_text bound = codes "BOUND"
aru_text reflect = codes "REFLECT"
aru_text scaffold = codes "SCAFFOLD"
aru_text deferred = codes "DEFER"
aru_text tdm = codes "TDM"

-- `f"{b}"`
unfoldable pub bool_text : Bool → Text
bool_text true = codes "True"
bool_text false = codes "False"

-- Lines, each with its line break.
unfoldable pub lines : List Text → Text
lines [] = []
lines (l ∷ ls) = l ++ (10 ∷ lines ls)

abbrev pub plan_text : Text
plan_text = lines (
    codes "Plan:"
    ∷ codes "1) Confirm requirements and constraints"
    ∷ codes "2) Propose architecture / approach"
    ∷ codes "3) Provide implementation steps"
    ∷ codes "4) Provide test + validation checklist"
    ∷ [])

abbrev pub defer_text : Text
defer_text =
    lines (
      codes
        "DEFER: This is high-stakes. I need strong verification evidence (E3) before proceeding."
      ∷ codes "To continue safely:"
      ∷ codes "1) Provide authoritative sources you want used, OR"
      ∷ codes "2) Describe your verification method, OR"
      ∷ [])
    ++ codes "3) Narrow to general, non-actionable info."

module _ (h : Host) where
  -- `_ensure_session_secret`
  unfoldable pub ensure_session_secret : Text → Session h → Session h
  ensure_session_secret secret s =
      if truthy s.session_secret then s else record s { session_secret = secret }

  unfoldable pub notify_reflect_confirmed_hook : InputVector h.floats → Session h → Session h
  notify_reflect_confirmed_hook iv s =
      if iv.requires_scaffold && not s.scaffold_approved
      then record s { workflow_queue = scaffold ∷ [] }
      else record s { workflow_queue = tdm ∷ [] }

  unfoldable pub notify_scaffold_approved_hook : Session h → Session h
  notify_scaffold_approved_hook s = record s { workflow_queue = tdm ∷ [] }

  -- The step behind a gate that did not end the turn.
  unfoldable pub chain_hooks : GateMeta → InputVector h.floats → Session h → Session h
  unfolding notify_reflect_confirmed_hook notify_scaffold_approved_hook
  chain_hooks (cleared_reflect status) iv s = notify_reflect_confirmed_hook iv s
  chain_hooks (cleared_scaffold status) iv s = notify_scaffold_approved_hook s
  chain_hooks _ iv s = s

  unfoldable pub bound_text : TurnInput h → InputVector h.floats → Text
  unfolding bool_text lines
  bound_text i iv =
      lines (
        codes "BOUND: I can’t help with that."
        ∷ (codes "Reason: safe="
            ++ (bool_text iv.safe
                ++ (codes " | s1_ok="
                    ++ (bool_text iv.safe_stage1_ok
                        ++ (codes " ("
                            ++ (iv.safe_stage1_reason
                                ++ (codes ") | s2_ok="
                                    ++ (bool_text iv.safe_stage2_ok
                                        ++ (codes " score="
                                            ++ i.three_decimals iv.safe_stage2_score)))))))))
        ∷ [])
      ++ codes "REDIRECT: Ask for safe, lawful, non-harmful info instead."

  -- `extra` of a routed turn, and of a step of the queue; `rest` comes behind.
  unfoldable pub route_extra : Aru → Text → InputVector h.floats → Fields → Fields
  route_extra aru why iv rest =
      field (codes "route")
        (obj (
          field (codes "seq") (arr (cons (str (aru_text aru)) nil))
            (field (codes "why") (str why) end)))
        (field (codes "iv") (iv_json h iv) rest)

  unfoldable pub chained_extra : InputVector h.floats → Fields → Fields
  chained_extra iv rest =
      field (codes "workflow") (str (codes "chained")) (field (codes "iv") (iv_json h iv) rest)

  -- The payload of both gates, up to its last fields.
  unfoldable pub gate_payload : InputVector h.floats → Fields → Fields
  gate_payload iv rest = field (codes "user_text_hash") (str iv.user_text_hash) (
      field (codes "domain") (str (domain_text iv.domain))
        (field (codes "complexity") (num iv.complexity) rest))

  -- A new gate and its trace; `why` comes before the token.
  unfoldable pub enter_gate :
      PendingGate → Fields → Text → (Fields → Fields) → Session h → Session h
  enter_gate gate payload event why s =
      let t : Session h = set_pending_gate h gate payload s in
      trace h (gate_text no_gate) (gate_text gate) event
        (why (field (codes "token") (str t.pending_gate.confirm_token) end)) t

  unfoldable pub chained_scaffold : Session h → InputVector h.floats → Answer h
  unfolding said gate_payload enter_gate chained_extra
  chained_scaffold s iv =
      let t : Session h =
        enter_gate scaffold_approve
          (gate_payload iv (
            field (codes "plan_stub") (bool true)
              (field (codes "workflow") (str (codes "chained")) end)))
          (codes "enter_scaffold_pending_chained") (λ f. f) s in
      said h (render_scaffold_prompt h t plan_text) (chained_extra iv end) t

  -- `_execute_tdm` and what it is sealed with.
  unfoldable pub run_tdm :
      TurnInput h → Session h → InputVector h.floats → (Fields → Fields) → Answer h
  unfolding with_meta
  run_tdm i s iv extra =
      let (t, out) = execute_tdm h i.services s iv in
      record { session = t; reply = with_meta extra out }

  -- The branches on the route.
  unfoldable pub on_route : TurnInput h → Session h → InputVector h.floats → Aru × Text → Answer h
  unfolding said route_extra gate_payload enter_gate
  on_route i s iv (bound, why) = said h (bound_text i iv) (route_extra bound why iv end) s
  on_route i s iv (deferred, why) = said h defer_text (route_extra deferred why iv end) s
  on_route i s iv (reflect, why) =
      let t : Session h =
        enter_gate reflect_confirm
          (gate_payload iv (field (codes "requires_scaffold") (bool iv.requires_scaffold) end))
          (codes "enter_reflect_pending") (field (codes "why") (str why)) s in
      said h
        (render_reflect_prompt h t (codes "You want help with: " ++ take 220 (strip iv.user_text)))
        (route_extra reflect why iv end) t
  on_route i s iv (scaffold, why) =
      let t : Session h =
        enter_gate scaffold_approve (gate_payload iv (field (codes "plan_stub") (bool true) end))
          (codes "enter_scaffold_pending") (field (codes "why") (str why)) s in
      said h (render_scaffold_prompt h t plan_text) (route_extra scaffold why iv end) t
  on_route i s iv (tdm, why) = run_tdm i s iv (route_extra tdm why iv)

  -- The session without the first step of its queue, and the trace of that.
  unfoldable pub dequeued : Aru → List Aru → Session h → Session h
  dequeued next queue s =
      trace h (codes "QUEUE") (codes "QUEUE") (codes "workflow_step_dequeued")
        (field (codes "next") (str (aru_text next)) end) (record s { workflow_queue = queue })

  -- The part of the turn behind `if sess.workflow_queue`, for a queue and the session without it.
  unfoldable pub on_queue : TurnInput h → Session h → InputVector h.floats → List Aru → Answer h
  on_queue i s iv [] = on_route i s iv (route_aru_sequence h iv s)
  on_queue i s iv (next ∷ queue) =
      let t : Session h = dequeued next queue s in
      elim next [
        | scaffold ↦ chained_scaffold t iv
        | tdm ↦ run_tdm i t iv (chained_extra iv)
        | _ ↦ on_route i t iv (route_aru_sequence h iv t)
      ]

  -- The start of the turn: the secret and the count.
  unfoldable pub begin : Text → Session h → Session h
  unfolding ensure_session_secret
  begin secret s =
      let t : Session h = ensure_session_secret secret s in
      record t { interaction_count = t.interaction_count + 1 }

  unfoldable pub after_gate : TurnInput h → Text → GateReply h → Answer h
  unfolding said chain_hooks
  after_gate i user_text g =
      let iv : InputVector h.floats =
        build_input_vector h (i.services.stage2 user_text) user_text in
      let s : Session h = chain_hooks g.meta iv g.session in
      if g.handled
      then said h g.text (field (codes "gate_meta") (obj (gate_meta_fields g.meta)) end) g.session
      else on_queue i s iv s.workflow_queue

  unfoldable pub answer : TurnInput h → Session h → Text → Answer h
  unfolding begin after_gate
  answer i s user_text = after_gate i user_text (handle_pending_gate h (begin i.secret s) user_text)

  -- `_seal`, where there is something to be sealed
  unfoldable pub seal_reply :
      Machine h → SealInput h → Text → Option (Text × Fields) → Machine h × Option (TurnReply h)
  seal_reply m i user_text none = (m, none)
  seal_reply m i user_text (some (text, extra)) =
      let (sealed, reply) = seal h m i user_text text extra in (sealed, some reply)

  -- `handle_turn`; no reply is an exception
  unfoldable pub handle_turn : Machine h → TurnInput h → Text → Machine h × Option (TurnReply h)
  unfolding seal_reply
  handle_turn m i user_text =
      let a : Answer h = answer i m.session user_text in
      seal_reply (record m { session = a.session }) i.seal_input user_text a.reply
