-- ===== src/Consensus/Scope.antt =====
-- src/ecosphere/consensus/gates/scope_gate.py: the guard of what a role may be told. The patterns are
-- regular expressions of a configuration: `re.findall` without regard to case is the argument
-- `findall`, of a pattern and a text. A rule has its pattern and its level, and the pattern compiles: the
-- KeyError and the re.error of another configuration are left out.
pub mod Levels
use beaconwise_tek.Base.{
  ℕ, zero, suc, ◌+◌, ◌-◌, ◌*◌, ◌≤◌, ◌<◌, String, ◌≡◌, refl, sym, ap, ◌∙◌, subst, ◌≢◌, ◌↔◌, ◌⊎◌, inl,
  inr, Bool, true, false, not, ◌&&◌, ◌||◌, Option, none, some, List, [], ◌∷◌, ◌++◌, map,
  append_assoc, append-nil, arith, ltb, leb, ◌==◌, if◌then◌else◌, ltb→lt, lt→ltb, leb→le, le→leb,
  ==→eq, eq→==, Bool-cases, and_true, Option-cases, Text, codes, text_eq, text_lt, text_eq→eq,
  text_eq_refl, eq→text_eq, truthy, length, take, drop, take_last, any, all, length-append,
}
use beaconwise_tek.Json.{Json, Items, Fields, null, bool, num, str, arr, obj, nil, cons, end, field}
use beaconwise_tek.Stable.{Crypto}
use beaconwise_tek.Kernel.Patterns.{lower}
use beaconwise_tek.Kernel.Revisions.{decimal}
use beaconwise_tek.Validation.Regions.{behind}
use beaconwise_tek.Consensus.Context.{VerificationContext, role_text}
use beaconwise_tek.Consensus.Ledger.{EventStore, emit_stage_event}

-- An entry of `block_patterns`, as `_compile_rules` reads it.
pub record BlockRule : Type 0 where
  pub pattern_ : Text
  pub min_level : ℕ
  pub reason : Text

pub record ScopeGateConfig : Type 0 where
  pub domain : Text
  pub block_patterns : List BlockRule
  pub require_disclaimer_low_tier : Bool
  pub low_tier_disclaimer_snippet : Text

unfoldable pub block_rule : Text → ℕ → Text → BlockRule
block_rule p level reason = record { pattern_ = p; min_level = level; reason = reason }

unfoldable pub default_config : ScopeGateConfig
unfolding block_rule
default_config = record {
  domain = codes "general";
  block_patterns =
      block_rule (codes "\\b(you are diagnosed with|diagnosis|prognosis|treatment plan)\\b") 3
        (codes "Diagnostic/prognostic language")
      ∷ block_rule
          (codes
            "\\b(expected return\\s*\\d+%|portfolio allocation|buy\\s+[A-Z]{1,5}|sell\\s+[A-Z]{1,5}|tax strategy)\\b")
          3 (codes "Investment advice")
      ∷ block_rule
          (codes "\\b(file a lawsuit|you should sue|settlement range|liability exposure)\\b") 3
          (codes "Legal strategy/advice")
      ∷ block_rule
          (codes "\\b(p-value|confidence interval|statistical significance|replication)\\b") 4
          (codes "Advanced statistical detail")
      ∷ [];
  require_disclaimer_low_tier = true;
  low_tier_disclaimer_snippet =
      codes
        "This is general information only and not professional advice. Consult a qualified expert.";
}

-- What the gate reads of a `PrimaryOutput` or a `SynthesizerOutput`.
pub record Output : Type 0 where
  pub run_id : Text
  pub epack : Text
  pub aru : Text
  pub answer : Text
  pub reasoning_trace : List Text

pub data Decision : Type 0 where
  pass rewrite refuse : Decision

unfoldable pub decision_text : Decision → Text
decision_text pass = codes "PASS"
decision_text rewrite = codes "REWRITE"
decision_text refuse = codes "REFUSE"

-- The dict that the gate returns, which has these three keys.
pub record GateReply : Type 0 where
  pub decision : Decision
  pub reason : Text
  pub details : Fields

-- `p in s`
unfoldable pub occurs : Text → Text → Bool
unfolding behind
occurs p [] = elim (behind p []) [ none ↦ false | some r ↦ true ]
occurs p (c ∷ s) = let rest = occurs p s in elim (behind p (c ∷ s)) [ none ↦ rest | some r ↦ true ]

-- `" ".join(parts)`
unfoldable pub join_spaces : List Text → Text
join_spaces [] = []
join_spaces (p ∷ []) = p
join_spaces (p ∷ q ∷ ps) = p ++ b' ' ∷ join_spaces (q ∷ ps)

unfoldable pub full_text : Output → Text
unfolding join_spaces
full_text o = elim o.reasoning_trace [
  | [] ↦ o.answer
  | t ∷ ts ↦ o.answer ++ b' ' ∷ join_spaces (t ∷ ts)
]

pub record Violation : Type 0 where
  pub rule : BlockRule
  pub matches : List Text

unfoldable pub text_items : List Text → Items
text_items [] = nil
text_items (t ∷ ts) = cons (str t) (text_items ts)

unfoldable pub violation_json : Violation → Json
unfolding text_items
violation_json v = obj (
    field (codes "pattern") (str v.rule.pattern_) (
      field (codes "matches") (arr (text_items v.matches)) (
        field (codes "required_level") (num v.rule.min_level)
          (field (codes "reason") (str v.rule.reason) end))))

unfoldable pub violation_items : List Violation → Items
unfolding violation_json
violation_items [] = nil
violation_items (v ∷ vs) = cons (violation_json v) (violation_items vs)

module _ (findall : Text → Text → List Text) where
  -- A rule fires on a text for a role below its level.
  unfoldable pub fires : Text → ℕ → BlockRule → Bool
  fires text level r = not (length (findall r.pattern_ text) == 0) && ltb level r.min_level

  unfoldable pub violations : Text → ℕ → List BlockRule → List Violation
  unfolding fires
  violations text level [] = []
  violations text level (r ∷ rs) =
      let rest = violations text level rs in
      if fires text level r
      then record { rule = r; matches = take 3 (findall r.pattern_ text) } ∷ rest
      else rest

  -- The disclaimer is asked for at this level and missing.
  unfoldable pub misses_disclaimer : ScopeGateConfig → Text → ℕ → Bool
  unfolding occurs lower
  misses_disclaimer config text level =
      config.require_disclaimer_low_tier
      && (leb level 2 && not (occurs (lower config.low_tier_disclaimer_snippet) (lower text)))

  unfoldable pub disclaimer_issue : Bool → Json
  disclaimer_issue missing =
      if missing then str (codes "Missing required low-tier disclaimer") else null

  unfoldable pub rewrite_prompt : ScopeGateConfig → VerificationContext → Text → Text
  unfolding decimal role_text
  rewrite_prompt config v text =
      codes "Rewrite the output to be safe and appropriate for role_level "
      ++ decimal v.role_level
      ++ codes " ("
      ++ role_text v.role
      ++ codes
          "). Remove diagnostic, prognostic, prescriptive, strategic, or probabilistic language. Add this disclaimer at the top: \""
      ++ config.low_tier_disclaimer_snippet
      ++ codes "\". Keep helpful general information only. Be concise. Original output: "
      ++ take 800 text
      ++ codes "..."

  -- The reply to violations.
  unfoldable pub gate_violation :
      ScopeGateConfig → VerificationContext → Text → List Violation → Bool → GateReply
  unfolding violation_items disclaimer_issue rewrite_prompt
  gate_violation config v text vs missing =
      let issue : Json = disclaimer_issue missing in
      let listed : Json = arr (violation_items vs) in
      if leb 2 v.role_level
      then record {
        decision = rewrite;
        reason = codes "Scope violations for role_level " ++ decimal v.role_level;
        details = field (codes "violations") listed (
            field (codes "disclaimer_issue") issue
              (field (codes "suggested_rewrite_prompt") (str (rewrite_prompt config v text)) end));
      }
      else record {
        decision = refuse;
        reason = codes "Output contains content unsafe for public/unverified users";
        details = field (codes "violations") listed (field (codes "disclaimer_issue") issue end);
      }

  -- `scope_gate_v1` over the ledger; the Boolean and the number are those of `emit_stage_event`
  unfoldable pub scope_gate_v1 :
      Crypto
      → Bool
      → ℕ
      → Output
      → VerificationContext
      → ScopeGateConfig
      → Text
      → Text
      → EventStore
      → GateReply × EventStore
  unfolding violations misses_disclaimer gate_violation full_text violation_items disclaimer_issue
  scope_gate_v1 c written ts_ms output v config epack run_id s =
      let text : Text = full_text output in
      let vs : List Violation = violations text v.role_level config.block_patterns in
      let missing : Bool = misses_disclaimer config text v.role_level in
      let verification : Json = obj (
        field (codes "verified") (bool v.verified)
          (field (codes "role") (str (role_text v.role)) end)) in
      let violation_event : Fields = field (codes "domain") (str config.domain) (
        field (codes "role_level") (num v.role_level) (
          field (codes "verification") verification (
            field (codes "violations") (arr (violation_items vs))
              (field (codes "disclaimer_issue") (disclaimer_issue missing) end)))) in
      let pass_event : Fields =
        field (codes "domain") (str config.domain)
          (field (codes "role_level") (num v.role_level) end) in
      let emit : Text → Fields → EventStore =
        λ stage payload. (emit_stage_event c written ts_ms epack run_id stage payload none s).1 in
      if not (length vs == 0) || missing
      then (
        gate_violation config v text vs missing,
        emit (codes "tecl.scope_gate.violation") violation_event,
      )
      else (
        record {
          decision = pass;
          reason = codes "Content appropriate for verified role";
          details = end;
        },
        emit (codes "tecl.scope_gate.pass") pass_event,
      )
