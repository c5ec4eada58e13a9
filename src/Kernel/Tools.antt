-- ===== src/Kernel/Tools.antt =====
-- src/ecosphere/kernel/tools.py: the tools of the kernel behind their allowlist. The parser of
-- Python's ast, its numbers, `str`, `int` and the two search engines (tools/brave.py, tools/serper.py)
-- are the fields of `ToolEnv`.
pub mod Calc
pub mod Allowed
use beaconwise_tek.Base.{
  ℕ, zero, suc, ◌+◌, ◌-◌, ◌*◌, ◌≤◌, ◌<◌, String, ◌≡◌, refl, sym, ap, ◌∙◌, subst, ◌≢◌, ◌↔◌, ◌⊎◌, inl,
  inr, Bool, true, false, not, ◌&&◌, ◌||◌, Option, none, some, List, [], ◌∷◌, ◌++◌, map,
  append_assoc, append-nil, arith, ltb, leb, ◌==◌, if◌then◌else◌, ltb→lt, lt→ltb, leb→le, le→leb,
  ==→eq, eq→==, Bool-cases, and_true, Option-cases, Text, codes, text_eq, text_lt, text_eq→eq,
  text_eq_refl, eq→text_eq, truthy, length, take, drop, take_last, any, all, length-append,
}
use beaconwise_tek.Json.{
  Json, Items, Fields, null, bool, num, real, str, arr, obj, nil, cons, end, field, get, set, value,
  has_key, json_truthy,
}
use beaconwise_tek.Stable.{Crypto, stable_hash}
use beaconwise_tek.Kernel.Gates.{contains_text}
use beaconwise_tek.Kernel.Patterns.{strip}

pub record ToolResult : Type 0 where
  pub ok : Bool
  pub tool : Text
  pub args_hash : Text
  pub output : Fields

-- The operators of `_OPS`, and all others.
pub data BinOp : Type 0 where
  add sub mult div other_bin : BinOp

pub data UnOp : Type 0 where
  uadd usub other_un : UnOp

-- An ast: the nodes that `_eval_node` knows, and all others by the names of their types.
pub data Node (N : Type 0) : Type 0 where
  expression : Node N → Node N
  constant : N → Node N
  bin_op : BinOp → Node N → Node N → Node N
  unary_op : UnOp → Node N → Node N
  other_node : Text → Node N

-- What an evaluation ends with: a ZeroDivisionError is told from other exceptions.
pub data Eval (A : Type 0) : Type 0 where
  evaluated : A → Eval A
  zero_division : Eval A
  failed : Eval A

-- An int in Python
pub data Signed : Type 0 where
  nonneg : ℕ → Signed
  negative : ℕ → Signed

pub record ToolEnv : Type 1 where
  -- ints and floats
  pub N : Type 0
  pub plus : N → N → Eval N
  pub minus : N → N → Eval N
  pub times : N → N → Eval N
  pub over : N → N → Eval N
  pub positive : N → N
  pub opposite : N → N
  -- `math.isnan(v) or math.isinf(v)`
  pub nonfinite : N → Eval Bool
  -- `repr(float(v))`
  pub float_text : N → Eval Text
  -- `ast.parse(expr, mode="eval")`, `none` for an exception
  pub parse : Text → Option (Node N)
  -- `str(v)`, and `int(v)` with `none` for an exception
  pub show : Json → Text
  pub int_of : Json → Option Signed
  pub brave_web_search : Text → ℕ → Fields
  pub serper_search : Text → ℕ → Fields

unfoldable pub error_output : Text → Fields
error_output e = field (codes "error") (str e) end

unfoldable pub args_hash_of : Crypto → Text → Fields → Text
args_hash_of c tool args =
    stable_hash c (obj (field (codes "tool") (str tool) (field (codes "args") (obj args) end)))

-- The characters of `allowed`
unfoldable pub calc_chars : Text
calc_chars = codes "0123456789.+-*/() "

unfoldable pub is_calc_char : ℕ → Bool
unfolding calc_chars
is_calc_char ch = any (λ a. a == ch) calc_chars

unfoldable pub then_eval : {A B : Type 0} → Eval A → (A → Eval B) → Eval B
then_eval (evaluated a) f = f a
then_eval zero_division f = zero_division
then_eval failed f = failed

module _ (env : ToolEnv) where
  unfoldable pub apply_bin : BinOp → env.N → env.N → Eval env.N
  apply_bin add a b = env.plus a b
  apply_bin sub a b = env.minus a b
  apply_bin mult a b = env.times a b
  apply_bin div a b = env.over a b
  apply_bin other_bin a b = failed

  unfoldable pub is_known_bin : BinOp → Bool
  is_known_bin other_bin = false
  is_known_bin _ = true

  unfoldable pub apply_un : UnOp → env.N → Eval env.N
  apply_un uadd a = evaluated (env.positive a)
  apply_un usub a = evaluated (env.opposite a)
  apply_un other_un a = failed

  unfoldable pub is_known_un : UnOp → Bool
  is_known_un other_un = false
  is_known_un _ = true

  -- `_eval_node`: an operator that is not in `_OPS` raises before its operands are evaluated.
  unfoldable pub eval_node : Node env.N → Eval env.N
  unfolding then_eval apply_bin apply_un is_known_bin is_known_un
  eval_node (expression body) = eval_node body
  eval_node (constant n) = evaluated n
  eval_node (bin_op op l r) =
      let left = eval_node l in
      let right = eval_node r in
      if is_known_bin op
      then then_eval left (λ a. then_eval right (λ b. apply_bin op a b))
      else failed
  eval_node (unary_op op x) =
      let inner = eval_node x in if is_known_un op then then_eval inner (apply_un op) else failed
  eval_node (other_node name) = failed

  unfoldable pub calc_result : Bool → Text → Fields → ToolResult
  calc_result ok args_hash output = record {
    ok = ok;
    tool = codes "safe_calc";
    args_hash = args_hash;
    output = output;
  }

  -- The value as a float, unless it is not finite.
  unfoldable pub finished : env.N → Eval (Option Text)
  unfolding then_eval
  finished v = then_eval (env.nonfinite v) (λ bad.
      if bad then evaluated none else then_eval (env.float_text v) (λ t. evaluated (some t)))

  unfoldable pub calc_reply : Text → Eval (Option Text) → ToolResult
  unfolding calc_result error_output
  calc_reply h (evaluated (some t)) = calc_result true h (field (codes "value") (real t) end)
  calc_reply h (evaluated none) = calc_result false h (error_output (codes "nonfinite"))
  calc_reply h zero_division = calc_result false h (error_output (codes "division_by_zero"))
  calc_reply h failed = calc_result false h (error_output (codes "eval_failed"))

  unfoldable pub parsed_value : Option (Node env.N) → Eval (Option Text)
  unfolding then_eval finished
  parsed_value none = failed
  parsed_value (some tree) = then_eval (eval_node tree) finished

  unfoldable pub safe_calc : Crypto → Text → ToolResult
  unfolding calc_result error_output is_calc_char
  safe_calc c expr =
      let h : Text = args_hash_of c (codes "safe_calc") (field (codes "expr") (str expr) end) in
      if not (truthy (strip expr))
      then calc_result false h (error_output (codes "empty_expr"))
      else if any (λ ch. not (is_calc_char ch)) expr
      then calc_result false h (error_output (codes "invalid_chars"))
      else calc_reply h (parsed_value (env.parse (strip expr)))

  -- `max(1, min(10, c))`
  unfoldable pub clamp_count : Signed → ℕ
  clamp_count (negative n) = 1
  clamp_count (nonneg zero) = 1
  clamp_count (nonneg (suc n)) = if leb (suc n) 10 then suc n else 10

  unfoldable pub take_items : ℕ → Items → Items
  take_items zero js = nil
  take_items (suc n) nil = nil
  take_items (suc n) (cons j js) = cons j (take_items n js)

  -- `out["results"] = out["results"][:c]` where it is a list
  unfoldable pub cut_results : ℕ → Fields → Json → Fields
  unfolding take_items
  cut_results c out (arr js) = set (codes "results") (arr (take_items c js)) out
  cut_results c out _ = out

  -- `web_search_brave` and `web_search_serper`: the keyword of the count and the engine differ.
  unfoldable pub web_search :
      Crypto → Text → Text → (Text → ℕ → Fields) → Text → Signed → ToolResult
  unfolding clamp_count cut_results
  web_search c tool keyword engine query count =
      let q : Text = strip query in
      let n : ℕ = clamp_count count in
      let h : Text =
        args_hash_of c tool (field (codes "query") (str q) (field keyword (num n) end)) in
      let out : Fields = engine q n in
      let cut : Fields = cut_results n out (value (codes "results") out) in
      if truthy q
      then record {
        ok = json_truthy (value (codes "ok") cut);
        tool = tool;
        args_hash = h;
        output = cut;
      }
      else record {
        ok = false;
        tool = tool;
        args_hash = h;
        output =
            field (codes "ok") (bool false) (field (codes "error") (str (codes "empty_query")) end);
      }

  unfoldable pub allowlist : List Text
  allowlist =
      codes "safe_calc"
      ∷ codes "web_search_brave"
      ∷ codes "web_search_serper"
      ∷ codes "brave_search"
      ∷ codes "serper_search"
      ∷ []

  -- `_get_str`: of the keys that are given and not None, the first
  unfoldable pub get_str : Fields → List Text → Text
  get_str args [] = []
  get_str args (k ∷ ks) =
      let rest = get_str args ks in elim (value k args) [ null ↦ rest | v ↦ env.show v ]

  unfoldable pub int_or : Signed → Option Signed → Signed
  int_or default none = default
  int_or default (some n) = n

  -- `_get_int`
  unfoldable pub get_int : Fields → Signed → List Text → Signed
  unfolding int_or
  get_int args default [] = default
  get_int args default (k ∷ ks) =
      let rest = get_int args default ks in
      elim (value k args) [ null ↦ rest | v ↦ int_or default (env.int_of v) ]

  unfoldable pub is_brave : Text → Bool
  is_brave tool = text_eq tool (codes "web_search_brave") || text_eq tool (codes "brave_search")

  unfoldable pub call_tool : Crypto → Text → Fields → ToolResult
  unfolding web_search get_str get_int is_brave error_output
  call_tool c tool args =
      let q : Text = get_str args (codes "q" ∷ codes "query" ∷ []) in
      if not (contains_text tool allowlist)
      then record {
        ok = false;
        tool = tool;
        args_hash = args_hash_of c tool args;
        output = error_output (codes "tool_not_allowed");
      }
      else if text_eq tool (codes "safe_calc")
      then safe_calc c (get_str args (codes "expr" ∷ []))
      else if is_brave tool
      then web_search c (codes "web_search_brave") (codes "count") env.brave_web_search q
          (get_int args (nonneg 5) (codes "count" ∷ codes "num" ∷ []))
      else web_search c (codes "web_search_serper") (codes "num") env.serper_search q
          (get_int args (nonneg 5) (codes "num" ∷ codes "count" ∷ []))
