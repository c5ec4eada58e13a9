-- ===== src/Kernel/Tools/Allowed.antt =====
-- What `call_tool` lets through.
use beaconwise_tek.Base.{
  ℕ, zero, suc, ◌+◌, ◌≤◌, ◌≡◌, refl, sym, ◌∙◌, subst, inl, inr, Bool, true, false, not, Option,
  none, some, [], ◌∷◌, arith, if◌then◌else◌, Bool-cases, Text, codes, text_eq, text_eq_refl, truthy,
  any,
}
use beaconwise_tek.Json.{Json, Items, Fields, bool, str, arr, nil, cons, end, field, set, value}
use beaconwise_tek.Stable.{Crypto}
use beaconwise_tek.Kernel.Gates.{contains_text}
use beaconwise_tek.Kernel.Patterns.{strip}
use beaconwise_tek.Kernel.Tools.{
  is_calc_char, ToolResult, Eval, evaluated, zero_division, failed, Signed, nonneg, negative,
  ToolEnv, error_output, calc_result, calc_reply, parsed_value, safe_calc, clamp_count, take_items,
  cut_results, web_search, allowlist, get_str, get_int, is_brave, call_tool,
}

-- `len(xs)`
abbrev pub count_items : Items → ℕ
count_items nil = 0
count_items (cons j js) = count_items js + 1

module _ (env : ToolEnv) where
  -- A tool that is not on the allowlist never gives a result that is ok, whatever its arguments.
  pub call_tool-allowed :
      (c : Crypto) (tool : Text) (args : Fields)
      → (call_tool env c tool args).ok ≡ true
      → contains_text tool (allowlist env) ≡ true
  unfolding call_tool
  call_tool-allowed c tool args e = elim (Bool-cases (contains_text tool (allowlist env))) [
    | inl listed ↦ listed
    | inr foreign ↦ ground (arith, (rw (foreign, call_tool) at e))
  ]

  clamp_count_le : (n : Signed) → clamp_count env n ≤ 10
  unfolding clamp_count
  clamp_count_le (negative n) = omega arith
  clamp_count_le (nonneg zero) = omega arith
  clamp_count_le (nonneg (suc n)) = ground arith

  count-take_items : (n : ℕ) (js : Items) → count_items (take_items env n js) ≤ n
  unfolding take_items
  count-take_items zero js = omega arith
  count-take_items (suc n) nil = omega arith
  count-take_items (suc n) (cons j js) = omega (arith, count-take_items n js)

  value-set : (k : Text) (v : Json) (d : Fields) → value k (set k v d) ≡ v
  unfolding value set
  value-set k v end = rw (text_eq_refl k) refl
  value-set k v (field j w d) = elim (Bool-cases (text_eq j k)) [
    | inl same ↦ rw same (rw same refl)
    | inr other ↦ rw other (rw other (value-set k v d))
  ]

  -- Results are lists of at most ten.
  abbrev IsShort : Fields → Type 0
  IsShort out = (js : Items) → value (codes "results") out ≡ arr js → count_items js ≤ 10

  cut-IsShort :
      (n : ℕ) (out : Fields) (v : Json)
      → n ≤ 10
      → value (codes "results") out ≡ v
      → IsShort (cut_results env n out v)
  unfolding cut_results
  cut-IsShort n out (arr xs) h at js e =
      let same : arr (take_items env n xs) ≡ arr js =
        sym (value-set (codes "results") (arr (take_items env n xs)) out) ∙ e in
      let kept : take_items env n xs ≡ js = cc in
      subst (λ ys. count_items ys ≤ 10) kept (omega (arith, count-take_items n xs))
  cut-IsShort n out _ h at js e = ground (arith, at, e)

  -- A dict with one or two keys that are not `results`.
  error-IsShort : (e : Text) → IsShort (error_output e)
  unfolding error_output value text_eq codes
  error-IsShort e js h = ground arith

  empty-IsShort :
      IsShort
        (field (codes "ok") (bool false) (field (codes "error") (str (codes "empty_query")) end))
  unfolding value text_eq codes
  empty-IsShort js h = ground arith

  if-IsShort :
      (b : Bool) (x y : ToolResult)
      → IsShort x.output
      → IsShort y.output
      → IsShort (if b then x else y).output
  if-IsShort true x y hx hy = hx
  if-IsShort false x y hx hy = hy

  calc-IsShort : (h : Text) (x : Eval (Option Text)) → IsShort (calc_reply env h x).output
  unfolding calc_reply calc_result value text_eq codes error_output
  calc-IsShort h (evaluated (some t)) js e = ground arith
  calc-IsShort h (evaluated none) js e = ground arith
  calc-IsShort h zero_division js e = ground arith
  calc-IsShort h failed js e = ground arith

  safe_calc-IsShort : (c : Crypto) (expr : Text) → IsShort (safe_calc env c expr).output
  unfolding safe_calc calc_result
  safe_calc-IsShort c expr =
      if-IsShort (not (truthy (strip expr))) _ _ (error-IsShort (codes "empty_expr")) (
        if-IsShort (any (λ ch. not (is_calc_char ch)) expr) _ _
          (error-IsShort (codes "invalid_chars"))
          (calc-IsShort _ (parsed_value env (env.parse (strip expr)))))

  search-IsShort :
      (c : Crypto) (tool keyword : Text) (engine : Text → ℕ → Fields) (query : Text) (n : Signed)
      → IsShort (web_search env c tool keyword engine query n).output
  unfolding web_search
  search-IsShort c tool keyword engine query n =
      let q : Text = strip query in
      let out : Fields = engine q (clamp_count env n) in
      if-IsShort (truthy q) _ _
        (cut-IsShort (clamp_count env n) out (value (codes "results") out) (clamp_count_le n) refl)
        empty-IsShort

  -- Whatever the tool, its arguments and what the search engine gives, the results of a call are at
  -- most ten.
  pub call_tool-bounded :
      (c : Crypto) (tool : Text) (args : Fields) (js : Items)
      → value (codes "results") (call_tool env c tool args).output ≡ arr js
      → count_items js ≤ 10
  unfolding call_tool
  call_tool-bounded c tool args =
      let q : Text = get_str env args (codes "q" ∷ codes "query" ∷ []) in
      if-IsShort (not (contains_text tool (allowlist env))) _ _
        (error-IsShort (codes "tool_not_allowed"))
        (if-IsShort (text_eq tool (codes "safe_calc")) _ _
          (safe_calc-IsShort c (get_str env args (codes "expr" ∷ [])))
          (if-IsShort (is_brave env tool) _ _
            (search-IsShort c (codes "web_search_brave") (codes "count") env.brave_web_search q
              (get_int env args (nonneg 5) (codes "count" ∷ codes "num" ∷ [])))
            (search-IsShort c (codes "web_search_serper") (codes "num") env.serper_search q
              (get_int env args (nonneg 5) (codes "num" ∷ codes "count" ∷ [])))))
