-- ===== src/Kernel/Tools/Calc.antt =====
-- What the calculator evaluates.
use beaconwise_tek.Base.{
  ℕ, ◌≡◌, refl, inl, inr, Bool, true, false, not, Option, none, some, [], ◌∷◌, arith, Bool-cases,
  Text, codes, truthy, any, all,
}
use beaconwise_tek.Json.{str, end, field}
use beaconwise_tek.Stable.{Crypto}
use beaconwise_tek.Kernel.Patterns.{strip}
use beaconwise_tek.Kernel.Tools.{
  args_hash_of, BinOp, UnOp, add, sub, mult, div, other_bin, uadd, usub, other_un, Node, expression,
  constant, bin_op, unary_op, other_node, Eval, evaluated, zero_division, failed, ToolEnv,
  is_calc_char, then_eval, is_known_bin, is_known_un, eval_node, calc_result, calc_reply,
  parsed_value, safe_calc,
}

all-not-any : (p : ℕ → Bool) (s : Text) → any (λ c. not (p c)) s ≡ false → all p s ≡ true
all-not-any p [] e = refl
all-not-any p (c ∷ s) e = ground (arith, all-not-any p s)

then_eval-evaluated :
    {A B : Type 0} (x : Eval A) (f : A → Eval B) (b : B)
    → then_eval x f ≡ evaluated b
    → (a : A) × (x ≡ evaluated a) × (f a ≡ evaluated b)
unfolding then_eval
then_eval-evaluated (evaluated a) f b e = (a, refl, e)
then_eval-evaluated zero_division f b e = ground arith
then_eval-evaluated failed f b e = ground arith

module _ (env : ToolEnv) where
  abbrev pub IsOperation : BinOp → Type 0
  IsOperation other_bin = ⊥
  IsOperation _ = Unit

  abbrev pub IsSign : UnOp → Type 0
  IsSign other_un = ⊥
  IsSign _ = Unit

  known-IsOperation : (op : BinOp) → is_known_bin env op ≡ true → IsOperation op
  unfolding is_known_bin
  known-IsOperation other_bin e = ground arith
  known-IsOperation add e = tt
  known-IsOperation sub e = tt
  known-IsOperation mult e = tt
  known-IsOperation div e = tt

  known-IsSign : (op : UnOp) → is_known_un env op ≡ true → IsSign op
  unfolding is_known_un
  known-IsSign other_un e = ground arith
  known-IsSign uadd e = tt
  known-IsSign usub e = tt

  -- Constants under the four operations and the two signs.
  abbrev pub IsArithmetic : Node env.N → Type 0
  IsArithmetic (expression body) = IsArithmetic body
  IsArithmetic (constant n) = Unit {0}
  IsArithmetic (bin_op op l r) = IsOperation op × IsArithmetic l × IsArithmetic r
  IsArithmetic (unary_op op x) = IsSign op × IsArithmetic x
  IsArithmetic (other_node name) = ⊥

  eval_node-IsArithmetic :
      (t : Node env.N) (v : env.N) → eval_node env t ≡ evaluated v → IsArithmetic t
  unfolding eval_node
  eval_node-IsArithmetic (expression body) v e = eval_node-IsArithmetic body v e
  eval_node-IsArithmetic (constant n) v e = tt
  eval_node-IsArithmetic (bin_op op l r) v e = elim (Bool-cases (is_known_bin env op)) [
    | inl known ↦
        let (a, left, e) = then_eval-evaluated (eval_node env l) _ v (rw known at e) in
        let (b, right, e) = then_eval-evaluated (eval_node env r) _ v e in
        (
          known-IsOperation op known,
          eval_node-IsArithmetic l a left,
          eval_node-IsArithmetic r b right,
        )
    | inr other ↦ ground (arith, (rw other at e))
  ]
  eval_node-IsArithmetic (unary_op op x) v e = elim (Bool-cases (is_known_un env op)) [
    | inl known ↦
        let (a, inner, e) = then_eval-evaluated (eval_node env x) _ v (rw known at e) in
        (known-IsSign op known, eval_node-IsArithmetic x a inner)
    | inr other ↦ ground (arith, (rw other at e))
  ]
  eval_node-IsArithmetic (other_node name) v e = ground arith

  reply-evaluated :
      (h : Text) (x : Eval (Option Text))
      → (calc_reply env h x).ok ≡ true
      → (t : Option Text) × (x ≡ evaluated t)
  unfolding calc_reply calc_result
  reply-evaluated h (evaluated (some t)) e = (some t, refl)
  reply-evaluated h (evaluated none) e = ground arith
  reply-evaluated h zero_division e = ground arith
  reply-evaluated h failed e = ground arith

  parsed-evaluated :
      (p : Option (Node env.N)) (t : Option Text)
      → parsed_value env p ≡ evaluated t
      → (tree : Node env.N) × (v : env.N) × (p ≡ some tree)
        × (eval_node env tree ≡ evaluated v)
        × IsArithmetic tree
  unfolding parsed_value
  parsed-evaluated none t e = ground arith
  parsed-evaluated (some tree) t e =
      let (v, at, _) = then_eval-evaluated (eval_node env tree) _ t e in
      (tree, v, refl, at, eval_node-IsArithmetic tree v at)

  -- Where the calculator gives a value, the expression has only the allowed characters, and what it
  -- parses to is a constant, or is built by the four operations and the two signs alone.
  pub safe_calc-IsArithmetic :
      (c : Crypto) (expr : Text)
      → (safe_calc env c expr).ok ≡ true
      → (all (is_calc_char) expr ≡ true)
        × ((tree : Node env.N) × (v : env.N) × (env.parse (strip expr) ≡ some tree)
            × (eval_node env tree ≡ evaluated v)
            × IsArithmetic tree)
  unfolding safe_calc calc_result
  safe_calc-IsArithmetic c expr e = elim (Bool-cases (truthy (strip expr))) [
    | inr blank ↦ ground (arith, (rw (blank, safe_calc) at e))
    | inl filled ↦ elim (Bool-cases (any (λ ch. not (is_calc_char ch)) expr)) [
      | inl bad ↦ ground (arith, (rw (filled, bad, safe_calc) at e))
      | inr clean ↦
          let h : Text = args_hash_of c (codes "safe_calc") (field (codes "expr") (str expr) end) in
          let (t, done) =
            reply-evaluated h (parsed_value env (env.parse (strip expr)))
              (rw (filled, clean, safe_calc) at e) in
          (all-not-any is_calc_char expr clean, parsed-evaluated (env.parse (strip expr)) t done)
    ]
  ]
