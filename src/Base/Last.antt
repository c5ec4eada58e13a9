-- ===== src/Base/Last.antt =====
-- The last elements of a list, and lists that drop their first ones.
use Prim.Native.Nat.{ℕ, zero, suc, ◌+◌, ◌-◌, ◌≤◌}
use mathlib.Core.Path.{◌≡◌, refl, sym, ap, ◌∙◌}
use mathlib.Core.Logic.{inl, inr}
use mathlib.Core.List.{List, [], ◌∷◌, ◌++◌}
use native.Mathlib.Omega.{arith}
use beaconwise_tek.Base.Tests.{ltb, leb, Bool-cases, if◌then◌else◌, ltb→lt}
use beaconwise_tek.Base.Lists.{length, drop, take_last, length-append}

module _ {ℓ} {A : Type ℓ} where
  drop-append : (k : ℕ) (xs ys : List A) → k ≤ length xs → drop k (xs ++ ys) ≡ drop k xs ++ ys
  drop-append zero xs ys h = refl
  drop-append (suc k) [] ys h = absurd (omega arith)
  drop-append (suc k) (x ∷ xs) ys h = drop-append k xs ys (omega arith)

  pub drop-nil : (n : ℕ) → drop {A = A} n [] ≡ []
  drop-nil zero = refl
  drop-nil (suc n) = refl

  drop-drop : (a b : ℕ) (xs : List A) → drop a (drop b xs) ≡ drop (b + a) xs
  drop-drop a zero xs = ap (λ n. drop n xs) (omega arith)
  drop-drop a (suc b) [] = drop-nil a ∙ sym (drop-nil (suc b + a))
  drop-drop a (suc b) (x ∷ xs) =
      let next : suc (b + a) ≡ suc b + a = omega arith in
      drop-drop a b xs ∙ ap (λ n. drop n (x ∷ xs)) next

  length-drop : (k : ℕ) (xs : List A) → length (drop k xs) ≡ length xs - k
  length-drop zero xs = omega arith
  length-drop (suc k) [] = omega arith
  length-drop (suc k) (x ∷ xs) = omega (arith, length-drop k xs)

  -- What was cut off before changes nothing of the last ones.
  pub take_last-take_last :
      (n : ℕ) (xs : List A) (x : A)
      → take_last n (take_last n xs ++ x ∷ []) ≡ take_last n (xs ++ x ∷ [])
  take_last-take_last n xs x =
      let k : ℕ = length xs - n in
      let m : ℕ = length (drop k xs ++ x ∷ []) - n in
      let one : drop m (drop k xs ++ x ∷ []) ≡ drop m (drop k (xs ++ x ∷ [])) =
        ap (drop m) (sym (drop-append k xs (x ∷ []) (omega arith))) in
      let two : drop m (drop k (xs ++ x ∷ [])) ≡ drop (k + m) (xs ++ x ∷ []) =
        drop-drop m k (xs ++ x ∷ []) in
      let counts : k + m ≡ length (xs ++ x ∷ []) - n =
        omega (
          arith,
          length-append (drop k xs) (x ∷ []),
          length-append xs (x ∷ []),
          length-drop k xs,
        ) in
      one ∙ (two ∙ ap (λ j. drop j (xs ++ x ∷ [])) counts)

  pub length-take_last : (n : ℕ) (xs : List A) → length (take_last n xs) ≤ n
  length-take_last n xs = omega (arith, length-drop (length xs - n) xs)

  -- `xs.append(x)`, and `xs.pop(0)` where that makes more than `w`.
  abbrev pub push_bounded : ℕ → List A → A → List A
  push_bounded w xs x =
      if ltb w (length (xs ++ x ∷ [])) then drop 1 (xs ++ x ∷ []) else xs ++ x ∷ []

  pub push_bounded-take_last :
      (w : ℕ) (xs : List A) (x : A)
      → length xs ≤ w
      → push_bounded w xs x ≡ take_last w (xs ++ x ∷ [])
  push_bounded-take_last w xs x h =
      let count : length (xs ++ x ∷ []) ≡ length xs + 1 = length-append xs (x ∷ []) in
      elim (Bool-cases (ltb w (length (xs ++ x ∷ [])))) [
        | inl long ↦
            let one : 1 ≡ length (xs ++ x ∷ []) - w =
              omega (arith, ltb→lt w (length (xs ++ x ∷ [])) long) in
            rw long (ap (λ k. drop k (xs ++ x ∷ [])) one)
        | inr short ↦
            let none_left : 0 ≡ length (xs ++ x ∷ []) - w = ground (arith, short) in
            rw short (ap (λ k. drop k (xs ++ x ∷ [])) none_left)
      ]

  -- The last ones of the last ones.
  pub take_last-shorter :
      (a w : ℕ) (xs : List A) → a ≤ w → take_last a (take_last w xs) ≡ take_last a xs
  take_last-shorter a w xs h =
      drop-drop (length (take_last w xs) - a) (length xs - w) xs
      ∙ ap (λ k. drop k xs) (omega (arith, length-drop (length xs - w) xs))

  pub leb-take_last :
      (a w : ℕ) (xs : List A) → a ≤ w → leb a (length (take_last w xs)) ≡ leb a (length xs)
  leb-take_last a w xs h = ground (arith, length-drop (length xs - w) xs)
