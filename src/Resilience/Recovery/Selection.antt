-- ===== src/Resilience/Recovery/Selection.antt =====
-- Which plan `decide` selects.
use beaconwise_tek.Base.{
  ℕ, ◌≤◌, ◌≡◌, refl, sym, ap, subst, ◌⊎◌, inl, inr, true, false, none, some, List, [], ◌∷◌, arith,
  Bool-cases, Option-cases, Text,
}
use beaconwise_tek.Float.{Floats}
use beaconwise_tek.Kernel.Gates.{contains_text}
use beaconwise_tek.Resilience.Recovery.{
  should_trigger, Rejection, RecoveryPlan, RecoveryState, RecoveryEngine, score_plan, rejection,
  viable, key_lt, insert_plan, sort_plans, first_plan, decide,
}

-- A value stands in a list.
abbrev pub Among : {A : Type 0} → A → List A → Type 0
Among x [] = ⊥
Among x (y ∷ ys) = (x ≡ y) ⊎ Among x ys

module _ (fl : Floats) (e : RecoveryEngine fl) (s : RecoveryState fl) (excluded : List Text) where
  abbrev pub Scored : Type 0
  Scored = fl.F × RecoveryPlan fl

  Among-insert :
      (x y : Scored) (ys : List Scored) → Among x (insert_plan fl y ys) → Among x (y ∷ ys)
  unfolding insert_plan
  Among-insert x y [] m = m
  Among-insert x y (z ∷ zs) m = elim (Bool-cases (key_lt fl y z)) [
    | inl lt ↦ elim (rw lt at m) [
      | inl same ↦ inr (inl same)
      | inr later ↦ elim (Among-insert x y zs later) [ inl a ↦ inl a | inr b ↦ inr (inr b) ]
    ]
    | inr ge ↦ rw ge at m
  ]

  pub Among-sort : (x : Scored) (xs : List Scored) → Among x (sort_plans fl xs) → Among x xs
  unfolding sort_plans
  Among-sort x [] m = m
  Among-sort x (y ∷ ys) m = elim (Among-insert x y (sort_plans fl ys) m) [
    | inl same ↦ inl same
    | inr later ↦ inr (Among-sort x ys later)
  ]

  -- What the tests of `decide` leave: a plan of the list that no test rejects, with its score.
  abbrev pub IsViable : List (RecoveryPlan fl) → Scored → Type 0
  IsViable plans (a, p) =
      Among p plans × (rejection fl e excluded p ≡ none) × (a ≡ score_plan fl e s p)

  pub viable-kept :
      (p : RecoveryPlan fl) (ps : List (RecoveryPlan fl))
      → rejection fl e excluded p ≡ none
      → viable fl e s excluded (p ∷ ps) ≡ (score_plan fl e s p, p) ∷ viable fl e s excluded ps
  unfolding viable
  viable-kept p ps kept = rw (kept, viable) refl

  pub viable-gone :
      (p : RecoveryPlan fl) (ps : List (RecoveryPlan fl)) (why : Rejection)
      → rejection fl e excluded p ≡ some why
      → viable fl e s excluded (p ∷ ps) ≡ viable fl e s excluded ps
  unfolding viable
  viable-gone p ps why gone = ground arith

  viable-nil : (x : Scored) → Among x (viable fl e s excluded []) → ⊥
  unfolding viable
  viable-nil x m = m

  pub viable-IsViable :
      (plans : List (RecoveryPlan fl)) (x : Scored)
      → Among x (viable fl e s excluded plans)
      → IsViable plans x
  viable-IsViable [] x m = absurd (viable-nil x m)
  viable-IsViable (p ∷ ps) x m = elim (Option-cases (rejection fl e excluded p)) [
    | inl kept ↦
        let n : Among x ((score_plan fl e s p, p) ∷ viable fl e s excluded ps) =
          rw (viable-kept p ps kept) at m in
        elim n [
          | inl same ↦ subst (λ y. IsViable (p ∷ ps) y) (sym same) (inl refl, kept, refl)
          | inr later ↦ let (a, b, c) = viable-IsViable ps x later in (inr a, b, c)
        ]
    | inr (why, gone) ↦
        let (a, b, c) = viable-IsViable ps x (rw (viable-gone p ps why gone) at m) in (inr a, b, c)
  ]

  first-Among :
      (xs : List Scored) (p : RecoveryPlan fl)
      → first_plan fl xs ≡ some p
      → (a : fl.F) × Among (a, p) xs
  unfolding first_plan
  first-Among [] p h = cc
  first-Among ((a, q) ∷ rest) p h = let same : q ≡ p = cc in (a, inl (ap (λ z. (a, z)) (sym same)))

  -- `decide` selects a plan only under a trigger, and only one of the given plans that no breaker
  -- excludes and whose predicted latency and cost are within the budgets.
  pub decide-eligible :
      (decision_id : Text) (now_ms : ℕ) (plans : List (RecoveryPlan fl)) (p : RecoveryPlan fl)
      → (decide fl e decision_id now_ms s plans excluded).chosen ≡ some p
      → ((should_trigger fl e s).0 ≡ true)
        × Among p plans
        × (contains_text p.name excluded ≡ false)
        × (p.predicted_latency_ms ≤ e.budgets.latency_ms_max)
        × (fl.le p.predicted_cost_usd e.budgets.cost_usd_max ≡ true)
  unfolding decide rejection
  decide-eligible decision_id now_ms plans p h =
      let (triggered, first) : ((should_trigger fl e s).0 ≡ true)
          × (first_plan fl (sort_plans fl (viable fl e s excluded plans)) ≡ some p) =
        ground arith in
      let (a, m) = first-Among (sort_plans fl (viable fl e s excluded plans)) p first in
      let (among, kept, scored) =
        viable-IsViable plans (a, p) (Among-sort (a, p) (viable fl e s excluded plans) m) in
      (triggered, among, ground arith, ground arith, ground arith)
