-- ===== src/Resilience/Recovery/Best.antt =====
-- The plan that `decide` selects is one of the best.
use beaconwise_tek.Base.{
  ℕ, ◌≤◌, ◌≡◌, refl, sym, ap, subst, inl, inr, true, false, none, some, List, [], ◌∷◌, arith,
  Bool-cases, Option-cases, Text,
}
use beaconwise_tek.Float.{Floats, IsOrdered}
use beaconwise_tek.Kernel.Gates.{contains_text}
use beaconwise_tek.Resilience.Recovery.{
  should_trigger, RecoveryPlan, RecoveryState, RecoveryEngine, score_plan, rejection, viable,
  key_lt, insert_plan, sort_plans, first_plan, decide,
}
use beaconwise_tek.Resilience.Recovery.Selection.{
  Among, Among-sort, viable-kept, viable-gone, viable-IsViable,
}

module _ (fl : Floats) (o : IsOrdered fl) (e : RecoveryEngine fl) (s : RecoveryState fl)
    (excluded : List Text) where
  -- A list that begins with a score that is at least `a`.
  abbrev TopsFrom : fl.F → List (fl.F × RecoveryPlan fl) → Type 0
  TopsFrom a l =
      (y : fl.F × RecoveryPlan fl) × (rest : List (fl.F × RecoveryPlan fl)) × (l ≡ y ∷ rest)
      × (fl.le a y.0 ≡ true)

  key_lt-le : (x y : fl.F × RecoveryPlan fl) → key_lt fl x y ≡ true → fl.le x.0 y.0 ≡ true
  unfolding key_lt
  key_lt-le (a, p) (b, q) lt = ground (arith, o.le_total b a)

  key_ge-le : (x y : fl.F × RecoveryPlan fl) → key_lt fl x y ≡ false → fl.le y.0 x.0 ≡ true
  unfolding key_lt
  key_ge-le (a, p) (b, q) ge = ground (arith, o.le_total b a)

  insert-tops :
      (z : fl.F × RecoveryPlan fl) (l : List (fl.F × RecoveryPlan fl))
      → TopsFrom z.0 (insert_plan fl z l)
  unfolding insert_plan
  insert-tops z [] = (z, [], refl, o.le_refl z.0)
  insert-tops z (w ∷ r) = elim (Bool-cases (key_lt fl z w)) [
    | inl lt ↦ (w, insert_plan fl z r, rw lt refl, key_lt-le z w lt)
    | inr ge ↦ (z, w ∷ r, rw ge refl, o.le_refl z.0)
  ]

  insert-keeps_tops :
      (z w : fl.F × RecoveryPlan fl) (r : List (fl.F × RecoveryPlan fl))
      → TopsFrom w.0 (insert_plan fl z (w ∷ r))
  unfolding insert_plan
  insert-keeps_tops z w r = elim (Bool-cases (key_lt fl z w)) [
    | inl lt ↦ (w, insert_plan fl z r, rw lt refl, o.le_refl w.0)
    | inr ge ↦ (z, w ∷ r, rw ge refl, key_ge-le z w ge)
  ]

  sort-tops :
      (x : fl.F × RecoveryPlan fl) (xs : List (fl.F × RecoveryPlan fl))
      → Among x xs
      → TopsFrom x.0 (sort_plans fl xs)
  unfolding sort_plans
  sort-tops x [] m = absurd m
  sort-tops x (z ∷ zs) (inl same) =
      subst (λ v. TopsFrom v.0 (insert_plan fl z (sort_plans fl zs))) (sym same)
        (insert-tops z (sort_plans fl zs))
  sort-tops x (z ∷ zs) (inr later) =
      let (y, rest, same, below) = sort-tops x zs later in
      let (top, others, first, above) = insert-keeps_tops z y rest in
      (top, others, rw same first, o.le_trans x.0 y.0 top.0 below above)

  viable-Among :
      (plans : List (RecoveryPlan fl)) (q : RecoveryPlan fl)
      → Among q plans
      → rejection fl e excluded q ≡ none
      → Among (score_plan fl e s q, q) (viable fl e s excluded plans)
  viable-Among [] q m kept = absurd m
  viable-Among (p ∷ ps) q (inl same) kept =
      rw (viable-kept fl e s excluded p ps (rw same at kept))
        (inl (ap (λ r. (score_plan fl e s r, r)) same))
  viable-Among (p ∷ ps) q (inr later) kept = elim (Option-cases (rejection fl e excluded p)) [
    | inl n ↦ rw (viable-kept fl e s excluded p ps n) (inr (viable-Among ps q later kept))
    | inr (why, gone) ↦
        rw (viable-gone fl e s excluded p ps why gone) (viable-Among ps q later kept)
  ]

  not_rejected :
      (q : RecoveryPlan fl)
      → contains_text q.name excluded ≡ false
      → q.predicted_latency_ms ≤ e.budgets.latency_ms_max
      → fl.le q.predicted_cost_usd e.budgets.cost_usd_max ≡ true
      → rejection fl e excluded q ≡ none
  unfolding rejection
  not_rejected q free quick cheap = ground arith

  first_plan_lem :
      (y : fl.F × RecoveryPlan fl) (rest : List (fl.F × RecoveryPlan fl))
      → first_plan fl (y ∷ rest) ≡ some y.1
  unfolding first_plan
  first_plan_lem (a, p) rest = refl

  -- Over floats in their order, and under a trigger, a plan that no breaker excludes and whose
  -- predicted latency and cost are within the budgets makes `decide` select a plan, and the score of
  -- the selected plan is at least the score of that plan.
  pub decide-best :
      (decision_id : Text) (now_ms : ℕ) (plans : List (RecoveryPlan fl)) (q : RecoveryPlan fl)
      → (should_trigger fl e s).0 ≡ true
      → Among q plans
      → contains_text q.name excluded ≡ false
      → q.predicted_latency_ms ≤ e.budgets.latency_ms_max
      → fl.le q.predicted_cost_usd e.budgets.cost_usd_max ≡ true
      → (p : RecoveryPlan fl) × ((decide fl e decision_id now_ms s plans excluded).chosen ≡ some p)
        × (fl.le (score_plan fl e s q) (score_plan fl e s p) ≡ true)
  unfolding decide
  decide-best decision_id now_ms plans q triggered m free quick cheap =
      let found : List (fl.F × RecoveryPlan fl) = viable fl e s excluded plans in
      let (y, rest, same, below) =
        sort-tops (score_plan fl e s q, q) found
          (viable-Among plans q m (not_rejected q free quick cheap)) in
      let among = Among-sort fl e s excluded y found (rw same (inl refl)) in
      let (a, b, scored) = viable-IsViable fl e s excluded plans y among in
      (y.1, rw (triggered, same) (first_plan_lem y rest), rw (← scored) below)
