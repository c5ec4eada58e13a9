-- ===== src/Float.antt =====
-- Python floats. No law of their arithmetic is built in: the type and its operations are a parameter.
-- The values of a run are taken to be no NaN, so that of two floats one is at most the other.
use beaconwise_tek.Base.{ℕ, ◌*◌, ◌≤◌, ◌<◌, ◌≡◌, Bool, true, false, not, arith, if◌then◌else◌, Text}

pub record Floats : Type 1 where
  pub F : Type 0
  -- the float that the decimal literal n / d denotes; an int that is converted is `lit n 1`
  pub lit : ℕ → ℕ → F
  pub add : F → F → F
  pub sub : F → F → F
  pub mul : F → F → F
  -- division by a float that is not zero
  pub div : F → F → F
  -- `a <= b`
  pub le : F → F → Bool
  -- `round(x, n)`
  pub round : F → ℕ → F
  -- `repr(x)`, which `json.dumps` writes
  pub repr : F → Text

-- `a < b`
abbrev pub flt : (fl : Floats) → fl.F → fl.F → Bool
flt fl a b = not (fl.le b a)

-- `min(a, b)` and `max(a, b)`: the first argument, unless the second is strictly better.
abbrev pub fmin : (fl : Floats) → fl.F → fl.F → fl.F
fmin fl a b = if flt fl b a then b else a

abbrev pub fmax : (fl : Floats) → fl.F → fl.F → fl.F
fmax fl a b = if flt fl a b then b else a

-- What IEEE 754 promises of the order of floats that are no NaN, and of literals, which are rounded
-- by one monotone rule.
pub record IsOrdered (fl : Floats) : Type 0 where
  pub le_refl : (a : fl.F) → fl.le a a ≡ true
  pub le_trans : (a b c : fl.F) → fl.le a b ≡ true → fl.le b c ≡ true → fl.le a c ≡ true
  pub le_total : (a b : fl.F) → fl.le a b ≡ false → fl.le b a ≡ true
  pub lit-le :
      (n d m e : ℕ) → 0 < d → 0 < e → n * e ≤ m * d → fl.le (fl.lit n d) (fl.lit m e) ≡ true

-- `max(lo, min(hi, x))`
abbrev pub clamp : (fl : Floats) → fl.F → fl.F → fl.F → fl.F
clamp fl lo hi x = fmax fl lo (fmin fl hi x)

-- A clamped float lies between the bounds.
pub clamp_bounds :
    (fl : Floats) (o : IsOrdered fl) (lo hi x : fl.F)
    → fl.le lo hi ≡ true
    → (fl.le lo (clamp fl lo hi x) ≡ true) × (fl.le (clamp fl lo hi x) hi ≡ true)
clamp_bounds fl o lo hi x h = ground (
  arith,
  o.le_refl lo,
  o.le_refl hi,
  o.le_total hi x,
  o.le_total x hi,
  o.le_total (if flt fl x hi then x else hi) lo,
  o.le_total lo (if flt fl x hi then x else hi),
)
