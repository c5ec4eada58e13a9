-- ===== src/Validation/Checked.antt =====
-- What a check of src/ecosphere/validation/validators.py ends with, and what the checks take from
-- Python: `json.loads` and the formatting of values in messages.
use beaconwise_tek.Base.{
  ℕ, ◌≡◌, refl, ◌≢◌, ◌⊎◌, inl, inr, Bool, true, false, List, [], ◌∷◌, arith, if◌then◌else◌,
  Bool-cases, Text, text_lt, truthy, all,
}
use beaconwise_tek.Float.{Floats}
use beaconwise_tek.Json.{Json, null, str, arr, obj}
use beaconwise_tek.Kernel.Gates.{contains_text}
use beaconwise_tek.Kernel.Patterns.{strip}

-- One attempt of `validate_output`.
pub record ValidationAttempt (fl : Floats) : Type 0 where
  pub attempt : ℕ
  pub ok : Bool
  pub reason : Text
  pub score : fl.F

-- A check passes, refuses with a reason, or ends with a TypeError that nothing in the file catches.
pub data Checked : Type 0 where
  passed : Checked
  refused : Text → Checked
  raised : Checked

-- What `json.loads` gives: a value, or the text of a JSONDecodeError.
pub data Loaded : Type 0 where
  parsed : Json → Loaded
  malformed : Text → Loaded

pub record Python : Type 0 where
  pub loads : Text → Loaded
  -- `str(v)`
  pub show : Json → Text
  -- `str(names)` for a list of strings
  pub show_list : List Text → Text

-- The next check runs when the one before passes.
unfoldable pub then_check : Checked → Checked → Checked
then_check passed b = b
then_check (refused r) b = refused r
then_check raised b = raised

-- `if not ok: return False, reason`
unfoldable pub require : Bool → Text → Checked
require ok reason = if ok then passed else refused reason

-- `v in names` for a set of strings: a list or a dict is not hashable.
unfoldable pub member : List Text → Text → Json → Checked
member names reason (str s) = require (contains_text s names) reason
member names reason (arr xs) = raised
member names reason (obj fs) = raised
member names reason _ = refused reason

-- `names - set(ks)`, for names that are in order
unfoldable pub absent : List Text → List Text → List Text
absent [] ks = []
absent (n ∷ ns) ks = let rest = absent ns ks in if contains_text n ks then rest else n ∷ rest

unfoldable pub insert_text : Text → List Text → List Text
insert_text x [] = x ∷ []
insert_text x (y ∷ ys) = let rest = insert_text x ys in if text_lt x y then x ∷ y ∷ ys else y ∷ rest

-- `sorted(set(ks) - names)`, for keys without repetition
unfoldable pub foreign : List Text → List Text → List Text
unfolding insert_text
foreign names [] = []
foreign names (k ∷ ks) =
    let rest = foreign names ks in if contains_text k names then rest else insert_text k rest

unfoldable pub is_nil : List Text → Bool
is_nil [] = true
is_nil (_ ∷ _) = false

-- `isinstance(v, str) and v.strip()`
unfoldable pub is_filled : Json → Bool
is_filled (str s) = truthy (strip s)
is_filled _ = false

-- `v is None or isinstance(v, str)`
unfoldable pub is_note : Json → Bool
is_note (str s) = true
is_note null = true
is_note _ = false

pub then_check-passed : (a b : Checked) → then_check a b ≡ passed → (a ≡ passed) × (b ≡ passed)
unfolding then_check
then_check-passed passed b e = (refl, e)
then_check-passed (refused r) b e = ground arith
then_check-passed raised b e = ground arith

pub require-passed : (ok : Bool) (reason : Text) → require ok reason ≡ passed → ok ≡ true
unfolding require
require-passed true reason e = refl
require-passed false reason e = ground arith

-- A member of a set of strings is one of its strings.
pub member-passed :
    (names : List Text) (reason : Text) (v : Json)
    → member names reason v ≡ passed
    → (s : Text) × (v ≡ str s) × (contains_text s names ≡ true)
unfolding member
member-passed names reason (str s) e = (s, refl, require-passed (contains_text s names) reason e)
member-passed names reason _ e = ground arith

pub is_nil→eq : (xs : List Text) → is_nil xs ≡ true → xs ≡ []
unfolding is_nil
is_nil→eq [] e = refl
is_nil→eq (x ∷ xs) e = ground arith

-- Nothing of the names is absent: each is among the keys.
pub absent-none :
    (names ks : List Text) → absent names ks ≡ [] → all (λ n. contains_text n ks) names ≡ true
unfolding absent
absent-none [] ks e = refl
absent-none (n ∷ ns) ks e = elim (Bool-cases (contains_text n ks)) [
  | inl there ↦ rw there (absent-none ns ks (rw there at e))
  | inr missing ↦ ground arith
]

insert_text-filled : (x : Text) (ys : List Text) → insert_text x ys ≢ []
unfolding insert_text
insert_text-filled x [] e = ground arith
insert_text-filled x (y ∷ ys) e = ground arith

-- No key is foreign: each is among the names.
pub foreign-none :
    (names ks : List Text) → foreign names ks ≡ [] → all (λ k. contains_text k names) ks ≡ true
unfolding foreign
foreign-none names [] e = refl
foreign-none names (k ∷ ks) e = elim (Bool-cases (contains_text k names)) [
  | inl there ↦ rw there (foreign-none names ks (rw there at e))
  | inr missing ↦ absurd (insert_text-filled k (foreign names ks) (rw missing at e))
]

pub is_filled→text :
    (v : Json) → is_filled v ≡ true → (s : Text) × (v ≡ str s) × (truthy (strip s) ≡ true)
unfolding is_filled
is_filled→text (str s) e = (s, refl, e)
is_filled→text _ e = ground arith

pub is_note→text : (v : Json) → is_note v ≡ true → (v ≡ null) ⊎ ((s : Text) × (v ≡ str s))
unfolding is_note
is_note→text (str s) e = inr (s, refl)
is_note→text null e = inl refl
is_note→text _ e = ground arith
