-- ===== src/Json.antt =====
-- JSON values (the Python dicts, lists and scalars that the code hashes), and
-- src/ecosphere/utils/stable.py over them.
use beaconwise_tek.Base.{
  ℕ, zero, suc, Bool, true, false, not, ◌||◌, Option, none, some, if◌then◌else◌, List, [], ◌∷◌,
  Text, codes, text_eq, text_lt, truthy,
}

mutual
  pub data Json : Type 0 where
    null : Json
    bool : Bool → Json
    num : ℕ → Json
    -- the int -(n + 1)
    neg : ℕ → Json
    -- a float, by the text that is printed for it
    real : Text → Json
    str : Text → Json
    arr : Items → Json
    obj : Fields → Json

  pub data Items : Type 0 where
    nil : Items
    cons : Json → Items → Items

  pub data Fields : Type 0 where
    end : Fields
    field : Text → Json → Fields → Fields

-- `d.get(k)`
unfoldable pub get : Text → Fields → Option Json
get k end = none
get k (field j v fs) = if text_eq j k then some v else get k fs

-- `d.get(k)`, with `None` for a missing key
unfoldable pub value : Text → Fields → Json
value k end = null
value k (field j v fs) = if text_eq j k then v else value k fs

-- `k in d`
unfoldable pub has_key : Text → Fields → Bool
has_key k end = false
has_key k (field j v fs) = if text_eq j k then true else has_key k fs

-- `d.keys()`
unfoldable pub keys : Fields → List Text
keys end = []
keys (field j v fs) = j ∷ keys fs

-- `d[k] = v`: in place, or at the end of the insertion order.
unfoldable pub set : Text → Json → Fields → Fields
set k v end = field k v end
set k v (field j w fs) = if text_eq j k then field j v fs else field j w (set k v fs)

-- `xs.append(x)`
unfoldable pub append : Items → Json → Items
append nil x = cons x nil
append (cons y ys) x = cons y (append ys x)

unfoldable pub insert_field : Text → Json → Fields → Fields
insert_field k v end = field k v end
insert_field k v (field j w fs) =
    if text_lt k j then field k v (field j w fs) else field j w (insert_field k v fs)

-- The value that `json.dumps(.., sort_keys=True)` writes: every object with its keys in order.
unfoldable mutual
  pub canonical : Json → Json
  canonical (arr xs) = arr (canonical_items xs)
  canonical (obj fs) = obj (canonical_fields fs)
  canonical j = j

  pub canonical_items : Items → Items
  canonical_items nil = nil
  canonical_items (cons x xs) = cons (canonical x) (canonical_items xs)

  pub canonical_fields : Fields → Fields
  canonical_fields end = end
  canonical_fields (field k v fs) = insert_field k (canonical v) (canonical_fields fs)

-- `bool(v)` of a JSON value. A float is true unless it prints as a zero.
unfoldable pub json_truthy : Json → Bool
json_truthy null = false
json_truthy (bool b) = b
json_truthy (num zero) = false
json_truthy (num (suc n)) = true
json_truthy (neg n) = true
json_truthy (real s) = not (text_eq s (codes "0.0") || text_eq s (codes "-0.0"))
json_truthy (str s) = truthy s
json_truthy (arr nil) = false
json_truthy (arr (cons _ _)) = true
json_truthy (obj end) = false
json_truthy (obj (field _ _ _)) = true
