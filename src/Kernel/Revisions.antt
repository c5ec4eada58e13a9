-- ===== src/Kernel/Revisions.antt =====
-- src/ecosphere/kernel/revisions.py: the history of revisions that a pending payload carries.
use Prim.Native.Nat.{◌/◌, ◌%◌}
use mathlib.Core.List.{reverse}
use beaconwise_tek.Base.{
  ℕ, zero, suc, ◌+◌, Option, none, some, List, [], ◌∷◌, ◌++◌, map, ltb, if◌then◌else◌, Text, codes,
  take, take_last,
}
use beaconwise_tek.Json.{
  Json, Items, Fields, null, num, str, arr, obj, nil, cons, end, field, get, set, append,
}
use beaconwise_tek.Stable.{Crypto, stable_hash}

-- `str(n)`. A number below 10 ^ fuel has at most that many digits.
unfoldable pub decimal_fuel : ℕ → ℕ → Text
decimal_fuel zero n = []
decimal_fuel (suc fuel) n =
    let rest = decimal_fuel fuel (n / 10) in
    if ltb n 10 then (n + b'0') ∷ [] else rest ++ (n % 10 + b'0') ∷ []

unfoldable pub decimal : ℕ → Text
unfolding decimal_fuel
decimal n = decimal_fuel (n + 1) n

-- `payload.get("revision_history", [])`; the kernel stores nothing but a list there
unfoldable pub history : Fields → Items
history payload = elim (get (codes "revision_history") payload) [
  | none ↦ nil
  | some j ↦ elim j [ arr xs ↦ xs | _ ↦ nil ]
]

unfoldable pub step_json : Option ℕ → Json
step_json none = null
step_json (some n) = num n

unfoldable pub append_revision : Crypto → Fields → Option ℕ → Text → Fields
unfolding step_json
append_revision c payload step text =
    let text_hash16 = take 16 (stable_hash c (str text)) in
    let item =
      obj (
        field (codes "step") (step_json step)
          (field (codes "text_hash16") (str text_hash16) end)) in
    set (codes "revision_history") (arr (append (history payload) item)) payload

unfoldable pub items : Items → List Json
items nil = []
items (cons x xs) = x ∷ items xs

-- `item.get(k)`
unfoldable pub item_get : Text → Json → Option Json
item_get k j = elim j [ obj fs ↦ get k fs | _ ↦ none ]

unfoldable pub text_of : Option Json → Text
text_of j = elim j [ none ↦ [] | some v ↦ elim v [ str s ↦ s | _ ↦ [] ] ]

-- One line of the block, after a line break.
unfoldable pub revision_line : Json → Text
unfolding decimal item_get text_of
revision_line item =
    let h = text_of (item_get (codes "text_hash16") item) in
    let plain : Text = 10 ∷ codes "- (revision hash " ++ h ++ codes ")" in
    elim (item_get (codes "step") item) [
      | none ↦ plain
      | some j ↦ elim j [
        | num n ↦ 10 ∷ codes "- Step " ++ decimal n ++ codes ": (revision hash " ++ h ++ codes ")"
        | _ ↦ plain
      ]
    ]

unfoldable pub concat : List Text → Text
concat [] = []
concat (t ∷ ts) = t ++ concat ts

unfoldable pub render_revision_block : Fields → Text
unfolding history items revision_line concat
render_revision_block payload = elim (take_last 10 (items (history payload))) [
  | [] ↦ []
  | x ∷ r ↦
      codes "Revisions applied (latest first):" ++ concat (map revision_line (reverse (x ∷ r)))
]
