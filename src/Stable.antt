-- ===== src/Stable.antt =====
-- src/ecosphere/utils/stable.py: deterministic hashes of JSON values. `json.dumps`, the SHA-2
-- functions of `hashlib` and `hmac` are the fields of `Crypto`, a parameter of the development.
pub mod Tagged
use beaconwise_tek.Base.{
  ℕ, zero, suc, Bool, true, false, not, ◌&&◌, Option, none, some, List, [], ◌∷◌, ◌++◌, Text, codes,
  text_eq, truthy, if◌then◌else◌, take_last, ◌==◌, ◌≡◌,
}
use beaconwise_tek.Json.{Json, canonical}

pub record Crypto : Type 0 where
  -- `json.dumps(.., separators=(",", ":"), ensure_ascii=False)` of a value whose keys are in order
  pub dumps : Json → Text
  -- the hex digests
  pub sha256 : Text → Text
  pub sha384 : Text → Text
  pub sha512 : Text → Text
  -- `hmac.new(key, message, sha256).hexdigest()`
  pub hmac_sha256 : Text → Text → Text

-- What the code relies on: no two values print alike, and no two texts in use collide.
pub record IsCollisionFree (c : Crypto) : Type 0 where
  pub dumps_inj : (a b : Json) → c.dumps a ≡ c.dumps b → a ≡ b
  pub sha256_inj : (s t : Text) → c.sha256 s ≡ c.sha256 t → s ≡ t

-- A string has a character `ch`: `ch in s`.
unfoldable pub has_char : ℕ → Text → Bool
has_char ch [] = false
has_char ch (x ∷ s) = if x == ch then true else has_char ch s

-- `s.split(ch, 1)` for a text that has `ch`.
unfoldable pub split_at : ℕ → Text → Text × Text
split_at ch [] = ([], [])
split_at ch (x ∷ s) =
    let (before, after) = split_at ch s in if x == ch then ([], s) else (x ∷ before, after)

module _ (c : Crypto) where
  -- `_ALGORITHMS` and `_get_hasher`, `none` for the ValueError
  unfoldable pub get_hasher : Text → Option (Text → Text)
  get_hasher algo =
      if text_eq algo (codes "sha256")
      then some c.sha256
      else if text_eq algo (codes "sha384")
      then some c.sha384
      else if text_eq algo (codes "sha512")
      then some c.sha512
      else none

  unfoldable pub stable_json : Json → Text
  stable_json j = c.dumps (canonical j)

  -- `stable_hash(obj, algorithm=algo)`
  unfoldable pub stable_hash_by : Text → Json → Option Text
  unfolding get_hasher stable_json
  stable_hash_by algo j = elim (get_hasher algo) [ none ↦ none | some h ↦ some (h (stable_json j)) ]

  -- `stable_hash(obj)` under the default algorithm, SHA-256
  unfoldable pub stable_hash : Json → Text
  unfolding stable_json
  stable_hash j = c.sha256 (stable_json j)

  unfoldable pub stable_hash_tagged : Text → Json → Option Text
  stable_hash_tagged algo j = elim (stable_hash_by algo j) [
    | none ↦ none
    | some d ↦ some (algo ++ b':' ∷ d)
  ]

  -- `none` for the ValueError of an unknown algorithm
  unfoldable pub verify_tagged_hash : Json → Text → Option Bool
  verify_tagged_hash j tagged =
      if has_char b':' tagged
      then (let (algo, expected) = split_at b':' tagged in
          elim (stable_hash_by algo j) [ none ↦ none | some d ↦ some (text_eq d expected) ])
      else some (text_eq (stable_hash j) tagged)

-- `h[-n:]`, which is the whole of `h` for `n = 0`
unfoldable pub last_chars : ℕ → Text → Text
last_chars zero h = h
last_chars (suc n) h = take_last (suc n) h

unfoldable pub hash_suffix : Text → ℕ → Text
unfolding has_char split_at last_chars
hash_suffix h n =
    if truthy h
    then (if has_char b':' h then last_chars n (split_at b':' h).1 else last_chars n h)
    else []
