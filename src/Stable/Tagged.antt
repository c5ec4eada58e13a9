-- ===== src/Stable/Tagged.antt =====
-- Tagged hashes verify against the value that they were made of, and against no other.
use beaconwise_tek.Base.{
  ℕ, ◌≡◌, refl, true, false, some, [], ◌∷◌, ◌++◌, arith, Text, codes, text_eq, text_eq→eq, inl, inr,
  Bool-cases,
}
use beaconwise_tek.Json.{Json, canonical}
use beaconwise_tek.Stable.{
  Crypto, IsCollisionFree, has_char, split_at, stable_hash, stable_hash_by, stable_hash_tagged,
  verify_tagged_hash, get_hasher, stable_json,
}

has_char-append : (ch : ℕ) (s t : Text) → has_char ch (s ++ ch ∷ t) ≡ true
unfolding has_char
has_char-append ch [] t = ground arith
has_char-append ch (x ∷ s) t = ground (arith, has_char-append ch s t)

split_at-append : (ch : ℕ) (s t : Text) → has_char ch s ≡ false → split_at ch (s ++ ch ∷ t) ≡ (s, t)
unfolding has_char split_at
split_at-append ch [] t h = ground arith
split_at-append ch (x ∷ s) t h = ground (arith, split_at-append ch s t)

module _ (c : Crypto) where
  -- Two values have one stable hash exactly when they are one value up to the order of keys.
  pub stable_hash_inj :
      (f : IsCollisionFree c) (a b : Json)
      → stable_hash c a ≡ stable_hash c b
      → canonical a ≡ canonical b
  unfolding stable_hash
  stable_hash_inj f a b e =
      f.dumps_inj (canonical a) (canonical b)
        (f.sha256_inj (c.dumps (canonical a)) (c.dumps (canonical b)) e)

  known-no_colon :
      (algo : Text) (h : Text → Text) → get_hasher c algo ≡ some h → has_char b':' algo ≡ false
  unfolding get_hasher
  known-no_colon algo h e = elim (Bool-cases (text_eq algo (codes "sha256"))) [
    | inl p ↦ rw (text_eq→eq algo (codes "sha256") p) (unfold has_char codes in refl)
    | inr n ↦ elim (Bool-cases (text_eq algo (codes "sha384"))) [
      | inl p ↦ rw (text_eq→eq algo (codes "sha384") p) (unfold has_char codes in refl)
      | inr m ↦ elim (Bool-cases (text_eq algo (codes "sha512"))) [
        | inl p ↦ rw (text_eq→eq algo (codes "sha512") p) (unfold has_char codes in refl)
        | inr l ↦ ground arith
      ]
    ]
  ]

  -- A verified tagged text of a known algorithm is compared with that algorithm's digest.
  verify-tag :
      (algo d : Text) (j : Json) (h : Text → Text)
      → get_hasher c algo ≡ some h
      → verify_tagged_hash c j (algo ++ b':' ∷ d) ≡ some (text_eq (h (stable_json c j)) d)
  unfolding verify_tagged_hash stable_hash_by
  verify-tag algo d j h e =
      ground
        (arith, has_char-append b':' algo d, split_at-append b':' algo d (known-no_colon algo h e))

  -- A hash that is tagged with a known algorithm verifies against a value exactly when the
  -- digests of the two values under that algorithm are one text.
  pub verify_tagged_hash-tagged :
      (algo : Text) (h : Text → Text) (j k : Json)
      → get_hasher c algo ≡ some h
      → (t : Text) × (stable_hash_tagged c algo j ≡ some t)
        × (verify_tagged_hash c k t ≡ some (text_eq (h (stable_json c k)) (h (stable_json c j))))
  unfolding stable_hash_tagged stable_hash_by
  verify_tagged_hash-tagged algo h j k e = (
    algo ++ b':' ∷ h (stable_json c j),
    ground arith,
    verify-tag algo (h (stable_json c j)) k h e,
  )
