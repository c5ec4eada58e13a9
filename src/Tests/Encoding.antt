-- ===== src/Tests/Encoding.antt =====
-- A printer of JSON values that no two values share, to show that `IsCollisionFree` can hold.
use beaconwise_tek.Base.{◌≡◌, refl, true, false, [], ◌∷◌, ◌++◌, arith, Text, length}
use beaconwise_tek.Json.{
  Json, Items, Fields, null, bool, num, neg, real, str, arr, obj, nil, cons, end, field,
}
use beaconwise_tek.Stable.{Crypto, IsCollisionFree}

unfoldable mutual
  pub encode : Json → Text → Text
  encode null r = 0 ∷ r
  encode (bool true) r = 1 ∷ r
  encode (bool false) r = 2 ∷ r
  encode (num n) r = 3 ∷ n ∷ r
  encode (real s) r = 4 ∷ length s ∷ (s ++ r)
  encode (str s) r = 5 ∷ length s ∷ (s ++ r)
  encode (arr xs) r = 6 ∷ encode_items xs r
  encode (obj fs) r = 7 ∷ encode_fields fs r
  encode (neg n) r = 8 ∷ n ∷ r

  pub encode_items : Items → Text → Text
  encode_items nil r = 0 ∷ r
  encode_items (cons x xs) r = 1 ∷ encode x (encode_items xs r)

  pub encode_fields : Fields → Text → Text
  encode_fields end r = 0 ∷ r
  encode_fields (field k v fs) r = 1 ∷ length k ∷ (k ++ encode v (encode_fields fs r))

split_text : (s t q r : Text) → length s ≡ length t → s ++ q ≡ t ++ r → (s ≡ t) × (q ≡ r)
split_text [] [] q r n e = (refl, e)
split_text [] (y ∷ t) q r n e = absurd (omega arith)
split_text (x ∷ s) [] q r n e = absurd (omega arith)
split_text (x ∷ s) (y ∷ t) q r n e = ground (arith, split_text s t q r)

mutual
  unfolding encode

  encode_inj : (a b : Json) (q r : Text) → encode a q ≡ encode b r → (a ≡ b) × (q ≡ r)
  encode_inj null null q r e = ground arith
  encode_inj null (bool true) q r e = ground arith
  encode_inj null (bool false) q r e = ground arith
  encode_inj null _ q r e = ground arith
  encode_inj (bool true) (bool true) q r e = ground arith
  encode_inj (bool true) (bool false) q r e = ground arith
  encode_inj (bool true) _ q r e = ground arith
  encode_inj (bool false) (bool false) q r e = ground arith
  encode_inj (bool false) (bool true) q r e = ground arith
  encode_inj (bool false) _ q r e = ground arith
  encode_inj (num n) (num m) q r e = ground arith
  encode_inj (num n) (bool true) q r e = ground arith
  encode_inj (num n) (bool false) q r e = ground arith
  encode_inj (num n) _ q r e = ground arith
  encode_inj (neg n) (neg m) q r e = ground arith
  encode_inj (neg n) (bool true) q r e = ground arith
  encode_inj (neg n) (bool false) q r e = ground arith
  encode_inj (neg n) _ q r e = ground arith
  encode_inj (real s) (real t) q r e = ground (arith, split_text s t q r)
  encode_inj (real s) (bool true) q r e = ground arith
  encode_inj (real s) (bool false) q r e = ground arith
  encode_inj (real s) _ q r e = ground arith
  encode_inj (str s) (str t) q r e = ground (arith, split_text s t q r)
  encode_inj (str s) (bool true) q r e = ground arith
  encode_inj (str s) (bool false) q r e = ground arith
  encode_inj (str s) _ q r e = ground arith
  encode_inj (arr xs) (arr ys) q r e = ground (arith, encode_items_inj xs ys q r)
  encode_inj (arr xs) (bool true) q r e = ground arith
  encode_inj (arr xs) (bool false) q r e = ground arith
  encode_inj (arr xs) _ q r e = ground arith
  encode_inj (obj fs) (obj gs) q r e = ground (arith, encode_fields_inj fs gs q r)
  encode_inj (obj fs) (bool true) q r e = ground arith
  encode_inj (obj fs) (bool false) q r e = ground arith
  encode_inj (obj fs) _ q r e = ground arith

  encode_items_inj :
      (a b : Items) (q r : Text) → encode_items a q ≡ encode_items b r → (a ≡ b) × (q ≡ r)
  encode_items_inj nil nil q r e = ground arith
  encode_items_inj nil (cons y ys) q r e = ground arith
  encode_items_inj (cons x xs) nil q r e = ground arith
  encode_items_inj (cons x xs) (cons y ys) q r e =
      ground
        (arith, encode_inj x y (encode_items xs q) (encode_items ys r), encode_items_inj xs ys q r)

  encode_fields_inj :
      (a b : Fields) (q r : Text) → encode_fields a q ≡ encode_fields b r → (a ≡ b) × (q ≡ r)
  encode_fields_inj end end q r e = ground arith
  encode_fields_inj end (field k v fs) q r e = ground arith
  encode_fields_inj (field k v fs) end q r e = ground arith
  encode_fields_inj (field k v fs) (field j w gs) q r e = ground (
    arith,
    split_text k j (encode v (encode_fields fs q)) (encode w (encode_fields gs r)),
    encode_inj v w (encode_fields fs q) (encode_fields gs r),
    encode_fields_inj fs gs q r,
  )

-- A printer and digests without collisions: the encoding, and texts as their own digests.
abbrev pub toy_crypto : Crypto
toy_crypto = record {
  dumps = λ j. encode j [];
  sha256 = λ t. t;
  sha384 = λ t. 384 ∷ t;
  sha512 = λ t. 512 ∷ t;
  hmac_sha256 = λ k t. k ++ t;
}

pub toy_crypto-IsCollisionFree : IsCollisionFree toy_crypto
toy_crypto-IsCollisionFree = record {
  dumps_inj = λ a b e. (encode_inj a b [] [] e).0;
  sha256_inj = λ s t e. e;
}
