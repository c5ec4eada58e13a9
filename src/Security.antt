-- ===== src/Security.antt =====
-- src/ecosphere/security/redaction.py: what a stored payload shows of its texts.
use beaconwise_tek.Base.{
  ℕ, ◌+◌, Bool, true, false, ◌&&◌, ◌||◌, List, [], ◌∷◌, ◌++◌, ltb, if◌then◌else◌, Text, codes,
  text_eq,
}
use beaconwise_tek.Json.{
  Json, Items, Fields, null, bool, num, neg, real, str, arr, obj, nil, cons, end, field,
}
use beaconwise_tek.Stable.{Crypto, stable_hash}

unfoldable pub is_prefix : List Text → List Text → Bool
is_prefix [] path = true
is_prefix (p ∷ ps) [] = false
is_prefix (p ∷ ps) (q ∷ path) = text_eq q p && is_prefix ps path

unfoldable pub is_public_evidence_path : List Text → Bool
unfolding is_prefix
is_public_evidence_path path =
    is_prefix (codes "extra" ∷ codes "gen_meta" ∷ codes "citation_verification" ∷ []) path
    || is_prefix (codes "extra" ∷ codes "gen_meta" ∷ codes "citation_cache_updates" ∷ []) path

abbrev pub max_depth : ℕ
max_depth = 10

unfoldable pub redact_value : Crypto → Text → Json
redact_value c s = obj (
    field (codes "_redacted") (bool true)
      (field (codes "sha256") (str (stable_hash c (str s))) end))

-- `_redact_recursive`; what the calls give that a test makes needless is not used.
unfoldable mutual
  pub redact : Crypto → ℕ → List Text → Json → Json
  redact c depth path (str s) =
      if ltb max_depth depth || is_public_evidence_path path then str s else redact_value c s
  redact c depth path (obj fs) =
      let inner = redact_fields c (depth + 1) path fs in
      if ltb max_depth depth || is_public_evidence_path path then obj fs else obj inner
  redact c depth path (arr xs) =
      let inner = redact_items c (depth + 1) path xs in
      if ltb max_depth depth || is_public_evidence_path path then arr xs else arr inner
  redact c depth path null = null
  redact c depth path (bool b) = bool b
  redact c depth path (num n) = num n
  redact c depth path (neg n) = neg n
  redact c depth path (real t) = real t

  pub redact_items : Crypto → ℕ → List Text → Items → Items
  redact_items c depth path nil = nil
  redact_items c depth path (cons x xs) =
      cons (redact c depth path x) (redact_items c depth path xs)

  pub redact_fields : Crypto → ℕ → List Text → Fields → Fields
  redact_fields c depth path end = end
  redact_fields c depth path (field k v fs) =
      field k (redact c depth (path ++ k ∷ []) v) (redact_fields c depth path fs)

-- `redact_payload`; the flag says if REDACT_MODE is not "off"
unfoldable pub redact_payload : Crypto → Bool → Json → Json
redact_payload c on payload = if on then redact c 0 [] payload else payload
