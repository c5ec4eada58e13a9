-- ===== src/Epack.antt =====
-- src/ecosphere/epack: blocks of the audit chain (chain.py) and their signatures (crypto.py).
use beaconwise_tek.Base.{ℕ, Bool, if◌then◌else◌, Text, codes, text_eq, truthy}
use beaconwise_tek.Float.{Floats}
use beaconwise_tek.Json.{Json, str, num, real, obj, end, field}
use beaconwise_tek.Stable.{Crypto, stable_hash}

-- The dataclass `EPACK`.
pub record EpackBlock (fl : Floats) : Type 0 where
  pub seq : ℕ
  pub ts : fl.F
  pub prev_hash : Text
  pub payload_hash : Text
  pub payload : Json
  pub hash : Text

module _ (fl : Floats) (c : Crypto) where
  -- What `new_epack` hashes: the header with the hash of the payload.
  unfoldable pub sealed_core : ℕ → fl.F → Text → Text → Json
  sealed_core seq ts prev_hash payload_hash = obj (
      field (codes "seq") (num seq) (
        field (codes "ts") (real (fl.repr ts)) (
          field (codes "prev_hash") (str prev_hash)
            (field (codes "payload_hash") (str payload_hash) end))))

  -- `new_epack` at the time `ts`; an empty override counts as none
  unfoldable pub new_epack : fl.F → ℕ → Text → Json → Text → EpackBlock fl
  new_epack ts seq prev_hash payload payload_hash_override =
      let payload_hash : Text =
        if truthy payload_hash_override then payload_hash_override else stable_hash c payload in
      record {
        seq = seq;
        ts = ts;
        prev_hash = prev_hash;
        payload_hash = payload_hash;
        payload = payload;
        hash = stable_hash c (sealed_core seq ts prev_hash payload_hash);
      }

-- `sign_payload_hash` under the key of the environment
unfoldable pub sign_payload_hash : Crypto → Text → Text → Text
sign_payload_hash c key payload_hash = c.hmac_sha256 key payload_hash

unfoldable pub verify_signature : Crypto → Text → Text → Text → Bool
unfolding sign_payload_hash
verify_signature c key payload_hash signature =
    text_eq (sign_payload_hash c key payload_hash) signature
