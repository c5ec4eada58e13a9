-- ===== src/Governance/Proof.antt =====
-- src/ecosphere/governance/proof.py: verification and replay of an audit chain. A record is a dict
-- with the keys that the kernel writes.
pub mod Chain
pub mod Tamper
pub mod Sealed
use beaconwise_tek.Base.{
  ℕ, zero, suc, ◌+◌, ◌-◌, ◌*◌, ◌≤◌, ◌<◌, String, ◌≡◌, refl, sym, ap, ◌∙◌, subst, ◌≢◌, ◌↔◌, ◌⊎◌, inl,
  inr, Bool, true, false, not, ◌&&◌, ◌||◌, Option, none, some, List, [], ◌∷◌, ◌++◌, map,
  append_assoc, append-nil, arith, ltb, leb, ◌==◌, if◌then◌else◌, ltb→lt, lt→ltb, leb→le, le→leb,
  ==→eq, eq→==, Bool-cases, and_true, Option-cases, Text, codes, text_eq, text_lt, text_eq→eq,
  text_eq_refl, eq→text_eq, truthy, length, take, drop, take_last, any, all, length-append,
}
use beaconwise_tek.Float.{Floats}
use beaconwise_tek.Json.{Json, Fields, str, num, real, obj, end, field}
use beaconwise_tek.Stable.{Crypto, stable_hash}
use beaconwise_tek.Kernel.Session.{Epack}

-- The two messages of `verify_epack_chain`, with the numbers that they name.
pub data ChainError : Type 0 where
  hash_mismatch : ℕ → ChainError
  broken_link : ℕ → ℕ → ChainError

-- The value under `verification_error`.
pub data AuditError : Type 0 where
  hash_error link_error : AuditError

-- An annotated record of `replay_audit_chain`.
pub record AuditEntry (fl : Floats) : Type 0 where
  pub seq : ℕ
  pub ts : fl.F
  pub hash : Text
  pub verified : Bool
  pub hash_ok : Bool
  pub link_ok : Bool
  pub verification_error : Option AuditError

module _ (fl : Floats) (c : Crypto) where
  -- What the verifiers hash: the header with the payload itself.
  unfoldable pub audited_core : Epack fl → Json
  audited_core r = obj (
      field (codes "seq") (num r.seq) (
        field (codes "ts") (real (fl.repr r.ts))
          (field (codes "prev_hash") (str r.prev_hash) (field (codes "payload") r.payload end))))

  unfoldable pub hash_ok : Epack fl → Bool
  hash_ok r = text_eq r.hash (stable_hash c (audited_core r))

  unfoldable pub hash_errors : Epack fl → List ChainError
  hash_errors r = if hash_ok r then [] else hash_mismatch r.seq ∷ []

  unfoldable pub link_errors : Epack fl → Epack fl → List ChainError
  link_errors p r = if text_eq r.prev_hash p.hash then [] else broken_link r.seq p.seq ∷ []

  -- The loop behind a record `p`.
  unfoldable pub errors_after : Epack fl → List (Epack fl) → List ChainError
  unfolding hash_errors link_errors
  errors_after p [] = []
  errors_after p (r ∷ rs) = hash_errors r ++ (link_errors p r ++ errors_after r rs)

  unfoldable pub chain_errors : List (Epack fl) → List ChainError
  unfolding errors_after
  chain_errors [] = []
  chain_errors (r ∷ rs) = hash_errors r ++ errors_after r rs

  unfoldable pub verify_epack_chain : List (Epack fl) → Bool × List ChainError
  unfolding chain_errors
  verify_epack_chain chain = (length (chain_errors chain) == 0, chain_errors chain)

  unfoldable pub audit_entry : Epack fl → Bool → AuditEntry fl
  unfolding hash_ok
  audit_entry r link = record {
    seq = r.seq;
    ts = r.ts;
    hash = r.hash;
    verified = hash_ok r && link;
    hash_ok = hash_ok r;
    link_ok = link;
    verification_error =
        if hash_ok r && link then none else some (if hash_ok r then link_error else hash_error);
  }

  unfoldable pub audit_after : Epack fl → List (Epack fl) → List (AuditEntry fl)
  unfolding audit_entry
  audit_after p [] = []
  audit_after p (r ∷ rs) = audit_entry r (text_eq r.prev_hash p.hash) ∷ audit_after r rs

  unfoldable pub replay_audit_chain : List (Epack fl) → List (AuditEntry fl)
  unfolding audit_after
  replay_audit_chain [] = []
  replay_audit_chain (r ∷ rs) = audit_entry r true ∷ audit_after r rs
