-- ===== src/Governance/Proof/Sealed.antt =====
-- The kernel's blocks and the verifiers hash different headers.
use beaconwise_tek.Base.{
  ℕ, ◌≡◌, refl, sym, ◌∙◌, ◌≢◌, inl, inr, false, List, [], ◌∷◌, ◌++◌, arith, Bool-cases, Text, codes,
  text_lt,
}
use beaconwise_tek.Float.{Floats}
use beaconwise_tek.Json.{Json, canonical, insert_field}
use beaconwise_tek.Stable.{Crypto, IsCollisionFree, stable_hash}
use beaconwise_tek.Stable.Tagged.{stable_hash_inj}
use beaconwise_tek.Kernel.Session.{Epack}
use beaconwise_tek.Epack.{EpackBlock, sealed_core, new_epack}
use beaconwise_tek.Governance.Proof.{audited_core, verify_epack_chain}
use beaconwise_tek.Governance.Proof.Chain.{IsGenuine, IsLinked, IsIntact, verify_epack_chain_iff}

module _ (fl : Floats) (c : Crypto) where
  -- A block with its signature, as `_seal` stores it.
  abbrev pub stored : EpackBlock fl → Text → Epack fl
  stored b signature = record {
    seq = b.seq;
    ts = b.ts;
    prev_hash = b.prev_hash;
    payload_hash = b.payload_hash;
    signature = signature;
    hash = b.hash;
    payload = b.payload;
  }

  cores-ne :
      (n : ℕ) (t : fl.F) (p h : Text) (r : Epack fl)
      → canonical (sealed_core fl c n t p h) ≢ canonical (audited_core fl c r)
  unfolding canonical insert_field audited_core sealed_core codes text_lt
  cores-ne n t p h r e = ground arith

  block-not-IsGenuine :
      IsCollisionFree c
      → (n : ℕ) (t : fl.F) (p h : Text) (r : Epack fl)
      → r.hash ≡ stable_hash c (sealed_core fl c n t p h)
      → ¬ (IsGenuine fl c r)
  block-not-IsGenuine f n t p h r e g =
      cores-ne n t p h r
        (stable_hash_inj c f (sealed_core fl c n t p h) (audited_core fl c r) (sym e ∙ g))

  -- Every record of an intact chain is genuine.
  linked-IsGenuine :
      (p r : Epack fl) (xs ys : List (Epack fl)) → IsLinked fl c p (xs ++ r ∷ ys) → IsGenuine fl c r
  linked-IsGenuine p r [] ys l = l.0
  linked-IsGenuine p r (x ∷ xs) ys l = linked-IsGenuine x r xs ys l.2

  intact-IsGenuine :
      (r : Epack fl) (xs ys : List (Epack fl)) → IsIntact fl c (xs ++ r ∷ ys) → IsGenuine fl c r
  intact-IsGenuine r [] ys i = i.0
  intact-IsGenuine r (x ∷ xs) ys i = linked-IsGenuine x r xs ys i.1

  -- `new_epack` hashes the header with the payload's hash and the verifiers hash it with the payload,
  -- so under a hash without collisions `verify_epack_chain` rejects every chain that has
  -- a block of `new_epack` in it, whatever the block and the rest of the chain hold.
  pub new_epack-rejected :
      IsCollisionFree c
      → (ts : fl.F) (seq : ℕ) (prev : Text) (payload : Json) (override signature : Text)
        (xs ys : List (Epack fl))
      → (verify_epack_chain fl c
          (xs ++ stored (new_epack fl c ts seq prev payload override) signature ∷ ys)).0
        ≡ false
  unfolding new_epack
  new_epack-rejected f ts seq prev payload override signature xs ys =
      let r : Epack fl = stored (new_epack fl c ts seq prev payload override) signature in
      elim (Bool-cases ((verify_epack_chain fl c (xs ++ r ∷ ys)).0)) [
        | inr no_chain ↦ no_chain
        | inl valid ↦ absurd (
            block-not-IsGenuine f seq ts prev r.payload_hash r refl
              (intact-IsGenuine r xs ys ((verify_epack_chain_iff fl c (xs ++ r ∷ ys)).0 valid)))
      ]
