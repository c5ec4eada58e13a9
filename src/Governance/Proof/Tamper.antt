-- ===== src/Governance/Proof/Tamper.antt =====
-- A chain that verifies is pinned by its last hash.
use beaconwise_tek.Base.{
  ◌≡◌, refl, sym, ◌∙◌, true, List, [], ◌∷◌, arith, Text, codes, text_lt, length,
}
use beaconwise_tek.Float.{Floats}
use beaconwise_tek.Json.{num, real, str, obj, end, field, canonical, insert_field}
use beaconwise_tek.Stable.{Crypto, IsCollisionFree}
use beaconwise_tek.Stable.Tagged.{stable_hash_inj}
use beaconwise_tek.Kernel.Session.{Epack}
use beaconwise_tek.Governance.Proof.{audited_core, verify_epack_chain}
use beaconwise_tek.Governance.Proof.Chain.{IsGenuine, IsLinked, verify_epack_chain_iff}

module _ (fl : Floats) (c : Crypto) where
  -- Two records with the same audited fields, those of the verified hash, and the same hash: the payload
  -- hash and the signature are not among them. A time is read by the text that is printed for it.
  pub record SameAudited (a b : Epack fl) : Type 0 where
    pub seq : a.seq ≡ b.seq
    pub ts : fl.repr a.ts ≡ fl.repr b.ts
    pub prev_hash : a.prev_hash ≡ b.prev_hash
    pub payload : canonical a.payload ≡ canonical b.payload
    pub hash : a.hash ≡ b.hash

  abbrev pub SameChain : List (Epack fl) → List (Epack fl) → Type 0
  SameChain [] [] = Unit
  SameChain [] (y ∷ ys) = ⊥
  SameChain (x ∷ xs) [] = ⊥
  SameChain (x ∷ xs) (y ∷ ys) = SameAudited x y × SameChain xs ys

  abbrev pub last_hash : Epack fl → List (Epack fl) → Text
  last_hash p [] = p.hash
  last_hash p (r ∷ rs) = last_hash r rs

  audited_core_lem :
      (r : Epack fl)
      → canonical (audited_core fl c r)
        ≡ obj (
            field (codes "payload") (canonical r.payload) (
              field
                (codes "prev_hash")
                (str r.prev_hash)
                (field (codes "seq") (num r.seq) (field (codes "ts") (real (fl.repr r.ts)) end))))
  unfolding canonical insert_field audited_core codes text_lt
  audited_core_lem r = refl

  -- Genuine records with one hash are the same record.
  genuine_inj :
      IsCollisionFree c
      → (a b : Epack fl) → IsGenuine fl c a
      → IsGenuine fl c b
      → a.hash ≡ b.hash
      → SameAudited a b
  genuine_inj f a b ga gb e =
      let same : canonical (audited_core fl c a) ≡ canonical (audited_core fl c b) =
        stable_hash_inj c f (audited_core fl c a) (audited_core fl c b) (sym ga ∙ (e ∙ gb)) in
      let plain = sym (audited_core_lem a) ∙ (same ∙ audited_core_lem b) in
      record { seq = cc plain; ts = cc plain; prev_hash = cc plain; payload = cc plain; hash = e }

  pinned_after :
      IsCollisionFree c
      → (p q : Epack fl) (rs ss : List (Epack fl)) → IsGenuine fl c p
      → IsGenuine fl c q
      → IsLinked fl c p rs
      → IsLinked fl c q ss
      → length rs ≡ length ss
      → last_hash p rs ≡ last_hash q ss
      → SameAudited p q × SameChain rs ss
  pinned_after f p q [] [] gp gq lr ls n e = (genuine_inj f p q gp gq e, tt)
  pinned_after f p q [] (s ∷ ss) gp gq lr ls n e = absurd (omega arith)
  pinned_after f p q (r ∷ rs) [] gp gq lr ls n e = absurd (omega arith)
  pinned_after f p q (r ∷ rs) (s ∷ ss) gp gq lr ls n e =
      let (same, later) = pinned_after f r s rs ss lr.0 ls.0 lr.2 ls.2 (omega arith) e in
      (genuine_inj f p q gp gq (sym lr.1 ∙ (same.prev_hash ∙ ls.1)), (same, later))

  -- Tamper evidence: under a hash without collisions, two chains of one length that
  -- `verify_epack_chain` both accepts, and whose last records have one hash, agree in the
  -- number, the time, the previous hash, the payload and the hash of every record. So whoever keeps the
  -- last hash detects any change of these.
  pub verified-pinned :
      IsCollisionFree c
      → (p q : Epack fl) (rs ss : List (Epack fl)) → (verify_epack_chain fl c (p ∷ rs)).0 ≡ true
      → (verify_epack_chain fl c (q ∷ ss)).0 ≡ true
      → length rs ≡ length ss
      → last_hash p rs ≡ last_hash q ss
      → SameChain (p ∷ rs) (q ∷ ss)
  verified-pinned f p q rs ss vp vq n e =
      let (gp, lp) = (verify_epack_chain_iff fl c (p ∷ rs)).0 vp in
      let (gq, lq) = (verify_epack_chain_iff fl c (q ∷ ss)).0 vq in
      pinned_after f p q rs ss gp gq lp lq n e
