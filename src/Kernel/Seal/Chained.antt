-- ===== src/Kernel/Seal/Chained.antt =====
-- The audit chain that `_seal` builds: what every record of it satisfies.
use beaconwise_tek.Base.{
  ℕ, ◌+◌, ◌≡◌, refl, true, List, [], ◌∷◌, ◌++◌, arith, ltb, lt→ltb, Text, codes,
}
use beaconwise_tek.Json.{Json, Fields}
use beaconwise_tek.Stable.{stable_hash}
use beaconwise_tek.Epack.{sealed_core, new_epack, sign_payload_hash}
use beaconwise_tek.Security.{redact_payload}
use beaconwise_tek.Kernel.Host.{Host}
use beaconwise_tek.Kernel.Session.{Epack}
use beaconwise_tek.Kernel.Gates.Pending.{Session}
use beaconwise_tek.Kernel.Seal.{Machine, SealInput, seal_payload, seal_record, seal}

-- A record that the kernel sealed as number `n` behind the hash `p`.
pub record IsSealed (h : Host) (n : ℕ) (p : Text) (r : Epack h.floats) : Type 0 where
  pub seq : r.seq ≡ n
  pub prev_hash : r.prev_hash ≡ p
  pub payload_hash : r.payload_hash ≡ stable_hash h.crypto r.payload
  pub signature : r.signature ≡ sign_payload_hash h.crypto h.settings.signing_key r.payload_hash
  pub hash :
      r.hash
      ≡ stable_hash h.crypto (sealed_core h.floats h.crypto r.seq r.ts r.prev_hash r.payload_hash)

-- `rs` are sealed records with the numbers behind `n` in order, each naming the hash of the one
-- before it and the first one `p`; they end with number `m` and hash `q`.
abbrev pub ChainedFrom : (h : Host) → ℕ → Text → List (Epack h.floats) → ℕ → Text → Type 0
ChainedFrom h n p [] m q = (m ≡ n) × (q ≡ p)
ChainedFrom h n p (r ∷ rs) m q = IsSealed h (n + 1) p r × ChainedFrom h (n + 1) r.hash rs m q

-- The chain of a session begins behind GENESIS and ends where the session says.
abbrev pub IsChained : (h : Host) → Session h → Type 0
IsChained h s = ChainedFrom h 0 (codes "GENESIS") s.epacks s.epack_seq s.epack_prev_hash

module _ (h : Host) where
  chained-append :
      (n : ℕ) (p : Text) (rs : List (Epack h.floats)) (m : ℕ) (q : Text) (r : Epack h.floats)
      → ChainedFrom h n p rs m q
      → IsSealed h (m + 1) q r
      → ChainedFrom h n p (rs ++ r ∷ []) r.seq r.hash
  chained-append n p [] m q r c s = (rw (← c.0, ← c.1) s, (rw (← c.0) s.seq, refl))
  chained-append n p (x ∷ rs) m q r c s = (c.0, chained-append (n + 1) x.hash rs m q r c.1 s)

  seal_record-IsSealed :
      (s : Session h) (i : SealInput h) (payload : Json)
      → IsSealed h (s.epack_seq + 1) s.epack_prev_hash (seal_record h s i payload)
  unfolding seal_record new_epack
  seal_record-IsSealed s i payload = record {
    seq = refl;
    prev_hash = refl;
    payload_hash = ground arith;
    signature = ground arith;
    hash = ground arith;
  }

  -- `_seal` keeps the chain of the session: the new record has the next number, the hash of the
  -- record before it, the hash of its own payload, a signature of that hash and its own hash.
  pub seal-IsChained :
      (m : Machine h) (i : SealInput h) (user_text assistant_text : Text) (extra : Fields)
      → IsChained h m.session
      → IsChained h (seal h m i user_text assistant_text extra).0.session
  unfolding seal
  seal-IsChained m i user_text assistant_text extra c =
      let s : Session h = m.session in
      let payload : Json = seal_payload h s i user_text assistant_text extra in
      chained-append 0 (codes "GENESIS") s.epacks s.epack_seq s.epack_prev_hash
        (seal_record h s i payload) c (seal_record-IsSealed s i payload)

  -- The file and the session hold the same records, up to the redaction of the payloads.
  abbrev pub Persists : List (Epack h.floats) → List (Epack h.floats) → Type 0
  Persists [] [] = Unit
  Persists [] (y ∷ ys) = ⊥
  Persists (x ∷ xs) [] = ⊥
  Persists (x ∷ xs) (y ∷ ys) =
      (y ≡ record x { payload = redact_payload h.crypto h.settings.redact x.payload })
      × Persists xs ys

  -- All records were written to the file in order, and the last one is the last of the session.
  abbrev pub IsStored : Machine h → Type 0
  IsStored m =
      Persists m.session.epacks m.store × (m.session.last_persisted_seq ≡ m.session.epack_seq)

  Persists-append :
      (xs ys : List (Epack h.floats)) (x y : Epack h.floats)
      → Persists xs ys
      → (y ≡ record x { payload = redact_payload h.crypto h.settings.redact x.payload })
      → Persists (xs ++ x ∷ []) (ys ++ y ∷ [])
  Persists-append [] [] x y p e = (e, tt)
  Persists-append [] (z ∷ ys) x y p e = absurd p
  Persists-append (w ∷ xs) [] x y p e = absurd p
  Persists-append (w ∷ xs) (z ∷ ys) x y p e = (p.0, Persists-append xs ys x y p.1 e)

  -- With persistence on, `_seal` writes every record once, in order and with its payload redacted.
  pub seal-IsStored :
      (m : Machine h) (i : SealInput h) (user_text assistant_text : Text) (extra : Fields)
      → h.settings.persist_epacks ≡ true
      → IsStored m
      → IsStored (seal h m i user_text assistant_text extra).0
  unfolding seal seal_record new_epack
  seal-IsStored m i user_text assistant_text extra on st =
      let s : Session h = m.session in
      let payload : Json = seal_payload h s i user_text assistant_text extra in
      let r : Epack h.floats = seal_record h s i payload in
      let fresh : ltb s.last_persisted_seq (s.epack_seq + 1) ≡ true =
        lt→ltb s.last_persisted_seq (s.epack_seq + 1) (omega arith) in
      rw (on, fresh)
        (
          Persists-append s.epacks m.store r
              (record r { payload = redact_payload h.crypto h.settings.redact payload }) st.0 refl,
          refl,
        )
