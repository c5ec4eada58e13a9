-- ===== src/Governance/Proof/Chain.antt =====
-- What the verifiers of an audit chain decide.
use beaconwise_tek.Base.{
  ◌≡◌, refl, ◌↔◌, inl, inr, true, List, [], ◌∷◌, ◌++◌, arith, ◌==◌, Bool-cases, text_eq, text_eq→eq,
  eq→text_eq, length, all,
}
use beaconwise_tek.Float.{Floats}
use beaconwise_tek.Stable.{Crypto, stable_hash}
use beaconwise_tek.Kernel.Session.{Epack}
use beaconwise_tek.Governance.Proof.{
  ChainError, audited_core, hash_ok, hash_errors, link_errors, errors_after, chain_errors,
  verify_epack_chain, audit_after, replay_audit_chain,
}

module _ (fl : Floats) (c : Crypto) where
  abbrev pub IsGenuine : Epack fl → Type 0
  IsGenuine r = r.hash ≡ stable_hash c (audited_core fl c r)

  -- Every record behind `p` is genuine and names the hash of the one before it.
  abbrev pub IsLinked : Epack fl → List (Epack fl) → Type 0
  IsLinked p [] = Unit
  IsLinked p (r ∷ rs) = IsGenuine r × (r.prev_hash ≡ p.hash) × IsLinked r rs

  abbrev pub IsIntact : List (Epack fl) → Type 0
  IsIntact [] = Unit
  IsIntact (r ∷ rs) = IsGenuine r × IsLinked r rs

  hash_errors-nil : (r : Epack fl) → (hash_errors fl c r ≡ []) ↔ IsGenuine r
  unfolding hash_errors hash_ok
  hash_errors-nil r = (
    λ e. ground (arith, text_eq→eq r.hash (stable_hash c (audited_core fl c r))),
    λ g. ground (arith, eq→text_eq r.hash (stable_hash c (audited_core fl c r)) g),
  )

  link_errors-nil : (p r : Epack fl) → (link_errors fl c p r ≡ []) ↔ (r.prev_hash ≡ p.hash)
  unfolding link_errors
  link_errors-nil p r = (
    λ e. ground (arith, text_eq→eq r.prev_hash p.hash),
    λ g. ground (arith, eq→text_eq r.prev_hash p.hash g),
  )

  append_nil_parts : (xs ys : List ChainError) → xs ++ ys ≡ [] → (xs ≡ []) × (ys ≡ [])
  append_nil_parts [] ys e = (refl, e)
  append_nil_parts (x ∷ xs) ys e = cc

  errors_after-IsLinked :
      (p : Epack fl) (rs : List (Epack fl)) → errors_after fl c p rs ≡ [] → IsLinked p rs
  unfolding errors_after
  errors_after-IsLinked p [] e = tt
  errors_after-IsLinked p (r ∷ rs) e =
      let (own, rest) =
        append_nil_parts (hash_errors fl c r) (link_errors fl c p r ++ errors_after fl c r rs) e in
      let (link, later) = append_nil_parts (link_errors fl c p r) (errors_after fl c r rs) rest in
      ((hash_errors-nil r).0 own, (link_errors-nil p r).0 link, errors_after-IsLinked r rs later)

  IsLinked-errors_after :
      (p : Epack fl) (rs : List (Epack fl)) → IsLinked p rs → errors_after fl c p rs ≡ []
  unfolding errors_after
  IsLinked-errors_after p [] l = refl
  IsLinked-errors_after p (r ∷ rs) l =
      rw ((hash_errors-nil r).1 l.0, (link_errors-nil p r).1 l.1) (IsLinked-errors_after r rs l.2)

  length-zero : (xs : List ChainError) → (length xs == 0) ≡ true → xs ≡ []
  length-zero [] e = refl
  length-zero (x ∷ xs) e = ground arith

  chain_errors-IsIntact : (rs : List (Epack fl)) → chain_errors fl c rs ≡ [] → IsIntact rs
  unfolding chain_errors
  chain_errors-IsIntact [] e = tt
  chain_errors-IsIntact (r ∷ rs) e =
      let (own, rest) = append_nil_parts (hash_errors fl c r) (errors_after fl c r rs) e in
      ((hash_errors-nil r).0 own, errors_after-IsLinked r rs rest)

  IsIntact-chain_errors : (rs : List (Epack fl)) → IsIntact rs → chain_errors fl c rs ≡ []
  unfolding chain_errors
  IsIntact-chain_errors [] i = refl
  IsIntact-chain_errors (r ∷ rs) i = rw ((hash_errors-nil r).1 i.0) (IsLinked-errors_after r rs i.1)

  -- `verify_epack_chain` reports a chain as valid exactly when every record has the hash of its
  -- header and payload, and every record but the first names the hash of the one before it.
  pub verify_epack_chain_iff :
      (rs : List (Epack fl)) → ((verify_epack_chain fl c rs).0 ≡ true) ↔ IsIntact rs
  unfolding verify_epack_chain
  verify_epack_chain_iff rs = (
    λ e. chain_errors-IsIntact rs (length-zero (chain_errors fl c rs) e),
    λ i. rw (IsIntact-chain_errors rs i) refl,
  )

  -- Both verifiers on what is behind a record.
  audit_after_agrees :
      (p : Epack fl) (rs : List (Epack fl))
      → all (λ e. e.verified) (audit_after fl c p rs) ≡ (length (errors_after fl c p rs) == 0)
  unfolding audit_after errors_after hash_errors link_errors
  audit_after_agrees p [] = refl
  audit_after_agrees p (r ∷ rs) = elim (Bool-cases (hash_ok fl c r)) [
    | inl a ↦ elim (Bool-cases (text_eq r.prev_hash p.hash)) [
      | inl b ↦ rw (a, b) (audit_after_agrees r rs)
      | inr b ↦ rw (a, b) (ground arith)
    ]
    | inr a ↦ rw a (ground arith)
  ]

  -- The two verifiers of the module agree: all entries of `replay_audit_chain` are verified exactly
  -- when `verify_epack_chain` reports the chain as valid.
  pub all-replay_audit_chain :
      (rs : List (Epack fl))
      → all (λ e. e.verified) (replay_audit_chain fl c rs) ≡ (verify_epack_chain fl c rs).0
  unfolding replay_audit_chain verify_epack_chain chain_errors hash_errors
  all-replay_audit_chain [] = refl
  all-replay_audit_chain (r ∷ rs) = elim (Bool-cases (hash_ok fl c r)) [
    | inl a ↦ rw a (audit_after_agrees r rs)
    | inr a ↦ rw a (ground arith)
  ]
