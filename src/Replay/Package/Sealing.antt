-- ===== src/Replay/Package/Sealing.antt =====
-- What the verification of a package establishes.
use beaconwise_tek.Base.{
  ℕ, ◌+◌, ◌≡◌, refl, ◌∙◌, inl, inr, Bool, true, ◌&&◌, List, [], ◌∷◌, arith, ◌==◌, Bool-cases, codes,
  text_eq, text_eq_refl, truthy, length,
}
use beaconwise_tek.Float.{Floats}
use beaconwise_tek.Stable.{Crypto, stable_hash}
use beaconwise_tek.Kernel.Session.{Epack}
use beaconwise_tek.Governance.Proof.{
  hash_ok, hash_errors, link_errors, errors_after, chain_errors, verify_epack_chain,
}
use beaconwise_tek.Replay.Package.{
  BuildInput, content_json, last_hash, input_hash, build_replay_package, hash_error_at,
  genesis_error, linkage_error, linkage_from, package_errors, verify_replay_package,
}

module _ (fl : Floats) (c : Crypto) where
  -- The first record, if there is one, names GENESIS.
  abbrev pub starts_at_genesis : List (Epack fl) → Bool
  starts_at_genesis [] = true
  starts_at_genesis (r ∷ rs) = text_eq r.prev_hash (codes "GENESIS")

  linkage_from_lem :
      (i : ℕ) (p : Epack fl) (rs : List (Epack fl))
      → (length (linkage_from fl c i p rs) == 0) ≡ (length (errors_after fl c p rs) == 0)
  unfolding linkage_from errors_after hash_error_at linkage_error hash_errors link_errors
  linkage_from_lem i p [] = refl
  linkage_from_lem i p (r ∷ rs) = elim (Bool-cases (hash_ok fl c r)) [
    | inr a ↦ rw a (ground arith)
    | inl a ↦ elim (Bool-cases (text_eq r.prev_hash p.hash)) [
      | inr b ↦ rw (a, b) (ground arith)
      | inl b ↦ rw (a, b) (linkage_from_lem (i + 1) r rs)
    ]
  ]

  package_errors_lem :
      (rs : List (Epack fl))
      → (length (package_errors fl c rs) == 0)
        ≡ ((verify_epack_chain fl c rs).0 && starts_at_genesis rs)
  unfolding package_errors verify_epack_chain chain_errors hash_error_at genesis_error hash_errors
  package_errors_lem [] = refl
  package_errors_lem (r ∷ rs) = elim (Bool-cases (hash_ok fl c r)) [
    | inr a ↦ rw a (ground arith)
    | inl a ↦ elim (Bool-cases (text_eq r.prev_hash (codes "GENESIS"))) [
      | inr b ↦ rw (a, b) (ground arith)
      | inl b ↦ rw (a, b) (linkage_from_lem 1 r rs ∙ ground arith)
    ]
  ]

  head_lem :
      (rs : List (Epack fl))
      → text_eq (last_hash fl c [] rs) (last_hash fl c (last_hash fl c [] rs) rs) ≡ true
  unfolding last_hash
  head_lem [] = text_eq_refl (last_hash fl c [] [])
  head_lem (r ∷ rs) = text_eq_refl (last_hash fl c r.hash rs)

  -- A package that `build_replay_package` makes of a session's records passes its verification
  -- exactly when the chain of records is valid and starts at GENESIS, a kernel version is given and
  -- the first record's payload has the hash of a user's text: the seal and the head hash are never
  -- what it fails on.
  pub build_replay_package-passes :
      (i : BuildInput fl)
      → (verify_replay_package fl c (build_replay_package fl c i)).passed ≡ (
          ((verify_epack_chain fl c i.session_epacks).0 && starts_at_genesis i.session_epacks)
          && (truthy i.kernel_version && truthy (input_hash fl c i.session_epacks)))
  unfolding verify_replay_package build_replay_package
  build_replay_package-passes i =
      rw
        (
          text_eq_refl (stable_hash c (content_json fl c (build_replay_package fl c i).content)),
          package_errors_lem i.session_epacks,
          head_lem i.session_epacks,
        )
        refl
