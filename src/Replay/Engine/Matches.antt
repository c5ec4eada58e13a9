-- ===== src/Replay/Engine/Matches.antt =====
-- Which chains replay without a tampered record.
use beaconwise_tek.Base.{
  ℕ, ◌+◌, ◌≡◌, refl, ◌∙◌, inl, inr, Bool, false, not, ◌&&◌, ◌||◌, Option, none, some, List, [], ◌∷◌,
  arith, ◌==◌, Bool-cases, Text, codes, text_eq, truthy, length, all,
}
use beaconwise_tek.Float.{Floats}
use beaconwise_tek.Json.{obj, end}
use beaconwise_tek.Stable.{Crypto, IsCollisionFree}
use beaconwise_tek.Epack.{verify_signature}
use beaconwise_tek.Kernel.Host.{Host}
use beaconwise_tek.Kernel.Session.{Epack}
use beaconwise_tek.Kernel.Seal.{Machine, TurnReply}
use beaconwise_tek.Kernel.Turn.{TurnInput, handle_turn}
use beaconwise_tek.Governance.Proof.{
  hash_ok, hash_errors, link_errors, errors_after, chain_errors, verify_epack_chain,
}
use beaconwise_tek.Governance.Checks.Turns.{turn-rejected}
use beaconwise_tek.Replay.Engine.{
  replay_step, get_or, fields_of, manifest_present, step_matches, ReplayFns, signature_step,
  link_step, replay_governance_decision, replay_from, replay_chain,
}

module _ (fl : Floats) (c : Crypto) (key : Text) where
  -- A record lacks a signature or a payload hash, or its signature is that of the payload hash under
  -- the key.
  abbrev pub signed_well : Epack fl → Bool
  signed_well r =
      not (truthy r.signature && truthy r.payload_hash)
      || verify_signature c key r.payload_hash r.signature

  -- A record's payload has a build manifest with a hash.
  abbrev pub has_manifest : Epack fl → Bool
  has_manifest r =
      manifest_present (fields_of (get_or (codes "build_manifest") (obj end) (fields_of r.payload)))

  abbrev well_made : Epack fl → Bool
  well_made r = signed_well r && has_manifest r

  signature_step_lem : (r : Epack fl) → step_matches (signature_step fl c key r) ≡ signed_well r
  unfolding signature_step step_matches replay_step
  signature_step_lem r = elim (Bool-cases (truthy r.signature && truthy r.payload_hash)) [
    | inl present ↦ rw present refl
    | inr missing ↦ rw missing refl
  ]

  decision_lem :
      (fns : ReplayFns) (expected : Option Text) (now : fl.F) (r : Epack fl)
      → (replay_governance_decision fl c key fns expected now r).governance_match
        ≡ (hash_ok fl c r && (well_made r && step_matches (link_step fl c key expected r)))
  unfolding replay_governance_decision
  decision_lem fns expected now r = rw (signature_step_lem r) (ground arith)

  from_lem :
      (fns : ReplayFns) (clock : ℕ → fl.F) (n : ℕ) (p : Epack fl) (rs : List (Epack fl))
      → all (λ x. x.governance_match) (replay_from fl c key fns clock n (some p.hash) rs)
        ≡ ((length (errors_after fl c p rs) == 0) && all well_made rs)
  unfolding replay_from errors_after hash_errors link_errors link_step step_matches replay_step
  from_lem fns clock n p [] = refl
  from_lem fns clock n p (r ∷ rs) =
      rw (decision_lem fns (some p.hash) (clock n) r) (elim (Bool-cases (hash_ok fl c r)) [
        | inr a ↦ rw a (ground arith)
        | inl a ↦ elim (Bool-cases (text_eq r.prev_hash p.hash)) [
          | inr b ↦ rw (a, b) (ground arith)
          | inl b ↦ rw (a, b) (rw (from_lem fns clock (n + 1) r rs) (ground arith))
        ]
      ])

  -- Whatever routing and safety functions and times a chain is replayed with, every record's
  -- governance matches exactly when `verify_epack_chain` reports the chain as valid, every record that
  -- has both a signature and a payload hash has the signature of that hash under the key, and every
  -- payload has a build manifest with a hash. A route or a
  -- screening that comes out differently changes nothing of it.
  pub replay_chain-matches :
      (fns : ReplayFns) (clock : ℕ → fl.F) (rs : List (Epack fl))
      → all (λ x. x.governance_match) (replay_chain fl c key fns clock rs)
        ≡ ((verify_epack_chain fl c rs).0 && all (λ r. signed_well r && has_manifest r) rs)
  unfolding replay_chain verify_epack_chain chain_errors hash_errors link_step step_matches
      replay_from
  replay_chain-matches fns clock [] = refl
  replay_chain-matches fns clock (r ∷ rs) =
      rw (decision_lem fns none (clock 0) r) (elim (Bool-cases (hash_ok fl c r)) [
        | inr a ↦ rw a (ground arith)
        | inl a ↦ rw a (rw (from_lem fns clock 1 r rs) (ground arith))
      ])

-- Under a hash without collisions, the records of a session behind a turn of the kernel that returned
-- never replay with every governance match, whatever they are replayed with.
pub handle_turn-tampered :
    (h : Host) (key : Text)
    → IsCollisionFree h.crypto
    → (m : Machine h) (i : TurnInput h) (user_text : Text) (fns : ReplayFns)
      (clock : ℕ → h.floats.F) (r : TurnReply h)
    → (handle_turn h m i user_text).1 ≡ some r
    → all
        (λ x. x.governance_match)
        (replay_chain h.floats h.crypto key fns clock
          (handle_turn h m i user_text).0.session.epacks)
      ≡ false
handle_turn-tampered h key f m i user_text fns clock r returned =
    replay_chain-matches h.floats h.crypto key fns clock
      (handle_turn h m i user_text).0.session.epacks
    ∙ rw (turn-rejected h f m i user_text r returned) refl
