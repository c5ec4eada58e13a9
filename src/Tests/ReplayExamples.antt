-- ===== src/Tests/ReplayExamples.antt =====
-- Replays and packages of two records.
use beaconwise_tek.Base.{◌≡◌, refl, true, ◌&&◌, some, [], ◌∷◌, codes, text_eq_refl, truthy, all}
use beaconwise_tek.Json.{Fields, null, obj, nil, end, field, str}
use beaconwise_tek.Governance.Proof.{verify_epack_chain}
use beaconwise_tek.Replay.Engine.{ReplayFns, returned, failed, replay_chain}
use beaconwise_tek.Replay.Engine.Matches.{signed_well, has_manifest, replay_chain-matches}
use beaconwise_tek.Replay.Package.{
  seal, epack_items, epack_json, ReplayPackage, BuildInput, content_json, verify_seal, input_hash,
  build_replay_package, verify_replay_package,
}
use beaconwise_tek.Replay.Package.Sealing.{starts_at_genesis, build_replay_package-passes}
use beaconwise_tek.Replay.Package.Pinned.{SameContent, verify_seal-pins}
use beaconwise_tek.Tests.Encoding.{toy_crypto, toy_crypto-IsCollisionFree}
use beaconwise_tek.Tests.Fixtures.{toy_floats}
use beaconwise_tek.Tests.ChainExamples.{genuine, first, second}
use beaconwise_tek.Kernel.Revisions.{decimal}
use beaconwise_tek.Tests.Running.{digests}

-- Functions that route everything one way and fail to screen.
abbrev toy_fns : ReplayFns
toy_fns = record {
  route_fn = some (λ iv. returned (codes "TDM"));
  safety_fn = some (λ h. failed (codes "no text"));
}

replay_chain-matches_example :
    all
      (λ x. x.governance_match)
      (replay_chain toy_floats toy_crypto (codes "key") toy_fns (λ n. n) (first ∷ second ∷ []))
    ≡ ((verify_epack_chain toy_floats toy_crypto (first ∷ second ∷ [])).0
        && all
            (λ r.
              signed_well toy_floats toy_crypto (codes "key") r
              && has_manifest toy_floats toy_crypto (codes "key") r)
            (first ∷ second ∷ []))
replay_chain-matches_example =
    replay_chain-matches toy_floats toy_crypto (codes "key") toy_fns (λ n. n) (first ∷ second ∷ [])

abbrev build_input : BuildInput toy_floats
build_input = record {
  session_epacks =
      genuine 1 (codes "GENESIS") (obj (field (codes "user_text_hash") (str (codes "h")) end)) ∷ [];
  kernel_version = codes "v1.9.0";
  governance_profile = codes "A_STANDARD";
  validator_set_id = [];
  routing_decisions = end;
  validator_results = nil;
  consensus_result = null;
  environment = end;
}

build_replay_package-passes_example :
    (verify_replay_package toy_floats toy_crypto
      (build_replay_package toy_floats toy_crypto build_input)).passed
    ≡ (((verify_epack_chain toy_floats toy_crypto build_input.session_epacks).0
          && starts_at_genesis toy_floats toy_crypto build_input.session_epacks)
        && (truthy (codes "v1.9.0")
            && truthy (input_hash toy_floats toy_crypto build_input.session_epacks)))
build_replay_package-passes_example = build_replay_package-passes toy_floats toy_crypto build_input

-- The same package with the keys of its environment in two orders.
abbrev sealed_with : Fields → ReplayPackage toy_floats
sealed_with env =
    build_replay_package toy_floats toy_crypto (record build_input { environment = env })

abbrev one_order : Fields
one_order = field (codes "os") null (field (codes "py") null end)

abbrev other_order : Fields
other_order = field (codes "py") null (field (codes "os") null end)

seal_is_ok : (env : Fields) → (verify_seal toy_floats toy_crypto (sealed_with env)).0 ≡ true
unfolding verify_seal build_replay_package
seal_is_ok env = text_eq_refl (sealed_with env).package_hash

verify_seal-pins_example :
    SameContent toy_floats (sealed_with one_order).content (sealed_with other_order).content
unfolding digests build_replay_package seal content_json epack_items epack_json decimal
verify_seal-pins_example =
    verify_seal-pins toy_floats toy_crypto toy_crypto-IsCollisionFree (sealed_with one_order)
      (sealed_with other_order) (seal_is_ok one_order) (seal_is_ok other_order) refl
