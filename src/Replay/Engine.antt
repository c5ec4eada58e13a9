-- ===== src/Replay/Engine.antt =====
-- src/ecosphere/replay/engine.py: the replay of the records of an audit chain. A record has the keys
-- that the kernel writes, with values of the kinds that it writes: its payload, `extra` and
-- `build_manifest` are dicts, its profile and manifest hash are strings. `route_fn` gives a route's
-- name or raises, `safety_fn` gives a Boolean or raises. `timestamp` is left out of a result.
pub mod Matches
use beaconwise_tek.Base.{
  ℕ, zero, suc, ◌+◌, ◌-◌, ◌*◌, ◌≤◌, ◌<◌, String, ◌≡◌, refl, sym, ap, ◌∙◌, subst, ◌≢◌, ◌↔◌, ◌⊎◌, inl,
  inr, Bool, true, false, not, ◌&&◌, ◌||◌, Option, none, some, List, [], ◌∷◌, ◌++◌, map,
  append_assoc, append-nil, arith, ltb, leb, ◌==◌, if◌then◌else◌, ltb→lt, lt→ltb, leb→le, le→leb,
  ==→eq, eq→==, Bool-cases, and_true, Option-cases, Text, codes, text_eq, text_lt, text_eq→eq,
  text_eq_refl, eq→text_eq, truthy, length, take, drop, take_last, any, all, length-append,
}
use beaconwise_tek.Float.{Floats}
use beaconwise_tek.Json.{
  Json, Items, Fields, null, bool, num, neg, real, str, arr, obj, nil, cons, end, field, get, value,
  json_truthy,
}
use beaconwise_tek.Stable.{Crypto, stable_hash}
use beaconwise_tek.Epack.{verify_signature}
use beaconwise_tek.Kernel.Session.{Epack}
use beaconwise_tek.Governance.Proof.{audited_core, hash_ok}

pub record ReplayStep : Type 0 where
  pub step_name : Text
  pub original_value : Json
  pub replayed_value : Json
  pub matched : Bool
  pub detail : Text

unfoldable pub replay_step : Text → Json → Json → Bool → Text → ReplayStep
replay_step name original replayed ok detail = record {
  step_name = name;
  original_value = original;
  replayed_value = replayed;
  matched = ok;
  detail = detail;
}

pub record ReplayResult (fl : Floats) : Type 0 where
  pub replay_id : Text
  pub epack_seq : ℕ
  pub steps : List ReplayStep
  pub determinism_index : fl.F
  pub governance_match : Bool
  pub route_match : Bool
  pub safety_match : Bool
  pub chain_link_match : Bool

-- What a call of `route_fn` or `safety_fn` ends with; an exception has its text.
pub data Called {ℓ} (A : Type ℓ) : Type ℓ where
  returned : A → Called A
  failed : Text → Called A

-- `d.get(k, default)`
unfoldable pub get_or : Text → Json → Fields → Json
get_or k default d = elim (get k d) [ none ↦ default | some v ↦ v ]

-- The fields of a dict.
unfoldable pub fields_of : Json → Fields
fields_of (obj fs) = fs
fields_of _ = end

-- `original == replayed` for a string that is replayed
unfoldable pub equals_text : Json → Text → Bool
equals_text (str s) t = text_eq s t
equals_text _ t = false

-- `original == replayed` for a Boolean that is replayed, which equals 0 or 1
unfoldable pub equals_bool : Json → Bool → Bool
equals_bool (bool true) b = b
equals_bool (bool false) b = not b
equals_bool (num n) true = n == 1
equals_bool (num n) false = n == 0
equals_bool (real s) true = text_eq s (codes "1.0")
equals_bool (real s) false = text_eq s (codes "0.0") || text_eq s (codes "-0.0")
equals_bool _ b = false

-- `s[:16]`
unfoldable pub short : Json → Json
short (str s) = str (take 16 s)
short j = j

-- `s[:16] + "..."`
unfoldable pub elided : Text → Json
elided s = str (take 16 s ++ codes "...")

unfoldable pub route_step : Option (Json → Called Text) → Fields → ReplayStep
unfolding replay_step get_or equals_text
route_step none extra =
    replay_step (codes "routing_determinism") (get_or (codes "route") (str (codes "UNKNOWN")) extra)
      (str (codes "(route_fn not provided — skipped)")) true
      (codes "Routing replay skipped; no route_fn")
route_step (some route_fn) extra =
    let original : Json = get_or (codes "route") (str (codes "UNKNOWN")) extra in
    elim (route_fn (get_or (codes "input_vector") (obj end) extra)) [
      | returned route ↦
          replay_step (codes "routing_determinism") original (str route)
            (equals_text original route) []
      | failed message ↦
          replay_step (codes "routing_determinism") original (str (codes "ERROR: " ++ message))
            false []
    ]

-- The step of the safety screening: an exception counts as a match.
unfoldable pub safety_step : Option (Json → Called Bool) → Fields → Fields → ReplayStep
unfolding replay_step get_or equals_bool
safety_step none payload extra =
    replay_step (codes "safety_screening")
      (get_or (codes "safety_stage1_ok") (str (codes "?")) extra)
      (str (codes "(safety_fn not provided — skipped)")) true []
safety_step (some safety_fn) payload extra =
    elim (safety_fn (get_or (codes "user_text_hash") (str []) payload)) [
      | returned safe ↦
          let original : Json = get_or (codes "safety_stage1_ok") (bool true) extra in
          replay_step (codes "safety_screening") original (bool safe) (equals_bool original safe) []
      | failed message ↦
          replay_step (codes "safety_screening")
            (get_or (codes "safety_stage1_ok") (str (codes "?")) extra)
            (str (codes "(safety_fn error — skipped)")) true []
    ]

unfoldable pub profile_step : Fields → ReplayStep
unfolding replay_step get_or
profile_step payload =
    let profile : Json = get_or (codes "profile") (str (codes "UNKNOWN")) payload in
    replay_step (codes "profile_consistency") profile profile true
      (codes "Profile: " ++ elim profile [ str s ↦ s | _ ↦ [] ])

-- `bool(manifest and manifest.get("manifest_hash"))`
unfoldable pub manifest_present : Fields → Bool
manifest_present manifest = json_truthy (value (codes "manifest_hash") manifest)

unfoldable pub manifest_step : Fields → ReplayStep
unfolding replay_step get_or short manifest_present
manifest_step manifest =
    let missing : Json = str (codes "MISSING") in
    replay_step (codes "build_manifest") (short (get_or (codes "manifest_hash") missing manifest))
      (if manifest_present manifest then str (codes "present") else missing)
      (manifest_present manifest)
      (if manifest_present manifest
        then codes "Provenance traceable"
        else codes "No build manifest")

unfoldable pub count_matched : List ReplayStep → ℕ
count_matched [] = 0
count_matched (s ∷ ss) = let rest = count_matched ss in if s.matched then rest + 1 else rest

-- Steps of which at most one is there.
unfoldable pub step_list : Option ReplayStep → List ReplayStep
step_list none = []
step_list (some s) = s ∷ []

unfoldable pub step_matches : Option ReplayStep → Bool
step_matches none = true
step_matches (some s) = s.matched

-- The arguments `route_fn` and `safety_fn` of a replay.
pub record ReplayFns : Type 0 where
  pub route_fn : Option (Json → Called Text)
  pub safety_fn : Option (Json → Called Bool)

module _ (fl : Floats) (c : Crypto) (key : Text) where
  unfoldable pub hash_step : Epack fl → ReplayStep
  unfolding replay_step elided
  hash_step r =
      replay_step (codes "epack_hash_integrity") (elided r.hash)
        (elided (stable_hash c (audited_core fl c r))) (hash_ok fl c r)
        (if hash_ok fl c r then codes "Hash chain integrity" else codes "TAMPERED: hash mismatch")

  -- The step of the signature, where a signature and the payload's hash are there.
  unfoldable pub signature_step : Epack fl → Option ReplayStep
  unfolding replay_step elided
  signature_step r =
      let ok : Bool = verify_signature c key r.payload_hash r.signature in
      if truthy r.signature && truthy r.payload_hash
      then some (
          replay_step (codes "epack_signature") (elided r.signature)
            (str (if ok then codes "valid" else codes "INVALID")) ok
            (if ok then codes "Signature valid" else codes "TAMPERED: signature mismatch"))
      else none

  unfoldable pub link_step : Option Text → Epack fl → Option ReplayStep
  unfolding replay_step elided
  link_step none r = none
  link_step (some expected) r =
      let ok : Bool = text_eq r.prev_hash expected in
      some (
        replay_step (codes "chain_linkage")
          (if truthy r.prev_hash then elided r.prev_hash else str (codes "NONE")) (elided expected)
          ok (if ok then codes "Chain continuity" else codes "BROKEN: prev_hash mismatch"))

  -- `round(matched / total * 100, 1)`
  unfoldable pub determinism : List ReplayStep → fl.F
  determinism steps =
      fl.round
        (fl.mul (fl.div (fl.lit (count_matched steps) 1) (fl.lit (length steps) 1)) (fl.lit 100 1))
        1

  -- `replay_governance_decision` at the time `now`
  unfoldable pub replay_governance_decision :
      ReplayFns → Option Text → fl.F → Epack fl → ReplayResult fl
  replay_governance_decision fns expected now r =
      let payload : Fields = fields_of r.payload in
      let extra : Fields = fields_of (get_or (codes "extra") (obj end) payload) in
      let manifest : Fields = fields_of (get_or (codes "build_manifest") (obj end) payload) in
      let routed : ReplayStep = route_step fns.route_fn extra in
      let screened : ReplayStep = safety_step fns.safety_fn payload extra in
      let signed : Option ReplayStep = signature_step r in
      let linked : Option ReplayStep = link_step expected r in
      let steps : List ReplayStep =
        hash_step r
        ∷ (step_list signed
            ++ routed
              ∷ screened
              ∷ profile_step payload
              ∷ manifest_step manifest
              ∷ step_list linked) in
      record {
        replay_id = take 16 (
            stable_hash c (
              obj (field (codes "seq") (num r.seq) (field (codes "ts") (real (fl.repr now)) end))));
        epack_seq = r.seq;
        steps = steps;
        determinism_index = determinism steps;
        governance_match =
            hash_ok fl c r
            && (step_matches signed && (manifest_present manifest && step_matches linked));
        route_match = routed.matched;
        safety_match = screened.matched;
        chain_link_match = step_matches linked;
      }

  -- The records behind one whose hash is `prev`, each at the next of the times.
  unfoldable pub replay_from :
      ReplayFns → (ℕ → fl.F) → ℕ → Option Text → List (Epack fl) → List (ReplayResult fl)
  replay_from fns clock n prev [] = []
  replay_from fns clock n prev (r ∷ rs) =
      replay_governance_decision fns prev (clock n) r
      ∷ replay_from fns clock (n + 1) (some r.hash) rs

  -- `replay_chain`, with the times that `time.time()` gives
  unfoldable pub replay_chain : ReplayFns → (ℕ → fl.F) → List (Epack fl) → List (ReplayResult fl)
  replay_chain fns clock chain = replay_from fns clock 0 none chain

  -- The value of `replay_summary` for a list that is not empty.
  pub record Summary : Type 0 where
    pub total : ℕ
    pub determinism_index : fl.F
    pub governance_match_rate : fl.F
    pub route_match_rate : fl.F
    pub safety_match_rate : fl.F
    pub chain_link_rate : fl.F
    pub tampered_records : List ℕ

  unfoldable pub count_where : (ReplayResult fl → Bool) → List (ReplayResult fl) → ℕ
  count_where p [] = 0
  count_where p (r ∷ rs) = let rest = count_where p rs in if p r then rest + 1 else rest

  -- `sum(1 for r in results if p(r)) / total`
  unfoldable pub rate : (ReplayResult fl → Bool) → List (ReplayResult fl) → fl.F
  rate p rs = fl.div (fl.lit (count_where p rs) 1) (fl.lit (length rs) 1)

  -- `sum(r.determinism_index for r in results)`, from the left
  unfoldable pub sum_indices : fl.F → List (ReplayResult fl) → fl.F
  sum_indices acc [] = acc
  sum_indices acc (r ∷ rs) = sum_indices (fl.add acc r.determinism_index) rs

  unfoldable pub tampered : List (ReplayResult fl) → List ℕ
  tampered [] = []
  tampered (r ∷ rs) =
      let rest = tampered rs in if r.governance_match then rest else r.epack_seq ∷ rest

  -- `replay_summary`; no results give only a total and an index of 0
  unfoldable pub replay_summary : List (ReplayResult fl) → Option Summary
  replay_summary [] = none
  replay_summary (r ∷ rs) = some record {
    total = length (r ∷ rs);
    determinism_index =
        fl.round (fl.div (sum_indices (fl.lit 0 1) (r ∷ rs)) (fl.lit (length (r ∷ rs)) 1)) 1;
    governance_match_rate = rate (λ x. x.governance_match) (r ∷ rs);
    route_match_rate = rate (λ x. x.route_match) (r ∷ rs);
    safety_match_rate = rate (λ x. x.safety_match) (r ∷ rs);
    chain_link_rate = rate (λ x. x.chain_link_match) (r ∷ rs);
    tampered_records = tampered (r ∷ rs);
  }
