-- ===== src/Kernel/Router.antt =====
-- src/ecosphere/kernel/router.py and types.py: where a turn goes, and the facts that decide it; with
-- the functions of engine.py and of src/ecosphere/safety/stage1.py that find those facts. The
-- score of stage 2, which compares embeddings, is a part of the input.
use beaconwise_tek.Base.{
  ℕ, ◌+◌, Bool, true, false, not, ◌&&◌, Option, none, some, List, [], ◌∷◌, ◌++◌, leb, if◌then◌else◌,
  Text, codes, any,
}
use beaconwise_tek.Float.{Floats}
use beaconwise_tek.Json.{Json, Fields, bool, num, real, str, obj, end, field}
use beaconwise_tek.Stable.{stable_hash}
use beaconwise_tek.Tsv.{high_stakes_ready}
use beaconwise_tek.Kernel.Host.{Host}
use beaconwise_tek.Kernel.Session.{Aru, bound, reflect, scaffold, deferred, tdm}
use beaconwise_tek.Kernel.Patterns.{lower, after, has_word, is_space}
use beaconwise_tek.Kernel.Gates.Pending.{Session}

pub data DomainTag : Type 0 where
  general technical high_stakes : DomainTag

unfoldable pub domain_text : DomainTag → Text
domain_text general = codes "GENERAL"
domain_text technical = codes "TECHNICAL"
domain_text high_stakes = codes "HIGH_STAKES"

unfoldable pub is_high_stakes : DomainTag → Bool
is_high_stakes high_stakes = true
is_high_stakes _ = false

pub record InputVector (fl : Floats) : Type 0 where
  pub user_text : Text
  pub user_text_hash : Text
  pub safe_stage1_ok : Bool
  pub safe_stage1_reason : Text
  pub safe_stage2_ok : Bool
  pub safe_stage2_score : fl.F
  pub safe_stage2_meta : Fields
  pub safe : Bool
  pub domain : DomainTag
  pub complexity : ℕ
  pub requires_reflect : Bool
  pub requires_scaffold : Bool

-- The phrases of `BAD`; the reason of a match is "matched:" and the pattern.
unfoldable pub bad_phrases : List Text
bad_phrases =
    codes "ignore previous instructions"
    ∷ codes "reveal system prompt"
    ∷ codes "how to make a bomb"
    ∷ codes "kill myself"
    ∷ []

unfoldable pub first_match : List Text → Text → Option Text
first_match [] t = none
first_match (p ∷ ps) t = let rest = first_match ps t in if has_word (p ∷ []) t then some p else rest

-- `stage1`: is the text fine, and why
unfoldable pub stage1 : Text → Bool × Text
unfolding first_match bad_phrases
stage1 text = elim (first_match bad_phrases (lower text)) [
  | none ↦ (true, codes "pass")
  | some p ↦ (false, codes "matched:\\b" ++ (p ++ codes "\\b"))
]

-- `len(text.split())`; `inside` says if the last character was part of a word
unfoldable pub count_words : Bool → Text → ℕ
count_words inside [] = if inside then 1 else 0
count_words inside (c ∷ s) =
    let rest = count_words (not (is_space c)) s in if inside && is_space c then rest + 1 else rest

unfoldable pub estimate_complexity : Text → ℕ
unfolding count_words
estimate_complexity text =
    let n = count_words false text in
    if leb n 8 then 2 else if leb n 25 then 4 else if leb n 60 then 6 else 8

-- `k in t`, for a `k` in lower case and a text in lower case
unfoldable pub has_substring : Text → Text → Bool
unfolding after
has_substring k [] = elim (after k []) [ none ↦ false | some _ ↦ true ]
has_substring k (c ∷ s) =
    let rest = has_substring k s in elim (after k (c ∷ s)) [ none ↦ rest | some _ ↦ true ]

unfoldable pub detect_domain : Text → DomainTag
unfolding has_substring
detect_domain text =
    let t = lower text in
    if any (λ k. has_substring k t)
      (codes "dosage"
        ∷ codes "legal advice"
        ∷ codes "suicide"
        ∷ codes "harm myself"
        ∷ codes "insulin"
        ∷ [])
    then high_stakes
    else if any (λ k. has_substring k t)
        (codes "architecture"
          ∷ codes "database"
          ∷ codes "api"
          ∷ codes "kubernetes"
          ∷ codes "python"
          ∷ codes "code"
          ∷ [])
    then technical
    else general

-- What stage 2 reports of a text.
pub record Stage2Result (fl : Floats) : Type 0 where
  pub ok : Bool
  pub score : fl.F
  pub meta : Fields

module _ (h : Host) where
  -- `_build_input_vector`
  unfoldable pub build_input_vector : Stage2Result h.floats → Text → InputVector h.floats
  build_input_vector s2 user_text =
      let (ok, reason) = stage1 user_text in
      let complexity : ℕ = estimate_complexity user_text in
      record {
        user_text = user_text;
        user_text_hash = stable_hash h.crypto (str user_text);
        safe_stage1_ok = ok;
        safe_stage1_reason = reason;
        safe_stage2_ok = s2.ok;
        safe_stage2_score = s2.score;
        safe_stage2_meta = s2.meta;
        safe = ok && s2.ok;
        domain = detect_domain user_text;
        complexity = complexity;
        requires_reflect = leb 6 complexity;
        requires_scaffold = leb 7 complexity;
      }

  -- The route and the reason.
  unfoldable pub route_aru_sequence : InputVector h.floats → Session h → Aru × Text
  unfolding is_high_stakes
  route_aru_sequence iv s =
      if not iv.safe
      then (bound, codes "safety_fail")
      else if iv.requires_reflect && not s.reflect_confirmed
      then (reflect, codes "requires_reflect")
      else if iv.requires_scaffold && (s.reflect_confirmed && not s.scaffold_approved)
      then (scaffold, codes "requires_scaffold")
      else if is_high_stakes iv.domain && not (high_stakes_ready h.floats s.tsv)
      then (deferred, codes "high_stakes_gate")
      else (tdm, codes "default")

  -- `asdict(iv)`
  unfoldable pub iv_json : InputVector h.floats → Json
  iv_json iv = obj (
      field (codes "user_text") (str iv.user_text) (
        field (codes "user_text_hash") (str iv.user_text_hash) (
          field (codes "safe_stage1_ok") (bool iv.safe_stage1_ok) (
            field (codes "safe_stage1_reason") (str iv.safe_stage1_reason) (
              field (codes "safe_stage2_ok") (bool iv.safe_stage2_ok) (
                field (codes "safe_stage2_score") (real (h.floats.repr iv.safe_stage2_score)) (
                  field (codes "safe_stage2_meta") (obj iv.safe_stage2_meta) (
                    field (codes "safe") (bool iv.safe) (
                      field (codes "domain") (str (domain_text iv.domain)) (
                        field (codes "complexity") (num iv.complexity) (
                          field (codes "requires_reflect") (bool iv.requires_reflect) (
                            field (codes "requires_scaffold") (bool iv.requires_scaffold)
                              end))))))))))))
