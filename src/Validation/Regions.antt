-- ===== src/Validation/Regions.antt =====
-- `protected_regions_hash` and the evidence pattern of src/ecosphere/validation/validators.py.
use beaconwise_tek.Base.{
  ℕ, zero, suc, ◌-◌, Bool, Option, none, some, List, [], ◌∷◌, ◌++◌, ◌==◌, if◌then◌else◌, Text,
  codes, length, take,
}
use beaconwise_tek.Json.{str}
use beaconwise_tek.Stable.{Crypto, stable_hash}
use beaconwise_tek.Kernel.Patterns.{has_word}

-- The rest of a text behind a literal.
unfoldable pub behind : Text → Text → Option Text
behind [] s = some s
behind (p ∷ ps) [] = none
behind (p ∷ ps) (c ∷ s) = let rest = behind ps s in if c == p then rest else none

-- The shortest start of a text that ends with a literal: `[\s\S]*?` and the literal.
unfoldable pub through : Text → Text → Option Text
unfolding behind
through close [] = elim (behind close []) [ none ↦ none | some r ↦ some close ]
through close (c ∷ s) = elim (behind close (c ∷ s)) [
  | some r ↦ some close
  | none ↦ elim (through close s) [ none ↦ none | some t ↦ some (c ∷ t) ]
]

-- What `left[\s\S]*?right` matches at this place.
unfoldable pub region_at : Text → Text → Text → Option Text
unfolding behind through
region_at left right s = elim (behind left s) [
  | none ↦ none
  | some r ↦ elim (through right r) [ none ↦ none | some t ↦ some (left ++ t) ]
]

-- `re.findall`: the matches from left to right; `skip` characters belong to the last one.
unfoldable pub find_regions : Text → Text → ℕ → Text → List Text
unfolding region_at
find_regions left right skip [] = []
find_regions left right (suc skip) (c ∷ s) = find_regions left right skip s
find_regions left right zero (c ∷ s) = elim (region_at left right (c ∷ s)) [
  | none ↦ find_regions left right 0 s
  | some t ↦ t ∷ find_regions left right (length t - 1) s
]

-- `"\n".join(parts)`
unfoldable pub join_lines : List Text → Text
join_lines [] = []
join_lines (p ∷ []) = p
join_lines (p ∷ q ∷ ps) = p ++ 10 ∷ join_lines (q ∷ ps)

-- The code fences of a text, then its blocks in braces.
unfoldable pub protected_regions : Text → List Text
unfolding find_regions
protected_regions text =
    find_regions (codes "```") (codes "```") 0 text ++ find_regions (codes "{") (codes "}") 0 text

unfoldable pub protected_regions_hash : Crypto → Text → Text
unfolding protected_regions join_lines
protected_regions_hash c text = take 16 (stable_hash c (str (join_lines (protected_regions text))))

-- The alternatives of `EVIDENCE_CLAIM_RE`
unfoldable pub evidence_claims : List Text
evidence_claims =
    codes "studies show"
    ∷ codes "research shows"
    ∷ codes "evidence suggests"
    ∷ codes "systematic review"
    ∷ codes "meta-analysis"
    ∷ codes "meta-analyses"
    ∷ codes "randomised trial"
    ∷ codes "randomised controlled trial"
    ∷ codes "randomized trial"
    ∷ codes "randomized controlled trial"
    ∷ codes "rct"
    ∷ codes "clinical guideline"
    ∷ codes "guidelines recommend"
    ∷ codes "guidelines suggest"
    ∷ codes "according to a study"
    ∷ codes "according to a trial"
    ∷ codes "according to a review"
    ∷ codes "according to a meta-analysis"
    ∷ codes "according to the study"
    ∷ codes "according to the trial"
    ∷ codes "according to the review"
    ∷ codes "according to the meta-analysis"
    ∷ []

unfoldable pub claims_evidence : Text → Bool
unfolding evidence_claims
claims_evidence text = has_word evidence_claims text
