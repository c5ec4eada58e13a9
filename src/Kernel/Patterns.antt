-- ===== src/Kernel/Patterns.antt =====
-- The regular expressions of src/ecosphere/kernel/gates.py, as searches in a text. Classes of
-- characters (`\w`, `\s`, case) are those of ASCII; other characters count as no word characters.
use beaconwise_tek.Base.{
  ℕ, ◌+◌, ◌-◌, ◌*◌, Bool, true, false, not, ◌&&◌, ◌||◌, Option, none, some, List, [], ◌∷◌, ◌++◌,
  map, leb, ◌==◌, if◌then◌else◌, Text, codes, length, drop,
}

unfoldable pub in_range : ℕ → ℕ → ℕ → Bool
in_range lo hi c = leb lo c && leb c hi

unfoldable pub is_digit : ℕ → Bool
unfolding in_range
is_digit c = in_range b'0' b'9' c

unfoldable pub is_word : ℕ → Bool
unfolding is_digit
is_word c = is_digit c || (in_range b'a' b'z' c || (in_range b'A' b'Z' c || c == b'_'))

unfoldable pub is_space : ℕ → Bool
unfolding in_range
is_space c = in_range 9 13 c || in_range 28 32 c

unfoldable pub lower_char : ℕ → ℕ
unfolding in_range
lower_char c = if in_range b'A' b'Z' c then c + 32 else c

unfoldable pub lower : Text → Text
unfolding lower_char
lower = map lower_char

-- `[0-9a-f]` without regard to case
unfoldable pub is_hex : ℕ → Bool
unfolding is_digit
is_hex c = is_digit c || (in_range b'a' b'f' c || in_range b'A' b'F' c)

unfoldable pub skip_spaces : Text → Text
unfolding is_space
skip_spaces [] = []
skip_spaces (c ∷ s) = let rest = skip_spaces s in if is_space c then rest else c ∷ s

-- `s.strip()`, its end
unfoldable pub strip_end : Text → Text
unfolding is_space
strip_end [] = []
strip_end (c ∷ s) =
    let rest = strip_end s in
    elim rest [ [] ↦ if is_space c then [] else c ∷ [] | d ∷ r ↦ c ∷ d ∷ r ]

unfoldable pub strip : Text → Text
unfolding skip_spaces strip_end
strip s = strip_end (skip_spaces s)

-- The rest of a text behind a literal, which is in lower case, without regard to case.
unfoldable pub after : Text → Text → Option Text
unfolding lower_char
after [] s = some s
after (p ∷ ps) [] = none
after (p ∷ ps) (c ∷ s) = let rest = after ps s in if lower_char c == p then rest else none

-- `\b` between a word character and what follows
unfoldable pub word_ends : Text → Bool
unfolding is_word
word_ends [] = true
word_ends (c ∷ s) = not (is_word c)

-- `literal\b` at this place, for a literal that ends in a word character
unfoldable pub whole : Text → Text → Option Text
unfolding after word_ends
whole p s = elim (after p s) [ none ↦ none | some r ↦ if word_ends r then some r else none ]

unfoldable pub first_some : List (Option Text) → Option Text
first_some [] = none
first_some (none ∷ r) = first_some r
first_some (some t ∷ r) = some t

-- `re.search(r"\b" + m, s)` for a pattern that starts with a word character: `m` gives what it
-- finds at a place, and `prev` says if a word character stands before.
unfoldable pub search_word : (Text → Option Text) → Bool → Text → Option Text
unfolding is_word
search_word m prev [] = none
search_word m prev (c ∷ s) =
    let rest = search_word m (is_word c) s in
    let here : Option Text = if prev then none else m (c ∷ s) in
    elim here [ none ↦ rest | some t ↦ some t ]

unfoldable pub found : Option Text → Bool
found none = false
found (some t) = true

-- `\b(a|b|..)\b`
unfoldable pub has_word : List Text → Text → Bool
unfolding search_word first_some whole found
has_word ps s = found (search_word (λ t. first_some (map (λ p. whole p t) ps)) false s)

-- The longest run of characters of one class, and the rest.
unfoldable pub span : (ℕ → Bool) → Text → Text × Text
span p [] = ([], [])
span p (c ∷ s) = let (run, rest) = span p s in if p c then (c ∷ run, rest) else ([], c ∷ s)

-- `\s+`
unfoldable pub some_spaces : Text → Option Text
unfolding skip_spaces
some_spaces [] = none
some_spaces (c ∷ s) = if is_space c then some (skip_spaces s) else none

-- `keyword\s+([0-9a-f]{4,10})\b`: as the next hex digit is a word character, the run is the
-- longest one.
unfoldable pub token_at : Text → Text → Option Text
unfolding after some_spaces span is_hex word_ends
token_at keyword s = elim (after keyword s) [
  | none ↦ none
  | some r ↦ elim (some_spaces r) [
    | none ↦ none
    | some t ↦
        let (run, rest) = span is_hex t in
        if leb 4 (length run) && (leb (length run) 10 && word_ends rest) then some run else none
  ]
]

-- `(step|phase)\s*(\d+)\b`, the digits
unfoldable pub digits_at : Text → Text → Option Text
unfolding after skip_spaces span is_digit word_ends
digits_at keyword s = elim (after keyword s) [
  | none ↦ none
  | some r ↦
      let (run, rest) = span is_digit (skip_spaces r) in
      if leb 1 (length run) && word_ends rest then some run else none
]

-- `int(digits)`
unfoldable pub to_int : ℕ → Text → ℕ
to_int n [] = n
to_int n (c ∷ s) = to_int (n * 10 + (c - b'0')) s

-- `^\s*(confirm|approve)\s+[0-9a-f]{4,10}\s*` is cut off
unfoldable pub cut_token : Text → Text
unfolding after some_spaces span is_hex skip_spaces first_some
cut_token s =
    let s' = skip_spaces s in
    elim (first_some (after (codes "confirm") s' ∷ after (codes "approve") s' ∷ [])) [
      | none ↦ s
      | some r ↦ elim (some_spaces r) [
        | none ↦ s
        | some t ↦
            let (run, rest) = span is_hex t in
            if leb 4 (length run) then skip_spaces (drop 10 run ++ rest) else s
      ]
    ]

-- `[:,]?\s*`
unfoldable pub cut_mark : Text → Text
unfolding skip_spaces
cut_mark [] = []
cut_mark (c ∷ s) = if c == b':' || c == b',' then skip_spaces s else skip_spaces (c ∷ s)

-- `^\s*(yes|yep|yeah|approved|go ahead|proceed)\b[:,]?\s*` is cut off
unfoldable pub cut_assent : Text → Text
unfolding cut_mark skip_spaces first_some whole
cut_assent s =
    let s' = skip_spaces s in
    elim (first_some (
      map (λ p. whole p s')
        (codes "yes"
          ∷ codes "yep"
          ∷ codes "yeah"
          ∷ codes "approved"
          ∷ codes "go ahead"
          ∷ codes "proceed"
          ∷ []))) [ none ↦ s | some r ↦ cut_mark r ]
