-- ===== src/Consensus/Ledger/Recent.antt =====
-- What a reader of the ledger gets.
use beaconwise_tek.Base.{
  ℕ, zero, suc, ◌≤◌, ◌≡◌, refl, inl, inr, Bool, true, false, none, not, and_true, if◌then◌else◌, ap,
  sym, ◌∙◌, subst, codes, truthy, append_assoc, Option, some, List, [], ◌∷◌, ◌++◌, arith,
  Bool-cases, Text, text_eq, text_eq_refl, length, take, all,
}
use beaconwise_tek.Json.{Json, Fields, value, has_key}
use beaconwise_tek.Kernel.Patterns.{strip}
use beaconwise_tek.Stable.{Crypto}
use beaconwise_tek.Validation.Regions.{behind}
use beaconwise_tek.Consensus.Ledger.{
  StageEvent, EventStore, JsonLines, lookup, append_under, reversed, epack_file, append_event,
  emit_stage_event, event_json, is_break, put_first, splitlines, stage_text, file_text, read_line,
  add_read, readable, read_last_jsonl, has_prefix, keep_if, matching, stored_events, stored_in,
  first_of, get_recent_events,
}

module _ {ℓ} {A : Type ℓ} where
  abbrev pub or_empty : Option (List A) → List A
  or_empty none = []
  or_empty (some xs) = xs

  -- What stands under a key after an append there.
  lookup-append_under :
      (k : Text) (x : A) (m : List (Text × List A))
      → lookup k (append_under k x m) ≡ some (or_empty (lookup k m) ++ x ∷ [])
  unfolding lookup append_under
  lookup-append_under k x [] = rw (text_eq_refl k) refl
  lookup-append_under k x ((j, xs) ∷ r) = elim (Bool-cases (text_eq j k)) [
    | inl same ↦ rw (same, same) refl
    | inr other ↦ rw (other, other) (lookup-append_under k x r)
  ]

  length-take_le : (n : ℕ) (xs : List A) → length (take n xs) ≤ n
  length-take_le zero xs = omega arith
  length-take_le (suc n) [] = omega arith
  length-take_le (suc n) (x ∷ xs) = omega (arith, length-take_le n xs)

  reversed-append : (xs : List A) (x : A) → reversed (xs ++ x ∷ []) ≡ x ∷ reversed xs
  unfolding reversed
  reversed-append [] x = refl
  reversed-append (y ∷ xs) x = rw (reversed-append xs x) refl

-- An event whose line is one line that `json.loads` reads back.
pub record IsReadable (jl : JsonLines) (e : StageEvent) : Type 0 where
  pub whole : all (λ ch. not (is_break ch)) (jl.dumps (event_json e)) ≡ true
  pub filled : truthy (strip (jl.dumps (event_json e))) ≡ true
  pub read_back : jl.loads (jl.dumps (event_json e)) ≡ some (event_json e)

splitlines-whole :
    (w : Text) → all (λ ch. not (is_break ch)) w ≡ true → splitlines (w ++ (10 ∷ [])) ≡ w ∷ []
unfolding splitlines put_first
splitlines-whole [] h = refl
splitlines-whole (ch ∷ w) h =
    let (inside, later) = and_true (not (is_break ch)) (all (λ b. not (is_break b)) w) h in
    let one : is_break ch ≡ false = ground (arith, inside) in
    rw (one, splitlines-whole w later) refl

-- What stands behind a line break makes lines of its own.
splitlines-behind :
    (t s : Text)
    → (l : Text) × (ls : List Text) × (splitlines (t ++ (10 ∷ [])) ≡ l ∷ ls)
      × (splitlines (t ++ (10 ∷ s)) ≡ l ∷ (ls ++ splitlines s))
unfolding splitlines put_first
splitlines-behind [] s = ([], [], refl, refl)
splitlines-behind (ch ∷ t) s =
    let (l, ls, one, both) = splitlines-behind t s in
    elim (Bool-cases (is_break ch)) [
      | inl ends ↦ ([], l ∷ ls, rw ends (ap (λ r. [] ∷ r) one), rw ends (ap (λ r. [] ∷ r) both))
      | inr inside ↦ (ch ∷ l, ls, rw (inside, one) refl, rw (inside, both) refl)
    ]

splitlines-append :
    (t s : Text) → splitlines (t ++ (10 ∷ s)) ≡ splitlines (t ++ (10 ∷ [])) ++ splitlines s
splitlines-append t s =
    let (l, ls, one, both) = splitlines-behind t s in both ∙ sym (ap (λ ws. ws ++ splitlines s) one)

behind-prefix : (p r : Text) → behind p (p ++ r) ≡ some r
unfolding behind
behind-prefix [] r = refl
behind-prefix (c ∷ p) r = ground (arith, behind-prefix p r)

take-take : {A : Type 0} (a b : ℕ) (xs : List A) → a ≤ b → take a (take b xs) ≡ take a xs
take-take zero b xs h = refl
take-take (suc a) zero xs h = absurd (omega arith)
take-take (suc a) (suc b) [] h = refl
take-take (suc a) (suc b) (x ∷ xs) h = ap (λ ys. x ∷ ys) (take-take a b xs (omega arith))

module _ (jl : JsonLines) where
  -- The line of an event that was appended is the last of the file.
  file_text-lines :
      (e : StageEvent) (es : List StageEvent)
      → all (λ ch. not (is_break ch)) (jl.dumps (event_json e)) ≡ true
      → splitlines (file_text jl (es ++ e ∷ []))
        ≡ splitlines (file_text jl es) ++ jl.dumps (event_json e) ∷ []
  unfolding file_text splitlines
  file_text-lines e [] whole = splitlines-whole (jl.dumps (event_json e)) whole
  file_text-lines e (y ∷ ys) whole =
      let d : Text = jl.dumps (event_json y) in
      splitlines-append d (file_text jl (ys ++ e ∷ []))
      ∙ (ap (λ ls. splitlines (d ++ (10 ∷ [])) ++ ls) (file_text-lines e ys whole)
          ∙ (sym (append_assoc (splitlines (d ++ (10 ∷ []))) (splitlines (file_text jl ys)) _)
              ∙ ap (λ ls. ls ++ jl.dumps (event_json e) ∷ [])
                  (sym (splitlines-append d (file_text jl ys)))))

  -- The values that the lines of earlier events hold.
  abbrev earlier : List StageEvent → List Json
  earlier es = readable jl (reversed (splitlines (file_text jl es)))

  readable-appended :
      (e : StageEvent) (es : List StageEvent)
      → IsReadable jl e
      → earlier (es ++ e ∷ []) ≡ event_json e ∷ earlier es
  unfolding readable read_line add_read
  readable-appended e es good =
      rw
        (
          file_text-lines e es good.whole,
          reversed-append (splitlines (file_text jl es)) (jl.dumps (event_json e)),
          good.filled,
          good.read_back,
        )
        refl

  stored_first :
      (epack_id : Text) (e : StageEvent) (s : EventStore)
      → IsReadable jl e
      → stored_events jl epack_id (append_event true epack_id e s)
        ≡ event_json e ∷ take 199 (earlier (or_empty (lookup (epack_file epack_id) s.files)))
  unfolding stored_events append_event stored_in read_last_jsonl
  stored_first epack_id e s good =
      let f : Text = epack_file epack_id in
      let es : List StageEvent = or_empty (lookup f s.files) in
      ap
        (λ o.
          stored_in jl o (elim (lookup epack_id (append_under epack_id e s.events)) [
            | none ↦ []
            | some es ↦ es
          ]))
        (lookup-append_under f e s.files)
      ∙ ap (take 200) (readable-appended e es good)

  keep_if-some :
      (v : Json) (f : Option Bool) (r : Option (List Json)) (vs : List Json)
      → keep_if jl v f r ≡ some vs
      → (b : Bool) × (us : List Json) × (f ≡ some b) × (r ≡ some us)
  unfolding keep_if
  keep_if-some v none r vs e = cc
  keep_if-some v (some b) none vs e = cc
  keep_if-some v (some b) (some us) vs e = (b, us, refl, refl)

  matching-take :
      (prefix : Text) (n : ℕ) (vs us : List Json)
      → matching jl prefix vs ≡ some us
      → (ws : List Json) × (matching jl prefix (take n vs) ≡ some ws)
  unfolding matching keep_if
  matching-take prefix zero vs us e = ([], refl)
  matching-take prefix (suc n) [] us e = ([], refl)
  matching-take prefix (suc n) (v ∷ vs) us e =
      let (b, rest, fits, later) =
        keep_if-some v (has_prefix jl prefix v) (matching jl prefix vs) us e in
      let (ws, cut) = matching-take prefix n vs rest later in
      (if b then v ∷ ws else ws, rw (fits, cut) refl)

  first_of-some :
      (n : ℕ) (r : Option (List Json)) (vs : List Json)
      → first_of jl n r ≡ some vs
      → (us : List Json) × (r ≡ some us)
  unfolding first_of
  first_of-some n none vs e = cc
  first_of-some n (some us) vs e = (us, refl)

  -- Where the reader did not raise before, it does not on the values of the file either.
  earlier-matching :
      (prefix : Text) (o : Option (List StageEvent)) (in_memory : List StageEvent) (us : List Json)
      → matching jl prefix (stored_in jl o in_memory) ≡ some us
      → (ws : List Json) × (matching jl prefix (take 199 (earlier (or_empty o))) ≡ some ws)
  unfolding stored_in read_last_jsonl matching readable reversed splitlines file_text
  earlier-matching prefix none in_memory us e = ([], refl)
  earlier-matching prefix (some es) in_memory us e =
      let (ws, at) = matching-take prefix 199 (take 200 (earlier es)) us e in
      (ws, ap (matching jl prefix) (sym (take-take 199 200 (earlier es) (omega arith))) ∙ at)

  keep-matching :
      (prefix r : Text) (e : StageEvent) (vs ws : List Json)
      → e.stage ≡ prefix ++ r
      → matching jl prefix vs ≡ some ws
      → matching jl prefix (event_json e ∷ vs) ≡ some (event_json e ∷ ws)
  unfolding matching keep_if has_prefix event_json value has_key codes text_eq stage_text
  keep-matching prefix r e vs ws same later = rw (later, same, behind-prefix prefix r) refl

-- `get_recent_events` gives no more events than the limit.
pub get_recent_events-bounded :
    (jl : JsonLines) (epack_id prefix : Text) (limit : ℕ) (s : EventStore) (vs : List Json)
    → get_recent_events jl epack_id prefix limit s ≡ some vs
    → length vs ≤ limit
unfolding get_recent_events first_of
get_recent_events-bounded jl epack_id prefix zero s vs e =
    subst (λ o. length (or_empty o) ≤ 0) e (omega arith)
get_recent_events-bounded jl epack_id prefix (suc n) s vs e =
    let (us, at) =
      first_of-some jl (suc n) (matching jl prefix (stored_events jl epack_id s)) vs e in
    subst (λ o. length (or_empty o) ≤ suc n) (sym (ap (first_of jl (suc n)) at) ∙ e)
      (length-take_le (suc n) us)

-- The event of a stage.
abbrev pub stage_event : Text → Text → Text → ℕ → Fields → Text → Option Text → StageEvent
stage_event run_id epack stage ts_ms payload event_hash prev_hash = record {
  run_id = run_id;
  epack = epack;
  stage = stage;
  ts_ms = ts_ms;
  payload = payload;
  event_hash = event_hash;
  prev_hash = prev_hash;
}

-- When the file of an audit id can be written, the line of the event reads back, and a reader raises
-- nothing on what was stored before, the event that `emit_stage_event` stores under the id is the
-- first that `get_recent_events` gives for it, for every prefix of its stage and every limit but 0:
-- the dict of the given run, id, stage, time, payload and hash of the event before, and of the
-- hash that `emit_stage_event` returned.
pub emit_stage_event-recent :
    (jl : JsonLines) (c : Crypto) (ts_ms : ℕ) (epack run_id prefix r : Text) (payload : Fields)
    (prev_hash : Option Text) (s : EventStore) (n : ℕ) (old : List Json)
    → IsReadable jl (
        stage_event run_id epack
          (prefix ++ r)
          ts_ms
          payload
          (emit_stage_event c true ts_ms epack run_id (prefix ++ r) payload prev_hash s).0
          prev_hash)
    → get_recent_events jl epack prefix (suc n) s ≡ some old
    → (rest : List Json) × (get_recent_events jl epack prefix
          (suc n)
          (emit_stage_event c true ts_ms epack run_id (prefix ++ r) payload prev_hash s).1
        ≡ some (
            event_json (
              stage_event run_id epack
                (prefix ++ r)
                ts_ms
                payload
                (emit_stage_event c true ts_ms epack run_id (prefix ++ r) payload prev_hash s).0
                prev_hash)
            ∷ rest))
unfolding emit_stage_event get_recent_events stored_events first_of
emit_stage_event-recent jl c ts_ms epack run_id prefix r payload prev_hash s n old good before =
    let e : StageEvent =
      stage_event run_id epack (prefix ++ r) ts_ms payload
        (emit_stage_event c true ts_ms epack run_id (prefix ++ r) payload prev_hash s).0
        prev_hash in
    let (us, read) =
      first_of-some jl (suc n) (matching jl prefix (stored_events jl epack s)) old before in
    let (ws, later) = earlier-matching jl prefix (lookup (epack_file epack) s.files) _ us read in
    let kept =
      keep-matching jl prefix r e
        (take 199 (earlier jl (or_empty (lookup (epack_file epack) s.files)))) ws refl later in
    (
      take n ws,
      ap (λ vs. first_of jl (suc n) (matching jl prefix vs)) (stored_first jl epack e s good)
          ∙ ap (first_of jl (suc n)) kept,
    )
