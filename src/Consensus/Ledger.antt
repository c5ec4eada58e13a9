-- ===== src/Consensus/Ledger.antt =====
-- src/ecosphere/consensus/ledger: the events of the stages of a run (hooks.py) and their store
-- (reader.py), which keeps them in memory and appends them to one JSONL file for every audit id. A file
-- is the list of the events that were appended to it; what a reader sees is its text. `json.dumps` of
-- an event, `json.loads` of a line and `str` are the parameter `JsonLines`.
pub mod Recent
use beaconwise_tek.Base.{
  ℕ, zero, suc, ◌+◌, ◌-◌, ◌*◌, ◌≤◌, ◌<◌, String, ◌≡◌, refl, sym, ap, ◌∙◌, subst, ◌≢◌, ◌↔◌, ◌⊎◌, inl,
  inr, Bool, true, false, not, ◌&&◌, ◌||◌, Option, none, some, List, [], ◌∷◌, ◌++◌, map,
  append_assoc, append-nil, arith, ltb, leb, ◌==◌, if◌then◌else◌, ltb→lt, lt→ltb, leb→le, le→leb,
  ==→eq, eq→==, Bool-cases, and_true, Option-cases, Text, codes, text_eq, text_lt, text_eq→eq,
  text_eq_refl, eq→text_eq, truthy, length, take, drop, take_last, any, all, length-append,
}
use beaconwise_tek.Json.{Json, Fields, null, num, str, obj, end, field, value, has_key}
use beaconwise_tek.Stable.{Crypto, stable_hash}
use beaconwise_tek.Kernel.Patterns.{is_word, strip}
use beaconwise_tek.Validation.Regions.{behind}

pub record StageEvent : Type 0 where
  pub run_id : Text
  pub epack : Text
  pub stage : Text
  pub ts_ms : ℕ
  pub payload : Fields
  pub event_hash : Text
  pub prev_hash : Option Text

-- `_EPACK_EVENTS` and the files, by their names: the events that were appended.
pub record EventStore : Type 0 where
  pub events : List (Text × List StageEvent)
  pub files : List (Text × List StageEvent)

pub record JsonLines : Type 0 where
  -- `json.dumps(event, ensure_ascii=False)`
  pub dumps : Json → Text
  -- `json.loads(line)`, `none` for an exception
  pub loads : Text → Option Json
  -- `str(v)`
  pub show : Json → Text

unfoldable pub empty_store : EventStore
empty_store = record { events = []; files = [] }

module _ {ℓ} {A : Type ℓ} where
  -- `d.get(k)`
  unfoldable pub lookup : Text → List (Text × List A) → Option (List A)
  lookup k [] = none
  lookup k ((j, xs) ∷ r) = let rest = lookup k r in if text_eq j k then some xs else rest

  -- `d.setdefault(k, []).append(x)`
  unfoldable pub append_under : Text → A → List (Text × List A) → List (Text × List A)
  append_under k x [] = (k, x ∷ []) ∷ []
  append_under k x ((j, xs) ∷ r) =
      let rest = append_under k x r in if text_eq j k then (j, xs ++ x ∷ []) ∷ r else (j, xs) ∷ rest

  -- `d.pop(k, None)`
  unfoldable pub pop_under : Text → List (Text × List A) → List (Text × List A)
  pop_under k [] = []
  pop_under k ((j, xs) ∷ r) = let rest = pop_under k r in if text_eq j k then r else (j, xs) ∷ rest

  unfoldable pub reversed : List A → List A
  reversed [] = []
  reversed (x ∷ xs) = reversed xs ++ x ∷ []

-- `ch.isalnum() or ch in ("-", "_")`
unfoldable pub is_safe : ℕ → Bool
is_safe c = is_word c || c == b'-'

unfoldable pub safe_chars : Text → Text
unfolding is_safe
safe_chars [] = []
safe_chars (c ∷ s) = let rest = safe_chars s in if is_safe c then c ∷ rest else rest

-- `_epack_file`: the name of the file for an audit id
unfoldable pub epack_file : Text → Text
unfolding safe_chars
epack_file epack_id = take 120 (safe_chars epack_id) ++ codes ".jsonl"

-- `append_event`; the flag says if the file could be written, and nothing is said when it could not
unfoldable pub append_event : Bool → Text → StageEvent → EventStore → EventStore
unfolding epack_file
append_event written epack_id event s = record {
  events = append_under epack_id event s.events;
  files = if written then append_under (epack_file epack_id) event s.files else s.files;
}

-- `clear_epack`, where the file could be removed
unfoldable pub clear_epack : Text → EventStore → EventStore
unfolding epack_file
clear_epack epack_id s = record {
  events = pop_under epack_id s.events;
  files = pop_under (epack_file epack_id) s.files;
}

-- `emit_stage_event` at the time `ts_ms`; the hash of the event before is stored, but not hashed
unfoldable pub emit_stage_event :
    Crypto → Bool → ℕ → Text → Text → Text → Fields → Option Text → EventStore → Text × EventStore
emit_stage_event c written ts_ms epack run_id stage payload prev_hash s =
    let core : Fields = field (codes "run_id") (str run_id) (
      field (codes "epack") (str epack) (
        field (codes "stage") (str stage)
          (field (codes "ts_ms") (num ts_ms) (field (codes "payload") (obj payload) end)))) in
    let event_hash : Text = stable_hash c (obj core) in
    let event : StageEvent = record {
      run_id = run_id;
      epack = epack;
      stage = stage;
      ts_ms = ts_ms;
      payload = payload;
      event_hash = event_hash;
      prev_hash = prev_hash;
    } in
    (event_hash, append_event written epack event s)

-- The dict of an event
unfoldable pub event_json : StageEvent → Json
event_json e = obj (
    field (codes "run_id") (str e.run_id) (
      field (codes "epack") (str e.epack) (
        field (codes "stage") (str e.stage) (
          field (codes "ts_ms") (num e.ts_ms) (
            field (codes "payload") (obj e.payload) (
              field (codes "event_hash") (str e.event_hash) (
                field (codes "prev_hash") (elim e.prev_hash [ none ↦ null | some h ↦ str h ])
                  end)))))))

-- The characters at which `str.splitlines` ends a line
unfoldable pub line_breaks : List ℕ
line_breaks = 10 ∷ 11 ∷ 12 ∷ 13 ∷ 28 ∷ 29 ∷ 30 ∷ 133 ∷ 8232 ∷ 8233 ∷ []

unfoldable pub is_break : ℕ → Bool
unfolding line_breaks
is_break ch = any (λ b. b == ch) line_breaks

unfoldable pub put_first : ℕ → List Text → List Text
put_first ch [] = (ch ∷ []) ∷ []
put_first ch (l ∷ ls) = (ch ∷ l) ∷ ls

-- `s.splitlines()`, but for a blank line between `\r` and `\n`, which readers skip
unfoldable pub splitlines : Text → List Text
unfolding is_break put_first
splitlines [] = []
splitlines (ch ∷ s) =
    let rest = splitlines s in if is_break ch then [] ∷ rest else put_first ch rest

-- `v.get("stage", "")` as a string, of what stands under the key
unfoldable pub stage_text : (Json → Text) → Bool → Json → Text
stage_text show false v = []
stage_text show true (str s) = s
stage_text show true v = show v

module _ (jl : JsonLines) where
  -- The text of a file
  unfoldable pub file_text : List StageEvent → Text
  file_text [] = []
  file_text (e ∷ es) = jl.dumps (event_json e) ++ (10 ∷ file_text es)

  -- What a line holds: a blank line and one that does not parse hold nothing.
  unfoldable pub read_line : Text → Option Json
  read_line line = if truthy (strip line) then jl.loads line else none

  unfoldable pub add_read : Option Json → List Json → List Json
  add_read none vs = vs
  add_read (some v) vs = v ∷ vs

  -- Of lines, the values that can be read.
  unfoldable pub readable : List Text → List Json
  unfolding read_line add_read
  readable [] = []
  readable (l ∷ ls) = add_read (read_line l) (readable ls)

  -- `_read_last_jsonl`: the last values that can be read, the newest first
  unfoldable pub read_last_jsonl : Text → ℕ → List Json
  unfolding readable reversed splitlines
  read_last_jsonl text limit = take limit (readable (reversed (splitlines text)))

  -- `str(e.get("stage", "")).startswith(prefix)`; `none` for the AttributeError of a value that is
  -- no dict
  unfoldable pub has_prefix : Text → Json → Option Bool
  unfolding stage_text
  has_prefix prefix (obj fs) =
      let stage : Text =
        stage_text jl.show (has_key (codes "stage") fs) (value (codes "stage") fs) in
      some (elim (behind prefix stage) [ none ↦ false | some r ↦ true ])
  has_prefix prefix _ = none

  unfoldable pub keep_if : Json → Option Bool → Option (List Json) → Option (List Json)
  keep_if v none rest = none
  keep_if v (some fits) none = none
  keep_if v (some fits) (some vs) = some (if fits then v ∷ vs else vs)

  unfoldable pub matching : Text → List Json → Option (List Json)
  unfolding has_prefix keep_if
  matching prefix [] = some []
  matching prefix (v ∷ vs) = keep_if v (has_prefix prefix v) (matching prefix vs)

  -- The values that `get_recent_events` looks at: of the file, if there is one, and of the memory
  -- otherwise.
  unfoldable pub stored_in : Option (List StageEvent) → List StageEvent → List Json
  unfolding read_last_jsonl file_text reversed event_json
  stored_in (some es) in_memory = read_last_jsonl (file_text es) 200
  stored_in none in_memory = map event_json (reversed in_memory)

  unfoldable pub stored_events : Text → EventStore → List Json
  unfolding epack_file stored_in
  stored_events epack_id s =
      stored_in (lookup (epack_file epack_id) s.files)
        (elim (lookup epack_id s.events) [ none ↦ [] | some es ↦ es ])

  unfoldable pub first_of : ℕ → Option (List Json) → Option (List Json)
  first_of limit none = none
  first_of limit (some vs) = some (take limit vs)

  unfoldable pub get_recent_events : Text → Text → ℕ → EventStore → Option (List Json)
  unfolding matching stored_events first_of
  get_recent_events epack_id stage_prefix zero s = some []
  get_recent_events epack_id stage_prefix (suc n) s =
      first_of (suc n) (matching stage_prefix (stored_events epack_id s))
