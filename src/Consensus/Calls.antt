-- ===== src/Consensus/Calls.antt =====
-- Python's side of src/ecosphere/consensus/orchestrator/flow.py: exceptions, keyword arguments,
-- `str.format` for templates of plain fields, and `try_parse_json` of adapters/base.py.
use beaconwise_tek.Base.{
  Bool, ◌&&◌, Option, none, some, List, [], ◌∷◌, ◌++◌, ◌==◌, if◌then◌else◌, Text, codes, text_eq,
  all,
}
use beaconwise_tek.Json.{Json, null}
use beaconwise_tek.Kernel.Gates.{contains_text}
use beaconwise_tek.Validation.Checked.{Loaded, parsed, malformed, Python}

pub data Exc : Type 0 where
  type_error attribute_error validation_error value_error key_error : Exc
  -- what an adapter raises, by its name and its text
  adapter_error : Text → Text → Exc

pub data Outcome {ℓ} (A : Type ℓ) : Type ℓ where
  returned : A → Outcome A
  raised : Exc → Outcome A

-- `type(e).__name__`
unfoldable pub exc_name : Exc → Text
exc_name type_error = codes "TypeError"
exc_name attribute_error = codes "AttributeError"
exc_name validation_error = codes "ValidationError"
exc_name value_error = codes "ValueError"
exc_name key_error = codes "KeyError"
exc_name (adapter_error name message) = name

-- A function that takes keyword arguments only.
pub record Signature : Type 0 where
  pub params : List Text
  pub required : List Text

-- Every keyword is a parameter, and every required parameter is given.
unfoldable pub binds : Signature → List Text → Bool
binds sig keywords =
    all (λ k. contains_text k sig.params) keywords
    && all (λ p. contains_text p keywords) sig.required

module _ {ℓ} {A : Type ℓ} where
  -- A call whose keywords do not bind raises a TypeError before the body runs.
  unfoldable pub call : Signature → List Text → Outcome A → Outcome A
  call sig keywords body = if binds sig keywords then body else raised type_error

  -- The constructor of a pydantic model with extra="forbid".
  unfoldable pub construct : Signature → List Text → A → Outcome A
  construct sig keywords value =
      if binds sig keywords then returned value else raised validation_error

module _ {ℓ κ} {A : Type ℓ} {B : Type κ} where
  unfoldable pub then_do : Outcome A → (A → Outcome B) → Outcome B
  then_do (returned a) f = f a
  then_do (raised e) f = raised e

-- Where `str.format` stands in a template.
pub data Mode : Type 0 where
  plain opened closed : Mode
  naming : Text → Mode

unfoldable pub variable : Text → List (Text × Text) → Option Text
variable k [] = none
variable k ((j, v) ∷ vars) = let rest = variable k vars in if text_eq j k then some v else rest

unfoldable pub put : Text → Outcome Text → Outcome Text
put s (returned t) = returned (s ++ t)
put s (raised e) = raised e

-- A field's text, then the rest.
unfoldable pub put_variable : Option Text → Outcome Text → Outcome Text
unfolding put
put_variable none rest = raised key_error
put_variable (some v) rest = put v rest

-- `template.format(**vars)`
unfoldable pub format_from : List (Text × Text) → Mode → Text → Outcome Text
unfolding put put_variable variable
format_from vars plain [] = returned []
format_from vars opened [] = raised value_error
format_from vars closed [] = raised value_error
format_from vars (naming name) [] = raised value_error
format_from vars plain (c ∷ s) =
    let open_rest = format_from vars opened s in
    let close_rest = format_from vars closed s in
    let rest = format_from vars plain s in
    if c == b'{' then open_rest else if c == b'}' then close_rest else put (c ∷ []) rest
format_from vars opened (c ∷ s) =
    let named = format_from vars (naming (c ∷ [])) s in
    let rest = format_from vars plain s in
    if c == b'{' then put (c ∷ []) rest else if c == b'}' then raised value_error else named
format_from vars closed (c ∷ s) =
    let rest = format_from vars plain s in
    if c == b'}' then put (c ∷ []) rest else raised value_error
format_from vars (naming name) (c ∷ s) =
    let named = format_from vars (naming (name ++ c ∷ [])) s in
    let rest = format_from vars plain s in
    if c == b'}' then put_variable (variable name vars) rest else named

-- `_render_prompt`
unfoldable pub render_prompt : Text → List (Text × Text) → Outcome Text
unfolding format_from
render_prompt template vars = format_from vars plain template

-- The text from its first `{` on.
unfoldable pub from_brace : Text → Text
from_brace [] = []
from_brace (c ∷ s) = let rest = from_brace s in if c == b'{' then c ∷ s else rest

-- The text through its last `}`, if there is one.
unfoldable pub through_brace : Text → Option Text
through_brace [] = none
through_brace (c ∷ s) = elim (through_brace s) [
  | some t ↦ some (c ∷ t)
  | none ↦ if c == b'}' then some (c ∷ []) else none
]

-- A value that is not `None`.
unfoldable pub not_none : Json → Option Json
not_none null = none
not_none j = some j

unfoldable pub data_of : Loaded → Option Json
unfolding not_none
data_of (parsed j) = not_none j
data_of (malformed message) = none

-- What is read after the whole text could not be: from the first `{` through the last `}`
unfoldable pub embedded : Python → Text → Option Json
unfolding from_brace through_brace data_of
embedded py text = elim (through_brace (from_brace text)) [
  | none ↦ none
  | some t ↦ data_of (py.loads t)
]

unfoldable pub try_parse_json : Python → Text → Option Json
unfolding not_none embedded
try_parse_json py text = elim (py.loads text) [
  | parsed j ↦ not_none j
  | malformed message ↦ embedded py text
]
