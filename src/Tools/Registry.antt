-- ===== src/Tools/Registry.antt =====
-- packages/platform/src/vda_platform/tools/registry.py: `ToolRegistry`.
-- A payload is an object with values of a type `V` that has Python's `==`; the `isinstance` tests on
-- a value are the parameters `is_string`, `is_integer` (an `int` and no `bool`) and `is_array`. A
-- handler returns an `R` or raises an `X`, and changes a world `W`, which stands beside the registry;
-- it does not call the registry.
pub mod Once
use grok_bot_data.Prelude.{
  ℕ, String, Bool, true, false, not, Option, none, some, List, [], map, Eq, Result, ok, err, Exec,
  pure, gets, or_raise, raise_if, modify, filter, any, elem, string_eq, pair_eq, option_eq, nat_eq,
  ◌&&◌, ◌∷◌, ◌==◌, ◌!=◌, ◌>>=◌, ◌>>◌, if◌then◌else◌,
}
use grok_bot_data.Prelude.Dict.{Dict, lookup, insert, contains, values}
use Prim.Native.Nat.{Ordering}
use Prim.Native.String.{compare as text_compare}

-- `ToolValidationError` with one constructor for each message
pub data ToolValidationError : Type 0 where
  unknown_fields missing_fields : ToolValidationError
  must_be_string must_be_integer must_be_array not_allowed_value : String → ToolValidationError

-- `ToolDenied`, `ToolValidationError`, and what the handler raised
pub data ToolError (X : Type 0) : Type 0 where
  tool_denied : ToolError X
  validation_error : ToolValidationError → ToolError X
  handler_error : X → ToolError X

pub record ToolContext : Type 0 where
  pub actor_id : String
  pub bot_template : String
  pub workspace_id : String
  pub conversation_id : String
  pub grant_version : ℕ
  pub policy_generation : ℕ
  pub fence : ℕ
  pub idempotency_key : String

-- an entry of `properties`
pub record PropertySchema (V : Type 0) : Type 0 where
  pub type_name : Option String
  pub enum : Option (List V)

-- `_ToolSpec`, with the two entries of its `input_profile`
pub record ToolSpec (V : Type 0) : Type 0 where
  pub tool_id : String
  pub grants : List String
  pub properties : Dict String (PropertySchema V)
  pub required : List String
  pub effect : String

-- `ToolRegistry`, and the world of the handlers
pub record ToolRegistry (V R W : Type 0) : Type 0 where
  pub specs : Dict String (ToolSpec V)
  pub effects : Dict ((String × String) × String) R
  pub world : W

abbrev pub ToolHandler : Type 0 → Type 0 → Type 0 → Type 0 → Type 0
ToolHandler V R W X = ToolContext → Dict String V → W → Result X R × W

abbrev pub ToolCommand : Type 0 → Type 0 → Type 0 → Type 0 → Type 0 → Type 0
ToolCommand V R W X A = Exec (ToolRegistry V R W) (ToolError X) A

-- `(context.actor_id, tool_id, context.idempotency_key)`
abbrev pub effect_key : String → ToolContext → (String × String) × String
effect_key tool_id context = ((context.actor_id, tool_id), context.idempotency_key)

-- `spec.get("type") == name`
abbrev pub has_type : Option String → String → Bool
has_type none name = false
has_type (some t) name = t == name

abbrev pub in_enum : {V : Type 0} ⦃e : Eq V⦄ → Option (List V) → V → Bool
in_enum none value = true
in_enum (some allowed) value = elem value allowed

-- `spec.effect != "read"`
abbrev pub is_effectful : {V : Type 0} → ToolSpec V → Bool
is_effectful spec = spec.effect != "read"

-- what a handler leaves behind
abbrev pub finished : {V R W X : Type 0} → Result X R × W → ToolCommand V R W X R
finished (ok r, w) s = (ok r, record s { world = w })
finished (err x, w) s = (err (handler_error x), record s { world = w })

module _ {V : Type 0} ⦃e : Eq V⦄ (is_string is_integer is_array : V → Bool) where
  -- one turn of the loop of `_validate`
  unfoldable pub check_value : String → PropertySchema V → V → Result ToolValidationError Unit
  check_value name schema value =
      if has_type schema.type_name "string" && not (is_string value)
      then err (must_be_string name)
      else if has_type schema.type_name "integer" && not (is_integer value)
      then err (must_be_integer name)
      else if has_type schema.type_name "array" && not (is_array value)
      then err (must_be_array name)
      else if not (in_enum schema.enum value)
      then err (not_allowed_value name)
      else ok tt

  -- `properties[name]`; a name that misses has been refused as unknown
  abbrev pub check_found : String → Option (PropertySchema V) → V → Result ToolValidationError Unit
  check_found name none value = err unknown_fields
  check_found name (some schema) value = check_value name schema value

  abbrev pub both :
      Result ToolValidationError Unit
      → Result ToolValidationError Unit
      → Result ToolValidationError Unit
  both (err problem) rest = err problem
  both (ok done) rest = rest

  -- the loop of `_validate`
  unfoldable pub check_values :
      Dict String (PropertySchema V) → Dict String V → Result ToolValidationError Unit
  unfolding check_value
  check_values properties [] = ok tt
  check_values properties ((name, value) ∷ rest) =
      both (check_found name (lookup name properties) value) (check_values properties rest)

  -- `ToolRegistry._validate`
  unfoldable pub validate : ToolSpec V → Dict String V → Result ToolValidationError Unit
  unfolding check_values
  validate spec payload =
      if any (λ field. not (contains field.0 spec.properties)) payload
      then err unknown_fields
      else if any (λ name. not (contains name payload)) spec.required
      then err missing_fields
      else check_values spec.properties payload

  module _ {R W X : Type 0} where
    -- `handler(context, payload)`
    abbrev pub run_handler :
        ToolHandler V R W X → ToolContext → Dict String V → ToolCommand V R W X R
    run_handler handler context payload s = finished (handler context payload s.world) s

    -- `invoke` behind the checks: the known effect, or the handler and its record
    unfoldable pub perform :
        Bool
        → String
        → ToolContext
        → Dict String V
        → ToolHandler V R W X
        → Option R
        → ToolCommand V R W X R
    perform true tool_id context payload handler (some known) = pure known
    perform true tool_id context payload handler none = do
      result ← run_handler handler context payload
      modify (λ s. record s { effects = insert (effect_key tool_id context) result s.effects })
      pure result
    perform false tool_id context payload handler known = run_handler handler context payload

    abbrev pub or_invalid : Result ToolValidationError Unit → ToolCommand V R W X Unit
    or_invalid (ok done) s = (ok tt, s)
    or_invalid (err problem) s = (err (validation_error problem), s)

    -- `ToolRegistry.invoke`
    unfoldable pub invoke :
        String → ToolContext → Dict String V → ToolHandler V R W X → ToolCommand V R W X R
    unfolding perform validate
    invoke tool_id context payload handler = do
      found ← gets (λ s. lookup tool_id s.specs)
      spec ← or_raise found tool_denied
      raise_if (not (elem context.bot_template spec.grants)) tool_denied
      or_invalid (validate spec payload)
      known ← gets (λ s. lookup (effect_key tool_id context) s.effects)
      perform (is_effectful spec) tool_id context payload handler known

-- Python's order of texts, by code points
abbrev text_leb : String → String → Bool
text_leb a b = elim (text_compare a b) [ Ordering.gt ↦ false | _ ↦ true ]

unfoldable pub place_text : String → List String → List String
place_text x [] = x ∷ []
place_text x (y ∷ ys) = let rest = place_text x ys in if text_leb x y then x ∷ y ∷ ys else y ∷ rest

-- `sorted` on texts
unfoldable pub sorted_texts : List String → List String
unfolding place_text
sorted_texts [] = []
sorted_texts (x ∷ xs) = place_text x (sorted_texts xs)

-- `ToolRegistry.allowed_tools`
unfoldable pub allowed_tools : {V R W : Type 0} → String → ToolRegistry V R W → List String
unfolding sorted_texts
allowed_tools bot_template s =
    sorted_texts
      (map (λ spec. spec.tool_id) (filter (λ spec. elem bot_template spec.grants) (values s.specs)))
