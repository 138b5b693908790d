-- ===== src/Perception/Schema.antt =====
-- The validator of telemetry (src/autonomy/perception.py). The recursion takes fuel; `validate`
-- gives it the depth of the value, which every recursive call lowers.
use autonomous_vehicle_llm.Base.{
  ℕ, zero, suc, ◌+◌, String, ◌<>◌, Bool, true, false, not, Option, none, some, List, [], ◌∷◌, ◌++◌,
  ◌==◌, nat_eq, string_eq, if◌then◌else◌, leb, Exc, adapter_execution_error, exception, Call, ◌>>=◌,
  ◌>>◌, pure, fail, raise_if,
}
use autonomous_vehicle_llm.Float.{FloatOps}
use autonomous_vehicle_llm.Text.{TextOps, chars, of_chars}
use autonomous_vehicle_llm.Json.{
  Value, Items, Fields, bool, int, float, str, arr, obj, nil, cons, end, field, get, has, as_obj,
  as_str,
}
use autonomous_vehicle_llm.Values.{ValueOps, float_of, bool_at}
use Prim.Native.Char.{Char, code}

abbrev pub max_ℕ : ℕ → ℕ → ℕ
max_ℕ m n = if leb m n then n else m

abbrev mutual
  pub depth : {F : Type 0} → Value F → ℕ
  depth (arr vs) = suc (items_depth vs)
  depth (obj d) = suc (fields_depth d)
  depth v = 1

  pub items_depth : {F : Type 0} → Items F → ℕ
  items_depth nil = 0
  items_depth (cons v vs) = max_ℕ (depth v) (items_depth vs)

  pub fields_depth : {F : Type 0} → Fields F → ℕ
  fields_depth end = 0
  fields_depth (field k v d) = max_ℕ (depth v) (fields_depth d)

-- `s.replace("Z", "+00:00")`
abbrev pub replace_z : List Char → List Char
replace_z [] = []
replace_z (c ∷ cs) = if code c == b'Z' then chars "+00:00" ++ replace_z cs else c ∷ replace_z cs

abbrev pub normalized : String → String
normalized s = of_chars (replace_z (chars s))

abbrev pub failed_at : String → String → Exc
failed_at path what =
    adapter_execution_error ("schema validation failed at " <> path <> ": " <> what)

module _ {F : Type 0} where
  -- `schema.get("type") == name`
  abbrev pub type_is : String → Fields F → Bool
  type_is name schema = elim (as_str (get "type" schema)) [ none ↦ false | some t ↦ t == name ]

  -- `isinstance(v, (int, float))`, of which a truth value is one
  abbrev pub is_number : Value F → Bool
  is_number (int n) = true
  is_number (float x) = true
  is_number (bool b) = true
  is_number v = false

  abbrev pub number_at : String → Fields F → Option (Value F)
  number_at k d = elim (get k d) [ none ↦ none | some v ↦ if is_number v then some v else none ]

  -- The loop over `required`.
  abbrev pub check_required : {S : Type 0} → Items F → Fields F → String → Call S (Unit {0})
  check_required nil value path = pure tt
  check_required (cons (str key) vs) value path =
      raise_if (not (has key value)) (failed_at path ("missing '" <> key <> "'"))
      >> check_required vs value path
  check_required (cons v vs) value path = check_required vs value path

  abbrev pub required_of : {S : Type 0} → Option (Value F) → Fields F → String → Call S (Unit {0})
  required_of (some (arr vs)) value path = check_required vs value path
  required_of o value path = pure tt

  -- The loop over the keys of a value.
  abbrev pub check_known : {S : Type 0} → Fields F → Fields F → String → Call S (Unit {0})
  check_known end properties path = pure tt
  check_known (field key v d) properties path =
      raise_if (not (has key properties)) (failed_at path ("unexpected field '" <> key <> "'"))
      >> check_known d properties path

  abbrev pub unless_additional :
      {S : Type 0} → Bool → Fields F → Fields F → String → Call S (Unit {0})
  unless_additional true value properties path = pure tt
  unless_additional false value properties path = check_known value properties path

  abbrev pub properties_of : Option (Fields F) → Fields F
  properties_of none = end
  properties_of (some d) = d

module _ {F : Type 0} ⦃fl : FloatOps F⦄ ⦃vo : ValueOps F⦄ ⦃tx : TextOps⦄
    (from_iso : String → Option F) where
  -- `datetime.fromisoformat(s.replace("Z", "+00:00")).timestamp()`, which may raise
  abbrev pub parse_or_raise : {S : Type 0} → String → Exc → Call S F
  parse_or_raise s e = elim (from_iso (normalized s)) [ none ↦ fail e | some ts ↦ pure ts ]

  abbrev pub parse_timestamp : {S : Type 0} → String → Call S (Unit {0})
  parse_timestamp s =
      parse_or_raise s (adapter_execution_error "schema validation failed: invalid timestamp")
      >>= λ ts. pure tt

  abbrev pub check_minimum : {S : Type 0} → Value F → Option (Value F) → String → Call S (Unit {0})
  check_minimum value none path = pure tt
  check_minimum value (some minimum) path = float_of value >>= λ x.
      float_of minimum >>= λ m. raise_if (fl.lt x m) (failed_at path "below minimum")

  abbrev pub check_maximum : {S : Type 0} → Value F → Option (Value F) → String → Call S (Unit {0})
  check_maximum value none path = pure tt
  check_maximum value (some maximum) path = float_of value >>= λ x.
      float_of maximum >>= λ m. raise_if (fl.lt m x) (failed_at path "above maximum")

  abbrev pub check_limits : {S : Type 0} → Value F → Fields F → String → Call S (Unit {0})
  check_limits value schema path =
      check_minimum value (number_at "minimum" schema) path
      >> check_maximum value (number_at "maximum" schema) path

  abbrev pub check_number : {S : Type 0} → Value F → Fields F → String → Call S (Unit {0})
  check_number (int n) schema path = check_limits (int n) schema path
  check_number (float x) schema path = check_limits (float x) schema path
  check_number v schema path = fail (failed_at path "expected number")

  abbrev pub is_date_time : Option String → Bool
  is_date_time none = false
  is_date_time (some s) = s == "date-time"

  abbrev pub check_string : {S : Type 0} → Value F → Fields F → String → Call S (Unit {0})
  check_string (str s) schema path =
      if is_date_time (as_str (get "format" schema)) then parse_timestamp s else pure tt
  check_string v schema path = fail (failed_at path "expected string")

  abbrev pub check_boolean : {S : Type 0} → Value F → String → Call S (Unit {0})
  check_boolean (bool b) path = pure tt
  check_boolean v path = fail (failed_at path "expected boolean")

  -- `f"{expected_type}"`
  abbrev pub type_text : Option (Value F) → String
  type_text none = "None"
  type_text (some v) = vo.to_str v

  module _ {S : Type 0} (node : Value F → Fields F → String → Call S (Unit {0})) where
    abbrev pub check_child :
        Option (Value F) → Option (Fields F) → String → String → Call S (Unit {0})
    check_child (some v) (some child) key path = node v child (path <> "." <> key)
    check_child v child key path = pure tt

    -- The loop over the properties of a schema.
    abbrev pub check_properties : Fields F → Fields F → String → Call S (Unit {0})
    check_properties end value path = pure tt
    check_properties (field key child properties) value path =
        check_child (get key value) (as_obj (some child)) key path
        >> check_properties properties value path

    abbrev pub check_object : Value F → Fields F → String → Call S (Unit {0})
    check_object (obj value) schema path =
        required_of (get "required" schema) value path
        >> unless_additional (bool_at "additionalProperties" true schema) value
            (properties_of (as_obj (get "properties" schema))) path
        >> check_properties (properties_of (as_obj (get "properties" schema))) value path
    check_object v schema path = fail (failed_at path "expected object")

    -- The loop over the entries of a list.
    abbrev pub check_entries : Items F → ℕ → Fields F → String → Call S (Unit {0})
    check_entries nil index schema path = pure tt
    check_entries (cons v vs) index schema path =
        node v schema (path <> "[" <> tx.str_of_nat index <> "]")
        >> check_entries vs (index + 1) schema path

    abbrev pub check_items : Items F → Option (Fields F) → String → Call S (Unit {0})
    check_items vs none path = fail (failed_at path "invalid items schema")
    check_items vs (some schema) path = check_entries vs 0 schema path

    abbrev pub check_array : Value F → Fields F → String → Call S (Unit {0})
    check_array (arr vs) schema path = check_items vs (as_obj (get "items" schema)) path
    check_array v schema path = fail (failed_at path "expected array")

    abbrev pub check_type : Value F → Fields F → String → Call S (Unit {0})
    check_type value schema path =
        if type_is "object" schema
        then check_object value schema path
        else (if type_is "array" schema
            then check_array value schema path
            else (if type_is "string" schema
                then check_string value schema path
                else (if type_is "number" schema
                    then check_number value schema path
                    else (if type_is "boolean" schema
                        then check_boolean value path
                        else fail (
                            adapter_execution_error (
                              "unsupported schema type at "
                              <> path
                              <> ": "
                              <> type_text (get "type" schema)))))))

  unfoldable pub validate_node : {S : Type 0} → ℕ → Value F → Fields F → String → Call S (Unit {0})
  validate_node zero value schema path = fail (exception "RecursionError")
  validate_node (suc fuel) value schema path = check_type (validate_node fuel) value schema path

  unfoldable pub validate : {S : Type 0} → Fields F → Fields F → Call S (Unit {0})
  validate schema payload = validate_node (depth (obj payload)) (obj payload) schema "$"
