-- ===== src/Perception/Conforms.antt =====
-- What the validator of telemetry (src/autonomy/perception.py) accepts, against a description of the
-- payloads that conform to a schema.
pub mod Ensuring
pub mod Entries
pub mod Parts
pub mod Accepted
use autonomous_vehicle_llm.Base.{String, Bool, true, false, ◌≡◌, ◌≢◌, ◌⊎◌, Option, none, some}
use autonomous_vehicle_llm.Float.{FloatOps}
use autonomous_vehicle_llm.Json.{
  Value, Items, Fields, bool, int, float, str, arr, obj, nil, cons, end, field, get, has, as_obj,
}
use autonomous_vehicle_llm.Values.{ValueOps, bool_at}
use autonomous_vehicle_llm.Perception.Schema.{normalized, is_number, properties_of}

module _ {F : Type 0} where
  -- A dictionary has the entry; a list has the element.
  abbrev pub IsField : String → Value F → Fields F → Type 0
  IsField key v end = ⊥
  IsField key v (field j w d) = ((j ≡ key) × (w ≡ v)) ⊎ IsField key v d

  abbrev pub IsItem : Value F → Items F → Type 0
  IsItem v nil = ⊥
  IsItem v (cons w vs) = (w ≡ v) ⊎ IsItem v vs

  -- `type` in a schema is the name.
  abbrev pub HasType : String → Fields F → Type 0
  HasType name schema = get "type" schema ≡ some (str name)

  -- A number that is no truth value.
  abbrev pub IsNumber : Value F → Type 0
  IsNumber (int n) = Unit
  IsNumber (float x) = Unit
  IsNumber v = ⊥

module _ {F : Type 0} ⦃fl : FloatOps F⦄ ⦃vo : ValueOps F⦄ (from_iso : String → Option F) where
  -- Neither below the schema's minimum nor above its maximum, where they are numbers.
  pub record IsWithin (v : Value F) (schema : Fields F) : Type 0 where
    pub minimum :
        (m : Value F) (x y : F)
        → get "minimum" schema ≡ some m
        → is_number m ≡ true
        → vo.to_float v ≡ some x
        → vo.to_float m ≡ some y
        → fl.lt x y ≡ false
    pub maximum :
        (m : Value F) (x y : F)
        → get "maximum" schema ≡ some m
        → is_number m ≡ true
        → vo.to_float v ≡ some x
        → vo.to_float m ≡ some y
        → fl.lt y x ≡ false

  pub data Conforms : Value F → Fields F → Type 0 where
    object :
        (value schema : Fields F)
        → HasType "object" schema
        → ((vs : Items F) (key : String)
            → get "required" schema ≡ some (arr vs)
            → IsItem (str key) vs
            → has key value ≡ true)
        → (bool_at "additionalProperties" true schema ≡ false
            → (key : String) (v : Value F) → IsField key v value
            → has key (properties_of (as_obj (get "properties" schema))) ≡ true)
        → ((properties child : Fields F) (key : String) (v : Value F)
            → get "properties" schema ≡ some (obj properties)
            → IsField key (obj child) properties
            → get key value ≡ some v
            → Conforms v child)
        → Conforms (obj value) schema
    array :
        (vs : Items F) (schema item : Fields F)
        → HasType "array" schema
        → get "items" schema ≡ some (obj item)
        → ((v : Value F) → IsItem v vs → Conforms v item)
        → Conforms (arr vs) schema
    string :
        (s : String) (schema : Fields F)
        → HasType "string" schema
        → (get "format" schema ≡ some (str "date-time") → from_iso (normalized s) ≢ none)
        → Conforms (str s) schema
    number :
        (v : Value F) (schema : Fields F)
        → HasType "number" schema
        → IsNumber v
        → IsWithin v schema
        → Conforms v schema
    boolean : (b : Bool) (schema : Fields F) → HasType "boolean" schema → Conforms (bool b) schema
