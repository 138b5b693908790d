-- ===== src/Perception/Depth.antt =====
-- The fuel of the validator of telemetry (src/autonomy/perception.py).
use autonomous_vehicle_llm.Base.{ℕ, ◌≤◌, String, ◌≡◌, Option, string_eq, Call}
use autonomous_vehicle_llm.Float.{FloatOps}
use autonomous_vehicle_llm.Text.{TextOps}
use autonomous_vehicle_llm.Json.{Value, Fields}
use autonomous_vehicle_llm.Values.{ValueOps}
use autonomous_vehicle_llm.Perception.Schema.{depth, validate_node}

module _ {F : Type 0} ⦃fl : FloatOps F⦄ ⦃vo : ValueOps F⦄ ⦃tx : TextOps⦄
    (from_iso : String → Option F) {S : Type 0} where
  -- Two ways to check a node agree on the values of at most a depth.
  abbrev Agree :
      ℕ
      → (Value F → Fields F → String → Call S (Unit {0}))
      → (Value F → Fields F → String → Call S (Unit {0}))
      → Type 0
  Agree k n m =
      (v : Value F)
      → depth v ≤ k
      → (schema : Fields F) (path : String) → n v schema path ≡ m v schema path

  -- The validator with as much fuel as the value is deep.
  abbrev pub at_depth : Value F → Fields F → String → Call S (Unit {0})
  at_depth v = validate_node from_iso (depth v) v
