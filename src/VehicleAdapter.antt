-- ===== src/VehicleAdapter.antt =====
-- The adapters that carry actions out (src/autonomy/vehicle_adapter.py): the simulated vehicles,
-- and those that send each action over a transport first. `S` is the state of what is outside.
use autonomous_vehicle_llm.Base.{
  String, Bool, true, false, Option, none, some, ◌==◌, if◌then◌else◌, Call, pure, fail, handle,
  adapter_execution_error, exc_text,
}
use autonomous_vehicle_llm.Float.{FloatOps, py_max}
use autonomous_vehicle_llm.Json.{Value, Fields, null, float, str, end, field}
use autonomous_vehicle_llm.Models.{
  Action, arm, move_to, hold, return_to_home, disarm, type_eq, value, VehicleState,
  CapabilityProfile, ground_domain, aerial, marine,
}

-- The class `VehicleAdapter`.
pub record VehicleAdapter (F : Type 0) (S : Type 0) : Type 0 where
  pub capability_profile : CapabilityProfile F
  pub execute : VehicleState F → Action F → Call S (VehicleState F)

unfoldable pub supports : {F S : Type 0} → VehicleAdapter F S → Action F → Bool
supports ad a =
    if a.type == return_to_home then ad.capability_profile.supports_return_to_home else true

module _ {F : Type 0} ⦃fl : FloatOps F⦄ where
  -- `max(0.0, state.battery_pct - drop)`
  abbrev pub drained : VehicleState F → F → F
  drained s drop = py_max (fl.lit 0 1) (fl.sub s.battery_pct drop)

  abbrev pub moved : VehicleState F → Option F → Option F → VehicleState F
  moved s none y = s
  moved s (some x) none = s
  moved s (some x) (some y) = record s { x = x; y = y; battery_pct = drained s (fl.lit 2 1) }

  -- `SimVehicleAdapter.execute`
  unfoldable pub sim_execute : VehicleState F → Action F → VehicleState F
  sim_execute s a = elim a.type [
    | arm ↦ record s { armed = true }
    | move_to ↦ moved s a.x a.y
    | hold ↦ record s { battery_pct = drained s (fl.lit 5 2) }
    | return_to_home ↦ record s { x = s.home_x; y = s.home_y; battery_pct = drained s (fl.lit 2 1) }
    | disarm ↦ record s { armed = false }
  ]

  abbrev pub ground_profile : CapabilityProfile F
  ground_profile = record {
    domain = ground_domain;
    max_speed_mps = fl.lit 70 1;
    supports_return_to_home = true;
  }

  abbrev pub aerial_profile : CapabilityProfile F
  aerial_profile = record {
    domain = aerial;
    max_speed_mps = fl.lit 150 1;
    supports_return_to_home = true;
  }

  abbrev pub marine_profile : CapabilityProfile F
  marine_profile = record {
    domain = marine;
    max_speed_mps = fl.lit 50 1;
    supports_return_to_home = true;
  }

  abbrev number_or_null : Option F → Value F
  number_or_null none = null
  number_or_null (some v) = float v

  abbrev pub command_payload : Action F → Fields F
  command_payload a = field "type" (str (value a.type)) (
      field "x" (number_or_null a.x)
        (field "y" (number_or_null a.y) (field "speed_mps" (number_or_null a.speed_mps) end)))

  module _ {S : Type 0} where
    -- `SimVehicleAdapter(capability_profile)`
    abbrev pub sim_adapter : CapabilityProfile F → VehicleAdapter F S
    sim_adapter profile = record {
      capability_profile = profile;
      execute = λ s a. pure (sim_execute s a);
    }

    -- `TransportVehicleAdapter.execute`, over `transport.send_command`
    unfoldable pub transport_execute :
        (String → Fields F → Call S (Unit {0}))
        → VehicleState F
        → Action F
        → Call S (VehicleState F)
    transport_execute send_command s a =
        handle (send_command s.vehicle_id (command_payload a)) (λ _. pure (sim_execute s a))
          (λ e. fail (adapter_execution_error (exc_text e)))

    abbrev pub transport_adapter :
        CapabilityProfile F → (String → Fields F → Call S (Unit {0})) → VehicleAdapter F S
    transport_adapter profile send_command = record {
      capability_profile = profile;
      execute = transport_execute send_command;
    }
