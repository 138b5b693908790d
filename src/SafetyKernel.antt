-- ===== src/SafetyKernel.antt =====
-- The deterministic policy checks (src/autonomy/safety_kernel.py). A refusal carries its reason.
pub mod Policy
use autonomous_vehicle_llm.Base.{
  String, Bool, true, false, not, ◌&&◌, ◌||◌, Option, none, some, ◌==◌, if◌then◌else◌,
}
use autonomous_vehicle_llm.Float.{FloatOps}
use autonomous_vehicle_llm.Models.{
  Action, ActionType, move_to, disarm, return_to_home, type_eq, bare, VehicleState, PolicyConfig,
}

module _ {F : Type 0} ⦃fl : FloatOps F⦄ where
  -- `speed is None or speed > limit`
  abbrev pub exceeds : Option F → F → Bool
  exceeds none limit = true
  exceeds (some v) limit = fl.lt limit v

  -- `d is not None and d < limit`
  abbrev pub is_below : Option F → F → Bool
  is_below none limit = false
  is_below (some d) limit = fl.lt d limit

  -- The tests of the target, once it is known not to be missing.
  abbrev check_target : PolicyConfig F → Option F → Option F → Option String
  check_target cfg none y = some "missing move target"
  check_target cfg (some x) none = some "missing move target"
  check_target cfg (some x) (some y) =
      if fl.lt cfg.geofence_abs_xy_limit_m (fl.abs x)
      then some "target x out of geofence"
      else if fl.lt cfg.geofence_abs_xy_limit_m (fl.abs y)
      then some "target y out of geofence"
      else none

  -- The block under `if action.type == ActionType.MOVE_TO`: the reason of the refusal, if any.
  unfoldable pub check_move : PolicyConfig F → VehicleState F → Action F → Option String
  check_move cfg s a =
      if exceeds a.speed_mps cfg.max_speed_mps
      then some "speed exceeds policy"
      else if fl.lt s.battery_pct cfg.min_battery_for_motion_pct
      then some "battery below motion threshold"
      else if is_below s.nearest_obstacle_distance_m cfg.min_obstacle_standoff_m
      then some "obstacle standoff violated"
      else check_target cfg a.x a.y

  -- The last test, on the way to `return True, None`.
  unfoldable pub check_disarm : VehicleState F → Action F → Bool × Option String
  check_disarm s a =
      if a.type == disarm && (fl.lt (fl.lit 1 2) (fl.abs s.x) || fl.lt (fl.lit 1 2) (fl.abs s.y))
      then (false, some "cannot disarm away from home")
      else (true, none)

  unfoldable pub precheck : PolicyConfig F → VehicleState F → Action F → Bool × Option String
  precheck cfg s a =
      if not s.connected
      then (false, some "vehicle disconnected")
      else if fl.lt cfg.max_localization_std_m s.position_std_m
      then (false, some "localization uncertainty above threshold")
      else if fl.lt cfg.max_sensor_staleness_s s.sensor_age_s
      then (false, some "sensor data stale")
      else elim (if a.type == move_to then check_move cfg s a else none) [
        | some reason ↦ (false, some reason)
        | none ↦ check_disarm s a
      ]

-- `fallback_action`
abbrev pub fallback_action : {F : Type 0} → Action F
fallback_action = bare return_to_home
