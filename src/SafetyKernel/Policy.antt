-- ===== src/SafetyKernel/Policy.antt =====
-- The policy behind `precheck` (src/autonomy/safety_kernel.py), stated without the order of tests.
use autonomous_vehicle_llm.Base.{true, false, ◌≡◌, ◌↔◌, ◌≢◌, none, some, arith}
use autonomous_vehicle_llm.Float.{FloatOps}
use autonomous_vehicle_llm.Models.{Action, move_to, disarm, VehicleState, PolicyConfig}
use autonomous_vehicle_llm.SafetyKernel.{precheck, check_move, check_disarm, is_below}

module _ {F : Type 0} ⦃fl : FloatOps F⦄ (cfg : PolicyConfig F) (s : VehicleState F) where
  -- A move has a speed within the limit and a target inside the geofence; the battery suffices, and
  -- no obstacle is known to be nearer than the standoff distance.
  pub record MayMove (a : Action F) : Type 0 where
    pub speed : (v : F) × (a.speed_mps ≡ some v) × (fl.lt cfg.max_speed_mps v ≡ false)
    pub charged : fl.lt s.battery_pct cfg.min_battery_for_motion_pct ≡ false
    pub clear : is_below s.nearest_obstacle_distance_m cfg.min_obstacle_standoff_m ≡ false
    pub target_x : (x : F) × (a.x ≡ some x) × (fl.lt cfg.geofence_abs_xy_limit_m (fl.abs x) ≡ false)
    pub target_y : (y : F) × (a.y ≡ some y) × (fl.lt cfg.geofence_abs_xy_limit_m (fl.abs y) ≡ false)

  pub record IsPermitted (a : Action F) : Type 0 where
    pub connected : s.connected ≡ true
    pub localized : fl.lt cfg.max_localization_std_m s.position_std_m ≡ false
    pub fresh : fl.lt cfg.max_sensor_staleness_s s.sensor_age_s ≡ false
    pub move : a.type ≡ move_to → MayMove a
    pub home :
        a.type ≡ disarm
        → (fl.lt (fl.lit 1 2) (fl.abs s.x) ≡ false) × (fl.lt (fl.lit 1 2) (fl.abs s.y) ≡ false)

  check_move-MayMove : (a : Action F) → check_move cfg s a ≡ none → MayMove a
  unfolding check_move
  check_move-MayMove a h = ground arith

  MayMove-check_move : (a : Action F) → MayMove a → check_move cfg s a ≡ none
  unfolding check_move
  MayMove-check_move a h = ground arith

  precheck_sound : (a : Action F) → precheck cfg s a ≡ (true, none) → IsPermitted a
  unfolding precheck check_disarm
  precheck_sound a h = record {
    connected = ground arith;
    localized = ground arith;
    fresh = ground arith;
    move = λ m. check_move-MayMove a (ground arith);
    home = λ d. ground arith;
  }

  precheck_complete : (a : Action F) → IsPermitted a → precheck cfg s a ≡ (true, none)
  unfolding precheck check_disarm
  precheck_complete a p =
      ground (arith, p.move, p.home, λ (m : a.type ≡ move_to). MayMove-check_move a (p.move m))

  -- An action passes the checks exactly if the policy permits it in the checked state, and then no
  -- reason is given; a refusal always gives one.
  pub precheck-IsPermitted :
      (a : Action F)
      → ((precheck cfg s a ≡ (true, none)) ↔ IsPermitted a)
        × ((precheck cfg s a).0 ≡ false → (precheck cfg s a).1 ≢ none)
        × ((precheck cfg s a).0 ≡ true → (precheck cfg s a).1 ≡ none)
  unfolding precheck check_disarm
  precheck-IsPermitted a =
      ((precheck_sound a, precheck_complete a), λ h k. ground arith, λ h. ground arith)

  pub IsPermitted-of_true : (a : Action F) → (precheck cfg s a).0 ≡ true → IsPermitted a
  IsPermitted-of_true a h =
      (precheck-IsPermitted a).0.0 (λ i. (h i, (precheck-IsPermitted a).2 h i))
