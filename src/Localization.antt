-- ===== src/Localization.antt =====
-- The estimate of the position (src/autonomy/localization.py). The time is an argument.
use autonomous_vehicle_llm.Base.{Bool, true, false, Option, none, some}
use autonomous_vehicle_llm.Float.{FloatOps, py_max, py_min}
use autonomous_vehicle_llm.Json.{Value, int, float, get}
use autonomous_vehicle_llm.Models.{VehicleState}
use autonomous_vehicle_llm.Perception.{PerceptionFrame}

pub record LocalizationEstimate (F : Type 0) : Type 0 where
  pub x : F
  pub y : F
  pub heading_rad : F
  pub vx_mps : F
  pub vy_mps : F
  pub position_std_m : F
  pub timestamp_s : F
  pub fresh : Bool

-- `FusedTelemetryLocalizationEngine`, with the clamped fields of its constructor
pub record FusedEngine (F : Type 0) : Type 0 where
  pub gps_blend_weight : F
  pub max_staleness_s : F

module _ {F : Type 0} ⦃fl : FloatOps F⦄ where
  -- The state's own values, at a time.
  abbrev pub estimate_of_state : VehicleState F → F → Bool → LocalizationEstimate F
  estimate_of_state s timestamp fresh = record {
    x = s.x;
    y = s.y;
    heading_rad = s.heading_rad;
    vx_mps = s.vx_mps;
    vy_mps = s.vy_mps;
    position_std_m = s.position_std_m;
    timestamp_s = timestamp;
    fresh = fresh;
  }

  -- `PassThroughLocalizationEngine.estimate`
  unfoldable pub pass_through_estimate :
      F → VehicleState F → Option (PerceptionFrame F) → LocalizationEstimate F
  pass_through_estimate now s none = estimate_of_state s now true
  pass_through_estimate now s (some frame) = estimate_of_state s frame.timestamp_s true

  -- `_number`: a whole number or a float, and no truth value
  abbrev pub number : Option (Value F) → F → F
  number (some (int n)) default = fl.of_int n
  number (some (float v)) default = v
  number _ default = default

  unfoldable pub fused_engine : F → F → FusedEngine F
  fused_engine gps_blend_weight max_staleness_s = record {
    gps_blend_weight = py_min (py_max gps_blend_weight (fl.lit 0 1)) (fl.lit 10 1);
    max_staleness_s = py_max (fl.lit 0 1) max_staleness_s;
  }

  -- `w * gps + (1 - w) * own`
  abbrev pub blend : F → F → F → F
  blend w gps own = fl.add (fl.mul w gps) (fl.mul (fl.sub (fl.lit 10 1) w) own)

  unfoldable pub fused_estimate :
      FusedEngine F → F → VehicleState F → Option (PerceptionFrame F) → LocalizationEstimate F
  fused_estimate e now s none = estimate_of_state s now false
  fused_estimate e now s (some frame) =
      let telemetry = frame.telemetry in
      let gps_x = number (get "gps_x" telemetry) (number (get "x" telemetry) s.x) in
      let gps_y = number (get "gps_y" telemetry) (number (get "y" telemetry) s.y) in
      let age_s = py_max (fl.lit 0 1) (fl.sub now frame.timestamp_s) in
      record {
        x = blend e.gps_blend_weight gps_x s.x;
        y = blend e.gps_blend_weight gps_y s.y;
        heading_rad = number (get "heading_rad" telemetry) s.heading_rad;
        vx_mps = number (get "imu_vx_mps" telemetry) s.vx_mps;
        vy_mps = number (get "imu_vy_mps" telemetry) s.vy_mps;
        position_std_m =
            py_max (fl.lit 0 1) (number (get "position_std_m" telemetry) s.position_std_m);
        timestamp_s = frame.timestamp_s;
        fresh = fl.le age_s e.max_staleness_s;
      }
