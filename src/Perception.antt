-- ===== src/Perception.antt =====
-- The frame that a perception pipeline delivers (src/autonomy/perception.py).
pub mod Tracker
pub mod Schema
pub mod Telemetry
pub mod Association
pub mod Bounds
pub mod Depth
pub mod Conforms
use autonomous_vehicle_llm.Base.{ℕ, String, Bool, Option, List, [], Dict}
use autonomous_vehicle_llm.Json.{Fields, end}

pub record DetectedObstacle (F : Type 0) : Type 0 where
  pub x : F
  pub y : F
  pub radius_m : F
  pub confidence : F
  pub source : String
  pub track_id : Option String
  pub class_label : String
  pub vx_mps : Option F
  pub vy_mps : Option F
  pub age_frames : ℕ

-- `tracking_summary`; it is empty in a frame that no event stands behind.
pub record TrackingSummary (F : Type 0) : Type 0 where
  pub tracked_count : ℕ
  pub avg_confidence : F

pub record PerceptionFrame (F : Type 0) : Type 0 where
  pub timestamp_s : F
  pub obstacles : List (DetectedObstacle F)
  pub sensor_health : Dict Bool
  pub telemetry : Fields F
  pub tracking_summary : Option (TrackingSummary F)

-- `PerceptionFrame(timestamp_s=t)`
abbrev pub empty_frame : {F : Type 0} → F → PerceptionFrame F
empty_frame timestamp = record {
  timestamp_s = timestamp;
  obstacles = [];
  sensor_health = [];
  telemetry = end;
  tracking_summary = Option.none;
}
