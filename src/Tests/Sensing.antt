-- ===== src/Tests/Sensing.antt =====
-- A telemetry event with one obstacle, seen through the pipeline, and a tracker of three tracks.
use autonomous_vehicle_llm.Base.{
  ℕ, ◌≡◌, refl, none, some, List, [], ◌∷◌, All, map, Result, ok, raise, adapter_execution_error,
}
use autonomous_vehicle_llm.Base.Int.{pos, negsuc}
use autonomous_vehicle_llm.Base.Post.{Post}
use autonomous_vehicle_llm.Float.Hundredths.{
  Hundredths, hundredths, hundredths_ops, Hundredths-IsOrdered,
}
use autonomous_vehicle_llm.Json.{remove, Fields, int, str, arr, obj, nil, cons, end, field}
use autonomous_vehicle_llm.Perception.{DetectedObstacle, PerceptionFrame}
use autonomous_vehicle_llm.Perception.Tracker.{
  TrackState, ObstacleTracker, obstacle_tracker, update, track_all, assign_track_id,
  nearest_associated_track,
}
use autonomous_vehicle_llm.Perception.Schema.{validate_node, validate}
use autonomous_vehicle_llm.Perception.Telemetry.{
  TelemetryOutside, TelemetryPipeline, observe, parse_items, normalize_confidence,
}
use autonomous_vehicle_llm.Perception.Association.{
  IsAssociated, nearest_associated_track-IsAssociated,
}
use autonomous_vehicle_llm.Perception.Bounds.{IsBounded, observe-IsBounded}
use autonomous_vehicle_llm.Perception.Conforms.{Conforms}
use autonomous_vehicle_llm.Perception.Conforms.Accepted.{validate-Conforms}
use autonomous_vehicle_llm.Tests.Texts.{sample_texts, sample_values}

-- Its radius is below 0, and its confidence is a percentage.
abbrev obstacle : Fields Hundredths
obstacle = field "x" (int (pos 3)) (
    field "y" (int (pos 4))
      (field "radius_m" (int (negsuc 0)) (field "confidence" (int (pos 80)) end)))

abbrev event : Fields Hundredths
event = field "timestamp" (str "now") (field "lidar_obstacles" (arr (cons (obj obstacle) nil)) end)

abbrev sample_schema : Fields Hundredths
sample_schema = field "type" (str "object") (
    field "required" (arr (cons (str "timestamp") nil)) (
      field "properties"
        (obj (
          field "lidar_obstacles"
            (obj (
              field "type" (str "array")
                (field "items" (obj (field "type" (str "object") end)) end)))
            end))
        end))

abbrev outside : TelemetryOutside Hundredths (Unit {0})
outside = record {
  telemetry_source = λ s. (ok (some event), s);
  clock = λ s. (ok (hundredths (pos 0)), s);
  from_iso = λ s. some (hundredths (pos 700));
  sum = λ xs. hundredths (pos 80);
}

abbrev pipeline : TelemetryPipeline Hundredths (Unit {0})
pipeline = record {
  world = tt;
  tracker = obstacle_tracker (hundredths (pos 300)) (hundredths (pos 200));
}

observe-IsBounded_example :
    Post
      (λ frame q. All IsBounded frame.obstacles)
      (λ e q. Unit)
      (observe outside sample_schema pipeline)
observe-IsBounded_example = observe-IsBounded outside sample_schema Hundredths-IsOrdered pipeline

-- The event conforms; without its timestamp it does not.
accepted : validate outside.from_iso {S = Unit} sample_schema event tt ≡ (ok tt, tt)
unfolding validate validate_node
accepted = refl

validate-Conforms_example : Conforms outside.from_iso (obj event) sample_schema
validate-Conforms_example = validate-Conforms outside.from_iso sample_schema event tt tt accepted

missing :
    validate outside.from_iso {S = Unit} sample_schema (remove "timestamp" event) tt
    ≡ (raise (adapter_execution_error "schema validation failed at $: missing 'timestamp'"), tt)
unfolding validate validate_node
missing = refl

abbrev seen : Result (PerceptionFrame Hundredths) → List (Hundredths × Hundredths)
seen (ok frame) = map (λ o. (o.confidence, o.radius_m)) frame.obstacles
seen (raise e) = []

observed :
    seen (observe outside sample_schema pipeline).0 ≡ (hundredths (pos 80), hundredths (pos 0)) ∷ []
unfolding observe validate validate_node parse_items normalize_confidence update track_all
    assign_track_id nearest_associated_track
observed = refl

abbrev track_at : ℕ → TrackState Hundredths
track_at n = record {
  x = hundredths (pos n);
  y = hundredths (pos 0);
  timestamp_s = hundredths (pos 0);
  source = "lidar";
  age_frames = 1;
}

abbrev tracking : ObstacleTracker Hundredths
tracking = record pipeline.tracker {
  tracks =
      ("lidar-0001", track_at 200) ∷ ("lidar-0002", track_at 50) ∷ ("lidar-0003", track_at 10) ∷ [];
}

abbrev detection : DetectedObstacle Hundredths
detection = record {
  x = hundredths (pos 0);
  y = hundredths (pos 0);
  radius_m = hundredths (pos 50);
  confidence = hundredths (pos 90);
  source = "lidar";
  track_id = none;
  class_label = "unknown";
  vx_mps = none;
  vy_mps = none;
  age_frames = 1;
}

-- The nearest of the three tracks is taken already.
associated : nearest_associated_track tracking detection ("lidar-0003" ∷ []) ≡ some "lidar-0002"
unfolding nearest_associated_track
associated = refl

nearest_associated_track-IsAssociated_example :
    IsAssociated tracking detection
      ("lidar-0003" ∷ [])
      (nearest_associated_track tracking detection ("lidar-0003" ∷ []))
nearest_associated_track-IsAssociated_example =
    nearest_associated_track-IsAssociated Hundredths-IsOrdered tracking detection
      ("lidar-0003" ∷ [])
