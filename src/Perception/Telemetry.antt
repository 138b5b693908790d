-- ===== src/Perception/Telemetry.antt =====
-- The pipeline from a telemetry event to a frame (src/autonomy/perception.py). The source of
-- events is a call on the outside.
use autonomous_vehicle_llm.Base.{
  String, Bool, false, ◌&&◌, Option, none, some, List, [], ◌∷◌, ◌++◌, map, length, if◌then◌else◌,
  ok, adapter_execution_error, Call, ◌>>=◌, ◌>>◌, pure, fail,
}
use autonomous_vehicle_llm.Base.Int.{pos}
use autonomous_vehicle_llm.Float.{FloatOps, py_max, py_min}
use autonomous_vehicle_llm.Text.{TextOps}
use autonomous_vehicle_llm.Json.{Value, Items, Fields, arr, obj, nil, cons, get, has, as_str}
use autonomous_vehicle_llm.Values.{ValueOps, text_or_default, float_of, bool_at}
use autonomous_vehicle_llm.Perception.{
  DetectedObstacle, PerceptionFrame, TrackingSummary, empty_frame,
}
use autonomous_vehicle_llm.Perception.Tracker.{ObstacleTracker, update, non_empty}
use autonomous_vehicle_llm.Perception.Schema.{is_number, number_at, parse_or_raise, validate}

pub record TelemetryOutside (F S : Type 0) : Type 0 where
  -- `telemetry_source()`
  pub telemetry_source : Call S (Option (Fields F))
  -- `time.time()`
  pub clock : Call S F
  -- `datetime.fromisoformat(s).timestamp()`, which may raise a `ValueError`
  pub from_iso : String → Option F
  -- `sum(xs)`, which rounds in its own way
  pub sum : List F → F

pub record TelemetryPipeline (F S : Type 0) : Type 0 where
  pub world : S
  pub tracker : ObstacleTracker F

module _ {F : Type 0} ⦃fl : FloatOps F⦄ where
  abbrev pub scaled : F → F
  scaled x = if fl.lt (fl.lit 1 0) x && fl.le x (fl.lit 100 0) then fl.div x (fl.lit 100 0) else x

  abbrev pub clamped : F → F
  clamped x = py_min (py_max x (fl.lit 0 0)) (fl.lit 1 0)

module _ {F : Type 0} ⦃fl : FloatOps F⦄ ⦃vo : ValueOps F⦄ where
  unfoldable pub normalize_confidence : {S : Type 0} → Option (Value F) → Call S F
  normalize_confidence none = pure (fl.lit 1 0)
  normalize_confidence (some v) =
      if is_number v then float_of v >>= (λ x. pure (clamped (scaled x))) else pure (fl.lit 1 0)

  abbrev pub detected : Fields F → F → F → F → F → DetectedObstacle F
  detected d confidence x y radius = record {
    x = x;
    y = y;
    radius_m = py_max (fl.lit 0 0) radius;
    confidence = confidence;
    source = text_or_default "source" "lidar" d;
    track_id = non_empty (as_str (get "object_id" d));
    class_label = text_or_default "class_label" "unknown" d;
    vx_mps = none;
    vy_mps = none;
    age_frames = 1;
  }

  abbrev pub numbers_of :
      {S : Type 0} → Fields F → Value F → Value F → Value F → F → Call S (DetectedObstacle F)
  numbers_of d x y radius confidence = float_of x >>= λ px.
      float_of y >>= λ py. float_of radius >>= λ r. pure (detected d confidence px py r)

  -- An entry with the three numbers, which are read after its confidence; a confidence that is not
  -- there is 1.
  abbrev pub obstacle_of :
      {S : Type 0} → Fields F → Value F → Value F → Value F → Call S (DetectedObstacle F)
  obstacle_of d x y radius = normalize_confidence (get "confidence" d) >>= numbers_of d x y radius

  -- None or one.
  abbrev pub obstacle_in :
      {S : Type 0}
      → Fields F
      → Option (Value F)
      → Option (Value F)
      → Option (Value F)
      → Call S (List (DetectedObstacle F))
  obstacle_in d (some x) (some y) (some radius) =
      obstacle_of d x y radius >>= λ obstacle. pure (obstacle ∷ [])
  obstacle_in d x y radius = pure []

  -- The loop; an entry that is no dictionary, or has no numbers, is passed over. What raises first
  -- ends the loop.
  unfoldable pub parse_items : {S : Type 0} → Items F → Call S (List (DetectedObstacle F))
  parse_items nil = pure []
  parse_items (cons (obj d) vs) =
      obstacle_in d (number_at "x" d) (number_at "y" d) (number_at "radius_m" d) >>= λ found.
      parse_items vs >>= λ rest. pure (found ++ rest)
  parse_items (cons v vs) = parse_items vs

  abbrev pub parse_obstacles : {S : Type 0} → Option (Value F) → Call S (List (DetectedObstacle F))
  parse_obstacles (some (arr vs)) = parse_items vs
  parse_obstacles o = pure []

  abbrev pub sensor_health : Fields F → List (String × Bool)
  sensor_health event =
      ("gps", has "gps_x" event && has "gps_y" event)
      ∷ ("imu", has "imu_vx_mps" event && has "imu_vy_mps" event)
      ∷ ("lidar", bool_at "lidar_obstacles" false event)
      ∷ []

module _ {F S : Type 0} ⦃fl : FloatOps F⦄ (out : TelemetryOutside F S) where
  abbrev pub tracking_summary : List (DetectedObstacle F) → TrackingSummary F
  tracking_summary [] = record { tracked_count = 0; avg_confidence = fl.lit 0 0 }
  tracking_summary (o ∷ os) = record {
    tracked_count = length (o ∷ os);
    avg_confidence =
        fl.div (out.sum (map (λ o. o.confidence) (o ∷ os))) (fl.of_int (pos (length (o ∷ os))));
  }

  -- A call of the outside.
  abbrev pub on_source : {A : Type 0} → Call S A → Call (TelemetryPipeline F S) A
  on_source m p = let (r, w) = m p.world in (r, record p { world = w })

module _ {F S : Type 0} ⦃fl : FloatOps F⦄ ⦃tx : TextOps⦄ ⦃vo : ValueOps F⦄
    (out : TelemetryOutside F S) (schema : Fields F) where
  abbrev pub timestamp_of : {T : Type 0} → Option String → Call T F
  timestamp_of none = fail (adapter_execution_error "telemetry timestamp missing")
  timestamp_of (some s) =
      parse_or_raise out.from_iso s (adapter_execution_error "telemetry timestamp invalid")

  -- `self.tracker.update(obstacles, timestamp)`
  abbrev pub track :
      List (DetectedObstacle F) → F → Call (TelemetryPipeline F S) (List (DetectedObstacle F))
  track obstacles timestamp p =
      let (tracked, t) = update obstacles timestamp p.tracker in
      (ok tracked, record p { tracker = t })

  abbrev pub frame_of : Fields F → F → List (DetectedObstacle F) → PerceptionFrame F
  frame_of event timestamp tracked = record {
    timestamp_s = timestamp;
    obstacles = tracked;
    sensor_health = sensor_health event;
    telemetry = event;
    tracking_summary = some (tracking_summary out tracked);
  }

  -- From the time of a valid event on.
  abbrev pub observe_at : Fields F → F → Call (TelemetryPipeline F S) (PerceptionFrame F)
  observe_at event timestamp = parse_obstacles (get "lidar_obstacles" event) >>= λ obstacles.
      track obstacles timestamp >>= λ tracked. pure (frame_of event timestamp tracked)

  abbrev pub observe_event : Option (Fields F) → Call (TelemetryPipeline F S) (PerceptionFrame F)
  observe_event none = on_source out out.clock >>= λ timestamp. pure (empty_frame timestamp)
  observe_event (some event) =
      validate out.from_iso schema event
      >> timestamp_of (as_str (get "timestamp" event))
      >>= observe_at event

  unfoldable pub observe : Call (TelemetryPipeline F S) (PerceptionFrame F)
  observe = on_source out out.telemetry_source >>= observe_event
