-- ===== src/Perception/Bounds.antt =====
-- The radii and confidences of the obstacles in a frame (src/autonomy/perception.py).
use autonomous_vehicle_llm.Base.{
  String, true, ◌≡◌, Option, none, some, List, [], ◌∷◌, ◌++◌, All, All-append, Bool-cases, inl, inr,
  arith, ◌>>=◌, ◌>>◌, pure, Exc,
}
use autonomous_vehicle_llm.Base.Post.{Post, Post-bind, Post-any, after_any}
use autonomous_vehicle_llm.Float.{FloatOps, IsOrdered, py_max}
use autonomous_vehicle_llm.Text.{TextOps}
use autonomous_vehicle_llm.Json.{
  Value, Items, Fields, null, bool, int, float, str, arr, obj, nil, cons, get, as_str,
}
use autonomous_vehicle_llm.Values.{ValueOps, float_of}
use autonomous_vehicle_llm.Perception.{DetectedObstacle, PerceptionFrame, empty_frame}
use autonomous_vehicle_llm.Perception.Tracker.{ObstacleTracker, update, track_all, prune_expired}
use autonomous_vehicle_llm.Perception.Schema.{is_number, number_at, validate}
use autonomous_vehicle_llm.Perception.Telemetry.{
  TelemetryOutside, TelemetryPipeline, clamped, scaled, normalize_confidence, obstacle_of,
  numbers_of, detected, observe_at, obstacle_in, parse_items, parse_obstacles, track, frame_of,
  observe_event, observe, on_source, timestamp_of,
}

module _ {F : Type 0} ⦃fl : FloatOps F⦄ where
  -- A confidence between 0 and 1, unless it is a NaN, and a radius that is not negative.
  pub record IsBounded (o : DetectedObstacle F) : Type 0 where
    pub confidence :
        fl.le o.confidence o.confidence ≡ true
        → (fl.le (fl.lit 0 0) o.confidence ≡ true) × (fl.le o.confidence (fl.lit 1 0) ≡ true)
    pub radius : fl.le (fl.lit 0 0) o.radius_m ≡ true

  max_bound :
      IsOrdered F
      → (x : F) → fl.le (py_max x (fl.lit 0 0)) (py_max x (fl.lit 0 0)) ≡ true
      → fl.le (fl.lit 0 0) (py_max x (fl.lit 0 0)) ≡ true
  max_bound i x h = elim (Bool-cases (fl.lt x (fl.lit 0 0))) [
    | inl e ↦ rw e (i.lit_refl 0 0)
    | inr e ↦ rw e (i.le_of_not_lt x (fl.lit 0 0) (rw e at h) (i.lit_refl 0 0) e)
  ]

  clamped_bounds :
      IsOrdered F
      → (x : F) → fl.le (clamped x) (clamped x) ≡ true
      → (fl.le (fl.lit 0 0) (clamped x) ≡ true) × (fl.le (clamped x) (fl.lit 1 0) ≡ true)
  clamped_bounds i x h = elim (Bool-cases (fl.lt (fl.lit 1 0) (py_max x (fl.lit 0 0)))) [
    | inl e ↦ rw e (i.le-lit 0 1 (omega arith) (omega arith), i.lit_refl 1 0)
    | inr e ↦
        let m : fl.le (py_max x (fl.lit 0 0)) (py_max x (fl.lit 0 0)) ≡ true = rw e at h in
        rw e (
          max_bound i x m,
          i.le_of_not_lt (fl.lit 1 0) (py_max x (fl.lit 0 0)) (i.lit_refl 1 0) m e,
        )
  ]

  radius_bound : IsOrdered F → (r : F) → fl.le (fl.lit 0 0) (py_max (fl.lit 0 0) r) ≡ true
  radius_bound i r = elim (Bool-cases (fl.lt (fl.lit 0 0) r)) [
    | inl e ↦ rw e (i.le_of_lt (fl.lit 0 0) r e)
    | inr e ↦ rw e (i.lit_refl 0 0)
  ]

  track_all-IsBounded :
      ⦃tx : TextOps⦄ (timestamp : F) (obstacles : List (DetectedObstacle F))
      (assigned : List String) (t : ObstacleTracker F)
      → All IsBounded obstacles
      → All IsBounded (track_all timestamp obstacles assigned t).0
  unfolding track_all
  track_all-IsBounded timestamp [] assigned t h = tt
  track_all-IsBounded timestamp (o ∷ os) assigned t h = (
    record { confidence = h.0.confidence; radius = h.0.radius },
    track_all-IsBounded timestamp os _ _ h.1,
  )

module _ {F : Type 0} ⦃fl : FloatOps F⦄ ⦃vo : ValueOps F⦄ where
  -- A confidence that a call returned.
  abbrev IsConfidence : F → Type 0
  IsConfidence c = fl.le c c ≡ true → (fl.le (fl.lit 0 0) c ≡ true) × (fl.le c (fl.lit 1 0) ≡ true)

  one_IsConfidence : IsOrdered F → IsConfidence (fl.lit 1 0)
  one_IsConfidence i h = (i.le-lit 0 1 (omega arith) (omega arith), i.lit_refl 1 0)

  detected-IsBounded :
      IsOrdered F
      → (d : Fields F) (confidence x y radius : F) → IsConfidence confidence
      → IsBounded (detected d confidence x y radius)
  detected-IsBounded i d confidence x y radius c = record {
    confidence = c;
    radius = radius_bound i radius;
  }

  module _ {S : Type 0} (i : IsOrdered F) where
    abbrev Bounded : List (DetectedObstacle F) → S → Type 0
    Bounded os t = All IsBounded os

    abbrev Anything : Exc → S → Type 0
    Anything e t = Unit

    normalize_confidence-IsConfidence :
        (o : Option (Value F)) (s : S)
        → Post (λ c t. IsConfidence c) Anything (normalize_confidence o s)
    unfolding normalize_confidence
    normalize_confidence-IsConfidence none s = one_IsConfidence i
    normalize_confidence-IsConfidence (some v) s = elim (Bool-cases (is_number v)) [
      | inl e ↦ rw e (
          Post-bind (λ x t. Unit) (λ c t. IsConfidence c) Anything (float_of v)
            (λ x. pure (clamped (scaled x))) s (Post-any (float_of v s))
            (λ x t u. clamped_bounds i (scaled x)))
      | inr e ↦ rw e (one_IsConfidence i)
    ]

    obstacle_of-IsBounded :
        (d : Fields F) (x y radius : Value F) (s : S)
        → Post (λ o t. IsBounded o) Anything (obstacle_of d x y radius s)
    obstacle_of-IsBounded d x y radius s =
        Post-bind (λ c t. IsConfidence c) (λ o t. IsBounded o) Anything
          (normalize_confidence (get "confidence" d)) (numbers_of d x y radius) s
          (normalize_confidence-IsConfidence (get "confidence" d) s)
          λ c t k.
            after_any (λ o t. IsBounded o) (float_of x)
              (λ px. float_of y >>= λ py. float_of radius >>= λ r. pure (detected d c px py r)) t
              λ px t.
                after_any (λ o t. IsBounded o) (float_of y)
                  (λ py. float_of radius >>= λ r. pure (detected d c px py r)) t
                  λ py t.
                    after_any (λ o t. IsBounded o) (float_of radius)
                      (λ r. pure (detected d c px py r)) t λ r t. detected-IsBounded i d c px py r k

    obstacle_in-Bounded :
        (d : Fields F) (x y radius : Option (Value F)) (s : S)
        → Post Bounded Anything (obstacle_in d x y radius s)
    obstacle_in-Bounded d none y radius s = tt
    obstacle_in-Bounded d (some x) none radius s = tt
    obstacle_in-Bounded d (some x) (some y) none s = tt
    obstacle_in-Bounded d (some x) (some y) (some radius) s =
        Post-bind (λ o t. IsBounded o) Bounded Anything (obstacle_of d x y radius)
          (λ o. pure (o ∷ [])) s (obstacle_of-IsBounded d x y radius s) (λ o t k. (k, tt))

    parse_items-Bounded : (vs : Items F) (s : S) → Post Bounded Anything (parse_items vs s)
    unfolding parse_items
    parse_items-Bounded nil s = tt
    parse_items-Bounded (cons (obj d) vs) s =
        Post-bind Bounded Bounded Anything
          (obstacle_in d (number_at "x" d) (number_at "y" d) (number_at "radius_m" d))
          (λ found. parse_items vs >>= λ rest. pure (found ++ rest)) s
          (obstacle_in-Bounded d (number_at "x" d) (number_at "y" d) (number_at "radius_m" d) s)
          λ found t k.
            Post-bind Bounded Bounded Anything (parse_items vs) (λ rest. pure (found ++ rest)) t
              (parse_items-Bounded vs t) (λ rest u h. All-append IsBounded found rest k h)
    parse_items-Bounded (cons null vs) s = parse_items-Bounded vs s
    parse_items-Bounded (cons (bool b) vs) s = parse_items-Bounded vs s
    parse_items-Bounded (cons (int n) vs) s = parse_items-Bounded vs s
    parse_items-Bounded (cons (float x) vs) s = parse_items-Bounded vs s
    parse_items-Bounded (cons (str t) vs) s = parse_items-Bounded vs s
    parse_items-Bounded (cons (arr ws) vs) s = parse_items-Bounded vs s

    parse_obstacles-Bounded :
        (o : Option (Value F)) (s : S) → Post Bounded Anything (parse_obstacles o s)
    parse_obstacles-Bounded none s = tt
    parse_obstacles-Bounded (some (arr vs)) s = parse_items-Bounded vs s
    parse_obstacles-Bounded (some (obj d)) s = tt
    parse_obstacles-Bounded (some null) s = tt
    parse_obstacles-Bounded (some (bool b)) s = tt
    parse_obstacles-Bounded (some (int n)) s = tt
    parse_obstacles-Bounded (some (float x)) s = tt
    parse_obstacles-Bounded (some (str t)) s = tt

module _ {F S : Type 0} ⦃fl : FloatOps F⦄ ⦃tx : TextOps⦄ ⦃vo : ValueOps F⦄
    (out : TelemetryOutside F S) (schema : Fields F) where
  abbrev FrameBounded : PerceptionFrame F → TelemetryPipeline F S → Type 0
  FrameBounded frame p = All IsBounded frame.obstacles

  track-FrameBounded :
      (i : IsOrdered F) (event : Fields F) (timestamp : F) (obstacles : List (DetectedObstacle F))
      (p : TelemetryPipeline F S)
      → All IsBounded obstacles
      → Post FrameBounded (Anything i) (
          (track out schema obstacles timestamp >>= λ tracked.
          pure (frame_of out schema event timestamp tracked))
            p)
  unfolding update
  track-FrameBounded i event timestamp obstacles p h =
      track_all-IsBounded timestamp obstacles [] (prune_expired timestamp p.tracker) h

  observe_at-FrameBounded :
      (i : IsOrdered F) (event : Fields F) (timestamp : F) (p : TelemetryPipeline F S)
      → Post FrameBounded (Anything i) (observe_at out schema event timestamp p)
  observe_at-FrameBounded i event timestamp p =
      Post-bind (Bounded i) FrameBounded (Anything i)
        (parse_obstacles (get "lidar_obstacles" event))
        (λ obstacles. track out schema obstacles timestamp >>= λ tracked.
          pure (frame_of out schema event timestamp tracked))
        p (parse_obstacles-Bounded i (get "lidar_obstacles" event) p)
        (λ obstacles q h. track-FrameBounded i event timestamp obstacles q h)

  observe_event-FrameBounded :
      (i : IsOrdered F) (o : Option (Fields F)) (p : TelemetryPipeline F S)
      → Post FrameBounded (Anything i) (observe_event out schema o p)
  observe_event-FrameBounded i none p =
      after_any FrameBounded (on_source out out.clock) (λ t. pure (empty_frame t)) p (λ t q. tt)
  observe_event-FrameBounded i (some event) p =
      after_any FrameBounded
        (validate out.from_iso schema event
          >> timestamp_of out schema (as_str (get "timestamp" event)))
        (observe_at out schema event) p (observe_at-FrameBounded i event)

  -- With ordered floats, every obstacle of a frame has a radius that is not negative, and a confidence
  -- between 0 and 1 unless it is a NaN, whatever the telemetry says.
  pub observe-IsBounded :
      IsOrdered F
      → (p : TelemetryPipeline F S)
      → Post (λ frame q. All IsBounded frame.obstacles) (λ e q. Unit) (observe out schema p)
  unfolding observe
  observe-IsBounded i p =
      after_any FrameBounded (on_source out out.telemetry_source) (observe_event out schema) p
        (observe_event-FrameBounded i)
