-- ===== src/Perception/Tracker.antt =====
-- The tracker of obstacles (src/autonomy/perception.py), on its tracks and its counter.
use Prim.Native.String.{compare}
use Prim.Native.Nat.{Ordering}
use autonomous_vehicle_llm.Base.{
  ℕ, zero, suc, ◌+◌, ◌-◌, String, ◌<>◌, Bool, true, false, not, ◌&&◌, Option, none, some, List, [],
  ◌∷◌, ◌++◌, Dict, keep, lookup, insert, contains, length, ◌==◌, string_eq, if◌then◌else◌,
}
use autonomous_vehicle_llm.Float.{FloatOps, py_max}
use autonomous_vehicle_llm.Text.{TextOps, chars, is_nonempty}
use autonomous_vehicle_llm.Perception.{DetectedObstacle}

pub record TrackState (F : Type 0) : Type 0 where
  pub x : F
  pub y : F
  pub timestamp_s : F
  pub source : String
  pub age_frames : ℕ

pub record ObstacleTracker (F : Type 0) : Type 0 where
  pub max_association_distance_m : F
  pub max_track_age_s : F
  pub tracks : Dict (TrackState F)
  pub counter : ℕ

abbrev pub zeros : ℕ → String
zeros zero = ""
zeros (suc n) = "0" <> zeros n

-- `f"{n:04d}"` of the text of `n`
abbrev pub pad4 : String → String
pad4 s = zeros (4 - length (chars s)) <> s

abbrev pub non_empty : Option String → Option String
non_empty none = none
non_empty (some s) = if is_nonempty s then some s else none

module _ {F : Type 0} ⦃fl : FloatOps F⦄ where
  abbrev pub obstacle_tracker : F → F → ObstacleTracker F
  obstacle_tracker max_association_distance_m max_track_age_s = record {
    max_association_distance_m = py_max (fl.lit 0 0) max_association_distance_m;
    max_track_age_s = py_max (fl.lit 0 0) max_track_age_s;
    tracks = [];
    counter = 1;
  }

  abbrev pub prune_expired : F → ObstacleTracker F → ObstacleTracker F
  prune_expired timestamp t = record t {
    tracks =
        keep (λ row. not (fl.lt t.max_track_age_s (fl.sub timestamp row.1.timestamp_s))) t.tracks;
  }

  -- `a < b` of the sort keys, a distance and an id
  abbrev pub is_nearer : F × String → F × String → Bool
  is_nearer a b =
      if fl.le a.0 b.0 && fl.le b.0 a.0
      then elim (compare a.1 b.1) [ Ordering.lt ↦ true | _ ↦ false ]
      else fl.lt a.0 b.0

  -- The first of the sorted candidates.
  abbrev pub best_of : F × String → List (F × String) → F × String
  best_of best [] = best
  best_of best (c ∷ candidates) = best_of (if is_nearer c best then c else best) candidates

  abbrev pub is_candidate :
      ObstacleTracker F → DetectedObstacle F → List String → String × TrackState F → Bool
  is_candidate t obstacle assigned row =
      not (contains assigned row.0)
      && row.1.source == obstacle.source
      && fl.le (fl.dist obstacle.x obstacle.y row.1.x row.1.y) t.max_association_distance_m

  abbrev pub with_distance : DetectedObstacle F → Dict (TrackState F) → List (F × String)
  with_distance obstacle [] = []
  with_distance obstacle (row ∷ rows) =
      (fl.dist obstacle.x obstacle.y row.1.x row.1.y, row.0) ∷ with_distance obstacle rows

  abbrev pub first_sorted : List (F × String) → Option String
  first_sorted [] = none
  first_sorted (c ∷ candidates) = some (best_of c candidates).1

  unfoldable pub nearest_associated_track :
      ObstacleTracker F → DetectedObstacle F → List String → Option String
  nearest_associated_track t obstacle assigned =
      first_sorted (with_distance obstacle (keep (is_candidate t obstacle assigned) t.tracks))

  abbrev pub velocity_over : F → F → F → F → F → Option F × Option F
  velocity_over dt x y x' y' =
      if fl.le dt (fl.lit 0 0)
      then (none, none)
      else (some (fl.div (fl.sub x x') dt), some (fl.div (fl.sub y y') dt))

  abbrev pub estimate_velocity :
      Option (TrackState F) → DetectedObstacle F → F → Option F × Option F
  estimate_velocity none obstacle timestamp = (none, none)
  estimate_velocity (some previous) obstacle timestamp =
      velocity_over (fl.sub timestamp previous.timestamp_s) obstacle.x obstacle.y previous.x
        previous.y

  abbrev pub next_age : Option (TrackState F) → ℕ
  next_age none = 1
  next_age (some previous) = previous.age_frames + 1

module _ {F : Type 0} ⦃fl : FloatOps F⦄ ⦃tx : TextOps⦄ where
  abbrev pub new_id : DetectedObstacle F → ObstacleTracker F → String × ObstacleTracker F
  new_id obstacle t = (
    obstacle.source <> "-" <> pad4 (tx.str_of_nat t.counter),
    record t { counter = t.counter + 1 },
  )

  unfoldable pub assign_track_id :
      DetectedObstacle F → List String → ObstacleTracker F → String × ObstacleTracker F
  assign_track_id obstacle assigned t = elim (non_empty obstacle.track_id) [
    | some track_id ↦ (track_id, t)
    | none ↦ elim (nearest_associated_track t obstacle assigned) [
      | some associated ↦ (associated, t)
      | none ↦ new_id obstacle t
    ]
  ]

  abbrev pub tracked_as :
      F → String → Option (TrackState F) → DetectedObstacle F → DetectedObstacle F
  tracked_as timestamp track_id previous obstacle = record {
    x = obstacle.x;
    y = obstacle.y;
    radius_m = obstacle.radius_m;
    confidence = obstacle.confidence;
    source = obstacle.source;
    track_id = some track_id;
    class_label = obstacle.class_label;
    vx_mps = (estimate_velocity previous obstacle timestamp).0;
    vy_mps = (estimate_velocity previous obstacle timestamp).1;
    age_frames = next_age previous;
  }

  abbrev pub track_of : F → Option (TrackState F) → DetectedObstacle F → TrackState F
  track_of timestamp previous obstacle = record {
    x = obstacle.x;
    y = obstacle.y;
    timestamp_s = timestamp;
    source = obstacle.source;
    age_frames = next_age previous;
  }

  -- The loop over the obstacles.
  unfoldable pub track_all :
      F
      → List (DetectedObstacle F)
      → List String
      → ObstacleTracker F
      → List (DetectedObstacle F) × ObstacleTracker F
  track_all timestamp [] assigned t = ([], t)
  track_all timestamp (obstacle ∷ obstacles) assigned t =
      let (track_id, u) = assign_track_id obstacle assigned t in
      let previous = lookup track_id u.tracks in
      let (rest, v) =
        track_all timestamp obstacles (assigned ++ (track_id ∷ []))
          (record u { tracks = insert track_id (track_of timestamp previous obstacle) u.tracks }) in
      (tracked_as timestamp track_id previous obstacle ∷ rest, v)

  unfoldable pub update :
      List (DetectedObstacle F)
      → F
      → ObstacleTracker F
      → List (DetectedObstacle F) × ObstacleTracker F
  update obstacles timestamp t = track_all timestamp obstacles [] (prune_expired timestamp t)
