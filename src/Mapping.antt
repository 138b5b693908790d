-- ===== src/Mapping.antt =====
-- The geofence and the distance to obstacles (src/autonomy/mapping.py).
pub mod Nearest
use autonomous_vehicle_llm.Base.{Bool, ◌&&◌, Option, none, some, List, [], ◌∷◌}
use autonomous_vehicle_llm.Float.{FloatOps, py_max, py_min}
use autonomous_vehicle_llm.Perception.{DetectedObstacle, PerceptionFrame}

-- What the other parts ask of a mapping service: the class `MappingService`.
pub record MappingService (F : Type 0) : Type 0 where
  pub is_within_geofence : F → F → Bool
  pub nearest_obstacle_distance : F → F → Option (PerceptionFrame F) → Option F

module _ {F : Type 0} ⦃fl : FloatOps F⦄ where
  unfoldable pub within : F → F → F → Bool
  within limit x y = fl.le (fl.abs x) limit && fl.le (fl.abs y) limit

  -- The distance to the edge of one obstacle.
  unfoldable pub edge_distance : F → F → DetectedObstacle F → F
  edge_distance x y o = fl.sub (fl.dist x y o.x o.y) (py_max o.radius_m (fl.lit 0 0))

  -- `min` of the distances: the first of the smallest.
  unfoldable pub nearest_from : F → F → F → List (DetectedObstacle F) → F
  nearest_from x y best [] = best
  nearest_from x y best (o ∷ obstacles) =
      nearest_from x y (py_min best (edge_distance x y o)) obstacles

  abbrev pub nearest_of : F → F → List (DetectedObstacle F) → Option F
  nearest_of x y [] = none
  nearest_of x y (o ∷ obstacles) = some (nearest_from x y (edge_distance x y o) obstacles)

  unfoldable pub nearest : F → F → Option (PerceptionFrame F) → Option F
  nearest x y none = none
  nearest x y (some frame) = nearest_of x y frame.obstacles

  -- `GeofenceMappingService(geofence_abs_xy_limit_m=limit)`
  abbrev pub geofence_mapping_service : F → MappingService F
  geofence_mapping_service limit = record {
    is_within_geofence = within limit;
    nearest_obstacle_distance = nearest;
  }
