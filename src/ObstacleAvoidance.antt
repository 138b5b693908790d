-- ===== src/ObstacleAvoidance.antt =====
-- The local change of a move whose target is blocked (src/autonomy/obstacle_avoidance.py).
pub mod Refine
use autonomous_vehicle_llm.Base.{
  Bool, true, false, Option, none, some, List, [], ◌∷◌, ◌==◌, if◌then◌else◌,
}
use autonomous_vehicle_llm.Float.{FloatOps, py_max}
use autonomous_vehicle_llm.Models.{Action, ActionType, move_to, hold, type_eq, bare}
use autonomous_vehicle_llm.Perception.{PerceptionFrame}
use autonomous_vehicle_llm.Mapping.{MappingService}

-- `ClearanceAwareAvoidancePlanner`, with the clamped fields of its constructor
pub record ClearancePlanner (F : Type 0) : Type 0 where
  pub min_clearance_m : F
  pub sidestep_m : F

module _ {F : Type 0} ⦃fl : FloatOps F⦄ where
  unfoldable pub clearance_planner : F → F → ClearancePlanner F
  clearance_planner min_clearance_m sidestep_m = record {
    min_clearance_m = py_max (fl.lit 0 1) min_clearance_m;
    sidestep_m = py_max (fl.lit 0 1) sidestep_m;
  }

  abbrev pub candidate_offsets : F → List (F × F)
  candidate_offsets step =
      (fl.lit 0 1, step)
      ∷ (fl.lit 0 1, fl.neg step)
      ∷ (step, fl.lit 0 1)
      ∷ (fl.neg step, fl.lit 0 1)
      ∷ (step, step)
      ∷ (step, fl.neg step)
      ∷ (fl.neg step, step)
      ∷ (fl.neg step, fl.neg step)
      ∷ []

  -- `distance is None or distance >= clearance`
  abbrev pub is_clear : F → Option F → Bool
  is_clear clearance none = true
  is_clear clearance (some d) = fl.le clearance d

  module _ (p : ClearancePlanner F) (m : MappingService F)
      (frame : Option (PerceptionFrame F)) where
    -- The loop over the offsets, from a target.
    unfoldable pub try_offsets : Action F → F → F → List (F × F) → Action F
    try_offsets a x y [] = bare hold
    try_offsets a x y ((dx, dy) ∷ offsets) =
        let rest = try_offsets a x y offsets in
        let cx = fl.add x dx in
        let cy = fl.add y dy in
        if m.is_within_geofence cx cy
        then if is_clear p.min_clearance_m (m.nearest_obstacle_distance cx cy frame)
          then record a { x = some cx; y = some cy }
          else rest
        else rest

    abbrev refine_target : Action F → Option F → Option F → Action F
    refine_target a none y = a
    refine_target a (some x) none = a
    refine_target a (some x) (some y) =
        if is_clear p.min_clearance_m (m.nearest_obstacle_distance x y frame)
        then a
        else try_offsets a x y (candidate_offsets p.sidestep_m)

    -- `ClearanceAwareAvoidancePlanner.refine_action`, with a mapping service
    unfoldable pub refine_action : Action F → Action F
    refine_action a = if a.type == move_to then refine_target a a.x a.y else a
