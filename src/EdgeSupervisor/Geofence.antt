-- ===== src/EdgeSupervisor/Geofence.antt =====
-- The geofence in a run (src/autonomy/edge_supervisor.py) over simulated and mirroring adapters.
use autonomous_vehicle_llm.Base.{
  Bool, true, false, ◌≡◌, refl, sym, ap, ◌∙◌, ◌⊎◌, inl, inr, some, arith, ok,
}
use autonomous_vehicle_llm.Base.Post.{Post}
use autonomous_vehicle_llm.Float.{FloatOps, IsOrdered}
use autonomous_vehicle_llm.Models.{
  Action, ActionType, arm, move_to, hold, return_to_home, disarm, VehicleState,
}
use autonomous_vehicle_llm.Mapping.{within}
use autonomous_vehicle_llm.Localization.{LocalizationEstimate}
use autonomous_vehicle_llm.Controller.{ControlCommand}
use autonomous_vehicle_llm.VehicleAdapter.{VehicleAdapter, sim_execute, moved, drained}
use autonomous_vehicle_llm.EdgeSupervisor.{Supervisor}
use autonomous_vehicle_llm.EdgeSupervisor.Cleared.{IsCleared, fallback, checked}

module _ {F S : Type 0} ⦃fl : FloatOps F⦄ (sup : Supervisor F S) where
  abbrev limit : F
  limit = sup.config.geofence_abs_xy_limit_m

  -- The vehicle and its home are inside the geofence, by the test of the mapping service.
  pub record IsInside (s : VehicleState F) : Type 0 where
    pub here : within limit s.x s.y ≡ true
    pub home : within limit s.home_x s.home_y ≡ true

  -- The controller commands no target that is a NaN.
  abbrev pub CommandsNumbers : Type 0
  CommandsNumbers =
      (a : Action F) (loc : LocalizationEstimate F) (command : ControlCommand F) (v w : S)
      → sup.controller a loc v ≡ (ok command, w)
      → (x : F) → (command.action.x ≡ some x) ⊎ (command.action.y ≡ some x)
      → fl.le (fl.abs x) (fl.abs x) ≡ true

  -- Wherever the battery is, the place counts.
  stays :
      (s : VehicleState F) (b : F) (r : Bool)
      → IsInside s
      → IsInside (record s { battery_pct = b; armed = r })
  stays s b r h = record { here = h.here; home = h.home }

  limit_number : IsOrdered F → (x y : F) → within limit x y ≡ true → fl.le limit limit ≡ true
  unfolding within
  limit_number laws x y h = laws.refl_of_le_right (fl.abs x) limit (ground arith)

  le-within :
      (x y : F)
      → fl.le (fl.abs x) limit ≡ true
      → fl.le (fl.abs y) limit ≡ true
      → within limit x y ≡ true
  unfolding within
  le-within x y p q = ground arith

  moved_to :
      IsOrdered F
      → CommandsNumbers
      → (s : VehicleState F) (a : Action F) → a.type ≡ move_to
      → IsCleared sup s a
      → IsInside s
      → IsInside (moved s a.x a.y)
  moved_to laws numbers s a e (fallback f) h = absurd (ground (arith, f))
  moved_to laws numbers s a e (checked r checks sensed same permitted speed supported) h =
      let m = permitted.move e in
      let (x, ex, lx) = m.target_x in
      let (y, ey, ly) = m.target_y in
      let number : (z : F)
          → (r.command.action.x ≡ some z) ⊎ (r.command.action.y ≡ some z)
          → fl.le (fl.abs z) (fl.abs z) ≡ true =
        numbers r.refined r.loc r.command r.planned r.after r.commands in
      let bound : fl.le limit limit ≡ true = limit_number laws s.home_x s.home_y h.home in
      rw (ex, ey)
        (record {
          here =
              le-within x y
                (laws.le_of_not_lt limit (fl.abs x) bound
                  (number x (inl (ap (λ (c : Action F). c.x) (sym same) ∙ ex))) lx)
                (laws.le_of_not_lt limit (fl.abs y) bound
                  (number y (inr (ap (λ (c : Action F). c.y) (sym same) ∙ ey))) ly);
          home = h.home;
        })

  pub sim_execute-IsInside :
      IsOrdered F
      → CommandsNumbers
      → (s : VehicleState F) (a : Action F) → IsCleared sup s a
      → IsInside s
      → IsInside (sim_execute s a)
  unfolding sim_execute
  sim_execute-IsInside laws numbers s a c h = go a.type refl
    where
      go : (t : ActionType) → a.type ≡ t → IsInside (sim_execute s a)
      go arm e = rw e (stays s s.battery_pct true h)
      go move_to e = rw e (moved_to laws numbers s a e c h)
      go hold e = rw e (stays s (drained s (fl.lit 5 2)) s.armed h)
      go return_to_home e = rw e (record { here = h.home; home = h.home })
      go disarm e = rw e (stays s s.battery_pct false h)
