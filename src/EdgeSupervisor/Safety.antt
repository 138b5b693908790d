-- ===== src/EdgeSupervisor/Safety.antt =====
-- Invariants through a whole run (src/autonomy/edge_supervisor.py).
use autonomous_vehicle_llm.Base.{[], Exc, Result, ok, raise, ◌>>=◌}
use autonomous_vehicle_llm.Base.Post.{Post}
use autonomous_vehicle_llm.Float.{FloatOps}
use autonomous_vehicle_llm.Text.{TextOps}
use autonomous_vehicle_llm.Models.{MissionPlan, VehicleState}
use autonomous_vehicle_llm.EdgeSupervisor.{Supervisor, Run, run_loop, finish, with_events, run_plan}
use autonomous_vehicle_llm.EdgeSupervisor.Cleared.{Keeps}
use autonomous_vehicle_llm.EdgeSupervisor.Rounds

module _ {F S : Type 0} ⦃fl : FloatOps F⦄ ⦃t : TextOps⦄ (sup : Supervisor F S)
    (Inv : VehicleState F → S → Type 0) where
  -- An invariant of the vehicle's state and of the outside that holds at the start holds when
  -- `run_plan` returns, for the state it returns, and when it raises, for the outside with some
  -- state. The condition is `Keeps`: the adapters keep the invariant when they are sent a cleared
  -- action, also when they raise; the sensors, the planner, the controller, the clock and the
  -- audit log keep it too, and the log raises no `AdapterExecutionError`.
  pub run_plan-Keeps :
      Keeps sup Inv
      → (s : VehicleState F) (plan : MissionPlan F) (w : S) → Inv s w
      → Post
          (λ done v. Inv done.0 v)
          (λ _ v. (u : VehicleState F) × Inv u v)
          (run_plan sup s plan w)
  unfolding run_plan
  run_plan-Keeps keeps s plan w h =
      go (run_loop sup plan.actions s (record { world = w; events = [] }))
        (Rounds.run_loop-Arrives sup Inv keeps plan.actions s _ h)
    where
      E : Exc → Run S → Type 0
      E e r = (u : VehicleState F) × Inv u r.world

      out :
          (x : Result (VehicleState F) × Run S)
          → Post (λ u r. Inv u r.world) E x
          → Post (λ done v. Inv done.0 v) (λ _ v. (u : VehicleState F) × Inv u v) (with_events x)
      out (ok u, r) k = k
      out (raise e, r) k = k

      go :
          (x : Result (VehicleState F) × Run S)
          → Post (λ u r. Inv u r.world) E x
          → Post
              (λ done v. Inv done.0 v)
              (λ _ v. (u : VehicleState F) × Inv u v)
              (with_events (((λ _. x) >>= finish sup) x.1))
      go (ok u, r) k = out (finish sup u r) (Rounds.finish-Arrives sup Inv keeps u r k)
      go (raise e, r) k = k
