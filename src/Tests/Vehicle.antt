-- ===== src/Tests/Vehicle.antt =====
-- A ground vehicle with a short plan, on which the theorems are run.
use autonomous_vehicle_llm.Base.{
  ℕ, true, false, ◌≡◌, refl, ◌≢◌, ◌↔◌, none, some, [], ◌∷◌, pure, arith,
}
use autonomous_vehicle_llm.Base.Post.{Post}
use autonomous_vehicle_llm.Float.Hundredths.{Hundredths, hundredths_ops}
use autonomous_vehicle_llm.Models.{
  Action, arm, move_to, hold, disarm, bare, MissionPlan, VehicleState, default_policy,
}
use autonomous_vehicle_llm.SafetyKernel.{precheck}
use autonomous_vehicle_llm.SafetyKernel.Policy.{IsPermitted, precheck-IsPermitted}
use autonomous_vehicle_llm.PlanVerifier.{verify}
use autonomous_vehicle_llm.PlanVerifier.WellFormed.{IsWellFormed, verify-IsWellFormed}
use autonomous_vehicle_llm.Perception.{PerceptionFrame, empty_frame}
use autonomous_vehicle_llm.Mapping.{within, geofence_mapping_service}
use autonomous_vehicle_llm.Localization.{pass_through_estimate}
use autonomous_vehicle_llm.ObstacleAvoidance.{clearance_planner, refine_action}
use autonomous_vehicle_llm.ObstacleAvoidance.Refine.{Refines, refine_action-Refines}
use autonomous_vehicle_llm.Controller.{passthrough_command}
use autonomous_vehicle_llm.VehicleAdapter.{VehicleAdapter, sim_adapter, ground_profile}
use autonomous_vehicle_llm.EdgeSupervisor.{Supervisor, run_plan}
use autonomous_vehicle_llm.EdgeSupervisor.Safety.{run_plan-Keeps}
use autonomous_vehicle_llm.EdgeSupervisor.Simulated.{IsSimulated, simulated, IsSimulated-Keeps}
use autonomous_vehicle_llm.EdgeSupervisor.Geofence.{IsInside, CommandsNumbers, sim_execute-IsInside}
use autonomous_vehicle_llm.EdgeSupervisor.Battery.{HasCharge, run_plan-HasCharge}
use autonomous_vehicle_llm.Float.Hundredths.{Hundredths-IsOrdered}
use autonomous_vehicle_llm.Mapping.{nearest, edge_distance}
use autonomous_vehicle_llm.Mapping.Nearest.{IsNearest, nearest-IsNearest}
use autonomous_vehicle_llm.Tests.Texts.{sample_texts}

abbrev number : ℕ → Hundredths
number n = hundredths_ops.lit n 0

abbrev pub start : VehicleState Hundredths
start = record {
  vehicle_id = "ugv-1";
  x = number 0;
  y = number 0;
  battery_pct = number 90;
  armed = false;
  connected = true;
  home_x = number 0;
  home_y = number 0;
  heading_rad = number 0;
  vx_mps = number 0;
  vy_mps = number 0;
  position_std_m = number 1;
  sensor_age_s = number 0;
  nearest_obstacle_distance_m = none;
}

abbrev move : Action Hundredths
move = record {
  type = move_to;
  x = some (number 10);
  y = some (number 5);
  speed_mps = some (number 2);
}

abbrev pub plan : MissionPlan Hundredths
plan = record {
  goal = "look around";
  vehicle_id = "ugv-1";
  actions = bare arm ∷ move ∷ bare hold ∷ bare disarm ∷ [];
}

abbrev pub supervisor : Supervisor Hundredths (Unit {0})
supervisor = record {
  config = default_policy;
  adapter = sim_adapter ground_profile;
  failover_adapter = none;
  audit_logger = none;
  perception_pipeline = λ s. pure (empty_frame (number 0));
  localization_engine = λ s frame. pure (pass_through_estimate (number 0) s frame);
  mapping_service = geofence_mapping_service (number 100);
  avoidance_planner = λ a loc frame m. pure a;
  controller = λ a loc. pure (passthrough_command (number 0) a);
  clock = pure (number 0);
}

start-IsInside : IsInside supervisor start
unfolding within
start-IsInside = record { here = refl; home = refl }

commands_numbers : CommandsNumbers supervisor
commands_numbers a loc command v w e x h = ground arith

no_failover :
    (ad : VehicleAdapter Hundredths (Unit {0}))
    → supervisor.failover_adapter ≡ some ad
    → IsSimulated ad
no_failover ad e = absurd (ground arith)

run_plan-Keeps_example :
    Post
      (λ done w. IsInside supervisor done.0)
      (λ _ w. (u : VehicleState Hundredths) × IsInside supervisor u)
      (run_plan supervisor start plan tt)
run_plan-Keeps_example =
    run_plan-Keeps supervisor (λ s _. IsInside supervisor s)
      (IsSimulated-Keeps supervisor (IsInside supervisor)
        (sim_execute-IsInside supervisor Hundredths-IsOrdered commands_numbers)
        (simulated ground_profile refl) no_failover (λ call event payload e. absurd (ground arith)))
      start plan tt start-IsInside

precheck-IsPermitted_example :
    ((precheck default_policy start move ≡ (true, none)) ↔ IsPermitted default_policy start move)
    × ((precheck default_policy start move).0 ≡ false
        → (precheck default_policy start move).1 ≢ none)
    × ((precheck default_policy start move).0 ≡ true
        → (precheck default_policy start move).1 ≡ none)
precheck-IsPermitted_example = precheck-IsPermitted default_policy start move

verify-IsWellFormed_example :
    ((verify plan ≡ (true, [])) ↔ IsWellFormed plan.actions)
    × ((verify plan).0 ≡ true → (verify plan).1 ≡ [])
    × ((verify plan).1 ≡ [] → (verify plan).0 ≡ true)
verify-IsWellFormed_example = verify-IsWellFormed plan

-- An obstacle stands at the target of the move.
abbrev frame : PerceptionFrame Hundredths
frame = record (empty_frame (number 0)) {
  obstacles =
      record {
        x = number 10;
        y = number 5;
        radius_m = number 1;
        confidence = number 1;
        source = "lidar";
        track_id = none;
        class_label = "rock";
        vx_mps = none;
        vy_mps = none;
        age_frames = 1;
      }
      ∷ [];
}

refine_action-Refines_example :
    Refines
      (clearance_planner (number 2) (number 3))
      (geofence_mapping_service (number 100))
      (some frame)
      move
      (refine_action
        (clearance_planner (number 2) (number 3))
        (geofence_mapping_service (number 100))
        (some frame)
        move)
refine_action-Refines_example =
    refine_action-Refines (clearance_planner (number 2) (number 3))
      (geofence_mapping_service (number 100)) (some frame) move

run_plan-HasCharge_example :
    Post (λ done _. HasCharge (number 90) done.0) (λ _ _. Unit) (run_plan supervisor start plan tt)
run_plan-HasCharge_example =
    run_plan-HasCharge supervisor Hundredths-IsOrdered (number 90) (simulated ground_profile refl)
      no_failover (λ call event payload e. absurd (ground arith)) start plan tt
      (record { some_left = refl; at_most = refl })

nearest-IsNearest_example :
    IsNearest (number 2) (number 2) frame.obstacles (nearest (number 2) (number 2) (some frame))
unfolding edge_distance
nearest-IsNearest_example =
    nearest-IsNearest (number 2) (number 2) Hundredths-IsOrdered frame (refl, tt)
