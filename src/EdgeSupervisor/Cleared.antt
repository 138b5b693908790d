-- ===== src/EdgeSupervisor/Cleared.antt =====
-- The actions that the supervisor (src/autonomy/edge_supervisor.py) may send to an adapter, and the
-- conditions on an invariant.
use autonomous_vehicle_llm.Base.{
  String, true, false, ◌≡◌, Option, some, Exc, adapter_execution_error, exception, ok, Call,
}
use autonomous_vehicle_llm.Base.Post.{Post}
use autonomous_vehicle_llm.Float.{FloatOps, py_max}
use autonomous_vehicle_llm.Json.{Fields}
use autonomous_vehicle_llm.Models.{Action, VehicleState}
use autonomous_vehicle_llm.SafetyKernel.{fallback_action}
use autonomous_vehicle_llm.SafetyKernel.Policy.{IsPermitted}
use autonomous_vehicle_llm.Perception.{PerceptionFrame}
use autonomous_vehicle_llm.Localization.{LocalizationEstimate}
use autonomous_vehicle_llm.Controller.{ControlCommand}
use autonomous_vehicle_llm.VehicleAdapter.{VehicleAdapter, supports}
use autonomous_vehicle_llm.EdgeSupervisor.{Supervisor, over_speed}

module _ {F S : Type 0} ⦃fl : FloatOps F⦄ (sup : Supervisor F S) where
  -- A round's calls of the collaborators, one after the other from some state of the outside, and
  -- what they returned: a fresh estimate, and the command for the refined action.
  pub record Readings (s : VehicleState F) : Type 0 where
    pub ordered : Action F
    pub frame : PerceptionFrame F
    pub loc : LocalizationEstimate F
    pub now : F
    pub refined : Action F
    pub command : ControlCommand F
    pub before : S
    pub observed : S
    pub estimated : S
    pub timed : S
    pub planned : S
    pub after : S
    pub observes : sup.perception_pipeline s before ≡ (ok frame, observed)
    pub estimates : sup.localization_engine s (some frame) observed ≡ (ok loc, estimated)
    pub fresh : loc.fresh ≡ true
    pub tells : sup.clock estimated ≡ (ok now, timed)
    pub refines :
        sup.avoidance_planner ordered loc (some frame) sup.mapping_service timed
        ≡ (ok refined, planned)
    pub commands : sup.controller refined loc planned ≡ (ok command, after)

  -- What the checks are made on is what was read: the estimated place, heading, speed and
  -- uncertainty, the age of the frame and the nearest obstacle in it, and otherwise the vehicle's
  -- own state.
  pub record IsSensed (s : VehicleState F) (r : Readings s) (checks : VehicleState F) : Type 0 where
    pub x : checks.x ≡ r.loc.x
    pub y : checks.y ≡ r.loc.y
    pub heading_rad : checks.heading_rad ≡ r.loc.heading_rad
    pub vx_mps : checks.vx_mps ≡ r.loc.vx_mps
    pub vy_mps : checks.vy_mps ≡ r.loc.vy_mps
    pub position_std_m : checks.position_std_m ≡ r.loc.position_std_m
    pub sensor_age_s : checks.sensor_age_s ≡ py_max (fl.lit 0 1) (fl.sub r.now r.frame.timestamp_s)
    pub nearest_obstacle_distance_m :
        checks.nearest_obstacle_distance_m
        ≡ sup.mapping_service.nearest_obstacle_distance r.loc.x r.loc.y (some r.frame)
    pub battery_pct : checks.battery_pct ≡ s.battery_pct
    pub armed : checks.armed ≡ s.armed
    pub connected : checks.connected ≡ s.connected

  -- An action that may be sent to an adapter from a state: the fallback, or the action of a command
  -- that the policy permits for what the sensors gave in that round, and that the adapter supports
  -- within its speed limit.
  pub data IsCleared (s : VehicleState F) (a : Action F) : Type 0 where
    fallback : a ≡ fallback_action → IsCleared s a
    checked :
        (r : Readings s) (checks : VehicleState F)
        → IsSensed s r checks
        → a ≡ r.command.action
        → IsPermitted sup.config checks a
        → over_speed sup a ≡ false
        → supports sup.adapter a ≡ true
        → IsCleared s a

  module _ (Inv : VehicleState F → S → Type 0) where
    -- A call that leaves the vehicle alone keeps the invariant.
    abbrev pub Passive : {A : Type 0} → Call S A → Type 0
    Passive m =
        (s : VehicleState F) (w : S) → Inv s w → Post (λ _ v. Inv s v) (λ _ v. Inv s v) (m w)

    -- So does a write to the audit log, which raises no `AdapterExecutionError`.
    abbrev pub OnlyOther : VehicleState F → Exc → S → Type 0
    OnlyOther s (adapter_execution_error message) v = ⊥
    OnlyOther s (exception message) v = Inv s v

    abbrev pub Logs : Call S (Unit {0}) → Type 0
    Logs m = (s : VehicleState F) (w : S) → Inv s w → Post (λ _ v. Inv s v) (OnlyOther s) (m w)

    -- An adapter keeps the invariant when it is sent a cleared action, also where it raises.
    abbrev pub Executes : VehicleAdapter F S → Type 0
    Executes ad =
        (s : VehicleState F) (a : Action F) (w : S)
        → IsCleared s a
        → Inv s w
        → Post (λ s' v. Inv s' v) (λ _ v. Inv s v) (ad.execute s a w)

    pub record Keeps : Type 0 where
      pub execute : Executes sup.adapter
      pub failover : (ad : VehicleAdapter F S) → sup.failover_adapter ≡ some ad → Executes ad
      pub log :
          (call : String → Fields F → Call S (Unit {0})) (event_type : String) (payload : Fields F)
          → sup.audit_logger ≡ some call
          → Logs (call event_type payload)
      pub observe : (s : VehicleState F) → Passive (sup.perception_pipeline s)
      pub estimate :
          (s : VehicleState F) (frame : Option (PerceptionFrame F))
          → Passive (sup.localization_engine s frame)
      pub clock : Passive sup.clock
      pub refine :
          (a : Action F) (loc : LocalizationEstimate F) (frame : Option (PerceptionFrame F))
          → Passive (sup.avoidance_planner a loc frame sup.mapping_service)
      pub command : (a : Action F) (loc : LocalizationEstimate F) → Passive (sup.controller a loc)
