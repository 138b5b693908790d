-- ===== src/EdgeSupervisor.antt =====
-- The loop that carries a plan out under the safety checks (src/autonomy/edge_supervisor.py).
-- `S` is the state of what lies outside: sensors, clock, transports, the audit log.
pub mod Cleared
pub mod Keeping
pub mod Rounds
pub mod Safety
pub mod Simulated
pub mod Geofence
pub mod Battery
use autonomous_vehicle_llm.Base.{
  String, ◌<>◌, Bool, true, false, not, ◌&&◌, Option, none, some, List, [], ◌∷◌, ◌++◌, ◌==◌,
  string_eq, if◌then◌else◌, Exc, Result, ok, raise, adapter_execution_error, exception, Call, ◌>>=◌,
  ◌>>◌, pure, fail, handle, raise_if, on_adapter_error,
}
use autonomous_vehicle_llm.Float.{FloatOps, py_max}
use autonomous_vehicle_llm.Text.{TextOps}
use autonomous_vehicle_llm.Json.{Fields, float, bool, str, end, field}
use autonomous_vehicle_llm.Models.{
  Action, ActionType, move_to, type_eq, value, MissionPlan, VehicleState, PolicyConfig,
}
use autonomous_vehicle_llm.SafetyKernel.{precheck, fallback_action}
use autonomous_vehicle_llm.ReasonCodes.{to_policy_reason_code}
use autonomous_vehicle_llm.Perception.{PerceptionFrame}
use autonomous_vehicle_llm.Mapping.{MappingService}
use autonomous_vehicle_llm.Localization.{LocalizationEstimate}
use autonomous_vehicle_llm.Controller.{ControlCommand}
use autonomous_vehicle_llm.VehicleAdapter.{VehicleAdapter, supports}

-- The collaborators of the supervisor, `time.time` among them.
pub record Supervisor (F : Type 0) (S : Type 0) : Type 0 where
  pub config : PolicyConfig F
  pub adapter : VehicleAdapter F S
  pub failover_adapter : Option (VehicleAdapter F S)
  pub audit_logger : Option (String → Fields F → Call S (Unit {0}))
  pub perception_pipeline : VehicleState F → Call S (PerceptionFrame F)
  pub localization_engine :
      VehicleState F → Option (PerceptionFrame F) → Call S (LocalizationEstimate F)
  pub mapping_service : MappingService F
  pub avoidance_planner :
      Action F
      → LocalizationEstimate F
      → Option (PerceptionFrame F)
      → MappingService F
      → Call S (Action F)
  pub controller : Action F → LocalizationEstimate F → Call S (ControlCommand F)
  pub clock : Call S F

-- What a run changes: the outside, and the list `events`.
pub record Run (S : Type 0) : Type 0 where
  pub world : S
  pub events : List String

module _ {S : Type 0} where
  -- A call of a collaborator.
  unfoldable pub lift : {A : Type 0} → Call S A → Call (Run S) A
  lift m r = let (a, w) = m r.world in (a, record r { world = w })

  -- `events.append(event)`
  abbrev pub emit : String → Call (Run S) (Unit {0})
  emit event r = (ok tt, record r { events = r.events ++ (event ∷ []) })

-- How one round ends: the loop goes on, or it breaks.
pub data Round (F : Type 0) : Type 0 where
  next : VehicleState F → Round F
  stop : VehicleState F → Round F

-- What the `try` block hands on: `state_for_checks` and `action_for_execution`.
pub record Prepared (F : Type 0) : Type 0 where
  pub checks : VehicleState F
  pub action : Action F

module _ {F : Type 0} where
  abbrev pub state_for_checks :
      VehicleState F → LocalizationEstimate F → F → Option F → VehicleState F
  state_for_checks s loc sensor_age nearest = record s {
    x = loc.x;
    y = loc.y;
    heading_rad = loc.heading_rad;
    vx_mps = loc.vx_mps;
    vy_mps = loc.vy_mps;
    position_std_m = loc.position_std_m;
    sensor_age_s = sensor_age;
    nearest_obstacle_distance_m = nearest;
  }

-- `reason or "unknown"`
abbrev or_unknown : Option String → String
or_unknown none = "unknown"
or_unknown (some reason) = if reason == "" then "unknown" else reason

module _ {F S : Type 0} where
  -- `break`, or the next round
  abbrev go_on :
      (VehicleState F → Call (Run S) (VehicleState F)) → Round F → Call (Run S) (VehicleState F)
  go_on rest (next s') = rest s'
  go_on rest (stop s') = pure s'

  -- What `run_plan` returns.
  abbrev with_events : Result (VehicleState F) × Run S → Result (VehicleState F × List String) × S
  with_events (ok s, r) = (ok (s, r.events), r.world)
  with_events (raise e, r) = (raise e, r.world)

module _ {F S : Type 0} ⦃fl : FloatOps F⦄ (sup : Supervisor F S) where
  -- The test against the speed limit of the adapter.
  abbrev pub over_speed : Action F → Bool
  over_speed a = a.type == move_to && elim a.speed_mps [
    | none ↦ false
    | some v ↦ fl.lt sup.adapter.capability_profile.max_speed_mps v
  ]

module _ {F S : Type 0} ⦃fl : FloatOps F⦄ ⦃t : TextOps⦄ (sup : Supervisor F S) where
  -- `_audit`
  unfoldable pub audit : String → VehicleState F → String → Call (Run S) (Unit {0})
  audit event_type s detail = elim sup.audit_logger [
    | none ↦ pure tt
    | some log ↦ lift (
        log event_type (
          field "vehicle_id" (str s.vehicle_id) (
            field "x" (float s.x) (
              field "y" (float s.y) (
                field "battery_pct" (float s.battery_pct)
                  (field "armed" (bool s.armed) (field "detail" (str detail) end)))))))
  ]

  abbrev report_failover : Action F → String → VehicleState F → Call (Run S) (VehicleState F)
  report_failover a message recovered = do
    emit ("failover_adapter_used:" <> value a.type)
    audit "failover" recovered message
    pure recovered

  abbrev try_failover :
      VehicleState F
      → Action F
      → Option (VehicleAdapter F S)
      → String
      → Call (Run S) (VehicleState F)
  try_failover s a none message = fail (adapter_execution_error message)
  try_failover s a (some failover) message =
      lift (failover.execute s a) >>= report_failover a message

  -- `_execute_action`
  unfoldable pub execute_action : VehicleState F → Action F → Call (Run S) (VehicleState F)
  execute_action s a =
      handle (lift (sup.adapter.execute s a)) pure
        (on_adapter_error (try_failover s a sup.failover_adapter))

  abbrev report_block : String → VehicleState F → Call (Run S) (Round F)
  report_block audited s' = do
    emit ("fallback:" <> value (fallback_action {F = F}).type)
    audit "policy_block" s' audited
    audit "fallback" s' (value (fallback_action {F = F}).type)
    pure (stop s')

  -- A blocked action: the fallback runs instead, and the loop breaks.
  unfoldable pub block : String → String → VehicleState F → Call (Run S) (Round F)
  block reason_detail audited s = do
    emit ("policy_block:" <> to_policy_reason_code reason_detail)
    execute_action s fallback_action >>= report_block audited

  -- The statements of the first `try` block, in three parts.
  abbrev prepared :
      VehicleState F
      → PerceptionFrame F
      → LocalizationEstimate F
      → F
      → ControlCommand F
      → Prepared F
  prepared s frame loc now command = record {
    checks =
        state_for_checks s loc (py_max (fl.lit 0 1) (fl.sub now frame.timestamp_s))
          (sup.mapping_service.nearest_obstacle_distance loc.x loc.y (some frame));
    action = command.action;
  }

  abbrev prepare_command :
      VehicleState F
      → Action F
      → PerceptionFrame F
      → LocalizationEstimate F
      → F
      → Call (Run S) (Prepared F)
  prepare_command s a frame loc now = do
    refined ← lift (sup.avoidance_planner a loc (some frame) sup.mapping_service)
    command ← lift (sup.controller refined loc)
    pure (prepared s frame loc now command)

  abbrev prepare_checks :
      VehicleState F
      → Action F
      → PerceptionFrame F
      → LocalizationEstimate F
      → Call (Run S) (Prepared F)
  prepare_checks s a frame loc = do
    raise_if (not loc.fresh) (adapter_execution_error "localization_stale")
    now ← lift sup.clock
    prepare_command s a frame loc now

  unfoldable pub prepare : VehicleState F → Action F → Call (Run S) (Prepared F)
  prepare s a = do
    frame ← lift (sup.perception_pipeline s)
    loc ← lift (sup.localization_engine s (some frame))
    prepare_checks s a frame loc

  -- `except AdapterExecutionError:` around the last fallback, in a state that it leaves.
  unfoldable pub fault : VehicleState F → Exc → Call (Run S) (VehicleState F)
  fault s = on_adapter_error (λ _. do emit "system_fault:fallback_transport_failure"; pure s)

  abbrev report_recovery : VehicleState F → Call (Run S) (Unit {0})
  report_recovery s' = do
    emit ("fallback:" <> value (fallback_action {F = F}).type)
    audit "policy_block" s' "transport_failure"
    audit "fallback" s' (value (fallback_action {F = F}).type)

  -- The fallback after a failed transport.
  unfoldable pub recover : VehicleState F → Call (Run S) (VehicleState F)
  recover s =
      handle (execute_action s fallback_action)
        (λ s'. handle (report_recovery s') (λ _. pure s') (fault s')) (fault s)

  -- `except AdapterExecutionError:` around the execution of an action.
  unfoldable pub failed_transport : VehicleState F → Exc → Call (Run S) (Round F)
  failed_transport s = on_adapter_error λ _. do
    emit ("policy_block:" <> to_policy_reason_code "transport_failure")
    recover s >>= λ s'. pure (stop s')

  abbrev report_exec : Action F → VehicleState F → Call (Run S) (Unit {0})
  report_exec a s' = do emit ("exec:" <> value a.type); audit "exec" s' (value a.type)

  -- The second `try` block.
  unfoldable pub dispatch : VehicleState F → Action F → Call (Run S) (Round F)
  dispatch s a =
      handle (execute_action s a)
        (λ s'. handle (report_exec a s') (λ _. pure (next s')) (failed_transport s'))
        (failed_transport s)

  -- The tests between the two `try` blocks.
  unfoldable pub guarded : VehicleState F → Prepared F → Call (Run S) (Round F)
  guarded s p =
      if over_speed sup p.action
      then block "adapter_speed_limit" "adapter_speed_limit" s
      else if not (supports sup.adapter p.action)
      then block "adapter_capability_unsupported" "adapter_capability_unsupported" s
      else let (permitted, reason) = precheck sup.config p.checks p.action in
        if not permitted
        then block (or_unknown reason) (or_unknown reason) s
        else dispatch s p.action

  abbrev pub refused : VehicleState F → Exc → Call (Run S) (Round F)
  refused s (adapter_execution_error message) = block message message s
  refused s (exception message) = block "subsystem_failure" ("subsystem_failure:" <> message) s

  -- The body of the loop.
  unfoldable pub round : VehicleState F → Action F → Call (Run S) (Round F)
  round s a = handle (prepare s a) (guarded s) (refused s)

  unfoldable pub run_loop : List (Action F) → VehicleState F → Call (Run S) (VehicleState F)
  run_loop [] s = pure s
  run_loop (a ∷ actions) s = let rest = run_loop actions in round s a >>= go_on rest

  abbrev report_return : VehicleState F → Call (Run S) (Unit {0})
  report_return s' = do emit "fallback:return_to_home"; audit "fallback" s' "return_to_home"

  -- The last test: a low battery sends an armed vehicle home.
  unfoldable pub finish : VehicleState F → Call (Run S) (VehicleState F)
  finish s =
      if fl.lt s.battery_pct (fl.lit 10 0) && s.armed
      then handle (execute_action s fallback_action)
          (λ s'. handle (report_return s') (λ _. pure s') (fault s')) (fault s)
      else pure s

  unfoldable pub run_plan : VehicleState F → MissionPlan F → Call S (VehicleState F × List String)
  run_plan s plan w =
      with_events ((run_loop plan.actions s >>= finish) (record { world = w; events = [] }))
