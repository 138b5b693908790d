-- ===== src/Tests/Traces.antt =====
-- A trace of a run, a replay of three events, and a log that is opened again.
use autonomous_vehicle_llm.Base.{
  ℕ, ◌≡◌, refl, ap, ◌∙◌, none, some, [], ◌∷◌, Option, Result, ok, raise, pure, ◌>>◌, ◌⊎◌,
}
use autonomous_vehicle_llm.Base.Int.{pos}
use autonomous_vehicle_llm.Base.Post.{Post}
use autonomous_vehicle_llm.Float.Hundredths.{Hundredths, hundredths_ops}
use autonomous_vehicle_llm.Json.{Fields, str, end, field}
use autonomous_vehicle_llm.PlanVerifier.WellFormed.{IsWellFormed}
use autonomous_vehicle_llm.EdgeSupervisor.{
  Supervisor, run_plan, run_loop, round, prepare, guarded, dispatch, execute_action, audit, lift,
  finish, block,
}
use autonomous_vehicle_llm.Models.{default_policy}
use autonomous_vehicle_llm.SafetyKernel.{precheck, check_move, check_disarm}
use autonomous_vehicle_llm.PlanVerifier.{verify, verify_actions, loop_errors, action_errors}
use autonomous_vehicle_llm.VehicleAdapter.{supports, sim_adapter, ground_profile, sim_execute}
use autonomous_vehicle_llm.Perception.{empty_frame}
use autonomous_vehicle_llm.Mapping.{nearest, geofence_mapping_service}
use autonomous_vehicle_llm.Localization.{pass_through_estimate}
use autonomous_vehicle_llm.Controller.{passthrough_command}
use autonomous_vehicle_llm.Replay.{
  DeterministicTelemetryReplay, remaining, reset, next_event, next_events, next_events-reset,
}
use autonomous_vehicle_llm.Trace.{
  Tracing, TraceInput, MissionTraceArtifact, files_after, run, Rejected, Executed, run-traces,
}
use autonomous_vehicle_llm.AuditLog.{
  SignedAuditLogger, LogOutside, KeepsTexts, log, open_log, log-open_log,
}
use autonomous_vehicle_llm.Tests.Codec.{plain_fields, plain_option, decode_plain, get-plain_fields}
use autonomous_vehicle_llm.Tests.Texts.{sample_texts, sample_values}
use autonomous_vehicle_llm.Tests.Vehicle.{start, plan}

abbrev clock : ℕ → Hundredths
clock n = hundredths_ops.lit n 0

abbrev replay : DeterministicTelemetryReplay ℕ
replay = record { events = 7 ∷ 8 ∷ 9 ∷ []; index = 2 }

abbrev pub Replayed : Type 0
Replayed = DeterministicTelemetryReplay ℕ

-- Each round of the supervisor takes an event from the replay.
abbrev replaying : Supervisor Hundredths Replayed
replaying = record {
  config = default_policy;
  adapter = sim_adapter ground_profile;
  failover_adapter = none;
  audit_logger = none;
  perception_pipeline = λ s r. (ok (empty_frame (clock 0)), (next_event r).1);
  localization_engine = λ s frame. pure (pass_through_estimate (clock 0) s frame);
  mapping_service = geofence_mapping_service (clock 100);
  avoidance_planner = λ a loc frame m. pure a;
  controller = λ a loc. pure (passthrough_command (clock 0) a);
  clock = pure (clock 0);
}

abbrev sample_input : TraceInput Hundredths Replayed ℕ
sample_input = record {
  scenario = "patrol";
  initial_state = start;
  plan = plan;
  replay = some (λ r. r);
  output_path = some "trace.json";
}

abbrev sample_tracing : Tracing Hundredths Replayed
sample_tracing = record {
  world = record { events = 7 ∷ 8 ∷ 9 ∷ []; index = 0 };
  tick = 0;
  files = [];
}

abbrev consumed_in : Result (MissionTraceArtifact Hundredths) → Option ℕ
consumed_in (ok a) = a.telemetry_events_consumed
consumed_in (raise e) = none

-- The four rounds have used up the three events.
used_up : consumed_in (run replaying clock sample_input sample_tracing).0 ≡ some 3
unfolding run verify run_plan run_loop round prepare guarded precheck check_move check_disarm
    dispatch execute_action audit lift finish sim_execute next_event verify_actions loop_errors
    action_errors pass_through_estimate passthrough_command supports nearest block
used_up = refl

run-traces_example :
    Post
      (λ a t.
        (Rejected replaying clock sample_input sample_tracing a t
          ⊎ Executed replaying clock sample_input sample_tracing a t)
        × (t.files ≡ files_after (some "trace.json") a []))
      (λ e t.
        IsWellFormed plan.actions
        × (run_plan replaying start plan sample_tracing.world ≡ (raise e, t.world)))
      (run replaying clock sample_input sample_tracing)
run-traces_example = run-traces replaying clock sample_input sample_tracing

next_events-reset_example :
    ((next_events 3 (reset replay)).0 ≡ some 7 ∷ some 8 ∷ some 9 ∷ [])
    × (remaining (next_events 3 (reset replay)).1 ≡ pos 0)
    × (next_event (next_events 3 (reset replay)).1 ≡ (none, (next_events 3 (reset replay)).1))
next_events-reset_example = next_events-reset replay

sample-KeepsTexts : KeepsTexts sample_values
sample-KeepsTexts = record {
  str_text = λ s. refl;
  line_texts =
      λ d k s h g. (plain_fields d, decode_plain d, get-plain_fields k d ∙ ap plain_option g);
}

abbrev log_outside : LogOutside
log_outside = record { clock = λ n. "now"; hmac = λ key text. text }

abbrev logger : SignedAuditLogger
logger = record { lines = none; last_hash = ""; tick = 0 }

abbrev payload : Fields Hundredths
payload = field "action" (str "arm") end

log-open_log_example :
    (open_log Hundredths >> log log_outside "key" "executed" payload)
      (record (log log_outside "key" "plan_start" payload logger).1 { last_hash = "" })
    ≡ log log_outside "key" "executed" payload (log log_outside "key" "plan_start" payload logger).1
log-open_log_example =
    log-open_log log_outside "key" sample-KeepsTexts "plan_start" "executed" payload payload logger
      ""
