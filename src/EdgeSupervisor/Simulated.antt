-- ===== src/EdgeSupervisor/Simulated.antt =====
-- Simulated vehicles, and those that mirror a simulated one over a transport
-- (src/autonomy/vehicle_adapter.py): properties of the simulated state as invariants of a run.
use autonomous_vehicle_llm.Base.{
  String, ◌≡◌, some, Result, ok, raise, adapter_execution_error, Call, handle, exc_text, pure, fail,
}
use autonomous_vehicle_llm.Base.Post.{Post}
use autonomous_vehicle_llm.Float.{FloatOps}
use autonomous_vehicle_llm.Json.{Fields}
use autonomous_vehicle_llm.Models.{Action, VehicleState, CapabilityProfile}
use autonomous_vehicle_llm.VehicleAdapter.{
  VehicleAdapter, sim_execute, sim_adapter, transport_adapter, transport_execute, command_payload,
}
use autonomous_vehicle_llm.EdgeSupervisor.{Supervisor}
use autonomous_vehicle_llm.EdgeSupervisor.Cleared.{IsCleared, Passive, Executes, Logs, Keeps}

-- What both kinds of adapters are.
pub data IsSimulated {F S : Type 0} ⦃fl : FloatOps F⦄ (ad : VehicleAdapter F S) : Type 0 where
  simulated : (p : CapabilityProfile F) → ad ≡ sim_adapter p → IsSimulated ad
  mirrored :
      (p : CapabilityProfile F) (send_command : String → Fields F → Call S (Unit {0}))
      → ad ≡ transport_adapter p send_command
      → IsSimulated ad

module _ {F S : Type 0} ⦃fl : FloatOps F⦄ (sup : Supervisor F S) (P : VehicleState F → Type 0)
    (step : (s : VehicleState F) (a : Action F)
      → IsCleared sup s a
      → P s
      → P (sim_execute s a)) where
  -- A call whose result does not move the vehicle.
  state-Passive : {A : Type 0} (m : Call S A) → Passive sup (λ s _. P s) m
  state-Passive {A} m s w h = go (m w)
    where
      go : (r : Result A × S) → Post (λ _ v. P s) (λ _ v. P s) r
      go (ok a, v) = h
      go (raise e, v) = h

  IsSimulated-Executes : (ad : VehicleAdapter F S) → IsSimulated ad → Executes sup (λ s _. P s) ad
  unfolding transport_execute
  IsSimulated-Executes ad (simulated p e) s a w c h = rw e (step s a c h)
  IsSimulated-Executes ad (mirrored p send_command e) s a w c h =
      rw e (go (send_command s.vehicle_id (command_payload a) w))
    where
      go :
          (r : Result (Unit {0}) × S)
          → Post
              (λ s' v. P s')
              (λ _ v. P s)
              (handle
                (λ _. r)
                (λ _. pure (sim_execute s a))
                (λ e. fail (adapter_execution_error (exc_text e)))
                w)
      go (ok u, v) = step s a c h
      go (raise x, v) = h

  pub IsSimulated-Keeps :
      IsSimulated sup.adapter
      → ((ad : VehicleAdapter F S) → sup.failover_adapter ≡ some ad → IsSimulated ad)
      → ((call : String → Fields F → Call S (Unit {0})) (event_type : String) (payload : Fields F)
          → sup.audit_logger ≡ some call
          → Logs sup (λ s _. P s) (call event_type payload))
      → Keeps sup (λ s _. P s)
  IsSimulated-Keeps adapter failover logs = record {
    execute = IsSimulated-Executes sup.adapter adapter;
    failover = λ ad e. IsSimulated-Executes ad (failover ad e);
    log = logs;
    observe = λ u. state-Passive (sup.perception_pipeline u);
    estimate = λ u frame. state-Passive (sup.localization_engine u frame);
    clock = state-Passive sup.clock;
    refine = λ a loc frame. state-Passive (sup.avoidance_planner a loc frame sup.mapping_service);
    command = λ a loc. state-Passive (sup.controller a loc);
  }
