-- ===== src/Controller.antt =====
-- The step from an action to a command (src/autonomy/controller.py). The time is an argument.
use autonomous_vehicle_llm.Models.{Action}

pub record ControlCommand (F : Type 0) : Type 0 where
  pub action : Action F
  pub issued_at_s : F

-- `ActionPassthroughController.command_for_action`
unfoldable pub passthrough_command : {F : Type 0} → F → Action F → ControlCommand F
passthrough_command now a = record { action = a; issued_at_s = now }
