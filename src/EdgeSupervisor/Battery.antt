-- ===== src/EdgeSupervisor/Battery.antt =====
-- The charge in a run (src/autonomy/edge_supervisor.py) over simulated and mirroring adapters.
use autonomous_vehicle_llm.Base.{
  ℕ, String, true, ◌≡◌, refl, Bool-cases, inl, inr, Option, none, some, Call,
}
use autonomous_vehicle_llm.Base.Post.{Post, Post-mono}
use autonomous_vehicle_llm.Float.{FloatOps, IsOrdered}
use autonomous_vehicle_llm.Text.{TextOps}
use autonomous_vehicle_llm.Json.{Fields}
use autonomous_vehicle_llm.Models.{
  Action, ActionType, arm, move_to, hold, return_to_home, disarm, MissionPlan, VehicleState,
}
use autonomous_vehicle_llm.VehicleAdapter.{VehicleAdapter, sim_execute, moved, drained}
use autonomous_vehicle_llm.EdgeSupervisor.{Supervisor, run_plan}
use autonomous_vehicle_llm.EdgeSupervisor.Cleared.{Logs}
use autonomous_vehicle_llm.EdgeSupervisor.Safety.{run_plan-Keeps}
use autonomous_vehicle_llm.EdgeSupervisor.Simulated.{IsSimulated, IsSimulated-Keeps}

module _ {F : Type 0} ⦃fl : FloatOps F⦄ where
  -- The charge lies between nothing and `full`.
  pub record HasCharge (full : F) (s : VehicleState F) : Type 0 where
    pub some_left : fl.le (fl.lit 0 1) s.battery_pct ≡ true
    pub at_most : fl.le s.battery_pct full ≡ true

  drained-HasCharge :
      (laws : IsOrdered F) (full : F) (s : VehicleState F) (m e : ℕ)
      → HasCharge full s
      → (fl.le (fl.lit 0 1) (drained s (fl.lit m e)) ≡ true)
        × (fl.le (drained s (fl.lit m e)) full ≡ true)
  drained-HasCharge laws full s m e h =
      elim (Bool-cases (fl.lt (fl.lit 0 1) (fl.sub s.battery_pct (fl.lit m e)))) [
        | inl c ↦ rw c (
          laws.le_of_lt (fl.lit 0 1) (fl.sub s.battery_pct (fl.lit m e)) c,
          laws.le_trans (fl.sub s.battery_pct (fl.lit m e)) s.battery_pct full
              (laws.sub-lit-le s.battery_pct m e
                (laws.refl_of_le_right (fl.lit 0 1) s.battery_pct h.some_left))
              h.at_most,
        )
        | inr c ↦
            rw c (
              laws.lit_refl 0 1,
              laws.le_trans (fl.lit 0 1) s.battery_pct full h.some_left h.at_most,
            )
      ]

  moved-HasCharge :
      (laws : IsOrdered F) (full : F) (s : VehicleState F) (x y : Option F)
      → HasCharge full s
      → HasCharge full (moved s x y)
  moved-HasCharge laws full s none y h = h
  moved-HasCharge laws full s (some x) none h = h
  moved-HasCharge laws full s (some x) (some y) h =
      let (a, b) = drained-HasCharge laws full s 2 1 h in record { some_left = a; at_most = b }

  sim_execute-HasCharge :
      (laws : IsOrdered F) (full : F) (s : VehicleState F) (a : Action F)
      → HasCharge full s
      → HasCharge full (sim_execute s a)
  unfolding sim_execute
  sim_execute-HasCharge laws full s a h = go a.type refl
    where
      go : (t : ActionType) → a.type ≡ t → HasCharge full (sim_execute s a)
      go arm e = rw e (record { some_left = h.some_left; at_most = h.at_most })
      go move_to e = rw e (moved-HasCharge laws full s a.x a.y h)
      go hold e = rw e (
          let (a, b) = drained-HasCharge laws full s 5 2 h in record { some_left = a; at_most = b })
      go return_to_home e = rw e (
          let (a, b) = drained-HasCharge laws full s 2 1 h in record { some_left = a; at_most = b })
      go disarm e = rw e (record { some_left = h.some_left; at_most = h.at_most })

module _ {F S : Type 0} ⦃fl : FloatOps F⦄ ⦃t : TextOps⦄ (sup : Supervisor F S) where
  -- With floats ordered as `IsOrdered` says: if the charge of a simulated or mirroring vehicle lies between nothing and `full` at the start,
  -- it does whenever `run_plan` returns: it never rises above what bounds its start, nor falls
  -- below zero. The audit log is taken to raise no `AdapterExecutionError`.
  pub run_plan-HasCharge :
      (laws : IsOrdered F) (full : F)
      → IsSimulated sup.adapter
      → ((ad : VehicleAdapter F S) → sup.failover_adapter ≡ some ad → IsSimulated ad)
      → ((call : String → Fields F → Call S (Unit {0})) (event_type : String) (payload : Fields F)
          → sup.audit_logger ≡ some call
          → Logs sup (λ s _. HasCharge full s) (call event_type payload))
      → (s : VehicleState F) (plan : MissionPlan F) (w : S) → HasCharge full s
      → Post (λ done _. HasCharge full done.0) (λ _ _. Unit) (run_plan sup s plan w)
  run_plan-HasCharge laws full adapter failover logs s plan w h =
      Post-mono (λ done _. HasCharge full done.0) (λ done _. HasCharge full done.0)
        (λ _ _. (u : VehicleState F) × HasCharge full u) (λ _ _. Unit) (run_plan sup s plan w)
        (λ _ _ k. k) (λ _ _ _. tt)
        (run_plan-Keeps sup (λ s _. HasCharge full s)
          (IsSimulated-Keeps sup (HasCharge full) (λ s a c. sim_execute-HasCharge laws full s a)
            adapter failover logs)
          s plan w h)
