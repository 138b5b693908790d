-- ===== src/EdgeSupervisor/Rounds.antt =====
-- Invariants through one round of the loop (src/autonomy/edge_supervisor.py), branch by branch.
use autonomous_vehicle_llm.Base.{
  String, Bool, true, false, not, ◌&&◌, raise_if, ◌≡◌, refl, some, List, [], ◌∷◌, Bool-cases, inl,
  inr, Exc, Result, ok, adapter_execution_error, exception, Call, ◌>>=◌, ◌>>◌, pure, handle,
}
use autonomous_vehicle_llm.Base.Post.{Post, Post-outcome, Post-mono, Post-handle, Post-then}
use autonomous_vehicle_llm.Float.{FloatOps}
use autonomous_vehicle_llm.Text.{TextOps}
use autonomous_vehicle_llm.Models.{Action, VehicleState}
use autonomous_vehicle_llm.SafetyKernel.{precheck, fallback_action}
use autonomous_vehicle_llm.SafetyKernel.Policy.{IsPermitted-of_true}
use autonomous_vehicle_llm.Perception.{PerceptionFrame}
use autonomous_vehicle_llm.Localization.{LocalizationEstimate}
use autonomous_vehicle_llm.VehicleAdapter.{supports}
use autonomous_vehicle_llm.EdgeSupervisor.{
  Supervisor, Run, lift, report_recovery, report_exec, report_return, prepared, prepare_command,
  prepare_checks, go_on, Round, next, stop, Prepared, audit, execute_action, prepare, fault,
  recover, failed_transport, dispatch, over_speed, guarded, refused, round, run_loop, finish,
}
use autonomous_vehicle_llm.EdgeSupervisor.Cleared.{
  Readings, IsSensed, OnlyOther, IsCleared, fallback, checked, Passive, Keeps,
}
use autonomous_vehicle_llm.EdgeSupervisor.Keeping

module _ {F S : Type 0} ⦃fl : FloatOps F⦄ ⦃t : TextOps⦄ (sup : Supervisor F S)
    (Inv : VehicleState F → S → Type 0) (keeps : Keeps sup Inv) where
  abbrev Raised : Exc → Run S → Type 0
  Raised = Keeping.Raised sup Inv keeps

  abbrev RaisedFrom : VehicleState F → Exc → Run S → Type 0
  RaisedFrom = Keeping.RaisedFrom sup Inv keeps

  abbrev Arrives : Result (VehicleState F) × Run S → Type 0
  Arrives = Keeping.Arrives sup Inv keeps

  abbrev Ends : Result (Round F) × Run S → Type 0
  Ends = Keeping.Ends sup Inv keeps

  abbrev reached : Round F → VehicleState F
  reached = Keeping.reached sup Inv keeps

  -- The checks are made on what the sensors gave, for the action of the command.
  abbrev IsPrepared : VehicleState F → Prepared F → Type 0
  IsPrepared s p = (r : Readings sup s) × IsSensed sup s r p.checks × (p.action ≡ r.command.action)

  -- A call of a passive collaborator, then the rest.
  Passive-then :
      {A B : Type 0} (R : B → Run S → Type 0) (s : VehicleState F) (m : Call S A)
      (f : A → Call (Run S) B) (r : Run S)
      → Passive sup Inv m
      → Inv s r.world
      → ((a : A) (q : Run S)
          → Inv s q.world
          → m r.world ≡ (ok a, q.world)
          → Post R (λ _ v. Inv s v.world) (f a q))
      → Post R (λ _ v. Inv s v.world) ((lift m >>= f) r)
  Passive-then R s m f r p h k =
      Post-then (λ a q. Inv s q.world × (m r.world ≡ (ok a, q.world))) R (λ _ q. Inv s q.world)
        (λ _ q. Inv s q.world) (lift m) f r
        (Keeping.lift-Post sup Inv keeps (λ a v. Inv s v × (m r.world ≡ (ok a, v))) (λ _ v. Inv s v)
          m r (Post-outcome (λ _ v. Inv s v) (λ _ v. Inv s v) (m r.world) (p s r.world h)))
        (λ a q l. k a q l.0 l.1) (λ e q l. l)

  abbrev Ready : VehicleState F → Prepared F → Run S → Type 0
  Ready s p q = Inv s q.world × IsPrepared s p

  prepare_command-Ready :
      (s : VehicleState F) (a : Action F) (frame : PerceptionFrame F) (loc : LocalizationEstimate F)
      (now : F) (before observed estimated : S) (r : Run S)
      → sup.perception_pipeline s before ≡ (ok frame, observed)
      → sup.localization_engine s (some frame) observed ≡ (ok loc, estimated)
      → loc.fresh ≡ true
      → sup.clock estimated ≡ (ok now, r.world)
      → Inv s r.world
      → Post (Ready s) (λ _ v. Inv s v.world) (prepare_command sup s a frame loc now r)
  prepare_command-Ready s a frame loc now before observed estimated r o e fresh c h =
      Passive-then (Ready s) s (sup.avoidance_planner a loc (some frame) sup.mapping_service)
        (λ refined.
          lift (sup.controller refined loc) >>= λ c. pure (prepared sup s frame loc now c))
        r (keeps.refine a loc (some frame)) h
        (λ refined q k p.
          Passive-then (Ready s) s (sup.controller refined loc)
            (λ c. pure (prepared sup s frame loc now c)) q (keeps.command refined loc) k
            (λ command v l d. (
              l,
              (
                record {
                  ordered = a;
                  frame = frame;
                  loc = loc;
                  now = now;
                  refined = refined;
                  command = command;
                  before = before;
                  observed = observed;
                  estimated = estimated;
                  timed = r.world;
                  planned = q.world;
                  after = v.world;
                  observes = o;
                  estimates = e;
                  fresh = fresh;
                  tells = c;
                  refines = p;
                  commands = d;
                },
                record {
                  x = refl;
                  y = refl;
                  heading_rad = refl;
                  vx_mps = refl;
                  vy_mps = refl;
                  position_std_m = refl;
                  sensor_age_s = refl;
                  nearest_obstacle_distance_m = refl;
                  battery_pct = refl;
                  armed = refl;
                  connected = refl;
                },
                refl,
              ),
            )))

  prepare_checks-Ready :
      (s : VehicleState F) (a : Action F) (frame : PerceptionFrame F) (loc : LocalizationEstimate F)
      (before observed : S) (r : Run S)
      → sup.perception_pipeline s before ≡ (ok frame, observed)
      → sup.localization_engine s (some frame) observed ≡ (ok loc, r.world)
      → Inv s r.world
      → Post (Ready s) (λ _ v. Inv s v.world) (prepare_checks sup s a frame loc r)
  prepare_checks-Ready s a frame loc before observed r o e h = go loc.fresh refl
    where
      go :
          (b : Bool)
          → loc.fresh ≡ b
          → Post
              (Ready s)
              (λ _ v. Inv s v.world)
              ((raise_if (not b) (adapter_execution_error "localization_stale")
                  >> (lift sup.clock >>= prepare_command sup s a frame loc))
                r)
      go true fresh =
          Passive-then (Ready s) s sup.clock (prepare_command sup s a frame loc) r keeps.clock h
            (λ now q k c.
              prepare_command-Ready s a frame loc now before observed r.world q o e fresh c k)
      go false stale = h

  pub prepare-Ready :
      (s : VehicleState F) (a : Action F) (r : Run S)
      → Inv s r.world
      → Post (Ready s) (λ _ v. Inv s v.world) (prepare sup s a r)
  unfolding prepare
  prepare-Ready s a r h =
      Passive-then (Ready s) s (sup.perception_pipeline s)
        (λ frame. lift (sup.localization_engine s (some frame)) >>= prepare_checks sup s a frame) r
        (keeps.observe s) h
        (λ frame q k o.
          Passive-then (Ready s) s (sup.localization_engine s (some frame))
            (prepare_checks sup s a frame) q (keeps.estimate s (some frame)) k
            (λ loc v l e. prepare_checks-Ready s a frame loc r.world q.world v o e l))

  -- The last fallback, which may fail without ending the run.
  fault-Arrives :
      (s : VehicleState F) (e : Exc) (r : Run S) → RaisedFrom s e r → Arrives (fault sup s e r)
  unfolding fault
  fault-Arrives s (adapter_execution_error message) r h = h
  fault-Arrives s (exception message) r h = h

  -- Lines of the audit log after an action that has been carried out.
  reported-Arrives :
      (s : VehicleState F) (report : Call (Run S) (Unit {0})) (r : Run S)
      → Post (λ _ q. Inv s q.world) (RaisedFrom s) (report r)
      → Arrives (handle report (λ _. pure s) (fault sup s) r)
  reported-Arrives s report r h =
      Post-handle (λ _ q. Inv s q.world) (λ u q. Inv u q.world) (RaisedFrom s) Raised report
        (λ _. pure s) (fault sup s) r h (λ _ q k. k) (fault-Arrives s)

  -- One line, and two.
  noted :
      (event_type detail : String) (s : VehicleState F) (r : Run S)
      → Inv s r.world
      → Post (λ _ q. Inv s q.world) (RaisedFrom s) (audit sup event_type s detail r)
  noted event_type detail s r h =
      Post-mono (λ _ q. Inv s q.world) (λ _ q. Inv s q.world) (λ e q. OnlyOther sup Inv s e q.world)
        (RaisedFrom s) (audit sup event_type s detail r) (λ _ q k. k)
        (Keeping.other-RaisedFrom sup Inv keeps s s)
        (Keeping.audit-Noted sup Inv keeps event_type detail s s r h)

  noted_twice :
      (type1 detail1 type2 detail2 : String) (s : VehicleState F) (r : Run S)
      → Inv s r.world
      → Post
          (λ _ q. Inv s q.world)
          (RaisedFrom s)
          ((audit sup type1 s detail1 >>= λ _. audit sup type2 s detail2) r)
  noted_twice type1 detail1 type2 detail2 s r h =
      Keeping.audit-then sup Inv keeps (λ _ q. Inv s q.world) (RaisedFrom s) type1 detail1 s s
        (audit sup type2 s detail2) r h (λ q k. noted type2 detail2 s q k)
        (Keeping.other-RaisedFrom sup Inv keeps s s)

  -- The fallback, and what is said of it, under `except AdapterExecutionError`.
  fallback-Arrives :
      (s : VehicleState F) (report : VehicleState F → Call (Run S) (Unit {0})) (r : Run S)
      → ((u : VehicleState F) (q : Run S)
          → Inv u q.world
          → Post (λ _ v. Inv u v.world) (RaisedFrom u) (report u q))
      → Inv s r.world
      → Arrives (
          handle
            (execute_action sup s fallback_action)
            (λ u. handle (report u) (λ _. pure u) (fault sup u))
            (fault sup s)
            r)
  fallback-Arrives s report r g h =
      Post-handle (λ u q. Inv u q.world) (λ u q. Inv u q.world) (RaisedFrom s) Raised
        (execute_action sup s fallback_action) (λ u. handle (report u) (λ _. pure u) (fault sup u))
        (fault sup s) r
        (Keeping.execute_action-Moves sup Inv keeps s fallback_action r (fallback refl) h)
        (λ u q k. reported-Arrives u (report u) q (g u q k)) (fault-Arrives s)

  recover-Arrives : (s : VehicleState F) (r : Run S) → Inv s r.world → Arrives (recover sup s r)
  unfolding recover
  recover-Arrives s r h =
      fallback-Arrives s (report_recovery sup) r
        (λ u q k. noted_twice "policy_block" "transport_failure" "fallback" "return_to_home" u _ k)
        h

  pub finish-Arrives : (s : VehicleState F) (r : Run S) → Inv s r.world → Arrives (finish sup s r)
  unfolding finish
  finish-Arrives s r h = elim (Bool-cases (fl.lt s.battery_pct (fl.lit 10 0) && s.armed)) [
    | inl low ↦ rw low (
        fallback-Arrives s (report_return sup) r (λ u q k. noted "fallback" "return_to_home" u _ k)
          h)
    | inr fine ↦ rw fine h
  ]

  failed_transport-Ends :
      (s : VehicleState F) (e : Exc) (r : Run S)
      → RaisedFrom s e r
      → Ends (failed_transport sup s e r)
  unfolding failed_transport
  failed_transport-Ends s (adapter_execution_error message) r h =
      Post-then (λ u q. Inv u q.world) (λ o q. Inv (reached o) q.world) Raised Raised
        (recover sup s) (λ u. pure (stop u)) _ (recover-Arrives s _ h) (λ u q k. k) (λ e q k. k)
  failed_transport-Ends s (exception message) r h = h

  dispatch-Ends :
      (s : VehicleState F) (a : Action F) (r : Run S)
      → IsCleared sup s a
      → Inv s r.world
      → Ends (dispatch sup s a r)
  unfolding dispatch
  dispatch-Ends s a r c h =
      Post-handle (λ u q. Inv u q.world) (λ o q. Inv (reached o) q.world) (RaisedFrom s) Raised
        (execute_action sup s a)
        (λ u. handle (report_exec sup a u) (λ _. pure (next u)) (failed_transport sup u))
        (failed_transport sup s) r (Keeping.execute_action-Moves sup Inv keeps s a r c h)
        (λ u q k.
          Post-handle (λ _ v. Inv u v.world) (λ o v. Inv (reached o) v.world) (RaisedFrom u) Raised
            (report_exec sup a u) (λ _. pure (next u)) (failed_transport sup u) q
            (noted "exec" _ u _ k) (λ _ v l. l) (failed_transport-Ends u))
        (failed_transport-Ends s)

  guarded-Ends :
      (s : VehicleState F) (p : Prepared F) (r : Run S) → Ready s p r → Ends (guarded sup s p r)
  unfolding guarded
  guarded-Ends s p r (h, (readings, sensed, commanded)) =
      elim (Bool-cases (over_speed sup p.action)) [
        | inl fast ↦ rw fast (Keeping.block-Ends sup Inv keeps _ _ s r h)
        | inr slow ↦ elim (Bool-cases (supports sup.adapter p.action)) [
          | inr unsupported ↦ rw (slow, unsupported) (Keeping.block-Ends sup Inv keeps _ _ s r h)
          | inl supported ↦ elim (Bool-cases (precheck sup.config p.checks p.action).0) [
            | inr no_permit ↦
                rw (slow, supported, no_permit) (Keeping.block-Ends sup Inv keeps _ _ s r h)
            | inl permit ↦
                rw (slow, supported, permit)
                  (dispatch-Ends s p.action r
                    (checked readings p.checks sensed commanded
                      (IsPermitted-of_true sup.config p.checks p.action permit) slow supported)
                    h)
          ]
        ]
      ]

  pub round-Ends :
      (s : VehicleState F) (a : Action F) (r : Run S) → Inv s r.world → Ends (round sup s a r)
  unfolding round
  round-Ends s a r h =
      Post-handle (Ready s) (λ o q. Inv (reached o) q.world) (λ _ v. Inv s v.world) Raised
        (prepare sup s a) (guarded sup s) (refused sup s) r (prepare-Ready s a r h)
        (λ p q k. guarded-Ends s p q k) refused-Ends
    where
      refused-Ends : (e : Exc) (q : Run S) → Inv s q.world → Ends (refused sup s e q)
      refused-Ends (adapter_execution_error message) q k =
          Keeping.block-Ends sup Inv keeps message message s q k
      refused-Ends (exception message) q k = Keeping.block-Ends sup Inv keeps _ _ s q k

  pub run_loop-Arrives :
      (actions : List (Action F)) (s : VehicleState F) (r : Run S)
      → Inv s r.world
      → Arrives (run_loop sup actions s r)
  unfolding run_loop
  run_loop-Arrives [] s r h = h
  run_loop-Arrives (a ∷ actions) s r h =
      let rest = run_loop-Arrives actions in
      Post-then (λ o q. Inv (reached o) q.world) (λ u q. Inv u q.world) Raised Raised
        (round sup s a) (go_on (run_loop sup actions)) r (round-Ends s a r h)
        (λ o q k. go rest o q k) (λ e q k. k)
    where
      go :
          ((u : VehicleState F) (q : Run S) → Inv u q.world → Arrives (run_loop sup actions u q))
          → (o : Round F) (q : Run S) → Inv (reached o) q.world
          → Arrives (go_on (run_loop sup actions) o q)
      go rest (next u) q k = rest u q k
      go rest (stop u) q k = k
