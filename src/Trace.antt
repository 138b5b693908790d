-- ===== src/Trace.antt =====
-- The traces of missions (src/autonomy/trace.py), over the supervisor's run of a plan. `asdict` of
-- a dataclass is the record itself, and what is written for it is the artifact.
use autonomous_vehicle_llm.Base.{
  ℕ, ◌+◌, String, Bool, true, false, ◌≡◌, ◌≢◌, refl, Option, none, some, List, [], ◌∷◌, Result, ok,
  raise, Call, ◌>>=◌, ◌>>◌, pure, modify, get_state, Exc, ◌↔◌, ◌⊎◌, inl, inr, sym, ◌∙◌, ap, arith,
}
use autonomous_vehicle_llm.Base.Post.{Post}
use autonomous_vehicle_llm.Float.{FloatOps}
use autonomous_vehicle_llm.Text.{TextOps}
use autonomous_vehicle_llm.Models.{VehicleState, MissionPlan}
use autonomous_vehicle_llm.PlanVerifier.{verify}
use autonomous_vehicle_llm.PlanVerifier.WellFormed.{IsWellFormed, verify-IsWellFormed}
use autonomous_vehicle_llm.ReasonCodes.{extract_policy_reason_codes}
use autonomous_vehicle_llm.EdgeSupervisor.{Supervisor, run_plan}
use autonomous_vehicle_llm.Replay.{DeterministicTelemetryReplay, total, consumed}

pub record MissionTraceArtifact (F : Type 0) : Type 0 where
  pub contract_version : String
  pub scenario : String
  pub status : String
  pub started_at_s : F
  pub completed_at_s : F
  pub initial_state : VehicleState F
  pub final_state : Option (VehicleState F)
  pub plan : MissionPlan F
  pub events : List String
  pub policy_reason_codes : List String
  pub errors : List String
  pub telemetry_events_total : Option ℕ
  pub telemetry_events_consumed : Option ℕ

-- The outside of the supervisor, the calls of `time.time()` in this file, and the files written.
pub record Tracing (F S : Type 0) : Type 0 where
  pub world : S
  pub tick : ℕ
  pub files : List (String × MissionTraceArtifact F)

-- What a trace is made of. The replay is an object that the supervisor's pipeline reads from as well:
-- it is a part of the outside, and is looked at in it.
pub record TraceInput (F S E : Type 0) : Type 0 where
  pub scenario : String
  pub initial_state : VehicleState F
  pub plan : MissionPlan F
  pub replay : Option (S → DeterministicTelemetryReplay E)
  pub output_path : Option String

-- `replay.total() if replay else None`, and the same of `consumed`, in a state of the outside.
abbrev pub replay_count :
    {S E : Type 0}
    → (DeterministicTelemetryReplay E → ℕ)
    → Option (S → DeterministicTelemetryReplay E)
    → S
    → Option ℕ
replay_count count none world = none
replay_count count (some replay) world = some (count (replay world))

-- The files with one more write, the last one first.
abbrev pub files_after :
    {F : Type 0}
    → Option String
    → MissionTraceArtifact F
    → List (String × MissionTraceArtifact F)
    → List (String × MissionTraceArtifact F)
files_after none artifact files = files
files_after (some path) artifact files = (path, artifact) ∷ files

module _ {F S : Type 0} where
  abbrev pub now : (ℕ → F) → Call (Tracing F S) F
  now clock t = (ok (clock t.tick), record t { tick = t.tick + 1 })

  -- `if output_path is not None: self._write(output_path, artifact)`
  abbrev pub write : Option String → MissionTraceArtifact F → Call (Tracing F S) (Unit {0})
  write path artifact = modify (λ t. record t { files = files_after path artifact t.files })

  -- A call of the supervisor.
  abbrev pub on_world : {A : Type 0} → Call S A → Call (Tracing F S) A
  on_world m t = let (r, w) = m t.world in (r, record t { world = w })

module _ {F S E : Type 0} ⦃fl : FloatOps F⦄ ⦃tx : TextOps⦄ where
  abbrev rejected : TraceInput F S E → S → F → F → List String → MissionTraceArtifact F
  rejected i world started completed errors = record {
    contract_version = "1.0";
    scenario = i.scenario;
    status = "rejected";
    started_at_s = started;
    completed_at_s = completed;
    initial_state = i.initial_state;
    final_state = none;
    plan = i.plan;
    events = [];
    policy_reason_codes = [];
    errors = errors;
    telemetry_events_total = replay_count total i.replay world;
    telemetry_events_consumed = replay_count consumed i.replay world;
  }

  abbrev executed :
      TraceInput F S E → S → F → F → VehicleState F × List String → MissionTraceArtifact F
  executed i world started completed done = record {
    contract_version = "1.0";
    scenario = i.scenario;
    status = "executed";
    started_at_s = started;
    completed_at_s = completed;
    initial_state = i.initial_state;
    final_state = some done.0;
    plan = i.plan;
    events = done.1;
    policy_reason_codes = extract_policy_reason_codes done.1;
    errors = [];
    telemetry_events_total = replay_count total i.replay world;
    telemetry_events_consumed = replay_count consumed i.replay world;
  }

module _ {F S E : Type 0} ⦃fl : FloatOps F⦄ ⦃tx : TextOps⦄ where
  abbrev finish :
      TraceInput F S E → MissionTraceArtifact F → Call (Tracing F S) (MissionTraceArtifact F)
  finish i artifact = write i.output_path artifact >> pure artifact

  module _ (sup : Supervisor F S) (clock : ℕ → F) where
    abbrev run_verified :
        TraceInput F S E → F → Bool × List String → Call (Tracing F S) (MissionTraceArtifact F)
    run_verified i started (false, errors) = now clock >>= λ completed.
        get_state >>= λ t. finish i (rejected i t.world started completed errors)
    run_verified i started (true, errors) =
        on_world (run_plan sup i.initial_state i.plan) >>= λ done. now clock >>= λ completed.
        get_state >>= λ t. finish i (executed i t.world started completed done)

    unfoldable pub run : TraceInput F S E → Call (Tracing F S) (MissionTraceArtifact F)
    run i = now clock >>= λ started. run_verified i started (verify i.plan)

    -- A plan that the verifier refuses: the supervisor is not asked, and the messages are kept.
    pub record Rejected (i : TraceInput F S E) (s : Tracing F S) (a : MissionTraceArtifact F)
        (t : Tracing F S) : Type 0 where
      pub status : a.status ≡ "rejected"
      pub refused : ¬ IsWellFormed i.plan.actions
      pub messages : a.errors ≢ []
      pub final_state : a.final_state ≡ none
      pub untouched : t.world ≡ s.world

    -- A plan that it accepts: the artifact is the result of the supervisor's run.
    pub record Executed (i : TraceInput F S E) (s : Tracing F S) (a : MissionTraceArtifact F)
        (t : Tracing F S) : Type 0 where
      pub status : a.status ≡ "executed"
      pub accepted : IsWellFormed i.plan.actions
      pub done : VehicleState F × List String
      pub ran : run_plan sup i.initial_state i.plan s.world ≡ (ok done, t.world)
      pub final_state : a.final_state ≡ some done.0
      pub events : a.events ≡ done.1
      pub policy_reason_codes : a.policy_reason_codes ≡ extract_policy_reason_codes done.1
      pub errors : a.errors ≡ []
      pub telemetry_events_total : a.telemetry_events_total ≡ replay_count total i.replay t.world
      pub telemetry_events_consumed :
          a.telemetry_events_consumed ≡ replay_count consumed i.replay t.world

    -- A trace is that of a refused plan or of a run, with what the replay has handed out when the run
    -- is over, and is written where a path is given; the only thing that raises is the run of a
    -- well-formed plan.
    pub run-traces :
        (i : TraceInput F S E) (s : Tracing F S)
        → Post
            (λ a t.
              (Rejected i s a t ⊎ Executed i s a t)
              × (t.files ≡ files_after i.output_path a s.files))
            (λ e t.
              IsWellFormed i.plan.actions
              × (run_plan sup i.initial_state i.plan s.world ≡ (raise e, t.world)))
            (run i s)
    unfolding run
    run-traces i s = at (verify i.plan) refl
      where
        begun : Tracing F S
        begun = record s { tick = s.tick + 1 }

        Done : MissionTraceArtifact F → Tracing F S → Type 0
        Done a t =
            (Rejected i s a t ⊎ Executed i s a t) × (t.files ≡ files_after i.output_path a s.files)

        Failed : Exc → Tracing F S → Type 0
        Failed e t =
            IsWellFormed i.plan.actions
            × (run_plan sup i.initial_state i.plan s.world ≡ (raise e, t.world))

        after :
            IsWellFormed i.plan.actions
            → (x : Result (VehicleState F × List String) × S)
            → run_plan sup i.initial_state i.plan s.world ≡ x
            → Post Done Failed (
                ((λ (u : Tracing F S). (x.0, record begun { world = x.1 })) >>= λ done.
                now clock >>= λ completed.
                get_state >>= λ t. finish i (executed i t.world (clock s.tick) completed done))
                  begun)
        after w (ok done, world) e = (
          inr record {
            status = refl;
            accepted = w;
            done = done;
            ran = e;
            final_state = refl;
            events = refl;
            policy_reason_codes = refl;
            errors = refl;
            telemetry_events_total = refl;
            telemetry_events_consumed = refl;
          },
          refl,
        )
        after w (raise x, world) e = (w, e)

        checked :
            ((verify i.plan ≡ (true, [])) ↔ IsWellFormed i.plan.actions)
            × ((verify i.plan).0 ≡ true → (verify i.plan).1 ≡ [])
            × ((verify i.plan).1 ≡ [] → (verify i.plan).0 ≡ true)
        checked = verify-IsWellFormed i.plan

        wellformed :
            (errors : List String) → verify i.plan ≡ (true, errors) → IsWellFormed i.plan.actions
        wellformed errors e =
            checked.0.0
              (e ∙ ap (λ l. (true, l)) (sym (ap (λ v. v.1) e) ∙ checked.1 (ap (λ v. v.0) e)))

        refuses :
            (errors : List String) → verify i.plan ≡ (false, errors) → (verify i.plan).0 ≡ true → ⊥
        refuses errors e h =
            let clash : false ≡ true = sym (ap (λ v. v.0) e) ∙ h in absurd (ground (arith, clash))

        at :
            (v : Bool × List String)
            → verify i.plan ≡ v
            → Post Done Failed (run_verified i (clock s.tick) v begun)
        at (true, errors) e =
            after (wellformed errors e) (run_plan sup i.initial_state i.plan s.world) refl
        at (false, errors) e = (
          inl record {
            status = refl;
            refused = λ w. refuses errors e (ap (λ v. v.0) (checked.0.1 w));
            messages = λ h. refuses errors e (checked.2 (ap (λ v. v.1) e ∙ h));
            final_state = refl;
            untouched = refl;
          },
          refl,
        )
