-- ===== src/EdgeSupervisor/Keeping.antt =====
-- Invariants through the single calls of the supervisor (src/autonomy/edge_supervisor.py).
use autonomous_vehicle_llm.Base.{
  String, ◌≡◌, refl, Option, none, some, Option-cases, inl, inr, Exc, Result, ok, raise,
  adapter_execution_error, exception, Call, ◌>>=◌, pure, on_adapter_error,
}
use autonomous_vehicle_llm.Base.Post.{Post, Post-handle, Post-then}
use autonomous_vehicle_llm.Float.{FloatOps}
use autonomous_vehicle_llm.Text.{TextOps}
use autonomous_vehicle_llm.Models.{Action, VehicleState}
use autonomous_vehicle_llm.SafetyKernel.{fallback_action}
use autonomous_vehicle_llm.VehicleAdapter.{VehicleAdapter}
use autonomous_vehicle_llm.EdgeSupervisor.{
  Supervisor, Run, lift, report_failover, report_block, Round, next, stop, audit, try_failover,
  execute_action, block,
}
use autonomous_vehicle_llm.EdgeSupervisor.Cleared.{OnlyOther, IsCleared, fallback, Executes, Keeps}

module _ {F S : Type 0} ⦃fl : FloatOps F⦄ ⦃t : TextOps⦄ (sup : Supervisor F S)
    (Inv : VehicleState F → S → Type 0) (keeps : Keeps sup Inv) where
  -- After a raise the invariant holds for the last state that was reached.
  abbrev pub Raised : Exc → Run S → Type 0
  Raised e r = (s : VehicleState F) × Inv s r.world

  -- An `AdapterExecutionError` leaves the vehicle in `s`.
  abbrev pub RaisedFrom : VehicleState F → Exc → Run S → Type 0
  RaisedFrom s (adapter_execution_error message) r = Inv s r.world
  RaisedFrom s (exception message) r = (s' : VehicleState F) × Inv s' r.world

  -- The vehicle is still in `s`.
  abbrev pub Stays : VehicleState F → {A : Type 0} → Result A × Run S → Type 0
  Stays s = Post (λ _ r. Inv s r.world) (λ _ r. Inv s r.world)

  abbrev pub Noted : VehicleState F → Result (Unit {0}) × Run S → Type 0
  Noted s = Post (λ _ r. Inv s r.world) (λ e r. OnlyOther sup Inv s e r.world)

  abbrev pub Arrives : Result (VehicleState F) × Run S → Type 0
  Arrives = Post (λ s r. Inv s r.world) Raised

  abbrev pub reached : Round F → VehicleState F
  reached (next s) = s
  reached (stop s) = s

  abbrev pub Ends : Result (Round F) × Run S → Type 0
  Ends = Post (λ o r. Inv (reached o) r.world) Raised

  -- An adapter call: it arrives, or raises in the state in which it was made.
  abbrev pub Moves : VehicleState F → Result (VehicleState F) × Run S → Type 0
  Moves s = Post (λ s' r. Inv s' r.world) (RaisedFrom s)

  pub lift-Post :
      {A : Type 0} (Q : A → S → Type 0) (E : Exc → S → Type 0) (m : Call S A) (r : Run S)
      → Post Q E (m r.world)
      → Post (λ a q. Q a q.world) (λ e q. E e q.world) (lift m r)
  unfolding lift
  lift-Post {A} Q E m r h = go (m r.world) h
    where
      go :
          (x : Result A × S)
          → Post Q E x
          → Post
              (λ a q. Q a q.world)
              (λ e q. E e q.world)
              (let (a, w) = x in (a, record r { world = w }))
      go (ok a, w) k = k
      go (raise e, w) k = k

  pub audit-Noted :
      (event_type detail : String) (s u : VehicleState F) (r : Run S)
      → Inv u r.world
      → Noted u (audit sup event_type s detail r)
  unfolding audit
  audit-Noted event_type detail s u r h = elim (Option-cases sup.audit_logger) [
    | inl e ↦ rw (e, audit) h
    | inr (call, e) ↦
        rw (e, audit)
          (lift-Post (λ _ v. Inv u v) (OnlyOther sup Inv u) _ r
            (keeps.log call event_type _ e u r.world h))
  ]

  -- A line of the audit log, then the rest.
  pub audit-then :
      {B : Type 0} (R : B → Run S → Type 0) (E : Exc → Run S → Type 0) (event_type detail : String)
      (s u : VehicleState F) (m : Call (Run S) B) (r : Run S)
      → Inv u r.world
      → ((q : Run S) → Inv u q.world → Post R E (m q))
      → ((e : Exc) (q : Run S) → OnlyOther sup Inv u e q.world → E e q)
      → Post R E ((audit sup event_type s detail >>= λ _. m) r)
  audit-then R E event_type detail s u m r h k g =
      Post-then (λ _ q. Inv u q.world) R (λ e q. OnlyOther sup Inv u e q.world) E
        (audit sup event_type s detail) (λ _. m) r (audit-Noted event_type detail s u r h)
        (λ _ q. k q) g

  pub other-RaisedFrom :
      (s u : VehicleState F) (e : Exc) (q : Run S)
      → OnlyOther sup Inv u e q.world
      → RaisedFrom s e q
  other-RaisedFrom s u (adapter_execution_error message) q h = absurd h
  other-RaisedFrom s u (exception message) q h = (u, h)

  pub other-Raised :
      (u : VehicleState F) (e : Exc) (q : Run S) → OnlyOther sup Inv u e q.world → Raised e q
  other-Raised u (adapter_execution_error message) q h = absurd h
  other-Raised u (exception message) q h = (u, h)

  pub RaisedFrom-Raised : (s : VehicleState F) (e : Exc) (q : Run S) → RaisedFrom s e q → Raised e q
  RaisedFrom-Raised s (adapter_execution_error message) q h = (s, h)
  RaisedFrom-Raised s (exception message) q h = h

  adapter-Moves :
      (s : VehicleState F) (a : Action F) (ad : VehicleAdapter F S) (r : Run S)
      → Executes sup Inv ad
      → IsCleared sup s a
      → Inv s r.world
      → Post (λ s' q. Inv s' q.world) (λ _ q. Inv s q.world) (lift (ad.execute s a) r)
  adapter-Moves s a ad r x c h =
      lift-Post (λ s' v. Inv s' v) (λ _ v. Inv s v) (ad.execute s a) r (x s a r.world c h)

  pub from : (s : VehicleState F) (e : Exc) (q : Run S) → Inv s q.world → RaisedFrom s e q
  from s (adapter_execution_error message) q h = h
  from s (exception message) q h = (s, h)

  failover-Moves :
      (s : VehicleState F) (a : Action F) (o : Option (VehicleAdapter F S)) (message : String)
      (r : Run S)
      → sup.failover_adapter ≡ o
      → IsCleared sup s a
      → Inv s r.world
      → Moves s (try_failover sup s a o message r)
  failover-Moves s a none message r e c h = h
  failover-Moves s a (some ad) message r e c h =
      Post-then (λ s' q. Inv s' q.world) (λ s' q. Inv s' q.world) (λ _ q. Inv s q.world)
        (RaisedFrom s) (lift (ad.execute s a)) (report_failover sup a message) r
        (adapter-Moves s a ad r (keeps.failover ad e) c h)
        (λ s' q k.
          audit-then (λ u v. Inv u v.world) (RaisedFrom s) "failover" message s' s' (pure s') _ k
            (λ v l. l) (other-RaisedFrom s s'))
        (from s)

  caught-Moves :
      (s : VehicleState F) (a : Action F) (e : Exc) (r : Run S)
      → IsCleared sup s a
      → Inv s r.world
      → Moves s (on_adapter_error (try_failover sup s a sup.failover_adapter) e r)
  caught-Moves s a (adapter_execution_error message) r c h =
      failover-Moves s a sup.failover_adapter message r refl c h
  caught-Moves s a (exception message) r c h = (s, h)

  pub execute_action-Moves :
      (s : VehicleState F) (a : Action F) (r : Run S)
      → IsCleared sup s a
      → Inv s r.world
      → Moves s (execute_action sup s a r)
  unfolding execute_action
  execute_action-Moves s a r c h =
      Post-handle (λ s' q. Inv s' q.world) (λ s' q. Inv s' q.world) (λ _ q. Inv s q.world)
        (RaisedFrom s) (lift (sup.adapter.execute s a)) pure
        (on_adapter_error (try_failover sup s a sup.failover_adapter)) r
        (adapter-Moves s a sup.adapter r keeps.execute c h) (λ s' q k. k)
        (λ e q k. caught-Moves s a e q c k)

  pub block-Ends :
      (reason audited : String) (s : VehicleState F) (r : Run S)
      → Inv s r.world
      → Ends (block sup reason audited s r)
  unfolding block
  block-Ends reason audited s r h =
      Post-then (λ s' q. Inv s' q.world) (λ o q. Inv (reached o) q.world) (RaisedFrom s) Raised
        (execute_action sup s fallback_action) (report_block sup audited) _
        (execute_action-Moves s fallback_action _ (fallback refl) h)
        (λ s' q k.
          audit-then (λ o v. Inv (reached o) v.world) Raised "policy_block" audited s' s'
            (audit sup "fallback" s' "return_to_home" >>= λ _. pure (stop s')) _ k
            (λ v l.
              audit-then (λ o v. Inv (reached o) v.world) Raised "fallback" "return_to_home" s' s'
                (pure (stop s')) v l (λ v' l'. l') (other-Raised s'))
            (other-Raised s'))
        (RaisedFrom-Raised s)
