-- ===== src/BundleUpdater/Approvals.antt =====
-- The last version in the state's file over an approval of a canary bundle
-- (src/autonomy/bundle_updater.py).
use autonomous_vehicle_llm.Base.{
  ℕ, String, Bool, true, false, not, refl, Option, List, [], ◌∷◌, leb, length, contains, string_eq,
  ◌++◌, adapter_execution_error, Call, map,
}
use autonomous_vehicle_llm.Base.Int.{ℤ}
use autonomous_vehicle_llm.Base.Kept.{Kept, pure-Kept, raise_if-Kept, bind-Kept, then-Kept}
use autonomous_vehicle_llm.Base.Reading.{reading-keeps, Reading-Kept}
use autonomous_vehicle_llm.Float.{FloatOps}
use autonomous_vehicle_llm.Text.{TextOps, is_nonempty}
use autonomous_vehicle_llm.Json.{Value, Fields, get, as_arr}
use autonomous_vehicle_llm.Values.{ValueOps, text_at}
use autonomous_vehicle_llm.ApprovalAudit.{ApprovalAudit, ApprovalConfig, now, append}
use autonomous_vehicle_llm.BundleUpdater.{
  Updater, UpdaterOutside, load_state, environment_state, set_environment_state, write_state,
  on_audit,
}
use autonomous_vehicle_llm.BundleUpdater.Quorum.{EnvPolicy}
use autonomous_vehicle_llm.BundleUpdater.Checks.{
  load_state-Reading, load_trust_store-Reading, environment_policy-Reading,
}
use autonomous_vehicle_llm.BundleUpdater.Approve.{
  approve_canary_with_metadata, approve_in, approve_over, approve_candidate, record_approval,
  write_approval, next_entry, approved_entry, pending_entry, status_text, approval_result,
  approvals_of, approver_of, new_approval, unique_approvers, list_or_empty, text_or,
}
use autonomous_vehicle_llm.BundleUpdater.Versions.{
  StateHas, HasVersion, set_environment_state-StateHas, loaded-StateHas,
}

module _ {F : Type 0} ⦃vo : ValueOps F⦄ where
  on_audit-HasVersion :
      {A : Type 0} (n : ℤ) (m : Call ApprovalAudit A)
      → Kept {S = Updater F} (HasVersion n) (on_audit m)
  on_audit-HasVersion n m = record {
    at = λ s h. record { state = h.state; stored = h.stored; has_version = h.has_version };
  }

  write_state-HasVersion :
      (n : ℤ) (d : Fields F) → StateHas n d → Kept (HasVersion n) (write_state d)
  write_state-HasVersion n d k = record {
    at = λ s h. record { state = d; stored = refl; has_version = k };
  }

module _ {F K : Type 0} ⦃fl : FloatOps F⦄ ⦃tx : TextOps⦄ ⦃vo : ValueOps F⦄
    (out : UpdaterOutside F K) (config : ApprovalConfig K) where
  next_entry-HasVersion :
      (n : ℤ) (b : Bool) (candidate : String) (approvers : List String) (pending : List (Value F))
      (env_state : Fields F)
      → Kept (HasVersion n) (next_entry out config b candidate approvers pending env_state)
  next_entry-HasVersion n true candidate approvers pending env_state =
      bind-Kept (on_audit-HasVersion n (now out.audit))
        λ ts. pure-Kept (approved_entry out config candidate approvers ts pending env_state)
  next_entry-HasVersion n false candidate approvers pending env_state =
      pure-Kept (pending_entry out config pending env_state)

  write_approval-HasVersion :
      (n : ℤ) (d : Fields F) (env candidate approver reason : String) (b : Bool)
      → StateHas n d
      → Kept (HasVersion n) (write_approval out config d env candidate approver reason b)
  write_approval-HasVersion n d env candidate approver reason b h =
      then-Kept
        (then-Kept (write_state-HasVersion n d h) (
          on_audit-HasVersion n
            (append out.audit config env candidate approver reason (status_text out config b))))
        (pure-Kept tt)

  record_approval-HasVersion :
      (n : ℤ) (state env_state : Fields F) (env : String) (required : ℕ)
      (candidate approver reason : String) (pending : List (Value F)) (approvers : List String)
      → StateHas n state
      → Kept (HasVersion n) (
          record_approval out config state env_state env required candidate approver reason pending
            approvers)
  record_approval-HasVersion n state env_state env required candidate approver reason pending
        approvers h =
      bind-Kept
        (next_entry-HasVersion n (leb required (length approvers)) candidate approvers pending
          env_state)
        λ entry.
          then-Kept
            (write_approval-HasVersion n (set_environment_state state env entry) env candidate
              approver reason (leb required (length approvers))
              (set_environment_state-StateHas n state env entry h))
            (pure-Kept (
              approval_result out config (leb required (length approvers)) candidate env required
                approvers))

  approve_candidate-HasVersion :
      (n : ℤ) (state env_state : Fields F) (env : String) (required : ℕ)
      (candidate approver reason : String) (pending : List (Value F))
      → StateHas n state
      → Kept (HasVersion n) (
          approve_candidate out config state env_state env required candidate approver reason
            pending)
  approve_candidate-HasVersion n state env_state env required candidate approver reason pending h =
      bind-Kept
        (then-Kept
          (raise_if-Kept (contains (map approver_of (approvals_of candidate pending)) approver)
            (adapter_execution_error "approver has already approved this canary bundle"))
          (on_audit-HasVersion n (now out.audit)))
        λ ts.
          record_approval-HasVersion n state env_state env required candidate approver reason
            (pending ++ (new_approval out config candidate approver reason ts ∷ []))
            (unique_approvers out config (
              approvals_of candidate pending
              ++ (new_approval out config candidate approver reason ts ∷ [])))
            h

  approve_in-HasVersion :
      (n : ℤ) (bundle_hash : Option String) (env approver reason : String) (state : Fields F)
      (env_policy : EnvPolicy F)
      → StateHas n state
      → Kept (HasVersion n) (approve_in out config bundle_hash env approver reason state env_policy)
  approve_in-HasVersion n bundle_hash env approver reason state env_policy h =
      then-Kept
        (raise_if-Kept (not (is_nonempty candidate))
          (adapter_execution_error "no canary bundle available for approval"))
        (approve_candidate-HasVersion n state env_state env env_policy.canary_approval_min_approvers
          candidate approver reason (list_or_empty (as_arr (get "pending_approvals" env_state))) h)
    where
      env_state : Fields F
      env_state = environment_state state env

      candidate : String
      candidate = text_or bundle_hash (text_at "last_canary_bundle_hash" env_state)

  pub approve-HasVersion :
      (n : ℤ) (bundle_hash : Option String) (environment approver reason : String)
      → Kept
          (HasVersion n)
          (approve_canary_with_metadata out config bundle_hash environment approver reason)
  unfolding approve_canary_with_metadata
  approve-HasVersion n bundle_hash environment approver reason = record {
    at = λ s h.
        reading-keeps (HasVersion n) load_state
          (approve_over out config bundle_hash env approver reason) s load_state-Reading h
          λ state loaded.
            (bind-Kept (Reading-Kept load_trust_store-Reading) λ trust_store.
                bind-Kept (Reading-Kept (environment_policy-Reading trust_store env)) λ env_policy.
                  approve_in-HasVersion n bundle_hash env approver reason state env_policy
                    (loaded-StateHas n s state h loaded)).at
              s h;
  }
    where
      env : String
      env = tx.lower environment
