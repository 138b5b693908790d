-- ===== src/BundleUpdater/Approve.antt =====
-- Approving a canary bundle (src/autonomy/bundle_updater.py).
use Prim.Native.String.{compare}
use Prim.Native.Nat.{Ordering}
use autonomous_vehicle_llm.Base.{
  ℕ, String, Bool, true, false, not, Option, none, some, List, [], ◌∷◌, ◌++◌, map, keep, contains,
  length, leb, ◌==◌, string_eq, if◌then◌else◌, adapter_execution_error, Call, ◌>>=◌, ◌>>◌, pure,
  raise_if,
}
use autonomous_vehicle_llm.Float.{FloatOps}
use autonomous_vehicle_llm.Text.{TextOps, is_nonempty}
use autonomous_vehicle_llm.Json.{
  Value, Fields, float, str, arr, obj, end, field, get, put, as_arr, of_items,
}
use autonomous_vehicle_llm.Values.{ValueOps, text_at, bool_at}
use autonomous_vehicle_llm.ApprovalAudit.{ApprovalConfig, now, append}
use autonomous_vehicle_llm.BundleUpdater.{
  Updater, UpdaterOutside, load_state, load_trust_store, environment_state, set_environment_state,
  write_state, on_audit,
}
use autonomous_vehicle_llm.BundleUpdater.Quorum.{EnvPolicy, environment_policy}

pub record ApprovalResult : Type 0 where
  pub approved_canary_bundle_hash : Option String
  pub environment : String
  pub status : String
  pub required_approvers : ℕ
  pub current_approvers : List String

-- `set(texts)`, in the order of the first occurrences
abbrev pub distinct : List String → List String
distinct [] = []
distinct (s ∷ ss) = s ∷ keep (λ t. not (t == s)) (distinct ss)

abbrev pub is_before : String → String → Bool
is_before s t = elim (compare s t) [ Ordering.gt ↦ false | _ ↦ true ]

abbrev pub insert_sorted : String → List String → List String
insert_sorted s [] = s ∷ []
insert_sorted s (t ∷ ts) = if is_before s t then s ∷ t ∷ ts else t ∷ insert_sorted s ts

-- `sorted(texts)`
abbrev pub sorted : List String → List String
sorted [] = []
sorted (s ∷ ss) = insert_sorted s (sorted ss)

abbrev pub list_or_empty : {A : Type 0} → Option (List A) → List A
list_or_empty none = []
list_or_empty (some xs) = xs

-- `bundle_hash or default`
abbrev pub text_or : Option String → String → String
text_or none default = default
text_or (some s) default = if is_nonempty s then s else default

module _ {F : Type 0} where
  abbrev pub texts : List String → List (Value F)
  texts [] = []
  texts (s ∷ ss) = str s ∷ texts ss

module _ {F : Type 0} ⦃vo : ValueOps F⦄ where
  -- `isinstance(entry, dict) and str(entry.get("bundle_hash", "")) == candidate`
  abbrev pub is_approval_of : String → Value F → Bool
  is_approval_of candidate (obj d) = text_at "bundle_hash" d == candidate
  is_approval_of candidate v = false

  abbrev pub approver_of : Value F → String
  approver_of (obj d) = text_at "approver" d
  approver_of v = ""

  abbrev pub approvals_of : String → List (Value F) → List (Value F)
  approvals_of candidate pending = keep (is_approval_of candidate) pending

module _ {F K : Type 0} ⦃fl : FloatOps F⦄ ⦃tx : TextOps⦄ ⦃vo : ValueOps F⦄
    (out : UpdaterOutside F K) (config : ApprovalConfig K) where
  -- `if entry.get("approver")`
  abbrev pub has_approver : Value F → Bool
  has_approver (obj d) = bool_at "approver" false d
  has_approver v = false

  abbrev pub unique_approvers : List (Value F) → List String
  unique_approvers approvals = distinct (map approver_of (keep has_approver approvals))

  abbrev pub new_approval : String → String → String → F → Value F
  new_approval candidate approver reason ts = obj (
      field "bundle_hash" (str candidate) (
        field "approver" (str approver)
          (field "reason" (str reason) (field "approved_at" (float ts) end))))

  -- The entry of the environment, approved or with one more pending approval.
  abbrev pub approved_entry : String → List String → F → List (Value F) → Fields F → Fields F
  approved_entry candidate approvers ts pending env_state =
      put "pending_approvals"
        (arr (of_items (keep (λ v. not (is_approval_of candidate v)) pending)))
        (put "approved_by" (arr (of_items (texts (sorted approvers)))) (
          put "approved_at" (float ts)
            (put "approved_canary_bundle_hash" (str candidate) env_state)))

  abbrev pub pending_entry : List (Value F) → Fields F → Fields F
  pending_entry pending env_state = put "pending_approvals" (arr (of_items pending)) env_state

  abbrev pub status_text : Bool → String
  status_text is_approved = if is_approved then "approved" else "pending"

  -- The new entry of the environment; the clock is asked where the bundle is approved.
  abbrev pub next_entry :
      Bool → String → List String → List (Value F) → Fields F → Call (Updater F) (Fields F)
  next_entry true candidate approvers pending env_state = on_audit (now out.audit) >>= λ ts.
      pure (approved_entry candidate approvers ts pending env_state)
  next_entry false candidate approvers pending env_state = pure (pending_entry pending env_state)

  abbrev pub approval_result : Bool → String → String → ℕ → List String → ApprovalResult
  approval_result is_approved candidate environment required approvers = record {
    approved_canary_bundle_hash = if is_approved then some candidate else none;
    environment = environment;
    status = status_text is_approved;
    required_approvers = required;
    current_approvers = sorted approvers;
  }

  -- The file is written before the ledger of approvals is called.
  abbrev pub write_approval :
      Fields F → String → String → String → String → Bool → Call (Updater F) (Unit {0})
  write_approval state env candidate approver reason is_approved =
      write_state state
      >> on_audit (append out.audit config env candidate approver reason (status_text is_approved))
      >> pure tt

  abbrev pub record_approval :
      Fields F
      → Fields F
      → String
      → ℕ
      → String
      → String
      → String
      → List (Value F)
      → List String
      → Call (Updater F) ApprovalResult
  record_approval state env_state env required candidate approver reason pending approvers =
      let is_approved = leb required (length approvers) in
      next_entry is_approved candidate approvers pending env_state >>= λ entry.
      write_approval (set_environment_state state env entry) env candidate approver reason
        is_approved
      >> pure (approval_result is_approved candidate env required approvers)

  -- With the candidate and the pending approvals.
  abbrev pub approve_candidate :
      Fields F
      → Fields F
      → String
      → ℕ
      → String
      → String
      → String
      → List (Value F)
      → Call (Updater F) ApprovalResult
  approve_candidate state env_state env required candidate approver reason pending =
      raise_if (contains (map approver_of (approvals_of candidate pending)) approver)
        (adapter_execution_error "approver has already approved this canary bundle")
      >> on_audit (now out.audit)
      >>= λ ts.
          let approval = new_approval candidate approver reason ts in
          record_approval state env_state env required candidate approver reason
            (pending ++ (approval ∷ []))
            (unique_approvers (approvals_of candidate pending ++ (approval ∷ [])))

  abbrev pub approve_in :
      Option String
      → String
      → String
      → String
      → Fields F
      → EnvPolicy F
      → Call (Updater F) ApprovalResult
  approve_in bundle_hash env approver reason state env_policy =
      let env_state = environment_state state env in
      let candidate = text_or bundle_hash (text_at "last_canary_bundle_hash" env_state) in
      raise_if (not (is_nonempty candidate))
        (adapter_execution_error "no canary bundle available for approval")
      >> approve_candidate state env_state env env_policy.canary_approval_min_approvers candidate
          approver reason (list_or_empty (as_arr (get "pending_approvals" env_state)))

  -- From the state on.
  abbrev pub approve_over :
      Option String → String → String → String → Fields F → Call (Updater F) ApprovalResult
  approve_over bundle_hash env approver reason state = load_trust_store >>= λ trust_store.
      environment_policy trust_store env >>= approve_in bundle_hash env approver reason state

  unfoldable pub approve_canary_with_metadata :
      Option String → String → String → String → Call (Updater F) ApprovalResult
  approve_canary_with_metadata bundle_hash environment approver reason =
      load_state >>= approve_over bundle_hash (tx.lower environment) approver reason

  unfoldable pub approve_canary : Option String → String → Call (Updater F) ApprovalResult
  approve_canary bundle_hash environment =
      approve_canary_with_metadata bundle_hash environment "system" ""
