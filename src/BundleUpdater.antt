-- ===== src/BundleUpdater.antt =====
-- The files of the updater of signed bundles (src/autonomy/bundle_updater.py), which lie at
-- different paths, and the entries of an environment. A file that the updater wrote holds the
-- dictionary that was written. The ledger of approvals carries the count of the clock's calls.
pub mod Quorum
pub mod Checks
pub mod Apply
pub mod Installs
pub mod Checked
pub mod Versions
pub mod Approvals
pub mod Replay
pub mod Signers
pub mod Outcomes
pub mod Approve
use autonomous_vehicle_llm.Base.{
  ℕ, String, ◌<>◌, Bool, true, false, Option, none, some, List, [], ◌∷◌, ◌==◌, string_eq,
  if◌then◌else◌, ok, raise, Result, adapter_execution_error, exception, Call, ◌>>=◌, ◌>>◌, pure,
  fail, modify, get_state,
}
use autonomous_vehicle_llm.Base.Int.{pos}
use autonomous_vehicle_llm.Json.{
  Value, Fields, null, int, float, str, arr, obj, nil, end, field, get, has, put, as_obj,
}
use autonomous_vehicle_llm.Values.{ValueOps, text_at}
use autonomous_vehicle_llm.Transport.{Verdict}
use autonomous_vehicle_llm.ApprovalAudit.{AuditOutside, ApprovalConfig, ApprovalAudit, now}

-- No file, one that `json.loads` refuses, or one with a value.
pub data JsonFile (F : Type 0) : Type 0 where
  missing : JsonFile F
  broken : JsonFile F
  holding : Value F → JsonFile F

pub record Updater (F : Type 0) : Type 0 where
  pub trust_store_file : JsonFile F
  pub state_file : JsonFile F
  pub keyring_file : JsonFile F
  pub pinset_file : JsonFile F
  pub rollout_policy_file : JsonFile F
  pub canary_keyring_file : JsonFile F
  pub canary_pinset_file : JsonFile F
  pub approval_audit : ApprovalAudit

pub record UpdaterOutside (F K : Type 0) : Type 0 where
  pub audit : AuditOutside F K
  -- public key, signature, signed text: decoding both, and the check of the Ed25519 signature
  pub verify : String → String → String → Verdict

module _ {F : Type 0} where
  -- `json.loads(path.read_text())`, where the code goes on with a dictionary. Any other value
  -- raises.
  abbrev pub read_json : {S : Type 0} → JsonFile F → Call S (Fields F)
  read_json missing = fail (exception "FileNotFoundError")
  read_json broken = fail (exception "JSONDecodeError")
  read_json (holding (obj d)) = pure d
  read_json (holding v) = fail (exception "AttributeError")

  abbrev pub default_state : Fields F
  default_state = field "last_version" (int (pos 0)) (
      field "last_bundle_hash" (str "")
        (field "chain_hash" (str "") (field "environments" (obj end) end)))

  abbrev pub with_environments : Fields F → Fields F
  with_environments state =
      if has "environments" state then state else put "environments" (obj end) state

  abbrev state_of : {S : Type 0} → JsonFile F → Call S (Fields F)
  state_of missing = pure default_state
  state_of file = read_json file >>= λ state. pure (with_environments state)

  unfoldable pub load_state : Call (Updater F) (Fields F)
  load_state = get_state >>= λ s. state_of s.state_file

  abbrev trust_store_of : {S : Type 0} → JsonFile F → Call S (Fields F)
  trust_store_of missing = fail (adapter_execution_error "bundle trust store file not found")
  trust_store_of file = read_json file

  unfoldable pub load_trust_store : Call (Updater F) (Fields F)
  load_trust_store = get_state >>= λ s. trust_store_of s.trust_store_file

  abbrev pub or_end : Option (Fields F) → Fields F
  or_end none = end
  or_end (some d) = d

  -- `d.get(k, {})`, and an empty dictionary for any other value
  abbrev pub obj_at : String → Fields F → Fields F
  obj_at k d = or_end (as_obj (get k d))

  abbrev pub new_environment : Fields F
  new_environment = field "last_canary_bundle_hash" (str "") (
      field "approved_canary_bundle_hash" (str "") (
        field "approved_at" null (
          field "last_canary_applied_at" null
            (field "approved_by" (arr nil) (field "pending_approvals" (arr nil) end)))))

  abbrev environment_or_new : Option (Fields F) → Fields F
  environment_or_new none = new_environment
  environment_or_new (some d) = d

  -- What it puts into the dictionary itself is put there by `set_environment_state` afterwards.
  unfoldable pub environment_state : Fields F → String → Fields F
  environment_state state environment =
      environment_or_new (as_obj (get environment (obj_at "environments" state)))

  unfoldable pub set_environment_state : Fields F → String → Fields F → Fields F
  set_environment_state state environment env_state =
      put "environments" (obj (put environment (obj env_state) (obj_at "environments" state))) state

  -- `_write_json` to the state's path
  abbrev pub write_state : Fields F → Call (Updater F) (Unit {0})
  write_state state = modify (λ s. record s { state_file = holding (obj state) })

  -- A call of the ledger of approvals.
  abbrev pub on_audit : {A : Type 0} → Call ApprovalAudit A → Call (Updater F) A
  on_audit m s = let (r, t) = m s.approval_audit in (r, record s { approval_audit = t })
