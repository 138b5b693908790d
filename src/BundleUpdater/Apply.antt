-- ===== src/BundleUpdater/Apply.antt =====
-- Applying a bundle (src/autonomy/bundle_updater.py): the checks, the canary gate, the files that
-- the payload replaces, and the new state.
use autonomous_vehicle_llm.Base.{
  String, ◌<>◌, Bool, true, false, not, ◌||◌, Option, none, some, List, [], ◌∷◌, ◌==◌, string_eq,
  if◌then◌else◌, or_default, adapter_execution_error, Call, ◌>>=◌, ◌>>◌, pure, fail, modify,
  raise_if, when,
}
use autonomous_vehicle_llm.Base.Int.{ℤ, pos, leb_ℤ}
use autonomous_vehicle_llm.Float.{FloatOps}
use autonomous_vehicle_llm.Text.{TextOps, is_nonempty}
use autonomous_vehicle_llm.Json.{
  Value, Fields, Items, null, bool, int, float, str, arr, obj, nil, cons, end, field, get, put,
  as_obj, as_str, not_null,
}
use autonomous_vehicle_llm.Values.{ValueOps, text_at, int_at, bool_at, float_of}
use autonomous_vehicle_llm.ApprovalAudit.{now}
use autonomous_vehicle_llm.BundleUpdater.{
  JsonFile, holding, Updater, UpdaterOutside, read_json, load_state, load_trust_store, obj_at,
  environment_state, set_environment_state, write_state, on_audit,
}
use autonomous_vehicle_llm.BundleUpdater.Quorum.{
  EnvPolicy, environment_policy, extract_signatures, verify_signatures,
}

-- The parts of a bundle that has all of them.
pub record Bundle (F : Type 0) : Type 0 where
  pub metadata : Fields F
  pub payload : Fields F
  pub signatures : List (Fields F)

pub data Stage : Type 0 where
  canary : Stage
  global : Stage

pub record Applied : Type 0 where
  pub applied_version : ℤ
  pub rollout_stage : Stage
  pub environment : String
  pub bundle_hash : String

abbrev pub int_or_fail : {S : Type 0} → Option ℤ → Call S ℤ
int_or_fail none = fail (adapter_execution_error "bundle version missing or invalid")
int_or_fail (some n) = pure n

module _ {F : Type 0} where
  abbrev pub bundle_or_raise :
      {S : Type 0} → Option (Fields F) → Option (Fields F) → List (Fields F) → Call S (Bundle F)
  bundle_or_raise (some metadata) (some payload) (signature ∷ signatures) =
      pure record { metadata = metadata; payload = payload; signatures = signature ∷ signatures }
  bundle_or_raise metadata payload signatures =
      fail (adapter_execution_error "invalid bundle structure")

  abbrev pub read_bundle : {S : Type 0} → Fields F → Call S (Bundle F)
  read_bundle bundle =
      bundle_or_raise (as_obj (get "metadata" bundle)) (as_obj (get "payload" bundle))
        (extract_signatures bundle)

  -- `isinstance(v, int)`, of which a truth value is one, with its number
  abbrev pub as_int : Option (Value F) → Option ℤ
  as_int (some (int n)) = some n
  as_int (some (bool true)) = some (pos 1)
  as_int (some (bool false)) = some (pos 0)
  as_int v = none

  abbrev pub version_or_raise : {S : Type 0} → Fields F → Call S ℤ
  version_or_raise metadata = int_or_fail (as_int (get "version" metadata))

  -- `if isinstance(d, dict): self._write_json(path, d)`
  abbrev pub replaced : Option (Fields F) → JsonFile F → JsonFile F
  replaced none file = file
  replaced (some d) file = holding (obj d)

  abbrev pub replaced_if : Bool → Option (Fields F) → JsonFile F → JsonFile F
  replaced_if b d file = if b then replaced d file else file

  unfoldable pub apply_payload : Fields F → Bool → Call (Updater F) (Unit {0})
  apply_payload payload use_canary_targets =
      let keyring = as_obj (get "keyring" payload) in
      let pinset = as_obj (get "pinset" payload) in
      let rollout_policy = as_obj (get "rollout_policy" payload) in
      modify λ s. record s {
        canary_keyring_file = replaced_if use_canary_targets keyring s.canary_keyring_file;
        keyring_file = replaced_if (not use_canary_targets) keyring s.keyring_file;
        canary_pinset_file = replaced_if use_canary_targets pinset s.canary_pinset_file;
        pinset_file = replaced_if (not use_canary_targets) pinset s.pinset_file;
        rollout_policy_file =
            replaced_if (not use_canary_targets) rollout_policy s.rollout_policy_file;
      }

  abbrev pub of_dicts : List (Fields F) → Items F
  of_dicts [] = nil
  of_dicts (d ∷ ds) = cons (obj d) (of_dicts ds)

abbrev pub applied : ℤ → Stage → String → String → Applied
applied version stage environment bundle_hash = record {
  applied_version = version;
  rollout_stage = stage;
  environment = environment;
  bundle_hash = bundle_hash;
}

abbrev pub source_or_raise : {S : Type 0} → Option String → Call S String
source_or_raise none =
    fail (adapter_execution_error "global rollout missing canary source bundle hash")
source_or_raise (some source_hash) =
    if is_nonempty source_hash
    then pure source_hash
    else fail (adapter_execution_error "global rollout missing canary source bundle hash")

module _ {F : Type 0} where
  -- The new entry of the environment, with the time where the code asks for it.
  abbrev pub staged : Stage → String → F → Fields F → Fields F
  staged canary bundle_hash ts env_state =
      put "last_canary_applied_at" (float ts)
        (put "last_canary_bundle_hash" (str bundle_hash) env_state)
  staged global bundle_hash ts env_state =
      put "approved_by" (arr nil)
        (put "approved_at" null (put "approved_canary_bundle_hash" (str "") env_state))

module _ {F : Type 0} ⦃fl : FloatOps F⦄ ⦃tx : TextOps⦄ ⦃vo : ValueOps F⦄ where
  -- `str(metadata.get(k, default)).lower()`
  abbrev pub lower_at : String → String → Fields F → String
  lower_at k default d = tx.lower (elim (get k d) [ none ↦ default | some v ↦ vo.to_str v ])

  abbrev pub check_soak :
      {S : Type 0} → EnvPolicy F → Option (Value F) → Option (Value F) → Call S (Unit {0})
  check_soak env_policy (some soak_seconds) (some error_rate) = float_of soak_seconds >>= λ soak.
      raise_if (fl.lt soak env_policy.canary_min_soak_seconds)
        (adapter_execution_error "canary soak time below required threshold")
      >> float_of error_rate
      >>= λ rate.
          raise_if (fl.lt env_policy.canary_max_error_rate rate)
            (adapter_execution_error "canary error rate above allowed threshold")
  check_soak env_policy soak_seconds error_rate =
      fail (adapter_execution_error "production global rollout requires canary soak metrics")

  abbrev pub is_gated : Fields F → EnvPolicy F → Bool
  is_gated gate env_policy = bool_at "required" false gate || env_policy.require_canary_approval

  abbrev pub needs_soak : EnvPolicy F → Bool
  needs_soak env_policy =
      fl.lt (fl.lit 0 0) env_policy.canary_min_soak_seconds
      || fl.lt env_policy.canary_max_error_rate (fl.lit 1 0)

  -- The gate where an approval is required, from the hash that it names on.
  abbrev pub check_source :
      {S : Type 0} → Fields F → Fields F → EnvPolicy F → String → Call S (Unit {0})
  check_source gate env_state env_policy source_hash =
      raise_if (not (text_at "approved_canary_bundle_hash" env_state == source_hash))
        (adapter_execution_error "canary gate not approved for global rollout")
      >> when (needs_soak env_policy) (
          check_soak env_policy (not_null (get "observed_soak_seconds" gate))
            (not_null (get "observed_error_rate" gate)))

  abbrev pub check_gate : {S : Type 0} → Fields F → Fields F → EnvPolicy F → Call S (Unit {0})
  check_gate gate env_state env_policy =
      source_or_raise (as_str (get "source_bundle_hash" gate))
      >>= check_source gate env_state env_policy

  unfoldable pub enforce_canary_gate :
      {S : Type 0} → Fields F → Fields F → String → EnvPolicy F → Call S (Unit {0})
  enforce_canary_gate metadata state environment env_policy =
      let gate = obj_at "canary_gate" metadata in
      when (is_gated gate env_policy)
        (check_gate gate (environment_state state environment) env_policy)

module _ {F K : Type 0} ⦃fl : FloatOps F⦄ ⦃tx : TextOps⦄ ⦃vo : ValueOps F⦄
    (out : UpdaterOutside F K) where
  abbrev pub compute_bundle_hash : Bundle F → String
  compute_bundle_hash b = out.audit.sha256 (
      vo.dumps (
        field "metadata" (obj b.metadata)
          (field "payload" (obj b.payload) (field "signatures" (arr (of_dicts b.signatures)) end))))

  abbrev pub stage_time : Stage → Call (Updater F) F
  stage_time canary = on_audit (now out.audit)
  stage_time global = pure (fl.lit 0 0)

  -- The state that `_update_state` writes, but for the entry of the environment.
  abbrev pub next_state : Fields F → String → Fields F → Fields F
  next_state metadata bundle_hash previous =
      field "last_version" (or_default (get "version" metadata) (int (pos 0))) (
        field "last_bundle_hash" (str bundle_hash) (
          field "chain_hash"
            (str (out.audit.sha256 (text_at "chain_hash" previous <> ":" <> bundle_hash)))
            (field "environments" (or_default (get "environments" previous) (obj end)) end)))

  abbrev pub write_staged :
      Fields F → String → Stage → String → Fields F → Call (Updater F) (Unit {0})
  write_staged metadata bundle_hash rollout_stage environment previous =
      stage_time rollout_stage >>= λ ts.
      let state = next_state metadata bundle_hash previous in
      write_state (
        set_environment_state state environment
          (staged rollout_stage bundle_hash ts (environment_state state environment)))

  unfoldable pub update_state : Fields F → String → Stage → String → Call (Updater F) (Unit {0})
  update_state metadata bundle_hash rollout_stage environment =
      load_state >>= write_staged metadata bundle_hash rollout_stage environment

  -- What changes the files, after every check.
  abbrev pub install : Bundle F → ℤ → String → Stage → Bool → Call (Updater F) Applied
  install b version environment stage use_canary_targets =
      apply_payload b.payload use_canary_targets
      >> update_state b.metadata (compute_bundle_hash b) stage environment
      >> pure (applied version stage environment (compute_bundle_hash b))

  abbrev pub roll_out :
      Bundle F → ℤ → String → Fields F → EnvPolicy F → String → Call (Updater F) Applied
  roll_out b version environment state env_policy rollout_stage =
      if rollout_stage == "canary"
      then install b version environment canary true
      else (if rollout_stage == "global"
          then enforce_canary_gate b.metadata state environment env_policy
            >> install b version environment global false
          else fail (adapter_execution_error "unsupported rollout stage"))

  -- The steps of `apply_bundle_file`, the last one first.
  abbrev pub apply_policy :
      Bundle F → ℤ → String → Fields F → Fields F → EnvPolicy F → Call (Updater F) Applied
  apply_policy b version environment state trust_store env_policy =
      verify_signatures out b.metadata b.payload b.signatures trust_store env_policy.min_signatures
      >> roll_out b version environment state env_policy
          (lower_at "rollout_stage" "global" b.metadata)

  abbrev pub apply_trusted : Bundle F → ℤ → String → Fields F → Fields F → Call (Updater F) Applied
  apply_trusted b version environment state trust_store =
      environment_policy trust_store environment
      >>= apply_policy b version environment state trust_store

  abbrev pub apply_newer : Bundle F → ℤ → Fields F → ℤ → Call (Updater F) Applied
  apply_newer b version state last_version =
      raise_if (leb_ℤ version last_version)
        (adapter_execution_error "bundle version is not newer than current state")
      >> (load_trust_store
          >>= apply_trusted b version (lower_at "environment" "dev" b.metadata) state)

  abbrev pub apply_over : Bundle F → ℤ → Fields F → Call (Updater F) Applied
  apply_over b version state = int_at "last_version" (pos 0) state >>= apply_newer b version state

  abbrev pub apply_version : Bundle F → ℤ → Call (Updater F) Applied
  apply_version b version = load_state >>= apply_over b version

  abbrev pub apply_bundle : Bundle F → Call (Updater F) Applied
  apply_bundle b = version_or_raise b.metadata >>= apply_version b

  abbrev pub apply_bundle_fields : Fields F → Call (Updater F) Applied
  apply_bundle_fields bundle = read_bundle bundle >>= apply_bundle

  unfoldable pub apply_bundle_file : JsonFile F → Call (Updater F) Applied
  apply_bundle_file file = read_json file >>= apply_bundle_fields
