-- ===== src/Tests/Updating.antt =====
-- An updater with a trust store of one key, and bundles that it applies.
use autonomous_vehicle_llm.Base.{
  ℕ, String, ◌≡◌, refl, none, some, true, false, List, [], ◌∷◌, ok, raise, Exc,
  adapter_execution_error,
}
use autonomous_vehicle_llm.Base.Int.{pos, leb_ℤ}
use autonomous_vehicle_llm.Float.Hundredths.{Hundredths, hundredths_ops}
use autonomous_vehicle_llm.Json.{Fields, bool, int, str, arr, obj, nil, cons, end, field, get}
use autonomous_vehicle_llm.Transport.{valid}
use autonomous_vehicle_llm.ApprovalAudit.{
  verify_chain, append, last_hash, verify_lines, check_line, check_entry,
}
use autonomous_vehicle_llm.BundleUpdater.{
  JsonFile, missing, holding, Updater, UpdaterOutside, environment_state, obj_at, load_state,
  load_trust_store, set_environment_state,
}
use autonomous_vehicle_llm.BundleUpdater.Quorum.{
  environment_policy, extract_signatures, signature_check, count_signatures, verify_signatures,
}
use autonomous_vehicle_llm.BundleUpdater.Apply.{
  Applied, Stage, canary, global, apply_bundle_file, apply_payload, update_state,
  enforce_canary_gate, is_gated,
}
use autonomous_vehicle_llm.BundleUpdater.Approve.{approve_canary_with_metadata}
use autonomous_vehicle_llm.BundleUpdater.Installs.{SameProduction}
use autonomous_vehicle_llm.BundleUpdater.Checked.{CheckedFile}
use autonomous_vehicle_llm.BundleUpdater.Versions.{IsIntOf}
use autonomous_vehicle_llm.BundleUpdater.Replay.{
  UpdaterCall, apply, approve, after_calls, apply_bundle_file-replay,
}
use autonomous_vehicle_llm.BundleUpdater.Signers.{Quorum}
use autonomous_vehicle_llm.BundleUpdater.Outcomes.{
  GateOpen, apply_bundle_file-raise, apply_bundle_file-Quorum, apply_bundle_file-canary,
  apply_bundle_file-GateOpen,
}
use autonomous_vehicle_llm.Tests.Texts.{sample_texts, sample_values}
use autonomous_vehicle_llm.Tests.Audit.{outside, config}

abbrev updater_outside : UpdaterOutside Hundredths String
updater_outside = record { audit = outside; verify = λ key signature text. valid }

abbrev key : Fields Hundredths
key = field "algorithm" (str "ed25519") (field "public_key_b64" (str "AAAA") end)

abbrev trust_store : Fields Hundredths
trust_store = field "keys" (obj (field "k1" (obj key) end)) end

abbrev sample_signature : Fields Hundredths
sample_signature =
    field "algorithm" (str "ed25519") (field "kid" (str "k1") (field "value" (str "BBBB") end))

abbrev bundle_of : ℕ → String → JsonFile Hundredths
bundle_of version stage = holding (
    obj (
      field "metadata"
        (obj (field "version" (int (pos version)) (field "rollout_stage" (str stage) end)))
        (field "payload" (obj (field "keyring" (obj end) end))
          (field "signatures" (arr (cons (obj sample_signature) nil)) end))))

abbrev sample_updater : Updater Hundredths
sample_updater = record {
  trust_store_file = holding (obj trust_store);
  state_file = missing;
  keyring_file = missing;
  pinset_file = missing;
  rollout_policy_file = missing;
  canary_keyring_file = missing;
  canary_pinset_file = missing;
  approval_audit = record { lines = none; append_count = 0; tick = 0 };
}

sample-IsIntOf : IsIntOf sample_values
sample-IsIntOf = record { of_int = λ n. refl; of_true = refl; of_false = refl }

abbrev older : Exc
older = adapter_execution_error "bundle version is not newer than current state"

abbrev applied_as : ℕ → Stage → Applied
applied_as version stage = record {
  applied_version = pos version;
  rollout_stage = stage;
  environment = "dev";
  bundle_hash = "hash";
}

abbrev updater_after : Updater Hundredths
updater_after = (apply_bundle_file updater_outside (bundle_of 1 "canary") sample_updater).1

first_applied :
    apply_bundle_file updater_outside (bundle_of 1 "canary") sample_updater
    ≡ (ok (applied_as 1 canary), updater_after)
unfolding apply_bundle_file load_state load_trust_store environment_policy extract_signatures
    signature_check count_signatures verify_signatures apply_payload update_state
first_applied = refl

abbrev calls : List (UpdaterCall Hundredths)
calls = approve none "dev" "ann" "ok" ∷ apply (bundle_of 1 "global") ∷ []

abbrev approved_updater : Updater Hundredths
approved_updater = after_calls updater_outside config calls updater_after

-- A global bundle that names the approved canary.
abbrev gated_bundle : JsonFile Hundredths
gated_bundle = holding (
    obj (
      field "metadata"
        (obj (
          field "version" (int (pos 2)) (
            field "canary_gate"
              (obj (field "required" (bool true) (field "source_bundle_hash" (str "hash") end)))
              end)))
        (field "payload" (obj (field "keyring" (obj end) end))
          (field "signatures" (arr (cons (obj sample_signature) nil)) end))))

abbrev updater_released : Updater Hundredths
updater_released = (apply_bundle_file updater_outside gated_bundle approved_updater).1

gated_applied :
    apply_bundle_file updater_outside gated_bundle approved_updater
    ≡ (ok (applied_as 2 global), updater_released)
unfolding apply_bundle_file load_state load_trust_store environment_policy extract_signatures
    signature_check count_signatures verify_signatures apply_payload update_state after_calls
    approve_canary_with_metadata enforce_canary_gate environment_state set_environment_state append
    last_hash verify_chain verify_lines check_line check_entry
gated_applied = refl

older_refused :
    apply_bundle_file updater_outside (bundle_of 0 "canary") sample_updater
    ≡ (raise older, sample_updater)
unfolding apply_bundle_file load_state extract_signatures
older_refused = refl

apply_bundle_file-replay_example : leb_ℤ (pos 2) (pos 1) ≡ false
apply_bundle_file-replay_example =
    apply_bundle_file-replay updater_outside config sample-IsIntOf (bundle_of 1 "canary")
      sample_updater updater_after (applied_as 1 canary) first_applied calls gated_bundle
      (applied_as 2 global) updater_released gated_applied

apply_bundle_file-raise_example : sample_updater ≡ sample_updater
apply_bundle_file-raise_example =
    apply_bundle_file-raise updater_outside (bundle_of 0 "canary") sample_updater sample_updater
      older older_refused

apply_bundle_file-Quorum_example :
    (c : CheckedFile updater_outside
      (bundle_of 1 "canary")
      sample_updater
      (applied_as 1 canary)
      updater_after)
    × Quorum updater_outside c.bundle c.checked.trust_store c.checked.env_policy.min_signatures
apply_bundle_file-Quorum_example =
    apply_bundle_file-Quorum updater_outside (bundle_of 1 "canary") sample_updater updater_after
      (applied_as 1 canary) first_applied

apply_bundle_file-canary_example : SameProduction sample_updater updater_after
apply_bundle_file-canary_example =
    apply_bundle_file-canary updater_outside (bundle_of 1 "canary") sample_updater updater_after
      (applied_as 1 canary) first_applied refl

apply_bundle_file-GateOpen_example :
    (c : CheckedFile updater_outside gated_bundle approved_updater
      (applied_as 2 global)
      updater_released)
    × (is_gated (obj_at "canary_gate" c.bundle.metadata) c.checked.env_policy ≡ true
        → GateOpen c.bundle.metadata (environment_state c.checked.state "dev"))
    × (d : Fields Hundredths) × (updater_released.state_file ≡ holding (obj d))
    × (get "approved_canary_bundle_hash" (environment_state d "dev") ≡ some (str ""))
apply_bundle_file-GateOpen_example =
    apply_bundle_file-GateOpen updater_outside gated_bundle approved_updater updater_released
      (applied_as 2 global) gated_applied refl
