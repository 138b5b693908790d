-- ===== src/Policy.antt =====
-- The loading of configurations (src/autonomy/policy.py): the policy, and those sections of the
-- transport's that hold numbers, texts and truth values only. The file system is a call on the
-- outside.
pub mod Loading
use autonomous_vehicle_llm.Base.{
  String, Bool, true, false, Option, none, some, Call, ◌>>=◌, pure, if◌then◌else◌,
}
use autonomous_vehicle_llm.Base.Int.{ℤ, pos, at_least_one}
use autonomous_vehicle_llm.Float.{FloatOps}
use autonomous_vehicle_llm.Json.{Value, Fields, float, end, field, get, as_str}
use autonomous_vehicle_llm.Values.{ValueOps, dict_or, text_or_default, int_at, float_at, bool_at}
use autonomous_vehicle_llm.Models.{
  PolicyConfig, RetryPolicy, AckConfig, CertAttestationConfig, IdempotencyConfig,
  RolloutPolicyConfig,
}

pub record PolicyFiles (F S : Type 0) : Type 0 where
  -- `json.loads(path.read_text(encoding="utf-8"))`
  pub read_json : String → Call S (Value F)
  -- `path.exists()`
  pub exists : String → Call S Bool

module _ {F : Type 0} ⦃fl : FloatOps F⦄ ⦃vo : ValueOps F⦄ where
  abbrev pub cert_attestation_config : Fields F → CertAttestationConfig
  cert_attestation_config cert_data = record {
    required = bool_at "required" true cert_data;
    fingerprint_field = text_or_default "fingerprint_field" "mtls_cert_fingerprint" cert_data;
    pinset_path = text_or_default "pinset_path" "config/vendor_cert_pins.json" cert_data;
  }

module _ {F S : Type 0} ⦃fl : FloatOps F⦄ ⦃vo : ValueOps F⦄ where
  unfoldable pub policy_config : Fields F → Call S (PolicyConfig F)
  policy_config d = float_at "max_speed_mps" (fl.lit 80 1) d >>= λ max_speed_mps.
      float_at "min_battery_for_motion_pct" (fl.lit 250 1) d >>= λ min_battery_for_motion_pct.
      float_at "geofence_abs_xy_limit_m" (fl.lit 1000 1) d >>= λ geofence_abs_xy_limit_m.
      float_at "min_obstacle_standoff_m" (fl.lit 20 1) d >>= λ min_obstacle_standoff_m.
      float_at "max_localization_std_m" (fl.lit 50 1) d >>= λ max_localization_std_m.
      float_at "max_sensor_staleness_s" (fl.lit 10 1) d >>= λ max_sensor_staleness_s.
      float_at "control_tick_hz" (fl.lit 50 1) d >>= λ control_tick_hz. pure (record {
        max_speed_mps = max_speed_mps;
        min_battery_for_motion_pct = min_battery_for_motion_pct;
        geofence_abs_xy_limit_m = geofence_abs_xy_limit_m;
        min_obstacle_standoff_m = min_obstacle_standoff_m;
        max_localization_std_m = max_localization_std_m;
        max_sensor_staleness_s = max_sensor_staleness_s;
        control_tick_hz = control_tick_hz;
      })

  -- `max(1, int(d.get(k, default)))`
  abbrev pub positive_at : String → ℤ → Fields F → Call S ℤ
  positive_at k default d = int_at k default d >>= λ n. pure (pos (at_least_one n))

  abbrev pub retry_policy : Fields F → Call S (RetryPolicy F)
  retry_policy retry_data = int_at "max_attempts" (pos 3) retry_data >>= λ max_attempts.
      float_at "backoff_s" (fl.lit 2 1) retry_data >>= λ backoff_s.
      pure (record { max_attempts = max_attempts; backoff_s = backoff_s })

  unfoldable pub ack_config : Fields F → Call S AckConfig
  ack_config ack_data = positive_at "nonce_window" (pos 1000) ack_data >>= λ nonce_window.
      pure (record {
        required = bool_at "required" true ack_data;
        command_id_field = text_or_default "command_id_field" "command_id" ack_data;
        ack_id_field = text_or_default "ack_id_field" "command_id" ack_data;
        require_nonce = bool_at "require_nonce" true ack_data;
        nonce_field = text_or_default "nonce_field" "ack_nonce" ack_data;
        nonce_window = nonce_window;
        require_signature = bool_at "require_signature" true ack_data;
        signature_field = text_or_default "signature_field" "ack_signature" ack_data;
        signature_algorithm = text_or_default "signature_algorithm" "ed25519" ack_data;
        signature_encoding = text_or_default "signature_encoding" "base64" ack_data;
        key_id_field = text_or_default "key_id_field" "ack_kid" ack_data;
        vendor_field = text_or_default "vendor_field" "vendor_id" ack_data;
        keyring_path = text_or_default "keyring_path" "config/ack_keyring.json" ack_data;
      })

  abbrev pub idempotency_config : Fields F → Call S (IdempotencyConfig F)
  idempotency_config idem_data = float_at "key_ttl_s" (fl.lit 3000 1) idem_data >>= λ key_ttl_s.
      pure (record {
        enabled = bool_at "enabled" true idem_data;
        key_ttl_s = key_ttl_s;
        store_path = text_or_default "store_path" "logs/command_ledger.db" idem_data;
      })

  unfoldable pub rollout_policy_config : Fields F → Call S (RolloutPolicyConfig F)
  rollout_policy_config rollout_data =
      positive_at "error_window_size" (pos 20) rollout_data >>= λ error_window_size.
      float_at "error_rate_threshold" (fl.lit 4 1) rollout_data >>= λ error_rate_threshold.
      positive_at "min_samples" (pos 5) rollout_data >>= λ min_samples.
      float_at "rollback_cooldown_s" (fl.lit 300 1) rollout_data >>= λ rollback_cooldown_s.
      pure (record {
        auto_rollback_enabled = bool_at "auto_rollback_enabled" true rollout_data;
        error_window_size = error_window_size;
        error_rate_threshold = error_rate_threshold;
        min_samples = min_samples;
        rollback_cooldown_s = rollback_cooldown_s;
      })

module _ {F S : Type 0} ⦃fl : FloatOps F⦄ ⦃vo : ValueOps F⦄ (files : PolicyFiles F S) where
  unfoldable pub load_policy_config : String → Call S (PolicyConfig F)
  load_policy_config file_path =
      files.read_json file_path >>= λ v. dict_or (some v) end >>= policy_config

  -- The path of another file takes the place of the section, if that file exists.
  abbrev pub followed : Fields F → Option String → Call S (Fields F)
  followed rollout_data none = pure rollout_data
  followed rollout_data (some rollout_path) = files.exists rollout_path >>= λ present.
      if present
      then (files.read_json rollout_path >>= λ v. dict_or (some v) end)
      else pure rollout_data

  -- From the whole configuration.
  unfoldable pub load_rollout_policy : Fields F → Call S (RolloutPolicyConfig F)
  load_rollout_policy config = dict_or (get "rollout_policy" config) end >>= λ rollout_data.
      followed rollout_data (as_str (get "rollout_policy_path" rollout_data))
      >>= rollout_policy_config
