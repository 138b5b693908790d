-- ===== src/Policy/Loading.antt =====
-- What loading a configuration gives (src/autonomy/policy.py).
use autonomous_vehicle_llm.Base.{
  String, true, ◌≡◌, refl, none, some, fail, exception, Call, ◌>>=◌, pure, ok, ◌∙◌, ap, arith, zero,
  suc,
}
use autonomous_vehicle_llm.Base.Int.{ℤ, pos, negsuc, leb_ℤ, at_least_one}
use autonomous_vehicle_llm.Base.Post.{Post, Post-bind, Post-any, bind_after, after_any}
use autonomous_vehicle_llm.Float.{FloatOps}
use autonomous_vehicle_llm.Json.{Fields, float, obj, end, field, get, as_str}
use autonomous_vehicle_llm.Values.{ValueOps, dict_or, bool_at, float_at, float_of, int_at}
use autonomous_vehicle_llm.Models.{PolicyConfig, RolloutPolicyConfig}
use autonomous_vehicle_llm.Policy.{
  PolicyFiles, policy_config, positive_at, rollout_policy_config, load_policy_config, followed,
  load_rollout_policy,
}

module _ {F : Type 0} where
  -- A configuration as a dictionary of its fields.
  abbrev pub policy_fields : PolicyConfig F → Fields F
  policy_fields c =
      (field "max_speed_mps" (float c.max_speed_mps) (
        field "min_battery_for_motion_pct" (float c.min_battery_for_motion_pct) (
          field "geofence_abs_xy_limit_m" (float c.geofence_abs_xy_limit_m) (
            field "min_obstacle_standoff_m" (float c.min_obstacle_standoff_m) (
              field "max_localization_std_m" (float c.max_localization_std_m) (
                field "max_sensor_staleness_s" (float c.max_sensor_staleness_s)
                  (field "control_tick_hz" (float c.control_tick_hz) end)))))))

  -- What a rollout policy is loaded with.
  abbrev pub HasWindows : RolloutPolicyConfig F → Type 0
  HasWindows c = (leb_ℤ (pos 1) c.error_window_size ≡ true) × (leb_ℤ (pos 1) c.min_samples ≡ true)

at_least_one-le : (n : ℤ) → leb_ℤ (pos 1) (pos (at_least_one n)) ≡ true
at_least_one-le (pos zero) = refl
at_least_one-le (pos (suc n)) = ground arith
at_least_one-le (negsuc n) = refl

module _ {F S : Type 0} ⦃fl : FloatOps F⦄ ⦃vo : ValueOps F⦄ where
  float_at-float :
      ((x : F) → vo.to_float (float x) ≡ some x)
      → (k : String) (default : F) (d : Fields F) (x : F) → get k d ≡ some (float x)
      → float_at {S = S} k default d ≡ pure x
  float_at-float h k default d x e =
      ap (λ o. elim o [ none ↦ pure default | some v ↦ float_of v ]) e
      ∙ ap (λ o. elim o [ none ↦ fail (exception "ValueError") | some y ↦ pure y ]) (h x)

  policy_config-policy_fields :
      ((x : F) → vo.to_float (float x) ≡ some x)
      → (c : PolicyConfig F) (s : S) → policy_config (policy_fields c) s ≡ (ok c, s)
  unfolding policy_config
  policy_config-policy_fields h c s i =
      (float_at-float h "max_speed_mps" (fl.lit 80 1) (policy_fields c) c.max_speed_mps refl i
          >>= λ max_speed_mps.
              float_at-float h "min_battery_for_motion_pct" (fl.lit 250 1) (policy_fields c)
                c.min_battery_for_motion_pct refl i
              >>= λ min_battery_for_motion_pct.
                  float_at-float h "geofence_abs_xy_limit_m" (fl.lit 1000 1) (policy_fields c)
                    c.geofence_abs_xy_limit_m refl i
                  >>= λ geofence_abs_xy_limit_m.
                      float_at-float h "min_obstacle_standoff_m" (fl.lit 20 1) (policy_fields c)
                        c.min_obstacle_standoff_m refl i
                      >>= λ min_obstacle_standoff_m.
                          float_at-float h "max_localization_std_m" (fl.lit 50 1) (policy_fields c)
                            c.max_localization_std_m refl i
                          >>= λ max_localization_std_m.
                              float_at-float h "max_sensor_staleness_s" (fl.lit 10 1)
                                (policy_fields c) c.max_sensor_staleness_s refl i
                              >>= λ max_sensor_staleness_s.
                                  float_at-float h "control_tick_hz" (fl.lit 50 1) (policy_fields c)
                                    c.control_tick_hz refl i
                                  >>= λ control_tick_hz. pure (record {
                                    max_speed_mps = max_speed_mps;
                                    min_battery_for_motion_pct = min_battery_for_motion_pct;
                                    geofence_abs_xy_limit_m = geofence_abs_xy_limit_m;
                                    min_obstacle_standoff_m = min_obstacle_standoff_m;
                                    max_localization_std_m = max_localization_std_m;
                                    max_sensor_staleness_s = max_sensor_staleness_s;
                                    control_tick_hz = control_tick_hz;
                                  }))
        s

  positive_at-le :
      (k : String) (default : ℤ) (d : Fields F) (s : S)
      → Post (λ n t. leb_ℤ (pos 1) n ≡ true) (λ e t. Unit) (positive_at k default d s)
  positive_at-le k default d s =
      Post-bind (λ n t. Unit) (λ n t. leb_ℤ (pos 1) n ≡ true) (λ e t. Unit) (int_at k default d)
        (λ n. pure (pos (at_least_one n))) s (Post-any (int_at k default d s))
        (λ n t u. at_least_one-le n)

  rollout_policy_config-HasWindows :
      (d : Fields F) (s : S) → Post (λ c t. HasWindows c) (λ e t. Unit) (rollout_policy_config d s)
  unfolding rollout_policy_config
  rollout_policy_config-HasWindows d s =
      let last : ℤ → F → ℤ → F → Call S (RolloutPolicyConfig F) =
        λ error_window_size error_rate_threshold min_samples rollback_cooldown_s. pure (record {
          auto_rollback_enabled = bool_at "auto_rollback_enabled" true d;
          error_window_size = error_window_size;
          error_rate_threshold = error_rate_threshold;
          min_samples = min_samples;
          rollback_cooldown_s = rollback_cooldown_s;
        }) in
      let cooldown : Call S F = float_at "rollback_cooldown_s" (fl.lit 300 1) d in
      let samples : Call S ℤ = positive_at "min_samples" (pos 5) d in
      let rate : Call S F = float_at "error_rate_threshold" (fl.lit 4 1) d in
      Post-bind (λ n t. leb_ℤ (pos 1) n ≡ true) (λ c t. HasWindows c) (λ e t. Unit)
        (positive_at "error_window_size" (pos 20) d)
        (λ n. rate >>= λ x. samples >>= λ m. cooldown >>= λ y. last n x m y) s
        (positive_at-le "error_window_size" (pos 20) d s)
        λ n t p.
          after_any (λ c t. HasWindows c) rate
            (λ x. samples >>= λ m. cooldown >>= λ y. last n x m y) t
            λ x u.
              Post-bind (λ n t. leb_ℤ (pos 1) n ≡ true) (λ c t. HasWindows c) (λ e t. Unit) samples
                (λ m. cooldown >>= λ y. last n x m y) u (positive_at-le "min_samples" (pos 5) d u)
                λ m v q.
                  after_any (λ c t. HasWindows c) cooldown (λ y. last n x m y) v λ y w. (p, q)

module _ {F S : Type 0} ⦃fl : FloatOps F⦄ ⦃vo : ValueOps F⦄ (files : PolicyFiles F S) where
  -- A file that holds the seven fields of a configuration is loaded as that configuration, where
  -- `float` of a float is the float.
  pub load_policy_config-policy_fields :
      ((x : F) → vo.to_float (float x) ≡ some x)
      → (c : PolicyConfig F) (file_path : String) (s t : S)
      → files.read_json file_path s ≡ (ok (obj (policy_fields c)), t)
      → load_policy_config files file_path s ≡ (ok c, t)
  unfolding load_policy_config
  load_policy_config-policy_fields h c file_path s t r =
      bind_after (files.read_json file_path) (λ v. dict_or (some v) end >>= policy_config) s
        (obj (policy_fields c)) t r
      ∙ policy_config-policy_fields h c t

  -- A rollout policy that is loaded has an error window and a least number of samples of at least 1,
  -- whatever the configuration and the file that it names say.
  pub load_rollout_policy-HasWindows :
      (config : Fields F) (s : S)
      → Post (λ c t. HasWindows c) (λ e t. Unit) (load_rollout_policy files config s)
  unfolding load_rollout_policy
  load_rollout_policy-HasWindows config s =
      after_any (λ c t. HasWindows c) (dict_or (get "rollout_policy" config) end)
        (λ d. followed files d (as_str (get "rollout_policy_path" d)) >>= rollout_policy_config) s
        λ d t.
          after_any (λ c t. HasWindows c) (followed files d (as_str (get "rollout_policy_path" d)))
            rollout_policy_config t rollout_policy_config-HasWindows
