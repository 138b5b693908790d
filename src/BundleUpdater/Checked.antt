-- ===== src/BundleUpdater/Checked.antt =====
-- What a bundle has passed when src/autonomy/bundle_updater.py has applied it.
use autonomous_vehicle_llm.Base.{
  String, Bool, true, false, ◌≡◌, refl, Option, none, some, List, [], ◌∷◌, arith, Bool-cases, ◌==◌,
  string_eq, ok, Call, ◌>>=◌, inl, inr, Exc, raise_if, adapter_execution_error,
}
use autonomous_vehicle_llm.Base.Int.{ℤ, pos, leb_ℤ}
use autonomous_vehicle_llm.Base.Post.{Post, Post-mono}
use autonomous_vehicle_llm.Base.Reading.{
  Reading, pure-Reading, fail-Reading, raise_if-Reading, when-Reading, bind-Reading, then-Reading,
  if-Reading, Post-observe,
}
use autonomous_vehicle_llm.Float.{FloatOps}
use autonomous_vehicle_llm.Text.{TextOps, is_nonempty}
use autonomous_vehicle_llm.Json.{Value, Fields, get, as_str, as_obj, not_null}
use autonomous_vehicle_llm.Values.{ValueOps, int_at}
use autonomous_vehicle_llm.BundleUpdater.{
  JsonFile, Updater, UpdaterOutside, load_state, load_trust_store, read_json, obj_at,
}
use autonomous_vehicle_llm.BundleUpdater.Quorum.{
  EnvPolicy, environment_policy, extract_signatures, verify_signatures,
}
use autonomous_vehicle_llm.BundleUpdater.Checks.{
  float_of-Reading, load_state-Reading, load_trust_store-Reading, read_json-Reading, int_at-Reading,
  environment_policy-Reading, verify_signatures-Reading,
}
use autonomous_vehicle_llm.BundleUpdater.Apply.{
  Bundle, Stage, canary, global, Applied, install, roll_out, apply_version, apply_over, apply_newer,
  apply_trusted, apply_policy, apply_bundle, apply_bundle_fields, apply_bundle_file, read_bundle,
  bundle_or_raise, version_or_raise, int_or_fail, as_int, lower_at, check_soak, source_or_raise,
  enforce_canary_gate, is_gated, needs_soak,
}
use autonomous_vehicle_llm.BundleUpdater.Installs.{Installed, install-Installed}

module _ {S F : Type 0} where
  bundle_or_raise-Reading :
      (m p : Option (Fields F)) (signatures : List (Fields F))
      → Reading {S = S} (bundle_or_raise m p signatures)
  bundle_or_raise-Reading none p signatures = fail-Reading _
  bundle_or_raise-Reading (some m) none signatures = fail-Reading _
  bundle_or_raise-Reading (some m) (some p) [] = fail-Reading _
  bundle_or_raise-Reading (some m) (some p) (signature ∷ signatures) = pure-Reading _

module _ {S : Type 0} where
  int_or_fail-Reading : (o : Option ℤ) → Reading {S = S} (int_or_fail o)
  int_or_fail-Reading none = fail-Reading _
  int_or_fail-Reading (some n) = pure-Reading n

  int_or_fail-some : (o : Option ℤ) (n : ℤ) (s : S) → int_or_fail o s ≡ (ok n, s) → o ≡ some n
  int_or_fail-some none n s h = absurd (ground (arith, h))
  int_or_fail-some (some m) n s h = ground (arith, h)

  pub raise_if-false :
      (b : Bool) (e : Exc) (u : Unit {0}) (s : S) → raise_if b e s ≡ (ok u, s) → b ≡ false
  raise_if-false true e u s h = absurd (ground (arith, h))
  raise_if-false false e u s h = refl

  source_or_raise-Reading : (o : Option String) → Reading {S = S} (source_or_raise o)
  source_or_raise-Reading none = fail-Reading _
  source_or_raise-Reading (some t) = if-Reading (is_nonempty t) (pure-Reading t) (fail-Reading _)

module _ {S F : Type 0} ⦃fl : FloatOps F⦄ ⦃tx : TextOps⦄ ⦃vo : ValueOps F⦄ where
  check_soak-Reading :
      (env_policy : EnvPolicy F) (o p : Option (Value F))
      → Reading {S = S} (check_soak env_policy o p)
  check_soak-Reading env_policy none p = fail-Reading _
  check_soak-Reading env_policy (some v) none = fail-Reading _
  check_soak-Reading env_policy (some v) (some w) = bind-Reading (float_of-Reading v) λ soak.
      bind-Reading (then-Reading (raise_if-Reading _ _) (float_of-Reading w))
        λ rate. raise_if-Reading _ _

  enforce_canary_gate-Reading :
      (metadata state : Fields F) (environment : String) (env_policy : EnvPolicy F)
      → Reading {S = S} (enforce_canary_gate metadata state environment env_policy)
  unfolding enforce_canary_gate
  enforce_canary_gate-Reading metadata state environment env_policy =
      when-Reading (is_gated (obj_at "canary_gate" metadata) env_policy) (
        bind-Reading (source_or_raise-Reading (as_str (get "source_bundle_hash" gate))) λ source.
          then-Reading (raise_if-Reading _ _) (
            when-Reading (needs_soak env_policy) (
              check_soak-Reading env_policy (not_null (get "observed_soak_seconds" gate))
                (not_null (get "observed_error_rate" gate)))))
    where
      gate : Fields F
      gate = obj_at "canary_gate" metadata

module _ {F K : Type 0} ⦃fl : FloatOps F⦄ ⦃tx : TextOps⦄ ⦃vo : ValueOps F⦄
    (out : UpdaterOutside F K) where
  abbrev pub environment_of : Bundle F → String
  environment_of b = lower_at "environment" "dev" b.metadata

  -- A bundle that was applied in the state `s`, with what each check found.
  pub record Checked (b : Bundle F) (s : Updater F) (r : Applied) (t : Updater F) : Type 0 where
    pub state : Fields F
    pub loaded : load_state s ≡ (ok state, s)
    pub version : ℤ
    pub is_version : as_int (get "version" b.metadata) ≡ some version
    pub last : ℤ
    pub is_last : int_at "last_version" (pos 0) state s ≡ (ok last, s)
    pub newer : leb_ℤ version last ≡ false
    pub trust_store : Fields F
    pub trusted : load_trust_store s ≡ (ok trust_store, s)
    pub env_policy : EnvPolicy F
    pub is_policy : environment_policy trust_store (environment_of b) s ≡ (ok env_policy, s)
    pub signed :
        verify_signatures out b.metadata b.payload b.signatures trust_store
          env_policy.min_signatures s
        ≡ (ok tt, s)
    pub stage : Stage
    pub gated :
        stage ≡ global
        → enforce_canary_gate b.metadata state (environment_of b) env_policy s ≡ (ok tt, s)
    pub installed : Installed out b version (environment_of b) stage state s r t

  -- The stage of a roll-out, with the gate that a global one has passed.
  pub record RolledOut (b : Bundle F) (version : ℤ) (environment : String) (state : Fields F)
      (env_policy : EnvPolicy F) (s : Updater F) (r : Applied) (t : Updater F) : Type 0 where
    pub stage : Stage
    pub gated :
        stage ≡ global → enforce_canary_gate b.metadata state environment env_policy s ≡ (ok tt, s)
    pub installed : Installed out b version environment stage state s r t

  roll_out-RolledOut :
      (b : Bundle F) (version : ℤ) (environment : String) (state : Fields F)
      (env_policy : EnvPolicy F) (rollout_stage : String) (s : Updater F)
      → load_state s ≡ (ok state, s)
      → Post
          (RolledOut b version environment state env_policy s)
          (λ e t. t ≡ s)
          (roll_out out b version environment state env_policy rollout_stage s)
  roll_out-RolledOut b version environment state env_policy rollout_stage s h =
      elim (Bool-cases (rollout_stage == "canary")) [
        | inl e ↦ rw e (
            Post-mono (Installed out b version environment canary state s) rolled (λ e t. t ≡ s)
              (λ e t. t ≡ s) (install out b version environment canary true s)
              (λ r t k. record {
                stage = canary;
                gated = λ (f : canary ≡ global). absurd (ground (arith, f));
                installed = k;
              })
              (λ e t x. x)
              (install-Installed out b version environment canary true state s h (λ _. refl)))
        | inr e ↦ elim (Bool-cases (rollout_stage == "global")) [
          | inl f ↦
              rw (e, f)
                (Post-observe rolled (enforce_canary_gate b.metadata state environment env_policy)
                  (λ u. install out b version environment global false) s
                  (enforce_canary_gate-Reading b.metadata state environment env_policy)
                  (λ u g.
                    Post-mono (Installed out b version environment global state s) rolled
                      (λ e t. t ≡ s) (λ e t. t ≡ s)
                      (install out b version environment global false s)
                      (λ r t k. record { stage = global; gated = λ _. g; installed = k })
                      (λ e t x. x)
                      (install-Installed out b version environment global false state s h
                        (λ (x : global ≡ canary). absurd (ground (arith, x))))))
          | inr f ↦ rw (e, f) refl
        ]
      ]
    where
      rolled : Applied → Updater F → Type 0
      rolled = RolledOut b version environment state env_policy s

  pub apply_bundle-Checked :
      (b : Bundle F) (s : Updater F) → Post (Checked b s) (λ e t. t ≡ s) (apply_bundle out b s)
  apply_bundle-Checked b s =
      reading (version_or_raise b.metadata) (apply_version out b)
        (int_or_fail-Reading (as_int (get "version" b.metadata)))
        λ version is_version.
          reading load_state (apply_over out b version) load_state-Reading λ state loaded.
            reading (int_at "last_version" (pos 0) state) (apply_newer out b version state)
              (int_at-Reading "last_version" (pos 0) state)
              λ last is_last.
                reading (raise_if (leb_ℤ version last) older)
                  (λ u. load_trust_store >>= apply_trusted out b version environment state)
                  (raise_if-Reading (leb_ℤ version last) older)
                  λ u newer.
                    reading load_trust_store (apply_trusted out b version environment state)
                      load_trust_store-Reading
                      λ trust_store trusted.
                        reading (environment_policy trust_store environment)
                          (apply_policy out b version environment state trust_store)
                          (environment_policy-Reading trust_store environment)
                          λ policy is_policy.
                            reading
                              (verify_signatures out b.metadata b.payload b.signatures trust_store
                                policy.min_signatures)
                              (λ u. roll_out out b version environment state policy stage_text)
                              (verify_signatures-Reading out b.metadata b.payload b.signatures
                                trust_store policy.min_signatures)
                              λ v signed.
                                Post-mono (RolledOut b version environment state policy s)
                                  (Checked b s) (λ e t. t ≡ s) (λ e t. t ≡ s)
                                  (roll_out out b version environment state policy stage_text s)
                                  (λ r t k. record {
                                    state = state;
                                    loaded = loaded;
                                    version = version;
                                    is_version =
                                        int_or_fail-some (as_int (get "version" b.metadata)) version
                                          s is_version;
                                    last = last;
                                    is_last = is_last;
                                    newer = raise_if-false (leb_ℤ version last) older u s newer;
                                    trust_store = trust_store;
                                    trusted = trusted;
                                    env_policy = policy;
                                    is_policy = is_policy;
                                    signed = signed;
                                    stage = k.stage;
                                    gated = k.gated;
                                    installed = k.installed;
                                  })
                                  (λ e t x. x)
                                  (roll_out-RolledOut b version environment state policy stage_text
                                    s loaded)
    where
      environment : String
      environment = environment_of b

      stage_text : String
      stage_text = lower_at "rollout_stage" "global" b.metadata

      older : Exc
      older = adapter_execution_error "bundle version is not newer than current state"

      reading :
          {A : Type 0} (m : Call (Updater F) A) (f : A → Call (Updater F) Applied)
          → Reading m
          → ((a : A) → m s ≡ (ok a, s) → Post (Checked b s) (λ e t. t ≡ s) (f a s))
          → Post (Checked b s) (λ e t. t ≡ s) ((m >>= f) s)
      reading m f r k = Post-observe (Checked b s) m f s r k

  -- The same of the file of a bundle.
  pub record CheckedFile (file : JsonFile F) (s : Updater F) (r : Applied) (t : Updater F)
      : Type 0 where
    pub fields : Fields F
    pub read : read_json file s ≡ (ok fields, s)
    pub bundle : Bundle F
    pub parts : read_bundle fields s ≡ (ok bundle, s)
    pub checked : Checked bundle s r t

  -- A bundle that is applied has passed every check, and one that is refused leaves every file as
  -- it was.
  pub apply_bundle_file-CheckedFile :
      (file : JsonFile F) (s : Updater F)
      → Post (CheckedFile file s) (λ e t. t ≡ s) (apply_bundle_file out file s)
  unfolding apply_bundle_file
  apply_bundle_file-CheckedFile file s =
      Post-observe (CheckedFile file s) (read_json file) (apply_bundle_fields out) s
        (read_json-Reading file)
        λ fields read.
          Post-observe (CheckedFile file s) (read_bundle fields) (apply_bundle out) s
            (bundle_or_raise-Reading (as_obj (get "metadata" fields))
              (as_obj (get "payload" fields)) (extract_signatures fields))
            λ bundle parts.
              Post-mono (Checked bundle s) (CheckedFile file s) (λ e t. t ≡ s) (λ e t. t ≡ s)
                (apply_bundle out bundle s)
                (λ r t k. record {
                  fields = fields;
                  read = read;
                  bundle = bundle;
                  parts = parts;
                  checked = k;
                })
                (λ e t x. x) (apply_bundle-Checked bundle s)
