-- ===== src/BundleUpdater/Outcomes.antt =====
-- What the caller of src/autonomy/bundle_updater.py can rely on, whether a bundle is applied or
-- refused.
use autonomous_vehicle_llm.Base.{
  String, true, not, ◌≡◌, refl, sym, ◌∙◌, ap, subst, Option, none, some, arith, ok, raise, Exc,
  raise_if, when, ◌==◌, string_eq, eq_iff, eq_refl, adapter_execution_error,
}
use autonomous_vehicle_llm.Base.Post.{Post, bind-Returned}
use autonomous_vehicle_llm.Float.{FloatOps}
use autonomous_vehicle_llm.Text.{TextOps, is_nonempty}
use autonomous_vehicle_llm.Json.{Fields, str, obj, get, get-put, as_str, not_null}
use autonomous_vehicle_llm.Values.{ValueOps, text_at}
use autonomous_vehicle_llm.BundleUpdater.{
  JsonFile, holding, Updater, UpdaterOutside, environment_state, set_environment_state, obj_at,
}
use autonomous_vehicle_llm.BundleUpdater.Quorum.{EnvPolicy}
use autonomous_vehicle_llm.BundleUpdater.Apply.{
  Stage, canary, global, Applied, apply_bundle_file, is_gated, enforce_canary_gate, check_soak,
  needs_soak, source_or_raise, check_source, staged, next_state, compute_bundle_hash,
}
use autonomous_vehicle_llm.BundleUpdater.Installs.{SameProduction}
use autonomous_vehicle_llm.BundleUpdater.Checked.{
  CheckedFile, environment_of, apply_bundle_file-CheckedFile,
}
use autonomous_vehicle_llm.BundleUpdater.Signers.{Quorum, verify_signatures-Quorum}

abbrev not_approved : Exc
not_approved = adapter_execution_error "canary gate not approved for global rollout"

source_or_raise-some :
    {S : Type 0} (o : Option String) (source_hash : String) (s t : S)
    → source_or_raise o s ≡ (ok source_hash, t)
    → (o ≡ some source_hash) × (is_nonempty source_hash ≡ true)
source_or_raise-some none source_hash s t h = absurd (ground (arith, h))
source_or_raise-some (some x) source_hash s t h = ground (arith, h)

module _ {F : Type 0} where
  -- The entry of an environment is the one that was set.
  environment_state-set :
      (state : Fields F) (environment : String) (entry : Fields F)
      → environment_state (set_environment_state state environment entry) environment ≡ entry
  unfolding environment_state set_environment_state
  environment_state-set state environment entry = rw (get-put, get-put, eq_refl) refl

  staged_global :
      (stage : Stage) (bundle_hash : String) (ts : F) (entry : Fields F)
      → stage ≡ global
      → get "approved_canary_bundle_hash" (staged stage bundle_hash ts entry) ≡ some (str "")
  staged_global canary bundle_hash ts entry e = absurd (ground (arith, e))
  staged_global global bundle_hash ts entry e = rw (get-put, get-put, get-put) refl

module _ {F : Type 0} ⦃fl : FloatOps F⦄ ⦃tx : TextOps⦄ ⦃vo : ValueOps F⦄ where
  -- The gate names the canary bundle whose approval the environment holds.
  pub record GateOpen (metadata env_state : Fields F) : Type 0 where
    pub source_hash : String
    pub named : as_str (get "source_bundle_hash" (obj_at "canary_gate" metadata)) ≡ some source_hash
    pub filled : is_nonempty source_hash ≡ true
    pub approved : text_at "approved_canary_bundle_hash" env_state ≡ source_hash

  enforce_canary_gate-GateOpen :
      {S : Type 0} (metadata state : Fields F) (environment : String) (env_policy : EnvPolicy F)
      (u : Unit {0}) (s t : S)
      → is_gated (obj_at "canary_gate" metadata) env_policy ≡ true
      → enforce_canary_gate metadata state environment env_policy s ≡ (ok u, t)
      → GateOpen metadata (environment_state state environment)
  unfolding enforce_canary_gate
  enforce_canary_gate-GateOpen metadata state environment env_policy u s t g h =
      let gate = obj_at "canary_gate" metadata in
      let env_state = environment_state state environment in
      let r =
        bind-Returned (source_or_raise (as_str (get "source_bundle_hash" gate)))
          (check_source gate env_state env_policy) s u t (rw g at h) in
      let (named, filled) =
        source_or_raise-some (as_str (get "source_bundle_hash" gate)) r.value s r.between r.first in
      let q =
        bind-Returned
          (raise_if (not (text_at "approved_canary_bundle_hash" env_state == r.value)) not_approved)
          (λ v. when (needs_soak env_policy) (
            check_soak env_policy (not_null (get "observed_soak_seconds" gate))
              (not_null (get "observed_error_rate" gate))))
          r.between u t r.rest in
      record {
        source_hash = r.value;
        named = named;
        filled = filled;
        approved =
            ground
              (arith, q.first, eq_iff (text_at "approved_canary_bundle_hash" env_state) r.value);
      }

module _ {F K : Type 0} ⦃fl : FloatOps F⦄ ⦃tx : TextOps⦄ ⦃vo : ValueOps F⦄
    (out : UpdaterOutside F K) where
  applied-CheckedFile :
      (file : JsonFile F) (s t : Updater F) (r : Applied)
      → apply_bundle_file out file s ≡ (ok r, t)
      → CheckedFile out file s r t
  applied-CheckedFile file s t r h =
      subst (Post (CheckedFile out file s) (λ e v. v ≡ s)) h
        (apply_bundle_file-CheckedFile out file s)

  -- A bundle that is refused, for whatever reason, changes no file and appends nothing.
  pub apply_bundle_file-raise :
      (file : JsonFile F) (s t : Updater F) (e : Exc)
      → apply_bundle_file out file s ≡ (raise e, t)
      → t ≡ s
  apply_bundle_file-raise file s t e h =
      subst (Post (CheckedFile out file s) (λ e v. v ≡ s)) h
        (apply_bundle_file-CheckedFile out file s)

  -- An applied bundle is signed by as many different keys of the trust store as the policy of its
  -- environment asks for.
  pub apply_bundle_file-Quorum :
      (file : JsonFile F) (s t : Updater F) (r : Applied)
      → apply_bundle_file out file s ≡ (ok r, t)
      → (c : CheckedFile out file s r t) × Quorum out c.bundle c.checked.trust_store
          c.checked.env_policy.min_signatures
  apply_bundle_file-Quorum file s t r h =
      let c = applied-CheckedFile file s t r h in
      (
        c,
        verify_signatures-Quorum out c.bundle c.checked.trust_store
            c.checked.env_policy.min_signatures tt s s c.checked.signed,
      )

  -- A canary bundle leaves the keyring, the pins and the rollout policy of production alone.
  pub apply_bundle_file-canary :
      (file : JsonFile F) (s t : Updater F) (r : Applied)
      → apply_bundle_file out file s ≡ (ok r, t)
      → r.rollout_stage ≡ canary
      → SameProduction s t
  apply_bundle_file-canary file s t r h e =
      let i = (applied-CheckedFile file s t r h).checked.installed in
      i.production (ap (λ q. q.rollout_stage) (sym i.result) ∙ e)

  -- A global bundle that is gated is applied only with the approval of the canary that it names, and
  -- the approval is gone afterwards.
  pub apply_bundle_file-GateOpen :
      (file : JsonFile F) (s t : Updater F) (r : Applied)
      → apply_bundle_file out file s ≡ (ok r, t)
      → r.rollout_stage ≡ global
      → (c : CheckedFile out file s r t) × (is_gated
              (obj_at "canary_gate" c.bundle.metadata)
              c.checked.env_policy
            ≡ true
          → GateOpen c.bundle.metadata (environment_state c.checked.state r.environment))
        × (d : Fields F) × (t.state_file ≡ holding (obj d))
        × (get "approved_canary_bundle_hash" (environment_state d r.environment) ≡ some (str ""))
  apply_bundle_file-GateOpen file s t r h e =
      let c = applied-CheckedFile file s t r h in
      let i = c.checked.installed in
      let env : environment_of out c.bundle ≡ r.environment =
        ap (λ q. q.environment) (sym i.result) in
      let stage : c.checked.stage ≡ global = ap (λ q. q.rollout_stage) (sym i.result) ∙ e in
      (
        c,
        (λ g.
            subst (λ n. GateOpen c.bundle.metadata (environment_state c.checked.state n)) env
              (enforce_canary_gate-GateOpen c.bundle.metadata c.checked.state
                (environment_of out c.bundle) c.checked.env_policy tt s s g
                (c.checked.gated stage))),
        stored c,
        i.written,
        subst
            (λ n.
              get "approved_canary_bundle_hash" (environment_state (stored c) n) ≡ some (str ""))
            env
            (ap (get "approved_canary_bundle_hash")
                (environment_state-set (next c) (environment_of out c.bundle) (entry c))
              ∙ staged_global c.checked.stage (compute_bundle_hash out c.bundle) i.ts _ stage),
      )
    where
      next : CheckedFile out file s r t → Fields F
      next c = next_state out c.bundle.metadata (compute_bundle_hash out c.bundle) c.checked.state

      entry : CheckedFile out file s r t → Fields F
      entry c =
          staged c.checked.stage (compute_bundle_hash out c.bundle) c.checked.installed.ts
            (environment_state (next c) (environment_of out c.bundle))

      stored : CheckedFile out file s r t → Fields F
      stored c = set_environment_state (next c) (environment_of out c.bundle) (entry c)
