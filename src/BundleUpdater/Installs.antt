-- ===== src/BundleUpdater/Installs.antt =====
-- What src/autonomy/bundle_updater.py writes for a bundle after its checks.
use autonomous_vehicle_llm.Base.{String, Bool, true, ◌≡◌, refl, ◌∙◌, ap, ok, ◌>>◌, pure}
use autonomous_vehicle_llm.Base.Int.{ℤ}
use autonomous_vehicle_llm.Base.Post.{Post, Post-after, Post-bind}
use autonomous_vehicle_llm.Float.{FloatOps}
use autonomous_vehicle_llm.Text.{TextOps}
use autonomous_vehicle_llm.Json.{Fields, null, bool, int, float, arr, str, obj}
use autonomous_vehicle_llm.Values.{ValueOps}
use autonomous_vehicle_llm.BundleUpdater.{
  JsonFile, missing, broken, holding, Updater, UpdaterOutside, load_state, state_of,
  environment_state, set_environment_state,
}
use autonomous_vehicle_llm.BundleUpdater.Checks.{state_of-Reading}
use autonomous_vehicle_llm.BundleUpdater.Apply.{
  Bundle, Stage, canary, global, Applied, applied, apply_payload, update_state, install, next_state,
  staged, write_staged, compute_bundle_hash,
}

module _ {F : Type 0} where
  -- What the files of the state and of the trust store have in common with others that lie beside.
  pub record SameState (s t : Updater F) : Type 0 where
    pub state_file : t.state_file ≡ s.state_file
    pub trust_store_file : t.trust_store_file ≡ s.trust_store_file
    pub approval_audit : t.approval_audit ≡ s.approval_audit

  pub record SameProduction (s t : Updater F) : Type 0 where
    pub keyring_file : t.keyring_file ≡ s.keyring_file
    pub pinset_file : t.pinset_file ≡ s.pinset_file
    pub rollout_policy_file : t.rollout_policy_file ≡ s.rollout_policy_file

  -- Reading the state depends on its file alone.
  state_of_result :
      {S : Type 0} (file : JsonFile F) (s t : S) → (state_of file s).0 ≡ (state_of file t).0
  state_of_result missing s t = refl
  state_of_result broken s t = refl
  state_of_result (holding null) s t = refl
  state_of_result (holding (bool b)) s t = refl
  state_of_result (holding (int n)) s t = refl
  state_of_result (holding (float x)) s t = refl
  state_of_result (holding (str u)) s t = refl
  state_of_result (holding (arr vs)) s t = refl
  state_of_result (holding (obj d)) s t = refl

  load_state_same :
      (s t : Updater F) (d : Fields F)
      → t.state_file ≡ s.state_file
      → load_state s ≡ (ok d, s)
      → load_state t ≡ (ok d, t)
  unfolding load_state
  load_state_same s t d e h =
      let first : (state_of t.state_file t).0 ≡ ok d =
        ap (λ f. (state_of f t).0) e ∙ state_of_result s.state_file t s ∙ ap (λ r. r.0) h in
      λ i. (first i, (state_of-Reading t.state_file).at t i)

module _ {F K : Type 0} ⦃fl : FloatOps F⦄ ⦃tx : TextOps⦄ ⦃vo : ValueOps F⦄
    (out : UpdaterOutside F K) where
  -- The state after a bundle was installed over the state `previous`.
  pub record Installed (b : Bundle F) (version : ℤ) (environment : String) (stage : Stage)
      (previous : Fields F) (s : Updater F) (r : Applied) (t : Updater F) : Type 0 where
    pub ts : F
    pub result : r ≡ applied version stage environment (compute_bundle_hash out b)
    pub written :
        t.state_file
        ≡ holding (
            obj (
              set_environment_state
                (next_state out b.metadata (compute_bundle_hash out b) previous)
                environment
                (staged stage (compute_bundle_hash out b) ts (
                  environment_state
                    (next_state out b.metadata (compute_bundle_hash out b) previous)
                    environment))))
    pub trust_store_file : t.trust_store_file ≡ s.trust_store_file
    pub lines : t.approval_audit.lines ≡ s.approval_audit.lines
    pub production : stage ≡ canary → SameProduction s t

  write_staged-Installed :
      (b : Bundle F) (version : ℤ) (environment : String) (stage : Stage) (previous : Fields F)
      (s t : Updater F)
      → SameState s t
      → (stage ≡ canary → SameProduction s t)
      → Post
          (λ u t.
            Installed b version environment stage previous s
              (applied version stage environment (compute_bundle_hash out b))
              t)
          (λ e t. t ≡ s)
          (write_staged out b.metadata (compute_bundle_hash out b) stage environment previous t)
  write_staged-Installed b version environment canary previous s t k p = record {
    ts = out.audit.clock t.approval_audit.tick;
    result = refl;
    written = refl;
    trust_store_file = k.trust_store_file;
    lines = ap (λ a. a.lines) k.approval_audit;
    production = λ e. record {
      keyring_file = (p e).keyring_file;
      pinset_file = (p e).pinset_file;
      rollout_policy_file = (p e).rollout_policy_file;
    };
  }
  write_staged-Installed b version environment global previous s t k p = record {
    ts = fl.lit 0 0;
    result = refl;
    written = refl;
    trust_store_file = k.trust_store_file;
    lines = ap (λ a. a.lines) k.approval_audit;
    production = λ e. record {
      keyring_file = (p e).keyring_file;
      pinset_file = (p e).pinset_file;
      rollout_policy_file = (p e).rollout_policy_file;
    };
  }

  pub install-Installed :
      (b : Bundle F) (version : ℤ) (environment : String) (stage : Stage) (flag : Bool)
      (previous : Fields F) (s : Updater F)
      → load_state s ≡ (ok previous, s)
      → (stage ≡ canary → flag ≡ true)
      → Post
          (Installed b version environment stage previous s)
          (λ e t. t ≡ s)
          (install out b version environment stage flag s)
  unfolding apply_payload update_state
  install-Installed b version environment stage flag previous s h c =
      Post-bind
        (λ u t.
          Installed b version environment stage previous s
            (applied version stage environment (compute_bundle_hash out b)) t)
        (Installed b version environment stage previous s) (λ e t. t ≡ s)
        (apply_payload b.payload flag
          >> update_state out b.metadata (compute_bundle_hash out b) stage environment)
        (λ u. pure (applied version stage environment (compute_bundle_hash out b))) s
        (Post-after _ (λ e t. t ≡ s) load_state
          (write_staged out b.metadata (compute_bundle_hash out b) stage environment) loaded
          previous loaded (load_state_same s loaded previous refl h)
          (write_staged-Installed b version environment stage previous s loaded
            (record { state_file = refl; trust_store_file = refl; approval_audit = refl })
            (λ e.
              rw (c e)
                (record { keyring_file = refl; pinset_file = refl; rollout_policy_file = refl }))))
        (λ u t k. k)
    where
      loaded : Updater F
      loaded = (apply_payload b.payload flag s).1
