-- ===== src/BundleUpdater/Replay.antt =====
-- Sequences of calls of src/autonomy/bundle_updater.py after a bundle was applied.
use autonomous_vehicle_llm.Base.{
  String, false, ◌≡◌, subst, Option, List, [], ◌∷◌, arith, string_eq, ok,
}
use autonomous_vehicle_llm.Base.Int.{ℤ, leb_ℤ}
use autonomous_vehicle_llm.Base.Post.{Post}
use autonomous_vehicle_llm.Float.{FloatOps}
use autonomous_vehicle_llm.Text.{TextOps}
use autonomous_vehicle_llm.Values.{ValueOps}
use autonomous_vehicle_llm.ApprovalAudit.{ApprovalConfig}
use autonomous_vehicle_llm.BundleUpdater.{JsonFile, Updater, UpdaterOutside}
use autonomous_vehicle_llm.BundleUpdater.Apply.{Applied, apply_bundle_file}
use autonomous_vehicle_llm.BundleUpdater.Checked.{CheckedFile, apply_bundle_file-CheckedFile}
use autonomous_vehicle_llm.BundleUpdater.Approve.{approve_canary_with_metadata}
use autonomous_vehicle_llm.BundleUpdater.Versions.{
  IsIntOf, HasVersion, loaded-StateHas, int_at-StateHas, Installed-HasVersion, apply-HasVersion,
}
use autonomous_vehicle_llm.BundleUpdater.Approvals.{approve-HasVersion}

-- A call of the updater, with the bundle's file or the approval.
pub data UpdaterCall (F : Type 0) : Type 0 where
  apply : JsonFile F → UpdaterCall F
  approve : Option String → String → String → String → UpdaterCall F

module _ {F K : Type 0} ⦃fl : FloatOps F⦄ ⦃tx : TextOps⦄ ⦃vo : ValueOps F⦄
    (out : UpdaterOutside F K) (config : ApprovalConfig K) where
  -- The state after calls that return or raise.
  unfoldable pub after_calls : List (UpdaterCall F) → Updater F → Updater F
  after_calls [] s = s
  after_calls (apply file ∷ calls) s = after_calls calls (apply_bundle_file out file s).1
  after_calls (approve bundle_hash environment approver reason ∷ calls) s =
      after_calls calls
        (approve_canary_with_metadata out config bundle_hash environment approver reason s).1

  after_calls-HasVersion :
      IsIntOf vo
      → (n : ℤ) (calls : List (UpdaterCall F)) (s : Updater F) → HasVersion n s
      → HasVersion n (after_calls calls s)
  unfolding after_calls
  after_calls-HasVersion i n [] s h = h
  after_calls-HasVersion i n (apply file ∷ calls) s h =
      after_calls-HasVersion i n calls _ ((apply-HasVersion out i n file).at s h)
  after_calls-HasVersion i n (approve bundle_hash environment approver reason ∷ calls) s h =
      after_calls-HasVersion i n calls _
        ((approve-HasVersion out config n bundle_hash environment approver reason).at s h)

  -- Once a bundle is applied, no bundle with its version or an older one is applied any more,
  -- whatever bundles are applied or refused and whatever canaries are approved in between.
  pub apply_bundle_file-replay :
      IsIntOf vo
      → (file : JsonFile F) (s t : Updater F) (r : Applied)
      → apply_bundle_file out file s ≡ (ok r, t)
      → (calls : List (UpdaterCall F)) (other_file : JsonFile F) (q : Applied) (u : Updater F)
      → apply_bundle_file out other_file (after_calls calls t) ≡ (ok q, u)
      → leb_ℤ q.applied_version r.applied_version ≡ false
  apply_bundle_file-replay i file s t r first calls other_file q u second =
      let c =
        subst (Post (CheckedFile out file s) (λ e v. v ≡ s)) first
          (apply_bundle_file-CheckedFile out file s) in
      let start = after_calls calls t in
      let d =
        subst (Post (CheckedFile out other_file start) (λ e v. v ≡ start)) second
          (apply_bundle_file-CheckedFile out other_file start) in
      let n = c.checked.version in
      let h =
        after_calls-HasVersion i n calls t
          (Installed-HasVersion out i c.bundle s r t n c.checked (ground arith)) in
      let last =
        int_at-StateHas n d.checked.last d.checked.state start
          (loaded-StateHas n start d.checked.state h d.checked.loaded) d.checked.is_last in
      rw (d.checked.installed.result, c.checked.installed.result)
        (ground (arith, last, d.checked.newer))
