-- ===== src/BundleUpdater/Checks.antt =====
-- The checks of src/autonomy/bundle_updater.py that change nothing, and the installation of a
-- bundle after them.
use autonomous_vehicle_llm.Base.{
  ℕ, String, Option, none, some, List, [], ◌∷◌, contains, string_eq, exception, pure, fail,
}
use autonomous_vehicle_llm.Base.Int.{ℤ, pos, at_least_one}
use autonomous_vehicle_llm.Base.Reading.{
  Reading, pure-Reading, fail-Reading, raise_if-Reading, if-Reading, bind-Reading,
}
use autonomous_vehicle_llm.Float.{FloatOps}
use autonomous_vehicle_llm.Text.{TextOps}
use autonomous_vehicle_llm.Json.{Value, Fields, null, bool, int, float, str, arr, obj, get}
use autonomous_vehicle_llm.Values.{
  ValueOps, IntOf, parsed, invalid, other, int_or_raise, int_at, float_of, float_at,
}
use autonomous_vehicle_llm.Transport.{Verdict, valid}
use autonomous_vehicle_llm.BundleUpdater.{
  JsonFile, missing, broken, holding, UpdaterOutside, read_json, load_state, state_of,
  load_trust_store, trust_store_of, obj_at,
}
use autonomous_vehicle_llm.BundleUpdater.Quorum.{
  environment_policy, SignatureCheck, signature_check, count_verdict, count_check, count_signatures,
  keys_or_raise, signed_content, verify_signatures,
}

module _ {S F : Type 0} where
  pub read_json-Reading : (file : JsonFile F) → Reading {S = S} (read_json file)
  read_json-Reading missing = fail-Reading _
  read_json-Reading broken = fail-Reading _
  read_json-Reading (holding (obj d)) = pure-Reading d
  read_json-Reading (holding null) = fail-Reading _
  read_json-Reading (holding (bool b)) = fail-Reading _
  read_json-Reading (holding (int n)) = fail-Reading _
  read_json-Reading (holding (float x)) = fail-Reading _
  read_json-Reading (holding (str t)) = fail-Reading _
  read_json-Reading (holding (arr vs)) = fail-Reading _

  pub state_of-Reading : (file : JsonFile F) → Reading {S = S} (state_of file)
  state_of-Reading missing = pure-Reading _
  state_of-Reading broken = fail-Reading _
  state_of-Reading (holding v) = bind-Reading (read_json-Reading (holding v)) (λ d. pure-Reading _)

  trust_store_of-Reading : (file : JsonFile F) → Reading {S = S} (trust_store_of file)
  trust_store_of-Reading missing = fail-Reading _
  trust_store_of-Reading broken = fail-Reading _
  trust_store_of-Reading (holding v) = read_json-Reading (holding v)

module _ {S : Type 0} where
  int_or_raise-Reading : (r : IntOf) → Reading {S = S} (int_or_raise r)
  int_or_raise-Reading (parsed n) = pure-Reading n
  int_or_raise-Reading invalid = fail-Reading _
  int_or_raise-Reading (other e) = fail-Reading _

module _ {F : Type 0} where
  pub load_state-Reading : Reading (load_state {F = F})
  unfolding load_state
  load_state-Reading = record { at = λ s. (state_of-Reading s.state_file).at s }

  pub load_trust_store-Reading : Reading (load_trust_store {F = F})
  unfolding load_trust_store
  load_trust_store-Reading = record { at = λ s. (trust_store_of-Reading s.trust_store_file).at s }

module _ {S F : Type 0} ⦃vo : ValueOps F⦄ where
  pub int_at-Reading : (k : String) (n : ℤ) (d : Fields F) → Reading {S = S} (int_at k n d)
  int_at-Reading k n d = at (get k d)
    where
      at :
          (o : Option (Value F))
          → Reading {S = S} {A = ℤ} (elim o [ none ↦ pure n | some v ↦ int_or_raise (vo.to_int v) ])
      at none = pure-Reading n
      at (some v) = int_or_raise-Reading (vo.to_int v)

  pub float_of-Reading : (v : Value F) → Reading {S = S} (float_of v)
  float_of-Reading v = at (vo.to_float v)
    where
      at :
          (o : Option F)
          → Reading {S = S} {A = F}
              (elim o [ none ↦ fail (exception "ValueError") | some x ↦ pure x ])
      at none = fail-Reading _
      at (some x) = pure-Reading x

  pub float_at-Reading : (k : String) (x : F) (d : Fields F) → Reading {S = S} (float_at k x d)
  float_at-Reading k x d = at (get k d)
    where
      at :
          (o : Option (Value F))
          → Reading {S = S} {A = F} (elim o [ none ↦ pure x | some v ↦ float_of v ])
      at none = pure-Reading x
      at (some v) = float_of-Reading v

module _ {S F : Type 0} ⦃fl : FloatOps F⦄ ⦃vo : ValueOps F⦄ where
  pub environment_policy-Reading :
      (trust_store : Fields F) (environment : String)
      → Reading {S = S} (environment_policy trust_store environment)
  unfolding environment_policy
  environment_policy-Reading trust_store environment =
      bind-Reading (int_at-Reading "min_signatures" (pos 1) policy) λ m.
        bind-Reading (int_at-Reading "min_signatures" (pos (at_least_one m)) env_config) λ n.
          bind-Reading (float_at-Reading "canary_min_soak_seconds" (fl.of_int (pos 0)) env_config)
            λ x.
              bind-Reading (float_at-Reading "canary_max_error_rate" (fl.lit 1 0) env_config) λ y.
                bind-Reading (int_at-Reading "canary_approval_min_approvers" (pos 1) env_config)
                  λ k. pure-Reading _
    where
      policy : Fields F
      policy = obj_at "policy" trust_store

      env_config : Fields F
      env_config = obj_at environment (obj_at "environments" policy)

module _ {S F K : Type 0} ⦃tx : TextOps⦄ ⦃vo : ValueOps F⦄ (out : UpdaterOutside F K) where
  count_verdict-Reading :
      (kids : List String) (kid : String) (v : Verdict)
      → Reading {S = S} (count_verdict out kids kid v)
  count_verdict-Reading kids kid valid = pure-Reading _
  count_verdict-Reading kids kid Verdict.invalid = pure-Reading _
  count_verdict-Reading kids kid (Verdict.other e) = fail-Reading _

  count_check-Reading :
      (canonical : String) (kids : List String) (o : Option SignatureCheck)
      → Reading {S = S} (count_check out canonical kids o)
  count_check-Reading canonical kids none = pure-Reading _
  count_check-Reading canonical kids (some c) =
      if-Reading (contains kids c.kid) (pure-Reading _) (count_verdict-Reading kids c.kid _)

  count_signatures-Reading :
      (keys : Fields F) (canonical : String) (kids : List String) (signatures : List (Fields F))
      → Reading {S = S} (count_signatures out keys canonical kids signatures)
  unfolding count_signatures
  count_signatures-Reading keys canonical kids [] = pure-Reading _
  count_signatures-Reading keys canonical kids (signature ∷ signatures) =
      bind-Reading (count_check-Reading canonical kids (signature_check keys signature))
        λ ks. count_signatures-Reading keys canonical ks signatures

  keys_or_raise-Reading : (o : Option (Value F)) → Reading {S = S} (keys_or_raise o)
  keys_or_raise-Reading none = pure-Reading _
  keys_or_raise-Reading (some (obj d)) = pure-Reading d
  keys_or_raise-Reading (some null) = fail-Reading _
  keys_or_raise-Reading (some (bool b)) = fail-Reading _
  keys_or_raise-Reading (some (int n)) = fail-Reading _
  keys_or_raise-Reading (some (float x)) = fail-Reading _
  keys_or_raise-Reading (some (str t)) = fail-Reading _
  keys_or_raise-Reading (some (arr vs)) = fail-Reading _

  pub verify_signatures-Reading :
      (metadata payload : Fields F) (signatures : List (Fields F)) (trust_store : Fields F) (n : ℕ)
      → Reading {S = S} (verify_signatures out metadata payload signatures trust_store n)
  unfolding verify_signatures
  verify_signatures-Reading metadata payload signatures trust_store n =
      bind-Reading (keys_or_raise-Reading (get "keys" trust_store)) λ keys.
        bind-Reading (count_signatures-Reading keys (signed_content metadata payload) [] signatures)
          λ kids. raise_if-Reading _ _
