-- ===== src/BundleUpdater/Quorum.antt =====
-- The policy of an environment and the quorum of signatures
-- (src/autonomy/bundle_updater.py).
use autonomous_vehicle_llm.Base.{
  ℕ, String, Bool, false, Option, none, some, List, [], ◌∷◌, ◌++◌, length, contains, ltb, ◌==◌,
  string_eq, if◌then◌else◌, adapter_execution_error, exception, Call, ◌>>=◌, pure, fail, raise_if,
}
use autonomous_vehicle_llm.Base.Int.{pos, at_least_one}
use autonomous_vehicle_llm.Float.{FloatOps}
use autonomous_vehicle_llm.Text.{TextOps}
use autonomous_vehicle_llm.Json.{
  Value, Fields, Items, arr, obj, nil, cons, end, field, get, as_obj, as_str,
}
use autonomous_vehicle_llm.Values.{ValueOps, text_at, int_at, float_at, bool_at}
use autonomous_vehicle_llm.Transport.{Verdict, valid, invalid, other}
use autonomous_vehicle_llm.BundleUpdater.{UpdaterOutside, obj_at}

pub record EnvPolicy (F : Type 0) : Type 0 where
  pub min_signatures : ℕ
  pub require_canary_approval : Bool
  pub canary_min_soak_seconds : F
  pub canary_max_error_rate : F
  pub canary_approval_min_approvers : ℕ

module _ {F : Type 0} ⦃fl : FloatOps F⦄ ⦃vo : ValueOps F⦄ where
  abbrev policy_of : {S : Type 0} → ℕ → Fields F → Call S (EnvPolicy F)
  policy_of default_min env_config =
      int_at "min_signatures" (pos default_min) env_config >>= λ minimum.
      float_at "canary_min_soak_seconds" (fl.of_int (pos 0)) env_config >>= λ soak.
      float_at "canary_max_error_rate" (fl.lit 1 0) env_config >>= λ error_rate.
      int_at "canary_approval_min_approvers" (pos 1) env_config >>= λ approvers. pure record {
        min_signatures = at_least_one minimum;
        require_canary_approval = bool_at "require_canary_approval" false env_config;
        canary_min_soak_seconds = soak;
        canary_max_error_rate = error_rate;
        canary_approval_min_approvers = at_least_one approvers;
      }

  unfoldable pub environment_policy : {S : Type 0} → Fields F → String → Call S (EnvPolicy F)
  environment_policy trust_store environment =
      let policy = obj_at "policy" trust_store in
      int_at "min_signatures" (pos 1) policy >>= λ minimum.
      policy_of (at_least_one minimum) (obj_at environment (obj_at "environments" policy))

module _ {F : Type 0} where
  -- `[entry for entry in vs if isinstance(entry, dict)]`
  abbrev pub dicts : Items F → List (Fields F)
  dicts nil = []
  dicts (cons (obj d) vs) = d ∷ dicts vs
  dicts (cons v vs) = dicts vs

  abbrev single_signature : Option (Fields F) → List (Fields F)
  single_signature none = []
  single_signature (some d) = d ∷ []

  unfoldable pub extract_signatures : Fields F → List (Fields F)
  extract_signatures bundle = elim (get "signatures" bundle) [
    | some (arr vs) ↦ dicts vs
    | _ ↦ single_signature (as_obj (get "signature" bundle))
  ]

pub record SignatureCheck : Type 0 where
  pub kid : String
  pub public_key_b64 : String
  pub sig_value : String

abbrev check_with : String → String → Option String → Option SignatureCheck
check_with kid sig_value none = none
check_with kid sig_value (some key) =
    some (record { kid = kid; public_key_b64 = key; sig_value = sig_value })

abbrev pub require_quorum : {S : Type 0} → ℕ → List String → Call S (Unit {0})
require_quorum min_signatures kids =
    raise_if (ltb (length kids) min_signatures)
      (adapter_execution_error "bundle signature quorum not satisfied")

module _ {F : Type 0} where
  abbrev pub keys_or_raise : {S : Type 0} → Option (Value F) → Call S (Fields F)
  keys_or_raise none = pure end
  keys_or_raise (some (obj keys)) = pure keys
  keys_or_raise (some v) = fail (adapter_execution_error "invalid trust store format")

module _ {F : Type 0} ⦃tx : TextOps⦄ ⦃vo : ValueOps F⦄ where
  abbrev is_ed25519 : Fields F → Bool
  is_ed25519 d = tx.lower (text_at "algorithm" d) == "ed25519"

  abbrev key_of_descriptor : Option (Fields F) → Option String
  key_of_descriptor none = none
  key_of_descriptor (some descriptor) =
      if is_ed25519 descriptor then as_str (get "public_key_b64" descriptor) else none

  abbrev signed_by : Fields F → Option String → Option String → Option SignatureCheck
  signed_by keys (some kid) (some sig_value) =
      check_with kid sig_value (key_of_descriptor (as_obj (get kid keys)))
  signed_by keys kid sig_value = none

  -- What a signature is checked with, where the code goes on to check it.
  unfoldable pub signature_check : Fields F → Fields F → Option SignatureCheck
  signature_check keys signature =
      if is_ed25519 signature
      then signed_by keys (as_str (get "kid" signature)) (as_str (get "value" signature))
      else none

  abbrev pub signed_content : Fields F → Fields F → String
  signed_content metadata payload =
      vo.dumps (field "metadata" (obj metadata) (field "payload" (obj payload) end))

  module _ {K : Type 0} (out : UpdaterOutside F K) where
    abbrev pub count_verdict : {S : Type 0} → List String → String → Verdict → Call S (List String)
    count_verdict verified_kids kid valid = pure (verified_kids ++ (kid ∷ []))
    count_verdict verified_kids kid invalid = pure verified_kids
    count_verdict verified_kids kid (other e) = fail (exception e)

    abbrev pub count_check :
        {S : Type 0} → String → List String → Option SignatureCheck → Call S (List String)
    count_check canonical verified_kids none = pure verified_kids
    count_check canonical verified_kids (some c) =
        if contains verified_kids c.kid
        then pure verified_kids
        else count_verdict verified_kids c.kid (out.verify c.public_key_b64 c.sig_value canonical)

    -- The loop over the signatures.
    unfoldable pub count_signatures :
        {S : Type 0} → Fields F → String → List String → List (Fields F) → Call S (List String)
    count_signatures keys canonical verified_kids [] = pure verified_kids
    count_signatures keys canonical verified_kids (signature ∷ signatures) =
        count_check canonical verified_kids (signature_check keys signature) >>= λ kids.
        count_signatures keys canonical kids signatures

    unfoldable pub verify_signatures :
        {S : Type 0} → Fields F → Fields F → List (Fields F) → Fields F → ℕ → Call S (Unit {0})
    verify_signatures metadata payload signatures trust_store min_signatures =
        keys_or_raise (get "keys" trust_store) >>= λ keys.
        count_signatures keys (signed_content metadata payload) [] signatures
        >>= require_quorum min_signatures
