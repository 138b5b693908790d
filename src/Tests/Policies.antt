-- ===== src/Tests/Policies.antt =====
-- A policy that is written and loaded again, and a rollout policy in a file of its own.
use autonomous_vehicle_llm.Base.{◌≡◌, refl, ok, if◌then◌else◌, ◌==◌, string_eq}
use autonomous_vehicle_llm.Base.Int.{negsuc}
use autonomous_vehicle_llm.Base.Post.{Post}
use autonomous_vehicle_llm.Float.Hundredths.{Hundredths, hundredths_ops}
use autonomous_vehicle_llm.Json.{Fields, int, str, obj, end, field}
use autonomous_vehicle_llm.Models.{default_policy}
use autonomous_vehicle_llm.Policy.{PolicyFiles, load_policy_config, load_rollout_policy}
use autonomous_vehicle_llm.Policy.Loading.{
  policy_fields, HasWindows, load_policy_config-policy_fields, load_rollout_policy-HasWindows,
}
use autonomous_vehicle_llm.Tests.Texts.{sample_texts, sample_values}

-- The window is below 1.
abbrev rollout_file : Fields Hundredths
rollout_file = field "error_window_size" (int (negsuc 4)) end

abbrev files : PolicyFiles Hundredths (Unit {0})
files = record {
  read_json = λ path s.
      (ok (obj (if path == "rollout.json" then rollout_file else policy_fields default_policy)), s);
  exists = λ path s. (ok (path == "rollout.json"), s);
}

abbrev transport_fields : Fields Hundredths
transport_fields =
    field "rollout_policy" (obj (field "rollout_policy_path" (str "rollout.json") end)) end

load_policy_config-policy_fields_example :
    load_policy_config files "policy.json" tt ≡ (ok default_policy, tt)
load_policy_config-policy_fields_example =
    load_policy_config-policy_fields files (λ x. refl) default_policy "policy.json" tt tt refl

load_rollout_policy-HasWindows_example :
    Post (λ c t. HasWindows c) (λ e t. Unit) (load_rollout_policy files transport_fields tt)
load_rollout_policy-HasWindows_example = load_rollout_policy-HasWindows files transport_fields tt
