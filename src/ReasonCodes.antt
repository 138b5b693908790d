-- ===== src/ReasonCodes.antt =====
-- The codes of the reasons for which an action is blocked (src/autonomy/reason_codes.py).
pub mod Slug
use Prim.Native.Char.{Char, code}
use text.Mathlib.Text.{starts_with}
use autonomous_vehicle_llm.Base.{
  String, Bool, true, false, List, [], ◌∷◌, ◌++◌, ◌==◌, nat_eq, string_eq, if◌then◌else◌, Dict,
  lookup, or_default,
}
use autonomous_vehicle_llm.Text.{TextOps, chars, of_chars}

-- `_REASON_MAP`
abbrev pub reason_map : Dict String
reason_map =
    ("vehicle disconnected", "vehicle_disconnected")
    ∷ ("localization uncertainty above threshold", "localization_uncertainty_high")
    ∷ ("sensor data stale", "sensor_data_stale")
    ∷ ("speed exceeds policy", "speed_exceeds_policy")
    ∷ ("battery below motion threshold", "battery_below_motion_threshold")
    ∷ ("obstacle standoff violated", "obstacle_standoff_violated")
    ∷ ("missing move target", "missing_move_target")
    ∷ ("target x out of geofence", "target_x_out_of_geofence")
    ∷ ("target y out of geofence", "target_y_out_of_geofence")
    ∷ ("cannot disarm away from home", "cannot_disarm_away_from_home")
    ∷ ("localization_stale", "localization_stale")
    ∷ ("subsystem_failure", "subsystem_failure")
    ∷ ("adapter_speed_limit", "adapter_speed_limit")
    ∷ ("adapter_capability_unsupported", "adapter_capability_unsupported")
    ∷ ("transport_failure", "transport_failure")
    ∷ ("unknown", "unknown_policy_violation")
    ∷ []

abbrev pub is_underscore : Char → Bool
is_underscore c = code c == b'_'

-- `s.strip("_")`, from the left and from the right
unfoldable pub strip_left : List Char → List Char
strip_left [] = []
strip_left (c ∷ cs) = if is_underscore c then strip_left cs else c ∷ cs

abbrev keep_unless_last : Char → List Char → List Char
keep_unless_last c [] = if is_underscore c then [] else c ∷ []
keep_unless_last c (d ∷ cs) = c ∷ d ∷ cs

unfoldable pub strip_right : List Char → List Char
strip_right [] = []
strip_right (c ∷ cs) = keep_unless_last c (strip_right cs)

module _ ⦃t : TextOps⦄ where
  -- The loop of `_slugify_reason`; the flag is `previous_underscore`.
  unfoldable pub slug_loop : Bool → List Char → List Char
  slug_loop previous_underscore [] = []
  slug_loop previous_underscore (c ∷ cs) = elim (t.is_alnum c) [
    | true ↦ t.lower_char c ++ slug_loop false cs
    | false ↦ elim previous_underscore [
      | true ↦ slug_loop true cs
      | false ↦ "_" ∷ slug_loop true cs
    ]
  ]

  abbrev unless_empty : List Char → String
  unless_empty [] = "unknown_policy_violation"
  unless_empty (c ∷ cs) = of_chars (c ∷ cs)

  unfoldable pub slugify_reason : String → String
  unfolding slug_loop strip_left strip_right
  slugify_reason reason = unless_empty (strip_right (strip_left (slug_loop false (chars reason))))

  unfoldable pub to_policy_reason_code : String → String
  to_policy_reason_code reason =
      let normalized = t.lower (t.strip reason) in
      or_default (lookup normalized reason_map) (slugify_reason normalized)

  -- `event.split(":", 1)[1]` of a text with a colon
  abbrev after_colon : List Char → List Char
  after_colon [] = []
  after_colon (c ∷ cs) = if code c == b':' then cs else after_colon cs

  unfoldable pub extract_policy_reason_codes : List String → List String
  extract_policy_reason_codes [] = []
  extract_policy_reason_codes (event ∷ events) =
      let rest = extract_policy_reason_codes events in
      if starts_with event "policy_block:"
      then to_policy_reason_code (of_chars (after_colon (chars event))) ∷ rest
      else rest
