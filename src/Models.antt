-- ===== src/Models.antt =====
-- The data that the parts exchange (src/autonomy/models.py): actions, plans, the vehicle's state
-- and the configuration records. `F` is the type of the floats.
use autonomous_vehicle_llm.Base.{
  ℕ, String, Bool, true, ◌≡◌, ◌↔◌, Option, none, List, ◌==◌, Eq, nat_eq, arith,
}
use autonomous_vehicle_llm.Base.Int.{ℤ}
use autonomous_vehicle_llm.Float.{FloatOps}

pub data ActionType : Type 0 where
  arm : ActionType
  move_to : ActionType
  hold : ActionType
  return_to_home : ActionType
  disarm : ActionType

abbrev index : ActionType → ℕ
index arm = 0
index move_to = 1
index hold = 2
index return_to_home = 3
index disarm = 4

abbrev type_beq : ActionType → ActionType → Bool
type_beq a b = index a == index b

pub type_beq_iff : (a b : ActionType) → (type_beq a b ≡ true) ↔ (a ≡ b)
type_beq_iff a b = ground arith

instance abbrev pub type_eq : Eq ActionType
type_eq = record { beq = type_beq; beq_iff = type_beq_iff }

-- `ActionType.value`
abbrev pub value : ActionType → String
value arm = "arm"
value move_to = "move_to"
value hold = "hold"
value return_to_home = "return_to_home"
value disarm = "disarm"

pub data VehicleDomain : Type 0 where
  ground_domain : VehicleDomain
  aerial : VehicleDomain
  marine : VehicleDomain

pub record Action (F : Type 0) : Type 0 where
  pub type : ActionType
  pub x : Option F
  pub y : Option F
  pub speed_mps : Option F

-- `Action(type=t)`
abbrev pub bare : {F : Type 0} → ActionType → Action F
bare t = record { type = t; x = none; y = none; speed_mps = none }

pub record MissionPlan (F : Type 0) : Type 0 where
  pub goal : String
  pub vehicle_id : String
  pub actions : List (Action F)

pub record VehicleState (F : Type 0) : Type 0 where
  pub vehicle_id : String
  pub x : F
  pub y : F
  pub battery_pct : F
  pub armed : Bool
  pub connected : Bool
  pub home_x : F
  pub home_y : F
  pub heading_rad : F
  pub vx_mps : F
  pub vy_mps : F
  pub position_std_m : F
  pub sensor_age_s : F
  pub nearest_obstacle_distance_m : Option F

pub record PolicyConfig (F : Type 0) : Type 0 where
  pub max_speed_mps : F
  pub min_battery_for_motion_pct : F
  pub geofence_abs_xy_limit_m : F
  pub min_obstacle_standoff_m : F
  pub max_localization_std_m : F
  pub max_sensor_staleness_s : F
  pub control_tick_hz : F

-- The dataclass defaults, `PolicyConfig()`.
abbrev pub default_policy : {F : Type 0} ⦃fl : FloatOps F⦄ → PolicyConfig F
default_policy ⦃fl⦄ = record {
  max_speed_mps = fl.lit 80 1;
  min_battery_for_motion_pct = fl.lit 250 1;
  geofence_abs_xy_limit_m = fl.lit 1000 1;
  min_obstacle_standoff_m = fl.lit 20 1;
  max_localization_std_m = fl.lit 50 1;
  max_sensor_staleness_s = fl.lit 10 1;
  control_tick_hz = fl.lit 50 1;
}

pub record CapabilityProfile (F : Type 0) : Type 0 where
  pub domain : VehicleDomain
  pub max_speed_mps : F
  pub supports_return_to_home : Bool

pub record RetryPolicy (F : Type 0) : Type 0 where
  pub max_attempts : ℤ
  pub backoff_s : F

pub record TlsConfig : Type 0 where
  pub enabled : Bool
  pub verify_peer : Bool
  pub ca_cert_path : Option String
  pub client_cert_path : Option String
  pub client_key_path : Option String

pub record AuthRotationConfig : Type 0 where
  pub static_token : Option String
  pub rotating_tokens : List String
  pub rotate_every_requests : ℤ

pub record AckConfig : Type 0 where
  pub required : Bool
  pub command_id_field : String
  pub ack_id_field : String
  pub require_nonce : Bool
  pub nonce_field : String
  pub nonce_window : ℤ
  pub require_signature : Bool
  pub signature_field : String
  pub signature_algorithm : String
  pub signature_encoding : String
  pub key_id_field : String
  pub vendor_field : String
  pub keyring_path : String

pub record CertAttestationConfig : Type 0 where
  pub required : Bool
  pub fingerprint_field : String
  pub pinset_path : String

pub record RolloutPolicyConfig (F : Type 0) : Type 0 where
  pub auto_rollback_enabled : Bool
  pub error_window_size : ℤ
  pub error_rate_threshold : F
  pub min_samples : ℤ
  pub rollback_cooldown_s : F

pub record IdempotencyConfig (F : Type 0) : Type 0 where
  pub enabled : Bool
  pub key_ttl_s : F
  pub store_path : String

pub record TransportConfig (F : Type 0) : Type 0 where
  pub endpoint_url : String
  pub timeout_s : F
  pub auth : AuthRotationConfig
  pub tls : TlsConfig
  pub ack : AckConfig
  pub cert_attestation : CertAttestationConfig
  pub rollout_policy : RolloutPolicyConfig F
  pub idempotency : IdempotencyConfig F
  pub retry : RetryPolicy F
