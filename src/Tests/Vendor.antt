-- ===== src/Tests/Vendor.antt =====
-- A vendor with a key and a pin, and a transport that is sent an acknowledgement with a nonce.
use autonomous_vehicle_llm.Base.{
  ℕ, true, false, ◌≡◌, refl, ◌≢◌, none, List, [], ◌∷◌, string_eq, ok, arith,
}
use autonomous_vehicle_llm.Base.Int.{pos}
use autonomous_vehicle_llm.Float.Hundredths.{Hundredths, hundredths_ops}
use autonomous_vehicle_llm.Json.{Fields, str, int, obj, end, field}
use autonomous_vehicle_llm.Models.{TransportConfig}
use autonomous_vehicle_llm.Ledger.{
  CommandLedger, new_ledger, is_duplicate_idempotency_key, mark_idempotency_key,
}
use autonomous_vehicle_llm.Ledger.Laws.{HasUniqueKeys, is_duplicate-mark}
use autonomous_vehicle_llm.Keyring.{KeyDescriptor, get_key_descriptor, revoke_vendor_key}
use autonomous_vehicle_llm.Keyring.Entry.{HoldsNoText}
use autonomous_vehicle_llm.Keyring.Laws.{
  Change, rotate, after, get_key_descriptor-revoke_vendor_key,
}
use autonomous_vehicle_llm.CertPins.{assert_vendor_fingerprint_allowed, revoke_vendor_pin}
use autonomous_vehicle_llm.CertPins.Revoked.{PinCall, after_calls, assert-revoke_vendor_pin}
use autonomous_vehicle_llm.CertPins.Revoked
use autonomous_vehicle_llm.Transport.{TransportBase, Outside, HttpReply, MqttReply, Verdict}
use autonomous_vehicle_llm.Transport.Outcomes.{validate_ack, record_ack_verification_result}
use autonomous_vehicle_llm.Transport.Replay.{HasNonce, Send, after_sends, validate_ack-replay}
use autonomous_vehicle_llm.Transport.Replay
use autonomous_vehicle_llm.Tests.Texts.{sample_texts, sample_values}

abbrev number : ℕ → Hundredths
number n = hundredths_ops.lit n 0

abbrev ledger : CommandLedger Hundredths
ledger = new_ledger

is_duplicate-mark_example :
    ((is_duplicate_idempotency_key
        (number 20)
        "k"
        (mark_idempotency_key (number 5) "k" (number 30) ledger)).0
      ≡ true)
    × HasUniqueKeys (mark_idempotency_key (number 5) "k" (number 30) ledger).idempotency_keys
is_duplicate-mark_example = is_duplicate-mark (number 5) (number 20) (number 30) "k" "k" ledger tt

abbrev empty : Fields Hundredths
empty = end

empty-HoldsNoText : HoldsNoText empty "acme"
empty-HoldsNoText = record { at = λ vendors vendor e. absurd (ground (arith, e)) }

abbrev renewals : List Change
renewals = rotate "acme" "k1" "ed25519" "AAAA" ∷ []

abbrev sample_key : KeyDescriptor
sample_key = record { algorithm = "ed25519"; public_key_b64 = "AAAA" }

get_key_descriptor-revoke_vendor_key_example :
    (get_key_descriptor
      (after renewals (revoke_vendor_key "acme" "k1" empty).1)
      "acme"
      "k1"
      (tt {0})).0
    ≢ ok sample_key
unfolding revoke_vendor_key
get_key_descriptor-revoke_vendor_key_example =
    get_key_descriptor-revoke_vendor_key empty "acme" "k1" renewals tt sample_key empty-HoldsNoText
      refl

abbrev pin_calls : List (PinCall Hundredths)
pin_calls = Revoked.rotate "acme" "f1" ∷ Revoked.rollback "acme" ∷ []

assert-revoke_vendor_pin_example :
    (assert_vendor_fingerprint_allowed
      (number 1)
      (number 1)
      "acme"
      "f1"
      (after_calls pin_calls (revoke_vendor_pin "acme" "f1" empty).1)).0
    ≢ ok tt
unfolding revoke_vendor_pin
assert-revoke_vendor_pin_example =
    assert-revoke_vendor_pin (number 1) (number 1) empty "acme" "f1" pin_calls empty-HoldsNoText
      refl

abbrev config : TransportConfig Hundredths
config = record {
  endpoint_url = "https://vendor/";
  timeout_s = number 1;
  auth = record { static_token = none; rotating_tokens = []; rotate_every_requests = pos 1 };
  tls = record {
    enabled = false;
    verify_peer = true;
    ca_cert_path = none;
    client_cert_path = none;
    client_key_path = none;
  };
  ack = record {
    required = true;
    command_id_field = "command_id";
    ack_id_field = "command_id";
    require_nonce = true;
    nonce_field = "nonce";
    nonce_window = pos 100;
    require_signature = false;
    signature_field = "signature";
    signature_algorithm = "ed25519";
    signature_encoding = "base64";
    key_id_field = "key_id";
    vendor_field = "vendor_id";
    keyring_path = "keyring.json";
  };
  cert_attestation = record {
    required = false;
    fingerprint_field = "fp";
    pinset_path = "pins.json";
  };
  rollout_policy = record {
    auto_rollback_enabled = true;
    error_window_size = pos 10;
    error_rate_threshold = hundredths_ops.lit 5 1;
    min_samples = pos 3;
    rollback_cooldown_s = number 60;
  };
  idempotency = record { enabled = true; key_ttl_s = number 60; store_path = "ledger.db" };
  retry = record { max_attempts = pos 2; backoff_s = number 1 };
}

abbrev outside : Outside Hundredths
outside = record {
  clock = λ n. number n;
  uuid4 = λ n. "c1";
  sha256 = λ s. s;
  http = λ n request. HttpReply.network_error "refused";
  mqtt = λ n request. MqttReply.timed_out;
  verify = λ signature key signed. Verdict.valid;
  ssl_error = none;
}

abbrev fresh : TransportBase Hundredths
fresh = record {
  tick = 0;
  request_counter = 0;
  ledger = new_ledger;
  keyring = end;
  cert_pins = end;
  ack_outcomes = [];
  last_rollback_ts_by_vendor = [];
  sent = [];
  slept = [];
}

abbrev ack : Fields Hundredths
ack =
    field "command_id" (str "c1") (field "nonce" (int (pos 7)) (field "vendor_id" (str "acme") end))

ack-HasNonce : HasNonce config ack (pos 7)
ack-HasNonce = record {
  raw = int (pos 7);
  asked = refl;
  require_nonce = refl;
  there = refl;
  reads = refl;
}

abbrev sends : List (Send Hundredths)
sends = Replay.http outside config "ugv-1" end ∷ []

validate_ack-replay_example :
    (validate_ack outside config "ugv-1"
      (obj ack)
      "c1"
      (after_sends sends (validate_ack outside config "ugv-1" (obj ack) "c1" fresh).1)).0
    ≢ ok tt
unfolding validate_ack record_ack_verification_result
validate_ack-replay_example =
    validate_ack-replay outside config "ugv-1" "c1" "c1" ack ack (pos 7) (pos 7) sends fresh
      ack-HasNonce ack-HasNonce (omega arith) refl
