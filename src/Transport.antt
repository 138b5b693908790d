-- ===== src/Transport.antt =====
-- The state of a command transport (src/autonomy/transport.py), its tokens, its envelopes, the
-- duplicate check and the log. What the transport calls outside, the clock, uuid4, SHA-256, the
-- network and the signature library, is a parameter; a counter in the state numbers those calls.
pub mod Acks
pub mod Outcomes
pub mod Send
pub mod Nonces
pub mod Replies
pub mod Sends
pub mod Replay
use autonomous_vehicle_llm.Base.{
  ℕ, ◌+◌, ◌/◌, ◌%◌, zero, suc, String, ◌<>◌, Bool, true, false, Option, none, some, List, [], ◌∷◌,
  ◌++◌, Dict, keep, length, get_elem?, if◌then◌else◌, Exc, Result, ok, raise, Call, ◌>>=◌, ◌>>◌,
  pure, modify, get_state,
}
use autonomous_vehicle_llm.Base.Int.{ℤ, at_least_one}
use autonomous_vehicle_llm.Float.{FloatOps}
use autonomous_vehicle_llm.Text.{is_nonempty}
use autonomous_vehicle_llm.Json.{Fields, Value, str, put}
use autonomous_vehicle_llm.Values.{ValueOps}
use autonomous_vehicle_llm.Models.{TransportConfig, AuthRotationConfig}
use autonomous_vehicle_llm.Ledger.{
  CommandLedger, CommandEvent, is_duplicate_idempotency_key, mark_idempotency_key,
  append_command_event,
}

pub record CommandEnvelope (F : Type 0) : Type 0 where
  pub vehicle_id : String
  pub command_id : String
  pub idempotency_key : String
  pub payload : Fields F

-- What goes out for one attempt: the path or topic, the token and the envelope.
pub record Request (F : Type 0) : Type 0 where
  pub path : String
  pub token : Option String
  pub envelope : CommandEnvelope F

-- What `urlopen` and reading the response do: a status with the decoded body, where decoding may
-- raise; an `HTTPError`, `URLError` or `TimeoutError`; another exception.
pub data HttpReply : Type 0 where
  answered : ℕ → Option String → HttpReply
  network_error : String → HttpReply
  other_error : String → HttpReply

-- What `publish` and then `wait_for_ack` do.
pub data MqttReply (F : Type 0) : Type 0 where
  acked : Fields F → MqttReply F
  timed_out : MqttReply F
  failing : Exc → MqttReply F

-- What decoding the two texts and verifying the signature does; `invalid` is a `ValueError` or an
-- `InvalidSignature`.
pub data Verdict : Type 0 where
  valid : Verdict
  invalid : Verdict
  other : String → Verdict

pub record Outside (F : Type 0) : Type 0 where
  pub clock : ℕ → F
  pub uuid4 : ℕ → String
  pub sha256 : String → String
  pub http : ℕ → Request F → HttpReply
  pub mqtt : ℕ → Request F → MqttReply F
  -- signature, public key, signed text
  pub verify : String → String → String → Verdict
  -- what `_build_ssl_context` raises, if it does
  pub ssl_error : Option Exc

pub record TransportBase (F : Type 0) : Type 0 where
  pub tick : ℕ
  pub request_counter : ℕ
  pub ledger : CommandLedger F
  pub keyring : Fields F
  pub cert_pins : Fields F
  pub ack_outcomes : List Bool
  pub last_rollback_ts_by_vendor : Dict F
  -- what has gone out, and how long the transport has slept, in order
  pub sent : List (Request F)
  pub slept : List F

abbrev rotating : AuthRotationConfig → List String
rotating auth = keep is_nonempty auth.rotating_tokens

-- `if self.static_token` and `if not self.rotating_tokens`
abbrev static_or : Option String → Option String
static_or none = none
static_or (some token) = if is_nonempty token then some token else none

abbrev rotated : AuthRotationConfig → ℕ → List String → Option String × ℕ
rotated auth n [] = (none, n)
rotated auth n (token ∷ tokens) = (
  get_elem? (token ∷ tokens) ((n / at_least_one auth.rotate_every_requests) % suc (length tokens)),
  n + 1,
)

-- `next_token`, on the request counter
unfoldable pub next_token : AuthRotationConfig → ℕ → Option String × ℕ
next_token auth n = elim (static_or auth.static_token) [
  | some token ↦ (some token, n)
  | none ↦ rotated auth n (rotating auth)
]

module _ {F : Type 0} where
  -- The number of the next call outside, which it uses up.
  abbrev pub next_tick : Call (TransportBase F) ℕ
  next_tick s = (ok s.tick, record s { tick = s.tick + 1 })

  abbrev pub take_token : AuthRotationConfig → Call (TransportBase F) (Option String)
  take_token auth s =
      let (token, n) = next_token auth s.request_counter in
      (ok token, record s { request_counter = n })

module _ {F : Type 0} ⦃vo : ValueOps F⦄ (out : Outside F) (config : TransportConfig F) where
  abbrev envelope_of : String → Fields F → String → CommandEnvelope F
  envelope_of vehicle_id payload command_id = record {
    vehicle_id = vehicle_id;
    command_id = command_id;
    idempotency_key = out.sha256 (vehicle_id <> ":" <> vo.dumps payload);
    payload = put config.ack.command_id_field (str command_id) payload;
  }

  abbrev pub build_envelope : String → Fields F → Call (TransportBase F) (CommandEnvelope F)
  build_envelope vehicle_id payload =
      next_tick >>= λ tick. pure (envelope_of vehicle_id payload (out.uuid4 tick))

module _ {F : Type 0} ⦃fl : FloatOps F⦄ (out : Outside F) (config : TransportConfig F) where
  abbrev pub ask_ledger : String → F → Call (TransportBase F) Bool
  ask_ledger key now s =
      let (duplicate, ledger) = is_duplicate_idempotency_key now key s.ledger in
      (ok duplicate, record s { ledger = ledger })

  abbrev pub is_duplicate : String → Call (TransportBase F) Bool
  is_duplicate key =
      if config.idempotency.enabled
      then next_tick >>= (λ tick. ask_ledger key (out.clock tick))
      else pure false

  abbrev pub mark_at : String → F → TransportBase F → TransportBase F
  mark_at key now s = record s {
    ledger = mark_idempotency_key now key config.idempotency.key_ttl_s s.ledger;
  }

  abbrev pub mark_seen : String → Call (TransportBase F) (Unit {0})
  mark_seen key =
      if config.idempotency.enabled
      then next_tick >>= (λ tick. modify (mark_at key (out.clock tick)))
      else pure tt

module _ {F : Type 0} (out : Outside F) where
  abbrev pub log_at :
      String → String → String → String → Option String → F → TransportBase F → TransportBase F
  log_at vehicle_id command_id idempotency_key status detail now s = record s {
    ledger =
        append_command_event
          (record {
            ts = now;
            vehicle_id = vehicle_id;
            command_id = command_id;
            idempotency_key = idempotency_key;
            status = status;
            detail = detail;
          })
          s.ledger;
  }

  abbrev pub log_event :
      String → String → String → String → Option String → Call (TransportBase F) (Unit {0})
  log_event vehicle_id command_id idempotency_key status detail = next_tick >>= λ tick.
      modify (log_at vehicle_id command_id idempotency_key status detail (out.clock tick))
