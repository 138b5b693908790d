-- ===== src/Transport/Send.antt =====
-- `send_command` of the two transports (src/autonomy/transport.py). The loop over the attempts is
-- on the number of attempts that are left.
use autonomous_vehicle_llm.Base.{
  ℕ, ◌+◌, ◌-◌, ◌^◌, zero, suc, leb, ltb, String, ◌<>◌, Bool, true, false, ◌&&◌, Option, none, some,
  List, [], ◌∷◌, ◌++◌, ◌==◌, nat_eq, if◌then◌else◌, Exc, Call, ◌>>=◌, ◌>>◌, pure, fail, modify,
  raise_if, not, handle, on_adapter_error, adapter_execution_error, exception,
}
use autonomous_vehicle_llm.Base.Int.{pos, pos_part}
use autonomous_vehicle_llm.Float.{FloatOps}
use autonomous_vehicle_llm.Text.{TextOps, chars, of_chars, is_nonempty}
use autonomous_vehicle_llm.Json.{Value, Fields, obj, end}
use autonomous_vehicle_llm.Values.{ValueOps}
use autonomous_vehicle_llm.Models.{TransportConfig}
use autonomous_vehicle_llm.Transport.{
  TransportBase, CommandEnvelope, Request, Outside, HttpReply, MqttReply, next_tick, take_token,
  build_envelope, is_duplicate, mark_seen, log_event,
}
use autonomous_vehicle_llm.Transport.Outcomes.{validate_ack, record_ack_verification_failure}
use Prim.Native.Char.{Char, code}

-- `s.rstrip("/")`
abbrev keep_slashes : Char → List Char → List Char
keep_slashes c [] = if code c == b'/' then [] else c ∷ []
keep_slashes c (d ∷ ds) = c ∷ d ∷ ds

abbrev rstrip_slashes : List Char → List Char
rstrip_slashes [] = []
rstrip_slashes (c ∷ cs) = let rest = rstrip_slashes cs in keep_slashes c rest

-- `s.startswith("fail://")`
abbrev pub is_prefix : List Char → List Char → Bool
is_prefix [] cs = true
is_prefix (c ∷ cs) [] = false
is_prefix (c ∷ cs) (d ∷ ds) = code c == code d && is_prefix cs ds

module _ {F : Type 0} ⦃fl : FloatOps F⦄ ⦃vo : ValueOps F⦄ ⦃tx : TextOps⦄ (out : Outside F)
    (config : TransportConfig F) where
  abbrev pub log_of : CommandEnvelope F → String → Option String → Call (TransportBase F) (Unit {0})
  log_of e status detail = log_event out e.vehicle_id e.command_id e.idempotency_key status detail

  -- An acknowledgement that is refused is noted as a failure, and refused all the same.
  abbrev pub note_refusal : Value F → String → Call (TransportBase F) (Unit {0})
  note_refusal data_ message =
      record_ack_verification_failure out config data_ message
      >> fail (adapter_execution_error message)

  abbrev pub accept_ack : CommandEnvelope F → Value F → Call (TransportBase F) (Unit {0})
  accept_ack e data_ =
      handle (validate_ack out config e.vehicle_id data_ e.command_id) (λ done. pure tt)
        (on_adapter_error (note_refusal data_))
      >> (mark_seen out config e.idempotency_key >> log_of e "ack_ok" none)

  abbrev pub log_sent : Request F → TransportBase F → TransportBase F
  log_sent request s = record s { sent = s.sent ++ (request ∷ []) }

  -- `raw_body.strip()`, then `json.loads`
  abbrev pub parse_body : String → Call (TransportBase F) (Value F)
  parse_body raw_body =
      if is_nonempty (tx.strip raw_body)
      then elim (vo.loads raw_body) [ none ↦ fail (exception "JSONDecodeError") | some v ↦ pure v ]
      else pure (obj end)

  abbrev pub parse_reply : Option String → Call (TransportBase F) (Value F)
  parse_reply none = fail (exception "UnicodeDecodeError")
  parse_reply (some raw_body) = parse_body raw_body

  -- The end of an attempt: the text of what the `except` clause of the loop caught, if anything.
  abbrev pub caught : Call (TransportBase F) (Unit {0}) → Call (TransportBase F) (Option String)
  caught m = handle m (λ done. pure none) (on_adapter_error (λ message. pure (some message)))

  abbrev pub read_answer : CommandEnvelope F → ℕ → Option String → Call (TransportBase F) (Unit {0})
  read_answer e status body =
      if leb 200 status && ltb status 300
      then parse_reply body >>= accept_ack e
      else fail (adapter_execution_error ("http status " <> tx.str_of_nat status))

  abbrev pub read_reply : CommandEnvelope F → HttpReply → Call (TransportBase F) (Option String)
  read_reply e (HttpReply.answered status body) = caught (read_answer e status body)
  read_reply e (HttpReply.network_error message) = pure (some message)
  read_reply e (HttpReply.other_error message) = fail (exception message)

  abbrev pub http_path : CommandEnvelope F → String
  http_path e =
      of_chars (rstrip_slashes (chars config.endpoint_url))
      <> "/vehicles/"
      <> e.vehicle_id
      <> "/commands"

  abbrev pub request_of : String → CommandEnvelope F → Option String → Request F
  request_of path e token = record { path = path; token = token; envelope = e }

  abbrev pub http_attempt : CommandEnvelope F → Call (TransportBase F) (Option String)
  http_attempt e = take_token config.auth >>= λ token.
      modify (log_sent (request_of (http_path e) e token))
      >> (next_tick >>= λ tick. read_reply e (out.http tick (request_of (http_path e) e token)))

  abbrev pub read_message : CommandEnvelope F → MqttReply F → Call (TransportBase F) (Unit {0})
  read_message e (MqttReply.acked ack) = accept_ack e (obj ack)
  read_message e MqttReply.timed_out = fail (adapter_execution_error "mqtt ack timeout")
  read_message e (MqttReply.failing exc) = fail exc

  abbrev pub topic_of : CommandEnvelope F → String
  topic_of e = "vehicles/" <> e.vehicle_id <> "/commands"

  abbrev pub publish : CommandEnvelope F → Call (TransportBase F) (Unit {0})
  publish e = take_token config.auth >>= λ token.
      modify (log_sent (request_of (topic_of e) e token))
      >> (next_tick >>= λ tick. read_message e (out.mqtt tick (request_of (topic_of e) e token)))

  abbrev pub mqtt_attempt : CommandEnvelope F → Call (TransportBase F) (Option String)
  mqtt_attempt e =
      if is_prefix (chars "fail://") (chars config.endpoint_url)
      then pure (some "mqtt broker unavailable")
      else caught (publish e)

  abbrev pub log_slept : F → TransportBase F → TransportBase F
  log_slept delay s = record s { slept = s.slept ++ (delay ∷ []) }

  -- The `except` clause: the last attempt raises, the others wait, each twice as long.
  abbrev pub give_up :
      (String → Exc) → CommandEnvelope F → String → Call (TransportBase F) (Unit {0})
  give_up exc e message = log_of e "send_failed" (some message) >> fail (exc message)

  -- `time.sleep` raises for a delay below 0, and for a NaN.
  abbrev pub wait : ℕ → Call (TransportBase F) (Unit {0})
  wait attempt =
      let delay = fl.mul config.retry.backoff_s (fl.of_int (pos (2 ^ (attempt - 1)))) in
      raise_if (not (fl.le (fl.lit 0 0) delay)) (exception "ValueError") >> modify (log_slept delay)

  abbrev pub max_attempts : ℕ
  max_attempts = pos_part config.retry.max_attempts

  abbrev pub go_on :
      (String → Exc)
      → CommandEnvelope F
      → ℕ
      → Call (TransportBase F) (Unit {0})
      → Option String
      → Call (TransportBase F) (Unit {0})
  go_on exc e attempt rest none = pure tt
  go_on exc e attempt rest (some message) =
      if leb max_attempts attempt then give_up exc e message else wait attempt >> rest

  -- The attempts from `attempt` on, of which `left` are left.
  abbrev pub attempts :
      (CommandEnvelope F → Call (TransportBase F) (Option String))
      → (String → Exc)
      → CommandEnvelope F
      → (attempt left : ℕ) → Call (TransportBase F) (Unit {0})
  attempts one exc e attempt zero = pure tt
  attempts one exc e attempt (suc left) =
      let rest = attempts one exc e (attempt + 1) left in one e >>= go_on exc e attempt rest

  abbrev pub build_ssl_context : Call (TransportBase F) (Unit {0})
  build_ssl_context = elim out.ssl_error [ none ↦ pure tt | some exc ↦ fail exc ]

  abbrev pub http_error : String → Exc
  http_error message = adapter_execution_error ("http transport failed: " <> message)

  abbrev pub http_send : CommandEnvelope F → Call (TransportBase F) (Unit {0})
  http_send e = build_ssl_context >> attempts http_attempt http_error e 1 max_attempts

  abbrev pub mqtt_send : CommandEnvelope F → Call (TransportBase F) (Unit {0})
  mqtt_send e = attempts mqtt_attempt adapter_execution_error e 1 max_attempts

  abbrev pub unless_duplicate :
      (CommandEnvelope F → Call (TransportBase F) (Unit {0}))
      → CommandEnvelope F
      → Bool
      → Call (TransportBase F) (Unit {0})
  unless_duplicate send e true = log_of e "duplicate_skip" none
  unless_duplicate send e false = send e

  abbrev pub send_with :
      (CommandEnvelope F → Call (TransportBase F) (Unit {0}))
      → String
      → Fields F
      → Call (TransportBase F) (Unit {0})
  send_with send vehicle_id payload = build_envelope out config vehicle_id payload >>= λ e.
      is_duplicate out config e.idempotency_key >>= unless_duplicate send e

  unfoldable pub http_send_command : String → Fields F → Call (TransportBase F) (Unit {0})
  http_send_command = send_with http_send

  unfoldable pub mqtt_send_command : String → Fields F → Call (TransportBase F) (Unit {0})
  mqtt_send_command = send_with mqtt_send
