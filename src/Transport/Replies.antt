-- ===== src/Transport/Replies.antt =====
-- The stored nonces through one attempt to send (src/autonomy/transport.py).
use autonomous_vehicle_llm.Base.{
  ℕ, leb, ltb, String, ◌<>◌, Bool, true, false, ◌&&◌, Option, none, some, Dict, string_eq,
  if◌then◌else◌, Call, ◌>>=◌, pure, fail, modify, adapter_execution_error, exception,
}
use autonomous_vehicle_llm.Base.Kept.{
  pure-Kept, fail-Kept, modify-Kept, bind-Kept, then-Kept, handle-Kept, on_adapter_error-Kept,
}
use autonomous_vehicle_llm.Base.Int.{ℤ}
use autonomous_vehicle_llm.Float.{FloatOps}
use autonomous_vehicle_llm.Text.{TextOps, chars, is_nonempty}
use autonomous_vehicle_llm.Json.{Value, obj, end, get, as_str}
use autonomous_vehicle_llm.Values.{ValueOps}
use autonomous_vehicle_llm.Models.{TransportConfig}
use autonomous_vehicle_llm.Ledger.{is_duplicate_idempotency_key, mark_idempotency_key}
use autonomous_vehicle_llm.Transport.{
  TransportBase, CommandEnvelope, Outside, HttpReply, MqttReply, next_tick, take_token,
  is_duplicate, mark_seen, mark_at, ask_ledger, Request,
}
use autonomous_vehicle_llm.Transport.Send.{
  accept_ack, http_attempt, mqtt_attempt, caught, read_reply, read_answer, read_message, publish,
  parse_reply, parse_body, log_sent, request_of, http_path, topic_of, is_prefix, log_of,
}
use autonomous_vehicle_llm.Transport.Nonces.{
  Accepts, Holds, tick-Holds, as_dict-Holds, log_event-Holds, record_for-Holds, validate_ack-Holds,
}

module _ {F : Type 0} ⦃fl : FloatOps F⦄ ⦃vo : ValueOps F⦄ ⦃tx : TextOps⦄ (out : Outside F)
    (config : TransportConfig F) (Q : Dict ℤ → Type 0) where
  pub mark_seen-Holds : (key : String) → Holds Q (mark_seen out config key)
  unfolding mark_idempotency_key
  mark_seen-Holds key = go config.idempotency.enabled
    where
      go :
          (b : Bool)
          → Holds Q (
              if b
              then next_tick >>= (λ tick. modify (mark_at out config key (out.clock tick)))
              else pure tt)
      go true = record {
        at =
            (bind-Kept (tick-Holds Q)
              (λ tick. modify-Kept (mark_at out config key (out.clock tick)) (λ s h. h))).at;
      }
      go false = record { at = λ s h. h }

  pub is_duplicate-Holds : (key : String) → Holds Q (is_duplicate out config key)
  unfolding is_duplicate_idempotency_key
  is_duplicate-Holds key = go config.idempotency.enabled
    where
      ask : (now : F) → Holds Q (ask_ledger out config key now)
      ask now = record { at = λ s h. h }

      go :
          (b : Bool)
          → Holds Q (
              if b
              then next_tick >>= (λ tick. ask_ledger out config key (out.clock tick))
              else pure false)
      go true = record { at = (bind-Kept (tick-Holds Q) (λ tick. ask (out.clock tick))).at }
      go false = record { at = λ s h. h }

  pub log_of-Holds :
      (e : CommandEnvelope F) (status : String) (detail : Option String)
      → Holds Q (log_of out config e status detail)
  log_of-Holds e status detail =
      log_event-Holds Q out e.vehicle_id e.command_id e.idempotency_key status detail

  pub accept_ack-Holds :
      Accepts Q
      → (e : CommandEnvelope F) (data_ : Value F) → Holds Q (accept_ack out config e data_)
  accept_ack-Holds q e data_ =
      then-Kept
        (handle-Kept (validate_ack-Holds out config Q q e.vehicle_id data_ e.command_id)
          (λ done. pure-Kept tt)
          (on_adapter_error-Kept (λ message.
            then-Kept
              (bind-Kept (as_dict-Holds Q data_) (λ d.
                record_for-Holds out config Q false (some message)
                  (as_str (get config.ack.vendor_field d))))
              (fail-Kept (adapter_execution_error message)))))
        (then-Kept (mark_seen-Holds e.idempotency_key) (log_of-Holds e "ack_ok" none))

  pub caught-Holds :
      (m : Call (TransportBase F) (Unit {0})) → Holds Q m → Holds Q (caught out config m)
  caught-Holds m k =
      handle-Kept k (λ done. pure-Kept none)
        (on_adapter_error-Kept (λ message. pure-Kept (some message)))

  pub take_token-Holds : Holds {F = F} Q (take_token config.auth)
  take_token-Holds = record { at = λ s h. h }

  pub parse_body-Holds : (raw_body : String) → Holds Q (parse_body out config raw_body)
  parse_body-Holds raw_body = go (is_nonempty (tx.strip raw_body)) (vo.loads raw_body)
    where
      go :
          (b : Bool) (o : Option (Value F))
          → Holds Q (
              if b
              then (elim o as (λ o. Call (TransportBase F) (Value F)) [
                | none ↦ fail (exception "JSONDecodeError")
                | some v ↦ pure v
              ])
              else pure (obj end))
      go true none = record { at = λ s h. h }
      go true (some v) = record { at = λ s h. h }
      go false o = record { at = λ s h. h }

  pub parse_reply-Holds : (o : Option String) → Holds Q (parse_reply out config o)
  parse_reply-Holds none = record { at = λ s h. h }
  parse_reply-Holds (some raw_body) = parse_body-Holds raw_body

  pub read_answer-Holds :
      Accepts Q
      → (e : CommandEnvelope F) (status : ℕ) (body : Option String)
      → Holds Q (read_answer out config e status body)
  read_answer-Holds q e status body = go (leb 200 status && ltb status 300)
    where
      go :
          (b : Bool)
          → Holds Q (
              if b
              then parse_reply out config body >>= accept_ack out config e
              else fail (adapter_execution_error ("http status " <> tx.str_of_nat status)))
      go true = record { at = (bind-Kept (parse_reply-Holds body) (accept_ack-Holds q e)).at }
      go false = record { at = λ s h. h }

  pub read_reply-Holds :
      Accepts Q → (e : CommandEnvelope F) (r : HttpReply) → Holds Q (read_reply out config e r)
  read_reply-Holds q e (HttpReply.answered status body) =
      caught-Holds (read_answer out config e status body) (read_answer-Holds q e status body)
  read_reply-Holds q e (HttpReply.network_error message) = record { at = λ s h. h }
  read_reply-Holds q e (HttpReply.other_error message) = record { at = λ s h. h }

  pub log_sent-Holds : (r : Request F) → Holds Q (modify (log_sent out config r))
  log_sent-Holds r = record { at = λ s h. h }

  pub http_attempt-Holds : Accepts Q → (e : CommandEnvelope F) → Holds Q (http_attempt out config e)
  http_attempt-Holds q e = bind-Kept take_token-Holds (λ token.
      let r = request_of out config (http_path out config e) e token in
      then-Kept (log_sent-Holds r)
        (bind-Kept (tick-Holds Q) (λ tick. read_reply-Holds q e (out.http tick r))))

  pub read_message-Holds :
      Accepts Q → (e : CommandEnvelope F) (r : MqttReply F) → Holds Q (read_message out config e r)
  read_message-Holds q e (MqttReply.acked ack) = accept_ack-Holds q e (obj ack)
  read_message-Holds q e MqttReply.timed_out = record { at = λ s h. h }
  read_message-Holds q e (MqttReply.failing exc) = record { at = λ s h. h }

  pub mqtt_attempt-Holds : Accepts Q → (e : CommandEnvelope F) → Holds Q (mqtt_attempt out config e)
  mqtt_attempt-Holds q e = go (is_prefix (chars "fail://") (chars config.endpoint_url))
    where
      publish-Holds : Holds Q (publish out config e)
      publish-Holds = bind-Kept take_token-Holds (λ token.
          let r = request_of out config (topic_of out config e) e token in
          then-Kept (log_sent-Holds r)
            (bind-Kept (tick-Holds Q) (λ tick. read_message-Holds q e (out.mqtt tick r))))

      go :
          (b : Bool)
          → Holds Q (
              if b
              then pure (some "mqtt broker unavailable")
              else caught out config (publish out config e))
      go true = record { at = λ s h. h }
      go false = record { at = (caught-Holds (publish out config e) publish-Holds).at }
