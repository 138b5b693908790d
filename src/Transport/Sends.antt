-- ===== src/Transport/Sends.antt =====
-- The stored nonces through `send_command` (src/autonomy/transport.py).
use autonomous_vehicle_llm.Base.{
  ℕ, ◌+◌, zero, suc, leb, String, Bool, true, false, Option, none, some, Dict, string_eq,
  if◌then◌else◌, Exc, Call, ◌>>◌, pure, fail, raise_if, modify, adapter_execution_error, exception,
}
use autonomous_vehicle_llm.Base.Kept.{raise_if-Kept, fail-Kept, bind-Kept, then-Kept}
use autonomous_vehicle_llm.Base.Int.{ℤ}
use autonomous_vehicle_llm.Float.{FloatOps}
use autonomous_vehicle_llm.Text.{TextOps}
use autonomous_vehicle_llm.Json.{Fields}
use autonomous_vehicle_llm.Values.{ValueOps}
use autonomous_vehicle_llm.Models.{TransportConfig}
use autonomous_vehicle_llm.Transport.{TransportBase, CommandEnvelope, Outside, build_envelope}
use autonomous_vehicle_llm.Transport.Send.{
  http_attempt, mqtt_attempt, attempts, go_on, give_up, wait, log_slept, send_with,
  http_send_command, mqtt_send_command, unless_duplicate, http_send, mqtt_send, max_attempts,
  http_error,
}
use autonomous_vehicle_llm.Transport.Nonces.{Accepts, Holds}
use autonomous_vehicle_llm.Transport.Replies.{
  is_duplicate-Holds, log_of-Holds, http_attempt-Holds, mqtt_attempt-Holds,
}

module _ {F : Type 0} ⦃fl : FloatOps F⦄ ⦃vo : ValueOps F⦄ ⦃tx : TextOps⦄ (out : Outside F)
    (config : TransportConfig F) (Q : Dict ℤ → Type 0) where
  attempts-Holds :
      (one : CommandEnvelope F → Call (TransportBase F) (Option String)) (exc : String → Exc)
      (e : CommandEnvelope F)
      → Holds Q (one e)
      → (attempt left : ℕ) → Holds Q (attempts out config one exc e attempt left)
  attempts-Holds one exc e k attempt zero = record { at = λ s h. h }
  attempts-Holds one exc e k attempt (suc left) = bind-Kept k (
      go (attempts out config one exc e (attempt + 1) left)
        (attempts-Holds one exc e k (attempt + 1) left))
    where
      slept-Holds : (delay : F) → Holds Q (modify (log_slept out config delay))
      slept-Holds delay = record { at = λ s h. h }

      wait-Holds :
          (b : Bool) (delay : F)
          → Holds Q (raise_if b (exception "ValueError") >> modify (log_slept out config delay))
      wait-Holds b delay = then-Kept (raise_if-Kept b (exception "ValueError")) (slept-Holds delay)

      choose :
          (b : Bool) (message : String) (rest : Call (TransportBase F) (Unit {0}))
          → Holds Q rest
          → Holds Q
              (if b then give_up out config exc e message else wait out config attempt >> rest)
      choose true message rest r = record {
        at =
            (then-Kept (log_of-Holds out config Q e "send_failed" (some message))
              (fail-Kept {A = Unit {0}} (exc message))).at;
      }
      choose false message rest r = then-Kept (wait-Holds _ _) r

      go :
          (rest : Call (TransportBase F) (Unit {0}))
          → Holds Q rest
          → (o : Option String) → Holds Q (go_on out config exc e attempt rest o)
      go rest r none = record { at = λ s h. h }
      go rest r (some message) = record {
        at = (choose (leb (max_attempts out config) attempt) message rest r).at;
      }

  send_with-Holds :
      (send : CommandEnvelope F → Call (TransportBase F) (Unit {0}))
      → ((e : CommandEnvelope F) → Holds Q (send e))
      → (vehicle_id : String) (payload : Fields F)
      → Holds Q (send_with out config send vehicle_id payload)
  send_with-Holds send k vehicle_id payload =
      bind-Kept envelope-Holds
        (λ e. bind-Kept (is_duplicate-Holds out config Q e.idempotency_key) (go e))
    where
      envelope-Holds : Holds Q (build_envelope out config vehicle_id payload)
      envelope-Holds = record { at = λ s h. h }

      go : (e : CommandEnvelope F) (b : Bool) → Holds Q (unless_duplicate out config send e b)
      go e true = record { at = (log_of-Holds out config Q e "duplicate_skip" none).at }
      go e false = record { at = (k e).at }

  pub http_send_command-Holds :
      Accepts Q
      → (vehicle_id : String) (payload : Fields F)
      → Holds Q (http_send_command out config vehicle_id payload)
  unfolding http_send_command
  http_send_command-Holds q vehicle_id payload =
      send_with-Holds (http_send out config)
        (λ e. then-Kept (ssl out.ssl_error) (
          attempts-Holds (http_attempt out config) (http_error out config) e
            (http_attempt-Holds out config Q q e) 1 (max_attempts out config)))
        vehicle_id payload
    where
      ssl :
          (o : Option Exc)
          → Holds {F = F} Q (elim o as (λ o. Call (TransportBase F) (Unit {0})) [
            | none ↦ pure tt
            | some exc ↦ fail exc
          ])
      ssl none = record { at = λ s h. h }
      ssl (some exc) = record { at = λ s h. h }

  pub mqtt_send_command-Holds :
      Accepts Q
      → (vehicle_id : String) (payload : Fields F)
      → Holds Q (mqtt_send_command out config vehicle_id payload)
  unfolding mqtt_send_command
  mqtt_send_command-Holds q vehicle_id payload =
      send_with-Holds (mqtt_send out config)
        (λ e.
          attempts-Holds (mqtt_attempt out config) adapter_execution_error e
            (mqtt_attempt-Holds out config Q q e) 1 (max_attempts out config))
        vehicle_id payload
