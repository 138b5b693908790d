-- ===== src/Transport/Outcomes.antt =====
-- The record of the last acknowledgements, and the rollback of a vendor's pins when too many of
-- them failed (src/autonomy/transport.py); then the whole validation of an acknowledgement.
use autonomous_vehicle_llm.Base.{
  ℕ, ◌+◌, ◌-◌, zero, suc, String, ◌<>◌, Bool, true, false, not, ◌||◌, Option, none, some, List, [],
  ◌∷◌, ◌++◌, length, keep, lookup, insert, or_default, Call, ◌>>=◌, ◌>>◌, pure, fail, modify,
  handle, on_adapter_error, when, exception,
}
use autonomous_vehicle_llm.Base.Int.{pos, ltb_ℤ, pos_part}
use autonomous_vehicle_llm.Float.{FloatOps}
use autonomous_vehicle_llm.Text.{TextOps}
use autonomous_vehicle_llm.Json.{Value, Fields, get, as_str}
use autonomous_vehicle_llm.Values.{ValueOps}
use autonomous_vehicle_llm.Models.{TransportConfig}
use autonomous_vehicle_llm.CertPins.{rollback_to_previous_active}
use autonomous_vehicle_llm.Transport.{TransportBase, Outside, next_tick, log_event}
use autonomous_vehicle_llm.Transport.Acks.{
  as_dict, extract_ack_id, correlate, check_nonce, validate_ack_signature, validate_cert_binding,
  on_pins,
}

abbrev drop_first : {A : Type 0} → ℕ → List A → List A
drop_first zero xs = xs
drop_first (suc n) [] = []
drop_first (suc n) (x ∷ xs) = drop_first n xs

-- `append` of a deque with a greatest length
abbrev pub push_outcome : ℕ → List Bool → Bool → List Bool
push_outcome maxlen outcomes b = drop_first (length outcomes + 1 - maxlen) (outcomes ++ (b ∷ []))

abbrev pub failures : List Bool → ℕ
failures outcomes = length (keep not outcomes)

module _ {F : Type 0} where
  abbrev pub note_outcome : ℕ → Bool → TransportBase F → TransportBase F
  note_outcome maxlen success s = record s {
    ack_outcomes = push_outcome maxlen s.ack_outcomes success;
  }

  abbrev pub note_rollback : String → F → TransportBase F → TransportBase F
  note_rollback vendor_id now s = record s {
    last_rollback_ts_by_vendor = insert vendor_id now s.last_rollback_ts_by_vendor;
    ack_outcomes = [];
  }

module _ {F : Type 0} ⦃fl : FloatOps F⦄ (out : Outside F) (config : TransportConfig F) where
  abbrev pub log_guard : String → String → Option String → Call (TransportBase F) (Unit {0})
  log_guard vendor_id status detail =
      log_event out ("vendor:" <> vendor_id) "rollout_guard" "rollout_guard" status detail

  abbrev pub roll_back_pins : String → Option String → F → Call (TransportBase F) (Unit {0})
  roll_back_pins vendor_id detail now =
      handle (on_pins (rollback_to_previous_active vendor_id))
        (λ done. modify (note_rollback vendor_id now) >> log_guard vendor_id "auto_rollback" detail)
        (on_adapter_error (λ message. log_guard vendor_id "auto_rollback_failed" (some message)))

  abbrev pub unless_cooling : String → Option String → F → Call (TransportBase F) (Unit {0})
  unless_cooling vendor_id detail now s =
      let last = or_default (lookup vendor_id s.last_rollback_ts_by_vendor) (fl.lit 0 0) in
      when (not (fl.lt (fl.sub now last) config.rollout_policy.rollback_cooldown_s))
        (roll_back_pins vendor_id detail now) s

  abbrev pub guard_rate : String → Option String → ℕ → ℕ → Call (TransportBase F) (Unit {0})
  guard_rate vendor_id detail failed zero = fail (exception "ZeroDivisionError")
  guard_rate vendor_id detail failed (suc n) =
      when
        (not (
          fl.lt (fl.div (fl.of_int (pos failed)) (fl.of_int (pos (suc n))))
            config.rollout_policy.error_rate_threshold))
        (next_tick >>= λ tick. unless_cooling vendor_id detail (out.clock tick))

  abbrev pub guard_rollout : Bool → String → Option String → Call (TransportBase F) (Unit {0})
  guard_rollout success vendor_id detail s =
      when (not (success || not config.rollout_policy.auto_rollback_enabled))
        (when (not (ltb_ℤ (pos (length s.ack_outcomes)) config.rollout_policy.min_samples))
          (guard_rate vendor_id detail (failures s.ack_outcomes) (length s.ack_outcomes)))
        s

  unfoldable pub record_ack_verification_result :
      Bool → String → Option String → Call (TransportBase F) (Unit {0})
  record_ack_verification_result success vendor_id detail =
      modify (note_outcome (pos_part config.rollout_policy.error_window_size) success)
      >> guard_rollout success vendor_id detail

  abbrev pub record_for : Bool → Option String → Option String → Call (TransportBase F) (Unit {0})
  record_for success detail none = pure tt
  record_for success detail (some vendor_id) =
      record_ack_verification_result success vendor_id detail

  abbrev pub record_of : Bool → Option String → Fields F → Call (TransportBase F) (Unit {0})
  record_of success detail d = record_for success detail (as_str (get config.ack.vendor_field d))

  abbrev pub record_ack_verification_failure : Value F → String → Call (TransportBase F) (Unit {0})
  record_ack_verification_failure data_ detail = as_dict data_ >>= record_of false (some detail)

module _ {F : Type 0} ⦃fl : FloatOps F⦄ ⦃vo : ValueOps F⦄ ⦃tx : TextOps⦄ (out : Outside F)
    (config : TransportConfig F) where
  -- The checks after the one of the nonce.
  abbrev pub check_rest : Fields F → Call (TransportBase F) (Unit {0})
  check_rest d =
      when config.ack.require_signature (validate_ack_signature out config d)
      >> (when config.cert_attestation.required (validate_cert_binding out config d)
          >> record_of out config true none d)

  abbrev pub check_dict : String → Fields F → Call (TransportBase F) (Unit {0})
  check_dict vehicle_id d =
      when config.ack.require_nonce (check_nonce config vehicle_id d) >> check_rest d

  abbrev pub check_ack : String → Value F → String → Call (TransportBase F) (Unit {0})
  check_ack vehicle_id data_ expected =
      (extract_ack_id config data_ >>= correlate config expected)
      >> (as_dict data_ >>= check_dict vehicle_id)

  unfoldable pub validate_ack : String → Value F → String → Call (TransportBase F) (Unit {0})
  validate_ack vehicle_id data_ expected =
      when config.ack.required (check_ack vehicle_id data_ expected)
