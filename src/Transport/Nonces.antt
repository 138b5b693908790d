-- ===== src/Transport/Nonces.antt =====
-- The stored nonces through the checks of an acknowledgement (src/autonomy/transport.py).
use autonomous_vehicle_llm.Base.{
  ℕ, zero, suc, String, ◌<>◌, Bool, true, false, not, ◌||◌, ◌≡◌, Option, none, some, List, [], ◌∷◌,
  Dict, length, ◌==◌, string_eq, or_default, lookup, insert, Call, ◌>>=◌, ◌>>◌, pure, fail, modify,
  Bool-cases, inl, inr, adapter_execution_error, exception, raise_if,
}
use autonomous_vehicle_llm.Base.Kept.{
  Kept, pure-Kept, modify-Kept, raise_if-Kept, when-Kept, bind-Kept, then-Kept, handle-Kept,
  on_adapter_error-Kept,
}
use autonomous_vehicle_llm.Base.Int.{ℤ, ltb_ℤ, pos, pos_part}
use autonomous_vehicle_llm.Float.{FloatOps}
use autonomous_vehicle_llm.Text.{TextOps, chars}
use autonomous_vehicle_llm.Json.{Value, Fields, obj, get, remove, not_null, as_str}
use autonomous_vehicle_llm.Values.{ValueOps, IntOf, parsed, invalid, other}
use autonomous_vehicle_llm.Models.{TransportConfig}
use autonomous_vehicle_llm.Keyring.{KeyDescriptor}
use autonomous_vehicle_llm.Keyring.Keeping.{get_key_descriptor-Kept}
use autonomous_vehicle_llm.Ledger.{get_last_ack_nonce, fits_column}
use autonomous_vehicle_llm.CertPins.{rollback_to_previous_active}
use autonomous_vehicle_llm.Transport.{TransportBase, Outside, Verdict, next_tick, log_event, log_at}
use autonomous_vehicle_llm.Transport.Acks.{
  as_dict, required, accept_nonce, read_nonce, is_replay, is_beyond, on_pins, validate_cert_binding,
  judge, attest, verify_with, key_of, set_nonce, validate_ack_signature, extract_ack_id,
  extract_with, split_dots, is_expected, correlation_error, correlate,
}
use autonomous_vehicle_llm.Transport.Outcomes.{
  record_ack_verification_result, record_for, log_guard, note_rollback, note_outcome, failures,
  guard_rollout, guard_rate, unless_cooling, roll_back_pins, check_rest, validate_ack,
}
use Prim.Native.Char.{Char}

-- What is said of a state speaks of the stored nonces alone.
abbrev pub OfNonces : {F : Type 0} → (Dict ℤ → Type 0) → TransportBase F → Type 0
OfNonces Q s = Q s.ledger.vehicle_nonce

-- A nonce that is no replay may be stored.
abbrev pub Accepts : (Dict ℤ → Type 0) → Type 0
Accepts Q =
    (vehicle_id : String) (nonce : ℤ) (d : Dict ℤ)
    → is_replay nonce (lookup vehicle_id d) ≡ false
    → Q d
    → Q (insert vehicle_id nonce d)

-- A call after which the stored nonces satisfy what they did.
abbrev pub Holds : {F A : Type 0} → (Dict ℤ → Type 0) → Call (TransportBase F) A → Type 0
Holds Q m = Kept (OfNonces Q) m

module _ {F : Type 0} (Q : Dict ℤ → Type 0) where
  pub tick-Holds : Holds {F = F} Q next_tick
  tick-Holds = record { at = λ s h. h }

  pub as_dict-Holds : (v : Value F) → Holds {F = F} Q (as_dict v)
  as_dict-Holds (obj d) = record { at = λ s h. h }
  as_dict-Holds v = record { at = λ s h. h }

  required-Holds : (k message : String) (d : Fields F) → Holds {F = F} Q (required k message d)
  required-Holds k message d = record { at = λ s h. go s h (not_null (get k d)) }
    where
      go :
          (s : TransportBase F)
          → OfNonces Q s
          → (o : Option (Value F))
          → OfNonces Q
              ((elim o as (λ o. Call (TransportBase F) (Value F)) [
                | none ↦ fail (adapter_execution_error message)
                | some v ↦ pure v
              ])
                s).1
      go s h none = h
      go s h (some v) = h

  accept_nonce-Holds :
      Accepts Q
      → (window : ℤ) (vehicle_id : String) (nonce : ℤ)
      → Holds {F = F} Q (accept_nonce window vehicle_id nonce)
  accept_nonce-Holds q window vehicle_id nonce = record {
    at = λ s h. elim (Bool-cases (is_replay nonce (get_last_ack_nonce vehicle_id s.ledger))) [
      | inl e ↦ rw e h
      | inr e ↦ rw e (
          rest s e h (is_beyond window nonce (get_last_ack_nonce vehicle_id s.ledger))
            (not (fits_column nonce)))
    ];
  }
    where
      rest :
          (s : TransportBase F)
          → is_replay nonce (lookup vehicle_id s.ledger.vehicle_nonce) ≡ false
          → OfNonces Q s
          → (b c : Bool)
          → OfNonces Q
              ((raise_if b (adapter_execution_error "ack nonce outside window")
                  >> (raise_if c (exception "OverflowError")
                      >> modify (set_nonce vehicle_id nonce)))
                s).1
      rest s e h true c = h
      rest s e h false true = h
      rest s e h false false = q vehicle_id nonce s.ledger.vehicle_nonce e h

  read_nonce-Holds :
      Accepts Q
      → (window : ℤ) (vehicle_id : String) (r : IntOf)
      → Holds {F = F} Q (read_nonce window vehicle_id r)
  read_nonce-Holds q window vehicle_id (parsed nonce) = accept_nonce-Holds q window vehicle_id nonce
  read_nonce-Holds q window vehicle_id invalid = record { at = λ s h. h }
  read_nonce-Holds q window vehicle_id (other message) = record { at = λ s h. h }

  judge-Holds : (v : Verdict) → Holds {F = F} Q (judge v)
  judge-Holds Verdict.valid = record { at = λ s h. h }
  judge-Holds Verdict.invalid = record { at = λ s h. h }
  judge-Holds (Verdict.other message) = record { at = λ s h. h }

  on_pins-Holds : {A : Type 0} (op : Call (Fields F) A) → Holds {F = F} Q (on_pins op)
  on_pins-Holds op = record { at = λ s h. h }

  pub log_event-Holds :
      (out : Outside F) (v c k status : String) (detail : Option String)
      → Holds {F = F} Q (log_event out v c k status detail)
  log_event-Holds out v c k status detail =
      bind-Kept tick-Holds
        (λ tick. modify-Kept (log_at out v c k status detail (out.clock tick)) (λ s h. h))

module _ {F : Type 0} ⦃fl : FloatOps F⦄ ⦃vo : ValueOps F⦄ ⦃tx : TextOps⦄ (out : Outside F)
    (config : TransportConfig F) (Q : Dict ℤ → Type 0) where
  signature-Holds : (d : Fields F) → Holds Q (validate_ack_signature out config d)
  signature-Holds d =
      bind-Kept (required-Holds Q config.ack.signature_field "ack signature missing" d)
        (λ signature.
          bind-Kept (required-Holds Q config.ack.key_id_field "ack key id missing" d) (λ key_id.
            bind-Kept (required-Holds Q config.ack.vendor_field "ack vendor id missing" d)
              (λ vendor_id.
                bind-Kept (key_of-Holds (vo.to_str vendor_id) (vo.to_str key_id))
                  (verify_with-Holds (vo.to_str signature)))))
    where
      key_of-Holds : (v k : String) → Holds Q (key_of out config v k)
      key_of-Holds v k = record {
        at = λ s h. (get_key_descriptor-Kept {P = OfNonces Q} s.keyring v k).at s h;
      }

      verify_with-Holds :
          (signature : String) (k : KeyDescriptor) → Holds Q (verify_with out config signature d k)
      verify_with-Holds signature k =
          then-Kept
            (raise_if-Kept (not (tx.lower k.algorithm == tx.lower config.ack.signature_algorithm)) (
              adapter_execution_error (
                "ack algorithm mismatch: expected " <> config.ack.signature_algorithm <> ", got "
                <> k.algorithm)))
            (then-Kept
              (raise_if-Kept (not (tx.lower config.ack.signature_encoding == "base64"))
                (adapter_execution_error "unsupported signature encoding"))
              (judge-Holds Q (
                out.verify signature k.public_key_b64
                  (vo.dumps (remove config.ack.signature_field d)))))

  attest-Holds : (v f : String) (now later : ℕ) → Holds Q (attest out config v f now later)
  attest-Holds v f now later = record { at = λ s h. h }

  cert_binding-Holds : (d : Fields F) → Holds Q (validate_cert_binding out config d)
  cert_binding-Holds d =
      bind-Kept (required-Holds Q config.ack.vendor_field "ack vendor id missing" d) (λ vendor_id.
        bind-Kept
          (required-Holds Q config.cert_attestation.fingerprint_field
            "mTLS certificate fingerprint missing" d)
          (λ fingerprint. bind-Kept (tick-Holds Q) (λ now.
            bind-Kept (tick-Holds Q)
              (λ later. attest-Holds (vo.to_str vendor_id) (vo.to_str fingerprint) now later))))

  -- `record_ack_verification_result` and the rollback.
  log_guard-Holds :
      (v status : String) (detail : Option String) → Holds Q (log_guard out config v status detail)
  log_guard-Holds v status detail =
      log_event-Holds Q out ("vendor:" <> v) "rollout_guard" "rollout_guard" status detail

  roll_back_pins-Holds :
      (v : String) (detail : Option String) (now : F)
      → Holds Q (roll_back_pins out config v detail now)
  roll_back_pins-Holds v detail now =
      handle-Kept (on_pins-Holds Q (rollback_to_previous_active v))
        (λ done.
          then-Kept (modify-Kept (note_rollback v now) (λ s h. h))
            (log_guard-Holds v "auto_rollback" detail))
        (on_adapter_error-Kept (λ message. log_guard-Holds v "auto_rollback_failed" (some message)))

  unless_cooling-Holds :
      (v : String) (detail : Option String) (now : F)
      → Holds Q (unless_cooling out config v detail now)
  unless_cooling-Holds v detail now = record {
    at = λ s h.
        (when-Kept
            (not (
              fl.lt (fl.sub now (or_default (lookup v s.last_rollback_ts_by_vendor) (fl.lit 0 0)))
                config.rollout_policy.rollback_cooldown_s))
            (roll_back_pins-Holds v detail now)).at
          s h;
  }

  guard_rate-Holds :
      (v : String) (detail : Option String) (m n : ℕ) → Holds Q (guard_rate out config v detail m n)
  guard_rate-Holds v detail m zero = record { at = λ s h. h }
  guard_rate-Holds v detail m (suc n) = record {
    at =
        (when-Kept _
          (bind-Kept (tick-Holds Q) (λ tick. unless_cooling-Holds v detail (out.clock tick)))).at;
  }

  guard_rollout-Holds :
      (success : Bool) (v : String) (detail : Option String)
      → Holds Q (guard_rollout out config success v detail)
  guard_rollout-Holds success v detail = record {
    at = λ s h.
        (when-Kept (not (success || not config.rollout_policy.auto_rollback_enabled)) (
            when-Kept (not (ltb_ℤ (pos (length s.ack_outcomes)) config.rollout_policy.min_samples))
              (guard_rate-Holds v detail (failures s.ack_outcomes) (length s.ack_outcomes)))).at
          s h;
  }

  record_result-Holds :
      (success : Bool) (v : String) (detail : Option String)
      → Holds Q (record_ack_verification_result out config success v detail)
  unfolding record_ack_verification_result
  record_result-Holds success v detail =
      then-Kept
        (modify-Kept (note_outcome (pos_part config.rollout_policy.error_window_size) success)
          (λ s h. h))
        (guard_rollout-Holds success v detail)

  pub record_for-Holds :
      (success : Bool) (detail o : Option String) → Holds Q (record_for out config success detail o)
  record_for-Holds success detail none = record { at = λ s h. h }
  record_for-Holds success detail (some v) = record_result-Holds success v detail

  extract-Holds : (data_ : Value F) → Holds Q (extract_ack_id config data_)
  extract-Holds data_ = go (split_dots (chars config.ack.ack_id_field))
    where
      go : (parts : List (List Char)) → Holds Q (extract_with config parts data_)
      go [] = record { at = λ s h. h }
      go (part ∷ []) = record {
        at = (bind-Kept (as_dict-Holds Q data_) (λ d. pure-Kept {P = OfNonces Q} _)).at;
      }
      go (part ∷ next ∷ parts) = record { at = λ s h. h }

  pub check_rest-Holds : (d : Fields F) → Holds Q (check_rest out config d)
  check_rest-Holds d = then-Kept (when-Kept config.ack.require_signature (signature-Holds d)) (
      then-Kept (when-Kept config.cert_attestation.required (cert_binding-Holds d))
        (record_for-Holds true none (as_str (get config.ack.vendor_field d))))

  pub correlated-Holds :
      (data_ : Value F) (expected : String)
      → Holds Q (extract_ack_id config data_ >>= correlate config expected)
  correlated-Holds data_ expected =
      bind-Kept (extract-Holds data_)
        (λ o. raise_if-Kept (not (is_expected config expected o)) (correlation_error expected o))

  pub validate_ack-Holds :
      Accepts Q
      → (vehicle_id : String) (data_ : Value F) (expected : String)
      → Holds Q (validate_ack out config vehicle_id data_ expected)
  unfolding validate_ack
  validate_ack-Holds q vehicle_id data_ expected = when-Kept config.ack.required (
      then-Kept (correlated-Holds data_ expected) (
        bind-Kept (as_dict-Holds Q data_) (λ d.
          then-Kept
            (when-Kept config.ack.require_nonce (
              bind-Kept (required-Holds Q config.ack.nonce_field "ack nonce missing" d)
                (λ raw. read_nonce-Holds Q q config.ack.nonce_window vehicle_id (vo.to_int raw))))
            (check_rest-Holds d))))
