-- ===== src/Transport/Acks.antt =====
-- The checks of an acknowledgement (src/autonomy/transport.py): the command id, the nonce, the
-- signature and the certificate, in this order.
use autonomous_vehicle_llm.Base.{
  ℕ, String, ◌<>◌, Bool, false, not, Option, none, some, List, [], ◌∷◌, ◌==◌, nat_eq, string_eq,
  if◌then◌else◌, Exc, Call, ◌>>=◌, ◌>>◌, pure, fail, modify, raise_if, adapter_execution_error,
  exception,
}
use autonomous_vehicle_llm.Base.Int.{ℤ, ◌+ℤ◌, leb_ℤ, ltb_ℤ}
use autonomous_vehicle_llm.Float.{FloatOps}
use autonomous_vehicle_llm.Text.{TextOps, chars, of_chars}
use autonomous_vehicle_llm.Json.{Value, Fields, obj, get, remove, not_null}
use autonomous_vehicle_llm.Values.{ValueOps, IntOf, parsed, invalid, other}
use autonomous_vehicle_llm.Models.{TransportConfig}
use autonomous_vehicle_llm.Ledger.{get_last_ack_nonce, update_last_ack_nonce, fits_column}
use autonomous_vehicle_llm.Keyring.{KeyDescriptor, get_key_descriptor}
use autonomous_vehicle_llm.CertPins.{assert_vendor_fingerprint_allowed}
use autonomous_vehicle_llm.Transport.{TransportBase, Outside, Verdict, next_tick}
use Prim.Native.Char.{Char, code}

-- `s.split(".")`, on the characters
abbrev push_char : Char → List (List Char) → List (List Char)
push_char c [] = (c ∷ []) ∷ []
push_char c (part ∷ parts) = (c ∷ part) ∷ parts

abbrev pub split_dots : List Char → List (List Char)
split_dots [] = [] ∷ []
split_dots (c ∷ cs) =
    let rest = split_dots cs in if code c == b'.' then [] ∷ rest else push_char c rest

-- An f-string's text of an optional text.
abbrev text_or_none : Option String → String
text_or_none none = "None"
text_or_none (some s) = s

abbrev pub correlation_error : String → Option String → Exc
correlation_error expected ack_id =
    adapter_execution_error
      ("ack correlation failed: expected " <> expected <> ", got " <> text_or_none ack_id)

-- `last is not None and nonce <= last`, and the two tests on the window.
abbrev pub is_replay : ℤ → Option ℤ → Bool
is_replay nonce none = false
is_replay nonce (some last) = leb_ℤ nonce last

abbrev pub is_beyond : ℤ → ℤ → Option ℤ → Bool
is_beyond window nonce none = false
is_beyond window nonce (some last) = ltb_ℤ (last +ℤ window) nonce

module _ {F : Type 0} where
  abbrev pub follow : List (List Char) → Value F → Option (Value F)
  follow [] v = some v
  follow (part ∷ parts) (obj d) = elim (not_null (get (of_chars part) d)) [
    | none ↦ none
    | some v ↦ follow parts v
  ]
  follow (part ∷ parts) v = none

  -- `data.get`, where the data may be no dictionary
  abbrev pub as_dict : {S : Type 0} → Value F → Call S (Fields F)
  as_dict (obj d) = pure d
  as_dict v = fail (exception "AttributeError")

  -- `x = data.get(k)`, `if x is None: raise`
  abbrev pub required : {S : Type 0} → String → String → Fields F → Call S (Value F)
  required k message d = elim (not_null (get k d)) [
    | none ↦ fail (adapter_execution_error message)
    | some v ↦ pure v
  ]

  abbrev pub set_nonce : String → ℤ → TransportBase F → TransportBase F
  set_nonce vehicle_id nonce s = record s {
    ledger = update_last_ack_nonce vehicle_id nonce s.ledger;
  }

  -- The write, which raises on a number that the column does not take.
  abbrev pub store_nonce : String → ℤ → Call (TransportBase F) (Unit {0})
  store_nonce vehicle_id nonce =
      raise_if (not (fits_column nonce)) (exception "OverflowError")
      >> modify (set_nonce vehicle_id nonce)

  abbrev pub accept_nonce : ℤ → String → ℤ → Call (TransportBase F) (Unit {0})
  accept_nonce window vehicle_id nonce s =
      (raise_if (is_replay nonce (get_last_ack_nonce vehicle_id s.ledger))
            (adapter_execution_error "ack replay detected")
          >> (raise_if (is_beyond window nonce (get_last_ack_nonce vehicle_id s.ledger))
                (adapter_execution_error "ack nonce outside window")
              >> store_nonce vehicle_id nonce))
        s

  abbrev pub read_nonce : ℤ → String → IntOf → Call (TransportBase F) (Unit {0})
  read_nonce window vehicle_id (parsed nonce) = accept_nonce window vehicle_id nonce
  read_nonce window vehicle_id invalid = fail (adapter_execution_error "ack nonce invalid")
  read_nonce window vehicle_id (other message) = fail (exception message)

  -- A call of the pinset, which is a part of the transport's state.
  abbrev pub on_pins : {A : Type 0} → Call (Fields F) A → Call (TransportBase F) A
  on_pins op s = let (r, pins) = op s.cert_pins in (r, record s { cert_pins = pins })

  abbrev pub judge : Verdict → Call (TransportBase F) (Unit {0})
  judge Verdict.valid = pure tt
  judge Verdict.invalid = fail (adapter_execution_error "ack signature invalid")
  judge (Verdict.other message) = fail (exception message)

module _ {F : Type 0} ⦃vo : ValueOps F⦄ (config : TransportConfig F) where
  abbrev pub extract_with : List (List Char) → Value F → Call (TransportBase F) (Option String)
  extract_with (part ∷ []) v = as_dict v >>= λ d.
      pure (elim (not_null (get config.ack.ack_id_field d)) [
        | none ↦ none
        | some w ↦ some (vo.to_str w)
      ])
  extract_with parts v = pure (elim (follow parts v) [ none ↦ none | some w ↦ some (vo.to_str w) ])

  abbrev pub extract_ack_id : Value F → Call (TransportBase F) (Option String)
  extract_ack_id = extract_with (split_dots (chars config.ack.ack_id_field))

  abbrev pub is_expected : String → Option String → Bool
  is_expected expected none = false
  is_expected expected (some ack_id) = ack_id == expected

  abbrev pub correlate : String → Option String → Call (TransportBase F) (Unit {0})
  correlate expected ack_id =
      raise_if (not (is_expected expected ack_id)) (correlation_error expected ack_id)

  abbrev pub check_nonce : String → Fields F → Call (TransportBase F) (Unit {0})
  check_nonce vehicle_id d = required config.ack.nonce_field "ack nonce missing" d >>= λ raw.
      read_nonce config.ack.nonce_window vehicle_id (vo.to_int raw)

module _ {F : Type 0} ⦃fl : FloatOps F⦄ ⦃vo : ValueOps F⦄ ⦃tx : TextOps⦄ (out : Outside F)
    (config : TransportConfig F) where
  abbrev pub verify_with : String → Fields F → KeyDescriptor → Call (TransportBase F) (Unit {0})
  verify_with signature d key_descriptor =
      raise_if (not (tx.lower key_descriptor.algorithm == tx.lower config.ack.signature_algorithm))
        (adapter_execution_error (
          "ack algorithm mismatch: expected " <> config.ack.signature_algorithm <> ", got "
          <> key_descriptor.algorithm))
      >> (raise_if (not (tx.lower config.ack.signature_encoding == "base64"))
            (adapter_execution_error "unsupported signature encoding")
          >> judge (
              out.verify signature key_descriptor.public_key_b64
                (vo.dumps (remove config.ack.signature_field d))))

  abbrev pub key_of : String → String → Call (TransportBase F) KeyDescriptor
  key_of vendor_id key_id s = get_key_descriptor s.keyring vendor_id key_id s

  abbrev pub validate_ack_signature : Fields F → Call (TransportBase F) (Unit {0})
  validate_ack_signature d =
      required config.ack.signature_field "ack signature missing" d >>= λ signature.
      required config.ack.key_id_field "ack key id missing" d >>= λ key_id.
      required config.ack.vendor_field "ack vendor id missing" d >>= λ vendor_id.
      key_of (vo.to_str vendor_id) (vo.to_str key_id) >>= verify_with (vo.to_str signature) d

  abbrev pub attest : String → String → ℕ → ℕ → Call (TransportBase F) (Unit {0})
  attest vendor_id fingerprint now later =
      on_pins
        (assert_vendor_fingerprint_allowed (out.clock now) (out.clock later) vendor_id fingerprint)

  abbrev pub validate_cert_binding : Fields F → Call (TransportBase F) (Unit {0})
  validate_cert_binding d =
      required config.ack.vendor_field "ack vendor id missing" d >>= λ vendor_id.
      required config.cert_attestation.fingerprint_field "mTLS certificate fingerprint missing" d
      >>= λ fingerprint. next_tick >>= λ now.
          next_tick >>= λ later. attest (vo.to_str vendor_id) (vo.to_str fingerprint) now later
