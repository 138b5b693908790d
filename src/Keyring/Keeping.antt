-- ===== src/Keyring/Keeping.antt =====
-- What reading a key (src/autonomy/keyring.py) does to a state.
use autonomous_vehicle_llm.Base.{
  String, Bool, true, false, not, any_of, if◌then◌else◌, fail, pure, exception, Option, none, some,
  adapter_execution_error, ◌<>◌,
}
use autonomous_vehicle_llm.Base.Kept.{Kept, bind-Kept, then-Kept, raise_if-Kept}
use autonomous_vehicle_llm.Json.{Value, Fields, str, arr, obj, end, items, get, as_obj, as_str}
use autonomous_vehicle_llm.Values.{dict_or, set_of, is_hashable, has_text}
use autonomous_vehicle_llm.Keyring.{
  get_key_descriptor, read_vendor, read_entry, entry_of, descriptor_of,
}

module _ {F S : Type 0} {P : S → Type 0} where
  pub dict_or-Kept : (o : Option (Value F)) (d : Fields F) → Kept P (dict_or o d)
  dict_or-Kept none d = record { at = λ s h. h }
  dict_or-Kept (some (obj e)) d = record { at = λ s h. h }
  dict_or-Kept (some v) d = record { at = λ s h. h }

  set_of-Kept : (o : Option (Value F)) → Kept P (set_of o)
  set_of-Kept none = record { at = λ s h. h }
  set_of-Kept (some (arr e)) = record {
    at = λ s h. go s h (any_of (λ v. not (is_hashable v)) (items e));
  }
    where
      go :
          (s : S)
          → P s
          → (b : Bool) → P ((if b then fail (exception "TypeError") else pure (items e)) s).1
      go s h true = h
      go s h false = h
  set_of-Kept (some (obj d)) = record { at = λ s h. h }
  set_of-Kept (some (str t)) = record { at = λ s h. h }
  set_of-Kept (some v) = record { at = λ s h. h }

  read_entry-Kept : (key_id : String) (o : Option (Fields F)) → Kept P (read_entry key_id o)
  read_entry-Kept key_id none = record { at = λ s h. h }
  read_entry-Kept key_id (some e) = record {
    at = λ s h. go s h (as_str (get "algorithm" e)) (as_str (get "public_key_b64" e));
  }
    where
      go : (s : S) → P s → (a b : Option String) → P (descriptor_of key_id a b s).1
      go s h none b = h
      go s h (some a) none = h
      go s h (some a) (some b) = h

  read_vendor-Kept :
      (vendor_id key_id : String) (o : Option (Fields F)) → Kept P (read_vendor vendor_id key_id o)
  read_vendor-Kept vendor_id key_id none = record { at = λ s h. h }
  read_vendor-Kept vendor_id key_id (some vendor) =
      bind-Kept (set_of-Kept (get "revoked" vendor)) (λ revoked.
        then-Kept
          (raise_if-Kept (has_text revoked key_id)
            (adapter_execution_error ("revoked ack key id: " <> key_id)))
          (read_entry-Kept key_id (entry_of key_id (get "keys" vendor))))

  pub get_key_descriptor-Kept :
      (data_ : Fields F) (vendor_id key_id : String)
      → Kept P (get_key_descriptor data_ vendor_id key_id)
  unfolding get_key_descriptor
  get_key_descriptor-Kept data_ vendor_id key_id =
      bind-Kept (dict_or-Kept (get "vendors" data_) end)
        (λ vendors. read_vendor-Kept vendor_id key_id (as_obj (get vendor_id vendors)))
