-- ===== src/Keyring.antt =====
-- The public keys of the vendors (src/autonomy/keyring.py), kept as the dictionary that was
-- loaded from the file. Writing it back to the file is not modelled.
pub mod Entry
pub mod Laws
pub mod Keeping
use autonomous_vehicle_llm.Base.{
  String, ◌<>◌, Bool, true, false, Option, none, some, List, [], ◌∷◌, ◌++◌, ◌==◌, string_eq,
  if◌then◌else◌, Result, ok, raise, Call, ◌>>=◌, ◌>>◌, pure, fail, raise_if,
  adapter_execution_error, exception, modify,
}
use autonomous_vehicle_llm.Json.{
  Value, Fields, str, arr, obj, end, field, nil, get, put, as_str, as_obj, of_items,
}
use autonomous_vehicle_llm.Values.{set_of, dict_or, has_text, append_text}

pub record KeyDescriptor : Type 0 where
  pub algorithm : String
  pub public_key_b64 : String

abbrev pub descriptor_of :
    {S : Type 0} → String → Option String → Option String → Call S KeyDescriptor
descriptor_of key_id (some algorithm) (some public_key_b64) =
    pure (record { algorithm = algorithm; public_key_b64 = public_key_b64 })
descriptor_of key_id _ _ =
    fail (adapter_execution_error ("invalid key descriptor for key id: " <> key_id))

module _ {F : Type 0} where
  abbrev pub read_entry : {S : Type 0} → String → Option (Fields F) → Call S KeyDescriptor
  read_entry key_id none = fail (adapter_execution_error ("unknown ack key id: " <> key_id))
  read_entry key_id (some entry) =
      descriptor_of key_id (as_str (get "algorithm" entry)) (as_str (get "public_key_b64" entry))

  -- `keys.get(key_id) if isinstance(keys, dict) else None`
  abbrev pub entry_of : String → Option (Value F) → Option (Fields F)
  entry_of key_id (some (obj keys)) = as_obj (get key_id keys)
  entry_of key_id _ = none

  abbrev pub read_vendor : {S : Type 0} → String → String → Option (Fields F) → Call S KeyDescriptor
  read_vendor vendor_id key_id none =
      fail (adapter_execution_error ("unknown vendor id: " <> vendor_id))
  read_vendor vendor_id key_id (some vendor) = do
    revoked ← set_of (get "revoked" vendor)
    raise_if (has_text revoked key_id) (adapter_execution_error ("revoked ack key id: " <> key_id))
    read_entry key_id (entry_of key_id (get "keys" vendor))

  unfoldable pub get_key_descriptor :
      {S : Type 0} → Fields F → String → String → Call S KeyDescriptor
  get_key_descriptor data_ vendor_id key_id = do
    vendors ← dict_or (get "vendors" data_) end
    read_vendor vendor_id key_id (as_obj (get vendor_id vendors))

  abbrev descriptor_value : String → String → Value F
  descriptor_value algorithm public_key_b64 =
      obj (field "algorithm" (str algorithm) (field "public_key_b64" (str public_key_b64) end))

  -- The loaded dictionary, with the entry of one vendor written anew.
  abbrev pub with_vendor : String → Fields F → Fields F → Fields F → Fields F
  with_vendor vendor_id vendor vendors data_ =
      put "vendors" (obj (put vendor_id (obj vendor) vendors)) data_

  -- The entry that a vendor starts with, with an active key.
  abbrev new_vendor : String → Fields F
  new_vendor active_kid =
      field "active_kid" (str active_kid) (field "keys" (obj end) (field "revoked" (arr nil) end))

  -- The last statements of `rotate_vendor_key`, from the vendor's entry on.
  abbrev pub rotate_entry :
      String → String → String → String → Fields F → Fields F → Call (Fields F) (Unit {0})
  rotate_entry vendor_id key_id algorithm public_key_b64 vendors vendor = do
    keys ← dict_or (get "keys" vendor) end
    let keys' = put key_id (descriptor_value algorithm public_key_b64) keys
    let vendor' = put "active_kid" (str key_id) (put "keys" (obj keys') vendor)
    modify (with_vendor vendor_id vendor' vendors)

  abbrev pub rotate_vendors :
      String → String → String → String → Fields F → Call (Fields F) (Unit {0})
  rotate_vendors vendor_id key_id algorithm public_key_b64 vendors =
      dict_or (get vendor_id vendors) (new_vendor key_id)
      >>= rotate_entry vendor_id key_id algorithm public_key_b64 vendors

  unfoldable pub rotate_vendor_key : String → String → String → String → Call (Fields F) (Unit {0})
  rotate_vendor_key vendor_id key_id algorithm public_key_b64 data_ =
      (dict_or (get "vendors" data_) end
          >>= rotate_vendors vendor_id key_id algorithm public_key_b64)
        data_

  -- `if vendor.get("active_kid") == key_id: vendor["active_kid"] = ""`
  abbrev deactivate : String → Fields F → Fields F
  deactivate key_id vendor = elim (as_str (get "active_kid" vendor)) [
    | none ↦ vendor
    | some kid ↦ if kid == key_id then put "active_kid" (str "") vendor else vendor
  ]

  -- The last statements of `revoke_vendor_key`, from the vendor's entry on.
  abbrev pub revoke_entry : String → String → Fields F → Fields F → Call (Fields F) (Unit {0})
  revoke_entry vendor_id key_id vendors vendor = do
    revoked ← append_text key_id (get "revoked" vendor)
    modify (with_vendor vendor_id (deactivate key_id (put "revoked" revoked vendor)) vendors)

  abbrev pub revoke_vendors : String → String → Fields F → Call (Fields F) (Unit {0})
  revoke_vendors vendor_id key_id vendors =
      dict_or (get vendor_id vendors) (new_vendor "") >>= revoke_entry vendor_id key_id vendors

  unfoldable pub revoke_vendor_key : String → String → Call (Fields F) (Unit {0})
  revoke_vendor_key vendor_id key_id data_ =
      (dict_or (get "vendors" data_) end >>= revoke_vendors vendor_id key_id) data_
