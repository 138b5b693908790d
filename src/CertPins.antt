-- ===== src/CertPins.antt =====
-- The certificate fingerprints of the vendors (src/autonomy/cert_pins.py), kept as the dictionary
-- that was loaded from the file. A vendor's entry is an object that `_data` refers to, so each
-- method is a call on the entry, and what it leaves there is part of `_data`, also when it raises.
-- Writing `_data` back to the file is not modelled, and each reading of the clock is an argument.
pub mod Reading
pub mod Entry
pub mod Revoked
use autonomous_vehicle_llm.Base.{
  String, ◌<>◌, Bool, true, false, not, ◌&&◌, ◌||◌, Option, none, some, List, [], ◌∷◌, ◌++◌, map,
  ◌==◌, nat_eq, string_eq, if◌then◌else◌, or_default, any_of, keep, length, Result, ok, raise, Call,
  ◌>>=◌, ◌>>◌, pure, fail, get_state, modify, raise_if, adapter_execution_error, exception, is_some,
}
use autonomous_vehicle_llm.Float.{FloatOps}
use autonomous_vehicle_llm.Text.{chars, of_chars, is_nonempty}
use autonomous_vehicle_llm.Json.{
  Value, Fields, null, float, str, arr, obj, end, field, nil, get, put, has, as_str, as_obj, as_arr,
  items, of_items, not_null,
}
use autonomous_vehicle_llm.Values.{ValueOps, set_of, dict_or, list_or, has_text, append_text}
use autonomous_vehicle_llm.Keyring.{with_vendor}

-- `fingerprint = self._valid_pin_fingerprint(pin, now); if fingerprint: …`
abbrev pub truthy : Option String → Option String
truthy none = none
truthy (some s) = if is_nonempty s then some s else none

abbrev pub add_found : {S A : Type 0} → Option String → (String → A) → List A → Call S (List A)
add_found none f rest = pure rest
add_found (some s) f rest = pure (f s ∷ rest)

abbrev pub is_empty : {A : Type 0} → List A → Bool
is_empty [] = true
is_empty (x ∷ xs) = false

abbrev pub unless_late : {S : Type 0} → String → Bool → Call S (Option String)
unless_late fingerprint late = pure (if late then none else some fingerprint)

abbrev is_equal : Option String → String → Bool
is_equal none s = false
is_equal (some t) s = t == s

module _ {F : Type 0} where
  -- `d.get(k, [])` under a test with `isinstance(…, list)`
  abbrev pub pins_of : Option (Value F) → Option (List (Value F))
  pins_of none = some []
  pins_of o = as_arr o

  -- `if allowed: return allowed`, else the list of the old form
  abbrev pub unless_none : {S : Type 0} → Fields F → List (Value F) → Call S (List (Value F))
  unless_none vendor [] = set_of (get "allowed" vendor)
  unless_none vendor (fingerprint ∷ fingerprints) = pure (fingerprint ∷ fingerprints)

  abbrev pub check_pinned : String → List (Value F) → Call (Fields F) (Unit {0})
  check_pinned fingerprint allowed =
      raise_if (not (has_text allowed fingerprint))
        (adapter_execution_error "certificate fingerprint not pinned for vendor")

module _ {F : Type 0} ⦃fl : FloatOps F⦄ ⦃vo : ValueOps F⦄ where
  -- `bound is not None and float(bound) > now`
  abbrev pub is_early : {S : Type 0} → F → Option (Value F) → Call S Bool
  is_early now none = pure false
  is_early now (some bound) = elim (vo.to_float bound) [
    | none ↦ fail (exception "ValueError")
    | some not_before ↦ pure (fl.lt now not_before)
  ]

  -- `bound is not None and float(bound) < now`
  abbrev pub is_late : {S : Type 0} → F → Option (Value F) → Call S Bool
  is_late now none = pure false
  is_late now (some bound) = elim (vo.to_float bound) [
    | none ↦ fail (exception "ValueError")
    | some not_after ↦ pure (fl.lt not_after now)
  ]

  abbrev pub unless_early : {S : Type 0} → F → Fields F → String → Bool → Call S (Option String)
  unless_early now pin fingerprint true = pure none
  unless_early now pin fingerprint false =
      is_late now (not_null (get "not_after" pin)) >>= unless_late fingerprint

  abbrev pub check_bounds : {S : Type 0} → F → Fields F → Option String → Call S (Option String)
  check_bounds now pin none = pure none
  check_bounds now pin (some fingerprint) =
      is_early now (not_null (get "not_before" pin)) >>= unless_early now pin fingerprint

  abbrev pub valid_pin_fingerprint : {S : Type 0} → F → Value F → Call S (Option String)
  valid_pin_fingerprint now (obj pin) = check_bounds now pin (as_str (get "fingerprint" pin))
  valid_pin_fingerprint now pin = pure none

  -- What `f` makes of each pin for which `_valid_pin_fingerprint` returns a text that is not empty.
  abbrev pub each_valid :
      {S : Type 0} → (String → Value F → Value F) → F → List (Value F) → Call S (List (Value F))
  each_valid f now [] = pure []
  each_valid f now (pin ∷ pins) = valid_pin_fingerprint now pin >>= λ found.
      each_valid f now pins >>= add_found (truthy found) (λ s. f s pin)

  -- The fingerprints of the valid pins, and the valid pins themselves.
  abbrev pub valid_fingerprints : {S : Type 0} → F → List (Value F) → Call S (List (Value F))
  valid_fingerprints = each_valid (λ s pin. str s)

  abbrev pub valid_pins : {S : Type 0} → F → List (Value F) → Call S (List (Value F))
  valid_pins = each_valid (λ s pin. pin)

  abbrev pub collect_next : {S : Type 0} → F → Fields F → List (Value F) → Call S (List (Value F))
  collect_next now vendor active =
      valid_fingerprints now (or_default (pins_of (get "next" vendor)) []) >>= λ next_pins.
      unless_none vendor (active ++ next_pins)

  abbrev pub collect_allowed_fingerprints : {S : Type 0} → F → Fields F → Call S (List (Value F))
  collect_allowed_fingerprints now vendor =
      valid_fingerprints now (or_default (pins_of (get "active" vendor)) [])
      >>= collect_next now vendor

  -- `vendor[k] = […]`
  abbrev put_list : String → List (Value F) → Fields F → Fields F
  put_list k vs = put k (arr (of_items vs))

  -- The pins that were active, else those before, if they are a list.
  abbrev pub previous_pins : List (Value F) → Fields F → List (Value F)
  previous_pins [] vendor = or_default (pins_of (get "previous_active" vendor)) []
  previous_pins (pin ∷ pins) vendor = pin ∷ pins

  -- What the cut-over writes, once the valid pins are known.
  abbrev pub cut_over :
      List (Value F) → List (Value F) → List (Value F) → List (Value F) → Fields F → Fields F
  cut_over active next_pins active_valid next_valid vendor =
      let kept =
        if length active_valid == length active
        then vendor
        else put_list "active" active_valid vendor in
      if is_empty active_valid && not (is_empty next_valid)
      then put_list "next" (keep (λ pin. not (any_of (vo.eq pin) next_valid)) next_pins) (
          put_list "active" next_valid
            (put_list "previous_active" (previous_pins active kept) kept))
      else kept

  abbrev pub cut_over_lists :
      F → Option (List (Value F)) → Option (List (Value F)) → Call (Fields F) (Unit {0})
  cut_over_lists now (some active) (some next_pins) = do
    active_valid ← valid_pins now active
    next_valid ← valid_pins now next_pins
    modify (cut_over active next_pins active_valid next_valid)
  cut_over_lists now _ _ = pure tt

  abbrev pub auto_cutover : F → Call (Fields F) (Unit {0})
  auto_cutover now = do
    vendor ← get_state
    cut_over_lists now (pins_of (get "active" vendor)) (pins_of (get "next" vendor))

  -- The steps of `assert_vendor_fingerprint_allowed` on the vendor's entry. The clock is read
  -- twice: `now`, then `later`, in the cut-over.
  abbrev pub check_allowed : F → String → Call (Fields F) (Unit {0})
  check_allowed now fingerprint vendor =
      (collect_allowed_fingerprints now vendor >>= check_pinned fingerprint) vendor

  abbrev pub check_unrevoked : F → F → String → List (Value F) → Call (Fields F) (Unit {0})
  check_unrevoked now later fingerprint revoked =
      raise_if (has_text revoked fingerprint)
        (adapter_execution_error "revoked vendor certificate fingerprint")
      >> (auto_cutover later >> check_allowed now fingerprint)

  abbrev pub check_fingerprint : F → F → String → Call (Fields F) (Unit {0})
  check_fingerprint now later fingerprint vendor =
      (set_of (get "revoked" vendor) >>= check_unrevoked now later fingerprint) vendor

module _ {F : Type 0} where
  -- A call on the entry of a vendor, which is a part of the whole dictionary.
  abbrev pub on_entry :
      {A : Type 0} → String → Fields F → Call (Fields F) A → Fields F → Call (Fields F) A
  on_entry vendor_id vendors op vendor data_ =
      let (r, vendor') = op vendor in (r, with_vendor vendor_id vendor' vendors data_)

  -- The same, where a vendor without an entry is refused.
  abbrev pub on_known :
      {A : Type 0} → String → Fields F → Call (Fields F) A → Option (Fields F) → Call (Fields F) A
  on_known vendor_id vendors op none =
      fail (adapter_execution_error ("unknown vendor id for cert attestation: " <> vendor_id))
  on_known vendor_id vendors op (some vendor) = on_entry vendor_id vendors op vendor

  abbrev pub on_vendor : {A : Type 0} → String → Call (Fields F) A → Call (Fields F) A
  on_vendor vendor_id op data_ =
      (dict_or (get "vendors" data_) end >>= λ vendors.
      on_known vendor_id vendors op (as_obj (get vendor_id vendors)))
        data_

  -- The entry that `setdefault` makes.
  abbrev pub new_pinset : Fields F
  new_pinset =
      field "allowed" (arr nil)
        (field "active" (arr nil) (field "next" (arr nil) (field "revoked" (arr nil) end)))

  -- A call on the entry after the two `setdefault`s.
  abbrev pub on_default : String → Call (Fields F) (Unit {0}) → Call (Fields F) (Unit {0})
  on_default vendor_id op data_ =
      (dict_or (get "vendors" data_) end >>= λ vendors.
      modify (put "vendors" (obj vendors))
      >> (dict_or (get vendor_id vendors) new_pinset >>= on_entry vendor_id vendors op))
        data_

  -- `xs = vendor.setdefault(k, [])`, then `xs.append(v)` unless the test holds of the list
  abbrev pub append_unless : String → (List (Value F) → Bool) → Value F → Call (Fields F) (Unit {0})
  append_unless k test v vendor =
      (list_or (get k vendor) [] >>= λ vs.
      modify (put k (arr (of_items (if test vs then vs else vs ++ (v ∷ []))))))
        vendor

  -- The same with a fingerprint in a list of texts.
  abbrev pub append_fingerprint : String → String → Call (Fields F) (Unit {0})
  append_fingerprint k fingerprint vendor =
      (append_text fingerprint (get k vendor) >>= λ v. modify (put k v)) vendor

  -- `any(isinstance(pin, dict) and pin.get("fingerprint") == fingerprint for pin in pins)`
  abbrev is_pin_of : String → Value F → Bool
  is_pin_of fingerprint (obj pin) = is_equal (as_str (get "fingerprint" pin)) fingerprint
  is_pin_of fingerprint pin = false

  abbrev pub pins_fingerprint : String → List (Value F) → Bool
  pins_fingerprint fingerprint = any_of (is_pin_of fingerprint)

  abbrev pub pin_value : String → Value F → Value F → Value F
  pin_value fingerprint not_before not_after = obj (
      field "fingerprint" (str fingerprint)
        (field "not_before" not_before (field "not_after" not_after end)))

  unfoldable pub rotate_vendor_pin : String → String → Call (Fields F) (Unit {0})
  rotate_vendor_pin vendor_id fingerprint = on_default vendor_id (
      append_fingerprint "allowed" fingerprint
      >> append_unless "active" (pins_fingerprint fingerprint) (pin_value fingerprint null null))

  abbrev pub time_or_null : Option F → Value F
  time_or_null none = null
  time_or_null (some t) = float t

  unfoldable pub schedule_next_pin : String → String → F → Option F → Call (Fields F) (Unit {0})
  schedule_next_pin vendor_id fingerprint activate_at expires_at = on_default vendor_id (
      append_unless "next" (pins_fingerprint fingerprint)
        (pin_value fingerprint (float activate_at) (time_or_null expires_at)))

  unfoldable pub revoke_vendor_pin : String → String → Call (Fields F) (Unit {0})
  revoke_vendor_pin vendor_id fingerprint =
      on_default vendor_id (append_fingerprint "revoked" fingerprint)

  abbrev put_back : List (Value F) → Fields F → Fields F
  put_back previous_active vendor =
      let current_active = or_default (pins_of (get "active" vendor)) [] in
      let next_pins = or_default (pins_of (get "next" vendor)) [] in
      put "previous_active" (arr nil) (
        put "active" (arr (of_items previous_active))
          (put "next" (arr (of_items (current_active ++ next_pins))) vendor))

  abbrev pub roll_back : Option (List (Value F)) → Call (Fields F) (Unit {0})
  roll_back (some (pin ∷ pins)) = modify (put_back (pin ∷ pins))
  roll_back _ = fail (adapter_execution_error "no previous active pinset available for rollback")

  abbrev pub roll_back_entry : Call (Fields F) (Unit {0})
  roll_back_entry vendor = roll_back (pins_of (get "previous_active" vendor)) vendor

  unfoldable pub rollback_to_previous_active : String → Call (Fields F) (Unit {0})
  rollback_to_previous_active vendor_id = on_vendor vendor_id roll_back_entry

module _ {F : Type 0} ⦃fl : FloatOps F⦄ ⦃vo : ValueOps F⦄ where
  unfoldable pub assert_vendor_fingerprint_allowed :
      F → F → String → String → Call (Fields F) (Unit {0})
  assert_vendor_fingerprint_allowed now later vendor_id fingerprint =
      on_vendor vendor_id (check_fingerprint now later fingerprint)
