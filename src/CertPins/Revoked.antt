-- ===== src/CertPins/Revoked.antt =====
-- Revocation in the pinset (src/autonomy/cert_pins.py), and runs of its methods.
use autonomous_vehicle_llm.Base.{
  String, ◌≡◌, refl, Option, none, some, List, [], ◌∷◌, arith, ◌≢◌, inl, inr, nat_eq, ok, Call,
  ◌>>=◌, ◌>>◌, modify, string_eq,
}
use autonomous_vehicle_llm.Float.{FloatOps}
use autonomous_vehicle_llm.Json.{end, as_obj, Value, Fields, str, null, float, obj, get, put}
use autonomous_vehicle_llm.Values.{ValueOps, dict_or}
use autonomous_vehicle_llm.Keyring.Entry.{
  HoldsNoText, IsRevoked, with_vendor-IsRevoked, with_vendor-Lists, get-put_self, entry_Lists,
}
use autonomous_vehicle_llm.CertPins.{
  pins_fingerprint, pin_value, time_or_null, on_known, append_unless, append_fingerprint, on_entry,
  on_vendor, on_default, new_pinset, rotate_vendor_pin, schedule_next_pin, revoke_vendor_pin,
  roll_back_entry, rollback_to_previous_active, assert_vendor_fingerprint_allowed,
  check_fingerprint,
}
use autonomous_vehicle_llm.CertPins.Entry.{
  Retains, then-Retains, append_unless-Retains, append_fingerprint-Retains, append_revoked-Retains,
  append_revoked-Lists, roll_back_entry-Retains, check_fingerprint-refuses,
  check_fingerprint-Retains,
}

module _ {F : Type 0} where
  -- A call on the entry of a vendor, whichever, keeps what the call on an entry retains.
  module _ (data_ : Fields F) (vendor_id key_id other_id : String) (op : Call (Fields F) (Unit {0}))
      (h : Retains key_id op) (r : IsRevoked data_ vendor_id key_id) where
    on_default-IsRevoked : IsRevoked (on_default other_id op data_).1 vendor_id key_id
    on_default-IsRevoked = rw r.loaded (at (get other_id r.vendors) refl)
      where
        data_' : Fields F
        data_' = put "vendors" (obj r.vendors) data_

        r' : IsRevoked data_' vendor_id key_id
        r' = record {
          vendors = r.vendors;
          vendor = r.vendor;
          loaded = get-put_self "vendors" (obj r.vendors) data_;
          known = r.known;
          lists = r.lists;
        }

        at :
            (o : Option (Value F))
            → get other_id r.vendors ≡ o
            → IsRevoked
                ((dict_or o new_pinset >>= on_entry other_id r.vendors op) data_').1
                vendor_id
                key_id
        at none e =
            with_vendor-IsRevoked data_' r.vendors (op new_pinset).1 vendor_id key_id other_id r'
              r'.loaded
              (λ s.
                h new_pinset
                  (entry_Lists data_ vendor_id key_id other_id r none e s new_pinset (inr refl)))
        at (some (obj d)) e =
            with_vendor-IsRevoked data_' r.vendors (op d).1 vendor_id key_id other_id r' r'.loaded
              (λ s.
                h d (entry_Lists data_ vendor_id key_id other_id r (some (obj d)) e s d (inl refl)))
        at (some v) e = r'

    on_vendor-IsRevoked : IsRevoked (on_vendor other_id op data_).1 vendor_id key_id
    on_vendor-IsRevoked = rw r.loaded (at (get other_id r.vendors) refl)
      where
        at :
            (o : Option (Value F))
            → get other_id r.vendors ≡ o
            → IsRevoked (on_known other_id r.vendors op (as_obj o) data_).1 vendor_id key_id
        at (some (obj d)) e =
            with_vendor-IsRevoked data_ r.vendors (op d).1 vendor_id key_id other_id r r.loaded
              (λ s.
                h d (entry_Lists data_ vendor_id key_id other_id r (some (obj d)) e s d (inl refl)))
        at none e = r
        at (some v) e = r

  -- A revocation that returned has listed its fingerprint.
  on_entry-IsRevoked :
      (data_ vendors vendor : Fields F) (vendor_id s : String)
      → ((t : String) → get "revoked" vendor ≢ some (str t))
      → (on_entry vendor_id vendors (append_fingerprint "revoked" s) vendor data_).0 ≡ ok tt
      → IsRevoked
          (on_entry vendor_id vendors (append_fingerprint "revoked" s) vendor data_).1
          vendor_id
          s
  on_entry-IsRevoked data_ vendors vendor vendor_id s n h =
      with_vendor-Lists data_ vendors _ vendor_id s (append_revoked-Lists s vendor n h)

  revoke_vendor_pin-IsRevoked :
      (data_ : Fields F) (vendor_id s : String)
      → HoldsNoText data_ vendor_id
      → (revoke_vendor_pin vendor_id s data_).0 ≡ ok tt
      → IsRevoked (revoke_vendor_pin vendor_id s data_).1 vendor_id s
  unfolding revoke_vendor_pin
  revoke_vendor_pin-IsRevoked data_ vendor_id s n = at (get "vendors" data_) refl
    where
      op : Call (Fields F) (Unit {0})
      op = append_fingerprint "revoked" s

      entry :
          (vendors : Fields F) (o : Option (Value F)) (e : Fields F)
          → ((vendor : Fields F) (t : String)
              → o ≡ some (obj vendor)
              → get "revoked" vendor ≢ some (str t))
          → ((dict_or o new_pinset >>= on_entry vendor_id vendors op) e).0 ≡ ok tt
          → IsRevoked ((dict_or o new_pinset >>= on_entry vendor_id vendors op) e).1 vendor_id s
      entry vendors none e k h =
          on_entry-IsRevoked e vendors new_pinset vendor_id s (λ t f. absurd (ground (arith, f))) h
      entry vendors (some (obj d)) e k h =
          on_entry-IsRevoked e vendors d vendor_id s (λ t. k d t refl) h
      entry vendors (some v) e k h = absurd (ground arith)

      whole : Option (Value F) → Call (Fields F) (Unit {0})
      whole o = dict_or o end >>= λ vendors.
          modify (put "vendors" (obj vendors))
          >> (dict_or (get vendor_id vendors) new_pinset >>= on_entry vendor_id vendors op)

      at :
          (o : Option (Value F))
          → get "vendors" data_ ≡ o
          → (whole o data_).0 ≡ ok tt
          → IsRevoked (whole o data_).1 vendor_id s
      at none e h =
          entry end none (put "vendors" (obj end) data_) (λ d t f. absurd (ground (arith, f))) h
      at (some (obj d)) e h =
          entry d (get vendor_id d) (put "vendors" (obj d) data_)
            (λ vendor t f. n.at d vendor e f t) h
      at (some v) e h = absurd (ground arith)

-- A call of a method of the pinset, with its arguments and the readings of the clock.
pub data PinCall (F : Type 0) : Type 0 where
  rotate : String → String → PinCall F
  schedule : String → String → F → Option F → PinCall F
  revoke : String → String → PinCall F
  rollback : String → PinCall F
  attest : F → F → String → String → PinCall F

module _ {F : Type 0} ⦃fl : FloatOps F⦄ ⦃vo : ValueOps F⦄ where
  abbrev pub pin_call : PinCall F → Call (Fields F) (Unit {0})
  pin_call (rotate vendor_id fingerprint) = rotate_vendor_pin vendor_id fingerprint
  pin_call (schedule vendor_id fingerprint activate_at expires_at) =
      schedule_next_pin vendor_id fingerprint activate_at expires_at
  pin_call (revoke vendor_id fingerprint) = revoke_vendor_pin vendor_id fingerprint
  pin_call (rollback vendor_id) = rollback_to_previous_active vendor_id
  pin_call (attest now later vendor_id fingerprint) =
      assert_vendor_fingerprint_allowed now later vendor_id fingerprint

  -- The pinset after a list of calls, each of which may raise.
  abbrev pub after_calls : List (PinCall F) → Fields F → Fields F
  after_calls [] data_ = data_
  after_calls (c ∷ calls) data_ = after_calls calls (pin_call c data_).1

  pin_call-IsRevoked :
      (c : PinCall F) (data_ : Fields F) (vendor_id s : String)
      → IsRevoked data_ vendor_id s
      → IsRevoked (pin_call c data_).1 vendor_id s
  unfolding rotate_vendor_pin schedule_next_pin revoke_vendor_pin rollback_to_previous_active
      assert_vendor_fingerprint_allowed
  pin_call-IsRevoked (rotate v f) data_ vendor_id s r =
      on_default-IsRevoked data_ vendor_id s v _
        (then-Retains s (append_fingerprint "allowed" f)
          (append_unless "active" (pins_fingerprint f) (pin_value f null null))
          (append_fingerprint-Retains s "allowed" f refl)
          (append_unless-Retains s "active" (pins_fingerprint f) (pin_value f null null) refl))
        r
  pin_call-IsRevoked (schedule v f a e) data_ vendor_id s r =
      on_default-IsRevoked data_ vendor_id s v _
        (append_unless-Retains s "next" (pins_fingerprint f)
          (pin_value f (float a) (time_or_null e)) refl)
        r
  pin_call-IsRevoked (revoke v f) data_ vendor_id s r =
      on_default-IsRevoked data_ vendor_id s v _ (append_revoked-Retains s f) r
  pin_call-IsRevoked (rollback v) data_ vendor_id s r =
      on_vendor-IsRevoked data_ vendor_id s v roll_back_entry (roll_back_entry-Retains s) r
  pin_call-IsRevoked (attest n l v f) data_ vendor_id s r =
      on_vendor-IsRevoked data_ vendor_id s v (check_fingerprint n l f)
        (check_fingerprint-Retains s n l f) r

  after_calls-IsRevoked :
      (calls : List (PinCall F)) (data_ : Fields F) (vendor_id s : String)
      → IsRevoked data_ vendor_id s
      → IsRevoked (after_calls calls data_) vendor_id s
  after_calls-IsRevoked [] data_ vendor_id s r = r
  after_calls-IsRevoked (c ∷ calls) data_ vendor_id s r =
      after_calls-IsRevoked calls _ vendor_id s (pin_call-IsRevoked c data_ vendor_id s r)

  assert-IsRevoked :
      (now later : F) (data_ : Fields F) (vendor_id s : String)
      → IsRevoked data_ vendor_id s
      → (assert_vendor_fingerprint_allowed now later vendor_id s data_).0 ≢ ok tt
  unfolding assert_vendor_fingerprint_allowed
  assert-IsRevoked now later data_ vendor_id s r =
      rw (r.loaded, r.known) (check_fingerprint-refuses now later s r.vendor r.lists).0

  -- When `revoke_vendor_pin` has returned for a fingerprint of a vendor, in whose entry "revoked" was
  -- not a text,
  -- `assert_vendor_fingerprint_allowed` never returns for the two, at any time, whatever calls of
  -- the pinset come in between, rotations, schedulings and rollbacks of the same fingerprint
  -- included.
  pub assert-revoke_vendor_pin :
      (now later : F) (data_ : Fields F) (vendor_id s : String) (calls : List (PinCall F))
      → HoldsNoText data_ vendor_id
      → (revoke_vendor_pin vendor_id s data_).0 ≡ ok tt
      → (assert_vendor_fingerprint_allowed now later vendor_id s
          (after_calls calls (revoke_vendor_pin vendor_id s data_).1)).0
        ≢ ok tt
  assert-revoke_vendor_pin now later data_ vendor_id s calls n h =
      assert-IsRevoked now later _ vendor_id s (
        after_calls-IsRevoked calls _ vendor_id s
          (revoke_vendor_pin-IsRevoked data_ vendor_id s n h))
