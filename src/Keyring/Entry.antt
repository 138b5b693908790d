-- ===== src/Keyring/Entry.antt =====
-- What it is for a vendor's entry (src/autonomy/keyring.py) to list a key as revoked.
use autonomous_vehicle_llm.Base.{
  ◌≢◌, String, Bool, true, false, ◌≡◌, refl, ap, sym, subst, ◌⊎◌, ◌∙◌, Option, none, some, List,
  arith, ◌==◌, string_eq, if◌then◌else◌, eq_iff, eq_refl, Bool-cases, inl, inr, ok, ◌<>◌, Result,
  Call, ◌>>◌, raise_if, adapter_execution_error,
}
use autonomous_vehicle_llm.Json.{Value, Fields, str, obj, get, as_str, put, get-put}
use autonomous_vehicle_llm.Values.{has_text}
use autonomous_vehicle_llm.Values.Listed.{IsListed, set_of-IsListed}
use autonomous_vehicle_llm.Keyring.{
  KeyDescriptor, get_key_descriptor, with_vendor, deactivate, read_entry, entry_of,
}

module _ {F : Type 0} where
  -- The entry of a vendor lists a key as revoked.
  pub record Lists (vendor : Fields F) (key_id : String) : Type 0 where
    pub revoked : Value F
    pub stored : get "revoked" vendor ≡ some revoked
    pub listed : IsListed revoked key_id

  -- The entry of a vendor, if there is one, has no text under "revoked".
  pub record HoldsNoText (data_ : Fields F) (vendor_id : String) : Type 0 where
    pub at :
        (vendors vendor : Fields F)
        → get "vendors" data_ ≡ some (obj vendors)
        → get vendor_id vendors ≡ some (obj vendor)
        → (t : String) → get "revoked" vendor ≢ some (str t)

  pub record IsRevoked (data_ : Fields F) (vendor_id : String) (key_id : String) : Type 0 where
    pub vendors : Fields F
    pub vendor : Fields F
    pub loaded : get "vendors" data_ ≡ some (obj vendors)
    pub known : get vendor_id vendors ≡ some (obj vendor)
    pub lists : Lists vendor key_id

  pub get-put_self : (k : String) (v : Value F) (d : Fields F) → get k (put k v d) ≡ some v
  get-put_self k v d = rw (get-put, eq_refl)

  pub with_vendor-IsRevoked :
      (data_ vendors vendor' : Fields F) (vendor_id key_id other_id : String)
      → (r : IsRevoked data_ vendor_id key_id) → get "vendors" data_ ≡ some (obj vendors)
      → ((e : other_id ≡ vendor_id) → Lists vendor' key_id)
      → IsRevoked (with_vendor other_id vendor' vendors data_) vendor_id key_id
  with_vendor-IsRevoked data_ vendors vendor' vendor_id key_id other_id r e k =
      elim (Bool-cases (other_id == vendor_id)) [
        | inl same ↦ record {
          vendors = put other_id (obj vendor') vendors;
          vendor = vendor';
          loaded = get-put_self "vendors" (obj (put other_id (obj vendor') vendors)) data_;
          known = rw (get-put, same) refl;
          lists = k ((eq_iff other_id vendor_id).0 same);
        }
        | inr differ ↦ record {
          vendors = put other_id (obj vendor') vendors;
          vendor = r.vendor;
          loaded = get-put_self "vendors" (obj (put other_id (obj vendor') vendors)) data_;
          known = rw (get-put, differ) (ground (arith, r.known, r.loaded, e));
          lists = r.lists;
        }
      ]

  -- A key that is listed as revoked is refused.
  pub get_key_descriptor-IsRevoked :
      {S : Type 0} (data_ : Fields F) (vendor_id key_id : String) (s : S)
      → IsRevoked data_ vendor_id key_id
      → (k : KeyDescriptor) → (get_key_descriptor data_ vendor_id key_id s).0 ≢ ok k
  unfolding get_key_descriptor
  get_key_descriptor-IsRevoked {S} data_ vendor_id key_id s r k =
      rw (r.loaded, r.known, r.lists.stored)
        (set_of-IsListed (λ (x : Result KeyDescriptor × S). x.0 ≢ ok k) r.lists.revoked key_id rest
          s r.lists.listed (λ h. absurd (ground arith)) refused)
    where
      rest : List (Value F) → Call S KeyDescriptor
      rest revoked =
          raise_if (has_text revoked key_id)
            (adapter_execution_error ("revoked ack key id: " <> key_id))
          >> read_entry key_id (entry_of key_id (get "keys" r.vendor))

      refused : (vs : List (Value F)) → has_text vs key_id ≡ true → (rest vs s).0 ≢ ok k
      refused vs h = rw h (λ e. absurd (ground arith))

  -- Writing another field of a vendor's entry leaves its list alone.
  pub Lists-put :
      (vendor : Fields F) (key_id name : String) (v : Value F)
      → (name == "revoked") ≡ false
      → Lists vendor key_id
      → Lists (put name v vendor) key_id
  Lists-put vendor key_id name v h l = record {
    revoked = l.revoked;
    stored = rw (get-put, h) l.stored;
    listed = l.listed;
  }

  -- The entry that `d.get(vendor_id)` finds is the entry of a revoked key.
  pub entry_Lists :
      (data_ : Fields F) (vendor_id key_id other_id : String) (r : IsRevoked data_ vendor_id key_id)
      (o : Option (Value F))
      → get other_id r.vendors ≡ o
      → other_id ≡ vendor_id
      → (d : Fields F) → (o ≡ some (obj d)) ⊎ (o ≡ none)
      → Lists d key_id
  entry_Lists data_ vendor_id key_id other_id r o found e d (inl f) =
      let same : some (obj r.vendor) ≡ some (obj d) =
        sym r.known ∙ ap (λ i. get i r.vendors) (sym e) ∙ found ∙ f in
      subst (λ v. Lists v key_id) (ground arith) r.lists
  entry_Lists data_ vendor_id key_id other_id r o found e d (inr f) =
      let absent : some (obj r.vendor) ≡ none =
        sym r.known ∙ ap (λ i. get i r.vendors) (sym e) ∙ found ∙ f in
      absurd (ground arith)

  pub deactivate-Lists :
      (key_id new_id : String) (vendor : Fields F)
      → Lists vendor key_id
      → Lists (deactivate new_id vendor) key_id
  deactivate-Lists key_id new_id vendor l = go (as_str (get "active_kid" vendor))
    where
      pick : (b : Bool) → Lists (if b then put "active_kid" (str "") vendor else vendor) key_id
      pick true = Lists-put vendor key_id "active_kid" (str "") refl l
      pick false = l

      go :
          (o : Option String)
          → Lists
              (elim o [
                | none ↦ vendor
                | some kid ↦ if kid == new_id then put "active_kid" (str "") vendor else vendor
              ])
              key_id
      go none = l
      go (some kid) = pick (kid == new_id)

  pub with_vendor-Lists :
      (data_ vendors vendor : Fields F) (vendor_id key_id : String)
      → Lists vendor key_id
      → IsRevoked (with_vendor vendor_id vendor vendors data_) vendor_id key_id
  with_vendor-Lists data_ vendors vendor vendor_id key_id l = record {
    vendors = put vendor_id (obj vendor) vendors;
    vendor = vendor;
    loaded = get-put_self "vendors" (obj (put vendor_id (obj vendor) vendors)) data_;
    known = get-put_self vendor_id (obj vendor) vendors;
    lists = l;
  }

  pub revoked-Lists :
      (vendor : Fields F) (key_id : String) (v : Value F)
      → IsListed v key_id
      → Lists (put "revoked" v vendor) key_id
  revoked-Lists vendor key_id v l = record {
    revoked = v;
    stored = get-put_self "revoked" v vendor;
    listed = l;
  }
