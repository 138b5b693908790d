-- ===== src/Keyring/Laws.antt =====
-- Revocation in the keyring (src/autonomy/keyring.py), and runs of its methods.
use autonomous_vehicle_llm.Base.{
  ◌≢◌, String, ◌≡◌, refl, sym, subst, Option, none, some, List, [], ◌∷◌, arith, string_eq, inl, inr,
  ok, raise, Result, ◌>>=◌, modify,
}
use autonomous_vehicle_llm.Json.{Value, Fields, str, obj, end, get, put}
use autonomous_vehicle_llm.Values.{append_text}
use autonomous_vehicle_llm.Values.Listed.{
  ListsText, append_text-IsListed, append_text-keeps, append_text-state,
}
use autonomous_vehicle_llm.Keyring.{
  KeyDescriptor, KeyDescriptor, get_key_descriptor, rotate_entry, rotate_vendors, revoke_entry,
  revoke_vendors, with_vendor, deactivate, new_vendor, rotate_vendor_key, revoke_vendor_key,
}
use autonomous_vehicle_llm.Keyring.Entry.{
  Lists, HoldsNoText, IsRevoked, with_vendor-IsRevoked, get_key_descriptor-IsRevoked, Lists-put,
  entry_Lists, deactivate-Lists, with_vendor-Lists, revoked-Lists,
}

module _ {F : Type 0} where
  module _ (data_ : Fields F) (vendor_id key_id other_id : String)
      (r : IsRevoked data_ vendor_id key_id) where
    rotate_entry-IsRevoked :
        (new_id algorithm public_key : String) (vendor : Fields F) (k : Option (Value F))
        → get "keys" vendor ≡ k
        → (other_id ≡ vendor_id → Lists vendor key_id)
        → IsRevoked
            (rotate_entry other_id new_id algorithm public_key r.vendors vendor data_).1
            vendor_id
            key_id
    rotate_entry-IsRevoked new_id algorithm public_key vendor none e l = rw e (
        with_vendor-IsRevoked data_ r.vendors _ vendor_id key_id other_id r r.loaded (λ s.
          Lists-put _ key_id "active_kid" _ refl (Lists-put vendor key_id "keys" _ refl (l s))))
    rotate_entry-IsRevoked new_id algorithm public_key vendor (some (obj keys)) e l = rw e (
        with_vendor-IsRevoked data_ r.vendors _ vendor_id key_id other_id r r.loaded (λ s.
          Lists-put _ key_id "active_kid" _ refl (Lists-put vendor key_id "keys" _ refl (l s))))
    rotate_entry-IsRevoked new_id algorithm public_key vendor (some v) e l = rw e r

    rotate_vendors-IsRevoked :
        (new_id algorithm public_key : String) (o : Option (Value F))
        → get other_id r.vendors ≡ o
        → IsRevoked
            (rotate_vendors other_id new_id algorithm public_key r.vendors data_).1
            vendor_id
            key_id
    rotate_vendors-IsRevoked new_id algorithm public_key none e = rw e (
        rotate_entry-IsRevoked new_id algorithm public_key (new_vendor new_id) _ refl
          (λ s. entry_Lists data_ vendor_id key_id other_id r none e s _ (inr refl)))
    rotate_vendors-IsRevoked new_id algorithm public_key (some (obj d)) e = rw e (
        rotate_entry-IsRevoked new_id algorithm public_key d _ refl
          (λ s. entry_Lists data_ vendor_id key_id other_id r (some (obj d)) e s d (inl refl)))
    rotate_vendors-IsRevoked new_id algorithm public_key (some v) e = rw e r

    -- The entry with the list that an append has left, or the state in which it raised.
    written :
        (new_id : String) (vendor : Fields F) (x : Result (Value F) × Fields F)
        → x.1 ≡ data_
        → (other_id ≡ vendor_id → ListsText key_id x)
        → IsRevoked
            (((λ (u : Fields F). x) >>= λ revoked.
                modify (
                  with_vendor other_id
                    (deactivate new_id (put "revoked" revoked vendor))
                    r.vendors))
              data_).1
            vendor_id
            key_id
    written new_id vendor (ok v, t) e l =
        subst
          (λ (u : Fields F).
            IsRevoked
              (with_vendor other_id (deactivate new_id (put "revoked" v vendor)) r.vendors u)
              vendor_id key_id)
          (sym e)
          (with_vendor-IsRevoked data_ r.vendors _ vendor_id key_id other_id r r.loaded (λ s.
            deactivate-Lists key_id new_id (put "revoked" v vendor)
              (revoked-Lists vendor key_id v (l s))))
    written new_id vendor (raise x, t) e l =
        subst (λ (u : Fields F). IsRevoked u vendor_id key_id) (sym e) r

    revoke_entry-IsRevoked :
        (new_id : String) (vendor : Fields F)
        → (other_id ≡ vendor_id → Lists vendor key_id)
        → IsRevoked (revoke_entry other_id new_id r.vendors vendor data_).1 vendor_id key_id
    revoke_entry-IsRevoked new_id vendor l =
        written new_id vendor (append_text new_id (get "revoked" vendor) data_)
          (append_text-state new_id (get "revoked" vendor) data_)
          (λ s.
            subst (λ o. ListsText key_id (append_text new_id o data_)) (sym (l s).stored)
              (append_text-keeps key_id new_id (l s).revoked data_ (l s).listed))

    revoke_vendors-IsRevoked :
        (new_id : String) (o : Option (Value F))
        → get other_id r.vendors ≡ o
        → IsRevoked (revoke_vendors other_id new_id r.vendors data_).1 vendor_id key_id
    revoke_vendors-IsRevoked new_id none e = rw e (
        revoke_entry-IsRevoked new_id (new_vendor "")
          (λ s. entry_Lists data_ vendor_id key_id other_id r none e s _ (inr refl)))
    revoke_vendors-IsRevoked new_id (some (obj d)) e = rw e (
        revoke_entry-IsRevoked new_id d
          (λ s. entry_Lists data_ vendor_id key_id other_id r (some (obj d)) e s d (inl refl)))
    revoke_vendors-IsRevoked new_id (some v) e = rw e r

-- A call of one of the two methods that change the keyring.
pub data Change : Type 0 where
  rotate : String → String → String → String → Change
  revoke : String → String → Change

module _ {F : Type 0} where
  -- The keyring after a list of calls, each of which may raise.
  pub after : List Change → Fields F → Fields F
  after [] data_ = data_
  after (rotate vendor_id key_id algorithm public_key ∷ changes) data_ =
      after changes (rotate_vendor_key vendor_id key_id algorithm public_key data_).1
  after (revoke vendor_id key_id ∷ changes) data_ =
      after changes (revoke_vendor_key vendor_id key_id data_).1

  after-IsRevoked :
      (changes : List Change) (data_ : Fields F) (vendor_id key_id : String)
      → IsRevoked data_ vendor_id key_id
      → IsRevoked (after changes data_) vendor_id key_id
  unfolding after rotate_vendor_key revoke_vendor_key
  after-IsRevoked [] data_ vendor_id key_id r = r
  after-IsRevoked (rotate v k a p ∷ changes) data_ vendor_id key_id r =
      after-IsRevoked changes _ vendor_id key_id
        (rw r.loaded (rotate_vendors-IsRevoked data_ vendor_id key_id v r k a p _ refl))
  after-IsRevoked (revoke v k ∷ changes) data_ vendor_id key_id r =
      after-IsRevoked changes _ vendor_id key_id
        (rw r.loaded (revoke_vendors-IsRevoked data_ vendor_id key_id v r k _ refl))

module _ {F : Type 0} where
  revokes_at :
      (data_ vendors vendor : Fields F) (vendor_id key_id : String)
      (x : Result (Value F) × Fields F)
      → ListsText key_id x
      → (((λ (u : Fields F). x) >>= λ revoked.
            modify
              (with_vendor vendor_id (deactivate key_id (put "revoked" revoked vendor)) vendors))
          data_).0
        ≡ ok tt
      → IsRevoked
          (((λ (u : Fields F). x) >>= λ revoked.
              modify
                (with_vendor vendor_id (deactivate key_id (put "revoked" revoked vendor)) vendors))
            data_).1
          vendor_id
          key_id
  revokes_at data_ vendors vendor vendor_id key_id (ok v, t) l h =
      with_vendor-Lists t vendors _ vendor_id key_id
        (deactivate-Lists key_id key_id (put "revoked" v vendor) (revoked-Lists vendor key_id v l))
  revokes_at data_ vendors vendor vendor_id key_id (raise x, t) l h = absurd (ground arith)

  revoke_entry-revokes :
      (data_ vendors vendor : Fields F) (vendor_id key_id : String)
      → ((t : String) → get "revoked" vendor ≢ some (str t))
      → (revoke_entry vendor_id key_id vendors vendor data_).0 ≡ ok tt
      → IsRevoked (revoke_entry vendor_id key_id vendors vendor data_).1 vendor_id key_id
  revoke_entry-revokes data_ vendors vendor vendor_id key_id n =
      revokes_at data_ vendors vendor vendor_id key_id
        (append_text key_id (get "revoked" vendor) data_)
        (append_text-IsListed key_id (get "revoked" vendor) data_ n)

  revoke_vendors-revokes :
      (data_ vendors : Fields F) (vendor_id key_id : String) (o : Option (Value F))
      → get vendor_id vendors ≡ o
      → ((vendor : Fields F) (t : String)
          → o ≡ some (obj vendor)
          → get "revoked" vendor ≢ some (str t))
      → (revoke_vendors vendor_id key_id vendors data_).0 ≡ ok tt
      → IsRevoked (revoke_vendors vendor_id key_id vendors data_).1 vendor_id key_id
  revoke_vendors-revokes data_ vendors vendor_id key_id none e n = rw e (
      revoke_entry-revokes data_ vendors (new_vendor "") vendor_id key_id
        (λ t h. absurd (ground (arith, h))))
  revoke_vendors-revokes data_ vendors vendor_id key_id (some (obj d)) e n =
      rw e (revoke_entry-revokes data_ vendors d vendor_id key_id (λ t. n d t refl))
  revoke_vendors-revokes data_ vendors vendor_id key_id (some v) e n =
      rw e (λ h. absurd (ground arith))

  revoke_vendor_key-IsRevoked :
      (data_ : Fields F) (vendor_id key_id : String) (o : Option (Value F))
      → get "vendors" data_ ≡ o
      → HoldsNoText data_ vendor_id
      → (revoke_vendor_key vendor_id key_id data_).0 ≡ ok tt
      → IsRevoked (revoke_vendor_key vendor_id key_id data_).1 vendor_id key_id
  unfolding revoke_vendor_key
  revoke_vendor_key-IsRevoked data_ vendor_id key_id none e n = rw e (
      revoke_vendors-revokes data_ end vendor_id key_id none refl
        (λ d t h. absurd (ground (arith, h))))
  revoke_vendor_key-IsRevoked data_ vendor_id key_id (some (obj d)) e n =
      rw e
        (revoke_vendors-revokes data_ d vendor_id key_id _ refl (λ vendor t h. n.at d vendor e h t))
  revoke_vendor_key-IsRevoked data_ vendor_id key_id (some v) e n =
      rw e (λ h. absurd (ground arith))

  -- When `revoke_vendor_key` has returned for a key of a vendor, in whose entry "revoked" was not a
  -- text, `get_key_descriptor` never returns
  -- for the two, whatever calls of `rotate_vendor_key` and `revoke_vendor_key` come in between, for
  -- this vendor or another, also when they write this key anew or raise.
  pub get_key_descriptor-revoke_vendor_key :
      {S : Type 0} (data_ : Fields F) (vendor_id key_id : String) (changes : List Change) (s : S)
      (k : KeyDescriptor)
      → HoldsNoText data_ vendor_id
      → (revoke_vendor_key vendor_id key_id data_).0 ≡ ok tt
      → (get_key_descriptor
          (after changes (revoke_vendor_key vendor_id key_id data_).1)
          vendor_id
          key_id
          s).0
        ≢ ok k
  get_key_descriptor-revoke_vendor_key data_ vendor_id key_id changes s k n h =
      get_key_descriptor-IsRevoked _ vendor_id key_id s
        (after-IsRevoked changes _ vendor_id key_id
          (revoke_vendor_key-IsRevoked data_ vendor_id key_id _ refl n h))
        k
