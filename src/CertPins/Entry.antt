-- ===== src/CertPins/Entry.antt =====
-- The calls on a vendor's entry (src/autonomy/cert_pins.py) and its list of revoked fingerprints.
use autonomous_vehicle_llm.Base.{
  String, sym, subst, Bool, true, false, not, ◌≡◌, refl, Option, none, some, List, [], ◌∷◌, ◌++◌,
  arith, ◌≢◌, inl, inr, ◌&&◌, length, nat_eq, keep, any_of, ◌⊎◌, raise_if, or_default, Result, ok,
  raise, Call, ◌>>=◌, ◌>>◌, modify, adapter_execution_error, if◌then◌else◌, exception, ◌==◌,
  string_eq,
}
use autonomous_vehicle_llm.Base.Post.{bind-keeps, raise_if-keeps}
use autonomous_vehicle_llm.Float.{FloatOps}
use autonomous_vehicle_llm.Json.{
  Value, Fields, Items, str, null, bool, int, float, arr, obj, get, put, items, of_items,
}
use autonomous_vehicle_llm.Values.{set_of, ValueOps, has_text, list_or, append_text}
use autonomous_vehicle_llm.Values.Listed.{
  ListsText, append_text-IsListed, append_text-keeps, append_text-state, set_of-IsListed,
}
use autonomous_vehicle_llm.Keyring.Entry.{Lists, Lists-put, revoked-Lists}
use autonomous_vehicle_llm.CertPins.{
  is_empty, previous_pins, auto_cutover, cut_over_lists, cut_over, check_allowed, check_pinned,
  check_unrevoked, unless_none, collect_next, collect_allowed_fingerprints, valid_fingerprints,
  pins_of, roll_back, valid_pins, append_unless, append_fingerprint, roll_back_entry,
  check_fingerprint,
}
use autonomous_vehicle_llm.CertPins.Reading.{each_valid-keeps}

-- A call on an entry that leaves a revoked fingerprint in the list.
abbrev pub Retains : {F : Type 0} → String → Call (Fields F) (Unit {0}) → Type 0
Retains {F = F} fingerprint op = (v : Fields F) → Lists v fingerprint → Lists (op v).1 fingerprint

module _ {F : Type 0} where
  pub then-Retains :
      (s : String) (a b : Call (Fields F) (Unit {0}))
      → Retains s a
      → Retains s b
      → Retains s (a >> b)
  then-Retains s a b p q v l = at (a v) (p v l)
    where
      at : (r : Result (Unit {0}) × Fields F) → Lists r.1 s → Lists (((λ t. r) >> b) v).1 s
      at (ok tt, w) m = q w m
      at (raise e, w) m = m

  pub append_unless-Retains :
      (s k : String) (test : List (Value F) → Bool) (v : Value F)
      → (k == "revoked") ≡ false
      → Retains s (append_unless k test v)
  append_unless-Retains s k test v h d l = at (get k d)
    where
      at :
          (o : Option (Value F))
          → Lists
              ((list_or o [] >>= λ vs.
                  modify (put k (arr (of_items (if test vs then vs else vs ++ (v ∷ []))))))
                d).1
              s
      at none = Lists-put d s k _ h l
      at (some (arr vs)) = Lists-put d s k _ h l
      at (some null) = l
      at (some (bool b)) = l
      at (some (int n)) = l
      at (some (float x)) = l
      at (some (str t)) = l
      at (some (obj e)) = l

  -- Writing what an append has left in another field, or raising.
  put_at-Lists :
      (s k : String) (d : Fields F) (x : Result (Value F) × Fields F)
      → x.1 ≡ d
      → (k == "revoked") ≡ false
      → Lists d s
      → Lists (((λ (u : Fields F). x) >>= λ v. modify (put k v)) d).1 s
  put_at-Lists s k d (ok v, t) e h l =
      Lists-put t s k v h (subst (λ (u : Fields F). Lists u s) (sym e) l)
  put_at-Lists s k d (raise x, t) e h l = subst (λ (u : Fields F). Lists u s) (sym e) l

  pub append_fingerprint-Retains :
      (s k new : String) → (k == "revoked") ≡ false → Retains {F = F} s (append_fingerprint k new)
  append_fingerprint-Retains s k new h d l =
      put_at-Lists s k d (append_text new (get k d) d) (append_text-state new (get k d) d) h l

  -- What was listed as revoked is, when another fingerprint has been appended or that has raised.
  revoked_at-Lists :
      (s : String) (d : Fields F) (x : Result (Value F) × Fields F)
      → x.1 ≡ d
      → ListsText s x
      → Lists d s
      → Lists (((λ (u : Fields F). x) >>= λ v. modify (put "revoked" v)) d).1 s
  revoked_at-Lists s d (ok v, t) e m l = revoked-Lists t s v m
  revoked_at-Lists s d (raise x, t) e m l = subst (λ (u : Fields F). Lists u s) (sym e) l

  pub append_revoked-Retains :
      (s new : String) → Retains {F = F} s (append_fingerprint "revoked" new)
  append_revoked-Retains s new d l =
      revoked_at-Lists s d (append_text new (get "revoked" d) d)
        (append_text-state new (get "revoked" d) d)
        (subst (λ o. ListsText s (append_text new o d)) (sym l.stored)
          (append_text-keeps s new l.revoked d l.listed))
        l

  appended-Lists :
      (s : String) (d : Fields F) (x : Result (Value F) × Fields F)
      → ListsText s x
      → (((λ (u : Fields F). x) >>= λ v. modify (put "revoked" v)) d).0 ≡ ok tt
      → Lists (((λ (u : Fields F). x) >>= λ v. modify (put "revoked" v)) d).1 s
  appended-Lists s d (ok v, t) m h = revoked-Lists t s v m
  appended-Lists s d (raise x, t) m h = absurd (ground arith)

  -- Every entry in which the call succeeds lists the fingerprint afterwards, if it held no text.
  pub append_revoked-Lists :
      (s : String) (d : Fields F)
      → ((t : String) → get "revoked" d ≢ some (str t))
      → (append_fingerprint "revoked" s d).0 ≡ ok tt
      → Lists (append_fingerprint "revoked" s d).1 s
  append_revoked-Lists s d n =
      appended-Lists s d (append_text s (get "revoked" d) d)
        (append_text-IsListed s (get "revoked" d) d n)

  pub roll_back_entry-Retains : (s : String) → Retains {F = F} s roll_back_entry
  roll_back_entry-Retains s d l = at (pins_of (get "previous_active" d))
    where
      at : (o : Option (List (Value F))) → Lists (roll_back o d).1 s
      at none = l
      at (some []) = l
      at (some (pin ∷ pins)) =
          Lists-put _ s "previous_active" _ refl
            (Lists-put _ s "active" _ refl (Lists-put d s "next" _ refl l))

module _ {F : Type 0} ⦃fl : FloatOps F⦄ ⦃vo : ValueOps F⦄ where
  pub auto_cutover-Retains : (s : String) (now : F) → Retains {F = F} s (auto_cutover now)
  auto_cutover-Retains s now d l = at (pins_of (get "active" d)) (pins_of (get "next" d))
    where
      Listing : Fields F → Type 0
      Listing v = Lists v s

      put_if :
          (b : Bool) (vs : Value F) (v : Fields F)
          → Listing v
          → Listing (if b then v else put "active" vs v)
      put_if true vs v m = m
      put_if false vs v m = Lists-put v s "active" vs refl m

      moved :
          (b : Bool) (x y z : Value F) (v : Fields F)
          → Listing v
          → Listing (if b then put "next" x (put "active" y (put "previous_active" z v)) else v)
      moved true x y z v m =
          Lists-put _ s "next" x refl
            (Lists-put _ s "active" y refl (Lists-put v s "previous_active" z refl m))
      moved false x y z v m = m

      after_cut :
          (a n av nv : List (Value F)) (v : Fields F) → Listing v → Listing (cut_over a n av nv v)
      after_cut a n av nv v m =
          let kept = if length av == length a then v else put "active" (arr (of_items av)) v in
          moved (is_empty av && not (is_empty nv))
            (arr (of_items (keep (λ pin. not (any_of (vo.eq pin) nv)) n))) (arr (of_items nv))
            (arr (of_items (previous_pins a kept))) kept
            (put_if (length av == length a) (arr (of_items av)) v m)

      at : (a n : Option (List (Value F))) → Listing (cut_over_lists now a n d).1
      at none n = l
      at (some a) none = l
      at (some a) (some n) =
          bind-keeps Listing (valid_pins now a)
            (λ av. valid_pins now n >>= λ nv. modify (cut_over a n av nv)) d
            (each_valid-keeps Listing (λ s pin. pin) now a d l)
            (λ av t q.
              bind-keeps Listing (valid_pins now n) (λ nv. modify (cut_over a n av nv)) t
                (each_valid-keeps Listing (λ s pin. pin) now n t q)
                (λ nv u z. after_cut a n av nv u z))

  -- The check of a fingerprint never returns in an entry that lists it as revoked, and keeps the
  -- list.
  pub set_of-cases :
      (vs : Items F) (d : Fields F)
      → (set_of (some (arr vs)) d ≡ (ok (items vs), d))
        ⊎ (set_of (some (arr vs)) d ≡ (raise (exception "TypeError"), d))
  set_of-cases vs d = ground arith

  pub check_fingerprint-refuses :
      (now later : F) (s : String) (d : Fields F)
      → Lists d s
      → ((check_fingerprint now later s d).0 ≢ ok tt) × ((check_fingerprint now later s d).1 ≡ d)
  check_fingerprint-refuses now later s d l = rw l.stored (
      set_of-IsListed (λ (x : Result (Unit {0}) × Fields F). (x.0 ≢ ok tt) × (x.1 ≡ d)) l.revoked s
        (check_unrevoked now later s) d l.listed ((λ h. absurd (ground arith)), refl)
        (λ vs h. rw h ((λ e. absurd (ground arith)), refl)))

  pub set_of-keeps :
      (P : Fields F → Type 0) (o : Option (Value F)) (d : Fields F) → P d → P (set_of o d).1
  set_of-keeps P none d p = p
  set_of-keeps P (some (arr vs)) d p = elim (set_of-cases vs d) [ inl e ↦ rw e p | inr e ↦ rw e p ]
  set_of-keeps P (some (obj e)) d p = p
  set_of-keeps P (some (str s)) d p = p
  set_of-keeps P (some v) d p = p

  pub unless_none-keeps :
      (P : Fields F → Type 0) (vendor : Fields F) (fs : List (Value F)) (d : Fields F)
      → P d
      → P (unless_none vendor fs d).1
  unless_none-keeps P vendor [] d p = set_of-keeps P (get "allowed" vendor) d p
  unless_none-keeps P vendor (f ∷ fs) d p = p

  pub check_allowed-Retains :
      (s : String) (now : F) (fingerprint : String)
      → Retains {F = F} s (check_allowed now fingerprint)
  check_allowed-Retains s now fingerprint d l =
      bind-keeps Listing (collect_allowed_fingerprints now d) (check_pinned fingerprint) d
        (bind-keeps Listing (valid_fingerprints now active) (collect_next now d) d
          (each_valid-keeps Listing (λ s pin. str s) now active d l)
          (λ fs t m.
            bind-keeps Listing (valid_fingerprints now next_pins) (λ gs. unless_none d (fs ++ gs)) t
              (each_valid-keeps Listing (λ s pin. str s) now next_pins t m)
              (λ gs. unless_none-keeps Listing d (fs ++ gs))))
        (λ allowed. raise_if-keeps Listing _ _)
    where
      Listing : Fields F → Type 0
      Listing v = Lists v s

      active : List (Value F)
      active = or_default (pins_of (get "active" d)) []

      next_pins : List (Value F)
      next_pins = or_default (pins_of (get "next" d)) []

  pub check_fingerprint-Retains :
      (s : String) (now later : F) (fingerprint : String)
      → Retains {F = F} s (check_fingerprint now later fingerprint)
  check_fingerprint-Retains s now later fingerprint d l =
      bind-keeps Listing (set_of (get "revoked" d)) (check_unrevoked now later fingerprint) d
        (set_of-keeps Listing (get "revoked" d) d l)
        (λ revoked t m.
          then-Retains s
            (raise_if (has_text revoked fingerprint)
              (adapter_execution_error "revoked vendor certificate fingerprint"))
            (auto_cutover later >> check_allowed now fingerprint) (raise_if-keeps Listing _ _)
            (then-Retains s (auto_cutover later) (check_allowed now fingerprint)
              (auto_cutover-Retains s later) (check_allowed-Retains s now fingerprint))
            t m)
    where
      Listing : Fields F → Type 0
      Listing v = Lists v s
