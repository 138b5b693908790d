-- ===== src/Ledger/Laws.antt =====
-- How long a key is remembered (src/autonomy/ledger.py).
use autonomous_vehicle_llm.Base.{
  String, Bool, true, false, ◌≡◌, refl, not, Option, none, some, [], ◌∷◌, arith, Dict, lookup,
  insert, is_some, eq_iff, ◌==◌, string_eq, lookup-insert, Bool-cases, inl, inr, subst,
  if◌then◌else◌,
}
use autonomous_vehicle_llm.Float.{FloatOps}
use autonomous_vehicle_llm.Ledger.{
  CommandLedger, purge, is_duplicate_idempotency_key, mark_idempotency_key,
}

-- No key has two rows.
abbrev pub HasUniqueKeys : {V : Type 0} → Dict V → Type 0
HasUniqueKeys [] = Unit
HasUniqueKeys ((k, v) ∷ d) = (lookup k d ≡ none) × HasUniqueKeys d

module _ {V : Type 0} where
  lookup-insert_absent :
      (j k : String) (v : V) (d : Dict V)
      → (k == j) ≡ false
      → lookup j d ≡ none
      → lookup j (insert k v d) ≡ none
  lookup-insert_absent j k v d h e = rw (lookup-insert, h) e

  pub insert-HasUniqueKeys :
      (k : String) (v : V) (d : Dict V) → HasUniqueKeys d → HasUniqueKeys (insert k v d)
  insert-HasUniqueKeys k v [] u = (refl, tt)
  insert-HasUniqueKeys k v ((j, w) ∷ d) u = elim (Bool-cases (j == k)) [
    | inl same ↦
        let e : j ≡ k = (eq_iff j k).0 same in
        rw (same, insert) (subst (λ i. lookup i d ≡ none) e u.0, u.1)
    | inr differ ↦
        rw (differ, insert)
          (
            lookup-insert_absent j k v d (ground (arith, eq_iff j k, eq_iff k j)) u.0,
            insert-HasUniqueKeys k v d u.1,
          )
  ]

module _ {F : Type 0} ⦃fl : FloatOps F⦄ where
  abbrev live : F → Option F → Bool
  live now none = false
  live now (some expires_at) = not (fl.lt expires_at now)

  lookup-purge_absent :
      (now : F) (k : String) (d : Dict F) → lookup k d ≡ none → lookup k (purge now d) ≡ none
  lookup-purge_absent now k [] h = refl
  lookup-purge_absent now k ((j, v) ∷ d) h = ground (arith, eq_iff j k, lookup-purge_absent now k d)

  lookup-purge :
      (now : F) (k : String) (d : Dict F)
      → HasUniqueKeys d
      → is_some (lookup k (purge now d)) ≡ live now (lookup k d)
  lookup-purge now k [] u = refl
  lookup-purge now k ((j, v) ∷ d) u =
      ground (arith, eq_iff j k, lookup-purge now k d u.1, lookup-purge_absent now j d u.0)

  -- In a ledger where no key has two rows: after a key has been marked at `now` for `ttl_s`, it
  -- counts as a duplicate until `now + ttl_s` has passed, and no longer; the answer for every other
  -- key is what it was, and still no key has two rows.
  pub is_duplicate-mark :
      (now later ttl_s : F) (key j : String) (l : CommandLedger F)
      → HasUniqueKeys l.idempotency_keys
      → ((is_duplicate_idempotency_key later j (mark_idempotency_key now key ttl_s l)).0 ≡ (
          if key == j
          then not (fl.lt (fl.add now ttl_s) later)
          else (is_duplicate_idempotency_key later j l).0))
        × HasUniqueKeys (mark_idempotency_key now key ttl_s l).idempotency_keys
  unfolding is_duplicate_idempotency_key mark_idempotency_key
  is_duplicate-mark now later ttl_s key j l u =
      let rows = l.idempotency_keys in
      let unique = insert-HasUniqueKeys key (fl.add now ttl_s) rows u in
      (
        rw
            (
              lookup-purge later j (insert key (fl.add now ttl_s) rows) unique,
              lookup-insert,
              lookup-purge later j rows u,
            )
            (answer (key == j) (lookup j rows)),
        unique,
      )
    where
      answer :
          (b : Bool) (o : Option F)
          → live later (if b then some (fl.add now ttl_s) else o)
            ≡ (if b then not (fl.lt (fl.add now ttl_s) later) else live later o)
      answer true o = refl
      answer false o = refl
