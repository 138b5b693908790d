-- ===== src/Transport/Replay.antt =====
-- Nonces over a run of `send_command` calls (src/autonomy/transport.py).
use autonomous_vehicle_llm.Base.{
  String, Bool, true, false, not, ◌≡◌, ◌≢◌, refl, sym, ap, ◌∙◌, subst, inl, inr, some, List, [],
  ◌∷◌, Dict, lookup, insert, lookup-insert, eq_iff, eq_refl, ◌==◌, string_eq, Bool-cases, arith,
  Result, ok, raise, Call, ◌>>=◌, ◌>>◌, raise_if, modify, when, adapter_execution_error, exception,
}
use autonomous_vehicle_llm.Base.Int.{ℤ, ◌≤ℤ◌}
use autonomous_vehicle_llm.Float.{FloatOps}
use autonomous_vehicle_llm.Text.{TextOps}
use autonomous_vehicle_llm.Json.{Value, Fields, obj, get, not_null}
use autonomous_vehicle_llm.Values.{ValueOps, parsed}
use autonomous_vehicle_llm.Models.{TransportConfig}
use autonomous_vehicle_llm.Ledger.{get_last_ack_nonce, fits_column}
use autonomous_vehicle_llm.Transport.{TransportBase, Outside}
use autonomous_vehicle_llm.Transport.Acks.{
  accept_nonce, is_replay, is_beyond, set_nonce, check_nonce, required, extract_ack_id, correlate,
}
use autonomous_vehicle_llm.Transport.Outcomes.{validate_ack, check_dict, check_rest, check_ack}
use autonomous_vehicle_llm.Transport.Send.{http_send_command, mqtt_send_command}
use autonomous_vehicle_llm.Transport.Nonces.{OfNonces, Accepts, check_rest-Holds, correlated-Holds}
use autonomous_vehicle_llm.Transport.Sends.{http_send_command-Holds, mqtt_send_command-Holds}

-- What a sequence of two calls that returned says of the two.
bind-ok :
    {S A B : Type 0} (m : Call S A) (f : A → Call S B) (s : S) (b : B)
    → ((m >>= f) s).0 ≡ ok b
    → (a : A) × ((m s).0 ≡ ok a) × ((f a (m s).1).0 ≡ ok b) × (((m >>= f) s).1 ≡ (f a (m s).1).1)
bind-ok {S} {A} {B} m f s b = at (m s)
  where
    at :
        (r : Result A × S)
        → (((λ t. r) >>= f) s).0 ≡ ok b
        → (a : A) × (r.0 ≡ ok a) × ((f a r.1).0 ≡ ok b) × ((((λ t. r) >>= f) s).1 ≡ (f a r.1).1)
    at (ok a, t) h = (a, refl, h, refl)
    at (raise e, t) h = absurd (ground arith)

when-true : {S : Type 0} (b : Bool) (m : Call S (Unit {0})) (s : S) → b ≡ true → when b m s ≡ m s
when-true true m s e = refl
when-true false m s e = absurd (ground arith)

-- The last nonce of a vehicle is there, and at least `n`.
abbrev LastIsFrom : String → ℤ → Dict ℤ → Type 0
LastIsFrom vehicle_id n d = (m : ℤ) × (lookup vehicle_id d ≡ some m) × (n ≤ℤ m)

LastIsFrom-Accepts : (vehicle_id : String) (n : ℤ) → Accepts (LastIsFrom vehicle_id n)
LastIsFrom-Accepts vehicle_id n v nonce d h (m, e, l) = elim (Bool-cases (v == vehicle_id)) [
  | inl same ↦
      let equal : v ≡ vehicle_id = (eq_iff v vehicle_id).0 same in
      let found : lookup v d ≡ some m = subst (λ u. lookup u d ≡ some m) (sym equal) e in
      let fresh : is_replay nonce (some m) ≡ false = ap (is_replay nonce) (sym found) ∙ h in
      (nonce, rw (lookup-insert, same) refl, ground arith)
  | inr differ ↦ (m, rw (lookup-insert, differ) e, l)
]

module _ {F : Type 0} where
  accept_nonce-ok :
      (window : ℤ) (vehicle_id : String) (nonce : ℤ) (s : TransportBase F)
      → (accept_nonce window vehicle_id nonce s).0 ≡ ok tt
      → (is_replay nonce (lookup vehicle_id s.ledger.vehicle_nonce) ≡ false)
        × ((accept_nonce window vehicle_id nonce s).1.ledger.vehicle_nonce
            ≡ insert vehicle_id nonce s.ledger.vehicle_nonce)
  accept_nonce-ok window vehicle_id nonce s =
      at (is_replay nonce (get_last_ack_nonce vehicle_id s.ledger))
        (is_beyond window nonce (get_last_ack_nonce vehicle_id s.ledger)) (not (fits_column nonce))
    where
      steps : (a b c : Bool) → Result (Unit {0}) × TransportBase F
      steps a b c =
          (raise_if a (adapter_execution_error "ack replay detected")
              >> (raise_if b (adapter_execution_error "ack nonce outside window")
                  >> (raise_if c (exception "OverflowError")
                      >> modify (set_nonce vehicle_id nonce))))
            s

      at :
          (a b c : Bool)
          → (steps a b c).0 ≡ ok tt
          → (a ≡ false)
            × ((steps a b c).1.ledger.vehicle_nonce
                ≡ insert vehicle_id nonce s.ledger.vehicle_nonce)
      at false false false h = (refl, refl)
      at true b c h = absurd (ground arith)
      at false true c h = absurd (ground arith)
      at false false true h = absurd (ground arith)

module _ {F : Type 0} ⦃vo : ValueOps F⦄ (config : TransportConfig F) where
  -- The nonce of an acknowledgement, where the configuration asks for one.
  pub record HasNonce (d : Fields F) (n : ℤ) : Type 0 where
    pub raw : Value F
    pub asked : config.ack.required ≡ true
    pub require_nonce : config.ack.require_nonce ≡ true
    pub there : not_null (get config.ack.nonce_field d) ≡ some raw
    pub reads : vo.to_int raw ≡ parsed n

module _ {F : Type 0} ⦃fl : FloatOps F⦄ ⦃vo : ValueOps F⦄ ⦃tx : TextOps⦄ (out : Outside F)
    (config : TransportConfig F) where
  check_nonce-HasNonce :
      (vehicle_id : String) (d : Fields F) (n : ℤ) (s : TransportBase F)
      → HasNonce config d n
      → when config.ack.require_nonce (check_nonce config vehicle_id d) s
        ≡ accept_nonce config.ack.nonce_window vehicle_id n s
  check_nonce-HasNonce vehicle_id d n s has =
      when-true config.ack.require_nonce (check_nonce config vehicle_id d) s has.require_nonce
      ∙ rw (check_nonce, required, has.there, has.reads) refl

  -- An accepted acknowledgement went through the check of its nonce.
  check_dict-ok :
      (vehicle_id : String) (d : Fields F) (n : ℤ) (s : TransportBase F)
      → HasNonce config d n
      → (check_dict out config vehicle_id d s).0 ≡ ok tt
      → (is_replay n (lookup vehicle_id s.ledger.vehicle_nonce) ≡ false)
        × LastIsFrom vehicle_id n (check_dict out config vehicle_id d s).1.ledger.vehicle_nonce
  check_dict-ok vehicle_id d n s has h =
      let (u, o, k, e) =
        bind-ok (when config.ack.require_nonce (check_nonce config vehicle_id d))
          (λ _. check_rest out config d) s tt h in
      let same = check_nonce-HasNonce vehicle_id d n s has in
      let (fresh, stored) =
        accept_nonce-ok config.ack.nonce_window vehicle_id n s (sym (ap (λ r. r.0) same) ∙ o) in
      let kept : OfNonces (LastIsFrom vehicle_id n)
          (when config.ack.require_nonce (check_nonce config vehicle_id d) s).1 =
        subst (λ (r : Result (Unit {0}) × TransportBase F). OfNonces (LastIsFrom vehicle_id n) r.1)
          (sym same)
          (subst (LastIsFrom vehicle_id n) (sym stored)
            (n, rw (lookup-insert, eq_refl) refl, ground arith)) in
      (
        fresh,
        subst (λ (t : TransportBase F). OfNonces (LastIsFrom vehicle_id n) t) (sym e)
            ((check_rest-Holds out config (LastIsFrom vehicle_id n) d).at _ kept),
      )

  -- What an accepted acknowledgement says of the nonces before and after it.
  validate_ack-ok :
      (vehicle_id expected : String) (d : Fields F) (n : ℤ) (s : TransportBase F)
      → HasNonce config d n
      → (validate_ack out config vehicle_id (obj d) expected s).0 ≡ ok tt
      → (LastIsFrom vehicle_id n s.ledger.vehicle_nonce → ⊥)
        × LastIsFrom vehicle_id n
            (validate_ack out config vehicle_id (obj d) expected s).1.ledger.vehicle_nonce
  unfolding validate_ack
  validate_ack-ok vehicle_id expected d n s has h =
      let same =
        when-true config.ack.required (check_ack out config vehicle_id (obj d) expected) s
          has.asked in
      let (u, o, k, e) =
        bind-ok (extract_ack_id config (obj d) >>= correlate config expected)
          (λ _. check_dict out config vehicle_id d) s tt (sym (ap (λ r. r.0) same) ∙ h) in
      let (fresh, last) = check_dict-ok vehicle_id d n _ has k in
      (
        λ before.
            refuse ((extract_ack_id config (obj d) >>= correlate config expected) s).1 fresh (
              (correlated-Holds out config (LastIsFrom vehicle_id n) (obj d) expected).at s before),
        subst (λ (t : TransportBase F). OfNonces (LastIsFrom vehicle_id n) t)
            (sym (ap (λ (r : Result (Unit {0}) × TransportBase F). r.1) same ∙ e)) last,
      )
    where
      refuse :
          (t : TransportBase F)
          → is_replay n (lookup vehicle_id t.ledger.vehicle_nonce) ≡ false
          → OfNonces (LastIsFrom vehicle_id n) t
          → ⊥
      refuse t f (m, e, l) =
          let replay : is_replay n (some m) ≡ false = ap (is_replay n) (sym e) ∙ f in ground arith

-- A call of `send_command`, of either transport.
pub data Send (F : Type 0) : Type 0 where
  http : Outside F → TransportConfig F → String → Fields F → Send F
  mqtt : Outside F → TransportConfig F → String → Fields F → Send F

module _ {F : Type 0} ⦃fl : FloatOps F⦄ ⦃vo : ValueOps F⦄ ⦃tx : TextOps⦄ where
  abbrev pub send : Send F → Call (TransportBase F) (Unit {0})
  send (http out config vehicle_id payload) = http_send_command out config vehicle_id payload
  send (mqtt out config vehicle_id payload) = mqtt_send_command out config vehicle_id payload

  -- The state after a list of sends, each of which may raise.
  abbrev pub after_sends : List (Send F) → TransportBase F → TransportBase F
  after_sends [] s = s
  after_sends (c ∷ sends) s = after_sends sends (send c s).1

  after_sends-keeps :
      (Q : Dict ℤ → Type 0) (q : Accepts Q) (sends : List (Send F)) (s : TransportBase F)
      → OfNonces Q s
      → OfNonces Q (after_sends sends s)
  after_sends-keeps Q q [] s h = h
  after_sends-keeps Q q (http out config v p ∷ sends) s h =
      after_sends-keeps Q q sends _ ((http_send_command-Holds out config Q q v p).at s h)
  after_sends-keeps Q q (mqtt out config v p ∷ sends) s h =
      after_sends-keeps Q q sends _ ((mqtt_send_command-Holds out config Q q v p).at s h)

  -- Where acknowledgements must carry a nonce, an accepted one rules out every later one of the
  -- vehicle whose nonce is not greater: after any calls of `send_command` of either transport, for
  -- this vehicle or another and with whatever outcome, `validate_ack` does not return for it.
  pub validate_ack-replay :
      (out : Outside F) (config : TransportConfig F) (vehicle_id expected expected' : String)
      (d d' : Fields F) (n n' : ℤ) (sends : List (Send F)) (s : TransportBase F)
      → HasNonce config d n
      → HasNonce config d' n'
      → n' ≤ℤ n
      → (validate_ack out config vehicle_id (obj d) expected s).0 ≡ ok tt
      → (validate_ack out config vehicle_id
          (obj d')
          expected'
          (after_sends sends (validate_ack out config vehicle_id (obj d) expected s).1)).0
        ≢ ok tt
  validate_ack-replay out config vehicle_id expected expected' d d' n n' sends s has has' le h h' =
      let (m, e, l) =
        after_sends-keeps (LastIsFrom vehicle_id n) (LastIsFrom-Accepts vehicle_id n) sends _
          (validate_ack-ok out config vehicle_id expected d n s has h).1 in
      (validate_ack-ok out config vehicle_id expected' d' n' _ has' h').0 (m, e, ground arith)
