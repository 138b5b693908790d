-- ===== src/Perception/Conforms/Ensuring.antt =====
-- What holds whenever a check of the validator of telemetry (src/autonomy/perception.py) returns.
use autonomous_vehicle_llm.Base.{
  Bool, true, false, ◌≡◌, refl, Option, none, some, string_eq, Exc, Result, raise_if, Call, ◌>>=◌,
  ◌>>◌, pure, ap, fail, subst, exception,
}
use autonomous_vehicle_llm.Base.Post.{Post, Post-mono, Post-bind}
use autonomous_vehicle_llm.Json.{Value, Items, arr}
use autonomous_vehicle_llm.Values.{ValueOps, float_of}

pub some-inj : {A : Type 0} {a b : A} → some a ≡ some b → a ≡ b
some-inj {a = a} p = ap (λ o. elim o [ none ↦ a | some x ↦ x ]) p

module _ {F : Type 0} where
  pub arr-inj : {vs ws : Items F} → some (arr vs) ≡ some (arr ws) → vs ≡ ws
  arr-inj {vs} e = ap (λ o. elim o [ none ↦ vs | some v ↦ elim v [ arr us ↦ us | _ ↦ vs ] ]) e

module _ {S : Type 0} where
  -- What holds whenever a call returns.
  abbrev pub Ensures : {A : Type 0} → Type 0 → Result A × S → Type 0
  Ensures X = Post (λ _ _. X) (λ _ _. Unit)

  pub map-Ensures :
      {A : Type 0} {X Y : Type 0} (r : Result A × S) → (X → Y) → Ensures X r → Ensures Y r
  map-Ensures {A} {X} {Y} r f p =
      Post-mono (λ _ _. X) (λ _ _. Y) (λ _ _. Unit) (λ _ _. Unit) r (λ _ _ x. f x) (λ _ _ u. u) p

  pub both-Ensures :
      {A B : Type 0} (X Y : Type 0) (m : Call S A) (k : Call S B) (s : S)
      → Ensures X (m s)
      → ((t : S) → Ensures Y (k t))
      → Ensures (X × Y) ((m >> k) s)
  both-Ensures X Y m k s p q =
      Post-bind (λ _ _. X) (λ _ _. X × Y) (λ _ _. Unit) m (λ _. k) s p
        (λ a t x. map-Ensures (k t) (λ y. (x, y)) (q t))

  pub raise_if-Ensures : (b : Bool) (e : Exc) (s : S) → Ensures (b ≡ false) (raise_if b e s)
  raise_if-Ensures true e s = tt
  raise_if-Ensures false e s = refl

  -- After a call that returns a number that a value has.
  pub float_of-Ensures :
      {F B : Type 0} ⦃vo : ValueOps F⦄ (Y : F → Type 0) (v : Value F) (f : F → Call S B) (s : S)
      → ((x : F) → Ensures (Y x) (f x s))
      → Ensures ((x : F) → vo.to_float v ≡ some x → Y x) ((float_of v >>= f) s)
  float_of-Ensures {F} {B} ⦃vo⦄ Y v f s k = at (vo.to_float v)
    where
      at :
          (o : Option F)
          → Ensures
              ((x : F) → o ≡ some x → Y x)
              (((elim o [ none ↦ fail (exception "ValueError") | some x ↦ pure x ]) >>= f) s)
      at none = tt
      at (some x) = map-Ensures (f x s) (λ y z e. subst Y (some-inj e) y) (k x)
