-- ===== src/Perception/Conforms/Parts.antt =====
-- The checks of single values in the validator of telemetry (src/autonomy/perception.py): what
-- holds when they return.
use autonomous_vehicle_llm.Base.{
  String, true, false, ◌≡◌, ◌≢◌, refl, inl, inr, Option, none, some, Bool-cases, arith, string_eq,
  raise_if, Call, ◌>>=◌, pure, ap, sym, ◌∙◌, if◌then◌else◌, adapter_execution_error, fail, subst,
}
use autonomous_vehicle_llm.Float.{FloatOps}
use autonomous_vehicle_llm.Text.{TextOps}
use autonomous_vehicle_llm.Json.{Value, Fields, null, bool, int, float, str, arr, obj, get, as_str}
use autonomous_vehicle_llm.Values.{ValueOps, float_of}
use autonomous_vehicle_llm.Perception.Schema.{
  normalized, failed_at, is_number, check_minimum, check_maximum, check_limits, check_number,
  check_string, check_boolean, number_at, is_date_time, parse_timestamp,
}
use autonomous_vehicle_llm.Perception.Conforms.{
  IsWithin, Conforms, HasType, string, number, boolean,
}
use autonomous_vehicle_llm.Perception.Conforms.Ensuring.{
  some-inj, Ensures, map-Ensures, both-Ensures, raise_if-Ensures, float_of-Ensures,
}

module _ {F : Type 0} where
  number_at-some :
      (k : String) (d : Fields F) (m : Value F)
      → get k d ≡ some m
      → is_number m ≡ true
      → number_at k d ≡ some m
  number_at-some k d m e n = at (get k d) e
    where
      at :
          (o : Option (Value F))
          → o ≡ some m
          → (elim o [ none ↦ none | some v ↦ if is_number v then some v else none ]) ≡ some m
      at none f = absurd (ground (arith, f))
      at (some v) f =
          subst (λ w. (if is_number w then some w else none) ≡ some m) (sym (some-inj f))
            (rw n refl)

module _ {F : Type 0} ⦃fl : FloatOps F⦄ ⦃vo : ValueOps F⦄ where
  abbrev Above : Value F → Option (Value F) → Type 0
  Above v o =
      (m : Value F)
      → o ≡ some m
      → (x : F) → vo.to_float v ≡ some x
      → (y : F) → vo.to_float m ≡ some y
      → fl.lt x y ≡ false

  abbrev Below : Value F → Option (Value F) → Type 0
  Below v o =
      (m : Value F)
      → o ≡ some m
      → (x : F) → vo.to_float v ≡ some x
      → (y : F) → vo.to_float m ≡ some y
      → fl.lt y x ≡ false

module _ {F S : Type 0} ⦃fl : FloatOps F⦄ ⦃vo : ValueOps F⦄ ⦃tx : TextOps⦄
    (from_iso : String → Option F) where
  parse_timestamp-Ensures :
      (t : String) (s : S) → Ensures (from_iso (normalized t) ≢ none) (parse_timestamp from_iso t s)
  parse_timestamp-Ensures t s = at (from_iso (normalized t)) refl
    where
      at :
          (o : Option F)
          → from_iso (normalized t) ≡ o
          → Ensures (from_iso (normalized t) ≢ none) (
              ((elim o as (λ k. Call S F) [
                | none ↦
                    fail (adapter_execution_error "schema validation failed: invalid timestamp")
                | some ts ↦ pure ts
              ])
                  >>= λ ts. pure tt)
                s)
      at none e = tt
      at (some ts) e = λ h. absurd (ground (arith, e, h))

  pub check_string-Conforms :
      (v : Value F) (schema : Fields F) (path : String) (s : S)
      → HasType "string" schema
      → Ensures (Conforms from_iso v schema) (check_string from_iso v schema path s)
  check_string-Conforms (str t) schema path s h =
      elim (Bool-cases (is_date_time from_iso (as_str (get "format" schema)))) [
        | inl e ↦ rw e (
            map-Ensures (parse_timestamp from_iso t s) (λ p. string t schema h (λ f. p))
              (parse_timestamp-Ensures t s))
        | inr e ↦ rw e (string t schema h (λ f. absurd (ground (arith, e, f))))
      ]
  check_string-Conforms null schema path s h = tt
  check_string-Conforms (bool b) schema path s h = tt
  check_string-Conforms (int n) schema path s h = tt
  check_string-Conforms (float x) schema path s h = tt
  check_string-Conforms (arr vs) schema path s h = tt
  check_string-Conforms (obj d) schema path s h = tt

  pub check_boolean-Conforms :
      (v : Value F) (schema : Fields F) (path : String) (s : S)
      → HasType "boolean" schema
      → Ensures (Conforms from_iso v schema) (check_boolean from_iso v path s)
  check_boolean-Conforms (bool b) schema path s h = boolean b schema h
  check_boolean-Conforms (str t) schema path s h = tt
  check_boolean-Conforms null schema path s h = tt
  check_boolean-Conforms (int n) schema path s h = tt
  check_boolean-Conforms (float x) schema path s h = tt
  check_boolean-Conforms (arr vs) schema path s h = tt
  check_boolean-Conforms (obj d) schema path s h = tt

  check_minimum-Above :
      (v : Value F) (o : Option (Value F)) (path : String) (s : S)
      → Ensures (Above v o) (check_minimum from_iso v o path s)
  check_minimum-Above v none path s = λ m e. absurd (ground (arith, e))
  check_minimum-Above v (some m) path s =
      map-Ensures (check_minimum from_iso v (some m) path s)
        (λ h k e x p y q. h x p y (ap vo.to_float (some-inj e) ∙ q))
        (float_of-Ensures (λ x. (y : F) → vo.to_float m ≡ some y → fl.lt x y ≡ false) v
          (λ x. float_of m >>= λ y. raise_if (fl.lt x y) (failed_at path "below minimum")) s
          (λ x.
            float_of-Ensures (λ y. fl.lt x y ≡ false) m
              (λ y. raise_if (fl.lt x y) (failed_at path "below minimum")) s
              (λ y. raise_if-Ensures (fl.lt x y) _ s)))

  check_maximum-Below :
      (v : Value F) (o : Option (Value F)) (path : String) (s : S)
      → Ensures (Below v o) (check_maximum from_iso v o path s)
  check_maximum-Below v none path s = λ m e. absurd (ground (arith, e))
  check_maximum-Below v (some m) path s =
      map-Ensures (check_maximum from_iso v (some m) path s)
        (λ h k e x p y q. h x p y (ap vo.to_float (some-inj e) ∙ q))
        (float_of-Ensures (λ x. (y : F) → vo.to_float m ≡ some y → fl.lt y x ≡ false) v
          (λ x. float_of m >>= λ y. raise_if (fl.lt y x) (failed_at path "above maximum")) s
          (λ x.
            float_of-Ensures (λ y. fl.lt y x ≡ false) m
              (λ y. raise_if (fl.lt y x) (failed_at path "above maximum")) s
              (λ y. raise_if-Ensures (fl.lt y x) _ s)))

  check_limits-IsWithin :
      (v : Value F) (schema : Fields F) (path : String) (s : S)
      → Ensures (IsWithin from_iso v schema) (check_limits from_iso v schema path s)
  check_limits-IsWithin v schema path s =
      map-Ensures (check_limits from_iso v schema path s)
        (λ h. record {
          minimum = λ m x y e n p q. h.0 m (number_at-some "minimum" schema m e n) x p y q;
          maximum = λ m x y e n p q. h.1 m (number_at-some "maximum" schema m e n) x p y q;
        })
        (both-Ensures (Above v (number_at "minimum" schema)) (Below v (number_at "maximum" schema))
          (check_minimum from_iso v (number_at "minimum" schema) path)
          (check_maximum from_iso v (number_at "maximum" schema) path) s
          (check_minimum-Above v (number_at "minimum" schema) path s)
          (check_maximum-Below v (number_at "maximum" schema) path))

  pub check_number-Conforms :
      (v : Value F) (schema : Fields F) (path : String) (s : S)
      → HasType "number" schema
      → Ensures (Conforms from_iso v schema) (check_number from_iso v schema path s)
  check_number-Conforms (int n) schema path s h =
      map-Ensures (check_limits from_iso (int n) schema path s) (λ w. number (int n) schema h tt w)
        (check_limits-IsWithin (int n) schema path s)
  check_number-Conforms (float x) schema path s h =
      map-Ensures (check_limits from_iso (float x) schema path s)
        (λ w. number (float x) schema h tt w) (check_limits-IsWithin (float x) schema path s)
  check_number-Conforms (bool b) schema path s h = tt
  check_number-Conforms (str t) schema path s h = tt
  check_number-Conforms null schema path s h = tt
  check_number-Conforms (arr vs) schema path s h = tt
  check_number-Conforms (obj d) schema path s h = tt
