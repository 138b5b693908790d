-- ===== src/CertPins/Reading.antt =====
-- What reading the pins (src/autonomy/cert_pins.py) does to a state.
use autonomous_vehicle_llm.Base.{
  String, Bool, true, false, Option, none, some, List, [], ◌∷◌, nat_eq, Call, ◌>>=◌, pure, fail,
  exception, string_eq,
}
use autonomous_vehicle_llm.Base.Post.{bind-keeps}
use autonomous_vehicle_llm.Float.{FloatOps}
use autonomous_vehicle_llm.Json.{as_str, not_null, Value, Fields, obj, get}
use autonomous_vehicle_llm.Values.{ValueOps}
use autonomous_vehicle_llm.CertPins.{
  each_valid, add_found, truthy, is_early, is_late, check_bounds, unless_early, unless_late,
  valid_pin_fingerprint,
}

pub add_found-keeps :
    {S A : Type 0} (P : S → Type 0) (o : Option String) (f : String → A) (rest : List A) (s : S)
    → P s
    → P (add_found o f rest s).1
add_found-keeps P none f rest s p = p
add_found-keeps P (some t) f rest s p = p

module _ {F S : Type 0} ⦃fl : FloatOps F⦄ ⦃vo : ValueOps F⦄ (P : S → Type 0) where
  pub is_early-keeps : (now : F) (o : Option (Value F)) (s : S) → P s → P (is_early now o s).1
  is_early-keeps now none s p = p
  is_early-keeps now (some bound) s p = at (vo.to_float bound)
    where
      at :
          (o : Option F)
          → P
              (elim o as (λ o. Call S Bool) [
                | none ↦ fail (exception "ValueError")
                | some t ↦ pure (fl.lt now t)
              ]
                s).1
      at none = p
      at (some t) = p

  pub is_late-keeps : (now : F) (o : Option (Value F)) (s : S) → P s → P (is_late now o s).1
  is_late-keeps now none s p = p
  is_late-keeps now (some bound) s p = at (vo.to_float bound)
    where
      at :
          (o : Option F)
          → P
              (elim o as (λ o. Call S Bool) [
                | none ↦ fail (exception "ValueError")
                | some t ↦ pure (fl.lt t now)
              ]
                s).1
      at none = p
      at (some t) = p

  pub unless_early-keeps :
      (now : F) (pin : Fields F) (fingerprint : String) (early : Bool) (s : S)
      → P s
      → P (unless_early now pin fingerprint early s).1
  unless_early-keeps now pin fingerprint true s p = p
  unless_early-keeps now pin fingerprint false s p =
      bind-keeps P (is_late now (not_null (get "not_after" pin))) (unless_late fingerprint) s
        (is_late-keeps now (not_null (get "not_after" pin)) s p) (λ b u z. z)

  pub check_bounds-keeps :
      (now : F) (pin : Fields F) (o : Option String) (s : S) → P s → P (check_bounds now pin o s).1
  check_bounds-keeps now pin none s p = p
  check_bounds-keeps now pin (some fingerprint) s p =
      bind-keeps P (is_early now (not_null (get "not_before" pin)))
        (unless_early now pin fingerprint) s
        (is_early-keeps now (not_null (get "not_before" pin)) s p)
        (unless_early-keeps now pin fingerprint)

  pub valid_pin_fingerprint-keeps :
      (now : F) (pin : Value F) (s : S) → P s → P (valid_pin_fingerprint now pin s).1
  valid_pin_fingerprint-keeps now (obj pin) s p =
      check_bounds-keeps now pin (as_str (get "fingerprint" pin)) s p
  valid_pin_fingerprint-keeps now pin s p = p

  pub each_valid-keeps :
      (f : String → Value F → Value F) (now : F) (pins : List (Value F)) (s : S)
      → P s
      → P (each_valid f now pins s).1
  each_valid-keeps f now [] s p = p
  each_valid-keeps f now (pin ∷ pins) s p =
      bind-keeps P (valid_pin_fingerprint now pin)
        (λ found. each_valid f now pins >>= add_found (truthy found) (λ s. f s pin)) s
        (valid_pin_fingerprint-keeps now pin s p)
        (λ found t q.
          bind-keeps P (each_valid f now pins) (add_found (truthy found) (λ s. f s pin)) t
            (each_valid-keeps f now pins t q) (add_found-keeps P (truthy found) (λ s. f s pin)))
