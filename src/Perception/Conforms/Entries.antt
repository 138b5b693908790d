-- ===== src/Perception/Conforms/Entries.antt =====
-- The checks of the required and the additional fields in the validator of telemetry
-- (src/autonomy/perception.py): what holds when they return.
use autonomous_vehicle_llm.Base.{
  String, ◌<>◌, Bool, true, false, not, ◌≡◌, ◌≢◌, inl, inr, Option, none, some, arith, string_eq,
  raise_if, ◌>>◌, subst,
}
use autonomous_vehicle_llm.Json.{
  Value, Items, Fields, null, bool, int, float, str, arr, obj, nil, cons, end, field, has,
}
use autonomous_vehicle_llm.Perception.Schema.{
  failed_at, check_required, required_of, check_known, unless_additional,
}
use autonomous_vehicle_llm.Perception.Conforms.{IsField, IsItem}
use autonomous_vehicle_llm.Perception.Conforms.Ensuring.{
  Ensures, map-Ensures, both-Ensures, raise_if-Ensures, arr-inj,
}

module _ {F : Type 0} where
  abbrev pub HasAll : Items F → Fields F → Type 0
  HasAll vs value = (key : String) → IsItem (str key) vs → has key value ≡ true

  next_required :
      (j : String) (vs : Items F) (value : Fields F)
      → (not (has j value) ≡ false) × HasAll vs value
      → HasAll (cons (str j) vs) value
  next_required j vs value (h, k) key (inl e) = ground (arith, h, e)
  next_required j vs value (h, k) key (inr r) = k key r

  no_text :
      (w : Value F) (vs : Items F) (value : Fields F)
      → ((key : String) → w ≢ str key)
      → HasAll vs value
      → HasAll (cons w vs) value
  no_text w vs value n k key (inl e) = absurd (n key e)
  no_text w vs value n k key (inr r) = k key r

  abbrev pub KnowsAll : Fields F → Fields F → Type 0
  KnowsAll value properties =
      (key : String) (v : Value F) → IsField key v value → has key properties ≡ true

  next_known :
      (j : String) (w : Value F) (d properties : Fields F)
      → (not (has j properties) ≡ false) × KnowsAll d properties
      → KnowsAll (field j w d) properties
  next_known j w d properties (h, k) key v (inl e) =
      subst (λ i. has i properties ≡ true) e.0 (ground (arith, h))
  next_known j w d properties (h, k) key v (inr r) = k key v r

module _ {F S : Type 0} where
  check_required-HasAll :
      (vs : Items F) (value : Fields F) (path : String) (s : S)
      → Ensures (HasAll vs value) (check_required vs value path s)
  check_required-HasAll nil value path s = λ key h. absurd h
  check_required-HasAll (cons (str j) vs) value path s =
      map-Ensures
        ((raise_if (not (has j value)) (failed_at path ("missing '" <> j <> "'"))
            >> check_required vs value path)
          s)
        (next_required j vs value)
        (both-Ensures (not (has j value) ≡ false) (HasAll vs value)
          (raise_if (not (has j value)) (failed_at path ("missing '" <> j <> "'")))
          (check_required vs value path) s (raise_if-Ensures _ _ s)
          (check_required-HasAll vs value path))
  check_required-HasAll (cons null vs) value path s =
      map-Ensures (check_required vs value path s)
        (no_text null vs value (λ key e. absurd (ground (arith, e))))
        (check_required-HasAll vs value path s)
  check_required-HasAll (cons (bool b) vs) value path s =
      map-Ensures (check_required vs value path s)
        (no_text (bool b) vs value (λ key e. absurd (ground (arith, e))))
        (check_required-HasAll vs value path s)
  check_required-HasAll (cons (int n) vs) value path s =
      map-Ensures (check_required vs value path s)
        (no_text (int n) vs value (λ key e. absurd (ground (arith, e))))
        (check_required-HasAll vs value path s)
  check_required-HasAll (cons (float x) vs) value path s =
      map-Ensures (check_required vs value path s)
        (no_text (float x) vs value (λ key e. absurd (ground (arith, e))))
        (check_required-HasAll vs value path s)
  check_required-HasAll (cons (arr ws) vs) value path s =
      map-Ensures (check_required vs value path s)
        (no_text (arr ws) vs value (λ key e. absurd (ground (arith, e))))
        (check_required-HasAll vs value path s)
  check_required-HasAll (cons (obj d) vs) value path s =
      map-Ensures (check_required vs value path s)
        (no_text (obj d) vs value (λ key e. absurd (ground (arith, e))))
        (check_required-HasAll vs value path s)

  pub required_of-HasAll :
      (o : Option (Value F)) (value : Fields F) (path : String) (s : S)
      → Ensures ((vs : Items F) → o ≡ some (arr vs) → HasAll vs value) (required_of o value path s)
  required_of-HasAll (some (arr ws)) value path s =
      map-Ensures (check_required ws value path s)
        (λ h vs e. subst (λ us. HasAll us value) (arr-inj e) h)
        (check_required-HasAll ws value path s)
  required_of-HasAll none value path s = λ vs e. absurd (ground (arith, e))
  required_of-HasAll (some null) value path s = λ vs e. absurd (ground (arith, e))
  required_of-HasAll (some (bool b)) value path s = λ vs e. absurd (ground (arith, e))
  required_of-HasAll (some (int n)) value path s = λ vs e. absurd (ground (arith, e))
  required_of-HasAll (some (float x)) value path s = λ vs e. absurd (ground (arith, e))
  required_of-HasAll (some (str t)) value path s = λ vs e. absurd (ground (arith, e))
  required_of-HasAll (some (obj d)) value path s = λ vs e. absurd (ground (arith, e))

  check_known-KnowsAll :
      (value properties : Fields F) (path : String) (s : S)
      → Ensures (KnowsAll value properties) (check_known value properties path s)
  check_known-KnowsAll end properties path s = λ key v h. absurd h
  check_known-KnowsAll (field j w d) properties path s =
      map-Ensures
        ((raise_if (not (has j properties)) (failed_at path ("unexpected field '" <> j <> "'"))
            >> check_known d properties path)
          s)
        (next_known j w d properties)
        (both-Ensures (not (has j properties) ≡ false) (KnowsAll d properties)
          (raise_if (not (has j properties)) (failed_at path ("unexpected field '" <> j <> "'")))
          (check_known d properties path) s (raise_if-Ensures _ _ s)
          (check_known-KnowsAll d properties path))

  pub unless_additional-KnowsAll :
      (b : Bool) (value properties : Fields F) (path : String) (s : S)
      → Ensures
          (b ≡ false → KnowsAll value properties)
          (unless_additional b value properties path s)
  unless_additional-KnowsAll true value properties path s = λ e. absurd (ground (arith, e))
  unless_additional-KnowsAll false value properties path s =
      map-Ensures (check_known value properties path s) (λ k e. k)
        (check_known-KnowsAll value properties path s)
