-- ===== src/Perception/Conforms/Accepted.antt =====
-- The whole validator of telemetry (src/autonomy/perception.py): what it accepts conforms.
use autonomous_vehicle_llm.Base.{
  ℕ, zero, suc, ◌+◌, String, ◌<>◌, Bool, true, false, ◌≡◌, refl, inl, inr, Option, none, some,
  arith, ◌==◌, string_eq, eq_iff, ok, Call, ◌>>◌, ap, sym, ◌∙◌, if◌then◌else◌, subst,
}
use autonomous_vehicle_llm.Float.{FloatOps}
use autonomous_vehicle_llm.Text.{TextOps}
use autonomous_vehicle_llm.Json.{
  Value, Items, Fields, null, bool, int, float, str, arr, obj, nil, cons, end, field, get, as_str,
  as_obj,
}
use autonomous_vehicle_llm.Values.{ValueOps, bool_at}
use autonomous_vehicle_llm.Perception.Schema.{
  type_is, required_of, unless_additional, properties_of, check_child, check_properties,
  check_object, check_entries, check_items, check_array, check_type, validate_node, validate, depth,
}
use autonomous_vehicle_llm.Perception.Conforms.{IsField, IsItem, Conforms, HasType, object, array}
use autonomous_vehicle_llm.Perception.Conforms.Ensuring.{
  some-inj, Ensures, map-Ensures, both-Ensures,
}
use autonomous_vehicle_llm.Perception.Conforms.Entries.{
  HasAll, required_of-HasAll, KnowsAll, unless_additional-KnowsAll,
}
use autonomous_vehicle_llm.Perception.Conforms.Parts.{
  check_string-Conforms, check_boolean-Conforms, check_number-Conforms,
}

module _ {F S : Type 0} ⦃fl : FloatOps F⦄ ⦃vo : ValueOps F⦄ ⦃tx : TextOps⦄
    (from_iso : String → Option F) (node : Value F → Fields F → String → Call S (Unit {0}))
    (sound : (v : Value F) (schema : Fields F) (path : String) (s : S)
      → Ensures (Conforms from_iso v schema) (node v schema path s)) where
  abbrev ChildConforms : Option (Value F) → Option (Fields F) → Type 0
  ChildConforms o c =
      (v : Value F) (child : Fields F) → o ≡ some v → c ≡ some child → Conforms from_iso v child

  check_child-ChildConforms :
      (o : Option (Value F)) (c : Option (Fields F)) (key path : String) (s : S)
      → Ensures (ChildConforms o c) (check_child from_iso node o c key path s)
  check_child-ChildConforms (some w) (some d) key path s =
      map-Ensures (node w d (path <> "." <> key) s)
        (λ h v child e f.
          subst (λ x. Conforms from_iso v x) (some-inj f)
            (subst (λ x. Conforms from_iso x d) (some-inj e) h))
        (sound w d (path <> "." <> key) s)
  check_child-ChildConforms (some w) none key path s = λ v child e f. absurd (ground (arith, f))
  check_child-ChildConforms none c key path s = λ v child e f. absurd (ground (arith, e))

  abbrev PropertiesConform : Fields F → Fields F → Type 0
  PropertiesConform properties value =
      (child : Fields F) (key : String) (v : Value F)
      → IsField key (obj child) properties
      → get key value ≡ some v
      → Conforms from_iso v child

  next_property :
      (j : String) (c : Value F) (properties value : Fields F)
      → ChildConforms (get j value) (as_obj (some c)) × PropertiesConform properties value
      → PropertiesConform (field j c properties) value
  next_property j c properties value (h, k) child key v (inl e) f =
      h v child (ap (λ i. get i value) e.0 ∙ f) (ap (λ w. as_obj (some w)) e.1)
  next_property j c properties value (h, k) child key v (inr r) f = k child key v r f

  check_properties-PropertiesConform :
      (properties value : Fields F) (path : String) (s : S)
      → Ensures
          (PropertiesConform properties value)
          (check_properties from_iso node properties value path s)
  check_properties-PropertiesConform end value path s = λ child key v h. absurd h
  check_properties-PropertiesConform (field j c properties) value path s =
      map-Ensures (check_properties from_iso node (field j c properties) value path s)
        (next_property j c properties value)
        (both-Ensures (ChildConforms (get j value) (as_obj (some c)))
          (PropertiesConform properties value)
          (check_child from_iso node (get j value) (as_obj (some c)) j path)
          (check_properties from_iso node properties value path) s
          (check_child-ChildConforms (get j value) (as_obj (some c)) j path s)
          (check_properties-PropertiesConform properties value path))

  abbrev EntriesConform : Items F → Fields F → Type 0
  EntriesConform vs schema = (v : Value F) → IsItem v vs → Conforms from_iso v schema

  next_entry :
      (w : Value F) (vs : Items F) (schema : Fields F)
      → Conforms from_iso w schema × EntriesConform vs schema
      → EntriesConform (cons w vs) schema
  next_entry w vs schema (h, k) v (inl e) = subst (λ x. Conforms from_iso x schema) e h
  next_entry w vs schema (h, k) v (inr r) = k v r

  check_entries-EntriesConform :
      (vs : Items F) (index : ℕ) (schema : Fields F) (path : String) (s : S)
      → Ensures (EntriesConform vs schema) (check_entries from_iso node vs index schema path s)
  check_entries-EntriesConform nil index schema path s = λ v h. absurd h
  check_entries-EntriesConform (cons w vs) index schema path s =
      map-Ensures (check_entries from_iso node (cons w vs) index schema path s)
        (next_entry w vs schema)
        (both-Ensures (Conforms from_iso w schema) (EntriesConform vs schema)
          (node w schema (path <> "[" <> tx.str_of_nat index <> "]"))
          (check_entries from_iso node vs (index + 1) schema path) s
          (sound w schema (path <> "[" <> tx.str_of_nat index <> "]") s)
          (check_entries-EntriesConform vs (index + 1) schema path))

  as_obj-some : (o : Option (Value F)) (d : Fields F) → as_obj o ≡ some d → o ≡ some (obj d)
  as_obj-some (some (obj c)) d e = ap (λ x. some (obj x)) (some-inj e)
  as_obj-some none d e = absurd (ground (arith, e))
  as_obj-some (some null) d e = absurd (ground (arith, e))
  as_obj-some (some (bool b)) d e = absurd (ground (arith, e))
  as_obj-some (some (int n)) d e = absurd (ground (arith, e))
  as_obj-some (some (float x)) d e = absurd (ground (arith, e))
  as_obj-some (some (str t)) d e = absurd (ground (arith, e))
  as_obj-some (some (arr vs)) d e = absurd (ground (arith, e))

  check_items-Conforms :
      (vs : Items F) (schema : Fields F) (o : Option (Fields F)) (path : String) (s : S)
      → as_obj (get "items" schema) ≡ o
      → HasType "array" schema
      → Ensures (Conforms from_iso (arr vs) schema) (check_items from_iso node vs o path s)
  check_items-Conforms vs schema none path s e h = tt
  check_items-Conforms vs schema (some item) path s e h =
      map-Ensures (check_entries from_iso node vs 0 item path s)
        (λ k. array vs schema item h (as_obj-some (get "items" schema) item e) k)
        (check_entries-EntriesConform vs 0 item path s)

  check_array-Conforms :
      (v : Value F) (schema : Fields F) (path : String) (s : S)
      → HasType "array" schema
      → Ensures (Conforms from_iso v schema) (check_array from_iso node v schema path s)
  check_array-Conforms (arr vs) schema path s h = check_items-Conforms vs schema _ path s refl h
  check_array-Conforms null schema path s h = tt
  check_array-Conforms (bool b) schema path s h = tt
  check_array-Conforms (int n) schema path s h = tt
  check_array-Conforms (float x) schema path s h = tt
  check_array-Conforms (str t) schema path s h = tt
  check_array-Conforms (obj d) schema path s h = tt

  check_object-Conforms :
      (v : Value F) (schema : Fields F) (path : String) (s : S)
      → HasType "object" schema
      → Ensures (Conforms from_iso v schema) (check_object from_iso node v schema path s)
  check_object-Conforms (obj value) schema path s h =
      let properties : Fields F = properties_of (as_obj (get "properties" schema)) in
      map-Ensures (check_object from_iso node (obj value) schema path s)
        (λ k.
          object value schema h (λ vs key e i. k.0.0 vs e key i) (λ e. k.0.1 e)
            (λ ps child key v e i g.
              k.1 child key v
                (subst (IsField key (obj child)) (sym (ap (λ o. properties_of (as_obj o)) e)) i) g))
        (both-Ensures _ (PropertiesConform properties value)
          (required_of (get "required" schema) value path
            >> unless_additional (bool_at "additionalProperties" true schema) value properties path)
          (check_properties from_iso node properties value path) s
          (both-Ensures ((vs : Items F) → get "required" schema ≡ some (arr vs) → HasAll vs value)
            (bool_at "additionalProperties" true schema ≡ false → KnowsAll value properties)
            (required_of (get "required" schema) value path)
            (unless_additional (bool_at "additionalProperties" true schema) value properties path) s
            (required_of-HasAll (get "required" schema) value path s)
            (unless_additional-KnowsAll (bool_at "additionalProperties" true schema) value
              properties path))
          (check_properties-PropertiesConform properties value path))
  check_object-Conforms null schema path s h = tt
  check_object-Conforms (bool b) schema path s h = tt
  check_object-Conforms (int n) schema path s h = tt
  check_object-Conforms (float x) schema path s h = tt
  check_object-Conforms (str t) schema path s h = tt
  check_object-Conforms (arr vs) schema path s h = tt

  type_is-HasType :
      (name : String) (schema : Fields F) → type_is name schema ≡ true → HasType name schema
  type_is-HasType name schema h = at (get "type" schema) h
    where
      at :
          (o : Option (Value F))
          → (elim (as_str o) [ none ↦ false | some t ↦ t == name ]) ≡ true
          → o ≡ some (str name)
      at (some (str t)) h = ap (λ x. some (str x)) ((eq_iff t name).0 h)
      at none h = absurd (ground (arith, h))
      at (some null) h = absurd (ground (arith, h))
      at (some (bool b)) h = absurd (ground (arith, h))
      at (some (int n)) h = absurd (ground (arith, h))
      at (some (float x)) h = absurd (ground (arith, h))
      at (some (arr vs)) h = absurd (ground (arith, h))
      at (some (obj d)) h = absurd (ground (arith, h))

  -- A test, with what either branch ensures.
  if-Ensures :
      (X : Type 0) (b : Bool) (m k : Call S (Unit {0})) (s : S)
      → (b ≡ true → Ensures X (m s))
      → Ensures X (k s)
      → Ensures X ((if b then m else k) s)
  if-Ensures X true m k s p q = p refl
  if-Ensures X false m k s p q = q

  check_type-Conforms :
      (v : Value F) (schema : Fields F) (path : String) (s : S)
      → Ensures (Conforms from_iso v schema) (check_type from_iso node v schema path s)
  check_type-Conforms v schema path s =
      let X : Type 0 = Conforms from_iso v schema in
      if-Ensures X (type_is "object" schema) _ _ s
        (λ h. check_object-Conforms v schema path s (type_is-HasType "object" schema h))
        (if-Ensures X (type_is "array" schema) _ _ s
          (λ h. check_array-Conforms v schema path s (type_is-HasType "array" schema h))
          (if-Ensures X (type_is "string" schema) _ _ s
            (λ h.
              check_string-Conforms from_iso v schema path s (type_is-HasType "string" schema h))
            (if-Ensures X (type_is "number" schema) _ _ s
              (λ h.
                check_number-Conforms from_iso v schema path s (type_is-HasType "number" schema h))
              (if-Ensures X (type_is "boolean" schema) _ _ s
                (λ h.
                  check_boolean-Conforms from_iso v schema path s
                    (type_is-HasType "boolean" schema h))
                tt))))

module _ {F S : Type 0} ⦃fl : FloatOps F⦄ ⦃vo : ValueOps F⦄ ⦃tx : TextOps⦄
    (from_iso : String → Option F) where
  validate_node-Conforms :
      (k : ℕ) (v : Value F) (schema : Fields F) (path : String) (s : S)
      → Ensures (Conforms from_iso v schema) (validate_node from_iso k v schema path s)
  unfolding validate_node
  validate_node-Conforms zero v schema path s = tt
  validate_node-Conforms (suc k) v schema path s =
      check_type-Conforms from_iso (validate_node from_iso k) (validate_node-Conforms k) v schema
        path s

  -- Where `validate` returns, the payload conforms to the schema: types, required and additional
  -- fields, properties, entries, date-times and bounds, at every depth.
  pub validate-Conforms :
      (schema payload : Fields F) (s t : S)
      → validate from_iso schema payload s ≡ (ok tt, t)
      → Conforms from_iso (obj payload) schema
  unfolding validate
  validate-Conforms schema payload s t h =
      subst (Ensures {S = S} (Conforms from_iso (obj payload) schema)) h
        (validate_node-Conforms (depth (obj payload)) (obj payload) schema "$" s)
