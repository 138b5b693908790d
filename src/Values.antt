-- ===== src/Values.antt =====
-- What Python itself does with a value: conversions, `==` and the json module, as a parameter; and
-- the reading of nested dictionaries, written out.
pub mod Listed
use autonomous_vehicle_llm.Base.{
  String, Bool, true, false, Option, none, some, any_of, not, map, if◌then◌else◌, List, [], ◌∷◌,
  ◌++◌, ◌||◌, ◌&&◌, zero, ◌==◌, string_eq, Call, pure, fail, exception,
}
use autonomous_vehicle_llm.Base.Int.{ℤ, pos}
use autonomous_vehicle_llm.Text.{chars, of_chars, is_nonempty, has_part}
use autonomous_vehicle_llm.Float.{FloatOps}
use autonomous_vehicle_llm.Json.{
  field, Value, Fields, null, bool, int, float, str, arr, obj, nil, items, end, get, has, of_items,
}

-- `int(v)`: a number, a `TypeError` or `ValueError`, or another exception.
pub data IntOf : Type 0 where
  parsed : ℤ → IntOf
  invalid : IntOf
  other : String → IntOf

abbrev pub int_or_raise : {S : Type 0} → IntOf → Call S ℤ
int_or_raise (parsed n) = pure n
int_or_raise invalid = fail (exception "ValueError")
int_or_raise (other e) = fail (exception e)

pub record ValueOps (F : Type 0) : Type 0 where
  -- `v in [w]`: the same object, or `v == w`
  pub eq : Value F → Value F → Bool
  -- `float(v)`, which may raise
  pub to_float : Value F → Option F
  pub to_int : Value F → IntOf
  -- `str(v)`
  pub to_str : Value F → String
  -- `json.dumps(d, sort_keys=True, separators=(",", ":"))`
  pub dumps : Fields F → String
  -- `json.dumps(d, separators=(",", ":"))`
  pub to_line : Fields F → String
  -- `json.loads(s)`, which may raise
  pub loads : String → Option (Value F)

module _ {F : Type 0} where
  -- `d.get(k, default)` where the code goes on with a dictionary. Any other value raises.
  abbrev pub dict_or : {S : Type 0} → Option (Value F) → Fields F → Call S (Fields F)
  dict_or none default = pure default
  dict_or (some (obj d)) default = pure d
  dict_or (some v) default = fail (exception "AttributeError")

  -- The same with a list. A text or a dictionary in the place of a list raises here.
  abbrev pub list_or : {S : Type 0} → Option (Value F) → List (Value F) → Call S (List (Value F))
  list_or none default = pure default
  list_or (some (arr vs)) default = pure (items vs)
  list_or (some v) default = fail (exception "TypeError")

  -- `s in vs` for a text `s`
  abbrev pub is_text : String → Value F → Bool
  is_text s (str u) = u == s
  is_text s v = false

  abbrev pub has_text : List (Value F) → String → Bool
  has_text [] s = false
  has_text (v ∷ vs) s = is_text s v || has_text vs s

  -- `xs = d.setdefault(k, [])`, then `xs.append(s)` if `s not in xs`: what `d[k]` is afterwards. In a
  -- text `in` looks for a part, and in a dictionary for a key; neither has an `append`.
  abbrev pub append_text : {S : Type 0} → String → Option (Value F) → Call S (Value F)
  append_text s none = pure (arr (of_items (str s ∷ [])))
  append_text s (some (arr vs)) =
      pure (arr (of_items (if has_text (items vs) s then items vs else items vs ++ (str s ∷ []))))
  append_text s (some (obj d)) = if has s d then pure (obj d) else fail (exception "AttributeError")
  append_text s (some (str t)) =
      if has_part t s then pure (str t) else fail (exception "AttributeError")
  append_text s (some v) = fail (exception "TypeError")

  -- The keys of a dictionary, as values.
  abbrev pub keys_of : Fields F → List (Value F)
  keys_of end = []
  keys_of (field k v d) = str k ∷ keys_of d

  abbrev pub is_hashable : Value F → Bool
  is_hashable (arr vs) = false
  is_hashable (obj d) = false
  is_hashable v = true

  -- `set(d.get(k, []))`, which raises for a number, a truth value, `None`, and for a list that
  -- holds a list or a dictionary.
  abbrev pub set_of : {S : Type 0} → Option (Value F) → Call S (List (Value F))
  set_of none = pure []
  set_of (some (arr vs)) =
      if any_of (λ v. not (is_hashable v)) (items vs)
      then fail (exception "TypeError")
      else pure (items vs)
  set_of (some (obj d)) = pure (keys_of d)
  set_of (some (str s)) = pure (map (λ c. str (of_chars (c ∷ []))) (chars s))
  set_of (some v) = fail (exception "TypeError")

module _ {F : Type 0} ⦃vo : ValueOps F⦄ where
  -- `str(d.get(k, ""))`
  abbrev pub text_at : String → Fields F → String
  text_at k d = elim (get k d) [ none ↦ "" | some v ↦ vo.to_str v ]

  -- `str(d.get(k, default))`
  abbrev pub text_or_default : String → String → Fields F → String
  text_or_default k default d = elim (get k d) [ none ↦ default | some v ↦ vo.to_str v ]

  -- `int(d.get(k, default))`
  abbrev pub int_at : {S : Type 0} → String → ℤ → Fields F → Call S ℤ
  int_at k default d = elim (get k d) [ none ↦ pure default | some v ↦ int_or_raise (vo.to_int v) ]

  -- `float(v)`
  abbrev pub float_of : {S : Type 0} → Value F → Call S F
  float_of v = elim (vo.to_float v) [ none ↦ fail (exception "ValueError") | some x ↦ pure x ]

  -- `float(d.get(k, default))`
  abbrev pub float_at : {S : Type 0} → String → F → Fields F → Call S F
  float_at k default d = elim (get k d) [ none ↦ pure default | some v ↦ float_of v ]

module _ {F : Type 0} ⦃fl : FloatOps F⦄ where
  -- `bool(v)`
  abbrev pub is_truthy : Value F → Bool
  is_truthy null = false
  is_truthy (bool b) = b
  is_truthy (int (pos zero)) = false
  is_truthy (int n) = true
  is_truthy (float x) = not (fl.le x (fl.lit 0 0) && fl.le (fl.lit 0 0) x)
  is_truthy (str s) = is_nonempty s
  is_truthy (arr nil) = false
  is_truthy (arr vs) = true
  is_truthy (obj end) = false
  is_truthy (obj d) = true

  -- `bool(d.get(k, default))`
  abbrev pub bool_at : String → Bool → Fields F → Bool
  bool_at k default d = elim (get k d) [ none ↦ default | some v ↦ is_truthy v ]
