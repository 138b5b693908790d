-- ===== src/Json.antt =====
-- The values of Python that `json.loads` returns, and what the code does with a dictionary of
-- them. A dictionary keeps the order in which its keys were first written.
use autonomous_vehicle_llm.Base.{
  String, Bool, true, false, ◌≡◌, refl, Option, none, some, List, [], ◌∷◌, ◌==◌, string_eq,
  if◌then◌else◌, arith, eq_iff,
}
use autonomous_vehicle_llm.Base.Int.{ℤ}

mutual
  pub data Value (F : Type 0) : Type 0 where
    null : Value F
    bool : Bool → Value F
    int : ℤ → Value F
    float : F → Value F
    str : String → Value F
    arr : Items F → Value F
    obj : Fields F → Value F

  pub data Items (F : Type 0) : Type 0 where
    nil : Items F
    cons : Value F → Items F → Items F

  pub data Fields (F : Type 0) : Type 0 where
    end : Fields F
    field : String → Value F → Fields F → Fields F

module _ {F : Type 0} where
  -- `d.get(k)`; a key that is there with the value `None` is `some null`
  abbrev pub get : String → Fields F → Option (Value F)
  get k end = none
  get k (field j v d) = if j == k then some v else get k d

  -- `k in d`
  abbrev pub has : String → Fields F → Bool
  has k d = elim (get k d) [ none ↦ false | some v ↦ true ]

  -- `d[k] = v`
  abbrev pub put : String → Value F → Fields F → Fields F
  put k v end = field k v end
  put k v (field j w d) = if j == k then field k v d else field j w (put k v d)

  -- `d.pop(k, None)`
  abbrev pub remove : String → Fields F → Fields F
  remove k end = end
  remove k (field j w d) = if j == k then d else field j w (remove k d)

  -- The elements of a list value, and back.
  abbrev pub items : Items F → List (Value F)
  items nil = []
  items (cons v vs) = v ∷ items vs

  abbrev pub of_items : List (Value F) → Items F
  of_items [] = nil
  of_items (v ∷ vs) = cons v (of_items vs)

  pub items-of_items : (vs : List (Value F)) → items (of_items vs) ≡ vs
  items-of_items [] = refl
  items-of_items (v ∷ vs) = λ i. v ∷ items-of_items vs i

  pub get-put :
      (k j : String) (v : Value F) (d : Fields F)
      → get j (put k v d) ≡ (if k == j then some v else get j d)
  get-put k j v end = refl
  get-put k j v (field i w d) = ground (arith, eq_iff k j, eq_iff i k, eq_iff i j, get-put k j v d)

  -- `isinstance(v, str)`, with the text
  abbrev pub as_str : Option (Value F) → Option String
  as_str (some (str s)) = some s
  as_str _ = none

  -- `isinstance(v, dict)`
  abbrev pub as_obj : Option (Value F) → Option (Fields F)
  as_obj (some (obj d)) = some d
  as_obj _ = none

  -- `isinstance(v, list)`
  abbrev pub as_arr : Option (Value F) → Option (List (Value F))
  as_arr (some (arr vs)) = some (items vs)
  as_arr _ = none

  -- `v is not None` of what `get` returned
  abbrev pub not_null : Option (Value F) → Option (Value F)
  not_null (some null) = none
  not_null o = o
