-- ===== src/Values/Listed.antt =====
-- Texts in the list of a dictionary's field, after Python has appended one that is not there.
use autonomous_vehicle_llm.Base.{
  String, true, not, any_of, ◌≡◌, ◌≢◌, refl, Option, none, some, List, [], ◌∷◌, ◌++◌, ◌||◌, arith,
  ◌==◌, string_eq, if◌then◌else◌, eq_refl, Bool-cases, inl, inr, Result, raise, exception, Call,
  ◌>>=◌,
}
use autonomous_vehicle_llm.Base.Post.{Post}
use autonomous_vehicle_llm.Json.{
  Value, Fields, null, bool, int, float, str, arr, obj, end, field, has, items, of_items,
  items-of_items,
}
use autonomous_vehicle_llm.Values.{is_hashable, has_text, append_text, keys_of, set_of}

module _ {F : Type 0} where
  pub has_text-append :
      (vs ws : List (Value F)) (s : String)
      → has_text (vs ++ ws) s ≡ (has_text vs s || has_text ws s)
  has_text-append [] ws s = refl
  has_text-append (v ∷ vs) ws s = ground (arith, has_text-append vs ws s)

  has_text-keys_of : (s : String) (d : Fields F) → has s d ≡ true → has_text (keys_of d) s ≡ true
  has_text-keys_of s end h = absurd (ground (arith, h))
  has_text-keys_of s (field k v d) h = elim (Bool-cases (k == s)) [
    | inl e ↦ rw e refl
    | inr e ↦ rw e (has_text-keys_of s d (rw (e, has) at h))
  ]

  -- A list holds the text, or a dictionary has it as a key.
  abbrev pub IsListed : Value F → String → Type 0
  IsListed (arr vs) s = has_text (items vs) s ≡ true
  IsListed (obj d) s = has s d ≡ true
  IsListed v s = ⊥

  grown-has_text :
      (vs : List (Value F)) (s t : String)
      → has_text vs s ≡ true
      → has_text (items (of_items (if has_text vs t then vs else vs ++ (str t ∷ [])))) s ≡ true
  grown-has_text vs s t h = rw items-of_items (ground (arith, has_text-append vs (str t ∷ []) s))

  listing-has_text :
      (vs : List (Value F)) (s : String)
      → has_text (items (of_items (if has_text vs s then vs else vs ++ (str s ∷ [])))) s ≡ true
  listing-has_text vs s =
      rw items-of_items (ground (arith, has_text-append vs (str s ∷ []) s, eq_refl s))

  module _ {S : Type 0} where
    abbrev pub ListsText : String → Result (Value F) × S → Type 0
    ListsText s = Post (λ v t. IsListed v s) (λ e t. Unit)

    -- Where the field holds no text, a text that was appended is listed.
    pub append_text-IsListed :
        (s : String) (o : Option (Value F)) (t : S)
        → ((u : String) → o ≢ some (str u))
        → ListsText s (append_text s o t)
    append_text-IsListed s none t n = listing-has_text [] s
    append_text-IsListed s (some (arr vs)) t n = listing-has_text (items vs) s
    append_text-IsListed s (some (obj d)) t n = elim (Bool-cases (has s d)) [
      | inl e ↦ rw e e
      | inr e ↦ rw e tt
    ]
    append_text-IsListed s (some (str u)) t n = absurd (n u refl)
    append_text-IsListed s (some null) t n = tt
    append_text-IsListed s (some (bool b)) t n = tt
    append_text-IsListed s (some (int z)) t n = tt
    append_text-IsListed s (some (float x)) t n = tt

    -- What is listed stays listed when another text is appended.
    pub append_text-keeps :
        (s new : String) (v : Value F) (t : S)
        → IsListed v s
        → ListsText s (append_text new (some v) t)
    append_text-keeps s new (arr vs) t l = grown-has_text (items vs) s new l
    append_text-keeps s new (obj d) t l = elim (Bool-cases (has new d)) [
      | inl e ↦ rw e l
      | inr e ↦ rw e tt
    ]
    append_text-keeps s new (str u) t l = absurd l
    append_text-keeps s new null t l = tt
    append_text-keeps s new (bool b) t l = tt
    append_text-keeps s new (int z) t l = tt
    append_text-keeps s new (float x) t l = tt

    pub append_text-state : (s : String) (o : Option (Value F)) (t : S) → (append_text s o t).1 ≡ t
    append_text-state s none t = refl
    append_text-state s (some (arr vs)) t = refl
    append_text-state s (some (obj d)) t = ground arith
    append_text-state s (some (str u)) t = ground arith
    append_text-state s (some null) t = refl
    append_text-state s (some (bool b)) t = refl
    append_text-state s (some (int z)) t = refl
    append_text-state s (some (float x)) t = refl

    -- `set` of what lists a text holds the text, or raises.
    pub set_of-IsListed :
        {B : Type 0} (P : Result B × S → Type 0) (v : Value F) (s : String)
        (f : List (Value F) → Call S B) (t : S)
        → IsListed v s
        → P (raise (exception "TypeError"), t)
        → ((vs : List (Value F)) → has_text vs s ≡ true → P (f vs t))
        → P ((set_of (some v) >>= f) t)
    set_of-IsListed P (arr vs) s f t l p k =
        elim (Bool-cases (any_of (λ v. not (is_hashable v)) (items vs))) [
          | inl e ↦ rw e p
          | inr e ↦ rw e (k (items vs) l)
        ]
    set_of-IsListed P (obj d) s f t l p k = k (keys_of d) (has_text-keys_of s d l)
    set_of-IsListed P null s f t l p k = p
    set_of-IsListed P (bool b) s f t l p k = p
    set_of-IsListed P (int z) s f t l p k = p
    set_of-IsListed P (float x) s f t l p k = p
    set_of-IsListed P (str u) s f t l p k = absurd l
