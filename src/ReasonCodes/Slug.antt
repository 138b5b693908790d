-- ===== src/ReasonCodes/Slug.antt =====
-- The shape of the code of a reason without a table entry (src/autonomy/reason_codes.py).
use Prim.Native.Char.{Char}
use autonomous_vehicle_llm.Base.{
  String, Bool, true, false, ◌≡◌, refl, ap, ◌≢◌, not, ◌&&◌, List, [], ◌∷◌, ◌++◌, arith, All,
  Bool-cases, inl, inr,
}
use autonomous_vehicle_llm.Text.{TextOps, IsText, chars, of_chars}
use autonomous_vehicle_llm.ReasonCodes.{
  is_underscore, keep_unless_last, unless_empty, strip_left, strip_right, slug_loop, slugify_reason,
}

abbrev starts_underscore : List Char → Bool
starts_underscore [] = false
starts_underscore (c ∷ cs) = is_underscore c

abbrev ends_underscore : List Char → Bool
ends_underscore [] = false
ends_underscore (c ∷ []) = is_underscore c
ends_underscore (c ∷ d ∷ cs) = ends_underscore (d ∷ cs)

abbrev no_double : List Char → Bool
no_double [] = true
no_double (c ∷ []) = true
no_double (c ∷ d ∷ cs) = not (is_underscore c && is_underscore d) && no_double (d ∷ cs)

-- Not empty, no underscore at either end, and no two in a row.
pub record IsSlug (cs : List Char) : Type 0 where
  pub filled : cs ≢ []
  pub starts : starts_underscore cs ≡ false
  pub ends : ends_underscore cs ≡ false
  pub single : no_double cs ≡ true

abbrev Plain : List Char → Type 0
Plain = All (λ d. is_underscore d ≡ false)

no_double-append :
    (xs ys : List Char) → Plain xs → no_double ys ≡ true → no_double (xs ++ ys) ≡ true
no_double-append [] ys p h = h
no_double-append (x ∷ []) [] p h = refl
no_double-append (x ∷ []) (y ∷ ys) p h = ground arith
no_double-append (x ∷ x' ∷ xs) ys p h = ground (arith, no_double-append (x' ∷ xs) ys p.1 h)

starts-append : (xs ys : List Char) → Plain xs → xs ≢ [] → starts_underscore (xs ++ ys) ≡ false
starts-append [] ys p h = absurd (h refl)
starts-append (x ∷ xs) ys p h = p.0

strip_left-starts : (cs : List Char) → starts_underscore (strip_left cs) ≡ false
unfolding strip_left
strip_left-starts [] = refl
strip_left-starts (c ∷ cs) = ground (arith, strip_left-starts cs)

strip_left-single : (cs : List Char) → no_double cs ≡ true → no_double (strip_left cs) ≡ true
unfolding strip_left
strip_left-single [] h = refl
strip_left-single (c ∷ []) h = ground arith
strip_left-single (c ∷ d ∷ cs) h = ground (arith, strip_left-single (d ∷ cs))

-- What `keep_unless_last` does to the rest of a text that has been stripped.
keep_single :
    (c d : Char) (r : List Char)
    → not (is_underscore c && is_underscore d) ≡ true
    → no_double (d ∷ r) ≡ true
    → no_double (c ∷ keep_unless_last d r) ≡ true
keep_single c d [] h k = ground arith
keep_single c d (e ∷ r) h k = ground arith

keep_ends :
    (c : Char) (r : List Char)
    → ends_underscore r ≡ false
    → ends_underscore (keep_unless_last c r) ≡ false
keep_ends c [] h = ground arith
keep_ends c (d ∷ r) h = h

keep_starts :
    (c : Char) (r : List Char)
    → is_underscore c ≡ false
    → starts_underscore (keep_unless_last c r) ≡ false
keep_starts c [] h = ground arith
keep_starts c (d ∷ r) h = h

tail_single : (c : Char) (r : List Char) → no_double (c ∷ r) ≡ true → no_double r ≡ true
tail_single c [] h = refl
tail_single c (d ∷ r) h = ground arith

strip_right-cons :
    (c : Char) (cs : List Char) → no_double (c ∷ cs) ≡ true → no_double (c ∷ strip_right cs) ≡ true
unfolding strip_right
strip_right-cons c [] h = refl
strip_right-cons c (d ∷ cs) h =
    keep_single c d (strip_right cs) (ground arith) (strip_right-cons d cs (ground arith))

strip_right-single : (cs : List Char) → no_double cs ≡ true → no_double (strip_right cs) ≡ true
unfolding strip_right
strip_right-single [] h = refl
strip_right-single (c ∷ cs) h = go (strip_right cs) (strip_right-cons c cs h)
  where
    go : (r : List Char) → no_double (c ∷ r) ≡ true → no_double (keep_unless_last c r) ≡ true
    go [] k = ground arith
    go (d ∷ r) k = k

strip_right-ends : (cs : List Char) → ends_underscore (strip_right cs) ≡ false
unfolding strip_right
strip_right-ends [] = refl
strip_right-ends (c ∷ cs) = keep_ends c (strip_right cs) (strip_right-ends cs)

strip_right-starts :
    (cs : List Char) → starts_underscore cs ≡ false → starts_underscore (strip_right cs) ≡ false
unfolding strip_right
strip_right-starts [] h = refl
strip_right-starts (c ∷ cs) h = keep_starts c (strip_right cs) h

no_double-cons :
    (c : Char) (cs : List Char)
    → no_double cs ≡ true
    → starts_underscore cs ≡ false
    → no_double (c ∷ cs) ≡ true
no_double-cons c [] h k = refl
no_double-cons c (d ∷ cs) h k = ground arith

chars-of_chars : (cs : List Char) → chars (of_chars cs) ≡ cs
chars-of_chars [] = refl
chars-of_chars (c ∷ cs) = ap (◌∷◌ c) (chars-of_chars cs)

module _ ⦃t : TextOps⦄ (law : IsText t) where
  slug_loop-single :
      (previous : Bool) (cs : List Char)
      → (no_double (slug_loop previous cs) ≡ true)
        × (previous ≡ true → starts_underscore (slug_loop previous cs) ≡ false)
  unfolding slug_loop
  slug_loop-single previous [] = (refl, λ e. refl)
  slug_loop-single true (c ∷ cs) = elim (Bool-cases (t.is_alnum c)) [
    | inl e ↦
        rw (e, slug_loop)
          (
            no_double-append _ _ (law.lower_alnum c e).0 (slug_loop-single false cs).0,
            λ k. starts-append _ _ (law.lower_alnum c e).0 (law.lower_alnum c e).1,
          )
    | inr e ↦
        rw (e, slug_loop) ((slug_loop-single true cs).0, λ k. (slug_loop-single true cs).1 refl)
  ]
  slug_loop-single false (c ∷ cs) = elim (Bool-cases (t.is_alnum c)) [
    | inl e ↦
        rw (e, slug_loop)
          (
            no_double-append _ _ (law.lower_alnum c e).0 (slug_loop-single false cs).0,
            λ k. absurd (cc),
          )
    | inr e ↦
        rw (e, slug_loop)
          (
            no_double-cons "_" (slug_loop true cs) (slug_loop-single true cs).0
                ((slug_loop-single true cs).1 refl),
            λ k. absurd (cc),
          )
  ]

  -- If no letter or digit lowers to an underscore or to nothing, what `_slugify_reason` returns is
  -- never empty, neither starts nor ends with an underscore, and has no two underscores in a row,
  -- whatever the reason.
  pub slugify_reason-IsSlug : (reason : String) → IsSlug (chars (slugify_reason reason))
  unfolding slugify_reason
  slugify_reason-IsSlug reason = go (strip_right l) refl
    where
      l : List Char
      l = strip_left (slug_loop false (chars reason))

      go : (r : List Char) → strip_right l ≡ r → IsSlug (chars (unless_empty r))
      go [] e = record { filled = λ h. cc; starts = refl; ends = refl; single = refl }
      go (c ∷ cs) e = rw (chars-of_chars cs) (record {
        filled = λ h. cc;
        starts =
            rw e at (strip_right-starts l (strip_left-starts (slug_loop false (chars reason))));
        ends = rw e at (strip_right-ends l);
        single = rw e at (
            strip_right-single l (
              strip_left-single (slug_loop false (chars reason))
                (slug_loop-single false (chars reason)).0));
      })
