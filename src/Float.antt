-- ===== src/Float.antt =====
-- Python's floats, which the interpreter implements: the operations that the code uses, as a
-- parameter. Two built-ins are written out over them.
pub mod Hundredths
use autonomous_vehicle_llm.Base.{ℕ, ◌*◌, ◌^◌, ◌≤◌, leb, ltb, Bool, true, false, ◌≡◌, if◌then◌else◌}
use autonomous_vehicle_llm.Base.Int.{ℤ}

pub record FloatOps (F : Type 0) : Type 0 where
  -- `lit m e` is the literal m · 10⁻ᵉ: `lit 2 1` is 0.2.
  pub lit : ℕ → ℕ → F
  -- `float(n)`
  pub of_int : ℤ → F
  pub lt : F → F → Bool
  pub le : F → F → Bool
  pub add : F → F → F
  pub sub : F → F → F
  pub mul : F → F → F
  pub div : F → F → F
  pub neg : F → F
  pub abs : F → F
  -- `math.dist((a, b), (c, d))`
  pub dist : F → F → F → F → F

module _ {F : Type 0} ⦃fl : FloatOps F⦄ where
  -- `max(a, b)` is `a` unless `b > a`.
  abbrev pub py_max : F → F → F
  py_max a b = if fl.lt a b then b else a

  -- `min(a, b)` is `a` unless `b < a`.
  abbrev pub py_min : F → F → F
  py_min a b = if fl.lt b a then b else a

-- What the theorems use of floats that are no NaN. `x ≤ x` says that `x` is none.
pub record IsOrdered (F : Type 0) ⦃fl : FloatOps F⦄ : Type 0 where
  pub le_trans : (x y z : F) → fl.le x y ≡ true → fl.le y z ≡ true → fl.le x z ≡ true
  pub refl_of_le_left : (x y : F) → fl.le x y ≡ true → fl.le x x ≡ true
  pub refl_of_le_right : (x y : F) → fl.le x y ≡ true → fl.le y y ≡ true
  pub le_of_lt : (x y : F) → fl.lt x y ≡ true → fl.le x y ≡ true
  pub le_of_not_lt :
      (x y : F) → fl.le x x ≡ true → fl.le y y ≡ true → fl.lt x y ≡ false → fl.le y x ≡ true
  -- Taking away a literal, which is finite and not negative, raises nothing.
  pub sub-lit-le : (x : F) (m e : ℕ) → fl.le x x ≡ true → fl.le (fl.sub x (fl.lit m e)) x ≡ true
  pub lit_refl : (m e : ℕ) → fl.le (fl.lit m e) (fl.lit m e) ≡ true
  -- Literals of whole numbers that a double holds exactly, and the sign.
  pub le-lit : (m n : ℕ) → m ≤ 2 ^ 53 → n ≤ 2 ^ 53 → fl.le (fl.lit m 0) (fl.lit n 0) ≡ leb m n
  pub lt-lit : (m n : ℕ) → m ≤ 2 ^ 53 → n ≤ 2 ^ 53 → fl.lt (fl.lit m 0) (fl.lit n 0) ≡ ltb m n
  pub lit_scale : (m : ℕ) → fl.lit (m * 10) 1 ≡ fl.lit m 0
  pub abs-lit : (m e : ℕ) → fl.abs (fl.lit m e) ≡ fl.lit m e
  pub abs-neg : (x : F) → fl.abs (fl.neg x) ≡ fl.abs x
