-- ===== src/Float/Hundredths.antt =====
-- Floats that can be computed with: whole hundredths, on which the theorems are run.
use autonomous_vehicle_llm.Base.{
  ℕ, zero, suc, ◌+◌, ◌*◌, ◌/◌, ◌^◌, ◌≡◌, true, arith, if◌then◌else◌, leb, ltb, ap,
}
use autonomous_vehicle_llm.Base.Int.{ℤ, pos, pos_part, neg_part, sub_ℕ, ◌+ℤ◌, ltb_ℤ, leb_ℤ}
use autonomous_vehicle_llm.Float.{FloatOps, IsOrdered}

pub record Hundredths : Type 0 where
  pub units : ℤ

abbrev pub hundredths : ℤ → Hundredths
hundredths n = record { units = n }

abbrev literal : ℕ → ℕ → ℕ
literal m zero = m * 100
literal m (suc zero) = m * 10
literal m (suc (suc e)) = m / 10 ^ e

abbrev magnitude : ℤ → ℕ
magnitude n = pos_part n + neg_part n

abbrev minus : ℤ → ℤ
minus n = sub_ℕ (neg_part n) (pos_part n)

-- The quotient of the magnitudes, with the sign of the product.
abbrev signed : ℤ → ℤ → ℕ → ℤ
signed a b n =
    if leb 1 (pos_part a * neg_part b + neg_part a * pos_part b) then sub_ℕ 0 n else pos n

instance abbrev pub hundredths_ops : FloatOps Hundredths
hundredths_ops = record {
  lit = λ m e. hundredths (pos (literal m e));
  of_int = λ n. hundredths (sub_ℕ (pos_part n * 100) (neg_part n * 100));
  lt = λ a b. ltb_ℤ a.units b.units;
  le = λ a b. leb_ℤ a.units b.units;
  add = λ a b. hundredths (a.units +ℤ b.units);
  sub = λ a b. hundredths (a.units +ℤ minus b.units);
  mul = λ a b. hundredths (signed a.units b.units (magnitude a.units * magnitude b.units / 100));
  div = λ a b. hundredths (signed a.units b.units (magnitude a.units * 100 / magnitude b.units));
  neg = λ a. hundredths (minus a.units);
  abs = λ a. hundredths (pos (magnitude a.units));
  -- The distance along the axes, which needs no root.
  dist = λ a b c d.
      hundredths
        (pos (magnitude (a.units +ℤ minus c.units) + magnitude (b.units +ℤ minus d.units)));
}

sub_parts : (x : ℤ) (n : ℕ) → leb_ℤ (x +ℤ minus (pos n)) x ≡ true
sub_parts x n = ground arith

le_scale : (m n : ℕ) → leb_ℤ (pos (m * 100)) (pos (n * 100)) ≡ leb m n
le_scale m n = ground arith

lt_scale : (m n : ℕ) → ltb_ℤ (pos (m * 100)) (pos (n * 100)) ≡ ltb m n
lt_scale m n = ground arith

magnitude-minus : (n : ℤ) → magnitude (minus n) ≡ magnitude n
magnitude-minus n = ground arith

pub Hundredths-IsOrdered : IsOrdered Hundredths
Hundredths-IsOrdered = record {
  le_trans = λ x y z p q. ground arith;
  refl_of_le_left = λ x y p. ground arith;
  refl_of_le_right = λ x y p. ground arith;
  le_of_lt = λ x y p. ground arith;
  le_of_not_lt = λ x y p q r. ground arith;
  sub-lit-le = λ x m e p. sub_parts x.units (literal m e);
  lit_refl = λ m e. ground arith;
  le-lit = λ m n p q. le_scale m n;
  lt-lit = λ m n p q. lt_scale m n;
  lit_scale = λ m. ap hundredths (ap pos (omega arith));
  abs-lit = λ m e. ap hundredths (ap pos (omega arith));
  abs-neg = λ x. ap hundredths (ap pos (magnitude-minus x.units));
}
