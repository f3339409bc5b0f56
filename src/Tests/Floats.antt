-- ===== src/Tests/Floats.antt =====
-- An instance of the floating-point interface that runs: fixed-point numbers in thousandths.
use goodputlab.Prelude.{suc, ◌+◌, ◌/◌, Bool, ◌==◌, arith}
use goodputlab.Prelude.Float.{FloatOps, FloatLaws}
use goodputlab.Prelude.Int.{
  ℤ, pos, negsuc, pos_part, neg_part, sub_ℕ, ◌+ℤ◌, ◌-ℤ◌, ◌*ℤ◌, ltb_ℤ, leb_ℤ,
}
use goodputlab.Prelude.Result.{ok}

-- The quotient towards zero.
abbrev pub quot : ℤ → ℤ → ℤ
quot (pos a) (pos b) = pos (a / b)
quot (pos a) (negsuc b) = sub_ℕ 0 (a / suc b)
quot (negsuc a) (pos b) = sub_ℕ 0 (suc a / b)
quot (negsuc a) (negsuc b) = pos (suc a / suc b)

abbrev pub eqb_ℤ : ℤ → ℤ → Bool
eqb_ℤ a b = pos_part a + neg_part b == pos_part b + neg_part a

-- To the nearest integer.
abbrev pub nearest : ℤ → ℤ
nearest (pos a) = pos ((a + 500) / 1000)
nearest (negsuc a) = sub_ℕ 0 ((a + 500) / 1000)

abbrev pub milli : FloatOps
milli = record {
  F = ℤ;
  of_int = λ n. n *ℤ pos 1000;
  add = ◌+ℤ◌;
  sub = ◌-ℤ◌;
  mul = λ a b. quot (a *ℤ b) (pos 1000);
  div = λ a b. quot (a *ℤ pos 1000) b;
  true_div = λ a b. quot (a *ℤ pos 1000) b;
  lt = ltb_ℤ;
  le = leb_ℤ;
  eq = eqb_ℤ;
  round = λ a. ok (nearest a);
  truncate = λ a. ok (quot a (pos 1000));
}

pub milli_laws : FloatLaws milli
milli_laws = record {
  lt_irrefl = λ a. ground arith;
  le_of_lt = λ a b h. ground arith;
  not_lt_of_le = λ a b h. ground arith;
  lt_of_le_of_lt = λ a b c h k. ground arith;
  le_of_not_lt = λ a b h k l. ground arith;
}
