-- ===== src/Prelude/Float.antt =====
-- The floating-point numbers of the program. The language has no model of IEEE arithmetic, so the
-- type and the operations that the code calls are a parameter, and the laws that a proof needs
-- are a second record. All the laws hold of IEEE doubles, NaN and infinities included.
use goodputlab.Prelude.Int.{ℤ}
use mathlib.Core.Path.{◌≡◌}
use mathlib.Core.Bool.{Bool, true, false}
use goodputlab.Prelude.Result.{Result}

-- `lt` and `le` are the operators `<` and `<=`; `x > y` is `lt y x`. `eq` is `==`.
-- Only NaN is not `eq` to itself.
-- `true_div` is `/` on two integers, rounded once.
-- `round` is Python's `round` to an integer, and `truncate` is `int`: both raise at an infinity
-- and at NaN.
pub record FloatOps : Type 1 where
  pub F : Type 0
  pub of_int : ℤ → F
  pub add : F → F → F
  pub sub : F → F → F
  pub mul : F → F → F
  pub div : F → F → F
  pub true_div : ℤ → ℤ → F
  pub lt : F → F → Bool
  pub le : F → F → Bool
  pub eq : F → F → Bool
  pub round : F → Result ℤ
  pub truncate : F → Result ℤ

pub record FloatLaws (fl : FloatOps) : Type 0 where
  pub lt_irrefl : (a : fl.F) → fl.lt a a ≡ false
  pub le_of_lt : (a b : fl.F) → fl.lt a b ≡ true → fl.le a b ≡ true
  pub not_lt_of_le : (a b : fl.F) → fl.le a b ≡ true → fl.lt b a ≡ false
  pub lt_of_le_of_lt : (a b c : fl.F) → fl.le a b ≡ true → fl.lt b c ≡ true → fl.lt a c ≡ true
  pub le_of_not_lt :
      (a b : fl.F) → fl.eq a a ≡ true → fl.eq b b ≡ true → fl.lt b a ≡ false → fl.le a b ≡ true
