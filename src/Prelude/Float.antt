-- ===== src/Prelude/Float.antt =====
-- Python's `float`, which this library does not define: the operations that the code uses, and the
-- laws of its order that the theorems need. IEEE 754 comparison of finite numbers has these laws;
-- NaN does not, so the models speak of runs in which no operand is NaN. No law is asked of the
-- rounded arithmetic.
use Prim.Native.Nat.{ℕ}
use mathlib.Core.Path.{◌≡◌}
use mathlib.Core.Bool.{Bool, true, false, not, ◌&&◌}
use native.Mathlib.Omega.{arith}
use prime_jennie_runtime.Prelude.Tests.{if◌then◌else◌}

pub record Float (F : Type 0) : Type 0 where
  -- `a <= b`
  pub le : F → F → Bool
  pub add : F → F → F
  pub sub : F → F → F
  pub mul : F → F → F
  pub div : F → F → F
  -- `float(n)`
  pub of_ℕ : ℕ → F
  -- the literal `m / 10 ^ e`: `decimal 75 2` is 0.75
  pub decimal : ℕ → ℕ → F
  -- `int(a)` of a number that is not negative
  pub floor : F → ℕ
  -- `round(a)` of a number that is not negative
  pub round : F → ℕ
  pub le_refl : (a : F) → le a a ≡ true
  pub le_trans : (a b c : F) → le a b ≡ true → le b c ≡ true → le a c ≡ true
  pub le_total : (a b : F) → le a b ≡ false → le b a ≡ true

module _ {F : Type 0} ⦃fl : Float F⦄ where
  -- `a < b`
  abbrev pub lt : F → F → Bool
  lt a b = not (fl.le b a)

  -- `a == b`
  abbrev pub eq : F → F → Bool
  eq a b = fl.le a b && fl.le b a

  -- `-a`
  abbrev pub neg : F → F
  neg a = fl.sub (fl.of_ℕ 0) a

  -- `max(a, b)` and `min(a, b)`: the first argument unless the second is strictly beyond.
  abbrev pub max : F → F → F
  max a b = if lt a b then b else a

  abbrev pub min : F → F → F
  min a b = if lt b a then b else a

  abbrev pub abs : F → F
  abs a = if lt a (fl.of_ℕ 0) then neg a else a

  pub le-max_left : (a b : F) → fl.le a (max a b) ≡ true
  le-max_left a b = ground (arith, fl.le_refl a, fl.le_total b a)

  pub le-max_right : (a b : F) → fl.le b (max a b) ≡ true
  le-max_right a b = ground (arith, fl.le_refl b)
