-- ===== src/Examples/Fixed.antt =====
-- Numbers of twelve decimals, to run the models on: an instance of `Float` that computes.
use Prim.Native.Nat.{ℕ, suc, ◌+◌, ◌*◌, ◌/◌, ◌%◌, ◌^◌}
use mathlib.Core.Path.{◌≡◌}
use mathlib.Core.Bool.{true, false}
use native.Mathlib.Omega.{arith}
use prime_jennie_runtime.Prelude.{ltb, if◌then◌else◌}
use prime_jennie_runtime.Prelude.Int.{ℤ, pos, negsuc, ◌+ℤ◌, ◌-ℤ◌, ◌*ℤ◌, leb_ℤ, pos_part}
use prime_jennie_runtime.Prelude.Float.{Float}

abbrev unit : ℕ
unit = 1000000000000

-- Division of the magnitude by a positive number.
abbrev scale_down : ℤ → ℕ → ℤ
scale_down (pos a) d = pos (a / d)
scale_down (negsuc a) d = pos 0 -ℤ pos (suc a / d)

-- To the nearest, a half to the even one.
abbrev round_half_even : ℕ → ℕ → ℕ
round_half_even q r = if ltb (r * 2) unit then q else if ltb unit (r * 2) then q + 1 else q + q % 2

abbrev quotient : ℤ → ℤ → ℤ
quotient a (pos b) = scale_down (a *ℤ pos unit) b
quotient a (negsuc b) = pos 0 -ℤ scale_down (a *ℤ pos unit) (suc b)

pub leb_ℤ-refl : (a : ℤ) → leb_ℤ a a ≡ true
leb_ℤ-refl a = ground arith

pub leb_ℤ-trans : (a b c : ℤ) → leb_ℤ a b ≡ true → leb_ℤ b c ≡ true → leb_ℤ a c ≡ true
leb_ℤ-trans a b c h k = ground arith

pub leb_ℤ-total : (a b : ℤ) → leb_ℤ a b ≡ false → leb_ℤ b a ≡ true
leb_ℤ-total a b h = ground arith

instance abbrev pub fixed_point : Float ℤ
fixed_point = record {
  le = leb_ℤ;
  add = λ a b. a +ℤ b;
  sub = λ a b. a -ℤ b;
  mul = λ a b. scale_down (a *ℤ b) unit;
  div = quotient;
  of_ℕ = λ n. pos (n * unit);
  decimal = λ m e. pos (m * unit / 10 ^ e);
  floor = λ a. pos_part a / unit;
  round = λ a. round_half_even (pos_part a / unit) (pos_part a % unit);
  le_refl = leb_ℤ-refl;
  le_trans = leb_ℤ-trans;
  le_total = leb_ℤ-total;
}

-- The price of `n` won.
abbrev pub won : ℕ → ℤ
won n = pos (n * unit)

-- 5 is 0.005.
abbrev pub thousandths : ℕ → ℤ
thousandths n = pos (n * 1000000000)
