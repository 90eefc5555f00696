-- ===== src/Base/Number.antt =====
-- The language's `number` (a double), as the type and the operations that the program applies to
-- prices and percentages. `lit m e` is the decimal literal m · 10^-e (and, at e = 0, the conversion
-- of an integer by `Number(n)`). `le a b` stands for `a <= b` and for `b >= a`; a comparison is false
-- where an argument is NaN.
use Prim.Native.Nat.{ℕ, ◌+◌, ◌*◌, ◌/◌, ◌^◌}
use mathlib.Core.Bool.{Bool, true, ◌&&◌}
use crypto_zalo_bot.Base.Tests.{◌==◌, leb, if◌then◌else◌}
use crypto_zalo_bot.Base.Int.{ℤ, pos, pos_part, neg_part, sub_ℕ, ltb_ℤ}

pub record Number : Type 1 where
  pub F : Type 0
  pub lit : ℕ → ℕ → F
  pub add : F → F → F
  pub sub : F → F → F
  pub mul : F → F → F
  pub div : F → F → F
  pub abs : F → F
  pub lt : F → F → Bool
  pub le : F → F → Bool
  pub eq : F → F → Bool
  pub is_finite : F → Bool

-- A carrier to run the definitions on: integers that count units of 10^-8. A quotient by zero is
-- zero here, where a double has an infinity or NaN.
abbrev unit : ℕ
unit = 100_000_000

-- The quotient of a difference by a positive number, rounded towards zero.
abbrev shrink : ℤ → ℕ → ℤ
shrink a n = sub_ℕ (pos_part a / n) (neg_part a / n)

abbrev scaled_mul : ℤ → ℤ → ℤ
scaled_mul a b =
    shrink
      (sub_ℕ (pos_part a * pos_part b + neg_part a * neg_part b)
        (pos_part a * neg_part b + neg_part a * pos_part b))
      unit

abbrev scaled_div : ℤ → ℤ → ℤ
scaled_div a b =
    if neg_part b == 0
    then shrink (sub_ℕ (pos_part a * unit) (neg_part a * unit)) (pos_part b)
    else shrink (sub_ℕ (neg_part a * unit) (pos_part a * unit)) (neg_part b)

abbrev pub scaled : Number
scaled = record {
  F = ℤ;
  lit = λ m e. pos (m * unit / 10 ^ e);
  add = λ a b. sub_ℕ (pos_part a + pos_part b) (neg_part a + neg_part b);
  sub = λ a b. sub_ℕ (pos_part a + neg_part b) (neg_part a + pos_part b);
  mul = scaled_mul;
  div = scaled_div;
  abs = λ a. pos (pos_part a + neg_part a);
  lt = ltb_ℤ;
  le = λ a b. leb (pos_part a + neg_part b) (pos_part b + neg_part a);
  eq = λ a b. (pos_part a == pos_part b) && (neg_part a == neg_part b);
  is_finite = λ _. true;
}
