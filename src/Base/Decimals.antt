-- ===== src/Base/Decimals.antt =====
-- Decimal digits of numbers, as texts: `BigInt(text)` and `n.toString()`.
use Prim.Native.Nat.{ℕ, zero, suc, ◌+◌, ◌-◌, ◌*◌, ◌/◌, ◌%◌, ◌^◌, ◌≤◌, ◌<◌}
use mathlib.Core.Path.{◌≡◌, refl}
use mathlib.Core.Bool.{Bool, true, ◌&&◌}
use mathlib.Core.Logic.{inl, inr}
use mathlib.Core.List.{[], ◌∷◌, ◌++◌}
use native.Mathlib.Nat.{pow-suc, pow-succ', mul_assoc, mul-le-mul_right}
use native.Mathlib.Omega.{arith}
use crypto_zalo_bot.Base.Tests.{ltb, leb, if◌then◌else◌, Bool-cases}
use crypto_zalo_bot.Base.Lists.{length, length-append, all, replicate, All, All-append}
use crypto_zalo_bot.Base.Texts.{Text}

abbrev pub is_digit : ℕ → Bool
is_digit c = leb b'0' c && leb c b'9'

abbrev pub all_digits : Text → Bool
all_digits s = all is_digit s

abbrev pub IsDigit : ℕ → Type 0
IsDigit c = (b'0' ≤ c) × (c ≤ b'9')

pub all_digits_of : (s : Text) → All IsDigit s → all_digits s ≡ true
all_digits_of [] h = refl
all_digits_of (c ∷ s) h = ground (arith, all_digits_of s h.1)

-- The value of the digits, after those that gave `acc`.
unfoldable pub value_from : ℕ → Text → ℕ
value_from acc [] = acc
value_from acc (c ∷ s) = value_from (acc * 10 + (c - b'0')) s

unfoldable pub value : Text → ℕ
unfolding value_from
value s = value_from 0 s

value_from-append :
    (acc : ℕ) (s t : Text) → value_from acc (s ++ t) ≡ value_from (value_from acc s) t
unfolding value_from
value_from-append acc [] t = refl
value_from-append acc (c ∷ s) t = value_from-append (acc * 10 + (c - b'0')) s t

-- The digits with a bound on how many; `n` digits are enough for `n`.
show_from : ℕ → ℕ → Text
show_from zero n = []
show_from (suc fuel) n =
    let more = show_from fuel (n / 10) in
    if ltb n 10 then (b'0' + n) ∷ [] else more ++ (b'0' + n % 10) ∷ []

unfoldable pub show : ℕ → Text
unfolding show_from
show n = show_from (suc n) n

show_from-value : (fuel n : ℕ) → n < fuel → value_from 0 (show_from fuel n) ≡ n
unfolding show_from
show_from-value zero n h = absurd (omega arith)
show_from-value (suc fuel) n h = elim (Bool-cases (ltb n 10)) [
  | inl small ↦ rw small (unfold value_from in omega arith)
  | inr large ↦
      rw
        (
          large,
          value_from-append 0 (show_from fuel (n / 10)) ((b'0' + n % 10) ∷ []),
          show_from-value fuel (n / 10) (ground arith),
        )
        (unfold value_from in omega arith)
]

pub value-show : (n : ℕ) → value (show n) ≡ n
unfolding value show
value-show n = show_from-value (suc n) n (omega arith)

show_from-IsDigit : (fuel n : ℕ) → All IsDigit (show_from fuel n)
unfolding show_from
show_from-IsDigit zero n = tt
show_from-IsDigit (suc fuel) n = elim (Bool-cases (ltb n 10)) [
  | inl small ↦ rw small (ground arith)
  | inr large ↦ rw large (
      All-append IsDigit (show_from fuel (n / 10)) _ (show_from-IsDigit fuel (n / 10))
        (omega arith))
]

pub show-IsDigit : (n : ℕ) → All IsDigit (show n)
unfolding show
show-IsDigit n = show_from-IsDigit (suc n) n

show_from-ne : (fuel n : ℕ) → n < fuel → 0 < length (show_from fuel n)
unfolding show_from
show_from-ne zero n h = absurd (omega arith)
show_from-ne (suc fuel) n h = elim (Bool-cases (ltb n 10)) [
  | inl small ↦ rw small (omega arith)
  | inr large ↦
      rw (large, length-append (show_from fuel (n / 10)) ((b'0' + n % 10) ∷ [])) (omega arith)
]

pub length-show_pos : (n : ℕ) → 0 < length (show n)
unfolding show
length-show_pos n = show_from-ne (suc n) n (omega arith)

-- A number below 10^k has at most k digits, where k is positive.
length-show_from : (fuel n k : ℕ) → n < 10 ^ suc k → length (show_from fuel n) ≤ suc k
unfolding show_from
length-show_from zero n k h = omega arith
length-show_from (suc fuel) n zero h = ground arith
length-show_from (suc fuel) n (suc k) h = elim (Bool-cases (ltb n 10)) [
  | inl small ↦ rw small (omega arith)
  | inr large ↦
      rw (large, length-append (show_from fuel (n / 10)) ((b'0' + n % 10) ∷ []))
        (omega (arith, length-show_from fuel (n / 10) k (omega (arith, pow-suc 10 (suc k)))))
]

pub length-show : (n k : ℕ) → n < 10 ^ suc k → length (show n) ≤ suc k
unfolding show
length-show n k h = length-show_from (suc n) n k h

value_from-zeros : (k : ℕ) (s : Text) → value_from 0 (replicate k b'0' ++ s) ≡ value_from 0 s
unfolding value_from
value_from-zeros zero s = refl
value_from-zeros (suc k) s = value_from-zeros k s

pub value-zeros : (k : ℕ) (s : Text) → value (replicate k b'0' ++ s) ≡ value s
unfolding value
value-zeros k s = value_from-zeros k s

value_from-bound :
    (acc : ℕ) (s : Text) → all_digits s ≡ true → value_from acc s < (acc + 1) * 10 ^ length s
unfolding value_from
value_from-bound acc [] h = omega arith
value_from-bound acc (c ∷ s) h =
    let rest = value_from-bound (acc * 10 + (c - b'0')) s (ground arith) in
    let digit : acc * 10 + (c - b'0') + 1 ≤ (acc + 1) * 10 = ground arith in
    let grow = mul-le-mul_right (10 ^ length s) digit in
    rw (pow-succ' 10 (length s)) (omega (arith, mul_assoc (acc + 1) 10 (10 ^ length s)))

-- Digits stand for a number below 10 to their length.
pub value-bound : (s : Text) → all_digits s ≡ true → value s < 10 ^ length s
unfolding value
value-bound s h = omega (arith, value_from-bound 0 s h)

pub pow_mono : (a b : ℕ) → a ≤ b → 10 ^ a ≤ 10 ^ b
pow_mono zero zero h = omega arith
pow_mono zero (suc b) h = omega (arith, pow_mono zero b (omega arith))
pow_mono (suc a) zero h = absurd (omega arith)
pow_mono (suc a) (suc b) h = omega (arith, pow_mono a b (omega arith))
