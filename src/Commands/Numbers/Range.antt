-- ===== src/Commands/Numbers/Range.antt =====
-- What a number that the parser accepts is: its range, its text and its number of decimals.
use crypto_zalo_bot.Base.{
  ℕ, ◌^◌, ◌≤◌, ◌<◌, ◌≡◌, refl, sym, ap, ◌∙◌, subst, Bool, true, false, not, ◌&&◌, ◌||◌, Option,
  none, some, [], ◌∷◌, ◌++◌, ltb, leb, ◌==◌, if◌then◌else◌, length, keep, Text, all_digits, value,
  pow_mono, value-bound, some-of-then, some-of-else, Bool-cases, inl, inr, arith,
}
use crypto_zalo_bot.Base.Number.{Number}
use crypto_zalo_bot.Portfolio.Quantity.{
  split_dot, is_digits, is_decimal, fraction_of, to_quantity_units,
}
use crypto_zalo_bot.Portfolio.Quantity.RoundTrip.{to_quantity_units-some}
use crypto_zalo_bot.Commands.Numbers.{
  is_plain_number, without_commas, PositiveNumber, number_of, decimals_in, in_range,
  parse_positive_number, parse_index, is_positive_number,
}

abbrev pub IsIndex : ℕ → ℕ → Type 0
IsIndex digits n = (1 ≤ n) × (n < 10 ^ digits)

pub parse_index-IsIndex :
    (digits : ℕ) (raw : Text) (n : ℕ) → parse_index digits raw ≡ some n → IsIndex digits n
unfolding parse_index
parse_index-IsIndex digits raw n h =
    let (fits, same) =
      some-of-then (is_digits raw && (leb (length raw) digits && ltb 0 (value raw))) (value raw) n
        h in
    let bound = value-bound raw (ground arith) in
    let wide = pow_mono (length raw) digits (ground arith) in
    subst (IsIndex digits) same (ground arith, omega arith)

-- The text that was split at its first dot.
glue : Text × Option Text → Text
glue (whole, none) = whole
glue (whole, some fraction) = whole ++ b'.' ∷ fraction

glue-cons : (c : ℕ) (parts : Text × Option Text) → glue (c ∷ parts.0, parts.1) ≡ c ∷ glue parts
unfolding glue
glue-cons c (whole, none) = refl
glue-cons c (whole, some fraction) = refl

glue-split_dot : (s : Text) → glue (split_dot s) ≡ s
unfolding split_dot glue
glue-split_dot [] = refl
glue-split_dot (c ∷ s) = elim (Bool-cases (c == b'.')) [
  | inl dot ↦ rw dot (ap (λ a. a ∷ s) (ground arith))
  | inr other ↦ rw other (glue-cons c (split_dot s) ∙ ap (λ t. c ∷ t) (glue-split_dot s))
]

keep-append : (p : ℕ → Bool) (s t : Text) → keep p (s ++ t) ≡ keep p s ++ keep p t
keep-append p [] t = refl
keep-append p (c ∷ s) t = ground (arith, keep-append p s t)

without_commas-digits : (s : Text) → all_digits s ≡ true → without_commas s ≡ s
unfolding without_commas
without_commas-digits [] h = refl
without_commas-digits (c ∷ s) h = ground (arith, without_commas-digits s (ground arith))

without_commas-glue :
    (parts : Text × Option Text)
    → is_decimal parts ≡ true
    → without_commas (glue parts) ≡ glue parts
unfolding without_commas glue
without_commas-glue (whole, none) h = without_commas-digits whole (ground arith)
without_commas-glue (whole, some fraction) h =
    rw
      (
        keep-append (λ c. not (c == b',')) whole (b'.' ∷ fraction),
        without_commas-digits whole (ground arith),
        without_commas-digits fraction (ground arith),
      )
      refl

-- A plain number holds no comma, so the text that is kept is the text that was written.
without_commas-plain : (raw : Text) → is_plain_number raw ≡ true → without_commas raw ≡ raw
without_commas-plain raw h =
    subst (λ s. without_commas s ≡ s) (glue-split_dot raw) (without_commas-glue (split_dot raw) h)

decimals_in-fraction_of :
    (parts : Text × Option Text) → decimals_in parts ≡ length (fraction_of parts)
unfolding decimals_in
decimals_in-fraction_of (whole, none) = refl
decimals_in-fraction_of (whole, some fraction) = refl

in_range-some :
    (num : Number) (plain : Text) (d : ℕ) (max : num.F) (p : PositiveNumber num.F)
    → in_range num plain d max ≡ some p
    → (decimals_in (split_dot plain) ≤ d)
      × (num.le p.value (num.lit 0 0) ≡ false)
      × (num.lt max p.value ≡ false)
      × (p.plain ≡ plain)
      × (p.value ≡ number_of num (split_dot p.plain))
unfolding in_range
in_range-some num plain d max p h =
    let v = number_of num (split_dot plain) in
    let (inside, same) =
      some-of-else
        (ltb d (decimals_in (split_dot plain)) || (num.le v (num.lit 0 0) || num.lt max v))
        (record { value = v; plain = plain }) p h in
    subst
      (λ (q : PositiveNumber num.F).
        (decimals_in (split_dot plain) ≤ d)
        × (num.le q.value (num.lit 0 0) ≡ false)
        × (num.lt max q.value ≡ false)
        × (q.plain ≡ plain)
        × (q.value ≡ number_of num (split_dot q.plain)))
      same (ground arith, ground arith, ground arith, refl, refl)

pub in_range-of :
    {F : Type 0} (b : Bool) (o : Option (PositiveNumber F)) (p : PositiveNumber F)
    → (if b then o else none) ≡ some p
    → (b ≡ true) × (o ≡ some p)
in_range-of true o p h = (refl, h)
in_range-of false o p h = absurd cc

-- A number that is accepted is above zero and at most the maximum.
pub parse_positive_number-IsAmount :
    (num : Number) (raw : Text) (d : ℕ) (max : num.F) (p : PositiveNumber num.F)
    → parse_positive_number num raw d max ≡ some p
    → (num.le p.value (num.lit 0 0) ≡ false) × (num.lt max p.value ≡ false)
unfolding parse_positive_number
parse_positive_number-IsAmount num raw d max p h =
    let (_, inside) =
      in_range-of (is_positive_number (split_dot raw)) (in_range num (without_commas raw) d max) p
        h in
    let (_, low, high, _, _) = in_range-some num (without_commas raw) d max p inside in (low, high)

-- The number is what its text says.
pub parse_positive_number-value :
    (num : Number) (raw : Text) (d : ℕ) (max : num.F) (p : PositiveNumber num.F)
    → parse_positive_number num raw d max ≡ some p
    → p.value ≡ number_of num (split_dot p.plain)
unfolding parse_positive_number
parse_positive_number-value num raw d max p h =
    let (_, inside) =
      in_range-of (is_positive_number (split_dot raw)) (in_range num (without_commas raw) d max) p
        h in
    let (_, _, _, _, read) = in_range-some num (without_commas raw) d max p inside in read

-- A plain number that is accepted with at most eight decimals is the text of an exact quantity.
pub parse_positive_number-units :
    (num : Number) (raw : Text) (max : num.F) (p : PositiveNumber num.F)
    → is_plain_number raw ≡ true
    → parse_positive_number num raw 8 max ≡ some p
    → (u : ℕ) × (to_quantity_units p.plain ≡ some u)
unfolding parse_positive_number
parse_positive_number-units num raw max p plain h =
    let (_, inside) =
      in_range-of (is_positive_number (split_dot raw)) (in_range num (without_commas raw) 8 max) p
        h in
    let (decimals, _, _, kept, _) = in_range-some num (without_commas raw) 8 max p inside in
    let bare = without_commas-plain raw plain in
    let short =
      subst (λ s. length (fraction_of (split_dot s)) ≤ 8) bare
        (subst (λ n. n ≤ 8) (decimals_in-fraction_of (split_dot (without_commas raw))) decimals) in
    subst (λ s. (u : ℕ) × (to_quantity_units s ≡ some u)) (sym (kept ∙ bare))
      (to_quantity_units-some raw plain short)
