-- ===== src/Commands/Numbers.antt =====
-- Positive numbers as chats write them (parsePositiveNumber and parsePositiveInteger of
-- src/command-parser/command-parser.service.ts).
pub mod Range
use crypto_zalo_bot.Base.{
  ℕ, ◌^◌, Bool, true, false, not, ◌&&◌, ◌||◌, Option, none, some, List, [], ◌∷◌, ◌++◌, ltb, leb,
  ◌==◌, if◌then◌else◌, length, all, keep, Text, is_digit, all_digits, value,
}
use crypto_zalo_bot.Base.Number.{Number}
use crypto_zalo_bot.Portfolio.Quantity.{split_dot, is_digits, is_decimal}
use crypto_zalo_bot.Commands.Words.{first_piece}

-- `[1-9]\d{0,2}`
unfoldable pub is_first_group : Text → Bool
is_first_group [] = false
is_first_group (c ∷ s) = (is_digit c && not (c == b'0')) && (all_digits s && leb (length s) 2)

-- `(,\d{3})+`, on the pieces after the first comma.
unfoldable pub are_groups : List Text → Bool
are_groups [] = false
are_groups (g ∷ gs) = all (λ g. all_digits g && (length g == 3)) (g ∷ gs)

-- `\d+|[1-9]\d{0,2}(,\d{3})+`
unfoldable pub is_whole : Text → Bool
is_whole s = is_digits s || (is_first_group (first_piece s).0 && are_groups (first_piece s).1)

-- POSITIVE_NUMBER_PATTERN, on the parts before and after the first dot.
unfoldable pub is_positive_number : Text × Option Text → Bool
is_positive_number (whole, none) = is_whole whole
is_positive_number (whole, some fraction) = is_whole whole && is_digits fraction

-- PLAIN_NUMBER_PATTERN
abbrev pub is_plain_number : Text → Bool
is_plain_number raw = is_decimal (split_dot raw)

-- `replace(/,/g, '')`
unfoldable pub without_commas : Text → Text
without_commas s = keep (λ c. not (c == b',')) s

pub record PositiveNumber (F : Type 0) : Type 0 where
  pub value : F
  pub plain : Text

unfoldable pub decimals_in : Text × Option Text → ℕ
decimals_in (_, none) = 0
decimals_in (_, some fraction) = length fraction

module _ (num : Number) where
  open num use {F, lit, lt, le}

  -- `Number(plain)`, of the two parts of a decimal.
  unfoldable pub number_of : Text × Option Text → F
  number_of (whole, none) = lit (value whole) 0
  number_of (whole, some fraction) = lit (value (whole ++ fraction)) (length fraction)

  unfoldable pub in_range : Text → ℕ → F → Option (PositiveNumber F)
  in_range plain max_decimals max =
      let parts = split_dot plain in
      if ltb max_decimals (decimals_in parts)
        || (le (number_of parts) (lit 0 0) || lt max (number_of parts))
      then none
      else some (record { value = number_of parts; plain = plain })

  unfoldable pub parse_positive_number : Text → ℕ → F → Option (PositiveNumber F)
  parse_positive_number raw max_decimals max =
      if is_positive_number (split_dot raw)
      then in_range (without_commas raw) max_decimals max
      else none

-- `/^\d{1,n}$/` and a number of at least 1.
unfoldable pub parse_index : ℕ → Text → Option ℕ
parse_index digits raw =
    if is_digits raw && (leb (length raw) digits && ltb 0 (value raw))
    then some (value raw)
    else none

abbrev pub parse_positive_integer : Text → Option ℕ
parse_positive_integer raw = parse_index 6 raw
