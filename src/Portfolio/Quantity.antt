-- ===== src/Portfolio/Quantity.antt =====
-- Exact quantities as numbers of 10^-8 units (src/portfolio/portfolio-calculator.ts).
pub mod RoundTrip
use crypto_zalo_bot.Base.{
  ℕ, ◌+◌, ◌-◌, ◌*◌, ◌/◌, ◌%◌, Bool, true, false, ◌&&◌, Option, none, some, List, [], ◌∷◌, ◌++◌, ltb,
  ◌==◌, if◌then◌else◌, length, replicate, Text, all_digits, value, show,
}
use crypto_zalo_bot.Portfolio.{max_quantity_decimals, quantity_scale}

-- The text before the first dot, and the text after it if there is a dot.
unfoldable pub split_dot : Text → Text × Option Text
split_dot [] = ([], none)
split_dot (c ∷ s) =
    let (whole, fraction) = split_dot s in if c == b'.' then ([], some s) else (c ∷ whole, fraction)

abbrev pub is_digits : Text → Bool
is_digits s = ltb 0 (length s) && all_digits s

-- DECIMAL_PATTERN, `/^\d+(\.\d+)?$/`, on the two parts.
abbrev pub is_decimal : Text × Option Text → Bool
is_decimal (whole, none) = is_digits whole
is_decimal (whole, some fraction) = is_digits whole && is_digits fraction

-- `replace(/0+$/, '')`
unfoldable pub strip_zeros : Text → Text
strip_zeros [] = []
strip_zeros (c ∷ s) =
    let rest = strip_zeros s in if (c == b'0') && (length rest == 0) then [] else c ∷ rest

-- `padEnd` and `padStart` with zeros.
abbrev pub pad_end : ℕ → Text → Text
pad_end n s = s ++ replicate (n - length s) b'0'

abbrev pub pad_start : ℕ → Text → Text
pad_start n s = replicate (n - length s) b'0' ++ s

abbrev pub fraction_of : Text × Option Text → Text
fraction_of (_, none) = []
fraction_of (_, some fraction) = fraction

-- `none` stands for the InconsistentTradesError.
units_of_parts : Text × Option Text → Option ℕ
units_of_parts parts =
    let significant = strip_zeros (fraction_of parts) in
    if is_decimal parts
    then (if ltb max_quantity_decimals (length significant)
        then none
        else some
            (value parts.0 * quantity_scale + value (pad_end max_quantity_decimals significant)))
    else none

unfoldable pub to_quantity_units : Text → Option ℕ
unfolding units_of_parts split_dot strip_zeros
to_quantity_units quantity = units_of_parts (split_dot quantity)

-- The eight decimals of a number of units.
unfoldable pub decimals_of : ℕ → Text
decimals_of units = pad_start max_quantity_decimals (show (units % quantity_scale))

unfoldable pub format_quantity_units : ℕ → Text
unfolding decimals_of
format_quantity_units units =
    let fraction = strip_zeros (decimals_of units) in
    if ltb 0 (length fraction)
    then show (units / quantity_scale) ++ b'.' ∷ fraction
    else show (units / quantity_scale)

-- The text of a stored NUMERIC(21, 8): always eight decimals.
unfoldable pub numeric_text : ℕ → Text
unfolding decimals_of
numeric_text u = show (u / quantity_scale) ++ b'.' ∷ decimals_of u
