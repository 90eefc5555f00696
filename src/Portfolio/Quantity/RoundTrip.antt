-- ===== src/Portfolio/Quantity/RoundTrip.antt =====
-- Printing a quantity and reading it back.
use crypto_zalo_bot.Base.{
  ℕ, zero, suc, ◌+◌, ◌*◌, ◌-◌, Option, false, ◌/◌, ◌%◌, ◌≤◌, ◌<◌, ◌≡◌, refl, ap, ap₂, ◌∙◌, sym,
  subst, inl, inr, true, ◌&&◌, none, some, [], ◌∷◌, ◌++◌, ltb, ◌==◌, length, length-append,
  length-replicate, replicate, Text, all_digits_of, value, value-show, value-zeros, show,
  show-IsDigit, length-show, length-show_pos, IsDigit, All, All-append, Bool-cases, arith,
}
use crypto_zalo_bot.Portfolio.{quantity_scale}
use crypto_zalo_bot.Portfolio.Quantity.{
  split_dot, is_digits, strip_zeros, pad_end, pad_start, is_decimal, fraction_of, units_of_parts,
  to_quantity_units, decimals_of, format_quantity_units, numeric_text,
}

split_dot-digits : (s : Text) → All IsDigit s → split_dot s ≡ (s, none)
unfolding split_dot
split_dot-digits [] h = refl
split_dot-digits (c ∷ s) h = rw (split_dot-digits s h.1) (ground arith)

split_dot-dot : (s t : Text) → All IsDigit s → split_dot (s ++ b'.' ∷ t) ≡ (s, some t)
unfolding split_dot
split_dot-dot [] t h = refl
split_dot-dot (c ∷ s) t h = rw (split_dot-dot s t h.1) (ground arith)

strip_zeros-IsDigit : (s : Text) → All IsDigit s → All IsDigit (strip_zeros s)
unfolding strip_zeros
strip_zeros-IsDigit [] h = tt
strip_zeros-IsDigit (c ∷ s) h = ground (arith, strip_zeros-IsDigit s h.1)

length-strip_zeros : (s : Text) → length (strip_zeros s) ≤ length s
unfolding strip_zeros
length-strip_zeros [] = omega arith
length-strip_zeros (c ∷ s) = ground (arith, length-strip_zeros s)

-- Stripping twice changes nothing more.
strip_zeros_idem : (s : Text) → strip_zeros (strip_zeros s) ≡ strip_zeros s
unfolding strip_zeros
strip_zeros_idem [] = refl
strip_zeros_idem (c ∷ s) = ground (arith, strip_zeros_idem s)

empty_of_length : (s : Text) → length s ≡ 0 → s ≡ []
empty_of_length [] h = refl
empty_of_length (c ∷ s) h = absurd (omega arith)

-- Padding puts back the zeros that were stripped.
pad_end-strip_zeros : (s : Text) → pad_end (length s) (strip_zeros s) ≡ s
unfolding strip_zeros
pad_end-strip_zeros [] = refl
pad_end-strip_zeros (c ∷ s) = elim (Bool-cases ((c == b'0') && (length (strip_zeros s) == 0))) [
  | inl gone ↦
      let full : suc (length s) - 0 ≡ suc (length s) = omega arith in
      let left : length s - 0 ≡ length s = omega arith in
      let zeros =
        subst (λ t. pad_end (length s) t ≡ s) (empty_of_length (strip_zeros s) (ground arith))
          (pad_end-strip_zeros s) in
      let head : b'0' ≡ c = ground arith in
      rw (gone, full) (ap₂ (λ a t. a ∷ t) head (rw left at zeros))
  | inr kept ↦
      let same : suc (length s) - suc (length (strip_zeros s)) ≡ length s - length (strip_zeros s) =
        omega arith in
      rw (kept, same) (ap (λ t. c ∷ t) (pad_end-strip_zeros s))
]

length-pad_start : (n : ℕ) (s : Text) → length s ≤ n → length (pad_start n s) ≡ n
length-pad_start n s h = omega (
  arith,
  length-append (replicate (n - length s) b'0') s,
  length-replicate {A = ℕ} (n - length s) b'0',
)

length-decimals_of : (u : ℕ) → length (decimals_of u) ≡ 8
unfolding decimals_of
length-decimals_of u =
    length-pad_start 8 (show (u % quantity_scale))
      (length-show (u % quantity_scale) 7 (omega arith))

value-decimals_of : (u : ℕ) → value (decimals_of u) ≡ u % quantity_scale
unfolding decimals_of
value-decimals_of u =
    value-zeros (8 - length (show (u % quantity_scale))) (show (u % quantity_scale))
    ∙ value-show (u % quantity_scale)

zeros-IsDigit : (k : ℕ) → All IsDigit (replicate k b'0')
zeros-IsDigit zero = tt
zeros-IsDigit (suc k) = (omega arith, zeros-IsDigit k)

decimals_of-IsDigit : (u : ℕ) → All IsDigit (decimals_of u)
unfolding decimals_of
decimals_of-IsDigit u =
    All-append IsDigit (replicate (8 - length (show (u % quantity_scale))) b'0')
      (show (u % quantity_scale)) (zeros-IsDigit (8 - length (show (u % quantity_scale))))
      (show-IsDigit (u % quantity_scale))

is_digits-show : (n : ℕ) → is_digits (show n) ≡ true
is_digits-show n = ground (arith, length-show_pos n, all_digits_of (show n) (show-IsDigit n))

-- The value of a whole part and a fraction that strips to the stripped decimals of `u`.
units_of_parts-fraction :
    (u : ℕ) (f : Text)
    → 0 < length f
    → All IsDigit f
    → strip_zeros f ≡ strip_zeros (decimals_of u)
    → units_of_parts (show (u / quantity_scale), some f) ≡ some u
unfolding units_of_parts
units_of_parts-fraction u f pos digits same =
    let d = decimals_of u in
    let short = length-strip_zeros d in
    let eight = length-decimals_of u in
    let padded : pad_end 8 (strip_zeros d) ≡ d =
      subst (λ n. pad_end n (strip_zeros d) ≡ d) eight (pad_end-strip_zeros d) in
    rw (same, padded, value-show (u / quantity_scale), value-decimals_of u)
      (ground (arith, is_digits-show (u / quantity_scale), all_digits_of f digits, short, eight))

no_fraction : (u : ℕ) → length (strip_zeros (decimals_of u)) ≡ 0 → u % quantity_scale ≡ 0
no_fraction u e =
    let d = decimals_of u in
    let bare = empty_of_length (strip_zeros d) e in
    let zeros = subst (λ t. pad_end (length d) t ≡ d) bare (pad_end-strip_zeros d) in
    let eight = length-decimals_of u in
    sym (value-decimals_of u) ∙ ap value (sym zeros) ∙ rw eight (unfold value in refl)

units_of_parts-whole :
    (u : ℕ)
    → length (strip_zeros (decimals_of u)) ≡ 0
    → units_of_parts (show (u / quantity_scale), none) ≡ some u
unfolding units_of_parts strip_zeros
units_of_parts-whole u e =
    rw (value-show (u / quantity_scale))
      (ground (arith, is_digits-show (u / quantity_scale), no_fraction u e, value_of_zeros))
  where
    value_of_zeros : value (pad_end 8 []) ≡ 0
    value_of_zeros = unfold value in refl

-- A number of units printed without trailing zeros is read back as the same number.
pub to_quantity_units-format : (u : ℕ) → to_quantity_units (format_quantity_units u) ≡ some u
unfolding to_quantity_units format_quantity_units
to_quantity_units-format u = elim (Bool-cases (ltb 0 (length (strip_zeros (decimals_of u))))) [
  | inl fraction ↦
      rw
        (
          fraction,
          split_dot-dot (show (u / quantity_scale)) (strip_zeros (decimals_of u))
              (show-IsDigit (u / quantity_scale)),
        )
        (units_of_parts-fraction u (strip_zeros (decimals_of u)) (ground arith)
          (strip_zeros-IsDigit (decimals_of u) (decimals_of-IsDigit u))
          (strip_zeros_idem (decimals_of u)))
  | inr whole ↦
      rw (whole, split_dot-digits (show (u / quantity_scale)) (show-IsDigit (u / quantity_scale)))
        (units_of_parts-whole u (ground arith))
]

-- A stored quantity is read back exactly.
pub to_quantity_units-numeric_text : (u : ℕ) → to_quantity_units (numeric_text u) ≡ some u
unfolding to_quantity_units numeric_text
to_quantity_units-numeric_text u =
    rw
      (split_dot-dot (show (u / quantity_scale)) (decimals_of u)
        (show-IsDigit (u / quantity_scale)))
      (units_of_parts-fraction u (decimals_of u) (omega (arith, length-decimals_of u))
        (decimals_of-IsDigit u) refl)

-- Every decimal with at most eight decimals is read.
units_of_parts-some :
    (parts : Text × Option Text)
    → is_decimal parts ≡ true
    → length (fraction_of parts) ≤ 8
    → (u : ℕ) × (units_of_parts parts ≡ some u)
unfolding units_of_parts
units_of_parts-some parts h k =
    let short : ltb 8 (length (strip_zeros (fraction_of parts))) ≡ false =
      ground (arith, length-strip_zeros (fraction_of parts)) in
    rw (h, short)
      (value parts.0 * quantity_scale + value (pad_end 8 (strip_zeros (fraction_of parts))), refl)

pub to_quantity_units-some :
    (s : Text)
    → is_decimal (split_dot s) ≡ true
    → length (fraction_of (split_dot s)) ≤ 8
    → (u : ℕ) × (to_quantity_units s ≡ some u)
unfolding to_quantity_units
to_quantity_units-some s = units_of_parts-some (split_dot s)
