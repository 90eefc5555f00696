-- ===== src/Commands/Syntax/Matches.antt =====
-- What the pattern of an alert has matched.
use crypto_zalo_bot.Base.{
  ◌≡◌, refl, subst, Bool, true, false, Option, none, some, [], ◌∷◌, if◌then◌else◌, all, Text,
  Bool-cases, inl, inr, arith,
}
use crypto_zalo_bot.Alerts.{AlertDirection}
use crypto_zalo_bot.Commands.Words.{is_empty}
use crypto_zalo_bot.Commands.Syntax.{
  is_symbol_char, symbol_prefix, skip_spaces, match_operator, match_price, match_alert,
}

symbol_prefix-all : (s : Text) → all is_symbol_char (symbol_prefix s).0 ≡ true
unfolding symbol_prefix
symbol_prefix-all [] = refl
symbol_prefix-all (c ∷ s) = elim (Bool-cases (is_symbol_char c)) [
  | inl fits ↦ rw fits (ground (arith, fits, symbol_prefix-all s))
  | inr other ↦ rw other refl
]

abbrev HasMatch : Option (Text × AlertDirection × Text) → Type 0
HasMatch none = Unit
HasMatch (some (symbol, _, _)) = (is_empty symbol ≡ false) × (all is_symbol_char symbol ≡ true)

HasMatch-if :
    (b : Bool) (symbol : Text) (direction : AlertDirection) (raw : Text)
    → is_empty symbol ≡ b
    → all is_symbol_char symbol ≡ true
    → HasMatch (if b then none else some (symbol, direction, raw))
HasMatch-if true symbol direction raw e h = tt
HasMatch-if false symbol direction raw e h = (e, h)

match_price-HasMatch :
    (symbol : Text) (o : Option (AlertDirection × Text))
    → all is_symbol_char symbol ≡ true
    → HasMatch (match_price symbol o)
unfolding match_price
match_price-HasMatch symbol none h = tt
match_price-HasMatch symbol (some (direction, raw)) h =
    HasMatch-if (is_empty symbol) symbol direction raw refl h

-- The symbol of a match has characters, all of them letters and digits.
pub match_alert-symbol :
    (s symbol : Text) (direction : AlertDirection) (raw : Text)
    → match_alert s ≡ some (symbol, direction, raw)
    → (is_empty symbol ≡ false) × (all is_symbol_char symbol ≡ true)
unfolding match_alert
match_alert-symbol s symbol direction raw h = subst HasMatch h (
    match_price-HasMatch (symbol_prefix s).0 (match_operator (skip_spaces (symbol_prefix s).1))
      (symbol_prefix-all s))
