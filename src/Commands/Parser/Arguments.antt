-- ===== src/Commands/Parser/Arguments.antt =====
-- The arguments that a command of each type carries
-- (src/command-parser/interfaces/parsed-command.interface.ts).
use crypto_zalo_bot.Base.{
  ◌≤◌, ◌&&◌, leb, length, all, All, is_digit, Bool-cases, inl, inr, arith, ℕ, ◌≡◌, ◌⊎◌, true, false,
  none, some, [], ◌∷◌, Bool, Text, IsDistinct,
}
use crypto_zalo_bot.Base.Number.{Number}
use crypto_zalo_bot.Alerts.{AlertDirection}
use crypto_zalo_bot.Portfolio.{TradeSide}
use crypto_zalo_bot.Portfolio.Quantity.{split_dot, to_quantity_units}
use crypto_zalo_bot.Commands.{CommandType, PortfolioCommandArgs, ParsedCommand}
use crypto_zalo_bot.Commands.Numbers.{number_of}
use crypto_zalo_bot.Commands.Numbers.Range.{IsIndex}
use crypto_zalo_bot.Commands.Syntax.{is_symbol_char, is_valid_symbol}

-- The exact text of a quantity.
abbrev pub IsExact : Text → Type 0
IsExact quantity = (u : ℕ) × (to_quantity_units quantity ≡ some u)

-- A digit or a lower-case letter.
abbrev pub IsSymbolCode : ℕ → Type 0
IsSymbolCode c = ((b'0' ≤ c) × (c ≤ b'9')) ⊎ ((b'a' ≤ c) × (c ≤ b'z'))

-- 1 to 20 digits and lower-case letters.
abbrev pub IsSymbol : Text → Type 0
IsSymbol symbol = (1 ≤ length symbol) × (length symbol ≤ 20) × All IsSymbolCode symbol

is_symbol_char-IsSymbolCode : (c : ℕ) → is_symbol_char c ≡ true → IsSymbolCode c
unfolding is_symbol_char is_digit
is_symbol_char-IsSymbolCode c h = elim (Bool-cases (leb b'0' c && leb c b'9')) [
  | inl digit ↦ inl (ground arith, ground arith)
  | inr other ↦ inr (ground arith, ground arith)
]

all-IsSymbolCode : (s : Text) → all is_symbol_char s ≡ true → All IsSymbolCode s
all-IsSymbolCode [] h = tt
all-IsSymbolCode (c ∷ s) h =
    (is_symbol_char-IsSymbolCode c (ground arith), all-IsSymbolCode s (ground arith))

pub is_valid_symbol-IsSymbol : (s : Text) → is_valid_symbol s ≡ true → IsSymbol s
unfolding is_valid_symbol
is_valid_symbol-IsSymbol s h = (ground arith, ground arith, all-IsSymbolCode s (ground arith))

module _ (num : Number) where
  open num use {F}

  -- Above zero and at most 1e12.
  abbrev pub IsAmount : F → Type 0
  IsAmount v = (num.le v (num.lit 0 0) ≡ false) × (num.lt (num.lit 1_000_000_000_000 0) v ≡ false)

  abbrev pub HasSymbol : ParsedCommand F → Type 0
  HasSymbol c = (symbol : Text) × (c.symbols ≡ symbol ∷ []) × IsSymbol symbol

  abbrev pub HasThreshold : ParsedCommand F → Type 0
  HasThreshold c =
      (direction : AlertDirection) × (threshold : F) × (c.alert
        ≡ some (record { direction = some direction; threshold = some threshold; index = none }))
      × IsAmount threshold

  abbrev pub HasAlertIndex : ParsedCommand F → Type 0
  HasAlertIndex c =
      (n : ℕ) × (c.alert ≡ some (record { direction = none; threshold = none; index = some n }))
      × IsIndex 3 n

  abbrev pub HasTrade : ParsedCommand F → Type 0
  HasTrade c =
      (side : TradeSide) × (quantity : Text) × (price : F) × (c.portfolio
        ≡ some (record {
          side = some side;
          quantity = some quantity;
          price_usd = some price;
          page = none;
          index = none;
          confirmed = none;
        }))
      × IsExact quantity
      × IsAmount (number_of num (split_dot quantity))
      × IsAmount price

  abbrev pub no_args : PortfolioCommandArgs F
  no_args = record {
    side = none;
    quantity = none;
    price_usd = none;
    page = none;
    index = none;
    confirmed = none;
  }

  abbrev pub HasPage : ParsedCommand F → Type 0
  HasPage c = (n : ℕ) × (c.portfolio ≡ some (record no_args { page = some n })) × IsIndex 6 n

  abbrev pub HasTradeIndex : ParsedCommand F → Type 0
  HasTradeIndex c = (n : ℕ) × (c.portfolio ≡ some (record no_args { index = some n })) × IsIndex 6 n

  abbrev pub HasConfirmation : ParsedCommand F → Type 0
  HasConfirmation c = (b : Bool) × (c.portfolio ≡ some (record no_args { confirmed = some b }))

  abbrev pub HasSetting : ParsedCommand F → Type 0
  HasSetting c = (b : Bool) × (c.signal ≡ some (record { enabled = some b }))

  -- No argument at all.
  abbrev pub HasNothing : ParsedCommand F → Type 0
  HasNothing c = (c.symbols ≡ []) × (c.alert ≡ none) × (c.portfolio ≡ none) × (c.signal ≡ none)

  -- Symbols alone, each of them once. There may be none.
  abbrev pub HasSymbols : ParsedCommand F → Type 0
  HasSymbols c = IsDistinct c.symbols × (c.alert ≡ none) × (c.portfolio ≡ none) × (c.signal ≡ none)

  abbrev pub HasSymbolAtMost : ParsedCommand F → Type 0
  HasSymbolAtMost c =
      ((c.symbols ≡ []) ⊎ HasSymbol c) × (c.alert ≡ none) × (c.portfolio ≡ none) × (c.signal ≡ none)

  -- The arguments that a command of each type carries.
  abbrev pub HasArguments : CommandType → ParsedCommand F → Type 0
  HasArguments CommandType.alert_create c =
      HasSymbol c × HasThreshold c × (c.portfolio ≡ none) × (c.signal ≡ none)
  HasArguments CommandType.alert_delete c =
      HasAlertIndex c × (c.symbols ≡ []) × (c.portfolio ≡ none) × (c.signal ≡ none)
  HasArguments CommandType.portfolio_trade c =
      HasSymbol c × HasTrade c × (c.alert ≡ none) × (c.signal ≡ none)
  HasArguments CommandType.portfolio_history c =
      HasPage c × (c.symbols ≡ []) × (c.alert ≡ none) × (c.signal ≡ none)
  HasArguments CommandType.portfolio_delete c =
      HasTradeIndex c × (c.symbols ≡ []) × (c.alert ≡ none) × (c.signal ≡ none)
  HasArguments CommandType.portfolio_clear c =
      HasConfirmation c × (c.symbols ≡ []) × (c.alert ≡ none) × (c.signal ≡ none)
  HasArguments CommandType.signal_backtest c =
      HasSymbol c × (c.alert ≡ none) × (c.portfolio ≡ none) × (c.signal ≡ none)
  HasArguments CommandType.signal_toggle c =
      HasSetting c × (c.symbols ≡ []) × (c.alert ≡ none) × (c.portfolio ≡ none)
  HasArguments CommandType.price c = HasSymbols c
  HasArguments CommandType.subscribe c = HasSymbols c
  HasArguments CommandType.watchlist c = HasSymbols c
  HasArguments CommandType.signal_view c = HasSymbolAtMost c
  HasArguments _ c = HasNothing c

  abbrev pub IsFormed : ParsedCommand F → Type 0
  IsFormed c = HasArguments c.type c
