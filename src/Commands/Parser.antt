-- ===== src/Commands/Parser.antt =====
-- `parse` of src/command-parser/command-parser.service.ts: a chat message as a command.
pub mod Forms
pub mod Arguments
use crypto_zalo_bot.Base.{
  ℕ, ◌^◌, Bool, true, false, not, ◌&&◌, ◌||◌, Option, none, some, List, [], ◌∷◌, map, ltb, leb,
  ◌==◌, if◌then◌else◌, length, all, Text, codes, text_eq, member, is_digit,
}
use crypto_zalo_bot.Base.Number.{Number}
use crypto_zalo_bot.Alerts.{AlertDirection, above, below}
use crypto_zalo_bot.Portfolio.{TradeSide, buy, sell, max_quantity_decimals}
use crypto_zalo_bot.Commands.{
  CommandType, AlertCommandArgs, PortfolioCommandArgs, SignalCommandArgs, ParsedCommand,
}
use crypto_zalo_bot.Commands.Words.{
  Unicode, is_space, is_empty, trim, words, join_words, plain_word, parse_symbols,
}
use crypto_zalo_bot.Commands.Numbers.{
  PositiveNumber, is_plain_number, parse_positive_number, parse_index, parse_positive_integer,
}
use crypto_zalo_bot.Commands.Syntax.{
  price_command_aliases, help_command_aliases, subscribe_command_aliases,
  unsubscribe_command_aliases, watchlist_command_aliases, alert_command_aliases, delete_keywords,
  portfolio_command_aliases, signal_command_aliases, signal_backtest_keywords,
  signal_stats_keywords, signal_off_keywords, signal_on_keywords, signal_keyword_typos,
  portfolio_buy_keywords, portfolio_sell_keywords, portfolio_history_keywords,
  portfolio_clear_keywords, portfolio_confirm_keywords, max_symbol_length, max_threshold_decimals,
  is_symbol_char, is_valid_symbol, symbol_prefix, skip_spaces, match_operator, match_alert,
}

module _ (num : Number) (unicode : Unicode) where
  open num use {F, lit}

  -- 1e12, both MAX_ALERT_THRESHOLD and MAX_QUANTITY.
  abbrev pub max_amount : F
  max_amount = lit 1_000_000_000_000 0

  abbrev pub bare : CommandType → List Text → ParsedCommand F
  bare type symbols = record {
    type = type;
    symbols = symbols;
    alert = none;
    portfolio = none;
    signal = none;
  }

  abbrev pub alert_command :
      CommandType → List Text → Option AlertDirection → Option F → Option ℕ → ParsedCommand F
  alert_command type symbols direction threshold index = record (bare type symbols) {
    alert = some (record { direction = direction; threshold = threshold; index = index });
  }

  abbrev pub no_portfolio_args : PortfolioCommandArgs F
  no_portfolio_args = record {
    side = none;
    quantity = none;
    price_usd = none;
    page = none;
    index = none;
    confirmed = none;
  }

  abbrev pub portfolio_command : CommandType → List Text → PortfolioCommandArgs F → ParsedCommand F
  portfolio_command type symbols args = record (bare type symbols) { portfolio = some args }

  unfoldable pub alert_deleted : Option ℕ → ParsedCommand F
  alert_deleted none = bare CommandType.alert_invalid []
  alert_deleted (some index) = alert_command CommandType.alert_delete [] none none (some index)

  unfoldable pub alert_delete : List Text → ParsedCommand F
  alert_delete (raw ∷ []) = alert_deleted (parse_index 3 raw)
  alert_delete _ = bare CommandType.alert_invalid []

  unfoldable pub alert_created : Text → AlertDirection → Option (PositiveNumber F) → ParsedCommand F
  alert_created symbol direction none = bare CommandType.alert_invalid []
  alert_created symbol direction (some threshold) =
      if ltb max_symbol_length (length symbol)
      then bare CommandType.alert_invalid []
      else alert_command CommandType.alert_create (symbol ∷ []) (some direction)
          (some threshold.value) none

  unfoldable pub alert_create : Option (Text × AlertDirection × Text) → ParsedCommand F
  alert_create none = bare CommandType.alert_invalid []
  alert_create (some (symbol, direction, raw)) =
      alert_created symbol direction
        (parse_positive_number num raw max_threshold_decimals max_amount)

  -- `parseAlert`, of the arguments without case and diacritics.
  unfoldable pub parse_alert : List Text → ParsedCommand F
  parse_alert [] = bare CommandType.alert_list []
  parse_alert (keyword ∷ rest) =
      if member keyword delete_keywords
      then alert_delete rest
      else alert_create (match_alert (join_words (keyword ∷ rest)))

  unfoldable pub signal_toggle : Bool → List Text → ParsedCommand F
  signal_toggle enabled [] = record (bare CommandType.signal_toggle []) {
    signal = some (record { enabled = some enabled });
  }
  signal_toggle enabled (_ ∷ _) = bare CommandType.signal_invalid []

  unfoldable pub signal_backtest : List Text → ParsedCommand F
  signal_backtest (symbol ∷ []) =
      if is_valid_symbol symbol
      then bare CommandType.signal_backtest (symbol ∷ [])
      else bare CommandType.signal_invalid []
  signal_backtest _ = bare CommandType.signal_invalid []

  unfoldable pub signal_stats : List Text → ParsedCommand F
  signal_stats [] = bare CommandType.signal_stats []
  signal_stats (_ ∷ _) = bare CommandType.signal_invalid []

  unfoldable pub signal_view : Text → List Text → ParsedCommand F
  signal_view symbol [] =
      if is_valid_symbol symbol && not (member symbol signal_keyword_typos)
      then bare CommandType.signal_view (symbol ∷ [])
      else bare CommandType.signal_invalid []
  signal_view symbol (_ ∷ _) = bare CommandType.signal_invalid []

  unfoldable pub parse_signal : List Text → ParsedCommand F
  parse_signal [] = bare CommandType.signal_view []
  parse_signal (keyword ∷ rest) =
      if is_empty keyword
      then bare CommandType.signal_view []
      else if member keyword signal_stats_keywords
      then signal_stats rest
      else if member keyword signal_off_keywords || member keyword signal_on_keywords
      then signal_toggle (member keyword signal_on_keywords) rest
      else if member keyword signal_backtest_keywords
      then signal_backtest rest
      else signal_view keyword rest

  unfoldable pub quantity_of : Text → Option (PositiveNumber F)
  quantity_of raw =
      if is_plain_number raw
      then parse_positive_number num raw max_quantity_decimals max_amount
      else none

  unfoldable pub portfolio_traded :
      TradeSide → Text → Option (PositiveNumber F) → Option (PositiveNumber F) → ParsedCommand F
  portfolio_traded side symbol (some quantity) (some price) =
      if is_valid_symbol symbol
      then portfolio_command CommandType.portfolio_trade (symbol ∷ []) (record no_portfolio_args {
        side = some side;
        quantity = some quantity.plain;
        price_usd = some price.value;
      })
      else bare CommandType.portfolio_invalid []
  portfolio_traded side symbol _ _ = bare CommandType.portfolio_invalid []

  unfoldable pub portfolio_trade : TradeSide → List Text → ParsedCommand F
  portfolio_trade side (symbol ∷ raw_quantity ∷ raw_price ∷ []) =
      portfolio_traded side symbol (quantity_of raw_quantity)
        (parse_positive_number num raw_price max_threshold_decimals max_amount)
  portfolio_trade side _ = bare CommandType.portfolio_invalid []

  unfoldable pub history_page : Option ℕ → ParsedCommand F
  history_page none = bare CommandType.portfolio_invalid []
  history_page (some page) =
      portfolio_command CommandType.portfolio_history []
        (record no_portfolio_args { page = some page })

  unfoldable pub portfolio_history : List Text → ParsedCommand F
  portfolio_history [] = history_page (some 1)
  portfolio_history (raw ∷ []) = history_page (parse_positive_integer raw)
  portfolio_history (_ ∷ _ ∷ _) = bare CommandType.portfolio_invalid []

  unfoldable pub portfolio_deleted : Option ℕ → ParsedCommand F
  portfolio_deleted none = bare CommandType.portfolio_invalid []
  portfolio_deleted (some index) =
      portfolio_command CommandType.portfolio_delete []
        (record no_portfolio_args { index = some index })

  unfoldable pub portfolio_delete : List Text → ParsedCommand F
  portfolio_delete (raw ∷ []) = portfolio_deleted (parse_positive_integer raw)
  portfolio_delete _ = bare CommandType.portfolio_invalid []

  unfoldable pub portfolio_cleared : Bool → ParsedCommand F
  portfolio_cleared confirmed =
      portfolio_command CommandType.portfolio_clear []
        (record no_portfolio_args { confirmed = some confirmed })

  unfoldable pub portfolio_clear : List Text → ParsedCommand F
  portfolio_clear [] = portfolio_cleared false
  portfolio_clear (word ∷ []) =
      if member word portfolio_confirm_keywords
      then portfolio_cleared true
      else bare CommandType.portfolio_invalid []
  portfolio_clear (_ ∷ _ ∷ _) = bare CommandType.portfolio_invalid []

  unfoldable pub parse_portfolio : List Text → ParsedCommand F
  parse_portfolio [] = bare CommandType.portfolio_view []
  parse_portfolio (keyword ∷ rest) =
      if is_empty keyword
      then bare CommandType.portfolio_view []
      else if member keyword portfolio_buy_keywords || member keyword portfolio_sell_keywords
      then portfolio_trade (if member keyword portfolio_buy_keywords then buy else sell) rest
      else if member keyword portfolio_history_keywords
      then portfolio_history rest
      else if member keyword delete_keywords
      then portfolio_delete rest
      else if member keyword portfolio_clear_keywords
      then portfolio_clear rest
      else bare CommandType.portfolio_invalid []

  unfoldable pub prices : List Text → ParsedCommand F
  prices [] = bare CommandType.top_markets []
  prices (symbol ∷ symbols) = bare CommandType.price (parse_symbols unicode (symbol ∷ symbols))

  -- The command by its first word.
  unfoldable pub parse_words : List Text → ParsedCommand F
  parse_words [] = bare CommandType.unknown []
  parse_words (raw_command ∷ raw_symbols) =
      let command = plain_word unicode raw_command in
      let args = map (plain_word unicode) raw_symbols in
      if member command help_command_aliases
      then bare CommandType.help []
      else if member command unsubscribe_command_aliases
      then bare CommandType.unsubscribe []
      else if member command subscribe_command_aliases
      then bare CommandType.subscribe (parse_symbols unicode raw_symbols)
      else if member command watchlist_command_aliases
      then bare CommandType.watchlist (parse_symbols unicode raw_symbols)
      else if member command alert_command_aliases
      then parse_alert args
      else if member command portfolio_command_aliases
      then parse_portfolio args
      else if member command signal_command_aliases
      then parse_signal args
      else if not (member (unicode.to_lower_case raw_command) price_command_aliases)
          && not (text_eq command (codes "gia"))
      then bare CommandType.unknown []
      else prices raw_symbols

  -- A message that does not start with a slash is no command.
  unfoldable pub parse_trimmed : Text → ParsedCommand F
  parse_trimmed [] = bare CommandType.unknown []
  parse_trimmed (c ∷ s) = if c == b'/' then parse_words (words s) else bare CommandType.unknown []

  unfoldable pub parse : Text → ParsedCommand F
  parse raw_text = parse_trimmed (trim raw_text)
