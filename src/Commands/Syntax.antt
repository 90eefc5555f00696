-- ===== src/Commands/Syntax.antt =====
-- The words and patterns of src/command-parser/command-parser.service.ts.
pub mod Matches
use crypto_zalo_bot.Base.{
  ℕ, Bool, true, false, not, ◌&&◌, ◌||◌, Option, none, some, List, [], ◌∷◌, ltb, leb, ◌==◌,
  if◌then◌else◌, length, all, Text, codes, is_digit,
}
use crypto_zalo_bot.Alerts.{AlertDirection, above, below}
use crypto_zalo_bot.Commands.Words.{is_space, is_empty}

abbrev pub price_command_aliases : List Text
price_command_aliases = codes "gia" ∷ codes "gía" ∷ codes "giá" ∷ codes "price" ∷ []

abbrev pub help_command_aliases : List Text
help_command_aliases = codes "help" ∷ codes "start" ∷ codes "trogiup" ∷ codes "trợgiúp" ∷ []

abbrev pub subscribe_command_aliases : List Text
subscribe_command_aliases = codes "dangky" ∷ codes "subscribe" ∷ []

abbrev pub unsubscribe_command_aliases : List Text
unsubscribe_command_aliases = codes "huy" ∷ codes "huydangky" ∷ codes "unsubscribe" ∷ []

abbrev pub watchlist_command_aliases : List Text
watchlist_command_aliases = codes "watchlist" ∷ codes "danhsach" ∷ codes "ds" ∷ []

abbrev pub alert_command_aliases : List Text
alert_command_aliases = codes "canhbao" ∷ codes "alert" ∷ []

-- ALERT_DELETE_KEYWORDS and PORTFOLIO_DELETE_KEYWORDS.
abbrev pub delete_keywords : List Text
delete_keywords = codes "xoa" ∷ codes "delete" ∷ []

abbrev pub portfolio_command_aliases : List Text
portfolio_command_aliases = codes "danhmuc" ∷ codes "portfolio" ∷ []

abbrev pub signal_command_aliases : List Text
signal_command_aliases = codes "tinhieu" ∷ codes "signal" ∷ codes "signals" ∷ []

abbrev pub signal_backtest_keywords : List Text
signal_backtest_keywords = codes "backtest" ∷ []

abbrev pub signal_stats_keywords : List Text
signal_stats_keywords = codes "thongke" ∷ []

abbrev pub signal_off_keywords : List Text
signal_off_keywords = codes "tat" ∷ []

abbrev pub signal_on_keywords : List Text
signal_on_keywords = codes "bat" ∷ []

abbrev pub signal_keyword_typos : List Text
signal_keyword_typos =
    codes "tatt"
    ∷ codes "batt"
    ∷ codes "thongk"
    ∷ codes "thongkee"
    ∷ codes "backtes"
    ∷ codes "bactest"
    ∷ codes "backtst"
    ∷ []

abbrev pub portfolio_buy_keywords : List Text
portfolio_buy_keywords = codes "mua" ∷ codes "buy" ∷ []

abbrev pub portfolio_sell_keywords : List Text
portfolio_sell_keywords = codes "ban" ∷ codes "sell" ∷ []

abbrev pub portfolio_history_keywords : List Text
portfolio_history_keywords = codes "lichsu" ∷ codes "history" ∷ []

abbrev pub portfolio_clear_keywords : List Text
portfolio_clear_keywords = codes "xoahet" ∷ codes "clear" ∷ []

abbrev pub portfolio_confirm_keywords : List Text
portfolio_confirm_keywords = codes "xacnhan" ∷ codes "confirm" ∷ []

-- MAX_ALERT_SYMBOL_LENGTH and MAX_PORTFOLIO_SYMBOL_LENGTH.
abbrev pub max_symbol_length : ℕ
max_symbol_length = 20

abbrev pub max_threshold_decimals : ℕ
max_threshold_decimals = 8

-- `[a-z0-9]`
unfoldable pub is_symbol_char : ℕ → Bool
is_symbol_char c = is_digit c || (leb b'a' c && leb c b'z')

-- `/^[a-z0-9]+$/` and the length.
unfoldable pub is_valid_symbol : Text → Bool
is_valid_symbol symbol =
    (ltb 0 (length symbol) && all is_symbol_char symbol) && leb (length symbol) max_symbol_length

-- `[a-z0-9]*` in front, and what follows.
unfoldable pub symbol_prefix : Text → Text × Text
symbol_prefix [] = ([], [])
symbol_prefix (c ∷ s) =
    let (symbol, rest) = symbol_prefix s in
    if is_symbol_char c then (c ∷ symbol, rest) else ([], c ∷ s)

-- `\s*` in front goes.
pub skip_spaces : Text → Text
skip_spaces [] = []
skip_spaces (c ∷ s) = let rest = skip_spaces s in if is_space c then rest else c ∷ s

-- `[<>]`, and the price token after it, which holds no white space.
pub match_operator : Text → Option (AlertDirection × Text)
match_operator [] = none
match_operator (c ∷ s) =
    let raw = skip_spaces s in
    let found = ltb 0 (length raw) && all (λ k. not (is_space k)) raw in
    if found && (c == b'>')
    then some (above, raw)
    else if found && (c == b'<')
    then some (below, raw)
    else none

match_price : Text → Option (AlertDirection × Text) → Option (Text × AlertDirection × Text)
match_price symbol none = none
match_price symbol (some (direction, raw)) =
    if is_empty symbol then none else some (symbol, direction, raw)

-- ALERT_CREATE_PATTERN: the symbol, the operator and the price token.
pub match_alert : Text → Option (Text × AlertDirection × Text)
match_alert s =
    let (symbol, rest) = symbol_prefix s in match_price symbol (match_operator (skip_spaces rest))
