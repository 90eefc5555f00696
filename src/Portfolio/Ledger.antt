-- ===== src/Portfolio/Ledger.antt =====
-- The stored trades (src/portfolio/portfolio.service.ts). Each method runs one transaction under the
-- chat's advisory lock, so it is one step on the tables; its SQL is read as the list operations that
-- it states. A NUMERIC(21, 8) quantity is its number of 10^-8 units, a price is one that
-- its column holds as it is, and the rows of `portfolio_trades` are listed in the order in which they
-- were inserted. `day` is the calendar day in Vietnam at the time of the call. A refused statement of the database is `unavailable`.
pub mod Writes
pub mod Laws
pub mod Soundness
pub mod Deletion
pub mod Replays
pub mod Answers
pub mod NewRow
use crypto_zalo_bot.Base.{
  ℕ, suc, ◌+◌, ◌-◌, ◌*◌, ◌/◌, ◌^◌, ◌<◌, Bool, true, false, not, ◌&&◌, ◌||◌, Option, none, some,
  List, [], ◌∷◌, ◌++◌, map, ltb, leb, ◌==◌, if◌then◌else◌, or_else, is_some, length, keep, find,
  any, take, drop, reverse, Text, text_eq, dedupe, sort_by,
}
use crypto_zalo_bot.Base.Number.{Number}
use crypto_zalo_bot.Portfolio.{
  TradeSide, buy, sell, PortfolioTrade, max_trades_per_chat, max_held_coins, history_page_size,
  max_source_message_id_length,
}
use crypto_zalo_bot.Portfolio.Quantity.{numeric_text}
use crypto_zalo_bot.Portfolio.Balance.{total_bought, total_sold, any_negative}
use crypto_zalo_bot.Portfolio.Holdings.{compute_holdings, held_quantity_of}

-- A row of `portfolio_trades`.
pub record Row (F : Type 0) : Type 0 where
  pub chat_id : Text
  pub seq : ℕ
  pub side : TradeSide
  pub symbol : Text
  pub units : ℕ
  pub price_usd : F
  pub created_at : ℕ
  pub source_message_id : Option Text

-- A row of `portfolio_usage`.
pub record Usage : Type 0 where
  pub chat_id : Text
  pub day : ℕ
  pub views : ℕ
  pub writes : ℕ

pub record Tables (F : Type 0) : Type 0 where
  pub trades : List (Row F)
  pub usage : List Usage

pub data LimitKind : Type 0 where
  trades_limit coins_limit : LimitKind

pub data PortfolioError : Type 0 where
  oversell : Text → Text → PortfolioError
  limit : LimitKind → ℕ → PortfolioError
  trade_not_found : ℕ → PortfolioError
  delete_would_oversell : ℕ → Text → PortfolioError
  unavailable : PortfolioError

pub data Result (A : Type 0) : Type 0 where
  ok : A → Result A
  err : PortfolioError → Result A

pub record RecordedTrade (F : Type 0) : Type 0 where
  pub trade : Option (PortfolioTrade F)
  pub trades : List (PortfolioTrade F)
  pub duplicate : Bool

pub record DeletedTrade (F : Type 0) : Type 0 where
  pub trade : PortfolioTrade F
  pub trades : List (PortfolioTrade F)

pub record TradePage (F : Type 0) : Type 0 where
  pub trades : List (PortfolioTrade F)
  pub total : ℕ
  pub page : ℕ
  pub page_count : ℕ

-- The two parts of `CASE WHEN side = 'buy' THEN quantity ELSE -quantity END`, for one coin.
abbrev pub signed : TradeSide → TradeSide → ℕ → ℕ
signed buy buy units = units
signed sell sell units = units
signed _ _ _ = 0

module _ {F : Type 0} where
  -- `toTrade`
  abbrev pub to_trade : Row F → PortfolioTrade F
  to_trade row = record {
    seq = row.seq;
    side = row.side;
    symbol = row.symbol;
    quantity = numeric_text row.units;
    price_usd = row.price_usd;
    created_at = row.created_at;
  }

  -- `WHERE chat_id = ...`
  abbrev pub of_chat : Text → List (Row F) → List (Row F)
  of_chat chat_id rows = keep (λ r. text_eq r.chat_id chat_id) rows

  -- `selectTrades`: the chat's rows in the order of `seq`.
  abbrev pub select_rows : Text → List (Row F) → List (Row F)
  select_rows chat_id rows = sort_by (λ (r : Row F). r.seq) (of_chat chat_id rows)

  abbrev pub select_trades : Text → List (Row F) → List (PortfolioTrade F)
  select_trades chat_id rows = map to_trade (select_rows chat_id rows)

  abbrev pub row_bought : Text → Row F → ℕ
  row_bought s r = if text_eq r.symbol s then signed buy r.side r.units else 0

  abbrev pub row_sold : Text → Row F → ℕ
  row_sold s r = if text_eq r.symbol s then signed sell r.side r.units else 0

  -- `SUM(...)` over one coin is at least `units`.
  abbrev pub bears : Text → ℕ → List (Row F) → Bool
  bears s units rows =
      leb (total_sold (row_bought s) (row_sold s) rows + units)
        (total_bought (row_bought s) (row_sold s) rows)

  -- The coins other than `s` with a positive sum.
  abbrev pub other_held : Text → List (Row F) → ℕ
  other_held s rows = length (
      keep
        (λ k.
          not (text_eq k s)
          && ltb (total_sold (row_bought k) (row_sold k) rows)
              (total_bought (row_bought k) (row_sold k) rows))
        (dedupe (map (λ (r : Row F). r.symbol) rows)))

  -- `COALESCE(MAX(seq), 0)`
  abbrev pub max_seq : List (Row F) → ℕ
  max_seq [] = 0
  max_seq (r ∷ rows) = let m = max_seq rows in if ltb m r.seq then r.seq else m

  -- `source_message_id = ...`, which NULL never satisfies.
  abbrev pub has_message : Option Text → Row F → Bool
  has_message (some id) r = elim r.source_message_id [ some k ↦ text_eq k id | none ↦ false ]
  has_message none r = false

-- An id longer than the column allows is not used.
abbrev pub message_of : Option Text → Option Text
message_of none = none
message_of (some id) =
    if ltb 0 (length id) && leb (length id) max_source_message_id_length then some id else none

-- `INSERT INTO portfolio_usage ... ON CONFLICT (chat_id, day) DO UPDATE`.
abbrev pub count_usage : Text → ℕ → (Usage → Usage) → Usage → List Usage → List Usage
count_usage chat_id day bump fresh [] = fresh ∷ []
count_usage chat_id day bump fresh (u ∷ us) =
    if text_eq u.chat_id chat_id && (u.day == day)
    then bump u ∷ us
    else u ∷ count_usage chat_id day bump fresh us

abbrev pub count_write : Text → ℕ → List Usage → List Usage
count_write chat_id day =
    count_usage chat_id day (λ u. record u { writes = u.writes + 1 })
      (record { chat_id = chat_id; day = day; views = 0; writes = 1 })

abbrev pub count_view : Text → ℕ → List Usage → List Usage
count_view chat_id day =
    count_usage chat_id day (λ u. record u { views = u.views + 1 })
      (record { chat_id = chat_id; day = day; views = 1; writes = 0 })
