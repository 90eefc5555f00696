-- ===== src/Portfolio/Ledger/Writes.antt =====
-- The transactions of src/portfolio/portfolio.service.ts on the tables: recordTrade, deleteTrade,
-- clearTrades, listTrades and listTradesPage, each answer with the tables after it.
use crypto_zalo_bot.Base.{
  ℕ, ◌+◌, ◌-◌, ◌*◌, ◌/◌, ◌^◌, Bool, true, false, not, ◌&&◌, Option, none, some, List, [], ◌∷◌, ◌++◌,
  ltb, leb, ◌==◌, if◌then◌else◌, length, keep, find, any, take, drop, reverse, Text, text_eq,
}
use crypto_zalo_bot.Base.Number.{Number}
use crypto_zalo_bot.Portfolio.{
  TradeSide, buy, sell, PortfolioTrade, HoldingsResult, max_trades_per_chat, max_held_coins,
  history_page_size,
}
use crypto_zalo_bot.Portfolio.Balance.{any_negative}
use crypto_zalo_bot.Portfolio.Holdings.{compute_holdings, held_quantity_of}
use crypto_zalo_bot.Portfolio.Ledger.{
  Row, Tables, LimitKind, PortfolioError, Result, RecordedTrade, DeletedTrade, TradePage, to_trade,
  of_chat, select_rows, select_trades, row_bought, row_sold, bears, other_held, max_seq,
  has_message, message_of, count_write, count_view,
}

-- The CHECKs of the columns (db/migrations/0002_create_portfolio.sql): a chat id of 1 to 64 characters, a
-- symbol of 1 to 20, and a NUMERIC(21, 8) above zero.
abbrev pub fits_columns : Text → Text → ℕ → Bool
fits_columns chat_id symbol units =
    (ltb 0 (length chat_id) && leb (length chat_id) 64)
    && ((ltb 0 (length symbol) && leb (length symbol) 20) && (ltb 0 units && ltb units (10 ^ 21)))

module _ {F : Type 0} where
  -- The rule of the INSERT for the trade's side.
  unfoldable pub is_side_allowed : TradeSide → Text → ℕ → List (Row F) → Bool
  is_side_allowed buy symbol units rows = ltb (other_held symbol rows) max_held_coins
  is_side_allowed sell symbol units rows = bears symbol units rows

  -- The HAVING of the INSERT, on the rows of the chat.
  abbrev pub is_accepted : TradeSide → Text → ℕ → Option Text → List (Row F) → Bool
  is_accepted side symbol units message rows =
      not (any (has_message message) rows)
      && (ltb (length rows) max_trades_per_chat && is_side_allowed side symbol units rows)

  -- The row that the INSERT makes, from the rows of its chat.
  abbrev pub new_row : Text → TradeSide → Text → ℕ → F → Option Text → ℕ → List (Row F) → Row F
  new_row chat_id side symbol units price_usd message time rows = record {
    chat_id = chat_id;
    seq = max_seq rows + 1;
    side = side;
    symbol = symbol;
    units = units;
    price_usd = price_usd;
    created_at = time;
    source_message_id = message;
  }

  -- The INSERT of a row under the next number of its chat, and the count of it.
  abbrev pub with_row : Row F → ℕ → Tables F → Tables F
  with_row row day tables = record {
    trades = tables.trades ++ row ∷ [];
    usage = count_write row.chat_id day tables.usage;
  }

  abbrev pub trade_by_seq : ℕ → List (PortfolioTrade F) → Option (PortfolioTrade F)
  trade_by_seq seq trades = find (λ (t : PortfolioTrade F). t.seq == seq) trades

module _ (num : Number) where
  open num use {F}

  unfoldable pub refusal_of_holdings : Option (HoldingsResult F) → TradeSide → Text → PortfolioError
  refusal_of_holdings none side symbol = PortfolioError.unavailable
  refusal_of_holdings (some holdings) sell symbol =
      PortfolioError.oversell symbol (held_quantity_of num holdings symbol)
  refusal_of_holdings (some holdings) buy symbol =
      PortfolioError.limit LimitKind.coins_limit max_held_coins

  -- An exception of computeHoldings is turned into `unavailable` by `guard`.
  unfoldable pub refusal_reason : List (PortfolioTrade F) → TradeSide → Text → PortfolioError
  refusal_reason trades side symbol =
      if leb max_trades_per_chat (length trades)
      then PortfolioError.limit LimitKind.trades_limit max_trades_per_chat
      else refusal_of_holdings (compute_holdings num trades) side symbol

  -- The answer when no row was inserted.
  unfoldable pub not_inserted :
      Option (Row F) → List (PortfolioTrade F) → TradeSide → Text → Result (RecordedTrade F)
  not_inserted (some original) trades side symbol =
      Result.ok
        (record { trade = trade_by_seq original.seq trades; trades = trades; duplicate = true })
  not_inserted none trades side symbol = Result.err (refusal_reason trades side symbol)

  -- `recordTrade`: `units` is the quantity, `now` the time of the transaction.
  unfoldable pub record_trade :
      Text
      → TradeSide
      → Text
      → ℕ
      → F
      → Option Text
      → ℕ
      → ℕ
      → Tables F
      → Result (RecordedTrade F) × Tables F
  record_trade chat_id side symbol units price_usd source_message_id now day tables =
      let rows = of_chat chat_id tables.trades in
      let message = message_of source_message_id in
      let row = new_row chat_id side symbol units price_usd message now rows in
      let written = with_row row day tables in
      let after = select_trades chat_id written.trades in
      if is_accepted side symbol units message rows
      then (if fits_columns chat_id symbol units
          then (
            Result.ok
                (record { trade = trade_by_seq row.seq after; trades = after; duplicate = false }),
            written,
          )
          else (Result.err PortfolioError.unavailable, tables))
      else (
        not_inserted (find (has_message message) rows) (select_trades chat_id tables.trades) side
            symbol,
        tables,
      )

module _ {F : Type 0} where
  -- The rows of the coin without the trade number `index`, in order.
  abbrev pub without : Text → Text → ℕ → List (Row F) → List (Row F)
  without chat_id symbol index rows =
      keep (λ (r : Row F). text_eq r.symbol symbol && not (r.seq == index))
        (select_rows chat_id rows)

  -- The WHERE of the DELETE.
  abbrev pub is_target : Text → ℕ → List (Row F) → Row F → Bool
  is_target chat_id index rows target =
      (text_eq target.chat_id chat_id && (target.seq == index))
      && not (
          any_negative (row_bought target.symbol) (row_sold target.symbol) 0 0
            (without chat_id target.symbol index rows))

  unfoldable pub not_deleted : Option (PortfolioTrade F) → ℕ → PortfolioError
  not_deleted (some kept) index = PortfolioError.delete_would_oversell index kept.symbol
  not_deleted none index = PortfolioError.trade_not_found index

  unfoldable pub deleted_result :
      Option (Row F) → ℕ → List (PortfolioTrade F) → Result (DeletedTrade F)
  deleted_result (some row) index trades =
      Result.ok (record { trade = to_trade row; trades = trades })
  deleted_result none index trades = Result.err (not_deleted (trade_by_seq index trades) index)

  unfoldable pub delete_trade : Text → ℕ → Tables F → Result (DeletedTrade F) × Tables F
  delete_trade chat_id index tables =
      let left = keep (λ r. not (is_target chat_id index tables.trades r)) tables.trades in
      (
        deleted_result (find (is_target chat_id index tables.trades) tables.trades) index
            (select_trades chat_id left),
        record tables { trades = left },
      )

  unfoldable pub clear_trades : Text → Tables F → ℕ × Tables F
  clear_trades chat_id tables = (
    length (of_chat chat_id tables.trades),
    record tables { trades = keep (λ (r : Row F). not (text_eq r.chat_id chat_id)) tables.trades },
  )

  unfoldable pub list_trades : Text → ℕ → Tables F → List (PortfolioTrade F) × Tables F
  list_trades chat_id day tables = (
    select_trades chat_id tables.trades,
    record tables { usage = count_view chat_id day tables.usage },
  )

  -- `LIMIT ... OFFSET ...` newest first; a page is at least 1.
  unfoldable pub list_trades_page : Text → ℕ → List (Row F) → TradePage F
  list_trades_page chat_id page rows =
      let total = length (of_chat chat_id rows) in
      record {
        trades =
            take history_page_size
              (drop ((page - 1) * history_page_size) (reverse (select_trades chat_id rows)));
        total = total;
        page = page;
        page_count = (total + (history_page_size - 1)) / history_page_size;
      }
