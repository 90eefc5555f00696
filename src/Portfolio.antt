-- ===== src/Portfolio.antt =====
-- The portfolio (src/portfolio): the records of interfaces/portfolio.interface.ts and the limits of
-- portfolio.constants.ts. An instant is its epoch milliseconds.
pub mod Quantity
pub mod Balance
pub mod Holdings
pub mod Ledger
pub mod Value
pub mod Prices
mod Tests
use crypto_zalo_bot.Base.{ℕ, ◌*◌, ◌^◌, Text, List, Option, Dict}

pub data TradeSide : Type 0 where
  buy sell : TradeSide

pub record PortfolioTrade (F : Type 0) : Type 0 where
  pub seq : ℕ
  pub side : TradeSide
  pub symbol : Text
  -- An exact decimal text.
  pub quantity : Text
  pub price_usd : F
  pub created_at : ℕ

pub record Holding (F : Type 0) : Type 0 where
  pub symbol : Text
  pub quantity : Text
  pub quantity_units : ℕ
  pub avg_cost_usd : F
  pub cost_basis_usd : F

pub record HoldingsResult (F : Type 0) : Type 0 where
  pub holdings : List (Holding F)
  pub realized_pnl_usd : F
  pub realized_by_symbol : Dict F

pub record HoldingPrice (F : Type 0) : Type 0 where
  pub price_usd : F
  pub change_percent24h : Option F

pub record PricedHoldingLine (F : Type 0) : Type 0 where
  pub symbol : Text
  pub quantity : Text
  pub price_usd : F
  pub value_usd : F
  pub unrealized_pnl_usd : F
  pub unrealized_pnl_percent : Option F
  pub change24h_usd : Option F

pub data HoldingLine (F : Type 0) : Type 0 where
  priced : PricedHoldingLine F → HoldingLine F
  unpriced : Text → Text → HoldingLine F

pub record PortfolioSnapshot (F : Type 0) : Type 0 where
  pub lines : List (HoldingLine F)
  pub total_value_usd : F
  pub total_cost_basis_usd : F
  pub unrealized_pnl_usd : F
  pub unrealized_pnl_percent : Option F
  pub realized_pnl_usd : F
  pub change24h_usd : Option F
  pub change24h_percent : Option F
  pub unpriced_symbols : List Text
  pub missing_change_symbols : List Text

abbrev pub max_trades_per_chat : ℕ
max_trades_per_chat = 200

abbrev pub max_held_coins : ℕ
max_held_coins = 20

abbrev pub max_quantity_decimals : ℕ
max_quantity_decimals = 8

abbrev pub history_page_size : ℕ
history_page_size = 20

abbrev pub quantity_scale : ℕ
quantity_scale = 10 ^ max_quantity_decimals

abbrev pub twin_trade_window_ms : ℕ
twin_trade_window_ms = 2 * 60 * 1000

abbrev pub max_source_message_id_length : ℕ
max_source_message_id_length = 128
