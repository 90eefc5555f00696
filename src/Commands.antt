-- ===== src/Commands.antt =====
-- The commands that a chat message can hold
-- (src/command-parser/interfaces/parsed-command.interface.ts). A number that the parser reads with
-- `Number(...)` from decimal digits alone is a ℕ; a price is a double.
pub mod Words
pub mod Numbers
pub mod Syntax
pub mod Parser
mod Tests
use crypto_zalo_bot.Base.{ℕ, Bool, Text, List, Option}
use crypto_zalo_bot.Alerts.{AlertDirection}
use crypto_zalo_bot.Portfolio.{TradeSide}

pub data CommandType : Type 0 where
  price top_markets help subscribe unsubscribe watchlist : CommandType
  alert_create alert_list alert_delete alert_invalid : CommandType
  portfolio_view portfolio_trade portfolio_history portfolio_delete portfolio_clear
        portfolio_invalid :
      CommandType
  signal_view signal_backtest signal_stats signal_toggle signal_invalid : CommandType
  unknown : CommandType

pub record AlertCommandArgs (F : Type 0) : Type 0 where
  pub direction : Option AlertDirection
  pub threshold : Option F
  pub index : Option ℕ

pub record PortfolioCommandArgs (F : Type 0) : Type 0 where
  pub side : Option TradeSide
  pub quantity : Option Text
  pub price_usd : Option F
  pub page : Option ℕ
  pub index : Option ℕ
  pub confirmed : Option Bool

pub record SignalCommandArgs : Type 0 where
  pub enabled : Option Bool

pub record ParsedCommand (F : Type 0) : Type 0 where
  pub type : CommandType
  pub symbols : List Text
  pub alert : Option (AlertCommandArgs F)
  pub portfolio : Option (PortfolioCommandArgs F)
  pub signal : Option SignalCommandArgs
