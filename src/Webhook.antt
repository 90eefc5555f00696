-- ===== src/Webhook.antt =====
-- The webhook of the chat service (src/webhook/webhook.controller.ts and dto/zalo-webhook.dto.ts): the
-- data it works on. A reply is the format function that writes it, with its arguments; the text that it
-- writes, the rate it shows amounts in, and logging are left out.
pub mod Actions
pub mod Commands
pub mod Portfolio
pub mod Dispatch
pub mod Untouched
pub mod Replies
pub mod Refusal
pub mod Isolation
mod Tests
use crypto_zalo_bot.Base.{ℕ, Bool, Text, List, Option}
use crypto_zalo_bot.Alerts.{AlertDirection, PriceAlert}
use crypto_zalo_bot.Alerts.Store.{Answer, CreatedAlert}
use crypto_zalo_bot.Portfolio.{PortfolioTrade, HoldingsResult, PortfolioSnapshot}
use crypto_zalo_bot.Subscribers.{Subscriber, InvalidWatchlistError}
use crypto_zalo_bot.Portfolio.Prices.{CoinMarketData}
use crypto_zalo_bot.Portfolio.Ledger.{PortfolioError, LimitKind, Tables, TradePage}

-- What a handler can throw; `unexpected` is every other exception.
pub data WebhookError (F : Type 0) : Type 0 where
  unknown_coin_symbols : List Text → WebhookError F
  coingecko_unavailable : WebhookError F
  invalid_watchlist : InvalidWatchlistError → WebhookError F
  alert_limit_reached : ℕ → WebhookError F
  alert_condition_already_met : Text → AlertDirection → F → WebhookError F
  alert_not_found : ℕ → WebhookError F
  portfolio_error : PortfolioError → WebhookError F
  inconsistent_trades : WebhookError F
  unexpected : WebhookError F

-- The answers of the services whose code is not modelled here: the price source and the signals. `Sig`, `Backtest` and `Card` are their own types.
pub record Services (F : Type 0) : Type 1 where
  pub Sig : Type 0
  pub Backtest : Type 0
  pub Card : Type 0
  pub get_top_markets : Answer (WebhookError F) (List (CoinMarketData F))
  pub get_prices_by_symbols : List Text → Answer (WebhookError F) (List (CoinMarketData F))
  pub resolve_symbol_to_id : Text → Text
  -- The signal of a coin, and whether it is tracked.
  pub get_signal_for : Text → ℕ → Answer (WebhookError F) (Sig × Bool)
  pub get_signals_for_symbols : List Text → ℕ → Answer (WebhookError F) (List Sig)
  pub backtest : Text → ℕ → Answer (WebhookError F) Backtest
  pub scorecard : Text → ℕ → Answer (WebhookError F) Card
  pub set_enabled : Text → Bool → Answer (WebhookError F) Unit
  pub record_sent_verdicts : Text → List Sig → ℕ → Answer (WebhookError F) Unit
  pub record_usage : Text → ℕ → Answer (WebhookError F) Unit

pub record TradeRecorded (F : Type 0) : Type 0 where
  pub trade : Option (PortfolioTrade F)
  pub holdings : HoldingsResult F
  pub duplicate : Bool
  pub twin : Option (PortfolioTrade F)

module _ {F : Type 0} (services : Services F) where
  open services use {Sig, Backtest, Card}

  -- One constructor for each format function.
  pub data Reply : Type 0 where
    help_reply : Reply
    top_markets_reply price_reply : List (CoinMarketData F) → Reply
    subscribe_reply watchlist_updated_reply : List Text → Reply
    unsubscribe_reply watchlist_not_subscribed_reply : Reply
    watchlist_view_reply : Option (List Text) → Reply
    alert_created_reply : CreatedAlert F → Reply
    alert_list_reply : List (PriceAlert F) → Reply
    alert_deleted_reply : PriceAlert F → ℕ → Reply
    alert_invalid_reply : Reply
    signal_reply : List Sig → Bool → Reply
    signal_no_watchlist_reply signal_invalid_reply : Reply
    backtest_reply : Text → Backtest → Reply
    scorecard_reply : Card → Reply
    signal_toggle_reply : Bool → Reply
    unknown_command_reply : Reply
    portfolio_group_refused_reply portfolio_empty_reply portfolio_clear_confirm_reply : Reply
    portfolio_invalid_reply portfolio_unavailable_reply : Reply
    portfolio_reply : PortfolioSnapshot F → Reply
    portfolio_trade_recorded_reply : TradeRecorded F → Reply
    portfolio_history_reply : TradePage F → Reply
    portfolio_deleted_reply : PortfolioTrade F → HoldingsResult F → Reply
    portfolio_cleared_reply : ℕ → Reply
    unknown_symbols_reply : List Text → Reply
    service_unavailable_reply generic_error_reply : Reply
    invalid_watchlist_reply : InvalidWatchlistError → Reply
    alert_limit_reply alert_not_found_reply portfolio_not_found_reply : ℕ → Reply
    alert_already_met_reply : Text → AlertDirection → F → Reply
    portfolio_oversell_reply : Text → Text → Reply
    portfolio_limit_reply : LimitKind → ℕ → Reply
    portfolio_delete_refused_reply : ℕ → Text → Reply

-- A change that is asked of a service that is not modelled here.
pub data Call (Sig : Type 0) : Type 0 where
  mirror_subscribed mirror_watchlist_changed : Text → List Text → Call Sig
  mirror_unsubscribed : Text → Call Sig
  set_enabled : Text → Bool → Call Sig
  record_sent_verdicts : Text → List Sig → Call Sig
  record_usage : Text → Call Sig

-- How a call of a database fails: it is refused and rolled back, or its answer is lost after the work was
-- done.
pub data Outage : Type 0 where
  refused answer_lost : Outage

-- The tables of the portfolios, the store of the alerts, the messages sent, each with its chat, and the
-- calls of the other services, newest first. A message calls each store once at most, and the
-- outages say how that call fails, if it does; a failing call of Redis leaves any store.
pub record World (F Store : Type 0) (services : Services F) : Type 0 where
  pub tables : Tables F
  pub alerts : Store
  pub subscribers : List Subscriber
  pub messages : List (Text × Reply services)
  pub portfolio_outage : Option Outage
  pub subscribers_outage : Option Outage
  pub alerts_outage : Option (Store → Store)
  pub calls : List (Call services.Sig)

-- The message of a payload. An absent `text` or id is `none`.
pub record WebhookMessage : Type 0 where
  pub message_id : Option Text
  pub text : Option Text
  pub chat_id : Option Text
  pub chat_type : Option Text

-- The instant of a call, and its calendar day in Vietnam.
pub record Clock : Type 0 where
  pub now : ℕ
  pub day : ℕ
