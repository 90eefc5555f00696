-- ===== src/Webhook/Portfolio.antt =====
-- "/danhmuc" and its subcommands: `replyToPortfolioCommand` and `replyWithPortfolio`.
use crypto_zalo_bot.Base.{
  ℕ, Bool, true, false, Option, none, some, List, [], ◌∷◌, map, if◌then◌else◌, or_else, Text, codes,
  text_eq,
}
use crypto_zalo_bot.Base.Number.{Number}
use crypto_zalo_bot.Alerts.Store.{Answer, done, thrown}
use crypto_zalo_bot.Portfolio.{PortfolioTrade, HoldingsResult, Holding, buy}
use crypto_zalo_bot.Portfolio.Quantity.{to_quantity_units}
use crypto_zalo_bot.Portfolio.Holdings.{compute_holdings}
use crypto_zalo_bot.Portfolio.Prices.{CoinMarketData, prices_by_symbol}
use crypto_zalo_bot.Portfolio.Value.{compute_portfolio, find_recent_twin}
use crypto_zalo_bot.Portfolio.Ledger.{Result, Tables, PortfolioError, RecordedTrade, ok, err}
use crypto_zalo_bot.Portfolio.Ledger.Writes.{
  record_trade, delete_trade, clear_trades, list_trades, list_trades_page,
}
use crypto_zalo_bot.Commands.{CommandType, PortfolioCommandArgs, ParsedCommand}
use crypto_zalo_bot.Webhook.{WebhookError, Services, Reply, Outage, World, Clock}
use crypto_zalo_bot.Webhook.Actions.{Action, pure, answer, ◌>>=◌}

-- `toUpperCase` is the language's own table.
unfoldable pub is_private : (Text → Text) → Option Text → Bool
is_private to_upper_case chat_type =
    text_eq (to_upper_case (or_else chat_type [])) (codes "PRIVATE")

-- The answer of a database and what it holds afterwards, from those of a call that works.
unfoldable pub under_outage :
    {E S A : Type 0} → Option Outage → E → S → Answer E A × S → Answer E A × S
under_outage none e before r = r
under_outage (some Outage.refused) e before r = (thrown e, before)
under_outage (some Outage.answer_lost) e before r = (thrown e, r.1)

module _ (num : Number) (Store : Type 0) (services : Services num.F) where
  open num use {F}

  abbrev pub Handler : Type 0 → Type 0
  Handler A = Action (World F Store services) (WebhookError F) A

  -- `sendTextMessage`, which never throws.
  abbrev pub post : Text → Reply services → Handler Unit
  post chat_id reply w = (done tt, record w { messages = (chat_id, reply) ∷ w.messages })

  abbrev pub store_answer : {A : Type 0} → Result A → Answer (WebhookError F) A
  store_answer (ok a) = done a
  store_answer (err e) = thrown (WebhookError.portfolio_error e)

  -- A transaction of PortfolioService. Its guard turns an error of the driver into `unavailable`.
  abbrev pub on_tables : {A : Type 0} → (Tables F → Result A × Tables F) → Handler A
  on_tables f w =
      let (r, written) = f w.tables in
      let (a, tables) =
        under_outage w.portfolio_outage (WebhookError.portfolio_error PortfolioError.unavailable)
          w.tables (store_answer r, written) in
      (a, record w { tables = tables })

  abbrev pub always_ok : {A : Type 0} → (Tables F → A × Tables F) → Tables F → Result A × Tables F
  always_ok f tables = let (a, after) = f tables in (ok a, after)

  -- `computeHoldings`, which throws an InconsistentTradesError.
  unfoldable pub replayed : List (PortfolioTrade F) → Handler (HoldingsResult F)
  replayed trades = answer (elim (compute_holdings num trades) [
    | none ↦ thrown WebhookError.inconsistent_trades
    | some h ↦ done h
  ])

  -- A missing argument of a trade is not looked at: the parser gives them all.
  unfoldable pub traded_units : PortfolioCommandArgs F → ℕ
  traded_units args = or_else (to_quantity_units (or_else args.quantity [])) 0

  unfoldable pub twin_of : RecordedTrade F → Option (PortfolioTrade F)
  twin_of recorded = elim recorded.trade [
    | none ↦ none
    | some trade ↦ if recorded.duplicate then none else find_recent_twin num recorded.trades trade
  ]

  unfoldable pub reply_with_trade :
      Clock → Text → Text → PortfolioCommandArgs F → Option Text → Handler Unit
  reply_with_trade clock chat_id symbol args message_id = do
    _ ← answer (services.get_prices_by_symbols (symbol ∷ []))
    recorded ← on_tables (
        record_trade num chat_id (or_else args.side buy) symbol (traded_units args)
          (or_else args.price_usd (num.lit 0 0)) message_id clock.now clock.day)
    holdings ← replayed recorded.trades
    post chat_id (
        Reply.portfolio_trade_recorded_reply (record {
          trade = recorded.trade;
          holdings = holdings;
          duplicate = recorded.duplicate;
          twin = twin_of recorded;
        }))

  -- A lookup that finds none of the coins leaves them all without a price.
  unfoldable pub known_coins :
      Answer (WebhookError F) (List (CoinMarketData F))
      → Answer (WebhookError F) (List (CoinMarketData F))
  known_coins (thrown (WebhookError.unknown_coin_symbols _)) = done []
  known_coins a = a

  unfoldable pub coins_of : List Text → Handler (List (CoinMarketData F))
  coins_of [] = pure []
  coins_of (s ∷ ss) = answer (known_coins (services.get_prices_by_symbols (s ∷ ss)))

  unfoldable pub reply_with_holdings : Text → List (PortfolioTrade F) → Handler Unit
  reply_with_holdings chat_id [] = post chat_id Reply.portfolio_empty_reply
  reply_with_holdings chat_id (t ∷ ts) = do
    holdings ← replayed (t ∷ ts)
    let symbols = map (λ (h : Holding F). h.symbol) holdings.holdings
    coins ← coins_of symbols
    post chat_id (
        Reply.portfolio_reply (
          compute_portfolio num holdings
            (prices_by_symbol services.resolve_symbol_to_id coins symbols)))

  unfoldable pub reply_with_portfolio : Clock → Text → Handler Unit
  reply_with_portfolio clock chat_id = do
    trades ← on_tables (always_ok (list_trades chat_id clock.day))
    reply_with_holdings chat_id trades

  unfoldable pub reply_with_history : Text → ℕ → Handler Unit
  reply_with_history chat_id page = do
    history ← on_tables (λ tables. (ok (list_trades_page chat_id page tables.trades), tables))
    post chat_id (Reply.portfolio_history_reply history)

  unfoldable pub reply_with_deletion : Text → ℕ → Handler Unit
  reply_with_deletion chat_id index = do
    deleted ← on_tables (delete_trade chat_id index)
    holdings ← replayed deleted.trades
    post chat_id (Reply.portfolio_deleted_reply deleted.trade holdings)

  unfoldable pub reply_with_clearing : Text → Bool → Handler Unit
  reply_with_clearing chat_id true = do
    deleted_count ← on_tables (always_ok (clear_trades chat_id))
    post chat_id (Reply.portfolio_cleared_reply deleted_count)
  reply_with_clearing chat_id false = post chat_id Reply.portfolio_clear_confirm_reply

  unfoldable pub empty_args : PortfolioCommandArgs F
  empty_args = record {
    side = none;
    quantity = none;
    price_usd = none;
    page = none;
    index = none;
    confirmed = none;
  }

  unfoldable pub private_command :
      Clock → Text → CommandType → List Text → PortfolioCommandArgs F → Option Text → Handler Unit
  private_command clock chat_id CommandType.portfolio_view symbols args message_id =
      reply_with_portfolio clock chat_id
  private_command clock chat_id CommandType.portfolio_trade (symbol ∷ _) args message_id =
      reply_with_trade clock chat_id symbol args message_id
  private_command clock chat_id CommandType.portfolio_history symbols args message_id =
      reply_with_history chat_id (or_else args.page 1)
  private_command clock chat_id CommandType.portfolio_delete symbols args message_id =
      reply_with_deletion chat_id (or_else args.index 0)
  private_command clock chat_id CommandType.portfolio_clear symbols args message_id =
      reply_with_clearing chat_id (or_else args.confirmed false)
  private_command clock chat_id _ symbols args message_id =
      post chat_id Reply.portfolio_invalid_reply

  unfoldable pub reply_to_portfolio_command :
      (Text → Text) → Clock → Text → ParsedCommand F → Option Text → Option Text → Handler Unit
  reply_to_portfolio_command to_upper_case clock chat_id command chat_type message_id =
      if is_private to_upper_case chat_type
      then private_command clock chat_id command.type command.symbols
          (or_else command.portfolio empty_args) message_id
      else post chat_id Reply.portfolio_group_refused_reply
