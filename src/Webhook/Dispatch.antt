-- ===== src/Webhook/Dispatch.antt =====
-- `handleWebhook`, `replyToMessage` and `handleReplyError`.
use crypto_zalo_bot.Base.{Bool, true, false, Option, none, some, ◌∷◌, if◌then◌else◌, or_else, Text}
use crypto_zalo_bot.Base.Number.{Number}
use crypto_zalo_bot.Alerts.Store.{Stored}
use crypto_zalo_bot.Alerts.Store.Client.{Redis}
use crypto_zalo_bot.Portfolio.Ledger.{PortfolioError}
use crypto_zalo_bot.Commands.{CommandType, AlertCommandArgs, SignalCommandArgs, ParsedCommand}
use crypto_zalo_bot.Commands.Words.{Unicode}
use crypto_zalo_bot.Commands.Parser.{parse}
use crypto_zalo_bot.Webhook.{WebhookError, Services, Reply, World, Clock, WebhookMessage}
use crypto_zalo_bot.Webhook.Actions.{Action, pure, catching}
use crypto_zalo_bot.Webhook.Portfolio.{post, reply_to_portfolio_command}
use crypto_zalo_bot.Webhook.Commands.{
  reply_with_top_markets, reply_with_prices, reply_to_subscribe, reply_to_unsubscribe,
  reply_with_watchlist, reply_with_new_alert, reply_with_alerts, reply_with_deleted_alert,
  reply_with_signals, reply_with_backtest, reply_with_scorecard, reply_to_toggle,
}

-- PORTFOLIO_COMMANDS
unfoldable pub is_portfolio_command : CommandType → Bool
is_portfolio_command CommandType.portfolio_view = true
is_portfolio_command CommandType.portfolio_trade = true
is_portfolio_command CommandType.portfolio_history = true
is_portfolio_command CommandType.portfolio_delete = true
is_portfolio_command CommandType.portfolio_clear = true
is_portfolio_command CommandType.portfolio_invalid = true
is_portfolio_command _ = false

module _ {F : Type 0} (services : Services F) where
  unfoldable pub portfolio_error_reply : PortfolioError → Reply services
  portfolio_error_reply (PortfolioError.oversell symbol held) =
      Reply.portfolio_oversell_reply symbol held
  portfolio_error_reply (PortfolioError.limit kind limit) = Reply.portfolio_limit_reply kind limit
  portfolio_error_reply (PortfolioError.trade_not_found index) =
      Reply.portfolio_not_found_reply index
  portfolio_error_reply (PortfolioError.delete_would_oversell index symbol) =
      Reply.portfolio_delete_refused_reply index symbol
  portfolio_error_reply PortfolioError.unavailable = Reply.portfolio_unavailable_reply

  -- `handleReplyError`: the reply to each error.
  unfoldable pub error_reply : WebhookError F → Reply services
  error_reply (WebhookError.unknown_coin_symbols symbols) = Reply.unknown_symbols_reply symbols
  error_reply WebhookError.coingecko_unavailable = Reply.service_unavailable_reply
  error_reply (WebhookError.invalid_watchlist message) = Reply.invalid_watchlist_reply message
  error_reply (WebhookError.alert_limit_reached limit) = Reply.alert_limit_reply limit
  error_reply (WebhookError.alert_condition_already_met symbol direction price) =
      Reply.alert_already_met_reply symbol direction price
  error_reply (WebhookError.alert_not_found index) = Reply.alert_not_found_reply index
  error_reply (WebhookError.portfolio_error e) = portfolio_error_reply e
  error_reply WebhookError.inconsistent_trades = Reply.portfolio_unavailable_reply
  error_reply WebhookError.unexpected = Reply.generic_error_reply

module _ (num : Number) (unicode : Unicode) (to_upper_case : Text → Text)
    (redis : Redis (Stored num.F)) (services : Services num.F) where
  open num use {F}

  abbrev pub Step : Type 0 → Type 0
  Step A = Action (World F redis.State services) (WebhookError F) A

  abbrev pub reply : Text → Reply services → Step Unit
  reply chat_id r = post num redis.State services chat_id r

  unfoldable pub no_alert_args : AlertCommandArgs F
  no_alert_args = record { direction = none; threshold = none; index = none }

  unfoldable pub enabled_of : Option SignalCommandArgs → Bool
  enabled_of none = false
  enabled_of (some args) = or_else args.enabled false

  -- The switch over the command's type; the parser gives the arguments that each case reads.
  unfoldable pub run_command : Clock → Text → ParsedCommand F → CommandType → Step Unit
  run_command clock chat_id command CommandType.help = reply chat_id Reply.help_reply
  run_command clock chat_id command CommandType.top_markets =
      reply_with_top_markets num unicode redis services chat_id
  run_command clock chat_id command CommandType.price =
      reply_with_prices num unicode redis services chat_id command.symbols
  run_command clock chat_id command CommandType.subscribe =
      reply_to_subscribe num unicode redis services clock chat_id command.symbols
  run_command clock chat_id command CommandType.unsubscribe =
      reply_to_unsubscribe num unicode redis services chat_id
  run_command clock chat_id command CommandType.watchlist =
      reply_with_watchlist num unicode redis services chat_id command.symbols
  run_command clock chat_id command CommandType.alert_create =
      reply_with_new_alert num unicode redis services clock chat_id command.symbols
        (or_else command.alert no_alert_args)
  run_command clock chat_id command CommandType.alert_list =
      reply_with_alerts num unicode redis services chat_id
  run_command clock chat_id command CommandType.alert_delete =
      let args = or_else command.alert no_alert_args in
      reply_with_deleted_alert num unicode redis services chat_id (or_else args.index 0)
  run_command clock chat_id command CommandType.alert_invalid =
      reply chat_id Reply.alert_invalid_reply
  run_command clock chat_id command CommandType.signal_view =
      reply_with_signals num unicode redis services clock chat_id command.symbols
  run_command clock chat_id command CommandType.signal_backtest =
      reply_with_backtest num unicode redis services clock chat_id command.symbols
  run_command clock chat_id command CommandType.signal_stats =
      reply_with_scorecard num unicode redis services clock chat_id
  run_command clock chat_id command CommandType.signal_toggle =
      reply_to_toggle num unicode redis services clock chat_id (enabled_of command.signal)
  run_command clock chat_id command CommandType.signal_invalid =
      reply chat_id Reply.signal_invalid_reply
  run_command clock chat_id command _ = reply chat_id Reply.unknown_command_reply

  unfoldable pub dispatch : Clock → Text → ParsedCommand F → Option Text → Option Text → Step Unit
  dispatch clock chat_id command chat_type message_id =
      if is_portfolio_command command.type
      then reply_to_portfolio_command num redis.State services to_upper_case clock chat_id command
          chat_type message_id
      else run_command clock chat_id command command.type

  unfoldable pub reply_to_message : Clock → Text → Text → Option Text → Option Text → Step Unit
  reply_to_message clock chat_id text chat_type message_id =
      catching (dispatch clock chat_id (parse num unicode text) chat_type message_id)
        (λ error. reply chat_id (error_reply services error))

  -- An empty text or id counts as absent.
  unfoldable pub handle_texts : Clock → WebhookMessage → Option Text → Option Text → Step Unit
  handle_texts clock message (some (t ∷ text)) (some (c ∷ chat_id)) =
      reply_to_message clock (c ∷ chat_id) (t ∷ text) message.chat_type message.message_id
  handle_texts clock message _ _ = pure tt

  unfoldable pub handle_message : Clock → Option WebhookMessage → Step Unit
  handle_message clock none = pure tt
  handle_message clock (some message) = handle_texts clock message message.text message.chat_id

  -- `handleWebhook`, of the message of the payload. An exception that leaves it would be `thrown`.
  unfoldable pub handle_webhook : Clock → Option WebhookMessage → Step Unit
  handle_webhook clock message = handle_message clock message
