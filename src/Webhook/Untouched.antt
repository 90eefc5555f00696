-- ===== src/Webhook/Untouched.antt =====
-- The commands outside portfolios leave the portfolios alone.
use crypto_zalo_bot.Base.{
  ◌≡◌, refl, ap, Bool, true, false, Option, none, some, List, [], ◌∷◌, or_else, Text, text_eq,
}
use crypto_zalo_bot.Base.Number.{Number}
use crypto_zalo_bot.Alerts.{AlertDirection}
use crypto_zalo_bot.Alerts.Store.{Stored}
use crypto_zalo_bot.Alerts.Store.Client.{Redis}
use crypto_zalo_bot.Portfolio.Ledger.{Row, Tables, of_chat}
use crypto_zalo_bot.Commands.{CommandType, ParsedCommand}
use crypto_zalo_bot.Commands.Words.{Unicode}
use crypto_zalo_bot.Commands.Parser.{parse}
use crypto_zalo_bot.Webhook.{WebhookError, Services, World, Clock, WebhookMessage}
use crypto_zalo_bot.Webhook.Actions.{
  Action, Respects, Respects-of, bind-Respects, catching-Respects,
}
use crypto_zalo_bot.Webhook.Commands.{
  watchlist_of, reply_with_top_markets, reply_with_prices, reply_to_subscribe, reply_to_unsubscribe,
  watchlist_updated, reply_with_watchlist, created_alert, reply_with_new_alert, reply_with_alerts,
  reply_with_deleted_alert, note_signal_use, record_verdicts, send_signals,
  reply_with_watched_signals, reply_with_signals, reply_with_backtest, reply_with_scorecard,
  reply_to_toggle,
}
use crypto_zalo_bot.Webhook.Dispatch.{
  run_command, is_portfolio_command, dispatch, reply_to_message, handle_texts, handle_message,
  handle_webhook, no_alert_args,
}
use crypto_zalo_bot.Webhook.Isolation.{reply_to_portfolio_command-Keeps}

module _ (num : Number) (unicode : Unicode) (redis : Redis (Stored num.F))
    (services : Services num.F) (c : Text) where
  open num use {F}

  abbrev tables_of : World F redis.State services → Tables F
  tables_of w = w.tables

  abbrev Spares : {A : Type 0} → Action (World F redis.State services) (WebhookError F) A → Type 0
  Spares m = Respects tables_of m

  note_signal_use-Spares :
      (clock : Clock) → Spares (note_signal_use num unicode redis services clock c)
  unfolding note_signal_use
  note_signal_use-Spares clock =
      catching-Respects tables_of _ _ (Respects-of tables_of _ (λ w. refl))
        (λ e. Respects-of tables_of _ (λ w. refl))

  record_verdicts-Spares :
      (clock : Clock) (signals : List services.Sig) (tracked : Bool)
      → Spares (record_verdicts num unicode redis services clock c signals tracked)
  unfolding record_verdicts
  record_verdicts-Spares clock signals true =
      catching-Respects tables_of _ _ (Respects-of tables_of _ (λ w. refl))
        (λ e. Respects-of tables_of _ (λ w. refl))
  record_verdicts-Spares clock signals false = Respects-of tables_of _ (λ w. refl)

  send_signals-Spares :
      (clock : Clock) (signals : List services.Sig) (tracked : Bool)
      → Spares (send_signals num unicode redis services clock c signals tracked)
  unfolding send_signals
  send_signals-Spares clock signals tracked =
      bind-Respects tables_of _ _ (Respects-of tables_of _ (λ w. refl)) (λ u.
        bind-Respects tables_of _ _ (record_verdicts-Spares clock signals tracked)
          (λ v. note_signal_use-Spares clock))

  reply_with_watched_signals-Spares :
      (clock : Clock) (o : Option (List Text))
      → Spares (reply_with_watched_signals num unicode redis services clock c o)
  unfolding reply_with_watched_signals
  reply_with_watched_signals-Spares clock none = Respects-of tables_of _ (λ w. refl)
  reply_with_watched_signals-Spares clock (some []) = Respects-of tables_of _ (λ w. refl)
  reply_with_watched_signals-Spares clock (some (s ∷ ss)) =
      bind-Respects tables_of _ _ (Respects-of tables_of _ (λ w. refl))
        (λ signals. send_signals-Spares clock signals true)

  reply_with_signals-Spares :
      (clock : Clock) (symbols : List Text)
      → Spares (reply_with_signals num unicode redis services clock c symbols)
  unfolding reply_with_signals
  reply_with_signals-Spares clock [] =
      bind-Respects tables_of _ _ (Respects-of tables_of _ (λ w. refl))
        (λ o. reply_with_watched_signals-Spares clock (watchlist_of num unicode redis services o))
  reply_with_signals-Spares clock (s ∷ _) =
      bind-Respects tables_of _ _ (Respects-of tables_of _ (λ w. refl))
        (λ r. send_signals-Spares clock (r.0 ∷ []) r.1)

  reply_with_backtest-Spares :
      (clock : Clock) (symbols : List Text)
      → Spares (reply_with_backtest num unicode redis services clock c symbols)
  unfolding reply_with_backtest
  reply_with_backtest-Spares clock [] = Respects-of tables_of _ (λ w. refl)
  reply_with_backtest-Spares clock (s ∷ _) =
      bind-Respects tables_of _ _ (Respects-of tables_of _ (λ w. refl)) (λ coins.
        bind-Respects tables_of _ _ (Respects-of tables_of _ (λ w. refl)) (λ result.
          bind-Respects tables_of _ _ (Respects-of tables_of _ (λ w. refl))
            (λ u. note_signal_use-Spares clock)))

  created_alert-Spares :
      (clock : Clock) (symbols : List Text) (direction : Option AlertDirection)
      (threshold : Option F)
      → Spares (created_alert num unicode redis services clock c symbols direction threshold)
  unfolding created_alert
  created_alert-Spares clock [] direction threshold = Respects-of tables_of _ (λ w. refl)
  created_alert-Spares clock (s ∷ _) none threshold = Respects-of tables_of _ (λ w. refl)
  created_alert-Spares clock (s ∷ _) (some d) none = Respects-of tables_of _ (λ w. refl)
  created_alert-Spares clock (s ∷ _) (some d) (some t) = Respects-of tables_of _ (λ w. refl)

  watchlist_updated-Spares :
      (o : Option (List Text)) → Spares (watchlist_updated num unicode redis services c o)
  unfolding watchlist_updated
  watchlist_updated-Spares none = Respects-of tables_of _ (λ w. refl)
  watchlist_updated-Spares (some watchlist) =
      bind-Respects tables_of _ _ (Respects-of tables_of _ (λ w. refl))
        (λ u. Respects-of tables_of _ (λ w. refl))

  reply_with_watchlist-Spares :
      (symbols : List Text) → Spares (reply_with_watchlist num unicode redis services c symbols)
  unfolding reply_with_watchlist
  reply_with_watchlist-Spares [] =
      bind-Respects tables_of _ _ (Respects-of tables_of _ (λ w. refl))
        (λ o. Respects-of tables_of _ (λ w. refl))
  reply_with_watchlist-Spares (s ∷ ss) =
      bind-Respects tables_of _ _ (Respects-of tables_of _ (λ w. refl))
        (λ o. watchlist_updated-Spares (watchlist_of num unicode redis services o))

  run_command-Spares :
      (to_upper_case : Text → Text) (clock : Clock) (command : ParsedCommand F) (type : CommandType)
      → Spares (run_command num unicode to_upper_case redis services clock c command type)
  unfolding run_command reply_with_top_markets reply_with_prices reply_to_subscribe
      reply_to_unsubscribe reply_with_new_alert reply_with_alerts reply_with_deleted_alert
      reply_with_scorecard reply_to_toggle
  run_command-Spares up clock command CommandType.top_markets =
      bind-Respects tables_of _ _ (Respects-of tables_of _ (λ w. refl))
        (λ coins. Respects-of tables_of _ (λ w. refl))
  run_command-Spares up clock command CommandType.price =
      bind-Respects tables_of _ _ (Respects-of tables_of _ (λ w. refl))
        (λ coins. Respects-of tables_of _ (λ w. refl))
  run_command-Spares up clock command CommandType.subscribe =
      bind-Respects tables_of _ _ (Respects-of tables_of _ (λ w. refl)) (λ watchlist.
        bind-Respects tables_of _ _ (Respects-of tables_of _ (λ w. refl))
          (λ u. Respects-of tables_of _ (λ w. refl)))
  run_command-Spares up clock command CommandType.unsubscribe =
      bind-Respects tables_of _ _ (Respects-of tables_of _ (λ w. refl)) (λ u.
        bind-Respects tables_of _ _ (Respects-of tables_of _ (λ w. refl))
          (λ v. Respects-of tables_of _ (λ w. refl)))
  run_command-Spares up clock command CommandType.watchlist =
      reply_with_watchlist-Spares command.symbols
  run_command-Spares up clock command CommandType.alert_create =
      let args = or_else command.alert (no_alert_args num unicode up redis services) in
      bind-Respects tables_of _ _
        (created_alert-Spares clock command.symbols args.direction args.threshold)
        (λ created. Respects-of tables_of _ (λ w. refl))
  run_command-Spares up clock command CommandType.alert_list =
      bind-Respects tables_of _ _ (Respects-of tables_of _ (λ w. refl))
        (λ alerts. Respects-of tables_of _ (λ w. refl))
  run_command-Spares up clock command CommandType.alert_delete =
      bind-Respects tables_of _ _ (Respects-of tables_of _ (λ w. refl))
        (λ deleted. Respects-of tables_of _ (λ w. refl))
  run_command-Spares up clock command CommandType.signal_view =
      reply_with_signals-Spares clock command.symbols
  run_command-Spares up clock command CommandType.signal_backtest =
      reply_with_backtest-Spares clock command.symbols
  run_command-Spares up clock command CommandType.signal_stats =
      bind-Respects tables_of _ _ (Respects-of tables_of _ (λ w. refl)) (λ card.
        bind-Respects tables_of _ _ (Respects-of tables_of _ (λ w. refl))
          (λ u. note_signal_use-Spares clock))
  run_command-Spares up clock command CommandType.signal_toggle =
      bind-Respects tables_of _ _ (Respects-of tables_of _ (λ w. refl)) (λ u.
        bind-Respects tables_of _ _ (Respects-of tables_of _ (λ w. refl))
          (λ v. note_signal_use-Spares clock))
  run_command-Spares up clock command _ = Respects-of tables_of _ (λ w. refl)

module _ (num : Number) (unicode : Unicode) (to_upper_case : Text → Text)
    (redis : Redis (Stored num.F)) (services : Services num.F) (d : Text) where
  open num use {F}

  abbrev trades_of : World F redis.State services → List (Row F)
  trades_of w = of_chat d w.tables.trades

  weaker :
      (c : Text) (m : Action (World F redis.State services) (WebhookError F) Unit)
      → Spares num unicode redis services c m
      → Respects trades_of m
  unfolding Respects
  weaker c m h w = ap (λ (t : Tables F). of_chat d t.trades) (h w)

  dispatch-Keeps :
      (c : Text) (apart : text_eq c d ≡ false) (clock : Clock) (command : ParsedCommand F)
      (chat_type message_id : Option Text) (b : Bool)
      → is_portfolio_command command.type ≡ b
      → Respects trades_of
          (dispatch num unicode to_upper_case redis services clock c command chat_type message_id)
  unfolding dispatch
  dispatch-Keeps c apart clock command chat_type message_id true e = rw e (
      reply_to_portfolio_command-Keeps num redis.State services c d apart to_upper_case clock
        command chat_type message_id)
  dispatch-Keeps c apart clock command chat_type message_id false e = rw e (
      weaker c _
        (run_command-Spares num unicode redis services c to_upper_case clock command command.type))

  reply_to_message-Keeps :
      (c : Text) (apart : text_eq c d ≡ false) (clock : Clock) (text : Text)
      (chat_type message_id : Option Text)
      → Respects trades_of (
          reply_to_message num unicode to_upper_case redis services clock c text chat_type
            message_id)
  unfolding reply_to_message
  reply_to_message-Keeps c apart clock text chat_type message_id =
      catching-Respects trades_of _ _
        (dispatch-Keeps c apart clock (parse num unicode text) chat_type message_id
          (is_portfolio_command (parse num unicode text).type) refl)
        (λ error. Respects-of trades_of _ (λ w. refl))

  handle_texts-Keeps :
      (clock : Clock) (message : WebhookMessage) (text chat_id : Option Text)
      → ((c : Text) → chat_id ≡ some c → text_eq c d ≡ false)
      → Respects trades_of
          (handle_texts num unicode to_upper_case redis services clock message text chat_id)
  unfolding handle_texts
  handle_texts-Keeps clock message (some (t ∷ ts)) (some (k ∷ ks)) apart =
      reply_to_message-Keeps (k ∷ ks) (apart (k ∷ ks) refl) clock (t ∷ ts) message.chat_type
        message.message_id
  handle_texts-Keeps clock message _ _ apart = Respects-of trades_of _ (λ w. refl)

  -- A message of one chat changes no trade of another chat, whatever it says and however it ends.
  pub handle_webhook-other_chats :
      (clock : Clock) (message : WebhookMessage) (w : World F redis.State services)
      → ((c : Text) → message.chat_id ≡ some c → text_eq c d ≡ false)
      → of_chat d
          (handle_webhook num unicode to_upper_case redis services clock
            (some message)
            w).1.tables.trades
        ≡ of_chat d w.tables.trades
  unfolding handle_webhook handle_message Respects
  handle_webhook-other_chats clock message w apart =
      handle_texts-Keeps clock message message.text message.chat_id apart w
