-- ===== src/Webhook/Replies/Laws.antt =====
-- The replies of each handler, and of the webhook.
use crypto_zalo_bot.Base.{
  ℕ, ◌≡◌, refl, Bool, true, false, Option, none, some, List, [], ◌∷◌, map, if◌then◌else◌, or_else,
  Text,
}
use crypto_zalo_bot.Base.Number.{Number}
use crypto_zalo_bot.Alerts.{AlertDirection}
use crypto_zalo_bot.Alerts.Store.{Stored, done}
use crypto_zalo_bot.Alerts.Store.Client.{Redis}
use crypto_zalo_bot.Portfolio.{Holding, PortfolioTrade}
use crypto_zalo_bot.Commands.{CommandType, ParsedCommand, PortfolioCommandArgs}
use crypto_zalo_bot.Commands.Words.{Unicode}
use crypto_zalo_bot.Commands.Parser.{parse}
use crypto_zalo_bot.Webhook.{WebhookError, Services, Reply, World, Clock, WebhookMessage}
use crypto_zalo_bot.Webhook.Actions.{Action, Respects, Respects-of, ◌>>=◌}
use crypto_zalo_bot.Webhook.Portfolio.{
  replayed, coins_of, reply_with_trade, reply_with_holdings, reply_with_portfolio,
  reply_with_history, reply_with_deletion, reply_with_clearing, private_command, is_private,
  reply_to_portfolio_command, empty_args,
}
use crypto_zalo_bot.Webhook.Commands.{
  watchlist_of, reply_with_top_markets, reply_with_prices, reply_to_subscribe, reply_to_unsubscribe,
  watchlist_updated, reply_with_watchlist, created_alert, reply_with_new_alert, reply_with_alerts,
  reply_with_deleted_alert, note_signal_use, record_verdicts, send_signals,
  reply_with_watched_signals, reply_with_signals, reply_with_backtest, reply_with_scorecard,
  reply_to_toggle,
}
use crypto_zalo_bot.Webhook.Dispatch.{
  run_command, is_portfolio_command, dispatch, reply_to_message, handle_texts, handle_message,
  handle_webhook, no_alert_args, error_reply,
}
use crypto_zalo_bot.Webhook.Replies.{
  messages_of, Replies, Settles, Replies-of, Replies-raise, quiet_then, reply_then, Settles-of,
  Settles-swallowing, Settles-then, catching-Replies,
}

module _ (num : Number) (unicode : Unicode) (redis : Redis (Stored num.F))
    (services : Services num.F) (c : Text) where
  open num use {F}

  abbrev Step : Type 0 → Type 0
  Step A = Action (World F redis.State services) (WebhookError F) A

  abbrev Says : Step Unit → Type 0
  Says m = Replies redis.State services c m

  abbrev Quiet : {A : Type 0} → Step A → Type 0
  Quiet m = Respects (messages_of redis.State services) m

  abbrev Ends : Step Unit → Type 0
  Ends m = Settles redis.State services m

  -- The two steps that all handlers are made of.
  quiet :
      {A : Type 0} (m : Step A)
      → ((w : World F redis.State services) → (m w).1.messages ≡ w.messages)
      → Quiet m
  quiet m h = Respects-of (messages_of redis.State services) m h

  says :
      (m : Step Unit) (r : World F redis.State services → Reply services)
      → ((w : World F redis.State services)
          → m w ≡ (done tt, record w { messages = (c, r w) ∷ w.messages }))
      → Says m
  says m r h = Replies-of redis.State services c m r h

  then-Says :
      {A : Type 0} (m : Step A) (f : A → Step Unit)
      → Quiet m
      → ((a : A) → Says (f a))
      → Says (m >>= f)
  then-Says m f h k = quiet_then redis.State services c m f h k

  then-Ends :
      (m : Step Unit) (f : Unit → Step Unit) → Says m → ((u : Unit) → Ends (f u)) → Says (m >>= f)
  then-Ends m f h k = reply_then redis.State services c m f h k

  note_signal_use-Ends : (clock : Clock) → Ends (note_signal_use num unicode redis services clock c)
  unfolding note_signal_use
  note_signal_use-Ends clock = Settles-swallowing redis.State services _ (quiet _ (λ w. refl))

  record_verdicts-Ends :
      (clock : Clock) (signals : List services.Sig) (tracked : Bool)
      → Ends (record_verdicts num unicode redis services clock c signals tracked)
  unfolding record_verdicts
  record_verdicts-Ends clock signals true =
      Settles-swallowing redis.State services _ (quiet _ (λ w. refl))
  record_verdicts-Ends clock signals false =
      (Settles-of redis.State services _ _ (λ w. refl) (λ w. refl))

  send_signals-Says :
      (clock : Clock) (signals : List services.Sig) (tracked : Bool)
      → Says (send_signals num unicode redis services clock c signals tracked)
  unfolding send_signals
  send_signals-Says clock signals tracked = then-Ends _ _ (says _ _ (λ w. refl)) (λ u.
      Settles-then redis.State services _ _ (record_verdicts-Ends clock signals tracked)
        (note_signal_use-Ends clock))

  reply_with_watched_signals-Says :
      (clock : Clock) (o : Option (List Text))
      → Says (reply_with_watched_signals num unicode redis services clock c o)
  unfolding reply_with_watched_signals
  reply_with_watched_signals-Says clock none = says _ _ (λ w. refl)
  reply_with_watched_signals-Says clock (some []) = says _ _ (λ w. refl)
  reply_with_watched_signals-Says clock (some (s ∷ ss)) =
      then-Says _ _ (quiet _ (λ w. refl)) (λ signals. send_signals-Says clock signals true)

  reply_with_signals-Says :
      (clock : Clock) (symbols : List Text)
      → Says (reply_with_signals num unicode redis services clock c symbols)
  unfolding reply_with_signals
  reply_with_signals-Says clock [] =
      then-Says _ _ (quiet _ (λ w. refl))
        (λ o. reply_with_watched_signals-Says clock (watchlist_of num unicode redis services o))
  reply_with_signals-Says clock (s ∷ _) =
      then-Says _ _ (quiet _ (λ w. refl)) (λ r. send_signals-Says clock (r.0 ∷ []) r.1)

  reply_with_backtest-Says :
      (clock : Clock) (symbols : List Text)
      → Says (reply_with_backtest num unicode redis services clock c symbols)
  unfolding reply_with_backtest
  reply_with_backtest-Says clock [] =
      Replies-raise redis.State services c _ WebhookError.unexpected (λ w. refl)
  reply_with_backtest-Says clock (s ∷ _) = then-Says _ _ (quiet _ (λ w. refl)) (λ coins.
      then-Says _ _ (quiet _ (λ w. refl))
        (λ result. then-Ends _ _ (says _ _ (λ w. refl)) (λ u. note_signal_use-Ends clock)))

  created_alert-Quiet :
      (clock : Clock) (symbols : List Text) (direction : Option AlertDirection)
      (threshold : Option F)
      → Quiet (created_alert num unicode redis services clock c symbols direction threshold)
  unfolding created_alert
  created_alert-Quiet clock [] direction threshold = quiet _ (λ w. refl)
  created_alert-Quiet clock (s ∷ _) none threshold = quiet _ (λ w. refl)
  created_alert-Quiet clock (s ∷ _) (some d) none = quiet _ (λ w. refl)
  created_alert-Quiet clock (s ∷ _) (some d) (some t) = quiet _ (λ w. refl)

  watchlist_updated-Says :
      (o : Option (List Text)) → Says (watchlist_updated num unicode redis services c o)
  unfolding watchlist_updated
  watchlist_updated-Says none = says _ _ (λ w. refl)
  watchlist_updated-Says (some watchlist) =
      then-Ends _ _ (says _ _ (λ w. refl))
        (λ u. Settles-of redis.State services _ _ (λ w. refl) (λ w. refl))

  reply_with_watchlist-Says :
      (symbols : List Text) → Says (reply_with_watchlist num unicode redis services c symbols)
  unfolding reply_with_watchlist
  reply_with_watchlist-Says [] = then-Says _ _ (quiet _ (λ w. refl)) (λ o. says _ _ (λ w. refl))
  reply_with_watchlist-Says (s ∷ ss) =
      then-Says _ _ (quiet _ (λ w. refl))
        (λ o. watchlist_updated-Says (watchlist_of num unicode redis services o))

  run_command-Says :
      (to_upper_case : Text → Text) (clock : Clock) (command : ParsedCommand F) (type : CommandType)
      → Says (run_command num unicode to_upper_case redis services clock c command type)
  unfolding run_command reply_with_top_markets reply_with_prices reply_to_subscribe
      reply_to_unsubscribe reply_with_new_alert reply_with_alerts reply_with_deleted_alert
      reply_with_scorecard reply_to_toggle
  run_command-Says up clock command CommandType.top_markets =
      then-Says _ _ (quiet _ (λ w. refl)) (λ coins. says _ _ (λ w. refl))
  run_command-Says up clock command CommandType.price =
      then-Says _ _ (quiet _ (λ w. refl)) (λ coins. says _ _ (λ w. refl))
  run_command-Says up clock command CommandType.subscribe =
      then-Says _ _ (quiet _ (λ w. refl)) (λ watchlist.
        then-Ends _ _ (says _ _ (λ w. refl))
          (λ u. Settles-of redis.State services _ _ (λ w. refl) (λ w. refl)))
  run_command-Says up clock command CommandType.unsubscribe =
      then-Says _ _ (quiet _ (λ w. refl)) (λ v.
        then-Ends _ _ (says _ _ (λ w. refl))
          (λ u. Settles-of redis.State services _ _ (λ w. refl) (λ w. refl)))
  run_command-Says up clock command CommandType.watchlist =
      reply_with_watchlist-Says command.symbols
  run_command-Says up clock command CommandType.alert_create =
      let args = or_else command.alert (no_alert_args num unicode up redis services) in
      then-Says _ _ (created_alert-Quiet clock command.symbols args.direction args.threshold)
        (λ created. says _ _ (λ w. refl))
  run_command-Says up clock command CommandType.alert_list =
      then-Says _ _ (quiet _ (λ w. refl)) (λ alerts. says _ _ (λ w. refl))
  run_command-Says up clock command CommandType.alert_delete =
      then-Says _ _ (quiet _ (λ w. refl)) (λ deleted. says _ _ (λ w. refl))
  run_command-Says up clock command CommandType.signal_view =
      reply_with_signals-Says clock command.symbols
  run_command-Says up clock command CommandType.signal_backtest =
      reply_with_backtest-Says clock command.symbols
  run_command-Says up clock command CommandType.signal_stats =
      then-Says _ _ (quiet _ (λ w. refl))
        (λ card. then-Ends _ _ (says _ _ (λ w. refl)) (λ u. note_signal_use-Ends clock))
  run_command-Says up clock command CommandType.signal_toggle =
      then-Says _ _ (quiet _ (λ w. refl))
        (λ v. then-Ends _ _ (says _ _ (λ w. refl)) (λ u. note_signal_use-Ends clock))
  run_command-Says up clock command _ = says _ _ (λ w. refl)

  coins_of-Quiet : (ss : List Text) → Quiet (coins_of num redis.State services ss)
  unfolding coins_of
  coins_of-Quiet [] = quiet _ (λ w. refl)
  coins_of-Quiet (s ∷ ss) = quiet _ (λ w. refl)

  reply_with_holdings-Says :
      (ts : List (PortfolioTrade F)) → Says (reply_with_holdings num redis.State services c ts)
  unfolding reply_with_holdings replayed
  reply_with_holdings-Says [] = says _ _ (λ w. refl)
  reply_with_holdings-Says (t ∷ ts) = then-Says _ _ (quiet _ (λ w. refl)) (λ holdings.
      then-Says _ _ (coins_of-Quiet (map (λ (h : Holding F). h.symbol) holdings.holdings))
        (λ coins. says _ _ (λ w. refl)))

  reply_with_trade-Says :
      (clock : Clock) (symbol : Text) (args : PortfolioCommandArgs F) (message_id : Option Text)
      → Says (reply_with_trade num redis.State services clock c symbol args message_id)
  unfolding reply_with_trade replayed
  reply_with_trade-Says clock symbol args message_id = then-Says _ _ (quiet _ (λ w. refl)) (λ coins.
      then-Says _ _ (quiet _ (λ w. refl))
        (λ recorded. then-Says _ _ (quiet _ (λ w. refl)) (λ holdings. says _ _ (λ w. refl))))

  reply_with_deletion-Says :
      (index : ℕ) → Says (reply_with_deletion num redis.State services c index)
  unfolding reply_with_deletion replayed
  reply_with_deletion-Says index =
      then-Says _ _ (quiet _ (λ w. refl))
        (λ deleted. then-Says _ _ (quiet _ (λ w. refl)) (λ holdings. says _ _ (λ w. refl)))

  reply_with_clearing-Says : (b : Bool) → Says (reply_with_clearing num redis.State services c b)
  unfolding reply_with_clearing
  reply_with_clearing-Says true = then-Says _ _ (quiet _ (λ w. refl)) (λ n. says _ _ (λ w. refl))
  reply_with_clearing-Says false = says _ _ (λ w. refl)

  private_command-Says :
      (clock : Clock) (type : CommandType) (symbols : List Text) (args : PortfolioCommandArgs F)
      (message_id : Option Text)
      → Says (private_command num redis.State services clock c type symbols args message_id)
  unfolding private_command reply_with_history reply_with_portfolio
  private_command-Says clock CommandType.portfolio_view symbols args message_id =
      then-Says _ _ (quiet _ (λ w. refl)) (λ trades. reply_with_holdings-Says trades)
  private_command-Says clock CommandType.portfolio_trade (symbol ∷ _) args message_id =
      reply_with_trade-Says clock symbol args message_id
  private_command-Says clock CommandType.portfolio_history symbols args message_id =
      then-Says _ _ (quiet _ (λ w. refl)) (λ history. says _ _ (λ w. refl))
  private_command-Says clock CommandType.portfolio_delete symbols args message_id =
      reply_with_deletion-Says (or_else args.index 0)
  private_command-Says clock CommandType.portfolio_clear symbols args message_id =
      reply_with_clearing-Says (or_else args.confirmed false)
  private_command-Says clock _ symbols args message_id = says _ _ (λ w. refl)

  either_Says : (b : Bool) (m n : Step Unit) → Says m → Says n → Says (if b then m else n)
  either_Says true m n h k = h
  either_Says false m n h k = k

  dispatch-Says :
      (to_upper_case : Text → Text) (clock : Clock) (command : ParsedCommand F)
      (chat_type message_id : Option Text)
      → Says
          (dispatch num unicode to_upper_case redis services clock c command chat_type message_id)
  unfolding dispatch reply_to_portfolio_command
  dispatch-Says up clock command chat_type message_id =
      either_Says (is_portfolio_command command.type) _ _
        (either_Says (is_private up chat_type) _ _
          (private_command-Says clock command.type command.symbols
            (or_else command.portfolio (empty_args num redis.State services)) message_id)
          (says _ _ (λ w. refl)))
        (run_command-Says up clock command command.type)

module _ (num : Number) (unicode : Unicode) (to_upper_case : Text → Text)
    (redis : Redis (Stored num.F)) (services : Services num.F) where
  open num use {F}

  -- A message with a text and a chat is acknowledged, and is answered by exactly one message, to its own
  -- chat, whatever the text says, whatever the price source and the signals answer or throw, and also
  -- where the portfolio's database, the table of subscribers or the alert store fails under it.
  pub handle_webhook-replies :
      (clock : Clock) (message : WebhookMessage) (t k : ℕ) (text chat_id : Text)
      (w : World F redis.State services)
      → message.text ≡ some (t ∷ text)
      → message.chat_id ≡ some (k ∷ chat_id)
      → ((handle_webhook num unicode to_upper_case redis services clock (some message) w).0
          ≡ done tt)
        × ((reply : Reply services) × ((handle_webhook num unicode to_upper_case redis services
                clock
                (some message)
                w).1.messages
              ≡ (k ∷ chat_id, reply) ∷ w.messages))
  unfolding handle_webhook handle_message handle_texts reply_to_message
  handle_webhook-replies clock message t k text chat_id w e f =
      rw (e, f)
        (catching-Replies redis.State services (k ∷ chat_id) _ (error_reply services) w (
          dispatch-Says num unicode redis services (k ∷ chat_id) to_upper_case clock
            (parse num unicode (t ∷ text)) message.chat_type message.message_id))
