-- ===== src/Webhook/Commands.antt =====
-- The commands of `replyToMessage` outside portfolios: prices, the watchlist, alerts and signals.
use crypto_zalo_bot.Base.{
  or_else, ℕ, Bool, true, false, Option, none, some, List, [], ◌∷◌, Text, codes,
}
use crypto_zalo_bot.Base.Number.{Number}
use crypto_zalo_bot.Alerts.{AlertDirection}
use crypto_zalo_bot.Alerts.Store.{
  Answer, done, thrown, Stored, AlertError, CreatedAlert, create, list_by_chat, delete_by_index,
}
use crypto_zalo_bot.Alerts.Store.Client.{Redis}
use crypto_zalo_bot.Portfolio.Prices.{CoinMarketData}
use crypto_zalo_bot.Commands.{AlertCommandArgs}
use crypto_zalo_bot.Commands.Words.{Unicode}
use crypto_zalo_bot.Subscribers.{
  Subscriber, InvalidWatchlistError, subscribe, unsubscribe, find_active_by_chat_id,
  update_watchlist,
}
use crypto_zalo_bot.Webhook.{WebhookError, Services, Reply, Call, World, Clock}
use crypto_zalo_bot.Webhook.Actions.{Action, pure, raise, answer, ◌>>=◌, ◌>>◌, catching}
use crypto_zalo_bot.Webhook.Portfolio.{post, under_outage}

-- DEFAULT_WATCHLIST of src/subscribers/subscribers.constants.ts.
abbrev pub default_watchlist : List Text
default_watchlist = codes "btc" ∷ codes "eth" ∷ []

module _ (num : Number) (unicode : Unicode) (redis : Redis (Stored num.F))
    (services : Services num.F) where
  open num use {F}
  open services use {Sig}

  abbrev pub Step : Type 0 → Type 0
  Step A = Action (World F redis.State services) (WebhookError F) A

  abbrev pub reply : Text → Reply services → Step Unit
  reply chat_id r = post num redis.State services chat_id r

  -- A call of another service: it is made, and answers.
  abbrev pub calling : {A : Type 0} → Call Sig → Answer (WebhookError F) A → Step A
  calling c a w = (a, record w { calls = c ∷ w.calls })

  -- A failure that is only logged.
  abbrev pub swallowing : Step Unit → Step Unit
  swallowing m = catching m (λ _. pure tt)

  -- What an operation of the alert store throws, as the controller sees it.
  unfoldable pub alert_error : AlertError F (WebhookError F) → WebhookError F
  alert_error (AlertError.limit_reached limit) = WebhookError.alert_limit_reached limit
  alert_error (AlertError.condition_already_met symbol direction price) =
      WebhookError.alert_condition_already_met symbol direction price
  alert_error (AlertError.not_found index) = WebhookError.alert_not_found index
  alert_error (AlertError.price_error e) = e

  unfoldable pub alert_answer :
      {A : Type 0} → Answer (AlertError F (WebhookError F)) A → Answer (WebhookError F) A
  alert_answer (done a) = done a
  alert_answer (thrown e) = thrown (alert_error e)

  -- The answer of Redis and what it holds afterwards, from those of an operation that works.
  unfoldable pub under_redis_outage :
      {A : Type 0}
      → Option (redis.State → redis.State)
      → redis.State
      → Answer (WebhookError F) A × redis.State
      → Answer (WebhookError F) A × redis.State
  under_redis_outage none before r = r
  under_redis_outage (some left) before r = (thrown WebhookError.unexpected, left before)

  -- An operation of PriceAlertsService.
  abbrev pub on_alerts :
      {A : Type 0} → (redis.State → Answer (AlertError F (WebhookError F)) A × redis.State) → Step A
  on_alerts f w =
      let (r, written) = f w.alerts in
      let (a, alerts) = under_redis_outage w.alerts_outage w.alerts (alert_answer r, written) in
      (a, record w { alerts = alerts })

  -- The first coin of an answer; there is none in an empty one.
  unfoldable pub first_price :
      Answer (WebhookError F) (List (CoinMarketData F)) → Answer (WebhookError F) F
  first_price (done (coin ∷ _)) = done coin.price_usd
  first_price (done []) = thrown WebhookError.unexpected
  first_price (thrown e) = thrown e

  unfoldable pub first_coin_price : Text → Answer (WebhookError F) F
  first_coin_price symbol = first_price (services.get_prices_by_symbols (symbol ∷ []))

  unfoldable pub reply_with_top_markets : Text → Step Unit
  reply_with_top_markets chat_id = do
    coins ← answer services.get_top_markets
    reply chat_id (Reply.top_markets_reply coins)

  unfoldable pub reply_with_prices : Text → List Text → Step Unit
  reply_with_prices chat_id symbols = do
    coins ← answer (services.get_prices_by_symbols symbols)
    reply chat_id (Reply.price_reply coins)

  unfoldable pub wanted_watchlist : List Text → List Text
  wanted_watchlist [] = default_watchlist
  wanted_watchlist (s ∷ ss) = s ∷ ss

  unfoldable pub subscriber_answer :
      Answer InvalidWatchlistError (Option Subscriber) → Answer (WebhookError F) (Option Subscriber)
  subscriber_answer (done s) = done s
  subscriber_answer (thrown e) = thrown (WebhookError.invalid_watchlist e)

  -- An operation of SubscribersService.
  abbrev pub on_subscribers :
      (List Subscriber → Answer InvalidWatchlistError (Option Subscriber) × List Subscriber)
      → Step (Option Subscriber)
  on_subscribers f w =
      let (r, written) = f w.subscribers in
      let (a, subscribers) =
        under_outage w.subscribers_outage WebhookError.unexpected w.subscribers
          (subscriber_answer r, written) in
      (a, record w { subscribers = subscribers })

  abbrev pub active_subscriber : Text → Step (Option Subscriber)
  active_subscriber chat_id =
      on_subscribers (λ rows. (done (find_active_by_chat_id chat_id rows), rows))

  unfoldable pub watchlist_of : Option Subscriber → Option (List Text)
  watchlist_of none = none
  watchlist_of (some subscriber) = some subscriber.watchlist

  -- The mirror swallows its own failures.
  unfoldable pub reply_to_subscribe : Clock → Text → List Text → Step Unit
  reply_to_subscribe clock chat_id symbols = do
    subscriber ← on_subscribers (subscribe unicode chat_id (wanted_watchlist symbols) clock.now)
    let watchlist = or_else (watchlist_of subscriber) []
    reply chat_id (Reply.subscribe_reply watchlist)
    calling (Call.mirror_subscribed chat_id watchlist) (done tt)

  unfoldable pub reply_to_unsubscribe : Text → Step Unit
  reply_to_unsubscribe chat_id = do
    _ ← on_subscribers (λ rows. (done none, unsubscribe chat_id rows))
    reply chat_id Reply.unsubscribe_reply
    calling (Call.mirror_unsubscribed chat_id) (done tt)

  unfoldable pub watchlist_updated : Text → Option (List Text) → Step Unit
  watchlist_updated chat_id none = reply chat_id Reply.watchlist_not_subscribed_reply
  watchlist_updated chat_id (some watchlist) = do
    reply chat_id (Reply.watchlist_updated_reply watchlist)
    calling (Call.mirror_watchlist_changed chat_id watchlist) (done tt)

  unfoldable pub reply_with_watchlist : Text → List Text → Step Unit
  reply_with_watchlist chat_id [] = do
    subscriber ← active_subscriber chat_id
    reply chat_id (Reply.watchlist_view_reply (watchlist_of subscriber))
  reply_with_watchlist chat_id (s ∷ ss) = do
    updated ← on_subscribers (update_watchlist unicode chat_id (s ∷ ss))
    watchlist_updated chat_id (watchlist_of updated)

  unfoldable pub created_alert :
      Clock → Text → List Text → Option AlertDirection → Option F → Step (CreatedAlert F)
  created_alert clock chat_id (symbol ∷ _) (some direction) (some threshold) =
      on_alerts (create num redis chat_id symbol direction threshold clock.now first_coin_price)
  created_alert clock chat_id _ _ _ = raise WebhookError.unexpected

  unfoldable pub reply_with_new_alert : Clock → Text → List Text → AlertCommandArgs F → Step Unit
  reply_with_new_alert clock chat_id symbols args = do
    created ← created_alert clock chat_id symbols args.direction args.threshold
    reply chat_id (Reply.alert_created_reply created)

  unfoldable pub reply_with_alerts : Text → Step Unit
  reply_with_alerts chat_id = do
    alerts ← on_alerts (λ s. (done (list_by_chat num redis chat_id s), s))
    reply chat_id (Reply.alert_list_reply alerts)

  unfoldable pub reply_with_deleted_alert : Text → ℕ → Step Unit
  reply_with_deleted_alert chat_id index = do
    deleted ← on_alerts (delete_by_index num redis chat_id index)
    reply chat_id (Reply.alert_deleted_reply deleted index)

  -- `noteSignalUse`
  unfoldable pub note_signal_use : Clock → Text → Step Unit
  note_signal_use clock chat_id =
      swallowing (calling (Call.record_usage chat_id) (services.record_usage chat_id clock.now))

  unfoldable pub record_verdicts : Clock → Text → List Sig → Bool → Step Unit
  record_verdicts clock chat_id signals true = swallowing (
      calling (Call.record_sent_verdicts chat_id signals)
        (services.record_sent_verdicts chat_id signals clock.now))
  record_verdicts clock chat_id signals false = pure tt

  unfoldable pub send_signals : Clock → Text → List Sig → Bool → Step Unit
  send_signals clock chat_id signals tracked = do
    reply chat_id (Reply.signal_reply signals tracked)
    record_verdicts clock chat_id signals tracked
    note_signal_use clock chat_id

  unfoldable pub reply_with_watched_signals : Clock → Text → Option (List Text) → Step Unit
  reply_with_watched_signals clock chat_id (some (s ∷ ss)) = do
    signals ← answer (services.get_signals_for_symbols (s ∷ ss) clock.now)
    send_signals clock chat_id signals true
  reply_with_watched_signals clock chat_id _ = reply chat_id Reply.signal_no_watchlist_reply

  -- `replyWithSignals`
  unfoldable pub reply_with_signals : Clock → Text → List Text → Step Unit
  reply_with_signals clock chat_id (symbol ∷ _) = do
    (signal, tracked) ← answer (services.get_signal_for symbol clock.now)
    send_signals clock chat_id (signal ∷ []) tracked
  reply_with_signals clock chat_id [] = do
    subscriber ← active_subscriber chat_id
    reply_with_watched_signals clock chat_id (watchlist_of subscriber)

  unfoldable pub reply_with_backtest : Clock → Text → List Text → Step Unit
  reply_with_backtest clock chat_id (symbol ∷ _) = do
    _ ← answer (services.get_prices_by_symbols (symbol ∷ []))
    result ← answer (services.backtest symbol clock.now)
    reply chat_id (Reply.backtest_reply symbol result)
    note_signal_use clock chat_id
  reply_with_backtest clock chat_id [] = raise WebhookError.unexpected

  unfoldable pub reply_with_scorecard : Clock → Text → Step Unit
  reply_with_scorecard clock chat_id = do
    card ← answer (services.scorecard chat_id clock.now)
    reply chat_id (Reply.scorecard_reply card)
    note_signal_use clock chat_id

  unfoldable pub reply_to_toggle : Clock → Text → Bool → Step Unit
  reply_to_toggle clock chat_id enabled = do
    calling (Call.set_enabled chat_id enabled) (services.set_enabled chat_id enabled)
    reply chat_id (Reply.signal_toggle_reply enabled)
    note_signal_use clock chat_id
