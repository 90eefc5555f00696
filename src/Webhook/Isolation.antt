-- ===== src/Webhook/Isolation.antt =====
-- Whose trades a message can change.
use crypto_zalo_bot.Base.{
  none, some, ℕ, ◌≡◌, refl, ap, ◌∙◌, Bool, true, false, not, Option, List, [], ◌∷◌, ◌++◌,
  if◌then◌else◌, or_else, keep, Text, text_eq, text_eq_iff, Bool-cases, inl, inr, arith, map,
}
use crypto_zalo_bot.Base.Number.{Number}
use crypto_zalo_bot.Portfolio.{Holding, TradeSide, buy, PortfolioTrade}
use crypto_zalo_bot.Portfolio.Ledger.{Row, Tables, of_chat, message_of}
use crypto_zalo_bot.Portfolio.Ledger.Laws.{keep-append, append-nil}
use crypto_zalo_bot.Portfolio.Ledger.Writes.{
  is_target, is_accepted, fits_columns, new_row, with_row, record_trade, delete_trade, clear_trades,
  list_trades,
}
use crypto_zalo_bot.Commands.{CommandType, ParsedCommand, PortfolioCommandArgs}
use crypto_zalo_bot.Webhook.{WebhookError, Services, Outage, World, Clock}
use crypto_zalo_bot.Webhook.Actions.{Action, Respects, Respects-of, bind-Respects}
use crypto_zalo_bot.Alerts.Store.{Answer}
use crypto_zalo_bot.Webhook.Portfolio.{
  under_outage, replayed, coins_of, reply_with_trade, reply_with_holdings, reply_with_portfolio,
  reply_with_history, reply_with_deletion, reply_with_clearing, private_command, is_private,
  reply_to_portfolio_command, traded_units, empty_args,
}

not_of : (c d : Text) → text_eq c d ≡ false → (k : Text) → text_eq k d ≡ true → text_eq k c ≡ false
not_of c d apart k e = ground (arith, text_eq_iff k d, text_eq_iff k c, text_eq_iff c d)

module _ {F : Type 0} (c d : Text) (apart : text_eq c d ≡ false) where
  of_chat-append :
      (rows : List (Row F)) (row : Row F)
      → text_eq row.chat_id d ≡ false
      → of_chat d (rows ++ row ∷ []) ≡ of_chat d rows
  of_chat-append rows row other =
      keep-append (λ (r : Row F). text_eq r.chat_id d) rows (row ∷ [])
      ∙ rw other (append-nil (of_chat d rows))

  of_chat-keep :
      (p : Row F → Bool) (rows : List (Row F))
      → ((r : Row F) → text_eq r.chat_id d ≡ true → p r ≡ true)
      → of_chat d (keep p rows) ≡ of_chat d rows
  of_chat-keep p [] h = refl
  of_chat-keep p (r ∷ rows) h = elim (Bool-cases (text_eq r.chat_id d)) [
    | inl own ↦ rw (own, h r own, own) (ap (λ t. r ∷ t) (of_chat-keep p rows h))
    | inr other ↦ rw other (skipped p r rows (p r) other ∙ of_chat-keep p rows h)
  ]
    where
      skipped :
          (p : Row F → Bool) (r : Row F) (rows : List (Row F)) (b : Bool)
          → text_eq r.chat_id d ≡ false
          → of_chat d (if b then r ∷ keep p rows else keep p rows) ≡ of_chat d (keep p rows)
      skipped p r rows true other = rw other refl
      skipped p r rows false other = refl

  abbrev of_other : Tables F → List (Row F)
  of_other t = of_chat d t.trades

  -- One of three results, all of which leave the other chat's rows as they are.
  either_of :
      {A : Type 0} (t : Tables F) (a b : Bool) (x y z : A × Tables F)
      → of_other x.1 ≡ of_other t
      → of_other y.1 ≡ of_other t
      → of_other z.1 ≡ of_other t
      → (let r : A × Tables F = if a then (if b then x else y) else z in of_other r.1 ≡ of_other t)
  either_of t true true x y z h k l = h
  either_of t true false x y z h k l = k
  either_of t false b x y z h k l = l

  delete_trade-other : (index : ℕ) (t : Tables F) → of_other (delete_trade c index t).1 ≡ of_other t
  unfolding delete_trade
  delete_trade-other index t =
      of_chat-keep (λ r. not (is_target c index t.trades r)) t.trades
        (λ r own. rw (not_of c d apart r.chat_id own) refl)

  clear_trades-other : (t : Tables F) → of_other (clear_trades c t).1 ≡ of_other t
  unfolding clear_trades
  clear_trades-other t =
      of_chat-keep (λ (r : Row F). not (text_eq r.chat_id c)) t.trades
        (λ r own. rw (not_of c d apart r.chat_id own) refl)

module _ (num : Number) (c d : Text) (apart : text_eq c d ≡ false) where
  record_trade-other :
      (side : TradeSide) (symbol : Text) (units : ℕ) (price : num.F) (message : Option Text)
      (now day : ℕ) (t : Tables num.F)
      → of_chat d (record_trade num c side symbol units price message now day t).1.trades
        ≡ of_chat d t.trades
  unfolding record_trade
  record_trade-other side symbol units price message now day t =
      let rows = of_chat c t.trades in
      let row = new_row c side symbol units price (message_of message) now rows in
      either_of c d apart t (is_accepted side symbol units (message_of message) rows)
        (fits_columns c symbol units) (_, with_row row day t) (_, t) (_, t)
        (of_chat-append c d apart t.trades row apart) refl refl

module _ (num : Number) (Store : Type 0) (services : Services num.F) (c d : Text)
    (apart : text_eq c d ≡ false) where
  open num use {F}

  abbrev trades_of : World F Store services → List (Row F)
  trades_of w = of_chat d w.tables.trades

  abbrev Keeps : {A : Type 0} → Action (World F Store services) (WebhookError F) A → Type 0
  Keeps m = Respects trades_of m

  -- A transaction that fails changes no other chat either.
  under_outage-other :
      {A : Type 0} (o : Option Outage) (e : WebhookError F) (before : Tables F)
      (r : Answer (WebhookError F) A × Tables F)
      → of_chat d r.1.trades ≡ of_chat d before.trades
      → of_chat d (under_outage o e before r).1.trades ≡ of_chat d before.trades
  unfolding under_outage
  under_outage-other none e before r h = h
  under_outage-other (some Outage.refused) e before r h = refl
  under_outage-other (some Outage.answer_lost) e before r h = h

  reply_with_trade-Keeps :
      (clock : Clock) (symbol : Text) (args : PortfolioCommandArgs F) (message_id : Option Text)
      → Keeps (reply_with_trade num Store services clock c symbol args message_id)
  unfolding reply_with_trade replayed
  reply_with_trade-Keeps clock symbol args message_id =
      bind-Respects trades_of _ _ (Respects-of trades_of _ (λ w. refl)) (λ coins.
        bind-Respects trades_of _ _
          (Respects-of trades_of _ (λ w. under_outage-other w.portfolio_outage _ w.tables _ (
            record_trade-other num c d apart (or_else args.side buy) symbol
              (traded_units num Store services args) (or_else args.price_usd (num.lit 0 0))
              message_id clock.now clock.day w.tables)))
          (λ recorded.
            bind-Respects trades_of _ _ (Respects-of trades_of _ (λ w. refl))
              (λ holdings. Respects-of trades_of _ (λ w. refl))))

  coins_of-Keeps : (ss : List Text) → Keeps (coins_of num Store services ss)
  unfolding coins_of
  coins_of-Keeps [] = Respects-of trades_of _ (λ w. refl)
  coins_of-Keeps (s ∷ ss) = Respects-of trades_of _ (λ w. refl)

  reply_with_holdings-Keeps :
      (ts : List (PortfolioTrade F)) → Keeps (reply_with_holdings num Store services c ts)
  unfolding reply_with_holdings replayed
  reply_with_holdings-Keeps [] = Respects-of trades_of _ (λ w. refl)
  reply_with_holdings-Keeps (t ∷ ts) =
      bind-Respects trades_of _ _ (Respects-of trades_of _ (λ w. refl)) (λ holdings.
        bind-Respects trades_of _ _
          (coins_of-Keeps (map (λ (h : Holding F). h.symbol) holdings.holdings))
          (λ coins. Respects-of trades_of _ (λ w. refl)))

  reply_with_portfolio-Keeps :
      (clock : Clock) → Keeps (reply_with_portfolio num Store services clock c)
  unfolding reply_with_portfolio list_trades
  reply_with_portfolio-Keeps clock =
      bind-Respects trades_of _ _
        (Respects-of trades_of _ (λ w. under_outage-other w.portfolio_outage _ w.tables _ refl))
        (λ trades. reply_with_holdings-Keeps trades)

  reply_with_deletion-Keeps : (index : ℕ) → Keeps (reply_with_deletion num Store services c index)
  unfolding reply_with_deletion replayed
  reply_with_deletion-Keeps index =
      bind-Respects trades_of _ _
        (Respects-of trades_of _ (λ w.
          under_outage-other w.portfolio_outage _ w.tables _
            (delete_trade-other c d apart index w.tables)))
        (λ deleted.
          bind-Respects trades_of _ _ (Respects-of trades_of _ (λ w. refl))
            (λ holdings. Respects-of trades_of _ (λ w. refl)))

  reply_with_clearing-Keeps : (b : Bool) → Keeps (reply_with_clearing num Store services c b)
  unfolding reply_with_clearing
  reply_with_clearing-Keeps true =
      bind-Respects trades_of _ _
        (Respects-of trades_of _ (λ w.
          under_outage-other w.portfolio_outage _ w.tables _
            (clear_trades-other c d apart w.tables)))
        (λ n. Respects-of trades_of _ (λ w. refl))
  reply_with_clearing-Keeps false = Respects-of trades_of _ (λ w. refl)

  private_command-Keeps :
      (clock : Clock) (type : CommandType) (symbols : List Text) (args : PortfolioCommandArgs F)
      (message_id : Option Text)
      → Keeps (private_command num Store services clock c type symbols args message_id)
  unfolding private_command reply_with_history
  private_command-Keeps clock CommandType.portfolio_view symbols args message_id =
      reply_with_portfolio-Keeps clock
  private_command-Keeps clock CommandType.portfolio_trade (symbol ∷ _) args message_id =
      reply_with_trade-Keeps clock symbol args message_id
  private_command-Keeps clock CommandType.portfolio_history symbols args message_id =
      bind-Respects trades_of _ _
        (Respects-of trades_of _ (λ w. under_outage-other w.portfolio_outage _ w.tables _ refl))
        (λ history. Respects-of trades_of _ (λ w. refl))
  private_command-Keeps clock CommandType.portfolio_delete symbols args message_id =
      reply_with_deletion-Keeps (or_else args.index 0)
  private_command-Keeps clock CommandType.portfolio_clear symbols args message_id =
      reply_with_clearing-Keeps (or_else args.confirmed false)
  private_command-Keeps clock _ symbols args message_id = Respects-of trades_of _ (λ w. refl)

  if-Keeps :
      (b : Bool) (m n : Action (World F Store services) (WebhookError F) Unit)
      → Keeps m
      → Keeps n
      → Keeps (if b then m else n)
  if-Keeps true m n h k = h
  if-Keeps false m n h k = k

  pub reply_to_portfolio_command-Keeps :
      (to_upper_case : Text → Text) (clock : Clock) (command : ParsedCommand F)
      (chat_type message_id : Option Text)
      → Keeps (
          reply_to_portfolio_command num Store services to_upper_case clock c command chat_type
            message_id)
  unfolding reply_to_portfolio_command
  reply_to_portfolio_command-Keeps to_upper_case clock command chat_type message_id =
      if-Keeps (is_private to_upper_case chat_type) _ _
        (private_command-Keeps clock command.type command.symbols
          (or_else command.portfolio (empty_args num Store services)) message_id)
        (Respects-of trades_of _ (λ w. refl))
