-- ===== src/Webhook/Tests.antt =====
-- Runs of the webhook on concrete messages, with an alert store in memory.
use crypto_zalo_bot.Base.{
  true, ◌≡◌, ◌≢◌, refl, inl, subst, false, Option, none, some, [], ◌∷◌, Text, codes, text_eq,
  text_eq_refl,
}
use crypto_zalo_bot.Base.Int.{ℤ}
use crypto_zalo_bot.Base.Number.{scaled}
use crypto_zalo_bot.Alerts.Store.{Stored, done, thrown}
use crypto_zalo_bot.Alerts.Store.Client.{Redis}
use crypto_zalo_bot.Alerts.Store.Memory.{Memory, no_memory, memory_redis}
use crypto_zalo_bot.Portfolio.Ledger.{of_chat}
use crypto_zalo_bot.Commands.Words.{
  Unicode, is_space, trim, trim_start, trim_end, words, add_word, first_word, plain_word,
  strip_diacritics, bare_letter,
}
use crypto_zalo_bot.Webhook.{WebhookError, Services, Reply, Outage, World, WebhookMessage, Clock}
use crypto_zalo_bot.Webhook.Dispatch.{handle_webhook}
use crypto_zalo_bot.Webhook.Untouched.{handle_webhook-other_chats}
use crypto_zalo_bot.Webhook.Replies.Laws.{handle_webhook-replies}
use crypto_zalo_bot.Webhook.Refusal.{handle_webhook-group}

-- Letters without case and marks are left as they are.
abbrev ascii : Unicode
ascii = record { to_lower_case = λ s. s; normalize_nfd = λ s. s }

abbrev same_case : Text → Text
same_case s = s

abbrev quiet_services : Services ℤ
quiet_services = record {
  Sig = Unit;
  Backtest = Unit;
  Card = Unit;
  get_top_markets = thrown WebhookError.coingecko_unavailable;
  get_prices_by_symbols = λ symbols. done [];
  resolve_symbol_to_id = λ s. s;
  get_signal_for = λ s now. done (tt, true);
  get_signals_for_symbols = λ ss now. done [];
  backtest = λ s now. done tt;
  scorecard = λ c now. done tt;
  set_enabled = λ c b. done tt;
  record_sent_verdicts = λ c signals now. done tt;
  record_usage = λ c now. thrown WebhookError.unexpected;
}

abbrev store : Redis (Stored ℤ)
store = memory_redis (Stored ℤ)

abbrev empty_world : World ℤ (Memory (Stored ℤ)) quiet_services
empty_world = record {
  tables = record { trades = []; usage = [] };
  alerts = no_memory;
  subscribers = [];
  messages = [];
  portfolio_outage = none;
  subscribers_outage = none;
  alerts_outage = none;
  calls = [];
}

abbrev noon : Clock
noon = record { now = 1_000; day = 1 }

abbrev ann : Text
ann = codes "ann"

abbrev bob : Text
bob = codes "bob"

abbrev trade_text : Text
trade_text = codes "danhmuc mua btc 0.5 64000"

abbrev trade_message : WebhookMessage
trade_message = record {
  message_id = some (codes "m1");
  text = some (b'/' ∷ trade_text);
  chat_id = some ann;
  chat_type = some (codes "PRIVATE");
}

sender : (c : Text) → Path (Option Text) (some ann) (some c) → text_eq c bob ≡ false
sender c e =
    let same : ann ≡ c = cc in subst (λ k. text_eq k bob ≡ false) same (unfold text_eq in refl)

handle_webhook-other_chats_example :
    of_chat bob
      (handle_webhook scaled ascii same_case store quiet_services noon
        (some trade_message)
        empty_world).1.tables.trades
    ≡ []
handle_webhook-other_chats_example =
    handle_webhook-other_chats scaled ascii same_case store quiet_services bob noon trade_message
      empty_world sender

-- The trade is committed, and its answer is lost.
abbrev failing_world : World ℤ (Memory (Stored ℤ)) quiet_services
failing_world = record empty_world { portfolio_outage = some Outage.answer_lost }

handle_webhook-replies_example :
    ((handle_webhook scaled ascii same_case store quiet_services noon
        (some trade_message)
        failing_world).0
      ≡ done tt)
    × ((reply : Reply quiet_services) × ((handle_webhook scaled ascii same_case store quiet_services
            noon
            (some trade_message)
            failing_world).1.messages
          ≡ (ann, reply) ∷ []))
handle_webhook-replies_example =
    handle_webhook-replies scaled ascii same_case store quiet_services noon trade_message b'/' b'a'
      trade_text (codes "nn") failing_world refl refl

abbrev group_message : WebhookMessage
group_message = record trade_message { chat_type = some (codes "GROUP") }

as_words : trim (b'/' ∷ trade_text) ≡ b'/' ∷ trade_text
unfolding trim_start trim_end is_space
as_words = refl

first_of_words :
    words trade_text
    ≡ codes "danhmuc" ∷ codes "mua" ∷ codes "btc" ∷ codes "0.5" ∷ codes "64000" ∷ []
unfolding first_word add_word is_space
first_of_words = refl

plain_danhmuc : plain_word ascii (codes "danhmuc") ≡ codes "danhmuc"
unfolding plain_word strip_diacritics bare_letter
plain_danhmuc = refl

no_private : (kind : Text) → some (codes "GROUP") ≡ some kind → kind ≢ codes "PRIVATE"
no_private kind e f =
    let same : codes "GROUP" ≡ codes "PRIVATE" = cc in
    let apart : text_eq (codes "GROUP") (codes "PRIVATE") ≡ false = unfold text_eq in refl in
    let joined : text_eq (codes "PRIVATE") (codes "PRIVATE") ≡ false =
      subst (λ k. text_eq k (codes "PRIVATE") ≡ false) same apart in
    absurd (cc (joined, text_eq_refl (codes "PRIVATE")))

handle_webhook-group_example :
    handle_webhook scaled ascii same_case store quiet_services noon (some group_message) empty_world
    ≡ (done tt, record empty_world { messages = (ann, Reply.portfolio_group_refused_reply) ∷ [] })
handle_webhook-group_example =
    handle_webhook-group scaled ascii same_case store quiet_services noon group_message b'/' b'a'
      trade_text (codes "nn") trade_text (codes "danhmuc")
      (codes "mua" ∷ codes "btc" ∷ codes "0.5" ∷ codes "64000" ∷ []) empty_world refl refl as_words
      first_of_words (inl plain_danhmuc) refl no_private
