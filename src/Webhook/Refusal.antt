-- ===== src/Webhook/Refusal.antt =====
-- A portfolio is only shown and changed in a private chat (src/webhook/webhook.controller.ts).
use crypto_zalo_bot.Base.{
  ℕ, ◌≡◌, ◌≢◌, refl, ◌⊎◌, inl, inr, Bool, true, false, ◌||◌, Option, none, some, List, [], ◌∷◌, map,
  if◌then◌else◌, Text, codes, text_eq, text_eq_iff, member, Bool-cases,
}
use crypto_zalo_bot.Base.Number.{Number}
use crypto_zalo_bot.Alerts.Store.{Stored, done}
use crypto_zalo_bot.Alerts.Store.Client.{Redis}
use crypto_zalo_bot.Portfolio.{TradeSide, buy, sell}
use crypto_zalo_bot.Commands.{ParsedCommand}
use crypto_zalo_bot.Commands.Words.{Unicode, is_empty, trim, words, plain_word}
use crypto_zalo_bot.Commands.Numbers.{PositiveNumber, parse_positive_integer}
use crypto_zalo_bot.Commands.Syntax.{
  delete_keywords, portfolio_buy_keywords, portfolio_sell_keywords, portfolio_history_keywords,
  portfolio_clear_keywords, portfolio_confirm_keywords, is_valid_symbol,
}
use crypto_zalo_bot.Commands.Parser.{
  portfolio_traded, portfolio_trade, history_page, portfolio_history, portfolio_deleted,
  portfolio_delete, portfolio_cleared, portfolio_clear, parse_portfolio, parse_words, parse_trimmed,
  parse,
}
use crypto_zalo_bot.Webhook.{Services, Reply, World, Clock, WebhookMessage}
use crypto_zalo_bot.Webhook.Actions.{catching, handled}
use crypto_zalo_bot.Webhook.Portfolio.{is_private, reply_to_portfolio_command}
use crypto_zalo_bot.Webhook.Dispatch.{
  is_portfolio_command, dispatch, reply_to_message, handle_texts, handle_message, handle_webhook,
}

module _ (num : Number) (unicode : Unicode) where
  open num use {F}

  abbrev IsPortfolio : ParsedCommand F → Type 0
  IsPortfolio c = is_portfolio_command c.type ≡ true

  if-IsPortfolio :
      (b : Bool) (x y : ParsedCommand F)
      → IsPortfolio x
      → IsPortfolio y
      → IsPortfolio (if b then x else y)
  if-IsPortfolio true x y h k = h
  if-IsPortfolio false x y h k = k

  portfolio_traded-IsPortfolio :
      (side : TradeSide) (symbol : Text) (quantity price : Option (PositiveNumber F))
      → IsPortfolio (portfolio_traded num unicode side symbol quantity price)
  unfolding portfolio_traded is_portfolio_command
  portfolio_traded-IsPortfolio side symbol none price = refl
  portfolio_traded-IsPortfolio side symbol (some q) none = refl
  portfolio_traded-IsPortfolio side symbol (some q) (some p) =
      if-IsPortfolio (is_valid_symbol symbol) _ _ refl refl

  portfolio_trade-IsPortfolio :
      (side : TradeSide) (rest : List Text) → IsPortfolio (portfolio_trade num unicode side rest)
  unfolding portfolio_trade is_portfolio_command
  portfolio_trade-IsPortfolio side [] = refl
  portfolio_trade-IsPortfolio side (_ ∷ []) = refl
  portfolio_trade-IsPortfolio side (_ ∷ _ ∷ []) = refl
  portfolio_trade-IsPortfolio side (symbol ∷ quantity ∷ price ∷ []) =
      portfolio_traded-IsPortfolio side symbol _ _
  portfolio_trade-IsPortfolio side (_ ∷ _ ∷ _ ∷ _ ∷ _) = refl

  portfolio_history-IsPortfolio :
      (rest : List Text) → IsPortfolio (portfolio_history num unicode rest)
  unfolding portfolio_history history_page is_portfolio_command
  portfolio_history-IsPortfolio [] = refl
  portfolio_history-IsPortfolio (raw ∷ []) = read (parse_positive_integer raw)
    where
      read : (o : Option ℕ) → IsPortfolio (history_page num unicode o)
      read none = refl
      read (some page) = refl
  portfolio_history-IsPortfolio (_ ∷ _ ∷ _) = refl

  portfolio_delete-IsPortfolio :
      (rest : List Text) → IsPortfolio (portfolio_delete num unicode rest)
  unfolding portfolio_delete portfolio_deleted is_portfolio_command
  portfolio_delete-IsPortfolio [] = refl
  portfolio_delete-IsPortfolio (raw ∷ []) = read (parse_positive_integer raw)
    where
      read : (o : Option ℕ) → IsPortfolio (portfolio_deleted num unicode o)
      read none = refl
      read (some index) = refl
  portfolio_delete-IsPortfolio (_ ∷ _ ∷ _) = refl

  portfolio_clear-IsPortfolio : (rest : List Text) → IsPortfolio (portfolio_clear num unicode rest)
  unfolding portfolio_clear portfolio_cleared is_portfolio_command
  portfolio_clear-IsPortfolio [] = refl
  portfolio_clear-IsPortfolio (word ∷ []) =
      if-IsPortfolio (member word portfolio_confirm_keywords) _ _ refl refl
  portfolio_clear-IsPortfolio (_ ∷ _ ∷ _) = refl

  -- Whatever follows "/danhmuc", the command is one of the portfolio's.
  parse_portfolio-IsPortfolio : (args : List Text) → IsPortfolio (parse_portfolio num unicode args)
  unfolding parse_portfolio is_portfolio_command
  parse_portfolio-IsPortfolio [] = refl
  parse_portfolio-IsPortfolio (keyword ∷ rest) = if-IsPortfolio (is_empty keyword) _ _ refl (
      if-IsPortfolio
        (member keyword portfolio_buy_keywords || member keyword portfolio_sell_keywords) _ _
        (portfolio_trade-IsPortfolio (if member keyword portfolio_buy_keywords then buy else sell)
          rest)
        (if-IsPortfolio (member keyword portfolio_history_keywords) _ _
          (portfolio_history-IsPortfolio rest)
          (if-IsPortfolio (member keyword delete_keywords) _ _ (portfolio_delete-IsPortfolio rest) (
            if-IsPortfolio (member keyword portfolio_clear_keywords) _ _
              (portfolio_clear-IsPortfolio rest) refl))))

  parse_words-IsPortfolio :
      (word : Text) (rest : List Text)
      → (plain_word unicode word ≡ codes "danhmuc") ⊎ (plain_word unicode word ≡ codes "portfolio")
      → IsPortfolio (parse_words num unicode (word ∷ rest))
  unfolding parse_words member text_eq
  parse_words-IsPortfolio word rest (inl e) =
      rw e (parse_portfolio-IsPortfolio (map (plain_word unicode) rest))
  parse_words-IsPortfolio word rest (inr e) =
      rw e (parse_portfolio-IsPortfolio (map (plain_word unicode) rest))

  parse-IsPortfolio :
      (raw s word : Text) (rest : List Text)
      → trim raw ≡ b'/' ∷ s
      → words s ≡ word ∷ rest
      → (plain_word unicode word ≡ codes "danhmuc") ⊎ (plain_word unicode word ≡ codes "portfolio")
      → IsPortfolio (parse num unicode raw)
  unfolding parse parse_trimmed
  parse-IsPortfolio raw s word rest e f h = rw (e, f) (parse_words-IsPortfolio word rest h)

is_private-false :
    (to_upper_case : Text → Text) (chat_type : Option Text)
    → to_upper_case [] ≡ []
    → ((kind : Text) → chat_type ≡ some kind → to_upper_case kind ≢ codes "PRIVATE")
    → is_private to_upper_case chat_type ≡ false
unfolding is_private text_eq
is_private-false up none e h = rw e refl
is_private-false up (some kind) e h = elim (Bool-cases (text_eq (up kind) (codes "PRIVATE"))) [
  | inl same ↦ absurd (h kind refl ((text_eq_iff (up kind) (codes "PRIVATE")).0 same))
  | inr other ↦ other
]

module _ (num : Number) (unicode : Unicode) (to_upper_case : Text → Text)
    (redis : Redis (Stored num.F)) (services : Services num.F) where
  open num use {F}

  -- A message whose first word is "/danhmuc" or "/portfolio", in any case and with any diacritics, and
  -- whatever follows it, is answered by the refusal and nothing else outside a private chat and in a
  -- chat whose kind is not known: no portfolio, alert or other service is touched. The upper case of
  -- the empty text is empty.
  pub handle_webhook-group :
      (clock : Clock) (message : WebhookMessage) (t k : ℕ) (text chat_id s word : Text)
      (rest : List Text) (w : World F redis.State services)
      → message.text ≡ some (t ∷ text)
      → message.chat_id ≡ some (k ∷ chat_id)
      → trim (t ∷ text) ≡ b'/' ∷ s
      → words s ≡ word ∷ rest
      → (plain_word unicode word ≡ codes "danhmuc") ⊎ (plain_word unicode word ≡ codes "portfolio")
      → to_upper_case [] ≡ []
      → ((kind : Text) → message.chat_type ≡ some kind → to_upper_case kind ≢ codes "PRIVATE")
      → handle_webhook num unicode to_upper_case redis services clock (some message) w ≡ (
        done tt,
        record w { messages = (k ∷ chat_id, Reply.portfolio_group_refused_reply) ∷ w.messages },
      )
  unfolding handle_webhook handle_message handle_texts reply_to_message dispatch
      reply_to_portfolio_command catching handled
  handle_webhook-group clock message t k text chat_id s word rest w e f slash first named empty
        kinds =
      let portfolio = parse-IsPortfolio num unicode (t ∷ text) s word rest slash first named in
      let group = is_private-false to_upper_case message.chat_type empty kinds in
      rw (e, f, portfolio, group) refl
