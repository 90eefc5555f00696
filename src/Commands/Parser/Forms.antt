-- ===== src/Commands/Parser/Forms.antt =====
-- Every command that the parser returns carries the arguments that its type needs.
use crypto_zalo_bot.Base.{
  ℕ, ◌≡◌, refl, subst, Bool, true, false, not, ◌&&◌, ◌||◌, Option, none, some, List, [], ◌∷◌, map,
  ltb, ◌==◌, if◌then◌else◌, length, all, Text, codes, text_eq, member, Option-cases, inl, inr,
  arith,
}
use crypto_zalo_bot.Base.Number.{Number}
use crypto_zalo_bot.Alerts.{AlertDirection}
use crypto_zalo_bot.Portfolio.{TradeSide, buy, sell}
use crypto_zalo_bot.Portfolio.Quantity.{split_dot}
use crypto_zalo_bot.Commands.{CommandType, ParsedCommand}
use crypto_zalo_bot.Commands.Words.{
  Unicode, is_empty, trim, words, join_words, plain_word, parse_symbols-IsDistinct,
}
use crypto_zalo_bot.Commands.Numbers.{
  PositiveNumber, is_plain_number, number_of, parse_positive_number, parse_index,
}
use crypto_zalo_bot.Commands.Numbers.Range.{
  IsIndex, parse_index-IsIndex, parse_positive_number-IsAmount, parse_positive_number-units,
  in_range-of, parse_positive_number-value,
}
use crypto_zalo_bot.Commands.Syntax.{
  price_command_aliases, help_command_aliases, subscribe_command_aliases,
  unsubscribe_command_aliases, watchlist_command_aliases, alert_command_aliases, delete_keywords,
  portfolio_command_aliases, signal_command_aliases, signal_backtest_keywords,
  signal_stats_keywords, signal_off_keywords, signal_on_keywords, signal_keyword_typos,
  portfolio_buy_keywords, portfolio_sell_keywords, portfolio_history_keywords,
  portfolio_clear_keywords, portfolio_confirm_keywords, max_symbol_length, is_symbol_char,
  is_valid_symbol, match_alert,
}
use crypto_zalo_bot.Commands.Syntax.Matches.{match_alert-symbol}
use crypto_zalo_bot.Commands.Parser.{
  bare, alert_command, alert_deleted, alert_delete, alert_created, alert_create, parse_alert,
  signal_toggle, signal_backtest, signal_stats, signal_view, parse_signal, quantity_of,
  portfolio_traded, portfolio_trade, history_page, portfolio_history, portfolio_deleted,
  portfolio_delete, portfolio_cleared, portfolio_clear, portfolio_command, parse_portfolio, prices,
  parse_words, parse_trimmed, parse, max_amount,
}
use crypto_zalo_bot.Commands.Parser.Arguments.{
  is_valid_symbol-IsSymbol, IsExact, IsAmount, no_args, IsFormed,
}

module _ (num : Number) (unicode : Unicode) where
  open num use {F}

  IsFormed-if :
      (b : Bool) (x y : ParsedCommand F)
      → (b ≡ true → IsFormed num x)
      → (b ≡ false → IsFormed num y)
      → IsFormed num (if b then x else y)
  IsFormed-if true x y h k = h refl
  IsFormed-if false x y h k = k refl

  alert_deleted-IsFormed :
      (o : Option ℕ)
      → ((n : ℕ) → o ≡ some n → IsIndex 3 n)
      → IsFormed num (alert_deleted num unicode o)
  unfolding alert_deleted
  alert_deleted-IsFormed none h = (refl, refl, refl, refl)
  alert_deleted-IsFormed (some n) h = ((n, refl, h n refl), refl, refl, refl)

  alert_delete-IsFormed : (rest : List Text) → IsFormed num (alert_delete num unicode rest)
  unfolding alert_delete
  alert_delete-IsFormed [] = (refl, refl, refl, refl)
  alert_delete-IsFormed (raw ∷ []) =
      alert_deleted-IsFormed (parse_index 3 raw) (parse_index-IsIndex 3 raw)
  alert_delete-IsFormed (_ ∷ _ ∷ _) = (refl, refl, refl, refl)

  alert_created-IsFormed :
      (symbol : Text) (direction : AlertDirection) (o : Option (PositiveNumber F))
      → (is_empty symbol ≡ false) × (all is_symbol_char symbol ≡ true)
      → ((p : PositiveNumber F) → o ≡ some p → IsAmount num p.value)
      → IsFormed num (alert_created num unicode symbol direction o)
  unfolding alert_created is_valid_symbol
  alert_created-IsFormed symbol direction none h k = (refl, refl, refl, refl)
  alert_created-IsFormed symbol direction (some p) h k =
      IsFormed-if (ltb max_symbol_length (length symbol))
        (bare num unicode CommandType.alert_invalid [])
        (alert_command num unicode CommandType.alert_create (symbol ∷ []) (some direction)
          (some p.value) none)
        (λ _. (refl, refl, refl, refl))
        (λ short. (
          (symbol, refl, is_valid_symbol-IsSymbol symbol (ground (arith, short))),
          (direction, p.value, refl, k p refl),
          refl,
          refl,
        ))

  alert_create-IsFormed : (s : Text) → IsFormed num (alert_create num unicode (match_alert s))
  unfolding alert_create
  alert_create-IsFormed s = elim (Option-cases (match_alert s)) [
    | inl e ↦ rw e (refl, refl, refl, refl)
    | inr ((symbol, direction, raw), e) ↦ rw e (
        alert_created-IsFormed symbol direction
          (parse_positive_number num raw 8 (max_amount num unicode))
          (match_alert-symbol s symbol direction raw e)
          (parse_positive_number-IsAmount num raw 8 (max_amount num unicode)))
  ]

  parse_alert-IsFormed : (args : List Text) → IsFormed num (parse_alert num unicode args)
  unfolding parse_alert
  parse_alert-IsFormed [] = (refl, refl, refl, refl)
  parse_alert-IsFormed (keyword ∷ rest) =
      IsFormed-if (member keyword delete_keywords) _ _ (λ _. alert_delete-IsFormed rest)
        (λ _. alert_create-IsFormed (join_words (keyword ∷ rest)))

  signal_toggle-IsFormed :
      (b : Bool) (rest : List Text) → IsFormed num (signal_toggle num unicode b rest)
  unfolding signal_toggle
  signal_toggle-IsFormed b [] = ((b, refl), refl, refl, refl)
  signal_toggle-IsFormed b (_ ∷ _) = (refl, refl, refl, refl)

  signal_backtest-IsFormed : (rest : List Text) → IsFormed num (signal_backtest num unicode rest)
  unfolding signal_backtest
  signal_backtest-IsFormed [] = (refl, refl, refl, refl)
  signal_backtest-IsFormed (symbol ∷ []) =
      IsFormed-if (is_valid_symbol symbol) _ _
        (λ valid. ((symbol, refl, is_valid_symbol-IsSymbol symbol valid), refl, refl, refl))
        (λ _. (refl, refl, refl, refl))
  signal_backtest-IsFormed (_ ∷ _ ∷ _) = (refl, refl, refl, refl)

  signal_stats-IsFormed : (rest : List Text) → IsFormed num (signal_stats num unicode rest)
  unfolding signal_stats
  signal_stats-IsFormed [] = (refl, refl, refl, refl)
  signal_stats-IsFormed (_ ∷ _) = (refl, refl, refl, refl)

  signal_view-IsFormed :
      (symbol : Text) (rest : List Text) → IsFormed num (signal_view num unicode symbol rest)
  unfolding signal_view
  signal_view-IsFormed symbol [] =
      IsFormed-if (is_valid_symbol symbol && not (member symbol signal_keyword_typos)) _ _
        (λ h.
          (inr (symbol, refl, is_valid_symbol-IsSymbol symbol (ground arith)), refl, refl, refl))
        (λ _. (refl, refl, refl, refl))
  signal_view-IsFormed symbol (_ ∷ _) = (refl, refl, refl, refl)

  parse_signal-IsFormed : (args : List Text) → IsFormed num (parse_signal num unicode args)
  unfolding parse_signal
  parse_signal-IsFormed [] = (inl refl, refl, refl, refl)
  parse_signal-IsFormed (keyword ∷ rest) =
      IsFormed-if (is_empty keyword) _ _ (λ _. (inl refl, refl, refl, refl))
        (λ _.
          IsFormed-if (member keyword signal_stats_keywords) _ _ (λ _. signal_stats-IsFormed rest)
            (λ _.
              IsFormed-if (member keyword signal_off_keywords || member keyword signal_on_keywords)
                _ _ (λ _. signal_toggle-IsFormed (member keyword signal_on_keywords) rest)
                (λ _.
                  IsFormed-if (member keyword signal_backtest_keywords) _ _
                    (λ _. signal_backtest-IsFormed rest) (λ _. signal_view-IsFormed keyword rest))))

  quantity_of-IsAmount :
      (raw : Text) (p : PositiveNumber F)
      → quantity_of num unicode raw ≡ some p
      → IsAmount num (number_of num (split_dot p.plain))
  unfolding quantity_of
  quantity_of-IsAmount raw p h =
      let (_, inside) =
        in_range-of (is_plain_number raw) (parse_positive_number num raw 8 (max_amount num unicode))
          p h in
      subst (IsAmount num) (parse_positive_number-value num raw 8 (max_amount num unicode) p inside)
        (parse_positive_number-IsAmount num raw 8 (max_amount num unicode) p inside)

  quantity_of-IsExact :
      (raw : Text) (p : PositiveNumber F) → quantity_of num unicode raw ≡ some p → IsExact p.plain
  unfolding quantity_of
  quantity_of-IsExact raw p h =
      let (plain, inside) =
        in_range-of (is_plain_number raw) (parse_positive_number num raw 8 (max_amount num unicode))
          p h in
      parse_positive_number-units num raw (max_amount num unicode) p plain inside

  portfolio_traded-IsFormed :
      (side : TradeSide) (symbol : Text) (quantity price : Option (PositiveNumber F))
      → ((p : PositiveNumber F) → quantity ≡ some p → IsExact p.plain)
      → ((p : PositiveNumber F)
          → quantity ≡ some p
          → IsAmount num (number_of num (split_dot p.plain)))
      → ((p : PositiveNumber F) → price ≡ some p → IsAmount num p.value)
      → IsFormed num (portfolio_traded num unicode side symbol quantity price)
  unfolding portfolio_traded
  portfolio_traded-IsFormed side symbol none price h l k = (refl, refl, refl, refl)
  portfolio_traded-IsFormed side symbol (some q) none h l k = (refl, refl, refl, refl)
  portfolio_traded-IsFormed side symbol (some q) (some p) h l k =
      IsFormed-if (is_valid_symbol symbol)
        (portfolio_command num unicode CommandType.portfolio_trade (symbol ∷ [])
          (record (no_args num) {
            side = some side;
            quantity = some q.plain;
            price_usd = some p.value;
          }))
        (bare num unicode CommandType.portfolio_invalid [])
        (λ valid. (
          (symbol, refl, is_valid_symbol-IsSymbol symbol valid),
          (side, q.plain, p.value, refl, h q refl, l q refl, k p refl),
          refl,
          refl,
        ))
        (λ _. (refl, refl, refl, refl))

  portfolio_trade-IsFormed :
      (side : TradeSide) (rest : List Text) → IsFormed num (portfolio_trade num unicode side rest)
  unfolding portfolio_trade
  portfolio_trade-IsFormed side [] = (refl, refl, refl, refl)
  portfolio_trade-IsFormed side (_ ∷ []) = (refl, refl, refl, refl)
  portfolio_trade-IsFormed side (_ ∷ _ ∷ []) = (refl, refl, refl, refl)
  portfolio_trade-IsFormed side (symbol ∷ raw_quantity ∷ raw_price ∷ []) =
      portfolio_traded-IsFormed side symbol (quantity_of num unicode raw_quantity)
        (parse_positive_number num raw_price 8 (max_amount num unicode))
        (quantity_of-IsExact raw_quantity) (quantity_of-IsAmount raw_quantity)
        (parse_positive_number-IsAmount num raw_price 8 (max_amount num unicode))
  portfolio_trade-IsFormed side (_ ∷ _ ∷ _ ∷ _ ∷ _) = (refl, refl, refl, refl)

  history_page-IsFormed :
      (o : Option ℕ)
      → ((n : ℕ) → o ≡ some n → IsIndex 6 n)
      → IsFormed num (history_page num unicode o)
  unfolding history_page
  history_page-IsFormed none h = (refl, refl, refl, refl)
  history_page-IsFormed (some n) h = ((n, refl, h n refl), refl, refl, refl)

  portfolio_history-IsFormed :
      (rest : List Text) → IsFormed num (portfolio_history num unicode rest)
  unfolding portfolio_history history_page
  portfolio_history-IsFormed [] = ((1, refl, (omega arith, omega arith)), refl, refl, refl)
  portfolio_history-IsFormed (raw ∷ []) =
      history_page-IsFormed (parse_index 6 raw) (parse_index-IsIndex 6 raw)
  portfolio_history-IsFormed (_ ∷ _ ∷ _) = (refl, refl, refl, refl)

  portfolio_deleted-IsFormed :
      (o : Option ℕ)
      → ((n : ℕ) → o ≡ some n → IsIndex 6 n)
      → IsFormed num (portfolio_deleted num unicode o)
  unfolding portfolio_deleted
  portfolio_deleted-IsFormed none h = (refl, refl, refl, refl)
  portfolio_deleted-IsFormed (some n) h = ((n, refl, h n refl), refl, refl, refl)

  portfolio_delete-IsFormed : (rest : List Text) → IsFormed num (portfolio_delete num unicode rest)
  unfolding portfolio_delete
  portfolio_delete-IsFormed [] = (refl, refl, refl, refl)
  portfolio_delete-IsFormed (raw ∷ []) =
      portfolio_deleted-IsFormed (parse_index 6 raw) (parse_index-IsIndex 6 raw)
  portfolio_delete-IsFormed (_ ∷ _ ∷ _) = (refl, refl, refl, refl)

  portfolio_clear-IsFormed : (rest : List Text) → IsFormed num (portfolio_clear num unicode rest)
  unfolding portfolio_clear portfolio_cleared
  portfolio_clear-IsFormed [] = ((false, refl), refl, refl, refl)
  portfolio_clear-IsFormed (word ∷ []) =
      IsFormed-if (member word portfolio_confirm_keywords) (portfolio_cleared num unicode true)
        (bare num unicode CommandType.portfolio_invalid []) (λ _. ((true, refl), refl, refl, refl))
        (λ _. (refl, refl, refl, refl))
  portfolio_clear-IsFormed (_ ∷ _ ∷ _) = (refl, refl, refl, refl)

  parse_portfolio-IsFormed : (args : List Text) → IsFormed num (parse_portfolio num unicode args)
  unfolding parse_portfolio
  parse_portfolio-IsFormed [] = (refl, refl, refl, refl)
  parse_portfolio-IsFormed (keyword ∷ rest) =
      IsFormed-if (is_empty keyword) _ _ (λ _. (refl, refl, refl, refl))
        (λ _.
          IsFormed-if
            (member keyword portfolio_buy_keywords || member keyword portfolio_sell_keywords) _ _
            (λ _.
              portfolio_trade-IsFormed (if member keyword portfolio_buy_keywords then buy else sell)
                rest)
            (λ _.
              IsFormed-if (member keyword portfolio_history_keywords) _ _
                (λ _. portfolio_history-IsFormed rest)
                (λ _.
                  IsFormed-if (member keyword delete_keywords) _ _
                    (λ _. portfolio_delete-IsFormed rest)
                    (λ _.
                      IsFormed-if (member keyword portfolio_clear_keywords) _ _
                        (λ _. portfolio_clear-IsFormed rest) (λ _. (refl, refl, refl, refl))))))

  prices-IsFormed : (raw_symbols : List Text) → IsFormed num (prices num unicode raw_symbols)
  unfolding prices
  prices-IsFormed [] = (refl, refl, refl, refl)
  prices-IsFormed (s ∷ ss) = (parse_symbols-IsDistinct unicode (s ∷ ss), refl, refl, refl)

  parse_words-IsFormed : (ws : List Text) → IsFormed num (parse_words num unicode ws)
  unfolding parse_words
  parse_words-IsFormed [] = (refl, refl, refl, refl)
  parse_words-IsFormed (raw_command ∷ raw_symbols) =
      let command = plain_word unicode raw_command in
      let args = map (plain_word unicode) raw_symbols in
      IsFormed-if (member command help_command_aliases) _ _ (λ _. (refl, refl, refl, refl))
        (λ _.
          IsFormed-if (member command unsubscribe_command_aliases) _ _
            (λ _. (refl, refl, refl, refl))
            (λ _.
              IsFormed-if (member command subscribe_command_aliases) _ _
                (λ _. (parse_symbols-IsDistinct unicode raw_symbols, refl, refl, refl))
                (λ _.
                  IsFormed-if (member command watchlist_command_aliases) _ _
                    (λ _. (parse_symbols-IsDistinct unicode raw_symbols, refl, refl, refl))
                    (λ _.
                      IsFormed-if (member command alert_command_aliases) _ _
                        (λ _. parse_alert-IsFormed args)
                        (λ _.
                          IsFormed-if (member command portfolio_command_aliases) _ _
                            (λ _. parse_portfolio-IsFormed args)
                            (λ _.
                              IsFormed-if (member command signal_command_aliases) _ _
                                (λ _. parse_signal-IsFormed args)
                                (λ _.
                                  IsFormed-if
                                    (not (
                                        member (unicode.to_lower_case raw_command)
                                          price_command_aliases)
                                      && not (text_eq command (codes "gia")))
                                    _ _ (λ _. (refl, refl, refl, refl))
                                    (λ _. prices-IsFormed raw_symbols))))))))

  parse_trimmed-IsFormed : (s : Text) → IsFormed num (parse_trimmed num unicode s)
  unfolding parse_trimmed
  parse_trimmed-IsFormed [] = (refl, refl, refl, refl)
  parse_trimmed-IsFormed (c ∷ s) =
      IsFormed-if (c == b'/') _ _ (λ _. parse_words-IsFormed (words s))
        (λ _. (refl, refl, refl, refl))

  -- Whatever the text is, a command of the parser carries the arguments of its type and no others. An
  -- alert, a trade and a back-test have one symbol of at most 20 letters and digits, and "/tinhieu"
  -- has one or none; prices, subscriptions and watchlists have distinct symbols, possibly none. A
  -- threshold, a price and a quantity are above zero and at most 1e12, and the quantity is read
  -- exactly; an alert's position has at most three digits, a trade's position and a page at most six,
  -- and none is 0. Clearing and the signal switch have their flag.
  pub parse-IsFormed : (raw_text : Text) → IsFormed num (parse num unicode raw_text)
  unfolding parse
  parse-IsFormed raw_text = parse_trimmed-IsFormed (trim raw_text)
