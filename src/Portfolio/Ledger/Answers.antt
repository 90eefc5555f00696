-- ===== src/Portfolio/Ledger/Answers.antt =====
-- The answers of recordTrade, and what a second delivery of the same message does.
use crypto_zalo_bot.Base.{
  ℕ, ◌+◌, ◌<◌, ◌&&◌, ◌==◌, if◌then◌else◌, All, ◌≡◌, refl, sym, ◌∙◌, ap, subst, ◌⊎◌, inl, inr, Bool,
  true, false, List, [], ◌∷◌, ◌++◌, Text, text_eq, text_eq_refl, Bool-cases, arith, Option, none,
  some, find, any,
}
use crypto_zalo_bot.Base.Number.{Number}
use crypto_zalo_bot.Portfolio.{TradeSide, PortfolioTrade}
use crypto_zalo_bot.Portfolio.Ledger.{
  Row, Tables, to_trade, PortfolioError, Result, RecordedTrade, of_chat, select_trades, max_seq,
  message_of, has_message,
}
use crypto_zalo_bot.Portfolio.Ledger.Laws.{keep-append}
use crypto_zalo_bot.Portfolio.Ledger.Writes.{
  is_accepted, fits_columns, new_row, with_row, trade_by_seq, record_trade, not_inserted,
}
use crypto_zalo_bot.Portfolio.Ledger.NewRow.{
  writes_on, views_on, writes_on-count_write, views_on-count_write, max_seq-above, max_seq-next,
  trade_by_seq-added,
}

module _ {A : Type 0} where
  any-last : (p : A → Bool) (xs : List A) (x : A) → p x ≡ true → any p (xs ++ x ∷ []) ≡ true
  any-last p [] x e = rw e refl
  any-last p (y ∷ xs) x e = ground (arith, any-last p xs x e)

  find-last :
      (p : A → Bool) (xs : List A) (x : A)
      → p x ≡ true
      → any p xs ≡ false
      → find p (xs ++ x ∷ []) ≡ some x
  find-last p [] x e h = rw e refl
  find-last p (y ∷ xs) x e h = ground (arith, find-last p xs x e)

module _ {F : Type 0} where
  -- The answer of a recording that wrote nothing: not a new trade.
  abbrev pub IsNotNew : Result (RecordedTrade F) → Type 0
  IsNotNew (Result.ok answer) = answer.duplicate ≡ true
  IsNotNew (Result.err error) = Unit

module _ (num : Number) where
  open num use {F}

  not_inserted-IsNotNew :
      (o : Option (Row F)) (ts : List (PortfolioTrade F)) (side : TradeSide) (symbol : Text)
      → IsNotNew (not_inserted num o ts side symbol)
  unfolding not_inserted
  not_inserted-IsNotNew none ts side symbol = tt
  not_inserted-IsNotNew (some r) ts side symbol = refl

  -- What a recording that wrote has done: the row with the request's own values stands last, under a
  -- number above all of its chat and next to one of them (or 1); the day's writes of the chat went up
  -- by one, and no other count changed; and the answer is the trade of that row, as a new one.
  pub record IsWrite (chat_id : Text) (side : TradeSide) (symbol : Text) (units : ℕ) (price_usd : F)
      (source_message_id : Option Text) (time day : ℕ) (tables after : Tables F)
      (answer : Result (RecordedTrade F)) : Type 0 where
    pub row : Row F
    pub values : row ≡ record {
      chat_id = chat_id;
      seq = row.seq;
      side = side;
      symbol = symbol;
      units = units;
      price_usd = price_usd;
      created_at = time;
      source_message_id = message_of source_message_id;
    }
    pub added : after.trades ≡ tables.trades ++ row ∷ []
    pub above : All (λ (r : Row F). r.seq < row.seq) (of_chat chat_id tables.trades)
    pub next :
        (row.seq ≡ 1)
        ⊎ (any (λ (r : Row F). r.seq + 1 == row.seq) (of_chat chat_id tables.trades) ≡ true)
    pub counted :
        (c : Text) (d : ℕ)
        → writes_on c d after.usage
          ≡ writes_on c d tables.usage + (if text_eq chat_id c && (day == d) then 1 else 0)
    pub unviewed : (c : Text) (d : ℕ) → views_on c d after.usage ≡ views_on c d tables.usage
    pub answered :
        answer
        ≡ Result.ok (record {
          trade = some (to_trade row);
          trades = select_trades chat_id after.trades;
          duplicate = false;
        })

  written-IsWrite :
      (chat_id : Text) (side : TradeSide) (symbol : Text) (units : ℕ) (price_usd : F)
      (source_message_id : Option Text) (time day : ℕ) (tables : Tables F)
      → let row =
          new_row chat_id side symbol units price_usd
            (message_of source_message_id)
            time
            (of_chat chat_id tables.trades) in
        let after = with_row row day tables in
        IsWrite chat_id side symbol units price_usd source_message_id time day tables after (
          Result.ok (record {
            trade = trade_by_seq row.seq (select_trades chat_id after.trades);
            trades = select_trades chat_id after.trades;
            duplicate = false;
          }))
  written-IsWrite chat_id side symbol units price_usd source_message_id time day tables =
      let rows = of_chat chat_id tables.trades in
      let row =
        new_row chat_id side symbol units price_usd (message_of source_message_id) time rows in
      let after = with_row row day tables in
      let above = max_seq-above rows (max_seq rows) (omega arith) in
      record {
        row = row;
        values = refl;
        added = refl;
        above = above;
        next = max_seq-next rows;
        counted = λ c d. writes_on-count_write chat_id day c d tables.usage;
        unviewed = λ c d. views_on-count_write chat_id day c d tables.usage;
        answered =
            ap
              (λ o. Result.ok (record {
                trade = o;
                trades = select_trades chat_id after.trades;
                duplicate = false;
              }))
              (trade_by_seq-added chat_id row tables.trades (text_eq_refl chat_id) above);
      }

  -- A recording either changes neither table and does not claim a new trade, or it adds exactly one
  -- row, with the values of the request, under the number after the highest of its chat (or 1),
  -- counts exactly one write of that chat and day and nothing else, and answers with the trade of
  -- that row.
  pub record_trade-atomic :
      (chat_id : Text) (side : TradeSide) (symbol : Text) (units : ℕ) (price_usd : F)
      (source_message_id : Option Text) (time day : ℕ) (tables : Tables F)
      → let answer =
          (record_trade num chat_id side symbol units price_usd source_message_id time day
            tables).0 in
        let after =
          (record_trade num chat_id side symbol units price_usd source_message_id time day
            tables).1 in
        ((after ≡ tables) × IsNotNew answer)
        ⊎ IsWrite chat_id side symbol units price_usd source_message_id time day tables after answer
  unfolding record_trade
  record_trade-atomic chat_id side symbol units price_usd source_message_id time day tables =
      elim (Bool-cases (
        is_accepted side symbol units (message_of source_message_id)
          (of_chat chat_id tables.trades))) [
            | inr refused ↦ rw refused (inl (refl, not_inserted-IsNotNew _ _ side symbol))
            | inl accepted ↦ elim (Bool-cases (fits_columns chat_id symbol units)) [
              | inr wide ↦ rw (accepted, wide) (inl (refl, tt))
              | inl fits ↦
                  rw (accepted, fits)
                    (inr (
                      written-IsWrite chat_id side symbol units price_usd source_message_id time day
                        tables))
            ]
          ]

  when_refused :
      (c : Text) (side : TradeSide) (symbol : Text) (units : ℕ) (p : F) (m : Option Text)
      (time day : ℕ) (tables : Tables F)
      → is_accepted side symbol units (message_of m) (of_chat c tables.trades) ≡ false
      → record_trade num c side symbol units p m time day tables ≡ (
        not_inserted num
            (find (has_message (message_of m)) (of_chat c tables.trades))
            (select_trades c tables.trades)
            side
            symbol,
        tables,
      )
  unfolding record_trade
  when_refused c side symbol units p m time day tables h = rw h refl

  when_written :
      (c : Text) (side : TradeSide) (symbol : Text) (units : ℕ) (p : F) (m : Option Text)
      (time day : ℕ) (tables : Tables F)
      → is_accepted side symbol units (message_of m) (of_chat c tables.trades) ≡ true
      → fits_columns c symbol units ≡ true
      → let row = new_row c side symbol units p (message_of m) time (of_chat c tables.trades) in
        let after = with_row row day tables in
        record_trade num c side symbol units p m time day tables ≡ (
          Result.ok (record {
            trade = trade_by_seq row.seq (select_trades c after.trades);
            trades = select_trades c after.trades;
            duplicate = false;
          }),
          after,
        )
  unfolding record_trade
  when_written c side symbol units p m time day tables h k = rw (h, k) refl

  when_wide :
      (c : Text) (side : TradeSide) (symbol : Text) (units : ℕ) (p : F) (m : Option Text)
      (time day : ℕ) (tables : Tables F)
      → is_accepted side symbol units (message_of m) (of_chat c tables.trades) ≡ true
      → fits_columns c symbol units ≡ false
      → (record_trade num c side symbol units p m time day tables).0
        ≡ Result.err PortfolioError.unavailable
  unfolding record_trade
  when_wide c side symbol units p m time day tables h k = rw (h, k) refl

  duplicate_eta :
      (x : RecordedTrade F) (r : Result (RecordedTrade F))
      → r ≡ Result.ok x
      → IsNotNew r
      → Result.ok x ≡ Result.ok (record x { duplicate = true })
  duplicate_eta x r e h = ap (λ b. Result.ok (record x { duplicate = b })) (subst IsNotNew e h)

  redelivered :
      (row : Row F) (ts : List (PortfolioTrade F)) (side : TradeSide) (symbol : Text)
      (answer : RecordedTrade F)
      → Result.ok (record { trade = trade_by_seq row.seq ts; trades = ts; duplicate = false })
        ≡ Result.ok answer
      → not_inserted num (some row) ts side symbol ≡ Result.ok (record answer { duplicate = true })
  unfolding not_inserted
  redelivered row ts side symbol answer e = ap again e
    where
      again : Result (RecordedTrade F) → Result (RecordedTrade F)
      again (Result.ok x) = Result.ok (record x { duplicate = true })
      again (Result.err x) = Result.err x

  -- The new row carries its message, which no row of its chat carried.
  carried :
      (id : Text) (m : Option Text) (row : Row F) (c : Text) (rows : List (Row F))
      → row.chat_id ≡ c
      → row.source_message_id ≡ m
      → m ≡ some id
      → any (has_message m) (of_chat c rows) ≡ false
      → (any (has_message m) (of_chat c (rows ++ row ∷ [])) ≡ true)
        × (find (has_message m) (of_chat c (rows ++ row ∷ [])) ≡ some row)
  carried id m row c rows own said named fresh =
      let split = keep-append (λ (r : Row F). text_eq r.chat_id c) rows (row ∷ []) in
      let here : text_eq row.chat_id c ≡ true = rw own (text_eq_refl c) in
      let has : has_message m row ≡ true = rw (said, named) (text_eq_refl id) in
      let split' = rw here at split in
      (
        rw split' (any-last (has_message m) (of_chat c rows) row has),
        rw split' (find-last (has_message m) (of_chat c rows) row has fresh),
      )

  -- A message that recorded a trade, or was answered as a redelivery, and is delivered once more
  -- changes nothing, and is answered with the same trade as a duplicate.
  pub record_trade-idempotent :
      (chat_id : Text) (side : TradeSide) (symbol : Text) (units : ℕ) (price_usd : F)
      (source_message_id : Option Text) (id : Text) (time day time' day' : ℕ) (tables : Tables F)
      (answer : RecordedTrade F)
      → message_of source_message_id ≡ some id
      → (record_trade num chat_id side symbol units price_usd source_message_id time day tables).0
        ≡ Result.ok answer
      → let after =
          (record_trade num chat_id side symbol units price_usd source_message_id time day
            tables).1 in
        record_trade num chat_id side symbol units price_usd source_message_id time' day' after
        ≡ (Result.ok (record answer { duplicate = true }), after)
  record_trade-idempotent c side symbol units p m id time day time' day' tables answer named e =
      let again = λ (t : Tables F). record_trade num c side symbol units p m time' day' t in
      let P = λ (r : Result (RecordedTrade F) × Tables F).
        r.0 ≡ Result.ok answer
        → again r.1 ≡ (Result.ok (record answer { duplicate = true }), r.1) in
      elim (Bool-cases (is_accepted side symbol units (message_of m) (of_chat c tables.trades))) [
        | inr refused ↦
            subst P (sym (when_refused c side symbol units p m time day tables refused))
              (λ e1.
                when_refused c side symbol units p m time' day' tables refused
                ∙ ap (λ x. (x, tables))
                    (e1 ∙ duplicate_eta answer _ e1 (not_inserted-IsNotNew _ _ side symbol)))
              e
        | inl accepted ↦ elim (Bool-cases (fits_columns c symbol units)) [
          | inr wide ↦
              absurd (cc (e, when_wide c side symbol units p m time day tables accepted wide))
          | inl fits ↦
              let row =
                new_row c side symbol units p (message_of m) time (of_chat c tables.trades) in
              let fresh : any (has_message (message_of m)) (of_chat c tables.trades) ≡ false =
                ground arith in
              let (seen, found) =
                carried id (message_of m) row c tables.trades refl refl named fresh in
              let after = with_row row day tables in
              let taken : is_accepted side symbol units (message_of m) (of_chat c after.trades)
                  ≡ false =
                rw seen refl in
              let original : find (has_message (message_of m)) (of_chat c after.trades) ≡ some row =
                found in
              subst P (sym (when_written c side symbol units p m time day tables accepted fits))
                (λ e1.
                  when_refused c side symbol units p m time' day' after taken
                  ∙ ap (λ o. (not_inserted num o (select_trades c after.trades) side symbol, after))
                      original
                  ∙ ap (λ x. (x, after))
                      (redelivered row (select_trades c after.trades) side symbol answer e1))
                e
        ]
      ]
