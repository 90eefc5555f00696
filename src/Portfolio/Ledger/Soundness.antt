-- ===== src/Portfolio/Ledger/Soundness.antt =====
-- Every write of a trade keeps the invariant of the stored trades, in its own chat and in the others.
use crypto_zalo_bot.Base.{
  ℕ, ◌+◌, ◌<◌, ◌≤◌, ◌≡◌, refl, sym, ◌∙◌, subst, inl, inr, Bool, true, false, List, [], ◌∷◌, ◌++◌,
  if◌then◌else◌, length, length-append, All, Text, text_eq, text_eq_iff, Bool-cases, arith,
  IsAscending-append, Option,
}
use crypto_zalo_bot.Base.Number.{Number}
use crypto_zalo_bot.Portfolio.{TradeSide, buy, sell, max_trades_per_chat}
use crypto_zalo_bot.Portfolio.Balance.{
  IsCovered, IsCovered-total, IsCovered-append, total_bought, total_sold,
}
use crypto_zalo_bot.Portfolio.Ledger.{
  Row, Tables, of_chat, row_bought, row_sold, signed, max_seq, message_of,
}
use crypto_zalo_bot.Portfolio.Ledger.Laws.{
  keep-append, append-nil, max_seq-bound, IsSoundChat, IsSound,
}
use crypto_zalo_bot.Portfolio.Ledger.Writes.{
  is_side_allowed, is_accepted, fits_columns, record_trade,
}

module _ {F : Type 0} where
  -- What one more row does to the balance of a coin.
  row-borne :
      (s : Text) (row : Row F) (rows : List (Row F))
      → ((k : Text) → IsCovered (row_bought k) (row_sold k) 0 0 rows)
      → is_side_allowed row.side row.symbol row.units rows ≡ true
      → total_sold (row_bought s) (row_sold s) rows + row_sold s row
        ≤ total_bought (row_bought s) (row_sold s) rows + row_bought s row
  unfolding is_side_allowed
  row-borne s row rows c h = elim (Bool-cases (text_eq row.symbol s)) [
    | inl own ↦ rw own (
        own_coin row.side (
          subst (λ k. is_side_allowed row.side k row.units rows ≡ true)
            ((text_eq_iff row.symbol s).0 own) h))
    | inr other ↦
        rw other
          (omega (arith, IsCovered-total (row_bought s) (row_sold s) 0 0 rows (omega arith) (c s)))
  ]
    where
      own_coin :
          (side : TradeSide)
          → is_side_allowed side s row.units rows ≡ true
          → total_sold (row_bought s) (row_sold s) rows + signed sell side row.units
            ≤ total_bought (row_bought s) (row_sold s) rows + signed buy side row.units
      own_coin buy e =
          omega (arith, IsCovered-total (row_bought s) (row_sold s) 0 0 rows (omega arith) (c s))
      own_coin sell e = ground arith

  append-IsSoundChat :
      (row : Row F) (rows : List (Row F))
      → IsSoundChat rows
      → row.seq ≡ max_seq rows + 1
      → length rows < max_trades_per_chat
      → is_side_allowed row.side row.symbol row.units rows ≡ true
      → IsSoundChat (rows ++ row ∷ [])
  append-IsSoundChat row rows (asc, cov, few) e l h = (
    IsAscending-append (λ (r : Row F). r.seq) rows row asc
        (subst (λ n. All (λ (r : Row F). r.seq < n) rows) (sym e) (max_seq-bound rows)),
    λ s.
        IsCovered-append (row_bought s) (row_sold s) 0 0 rows row (cov s)
          (omega (arith, row-borne s row rows cov h)),
    omega (arith, length-append rows (row ∷ [])),
  )

  -- The rows of a chat after a row is added.
  of_chat-append :
      (c : Text) (row : Row F) (rows : List (Row F)) (b : Bool)
      → text_eq row.chat_id c ≡ b
      → of_chat c (rows ++ row ∷ []) ≡ (if b then of_chat c rows ++ row ∷ [] else of_chat c rows)
  of_chat-append c row rows true e =
      keep-append (λ (r : Row F). text_eq r.chat_id c) rows (row ∷ []) ∙ rw e refl
  of_chat-append c row rows false e =
      keep-append (λ (r : Row F). text_eq r.chat_id c) rows (row ∷ []) ∙ rw e (append-nil _)

  append-IsSound :
      (row : Row F) (rows : List (Row F))
      → IsSound rows
      → row.seq ≡ max_seq (of_chat row.chat_id rows) + 1
      → length (of_chat row.chat_id rows) < max_trades_per_chat
      → is_side_allowed row.side row.symbol row.units (of_chat row.chat_id rows) ≡ true
      → IsSound (rows ++ row ∷ [])
  append-IsSound row rows sound e l h c = elim (Bool-cases (text_eq row.chat_id c)) [
    | inl own ↦ subst IsSoundChat (sym (of_chat-append c row rows true own)) (
        subst (λ k. IsSoundChat (of_chat k rows ++ row ∷ [])) ((text_eq_iff row.chat_id c).0 own)
          (append-IsSoundChat row (of_chat row.chat_id rows) (sound row.chat_id) e l h))
    | inr other ↦ subst IsSoundChat (sym (of_chat-append c row rows false other)) (sound c)
  ]

module _ (num : Number) where
  open num use {F}

  -- Recording a trade keeps the stored trades sound, whichever way it ends: in every chat they stay
  -- numbered in order, within the limit, and without a sale of more than is held.
  pub record_trade-IsSound :
      (chat_id : Text) (side : TradeSide) (symbol : Text) (units : ℕ) (price_usd : F)
      (source_message_id : Option Text) (time day : ℕ) (tables : Tables F)
      → IsSound tables.trades
      → IsSound
          (record_trade num chat_id side symbol units price_usd source_message_id time day
            tables).1.trades
  unfolding record_trade
  record_trade-IsSound chat_id side symbol units price_usd source_message_id time day tables sound =
      let rows = of_chat chat_id tables.trades in
      let message = message_of source_message_id in
      elim (Bool-cases (is_accepted side symbol units message rows)) [
        | inr refused ↦ rw refused sound
        | inl accepted ↦ elim (Bool-cases (fits_columns chat_id symbol units)) [
          | inr wide ↦ rw (accepted, wide) sound
          | inl fits ↦
              rw (accepted, fits)
                (append-IsSound _ tables.trades sound refl (ground arith) (ground arith))
        ]
      ]
