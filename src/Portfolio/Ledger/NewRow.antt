-- ===== src/Portfolio/Ledger/NewRow.antt =====
-- What a new row and its count do to the tables (the INSERTs of src/portfolio/portfolio.service.ts).
use crypto_zalo_bot.Base.{
  ℕ, ◌+◌, ◌≤◌, ◌<◌, ◌≡◌, refl, ◌∙◌, ap, ◌⊎◌, inl, inr, true, ◌&&◌, some, List, [], ◌∷◌, ◌++◌, map,
  ltb, ◌==◌, ==_iff, if◌then◌else◌, any, All, insert_by, sort_by, Text, text_eq, text_eq_iff,
  Bool-cases, arith,
}
use crypto_zalo_bot.Portfolio.Ledger.{
  Row, Usage, to_trade, of_chat, select_trades, max_seq, count_write,
}
use crypto_zalo_bot.Portfolio.Ledger.Laws.{keep-append}
use crypto_zalo_bot.Portfolio.Ledger.Writes.{trade_by_seq}

-- The writes and the views that are counted for a chat on a day.
abbrev pub writes_on : Text → ℕ → List Usage → ℕ
writes_on chat_id day [] = 0
writes_on chat_id day (u ∷ us) =
    (if text_eq u.chat_id chat_id && (u.day == day) then u.writes else 0) + writes_on chat_id day us

abbrev pub views_on : Text → ℕ → List Usage → ℕ
views_on chat_id day [] = 0
views_on chat_id day (u ∷ us) =
    (if text_eq u.chat_id chat_id && (u.day == day) then u.views else 0) + views_on chat_id day us

pub writes_on-count_write :
    (chat_id : Text) (day : ℕ) (c : Text) (d : ℕ) (us : List Usage)
    → writes_on c d (count_write chat_id day us)
      ≡ writes_on c d us + (if text_eq chat_id c && (day == d) then 1 else 0)
writes_on-count_write chat_id day c d [] = ground arith
writes_on-count_write chat_id day c d (u ∷ us) =
    elim (Bool-cases (text_eq u.chat_id chat_id && (u.day == day))) [
      | inl own ↦
          let same_chat : u.chat_id ≡ chat_id = (text_eq_iff u.chat_id chat_id).0 (ground arith) in
          let same_day : u.day ≡ day = ground arith in rw (own, same_chat, same_day) (ground arith)
      | inr other ↦ rw other (omega (arith, writes_on-count_write chat_id day c d us))
    ]

pub views_on-count_write :
    (chat_id : Text) (day : ℕ) (c : Text) (d : ℕ) (us : List Usage)
    → views_on c d (count_write chat_id day us) ≡ views_on c d us
views_on-count_write chat_id day c d [] = ground arith
views_on-count_write chat_id day c d (u ∷ us) =
    elim (Bool-cases (text_eq u.chat_id chat_id && (u.day == day))) [
      | inl own ↦ rw own refl
      | inr other ↦ rw other (omega (arith, views_on-count_write chat_id day c d us))
    ]

module _ {F : Type 0} where
  pub max_seq-above :
      (rows : List (Row F)) (m : ℕ) → max_seq rows ≤ m → All (λ (r : Row F). r.seq < m + 1) rows
  max_seq-above [] m h = tt
  max_seq-above (r ∷ rows) m h = (ground arith, max_seq-above rows m (ground arith))

  max_seq-attained :
      (rows : List (Row F)) (m : ℕ)
      → max_seq rows ≡ m
      → (m ≡ 0) ⊎ (any (λ (r : Row F). r.seq + 1 == m + 1) rows ≡ true)
  max_seq-attained [] m h = inl (omega arith)
  max_seq-attained (r ∷ rows) m h = elim (Bool-cases (ltb (max_seq rows) r.seq)) [
    | inl more ↦
        inr (let top : (r.seq + 1 == m + 1) ≡ true = (==_iff _ _).1 (ground arith) in rw top refl)
    | inr less ↦ elim (max_seq-attained rows m (rw less at h)) [
      | inl e ↦ inl e
      | inr e ↦ inr (ground arith)
    ]
  ]

  pub max_seq-next :
      (rows : List (Row F))
      → (max_seq rows + 1 ≡ 1) ⊎ (any (λ (r : Row F). r.seq + 1 == max_seq rows + 1) rows ≡ true)
  max_seq-next rows = elim (max_seq-attained rows (max_seq rows) refl) [
    | inl e ↦ inl (omega arith)
    | inr e ↦ inr e
  ]

  find-insert_by :
      (n : ℕ) (r : Row F) (ys : List (Row F))
      → r.seq < n
      → trade_by_seq n (map to_trade (insert_by (λ (x : Row F). x.seq) r ys))
        ≡ trade_by_seq n (map to_trade ys)
  find-insert_by n r [] h = ground arith
  find-insert_by n r (y ∷ ys) h = ground (arith, find-insert_by n r ys h)

  find-sort_by :
      (row : Row F) (rows : List (Row F))
      → All (λ (r : Row F). r.seq < row.seq) rows
      → trade_by_seq row.seq (map to_trade (sort_by (λ (x : Row F). x.seq) (rows ++ row ∷ [])))
        ≡ some (to_trade row)
  find-sort_by row [] h = ground arith
  find-sort_by row (r ∷ rows) h =
      find-insert_by row.seq r (sort_by (λ (x : Row F). x.seq) (rows ++ row ∷ [])) h.0
      ∙ find-sort_by row rows h.1

  -- The number of a row above all of its chat finds that row.
  pub trade_by_seq-added :
      (c : Text) (row : Row F) (trades : List (Row F))
      → text_eq row.chat_id c ≡ true
      → All (λ (r : Row F). r.seq < row.seq) (of_chat c trades)
      → trade_by_seq row.seq (select_trades c (trades ++ row ∷ [])) ≡ some (to_trade row)
  trade_by_seq-added c row trades own h =
      ap (λ rows. trade_by_seq row.seq (map to_trade (sort_by (λ (x : Row F). x.seq) rows)))
        (keep-append (λ (r : Row F). text_eq r.chat_id c) trades (row ∷ [])
          ∙ ap (λ b. of_chat c trades ++ (if b then row ∷ [] else [])) own)
      ∙ find-sort_by row (of_chat c trades) h
