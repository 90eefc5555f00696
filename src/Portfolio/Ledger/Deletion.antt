-- ===== src/Portfolio/Ledger/Deletion.antt =====
-- Deletions keep the invariant of the stored trades: a delete is refused when it would leave some
-- later sale above what was held.
use crypto_zalo_bot.Base.{
  ℕ, ◌≡◌, refl, sym, ◌∙◌, ap, subst, inl, inr, Bool, true, false, not, ◌&&◌, List, [], ◌∷◌, ◌==◌,
  if◌then◌else◌, length, length-keep, keep, Text, text_eq, text_eq_iff, text_eq_refl, Bool-cases,
  arith, sort_by-ascending, IsAscending-keep,
}
use crypto_zalo_bot.Portfolio.Balance.{IsCovered, IsCovered-of, IsCovered-keep, any_negative}
use crypto_zalo_bot.Portfolio.Ledger.{Row, Tables, of_chat, row_bought, row_sold}
use crypto_zalo_bot.Portfolio.Ledger.Laws.{keep-keep, keep-ext, IsSoundChat, IsSound, other-IsIdle}
use crypto_zalo_bot.Portfolio.Ledger.Writes.{without, is_target, delete_trade, clear_trades}

kept_when_oversold : (a e t : Bool) → t ≡ ((a && e) && not true) → a ≡ (a && not t)
kept_when_oversold true true t h = rw h refl
kept_when_oversold true false t h = rw h refl
kept_when_oversold false e t h = refl

kept_otherwise :
    (a e o t : Bool) → o ≡ true → t ≡ ((a && e) && not false) → (a && (o && not e)) ≡ (a && not t)
kept_otherwise true true o t k h = rw (h, k) refl
kept_otherwise true false o t k h = rw (h, k) refl
kept_otherwise false e o t k h = refl

module _ {F : Type 0} where
  -- The rows of a chat among the rows that pass a test.
  keep-of_chat :
      (c : Text) (p : Row F → Bool) (rows : List (Row F))
      → of_chat c (keep p rows) ≡ keep p (of_chat c rows)
  keep-of_chat c p rows =
      let q = λ (r : Row F). text_eq r.chat_id c in
      keep-keep q p rows
      ∙ keep-ext (λ x. p x && q x) (λ x. q x && p x) (λ x. and_comm (p x) (q x)) rows
      ∙ sym (keep-keep p q rows)
    where
      and_comm : (a b : Bool) → (a && b) ≡ (b && a)
      and_comm true true = refl
      and_comm true false = refl
      and_comm false true = refl
      and_comm false false = refl

  keep-IsSoundChat :
      (p : Row F → Bool) (rows : List (Row F))
      → IsSoundChat rows
      → ((s : Text) → IsCovered (row_bought s) (row_sold s) 0 0 (keep p rows))
      → IsSoundChat (keep p rows)
  keep-IsSoundChat p rows (asc, cov, few) c = (
    IsAscending-keep (λ (r : Row F). r.seq) p rows asc,
    c,
    omega (arith, few, length-keep p rows),
  )

  -- What is known of a target when deleting it would, or would not, oversell the coin.
  is_target-value :
      (c : Text) (n : ℕ) (rows : List (Row F)) (x : Row F) (s : Text) (b : Bool)
      → x.symbol ≡ s
      → any_negative (row_bought s) (row_sold s) 0 0 (without c s n rows) ≡ b
      → is_target c n rows x ≡ ((text_eq x.chat_id c && (x.seq == n)) && not b)
  is_target-value c n rows x s b e h =
      ap (λ b. (text_eq x.chat_id c && (x.seq == n)) && not b)
        (ap (λ k. any_negative (row_bought k) (row_sold k) 0 0 (without c k n rows)) e ∙ h)

  left-IsCovered :
      (c : Text) (n : ℕ) (rows : List (Row F)) (s : Text) (b : Bool)
      → IsSoundChat (of_chat c rows)
      → any_negative (row_bought s) (row_sold s) 0 0 (without c s n rows) ≡ b
      → IsCovered
          (row_bought s)
          (row_sold s)
          0
          0
          (keep (λ r. not (is_target c n rows r)) (of_chat c rows))
  left-IsCovered c n rows s true (asc, cov, few) h =
      let in_chat = λ (r : Row F). text_eq r.chat_id c in
      let is_left = λ (r : Row F). not (is_target c n rows r) in
      subst (IsCovered (row_bought s) (row_sold s) 0 0) (sym (keep-keep is_left in_chat rows)) (
        IsCovered-keep (row_bought s) (row_sold s) in_chat (λ r. in_chat r && is_left r)
          (λ x. elim (Bool-cases (text_eq x.symbol s)) [
            | inl own ↦ inl (
                kept_when_oversold _ _ _
                  (is_target-value c n rows x s true ((text_eq_iff x.symbol s).0 own) h))
            | inr other ↦ inr (other-IsIdle s x other)
          ])
          rows 0 0 (cov s) (omega arith))
  left-IsCovered c n rows s false (asc, cov, few) h =
      let in_chat = λ (r : Row F). text_eq r.chat_id c in
      let is_left = λ (r : Row F). not (is_target c n rows r) in
      let others = λ (r : Row F). text_eq r.symbol s && not (r.seq == n) in
      let ordered : without c s n rows ≡ keep others (keep in_chat rows) =
        ap (keep others) (sort_by-ascending (λ (r : Row F). r.seq) (of_chat c rows) asc) in
      subst (IsCovered (row_bought s) (row_sold s) 0 0) (sym (keep-keep is_left in_chat rows)) (
        IsCovered-keep (row_bought s) (row_sold s) (λ r. in_chat r && others r)
          (λ r. in_chat r && is_left r)
          (λ x. elim (Bool-cases (text_eq x.symbol s)) [
            | inl own ↦ inl (
                kept_otherwise _ _ _ _ own
                  (is_target-value c n rows x s false ((text_eq_iff x.symbol s).0 own) h))
            | inr other ↦ inr (other-IsIdle s x other)
          ])
          rows 0 0
          (subst (IsCovered (row_bought s) (row_sold s) 0 0)
            (ordered ∙ keep-keep others in_chat rows)
            (IsCovered-of (row_bought s) (row_sold s) 0 0 _ h))
          (omega arith))

  -- A delete leaves the rows of every other chat as they are.
  other-kept :
      (c d : Text) (n : ℕ) (rows all_rows : List (Row F))
      → text_eq c d ≡ false
      → keep (λ r. not (is_target c n all_rows r)) (of_chat d rows) ≡ of_chat d rows
  other-kept c d n rows all_rows e =
      keep-keep (λ r. not (is_target c n all_rows r)) (λ (r : Row F). text_eq r.chat_id d) rows
      ∙ keep-ext _ (λ (r : Row F). text_eq r.chat_id d)
          (λ r. elsewhere r (text_eq r.chat_id d) refl) rows
    where
      elsewhere :
          (r : Row F) (b : Bool)
          → text_eq r.chat_id d ≡ b
          → (b && not (is_target c n all_rows r)) ≡ b
      elsewhere r false h = refl
      elsewhere r true h = elim (Bool-cases (text_eq r.chat_id c)) [
        | inr there ↦ rw there refl
        | inl here ↦ absurd (
            cc (
              e,
              (text_eq_iff c d).1
                  (sym ((text_eq_iff r.chat_id c).0 here) ∙ (text_eq_iff r.chat_id d).0 h),
            ))
      ]

  cleared :
      (c d : Text) (rows : List (Row F)) (b : Bool)
      → text_eq c d ≡ b
      → of_chat d (keep (λ (r : Row F). not (text_eq r.chat_id c)) rows)
        ≡ (if b then [] else of_chat d rows)
  cleared c d rows true e = none_left rows ((text_eq_iff c d).0 e)
    where
      none_left :
          (xs : List (Row F))
          → c ≡ d
          → of_chat d (keep (λ (r : Row F). not (text_eq r.chat_id c)) xs) ≡ []
      none_left [] h = refl
      none_left (x ∷ xs) h = elim (Bool-cases (text_eq x.chat_id c)) [
        | inl here ↦ rw here (none_left xs h)
        | inr there ↦ rw (there, subst (λ k. text_eq x.chat_id k ≡ false) h there) (none_left xs h)
      ]
  cleared c d rows false e = all_left rows
    where
      all_left :
          (xs : List (Row F))
          → of_chat d (keep (λ (r : Row F). not (text_eq r.chat_id c)) xs) ≡ of_chat d xs
      all_left [] = refl
      all_left (x ∷ xs) = elim (Bool-cases (text_eq x.chat_id c)) [
        | inr there ↦ rw there (elim (Bool-cases (text_eq x.chat_id d)) [
          | inl h ↦ rw h (ap (λ l. x ∷ l) (all_left xs))
          | inr h ↦ rw h (all_left xs)
        ])
        | inl here ↦
            let away : text_eq x.chat_id d ≡ false =
              subst (λ k. text_eq k d ≡ false) (sym ((text_eq_iff x.chat_id c).0 here)) e in
            rw (here, away) (all_left xs)
      ]

  -- Deleting a trade keeps the stored trades sound, whichever way it ends: no coin of any chat is
  -- left with a sale of more than was held at that point.
  pub delete_trade-IsSound :
      (chat_id : Text) (index : ℕ) (tables : Tables F)
      → IsSound tables.trades
      → IsSound (delete_trade chat_id index tables).1.trades
  unfolding delete_trade
  delete_trade-IsSound chat_id index tables sound d =
      let is_left = λ (r : Row F). not (is_target chat_id index tables.trades r) in
      subst IsSoundChat (sym (keep-of_chat d is_left tables.trades))
        (elim (Bool-cases (text_eq chat_id d)) [
          | inl own ↦
              subst (λ k. IsSoundChat (keep is_left (of_chat k tables.trades)))
                ((text_eq_iff chat_id d).0 own)
                (keep-IsSoundChat is_left (of_chat chat_id tables.trades) (sound chat_id)
                  (λ s. left-IsCovered chat_id index tables.trades s _ (sound chat_id) refl))
          | inr other ↦
              subst IsSoundChat (sym (other-kept chat_id d index tables.trades tables.trades other))
                (sound d)
        ])

  -- Clearing a chat reports how many trades it had, leaves none of them, leaves the trades of every
  -- other chat as they are, and keeps the stored trades sound.
  pub clear_trades-isolated :
      (chat_id other : Text) (tables : Tables F)
      → text_eq chat_id other ≡ false
      → IsSound tables.trades
      → ((clear_trades chat_id tables).0 ≡ length (of_chat chat_id tables.trades))
        × (of_chat chat_id (clear_trades chat_id tables).1.trades ≡ [])
        × (of_chat other (clear_trades chat_id tables).1.trades ≡ of_chat other tables.trades)
        × IsSound (clear_trades chat_id tables).1.trades
  unfolding clear_trades
  clear_trades-isolated c other tables apart sound = (
    refl,
    cleared c c tables.trades true (text_eq_refl c),
    cleared c other tables.trades false apart,
    λ d. elim (Bool-cases (text_eq c d)) [
      | inl own ↦
          subst IsSoundChat (sym (cleared c d tables.trades true own)) (tt, λ s. tt, omega arith)
      | inr away ↦ subst IsSoundChat (sym (cleared c d tables.trades false away)) (sound d)
    ],
  )
