-- ===== src/Portfolio/Ledger/Laws.antt =====
-- Selections of rows, the next number of a chat, and the invariant of the stored trades.
use crypto_zalo_bot.Base.{
  ◌+◌, ◌<◌, ◌≤◌, ◌≡◌, refl, ap, inl, inr, Bool, false, ◌&&◌, List, [], ◌∷◌, ◌++◌, length, keep, All,
  Text, text_eq, Bool-cases, arith, IsAscending,
}
use crypto_zalo_bot.Portfolio.{max_trades_per_chat}
use crypto_zalo_bot.Portfolio.Balance.{IsCovered, IsIdle}
use crypto_zalo_bot.Portfolio.Ledger.{Row, of_chat, row_bought, row_sold, max_seq}

module _ {A : Type 0} where
  pub keep-append : (p : A → Bool) (xs ys : List A) → keep p (xs ++ ys) ≡ keep p xs ++ keep p ys
  keep-append p [] ys = refl
  keep-append p (x ∷ xs) ys = elim (Bool-cases (p x)) [
    | inl e ↦ rw e (ap (λ l. x ∷ l) (keep-append p xs ys))
    | inr e ↦ rw e (keep-append p xs ys)
  ]

  pub keep-keep : (p q : A → Bool) (xs : List A) → keep p (keep q xs) ≡ keep (λ x. q x && p x) xs
  keep-keep p q [] = refl
  keep-keep p q (x ∷ xs) = elim (Bool-cases (q x)) [
    | inl e ↦ elim (Bool-cases (p x)) [
      | inl f ↦ rw (e, f) (ap (λ l. x ∷ l) (keep-keep p q xs))
      | inr f ↦ rw (e, f) (keep-keep p q xs)
    ]
    | inr e ↦ rw e (keep-keep p q xs)
  ]

  pub keep-ext : (p q : A → Bool) → ((x : A) → p x ≡ q x) → (xs : List A) → keep p xs ≡ keep q xs
  keep-ext p q h [] = refl
  keep-ext p q h (x ∷ xs) = rw (h x, keep-ext p q h xs) refl

  pub append-nil : (xs : List A) → xs ++ [] ≡ xs
  append-nil [] = refl
  append-nil (x ∷ xs) = ap (λ l. x ∷ l) (append-nil xs)

  pub All-map : {P Q : A → Type 0} → ((x : A) → P x → Q x) → (xs : List A) → All P xs → All Q xs
  All-map f [] h = tt
  All-map f (x ∷ xs) h = (f x h.0, All-map f xs h.1)

module _ {F : Type 0} where
  -- Every number of the rows is below the next one.
  pub max_seq-bound : (rows : List (Row F)) → All (λ (r : Row F). r.seq < max_seq rows + 1) rows
  max_seq-bound [] = tt
  max_seq-bound (r ∷ rows) = (ground arith, All-map (λ x h. ground arith) rows (max_seq-bound rows))

  -- The rows of one chat: numbered in their order, never sold short of any coin, and not too many.
  abbrev pub IsSoundChat : List (Row F) → Type 0
  IsSoundChat rows =
      IsAscending (λ (r : Row F). r.seq) rows
      × ((s : Text) → IsCovered (row_bought s) (row_sold s) 0 0 rows)
      × (length rows ≤ max_trades_per_chat)

  abbrev pub IsSound : List (Row F) → Type 0
  IsSound rows = (chat_id : Text) → IsSoundChat (of_chat chat_id rows)

  -- A row of another coin changes nothing of this one.
  pub other-IsIdle :
      (s : Text) (r : Row F) → text_eq r.symbol s ≡ false → IsIdle (row_bought s) (row_sold s) r
  other-IsIdle s r e = (rw e refl, rw e refl)
