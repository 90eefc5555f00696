-- ===== src/Portfolio/Ledger/Replays.antt =====
-- The stored trades of a chat can always be replayed, and give the holdings that the rows sum to.
use crypto_zalo_bot.Base.{
  ℕ, ◌+◌, ◌<◌, ◌≡◌, refl, ◌∙◌, ap, Bool, true, false, List, [], ◌∷◌, map, if◌then◌else◌, All, Text,
  text_eq, arith, sort_by-ascending, IsAscending, some, Dict, lookup,
}
use crypto_zalo_bot.Base.Number.{Number}
use crypto_zalo_bot.Portfolio.{TradeSide, buy, sell, PortfolioTrade}
use crypto_zalo_bot.Portfolio.Quantity.RoundTrip.{to_quantity_units-numeric_text}
use crypto_zalo_bot.Portfolio.Balance.{IsCovered, total_bought, total_sold}
use crypto_zalo_bot.Portfolio.Holdings.{compute_holdings, SymbolState, replay, result_of}
use crypto_zalo_bot.Portfolio.Holdings.Replay.{
  units_of, IsReadable, bought, sold, held, bought_by, sold_by, replay-held,
}
use crypto_zalo_bot.Portfolio.Ledger.{
  Row, to_trade, of_chat, select_trades, row_bought, row_sold, signed,
}
use crypto_zalo_bot.Portfolio.Ledger.Laws.{IsSoundChat, IsSound}

module _ {F : Type 0} where
  units_of-to_trade : (r : Row F) → units_of (to_trade r) ≡ r.units
  units_of-to_trade r = rw (to_quantity_units-numeric_text r.units) refl

  to_trade-IsReadable : (r : Row F) → IsReadable (to_trade r)
  to_trade-IsReadable r = rw (to_quantity_units-numeric_text r.units) refl

  to_trade-bought : (s : Text) (r : Row F) → bought s (to_trade r) ≡ row_bought s r
  to_trade-bought s r =
      ap (bought_by r.side (text_eq r.symbol s)) (units_of-to_trade r)
      ∙ by_side r.side (text_eq r.symbol s)
    where
      by_side :
          (side : TradeSide) (b : Bool)
          → bought_by side b r.units ≡ (if b then signed buy side r.units else 0)
      by_side buy true = refl
      by_side buy false = refl
      by_side sell true = refl
      by_side sell false = refl

  to_trade-sold : (s : Text) (r : Row F) → sold s (to_trade r) ≡ row_sold s r
  to_trade-sold s r =
      ap (sold_by r.side (text_eq r.symbol s)) (units_of-to_trade r)
      ∙ by_side r.side (text_eq r.symbol s)
    where
      by_side :
          (side : TradeSide) (b : Bool)
          → sold_by side b r.units ≡ (if b then signed sell side r.units else 0)
      by_side buy true = refl
      by_side buy false = refl
      by_side sell true = refl
      by_side sell false = refl

  trades-IsReadable : (rows : List (Row F)) → All IsReadable (map to_trade rows)
  trades-IsReadable [] = tt
  trades-IsReadable (r ∷ rows) = (to_trade-IsReadable r, trades-IsReadable rows)

  total_bought-map :
      (s : Text) (rows : List (Row F))
      → total_bought (bought s) (sold s) (map to_trade rows)
        ≡ total_bought (row_bought s) (row_sold s) rows
  total_bought-map s [] = refl
  total_bought-map s (r ∷ rows) = omega (arith, to_trade-bought s r, total_bought-map s rows)

  total_sold-map :
      (s : Text) (rows : List (Row F))
      → total_sold (bought s) (sold s) (map to_trade rows)
        ≡ total_sold (row_bought s) (row_sold s) rows
  total_sold-map s [] = refl
  total_sold-map s (r ∷ rows) = omega (arith, to_trade-sold s r, total_sold-map s rows)

  IsCovered-map :
      (s : Text) (rows : List (Row F)) (b v : ℕ)
      → IsCovered (row_bought s) (row_sold s) b v rows
      → IsCovered (bought s) (sold s) b v (map to_trade rows)
  IsCovered-map s [] b v c = tt
  IsCovered-map s (r ∷ rows) b v c =
      rw (to_trade-bought s r, to_trade-sold s r) (c.0, IsCovered-map s rows _ _ c.1)

  All-seq-map :
      (n : ℕ) (rows : List (Row F))
      → All (λ (r : Row F). n < r.seq) rows
      → All (λ (t : PortfolioTrade F). n < t.seq) (map to_trade rows)
  All-seq-map n [] h = tt
  All-seq-map n (r ∷ rows) h = (h.0, All-seq-map n rows h.1)

  IsAscending-map :
      (rows : List (Row F))
      → IsAscending (λ (r : Row F). r.seq) rows
      → IsAscending (λ (t : PortfolioTrade F). t.seq) (map to_trade rows)
  IsAscending-map [] h = tt
  IsAscending-map (r ∷ rows) h = (All-seq-map r.seq rows h.0, IsAscending-map rows h.1)

  select_trades_sound :
      (c : Text) (rows : List (Row F))
      → IsSoundChat (of_chat c rows)
      → select_trades c rows ≡ map to_trade (of_chat c rows)
  select_trades_sound c rows (asc, _, _) =
      ap (map to_trade) (sort_by-ascending (λ (r : Row F). r.seq) (of_chat c rows) asc)

module _ (num : Number) where
  open num use {F}

  held-nil : (s : Text) → held {F = F} s [] ≡ 0
  unfolding lookup
  held-nil s = refl

  -- The trades that are read for a chat of sound tables replay to the end: computeHoldings does not
  -- throw, and of every coin exactly the stored buys less the stored sells are then held.
  pub compute_holdings_sound :
      (chat_id : Text) (rows : List (Row F))
      → IsSound rows
      → (d : Dict (SymbolState F)) × (replay num [] (select_trades chat_id rows) ≡ some d)
        × (compute_holdings num (select_trades chat_id rows) ≡ some (result_of num d))
        × ((s : Text)
            → held s d + total_sold (row_bought s) (row_sold s) (of_chat chat_id rows)
              ≡ total_bought (row_bought s) (row_sold s) (of_chat chat_id rows))
  unfolding compute_holdings
  compute_holdings_sound c rows sound =
      let (asc, cov, few) = sound c in
      let ts = map to_trade (of_chat c rows) in
      let (d, e, m) =
        replay-held num ts [] (λ _. 0) (λ _. 0) (λ s. omega (arith, held-nil s))
          (trades-IsReadable (of_chat c rows))
          (λ s. IsCovered-map s (of_chat c rows) 0 0 (cov s)) in
      let read = select_trades_sound c rows (sound c) in
      let sorted =
        sort_by-ascending (λ (t : PortfolioTrade F). t.seq) ts
          (IsAscending-map (of_chat c rows) asc) in
      (
        d,
        rw read e,
        rw read (rw sorted (rw e refl)),
        λ s.
            omega
              (arith, m s, total_bought-map s (of_chat c rows), total_sold-map s (of_chat c rows)),
      )
