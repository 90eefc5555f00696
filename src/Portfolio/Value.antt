-- ===== src/Portfolio/Value.antt =====
-- The value of the holdings at the prices given, and the recent twin of a trade (computePortfolio and
-- findRecentTwin of src/portfolio/portfolio-calculator.ts).
use crypto_zalo_bot.Base.{
  ℕ, ◌+◌, ◌≡◌, refl, ap, sym, ◌∙◌, Bool, true, false, not, ◌&&◌, Option, none, some, List, [], ◌∷◌,
  ◌++◌, map, ltb, leb, ◌==◌, if◌then◌else◌, is_some, keep, last?, Text, text_eq, Dict, lookup,
}
use crypto_zalo_bot.Base.Number.{Number}
use crypto_zalo_bot.Portfolio.{
  TradeSide, buy, sell, PortfolioTrade, Holding, HoldingsResult, HoldingPrice, HoldingLine, priced,
  unpriced, PortfolioSnapshot, twin_trade_window_ms,
}
use crypto_zalo_bot.Portfolio.Quantity.{to_quantity_units}
use crypto_zalo_bot.Portfolio.Holdings.{units_to_number}

-- The variables of the loop.
pub record Totals (F : Type 0) : Type 0 where
  pub lines : List (HoldingLine F)
  pub unpriced_symbols : List Text
  pub missing_change_symbols : List Text
  pub total_value_usd : F
  pub total_cost_basis_usd : F
  pub change24h_usd : F
  pub value_with_change_usd : F
  pub changed_count : ℕ

abbrev same_side : TradeSide → TradeSide → Bool
same_side buy buy = true
same_side sell sell = true
same_side _ _ = false

-- `===` of two quantities that can be read.
abbrev same_units : Option ℕ → Option ℕ → Bool
same_units (some a) (some b) = a == b
same_units _ _ = false

module _ (num : Number) where
  open num use {F, lit, add, sub, mul, div, lt, eq, is_finite}

  -- The change of a line, where the change percent is finite and above -100.
  line_change : Option F → F → Option F
  line_change none value = none
  line_change (some percent) value =
      if is_finite percent && lt (sub (lit 0 0) (lit 100 0)) percent
      then some (sub value (div value (add (lit 1 0) (div percent (lit 100 0)))))
      else none

  percent_of : F → F → Option F
  percent_of part whole =
      if lt (lit 0 0) whole then some (mul (div part whole) (lit 100 0)) else none

  priced_line : Holding F → HoldingPrice F → F → HoldingLine F
  priced_line holding price value = priced (record {
    symbol = holding.symbol;
    quantity = holding.quantity;
    price_usd = price.price_usd;
    value_usd = value;
    unrealized_pnl_usd = sub value holding.cost_basis_usd;
    unrealized_pnl_percent = percent_of (sub value holding.cost_basis_usd) holding.cost_basis_usd;
    change24h_usd = line_change price.change_percent24h value;
  })

  add_change : Text → F → Option F → Totals F → Totals F
  add_change symbol value none totals = record totals {
    missing_change_symbols = totals.missing_change_symbols ++ symbol ∷ [];
  }
  add_change symbol value (some change) totals = record totals {
    change24h_usd = add totals.change24h_usd change;
    value_with_change_usd = add totals.value_with_change_usd value;
    changed_count = totals.changed_count + 1;
  }

  add_priced : Holding F → HoldingPrice F → F → Totals F → Totals F
  add_priced holding price value totals =
      let counted =
        add_change holding.symbol value (line_change price.change_percent24h value) (record totals {
          total_value_usd = add totals.total_value_usd value;
          total_cost_basis_usd = add totals.total_cost_basis_usd holding.cost_basis_usd;
        }) in
      record counted { lines = counted.lines ++ priced_line holding price value ∷ [] }

  -- One round of the loop.
  add_holding : Holding F → Option (HoldingPrice F) → Totals F → Totals F
  add_holding holding none totals = record totals {
    unpriced_symbols = totals.unpriced_symbols ++ holding.symbol ∷ [];
    lines = totals.lines ++ unpriced holding.symbol holding.quantity ∷ [];
  }
  add_holding holding (some price) totals =
      add_priced holding price (mul (units_to_number num holding.quantity_units) price.price_usd)
        totals

  add_holdings : Dict (HoldingPrice F) → List (Holding F) → Totals F → Totals F
  add_holdings prices [] totals = totals
  add_holdings prices (holding ∷ holdings) totals =
      add_holdings prices holdings (add_holding holding (lookup holding.symbol prices) totals)

  abbrev no_totals : Totals F
  no_totals = record {
    lines = [];
    unpriced_symbols = [];
    missing_change_symbols = [];
    total_value_usd = lit 0 0;
    total_cost_basis_usd = lit 0 0;
    change24h_usd = lit 0 0;
    value_with_change_usd = lit 0 0;
    changed_count = 0;
  }

  pub compute_portfolio : HoldingsResult F → Dict (HoldingPrice F) → PortfolioSnapshot F
  compute_portfolio result prices =
      let totals = add_holdings prices result.holdings no_totals in
      let pnl = sub totals.total_value_usd totals.total_cost_basis_usd in
      let has_change = ltb 0 totals.changed_count in
      record {
        lines = totals.lines;
        total_value_usd = totals.total_value_usd;
        total_cost_basis_usd = totals.total_cost_basis_usd;
        unrealized_pnl_usd = pnl;
        unrealized_pnl_percent = percent_of pnl totals.total_cost_basis_usd;
        realized_pnl_usd = result.realized_pnl_usd;
        change24h_usd = if has_change then some totals.change24h_usd else none;
        change24h_percent =
            if has_change
            then percent_of totals.change24h_usd
                (sub totals.value_with_change_usd totals.change24h_usd)
            else none;
        unpriced_symbols = totals.unpriced_symbols;
        missing_change_symbols = totals.missing_change_symbols;
      }

  is_twin : PortfolioTrade F → PortfolioTrade F → Bool
  is_twin previous trade =
      same_side previous.side trade.side
      && (text_eq previous.symbol trade.symbol
          && (same_units (to_quantity_units previous.quantity) (to_quantity_units trade.quantity)
              && (eq previous.price_usd trade.price_usd
                  && leb trade.created_at (previous.created_at + twin_trade_window_ms))))

  -- `.pop()` of the trades before this one.
  pub find_recent_twin : List (PortfolioTrade F) → PortfolioTrade F → Option (PortfolioTrade F)
  find_recent_twin trades trade =
      elim (last? (keep (λ (other : PortfolioTrade F). ltb other.seq trade.seq) trades)) [
        | none ↦ none
        | some previous ↦ if is_twin previous trade then some previous else none
      ]

  abbrev pub line_symbol : HoldingLine F → Text
  line_symbol (priced line) = line.symbol
  line_symbol (unpriced symbol quantity) = symbol

  -- The symbols of the holdings that have no price.
  abbrev pub without_price : Dict (HoldingPrice F) → List (Holding F) → List Text
  without_price prices holdings =
      map (λ (h : Holding F). h.symbol)
        (keep (λ (h : Holding F). not (is_some (lookup h.symbol prices))) holdings)

  map-append :
      (xs : List (HoldingLine F)) (x : HoldingLine F)
      → map line_symbol (xs ++ x ∷ []) ≡ map line_symbol xs ++ line_symbol x ∷ []
  map-append [] x = refl
  map-append (y ∷ xs) x = ap (λ l. line_symbol y ∷ l) (map-append xs x)

  append-nil : (xs : List Text) → xs ++ [] ≡ xs
  append-nil [] = refl
  append-nil (x ∷ xs) = ap (λ l. x ∷ l) (append-nil xs)

  add_change-kept :
      (s : Text) (v : F) (c : Option F) (t : Totals F)
      → ((add_change s v c t).lines ≡ t.lines)
        × ((add_change s v c t).unpriced_symbols ≡ t.unpriced_symbols)
  unfolding add_change
  add_change-kept s v none t = (refl, refl)
  add_change-kept s v (some c) t = (refl, refl)

  abbrev symbol_if : Bool → Holding F → List Text
  symbol_if true h = h.symbol ∷ []
  symbol_if false h = []

  add_holding-lines :
      (h : Holding F) (o : Option (HoldingPrice F)) (t : Totals F)
      → (map line_symbol (add_holding h o t).lines ≡ map line_symbol t.lines ++ h.symbol ∷ [])
        × ((add_holding h o t).unpriced_symbols
            ≡ t.unpriced_symbols ++ symbol_if (not (is_some o)) h)
  unfolding add_holding add_priced priced_line
  add_holding-lines h none t = (map-append t.lines _, refl)
  add_holding-lines h (some price) t =
      let value = mul (units_to_number num h.quantity_units) price.price_usd in
      let kept = add_change-kept h.symbol value (line_change price.change_percent24h value) _ in
      (
        map-append _ _ ∙ ap (λ l. map line_symbol l ++ h.symbol ∷ []) kept.0,
        kept.1 ∙ sym (append-nil _),
      )

  without_price-cons :
      (prices : Dict (HoldingPrice F)) (h : Holding F) (hs : List (Holding F)) (b : Bool)
      → not (is_some (lookup h.symbol prices)) ≡ b
      → without_price prices (h ∷ hs) ≡ symbol_if b h ++ without_price prices hs
  without_price-cons prices h hs true e = rw e refl
  without_price-cons prices h hs false e = rw e refl

  append_append : (xs ys zs : List Text) → (xs ++ ys) ++ zs ≡ xs ++ (ys ++ zs)
  append_append [] ys zs = refl
  append_append (x ∷ xs) ys zs = ap (λ l. x ∷ l) (append_append xs ys zs)

  add_holdings-lines :
      (prices : Dict (HoldingPrice F)) (hs : List (Holding F)) (t : Totals F)
      → (map line_symbol (add_holdings prices hs t).lines
          ≡ map line_symbol t.lines ++ map (λ (h : Holding F). h.symbol) hs)
        × ((add_holdings prices hs t).unpriced_symbols
            ≡ t.unpriced_symbols ++ without_price prices hs)
  unfolding add_holdings
  add_holdings-lines prices [] t = (sym (append-nil _), sym (append-nil _))
  add_holdings-lines prices (h ∷ hs) t =
      let o = lookup h.symbol prices in
      let step = add_holding-lines h o t in
      let rest = add_holdings-lines prices hs (add_holding h o t) in
      (
        rest.0
            ∙ ap (λ l. l ++ map (λ (h : Holding F). h.symbol) hs) step.0
            ∙ append_append (map line_symbol t.lines) (h.symbol ∷ []) _,
        rest.1
            ∙ ap (λ l. l ++ without_price prices hs) step.1
            ∙ append_append t.unpriced_symbols _ _
            ∙ ap (λ l. t.unpriced_symbols ++ l) (sym (without_price-cons prices h hs _ refl)),
      )

  -- A snapshot has one line for each holding, in their order, and names as unpriced exactly the
  -- holdings without a price.
  compute_portfolio-lines :
      (result : HoldingsResult F) (prices : Dict (HoldingPrice F))
      → (map line_symbol (compute_portfolio result prices).lines
          ≡ map (λ (h : Holding F). h.symbol) result.holdings)
        × ((compute_portfolio result prices).unpriced_symbols
            ≡ without_price prices result.holdings)
  unfolding compute_portfolio
  compute_portfolio-lines result prices = add_holdings-lines prices result.holdings no_totals
