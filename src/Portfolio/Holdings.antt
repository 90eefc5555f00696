-- ===== src/Portfolio/Holdings.antt =====
-- The holdings of a list of trades by the weighted-average cost method (computeHoldings and
-- heldQuantityOf of src/portfolio/portfolio-calculator.ts). `none` stands for the
-- InconsistentTradesError.
pub mod Replay
use crypto_zalo_bot.Base.{
  ℕ, ◌+◌, ◌-◌, ◌≤◌, Bool, true, false, not, ◌&&◌, ◌||◌, Option, none, some, List, [], ◌∷◌, ◌++◌,
  map, ltb, leb, ◌==◌, if◌then◌else◌, or_else, find, keep, last?, Text, text_eq, Dict, lookup,
  insert, sort_by,
}
use crypto_zalo_bot.Base.Number.{Number}
use crypto_zalo_bot.Portfolio.{
  TradeSide, buy, sell, PortfolioTrade, Holding, HoldingsResult, quantity_scale,
  twin_trade_window_ms,
}
use crypto_zalo_bot.Portfolio.Quantity.{to_quantity_units, format_quantity_units}

pub record SymbolState (F : Type 0) : Type 0 where
  pub units : ℕ
  pub cost_usd : F
  pub realized_usd : F

infixl 5 ◌>>=◌
abbrev ◌>>=◌ {ℓ κ} : {A : Type ℓ} {B : Type κ} → Option A → (A → Option B) → Option B
none >>= f = none
some a >>= f = f a

module _ (num : Number) where
  open num use {F, lit, add, sub, mul, div, lt, is_finite}

  pub units_to_number : ℕ → F
  units_to_number units = div (lit units 0) (lit quantity_scale 0)

  -- One trade of `units`, on the state of its coin.
  apply_trade : TradeSide → ℕ → F → SymbolState F → Option (SymbolState F)
  apply_trade buy units price_usd state = some (record state {
    units = state.units + units;
    cost_usd = add state.cost_usd (mul (units_to_number units) price_usd);
  })
  apply_trade sell units price_usd state =
      if ltb state.units units
      then none
      else (let avg_cost_usd = div state.cost_usd (units_to_number state.units) in
          let left = state.units - units in
          some (record {
            units = left;
            realized_usd =
                add state.realized_usd (mul (units_to_number units) (sub price_usd avg_cost_usd));
            cost_usd = if left == 0 then lit 0 0 else mul avg_cost_usd (units_to_number left);
          }))

  abbrev no_state : SymbolState F
  no_state = record { units = 0; cost_usd = lit 0 0; realized_usd = lit 0 0 }

  -- One round of the loop.
  replay_trade : Dict (SymbolState F) → PortfolioTrade F → Option (Dict (SymbolState F))
  replay_trade by_symbol trade = do
    units ← to_quantity_units trade.quantity
    state ←
        apply_trade trade.side units trade.price_usd
          (or_else (lookup trade.symbol by_symbol) no_state)
    some (insert trade.symbol state by_symbol)

  pub replay : Dict (SymbolState F) → List (PortfolioTrade F) → Option (Dict (SymbolState F))
  replay by_symbol [] = some by_symbol
  replay by_symbol (trade ∷ trades) = do next ← replay_trade by_symbol trade; replay next trades

  holding_of : Text → SymbolState F → Holding F
  holding_of symbol state = record {
    symbol = symbol;
    quantity = format_quantity_units state.units;
    quantity_units = state.units;
    avg_cost_usd = div state.cost_usd (units_to_number state.units);
    cost_basis_usd = state.cost_usd;
  }

  holdings_of : Dict (SymbolState F) → List (Holding F)
  holdings_of [] = []
  holdings_of ((symbol, state) ∷ by_symbol) =
      if ltb 0 state.units
      then holding_of symbol state ∷ holdings_of by_symbol
      else holdings_of by_symbol

  realized_total : F → Dict (SymbolState F) → F
  realized_total acc [] = acc
  realized_total acc ((_, state) ∷ by_symbol) =
      realized_total (add acc state.realized_usd) by_symbol

  pub result_of : Dict (SymbolState F) → HoldingsResult F
  result_of by_symbol = record {
    holdings = holdings_of by_symbol;
    realized_pnl_usd = realized_total (lit 0 0) by_symbol;
    realized_by_symbol = map (λ e. (e.0, e.1.realized_usd)) by_symbol;
  }

  unfoldable pub compute_holdings : List (PortfolioTrade F) → Option (HoldingsResult F)
  compute_holdings trades = do
    by_symbol ← replay [] (sort_by (λ (t : PortfolioTrade F). t.seq) trades)
    some (result_of by_symbol)

  pub held_quantity_of : HoldingsResult F → Text → Text
  held_quantity_of result symbol =
      elim (find (λ (h : Holding F). text_eq h.symbol symbol) result.holdings) [
        | some h ↦ h.quantity
        | none ↦ b'0' ∷ []
      ]
