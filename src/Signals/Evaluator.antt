-- ===== src/Signals/Evaluator.antt =====
-- The rule of a strong swing (evaluateSignal of src/signals/signal-evaluator.ts). A comparison of a
-- time with one that lies before the time of the run is written with a sum on the other side.
pub mod Laws
use crypto_zalo_bot.Base.{
  ℕ, ◌+◌, ◌-◌, ◌*◌, Bool, true, false, not, ◌&&◌, ◌||◌, Option, none, some, List, [], ◌∷◌, ◌++◌,
  map, ltb, leb, if◌then◌else◌, or_else, is_some, keep, any,
}
use crypto_zalo_bot.Base.Number.{Number}
use crypto_zalo_bot.Signals.{
  PricePoint, Verdict, SwingDirection, Window, SignalThresholds, SignalResult, range_days,
  min_history_days, reference_tolerance_ms, hour_ms, day_ms,
}

-- `Math.abs(point.t - target)` where the target is `back` before `time`.
abbrev pub gap : ℕ → ℕ → ℕ → ℕ
gap t back time = (t + back - time) + (time - (t + back))

module _ (num : Number) where
  open num use {F, lit, add, sub, mul, div, abs, lt, le, is_finite}

  abbrev pub compare_epsilon : F
  compare_epsilon = lit 1 9

  abbrev pub default_thresholds : SignalThresholds F
  default_thresholds = record {
    swing24h_pct = lit 8 0;
    swing72h_pct = lit 15 0;
    band_pct = lit 25 0;
  }

  unfoldable pub is_usable : F → Bool
  is_usable p = is_finite p && not (le p (lit 0 0))

  -- One round of the loop of `priceNear`.
  unfoldable pub nearer : ℕ → ℕ → Option (PricePoint F) → PricePoint F → Option (PricePoint F)
  nearer back time none point =
      if not (is_usable point.p) || ltb reference_tolerance_ms (gap point.t back time)
      then none
      else some point
  nearer back time (some best) point =
      if not (is_usable point.p) || ltb reference_tolerance_ms (gap point.t back time)
      then some best
      else if ltb (gap point.t back time) (gap best.t back time)
      then some point
      else some best

  unfoldable pub nearest :
      ℕ → ℕ → Option (PricePoint F) → List (PricePoint F) → Option (PricePoint F)
  nearest back time best [] = best
  nearest back time best (point ∷ points) = nearest back time (nearer back time best point) points

  unfoldable pub price_near : List (PricePoint F) → ℕ → ℕ → Option F
  price_near points back time = elim (nearest back time none points) [
    | none ↦ none
    | some best ↦ some best.p
  ]

  unfoldable pub change_pct : Option F → F → Option F
  change_pct none price = none
  change_pct (some from) price =
      if le from (lit 0 0) then none else some (mul (div (sub price from) from) (lit 100 0))

  unfoldable pub exceeds : Option F → F → Bool
  exceeds none threshold = false
  exceeds (some change) threshold = le (sub threshold compare_epsilon) (abs change)

  -- `oldest <= now - MIN_HISTORY_DAYS * DAY_MS + REFERENCE_TOLERANCE_MS`: some point is that old.
  unfoldable pub is_history_covered : List (PricePoint F) → ℕ → Bool
  is_history_covered points time =
      any
        (λ (point : PricePoint F).
          leb (point.t + min_history_days * day_ms) (time + reference_tolerance_ms))
        points

  -- `Math.min` and `Math.max` of the prices in the range and the price now.
  unfoldable pub lowest : F → List F → F
  lowest low [] = low
  lowest low (p ∷ ps) = let rest = lowest low ps in if lt p rest then p else rest

  unfoldable pub highest : F → List F → F
  highest high [] = high
  highest high (p ∷ ps) = let rest = highest high ps in if lt rest p then p else rest

  unfoldable pub range_prices : List (PricePoint F) → ℕ → List F
  range_prices points time =
      map (λ (point : PricePoint F). point.p)
        (keep
          (λ (point : PricePoint F).
            leb time (point.t + range_days * day_ms) && (is_finite point.p && lt (lit 0 0) point.p))
          points)

  unfoldable pub position_pct_of : F → F → F → F
  position_pct_of low high price =
      if lt low high then mul (div (sub price low) (sub high low)) (lit 100 0) else lit 50 0

  unfoldable pub abs_of : Option F → F
  abs_of change = abs (or_else change (lit 0 0))

  -- The window of the larger change that is strong.
  unfoldable pub is_one_day : Bool → Bool → Option F → Option F → Bool
  is_one_day strong24h strong72h change24h change72h =
      strong24h && (not strong72h || le (abs_of change72h) (abs_of change24h))

  unfoldable pub verdict_of : F → F → Verdict
  verdict_of band position =
      if le position (add band compare_epsilon)
      then Verdict.buy
      else if le (sub (sub (lit 100 0) band) compare_epsilon) position
      then Verdict.sell
      else Verdict.watch

  unfoldable pub direction_of : Option F → Option SwingDirection
  direction_of none = none
  direction_of (some move) =
      some (if le (lit 0 0) move then SwingDirection.up else SwingDirection.down)

  -- `{ ...empty, change24hPct, change72hPct }`
  unfoldable pub insufficient : Option F → Option F → F → SignalResult F
  insufficient change24h change72h price = record {
    insufficient_data = true;
    change24h_pct = change24h;
    change72h_pct = change72h;
    strong = false;
    direction = none;
    move_pct = none;
    window = none;
    range_low = none;
    range_high = none;
    position_pct = none;
    verdict = none;
    price_usd = price;
  }

  -- The result from the two changes and the range.
  unfoldable pub judged : SignalThresholds F → Option F → Option F → F → F → F → SignalResult F
  unfolding exceeds is_one_day
  judged thresholds change24h change72h low high price =
      let strong24h = exceeds change24h thresholds.swing24h_pct in
      let strong72h = exceeds change72h thresholds.swing72h_pct in
      let strong = strong24h || strong72h in
      let use24h = is_one_day strong24h strong72h change24h change72h in
      let move = if strong then (if use24h then change24h else change72h) else none in
      record {
        insufficient_data = false;
        change24h_pct = change24h;
        change72h_pct = change72h;
        strong = strong;
        direction = direction_of move;
        move_pct = move;
        window =
            if strong then some (if use24h then Window.one_day else Window.three_days) else none;
        range_low = some low;
        range_high = some high;
        position_pct = some (position_pct_of low high price);
        verdict =
            if strong
            then some (verdict_of thresholds.band_pct (position_pct_of low high price))
            else none;
        price_usd = price;
      }

  unfoldable pub evaluate_signal : List (PricePoint F) → F → ℕ → SignalThresholds F → SignalResult F
  evaluate_signal points price time thresholds =
      let change24h = change_pct (price_near points (24 * hour_ms) time) price in
      let change72h = change_pct (price_near points (72 * hour_ms) time) price in
      let prices = range_prices points time in
      if not (is_usable price)
      then insufficient none none price
      else (if not (is_history_covered points time)
            || (not (is_some change24h) && not (is_some change72h))
          then insufficient change24h change72h price
          else judged thresholds change24h change72h (lowest price prices) (highest price prices)
              price)
