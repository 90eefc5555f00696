-- ===== src/Signals/Backtest.antt =====
-- The scoring of verdicts (src/signals/signal-backtest.ts): a replay of the rules over daily closes,
-- and the score of the verdicts that were sent. A verdict that is scored is `true` for 'buy' and
-- `false` for 'sell'.
pub mod Laws
pub mod Selection
use crypto_zalo_bot.Base.{
  ℕ, ◌+◌, ◌*◌, ◌/◌, ◌-◌, Bool, true, false, not, ◌&&◌, ◌||◌, Option, none, some, List, [], ◌∷◌,
  ◌++◌, ltb, leb, ◌==◌, if◌then◌else◌, or_else, get_elem?, find, any, length, Text, text_eq, Dict,
  lookup,
}
use crypto_zalo_bot.Base.Number.{Number}
use crypto_zalo_bot.Signals.{
  PricePoint, Verdict, SignalThresholds, SignalRecord, VerdictTally, BacktestResult, Scorecard,
  day_ms, horizon_ms, backtest_min_days,
}
use crypto_zalo_bot.Signals.Evaluator.{evaluate_signal}

abbrev pub horizon_days : ℕ
horizon_days = horizon_ms / day_ms

abbrev pub empty_tally : VerdictTally
empty_tally = record { scored = 0; correct = 0 }

abbrev pub add_score : Bool → VerdictTally → VerdictTally
add_score true tally = record { scored = tally.scored + 1; correct = tally.correct + 1 }
add_score false tally = record tally { scored = tally.scored + 1 }

-- `verdict === 'buy' || verdict === 'sell' ? verdict : null`
abbrev pub side_of : Option Verdict → Option Bool
side_of (some Verdict.buy) = some true
side_of (some Verdict.sell) = some false
side_of _ = none

abbrev pub same_bool : Bool → Bool → Bool
same_bool true true = true
same_bool false false = true
same_bool _ _ = false

-- `current !== previous`, for a current verdict.
abbrev pub starts_run : Bool → Option Bool → Bool
starts_run current none = true
starts_run current (some previous) = not (same_bool current previous)

abbrev score_in : Bool → Bool → BacktestResult → BacktestResult
score_in true good result = record result { buy = add_score good result.buy }
score_in false good result = record result { sell = add_score good result.sell }

abbrev score_card : Bool → Bool → Scorecard → Scorecard
score_card true good card = record card { buy = add_score good card.buy }
score_card false good card = record card { sell = add_score good card.sell }

module _ (num : Number) where
  open num use {F, lt}

  is_correct : Bool → F → F → Bool
  is_correct true price_then price_later = lt price_then price_later
  is_correct false price_then price_later = lt price_later price_then

  -- The score of a day's verdict by the close HORIZON_DAYS later, if the closes go that far.
  score_day :
      Option Bool → Option Bool → F → Option (PricePoint F) → BacktestResult → BacktestResult
  score_day none previous price later result = result
  score_day (some current) previous price none result = result
  score_day (some current) previous price (some later) result =
      if starts_run current previous
      then score_in current (is_correct current price later.p) result
      else result

  -- The loop: the points up to here, and those that are left.
  replay_days :
      SignalThresholds F
      → List (PricePoint F)
      → Option Bool
      → BacktestResult
      → List (PricePoint F)
      → BacktestResult
  replay_days thresholds before previous result [] = result
  replay_days thresholds before previous result (point ∷ rest) =
      let current =
        side_of (evaluate_signal num (before ++ point ∷ []) point.p point.t thresholds).verdict in
      replay_days thresholds (before ++ point ∷ []) current
        (score_day current previous point.p (get_elem? rest (horizon_days - 1)) result) rest

  -- One point a day, on an exact grid.
  daily_points : ℕ → List F → List (PricePoint F)
  daily_points index [] = []
  daily_points index (p ∷ closes) =
      record { t = index * day_ms; p = p } ∷ daily_points (index + 1) closes

  pub run_backtest : List F → SignalThresholds F → BacktestResult
  run_backtest daily_closes thresholds =
      let result : BacktestResult = record {
        insufficient = ltb (length daily_closes) backtest_min_days;
        days = length daily_closes;
        buy = empty_tally;
        sell = empty_tally;
      } in
      if result.insufficient
      then result
      else replay_days thresholds [] none result (daily_points 0 daily_closes)

  -- The key `symbol:verdict:day`; a UTC day is a number of days.
  abbrev pub same_key : SignalRecord F → SignalRecord F → Bool
  same_key a b =
      text_eq a.symbol b.symbol && (same_bool a.is_buy b.is_buy && (a.at / day_ms == b.at / day_ms))

  -- The first stored point at or after the horizon, once that has passed.
  later_point : Dict (List (PricePoint F)) → SignalRecord F → ℕ → Option (PricePoint F)
  later_point history r time =
      if leb (r.at + horizon_ms) time
      then find (λ (point : PricePoint F). leb (r.at + horizon_ms) point.t)
          (or_else (lookup r.symbol history) [])
      else none

  score_record : SignalRecord F → Option (PricePoint F) → Scorecard → Scorecard
  score_record r none card = record card { pending = card.pending + 1 }
  score_record r (some later) card =
      score_card r.is_buy (is_correct r.is_buy r.price_usd later.p) card

  score_from :
      Dict (List (PricePoint F))
      → ℕ
      → List (SignalRecord F)
      → Scorecard
      → List (SignalRecord F)
      → Scorecard
  score_from history time seen card [] = card
  score_from history time seen card (r ∷ records) =
      let counted =
        score_from history time (r ∷ seen) (score_record r (later_point history r time) card)
          records in
      let skipped = score_from history time seen card records in
      if any (same_key r) seen then skipped else counted

  pub score_records : List (SignalRecord F) → Dict (List (PricePoint F)) → ℕ → Scorecard
  score_records records history time =
      score_from history time [] (record { buy = empty_tally; sell = empty_tally; pending = 0 })
        records
