-- ===== src/Signals/Backtest/Laws.antt =====
-- The tallies of the scoring add up.
use crypto_zalo_bot.Base.{
  ℕ, ◌+◌, ◌-◌, ◌≤◌, ◌≡◌, refl, ◌∙◌, Bool, true, false, Option, none, some, List, [], ◌∷◌, ◌++◌, ltb,
  if◌then◌else◌, get_elem?, any, length, Dict, arith, Bool-cases, inl, inr,
}
use crypto_zalo_bot.Base.Number.{Number}
use crypto_zalo_bot.Signals.{
  PricePoint, SignalThresholds, SignalRecord, VerdictTally, BacktestResult, Scorecard,
  backtest_min_days,
}
use crypto_zalo_bot.Signals.Evaluator.{evaluate_signal}
use crypto_zalo_bot.Signals.Backtest.{
  horizon_days, side_of, same_key, score_day, replay_days, daily_points, run_backtest, later_point,
  score_record, score_from, score_records,
}
use crypto_zalo_bot.Signals.Backtest.Selection.{IsSelection, counted_from, counted_from-IsSelection}

-- No more is correct than was scored.
abbrev pub IsTally : VerdictTally → Type 0
IsTally tally = tally.correct ≤ tally.scored

abbrev pub scored_days : BacktestResult → ℕ
scored_days result = result.buy.scored + result.sell.scored

abbrev pub scored_records : Scorecard → ℕ
scored_records card = card.buy.scored + card.sell.scored

module _ (num : Number) where
  open num use {F}

  -- What one day does to the tallies.
  abbrev IsScoredBy : ℕ → BacktestResult → BacktestResult → Type 0
  IsScoredBy n result next =
      (IsTally result.buy → IsTally next.buy)
      × (IsTally result.sell → IsTally next.sell)
      × (scored_days next ≤ scored_days result + n)
      × (next.days ≡ result.days)
      × (next.insufficient ≡ result.insufficient)

  abbrev reach : Option (PricePoint F) → ℕ
  reach none = 0
  reach (some _) = 1

  score_day-IsScoredBy :
      (current previous : Option Bool) (price : F) (o : Option (PricePoint F))
      (result : BacktestResult)
      → IsScoredBy (reach o) result (score_day num current previous price o result)
  unfolding score_day
  score_day-IsScoredBy none previous price o result = (λ h. h, λ h. h, omega arith, refl, refl)
  score_day-IsScoredBy (some current) previous price none result =
      (λ h. h, λ h. h, omega arith, refl, refl)
  score_day-IsScoredBy (some true) previous price (some later) result = ground arith
  score_day-IsScoredBy (some false) previous price (some later) result = ground arith

  -- A day reaches its horizon only if that many days follow it.
  reached :
      (rest : List (PricePoint F))
      → reach (get_elem? rest (horizon_days - 1)) + (length rest - horizon_days)
        ≤ length rest + 1 - horizon_days
  reached [] = omega arith
  reached (x ∷ []) = omega arith
  reached (x ∷ y ∷ []) = omega arith
  reached (x ∷ y ∷ z ∷ rest) = omega arith

  replay_days-tallies :
      (thresholds : SignalThresholds F) (rest before : List (PricePoint F)) (previous : Option Bool)
      (result : BacktestResult)
      → IsTally result.buy
      → IsTally result.sell
      → let next = replay_days num thresholds before previous result rest in
        IsTally next.buy
        × IsTally next.sell
        × (scored_days next ≤ scored_days result + (length rest - horizon_days))
        × (next.days ≡ result.days)
        × (next.insufficient ≡ result.insufficient)
  unfolding replay_days
  replay_days-tallies th [] before previous result b s = (b, s, omega arith, refl, refl)
  replay_days-tallies th (p ∷ rest) before previous result b s =
      let current = side_of (evaluate_signal num (before ++ p ∷ []) p.p p.t th).verdict in
      let o = get_elem? rest (horizon_days - 1) in
      let (kb, ks, few, same, kept) = score_day-IsScoredBy current previous p.p o result in
      let (b', s', few', same', kept') =
        replay_days-tallies th rest (before ++ p ∷ []) current
          (score_day num current previous p.p o result) (kb b) (ks s) in
      (b', s', omega (arith, few, few', reached rest), same' ∙ same, kept' ∙ kept)

  length-daily_points :
      (index : ℕ) (closes : List F) → length (daily_points num index closes) ≡ length closes
  unfolding daily_points
  length-daily_points index [] = refl
  length-daily_points index (p ∷ closes) = omega (arith, length-daily_points (index + 1) closes)

  -- A back-test never counts more correct verdicts than it scored, scores at most one verdict on each
  -- day that has a close three days later, and scores none where the history is too short.
  pub run_backtest-tallies :
      (closes : List F) (thresholds : SignalThresholds F)
      → let result = run_backtest num closes thresholds in
        IsTally result.buy
        × IsTally result.sell
        × (scored_days result ≤ length closes - horizon_days)
        × (result.days ≡ length closes)
        × ((if result.insufficient then scored_days result else 0) ≡ 0)
  unfolding run_backtest
  run_backtest-tallies closes th = elim (Bool-cases (ltb (length closes) backtest_min_days)) [
    | inl short ↦ rw short (omega arith, omega arith, omega arith, refl, refl)
    | inr enough ↦ rw enough (
        let (b, s, few, same, kept) =
          replay_days-tallies th (daily_points num 0 closes) [] none _ (omega arith)
            (omega arith) in
        (b, s, omega (arith, few, length-daily_points 0 closes), same, rw kept refl))
  ]

  score_record-adds :
      (r : SignalRecord F) (o : Option (PricePoint F)) (card : Scorecard)
      → (IsTally card.buy → IsTally (score_record num r o card).buy)
        × (IsTally card.sell → IsTally (score_record num r o card).sell)
        × (scored_records (score_record num r o card) + (score_record num r o card).pending
            ≡ scored_records card + card.pending + 1)
  unfolding score_record
  score_record-adds r none card = ground arith
  score_record-adds r (some later) card = ground arith

  score_from-adds :
      (history : Dict (List (PricePoint F))) (time : ℕ) (records seen : List (SignalRecord F))
      (card : Scorecard)
      → IsTally card.buy
      → IsTally card.sell
      → let next = score_from num history time seen card records in
        IsTally next.buy
        × IsTally next.sell
        × (scored_records next + next.pending + length seen
            ≡ scored_records card + card.pending + length (counted_from num seen records))
  unfolding score_from counted_from
  score_from-adds history time [] seen card b s = (b, s, omega arith)
  score_from-adds history time (r ∷ records) seen card b s =
      elim (Bool-cases (any (same_key num r) seen)) [
        | inl known ↦ rw known (score_from-adds history time records seen card b s)
        | inr fresh ↦
            let (kb, ks, one) = score_record-adds r (later_point num history r time) card in
            let (b', s', more) =
              score_from-adds history time records (r ∷ seen)
                (score_record num r (later_point num history r time) card) (kb b) (ks s) in
            rw fresh (b', s', omega (arith, one, more))
      ]

  -- A scorecard counts one record for each coin, verdict and UTC day of the records, and no other: as
  -- a scored buy, a scored sell or a pending record. It never counts more correct than scored.
  pub score_records-counts :
      (records : List (SignalRecord F)) (history : Dict (List (PricePoint F))) (time : ℕ)
      → let card = score_records num records history time in
        IsTally card.buy
        × IsTally card.sell
        × ((chosen : List (SignalRecord F)) × IsSelection num records chosen
            × (scored_records card + card.pending ≡ length chosen))
  unfolding score_records
  score_records-counts records history time =
      let (b, s, all_counted) =
        score_from-adds history time records [] _ (omega arith) (omega arith) in
      (
        b,
        s,
        (
          counted_from num [] records,
          counted_from-IsSelection num records,
          omega (arith, all_counted),
        ),
      )
