-- ===== src/Signals/Tests.antt =====
-- Runs of the signal modules on concrete inputs.
use crypto_zalo_bot.Base.{
  ◌+◌, ◌≤◌, ◌-◌, length, if◌then◌else◌, ℕ, ◌≡◌, ◌*◌, refl, true, false, none, some, List, [], ◌∷◌,
  ◌++◌, arith,
}
use crypto_zalo_bot.Base.Int.{ℤ, pos}
use crypto_zalo_bot.Base.Number.{scaled}
use crypto_zalo_bot.Signals.{
  PricePoint, Verdict, SwingDirection, Window, SignalResult, SignalRecord, ChatSignalState,
  CoinSignal, outage_down, day_ms,
}
use crypto_zalo_bot.Signals.Evaluator.{
  default_thresholds, evaluate_signal, is_usable, nearer, nearest, price_near, change_pct, exceeds,
  is_history_covered, is_one_day, judged,
}
use crypto_zalo_bot.Signals.Evaluator.Laws.{IsBigMove, evaluate_signal-IsBigMove}
use crypto_zalo_bot.Signals.Backtest.{horizon_days, run_backtest, score_records}
use crypto_zalo_bot.Signals.Backtest.Selection.{IsSelection}
use crypto_zalo_bot.Signals.Backtest.Laws.{
  IsTally, scored_days, scored_records, run_backtest-tallies, score_records-counts,
}
use crypto_zalo_bot.Signals.Repeat.{select_coins_to_alert, record_sent}
use crypto_zalo_bot.Signals.Repeat.Laws.{record_sent-silences}
use crypto_zalo_bot.Signals.Monitor.{
  evaluate_signals_monitor, when_silent, IsQuiet, evaluate_signals_monitor-IsQuiet,
}

-- A price of 100 eight days ago and one day ago, and of 120 now.
abbrev noon : ℕ
noon = 9 * day_ms

abbrev points : List (PricePoint ℤ)
points =
    record { t = day_ms; p = pos 10_000_000_000 }
    ∷ record { t = 8 * day_ms; p = pos 10_000_000_000 }
    ∷ []

swing-strong :
    (evaluate_signal scaled points (pos 12_000_000_000) noon (default_thresholds scaled)).strong
    ≡ true
unfolding evaluate_signal is_usable nearer nearest price_near change_pct exceeds is_history_covered
    is_one_day judged
swing-strong = refl

evaluate_signal-IsBigMove_example :
    IsBigMove scaled
      (default_thresholds scaled)
      (evaluate_signal scaled points (pos 12_000_000_000) noon (default_thresholds scaled))
evaluate_signal-IsBigMove_example =
    evaluate_signal-IsBigMove scaled points (pos 12_000_000_000) noon (default_thresholds scaled)
      swing-strong

abbrev swing : SignalResult ℤ
swing = record {
  insufficient_data = false;
  change24h_pct = some (pos 2_000_000_000);
  change72h_pct = none;
  strong = true;
  direction = some SwingDirection.up;
  move_pct = some (pos 2_000_000_000);
  window = some Window.one_day;
  range_low = none;
  range_high = none;
  position_pct = none;
  verdict = some Verdict.sell;
  price_usd = pos 12_000_000_000;
}

abbrev btc_signal : CoinSignal ℤ
btc_signal = record { symbol = b'B' ∷ []; result = swing }

abbrev new_chat : ChatSignalState ℤ
new_chat = record { last_sent_at = none; failures = none; failed_at = none; coins = [] }

record_sent-silences_example :
    select_coins_to_alert scaled
      (btc_signal ∷ [])
      (record_sent scaled new_chat ([] ++ btc_signal ∷ []) 1_000)
      8_000_000
    ≡ select_coins_to_alert scaled []
        (record_sent scaled new_chat ([] ++ btc_signal ∷ []) 1_000)
        8_000_000
record_sent-silences_example =
    record_sent-silences scaled new_chat [] btc_signal [] 1_000 8_000_000 btc_signal [] tt
      (omega arith) refl refl refl

silent-told : evaluate_signals_monitor (some 0) none 6_000_000 ≡ some (outage_down 0 6_000_000)
unfolding evaluate_signals_monitor when_silent
silent-told = refl

evaluate_signals_monitor-IsQuiet_example : IsQuiet 0 none 6_000_000 7_000_000
evaluate_signals_monitor-IsQuiet_example =
    evaluate_signals_monitor-IsQuiet 0 none 6_000_000 7_000_000 (outage_down 0 6_000_000)
      silent-told (omega arith) (omega arith) (omega arith)

run_backtest-tallies_example :
    let result = run_backtest scaled (pos 1 ∷ pos 2 ∷ []) (default_thresholds scaled) in
    IsTally result.buy
    × IsTally result.sell
    × (scored_days result ≤ length {A = ℤ} (pos 1 ∷ pos 2 ∷ []) - horizon_days)
    × (result.days ≡ length {A = ℤ} (pos 1 ∷ pos 2 ∷ []))
    × ((if result.insufficient then scored_days result else 0) ≡ 0)
run_backtest-tallies_example =
    run_backtest-tallies scaled (pos 1 ∷ pos 2 ∷ []) (default_thresholds scaled)

abbrev buy_record : SignalRecord ℤ
buy_record = record { symbol = b'B' ∷ []; is_buy = true; price_usd = pos 5; at = 0 }

score_records-counts_example :
    let card = score_records scaled (buy_record ∷ buy_record ∷ []) [] 1_000 in
    IsTally card.buy
    × IsTally card.sell
    × ((chosen : List (SignalRecord ℤ)) × IsSelection scaled (buy_record ∷ buy_record ∷ []) chosen
        × (scored_records card + card.pending ≡ length chosen))
score_records-counts_example = score_records-counts scaled (buy_record ∷ buy_record ∷ []) [] 1_000
