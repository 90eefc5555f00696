-- ===== src/Signals/Repeat.antt =====
-- What a chat is told, and when again (src/signals/signal-repeat.ts).
pub mod Laws
use crypto_zalo_bot.Base.{
  ℕ, ◌+◌, ◌-◌, Bool, true, false, not, ◌&&◌, ◌||◌, Option, none, some, List, [], ◌∷◌, ltb, leb,
  if◌then◌else◌, or_else, is_some, keep, Text, Dict, lookup, insert,
}
use crypto_zalo_bot.Base.Number.{Number}
use crypto_zalo_bot.Signals.{
  SwingDirection, up, down, SignalResult, CoinReport, ChatSignalState, CoinSignal, send_cooldown_ms,
  repeat_window_ms, send_failures_before_backoff, send_backoff_ms,
}

abbrev same_direction : Option SwingDirection → Option SwingDirection → Bool
same_direction none none = true
same_direction (some up) (some up) = true
same_direction (some down) (some down) = true
same_direction _ _ = false

-- `last_sent_at !== null && now - last_sent_at < SEND_COOLDOWN_MS`
abbrev pub is_cooling : Option ℕ → ℕ → Bool
is_cooling none time = false
is_cooling (some last) time = ltb (time - last) send_cooldown_ms

unfoldable pub is_backed_off_since : Option ℕ → ℕ → Bool
is_backed_off_since none time = false
is_backed_off_since (some failed_at) time = ltb (time - failed_at) send_backoff_ms

module _ (num : Number) where
  open num use {F, lit, add, sub, abs, le}

  abbrev pub is_strong : CoinSignal F → Bool
  is_strong signal =
      signal.result.strong
      && (not signal.result.insufficient_data && is_some signal.result.move_pct)

  -- `Math.abs(movePct)` grew by REPEAT_EXTRA_PP over the last report.
  abbrev pub has_grown : Option F → Option F → Bool
  has_grown move previous =
      le (sub (add (abs (or_else previous (lit 0 0))) (lit 5 0)) (lit 1 9))
        (abs (or_else move (lit 0 0)))

  abbrev pub is_news : Option (CoinReport F) → CoinSignal F → ℕ → Bool
  is_news none signal time = true
  is_news (some previous) signal time =
      leb repeat_window_ms (time - previous.sent_at)
      || (not (same_direction previous.direction signal.result.direction)
          || has_grown signal.result.move_pct previous.move_pct)

  unfoldable pub select_coins_to_alert :
      List (CoinSignal F) → ChatSignalState F → ℕ → List (CoinSignal F)
  select_coins_to_alert signals state time =
      if is_cooling state.last_sent_at time
      then []
      else keep
          (λ signal. is_strong signal && is_news (lookup signal.symbol state.coins) signal time)
          signals

  unfoldable pub is_backed_off : ChatSignalState F → ℕ → Bool
  is_backed_off state time =
      leb send_failures_before_backoff (or_else state.failures 0)
      && is_backed_off_since state.failed_at time

  unfoldable pub record_failed : ChatSignalState F → ℕ → ChatSignalState F
  record_failed state time = record state {
    failures = some (or_else state.failures 0 + 1);
    failed_at = some time;
  }

  report_of : CoinSignal F → ℕ → CoinReport F
  report_of signal time = record {
    sent_at = time;
    direction = signal.result.direction;
    move_pct = signal.result.move_pct;
  }

  -- The entries within the repeat window.
  kept_reports : Dict (CoinReport F) → ℕ → Dict (CoinReport F)
  kept_reports coins time = keep (λ entry. ltb (time - entry.1.sent_at) repeat_window_ms) coins

  with_reports : List (CoinSignal F) → ℕ → Dict (CoinReport F) → Dict (CoinReport F)
  with_reports [] time coins = coins
  with_reports (signal ∷ sent) time coins =
      with_reports sent time (insert signal.symbol (report_of signal time) coins)

  pub record_sent : ChatSignalState F → List (CoinSignal F) → ℕ → ChatSignalState F
  record_sent state sent time = record {
    last_sent_at = some time;
    failures = none;
    failed_at = none;
    coins = with_reports sent time (kept_reports state.coins time);
  }
