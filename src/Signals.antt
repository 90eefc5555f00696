-- ===== src/Signals.antt =====
-- The swing signals (src/signals): the records of interfaces/signal.interface.ts and the constants
-- of signals.constants.ts. An instant is its epoch milliseconds.
pub mod Evaluator
pub mod Repeat
pub mod Monitor
pub mod Backtest
mod Tests
use crypto_zalo_bot.Base.{ℕ, ◌*◌, Bool, Text, Option, Dict}

pub record PricePoint (F : Type 0) : Type 0 where
  pub t : ℕ
  pub p : F

pub data Verdict : Type 0 where
  buy sell watch : Verdict

pub data SwingDirection : Type 0 where
  up down : SwingDirection

pub data Window : Type 0 where
  one_day three_days : Window

pub record SignalThresholds (F : Type 0) : Type 0 where
  pub swing24h_pct : F
  pub swing72h_pct : F
  pub band_pct : F

pub record SignalResult (F : Type 0) : Type 0 where
  pub insufficient_data : Bool
  pub change24h_pct : Option F
  pub change72h_pct : Option F
  pub strong : Bool
  pub direction : Option SwingDirection
  pub move_pct : Option F
  pub window : Option Window
  pub range_low : Option F
  pub range_high : Option F
  pub position_pct : Option F
  pub verdict : Option Verdict
  pub price_usd : F

-- What a chat was last told of one coin.
pub record CoinReport (F : Type 0) : Type 0 where
  pub sent_at : ℕ
  pub direction : Option SwingDirection
  pub move_pct : Option F

pub record ChatSignalState (F : Type 0) : Type 0 where
  pub last_sent_at : Option ℕ
  pub failures : Option ℕ
  pub failed_at : Option ℕ
  pub coins : Dict (CoinReport F)

pub record CoinSignal (F : Type 0) : Type 0 where
  pub symbol : Text
  pub result : SignalResult F

abbrev pub range_days : ℕ
range_days = 7

abbrev pub min_history_days : ℕ
min_history_days = 7

abbrev pub reference_tolerance_ms : ℕ
reference_tolerance_ms = 90 * 60_000

abbrev pub hour_ms : ℕ
hour_ms = 60 * 60_000

abbrev pub day_ms : ℕ
day_ms = 24 * hour_ms

abbrev pub send_cooldown_ms : ℕ
send_cooldown_ms = hour_ms

abbrev pub repeat_window_ms : ℕ
repeat_window_ms = day_ms

abbrev pub send_failures_before_backoff : ℕ
send_failures_before_backoff = 3

abbrev pub send_backoff_ms : ℕ
send_backoff_ms = 6 * 60 * 60_000

abbrev pub signals_stale_ms : ℕ
signals_stale_ms = 90 * 60_000

abbrev pub signals_reminder_ms : ℕ
signals_reminder_ms = 6 * 60 * 60_000

-- An outage that the owner was told of.
pub record SignalsOutage : Type 0 where
  pub since : ℕ
  pub notified_at : ℕ

pub data SignalsMonitorAction : Type 0 where
  outage_down : ℕ → ℕ → SignalsMonitorAction
  reminder : ℕ → ℕ → ℕ → SignalsMonitorAction
  recovered : ℕ → ℕ → ℕ → SignalsMonitorAction

abbrev pub horizon_ms : ℕ
horizon_ms = 3 * day_ms

abbrev pub backtest_min_days : ℕ
backtest_min_days = 14

-- A verdict that was sent to a chat: `true` for 'buy', `false` for 'sell'.
pub record SignalRecord (F : Type 0) : Type 0 where
  pub symbol : Text
  pub is_buy : Bool
  pub price_usd : F
  pub at : ℕ

pub record VerdictTally : Type 0 where
  pub scored : ℕ
  pub correct : ℕ

pub record BacktestResult : Type 0 where
  pub insufficient : Bool
  pub days : ℕ
  pub buy : VerdictTally
  pub sell : VerdictTally

pub record Scorecard : Type 0 where
  pub buy : VerdictTally
  pub sell : VerdictTally
  pub pending : ℕ
