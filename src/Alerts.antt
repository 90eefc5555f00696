-- ===== src/Alerts.antt =====
-- Price alerts (src/price-alerts): the records of interfaces/price-alert.interface.ts and the limits
-- of price-alerts.constants.ts. An instant, a `Date` or an ISO text in the source, is its epoch
-- milliseconds; a field that may be absent or null is an `Option`.
pub mod Evaluator
pub mod Check
pub mod Monitor
pub mod Watcher
pub mod Store
mod Tests
use crypto_zalo_bot.Base.{ℕ, ◌+◌, ◌*◌, Bool, Option, Text}
use crypto_zalo_bot.Base.Int.{ℤ}

pub data AlertDirection : Type 0 where
  above below : AlertDirection

pub data AlertState : Type 0 where
  armed fired : AlertState

pub record PriceAlert (F : Type 0) : Type 0 where
  pub id : ℕ
  pub chat_id : Text
  pub symbol : Text
  pub direction : AlertDirection
  pub threshold : F
  pub state : AlertState
  pub last_fired_at : Option ℕ
  pub last_failed_at : Option ℕ
  pub consecutive_failures : Option ℕ
  pub created_at : ℕ

pub record AlertDelivery (F : Type 0) : Type 0 where
  pub alert_id : ℕ
  pub chat_id : Text
  pub symbol : Text
  pub direction : AlertDirection
  pub threshold : F
  pub price_usd : F
  pub delivered : Bool
  pub attempted_at : ℕ

pub data RunOutcome : Type 0 where
  healthy no_price failed skipped : RunOutcome

-- `started_at` is `none` where the stored text is no date, which the monitor's rules allow for.
pub record AlertRunSummary : Type 0 where
  pub started_at : Option ℕ
  pub outcome : Option RunOutcome
  pub evaluated : ℕ
  pub fired : ℕ
  pub failed : ℕ
  pub rearmed : ℕ
  pub deferred : ℕ
  pub duration_ms : ℤ
  pub drift_ms : ℤ

abbrev pub max_alerts_per_chat : ℕ
max_alerts_per_chat = 10

abbrev pub alert_cooldown_ms : ℕ
alert_cooldown_ms = 15 * 60_000

abbrev pub alert_failures_before_backoff : ℕ
alert_failures_before_backoff = 3

abbrev pub alert_retry_backoff_ms : ℕ
alert_retry_backoff_ms = 5 * 60_000

abbrev pub run_send_budget_ms : ℕ
run_send_budget_ms = 6_000

abbrev pub watchdog_check_every_minutes : ℕ
watchdog_check_every_minutes = 5

abbrev pub outage_threshold_ms : ℕ
outage_threshold_ms = 15 * 60_000

abbrev pub outage_reminder_ms : ℕ
outage_reminder_ms = 6 * 60 * 60_000

abbrev pub watcher_silence_ms : ℕ
watcher_silence_ms = 30 * 60_000

-- Counts per kind of what was seen in an outage; a kind that was not seen is absent.
pub record OutageSignal : Type 0 where
  pub rejected : Option ℕ
  pub no_price : Option ℕ
  pub failed : Option ℕ
  pub skipped : Option ℕ

pub record OutageState : Type 0 where
  pub since : ℕ
  pub notified_at : Option ℕ

pub record MonitorState : Type 0 where
  pub watcher_started_at : ℕ
  pub last_watcher_run_at : ℕ
  pub last_healthy_at : Option ℕ
  pub outage : Option OutageState
  pub owner_chat_configured : Option Bool

pub record WatchdogState : Type 0 where
  pub outage : Option OutageState

pub data MonitorAction : Type 0 where
  down reminder :
      (last_healthy_at : Option ℕ) (since : ℕ) (down_for_ms : ℤ) (signal : OutageSignal)
      → MonitorAction
  recovered : (since recovered_at : ℕ) (down_for_ms : ℤ) → MonitorAction
  watcher_down : (last_watcher_run_at : ℕ) (silent_for_ms : ℤ) → MonitorAction
  watcher_recovered : (since recovered_at : ℕ) (silent_for_ms : ℤ) → MonitorAction

-- What to send, and the state to store when it was delivered and when it was not.
pub record MonitorDecision (S : Type 0) : Type 0 where
  pub action : Option MonitorAction
  pub on_sent : S
  pub on_not_sent : S

abbrev pub state_unreadable_notice_ms : ℕ
state_unreadable_notice_ms = 60 * 60_000

abbrev pub watcher_state_stale_ms : ℕ
watcher_state_stale_ms = 450_000

-- The kinds of message that are held apart.
pub data NoticeHoldKind : Type 0 where
  outage_hold recovered_hold watcher_down_hold watcher_recovered_hold state_unreadable_hold :
      NoticeHoldKind

pub record NoticeHold : Type 0 where
  pub at : ℕ
  pub since : Option ℕ
