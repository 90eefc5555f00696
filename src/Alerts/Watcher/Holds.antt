-- ===== src/Alerts/Watcher/Holds.antt =====
-- A message whose state could not be saved is held, and not sent again
-- (holdAfterUnrecordedSend and notify of src/price-alerts/price-alerts-monitor.service.ts).
use crypto_zalo_bot.Base.{ℕ, Option}
use crypto_zalo_bot.Base.Int.{ℤ}
use crypto_zalo_bot.Alerts.{OutageSignal, MonitorAction}

-- Two attempts at one notice: about the same outage, or the same last run of the watcher. A later
-- attempt has another duration, and an alarm may have become a reminder.
pub data IsRetry : MonitorAction → MonitorAction → Type 0 where
  down_again :
      (since : ℕ) {last last' : Option ℕ} {d d' : ℤ} {signal signal' : OutageSignal}
      → IsRetry (MonitorAction.down last since d signal) (MonitorAction.down last' since d' signal')
  reminder_again :
      (since : ℕ) {last last' : Option ℕ} {d d' : ℤ} {signal signal' : OutageSignal}
      → IsRetry
          (MonitorAction.reminder last since d signal)
          (MonitorAction.reminder last' since d' signal')
  recovered_again :
      (since : ℕ) {at at' : ℕ} {d d' : ℤ}
      → IsRetry (MonitorAction.recovered since at d) (MonitorAction.recovered since at' d')
  watcher_down_again :
      (last : ℕ) {d d' : ℤ}
      → IsRetry (MonitorAction.watcher_down last d) (MonitorAction.watcher_down last d')
  watcher_recovered_again :
      (since : ℕ) {at at' : ℕ} {d d' : ℤ}
      → IsRetry
          (MonitorAction.watcher_recovered since at d)
          (MonitorAction.watcher_recovered since at' d')
