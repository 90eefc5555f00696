-- ===== src/Alerts/Monitor.antt =====
-- The monitoring rules (src/price-alerts/price-alert-monitor.ts): when the owner is told that the
-- check, or its watcher, has been silent. Stored times are instants that this program wrote; the run
-- log's start may be no date (`none`), which every comparison reads as false.
pub mod Runs
pub mod Rules
pub mod Notices
use crypto_zalo_bot.Base.{
  ℕ, ◌+◌, ◌≤◌, Bool, true, false, not, ◌&&◌, ◌||◌, Option, none, some, List, [], ◌∷◌, ltb, leb,
  or_else, if◌then◌else◌,
}
use crypto_zalo_bot.Base.Int.{ℤ, sub_ℕ}
use crypto_zalo_bot.Alerts.{
  RunOutcome, AlertRunSummary, OutageSignal, OutageState, MonitorState, WatchdogState,
  MonitorAction, MonitorDecision, outage_threshold_ms, outage_reminder_ms, watcher_silence_ms,
}

-- A run with no outcome was logged before there were outcomes, and is read as healthy.
unfoldable pub is_healthy_run : AlertRunSummary → Bool
is_healthy_run run = elim (or_else run.outcome RunOutcome.healthy) [
  | RunOutcome.healthy ↦ true
  | _ ↦ false
]

-- One round of each loop: the best start so far, and the next run.
latest_step : Option ℕ → Bool → Option ℕ → Option ℕ
latest_step latest true (some at) = elim latest [
  | none ↦ some at
  | some l ↦ if ltb l at then some at else some l
]
latest_step latest _ _ = latest

latest_from : Option ℕ → List AlertRunSummary → Option ℕ
latest_from latest [] = latest
latest_from latest (run ∷ runs) =
    latest_from (latest_step latest (is_healthy_run run) run.started_at) runs

unfoldable pub latest_healthy_at : List AlertRunSummary → Option ℕ
unfolding latest_from latest_step is_healthy_run
latest_healthy_at runs = latest_from none runs

first_step : ℕ → Option ℕ → Bool → Option ℕ → Option ℕ
first_step since first true (some at) =
    if ltb since at
    then elim first [ none ↦ some at | some f ↦ if ltb at f then some at else some f ]
    else first
first_step since first _ _ = first

first_from : ℕ → Option ℕ → List AlertRunSummary → Option ℕ
first_from since first [] = first
first_from since first (run ∷ runs) =
    first_from since (first_step since first (is_healthy_run run) run.started_at) runs

unfoldable pub first_healthy_after : List AlertRunSummary → ℕ → Option ℕ
unfolding first_from first_step is_healthy_run
first_healthy_after runs since = first_from since none runs

abbrev increment : Option ℕ → Option ℕ
increment count = some (or_else count 0 + 1)

abbrev starts_after : Option ℕ → ℕ → Bool
starts_after none since = false
starts_after (some at) since = ltb since at

add_signal : RunOutcome → OutageSignal → OutageSignal
add_signal RunOutcome.healthy signal = signal
add_signal RunOutcome.no_price signal = record signal { no_price = increment signal.no_price }
add_signal RunOutcome.failed signal = record signal { failed = increment signal.failed }
add_signal RunOutcome.skipped signal = record signal { skipped = increment signal.skipped }

classify_from : ℕ → OutageSignal → List AlertRunSummary → OutageSignal
classify_from since signal [] = signal
classify_from since signal (run ∷ runs) =
    classify_from since
      (if is_healthy_run run || not (starts_after run.started_at since)
        then signal
        else add_signal (or_else run.outcome RunOutcome.healthy) signal)
      runs

abbrev no_signal : OutageSignal
no_signal = record { rejected = none; no_price = none; failed = none; skipped = none }

unfoldable pub classify_signal : List AlertRunSummary → ℕ → ℕ → OutageSignal
unfolding classify_from add_signal is_healthy_run
classify_signal runs since rejected_count =
    let signal = classify_from since no_signal runs in
    if ltb 0 rejected_count then record signal { rejected = some rejected_count } else signal

unfoldable pub later : Option ℕ → Option ℕ → Option ℕ
later none b = b
later (some a) none = some a
later (some a) (some b) = if leb b a then some a else some b

abbrev pub silent : {S : Type 0} → S → MonitorDecision S
silent next = record { action = none; on_sent = next; on_not_sent = next }

-- `now - t < window`, for the silence and the reminder.
abbrev pub is_within : ℕ → ℕ → ℕ → Bool
is_within now t window = ltb now (t + window)

-- The first message about an outage is "down", the later ones are reminders.
abbrev alarm_action : Option ℕ → Option ℕ → ℕ → ℤ → OutageSignal → MonitorAction
alarm_action none = MonitorAction.down
alarm_action (some _) = MonitorAction.reminder

abbrev is_due : ℕ → Option ℕ → Bool
is_due now none = true
is_due now (some notified) = not (is_within now notified outage_reminder_ms)

module _ (recent_runs : List AlertRunSummary) (now : ℕ) (rejected_since : ℕ → ℕ) where
  -- The outage `o` of the state `base` has ended, with the newest healthy run at `healthy`.
  recover : MonitorState → OutageState → ℕ → Option ℕ → MonitorDecision MonitorState
  recover base o healthy none = silent (record base { outage = none })
  recover base o healthy (some _) =
      let recovered_at = or_else (first_healthy_after recent_runs o.since) healthy in
      record {
        action = some (MonitorAction.recovered o.since recovered_at (sub_ℕ recovered_at o.since));
        on_sent = record base { outage = none };
        on_not_sent = base;
      }

  -- The text that is due about the outage `current`, if one is.
  alarm : MonitorState → OutageState → Bool → MonitorDecision MonitorState
  alarm base current false = silent (record base { outage = some current })
  alarm base current true =
      let since = current.since in
      let signal = classify_signal recent_runs since (rejected_since since) in
      record {
        action =
            some (
              alarm_action current.notified_at base.last_healthy_at since (sub_ℕ now since) signal);
        on_sent = record base { outage = some (record current { notified_at = some now }) };
        on_not_sent = record base { outage = some current };
      }

  -- No outage has ended: the silence since the last healthy run, or since the watcher's start.
  watch_silence : MonitorState → Option OutageState → MonitorDecision MonitorState
  watch_silence base outage =
      let since =
        or_else (later base.last_healthy_at (some base.watcher_started_at))
          base.watcher_started_at in
      let current = or_else outage (record { since = since; notified_at = none }) in
      if is_within now since outage_threshold_ms
      then silent (record base { outage = none })
      else alarm base current (is_due now current.notified_at)

  monitor_from : MonitorState → Option OutageState → Option ℕ → MonitorDecision MonitorState
  monitor_from base (some o) (some healthy) =
      if ltb o.since healthy
      then recover base o healthy o.notified_at
      else watch_silence base (some o)
  monitor_from base outage _ = watch_silence base outage

  -- The state that a run builds on: the stored one with the newest healthy run and this run's time.
  base_state : Option MonitorState → MonitorState
  base_state none = record {
    watcher_started_at = now;
    last_watcher_run_at = now;
    last_healthy_at = later none (latest_healthy_at recent_runs);
    outage = none;
    owner_chat_configured = none;
  }
  base_state (some state) = record {
    watcher_started_at = state.watcher_started_at;
    last_watcher_run_at = now;
    last_healthy_at = later state.last_healthy_at (latest_healthy_at recent_runs);
    outage = state.outage;
    owner_chat_configured = none;
  }

  unfoldable pub evaluate_monitor : Option MonitorState → MonitorDecision MonitorState
  unfolding base_state monitor_from watch_silence alarm recover later
  evaluate_monitor state =
      let base = base_state state in monitor_from base base.outage base.last_healthy_at

-- The check's look at the watcher. A watcher that never ran is no outage.
watchdog_alarm : OutageState → ℕ → ℕ → Bool → MonitorDecision WatchdogState
watchdog_alarm current last_run now false = silent (record { outage = some current })
watchdog_alarm current last_run now true = record {
  action = some (MonitorAction.watcher_down last_run (sub_ℕ now last_run));
  on_sent = record { outage = some (record current { notified_at = some now }) };
  on_not_sent = record { outage = some current };
}

watchdog_silence : Option OutageState → ℕ → ℕ → MonitorDecision WatchdogState
watchdog_silence outage last_run now =
    let current = or_else outage (record { since = last_run; notified_at = none }) in
    if is_within now last_run watcher_silence_ms
    then silent (record { outage = none })
    else watchdog_alarm current last_run now (is_due now current.notified_at)

watchdog_recover : OutageState → ℕ → Option ℕ → MonitorDecision WatchdogState
watchdog_recover o last_run none = silent (record { outage = none })
watchdog_recover o last_run (some _) = record {
  action = some (MonitorAction.watcher_recovered o.since last_run (sub_ℕ last_run o.since));
  on_sent = record { outage = none };
  on_not_sent = record { outage = some o };
}

watchdog_from : Option OutageState → Option ℕ → ℕ → MonitorDecision WatchdogState
watchdog_from outage none now = silent (record { outage = none })
watchdog_from none (some last_run) now = watchdog_silence none last_run now
watchdog_from (some o) (some last_run) now =
    if ltb o.since last_run
    then watchdog_recover o last_run o.notified_at
    else watchdog_silence (some o) last_run now

abbrev outage_of : Option WatchdogState → Option OutageState
outage_of none = none
outage_of (some s) = s.outage

unfoldable pub evaluate_watchdog :
    Option WatchdogState → Option ℕ → ℕ → MonitorDecision WatchdogState
unfolding watchdog_from watchdog_recover watchdog_silence watchdog_alarm
evaluate_watchdog state last_watcher_run_at now =
    watchdog_from (outage_of state) last_watcher_run_at now
