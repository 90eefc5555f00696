-- ===== src/Signals/Monitor.antt =====
-- The alarm on a silent signals check (evaluateSignalsMonitor of src/signals/signals-monitor.ts).
-- An instant is its epoch milliseconds; no instant is later than the time of the call.
use crypto_zalo_bot.Base.{
  ℕ, ◌+◌, ◌-◌, ◌<◌, ◌≤◌, ◌≡◌, refl, false, Option, none, some, ltb, leb, if◌then◌else◌, arith, inl,
  inr, Bool-cases,
}
use crypto_zalo_bot.Signals.{
  SignalsOutage, SignalsMonitorAction, outage_down, reminder, recovered, signals_stale_ms,
  signals_reminder_ms,
}

-- The answer while the check works, and while it is silent.
unfoldable pub when_healthy : ℕ → Option SignalsOutage → Option SignalsMonitorAction
when_healthy last none = none
when_healthy last (some outage) = some (recovered outage.since last (last - outage.since))

unfoldable pub when_silent : ℕ → Option SignalsOutage → ℕ → Option SignalsMonitorAction
when_silent last none time = some (outage_down last (time - last))
when_silent last (some outage) time =
    if leb signals_reminder_ms (time - outage.notified_at)
    then some (reminder outage.since last (time - last))
    else none

unfoldable pub evaluate_signals_monitor :
    Option ℕ → Option SignalsOutage → ℕ → Option SignalsMonitorAction
evaluate_signals_monitor none outage time = none
evaluate_signals_monitor (some last) outage time =
    if ltb (time - last) signals_stale_ms
    then when_healthy last outage
    else when_silent last outage time

-- What the owner was told, after the action.
abbrev pub outage_after :
    Option SignalsOutage → Option SignalsMonitorAction → ℕ → Option SignalsOutage
outage_after outage none time = outage
outage_after outage (some (outage_down last silent)) time =
    some (record { since = last; notified_at = time })
outage_after outage (some (reminder since last silent)) time =
    some (record { since = since; notified_at = time })
outage_after outage (some (recovered since at down)) time = none

-- The instants at which an action is sent when the check runs its rule at `time` and then at `later`,
-- with the same last healthy run and no other.
abbrev pub IsQuiet : ℕ → Option SignalsOutage → ℕ → ℕ → Type 0
IsQuiet last outage time later =
    evaluate_signals_monitor (some last)
      (outage_after outage (evaluate_signals_monitor (some last) outage time) time) later
    ≡ none

-- After the owner was messaged at `time`, the rule stays quiet on the same silence until the reminder
-- interval has passed.
pub evaluate_signals_monitor-IsQuiet :
    (last : ℕ) (outage : Option SignalsOutage) (time later : ℕ) (action : SignalsMonitorAction)
    → evaluate_signals_monitor (some last) outage time ≡ some action
    → last + signals_stale_ms ≤ time
    → time ≤ later
    → later < time + signals_reminder_ms
    → IsQuiet last outage time later
unfolding evaluate_signals_monitor when_silent when_healthy
evaluate_signals_monitor-IsQuiet last none time later action said silent after soon =
    let stale : ltb (time - last) signals_stale_ms ≡ false = ground arith in
    let still : ltb (later - last) signals_stale_ms ≡ false = ground arith in
    let recent : leb signals_reminder_ms (later - time) ≡ false = ground arith in
    rw (stale, still, recent) refl
evaluate_signals_monitor-IsQuiet last (some outage) time later action said silent after soon =
    let stale : ltb (time - last) signals_stale_ms ≡ false = ground arith in
    let still : ltb (later - last) signals_stale_ms ≡ false = ground arith in
    let recent : leb signals_reminder_ms (later - time) ≡ false = ground arith in
    elim (Bool-cases (leb signals_reminder_ms (time - outage.notified_at))) [
      | inl due ↦ rw (stale, due, still, recent) refl
      | inr early ↦ absurd (cc (rw (stale, early) at said))
    ]
