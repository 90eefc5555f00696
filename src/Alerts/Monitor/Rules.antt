-- ===== src/Alerts/Monitor/Rules.antt =====
-- When the owner is told about the check's silence, and what is stored.
use crypto_zalo_bot.Base.{
  ℕ, ◌+◌, ◌≤◌, ◌≡◌, refl, ◌↔◌, inl, inr, subst, sym, Option, none, some, List, arith, ltb, or_else,
  Bool-cases,
}
use crypto_zalo_bot.Alerts.{
  AlertRunSummary, OutageState, MonitorState, MonitorAction, outage_threshold_ms,
}
use crypto_zalo_bot.Alerts.Monitor.{
  latest_healthy_at, later, alarm, recover, watch_silence, monitor_from, base_state,
  evaluate_monitor,
}
use crypto_zalo_bot.Alerts.Monitor.Runs.{HasHealthyAt, IsAtMost, latest_healthy_at-IsLatest}

-- "down" or "reminder".
abbrev pub IsAlarm : Option MonitorAction → Type 0
IsAlarm (some (MonitorAction.down _ _ _ _)) = Unit
IsAlarm (some (MonitorAction.reminder _ _ _ _)) = Unit
IsAlarm _ = ⊥

-- The instant, if there is one, is at least the outage threshold ago.
abbrev pub IsLongAgo : ℕ → Option ℕ → Type 0
IsLongAgo now none = Unit
IsLongAgo now (some t) = t + outage_threshold_ms ≤ now

later-bounds :
    (a b : Option ℕ) (start now : ℕ)
    → or_else (later (later a b) (some start)) start + outage_threshold_ms ≤ now
    → IsLongAgo now a × IsLongAgo now b × IsLongAgo now (some start)
unfolding later
later-bounds none none start now h = ground arith
later-bounds none (some b) start now h = ground arith
later-bounds (some a) none start now h = ground arith
later-bounds (some a) (some b) start now h = ground arith

module _ (runs : List AlertRunSummary) (now : ℕ) (rejected_since : ℕ → ℕ) where
  watch_silence-alarm :
      (base : MonitorState) (outage : Option OutageState)
      → IsAlarm (watch_silence runs now rejected_since base outage).action
      → or_else (later base.last_healthy_at (some base.watcher_started_at)) base.watcher_started_at
          + outage_threshold_ms
        ≤ now
  unfolding watch_silence alarm
  watch_silence-alarm base outage h =
      elim (Bool-cases (
        ltb now (
          or_else (later base.last_healthy_at (some base.watcher_started_at))
            base.watcher_started_at
          + outage_threshold_ms))) [ inl early ↦ absurd (rw early at h) | inr late ↦ ground arith ]

  recover-IsAlarm :
      (base : MonitorState) (o : OutageState) (healthy : ℕ) (t : Option ℕ)
      → ¬ IsAlarm (recover runs now rejected_since base o healthy t).action
  unfolding recover
  recover-IsAlarm base o healthy none h = h
  recover-IsAlarm base o healthy (some t) h = h

  monitor_from-alarm :
      (base : MonitorState) (outage : Option OutageState) (healthy : Option ℕ)
      → IsAlarm (monitor_from runs now rejected_since base outage healthy).action
      → or_else (later base.last_healthy_at (some base.watcher_started_at)) base.watcher_started_at
          + outage_threshold_ms
        ≤ now
  unfolding monitor_from
  monitor_from-alarm base none none h = watch_silence-alarm base none h
  monitor_from-alarm base none (some healthy) h = watch_silence-alarm base none h
  monitor_from-alarm base (some o) none h = watch_silence-alarm base (some o) h
  monitor_from-alarm base (some o) (some healthy) h = elim (Bool-cases (ltb o.since healthy)) [
    | inl ended ↦ absurd (recover-IsAlarm base o healthy o.notified_at (rw ended at h))
    | inr lasting ↦ watch_silence-alarm base (some o) (rw lasting at h)
  ]

  IsLongAgo-trans :
      (t : ℕ) (o : Option ℕ) → IsAtMost t o → IsLongAgo now o → t + outage_threshold_ms ≤ now
  IsLongAgo-trans t none h k = elim h [ ]
  IsLongAgo-trans t (some l) h k = omega arith

  -- The owner is told that the check is down only when the last healthy run, whether in the stored
  -- state or anywhere in the run log, and the watcher's own first run are all at least 15 minutes ago.
  evaluate_monitor-alarm_late :
      (s : MonitorState)
      → IsAlarm (evaluate_monitor runs now rejected_since (some s)).action
      → IsLongAgo now s.last_healthy_at
        × ((t : ℕ) → HasHealthyAt runs t → t + outage_threshold_ms ≤ now)
        × (s.watcher_started_at + outage_threshold_ms ≤ now)
  unfolding evaluate_monitor
  evaluate_monitor-alarm_late s h =
      let base = base_state runs now rejected_since (some s) in
      let (a, b, c) =
        later-bounds s.last_healthy_at (latest_healthy_at runs) s.watcher_started_at now
          (monitor_from-alarm base base.outage base.last_healthy_at h) in
      (
        a,
        λ t m.
            IsLongAgo-trans t (latest_healthy_at runs)
              ((latest_healthy_at-IsLatest runs).greatest t m) b,
        c,
      )

  later-late :
      (a b : Option ℕ) (start : ℕ)
      → IsLongAgo now a
      → IsLongAgo now b
      → IsLongAgo now (some start)
      → or_else (later (later a b) (some start)) start + outage_threshold_ms ≤ now
  unfolding later
  later-late none none start h k l = ground arith
  later-late none (some b) start h k l = ground arith
  later-late (some a) none start h k l = ground arith
  later-late (some a) (some b) start h k l = ground arith

  IsLongAgo-latest :
      (o : Option ℕ) → ((t : ℕ) → o ≡ some t → t + outage_threshold_ms ≤ now) → IsLongAgo now o
  IsLongAgo-latest none h = tt
  IsLongAgo-latest (some l) h = h l refl

  silence-IsAlarm :
      (base : MonitorState)
      → or_else (later base.last_healthy_at (some base.watcher_started_at)) base.watcher_started_at
          + outage_threshold_ms
        ≤ now
      → IsAlarm (watch_silence runs now rejected_since base none).action
  unfolding watch_silence alarm
  silence-IsAlarm base h = ground arith

  monitor_from-silence :
      (base : MonitorState) (healthy : Option ℕ)
      → IsAlarm (watch_silence runs now rejected_since base none).action
      → IsAlarm (monitor_from runs now rejected_since base none healthy).action
  unfolding monitor_from
  monitor_from-silence base none h = h
  monitor_from-silence base (some t) h = h

  -- With no outage on record the owner is told if and only if the last healthy run, stored or in the
  -- run log, and the watcher's first run are all at least 15 minutes ago.
  pub evaluate_monitor-IsAlarm_iff :
      (s : MonitorState)
      → s.outage ≡ none
      → IsAlarm (evaluate_monitor runs now rejected_since (some s)).action ↔ (
          IsLongAgo now s.last_healthy_at
          × ((t : ℕ) → HasHealthyAt runs t → t + outage_threshold_ms ≤ now)
          × (s.watcher_started_at + outage_threshold_ms ≤ now))
  unfolding evaluate_monitor
  evaluate_monitor-IsAlarm_iff s e = (
    evaluate_monitor-alarm_late s,
    λ (a, b, c).
        let base = base_state runs now rejected_since (some s) in
        let newest =
          IsLongAgo-latest (latest_healthy_at runs)
            (λ t m. b t ((latest_healthy_at-IsLatest runs).attained t m)) in
        let late =
          later-late s.last_healthy_at (latest_healthy_at runs) s.watcher_started_at a newest c in
        subst
          (λ o. IsAlarm (monitor_from runs now rejected_since base o base.last_healthy_at).action)
          (sym e) (monitor_from-silence base base.last_healthy_at (silence-IsAlarm base late)),
  )
