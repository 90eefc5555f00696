-- ===== src/Alerts/Monitor/Notices.antt =====
-- What a watcher run stores of the owner's messages: reminders, and the end of an outage.
use crypto_zalo_bot.Base.{
  ℕ, ◌+◌, ◌≤◌, ◌<◌, ◌≡◌, refl, ◌⊎◌, inl, inr, subst, sym, lt→ltb, Bool, true, false, Option, none,
  some, List, arith, ltb, leb, or_else, Bool-cases,
}
use crypto_zalo_bot.Base.Int.{sub_ℕ}
use crypto_zalo_bot.Alerts.{
  AlertRunSummary, OutageState, MonitorState, MonitorAction, MonitorDecision, outage_threshold_ms,
  outage_reminder_ms,
}
use crypto_zalo_bot.Alerts.Monitor.{
  latest_healthy_at, first_healthy_after, later, is_due, is_within, alarm, recover, watch_silence,
  monitor_from, base_state, evaluate_monitor,
}
use crypto_zalo_bot.Alerts.Monitor.Rules.{IsAlarm}
use crypto_zalo_bot.Alerts.Monitor.Runs.{
  HasHealthyAt, IsAtMost, IsFirstAfter, latest_healthy_at-IsLatest,
  first_healthy_after-IsFirstAfter,
}

-- When the owner was told of the outage on record, if there is one.
abbrev pub notified : Option OutageState → Option ℕ
notified none = none
notified (some o) = o.notified_at

module _ (runs : List AlertRunSummary) (now : ℕ) (rejected_since : ℕ → ℕ) where
  -- What every decision on an outage `outage` stores: without a delivery no message is put on record,
  -- and an alarm that was delivered is put on record as of now, at least six hours after the one
  -- before it.
  pub record IsRecorded (outage : Option OutageState) (d : MonitorDecision MonitorState)
      : Type 0 where
    pub unsent : (t : ℕ) → notified d.on_not_sent.outage ≡ some t → notified outage ≡ some t
    pub quiet : d.action ≡ none → d.on_sent ≡ d.on_not_sent
    pub told : IsAlarm d.action → notified d.on_sent.outage ≡ some now
    pub spaced :
        (t : ℕ) → IsAlarm d.action → notified outage ≡ some t → t + outage_reminder_ms ≤ now

  alarm-IsRecorded :
      (base : MonitorState) (current : OutageState) (outage : Option OutageState) (b : Bool)
      → ((t : ℕ) → current.notified_at ≡ some t → notified outage ≡ some t)
      → ((t : ℕ) → b ≡ true → notified outage ≡ some t → t + outage_reminder_ms ≤ now)
      → IsRecorded outage (alarm runs now rejected_since base current b)
  unfolding alarm
  alarm-IsRecorded base current outage false same due = record {
    unsent = same;
    quiet = λ _. refl;
    told = λ h. absurd h;
    spaced = λ t h. absurd h;
  }
  alarm-IsRecorded base current outage true same due = record {
    unsent = same;
    quiet = λ e. absurd (cc e);
    told = λ _. refl;
    spaced = λ t h. due t refl;
  }

  silent-IsRecorded :
      (outage : Option OutageState) (next : MonitorState)
      → next.outage ≡ none
      → IsRecorded outage (record { action = none; on_sent = next; on_not_sent = next })
  silent-IsRecorded outage next e = record {
    unsent = λ t h. absurd (cc (rw e at h));
    quiet = λ _. refl;
    told = λ h. absurd h;
    spaced = λ t h. absurd h;
  }

  is_due-spaced :
      (o : Option ℕ) (t : ℕ) → is_due now o ≡ true → o ≡ some t → t + outage_reminder_ms ≤ now
  is_due-spaced none t h e = cc
  is_due-spaced (some t') t h e = ground arith

  watch_silence-IsRecorded :
      (base : MonitorState) (outage : Option OutageState)
      → IsRecorded outage (watch_silence runs now rejected_since base outage)
  unfolding watch_silence
  watch_silence-IsRecorded base outage =
      elim (Bool-cases (
        is_within now
          (or_else (later base.last_healthy_at (some base.watcher_started_at))
            base.watcher_started_at)
          outage_threshold_ms)) [
            | inl early ↦ rw early (silent-IsRecorded outage _ refl)
            | inr late ↦ rw late (overdue base outage)
          ]
    where
      overdue :
          (base : MonitorState) (outage : Option OutageState)
          → let current = or_else outage (record {
            since =
                or_else
                  (later base.last_healthy_at (some base.watcher_started_at))
                  base.watcher_started_at;
            notified_at = none;
          }) in
            IsRecorded outage
              (alarm runs now rejected_since base current (is_due now current.notified_at))
      overdue base none =
          alarm-IsRecorded base _ none _ (λ t e. absurd (cc e)) (λ t h e. absurd (cc e))
      overdue base (some o) =
          alarm-IsRecorded base o (some o) _ (λ t e. e) (λ t h e. is_due-spaced o.notified_at t h e)

  recover-IsRecorded :
      (base : MonitorState) (o : OutageState) (healthy : ℕ) (t : Option ℕ)
      → o.notified_at ≡ t
      → base.outage ≡ some o
      → IsRecorded (some o) (recover runs now rejected_since base o healthy t)
  unfolding recover
  recover-IsRecorded base o healthy none e b = silent-IsRecorded (some o) _ refl
  recover-IsRecorded base o healthy (some t) e b = record {
    unsent = λ t' h. subst (λ x. notified x ≡ some t') b h;
    quiet = λ e'. absurd (cc e');
    told = λ h. absurd h;
    spaced = λ t' h. absurd h;
  }

  monitor_from-IsRecorded :
      (base : MonitorState) (outage : Option OutageState) (healthy : Option ℕ)
      → base.outage ≡ outage
      → IsRecorded outage (monitor_from runs now rejected_since base outage healthy)
  unfolding monitor_from
  monitor_from-IsRecorded base none none e = watch_silence-IsRecorded base none
  monitor_from-IsRecorded base none (some healthy) e = watch_silence-IsRecorded base none
  monitor_from-IsRecorded base (some o) none e = watch_silence-IsRecorded base (some o)
  monitor_from-IsRecorded base (some o) (some healthy) e = elim (Bool-cases (ltb o.since healthy)) [
    | inl ended ↦ rw ended (recover-IsRecorded base o healthy o.notified_at refl e)
    | inr lasting ↦ rw lasting (watch_silence-IsRecorded base (some o))
  ]

  -- Every watcher run keeps the record of messages honest. Without a delivery it puts no message on
  -- record that was not there; where nothing is due, both states to store are the same; a delivered
  -- alarm is recorded as of now; and an alarm about an outage on record comes at least six hours after
  -- the message on record.
  pub evaluate_monitor-IsRecorded :
      (s : MonitorState) → IsRecorded s.outage (evaluate_monitor runs now rejected_since (some s))
  unfolding evaluate_monitor
  evaluate_monitor-IsRecorded s =
      monitor_from-IsRecorded (base_state runs now rejected_since (some s)) s.outage _ refl

  -- The end of the outage `o`, dated `at`: the owner is told if he was told of the outage, and then a
  -- failed message keeps the outage for the next run; otherwise it ends with no message.
  pub record IsRecovery (o : OutageState) (at : ℕ) (d : MonitorDecision MonitorState) : Type 0 where
    pub cleared : d.on_sent.outage ≡ none
    pub announced :
        (t : ℕ)
        → o.notified_at ≡ some t
        → (d.action ≡ some (MonitorAction.recovered o.since at (sub_ℕ at o.since)))
          × (d.on_not_sent.outage ≡ some o)
    pub unnoticed : o.notified_at ≡ none → (d.action ≡ none) × (d.on_not_sent.outage ≡ none)

  recover-IsRecovery :
      (base : MonitorState) (o : OutageState) (healthy : ℕ) (t : Option ℕ)
      → o.notified_at ≡ t
      → base.outage ≡ some o
      → IsRecovery o
          (or_else (first_healthy_after runs o.since) healthy)
          (recover runs now rejected_since base o healthy t)
  unfolding recover
  recover-IsRecovery base o healthy none e b = record {
    cleared = refl;
    announced = λ t e'. absurd (cc (e, e'));
    unnoticed = λ _. (refl, refl);
  }
  recover-IsRecovery base o healthy (some t) e b = record {
    cleared = refl;
    announced = λ t' e'. (refl, b);
    unnoticed = λ e'. absurd (cc (e, e'));
  }

  ended-IsRecovery :
      (base : MonitorState) (o : OutageState) (healthy : ℕ)
      → base.outage ≡ some o
      → o.since < healthy
      → IsRecovery o
          (or_else (first_healthy_after runs o.since) healthy)
          (monitor_from runs now rejected_since base (some o) (some healthy))
  unfolding monitor_from
  ended-IsRecovery base o healthy e lt =
      rw (lt→ltb _ _ lt) (recover-IsRecovery base o healthy o.notified_at refl e)

  -- When an outage that began at `since` ended: with the first healthy run of the log after that, or,
  -- where the log has none, with the healthy run that the state remembers.
  abbrev pub IsEnd : MonitorState → ℕ → ℕ → Type 0
  IsEnd s since at =
      ((since < at) × HasHealthyAt runs at × ((t : ℕ) → since < t → HasHealthyAt runs t → at ≤ t))
      ⊎ ((s.last_healthy_at ≡ some at) × ((t : ℕ) → since < t → ¬ HasHealthyAt runs t))

  later-cases : (a b : Option ℕ) (t : ℕ) → later a b ≡ some t → (a ≡ some t) ⊎ (b ≡ some t)
  unfolding later
  later-cases none b t e = inr e
  later-cases (some a) none t e = inl e
  later-cases (some a) (some b) t e = ground arith

  -- The later of the two is there, and no earlier than each.
  later-reaches :
      (a b : Option ℕ) (t : ℕ)
      → (a ≡ some t) ⊎ IsAtMost t b
      → (l : ℕ) × (later a b ≡ some l) × (t ≤ l)
  unfolding later
  later-reaches none none t (inl e) = absurd (cc e)
  later-reaches none none t (inr h) = absurd h
  later-reaches none (some b) t (inl e) = absurd (cc e)
  later-reaches none (some b) t (inr h) = (b, refl, h)
  later-reaches (some a) none t (inl e) = (a, refl, ground arith)
  later-reaches (some a) none t (inr h) = absurd h
  later-reaches (some a) (some b) t h = elim (Bool-cases (leb b a)) [
    | inl e ↦ (a, rw e refl, elim h [ inl o ↦ ground arith | inr l ↦ ground arith ])
    | inr e ↦ (b, rw e refl, elim h [ inl o ↦ ground arith | inr l ↦ ground arith ])
  ]

  remembered :
      (s : MonitorState) (since healthy : ℕ)
      → later s.last_healthy_at (latest_healthy_at runs) ≡ some healthy
      → since < healthy
      → ((t : ℕ) → since < t → ¬ HasHealthyAt runs t)
      → s.last_healthy_at ≡ some healthy
  remembered s since healthy h lt no_run =
      elim (later-cases s.last_healthy_at (latest_healthy_at runs) healthy h) [
        | inl e ↦ e
        | inr e ↦ absurd (no_run healthy lt ((latest_healthy_at-IsLatest runs).attained healthy e))
      ]

  ended_at-IsEnd :
      (s : MonitorState) (since healthy : ℕ) (o : Option ℕ)
      → IsFirstAfter since runs o
      → later s.last_healthy_at (latest_healthy_at runs) ≡ some healthy
      → since < healthy
      → IsEnd s since (or_else o healthy)
  ended_at-IsEnd s since healthy none first h lt =
      let no_run : (t : ℕ) → since < t → ¬ HasHealthyAt runs t = λ t l r. first.least t l r in
      inr (remembered s since healthy h lt no_run, no_run)
  ended_at-IsEnd s since healthy (some at) first h lt =
      let (l, r) = first.attained at refl in inl (l, r, first.least)

  -- An outage on record is over once a healthy run came after its start, in the log or remembered in the
  -- state. If the owner was told of it, the recovery is announced, dated by the first healthy run of
  -- the log after the outage's start, or else by the one that the state remembers; a delivery clears
  -- the outage and a failure keeps it for the next run. If the owner was never told, it ends with no
  -- message.
  pub evaluate_monitor-IsRecovery :
      (s : MonitorState) (o : OutageState) (t : ℕ)
      → s.outage ≡ some o
      → (s.last_healthy_at ≡ some t) ⊎ HasHealthyAt runs t
      → o.since < t
      → (at : ℕ) × IsEnd s o.since at
        × IsRecovery o at (evaluate_monitor runs now rejected_since (some s))
  unfolding evaluate_monitor
  evaluate_monitor-IsRecovery s o t e sign lt =
      let newest : (s.last_healthy_at ≡ some t) ⊎ IsAtMost t (latest_healthy_at runs) = elim sign [
        | inl stored ↦ inl stored
        | inr run ↦ inr ((latest_healthy_at-IsLatest runs).greatest t run)
      ] in
      let (healthy, h, reached) =
        later-reaches s.last_healthy_at (latest_healthy_at runs) t newest in
      let after : o.since < healthy = omega arith in
      let base = base_state runs now rejected_since (some s) in
      let at = or_else (first_healthy_after runs o.since) healthy in
      (
        at,
        ended_at-IsEnd s o.since healthy (first_healthy_after runs o.since)
            (first_healthy_after-IsFirstAfter runs o.since) h after,
        subst
            (λ x.
              IsRecovery o at (monitor_from runs now rejected_since base x base.last_healthy_at))
            (sym e)
            (subst (λ y. IsRecovery o at (monitor_from runs now rejected_since base (some o) y))
              (sym h) (ended-IsRecovery base o healthy e after)),
      )
