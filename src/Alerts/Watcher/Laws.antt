-- ===== src/Alerts/Watcher/Laws.antt =====
-- How often the watcher messages the owner.
use crypto_zalo_bot.Base.{
  ℕ, ◌+◌, ◌≤◌, ◌≡◌, refl, Bool, true, false, Option, none, some, List, [], ◌∷◌, if◌then◌else◌,
  is_some, arith, Bool-cases, inl, inr,
}
use crypto_zalo_bot.Base.Int.{}
use crypto_zalo_bot.Alerts.{
  AlertRunSummary, MonitorState, MonitorAction, MonitorDecision, WatchdogState, NoticeHold,
  state_unreadable_hold,
}
use crypto_zalo_bot.Alerts.Watcher.{
  Answers, Effect, Service, Sent, hold_since, memory_hold, is_about, send, deliver, notify_with,
  notify, hold_after_unrecorded_send, after_claimed_send, claim_and_send, send_unrecorded,
  notify_if, hold_unsaved, save_monitor, watch_from, run_watcher, save_watchdog, save_changed,
  check_from, check_watcher,
}

-- The messages among the calls.
abbrev pub owner_messages : List Effect → ℕ
owner_messages [] = 0
owner_messages (Effect.send_text ∷ es) = owner_messages es + 1
owner_messages (_ ∷ es) = owner_messages es

module _ (answers : Answers) where
  send-once :
      (s : Service) → owner_messages (send answers s).1.effects ≤ owner_messages s.effects + 1
  unfolding send
  send-once s = elim (Bool-cases answers.owner_configured) [
    | inl there ↦ rw there (omega arith)
    | inr absent ↦ rw absent (omega arith)
  ]

  deliver-kept : (time : ℕ) (r : Bool × Service) → (deliver answers time r).1 ≡ r.1
  unfolding deliver
  deliver-kept time (true, s) = refl
  deliver-kept time (false, s) = refl

  notify_with-once :
      (o : Option NoticeHold) (action : MonitorAction) (time : ℕ) (s : Service)
      → owner_messages (notify_with answers o action time s).1.effects
        ≤ owner_messages s.effects + 1
  unfolding notify_with
  notify_with-once none action time s = rw (deliver-kept time (send answers s)) (send-once s)
  notify_with-once (some hold) action time s =
      elim (Bool-cases (is_about (some hold) (hold_since action))) [
        | inl held ↦ rw held (omega arith)
        | inr other ↦ rw (other, deliver-kept time (send answers s)) (send-once s)
      ]

  notify_if-once :
      (o : Option MonitorAction) (time : ℕ) (s : Service)
      → owner_messages (notify_if answers o time s).1.effects ≤ owner_messages s.effects + 1
  unfolding notify_if notify
  notify_if-once none time s = omega arith
  notify_if-once (some action) time s = notify_with-once _ action time s

  hold_unsaved-none :
      (o : Option MonitorAction) (sent : Option Sent) (time : ℕ) (s : Service)
      → owner_messages (hold_unsaved answers o sent time s).effects ≡ owner_messages s.effects
  unfolding hold_unsaved hold_after_unrecorded_send
  hold_unsaved-none none sent time s = refl
  hold_unsaved-none (some action) none time s = refl
  hold_unsaved-none (some action) (some sent) time s = elim (Bool-cases sent.held) [
    | inl h ↦ rw h refl
    | inr h ↦ rw h refl
  ]

  saved-none :
      (saves : Bool) (o : Option MonitorAction) (sent : Option Sent) (time : ℕ) (s : Service)
      → owner_messages (if saves then s else hold_unsaved answers o sent time s).effects
        ≡ owner_messages s.effects
  saved-none true o sent time s = refl
  saved-none false o sent time s = hold_unsaved-none o sent time s

  pub save_monitor-none :
      (d : MonitorDecision MonitorState) (time : ℕ) (r : Option Sent × Service)
      → owner_messages (save_monitor answers d time r).effects ≡ owner_messages r.1.effects
  unfolding save_monitor
  save_monitor-none d time (sent, s) = saved-none answers.saves_state d.action sent time _

  after_claimed_send-none :
      (o : Option Bool) (hold : NoticeHold) (r : Bool × Service)
      → owner_messages (after_claimed_send answers o hold r).effects ≡ owner_messages r.1.effects
  unfolding after_claimed_send
  after_claimed_send-none none hold (true, s) = refl
  after_claimed_send-none (some b) hold (true, s) = refl
  after_claimed_send-none none hold (false, s) = refl
  after_claimed_send-none (some true) hold (false, s) = refl
  after_claimed_send-none (some false) hold (false, s) = refl

  claim_and_send-once :
      (o : Option Bool) (hold : NoticeHold) (s : Service)
      → owner_messages (claim_and_send answers o hold s).effects ≤ owner_messages s.effects + 1
  unfolding claim_and_send
  claim_and_send-once none hold s =
      rw (after_claimed_send-none none hold (send answers s)) (send-once s)
  claim_and_send-once (some true) hold s =
      rw (after_claimed_send-none (some true) hold (send answers s)) (send-once s)
  claim_and_send-once (some false) hold s = omega arith

  send_unrecorded-once :
      (time : ℕ) (s : Service)
      → owner_messages (send_unrecorded answers time s).effects ≤ owner_messages s.effects + 1
  unfolding send_unrecorded
  send_unrecorded-once time s =
      elim (Bool-cases (is_some (memory_hold state_unreadable_hold time s))) [
        | inl held ↦ rw held (omega arith)
        | inr free ↦ rw free (claim_and_send-once answers.claim_notice_hold _ _)
      ]

  watch_from-once :
      (a : Option (Option MonitorState)) (b : Option (List AlertRunSummary)) (time : ℕ)
      (s : Service)
      → owner_messages (watch_from answers a b time s).effects ≤ owner_messages s.effects + 1
  unfolding watch_from
  watch_from-once none b time s = send_unrecorded-once time s
  watch_from-once (some state) none time s = send_unrecorded-once time s
  watch_from-once (some state) (some runs) time s =
      rw (save_monitor-none _ time _) (notify_if-once _ time s)

  -- A run of the watcher sends the owner at most one message, whatever the services answer.
  pub run_watcher-once :
      (time : ℕ) (s : Service)
      → owner_messages (run_watcher answers time s).effects ≤ owner_messages s.effects + 1
  unfolding run_watcher
  run_watcher-once time s =
      watch_from-once answers.get_monitor_state answers.list_recent_runs time s

  checked-none :
      (saves : Bool) (o : Option MonitorAction) (sent : Option Sent) (time : ℕ) (s : Service)
      → let r : Bool × Service =
          if saves then (true, s) else (false, hold_unsaved answers o sent time s) in
        owner_messages r.1.effects ≡ owner_messages s.effects
  checked-none true o sent time s = refl
  checked-none false o sent time s = hold_unsaved-none o sent time s

  changed-none :
      (same : Bool) (d : MonitorDecision WatchdogState) (next : WatchdogState) (sent : Option Sent)
      (time : ℕ) (s : Service)
      → let r : Bool × Service =
          if same then (true, s) else save_watchdog answers d next sent time s in
        owner_messages r.1.effects ≡ owner_messages s.effects
  unfolding save_watchdog
  changed-none true d next sent time s = refl
  changed-none false d next sent time s = checked-none answers.saves_state d.action sent time _

  save_changed-none :
      (watchdog : Option WatchdogState) (d : MonitorDecision WatchdogState) (time : ℕ)
      (r : Option Sent × Service)
      → owner_messages (save_changed answers watchdog d time r).1.effects
        ≡ owner_messages r.1.effects
  unfolding save_changed
  save_changed-none watchdog d time (sent, s) = changed-none _ d _ sent time s

  check_from-once :
      (a : Option (Option MonitorState)) (b : Option (Option WatchdogState)) (time : ℕ)
      (s : Service)
      → owner_messages (check_from answers a b time s).1.effects ≤ owner_messages s.effects + 1
  unfolding check_from
  check_from-once none b time s = omega arith
  check_from-once (some monitor) none time s = omega arith
  check_from-once (some monitor) (some watchdog) time s =
      rw (save_changed-none watchdog _ time (notify_if answers _ time s)) (notify_if-once _ time s)

  -- The check's look at the watcher sends the owner at most one message, whatever the services answer
  -- and also where it ends with an error.
  pub check_watcher-once :
      (time : ℕ) (s : Service)
      → owner_messages (check_watcher answers time s).1.effects ≤ owner_messages s.effects + 1
  unfolding check_watcher
  check_watcher-once time s =
      check_from-once answers.get_monitor_state answers.get_watchdog_state time s
