-- ===== src/Alerts/Watcher.antt =====
-- The watcher of the price-alert check (src/price-alerts/price-alerts-monitor.service.ts): it reads the
-- stored state, applies the monitor's rules, messages the owner and stores what was delivered. The
-- answers of the store and of the chat service are given as `Answers`, where `none` is a call that
-- throws; texts, the count of alerts that one of them shows, and logging are left out.
pub mod Laws
pub mod Holds
use crypto_zalo_bot.Base.{
  ℕ, ◌+◌, ◌-◌, Bool, true, false, not, ◌&&◌, ◌||◌, Option, none, some, List, [], ◌∷◌, ltb, leb,
  ◌==◌, if◌then◌else◌, or_else, is_some,
}
use crypto_zalo_bot.Alerts.{
  AlertRunSummary, OutageState, MonitorState, WatchdogState, MonitorAction, MonitorDecision,
  NoticeHoldKind, NoticeHold, outage_hold, recovered_hold, watcher_down_hold,
  watcher_recovered_hold, state_unreadable_hold, state_unreadable_notice_ms, watcher_state_stale_ms,
}
use crypto_zalo_bot.Alerts.Monitor.{evaluate_monitor, evaluate_watchdog}

-- What the services answer in one call of the watcher. `get_notice_hold` is asked at most twice.
pub record Answers : Type 0 where
  pub owner_configured : Bool
  pub get_monitor_state : Option (Option MonitorState)
  pub get_watchdog_state : Option (Option WatchdogState)
  pub list_recent_runs : Option (List AlertRunSummary)
  pub count_rejections_since : ℕ → Option ℕ
  pub first_notice_hold : NoticeHoldKind → Option (Option NoticeHold)
  pub second_notice_hold : NoticeHoldKind → Option (Option NoticeHold)
  pub claim_notice_hold : Option Bool
  pub send_text_message : Option Bool
  pub saves_state : Bool

-- A call that leaves the service.
pub data Effect : Type 0 where
  send_text : Effect
  record_monitor_notice : Bool → Effect
  set_monitor_state : MonitorState → Effect
  set_watchdog_state : WatchdogState → Effect
  claim_hold : NoticeHoldKind → NoticeHold → Effect
  release_hold : NoticeHoldKind → Effect
  set_hold : NoticeHoldKind → NoticeHold → Effect

-- The instance's memory, and the calls made so far, newest first.
pub record Service : Type 0 where
  pub memory_holds : NoticeHoldKind → Option NoticeHold
  pub effects : List Effect

pub record Sent : Type 0 where
  pub at : ℕ
  pub held : Bool

abbrev pub same_kind : NoticeHoldKind → NoticeHoldKind → Bool
same_kind outage_hold outage_hold = true
same_kind recovered_hold recovered_hold = true
same_kind watcher_down_hold watcher_down_hold = true
same_kind watcher_recovered_hold watcher_recovered_hold = true
same_kind state_unreadable_hold state_unreadable_hold = true
same_kind _ _ = false

abbrev pub make_call : Effect → Service → Service
make_call e s = record s { effects = e ∷ s.effects }

abbrev pub set_memory_hold : NoticeHoldKind → NoticeHold → Service → Service
set_memory_hold kind hold s = record s {
  memory_holds = λ k. if same_kind kind k then some hold else s.memory_holds k;
}

abbrev pub hold_kind : MonitorAction → NoticeHoldKind
hold_kind (MonitorAction.down _ _ _ _) = outage_hold
hold_kind (MonitorAction.reminder _ _ _ _) = outage_hold
hold_kind (MonitorAction.recovered _ _ _) = recovered_hold
hold_kind (MonitorAction.watcher_down _ _) = watcher_down_hold
hold_kind (MonitorAction.watcher_recovered _ _ _) = watcher_recovered_hold

abbrev pub hold_since : MonitorAction → ℕ
hold_since (MonitorAction.down _ since _ _) = since
hold_since (MonitorAction.reminder _ since _ _) = since
hold_since (MonitorAction.recovered since _ _) = since
hold_since (MonitorAction.watcher_down last _) = last
hold_since (MonitorAction.watcher_recovered since _ _) = since

-- `hold && now - hold.at < STATE_UNREADABLE_NOTICE_MS ? hold : null`
abbrev pub fresh_hold : Option NoticeHold → ℕ → Option NoticeHold
fresh_hold none time = none
fresh_hold (some hold) time =
    if ltb time (hold.at + state_unreadable_notice_ms) then some hold else none

abbrev pub memory_hold : NoticeHoldKind → ℕ → Service → Option NoticeHold
memory_hold kind time s = fresh_hold (s.memory_holds kind) time

-- `a ?? b`, for a `b` that may be null too.
abbrev pub prefer : Option NoticeHold → Option NoticeHold → Option NoticeHold
prefer none b = b
prefer (some a) b = some a

-- The memory's hold, else the stored one; one that cannot be read counts as none.
abbrev pub find_hold :
    (NoticeHoldKind → Option (Option NoticeHold)) → NoticeHoldKind → ℕ → Service → Option NoticeHold
find_hold stored kind time s = prefer (memory_hold kind time s) (or_else (stored kind) none)

-- `hold && hold.since === since`
abbrev pub is_about : Option NoticeHold → ℕ → Bool
is_about none since = false
is_about (some hold) since = elim hold.since [ none ↦ false | some t ↦ t == since ]

-- `JSON.stringify(a) === JSON.stringify(b)`
abbrev pub same_outage : Option OutageState → Option OutageState → Bool
same_outage none none = true
same_outage (some a) (some b) = (a.since == b.since) && same_time a.notified_at b.notified_at
  where
    same_time : Option ℕ → Option ℕ → Bool
    same_time none none = true
    same_time (some t) (some u) = t == u
    same_time _ _ = false
same_outage _ _ = false

-- `watchdog ?? { outage: null }`
abbrev pub stored_outage : Option WatchdogState → Option OutageState
stored_outage none = none
stored_outage (some watchdog) = watchdog.outage

module _ (answers : Answers) where
  -- No owner chat: nothing is sent. A send that throws is not delivered.
  send : Service → Bool × Service
  send s =
      if answers.owner_configured
      then (let delivered = or_else answers.send_text_message false in
          (
            delivered,
            make_call (Effect.record_monitor_notice delivered) (make_call Effect.send_text s),
          ))
      else (false, s)

  deliver : ℕ → Bool × Service → Option Sent × Service
  deliver time (true, s) = (some (record { at = time; held = false }), s)
  deliver time (false, s) = (none, s)

  -- `notify`, with the hold that was found.
  notify_with : Option NoticeHold → MonitorAction → ℕ → Service → Option Sent × Service
  notify_with none action time s = deliver time (send s)
  notify_with (some hold) action time s =
      if is_about (some hold) (hold_since action)
      then (some (record { at = hold.at; held = true }), s)
      else deliver time (send s)

  unfoldable pub notify : MonitorAction → ℕ → Service → Option Sent × Service
  unfolding send deliver notify_with
  notify action time s =
      notify_with (find_hold answers.second_notice_hold (hold_kind action) time s) action time s

  pub hold_after_unrecorded_send : MonitorAction → ℕ → Service → Service
  hold_after_unrecorded_send action time s =
      let hold : NoticeHold = record { at = time; since = some (hold_since action) } in
      make_call (Effect.set_hold (hold_kind action) hold)
        (set_memory_hold (hold_kind action) hold s)

  after_claimed_send : Option Bool → NoticeHold → Bool × Service → Service
  after_claimed_send claimed hold (true, s) = set_memory_hold state_unreadable_hold hold s
  after_claimed_send (some true) hold (false, s) =
      make_call (Effect.release_hold state_unreadable_hold) s
  after_claimed_send _ hold (false, s) = s

  -- The claim, refused by another instance or not.
  claim_and_send : Option Bool → NoticeHold → Service → Service
  claim_and_send (some false) hold s = s
  claim_and_send claimed hold s = after_claimed_send claimed hold (send s)

  send_unrecorded : ℕ → Service → Service
  send_unrecorded time s =
      let hold : NoticeHold = record { at = time; since = none } in
      if is_some (memory_hold state_unreadable_hold time s)
      then s
      else claim_and_send answers.claim_notice_hold hold
          (make_call (Effect.claim_hold state_unreadable_hold hold) s)

  -- The outage that the hold remembers, put back into a stale state.
  restored : MonitorState → Option NoticeHold → MonitorState
  restored state none = state
  restored state (some hold) = elim hold.since [
    | none ↦ state
    | some since ↦
        if elim state.outage [ none ↦ false | some o ↦ not (o.since == since) ]
          || elim state.last_healthy_at [ none ↦ false | some healthy ↦ ltb since healthy ]
        then state
        else record state { outage = some (record { since = since; notified_at = some hold.at }) }
  ]

  is_told : Option OutageState → Bool
  is_told none = false
  is_told (some o) = is_some o.notified_at

  unfoldable pub with_unrecorded_outage : Option MonitorState → ℕ → Service → Option MonitorState
  unfolding restored is_told
  with_unrecorded_outage none time s = none
  with_unrecorded_outage (some state) time s =
      if is_told state.outage || leb time (state.last_watcher_run_at + watcher_state_stale_ms)
      then some state
      else some (restored state (find_hold answers.first_notice_hold outage_hold time s))

  -- The decision; the rejections are read again when a message is due.
  unfoldable pub decide :
      Option MonitorState → List AlertRunSummary → ℕ → MonitorDecision MonitorState
  decide state runs time =
      evaluate_monitor runs time (λ since. or_else (answers.count_rejections_since since) 0) state

  notify_if : Option MonitorAction → ℕ → Service → Option Sent × Service
  notify_if none time s = (none, s)
  notify_if (some action) time s = notify action time s

  -- A held message was delivered when its hold was taken.
  dated : Option OutageState → ℕ → Option OutageState
  dated none at = none
  dated (some o) at = elim o.notified_at [
    | none ↦ some o
    | some _ ↦ some (record o { notified_at = some at })
  ]

  next_monitor_state : MonitorDecision MonitorState → Option Sent → MonitorState
  next_monitor_state decision none = record (decision.on_not_sent) {
    owner_chat_configured = some answers.owner_configured;
  }
  next_monitor_state decision (some sent) = record (decision.on_sent) {
    outage = dated decision.on_sent.outage sent.at;
    owner_chat_configured = some answers.owner_configured;
  }

  -- A new message whose state was not saved is held.
  hold_unsaved : Option MonitorAction → Option Sent → ℕ → Service → Service
  hold_unsaved (some action) (some sent) time s =
      if sent.held then s else hold_after_unrecorded_send action time s
  hold_unsaved _ _ time s = s

  pub save_monitor : MonitorDecision MonitorState → ℕ → Option Sent × Service → Service
  save_monitor decision time (sent, s) =
      let tried = make_call (Effect.set_monitor_state (next_monitor_state decision sent)) s in
      if answers.saves_state then tried else hold_unsaved decision.action sent time tried

  watch_from : Option (Option MonitorState) → Option (List AlertRunSummary) → ℕ → Service → Service
  watch_from (some state) (some runs) time s =
      let decision = decide (with_unrecorded_outage state time s) runs time in
      save_monitor decision time (notify_if decision.action time s)
  watch_from _ _ time s = send_unrecorded time s

  pub run_watcher : ℕ → Service → Service
  run_watcher time s = watch_from answers.get_monitor_state answers.list_recent_runs time s

  next_watchdog_state : MonitorDecision WatchdogState → Option Sent → WatchdogState
  next_watchdog_state decision none = decision.on_not_sent
  next_watchdog_state decision (some sent) = record {
    outage = dated decision.on_sent.outage sent.at;
  }

  -- The save, and the error of one that fails after the hold is set.
  save_watchdog :
      MonitorDecision WatchdogState → WatchdogState → Option Sent → ℕ → Service → Bool × Service
  save_watchdog decision next sent time s =
      let tried = make_call (Effect.set_watchdog_state next) s in
      if answers.saves_state
      then (true, tried)
      else (false, hold_unsaved decision.action sent time tried)

  -- Nothing is written where the state is as it was.
  save_changed :
      Option WatchdogState
      → MonitorDecision WatchdogState
      → ℕ
      → Option Sent × Service
      → Bool × Service
  save_changed watchdog decision time (sent, s) =
      let next = next_watchdog_state decision sent in
      if same_outage next.outage (stored_outage watchdog)
      then (true, s)
      else save_watchdog decision next sent time s

  last_run_of : Option MonitorState → Option ℕ
  last_run_of none = none
  last_run_of (some monitor) = some monitor.last_watcher_run_at

  check_from :
      Option (Option MonitorState) → Option (Option WatchdogState) → ℕ → Service → Bool × Service
  check_from (some monitor) (some watchdog) time s =
      let decision = evaluate_watchdog watchdog (last_run_of monitor) time in
      save_changed watchdog decision time (notify_if decision.action time s)
  check_from _ _ time s = (false, s)

  -- `false` where the call throws; the two states are read together.
  pub check_watcher : ℕ → Service → Bool × Service
  check_watcher time s = check_from answers.get_monitor_state answers.get_watchdog_state time s
