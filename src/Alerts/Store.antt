-- ===== src/Alerts/Store.antt =====
-- The store of the price alerts (src/price-alerts/price-alerts.service.ts and the keys of
-- price-alerts.constants.ts): one function per method, on the state of the Redis store.
pub mod Client
pub mod Memory
pub mod Keys
pub mod Observations
pub mod Consistency
pub mod Deletion
pub mod Reachable
pub mod Lock
pub mod Logs
mod Tests
use crypto_zalo_bot.Base.{
  ℕ, ◌+◌, ◌-◌, ◌*◌, ◌≡◌, Bool, true, false, Option, none, some, List, [], ◌∷◌, ◌++◌, leb,
  if◌then◌else◌, get_elem?, sort_by, Text, text_eq, codes, show, zero, suc,
}
use crypto_zalo_bot.Base.Number.{Number}
use crypto_zalo_bot.Alerts.{
  AlertDirection, armed, PriceAlert, AlertDelivery, AlertRunSummary, MonitorState, WatchdogState,
  NoticeHold, NoticeHoldKind, outage_hold, recovered_hold, watcher_down_hold,
  watcher_recovered_hold, state_unreadable_hold, max_alerts_per_chat,
}
use crypto_zalo_bot.Alerts.Evaluator.{is_condition_met}
use crypto_zalo_bot.Alerts.Store.Client.{Redis}

-- REDIS_KEYS
abbrev pub next_id_key : Text
next_id_key = codes "price-alerts:next-id"

abbrev pub all_ids_key : Text
all_ids_key = codes "price-alerts:ids"

unfoldable pub alert_key : ℕ → Text
alert_key id = codes "price-alerts:alert:" ++ show id

unfoldable pub chat_ids_key : Text → Text
chat_ids_key chat_id = codes "price-alerts:chat:" ++ chat_id

abbrev pub run_lock_key : Text
run_lock_key = codes "price-alerts:run-lock"

abbrev deliveries_key : Text
deliveries_key = codes "price-alerts:deliveries"

abbrev delivery_failures_key : Text
delivery_failures_key = codes "price-alerts:delivery-failures"

abbrev runs_key : Text
runs_key = codes "price-alerts:runs"

abbrev monitor_key : Text
monitor_key = codes "price-alerts:monitor"

abbrev watchdog_key : Text
watchdog_key = codes "price-alerts:watchdog"

abbrev monitor_notices_key : Text
monitor_notices_key = codes "price-alerts:monitor-notices"

kind_name : NoticeHoldKind → Text
kind_name outage_hold = codes "outage"
kind_name recovered_hold = codes "recovered"
kind_name watcher_down_hold = codes "watcher-down"
kind_name watcher_recovered_hold = codes "watcher-recovered"
kind_name state_unreadable_hold = codes "state-unreadable"

notice_hold_key : NoticeHoldKind → Text
notice_hold_key kind = codes "price-alerts:monitor-notice-hold:" ++ kind_name kind

abbrev run_lock_ttl_ms : ℕ
run_lock_ttl_ms = 120 * 1000

abbrev max_delivery_log_entries : ℕ
max_delivery_log_entries = 1000

abbrev max_delivery_failure_log_entries : ℕ
max_delivery_failure_log_entries = 1000

abbrev max_run_log_entries : ℕ
max_run_log_entries = 1440

abbrev max_monitor_notices : ℕ
max_monitor_notices = 500

-- One owner notification attempt, with the name of its kind.
pub record MonitorNotice : Type 0 where
  pub kind : Text
  pub at : ℕ
  pub delivered : Bool

-- What stands under a key: the client reads back what was stored, as the kind of its key.
pub data Stored (F : Type 0) : Type 0 where
  stored_alert : PriceAlert F → Stored F
  stored_token : Text → Stored F
  stored_delivery : AlertDelivery F → Stored F
  stored_run : AlertRunSummary → Stored F
  stored_monitor : MonitorState → Stored F
  stored_watchdog : WatchdogState → Stored F
  stored_hold : NoticeHold → Stored F
  stored_notice : MonitorNotice → Stored F

pub record CreatedAlert (F : Type 0) : Type 0 where
  pub alert : PriceAlert F
  pub position : ℕ
  pub current_price_usd : F

-- The errors of the service; `price_error` is an exception of the price lookup, passed on.
pub data AlertError (F E : Type 0) : Type 0 where
  limit_reached : ℕ → AlertError F E
  condition_already_met : Text → AlertDirection → F → AlertError F E
  not_found : ℕ → AlertError F E
  price_error : E → AlertError F E

pub data Answer (E A : Type 0) : Type 0 where
  done : A → Answer E A
  thrown : E → Answer E A

module _ {F : Type 0} where
  pub as_alert : Option (Stored F) → Option (PriceAlert F)
  as_alert (some (Stored.stored_alert a)) = some a
  as_alert _ = none

  as_monitor : Option (Stored F) → Option MonitorState
  as_monitor (some (Stored.stored_monitor m)) = some m
  as_monitor _ = none

  as_watchdog : Option (Stored F) → Option WatchdogState
  as_watchdog (some (Stored.stored_watchdog w)) = some w
  as_watchdog _ = none

  as_hold : Option (Stored F) → Option NoticeHold
  as_hold (some (Stored.stored_hold h)) = some h
  as_hold _ = none

  pub add_found : Option (PriceAlert F) → List (PriceAlert F) → List (PriceAlert F)
  add_found none alerts = alerts
  add_found (some a) alerts = a ∷ alerts

  deliveries_of : List (Stored F) → List (AlertDelivery F)
  deliveries_of [] = []
  deliveries_of (Stored.stored_delivery d ∷ es) = d ∷ deliveries_of es
  deliveries_of (_ ∷ es) = deliveries_of es

  runs_of : List (Stored F) → List AlertRunSummary
  runs_of [] = []
  runs_of (Stored.stored_run r ∷ es) = r ∷ runs_of es
  runs_of (_ ∷ es) = runs_of es

module _ (num : Number) (redis : Redis (Stored num.F)) where
  open num use {F}
  open redis use {State}

  -- `mget` of the ids' keys, without those that are gone.
  pub found_alerts : List ℕ → State → List (PriceAlert F)
  found_alerts [] s = []
  found_alerts (id ∷ ids) s = add_found (as_alert (redis.get s (alert_key id))) (found_alerts ids s)

  pub load_alerts : List ℕ → State → List (PriceAlert F)
  load_alerts ids s = sort_by (λ (a : PriceAlert F). a.id) (found_alerts ids s)

  pub list_by_chat : Text → State → List (PriceAlert F)
  list_by_chat chat_id s = load_alerts (redis.smembers s (chat_ids_key chat_id)) s

  pub list_all : State → List (PriceAlert F)
  list_all s = load_alerts (redis.smembers s all_ids_key) s

  pub count_alerts : State → ℕ
  count_alerts s = redis.scard s all_ids_key

  -- The transaction of `create`, after `INCR`.
  pub stored_new : PriceAlert F → State → State
  stored_new alert s =
      redis.sadd
        (redis.sadd (redis.set s (alert_key alert.id) (Stored.stored_alert alert)) all_ids_key
          alert.id)
        (chat_ids_key alert.chat_id) alert.id

  new_alert : Text → Text → AlertDirection → F → ℕ → ℕ → PriceAlert F
  new_alert chat_id symbol direction threshold id now = record {
    id = id;
    chat_id = chat_id;
    symbol = symbol;
    direction = direction;
    threshold = threshold;
    state = armed;
    last_fired_at = none;
    last_failed_at = none;
    consecutive_failures = none;
    created_at = now;
  }

  module _ {E : Type 0} where
    created :
        Text
        → Text
        → AlertDirection
        → F
        → ℕ
        → ℕ
        → Answer E F
        → State
        → Answer (AlertError F E) (CreatedAlert F) × State
    created chat_id symbol direction threshold now count (thrown e) s =
        (thrown (AlertError.price_error e), s)
    created chat_id symbol direction threshold now count (done price) s =
        let (id, counted) = redis.incr s next_id_key in
        let alert = new_alert chat_id symbol direction threshold id now in
        if is_condition_met num direction threshold price
        then (thrown (AlertError.condition_already_met symbol direction price), s)
        else (
          done (record { alert = alert; position = count + 1; current_price_usd = price }),
          stored_new alert counted,
        )

    -- `price_of` is the answer of `getPricesBySymbols([symbol])`, its first coin's price.
    pub create :
        Text
        → Text
        → AlertDirection
        → F
        → ℕ
        → (Text → Answer E F)
        → State
        → Answer (AlertError F E) (CreatedAlert F) × State
    create chat_id symbol direction threshold now price_of s =
        let existing_count = redis.scard s (chat_ids_key chat_id) in
        if leb max_alerts_per_chat existing_count
        then (thrown (AlertError.limit_reached max_alerts_per_chat), s)
        else created chat_id symbol direction threshold now existing_count (price_of symbol) s

    -- The transaction of `deleteByIndex`.
    pub deleted :
        Text → ℕ → Option (PriceAlert F) → State → Answer (AlertError F E) (PriceAlert F) × State
    deleted chat_id index none s = (thrown (AlertError.not_found index), s)
    deleted chat_id index (some alert) s = (
      done alert,
      redis.srem (redis.srem (redis.del s (alert_key alert.id)) all_ids_key alert.id)
          (chat_ids_key chat_id) alert.id,
    )

    -- Positions start at 1, and `alerts[-1]` is undefined.
    pub delete_by_index : Text → ℕ → State → Answer (AlertError F E) (PriceAlert F) × State
    delete_by_index chat_id zero s = deleted chat_id zero none s
    delete_by_index chat_id (suc i) s =
        deleted chat_id (suc i) (get_elem? (list_by_chat chat_id s) i) s

  pub update_state : PriceAlert F → State → Bool × State
  update_state alert s = redis.set_xx s (alert_key alert.id) (Stored.stored_alert alert)

  pub push_capped : Text → Stored F → ℕ → State → State
  push_capped key entry max_entries s = redis.ltrim (redis.lpush s key entry) key max_entries

  pub record_delivery : AlertDelivery F → State → State
  record_delivery delivery s =
      if delivery.delivered
      then push_capped deliveries_key (Stored.stored_delivery delivery) max_delivery_log_entries s
      else push_capped delivery_failures_key (Stored.stored_delivery delivery)
          max_delivery_failure_log_entries s

  pub record_run : AlertRunSummary → State → State
  record_run summary s = push_capped runs_key (Stored.stored_run summary) max_run_log_entries s

  pub record_monitor_notice : MonitorNotice → State → State
  record_monitor_notice notice s =
      push_capped monitor_notices_key (Stored.stored_notice notice) max_monitor_notices s

  pub list_deliveries : State → List (AlertDelivery F)
  list_deliveries s = deliveries_of (redis.list_all s deliveries_key)

  pub list_delivery_failures : State → List (AlertDelivery F)
  list_delivery_failures s = deliveries_of (redis.list_all s delivery_failures_key)

  pub list_recent_runs : ℕ → State → List AlertRunSummary
  list_recent_runs count s = runs_of (redis.list_first s runs_key count)

  pub list_runs : State → List AlertRunSummary
  list_runs s = runs_of (redis.list_all s runs_key)

  pub get_monitor_state : State → Option MonitorState
  get_monitor_state s = as_monitor (redis.get s monitor_key)

  pub set_monitor_state : MonitorState → State → State
  set_monitor_state state s = redis.set s monitor_key (Stored.stored_monitor state)

  pub get_monitor_and_watchdog_state : State → Option MonitorState × Option WatchdogState
  get_monitor_and_watchdog_state s =
      (as_monitor (redis.get s monitor_key), as_watchdog (redis.get s watchdog_key))

  pub set_watchdog_state : WatchdogState → State → State
  set_watchdog_state state s = redis.set s watchdog_key (Stored.stored_watchdog state)

  pub get_notice_hold : NoticeHoldKind → State → Option NoticeHold
  get_notice_hold kind s = as_hold (redis.get s (notice_hold_key kind))

  pub claim_notice_hold : NoticeHoldKind → NoticeHold → ℕ → State → Bool × State
  claim_notice_hold kind hold hold_ms s =
      redis.set_nx s (notice_hold_key kind) (Stored.stored_hold hold) hold_ms

  pub set_notice_hold : NoticeHoldKind → NoticeHold → ℕ → State → State
  set_notice_hold kind hold hold_ms s =
      redis.set_px s (notice_hold_key kind) (Stored.stored_hold hold) hold_ms

  pub release_notice_hold : NoticeHoldKind → State → State
  release_notice_hold kind s = redis.del s (notice_hold_key kind)

  -- `token` is the `randomUUID()` of the call.
  pub acquire_run_lock : Text → State → Option Text × State
  acquire_run_lock token s =
      let (taken, after) =
        redis.set_nx s run_lock_key (Stored.stored_token token) run_lock_ttl_ms in
      (if taken then some token else none, after)

  pub holds_token : Text → Option (Stored F) → Bool
  holds_token token (some (Stored.stored_token t)) = text_eq t token
  holds_token token _ = false

  -- RELEASE_LOCK_SCRIPT
  pub release_run_lock : Text → State → State
  release_run_lock token s =
      if holds_token token (redis.get s run_lock_key) then redis.del s run_lock_key else s
