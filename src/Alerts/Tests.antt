-- ===== src/Alerts/Tests.antt =====
-- Runs of the alert modules on concrete inputs: one alert on BTC at 100, in prices that count 10^-8.
use crypto_zalo_bot.Base.{
  inl, ℕ, ◌+◌, ◌≤◌, ◌≡◌, ◌↔◌, refl, true, false, none, some, List, [], ◌∷◌, ◌++◌, Text, Dict, All,
  arith,
}
use crypto_zalo_bot.Base.Int.{ℤ, pos}
use crypto_zalo_bot.Base.Number.{scaled}
use crypto_zalo_bot.Alerts.{
  above, armed, fired, PriceAlert, RunOutcome, AlertRunSummary, OutageState, MonitorState,
  MonitorAction, outage_threshold_ms,
}
use crypto_zalo_bot.Alerts.Evaluator.{fire, rearm, is_rearmed, evaluate_alert}
use crypto_zalo_bot.Alerts.Evaluator.Laws.{MayFire, HasBuffer, evaluate_alert-fire_iff}
use crypto_zalo_bot.Alerts.Check.{Call, World, Run, ok, visit_alerts, check_price_alerts}
use crypto_zalo_bot.Alerts.Check.Effects.{Makes}
use crypto_zalo_bot.Alerts.Check.Sends.{IsDue, visit_alerts-Makes}
use crypto_zalo_bot.Alerts.Check.Steps.{released, IsBookkeeping}
use crypto_zalo_bot.Alerts.Check.Lock.{
  check_price_alerts-ok, check_price_alerts-released, check_price_alerts-skipped,
}
use crypto_zalo_bot.Alerts.Check.Counting.{handled, priced_count, due_count, visit_alerts-counts}
use crypto_zalo_bot.Alerts.Check.Cooldown.{Visit}
use crypto_zalo_bot.Alerts.Watcher.{Answers, Service, run_watcher, check_watcher}
use crypto_zalo_bot.Alerts.Watcher.Laws.{owner_messages, run_watcher-once, check_watcher-once}
use crypto_zalo_bot.Alerts.Monitor.{latest_healthy_at, evaluate_monitor}
use crypto_zalo_bot.Alerts.Monitor.Runs.{HasHealthyAt}
use crypto_zalo_bot.Alerts.Monitor.Rules.{IsAlarm, IsLongAgo, evaluate_monitor-IsAlarm_iff}
use crypto_zalo_bot.Alerts.Monitor.Notices.{
  IsEnd, IsRecorded, IsRecovery, evaluate_monitor-IsRecorded, evaluate_monitor-IsRecovery,
}

abbrev btc : Text
btc = b'B' ∷ b'T' ∷ b'C' ∷ []

abbrev btc_alert : PriceAlert ℤ
btc_alert = record {
  id = 1;
  chat_id = b'7' ∷ [];
  symbol = btc;
  direction = above;
  threshold = pos 10_000_000_000;
  state = armed;
  last_fired_at = none;
  last_failed_at = none;
  consecutive_failures = none;
  created_at = 0;
}

abbrev fired_alert : PriceAlert ℤ
fired_alert = record btc_alert { state = fired; last_fired_at = some 1_000 }

abbrev high_price : ℤ
high_price = pos 10_100_000_000

abbrev low_price : ℤ
low_price = pos 9_000_000_000

evaluate_alert-fire_iff_example :
    (evaluate_alert scaled btc_alert high_price 60_000 ≡ fire)
    ↔ MayFire scaled btc_alert high_price 60_000
evaluate_alert-fire_iff_example = evaluate_alert-fire_iff scaled btc_alert high_price 60_000

scaled-HasBuffer : HasBuffer scaled (pos 10_000_000_000)
scaled-HasBuffer = record { trans = λ a b c h k. ground arith; lower = refl; upper = refl }

fired_alert-rearm : evaluate_alert scaled fired_alert low_price 60_000 ≡ rearm
unfolding evaluate_alert is_rearmed
fired_alert-rearm = refl

-- A world in which the calls succeed, and one in which another run holds the lock.
abbrev working : World ℤ
working = record {
  throws = λ _. false;
  clock = λ _. 61_000;
  lock_token = λ _. some 9;
  alerts = λ _. btc_alert ∷ fired_alert ∷ [];
  coins = λ _. record { id = b'b' ∷ []; symbol = btc; price_usd = high_price } ∷ [];
  delivers = λ _. true;
}

abbrev busy : World ℤ
busy = record working { lock_token = λ _. none }

abbrev same : Text → Text
same t = t

abbrev start_run : Run ℤ
start_run = record {
  calls = [];
  summary = record {
    started_at = some 60_000;
    outcome = none;
    evaluated = 0;
    fired = 0;
    failed = 0;
    rearmed = 0;
    deferred = 0;
    duration_ms = pos 0;
    drift_ms = pos 0;
  };
}

abbrev btc_prices : Dict ℤ
btc_prices = (btc, high_price) ∷ []

visit_alerts-Makes_example :
    Makes
      (IsDue scaled 60_000 working same btc_prices (btc_alert ∷ fired_alert ∷ []))
      (visit_alerts scaled working same btc_prices 60_000 60_500 (btc_alert ∷ fired_alert ∷ []))
visit_alerts-Makes_example =
    visit_alerts-Makes scaled 60_000 working same btc_prices (btc_alert ∷ fired_alert ∷ []) 60_500

check_price_alerts-ok_example : (check_price_alerts scaled working same 60_000 start_run).0 ≡ ok tt
check_price_alerts-ok_example = check_price_alerts-ok scaled working same 60_000 start_run

check_price_alerts-released_example :
    released (check_price_alerts scaled working same 60_000 start_run).1.calls ≡ 9 ∷ []
check_price_alerts-released_example =
    check_price_alerts-released scaled working same 60_000 start_run

check_price_alerts-skipped_example :
    (new : List (Call ℤ)) × ((check_price_alerts scaled busy same 60_000 start_run).1.calls
      ≡ new ++ [])
    × All IsBookkeeping new
check_price_alerts-skipped_example =
    check_price_alerts-skipped scaled busy same 60_000 start_run refl

visit_alerts-counts_example :
    let (result, r') =
      visit_alerts scaled working same btc_prices 60_000 60_500
        (btc_alert ∷ fired_alert ∷ [])
        start_run in
    (result ≡ ok tt)
    × (r'.summary.evaluated
        ≡ 0
          + priced_count scaled working same btc_prices 60_000 60_500
              (btc_alert ∷ fired_alert ∷ []))
    × (handled r'.summary
        ≡ 0 + due_count scaled working same btc_prices 60_000 60_500 (btc_alert ∷ fired_alert ∷ []))
visit_alerts-counts_example =
    visit_alerts-counts scaled working same btc_prices 60_000 60_500 (btc_alert ∷ fired_alert ∷ [])
      start_run

abbrev first_visit : Visit ℤ
first_visit = record {
  world = working;
  stores = λ _. refl;
  price = high_price;
  at = 60_000;
  sends_started_at = 60_500;
  summary = start_run.summary;
}

abbrev healthy_run : AlertRunSummary
healthy_run = record start_run.summary {
  started_at = some 60_000;
  outcome = some RunOutcome.healthy;
}

abbrev failed_run : AlertRunSummary
failed_run = record start_run.summary {
  started_at = some 2_000_000;
  outcome = some RunOutcome.failed;
}

abbrev run_log : List AlertRunSummary
run_log = failed_run ∷ healthy_run ∷ []

abbrev no_rejections : ℕ → ℕ
no_rejections _ = 0

abbrev calm_state : MonitorState
calm_state = record {
  watcher_started_at = 0;
  last_watcher_run_at = 60_000;
  last_healthy_at = some 60_000;
  outage = none;
  owner_chat_configured = none;
}

abbrev told_outage : OutageState
told_outage = record { since = 30_000; notified_at = some 50_000 }

abbrev outage_state : MonitorState
outage_state = record calm_state { outage = some told_outage }

calm_state-IsAlarm :
    IsAlarm (evaluate_monitor run_log 2_000_000 no_rejections (some calm_state)).action
unfolding evaluate_monitor latest_healthy_at
calm_state-IsAlarm = tt

evaluate_monitor-IsAlarm_iff_example :
    IsAlarm (evaluate_monitor run_log 2_000_000 no_rejections (some calm_state)).action ↔ (
      IsLongAgo 2_000_000 (some 60_000)
      × ((t : ℕ) → HasHealthyAt run_log t → t + outage_threshold_ms ≤ 2_000_000)
      × (0 + outage_threshold_ms ≤ 2_000_000))
evaluate_monitor-IsAlarm_iff_example =
    evaluate_monitor-IsAlarm_iff run_log 2_000_000 no_rejections calm_state refl

evaluate_monitor-IsRecorded_example :
    IsRecorded run_log 2_000_000 no_rejections
      (some told_outage)
      (evaluate_monitor run_log 2_000_000 no_rejections (some outage_state))
evaluate_monitor-IsRecorded_example =
    evaluate_monitor-IsRecorded run_log 2_000_000 no_rejections outage_state

evaluate_monitor-IsRecovery_example :
    (at : ℕ) × IsEnd run_log 2_000_000 no_rejections outage_state 30_000 at
    × IsRecovery run_log 2_000_000 no_rejections told_outage at
        (evaluate_monitor run_log 2_000_000 no_rejections (some outage_state))
evaluate_monitor-IsRecovery_example =
    evaluate_monitor-IsRecovery run_log 2_000_000 no_rejections outage_state told_outage 60_000 refl
      (inl refl) (omega arith)

-- A store that answers but does not save, and a chat service that delivers.
abbrev unsaving : Answers
unsaving = record {
  owner_configured = true;
  get_monitor_state = some (some calm_state);
  get_watchdog_state = some none;
  list_recent_runs = some run_log;
  count_rejections_since = λ _. some 2;
  first_notice_hold = λ _. some none;
  second_notice_hold = λ _. none;
  claim_notice_hold = none;
  send_text_message = some true;
  saves_state = false;
}

abbrev fresh_service : Service
fresh_service = record { memory_holds = λ _. none; effects = [] }

abbrev recovery : MonitorAction
recovery = MonitorAction.recovered 30_000 60_000 (pos 30_000)

-- The outage of which the owner was told is over, and the state stays as it was.
abbrev recovering : Answers
recovering = record unsaving { get_monitor_state = some (some outage_state) }

run_watcher-once_example :
    owner_messages (run_watcher unsaving 2_000_000 fresh_service).effects ≤ 0 + 1
run_watcher-once_example = run_watcher-once unsaving 2_000_000 fresh_service

check_watcher-once_example :
    owner_messages (check_watcher unsaving 2_000_000 fresh_service).1.effects ≤ 0 + 1
check_watcher-once_example = check_watcher-once unsaving 2_000_000 fresh_service
