-- ===== src/Alerts/Check.antt =====
-- The per-minute price-alert check (src/price-alerts/price-alerts.controller.ts), over the calls that
-- it makes. Logging is left out; the message text is a function of its alert and price.
mod Calls
pub mod Effects
pub mod Sends
pub mod Endings
pub mod Steps
pub mod Lock
pub mod Counting
pub mod Cooldown
unfoldable pub use Calls.*
use crypto_zalo_bot.Base.{
  ℕ, ◌+◌, ◌&&◌, not, ◌/◌, ◌%◌, Bool, true, false, Option, none, some, List, [], ◌∷◌, map, ltb, ◌==◌,
  or_else, if◌then◌else◌, Text, Dict, lookup, insert, insert_all, dedupe,
}
use crypto_zalo_bot.Base.Int.{ℤ, pos, sub_ℕ}
use crypto_zalo_bot.Base.Number.{Number}
use crypto_zalo_bot.Alerts.{
  armed, fired, PriceAlert, AlertDelivery, RunOutcome, AlertRunSummary, run_send_budget_ms,
  watchdog_check_every_minutes,
}
use crypto_zalo_bot.Alerts.Evaluator.{AlertAction, fire, rearm, no_action, evaluate_alert}

-- Signed milliseconds from the nearest minute boundary.
unfoldable pub signed_minute_drift : ℕ → ℤ
signed_minute_drift at =
    if ltb 30_000 (at % 60_000) then sub_ℕ (at % 60_000) 60_000 else pos (at % 60_000)

-- `Math.round(at / 60_000) % 5 === 0`; `Math.round` takes a half up.
unfoldable pub is_watchdog_minute : ℕ → Bool
is_watchdog_minute at = ((at + 30_000) / 60_000) % watchdog_check_every_minutes == 0

unfoldable pub empty_run_summary : ℕ → RunOutcome → ℕ → AlertRunSummary
unfolding signed_minute_drift
empty_run_summary started_at outcome now = record {
  started_at = some started_at;
  outcome = some outcome;
  evaluated = 0;
  fired = 0;
  failed = 0;
  rearmed = 0;
  deferred = 0;
  duration_ms = sub_ℕ now started_at;
  drift_ms = signed_minute_drift started_at;
}

-- The counter of a send that was recorded.
abbrev tally : Bool → AlertRunSummary → AlertRunSummary
tally true s = record s { fired = s.fired + 1 }
tally false s = record s { failed = s.failed + 1 }

module _ {F : Type 0} where
  -- What is stored after a send, by whether it was delivered.
  unfoldable pub after_send : PriceAlert F → ℕ → Bool → PriceAlert F
  after_send alert now true = record alert {
    state = fired;
    last_fired_at = some now;
    last_failed_at = none;
    consecutive_failures = some 0;
  }
  after_send alert now false = record alert {
    last_failed_at = some now;
    consecutive_failures = some (or_else alert.consecutive_failures 0 + 1);
  }

  abbrev delivery : PriceAlert F → F → Bool → ℕ → AlertDelivery F
  delivery alert price_usd delivered now = record {
    alert_id = alert.id;
    chat_id = alert.chat_id;
    symbol = alert.symbol;
    direction = alert.direction;
    threshold = alert.threshold;
    price_usd = price_usd;
    delivered = delivered;
    attempted_at = now;
  }

  -- The rest of `loadPrices` once the coins are there: each symbol under its own name, or through
  -- the id that it resolves to.
  price_of : (Text → Text) → Dict F → Dict F → Text → Option F
  price_of resolve by_symbol by_id symbol = elim (lookup symbol by_symbol) [
    | some p ↦ some p
    | none ↦ lookup (resolve symbol) by_id
  ]

  prices_from : (Text → Option F) → List Text → Dict F
  prices_from price [] = []
  prices_from price (s ∷ ss) =
      let rest = prices_from price ss in elim (price s) [ some p ↦ (s, p) ∷ rest | none ↦ rest ]

  unfoldable pub prices_of : (Text → Text) → List (CoinPrice F) → List Text → Dict F
  unfolding prices_from price_of
  prices_of resolve coins symbols =
      prices_from
        (price_of resolve (insert_all (map (λ c. (c.symbol, c.price_usd)) coins) [])
          (insert_all (map (λ c. (c.id, c.price_usd)) coins) []))
        symbols

abbrev is_skipped : Option RunOutcome → Bool
is_skipped (some RunOutcome.skipped) = true
is_skipped _ = false

module _ (num : Number) (w : World num.F) (resolve : Text → Text) where
  open num use {F}

  fire_alert : PriceAlert F → F → ℕ → Action F (Unit {0})
  fire_alert alert price_usd now = do
    delivered ← read (Call.send_text_message alert price_usd) w.delivers
    let settled = after_send alert now delivered
    call w (Call.update_state settled) (λ _. tt)
    call w (Call.record_delivery (delivery alert price_usd delivered now)) (λ _. tt)
    count (tally delivered)

  -- A due alert is deferred when the send budget is used up, and stays armed for the next run.
  fire_within : Bool → PriceAlert F → F → ℕ → Action F (Unit {0})
  fire_within true alert price_usd now = count (λ s. record s { deferred = s.deferred + 1 })
  fire_within false alert price_usd now = fire_alert alert price_usd now

  act : AlertAction → PriceAlert F → F → ℕ → ℕ → Action F (Unit {0})
  act rearm alert price_usd now sends_started_at = do
    call w (Call.update_state (record alert { state = armed })) (λ _. tt)
    count (λ s. record s { rearmed = s.rearmed + 1 })
  act no_action alert price_usd now sends_started_at = pure tt
  act fire alert price_usd now sends_started_at = do
    t ← read Call.read_clock w.clock
    fire_within (ltb (sends_started_at + run_send_budget_ms) t) alert price_usd now

  unfoldable pub process_alert : PriceAlert F → F → ℕ → ℕ → Action F (Unit {0})
  unfolding act fire_within fire_alert
  process_alert alert price_usd now sends_started_at =
      act (evaluate_alert num alert price_usd now) alert price_usd now sends_started_at

  abbrev count_failed : Action F (Unit {0})
  count_failed = count (λ s. record s { failed = s.failed + 1 })

  -- One round of the loop: an alert with no price is passed over, and one that throws is counted.
  visit_at : Option F → ℕ → ℕ → PriceAlert F → Action F (Unit {0})
  visit_at none now sends_started_at alert = pure tt
  visit_at (some price_usd) now sends_started_at alert = do
    count (λ s. record s { evaluated = s.evaluated + 1 })
    catch (process_alert alert price_usd now sends_started_at) count_failed

  pub visit_alerts : Dict F → ℕ → ℕ → List (PriceAlert F) → Action F (Unit {0})
  visit_alerts prices now sends_started_at [] = pure tt
  visit_alerts prices now sends_started_at (a ∷ alerts) = do
    visit_at (lookup a.symbol prices) now sends_started_at a
    visit_alerts prices now sends_started_at alerts

  -- No alerts: no lookup. A lookup that throws gives no prices.
  load_prices : List (PriceAlert F) → Action F (Dict F)
  load_prices [] = pure []
  load_prices (a ∷ alerts) =
      let symbols = dedupe (map (λ x. x.symbol) (a ∷ alerts)) in
      catch
        (do
          coins ← call w (Call.get_prices_by_symbols symbols) w.coins
          pure (prices_of resolve coins symbols))
        (pure [])

  abbrev outcome_of : List (PriceAlert F) → Dict F → RunOutcome
  outcome_of (_ ∷ _) [] = RunOutcome.no_price
  outcome_of _ _ = RunOutcome.healthy

  run_check : ℕ → Action F (Unit {0})
  run_check started_at = do
    t ← read Call.read_clock w.clock
    count (λ _. empty_run_summary started_at RunOutcome.healthy t)
    alerts ← call w Call.list_all w.alerts
    prices ← load_prices alerts
    count (λ s. record s { outcome = some (outcome_of alerts prices) })
    sends_started_at ← read Call.read_clock w.clock
    visit_alerts prices started_at sends_started_at alerts
    end ← read Call.read_clock w.clock
    count (λ s. record s { duration_ms = sub_ℕ end started_at })

  -- The run under the lock, or skipped when another run holds it; `true` beside the lock's token.
  pub guarded_check : ℕ → Option ℕ → Action F (Unit {0})
  guarded_check started_at (some _) = run_check started_at
  guarded_check started_at none = do
    t ← read Call.read_clock w.clock
    count (λ _. empty_run_summary started_at RunOutcome.skipped t)

  -- `catch (error)`: the summary starts over, as a failed run's.
  pub fail_run : ℕ → Action F (Unit {0})
  fail_run started_at = do
    t ← read Call.read_clock w.clock
    count (λ _. empty_run_summary started_at RunOutcome.failed t)

  -- `finally`: the lock is released if it was taken; an error of that call is swallowed.
  pub release : Option ℕ → Action F (Unit {0})
  release none = pure tt
  release (some token) = catch (call w (Call.release_run_lock token) (λ _. tt)) (pure tt)

  guarded_and_released : ℕ → Option ℕ → Action F (Unit {0})
  guarded_and_released started_at token = do
    catch (guarded_check started_at token) (fail_run started_at)
    release token

  watch : Bool → Action F (Unit {0})
  watch true = catch (call w Call.check_watcher (λ _. tt)) (pure tt)
  watch false = pure tt

  -- The run log and, on every fifth minute of a run that was not skipped, the look at the watcher.
  pub record_and_watch : ℕ → Action F (Unit {0})
  record_and_watch started_at = do
    s ← get_summary
    catch (call w (Call.record_run s) (λ _. tt)) (pure tt)
    watch (not (is_skipped s.outcome) && is_watchdog_minute started_at)

  -- The run under the lock, if it could be taken.
  pub after_acquire : ℕ → Result (Option ℕ) → Action F (Unit {0})
  after_acquire started_at (ok token) = guarded_and_released started_at token
  after_acquire started_at threw = fail_run started_at

  pub check_price_alerts : ℕ → Action F (Unit {0})
  check_price_alerts started_at = do
    taken ← attempt (call w Call.acquire_run_lock w.lock_token)
    after_acquire started_at taken
    record_and_watch started_at
