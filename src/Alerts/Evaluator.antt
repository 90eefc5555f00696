-- ===== src/Alerts/Evaluator.antt =====
-- What one check does with one alert (src/price-alerts/price-alert-evaluator.ts).
pub mod Laws
use crypto_zalo_bot.Base.{
  ℕ, ◌+◌, Bool, false, Option, none, some, ◌&&◌, ◌||◌, not, ltb, leb, or_else, if◌then◌else◌,
}
use crypto_zalo_bot.Base.Number.{Number}
use crypto_zalo_bot.Alerts.{
  AlertDirection, above, below, AlertState, armed, fired, PriceAlert, alert_cooldown_ms,
  alert_failures_before_backoff, alert_retry_backoff_ms,
}

-- `no_action` is the source's 'none'.
pub data AlertAction : Type 0 where
  fire rearm no_action : AlertAction

-- `now - t < window_ms`, and false where there is no time.
unfoldable pub within_window : Option ℕ → ℕ → ℕ → Bool
within_window none now window_ms = false
within_window (some t) now window_ms = ltb now (t + window_ms)

unfoldable pub is_backing_off : {F : Type 0} → PriceAlert F → ℕ → Bool
unfolding within_window
is_backing_off alert now =
    leb alert_failures_before_backoff (or_else alert.consecutive_failures 0)
    && within_window alert.last_failed_at now alert_retry_backoff_ms

module _ (num : Number) where
  open num use {F, lit, add, sub, mul, le}

  abbrev pub rearm_buffer_ratio : F
  rearm_buffer_ratio = lit 5 3

  unfoldable pub is_condition_met : AlertDirection → F → F → Bool
  is_condition_met above threshold price_usd = le threshold price_usd
  is_condition_met below threshold price_usd = le price_usd threshold

  -- The price is back past the threshold by the buffer.
  unfoldable pub is_rearmed : AlertDirection → F → F → Bool
  is_rearmed above threshold price_usd =
      le price_usd (mul threshold (sub (lit 1 0) rearm_buffer_ratio))
  is_rearmed below threshold price_usd =
      le (mul threshold (add (lit 1 0) rearm_buffer_ratio)) price_usd

  evaluate_in : AlertState → PriceAlert F → F → ℕ → AlertAction
  evaluate_in armed alert price_usd now =
      if not (is_condition_met alert.direction alert.threshold price_usd)
      then no_action
      else if within_window alert.last_fired_at now alert_cooldown_ms || is_backing_off alert now
      then no_action
      else fire
  evaluate_in fired alert price_usd now =
      if is_rearmed alert.direction alert.threshold price_usd then rearm else no_action

  unfoldable pub evaluate_alert : PriceAlert F → F → ℕ → AlertAction
  unfolding evaluate_in
  evaluate_alert alert price_usd now = evaluate_in alert.state alert price_usd now
