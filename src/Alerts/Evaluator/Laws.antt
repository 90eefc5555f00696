-- ===== src/Alerts/Evaluator/Laws.antt =====
-- When an alert fires and when it re-arms.
use crypto_zalo_bot.Base.{
  ℕ, ◌+◌, ◌≤◌, ◌≡◌, ◌⊎◌, ◌↔◌, inl, inr, true, false, some, none, arith, or_else, Bool-cases, ◌<◌,
  refl, Option, leb, Bool,
}
use crypto_zalo_bot.Base.Number.{Number}
use crypto_zalo_bot.Alerts.{
  AlertDirection, above, below, armed, fired, PriceAlert, alert_cooldown_ms,
  alert_failures_before_backoff, alert_retry_backoff_ms,
}
use crypto_zalo_bot.Alerts.Evaluator.{
  fire, rearm, within_window, is_condition_met, is_rearmed, is_backing_off, evaluate_in,
  rearm_buffer_ratio, evaluate_alert,
}

-- The window has passed since the time, if there is one.
abbrev pub HasPassed : Option ℕ → ℕ → ℕ → Type 0
HasPassed o now window_ms = (t : ℕ) → o ≡ some t → t + window_ms ≤ now

within_window-HasPassed :
    (o : Option ℕ) (now window_ms : ℕ)
    → within_window o now window_ms ≡ false
    → HasPassed o now window_ms
unfolding within_window
within_window-HasPassed none now window_ms h t e = cc
within_window-HasPassed (some t') now window_ms h t e = ground arith

HasPassed-within_window :
    (o : Option ℕ) (now window_ms : ℕ)
    → HasPassed o now window_ms
    → within_window o now window_ms ≡ false
unfolding within_window
HasPassed-within_window none now window_ms h = refl
HasPassed-within_window (some t) now window_ms h = ground (arith, h t refl)

-- Few failures in a row, or the backoff after the last one is over.
abbrev pub IsRetryable : {F : Type 0} → PriceAlert F → ℕ → Type 0
IsRetryable alert now =
    (or_else alert.consecutive_failures 0 < alert_failures_before_backoff)
    ⊎ HasPassed alert.last_failed_at now alert_retry_backoff_ms

is_backing_off-IsRetryable :
    {F : Type 0} (alert : PriceAlert F) (now : ℕ)
    → is_backing_off alert now ≡ false
    → IsRetryable alert now
unfolding is_backing_off
is_backing_off-IsRetryable alert now h =
    elim (Bool-cases (leb alert_failures_before_backoff (or_else alert.consecutive_failures 0))) [
      | inl many ↦ inr (within_window-HasPassed _ _ _ (ground arith))
      | inr few ↦ inl (ground arith)
    ]

IsRetryable-is_backing_off :
    {F : Type 0} (alert : PriceAlert F) (now : ℕ)
    → IsRetryable alert now
    → is_backing_off alert now ≡ false
unfolding is_backing_off
IsRetryable-is_backing_off alert now (inl few) = ground arith
IsRetryable-is_backing_off alert now (inr over) = ground (arith, HasPassed-within_window _ _ _ over)

module _ (num : Number) where
  open num use {F}

  -- The price is at or past the threshold, on the side that the alert watches.
  abbrev pub HasCrossed : AlertDirection → F → F → Type 0
  HasCrossed above threshold price_usd = num.le threshold price_usd ≡ true
  HasCrossed below threshold price_usd = num.le price_usd threshold ≡ true

  is_condition_met-HasCrossed :
      (d : AlertDirection) (threshold price_usd : F)
      → is_condition_met num d threshold price_usd ≡ true
      → HasCrossed d threshold price_usd
  unfolding is_condition_met
  is_condition_met-HasCrossed above threshold price_usd h = h
  is_condition_met-HasCrossed below threshold price_usd h = h

  HasCrossed-is_condition_met :
      (d : AlertDirection) (threshold price_usd : F)
      → HasCrossed d threshold price_usd
      → is_condition_met num d threshold price_usd ≡ true
  unfolding is_condition_met
  HasCrossed-is_condition_met above threshold price_usd h = h
  HasCrossed-is_condition_met below threshold price_usd h = h

  -- The rules by which an alert may fire, stated without the code's tests.
  pub record MayFire (alert : PriceAlert F) (price_usd : F) (now : ℕ) : Type 0 where
    pub waiting : alert.state ≡ armed
    pub crossed : HasCrossed alert.direction alert.threshold price_usd
    pub cooled : HasPassed alert.last_fired_at now alert_cooldown_ms
    pub retryable : IsRetryable alert now

  fire-MayFire :
      (alert : PriceAlert F) (price_usd : F) (now : ℕ)
      → evaluate_alert num alert price_usd now ≡ fire
      → MayFire alert price_usd now
  unfolding evaluate_alert evaluate_in
  fire-MayFire alert price_usd now h = record {
    waiting = ground arith;
    crossed = is_condition_met-HasCrossed alert.direction alert.threshold price_usd (ground arith);
    cooled = within_window-HasPassed _ _ _ (ground arith);
    retryable = is_backing_off-IsRetryable alert now (ground arith);
  }

  MayFire-fire :
      (alert : PriceAlert F) (price_usd : F) (now : ℕ)
      → MayFire alert price_usd now
      → evaluate_alert num alert price_usd now ≡ fire
  unfolding evaluate_alert evaluate_in
  MayFire-fire alert price_usd now h = ground (
    arith,
    HasCrossed-is_condition_met alert.direction alert.threshold price_usd h.crossed,
    HasPassed-within_window _ _ _ h.cooled,
    IsRetryable-is_backing_off alert now h.retryable,
  )

  -- An alert fires exactly when it is armed, the price is at or past the threshold, the cooldown
  -- since its last message is over, and it has failed fewer than three times in a row or the backoff
  -- since the last failure is over.
  pub evaluate_alert-fire_iff :
      (alert : PriceAlert F) (price_usd : F) (now : ℕ)
      → (evaluate_alert num alert price_usd now ≡ fire) ↔ MayFire alert price_usd now
  evaluate_alert-fire_iff alert price_usd now =
      (fire-MayFire alert price_usd now, MayFire-fire alert price_usd now)

  -- What the rules on re-arming rely on of the arithmetic of doubles at the threshold: `<=` is
  -- transitive, and the buffer moves a level strictly.
  pub record HasBuffer (threshold : F) : Type 0 where
    pub trans : (a b c : F) → num.le a b ≡ true → num.le b c ≡ true → num.le a c ≡ true
    pub lower :
        num.le threshold (num.mul threshold (num.sub (num.lit 1 0) (rearm_buffer_ratio num)))
        ≡ false
    pub upper :
        num.le (num.mul threshold (num.add (num.lit 1 0) (rearm_buffer_ratio num))) threshold
        ≡ false

  le-false_of :
      (a b : F) {c : Bool} → num.le a b ≡ c → (num.le a b ≡ true → c ≡ false) → num.le a b ≡ false
  le-false_of a b {c = true} e f = cc (f e)
  le-false_of a b {c = false} e f = e

  is_condition_met-is_rearmed :
      (d : AlertDirection) (t p : F)
      → HasBuffer t
      → is_condition_met num d t p ≡ true
      → is_rearmed num d t p ≡ false
  unfolding is_condition_met is_rearmed
  is_condition_met-is_rearmed above t p h m =
      le-false_of p _ refl (λ c. cc (h.trans t p _ m c, h.lower))
  is_condition_met-is_rearmed below t p h m =
      le-false_of _ p refl (λ c. cc (h.trans _ p t c m, h.upper))

  -- A price that meets the condition never re-arms the alert: an alert that has just fired stays
  -- fired until the price has gone back, so that a price at the level does not flap.
  evaluate_alert-rearm_excludes :
      (alert : PriceAlert F) (price_usd : F) (now : ℕ)
      → HasBuffer alert.threshold
      → evaluate_alert num alert price_usd now ≡ rearm
      → (alert.state ≡ fired)
        × (is_condition_met num alert.direction alert.threshold price_usd ≡ false)
  unfolding evaluate_alert
  evaluate_alert-rearm_excludes alert price_usd now b h =
      elim (Bool-cases (is_condition_met num alert.direction alert.threshold price_usd)) [
        | inl met ↦ absurd (
            ground
              (arith, is_condition_met-is_rearmed alert.direction alert.threshold price_usd b met))
        | inr unmet ↦ (ground arith, unmet)
      ]
