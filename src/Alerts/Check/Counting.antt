-- ===== src/Alerts/Check/Counting.antt =====
-- The counters of a run's summary.
use crypto_zalo_bot.Base.{
  ℕ, ◌+◌, ◌≡◌, refl, Bool, true, false, some, none, Option, List, [], ◌∷◌, Text, Dict, lookup,
  arith,
}
use crypto_zalo_bot.Base.Number.{Number}
use crypto_zalo_bot.Alerts.{PriceAlert, AlertRunSummary}
use crypto_zalo_bot.Alerts.Evaluator.{AlertAction, fire, rearm, no_action, evaluate_alert}
use crypto_zalo_bot.Alerts.Check.Endings.{
  Ends, Ends-pure, Ends-count, Ends-then, Ends-catch, then-eq,
}
use crypto_zalo_bot.Alerts.Check.{
  World, Run, Result, ok, threw, read, call, count, pure, ◌>>=◌, ◌>>◌, catch, fire_alert,
  fire_within, act, process_alert, visit_at, visit_alerts,
}

-- The alerts that one run has done something about.
abbrev pub handled : AlertRunSummary → ℕ
handled s = s.fired + s.failed + s.rearmed + s.deferred

abbrev pub is_due : AlertAction → ℕ
is_due no_action = 0
is_due _ = 1

-- How one alert changes the counters: by one if it was due and nothing threw.
abbrev Counts : {F : Type 0} → ℕ → Run F → Result (Unit {0}) × Run F → Type 0
Counts n r (ok _, r') =
    (r'.summary.evaluated ≡ r.summary.evaluated) × (handled r'.summary ≡ handled r.summary + n)
Counts n r (threw, r') =
    (n ≡ 1)
    × (r'.summary.evaluated ≡ r.summary.evaluated)
    × (handled r'.summary ≡ handled r.summary)

-- Whether a price was found.
abbrev pub priced : {F : Type 0} → Option F → ℕ
priced none = 0
priced (some p) = 1

module _ (num : Number) (w : World num.F) (resolve : Text → Text) where
  open num use {F}

  fire_alert-Counts :
      (a : PriceAlert F) (p : F) (at : ℕ) (r : Run F)
      → Counts 1 r (fire_alert num w resolve a p at r)
  unfolding fire_alert call read count ◌>>=◌ ◌>>◌
  fire_alert-Counts a p at r = ground arith

  fire_within-Counts :
      (b : Bool) (a : PriceAlert F) (p : F) (at : ℕ) (r : Run F)
      → Counts 1 r (fire_within num w resolve b a p at r)
  unfolding fire_within count
  fire_within-Counts true a p at r = ground arith
  fire_within-Counts false a p at r = fire_alert-Counts a p at r

  act-Counts :
      (action : AlertAction) (a : PriceAlert F) (p : F) (at start : ℕ) (r : Run F)
      → Counts (is_due action) r (act num w resolve action a p at start r)
  unfolding act call read count pure ◌>>=◌ ◌>>◌
  act-Counts rearm a p at start r = ground arith
  act-Counts no_action a p at start r = ground arith
  act-Counts fire a p at start r = fire_within-Counts _ a p at _

  process_alert-Counts :
      (a : PriceAlert F) (p : F) (at start : ℕ) (r : Run F)
      → Counts (is_due (evaluate_alert num a p at)) r (process_alert num w resolve a p at start r)
  unfolding process_alert
  process_alert-Counts a p at start r = act-Counts (evaluate_alert num a p at) a p at start r

  -- Whether an alert was due at the price found, if one was.
  abbrev pub due : Option F → PriceAlert F → ℕ → ℕ
  due none a at = 0
  due (some p) a at = is_due (evaluate_alert num a p at)

  -- The loop's round with the counters, after the alert's part `m` of it.
  caught-Counts :
      (n : ℕ) (r : Run F) (q : Result (Unit {0}) × Run F)
      → Counts n r q
      → let (_, r') = catch (λ _. q) (count (λ s. record s { failed = s.failed + 1 })) r in
        (r'.summary.evaluated ≡ r.summary.evaluated) × (handled r'.summary ≡ handled r.summary + n)
  unfolding catch count
  caught-Counts n r (ok _, r') h = h
  caught-Counts n r (threw, r') h = omega arith

  visit_at-Counts :
      (o : Option F) (a : PriceAlert F) (at start : ℕ) (r : Run F)
      → let (_, r') = visit_at num w resolve o at start a r in
        (r'.summary.evaluated ≡ r.summary.evaluated + priced o)
        × (handled r'.summary ≡ handled r.summary + due o a at)
  unfolding visit_at pure ◌>>◌ ◌>>=◌ count catch
  visit_at-Counts none a at start r = omega arith
  visit_at-Counts (some p) a at start r =
      let r' : Run F = record r {
        summary = record (r.summary) { evaluated = r.summary.evaluated + 1 };
      } in
      let (e, h) =
        caught-Counts (is_due (evaluate_alert num a p at)) r'
          (process_alert num w resolve a p at start r') (process_alert-Counts a p at start r') in
      (e, h)

  module _ (prices : Dict F) (at start : ℕ) where
    abbrev pub priced_count : List (PriceAlert F) → ℕ
    priced_count [] = 0
    priced_count (a ∷ alerts) = priced (lookup a.symbol prices) + priced_count alerts

    abbrev pub due_count : List (PriceAlert F) → ℕ
    due_count [] = 0
    due_count (a ∷ alerts) = due (lookup a.symbol prices) a at + due_count alerts

    visit_at-Ends : (o : Option F) (a : PriceAlert F) → Ends (visit_at num w resolve o at start a)
    unfolding visit_at
    visit_at-Ends none a = Ends-pure tt
    visit_at-Ends (some p) a = Ends-then _ _ (Ends-count _) (Ends-catch _ _ (Ends-count _))

    -- Whatever any of the calls does, the loop goes through all the alerts: it has evaluated each
    -- alert that has a price, and every alert that was due stands in exactly one of the four counters
    -- (fired, failed, re-armed, deferred).
    pub visit_alerts-counts :
        (alerts : List (PriceAlert F)) (r : Run F)
        → let (result, r') = visit_alerts num w resolve prices at start alerts r in
          (result ≡ ok tt)
          × (r'.summary.evaluated ≡ r.summary.evaluated + priced_count alerts)
          × (handled r'.summary ≡ handled r.summary + due_count alerts)
    unfolding visit_alerts pure
    visit_alerts-counts [] r = (refl, omega arith, omega arith)
    visit_alerts-counts (a ∷ alerts) r =
        let o = lookup a.symbol prices in
        let r' = (visit_at num w resolve o at start a r).1 in
        let here = visit_at-Counts o a at start r in
        let (ends, evaluated, later) = visit_alerts-counts alerts r' in
        rw
          (then-eq (visit_at num w resolve o at start a)
            (visit_alerts num w resolve prices at start alerts) (visit_at-Ends o a) r)
          (ends, omega arith, omega arith)
