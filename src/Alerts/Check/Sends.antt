-- ===== src/Alerts/Check/Sends.antt =====
-- What the loop over the alerts sends and stores.
use mathlib.Core.List.{Memᴰ}
use crypto_zalo_bot.Base.{
  ℕ, ◌≡◌, refl, ◌⊎◌, inl, inr, Bool, true, false, some, none, Option, List, [], ◌∷◌, Text, Dict,
  lookup,
}
use crypto_zalo_bot.Base.Number.{Number}
use crypto_zalo_bot.Alerts.{PriceAlert, armed}
use crypto_zalo_bot.Alerts.Evaluator.{AlertAction, fire, rearm, no_action, evaluate_alert}
use crypto_zalo_bot.Alerts.Evaluator.Laws.{MayFire, evaluate_alert-fire_iff}
use crypto_zalo_bot.Alerts.Check.{
  Call, World, after_send, fire_alert, fire_within, act, process_alert, visit_at, visit_alerts,
}
use crypto_zalo_bot.Alerts.Check.Effects.{
  Makes, Makes-pure, Makes-count, Makes-call, Makes-read, Makes-bind, Makes-then, Makes-catch,
  Makes-sub,
}

module _ (num : Number) (at : ℕ) where
  open num use {F}

  -- A call that the check may make for one alert at one price. A message is sent and a delivery is
  -- logged only for an alert that may fire; what is stored is the alert re-armed, or as it is after a
  -- send of an alert that may fire.
  abbrev pub IsDueTo : PriceAlert F → F → Call F → Type 0
  IsDueTo a p (Call.send_text_message a' p') = (a' ≡ a) × (p' ≡ p) × MayFire num a p at
  IsDueTo a p (Call.update_state a') =
      ((evaluate_alert num a p at ≡ rearm) × (a' ≡ record a { state = armed }))
      ⊎ (MayFire num a p at × ((a' ≡ after_send a at true) ⊎ (a' ≡ after_send a at false)))
  IsDueTo a p (Call.record_delivery d) =
      (d.alert_id ≡ a.id) × (d.price_usd ≡ p) × MayFire num a p at
  IsDueTo a p Call.read_clock = Unit
  IsDueTo a p _ = ⊥

  module _ (w : World F) (resolve : Text → Text) where
    settled-cases :
        (a : PriceAlert F) (d : Bool)
        → (after_send a at d ≡ after_send a at true) ⊎ (after_send a at d ≡ after_send a at false)
    settled-cases a true = inl refl
    settled-cases a false = inr refl

    fire_alert-Makes :
        (a : PriceAlert F) (p : F)
        → MayFire num a p at
        → Makes (IsDueTo a p) (fire_alert num w resolve a p at)
    unfolding fire_alert
    fire_alert-Makes a p may =
        Makes-bind _ _ _ (Makes-read _ (Call.send_text_message a p) w.delivers (refl, refl, may))
          (λ d.
            Makes-then _ _ _ (Makes-call _ w _ _ (inr (may, settled-cases a d)))
              (Makes-then _ _ _ (Makes-call _ w _ _ (refl, refl, may)) (Makes-count _ _)))

    fire_within-Makes :
        (b : Bool) (a : PriceAlert F) (p : F)
        → MayFire num a p at
        → Makes (IsDueTo a p) (fire_within num w resolve b a p at)
    unfolding fire_within
    fire_within-Makes true a p may = Makes-count _ _
    fire_within-Makes false a p may = fire_alert-Makes a p may

    act-Makes :
        (action : AlertAction) (a : PriceAlert F) (p : F) (start : ℕ)
        → evaluate_alert num a p at ≡ action
        → Makes (IsDueTo a p) (act num w resolve action a p at start)
    unfolding act
    act-Makes rearm a p start e =
        Makes-then _ _ _ (Makes-call _ w _ _ (inl (e, refl))) (Makes-count _ _)
    act-Makes no_action a p start e = Makes-pure _ _
    act-Makes fire a p start e =
        Makes-bind _ _ _ (Makes-read _ Call.read_clock w.clock tt)
          (λ t. fire_within-Makes _ a p ((evaluate_alert-fire_iff num a p at).0 e))

    process_alert-Makes :
        (a : PriceAlert F) (p : F) (start : ℕ)
        → Makes (IsDueTo a p) (process_alert num w resolve a p at start)
    unfolding process_alert
    process_alert-Makes a p start = act-Makes (evaluate_alert num a p at) a p start refl

    module _ (prices : Dict F) where
      -- A call that is due to one of the alerts, at the price found for its coin.
      pub record IsDue (alerts : List (PriceAlert F)) (c : Call F) : Type 0 where
        pub alert : PriceAlert F
        pub price : F
        pub listed : Memᴰ alert alerts
        pub priced : lookup alert.symbol prices ≡ some price
        pub due : IsDueTo alert price c

      visit_at-Makes :
          (alerts : List (PriceAlert F)) (a : PriceAlert F) (start : ℕ) (o : Option F)
          → Memᴰ a alerts
          → lookup a.symbol prices ≡ o
          → Makes (IsDue alerts) (visit_at num w resolve o at start a)
      unfolding visit_at
      visit_at-Makes alerts a start none m e = Makes-pure _ tt
      visit_at-Makes alerts a start (some p) m e = Makes-then _ _ _ (Makes-count _ _) (
          Makes-catch _ _ _
            (Makes-sub (IsDueTo a p) (IsDue alerts)
              (λ c d. record { alert = a; price = p; listed = m; priced = e; due = d })
              (process_alert-Makes a p start))
            (Makes-count _ _))

      IsDue-cons :
          (a : PriceAlert F) (alerts : List (PriceAlert F)) (c : Call F)
          → IsDue alerts c
          → IsDue (a ∷ alerts) c
      IsDue-cons a alerts c d = record {
        alert = d.alert;
        price = d.price;
        listed = Memᴰ.tail d.listed;
        priced = d.priced;
        due = d.due;
      }

      -- Every call that the loop over the alerts makes is due to one of them, at the price found for
      -- its coin: it sends a message and logs a delivery only for an alert that may fire, and stores
      -- an alert only as re-armed or as it is after such a send.
      pub visit_alerts-Makes :
          (alerts : List (PriceAlert F)) (start : ℕ)
          → Makes (IsDue alerts) (visit_alerts num w resolve prices at start alerts)
      unfolding visit_alerts
      visit_alerts-Makes [] start = Makes-pure _ tt
      visit_alerts-Makes (a ∷ alerts) start =
          Makes-then _ _ _ (visit_at-Makes (a ∷ alerts) a start _ (Memᴰ.head refl) refl) (
            Makes-sub (IsDue alerts) (IsDue (a ∷ alerts)) (IsDue-cons a alerts)
              (visit_alerts-Makes alerts start))
