-- ===== src/Alerts/Check/Cooldown.antt =====
-- One alert over many runs: how far apart its messages are.
use crypto_zalo_bot.Base.{ℕ, ◌≡◌, true, false, some, Option, List, [], ◌∷◌, ◌++◌, Text, ◌⊎◌}
use crypto_zalo_bot.Base.Number.{Number}
use crypto_zalo_bot.Alerts.{PriceAlert, AlertRunSummary, AlertDelivery, alert_cooldown_ms}
use crypto_zalo_bot.Alerts.Evaluator.Laws.{HasPassed}
use crypto_zalo_bot.Alerts.Check.{Call, World, process_alert}

module _ {F : Type 0} where
  -- What the store holds for the alert after the calls: the latest state written.
  abbrev pub stored : PriceAlert F → List (Call F) → PriceAlert F
  stored a [] = a
  stored a (Call.update_state a' ∷ cs) = a'
  stored a (_ ∷ cs) = stored a cs

  abbrev sent_at : AlertDelivery F → List ℕ
  sent_at d = elim d.delivered [ true ↦ d.attempted_at ∷ [] | false ↦ [] ]

  -- When the logged deliveries of one visit were made.
  abbrev pub delivered_at : List (Call F) → List ℕ
  delivered_at [] = []
  delivered_at (Call.record_delivery d ∷ cs) = sent_at d
  delivered_at (_ ∷ cs) = delivered_at cs

-- One visit of the check to the alert: the price and the times of the run, and a world in which the
-- store takes what is written.
pub record Visit (F : Type 0) : Type 0 where
  pub world : World F
  pub stores : (cs : List (Call F)) → world.throws cs ≡ false
  pub price : F
  pub at : ℕ
  pub sends_started_at : ℕ
  pub summary : AlertRunSummary

-- Each time is at least the cooldown after the one before it, the first after `o`.
abbrev pub IsSpaced : Option ℕ → List ℕ → Type 0
IsSpaced o [] = Unit
IsSpaced o (t ∷ ts) = HasPassed o t alert_cooldown_ms × IsSpaced (some t) ts

-- What one visit does to an alert last fired at `o`: nothing is sent, or one message, after the
-- cooldown, whose time is stored.
abbrev Keeps : Option ℕ → ℕ → Option ℕ → List ℕ → Type 0
Keeps o at o' ts =
    ((ts ≡ []) × (o' ≡ o)) ⊎ ((ts ≡ at ∷ []) × (o' ≡ some at) × HasPassed o at alert_cooldown_ms)

module _ (num : Number) (resolve : Text → Text) where
  open num use {F}

  abbrev visit_calls : PriceAlert F → Visit F → List (Call F)
  visit_calls a v =
      (process_alert num v.world resolve a v.price v.at v.sends_started_at
        (record { calls = []; summary = v.summary })).1.calls

  -- The times of the messages of an alert that is visited again and again, oldest first.
  abbrev pub messages : PriceAlert F → List (Visit F) → List ℕ
  messages a [] = []
  messages a (v ∷ vs) = let cs = visit_calls a v in delivered_at cs ++ messages (stored a cs) vs
