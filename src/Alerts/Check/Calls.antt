-- ===== src/Alerts/Check/Calls.antt =====
-- What a run of the check calls (the alert store, the price source, the chat service, the clock and
-- the watcher's own check), and the world that answers: each answer is a function of the calls made
-- so far, newest first, so that nothing is assumed of the services.
use crypto_zalo_bot.Base.{ℕ, Bool, Option, List, ◌∷◌, Text, if◌then◌else◌}
use crypto_zalo_bot.Alerts.{PriceAlert, AlertDelivery, AlertRunSummary}

pub data Call (F : Type 0) : Type 0 where
  read_clock acquire_run_lock list_all check_watcher : Call F
  release_run_lock : ℕ → Call F
  get_prices_by_symbols : List Text → Call F
  -- The text of an alert message is made from the alert and the price.
  send_text_message : PriceAlert F → F → Call F
  update_state : PriceAlert F → Call F
  record_delivery : AlertDelivery F → Call F
  record_run : AlertRunSummary → Call F

-- A coin as the price source returns it.
pub record CoinPrice (F : Type 0) : Type 0 where
  pub id : Text
  pub symbol : Text
  pub price_usd : F

pub record World (F : Type 0) : Type 0 where
  pub throws : List (Call F) → Bool
  pub clock : List (Call F) → ℕ
  pub lock_token : List (Call F) → Option ℕ
  pub alerts : List (Call F) → List (PriceAlert F)
  pub coins : List (Call F) → List (CoinPrice F)
  pub delivers : List (Call F) → Bool

-- The state of a run: the calls made, newest first, and the summary that the handlers count in.
pub record Run (F : Type 0) : Type 0 where
  pub calls : List (Call F)
  pub summary : AlertRunSummary

pub data Result (A : Type 0) : Type 0 where
  ok : A → Result A
  threw : Result A

abbrev pub Action : Type 0 → Type 0 → Type 0
Action F A = Run F → Result A × Run F

module _ {F : Type 0} where
  unfoldable pub pure : {A : Type 0} → A → Action F A
  pure a r = (ok a, r)

  infixl 5 ◌>>=◌ ◌>>◌
  unfoldable pub ◌>>=◌ : {A B : Type 0} → Action F A → (A → Action F B) → Action F B
  ◌>>=◌ m f r = let (a, r') = m r in elim a [ ok x ↦ f x r' | threw ↦ (threw, r') ]

  unfoldable pub ◌>>◌ : {A B : Type 0} → Action F A → Action F B → Action F B
  unfolding ◌>>=◌
  m >> k = m >>= λ _. k

  -- `try { m } catch { k }`: what `m` called and counted stays.
  unfoldable pub catch : {A : Type 0} → Action F A → Action F A → Action F A
  catch m k r = let (a, r') = m r in elim a [ ok x ↦ (ok x, r') | threw ↦ k r' ]

  -- How `m` ended, as a value.
  unfoldable pub attempt : {A : Type 0} → Action F A → Action F (Result A)
  attempt m r = let (a, r') = m r in (ok a, r')

  unfoldable pub get_summary : Action F AlertRunSummary
  get_summary r = (ok r.summary, r)

  unfoldable pub count : (AlertRunSummary → AlertRunSummary) → Action F (Unit {0})
  count f r = (ok tt, record r { summary = f r.summary })

  -- A call is on record also when it throws.
  unfoldable pub call : World F → Call F → {A : Type 0} → (List (Call F) → A) → Action F A
  call w c answer r =
      let calls = c ∷ r.calls in
      (if w.throws calls then threw else ok (answer calls), record r { calls = calls })

  -- The clock and the chat service never throw.
  unfoldable pub read : Call F → {A : Type 0} → (List (Call F) → A) → Action F A
  read c answer r = let calls = c ∷ r.calls in (ok (answer calls), record r { calls = calls })
