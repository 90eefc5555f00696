-- ===== src/Alerts/Check/Steps.antt =====
-- What the steps of a run make of the lock: the calls that leave it alone, and how each step ends.
use crypto_zalo_bot.Base.{
  ℕ, ◌≡◌, refl, Bool, true, false, some, none, Option, List, [], ◌∷◌, ◌++◌, Text, Dict, All,
}
use crypto_zalo_bot.Base.Number.{Number}
use crypto_zalo_bot.Alerts.{PriceAlert, AlertRunSummary}
use crypto_zalo_bot.Alerts.Check.{
  Call, World, Run, Result, ok, threw, Action, visit_alerts, load_prices, run_check, guarded_check,
  fail_run, release, watch, after_acquire, guarded_and_released, record_and_watch,
}
use crypto_zalo_bot.Alerts.Check.Effects.{
  Makes, Makes-pure, Makes-count, Makes-call, Makes-read, Makes-get_summary, Makes-bind, Makes-then,
  Makes-catch, Makes-sub,
}
use crypto_zalo_bot.Alerts.Check.Endings.{
  Ends, Ends-pure, Ends-count, Ends-read, Ends-get_summary, Ends-bind, Ends-then, Ends-catch,
}
use crypto_zalo_bot.Alerts.Check.Sends.{IsDue, IsDueTo, visit_alerts-Makes}

module _ {F : Type 0} where
  -- The lock tokens that were given back, the latest first.
  abbrev pub released : List (Call F) → List ℕ
  released [] = []
  released (Call.release_run_lock t ∷ cs) = t ∷ released cs
  released (_ ∷ cs) = released cs

  -- A call that leaves the lock alone.
  abbrev pub IsNoRelease : Call F → Type 0
  IsNoRelease (Call.release_run_lock t) = ⊥
  IsNoRelease _ = Unit

  -- A call that a run without the lock may make.
  abbrev pub IsBookkeeping : Call F → Type 0
  IsBookkeeping Call.read_clock = Unit
  IsBookkeeping Call.acquire_run_lock = Unit
  IsBookkeeping (Call.record_run _) = Unit
  IsBookkeeping Call.check_watcher = Unit
  IsBookkeeping _ = ⊥

  released-append :
      (new cs : List (Call F)) → All IsNoRelease new → released (new ++ cs) ≡ released cs
  released-append [] cs h = refl
  released-append (Call.read_clock ∷ new) cs (p, h) = released-append new cs h
  released-append (Call.acquire_run_lock ∷ new) cs (p, h) = released-append new cs h
  released-append (Call.list_all ∷ new) cs (p, h) = released-append new cs h
  released-append (Call.check_watcher ∷ new) cs (p, h) = released-append new cs h
  released-append (Call.release_run_lock t ∷ new) cs (p, h) = absurd p
  released-append (Call.get_prices_by_symbols _ ∷ new) cs (p, h) = released-append new cs h
  released-append (Call.send_text_message _ _ ∷ new) cs (p, h) = released-append new cs h
  released-append (Call.update_state _ ∷ new) cs (p, h) = released-append new cs h
  released-append (Call.record_delivery _ ∷ new) cs (p, h) = released-append new cs h
  released-append (Call.record_run _ ∷ new) cs (p, h) = released-append new cs h

  pub released-Makes :
      {A : Type 0} (m : Action F A)
      → Makes IsNoRelease m
      → (r : Run F) → released (m r).1.calls ≡ released r.calls
  released-Makes m h r = rw (h.adds r) (released-append (h.new r) r.calls (h.each r))

abbrev pub tokens : Option ℕ → List ℕ
tokens none = []
tokens (some t) = t ∷ []

abbrev pub taken_tokens : Result (Option ℕ) → List ℕ
taken_tokens (ok o) = tokens o
taken_tokens threw = []

module _ (num : Number) (w : World num.F) (resolve : Text → Text) where
  open num use {F}

  IsDueTo-IsNoRelease :
      (at : ℕ) (a : PriceAlert F) (p : F) (c : Call F) → IsDueTo num at a p c → IsNoRelease c
  IsDueTo-IsNoRelease at a p (Call.release_run_lock t) d = d
  IsDueTo-IsNoRelease at a p Call.read_clock d = tt
  IsDueTo-IsNoRelease at a p _ d = tt

  load_prices-Makes :
      (alerts : List (PriceAlert F)) → Makes IsNoRelease (load_prices num w resolve alerts)
  unfolding load_prices
  load_prices-Makes [] = Makes-pure _ _
  load_prices-Makes (a ∷ alerts) =
      Makes-catch _ _ _ (Makes-bind _ _ _ (Makes-call _ w _ _ tt) (λ coins. Makes-pure _ _))
        (Makes-pure _ _)

  visit-Makes :
      (at start : ℕ) (prices : Dict F) (alerts : List (PriceAlert F))
      → Makes IsNoRelease (visit_alerts num w resolve prices at start alerts)
  visit-Makes at start prices alerts =
      Makes-sub (IsDue num at w resolve prices alerts) IsNoRelease
        (λ c d. IsDueTo-IsNoRelease at d.alert d.price c d.due)
        (visit_alerts-Makes num at w resolve prices alerts start)

  run_check-Makes : (at : ℕ) → Makes IsNoRelease (run_check num w resolve at)
  unfolding run_check
  run_check-Makes at = Makes-bind _ _ _ (Makes-read _ Call.read_clock w.clock tt) (λ t.
      Makes-then _ _ _ (Makes-count _ _) (
        Makes-bind _ _ _ (Makes-call _ w Call.list_all w.alerts tt) (λ alerts.
          Makes-bind _ _ _ (load_prices-Makes alerts) (λ prices.
            Makes-then _ _ _ (Makes-count _ _) (
              Makes-bind _ _ _ (Makes-read _ Call.read_clock w.clock tt) (λ start.
                Makes-then _ _ _ (visit-Makes at start prices alerts) (
                  Makes-bind _ _ _ (Makes-read _ Call.read_clock w.clock tt)
                    (λ end. Makes-count _ _))))))))

  pub fail_run-Makes :
      (P : Call F → Type 0) (at : ℕ) → P Call.read_clock → Makes P (fail_run num w resolve at)
  unfolding fail_run
  fail_run-Makes P at p =
      Makes-bind _ _ _ (Makes-read _ Call.read_clock w.clock p) (λ t. Makes-count _ _)

  pub guarded_check-Makes :
      (at : ℕ) (o : Option ℕ) → Makes IsNoRelease (guarded_check num w resolve at o)
  unfolding guarded_check
  guarded_check-Makes at (some _) = run_check-Makes at
  guarded_check-Makes at none =
      Makes-bind _ _ _ (Makes-read _ Call.read_clock w.clock tt) (λ t. Makes-count _ _)

  module _ (P : Call F → Type 0) (watched : P Call.check_watcher) where
    watch-Makes : (b : Bool) → Makes P (watch num w resolve b)
    unfolding watch
    watch-Makes true = Makes-catch _ _ _ (Makes-call _ w _ _ watched) (Makes-pure _ _)
    watch-Makes false = Makes-pure _ _

    pub record_and_watch-Makes :
        (at : ℕ)
        → ((s : AlertRunSummary) → P (Call.record_run s))
        → Makes P (record_and_watch num w resolve at)
    unfolding record_and_watch
    record_and_watch-Makes at p = Makes-bind _ _ _ (Makes-get_summary _) (λ s.
        Makes-then _ _ _ (Makes-catch _ _ _ (Makes-call _ w _ _ (p s)) (Makes-pure _ _))
          (watch-Makes _))

  pub fail_run-Ends : (at : ℕ) → Ends (fail_run num w resolve at)
  unfolding fail_run
  fail_run-Ends at = Ends-bind _ _ (Ends-read Call.read_clock w.clock) (λ t. Ends-count _)

  release-Ends : (o : Option ℕ) → Ends (release num w resolve o)
  unfolding release
  release-Ends none = Ends-pure tt
  release-Ends (some t) = Ends-catch _ _ (Ends-pure tt)

  guarded_and_released-Ends :
      (at : ℕ) (o : Option ℕ) → Ends (guarded_and_released num w resolve at o)
  unfolding guarded_and_released
  guarded_and_released-Ends at o =
      Ends-then _ _ (Ends-catch _ _ (fail_run-Ends at)) (release-Ends o)

  pub after_acquire-Ends :
      (at : ℕ) (a : Result (Option ℕ)) → Ends (after_acquire num w resolve at a)
  unfolding after_acquire
  after_acquire-Ends at (ok o) = guarded_and_released-Ends at o
  after_acquire-Ends at threw = fail_run-Ends at

  watch-Ends : (b : Bool) → Ends (watch num w resolve b)
  unfolding watch
  watch-Ends true = Ends-catch _ _ (Ends-pure tt)
  watch-Ends false = Ends-pure tt

  pub record_and_watch-Ends : (at : ℕ) → Ends (record_and_watch num w resolve at)
  unfolding record_and_watch
  record_and_watch-Ends at =
      Ends-bind _ _ Ends-get_summary
        (λ s. Ends-then _ _ (Ends-catch _ _ (Ends-pure tt)) (watch-Ends _))
