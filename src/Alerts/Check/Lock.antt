-- ===== src/Alerts/Check/Lock.antt =====
-- The run lock: who touches alerts, and when the lock is given back.
use crypto_zalo_bot.Base.{
  ℕ, ◌≡◌, refl, ◌∙◌, ap, ap₂, arith, true, false, some, none, Option, List, [], ◌∷◌, ◌++◌, Text,
  All, All-append,
}
use mathlib.Core.List.{append_assoc}
use crypto_zalo_bot.Base.Number.{Number}
use crypto_zalo_bot.Alerts.Check.{
  Call, World, Run, Result, ok, threw, Action, pure, ◌>>=◌, ◌>>◌, catch, attempt, call,
  guarded_check, fail_run, release, after_acquire, guarded_and_released, record_and_watch,
  check_price_alerts,
}
use crypto_zalo_bot.Alerts.Check.Effects.{
  Makes, Makes-pure, Makes-count, Makes-read, Makes-bind, Makes-then, Makes-catch,
}
use crypto_zalo_bot.Alerts.Check.Endings.{
  Ends, Ends-bind, Ends-then, Ends-catch, Ends-attempt, then-eq,
}
use crypto_zalo_bot.Alerts.Check.Steps.{
  released, IsNoRelease, IsBookkeeping, released-Makes, tokens, taken_tokens, fail_run-Makes,
  guarded_check-Makes, record_and_watch-Makes, fail_run-Ends, after_acquire-Ends,
  record_and_watch-Ends,
}

module _ (num : Number) (w : World num.F) (resolve : Text → Text) where
  open num use {F}

  check-Ends : (at : ℕ) → Ends (check_price_alerts num w resolve at)
  unfolding check_price_alerts
  check-Ends at = Ends-bind _ _ (Ends-attempt _) (λ a.
      Ends-then _ _ (after_acquire-Ends num w resolve at a)
        (record_and_watch-Ends num w resolve at))

  -- The check answers normally whichever of its calls to the alert store, the price source and the
  -- watcher's check throw.
  pub check_price_alerts-ok :
      (at : ℕ) (r : Run F) → (check_price_alerts num w resolve at r).0 ≡ ok tt
  check_price_alerts-ok at r = (check-Ends at r).1

  -- The token with which a run started after the calls `cs` holds the lock.
  abbrev pub held : List (Call F) → List ℕ
  held cs = elim (w.throws (Call.acquire_run_lock ∷ cs)) [
    | true ↦ []
    | false ↦ tokens (w.lock_token (Call.acquire_run_lock ∷ cs))
  ]

  release-released :
      (o : Option ℕ) (r : Run F)
      → released (release num w resolve o r).1.calls ≡ tokens o ++ released r.calls
  unfolding release catch call pure
  release-released none r = refl
  release-released (some t) r = ground arith

  guarded_and_released-released :
      (at : ℕ) (o : Option ℕ) (r : Run F)
      → released (guarded_and_released num w resolve at o r).1.calls ≡ tokens o ++ released r.calls
  unfolding guarded_and_released
  guarded_and_released-released at o r =
      rw
        (then-eq (catch (guarded_check num w resolve at o) (fail_run num w resolve at))
          (release num w resolve o) (Ends-catch _ _ (fail_run-Ends num w resolve at)) r)
        (release-released o _
          ∙ ap (λ ts. tokens o ++ ts)
              (released-Makes _
                (Makes-catch _ _ _ (guarded_check-Makes num w resolve at o)
                  (fail_run-Makes num w resolve _ at tt))
                r))

  after_acquire-released :
      (at : ℕ) (a : Result (Option ℕ)) (r : Run F)
      → released (after_acquire num w resolve at a r).1.calls ≡ taken_tokens a ++ released r.calls
  unfolding after_acquire
  after_acquire-released at (ok o) r = guarded_and_released-released at o r
  after_acquire-released at threw r = released-Makes _ (fail_run-Makes num w resolve _ at tt) r

  acquire : Action F (Option ℕ)
  acquire = call w Call.acquire_run_lock w.lock_token

  taken-held : (r : Run F) → taken_tokens (acquire r).0 ≡ held r.calls
  unfolding acquire call
  taken-held r = ground arith

  released-acquire : (r : Run F) → released (acquire r).1.calls ≡ released r.calls
  unfolding acquire call
  released-acquire r = refl

  check-eq :
      (at : ℕ) (r : Run F)
      → check_price_alerts num w resolve at r
        ≡ (after_acquire num w resolve at (acquire r).0 >> record_and_watch num w resolve at)
            (acquire r).1
  unfolding check_price_alerts ◌>>=◌ attempt acquire
  check-eq at r = refl

  -- A run gives back exactly the token it took, once, however it ends, and no other token.
  pub check_price_alerts-released :
      (at : ℕ) (r : Run F)
      → released (check_price_alerts num w resolve at r).1.calls ≡ held r.calls ++ released r.calls
  check_price_alerts-released at r =
      rw
        (
          check-eq at r,
          then-eq (after_acquire num w resolve at (acquire r).0) (record_and_watch num w resolve at)
              (after_acquire-Ends num w resolve at _) (acquire r).1,
        )
        (released-Makes _ (record_and_watch-Makes num w resolve IsNoRelease tt at (λ _. tt)) _
          ∙ after_acquire-released at (acquire r).0 (acquire r).1
          ∙ ap₂ ◌++◌ (taken-held r) (released-acquire r))

  -- What a run that found the lock taken, or could not ask, goes on to do.
  without_lock-Makes :
      (at : ℕ) (a : Result (Option ℕ))
      → taken_tokens a ≡ []
      → Makes IsBookkeeping (after_acquire num w resolve at a)
  unfolding after_acquire guarded_and_released guarded_check release
  without_lock-Makes at (ok none) e =
      Makes-then _ _ _
        (Makes-catch _ _ _
          (Makes-bind _ _ _ (Makes-read _ Call.read_clock w.clock tt) (λ t. Makes-count _ _))
          (fail_run-Makes num w resolve _ at tt))
        (Makes-pure _ _)
  without_lock-Makes at (ok (some t)) e = absurd (cc)
  without_lock-Makes at threw e = fail_run-Makes num w resolve _ at tt

  -- A run without the lock touches no alert: it does not list, price, message or store any, and gives
  -- no lock back. Each call that it makes asks for the lock, reads the clock, records the run or looks
  -- at the watcher, which has messages of its own.
  pub check_price_alerts-skipped :
      (at : ℕ) (r : Run F)
      → held r.calls ≡ []
      → (new : List (Call F)) × ((check_price_alerts num w resolve at r).1.calls ≡ new ++ r.calls)
        × All IsBookkeeping new
  unfolding acquire call
  check_price_alerts-skipped at r e =
      let h : Makes IsBookkeeping
          (after_acquire num w resolve at (acquire r).0 >> record_and_watch num w resolve at) =
        Makes-then _ _ _ (without_lock-Makes at (acquire r).0 (taken-held r ∙ e))
          (record_and_watch-Makes num w resolve IsBookkeeping tt at (λ _. tt)) in
      let c : Call F = Call.acquire_run_lock in
      (
        h.new (acquire r).1 ++ c ∷ [],
        rw (check-eq at r, append_assoc (h.new (acquire r).1) (c ∷ []) r.calls)
            (h.adds (acquire r).1),
        All-append IsBookkeeping (h.new (acquire r).1) (c ∷ []) (h.each (acquire r).1) (tt, tt),
      )
