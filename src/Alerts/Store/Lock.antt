-- ===== src/Alerts/Store/Lock.antt =====
-- The run lock: takers of the lock, releases and the time to live, in any order.
use crypto_zalo_bot.Base.{
  ℕ, ◌<◌, ◌≤◌, arith, ◌≡◌, refl, ap, sym, subst, ◌∙◌, Bool, false, Option, none, some, List, [],
  ◌∷◌, if◌then◌else◌, Text, text_eq, text_eq_refl, All,
}
use crypto_zalo_bot.Base.Number.{Number}
use crypto_zalo_bot.Alerts.Store.{
  Stored, run_lock_key, acquire_run_lock, holds_token, release_run_lock, run_lock_ttl_ms,
}
use crypto_zalo_bot.Alerts.Store.Client.{Redis, IsLawful}

-- What happens to the lock: a run tries to take it with its token, a run releases it, or its time is up.
pub data LockEvent : Type 0 where
  acquires releases : Text → LockEvent
  expires : LockEvent

-- Neither the end of the lock's time nor its holder's release.
abbrev pub IsForeign : Text → LockEvent → Type 0
IsForeign holder (LockEvent.acquires token) = Unit
IsForeign holder (LockEvent.releases token) = text_eq holder token ≡ false
IsForeign holder LockEvent.expires = ⊥

module _ (num : Number) (redis : Redis (Stored num.F)) where
  open redis use {State, get}

  abbrev pub lock_event : LockEvent → State → Option Text × State
  lock_event (LockEvent.acquires token) s = acquire_run_lock num redis token s
  lock_event (LockEvent.releases token) s = (none, release_run_lock num redis token s)
  lock_event LockEvent.expires s = (none, redis.expire s run_lock_key)

  -- The tokens that were answered, and the store at the end.
  abbrev pub lock_events : List LockEvent → State → List (Option Text) × State
  lock_events [] s = ([], s)
  lock_events (e ∷ es) s =
      let (answer, after) = lock_event e s in
      let (answers, end) = lock_events es after in (answer ∷ answers, end)

  abbrev pub IsHeldBy : Text → State → Type 0
  IsHeldBy token s = get s run_lock_key ≡ some (Stored.stored_token token)

module _ (num : Number) (redis : Redis (Stored num.F)) (law : IsLawful redis) where
  open redis use {State, get}

  acquire_run_lock-held :
      (holder token : Text) (s : State)
      → IsHeldBy num redis holder s
      → acquire_run_lock num redis token s ≡ (none, s)
  unfolding acquire_run_lock
  acquire_run_lock-held holder token s h =
      ap (λ (r : Bool × State). ((if r.0 then some token else none), r.1))
        (law.set_nx-refused s run_lock_key (Stored.stored_token token) (Stored.stored_token holder)
          run_lock_ttl_ms h)

  acquire_run_lock-free :
      (token : Text) (s : State)
      → get s run_lock_key ≡ none
      → ((acquire_run_lock num redis token s).0 ≡ some token)
        × IsHeldBy num redis token (acquire_run_lock num redis token s).1
  unfolding acquire_run_lock
  acquire_run_lock-free token s h =
      let (wrote, reads) =
        law.set_nx-granted s run_lock_key (Stored.stored_token token) run_lock_ttl_ms h in
      (
        ap (λ b. if b then some token else none) wrote,
        reads run_lock_key ∙ rw (text_eq_refl run_lock_key) refl,
      )

  release_run_lock-foreign :
      (holder token : Text) (s : State)
      → IsHeldBy num redis holder s
      → text_eq holder token ≡ false
      → release_run_lock num redis token s ≡ s
  unfolding release_run_lock holds_token
  release_run_lock-foreign holder token s h other =
      ap (λ o. if holds_token num redis token o then redis.del s run_lock_key else s) h
      ∙ rw other refl

  lock_event-foreign :
      (holder : Text) (e : LockEvent) (s : State)
      → IsHeldBy num redis holder s
      → IsForeign holder e
      → lock_event num redis e s ≡ (none, s)
  lock_event-foreign holder (LockEvent.acquires token) s h f =
      acquire_run_lock-held holder token s h
  lock_event-foreign holder (LockEvent.releases token) s h f =
      ap (λ t. (none, t)) (release_run_lock-foreign holder token s h f)
  lock_event-foreign holder LockEvent.expires s h f = absurd f

  lock_events-held :
      (holder : Text) (es : List LockEvent) (s : State)
      → IsHeldBy num redis holder s
      → All (IsForeign holder) es
      → All (λ answer. answer ≡ none) (lock_events num redis es s).0
        × ((lock_events num redis es s).1 ≡ s)
  lock_events-held holder [] s h f = (tt, refl)
  lock_events-held holder (e ∷ es) s h f =
      let same = lock_event-foreign holder e s h f.0 in
      let (answers, end) = lock_events-held holder es s h f.1 in
      subst
        (λ (r : Option Text × State).
          ((r.0 ≡ none) × All (λ answer. answer ≡ none) (lock_events num redis es r.1).0)
          × ((lock_events num redis es r.1).1 ≡ s))
        (sym same) ((refl, answers), end)

  -- While a run holds the lock, until its time is up or the run itself releases it, no other run takes
  -- the lock, whatever runs try, and releases with other tokens leave it with its holder.
  pub acquire_run_lock-exclusive :
      (token : Text) (es : List LockEvent) (s : State)
      → get s run_lock_key ≡ none
      → All (IsForeign token) es
      → ((acquire_run_lock num redis token s).0 ≡ some token)
        × All
            (λ answer. answer ≡ none)
            (lock_events num redis es (acquire_run_lock num redis token s).1).0
        × IsHeldBy num redis token
            (lock_events num redis es (acquire_run_lock num redis token s).1).1
  acquire_run_lock-exclusive token es s free f =
      let (taken, held) = acquire_run_lock-free token s free in
      let (answers, end) =
        lock_events-held token es (acquire_run_lock num redis token s).1 held f in
      (taken, answers, ap (λ t. get t run_lock_key) end ∙ held)

  release_run_lock-own :
      (holder : Text) (s : State)
      → IsHeldBy num redis holder s
      → get (release_run_lock num redis holder s) run_lock_key ≡ none
  unfolding release_run_lock holds_token
  release_run_lock-own holder s h =
      let deleted : release_run_lock num redis holder s ≡ redis.del s run_lock_key =
        ap (λ o. if holds_token num redis holder o then redis.del s run_lock_key else s) h
        ∙ rw (text_eq_refl holder) refl in
      ap (λ t. get t run_lock_key) deleted
      ∙ law.get-del s run_lock_key run_lock_key
      ∙ rw (text_eq_refl run_lock_key) refl

  -- What time makes of a lock that was taken `ms` ago.
  elapse-held :
      (holder : Text) (s : State) (ms : ℕ)
      → get s run_lock_key ≡ none
      → ms < run_lock_ttl_ms
      → IsHeldBy num redis holder (redis.elapse (acquire_run_lock num redis holder s).1 ms)
  unfolding acquire_run_lock
  elapse-held holder s ms free early =
      law.get-elapse_within s run_lock_key (Stored.stored_token holder) run_lock_ttl_ms ms free
        early

  elapse-free :
      (holder : Text) (s : State) (ms : ℕ)
      → get s run_lock_key ≡ none
      → run_lock_ttl_ms ≤ ms
      → get (redis.elapse (acquire_run_lock num redis holder s).1 ms) run_lock_key ≡ none
  unfolding acquire_run_lock
  elapse-free holder s ms free late =
      law.get-elapse_after s run_lock_key (Stored.stored_token holder) run_lock_ttl_ms ms free
        (omega arith) late

  -- A run that takes a free lock, with other runs trying and releasing meanwhile, is followed by the
  -- next run as soon as it releases the lock; a holder that died bars the next run for less than the
  -- two minutes after it took the lock, and no longer.
  pub acquire_run_lock-next :
      (holder token : Text) (es : List LockEvent) (s : State) (early late : ℕ)
      → get s run_lock_key ≡ none
      → All (IsForeign holder) es
      → early < 120_000
      → 120_000 ≤ late
      → let during = (lock_events num redis es (acquire_run_lock num redis holder s).1).1 in
        ((acquire_run_lock num redis token (release_run_lock num redis holder during)).0
          ≡ some token)
        × ((acquire_run_lock num redis token (redis.elapse during early)).0 ≡ none)
        × ((acquire_run_lock num redis token (redis.elapse during late)).0 ≡ some token)
  acquire_run_lock-next holder token es s early late free foreign h l =
      let held = (acquire_run_lock-free holder s free).1 in
      let same =
        (lock_events-held holder es (acquire_run_lock num redis holder s).1 held foreign).1 in
      subst
        (λ (during : State).
          ((acquire_run_lock num redis token (release_run_lock num redis holder during)).0
            ≡ some token)
          × ((acquire_run_lock num redis token (redis.elapse during early)).0 ≡ none)
          × ((acquire_run_lock num redis token (redis.elapse during late)).0 ≡ some token))
        (sym same)
        (
          (acquire_run_lock-free token _ (release_run_lock-own holder _ held)).0,
          ap (λ (r : Option Text × State). r.0)
              (acquire_run_lock-held holder token _ (elapse-held holder s early free h)),
          (acquire_run_lock-free token _ (elapse-free holder s late free l)).0,
        )
