-- ===== src/Alerts/Check/Effects.antt =====
-- Which calls an action may make: a postcondition with a rule for each way of combining actions.
use crypto_zalo_bot.Base.{
  Bool, true, false, List, [], ◌∷◌, ◌++◌, ◌≡◌, refl, All, All-append, if◌then◌else◌,
}
use mathlib.Core.List.{append_assoc}
use crypto_zalo_bot.Alerts.{AlertRunSummary}
use crypto_zalo_bot.Alerts.Check.{
  Call, World, Run, Result, ok, threw, Action, pure, ◌>>=◌, ◌>>◌, catch, attempt, get_summary,
  count, call, read,
}

module _ {F : Type 0} where
  -- `m` only adds calls, and each of them satisfies `P`.
  pub record Makes (P : Call F → Type 0) {A : Type 0} (m : Action F A) : Type 0 where
    pub new : Run F → List (Call F)
    pub adds : (r : Run F) → (m r).1.calls ≡ new r ++ r.calls
    pub each : (r : Run F) → All P (new r)

  module _ (P : Call F → Type 0) where
    pub Makes-pure : {A : Type 0} (a : A) → Makes P (pure a)
    unfolding pure
    Makes-pure a = record { new = λ _. []; adds = λ _. refl; each = λ _. tt }

    pub Makes-count : (f : AlertRunSummary → AlertRunSummary) → Makes P (count f)
    unfolding count
    Makes-count f = record { new = λ _. []; adds = λ _. refl; each = λ _. tt }

    pub Makes-get_summary : Makes P get_summary
    unfolding get_summary
    Makes-get_summary = record { new = λ _. []; adds = λ _. refl; each = λ _. tt }

    pub Makes-call :
        (w : World F) (c : Call F) {A : Type 0} (answer : List (Call F) → A)
        → P c
        → Makes P (call w c answer)
    unfolding call
    Makes-call w c answer p = record { new = λ _. c ∷ []; adds = λ _. refl; each = λ _. (p, tt) }

    pub Makes-read :
        (c : Call F) {A : Type 0} (answer : List (Call F) → A) → P c → Makes P (read c answer)
    unfolding read
    Makes-read c answer p = record { new = λ _. c ∷ []; adds = λ _. refl; each = λ _. (p, tt) }

    -- What follows `m` when it ends with `a`.
    abbrev later :
        {A B : Type 0} {f : A → Action F B}
        → ((x : A) → Makes P (f x))
        → Result A
        → Run F
        → List (Call F)
    later k (ok x) r = (k x).new r
    later k threw r = []

    then-adds :
        {A B : Type 0} (f : A → Action F B) (k : (x : A) → Makes P (f x)) (a : Result A) (r : Run F)
        → (◌>>=◌ (λ _. (a, r)) f r).1.calls ≡ later k a r ++ r.calls
    unfolding ◌>>=◌
    then-adds f k (ok x) r = (k x).adds r
    then-adds f k threw r = refl

    later-All :
        {A B : Type 0} (f : A → Action F B) (k : (x : A) → Makes P (f x)) (a : Result A) (r : Run F)
        → All P (later k a r)
    later-All f k (ok x) r = (k x).each r
    later-All f k threw r = tt

    pub Makes-bind :
        {A B : Type 0} (m : Action F A) (f : A → Action F B)
        → Makes P m
        → ((x : A) → Makes P (f x))
        → Makes P (m >>= f)
    unfolding ◌>>=◌
    Makes-bind m f h k = record {
      new = λ r. later k (m r).0 (m r).1 ++ h.new r;
      adds = λ r.
          rw (append_assoc (later k (m r).0 (m r).1) (h.new r) r.calls, ← h.adds r)
            (then-adds f k (m r).0 (m r).1);
      each = λ r. All-append P _ _ (later-All f k (m r).0 (m r).1) (h.each r);
    }

    pub Makes-then :
        {A B : Type 0} (m : Action F A) (k : Action F B) → Makes P m → Makes P k → Makes P (m >> k)
    unfolding ◌>>◌
    Makes-then m k h h' = Makes-bind m (λ _. k) h (λ _. h')

    pub Makes-attempt : {A : Type 0} (m : Action F A) → Makes P m → Makes P (attempt m)
    unfolding attempt
    Makes-attempt m h = record { new = h.new; adds = h.adds; each = h.each }

    -- What follows `m` in its handler, when it throws.
    abbrev handled : {A : Type 0} {k : Action F A} → Makes P k → Result A → Run F → List (Call F)
    handled h (ok x) r = []
    handled h threw r = h.new r

    catch-adds :
        {A : Type 0} (k : Action F A) (h : Makes P k) (a : Result A) (r : Run F)
        → (catch (λ _. (a, r)) k r).1.calls ≡ handled h a r ++ r.calls
    unfolding catch
    catch-adds k h (ok x) r = refl
    catch-adds k h threw r = h.adds r

    handled-All :
        {A : Type 0} (k : Action F A) (h : Makes P k) (a : Result A) (r : Run F)
        → All P (handled h a r)
    handled-All k h (ok x) r = tt
    handled-All k h threw r = h.each r

    pub Makes-catch : {A : Type 0} (m k : Action F A) → Makes P m → Makes P k → Makes P (catch m k)
    unfolding catch
    Makes-catch m k h h' = record {
      new = λ r. handled h' (m r).0 (m r).1 ++ h.new r;
      adds = λ r.
          rw (append_assoc (handled h' (m r).0 (m r).1) (h.new r) r.calls, ← h.adds r)
            (catch-adds k h' (m r).0 (m r).1);
      each = λ r. All-append P _ _ (handled-All k h' (m r).0 (m r).1) (h.each r);
    }

    pub Makes-if :
        {A : Type 0} (b : Bool) (m k : Action F A)
        → (b ≡ true → Makes P m)
        → (b ≡ false → Makes P k)
        → Makes P (if b then m else k)
    Makes-if true m k h h' = h refl
    Makes-if false m k h h' = h' refl

  module _ (P Q : Call F → Type 0) (sub : (c : Call F) → P c → Q c) where
    All-sub : (cs : List (Call F)) → All P cs → All Q cs
    All-sub [] h = tt
    All-sub (c ∷ cs) (p, h) = (sub c p, All-sub cs h)

    pub Makes-sub : {A : Type 0} {m : Action F A} → Makes P m → Makes Q m
    Makes-sub h = record { new = h.new; adds = h.adds; each = λ r. All-sub (h.new r) (h.each r) }
