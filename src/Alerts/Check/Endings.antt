-- ===== src/Alerts/Check/Endings.antt =====
-- Actions that never throw.
use crypto_zalo_bot.Base.{List, ◌∷◌, ◌≡◌, refl, Bool, true, false, if◌then◌else◌}
use crypto_zalo_bot.Alerts.{AlertRunSummary}
use crypto_zalo_bot.Alerts.Check.{
  Call, Run, Result, ok, threw, Action, pure, ◌>>=◌, ◌>>◌, catch, attempt, get_summary, count, read,
}

module _ {F : Type 0} where
  -- `m` ends with a value, from every state.
  abbrev pub Ends : {A : Type 0} → Action F A → Type 0
  Ends {A} m = (r : Run F) → (x : A) × ((m r).0 ≡ ok x)

  pub Ends-pure : {A : Type 0} (a : A) → Ends (pure a)
  unfolding pure
  Ends-pure a r = (a, refl)

  pub Ends-count : (f : AlertRunSummary → AlertRunSummary) → Ends (count f)
  unfolding count
  Ends-count f r = (tt, refl)

  pub Ends-get_summary : Ends get_summary
  unfolding get_summary
  Ends-get_summary r = (r.summary, refl)

  pub Ends-read : (c : Call F) {A : Type 0} (answer : List (Call F) → A) → Ends (read c answer)
  unfolding read
  Ends-read c answer r = (answer (c ∷ r.calls), refl)

  pub Ends-attempt : {A : Type 0} (m : Action F A) → Ends (attempt m)
  unfolding attempt
  Ends-attempt m r = ((m r).0, refl)

  bind-from :
      {A B : Type 0} (f : A → Action F B) (a : Result A) (r : Run F) (x : A)
      → a ≡ ok x
      → (◌>>=◌ (λ _. (a, r)) f r) ≡ f x r
  unfolding ◌>>=◌
  bind-from f (ok y) r x e = cc
  bind-from f threw r x e = cc

  -- What the rest does after a first part that ended with `x`.
  pub bind-eq :
      {A B : Type 0} (m : Action F A) (f : A → Action F B) (r : Run F) (x : A)
      → (m r).0 ≡ ok x
      → (m >>= f) r ≡ f x (m r).1
  unfolding ◌>>=◌
  bind-eq m f r x e = bind-from f (m r).0 (m r).1 x e

  pub Ends-bind :
      {A B : Type 0} (m : Action F A) (f : A → Action F B)
      → Ends m
      → ((x : A) → Ends (f x))
      → Ends (m >>= f)
  Ends-bind m f h k r =
      let (x, e) = h r in let (y, d) = k x (m r).1 in (y, rw (bind-eq m f r x e) d)

  pub Ends-then : {A B : Type 0} (m : Action F A) (k : Action F B) → Ends m → Ends k → Ends (m >> k)
  unfolding ◌>>◌
  Ends-then m k h h' = Ends-bind m (λ _. k) h (λ _. h')

  pub then-eq :
      {A B : Type 0} (m : Action F A) (k : Action F B)
      → Ends m
      → (r : Run F) → (m >> k) r ≡ k (m r).1
  unfolding ◌>>◌
  then-eq m k h r = let (x, e) = h r in bind-eq m (λ _. k) r x e

  caught :
      {A : Type 0} (k : Action F A) (h : Ends k) (a : Result A) (r : Run F)
      → (x : A) × ((catch (λ _. (a, r)) k r).0 ≡ ok x)
  unfolding catch
  caught k h (ok x) r = (x, refl)
  caught k h threw r = h r

  pub Ends-catch : {A : Type 0} (m k : Action F A) → Ends k → Ends (catch m k)
  unfolding catch
  Ends-catch m k h r = caught k h (m r).0 (m r).1

  pub Ends-if :
      {A : Type 0} (b : Bool) (m k : Action F A) → Ends m → Ends k → Ends (if b then m else k)
  Ends-if true m k h h' = h
  Ends-if false m k h h' = h'
