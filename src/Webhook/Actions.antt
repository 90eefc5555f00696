-- ===== src/Webhook/Actions.antt =====
-- Calls in sequence, with exceptions and a world that they change.
use crypto_zalo_bot.Base.{◌≡◌, refl, ◌∙◌}
use crypto_zalo_bot.Alerts.Store.{Answer, done, thrown}

abbrev pub Action : Type 0 → Type 0 → Type 0 → Type 0
Action W E A = W → Answer E A × W

module _ {W E : Type 0} where
  abbrev pub pure : {A : Type 0} → A → Action W E A
  pure a w = (done a, w)

  -- `throw`
  abbrev pub raise : {A : Type 0} → E → Action W E A
  raise e w = (thrown e, w)

  -- The answer of a call that changes nothing here.
  abbrev pub answer : {A : Type 0} → Answer E A → Action W E A
  answer a w = (a, w)

  unfoldable pub and_then : {A B : Type 0} → Answer E A × W → (A → Action W E B) → Answer E B × W
  and_then (done a, w) f = f a w
  and_then (thrown e, w) f = (thrown e, w)

  infixl 5 ◌>>=◌ ◌>>◌
  unfoldable pub ◌>>=◌ : {A B : Type 0} → Action W E A → (A → Action W E B) → Action W E B
  unfolding and_then
  m >>= f = λ w. and_then (m w) f

  abbrev pub ◌>>◌ : {A B : Type 0} → Action W E A → Action W E B → Action W E B
  m >> n = m >>= (λ _. n)

  unfoldable pub handled : Answer E Unit × W → (E → Action W E Unit) → Answer E Unit × W
  handled (done u, w) h = (done u, w)
  handled (thrown e, w) h = h e w

  -- `try { ... } catch (error) { ... }`
  unfoldable pub catching : Action W E Unit → (E → Action W E Unit) → Action W E Unit
  unfolding handled
  catching m h = λ w. handled (m w) h

-- What an action leaves as it is, under a way to look at the world.
module _ {W E X : Type 0} (see : W → X) where
  unfoldable pub Respects : {A : Type 0} → Action W E A → Type 0
  Respects m = (w : W) → see (m w).1 ≡ see w

  pub Respects-of : {A : Type 0} (m : Action W E A) → ((w : W) → see (m w).1 ≡ see w) → Respects m
  unfolding Respects
  Respects-of m h = h

  and_then-Respects :
      {A B : Type 0} (r : Answer E A × W) (f : A → Action W E B)
      → ((a : A) → Respects (f a))
      → see (and_then r f).1 ≡ see r.1
  unfolding and_then Respects
  and_then-Respects (done a, w) f h = h a w
  and_then-Respects (thrown e, w) f h = refl

  pub bind-Respects :
      {A B : Type 0} (m : Action W E A) (f : A → Action W E B)
      → Respects m
      → ((a : A) → Respects (f a))
      → Respects (m >>= f)
  unfolding ◌>>=◌ and_then Respects
  bind-Respects m f h k w = and_then-Respects (m w) f k ∙ h w

  handled-Respects :
      (r : Answer E Unit × W) (h : E → Action W E Unit)
      → ((e : E) → Respects (h e))
      → see (handled r h).1 ≡ see r.1
  unfolding handled Respects
  handled-Respects (done u, w) h k = refl
  handled-Respects (thrown e, w) h k = k e w

  pub catching-Respects :
      (m : Action W E Unit) (h : E → Action W E Unit)
      → Respects m
      → ((e : E) → Respects (h e))
      → Respects (catching m h)
  unfolding catching handled Respects
  catching-Respects m h k l w = handled-Respects (m w) h l ∙ k w
