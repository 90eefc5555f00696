-- ===== src/Webhook/Replies.antt =====
-- Every command is answered by one message, to its own chat.
pub mod Laws
use crypto_zalo_bot.Base.{◌≡◌, refl, ap, sym, subst, ◌∙◌, List, ◌∷◌, Text}
use crypto_zalo_bot.Alerts.Store.{Answer, done, thrown}
use crypto_zalo_bot.Webhook.{WebhookError, Services, Reply, World}
use crypto_zalo_bot.Webhook.Actions.{
  Action, Respects, Respects-of, ◌>>=◌, ◌>>◌, and_then, catching, handled, pure,
}

module _ {F : Type 0} (Store : Type 0) (services : Services F) where
  abbrev Handler : Type 0 → Type 0
  Handler A = Action (World F Store services) (WebhookError F) A

  abbrev pub messages_of : World F Store services → List (Text × Reply services)
  messages_of w = w.messages

  -- One message more, to this chat, or none when an exception ended the handler.
  abbrev IsOutcome :
      Text
      → List (Text × Reply services)
      → Answer (WebhookError F) Unit × World F Store services
      → Type 0
  IsOutcome c before (done _, w) = (r : Reply services) × (w.messages ≡ (c, r) ∷ before)
  IsOutcome c before (thrown _, w) = w.messages ≡ before

  unfoldable pub Replies : Text → Handler Unit → Type 0
  Replies c m = (w : World F Store services) → IsOutcome c w.messages (m w)

  -- Ends without an exception and without a message.
  unfoldable pub Settles : Handler Unit → Type 0
  Settles m =
      (w : World F Store services)
      → (v : World F Store services) × (m w ≡ (done tt, v)) × (v.messages ≡ w.messages)

  pub Replies-of :
      (c : Text) (m : Handler Unit) (r : World F Store services → Reply services)
      → ((w : World F Store services)
          → m w ≡ (done tt, record w { messages = (c, r w) ∷ w.messages }))
      → Replies c m
  unfolding Replies
  Replies-of c m r h w = subst (IsOutcome c w.messages) (sym (h w)) (r w, refl)

  pub Replies-raise :
      (c : Text) (m : Handler Unit) (e : WebhookError F)
      → ((w : World F Store services) → m w ≡ (thrown e, w))
      → Replies c m
  unfolding Replies
  Replies-raise c m e h w = subst (IsOutcome c w.messages) (sym (h w)) refl

  quiet_step :
      {A : Type 0} (c : Text) (before : List (Text × Reply services))
      (r : Answer (WebhookError F) A × World F Store services) (f : A → Handler Unit)
      → r.1.messages ≡ before
      → ((a : A) → Replies c (f a))
      → IsOutcome c before (and_then r f)
  unfolding and_then Replies
  quiet_step c before (done a, w) f e h = subst (λ ms. IsOutcome c ms (f a w)) e (h a w)
  quiet_step c before (thrown x, w) f e h = e

  -- A silent step, and then a reply.
  pub quiet_then :
      {A : Type 0} (c : Text) (m : Handler A) (f : A → Handler Unit)
      → Respects messages_of m
      → ((a : A) → Replies c (f a))
      → Replies c (m >>= f)
  unfolding ◌>>=◌ Respects Replies
  quiet_then c m f h k w = quiet_step c w.messages (m w) f (h w) k

  settled_step :
      (c : Text) (before : List (Text × Reply services))
      (r : Answer (WebhookError F) Unit × World F Store services) (f : Unit → Handler Unit)
      → IsOutcome c before r
      → ((a : Unit) → Settles (f a))
      → IsOutcome c before (and_then r f)
  unfolding and_then Settles
  settled_step c before (done a, w) f (reply, e) h =
      let (v, ends, same) = h a w in subst (IsOutcome c before) (sym ends) (reply, same ∙ e)
  settled_step c before (thrown x, w) f e h = e

  -- A reply, and then what cannot fail and says nothing.
  pub reply_then :
      (c : Text) (m : Handler Unit) (f : Unit → Handler Unit)
      → Replies c m
      → ((a : Unit) → Settles (f a))
      → Replies c (m >>= f)
  unfolding ◌>>=◌ Replies
  reply_then c m f h k w = settled_step c w.messages (m w) f (h w) k

  pub Settles-of :
      (m : Handler Unit) (g : World F Store services → World F Store services)
      → ((w : World F Store services) → m w ≡ (done tt, g w))
      → ((w : World F Store services) → (g w).messages ≡ w.messages)
      → Settles m
  unfolding Settles
  Settles-of m g h k w = (g w, h w, k w)

  swallowed :
      (r : Answer (WebhookError F) Unit × World F Store services)
      → handled r (λ _. pure tt) ≡ (done tt, r.1)
  unfolding handled
  swallowed (done u, w) = refl
  swallowed (thrown e, w) = refl

  -- A failure that is only logged.
  pub Settles-swallowing :
      (m : Handler Unit) → Respects messages_of m → Settles (catching m (λ _. pure tt))
  unfolding Settles Respects catching
  Settles-swallowing m h w = ((m w).1, swallowed (m w), h w)

  settled_twice :
      (before : List (Text × Reply services))
      (r : Answer (WebhookError F) Unit × World F Store services) (n : Handler Unit)
      (v : World F Store services)
      → r ≡ (done tt, v)
      → v.messages ≡ before
      → Settles n
      → (u : World F Store services) × (and_then r (λ _. n) ≡ (done tt, u)) × (u.messages ≡ before)
  unfolding and_then Settles
  settled_twice before r n v e same h =
      let (u, ends, quiet) = h v in (u, ap (λ s. and_then s (λ _. n)) e ∙ ends, quiet ∙ same)

  pub Settles-then : (m n : Handler Unit) → Settles m → Settles n → Settles (m >> n)
  unfolding ◌>>=◌ Settles
  Settles-then m n h k w =
      let (v, ends, same) = h w in settled_twice w.messages (m w) n v ends same k

  replied :
      (c : Text) (before : List (Text × Reply services))
      (r : Answer (WebhookError F) Unit × World F Store services)
      (f : WebhookError F → Reply services)
      → IsOutcome c before r
      → (let out : Answer (WebhookError F) Unit × World F Store services =
            handled r (λ e w. (done tt, record w { messages = (c, f e) ∷ w.messages })) in
          (out.0 ≡ done tt) × ((reply : Reply services) × (out.1.messages ≡ (c, reply) ∷ before)))
  unfolding handled
  replied c before (done tt, w) f (reply, e) = (refl, (reply, e))
  replied c before (thrown x, w) f e = (refl, (f x, ap (λ ms. (c, f x) ∷ ms) e))

  -- A handler whose errors are answered ends well, with one message.
  pub catching-Replies :
      (c : Text) (m : Handler Unit) (f : WebhookError F → Reply services)
      (w : World F Store services)
      → Replies c m
      → (let out = catching m (λ e v. (done tt, record v { messages = (c, f e) ∷ v.messages })) w in
          (out.0 ≡ done tt)
          × ((reply : Reply services) × (out.1.messages ≡ (c, reply) ∷ w.messages)))
  unfolding catching Replies
  catching-Replies c m f w h = replied c w.messages (m w) f (h w)
