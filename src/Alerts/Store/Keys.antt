-- ===== src/Alerts/Store/Keys.antt =====
-- The keys of the alert store do not collide.
use crypto_zalo_bot.Base.{
  ℕ, ◌≡◌, ◌≢◌, refl, ap, sym, subst, ◌∙◌, false, [], ◌∷◌, ◌++◌, Text, codes, text_eq, text_eq_refl,
  text_eq_iff, show, value, value-show, arith, ◌==◌, true, inl, inr, Bool-cases,
}
use crypto_zalo_bot.Alerts.Store.{next_id_key, all_ids_key, alert_key, chat_ids_key}

text_eq-append : (p s t : Text) → text_eq (p ++ s) (p ++ t) ≡ text_eq s t
unfolding text_eq
text_eq-append [] s t = refl
text_eq-append (c ∷ p) s t = ground (arith, text_eq-append p s t)

text_eq-ne : (s t : Text) → s ≢ t → text_eq s t ≡ false
text_eq-ne s t h = ground (arith, text_eq_iff s t)

show_injective : (i j : ℕ) → show i ≡ show j → i ≡ j
show_injective i j h = sym (value-show i) ∙ ap value h ∙ value-show j

-- Two alerts have two keys.
pub alert_key_ne : (i j : ℕ) → i ≢ j → text_eq (alert_key i) (alert_key j) ≡ false
unfolding alert_key
alert_key_ne i j h =
    text_eq-append (codes "price-alerts:alert:") (show i) (show j)
    ∙ text_eq-ne (show i) (show j) (λ e. h (show_injective i j e))

pub text_eq-alert_key : (i j : ℕ) → text_eq (alert_key i) (alert_key j) ≡ (i == j)
text_eq-alert_key i j = elim (Bool-cases (i == j)) [
  | inl same ↦ rw same (
      subst (λ k. text_eq (alert_key i) (alert_key k) ≡ true) (ground arith)
        (text_eq_refl (alert_key i)))
  | inr other ↦ rw other (alert_key_ne i j (ground arith))
]

-- Two chats have two sets.
pub text_eq-chat_ids_key : (c d : Text) → text_eq (chat_ids_key c) (chat_ids_key d) ≡ text_eq c d
unfolding chat_ids_key
text_eq-chat_ids_key c d = text_eq-append (codes "price-alerts:chat:") c d

-- Keys of different kinds differ in their prefixes.
module _ (id : ℕ) (chat : Text) where
  pub alert-chat : text_eq (alert_key id) (chat_ids_key chat) ≡ false
  unfolding alert_key chat_ids_key text_eq
  alert-chat = refl

  pub chat-alert : text_eq (chat_ids_key chat) (alert_key id) ≡ false
  unfolding alert_key chat_ids_key text_eq
  chat-alert = refl

  pub alert-all : text_eq (alert_key id) all_ids_key ≡ false
  unfolding alert_key text_eq
  alert-all = refl

  pub all-alert : text_eq all_ids_key (alert_key id) ≡ false
  unfolding alert_key text_eq
  all-alert = refl

  pub alert-next : text_eq (alert_key id) next_id_key ≡ false
  unfolding alert_key text_eq
  alert-next = refl

  pub next-alert : text_eq next_id_key (alert_key id) ≡ false
  unfolding alert_key text_eq
  next-alert = refl

  pub chat-all : text_eq (chat_ids_key chat) all_ids_key ≡ false
  unfolding chat_ids_key text_eq
  chat-all = refl

  pub all-chat : text_eq all_ids_key (chat_ids_key chat) ≡ false
  unfolding chat_ids_key text_eq
  all-chat = refl

  pub chat-next : text_eq (chat_ids_key chat) next_id_key ≡ false
  unfolding chat_ids_key text_eq
  chat-next = refl

  pub next-chat : text_eq next_id_key (chat_ids_key chat) ≡ false
  unfolding chat_ids_key text_eq
  next-chat = refl

pub all-next : text_eq all_ids_key next_id_key ≡ false
unfolding text_eq
all-next = refl

pub next-all : text_eq next_id_key all_ids_key ≡ false
unfolding text_eq
next-all = refl
