-- ===== src/Alerts/Store/Observations.antt =====
-- What can be read from the store after each of its transactions.
use crypto_zalo_bot.Base.{
  ℕ, ◌≡◌, ap, subst, ◌∙◌, Bool, false, not, ◌&&◌, ◌||◌, none, some, ◌==◌, if◌then◌else◌, Text,
  text_eq, text_eq_iff, Bool-cases, inl, inr,
}
use crypto_zalo_bot.Base.Number.{Number}
use crypto_zalo_bot.Alerts.{PriceAlert}
use crypto_zalo_bot.Alerts.Store.{
  Stored, next_id_key, all_ids_key, alert_key, chat_ids_key, stored_new,
}
use crypto_zalo_bot.Alerts.Store.Client.{Redis, IsLawful, contains}
use crypto_zalo_bot.Alerts.Store.Keys.{
  text_eq-alert_key, text_eq-chat_ids_key, chat-alert, all-alert, alert-chat, alert-all, chat-all,
  all-chat, alert-next, all-next, chat-next,
}

module _ (num : Number) (redis : Redis (Stored num.F)) (law : IsLawful redis) where
  open redis use {State, get, smembers, counter, sadd, srem, set, del, incr}

  abbrev pub chat_has : State → Text → ℕ → Bool
  chat_has s d i = contains i (smembers s (chat_ids_key d))

  abbrev pub all_has : State → ℕ → Bool
  all_has s i = contains i (smembers s all_ids_key)

  contains-sadd_at :
      (s : State) (k : Text) (x : ℕ) (j : Text) (i : ℕ)
      → contains i (smembers (sadd s k x) j) ≡ (
          if text_eq k j
          then ((x == i) || contains i (smembers s j))
          else contains i (smembers s j))
  contains-sadd_at s k x j i = elim (Bool-cases (text_eq k j)) [
    | inl same ↦ rw same (
        subst (λ l. contains i (smembers (sadd s k x) l) ≡ ((x == i) || contains i (smembers s l)))
          ((text_eq_iff k j).0 same) (law.contains-sadd s k x i))
    | inr other ↦ rw other (ap (contains i) (law.smembers-sadd_ne s k x j other))
  ]

  contains-srem_at :
      (s : State) (k : Text) (x : ℕ) (j : Text) (i : ℕ)
      → contains i (smembers (srem s k x) j) ≡ (
          if text_eq k j
          then (not (x == i) && contains i (smembers s j))
          else contains i (smembers s j))
  contains-srem_at s k x j i = elim (Bool-cases (text_eq k j)) [
    | inl same ↦ rw same (
        subst
          (λ l. contains i (smembers (srem s k x) l) ≡ (not (x == i) && contains i (smembers s l)))
          ((text_eq_iff k j).0 same) (law.contains-srem s k x i))
    | inr other ↦ rw other (ap (contains i) (law.smembers-srem_ne s k x j other))
  ]

  -- After the transaction of `create`.
  module _ (a : PriceAlert num.F) (s : State) where
    abbrev one : State
    one = set s (alert_key a.id) (Stored.stored_alert a)

    abbrev two : State
    two = sadd one all_ids_key a.id

    pub get-stored_new :
        (j : ℕ)
        → get (stored_new num redis a s) (alert_key j)
          ≡ (if a.id == j then some (Stored.stored_alert a) else get s (alert_key j))
    unfolding stored_new
    get-stored_new j =
        law.get-sadd two (chat_ids_key a.chat_id) a.id (alert_key j) (chat-alert j a.chat_id)
        ∙ law.get-sadd one all_ids_key a.id (alert_key j) (all-alert j a.chat_id)
        ∙ law.get-set s (alert_key a.id) (Stored.stored_alert a) (alert_key j)
        ∙ ap (λ b. if b then some (Stored.stored_alert a) else get s (alert_key j))
            (text_eq-alert_key a.id j)

    pub chat_has-stored_new :
        (d : Text) (i : ℕ)
        → chat_has (stored_new num redis a s) d i
          ≡ (if text_eq a.chat_id d then ((a.id == i) || chat_has s d i) else chat_has s d i)
    unfolding stored_new
    chat_has-stored_new d i =
        let before : chat_has two d i ≡ chat_has s d i = ap (contains i) (
          law.smembers-sadd_ne one all_ids_key a.id (chat_ids_key d) (all-chat i d)
          ∙ law.smembers-set s (alert_key a.id) (Stored.stored_alert a) (chat_ids_key d)
              (alert-chat a.id d)) in
        contains-sadd_at two (chat_ids_key a.chat_id) a.id (chat_ids_key d) i
        ∙ ap (λ b. if b then ((a.id == i) || chat_has two d i) else chat_has two d i)
            (text_eq-chat_ids_key a.chat_id d)
        ∙ ap (λ h. if text_eq a.chat_id d then ((a.id == i) || h) else h) before

    pub all_has-stored_new :
        (i : ℕ) → all_has (stored_new num redis a s) i ≡ ((a.id == i) || all_has s i)
    unfolding stored_new
    all_has-stored_new i =
        ap (contains i) (
          law.smembers-sadd_ne two (chat_ids_key a.chat_id) a.id all_ids_key (chat-all i a.chat_id))
        ∙ law.contains-sadd one all_ids_key a.id i
        ∙ ap (λ is. (a.id == i) || contains i is)
            (law.smembers-set s (alert_key a.id) (Stored.stored_alert a) all_ids_key
              (alert-all a.id a.chat_id))

    pub counter-stored_new : counter (stored_new num redis a s) next_id_key ≡ counter s next_id_key
    unfolding stored_new
    counter-stored_new =
        law.counter-sadd two (chat_ids_key a.chat_id) a.id next_id_key (chat-next 0 a.chat_id)
        ∙ law.counter-sadd one all_ids_key a.id next_id_key all-next
        ∙ law.counter-set s (alert_key a.id) (Stored.stored_alert a) next_id_key
            (alert-next a.id a.chat_id)

  -- After the transaction of `deleteByIndex`.
  module _ (c : Text) (id : ℕ) (s : State) where
    abbrev pub removed : State
    removed = srem (srem (del s (alert_key id)) all_ids_key id) (chat_ids_key c) id

    abbrev gone : State
    gone = del s (alert_key id)

    abbrev left : State
    left = srem gone all_ids_key id

    pub get-removed :
        (j : ℕ) → get removed (alert_key j) ≡ (if id == j then none else get s (alert_key j))
    get-removed j =
        law.get-srem left (chat_ids_key c) id (alert_key j) (chat-alert j c)
        ∙ law.get-srem gone all_ids_key id (alert_key j) (all-alert j c)
        ∙ law.get-del s (alert_key id) (alert_key j)
        ∙ ap (λ b. if b then none else get s (alert_key j)) (text_eq-alert_key id j)

    pub chat_has-removed :
        (d : Text) (i : ℕ)
        → chat_has removed d i
          ≡ (if text_eq c d then (not (id == i) && chat_has s d i) else chat_has s d i)
    chat_has-removed d i =
        let before : chat_has left d i ≡ chat_has s d i = ap (contains i) (
          law.smembers-srem_ne gone all_ids_key id (chat_ids_key d) (all-chat i d)
          ∙ law.smembers-del s (alert_key id) (chat_ids_key d) (alert-chat id d)) in
        contains-srem_at left (chat_ids_key c) id (chat_ids_key d) i
        ∙ ap (λ b. if b then (not (id == i) && chat_has left d i) else chat_has left d i)
            (text_eq-chat_ids_key c d)
        ∙ ap (λ h. if text_eq c d then (not (id == i) && h) else h) before

    -- Another chat's set is left as it is.
    pub smembers-removed_ne :
        (d : Text)
        → text_eq c d ≡ false
        → smembers removed (chat_ids_key d) ≡ smembers s (chat_ids_key d)
    smembers-removed_ne d other =
        law.smembers-srem_ne left (chat_ids_key c) id (chat_ids_key d)
          (text_eq-chat_ids_key c d ∙ other)
        ∙ law.smembers-srem_ne gone all_ids_key id (chat_ids_key d) (all-chat id d)
        ∙ law.smembers-del s (alert_key id) (chat_ids_key d) (alert-chat id d)

    pub all_has-removed : (i : ℕ) → all_has removed i ≡ (not (id == i) && all_has s i)
    all_has-removed i =
        ap (contains i) (law.smembers-srem_ne left (chat_ids_key c) id all_ids_key (chat-all i c))
        ∙ law.contains-srem gone all_ids_key id i
        ∙ ap (λ is. not (id == i) && contains i is)
            (law.smembers-del s (alert_key id) all_ids_key (alert-all id c))

    pub counter-removed : counter removed next_id_key ≡ counter s next_id_key
    counter-removed =
        law.counter-srem left (chat_ids_key c) id next_id_key (chat-next 0 c)
        ∙ law.counter-srem gone all_ids_key id next_id_key all-next
        ∙ law.counter-del s (alert_key id) next_id_key (alert-next id c)
