-- ===== src/Alerts/Store/Reachable.antt =====
-- The stores that the service's writes of alerts can reach from an empty one.
use crypto_zalo_bot.Base.{
  ℕ, ◌≡◌, refl, ap, sym, subst, ◌∙◌, Bool, true, false, some, [], ◌==◌, if◌then◌else◌, Text,
  Bool-cases, inl, inr, arith, is_some,
}
use crypto_zalo_bot.Base.Number.{Number}
use crypto_zalo_bot.Alerts.{PriceAlert, AlertDirection}
use crypto_zalo_bot.Alerts.Store.{
  Stored, Answer, next_id_key, all_ids_key, alert_key, chat_ids_key, create, delete_by_index,
  update_state,
}
use crypto_zalo_bot.Alerts.Store.Client.{Redis, IsLawful, contains}
use crypto_zalo_bot.Alerts.Store.Keys.{text_eq-alert_key, alert-chat, alert-all, alert-next}
use crypto_zalo_bot.Alerts.Store.Observations.{all_has}
use crypto_zalo_bot.Alerts.Store.Consistency.{IsConsistent, IsOwned-transfer, create-IsConsistent}
use crypto_zalo_bot.Alerts.Store.Deletion.{delete_by_index-IsConsistent}

module _ (num : Number) (redis : Redis (Stored num.F)) where
  open num use {F}
  open redis use {State, get, smembers, set}

  -- An update is of an alert that was read from the store, so it is of the chat of what stands there.
  pub data IsReachable (E : Type 0) : State → Type 0 where
    empty : (s : State) → ((k : Text) → smembers s k ≡ []) → IsReachable E s
    creates :
        (s : State) (chat_id symbol : Text) (direction : AlertDirection) (threshold : F) (now : ℕ)
        (price_of : Text → Answer E F)
        → IsReachable E s
        → IsReachable E (create num redis chat_id symbol direction threshold now price_of s).1
    deletes :
        (s : State) (chat_id : Text) (index : ℕ)
        → IsReachable E s
        → IsReachable E (delete_by_index num redis {E = E} chat_id index s).1
    updates :
        (s : State) (b : PriceAlert F)
        → ((a : PriceAlert F)
            → get s (alert_key b.id) ≡ some (Stored.stored_alert a)
            → b.chat_id ≡ a.chat_id)
        → IsReachable E s
        → IsReachable E (update_state num redis b s).1

module _ (num : Number) (redis : Redis (Stored num.F)) (law : IsLawful redis) where
  open num use {F}
  open redis use {State, get, smembers, counter, set}

  set-IsConsistent :
      (b : PriceAlert F) (s : State)
      → ((a : PriceAlert F)
          → get s (alert_key b.id) ≡ some (Stored.stored_alert a)
          → b.chat_id ≡ a.chat_id)
      → IsConsistent num redis law s
      → IsConsistent num redis law (set s (alert_key b.id) (Stored.stored_alert b))
  set-IsConsistent b s kept h d i has =
      let t = set s (alert_key b.id) (Stored.stored_alert b) in
      let before =
        ap (contains i) (
          sym (
            law.smembers-set s (alert_key b.id) (Stored.stored_alert b) (chat_ids_key d)
              (alert-chat b.id d)))
        ∙ has in
      let known = λ (e : all_has num redis law s i ≡ true).
        ap (contains i) (
          law.smembers-set s (alert_key b.id) (Stored.stored_alert b) all_ids_key
            (alert-all b.id d))
        ∙ e in
      let count =
        law.counter-set s (alert_key b.id) (Stored.stored_alert b) next_id_key
          (alert-next b.id d) in
      let now : get t (alert_key i)
          ≡ (if b.id == i then some (Stored.stored_alert b) else get s (alert_key i)) =
        law.get-set s (alert_key b.id) (Stored.stored_alert b) (alert_key i)
        ∙ ap (λ x. if x then some (Stored.stored_alert b) else get s (alert_key i))
            (text_eq-alert_key b.id i) in
      let old = h d i before in
      elim (Bool-cases (b.id == i)) [
        | inr other ↦
            IsOwned-transfer num redis law s t d i (now ∙ rw other refl) known (omega arith) old
        | inl same ↦
            let ((a, found, _, chat), listed, bound) = old in
            let id : b.id ≡ i = ground arith in
            (
              (
                b,
                now ∙ rw same refl,
                id,
                kept a (
                      subst (λ k. get s (alert_key k) ≡ some (Stored.stored_alert a)) (sym id)
                        found)
                    ∙ chat,
              ),
              known listed,
              omega arith,
            )
      ]

  update_state-IsConsistent :
      (s : State) (b : PriceAlert F)
      → ((a : PriceAlert F)
          → get s (alert_key b.id) ≡ some (Stored.stored_alert a)
          → b.chat_id ≡ a.chat_id)
      → IsConsistent num redis law s
      → IsConsistent num redis law (update_state num redis b s).1
  unfolding update_state
  update_state-IsConsistent s b kept h =
      subst (λ (r : Bool × State). IsConsistent num redis law r.1)
        (sym (law.set_xx_lem s (alert_key b.id) (Stored.stored_alert b)))
        (either (is_some (get s (alert_key b.id))))
    where
      either :
          (x : Bool)
          → (let r : Bool × State =
                if x then (true, set s (alert_key b.id) (Stored.stored_alert b)) else (false, s) in
              IsConsistent num redis law r.1)
      either true = set-IsConsistent b s kept h
      either false = h

  empty-IsConsistent : (s : State) → ((k : Text) → smembers s k ≡ []) → IsConsistent num redis law s
  empty-IsConsistent s h d i has =
      let none_there : false ≡ true = ap (contains i) (sym (h (chat_ids_key d))) ∙ has in absurd cc

  -- In every store that creating, deleting and updating alerts can reach from an empty one, a chat's set
  -- names only alerts that are stored, that are of this chat, that the check knows, and whose number the
  -- counter has given out.
  pub IsReachable-IsConsistent :
      {E : Type 0} (s : State) → IsReachable num redis E s → IsConsistent num redis law s
  IsReachable-IsConsistent _ (empty s h) = empty-IsConsistent s h
  IsReachable-IsConsistent _ (creates s chat_id symbol direction threshold now price_of r) =
      create-IsConsistent num redis law chat_id symbol direction threshold now price_of s
        (IsReachable-IsConsistent s r)
  IsReachable-IsConsistent {E = E} _ (deletes s chat_id index r) =
      delete_by_index-IsConsistent num redis law E chat_id index s (IsReachable-IsConsistent s r)
  IsReachable-IsConsistent _ (updates s b kept r) =
      update_state-IsConsistent s b kept (IsReachable-IsConsistent s r)
