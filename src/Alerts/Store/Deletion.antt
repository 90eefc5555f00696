-- ===== src/Alerts/Store/Deletion.antt =====
-- Deleting an alert by its position in its chat's list.
use crypto_zalo_bot.Base.{
  ℕ, zero, suc, ◌≡◌, refl, ap, sym, subst, ◌∙◌, Bool, true, false, ◌&&◌, Option, none, some, List,
  [], ◌∷◌, ◌==◌, if◌then◌else◌, Text, text_eq, text_eq_iff, Bool-cases, Option-cases, inl, inr,
  arith, get_elem?, sort_by, All, All-sort_by, All-get_elem?, is_some,
}
use crypto_zalo_bot.Base.Number.{Number}
use crypto_zalo_bot.Alerts.{PriceAlert}
use crypto_zalo_bot.Alerts.Store.{
  Stored, done, alert_key, chat_ids_key, as_alert, add_found, found_alerts, load_alerts,
  list_by_chat, deleted, delete_by_index, update_state,
}
use crypto_zalo_bot.Alerts.Store.Client.{Redis, IsLawful, contains}
use crypto_zalo_bot.Alerts.Store.Observations.{
  chat_has, removed, get-removed, chat_has-removed, smembers-removed_ne, all_has-removed,
  counter-removed,
}
use crypto_zalo_bot.Alerts.Store.Consistency.{
  as_alert-some, IsOwned, IsConsistent, IsOwned-transfer,
}

module _ (num : Number) (redis : Redis (Stored num.F)) (law : IsLawful redis) where
  open num use {F}
  open redis use {State, get, smembers, counter}

  abbrev IsOf : Text → State → PriceAlert F → Type 0
  IsOf c s a = chat_has num redis law s c a.id ≡ true

  -- The alert that is stored under an id of a chat's set has that id.
  id-of :
      (c : Text) (s : State) (id : ℕ) (a : PriceAlert F)
      → IsOwned num redis law s c id
      → get s (alert_key id) ≡ some (Stored.stored_alert a)
      → a.id ≡ id
  id-of c s id a ((b, found, e, _), _, _) stored =
      let same : b ≡ a = cc in ap (λ (x : PriceAlert F). x.id) (sym same) ∙ e

  found_alerts-IsOf :
      (c : Text) (s : State) (ids : List ℕ)
      → IsConsistent num redis law s
      → ((i : ℕ) → contains i ids ≡ true → chat_has num redis law s c i ≡ true)
      → All (IsOf c s) (found_alerts num redis ids s)
  unfolding found_alerts add_found
  found_alerts-IsOf c s [] h k = tt
  found_alerts-IsOf c s (id ∷ ids) h k =
      let rest = found_alerts-IsOf c s ids h (λ i e. k i (ground (arith, e))) in
      let has = k id (ground arith) in
      elim (Option-cases (as_alert (get s (alert_key id)))) [
        | inl e ↦ rw e rest
        | inr (a, e) ↦
            let same = id-of c s id a (h c id has) (as_alert-some (get s (alert_key id)) a e) in
            rw e (subst (λ i. chat_has num redis law s c i ≡ true) (sym same) has, rest)
      ]

  list_by_chat-IsOf :
      (c : Text) (s : State)
      → IsConsistent num redis law s
      → All (IsOf c s) (list_by_chat num redis c s)
  unfolding list_by_chat load_alerts
  list_by_chat-IsOf c s h =
      All-sort_by (λ (a : PriceAlert F). a.id) (IsOf c s)
        (found_alerts num redis (smembers s (chat_ids_key c)) s)
        (found_alerts-IsOf c s (smembers s (chat_ids_key c)) h (λ i e. e))

  owners-same :
      (s : State) (c d : Text) (i : ℕ)
      → IsOwned num redis law s c i
      → IsOwned num redis law s d i
      → c ≡ d
  owners-same s c d i ((a, found, _, e), _, _) ((b, also, _, f), _, _) =
      let same : a ≡ b = cc in sym e ∙ ap (λ (x : PriceAlert F). x.chat_id) same ∙ f

  removed-IsConsistent :
      (c : Text) (id : ℕ) (s : State)
      → IsConsistent num redis law s
      → chat_has num redis law s c id ≡ true
      → IsConsistent num redis law (removed num redis law c id s)
  removed-IsConsistent c id s h mine d i has =
      let now = sym (chat_has-removed num redis law c id s d i) ∙ has in
      let t = removed num redis law c id s in
      elim (Bool-cases (id == i)) [
        | inr other ↦
            let old = kept (text_eq c d) (chat_has num redis law s d i) (rw other at now) in
            IsOwned-transfer num redis law s t d i
              (get-removed num redis law c id s i ∙ rw other refl)
              (λ known. all_has-removed num redis law c id s i ∙ rw (other, known) refl)
              (omega (arith, counter-removed num redis law c id s)) (h d i old)
        | inl same ↦
            let (apart, old) =
              elsewhere (text_eq c d) (chat_has num redis law s d i) (rw same at now) in
            let my = subst (λ k. chat_has num redis law s c k ≡ true) (ground arith) mine in
            let one = owners-same s c d i (h c i my) (h d i old) in absurd (different c d apart one)
      ]
    where
      different : (x y : Text) → text_eq x y ≡ false → x ≡ y → ⊥
      different x y apart same = ground (arith, text_eq_iff x y)

      kept : (b o : Bool) → (if b then (true && o) else o) ≡ true → o ≡ true
      kept true o e = e
      kept false o e = e

      elsewhere : (b o : Bool) → (if b then (false && o) else o) ≡ true → (b ≡ false) × (o ≡ true)
      elsewhere true o e = absurd cc
      elsewhere false o e = (refl, e)

  deleted-IsConsistent :
      (E : Type 0) (c : Text) (index : ℕ) (o : Option (PriceAlert F)) (s : State)
      → IsConsistent num redis law s
      → ((a : PriceAlert F) → o ≡ some a → IsOf c s a)
      → IsConsistent num redis law (deleted num redis {E = E} c index o s).1
  unfolding deleted
  deleted-IsConsistent E c index none s h mine = h
  deleted-IsConsistent E c index (some a) s h mine = removed-IsConsistent c a.id s h (mine a refl)

  listed-IsOf :
      (c : Text) (i : ℕ) (s : State)
      → IsConsistent num redis law s
      → (a : PriceAlert F) → get_elem? (list_by_chat num redis c s) i ≡ some a
      → IsOf c s a
  listed-IsOf c i s h a =
      All-get_elem? (IsOf c s) (list_by_chat num redis c s) i a (list_by_chat-IsOf c s h)

  pub delete_by_index-IsConsistent :
      (E : Type 0) (c : Text) (index : ℕ) (s : State)
      → IsConsistent num redis law s
      → IsConsistent num redis law (delete_by_index num redis {E = E} c index s).1
  unfolding delete_by_index
  delete_by_index-IsConsistent E c zero s h =
      deleted-IsConsistent E c zero none s h (λ a e. absurd cc)
  delete_by_index-IsConsistent E c (suc i) s h =
      deleted-IsConsistent E c (suc i) (get_elem? (list_by_chat num redis c s) i) s h
        (listed-IsOf c i s h)

  found_alerts-same :
      (ids : List ℕ) (s t : State)
      → ((i : ℕ) → contains i ids ≡ true → get t (alert_key i) ≡ get s (alert_key i))
      → found_alerts num redis ids t ≡ found_alerts num redis ids s
  unfolding found_alerts
  found_alerts-same [] s t h = refl
  found_alerts-same (id ∷ ids) s t h =
      rw (h id (ground arith), found_alerts-same ids s t (λ i e. h i (ground (arith, e)))) refl

  removed-other_chats :
      (c d : Text) (id : ℕ) (s : State)
      → IsConsistent num redis law s
      → text_eq c d ≡ false
      → chat_has num redis law s c id ≡ true
      → list_by_chat num redis d (removed num redis law c id s) ≡ list_by_chat num redis d s
  unfolding list_by_chat load_alerts
  removed-other_chats c d id s h apart mine =
      let t = removed num redis law c id s in
      let kept = λ (i : ℕ) (has : contains i (smembers s (chat_ids_key d)) ≡ true).
        get-removed num redis law c id s i
        ∙ ap (λ b. if b then none else get s (alert_key i)) (other_id i has) in
      rw (smembers-removed_ne num redis law c id s d apart) (
        ap (sort_by (λ (a : PriceAlert F). a.id))
          (found_alerts-same (smembers s (chat_ids_key d)) s t kept))
    where
      different : (x y : Text) → text_eq x y ≡ false → x ≡ y → ⊥
      different x y e same = ground (arith, text_eq_iff x y)

      other_id : (i : ℕ) → chat_has num redis law s d i ≡ true → (id == i) ≡ false
      other_id i has = elim (Bool-cases (id == i)) [
        | inr other ↦ other
        | inl same ↦
            let my = subst (λ k. chat_has num redis law s c k ≡ true) (ground arith) mine in
            absurd (different c d apart (owners-same s c d i (h c i my) (h d i has)))
      ]

  deleted-other_chats :
      (E : Type 0) (c d : Text) (index : ℕ) (o : Option (PriceAlert F)) (s : State)
      → IsConsistent num redis law s
      → text_eq c d ≡ false
      → ((a : PriceAlert F) → o ≡ some a → IsOf c s a)
      → list_by_chat num redis d (deleted num redis {E = E} c index o s).1
        ≡ list_by_chat num redis d s
  unfolding deleted
  deleted-other_chats E c d index none s h apart mine = refl
  deleted-other_chats E c d index (some a) s h apart mine =
      removed-other_chats c d a.id s h apart (mine a refl)

  -- Deleting by position leaves the list of every other chat as it is, in a consistent store.
  pub delete_by_index-other_chats :
      (E : Type 0) (c d : Text) (index : ℕ) (s : State)
      → IsConsistent num redis law s
      → text_eq c d ≡ false
      → list_by_chat num redis d (delete_by_index num redis {E = E} c index s).1
        ≡ list_by_chat num redis d s
  unfolding delete_by_index
  delete_by_index-other_chats E c d zero s h apart =
      deleted-other_chats E c d zero none s h apart (λ a e. absurd cc)
  delete_by_index-other_chats E c d (suc i) s h apart =
      deleted-other_chats E c d (suc i) (get_elem? (list_by_chat num redis c s) i) s h apart
        (listed-IsOf c i s h)

  update_state-absent :
      (b : PriceAlert F) (t : State)
      → get t (alert_key b.id) ≡ none
      → update_state num redis b t ≡ (false, t)
  unfolding update_state
  update_state-absent b t e =
      law.set_xx_lem t (alert_key b.id) (Stored.stored_alert b)
      ∙ ap
          (λ o.
            if is_some o
            then (true, redis.set t (alert_key b.id) (Stored.stored_alert b))
            else (false, t))
          e

  same_id : (i j : ℕ) → j ≡ i → (i == j) ≡ true
  same_id i j e = ground arith

  deleted-update_state :
      {E : Type 0} (c : Text) (index : ℕ) (o : Option (PriceAlert F)) (s : State)
      (a b : PriceAlert F)
      → (deleted num redis {E = E} c index o s).0 ≡ done a
      → b.id ≡ a.id
      → update_state num redis b (deleted num redis {E = E} c index o s).1
        ≡ (false, (deleted num redis {E = E} c index o s).1)
  unfolding deleted
  deleted-update_state c index none s a b e same = absurd cc
  deleted-update_state c index (some x) s a b e same =
      let one : x ≡ a = cc in
      let ids : b.id ≡ x.id = same ∙ ap (λ (y : PriceAlert F). y.id) (sym one) in
      update_state-absent b (removed num redis law c x.id s) (
        get-removed num redis law c x.id s b.id
        ∙ ap (λ t. if t then none else get s (alert_key b.id)) (same_id x.id b.id ids))

  -- An alert that its chat deleted is not brought back: a check that still holds a copy of it stores
  -- nothing and is told so.
  pub update_state-delete_by_index :
      {E : Type 0} (c : Text) (index : ℕ) (s : State) (a b : PriceAlert F)
      → (delete_by_index num redis {E = E} c index s).0 ≡ done a
      → b.id ≡ a.id
      → update_state num redis b (delete_by_index num redis {E = E} c index s).1
        ≡ (false, (delete_by_index num redis {E = E} c index s).1)
  unfolding delete_by_index
  update_state-delete_by_index c zero s a b e same = deleted-update_state c zero none s a b e same
  update_state-delete_by_index c (suc i) s a b e same =
      deleted-update_state c (suc i) (get_elem? (list_by_chat num redis c s) i) s a b e same
