-- ===== src/Subscribers/Watchlists.antt =====
-- The table as a map from chats to the watchlists of those that are subscribed.
use crypto_zalo_bot.Base.{
  ℕ, ◌≡◌, refl, ap, sym, ◌∙◌, Bool, true, false, ◌&&◌, Option, none, some, List, [], ◌∷◌, map,
  if◌then◌else◌, find, Text, text_eq, text_eq_iff, Bool-cases, inl, inr, arith,
}
use crypto_zalo_bot.Alerts.Store.{Answer, done, thrown}
use crypto_zalo_bot.Commands.Words.{Unicode}
use crypto_zalo_bot.Subscribers.{
  Subscriber, InvalidWatchlistError, normalize_watchlist, upsert, find_active_by_chat_id,
  subscribed, subscribe, deactivated, unsubscribe, with_watchlist, updated, update_watchlist,
}

abbrev list_of : Option Subscriber → Option (List Text)
list_of none = none
list_of (some s) = some s.watchlist

-- The watchlist of a chat that is subscribed.
abbrev pub active_watchlist : List Subscriber → Text → Option (List Text)
active_watchlist rows c = list_of (find_active_by_chat_id c rows)

-- What a chat can ask for.
pub data Change : Type 0 where
  subscribes updates : Text → List Text → Change
  unsubscribes : Text → Change

module _ (unicode : Unicode) (now : ℕ) where
  abbrev pub apply : Change → List Subscriber → List Subscriber
  apply (Change.subscribes c watchlist) rows = (subscribe unicode c watchlist now rows).1
  apply (Change.updates c watchlist) rows = (update_watchlist unicode c watchlist rows).1
  apply (Change.unsubscribes c) rows = unsubscribe c rows

  abbrev pub apply_all : List Change → List Subscriber → List Subscriber
  apply_all [] rows = rows
  apply_all (x ∷ xs) rows = apply_all xs (apply x rows)

  -- The same changes of a map.
  abbrev set_at :
      Text
      → Answer InvalidWatchlistError (List Text)
      → (Text → Option (List Text))
      → Text
      → Option (List Text)
  set_at c (thrown e) f d = f d
  set_at c (done watchlist) f d = if text_eq c d then some watchlist else f d

  abbrev replace :
      Answer InvalidWatchlistError (List Text) → Option (List Text) → Option (List Text)
  replace (done watchlist) (some _) = some watchlist
  replace _ o = o

  abbrev pub change_map : Change → (Text → Option (List Text)) → Text → Option (List Text)
  change_map (Change.subscribes c watchlist) f d =
      set_at c (normalize_watchlist unicode watchlist) f d
  change_map (Change.updates c watchlist) f d =
      if text_eq c d then replace (normalize_watchlist unicode watchlist) (f d) else f d
  change_map (Change.unsubscribes c) f d = if text_eq c d then none else f d

  abbrev pub change_map_all : List Change → (Text → Option (List Text)) → Text → Option (List Text)
  change_map_all [] f = f
  change_map_all (x ∷ xs) f = change_map_all xs (change_map x f)

  -- One row and the rest.
  active_cons :
      (r : Subscriber) (rows : List Subscriber) (d : Text)
      → active_watchlist (r ∷ rows) d
        ≡ (if text_eq r.chat_id d && r.is_active then some r.watchlist else active_watchlist rows d)
  unfolding find_active_by_chat_id
  active_cons r rows d = by_test (text_eq r.chat_id d && r.is_active)
    where
      by_test :
          (b : Bool)
          → list_of (if b then some r else find (λ s. text_eq s.chat_id d && s.is_active) rows)
            ≡ (if b then some r.watchlist else active_watchlist rows d)
      by_test true = refl
      by_test false = refl

  -- The rows of a chat and of another one.
  own_row : (x c d : Text) → text_eq x c ≡ true → text_eq x d ≡ text_eq c d
  own_row x c d e = ap (λ k. text_eq k d) ((text_eq_iff x c).0 e)

  other_row : (x c d : Text) → text_eq x c ≡ false → (text_eq x d && text_eq c d) ≡ false
  other_row x c d e = ground (arith, text_eq_iff x c, text_eq_iff x d, text_eq_iff c d)

  swap_tests :
      {A : Type 0} (p a q : Bool) (x y z : A)
      → (p && q) ≡ false
      → (if p && a then x else if q then y else z) ≡ (if q then y else if p && a then x else z)
  swap_tests true a true x y z e = absurd cc
  swap_tests true a false x y z e = refl
  swap_tests false a q x y z e = refl

  active-upsert :
      (c : Text) (watchlist : List Text) (rows : List Subscriber) (d : Text)
      → active_watchlist (upsert c watchlist now rows) d
        ≡ (if text_eq c d then some watchlist else active_watchlist rows d)
  unfolding upsert
  active-upsert c watchlist [] d =
      active_cons
        (record { chat_id = c; watchlist = watchlist; is_active = true; created_at = now }) [] d
      ∙ alone (text_eq c d)
    where
      alone :
          (b : Bool)
          → (if b && true then some watchlist else active_watchlist [] d)
            ≡ (if b then some watchlist else active_watchlist [] d)
      alone true = refl
      alone false = refl
  active-upsert c watchlist (r ∷ rows) d = elim (Bool-cases (text_eq r.chat_id c)) [
    | inl own ↦
        let same = own_row r.chat_id c d own in
        rw own (
          active_cons (record r { watchlist = watchlist; is_active = true }) rows d
          ∙ ap (λ b. if b && true then some watchlist else active_watchlist rows d) same
          ∙ hidden (text_eq c d) r.is_active
          ∙ sym (
              ap (λ o. if text_eq c d then some watchlist else o)
                (active_cons r rows d
                  ∙ ap (λ b. if b && r.is_active then some r.watchlist else active_watchlist rows d)
                      same)))
    | inr other ↦ rw other (
        active_cons r (upsert c watchlist now rows) d
        ∙ ap (λ o. if text_eq r.chat_id d && r.is_active then some r.watchlist else o)
            (active-upsert c watchlist rows d)
        ∙ swap_tests (text_eq r.chat_id d) r.is_active (text_eq c d) (some r.watchlist)
            (some watchlist) (active_watchlist rows d) (other_row r.chat_id c d other)
        ∙ sym (ap (λ o. if text_eq c d then some watchlist else o) (active_cons r rows d)))
  ]
    where
      hidden :
          (b a : Bool)
          → (if b && true then some watchlist else active_watchlist rows d) ≡ (
              if b
              then some watchlist
              else if b && a
              then some r.watchlist
              else active_watchlist rows d)
      hidden true a = refl
      hidden false a = refl

  active-unsubscribe :
      (c : Text) (rows : List Subscriber) (d : Text)
      → active_watchlist (unsubscribe c rows) d
        ≡ (if text_eq c d then none else active_watchlist rows d)
  unfolding unsubscribe deactivated find_active_by_chat_id
  active-unsubscribe c [] d = nothing (text_eq c d)
    where
      nothing : (b : Bool) → Path (Option (List Text)) none (if b then none else none)
      nothing true = refl
      nothing false = refl
  active-unsubscribe c (r ∷ rows) d = elim (Bool-cases (text_eq r.chat_id c)) [
    | inl own ↦
        let same = own_row r.chat_id c d own in
        rw own (
          active_cons (record r { is_active = false }) (unsubscribe c rows) d
          ∙ gone (text_eq r.chat_id d)
          ∙ active-unsubscribe c rows d
          ∙ hidden (text_eq c d) r.is_active
          ∙ sym (
              ap (λ o. if text_eq c d then none else o)
                (active_cons r rows d
                  ∙ ap (λ b. if b && r.is_active then some r.watchlist else active_watchlist rows d)
                      same)))
    | inr other ↦ rw other (
        active_cons r (unsubscribe c rows) d
        ∙ ap (λ o. if text_eq r.chat_id d && r.is_active then some r.watchlist else o)
            (active-unsubscribe c rows d)
        ∙ swap_tests (text_eq r.chat_id d) r.is_active (text_eq c d) (some r.watchlist) none
            (active_watchlist rows d) (other_row r.chat_id c d other)
        ∙ sym (ap (λ o. if text_eq c d then none else o) (active_cons r rows d)))
  ]
    where
      gone :
          (b : Bool)
          → (if b && false then some r.watchlist else active_watchlist (unsubscribe c rows) d)
            ≡ active_watchlist (unsubscribe c rows) d
      gone true = refl
      gone false = refl

      hidden :
          (b a : Bool)
          → (if b then none else active_watchlist rows d)
            ≡ (if b then none else if b && a then some r.watchlist else active_watchlist rows d)
      hidden true a = refl
      hidden false a = refl

  abbrev replaced : List Text → Bool → Option (List Text) → Option (List Text)
  replaced watchlist b o = if b then replace (done watchlist) o else o

  active-update :
      (c : Text) (watchlist : List Text) (rows : List Subscriber) (d : Text)
      → active_watchlist (map (with_watchlist c watchlist) rows) d
        ≡ replaced watchlist (text_eq c d) (active_watchlist rows d)
  unfolding with_watchlist find_active_by_chat_id
  active-update c watchlist [] d = nothing (text_eq c d)
    where
      nothing : (b : Bool) → none ≡ replaced watchlist b none
      nothing true = refl
      nothing false = refl
  active-update c watchlist (r ∷ rows) d = elim (Bool-cases (text_eq r.chat_id c && r.is_active)) [
    | inl own ↦
        let same = own_row r.chat_id c d (ground (arith, own)) in
        rw own (
          active_cons (record r { watchlist = watchlist }) (map (with_watchlist c watchlist) rows) d
          ∙ ap (λ o. if text_eq r.chat_id d && r.is_active then some watchlist else o)
              (active-update c watchlist rows d)
          ∙ ap
              (λ b.
                if b && r.is_active
                then some watchlist
                else replaced watchlist (text_eq c d) (active_watchlist rows d))
              same
          ∙ written (text_eq c d) r.is_active (ground (arith, own))
          ∙ sym (
              ap (replaced watchlist (text_eq c d)) (
                active_cons r rows d
                ∙ ap (λ b. if b && r.is_active then some r.watchlist else active_watchlist rows d)
                    same)))
    | inr other ↦ rw other (
        active_cons r (map (with_watchlist c watchlist) rows) d
        ∙ ap (λ o. if text_eq r.chat_id d && r.is_active then some r.watchlist else o)
            (active-update c watchlist rows d)
        ∙ kept (text_eq r.chat_id d && r.is_active) (text_eq c d) (
            ground
              (arith, other, text_eq_iff r.chat_id c, text_eq_iff r.chat_id d, text_eq_iff c d))
        ∙ sym (ap (replaced watchlist (text_eq c d)) (active_cons r rows d)))
  ]
    where
      written :
          (b a : Bool)
          → a ≡ true
          → (if b && a then some watchlist else replaced watchlist b (active_watchlist rows d))
            ≡ replaced watchlist b (if b && a then some r.watchlist else active_watchlist rows d)
      written true true e = refl
      written true false e = absurd cc
      written false a e = refl

      kept :
          (p q : Bool)
          → (p && q) ≡ false
          → (if p then some r.watchlist else replaced watchlist q (active_watchlist rows d))
            ≡ replaced watchlist q (if p then some r.watchlist else active_watchlist rows d)
      kept true true e = absurd cc
      kept true false e = refl
      kept false q e = refl

  active-subscribed :
      (c : Text) (answer : Answer InvalidWatchlistError (List Text)) (rows : List Subscriber)
      (d : Text)
      → active_watchlist (subscribed c now answer rows).1 d
        ≡ set_at c answer (active_watchlist rows) d
  unfolding subscribed
  active-subscribed c (thrown e) rows d = refl
  active-subscribed c (done watchlist) rows d = active-upsert c watchlist rows d

  active-updated :
      (c : Text) (answer : Answer InvalidWatchlistError (List Text)) (rows : List Subscriber)
      (d : Text)
      → active_watchlist (updated c answer rows).1 d ≡ (
          if text_eq c d then replace answer (active_watchlist rows d) else active_watchlist rows d)
  unfolding updated
  active-updated c (thrown e) rows d = same (text_eq c d) (active_watchlist rows d)
    where
      same : (b : Bool) (o : Option (List Text)) → o ≡ (if b then replace (thrown e) o else o)
      same true none = refl
      same true (some w) = refl
      same false o = refl
  active-updated c (done watchlist) rows d = active-update c watchlist rows d

  active-apply :
      (x : Change) (rows : List Subscriber) (d : Text)
      → active_watchlist (apply x rows) d ≡ change_map x (active_watchlist rows) d
  unfolding subscribe update_watchlist
  active-apply (Change.subscribes c watchlist) rows d =
      active-subscribed c (normalize_watchlist unicode watchlist) rows d
  active-apply (Change.updates c watchlist) rows d =
      active-updated c (normalize_watchlist unicode watchlist) rows d
  active-apply (Change.unsubscribes c) rows d = active-unsubscribe c rows d

  set_at-ext :
      (c : Text) (answer : Answer InvalidWatchlistError (List Text))
      (f g : Text → Option (List Text)) (d : Text)
      → f d ≡ g d
      → set_at c answer f d ≡ set_at c answer g d
  set_at-ext c (thrown e) f g d h = h
  set_at-ext c (done watchlist) f g d h = ap (λ o. if text_eq c d then some watchlist else o) h

  change_map-ext :
      (x : Change) (f g : Text → Option (List Text)) (d : Text)
      → f d ≡ g d
      → change_map x f d ≡ change_map x g d
  change_map-ext (Change.subscribes c watchlist) f g d h =
      set_at-ext c (normalize_watchlist unicode watchlist) f g d h
  change_map-ext (Change.updates c watchlist) f g d h =
      ap (λ o. if text_eq c d then replace (normalize_watchlist unicode watchlist) o else o) h
  change_map-ext (Change.unsubscribes c) f g d h = ap (λ o. if text_eq c d then none else o) h

  change_map_all-ext :
      (xs : List Change) (f g : Text → Option (List Text))
      → ((d : Text) → f d ≡ g d)
      → (d : Text) → change_map_all xs f d ≡ change_map_all xs g d
  change_map_all-ext [] f g h d = h d
  change_map_all-ext (x ∷ xs) f g h d =
      change_map_all-ext xs (change_map x f) (change_map x g) (λ k. change_map-ext x f g k (h k)) d

  -- The table behaves as a map from chats to watchlists: after any subscriptions, updates and
  -- cancellations, in any order, a chat is subscribed with exactly the watchlist that the same changes of
  -- the map give it. A list that is refused changes nothing, an update reaches only a chat that is
  -- subscribed, and a chat that comes back gets its new list.
  pub apply_all-change_map :
      (xs : List Change) (rows : List Subscriber) (d : Text)
      → active_watchlist (apply_all xs rows) d ≡ change_map_all xs (active_watchlist rows) d
  apply_all-change_map [] rows d = refl
  apply_all-change_map (x ∷ xs) rows d =
      apply_all-change_map xs (apply x rows) d
      ∙ change_map_all-ext xs (active_watchlist (apply x rows))
          (change_map x (active_watchlist rows)) (active-apply x rows) d
