-- ===== src/Alerts/Store/Consistency.antt =====
-- A consistent store: a chat's set names only alerts that are stored, of that chat, and known to the
-- check, and no id above the counter.
use crypto_zalo_bot.Base.{
  ℕ, suc, ◌≤◌, ◌≡◌, refl, ap, sym, ◌∙◌, Bool, true, false, ◌||◌, Option, some, leb, ◌==◌,
  if◌then◌else◌, Text, text_eq, text_eq_iff, Bool-cases, inl, inr, arith,
}
use crypto_zalo_bot.Base.Number.{Number}
use crypto_zalo_bot.Alerts.{PriceAlert, AlertDirection, max_alerts_per_chat}
use crypto_zalo_bot.Alerts.Evaluator.{is_condition_met}
use crypto_zalo_bot.Alerts.Store.{
  Stored, Answer, done, thrown, next_id_key, all_ids_key, alert_key, chat_ids_key, stored_new,
  new_alert, created, create, as_alert,
}
use crypto_zalo_bot.Alerts.Store.Client.{Redis, IsLawful, contains}
use crypto_zalo_bot.Alerts.Store.Keys.{next-chat, next-all, next-alert}
use crypto_zalo_bot.Alerts.Store.Observations.{
  chat_has, all_has, get-stored_new, chat_has-stored_new, all_has-stored_new, counter-stored_new,
}

pub as_alert-some :
    {F : Type 0} (o : Option (Stored F)) (a : PriceAlert F)
    → as_alert o ≡ some a
    → o ≡ some (Stored.stored_alert a)
unfolding as_alert
as_alert-some (some (Stored.stored_alert b)) a h =
    let same : b ≡ a = cc in ap (λ c. some (Stored.stored_alert c)) same
as_alert-some _ a h = absurd cc

module _ (num : Number) (redis : Redis (Stored num.F)) (law : IsLawful redis) where
  open num use {F}
  open redis use {State, get, smembers, counter, set, incr}

  abbrev pub IsOwned : State → Text → ℕ → Type 0
  IsOwned s d i =
      ((a : PriceAlert F) × (get s (alert_key i) ≡ some (Stored.stored_alert a))
        × (a.id ≡ i)
        × (a.chat_id ≡ d))
      × (all_has num redis law s i ≡ true)
      × (i ≤ counter s next_id_key)

  abbrev pub IsConsistent : State → Type 0
  IsConsistent s = (d : Text) (i : ℕ) → chat_has num redis law s d i ≡ true → IsOwned s d i

  pub IsOwned-transfer :
      (s t : State) (d : Text) (i : ℕ)
      → get t (alert_key i) ≡ get s (alert_key i)
      → (all_has num redis law s i ≡ true → all_has num redis law t i ≡ true)
      → counter s next_id_key ≤ counter t next_id_key
      → IsOwned s d i
      → IsOwned t d i
  IsOwned-transfer s t d i same keeps grows ((a, found, e, f), known, bound) =
      ((a, same ∙ found, e, f), keeps known, omega arith)

  incr-IsConsistent : (s : State) → IsConsistent s → IsConsistent (incr s next_id_key).1
  incr-IsConsistent s h d i has =
      let before =
        ap (contains i) (sym (law.smembers-incr s next_id_key (chat_ids_key d) (next-chat i d)))
        ∙ has in
      IsOwned-transfer s (incr s next_id_key).1 d i
        (law.get-incr s next_id_key (alert_key i) (next-alert i d))
        (λ known. ap (contains i) (law.smembers-incr s next_id_key all_ids_key next-all) ∙ known)
        (omega (arith, law.counter-incr s next_id_key)) (h d i before)

  stored_new-IsConsistent :
      (a : PriceAlert F) (s : State)
      → IsConsistent s
      → ((d : Text) (i : ℕ) → chat_has num redis law s d i ≡ true → (a.id == i) ≡ false)
      → a.id ≤ counter s next_id_key
      → IsConsistent (stored_new num redis a s)
  stored_new-IsConsistent a s h fresh bound d i has =
      elim (Bool-cases (chat_has num redis law s d i)) [
        | inl old ↦
            let other = fresh d i old in
            let kept : get (stored_new num redis a s) (alert_key i) ≡ get s (alert_key i) =
              get-stored_new num redis law a s i ∙ rw other refl in
            IsOwned-transfer s (stored_new num redis a s) d i kept
              (λ known. all_has-stored_new num redis law a s i ∙ rw known (ground arith))
              (omega (arith, counter-stored_new num redis law a s)) (h d i old)
        | inr new ↦
            let now = sym (chat_has-stored_new num redis law a s d i) ∙ has in
            let (same_chat, same_id) = is_new (text_eq a.chat_id d) (a.id == i) (rw new at now) in
            let found : get (stored_new num redis a s) (alert_key i)
                ≡ some (Stored.stored_alert a) =
              get-stored_new num redis law a s i ∙ rw same_id refl in
            (
              (a, found, ground arith, (text_eq_iff a.chat_id d).0 same_chat),
              all_has-stored_new num redis law a s i ∙ rw same_id refl,
              ground (arith, counter-stored_new num redis law a s),
            )
      ]
    where
      is_new : (b c : Bool) → (if b then (c || false) else false) ≡ true → (b ≡ true) × (c ≡ true)
      is_new true true e = (refl, refl)
      is_new true false e = absurd cc
      is_new false c e = absurd cc

  -- Errors leave the store as it is.
  created-IsConsistent :
      {E : Type 0} (chat_id symbol : Text) (direction : AlertDirection) (threshold : F)
      (now count : ℕ) (answer : Answer E F) (s : State)
      → IsConsistent s
      → IsConsistent (created num redis chat_id symbol direction threshold now count answer s).1
  unfolding created new_alert
  created-IsConsistent chat_id symbol direction threshold now count (thrown e) s h = h
  created-IsConsistent chat_id symbol direction threshold now count (done price) s h =
      elim (Bool-cases (is_condition_met num direction threshold price)) [
        | inl met ↦ rw met h
        | inr ahead ↦
            let id = (incr s next_id_key).0 in
            let counted = (incr s next_id_key).1 in
            let fresh = λ (d : Text) (i : ℕ) (has : chat_has num redis law counted d i ≡ true).
              let (_, _, bound) = h d i (
                ap (contains i)
                  (sym (law.smembers-incr s next_id_key (chat_ids_key d) (next-chat i d)))
                ∙ has) in
              above (law.incr_value s next_id_key) bound in
            rw ahead (
              stored_new-IsConsistent
                (new_alert num redis chat_id symbol direction threshold id now) counted
                (incr-IsConsistent s h) fresh
                (omega (arith, law.incr_value s next_id_key, law.counter-incr s next_id_key)))
      ]
    where
      above : {id i n : ℕ} → id ≡ suc n → i ≤ n → (id == i) ≡ false
      above e b = ground arith

  pub create-IsConsistent :
      {E : Type 0} (chat_id symbol : Text) (direction : AlertDirection) (threshold : F) (now : ℕ)
      (price_of : Text → Answer E F) (s : State)
      → IsConsistent s
      → IsConsistent (create num redis chat_id symbol direction threshold now price_of s).1
  unfolding create
  create-IsConsistent chat_id symbol direction threshold now price_of s h =
      let count = redis.scard s (chat_ids_key chat_id) in
      elim (Bool-cases (leb max_alerts_per_chat count)) [
        | inl full ↦ rw full h
        | inr room ↦ rw room (
            created-IsConsistent chat_id symbol direction threshold now count (price_of symbol) s h)
      ]
