-- ===== src/Alerts/Store/Memory.antt =====
-- A store in memory that behaves as documented, to run the alert store on. A time to live of 0 is none.
use crypto_zalo_bot.Base.{
  ℕ, suc, ◌-◌, ◌<◌, ◌≤◌, ltb, leb, ap₂, ◌≡◌, refl, ap, ◌∙◌, subst, Bool-cases, inl, inr, true,
  false, not, ◌&&◌, ◌||◌, Option, none, some, List, [], ◌∷◌, ◌==◌, if◌then◌else◌, length, take,
  keep, is_some, Text, text_eq, text_eq_refl, arith,
}
use crypto_zalo_bot.Alerts.Store.Client.{Redis, IsLawful, contains}

pub record Memory (V : Type 0) : Type 0 where
  pub values : Text → Option V
  pub ttls : Text → ℕ
  pub counters : Text → ℕ
  pub sets : Text → List ℕ
  pub lists : Text → List V

abbrev pub no_memory : {V : Type 0} → Memory V
no_memory = record {
  values = λ _. none;
  ttls = λ _. 0;
  counters = λ _. 0;
  sets = λ _. [];
  lists = λ _. [];
}

module _ {A : Type 0} where
  abbrev update : (Text → A) → Text → A → Text → A
  update f k a j = if text_eq k j then a else f j

abbrev add_member : ℕ → List ℕ → List ℕ
add_member i is = if contains i is then is else i ∷ is

abbrev remove_member : ℕ → List ℕ → List ℕ
remove_member i is = keep (λ j. not (j == i)) is

module _ (V : Type 0) where
  abbrev put : Memory V → Text → Option V → Memory V
  put s k o = record s { values = update s.values k o; ttls = update s.ttls k 0 }

  abbrev put_for : Memory V → Text → V → ℕ → Memory V
  put_for s k v ttl = record s { values = update s.values k (some v); ttls = update s.ttls k ttl }

  -- A value by the time to live of its key, after `ms`.
  abbrev left_after : ℕ → ℕ → Option V → Option V
  left_after ttl ms o = if ltb 0 ttl && leb ttl ms then none else o

  abbrev pub memory_redis : Redis V
  memory_redis = record {
    State = Memory V;
    get = λ s k. s.values k;
    set = λ s k v. put s k (some v);
    set_xx = λ s k v. if is_some (s.values k) then (true, put s k (some v)) else (false, s);
    set_nx = λ s k v ttl. if is_some (s.values k) then (false, s) else (true, put_for s k v ttl);
    set_px = λ s k v ttl. put_for s k v ttl;
    del = λ s k. put s k none;
    expire = λ s k. put s k none;
    elapse = λ s ms. record s {
      values = λ k. left_after (s.ttls k) ms (s.values k);
      ttls = λ k. s.ttls k - ms;
    };
    counter = λ s k. s.counters k;
    incr = λ s k.
        (suc (s.counters k), record s { counters = update s.counters k (suc (s.counters k)) });
    smembers = λ s k. s.sets k;
    scard = λ s k. length (s.sets k);
    sadd = λ s k i. record s { sets = update s.sets k (add_member i (s.sets k)) };
    srem = λ s k i. record s { sets = update s.sets k (remove_member i (s.sets k)) };
    lpush = λ s k v. record s { lists = update s.lists k (v ∷ s.lists k) };
    ltrim = λ s k n. record s { lists = update s.lists k (take n (s.lists k)) };
    list_all = λ s k. s.lists k;
    list_first = λ s k n. take n (s.lists k);
  }

  update_self : {A : Type 0} (f : Text → A) (k : Text) (a : A) → update f k a k ≡ a
  update_self f k a = rw (text_eq_refl k) refl

  update_ne :
      {A : Type 0} (f : Text → A) (k : Text) (a : A) (j : Text)
      → text_eq k j ≡ false
      → update f k a j ≡ f j
  update_ne f k a j h = rw h refl

  contains-add_member :
      (x i : ℕ) (is : List ℕ) → contains i (add_member x is) ≡ ((x == i) || contains i is)
  contains-add_member x i is = elim (Bool-cases (contains x is)) [
    | inr new ↦ rw new refl
    | inl old ↦ rw old (elim (Bool-cases (x == i)) [
      | inr other ↦ ground arith
      | inl same ↦
          let found : contains i is ≡ true = subst (λ k. contains k is ≡ true) (ground arith) old in
          ground (arith, found)
    ])
  ]

  contains-remove_member :
      (x i : ℕ) (is : List ℕ) → contains i (remove_member x is) ≡ (not (x == i) && contains i is)
  contains-remove_member x i [] = ground arith
  contains-remove_member x i (j ∷ js) = ground (arith, contains-remove_member x i js)

  left_after-within :
      (s : Memory V) (k : Text) (v : V) (ttl ms : ℕ)
      → ms < ttl
      → left_after ((put_for s k v ttl).ttls k) ms ((put_for s k v ttl).values k) ≡ some v
  left_after-within s k v ttl ms h =
      ap₂ (λ t o. left_after t ms o) (update_self s.ttls k ttl) (update_self s.values k (some v))
      ∙ ground arith

  left_after-gone :
      (s : Memory V) (k : Text) (v : V) (ttl ms : ℕ)
      → 0 < ttl
      → ttl ≤ ms
      → left_after ((put_for s k v ttl).ttls k) ms ((put_for s k v ttl).values k) ≡ none
  left_after-gone s k v ttl ms h l =
      ap₂ (λ t o. left_after t ms o) (update_self s.ttls k ttl) (update_self s.values k (some v))
      ∙ ground arith

  pub memory_redis-IsLawful : IsLawful memory_redis
  memory_redis-IsLawful = record {
    get-set = λ s k v j. refl;
    get-del = λ s k j. refl;
    get-expire = λ s k j. refl;
    set_xx_lem = λ s k v. refl;
    set_nx-refused = λ s k v w ttl h. rw h refl;
    set_nx-granted = λ s k v ttl h. rw h (refl, λ j. refl);
    get-elapse_within = λ s k v ttl ms h l. rw h (left_after-within s k v ttl ms l);
    get-elapse_after = λ s k v ttl ms h p l. rw h (left_after-gone s k v ttl ms p l);
    get-incr = λ s k j h. refl;
    get-sadd = λ s k i j h. refl;
    get-srem = λ s k i j h. refl;
    incr_value = λ s k. refl;
    counter-incr = λ s k. update_self s.counters k (suc (s.counters k));
    counter-set = λ s k v j h. refl;
    counter-del = λ s k j h. refl;
    counter-sadd = λ s k i j h. refl;
    counter-srem = λ s k i j h. refl;
    smembers-set = λ s k v j h. refl;
    smembers-del = λ s k j h. refl;
    smembers-incr = λ s k j h. refl;
    smembers-sadd_ne = λ s k i j h. update_ne s.sets k (add_member i (s.sets k)) j h;
    smembers-srem_ne = λ s k i j h. update_ne s.sets k (remove_member i (s.sets k)) j h;
    contains-sadd = λ s k x i.
        ap (contains i) (update_self s.sets k (add_member x (s.sets k)))
        ∙ contains-add_member x i (s.sets k);
    contains-srem = λ s k x i.
        ap (contains i) (update_self s.sets k (remove_member x (s.sets k)))
        ∙ contains-remove_member x i (s.sets k);
    scard_lem = λ s k. refl;
    list_all-lpush = λ s k v. update_self s.lists k (v ∷ s.lists k);
    list_all-ltrim = λ s k n pos. update_self s.lists k (take n (s.lists k));
  }
