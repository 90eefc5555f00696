-- ===== src/Alerts/Store/Logs.antt =====
-- The capped logs of deliveries, runs and notices.
use crypto_zalo_bot.Base.{
  ℕ, zero, suc, ◌≤◌, ◌<◌, ◌≡◌, refl, ap, sym, ◌∙◌, List, [], ◌∷◌, length, take, Text, arith,
}
use crypto_zalo_bot.Base.Number.{Number}
use crypto_zalo_bot.Alerts.Store.{Stored, push_capped}
use crypto_zalo_bot.Alerts.Store.Client.{Redis, IsLawful}

module _ {A : Type 0} where
  -- The entries that were added, the newest first, before those that stood there.
  abbrev pub newest_first : List A → List A → List A
  newest_first [] old = old
  newest_first (x ∷ xs) old = newest_first xs (x ∷ old)

  take_idem : (n : ℕ) (xs : List A) → take n (take n xs) ≡ take n xs
  take_idem zero xs = refl
  take_idem (suc n) [] = refl
  take_idem (suc n) (x ∷ xs) = ap (λ t. x ∷ t) (take_idem n xs)

  take-all : (n : ℕ) (xs : List A) → length xs ≤ n → take n xs ≡ xs
  take-all zero [] h = refl
  take-all zero (x ∷ xs) h = absurd (omega arith)
  take-all (suc n) [] h = refl
  take-all (suc n) (x ∷ xs) h = ap (λ t. x ∷ t) (take-all n xs (omega arith))

  take-less : (n : ℕ) (xs ys : List A) → take (suc n) xs ≡ take (suc n) ys → take n xs ≡ take n ys
  take-less zero xs ys h = refl
  take-less (suc n) [] [] h = refl
  take-less (suc n) [] (y ∷ ys) h = absurd cc
  take-less (suc n) (x ∷ xs) [] h = absurd cc
  take-less (suc n) (x ∷ xs) (y ∷ ys) h =
      let head : x ≡ y = cc in
      let tail : take (suc n) xs ≡ take (suc n) ys = cc in
      ap (λ a. a ∷ take n xs) head ∙ ap (λ t. y ∷ t) (take-less n xs ys tail)

  take-cons :
      (n : ℕ) (x : A) (xs ys : List A) → take n xs ≡ take n ys → take n (x ∷ xs) ≡ take n (x ∷ ys)
  take-cons zero x xs ys h = refl
  take-cons (suc n) x xs ys h = ap (λ t. x ∷ t) (take-less n xs ys h)

  take-newest_first :
      (n : ℕ) (es xs ys : List A)
      → take n xs ≡ take n ys
      → take n (newest_first es xs) ≡ take n (newest_first es ys)
  take-newest_first n [] xs ys h = h
  take-newest_first n (e ∷ es) xs ys h =
      take-newest_first n es (e ∷ xs) (e ∷ ys) (take-cons n e xs ys h)

module _ (num : Number) (redis : Redis (Stored num.F)) where
  open redis use {State}

  abbrev pub push_all : Text → ℕ → List (Stored num.F) → State → State
  push_all key max_entries [] s = s
  push_all key max_entries (e ∷ es) s =
      push_all key max_entries es (push_capped num redis key e max_entries s)

module _ (num : Number) (redis : Redis (Stored num.F)) (law : IsLawful redis) where
  open redis use {State, list_all}

  list_all-push_capped :
      (key : Text) (e : Stored num.F) (n : ℕ) (s : State)
      → 0 < n
      → list_all (push_capped num redis key e n s) key ≡ take n (e ∷ list_all s key)
  unfolding push_capped
  list_all-push_capped key e n s pos =
      law.list_all-ltrim (redis.lpush s key e) key n pos ∙ ap (take n) (law.list_all-lpush s key e)

  take-push_all :
      (key : Text) (n : ℕ) (es : List (Stored num.F)) (s : State)
      → 0 < n
      → take n (list_all (push_all num redis key n es s) key)
        ≡ take n (newest_first es (list_all s key))
  take-push_all key n [] s pos = refl
  take-push_all key n (e ∷ es) s pos =
      let after = list_all-push_capped key e n s pos in
      take-push_all key n es (push_capped num redis key e n s) pos
      ∙ take-newest_first n es (list_all (push_capped num redis key e n s) key) (e ∷ list_all s key)
          (ap (take n) after ∙ take_idem n (e ∷ list_all s key))

  length-take_le : {A : Type 0} (n : ℕ) (xs : List A) → length (take n xs) ≤ n
  length-take_le zero xs = omega arith
  length-take_le (suc n) [] = omega arith
  length-take_le (suc n) (x ∷ xs) = omega (arith, length-take_le n xs)

  push_all-fits :
      (key : Text) (n : ℕ) (es : List (Stored num.F)) (s : State)
      → 0 < n
      → length (list_all s key) ≤ n
      → length (list_all (push_all num redis key n es s) key) ≤ n
  push_all-fits key n [] s pos h = h
  push_all-fits key n (e ∷ es) s pos h =
      let same = ap length (list_all-push_capped key e n s pos) in
      push_all-fits key n es (push_capped num redis key e n s) pos
        (omega (arith, same, length-take_le n (e ∷ list_all s key)))

  -- A log with a positive maximum that holds no more than its maximum holds, after any number of entries, exactly the newest
  -- ones up to the maximum, the newest first.
  pub push_all-newest :
      (key : Text) (n : ℕ) (es : List (Stored num.F)) (s : State)
      → 0 < n
      → length (list_all s key) ≤ n
      → list_all (push_all num redis key n es s) key ≡ take n (newest_first es (list_all s key))
  push_all-newest key n es s pos h =
      let after = list_all (push_all num redis key n es s) key in
      sym (take-all n after (push_all-fits key n es s pos h)) ∙ take-push_all key n es s pos
