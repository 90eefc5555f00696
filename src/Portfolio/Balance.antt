-- ===== src/Portfolio/Balance.antt =====
-- Running balances: what was bought and sold along a list, for any way of reading the two off an
-- entry, and lists whose balance never falls below zero.
use crypto_zalo_bot.Base.{
  ℕ, ◌+◌, ◌≤◌, ◌≡◌, Bool, true, false, ◌||◌, List, [], ◌∷◌, ◌++◌, ltb, if◌then◌else◌, keep, arith,
  inl, inr, ◌⊎◌,
}

module _ {A : Type 0} (bought sold : A → ℕ) where
  abbrev pub total_bought : List A → ℕ
  total_bought [] = 0
  total_bought (x ∷ xs) = bought x + total_bought xs

  abbrev pub total_sold : List A → ℕ
  total_sold [] = 0
  total_sold (x ∷ xs) = sold x + total_sold xs

  -- From `b` bought and `v` sold on, no sale exceeds what is held.
  abbrev pub IsCovered : ℕ → ℕ → List A → Type 0
  IsCovered b v [] = Unit
  IsCovered b v (x ∷ xs) = (v + sold x ≤ b + bought x) × IsCovered (b + bought x) (v + sold x) xs

  -- Some running balance is negative.
  unfoldable pub any_negative : ℕ → ℕ → List A → Bool
  any_negative b v [] = false
  any_negative b v (x ∷ xs) =
      ltb (b + bought x) (v + sold x) || any_negative (b + bought x) (v + sold x) xs

  pub IsCovered-of : (b v : ℕ) (xs : List A) → any_negative b v xs ≡ false → IsCovered b v xs
  unfolding any_negative
  IsCovered-of b v [] h = tt
  IsCovered-of b v (x ∷ xs) h =
      (ground arith, IsCovered-of (b + bought x) (v + sold x) xs (ground arith))

  pub IsCovered-total :
      (b v : ℕ) (xs : List A) → v ≤ b → IsCovered b v xs → v + total_sold xs ≤ b + total_bought xs
  IsCovered-total b v [] h c = omega arith
  IsCovered-total b v (x ∷ xs) h c =
      omega (arith, IsCovered-total (b + bought x) (v + sold x) xs c.0 c.1)

  -- One more entry at the end needs a balance that bears it.
  pub IsCovered-append :
      (b v : ℕ) (xs : List A) (x : A)
      → IsCovered b v xs
      → v + total_sold xs + sold x ≤ b + total_bought xs + bought x
      → IsCovered b v (xs ++ x ∷ [])
  IsCovered-append b v [] x c h = (omega arith, tt)
  IsCovered-append b v (y ∷ xs) x c h =
      (c.0, IsCovered-append (b + bought y) (v + sold y) xs x c.1 (omega arith))

  -- An entry that neither buys nor sells.
  abbrev pub IsIdle : A → Type 0
  IsIdle x = (bought x ≡ 0) × (sold x ≡ 0)

  keep_step :
      (pb qb : Bool) (x : A) (ps qs : List A) (b v : ℕ)
      → (pb ≡ qb) ⊎ IsIdle x
      → IsCovered b v (if pb then x ∷ ps else ps)
      → v ≤ b
      → ((b' v' : ℕ) → IsCovered b' v' ps → v' ≤ b' → IsCovered b' v' qs)
      → IsCovered b v (if qb then x ∷ qs else qs)
  keep_step true true x ps qs b v e c h k = (c.0, k _ _ c.1 c.0)
  keep_step false false x ps qs b v e c h k = k b v c h
  keep_step true false x ps qs b v (inl e) c h k = absurd (cc e)
  keep_step false true x ps qs b v (inl e) c h k = absurd (cc e)
  keep_step true false x ps qs b v (inr (ib, is)) c h k =
      let eb : b + bought x ≡ b = omega arith in
      let ev : v + sold x ≡ v = omega arith in k b v (rw (eb, ev) at (c.1)) h
  keep_step false true x ps qs b v (inr (ib, is)) c h k =
      let eb : b + bought x ≡ b = omega arith in
      let ev : v + sold x ≡ v = omega arith in rw (eb, ev) (h, k b v c h)

  -- Two selections that differ only on idle entries have the same balances.
  pub IsCovered-keep :
      (p q : A → Bool)
      → ((x : A) → (p x ≡ q x) ⊎ IsIdle x)
      → (xs : List A) (b v : ℕ) → IsCovered b v (keep p xs)
      → v ≤ b
      → IsCovered b v (keep q xs)
  IsCovered-keep p q agree [] b v c h = tt
  IsCovered-keep p q agree (x ∷ xs) b v c h =
      keep_step (p x) (q x) x (keep p xs) (keep q xs) b v (agree x) c h
        (IsCovered-keep p q agree xs)
