-- ===== src/Signals/Backtest/Selection.antt =====
-- The records that a scorecard counts: one for each coin, verdict and day (the `seen` set of
-- src/signals/signal-backtest.ts).
use crypto_zalo_bot.Base.{
  ◌/◌, ◌≡◌, refl, sym, subst, ◌⊎◌, inl, inr, Bool, true, false, List, [], ◌∷◌, if◌then◌else◌, any,
  text_eq_iff, arith, Bool-cases,
}
use crypto_zalo_bot.Base.Number.{Number}
use crypto_zalo_bot.Signals.{SignalRecord}
use crypto_zalo_bot.Signals.Backtest.{same_key, same_bool}

module _ (num : Number) where
  open num use {F}

  -- Two records of the same coin, with the same verdict, on the same UTC day.
  abbrev pub AreAlike : SignalRecord F → SignalRecord F → Type 0
  AreAlike a b =
      (a.symbol ≡ b.symbol) × (a.is_buy ≡ b.is_buy) × (a.at / 86_400_000 ≡ b.at / 86_400_000)

  abbrev pub IsIn : SignalRecord F → List (SignalRecord F) → Type 0
  IsIn r [] = ⊥
  IsIn r (o ∷ rs) = (r ≡ o) ⊎ IsIn r rs

  abbrev pub HasAlike : SignalRecord F → List (SignalRecord F) → Type 0
  HasAlike r [] = ⊥
  HasAlike r (o ∷ rs) = AreAlike r o ⊎ HasAlike r rs

  -- No two of them are alike.
  abbrev pub AreApart : List (SignalRecord F) → Type 0
  AreApart [] = Unit
  AreApart (r ∷ rs) = (¬ HasAlike r rs) × AreApart rs

  -- One record for each coin, verdict and day of the records, and no other.
  pub record IsSelection (records chosen : List (SignalRecord F)) : Type 0 where
    pub apart : AreApart chosen
    pub taken : (r : SignalRecord F) → IsIn r chosen → IsIn r records
    pub complete : (r : SignalRecord F) → IsIn r records → HasAlike r chosen

  same_bool-eq : (a b : Bool) → same_bool a b ≡ true → a ≡ b
  same_bool-eq true true h = refl
  same_bool-eq false false h = refl
  same_bool-eq true false h = absurd (cc h)
  same_bool-eq false true h = absurd (cc h)

  same_bool_self : (a b : Bool) → a ≡ b → same_bool a b ≡ true
  same_bool_self true true h = refl
  same_bool_self false false h = refl
  same_bool_self true false h = absurd (cc h)
  same_bool_self false true h = absurd (cc h)

  same_key-AreAlike : (a b : SignalRecord F) → same_key num a b ≡ true → AreAlike a b
  same_key-AreAlike a b h = (
    (text_eq_iff a.symbol b.symbol).0 (ground arith),
    same_bool-eq a.is_buy b.is_buy (ground arith),
    ground arith,
  )

  AreAlike-same_key : (a b : SignalRecord F) → AreAlike a b → same_key num a b ≡ true
  AreAlike-same_key a b (s, v, d) =
      rw ((text_eq_iff a.symbol b.symbol).1 s, same_bool_self a.is_buy b.is_buy v) (ground arith)

  any-HasAlike :
      (r : SignalRecord F) (seen : List (SignalRecord F))
      → any (same_key num r) seen ≡ true
      → HasAlike r seen
  any-HasAlike r [] h = absurd (cc h)
  any-HasAlike r (o ∷ seen) h = elim (Bool-cases (same_key num r o)) [
    | inl same ↦ inl (same_key-AreAlike r o same)
    | inr other ↦ inr (any-HasAlike r seen (rw other at h))
  ]

  HasAlike-any :
      (r : SignalRecord F) (seen : List (SignalRecord F))
      → HasAlike r seen
      → any (same_key num r) seen ≡ true
  HasAlike-any r [] h = absurd h
  HasAlike-any r (o ∷ seen) (inl same) = rw (AreAlike-same_key r o same) refl
  HasAlike-any r (o ∷ seen) (inr later) = elim (Bool-cases (same_key num r o)) [
    | inl same ↦ rw same refl
    | inr other ↦ rw other (HasAlike-any r seen later)
  ]

  -- The records that the loop counts after those of `seen`, the latest first, on top of `seen`.
  unfoldable pub counted_from :
      List (SignalRecord F) → List (SignalRecord F) → List (SignalRecord F)
  counted_from seen [] = seen
  counted_from seen (r ∷ records) =
      let counted = counted_from (r ∷ seen) records in
      let skipped = counted_from seen records in
      if any (same_key num r) seen then skipped else counted

  counted_from_apart :
      (records seen : List (SignalRecord F)) → AreApart seen → AreApart (counted_from seen records)
  unfolding counted_from
  counted_from_apart [] seen h = h
  counted_from_apart (r ∷ records) seen h = elim (Bool-cases (any (same_key num r) seen)) [
    | inl known ↦ rw known (counted_from_apart records seen h)
    | inr fresh ↦ rw fresh (
        counted_from_apart records (r ∷ seen)
          (λ alike. absurd (cc (fresh, HasAlike-any r seen alike)), h))
  ]

  counted_from_taken :
      (records seen : List (SignalRecord F)) (x : SignalRecord F)
      → IsIn x (counted_from seen records)
      → IsIn x seen ⊎ IsIn x records
  unfolding counted_from
  counted_from_taken [] seen x h = inl h
  counted_from_taken (r ∷ records) seen x h = elim (Bool-cases (any (same_key num r) seen)) [
    | inl known ↦ elim (counted_from_taken records seen x (rw known at h)) [
      | inl old ↦ inl old
      | inr new ↦ inr (inr new)
    ]
    | inr fresh ↦ elim (counted_from_taken records (r ∷ seen) x (rw fresh at h)) [
      | inl (inl own) ↦ inr (inl own)
      | inl (inr old) ↦ inl old
      | inr new ↦ inr (inr new)
    ]
  ]

  counted_from_keeps :
      (records seen : List (SignalRecord F)) (x : SignalRecord F)
      → HasAlike x seen
      → HasAlike x (counted_from seen records)
  unfolding counted_from
  counted_from_keeps [] seen x h = h
  counted_from_keeps (r ∷ records) seen x h = elim (Bool-cases (any (same_key num r) seen)) [
    | inl known ↦ rw known (counted_from_keeps records seen x h)
    | inr fresh ↦ rw fresh (counted_from_keeps records (r ∷ seen) x (inr h))
  ]

  counted_from_complete :
      (records seen : List (SignalRecord F)) (x : SignalRecord F)
      → IsIn x records
      → HasAlike x (counted_from seen records)
  unfolding counted_from
  counted_from_complete [] seen x h = absurd h
  counted_from_complete (r ∷ records) seen x (inl e) =
      elim (Bool-cases (any (same_key num r) seen)) [
        | inl known ↦ rw known (
            counted_from_keeps records seen x
              (subst (λ y. HasAlike y seen) (sym e) (any-HasAlike r seen known)))
        | inr fresh ↦ rw fresh (
            counted_from_keeps records (r ∷ seen) x
              (subst (λ y. HasAlike y (r ∷ seen)) (sym e) (inl (refl, refl, refl))))
      ]
  counted_from_complete (r ∷ records) seen x (inr later) =
      elim (Bool-cases (any (same_key num r) seen)) [
        | inl known ↦ rw known (counted_from_complete records seen x later)
        | inr fresh ↦ rw fresh (counted_from_complete records (r ∷ seen) x later)
      ]

  pub counted_from-IsSelection :
      (records : List (SignalRecord F)) → IsSelection records (counted_from [] records)
  counted_from-IsSelection records = record {
    apart = counted_from_apart records [] tt;
    taken = λ r h. elim (counted_from_taken records [] r h) [ inl e ↦ absurd e | inr e ↦ e ];
    complete = λ r h. counted_from_complete records [] r h;
  }
