-- ===== src/Prices/Laws.antt =====
-- The fallback's choice among the coins of one symbol, and what is thrown when no price is found
-- (src/coinpaprika/coinpaprika.service.ts, src/coingecko/coingecko.service.ts).
use crypto_zalo_bot.Base.{
  ℕ, ◌≤◌, ◌<◌, ◌≡◌, refl, sym, subst, ◌∙◌, ◌⊎◌, inl, inr, Bool, true, false, ltb, ltb→lt, lt→ltb,
  Option, none, some, List, [], ◌∷◌, if◌then◌else◌, Text, text_eq, text_eq_iff, Dict, lookup,
  insert, lookup-insert, arith,
}
use crypto_zalo_bot.Prices.{CoinPaprikaTicker, PriceServices, best_ticker_by_symbol, is_better}

module _ {F : Type 0} (services : PriceServices F) where
  -- No ticker in this place has a lower rank.
  abbrev AtLeast : ℕ → Option (CoinPaprikaTicker F) → Type 0
  AtLeast n none = 0 ≤ n
  AtLeast n (some u) = n ≤ u.rank

  -- No ticker of this key has a lower rank.
  abbrev pub NoneLower : ℕ → Text → List (CoinPaprikaTicker F) → Type 0
  NoneLower n key [] = 0 ≤ n
  NoneLower n key (u ∷ tickers) =
      (services.to_lower_case u.symbol ≡ key → n ≤ u.rank) × NoneLower n key tickers

  either_rank :
      (n : ℕ) (u e : CoinPaprikaTicker F) (same b : Bool)
      → ltb u.rank e.rank ≡ b
      → AtLeast n (if b then (if same then some u else some e) else some e)
      → n ≤ e.rank × (same ≡ true → n ≤ u.rank)
  either_rank n u e true true lower h =
      let less : u.rank < e.rank = ltb→lt u.rank e.rank lower in (omega arith, λ _. h)
  either_rank n u e false true lower h = (h, λ s. absurd cc)
  either_rank n u e same false lower h = (h, λ _. ground (arith, lt→ltb u.rank e.rank))

  AtLeast-kept :
      (n : ℕ) (u : CoinPaprikaTicker F) (o : Option (CoinPaprikaTicker F)) (same : Bool)
      → AtLeast n (if is_better services u o then (if same then some u else o) else o)
      → AtLeast n o × (same ≡ true → n ≤ u.rank)
  unfolding is_better
  AtLeast-kept n u none true h = (omega arith, λ _. h)
  AtLeast-kept n u none false h = (omega arith, λ s. absurd cc)
  AtLeast-kept n u (some e) same h = either_rank n u e same (ltb u.rank e.rank) refl h

  lookup-added :
      (key j : Text) (u : CoinPaprikaTicker F) (b : Bool) (best : Dict (CoinPaprikaTicker F))
      → lookup key (if b then insert j u best else best)
        ≡ (if b then (if text_eq j key then some u else lookup key best) else lookup key best)
  lookup-added key j u true best = lookup-insert j key u best
  lookup-added key j u false best = refl

  either_way :
      (b : Bool) (o : Option (CoinPaprikaTicker F))
      → (if b then (if false then none else o) else o) ≡ o
  either_way true o = refl
  either_way false o = refl

  AtLeast-step :
      (n : ℕ) (key : Text) (u : CoinPaprikaTicker F) (best : Dict (CoinPaprikaTicker F))
      (same : Bool)
      → text_eq (services.to_lower_case u.symbol) key ≡ same
      → AtLeast n (
          lookup key (
            if is_better services u (lookup (services.to_lower_case u.symbol) best)
            then insert (services.to_lower_case u.symbol) u best
            else best))
      → AtLeast n (lookup key best) × (services.to_lower_case u.symbol ≡ key → n ≤ u.rank)
  AtLeast-step n key u best true e h =
      let j : Text = services.to_lower_case u.symbol in
      let j≡key : j ≡ key = (text_eq_iff j key).0 e in
      let b : Bool = is_better services u (lookup j best) in
      let h₁ : AtLeast n
          (if b then (if true then some u else lookup key best) else lookup key best) =
        subst (AtLeast n) (lookup-added key j u b best ∙ rw e refl) h in
      let h₂ : AtLeast n (
          if is_better services u (lookup key best)
          then (if true then some u else lookup key best)
          else lookup key best) =
        subst
          (λ (x : Text). AtLeast n (
            if is_better services u (lookup x best)
            then (if true then some u else lookup key best)
            else lookup key best))
          j≡key h₁ in
      let (old, new) = AtLeast-kept n u (lookup key best) true h₂ in (old, λ _. new refl)
  AtLeast-step n key u best false e h =
      let j : Text = services.to_lower_case u.symbol in
      let b : Bool = is_better services u (lookup j best) in
      let h₁ : AtLeast n (lookup key best) =
        subst (AtLeast n) (lookup-added key j u b best ∙ (rw e (either_way b (lookup key best))))
          h in
      (h₁, λ s. let equal : text_eq j key ≡ true = (text_eq_iff j key).1 s in absurd cc)

  lowest_from :
      (n : ℕ) (key : Text) (tickers : List (CoinPaprikaTicker F))
      (best : Dict (CoinPaprikaTicker F))
      → AtLeast n (lookup key (best_ticker_by_symbol services tickers best))
      → AtLeast n (lookup key best) × NoneLower n key tickers
  unfolding best_ticker_by_symbol
  lowest_from n key [] best h = (h, omega arith)
  lowest_from n key (u ∷ tickers) best h =
      let (kept, rest) = lowest_from n key tickers _ h in
      let (old, new) = AtLeast-step n key u best _ refl kept in (old, (new, rest))

  -- The ticker is one of the list and has this key.
  abbrev pub IsListed : Text → CoinPaprikaTicker F → List (CoinPaprikaTicker F) → Type 0
  IsListed key t [] = 1 ≤ 0
  IsListed key t (u ∷ tickers) =
      (services.to_lower_case u.symbol ≡ key × u ≡ t) ⊎ IsListed key t tickers

  added_or_old :
      (j key : Text) (u t : CoinPaprikaTicker F) (o : Option (CoinPaprikaTicker F)) (b same : Bool)
      → text_eq j key ≡ same
      → (if b then (if same then some u else o) else o) ≡ some t
      → (j ≡ key × u ≡ t) ⊎ (o ≡ some t)
  added_or_old j key u t o true true e h =
      let u≡t : u ≡ t = cc in inl ((text_eq_iff j key).0 e, u≡t)
  added_or_old j key u t o true false e h = inr h
  added_or_old j key u t o false same e h = inr h

  IsListed-from :
      (key : Text) (t : CoinPaprikaTicker F) (tickers : List (CoinPaprikaTicker F))
      (best : Dict (CoinPaprikaTicker F))
      → lookup key (best_ticker_by_symbol services tickers best) ≡ some t
      → (lookup key best ≡ some t) ⊎ IsListed key t tickers
  unfolding best_ticker_by_symbol
  IsListed-from key t [] best h = inl h
  IsListed-from key t (u ∷ tickers) best h = elim (IsListed-from key t tickers _ h) [
    | inl e ↦
        elim (added_or_old (services.to_lower_case u.symbol) key u t (lookup key best) _ _ refl
          (sym (lookup-added key (services.to_lower_case u.symbol) u _ best) ∙ e)) [
            | inl new ↦ inr (inl new)
            | inr old ↦ inl old
          ]
    | inr later ↦ inr (inr later)
  ]

  not_in_empty : (key : Text) (t : CoinPaprikaTicker F) → lookup key [] ≡ some t → 1 ≤ 0
  unfolding lookup
  not_in_empty key t e = absurd cc

  -- Of the tickers that share a symbol the fallback takes one of the list, and none of the list with
  -- that symbol has a lower rank.
  pub best_ticker-lowest :
      (key : Text) (tickers : List (CoinPaprikaTicker F)) (t : CoinPaprikaTicker F)
      → lookup key (best_ticker_by_symbol services tickers []) ≡ some t
      → IsListed key t tickers × NoneLower t.rank key tickers
  best_ticker-lowest key tickers t e =
      let listed : IsListed key t tickers = elim (IsListed-from key t tickers [] e) [
        | inl none_yet ↦ let no : 1 ≤ 0 = not_in_empty key t none_yet in absurd (omega arith)
        | inr listed ↦ listed
      ] in
      (listed, (lowest_from t.rank key tickers [] (subst (AtLeast t.rank) (sym e) (omega arith))).1)
