-- ===== src/Portfolio/Holdings/Replay.antt =====
-- When trades can be replayed, and what is then held.
use crypto_zalo_bot.Base.{
  ℕ, ◌+◌, ◌≤◌, ◌≡◌, refl, ap, ◌⊎◌, ◌∙◌, subst, inl, inr, Bool, true, false, Option, none, some,
  List, [], ◌∷◌, ltb, if◌then◌else◌, or_else, Text, text_eq, text_eq_iff, text_eq_refl, Dict,
  lookup, insert, lookup-insert, arith, Bool-cases, Option-cases, All,
}
use crypto_zalo_bot.Base.Number.{Number}
use crypto_zalo_bot.Portfolio.{TradeSide, buy, sell, PortfolioTrade}
use crypto_zalo_bot.Portfolio.Quantity.{to_quantity_units}
use crypto_zalo_bot.Portfolio.Balance.{IsCovered, total_bought, total_sold}
use crypto_zalo_bot.Portfolio.Holdings.{SymbolState, apply_trade, no_state, replay_trade, replay}

abbrev pub bought_by : TradeSide → Bool → ℕ → ℕ
bought_by buy true units = units
bought_by _ _ units = 0

abbrev pub sold_by : TradeSide → Bool → ℕ → ℕ
sold_by sell true units = units
sold_by _ _ units = 0

module _ {F : Type 0} where
  -- The units of a trade whose quantity can be read.
  abbrev pub units_of : PortfolioTrade F → ℕ
  units_of t = or_else (to_quantity_units t.quantity) 0

  abbrev pub IsReadable : PortfolioTrade F → Type 0
  IsReadable t = to_quantity_units t.quantity ≡ some (units_of t)

  -- What a trade buys and sells of the coin `s`.
  abbrev pub bought : Text → PortfolioTrade F → ℕ
  bought s t = bought_by t.side (text_eq t.symbol s) (units_of t)

  abbrev pub sold : Text → PortfolioTrade F → ℕ
  sold s t = sold_by t.side (text_eq t.symbol s) (units_of t)

  abbrev units_in : Option (SymbolState F) → ℕ
  units_in none = 0
  units_in (some state) = state.units

  -- The units held of the coin `s`.
  abbrev pub held : Text → Dict (SymbolState F) → ℕ
  held s d = units_in (lookup s d)

module _ (num : Number) where
  open num use {F}

  held-no_state :
      (s : Text) (d : Dict (SymbolState F)) → (or_else (lookup s d) (no_state num)).units ≡ held s d
  held-no_state s d = ground arith

  held-insert :
      (k s : Text) (st : SymbolState F) (d : Dict (SymbolState F))
      → held s (insert k st d) ≡ (if text_eq k s then st.units else held s d)
  held-insert k s st d = ap units_in (lookup-insert k s st d) ∙ ground arith

  -- What applying a trade to the state `st` does to the units, and when it can be applied.
  apply_trade-units :
      (side : TradeSide) (u : ℕ) (p : F) (st : SymbolState F)
      → sold_by side true u ≤ st.units
      → (st' : SymbolState F) × (apply_trade num side u p st ≡ some st')
        × (st'.units + sold_by side true u ≡ st.units + bought_by side true u)
  unfolding apply_trade
  apply_trade-units buy u p st h = (_, refl, omega arith)
  apply_trade-units sell u p st h = elim (Bool-cases (ltb st.units u)) [
    | inl more ↦ absurd (ground arith)
    | inr enough ↦ rw enough (_, refl, omega arith)
  ]

  idle-other :
      (side : TradeSide) (u : ℕ) → (bought_by side false u ≡ 0) × (sold_by side false u ≡ 0)
  idle-other buy u = (refl, refl)
  idle-other sell u = (refl, refl)

  moved-held :
      (t : PortfolioTrade F) (st' : SymbolState F) (d : Dict (SymbolState F)) (s : Text) (b : Bool)
      → st'.units + sold_by t.side true (units_of t)
        ≡ held t.symbol d + bought_by t.side true (units_of t)
      → text_eq t.symbol s ≡ b
      → (if b then st'.units else held s d) + sold_by t.side b (units_of t)
        ≡ held s d + bought_by t.side b (units_of t)
  moved-held t st' d s true eq e =
      let same : t.symbol ≡ s = (text_eq_iff t.symbol s).0 e in
      subst
        (λ k.
          st'.units + sold_by t.side true (units_of t)
          ≡ held k d + bought_by t.side true (units_of t))
        same eq
  moved-held t st' d s false eq e = let (b, v) = idle-other t.side (units_of t) in omega arith

  replay_trade-held :
      (d : Dict (SymbolState F)) (t : PortfolioTrade F)
      → IsReadable t
      → sold t.symbol t ≤ held t.symbol d
      → (d' : Dict (SymbolState F)) × (replay_trade num d t ≡ some d')
        × ((s : Text) → held s d' + sold s t ≡ held s d + bought s t)
  unfolding replay_trade
  replay_trade-held d t r h =
      let st = or_else (lookup t.symbol d) (no_state num) in
      let own : sold_by t.side true (units_of t) ≤ st.units =
        rw (held-no_state t.symbol d) (
          subst (λ b. sold_by t.side b (units_of t) ≤ held t.symbol d) (text_eq_refl t.symbol) h) in
      let (st', e, eq) = apply_trade-units t.side (units_of t) t.price_usd st own in
      let moved = rw (held-no_state t.symbol d) at eq in
      (
        insert t.symbol st' d,
        rw (r, e) refl,
        λ s.
            ap (λ n. n + sold s t) (held-insert t.symbol s st' d)
            ∙ moved-held t st' d s (text_eq t.symbol s) moved refl,
      )

  -- No trade both buys and sells.
  exclusive :
      (side : TradeSide) (b : Bool) (u : ℕ) → (bought_by side b u ≡ 0) ⊎ (sold_by side b u ≡ 0)
  exclusive buy b u = inr refl
  exclusive sell b u = inl refl

  sold-le-held :
      (t : PortfolioTrade F) (s : Text) (n b v : ℕ)
      → n + v ≡ b
      → v + sold s t ≤ b + bought s t
      → sold s t ≤ n
  sold-le-held t s n b v h c = elim (exclusive t.side (text_eq t.symbol s) (units_of t)) [
    | inl no_buy ↦ omega arith
    | inr no_sale ↦ omega arith
  ]

  -- Trades whose balances never fall below zero are replayed to the end, and each coin is then held
  -- in exactly the units bought less those sold.
  pub replay-held :
      (ts : List (PortfolioTrade F)) (d : Dict (SymbolState F)) (b v : Text → ℕ)
      → ((s : Text) → held s d + v s ≡ b s)
      → All IsReadable ts
      → ((s : Text) → IsCovered (bought s) (sold s) (b s) (v s) ts)
      → (d' : Dict (SymbolState F)) × (replay num d ts ≡ some d')
        × ((s : Text)
            → held s d' + (v s + total_sold (bought s) (sold s) ts)
              ≡ b s + total_bought (bought s) (sold s) ts)
  unfolding replay
  replay-held [] d b v h r c = (d, refl, λ s. omega (arith, h s))
  replay-held (t ∷ ts) d b v h r c =
      let (d1, e1, m1) =
        replay_trade-held d t r.0 (sold-le-held t t.symbol _ _ _ (h t.symbol) (c t.symbol).0) in
      let (d2, e2, m2) =
        replay-held ts d1 (λ s. b s + bought s t) (λ s. v s + sold s t)
          (λ s. omega (arith, h s, m1 s)) r.1 (λ s. (c s).1) in
      (d2, rw e1 e2, λ s. omega (arith, m2 s))

  apply_trade-sold :
      (side : TradeSide) (u : ℕ) (p : F) (st st' : SymbolState F)
      → apply_trade num side u p st ≡ some st'
      → sold_by side true u ≤ st.units
  unfolding apply_trade
  apply_trade-sold buy u p st st' e = omega arith
  apply_trade-sold sell u p st st' e = ground arith

  replay_trade-sold :
      (d d' : Dict (SymbolState F)) (t : PortfolioTrade F)
      → replay_trade num d t ≡ some d'
      → IsReadable t × (sold t.symbol t ≤ held t.symbol d)
  unfolding replay_trade
  replay_trade-sold d d' t e = elim (Option-cases (to_quantity_units t.quantity)) [
    | inl unread ↦ absurd (cc (rw unread at e))
    | inr (u, read) ↦
        elim (Option-cases
          (apply_trade num t.side u t.price_usd (or_else (lookup t.symbol d) (no_state num)))) [
            | inl refused ↦ absurd (cc (rw (read, refused) at e))
            | inr (st', done) ↦ (
              rw read refl,
              rw read (
                  rw (text_eq_refl t.symbol, ← held-no_state t.symbol d)
                    (apply_trade-sold t.side u t.price_usd _ st' done)),
            )
          ]
  ]

  -- The other way round: trades that are replayed to the end never sell more than is held.
  pub replay-IsCovered :
      (ts : List (PortfolioTrade F)) (d d' : Dict (SymbolState F)) (b v : Text → ℕ)
      → ((s : Text) → held s d + v s ≡ b s)
      → replay num d ts ≡ some d'
      → All IsReadable ts × ((s : Text) → IsCovered (bought s) (sold s) (b s) (v s) ts)
  unfolding replay
  replay-IsCovered [] d d' b v h e = (tt, λ s. tt)
  replay-IsCovered (t ∷ ts) d d' b v h e = elim (Option-cases (replay_trade num d t)) [
    | inl refused ↦ absurd (cc (rw refused at e))
    | inr (d1, e1) ↦
        let (read, enough) = replay_trade-sold d d1 t e1 in
        let (d1', e1', m1) = replay_trade-held d t read enough in
        let same : d1' ≡ d1 = cc (e1, e1') in
        let after =
          λ (s : Text). subst (λ x. held s x + sold s t ≡ held s d + bought s t) same (m1 s) in
        let rest =
          replay-IsCovered ts d1 d' (λ s. b s + bought s t) (λ s. v s + sold s t)
            (λ s. omega (arith, h s, after s)) (rw e1 at e) in
        ((read, rest.0), λ s. (omega (arith, h s, after s), rest.1 s))
  ]
