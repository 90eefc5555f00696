-- ===== src/Portfolio/Prices.antt =====
-- The prices of requested symbols from one price lookup (pricesBySymbol of
-- src/portfolio/portfolio-prices.ts). `resolve` is the price source's own table of symbols.
use crypto_zalo_bot.Base.{
  ◌≡◌, refl, ◌∙◌, ap, ap₂, Bool, true, false, ◌||◌, Option, none, some, List, [], ◌∷◌, map,
  if◌then◌else◌, Text, text_eq, text_eq_iff, Dict, lookup, insert, insert_all, lookup-insert,
  member,
}
use crypto_zalo_bot.Portfolio.{HoldingPrice}

-- A coin as both price sources give it.
pub record CoinMarketData (F : Type 0) : Type 0 where
  pub id : Text
  pub symbol : Text
  pub name : Text
  pub price_usd : F
  pub change_percent24h : Option F
  pub market_cap_usd : Option F

-- `a ?? b`, for a `b` that may be absent too.
abbrev pub first_of : {A : Type 0} → Option A → Option A → Option A
first_of none b = b
first_of (some a) b = some a

module _ {F : Type 0} (resolve : Text → Text) (coins : List (CoinMarketData F)) where
  by_symbol : Dict (CoinMarketData F)
  by_symbol = insert_all (map (λ (c : CoinMarketData F). (c.symbol, c)) coins) []

  by_id : Dict (CoinMarketData F)
  by_id = insert_all (map (λ (c : CoinMarketData F). (c.id, c)) coins) []

  coin_price : Option (CoinMarketData F) → Option (HoldingPrice F)
  coin_price none = none
  coin_price (some c) =
      some (record { price_usd = c.price_usd; change_percent24h = c.change_percent24h })

  -- The coin under the symbol itself, or else under the id that the symbol resolves to.
  pub price_for : Text → Option (HoldingPrice F)
  price_for symbol = coin_price (first_of (lookup symbol by_symbol) (lookup (resolve symbol) by_id))

  abbrev set_price : Text → Option (HoldingPrice F) → Dict (HoldingPrice F) → Dict (HoldingPrice F)
  set_price symbol none prices = prices
  set_price symbol (some price) prices = insert symbol price prices

  set_prices : List Text → Dict (HoldingPrice F) → Dict (HoldingPrice F)
  set_prices [] prices = prices
  set_prices (s ∷ symbols) prices = set_prices symbols (set_price s (price_for s) prices)

  pub prices_by_symbol : List Text → Dict (HoldingPrice F)
  prices_by_symbol symbols = set_prices symbols []

  abbrev requested : Bool → Option (HoldingPrice F) → Option (HoldingPrice F)
  requested true o = o
  requested false o = none

  lookup-set_price :
      (k s : Text) (o : Option (HoldingPrice F)) (prices : Dict (HoldingPrice F)) (b : Bool)
      → text_eq s k ≡ b
      → lookup k (set_price s o prices) ≡ first_of (requested b o) (lookup k prices)
  lookup-set_price k s none prices true e = refl
  lookup-set_price k s none prices false e = refl
  lookup-set_price k s (some p) prices true e = lookup-insert s k p prices ∙ rw e refl
  lookup-set_price k s (some p) prices false e = lookup-insert s k p prices ∙ rw e refl

  requested-twice :
      (m b : Bool) (o x : Option (HoldingPrice F))
      → first_of (requested m o) (first_of (requested b o) x) ≡ first_of (requested (b || m) o) x
  requested-twice true true none x = refl
  requested-twice true true (some p) x = refl
  requested-twice true false o x = refl
  requested-twice false true o x = refl
  requested-twice false false o x = refl

  own_price :
      (k s : Text) (b : Bool)
      → text_eq s k ≡ b
      → requested b (price_for s) ≡ requested b (price_for k)
  own_price k s true e = ap price_for ((text_eq_iff s k).0 e)
  own_price k s false e = refl

  lookup-set_prices :
      (k : Text) (symbols : List Text) (prices : Dict (HoldingPrice F))
      → lookup k (set_prices symbols prices)
        ≡ first_of (requested (member k symbols) (price_for k)) (lookup k prices)
  unfolding set_prices member
  lookup-set_prices k [] prices = refl
  lookup-set_prices k (s ∷ symbols) prices =
      lookup-set_prices k symbols (set_price s (price_for s) prices)
      ∙ ap (λ o. first_of (requested (member k symbols) (price_for k)) o)
          (lookup-set_price k s (price_for s) prices (text_eq s k) refl
            ∙ ap (λ o. first_of o (lookup k prices)) (own_price k s (text_eq s k) refl))
      ∙ requested-twice (member k symbols) (text_eq s k) (price_for k) (lookup k prices)

  -- The last entry of the list that passes the test.
  abbrev pub find_last :
      (CoinMarketData F → Bool) → List (CoinMarketData F) → Option (CoinMarketData F)
  find_last p [] = none
  find_last p (c ∷ cs) = first_of (find_last p cs) (if p c then some c else none)

  abbrev pub quoted : Option (CoinMarketData F) → Option (HoldingPrice F)
  quoted none = none
  quoted (some c) =
      some (record { price_usd = c.price_usd; change_percent24h = c.change_percent24h })

  first_of-entry :
      (o rest : Option (CoinMarketData F)) (b : Bool) (c : CoinMarketData F)
      → first_of o (if b then some c else rest)
        ≡ first_of (first_of o (if b then some c else none)) rest
  first_of-entry none rest true c = refl
  first_of-entry none rest false c = refl
  first_of-entry (some a) rest b c = refl

  lookup-insert_all :
      (key : CoinMarketData F → Text) (k : Text) (cs : List (CoinMarketData F))
      (d : Dict (CoinMarketData F))
      → lookup k (insert_all (map (λ (c : CoinMarketData F). (key c, c)) cs) d)
        ≡ first_of (find_last (λ c. text_eq (key c) k) cs) (lookup k d)
  unfolding insert_all
  lookup-insert_all key k [] d = refl
  lookup-insert_all key k (c ∷ cs) d =
      lookup-insert_all key k cs (insert (key c) c d)
      ∙ ap (first_of (find_last (λ c. text_eq (key c) k) cs)) (lookup-insert (key c) k c d)
      ∙ first_of-entry (find_last (λ c. text_eq (key c) k) cs) (lookup k d) (text_eq (key c) k) c

  first_of-none : (o : Option (CoinMarketData F)) → first_of o none ≡ o
  first_of-none none = refl
  first_of-none (some c) = refl

  coin_price-quoted : (o : Option (CoinMarketData F)) → coin_price o ≡ quoted o
  unfolding coin_price
  coin_price-quoted none = refl
  coin_price-quoted (some c) = refl

  -- The coin of a symbol: the last one with that symbol, or else the last one with the id that it
  -- resolves to.
  abbrev pub coin_of : Text → Option (CoinMarketData F)
  coin_of k =
      first_of (find_last (λ c. text_eq c.symbol k) coins)
        (find_last (λ c. text_eq c.id (resolve k)) coins)

  price_for-coin_of : (k : Text) → price_for k ≡ quoted (coin_of k)
  unfolding price_for by_symbol by_id lookup
  price_for-coin_of k =
      ap₂ (λ a b. coin_price (first_of a b))
        (lookup-insert_all (λ c. c.symbol) k coins [] ∙ first_of-none _)
        (lookup-insert_all (λ c. c.id) (resolve k) coins [] ∙ first_of-none _)
      ∙ coin_price-quoted (coin_of k)

  -- A requested symbol is given the price and the change of the last coin of the list with that symbol,
  -- or where there is none, of the last coin with the id that the symbol resolves to. A symbol that
  -- was not requested, or that has no such coin, is absent.
  pub lookup-prices_by_symbol :
      (k : Text) (symbols : List Text)
      → lookup k (prices_by_symbol symbols)
        ≡ (if member k symbols then quoted (coin_of k) else none)
  unfolding prices_by_symbol lookup
  lookup-prices_by_symbol k symbols =
      lookup-set_prices k symbols []
      ∙ without_rest (member k symbols) (price_for k)
      ∙ ap (λ o. if member k symbols then o else none) (price_for-coin_of k)
    where
      without_rest :
          (b : Bool) (o : Option (HoldingPrice F))
          → first_of (requested b o) none ≡ (if b then o else none)
      without_rest true none = refl
      without_rest true (some p) = refl
      without_rest false o = refl
