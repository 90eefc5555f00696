-- ===== src/Prices.antt =====
-- The current prices of requested symbols, from one source with a second one behind it
-- (src/coingecko/coingecko.service.ts, src/coinpaprika/coinpaprika.service.ts). The answers of the two
-- services, from the cache or over the network, are parameters; a cached answer is used as it is, and
-- a failing cache is an empty one.
use crypto_zalo_bot.Base.{
  ℕ, Bool, true, not, Option, none, some, List, [], ◌∷◌, ◌++◌, map, ltb, if◌then◌else◌, keep, Text,
  codes, Dict, lookup, insert, member, dedupe,
}
use crypto_zalo_bot.Commands.Words.{trim}
use crypto_zalo_bot.Portfolio.Prices.{CoinMarketData, first_of}
mod Laws
mod Tests

abbrev symbol_to_coingecko_id : Dict Text
symbol_to_coingecko_id =
    (codes "btc", codes "bitcoin")
    ∷ (codes "eth", codes "ethereum")
    ∷ (codes "sol", codes "solana")
    ∷ (codes "bnb", codes "binancecoin")
    ∷ (codes "xrp", codes "ripple")
    ∷ (codes "ada", codes "cardano")
    ∷ (codes "doge", codes "dogecoin")
    ∷ (codes "dot", codes "polkadot")
    ∷ (codes "matic", codes "matic-network")
    ∷ (codes "pol", codes "matic-network")
    ∷ (codes "avax", codes "avalanche-2")
    ∷ (codes "ltc", codes "litecoin")
    ∷ (codes "trx", codes "tron")
    ∷ (codes "link", codes "chainlink")
    ∷ (codes "usdt", codes "tether")
    ∷ (codes "usdc", codes "usd-coin")
    ∷ (codes "shib", codes "shiba-inu")
    ∷ (codes "atom", codes "cosmos")
    ∷ (codes "near", codes "near")
    ∷ (codes "apt", codes "aptos")
    ∷ (codes "arb", codes "arbitrum")
    ∷ (codes "op", codes "optimism")
    ∷ (codes "sui", codes "sui")
    ∷ (codes "ton", codes "the-open-network")
    ∷ (codes "bch", codes "bitcoin-cash")
    ∷ (codes "etc", codes "ethereum-classic")
    ∷ (codes "xlm", codes "stellar")
    ∷ (codes "fil", codes "filecoin")
    ∷ (codes "icp", codes "internet-computer")
    ∷ (codes "uni", codes "uniswap")
    ∷ (codes "pepe", codes "pepe")
    ∷ (codes "wld", codes "worldcoin-wld")
    ∷ (codes "ygg", codes "yield-guild-games")
    ∷ (codes "2z", codes "doublezero")
    ∷ []

pub record SimplePriceEntry (F : Type 0) : Type 0 where
  pub usd : F
  pub usd_24h_change : Option F
  pub usd_market_cap : Option F

pub record UsdQuote (F : Type 0) : Type 0 where
  pub price : F
  pub market_cap : F
  pub percent_change_24h : Option F

pub record CoinPaprikaTicker (F : Type 0) : Type 0 where
  pub id : Text
  pub name : Text
  pub symbol : Text
  pub rank : ℕ
  pub usd : UsdQuote F

-- What is returned, and the two errors that are thrown.
pub data PricesAnswer (F : Type 0) : Type 0 where
  prices_of : List (CoinMarketData F) → PricesAnswer F
  coingecko_unavailable : PricesAnswer F
  unknown_coin_symbols : List Text → PricesAnswer F

-- `a ?? b`
unfoldable pub text_or : Option Text → Text → Text
text_or none b = b
text_or (some a) b = a

-- The language's case tables, and what the two services answer: an entry is in the order of the
-- answer, and `none` is a call that fails or, for `cached_prices`, a cache without the ids.
pub record PriceServices (F : Type 0) : Type 0 where
  pub to_lower_case : Text → Text
  pub to_upper_case : Text → Text
  pub cached_prices : List Text → Option (Dict (SimplePriceEntry F))
  pub fetch_simple_price : List Text → Option (Dict (SimplePriceEntry F))
  pub all_tickers : Option (List (CoinPaprikaTicker F))

module _ {F : Type 0} (services : PriceServices F) where
  unfoldable pub normalized : Text → Text
  normalized symbol = services.to_lower_case (trim symbol)

  unfoldable pub resolve_symbol_to_id : Text → Text
  resolve_symbol_to_id symbol =
      text_or (lookup (normalized symbol) symbol_to_coingecko_id) (normalized symbol)

  -- `!existing || ticker.rank < existing.rank`
  unfoldable pub is_better : CoinPaprikaTicker F → Option (CoinPaprikaTicker F) → Bool
  is_better ticker none = true
  is_better ticker (some existing) = ltb ticker.rank existing.rank

  unfoldable pub best_ticker_by_symbol :
      List (CoinPaprikaTicker F) → Dict (CoinPaprikaTicker F) → Dict (CoinPaprikaTicker F)
  best_ticker_by_symbol [] best = best
  best_ticker_by_symbol (ticker ∷ tickers) best =
      let key = services.to_lower_case ticker.symbol in
      best_ticker_by_symbol tickers
        (if is_better ticker (lookup key best) then insert key ticker best else best)

  unfoldable pub add_ticker :
      Text → Option (CoinPaprikaTicker F) → List (CoinMarketData F) → List (CoinMarketData F)
  add_ticker symbol none results = results
  add_ticker symbol (some ticker) results =
      record {
        id = ticker.id;
        symbol = symbol;
        name = ticker.name;
        price_usd = ticker.usd.price;
        change_percent24h = ticker.usd.percent_change_24h;
        market_cap_usd = some ticker.usd.market_cap;
      }
      ∷ results

  unfoldable pub ticker_prices : Dict (CoinPaprikaTicker F) → List Text → List (CoinMarketData F)
  ticker_prices best [] = []
  ticker_prices best (raw_symbol ∷ symbols) =
      add_ticker (normalized raw_symbol) (lookup (normalized raw_symbol) best)
        (ticker_prices best symbols)

  unfoldable pub fallback_of :
      Option (List (CoinPaprikaTicker F)) → List Text → List (CoinMarketData F)
  fallback_of none symbols = []
  fallback_of (some tickers) symbols = ticker_prices (best_ticker_by_symbol tickers []) symbols

  -- CoinPaprikaService.getPricesBySymbols: nothing is asked where no symbol is given.
  unfoldable pub coinpaprika_prices : List Text → List (CoinMarketData F)
  coinpaprika_prices [] = []
  coinpaprika_prices (s ∷ symbols) = fallback_of services.all_tickers (s ∷ symbols)

  unfoldable pub id_to_symbol : List Text → Dict Text → Dict Text
  id_to_symbol [] ids = ids
  id_to_symbol (s ∷ symbols) ids = id_to_symbol symbols (insert (resolve_symbol_to_id s) s ids)

  unfoldable pub simple_results : Dict Text → Dict (SimplePriceEntry F) → List (CoinMarketData F)
  simple_results ids [] = []
  simple_results ids ((id, entry) ∷ entries) =
      let symbol = text_or (lookup id ids) id in
      record {
        id = id;
        symbol = symbol;
        name = services.to_upper_case symbol;
        price_usd = entry.usd;
        change_percent24h = entry.usd_24h_change;
        market_cap_usd = entry.usd_market_cap;
      }
      ∷ simple_results ids entries

  abbrev pub unresolved_symbols : List Text → List (CoinMarketData F) → List Text
  unresolved_symbols unique results =
      keep (λ symbol. not (member symbol (map (λ (c : CoinMarketData F). c.symbol) results))) unique

  -- `if (results.length === 0) throw`
  unfoldable pub answered : List Text → List (CoinMarketData F) → PricesAnswer F
  answered unique [] = PricesAnswer.unknown_coin_symbols unique
  answered unique (c ∷ results) = PricesAnswer.prices_of (c ∷ results)

  unfoldable pub with_fallback : List Text → Option (Dict (SimplePriceEntry F)) → PricesAnswer F
  with_fallback unique none = PricesAnswer.coingecko_unavailable
  with_fallback unique (some found) =
      let results = simple_results (id_to_symbol unique []) found in
      answered unique (results ++ coinpaprika_prices (unresolved_symbols unique results))

  unfoldable pub unique_symbols : List Text → List Text
  unique_symbols symbols = dedupe (map normalized symbols)

  -- CoingeckoService.getPricesBySymbols
  pub get_prices_by_symbols : List Text → PricesAnswer F
  get_prices_by_symbols symbols =
      let unique = unique_symbols symbols in
      let ids = map (λ (e : Text × Text). e.0) (id_to_symbol unique []) in
      with_fallback unique (first_of (services.cached_prices ids) (services.fetch_simple_price ids))
