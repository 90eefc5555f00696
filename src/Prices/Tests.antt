-- ===== src/Prices/Tests.antt =====
-- Runs of the price lookup: a coin of the first source, a coin of the second one that shares its
-- symbol with a coin of higher rank, and a symbol that neither knows.
use crypto_zalo_bot.Base.{
  ℕ, ◌≡◌, refl, none, some, List, [], ◌∷◌, map, Text, codes, lookup, Dict, insert, dedupe,
  dedupe_from, member, text_eq,
}
use crypto_zalo_bot.Base.Int.{ℤ, pos}
use crypto_zalo_bot.Portfolio.Prices.{CoinMarketData}
use crypto_zalo_bot.Prices.{
  CoinPaprikaTicker, PriceServices, PricesAnswer, SimplePriceEntry, best_ticker_by_symbol,
  get_prices_by_symbols, with_fallback, answered, simple_results, coinpaprika_prices,
  unique_symbols, text_or, id_to_symbol, normalized, resolve_symbol_to_id, add_ticker, fallback_of,
  is_better, ticker_prices,
}
use crypto_zalo_bot.Commands.Words.{trim_end, trim_start, is_space}
use crypto_zalo_bot.Prices.Laws.{IsListed, NoneLower, best_ticker-lowest}

abbrev ticker : Text → ℕ → CoinPaprikaTicker ℤ
ticker id rank = record {
  id = id;
  name = id;
  symbol = codes "kda";
  rank = rank;
  usd = record { price = pos rank; market_cap = pos 9; percent_change_24h = none };
}

abbrev tickers : List (CoinPaprikaTicker ℤ)
tickers = ticker (codes "kda-copy") 900 ∷ ticker (codes "kda-kadena") 300 ∷ []

abbrev bitcoin_only : Dict (SimplePriceEntry ℤ)
bitcoin_only =
    (codes "bitcoin", record { usd = pos 7; usd_24h_change = none; usd_market_cap = none }) ∷ []

-- Letters are left as they are.
abbrev services : PriceServices ℤ
services = record {
  to_lower_case = λ s. s;
  to_upper_case = λ s. s;
  cached_prices = λ ids. none;
  fetch_simple_price = λ ids. some bitcoin_only;
  all_tickers = some tickers;
}

abbrev ids_of : PricesAnswer ℤ → List Text
ids_of (PricesAnswer.prices_of coins) = map (λ (c : CoinMarketData ℤ). c.id) coins
ids_of PricesAnswer.coingecko_unavailable = []
ids_of (PricesAnswer.unknown_coin_symbols names) = names

prices_of_two :
    ids_of (
      get_prices_by_symbols services (codes " btc" ∷ codes "kda" ∷ codes "none" ∷ codes "btc" ∷ []))
    ≡ codes "bitcoin" ∷ codes "kda-kadena" ∷ []
unfolding get_prices_by_symbols with_fallback answered simple_results coinpaprika_prices
    unique_symbols dedupe dedupe_from member text_eq text_or lookup id_to_symbol normalized trim_end
    trim_start is_space insert resolve_symbol_to_id add_ticker best_ticker_by_symbol fallback_of
    is_better ticker_prices
prices_of_two = refl

lowest_of_two :
    lookup (codes "kda") (best_ticker_by_symbol services tickers [])
    ≡ some (ticker (codes "kda-kadena") 300)
unfolding best_ticker_by_symbol lookup is_better insert text_eq
lowest_of_two = refl

best_ticker-lowest_example :
    IsListed services (codes "kda") (ticker (codes "kda-kadena") 300) tickers
    × NoneLower services 300 (codes "kda") tickers
best_ticker-lowest_example =
    best_ticker-lowest services (codes "kda") tickers (ticker (codes "kda-kadena") 300)
      lowest_of_two
