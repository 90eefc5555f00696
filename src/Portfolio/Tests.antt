-- ===== src/Portfolio/Tests.antt =====
-- Runs of the portfolio modules on concrete inputs: a chat that buys two BTC and sells one.
use crypto_zalo_bot.Base.{
  ℕ, ◌+◌, ◌≡◌, ◌⊎◌, refl, true, false, none, some, [], ◌∷◌, length, Text, Dict, lookup, All, arith,
  dedupe, member, if◌then◌else◌, text_eq,
}
use crypto_zalo_bot.Base.Int.{ℤ, pos}
use crypto_zalo_bot.Base.Number.{scaled}
use crypto_zalo_bot.Portfolio.{buy, sell, PortfolioTrade, Holding, HoldingsResult, HoldingPrice}
use crypto_zalo_bot.Portfolio.Quantity.{to_quantity_units, format_quantity_units, numeric_text}
use crypto_zalo_bot.Portfolio.Quantity.RoundTrip.{
  to_quantity_units-format, to_quantity_units-numeric_text,
}
use crypto_zalo_bot.Portfolio.Balance.{IsCovered, total_bought, total_sold}
use crypto_zalo_bot.Portfolio.Holdings.{SymbolState, replay, compute_holdings, result_of}
use crypto_zalo_bot.Portfolio.Holdings.Replay.{
  held, bought, sold, IsReadable, replay-held, replay-IsCovered,
}
use crypto_zalo_bot.Portfolio.Prices.{
  CoinMarketData, quoted, coin_of, prices_by_symbol, lookup-prices_by_symbol,
}
use crypto_zalo_bot.Portfolio.Ledger.{
  Row, Tables, Result, RecordedTrade, of_chat, select_trades, row_bought, row_sold,
}
use crypto_zalo_bot.Portfolio.Ledger.Writes.{
  is_side_allowed, new_row, with_row, trade_by_seq, record_trade, delete_trade, clear_trades,
}
use crypto_zalo_bot.Portfolio.Ledger.Laws.{IsSound}
use crypto_zalo_bot.Portfolio.Ledger.Soundness.{record_trade-IsSound}
use crypto_zalo_bot.Portfolio.Ledger.Deletion.{delete_trade-IsSound, clear_trades-isolated}
use crypto_zalo_bot.Portfolio.Ledger.Replays.{compute_holdings_sound}
use crypto_zalo_bot.Portfolio.Ledger.Answers.{
  IsNotNew, IsWrite, record_trade-atomic, record_trade-idempotent,
}

abbrev btc : Text
btc = b'B' ∷ b'T' ∷ b'C' ∷ []

abbrev chat : Text
chat = b'7' ∷ []

abbrev message : Text
message = b'm' ∷ []

abbrev no_tables : Tables ℤ
no_tables = record { trades = []; usage = [] }

no_tables-IsSound : IsSound no_tables.trades
no_tables-IsSound c = (tt, λ s. tt, omega arith)

abbrev one_trade : Tables ℤ
one_trade =
    (record_trade scaled chat buy btc 200_000_000 (pos 5) (some message) 1_000 1 no_tables).1

one_trade-IsSound : IsSound one_trade.trades
one_trade-IsSound =
    record_trade-IsSound scaled chat buy btc 200_000_000 (pos 5) (some message) 1_000 1 no_tables
      no_tables-IsSound

record_trade-IsSound_example :
    IsSound (record_trade scaled chat sell btc 100_000_000 (pos 6) none 2_000 1 one_trade).1.trades
record_trade-IsSound_example =
    record_trade-IsSound scaled chat sell btc 100_000_000 (pos 6) none 2_000 1 one_trade
      one_trade-IsSound

delete_trade-IsSound_example : IsSound (delete_trade chat 1 one_trade).1.trades
delete_trade-IsSound_example = delete_trade-IsSound chat 1 one_trade one_trade-IsSound

abbrev other_chat : Text
other_chat = b'8' ∷ []

clear_trades-isolated_example :
    ((clear_trades chat one_trade).0 ≡ length (of_chat chat one_trade.trades))
    × (of_chat chat (clear_trades chat one_trade).1.trades ≡ [])
    × (of_chat other_chat (clear_trades chat one_trade).1.trades
        ≡ of_chat other_chat one_trade.trades)
    × IsSound (clear_trades chat one_trade).1.trades
unfolding text_eq
clear_trades-isolated_example =
    clear_trades-isolated chat other_chat one_trade refl one_trade-IsSound

compute_holdings_sound_example :
    (d : Dict (SymbolState ℤ)) × (replay scaled [] (select_trades chat one_trade.trades) ≡ some d)
    × (compute_holdings scaled (select_trades chat one_trade.trades) ≡ some (result_of scaled d))
    × ((s : Text)
        → held s d + total_sold (row_bought s) (row_sold s) (of_chat chat one_trade.trades)
          ≡ total_bought (row_bought s) (row_sold s) (of_chat chat one_trade.trades))
compute_holdings_sound_example =
    compute_holdings_sound scaled chat one_trade.trades one_trade-IsSound

abbrev first_row : Row ℤ
first_row = new_row chat buy btc 200_000_000 (pos 5) (some message) 1_000 []

abbrev after_first : Tables ℤ
after_first = with_row first_row 1 no_tables

abbrev first_answer : RecordedTrade ℤ
first_answer = record {
  trade = trade_by_seq 1 (select_trades chat after_first.trades);
  trades = select_trades chat after_first.trades;
  duplicate = false;
}

first-accepted :
    (record_trade scaled chat buy btc 200_000_000 (pos 5) (some message) 1_000 1 no_tables).0
    ≡ Result.ok first_answer
unfolding record_trade is_side_allowed dedupe
first-accepted = refl

record_trade-idempotent_example :
    record_trade scaled chat buy btc 200_000_000 (pos 5) (some message) 9_000 2 one_trade
    ≡ (Result.ok (record first_answer { duplicate = true }), one_trade)
record_trade-idempotent_example =
    record_trade-idempotent scaled chat buy btc 200_000_000 (pos 5) (some message) message 1_000 1
      9_000 2 no_tables first_answer refl first-accepted

record_trade-atomic_example :
    let answer = (record_trade scaled chat sell btc 100_000_000 (pos 6) none 2_000 1 one_trade).0 in
    let after = (record_trade scaled chat sell btc 100_000_000 (pos 6) none 2_000 1 one_trade).1 in
    ((after ≡ one_trade) × IsNotNew answer)
    ⊎ IsWrite scaled chat sell btc 100_000_000 (pos 6) none 2_000 1 one_trade after answer
record_trade-atomic_example =
    record_trade-atomic scaled chat sell btc 100_000_000 (pos 6) none 2_000 1 one_trade

to_quantity_units-format_example :
    to_quantity_units (format_quantity_units 150_000_000) ≡ some 150_000_000
to_quantity_units-format_example = to_quantity_units-format 150_000_000

abbrev bought_btc : PortfolioTrade ℤ
bought_btc = record {
  seq = 1;
  side = buy;
  symbol = btc;
  quantity = numeric_text 200_000_000;
  price_usd = pos 5;
  created_at = 1_000;
}

abbrev zero_of : Text → ℕ
zero_of s = 0

held-none : (s : Text) → held {F = ℤ} s [] + 0 ≡ 0
unfolding lookup
held-none s = omega arith

bought_btc-IsReadable : All IsReadable (bought_btc ∷ [])
bought_btc-IsReadable = (rw (to_quantity_units-numeric_text 200_000_000) refl, tt)

bought_btc-IsCovered : (s : Text) → IsCovered (bought s) (sold s) 0 0 (bought_btc ∷ [])
bought_btc-IsCovered s = (omega arith, tt)

replay-held_example :
    (d' : Dict (SymbolState ℤ)) × (replay scaled [] (bought_btc ∷ []) ≡ some d')
    × ((s : Text)
        → held s d' + (0 + total_sold (bought s) (sold s) (bought_btc ∷ []))
          ≡ 0 + total_bought (bought s) (sold s) (bought_btc ∷ []))
replay-held_example =
    replay-held scaled (bought_btc ∷ []) [] zero_of zero_of held-none bought_btc-IsReadable
      bought_btc-IsCovered

bought_btc-replay : (d : Dict (SymbolState ℤ)) × (replay scaled [] (bought_btc ∷ []) ≡ some d)
bought_btc-replay =
    let (d, e, m) =
      replay-held scaled (bought_btc ∷ []) [] zero_of zero_of held-none bought_btc-IsReadable
        bought_btc-IsCovered in
    (d, e)

replay-IsCovered_example :
    All IsReadable (bought_btc ∷ [])
    × ((s : Text) → IsCovered (bought s) (sold s) 0 0 (bought_btc ∷ []))
replay-IsCovered_example =
    replay-IsCovered scaled (bought_btc ∷ []) [] bought_btc-replay.0 zero_of zero_of held-none
      bought_btc-replay.1

abbrev btc_holding : Holding ℤ
btc_holding = record {
  symbol = btc;
  quantity = b'2' ∷ [];
  quantity_units = 200_000_000;
  avg_cost_usd = pos 5;
  cost_basis_usd = pos 10;
}

abbrev holdings : HoldingsResult ℤ
holdings = record { holdings = btc_holding ∷ []; realized_pnl_usd = pos 0; realized_by_symbol = [] }

abbrev no_prices : Dict (HoldingPrice ℤ)
no_prices = []

abbrev same_symbol : Text → Text
same_symbol t = t

abbrev btc_coin : CoinMarketData ℤ
btc_coin = record {
  id = btc;
  symbol = btc;
  name = btc;
  price_usd = pos 7;
  change_percent24h = none;
  market_cap_usd = none;
}

lookup-prices_by_symbol_example :
    lookup btc (prices_by_symbol same_symbol (btc_coin ∷ []) (btc ∷ [])) ≡ (
      if member btc (btc ∷ [])
      then quoted same_symbol (btc_coin ∷ []) (coin_of same_symbol (btc_coin ∷ []) btc)
      else none)
lookup-prices_by_symbol_example = lookup-prices_by_symbol same_symbol (btc_coin ∷ []) btc (btc ∷ [])
