-- ===== src/Commands/Tests.antt =====
-- Runs of the parser on concrete messages.
use crypto_zalo_bot.Base.{◌≡◌, refl, Text, codes, text_eq, member, value}
use crypto_zalo_bot.Base.Number.{scaled}
use crypto_zalo_bot.Commands.{CommandType}
use crypto_zalo_bot.Commands.Words.{
  Unicode, is_space, trim_start, trim_end, add_word, first_word, plain_word, strip_diacritics,
  bare_letter,
}
use crypto_zalo_bot.Commands.Numbers.{
  is_positive_number, is_whole, is_first_group, are_groups, without_commas, in_range, decimals_in,
  number_of, parse_positive_number,
}
use crypto_zalo_bot.Commands.Syntax.{is_valid_symbol, is_symbol_char}
use crypto_zalo_bot.Commands.Parser.{
  parse, parse_trimmed, parse_words, parse_portfolio, portfolio_trade, portfolio_traded,
  quantity_of,
}
use crypto_zalo_bot.Commands.Parser.Arguments.{IsFormed}
use crypto_zalo_bot.Commands.Parser.Forms.{parse-IsFormed}
use crypto_zalo_bot.Portfolio.Quantity.{split_dot}

-- Letters without case and marks are left as they are.
abbrev ascii : Unicode
ascii = record { to_lower_case = λ s. s; normalize_nfd = λ s. s }

abbrev trade_message : Text
trade_message = codes "  /danhmuc mua btc 0.5 64000 "

test_trade : (parse scaled ascii trade_message).type ≡ CommandType.portfolio_trade
unfolding parse parse_trimmed parse_words parse_portfolio portfolio_trade portfolio_traded
    quantity_of is_space trim_start trim_end add_word first_word plain_word strip_diacritics
    bare_letter is_positive_number is_whole is_first_group are_groups without_commas in_range
    decimals_in number_of parse_positive_number is_valid_symbol is_symbol_char split_dot text_eq
    member value
test_trade = refl

parse-IsFormed_example : IsFormed scaled (parse scaled ascii trade_message)
parse-IsFormed_example = parse-IsFormed scaled ascii trade_message
