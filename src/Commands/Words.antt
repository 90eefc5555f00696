-- ===== src/Commands/Words.antt =====
-- The words of a message: white space, commas, case and diacritics
-- (src/command-parser/command-parser.service.ts). A text is its UTF-16 code units; lower case and the
-- canonical decomposition are the language's own tables, taken as parameters.
use crypto_zalo_bot.Base.{
  ℕ, Bool, not, ◌&&◌, ◌||◌, List, [], ◌∷◌, ◌++◌, map, leb, ◌==◌, if◌then◌else◌, length, keep, Text,
  dedupe, IsDistinct, dedupe-IsDistinct,
}

-- `toLowerCase()` and `normalize('NFD')`.
pub record Unicode : Type 0 where
  pub to_lower_case : Text → Text
  pub normalize_nfd : Text → Text

abbrev between : ℕ → ℕ → ℕ → Bool
between low high c = leb low c && leb c high

-- `\s`, and what `trim` removes.
unfoldable pub is_space : ℕ → Bool
is_space c =
    between 9 13 c
    || (c == 32
        || (c == 160
            || (c == 5760
                || (between 8192 8202 c
                    || (between 8232 8233 c
                        || (c == 8239 || (c == 8287 || (c == 12288 || c == 65279))))))))

abbrev pub is_empty : Text → Bool
is_empty s = length s == 0

unfoldable pub trim_start : Text → Text
trim_start [] = []
trim_start (c ∷ s) = let rest = trim_start s in if is_space c then rest else c ∷ s

unfoldable pub trim_end : Text → Text
trim_end [] = []
trim_end (c ∷ s) = let rest = trim_end s in if is_space c && is_empty rest then [] else c ∷ rest

abbrev pub trim : Text → Text
trim s = trim_end (trim_start s)

-- A word in front, if it is not empty (`filter(Boolean)`).
unfoldable pub add_word : Text → List Text → List Text
add_word [] words = words
add_word (c ∷ s) words = (c ∷ s) ∷ words

-- The text up to the first white space, and the words after that.
unfoldable pub first_word : Text → Text × List Text
first_word [] = ([], [])
first_word (c ∷ s) =
    let (word, words) = first_word s in
    if is_space c then ([], add_word word words) else (c ∷ word, words)

-- `split(/\s+/).map(trim).filter(Boolean)`
abbrev pub words : Text → List Text
words s = add_word (first_word s).0 (first_word s).1

-- `split(',')`: the text up to the first comma, and the pieces after it.
unfoldable pub first_piece : Text → Text × List Text
first_piece [] = ([], [])
first_piece (c ∷ s) =
    let (piece, pieces) = first_piece s in
    if c == b',' then ([], piece ∷ pieces) else (c ∷ piece, pieces)

-- `join(' ')`
unfoldable pub join_words : List Text → Text
join_words [] = []
join_words (w ∷ []) = w
join_words (w ∷ v ∷ ws) = w ++ 32 ∷ join_words (v ∷ ws)

-- The combining marks go, and the letter d loses its stroke.
unfoldable pub bare_letter : ℕ → ℕ
bare_letter c = if c == 273 then b'd' else if c == 272 then b'D' else c

-- `map(trim).filter(Boolean)`
non_empty_words : List Text → List Text
non_empty_words [] = []
non_empty_words (w ∷ ws) = add_word (trim w) (non_empty_words ws)

-- `flatMap((token) => token.split(','))`
split_all : List Text → List Text
split_all [] = []
split_all (w ∷ ws) = let (piece, pieces) = first_piece w in piece ∷ (pieces ++ split_all ws)

module _ (unicode : Unicode) where
  unfoldable pub strip_diacritics : Text → Text
  strip_diacritics value =
      map bare_letter (keep (λ c. not (between 768 879 c)) (unicode.normalize_nfd value))

  unfoldable pub plain_word : Text → Text
  plain_word w = strip_diacritics (unicode.to_lower_case w)

  pub parse_symbols : List Text → List Text
  parse_symbols raw_symbols = dedupe (map plain_word (non_empty_words (split_all raw_symbols)))

  pub parse_symbols-IsDistinct : (raw_symbols : List Text) → IsDistinct (parse_symbols raw_symbols)
  unfolding parse_symbols
  parse_symbols-IsDistinct raw_symbols = dedupe-IsDistinct _
