-- ===== src/Context/Words.antt =====
-- White space, lines and cuts of text, as the source uses them from Rust's `str`
-- (crates/fx-core/src/context.rs, lines 272 to 284; crates/fx-core/src/agent.rs, lines 768 to 774).
use fx_rs.Base.{
  ℕ, zero, suc, ◌+◌, ◌-◌, ◌/◌, ◌%◌, Bool, false, not, ◌&&◌, ◌||◌, List, [], ◌∷◌, ◌++◌, Text, text,
  leb, ltb, ◌==◌, if◌then◌else◌, len, len_utf8,
}

-- `char::is_whitespace`.
unfoldable pub is_whitespace : ℕ → Bool
is_whitespace c =
    (leb 0x09 c && leb c 0x0d)
    || c == 0x20
    || c == 0x85
    || c == 0xa0
    || c == 0x1680
    || (leb 0x2000 c && leb c 0x200a)
    || c == 0x2028
    || c == 0x2029
    || c == 0x202f
    || c == 0x205f
    || c == 0x3000

-- The text begins with a word.
unfoldable pub begins_word : Text → Bool
unfolding is_whitespace
begins_word [] = false
begins_word (c ∷ s) = not (is_whitespace c)

-- A character before the words of what follows it.
abbrev extend : ℕ → List Text → List Text
extend c [] = (c ∷ []) ∷ []
extend c (word ∷ words) = (c ∷ word) ∷ words

-- `split_whitespace`.
unfoldable pub split_whitespace : Text → List Text
unfolding begins_word is_whitespace
split_whitespace [] = []
split_whitespace (c ∷ s) =
    let words = split_whitespace s in
    if is_whitespace c then words else if begins_word s then extend c words else (c ∷ []) ∷ words

-- `join(" ")`.
unfoldable pub join_words : List Text → Text
join_words [] = []
join_words (word ∷ []) = word
join_words (word ∷ next ∷ words) = word ++ (b' ' ∷ join_words (next ∷ words))

-- The bytes up to `end`, cut back to a character boundary: the longest beginning of the text that
-- has at most `end` bytes.
unfoldable pub utf8_prefix : ℕ → Text → Text
utf8_prefix end [] = []
utf8_prefix end (c ∷ s) = if leb (len_utf8 c) end then c ∷ utf8_prefix (end - len_utf8 c) s else []

-- `usize` in decimal.
unfoldable pub decimal_from : ℕ → ℕ → Text
decimal_from zero n = []
decimal_from (suc fuel) n =
    let high = decimal_from fuel (n / 10) in
    if ltb n 10 then (48 + n) ∷ [] else high ++ (48 + n % 10) ∷ []

unfoldable pub decimal : ℕ → Text
unfolding decimal_from
decimal n = decimal_from (suc n) n

abbrev pub summary_line_max_bytes : ℕ
summary_line_max_bytes = 160

unfoldable pub compact_line : Text → Text
compact_line s =
    let normalized = join_words (split_whitespace s) in
    if leb (len normalized) summary_line_max_bytes
    then normalized
    else utf8_prefix (summary_line_max_bytes - 3) normalized ++ text "..."
