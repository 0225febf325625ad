-- ===== src/Redaction/Assignment.antt =====
-- Assignments of secrets to names (crates/fx-core/src/redaction.rs, lines 74 to 148 and 193 to 207).
use fx_rs.Base.{
  ℕ, suc, ◌+◌, ◌-◌, Bool, false, not, ◌&&◌, ◌||◌, Option, none, some, List, [], ◌∷◌, map, ltb, ◌==◌,
  if◌then◌else◌, get_elem?, take, drop, any, text,
}
use fx_rs.Redaction.Bytes.{
  Bytes, is_ascii_uppercase, is_ascii_whitespace, is_key, contains, is_at, is_before, scan,
}
use fx_rs.Redaction.Token.{Span}

abbrev pub is_quote : ℕ → Bool
is_quote byte = byte == b'\'' || byte == b'"'

abbrev pub is_line_break : ℕ → Bool
is_line_break byte = byte == 0x0a || byte == 0x0d

abbrev to_ascii_lowercase : ℕ → ℕ
to_ascii_lowercase byte = if is_ascii_uppercase byte then byte + 32 else byte

abbrev needles : List Bytes
needles =
    text "password"
    ∷ text "passwd"
    ∷ text "api_key"
    ∷ text "apikey"
    ∷ text "secret"
    ∷ text "token"
    ∷ text "private_key"
    ∷ text "access_key"
    ∷ []

-- A key has ASCII letters, digits and _ only, so its lossy decoding is itself.
unfoldable pub sensitive_key : Bytes → Bool
sensitive_key key = any (contains (map to_ascii_lowercase key)) needles

-- The loop over a quoted value: where it ends.
unfoldable pub quoted_end : ℕ → Bool → ℕ → Bytes → ℕ
quoted_end quote escaped end [] = end
quoted_end quote escaped end (byte ∷ bytes) =
    let next = quoted_end quote (not escaped && byte == b'\\') (suc end) bytes in
    if is_line_break byte || (byte == quote && not escaped) then end else next

abbrev pub in_value : ℕ → Bool
in_value byte = not (is_ascii_whitespace byte) && not (is_quote byte)

abbrev pub non_empty : ℕ → ℕ → Option Span
non_empty start end = if ltb start end then some (start, end) else none

unfoldable pub assignment_value : Bytes → ℕ → Option Span
assignment_value bytes start = elim (get_elem? bytes start) [
  | none ↦ none
  | some first ↦
      if is_quote first
      then non_empty (start + 1) (quoted_end first false (start + 1) (drop (start + 1) bytes))
      else non_empty start (scan in_value bytes start)
]

abbrev pub is_blank : ℕ → Bool
is_blank byte = is_ascii_whitespace byte && not (is_line_break byte)

-- The byte at `start`, if it is a quote.
abbrev pub quote_at : Bytes → ℕ → Option ℕ
quote_at bytes start = elim (get_elem? bytes start) [
  | none ↦ none
  | some byte ↦ if is_quote byte then some byte else none
]

-- The place behind the key's closing quote, or behind the key if it has no quotes.
abbrev pub close_quote : Option ℕ → Bytes → ℕ → Option ℕ
close_quote none bytes key_end = some key_end
close_quote (some quote) bytes key_end =
    if is_at (λ byte. byte == quote) bytes key_end then some (key_end + 1) else none

abbrev pub is_delimiter : ℕ → Bool
is_delimiter byte = byte == b'=' || byte == b':'

-- From the key's end on.
unfoldable pub assigned_value : Option ℕ → Bytes → ℕ → ℕ → Option Span
assigned_value quote bytes key_start key_end = elim (close_quote quote bytes key_end) [
  | none ↦ none
  | some after ↦
      let delimiter = scan is_blank bytes after in
      if not (is_at is_delimiter bytes delimiter)
        || not (sensitive_key (take (key_end - key_start) (drop key_start bytes)))
      then none
      else assignment_value bytes (scan is_blank bytes (delimiter + 1))
]

abbrev pub key_start_of : Option ℕ → ℕ → ℕ
key_start_of none start = start
key_start_of (some quote) start = start + 1

unfoldable pub sensitive_assignment : Bytes → ℕ → Option Span
sensitive_assignment bytes start =
    let quote = quote_at bytes start in
    let key_start = key_start_of quote start in
    if is_before is_key bytes start
    then none
    else if not (is_at is_key bytes key_start)
    then none
    else assigned_value quote bytes key_start (scan is_key bytes key_start)
