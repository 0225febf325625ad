-- ===== src/Redaction/Bytes.antt =====
-- Tests on bytes and scans (crates/fx-core/src/redaction.rs, lines 209 to 215), and the slice methods
-- that the scanners use.
use fx_rs.Base.{
  ℕ, zero, suc, ◌+◌, ◌≤◌, Bool, true, false, ◌&&◌, ◌||◌, none, some, List, [], ◌∷◌, leb, ◌==◌,
  length, get_elem?, drop, count_while, arith, length-drop, count_while-length,
}

abbrev pub Bytes : Type 0
Bytes = List ℕ

abbrev pub in_range : ℕ → ℕ → ℕ → Bool
in_range low high byte = leb low byte && leb byte high

abbrev pub is_ascii_uppercase : ℕ → Bool
is_ascii_uppercase byte = in_range b'A' b'Z' byte

abbrev pub is_ascii_digit : ℕ → Bool
is_ascii_digit byte = in_range b'0' b'9' byte

abbrev pub is_ascii_alphanumeric : ℕ → Bool
is_ascii_alphanumeric byte =
    is_ascii_digit byte || is_ascii_uppercase byte || in_range b'a' b'z' byte

-- Rust's set: no vertical tab.
abbrev pub is_ascii_whitespace : ℕ → Bool
is_ascii_whitespace byte =
    byte == 0x20 || byte == 0x09 || byte == 0x0a || byte == 0x0c || byte == 0x0d

unfoldable pub is_key : ℕ → Bool
is_key byte = is_ascii_alphanumeric byte || byte == b'_'

unfoldable pub is_token : ℕ → Bool
is_token byte = is_ascii_alphanumeric byte || (byte == b'-' || byte == b'_' || byte == b'.')

unfoldable pub starts_with : Bytes → Bytes → Bool
starts_with text [] = true
starts_with [] (p ∷ prefix) = false
starts_with (b ∷ text) (p ∷ prefix) = b == p && starts_with text prefix

-- `contains`, on strings.
unfoldable pub contains : Bytes → Bytes → Bool
contains [] needle = starts_with [] needle
contains (b ∷ text) needle = starts_with (b ∷ text) needle || contains text needle

-- `text.get(index).is_some_and(p)`.
abbrev pub is_at : (ℕ → Bool) → Bytes → ℕ → Bool
is_at p text index = elim (get_elem? text index) [ none ↦ false | some byte ↦ p byte ]

-- `index.checked_sub(1).is_some_and(|index| p(text[index]))`.
abbrev pub is_before : (ℕ → Bool) → Bytes → ℕ → Bool
is_before p text zero = false
is_before p text (suc index) = is_at p text index

-- `while text.get(index).is_some_and(p) { index += 1 }`.
unfoldable pub scan : (ℕ → Bool) → Bytes → ℕ → ℕ
scan p text index = index + count_while p (drop index text)

pub scan-bounds :
    (p : ℕ → Bool) (text : Bytes) (index : ℕ)
    → index ≤ length text
    → (index ≤ scan p text index) × (scan p text index ≤ length text)
unfolding scan
scan-bounds p text index h =
    ground (arith, count_while-length p (drop index text), length-drop index text)
