-- ===== src/Redaction/Secrets.antt =====
-- `redact_secrets` on texts (crates/fx-core/src/redaction.rs, lines 5 to 27), with Rust's decoding of
-- UTF-8.
use fx_rs.Base.{
  ℕ, ◌+◌, ◌-◌, ◌*◌, Bool, true, false, ◌&&◌, ◌||◌, Option, none, some, List, [], ◌∷◌, Text, leb,
  ltb, if◌then◌else◌, length, text_eq, as_bytes, is_nil,
}
use fx_rs.Redaction.Bytes.{Bytes}
use fx_rs.Redaction.Mask.{redact_from, redact_bytes}

-- What is decoded of the end of a list of bytes: the continuation bytes at its start, of which the
-- first byte is still to come, and the text behind them.
abbrev Decoded : Type 0
Decoded = Option (List ℕ × Text)

-- A byte in front.
unfoldable pub decode_byte : ℕ → List ℕ → Text → Decoded
decode_byte b [] s =
    if ltb b 0x80 then some ([], b ∷ s) else if ltb b 0xc0 then some ((b - 0x80) ∷ [], s) else none
decode_byte b (x ∷ []) s =
    if ltb b 0x80
    then none
    else if ltb b 0xc0
    then some ((b - 0x80) ∷ x ∷ [], s)
    else if ltb b 0xe0
    then some ([], ((b - 0xc0) * 64 + x) ∷ s)
    else none
decode_byte b (x ∷ y ∷ []) s =
    if ltb b 0x80
    then none
    else if ltb b 0xc0
    then some ((b - 0x80) ∷ x ∷ y ∷ [], s)
    else if leb 0xe0 b && ltb b 0xf0
    then some ([], ((b - 0xe0) * 4096 + x * 64 + y) ∷ s)
    else none
decode_byte b (x ∷ y ∷ z ∷ _) s =
    if leb 0xf0 b then some ([], ((b - 0xf0) * 262144 + x * 4096 + y * 64 + z) ∷ s) else none

unfoldable pub decode : Bytes → Decoded
decode [] = some ([], [])
decode (b ∷ bytes) = elim (decode bytes) [ none ↦ none | some (tail, s) ↦ decode_byte b tail s ]

-- A Unicode scalar value.
abbrev pub is_scalar : ℕ → Bool
is_scalar c = ltb c 0xd800 || (ltb 0xdfff c && ltb c 0x110000)

abbrev pub all_scalars : Text → Bool
all_scalars [] = true
all_scalars (c ∷ s) = is_scalar c && all_scalars s

-- `String::from_utf8`: the bytes are the encoding of scalar values.
unfoldable pub from_utf8 : Bytes → Option Text
from_utf8 bytes = elim (decode bytes) [
  | none ↦ none
  | some ([], s) ↦ if text_eq (as_bytes s) bytes && all_scalars s then some s else none
  | some (_ ∷ _, s) ↦ none
]

-- `Cow<str>`.
pub data Cow : Type 0 where
  borrowed : Cow
  owned : Text → Cow

-- No secret was found.
unfoldable pub is_untouched : Bytes → Bool
is_untouched bytes = elim (redact_from (length bytes) bytes [] 0 0) [
  | none ↦ false
  | some (output, copied) ↦ is_nil output
]

-- `none` is a panic.
unfoldable pub redact_secrets : Text → Option Cow
redact_secrets s = elim (redact_bytes (as_bytes s)) [
  | none ↦ none
  | some out ↦
      if is_untouched (as_bytes s)
      then some Cow.borrowed
      else elim (from_utf8 out) [ none ↦ none | some t ↦ some (Cow.owned t) ]
]
