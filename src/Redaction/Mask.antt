-- ===== src/Redaction/Mask.antt =====
-- The masking of a text (crates/fx-core/src/redaction.rs, lines 3 to 34).
use fx_rs.Base.{
  ℕ, zero, suc, ◌-◌, ◌&&◌, Option, none, some, [], ◌++◌, leb, if◌then◌else◌, length, take, drop,
  text, is_nil,
}
use fx_rs.Redaction.Bytes.{Bytes}
use fx_rs.Redaction.Token.{Span, basic_auth_url, aws_access_key, inline_token}
use fx_rs.Redaction.Assignment.{sensitive_assignment}

abbrev pub redacted : Bytes
redacted = text "[redacted]"

-- `or_else`.
abbrev pub or_else : Option Span → Option Span → Option Span
or_else (some span) other = some span
or_else none other = other

unfoldable pub secret_span : Bytes → ℕ → Option Span
secret_span bytes start =
    or_else
      (or_else (or_else (basic_auth_url bytes start) (aws_access_key bytes start))
        (sensitive_assignment bytes start))
      (inline_token bytes start)

-- `&bytes[from..to]`, which panics out of range.
unfoldable pub bytes_between : Bytes → ℕ → ℕ → Option Bytes
bytes_between bytes from to =
    if leb from to && leb to (length bytes) then some (take (to - from) (drop from bytes)) else none

-- The loop from `index` on: the output and the place up to which it is copied, or none for a panic
-- or for fuel that runs out.
unfoldable pub redact_from : ℕ → Bytes → Bytes → ℕ → ℕ → Option (Bytes × ℕ)
redact_from zero bytes output copied index =
    if leb (length bytes) index then some (output, copied) else none
redact_from (suc fuel) bytes output copied index =
    if leb (length bytes) index then some (output, copied) else elim (secret_span bytes index) [
      | none ↦ redact_from fuel bytes output copied (suc index)
      | some (prefix_end, value_end) ↦ elim (bytes_between bytes copied prefix_end) [
        | none ↦ none
        | some piece ↦ redact_from fuel bytes (output ++ (piece ++ redacted)) value_end value_end
      ]
    ]

-- Each turn of the loop moves the index on, so the length is fuel enough.
unfoldable pub redact_bytes : Bytes → Option Bytes
redact_bytes bytes = elim (redact_from (length bytes) bytes [] 0 0) [
  | none ↦ none
  | some (output, copied) ↦
      if is_nil output then some bytes else elim (bytes_between bytes copied (length bytes)) [
        | none ↦ none
        | some tail ↦ some (output ++ tail)
      ]
]
