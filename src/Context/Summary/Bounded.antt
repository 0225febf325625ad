-- ===== src/Context/Summary/Bounded.antt =====
-- The size of the summary (crates/fx-core/src/context.rs, lines 10 to 12 and 203 to 233).
use fx_rs.Base.{
  ◌+◌, ◌≤◌, ◌≡◌, List, [], ◌∷◌, ◌++◌, Text, len, len-append, unwrap_or, arith, is_nil,
  if◌then◌else◌, Bool, true, false,
}
use fx_rs.Message.{ChatMessage}
use fx_rs.Context.Summary.{
  Packing, pack_line, pack_lines, with_notice, omission_notice, no_lines, compacted_message,
  summary_max_bytes, summary_max_lines, summary_lines,
}
use fx_rs.Context.Words.{compact_line}

-- The content fits.
abbrev Fits : Packing → Type 0
Fits p = (len p.content ≤ summary_max_bytes) × (p.line_count ≤ summary_max_lines)

-- A line break where there is content before it.
separated-len :
    (b : Bool) (line : Text)
    → len ((if b then [] else (b'\n' ∷ [])) ++ line) ≡ (if b then 0 else 1) + len line
unfolding len
separated-len true line = omega arith
separated-len false line = ground arith

pack_line-Fits : (p : Packing) (line : Text) → Fits p → Fits (pack_line p line)
unfolding pack_line
pack_line-Fits p line (bytes, lines) = ground (
  arith,
  len-append p.content ((if is_nil p.content then [] else (b'\n' ∷ [])) ++ compact_line line),
  separated-len (is_nil p.content) (compact_line line),
)

pack_lines-Fits : (p : Packing) (lines : List Text) → Fits p → Fits (pack_lines p lines)
unfolding pack_lines
pack_lines-Fits p [] fits = fits
pack_lines-Fits p (line ∷ lines) fits =
    pack_lines-Fits (pack_line p line) lines (pack_line-Fits p line fits)

with_notice-len : (p : Packing) → Fits p → len (with_notice p) ≤ summary_max_bytes
unfolding with_notice
with_notice-len p (bytes, lines) =
    ground (arith, len-append p.content (omission_notice p.omitted_lines))

-- The summary of any messages has at most 1200 bytes, the notice of omitted lines included.
pub compacted_message-len :
    (messages : List ChatMessage)
    → len (unwrap_or (compacted_message messages).content []) ≤ summary_max_bytes
unfolding compacted_message len
compacted_message-len messages =
    with_notice-len (pack_lines no_lines (summary_lines messages))
      (pack_lines-Fits no_lines (summary_lines messages) (omega arith, omega arith))
