-- ===== src/Agent/Output/Bounded.antt =====
-- The size of an inline output (crates/fx-core/src/agent.rs, lines 764 to 785).
use fx_rs.Base.{
  ℕ, ◌-◌, ◌≤◌, ◌≡◌, refl, Bool, true, false, not, [], ◌∷◌, ◌++◌, Text, leb, if◌then◌else◌, len,
  len_utf8, len-append, arith,
}
use fx_rs.Agent.Output.{truncation_marker, bounded_inline_output}
use fx_rs.Context.Words.{utf8_prefix}

pub len-utf8_prefix : (n : ℕ) (s : Text) → len (utf8_prefix n s) ≤ n
unfolding len utf8_prefix
len-utf8_prefix n [] = omega arith
len-utf8_prefix n (c ∷ s) = ground (arith, len-utf8_prefix (n - len_utf8 c) s)

-- The cut beginning begins the text.
pub utf8_prefix_begins : (n : ℕ) (s : Text) → (rest : Text) × (utf8_prefix n s ++ rest ≡ s)
unfolding utf8_prefix
utf8_prefix_begins n [] = ([], refl)
utf8_prefix_begins n (c ∷ s) = either (leb (len_utf8 c) n) (utf8_prefix_begins (n - len_utf8 c) s)
  where
    either :
        (b : Bool)
        → ((rest : Text) × (utf8_prefix (n - len_utf8 c) s ++ rest ≡ s))
        → (rest : Text) × ((if b then c ∷ utf8_prefix (n - len_utf8 c) s else []) ++ rest ≡ c ∷ s)
    either true (rest, e) = (rest, cc)
    either false (rest, e) = (c ∷ s, refl)

-- An output is cut exactly when it has more bytes than the limit; otherwise it stays as it is. In
-- both cases it is within the limit.
pub bounded_inline_output_lem :
    (content : Text) (max_bytes : ℕ) (tool_name : Text)
    → let (out, truncated) = bounded_inline_output content max_bytes tool_name in
      (len out ≤ max_bytes)
      × (truncated ≡ not (leb (len content) max_bytes))
      × (truncated ≡ false → out ≡ content)
unfolding bounded_inline_output
bounded_inline_output_lem content max_bytes tool_name = (
  ground (
    arith,
    len-utf8_prefix max_bytes marker,
    len-utf8_prefix (max_bytes - len marker) content,
    len-append (utf8_prefix (max_bytes - len marker) content) marker,
  ),
  ground arith,
  λ h. ground arith,
)
  where
    marker : Text
    marker = truncation_marker (len content) max_bytes tool_name
