-- ===== src/Redaction/Spans.antt =====
-- Where the scanners' spans lie (crates/fx-core/src/redaction.rs, lines 29 to 191).
use fx_rs.Base.{
  ℕ, suc, ◌+◌, ◌-◌, ◌≤◌, ◌<◌, ◌≡◌, refl, Bool, true, false, not, ◌&&◌, ◌||◌, Option, none, some, [],
  ◌∷◌, ltb, ◌==◌, if◌then◌else◌, length, length-drop, take, drop, get_elem?, arith,
}
use fx_rs.Redaction.Bytes.{Bytes, scan, scan-bounds, is_at, is_before, is_key}
use fx_rs.Redaction.Assignment.{
  is_quote, quoted_end, in_value, non_empty, assignment_value, is_blank, quote_at, close_quote,
  is_delimiter, assigned_value, key_start_of, sensitive_assignment, sensitive_key,
}
use fx_rs.Redaction.Mask.{secret_span}
use fx_rs.Redaction.TokenSpans.{
  AllWithin, AllWithin-if, AllWithin-or_else, is_at-below, get_elem?-below, basic_auth_url-Within,
  aws_access_key-Within, inline_token-Within,
}

quoted_end-bounds :
    (quote : ℕ) (escaped : Bool) (end : ℕ) (rest : Bytes)
    → (end ≤ quoted_end quote escaped end rest)
      × (quoted_end quote escaped end rest ≤ end + length rest)
unfolding quoted_end
quoted_end-bounds quote escaped end [] = (omega arith, omega arith)
quoted_end-bounds quote escaped end (byte ∷ rest) =
    ground (arith, quoted_end-bounds quote (not escaped && byte == b'\\') (suc end) rest)

non_empty-Within :
    (bytes : Bytes) (start from to : ℕ)
    → start ≤ from
    → to ≤ length bytes
    → AllWithin bytes start (non_empty from to)
non_empty-Within bytes start from to h below =
    AllWithin-if bytes start (ltb from to) _ _ (λ e. ground arith) (λ _. tt)

assignment_value-Within :
    (bytes : Bytes) (start from : ℕ)
    → start ≤ from
    → from ≤ length bytes
    → AllWithin bytes start (assignment_value bytes from)
unfolding assignment_value
assignment_value-Within bytes start from h below = value (get_elem? bytes from) refl
  where
    value :
        (o : Option ℕ)
        → get_elem? bytes from ≡ o
        → AllWithin bytes start (elim o [
          | none ↦ none
          | some first ↦
              if is_quote first
              then non_empty (from + 1) (quoted_end first false (from + 1) (drop (from + 1) bytes))
              else non_empty from (scan in_value bytes from)
        ])
    value none e = tt
    value (some first) e =
        AllWithin-if bytes start (is_quote first) _ _
          (λ _. non_empty-Within bytes start (from + 1) _ (omega arith) (
            omega (
              arith,
              quoted_end-bounds first false (from + 1) (drop (from + 1) bytes),
              length-drop (from + 1) bytes,
              get_elem?-below bytes from first e,
            )))
          (λ _. non_empty-Within bytes start from _ h (scan-bounds in_value bytes from below).1)

-- The place behind a closed key.
abbrev After : Bytes → ℕ → Option ℕ → Type 0
After bytes key_end none = Unit
After bytes key_end (some after) = (key_end ≤ after) × (after ≤ length bytes)

close_quote-bounds :
    (quote : Option ℕ) (bytes : Bytes) (key_end : ℕ)
    → key_end ≤ length bytes
    → After bytes key_end (close_quote quote bytes key_end)
close_quote-bounds none bytes key_end below = (omega arith, below)
close_quote-bounds (some quote) bytes key_end below =
    either (is_at (λ byte. byte == quote) bytes key_end) (is_at-below _ bytes key_end)
  where
    either :
        (b : Bool)
        → (b ≡ true → key_end < length bytes)
        → After bytes key_end (if b then some (key_end + 1) else none)
    either true h = let lt = h refl in (omega arith, omega arith)
    either false h = tt

assigned_value-Within :
    (quote : Option ℕ) (bytes : Bytes) (start key_start key_end : ℕ)
    → start ≤ key_end
    → key_end ≤ length bytes
    → AllWithin bytes start (assigned_value quote bytes key_start key_end)
unfolding assigned_value
assigned_value-Within quote bytes start key_start key_end h below =
    closed (close_quote quote bytes key_end) (close_quote-bounds quote bytes key_end below)
  where
    behind :
        (after : ℕ)
        → key_end ≤ after
        → after ≤ length bytes
        → AllWithin bytes start (
            if not (is_at is_delimiter bytes (scan is_blank bytes after))
              || not (sensitive_key (take (key_end - key_start) (drop key_start bytes)))
            then none
            else assignment_value bytes (scan is_blank bytes (scan is_blank bytes after + 1)))
    behind after le in_text =
        let delimiter = scan is_blank bytes after in
        AllWithin-if bytes start
          (not (is_at is_delimiter bytes delimiter)
            || not (sensitive_key (take (key_end - key_start) (drop key_start bytes))))
          _ _ (λ _. tt)
          (λ found.
            let next : delimiter + 1 ≤ length bytes =
              ground (arith, is_at-below is_delimiter bytes delimiter) in
            assignment_value-Within bytes start (scan is_blank bytes (delimiter + 1))
              (omega (
                arith,
                scan-bounds is_blank bytes after in_text,
                scan-bounds is_blank bytes (delimiter + 1) next,
              ))
              (scan-bounds is_blank bytes (delimiter + 1) next).1)

    closed :
        (o : Option ℕ)
        → After bytes key_end o
        → AllWithin bytes start (elim o [
          | none ↦ none
          | some after ↦
              let delimiter = scan is_blank bytes after in
              if not (is_at is_delimiter bytes delimiter)
                || not (sensitive_key (take (key_end - key_start) (drop key_start bytes)))
              then none
              else assignment_value bytes (scan is_blank bytes (delimiter + 1))
        ])
    closed none ok = tt
    closed (some after) (le, in_text) = behind after le in_text

sensitive_assignment-Within :
    (bytes : Bytes) (start : ℕ) → AllWithin bytes start (sensitive_assignment bytes start)
unfolding sensitive_assignment
sensitive_assignment-Within bytes start =
    AllWithin-if bytes start (is_before is_key bytes start) _ _ (λ _. tt)
      (λ _.
        AllWithin-if bytes start (not (is_at is_key bytes key_start)) _ _ (λ _. tt)
          (λ key.
            let at_key : key_start < length bytes =
              ground (arith, is_at-below is_key bytes key_start) in
            let bounds = scan-bounds is_key bytes key_start (omega arith) in
            assigned_value-Within (quote_at bytes start) bytes start key_start
              (scan is_key bytes key_start) (omega (arith, key_start-behind (quote_at bytes start)))
              bounds.1))
  where
    key_start : ℕ
    key_start = key_start_of (quote_at bytes start) start

    key_start-behind : (quote : Option ℕ) → start ≤ key_start_of quote start
    key_start-behind none = omega arith
    key_start-behind (some quote) = omega arith

-- A secret span lies in the text, behind the place where the search stands, and ends behind it.
pub secret_span-Within :
    (bytes : Bytes) (start : ℕ)
    → start ≤ length bytes
    → AllWithin bytes start (secret_span bytes start)
unfolding secret_span
secret_span-Within bytes start below =
    AllWithin-or_else bytes start _ _
      (AllWithin-or_else bytes start _ _
        (AllWithin-or_else bytes start _ _ (basic_auth_url-Within bytes start)
          (aws_access_key-Within bytes start))
        (sensitive_assignment-Within bytes start))
      (inline_token-Within bytes start below)
