-- ===== src/Redaction/TokenSpans.antt =====
-- Where the spans of tokens lie (crates/fx-core/src/redaction.rs, lines 36 to 72 and 150 to 191).
use fx_rs.Base.{
  ℕ, zero, suc, ◌+◌, ◌-◌, ◌≤◌, ◌<◌, ◌≡◌, refl, Bool, true, false, not, ◌&&◌, ◌||◌, Option, none,
  some, List, [], ◌∷◌, leb, ltb, ◌==◌, if◌then◌else◌, length, length-drop, take, drop, get_elem?,
  arith, any,
}
use fx_rs.Redaction.Bytes.{
  Bytes, scan, scan-bounds, is_at, is_before, is_token, is_ascii_uppercase, is_ascii_digit,
  starts_with,
}
use fx_rs.Redaction.Token.{
  Span, credential_end, basic_auth_url, aws_access_key, token_with, inline_token, ends_authority,
  https, all, aws_prefixes, short_prefixes, long_prefixes,
}
use fx_rs.Redaction.Mask.{or_else}

-- The span lies behind `start` and in the text, and it ends behind `start`.
abbrev pub Within : Bytes → ℕ → Span → Type 0
Within bytes start (from, to) = (start ≤ from) × (from ≤ to) × (start < to) × (to ≤ length bytes)

-- If there is a span, it is within.
abbrev pub AllWithin : Bytes → ℕ → Option Span → Type 0
AllWithin bytes start none = Unit
AllWithin bytes start (some span) = Within bytes start span

module _ (bytes : Bytes) (start : ℕ) where
  pub AllWithin-if :
      (b : Bool) (x y : Option Span)
      → (b ≡ true → AllWithin bytes start x)
      → (b ≡ false → AllWithin bytes start y)
      → AllWithin bytes start (if b then x else y)
  AllWithin-if true x y hx hy = hx refl
  AllWithin-if false x y hx hy = hy refl

  pub AllWithin-or_else :
      (x y : Option Span)
      → AllWithin bytes start x
      → AllWithin bytes start y
      → AllWithin bytes start (or_else x y)
  AllWithin-or_else (some span) y hx hy = hx
  AllWithin-or_else none y hx hy = hy

pub is_at-below : (p : ℕ → Bool) (bytes : Bytes) (i : ℕ) → is_at p bytes i ≡ true → i < length bytes
is_at-below p [] i h = ground arith
is_at-below p (b ∷ bytes) zero h = omega arith
is_at-below p (b ∷ bytes) (suc i) h = omega (arith, is_at-below p bytes i h)

pub get_elem?-below :
    (bytes : Bytes) (i byte : ℕ) → get_elem? bytes i ≡ some byte → i < length bytes
get_elem?-below [] i byte h = ground arith
get_elem?-below (b ∷ bytes) zero byte h = omega arith
get_elem?-below (b ∷ bytes) (suc i) byte h = omega (arith, get_elem?-below bytes i byte h)

starts_with-length : (xs prefix : Bytes) → starts_with xs prefix ≡ true → length prefix ≤ length xs
unfolding starts_with
starts_with-length xs [] h = omega arith
starts_with-length [] (p ∷ prefix) h = ground arith
starts_with-length (x ∷ xs) (p ∷ prefix) h = ground (arith, starts_with-length xs prefix)

credential_end-Within :
    (bytes : Bytes) (start from : ℕ) (colon : Bool) (index : ℕ) (rest : Bytes)
    → start < from
    → index + length rest ≡ length bytes
    → AllWithin bytes start (credential_end from colon index rest)
unfolding credential_end
credential_end-Within bytes start from colon index [] h e = tt
credential_end-Within bytes start from colon index (byte ∷ rest) h e =
    AllWithin-if bytes start (byte == b':') _ _
      (λ _. credential_end-Within bytes start from true (suc index) rest h (omega arith))
      (λ _.
        AllWithin-if bytes start (byte == b'@' && (colon && ltb from index)) _ _
          (λ found. ground arith)
          (λ _.
            AllWithin-if bytes start (ends_authority byte) _ _ (λ _. tt)
              (λ _. credential_end-Within bytes start from colon (suc index) rest h (omega arith))))

pub basic_auth_url-Within :
    (bytes : Bytes) (start : ℕ) → AllWithin bytes start (basic_auth_url bytes start)
unfolding basic_auth_url
basic_auth_url-Within bytes start =
    AllWithin-if bytes start (not (starts_with (drop start bytes) https)) _ _ (λ _. tt)
      (λ found.
        credential_end-Within bytes start (start + 8) false (start + 8) (drop (start + 8) bytes)
          (omega arith)
          (ground (
            arith,
            length-drop (start + 8) bytes,
            length-drop start bytes,
            starts_with-length (drop start bytes) https,
          )))

pub aws_access_key-Within :
    (bytes : Bytes) (start : ℕ) → AllWithin bytes start (aws_access_key bytes start)
unfolding aws_access_key
aws_access_key-Within bytes start =
    AllWithin-if bytes start (ltb (length bytes) (start + 20)) _ _ (λ _. tt)
      (λ long.
        AllWithin-if bytes start
          (not (any (λ prefix. starts_with (take 20 (drop start bytes)) prefix) aws_prefixes)
            || not (
                all (λ byte. is_ascii_uppercase byte || is_ascii_digit byte)
                  (take 20 (drop start bytes)))
            || is_before is_token bytes start
            || is_at is_token bytes (start + 20))
          none (some (start, start + 20)) (λ _. tt) (λ _. ground arith))

token_with-Within :
    (prefixes : List Bytes) (shortest : ℕ) (bytes : Bytes) (start : ℕ)
    → 0 < shortest
    → start ≤ length bytes
    → AllWithin bytes start (token_with prefixes shortest bytes start)
unfolding token_with
token_with-Within [] shortest bytes start h below = tt
token_with-Within (prefix ∷ prefixes) shortest bytes start h below =
    let next = token_with-Within prefixes shortest bytes start h below in
    AllWithin-if bytes start (not (starts_with (drop start bytes) prefix)) _ _ (λ _. next)
      (λ found.
        AllWithin-if bytes start
          (leb shortest (scan is_token bytes (start + length prefix) - start)) _ _
          (λ long. ground (
            arith,
            length-drop start bytes,
            starts_with-length (drop start bytes) prefix,
            scan-bounds is_token bytes (start + length prefix),
          ))
          (λ _. next))

pub inline_token-Within :
    (bytes : Bytes) (start : ℕ)
    → start ≤ length bytes
    → AllWithin bytes start (inline_token bytes start)
unfolding inline_token
inline_token-Within bytes start below =
    AllWithin-if bytes start (is_before is_token bytes start) _ _ (λ _. tt)
      (λ _.
        either (token_with short_prefixes 16 bytes start)
          (token_with-Within short_prefixes 16 bytes start (omega arith) below))
  where
    either :
        (o : Option Span)
        → AllWithin bytes start o
        → AllWithin bytes start
            (elim o [ some span ↦ some span | none ↦ token_with long_prefixes 40 bytes start ])
    either none h = token_with-Within long_prefixes 40 bytes start (omega arith) below
    either (some span) h = h
