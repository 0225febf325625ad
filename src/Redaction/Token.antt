-- ===== src/Redaction/Token.antt =====
-- Tokens that show by their own form (crates/fx-core/src/redaction.rs, lines 36 to 72 and 150 to 191).
use fx_rs.Base.{
  ℕ, suc, ◌+◌, ◌-◌, Bool, true, false, not, ◌&&◌, ◌||◌, Option, none, some, List, [], ◌∷◌, leb, ltb,
  ◌==◌, if◌then◌else◌, length, take, drop, any, text,
}
use fx_rs.Redaction.Bytes.{
  Bytes, is_ascii_uppercase, is_ascii_digit, is_token, starts_with, is_at, is_before, scan,
}

-- The place of a secret: where it starts, and where it ends.
abbrev pub Span : Type 0
Span = ℕ × ℕ

abbrev pub all : (ℕ → Bool) → Bytes → Bool
all p [] = true
all p (b ∷ bytes) = p b && all p bytes

-- The bytes that end the search for the credentials of a URL.
abbrev pub ends_authority : ℕ → Bool
ends_authority byte =
    byte == b'/'
    || byte == b'?'
    || byte == b'#'
    || byte == 0x0a
    || byte == 0x0d
    || byte == 0x09
    || byte == 0x20

-- The loop over the bytes from `index` on.
unfoldable pub credential_end : ℕ → Bool → ℕ → Bytes → Option Span
credential_end start colon index [] = none
credential_end start colon index (byte ∷ bytes) =
    let after_colon = credential_end start true (suc index) bytes in
    let next = credential_end start colon (suc index) bytes in
    if byte == b':'
    then after_colon
    else if byte == b'@' && (colon && ltb start index)
    then some (start, index)
    else if ends_authority byte
    then none
    else next

abbrev pub https : Bytes
https = text "https://"

unfoldable pub basic_auth_url : Bytes → ℕ → Option Span
basic_auth_url bytes start =
    if not (starts_with (drop start bytes) https)
    then none
    else credential_end (start + 8) false (start + 8) (drop (start + 8) bytes)

abbrev pub aws_prefixes : List Bytes
aws_prefixes =
    text "AKIA" ∷ text "ASIA" ∷ text "AIDA" ∷ text "AGPA" ∷ text "AROA" ∷ text "ANPA" ∷ []

unfoldable pub aws_access_key : Bytes → ℕ → Option Span
aws_access_key bytes start =
    let candidate = take 20 (drop start bytes) in
    if ltb (length bytes) (start + 20)
    then none
    else if not (any (λ prefix. starts_with candidate prefix) aws_prefixes)
        || not (all (λ byte. is_ascii_uppercase byte || is_ascii_digit byte) candidate)
        || is_before is_token bytes start
        || is_at is_token bytes (start + 20)
    then none
    else some (start, start + 20)

-- The loop over the prefixes of one kind, whose tokens have at least `shortest` bytes.
unfoldable pub token_with : List Bytes → ℕ → Bytes → ℕ → Option Span
token_with [] shortest bytes start = none
token_with (prefix ∷ prefixes) shortest bytes start =
    let end = scan is_token bytes (start + length prefix) in
    let next = token_with prefixes shortest bytes start in
    if not (starts_with (drop start bytes) prefix)
    then next
    else if leb shortest (end - start)
    then some (start, end)
    else next

abbrev pub short_prefixes : List Bytes
short_prefixes =
    text "sk-"
    ∷ text "sk_live_"
    ∷ text "pk_live_"
    ∷ text "github_pat_"
    ∷ text "xoxb-"
    ∷ text "xoxp-"
    ∷ text "Bearer "
    ∷ []

abbrev pub long_prefixes : List Bytes
long_prefixes = text "ghp_" ∷ text "gho_" ∷ text "ghu_" ∷ text "ghs_" ∷ text "ghr_" ∷ []

unfoldable pub inline_token : Bytes → ℕ → Option Span
inline_token bytes start =
    if is_before is_token bytes start
    then none
    else elim (token_with short_prefixes 16 bytes start) [
      | some span ↦ some span
      | none ↦ token_with long_prefixes 40 bytes start
    ]
