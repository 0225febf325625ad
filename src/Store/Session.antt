-- ===== src/Store/Session.antt =====
-- Sessions and their validation (crates/fx-core/src/session.rs, lines 6 to 59;
-- crates/fx-store/src/lib.rs, lines 1073 to 1119 and 1199 to 1277).
use fx_rs.Base.{
  ℕ, Bool, false, not, ◌&&◌, ◌||◌, Option, none, some, List, [], ◌∷◌, Text, text, text_eq, leb, ltb,
  ◌==◌, if◌then◌else◌, len, length, any, as_bytes, is_nil, Result, ok, err, ◌>>◌, refuse_if,
}
use fx_rs.Base.Int.{ℤ, pos, ltb_ℤ}
use fx_rs.Message.{ChatMessage}
use fx_rs.Redaction.Bytes.{is_ascii_alphanumeric, is_ascii_digit, is_ascii_whitespace, in_range}

pub record SessionPreferences : Type 0 where
  pub model : Option Text

pub record Session : Type 0 where
  pub schema_version : ℕ
  pub id : Text
  pub created_at_ms : ℤ
  pub updated_at_ms : ℤ
  pub workspace_root : Text
  pub origin_workspace_root : Option Text
  pub title : Option Text
  pub preferences : SessionPreferences
  pub history : List ChatMessage

pub data SessionStoreError : Type 0 where
  not_found invalid_id corrupt unavailable : Text → SessionStoreError
  unsupported_schema : ℕ → SessionStoreError

abbrev pub schema_version : ℕ
schema_version = 3

abbrev pub is_session_id_byte : ℕ → Bool
is_session_id_byte byte = is_ascii_alphanumeric byte || byte == b'.' || byte == b'_' || byte == b'-'

unfoldable pub validate_session_id : Text → Result SessionStoreError (Unit {0})
validate_session_id id =
    refuse_if
      (is_nil id
        || ltb 255 (len id)
        || text_eq id (text ".")
        || text_eq id (text "..")
        || any (λ byte. not (is_session_id_byte byte)) (as_bytes id))
      (SessionStoreError.invalid_id id)

-- `Path::is_absolute` on Unix.
abbrev pub is_absolute : Text → Bool
is_absolute [] = false
is_absolute (c ∷ path) = c == b'/'

abbrev pub invalid_root : Text → Bool
invalid_root root = not (is_absolute root) || ltb 4096 (len root)

-- `u8::is_ascii_control`.
abbrev pub is_ascii_control : ℕ → Bool
is_ascii_control byte = ltb byte 0x20 || byte == 0x7f

abbrev pub last_or : ℕ → List ℕ → ℕ
last_or d [] = d
last_or d (byte ∷ bytes) = last_or byte bytes

abbrev pub valid_model_bytes : List ℕ → Bool
valid_model_bytes [] = false
valid_model_bytes (byte ∷ bytes) =
    leb (length (byte ∷ bytes)) 1024
    && not (is_ascii_whitespace byte)
    && not (is_ascii_whitespace (last_or byte bytes))
    && not (any is_ascii_control (byte ∷ bytes))

unfoldable pub valid_model_preference : Text → Bool
valid_model_preference model = valid_model_bytes (as_bytes model)

-- `is_some_and`.
abbrev pub is_some_and : (Text → Bool) → Option Text → Bool
is_some_and p none = false
is_some_and p (some s) = p s

unfoldable pub validate_session : Session → Result SessionStoreError (Unit {0})
validate_session session = do
  validate_session_id session.id
  refuse_if
      (not (
        session.schema_version == 1
        || session.schema_version == 2
        || session.schema_version == schema_version))
      (SessionStoreError.unsupported_schema session.schema_version)
  refuse_if
      (ltb_ℤ session.created_at_ms (pos 0)
        || ltb_ℤ session.updated_at_ms session.created_at_ms
        || invalid_root session.workspace_root
        || is_some_and invalid_root session.origin_workspace_root
        || is_some_and (λ model. not (valid_model_preference model)) session.preferences.model)
      (SessionStoreError.corrupt (text "session contains invalid durable fields"))

unfoldable pub valid_identifier : Text → Bool
valid_identifier value =
    len value == 32
    && not (any (λ byte. not (is_ascii_digit byte || in_range b'a' b'f' byte)) (as_bytes value))

unfoldable pub checked_identifier : Text → Result SessionStoreError Text
checked_identifier value =
    if valid_identifier value
    then ok value
    else err (SessionStoreError.corrupt (text "invalid event identifier"))
