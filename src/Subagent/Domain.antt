-- ===== src/Subagent/Domain.antt =====
-- The state of a child agent (crates/fx-subagent/src/domain.rs) and the tests on inputs
-- (crates/fx-subagent/src/lib.rs, lines 114 to 127 and 1019 to 1051).
use fx_rs.Base.{
  ℕ, ◌*◌, Bool, not, ◌&&◌, ◌||◌, Option, List, ◌++◌, Text, leb, ltb, ◌==◌, len, any, text, true,
  false, Result, refuse_if,
}
use fx_rs.Base.Int.{ℤ}
use fx_rs.Context.Words.{is_whitespace}
use fx_rs.Message.{ChatMessage}
use fx_rs.Permission.Engine.{PermissionMode}

abbrev pub max_name_bytes : ℕ
max_name_bytes = 128

abbrev pub max_model_bytes : ℕ
max_model_bytes = 256

abbrev pub max_message_bytes : ℕ
max_message_bytes = 64 * 1024

pub data ChildMode : Type 0 where
  one_off persistent : ChildMode

pub data ChildState : Type 0 where
  idle queued running interrupted completed failed cancelled archived : ChildState

unfoldable pub is_settled : ChildState → Bool
is_settled ChildState.queued = false
is_settled ChildState.running = false
is_settled ChildState.idle = true
is_settled ChildState.interrupted = true
is_settled ChildState.completed = true
is_settled ChildState.failed = true
is_settled ChildState.cancelled = true
is_settled ChildState.archived = true

pub data LifecycleAction : Type 0 where
  cancel resume close reopen : LifecycleAction

pub record ConfigureInput : Type 0 where
  pub id : Text
  pub name : Option Text
  pub model : Option Text
  pub permission_mode : Option PermissionMode

pub record ToolActivity : Type 0 where
  pub generation : ℕ
  pub phase : Text
  pub tool : Text
  pub call_id : Text
  pub is_error : Option Bool

pub record ChildEvent : Type 0 where
  pub generation : ℕ
  pub kind : Text
  pub detail : Text
  pub at_ms : ℤ

pub record ChildSnapshot : Type 0 where
  pub id : Text
  pub parent_id : Option Text
  pub name : Text
  pub mode : ChildMode
  pub model : Text
  pub permission_mode : PermissionMode
  pub state : ChildState
  pub generation : ℕ
  pub created_at_ms : ℤ
  pub updated_at_ms : ℤ
  pub history : List ChatMessage
  pub queued_messages : List Text
  pub tool_activity : List ToolActivity
  pub events : List ChildEvent
  pub last_output : Option Text
  pub failure : Option Text

-- The outcome of the executor, which is not in this crate.
pub data ChildRunResult : Type 0 where
  finished : List ChatMessage → Text → ChildRunResult
  cancelled_run : ChildRunResult
  failed_run : Text → ChildRunResult

pub data ManagerError : Type 0 where
  invalid_branch : ManagerError
  invalid_input : Text → ManagerError
  not_found : Text → ManagerError
  busy : Text → ManagerError
  unsupported : Text → ManagerError

-- `trim().is_empty()`.
abbrev is_blank : Text → Bool
is_blank value = not (any (λ c. not (is_whitespace c)) value)

-- `char::is_control`.
abbrev is_control : ℕ → Bool
is_control c = leb c 0x1f || (leb 0x7f c && leb c 0x9f)

unfoldable pub is_valid_text : Text → ℕ → Bool
is_valid_text value limit = not (
    is_blank value
    || ltb limit (len value)
    || any (λ c. is_control c && (not (c == 0x0a) && not (c == 0x09))) value)

unfoldable pub validate_text : Text → Text → ℕ → Result ManagerError (Unit {0})
validate_text field value limit =
    refuse_if (not (is_valid_text value limit))
      (ManagerError.invalid_input (text "invalid " ++ field))

unfoldable pub permission_rank : PermissionMode → ℕ
permission_rank PermissionMode.ask = 0
permission_rank PermissionMode.auto = 1
permission_rank PermissionMode.yolo = 2
