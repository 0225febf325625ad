-- ===== src/Tools/Types.antt =====
-- The types of tools (crates/fx-core/src/tool.rs, lines 16 to 318; crates/fx-core/src/tool_result.rs,
-- lines 3 to 40). `W` is the world that tools read and change, and `V` is the type of JSON values.
use fx_rs.Base.{ℕ, ◌*◌, Bool, Option, List, ◌++◌, Text, text, Result}
use fx_rs.Permission.Engine.{ToolEffect, PermissionRequest}

abbrev pub large_tool_result_bytes : ℕ
large_tool_result_bytes = 16 * 1024

abbrev pub tool_result_preview_bytes : ℕ
tool_result_preview_bytes = 4 * 1024

pub record StoredToolResult : Type 0 where
  pub handle : Text
  pub stored_bytes : ℕ

pub data ToolResultStoreError : Type 0 where
  invalid_handle invalid_query not_found too_large : ToolResultStoreError
  unavailable : Text → ToolResultStoreError

unfoldable pub store_error_text : ToolResultStoreError → Text
store_error_text ToolResultStoreError.invalid_handle = text "invalid tool-result handle"
store_error_text ToolResultStoreError.invalid_query = text "tool-result query must not be empty"
store_error_text ToolResultStoreError.not_found = text "tool-result handle was not found"
store_error_text ToolResultStoreError.too_large = text "tool result exceeds the storage limit"
store_error_text (ToolResultStoreError.unavailable reason) =
    text "tool-result store is unavailable: " ++ reason

pub record ToolOutput (V : Type 0) : Type 0 where
  pub content : Text
  pub is_error : Bool
  pub structured : Option V
  pub original_bytes : ℕ
  pub truncated : Bool
  pub durable_content : Option Text

pub data ToolError : Type 0 where
  invalid_arguments outside_workspace permission_denied execution : Text → ToolError
  cancelled : ToolError

-- `ToolError::to_string`.
unfoldable pub tool_error_text : ToolError → Text
tool_error_text (ToolError.invalid_arguments s) = text "invalid arguments: " ++ s
tool_error_text (ToolError.outside_workspace s) =
    text "tool call is outside the active workspace: " ++ s
tool_error_text (ToolError.permission_denied s) = text "permission denied: " ++ s
tool_error_text (ToolError.execution s) = text "tool execution failed: " ++ s
tool_error_text ToolError.cancelled = text "tool was cancelled"

pub record FileChangeReview : Type 0 where
  pub path : Text
  pub before : Option (List ℕ)
  pub after : List ℕ

pub record CommandReview : Type 0 where
  pub command : Text
  pub cwd : Text
  pub shell : Text
  pub profile : Text

pub data ToolReview : Type 0 where
  file_change : FileChangeReview → ToolReview
  command : CommandReview → ToolReview

-- The future of one execution: what the world does between its polls, one entry for each poll that
-- is not ready yet, and the poll that is.
pub record Task (W V : Type 0) : Type 0 where
  pub pending : List (W → W)
  pub finish : W → Result ToolError (ToolOutput V) × W

-- An approved action; `action` is the future of its `commit`.
pub record PreparedToolCall (W V : Type 0) : Type 0 where
  pub tool_name : Text
  pub permission_requests : List PermissionRequest
  pub irreversible : Bool
  pub review : Option ToolReview
  pub action : Task W V

pub data ToolPreparation (W V : Type 0) : Type 0 where
  direct : List PermissionRequest → Bool → ToolPreparation W V
  prepared : PreparedToolCall W V → ToolPreparation W V

-- The methods of a tool that the agent calls, in one context.
pub record Tool (W V : Type 0) : Type 0 where
  pub name : Text
  pub description : Text
  pub input_schema : V
  pub effect : V → Result ToolError ToolEffect
  pub project_context_targets : V → W → Result ToolError (List Text)
  pub prepare : V → W → Result ToolError (ToolPreparation W V) × W
  pub execute : V → Task W V
