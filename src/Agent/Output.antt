-- ===== src/Agent/Output.antt =====
-- The outputs of tools and the usage (crates/fx-core/src/agent.rs, lines 704 to 797).
pub mod Bounded
pub mod Finalized
use fx_rs.Base.{
  ℕ, ◌-◌, min, max, Bool, true, false, ◌||◌, Option, none, some, List, [], ◌∷◌, ◌++◌, Text, text,
  ltb, leb, if◌then◌else◌, len, Result, saturating_add,
}
use fx_rs.Agent.Types.{Failure, ToolContext, RunState, Run, on_world}
use fx_rs.Context.Words.{utf8_prefix, decimal}
use fx_rs.Message.{ToolCall, Usage}
use fx_rs.Redaction.Secrets.{Cow, redact_secrets}
use fx_rs.Tools.Types.{
  large_tool_result_bytes, tool_result_preview_bytes, StoredToolResult, ToolResultStoreError,
  store_error_text, ToolOutput,
}

unfoldable pub error_output : {V : Type 0} → Text → ToolOutput V
error_output content = record {
  content = content;
  is_error = true;
  structured = none;
  original_bytes = len content;
  truncated = false;
  durable_content = none;
}

-- The marker of `bounded_inline_output`.
unfoldable pub truncation_marker : ℕ → ℕ → Text → Text
truncation_marker bytes max_bytes tool_name =
    text "\n... [tool result truncated for "
    ++ (tool_name
        ++ (text ": original "
            ++ (decimal bytes
                ++ (text " bytes; cap is " ++ (decimal max_bytes ++ text " bytes]\n")))))

unfoldable pub bounded_inline_output : Text → ℕ → Text → Text × Bool
bounded_inline_output content max_bytes tool_name =
    let marker = truncation_marker (len content) max_bytes tool_name in
    if leb (len content) max_bytes
    then (content, false)
    else if leb max_bytes (len marker)
    then (utf8_prefix max_bytes marker, true)
    else (utf8_prefix (max_bytes - len marker) content ++ marker, true)

-- The content that stands for a stored result.
unfoldable pub stored_preview : StoredToolResult → Text → Text
stored_preview stored durable =
    text "<tool_result_preview handle=\""
    ++ (stored.handle
        ++ (text "\" stored_bytes=\""
            ++ (decimal stored.stored_bytes
                ++ (text "\">\n"
                    ++ (utf8_prefix tool_result_preview_bytes durable
                        ++ (text "\n</tool_result_preview>\n<tool_result_handle>"
                            ++ (stored.handle
                                ++ text
                                    "</tool_result_handle>\nFull result is stored outside session JSON. Use read_tool_result with this handle to inspect a byte range or literal query.")))))))

unfoldable pub sum_optional : Option ℕ → Option ℕ → Option ℕ
sum_optional none none = none
sum_optional (some a) none = some (saturating_add a 0)
sum_optional none (some b) = some (saturating_add 0 b)
sum_optional (some a) (some b) = some (saturating_add a b)

unfoldable pub accumulate_usage : Usage → Usage → Usage
accumulate_usage total next = record {
  input_tokens = sum_optional total.input_tokens next.input_tokens;
  output_tokens = sum_optional total.output_tokens next.output_tokens;
}

abbrev into_owned : Text → Cow → Text
into_owned s Cow.borrowed = s
into_owned s (Cow.owned t) = t

unfoldable pub finalize_stored :
    {V : Type 0} → ToolOutput V → Text → Result ToolResultStoreError StoredToolResult → ToolOutput V
finalize_stored output durable (Result.ok stored) = record {
  content = stored_preview stored durable;
  is_error = output.is_error;
  structured = none;
  original_bytes = output.original_bytes;
  truncated = true;
  durable_content = none;
}
finalize_stored output durable (Result.err error) =
    error_output (text "tool result storage failed: " ++ store_error_text error)

unfoldable pub finalize_plain : {V : Type 0} → ToolOutput V → Cow → ToolOutput V
finalize_plain output Cow.borrowed = output
finalize_plain output (Cow.owned redacted) = record output { content = redacted; structured = none }

module _ {W V : Type 0} where
  -- The end of `finalize_tool_output`: a durable result that stays inline.
  unfoldable pub finalize_inline : ToolContext W → ToolCall → ToolOutput V → Text → ToolOutput V
  finalize_inline context call output durable =
      let (content, truncated) = bounded_inline_output durable context.max_result_bytes call.name in
      record {
        content = content;
        is_error = output.is_error;
        structured = if truncated then none else output.structured;
        original_bytes = output.original_bytes;
        truncated = output.truncated || truncated;
        durable_content = none;
      }

  -- A durable result, redacted; a large one goes to the store, if there is one.
  unfoldable pub finalize_durable :
      ToolContext W → ToolCall → ToolOutput V → Text → Run W V (ToolOutput V)
  finalize_durable context call output durable s = elim context.tool_results [
    | none ↦ (Result.ok (finalize_inline context call output durable), s)
    | some store ↦
        if ltb large_tool_result_bytes (len durable)
        then (let (stored, s') = on_world (store call.id call.name durable) s in
            (Result.ok (finalize_stored output durable stored), s'))
        else (Result.ok (finalize_inline context call output durable), s)
  ]

  unfoldable pub finalize_tool_output :
      ToolContext W → ToolCall → ToolOutput V → Run W V (ToolOutput V)
  finalize_tool_output context call output s = elim output.durable_content [
    | none ↦ elim (redact_secrets output.content) [
      | none ↦ (Result.err Failure.panicked, s)
      | some cow ↦ (Result.ok (finalize_plain output cow), s)
    ]
    | some durable ↦ elim (redact_secrets durable) [
      | none ↦ (Result.err Failure.panicked, s)
      | some cow ↦
          finalize_durable context call
            (record output {
              original_bytes = max output.original_bytes (len durable);
              durable_content = none;
            })
            (into_owned durable cow) s
    ]
  ]
