-- ===== src/Context/Estimate.antt =====
-- The estimate of tokens (crates/fx-core/src/context.rs, lines 286 to 320).
use fx_rs.Base.{ℕ, ◌+◌, ◌/◌, max, Option, none, some, List, [], ◌∷◌, Text, saturating_add, len}
use fx_rs.Message.{ChatMessage, ToolCall}
use fx_rs.Context.Words.{split_whitespace}

-- `span.len().div_ceil(4).max(1)`.
unfoldable pub word_tokens : Text → ℕ
word_tokens span = max ((len span + 3) / 4) 1

unfoldable pub words_tokens : ℕ → List Text → ℕ
words_tokens acc [] = acc
words_tokens acc (word ∷ words) = words_tokens (saturating_add acc (word_tokens word)) words

unfoldable pub estimate_text_tokens : Text → ℕ
estimate_text_tokens s = words_tokens 0 (split_whitespace s)

unfoldable pub option_tokens : Option Text → ℕ
option_tokens none = 0
option_tokens (some s) = estimate_text_tokens s

unfoldable pub calls_tokens : ℕ → List ToolCall → ℕ
calls_tokens tokens [] = tokens
calls_tokens tokens (call ∷ calls) =
    calls_tokens
      (saturating_add
        (saturating_add (saturating_add tokens (estimate_text_tokens call.name))
          (estimate_text_tokens call.arguments_json))
        (option_tokens call.provider_result))
      calls

-- An absent field adds 0, which changes nothing.
unfoldable pub message_tokens : ChatMessage → ℕ
message_tokens m =
    calls_tokens
      (saturating_add
        (saturating_add (saturating_add 8 (option_tokens m.content)) (option_tokens m.tool_call_id))
        (option_tokens m.tool_name))
      m.tool_calls

unfoldable pub messages_tokens : ℕ → List ChatMessage → ℕ
messages_tokens acc [] = acc
messages_tokens acc (m ∷ messages) =
    messages_tokens (saturating_add acc (message_tokens m)) messages

unfoldable pub estimate_messages_tokens : List ChatMessage → ℕ
unfolding messages_tokens
estimate_messages_tokens messages = messages_tokens 0 messages
