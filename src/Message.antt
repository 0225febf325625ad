-- ===== src/Message.antt =====
-- Provider-neutral messages (crates/fx-core/src/message.rs).
use fx_rs.Base.{ℕ, Bool, true, false, Option, none, some, List, [], Text}

pub data Role : Type 0 where
  system user assistant tool : Role

pub data ToolArgumentIntegrity : Type 0 where
  valid malformed_json : ToolArgumentIntegrity

pub data ToolExecutionProvenance : Type 0 where
  fx_local provider : ToolExecutionProvenance

pub record ToolCall : Type 0 where
  pub id : Text
  pub name : Text
  pub arguments_json : Text
  pub argument_integrity : ToolArgumentIntegrity
  pub provisional_id : Option Text
  pub provider_result : Option Text
  pub provenance : ToolExecutionProvenance

pub data CachePolicy : Type 0 where
  default no_cache : CachePolicy

pub record ChatMessage : Type 0 where
  pub role : Role
  pub content : Option Text
  pub tool_call_id : Option Text
  pub tool_name : Option Text
  pub tool_calls : List ToolCall
  pub permission_feedback : Bool
  pub cache_policy : CachePolicy

-- `ChatMessage::text`.
unfoldable pub text_message : Role → Text → ChatMessage
text_message role content = record {
  role = role;
  content = some content;
  tool_call_id = none;
  tool_name = none;
  tool_calls = [];
  permission_feedback = false;
  cache_policy = CachePolicy.default;
}

unfoldable pub role_eq : Role → Role → Bool
role_eq Role.system Role.system = true
role_eq Role.user Role.user = true
role_eq Role.assistant Role.assistant = true
role_eq Role.tool Role.tool = true
role_eq _ _ = false

pub record Usage : Type 0 where
  pub input_tokens : Option ℕ
  pub output_tokens : Option ℕ
