-- ===== src/Gateway/Types.antt =====
-- Requests, responses, events and errors of a gateway (crates/fx-core/src/gateway.rs, lines 8 to 118,
-- and crates/fx-core/src/message.rs, lines 100 to 109). `V` is the type of JSON values.
use fx_rs.Base.{ℕ, Bool, Option, List, Text}
use fx_rs.Message.{ChatMessage, ToolCall, Usage}

pub data ToolChoice : Type 0 where
  auto none required : ToolChoice

pub data ToolAdvertisementKind (V : Type 0) : Type 0 where
  function : ToolAdvertisementKind V
  provider : Text → V → ToolAdvertisementKind V

pub record ToolAdvertisement (V : Type 0) : Type 0 where
  pub name : Text
  pub description : Text
  pub input_schema : V
  pub kind : ToolAdvertisementKind V

pub record GatewayRequest (V : Type 0) : Type 0 where
  pub model : Text
  pub messages : List ChatMessage
  pub tools : List (ToolAdvertisement V)
  pub tool_choice : ToolChoice
  pub max_output_tokens : Option ℕ

pub data FinishReason : Type 0 where
  stop length content_filter tool_calls error other : FinishReason

pub record GatewayResponse : Type 0 where
  pub content : Option Text
  pub tool_calls : List ToolCall
  pub generation_id : Option Text
  pub finish_reason : Option FinishReason
  pub usage : Usage
  pub delivery_ambiguous : Bool

pub data GatewayEvent : Type 0 where
  content_delta reasoning_delta : Text → GatewayEvent
  tool_started : Text → Text → GatewayEvent

pub data GatewayError : Type 0 where
  cancelled authentication definitely_unsent possibly_sent : GatewayError
  rejected invalid_response unavailable : Text → GatewayError
