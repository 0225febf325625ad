-- ===== src/Gateway/Tests.antt =====
-- A gateway that cannot send its first request.
use fx_rs.Base.{ℕ, suc, false, none, [], ◌==◌, if◌then◌else◌, Text, text, ok, err}
use fx_rs.Gateway.Retry.{Answer, complete_from}
use fx_rs.Gateway.Retry.Attempts.{Tried, complete_from-Tried}
use fx_rs.Gateway.Types.{GatewayRequest, GatewayResponse, GatewayError, ToolChoice}

abbrev response : GatewayResponse
response = record {
  content = none;
  tool_calls = [];
  generation_id = none;
  finish_reason = none;
  usage = record { input_tokens = none; output_tokens = none };
  delivery_ambiguous = false;
}

abbrev inner : GatewayRequest Text → ℕ → Answer ℕ
inner request w = ([], if w == 0 then err GatewayError.definitely_unsent else ok response, suc w)

abbrev request : GatewayRequest Text
request = record {
  model = text "m";
  messages = [];
  tools = [];
  tool_choice = ToolChoice.auto;
  max_output_tokens = none;
}

complete_from-Tried_example : Tried inner request 1 0 (complete_from inner request 1 0)
complete_from-Tried_example = complete_from-Tried inner request 1 0
