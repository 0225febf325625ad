-- ===== src/Agent/Turns.antt =====
-- The agent's loop (crates/fx-core/src/agent.rs, lines 201 to 349).
pub mod Steps
pub mod Paired
pub mod Exchange
pub mod Cancelled
pub mod Permissions
use fx_rs.Base.{
  ℕ, zero, suc, ◌+◌, Bool, true, false, not, ◌&&◌, ◌||◌, Option, none, some, List, [], ◌∷◌, ◌++◌,
  Text, leb, ◌==◌, if◌then◌else◌, Result, map, is_nil,
}
use fx_rs.Base.Exec.{pure, lift, ◌>>=◌, ◌>>◌}
use fx_rs.Agent.Admission.{Outcome}
use fx_rs.Agent.Batch.{execute_tool_batch, is_cancelled}
use fx_rs.Agent.Output.{accumulate_usage}
use fx_rs.Agent.Targets.{select_scoped_project_context, insert_stable_system_context}
use fx_rs.Agent.Types.{
  Agent, AgentEvent, AgentError, AgentOptions, AgentRequest, AgentResult, AgentStopReason, Failure,
  RunState, Run, on_world,
}
use fx_rs.Context.Project.{project}
use fx_rs.Gateway.Types.{GatewayRequest, GatewayResponse, GatewayError, GatewayEvent, ToolChoice}
use fx_rs.Message.{Role, CachePolicy, ChatMessage, ToolCall, Usage, text_message}
use fx_rs.Tools.Registry.{advertisements}

-- The variables of `run_controlled`.
pub record Progress : Type 0 where
  pub messages : List ChatMessage
  pub output : Text
  pub usage : Usage
  pub step : ℕ
  pub delivery_ambiguous : Bool

-- How one pass through the loop ends.
pub data Pass : Type 0 where
  next : Progress → Pass
  stop : AgentResult → Pass

unfoldable pub stopped : AgentStopReason → Progress → AgentResult
stopped stop_reason p = record {
  messages = p.messages;
  output = p.output;
  usage = p.usage;
  steps = p.step;
  stop_reason = stop_reason;
  delivery_ambiguous = p.delivery_ambiguous;
}

unfoldable pub cancelled_result : Progress → AgentResult
unfolding stopped
cancelled_result p = stopped AgentStopReason.cancelled p

unfoldable pub begin : AgentRequest → Progress
begin request = record {
  messages = request.history ++ text_message Role.user request.prompt ∷ [];
  output = [];
  usage = record { input_tokens = none; output_tokens = none };
  step = 0;
  delivery_ambiguous = false;
}

-- What the response of the gateway changes.
unfoldable pub assistant_message : GatewayResponse → ChatMessage
assistant_message response = record {
  role = Role.assistant;
  content = response.content;
  tool_call_id = none;
  tool_name = none;
  tool_calls = response.tool_calls;
  permission_feedback = false;
  cache_policy = CachePolicy.default;
}

unfoldable pub accept : GatewayResponse → Progress → Progress
accept response p = record {
  messages = p.messages ++ assistant_message response ∷ [];
  output = p.output ++ elim response.content [ none ↦ [] | some content ↦ content ];
  usage = accumulate_usage p.usage response.usage;
  step = p.step;
  delivery_ambiguous = p.delivery_ambiguous || response.delivery_ambiguous;
}

unfoldable pub insert_context : Option Text → Progress → Progress
insert_context none p = p
insert_context (some delta) p = record p {
  messages = insert_stable_system_context delta p.messages;
}

unfoldable pub tool_message : {V : Type 0} → ToolCall → Outcome V → ChatMessage
tool_message call (output, feedback) = record {
  role = Role.tool;
  content = some output.content;
  tool_call_id = some call.id;
  tool_name = some call.name;
  tool_calls = [];
  permission_feedback = feedback;
  cache_policy = CachePolicy.default;
}

-- The tool messages of the calls and their outcomes, one for each pair.
unfoldable pub tool_messages : {V : Type 0} → List ToolCall → List (Outcome V) → List ChatMessage
tool_messages (call ∷ calls) (outcome ∷ outcomes) =
    tool_message call outcome ∷ tool_messages calls outcomes
tool_messages _ _ = []

abbrev pub at_limit : AgentOptions → ℕ → Bool
at_limit options step = not (options.max_steps == 0) && leb options.max_steps step

module _ {W V : Type 0} where
  unfoldable pub gateway_request : Agent W V → List ChatMessage → GatewayRequest V
  gateway_request agent messages = record {
    model = agent.options.model;
    messages = (project messages agent.options.history_context_tokens).messages;
    tools = advertisements agent.tools;
    tool_choice = ToolChoice.auto;
    max_output_tokens = agent.options.max_output_tokens;
  }

  -- `gateway.complete`, with its events passed on.
  unfoldable pub call_gateway :
      Agent W V → List ChatMessage → Run W V (Result GatewayError GatewayResponse)
  call_gateway agent messages s =
      let (events, result, w) = agent.complete (gateway_request agent messages) s.world in
      (Result.ok result, record s { world = w; events = s.events ++ map AgentEvent.gateway events })

  -- The tool calls of a response.
  unfoldable pub execute_calls : Agent W V → List ToolCall → Progress → Run W V Pass
  execute_calls agent calls p = do
    selected ← select_scoped_project_context agent calls
    outcomes ← execute_tool_batch agent calls selected.1
    let p' = insert_context selected.0 p
    pure (Pass.next (record p' { messages = p'.messages ++ tool_messages calls outcomes }))

  unfoldable pub use_response : Agent W V → GatewayResponse → Progress → Run W V Pass
  use_response agent response p = do
    let p' = accept response p
    cancelled ← is_cancelled agent
    if cancelled
        then pure (Pass.stop (cancelled_result p'))
        else if is_nil response.tool_calls
        then pure (Pass.stop (stopped AgentStopReason.complete p'))
        else execute_calls agent response.tool_calls p'

  unfoldable pub use_result :
      Agent W V → Result GatewayError GatewayResponse → Progress → Run W V Pass
  use_result agent (Result.ok response) p = use_response agent response p
  use_result agent (Result.err GatewayError.cancelled) p = do
    cancelled ← is_cancelled agent
    if cancelled
        then pure (Pass.stop (cancelled_result p))
        else lift (Result.err (Failure.error (AgentError.gateway_error GatewayError.cancelled)))
  use_result agent (Result.err e) p = lift (Result.err (Failure.error (AgentError.gateway_error e)))

  unfoldable pub pass : Agent W V → Progress → Run W V Pass
  pass agent p = do
    cancelled ← is_cancelled agent
    if cancelled then pure (Pass.stop (cancelled_result p)) else (do
      let p' = record p { step = suc p.step }
      result ← call_gateway agent p'.messages
      use_result agent result p')

  unfoldable pub go_on : (Progress → Run W V AgentResult) → Pass → Run W V AgentResult
  go_on loop (Pass.next p) = loop p
  go_on loop (Pass.stop result) = pure result

  -- The loop; where `max_steps` is 0 there is no limit, and the fuel of the model may run out.
  unfoldable pub run_from : ℕ → Agent W V → Progress → Run W V AgentResult
  run_from zero agent p =
      if at_limit agent.options p.step
      then pure (stopped AgentStopReason.step_limit p)
      else lift (Result.err Failure.out_of_fuel)
  run_from (suc fuel) agent p =
      if at_limit agent.options p.step
      then pure (stopped AgentStopReason.step_limit p)
      else (pass agent p >>= go_on (run_from fuel agent))

  unfoldable pub run_controlled : ℕ → Agent W V → AgentRequest → Run W V AgentResult
  run_controlled fuel agent request = run_from fuel agent (begin request)
