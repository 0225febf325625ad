-- ===== src/Agent/Types.antt =====
-- The agent's types, and what it calls outside (crates/fx-core/src/agent.rs, lines 18 to 166;
-- crates/fx-core/src/tool.rs, lines 54 to 64). `W` is the world and `V` is the type of JSON values.
use fx_rs.Base.{ℕ, Bool, Option, none, List, [], ◌∷◌, ◌++◌, Text, Result}
use fx_rs.Base.Exec.{Exec}
use fx_rs.Context.Project.{default_history_context_tokens}
use fx_rs.Gateway.Types.{GatewayEvent, GatewayError}
use fx_rs.Gateway.Retry.{Gateway}
use fx_rs.Message.{ChatMessage, Usage}
use fx_rs.Permission.Engine.{PermissionEngine, PermissionRequest}
use fx_rs.Tools.Registry.{Json, ToolRegistry}
use fx_rs.Tools.Types.{ToolOutput, ToolReview, StoredToolResult, ToolResultStoreError}

pub record AgentOptions : Type 0 where
  pub model : Text
  pub max_steps : ℕ
  pub max_output_tokens : Option ℕ
  pub history_context_tokens : ℕ

-- `AgentOptions::new`.
unfoldable pub new_options : Text → AgentOptions
new_options model = record {
  model = model;
  max_steps = 50;
  max_output_tokens = none;
  history_context_tokens = default_history_context_tokens;
}

pub record AgentRequest : Type 0 where
  pub history : List ChatMessage
  pub prompt : Text

pub data AgentStopReason : Type 0 where
  complete step_limit cancelled : AgentStopReason

pub record AgentResult : Type 0 where
  pub messages : List ChatMessage
  pub output : Text
  pub usage : Usage
  pub steps : ℕ
  pub stop_reason : AgentStopReason
  pub delivery_ambiguous : Bool

pub data ApprovalDecision : Type 0 where
  allow_once allow_for_session deny : ApprovalDecision

pub data ApprovalKind : Type 0 where
  user automatic : ApprovalKind

pub record ApprovalRequest : Type 0 where
  pub kind : ApprovalKind
  pub tool_call_id : Text
  pub tool_name : Text
  pub arguments_json : Text
  pub permission_requests : List PermissionRequest
  pub irreversible : Bool
  pub review : Option ToolReview

pub data AgentEvent (V : Type 0) : Type 0 where
  gateway : GatewayEvent → AgentEvent V
  tool_started : Text → Text → Text → AgentEvent V
  tool_finished : Text → Text → Bool → ToolOutput V → AgentEvent V

pub data AgentError : Type 0 where
  gateway_error : GatewayError → AgentError
  approval_unavailable project_context_unavailable : Text → AgentError

-- How a run ends without a result: by an error, by a panic, or, in the model only, without fuel.
pub data Failure : Type 0 where
  error : AgentError → Failure
  panicked out_of_fuel : Failure

-- What the agent uses of its `ToolContext`. The flag of the cancellation is set by others.
pub record ToolContext (W : Type 0) : Type 0 where
  pub max_result_bytes : ℕ
  pub tool_results :
      Option (Text → Text → Text → W → Result ToolResultStoreError StoredToolResult × W)
  pub project_context : Option (List Text → W → Result Text (Option Text) × W)
  pub is_cancelled : W → Bool × W

-- The agent, its approval handler and the context of its tools.
pub record Agent (W V : Type 0) : Type 0 where
  pub complete : Gateway W V
  pub review : ApprovalRequest → W → Result Text ApprovalDecision × W
  pub context : ToolContext W
  pub tools : ToolRegistry W V
  pub json : Json V
  pub options : AgentOptions

-- What a run changes: the world, the permissions, and the events that it emitted.
pub record RunState (W V : Type 0) : Type 0 where
  pub world : W
  pub permissions : PermissionEngine
  pub events : List (AgentEvent V)

abbrev pub Run : Type 0 → Type 0 → Type 0 → Type 0
Run W V A = Exec Failure (RunState W V) A

module _ {W V : Type 0} where
  -- A call that reads and changes the world.
  abbrev pub on_world : {A : Type 0} → (W → A × W) → RunState W V → A × RunState W V
  on_world f s = let (a, w) = f s.world in (a, record s { world = w })

  abbrev pub emit : AgentEvent V → Run W V (Unit {0})
  emit event s = (Result.ok tt, record s { events = s.events ++ event ∷ [] })
