-- ===== src/Agent/Tests.antt =====
-- Runs of the agent at concrete inputs: the world is a counter, JSON values are texts, and the model
-- asks for two tools in its first answer.
use fx_rs.Base.{
  ℕ, suc, ◌≡◌, ◌≤◌, refl, Bool, true, false, not, Option, none, some, List, [], ◌∷◌, Text, text,
  Result, ok, arith, leb, ◌==◌, if◌then◌else◌, length, take, drop, any, map, is_nil, len,
}
use fx_rs.Base.Yields.{Any, Meets, Yields}
use fx_rs.Agent.Admission.{LocalToolAdmission, admit_local_tool}
use fx_rs.Agent.Admission.Denied.{Extends}
use fx_rs.Agent.Admission.Permitted.{Guarded, admit_local_tool-Guarded}
use fx_rs.Agent.Batch.{execute_tool_batch}
use fx_rs.Agent.Batch.Answered.{execute_tool_batch-Fueled}
use fx_rs.Agent.Batch.Fueled.{Fueled}
use fx_rs.Agent.Join.{Slot, join_ordered}
use fx_rs.Agent.Join.Ordered.{Joined, join_ordered-Joined}
use fx_rs.Agent.Output.{bounded_inline_output, finalize_tool_output}
use fx_rs.Agent.Output.Bounded.{bounded_inline_output_lem}
use fx_rs.Agent.Output.Finalized.{IsPanic, Finalized, finalize_tool_output-Finalized}
use fx_rs.Agent.Targets.{parallel_read_prefix_len, select_scoped_project_context}
use fx_rs.Agent.Targets.Deferral.{select_scoped_project_context-Spares}
use fx_rs.Agent.Turns.{Progress, use_response, run_controlled}
use fx_rs.Agent.Turns.Cancelled.{IsLeftOpen, use_response-cancelled}
use fx_rs.Agent.Turns.Paired.{Paired}
use fx_rs.Agent.Turns.Permissions.{run_controlled-Extends}
use fx_rs.Agent.Turns.Steps.{WithinLimit, IsClosed, run_controlled-Limited, run_controlled-Paired}
use fx_rs.Agent.Types.{
  Agent, AgentRequest, ApprovalDecision, ApprovalRequest, RunState, ToolContext,
}
use fx_rs.Gateway.Types.{GatewayRequest, GatewayResponse}
use fx_rs.Gateway.Retry.{Answer}
use fx_rs.Message.{ToolArgumentIntegrity, ToolExecutionProvenance, ToolCall, Usage}
use fx_rs.Permission.Engine.{ToolEffect, PermissionMode, new_request}
use fx_rs.Tools.Types.{ToolOutput, Task, ToolPreparation, Tool}

abbrev output : Text → ToolOutput Text
output content = record {
  content = content;
  is_error = false;
  structured = none;
  original_bytes = len content;
  truncated = false;
  durable_content = none;
}

-- A task that is ready at its second poll.
abbrev task : Text → Task ℕ Text
task content = record { pending = suc ∷ []; finish = λ w. (ok (output content), suc w) }

abbrev tool : Text → ToolEffect → Tool ℕ Text
tool name effect = record {
  name = name;
  description = text "a tool";
  input_schema = text "{}";
  effect = λ arguments. ok effect;
  project_context_targets = λ arguments w. ok (arguments ∷ []);
  prepare = λ arguments w.
      (ok (ToolPreparation.direct (new_request name arguments effect ∷ []) false), w);
  execute = λ arguments. task arguments;
}

abbrev call : Text → Text → Text → ToolCall
call id name arguments = record {
  id = id;
  name = name;
  arguments_json = arguments;
  argument_integrity = ToolArgumentIntegrity.valid;
  provisional_id = none;
  provider_result = none;
  provenance = ToolExecutionProvenance.fx_local;
}

abbrev read_call : ToolCall
read_call = call (text "1") (text "read") (text "a.txt")

abbrev write_call : ToolCall
write_call = call (text "2") (text "write") (text "b.txt")

abbrev no_usage : Usage
no_usage = record { input_tokens = none; output_tokens = some 3 }

abbrev response : List ToolCall → GatewayResponse
response calls = record {
  content = some (text "ok");
  tool_calls = calls;
  generation_id = none;
  finish_reason = none;
  usage = no_usage;
  delivery_ambiguous = false;
}

-- The first request is answered by calls of both tools, every later one without calls.
abbrev complete : GatewayRequest Text → ℕ → Answer ℕ
complete request w = ([], ok (response (if w == 0 then read_call ∷ write_call ∷ [] else [])), suc w)

abbrev review : ApprovalRequest → ℕ → Result Text ApprovalDecision × ℕ
review request w = (ok ApprovalDecision.allow_for_session, suc w)

-- The flag of the cancellation is set when the world has come to `limit`.
abbrev context : ℕ → ToolContext ℕ
context limit = record {
  max_result_bytes = 200;
  tool_results = none;
  project_context = some (λ targets w. (ok (some (text "rules")), w));
  is_cancelled = λ w. (leb limit w, w);
}

abbrev agent : ℕ → Agent ℕ Text
agent limit = record {
  complete = complete;
  review = review;
  context = context limit;
  tools = record {
    tools =
        (text "write", tool (text "write") ToolEffect.write)
        ∷ (text "read", tool (text "read") ToolEffect.read)
        ∷ [];
    order = text "read" ∷ text "write" ∷ [];
  };
  json = record { parse = λ s. ok s; is_object = λ v. true };
  options = record {
    model = text "m";
    max_steps = 2;
    max_output_tokens = none;
    history_context_tokens = 1000;
  };
}

abbrev state : RunState ℕ Text
state = record {
  world = 0;
  permissions = record { mode = PermissionMode.ask; configured_rules = []; session_grants = [] };
  events = [];
}

abbrev request : AgentRequest
request = record { history = []; prompt = text "go" }

abbrev progress : Progress
progress = record {
  messages = [];
  output = [];
  usage = no_usage;
  step = 1;
  delivery_ambiguous = false;
}

run_controlled-Limited_example :
    Fueled {W = ℕ} {V = Text} (WithinLimit 2) (run_controlled 2 (agent 100) request)
run_controlled-Limited_example =
    run_controlled-Limited (agent 100) 2 request (omega arith) (omega arith)

run_controlled-Paired_example :
    Yields {S = RunState ℕ Text} Any IsClosed (run_controlled 2 (agent 100) request)
run_controlled-Paired_example = run_controlled-Paired (agent 100) 2 request Paired.nil

run_controlled-Extends_example :
    Extends state.permissions (run_controlled 2 (agent 100) request state).1.permissions
run_controlled-Extends_example = run_controlled-Extends 2 (agent 100) request state

admit_local_tool-Guarded_example :
    Guarded (agent 100) write_call state (admit_local_tool (agent 100) write_call state).0
admit_local_tool-Guarded_example = admit_local_tool-Guarded (agent 100) write_call state

execute_tool_batch-Fueled_example :
    Fueled {W = ℕ} {V = Text}
      (λ (os : List (ToolOutput Text × Bool)). length os ≡ 2)
      (execute_tool_batch (agent 100) (read_call ∷ write_call ∷ []) (false ∷ true ∷ []))
execute_tool_batch-Fueled_example =
    execute_tool_batch-Fueled (agent 100) (read_call ∷ write_call ∷ []) (false ∷ true ∷ [])

abbrev admissions : List (LocalToolAdmission ℕ Text)
admissions =
    LocalToolAdmission.direct (task (text "a"))
    ∷ LocalToolAdmission.immediate (output (text "b")) false
    ∷ []

join_ordered-Joined_example :
    Joined (map Slot.admitted admissions) (join_ordered (context 100) admissions 0).0
join_ordered-Joined_example = join_ordered-Joined (context 100) admissions 0

select_scoped_project_context-Spares_example :
    Yields {S = RunState ℕ Text} Any
      (λ (a : Option Text × List Bool).
        (length a.1 ≡ 2)
        × ((n : ℕ)
            → any
                (λ (b : Bool). b)
                (take
                  (parallel_read_prefix_len (agent 100) (drop n (read_call ∷ write_call ∷ [])))
                  (drop n a.1))
              ≡ false))
      (select_scoped_project_context (agent 100) (read_call ∷ write_call ∷ []))
select_scoped_project_context-Spares_example =
    select_scoped_project_context-Spares (agent 100) (read_call ∷ write_call ∷ [])

bounded_inline_output_lem_example :
    let (out, truncated) = bounded_inline_output (text "abcdef") 4 (text "read") in
    (len out ≤ 4)
    × (truncated ≡ not (leb (len (text "abcdef")) 4))
    × (truncated ≡ false → out ≡ text "abcdef")
bounded_inline_output_lem_example = bounded_inline_output_lem (text "abcdef") 4 (text "read")

abbrev durable_output : ToolOutput Text
durable_output = record (output (text "short")) { durable_content = some (text "complete") }

finalize_tool_output-Finalized_example :
    Meets IsPanic
      (Finalized (context 100) durable_output)
      (finalize_tool_output (context 100) read_call durable_output state).0
finalize_tool_output-Finalized_example =
    finalize_tool_output-Finalized (context 100) read_call durable_output state

use_response-cancelled_example :
    IsLeftOpen (use_response (agent 0) (response (read_call ∷ [])) progress state).0
unfolding is_nil
use_response-cancelled_example =
    use_response-cancelled (agent 0) (response (read_call ∷ [])) progress state refl refl
