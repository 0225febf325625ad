-- ===== src/Agent/Turns/Permissions.antt =====
-- What a run does to the permissions (crates/fx-core/src/agent.rs, lines 201 to 332).
use fx_rs.Base.{
  ℕ, zero, suc, Bool, Option, none, some, List, [], Text, Result, ok, err, is_nil, if_both,
  option_both,
}
use fx_rs.Base.Keeps.{Keeps-pure, Keeps-lift, Keeps-if, Keeps-bind}
use fx_rs.Agent.Admission.Denied.{Extends, Extends-refl, Extending}
use fx_rs.Agent.Batch.Permissions.{
  KeepsPermissions, is_cancelled-Extending, execute_tool_batch-Extending,
}
use fx_rs.Agent.Targets.{collect_targets, settle_context, select_scoped_project_context}
use fx_rs.Agent.Turns.{
  Progress, Pass, accept, at_limit, call_gateway, execute_calls, use_response, use_result, pass,
  go_on, run_from, run_controlled,
}
use fx_rs.Agent.Types.{Agent, AgentRequest, Failure, RunState}
use fx_rs.Gateway.Types.{GatewayResponse, GatewayError}
use fx_rs.Message.{ChatMessage, ToolCall}
use fx_rs.Permission.Engine.{PermissionEngine}

module _ {W V : Type 0} (before : PermissionEngine) (agent : Agent W V) where
  settle_context-Extending :
      (deferred none_deferred : List Bool) (r : Result Text (Option Text))
      → KeepsPermissions before agent (settle_context deferred none_deferred r)
  unfolding settle_context
  settle_context-Extending deferred none_deferred (err e) = record { from = λ s h. h }
  settle_context-Extending deferred none_deferred (ok none) = record { from = λ s h. h }
  settle_context-Extending deferred none_deferred (ok (some delta)) = record { from = λ s h. h }

  select_scoped_project_context-Extending :
      (calls : List ToolCall)
      → KeepsPermissions before agent (select_scoped_project_context agent calls)
  unfolding select_scoped_project_context
  select_scoped_project_context-Extending calls = record {
    from = λ s h. option_both Kept agent.context.project_context _ _ h (λ select.
        if_both Kept (is_nil (collect_targets agent s.world calls []).0) _ _ h
          ((settle_context-Extending _ _ _).from _ h));
  }
    where
      Kept : Result Failure (Option Text × List Bool) × RunState W V → Type 0
      Kept r = Extending before r.1

  execute_calls-Extending :
      (calls : List ToolCall) (p : Progress)
      → KeepsPermissions before agent (execute_calls agent calls p)
  unfolding execute_calls
  execute_calls-Extending calls p =
      Keeps-bind _ _ (select_scoped_project_context-Extending calls) (λ selected.
        Keeps-bind _ _ (execute_tool_batch-Extending before agent calls selected.1)
          (λ os. Keeps-pure _))

  use_response-Extending :
      (response : GatewayResponse) (p : Progress)
      → KeepsPermissions before agent (use_response agent response p)
  unfolding use_response
  use_response-Extending response p =
      Keeps-bind _ _ (is_cancelled-Extending before agent) (λ cancelled.
        Keeps-if cancelled _ _ (Keeps-pure _) (
          Keeps-if (is_nil response.tool_calls) _ _ (Keeps-pure _)
            (execute_calls-Extending response.tool_calls (accept response p))))

  use_result-Extending :
      (result : Result GatewayError GatewayResponse) (p : Progress)
      → KeepsPermissions before agent (use_result agent result p)
  unfolding use_result
  use_result-Extending (ok response) p = use_response-Extending response p
  use_result-Extending (err GatewayError.cancelled) p =
      Keeps-bind _ _ (is_cancelled-Extending before agent)
        (λ cancelled. Keeps-if cancelled _ _ (Keeps-pure _) (Keeps-lift _))
  use_result-Extending (err GatewayError.authentication) p = Keeps-lift _
  use_result-Extending (err GatewayError.definitely_unsent) p = Keeps-lift _
  use_result-Extending (err GatewayError.possibly_sent) p = Keeps-lift _
  use_result-Extending (err (GatewayError.rejected e)) p = Keeps-lift _
  use_result-Extending (err (GatewayError.invalid_response e)) p = Keeps-lift _
  use_result-Extending (err (GatewayError.unavailable e)) p = Keeps-lift _

  call_gateway-Extending :
      (messages : List ChatMessage) → KeepsPermissions before agent (call_gateway agent messages)
  unfolding call_gateway
  call_gateway-Extending messages = record { from = λ s h. h }

  pass-Extending : (p : Progress) → KeepsPermissions before agent (pass agent p)
  unfolding pass
  pass-Extending p = Keeps-bind _ _ (is_cancelled-Extending before agent) (λ cancelled.
      Keeps-if cancelled _ _ (Keeps-pure _) (
        Keeps-bind _ _ (call_gateway-Extending p.messages)
          (λ result. use_result-Extending result (record p { step = suc p.step }))))

  run_from-Extending :
      (fuel : ℕ) (p : Progress) → KeepsPermissions before agent (run_from fuel agent p)
  unfolding run_from
  run_from-Extending zero p =
      Keeps-if (at_limit agent.options p.step) _ _ (Keeps-pure _) (Keeps-lift _)
  run_from-Extending (suc fuel) p =
      Keeps-if (at_limit agent.options p.step) _ _ (Keeps-pure _)
        (Keeps-bind _ _ (pass-Extending p) (λ b. next (run_from-Extending fuel) b))
    where
      next :
          ((q : Progress) → KeepsPermissions before agent (run_from fuel agent q))
          → (b : Pass) → KeepsPermissions before agent (go_on (run_from fuel agent) b)
      next ih (Pass.next q) = unfold go_on in ih q
      next ih (Pass.stop result) = unfold go_on in Keeps-pure result

-- A run, however it ends and whatever the approval handler answers, leaves the decision on each
-- permission request as it was, or turns it into a permission; what was denied before the run is
-- denied after it.
pub run_controlled-Extends :
    {W V : Type 0} (fuel : ℕ) (agent : Agent W V) (request : AgentRequest) (s : RunState W V)
    → Extends s.permissions (run_controlled fuel agent request s).1.permissions
unfolding run_controlled
run_controlled-Extends fuel agent request s =
    (run_from-Extending s.permissions agent fuel _).from s (Extends-refl s.permissions)
