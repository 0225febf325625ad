-- ===== src/Agent/Batch/Permissions.antt =====
-- What the execution of tool calls does to the permissions (crates/fx-core/src/agent.rs, lines 351 to
-- 413 and 486 to 535).
use fx_rs.Base.{
  ℕ, zero, suc, Bool, false, List, [], ◌∷◌, Text, leb, Result, length, get_or, if_both, option_both,
  ltb, len,
}
use fx_rs.Base.Keeps.{Keeps, Keeps-pure, Keeps-lift, Keeps-if, Keeps-bind}
use fx_rs.Agent.Admission.{Outcome, LocalToolAdmission}
use fx_rs.Agent.Admission.Denied.{Extending, admit_local_tool-Extending}
use fx_rs.Agent.Batch.{
  execute_one_tool, start_all, admit_all, finish, finish_all, defer, execute_parallel,
  execute_single, round, is_cancelled, execute_from, execute_tool_batch,
}
use fx_rs.Agent.Join.{join_ordered, run_joined}
use fx_rs.Agent.Output.{finalize_tool_output, finalize_durable}
use fx_rs.Agent.Targets.{is_provider, is_malformed, parallel_read_prefix_len}
use fx_rs.Agent.Types.{Agent, Failure, RunState, Run}
use fx_rs.Message.{ToolCall}
use fx_rs.Permission.Engine.{PermissionEngine}
use fx_rs.Redaction.Secrets.{redact_secrets}
use fx_rs.Tools.Types.{ToolOutput, large_tool_result_bytes}

module _ {W V : Type 0} (before : PermissionEngine) (agent : Agent W V) where
  abbrev pub KeepsPermissions : {A : Type 0} → Run W V A → Type 0
  KeepsPermissions m = Keeps (Extending before) m

  run_joined-Extending :
      (l : List (LocalToolAdmission W V)) → KeepsPermissions (run_joined agent.context l)
  unfolding run_joined
  run_joined-Extending l = record {
    from = λ s h.
        option_both (λ (r : Result Failure (List (Outcome V)) × RunState W V). Extending before r.1)
          (join_ordered agent.context l s.world).0 _ _ h (λ os. h);
  }

  finalize_durable-Extending :
      (call : ToolCall) (output : ToolOutput V) (durable : Text)
      → KeepsPermissions (finalize_durable agent.context call output durable)
  unfolding finalize_durable
  finalize_durable-Extending call output durable = record {
    from = λ s h.
        option_both Kept agent.context.tool_results _ _ h
          (λ store. if_both Kept (ltb large_tool_result_bytes (len durable)) _ _ h h);
  }
    where
      Kept : Result Failure (ToolOutput V) × RunState W V → Type 0
      Kept r = Extending before r.1

  finalize_tool_output-Extending :
      (call : ToolCall) (output : ToolOutput V)
      → KeepsPermissions (finalize_tool_output agent.context call output)
  unfolding finalize_tool_output
  finalize_tool_output-Extending call output = record {
    from = λ s h.
        option_both Kept output.durable_content _ _
          (option_both Kept (redact_secrets output.content) _ _ h (λ cow. h))
          (λ durable.
            option_both Kept (redact_secrets durable) _ _ h
              (λ cow. (finalize_durable-Extending call _ _).from s h));
  }
    where
      Kept : Result Failure (ToolOutput V) × RunState W V → Type 0
      Kept r = Extending before r.1

  finish-Extending : (call : ToolCall) (o : Outcome V) → KeepsPermissions (finish agent call o)
  unfolding finish
  finish-Extending call (output, feedback) =
      Keeps-bind _ _ (finalize_tool_output-Extending call output)
        (λ output'. record { from = λ s h. h })

  finish_all-Extending :
      (calls : List ToolCall) (os : List (Outcome V)) → KeepsPermissions (finish_all agent calls os)
  unfolding finish_all
  finish_all-Extending (call ∷ calls) (o ∷ os) =
      Keeps-bind _ _ (finish-Extending call o)
        (λ o'. Keeps-bind _ _ (finish_all-Extending calls os) (λ l. Keeps-pure _))
  finish_all-Extending [] os = Keeps-pure _
  finish_all-Extending (call ∷ calls) [] = Keeps-pure _

  start_all-Extending : (calls : List ToolCall) → KeepsPermissions (start_all calls)
  unfolding start_all
  start_all-Extending [] = Keeps-pure _
  start_all-Extending (call ∷ calls) = record { from = λ s h. (start_all-Extending calls).from _ h }

  admit_all-Extending : (calls : List ToolCall) → KeepsPermissions (admit_all agent calls)
  unfolding admit_all
  admit_all-Extending [] = Keeps-pure _
  admit_all-Extending (call ∷ calls) =
      Keeps-bind _ _ (admit_local_tool-Extending before agent call)
        (λ a. Keeps-bind _ _ (admit_all-Extending calls) (λ l. Keeps-pure _))

  execute_parallel-Extending :
      (batch : List ToolCall) → KeepsPermissions (execute_parallel agent batch)
  unfolding execute_parallel
  execute_parallel-Extending batch = Keeps-bind _ _ (start_all-Extending batch) (λ u.
      Keeps-bind _ _ (admit_all-Extending batch)
        (λ l. Keeps-bind _ _ (run_joined-Extending l) (λ os. finish_all-Extending batch os)))

  execute_one_tool-Extending : (call : ToolCall) → KeepsPermissions (execute_one_tool agent call)
  unfolding execute_one_tool
  execute_one_tool-Extending call = Keeps-if (is_provider call.provenance) _ _ (Keeps-pure _) (
      Keeps-if (is_malformed call.argument_integrity) _ _ (Keeps-pure _) (
        Keeps-bind _ _ (admit_local_tool-Extending before agent call)
          (λ a. Keeps-bind _ _ (run_joined-Extending (a ∷ [])) (λ os. Keeps-lift _))))

  execute_single-Extending : (call : ToolCall) → KeepsPermissions (execute_single agent call)
  unfolding execute_single
  execute_single-Extending call = record {
    from = λ s h.
        (Keeps-bind _ _ (execute_one_tool-Extending call)
            (λ o. Keeps-bind _ _ (finish-Extending call o) (λ o'. Keeps-pure _))).from
          _ h;
  }

  defer-Extending : (call : ToolCall) → KeepsPermissions (defer call)
  unfolding defer
  defer-Extending call = record { from = λ s h. h }

  round-Extending :
      (call : ToolCall) (calls : List ToolCall) (deferred : Bool)
      → KeepsPermissions (round agent call calls deferred).1
  unfolding round
  round-Extending call calls deferred = if_both Kept deferred _ _ (defer-Extending call) (
      if_both Kept (leb 2 (parallel_read_prefix_len agent (call ∷ calls))) _ _
        (execute_parallel-Extending _) (execute_single-Extending call))
    where
      Kept : ℕ × Run W V (List (Outcome V)) → Type 0
      Kept r = KeepsPermissions r.1

  pub is_cancelled-Extending : KeepsPermissions (is_cancelled agent)
  unfolding is_cancelled
  is_cancelled-Extending = record { from = λ s h. h }

  execute_from-Extending :
      (fuel : ℕ) (calls : List ToolCall) (deferred : List Bool)
      → KeepsPermissions (execute_from fuel agent calls deferred)
  unfolding execute_from
  execute_from-Extending zero [] deferred = Keeps-pure _
  execute_from-Extending (suc fuel) [] deferred = Keeps-pure _
  execute_from-Extending zero (call ∷ calls) deferred = Keeps-lift _
  execute_from-Extending (suc fuel) (call ∷ calls) deferred =
      Keeps-bind _ _ is_cancelled-Extending (λ cancelled. Keeps-if cancelled _ _ (Keeps-pure _) (
        Keeps-bind _ _ (round-Extending call calls (get_or deferred 0 false))
          (λ os. Keeps-bind _ _ (execute_from-Extending fuel _ _) (λ rest. Keeps-pure _))))

  pub execute_tool_batch-Extending :
      (calls : List ToolCall) (deferred : List Bool)
      → KeepsPermissions (execute_tool_batch agent calls deferred)
  unfolding execute_tool_batch
  execute_tool_batch-Extending calls deferred = execute_from-Extending (length calls) calls deferred
