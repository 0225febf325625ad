-- ===== src/Agent/Batch.antt =====
-- The execution of one response's tool calls (crates/fx-core/src/agent.rs, lines 351 to 413 and 486
-- to 535).
pub mod Fueled
pub mod Answered
pub mod Permissions
use fx_rs.Base.{
  ℕ, zero, suc, Bool, true, false, Option, none, some, List, [], ◌∷◌, ◌++◌, Text, text, leb,
  if◌then◌else◌, Result, len, length, take, drop, get_or, map,
}
use fx_rs.Base.Exec.{pure, lift, ◌>>=◌, ◌>>◌}
use fx_rs.Agent.Admission.{Outcome, LocalToolAdmission, cancelled_output, admit_local_tool}
use fx_rs.Agent.Join.{run_joined}
use fx_rs.Agent.Output.{error_output, finalize_tool_output}
use fx_rs.Agent.Targets.{is_provider, is_malformed, parallel_read_prefix_len}
use fx_rs.Agent.Types.{Agent, AgentEvent, Failure, RunState, Run, on_world, emit}
use fx_rs.Message.{ToolCall}
use fx_rs.Tools.Types.{ToolOutput}

-- What a call that another provider executed has for its outcome.
unfoldable pub provider_outcome : {V : Type 0} → Option Text → Outcome V
provider_outcome result =
    let content : Text = elim result [
      | none ↦ text "provider-executed tool returned no result"
      | some content ↦ content
    ] in
    (
      record {
        content = content;
        is_error = false;
        structured = none;
        original_bytes = len content;
        truncated = false;
        durable_content = none;
      },
      false,
    )

-- The outcome of a future that is awaited alone.
abbrev pub first_outcome : {V : Type 0} → List (Outcome V) → Result Failure (Outcome V)
first_outcome [] = Result.err Failure.out_of_fuel
first_outcome (outcome ∷ outcomes) = Result.ok outcome

unfoldable pub deferred_output : {V : Type 0} → ToolOutput V
deferred_output = error_output (
    text
      "tool execution deferred because new scoped project instructions were loaded; review the new rules and retry the action")

module _ {W V : Type 0} where
  abbrev pub emit_tool_started : ToolCall → Run W V (Unit {0})
  emit_tool_started call = emit (AgentEvent.tool_started call.id call.name call.arguments_json)

  abbrev pub emit_tool_finished : ToolCall → ToolOutput V → Run W V (Unit {0})
  emit_tool_finished call output =
      emit (AgentEvent.tool_finished call.id call.name output.is_error output)

  unfoldable pub execute_one_tool : Agent W V → ToolCall → Run W V (Outcome V)
  execute_one_tool agent call =
      if is_provider call.provenance
      then pure (provider_outcome call.provider_result)
      else if is_malformed call.argument_integrity
      then pure (error_output (text "tool arguments were malformed JSON"), false)
      else (do
        admission ← admit_local_tool agent call
        outcomes ← run_joined agent.context (admission ∷ [])
        lift (first_outcome outcomes))

  unfoldable pub start_all : List ToolCall → Run W V (Unit {0})
  start_all [] = pure tt
  start_all (call ∷ calls) = do emit_tool_started call; start_all calls

  unfoldable pub admit_all : Agent W V → List ToolCall → Run W V (List (LocalToolAdmission W V))
  admit_all agent [] = pure []
  admit_all agent (call ∷ calls) = do
    admission ← admit_local_tool agent call
    admissions ← admit_all agent calls
    pure (admission ∷ admissions)

  unfoldable pub finish : Agent W V → ToolCall → Outcome V → Run W V (Outcome V)
  finish agent call (output, feedback) = do
    output' ← finalize_tool_output agent.context call output
    emit_tool_finished call output'
    pure (output', feedback)

  unfoldable pub finish_all :
      Agent W V → List ToolCall → List (Outcome V) → Run W V (List (Outcome V))
  finish_all agent (call ∷ calls) (outcome ∷ outcomes) = do
    outcome' ← finish agent call outcome
    outcomes' ← finish_all agent calls outcomes
    pure (outcome' ∷ outcomes')
  finish_all agent calls outcomes = pure outcomes

  unfoldable pub defer : ToolCall → Run W V (List (Outcome V))
  defer call = do
    emit_tool_started call
    emit_tool_finished call deferred_output
    pure ((deferred_output, false) ∷ [])

  unfoldable pub execute_parallel : Agent W V → List ToolCall → Run W V (List (Outcome V))
  execute_parallel agent batch = do
    start_all batch
    admissions ← admit_all agent batch
    completed ← run_joined agent.context admissions
    finish_all agent batch completed

  unfoldable pub execute_single : Agent W V → ToolCall → Run W V (List (Outcome V))
  execute_single agent call = do
    emit_tool_started call
    outcome ← execute_one_tool agent call
    outcome' ← finish agent call outcome
    pure (outcome' ∷ [])

  -- The number of calls that the next round of the loop executes, and how.
  unfoldable pub round :
      Agent W V → ToolCall → List ToolCall → Bool → ℕ × Run W V (List (Outcome V))
  round agent call calls deferred =
      let parallel_len = parallel_read_prefix_len agent (call ∷ calls) in
      if deferred
      then (1, defer call)
      else if leb 2 parallel_len
      then (parallel_len, execute_parallel agent (take parallel_len (call ∷ calls)))
      else (1, execute_single agent call)

  unfoldable pub is_cancelled : Agent W V → Run W V Bool
  is_cancelled agent s =
      let (cancelled, s') = on_world agent.context.is_cancelled s in (Result.ok cancelled, s')

  -- `execute_tool_batch` from some call on; each round takes at least one call, so that fuel for the
  -- number of calls is enough.
  unfoldable pub execute_from :
      ℕ → Agent W V → List ToolCall → List Bool → Run W V (List (Outcome V))
  execute_from fuel agent [] context_deferred = pure []
  execute_from zero agent (call ∷ calls) context_deferred = lift (Result.err Failure.out_of_fuel)
  execute_from (suc fuel) agent (call ∷ calls) context_deferred = do
    cancelled ← is_cancelled agent
    let (count, execute) = round agent call calls (get_or context_deferred 0 false)
    if cancelled then pure (map (λ _. (cancelled_output, false)) (call ∷ calls)) else (do
      outcomes ← execute
      rest ← execute_from fuel agent (drop count (call ∷ calls)) (drop count context_deferred)
      pure (outcomes ++ rest))

  unfoldable pub execute_tool_batch :
      Agent W V → List ToolCall → List Bool → Run W V (List (Outcome V))
  execute_tool_batch agent calls context_deferred =
      execute_from (length calls) agent calls context_deferred
