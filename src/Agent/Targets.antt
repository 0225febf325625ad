-- ===== src/Agent/Targets.antt =====
-- Parallel reads, and the project context that calls bring in (crates/fx-core/src/agent.rs, lines 415
-- to 484).
pub mod Deferral
use fx_rs.Base.{
  ℕ, zero, suc, Bool, true, false, not, ◌&&◌, Option, none, some, List, [], ◌∷◌, ◌++◌, Text,
  text_eq, ltb, ◌==◌, if◌then◌else◌, Result, length, take, drop, replicate, count_while, is_nil,
}
use fx_rs.Agent.Types.{Agent, AgentError, Failure, RunState, Run, on_world}
use fx_rs.Message.{
  Role, ToolArgumentIntegrity, ToolExecutionProvenance, ToolCall, ChatMessage, text_message,
  role_eq,
}
use fx_rs.Permission.Engine.{ToolEffect}
use fx_rs.Permission.FilePath.{path_eq}
use fx_rs.Permission.FilePath.Order.{path_ltb}
use fx_rs.Tools.Registry.{validate_call}
use fx_rs.Tools.Types.{ToolError, Tool}

abbrev pub is_provider : ToolExecutionProvenance → Bool
is_provider ToolExecutionProvenance.provider = true
is_provider ToolExecutionProvenance.fx_local = false

abbrev pub is_malformed : ToolArgumentIntegrity → Bool
is_malformed ToolArgumentIntegrity.malformed_json = true
is_malformed ToolArgumentIntegrity.valid = false

-- The call is for a local tool, and its arguments were JSON.
abbrev pub is_local : ToolCall → Bool
is_local call = not (is_provider call.provenance) && not (is_malformed call.argument_integrity)

-- `matches!(effect, Ok(ToolEffect::Read))`.
abbrev pub is_read : Result ToolError ToolEffect → Bool
is_read (Result.ok ToolEffect.read) = true
is_read _ = false

-- `BTreeSet::insert`, on the sorted list of the set: paths go by their components.
unfoldable pub insert_target : Text → List Text → List Text
insert_target target [] = target ∷ []
insert_target target (t ∷ targets) =
    let rest = insert_target target targets in
    if path_eq target t
    then t ∷ targets
    else if path_ltb target t
    then target ∷ (t ∷ targets)
    else t ∷ rest

unfoldable pub insert_targets : List Text → List Text → List Text
insert_targets [] targets = targets
insert_targets (t ∷ ts) targets = insert_targets ts (insert_target t targets)

-- A system message behind those at the beginning.
unfoldable pub insert_stable_system_context : Text → List ChatMessage → List ChatMessage
insert_stable_system_context content messages =
    let prefix_end = count_while (λ (m : ChatMessage). role_eq m.role Role.system) messages in
    take prefix_end messages ++ (text_message Role.system content ∷ drop prefix_end messages)

module _ {W V : Type 0} where
  -- What a call's validated tool says of it, for a local call.
  unfoldable pub reads : Agent W V → ToolCall → Bool
  reads agent call = elim (validate_call agent.json agent.tools call) [
    | Result.err error ↦ false
    | Result.ok (tool, arguments) ↦ is_local call && is_read (tool.effect arguments)
  ]

  unfoldable pub parallel_read_prefix_len : Agent W V → List ToolCall → ℕ
  parallel_read_prefix_len agent calls = count_while (reads agent) calls

  -- The targets of a call, and whether the call is sensitive; no targets where the loop goes on.
  unfoldable pub call_targets : Agent W V → W → ToolCall → List Text × Bool
  call_targets agent w call = elim (validate_call agent.json agent.tools call) [
    | Result.err error ↦ ([], false)
    | Result.ok (tool, arguments) ↦ elim (tool.project_context_targets arguments w) [
      | Result.err error ↦ ([], false)
      | Result.ok targets ↦
          if is_local call && not (is_nil targets)
          then (targets, not (is_read (tool.effect arguments)))
          else ([], false)
    ]
  ]

  -- The targets of all calls, and for each call whether it is sensitive and has targets.
  unfoldable pub collect_targets : Agent W V → W → List ToolCall → List Text → List Text × List Bool
  collect_targets agent w [] targets = (targets, [])
  collect_targets agent w (call ∷ calls) targets =
      let (call_targets, sensitive) = call_targets agent w call in
      let (all_targets, deferred) =
        collect_targets agent w calls (insert_targets call_targets targets) in
      (all_targets, sensitive ∷ deferred)

  unfoldable pub settle_context :
      List Bool → List Bool → Result Text (Option Text) → Run W V (Option Text × List Bool)
  settle_context deferred none_deferred (Result.err e) s =
      (Result.err (Failure.error (AgentError.project_context_unavailable e)), s)
  settle_context deferred none_deferred (Result.ok none) s = (Result.ok (none, none_deferred), s)
  settle_context deferred none_deferred (Result.ok (some delta)) s =
      (Result.ok (some delta, deferred), s)

  -- The new project context, and which calls it defers.
  unfoldable pub select_scoped_project_context :
      Agent W V → List ToolCall → Run W V (Option Text × List Bool)
  select_scoped_project_context agent calls s =
      let none_deferred = replicate (length calls) false in
      elim agent.context.project_context [
        | none ↦ (Result.ok (none, none_deferred), s)
        | some select ↦
            let (targets, deferred) = collect_targets agent s.world calls [] in
            let (answer, s') = on_world (select targets) s in
            if is_nil targets
            then (Result.ok (none, none_deferred), s)
            else settle_context deferred none_deferred answer s'
      ]
