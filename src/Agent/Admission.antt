-- ===== src/Agent/Admission.antt =====
-- The admission of local tool calls (crates/fx-core/src/agent.rs, lines 537 to 671).
pub mod Denied
pub mod Permitted
use fx_rs.Base.{
  ℕ, Bool, true, false, ◌||◌, Option, none, some, List, [], ◌∷◌, Text, text, if◌then◌else◌, Result,
  map, any,
}
use fx_rs.Base.Exec.{pure, continue, ◌>>=◌}
use fx_rs.Agent.Output.{error_output}
use fx_rs.Agent.Types.{
  ApprovalDecision, ApprovalKind, ApprovalRequest, AgentError, Failure, Agent, ToolContext,
  RunState, Run, on_world,
}
use fx_rs.Message.{ToolCall}
use fx_rs.Permission.Engine.{
  PermissionEngine, PermissionRequest, PermissionDecision, decide, grant_request_for_session,
}
use fx_rs.Permission.Engine.Precedence.{is_deny}
use fx_rs.Tools.Registry.{validate_call}
use fx_rs.Tools.Types.{
  ToolOutput, ToolError, tool_error_text, ToolReview, Task, PreparedToolCall, ToolPreparation, Tool,
}

-- An output and whether the call was refused by a permission.
abbrev pub Outcome : Type 0 → Type 0
Outcome V = ToolOutput V × Bool

-- `direct` has the future of the tool's `execute`.
pub data LocalToolAdmission (W V : Type 0) : Type 0 where
  immediate : ToolOutput V → Bool → LocalToolAdmission W V
  direct : Task W V → LocalToolAdmission W V
  prepared : PreparedToolCall W V → LocalToolAdmission W V

abbrev pub is_ask : PermissionDecision → Bool
is_ask PermissionDecision.ask = true
is_ask _ = false

abbrev pub is_auto_review : PermissionDecision → Bool
is_auto_review PermissionDecision.auto_review = true
is_auto_review _ = false

-- `AllowForSession`: each request that was not allowed by itself is granted.
unfoldable pub grant_asked :
    PermissionEngine → List PermissionRequest → List PermissionDecision → PermissionEngine
grant_asked engine [] decisions = engine
grant_asked engine (request ∷ requests) [] = engine
grant_asked engine (request ∷ requests) (decision ∷ decisions) =
    grant_asked
      (if is_ask decision || is_auto_review decision
        then grant_request_for_session engine request
        else engine)
      requests decisions

unfoldable pub denial_reason : ApprovalKind → Text
denial_reason ApprovalKind.user = text "tool permission denied by user"
denial_reason ApprovalKind.automatic = text "tool permission denied by automatic safety review"

-- The kind of the review that the decisions ask for.
unfoldable pub review_kind : List PermissionDecision → ApprovalKind
review_kind decisions = if any is_ask decisions then ApprovalKind.user else ApprovalKind.automatic

abbrev pub cancelled_output : {V : Type 0} → ToolOutput V
cancelled_output = error_output (tool_error_text ToolError.cancelled)

module _ {W V : Type 0} where
  unfoldable pub preparation_requests : ToolPreparation W V → List PermissionRequest
  preparation_requests (ToolPreparation.direct requests irreversible) = requests
  preparation_requests (ToolPreparation.prepared action) = action.permission_requests

  unfoldable pub preparation_irreversible : ToolPreparation W V → Bool
  preparation_irreversible (ToolPreparation.direct requests irreversible) = irreversible
  preparation_irreversible (ToolPreparation.prepared action) = action.irreversible

  unfoldable pub preparation_review : ToolPreparation W V → Option ToolReview
  preparation_review (ToolPreparation.direct requests irreversible) = none
  preparation_review (ToolPreparation.prepared action) = action.review

  unfoldable pub review_request :
      ToolCall → Tool W V → ToolPreparation W V → List PermissionDecision → ApprovalRequest
  review_request call tool preparation decisions = record {
    kind = review_kind decisions;
    tool_call_id = call.id;
    tool_name = tool.name;
    arguments_json = call.arguments_json;
    permission_requests = preparation_requests preparation;
    irreversible = preparation_irreversible preparation;
    review = preparation_review preparation;
  }

  -- What the answer of the approval handler does; the result is the reason of a refusal.
  unfoldable pub settle_approval :
      ApprovalKind
      → List PermissionRequest
      → List PermissionDecision
      → Result Text ApprovalDecision
      → Run W V (Option Text)
  settle_approval kind requests decisions (Result.err e) s =
      (Result.err (Failure.error (AgentError.approval_unavailable e)), s)
  settle_approval kind requests decisions (Result.ok ApprovalDecision.allow_once) s =
      (Result.ok none, s)
  settle_approval kind requests decisions (Result.ok ApprovalDecision.allow_for_session) s =
      (Result.ok none, record s { permissions = grant_asked s.permissions requests decisions })
  settle_approval kind requests decisions (Result.ok ApprovalDecision.deny) s =
      (Result.ok (some (denial_reason kind)), s)

  -- The permissions of a preparation; the result is the reason of a refusal.
  unfoldable pub authorize :
      Agent W V → ToolCall → Tool W V → ToolPreparation W V → Run W V (Option Text)
  authorize agent call tool preparation s =
      let requests = preparation_requests preparation in
      let decisions = map (decide s.permissions) requests in
      let (answer, s') =
        on_world (agent.review (review_request call tool preparation decisions)) s in
      if any is_deny decisions
      then (Result.ok (some (text "tool permission denied")), s)
      else if any is_ask decisions || any is_auto_review decisions
      then settle_approval (review_kind decisions) requests decisions answer s'
      else (Result.ok none, s)

  unfoldable pub admit : Tool W V → V → ToolPreparation W V → LocalToolAdmission W V
  admit tool arguments (ToolPreparation.direct requests irreversible) =
      LocalToolAdmission.direct (tool.execute arguments)
  admit tool arguments (ToolPreparation.prepared action) = LocalToolAdmission.prepared action

  -- The last look at the cancellation, unless the permissions refused the call.
  unfoldable pub conclude :
      Agent W V
      → Tool W V
      → V
      → ToolPreparation W V
      → Option Text
      → Run W V (LocalToolAdmission W V)
  conclude agent tool arguments preparation (some reason) s =
      (Result.ok (LocalToolAdmission.immediate (error_output reason) true), s)
  conclude agent tool arguments preparation none s =
      let (cancelled, s') = on_world agent.context.is_cancelled s in
      (
        Result.ok (
            if cancelled
            then LocalToolAdmission.immediate cancelled_output false
            else admit tool arguments preparation),
        s',
      )

  unfoldable pub admit_prepared :
      Agent W V
      → ToolCall
      → Tool W V
      → V
      → Result ToolError (ToolPreparation W V)
      → Run W V (LocalToolAdmission W V)
  admit_prepared agent call tool arguments (Result.err error) =
      pure (LocalToolAdmission.immediate (error_output (tool_error_text error)) false)
  admit_prepared agent call tool arguments (Result.ok preparation) =
      authorize agent call tool preparation >>= conclude agent tool arguments preparation

  unfoldable pub admit_validated :
      Agent W V → ToolCall → Result ToolError (Tool W V × V) → Run W V (LocalToolAdmission W V)
  admit_validated agent call (Result.err error) s =
      (Result.ok (LocalToolAdmission.immediate (error_output (tool_error_text error)) false), s)
  admit_validated agent call (Result.ok (tool, arguments)) s =
      let (preparation, s') = on_world (tool.prepare arguments) s in
      admit_prepared agent call tool arguments preparation s'

  unfoldable pub admit_local_tool : Agent W V → ToolCall → Run W V (LocalToolAdmission W V)
  admit_local_tool agent call =
      admit_validated agent call (validate_call agent.json agent.tools call)
