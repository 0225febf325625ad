-- ===== src/Agent/Admission/Permitted.antt =====
-- Which admissions execute (crates/fx-core/src/agent.rs, lines 574 to 671).
use fx_rs.Base.{
  ◌≡◌, refl, ◌⊎◌, inl, inr, Bool, true, false, ◌||◌, Option, none, some, List, [], ◌∷◌, Text, text,
  if◌then◌else◌, Result, ok, err, any, map, arith, if_both,
}
use fx_rs.Base.Exec.{continue}
use fx_rs.Agent.Admission.{
  LocalToolAdmission, is_ask, is_auto_review, preparation_requests, review_kind, review_request,
  settle_approval, authorize, admit, conclude, admit_prepared, admit_validated, admit_local_tool,
}
use fx_rs.Agent.Output.{error_output}
use fx_rs.Agent.Types.{ApprovalDecision, ApprovalKind, Agent, AgentError, Failure, RunState}
use fx_rs.Message.{ToolCall}
use fx_rs.Permission.Engine.{PermissionEngine, PermissionRequest, PermissionDecision, decide}
use fx_rs.Permission.Engine.Precedence.{is_deny}
use fx_rs.Tools.Registry.{validate_call}
use fx_rs.Tools.Types.{ToolError, Tool, ToolOutput, ToolPreparation}

-- No request of the list is denied.
pub data NoneDenied (engine : PermissionEngine) : List PermissionRequest → Type 0 where
  nil : NoneDenied engine []
  cons :
      (r : PermissionRequest) (rs : List PermissionRequest)
      → is_deny (decide engine r) ≡ false
      → NoneDenied engine rs
      → NoneDenied engine (r ∷ rs)

NoneDenied-intro :
    (engine : PermissionEngine) (rs : List PermissionRequest)
    → any is_deny (map (decide engine) rs) ≡ false
    → NoneDenied engine rs
NoneDenied-intro engine [] h = NoneDenied.nil
NoneDenied-intro engine (r ∷ rs) h =
    NoneDenied.cons r rs (ground arith) (NoneDenied-intro engine rs (ground arith))

-- A request of the list is put to a review.
abbrev pub is_reviewed : PermissionEngine → List PermissionRequest → Bool
is_reviewed engine requests =
    any is_ask (map (decide engine) requests) || any is_auto_review (map (decide engine) requests)

module _ {W V : Type 0} (agent : Agent W V) (call : ToolCall) where
  -- The answer of the approval handler on a prepared call.
  abbrev pub answer : Tool W V → ToolPreparation W V → RunState W V → Result Text ApprovalDecision
  answer tool preparation s =
      (agent.review
        (review_request call tool preparation
          (map (decide s.permissions) (preparation_requests preparation)))
        s.world).0

  -- The permissions let a prepared call through: none of its requests is denied, and if one is
  -- reviewed, the approval handler was asked and allowed them.
  pub record Authorized (tool : Tool W V) (preparation : ToolPreparation W V) (s : RunState W V)
      : Type 0 where
    pub none_denied : NoneDenied s.permissions (preparation_requests preparation)
    pub approved :
        is_reviewed s.permissions (preparation_requests preparation) ≡ true
        → (answer tool preparation s ≡ ok ApprovalDecision.allow_once)
          ⊎ (answer tool preparation s ≡ ok ApprovalDecision.allow_for_session)

  -- The ways in which an admission may come out: without an approval handler's answer, held back with
  -- an error for the model, or executing.
  pub data Guarded (s : RunState W V) : Result Failure (LocalToolAdmission W V) → Type 0 where
    unavailable : (e : Text) → Guarded s (err (Failure.error (AgentError.approval_unavailable e)))
    held_back :
        (out : ToolOutput V) (feedback : Bool)
        → out.is_error ≡ true
        → Guarded s (ok (LocalToolAdmission.immediate out feedback))
    executes :
        (tool : Tool W V) (arguments : V) (preparation : ToolPreparation W V)
        → validate_call agent.json agent.tools call ≡ ok (tool, arguments)
        → (tool.prepare arguments s.world).0 ≡ ok preparation
        → Authorized tool preparation (record s { world = (tool.prepare arguments s.world).1 })
        → Guarded s (ok (admit tool arguments preparation))

  -- What `authorize` may come to.
  data Verdict (tool : Tool W V) (preparation : ToolPreparation W V) (s : RunState W V)
      : Result Failure (Option Text) → Type 0 where
    refused : (reason : Text) → Verdict tool preparation s (ok (some reason))
    allowed : Authorized tool preparation s → Verdict tool preparation s (ok none)
    unavailable :
        (e : Text)
        → Verdict tool preparation s (err (Failure.error (AgentError.approval_unavailable e)))

  settle_approval-Verdict :
      (tool : Tool W V) (preparation : ToolPreparation W V) (s s' : RunState W V)
      (decisions : List PermissionDecision) (kind : ApprovalKind) (r : Result Text ApprovalDecision)
      → NoneDenied s.permissions (preparation_requests preparation)
      → answer tool preparation s ≡ r
      → Verdict tool preparation s
          (settle_approval kind (preparation_requests preparation) decisions r s').0
  unfolding settle_approval
  settle_approval-Verdict tool preparation s s' decisions kind (err e) none_denied h =
      Verdict.unavailable e
  settle_approval-Verdict tool preparation s s' decisions kind (ok ApprovalDecision.allow_once)
        none_denied h =
      Verdict.allowed (record { none_denied = none_denied; approved = λ _. inl h })
  settle_approval-Verdict tool preparation s s' decisions kind
        (ok ApprovalDecision.allow_for_session) none_denied h =
      Verdict.allowed (record { none_denied = none_denied; approved = λ _. inr h })
  settle_approval-Verdict tool preparation s s' decisions kind (ok ApprovalDecision.deny)
        none_denied h =
      Verdict.refused _

  authorize-Verdict :
      (tool : Tool W V) (preparation : ToolPreparation W V) (s : RunState W V)
      → Verdict tool preparation s (authorize agent call tool preparation s).0
  unfolding authorize
  authorize-Verdict tool preparation s = by_denial (any is_deny decisions) refl
    where
      requests : List PermissionRequest
      requests = preparation_requests preparation

      decisions : List PermissionDecision
      decisions = map (decide s.permissions) requests

      settled : Result Failure (Option Text) × RunState W V
      settled =
          settle_approval (review_kind decisions) requests decisions (answer tool preparation s)
            (record s {
              world = (agent.review (review_request call tool preparation decisions) s.world).1;
            })

      by_review :
          (b : Bool)
          → is_reviewed s.permissions requests ≡ b
          → NoneDenied s.permissions requests
          → Verdict tool preparation s (if b then settled else (ok none, s)).0
      by_review true h none_denied =
          settle_approval-Verdict tool preparation s _ decisions _ _ none_denied refl
      by_review false h none_denied =
          Verdict.allowed (record { none_denied = none_denied; approved = λ e. cc })

      by_denial :
          (b : Bool)
          → any is_deny decisions ≡ b
          → Verdict tool preparation s
              (if b
                then (ok (some (text "tool permission denied")), s)
                else (if is_reviewed s.permissions requests then settled else (ok none, s))).0
      by_denial true h = Verdict.refused _
      by_denial false h =
          by_review (is_reviewed s.permissions requests) refl
            (NoneDenied-intro s.permissions requests h)

  module _ (s : RunState W V) where
    held :
        (reason : Text) (feedback : Bool)
        → Guarded s (ok (LocalToolAdmission.immediate (error_output reason) feedback))
    unfolding error_output
    held reason feedback = Guarded.held_back _ _ refl

    conclude-Guarded :
        (tool : Tool W V) (arguments : V) (preparation : ToolPreparation W V)
        (r : Result Failure (Option Text)) (s' : RunState W V)
        → validate_call agent.json agent.tools call ≡ ok (tool, arguments)
        → (tool.prepare arguments s.world).0 ≡ ok preparation
        → Verdict tool preparation (record s { world = (tool.prepare arguments s.world).1 }) r
        → Guarded s (continue r (conclude agent tool arguments preparation) s').0
    unfolding conclude
    conclude-Guarded tool arguments preparation r s' valid ready (Verdict.unavailable e) =
        Guarded.unavailable e
    conclude-Guarded tool arguments preparation r s' valid ready (Verdict.refused reason) = held _ _
    conclude-Guarded tool arguments preparation r s' valid ready (Verdict.allowed authorized) =
        if_both (λ (a : LocalToolAdmission W V). Guarded s (ok a)) _ _ _ (held _ _)
          (Guarded.executes tool arguments preparation valid ready authorized)

    admit_prepared-Guarded :
        (tool : Tool W V) (arguments : V) (r : Result ToolError (ToolPreparation W V))
        → validate_call agent.json agent.tools call ≡ ok (tool, arguments)
        → (tool.prepare arguments s.world).0 ≡ r
        → Guarded s
            (admit_prepared agent call tool arguments r
              (record s { world = (tool.prepare arguments s.world).1 })).0
    unfolding admit_prepared
    admit_prepared-Guarded tool arguments (err e) valid ready = held _ _
    admit_prepared-Guarded tool arguments (ok preparation) valid ready =
        conclude-Guarded tool arguments preparation _ _ valid ready
          (authorize-Verdict tool preparation _)

    admit_validated-Guarded :
        (r : Result ToolError (Tool W V × V))
        → validate_call agent.json agent.tools call ≡ r
        → Guarded s (admit_validated agent call r s).0
    unfolding admit_validated
    admit_validated-Guarded (err e) valid = held _ _
    admit_validated-Guarded (ok (tool, arguments)) valid =
        admit_prepared-Guarded tool arguments (tool.prepare arguments s.world).0 valid refl

    -- A call executes only when its arguments are valid, its tool prepared it, none of the
    -- preparation's permission requests is denied, and the approval handler allowed them where one
    -- is to be asked or reviewed. Otherwise the run fails since the handler gave no answer, or the
    -- call is held back with an output that is an error.
    pub admit_local_tool-Guarded : Guarded s (admit_local_tool agent call s).0
    unfolding admit_local_tool
    admit_local_tool-Guarded =
        admit_validated-Guarded (validate_call agent.json agent.tools call) refl
