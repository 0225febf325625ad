-- ===== src/Agent/Admission/Denied.antt =====
-- What admissions do to the permissions (crates/fx-core/src/agent.rs, lines 574 to 671).
use fx_rs.Base.{
  ◌≡◌, refl, ◌⊎◌, inl, inr, false, not, ◌&&◌, ◌||◌, Option, none, some, List, [], ◌∷◌, Text,
  if◌then◌else◌, Result, any, map, arith, if_both,
}
use fx_rs.Base.Keeps.{Keeps, Keeps-pure, Keeps-bind}
use fx_rs.Agent.Admission.{
  is_ask, is_auto_review, grant_asked, preparation_requests, review_kind, review_request,
  settle_approval, authorize, conclude, admit_prepared, admit_validated, admit_local_tool,
}
use fx_rs.Agent.Types.{ApprovalDecision, ApprovalKind, Agent, Failure, RunState}
use fx_rs.Message.{ToolCall}
use fx_rs.Permission.Engine.{
  PermissionEngine, PermissionRequest, PermissionDecision, decide, grant_request_for_session,
}
use fx_rs.Permission.Engine.Precedence.{is_deny, same_grant, decide-grant_request}
use fx_rs.Tools.Registry.{validate_call}
use fx_rs.Tools.Types.{ToolError, Tool, ToolPreparation}

-- Every request is decided as before, or is allowed now and was not denied before.
pub record Extends (before after : PermissionEngine) : Type 0 where
  pub verdict :
      (r : PermissionRequest)
      → (decide after r ≡ decide before r)
        ⊎ ((decide after r ≡ PermissionDecision.allow) × (is_deny (decide before r) ≡ false))

pub Extends-refl : (e : PermissionEngine) → Extends e e
Extends-refl e = record { verdict = λ r. inl refl }

Extends-grant :
    (before e : PermissionEngine) (q : PermissionRequest)
    → Extends before e
    → Extends before (grant_request_for_session e q)
Extends-grant before e q h = record {
  verdict = λ r. step r (h.verdict r) (decide-grant_request e q r);
}
  where
    step :
        (r : PermissionRequest)
        → ((decide e r ≡ decide before r)
            ⊎ ((decide e r ≡ PermissionDecision.allow) × (is_deny (decide before r) ≡ false)))
        → decide (grant_request_for_session e q) r ≡ (
            if same_grant q r && not (is_deny (decide e r))
            then PermissionDecision.allow
            else decide e r)
        → (decide (grant_request_for_session e q) r ≡ decide before r)
          ⊎ ((decide (grant_request_for_session e q) r ≡ PermissionDecision.allow)
              × (is_deny (decide before r) ≡ false))
    step r (inl same) g = ground arith
    step r (inr (allowed, kept)) g = ground arith

Extends-grant_asked :
    (before e : PermissionEngine) (requests : List PermissionRequest)
    (decisions : List PermissionDecision)
    → Extends before e
    → Extends before (grant_asked e requests decisions)
unfolding grant_asked
Extends-grant_asked before e [] decisions h = h
Extends-grant_asked before e (q ∷ requests) [] h = h
Extends-grant_asked before e (q ∷ requests) (d ∷ decisions) h =
    Extends-grant_asked before
      (if is_ask d || is_auto_review d then grant_request_for_session e q else e) requests decisions
      (if_both (Extends before) (is_ask d || is_auto_review d) _ _ (Extends-grant before e q h) h)

module _ {W V : Type 0} where
  -- The permissions of the state extend those of the beginning.
  abbrev pub Extending : PermissionEngine → RunState W V → Type 0
  Extending before s = Extends before s.permissions

  module _ (before : PermissionEngine) (agent : Agent W V) (call : ToolCall) where
    settle_approval-Extending :
        (kind : ApprovalKind) (requests : List PermissionRequest)
        (decisions : List PermissionDecision) (answer : Result Text ApprovalDecision)
        (s : RunState W V)
        → Extending before s
        → Extending before (settle_approval kind requests decisions answer s).1
    unfolding settle_approval
    settle_approval-Extending kind requests decisions (Result.err e) s h = h
    settle_approval-Extending kind requests decisions (Result.ok ApprovalDecision.allow_once) s h =
        h
    settle_approval-Extending kind requests decisions (Result.ok ApprovalDecision.allow_for_session)
          s h =
        Extends-grant_asked before s.permissions requests decisions h
    settle_approval-Extending kind requests decisions (Result.ok ApprovalDecision.deny) s h = h

    authorize-Extending :
        (tool : Tool W V) (preparation : ToolPreparation W V)
        → Keeps (Extending before) (authorize agent call tool preparation)
    unfolding authorize
    authorize-Extending tool preparation = record {
      from = λ s h.
          let requests : List PermissionRequest = preparation_requests preparation in
          let decisions : List PermissionDecision = map (decide s.permissions) requests in
          let review : Result Text ApprovalDecision × W =
            agent.review (review_request call tool preparation decisions) s.world in
          if_both (λ (a : Result Failure (Option Text) × RunState W V). Extending before a.1)
            (any is_deny decisions) _ _ h
            (if_both (λ (a : Result Failure (Option Text) × RunState W V). Extending before a.1)
              (any is_ask decisions || any is_auto_review decisions) _ _
              (settle_approval-Extending (review_kind decisions) requests decisions review.0
                (record s { world = review.1 }) h)
              h);
    }

    conclude-Extending :
        (tool : Tool W V) (arguments : V) (preparation : ToolPreparation W V)
        (refused : Option Text)
        → Keeps (Extending before) (conclude agent tool arguments preparation refused)
    unfolding conclude
    conclude-Extending tool arguments preparation (some reason) = record { from = λ s h. h }
    conclude-Extending tool arguments preparation none = record { from = λ s h. h }

    admit_prepared-Extending :
        (tool : Tool W V) (arguments : V) (r : Result ToolError (ToolPreparation W V))
        → Keeps (Extending before) (admit_prepared agent call tool arguments r)
    unfolding admit_prepared
    admit_prepared-Extending tool arguments (Result.err e) = Keeps-pure _
    admit_prepared-Extending tool arguments (Result.ok preparation) =
        Keeps-bind _ _ (authorize-Extending tool preparation)
          (conclude-Extending tool arguments preparation)

    admit_validated-Extending :
        (r : Result ToolError (Tool W V × V))
        → Keeps (Extending before) (admit_validated agent call r)
    unfolding admit_validated
    admit_validated-Extending (Result.err e) = record { from = λ s h. h }
    admit_validated-Extending (Result.ok (tool, arguments)) = record {
      from = λ s h.
          (admit_prepared-Extending tool arguments (tool.prepare arguments s.world).0).from
            (record s { world = (tool.prepare arguments s.world).1 }) h;
    }

    -- Whatever an admission comes to, each request is decided behind it as before, or is allowed now
    -- and was not denied before.
    pub admit_local_tool-Extending : Keeps (Extending before) (admit_local_tool agent call)
    unfolding admit_local_tool
    admit_local_tool-Extending =
        admit_validated-Extending (validate_call agent.json agent.tools call)
