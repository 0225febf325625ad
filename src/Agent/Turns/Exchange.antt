-- ===== src/Agent/Turns/Exchange.antt =====
-- What one pass through the agent's loop does to the conversation and to the count of steps
-- (crates/fx-core/src/agent.rs, lines 221 to 335).
use fx_rs.Base.{
  ℕ, suc, ◌≤◌, ◌≡◌, ◌≢◌, refl, sym, ◌∙◌, Bool, true, false, Option, none, some, List, [], ◌∷◌, ◌++◌,
  Text, if◌then◌else◌, Result, ok, err, length, is_nil, append_assoc, arith, if_both, option_both,
}
use mathlib.Core.Path.{subst}
use fx_rs.Base.Exec.{pure, lift}
use fx_rs.Base.Yields.{Any, Meets, Yields-pure, Yields-if, Yields-bind}
use fx_rs.Agent.Admission.{Outcome}
use fx_rs.Agent.Batch.{is_cancelled}
use fx_rs.Agent.Batch.Answered.{execute_tool_batch-Fueled}
use fx_rs.Agent.Batch.Fueled.{IsReal, Fueled}
use fx_rs.Agent.Targets.{
  collect_targets, settle_context, select_scoped_project_context, insert_stable_system_context,
}
use fx_rs.Agent.Turns.{
  Progress, Pass, stopped, cancelled_result, assistant_message, accept, insert_context,
  tool_messages, call_gateway, execute_calls, use_response, use_result, pass,
}
use fx_rs.Agent.Turns.Paired.{
  Paired, Paired-append, Paired-plain, Paired-answered, tool_messages-Answers, insert-Paired,
  insert-last,
}
use fx_rs.Agent.Types.{Agent, AgentError, AgentStopReason, Failure, RunState}
use fx_rs.Gateway.Types.{GatewayResponse, GatewayError}
use fx_rs.Message.{ChatMessage, ToolCall, role_eq}

-- What a pass does: it counts `n` steps if it goes on, and `n` at most if it stops, and it keeps the
-- conversation paired, unless it was cancelled. It does not stop for the limit.
abbrev pub Passes : ℕ → List ChatMessage → Pass → Type 0
Passes n messages (Pass.next p) = (p.step ≡ n) × (Paired messages → Paired p.messages)
Passes n messages (Pass.stop result) =
    (result.steps ≤ n)
    × (result.stop_reason ≢ AgentStopReason.step_limit)
    × (result.stop_reason ≢ AgentStopReason.cancelled → Paired messages → Paired result.messages)

-- The messages of a pass that executed the calls of a response.
exchange-Paired :
    {V : Type 0} (response : GatewayResponse) (delta : Option Text) (p : Progress)
    (outcomes : List (Outcome V))
    → length outcomes ≡ length response.tool_calls
    → Paired p.messages
    → Paired (
        (insert_context delta (accept response p)).messages
        ++ tool_messages response.tool_calls outcomes)
unfolding insert_context accept assistant_message
exchange-Paired response delta p outcomes h paired = by_delta delta
  where
    m : ChatMessage
    m = assistant_message response

    replies : List ChatMessage
    replies = tool_messages response.tool_calls outcomes

    grown : (ms : List ChatMessage) → Paired ms → Paired ((ms ++ m ∷ []) ++ replies)
    grown ms q = subst Paired (sym (append_assoc ms (m ∷ []) replies)) (
        Paired-append ms (m ∷ replies) q
          (Paired-answered m replies refl (tool_messages-Answers response.tool_calls outcomes h)))

    by_delta :
        (d : Option Text) → Paired ((insert_context d (accept response p)).messages ++ replies)
    by_delta none = grown p.messages paired
    by_delta (some content) =
        subst (λ ms. Paired (ms ++ replies))
          (sym (insert-last content p.messages m (unfold role_eq in refl)))
          (grown (insert_stable_system_context content p.messages)
            (insert-Paired content p.messages paired))

insert_context-step : (delta : Option Text) (p : Progress) → (insert_context delta p).step ≡ p.step
unfolding insert_context
insert_context-step none p = refl
insert_context-step (some content) p = refl

accept-step : (response : GatewayResponse) (p : Progress) → (accept response p).step ≡ p.step
unfolding accept
accept-step response p = refl

accept_bound : (response : GatewayResponse) (p : Progress) → (accept response p).step ≤ p.step
accept_bound response p = omega (arith, accept-step response p)

module _ {W V : Type 0} (agent : Agent W V) where
  -- The result is no lack of fuel.
  abbrev IsFueled : {A : Type 0} → Result Failure A × RunState W V → Type 0
  IsFueled r = Meets IsReal Any r.0

  settle_context-Fueled :
      (deferred none_deferred : List Bool) (r : Result Text (Option Text))
      → Fueled {W = W} {V = V} Any (settle_context deferred none_deferred r)
  unfolding settle_context
  settle_context-Fueled deferred none_deferred (err e) = record { from = λ s. tt }
  settle_context-Fueled deferred none_deferred (ok none) = record { from = λ s. tt }
  settle_context-Fueled deferred none_deferred (ok (some delta)) = record { from = λ s. tt }

  select_scoped_project_context-Fueled :
      (calls : List ToolCall) → Fueled Any (select_scoped_project_context agent calls)
  unfolding select_scoped_project_context
  select_scoped_project_context-Fueled calls = record {
    from = λ s. option_both IsFueled agent.context.project_context _ _ tt (λ select.
        if_both IsFueled (is_nil (collect_targets agent s.world calls []).0) _ _ tt
          ((settle_context-Fueled _ _ _).from _));
  }

  execute_calls-Passes :
      (response : GatewayResponse) (p : Progress)
      → Fueled
          (Passes p.step p.messages)
          (execute_calls agent response.tool_calls (accept response p))
  unfolding execute_calls
  execute_calls-Passes response p =
      Yields-bind {Q = Any} _ _ (select_scoped_project_context-Fueled response.tool_calls)
        (λ selected h.
          Yields-bind _ _ (execute_tool_batch-Fueled agent response.tool_calls selected.1)
            (λ outcomes e. Yields-pure _ (
              insert_context-step selected.0 (accept response p) ∙ accept-step response p,
              exchange-Paired response selected.0 p outcomes e,
            )))

  is_cancelled-Fueled : Fueled Any (is_cancelled agent)
  unfolding is_cancelled
  is_cancelled-Fueled = record { from = λ s. tt }

  call_gateway-Fueled : (messages : List ChatMessage) → Fueled Any (call_gateway agent messages)
  unfolding call_gateway
  call_gateway-Fueled messages = record { from = λ s. tt }

  cancelled-Passes :
      (n : ℕ) (messages : List ChatMessage) (q : Progress)
      → q.step ≤ n
      → Fueled {W = W} {V = V} (Passes n messages) (pure (Pass.stop (cancelled_result q)))
  unfolding cancelled_result stopped
  cancelled-Passes n messages q h = Yields-pure _ (h, λ e. cc, λ d. absurd (d refl))

  complete-Passes :
      (response : GatewayResponse) (p : Progress)
      → is_nil response.tool_calls ≡ true
      → Fueled {W = W} {V = V}
          (Passes p.step p.messages)
          (pure (Pass.stop (stopped AgentStopReason.complete (accept response p))))
  unfolding stopped accept assistant_message role_eq
  complete-Passes response p h =
      Yields-pure _ (
        omega arith,
        λ e. cc,
        λ d paired. Paired-append p.messages _ paired (Paired-plain _ h refl),
      )

  use_response-Passes :
      (response : GatewayResponse) (p : Progress)
      → Fueled (Passes p.step p.messages) (use_response agent response p)
  unfolding use_response
  use_response-Passes response p = Yields-bind {Q = Any} _ _ is_cancelled-Fueled (λ cancelled h.
      Yields-if cancelled _ _
        (cancelled-Passes p.step p.messages (accept response p) (accept_bound response p))
        (calls (is_nil response.tool_calls) refl))
    where
      calls :
          (b : Bool)
          → is_nil response.tool_calls ≡ b
          → Fueled (Passes p.step p.messages) (
              if b
              then pure (Pass.stop (stopped AgentStopReason.complete (accept response p)))
              else execute_calls agent response.tool_calls (accept response p))
      calls true e = complete-Passes response p e
      calls false e = execute_calls-Passes response p

  failed-Passes :
      (n : ℕ) (messages : List ChatMessage) (e : AgentError)
      → Fueled {W = W} {V = V} (Passes n messages) (lift (err (Failure.error e)))
  failed-Passes n messages e = record { from = λ s. tt }

  use_result-Passes :
      (result : Result GatewayError GatewayResponse) (p : Progress)
      → Fueled (Passes p.step p.messages) (use_result agent result p)
  unfolding use_result
  use_result-Passes (ok response) p = use_response-Passes response p
  use_result-Passes (err GatewayError.cancelled) p =
      Yields-bind {Q = Any} _ _ is_cancelled-Fueled (λ cancelled h.
        Yields-if cancelled _ _ (cancelled-Passes p.step p.messages p (omega arith))
          (failed-Passes _ _ _))
  use_result-Passes (err GatewayError.authentication) p = failed-Passes _ _ _
  use_result-Passes (err GatewayError.definitely_unsent) p = failed-Passes _ _ _
  use_result-Passes (err GatewayError.possibly_sent) p = failed-Passes _ _ _
  use_result-Passes (err (GatewayError.rejected e)) p = failed-Passes _ _ _
  use_result-Passes (err (GatewayError.invalid_response e)) p = failed-Passes _ _ _
  use_result-Passes (err (GatewayError.unavailable e)) p = failed-Passes _ _ _

  pub pass-Passes : (p : Progress) → Fueled (Passes (suc p.step) p.messages) (pass agent p)
  unfolding pass
  pass-Passes p = Yields-bind {Q = Any} _ _ is_cancelled-Fueled (λ cancelled h.
      Yields-if cancelled _ _ (cancelled-Passes (suc p.step) p.messages p (omega arith)) (
        Yields-bind {Q = Any} _ _ (call_gateway-Fueled p.messages)
          (λ result h'. use_result-Passes result (record p { step = suc p.step }))))
