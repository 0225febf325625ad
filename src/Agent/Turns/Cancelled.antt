-- ===== src/Agent/Turns/Cancelled.antt =====
-- Runs that are cancelled between a response and its tool calls (crates/fx-core/src/agent.rs, lines 243
-- to 279).
use fx_rs.Base.{
  ◌≡◌, refl, sym, ap, ◌∙◌, Bool, true, false, not, List, [], ◌∷◌, ◌++◌, if◌then◌else◌, Result, ok,
  is_nil, arith,
}
use fx_rs.Base.Exec.{pure}
use fx_rs.Agent.Batch.{is_cancelled}
use fx_rs.Agent.Turns.{
  Progress, Pass, stopped, cancelled_result, assistant_message, accept, use_response,
}
use fx_rs.Agent.Turns.Paired.{Answers, Paired}
use fx_rs.Agent.Types.{Agent, AgentStopReason, Failure, RunState, Run}
use fx_rs.Gateway.Types.{GatewayResponse}
use fx_rs.Message.{ChatMessage, ToolCall}

-- The last message has tool calls.
abbrev ends_open : List ChatMessage → Bool
ends_open [] = false
ends_open (m ∷ []) = not (is_nil m.tool_calls)
ends_open (m ∷ (n ∷ ms)) = ends_open (n ∷ ms)

ends_open-append :
    (ms : List ChatMessage) (m : ChatMessage) → ends_open (ms ++ m ∷ []) ≡ not (is_nil m.tool_calls)
ends_open-append [] m = refl
ends_open-append (n ∷ []) m = refl
ends_open-append (n ∷ (k ∷ ms)) m = ends_open-append (k ∷ ms) m

-- A message without tool calls in front.
closed-cons :
    (m : ChatMessage) (ms : List ChatMessage)
    → is_nil m.tool_calls ≡ true
    → ends_open ms ≡ false
    → ends_open (m ∷ ms) ≡ false
closed-cons m [] h e = ground arith
closed-cons m (n ∷ ms) h e = e

closed-replies :
    (calls : List ToolCall) (replies rest : List ChatMessage)
    → Answers calls replies
    → ends_open rest ≡ false
    → ends_open (replies ++ rest) ≡ false
closed-replies _ _ rest Answers.nil e = e
closed-replies _ _ rest (Answers.cons call calls reply replies r i c a) e =
    closed-cons reply (replies ++ rest) c (closed-replies calls replies rest a e)

closed-answered :
    (m : ChatMessage) (calls : List ToolCall) (replies rest : List ChatMessage)
    → m.tool_calls ≡ calls
    → Answers calls replies
    → ends_open rest ≡ false
    → ends_open (m ∷ (replies ++ rest)) ≡ false
unfolding is_nil
closed-answered m _ _ rest h Answers.nil e = closed-cons m rest (ap is_nil h) e
closed-answered m _ _ rest h (Answers.cons call calls reply replies r i c a) e =
    closed-replies (call ∷ calls) (reply ∷ replies) rest
      (Answers.cons call calls reply replies r i c a) e

Paired-closed : (ms : List ChatMessage) → Paired ms → ends_open ms ≡ false
Paired-closed _ Paired.nil = refl
Paired-closed _ (Paired.plain m ms h t p) = closed-cons m ms h (Paired-closed ms p)
Paired-closed _ (Paired.answered m replies rest r a p) =
    closed-answered m m.tool_calls replies rest refl a (Paired-closed rest p)

-- The result of a run that was cancelled, and whose conversation is not paired.
abbrev pub IsLeftOpen : Result Failure Pass → Type 0
IsLeftOpen (ok (Pass.stop result)) =
    (result.stop_reason ≡ AgentStopReason.cancelled) × (Paired result.messages → ⊥)
IsLeftOpen _ = ⊥

-- A run that is cancelled when a response with tool calls arrives stops with a conversation in which
-- these calls are not answered.
pub use_response-cancelled :
    {W V : Type 0} (agent : Agent W V) (response : GatewayResponse) (p : Progress)
    (s : RunState W V)
    → is_nil response.tool_calls ≡ false
    → (agent.context.is_cancelled s.world).0 ≡ true
    → IsLeftOpen (use_response agent response p s).0
unfolding use_response is_cancelled cancelled_result stopped accept assistant_message
use_response-cancelled {W} {V} agent response p s calls cancelled =
    either (agent.context.is_cancelled s.world).0 _ _ cancelled
  where
    is_open : ends_open (p.messages ++ assistant_message response ∷ []) ≡ true
    is_open = ends_open-append p.messages (assistant_message response) ∙ ap not calls

    contradiction : {b : Bool} → b ≡ true → b ≡ false → ◌≡◌ {A = Bool} true false
    contradiction t f = sym t ∙ f

    apart : ◌≡◌ {A = Bool} true false → ⊥
    apart e = cc

    either :
        (b : Bool) (m : Run W V Pass) (s' : RunState W V)
        → b ≡ true
        → IsLeftOpen
            ((if b then pure (Pass.stop (cancelled_result (accept response p))) else m) s').0
    either true m s' h = (
      refl,
      λ q.
          let closed : ends_open (p.messages ++ assistant_message response ∷ []) ≡ false =
            Paired-closed _ q in
          apart (contradiction is_open closed),
    )
    either false m s' h = absurd (ground arith)
