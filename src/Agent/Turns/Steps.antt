-- ===== src/Agent/Turns/Steps.antt =====
-- How far the agent's loop runs, and the conversation that it returns (crates/fx-core/src/agent.rs,
-- lines 201 to 332).
use fx_rs.Base.{
  ℕ, zero, suc, ◌+◌, ◌-◌, ◌≤◌, ◌≡◌, ◌≢◌, refl, Bool, true, false, if◌then◌else◌, is_nil, err, arith,
}
use fx_rs.Base.Exec.{pure, lift, ◌>>=◌}
use fx_rs.Base.Yields.{Any, Yields, Yields-pure, Yields-bind, Yields-if, Yields-relax}
use fx_rs.Agent.Batch.Fueled.{Fueled}
use fx_rs.Agent.Turns.{
  Progress, Pass, stopped, begin, at_limit, pass, go_on, run_from, run_controlled,
}
use fx_rs.Agent.Turns.Exchange.{Passes, pass-Passes}
use fx_rs.Agent.Turns.Paired.{Paired, Paired-append, Paired-plain}
use fx_rs.Agent.Types.{Agent, AgentRequest, AgentResult, AgentStopReason, Failure, RunState}
use fx_rs.Message.{text_message, role_eq}

-- A result within the limit, and at the limit where it stopped for it.
abbrev pub WithinLimit : ℕ → AgentResult → Type 0
WithinLimit max_steps result =
    (result.steps ≤ max_steps)
    × (result.stop_reason ≡ AgentStopReason.step_limit → result.steps ≡ max_steps)

-- A conversation that was not cancelled is paired.
abbrev pub IsClosed : AgentResult → Type 0
IsClosed result = result.stop_reason ≢ AgentStopReason.cancelled → Paired result.messages

module _ {W V : Type 0} (agent : Agent W V) where
  limit-WithinLimit :
      (p : Progress)
      → p.step ≤ agent.options.max_steps
      → at_limit agent.options p.step ≡ true
      → WithinLimit agent.options.max_steps (stopped AgentStopReason.step_limit p)
  unfolding stopped
  limit-WithinLimit p low h = (low, λ e. ground arith)

  run_from-Limited :
      (fuel : ℕ) (p : Progress)
      → agent.options.max_steps ≢ 0
      → p.step ≤ agent.options.max_steps
      → agent.options.max_steps ≤ p.step + fuel
      → Fueled (WithinLimit agent.options.max_steps) (run_from fuel agent p)
  unfolding run_from
  run_from-Limited zero p nonzero low enough = either (at_limit agent.options p.step) refl
    where
      either :
          (b : Bool)
          → at_limit agent.options p.step ≡ b
          → Fueled {W = W} {V = V} (WithinLimit agent.options.max_steps) (
              if b
              then pure (stopped AgentStopReason.step_limit p)
              else lift (err Failure.out_of_fuel))
      either true e = Yields-pure _ (limit-WithinLimit p low e)
      either false e = absurd (ground arith)
  run_from-Limited (suc fuel) p nonzero low enough =
      either (at_limit agent.options p.step) refl (λ q. run_from-Limited fuel q nonzero)
    where
      next :
          (b : Pass)
          → p.step ≤ agent.options.max_steps - 1
          → ((q : Progress)
              → q.step ≤ agent.options.max_steps
              → agent.options.max_steps ≤ q.step + fuel
              → Fueled (WithinLimit agent.options.max_steps) (run_from fuel agent q))
          → Passes (suc p.step) p.messages b
          → Fueled (WithinLimit agent.options.max_steps) (go_on (run_from fuel agent) b)
      next (Pass.next q) below ih (e, _) = unfold go_on in ih q (omega arith) (omega arith)
      next (Pass.stop result) below ih (bound, reason, _) =
          unfold go_on in Yields-pure result (omega arith, λ e. absurd (reason e))

      either :
          (b : Bool)
          → at_limit agent.options p.step ≡ b
          → ((q : Progress)
              → q.step ≤ agent.options.max_steps
              → agent.options.max_steps ≤ q.step + fuel
              → Fueled (WithinLimit agent.options.max_steps) (run_from fuel agent q))
          → Fueled (WithinLimit agent.options.max_steps) (
              if b
              then pure (stopped AgentStopReason.step_limit p)
              else (pass agent p >>= go_on (run_from fuel agent)))
      either true e ih = Yields-pure _ (limit-WithinLimit p low e)
      either false e ih = Yields-bind _ _ (pass-Passes agent p) (λ b h. next b (ground arith) ih h)

  limit-IsClosed :
      (p : Progress)
      → Paired p.messages
      → Yields {S = RunState W V}
          (Any {A = Failure})
          IsClosed
          (pure (stopped AgentStopReason.step_limit p))
  unfolding stopped
  limit-IsClosed p paired = Yields-pure _ (λ d. paired)

  run_from-Paired :
      (fuel : ℕ) (p : Progress) → Paired p.messages → Yields Any IsClosed (run_from fuel agent p)
  unfolding run_from
  run_from-Paired zero p paired =
      Yields-if (at_limit agent.options p.step) _ _ (limit-IsClosed p paired)
        (record { from = λ s. tt })
  run_from-Paired (suc fuel) p paired =
      Yields-if (at_limit agent.options p.step) _ _ (limit-IsClosed p paired) (
        Yields-bind _ _ (Yields-relax _ (pass-Passes agent p) (λ e. tt))
          (λ b h. next b (run_from-Paired fuel) h))
    where
      next :
          (b : Pass)
          → ((q : Progress) → Paired q.messages → Yields Any IsClosed (run_from fuel agent q))
          → Passes (suc p.step) p.messages b
          → Yields Any IsClosed (go_on (run_from fuel agent) b)
      next (Pass.next q) ih (_, keep) = unfold go_on in ih q (keep paired)
      next (Pass.stop result) ih (_, _, keep) =
          unfold go_on in Yields-pure result (λ d. keep d paired)

  -- With a limit on the steps, fuel for that many passes is enough: the run comes to a result, to an
  -- error of the agent or to a panic. The result counts no more steps than the limit, and exactly as many where the
  -- limit is why it stopped.
  pub run_controlled-Limited :
      (fuel : ℕ) (request : AgentRequest)
      → agent.options.max_steps ≢ 0
      → agent.options.max_steps ≤ fuel
      → Fueled (WithinLimit agent.options.max_steps) (run_controlled fuel agent request)
  unfolding run_controlled begin
  run_controlled-Limited fuel request nonzero enough =
      run_from-Limited fuel _ nonzero (omega arith) (omega arith)

  -- From a conversation in which every tool call is answered, a run that was not cancelled returns a
  -- conversation in which every tool call is answered, by its own tool message and in order.
  pub run_controlled-Paired :
      (fuel : ℕ) (request : AgentRequest)
      → Paired request.history
      → Yields Any IsClosed (run_controlled fuel agent request)
  unfolding run_controlled begin text_message role_eq is_nil
  run_controlled-Paired fuel request paired =
      run_from-Paired fuel _ (Paired-append request.history _ paired (Paired-plain _ refl refl))
