-- ===== src/Agent/Batch/Answered.antt =====
-- Every call of a response gets an outcome (crates/fx-core/src/agent.rs, lines 351 to 413).
use fx_rs.Base.{
  ℕ, zero, suc, ◌≤◌, min, ◌≡◌, refl, ap, Bool, true, false, List, [], ◌∷◌, ◌++◌, leb, if◌then◌else◌,
  length, take, drop, get_or, map, arith, length-append, length-drop, length-take,
  count_while-length, if_both,
}
use fx_rs.Base.Exec.{pure, ◌>>=◌}
use fx_rs.Base.Yields.{Meets, Yields-pure, Yields-bind}
use fx_rs.Agent.Admission.{Outcome, cancelled_output}
use fx_rs.Agent.Batch.{
  execute_parallel, execute_single, round, is_cancelled, execute_from, execute_tool_batch,
}
use fx_rs.Agent.Targets.{reads, parallel_read_prefix_len}
use fx_rs.Agent.Types.{Agent, RunState, Run, on_world}
use fx_rs.Message.{ToolCall}
use mathlib.Core.Path.{subst}
use fx_rs.Agent.Batch.Fueled.{
  IsReal, Fueled, defer-Fueled, execute_parallel-Fueled, execute_single-Fueled,
}

abbrev cancelled_outcome : {V : Type 0} → Outcome V
cancelled_outcome = (cancelled_output, false)

length-cancelled :
    (V : Type 0) (calls : List ToolCall)
    → length (map (λ _. cancelled_outcome {V = V}) calls) ≡ length calls
length-cancelled V [] = refl
length-cancelled V (call ∷ calls) = ap suc (length-cancelled V calls)

module _ {W V : Type 0} where
  -- A round takes one of the calls at least, and yields an outcome for each one that it takes.
  abbrev Advances : List ToolCall → ℕ × Run W V (List (Outcome V)) → Type 0
  Advances calls (count, execute) =
      (1 ≤ count)
      × (count ≤ length calls)
      × Fueled (λ (os : List (Outcome V)). length os ≡ count) execute

  round-Advances :
      (agent : Agent W V) (call : ToolCall) (calls : List ToolCall) (deferred : Bool)
      → Advances (call ∷ calls) (round agent call calls deferred)
  unfolding round parallel_read_prefix_len
  round-Advances agent call calls deferred =
      if_both (Advances (call ∷ calls)) deferred _ _ (omega arith, omega arith, defer-Fueled call)
        (parallel (leb 2 count) refl)
    where
      count : ℕ
      count = parallel_read_prefix_len agent (call ∷ calls)

      taken :
          length (take count (call ∷ calls)) ≡ min count (length (call ∷ calls))
          → count ≤ length (call ∷ calls)
          → length (take count (call ∷ calls)) ≡ count
      taken e h = omega arith

      parallel :
          (b : Bool)
          → leb 2 count ≡ b
          → Advances (call ∷ calls) (
              if b
              then (count, execute_parallel agent (take count (call ∷ calls)))
              else (1, execute_single agent call))
      parallel true h = (
        ground arith,
        count_while-length (reads agent) (call ∷ calls),
        subst
            (λ n.
              Fueled (λ (os : List (Outcome V)). length os ≡ n)
                (execute_parallel agent (take count (call ∷ calls))))
            (taken (length-take count (call ∷ calls))
              (count_while-length (reads agent) (call ∷ calls)))
            (execute_parallel-Fueled agent (take count (call ∷ calls))),
      )
      parallel false h = (omega arith, omega arith, execute_single-Fueled agent call)

  execute_from-Fueled :
      (fuel : ℕ) (agent : Agent W V) (calls : List ToolCall) (deferred : List Bool)
      → length calls ≤ fuel
      → Fueled
          (λ (os : List (Outcome V)). length os ≡ length calls)
          (execute_from fuel agent calls deferred)
  unfolding execute_from is_cancelled
  execute_from-Fueled zero agent [] deferred h = Yields-pure _ refl
  execute_from-Fueled (suc fuel) agent [] deferred h = Yields-pure _ refl
  execute_from-Fueled zero agent (call ∷ calls) deferred h = absurd (omega arith)
  execute_from-Fueled (suc fuel) agent (call ∷ calls) deferred h = record {
    from = λ s.
        let s' : RunState W V = (on_world agent.context.is_cancelled s).1 in
        if_both
          (λ (m : Run W V (List (Outcome V))).
            Meets IsReal (λ (os : List (Outcome V)). length os ≡ length (call ∷ calls)) (m s').0)
          (agent.context.is_cancelled s.world).0 _ _ (length-cancelled V (call ∷ calls))
          ((go (execute_from-Fueled fuel agent (drop n all) (drop n deferred))
              (round-Advances agent call calls (get_or deferred 0 false))).from
            s');
  }
    where
      all : List ToolCall
      all = call ∷ calls

      n : ℕ
      n = (round agent call calls (get_or deferred 0 false)).0

      total :
          (os rest : List (Outcome V))
          → n ≤ length all
          → length os ≡ n
          → length rest ≡ length (drop n all)
          → length (os ++ rest) ≡ length all
      total os rest high e e' = omega (arith, length-append os rest, length-drop n all)

      go :
          (length (drop n all) ≤ fuel
            → Fueled
                (λ (os : List (Outcome V)). length os ≡ length (drop n all))
                (execute_from fuel agent (drop n all) (drop n deferred)))
          → Advances (call ∷ calls) (round agent call calls (get_or deferred 0 false))
          → let (count, execute) = round agent call calls (get_or deferred 0 false) in
            Fueled
              (λ (os : List (Outcome V)). length os ≡ length (call ∷ calls))
              (execute >>= λ outcomes.
                execute_from fuel agent (drop count (call ∷ calls)) (drop count deferred)
                >>= λ rest. pure (outcomes ++ rest))
      go ih (low, high, executed) =
          let left : length (drop n all) ≤ fuel = omega (arith, length-drop n all) in
          Yields-bind _ _ executed
            (λ os e. Yields-bind _ _ (ih left) (λ rest e'. Yields-pure _ (total os rest high e e')))

  -- The execution of a batch comes to an end. It gives an outcome for each call, or it stops with an
  -- error of the agent or a panic.
  pub execute_tool_batch-Fueled :
      (agent : Agent W V) (calls : List ToolCall) (deferred : List Bool)
      → Fueled
          (λ (os : List (Outcome V)). length os ≡ length calls)
          (execute_tool_batch agent calls deferred)
  unfolding execute_tool_batch
  execute_tool_batch-Fueled agent calls deferred =
      execute_from-Fueled (length calls) agent calls deferred (omega arith)
