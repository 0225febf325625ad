-- ===== src/Agent/Batch/Fueled.antt =====
-- The parts of an execution do not run out of fuel, and keep the number of outcomes
-- (crates/fx-core/src/agent.rs, lines 486 to 535 and 717 to 762).
use fx_rs.Base.{
  suc, ◌≡◌, refl, ap, ◌∙◌, Option, none, some, List, [], ◌∷◌, Text, Result, ok, err, length, map,
  arith, if_both, option_both, ltb, len,
}
use fx_rs.Base.Exec.{lift}
use fx_rs.Base.Yields.{Any, Meets, Yields, Yields-pure, Yields-if, Yields-bind, Yields-weaken}
use fx_rs.Agent.Admission.{Outcome, LocalToolAdmission, admit_local_tool}
use fx_rs.Agent.Admission.Permitted.{Guarded, admit_local_tool-Guarded}
use fx_rs.Agent.Batch.{
  execute_one_tool, first_outcome, start_all, admit_all, finish, finish_all, defer,
  execute_parallel, execute_single,
}
use fx_rs.Agent.Join.{Slot, join_ordered, run_joined}
use fx_rs.Agent.Join.Ordered.{AllGive, Joined, join_ordered-Joined}
use fx_rs.Agent.Output.{finalize_tool_output, finalize_durable}
use fx_rs.Agent.Targets.{is_provider, is_malformed}
use fx_rs.Agent.Types.{Agent, Failure, RunState, Run, on_world}
use fx_rs.Message.{ToolCall}
use fx_rs.Redaction.Secrets.{redact_secrets}
use fx_rs.Tools.Types.{ToolOutput, large_tool_result_bytes}

-- A failure of the code, not of the model's fuel.
abbrev pub IsReal : Failure → Type 0
IsReal (Failure.error e) = Unit {0}
IsReal Failure.panicked = Unit {0}
IsReal Failure.out_of_fuel = ⊥

module _ {W V : Type 0} where
  -- A run that has fuel, and whose value has `Q`.
  abbrev pub Fueled : {A : Type 0} → (A → Type 0) → Run W V A → Type 0
  Fueled Q m = Yields IsReal Q m

  Guarded-Meets :
      (agent : Agent W V) (call : ToolCall) (s : RunState W V)
      (r : Result Failure (LocalToolAdmission W V))
      → Guarded agent call s r
      → Meets IsReal Any r
  Guarded-Meets agent call s r (Guarded.unavailable e) = tt
  Guarded-Meets agent call s r (Guarded.held_back out feedback h) = tt
  Guarded-Meets agent call s r (Guarded.executes tool arguments preparation v p a) = tt

  pub admit_local_tool-Fueled :
      (agent : Agent W V) (call : ToolCall) → Fueled Any (admit_local_tool agent call)
  admit_local_tool-Fueled agent call = record {
    from = λ s. Guarded-Meets agent call s _ (admit_local_tool-Guarded agent call s);
  }

  admit_all-Fueled :
      (agent : Agent W V) (calls : List ToolCall)
      → Fueled
          (λ (l : List (LocalToolAdmission W V)). length l ≡ length calls)
          (admit_all agent calls)
  unfolding admit_all
  admit_all-Fueled agent [] = Yields-pure _ refl
  admit_all-Fueled agent (call ∷ calls) =
      Yields-bind _ _ (admit_local_tool-Fueled agent call) (λ a h.
        Yields-bind _ _ (admit_all-Fueled agent calls) (λ admissions h'. Yields-pure _ (ap suc h')))

  AllGive-length :
      (slots : List (Slot W V)) (os : List (Outcome V))
      → AllGive slots os
      → length os ≡ length slots
  AllGive-length [] [] h = refl
  AllGive-length (slot ∷ slots) (o ∷ os) (h, hs) = ap suc (AllGive-length slots os hs)
  AllGive-length [] (o ∷ os) h = elim h [ ]
  AllGive-length (slot ∷ slots) [] h = elim h [ ]

  length-admitted : (l : List (LocalToolAdmission W V)) → length (map Slot.admitted l) ≡ length l
  length-admitted [] = refl
  length-admitted (a ∷ l) = ap suc (length-admitted l)

  run_joined-Fueled :
      (agent : Agent W V) (l : List (LocalToolAdmission W V))
      → Fueled (λ (os : List (Outcome V)). length os ≡ length l) (run_joined agent.context l)
  unfolding run_joined
  run_joined-Fueled agent l = record {
    from = λ s.
        step (on_world (join_ordered agent.context l) s).1 _
          (join_ordered-Joined agent.context l s.world);
  }
    where
      step :
          (s' : RunState W V) (r : Option (List (Outcome V)))
          → Joined (map Slot.admitted l) r
          → let result : Result Failure (List (Outcome V)) × RunState W V = (elim r [
            | none ↦ (err Failure.out_of_fuel, s')
            | some outcomes ↦ (ok outcomes, s')
          ]) in
            Meets IsReal (λ (os : List (Outcome V)). length os ≡ length l) result.0
      step s' none h = h
      step s' (some os) h = AllGive-length _ os h ∙ length-admitted l

  -- The result is no lack of fuel.
  abbrev IsFueled : Result Failure (ToolOutput V) × RunState W V → Type 0
  IsFueled r = Meets IsReal Any r.0

  finalize_durable-Fueled :
      (agent : Agent W V) (call : ToolCall) (output : ToolOutput V) (durable : Text)
      → Fueled Any (finalize_durable agent.context call output durable)
  unfolding finalize_durable
  finalize_durable-Fueled agent call output durable = record {
    from = λ s.
        option_both IsFueled agent.context.tool_results _ _ tt
          (λ store. if_both IsFueled (ltb large_tool_result_bytes (len durable)) _ _ tt tt);
  }

  finalize_tool_output-Fueled :
      (agent : Agent W V) (call : ToolCall) (output : ToolOutput V)
      → Fueled Any (finalize_tool_output agent.context call output)
  unfolding finalize_tool_output
  finalize_tool_output-Fueled agent call output = record {
    from = λ s.
        option_both IsFueled output.durable_content _ _
          (option_both IsFueled (redact_secrets output.content) _ _ tt (λ cow. tt))
          (λ durable.
            option_both IsFueled (redact_secrets durable) _ _ tt
              (λ cow. (finalize_durable-Fueled agent call _ _).from s));
  }

  pub finish-Fueled :
      (agent : Agent W V) (call : ToolCall) (o : Outcome V) → Fueled Any (finish agent call o)
  unfolding finish
  finish-Fueled agent call (output, feedback) =
      Yields-bind {Q = Any} _ _ (finalize_tool_output-Fueled agent call output)
        (λ output' h. record { from = λ s. tt })

  finish_all-Fueled :
      (agent : Agent W V) (calls : List ToolCall) (os : List (Outcome V))
      → Fueled (λ (l : List (Outcome V)). length l ≡ length os) (finish_all agent calls os)
  unfolding finish_all
  finish_all-Fueled agent (call ∷ calls) (o ∷ os) =
      Yields-bind {Q = Any} _ _ (finish-Fueled agent call o) (λ o' h.
        Yields-bind _ _ (finish_all-Fueled agent calls os) (λ l h'. Yields-pure _ (ap suc h')))
  finish_all-Fueled agent [] os = Yields-pure _ refl
  finish_all-Fueled agent (call ∷ calls) [] = Yields-pure _ refl

  start_all-Fueled : (calls : List ToolCall) → Fueled Any (start_all calls)
  unfolding start_all
  start_all-Fueled [] = Yields-pure _ tt
  start_all-Fueled (call ∷ calls) = record { from = λ s. (start_all-Fueled calls).from _ }

  pub execute_parallel-Fueled :
      (agent : Agent W V) (batch : List ToolCall)
      → Fueled (λ (l : List (Outcome V)). length l ≡ length batch) (execute_parallel agent batch)
  unfolding execute_parallel
  execute_parallel-Fueled agent batch = Yields-bind {Q = Any} _ _ (start_all-Fueled batch) (λ u h.
      Yields-bind _ _ (admit_all-Fueled agent batch) (λ admissions h1.
        Yields-bind _ _ (run_joined-Fueled agent admissions) (λ completed h2.
          Yields-weaken _ (finish_all-Fueled agent batch completed) (λ l h3. h3 ∙ h2 ∙ h1))))

  execute_one_tool-Fueled :
      (agent : Agent W V) (call : ToolCall) → Fueled Any (execute_one_tool agent call)
  unfolding execute_one_tool
  execute_one_tool-Fueled agent call =
      Yields-if (is_provider call.provenance) _ _ (Yields-pure _ tt) (
        Yields-if (is_malformed call.argument_integrity) _ _ (Yields-pure _ tt) (
          Yields-bind {Q = Any} _ _ (admit_local_tool-Fueled agent call) (λ admission h.
            Yields-bind _ _ (run_joined-Fueled agent (admission ∷ [])) (λ os h'. first os h'))))
    where
      first :
          (os : List (Outcome V))
          → length os ≡ 1
          → Fueled {A = Outcome V} Any (lift (first_outcome os))
      first [] h = absurd (omega arith)
      first (o ∷ os) h = record { from = λ s. tt }

  pub execute_single-Fueled :
      (agent : Agent W V) (call : ToolCall)
      → Fueled (λ (os : List (Outcome V)). length os ≡ 1) (execute_single agent call)
  unfolding execute_single
  execute_single-Fueled agent call = record {
    from = λ s.
        (Yields-bind {Q = Any} _ _ (execute_one_tool-Fueled agent call) (λ outcome h.
            Yields-bind {Q = Any} _ _ (finish-Fueled agent call outcome)
              (λ outcome' h'. Yields-pure _ refl))).from
          _;
  }

  pub defer-Fueled :
      (call : ToolCall) → Fueled (λ (os : List (Outcome V)). length os ≡ 1) (defer call)
  unfolding defer
  defer-Fueled call = record { from = λ s. refl }
