-- ===== src/Agent/Join.antt =====
-- The execution of admitted calls (crates/fx-core/src/agent.rs, lines 546 to 572 and 673 to 702).
pub mod Ordered
use fx_rs.Base.{
  ℕ, zero, suc, ◌+◌, Bool, true, false, Option, none, some, List, [], ◌∷◌, if◌then◌else◌, length,
  Result, map,
}
use fx_rs.Agent.Admission.{Outcome, LocalToolAdmission, cancelled_output}
use fx_rs.Agent.Output.{error_output}
use fx_rs.Agent.Types.{Agent, Failure, ToolContext, RunState, Run, on_world}
use fx_rs.Tools.Types.{ToolOutput, ToolError, tool_error_text, Task}

-- A future of `into_future` and its place in `outputs`: not polled yet, polled before, or done.
pub data Slot (W V : Type 0) : Type 0 where
  admitted : LocalToolAdmission W V → Slot W V
  running : Task W V → Slot W V
  done : Outcome V → Slot W V

unfoldable pub outcome_of : {V : Type 0} → Result ToolError (ToolOutput V) → Outcome V
outcome_of (Result.ok output) = (output, false)
outcome_of (Result.err error) = (error_output (tool_error_text error), false)

module _ {W V : Type 0} where
  unfoldable pub poll_task :
      List (W → W) → (W → Result ToolError (ToolOutput V) × W) → W → Slot W V × W
  poll_task [] finish w = let (r, w') = finish w in (Slot.done (outcome_of r), w')
  poll_task (step ∷ pending) finish w =
      (Slot.running (record { pending = pending; finish = finish }), step w)

  -- The first poll looks at the cancellation.
  unfoldable pub start_task : ToolContext W → Task W V → W → Slot W V × W
  start_task context task w =
      let (cancelled, w') = context.is_cancelled w in
      if cancelled
      then (Slot.done (cancelled_output, false), w')
      else poll_task task.pending task.finish w'

  unfoldable pub poll : ToolContext W → Slot W V → W → Slot W V × W
  poll context (Slot.admitted (LocalToolAdmission.immediate output feedback)) w =
      (Slot.done (output, feedback), w)
  poll context (Slot.admitted (LocalToolAdmission.direct task)) w = start_task context task w
  poll context (Slot.admitted (LocalToolAdmission.prepared call)) w =
      start_task context call.action w
  poll context (Slot.running task) w = poll_task task.pending task.finish w
  poll context (Slot.done outcome) w = (Slot.done outcome, w)

  -- One poll of the joined future: each that is not done is polled, in order.
  unfoldable pub poll_all : ToolContext W → List (Slot W V) → W → List (Slot W V) × W
  poll_all context [] w = ([], w)
  poll_all context (slot ∷ slots) w =
      let (slot', w') = poll context slot w in
      let (slots', w'') = poll_all context slots w' in (slot' ∷ slots', w'')

  -- The outputs, when none of the futures remains.
  unfoldable pub collect : List (Slot W V) → Option (List (Outcome V))
  collect [] = some []
  collect (Slot.done outcome ∷ slots) = elim (collect slots) [
    | none ↦ none
    | some outcomes ↦ some (outcome ∷ outcomes)
  ]
  collect (slot ∷ slots) = none

  unfoldable pub join_from : ℕ → ToolContext W → List (Slot W V) → W → Option (List (Outcome V)) × W
  join_from zero context slots w = (none, w)
  join_from (suc fuel) context slots w =
      let (slots', w') = poll_all context slots w in
      let rest = join_from fuel context slots' w' in
      elim (collect slots') [ none ↦ rest | some outcomes ↦ (some outcomes, w') ]

  -- The polls that a future has left at most, and those of all futures.
  unfoldable pub polls_left : Slot W V → ℕ
  polls_left (Slot.admitted (LocalToolAdmission.immediate output feedback)) = 1
  polls_left (Slot.admitted (LocalToolAdmission.direct task)) = suc (length task.pending)
  polls_left (Slot.admitted (LocalToolAdmission.prepared call)) = suc (length call.action.pending)
  polls_left (Slot.running task) = suc (length task.pending)
  polls_left (Slot.done outcome) = 0

  unfoldable pub total_polls : List (Slot W V) → ℕ
  total_polls [] = 0
  total_polls (slot ∷ slots) = polls_left slot + total_polls slots

  -- `none` stands for a future that waits for ever, which the fuel excludes.
  unfoldable pub join_ordered :
      ToolContext W → List (LocalToolAdmission W V) → W → Option (List (Outcome V)) × W
  join_ordered context admissions w =
      let slots : List (Slot W V) = map Slot.admitted admissions in
      join_from (suc (total_polls slots)) context slots w

  unfoldable pub run_joined :
      ToolContext W → List (LocalToolAdmission W V) → Run W V (List (Outcome V))
  run_joined context admissions s =
      let (r, s') = on_world (join_ordered context admissions) s in
      elim r [
        | none ↦ (Result.err Failure.out_of_fuel, s')
        | some outcomes ↦ (Result.ok outcomes, s')
      ]
