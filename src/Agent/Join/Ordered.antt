-- ===== src/Agent/Join/Ordered.antt =====
-- The outputs of joined futures and their order (crates/fx-core/src/agent.rs, lines 673 to 702).
use fx_rs.Base.{
  ℕ, zero, suc, ◌-◌, ◌≤◌, ◌<◌, ◌≡◌, refl, ◌⊎◌, inl, inr, Bool, true, false, Option, none, some,
  List, [], ◌∷◌, if◌then◌else◌, length, Result, map, arith,
}
use fx_rs.Agent.Admission.{Outcome, LocalToolAdmission, cancelled_output}
use fx_rs.Agent.Join.{
  Slot, outcome_of, poll_task, start_task, poll, poll_all, collect, join_from, polls_left,
  total_polls, join_ordered,
}
use fx_rs.Agent.Types.{ToolContext}
use fx_rs.Tools.Types.{ToolOutput, ToolError, Task}

module _ {W V : Type 0} where
  -- The outcome is the one with which the execution ends in some world.
  abbrev pub TaskGives : Task W V → Outcome V → Type 0
  TaskGives task o = (w : W) × (o ≡ outcome_of (task.finish w).0)

  -- The outcomes that a future may have.
  abbrev pub MayGive : Slot W V → Outcome V → Type 0
  MayGive (Slot.admitted (LocalToolAdmission.immediate output feedback)) o = o ≡ (output, feedback)
  MayGive (Slot.admitted (LocalToolAdmission.direct task)) o =
      (o ≡ (cancelled_output, false)) ⊎ TaskGives task o
  MayGive (Slot.admitted (LocalToolAdmission.prepared call)) o =
      (o ≡ (cancelled_output, false)) ⊎ TaskGives call.action o
  MayGive (Slot.running task) o = TaskGives task o
  MayGive (Slot.done outcome) o = o ≡ outcome

  -- One outcome for each future, in their order.
  abbrev pub AllGive : List (Slot W V) → List (Outcome V) → Type 0
  AllGive [] [] = Unit {0}
  AllGive (slot ∷ slots) (o ∷ os) = MayGive slot o × AllGive slots os
  AllGive _ _ = ⊥

  abbrev pub Joined : List (Slot W V) → Option (List (Outcome V)) → Type 0
  Joined slots none = ⊥
  Joined slots (some os) = AllGive slots os

  module _ (context : ToolContext W) where
    poll_task-left :
        (pending : List (W → W)) (finish : W → Result ToolError (ToolOutput V) × W) (w : W)
        → polls_left (poll_task pending finish w).0 ≤ length pending
    unfolding poll_task polls_left
    poll_task-left [] finish w = omega arith
    poll_task-left (step ∷ pending) finish w = omega arith

    start_task-left :
        (task : Task W V) (w : W) → polls_left (start_task context task w).0 ≤ length task.pending
    unfolding start_task polls_left
    start_task-left task w =
        ground (arith, poll_task-left task.pending task.finish (context.is_cancelled w).1)

    poll-left : (slot : Slot W V) (w : W) → polls_left (poll context slot w).0 ≤ polls_left slot - 1
    unfolding poll polls_left
    poll-left (Slot.admitted (LocalToolAdmission.immediate output feedback)) w = omega arith
    poll-left (Slot.admitted (LocalToolAdmission.direct task)) w =
        omega (arith, start_task-left task w)
    poll-left (Slot.admitted (LocalToolAdmission.prepared call)) w =
        omega (arith, start_task-left call.action w)
    poll-left (Slot.running task) w = omega (arith, poll_task-left task.pending task.finish w)
    poll-left (Slot.done outcome) w = omega arith

    poll_all-left :
        (slots : List (Slot W V)) (w : W)
        → total_polls (poll_all context slots w).0 ≤ total_polls slots - 1
    unfolding poll_all total_polls
    poll_all-left [] w = omega arith
    poll_all-left (slot ∷ slots) w =
        omega (arith, poll-left slot w, poll_all-left slots (poll context slot w).1)

    poll_task-MayGive :
        (pending : List (W → W)) (finish : W → Result ToolError (ToolOutput V) × W) (w : W)
        (o : Outcome V)
        → MayGive (poll_task pending finish w).0 o
        → (w' : W) × (o ≡ outcome_of (finish w').0)
    unfolding poll_task
    poll_task-MayGive [] finish w o h = (w, h)
    poll_task-MayGive (step ∷ pending) finish w o h = h

    start_task-MayGive :
        (task : Task W V) (w : W) (o : Outcome V)
        → MayGive (start_task context task w).0 o
        → (o ≡ (cancelled_output, false)) ⊎ TaskGives task o
    unfolding start_task
    start_task-MayGive task w o = either (context.is_cancelled w).0
      where
        w' : W
        w' = (context.is_cancelled w).1

        either :
            (b : Bool)
            → let polled : Slot W V × W =
                (if b
                  then (Slot.done (cancelled_output, false), w')
                  else poll_task task.pending task.finish w') in
              MayGive polled.0 o → (o ≡ (cancelled_output, false)) ⊎ TaskGives task o
        either true h = inl h
        either false h = inr (poll_task-MayGive task.pending task.finish w' o h)

    poll-MayGive :
        (slot : Slot W V) (w : W) (o : Outcome V)
        → MayGive (poll context slot w).0 o
        → MayGive slot o
    unfolding poll
    poll-MayGive (Slot.admitted (LocalToolAdmission.immediate output feedback)) w o h = h
    poll-MayGive (Slot.admitted (LocalToolAdmission.direct task)) w o h =
        start_task-MayGive task w o h
    poll-MayGive (Slot.admitted (LocalToolAdmission.prepared call)) w o h =
        start_task-MayGive call.action w o h
    poll-MayGive (Slot.running task) w o h = poll_task-MayGive task.pending task.finish w o h
    poll-MayGive (Slot.done outcome) w o h = h

    poll_all-AllGive :
        (slots : List (Slot W V)) (w : W) (os : List (Outcome V))
        → AllGive (poll_all context slots w).0 os
        → AllGive slots os
    unfolding poll_all
    poll_all-AllGive [] w os h = h
    poll_all-AllGive (slot ∷ slots) w [] h = h
    poll_all-AllGive (slot ∷ slots) w (o ∷ os) (h, hs) =
        (poll-MayGive slot w o h, poll_all-AllGive slots (poll context slot w).1 os hs)

    -- What is collected is one outcome for each future; nothing is collected only while polls are
    -- left.
    abbrev Collected : List (Slot W V) → Option (List (Outcome V)) → Type 0
    Collected slots none = 1 ≤ total_polls slots
    Collected slots (some os) = AllGive slots os

    collect_lem : (slots : List (Slot W V)) → Collected slots (collect slots)
    unfolding collect total_polls polls_left
    collect_lem [] = tt
    collect_lem (Slot.done outcome ∷ slots) = step (collect slots) (collect_lem slots)
      where
        step :
            (r : Option (List (Outcome V)))
            → Collected slots r
            → Collected
                (Slot.done outcome ∷ slots)
                (elim r [ none ↦ none | some outcomes ↦ some (outcome ∷ outcomes) ])
        step none h = omega arith
        step (some os) h = (refl, h)
    collect_lem (Slot.running task ∷ slots) = omega arith
    collect_lem (Slot.admitted (LocalToolAdmission.immediate output feedback) ∷ slots) = omega arith
    collect_lem (Slot.admitted (LocalToolAdmission.direct task) ∷ slots) = omega arith
    collect_lem (Slot.admitted (LocalToolAdmission.prepared call) ∷ slots) = omega arith

    poll_all-Joined :
        (slots : List (Slot W V)) (w : W) (r : Option (List (Outcome V)))
        → Joined (poll_all context slots w).0 r
        → Joined slots r
    poll_all-Joined slots w none h = h
    poll_all-Joined slots w (some os) h = poll_all-AllGive slots w os h

    join_from-Joined :
        (fuel : ℕ) (slots : List (Slot W V)) (w : W)
        → total_polls slots < fuel
        → Joined slots (join_from fuel context slots w).0
    unfolding join_from
    join_from-Joined zero slots w h = absurd (omega arith)
    join_from-Joined (suc fuel) slots w h =
        poll_all-Joined slots w _
          (step (collect slots') (collect_lem slots') (join_from-Joined fuel slots' w'))
      where
        slots' : List (Slot W V)
        slots' = (poll_all context slots w).0

        w' : W
        w' = (poll_all context slots w).1

        step :
            (r : Option (List (Outcome V)))
            → Collected slots' r
            → (total_polls slots' < fuel → Joined slots' (join_from fuel context slots' w').0)
            → let result : Option (List (Outcome V)) × W = (elim r [
              | none ↦ join_from fuel context slots' w'
              | some outcomes ↦ (some outcomes, w')
            ]) in
              Joined slots' result.0
        step none c ih = ih (omega (arith, poll_all-left slots w))
        step (some os) c ih = c

    -- The joined future comes to an end, and its outputs are outcomes of the futures, one for each and
    -- in their order.
    pub join_ordered-Joined :
        (admissions : List (LocalToolAdmission W V)) (w : W)
        → Joined (map Slot.admitted admissions) (join_ordered context admissions w).0
    unfolding join_ordered
    join_ordered-Joined admissions w = join_from-Joined _ _ w (omega arith)
