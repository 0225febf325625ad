-- ===== src/Subagent/Child.antt =====
-- The operations on one child (crates/fx-subagent/src/lib.rs, lines 71 to 95, 340 to 423, 455 to
-- 534, 562 to 635 and 736 to 755): each is the closure that its caller runs under the child's lock.
pub mod Calls
pub mod Bounded
pub mod Archive
pub mod Configure
pub mod Authority
pub mod Cancellation
use fx_rs.Base.{
  ℕ, ◌+◌, Bool, true, false, not, ◌&&◌, ◌||◌, Option, none, some, List, [], ◌∷◌, ◌++◌, Text, text,
  leb, ltb, if◌then◌else◌, saturating_add, Result, ok, err, unwrap_or, is_nil,
}
use fx_rs.Base.Int.{ℤ}
use fx_rs.Message.{ChatMessage}
use fx_rs.Permission.Engine.{PermissionMode}
use fx_rs.Subagent.Domain.{
  ChildSnapshot, ChildMode, ChildState, LifecycleAction, ConfigureInput, ToolActivity,
  ChildRunResult, ManagerError, is_settled, validate_text, permission_rank, max_name_bytes,
  max_model_bytes, max_message_bytes,
}
use fx_rs.Subagent.Bounds.{
  retain_tail, push_event, bound_history, truncate_owned, max_activity_items,
}

-- `cancelled` is the flag of the cancellation that the child's runs share.
pub record Child : Type 0 where
  pub snapshot : ChildSnapshot
  pub cancelled : Bool

-- The change of a closure that can fail: what was written before the error stays.
abbrev pub Change : Type 0 → Type 0
Change A = Child → Result ManagerError A × Child

abbrev pub advance : ChildSnapshot → ℤ → ChildSnapshot
advance snapshot now_ms = record snapshot {
  generation = saturating_add snapshot.generation 1;
  updated_at_ms = now_ms;
}

abbrev pub is_busy : ChildState → Bool
is_busy state = not (is_settled state)

abbrev with_snapshot : Child → ChildSnapshot → Child
with_snapshot child snapshot = record child { snapshot = snapshot }

abbrev is_persistent : ChildMode → Bool
is_persistent ChildMode.persistent = true
is_persistent ChildMode.one_off = false

abbrev is_archived : ChildState → Bool
is_archived ChildState.archived = true
is_archived _ = false

-- `message`, its `send` branch: the result says whether a run has to start.
unfoldable pub send : Text → ℤ → Change Bool
send content now_ms child =
    let s = record (advance child.snapshot now_ms) { failure = none } in
    if not (is_persistent child.snapshot.mode) || is_archived child.snapshot.state
    then (err (ManagerError.unsupported child.snapshot.id), child)
    else if is_busy child.snapshot.state
    then (
      ok false,
      with_snapshot child (
          push_event (record s { queued_messages = s.queued_messages ++ content ∷ [] })
            (text "message_queued") (text "parent sent work") now_ms),
    )
    else (
      ok true,
      with_snapshot child (
          push_event (record s { state = ChildState.queued }) (text "message_queued")
            (text "parent sent work") now_ms),
    )

-- The name of a configuration, when it is valid.
unfoldable pub set_name : Option Text → Change (Unit {0})
set_name none child = (ok tt, child)
set_name (some name) child = elim (validate_text (text "name") name max_name_bytes) [
  | ok _ ↦ (ok tt, with_snapshot child (record child.snapshot { name = name }))
  | err e ↦ (err e, child)
]

unfoldable pub set_model : Option Text → Change (Unit {0})
set_model none child = (ok tt, child)
set_model (some model) child = elim (validate_text (text "model") model max_model_bytes) [
  | ok _ ↦ (ok tt, with_snapshot child (record child.snapshot { model = model }))
  | err e ↦ (err e, child)
]

unfoldable pub set_permission_mode : PermissionMode → Option PermissionMode → Change (Unit {0})
set_permission_mode authority none child = (ok tt, child)
set_permission_mode authority (some mode) child =
    if ltb (permission_rank authority) (permission_rank mode)
    then (
      err (
          ManagerError.invalid_input (text "child permission mode cannot exceed caller authority")),
      child,
    )
    else (ok tt, with_snapshot child (record child.snapshot { permission_mode = mode }))

-- One change after another, until one fails.
unfoldable pub and_then :
    {A B : Type 0} → Result ManagerError A × Child → Change B → Result ManagerError B × Child
and_then (ok _, child) next = next child
and_then (err e, child) next = (err e, child)

unfoldable pub configured : ℤ → Change (Unit {0})
configured now_ms child = (
  ok tt,
  with_snapshot child (
      push_event (advance child.snapshot now_ms) (text "configured")
        (text "child configuration changed") now_ms),
)

-- `configure`, for an input with a change in it.
unfoldable pub configure : PermissionMode → ConfigureInput → ℤ → Change (Unit {0})
configure authority input now_ms child =
    if is_busy child.snapshot.state
    then (err (ManagerError.busy child.snapshot.id), child)
    else and_then
        (and_then (and_then (set_name input.name child) (set_model input.model))
          (set_permission_mode authority input.permission_mode))
        (configured now_ms)

abbrev pub resume_text : Text
resume_text =
    text "Resume the interrupted task. Reassess current workspace state before continuing."

abbrev pub first_message : List Text → Text
first_message [] = resume_text
first_message (message ∷ messages) = message

abbrev pub other_messages : List Text → List Text
other_messages [] = []
other_messages (message ∷ messages) = messages

abbrev can_resume : ChildState → Bool
can_resume ChildState.interrupted = true
can_resume ChildState.failed = true
can_resume ChildState.cancelled = true
can_resume _ = false

abbrev reopened : ChildMode → ChildState
reopened ChildMode.persistent = ChildState.idle
reopened ChildMode.one_off = ChildState.interrupted

-- `lifecycle`: the result is the prompt of a run that has to start. The generation moves on before
-- the state is looked at, also where the action is refused.
unfoldable pub lifecycle : LifecycleAction → ℤ → Change (Option Text)
lifecycle LifecycleAction.cancel now_ms child =
    let s = advance child.snapshot now_ms in
    if is_settled s.state then (err (ManagerError.unsupported s.id), with_snapshot child s) else (
      ok none,
      record {
        snapshot =
            push_event (record s { state = ChildState.cancelled }) (text "cancelled")
              (text "cancellation requested") now_ms;
        cancelled = true;
      },
    )
lifecycle LifecycleAction.close now_ms child =
    let s = advance child.snapshot now_ms in
    (
      ok none,
      record {
        snapshot =
            push_event (record s { state = ChildState.archived; queued_messages = [] })
              (text "archived") (text "child closed") now_ms;
        cancelled = true;
      },
    )
lifecycle LifecycleAction.reopen now_ms child =
    let s = advance child.snapshot now_ms in
    if not (is_archived s.state)
    then (err (ManagerError.unsupported s.id), with_snapshot child s)
    else (
      ok none,
      with_snapshot child (
          push_event (record s { state = reopened s.mode }) (text "reopened")
            (text "child reopened") now_ms),
    )
lifecycle LifecycleAction.resume now_ms child =
    let s = advance child.snapshot now_ms in
    if not (can_resume s.state)
    then (err (ManagerError.unsupported s.id), with_snapshot child s)
    else (
      ok (some (first_message s.queued_messages)),
      with_snapshot child (
          push_event
            (record s {
              queued_messages = other_messages s.queued_messages;
              state = ChildState.queued;
              failure = none;
            })
            (text "resumed") (text "child queued for resume") now_ms),
    )

-- `run_child`, up to the call of the executor: whether the run starts.
unfoldable pub start_run : ℤ → Child → Bool × Child
start_run now_ms child =
    let s = record (advance child.snapshot now_ms) { state = ChildState.running; failure = none } in
    if is_archived child.snapshot.state then (false, record child { cancelled = false }) else (
      true,
      record {
        snapshot = push_event s (text "started") (text "child generation started") now_ms;
        cancelled = false;
      },
    )

abbrev settled_state : ChildMode → ChildState
settled_state ChildMode.persistent = ChildState.idle
settled_state ChildMode.one_off = ChildState.completed

abbrev settle_cancelled : ChildSnapshot → ℤ → ChildSnapshot
settle_cancelled s now_ms =
    push_event (record s { state = ChildState.cancelled; failure = none }) (text "cancelled")
      (text "child generation cancelled") now_ms

-- What the result of a run does to a child that is not archived.
unfoldable pub settle_result : ChildRunResult → Bool → ChildSnapshot → ℤ → ChildSnapshot
settle_result (ChildRunResult.finished history output) cancelled s now_ms =
    if not cancelled
    then push_event
        (record s {
          history = bound_history history;
          last_output = some output;
          failure = none;
          state = settled_state s.mode;
        })
        (text "settled") (text "child generation completed") now_ms
    else settle_cancelled s now_ms
settle_result ChildRunResult.cancelled_run cancelled s now_ms = settle_cancelled s now_ms
settle_result (ChildRunResult.failed_run error) cancelled s now_ms =
    push_event
      (record s {
        state = ChildState.failed;
        failure = some (truncate_owned error max_message_bytes);
      })
      (text "failed") (text "child generation failed") now_ms

-- The next message of a persistent child: its run starts at once.
unfoldable pub take_next : ChildSnapshot → Option Text × ChildSnapshot
take_next s =
    if is_persistent s.mode && (not (is_archived s.state) && not (is_nil s.queued_messages))
    then (
      some (first_message s.queued_messages),
      record s { queued_messages = other_messages s.queued_messages; state = ChildState.queued },
    )
    else (none, s)

-- `run_child`, behind the call of the executor: the prompt of the next run, if there is one.
unfoldable pub settle_run : ChildRunResult → ℤ → Child → Option Text × Child
settle_run result now_ms child =
    let s = advance child.snapshot now_ms in
    let (next, s') = take_next (settle_result result child.cancelled s now_ms) in
    if is_archived s.state then (none, with_snapshot child s) else (next, with_snapshot child s')

-- `LiveEvents::emit`: the phase, the tool, the call, and the error flag of a tool that finished.
unfoldable pub emit : Text → Text → Text → Option Bool → ℤ → Child → Child
emit phase tool call_id is_error now_ms child =
    let s = advance child.snapshot now_ms in
    with_snapshot child (record s {
      tool_activity =
          retain_tail
            (s.tool_activity
              ++ (record {
                generation = s.generation;
                phase = phase;
                tool = tool;
                call_id = call_id;
                is_error = is_error;
              })
                ∷ [])
            max_activity_items;
    })

-- The closure of a milestone.
unfoldable pub milestone : Text → ℤ → Child → Child
milestone name now_ms child =
    with_snapshot child (push_event (advance child.snapshot now_ms) (text "milestone") name now_ms)

-- The closure of `relationship`, at the parent that it was given.
unfoldable pub with_parent : Option Text → ℤ → Child → Child
with_parent parent now_ms child = record child {
  snapshot =
      push_event (record (advance child.snapshot now_ms) { parent_id = parent })
        (text "relationship_changed") (text "parent relationship changed") now_ms;
}
