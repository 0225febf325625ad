-- ===== src/Subagent/Child/Cancellation.antt =====
-- What a cancellation does to a child (crates/fx-subagent/src/lib.rs, lines 483 to 490 and 562 to 635).
use fx_rs.Base.{◌≡◌, ◌≢◌, ◌∙◌, true, false, Option, List, [], ◌∷◌, Text, arith}
use fx_rs.Base.Int.{ℤ}
use fx_rs.Message.{ChatMessage}
use fx_rs.Permission.Engine.{PermissionMode}
use fx_rs.Subagent.Domain.{ConfigureInput, ChildState, LifecycleAction, ChildRunResult, is_settled}
use fx_rs.Subagent.Bounds.{push_event}
use fx_rs.Subagent.Child.{
  Child, configure, configured, and_then, set_name, set_model, set_permission_mode, send, lifecycle,
  start_run, settle_run, settle_result, take_next, emit, milestone, with_parent,
}
use fx_rs.Subagent.Child.Configure.{configure-keeps}
use fx_rs.Subagent.Child.Calls.{Call, apply, run}

-- A cancellation of a child whose run waits to start is lost: the run resets the flag, starts and
-- goes on uncancelled.
pub cancel-start_run :
    (child : Child) (cancelled_at started_at : ℤ)
    → child.snapshot.state ≡ ChildState.queued
    → let started = start_run started_at (lifecycle LifecycleAction.cancel cancelled_at child).1 in
      (started.0 ≡ true)
      × (started.1.snapshot.state ≡ ChildState.running)
      × (started.1.cancelled ≡ false)
unfolding lifecycle start_run is_settled push_event
cancel-start_run child cancelled_at started_at h = ground arith

abbrev IsStart : Call → Type 0
IsStart (Call.starts now_ms) = Unit {0}
IsStart _ = ⊥

-- No call starts a run.
abbrev pub NoneStarts : List Call → Type 0
NoneStarts [] = Unit {0}
NoneStarts (call ∷ calls) = ¬ IsStart call × NoneStarts calls

-- The child is cancelled and not running, with the history and the last output given.
abbrev StaysCancelled : List ChatMessage → Option Text → Child → Type 0
StaysCancelled history last_output child =
    (child.cancelled ≡ true)
    × (child.snapshot.history ≡ history)
    × (child.snapshot.last_output ≡ last_output)
    × (child.snapshot.state ≢ ChildState.running)

configure-cancelled :
    (authority : PermissionMode) (input : ConfigureInput) (now_ms : ℤ) (child : Child)
    → (configure authority input now_ms child).1.cancelled ≡ child.cancelled
unfolding configure configured and_then set_name set_model set_permission_mode
configure-cancelled authority input now_ms child = ground arith

module _ (history : List ChatMessage) (last_output : Option Text) where
  settle_run-StaysCancelled :
      (result : ChildRunResult) (now_ms : ℤ) (child : Child)
      → StaysCancelled history last_output child
      → StaysCancelled history last_output (settle_run result now_ms child).1
  unfolding settle_run settle_result take_next push_event
  settle_run-StaysCancelled (ChildRunResult.finished found output) now_ms child h = ground arith
  settle_run-StaysCancelled ChildRunResult.cancelled_run now_ms child h = ground arith
  settle_run-StaysCancelled (ChildRunResult.failed_run error) now_ms child h = ground arith

  apply-StaysCancelled :
      (call : Call) (child : Child)
      → ¬ IsStart call
      → StaysCancelled history last_output child
      → StaysCancelled history last_output (apply call child)
  unfolding apply send lifecycle emit milestone with_parent is_settled push_event
  apply-StaysCancelled (Call.sends content now_ms) child n h = ground arith
  apply-StaysCancelled (Call.configures authority input now_ms) child n h =
      let (cancelled, same_history, same_output, idle) = h in
      let (kept_history, kept_output, not_running) =
        configure-keeps
          (λ s.
            (s.history ≡ history) × (s.last_output ≡ last_output) × (s.state ≢ ChildState.running))
          authority now_ms
          (record {
            name = λ s name f. f;
            model = λ s model f. f;
            mode = λ s mode le f. f;
            event = λ s kind detail f. f;
          })
          input child (same_history, same_output, idle) in
      (
        configure-cancelled authority input now_ms child ∙ cancelled,
        kept_history,
        kept_output,
        not_running,
      )
  apply-StaysCancelled (Call.lifecycles LifecycleAction.cancel now_ms) child n h = ground arith
  apply-StaysCancelled (Call.lifecycles LifecycleAction.resume now_ms) child n h = ground arith
  apply-StaysCancelled (Call.lifecycles LifecycleAction.close now_ms) child n h = ground arith
  apply-StaysCancelled (Call.lifecycles LifecycleAction.reopen now_ms) child n h = ground arith
  apply-StaysCancelled (Call.starts now_ms) child n h = absurd (n tt)
  apply-StaysCancelled (Call.settles result now_ms) child n h =
      settle_run-StaysCancelled result now_ms child h
  apply-StaysCancelled (Call.emits phase tool call_id is_error now_ms) child n h = h
  apply-StaysCancelled (Call.milestones name now_ms) child n h = h
  apply-StaysCancelled (Call.relates parent now_ms) child n h = h

  run-StaysCancelled :
      (calls : List Call) (child : Child)
      → NoneStarts calls
      → StaysCancelled history last_output child
      → StaysCancelled history last_output (run calls child)
  unfolding run
  run-StaysCancelled [] child n h = h
  run-StaysCancelled (call ∷ calls) child (n, ns) h =
      run-StaysCancelled calls (apply call child) ns (apply-StaysCancelled call child n h)

cancel-StaysCancelled :
    (child : Child) (now_ms : ℤ)
    → child.snapshot.state ≡ ChildState.running
    → StaysCancelled child.snapshot.history child.snapshot.last_output
        (lifecycle LifecycleAction.cancel now_ms child).1
unfolding lifecycle is_settled push_event
cancel-StaysCancelled child now_ms h = ground arith

-- Where a running child is cancelled and no run starts on it between the cancellation and the end of
-- the run, that end leaves the history and the last output as they were when it was cancelled, whatever
-- the run brings and whatever else is called in between, and the child is not running then.
pub cancel-settle_run :
    (child : Child) (calls : List Call) (result : ChildRunResult) (cancelled_at settled_at : ℤ)
    → child.snapshot.state ≡ ChildState.running
    → NoneStarts calls
    → let cancelled = (lifecycle LifecycleAction.cancel cancelled_at child).1 in
      let settled = settle_run result settled_at (run calls cancelled) in
      (settled.1.snapshot.history ≡ child.snapshot.history)
      × (settled.1.snapshot.last_output ≡ child.snapshot.last_output)
      × (settled.1.snapshot.state ≢ ChildState.running)
cancel-settle_run child calls result cancelled_at settled_at running none_starts =
    let cancelled : Child = (lifecycle LifecycleAction.cancel cancelled_at child).1 in
    let (_, kept_history, kept_output, not_running) =
      settle_run-StaysCancelled child.snapshot.history child.snapshot.last_output result settled_at
        (run calls cancelled)
        (run-StaysCancelled child.snapshot.history child.snapshot.last_output calls cancelled
          none_starts (cancel-StaysCancelled child cancelled_at running)) in
    (kept_history, kept_output, not_running)
