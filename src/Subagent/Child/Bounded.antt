-- ===== src/Subagent/Child/Bounded.antt =====
-- What a child keeps stays bounded (crates/fx-subagent/src/lib.rs, lines 1053 to 1080).
use fx_rs.Base.{◌≤◌, Bool, List, [], ◌∷◌, Text, length, arith}
use fx_rs.Base.Int.{ℤ}
use fx_rs.Subagent.Domain.{ChildSnapshot, LifecycleAction, ChildRunResult}
use fx_rs.Subagent.Bounds.{
  retain_tail-length, push_event, bound_history-length, max_event_items, max_activity_items,
  max_messages,
}
use fx_rs.Subagent.Child.{
  Child, send, lifecycle, start_run, settle_run, settle_result, take_next, emit, advance, milestone,
  with_parent,
}
use fx_rs.Subagent.Child.Configure.{configure-keeps}
use fx_rs.Subagent.Child.Calls.{Call, apply, run}

-- The lists of a child keep to their bounds.
abbrev pub Fits : ChildSnapshot → Type 0
Fits s =
    (length s.events ≤ max_event_items)
    × (length s.tool_activity ≤ max_activity_items)
    × (length s.history ≤ max_messages)

push_event-Fits :
    (s : ChildSnapshot) (kind detail : Text) (now_ms : ℤ)
    → length s.tool_activity ≤ max_activity_items
    → length s.history ≤ max_messages
    → Fits (push_event s kind detail now_ms)
unfolding push_event
push_event-Fits s kind detail now_ms a h = (retain_tail-length _ max_event_items, a, h)

settle_result-Fits :
    (result : ChildRunResult) (cancelled : Bool) (s : ChildSnapshot) (now_ms : ℤ)
    → Fits s
    → Fits (settle_result result cancelled s now_ms)
unfolding settle_result
settle_result-Fits (ChildRunResult.finished history output) cancelled s now_ms h =
    grind (arith, push_event-Fits, bound_history-length)
settle_result-Fits ChildRunResult.cancelled_run cancelled s now_ms h =
    grind (arith, push_event-Fits)
settle_result-Fits (ChildRunResult.failed_run error) cancelled s now_ms h =
    grind (arith, push_event-Fits)

take_next-Fits : (s : ChildSnapshot) → Fits s → Fits (take_next s).1
unfolding take_next
take_next-Fits s h = grind arith

apply-Fits : (call : Call) (child : Child) → Fits child.snapshot → Fits (apply call child).snapshot
unfolding apply send lifecycle start_run settle_run emit milestone with_parent
apply-Fits (Call.sends content now_ms) child h = grind (arith, push_event-Fits)
apply-Fits (Call.configures authority input now_ms) child h =
    configure-keeps Fits authority now_ms
      (record {
        name = λ s name f. f;
        model = λ s model f. f;
        mode = λ s mode le f. f;
        event = λ s kind detail f. push_event-Fits _ kind detail now_ms f.1 f.2;
      })
      input child h
apply-Fits (Call.lifecycles LifecycleAction.cancel now_ms) child h = grind (arith, push_event-Fits)
apply-Fits (Call.lifecycles LifecycleAction.resume now_ms) child h = grind (arith, push_event-Fits)
apply-Fits (Call.lifecycles LifecycleAction.close now_ms) child h = grind (arith, push_event-Fits)
apply-Fits (Call.lifecycles LifecycleAction.reopen now_ms) child h = grind (arith, push_event-Fits)
apply-Fits (Call.starts now_ms) child h = grind (arith, push_event-Fits)
apply-Fits (Call.settles result now_ms) child h = grind (
  arith,
  take_next-Fits (settle_result result child.cancelled (advance child.snapshot now_ms) now_ms)
      (settle_result-Fits result child.cancelled (advance child.snapshot now_ms) now_ms h),
)
apply-Fits (Call.emits phase tool call_id is_error now_ms) child h =
    grind (arith, retain_tail-length)
apply-Fits (Call.milestones name now_ms) child h = push_event-Fits _ _ _ now_ms h.1 h.2
apply-Fits (Call.relates parent now_ms) child h = push_event-Fits _ _ _ now_ms h.1 h.2

-- A child with at most 200 events, 200 tool activities and 256 messages of history keeps to these
-- bounds under messages, configurations, lifecycle actions, starts and ends of runs, tool events,
-- milestones and changes of its parent, in any order.
pub run-Fits :
    (calls : List Call) (child : Child) → Fits child.snapshot → Fits (run calls child).snapshot
unfolding run
run-Fits [] child h = h
run-Fits (call ∷ calls) child h = run-Fits calls (apply call child) (apply-Fits call child h)
