-- ===== src/Subagent/Child/Calls.antt =====
-- Histories of a child: its operations, in any order.
use fx_rs.Base.{Bool, Option, List, [], ◌∷◌, Text}
use fx_rs.Base.Int.{ℤ}
use fx_rs.Permission.Engine.{PermissionMode}
use fx_rs.Subagent.Domain.{LifecycleAction, ConfigureInput, ChildRunResult}
use fx_rs.Subagent.Child.{
  Child, send, configure, lifecycle, start_run, settle_run, emit, milestone, with_parent,
}

pub data Call : Type 0 where
  sends : Text → ℤ → Call
  configures : PermissionMode → ConfigureInput → ℤ → Call
  lifecycles : LifecycleAction → ℤ → Call
  starts : ℤ → Call
  settles : ChildRunResult → ℤ → Call
  emits : Text → Text → Text → Option Bool → ℤ → Call
  milestones : Text → ℤ → Call
  relates : Option Text → ℤ → Call

unfoldable pub apply : Call → Child → Child
apply (sends content now_ms) child = (send content now_ms child).1
apply (configures authority input now_ms) child = (configure authority input now_ms child).1
apply (lifecycles action now_ms) child = (lifecycle action now_ms child).1
apply (starts now_ms) child = (start_run now_ms child).1
apply (settles result now_ms) child = (settle_run result now_ms child).1
apply (emits phase tool call_id is_error now_ms) child =
    emit phase tool call_id is_error now_ms child
apply (milestones name now_ms) child = milestone name now_ms child
apply (relates parent now_ms) child = with_parent parent now_ms child

unfoldable pub run : List Call → Child → Child
run [] child = child
run (call ∷ calls) child = run calls (apply call child)
