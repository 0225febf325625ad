-- ===== src/Subagent/Child/Archive.antt =====
-- A closed child stays closed until it is reopened (crates/fx-subagent/src/lib.rs, lines 471 to 643).
use fx_rs.Base.{◌≡◌, List, [], ◌∷◌, arith}
use fx_rs.Subagent.Domain.{ChildState, LifecycleAction, is_settled}
use fx_rs.Subagent.Bounds.{push_event}
use fx_rs.Subagent.Child.{
  Child, send, lifecycle, start_run, settle_run, emit, milestone, with_parent,
}
use fx_rs.Subagent.Child.Configure.{configure-keeps}
use fx_rs.Subagent.Child.Calls.{Call, apply, run}

abbrev IsReopen : Call → Type 0
IsReopen (Call.lifecycles LifecycleAction.reopen now_ms) = Unit {0}
IsReopen _ = ⊥

-- No call reopens the child.
abbrev pub NoneReopens : List Call → Type 0
NoneReopens [] = Unit {0}
NoneReopens (call ∷ calls) = ¬ IsReopen call × NoneReopens calls

apply-archived :
    (call : Call) (child : Child)
    → ¬ IsReopen call
    → child.snapshot.state ≡ ChildState.archived
    → (apply call child).snapshot.state ≡ ChildState.archived
unfolding apply send lifecycle start_run settle_run emit milestone with_parent is_settled push_event
apply-archived (Call.sends content now_ms) child n h = ground arith
apply-archived (Call.configures authority input now_ms) child n h =
    configure-keeps (λ s. s.state ≡ ChildState.archived) authority now_ms
      (record {
        name = λ s name e. e;
        model = λ s model e. e;
        mode = λ s mode le e. e;
        event = λ s kind detail e. e;
      })
      input child h
apply-archived (Call.lifecycles LifecycleAction.cancel now_ms) child n h = ground arith
apply-archived (Call.lifecycles LifecycleAction.resume now_ms) child n h = ground arith
apply-archived (Call.lifecycles LifecycleAction.close now_ms) child n h = ground arith
apply-archived (Call.lifecycles LifecycleAction.reopen now_ms) child n h = absurd (n tt)
apply-archived (Call.starts now_ms) child n h = ground arith
apply-archived (Call.settles result now_ms) child n h = ground arith
apply-archived (Call.emits phase tool call_id is_error now_ms) child n h = h
apply-archived (Call.milestones name now_ms) child n h = h
apply-archived (Call.relates parent now_ms) child n h = h

-- A closed child stays closed, whatever happens to it but a reopening: no message, run, result or
-- change of configuration brings it back.
pub run-archived :
    (calls : List Call) (child : Child)
    → NoneReopens calls
    → child.snapshot.state ≡ ChildState.archived
    → (run calls child).snapshot.state ≡ ChildState.archived
unfolding run
run-archived [] child n h = h
run-archived (call ∷ calls) child (n, ns) h =
    run-archived calls (apply call child) ns (apply-archived call child n h)
