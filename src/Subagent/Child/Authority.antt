-- ===== src/Subagent/Child/Authority.antt =====
-- The authority of a child (crates/fx-subagent/src/lib.rs, lines 411 to 418).
use fx_rs.Base.{ℕ, ◌≤◌, ◌≡◌, refl, ap, List, [], ◌∷◌, arith}
use fx_rs.Subagent.Domain.{LifecycleAction, ChildRunResult, permission_rank}
use fx_rs.Subagent.Bounds.{push_event}
use fx_rs.Subagent.Child.{
  Child, send, lifecycle, start_run, settle_run, settle_result, take_next, emit, milestone,
  with_parent,
}
use fx_rs.Subagent.Child.Configure.{configure-keeps}
use fx_rs.Subagent.Child.Calls.{Call, apply, run}

-- No configuration in the calls comes from a caller above `rank`.
abbrev pub AllBelow : ℕ → List Call → Type 0
AllBelow rank [] = Unit {0}
AllBelow rank (Call.configures authority input now_ms ∷ calls) =
    (permission_rank authority ≤ rank) × AllBelow rank calls
AllBelow rank (_ ∷ calls) = AllBelow rank calls

abbrev IsConfigure : Call → Type 0
IsConfigure (Call.configures authority input now_ms) = Unit {0}
IsConfigure _ = ⊥

-- Only `configure` changes the permission mode.
apply-mode :
    (call : Call) (child : Child)
    → ¬ IsConfigure call
    → (apply call child).snapshot.permission_mode ≡ child.snapshot.permission_mode
unfolding apply send lifecycle start_run settle_run settle_result take_next emit milestone
    with_parent push_event
apply-mode (Call.sends content now_ms) child n = ground arith
apply-mode (Call.configures authority input now_ms) child n = absurd (n tt)
apply-mode (Call.lifecycles LifecycleAction.cancel now_ms) child n = ground arith
apply-mode (Call.lifecycles LifecycleAction.resume now_ms) child n = ground arith
apply-mode (Call.lifecycles LifecycleAction.close now_ms) child n = refl
apply-mode (Call.lifecycles LifecycleAction.reopen now_ms) child n = ground arith
apply-mode (Call.starts now_ms) child n = ground arith
apply-mode (Call.settles (ChildRunResult.finished history output) now_ms) child n = ground arith
apply-mode (Call.settles ChildRunResult.cancelled_run now_ms) child n = ground arith
apply-mode (Call.settles (ChildRunResult.failed_run error) now_ms) child n = ground arith
apply-mode (Call.emits phase tool call_id is_error now_ms) child n = refl
apply-mode (Call.milestones name now_ms) child n = refl
apply-mode (Call.relates parent now_ms) child n = refl

apply-rank :
    (rank : ℕ) (call : Call) (calls : List Call) (child : Child)
    → AllBelow rank (call ∷ calls)
    → permission_rank child.snapshot.permission_mode ≤ rank
    → (permission_rank (apply call child).snapshot.permission_mode ≤ rank) × AllBelow rank calls
unfolding apply emit milestone with_parent push_event
apply-rank rank (Call.configures authority input now_ms) calls child (below, rest) h = (
  configure-keeps (λ s. permission_rank s.permission_mode ≤ rank) authority now_ms
      (record {
        name = λ s name e. e;
        model = λ s model e. e;
        mode = λ s mode le e. omega arith;
        event = λ s kind detail e. e;
      })
      input child h,
  rest,
)
apply-rank rank (Call.sends content now_ms) calls child below h = (
  ground (arith, ap permission_rank (apply-mode (Call.sends content now_ms) child (λ x. x))),
  below,
)
apply-rank rank (Call.lifecycles action now_ms) calls child below h = (
  ground (arith, ap permission_rank (apply-mode (Call.lifecycles action now_ms) child (λ x. x))),
  below,
)
apply-rank rank (Call.starts now_ms) calls child below h =
    (ground (arith, ap permission_rank (apply-mode (Call.starts now_ms) child (λ x. x))), below)
apply-rank rank (Call.settles result now_ms) calls child below h = (
  ground (arith, ap permission_rank (apply-mode (Call.settles result now_ms) child (λ x. x))),
  below,
)
apply-rank rank (Call.emits phase tool call_id is_error now_ms) calls child below h = (h, below)
apply-rank rank (Call.milestones name now_ms) calls child below h = (h, below)
apply-rank rank (Call.relates parent now_ms) calls child below h = (h, below)

-- A child whose permission mode is within a rank keeps within it, whatever happens to it, as long as
-- no caller above that rank configures it.
pub run-rank :
    (rank : ℕ) (calls : List Call) (child : Child)
    → AllBelow rank calls
    → permission_rank child.snapshot.permission_mode ≤ rank
    → permission_rank (run calls child).snapshot.permission_mode ≤ rank
unfolding run
run-rank rank [] child below h = h
run-rank rank (call ∷ calls) child below h =
    let (kept, rest) = apply-rank rank call calls child below h in
    run-rank rank calls (apply call child) rest kept
