-- ===== src/Subagent/Tests.antt =====
-- Histories of one child (crates/fx-subagent/src/lib.rs).
use fx_rs.Base.{◌≤◌, ◌≡◌, ◌≢◌, refl, true, false, none, some, List, [], ◌∷◌, text, arith}
use fx_rs.Base.Int.{pos}
use fx_rs.Permission.Engine.{PermissionMode}
use fx_rs.Subagent.Domain.{
  ChildSnapshot, ChildMode, ChildState, LifecycleAction, ConfigureInput, ChildRunResult,
  permission_rank,
}
use fx_rs.Base.{Bool, text_eq, ok}
use fx_rs.Subagent.Tree.{
  Children, find, RelationshipAction, relationship, is_authorized, next_parent,
  relationship_would_cycle, would_cycle_from,
}
use fx_rs.Subagent.Tree.Ancestry.{IsForest, Rooted}
use fx_rs.Subagent.Tree.Forest.{relationship-IsForest}
use fx_rs.Subagent.Child.{Child, lifecycle, start_run, settle_run}
use fx_rs.Subagent.Child.Archive.{run-archived}
use fx_rs.Subagent.Child.Authority.{run-rank}
use fx_rs.Subagent.Child.Bounded.{Fits, run-Fits}
use fx_rs.Subagent.Child.Calls.{Call, run}
use fx_rs.Subagent.Child.Cancellation.{cancel-start_run, cancel-settle_run}

abbrev snapshot : ChildState → ChildSnapshot
snapshot state = record {
  id = text "child-1";
  parent_id = some (text "root");
  name = text "helper";
  mode = ChildMode.persistent;
  model = text "m";
  permission_mode = PermissionMode.auto;
  state = state;
  generation = 1;
  created_at_ms = pos 5;
  updated_at_ms = pos 5;
  history = [];
  queued_messages = [];
  tool_activity = [];
  events = [];
  last_output = none;
  failure = none;
}

abbrev child : ChildState → Child
child state = record { snapshot = snapshot state; cancelled = false }

abbrev to_ask : ConfigureInput
to_ask = record {
  id = text "child-1";
  name = some (text "renamed");
  model = none;
  permission_mode = some PermissionMode.ask;
}

abbrev calls : List Call
calls =
    Call.sends (text "go") (pos 6)
    ∷ Call.starts (pos 7)
    ∷ Call.settles (ChildRunResult.finished [] (text "done")) (pos 8)
    ∷ Call.configures PermissionMode.auto to_ask (pos 9)
    ∷ Call.milestones (text "tests pass") (pos 10)
    ∷ Call.relates none (pos 11)
    ∷ []

-- A message that waits, and the child resumed before its cancelled run has ended.
abbrev between : List Call
between =
    Call.sends (text "go on") (pos 7)
    ∷ Call.lifecycles LifecycleAction.resume (pos 8)
    ∷ Call.milestones (text "tests pass") (pos 9)
    ∷ []

run-Fits_example : Fits (run calls (child ChildState.idle)).snapshot
run-Fits_example = run-Fits calls (child ChildState.idle) (omega arith, omega arith, omega arith)

run-archived_example : (run calls (child ChildState.archived)).snapshot.state ≡ ChildState.archived
run-archived_example =
    run-archived calls (child ChildState.archived)
      (λ x. x, (λ x. x, (λ x. x, (λ x. x, (λ x. x, (λ x. x, tt)))))) refl

run-rank_example : permission_rank (run calls (child ChildState.idle)).snapshot.permission_mode ≤ 1
run-rank_example =
    run-rank 1 calls (child ChildState.idle) (unfold permission_rank in omega arith, tt)
      (unfold permission_rank in omega arith)

cancel-start_run_example :
    let started =
      start_run (pos 7) (lifecycle LifecycleAction.cancel (pos 6) (child ChildState.queued)).1 in
    (started.0 ≡ true)
    × (started.1.snapshot.state ≡ ChildState.running)
    × (started.1.cancelled ≡ false)
cancel-start_run_example = cancel-start_run (child ChildState.queued) (pos 6) (pos 7) refl

cancel-settle_run_example :
    let cancelled = (lifecycle LifecycleAction.cancel (pos 6) (child ChildState.running)).1 in
    let settled =
      settle_run (ChildRunResult.finished [] (text "done")) (pos 10) (run between cancelled) in
    (settled.1.snapshot.history ≡ [])
    × (settled.1.snapshot.last_output ≡ none)
    × (settled.1.snapshot.state ≢ ChildState.running)
cancel-settle_run_example =
    cancel-settle_run (child ChildState.running) between (ChildRunResult.finished [] (text "done"))
      (pos 6) (pos 10) refl (λ x. x, (λ x. x, (λ x. x, tt)))

-- Two children of the session.
abbrev siblings : Children
siblings = (text "a", child ChildState.idle) ∷ (text "b", child ChildState.idle) ∷ []

session_outside : find siblings (text "root") ≡ none
unfolding find text_eq
session_outside = refl

siblings-IsForest : IsForest siblings
unfolding find
siblings-IsForest id = step (text_eq id (text "a")) (text_eq id (text "b")) refl refl
  where
    under_session : find siblings id ≡ some (child ChildState.idle) → Rooted siblings id
    under_session at =
        Rooted.below id (child ChildState.idle) (text "root") at refl
          (Rooted.outside (text "root") session_outside)

    step : (a b : Bool) → text_eq id (text "a") ≡ a → text_eq id (text "b") ≡ b → Rooted siblings id
    step true b ea eb = under_session (unfold find in ground arith)
    step false true ea eb = under_session (unfold find in ground arith)
    step false false ea eb = Rooted.outside id (unfold find in ground arith)

relationship-IsForest_example :
    IsForest
      (relationship
        (text "root")
        (text "root")
        RelationshipAction.reparent
        (text "b")
        (some (text "a"))
        (pos 6)
        siblings).1
relationship-IsForest_example =
    relationship-IsForest (text "root") (text "root") RelationshipAction.reparent (text "b")
      (some (text "a")) (pos 6) siblings session_outside siblings-IsForest

-- The change is made.
reparented :
    (relationship
      (text "root")
      (text "root")
      RelationshipAction.reparent
      (text "b")
      (some (text "a"))
      (pos 6)
      siblings).0
    ≡ ok tt
unfolding relationship find text_eq is_authorized next_parent relationship_would_cycle
    would_cycle_from
reparented = refl
