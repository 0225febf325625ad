-- ===== src/Subagent/Tree/Forest.antt =====
-- The parents of the children stay a forest (crates/fx-subagent/src/lib.rs, lines 429 to 469 and 686
-- to 707).
use fx_rs.Base.{
  suc, ◌≡◌, refl, Bool, true, false, not, Option, none, some, Text, text_eq, if◌then◌else◌, length,
  Result, ok, err, arith,
}
use mathlib.Core.Path.{subst}
use fx_rs.Base.Int.{ℤ}
use fx_rs.Subagent.Bounds.{push_event}
use fx_rs.Subagent.Child.{Child, with_parent}
use fx_rs.Subagent.Domain.{ManagerError}
use fx_rs.Subagent.Tree.{
  Children, find, update, would_cycle_from, relationship_would_cycle, RelationshipAction,
  next_parent, relationship, is_authorized,
}
use fx_rs.Subagent.Tree.Ancestry.{
  Rooted, IsForest, find-update, find-update-none, Rooted-would_cycle, Rooted-update,
}

with_parent-parent :
    (parent : Option Text) (now_ms : ℤ) (child : Child)
    → (with_parent parent now_ms child).snapshot.parent_id ≡ parent
unfolding with_parent push_event
with_parent-parent parent now_ms child = refl

module _ (children : Children) (id : Text) (now_ms : ℤ) (child : Child)
    (at : find children id ≡ some child) where
  Rooted-detached : Rooted (update children id (with_parent none now_ms)) id
  Rooted-detached =
      Rooted.top id (with_parent none now_ms child) (find-update children id child _ at)
        (with_parent-parent none now_ms child)

  Rooted-attached :
      (parent : Text)
      → Rooted (update children id (with_parent (some parent) now_ms)) parent
      → Rooted (update children id (with_parent (some parent) now_ms)) id
  Rooted-attached parent r =
      Rooted.below id (with_parent (some parent) now_ms child) parent
        (find-update children id child _ at) (with_parent-parent (some parent) now_ms child) r

  -- The child whose parent changes is rooted below its new parent.
  Rooted-with_parent :
      (root_id caller_id : Text) (action : RelationshipAction) (parent_id next : Option Text)
      → find children root_id ≡ none
      → next_parent root_id children caller_id action id parent_id ≡ ok next
      → Rooted (update children id (with_parent next now_ms)) id
  unfolding next_parent relationship_would_cycle
  Rooted-with_parent root_id caller_id action parent_id none root e = Rooted-detached
  Rooted-with_parent root_id caller_id RelationshipAction.detach parent_id (some next) root e =
      ground arith
  Rooted-with_parent root_id caller_id RelationshipAction.attach parent_id (some next) root e =
      let same : root_id ≡ next = ground arith in
      Rooted-attached next (
        Rooted.outside next
          (find-update-none children id next _ (subst (λ k. find children k ≡ none) same root)))
  Rooted-with_parent root_id caller_id RelationshipAction.reparent none (some next) root e =
      ground arith
  Rooted-with_parent root_id caller_id RelationshipAction.reparent (some parent) (some next) root
        e =
      let same : parent ≡ next = ground arith in
      let no_cycle : would_cycle_from (suc (length children)) children id parent ≡ false =
        ground arith in
      Rooted-attached next (
        Rooted-would_cycle children id (with_parent (some next) now_ms) (suc (length children)) next
          (subst (λ k. would_cycle_from (suc (length children)) children id k ≡ false) same
            no_cycle))

-- Where the session itself is not a child and no child is its own ancestor, a change of a
-- relationship leaves it so, whether it succeeds or fails: it makes no cycle.
pub relationship-IsForest :
    (root_id caller_id : Text) (action : RelationshipAction) (id : Text) (parent_id : Option Text)
    (now_ms : ℤ) (children : Children)
    → find children root_id ≡ none
    → IsForest children
    → IsForest (relationship root_id caller_id action id parent_id now_ms children).1
unfolding relationship
relationship-IsForest root_id caller_id action id parent_id now_ms children root forest =
    either (not (is_authorized root_id children caller_id id)) (find children id) refl
      (not (text_eq caller_id root_id)) (next_parent root_id children caller_id action id parent_id)
      refl
  where
    after : Result ManagerError (Option Text) → Result ManagerError (Unit {0}) × Children
    after r = elim r [
      | err e ↦ (err e, children)
      | ok parent ↦ (ok tt, update children id (with_parent parent now_ms))
    ]

    past_find :
        Option Child
        → Bool
        → Result ManagerError (Option Text)
        → Result ManagerError (Unit {0}) × Children
    past_find o foreign r = elim o [
      | none ↦ (err (ManagerError.not_found id), children)
      | some child ↦ if foreign then (err (ManagerError.unsupported id), children) else after r
    ]

    either :
        (unauthorized : Bool) (o : Option Child)
        → find children id ≡ o
        → (foreign : Bool) (r : Result ManagerError (Option Text))
        → next_parent root_id children caller_id action id parent_id ≡ r
        → IsForest
            (if unauthorized
              then (err (ManagerError.not_found id), children)
              else past_find o foreign r).1
    either true o at foreign r e = forest
    either false none at foreign r e = forest
    either false (some child) at true r e = forest
    either false (some child) at false (err error) e = forest
    either false (some child) at false (ok next) e = λ other.
        Rooted-update children id (with_parent next now_ms)
          (Rooted-with_parent children id now_ms child at root_id caller_id action parent_id next
            root e)
          other (forest other)
