-- ===== src/Subagent/Tree.antt =====
-- The tree of children (crates/fx-subagent/src/lib.rs, lines 106 to 110, 333 to 352, 429 to 469 and
-- 645 to 707).
-- The children stand in an association list by their id, in the order of the map.
pub mod Ancestry
pub mod Forest
use fx_rs.Base.{
  ℕ, zero, suc, Bool, true, false, not, ◌||◌, Option, none, some, List, [], ◌∷◌, Text, text,
  text_eq, if◌then◌else◌, length, Result, ok, err,
}
use fx_rs.Base.Int.{ℤ}
use fx_rs.Subagent.Child.{Child, milestone, with_parent}
use fx_rs.Subagent.Domain.{ManagerError, validate_text, max_name_bytes}

abbrev pub Children : Type 0
Children = List (Text × Child)

unfoldable pub find : Children → Text → Option Child
find [] id = none
find ((key, child) ∷ children) id = if text_eq id key then some child else find children id

-- The change of the child that an id names.
unfoldable pub update : Children → Text → (Child → Child) → Children
update [] id change = []
update ((key, child) ∷ children) id change =
    if text_eq id key
    then (key, change child) ∷ children
    else (key, child) ∷ update children id change

abbrev is_some_child : Option Child → Bool
is_some_child none = false
is_some_child (some child) = true

-- The loop up the parents.
unfoldable pub is_authorized_from : ℕ → Children → Text → Text → Bool
is_authorized_from zero children caller_id current = false
is_authorized_from (suc fuel) children caller_id current =
    if text_eq current caller_id then true else elim (find children current) [
      | none ↦ false
      | some child ↦ elim child.snapshot.parent_id [
        | none ↦ false
        | some parent ↦
            if text_eq parent caller_id
            then true
            else is_authorized_from fuel children caller_id parent
      ]
    ]

unfoldable pub is_authorized : Text → Children → Text → Text → Bool
is_authorized root_id children caller_id id =
    if text_eq caller_id root_id
    then is_some_child (find children id)
    else is_authorized_from (length children) children caller_id id

unfoldable pub would_cycle_from : ℕ → Children → Text → Text → Bool
would_cycle_from zero children child_id current = true
would_cycle_from (suc fuel) children child_id current =
    if text_eq current child_id then true else elim (find children current) [
      | none ↦ false
      | some child ↦ elim child.snapshot.parent_id [
        | none ↦ false
        | some parent ↦ would_cycle_from fuel children child_id parent
      ]
    ]

unfoldable pub relationship_would_cycle : Children → Text → Text → Bool
relationship_would_cycle children child_id parent_id =
    would_cycle_from (suc (length children)) children child_id parent_id

pub data RelationshipAction : Type 0 where
  attach detach reparent : RelationshipAction

-- The parent that an action asks for.
unfoldable pub next_parent :
    Text
    → Children
    → Text
    → RelationshipAction
    → Text
    → Option Text
    → Result ManagerError (Option Text)
next_parent root_id children caller_id RelationshipAction.detach id parent_id = ok none
next_parent root_id children caller_id RelationshipAction.attach id parent_id = ok (some root_id)
next_parent root_id children caller_id RelationshipAction.reparent id none =
    err (ManagerError.invalid_input (text "reparent requires parent_id"))
next_parent root_id children caller_id RelationshipAction.reparent id (some parent) =
    if not (is_authorized root_id children caller_id parent)
      || relationship_would_cycle children id parent
    then err (ManagerError.invalid_input (text "invalid or cyclic parent relationship"))
    else ok (some parent)

unfoldable pub relationship :
    Text
    → Text
    → RelationshipAction
    → Text
    → Option Text
    → ℤ
    → Children
    → Result ManagerError (Unit {0}) × Children
relationship root_id caller_id action id parent_id now_ms children =
    if not (is_authorized root_id children caller_id id)
    then (err (ManagerError.not_found id), children)
    else elim (find children id) [
      | none ↦ (err (ManagerError.not_found id), children)
      | some child ↦
          if not (text_eq caller_id root_id)
          then (err (ManagerError.unsupported id), children)
          else elim (next_parent root_id children caller_id action id parent_id) [
            | err e ↦ (err e, children)
            | ok parent ↦ (ok tt, update children id (with_parent parent now_ms))
          ]
    ]

-- `message`, its `milestone` branch: a child reports on itself.
unfoldable pub emit_milestone :
    Text → Text → Text → ℤ → Children → Result ManagerError (Unit {0}) × Children
emit_milestone root_id caller_id name now_ms children =
    elim (validate_text (text "milestone") name max_name_bytes) [
      | err e ↦ (err e, children)
      | ok _ ↦
          if text_eq caller_id root_id
          then (err (ManagerError.unsupported caller_id), children)
          else if not (is_authorized root_id children caller_id caller_id)
          then (err (ManagerError.not_found caller_id), children)
          else elim (find children caller_id) [
            | none ↦ (err (ManagerError.not_found caller_id), children)
            | some child ↦ (ok tt, update children caller_id (milestone name now_ms))
          ]
    ]
