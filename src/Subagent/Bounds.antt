-- ===== src/Subagent/Bounds.antt =====
-- The bounds on what a child keeps (crates/fx-subagent/src/lib.rs, lines 1053 to 1091).
use fx_rs.Base.{
  ℕ, ◌-◌, ◌≤◌, List, [], ◌∷◌, ◌++◌, Text, leb, ltb, if◌then◌else◌, length, length-append,
  length-drop, drop, len, arith,
}
use fx_rs.Base.Int.{ℤ}
use fx_rs.Context.Words.{utf8_prefix}
use fx_rs.Message.{ChatMessage, Role, role_eq}
use fx_rs.Subagent.Domain.{ChildSnapshot}

abbrev pub max_activity_items : ℕ
max_activity_items = 200

abbrev pub max_event_items : ℕ
max_event_items = 200

abbrev pub max_messages : ℕ
max_messages = 256

unfoldable pub retain_tail {ℓ} : {A : Type ℓ} → List A → ℕ → List A
retain_tail items limit =
    if ltb limit (length items) then drop (length items - limit) items else items

unfoldable pub push_event : ChildSnapshot → Text → Text → ℤ → ChildSnapshot
push_event snapshot kind detail now_ms = record snapshot {
  events =
      retain_tail
        (snapshot.events
          ++ (record {
            generation = snapshot.generation;
            kind = kind;
            detail = detail;
            at_ms = now_ms;
          })
            ∷ [])
        max_event_items;
}

-- The first message, if it is a system message.
unfoldable pub system_head : List ChatMessage → List ChatMessage
system_head [] = []
system_head (message ∷ history) = if role_eq message.role Role.system then message ∷ [] else []

unfoldable pub bound_history : List ChatMessage → List ChatMessage
bound_history history =
    if leb (length history) max_messages
    then history
    else system_head history
      ++ drop (length history - (max_messages - length (system_head history))) history

unfoldable pub truncate_owned : Text → ℕ → Text
truncate_owned value limit = if leb (len value) limit then value else utf8_prefix limit value

pub retain_tail-length {ℓ} :
    {A : Type ℓ} (items : List A) (limit : ℕ) → length (retain_tail items limit) ≤ limit
unfolding retain_tail
retain_tail-length items limit = ground (arith, length-drop (length items - limit) items)

system_head-length : (history : List ChatMessage) → length (system_head history) ≤ 1
unfolding system_head
system_head-length [] = omega arith
system_head-length (message ∷ history) = ground arith

pub bound_history-length :
    (history : List ChatMessage) → length (bound_history history) ≤ max_messages
unfolding bound_history
bound_history-length history =
    let kept = drop (length history - (max_messages - length (system_head history))) history in
    ground (
      arith,
      length-append (system_head history) kept,
      length-drop (length history - (max_messages - length (system_head history))) history,
      system_head-length history,
    )
