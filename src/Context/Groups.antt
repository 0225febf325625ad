-- ===== src/Context/Groups.antt =====
-- The turns of a conversation (crates/fx-core/src/context.rs, lines 145 to 159), as ranges of
-- message indices.
pub mod Partition
use fx_rs.Base.{ℕ, suc, ◌+◌, ◌-◌, Bool, List, [], ◌∷◌, leb, if◌then◌else◌, length, take, drop}
use fx_rs.Message.{Role, ChatMessage, role_eq}

-- `start..end`.
pub record Range : Type 0 where
  pub start : ℕ
  pub end : ℕ

abbrev pub range : ℕ → ℕ → Range
range start end = record { start = start; end = end }

-- `&messages[range]`.
unfoldable pub slice : List ChatMessage → Range → List ChatMessage
slice messages r = take (r.end - r.start) (drop r.start messages)

abbrev pub is_user : ChatMessage → Bool
is_user message = role_eq message.role Role.user

-- The loop over the messages from `index` on, in a group that began at `group_start`.
unfoldable pub groups_from : ℕ → ℕ → ℕ → List ChatMessage → List Range
groups_from total group_start index [] = range group_start total ∷ []
groups_from total group_start index (message ∷ messages) =
    let cut = range group_start index ∷ groups_from total index (suc index) messages in
    let rest = groups_from total group_start (suc index) messages in
    if is_user message then cut else rest

unfoldable pub conversation_groups : List ChatMessage → ℕ → List Range
conversation_groups messages start =
    if leb (length messages) start
    then []
    else groups_from (length messages) start (suc start) (drop (suc start) messages)
