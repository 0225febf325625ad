-- ===== src/Context/Project.antt =====
-- The projector (crates/fx-core/src/context.rs, lines 8 to 143).
pub mod Account
pub mod Budget
pub mod Shape
pub mod Outcome
use fx_rs.Base.{
  ℕ, zero, suc, ◌+◌, ◌-◌, ◌/◌, max, Bool, true, false, not, ◌&&◌, ◌||◌, Option, none, some, List,
  [], ◌∷◌, ◌++◌, leb, ◌==◌, if◌then◌else◌, saturating_add, unwrap_or, get_or, set, replicate,
  length, take, count_while, is_nil,
}
use fx_rs.Message.{Role, ChatMessage, role_eq}
use fx_rs.Context.Estimate.{estimate_messages_tokens}
use fx_rs.Context.Summary.{summary_max_bytes, compacted_message}
use fx_rs.Context.Groups.{Range, range, slice, conversation_groups}

abbrev pub default_history_context_tokens : ℕ
default_history_context_tokens = 24_000

abbrev pub history_context_window_divisor : ℕ
history_context_window_divisor = 4

abbrev pub summary_reserve_tokens : ℕ
summary_reserve_tokens = summary_max_bytes / 4 + 16

pub record ModelContextLimits : Type 0 where
  pub context_window_tokens : Option ℕ
  pub max_output_tokens : Option ℕ

-- A `u32` always fits in a `usize` of 64 bits.
unfoldable pub history_budget_tokens : ModelContextLimits → ℕ
history_budget_tokens limits = elim limits.context_window_tokens [
  | none ↦ default_history_context_tokens
  | some window ↦
      max ((window - unwrap_or limits.max_output_tokens 0) / history_context_window_divisor) 1
]

pub record ContextProjection : Type 0 where
  pub messages : List ChatMessage
  pub estimated_tokens : ℕ
  pub omitted_messages : ℕ

abbrev pub is_system : ChatMessage → Bool
is_system message = role_eq message.role Role.system

-- `&messages[groups[index].clone()]`, at an index in range.
abbrev pub group_at : List ChatMessage → List Range → ℕ → List ChatMessage
group_at messages groups index = slice messages (get_or groups index (range 0 0))

pub record Selection : Type 0 where
  pub selected : List Bool
  pub selected_tokens : ℕ

-- The loop over the older groups, the newest of them first: `n` of them are left.
unfoldable pub select_older : List ChatMessage → List Range → ℕ → ℕ → Selection → Selection
select_older messages groups older_budget zero s = s
select_older messages groups older_budget (suc n) s =
    let total =
      saturating_add s.selected_tokens (estimate_messages_tokens (group_at messages groups n)) in
    select_older messages groups older_budget n (
      if leb total older_budget
      then record { selected = set s.selected n true; selected_tokens = total }
      else s)

-- The messages of the groups that the test on the index keeps, in order.
unfoldable pub gather : List ChatMessage → (ℕ → Bool) → ℕ → List Range → List ChatMessage
gather messages keep index [] = []
gather messages keep index (r ∷ groups) =
    (if keep index then slice messages r else []) ++ gather messages keep (suc index) groups

-- The sum of the lengths of the groups that were not selected.
unfoldable pub count_omitted : (ℕ → Bool) → ℕ → List Range → ℕ
count_omitted selected index [] = 0
count_omitted selected index (r ∷ groups) =
    (if selected index then 0 else r.end - r.start) + count_omitted selected (suc index) groups

abbrev pub whole : List ChatMessage → ContextProjection
whole messages = record {
  messages = messages;
  estimated_tokens = estimate_messages_tokens messages;
  omitted_messages = 0;
}

abbrev pub is_selected : Selection → ℕ → Bool
is_selected s index = get_or s.selected index false

unfoldable pub assemble :
    List ChatMessage → List ChatMessage → List Range → (ℕ → Bool) → ContextProjection
assemble messages prefix groups selected =
    let omitted = gather messages (λ i. not (selected i)) 0 groups in
    let projected = prefix ++ (compacted_message omitted ∷ gather messages selected 0 groups) in
    if count_omitted selected 0 groups == 0 then whole messages else record {
      messages = projected;
      estimated_tokens = estimate_messages_tokens projected;
      omitted_messages = count_omitted selected 0 groups;
    }

-- The selection, at the groups of the messages behind the system prefix.
unfoldable pub select : List ChatMessage → List ChatMessage → List Range → ℕ → ℕ → Selection
select messages prefix groups newest budget =
    select_older messages groups (budget - summary_reserve_tokens) newest (record {
      selected = set (replicate (length groups) false) newest true;
      selected_tokens =
          saturating_add (estimate_messages_tokens prefix)
            (estimate_messages_tokens (group_at messages groups newest));
    })

unfoldable pub project : List ChatMessage → ℕ → ContextProjection
project messages max_tokens =
    let prefix_end = count_while is_system messages in
    let prefix = take prefix_end messages in
    let groups = conversation_groups messages prefix_end in
    let selection = select messages prefix groups (length groups - 1) (max max_tokens 1) in
    if is_nil messages || leb (estimate_messages_tokens messages) (max max_tokens 1)
    then whole messages
    else if is_nil groups
    then whole messages
    else assemble messages prefix groups (is_selected selection)
