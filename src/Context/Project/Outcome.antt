-- ===== src/Context/Project/Outcome.antt =====
-- The two outcomes of a projection (crates/fx-core/src/context.rs, lines 69 to 142).
use fx_rs.Base.{
  ℕ, ◌-◌, ◌≤◌, ◌<◌, ◌≡◌, ◌⊎◌, inl, inr, refl, List, [], ◌∷◌, ◌++◌, length, arith, leb, Bool, true,
  false, not, ◌||◌, ◌==◌, if◌then◌else◌, max, is_nil, len, unwrap_or,
}
use fx_rs.Message.{ChatMessage}
use fx_rs.Context.Estimate.{estimate_messages_tokens, messages_tokens}
use fx_rs.Context.Groups.{Range}
use fx_rs.Context.Project.{
  ContextProjection, select, assemble, gather, count_omitted, whole, is_selected, project,
  summary_reserve_tokens,
}
use fx_rs.Context.Project.Budget.{select-budget}
use fx_rs.Context.Project.Shape.{prefix_of, groups_of, newest_turn, select-newest}
use fx_rs.Context.Summary.{compacted_message, summary_max_bytes}
use fx_rs.Context.Summary.Bounded.{compacted_message-len}

-- The turns that a test on their index picks, in order.
abbrev pub turns : List ChatMessage → (ℕ → Bool) → List ChatMessage
turns messages picks = gather messages picks 0 (groups_of messages)

-- The test picks the newest turn and lets the rest of what it picks keep to the budget.
abbrev pub KeepsToBudget : List ChatMessage → ℕ → (ℕ → Bool) → Type 0
KeepsToBudget messages budget picks =
    (picks (length (groups_of messages) - 1) ≡ true)
    × (estimate_messages_tokens (prefix_of messages ++ turns messages picks)
        ≤ max (budget - summary_reserve_tokens)
            (estimate_messages_tokens (prefix_of messages ++ newest_turn messages)))

-- Nothing is left out.
abbrev pub Unchanged : List ChatMessage → ContextProjection → Type 0
Unchanged messages p = (p.messages ≡ messages) × (p.omitted_messages ≡ 0)

-- The turns that the test does not pick, of which there are some, stand in a summary of bounded size.
abbrev pub Compacted : List ChatMessage → (ℕ → Bool) → ContextProjection → Type 0
Compacted messages picks p =
    let summary = compacted_message (turns messages (λ i. not (picks i))) in
    (p.messages ≡ prefix_of messages ++ (summary ∷ turns messages picks))
    × (p.omitted_messages ≡ count_omitted picks 0 (groups_of messages))
    × (0 < p.omitted_messages)
    × (len (unwrap_or summary.content []) ≤ summary_max_bytes)

-- Where the conversation does not fit and has turns: what a test picks decides.
abbrev pub Cut : List ChatMessage → ℕ → ContextProjection → Type 0
Cut messages budget p =
    (picks : ℕ → Bool) × KeepsToBudget messages budget picks
    × (Unchanged messages p × (count_omitted picks 0 (groups_of messages) ≡ 0)
        ⊎ Compacted messages picks p)

abbrev pub Outcome : List ChatMessage → ℕ → ContextProjection → Type 0
Outcome messages budget p =
    (estimate_messages_tokens messages ≤ budget) × Unchanged messages p
    ⊎ (budget < estimate_messages_tokens messages)
      × (is_nil (groups_of messages) ≡ true)
      × Unchanged messages p
    ⊎ (budget < estimate_messages_tokens messages)
      × (is_nil (groups_of messages) ≡ false)
      × Cut messages budget p

assemble-Cut :
    (messages : List ChatMessage) (picks : ℕ → Bool) (budget : ℕ)
    → KeepsToBudget messages budget picks
    → Cut messages budget (assemble messages (prefix_of messages) (groups_of messages) picks)
unfolding assemble
assemble-Cut messages picks budget keeps = (picks, keeps, either (omitted == 0) refl)
  where
    omitted : ℕ
    omitted = count_omitted picks 0 (groups_of messages)

    summary : ChatMessage
    summary = compacted_message (turns messages (λ i. not (picks i)))

    either :
        (b : Bool)
        → (omitted == 0) ≡ b
        → let p =
            (if b then whole messages else record {
              messages = prefix_of messages ++ (summary ∷ turns messages picks);
              estimated_tokens =
                  estimate_messages_tokens (prefix_of messages ++ (summary ∷ turns messages picks));
              omitted_messages = omitted;
            }) in
          Unchanged messages p × (omitted ≡ 0) ⊎ Compacted messages picks p
    either true e = inl ((refl, refl), ground arith)
    either false e = inr (refl, refl, ground arith, compacted_message-len _)

-- A conversation whose estimate is within the budget, which is the limit or one token where the
-- limit is none, is left as it is, and so is one without turns. Of any other, a test on the turns
-- picks the newest one, perhaps with others, so that they and the system prefix are estimated at no
-- more than the budget less the reserve for the summary, or at no more than the prefix and the newest
-- turn. Where it picks every message of the turns, the messages are left as they are; otherwise the
-- projection is the prefix, the summary of the turns that it does not pick, of at most 1200 bytes,
-- and the turns that it picks, and it counts the messages of the turns that it does not pick as
-- omitted.
pub project-outcome :
    (messages : List ChatMessage) (max_tokens : ℕ)
    → Outcome messages (max max_tokens 1) (project messages max_tokens)
unfolding project
project-outcome messages max_tokens =
    either (is_nil messages || leb (estimate_messages_tokens messages) budget)
      (is_nil (groups_of messages)) refl refl
  where
    budget : ℕ
    budget = max max_tokens 1

    picks : ℕ → Bool
    picks = is_selected (
        select messages (prefix_of messages) (groups_of messages) (length (groups_of messages) - 1)
          budget)

    fits_budget :
        (xs : List ChatMessage) (limit : ℕ)
        → (is_nil xs || leb (estimate_messages_tokens xs) limit) ≡ true
        → estimate_messages_tokens xs ≤ limit
    fits_budget [] limit e = unfold estimate_messages_tokens messages_tokens in omega arith
    fits_budget (x ∷ xs) limit e = unfold is_nil in ground arith

    exceeds :
        (xs : List ChatMessage) (limit : ℕ)
        → (is_nil xs || leb (estimate_messages_tokens xs) limit) ≡ false
        → limit < estimate_messages_tokens xs
    exceeds xs limit e = ground arith

    below : (groups : List Range) → is_nil groups ≡ false → length groups - 1 < length groups
    below [] e = unfold is_nil in ground arith
    below (r ∷ groups) e = omega arith

    keeps : is_nil (groups_of messages) ≡ false → KeepsToBudget messages budget picks
    keeps e =
        unfold newest_turn in
        (
          select-newest messages (prefix_of messages) (groups_of messages) _ budget
              (below (groups_of messages) e),
          select-budget messages (prefix_of messages) (groups_of messages) _ budget
              (below (groups_of messages) e),
        )

    either :
        (fits no_turns : Bool)
        → (is_nil messages || leb (estimate_messages_tokens messages) budget) ≡ fits
        → is_nil (groups_of messages) ≡ no_turns
        → Outcome messages budget (
            if fits
            then whole messages
            else if no_turns
            then whole messages
            else assemble messages (prefix_of messages) (groups_of messages) picks)
    either true no_turns fits e = inl (fits_budget messages budget fits, (refl, refl))
    either false true over e = inr (inl (exceeds messages budget over, e, (refl, refl)))
    either false false over e =
        inr (inr (exceeds messages budget over, e, assemble-Cut messages picks budget (keeps e)))
