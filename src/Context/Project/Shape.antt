-- ===== src/Context/Project/Shape.antt =====
-- What a projection keeps (crates/fx-core/src/context.rs, lines 69 to 142).
use fx_rs.Base.{append_assoc, append_nil}
use fx_rs.Base.{
  ℕ, zero, suc, ◌+◌, ◌-◌, ◌<◌, ◌≡◌, refl, sym, ap, ◌∙◌, List, [], ◌∷◌, ◌++◌, length, take, drop,
  arith, leb, Bool, true, false, not, ◌||◌, ◌==◌, if◌then◌else◌, get_or, set, replicate,
  count_while, is_nil, max, saturating_add,
}
use mathlib.Core.Path.{subst}
use fx_rs.Message.{ChatMessage}
use fx_rs.Context.Estimate.{estimate_messages_tokens}
use fx_rs.Context.Groups.{Range, slice, conversation_groups}
use fx_rs.Context.Groups.Partition.{concat_groups, conversation_groups-cover}
use fx_rs.Context.Project.{
  Selection, ContextProjection, select_older, select, gather, count_omitted, assemble, whole,
  is_selected, project, group_at, is_system,
}
use fx_rs.Context.Summary.{compacted_message}

-- `ys` is the end of `xs`.
abbrev EndsWith : List ChatMessage → List ChatMessage → Type 0
EndsWith xs ys = (before : List ChatMessage) × (xs ≡ before ++ ys)

EndsWith-append : (front xs ys : List ChatMessage) → EndsWith xs ys → EndsWith (front ++ xs) ys
EndsWith-append front xs ys (before, e) =
    (front ++ before, ap (front ++◌) e ∙ sym (append_assoc front before ys))

-- A selection with a group in it keeps it.
get_or-set-true :
    (flags : List Bool) (i j : ℕ)
    → get_or flags j false ≡ true
    → get_or (set flags i true) j false ≡ true
get_or-set-true [] i j h = h
get_or-set-true (b ∷ flags) zero zero h = refl
get_or-set-true (b ∷ flags) zero (suc j) h = h
get_or-set-true (b ∷ flags) (suc i) zero h = h
get_or-set-true (b ∷ flags) (suc i) (suc j) h = get_or-set-true flags i j h

pub get_or-set :
    (flags : List Bool) (i : ℕ) → i < length flags → get_or (set flags i true) i false ≡ true
get_or-set [] i h = ground arith
get_or-set (b ∷ flags) zero h = refl
get_or-set (b ∷ flags) (suc i) h = get_or-set flags i (omega arith)

pub length-replicate : (n : ℕ) → length (replicate n false) ≡ n
length-replicate zero = refl
length-replicate (suc n) = ap suc (length-replicate n)

select_older-keeps :
    (messages : List ChatMessage) (groups : List Range) (older_budget n : ℕ) (s : Selection) (j : ℕ)
    → is_selected s j ≡ true
    → is_selected (select_older messages groups older_budget n s) j ≡ true
unfolding select_older
select_older-keeps messages groups older_budget zero s j h = h
select_older-keeps messages groups older_budget (suc n) s j h =
    select_older-keeps messages groups older_budget n _ j (either (leb total older_budget))
  where
    total : ℕ
    total = saturating_add s.selected_tokens (estimate_messages_tokens (group_at messages groups n))

    either :
        (b : Bool)
        → is_selected
            (if b then record { selected = set s.selected n true; selected_tokens = total } else s)
            j
          ≡ true
    either true = get_or-set-true s.selected n j h
    either false = h

pub select-newest :
    (messages prefix : List ChatMessage) (groups : List Range) (newest budget : ℕ)
    → newest < length groups
    → is_selected (select messages prefix groups newest budget) newest ≡ true
unfolding select
select-newest messages prefix groups newest budget h =
    select_older-keeps messages groups _ newest _ newest (
      get_or-set (replicate (length groups) false) newest
        (omega (arith, length-replicate (length groups))))

gather-last :
    (messages : List ChatMessage) (keep : ℕ → Bool) (index : ℕ) (groups : List Range) (n : ℕ)
    → suc n ≡ length groups
    → keep (index + n) ≡ true
    → EndsWith (gather messages keep index groups) (group_at messages groups n)
unfolding gather
gather-last messages keep index [] n e h = ground arith
gather-last messages keep index (r ∷ []) zero e h =
    ([], at (keep index) (subst (λ i. keep i ≡ true) (omega arith) h))
  where
    at : (b : Bool) → b ≡ true → (if b then slice messages r else []) ++ [] ≡ slice messages r
    at true e = append_nil (slice messages r)
    at false e = ground arith
gather-last messages keep index (r ∷ []) (suc n) e h = ground arith
gather-last messages keep index (r ∷ g ∷ groups) zero e h = ground arith
gather-last messages keep index (r ∷ g ∷ groups) (suc n) e h =
    EndsWith-append (if keep index then slice messages r else []) _ _ (
      gather-last messages keep (suc index) (g ∷ groups) n (omega arith)
        (subst (λ i. keep i ≡ true) (omega arith) h))

gather-everything :
    (messages : List ChatMessage) (index : ℕ) (groups : List Range)
    → gather messages (λ i. true) index groups ≡ concat_groups messages groups
unfolding gather concat_groups
gather-everything messages index [] = refl
gather-everything messages index (r ∷ groups) =
    ap (slice messages r ++◌) (gather-everything messages (suc index) groups)

-- The last group stands at the end of the messages behind the prefix.
last_group-end :
    (messages : List ChatMessage) (groups : List Range)
    → is_nil groups ≡ false
    → EndsWith (concat_groups messages groups) (group_at messages groups (length groups - 1))
unfolding is_nil
last_group-end messages [] h = ground arith
last_group-end messages (r ∷ groups) h =
    subst (λ xs. EndsWith xs (group_at messages (r ∷ groups) (length (r ∷ groups) - 1)))
      (gather-everything messages 0 (r ∷ groups))
      (gather-last messages (λ i. true) 0 (r ∷ groups) (length (r ∷ groups) - 1) (omega arith) refl)

take-drop : (n : ℕ) (xs : List ChatMessage) → take n xs ++ drop n xs ≡ xs
take-drop zero xs = refl
take-drop (suc n) [] = refl
take-drop (suc n) (x ∷ xs) = ap (x ∷◌) (take-drop n xs)

-- `xs` begins with `prefix`, and ends with `last` behind it.
abbrev pub Between : List ChatMessage → List ChatMessage → List ChatMessage → Type 0
Between prefix last xs = (middle : List ChatMessage) × (xs ≡ prefix ++ (middle ++ last))

abbrev pub prefix_of : List ChatMessage → List ChatMessage
prefix_of messages = take (count_while is_system messages) messages

abbrev pub groups_of : List ChatMessage → List Range
groups_of messages = conversation_groups messages (count_while is_system messages)

-- The newest turn, or nothing if there is none.
unfoldable pub newest_turn : List ChatMessage → List ChatMessage
newest_turn messages = group_at messages (groups_of messages) (length (groups_of messages) - 1)

groups-end :
    (messages : List ChatMessage) (groups : List Range)
    → EndsWith (concat_groups messages groups) (group_at messages groups (length groups - 1))
unfolding concat_groups slice
groups-end messages [] = ([], refl)
groups-end messages (r ∷ groups) = last_group-end messages (r ∷ groups) (unfold is_nil in refl)

Between-end :
    (prefix last tail : List ChatMessage)
    → EndsWith tail last
    → Between prefix last (prefix ++ tail)
Between-end prefix last tail (middle, e) = (middle, ap (prefix ++◌) e)

whole-Between :
    (messages : List ChatMessage) → Between (prefix_of messages) (newest_turn messages) messages
unfolding newest_turn
whole-Between messages =
    subst (Between (prefix_of messages) (newest_turn messages))
      (take-drop (count_while is_system messages) messages)
      (Between-end (prefix_of messages) (newest_turn messages) _ (
        subst (λ xs. EndsWith xs (newest_turn messages))
          (conversation_groups-cover messages (count_while is_system messages))
          (groups-end messages (groups_of messages))))

assemble-Between :
    (messages : List ChatMessage) (selected : ℕ → Bool)
    → is_nil (groups_of messages) ≡ false
    → selected (length (groups_of messages) - 1) ≡ true
    → Between
        (prefix_of messages)
        (newest_turn messages)
        (assemble messages (prefix_of messages) (groups_of messages) selected).messages
unfolding assemble newest_turn
assemble-Between messages selected some_groups h =
    either (count_omitted selected 0 (groups_of messages) == 0)
  where
    projected : List ChatMessage
    projected =
        compacted_message (gather messages (λ i. not (selected i)) 0 (groups_of messages))
        ∷ gather messages selected 0 (groups_of messages)

    not_nil :
        (groups : List Range) → is_nil groups ≡ false → suc (length groups - 1) ≡ length groups
    not_nil [] e = unfold is_nil in ground arith
    not_nil (r ∷ groups) e = omega arith

    kept : EndsWith projected (newest_turn messages)
    kept =
        unfold newest_turn in
        EndsWith-append (compacted_message _ ∷ []) _ _ (
          gather-last messages selected 0 (groups_of messages) (length (groups_of messages) - 1)
            (not_nil (groups_of messages) some_groups)
            (subst (λ i. selected i ≡ true) (omega arith) h))

    either :
        (b : Bool)
        → Between
            (prefix_of messages)
            (newest_turn messages)
            (if b then whole messages else record {
              messages = prefix_of messages ++ projected;
              estimated_tokens = estimate_messages_tokens (prefix_of messages ++ projected);
              omitted_messages = count_omitted selected 0 (groups_of messages);
            }).messages
    either true = whole-Between messages
    either false = Between-end (prefix_of messages) (newest_turn messages) projected kept

-- A projection begins with the system messages that the conversation begins with and ends with its
-- newest turn, unchanged, whatever the budget.
pub project-Between :
    (messages : List ChatMessage) (max_tokens : ℕ)
    → Between (prefix_of messages) (newest_turn messages) (project messages max_tokens).messages
unfolding project
project-Between messages max_tokens =
    either (is_nil messages || leb (estimate_messages_tokens messages) (max max_tokens 1))
      (is_nil (groups_of messages))
      (λ h. assemble-Between messages (is_selected selection) h (
        select-newest messages (prefix_of messages) (groups_of messages) _ _
          (below (groups_of messages) h)))
  where
    selection : Selection
    selection =
        select messages (prefix_of messages) (groups_of messages) (length (groups_of messages) - 1)
          (max max_tokens 1)

    below : (groups : List Range) → is_nil groups ≡ false → length groups - 1 < length groups
    below [] e = unfold is_nil in ground arith
    below (r ∷ groups) e = omega arith

    cut : ContextProjection
    cut = assemble messages (prefix_of messages) (groups_of messages) (is_selected selection)

    either :
        (fits no_groups : Bool)
        → (no_groups ≡ false → Between (prefix_of messages) (newest_turn messages) cut.messages)
        → Between
            (prefix_of messages)
            (newest_turn messages)
            (if fits then whole messages else if no_groups then whole messages else cut).messages
    either true no_groups kept = whole-Between messages
    either false true kept = whole-Between messages
    either false false kept = kept refl
