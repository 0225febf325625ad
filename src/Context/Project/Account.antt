-- ===== src/Context/Project/Account.antt =====
-- The count of the messages that a projection leaves out (crates/fx-core/src/context.rs,
-- lines 109 to 141).
use fx_rs.Base.{
  ℕ, suc, ◌+◌, ◌-◌, ◌≤◌, ◌≡◌, refl, ap, List, [], ◌∷◌, ◌++◌, length, drop, length-append,
  length-take, length-drop, arith, leb, Bool, true, false, not, ◌||◌, ◌==◌, if◌then◌else◌, max,
  is_nil, count_while,
}
use fx_rs.Message.{ChatMessage, Role, role_eq}
use fx_rs.Context.Estimate.{estimate_messages_tokens}
use fx_rs.Context.Groups.{Range, range, slice, groups_from, conversation_groups}
use fx_rs.Context.Groups.Partition.{concat_groups, conversation_groups-cover}
use fx_rs.Context.Project.{
  Selection, ContextProjection, select, gather, count_omitted, assemble, whole, is_selected,
  project, is_system,
}
use fx_rs.Context.Project.Shape.{prefix_of, groups_of}
use fx_rs.Context.Summary.{compacted_message}

-- No range ends behind `total`.
unfoldable AllWithin : ℕ → List Range → Type 0
AllWithin total [] = Unit
AllWithin total (r ∷ groups) = (r.end ≤ total) × AllWithin total groups

groups_from-AllWithin :
    (total group_start index : ℕ) (messages : List ChatMessage)
    → index + length messages ≤ total
    → AllWithin total (groups_from total group_start index messages)
unfolding groups_from AllWithin
groups_from-AllWithin total group_start index [] h = ground arith
groups_from-AllWithin total group_start index (message ∷ messages) h =
    either (role_eq message.role Role.user)
      (groups_from-AllWithin total index (suc index) messages (omega arith))
      (groups_from-AllWithin total group_start (suc index) messages (omega arith))
  where
    either :
        (b : Bool)
        → AllWithin total (groups_from total index (suc index) messages)
        → AllWithin total (groups_from total group_start (suc index) messages)
        → AllWithin total (
            if b
            then range group_start index ∷ groups_from total index (suc index) messages
            else groups_from total group_start (suc index) messages)
    either true cut rest = unfold AllWithin in (omega arith, cut)
    either false cut rest = rest

conversation_groups-AllWithin :
    (messages : List ChatMessage) (start : ℕ)
    → AllWithin (length messages) (conversation_groups messages start)
unfolding conversation_groups AllWithin
conversation_groups-AllWithin messages start =
    either (leb (length messages) start)
      (λ h. groups_from-AllWithin _ _ _ _ (ground (arith, length-drop (suc start) messages)))
  where
    either :
        (b : Bool)
        → (b ≡ false
            → AllWithin
                (length messages)
                (groups_from (length messages) start (suc start) (drop (suc start) messages)))
        → AllWithin (length messages) (
            if b
            then []
            else groups_from (length messages) start (suc start) (drop (suc start) messages))
    either true h = unfold AllWithin in tt
    either false h = h refl

-- Each group is gathered or counted as left out.
gather-count :
    (messages : List ChatMessage) (selected : ℕ → Bool) (index : ℕ) (groups : List Range)
    → AllWithin (length messages) groups
    → length (gather messages selected index groups) + count_omitted selected index groups
      ≡ length (concat_groups messages groups)
unfolding gather count_omitted concat_groups AllWithin
gather-count messages selected index [] h = omega arith
gather-count messages selected index (r ∷ groups) (within, rest) =
    either (selected index) (gather-count messages selected (suc index) groups rest)
  where
    rest_gathered : List ChatMessage
    rest_gathered = gather messages selected (suc index) groups

    rest_omitted : ℕ
    rest_omitted = count_omitted selected (suc index) groups

    either :
        (b : Bool)
        → length rest_gathered + rest_omitted ≡ length (concat_groups messages groups)
        → length ((if b then slice messages r else []) ++ rest_gathered)
            + ((if b then 0 else r.end - r.start) + rest_omitted)
          ≡ length (slice messages r ++ concat_groups messages groups)
    either true ih = omega (
      arith,
      length-append (slice messages r) rest_gathered,
      length-append (slice messages r) (concat_groups messages groups),
    )
    either false ih =
        unfold slice in
        omega (
          arith,
          length-append (slice messages r) (concat_groups messages groups),
          length-take (r.end - r.start) (drop r.start messages),
          length-drop r.start messages,
        )

assemble-count :
    (messages : List ChatMessage) (selected : ℕ → Bool)
    → let p = assemble messages (prefix_of messages) (groups_of messages) selected in
      length p.messages + p.omitted_messages
      ≡ length messages + (if p.omitted_messages == 0 then 0 else 1)
unfolding assemble
assemble-count messages selected = either (count_omitted selected 0 (groups_of messages) == 0) refl
  where
    omitted : ℕ
    omitted = count_omitted selected 0 (groups_of messages)

    summary : ChatMessage
    summary = compacted_message (gather messages (λ i. not (selected i)) 0 (groups_of messages))

    kept : List ChatMessage
    kept = gather messages selected 0 (groups_of messages)

    count : length (prefix_of messages) + (length kept + omitted) ≡ length messages
    count = omega (
      arith,
      gather-count messages selected 0 (groups_of messages)
          (conversation_groups-AllWithin messages (count_while is_system messages)),
      ap length (conversation_groups-cover messages (count_while is_system messages)),
      length-drop (count_while is_system messages) messages,
      length-take (count_while is_system messages) messages,
    )

    either :
        (b : Bool)
        → (omitted == 0) ≡ b
        → let p =
            (if b then whole messages else record {
              messages = prefix_of messages ++ (summary ∷ kept);
              estimated_tokens = estimate_messages_tokens (prefix_of messages ++ (summary ∷ kept));
              omitted_messages = omitted;
            }) in
          length p.messages + p.omitted_messages
          ≡ length messages + (if p.omitted_messages == 0 then 0 else 1)
    either true e = omega arith
    either false e = ground (arith, count, length-append (prefix_of messages) (summary ∷ kept))

-- A projection has one message for all that it leaves out, and counts them: what it has and what it
-- leaves out are the messages of the conversation, and the summary where something is left out.
pub project-count :
    (messages : List ChatMessage) (max_tokens : ℕ)
    → let p = project messages max_tokens in
      length p.messages + p.omitted_messages
      ≡ length messages + (if p.omitted_messages == 0 then 0 else 1)
unfolding project
project-count messages max_tokens =
    either (is_nil messages || leb (estimate_messages_tokens messages) (max max_tokens 1))
      (is_nil (groups_of messages))
  where
    selection : Selection
    selection =
        select messages (prefix_of messages) (groups_of messages) (length (groups_of messages) - 1)
          (max max_tokens 1)

    cut : ContextProjection
    cut = assemble messages (prefix_of messages) (groups_of messages) (is_selected selection)

    either :
        (fits no_groups : Bool)
        → let p = (if fits then whole messages else if no_groups then whole messages else cut) in
          length p.messages + p.omitted_messages
          ≡ length messages + (if p.omitted_messages == 0 then 0 else 1)
    either true no_groups = omega arith
    either false true = omega arith
    either false false = assemble-count messages (is_selected selection)
