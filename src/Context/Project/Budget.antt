-- ===== src/Context/Project/Budget.antt =====
-- The tokens that a projection keeps (crates/fx-core/src/context.rs, lines 94 to 108 and 286 to 312).
use fx_rs.Base.{
  ℕ, zero, suc, ◌+◌, ◌-◌, ◌≤◌, ◌<◌, ◌≡◌, ◌≢◌, refl, ap, ◌∙◌, List, [], ◌∷◌, ◌++◌, length, arith,
  leb, Bool, true, false, if◌then◌else◌, min, max, get_or, length-set, set, replicate,
  saturating_add, u64_max,
}
use mathlib.Core.Path.{subst}
use fx_rs.Message.{ChatMessage}
use fx_rs.Context.Estimate.{estimate_messages_tokens, messages_tokens, message_tokens}
use fx_rs.Context.Groups.{Range, slice}
use fx_rs.Context.Project.{
  Selection, select, select_older, gather, is_selected, group_at, summary_reserve_tokens,
}
use fx_rs.Context.Project.Shape.{get_or-set, length-replicate}

-- The sum of the estimates, which no addition stops.
unfoldable sum_tokens : List ChatMessage → ℕ
sum_tokens [] = 0
sum_tokens (m ∷ messages) = message_tokens m + sum_tokens messages

sum_tokens-nil : sum_tokens [] ≡ 0
unfolding sum_tokens
sum_tokens-nil = refl

sum_tokens-append :
    (xs ys : List ChatMessage) → sum_tokens (xs ++ ys) ≡ sum_tokens xs + sum_tokens ys
unfolding sum_tokens
sum_tokens-append [] ys = omega arith
sum_tokens-append (x ∷ xs) ys = omega (arith, sum_tokens-append xs ys)

messages_tokens-sum :
    (acc : ℕ) (messages : List ChatMessage)
    → acc ≤ u64_max
    → messages_tokens acc messages ≡ min (acc + sum_tokens messages) u64_max
unfolding messages_tokens sum_tokens
messages_tokens-sum acc [] h = omega arith
messages_tokens-sum acc (m ∷ messages) h =
    omega
      (arith, messages_tokens-sum (saturating_add acc (message_tokens m)) messages (omega arith))

estimate-sum :
    (messages : List ChatMessage)
    → estimate_messages_tokens messages ≡ min (sum_tokens messages) u64_max
unfolding estimate_messages_tokens
estimate-sum messages = omega (arith, messages_tokens-sum 0 messages (omega arith))

get_or-set-other :
    (flags : List Bool) (i j : ℕ) → i ≢ j → get_or (set flags i true) j false ≡ get_or flags j false
get_or-set-other [] i j h = refl
get_or-set-other (b ∷ flags) zero zero h = absurd (h refl)
get_or-set-other (b ∷ flags) zero (suc j) h = refl
get_or-set-other (b ∷ flags) (suc i) zero h = refl
get_or-set-other (b ∷ flags) (suc i) (suc j) h = get_or-set-other flags i j (λ e. h (ap suc e))

-- Tests that agree from an index on gather the same messages.
gather-agree :
    (messages : List ChatMessage) (keep keep' : ℕ → Bool) (index : ℕ) (groups : List Range)
    → ((i : ℕ) → index ≤ i → keep' i ≡ keep i)
    → gather messages keep' index groups ≡ gather messages keep index groups
unfolding gather
gather-agree messages keep keep' index [] h = refl
gather-agree messages keep keep' index (r ∷ groups) h =
    ap (λ b. (if b then slice messages r else []) ++ gather messages keep' (suc index) groups)
      (h index (omega arith))
    ∙ ap ((if keep index then slice messages r else []) ++◌)
        (gather-agree messages keep keep' (suc index) groups (λ i le. h i (omega arith)))

-- The tokens of the gathered messages, the first group apart.
gather-cons :
    (messages : List ChatMessage) (keep : ℕ → Bool) (index : ℕ) (r : Range) (groups : List Range)
    → sum_tokens (gather messages keep index (r ∷ groups))
      ≡ (if keep index then sum_tokens (slice messages r) else 0)
        + sum_tokens (gather messages keep (suc index) groups)
unfolding gather
gather-cons messages keep index r groups = either (keep index)
  where
    either :
        (b : Bool)
        → sum_tokens
            ((if b then slice messages r else []) ++ gather messages keep (suc index) groups)
          ≡ (if b then sum_tokens (slice messages r) else 0)
            + sum_tokens (gather messages keep (suc index) groups)
    either true = sum_tokens-append _ _
    either false = omega arith

-- One more group adds its tokens.
gather-one_more :
    (messages : List ChatMessage) (keep keep' : ℕ → Bool) (index n : ℕ) (groups : List Range)
    → n < length groups
    → keep (index + n) ≡ false
    → keep' (index + n) ≡ true
    → ((i : ℕ) → index + n ≢ i → keep' i ≡ keep i)
    → sum_tokens (gather messages keep' index groups)
      ≡ sum_tokens (gather messages keep index groups) + sum_tokens (group_at messages groups n)
gather-one_more messages keep keep' index n [] below off on same = omega arith
gather-one_more messages keep keep' index zero (r ∷ groups) below off on same =
    let off_here : keep index ≡ false = subst (λ i. keep i ≡ false) (omega arith) off in
    let on_here : keep' index ≡ true = subst (λ i. keep' i ≡ true) (omega arith) on in
    ground (
      arith,
      off_here,
      on_here,
      gather-cons messages keep index r groups,
      gather-cons messages keep' index r groups,
      ap sum_tokens (
          gather-agree messages keep keep' (suc index) groups (λ i le. same i (λ e. ground arith))),
    )
gather-one_more messages keep keep' index (suc n) (r ∷ groups) below off on same =
    let here : keep' index ≡ keep index = same index (λ e. ground arith) in
    let rest =
      gather-one_more messages keep keep' (suc index) n groups (omega arith)
        (subst (λ i. keep i ≡ false) (omega arith) off)
        (subst (λ i. keep' i ≡ true) (omega arith) on) (λ i ne. same i (λ e. ne (omega arith))) in
    let pick = ap (λ b. if b then sum_tokens (slice messages r) else 0) here in
    ground (
      arith,
      pick,
      rest,
      gather-cons messages keep index r groups,
      gather-cons messages keep' index r groups,
    )

get_or-replicate : (n i : ℕ) → get_or (replicate n false) i false ≡ false
get_or-replicate zero i = refl
get_or-replicate (suc n) zero = refl
get_or-replicate (suc n) (suc i) = get_or-replicate n i

gather-nothing :
    (messages : List ChatMessage) (index : ℕ) (groups : List Range)
    → gather messages (λ i. false) index groups ≡ []
unfolding gather
gather-nothing messages index [] = refl
gather-nothing messages index (r ∷ groups) = gather-nothing messages (suc index) groups

-- The loop over the older groups, where `n` of them are left: the tokens are those of the prefix and
-- of the selected groups, no group that is left is selected, and the tokens stay within `limit`.
record Kept (messages prefix : List ChatMessage) (groups : List Range) (limit n : ℕ) (s : Selection)
    : Type 0 where
  tokens :
      s.selected_tokens
      ≡ min (sum_tokens prefix + sum_tokens (gather messages (is_selected s) 0 groups)) u64_max
  left : (j : ℕ) → j < n → is_selected s j ≡ false
  size : length s.selected ≡ length groups
  bound : s.selected_tokens ≤ limit

module _ (messages prefix : List ChatMessage) (groups : List Range) (limit : ℕ) where
  abbrev one_more : Selection → ℕ → Selection
  one_more s n = record {
    selected = set s.selected n true;
    selected_tokens =
        saturating_add s.selected_tokens (estimate_messages_tokens (group_at messages groups n));
  }

  one_more-Kept :
      (n : ℕ) (s : Selection)
      → n < length groups
      → (one_more s n).selected_tokens ≤ limit
      → Kept messages prefix groups limit (suc n) s
      → Kept messages prefix groups limit n (one_more s n)
  one_more-Kept n s below fits kept = record {
    tokens = ground (
      arith,
      kept.tokens,
      estimate-sum (group_at messages groups n),
      gather-one_more messages (is_selected s) (is_selected (one_more s n)) 0 n groups below
          (subst (λ i. is_selected s i ≡ false) (omega arith) (kept.left n (omega arith)))
          (subst (λ i. is_selected (one_more s n) i ≡ true) (omega arith)
            (get_or-set s.selected n (omega (arith, kept.size))))
          (λ i ne. get_or-set-other s.selected n i (λ e. ne (omega arith))),
    );
    left = λ j h. get_or-set-other s.selected n j (λ e. ground arith) ∙ kept.left j (omega arith);
    size = length-set s.selected n true ∙ kept.size;
    bound = fits;
  }

  select_older-Kept :
      (older_budget n : ℕ) (s : Selection)
      → older_budget ≤ limit
      → n ≤ length groups
      → Kept messages prefix groups limit n s
      → Kept messages prefix groups limit 0 (select_older messages groups older_budget n s)
  unfolding select_older
  select_older-Kept older_budget zero s older below kept = kept
  select_older-Kept older_budget (suc n) s older below kept =
      select_older-Kept older_budget n _ older (omega arith)
        (either (leb (one_more s n).selected_tokens older_budget) refl)
    where
      either :
          (b : Bool)
          → leb (one_more s n).selected_tokens older_budget ≡ b
          → Kept messages prefix groups limit n (if b then one_more s n else s)
      either true e = one_more-Kept n s (omega arith) (ground arith) kept
      either false e = record {
        tokens = kept.tokens;
        left = λ j h. kept.left j (omega arith);
        size = kept.size;
        bound = kept.bound;
      }

-- The selected groups and the system prefix are estimated at no more than the budget less the
-- reserve for the summary, or at what the prefix and the newest turn, which is always kept, take.
pub select-budget :
    (messages prefix : List ChatMessage) (groups : List Range) (newest budget : ℕ)
    → newest < length groups
    → estimate_messages_tokens (
        prefix
        ++ gather messages (is_selected (select messages prefix groups newest budget)) 0 groups)
      ≤ max
          (budget - summary_reserve_tokens)
          (estimate_messages_tokens (prefix ++ group_at messages groups newest))
unfolding select
select-budget messages prefix groups newest budget below =
    let groups_kept =
      select_older-Kept messages prefix groups limit (budget - summary_reserve_tokens) newest
        (one_more messages prefix groups limit start newest) (omega arith) (omega arith)
        (one_more-Kept messages prefix groups limit newest start below
          (omega (
            arith,
            estimate-sum prefix,
            estimate-sum (group_at messages groups newest),
            estimate-sum (prefix ++ group_at messages groups newest),
            sum_tokens-append prefix (group_at messages groups newest),
          ))
          start-Kept) in
    omega (
      arith,
      groups_kept.tokens,
      groups_kept.bound,
      estimate-sum (prefix ++ gather messages (is_selected chosen) 0 groups),
      sum_tokens-append prefix (gather messages (is_selected chosen) 0 groups),
    )
  where
    limit : ℕ
    limit =
        max (budget - summary_reserve_tokens)
          (estimate_messages_tokens (prefix ++ group_at messages groups newest))

    chosen : Selection
    chosen = select messages prefix groups newest budget

    start : Selection
    start = record {
      selected = replicate (length groups) false;
      selected_tokens = estimate_messages_tokens prefix;
    }

    start-Kept : Kept messages prefix groups limit (suc newest) start
    start-Kept = record {
      tokens = omega (
        arith,
        estimate-sum prefix,
        ap sum_tokens (
            gather-agree messages (λ i. false) (is_selected start) 0 groups
              (λ i le. get_or-replicate (length groups) i)
            ∙ gather-nothing messages 0 groups),
        sum_tokens-nil,
      );
      left = λ j h. get_or-replicate (length groups) j;
      size = length-replicate (length groups);
      bound = omega (
        arith,
        estimate-sum prefix,
        estimate-sum (prefix ++ group_at messages groups newest),
        sum_tokens-append prefix (group_at messages groups newest),
      );
    }
