-- ===== src/Context/Groups/Partition.antt =====
-- The groups of a conversation cover it (crates/fx-core/src/context.rs, lines 145 to 159).
use fx_rs.Base.{take_all, append_nil}
use fx_rs.Base.{
  ℕ, zero, suc, ◌+◌, ◌-◌, ◌≤◌, ◌≡◌, refl, sym, ap, ◌∙◌, List, [], ◌∷◌, ◌++◌, length, take, drop,
  length-drop, arith, leb, leb→le, Bool, true, false, if◌then◌else◌,
}
use mathlib.Core.Path.{subst}
use native.Mathlib.Numerals.{unary_clauses}
use fx_rs.Message.{ChatMessage, Role, role_eq}
use fx_rs.Context.Groups.{Range, range, slice, groups_from, conversation_groups}

-- The messages of the groups, one group after the other.
unfoldable pub concat_groups : List ChatMessage → List Range → List ChatMessage
concat_groups messages [] = []
concat_groups messages (r ∷ groups) = slice messages r ++ concat_groups messages groups

module _ {ℓ} {A : Type ℓ} where
  -- A list from `m` on begins with what stands before `m + k`.
  take-drop-drop : (m k : ℕ) (xs : List A) → take k (drop m xs) ++ drop (m + k) xs ≡ drop m xs
  take-drop-drop zero zero xs = refl
  take-drop-drop zero (suc k) [] = simp unary_clauses refl
  take-drop-drop zero (suc k) (x ∷ xs) = simp unary_clauses (ap (x ∷◌) (take-drop-drop zero k xs))
  take-drop-drop (suc m) zero [] = simp unary_clauses refl
  take-drop-drop (suc m) (suc k) [] = simp unary_clauses refl
  take-drop-drop (suc m) k (x ∷ xs) =
      let e : suc (m + k) ≡ suc m + k = omega arith in
      subst (λ j. take k (drop m xs) ++ drop j (x ∷ xs) ≡ drop m xs) e (take-drop-drop m k xs)

  drop_all : (n : ℕ) (xs : List A) → length xs ≤ n → drop n xs ≡ []
  drop_all zero [] h = refl
  drop_all zero (x ∷ xs) h = ground arith
  drop_all (suc n) [] h = refl
  drop_all (suc n) (x ∷ xs) h = drop_all n xs (omega arith)

  drop-one : (n : ℕ) (xs : List A) → drop (suc n) xs ≡ drop 1 (drop n xs)
  drop-one zero xs = refl
  drop-one (suc n) [] = refl
  drop-one (suc n) (x ∷ xs) = drop-one n xs

  -- The messages before `n` in what stands from `m` on.
  take-drop-between :
      (m n : ℕ) (xs : List A) → m ≤ n → take (n - m) (drop m xs) ++ drop n xs ≡ drop m xs
  take-drop-between m n xs h =
      let e : m + (n - m) ≡ n = omega arith in
      subst (λ k. take (n - m) (drop m xs) ++ drop k xs ≡ drop m xs) e (take-drop-drop m (n - m) xs)

groups_from-cover :
    (all : List ChatMessage) (group_start index : ℕ) (messages : List ChatMessage)
    → group_start ≤ index
    → drop index all ≡ messages
    → concat_groups all (groups_from (length all) group_start index messages) ≡ drop group_start all
unfolding concat_groups groups_from slice
groups_from-cover all group_start index [] le h =
    append_nil _
    ∙ take_all (length all - group_start) (drop group_start all) (sym (length-drop group_start all))
groups_from-cover all group_start index (message ∷ messages) le h =
    cut (role_eq message.role Role.user)
      (groups_from-cover all index (suc index) messages (omega arith) next)
      (groups_from-cover all group_start (suc index) messages (omega arith) next)
  where
    next : drop (suc index) all ≡ messages
    next = drop-one index all ∙ ap (drop 1) h

    cut :
        (b : Bool)
        → concat_groups all (groups_from (length all) index (suc index) messages) ≡ drop index all
        → concat_groups all (groups_from (length all) group_start (suc index) messages)
          ≡ drop group_start all
        → concat_groups all (
            if b
            then range group_start index ∷ groups_from (length all) index (suc index) messages
            else groups_from (length all) group_start (suc index) messages)
          ≡ drop group_start all
    cut true here rest =
        unfold concat_groups slice in
        ap (take (index - group_start) (drop group_start all) ++◌) here
        ∙ take-drop-between group_start index all le
    cut false here rest = rest

-- The groups of a conversation, one after the other, are its messages from the start on: no message
-- is lost, none is in two groups, and the order stays.
pub conversation_groups-cover :
    (messages : List ChatMessage) (start : ℕ)
    → concat_groups messages (conversation_groups messages start) ≡ drop start messages
unfolding conversation_groups concat_groups
conversation_groups-cover messages start =
    whole (leb (length messages) start) (λ h. sym (drop_all start messages (leb→le _ _ h)))
      (λ h.
        groups_from-cover messages start (suc start) (drop (suc start) messages) (omega arith) refl)
  where
    whole :
        (b : Bool)
        → (b ≡ true → [] ≡ drop start messages)
        → (b ≡ false
            → concat_groups messages
                (groups_from (length messages) start (suc start) (drop (suc start) messages))
              ≡ drop start messages)
        → concat_groups messages (
            if b
            then []
            else groups_from (length messages) start (suc start) (drop (suc start) messages))
          ≡ drop start messages
    whole true none_left some_left = unfold concat_groups in none_left refl
    whole false none_left some_left = some_left refl
