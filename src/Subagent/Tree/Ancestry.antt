-- ===== src/Subagent/Tree/Ancestry.antt =====
-- The ways up from the children (crates/fx-subagent/src/lib.rs, lines 686 to 707).
use fx_rs.Base.{
  ℕ, zero, suc, ◌≡◌, refl, sym, ◌∙◌, Bool, true, false, Option, none, some, [], ◌∷◌, Text, text_eq,
  text_eq_sound, if◌then◌else◌, arith,
}
use mathlib.Core.Path.{subst}
use fx_rs.Subagent.Child.{Child}
use fx_rs.Subagent.Tree.{Children, find, update, would_cycle_from}

-- The way up from an id comes to an end.
pub data Rooted (children : Children) : Text → Type 0 where
  outside : (id : Text) → find children id ≡ none → Rooted children id
  top :
      (id : Text) (child : Child)
      → find children id ≡ some child
      → child.snapshot.parent_id ≡ none
      → Rooted children id
  below :
      (id : Text) (child : Child) (parent : Text)
      → find children id ≡ some child
      → child.snapshot.parent_id ≡ some parent
      → Rooted children parent
      → Rooted children id

-- No child is its own ancestor.
abbrev pub IsForest : Children → Type 0
IsForest children = (id : Text) → Rooted children id

pub find-update :
    (children : Children) (id : Text) (child : Child) (change : Child → Child)
    → find children id ≡ some child
    → find (update children id change) id ≡ some (change child)
unfolding find update
find-update [] id child change h = ground arith
find-update ((key, c) ∷ children) id child change h =
    ground (arith, find-update children id child change)

find-update_other :
    (children : Children) (id other : Text) (change : Child → Child)
    → text_eq other id ≡ false
    → find (update children id change) other ≡ find children other
unfolding find update
find-update_other [] id other change h = refl
find-update_other ((key, c) ∷ children) id other change h =
    either (text_eq id key) refl (find-update_other children id other change h)
  where
    either :
        (b : Bool)
        → text_eq id key ≡ b
        → find (update children id change) other ≡ find children other
        → find
            (if b then (key, change c) ∷ children else (key, c) ∷ update children id change)
            other
          ≡ (if text_eq other key then some c else find children other)
    either true e rest =
        unfold find in
        (let differs : text_eq other key ≡ false =
            subst (λ k. text_eq other k ≡ false) (text_eq_sound id key e) h in
          ground arith)
    either false e rest = unfold find in ground arith

module _ (children : Children) (id : Text) (change : Child → Child) where
  -- The test of one step of the loop, above a child that is not `id`.
  up : ℕ → Option Child → Bool
  up fuel none = false
  up fuel (some child) = elim child.snapshot.parent_id [
    | none ↦ false
    | some parent ↦ would_cycle_from fuel children id parent
  ]

  Rooted-above :
      (fuel : ℕ) (current : Text) (found : Option Child)
      → find (update children id change) current ≡ found
      → up fuel found ≡ false
      → ((parent : Text)
          → would_cycle_from fuel children id parent ≡ false
          → Rooted (update children id change) parent)
      → Rooted (update children id change) current
  unfolding up
  Rooted-above fuel current none e h rest = Rooted.outside current e
  Rooted-above fuel current (some child) e h rest = parent_of child.snapshot.parent_id refl h
    where
      parent_of :
          (parent_id : Option Text)
          → child.snapshot.parent_id ≡ parent_id
          → (elim parent_id [
            | none ↦ false
            | some parent ↦ would_cycle_from fuel children id parent
          ])
            ≡ false
          → Rooted (update children id change) current
      parent_of none p h = Rooted.top current child e p
      parent_of (some parent) p h = Rooted.below current child parent e p (rest parent h)

  -- Where the search from `current` does not meet the child, its way up ends also when the child
  -- changes.
  pub Rooted-would_cycle :
      (fuel : ℕ) (current : Text)
      → would_cycle_from fuel children id current ≡ false
      → Rooted (update children id change) current
  unfolding would_cycle_from up
  Rooted-would_cycle zero current h = ground arith
  Rooted-would_cycle (suc fuel) current h =
      either (text_eq current id) refl h (λ parent hp. Rooted-would_cycle fuel parent hp)
    where
      either :
          (b : Bool)
          → text_eq current id ≡ b
          → (if b then true else elim (find children current) [
            | none ↦ false
            | some child ↦ elim child.snapshot.parent_id [
              | none ↦ false
              | some parent ↦ would_cycle_from fuel children id parent
            ]
          ])
            ≡ false
          → ((parent : Text)
              → would_cycle_from fuel children id parent ≡ false
              → Rooted (update children id change) parent)
          → Rooted (update children id change) current
      either true e h rest = ground arith
      either false e h rest =
          let same = find-update_other children id current change e in
          Rooted-above fuel current (find (update children id change) current) refl
            (unfold up in
              subst (λ o. up fuel o ≡ false) (sym same) (goes_up (find children current) h))
            rest
        where
          goes_up :
              (o : Option Child)
              → (elim o [
                | none ↦ false
                | some child ↦ elim child.snapshot.parent_id [
                  | none ↦ false
                  | some parent ↦ would_cycle_from fuel children id parent
                ]
              ])
                ≡ false
              → up fuel o ≡ false
          goes_up none h = unfold up in refl
          goes_up (some child) h = unfold up in h

  Rooted-or_here :
      (other : Text) (b : Bool)
      → text_eq other id ≡ b
      → Rooted (update children id change) id
      → (find (update children id change) other ≡ find children other
          → Rooted (update children id change) other)
      → Rooted (update children id change) other
  Rooted-or_here other true e here there =
      subst (λ k. Rooted (update children id change) k) (sym (text_eq_sound other id e)) here
  Rooted-or_here other false e here there = there (find-update_other children id other change e)

  pub Rooted-update :
      Rooted (update children id change) id
      → (other : Text) → Rooted children other
      → Rooted (update children id change) other
  Rooted-update here _ (Rooted.outside other at) =
      Rooted-or_here other (text_eq other id) refl here (λ same. Rooted.outside other (same ∙ at))
  Rooted-update here _ (Rooted.top other child at p) =
      Rooted-or_here other (text_eq other id) refl here
        (λ same. Rooted.top other child (same ∙ at) p)
  Rooted-update here _ (Rooted.below other child parent at p r) =
      let rest = Rooted-update here parent r in
      Rooted-or_here other (text_eq other id) refl here
        (λ same. Rooted.below other child parent (same ∙ at) p rest)

pub find-update-none :
    (children : Children) (id other : Text) (change : Child → Child)
    → find children other ≡ none
    → find (update children id change) other ≡ none
unfolding find update
find-update-none [] id other change h = refl
find-update-none ((key, c) ∷ children) id other change h =
    either (text_eq other key) (text_eq id key) refl h (find-update-none children id other change)
  where
    either :
        (b d : Bool)
        → text_eq other key ≡ b
        → (if b then some c else find children other) ≡ none
        → (find children other ≡ none → find (update children id change) other ≡ none)
        → find
            (if d then (key, change c) ∷ children else (key, c) ∷ update children id change)
            other
          ≡ none
    either true d e h rest = ground arith
    either false true e h rest = unfold find in ground arith
    either false false e h rest = unfold find in ground arith
