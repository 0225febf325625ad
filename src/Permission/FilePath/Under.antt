-- ===== src/Permission/FilePath/Under.antt =====
-- A directory pattern covers everything below the directory.
use mathlib.Core.List.{append_assoc}
use fx_rs.Base.{
  ◌≡◌, refl, true, some, List, [], ◌∷◌, ◌++◌, Text, text, text_eq, ◌==◌, arith, ap, sym, Bool-cases,
  inl, inr,
}
use fx_rs.Permission.FilePath.{
  Component, root_dir, cur_dir, split, parse_piece, parse_pieces, parse_relative, components,
  is_prefix, strip_suffix, under, pattern_matches,
}
use fx_rs.Permission.FilePath.Equal.{component_eq_refl}

split-cons : (s : Text) → (piece : Text) × (pieces : List Text) × (split s ≡ piece ∷ pieces)
unfolding split
split-cons [] = ([], [], refl)
split-cons (c ∷ s) =
    let (p, ps, e) = split-cons s in
    elim (Bool-cases (c == b'/')) [
      | inl slash ↦ ([], p ∷ ps, rw (e, slash))
      | inr other ↦ (c ∷ p, ps, rw (e, other))
    ]

split-append : (s t : Text) → split (s ++ (b'/' ∷ t)) ≡ split s ++ split t
unfolding split
split-append [] t = let (p, ps, e) = split-cons t in rw e
split-append (c ∷ s) t =
    let (p, ps, e) = split-cons s in
    rw (split-append s t)
      (rw e (elim (Bool-cases (c == b'/')) [ inl slash ↦ rw slash | inr other ↦ rw other ]))

strip_suffix-append : (s : Text) → strip_suffix (s ++ text "/**") ≡ some s
unfolding strip_suffix
strip_suffix-append [] = refl
strip_suffix-append (c ∷ s) = rw (strip_suffix-append s)

is_prefix-append : (p q : List Component) → is_prefix p (p ++ q) ≡ true
unfolding is_prefix
is_prefix-append [] q = refl
is_prefix-append (c ∷ p) q = rw (component_eq_refl c) (is_prefix-append p q)

parse_pieces-append : (p q : List Text) → parse_pieces (p ++ q) ≡ parse_pieces p ++ parse_pieces q
unfolding parse_pieces
parse_pieces-append [] q = refl
parse_pieces-append (x ∷ p) q =
    rw (parse_pieces-append p q)
      (sym (append_assoc (parse_piece x) (parse_pieces p) (parse_pieces q)))

parse_relative-append :
    (p : Text) (ps q : List Text)
    → parse_relative ((p ∷ ps) ++ q) ≡ parse_relative (p ∷ ps) ++ parse_pieces q
unfolding parse_relative
parse_relative-append p ps q = elim (Bool-cases (text_eq p (text "."))) [
  | inl dot ↦ rw dot (ap (λ l. cur_dir ∷ l) (parse_pieces-append ps q))
  | inr other ↦ rw other (parse_pieces-append (p ∷ ps) q)
]

-- The components below a directory continue those of the directory.
components-append :
    (s t : Text) → (below : List Component) × (components (s ++ (b'/' ∷ t)) ≡ components s ++ below)
unfolding components
components-append [] t = (components (b'/' ∷ t), refl)
components-append (c ∷ s) t = (
  parse_pieces (split t),
  elim (Bool-cases (c == b'/')) [
    | inl slash ↦
        rw slash
          (rw (split-append s t) (ap (λ l. root_dir ∷ l) (parse_pieces-append (split s) (split t))))
    | inr other ↦ rw other (rw (split-append (c ∷ s) t) relative)
  ],
)
  where
    relative :
        parse_relative (split (c ∷ s) ++ split t)
        ≡ parse_relative (split (c ∷ s)) ++ parse_pieces (split t)
    relative = let (p, ps, e) = split-cons (c ∷ s) in rw e (parse_relative-append p ps (split t))

under-below : (directory rest : Text) → under (some directory) (directory ++ (b'/' ∷ rest)) ≡ true
unfolding under
under-below directory rest =
    let (below, e) = components-append directory rest in
    rw e (is_prefix-append (components directory) below)

-- The pattern of a directory, its name with `/**` behind it, matches every path that begins with
-- the directory and a separator.
pub pattern_matches-below :
    (directory rest : Text)
    → pattern_matches (directory ++ text "/**") (directory ++ (b'/' ∷ rest)) ≡ true
unfolding pattern_matches
pattern_matches-below directory rest =
    rw (strip_suffix-append directory) (ground (arith, under-below directory rest))
