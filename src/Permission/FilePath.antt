-- ===== src/Permission/FilePath.antt =====
-- Paths as `std::path` reads them on Unix, and the pattern test of a permission rule
-- (crates/fx-core/src/permission.rs, lines 167 to 176).
pub mod Under
pub mod Equal
pub mod Order
use mathlib.Core.List.{reverse}
use fx_rs.Base.{
  ℕ, Bool, true, false, ◌&&◌, ◌||◌, Option, none, some, List, [], ◌∷◌, ◌++◌, Text, text, text_eq,
  ◌==◌, if◌then◌else◌,
}

pub data Component : Type 0 where
  root_dir cur_dir parent_dir : Component
  normal : Text → Component

-- `split('/')`: the pieces between the separators, empty ones included.
unfoldable pub split : Text → List Text
split [] = [] ∷ []
split (c ∷ s) = elim (split s) [
  | [] ↦ (c ∷ []) ∷ []
  | piece ∷ pieces ↦ if c == b'/' then [] ∷ piece ∷ pieces else (c ∷ piece) ∷ pieces
]

-- An empty piece and a dot vanish.
unfoldable pub parse_piece : Text → List Component
unfolding text_eq
parse_piece piece =
    if text_eq piece [] || text_eq piece (text ".")
    then []
    else if text_eq piece (text "..")
    then parent_dir ∷ []
    else normal piece ∷ []

unfoldable pub parse_pieces : List Text → List Component
parse_pieces [] = []
parse_pieces (piece ∷ pieces) = parse_piece piece ++ parse_pieces pieces

-- A leading dot of a relative path is kept.
unfoldable pub parse_relative : List Text → List Component
parse_relative [] = []
parse_relative (piece ∷ pieces) =
    if text_eq piece (text ".")
    then cur_dir ∷ parse_pieces pieces
    else parse_pieces (piece ∷ pieces)

-- `Path::components`.
unfoldable pub components : Text → List Component
components [] = []
components (c ∷ s) =
    if c == b'/' then root_dir ∷ parse_pieces (split s) else parse_relative (split (c ∷ s))

unfoldable pub component_eq : Component → Component → Bool
unfolding text_eq
component_eq root_dir root_dir = true
component_eq cur_dir cur_dir = true
component_eq parent_dir parent_dir = true
component_eq (normal s) (normal t) = text_eq s t
component_eq _ _ = false

unfoldable pub components_eq : List Component → List Component → Bool
unfolding component_eq
components_eq [] [] = true
components_eq (c ∷ cs) (d ∷ ds) = component_eq c d && components_eq cs ds
components_eq _ _ = false

-- The equality of paths, which goes by their components.
unfoldable pub path_eq : Text → Text → Bool
path_eq s t = components_eq (components s) (components t)

-- `Path::starts_with`, on the components.
unfoldable pub is_prefix : List Component → List Component → Bool
unfolding component_eq
is_prefix [] path = true
is_prefix (c ∷ prefix) [] = false
is_prefix (c ∷ prefix) (d ∷ path) = component_eq c d && is_prefix prefix path

-- `strip_suffix("/**")`.
unfoldable pub strip_suffix : Text → Option Text
unfolding text_eq
strip_suffix [] = none
strip_suffix (c ∷ s) = elim (strip_suffix s) [
  | some prefix ↦ some (c ∷ prefix)
  | none ↦ if text_eq (c ∷ s) (text "/**") then some [] else none
]

unfoldable pub under : Option Text → Text → Bool
under none target = false
under (some prefix) target = is_prefix (components prefix) (components target)

unfoldable pub pattern_matches : Text → Text → Bool
pattern_matches pattern target =
    text_eq pattern (text "*") || text_eq pattern target || under (strip_suffix pattern) target
