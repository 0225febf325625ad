-- ===== src/Permission/FilePath/Order.antt =====
-- The order of paths, which goes by their components, the first difference deciding.
use fx_rs.Base.{ℕ, Bool, true, false, List, [], ◌∷◌, Text, ltb, ◌==◌, if◌then◌else◌}
use fx_rs.Permission.FilePath.{
  Component, root_dir, cur_dir, parent_dir, normal, components, component_eq,
}

-- The order of strings.
unfoldable pub text_ltb : Text → Text → Bool
text_ltb s [] = false
text_ltb [] (d ∷ t) = true
text_ltb (c ∷ s) (d ∷ t) = let rest = text_ltb s t in if c == d then rest else ltb c d

-- The place of a component among the kinds of component.
unfoldable component_rank : Component → ℕ
component_rank root_dir = 0
component_rank cur_dir = 1
component_rank parent_dir = 2
component_rank (normal s) = 3

unfoldable pub component_ltb : Component → Component → Bool
unfolding component_rank text_ltb
component_ltb (normal s) (normal t) = text_ltb s t
component_ltb c d = ltb (component_rank c) (component_rank d)

unfoldable pub components_ltb : List Component → List Component → Bool
unfolding component_ltb component_eq
components_ltb cs [] = false
components_ltb [] (d ∷ ds) = true
components_ltb (c ∷ cs) (d ∷ ds) =
    let rest = components_ltb cs ds in if component_eq c d then rest else component_ltb c d

unfoldable pub path_ltb : Text → Text → Bool
path_ltb s t = components_ltb (components s) (components t)
