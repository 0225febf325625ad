-- ===== src/Permission/FilePath/Equal.antt =====
-- Paths are equal where their components are.
use fx_rs.Base.{◌≡◌, refl, sym, ap, true, List, [], ◌∷◌, Text, text_eq_sound, text_eq_refl, arith}
use fx_rs.Permission.FilePath.{
  Component, root_dir, cur_dir, parent_dir, normal, components, component_eq, components_eq,
  path_eq,
}

component_eq_sound : (c d : Component) → component_eq c d ≡ true → c ≡ d
unfolding component_eq
component_eq_sound root_dir root_dir h = refl
component_eq_sound cur_dir cur_dir h = refl
component_eq_sound parent_dir parent_dir h = refl
component_eq_sound (normal s) (normal t) h = ap normal (text_eq_sound s t h)
component_eq_sound c d h = ground arith

pub component_eq_refl : (c : Component) → component_eq c c ≡ true
unfolding component_eq
component_eq_refl root_dir = refl
component_eq_refl cur_dir = refl
component_eq_refl parent_dir = refl
component_eq_refl (normal s) = text_eq_refl s

components_eq_sound : (cs ds : List Component) → components_eq cs ds ≡ true → cs ≡ ds
unfolding components_eq
components_eq_sound [] [] h = refl
components_eq_sound [] (d ∷ ds) h = ground arith
components_eq_sound (c ∷ cs) [] h = ground arith
components_eq_sound (c ∷ cs) (d ∷ ds) h =
    ground (arith, component_eq_sound c d, components_eq_sound cs ds)

components_eq_refl : (cs : List Component) → components_eq cs cs ≡ true
unfolding components_eq
components_eq_refl [] = refl
components_eq_refl (c ∷ cs) = rw (component_eq_refl c) (components_eq_refl cs)

-- What paths with the same components are: the same to every user of the path.
pub path_eq_sound : (s t : Text) → path_eq s t ≡ true → components s ≡ components t
unfolding path_eq
path_eq_sound s t h = components_eq_sound (components s) (components t) h

pub path_eq_complete : (s t : Text) → components s ≡ components t → path_eq s t ≡ true
unfolding path_eq
path_eq_complete s t h = rw h (components_eq_refl (components t))

pub path_eq_left : (s t u : Text) → path_eq s t ≡ true → path_eq s u ≡ path_eq t u
path_eq_left s t u h =
    unfold path_eq in ap (λ cs. components_eq cs (components u)) (path_eq_sound s t h)

pub path_eq_right : (s t u : Text) → path_eq t u ≡ true → path_eq s u ≡ path_eq s t
path_eq_right s t u h =
    unfold path_eq in sym (ap (components_eq (components s)) (path_eq_sound t u h))
