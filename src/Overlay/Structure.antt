-- ===== src/Overlay/Structure.antt =====
-- `AddAncestors` and the structural folders of `VfsState::Init` of src/overlay.cpp: the folders that are
-- there because a layer lies below them.
pub mod Placed
use vidya_god_fs.Prelude.{
  ℕ, zero, suc, ◌<◌, ◌≡◌, ◌≢◌, refl, sym, ap, ◌∙◌, arith, ◌↔◌, ◌⊎◌, inl, inr, Bool, true, false,
  ◌||◌, List, [], ◌∷◌, length, is_empty, if◌then◌else◌, Bool-cases, skip_if, take_if,
}
use vidya_god_fs.Prelude.Text.{Str, str_eq, str_eq_refl, str_eq_sym, str_eq→eq}
use vidya_god_fs.Paths.{parent_vrel, has, has_above}
use vidya_god_fs.Paths.Ancestors.{Above, has_above_iff, or_split, or_true, no_truth}
use vidya_god_fs.Overlay.Types.{Layer}
use vidya_god_fs.Overlay.Layers.{layer_masked}
use vidya_god_fs.Overlay.Masks.{insert, erase}
use vidya_god_fs.Overlay.Masks.Deleted.{has-insert, has-insert_other}
use vidya_god_fs.Vfs.Children.{is_file_layer}

-- The loop of `AddAncestors` from `cur` on.
unfoldable pub add_above : ℕ → Str → List Str → List Str
add_above zero cur dst = dst
add_above (suc fuel) cur dst =
    let rest = add_above fuel (parent_vrel cur) (insert cur dst) in
    if is_empty cur then dst else rest

unfoldable pub add_ancestors : List Str → Str → List Str
add_ancestors dst leaf = add_above (length leaf) (parent_vrel leaf) dst

-- "\x01", which stands for the root as a target.
abbrev pub root_mark : Str
root_mark = 1 ∷ []

abbrev pub leaf_of : Layer → Str
leaf_of l =
    if is_file_layer l then l.file_vpath else if is_empty l.target then root_mark else l.target

abbrev pub place_of : Layer → Str
place_of l = if is_file_layer l then l.file_vpath else l.target

unfoldable pub add_layers : List Layer → List Str → List Str
add_layers [] dst = dst
add_layers (l ∷ layers) dst =
    add_layers layers (if layer_masked l (place_of l) then dst else add_ancestors dst (leaf_of l))

unfoldable pub structural_dirs : List Layer → List Str
structural_dirs layers = erase [] (erase root_mark (add_layers layers []))
