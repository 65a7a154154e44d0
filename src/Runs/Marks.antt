-- ===== src/Runs/Marks.antt =====
-- The marks that a mount finds on a small host.
use vidya_god_fs.Prelude.{
  ◌≡◌, ◌↔◌, refl, arith, Bool, true, false, List, [], ◌∷◌, ◌++◌, none, some, if◌then◌else◌,
}
use vidya_god_fs.Prelude.Text.{Str, str_eq}
use vidya_god_fs.Paths.{has}
use vidya_god_fs.Overlay.Types.{Layer, VfsState, Stat, HostIo}
use vidya_god_fs.Overlay.Layers.{wl_path, wh_prefix}
use vidya_god_fs.Overlay.Masks.{insert}
use vidya_god_fs.Overlay.Resolve.{resolve, no_result}
use vidya_god_fs.Overlay.Seed.{seed_masks, walk, visit_names, visit_name}
use vidya_god_fs.Overlay.Seed.Found.{seed_masks-Deleted, ends, goes}
use vidya_god_fs.Overlay.Structure.{structural_dirs}
use vidya_god_fs.Overlay.Structure.Placed.{SomeBelow, structural_dirs_iff}
use vidya_god_fs.Runs.Host.{quiet_host}
use vidya_god_fs.Runs.Overlays.{a, ab, layer, state, some_stat}

-- A host whose folder `/w` has a folder `a` and in it the whiteout of `b`.
abbrev marked_dir : Stat
marked_dir = record some_stat { is_dir = true; is_regular = false }

abbrev markers_in : Bool → Bool → List Str
markers_in true inner = a ∷ []
markers_in false true = (wh_prefix ++ (98 ∷ [])) ∷ []
markers_in false false = []

abbrev marked_host : HostIo (Unit {0})
marked_host = record quiet_host {
  lstat = λ f p. if str_eq p (wl_path state a) then some marked_dir else none;
  read_dir = λ f p. markers_in (str_eq p state.writelayer) (str_eq p (wl_path state a));
}

abbrev seeded_state : VfsState
seeded_state = record state { whiteout_set = ab ∷ []; opaque_set = [] }

state_seeded : seed_masks marked_host 3 tt state ≡ some seeded_state
unfolding seed_masks walk visit_names visit_name insert has
state_seeded = refl

seed_masks-Deleted_example : resolve marked_host tt seeded_state ab ≡ no_result
seed_masks-Deleted_example =
    seed_masks-Deleted marked_host 3 tt state seeded_state a (98 ∷ []) refl state_seeded
      (goes {v = []} a (unfold has in refl) refl refl ends) (unfold has in refl) refl (omega arith)

-- A layer below `a`.
abbrev low_layer : Layer
low_layer = record layer { target = ab }

structural_dirs_iff_example :
    (has (structural_dirs (layer ∷ low_layer ∷ [])) a ≡ true) ↔ SomeBelow a (layer ∷ low_layer ∷ [])
structural_dirs_iff_example = structural_dirs_iff (layer ∷ low_layer ∷ []) a (omega arith) refl
