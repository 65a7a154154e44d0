-- ===== src/Overlay/Seed.antt =====
-- `SeedMasksFromWritelayer` and `SeedKeptMasks` of src/overlay.cpp: the marks that a mount finds on disk.
-- Both walk the same way. `depth` bounds how deep the host's folders are, which the code does not; a
-- walk that meets a deeper one gives `none`.
pub mod Found
use vidya_god_fs.Prelude.{
  ℕ, zero, suc, Bool, true, false, List, [], ◌∷◌, ◌++◌, Option, none, some, drop, is_empty,
  if◌then◌else◌,
}
use vidya_god_fs.Prelude.Text.{Str, str_eq, slash}
use vidya_god_fs.Overlay.Types.{KeptMasks, Layer, VfsState, HostIo}
use vidya_god_fs.Overlay.Layers.{wl_path, opaque_name}
use vidya_god_fs.Overlay.Masks.{insert}
use vidya_god_fs.Overlay.Kept.{kept_host}
use vidya_god_fs.Overlay.CopyUp.{says_dir}
use vidya_god_fs.Vfs.Types.{child_path}
use vidya_god_fs.Vfs.Children.{is_marker}

abbrev pub no_marks : KeptMasks
no_marks = record { deleted = []; opaque = [] }

abbrev pub then_visit : Option KeptMasks → (KeptMasks → Option KeptMasks) → Option KeptMasks
then_visit none k = none
then_visit (some m) k = k m

module _ {F : Type 0} (h : HostIo F) (f : F) (folder : Str → Str) where
  -- What one name of the folder `v` adds.
  unfoldable pub visit_name :
      (Str → KeptMasks → Option KeptMasks) → Str → Str → KeptMasks → Option KeptMasks
  visit_name descend v n m =
      if str_eq n opaque_name
      then some (record m { opaque = insert v m.opaque })
      else if is_marker n
      then some (record m { deleted = insert (child_path v (drop 4 n)) m.deleted })
      else if says_dir (h.lstat f (folder v ++ (slash ∷ n)))
      then descend (child_path v n) m
      else some m

  unfoldable pub visit_names :
      (Str → KeptMasks → Option KeptMasks) → Str → List Str → KeptMasks → Option KeptMasks
  visit_names descend v [] m = some m
  visit_names descend v (n ∷ ns) m =
      then_visit (visit_name descend v n m) (λ m1. visit_names descend v ns m1)

  unfoldable pub walk : ℕ → Str → KeptMasks → Option KeptMasks
  walk zero v m = none
  walk (suc depth) v m = visit_names (λ w m1. walk depth w m1) v (h.read_dir f (folder v)) m

module _ {F : Type 0} (h : HostIo F) (depth : ℕ) where
  unfoldable pub seed_masks : F → VfsState → Option VfsState
  seed_masks f s =
      if is_empty s.writelayer then some s else (elim (walk h f (wl_path s) depth [] no_marks) [
        | none ↦ none
        | some m ↦ some (record s { whiteout_set = m.deleted; opaque_set = m.opaque })
      ])

  unfoldable pub seed_kept_masks : F → Layer → Option Layer
  seed_kept_masks f l = elim (walk h f (kept_host l) depth l.subpath no_marks) [
    | none ↦ none
    | some m ↦ some (record l { kept = some m })
  ]
