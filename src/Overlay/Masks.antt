-- ===== src/Overlay/Masks.antt =====
-- The writelayer's deletion masks: `IsWhiteouted` to `IsUnderOpaque` of src/overlay.cpp. The markers on
-- disk are the host's state `f`; the sets in memory are fields of `VfsState`. `MutateMask`'s
-- clone and swap is the new state.
pub mod Deleted
use vidya_god_fs.Prelude.{
  ℕ, zero, suc, Bool, true, false, not, ◌&&◌, ◌||◌, List, [], ◌∷◌, ◌++◌, Option, none, some, length,
  drop, is_empty, if◌then◌else◌,
}
use vidya_god_fs.Prelude.Text.{Str, str_eq, slash, starts_with}
use vidya_god_fs.Paths.{parent_vrel, has, has_above}
use vidya_god_fs.Overlay.Types.{VfsState, HostIo, create_file}
use vidya_god_fs.Overlay.Layers.{wl_path, whiteout_path, opaque_name}

unfoldable pub insert : Str → List Str → List Str
insert x m = if has m x then m else x ∷ m

unfoldable pub erase : Str → List Str → List Str
erase x [] = []
erase x (y ∷ m) = let rest = erase x m in if str_eq y x then rest else y ∷ rest

unfoldable pub is_whiteouted : VfsState → Str → Bool
is_whiteouted s vrel = not (is_empty s.writelayer || is_empty vrel) && has s.whiteout_set vrel

unfoldable pub is_under_whiteout : VfsState → Str → Bool
is_under_whiteout s vrel =
    not (is_empty s.writelayer || is_empty s.whiteout_set)
    && has_above (length vrel) s.whiteout_set (parent_vrel vrel)

unfoldable pub is_under_opaque : VfsState → Str → Bool
is_under_opaque s vrel =
    not (is_empty s.writelayer || is_empty s.opaque_set)
    && (has_above (length vrel) s.opaque_set (parent_vrel vrel) || has s.opaque_set [])

module _ {ℓ} {F : Type ℓ} (h : HostIo F) where
  unfoldable pub create_whiteout : F → VfsState → Str → F × VfsState
  create_whiteout f s vrel =
      if is_empty s.writelayer
      then (f, s)
      else (let (ec, f1) = h.create_directories f (wl_path s (parent_vrel vrel)) in
          let (fd, f2) = create_file h f1 (whiteout_path s vrel) in
          (f2, record s { whiteout_set = insert vrel s.whiteout_set }))

  unfoldable pub remove_whiteout : F → VfsState → Str → F × VfsState
  remove_whiteout f s vrel =
      if is_empty s.writelayer
      then (f, s)
      else (let (rc, f1) = h.unlink f (whiteout_path s vrel) in
          (f1, record s { whiteout_set = erase vrel s.whiteout_set }))

  abbrev opaque_marker : VfsState → Str → Str
  opaque_marker s vrel = wl_path s vrel ++ (slash ∷ opaque_name)

  unfoldable pub mark_opaque : F → VfsState → Str → F × VfsState
  mark_opaque f s vrel =
      if is_empty s.writelayer
      then (f, s)
      else (let (fd, f1) = create_file h f (opaque_marker s vrel) in
          (f1, record s { opaque_set = insert vrel s.opaque_set }))

unfoldable pub unmark_opaque : VfsState → Str → VfsState
unmark_opaque s vrel =
    if is_empty s.writelayer then s else record s { opaque_set = erase vrel s.opaque_set }

-- `rewrite` of `RenameMaskPrefix`: what stays, and what moved.
unfoldable pub split_moved : Str → Str → List Str → List Str × List Str
split_moved oldv newv [] = ([], [])
split_moved oldv newv (x ∷ m) =
    let (stay, moved) = split_moved oldv newv m in
    if str_eq x oldv
    then (stay, insert newv moved)
    else if starts_with x (oldv ++ (slash ∷ []))
    then (stay, insert (newv ++ (slash ∷ drop (suc (length oldv)) x)) moved)
    else (x ∷ stay, moved)

-- `m.merge(moved)`: what `m` has already stays behind.
unfoldable pub merge : List Str → List Str → List Str
merge m [] = m
merge m (x ∷ moved) = insert x (merge m moved)

unfoldable pub rename_set : Str → Str → List Str → List Str
unfolding split_moved
rename_set oldv newv m = let (stay, moved) = split_moved oldv newv m in merge stay moved

unfoldable pub rename_mask_prefix : VfsState → Str → Str → VfsState
rename_mask_prefix s oldv newv = if is_empty s.writelayer || str_eq oldv newv then s else record s {
  whiteout_set = rename_set oldv newv s.whiteout_set;
  opaque_set = rename_set oldv newv s.opaque_set;
}
