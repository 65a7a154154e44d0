-- ===== src/Vfs/Types.antt =====
-- The handles and attributes of src/vfsops.h, and small helpers of src/vfsops.cpp.
use vidya_god_fs.Prelude.{ℕ, ℤ, Bool, true, false, ◌||◌, ◌&&◌, [], ◌∷◌, ◌++◌, Option, none, some}
use vidya_god_fs.Prelude.Text.{Str, slash, starts_with}
use vidya_god_fs.Paths.{find_last_slash, parent_vrel, base_name}
use vidya_god_fs.Zip.{ZipReader}
use vidya_god_fs.Overlay.Types.{
  HitKind, no_hit, implicit_dir, write_layer, dir_layer, file_layer, zip_hit, ResolveResult, HostIo,
}
use vidya_god_fs.Overlay.Layers.{wh_prefix}
use vidya_god_fs.Overlay.CopyUp.{shows_dir, is_write_layer, is_dir_hit, is_file_hit, says_dir}

-- `fd` is none for -1, `zip` for a null pointer.
pub record OpenFile : Type 0 where
  pub fd : Option ℕ
  pub zip : Option ZipReader

pub record VfsAttr : Type 0 where
  pub is_dir : Bool
  pub is_symlink : Bool
  pub perms : ℕ
  pub size : ℕ
  pub mtime : ℤ
  pub nlink : ℕ
  pub uid : ℕ
  pub gid : ℕ

abbrev pub is_none : HitKind → Bool
is_none k = elim k [
  | no_hit ↦ true
  | implicit_dir ↦ false
  | write_layer ↦ false
  | dir_layer ↦ false
  | file_layer ↦ false
  | zip_hit ↦ false
]

-- A name that reads as a deletion marker.
unfoldable pub marker_name : Str → Bool
marker_name v = starts_with (base_name v) wh_prefix

-- `v.empty() ? n : v + "/" + n`.
abbrev pub child_path : Str → Str → Str
child_path [] n = n
child_path (c ∷ v) n = c ∷ v ++ (slash ∷ n)

module _ {F : Type 0} (h : HostIo F) where
  unfoldable pub ensure_host_parent : F → Str → F
  ensure_host_parent f path = elim (find_last_slash path) [
    | none ↦ f
    | some i ↦ (h.create_directories f (parent_vrel path)).1
  ]

  -- Whether a hit is a folder, where the operation looks at writelayer and folder hits.
  abbrev pub hit_is_dir : F → ResolveResult → Bool
  hit_is_dir f rr =
      shows_dir rr
      || ((is_write_layer rr.kind || is_dir_hit rr.kind) && says_dir (h.lstat f rr.host_path))

  -- The same with the hits of single files.
  abbrev pub hit_or_file_is_dir : F → ResolveResult → Bool
  hit_or_file_is_dir f rr =
      shows_dir rr
      || ((is_write_layer rr.kind || (is_dir_hit rr.kind || is_file_hit rr.kind))
          && says_dir (h.lstat f rr.host_path))
