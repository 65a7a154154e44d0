-- ===== src/Vfs/Requests.antt =====
-- The operations of src/vfsops.h that may change something, as requests, and the runs of a sequence of
-- them. A reply keeps the error, not the handle or the count.
pub mod ReadOnly
use vidya_god_fs.Prelude.{
  ℕ, Bool, true, List, [], ◌∷◌, Option, Result, ok, err, stuck, ℤ, enoent, eisdir, erofs,
  if◌then◌else◌,
}
use vidya_god_fs.Prelude.Text.{Str}
use vidya_god_fs.Overlay.Types.{VfsState, OpenFlags, HostIo}
use vidya_god_fs.Overlay.Resolve.{resolve}
use vidya_god_fs.Overlay.Action.{Action}
use vidya_god_fs.Vfs.Types.{OpenFile, is_none, hit_or_file_is_dir}
use vidya_god_fs.Vfs.Files.{
  wants_write, open_vfs, create_vfs, write_vfs, truncate_vfs, chmod_vfs, utimens_vfs,
}
use vidya_god_fs.Vfs.Folders.{mkdir_vfs, unlink_vfs, rmdir_vfs, symlink_vfs}
use vidya_god_fs.Vfs.Moves.{rename_vfs, link_vfs}

pub data Request : Type 0 where
  opens : Str → OpenFlags → Request
  creates : Str → ℕ → OpenFlags → Request
  writes : Option OpenFile → List ℕ → ℕ → Request
  truncates : Str → Option OpenFile → ℕ → Request
  chmods : Str → ℕ → Request
  utimes : Str → ℤ → ℤ → Request
  makes_dir : Str → ℕ → Request
  unlinks : Str → Request
  removes_dir : Str → Request
  symlinks : Str → Str → Request
  renames : Str → Str → Request
  links : Str → Str → Request

-- All but an open for reading.
unfoldable pub asks_change : Request → Bool
asks_change (opens v flags) = wants_write flags
asks_change (creates v mode flags) = true
asks_change (writes of buf off) = true
asks_change (truncates v of size) = true
asks_change (chmods v mode) = true
asks_change (utimes v atime mtime) = true
asks_change (makes_dir v mode) = true
asks_change (unlinks v) = true
asks_change (removes_dir v) = true
asks_change (symlinks target v) = true
asks_change (renames vf vt) = true
asks_change (links vf vt) = true

module _ {F : Type 0} (h : HostIo F) (rounds depth : ℕ) where
  abbrev pub outcome : {A : Type 0} → Result A → Result ℕ
  outcome r = elim r [ ok a ↦ ok 0 | err e ↦ err e | stuck ↦ stuck ]

  abbrev pub forget : {A : Type 0} → Action F A → Action F ℕ
  forget m f s = let (r, f1, s1) = m f s in (outcome r, f1, s1)

  unfoldable pub run : Request → Action F ℕ
  run (opens v flags) = forget (open_vfs h rounds v flags)
  run (creates v mode flags) = forget (create_vfs h rounds v mode flags)
  run (writes of buf off) = forget (write_vfs h rounds of buf off)
  run (truncates v of size) = truncate_vfs h rounds v of size
  run (chmods v mode) = chmod_vfs h rounds v mode
  run (utimes v atime mtime) = utimens_vfs h rounds v atime mtime
  run (makes_dir v mode) = mkdir_vfs h rounds v mode
  run (unlinks v) = unlink_vfs h rounds v
  run (removes_dir v) = rmdir_vfs h rounds v
  run (symlinks target v) = symlink_vfs h rounds target v
  run (renames vf vt) = rename_vfs h rounds depth vf vt
  run (links vf vt) = link_vfs h rounds vf vt

  -- One request after the other; the states afterwards.
  unfoldable pub run_all : List Request → F → VfsState → F × VfsState
  run_all [] f s = (f, s)
  run_all (r ∷ rs) f s = let (reply, f1, s1) = run r f s in run_all rs f1 s1

  -- What a read-only mount replies: an open for writing still names a missing path or a folder first.
  unfoldable pub refusal : Request → F → VfsState → Result ℕ
  refusal (opens v flags) f s =
      if is_none (resolve h f s v).kind
      then err enoent
      else if hit_or_file_is_dir h f (resolve h f s v)
      then err eisdir
      else err erofs
  refusal (creates v mode flags) f s = err erofs
  refusal (writes of buf off) f s = err erofs
  refusal (truncates v of size) f s = err erofs
  refusal (chmods v mode) f s = err erofs
  refusal (utimes v atime mtime) f s = err erofs
  refusal (makes_dir v mode) f s = err erofs
  refusal (unlinks v) f s = err erofs
  refusal (removes_dir v) f s = err erofs
  refusal (symlinks target v) f s = err erofs
  refusal (renames vf vt) f s = err erofs
  refusal (links vf vt) f s = err erofs
