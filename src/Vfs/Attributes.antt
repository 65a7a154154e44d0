-- ===== src/Vfs/Attributes.antt =====
-- `VfsGetattr`, `VfsReaddir`, `VfsReaddirTyped`, `VfsReadlink` and `VfsStatfs` of src/vfsops.cpp, as
-- functions of the two states. A listing is what its callback is given.
use vidya_god_fs.Prelude.{
  ℕ, ◌%◌, Bool, true, false, not, ◌&&◌, ◌||◌, List, [], ◌∷◌, Option, none, some, Result, ok, err,
  stuck, pos, enoent, einval, enametoolong, is_empty, ltb, if◌then◌else◌,
}
use vidya_god_fs.Prelude.Text.{Str, slash}
use vidya_god_fs.Zip.{ZipEntry, read_zip_entry}
use vidya_god_fs.Overlay.Types.{
  VfsState, no_hit, implicit_dir, write_layer, dir_layer, file_layer, zip_hit, ResolveResult, Stat,
  StatvfsInfo, HostIo,
}
use vidya_god_fs.Overlay.Resolve.{resolve}
use vidya_god_fs.Overlay.CopyUp.{is_write_layer, is_dir_hit, is_file_hit, hit_entry, open_hit}
use vidya_god_fs.Vfs.Types.{VfsAttr, child_path}
use vidya_god_fs.Vfs.Children.{collect_children}

abbrev pub no_attr : VfsState → VfsAttr
no_attr s = record {
  is_dir = false;
  is_symlink = false;
  perms = 0;
  size = 0;
  mtime = pos 0;
  nlink = 1;
  uid = s.uid;
  gid = s.gid;
}

abbrev pub dir_attr : VfsState → ℕ → VfsAttr
dir_attr s perms = record (no_attr s) { is_dir = true; perms = perms; nlink = 2 }

unfoldable pub zip_attr : VfsState → Option ZipEntry → VfsAttr
zip_attr s none = dir_attr s 365
zip_attr s (some e) = if e.is_dir then dir_attr s 365 else record (no_attr s) {
  is_symlink = e.symlink;
  perms = if e.symlink then 511 else 365;
  size = e.size;
  mtime = e.mtime;
  nlink = 1;
}

abbrev or_errno : Option Stat → ℕ → Result Stat
or_errno o e = elim o [ none ↦ err e | some st ↦ ok st ]

module _ {F : Type 0} (h : HostIo F) where
  -- The metadata of a host path, of the link's target when links are followed.
  unfoldable pub host_attr : F → VfsState → Bool → Str → Result VfsAttr
  host_attr f s follow path =
      elim (if follow
        then or_errno (h.stat_follow f path) (h.stat_errno f path)
        else or_errno (h.lstat f path) (h.lstat_errno f path)) [
          | err e ↦ err e
          | stuck ↦ stuck
          | ok st ↦ ok (record (no_attr s) {
            is_dir = st.is_dir;
            is_symlink = st.is_symlink;
            perms = st.mode % 512;
            size = st.size;
            mtime = st.mtime;
            nlink = st.nlink;
          })
        ]

  unfoldable pub getattr_hit : F → VfsState → ResolveResult → Result VfsAttr
  getattr_hit f s rr =
      let follow = s.flatten_symlinks && (not (is_write_layer rr.kind) && not rr.rw_passthrough) in
      elim rr.kind [
        | no_hit ↦ err enoent
        | implicit_dir ↦ ok (dir_attr s 493)
        | write_layer ↦ host_attr f s follow rr.host_path
        | dir_layer ↦ host_attr f s follow rr.host_path
        | file_layer ↦ host_attr f s follow rr.host_path
        | zip_hit ↦ ok (zip_attr s rr.zip_entry)
      ]

  unfoldable pub getattr : F → VfsState → Str → Result VfsAttr
  getattr f s v = if is_empty v then ok (dir_attr s 493) else getattr_hit f s (resolve h f s v)

  unfoldable pub readdir : F → VfsState → Str → List Str
  readdir f s v = collect_children h f s v

  -- A name whose attributes cannot be had is left out.
  unfoldable pub typed_names : F → VfsState → Str → List Str → List (Str × VfsAttr)
  typed_names f s v [] = []
  typed_names f s v (n ∷ ns) =
      let rest = typed_names f s v ns in
      elim (getattr f s (child_path v n)) [ ok a ↦ (n, a) ∷ rest | err e ↦ rest | stuck ↦ rest ]

  unfoldable pub readdir_typed : F → VfsState → Str → List (Str × VfsAttr)
  readdir_typed f s v = typed_names f s v (collect_children h f s v)

  unfoldable pub readlink_hit : F → VfsState → ResolveResult → Result Str
  readlink_hit f s rr =
      if is_write_layer rr.kind
        || (rr.rw_passthrough
            || (not s.flatten_symlinks && (is_dir_hit rr.kind || is_file_hit rr.kind)))
      then h.readlink f rr.host_path
      else (elim (hit_entry rr) [
        | none ↦ err einval
        | some e ↦
            if not e.symlink
            then err einval
            else if ltb 4096 e.size
            then err enametoolong
            else (elim (open_hit rr e) [
              | err c ↦ err c
              | stuck ↦ stuck
              | ok r ↦ read_zip_entry r e.size (pos 0)
            ])
      ])

  unfoldable pub readlink_vfs : F → VfsState → Str → Result Str
  readlink_vfs f s v = readlink_hit f s (resolve h f s v)

  abbrev root_path : Str
  root_path = slash ∷ []

  unfoldable pub statfs : F → VfsState → Result StatvfsInfo
  statfs f s = h.statvfs f (
      if not (is_empty s.writelayer)
      then s.writelayer
      else (elim s.layers [ [] ↦ root_path | l ∷ ls ↦ l.source ]))
