-- ===== src/Vfs/Files.antt =====
-- `VfsOpen`, `VfsCreate`, `VfsRead`, `VfsWrite`, `VfsRelease`, `VfsTruncate`, `VfsChmod`, `VfsUtimens` and
-- `VfsFsync` of src/vfsops.cpp. A null handle is `none`.
use vidya_god_fs.Prelude.{
  ℕ, ◌-◌, ◌^◌, Bool, true, false, not, ◌&&◌, ◌||◌, List, Option, none, some, Result, ok, err, ℤ,
  pos, negsuc, enoent, ebadf, eisdir, erofs, einval, ltb, if◌then◌else◌,
}
use vidya_god_fs.Prelude.Text.{Str}
use vidya_god_fs.Zip.{ZipReader, read_zip_entry}
use vidya_god_fs.Overlay.Types.{VfsState, ResolveResult, OpenFlags, HostIo}
use vidya_god_fs.Overlay.Layers.{wl_path}
use vidya_god_fs.Overlay.Masks.{remove_whiteout}
use vidya_god_fs.Overlay.Kept.{passthrough_host, unhide_lower}
use vidya_god_fs.Overlay.Resolve.{resolve}
use vidya_god_fs.Overlay.Action.{
  Action, pure, fail, query, answer, host_call, host_do, change, attempt, ◌>>=◌,
}
use vidya_god_fs.Overlay.CopyUp.{
  is_write_layer, hit_entry, open_hit, copy_up, writable_path, ensure_write_parent,
}
use vidya_god_fs.Vfs.Types.{OpenFile, is_none, marker_name, ensure_host_parent, hit_or_file_is_dir}

-- `(flags & (O_WRONLY | O_RDWR)) || (flags & O_TRUNC)`.
abbrev pub wants_write : OpenFlags → Bool
wants_write flags = (flags.wronly || flags.rdwr) || flags.trunc

-- The flags that `VfsCreate` opens with.
abbrev pub created : OpenFlags → OpenFlags
created flags = record flags { creat = true; nofollow = false }

abbrev pub handle_fd : Option OpenFile → Option ℕ
handle_fd o = elim o [ none ↦ none | some of ↦ of.fd ]

abbrev pub fd_handle : ℕ → Option OpenFile
fd_handle fd = some (record { fd = some fd; zip = none })

abbrev pub zip_handle : ZipReader → Option OpenFile
zip_handle r = some (record { fd = none; zip = some r })

-- `(off_t)off` of a 64-bit unsigned number.
abbrev pub to_off : ℕ → ℤ
to_off off = if ltb off (2 ^ 63) then pos off else negsuc (2 ^ 64 - 1 - off)

-- Where a hit is written once it is writable.
abbrev pub write_target : Str → ResolveResult → VfsState → Str
write_target v rr s = if rr.rw_passthrough then rr.host_path else writable_path s v

module _ {F : Type 0} (h : HostIo F) (rounds : ℕ) where
  abbrev pub open_host : Str → OpenFlags → ℕ → Action F (Option OpenFile)
  open_host path flags mode =
      host_call (λ f. h.open_file f path flags mode) >>= λ fd. pure (fd_handle fd)

  -- Unless it is writable where it lies, a hit is copied up.
  unfoldable pub make_writable : Str → ResolveResult → Action F ℕ
  make_writable v rr =
      if is_write_layer rr.kind || rr.rw_passthrough then pure 0 else copy_up h rounds v rr

  unfoldable pub open_hit_as : Str → OpenFlags → ResolveResult → Action F (Option OpenFile)
  open_hit_as v flags rr =
      if wants_write flags
      then (make_writable v rr >>= λ c.
          query (λ f s. write_target v rr s) >>= λ path. open_host path flags 0)
      else (elim (hit_entry rr) [
        | some e ↦ answer (λ f s. open_hit rr e) >>= λ r. pure (zip_handle r)
        | none ↦ open_host rr.host_path flags 0
      ])

  unfoldable pub open_found : Str → OpenFlags → ResolveResult → Action F (Option OpenFile)
  open_found v flags rr f s =
      if is_none rr.kind
      then (err enoent, f, s)
      else if hit_or_file_is_dir h f rr
      then (if wants_write flags then (err eisdir, f, s) else (ok none, f, s))
      else if wants_write flags && s.read_only
      then (err erofs, f, s)
      else open_hit_as v flags rr f s

  unfoldable pub open_vfs : Str → OpenFlags → Action F (Option OpenFile)
  open_vfs v flags f s = open_found v flags (resolve h f s v) f s

  -- Into the kept folder at `path`; the marker goes only when the file is there.
  unfoldable pub create_kept : Str → Str → ℕ → OpenFlags → Action F (Option OpenFile)
  create_kept v path mode flags = if marker_name v then fail einval else do
    made ← host_do (λ f. ensure_host_parent h f path)
    fd ← host_call (λ f. h.open_file f path (created flags) mode)
    shown ← attempt (λ f s. unhide_lower h f s v)
    pure (fd_handle fd)

  unfoldable pub create_own : Str → ℕ → OpenFlags → Action F (Option OpenFile)
  create_own v mode flags = do
    shown ← change (λ f s. remove_whiteout h f s v)
    made ← ensure_write_parent h rounds v
    path ← query (λ f s. wl_path s v)
    open_host path (created flags) mode

  unfoldable pub create_vfs : Str → ℕ → OpenFlags → Action F (Option OpenFile)
  create_vfs v mode flags f s =
      if s.read_only
      then (err erofs, f, s)
      else (elim (passthrough_host s v) as (λ x. Action F (Option OpenFile)) [
        | some path ↦ create_kept v path mode flags
        | none ↦ create_own v mode flags
      ])
          f s

  unfoldable pub read_vfs : Option OpenFile → ℕ → ℕ → F → Result (List ℕ)
  read_vfs none size off f = err ebadf
  read_vfs (some of) size off f = elim of.zip [
    | some r ↦ read_zip_entry r size (to_off off)
    | none ↦ elim of.fd [ some fd ↦ h.pread f fd size off | none ↦ err ebadf ]
  ]

  unfoldable pub write_vfs : Option OpenFile → List ℕ → ℕ → Action F ℕ
  write_vfs of buf off f s =
      if s.read_only
      then (err erofs, f, s)
      else (elim (handle_fd of) as (λ x. Action F ℕ) [
        | none ↦ fail ebadf
        | some fd ↦ host_call (λ f. h.pwrite f fd buf off)
      ])
          f s

  unfoldable pub release_vfs : Option OpenFile → F → F
  release_vfs of f = elim (handle_fd of) [ none ↦ f | some fd ↦ h.close f fd ]

  unfoldable pub truncate_found : Str → ℕ → ResolveResult → Action F ℕ
  truncate_found v size rr =
      if is_none rr.kind
      then fail enoent
      else (make_writable v rr >>= λ c.
          query (λ f s. write_target v rr s) >>= λ path. host_call (λ f. h.truncate f path size))

  unfoldable pub truncate_vfs : Str → Option OpenFile → ℕ → Action F ℕ
  truncate_vfs v of size f s =
      if s.read_only
      then (err erofs, f, s)
      else (elim (handle_fd of) as (λ x. Action F ℕ) [
        | some fd ↦ host_call (λ f. h.ftruncate f fd size)
        | none ↦ truncate_found v size (resolve h f s v)
      ])
          f s

  unfoldable pub chmod_found : Str → ℕ → ResolveResult → Action F ℕ
  chmod_found v mode rr =
      if is_none rr.kind
      then fail enoent
      else (make_writable v rr >>= λ c.
          query (λ f s. write_target v rr s) >>= λ path. host_call (λ f. h.chmod f path mode))

  unfoldable pub chmod_vfs : Str → ℕ → Action F ℕ
  chmod_vfs v mode f s =
      if s.read_only then (err erofs, f, s) else chmod_found v mode (resolve h f s v) f s

  -- Only what is writable already is touched.
  unfoldable pub utimens_found : Str → ℤ → ℤ → ResolveResult → Action F ℕ
  utimens_found v atime mtime rr =
      if is_none rr.kind
      then fail enoent
      else if not (is_write_layer rr.kind) && not rr.rw_passthrough
      then pure 0
      else (query (λ f s. if rr.rw_passthrough then rr.host_path else wl_path s v) >>= λ path.
          host_call (λ f. h.utimens f path atime mtime false))

  unfoldable pub utimens_vfs : Str → ℤ → ℤ → Action F ℕ
  utimens_vfs v atime mtime f s =
      if s.read_only then (err erofs, f, s) else utimens_found v atime mtime (resolve h f s v) f s

  unfoldable pub fsync_vfs : Option OpenFile → Action F ℕ
  fsync_vfs of = elim (handle_fd of) [ none ↦ pure 0 | some fd ↦ host_call (λ f. h.fsync f fd) ]
