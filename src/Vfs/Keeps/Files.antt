-- ===== src/Vfs/Keeps/Files.antt =====
-- The file operations of src/vfsops.cpp (Vfs/Files.antt) and the configuration.
use vidya_god_fs.Prelude.{ℕ, not, ◌&&◌, ◌||◌, List, Option, is_empty, ℤ}
use vidya_god_fs.Prelude.Text.{Str}
use vidya_god_fs.Overlay.Types.{OpenFlags, ResolveResult, HostIo}
use vidya_god_fs.Overlay.Masks.{remove_whiteout}
use vidya_god_fs.Overlay.Kept.{passthrough_host, hide_lower, unhide_lower, kept_mark_opaque}
use vidya_god_fs.Overlay.Resolve.{resolve}
use vidya_god_fs.Overlay.Action.{change}
use vidya_god_fs.Overlay.CopyUp.{
  ensure_write_parent, copy_parent, copy_up, hit_entry, writable_path, exists, is_write_layer,
}
use vidya_god_fs.Overlay.Config.{
  After-if, After-still, Keeps, keeps, Keeps-then, Keeps-if, Keeps-option, Keeps-host_call,
  Keeps-pure, Keeps-fail, Keeps-change,
}
use vidya_god_fs.Overlay.Config.Kept.{
  remove_whiteout-Config, hide_lower-Config, unhide_lower-Config, kept_mark_opaque-Config,
}
use vidya_god_fs.Vfs.Types.{OpenFile, is_none, marker_name, hit_or_file_is_dir}
use vidya_god_fs.Vfs.Files.{
  make_writable, open_hit_as, open_found, open_vfs, create_kept, create_own, create_vfs, write_vfs,
  truncate_found, truncate_vfs, chmod_found, chmod_vfs, utimens_found, utimens_vfs, wants_write,
  handle_fd,
}

module _ {F : Type 0} (h : HostIo F) (rounds : ℕ) where
  copy_parent-Keeps : (kept : Option Str) (dst v : Str) → Keeps (copy_parent h rounds kept dst v)
  unfolding copy_parent ensure_write_parent
  copy_parent-Keeps kept dst v =
      Keeps-option kept _ _ (record { keeps = λ f s. After-still _ _ })
        (λ p. record { keeps = λ f s. After-still _ _ })

  pub copy_up-Keeps : (v : Str) (rr : ResolveResult) → Keeps (copy_up h rounds v rr)
  unfolding copy_up
  copy_up-Keeps v rr = record {
    keeps = λ f s. After-if (is_empty s.writelayer) (After-still _ f) (
        After-if (is_write_layer rr.kind || rr.rw_passthrough) (After-still _ f) (
          After-if (exists (h.lstat f (writable_path s v))) (After-still _ f) (
            (Keeps-then _ _ (copy_parent-Keeps (passthrough_host s v) (writable_path s v) v)
                (Keeps-host_call _)).keeps
              f s)));
  }

  pub make_writable-Keeps : (v : Str) (rr : ResolveResult) → Keeps (make_writable h rounds v rr)
  unfolding make_writable
  make_writable-Keeps v rr = Keeps-if _ _ _ (Keeps-pure 0) (copy_up-Keeps v rr)

  open_hit_as-Keeps :
      (v : Str) (flags : OpenFlags) (rr : ResolveResult) → Keeps (open_hit_as h rounds v flags rr)
  unfolding open_hit_as
  open_hit_as-Keeps v flags rr =
      Keeps-if (wants_write flags) _ _ (search (keeps, make_writable-Keeps))
        (Keeps-option (hit_entry rr) _ _ (search keeps) (λ e. search keeps))

  open_found-Keeps :
      (v : Str) (flags : OpenFlags) (rr : ResolveResult) → Keeps (open_found h rounds v flags rr)
  unfolding open_found
  open_found-Keeps v flags rr = record {
    keeps = λ f s. After-if (is_none rr.kind) (After-still _ f) (
        After-if (hit_or_file_is_dir h f rr)
          (After-if (wants_write flags) (After-still _ f) (After-still _ f))
          (After-if (wants_write flags && s.read_only) (After-still _ f)
            ((open_hit_as-Keeps v flags rr).keeps f s)));
  }

  pub open_vfs-Keeps : (v : Str) (flags : OpenFlags) → Keeps (open_vfs h rounds v flags)
  unfolding open_vfs
  open_vfs-Keeps v flags = record {
    keeps = λ f s. (open_found-Keeps v flags (resolve h f s v)).keeps f s;
  }

  pub hide_lower-Keeps : (v : Str) → Keeps (λ f s. hide_lower h f s v)
  hide_lower-Keeps v = record { keeps = λ f s. record { config = hide_lower-Config h f s v } }

  pub unhide_lower-Keeps : (v : Str) → Keeps (λ f s. unhide_lower h f s v)
  unhide_lower-Keeps v = record { keeps = λ f s. record { config = unhide_lower-Config h f s v } }

  pub kept_mark_opaque-Keeps : (v : Str) → Keeps (λ f s. kept_mark_opaque h f s v)
  kept_mark_opaque-Keeps v = record {
    keeps = λ f s. record { config = kept_mark_opaque-Config h f s v };
  }

  pub ensure_write_parent-Keeps : (v : Str) → Keeps (ensure_write_parent h rounds v)
  unfolding ensure_write_parent
  ensure_write_parent-Keeps v = record { keeps = λ f s. After-still _ _ }

  pub shows-Keeps : (v : Str) → Keeps (change (λ f s. remove_whiteout h f s v))
  shows-Keeps v = Keeps-change _ (λ f s. remove_whiteout-Config h f s v)

  create_kept-Keeps :
      (v path : Str) (mode : ℕ) (flags : OpenFlags) → Keeps (create_kept h rounds v path mode flags)
  unfolding create_kept
  create_kept-Keeps v path mode flags =
      Keeps-if (marker_name v) _ _ (Keeps-fail _) (search (keeps, unhide_lower-Keeps))

  create_own-Keeps :
      (v : Str) (mode : ℕ) (flags : OpenFlags) → Keeps (create_own h rounds v mode flags)
  unfolding create_own
  create_own-Keeps v mode flags = search (keeps, shows-Keeps, ensure_write_parent-Keeps)

  pub create_vfs-Keeps :
      (v : Str) (mode : ℕ) (flags : OpenFlags) → Keeps (create_vfs h rounds v mode flags)
  unfolding create_vfs
  create_vfs-Keeps v mode flags = record {
    keeps = λ f s. After-if s.read_only (After-still _ f) (
        (Keeps-option (passthrough_host s v) _ _ (create_own-Keeps v mode flags)
            (λ path. create_kept-Keeps v path mode flags)).keeps
          f s);
  }

  pub write_vfs-Keeps :
      (of : Option OpenFile) (buf : List ℕ) (off : ℕ) → Keeps (write_vfs h rounds of buf off)
  unfolding write_vfs
  write_vfs-Keeps of buf off = record {
    keeps = λ f s.
        After-if s.read_only (After-still _ f)
          ((Keeps-option (handle_fd of) _ _ (Keeps-fail _) (λ fd. Keeps-host_call _)).keeps f s);
  }

  truncate_found-Keeps :
      (v : Str) (size : ℕ) (rr : ResolveResult) → Keeps (truncate_found h rounds v size rr)
  unfolding truncate_found
  truncate_found-Keeps v size rr =
      Keeps-if (is_none rr.kind) _ _ (Keeps-fail _) (search (keeps, make_writable-Keeps))

  pub truncate_vfs-Keeps :
      (v : Str) (of : Option OpenFile) (size : ℕ) → Keeps (truncate_vfs h rounds v of size)
  unfolding truncate_vfs
  truncate_vfs-Keeps v of size = record {
    keeps = λ f s. After-if s.read_only (After-still _ f) (
        (Keeps-option (handle_fd of) _ _ (truncate_found-Keeps v size (resolve h f s v))
            (λ fd. Keeps-host_call _)).keeps
          f s);
  }

  chmod_found-Keeps :
      (v : Str) (mode : ℕ) (rr : ResolveResult) → Keeps (chmod_found h rounds v mode rr)
  unfolding chmod_found
  chmod_found-Keeps v mode rr =
      Keeps-if (is_none rr.kind) _ _ (Keeps-fail _) (search (keeps, make_writable-Keeps))

  pub chmod_vfs-Keeps : (v : Str) (mode : ℕ) → Keeps (chmod_vfs h rounds v mode)
  unfolding chmod_vfs
  chmod_vfs-Keeps v mode = record {
    keeps = λ f s.
        After-if s.read_only (After-still _ f)
          ((chmod_found-Keeps v mode (resolve h f s v)).keeps f s);
  }

  utimens_found-Keeps :
      (v : Str) (atime mtime : ℤ) (rr : ResolveResult)
      → Keeps (utimens_found h rounds v atime mtime rr)
  unfolding utimens_found
  utimens_found-Keeps v atime mtime rr = Keeps-if (is_none rr.kind) _ _ (Keeps-fail _) (
      Keeps-if (not (is_write_layer rr.kind) && not rr.rw_passthrough) _ _ (Keeps-pure 0)
        (search keeps))

  pub utimens_vfs-Keeps : (v : Str) (atime mtime : ℤ) → Keeps (utimens_vfs h rounds v atime mtime)
  unfolding utimens_vfs
  utimens_vfs-Keeps v atime mtime = record {
    keeps = λ f s.
        After-if s.read_only (After-still _ f)
          ((utimens_found-Keeps v atime mtime (resolve h f s v)).keeps f s);
  }
