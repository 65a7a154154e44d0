-- ===== src/Vfs/Makes.antt =====
-- What a new file or folder shows (`VfsCreate` and `VfsMkdir` of src/vfsops.cpp), outside kept folders.
use vidya_god_fs.Prelude.{
  ℕ, ◌<◌, ◌≡◌, refl, ap, ◌∙◌, Bool, true, false, ◌&&◌, none, some, ok, if◌then◌else◌, Bool-cases,
  skip_if, inl, inr, is_empty, length,
}
use vidya_god_fs.Prelude.Text.{Str}
use vidya_god_fs.Paths.{parent_vrel}
use vidya_god_fs.Paths.Ancestors.{Above}
use vidya_god_fs.Overlay.Types.{VfsState, OpenFlags, Stat, write_layer, HostIo}
use vidya_god_fs.Overlay.Layers.{wl_path, whiteout_path}
use vidya_god_fs.Overlay.Masks.{
  insert, erase, is_whiteouted, is_under_opaque, remove_whiteout, mark_opaque,
}
use vidya_god_fs.Overlay.Masks.Deleted.{has-insert, has-erase, is_under_opaque-at}
use vidya_god_fs.Overlay.Kept.{passthrough_host}
use vidya_god_fs.Overlay.Resolve.{resolve, no_result}
use vidya_god_fs.Overlay.Action.{Action, settle, query, change, host_call, pure, ◌>>=◌}
use vidya_god_fs.Overlay.CopyUp.{ensure_write_parent}
use vidya_god_fs.Vfs.Files.{created, fd_handle, open_host, create_own, create_vfs}
use vidya_god_fs.Vfs.Folders.{mkdir_own, mkdir_vfs}

and_false : (b : Bool) → (b && false) ≡ false
and_false true = refl
and_false false = refl

module _ {F : Type 0} (h : HostIo F) (rounds : ℕ) where
  -- The host after the writelayer's whiteout of `v` is removed, and after the parent is made.
  abbrev pub shown_host : F → VfsState → Str → F
  shown_host f s v = (h.unlink f (whiteout_path s v)).1

  abbrev pub shown_state : VfsState → Str → VfsState
  shown_state s v = record s { whiteout_set = erase v s.whiteout_set }

  abbrev pub parent_made : F → VfsState → Str → ℕ × F
  parent_made f s v = h.create_directories (shown_host f s v) (wl_path s (parent_vrel v))

  remove_whiteout_state :
      (f : F) (s : VfsState) (v : Str)
      → is_empty s.writelayer ≡ false
      → remove_whiteout h f s v ≡ (shown_host f s v, shown_state s v)
  unfolding remove_whiteout
  remove_whiteout_state f s v wl = rw wl refl

  ensure_ok :
      (v : Str) (f : F) (s : VfsState)
      → (h.create_directories f (wl_path s (parent_vrel v))).0 ≡ 0
      → ensure_write_parent h rounds v f s
        ≡ (ok 0, (h.create_directories f (wl_path s (parent_vrel v))).1, s)
  unfolding ensure_write_parent
  ensure_ok v f s e = rw e refl

  create_own_run :
      (v : Str) (mode : ℕ) (flags : OpenFlags) (f : F) (s : VfsState) (fd : ℕ) (f3 : F)
      → is_empty s.writelayer ≡ false
      → (parent_made f s v).0 ≡ 0
      → h.open_file (parent_made f s v).1 (wl_path s v) (created flags) mode ≡ (ok fd, f3)
      → create_own h rounds v mode flags f s ≡ (ok (fd_handle fd), f3, shown_state s v)
  unfolding create_own ◌>>=◌ query change host_call pure
  create_own_run v mode flags f s fd f3 wl parent opened =
      ap
        (λ x.
          settle
            (λ made.
              query (λ f s. wl_path s v) >>= λ path. open_host h rounds path (created flags) mode)
            (ensure_write_parent h rounds v x.0 x.1))
        (remove_whiteout_state f s v wl)
      ∙ ap
          (settle (λ made.
            query (λ f s. wl_path s v) >>= λ path. open_host h rounds path (created flags) mode))
          (ensure_ok v (shown_host f s v) (shown_state s v) parent)
      ∙ ap (λ x. settle (λ fd. pure (fd_handle fd)) (x.0, x.1, shown_state s v)) opened

  shown_again : (s : VfsState) (v : Str) → is_whiteouted (shown_state s v) v ≡ false
  unfolding is_whiteouted
  shown_again s v = rw (has-erase v s.whiteout_set) (and_false _)

  resolve_own :
      (f : F) (s : VfsState) (v : Str) (st : Stat)
      → is_empty s.writelayer ≡ false
      → is_whiteouted s v ≡ false
      → h.lstat f (wl_path s v) ≡ some st
      → resolve h f s v ≡ record no_result { kind = write_layer; host_path = wl_path s v }
  unfolding resolve
  resolve_own f s v st wl shown there = rw (wl, shown, there) refl

  -- Outside kept folders, on a writable mount with a writelayer, where the host makes the parent and
  -- opens the writelayer's file, `VfsCreate` returns that file, and when the host then has it, the path
  -- resolves to the writelayer's file, also when it had been deleted before.
  pub create_vfs-Serves :
      (v : Str) (mode : ℕ) (flags : OpenFlags) (f : F) (s : VfsState) (fd : ℕ) (f3 : F) (st : Stat)
      → s.read_only ≡ false
      → is_empty s.writelayer ≡ false
      → passthrough_host s v ≡ none
      → (parent_made f s v).0 ≡ 0
      → h.open_file (parent_made f s v).1 (wl_path s v) (created flags) mode ≡ (ok fd, f3)
      → h.lstat f3 (wl_path s v) ≡ some st
      → (create_vfs h rounds v mode flags f s ≡ (ok (fd_handle fd), f3, shown_state s v))
        × (resolve h f3 (shown_state s v) v
            ≡ record no_result { kind = write_layer; host_path = wl_path s v })
  unfolding create_vfs
  create_vfs-Serves v mode flags f s fd f3 st rw_mount wl own parent opened there = (
    skip_if _ _ rw_mount ∙ (rw own refl ∙ create_own_run v mode flags f s fd f3 wl parent opened),
    resolve_own f3 (shown_state s v) v st wl (shown_again s v) there,
  )

  resolve_opaque :
      (f : F) (s : VfsState) (v : Str)
      → is_empty s.writelayer ≡ false
      → h.lstat f (wl_path s v) ≡ none
      → is_under_opaque s v ≡ true
      → resolve h f s v ≡ no_result
  unfolding resolve
  resolve_opaque f s v wl missing e = elim (Bool-cases (is_whiteouted s v)) [
    | inl deleted ↦ rw (wl, deleted) refl
    | inr other ↦ rw (wl, other, missing, e) refl
  ]

  mkdir_own_run :
      (v : Str) (mode : ℕ) (f : F) (s : VfsState) (n : ℕ) (f3 : F)
      → is_empty s.writelayer ≡ false
      → is_whiteouted s v ≡ true
      → (parent_made f s v).0 ≡ 0
      → h.mkdir (parent_made f s v).1 (wl_path s v) mode ≡ (ok n, f3)
      → mkdir_own h rounds v mode f s
        ≡ (ok 0, (mark_opaque h f3 (shown_state s v) v).0, (mark_opaque h f3 (shown_state s v) v).1)
  unfolding mkdir_own ◌>>=◌ query change host_call pure
  mkdir_own_run v mode f s n f3 wl deleted parent made =
      ap (λ x. settle (after_parent (is_whiteouted s v)) (ensure_write_parent h rounds v x.0 x.1))
        (remove_whiteout_state f s v wl)
      ∙ (ap (settle (after_parent (is_whiteouted s v)))
            (ensure_ok v (shown_host f s v) (shown_state s v) parent)
          ∙ (ap (λ x. settle (marks (is_whiteouted s v)) (x.0, x.1, shown_state s v)) made
              ∙ ap (λ b. marks b n f3 (shown_state s v)) deleted))
    where
      marks : Bool → ℕ → Action F ℕ
      marks over made = if over then change (λ f s. mark_opaque h f s v) else pure 0

      after_parent : Bool → ℕ → Action F ℕ
      after_parent over parent =
          query (λ f s. wl_path s v) >>= λ path. host_call (λ f. h.mkdir f path mode) >>= marks over

  mark_opaque_state :
      (f : F) (s : VfsState) (v : Str)
      → is_empty s.writelayer ≡ false
      → (mark_opaque h f s v).1 ≡ record s { opaque_set = insert v s.opaque_set }
  unfolding mark_opaque
  mark_opaque_state f s v wl = rw wl refl

  mkdir_vfs-own :
      (v : Str) (mode : ℕ) (f : F) (s : VfsState)
      → s.read_only ≡ false
      → passthrough_host s v ≡ none
      → mkdir_vfs h rounds v mode f s ≡ mkdir_own h rounds v mode f s
  unfolding mkdir_vfs
  mkdir_vfs-own v mode f s rw_mount own = skip_if _ _ rw_mount ∙ rw own refl

  -- The host after the folder's opaque marker is written.
  abbrev pub marked_host : F → VfsState → Str → F
  marked_host f s v = (mark_opaque h f (shown_state s v) v).0

  -- Outside kept folders, on a writable mount with a writelayer, where the host makes the parent and the
  -- folder, `VfsMkdir` of a path that was deleted returns 0, and the new folder starts empty: a path below
  -- it that the writelayer does not hold resolves to nothing, whatever the layers have there.
  pub mkdir_vfs-Empty :
      (v : Str) (mode : ℕ) (f : F) (s : VfsState) (n : ℕ) (f3 : F) (x : Str)
      → s.read_only ≡ false
      → is_empty s.writelayer ≡ false
      → passthrough_host s v ≡ none
      → 0 < length v
      → is_whiteouted s v ≡ true
      → (parent_made f s v).0 ≡ 0
      → h.mkdir (parent_made f s v).1 (wl_path s v) mode ≡ (ok n, f3)
      → Above v x
      → h.lstat (marked_host f3 s v) (wl_path s x) ≡ none
      → ((mkdir_vfs h rounds v mode f s).0 ≡ ok 0)
        × (resolve h (mkdir_vfs h rounds v mode f s).1 (mkdir_vfs h rounds v mode f s).2 x
            ≡ no_result)
  mkdir_vfs-Empty v mode f s n f3 x rw_mount wl own deep deleted parent made below missing =
      (ap (λ r. r.0) run, ap (λ r. resolve h r.1 r.2 x) run ∙ hidden)
    where
      marked : VfsState
      marked = record (shown_state s v) { opaque_set = insert v s.opaque_set }

      run : mkdir_vfs h rounds v mode f s ≡ (ok 0, marked_host f3 s v, marked)
      run =
          mkdir_vfs-own v mode f s rw_mount own
          ∙ (mkdir_own_run v mode f s n f3 wl deleted parent made
              ∙ ap (λ t. (ok 0, marked_host f3 s v, t))
                  (mark_opaque_state f3 (shown_state s v) v wl))

      hidden : resolve h (marked_host f3 s v) marked x ≡ no_result
      hidden =
          resolve_opaque (marked_host f3 s v) marked x wl missing
            (is_under_opaque-at marked v x wl deep (has-insert v s.opaque_set) below)
