-- ===== src/Vfs/NoWritelayer.antt =====
-- A mount that is neither read-only nor has a writelayer, which the specification allows
-- (src/layerspec.cpp): what src/vfsops.cpp does there outside kept folders.
use vidya_god_fs.Prelude.{
  ℕ, ◌<◌, ◌≡◌, refl, ap, ◌∙◌, arith, false, [], ◌∷◌, Option, none, ok, if◌then◌else◌, Bool-cases,
  skip_if, take_if, inl, inr, is_empty, length,
}
use vidya_god_fs.Prelude.Text.{Str, slash}
use vidya_god_fs.Paths.{parent_vrel}
use vidya_god_fs.Overlay.Types.{VfsState, OpenFlags, HostIo}
use vidya_god_fs.Overlay.Layers.{wl_path}
use vidya_god_fs.Overlay.Masks.{remove_whiteout, create_whiteout}
use vidya_god_fs.Overlay.Kept.{passthrough_host}
use vidya_god_fs.Overlay.Resolve.{resolve}
use vidya_god_fs.Overlay.Action.{
  Action, settle, bind_ok, query, change, host_call, pure, give, ◌>>=◌,
}
use vidya_god_fs.Overlay.CopyUp.{ensure_write_parent}
use vidya_god_fs.Vfs.Types.{OpenFile, is_none}
use vidya_god_fs.Vfs.Files.{created, fd_handle, open_host, create_own, create_vfs}
use vidya_god_fs.Vfs.Folders.{fails_hard, hide_visible, unlink_own, unlink_vfs}

-- Without a writelayer, its paths are absolute paths of the host.
wl_path_absolute :
    (s : VfsState) (v : Str) → s.writelayer ≡ [] → 0 < length v → wl_path s v ≡ slash ∷ v
wl_path_absolute s [] e deep = absurd (omega arith)
wl_path_absolute s (c ∷ v) e deep = rw e refl

module _ {F : Type 0} (h : HostIo F) (rounds : ℕ) where
  nothing_hidden :
      (v : Str) (f : F) (s : VfsState)
      → s.writelayer ≡ []
      → hide_visible h rounds v f s ≡ (ok 0, f, s)
  unfolding hide_visible create_whiteout
  nothing_hidden v f s e = elim (Bool-cases (is_none (resolve h f s v).kind)) [
    | inl missing ↦ rw missing refl
    | inr found ↦ rw (found, ap is_empty e) refl
  ]

  -- On a writable mount without a writelayer, `VfsUnlink` outside kept folders returns 0 and changes
  -- nothing, whatever shows at the path.
  pub unlink_vfs-Ignored :
      (v : Str) (f : F) (s : VfsState)
      → s.read_only ≡ false
      → s.writelayer ≡ []
      → passthrough_host s v ≡ none
      → unlink_vfs h rounds v f s ≡ (ok 0, f, s)
  unfolding unlink_vfs
  unlink_vfs-Ignored v f s rw_mount e own =
      skip_if _ _ rw_mount
      ∙ (rw own refl
          ∙ (bind_ok (unlink_own h rounds v)
                (λ r. if fails_hard r then give r else hide_visible h rounds v)
                (take_if _ _ (ap is_empty e))
              ∙ nothing_hidden v f s e))

  -- The host after the parent of the path is made, on the host's own root.
  abbrev pub parent_host : F → VfsState → Str → ℕ × F
  parent_host f s v = h.create_directories f (wl_path s (parent_vrel v))

  nothing_shown :
      (f : F) (s : VfsState) (v : Str) → s.writelayer ≡ [] → remove_whiteout h f s v ≡ (f, s)
  unfolding remove_whiteout
  nothing_shown f s v e = rw (ap is_empty e) refl

  parent_ok :
      (v : Str) (f : F) (s : VfsState)
      → (parent_host f s v).0 ≡ 0
      → ensure_write_parent h rounds v f s ≡ (ok 0, (parent_host f s v).1, s)
  unfolding ensure_write_parent
  parent_ok v f s e = rw e refl

  -- On a writable mount without a writelayer, `VfsCreate` of a path other than the root, outside kept
  -- folders, opens the path below the host's own root: where the host makes the parent and opens
  -- `/` with the path behind it, that file is what it returns.
  pub create_vfs-Escapes :
      (v : Str) (mode : ℕ) (flags : OpenFlags) (f : F) (s : VfsState) (fd : ℕ) (f3 : F)
      → s.read_only ≡ false
      → s.writelayer ≡ []
      → passthrough_host s v ≡ none
      → 0 < length v
      → (parent_host f s v).0 ≡ 0
      → h.open_file (parent_host f s v).1 (slash ∷ v) (created flags) mode ≡ (ok fd, f3)
      → create_vfs h rounds v mode flags f s ≡ (ok (fd_handle fd), f3, s)
  unfolding create_vfs create_own ◌>>=◌ query change host_call pure
  create_vfs-Escapes v mode flags f s fd f3 rw_mount e own deep parent opened =
      skip_if _ _ rw_mount
      ∙ (rw own refl
          ∙ (ap (λ x. settle open_it (ensure_write_parent h rounds v x.0 x.1))
                (nothing_shown f s v e)
              ∙ (ap (settle open_it) (parent_ok v f s parent)
                  ∙ ap (λ x. settle (λ d. pure (fd_handle d)) (x.0, x.1, s))
                      (ap (λ p. h.open_file (parent_host f s v).1 p (created flags) mode)
                          (wl_path_absolute s v e deep)
                        ∙ opened))))
    where
      open_it : ℕ → Action F (Option OpenFile)
      open_it made =
          query (λ f s. wl_path s v) >>= λ path. open_host h rounds path (created flags) mode
