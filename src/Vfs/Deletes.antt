-- ===== src/Vfs/Deletes.antt =====
-- What a removal leaves visible (`VfsUnlink` and `VfsRmdir` of src/vfsops.cpp), outside kept folders.
use vidya_god_fs.Prelude.{
  ℕ, ◌<◌, ◌≡◌, refl, ap, ◌∙◌, true, false, [], none, Result, ok, if◌then◌else◌, Bool-cases, skip_if,
  ◌⊎◌, inl, inr, is_empty, length,
}
use vidya_god_fs.Prelude.Text.{Str}
use vidya_god_fs.Overlay.Types.{
  VfsState, no_hit, HitKind, implicit_dir, write_layer, dir_layer, file_layer, zip_hit, HostIo,
}
use vidya_god_fs.Overlay.Layers.{wl_path}
use vidya_god_fs.Overlay.Kept.{passthrough_host}
use vidya_god_fs.Overlay.Resolve.{resolve}
use vidya_god_fs.Overlay.Resolve.Priority.{create_whiteout-Hides}
use vidya_god_fs.Overlay.Action.{bind_ok, give}
use vidya_god_fs.Vfs.Types.{is_none}
use vidya_god_fs.Vfs.Children.{collect_children}
use vidya_god_fs.Vfs.Keeps.Folders.{sweep_markers-Config}
use vidya_god_fs.Vfs.Folders.{
  fails_hard, hide_visible, unlink_own, unlink_vfs, sweep_markers, rmdir_own, rmdir_vfs,
}

none_eq : (k : HitKind) → is_none k ≡ true → k ≡ no_hit
none_eq no_hit e = refl
none_eq implicit_dir e = absurd cc
none_eq write_layer e = absurd cc
none_eq dir_layer e = absurd cc
none_eq file_layer e = absurd cc
none_eq zip_hit e = absurd cc

module _ {F : Type 0} (h : HostIo F) (rounds : ℕ) where
  -- Nothing shows at `v` in the states after a run.
  pub record Gone (v : Str) (x : Result ℕ × F × VfsState) : Type 0 where
    pub is_gone : (resolve h x.1 x.2 v).kind ≡ no_hit

  hide_visible-Gone :
      (v : Str) (f : F) (s : VfsState)
      → is_empty s.writelayer ≡ false
      → 0 < length v
      → Gone v (hide_visible h rounds v f s)
  unfolding hide_visible
  hide_visible-Gone v f s wl deep = elim (Bool-cases (is_none (resolve h f s v).kind)) [
    | inl missing ↦ rw missing (record { is_gone = none_eq _ missing })
    | inr found ↦
        rw found (record {
          is_gone = ap (λ r. r.kind) (create_whiteout-Hides h f s v v wl deep (inl refl));
        })
  ]

  hide_visible_ok : (v : Str) (f : F) (s : VfsState) → (hide_visible h rounds v f s).0 ≡ ok 0
  unfolding hide_visible
  hide_visible_ok v f s = elim (Bool-cases (is_none (resolve h f s v).kind)) [
    | inl missing ↦ rw missing refl
    | inr found ↦ rw found refl
  ]

  unlink_run :
      (v : Str) (f : F) (s : VfsState)
      → s.read_only ≡ false
      → is_empty s.writelayer ≡ false
      → passthrough_host s v ≡ none
      → unlink_vfs h rounds v f s
        ≡ (if fails_hard (h.unlink f (wl_path s v)).0
              then give (h.unlink f (wl_path s v)).0
              else hide_visible h rounds v)
            (h.unlink f (wl_path s v)).1
            s
  unfolding unlink_vfs
  unlink_run v f s rw_mount wl own =
      skip_if _ _ rw_mount
      ∙ (rw own refl
          ∙ bind_ok (unlink_own h rounds v)
              (λ r. if fails_hard r then give r else hide_visible h rounds v) (skip_if _ _ wl))

  -- Outside kept folders, on a writable mount with a writelayer, `VfsUnlink` of a path other than the
  -- root either returns the error of the host's unlink, when that is not ENOENT, and leaves the state as
  -- it was, or it returns 0, and the path then resolves to nothing.
  pub unlink_vfs-Gone :
      (v : Str) (f : F) (s : VfsState)
      → s.read_only ≡ false
      → is_empty s.writelayer ≡ false
      → passthrough_host s v ≡ none
      → 0 < length v
      → ((fails_hard (h.unlink f (wl_path s v)).0 ≡ true)
          × (unlink_vfs h rounds v f s
              ≡ ((h.unlink f (wl_path s v)).0, (h.unlink f (wl_path s v)).1, s)))
        ⊎ ((fails_hard (h.unlink f (wl_path s v)).0 ≡ false)
            × ((unlink_vfs h rounds v f s).0 ≡ ok 0)
            × Gone v (unlink_vfs h rounds v f s))
  unfolding give
  unlink_vfs-Gone v f s rw_mount wl own deep =
      elim (Bool-cases (fails_hard (h.unlink f (wl_path s v)).0)) [
        | inl hard ↦ inl (hard, unlink_run v f s rw_mount wl own ∙ rw hard refl)
        | inr soft ↦
            let run : unlink_vfs h rounds v f s
                ≡ hide_visible h rounds v (h.unlink f (wl_path s v)).1 s =
              unlink_run v f s rw_mount wl own ∙ rw soft refl in
            inr (soft, rw run (hide_visible_ok v _ s), rw run (hide_visible-Gone v _ s wl deep))
      ]

  rmdir_run :
      (v : Str) (f : F) (s : VfsState)
      → s.read_only ≡ false
      → is_empty s.writelayer ≡ false
      → passthrough_host s v ≡ none
      → collect_children h f s v ≡ []
      → rmdir_vfs h rounds v f s
        ≡ hide_visible h rounds v
            (h.rmdir (sweep_markers h rounds v (h.read_dir f (wl_path s v)) f s).0 (wl_path s v)).1
            (sweep_markers h rounds v (h.read_dir f (wl_path s v)) f s).1
  unfolding rmdir_vfs rmdir_own
  rmdir_run v f s rw_mount wl own nothing = skip_if _ _ rw_mount ∙ rw (nothing, own, wl) refl

  -- Outside kept folders, on a writable mount with a writelayer, `VfsRmdir` of a folder other than the
  -- root that shows nothing returns 0, and the path then resolves to nothing, whatever the host's rmdir
  -- returned.
  pub rmdir_vfs-Gone :
      (v : Str) (f : F) (s : VfsState)
      → s.read_only ≡ false
      → is_empty s.writelayer ≡ false
      → passthrough_host s v ≡ none
      → 0 < length v
      → collect_children h f s v ≡ []
      → ((rmdir_vfs h rounds v f s).0 ≡ ok 0) × Gone v (rmdir_vfs h rounds v f s)
  rmdir_vfs-Gone v f s rw_mount wl own deep nothing =
      let run = rmdir_run v f s rw_mount wl own nothing in
      let swept = sweep_markers-Config h rounds v (h.read_dir f (wl_path s v)) f s in
      (
        rw run (hide_visible_ok v _ _),
        rw run (hide_visible-Gone v _ _ (ap is_empty swept.writelayer_eq ∙ wl) deep),
      )
