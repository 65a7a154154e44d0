-- ===== src/Vfs/Folders.antt =====
-- `VfsMkdir`, `VfsUnlink`, `VfsRmdir` and `VfsSymlink` of src/vfsops.cpp, and `KeptDropMarkersUnder` of
-- src/overlay.cpp. The names that `ReadDir` gives are taken before the first of them is removed.
use vidya_god_fs.Prelude.{
  ℕ, suc, Bool, true, false, not, ◌&&◌, List, [], ◌∷◌, ◌++◌, none, some, Result, ok, err, stuck,
  enoent, einval, erofs, enotempty, length, drop, is_empty, ◌==◌, if◌then◌else◌,
}
use vidya_god_fs.Prelude.Text.{Str, str_eq, slash, starts_with}
use vidya_god_fs.Paths.{find_last_slash}
use vidya_god_fs.Overlay.Types.{VfsState, HostIo}
use vidya_god_fs.Overlay.Layers.{wl_path, source_rel, opaque_name}
use vidya_god_fs.Overlay.Masks.{
  erase, is_whiteouted, create_whiteout, remove_whiteout, mark_opaque, unmark_opaque,
}
use vidya_god_fs.Overlay.Kept.{
  kept_layer_for, kept_host, passthrough_host, kept_hidden, change_kept, hide_lower, unhide_lower,
  kept_mark_opaque,
}
use vidya_god_fs.Overlay.Resolve.{resolve}
use vidya_god_fs.Overlay.Action.{
  Action, pure, fail, query, host_call, host_do, change, attempt, give, ◌>>=◌, ◌>>◌,
}
use vidya_god_fs.Overlay.CopyUp.{ensure_write_parent}
use vidya_god_fs.Vfs.Types.{is_none, marker_name, child_path, ensure_host_parent}
use vidya_god_fs.Vfs.Children.{is_marker, collect_children}

-- `L && SourceRel(*L, v).empty()`: `v` is the kept folder's own root.
abbrev pub is_kept_root : VfsState → Str → Bool
is_kept_root s v = elim (kept_layer_for s v) [
  | none ↦ false
  | some (i, l) ↦ is_empty (source_rel l v)
]

-- A result other than success, and other than ENOENT.
abbrev pub fails_hard : Result ℕ → Bool
fails_hard r = elim r [ ok n ↦ false | err e ↦ not (e == enoent) | stuck ↦ true ]

-- What `under` tests: `x` lies directly in the folder `rel`.
unfoldable pub directly_under : Str → Str → Bool
directly_under [] x =
    not (is_empty x) && (elim (find_last_slash x) [ none ↦ true | some i ↦ false ])
directly_under (c ∷ rel) x =
    starts_with x (c ∷ rel ++ (slash ∷ []))
    && (elim (find_last_slash (drop (suc (length (c ∷ rel))) x)) [ none ↦ true | some i ↦ false ])

unfoldable pub erase_under : Str → List Str → List Str
erase_under rel [] = []
erase_under rel (x ∷ m) =
    let rest = erase_under rel m in if directly_under rel x then rest else x ∷ rest

module _ {F : Type 0} (h : HostIo F) (rounds : ℕ) where
  -- The markers among the names go from the disk.
  unfoldable pub unlink_markers : Str → List Str → F → F
  unlink_markers folder [] f = f
  unlink_markers folder (n ∷ ns) f =
      unlink_markers folder ns (if is_marker n then (h.unlink f (folder ++ (slash ∷ n))).1 else f)

  unfoldable pub kept_drop_markers_under : Str → F → VfsState → F × VfsState
  kept_drop_markers_under v f s = elim (kept_layer_for s v) [
    | none ↦ (f, s)
    | some (i, l) ↦
        let rel = source_rel l v in
        (
          unlink_markers (kept_host l rel) (h.read_dir f (kept_host l rel)) f,
          change_kept s i
              (λ k. record k { deleted = erase_under rel k.deleted; opaque = erase rel k.opaque }),
        )
  ]

  unfoldable pub mkdir_kept : Str → Str → ℕ → Action F ℕ
  mkdir_kept v path mode =
      if marker_name v
      then fail einval
      else (query (λ f s. is_kept_root s v && is_whiteouted s v) >>= λ shown_again.
          if shown_again then change (λ f s. remove_whiteout h f s v) else do
            over_deleted ← query (λ f s. kept_hidden s v)
            parent ← host_do (λ f. ensure_host_parent h f path)
            made ← host_call (λ f. h.mkdir f path mode)
            marked ← attempt (if over_deleted then (λ f s. kept_mark_opaque h f s v) else pure 0)
            elim marked [
              | ok n ↦ attempt (λ f s. unhide_lower h f s v) >> pure 0
              | err e ↦ host_do (λ f. (h.rmdir f path).1) >> fail e
              | stuck ↦ give stuck
            ])

  unfoldable pub mkdir_own : Str → ℕ → Action F ℕ
  mkdir_own v mode = do
    over_lower ← query (λ f s. is_whiteouted s v)
    shown ← change (λ f s. remove_whiteout h f s v)
    parent ← ensure_write_parent h rounds v
    path ← query (λ f s. wl_path s v)
    made ← host_call (λ f. h.mkdir f path mode)
    if over_lower then change (λ f s. mark_opaque h f s v) else pure 0

  unfoldable pub mkdir_vfs : Str → ℕ → Action F ℕ
  mkdir_vfs v mode f s =
      if s.read_only
      then (err erofs, f, s)
      else (elim (passthrough_host s v) as (λ x. Action F ℕ) [
        | some path ↦ mkdir_kept v path mode
        | none ↦ mkdir_own v mode
      ])
          f s

  -- What is still visible below is hidden by a whiteout of the writelayer.
  unfoldable pub hide_visible : Str → Action F ℕ
  hide_visible v f s =
      if is_none (resolve h f s v).kind
      then (ok 0, f, s)
      else (let (f1, s1) = create_whiteout h f s v in (ok 0, f1, s1))

  -- The same by a marker of the kept folder; else what the removal returned.
  unfoldable pub hide_kept : Str → Result ℕ → Action F ℕ
  hide_kept v removed f s =
      if is_none (resolve h f s v).kind then (removed, f, s) else hide_lower h f s v

  unfoldable pub remove_kept : Str → (F → Result ℕ × F) → Action F ℕ
  remove_kept v remove = do
    removed ← attempt (host_call remove)
    if fails_hard removed then give removed else hide_kept v removed

  abbrev pub unlink_own : Str → Action F (Result ℕ)
  unlink_own v f s =
      if is_empty s.writelayer
      then (ok (ok 0), f, s)
      else (let (r, f1) = h.unlink f (wl_path s v) in (ok r, f1, s))

  unfoldable pub unlink_vfs : Str → Action F ℕ
  unlink_vfs v f s =
      if s.read_only
      then (err erofs, f, s)
      else (elim (passthrough_host s v) as (λ x. Action F ℕ) [
        | some path ↦ remove_kept v (λ f. h.unlink f path)
        | none ↦
            unlink_own v >>= λ removed. if fails_hard removed then give removed else hide_visible v
      ])
          f s

  -- The markers in the writelayer's folder go, from the disk and from the masks.
  unfoldable pub sweep_markers : Str → List Str → F → VfsState → F × VfsState
  sweep_markers v [] f s = (f, s)
  sweep_markers v (n ∷ ns) f s =
      let (f1, s1) =
        if not (is_marker n)
        then (f, s)
        else if str_eq n opaque_name
        then ((h.unlink f (wl_path s v ++ (slash ∷ n))).1, unmark_opaque s v)
        else remove_whiteout h f s (child_path v (drop 4 n)) in
      sweep_markers v ns f1 s1

  unfoldable pub rmdir_own : Str → Action F ℕ
  rmdir_own v f s =
      if is_empty s.writelayer
      then hide_visible v f s
      else (let (f1, s1) = sweep_markers v (h.read_dir f (wl_path s v)) f s in
          hide_visible v (h.rmdir f1 (wl_path s v)).1 s1)

  unfoldable pub rmdir_kept : Str → Str → Action F ℕ
  rmdir_kept v path = do
    dropped ← change (λ f s. kept_drop_markers_under v f s)
    root ← query (λ f s. is_kept_root s v)
    if root
        then ((λ f s. kept_mark_opaque h f s v) >> change (λ f s. create_whiteout h f s v))
        else remove_kept v (λ f. h.rmdir f path)

  unfoldable pub rmdir_vfs : Str → Action F ℕ
  rmdir_vfs v f s =
      if s.read_only
      then (err erofs, f, s)
      else if not (is_empty (collect_children h f s v))
      then (err enotempty, f, s)
      else (elim (passthrough_host s v) as (λ x. Action F ℕ) [
        | some path ↦ rmdir_kept v path
        | none ↦ rmdir_own v
      ])
          f s

  unfoldable pub symlink_kept : Str → Str → Str → Action F ℕ
  symlink_kept target v path = if marker_name v then fail einval else do
    parent ← host_do (λ f. ensure_host_parent h f path)
    made ← host_call (λ f. h.symlink f target path)
    attempt (λ f s. unhide_lower h f s v) >> pure 0

  unfoldable pub symlink_own : Str → Str → Action F ℕ
  symlink_own target v = do
    shown ← change (λ f s. remove_whiteout h f s v)
    parent ← ensure_write_parent h rounds v
    path ← query (λ f s. wl_path s v)
    host_call (λ f. h.symlink f target path)

  unfoldable pub symlink_vfs : Str → Str → Action F ℕ
  symlink_vfs target v f s =
      if s.read_only
      then (err erofs, f, s)
      else (elim (passthrough_host s v) as (λ x. Action F ℕ) [
        | some path ↦ symlink_kept target v path
        | none ↦ symlink_own target v
      ])
          f s
