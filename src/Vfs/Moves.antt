-- ===== src/Vfs/Moves.antt =====
-- `DeepCopyUp`, `VfsRename` and `VfsLink` of src/vfsops.cpp. `depth` bounds how deep the copied tree is.
use vidya_god_fs.Prelude.{
  ℕ, zero, suc, Bool, true, false, not, ◌&&◌, List, [], ◌∷◌, ◌++◌, none, some, ok, err, stuck,
  enoent, einval, eexist, eperm, erofs, if◌then◌else◌,
}
use vidya_god_fs.Prelude.Text.{Str, slash}
use vidya_god_fs.Overlay.Types.{VfsState, ResolveResult, HostIo}
use vidya_god_fs.Overlay.Layers.{wl_path}
use vidya_god_fs.Overlay.Masks.{remove_whiteout, rename_mask_prefix}
use vidya_god_fs.Overlay.Kept.{
  passthrough_host, kept_hidden, hide_lower, unhide_lower, kept_mark_opaque, kept_rename_prefix,
}
use vidya_god_fs.Overlay.Resolve.{resolve}
use vidya_god_fs.Overlay.Action.{
  Action, pure, fail, query, host_call, host_do, change, attempt, ◌>>=◌, ◌>>◌,
}
use vidya_god_fs.Overlay.CopyUp.{copy_up, ensure_write_parent, shows_dir}
use vidya_god_fs.Vfs.Types.{is_none, marker_name, ensure_host_parent, hit_is_dir}
use vidya_god_fs.Vfs.Children.{collect_children}
use vidya_god_fs.Vfs.Files.{make_writable, write_target}

module _ {F : Type 0} (h : HostIo F) (rounds : ℕ) where
  -- `for (c : children) if (int e = step(c)) return e;`.
  unfoldable pub for_each : (Str → Action F ℕ) → List Str → Action F ℕ
  for_each step [] = pure 0
  for_each step (c ∷ cs) = step c >> for_each step cs

  unfoldable pub deep_copy_up : ℕ → Str → Action F ℕ
  deep_copy_up zero v f s = (stuck, f, s)
  deep_copy_up (suc depth) v f s =
      let rr = resolve h f s v in
      let children : Action F ℕ =
        query (λ f s. if hit_is_dir h f rr then collect_children h f s v else []) >>= λ names.
        for_each (λ c. deep_copy_up depth (v ++ (slash ∷ c))) names in
      if is_none rr.kind then (err enoent, f, s) else (copy_up h rounds v rr >> children) f s

  -- What is moved becomes writable: a folder with all that it shows.
  unfoldable pub bring_up : ℕ → Str → ResolveResult → Bool → Action F ℕ
  bring_up depth v rr is_dir = if is_dir then deep_copy_up depth v else make_writable h rounds v rr

  -- The parent of the target; the target's path on the host.
  unfoldable pub rename_parent : Str → Action F Str
  rename_parent vt f s =
      (elim (passthrough_host s vt) as (λ x. Action F Str) [
        | some path ↦
            if marker_name vt
            then fail einval
            else (host_do (λ f. ensure_host_parent h f path) >> pure path)
        | none ↦ do
          made ← ensure_write_parent h rounds vt
          shown ← change (λ f s. remove_whiteout h f s vt)
          query (λ f s. wl_path s vt)
      ])
        f s

  abbrev is_kept : VfsState → Str → Bool
  is_kept s v = elim (passthrough_host s v) [ none ↦ false | some path ↦ true ]

  -- A folder takes along the marks inside it; a folder moved onto a deleted one hides what that had.
  unfoldable pub rename_kept_marks : Str → Str → Bool → Bool → Bool → Action F ℕ
  rename_kept_marks vf vt is_dir dst_kept over_deleted = do
    moved ← change (λ f s. (f, if is_dir then kept_rename_prefix s vf vt else s))
    marked ←
        (if dst_kept && (is_dir && over_deleted)
          then (λ f s. kept_mark_opaque h f s vt)
          else pure 0)
    if dst_kept then (attempt (λ f s. unhide_lower h f s vt) >> pure 0) else pure 0

  -- The old name is hidden when something below still shows there.
  unfoldable pub hide_old : Str → Action F ℕ
  hide_old vf f s = if is_none (resolve h f s vf).kind then (ok 0, f, s) else hide_lower h f s vf

  unfoldable pub rename_found : ℕ → Str → Str → ResolveResult → Bool → Action F ℕ
  rename_found depth vf vt rr is_dir = do
    up ← bring_up depth vf rr is_dir
    src ← query (λ f s. write_target vf rr s)
    dst_kept ← query (λ f s. is_kept s vt)
    over_deleted ← query (λ f s. dst_kept && kept_hidden s vt)
    dst ← rename_parent vt
    renamed ← host_call (λ f. h.rename f src dst)
    marks ← rename_kept_marks vf vt is_dir dst_kept over_deleted
    masks ← change (λ f s. (f, if is_dir then rename_mask_prefix s vf vt else s))
    hide_old vf

  unfoldable pub rename_vfs : ℕ → Str → Str → Action F ℕ
  rename_vfs depth vf vt f s =
      let rr = resolve h f s vf in
      if s.read_only
      then (err erofs, f, s)
      else if is_none rr.kind
      then (err enoent, f, s)
      else rename_found depth vf vt rr (hit_is_dir h f rr) f s

  unfoldable pub link_parent : Str → Action F Str
  link_parent vt f s =
      (elim (passthrough_host s vt) as (λ x. Action F Str) [
        | some path ↦
            if marker_name vt
            then fail einval
            else (host_do (λ f. ensure_host_parent h f path) >> pure path)
        | none ↦ ensure_write_parent h rounds vt >> query (λ f s. wl_path s vt)
      ])
        f s

  unfoldable pub link_found : Str → Str → ResolveResult → Action F ℕ
  link_found vf vt rr = do
    up ← make_writable h rounds vf rr
    src ← query (λ f s. write_target vf rr s)
    dst ← link_parent vt
    linked ← host_call (λ f. h.link f src dst)
    attempt (λ f s. unhide_lower h f s vt) >> pure 0

  unfoldable pub link_vfs : Str → Str → Action F ℕ
  link_vfs vf vt f s =
      let rr = resolve h f s vf in
      if s.read_only
      then (err erofs, f, s)
      else if is_none rr.kind
      then (err enoent, f, s)
      else if shows_dir rr
      then (err eperm, f, s)
      else if not (is_none (resolve h f s vt).kind)
      then (err eexist, f, s)
      else link_found vf vt rr f s
