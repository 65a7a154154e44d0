-- ===== src/Vfs/Keeps/Moves.antt =====
-- The moves of src/vfsops.cpp (Vfs/Moves.antt) and the configuration.
use vidya_god_fs.Prelude.{
  ℕ, zero, suc, Bool, true, false, not, ◌&&◌, List, [], ◌∷◌, ◌++◌, if◌then◌else◌,
}
use vidya_god_fs.Prelude.Text.{Str, slash}
use vidya_god_fs.Overlay.Types.{VfsState, ResolveResult, HostIo}
use vidya_god_fs.Overlay.Masks.{rename_mask_prefix}
use vidya_god_fs.Overlay.Kept.{passthrough_host, kept_rename_prefix}
use vidya_god_fs.Overlay.Resolve.{resolve}
use vidya_god_fs.Overlay.CopyUp.{shows_dir}
use vidya_god_fs.Overlay.Action.{Action}
use vidya_god_fs.Overlay.Config.{
  Config, Config-refl, After-if, After-still, Keeps, keeps, Keeps-bind, Keeps-then, Keeps-if,
  Keeps-option, Keeps-host_call, Keeps-query, Keeps-pure, Keeps-fail, Keeps-change,
}
use vidya_god_fs.Overlay.Config.Kept.{rename_mask_prefix-Config, kept_rename_prefix-Config}
use vidya_god_fs.Vfs.Types.{is_none, marker_name, hit_is_dir}
use vidya_god_fs.Vfs.Keeps.Files.{
  copy_up-Keeps, make_writable-Keeps, hide_lower-Keeps, unhide_lower-Keeps, kept_mark_opaque-Keeps,
  ensure_write_parent-Keeps, shows-Keeps,
}
use vidya_god_fs.Vfs.Moves.{
  for_each, deep_copy_up, bring_up, rename_parent, rename_kept_marks, hide_old, rename_found,
  rename_vfs, link_parent, link_found, link_vfs,
}

module _ {F : Type 0} (h : HostIo F) (rounds : ℕ) where
  for_each-Keeps :
      (step : Str → Action F ℕ) (cs : List Str)
      → ((c : Str) → Keeps (step c))
      → Keeps (for_each h rounds step cs)
  unfolding for_each
  for_each-Keeps step [] p = Keeps-pure 0
  for_each-Keeps step (c ∷ cs) p = Keeps-then _ _ (p c) (for_each-Keeps step cs p)

  deep_copy_up-Keeps : (depth : ℕ) (v : Str) → Keeps (deep_copy_up h rounds depth v)
  unfolding deep_copy_up
  deep_copy_up-Keeps zero v = record { keeps = λ f s. After-still _ f }
  deep_copy_up-Keeps (suc depth) v = record {
    keeps = λ f s. After-if (is_none (resolve h f s v).kind) (After-still _ f) (
        (Keeps-then _ _ (copy_up-Keeps h rounds v (resolve h f s v)) (
            Keeps-bind _ _ (Keeps-query _) (λ names.
              for_each-Keeps _ names (λ c. deep_copy_up-Keeps depth (v ++ (slash ∷ c)))))).keeps
          f s);
  }

  bring_up-Keeps :
      (depth : ℕ) (v : Str) (rr : ResolveResult) (is_dir : Bool)
      → Keeps (bring_up h rounds depth v rr is_dir)
  unfolding bring_up
  bring_up-Keeps depth v rr is_dir =
      Keeps-if is_dir _ _ (deep_copy_up-Keeps depth v) (make_writable-Keeps h rounds v rr)

  rename_parent-Keeps : (vt : Str) → Keeps (rename_parent h rounds vt)
  unfolding rename_parent
  rename_parent-Keeps vt = record {
    keeps = λ f s.
        (Keeps-option (passthrough_host s vt) _ _
            (search (keeps, ensure_write_parent-Keeps h rounds, shows-Keeps h rounds))
            (λ path. Keeps-if (marker_name vt) _ _ (Keeps-fail _) (search keeps))).keeps
          f s;
  }

  rename_kept_marks-Keeps :
      (vf vt : Str) (is_dir dst_kept over : Bool)
      → Keeps (rename_kept_marks h rounds vf vt is_dir dst_kept over)
  unfolding rename_kept_marks
  rename_kept_marks-Keeps vf vt is_dir dst_kept over =
      Keeps-bind _ _ (Keeps-change _ (moved is_dir)) (λ a.
        Keeps-bind _ _
          (Keeps-if (dst_kept && (is_dir && over)) _ _ (kept_mark_opaque-Keeps h rounds vt)
            (Keeps-pure 0))
          (λ b. Keeps-if dst_kept _ _ (search (keeps, unhide_lower-Keeps h rounds)) (Keeps-pure 0)))
    where
      moved :
          (b : Bool) (f : F) (s : VfsState) → Config s (if b then kept_rename_prefix s vf vt else s)
      moved true f s = kept_rename_prefix-Config s vf vt
      moved false f s = Config-refl s

  hide_old-Keeps : (vf : Str) → Keeps (hide_old h rounds vf)
  unfolding hide_old
  hide_old-Keeps vf = record {
    keeps = λ f s.
        After-if (is_none (resolve h f s vf).kind) (After-still _ f)
          ((hide_lower-Keeps h rounds vf).keeps f s);
  }

  rename_found-Keeps :
      (depth : ℕ) (vf vt : Str) (rr : ResolveResult) (is_dir : Bool)
      → Keeps (rename_found h rounds depth vf vt rr is_dir)
  unfolding rename_found
  rename_found-Keeps depth vf vt rr is_dir =
      Keeps-bind _ _ (bring_up-Keeps depth vf rr is_dir) (λ a.
        Keeps-bind _ _ (Keeps-query _) (λ src. Keeps-bind _ _ (Keeps-query _) (λ dst_kept.
          Keeps-bind _ _ (Keeps-query _) (λ over. Keeps-bind _ _ (rename_parent-Keeps vt) (λ dst.
            Keeps-bind _ _ (Keeps-host_call _) (λ b.
              Keeps-bind _ _ (rename_kept_marks-Keeps vf vt is_dir dst_kept over)
                (λ c. Keeps-bind _ _ (Keeps-change _ (moved is_dir)) (λ d. hide_old-Keeps vf))))))))
    where
      moved :
          (b : Bool) (f : F) (s : VfsState) → Config s (if b then rename_mask_prefix s vf vt else s)
      moved true f s = rename_mask_prefix-Config s vf vt
      moved false f s = Config-refl s

  pub rename_vfs-Keeps : (depth : ℕ) (vf vt : Str) → Keeps (rename_vfs h rounds depth vf vt)
  unfolding rename_vfs
  rename_vfs-Keeps depth vf vt = record {
    keeps = λ f s. After-if s.read_only (After-still _ f) (
        After-if (is_none (resolve h f s vf).kind) (After-still _ f) (
          (rename_found-Keeps depth vf vt (resolve h f s vf)
              (hit_is_dir h f (resolve h f s vf))).keeps
            f s));
  }

  link_parent-Keeps : (vt : Str) → Keeps (link_parent h rounds vt)
  unfolding link_parent
  link_parent-Keeps vt = record {
    keeps = λ f s.
        (Keeps-option (passthrough_host s vt) _ _
            (search (keeps, ensure_write_parent-Keeps h rounds))
            (λ path. Keeps-if (marker_name vt) _ _ (Keeps-fail _) (search keeps))).keeps
          f s;
  }

  link_found-Keeps : (vf vt : Str) (rr : ResolveResult) → Keeps (link_found h rounds vf vt rr)
  unfolding link_found
  link_found-Keeps vf vt rr =
      search (keeps, make_writable-Keeps h rounds, link_parent-Keeps, unhide_lower-Keeps h rounds)
        depth 12

  pub link_vfs-Keeps : (vf vt : Str) → Keeps (link_vfs h rounds vf vt)
  unfolding link_vfs
  link_vfs-Keeps vf vt = record {
    keeps = λ f s. After-if s.read_only (After-still _ f) (
        After-if (is_none (resolve h f s vf).kind) (After-still _ f) (
          After-if (shows_dir (resolve h f s vf)) (After-still _ f) (
            After-if (not (is_none (resolve h f s vt).kind)) (After-still _ f)
              ((link_found-Keeps vf vt (resolve h f s vf)).keeps f s))));
  }
