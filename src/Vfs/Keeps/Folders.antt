-- ===== src/Vfs/Keeps/Folders.antt =====
-- The folder operations of src/vfsops.cpp (Vfs/Folders.antt) and the configuration.
use vidya_god_fs.Prelude.{
  ℕ, Bool, true, false, not, List, [], ◌∷◌, Option, none, some, Result, ok, err, stuck,
  if◌then◌else◌, is_empty,
}
use vidya_god_fs.Prelude.Text.{Str, str_eq}
use vidya_god_fs.Overlay.Types.{Layer, VfsState, HostIo}
use vidya_god_fs.Overlay.Layers.{opaque_name, wl_path}
use vidya_god_fs.Overlay.Kept.{kept_layer_for, passthrough_host}
use vidya_god_fs.Overlay.Resolve.{resolve}
use vidya_god_fs.Overlay.Action.{Action, give}
use vidya_god_fs.Overlay.Config.{
  Config, Config-refl, Config-trans, After-if, After-still, Keeps, keeps, Keeps-bind, Keeps-then,
  Keeps-if, Keeps-option, Keeps-host_call, Keeps-query, Keeps-pure, Keeps-fail, Keeps-change,
  Keeps-attempt, Keeps-host_do, Keeps-give,
}
use vidya_god_fs.Overlay.Config.Kept.{
  remove_whiteout-Config, create_whiteout-Config, mark_opaque-Config, change_kept-Config,
  unmark_opaque-Config,
}
use vidya_god_fs.Vfs.Types.{is_none, marker_name}
use vidya_god_fs.Vfs.Children.{collect_children, is_marker}
use vidya_god_fs.Vfs.Folders.{
  fails_hard, kept_drop_markers_under, mkdir_kept, mkdir_own, mkdir_vfs, hide_visible, hide_kept,
  remove_kept, unlink_own, unlink_vfs, sweep_markers, rmdir_own, rmdir_kept, rmdir_vfs,
  symlink_kept, symlink_own, symlink_vfs,
}
use vidya_god_fs.Vfs.Keeps.Files.{
  hide_lower-Keeps, unhide_lower-Keeps, kept_mark_opaque-Keeps, ensure_write_parent-Keeps,
  shows-Keeps,
}

module _ {F : Type 0} (h : HostIo F) (rounds : ℕ) where
  by_mark :
      (marked : Result ℕ) (e : ℕ → Action F ℕ) (n : Action F ℕ)
      → Keeps n
      → ((c : ℕ) → Keeps (e c))
      → Keeps (elim marked as (λ x. Action F ℕ) [ ok a ↦ n | err c ↦ e c | stuck ↦ give stuck ])
  by_mark (ok a) e n p q = p
  by_mark (err c) e n p q = q c
  by_mark stuck e n p q = Keeps-give stuck

  mkdir_kept-Keeps : (v path : Str) (mode : ℕ) → Keeps (mkdir_kept h rounds v path mode)
  unfolding mkdir_kept
  mkdir_kept-Keeps v path mode = Keeps-if (marker_name v) _ _ (Keeps-fail _) (
      Keeps-bind _ _ (Keeps-query _) (λ again. Keeps-if again _ _ (shows-Keeps h rounds v) (
        Keeps-bind _ _ (Keeps-query _) (λ over. Keeps-bind _ _ (Keeps-host_do _) (λ b.
          Keeps-bind _ _ (Keeps-host_call _) (λ c.
            Keeps-bind _ _
              (Keeps-attempt _
                (Keeps-if over _ _ (kept_mark_opaque-Keeps h rounds v) (Keeps-pure 0)))
              (λ marked.
                by_mark marked _ _ (search (keeps, unhide_lower-Keeps h rounds))
                  (λ c. search keeps))))))))

  mkdir_own-Keeps : (v : Str) (mode : ℕ) → Keeps (mkdir_own h rounds v mode)
  unfolding mkdir_own
  mkdir_own-Keeps v mode = Keeps-bind _ _ (Keeps-query _) (λ over.
      Keeps-bind _ _ (shows-Keeps h rounds v) (λ b.
        Keeps-bind _ _ (ensure_write_parent-Keeps h rounds v) (λ c.
          Keeps-bind _ _ (Keeps-query _) (λ path. Keeps-bind _ _ (Keeps-host_call _) (λ d.
            Keeps-if over _ _ (Keeps-change _ (λ f s. mark_opaque-Config h f s v))
              (Keeps-pure 0))))))

  pub mkdir_vfs-Keeps : (v : Str) (mode : ℕ) → Keeps (mkdir_vfs h rounds v mode)
  unfolding mkdir_vfs
  mkdir_vfs-Keeps v mode = record {
    keeps = λ f s. After-if s.read_only (After-still _ f) (
        (Keeps-option (passthrough_host s v) _ _ (mkdir_own-Keeps v mode)
            (λ path. mkdir_kept-Keeps v path mode)).keeps
          f s);
  }

  hide_visible-Keeps : (v : Str) → Keeps (hide_visible h rounds v)
  unfolding hide_visible
  hide_visible-Keeps v = record {
    keeps = λ f s.
        After-if (is_none (resolve h f s v).kind) (After-still _ f)
          (record { config = create_whiteout-Config h f s v });
  }

  hide_kept-Keeps : (v : Str) (removed : Result ℕ) → Keeps (hide_kept h rounds v removed)
  unfolding hide_kept
  hide_kept-Keeps v removed = record {
    keeps = λ f s.
        After-if (is_none (resolve h f s v).kind) (After-still _ f)
          ((hide_lower-Keeps h rounds v).keeps f s);
  }

  remove_kept-Keeps : (v : Str) (remove : F → Result ℕ × F) → Keeps (remove_kept h rounds v remove)
  unfolding remove_kept
  remove_kept-Keeps v remove = Keeps-bind _ _ (Keeps-attempt _ (Keeps-host_call remove)) (λ removed.
      Keeps-if (fails_hard removed) _ _ (Keeps-give removed) (hide_kept-Keeps v removed))

  unlink_own-Keeps : (v : Str) → Keeps (unlink_own h rounds v)
  unlink_own-Keeps v = record {
    keeps = λ f s. After-if (is_empty s.writelayer) (After-still _ f) (After-still _ _);
  }

  pub unlink_vfs-Keeps : (v : Str) → Keeps (unlink_vfs h rounds v)
  unfolding unlink_vfs
  unlink_vfs-Keeps v = record {
    keeps = λ f s. After-if s.read_only (After-still _ f) (
        (Keeps-option (passthrough_host s v) _ _
            (Keeps-bind _ _ (unlink_own-Keeps v) (λ removed.
              Keeps-if (fails_hard removed) _ _ (Keeps-give removed) (hide_visible-Keeps v)))
            (λ path. remove_kept-Keeps v _)).keeps
          f s);
  }

  pair_if :
      (s : VfsState) (b : Bool) (x y : F × VfsState)
      → Config s x.1
      → Config s y.1
      → Config s (if b then x else y).1
  pair_if s true x y p q = p
  pair_if s false x y p q = q

  pub sweep_markers-Config :
      (v : Str) (ns : List Str) (f : F) (s : VfsState)
      → Config s (sweep_markers h rounds v ns f s).1
  unfolding sweep_markers
  sweep_markers-Config v [] f s = Config-refl s
  sweep_markers-Config v (n ∷ ns) f s =
      Config-trans
        (pair_if s (not (is_marker n)) _ _ (Config-refl s) (
          pair_if s (str_eq n opaque_name) _ _ (unmark_opaque-Config s v)
            (remove_whiteout-Config h f s _)))
        (sweep_markers-Config v ns _ _)

  rmdir_own-Keeps : (v : Str) → Keeps (rmdir_own h rounds v)
  unfolding rmdir_own
  rmdir_own-Keeps v = record {
    keeps = λ f s. After-if (is_empty s.writelayer) ((hide_visible-Keeps v).keeps f s) (record {
      config =
          Config-trans (sweep_markers-Config v (h.read_dir f (wl_path s v)) f s)
            ((hide_visible-Keeps v).keeps _ _).config;
    });
  }

  found_state :
      (s : VfsState) (o : Option (ℕ × Layer)) (f : F) (g : ℕ × Layer → F × VfsState)
      → ((x : ℕ × Layer) → Config s (g x).1)
      → Config s (elim o as (λ y. F × VfsState) [ none ↦ (f, s) | some x ↦ g x ]).1
  found_state s none f g q = Config-refl s
  found_state s (some x) f g q = q x

  kept_drop_markers_under-Config :
      (v : Str) (f : F) (s : VfsState) → Config s (kept_drop_markers_under h rounds v f s).1
  unfolding kept_drop_markers_under
  kept_drop_markers_under-Config v f s =
      found_state s (kept_layer_for s v) f _ (λ x. change_kept-Config s x.0 _)

  rmdir_kept-Keeps : (v path : Str) → Keeps (rmdir_kept h rounds v path)
  unfolding rmdir_kept
  rmdir_kept-Keeps v path =
      Keeps-bind _ _ (Keeps-change _ (λ f s. kept_drop_markers_under-Config v f s)) (λ a.
        Keeps-bind _ _ (Keeps-query _) (λ root.
          Keeps-if root _ _
            (Keeps-then _ _ (kept_mark_opaque-Keeps h rounds v)
              (Keeps-change _ (λ f s. create_whiteout-Config h f s v)))
            (remove_kept-Keeps v _)))

  pub rmdir_vfs-Keeps : (v : Str) → Keeps (rmdir_vfs h rounds v)
  unfolding rmdir_vfs
  rmdir_vfs-Keeps v = record {
    keeps = λ f s. After-if s.read_only (After-still _ f) (
        After-if (not (is_empty (collect_children h f s v))) (After-still _ f) (
          (Keeps-option (passthrough_host s v) _ _ (rmdir_own-Keeps v)
              (λ path. rmdir_kept-Keeps v path)).keeps
            f s));
  }

  symlink_kept-Keeps : (target v path : Str) → Keeps (symlink_kept h rounds target v path)
  unfolding symlink_kept
  symlink_kept-Keeps target v path =
      Keeps-if (marker_name v) _ _ (Keeps-fail _) (search (keeps, unhide_lower-Keeps h rounds))

  symlink_own-Keeps : (target v : Str) → Keeps (symlink_own h rounds target v)
  unfolding symlink_own
  symlink_own-Keeps target v =
      search (keeps, shows-Keeps h rounds, ensure_write_parent-Keeps h rounds)

  pub symlink_vfs-Keeps : (target v : Str) → Keeps (symlink_vfs h rounds target v)
  unfolding symlink_vfs
  symlink_vfs-Keeps target v = record {
    keeps = λ f s. After-if s.read_only (After-still _ f) (
        (Keeps-option (passthrough_host s v) _ _ (symlink_own-Keeps target v)
            (λ path. symlink_kept-Keeps target v path)).keeps
          f s);
  }
