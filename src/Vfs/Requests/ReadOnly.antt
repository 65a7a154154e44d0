-- ===== src/Vfs/Requests/ReadOnly.antt =====
-- A read-only mount: what the operations of src/vfsops.cpp answer, and what stays.
use vidya_god_fs.Prelude.{
  ℕ, ◌≡◌, refl, ap, ◌∙◌, true, false, List, [], ◌∷◌, Option, none, some, Result, ok, err, stuck,
  Bool-cases, inl, inr,
}
use vidya_god_fs.Prelude.Text.{Str}
use vidya_god_fs.Overlay.Types.{VfsState, OpenFlags, ResolveResult, HostIo}
use vidya_god_fs.Overlay.Resolve.{resolve}
use vidya_god_fs.Zip.{ZipEntry}
use vidya_god_fs.Overlay.Action.{Action, settle, answer, host_call, pure, ◌>>=◌}
use vidya_god_fs.Overlay.CopyUp.{hit_entry, open_hit}
use vidya_god_fs.Vfs.Types.{OpenFile, is_none, hit_or_file_is_dir}
use vidya_god_fs.Vfs.Files.{
  fd_handle, zip_handle, open_host, wants_write, open_hit_as, open_found, open_vfs, create_vfs,
  write_vfs, truncate_vfs, chmod_vfs, utimens_vfs,
}
use vidya_god_fs.Vfs.Folders.{mkdir_vfs, unlink_vfs, rmdir_vfs, symlink_vfs}
use vidya_god_fs.Vfs.Moves.{rename_vfs, link_vfs}
use vidya_god_fs.Vfs.Requests.{
  Request, opens, creates, writes, truncates, chmods, utimes, makes_dir, unlinks, removes_dir,
  symlinks, renames, links, asks_change, run, run_all, refusal,
}

module _ {F : Type 0} (h : HostIo F) (rounds depth : ℕ) where
  open_refused :
      (v : Str) (flags : OpenFlags) (f : F) (s : VfsState)
      → s.read_only ≡ true
      → wants_write flags ≡ true
      → run h rounds depth (opens v flags) f s ≡ (refusal h rounds depth (opens v flags) f s, f, s)
  unfolding run refusal open_vfs open_found
  open_refused v flags f s ro w = elim (Bool-cases (is_none (resolve h f s v).kind)) [
    | inl missing ↦ rw missing refl
    | inr found ↦ elim (Bool-cases (hit_or_file_is_dir h f (resolve h f s v))) [
      | inl folder ↦ rw (found, folder, w) refl
      | inr other ↦ rw (found, other, w, ro) refl
    ]
  ]

  -- On a read-only mount every request but an open for reading fails, with EROFS, or, for an open, with
  -- ENOENT or EISDIR where the path is missing or a folder, and changes neither the host nor the state.
  pub run-refusal :
      (r : Request) (f : F) (s : VfsState)
      → s.read_only ≡ true
      → asks_change r ≡ true
      → run h rounds depth r f s ≡ (refusal h rounds depth r f s, f, s)
  unfolding run refusal asks_change create_vfs write_vfs truncate_vfs chmod_vfs utimens_vfs
      mkdir_vfs unlink_vfs rmdir_vfs symlink_vfs rename_vfs link_vfs
  run-refusal (opens v flags) f s ro w = open_refused v flags f s ro w
  run-refusal (creates v mode flags) f s ro w = rw ro refl
  run-refusal (writes of buf off) f s ro w = rw ro refl
  run-refusal (truncates v of size) f s ro w = rw ro refl
  run-refusal (chmods v mode) f s ro w = rw ro refl
  run-refusal (utimes v atime mtime) f s ro w = rw ro refl
  run-refusal (makes_dir v mode) f s ro w = rw ro refl
  run-refusal (unlinks v) f s ro w = rw ro refl
  run-refusal (removes_dir v) f s ro w = rw ro refl
  run-refusal (symlinks target v) f s ro w = rw ro refl
  run-refusal (renames vf vt) f s ro w = rw ro refl
  run-refusal (links vf vt) f s ro w = rw ro refl

  -- A run's state, where the action before left it as it was and the rest does too.
  bind_still :
      {A B : Type 0} (s : VfsState) (k : A → Action F B) (x : Result A × F × VfsState)
      → x.2 ≡ s
      → ((a : A) (f1 : F) → (k a f1 s).2 ≡ s)
      → (settle k x).2 ≡ s
  bind_still s k (ok a, f1, t) p q = rw p (q a f1)
  bind_still s k (err e, f1, t) p q = p
  bind_still s k (stuck, f1, t) p q = p

  open_entry_still :
      (o : Option ZipEntry) (path : Str) (flags : OpenFlags) (rr : ResolveResult) (f : F)
      (s : VfsState)
      → ((elim o as (λ x. Action F (Option OpenFile)) [
        | some e ↦ answer (λ f s. open_hit rr e) >>= λ r. pure (zip_handle r)
        | none ↦ open_host h rounds path flags 0
      ])
          f s).2
        ≡ s
  unfolding ◌>>=◌ answer host_call pure
  open_entry_still none path flags rr f s =
      bind_still s (λ fd. pure (fd_handle fd)) (host_call (λ f. h.open_file f path flags 0) f s)
        refl (λ a f1. refl)
  open_entry_still (some e) path flags rr f s =
      bind_still s (λ r. pure (zip_handle r)) (answer (λ f s. open_hit rr e) f s) refl
        (λ a f1. refl)

  open_read_still :
      (v : Str) (flags : OpenFlags) (rr : ResolveResult) (f : F) (s : VfsState)
      → wants_write flags ≡ false
      → (open_found h rounds v flags rr f s).2 ≡ s
  unfolding open_found open_hit_as
  open_read_still v flags rr f s w = elim (Bool-cases (is_none rr.kind)) [
    | inl missing ↦ rw missing refl
    | inr found ↦ elim (Bool-cases (hit_or_file_is_dir h f rr)) [
      | inl folder ↦ rw (found, folder, w) refl
      | inr other ↦ rw (found, other, w) (open_entry_still (hit_entry rr) rr.host_path flags rr f s)
    ]
  ]

  run_read_still :
      (r : Request) (f : F) (s : VfsState)
      → asks_change r ≡ false
      → (run h rounds depth r f s).2 ≡ s
  unfolding run asks_change open_vfs
  run_read_still (opens v flags) f s w = open_read_still v flags (resolve h f s v) f s w
  run_read_still (creates v mode flags) f s w = absurd cc
  run_read_still (writes of buf off) f s w = absurd cc
  run_read_still (truncates v of size) f s w = absurd cc
  run_read_still (chmods v mode) f s w = absurd cc
  run_read_still (utimes v atime mtime) f s w = absurd cc
  run_read_still (makes_dir v mode) f s w = absurd cc
  run_read_still (unlinks v) f s w = absurd cc
  run_read_still (removes_dir v) f s w = absurd cc
  run_read_still (symlinks target v) f s w = absurd cc
  run_read_still (renames vf vt) f s w = absurd cc
  run_read_still (links vf vt) f s w = absurd cc

  run_still :
      (r : Request) (f : F) (s : VfsState) → s.read_only ≡ true → (run h rounds depth r f s).2 ≡ s
  run_still r f s ro = elim (Bool-cases (asks_change r)) [
    | inl asks ↦ ap (λ x. x.2) (run-refusal r f s ro asks)
    | inr reads ↦ run_read_still r f s reads
  ]

  -- On a read-only mount no sequence of requests changes the overlay's state.
  pub run_all_still :
      (rs : List Request) (f : F) (s : VfsState)
      → s.read_only ≡ true
      → (run_all h rounds depth rs f s).1 ≡ s
  unfolding run_all
  run_all_still [] f s ro = refl
  run_all_still (r ∷ rs) f s ro =
      let (reply, f1, s1) = run h rounds depth r f s in
      ap (λ t. (run_all h rounds depth rs f1 t).1) (run_still r f s ro) ∙ run_all_still rs f1 s ro
