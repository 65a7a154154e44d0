-- ===== src/Vfs/Keeps.antt =====
-- The operations of src/vfsops.cpp, taken together, and what a mount is set up with.
pub mod Files
pub mod Folders
pub mod Moves
use vidya_god_fs.Prelude.{ℕ, List, [], ◌∷◌}
use vidya_god_fs.Overlay.Types.{VfsState, HostIo}
use vidya_god_fs.Overlay.Action.{Action}
use vidya_god_fs.Overlay.Config.{Config, Config-refl, Config-trans, Keeps}
use vidya_god_fs.Vfs.Requests.{
  Request, opens, creates, writes, truncates, chmods, utimes, makes_dir, unlinks, removes_dir,
  symlinks, renames, links, run, run_all, forget,
}
use vidya_god_fs.Vfs.Keeps.Files.{
  open_vfs-Keeps, create_vfs-Keeps, write_vfs-Keeps, truncate_vfs-Keeps, chmod_vfs-Keeps,
  utimens_vfs-Keeps,
}
use vidya_god_fs.Vfs.Keeps.Folders.{
  mkdir_vfs-Keeps, unlink_vfs-Keeps, rmdir_vfs-Keeps, symlink_vfs-Keeps,
}
use vidya_god_fs.Vfs.Keeps.Moves.{rename_vfs-Keeps, link_vfs-Keeps}

module _ {F : Type 0} (h : HostIo F) (rounds depth : ℕ) where
  forget-Keeps : {A : Type 0} (m : Action F A) → Keeps m → Keeps (forget h rounds depth m)
  forget-Keeps m p = record { keeps = λ f s. record { config = (p.keeps f s).config } }

  run-Keeps : (r : Request) → Keeps (run h rounds depth r)
  unfolding run
  run-Keeps (opens v flags) = forget-Keeps _ (open_vfs-Keeps h rounds v flags)
  run-Keeps (creates v mode flags) = forget-Keeps _ (create_vfs-Keeps h rounds v mode flags)
  run-Keeps (writes of buf off) = forget-Keeps _ (write_vfs-Keeps h rounds of buf off)
  run-Keeps (truncates v of size) = truncate_vfs-Keeps h rounds v of size
  run-Keeps (chmods v mode) = chmod_vfs-Keeps h rounds v mode
  run-Keeps (utimes v atime mtime) = utimens_vfs-Keeps h rounds v atime mtime
  run-Keeps (makes_dir v mode) = mkdir_vfs-Keeps h rounds v mode
  run-Keeps (unlinks v) = unlink_vfs-Keeps h rounds v
  run-Keeps (removes_dir v) = rmdir_vfs-Keeps h rounds v
  run-Keeps (symlinks target v) = symlink_vfs-Keeps h rounds target v
  run-Keeps (renames vf vt) = rename_vfs-Keeps h rounds depth vf vt
  run-Keeps (links vf vt) = link_vfs-Keeps h rounds vf vt

  -- Whatever requests are run, and whatever the host answers, the state differs from the first one at
  -- most in the masks: the writelayer, the read-only flag, the layers with their order, sources and
  -- targets, the structural folders and the spellings of names are the same.
  pub run_all-Config :
      (rs : List Request) (f : F) (s : VfsState) → Config s (run_all h rounds depth rs f s).1
  unfolding run_all
  run_all-Config [] f s = Config-refl s
  run_all-Config (r ∷ rs) f s =
      Config-trans ((run-Keeps r).keeps f s).config
        (run_all-Config rs (run h rounds depth r f s).1 (run h rounds depth r f s).2)
