-- ===== src/Runs/Host.antt =====
-- A host for the examples, on which every call succeeds and changes nothing.
use vidya_god_fs.Prelude.{[], none, ok, length}
use vidya_god_fs.Overlay.Types.{HostIo}

abbrev pub quiet_host : {F : Type 0} → HostIo F
quiet_host = record {
  lstat = λ f p. none;
  lstat_errno = λ f p. 2;
  stat_follow = λ f p. none;
  stat_errno = λ f p. 2;
  canonical = λ f p. none;
  read_dir = λ f p. [];
  readlink = λ f p. ok [];
  statvfs = λ f p. ok (record {
    bsize = 4096;
    blocks = 0;
    bfree = 0;
    bavail = 0;
    files = 0;
    ffree = 0;
    namemax = 255;
  });
  pread = λ f fd size off. ok [];
  create_directories = λ f p. (0, f);
  open_file = λ f p flags mode. (ok 3, f);
  close = λ f fd. f;
  read = λ f fd size. (ok [], f);
  write = λ f fd bytes. (ok (length bytes), f);
  pwrite = λ f fd bytes off. (ok (length bytes), f);
  fsync = λ f fd. (ok 0, f);
  ftruncate = λ f fd size. (ok 0, f);
  fchmod = λ f fd mode. (ok 0, f);
  mkdir = λ f p mode. (ok 0, f);
  unlink = λ f p. (ok 0, f);
  rmdir = λ f p. (ok 0, f);
  rename = λ f p q. (ok 0, f);
  link = λ f p q. (ok 0, f);
  truncate = λ f p size. (ok 0, f);
  chmod = λ f p mode. (ok 0, f);
  utimens = λ f p atime mtime follow. (ok 0, f);
  symlink = λ f target p. (ok 0, f);
}
