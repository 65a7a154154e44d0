-- ===== src/Overlay/Types.antt =====
-- The overlay's data: `LayerType` of src/layerspec.h, the types of src/overlay.h, and what the code uses
-- of the host's file system (src/hostio.h), which is a parameter.
use vidya_god_fs.Prelude.{ℕ, ℤ, Bool, true, false, List, Option, Result, ok, err, stuck}
use vidya_god_fs.Prelude.Text.{Str}
use vidya_god_fs.Zip.{ZipEntry, ZipIndex}

pub data LayerType : Type 0 where
  dir zip_archive single_file delta_archive : LayerType

-- A kept folder's deletion markers, as paths relative to the layer's source.
pub record KeptMasks : Type 0 where
  pub deleted : List Str
  pub opaque : List Str

pub record Layer : Type 0 where
  pub type : LayerType
  pub source : Str
  pub target : Str
  pub subpath : Str
  pub rw : Bool
  pub masked_under : List Str
  pub priority : ℕ
  pub zip : Option ZipIndex
  pub file_vpath : Str
  pub file_base : Str
  pub kept : Option KeptMasks

-- `VfsState` without its locks. `layers` has the lowest layer first.
pub record VfsState : Type 0 where
  pub writelayer : Str
  pub read_only : Bool
  pub flatten_symlinks : Bool
  pub uid : ℕ
  pub gid : ℕ
  pub layers : List Layer
  pub implicit_dirs : List Str
  pub case_insensitive : Bool
  pub canon_case : List (Str × Str)
  pub whiteout_set : List Str
  pub opaque_set : List Str

pub data HitKind : Type 0 where
  no_hit implicit_dir write_layer dir_layer file_layer zip_hit : HitKind

pub record ResolveResult : Type 0 where
  pub kind : HitKind
  pub host_path : Str
  pub layer : Option Layer
  pub zip_entry : Option ZipEntry
  pub rw_passthrough : Bool

pub record Stat : Type 0 where
  pub mode : ℕ
  pub size : ℕ
  pub mtime : ℤ
  pub nlink : ℕ
  pub is_dir : Bool
  pub is_symlink : Bool
  pub is_regular : Bool

-- `HostIO::StatvfsInfo`.
pub record StatvfsInfo : Type 0 where
  pub bsize : ℕ
  pub blocks : ℕ
  pub bfree : ℕ
  pub bavail : ℕ
  pub files : ℕ
  pub ffree : ℕ
  pub namemax : ℕ

-- The bits of POSIX open flags that the code names, and the others.
pub record OpenFlags : Type 0 where
  pub wronly : Bool
  pub rdwr : Bool
  pub trunc : Bool
  pub creat : Bool
  pub nofollow : Bool
  pub others : ℕ

-- O_RDONLY
abbrev pub read_flags : OpenFlags
read_flags = record {
  wronly = false;
  rdwr = false;
  trunc = false;
  creat = false;
  nofollow = false;
  others = 0;
}

-- O_CREAT | O_WRONLY
abbrev pub create_flags : OpenFlags
create_flags = record read_flags { creat = true; wronly = true }

-- The host calls that the modelled operations make, over the host's state `F`. A failed call may
-- change the state too. A result `err e` is the code's `-e`; 0 is `ok 0`. `lstat` and `stat_follow` are
-- `none` on failure, and the two `_errno` fields are what they return then. `canonical` is
-- `std::filesystem::weakly_canonical`, a path's components; `create_directories` gives the error code,
-- 0 for success. `read_dir` is the names that `ReadDir` gives to its callback.
pub record HostIo {ℓ} (F : Type ℓ) : Type ℓ where
  pub lstat : F → Str → Option Stat
  pub lstat_errno : F → Str → ℕ
  pub stat_follow : F → Str → Option Stat
  pub stat_errno : F → Str → ℕ
  pub canonical : F → Str → Option (List Str)
  pub read_dir : F → Str → List Str
  pub readlink : F → Str → Result Str
  pub statvfs : F → Str → Result StatvfsInfo
  pub pread : F → ℕ → ℕ → ℕ → Result (List ℕ)
  pub create_directories : F → Str → ℕ × F
  pub open_file : F → Str → OpenFlags → ℕ → Result ℕ × F
  pub close : F → ℕ → F
  pub read : F → ℕ → ℕ → Result (List ℕ) × F
  pub write : F → ℕ → List ℕ → Result ℕ × F
  pub pwrite : F → ℕ → List ℕ → ℕ → Result ℕ × F
  pub fsync : F → ℕ → Result ℕ × F
  pub ftruncate : F → ℕ → ℕ → Result ℕ × F
  pub fchmod : F → ℕ → ℕ → Result ℕ × F
  pub mkdir : F → Str → ℕ → Result ℕ × F
  pub unlink : F → Str → Result ℕ × F
  pub rmdir : F → Str → Result ℕ × F
  pub rename : F → Str → Str → Result ℕ × F
  pub link : F → Str → Str → Result ℕ × F
  pub truncate : F → Str → ℕ → Result ℕ × F
  pub chmod : F → Str → ℕ → Result ℕ × F
  pub utimens : F → Str → ℤ → ℤ → Bool → Result ℕ × F
  pub symlink : F → Str → Str → Result ℕ × F

-- `Open(path, O_CREAT | O_WRONLY, 0644)`, and `Close` when that succeeds.
unfoldable pub create_file {ℓ} : {F : Type ℓ} → HostIo F → F → Str → Result ℕ × F
create_file h f path =
    let (fd, f1) = h.open_file f path create_flags 420 in
    elim fd [ ok n ↦ (ok n, h.close f1 n) | err e ↦ (err e, f1) | stuck ↦ (stuck, f1) ]
