-- ===== src/Lib.antt =====
-- VidyaGodFS: a file system that mounts folders, single files, stored zip archives and binary deltas
-- over archives as layers of one tree, with a writelayer for changes. The program's parts:
--
-- - byte sources (src/bytesource.h): random access to bytes, of memory, of a file, or of several sources
--   one behind the other;
-- - binary deltas (src/vgdelta.h, src/vgdelta.cpp): a `.vgdelta` over a base source is a byte source
--   again. Its segments copy ranges of the base or of literal bytes in compressed blocks; a delta over
--   a delta is composed into one flat map when it is opened;
-- - zip layers (src/ziplayer.h, src/ziplayer.cpp, src/zipscan.cpp): the stored entries of an archive,
--   read in place through a byte source, and the links inside an archive;
-- - the overlay (src/overlay.h, src/overlay.cpp): which layer answers for a path, and the deletion
--   marks of the writelayer and of kept folders;
-- - copy-up (src/overlay.cpp): a file of a layer is copied to the writelayer, or into the kept folder that
--   covers it, before it is changed;
-- - the file operations (src/vfsops.h, src/vfsops.cpp): what a front end calls, over all of the above;
-- - the front ends (FUSE, WinFsp), which are not modelled.
--
-- Which file models what. State is passed explicitly; names are those of the source, in snake case.
--
-- - Prelude: shared names, lists measured by native numbers, slices, byte strings, results of fallible
--   code (a negative errno is `err` of its number).
-- - Bytes: the little-endian fields and the hash of src/vgdelta.cpp and src/zipscan.cpp.
-- - Source: `ByteSource`, `preadAll`, the in-memory and the concatenated source. Source.Exact says what a
--   source promises (`Serves`: reads may be short, but not empty while bytes are left).
-- - Delta: Types has the data, Zstd the library as a parameter with its documented laws, Parse
--   `ParseDelta`, Flat `SegAt` and `Create`, Read the block cache, `readAdd` and `pread`. Content says what
--   a flat map stands for, Stored where the literals lie in the file; Locate, Read.Cache, Read.Copy,
--   Read.Exact and Read.Serves are about the reader, Compose, Create and Create.Chain about the opening of
--   a delta, Create.Served about deltas stacked over one base, and Read.Hang about a block that is
--   shorter than a segment says.
-- - Paths: `NormalizeVPath`, `ParentVRel`, `BaseName`, `Within` and the loops over ancestors; Split and
--   Ancestors are about what they mean.
-- - Zip: entries, `OpenZipEntry`, `ReadZipEntry`, `JoinNormalized`, `ResolveZipSymlink`,
--   `LocalDataOffset`; Zip.Scan the walk over the central directory, and Zip.Scan.Laid the records as
--   the format lays them out.
-- - Overlay: Types has the state and the host's calls (src/hostio.h), which are a parameter; Layers the
--   coverage, relative paths and the mapping of case; Masks the writelayer's deletions; Kept those of
--   kept folders; Resolve the lookup; Renames what a folder's renaming does to the marks.
--   Action is the form of an operation on the overlay's and the host's state, CopyUp the copy-up and
--   `FullWrite`; CopyUp.Content says what is written, Config what a mount is set up with. Seed is the walk
--   that finds the marks on disk, Structure the folders that `VfsState::Init` makes structural.
-- - Vfs: the operations of src/vfsops.cpp. Children `CollectChildren`, Attributes the operations that only
--   look, Files those on a file, Folders making and removing, Moves `DeepCopyUp`, `VfsRename` and
--   `VfsLink`. Requests puts them together as requests; Requests.ReadOnly, Keeps, Deletes, Makes,
--   Listing, Reads and NoWritelayer are about what they do.
-- - Runs: the code on small inputs.
--
-- Bounds and fuel. 64-bit sums wrap (`add64`, `sub64`). `preadAll` has one round more than the bytes asked
-- for, the inner read loops of a delta one round per byte: every round of a source that keeps its
-- promise brings a byte. The loops over ancestors have one round per byte of the path, as a parent is
-- shorter. The chase of links has the source's eight hops. The walk over a directory has as many rounds
-- as the directory says it has entries, and the loop over an extra field one per byte, as a round passes
-- four. Chains have at most 2^24 files and files fewer than 2^40 blocks, which keeps the cache's keys
-- apart.
--
-- The host's answers are not bounded: `rounds` bounds how many chunks of a host file a copy reads and how
-- many interrupted writes it repeats, `depth` how deep a folder is that a rename copies up, or that the
-- walk for marks enters (`none` when it meets a deeper one). The copy of
-- an archive's entry has one round more than the entry has bytes. A loop that needs more rounds than it
-- has is `stuck`, which is neither success nor an error of the code.
--
-- `ReadZipEntry` returns its count as an `int`: the low 32 bits of the count with a sign are written
-- out (`int_count`).
--
-- Not modelled: the generation and verification of deltas, the index that libzip builds,
-- the rest of `VfsState::Init` (the chains of deltas, the map of names), reading the specification's
-- JSON, and the front ends, host calls and locks. Operations run one after the other.
pub mod Prelude
pub mod Bytes
pub mod Source
pub mod Delta
pub mod Paths
pub mod Zip
pub mod Overlay
pub mod Runs
pub mod Vfs
