-- ===== src/Runs/Overlays.antt =====
-- An overlay of two folders, one archive and a writelayer, with one deletion.
use vidya_god_fs.Prelude.{
  ℕ, ◌<◌, ◌≡◌, refl, arith, Bool, true, false, ◌⊎◌, inl, inr, ◌↔◌, List, [], ◌∷◌, Option, none,
  some, pos, length,
}
use vidya_god_fs.Prelude.Text.{Str, str_eq}
use vidya_god_fs.Runs.Host.{quiet_host}
use vidya_god_fs.Source.{ByteSource, mem_source}
use vidya_god_fs.Source.Exact.{mem_source-Serves, Chunk}
use vidya_god_fs.Paths.{find_last_slash, parent_vrel, has, has_above, within}
use vidya_god_fs.Paths.Ancestors.{Above, has_above_iff, within_iff}
use vidya_god_fs.Zip.{
  ZipEntry, ZipIndex, lookup, resolve_zip_symlink, segments, join_normalized, link_target, chase,
  push_segs, join_segs,
}
use vidya_god_fs.Bytes.{zip_rd16, zip_rd32}
use vidya_god_fs.Zip.Scan.{locate_dir, find_eocd, first_compressed_entry}
use vidya_god_fs.Zip.Scan.Laid.{
  DirRecord, RecordFits, DirLaid, dir_bytes, packed_name, first_compressed_entry-packed_name,
}
use vidya_god_fs.Overlay.Layers.{fold_case, canonical_case}
use vidya_god_fs.Overlay.Layers.Case.{NamesFolded, fold_case-canonical_case}
use vidya_god_fs.Prelude.{ap, sym, ◌∙◌, ◌++◌, ◌^◌, All, if◌then◌else◌}
use vidya_god_fs.Prelude.Text.{str_eq→eq}
use vidya_god_fs.Source.{pread_all}
use vidya_god_fs.Zip.Entries.{open_and_read, open_and_read-Chunk, entry_bytes}
use vidya_god_fs.Zip.Links.{File, resolve_zip_symlink-File}
use vidya_god_fs.Overlay.Types.{dir, Layer, VfsState, Stat, HostIo}
use vidya_god_fs.Overlay.Layers.{layer_covers, layer_masked, source_rel}
use vidya_god_fs.Overlay.Masks.{rename_set, create_whiteout}
use vidya_god_fs.Overlay.Kept.{rewrite_set, kept_masked}
use vidya_god_fs.Overlay.Kept.Masked.{Masking, kept_masked_iff}
use vidya_god_fs.Overlay.Resolve.{
  no_result, resolve, resolve_lower, layers_answer, layer_answer, resolve_dir,
}
use vidya_god_fs.Overlay.Resolve.Priority.{
  Highest, resolve_lower-Highest, resolve-Deleted, create_whiteout-Hides,
}
use vidya_god_fs.Overlay.Renames.{Moves, rename_set-Moves, rename_set-eq-rewrite_set}

-- a, a/b, a/b/c
abbrev pub a : Str
a = 97 ∷ []

abbrev pub ab : Str
ab = 97 ∷ 47 ∷ 98 ∷ []

abbrev pub abc : Str
abc = 97 ∷ 47 ∷ 98 ∷ 47 ∷ 99 ∷ []

abbrev q : Str
q = 113 ∷ []

has_above_iff_example :
    (has_above (length abc) (a ∷ []) (parent_vrel abc) ≡ true)
    ↔ ((x : Str) × (0 < length x) × (has (a ∷ []) x ≡ true) × Above x abc)
has_above_iff_example = has_above_iff (a ∷ []) abc

within_iff_example : (within abc ab ≡ true) ↔ ((ab ≡ []) ⊎ ((abc ≡ ab) ⊎ Above ab abc))
within_iff_example = within_iff abc ab

rename_set-Moves_example :
    (has (rename_set a q (ab ∷ [])) (113 ∷ 47 ∷ 98 ∷ []) ≡ true)
    ↔ ((x : Str) × (has (ab ∷ []) x ≡ true) × Moves a q x (113 ∷ 47 ∷ 98 ∷ []))
rename_set-Moves_example = rename_set-Moves a q (ab ∷ []) (113 ∷ 47 ∷ 98 ∷ [])

rename_set-eq-rewrite_set_example :
    has (rename_set a q (a ∷ ab ∷ [])) (113 ∷ 47 ∷ 98 ∷ [])
    ≡ has (rewrite_set a q (a ∷ ab ∷ [])) (113 ∷ 47 ∷ 98 ∷ [])
rename_set-eq-rewrite_set_example = rename_set-eq-rewrite_set a q (a ∷ ab ∷ []) (113 ∷ 47 ∷ 98 ∷ [])

-- An archive with a file `b` of three bytes and a link `l` to it.
abbrev pub file_entry : ZipEntry
file_entry = record {
  name = 98 ∷ [];
  index = 0;
  size = 3;
  mtime = pos 0;
  is_dir = false;
  symlink = false;
  stored = true;
  data_offset = 2;
}

abbrev link_entry : ZipEntry
link_entry = record {
  name = 108 ∷ [];
  index = 1;
  size = 1;
  mtime = pos 0;
  is_dir = false;
  symlink = true;
  stored = true;
  data_offset = 5;
}

abbrev pub archive_bytes : List ℕ
archive_bytes = 0 ∷ 0 ∷ 1 ∷ 2 ∷ 3 ∷ 98 ∷ 0 ∷ []

abbrev pub archive : ZipIndex
archive = record {
  src = mem_source archive_bytes;
  by_name = (98 ∷ [], file_entry) ∷ (108 ∷ [], link_entry) ∷ [];
  dir_children = [];
}

link_resolves : resolve_zip_symlink archive link_entry ≡ some file_entry
unfolding resolve_zip_symlink chase link_target mem_source join_normalized segments lookup
    parent_vrel push_segs find_last_slash join_segs
link_resolves = refl

resolve_zip_symlink-File_example : File archive link_entry file_entry
resolve_zip_symlink-File_example =
    resolve_zip_symlink-File archive link_entry file_entry link_resolves

open_and_read-Chunk_example :
    Chunk (entry_bytes archive_bytes file_entry) 2 1 (open_and_read archive file_entry 2 (pos 1))
open_and_read-Chunk_example =
    open_and_read-Chunk archive file_entry archive_bytes
      (mem_source-Serves archive_bytes (omega arith))
      (record { is_stored = refl; in_archive = omega arith }) 2 1 (omega arith) (omega arith)

-- A host that has the path `/s/a/b` and nothing else; it never fails and forgets nothing.
abbrev pub some_stat : Stat
some_stat = record {
  mode = 420;
  size = 1;
  mtime = pos 0;
  nlink = 1;
  is_dir = false;
  is_symlink = false;
  is_regular = true;
}

abbrev host_path : Str
host_path = 47 ∷ 115 ∷ 47 ∷ 97 ∷ 47 ∷ 98 ∷ []

abbrev pub if_there : Bool → Option Stat
if_there true = some some_stat
if_there false = none

abbrev pub host : HostIo (Unit {0})
host = record quiet_host { lstat = λ f p. if_there (str_eq p host_path) }

abbrev pub layer : Layer
layer = record {
  type = dir;
  source = 47 ∷ 115 ∷ [];
  target = [];
  subpath = [];
  rw = false;
  masked_under = [];
  priority = 0;
  zip = none;
  file_vpath = [];
  file_base = [];
  kept = none;
}

abbrev kept_layer : Layer
kept_layer = record layer {
  rw = true;
  priority = 1;
  kept = some (record { deleted = ab ∷ []; opaque = [] });
}

abbrev pub state : VfsState
state = record {
  writelayer = 47 ∷ 119 ∷ [];
  read_only = false;
  flatten_symlinks = true;
  uid = 1000;
  gid = 1000;
  layers = layer ∷ [];
  implicit_dirs = [];
  case_insensitive = false;
  canon_case = [];
  whiteout_set = a ∷ [];
  opaque_set = [];
}

resolve-Deleted_example : resolve host tt state ab ≡ no_result
resolve-Deleted_example =
    resolve-Deleted host tt state a ab refl (omega arith) (unfold has in refl)
      (inr ((98 ∷ [], refl), refl))

create_whiteout-Hides_example :
    resolve host (create_whiteout host tt state ab).0 (create_whiteout host tt state ab).1 ab
    ≡ no_result
create_whiteout-Hides_example =
    create_whiteout-Hides host tt state ab ab refl (omega arith) (inl refl)

served : (resolve_lower host tt state ab).layer ≡ some layer
unfolding resolve_lower layers_answer layer_answer layer_covers layer_masked resolve_dir source_rel
served = refl

resolve_lower-Highest_example :
    Highest host tt state ab state.layers (resolve_lower host tt state ab)
resolve_lower-Highest_example = resolve_lower-Highest host tt state ab layer served

kept_rel : 0 < length (source_rel kept_layer abc)
unfolding source_rel
kept_rel = omega arith

kept_masked_iff_example :
    (kept_masked kept_layer abc ≡ true)
    ↔ Masking (record { deleted = ab ∷ []; opaque = [] }) (source_rel kept_layer abc)
kept_masked_iff_example =
    kept_masked_iff kept_layer abc (record { deleted = ab ∷ []; opaque = [] }) refl kept_rel

-- The central directory of an archive with a stored entry, `b`, and a deflated one, `c`, and its end
-- record.
abbrev dir_record : ℕ → Str → DirRecord
dir_record method name = record {
  made_by = 20;
  needed = 20;
  flags = 0;
  method = method;
  time = 0;
  date = 33;
  crc = 4096;
  comp_size = 3;
  size = 3;
  disk = 0;
  inner_attr = 0;
  outer_attr = 0;
  offset = 0;
  name = name;
  extra = 1 ∷ 0 ∷ [];
  comment = [];
}

abbrev dir_records : List DirRecord
dir_records = dir_record 0 (98 ∷ []) ∷ dir_record 8 (99 ∷ []) ∷ []

abbrev end_record : List ℕ
end_record =
    80 ∷ 75 ∷ 5 ∷ 6 ∷ 0 ∷ 0 ∷ 0 ∷ 0 ∷ 2 ∷ 0 ∷ 2 ∷ 0 ∷ 98 ∷ 0 ∷ 0 ∷ 0 ∷ 0 ∷ 0 ∷ 0 ∷ 0 ∷ 0 ∷ 0 ∷ []

abbrev packed_bytes : List ℕ
packed_bytes = dir_bytes dir_records ++ end_record

abbrev packed_archive : ByteSource
packed_archive = mem_source packed_bytes

directory_found : locate_dir packed_archive ≡ some (2, 0)
unfolding locate_dir find_eocd pread_all mem_source zip_rd32 zip_rd16
directory_found = refl

dir_record-RecordFits : (method c : ℕ) → method < 2 ^ 16 → RecordFits (dir_record method (c ∷ []))
dir_record-RecordFits method c h = record {
  method_fits = h;
  name_fits = omega arith;
  extra_fits = omega arith;
  comment_fits = omega arith;
}

directory_laid : DirLaid packed_bytes 0 dir_records
directory_laid = record {
  behind = end_record;
  laid = refl;
  in_archive = omega arith;
  records_fit =
      (dir_record-RecordFits 0 98 (omega arith), (dir_record-RecordFits 8 99 (omega arith), tt));
}

first_compressed_entry-packed_name_example :
    (first_compressed_entry packed_archive ≡ packed_name dir_records)
    × ((first_compressed_entry packed_archive ≡ []) ↔ All (λ r. r.method ≡ 0) dir_records)
first_compressed_entry-packed_name_example =
    first_compressed_entry-packed_name packed_archive packed_bytes 0 dir_records
      (mem_source-Serves packed_bytes (omega arith)) directory_found directory_laid

-- A state that knows the name `A` and looks it up by `a`.
abbrev spelling_state : VfsState
spelling_state = record state { case_insensitive = true; canon_case = (a, 65 ∷ []) ∷ [] }

one_name : NamesFolded spelling_state.canon_case
unfolding lookup fold_case
one_name k spelled e = by_test (str_eq a k) refl e
  where
    spelled_a : Option Str → Str
    spelled_a none = 65 ∷ []
    spelled_a (some x) = x

    by_test :
        (b : Bool)
        → str_eq a k ≡ b
        → (if b then some (65 ∷ []) else none) ≡ some spelled
        → fold_case spelled ≡ k
    by_test true same p = ap (λ o. fold_case (spelled_a o)) (sym p) ∙ str_eq→eq a k same
    by_test false other p = absurd cc

fold_case-canonical_case_example : fold_case (canonical_case spelling_state ab) ≡ fold_case ab
fold_case-canonical_case_example = fold_case-canonical_case spelling_state ab one_name
