-- ===== src/Delta/Parse.antt =====
-- `ParseDelta` of src/vgdelta.cpp: header, segment table and block index.
use vidya_god_fs.Prelude.{
  ℕ, zero, suc, ◌*◌, Bool, true, false, not, List, [], ◌∷◌, Option, none, some, length, take, drop,
  get_or, ◌==◌, if◌then◌else◌,
}
use vidya_god_fs.Prelude.Text.{str_eq}
use vidya_god_fs.Bytes.{add64, rd32, rd64}
use vidya_god_fs.Source.{ByteSource, pread_all}
use vidya_god_fs.Delta.Types.{
  magic, version, header_size, BlockRec, RawSeg, Parsed, DeltaError, short_header, bad_magic,
  unsupported_version, zero_block_size, short_seg_lens, seg_table_size_mismatch, short_seg_table,
  seg_table_corrupt, segments_do_not_cover_target, short_blk_lens, blk_index_size_mismatch,
  short_blk_index, blk_index_corrupt, Outcome, done, fail, ◌>>=◌, ◌>>◌,
}
use vidya_god_fs.Delta.Zstd.{Zstd, z_decompress}

-- `if (!test) { err = e; return false; }`
abbrev pub check : Bool → DeltaError → Outcome (Unit {0})
check true e = done tt
check false e = fail e

abbrev pub require {ℓ} : {A : Type ℓ} → Option A → DeltaError → Outcome A
require none e = fail e
require (some a) e = done a

-- `if (n && !preadAll(buf, n, off))`: nothing is read for a length of 0.
unfoldable pub read_field : ByteSource → ℕ → ℕ → Option (List ℕ)
read_field src n off = if n == 0 then some [] else pread_all src n off

-- The records of the segment table, and the sum of their lengths.
unfoldable pub parse_segs : ℕ → List ℕ → ℕ → List RawSeg × ℕ
parse_segs zero raw tpos = ([], tpos)
parse_segs (suc count) raw tpos =
    let len = rd64 (drop 1 raw) in
    let (segs, total) = parse_segs count (drop 17 raw) (add64 tpos len) in
    (record { kind = get_or raw 0 0; len = len; src_off = rd64 (drop 9 raw) } ∷ segs, total)

unfoldable pub parse_blocks : ℕ → List ℕ → List BlockRec
parse_blocks zero raw = []
parse_blocks (suc count) raw =
    record { comp_off = rd64 raw; comp_len = rd32 (drop 8 raw); uncomp_len = rd32 (drop 12 raw) }
    ∷ parse_blocks count (drop 16 raw)

module _ (z : Zstd) where
  -- One compressed table at `off`: its two lengths, its bytes, and where it ends. The segment table
  -- and the block index are read by the same code with other messages.
  unfoldable pub read_table :
      ByteSource → ℕ → ℕ → DeltaError → DeltaError → DeltaError → DeltaError → Outcome (List ℕ × ℕ)
  unfolding read_field
  read_table delta off expected short_lens size_mismatch short_table corrupt = do
    lens ← require (pread_all delta 16 off) short_lens
    let clen = rd64 lens
    let ulen = rd64 (drop 8 lens)
    check (ulen == expected) size_mismatch
    comp ← require (read_field delta clen (add64 off 16)) short_table
    let raw = z_decompress z comp ulen
    check (length raw == ulen) corrupt
    done (raw, add64 off (add64 16 clen))

  unfoldable pub parse_delta : ByteSource → Outcome Parsed
  unfolding read_table parse_segs parse_blocks
  parse_delta delta = do
    hdr ← require (pread_all delta header_size 0) short_header
    check (str_eq (take 4 hdr) magic) bad_magic
    check (rd32 (drop 4 hdr) == version) unsupported_version
    let block_size = rd32 (drop 8 hdr)
    let target_size = rd64 (drop 12 hdr)
    let num_seg = rd32 (drop 36 hdr)
    let num_blk = rd32 (drop 40 hdr)
    check (not (block_size == 0)) zero_block_size
    (raw_segs, blk_off) ←
        read_table delta header_size (num_seg * 17) short_seg_lens seg_table_size_mismatch
          short_seg_table seg_table_corrupt
    let (segs, tpos) = parse_segs num_seg raw_segs 0
    check (tpos == target_size) segments_do_not_cover_target
    (raw_blks, region_off) ←
        read_table delta blk_off (num_blk * 16) short_blk_lens blk_index_size_mismatch
          short_blk_index blk_index_corrupt
    done (record {
      target_size = target_size;
      base_size = rd64 (drop 20 hdr);
      base_hash = rd64 (drop 28 hdr);
      segs = segs;
      add = record {
        file = delta;
        region_off = region_off;
        block_size = block_size;
        blocks = parse_blocks num_blk raw_blks;
      };
    })
