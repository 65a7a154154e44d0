-- ===== src/Delta/Read.antt =====
-- `GetAddBlock`, `readAdd` and `DeltaByteSource::pread` of src/vgdelta.cpp. The block cache is the
-- state: a read returns its result and the cache that it leaves. The two locked sections of
-- `GetAddBlock` are run one after the other; the second looks the key up again, as `emplace` does.
pub mod Cache
mod Copy
pub mod Exact
pub mod Serves
pub mod Hang
use vidya_god_fs.Prelude.{
  ℕ, zero, suc, ◌-◌, ◌*◌, ◌/◌, ◌%◌, ◌^◌, ◌||◌, List, [], ◌∷◌, ◌++◌, Option, none, some, Result, ok,
  err, stuck, eio, length, take, drop, get_or, is_empty, ltb, leb, ◌==◌, if◌then◌else◌, bit_xor,
}
use vidya_god_fs.Bytes.{add64}
use vidya_god_fs.Source.{ByteSource}
use vidya_god_fs.Delta.Types.{kind_copy, BlockRec, AddSource, FlatSeg, DeltaByteSource}
use vidya_god_fs.Delta.Zstd.{Zstd, z_decompress}
use vidya_god_fs.Delta.Parse.{read_field}
use vidya_god_fs.Delta.Flat.{seg_at, sub64}

abbrev pub cache_cap : ℕ
cache_cap = 64

-- `BlockCache` and `CacheFifo`.
pub record BlockCache : Type 0 where
  pub entries : List (ℕ × List ℕ)
  pub fifo : List ℕ

abbrev pub empty_cache : BlockCache
empty_cache = record { entries = []; fifo = [] }

unfoldable pub find_block : ℕ → List (ℕ × List ℕ) → Option (List ℕ)
find_block key [] = none
find_block key ((k, raw) ∷ m) = if k == key then some raw else find_block key m

unfoldable pub erase_block : ℕ → List (ℕ × List ℕ) → List (ℕ × List ℕ)
erase_block key [] = []
erase_block key ((k, raw) ∷ m) =
    let rest = erase_block key m in if k == key then rest else (k, raw) ∷ rest

-- `((uint64_t)addSrc << 40) ^ blk`.
unfoldable pub block_key : ℕ → ℕ → ℕ
block_key add_src blk = bit_xor (add_src * 2 ^ 40 % 2 ^ 64) blk

abbrev front : List ℕ → ℕ
front [] = 0
front (k ∷ ks) = k

-- `if (CacheFifo.size() > CacheCap)`: the oldest block goes.
unfoldable pub evict : BlockCache → BlockCache
unfolding erase_block
evict c =
    if ltb cache_cap (length c.fifo)
    then record { entries = erase_block (front c.fifo) c.entries; fifo = drop 1 c.fifo }
    else c

-- The second locked section: insert and track, unless the key is there.
unfoldable pub remember : ℕ → List ℕ → BlockCache → BlockCache
unfolding find_block evict
remember key raw c = elim (find_block key c.entries) [
  | some old ↦ c
  | none ↦ evict (record { entries = (key, raw) ∷ c.entries; fifo = c.fifo ++ (key ∷ []) })
]

abbrev pub no_block : BlockRec
no_block = record { comp_off = 0; comp_len = 0; uncomp_len = 0 }

-- What `GetAddBlock` does between the locks: read the frame and decompress it.
unfoldable pub load_block : Zstd → AddSource → ℕ → Option (List ℕ)
unfolding read_field
load_block z a blk =
    let b = get_or a.blocks blk no_block in
    elim (read_field a.file b.comp_len (add64 a.region_off b.comp_off)) [
      | none ↦ none
      | some comp ↦
          let raw = z_decompress z comp b.uncomp_len in
          if length raw == b.uncomp_len then some raw else none
    ]

unfoldable pub get_add_block : Zstd → ℕ → AddSource → ℕ → BlockCache → Option (List ℕ) × BlockCache
unfolding block_key find_block load_block remember
get_add_block z add_src a blk c =
    let key = block_key add_src blk in
    elim (find_block key c.entries) [
      | some raw ↦ (some raw, c)
      | none ↦ elim (load_block z a blk) [
        | none ↦ (none, c)
        | some raw ↦ (some raw, remember key raw c)
      ]
    ]

-- `while (n > 0)`; `out` is what has been copied. A round that copies nothing makes no progress, so
-- the fuel can run out: see `Delta.Read.Hang`.
unfoldable pub read_add :
    Zstd → ℕ → ℕ → AddSource → ℕ → ℕ → List ℕ → BlockCache → Result (List ℕ) × BlockCache
unfolding get_add_block
read_add z zero add_src a n add_off out c = if ltb 0 n then (stuck, c) else (ok out, c)
read_add z (suc fuel) add_src a n add_off out c =
    let b = add_off / a.block_size in
    let intra = add_off % a.block_size % 2 ^ 32 in
    let got = get_add_block z add_src a b c in
    if ltb 0 n
    then (if leb (length a.blocks) b then (err eio, c) else (elim got.0 [
      | none ↦ (err eio, got.1)
      | some raw ↦
          if ltb (length raw) intra
          then (err eio, got.1)
          else (let avail = length raw - intra in
              let count = if ltb n avail then n else avail in
              read_add z fuel add_src a (n - count) (add64 add_off count)
                (out ++ take count (drop intra raw)) got.1)
    ]))
    else (ok out, c)

-- `while (got < chunk)`, the copy from the base; `out` holds the bytes got so far.
unfoldable pub read_copy : ℕ → ByteSource → ℕ → ℕ → List ℕ → Result (List ℕ)
read_copy zero base chunk bsrc out = if ltb (length out) chunk then stuck else ok out
read_copy (suc fuel) base chunk bsrc out =
    if ltb (length out) chunk
    then (elim (base.pread (chunk - length out) (add64 bsrc (length out))) [
      | ok [] ↦ err eio
      | ok (b ∷ r) ↦ read_copy fuel base chunk bsrc (out ++ (b ∷ r))
      | err e ↦ err e
      | stuck ↦ stuck
    ])
    else ok out

abbrev pub no_add : AddSource
no_add = record {
  file = record { size = 0; pread = λ n off. ok [] };
  region_off = 0;
  block_size = 0;
  blocks = [];
}

-- The bytes of one segment: `chunk` of them, from `pos` in the target on.
unfoldable pub read_seg :
    Zstd → DeltaByteSource → FlatSeg → ℕ → ℕ → BlockCache → Result (List ℕ) × BlockCache
read_seg z d s chunk pos c =
    let src = add64 s.src_off (sub64 pos s.target_off) in
    if s.kind == kind_copy
    then (read_copy chunk d.base_src chunk src [], c)
    else read_add z chunk s.add_src (get_or d.add_sources s.add_src no_add) chunk src [] c

-- The loop of `pread`, over the segments from `idx` on; `out` is what has been read.
unfoldable pub delta_loop :
    Zstd
    → DeltaByteSource
    → List FlatSeg
    → ℕ
    → ℕ
    → ℕ
    → List ℕ
    → BlockCache
    → Result (List ℕ) × BlockCache
delta_loop z d [] want off pos out c = (ok out, c)
delta_loop z d (s ∷ segs) want off pos out c =
    let seg_end = add64 s.target_off s.len in
    let req_end = add64 off want in
    let chunk = sub64 (if ltb seg_end req_end then seg_end else req_end) pos in
    let piece = read_seg z d s chunk pos c in
    if ltb (length out) want
    then (if ltb pos s.target_off || leb seg_end pos then (err eio, c) else (elim piece.0 [
      | ok bytes ↦ delta_loop z d segs want off (add64 pos chunk) (out ++ bytes) piece.1
      | err e ↦ (err e, piece.1)
      | stuck ↦ (stuck, piece.1)
    ]))
    else (ok out, c)

unfoldable pub delta_pread :
    Zstd → DeltaByteSource → ℕ → ℕ → BlockCache → Result (List ℕ) × BlockCache
delta_pread z d n off c =
    if leb d.target_size off || is_empty d.segs
    then (ok [], c)
    else (let left = sub64 d.target_size off in
        let want = if ltb n left then n else left in
        delta_loop z d (drop (seg_at d.segs off) d.segs) want off off [] c)

-- Reads of one delta source, in their order: the block cache stays in the object from read to read.
unfoldable pub delta_preads :
    Zstd → DeltaByteSource → List (ℕ × ℕ) → BlockCache → List (Result (List ℕ)) × BlockCache
delta_preads z d [] c = ([], c)
delta_preads z d ((n, off) ∷ requests) c =
    let (reply, c1) = delta_pread z d n off c in
    let (replies, c2) = delta_preads z d requests c1 in (reply ∷ replies, c2)
