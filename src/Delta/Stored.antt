-- ===== src/Delta/Stored.antt =====
-- Where the literals of a .vgdelta lie in its file: the frame of each block stands in the add region, at
-- the offset that the block index gives, and `GetAddBlock` of src/vgdelta.cpp reads it there.
use vidya_god_fs.Prelude.{
  ℕ, ◌+◌, ◌*◌, ◌≤◌, ◌<◌, ◌^◌, ◌≡◌, ap, ◌∙◌, arith, Bool-cases, inl, inr, List, some, length, take,
  drop, get_or, ◌==◌, ==_iff, take_if, skip_if, sym, none, if◌then◌else◌,
}
use vidya_god_fs.Bytes.{add64, add64-eq}
use vidya_god_fs.Source.{ByteSource}
use vidya_god_fs.Source.Exact.{Serves, pread_all-exact}
use vidya_god_fs.Delta.Types.{AddSource, BlockRec}
use vidya_god_fs.Delta.Zstd.{Zstd, z_decompress, z_decompress-eq}
use vidya_god_fs.Delta.Parse.{read_field}
use vidya_god_fs.Delta.Read.{no_block, load_block}
use vidya_god_fs.Delta.Content.{AddHolds}

-- The piece of the literal stream that a block holds.
abbrev pub piece : AddSource → List ℕ → ℕ → List ℕ
piece a lit blk = take a.block_size (drop (blk * a.block_size) lit)

abbrev pub block_rec : AddSource → ℕ → BlockRec
block_rec a blk = get_or a.blocks blk no_block

-- The frame of the block: bytes of the file.
abbrev pub frame : List ℕ → AddSource → ℕ → List ℕ
frame file a blk =
    take (block_rec a blk).comp_len (drop (a.region_off + (block_rec a blk).comp_off) file)

pub record BlockStored (z : Zstd) (file : List ℕ) (a : AddSource) (lit : List ℕ) (blk : ℕ)
    : Type 0 where
  pub in_file : a.region_off + (block_rec a blk).comp_off + (block_rec a blk).comp_len ≤ length file
  pub len_eq : length (piece a lit blk) ≡ (block_rec a blk).uncomp_len
  pub frame_eq :
      z.decompress (frame file a blk) (block_rec a blk).uncomp_len ≡ some (piece a lit blk)

-- The file's bytes hold the literal stream, cut into pieces of the block size, one frame for each.
pub record AddStored (z : Zstd) (file : List ℕ) (a : AddSource) (lit : List ℕ) : Type 0 where
  pub block_pos : 0 < a.block_size
  pub block_fits : a.block_size < 2 ^ 32
  pub lit_fits : length lit < 2 ^ 64
  pub count_fits : length a.blocks < 2 ^ 40
  pub enough : length lit ≤ length a.blocks * a.block_size
  pub stored : (blk : ℕ) → blk * a.block_size < length lit → BlockStored z file a lit blk

read_field-exact :
    (src : ByteSource) (bytes : List ℕ) (n off : ℕ)
    → Serves src bytes
    → off + n ≤ length bytes
    → read_field src n off ≡ some (take n (drop off bytes))
unfolding read_field
read_field-exact src bytes n off serves h = elim (Bool-cases (n == 0)) [
  | inl nothing ↦
      take_if _ _ nothing
      ∙ ap (λ (k : ℕ). some (take k (drop off bytes))) (sym ((==_iff n 0).0 nothing))
  | inr more ↦ skip_if _ _ more ∙ pread_all-exact src bytes serves n off h
]

load_block-stored :
    (z : Zstd) (file : List ℕ) (a : AddSource) (lit : List ℕ) (blk : ℕ)
    → Serves a.file file
    → BlockStored z file a lit blk
    → load_block z a blk ≡ some (piece a lit blk)
unfolding load_block
load_block-stored z file a lit blk serves s = rw (load_block, read, whole) same
  where
    place :
        add64 a.region_off (block_rec a blk).comp_off ≡ a.region_off + (block_rec a blk).comp_off
    place = add64-eq a.region_off (block_rec a blk).comp_off (omega (arith, s.in_file, serves.fits))

    read :
        read_field a.file (block_rec a blk).comp_len (add64 a.region_off (block_rec a blk).comp_off)
        ≡ some (frame file a blk)
    read =
        ap (read_field a.file (block_rec a blk).comp_len) place
        ∙ read_field-exact a.file file _ _ serves s.in_file

    whole : z_decompress z (frame file a blk) (block_rec a blk).uncomp_len ≡ piece a lit blk
    whole = z_decompress-eq z _ _ _ s.frame_eq s.len_eq

    same :
        (if length (piece a lit blk) == (block_rec a blk).uncomp_len
          then some (piece a lit blk)
          else none)
        ≡ some (piece a lit blk)
    same = take_if _ _ ((==_iff _ _).1 s.len_eq)

pub AddStored-AddHolds :
    (z : Zstd) (file : List ℕ) (a : AddSource) (lit : List ℕ)
    → Serves a.file file
    → AddStored z file a lit
    → AddHolds z a lit
AddStored-AddHolds z file a lit serves h = record {
  block_pos = h.block_pos;
  block_fits = h.block_fits;
  lit_fits = h.lit_fits;
  count_fits = h.count_fits;
  enough = h.enough;
  loads = λ blk p. load_block-stored z file a lit blk serves (h.stored blk p);
}
