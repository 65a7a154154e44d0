-- ===== src/Delta/Types.antt =====
-- The data of a .vgdelta: src/vgdelta.h, and the parser's types of src/vgdelta.cpp.
use vidya_god_fs.Prelude.{ℕ, List, [], ◌∷◌}
use vidya_god_fs.Source.{ByteSource}

abbrev pub magic : List ℕ
magic = 86 ∷ 71 ∷ 68 ∷ 49 ∷ []

abbrev pub version : ℕ
version = 1

abbrev pub kind_copy : ℕ
kind_copy = 0

abbrev pub kind_add : ℕ
kind_add = 1

abbrev pub header_size : ℕ
header_size = 44

-- Where a literal block's frame lies in the add region, and its two lengths.
pub record BlockRec : Type 0 where
  pub comp_off : ℕ
  pub comp_len : ℕ
  pub uncomp_len : ℕ

-- One file's store of literal blocks.
pub record AddSource : Type 0 where
  pub file : ByteSource
  pub region_off : ℕ
  pub block_size : ℕ
  pub blocks : List BlockRec

-- A resolved segment: a copy from the ultimate base, or literal bytes of `add_sources[add_src]`.
pub record FlatSeg : Type 0 where
  pub target_off : ℕ
  pub len : ℕ
  pub src_off : ℕ
  pub add_src : ℕ
  pub kind : ℕ

-- A segment record of one file, over its immediate base.
pub record RawSeg : Type 0 where
  pub kind : ℕ
  pub len : ℕ
  pub src_off : ℕ

pub record Parsed : Type 0 where
  pub target_size : ℕ
  pub base_size : ℕ
  pub base_hash : ℕ
  pub segs : List RawSeg
  pub add : AddSource

-- The fields of `DeltaByteSource` that do not change; the block cache is the reader's state.
pub record DeltaByteSource : Type 0 where
  pub base_src : ByteSource
  pub add_sources : List AddSource
  pub segs : List FlatSeg
  pub target_size : ℕ

-- A base that may or may not be a `DeltaByteSource` itself: what `dynamic_cast` tells apart.
pub data Base : Type 0 where
  plain : ByteSource → Base
  composed : DeltaByteSource → Base

abbrev pub base_size : Base → ℕ
base_size (plain s) = s.size
base_size (composed d) = d.target_size

-- The messages that `ParseDelta` and `Create` leave in `err`.
pub data DeltaError : Type 0 where
  short_header bad_magic unsupported_version zero_block_size : DeltaError
  short_seg_lens seg_table_size_mismatch short_seg_table seg_table_corrupt : DeltaError
  segments_do_not_cover_target : DeltaError
  short_blk_lens blk_index_size_mismatch short_blk_index blk_index_corrupt : DeltaError
  null_base base_size_mismatch base_hash_mismatch : DeltaError
  compose_gap compose_out_of_range flat_segments_do_not_cover_target : DeltaError

pub data Outcome {ℓ} (A : Type ℓ) : Type ℓ where
  done : A → Outcome A
  fail : DeltaError → Outcome A

infixl 5 ◌>>=◌ ◌>>◌
abbrev pub ◌>>=◌ {ℓ κ} : {A : Type ℓ} {B : Type κ} → Outcome A → (A → Outcome B) → Outcome B
done a >>= f = f a
fail e >>= f = fail e

abbrev pub ◌>>◌ {ℓ} : {B : Type ℓ} → Outcome (Unit {0}) → Outcome B → Outcome B
m >> k = m >>= λ _. k
