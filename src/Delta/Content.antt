-- ===== src/Delta/Content.antt =====
-- What a flat map stands for: the bytes of its segments, one behind the other. `base` is the content
-- of the ultimate base, and `lits` the literal stream of each file of the chain.
use vidya_god_fs.Prelude.{
  ℕ, zero, suc, ◌+◌, ◌*◌, ◌≤◌, ◌<◌, ◌^◌, ◌≡◌, refl, ap, arith, List, [], ◌∷◌, ◌++◌, some, length,
  take, drop, get_or, ◌==◌, if◌then◌else◌, length-slice,
}
use vidya_god_fs.Source.Exact.{Serves}
use vidya_god_fs.Delta.Types.{kind_copy, AddSource, FlatSeg, DeltaByteSource}
use vidya_god_fs.Delta.Zstd.{Zstd}
use vidya_god_fs.Delta.Read.{load_block}

abbrev pub source_of : List ℕ → List (List ℕ) → FlatSeg → List ℕ
source_of base lits s = if s.kind == kind_copy then base else get_or lits s.add_src []

abbrev pub seg_bytes : List ℕ → List (List ℕ) → FlatSeg → List ℕ
seg_bytes base lits s = take s.len (drop s.src_off (source_of base lits s))

abbrev pub content : List ℕ → List (List ℕ) → List FlatSeg → List ℕ
content base lits [] = []
content base lits (s ∷ segs) = seg_bytes base lits s ++ content base lits segs

-- A segment is not empty and reads within its source.
pub record SegFits (base : List ℕ) (lits : List (List ℕ)) (s : FlatSeg) : Type 0 where
  pub some_len : 0 < s.len
  pub in_range : s.src_off + s.len ≤ length (source_of base lits s)

-- The segments lie gap-free from `t` on.
abbrev pub SegsLaid : List ℕ → List (List ℕ) → ℕ → List FlatSeg → Type 0
SegsLaid base lits t [] = Unit
SegsLaid base lits t (s ∷ segs) =
    (s.target_off ≡ t) × SegFits base lits s × SegsLaid base lits (t + s.len) segs

-- A file's blocks hold its literal stream, cut into pieces of the block size.
pub record AddHolds (z : Zstd) (a : AddSource) (lit : List ℕ) : Type 0 where
  pub block_pos : 0 < a.block_size
  pub block_fits : a.block_size < 2 ^ 32
  pub lit_fits : length lit < 2 ^ 64
  pub count_fits : length a.blocks < 2 ^ 40
  pub enough : length lit ≤ length a.blocks * a.block_size
  pub loads :
      (blk : ℕ)
      → blk * a.block_size < length lit
      → load_block z a blk ≡ some (take a.block_size (drop (blk * a.block_size) lit))

abbrev pub AddsHold : Zstd → List AddSource → List (List ℕ) → Type 0
AddsHold z [] [] = Unit
AddsHold z (a ∷ adds) (lit ∷ lits) = AddHolds z a lit × AddsHold z adds lits
AddsHold z _ _ = ⊥

-- A well-formed delta source over the content `base` with the literal streams `lits`. The bound on
-- the chain keeps the cache's keys apart.
pub record Holds (z : Zstd) (d : DeltaByteSource) (base : List ℕ) (lits : List (List ℕ))
    : Type 0 where
  pub base_serves : Serves d.base_src base
  pub adds_hold : AddsHold z d.add_sources lits
  pub short_chain : length d.add_sources ≤ 2 ^ 24
  pub laid : SegsLaid base lits 0 d.segs
  pub target_eq : d.target_size ≡ length (content base lits d.segs)
  pub target_fits : length (content base lits d.segs) < 2 ^ 64

pub length-seg_bytes :
    (base : List ℕ) (lits : List (List ℕ)) (s : FlatSeg)
    → SegFits base lits s
    → length (seg_bytes base lits s) ≡ s.len
length-seg_bytes base lits s f = length-slice s.len s.src_off (source_of base lits s) f.in_range

pub AddsHold-length :
    (z : Zstd) (adds : List AddSource) (lits : List (List ℕ))
    → AddsHold z adds lits
    → length adds ≡ length lits
AddsHold-length z [] [] h = refl
AddsHold-length z [] (l ∷ lits) h = elim h [ ]
AddsHold-length z (a ∷ adds) [] h = elim h [ ]
AddsHold-length z (a ∷ adds) (l ∷ lits) (h, hs) = ap suc (AddsHold-length z adds lits hs)

pub AddsHold-at :
    (z : Zstd) (adds : List AddSource) (lits : List (List ℕ)) (i : ℕ) (d : AddSource)
    → AddsHold z adds lits
    → i < length lits
    → AddHolds z (get_or adds i d) (get_or lits i [])
AddsHold-at z [] [] i d h lt = absurd (omega arith)
AddsHold-at z [] (l ∷ lits) i d h lt = elim h [ ]
AddsHold-at z (a ∷ adds) [] i d h lt = elim h [ ]
AddsHold-at z (a ∷ adds) (l ∷ lits) zero d (h, hs) lt = h
AddsHold-at z (a ∷ adds) (l ∷ lits) (suc i) d (h, hs) lt =
    AddsHold-at z adds lits i d hs (omega arith)

pub get_or_past : (lits : List (List ℕ)) (i : ℕ) → length lits ≤ i → get_or lits i [] ≡ []
get_or_past [] i h = refl
get_or_past (l ∷ lits) zero h = absurd (omega arith)
get_or_past (l ∷ lits) (suc i) h = get_or_past lits i (omega arith)
