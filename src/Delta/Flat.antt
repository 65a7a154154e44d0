-- ===== src/Delta/Flat.antt =====
-- `SegAt` and `DeltaByteSource::Create` of src/vgdelta.cpp: a chain of deltas becomes one flat map.
use vidya_god_fs.Prelude.{
  ℕ, suc, ◌+◌, ◌-◌, ◌^◌, ◌%◌, ◌&&◌, ◌||◌, Bool, false, not, List, [], ◌∷◌, ◌++◌, Option, none, some,
  length, drop, ltb, leb, ◌==◌, if◌then◌else◌,
}
use vidya_god_fs.Bytes.{add64, fnv1a64}
use vidya_god_fs.Source.{ByteSource, pread_all}
use vidya_god_fs.Delta.Types.{
  kind_add, AddSource, FlatSeg, RawSeg, Parsed, DeltaByteSource, Base, plain, composed, base_size,
  null_base, base_size_mismatch, base_hash_mismatch, compose_gap, compose_out_of_range,
  flat_segments_do_not_cover_target, Outcome, done, fail, ◌>>=◌, ◌>>◌,
}
use vidya_god_fs.Delta.Zstd.{Zstd}
use vidya_god_fs.Delta.Parse.{check, parse_delta}

-- uint64_t a - b.
abbrev pub sub64 : ℕ → ℕ → ℕ
sub64 a b = (a + 2 ^ 64 - b) % 2 ^ 64

-- `std::upper_bound` by the offset: the first segment that starts behind `o`.
unfoldable pub upper_bound : List FlatSeg → ℕ → ℕ
upper_bound [] o = 0
upper_bound (s ∷ segs) o = if ltb o s.target_off then 0 else suc (upper_bound segs o)

unfoldable pub seg_at : List FlatSeg → ℕ → ℕ
seg_at segs o = let i = upper_bound segs o in if i == 0 then 0 else i - 1

-- The inner loop of the composition: the range `[m, m + rem)` of the base, piece by piece through
-- the base's segments from `bi` on, which are the list.
unfoldable pub compose_range : List FlatSeg → ℕ → ℕ → Outcome (List FlatSeg)
compose_range [] m rem = if ltb 0 rem then fail compose_out_of_range else done []
compose_range (bs ∷ rest) m rem =
    let bs_end = add64 bs.target_off bs.len in
    let req_end = add64 m rem in
    let take = sub64 (if ltb req_end bs_end then req_end else bs_end) m in
    let more = compose_range rest (add64 m take) (sub64 rem take) in
    if ltb 0 rem
    then (if ltb m bs.target_off || leb bs_end m
        then fail compose_gap
        else (more >>= λ pieces. done (
            record {
              target_off = 0;
              len = take;
              src_off = add64 bs.src_off (sub64 m bs.target_off);
              add_src = bs.add_src;
              kind = bs.kind;
            }
            ∷ pieces)))
    else done []

-- One segment of the upper file, over the base's flat map `base_segs`.
unfoldable pub compose_seg : List FlatSeg → ℕ → RawSeg → Outcome (List FlatSeg)
compose_seg base_segs this_add s =
    if s.kind == kind_add
    then done (
        record {
          target_off = 0;
          len = s.len;
          src_off = s.src_off;
          add_src = this_add;
          kind = kind_add;
        }
        ∷ [])
    else compose_range (drop (seg_at base_segs s.src_off) base_segs) s.src_off s.len

unfoldable pub compose_segs : List FlatSeg → ℕ → List RawSeg → Outcome (List FlatSeg)
compose_segs base_segs this_add [] = done []
compose_segs base_segs this_add (s ∷ segs) = do
  pieces ← compose_seg base_segs this_add s
  rest ← compose_segs base_segs this_add segs
  done (pieces ++ rest)

-- Over a base that is no delta the segments map directly.
unfoldable pub direct_segs : List RawSeg → List FlatSeg
direct_segs [] = []
direct_segs (s ∷ segs) =
    record { target_off = 0; len = s.len; src_off = s.src_off; add_src = 0; kind = s.kind }
    ∷ direct_segs segs

-- The target offsets are the running sums of the lengths; the last sum comes with them.
unfoldable pub set_offsets : ℕ → List FlatSeg → List FlatSeg × ℕ
set_offsets t [] = ([], t)
set_offsets t (s ∷ segs) =
    let (rest, total) = set_offsets (add64 t s.len) segs in
    (record s { target_off = t } ∷ rest, total)

-- `base->preadAll(...)` and the hash test.
unfoldable pub base_matches : ByteSource → ℕ → ℕ → Bool
base_matches base size hash = elim (pread_all base size 0) [
  | none ↦ false
  | some b ↦ fnv1a64 b == hash
]

-- The end of `Create`: the offsets, and the check that they cover the target.
unfoldable pub finish : ByteSource → List AddSource → ℕ → List FlatSeg → Outcome DeltaByteSource
finish base adds target segs =
    let (flat, t) = set_offsets 0 segs in
    if t == target
    then done (record { base_src = base; add_sources = adds; segs = flat; target_size = target })
    else fail flat_segments_do_not_cover_target

unfoldable pub create_over : Parsed → Base → Bool → Outcome DeltaByteSource
create_over p (composed bd) verify_base = do
  segs ← compose_segs bd.segs (length bd.add_sources) p.segs
  finish bd.base_src (bd.add_sources ++ (p.add ∷ [])) p.target_size segs
create_over p (plain base) verify_base =
    if verify_base && not (base_matches base p.base_size p.base_hash)
    then fail base_hash_mismatch
    else finish base (p.add ∷ []) p.target_size (direct_segs p.segs)

unfoldable pub create : Zstd → ByteSource → Option Base → Bool → Outcome DeltaByteSource
create z delta none verify_base = parse_delta z delta >>= λ p. fail null_base
create z delta (some base) verify_base = do
  p ← parse_delta z delta
  check (base_size base == p.base_size) base_size_mismatch
  create_over p base verify_base
