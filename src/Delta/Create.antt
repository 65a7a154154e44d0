-- ===== src/Delta/Create.antt =====
-- `Create`: what the delta source that it builds reconstructs, over a plain base and over another
-- delta source. Both are stated against one reading of a file's segments, `raw_content`.
pub mod Chain
pub mod Served
use mathlib.Core.Path.{subst, ap₂}
use vidya_god_fs.Prelude.{
  ℕ, zero, suc, ◌+◌, ◌-◌, ◌≤◌, ◌<◌, ◌^◌, ◌≡◌, refl, sym, ap, ◌∙◌, arith, Bool, true, false, List,
  [], ◌∷◌, ◌++◌, ◌⊎◌, inl, inr, length, take, drop, get_or, ltb, ◌==◌, ==_iff, if◌then◌else◌,
  Bool-cases, ◌&&◌, not, Option, some, skip_if, take_all, length-append, length-slice, take_cong,
  drop_cong, append-nil, get_or-append, get_or-append_length, ltb→lt,
}
use vidya_god_fs.Source.{ByteSource, pread_all}
use vidya_god_fs.Source.Exact.{Serves, pread_all-exact}
use vidya_god_fs.Delta.Types.{
  kind_copy, kind_add, AddSource, FlatSeg, RawSeg, Parsed, DeltaByteSource, Base, plain, base_size,
  composed, Outcome, done, fail, ◌>>=◌,
}
use vidya_god_fs.Delta.Zstd.{Zstd}
use vidya_god_fs.Delta.Flat.{
  seg_at, compose_range, compose_seg, compose_segs, direct_segs, set_offsets, finish, create_over,
  base_matches, create,
}
use vidya_god_fs.Delta.Parse.{parse_delta}
use vidya_god_fs.Bytes.{fnv1a64}
use vidya_god_fs.Delta.Content.{
  source_of, seg_bytes, content, SegFits, SegsLaid, AddHolds, AddsHold, Holds, length-seg_bytes,
  get_or_past, AddsHold-length,
}
use vidya_god_fs.Delta.Locate.{Located, seg_at-Located, HeadCovers}
use vidya_god_fs.Delta.Compose.{
  AllFit, AllFit-append, content-append, set_offsets-SegsLaid, Pieces, compose_range-Pieces, InHead,
}

-- A file's segments read against the bytes of its immediate base and its own literal stream.
abbrev pub raw_source : List ℕ → List ℕ → RawSeg → List ℕ
raw_source under lit s = if s.kind == kind_copy then under else lit

abbrev pub raw_content : List ℕ → List ℕ → List RawSeg → List ℕ
raw_content under lit [] = []
raw_content under lit (s ∷ segs) =
    take s.len (drop s.src_off (raw_source under lit s)) ++ raw_content under lit segs

-- A segment of a known kind that is not empty and reads within its source.
pub record RawFits (under lit : List ℕ) (s : RawSeg) : Type 0 where
  pub known : (s.kind ≡ kind_copy) ⊎ (s.kind ≡ kind_add)
  pub some_len : 0 < s.len
  pub in_range : s.src_off + s.len ≤ length (raw_source under lit s)

abbrev pub AllRawFit : List ℕ → List ℕ → List RawSeg → Type 0
AllRawFit under lit [] = Unit
AllRawFit under lit (s ∷ segs) = RawFits under lit s × AllRawFit under lit segs

-- A delta source that reconstructs `bytes`.
pub record Rebuilds (z : Zstd) (r : Outcome DeltaByteSource) (base : List ℕ) (lits : List (List ℕ))
    (bytes : List ℕ) : Type 0 where
  pub source : DeltaByteSource
  pub created : r ≡ done source
  pub holds : Holds z source base lits
  pub same_bytes : content base lits source.segs ≡ bytes

-- The end of `Create`, from segments that fit.
pub finish-Rebuilds :
    (z : Zstd) (src : ByteSource) (adds : List AddSource) (base : List ℕ) (lits : List (List ℕ))
    (segs : List FlatSeg) (target : ℕ) (bytes : List ℕ)
    → Serves src base
    → AddsHold z adds lits
    → length adds ≤ 2 ^ 24
    → AllFit base lits segs
    → content base lits segs ≡ bytes
    → target ≡ length bytes
    → length bytes < 2 ^ 64
    → Rebuilds z (finish src adds target segs) base lits bytes
finish-Rebuilds z src adds base lits segs target bytes serves adds_hold short fit same size small =
    let (laid, total, kept) =
      set_offsets-SegsLaid base lits 0 segs fit (omega (arith, ap length same)) in
    record {
      source = record {
        base_src = src;
        add_sources = adds;
        segs = (set_offsets 0 segs).0;
        target_size = target;
      };
      created = ended (omega (arith, total, ap length same));
      holds = record {
        base_serves = serves;
        adds_hold = adds_hold;
        short_chain = short;
        laid = laid;
        target_eq = omega (arith, ap length kept, ap length same);
        target_fits = omega (arith, ap length kept, ap length same);
      };
      same_bytes = kept ∙ same;
    }
  where
    ended :
        (set_offsets 0 segs).1 ≡ target
        → finish src adds target segs
          ≡ done (record {
            base_src = src;
            add_sources = adds;
            segs = (set_offsets 0 segs).0;
            target_size = target;
          })
    ended e = unfold finish in rw ((==_iff _ _).1 e)

-- Over a base that is no delta.
direct-fit :
    (under lit : List ℕ) (segs : List RawSeg)
    → AllRawFit under lit segs
    → AllFit under (lit ∷ []) (direct_segs segs)
      × (content under (lit ∷ []) (direct_segs segs) ≡ raw_content under lit segs)
unfolding direct_segs
direct-fit under lit [] h = (tt, refl)
direct-fit under lit (s ∷ segs) (f, h) =
    let (fit, same) = direct-fit under lit segs h in
    (
      (record { some_len = f.some_len; in_range = f.in_range }, fit),
      ap (λ t. take s.len (drop s.src_off (raw_source under lit s)) ++ t) same,
    )

-- The test of the base's hash passes on a base of the hash that the file names.
hash_passes :
    (src : ByteSource) (under : List ℕ) (hash : ℕ) (verify : Bool)
    → Serves src under
    → (verify ≡ true → fnv1a64 under ≡ hash)
    → (verify && not (base_matches src (length under) hash)) ≡ false
unfolding base_matches
hash_passes src under hash false serves same = refl
hash_passes src under hash true serves same = ap not (
    matched (
      pread_all-exact src under serves (length under) 0 (omega arith)
      ∙ ap some (take_all (length under) under (omega arith))))
  where
    matched :
        pread_all src (length under) 0 ≡ some under → base_matches src (length under) hash ≡ true
    matched e = rw (base_matches, e) ((==_iff (fnv1a64 under) hash).1 (same refl))

-- The part of `Create` behind its checks, over a base that is no delta.
create_over-plain :
    (z : Zstd) (p : Parsed) (src : ByteSource) (under lit : List ℕ) (verify : Bool)
    → p.base_size ≡ length under
    → (verify ≡ true → fnv1a64 under ≡ p.base_hash)
    → Serves src under
    → AddHolds z p.add lit
    → AllRawFit under lit p.segs
    → p.target_size ≡ length (raw_content under lit p.segs)
    → length (raw_content under lit p.segs) < 2 ^ 64
    → Rebuilds z (create_over p (plain src) verify) under (lit ∷ []) (raw_content under lit p.segs)
unfolding create_over
create_over-plain z p src under lit verify sized hashed serves add fits size small =
    let (fit, same) = direct-fit under lit p.segs fits in
    subst (λ r. Rebuilds z r under (lit ∷ []) (raw_content under lit p.segs))
      (sym (
        skip_if _ _ (
          ap (λ n. verify && not (base_matches src n p.base_hash)) sized
          ∙ hash_passes src under p.base_hash verify serves hashed)))
      (finish-Rebuilds z src (p.add ∷ []) under (lit ∷ []) (direct_segs p.segs) p.target_size _
        serves (add, tt) (omega arith) fit same size small)

-- `Create` on a file that parses and names the size of its base, which is then built over that base.
pub create-passes :
    (z : Zstd) (delta : ByteSource) (p : Parsed) (base : Base) (verify : Bool)
    → parse_delta z delta ≡ done p
    → base_size base ≡ p.base_size
    → create z delta (some base) verify ≡ create_over p base verify
unfolding create
create-passes z delta p base verify parsed sized =
    rw (parsed) (rw ((==_iff (base_size base) p.base_size).1 sized) refl)

-- On a file that parses, over a base that is no delta, has the size that the header names and, if
-- `verify_base` is set, also the hash, `Create` succeeds and gives a source that reconstructs the file's
-- segments read against the base, provided that they fit and the target size in the header is theirs.
pub create-plain :
    (z : Zstd) (delta : ByteSource) (p : Parsed) (src : ByteSource) (under lit : List ℕ)
    (verify : Bool)
    → parse_delta z delta ≡ done p
    → p.base_size ≡ length under
    → (verify ≡ true → fnv1a64 under ≡ p.base_hash)
    → Serves src under
    → AddHolds z p.add lit
    → AllRawFit under lit p.segs
    → p.target_size ≡ length (raw_content under lit p.segs)
    → length (raw_content under lit p.segs) < 2 ^ 64
    → Rebuilds z
        (create z delta (some (plain src)) verify)
        under
        (lit ∷ [])
        (raw_content under lit p.segs)
create-plain z delta p src under lit verify parsed sized hashed serves add fits size small =
    subst (λ r. Rebuilds z r under (lit ∷ []) (raw_content under lit p.segs))
      (sym (create-passes z delta p (plain src) verify parsed (serves.size_eq ∙ sym sized)))
      (create_over-plain z p src under lit verify sized hashed serves add fits size small)
