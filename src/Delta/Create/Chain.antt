-- ===== src/Delta/Create/Chain.antt =====
-- `Create` of src/vgdelta.cpp over another delta source.
use mathlib.Core.Path.{subst, ap₂}
use vidya_god_fs.Prelude.{
  ℕ, zero, suc, ◌+◌, ◌-◌, ◌≤◌, ◌<◌, ◌^◌, ◌≡◌, refl, sym, ap, ◌∙◌, arith, Bool, false, List, [], ◌∷◌,
  ◌++◌, inl, inr, length, take, drop, get_or, ltb, ◌==◌, ==_iff, if◌then◌else◌, Bool-cases, some,
  length-append, drop_cong, append-nil, get_or-append, get_or-append_length, ltb→lt,
}
use vidya_god_fs.Delta.Types.{
  kind_copy, kind_add, AddSource, FlatSeg, RawSeg, Parsed, DeltaByteSource, composed, done,
}
use vidya_god_fs.Delta.Zstd.{Zstd}
use vidya_god_fs.Delta.Flat.{
  create, seg_at, compose_range, compose_seg, compose_segs, finish, create_over,
}
use vidya_god_fs.Delta.Content.{
  source_of, seg_bytes, content, SegFits, SegsLaid, AddHolds, AddsHold, Holds, get_or_past,
  AddsHold-length,
}
use vidya_god_fs.Delta.Locate.{Located, seg_at-Located, HeadCovers}
use vidya_god_fs.Delta.Compose.{AllFit-append, content-append, Pieces, compose_range-Pieces, InHead}
use vidya_god_fs.Delta.Parse.{parse_delta}
use vidya_god_fs.Source.{ByteSource}
use vidya_god_fs.Delta.Create.{
  raw_source, raw_content, RawFits, AllRawFit, Rebuilds, finish-Rebuilds, create-passes,
}

-- One more literal stream changes nothing for the segments that fitted before.
module _ (base : List ℕ) (lits : List (List ℕ)) (lit : List ℕ) where
  abbrev more : List (List ℕ)
  more = lits ++ (lit ∷ [])

  source_of-more :
      (s : FlatSeg) → SegFits base lits s → source_of base more s ≡ source_of base lits s
  source_of-more s f = elim (Bool-cases (s.kind == kind_copy)) [
    | inl copy ↦ rw copy
    | inr literal ↦ rw literal (get_or-append lits (lit ∷ []) s.add_src [] (known literal))
  ]
    where
      known : (s.kind == kind_copy) ≡ false → s.add_src < length lits
      known literal = elim (Bool-cases (ltb s.add_src (length lits))) [
        | inl within ↦ ltb→lt _ _ within
        | inr past ↦ absurd (
            omega (
              arith,
              f.some_len,
              subst (λ b. s.src_off + s.len ≤ length (if b then base else get_or lits s.add_src []))
                  literal f.in_range,
              ap length (get_or_past lits s.add_src (ground arith)),
            ))
      ]

  SegsLaid-more :
      (t : ℕ) (segs : List FlatSeg)
      → SegsLaid base lits t segs
      → SegsLaid base more t segs × (content base more segs ≡ content base lits segs)
  SegsLaid-more t [] h = (tt, refl)
  SegsLaid-more t (s ∷ segs) (e, f, h) =
      let (laid, same) = SegsLaid-more (t + s.len) segs h in
      let src = source_of-more s f in
      (
        (e, record { some_len = f.some_len; in_range = rw src f.in_range }, laid),
        ap₂ (λ a b. a ++ b) (ap (λ l. take s.len (drop s.src_off l)) src) same,
      )

AddsHold-more :
    (z : Zstd) (adds : List AddSource) (lits : List (List ℕ)) (a : AddSource) (lit : List ℕ)
    → AddsHold z adds lits
    → AddHolds z a lit
    → AddsHold z (adds ++ (a ∷ [])) (lits ++ (lit ∷ []))
AddsHold-more z [] [] a lit h k = (k, tt)
AddsHold-more z [] (l ∷ lits) a lit h k = elim h [ ]
AddsHold-more z (b ∷ adds) [] a lit h k = elim h [ ]
AddsHold-more z (b ∷ adds) (l ∷ lits) a lit (hb, h) k = (hb, AddsHold-more z adds lits a lit h k)

lits_fit :
    (z : Zstd) (adds : List AddSource) (lits : List (List ℕ)) (i : ℕ)
    → AddsHold z adds lits
    → length (get_or lits i []) < 2 ^ 64
lits_fit z [] [] i h = omega arith
lits_fit z [] (l ∷ lits) i h = elim h [ ]
lits_fit z (a ∷ adds) [] i h = elim h [ ]
lits_fit z (a ∷ adds) (l ∷ lits) zero (ha, h) = ha.lit_fits
lits_fit z (a ∷ adds) (l ∷ lits) (suc i) (ha, h) = lits_fit z adds lits i h

source_fits :
    (z : Zstd) (adds : List AddSource) (base : List ℕ) (lits : List (List ℕ))
    → length base < 2 ^ 64
    → AddsHold z adds lits
    → (s : FlatSeg) → length (source_of base lits s) < 2 ^ 64
source_fits z adds base lits small h s = elim (Bool-cases (s.kind == kind_copy)) [
  | inl copy ↦ rw copy small
  | inr literal ↦ rw literal (lits_fit z adds lits s.add_src h)
]

module _ (base : List ℕ) (lits : List (List ℕ)) (lit : List ℕ) (segs : List FlatSeg)
    (laid : SegsLaid base (lits ++ (lit ∷ [])) 0 segs)
    (small : length (content base (lits ++ (lit ∷ [])) segs) < 2 ^ 64)
    (sources : (s : FlatSeg) → length (source_of base (lits ++ (lit ∷ [])) s) < 2 ^ 64) where
  abbrev all_lits : List (List ℕ)
  all_lits = lits ++ (lit ∷ [])

  abbrev under : List ℕ
  under = content base all_lits segs

  head_in : (t pos : ℕ) (l : List FlatSeg) → HeadCovers t pos l → InHead base all_lits t pos l
  head_in t pos [] h = tt
  head_in t pos (s ∷ l) h = h

  compose_seg-literal :
      (s : RawSeg)
      → s.kind ≡ kind_add
      → compose_seg segs (length lits) s
        ≡ done (
            record {
              target_off = 0;
              len = s.len;
              src_off = s.src_off;
              add_src = length lits;
              kind = kind_add;
            }
            ∷ [])
  unfolding compose_seg
  compose_seg-literal s e = rw ((==_iff s.kind kind_add).1 e)

  compose_seg-copy :
      (s : RawSeg)
      → s.kind ≡ kind_copy
      → compose_seg segs (length lits) s
        ≡ compose_range (drop (seg_at segs s.src_off) segs) s.src_off s.len
  unfolding compose_seg
  compose_seg-copy s e = rw (other)
    where
      other : (s.kind == kind_add) ≡ false
      other = ground arith

  raw_source-copy : (s : RawSeg) → s.kind ≡ kind_copy → raw_source under lit s ≡ under
  raw_source-copy s e = rw ((==_iff s.kind kind_copy).1 e)

  raw_source-literal : (s : RawSeg) → s.kind ≡ kind_add → raw_source under lit s ≡ lit
  raw_source-literal s e = rw (other)
    where
      other : (s.kind == kind_copy) ≡ false
      other = ground arith

  literal_source : get_or all_lits (length lits) [] ≡ lit
  literal_source = get_or-append_length lits lit []

  literal-Pieces :
      (s : RawSeg)
      → s.kind ≡ kind_add
      → 0 < s.len
      → s.src_off + s.len ≤ length lit
      → Pieces base all_lits (compose_seg segs (length lits) s) (take s.len (drop s.src_off lit))
  literal-Pieces s e pos range = record {
    pieces = literal ∷ [];
    composed = compose_seg-literal s e;
    fit = (
      record {
        some_len = pos;
        in_range = subst (λ l. s.src_off + s.len ≤ length l) (sym literal_source) range;
      },
      tt,
    );
    same_bytes =
        append-nil (seg_bytes base all_lits literal)
        ∙ ap (λ l. take s.len (drop s.src_off l)) literal_source;
  }
    where
      literal : FlatSeg
      literal = record {
        target_off = 0;
        len = s.len;
        src_off = s.src_off;
        add_src = length lits;
        kind = kind_add;
      }

  copy_at :
      (off len i : ℕ)
      → Located base all_lits segs 0 off i
      → off + len ≤ length under
      → Pieces base all_lits (compose_range (drop i segs) off len) (take len (drop off under))
  copy_at off len i l range =
      subst (Pieces base all_lits (compose_range (drop i segs) off len))
        (ap (take len) (sym l.view ∙ drop_cong (off - 0) off under (omega arith)))
        (compose_range-Pieces base all_lits sources (drop i segs) l.start off len l.laid
          (omega (arith, l.total)) l.starts (head_in l.start off (drop i segs) l.inside)
          (omega (arith, l.total)))

  copy-Pieces :
      (s : RawSeg)
      → s.kind ≡ kind_copy
      → 0 < s.len
      → s.src_off + s.len ≤ length under
      → Pieces base all_lits (compose_seg segs (length lits) s) (take s.len (drop s.src_off under))
  copy-Pieces s e pos range =
      subst (λ r. Pieces base all_lits r (take s.len (drop s.src_off under)))
        (sym (compose_seg-copy s e))
        (copy_at s.src_off s.len (seg_at segs s.src_off)
          (seg_at-Located base all_lits segs s.src_off laid (omega arith)) range)

  compose_seg-Pieces :
      (s : RawSeg)
      → RawFits under lit s
      → Pieces base all_lits
          (compose_seg segs (length lits) s)
          (take s.len (drop s.src_off (raw_source under lit s)))
  compose_seg-Pieces s f = elim f.known [
    | inl copy ↦
        let same = raw_source-copy s copy in
        subst
          (λ l.
            Pieces base all_lits (compose_seg segs (length lits) s) (take s.len (drop s.src_off l)))
          (sym same)
          (copy-Pieces s copy f.some_len
            (subst (λ l. s.src_off + s.len ≤ length l) same f.in_range))
    | inr literal ↦
        let same = raw_source-literal s literal in
        subst
          (λ l.
            Pieces base all_lits (compose_seg segs (length lits) s) (take s.len (drop s.src_off l)))
          (sym same)
          (literal-Pieces s literal f.some_len
            (subst (λ l. s.src_off + s.len ≤ length l) same f.in_range))
  ]

  compose_segs-Pieces :
      (raws : List RawSeg)
      → AllRawFit under lit raws
      → Pieces base all_lits (compose_segs segs (length lits) raws) (raw_content under lit raws)
  compose_segs-Pieces [] h = record {
    pieces = [];
    composed = unfold compose_segs in refl;
    fit = tt;
    same_bytes = refl;
  }
  compose_segs-Pieces (s ∷ raws) (f, h) =
      joined s raws (compose_seg-Pieces s f) (compose_segs-Pieces raws h)
    where
      joined :
          (s : RawSeg) (raws : List RawSeg)
          → Pieces base all_lits
              (compose_seg segs (length lits) s)
              (take s.len (drop s.src_off (raw_source under lit s)))
          → Pieces base all_lits (compose_segs segs (length lits) raws) (raw_content under lit raws)
          → Pieces base all_lits
              (compose_segs segs (length lits) (s ∷ raws))
              (raw_content under lit (s ∷ raws))
      joined s raws p q = record {
        pieces = p.pieces ++ q.pieces;
        composed = unfold compose_segs in rw (p.composed, q.composed);
        fit = AllFit-append base all_lits p.pieces q.pieces p.fit q.fit;
        same_bytes =
            content-append base all_lits p.pieces q.pieces
            ∙ ap₂ (λ a b. a ++ b) p.same_bytes q.same_bytes;
      }

over-composed :
    (z : Zstd) (p : Parsed) (bd : DeltaByteSource) (base bytes : List ℕ) (lits all : List (List ℕ))
    (verify : Bool) (ps : List FlatSeg)
    → length bd.add_sources ≡ length lits
    → compose_segs bd.segs (length lits) p.segs ≡ done ps
    → Rebuilds z
        (finish bd.base_src (bd.add_sources ++ (p.add ∷ [])) p.target_size ps)
        base
        all
        bytes
    → Rebuilds z (create_over p (composed bd) verify) base all bytes
unfolding create_over
over-composed z p bd base bytes lits all verify ps e f r = rw (e, f) r

-- The part of `Create` behind its checks, over another delta source.
create_over-composed :
    (z : Zstd) (p : Parsed) (bd : DeltaByteSource) (base lit : List ℕ) (lits : List (List ℕ))
    (verify : Bool)
    → Holds z bd base lits
    → length base < 2 ^ 64
    → AddHolds z p.add lit
    → AllRawFit (content base lits bd.segs) lit p.segs
    → suc (length bd.add_sources) ≤ 2 ^ 24
    → p.target_size ≡ length (raw_content (content base lits bd.segs) lit p.segs)
    → length (raw_content (content base lits bd.segs) lit p.segs) < 2 ^ 64
    → Rebuilds z
        (create_over p (composed bd) verify)
        base
        (lits ++ (lit ∷ []))
        (raw_content (content base lits bd.segs) lit p.segs)
create_over-composed z p bd base lit lits verify h small add fits short size bounded =
    let (laid, same) = SegsLaid-more base lits lit 0 bd.segs h.laid in
    let adds = AddsHold-more z bd.add_sources lits p.add lit h.adds_hold add in
    let fits' = subst (λ u. AllRawFit u lit p.segs) (sym same) fits in
    let pieces =
      compose_segs-Pieces base lits lit bd.segs laid (omega (arith, h.target_fits, ap length same))
        (source_fits z (bd.add_sources ++ (p.add ∷ [])) base (lits ++ (lit ∷ [])) small adds) p.segs
        fits' in
    over-composed z p bd base _ lits _ verify pieces.pieces
      (AddsHold-length z bd.add_sources lits h.adds_hold) pieces.composed
      (finish-Rebuilds z bd.base_src (bd.add_sources ++ (p.add ∷ [])) base (lits ++ (lit ∷ []))
        pieces.pieces p.target_size _ h.base_serves adds
        (omega (arith, short, length-append bd.add_sources (p.add ∷ []))) pieces.fit
        (pieces.same_bytes ∙ ap (λ u. raw_content u lit p.segs) same) size bounded)

-- On a file that parses, over another delta source of the size that the header names, whose content is
-- `content base lits bd.segs`, `Create` succeeds and gives a source over the same ultimate base and one
-- more literal stream. It reconstructs the file's segments read against that content, provided that they
-- fit, the target size in the header is theirs and the chain has at most 2 ^ 24 files.
pub create-composed :
    (z : Zstd) (delta : ByteSource) (p : Parsed) (bd : DeltaByteSource) (base lit : List ℕ)
    (lits : List (List ℕ)) (verify : Bool)
    → parse_delta z delta ≡ done p
    → bd.target_size ≡ p.base_size
    → Holds z bd base lits
    → length base < 2 ^ 64
    → AddHolds z p.add lit
    → AllRawFit (content base lits bd.segs) lit p.segs
    → suc (length bd.add_sources) ≤ 2 ^ 24
    → p.target_size ≡ length (raw_content (content base lits bd.segs) lit p.segs)
    → length (raw_content (content base lits bd.segs) lit p.segs) < 2 ^ 64
    → Rebuilds z
        (create z delta (some (composed bd)) verify)
        base
        (lits ++ (lit ∷ []))
        (raw_content (content base lits bd.segs) lit p.segs)
create-composed z delta p bd base lit lits verify parsed sized h small add fits short size bounded =
    subst
      (λ r.
        Rebuilds z r base (lits ++ (lit ∷ [])) (raw_content (content base lits bd.segs) lit p.segs))
      (sym (create-passes z delta p (composed bd) verify parsed sized))
      (create_over-composed z p bd base lit lits verify h small add fits short size bounded)
