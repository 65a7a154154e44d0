-- ===== src/Delta/Read/Exact.antt =====
-- The segments and the loop of `DeltaByteSource::pread` in src/vgdelta.cpp, for a well-formed source.
use mathlib.Core.Path.{subst, subst₂}
use vidya_god_fs.Prelude.{
  ℕ, ◌+◌, ◌-◌, ◌^◌, ◌≤◌, ◌<◌, ◌≡◌, refl, sym, ap, ◌∙◌, arith, true, false, List, [], ◌∷◌, ◌++◌,
  Result, ok, length, take, drop, get_or, ltb, leb, ◌==◌, ◌||◌, if◌then◌else◌, lt→ltb, ltb→lt,
  le→ltb, Bool-cases, inl, inr, length-drop, length-slice, length-append, slice_in_slice, drop_cong,
  take_all, drop_all, last_piece, next_piece, append-nil,
}
use vidya_god_fs.Bytes.{add64, add64-eq}
use vidya_god_fs.Delta.Types.{kind_copy, FlatSeg, DeltaByteSource}
use vidya_god_fs.Delta.Zstd.{Zstd}
use vidya_god_fs.Delta.Flat.{sub64}
use vidya_god_fs.Delta.Content.{
  source_of, seg_bytes, content, SegFits, SegsLaid, AddHolds, Holds, length-seg_bytes,
  AddsHold-length, AddsHold-at, get_or_past,
}
use vidya_god_fs.Delta.Read.{BlockCache, read_copy, read_add, read_seg, delta_loop, no_add}
use vidya_god_fs.Delta.Read.Cache.{Coherent}
use vidya_god_fs.Delta.Read.Copy.{read_copy-exact, read_add-exact}

pub sub64-eq : (a b : ℕ) → b ≤ a → a < 2 ^ 64 → sub64 a b ≡ a - b
sub64-eq a b h k = omega arith

-- A range inside a segment, as a range of its source.
pub seg-slice :
    (base : List ℕ) (lits : List (List ℕ)) (s : FlatSeg) (k n : ℕ)
    → k + n ≤ s.len
    → take n (drop k (seg_bytes base lits s))
      ≡ take n (drop (s.src_off + k) (source_of base lits s))
seg-slice base lits s k n h = slice_in_slice n k s.len s.src_off (source_of base lits s) h

module _ (z : Zstd) (d : DeltaByteSource) (base : List ℕ) (lits : List (List ℕ))
    (v : Holds z d base lits) where
  abbrev pub Reads : List ℕ → Result (List ℕ) × BlockCache → Type 0
  Reads bytes r = (r.0 ≡ ok bytes) × Coherent z d.add_sources r.1

  -- A literal segment names a file of the chain: no other has any bytes.
  add_known :
      (s : FlatSeg)
      → SegFits base lits s
      → (s.kind == kind_copy) ≡ false
      → (s.add_src < length lits) × (s.src_off + s.len ≤ length (get_or lits s.add_src []))
  add_known s f e = (known, range)
    where
      range : s.src_off + s.len ≤ length (get_or lits s.add_src [])
      range =
          subst (λ b. s.src_off + s.len ≤ length (if b then base else get_or lits s.add_src [])) e
            f.in_range

      known : s.add_src < length lits
      known = elim (Bool-cases (ltb s.add_src (length lits))) [
        | inl yes_known ↦ ltb→lt _ _ yes_known
        | inr past ↦ absurd (
            omega (arith, range, f.some_len, ap length (get_or_past lits s.add_src (ground arith))))
      ]

  -- The offset in the source, which does not wrap.
  src_at : FlatSeg → ℕ → ℕ
  src_at s pos = add64 s.src_off (sub64 pos s.target_off)

  src_at-eq :
      (s : FlatSeg) (pos : ℕ)
      → s.target_off ≤ pos
      → pos < s.target_off + s.len
      → s.target_off + s.len < 2 ^ 64
      → s.src_off + s.len < 2 ^ 64
      → src_at s pos ≡ s.src_off + (pos - s.target_off)
  unfolding src_at
  src_at-eq s pos p q small fits = omega (arith, sub64-eq pos s.target_off p (omega arith))

  seg_copy :
      (s : FlatSeg) (chunk pos : ℕ) (c : BlockCache)
      → (s.kind == kind_copy) ≡ true
      → read_seg z d s chunk pos c ≡ (read_copy chunk d.base_src chunk (src_at s pos) [], c)
  unfolding read_seg src_at
  seg_copy s chunk pos c e = rw e

  seg_add :
      (s : FlatSeg) (chunk pos : ℕ) (c : BlockCache)
      → (s.kind == kind_copy) ≡ false
      → read_seg z d s chunk pos c
        ≡ read_add z chunk s.add_src
            (get_or d.add_sources s.add_src no_add)
            chunk
            (src_at s pos)
            []
            c
  unfolding read_seg src_at
  seg_add s chunk pos c e = rw e

  source_copy : (s : FlatSeg) → (s.kind == kind_copy) ≡ true → source_of base lits s ≡ base
  source_copy s e = rw e

  source_add :
      (s : FlatSeg)
      → (s.kind == kind_copy) ≡ false
      → source_of base lits s ≡ get_or lits s.add_src []
  source_add s e = rw e

  read_seg-exact :
      (s : FlatSeg) (chunk pos : ℕ) (c : BlockCache)
      → Coherent z d.add_sources c
      → SegFits base lits s
      → s.target_off ≤ pos
      → pos < s.target_off + s.len
      → pos + chunk ≤ s.target_off + s.len
      → s.target_off + s.len < 2 ^ 64
      → Reads
          (take chunk (drop (pos - s.target_off) (seg_bytes base lits s)))
          (read_seg z d s chunk pos c)
  read_seg-exact s chunk pos c coherent f starts inside ends small =
      elim (Bool-cases (s.kind == kind_copy)) [
        | inl copy ↦
            let in_base : s.src_off + s.len ≤ length base =
              subst (λ l. s.src_off + s.len ≤ length l) (source_copy s copy) f.in_range in
            let at : src_at s pos ≡ s.src_off + (pos - s.target_off) =
              src_at-eq s pos starts inside small (omega (arith, v.base_serves.fits)) in
            subst₂ Reads
              (ap (λ t. take chunk (drop (s.src_off + (pos - s.target_off)) t))
                  (sym (source_copy s copy))
                ∙ sym (seg-slice base lits s (pos - s.target_off) chunk (omega arith)))
              (sym (seg_copy s chunk pos c copy))
              (
                read_copy-exact d.base_src base v.base_serves chunk chunk (src_at s pos) []
                      (omega (arith, at)) (omega arith) (omega arith) refl
                    ∙ ap (λ (t : ℕ). ok (take chunk (drop t base))) at,
                coherent,
              )
        | inr literal ↦
            let (known, in_lit) = add_known s f literal in
            let holds : AddHolds z (get_or d.add_sources s.add_src no_add)
                (get_or lits s.add_src []) =
              AddsHold-at z d.add_sources lits s.add_src no_add v.adds_hold known in
            let at : src_at s pos ≡ s.src_off + (pos - s.target_off) =
              src_at-eq s pos starts inside small (omega (arith, holds.lit_fits)) in
            subst₂ Reads
              (ap (λ (t : ℕ). take chunk (drop t (get_or lits s.add_src []))) at
                ∙ ap (λ t. take chunk (drop (s.src_off + (pos - s.target_off)) t))
                    (sym (source_add s literal))
                ∙ sym (seg-slice base lits s (pos - s.target_off) chunk (omega arith)))
              (sym (seg_add s chunk pos c literal))
              (read_add-exact z d.add_sources s.add_src holds v.short_chain
                (omega (arith, AddsHold-length z d.add_sources lits v.adds_hold)) chunk chunk
                (src_at s pos) [] c coherent (omega arith) (omega (arith, at)))
      ]

  -- The loop over the segments, entered inside the first of them.
  loop_step :
      (s : FlatSeg) (segs : List FlatSeg) (want off pos : ℕ) (out bytes : List ℕ) (c : BlockCache)
      → length out < want
      → s.target_off ≤ pos
      → pos < s.target_off + s.len
      → s.target_off + s.len < 2 ^ 64
      → off + want < 2 ^ 64
      → pos < off + want
      → (chunk : ℕ)
      → chunk
        ≡ (if ltb (s.target_off + s.len) (off + want) then s.target_off + s.len else off + want)
          - pos
      → (read_seg z d s chunk pos c).0 ≡ ok bytes
      → delta_loop z d (s ∷ segs) want off pos out c
        ≡ delta_loop z d segs want off
            (add64 pos chunk)
            (out ++ bytes)
            (read_seg z d s chunk pos c).1
  unfolding delta_loop
  loop_step s segs want off pos out bytes c more starts inside small fits asked chunk at got =
      rw
        (
          add64-eq s.target_off s.len small,
          add64-eq off want fits,
          lt→ltb (length out) want more,
          no_gap,
          piece,
          got,
        )
        (ap
          (λ (t : ℕ).
            delta_loop z d segs want off (add64 pos t) (out ++ bytes) (read_seg z d s t pos c).1)
          whole)
    where
      no_gap : (ltb pos s.target_off || leb (s.target_off + s.len) pos) ≡ false
      no_gap = ground arith

      piece :
          sub64
            (if ltb (s.target_off + s.len) (off + want) then s.target_off + s.len else off + want)
            pos
          ≡ chunk
      piece = sub64-eq _ pos (ground arith) (ground arith) ∙ sym at

      whole :
          sub64
            (if ltb (add64 s.target_off s.len) (add64 off want)
              then add64 s.target_off s.len
              else add64 off want)
            pos
          ≡ chunk
      whole = rw (add64-eq s.target_off s.len small, add64-eq off want fits) piece

  loop_done :
      (segs : List FlatSeg) (want off pos : ℕ) (out : List ℕ) (c : BlockCache)
      → want ≤ length out
      → delta_loop z d segs want off pos out c ≡ (ok out, c)
  unfolding delta_loop
  loop_done [] want off pos out c h = refl
  loop_done (s ∷ segs) want off pos out c h = rw (le→ltb (length out) want h)

  abbrev pub InHead : ℕ → ℕ → List FlatSeg → Type 0
  InHead t pos [] = Unit
  InHead t pos (s ∷ segs) = pos < t + s.len

  InHead-start : (t : ℕ) (segs : List FlatSeg) → SegsLaid base lits t segs → InHead t t segs
  InHead-start t [] h = tt
  InHead-start t (s ∷ segs) (e, f, h) = omega (arith, f.some_len)

  pub delta_loop-exact :
      (segs : List FlatSeg) (t want off pos : ℕ) (out : List ℕ) (c : BlockCache)
      → Coherent z d.add_sources c
      → SegsLaid base lits t segs
      → t + length (content base lits segs) < 2 ^ 64
      → t ≤ pos
      → pos ≡ off + length out
      → length out ≤ want
      → off + want ≤ t + length (content base lits segs)
      → InHead t pos segs
      → Reads
          (out ++ take (want - length out) (drop (pos - t) (content base lits segs)))
          (delta_loop z d segs want off pos out c)
  delta_loop-exact [] t want off pos out c coherent laid small starts at le range inside =
      subst₂ Reads
        (sym (
          ap (λ l. out ++ l)
            (take_all (want - length out) _
              (omega (arith, length-drop (pos - t) (content base lits []))))
          ∙ ap (λ l. out ++ l) (drop_all (pos - t) [] (omega arith))
          ∙ append-nil out))
        (sym (loop_done [] want off pos out c (omega arith))) (refl, coherent)
  delta_loop-exact (s ∷ segs) t want off pos out c coherent (e, f, laid) small starts at le range
        inside =
      elim (Bool-cases (ltb (length out) want)) [
        | inr full ↦
            subst₂ Reads
              (sym (
                nothing (want - length out) (drop (pos - t) (content base lits (s ∷ segs)))
                  (ground arith)))
              (sym (loop_done (s ∷ segs) want off pos out c (ground arith))) (refl, coherent)
        | inl more ↦ elim (Bool-cases (ltb (s.target_off + s.len) (off + want))) [
          | inr last ↦
              let chunk : ℕ = want - length out in
              let ends : pos + chunk ≤ s.target_off + s.len = ground (arith, at, e) in
              let (got, next) = piece chunk ends in
              subst₂ Reads
                (last_piece sb (content base lits segs) out (pos - s.target_off) chunk
                    (omega (arith, sb_len))
                  ∙ ap (λ l. out ++ take chunk l)
                      (drop_cong (pos - s.target_off) (pos - t) (content base lits (s ∷ segs))
                        (omega arith)))
                (sym (
                  loop_step s segs want off pos out (bytes chunk) c (ltb→lt _ _ more) (omega arith)
                    (omega arith) bounded (omega arith) (ground arith) chunk (ground arith) got
                  ∙ loop_done segs want off (add64 pos chunk) (out ++ bytes chunk)
                      (read_seg z d s chunk pos c).1
                      (omega (arith, length-append out (bytes chunk), bytes_len chunk ends))))
                (refl, next)
          | inl goes_on ↦
              let chunk : ℕ = s.target_off + s.len - pos in
              let ends : pos + chunk ≤ s.target_off + s.len = omega arith in
              let (got, next) = piece chunk ends in
              let more_asked : s.target_off + s.len < off + want = ltb→lt _ _ goes_on in
              let out_len : length (out ++ bytes chunk) ≡ length out + chunk =
                omega (arith, length-append out (bytes chunk), bytes_len chunk ends) in
              let pos' : add64 pos chunk ≡ t + s.len = omega arith in
              subst₂ Reads
                (ap (λ l. (out ++ bytes chunk) ++ l)
                    (ap
                        (λ (w : ℕ).
                          take w (drop (add64 pos chunk - (t + s.len)) (content base lits segs)))
                        (the_rest (length (out ++ bytes chunk)) chunk out_len)
                      ∙ ap (take (want - length out - chunk)) (
                          drop_cong (add64 pos chunk - (t + s.len)) 0 (content base lits segs)
                            (omega arith)))
                  ∙ next_piece sb (content base lits segs) out (pos - s.target_off) chunk
                      (want - length out) (omega (arith, sb_len)) (omega arith)
                  ∙ ap (λ l. out ++ take (want - length out) l)
                      (drop_cong (pos - s.target_off) (pos - t) (content base lits (s ∷ segs))
                        (omega arith)))
                (sym (
                  loop_step s segs want off pos out (bytes chunk) c (ltb→lt _ _ more) (omega arith)
                    (omega arith) bounded (omega arith) (omega arith) chunk (ground arith) got))
                (delta_loop-exact segs (t + s.len) want off (add64 pos chunk) (out ++ bytes chunk)
                  (read_seg z d s chunk pos c).1 next laid (omega (arith, whole_len)) (omega arith)
                  (omega (arith, out_len)) (omega (arith, out_len)) (omega (arith, whole_len))
                  (subst (λ p. InHead (t + s.len) p segs) (sym pos')
                    (InHead-start (t + s.len) segs laid)))
        ]
      ]
    where
      sb : List ℕ
      sb = seg_bytes base lits s

      sb_len : length (seg_bytes base lits s) ≡ s.len
      sb_len = length-seg_bytes base lits s f

      whole_len : length (content base lits (s ∷ segs)) ≡ s.len + length (content base lits segs)
      whole_len = omega (arith, sb_len, length-append sb (content base lits segs))

      bounded : s.target_off + s.len < 2 ^ 64
      bounded = omega (arith, whole_len)

      bytes : ℕ → List ℕ
      bytes chunk = take chunk (drop (pos - s.target_off) (seg_bytes base lits s))

      bytes_len :
          (chunk : ℕ)
          → pos + chunk ≤ s.target_off + s.len
          → length (take chunk (drop (pos - s.target_off) (seg_bytes base lits s))) ≡ chunk
      bytes_len chunk p =
          length-slice chunk (pos - s.target_off) (seg_bytes base lits s) (omega (arith, sb_len))

      piece :
          (chunk : ℕ)
          → pos + chunk ≤ s.target_off + s.len
          → Reads (bytes chunk) (read_seg z d s chunk pos c)
      piece chunk p = read_seg-exact s chunk pos c coherent f (omega arith) (omega arith) p bounded

      nothing : (w : ℕ) (l : List ℕ) → w ≡ 0 → out ++ take w l ≡ out
      nothing w l h = ap (λ (u : ℕ). out ++ take u l) h ∙ append-nil out

      the_rest : (l chunk : ℕ) → l ≡ length out + chunk → want - l ≡ want - length out - chunk
      the_rest l chunk h = omega arith
