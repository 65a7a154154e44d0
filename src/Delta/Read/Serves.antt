-- ===== src/Delta/Read/Serves.antt =====
-- `DeltaByteSource::pread` of src/vgdelta.cpp as a whole, for a well-formed delta source.
use mathlib.Core.Path.{subst, subst₂, ap₂}
use vidya_god_fs.Prelude.{
  ℕ, ◌-◌, ◌≤◌, ◌<◌, ◌≡◌, refl, sym, ap, ◌∙◌, arith, true, false, List, [], ◌∷◌, Result, ok, length,
  take, drop, ltb, leb, lt→leb, ltb→lt, is_empty, if◌then◌else◌, Bool-cases, inl, inr, length-drop,
  take_all, drop_all, drop_cong, take_cong,
}
use vidya_god_fs.Delta.Types.{FlatSeg, DeltaByteSource}
use vidya_god_fs.Delta.Zstd.{Zstd}
use vidya_god_fs.Delta.Flat.{seg_at}
use vidya_god_fs.Delta.Content.{content, Holds}
use vidya_god_fs.Delta.Locate.{Located, seg_at-Located, HeadCovers}
use vidya_god_fs.Delta.Read.{
  BlockCache, empty_cache, delta_loop, delta_pread, delta_preads, find_block,
}
use vidya_god_fs.Delta.Read.Cache.{Coherent}
use vidya_god_fs.Delta.Read.Exact.{Reads, InHead, sub64-eq, delta_loop-exact}

-- What the reads of a fixed content should reply.
abbrev pub exact_replies : List ℕ → List (ℕ × ℕ) → List (Result (List ℕ))
exact_replies bytes [] = []
exact_replies bytes ((n, off) ∷ requests) =
    ok (take n (drop off bytes)) ∷ exact_replies bytes requests

module _ (z : Zstd) (d : DeltaByteSource) (base : List ℕ) (lits : List (List ℕ))
    (v : Holds z d base lits) where
  -- The content that the source reconstructs.
  abbrev pub whole : List ℕ
  whole = content base lits d.segs

  head_in :
      (t pos : ℕ) (segs : List FlatSeg) → HeadCovers t pos segs → InHead z d base lits v t pos segs
  head_in t pos [] h = tt
  head_in t pos (s ∷ segs) h = h

  segs_left : (segs : List FlatSeg) → 0 < length (content base lits segs) → is_empty segs ≡ false
  segs_left [] h = absurd (omega arith)
  segs_left (s ∷ segs) h = refl

  -- The length of a request, cut at the end of the target.
  abbrev wanted : ℕ → ℕ → ℕ
  wanted n off = if ltb n (length whole - off) then n else length whole - off

  pread_inside :
      (n off : ℕ) (c : BlockCache)
      → off < length whole
      → delta_pread z d n off c
        ≡ delta_loop z d (drop (seg_at d.segs off) d.segs) (wanted n off) off off [] c
  unfolding delta_pread
  pread_inside n off c h =
      rw (lt→leb d.target_size off (omega (arith, v.target_eq)), segs_left d.segs (omega arith))
        (ap
          (λ (left : ℕ).
            delta_loop z d (drop (seg_at d.segs off) d.segs) (if ltb n left then n else left) off
              off [] c)
          (sub64-eq d.target_size off (omega (arith, v.target_eq))
              (omega (arith, v.target_eq, v.target_fits))
            ∙ omega (arith, v.target_eq)))

  pread_past :
      (n off : ℕ) (c : BlockCache) → length whole ≤ off → delta_pread z d n off c ≡ (ok [], c)
  unfolding delta_pread
  pread_past n off c h = rw past
    where
      past : leb d.target_size off ≡ true
      past = ground (arith, v.target_eq)

  -- A read of a well-formed delta source, at any offset and from any coherent cache, returns the
  -- reconstructed bytes there (all that are asked for, or all up to the end) and leaves a coherent
  -- cache: the cache changes no result.
  pub delta_pread-exact :
      (n off : ℕ) (c : BlockCache)
      → Coherent z d.add_sources c
      → ((delta_pread z d n off c).0 ≡ ok (take n (drop off (content base lits d.segs))))
        × Coherent z d.add_sources (delta_pread z d n off c).1
  delta_pread-exact n off c coherent = elim (Bool-cases (ltb off (length whole))) [
    | inr past ↦
        subst₂ (Reads z d base lits v)
          (sym (ap (take n) (drop_all off whole (ground arith)) ∙ take_all n [] (omega arith)))
          (sym (pread_past n off c (ground arith))) (refl, coherent)
    | inl inside ↦
        let h : off < length whole = ltb→lt _ _ inside in
        subst₂ (Reads z d base lits v) (bytes_eq h) (sym (pread_inside n off c h))
          (from_located h (seg_at d.segs off) (seg_at-Located base lits d.segs off v.laid h))
  ]
    where
      bytes_eq : off < length whole → take (wanted n off) (drop off whole) ≡ take n (drop off whole)
      bytes_eq h = elim (Bool-cases (ltb n (length whole - off))) [
        | inl short ↦ take_cong (wanted n off) n (drop off whole) (ground arith)
        | inr long ↦
            take_all (wanted n off) (drop off whole) (ground (arith, length-drop off whole))
            ∙ sym (take_all n (drop off whole) (ground (arith, length-drop off whole)))
      ]

      from_located :
          off < length whole
          → (i : ℕ) → Located base lits d.segs 0 off i
          → Reads z d base lits v
              (take (wanted n off) (drop off whole))
              (delta_loop z d (drop i d.segs) (wanted n off) off off [] c)
      from_located inside i l =
          subst
            (λ b.
              Reads z d base lits v b (delta_loop z d (drop i d.segs) (wanted n off) off off [] c))
            (take_cong (wanted n off - 0) (wanted n off) _ (omega arith)
              ∙ ap (take (wanted n off)) (sym l.view ∙ drop_cong (off - 0) off whole (omega arith)))
            (delta_loop-exact z d base lits v (drop i d.segs) l.start (wanted n off) off off [] c
              coherent l.laid (omega (arith, l.total, v.target_fits)) l.starts (omega arith)
              (omega arith) (ground (arith, l.total, inside))
              (head_in l.start off (drop i d.segs) l.inside))

  no_entries : Coherent z d.add_sources empty_cache
  no_entries a b raw p q e = unfold find_block in cc

  preads_from :
      (requests : List (ℕ × ℕ)) (c : BlockCache)
      → Coherent z d.add_sources c
      → (delta_preads z d requests c).0 ≡ exact_replies (content base lits d.segs) requests
  unfolding delta_preads
  preads_from [] c h = refl
  preads_from ((n, off) ∷ requests) c h =
      let (exact, kept) = delta_pread-exact n off c h in
      ap₂ (λ r rs. r ∷ rs) exact (preads_from requests (delta_pread z d n off c).1 kept)

  -- However many reads a well-formed delta source serves from its creation on, at whatever offsets and in
  -- whatever order, with the block cache kept between them: every one gets the reconstructed bytes at
  -- its offset, all that it asks for or all up to the end.
  pub delta_preads-exact :
      (requests : List (ℕ × ℕ))
      → (delta_preads z d requests empty_cache).0
        ≡ exact_replies (content base lits d.segs) requests
  delta_preads-exact requests = preads_from requests empty_cache no_entries
