-- ===== src/Source/Concat.antt =====
-- `ConcatByteSource` of src/bytesource.h: what it serves.
pub mod Parts
pub mod Search
use vidya_god_fs.Prelude.{
  ℕ, zero, suc, ◌+◌, ◌-◌, ◌/◌, ◌≤◌, ◌<◌, ◌^◌, ◌≡◌, refl, sym, ap, ◌∙◌, arith, leb→le, List, [], ◌∷◌,
  ◌++◌, true, false, Option, none, some, ok, length, take, drop, get_or, ltb, leb, ◌==◌, ◌&&◌, ◌||◌,
  lt→ltb, ltb→lt, if◌then◌else◌, length-drop, length-append, take-append_le, drop-append_le,
  drop-append_ge, drop-drop, drop_cong, take_cong, slice_extend, take_all, drop_all, Bool-cases,
  inl, inr,
}
use mathlib.Core.Path.{subst}
use vidya_god_fs.Bytes.{add64, add64-eq}
use vidya_god_fs.Source.{
  ByteSource, Part, null_source, concat_parts, no_part, find_part, concat_loop, concat_pread,
  concat_source,
}
use vidya_god_fs.Source.Exact.{Serves, reads_full, Chunk, read-Chunk}
use vidya_god_fs.Source.Concat.Parts.{
  Laid, Laid-at, Laid-head, Laid-nil, PartAt, ServesAll, concat_parts-Laid, joined,
}
use vidya_god_fs.Source.Concat.Search.{
  Covers, Covers-bound, Covers-no_gap, Covers-slice, find_part-Covers,
}

module _ (parts : List Part) (bss : List (List ℕ)) (laid : Laid 0 parts bss)
    (fits : length (joined bss) < 2 ^ 64) where
  abbrev whole : List ℕ
  whole = joined bss

  abbrev covering : ℕ → ℕ
  covering pos = find_part (length parts) parts pos 0 (length parts)

  -- The length of the next read: to the end of the part, or to the end of the request.
  abbrev want : ℕ → ℕ → ℕ
  want rest pos =
      let pt = get_or parts (covering pos) no_part in
      let avail = pt.len - (pos - pt.start) in if ltb avail rest then avail else rest

  concat_step :
      (fuel n off : ℕ) (buf chunk : List ℕ)
      → length buf < n
      → off + length buf < length whole
      → Covers parts whole (off + length buf) (covering (off + length buf))
      → (get_or parts (covering (off + length buf)) no_part).src.pread
          (want (n - length buf) (off + length buf))
          (off + length buf - (get_or parts (covering (off + length buf)) no_part).start)
        ≡ ok chunk
      → 0 < length chunk
      → concat_loop (suc fuel) parts (length whole) n off buf
        ≡ concat_loop fuel parts (length whole) n off (buf ++ chunk)
  unfolding concat_loop
  concat_step fuel n off buf [] less inside c e pos = absurd (omega arith)
  concat_step fuel n off buf (b ∷ r) less inside c e pos = rw (
    add64-eq off (length buf) (omega (arith, fits)),
    lt→ltb _ _ less,
    lt→ltb _ _ inside,
    Covers-no_gap parts whole (off + length buf) (covering (off + length buf)) c fits,
    e,
  )

  concat_round :
      (fuel n off : ℕ) (buf : List ℕ)
      → length buf < n
      → off + length buf < length whole
      → buf ≡ take (length buf) (drop off whole)
      → (c : Covers parts whole (off + length buf) (covering (off + length buf)))
      → Chunk c.content
          (want (n - length buf) (off + length buf))
          (off + length buf - (get_or parts (covering (off + length buf)) no_part).start)
          ((get_or parts (covering (off + length buf)) no_part).src.pread
            (want (n - length buf) (off + length buf))
            (off + length buf - (get_or parts (covering (off + length buf)) no_part).start))
      → (buf' : List ℕ) × (concat_loop (suc fuel) parts (length whole) n off buf
          ≡ concat_loop fuel parts (length whole) n off buf')
        × (length buf < length buf')
        × (length buf' ≤ n)
        × (off + length buf' ≤ length whole)
        × (buf' ≡ take (length buf') (drop off whole))
  concat_round fuel n off buf less inside so_far c k = (
    buf ++ k.chunk,
    concat_step fuel n off buf k.chunk less inside c k.chunk_read nonempty,
    omega (arith, ext.0, nonempty),
    omega (arith, ext.0, want_le),
    omega (arith, ext.0, bound),
    ext.1,
  )
    where
      want_le : want (n - length buf) (off + length buf) ≤ n - length buf
      want_le = ground arith

      wants : 0 < want (n - length buf) (off + length buf)
      wants = ground (arith, c.inside, c.starts, c.len_eq)

      nonempty : 0 < length k.chunk
      nonempty = k.chunk_some wants (omega (arith, c.inside, c.starts))

      bound : off + length buf + length k.chunk ≤ length whole
      bound = omega (
        arith,
        k.chunk_range,
        c.starts,
        Covers-bound parts whole (off + length buf) (covering (off + length buf)) c,
      )

      ext :
          (length (buf ++ k.chunk) ≡ length buf + length k.chunk)
          × (buf ++ k.chunk ≡ take (length (buf ++ k.chunk)) (drop off whole))
      ext =
          slice_extend whole buf k.chunk off (length k.chunk) so_far
            (k.chunk_eq
              ∙ Covers-slice parts whole (off + length buf) (covering (off + length buf))
                  (length k.chunk) c k.chunk_range)
            bound

  concat_end :
      (fuel n off : ℕ) (buf : List ℕ)
      → off + length buf ≤ length whole
      → (ltb (length buf) n && ltb (off + length buf) (length whole)) ≡ false
      → concat_loop (suc fuel) parts (length whole) n off buf ≡ ok buf
  unfolding concat_loop
  concat_end fuel n off buf range done = rw (add64-eq off (length buf) (omega (arith, fits)), done)

  -- The loop ends with the request filled, or at the end of the last part.
  all_read :
      (n off : ℕ) (buf : List ℕ)
      → length buf ≤ n
      → off + length buf ≤ length whole
      → buf ≡ take (length buf) (drop off whole)
      → (ltb (length buf) n && ltb (off + length buf) (length whole)) ≡ false
      → buf ≡ take n (drop off whole)
  all_read n off buf le range so_far done = elim (Bool-cases (ltb (length buf) n)) [
    | inr full ↦ so_far ∙ take_cong (length buf) n (drop off whole) (ground arith)
    | inl more ↦
        so_far
        ∙ take_all (length buf) (drop off whole) (to_end more)
        ∙ sym (take_all n (drop off whole) (omega (arith, to_end more)))
  ]
    where
      to_end : ltb (length buf) n ≡ true → length (drop off whole) ≤ length buf
      to_end more = ground (arith, length-drop off whole)

  concat_loop_lem :
      (fuel n off : ℕ) (buf : List ℕ)
      → off ≤ length whole
      → length buf ≤ n
      → off + length buf ≤ length whole
      → n < fuel + length buf
      → buf ≡ take (length buf) (drop off whole)
      → concat_loop fuel parts (length whole) n off buf ≡ ok (take n (drop off whole))
  concat_loop_lem zero n off buf h le range enough so_far = absurd (omega arith)
  concat_loop_lem (suc fuel) n off buf h le range enough so_far =
      elim (Bool-cases (ltb (length buf) n && ltb (off + length buf) (length whole))) [
        | inr done ↦
            concat_end fuel n off buf range done ∙ ap ok (all_read n off buf le range so_far done)
        | inl more ↦
            let less : length buf < n = ground arith in
            let inside : off + length buf < length whole = ground arith in
            let c : Covers parts whole (off + length buf) (covering (off + length buf)) =
              find_part-Covers parts bss (off + length buf) laid inside in
            let (buf', step, grows, le', range', next) =
              concat_round fuel n off buf less inside so_far c
                (read-Chunk (c.serves.reads _ _ (omega (arith, c.inside, c.starts)))) in
            step ∙ concat_loop_lem fuel n off buf' h le' range' (omega arith) next
      ]

  concat_pread-eq :
      (n off : ℕ) → concat_pread parts (length whole) n off ≡ ok (take n (drop off whole))
  unfolding concat_pread
  concat_pread-eq n off = elim (Bool-cases (leb (length whole) off)) [
    | inl past ↦ rw past (
        ap ok
          (sym (ap (take n) (drop_all off whole (leb→le _ _ past)) ∙ take_all n [] (omega arith))))
    | inr inside ↦ rw inside (
        concat_loop_lem (suc n) n off [] (ground arith) (omega arith) (ground arith) (omega arith)
          refl)
  ]

-- A concatenation of sources that serve the given contents (a null source stands for no bytes)
-- serves these contents back to back, as long as they are shorter than 2^64 bytes together. A read
-- that crosses from one part into the next is answered in full.
pub concat_source-Serves :
    (sources : List (Option ByteSource)) (bss : List (List ℕ))
    → ServesAll sources bss
    → length (joined bss) < 2 ^ 64
    → Serves (concat_source sources) (joined bss)
      × ((n off : ℕ) → (concat_source sources).pread n off ≡ ok (take n (drop off (joined bss))))
unfolding concat_source
concat_source-Serves sources bss h fits = (
  record {
    size_eq = total;
    fits = fits;
    reads = λ n off p. reads_full (joined bss) n off _ p (exact n off);
  },
  exact,
)
  where
    laid : Laid 0 (concat_parts 0 sources).0 bss
    laid = (concat_parts-Laid 0 sources bss h (omega (arith, fits))).0

    total : (concat_parts 0 sources).1 ≡ length (joined bss)
    total = (concat_parts-Laid 0 sources bss h (omega (arith, fits))).1 ∙ omega arith

    exact :
        (n off : ℕ)
        → concat_pread (concat_parts 0 sources).0 (concat_parts 0 sources).1 n off
          ≡ ok (take n (drop off (joined bss)))
    exact n off =
        ap (λ (t : ℕ). concat_pread (concat_parts 0 sources).0 t n off) total
        ∙ concat_pread-eq (concat_parts 0 sources).0 bss laid fits n off
