-- ===== src/Delta/Read/Copy.antt =====
-- The two inner loops of `pread`: a copy from the base, and literal bytes from the blocks.
use mathlib.Core.Path.{subst, subst₂}
use native.Mathlib.Nat.{div-add-mod, mod-lt}
use vidya_god_fs.Prelude.{
  ℕ, zero, suc, ◌+◌, ◌-◌, ◌*◌, ◌/◌, ◌%◌, ◌^◌, ◌≤◌, ◌<◌, ◌≡◌, sym, ap, ◌∙◌, arith, false, List, [],
  ◌∷◌, ◌++◌, some, Result, ok, length, take, drop, get_or, ltb, if◌then◌else◌, lt→ltb, ltb→lt,
  le→ltb, lt→leb, Bool-cases, inl, inr, length-take, length-drop, slice_extend, take_split,
  take_cong, drop_cong, take-take, drop-take, drop-drop, append_assoc, append-nil,
}
use vidya_god_fs.Bytes.{add64, add64-eq}
use vidya_god_fs.Source.{ByteSource}
use vidya_god_fs.Source.Exact.{Serves, Chunk, read-Chunk}
use vidya_god_fs.Delta.Types.{AddSource}
use vidya_god_fs.Delta.Zstd.{Zstd}
use vidya_god_fs.Delta.Content.{AddHolds}
use vidya_god_fs.Delta.Read.{BlockCache, read_copy, read_add, get_add_block, load_block, no_add}
use vidya_god_fs.Delta.Read.Cache.{Coherent, get_add_block-Coherent}

module _ (src : ByteSource) (bytes : List ℕ) (s : Serves src bytes) where
  copy_step :
      (fuel n off : ℕ) (buf chunk : List ℕ)
      → length buf < n
      → src.pread (n - length buf) (add64 off (length buf)) ≡ ok chunk
      → 0 < length chunk
      → read_copy (suc fuel) src n off buf ≡ read_copy fuel src n off (buf ++ chunk)
  unfolding read_copy
  copy_step fuel n off buf [] h e pos = absurd (omega arith)
  copy_step fuel n off buf (b ∷ r) h e pos = rw (lt→ltb _ _ h, e)

  copy_round :
      (fuel n off : ℕ) (buf : List ℕ)
      → off + n ≤ length bytes
      → length buf < n
      → buf ≡ take (length buf) (drop off bytes)
      → Chunk bytes
          (n - length buf)
          (off + length buf)
          (src.pread (n - length buf) (off + length buf))
      → (buf' : List ℕ) × (read_copy (suc fuel) src n off buf ≡ read_copy fuel src n off buf')
        × (length buf < length buf')
        × (length buf' ≤ n)
        × (buf' ≡ take (length buf') (drop off bytes))
  copy_round fuel n off buf range less so_far c = (
    buf ++ c.chunk,
    copy_step fuel n off buf c.chunk less at_pos nonempty,
    omega (arith, ext.0, nonempty),
    omega (arith, ext.0),
    ext.1,
  )
    where
      nonempty : 0 < length c.chunk
      nonempty = c.chunk_some (omega arith) (omega arith)

      at_pos : src.pread (n - length buf) (add64 off (length buf)) ≡ ok c.chunk
      at_pos =
          ap (src.pread (n - length buf)) (add64-eq off (length buf) (omega (arith, s.fits)))
          ∙ c.chunk_read

      ext :
          (length (buf ++ c.chunk) ≡ length buf + length c.chunk)
          × (buf ++ c.chunk ≡ take (length (buf ++ c.chunk)) (drop off bytes))
      ext = slice_extend bytes buf c.chunk off (length c.chunk) so_far c.chunk_eq c.chunk_range

  copy_end :
      (fuel n off : ℕ) (buf : List ℕ)
      → ltb (length buf) n ≡ false
      → read_copy fuel src n off buf ≡ ok buf
  unfolding read_copy
  copy_end zero n off buf e = rw e
  copy_end (suc fuel) n off buf e = rw e

  -- A copy of a range inside the base gives that range.
  pub read_copy-exact :
      (fuel n off : ℕ) (buf : List ℕ)
      → off + n ≤ length bytes
      → length buf ≤ n
      → n ≤ fuel + length buf
      → buf ≡ take (length buf) (drop off bytes)
      → read_copy fuel src n off buf ≡ ok (take n (drop off bytes))
  read_copy-exact zero n off buf range part enough so_far =
      copy_end zero n off buf (le→ltb (length buf) n (omega arith))
      ∙ ap ok (so_far ∙ take_cong (length buf) n (drop off bytes) (omega arith))
  read_copy-exact (suc fuel) n off buf range part enough so_far =
      elim (Bool-cases (ltb (length buf) n)) [
        | inr full ↦
            copy_end (suc fuel) n off buf full
            ∙ ap ok (so_far ∙ take_cong (length buf) n (drop off bytes) (ground arith))
        | inl more ↦
            let (buf', step, grows, le, next) =
              copy_round fuel n off buf range (ltb→lt _ _ more) so_far
                (read-Chunk (s.reads (n - length buf) (off + length buf) (omega arith))) in
            step ∙ read_copy-exact fuel n off buf' range le (omega arith) next
      ]

-- Where a literal read falls in its block: the block is there, and the bytes are those of the stream.
module _ {z : Zstd} {a : AddSource} {lit : List ℕ} (h : AddHolds z a lit) where
  abbrev blk_of : ℕ → ℕ
  blk_of off = off / a.block_size

  abbrev block : ℕ → List ℕ
  block off = take a.block_size (drop (blk_of off * a.block_size) lit)

  intra_eq : (off : ℕ) → off % a.block_size % 2 ^ 32 ≡ off % a.block_size
  intra_eq off =
      small (off % a.block_size)
        (omega (arith, mod-lt off {m = a.block_size} h.block_pos, h.block_fits))
    where
      small : (k : ℕ) → k < 2 ^ 32 → k % 2 ^ 32 ≡ k
      small k p = omega arith

  split : (off : ℕ) → blk_of off * a.block_size + off % a.block_size ≡ off
  split off = omega (arith, div-add-mod off a.block_size)

  blk_in : (off : ℕ) → off < length lit → blk_of off < length a.blocks
  blk_in off p =
      bound (blk_of off) (length a.blocks) a.block_size (omega (arith, split off, h.enough))
    where
      bound : (b m s : ℕ) → b * s < m * s → b < m
      bound b m s q = grind arith

  length-block : (off : ℕ) → off < length lit → off % a.block_size < length (block off)
  length-block off p = omega (
    arith,
    split off,
    mod-lt off {m = a.block_size} h.block_pos,
    length-take a.block_size (drop (blk_of off * a.block_size) lit),
    length-drop (blk_of off * a.block_size) lit,
  )

  block-slice :
      (off k : ℕ)
      → off % a.block_size + k ≤ length (block off)
      → take k (drop (off % a.block_size) (block off)) ≡ take k (drop off lit)
  block-slice off k p =
      ap (λ t. take k (drop r t)) (take_cong a.block_size (r + (a.block_size - r)) from bigger)
      ∙ ap (take k) (drop-take r (a.block_size - r) from)
      ∙ take-take k (a.block_size - r) (drop r from) fits
      ∙ ap (take k) (
          drop-drop r (blk_of off * a.block_size) lit
          ∙ drop_cong (blk_of off * a.block_size + r) off lit (split off))
    where
      r : ℕ
      r = off % a.block_size

      from : List ℕ
      from = drop (blk_of off * a.block_size) lit

      fits : k ≤ a.block_size - off % a.block_size
      fits = omega (arith, length-take a.block_size from)

      bigger : a.block_size ≡ off % a.block_size + (a.block_size - off % a.block_size)
      bigger = omega (arith, length-take a.block_size from)

module _ (z : Zstd) (adds : List AddSource) (i : ℕ) {lit : List ℕ}
    (h : AddHolds z (get_or adds i no_add) lit) (few : length adds ≤ 2 ^ 24)
    (known : i < length adds) where
  abbrev adds_i : AddSource
  adds_i = get_or adds i no_add

  -- What the next round takes: to the end of the block, or to the end of the request.
  abbrev count_of : ℕ → ℕ → ℕ
  count_of n off =
      let avail = length (block h off) - off % adds_i.block_size in if ltb n avail then n else avail

  -- `r` is what `GetAddBlock` returns.
  add_step :
      (fuel n off : ℕ) (out : List ℕ) (c : BlockCache)
      → 0 < n
      → off < length lit
      → (get_add_block z i adds_i (blk_of h off) c).0 ≡ some (block h off)
      → read_add z (suc fuel) i adds_i n off out c
        ≡ read_add z fuel i adds_i
            (n - count_of n off)
            (add64 off (count_of n off))
            (out ++ take (count_of n off) (drop (off % adds_i.block_size) (block h off)))
            (get_add_block z i adds_i (blk_of h off) c).1
  unfolding read_add
  add_step fuel n off out c pos inside got = rw (
    lt→ltb 0 n pos,
    lt→leb (length adds_i.blocks) (blk_of h off) (blk_in h off inside),
    got,
    intra_eq h off,
    le→ltb (length (block h off)) (off % adds_i.block_size)
        (omega (arith, length-block h off inside)),
  )

  add_end :
      (fuel off : ℕ) (out : List ℕ) (c : BlockCache) (n : ℕ)
      → n ≡ 0
      → read_add z fuel i adds_i n off out c ≡ (ok out, c)
  unfolding read_add
  add_end zero off out c n e = rw (le→ltb 0 n (omega arith))
  add_end (suc fuel) off out c n e = rw (le→ltb 0 n (omega arith))

  abbrev Reads : List ℕ → Result (List ℕ) × BlockCache → Type 0
  Reads bytes r = (r.0 ≡ ok bytes) × Coherent z adds r.1

  count_le : (n off : ℕ) → count_of n off ≤ n
  count_le n off = ground arith

  count_pos : (n off : ℕ) → 0 < n → off < length lit → 0 < count_of n off
  count_pos n off p q = ground (arith, length-block h off q)

  count_in :
      (n off : ℕ)
      → off < length lit
      → off % adds_i.block_size + count_of n off ≤ length (block h off)
  count_in n off q = ground (arith, length-block h off q)

  -- The bytes of this round and of the rest are the bytes asked for.
  joined_rounds :
      (n off : ℕ) (out : List ℕ)
      → off < length lit
      → off + n ≤ length lit
      → (out ++ take (count_of n off) (drop (off % adds_i.block_size) (block h off)))
          ++ take (n - count_of n off) (drop (add64 off (count_of n off)) lit)
        ≡ out ++ take n (drop off lit)
  joined_rounds n off out inside range =
      append_assoc out _ _
      ∙ ap (λ t. out ++ t)
          (ap (λ t. t ++ take (n - k) (drop (add64 off k) lit))
              (block-slice h off k (count_in n off inside))
            ∙ ap (λ t. take k (drop off lit) ++ take (n - k) t)
                (drop_cong (add64 off k) (off + k) lit
                    (add64-eq off k (omega (arith, count_le n off, h.lit_fits)))
                  ∙ sym (drop-drop k off lit))
            ∙ sym (take_split k (n - k) (drop off lit))
            ∙ take_cong (k + (n - k)) n (drop off lit) (omega (arith, count_le n off)))
    where
      k : ℕ
      k = count_of n off

  blk_small : (off : ℕ) → off < length lit → blk_of h off < 2 ^ 40
  blk_small off p = omega (arith, blk_in h off p, h.count_fits)

  loaded : (off : ℕ) → off < length lit → load_block z adds_i (blk_of h off) ≡ some (block h off)
  loaded off p = h.loads (blk_of h off) (omega (arith, split h off))

  -- Literal bytes inside the stream are read exactly, from any coherent cache.
  pub read_add-exact :
      (fuel n off : ℕ) (out : List ℕ) (c : BlockCache)
      → Coherent z adds c
      → n ≤ fuel
      → off + n ≤ length lit
      → Reads (out ++ take n (drop off lit)) (read_add z fuel i adds_i n off out c)
  read_add-exact zero n off out c coherent enough range =
      subst (Reads (out ++ take n (drop off lit))) (sym (add_end zero off out c n (omega arith)))
        (ap ok (sym (nothing n (omega arith))), coherent)
    where
      nothing : (n : ℕ) → n ≡ 0 → out ++ take n (drop off lit) ≡ out
      nothing n e = ap (λ (t : ℕ). out ++ take t (drop off lit)) e ∙ append-nil out
  read_add-exact (suc fuel) n off out c coherent enough range = elim (Bool-cases (ltb 0 n)) [
    | inr none_left ↦
        subst (Reads (out ++ take n (drop off lit)))
          (sym (add_end (suc fuel) off out c n (ground arith)))
          (ap ok (sym (nothing n (ground arith))), coherent)
    | inl more ↦
        let pos : 0 < n = ltb→lt 0 n more in
        let inside : off < length lit = omega arith in
        let (got, next) =
          get_add_block-Coherent z adds i (blk_of h off) (block h off) c few known
            (blk_small off inside) (loaded off inside) coherent in
        subst₂ Reads (joined_rounds n off out inside range)
          (sym (add_step fuel n off out c pos inside got))
          (read_add-exact fuel (n - count_of n off) (add64 off (count_of n off)) _ _ next
            (omega (arith, count_pos n off pos inside)) (omega (arith, count_le n off, h.lit_fits)))
  ]
    where
      nothing : (n : ℕ) → n ≡ 0 → out ++ take n (drop off lit) ≡ out
      nothing n e = ap (λ (t : ℕ). out ++ take t (drop off lit)) e ∙ append-nil out
