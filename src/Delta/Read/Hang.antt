-- ===== src/Delta/Read/Hang.antt =====
-- `readAdd` of src/vgdelta.cpp over a block whose data ends at the position asked for.
use mathlib.Core.Path.{ap₂}
use vidya_god_fs.Prelude.{
  ℕ, zero, suc, ◌-◌, ◌<◌, ◌^◌, ◌/◌, ◌%◌, ◌≡◌, refl, ap, ◌∙◌, arith, List, [], ◌++◌, some, stuck,
  length, take, drop, ltb, lt→ltb, lt→leb, le→ltb, if◌then◌else◌, append-nil,
}
use vidya_god_fs.Bytes.{add64, add64-eq}
use vidya_god_fs.Delta.Types.{AddSource}
use vidya_god_fs.Delta.Zstd.{Zstd}
use vidya_god_fs.Delta.Read.{BlockCache, find_block, block_key, get_add_block, read_add}

module _ (z : Zstd) (add_src : ℕ) (a : AddSource) (n add_off : ℕ) (c : BlockCache)
    (raw : List ℕ) where
  cached :
      find_block (block_key add_src (add_off / a.block_size)) c.entries ≡ some raw
      → get_add_block z add_src a (add_off / a.block_size) c ≡ (some raw, c)
  unfolding get_add_block
  cached e = rw (get_add_block, e) refl

  no_progress :
      (fuel : ℕ) (out : List ℕ)
      → 0 < n
      → add_off < 2 ^ 64
      → add_off / a.block_size < length a.blocks
      → get_add_block z add_src a (add_off / a.block_size) c ≡ (some raw, c)
      → length raw ≡ add_off % a.block_size % 2 ^ 32
      → read_add z (suc fuel) add_src a n add_off out c ≡ read_add z fuel add_src a n add_off out c
  unfolding read_add
  no_progress fuel out pos small within got ends =
      rw
        (
          lt→ltb 0 n pos,
          lt→leb (length a.blocks) (add_off / a.block_size) within,
          got,
          le→ltb (length raw) (add_off % a.block_size % 2 ^ 32) (omega (arith, ends)),
        )
        (after (add_off % a.block_size % 2 ^ 32) _ _ nothing (ap (λ p. p.1) got))
    where
      all_left : n - 0 ≡ n
      all_left = omega arith

      after :
          (intra k : ℕ) (c' : BlockCache)
          → k ≡ 0
          → c' ≡ c
          → read_add z fuel add_src a (n - k) (add64 add_off k) (out ++ take k (drop intra raw)) c'
            ≡ read_add z fuel add_src a n add_off out c
      after intra k c' none_taken same =
          ap₂
            (λ (m : ℕ) c'.
              read_add z fuel add_src a (n - m) (add64 add_off m) (out ++ take m (drop intra raw))
                c')
            none_taken same
          ∙ ap (λ (m : ℕ). read_add z fuel add_src a m (add64 add_off 0) (out ++ []) c) all_left
          ∙ ap₂ (λ (o : ℕ) l. read_add z fuel add_src a n o l c)
              (add64-eq add_off 0 (omega arith) ∙ omega arith) (append-nil out)

      nothing :
          (if ltb n (length raw - add_off % a.block_size % 2 ^ 32)
            then n
            else length raw - add_off % a.block_size % 2 ^ 32)
          ≡ 0
      nothing = ground (arith, ends)

  -- Of a read of at least one byte whose block is cached and ends exactly where the read starts in it,
  -- no number of rounds returns: each round copies nothing and changes nothing.
  pub read_add-stuck :
      (fuel : ℕ) (out : List ℕ)
      → 0 < n
      → add_off < 2 ^ 64
      → add_off / a.block_size < length a.blocks
      → find_block (block_key add_src (add_off / a.block_size)) c.entries ≡ some raw
      → length raw ≡ add_off % a.block_size % 2 ^ 32
      → read_add z fuel add_src a n add_off out c ≡ (stuck, c)
  read_add-stuck zero out pos small within found ends = unfold read_add in rw (lt→ltb 0 n pos)
  read_add-stuck (suc fuel) out pos small within found ends =
      no_progress fuel out pos small within (cached found) ends
      ∙ read_add-stuck fuel out pos small within found ends
