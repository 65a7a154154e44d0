-- ===== src/Source/Exact.antt =====
-- What a source promises: the bytes of a fixed content, at any offset up to the end, perhaps fewer
-- than asked for, but at least one while any are left; and `preadAll` over such a source.
use vidya_god_fs.Prelude.{
  ℕ, zero, suc, ◌+◌, ◌-◌, ◌≤◌, ◌<◌, ◌^◌, ◌≡◌, refl, sym, ap, ◌∙◌, arith, List, [], ◌∷◌, ◌++◌, true,
  false, some, Result, ok, length, take, drop, ltb, leb, lt→ltb, min, length-drop, take_all,
  drop_all, ltb→lt, length-slice, slice_extend, Bool-cases, inl, inr,
}
use vidya_god_fs.Bytes.{add64, add64-eq}
use vidya_god_fs.Source.{ByteSource, pread_all_loop, pread_all, mem_pread, mem_source}

-- What one read of `n` bytes at `off` gives of the content `bytes`.
pub record ReadsSome (bytes : List ℕ) (n off : ℕ) (r : Result (List ℕ)) : Type 0 where
  pub got : ℕ
  pub got_le : got ≤ n
  pub in_range : off + got ≤ length bytes
  pub progress : 0 < n → off < length bytes → 0 < got
  pub read_eq : r ≡ ok (take got (drop off bytes))

pub record Serves (src : ByteSource) (bytes : List ℕ) : Type 0 where
  pub size_eq : src.size ≡ length bytes
  pub fits : length bytes < 2 ^ 64
  pub reads : (n off : ℕ) → off ≤ length bytes → ReadsSome bytes n off (src.pread n off)

-- The same by the bytes themselves.
pub record Chunk (bytes : List ℕ) (n off : ℕ) (r : Result (List ℕ)) : Type 0 where
  pub chunk : List ℕ
  pub chunk_le : length chunk ≤ n
  pub chunk_range : off + length chunk ≤ length bytes
  pub chunk_some : 0 < n → off < length bytes → 0 < length chunk
  pub chunk_eq : chunk ≡ take (length chunk) (drop off bytes)
  pub chunk_read : r ≡ ok chunk

pub read-Chunk :
    {bytes : List ℕ} {n off : ℕ} {r : Result (List ℕ)}
    → ReadsSome bytes n off r
    → Chunk bytes n off r
read-Chunk {bytes} {n} {off} s = record {
  chunk = take s.got (drop off bytes);
  chunk_le = omega (arith, len, s.got_le);
  chunk_range = omega (arith, len, s.in_range);
  chunk_some = λ p q. omega (arith, len, s.progress p q);
  chunk_eq = ap (λ (t : ℕ). take t (drop off bytes)) (sym len);
  chunk_read = s.read_eq;
}
  where
    len : length (take s.got (drop off bytes)) ≡ s.got
    len = length-slice s.got off bytes s.in_range

-- A read that gives all that is left, up to `n` bytes, is such a read.
pub reads_full :
    (bytes : List ℕ) (n off : ℕ) (r : Result (List ℕ))
    → off ≤ length bytes
    → r ≡ ok (take n (drop off bytes))
    → ReadsSome bytes n off r
reads_full bytes n off r h e = record {
  got = min n (length bytes - off);
  got_le = omega arith;
  in_range = omega arith;
  progress = λ p q. omega arith;
  read_eq = e ∙ ap ok (take_min n (drop off bytes) (length bytes - off) (length-drop off bytes));
}
  where
    take_min : (n : ℕ) (l : List ℕ) (m : ℕ) → length l ≡ m → take n l ≡ take (min n m) l
    take_min n l m e = elim (Bool-cases (leb n m)) [
      | inl y ↦ ap (λ t. take t l) (same n m y)
      | inr z ↦ take_all n l (above n m z e) ∙ sym (take_all (min n m) l (above2 n m z e))
    ]
      where
        same : (n m : ℕ) → leb n m ≡ true → n ≡ min n m
        same n m y = ground arith

        above : (n m : ℕ) → leb n m ≡ false → length l ≡ m → length l ≤ n
        above n m z e = ground arith

        above2 : (n m : ℕ) → leb n m ≡ false → length l ≡ m → length l ≤ min n m
        above2 n m z e = ground arith

-- Both branches of the code's minimum, and a read past the end, are one slice.
pub mem_pread-eq :
    (bytes : List ℕ) (n off : ℕ) → mem_pread bytes n off ≡ ok (take n (drop off bytes))
unfolding mem_pread
mem_pread-eq bytes n off = elim (Bool-cases (leb (length bytes) off)) [
  | inl past ↦ rw past (ap ok (sym (nothing past)))
  | inr inside ↦ rw inside (elim (Bool-cases (ltb n (length bytes - off))) [
    | inl short ↦ rw short
    | inr long ↦ rw long (ap ok (up_to_end long))
  ])
]
  where
    nothing : leb (length bytes) off ≡ true → take n (drop off bytes) ≡ []
    nothing past = ap (take n) (drop_all off bytes (ground arith)) ∙ take_all n [] (omega arith)

    up_to_end :
        ltb n (length bytes - off) ≡ false
        → take (length bytes - off) (drop off bytes) ≡ take n (drop off bytes)
    up_to_end long =
        take_all (length bytes - off) (drop off bytes) (omega (arith, length-drop off bytes))
        ∙ sym (take_all n (drop off bytes) (ground (arith, length-drop off bytes)))

-- The in-memory source serves its buffer.
pub mem_source-Serves : (bytes : List ℕ) → length bytes < 2 ^ 64 → Serves (mem_source bytes) bytes
unfolding mem_source
mem_source-Serves bytes h = record {
  size_eq = refl;
  fits = h;
  reads = λ n off p. reads_full bytes n off _ p (whole n off);
}
  where
    whole : (n off : ℕ) → mem_pread bytes n off ≡ ok (take n (drop off bytes))
    whole n off = mem_pread-eq bytes n off

module _ (src : ByteSource) (bytes : List ℕ) (s : Serves src bytes) where
  loop_step :
      (fuel n off : ℕ) (buf chunk : List ℕ)
      → length buf < n
      → src.pread (n - length buf) (add64 off (length buf)) ≡ ok chunk
      → 0 < length chunk
      → pread_all_loop (suc fuel) src n off buf ≡ pread_all_loop fuel src n off (buf ++ chunk)
  unfolding pread_all_loop
  loop_step fuel n off buf [] h e pos = absurd (omega arith)
  loop_step fuel n off buf (b ∷ r) h e pos = rw (lt→ltb _ _ h, e)

  -- What is read goes behind what was read before.
  next_round :
      (fuel n off : ℕ) (buf : List ℕ)
      → off + n ≤ length bytes
      → length buf < n
      → buf ≡ take (length buf) (drop off bytes)
      → Chunk bytes
          (n - length buf)
          (off + length buf)
          (src.pread (n - length buf) (off + length buf))
      → (buf' : List ℕ) × (pread_all_loop (suc fuel) src n off buf
          ≡ pread_all_loop fuel src n off buf')
        × (length buf < length buf')
        × (length buf' ≤ n)
        × (buf' ≡ take (length buf') (drop off bytes))
  next_round fuel n off buf range less so_far c = (
    buf ++ c.chunk,
    loop_step fuel n off buf c.chunk less at_pos nonempty,
    omega (arith, ext.0, nonempty),
    omega (arith, ext.0),
    ext.1,
  )
    where
      nonempty : 0 < length c.chunk
      nonempty = c.chunk_some (omega arith) (omega arith)

      at_pos : src.pread (n - length buf) (add64 off (length buf)) ≡ ok c.chunk
      at_pos =
          ap (src.pread (n - length buf)) (add64-eq off (length buf) (omega (arith, s.fits)))
          ∙ c.chunk_read

      ext :
          (length (buf ++ c.chunk) ≡ length buf + length c.chunk)
          × (buf ++ c.chunk ≡ take (length (buf ++ c.chunk)) (drop off bytes))
      ext = slice_extend bytes buf c.chunk off (length c.chunk) so_far c.chunk_eq c.chunk_range

  pread_all_loop_lem :
      (fuel n off : ℕ) (buf : List ℕ)
      → off + n ≤ length bytes
      → length buf ≤ n
      → n < fuel + length buf
      → buf ≡ take (length buf) (drop off bytes)
      → pread_all_loop fuel src n off buf ≡ some (take n (drop off bytes))
  pread_all_loop_lem zero n off buf range part enough so_far = absurd (omega arith)
  pread_all_loop_lem (suc fuel) n off buf range part enough so_far =
      elim (Bool-cases (ltb (length buf) n)) [
        | inr full ↦
            unfold pread_all_loop in
            rw full (ap some (so_far ∙ ap (λ (t : ℕ). take t (drop off bytes)) (ground arith)))
        | inl more ↦
            let (buf', step, grows, le, next) =
              next_round fuel n off buf range (ltb→lt _ _ more) so_far
                (read-Chunk (s.reads (n - length buf) (off + length buf) (omega arith))) in
            step ∙ pread_all_loop_lem fuel n off buf' range le (omega arith) next
      ]

  -- `preadAll` gives exactly the bytes asked for, wherever they lie within the source.
  pub pread_all-exact :
      (n off : ℕ) → off + n ≤ length bytes → pread_all src n off ≡ some (take n (drop off bytes))
  unfolding pread_all
  pread_all-exact n off h = pread_all_loop_lem (suc n) n off [] h (omega arith) (omega arith) refl
