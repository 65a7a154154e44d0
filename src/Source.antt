-- ===== src/Source.antt =====
-- src/bytesource.h: random-access byte sources. A source is its two virtual methods; a read returns
-- the bytes that it put into the buffer. Reads have no shared cursor, so a source has no state.
pub mod Exact
pub mod Concat
use vidya_god_fs.Prelude.{
  ℕ, zero, suc, ◌+◌, ◌-◌, ◌*◌, ◌/◌, ◌≤◌, ◌<◌, ◌^◌, ◌≡◌, Bool, true, false, List, [], ◌∷◌, ◌++◌,
  Option, none, some, Result, ok, err, stuck, length, take, drop, get_or, ltb, leb, ◌==◌, min,
  if◌then◌else◌, ◌&&◌, ◌||◌,
}
use vidya_god_fs.Bytes.{add64}

-- `size()` and `pread(buf, n, off)`.
pub record ByteSource : Type 0 where
  pub size : ℕ
  pub pread : ℕ → ℕ → Result (List ℕ)

-- `preadAll`: `buf` is what has been read so far. The fuel is for the rounds; every round reads a
-- byte at least, so `n + 1` is enough.
pread_all_loop : ℕ → ByteSource → ℕ → ℕ → List ℕ → Option (List ℕ)
pread_all_loop zero src n off buf = none
pread_all_loop (suc fuel) src n off buf =
    if ltb (length buf) n
    then (elim (src.pread (n - length buf) (add64 off (length buf))) [
      | ok [] ↦ none
      | ok (b ∷ r) ↦ pread_all_loop fuel src n off (buf ++ (b ∷ r))
      | err e ↦ none
      | stuck ↦ none
    ])
    else some buf

unfoldable pub pread_all : ByteSource → ℕ → ℕ → Option (List ℕ)
unfolding pread_all_loop
pread_all src n off = pread_all_loop (suc n) src n off []

-- `MemByteSource::pread`, and `MmapByteSource::pread`, which is the same code over a mapped file.
unfoldable pub mem_pread : List ℕ → ℕ → ℕ → Result (List ℕ)
mem_pread bytes n off =
    if leb (length bytes) off
    then ok []
    else (let avail = length bytes - off in
        let want = if ltb n avail then n else avail in ok (take want (drop off bytes)))

unfoldable pub mem_source : List ℕ → ByteSource
unfolding mem_pread
mem_source bytes = record { size = length bytes; pread = mem_pread bytes }

-- A part of a concatenation: its source, where it starts, and its length.
pub record Part : Type 0 where
  pub src : ByteSource
  pub start : ℕ
  pub len : ℕ

-- The constructor of `ConcatByteSource`: the parts and the total. A null source has length 0.
null_source : ByteSource
null_source = record { size = 0; pread = λ n off. ok [] }

pub concat_parts : ℕ → List (Option ByteSource) → List Part × ℕ
concat_parts total [] = ([], total)
concat_parts total (none ∷ sources) =
    let (parts, t) = concat_parts (add64 total 0) sources in
    (record { src = null_source; start = total; len = 0 } ∷ parts, t)
concat_parts total (some s ∷ sources) =
    let (parts, t) = concat_parts (add64 total s.size) sources in
    (record { src = s; start = total; len = s.size } ∷ parts, t)

abbrev no_part : Part
no_part = record { src = record { size = 0; pread = λ n off. ok [] }; start = 0; len = 0 }

-- The binary search: `while (lo + 1 < hi)`; the fuel is for the rounds, and `hi` rounds are enough.
pub find_part : ℕ → List Part → ℕ → ℕ → ℕ → ℕ
find_part zero parts pos lo hi = lo
find_part (suc fuel) parts pos lo hi =
    if ltb (lo + 1) hi
    then (let mid = (lo + hi) / 2 in
        let right = leb (get_or parts mid no_part).start pos in
        find_part fuel parts pos (if right then mid else lo) (if right then hi else mid))
    else lo

-- The loop of `ConcatByteSource::pread`; `buf` is what has been read so far.
concat_loop : ℕ → List Part → ℕ → ℕ → ℕ → List ℕ → Result (List ℕ)
concat_loop zero parts total n off buf = stuck
concat_loop (suc fuel) parts total n off buf =
    let done = length buf in
    let pos = add64 off done in
    if ltb done n && ltb pos total
    then (let lo = find_part (length parts) parts pos 0 (length parts) in
        let pt = get_or parts lo no_part in
        if (pt.len == 0) || leb (add64 pt.start pt.len) pos
        then ok buf
        else (let local = pos - pt.start in
            let avail = pt.len - local in
            let want = if ltb avail (n - done) then avail else n - done in
            elim (pt.src.pread want local) [
              | ok [] ↦ ok buf
              | ok (b ∷ r) ↦ concat_loop fuel parts total n off (buf ++ (b ∷ r))
              | err e ↦ if ltb 0 done then ok buf else err e
              | stuck ↦ stuck
            ]))
    else ok buf

unfoldable pub concat_pread : List Part → ℕ → ℕ → ℕ → Result (List ℕ)
unfolding concat_loop find_part
concat_pread parts total n off =
    if leb total off then ok [] else concat_loop (suc n) parts total n off []

unfoldable pub concat_source : List (Option ByteSource) → ByteSource
unfolding concat_pread concat_parts null_source
concat_source sources =
    let (parts, total) = concat_parts 0 sources in
    record { size = total; pread = concat_pread parts total }
