-- ===== src/Bytes.antt =====
-- Little-endian numbers and the FNV-1a hash: `put32`, `put64`, `rd32`, `rd64` and `Fnv1a64` of
-- src/vgdelta.cpp, and `Rd16`, `Rd32` and `Rd64` of src/zipscan.cpp. A buffer is a list of bytes,
-- and a field `p + k` of a record is `drop k p`.
pub mod Little
mod Runs
use vidya_god_fs.Prelude.{
  ℕ, zero, suc, ◌+◌, ◌*◌, ◌/◌, ◌%◌, ◌^◌, ◌<◌, ◌≡◌, arith, bit_or, bit_xor, List, [], ◌∷◌, ◌++◌,
  get_or,
}

abbrev pub IsByte : ℕ → Type 0
IsByte b = b < 256

-- uint64_t a + b.
abbrev pub add64 : ℕ → ℕ → ℕ
add64 a b = (a + b) % 2 ^ 64

pub add64-eq : (a b : ℕ) → a + b < 2 ^ 64 → add64 a b ≡ a + b
add64-eq a b h = omega arith

-- The bytes `(x >> (8 * j)) & 0xff` for `count` values of `j`, from `i` on.
put_bytes : ℕ → ℕ → ℕ → List ℕ
put_bytes zero i x = []
put_bytes (suc count) i x = (x / 2 ^ (8 * i) % 256) ∷ put_bytes count (i + 1) x

unfoldable pub put32 : List ℕ → ℕ → List ℕ
unfolding put_bytes
put32 v x = v ++ put_bytes 4 0 x

unfoldable pub put64 : List ℕ → ℕ → List ℕ
unfolding put_bytes
put64 v x = v ++ put_bytes 8 0 x

-- `x |= p[j] << (8 * j)` for the next `count` bytes.
rd_loop : ℕ → ℕ → ℕ → List ℕ → ℕ
rd_loop zero i x p = x
rd_loop (suc count) i x [] = x
rd_loop (suc count) i x (b ∷ p) = rd_loop count (i + 1) (bit_or x (b * 2 ^ (8 * i))) p

unfoldable pub rd32 : List ℕ → ℕ
unfolding rd_loop
rd32 p = rd_loop 4 0 0 p

unfoldable pub rd64 : List ℕ → ℕ
unfolding rd_loop
rd64 p = rd_loop 8 0 0 p

fnv_loop : ℕ → List ℕ → ℕ
fnv_loop h [] = h
fnv_loop h (b ∷ p) = fnv_loop (bit_xor h b * 1099511628211 % 2 ^ 64) p

unfoldable pub fnv1a64 : List ℕ → ℕ
unfolding fnv_loop
fnv1a64 p = fnv_loop 1469598103934665603 p

-- The readers of src/zipscan.cpp.
unfoldable pub zip_rd16 : List ℕ → ℕ
zip_rd16 p = bit_or (get_or p 0 0) (get_or p 1 0 * 2 ^ 8)

unfoldable pub zip_rd32 : List ℕ → ℕ
zip_rd32 p =
    bit_or (bit_or (bit_or (get_or p 0 0) (get_or p 1 0 * 2 ^ 8)) (get_or p 2 0 * 2 ^ 16))
      (get_or p 3 0 * 2 ^ 24)

-- `for (i = 7; i >= 0; --i) v = (v << 8) | p[i]`; the first argument is `i + 1`.
zip_rd_loop : ℕ → ℕ → List ℕ → ℕ
zip_rd_loop zero v p = v
zip_rd_loop (suc i) v p = zip_rd_loop i (bit_or (v * 2 ^ 8 % 2 ^ 64) (get_or p i 0)) p

unfoldable pub zip_rd64 : List ℕ → ℕ
unfolding zip_rd_loop
zip_rd64 p = zip_rd_loop 8 0 p
