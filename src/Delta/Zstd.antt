-- ===== src/Delta/Zstd.antt =====
-- The zstd library as src/vgdelta.cpp calls it, and the file's two wrappers.
use vidya_god_fs.Prelude.{
  ℕ, ◌+◌, ◌/◌, ◌≤◌, ◌≡◌, refl, List, [], Option, none, some, length, ◌==◌, if◌then◌else◌, arith,
}

-- `ZSTD_compress` at a level and `ZSTD_decompress` into a buffer of a given size; `none` is an error.
pub record Zstd : Type 0 where
  pub compress : List ℕ → ℕ → Option (List ℕ)
  pub decompress : List ℕ → ℕ → Option (List ℕ)

-- Documented: compression into a buffer of `ZSTD_compressBound` bytes succeeds and stays within that
-- bound, and decompression of a frame into a buffer of its content's size gives the content back.
pub record IsLawful (z : Zstd) : Type 0 where
  pub compresses : (p : List ℕ) (level : ℕ) → (c : List ℕ) × (z.compress p level ≡ some c)
  pub bounded :
      (p : List ℕ) (level : ℕ) (c : List ℕ)
      → z.compress p level ≡ some c
      → length c ≤ length p + length p / 256 + 64
  pub restores :
      (p : List ℕ) (level : ℕ) (c : List ℕ)
      → z.compress p level ≡ some c
      → z.decompress c (length p) ≡ some p

module _ (z : Zstd) where
  -- `ZCompress` at its default level; empty on error.
  unfoldable pub z_compress : List ℕ → List ℕ
  z_compress p = elim (z.compress p 19) [ none ↦ [] | some c ↦ c ]

  -- Decompresses exactly `ulen` bytes; empty on error.
  unfoldable pub z_decompress : List ℕ → ℕ → List ℕ
  z_decompress p ulen = elim (z.decompress p ulen) [
    | none ↦ []
    | some out ↦ if length out == ulen then out else []
  ]

  z_compress-eq : (p c : List ℕ) → z.compress p 19 ≡ some c → z_compress p ≡ c
  unfolding z_compress
  z_compress-eq p c e = ground arith

  pub z_decompress-eq :
      (p out : List ℕ) (ulen : ℕ)
      → z.decompress p ulen ≡ some out
      → length out ≡ ulen
      → z_decompress p ulen ≡ out
  unfolding z_decompress
  z_decompress-eq p out ulen e h = ground arith

  pub z_decompress-z_compress :
      IsLawful z → (p : List ℕ) → z_decompress (z_compress p) (length p) ≡ p
  z_decompress-z_compress law p =
      let (c, e) = law.compresses p 19 in
      rw (z_compress-eq p c e) (z_decompress-eq c p (length p) (law.restores p 19 c e) refl)

  pub length-z_compress :
      IsLawful z → (p : List ℕ) → length (z_compress p) ≤ length p + length p / 256 + 64
  length-z_compress law p =
      let (c, e) = law.compresses p 19 in rw (z_compress-eq p c e) (law.bounded p 19 c e)
