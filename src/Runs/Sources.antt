-- ===== src/Runs/Sources.antt =====
-- Small byte sources: src/bytesource.h.
use vidya_god_fs.Prelude.{
  ℕ, ◌≡◌, refl, arith, List, [], ◌∷◌, ◌++◌, Option, none, some, ok, take, drop,
}
use vidya_god_fs.Bytes.{put32, put64, rd32, rd64, zip_rd64}
use vidya_god_fs.Bytes.Little.{rd32-put32, rd64-put64, zip_rd64-eq-rd64}
use vidya_god_fs.Source.{ByteSource, mem_source, concat_source, pread_all}
use vidya_god_fs.Source.Exact.{Serves, mem_source-Serves, pread_all-exact}
use vidya_god_fs.Source.Concat.{concat_source-Serves}
use vidya_god_fs.Source.Concat.Parts.{joined}

abbrev five : List ℕ
five = 1 ∷ 2 ∷ 3 ∷ 4 ∷ 5 ∷ []

mem_source-Serves_example : Serves (mem_source five) five
mem_source-Serves_example = mem_source-Serves five (omega arith)

pread_all-exact_example : pread_all (mem_source five) 3 1 ≡ some (take 3 (drop 1 five))
pread_all-exact_example =
    pread_all-exact (mem_source five) five (mem_source-Serves five (omega arith)) 3 1 (omega arith)

abbrev parts : List (Option ByteSource)
parts = some (mem_source five) ∷ none ∷ some (mem_source five) ∷ []

concat_source-Serves_example :
    Serves (concat_source parts) (joined (five ∷ [] ∷ five ∷ []))
    × ((n off : ℕ)
        → (concat_source parts).pread n off
          ≡ ok (take n (drop off (joined (five ∷ [] ∷ five ∷ [])))))
concat_source-Serves_example =
    concat_source-Serves parts (five ∷ [] ∷ five ∷ [])
      (mem_source-Serves five (omega arith), (refl, (mem_source-Serves five (omega arith), tt)))
      (omega arith)

rd64-put64_example : rd64 (put64 [] 258 ++ five) ≡ 258
rd64-put64_example = rd64-put64 258 five (omega arith)

rd32-put32_example : rd32 (put32 [] 258 ++ five) ≡ 258
rd32-put32_example = rd32-put32 258 five (omega arith)

abbrev eight : List ℕ
eight = 1 ∷ 2 ∷ 3 ∷ 4 ∷ 5 ∷ 6 ∷ 7 ∷ 8 ∷ []

zip_rd64-eq-rd64_example : zip_rd64 eight ≡ rd64 eight
zip_rd64-eq-rd64_example =
    zip_rd64-eq-rd64 eight
      (
        omega arith,
        (
          omega arith,
          (
            omega arith,
            (omega arith, (omega arith, (omega arith, (omega arith, (omega arith, tt))))),
          ),
        ),
      )
      (omega arith)
