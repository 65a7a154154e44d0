-- ===== src/Bytes/Little.antt =====
-- The readers and writers of little-endian fields of src/vgdelta.cpp and src/zipscan.cpp.
use native.Mathlib.Nat.{div-div-eq-div-mul, pow-suc, one-le-pow}
use native.Mathlib.Numerals.{towards_suc}
use vidya_god_fs.Prelude.{
  ℕ, zero, suc, ◌+◌, ◌*◌, ◌/◌, ◌%◌, ◌^◌, ◌≤◌, ◌<◌, ◌≡◌, sym, ap, ◌∙◌, arith, bit_or, List, [], ◌∷◌,
  ◌++◌, get_or, take, drop, length, All, length-take, take-append-drop,
}
use vidya_god_fs.Prelude.Bits.{bit_or_fields, bit_or_fields_low}
use vidya_god_fs.Bytes.{IsByte, put_bytes, put32, put64, rd_loop, rd32, rd64, zip_rd_loop, zip_rd64}

pow_next : (i : ℕ) → 2 ^ (8 * (i + 1)) ≡ 256 * 2 ^ (8 * i)
pow_next i = ap (λ t. 2 ^ t) next ∙ pow_eight (8 * i)
  where
    next : 8 * (i + 1) ≡ 8 * i + 8
    next = omega arith

    pow_eight : (s : ℕ) → 2 ^ (s + 8) ≡ 256 * 2 ^ s
    pow_eight s = simp towards_suc (omega arith)

-- The next digit of `x` in base 256.
digit_split : (x i : ℕ) → x / 2 ^ (8 * i) ≡ x / 2 ^ (8 * i) % 256 + 256 * (x / 2 ^ (8 * (i + 1)))
digit_split x i = omega (arith, quotient)
  where
    quotient : x / 2 ^ (8 * (i + 1)) ≡ x / 2 ^ (8 * i) / 256
    quotient =
        ap (λ t. x / t) (pow_next i ∙ omega arith) ∙ sym (div-div-eq-div-mul x (2 ^ (8 * i)) 256)

rd_loop-put_bytes :
    (count i x acc : ℕ) (rest : List ℕ)
    → acc < 2 ^ (8 * i)
    → x / 2 ^ (8 * i) < 256 ^ count
    → rd_loop count i acc (put_bytes count i x ++ rest) ≡ acc + x / 2 ^ (8 * i) * 2 ^ (8 * i)
unfolding rd_loop put_bytes
rd_loop-put_bytes zero i x acc rest h k = omega (arith, ap (λ (t : ℕ). t * 2 ^ (8 * i)) nothing)
  where
    nothing : x / 2 ^ (8 * i) ≡ 0
    nothing = omega arith
rd_loop-put_bytes (suc count) i x acc rest h k =
    rw (bit_or_fields_low (8 * i) (x / 2 ^ (8 * i) % 256) acc h) (
      rd_loop-put_bytes count (i + 1) x _ rest small fewer
      ∙ omega (
        arith,
        ap (λ (t : ℕ). t * 2 ^ (8 * i)) (digit_split x i),
        ap (λ (t : ℕ). x / 2 ^ (8 * (i + 1)) * t) (pow_next i),
      ))
  where
    small : acc + x / 2 ^ (8 * i) % 256 * 2 ^ (8 * i) < 2 ^ (8 * (i + 1))
    small = bound (x / 2 ^ (8 * i) % 256) (2 ^ (8 * i)) (omega arith) h (pow_next i)
      where
        bound : (d m : ℕ) {n : ℕ} → d ≤ 255 → acc < m → n ≡ 256 * m → acc + d * m < n
        bound d m p q e = grind arith

    fewer : x / 2 ^ (8 * (i + 1)) < 256 ^ count
    fewer = omega (arith, digit_split x i, pow-suc 256 count)

-- `rd64` reads back what `put64` appended, whatever follows.
pub rd64-put64 : (x : ℕ) (rest : List ℕ) → x < 2 ^ 64 → rd64 (put64 [] x ++ rest) ≡ x
unfolding rd64 put64
rd64-put64 x rest h = rd_loop-put_bytes 8 0 x 0 rest (omega arith) (omega arith) ∙ omega arith

pub rd32-put32 : (x : ℕ) (rest : List ℕ) → x < 2 ^ 32 → rd32 (put32 [] x ++ rest) ≡ x
unfolding rd32 put32
rd32-put32 x rest h = rd_loop-put_bytes 4 0 x 0 rest (omega arith) (omega arith) ∙ omega arith

put_bytes-IsByte : (count i x : ℕ) → All IsByte (put_bytes count i x)
unfolding put_bytes
put_bytes-IsByte zero i x = tt
put_bytes-IsByte (suc count) i x = (omega arith, put_bytes-IsByte count (i + 1) x)

-- The value of a little-endian field.
pub le_value : List ℕ → ℕ
le_value [] = 0
le_value (b ∷ p) = b + 256 * le_value p

le_value-lt : (p : List ℕ) → All IsByte p → le_value p < 256 ^ length p
unfolding le_value
le_value-lt [] h = omega arith
le_value-lt (b ∷ p) (hb, h) = omega (arith, le_value-lt p h, pow-suc 256 (length p))

rd_loop-eq-le_value :
    (p rest : List ℕ) (i acc : ℕ)
    → All IsByte p
    → acc < 2 ^ (8 * i)
    → rd_loop (length p) i acc (p ++ rest) ≡ acc + le_value p * 2 ^ (8 * i)
unfolding rd_loop le_value
rd_loop-eq-le_value [] rest i acc hp h = omega arith
rd_loop-eq-le_value (b ∷ p) rest i acc (hb, hp) h =
    ap (λ (t : ℕ). rd_loop (length p) (i + 1) t (p ++ rest)) (bit_or_fields_low (8 * i) b acc h)
    ∙ rd_loop-eq-le_value p rest (i + 1) _ hp (bound b (2 ^ (8 * i)) (omega arith) h (pow_next i))
    ∙ omega (arith, ap (λ (t : ℕ). le_value p * t) (pow_next i))
  where
    bound : (d m : ℕ) {n : ℕ} → d ≤ 255 → acc < m → n ≡ 256 * m → acc + d * m < n
    bound d m s q e = grind arith

zip_or : (v b : ℕ) → b < 256 → v < 2 ^ 56 → bit_or (v * 2 ^ 8 % 2 ^ 64) b ≡ 256 * v + b
zip_or v b hb hv = ap (λ (t : ℕ). bit_or t b) fits ∙ bit_or_fields 8 v b (omega arith) ∙ omega arith
  where
    fits : v * 2 ^ 8 % 2 ^ 64 ≡ v * 2 ^ 8
    fits = omega arith

le_value-take-suc :
    (p : List ℕ) (i : ℕ)
    → i < length p
    → le_value (take (suc i) p) ≡ le_value (take i p) + get_or p i 0 * 256 ^ i
unfolding le_value
le_value-take-suc [] i h = absurd (omega arith)
le_value-take-suc (b ∷ p) zero h = omega arith
le_value-take-suc (b ∷ p) (suc i) h =
    omega
      (arith, le_value-take-suc p i (omega arith), ap (λ (t : ℕ). get_or p i 0 * t) (pow-suc 256 i))

get_or-IsByte : (p : List ℕ) (i : ℕ) → All IsByte p → get_or p i 0 < 256
get_or-IsByte [] i h = omega arith
get_or-IsByte (b ∷ p) zero (hb, h) = hb
get_or-IsByte (b ∷ p) (suc i) (hb, h) = get_or-IsByte p i h

zip_rd_loop-eq-le_value :
    (i v : ℕ) (p : List ℕ)
    → All IsByte p
    → i ≤ length p
    → suc v * 256 ^ i ≤ 2 ^ 64
    → zip_rd_loop i v p ≡ v * 256 ^ i + le_value (take i p)
unfolding zip_rd_loop le_value
zip_rd_loop-eq-le_value zero v p hp hi fits = omega arith
zip_rd_loop-eq-le_value (suc i) v p hp hi fits =
    ap (λ (t : ℕ). zip_rd_loop i t p) (zip_or v b byte narrow)
    ∙ zip_rd_loop-eq-le_value i (256 * v + b) p hp (omega arith) next
    ∙ omega (arith, le_value-take-suc p i hi, ap (λ (t : ℕ). v * t) (pow-suc 256 i))
  where
    b : ℕ
    b = get_or p i 0

    byte : b < 256
    byte = get_or-IsByte p i hp

    wide : suc v * 256 * 256 ^ i ≤ 2 ^ 64
    wide = omega (arith, ap (λ (t : ℕ). suc v * t) (pow-suc 256 i))

    cancel : (a m : ℕ) → 1 ≤ m → a * m ≤ 2 ^ 64 → a ≤ 2 ^ 64
    cancel a m h k = grind arith

    narrow : v < 2 ^ 56
    narrow = omega (arith, cancel (suc v * 256) (256 ^ i) (one-le-pow i 256 (omega arith)) wide)

    shrink : (a c m : ℕ) → a ≤ c → c * m ≤ 2 ^ 64 → a * m ≤ 2 ^ 64
    shrink a c m h k = grind arith

    next : suc (256 * v + b) * 256 ^ i ≤ 2 ^ 64
    next = shrink (suc (256 * v + b)) (suc v * 256) (256 ^ i) (omega (arith, byte)) wide

All-take : (n : ℕ) (p : List ℕ) → All IsByte p → All IsByte (take n p)
All-take zero p h = tt
All-take (suc n) [] h = tt
All-take (suc n) (b ∷ p) (hb, h) = (hb, All-take n p h)

rd64-eq-le_value : (p : List ℕ) → All IsByte p → 8 ≤ length p → rd64 p ≡ le_value (take 8 p)
unfolding rd64
rd64-eq-le_value p hp h =
    ap (λ t. rd_loop 8 0 0 t) (sym (take-append-drop 8 p))
    ∙ ap (λ (t : ℕ). rd_loop t 0 0 (take 8 p ++ drop 8 p)) (sym eight)
    ∙ rd_loop-eq-le_value (take 8 p) (drop 8 p) 0 0 (All-take 8 p hp) (omega arith)
    ∙ omega arith
  where
    eight : length (take 8 p) ≡ 8
    eight = omega (arith, length-take 8 p)

-- The two readers of 64-bit fields, of vgdelta.cpp and of zipscan.cpp, agree on eight bytes or more.
pub zip_rd64-eq-rd64 : (p : List ℕ) → All IsByte p → 8 ≤ length p → zip_rd64 p ≡ rd64 p
unfolding zip_rd64
zip_rd64-eq-rd64 p hp h =
    zip_rd_loop-eq-le_value 8 0 p hp h (omega arith) ∙ omega (arith, rd64-eq-le_value p hp h)
