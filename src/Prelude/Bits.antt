-- ===== src/Prelude/Bits.antt =====
-- `|` and `^` of two numbers with no binary digit in common are their sum. Both operations are
-- recursions on the digits, and the laws are proved once for any operation of that form.
use Prim.Native.Nat.{
  ℕ, zero, suc, ◌+◌, ◌*◌, ◌/◌, ◌%◌, ◌^◌, ◌≤◌, ◌<◌, max, digits, bitwise, differ, bit_or, bit_xor,
  bit_or-bitwise, bit_xor-bitwise,
}
use mathlib.Core.Path.{◌≡◌, refl, ap, ◌∙◌}
use native.Mathlib.Omega.{arith}
use native.Mathlib.Nat.{le_refl, pow-suc}

module _ (f : ℕ → ℕ → ℕ) where
  -- The operation on digits with the fuel `n`; the second number is what is left over.
  abbrev op_fuel : ℕ → ℕ → ℕ → ℕ
  op_fuel n a b = digits (λ y. y) f n a b

  op_fuel_irrelevant : (n m a b : ℕ) → a ≤ n → a ≤ m → op_fuel n a b ≡ op_fuel m a b
  op_fuel_irrelevant n m zero b p q = both_zero n m
    where
      both_zero : (k l : ℕ) → op_fuel k 0 b ≡ op_fuel l 0 b
      both_zero zero zero = refl
      both_zero zero (suc l) = refl
      both_zero (suc k) zero = refl
      both_zero (suc k) (suc l) = refl
  op_fuel_irrelevant zero m (suc a) b p q = absurd (omega arith)
  op_fuel_irrelevant (suc n) zero (suc a) b p q = absurd (omega arith)
  op_fuel_irrelevant (suc n) (suc m) (suc a) b p q =
      ap (λ t. t * 2 + f (suc a % 2) (b % 2))
        (op_fuel_irrelevant n m (suc a / 2) (b / 2) (omega arith) (omega arith))

  -- The lowest digit, and twice the rest.
  lowest_digit :
      (a rest : ℕ)
      → bitwise (λ y. y) f (suc a) rest
        ≡ f (suc a % 2) (rest % 2) + 2 * bitwise (λ y. y) f (suc a / 2) (rest / 2)
  lowest_digit a rest =
      omega
        (arith, op_fuel_irrelevant a (suc a / 2) (suc a / 2) (rest / 2) (omega arith) (le_refl _))

-- What the two laws below use of an operation.
record IsDigitwise (op : ℕ → ℕ → ℕ) : Type 0 where
  nil : (b : ℕ) → op 0 b ≡ b
  even_left : (a b : ℕ) → op (2 * a) b ≡ 2 * op a (b / 2) + b % 2
  even_right : (a b : ℕ) → op a (2 * b) ≡ 2 * op (a / 2) b + a % 2

twice_pow : (q k : ℕ) → q * 2 ^ suc k ≡ 2 * (q * 2 ^ k)
twice_pow q k = omega (arith, ap (λ (t : ℕ). q * t) (pow-suc 2 k))

module _ (op : ℕ → ℕ → ℕ) (d : IsDigitwise op) where
  op-zero : (n a : ℕ) → a ≤ n → op a 0 ≡ a
  op-zero n zero h = d.nil 0
  op-zero zero (suc a) h = absurd (omega arith)
  op-zero (suc n) (suc a) h =
      omega (arith, d.even_right (suc a) 0, op-zero n (suc a / 2) (omega arith))

  high_low : (k q r : ℕ) → r < 2 ^ k → op (q * 2 ^ k) r ≡ q * 2 ^ k + r
  high_low zero q r h = ground (arith, op-zero q q)
  high_low (suc k) q r h =
      ap (λ t. op t r) (twice_pow q k)
      ∙ omega (arith, d.even_left (q * 2 ^ k) r, high_low k q (r / 2) (half k r h), twice_pow q k)
    where
      half : (k r : ℕ) → r < 2 ^ suc k → r / 2 < 2 ^ k
      half k r h = omega (arith, pow-suc 2 k)

  low_high : (k q r : ℕ) → r < 2 ^ k → op r (q * 2 ^ k) ≡ r + q * 2 ^ k
  low_high zero q r h = ground (arith, d.nil q)
  low_high (suc k) q r h =
      ap (λ t. op r t) (twice_pow q k)
      ∙ omega (arith, d.even_right r (q * 2 ^ k), low_high k q (r / 2) (half k r h), twice_pow q k)
    where
      half : (k r : ℕ) → r < 2 ^ suc k → r / 2 < 2 ^ k
      half k r h = omega (arith, pow-suc 2 k)

or_digit : (p q : ℕ) → bit_or p q ≡ max (p % 2) (q % 2) + 2 * bit_or (p / 2) (q / 2)
or_digit zero q = simp bit_or-bitwise (omega arith)
or_digit (suc p) q = simp bit_or-bitwise (lowest_digit max p q)

xor_digit : (p q : ℕ) → bit_xor p q ≡ differ (p % 2) (q % 2) + 2 * bit_xor (p / 2) (q / 2)
xor_digit zero q = simp bit_xor-bitwise (omega arith)
xor_digit (suc p) q = simp bit_xor-bitwise (lowest_digit differ p q)

differ-zero : (x : ℕ) → differ x 0 ≡ x
differ-zero zero = refl
differ-zero (suc x) = refl

bit_or-IsDigitwise : IsDigitwise bit_or
bit_or-IsDigitwise = record {
  nil = λ b. bit_or-bitwise 0 b;
  even_left = λ a b. rw (even_half a) at (even a b);
  even_right = λ a b. rw (even_half b) at (even_r a b);
}
  where
    even_half : (a : ℕ) → 2 * a / 2 ≡ a
    even_half a = omega arith

    even : (a b : ℕ) → bit_or (2 * a) b ≡ 2 * bit_or (2 * a / 2) (b / 2) + b % 2
    even a b = omega (arith, or_digit (2 * a) b)

    even_r : (a b : ℕ) → bit_or a (2 * b) ≡ 2 * bit_or (a / 2) (2 * b / 2) + a % 2
    even_r a b = omega (arith, or_digit a (2 * b))

bit_xor-IsDigitwise : IsDigitwise bit_xor
bit_xor-IsDigitwise = record {
  nil = λ b. bit_xor-bitwise 0 b;
  even_left = λ a b. rw (even_half a) at (even a b);
  even_right = λ a b. rw (even_half b) at (even_r a b);
}
  where
    even_half : (a : ℕ) → 2 * a / 2 ≡ a
    even_half a = omega arith

    even_mod : (a : ℕ) → 2 * a % 2 ≡ 0
    even_mod a = omega arith

    even : (a b : ℕ) → bit_xor (2 * a) b ≡ 2 * bit_xor (2 * a / 2) (b / 2) + b % 2
    even a b = rw (even_mod a) at (xor_digit (2 * a) b) ∙ omega arith

    even_r : (a b : ℕ) → bit_xor a (2 * b) ≡ 2 * bit_xor (a / 2) (2 * b / 2) + a % 2
    even_r a b = rw (even_mod b, differ-zero) at (xor_digit a (2 * b)) ∙ omega arith

-- `(q << k) | r` and `r | (q << k)` for `r` below `2 ^ k`.
pub bit_or_fields : (k q r : ℕ) → r < 2 ^ k → bit_or (q * 2 ^ k) r ≡ q * 2 ^ k + r
bit_or_fields = high_low bit_or bit_or-IsDigitwise

pub bit_or_fields_low : (k q r : ℕ) → r < 2 ^ k → bit_or r (q * 2 ^ k) ≡ r + q * 2 ^ k
bit_or_fields_low = low_high bit_or bit_or-IsDigitwise

-- `(q << k) ^ r` for `r` below `2 ^ k`.
pub bit_xor_fields : (k q r : ℕ) → r < 2 ^ k → bit_xor (q * 2 ^ k) r ≡ q * 2 ^ k + r
bit_xor_fields = high_low bit_xor bit_xor-IsDigitwise
