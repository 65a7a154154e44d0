-- ===== src/Prelude/Slices.antt =====
-- `take`, `drop` and their lengths: a read of `n` elements at offset `k` is `take n (drop k xs)`.
use Prim.Native.Nat.{ℕ, zero, suc, ◌+◌, ◌-◌, ◌≤◌, min}
use mathlib.Core.Path.{◌≡◌, refl, ap, ◌∙◌, sym}
use mathlib.Core.List.{List, [], ◌∷◌, ◌++◌, append_assoc}
use native.Mathlib.Omega.{arith}
use vidya_god_fs.Prelude.Lists.{length, take, drop, length-append}

module _ {ℓ} {A : Type ℓ} where
  pub length-take : (n : ℕ) (xs : List A) → length (take n xs) ≡ min n (length xs)
  length-take zero xs = omega arith
  length-take (suc n) [] = omega arith
  length-take (suc n) (x ∷ xs) = omega (arith, length-take n xs)

  pub length-drop : (n : ℕ) (xs : List A) → length (drop n xs) ≡ length xs - n
  length-drop zero xs = omega arith
  length-drop (suc n) [] = omega arith
  length-drop (suc n) (x ∷ xs) = omega (arith, length-drop n xs)

  pub take_all : (n : ℕ) (xs : List A) → length xs ≤ n → take n xs ≡ xs
  take_all zero [] h = refl
  take_all zero (x ∷ xs) h = absurd (omega arith)
  take_all (suc n) [] h = refl
  take_all (suc n) (x ∷ xs) h = ap (λ t. x ∷ t) (take_all n xs (omega arith))

  pub drop_all : (n : ℕ) (xs : List A) → length xs ≤ n → drop n xs ≡ []
  drop_all zero [] h = refl
  drop_all zero (x ∷ xs) h = absurd (omega arith)
  drop_all (suc n) [] h = refl
  drop_all (suc n) (x ∷ xs) h = drop_all n xs (omega arith)

  pub take-append-drop : (n : ℕ) (xs : List A) → take n xs ++ drop n xs ≡ xs
  take-append-drop zero xs = refl
  take-append-drop (suc n) [] = refl
  take-append-drop (suc n) (x ∷ xs) = ap (λ t. x ∷ t) (take-append-drop n xs)

  pub take-append_le : (n : ℕ) (xs ys : List A) → n ≤ length xs → take n (xs ++ ys) ≡ take n xs
  take-append_le zero xs ys h = refl
  take-append_le (suc n) [] ys h = absurd (omega arith)
  take-append_le (suc n) (x ∷ xs) ys h = ap (λ t. x ∷ t) (take-append_le n xs ys (omega arith))

  pub take-append_ge :
      (n k : ℕ) (xs ys : List A) → n ≡ length xs + k → take n (xs ++ ys) ≡ xs ++ take k ys
  take-append_ge n k [] ys h = ap (λ t. take t ys) (omega arith)
  take-append_ge zero k (x ∷ xs) ys h = absurd (omega arith)
  take-append_ge (suc n) k (x ∷ xs) ys h = ap (λ t. x ∷ t) (take-append_ge n k xs ys (omega arith))

  pub drop-append_le :
      (n : ℕ) (xs ys : List A) → n ≤ length xs → drop n (xs ++ ys) ≡ drop n xs ++ ys
  drop-append_le zero xs ys h = refl
  drop-append_le (suc n) [] ys h = absurd (omega arith)
  drop-append_le (suc n) (x ∷ xs) ys h = drop-append_le n xs ys (omega arith)

  pub drop-append_ge :
      (n k : ℕ) (xs ys : List A) → n ≡ length xs + k → drop n (xs ++ ys) ≡ drop k ys
  drop-append_ge n k [] ys h = ap (λ t. drop t ys) (omega arith)
  drop-append_ge zero k (x ∷ xs) ys h = absurd (omega arith)
  drop-append_ge (suc n) k (x ∷ xs) ys h = drop-append_ge n k xs ys (omega arith)

  pub take_cong : (n k : ℕ) (xs : List A) → n ≡ k → take n xs ≡ take k xs
  take_cong n k xs e = ap (λ t. take t xs) e

  pub drop_cong : (n k : ℕ) (xs : List A) → n ≡ k → drop n xs ≡ drop k xs
  drop_cong n k xs e = ap (λ t. drop t xs) e

  pub drop-drop : (n k : ℕ) (xs : List A) → drop n (drop k xs) ≡ drop (k + n) xs
  drop-drop n zero xs = drop_cong n (0 + n) xs (omega arith)
  drop-drop n (suc k) [] = drop_all n [] (omega arith) ∙ sym (drop_all (suc k + n) [] (omega arith))
  drop-drop n (suc k) (x ∷ xs) =
      drop-drop n k xs ∙ drop_cong (suc (k + n)) (suc k + n) (x ∷ xs) (omega arith)

  pub take-take : (n k : ℕ) (xs : List A) → n ≤ k → take n (take k xs) ≡ take n xs
  take-take zero k xs h = refl
  take-take (suc n) zero xs h = absurd (omega arith)
  take-take (suc n) (suc k) [] h = refl
  take-take (suc n) (suc k) (x ∷ xs) h = ap (λ t. x ∷ t) (take-take n k xs (omega arith))

  -- A slice read in two pieces.
  pub take_split : (n k : ℕ) (xs : List A) → take (n + k) xs ≡ take n xs ++ take k (drop n xs)
  take_split zero k xs = take_cong (0 + k) k xs (omega arith)
  take_split (suc n) k [] =
      take_all (suc n + k) [] (omega arith) ∙ sym (take_all k [] (omega arith))
  take_split (suc n) k (x ∷ xs) =
      take_cong (suc n + k) (suc (n + k)) (x ∷ xs) (omega arith)
      ∙ ap (λ t. x ∷ t) (take_split n k xs)

  pub drop-take : (n k : ℕ) (xs : List A) → drop n (take (n + k) xs) ≡ take k (drop n xs)
  drop-take zero k xs = take_cong (0 + k) k xs (omega arith)
  drop-take (suc n) k [] =
      ap (drop (suc n)) (take_all (suc n + k) [] (omega arith)) ∙ sym (take_all k [] (omega arith))
  drop-take (suc n) k (x ∷ xs) =
      ap (drop (suc n)) (take_cong (suc n + k) (suc (n + k)) (x ∷ xs) (omega arith))
      ∙ drop-take n k xs

  pub length-slice : (n k : ℕ) (xs : List A) → k + n ≤ length xs → length (take n (drop k xs)) ≡ n
  length-slice n k xs h = omega (arith, length-take n (drop k xs), length-drop k xs)

  -- A buffer that holds the first bytes of a read, with the next ones behind it.
  pub slice_extend :
      (xs buf chunk : List A) (off k : ℕ)
      → buf ≡ take (length buf) (drop off xs)
      → chunk ≡ take k (drop (off + length buf) xs)
      → off + length buf + k ≤ length xs
      → (length (buf ++ chunk) ≡ length buf + k)
        × (buf ++ chunk ≡ take (length (buf ++ chunk)) (drop off xs))
  slice_extend xs buf chunk off k hb hc fits = (len, whole)
    where
      len : length (buf ++ chunk) ≡ length buf + k
      len =
          omega (
            arith,
            length-append buf chunk,
            ap length hc,
            length-slice k (off + length buf) xs fits,
          )

      whole : buf ++ chunk ≡ take (length (buf ++ chunk)) (drop off xs)
      whole =
          ap (λ t. t ++ chunk) hb
          ∙ ap (λ t. take (length buf) (drop off xs) ++ t)
              (hc ∙ ap (take k) (sym (drop-drop (length buf) off xs)))
          ∙ sym (take_split (length buf) k (drop off xs))
          ∙ take_cong (length buf + k) (length (buf ++ chunk)) (drop off xs) (sym len)

  -- A range that ends inside the first of two lists.
  pub last_piece :
      (sb rest out : List A) (k w : ℕ)
      → k + w ≤ length sb
      → out ++ take w (drop k sb) ≡ out ++ take w (drop k (sb ++ rest))
  last_piece sb rest out k w h =
      ap (λ t. out ++ t)
        (sym (
          ap (take w) (drop-append_le k sb rest (omega arith))
          ∙ take-append_le w (drop k sb) rest (omega (arith, length-drop k sb))))

  -- A range that goes on behind the first of two lists takes that list's end and goes on.
  pub next_piece :
      (sb rest out : List A) (k chunk w : ℕ)
      → k + chunk ≡ length sb
      → chunk ≤ w
      → (out ++ take chunk (drop k sb)) ++ take (w - chunk) (drop 0 rest)
        ≡ out ++ take w (drop k (sb ++ rest))
  next_piece sb rest out k chunk w h le =
      append_assoc out (take chunk (drop k sb)) (take (w - chunk) rest)
      ∙ ap (λ t. out ++ t)
          (ap (λ t. t ++ take (w - chunk) rest)
              (take_all chunk (drop k sb) (omega (arith, length-drop k sb)))
            ∙ sym (
                ap (take w) (drop-append_le k sb rest (omega arith))
                ∙ take-append_ge w (w - chunk) (drop k sb) rest (omega (arith, length-drop k sb))))

  -- A slice of a slice.
  pub slice_in_slice :
      (n k m o : ℕ) (xs : List A)
      → k + n ≤ m
      → take n (drop k (take m (drop o xs))) ≡ take n (drop (o + k) xs)
  slice_in_slice n k m o xs h =
      ap (λ t. take n (drop k t)) (take_cong m (k + (m - k)) (drop o xs) (omega arith))
      ∙ ap (take n) (drop-take k (m - k) (drop o xs))
      ∙ take-take n (m - k) (drop k (drop o xs)) (omega arith)
      ∙ ap (take n) (drop-drop k o xs)
