-- ===== src/Delta/Read/Cache.antt =====
-- The block cache of `GetAddBlock` in src/vgdelta.cpp: a coherent cache holds under each key the block of
-- that key.
use vidya_god_fs.Prelude.{
  ℕ, ◌+◌, ◌*◌, ◌%◌, ◌^◌, ◌≤◌, ◌<◌, ◌≡◌, refl, sym, ap, ◌∙◌, arith, true, false, List, [], ◌∷◌, ◌++◌,
  Option, none, some, length, get_or, ltb, ◌==◌, ==_iff, Bool-cases, Option-cases, inl, inr,
  bit_xor,
}
use mathlib.Core.Path.{subst, subst₂}
use vidya_god_fs.Prelude.Bits.{bit_xor_fields}
use vidya_god_fs.Delta.Types.{AddSource}
use vidya_god_fs.Delta.Zstd.{Zstd}
use vidya_god_fs.Delta.Read.{
  cache_cap, BlockCache, find_block, erase_block, block_key, evict, remember, no_add, load_block,
  get_add_block,
}

block_key-eq :
    (add_src blk : ℕ)
    → add_src < 2 ^ 24
    → blk < 2 ^ 40
    → block_key add_src blk ≡ add_src * 2 ^ 40 + blk
unfolding block_key
block_key-eq add_src blk h k = ap (λ (t : ℕ). bit_xor t blk) fits ∙ bit_xor_fields 40 add_src blk k
  where
    fits : add_src * 2 ^ 40 % 2 ^ 64 ≡ add_src * 2 ^ 40
    fits = omega arith

-- Two blocks within the bounds share a key only if they are one block.
pub block_key-injective :
    (a b a' b' : ℕ)
    → a < 2 ^ 24
    → a' < 2 ^ 24
    → b < 2 ^ 40
    → b' < 2 ^ 40
    → block_key a b ≡ block_key a' b'
    → (a ≡ a') × (b ≡ b')
block_key-injective a b a' b' ha ha' hb hb' e =
    omega (arith, e, block_key-eq a b ha hb, block_key-eq a' b' ha' hb')

find_block-erase_block_self :
    (key : ℕ) (m : List (ℕ × List ℕ)) → find_block key (erase_block key m) ≡ none
unfolding find_block erase_block
find_block-erase_block_self key [] = refl
find_block-erase_block_self key ((j, r) ∷ m) = ground (arith, find_block-erase_block_self key m)

find_block-erase_block :
    (key k : ℕ) (m : List (ℕ × List ℕ)) (raw : List ℕ)
    → find_block key (erase_block k m) ≡ some raw
    → find_block key m ≡ some raw
unfolding find_block erase_block
find_block-erase_block key k [] raw e = cc
find_block-erase_block key k ((j, r) ∷ m) raw e =
    ground (arith, find_block-erase_block key k m raw, find_block-erase_block_self key m)

find_same :
    (k key : ℕ) (raw : List ℕ) (m : List (ℕ × List ℕ))
    → (k == key) ≡ true
    → find_block key ((k, raw) ∷ m) ≡ some raw
unfolding find_block
find_same k key raw m e = rw e

find_other :
    (k key : ℕ) (raw : List ℕ) (m : List (ℕ × List ℕ))
    → (k == key) ≡ false
    → find_block key ((k, raw) ∷ m) ≡ find_block key m
unfolding find_block
find_other k key raw m e = rw e

remember_old :
    (key : ℕ) (raw old : List ℕ) (c : BlockCache)
    → find_block key c.entries ≡ some old
    → remember key raw c ≡ c
unfolding remember
remember_old key raw old c e = rw (remember, e)

remember_new :
    (key : ℕ) (raw : List ℕ) (c : BlockCache)
    → find_block key c.entries ≡ none
    → remember key raw c
      ≡ evict (record { entries = (key, raw) ∷ c.entries; fifo = c.fifo ++ (key ∷ []) })
unfolding remember evict
remember_new key raw c e = rw (remember, e)

get_hit :
    (z : Zstd) (a : ℕ) (src : AddSource) (b : ℕ) (old : List ℕ) (c : BlockCache)
    → find_block (block_key a b) c.entries ≡ some old
    → get_add_block z a src b c ≡ (some old, c)
unfolding get_add_block
get_hit z a src b old c e = rw (get_add_block, e)

get_miss :
    (z : Zstd) (a : ℕ) (src : AddSource) (b : ℕ) (raw : List ℕ) (c : BlockCache)
    → find_block (block_key a b) c.entries ≡ none
    → load_block z src b ≡ some raw
    → get_add_block z a src b c ≡ (some raw, remember (block_key a b) raw c)
unfolding get_add_block remember
get_miss z a src b raw c e l = rw (get_add_block, e, l)

module _ (z : Zstd) (adds : List AddSource) where
  -- Every entry holds the block that its key names.
  abbrev pub Coherent : BlockCache → Type 0
  Coherent c =
      (a b : ℕ) (raw : List ℕ)
      → a < length adds
      → b < 2 ^ 40
      → find_block (block_key a b) c.entries ≡ some raw
      → load_block z (get_or adds a no_add) b ≡ some raw

  evict-Coherent : (c : BlockCache) → Coherent c → Coherent (evict c)
  unfolding evict
  evict-Coherent c h a b raw ha hb e = elim (Bool-cases (ltb cache_cap (length c.fifo))) [
    | inr room ↦ h a b raw ha hb (rw room at e)
    | inl full ↦ h a b raw ha hb (find_block-erase_block _ _ c.entries raw (rw full at e))
  ]

  -- A loaded block may be added.
  added-Coherent :
      (a b : ℕ) (raw : List ℕ) (c : BlockCache) (fifo : List ℕ)
      → length adds ≤ 2 ^ 24
      → a < length adds
      → b < 2 ^ 40
      → load_block z (get_or adds a no_add) b ≡ some raw
      → Coherent c
      → Coherent (record { entries = (block_key a b, raw) ∷ c.entries; fifo = fifo })
  added-Coherent a b raw c fifo few ha hb loaded h a' b' raw' ha' hb' e =
      elim (Bool-cases (block_key a b == block_key a' b')) [
        | inr other ↦ h a' b' raw' ha' hb' (sym (find_other _ _ raw c.entries other) ∙ e)
        | inl same ↦
            let (ea, eb) =
              block_key-injective a b a' b' (omega arith) (omega arith) hb hb'
                ((==_iff _ _).0 same) in
            subst₂ (λ k l. load_block z (get_or adds k no_add) l ≡ some raw') ea eb
              (loaded ∙ sym (find_same _ _ raw c.entries same) ∙ e)
      ]

  remember-Coherent :
      (a b : ℕ) (raw : List ℕ) (c : BlockCache)
      → length adds ≤ 2 ^ 24
      → a < length adds
      → b < 2 ^ 40
      → load_block z (get_or adds a no_add) b ≡ some raw
      → Coherent c
      → Coherent (remember (block_key a b) raw c)
  remember-Coherent a b raw c few ha hb loaded h =
      elim (Option-cases (find_block (block_key a b) c.entries)) [
        | inr (old, e) ↦ subst Coherent (sym (remember_old _ raw old c e)) h
        | inl e ↦ subst Coherent (sym (remember_new _ raw c e)) (
            evict-Coherent _
              (added-Coherent a b raw c (c.fifo ++ (block_key a b ∷ [])) few ha hb loaded h))
      ]

  -- From a coherent cache `GetAddBlock` returns the block that decompression gives, and leaves a
  -- coherent cache.
  pub get_add_block-Coherent :
      (a b : ℕ) (raw : List ℕ) (c : BlockCache)
      → length adds ≤ 2 ^ 24
      → a < length adds
      → b < 2 ^ 40
      → load_block z (get_or adds a no_add) b ≡ some raw
      → Coherent c
      → ((get_add_block z a (get_or adds a no_add) b c).0 ≡ some raw)
        × Coherent (get_add_block z a (get_or adds a no_add) b c).1
  get_add_block-Coherent a b raw c few ha hb loaded h =
      elim (Option-cases (find_block (block_key a b) c.entries)) [
        | inr (old, e) ↦
            subst (Good a b raw) (sym (get_hit z a (get_or adds a no_add) b old c e))
              (sym (h a b old ha hb e) ∙ loaded, h)
        | inl e ↦
            subst (Good a b raw) (sym (get_miss z a (get_or adds a no_add) b raw c e loaded))
              (refl, remember-Coherent a b raw c few ha hb loaded h)
      ]
    where
      Good : ℕ → ℕ → List ℕ → Option (List ℕ) × BlockCache → Type 0
      Good a b raw r = (r.0 ≡ some raw) × Coherent r.1
