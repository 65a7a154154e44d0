-- ===== src/Overlay/Kept/Masked.antt =====
-- `KeptMasked` against what it means.
use vidya_god_fs.Prelude.{
  ℕ, zero, suc, ◌≤◌, ◌<◌, ◌≡◌, refl, sym, ◌∙◌, arith, Bool, true, false, ◌&&◌, ◌||◌, inl, inr, ◌↔◌,
  List, [], ◌∷◌, some, length, is_empty, if◌then◌else◌, Bool-cases,
}
use vidya_god_fs.Prelude.Text.{Str}
use vidya_god_fs.Paths.{parent_vrel, has, has_above}
use vidya_god_fs.Paths.Split.{parent_shorter}
use vidya_god_fs.Paths.Ancestors.{Above, has_above_iff, or_true, or_split, no_truth}
use vidya_god_fs.Overlay.Types.{Layer, KeptMasks}
use vidya_god_fs.Overlay.Layers.{source_rel}
use vidya_god_fs.Overlay.Kept.{masked_above, kept_masked}

if_true : (b : Bool) → (if b then true else false) ≡ b
if_true true = refl
if_true false = refl

both_sets :
    (a b x y z : Bool)
    → (if a then true else (if b then true else (x || (y || z)))) ≡ ((a || x) || ((b || y) || z))
both_sets true b x y z = refl
both_sets false true x y z = sym (or_true x)
both_sets false false x y z = refl

-- The loop over both sets at once is two loops over one set each, and the test of the root.
masked_above-eq :
    (fuel : ℕ) (del opq : List Str) (cur : Str)
    → length cur ≤ fuel
    → masked_above (suc fuel) del opq cur
      ≡ (has_above fuel del cur || (has_above fuel opq cur || has opq []))
unfolding masked_above has_above
masked_above-eq zero del opq [] enough = if_true (has opq [])
masked_above-eq zero del opq (c ∷ cur) enough = absurd (omega arith)
masked_above-eq (suc fuel) del opq [] enough = if_true (has opq [])
masked_above-eq (suc fuel) del opq (c ∷ cur) enough =
    let ih =
      masked_above-eq fuel del opq (parent_vrel (c ∷ cur))
        (omega (arith, parent_shorter (c ∷ cur) (omega arith))) in
    rw ih (both_sets (has del (c ∷ cur)) (has opq (c ∷ cur)) _ _ (has opq []))

-- What hides a path below the kept layer's source: itself or a folder above it deleted there, a folder
-- above it made again, or the source's root made again.
pub data Masking (k : KeptMasks) (rel : Str) : Type 0 where
  deleted_here : has k.deleted rel ≡ true → Masking k rel
  deleted_above : (a : Str) → 0 < length a → has k.deleted a ≡ true → Above a rel → Masking k rel
  opaque_above : (a : Str) → 0 < length a → has k.opaque a ≡ true → Above a rel → Masking k rel
  opaque_root : has k.opaque [] ≡ true → Masking k rel

Masking-loop :
    (k : KeptMasks) (rel : Str)
    → has_above (length rel) k.deleted (parent_vrel rel)
        || (has_above (length rel) k.opaque (parent_vrel rel) || has k.opaque [])
      ≡ true
    → Masking k rel
Masking-loop k rel h = elim (or_split (has_above (length rel) k.deleted (parent_vrel rel)) _ h) [
  | inl del ↦
      let (a, pos, member, up) = (has_above_iff k.deleted rel).0 del in
      deleted_above a pos member up
  | inr rest ↦ elim (or_split (has_above (length rel) k.opaque (parent_vrel rel)) _ rest) [
    | inl opq ↦
        let (a, pos, member, up) = (has_above_iff k.opaque rel).0 opq in
        opaque_above a pos member up
    | inr root ↦ opaque_root root
  ]
]

loop-Masking :
    (k : KeptMasks) (rel : Str)
    → 0 < length rel
    → has k.deleted rel ≡ false
    → Masking k rel
    → (has_above (length rel) k.deleted (parent_vrel rel)
        || (has_above (length rel) k.opaque (parent_vrel rel) || has k.opaque []))
      ≡ true
loop-Masking k rel pos fresh (deleted_here h) = no_truth (has k.deleted rel) fresh h
loop-Masking k rel pos fresh (deleted_above a p h up) =
    rw ((has_above_iff k.deleted rel).1 (a, p, h, up)) refl
loop-Masking k rel pos fresh (opaque_above a p h up) =
    rw ((has_above_iff k.opaque rel).1 (a, p, h, up)) (or_true _)
loop-Masking k rel pos fresh (opaque_root h) =
    rw (h, or_true (has_above (length rel) k.opaque (parent_vrel rel))) (or_true _)

if_or : (b x : Bool) → (if b then true else x) ≡ (b || x)
if_or true x = refl
if_or false x = refl

has_above_empty : (fuel : ℕ) (cur : Str) → has_above fuel [] cur ≡ false
unfolding has_above has
has_above_empty zero cur = refl
has_above_empty (suc fuel) [] = refl
has_above_empty (suc fuel) (c ∷ cur) = has_above_empty fuel (parent_vrel (c ∷ cur))

-- The tests that `kept_masked` makes of a path that is not the source's root.
abbrev tests : List Str → List Str → Str → Bool
tests del opq rel =
    has del rel
    || (has_above (length rel) del (parent_vrel rel)
        || (has_above (length rel) opq (parent_vrel rel) || has opq []))

tests_empty :
    (del opq : List Str) (rel : Str)
    → (is_empty del && is_empty opq) ≡ true
    → tests del opq rel ≡ false
unfolding has
tests_empty [] [] rel h = rw (has_above_empty (length rel) (parent_vrel rel)) refl
tests_empty [] (x ∷ opq) rel h = absurd cc
tests_empty (x ∷ del) opq rel h = absurd cc

not_empty : (s : Str) → 0 < length s → is_empty s ≡ false
not_empty [] h = absurd (omega arith)
not_empty (c ∷ s) h = refl

kept_masked-tests :
    (l : Layer) (v : Str) (k : KeptMasks)
    → l.kept ≡ some k
    → 0 < length (source_rel l v)
    → kept_masked l v ≡ tests k.deleted k.opaque (source_rel l v)
unfolding kept_masked source_rel
kept_masked-tests l v k e pos = elim (Bool-cases (is_empty k.deleted && is_empty k.opaque)) [
  | inl none_there ↦
      rw (e, none_there) (sym (tests_empty k.deleted k.opaque (source_rel l v) none_there))
  | inr some_there ↦
      rw
        (
          e,
          some_there,
          not_empty (source_rel l v) pos,
          masked_above-eq (length (source_rel l v)) k.deleted k.opaque
              (parent_vrel (source_rel l v)) (omega (arith, parent_shorter (source_rel l v) pos)),
        )
        (if_or (has k.deleted (source_rel l v)) _)
]

-- Below the source's root, `KeptMasked` holds exactly when something masks the path.
pub kept_masked_iff :
    (l : Layer) (v : Str) (k : KeptMasks)
    → l.kept ≡ some k
    → 0 < length (source_rel l v)
    → (kept_masked l v ≡ true) ↔ Masking k (source_rel l v)
kept_masked_iff l v k e pos = (sound, complete)
  where
    same : kept_masked l v ≡ tests k.deleted k.opaque (source_rel l v)
    same = kept_masked-tests l v k e pos

    sound : kept_masked l v ≡ true → Masking k (source_rel l v)
    sound h = elim (or_split (has k.deleted (source_rel l v)) _ (sym same ∙ h)) [
      | inl here ↦ deleted_here here
      | inr rest ↦ Masking-loop k (source_rel l v) rest
    ]

    complete : Masking k (source_rel l v) → kept_masked l v ≡ true
    complete m = elim (Bool-cases (has k.deleted (source_rel l v))) [
      | inl here ↦ same ∙ rw here refl
      | inr fresh ↦ same ∙ rw fresh (loop-Masking k (source_rel l v) pos fresh m)
    ]
