-- ===== src/Overlay/Layers/Case.antt =====
-- `CanonicalCase` of src/overlay.cpp, up to the case of letters.
use vidya_god_fs.Prelude.{
  ℕ, zero, suc, ◌≡◌, refl, ap, ◌∙◌, Bool, true, false, ◌&&◌, ◌+◌, ◌-◌, leb, List, [], ◌∷◌, ◌++◌,
  Option, none, some, length, take, drop, if◌then◌else◌, take-append-drop,
}
use vidya_god_fs.Prelude.Text.{Str}
use vidya_god_fs.Paths.{find_last_slash}
use vidya_god_fs.Zip.{lookup}
use vidya_god_fs.Overlay.Types.{VfsState}
use vidya_god_fs.Overlay.Layers.{fold_case, canonical_from, canonical_case}

fold_case-append : (a b : Str) → fold_case (a ++ b) ≡ fold_case a ++ fold_case b
unfolding fold_case
fold_case-append [] b = refl
fold_case-append (c ∷ a) b =
    ap (λ t. (if leb 65 c && leb c 90 then c - 65 + 97 else c) ∷ t) (fold_case-append a b)

fold_case-drop : (n : ℕ) (v : Str) → fold_case (drop n v) ≡ drop n (fold_case v)
unfolding fold_case
fold_case-drop zero v = refl
fold_case-drop (suc n) [] = refl
fold_case-drop (suc n) (c ∷ v) = fold_case-drop n v

-- Every name in the map stands under its own folded form.
abbrev pub NamesFolded : List (Str × Str) → Type 0
NamesFolded m = (k spelled : Str) → lookup k m ≡ some spelled → fold_case spelled ≡ k

module _ (m : List (Str × Str)) (v : Str) (known : NamesFolded m) where
  -- A path that is `v` but for its case.
  record Same (x : Str) : Type 0 where
    same : fold_case x ≡ fold_case v

  spelled-Same :
      (cut : ℕ) (spelled : Str)
      → lookup (take cut (fold_case v)) m ≡ some spelled
      → Same (spelled ++ drop cut v)
  spelled-Same cut spelled e = record {
    same =
        fold_case-append spelled (drop cut v)
        ∙ ap (λ t. t ++ fold_case (drop cut v)) (known (take cut (fold_case v)) spelled e)
        ∙ ap (λ t. take cut (fold_case v) ++ t) (fold_case-drop cut v)
        ∙ take-append-drop cut (fold_case v);
  }

  found_or :
      (cut : ℕ) (o : Option Str) (other : Str)
      → lookup (take cut (fold_case v)) m ≡ o
      → Same other
      → Same (elim o [ some spelled ↦ spelled ++ drop cut v | none ↦ other ])
  found_or cut none other e s = s
  found_or cut (some spelled) other e s = spelled-Same cut spelled e

  cut_or :
      (o : Option ℕ) (g : ℕ → Str)
      → ((at : ℕ) → Same (g at))
      → Same (elim o [ none ↦ v | some zero ↦ v | some (suc at) ↦ g at ])
  cut_or none g h = record { same = refl }
  cut_or (some zero) g h = record { same = refl }
  cut_or (some (suc at)) g h = h at

  canonical_from-Same : (fuel cut : ℕ) → Same (canonical_from fuel m (fold_case v) v cut)
  unfolding canonical_from
  canonical_from-Same zero cut = record { same = refl }
  canonical_from-Same (suc fuel) cut = found_or cut (lookup (take cut (fold_case v)) m) _ refl (
      cut_or (find_last_slash (take cut (fold_case v)))
        (λ at. canonical_from fuel m (fold_case v) v (suc at))
        (λ at. canonical_from-Same fuel (suc at)))

  unless_skipped : (b : Bool) (x : Str) → Same x → Same (if b then v else x)
  unless_skipped true x s = record { same = refl }
  unless_skipped false x s = s

-- `CanonicalCase` gives a path that differs from the given one in the case of ASCII letters at most, when
-- every name in the state's map stands under its own folded form.
pub fold_case-canonical_case :
    (s : VfsState) (v : Str)
    → NamesFolded s.canon_case
    → fold_case (canonical_case s v) ≡ fold_case v
unfolding canonical_case
fold_case-canonical_case s v known =
    (unless_skipped s.canon_case v known _ _
      (canonical_from-Same s.canon_case v known (length v) (length (fold_case v)))).same
