-- ===== src/Paths/Split.antt =====
-- What `ParentVRel` and `BaseName` cut a path into.
use mathlib.Core.Path.{subst}
use vidya_god_fs.Prelude.{
  ℕ, suc, ◌<◌, ◌≡◌, refl, sym, ap, ◌∙◌, arith, true, false, [], ◌∷◌, ◌++◌, none, some, length, take,
  drop, ◌==◌, ==_iff, Bool-cases, inl, inr, length-append,
}
use vidya_god_fs.Prelude.Text.{Str, slash}
use vidya_god_fs.Paths.{find_last_slash, parent_vrel, base_name}

-- A path without a slash.
abbrev pub NoSlash : Str → Type 0
NoSlash [] = Unit
NoSlash (c ∷ s) = ((c == slash) ≡ false) × NoSlash s

-- Where the last slash stands: in front of it the parent, behind it no further slash.
pub data LastSlash (v : Str) : Type 0 where
  absent : NoSlash v → find_last_slash v ≡ none → LastSlash v
  at :
      (front back : Str)
      → v ≡ front ++ (slash ∷ back)
      → NoSlash back
      → find_last_slash v ≡ some (length front)
      → LastSlash v

find_later :
    (c : ℕ) (s : Str) (i : ℕ) → find_last_slash s ≡ some i → find_last_slash (c ∷ s) ≡ some (suc i)
unfolding find_last_slash
find_later c s i e = rw e

find_here :
    (c : ℕ) (s : Str)
    → find_last_slash s ≡ none
    → (c == slash) ≡ true
    → find_last_slash (c ∷ s) ≡ some 0
unfolding find_last_slash
find_here c s e h = rw (e, h) refl

find_none :
    (c : ℕ) (s : Str)
    → find_last_slash s ≡ none
    → (c == slash) ≡ false
    → find_last_slash (c ∷ s) ≡ none
unfolding find_last_slash
find_none c s e h = rw (e, h) refl

extend : (c : ℕ) (s : Str) → LastSlash s → LastSlash (c ∷ s)
extend c s (at front back e none_behind found) =
    at (c ∷ front) back (ap (λ t. c ∷ t) e) none_behind (find_later c s (length front) found)
extend c s (absent without missing) = elim (Bool-cases (c == slash)) [
  | inl here ↦
      at [] s (ap (λ (t : ℕ). t ∷ s) ((==_iff c slash).0 here)) without (find_here c s missing here)
  | inr other ↦ absent (other, without) (find_none c s missing other)
]

pub last_slash : (v : Str) → LastSlash v
last_slash [] = absent tt (unfold find_last_slash in refl)
last_slash (c ∷ s) = extend c s (last_slash s)

take_front : (front back : Str) → take (length front) (front ++ back) ≡ front
take_front [] back = refl
take_front (c ∷ front) back = ap (λ t. c ∷ t) (take_front front back)

drop_front : (front back : Str) → drop (suc (length front)) (front ++ (slash ∷ back)) ≡ back
drop_front [] back = refl
drop_front (c ∷ front) back = drop_front front back

-- `ParentVRel` and `BaseName` split a path at its last slash: either the path has no slash, the
-- parent is the root and the name is the whole path; or the parent, a slash and the name make up the
-- path, and the name has no slash.
pub data Split (v : Str) : Type 0 where
  top : NoSlash v → parent_vrel v ≡ [] → base_name v ≡ v → Split v
  under : v ≡ parent_vrel v ++ (slash ∷ base_name v) → NoSlash (base_name v) → Split v

parent-at :
    (v front : Str)
    → find_last_slash v ≡ some (length front)
    → parent_vrel v ≡ take (length front) v
unfolding parent_vrel
parent-at v front e = rw (parent_vrel, e) refl

base-at :
    (v front : Str)
    → find_last_slash v ≡ some (length front)
    → base_name v ≡ drop (suc (length front)) v
unfolding base_name
base-at v front e = rw (base_name, e) refl

pub parent_vrel-Split : (v : Str) → Split v
unfolding parent_vrel base_name
parent_vrel-Split v = elim (last_slash v) [
  | absent without missing ↦
      top without (rw (parent_vrel, missing) refl) (rw (base_name, missing) refl)
  | at front back e none_behind found ↦
      let p : parent_vrel v ≡ front =
        parent-at v front found ∙ ap (take (length front)) e ∙ take_front front (slash ∷ back) in
      let b : base_name v ≡ back =
        base-at v front found ∙ ap (drop (suc (length front))) e ∙ drop_front front back in
      under
        (e ∙ ap (λ t. t ++ (slash ∷ back)) (sym p) ∙ ap (λ t. parent_vrel v ++ (slash ∷ t)) (sym b))
        (subst NoSlash (sym b) none_behind)
]

-- The parent of a path that is not the root is shorter.
pub parent_shorter : (v : Str) → 0 < length v → length (parent_vrel v) < length v
parent_shorter v pos = elim (parent_vrel-Split v) [
  | top without p b ↦ omega (arith, ap length p)
  | under e without ↦
      omega (arith, ap length e, length-append (parent_vrel v) (slash ∷ base_name v))
]
