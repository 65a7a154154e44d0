-- ===== src/Overlay/Masks/Deleted.antt =====
-- What a deletion hides: the path itself, and everything below it that the writelayer does not hold.
use vidya_god_fs.Prelude.{
  ◌<◌, ◌≡◌, refl, arith, true, false, inl, inr, List, [], ◌∷◌, length, is_empty, Bool-cases,
}
use vidya_god_fs.Prelude.Text.{Str, str_eq, str_eq_refl}
use vidya_god_fs.Paths.{has}
use vidya_god_fs.Paths.Ancestors.{Above, has_above_iff, or_true}
use vidya_god_fs.Overlay.Types.{VfsState}
use vidya_god_fs.Overlay.Masks.{insert, erase, is_whiteouted, is_under_whiteout, is_under_opaque}

has-some : (m : List Str) (x : Str) → has m x ≡ true → is_empty m ≡ false
unfolding has
has-some [] x h = absurd (cc)
has-some (y ∷ m) x h = refl

pub has-insert : (x : Str) (m : List Str) → has (insert x m) x ≡ true
unfolding has insert
has-insert x m = elim (Bool-cases (has m x)) [
  | inl member ↦ rw member member
  | inr fresh ↦ rw (fresh, str_eq_refl x) refl
]

pub has-insert_other : (x y : Str) (m : List Str) → has m y ≡ true → has (insert x m) y ≡ true
unfolding has insert
has-insert_other x y m h = elim (Bool-cases (has m x)) [
  | inl member ↦ rw member h
  | inr fresh ↦ rw (fresh, h) (or_true (str_eq x y))
]

-- A deleted folder's path and the paths below it are masked by the tests that `Resolve` makes.
pub is_whiteouted-at :
    (s : VfsState) (a : Str)
    → is_empty s.writelayer ≡ false
    → 0 < length a
    → has s.whiteout_set a ≡ true
    → is_whiteouted s a ≡ true
unfolding is_whiteouted
is_whiteouted-at s [] wl pos member = absurd (omega arith)
is_whiteouted-at s (c ∷ a) wl pos member = rw (wl, member) refl

pub is_under_whiteout-at :
    (s : VfsState) (a v : Str)
    → is_empty s.writelayer ≡ false
    → 0 < length a
    → has s.whiteout_set a ≡ true
    → Above a v
    → is_under_whiteout s v ≡ true
unfolding is_under_whiteout
is_under_whiteout-at s a v wl pos member up =
    rw
      (
        wl,
        has-some s.whiteout_set a member,
        (has_above_iff s.whiteout_set v).1 (a, pos, member, up),
      )
      refl

pub is_under_opaque-at :
    (s : VfsState) (a v : Str)
    → is_empty s.writelayer ≡ false
    → 0 < length a
    → has s.opaque_set a ≡ true
    → Above a v
    → is_under_opaque s v ≡ true
unfolding is_under_opaque
is_under_opaque-at s a v wl pos member up =
    rw (wl, has-some s.opaque_set a member, (has_above_iff s.opaque_set v).1 (a, pos, member, up))
      refl

-- What is erased is not there any more.
pub has-erase : (x : Str) (m : List Str) → has (erase x m) x ≡ false
unfolding has erase
has-erase x [] = refl
has-erase x (y ∷ m) = elim (Bool-cases (str_eq y x)) [
  | inl same ↦ rw same (has-erase x m)
  | inr other ↦ rw (other, other) (has-erase x m)
]
