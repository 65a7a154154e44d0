-- ===== src/Overlay/Renames.antt =====
-- What the renaming of a folder does to a set of marks: `RenameMaskPrefix` and `RewritePrefix` of
-- src/overlay.cpp.
use mathlib.Core.Path.{subst}
use vidya_god_fs.Prelude.{
  ℕ, suc, ◌≡◌, refl, sym, ap, ◌∙◌, arith, Bool, true, false, ◌||◌, inl, inr, ◌↔◌, ◌≢◌, append_assoc,
  length-append, List, [], ◌∷◌, ◌++◌, length, drop, if◌then◌else◌, Bool-cases,
}
use vidya_god_fs.Prelude.Text.{Str, str_eq, str_eq_refl, str_eq→eq, slash, starts_with}
use vidya_god_fs.Paths.{has}
use vidya_god_fs.Paths.Ancestors.{
  Above, starts_with-append, or_true, or_split, no_truth, starts_with→append,
}
use vidya_god_fs.Overlay.Masks.{insert, split_moved, merge, rename_set}
use vidya_god_fs.Overlay.Kept.{rewrite_set}

has-insert_eq : (x y : Str) (m : List Str) → has (insert x m) y ≡ (str_eq x y || has m y)
unfolding has insert
has-insert_eq x y m = elim (Bool-cases (has m x)) [
  | inr fresh ↦ rw fresh refl
  | inl member ↦ elim (Bool-cases (str_eq x y)) [
    | inl same ↦ rw (member, same) (subst (λ t. has m t ≡ true) (str_eq→eq x y same) member)
    | inr other ↦ rw (member, other) refl
  ]
]

has-merge_eq : (m moved : List Str) (y : Str) → has (merge m moved) y ≡ (has moved y || has m y)
unfolding merge has
has-merge_eq m [] y = refl
has-merge_eq m (x ∷ moved) y =
    has-insert_eq x y (merge m moved)
    ∙ ap (λ b. str_eq x y || b) (has-merge_eq m moved y)
    ∙ or_assoc (str_eq x y) (has moved y) (has m y)
  where
    or_assoc : (a b c : Bool) → (a || (b || c)) ≡ ((a || b) || c)
    or_assoc true b c = refl
    or_assoc false b c = refl

drop_front : (o s : Str) → drop (length o) (o ++ s) ≡ s
drop_front [] s = refl
drop_front (c ∷ o) s = drop_front o s

-- What is left of a path behind a folder above it starts with the slash.
drop-slash :
    (o x : Str)
    → starts_with x (o ++ (slash ∷ [])) ≡ true
    → drop (length o) x ≡ slash ∷ drop (suc (length o)) x
drop-slash [] [] h = no_truth false refl h
drop-slash [] (c ∷ x) h = ap (λ (t : ℕ). t ∷ x) (ground (arith, h))
drop-slash (c ∷ o) [] h = no_truth false refl h
drop-slash (c ∷ o) (d ∷ x) h = drop-slash o x (ground (arith, h))

-- Where one member of a set goes.
abbrev goes_to : Str → Str → Str → Str
goes_to o n x =
    if str_eq x o
    then n
    else if starts_with x (o ++ (slash ∷ []))
    then n ++ drop (length o) x
    else x

rewrite_step :
    (o n x : Str) (m : List Str) (y : Str)
    → has (rewrite_set o n (x ∷ m)) y ≡ (str_eq (goes_to o n x) y || has (rewrite_set o n m) y)
unfolding rewrite_set
rewrite_step o n x m y = elim (Bool-cases (str_eq x o)) [
  | inl same ↦ rw same (has-insert_eq n y (rewrite_set o n m))
  | inr other ↦ elim (Bool-cases (starts_with x (o ++ (slash ∷ [])))) [
    | inl below ↦ rw (other, below) (has-insert_eq (n ++ drop (length o) x) y (rewrite_set o n m))
    | inr elsewhere ↦ rw (other, elsewhere) (has-insert_eq x y (rewrite_set o n m))
  ]
]

abbrev in_either : List Str × List Str → Str → Bool
in_either p y = has p.1 y || has p.0 y

or_swap : (a b c : Bool) → (b || (a || c)) ≡ (a || (b || c))
or_swap true true c = refl
or_swap true false c = refl
or_swap false true c = refl
or_swap false false c = refl

or_assoc2 : (a b c : Bool) → ((a || b) || c) ≡ (a || (b || c))
or_assoc2 true b c = refl
or_assoc2 false b c = refl

put_moved :
    (x y : Str) (stay moved : List Str)
    → (has (insert x moved) y || has stay y) ≡ (str_eq x y || (has moved y || has stay y))
put_moved x y stay moved =
    ap (λ b. b || has stay y) (has-insert_eq x y moved)
    ∙ or_assoc2 (str_eq x y) (has moved y) (has stay y)

split_step :
    (o n x : Str) (m : List Str) (y : Str)
    → in_either (split_moved o n (x ∷ m)) y
      ≡ (str_eq (goes_to o n x) y || in_either (split_moved o n m) y)
unfolding split_moved has
split_step o n x m y = elim (Bool-cases (str_eq x o)) [
  | inl same ↦ rw same (put_moved n y (split_moved o n m).0 (split_moved o n m).1)
  | inr other ↦ elim (Bool-cases (starts_with x (o ++ (slash ∷ [])))) [
    | inl below ↦
        rw (other, below)
          (ap (λ t. has (insert (n ++ t) (split_moved o n m).1) y || has (split_moved o n m).0 y)
              (sym (drop-slash o x below))
            ∙ put_moved (n ++ drop (length o) x) y (split_moved o n m).0 (split_moved o n m).1)
    | inr elsewhere ↦
        rw (other, elsewhere)
          (or_swap (str_eq x y) (has (split_moved o n m).1 y) (has (split_moved o n m).0 y))
  ]
]

split-rewrite :
    (o n : Str) (m : List Str) (y : Str)
    → in_either (split_moved o n m) y ≡ has (rewrite_set o n m) y
split-rewrite o n [] y = unfold split_moved rewrite_set has in refl
split-rewrite o n (x ∷ m) y =
    split_step o n x m y
    ∙ ap (λ b. str_eq (goes_to o n x) y || b) (split-rewrite o n m y)
    ∙ sym (rewrite_step o n x m y)

-- The two renamings of a set of marks, the writelayer's and a kept folder's, give the same set.
pub rename_set-eq-rewrite_set :
    (oldv newv : Str) (m : List Str) (y : Str)
    → has (rename_set oldv newv m) y ≡ has (rewrite_set oldv newv m) y
unfolding rename_set
rename_set-eq-rewrite_set oldv newv m y =
    has-merge_eq (split_moved oldv newv m).0 (split_moved oldv newv m).1 y
    ∙ split-rewrite oldv newv m y

-- Where a mark goes when `oldv` becomes `newv`.
pub data Moves (oldv newv x y : Str) : Type 0 where
  itself : x ≡ oldv → y ≡ newv → Moves oldv newv x y
  inside :
      (rest : Str) → x ≡ oldv ++ (slash ∷ rest) → y ≡ newv ++ (slash ∷ rest) → Moves oldv newv x y
  stays : x ≢ oldv → (Above oldv x → ⊥) → y ≡ x → Moves oldv newv x y

Above-starts : (o x : Str) → Above o x → starts_with x (o ++ (slash ∷ [])) ≡ true
Above-starts o x (rest, e) =
    ap (λ t. starts_with t (o ++ (slash ∷ []))) (e ∙ sym (append_assoc o (slash ∷ []) rest))
    ∙ starts_with-append (o ++ (slash ∷ [])) rest

goes_to-Moves : (o n x : Str) → Moves o n x (goes_to o n x)
goes_to-Moves o n x = elim (Bool-cases (str_eq x o)) [
  | inl same ↦ rw same (itself (str_eq→eq x o same) refl)
  | inr other ↦ elim (Bool-cases (starts_with x (o ++ (slash ∷ [])))) [
    | inl below ↦
        rw (other, below)
          (let (rest, e) = starts_with→append x (o ++ (slash ∷ [])) below in
            let at : x ≡ o ++ (slash ∷ rest) = e ∙ append_assoc o (slash ∷ []) rest in
            inside rest at
              (ap (λ t. n ++ t) (ap (drop (length o)) at ∙ drop_front o (slash ∷ rest))))
    | inr elsewhere ↦
        rw (other, elsewhere)
          (stays (λ e. no_truth (str_eq x o) other (ap (str_eq x) (sym e) ∙ str_eq_refl x))
            (λ up. no_truth (starts_with x (o ++ (slash ∷ []))) elsewhere (Above-starts o x up))
            refl)
  ]
]

has_later : (x y : Str) (m : List Str) → has m y ≡ true → has (x ∷ m) y ≡ true
unfolding has
has_later x y m h = rw h (or_true (str_eq x y))

rewrite-from :
    (o n : Str) (m : List Str) (y : Str)
    → has (rewrite_set o n m) y ≡ true
    → (x : Str) × (has m x ≡ true) × (goes_to o n x ≡ y)
rewrite-from o n [] y h = no_truth (has (rewrite_set o n []) y) (unfold rewrite_set has in refl) h
rewrite-from o n (x ∷ m) y h =
    elim (or_split (str_eq (goes_to o n x) y) _ (sym (rewrite_step o n x m y) ∙ h)) [
      | inl here ↦ (x, unfold has in rw (str_eq_refl x) refl, str_eq→eq (goes_to o n x) y here)
      | inr later ↦
          let (x', member, e) = rewrite-from o n m y later in (x', has_later x x' m member, e)
    ]

longer_than_itself : (o rest : Str) → str_eq (o ++ (slash ∷ rest)) o ≡ false
longer_than_itself o rest = elim (Bool-cases (str_eq (o ++ (slash ∷ rest)) o)) [
  | inr other ↦ other
  | inl same ↦ absurd (
      omega
        (arith, ap length (str_eq→eq (o ++ (slash ∷ rest)) o same), length-append o (slash ∷ rest)))
]

falsely : (b : Bool) → (b ≡ true → ⊥) → b ≡ false
falsely b never = elim (Bool-cases b) [ inl so ↦ absurd (never so) | inr f ↦ f ]

Moves-goes_to : (o n x y : Str) → Moves o n x y → goes_to o n x ≡ y
Moves-goes_to o n x y (itself e f) = rw (ap (λ t. str_eq t o) e ∙ str_eq_refl o) (sym f)
Moves-goes_to o n x y (inside rest e f) =
    rw (ap (λ t. str_eq t o) e ∙ longer_than_itself o rest, Above-starts o x (rest, e))
      (ap (λ t. n ++ drop (length o) t) e ∙ ap (λ t. n ++ t) (drop_front o (slash ∷ rest)) ∙ sym f)
Moves-goes_to o n x y (stays other away f) =
    rw
      (
        falsely (str_eq x o) (λ t. other (str_eq→eq x o t)),
        falsely (starts_with x (o ++ (slash ∷ []))) (λ t.
            let (s, e) = starts_with→append x (o ++ (slash ∷ [])) t in
            away (s, e ∙ append_assoc o (slash ∷ []) s)),
      )
      (sym f)

rewrite-to :
    (o n x : Str) (m : List Str) → has m x ≡ true → has (rewrite_set o n m) (goes_to o n x) ≡ true
rewrite-to o n x [] h = no_truth (has [] x) (unfold has in refl) h
rewrite-to o n x (x' ∷ m) h =
    rewrite_step o n x' m (goes_to o n x)
    ∙ elim (or_split (str_eq x' x) (has m x) (unfold has in h)) [
      | inl same ↦
          rw
            (ap (λ t. str_eq (goes_to o n t) (goes_to o n x)) (str_eq→eq x' x same)
              ∙ str_eq_refl (goes_to o n x))
            refl
      | inr later ↦
          rw (rewrite-to o n x m later) (or_true (str_eq (goes_to o n x') (goes_to o n x)))
    ]

-- After `RenameMaskPrefix`, a set of marks holds exactly the old marks, moved: the renamed folder's own
-- mark becomes the new folder's, marks inside it move to the same place in the new folder, and every
-- other mark stays.
pub rename_set-Moves :
    (oldv newv : Str) (m : List Str) (y : Str)
    → (has (rename_set oldv newv m) y ≡ true) ↔ ((x : Str) × (has m x ≡ true) × Moves oldv newv x y)
rename_set-Moves oldv newv m y = (sound, complete)
  where
    sound :
        has (rename_set oldv newv m) y ≡ true → (x : Str) × (has m x ≡ true) × Moves oldv newv x y
    sound h =
        let (x, member, e) =
          rewrite-from oldv newv m y (sym (rename_set-eq-rewrite_set oldv newv m y) ∙ h) in
        (x, member, subst (Moves oldv newv x) e (goes_to-Moves oldv newv x))

    complete :
        ((x : Str) × (has m x ≡ true) × Moves oldv newv x y) → has (rename_set oldv newv m) y ≡ true
    complete (x, member, moves) =
        rename_set-eq-rewrite_set oldv newv m y
        ∙ ap (has (rewrite_set oldv newv m)) (sym (Moves-goes_to oldv newv x y moves))
        ∙ rewrite-to oldv newv x m member
