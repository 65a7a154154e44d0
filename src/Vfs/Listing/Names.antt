-- ===== src/Vfs/Listing/Names.antt =====
-- The sets of names of `CollectChildren` of src/vfsops.cpp, and the markers of the writelayer's folder.
use vidya_god_fs.Prelude.{
  ◌≡◌, refl, sym, ap, ◌∙◌, Bool, true, false, ◌||◌, List, [], ◌∷◌, ◌++◌, Bool-cases, inl, inr, drop,
}
use vidya_god_fs.Prelude.Text.{Str, str_eq, str_eq_refl, str_eq→eq, str_eq_sym}
use vidya_god_fs.Paths.{has}
use vidya_god_fs.Paths.Ancestors.{starts_with-append, or_true, or_split}
use vidya_god_fs.Overlay.Layers.{wh_prefix, opaque_name}
use vidya_god_fs.Vfs.Children.{
  put_name, drop_name, drop_names, drop_kept, Listing, is_marker, list_writelayer, str_lt,
}

pub or_false : {a b : Bool} → a ≡ false → b ≡ false → (a || b) ≡ false
or_false {a} {b} p q = rw (p, q) refl

pub or_none : (a b : Bool) → (a || b) ≡ false → (a ≡ false) × (b ≡ false)
or_none true b e = absurd cc
or_none false b e = (refl, e)

-- A set of names with one put into it.
pub has-put_name : (x : Str) (m : List Str) → has (put_name x m) x ≡ true
unfolding has put_name
has-put_name x [] = rw (str_eq_refl x) refl
has-put_name x (y ∷ m) = elim (Bool-cases (str_lt x y)) [
  | inl less ↦ rw (less, str_eq_refl x) refl
  | inr more ↦ elim (Bool-cases (str_eq x y)) [
    | inl same ↦
        rw (more, same)
          (rw (ap (λ z. str_eq z x) (sym (str_eq→eq x y same))) (rw (str_eq_refl x) refl))
    | inr other ↦ rw (more, other, has-put_name x m) (or_true (str_eq y x))
  ]
]

pub has-put_name_other : (x y : Str) (m : List Str) → has m y ≡ true → has (put_name x m) y ≡ true
unfolding has put_name
has-put_name_other x y [] e = absurd cc
has-put_name_other x y (z ∷ m) e = elim (Bool-cases (str_lt x z)) [
  | inl less ↦ rw (less, e) (or_true (str_eq x y))
  | inr more ↦ elim (Bool-cases (str_eq x z)) [
    | inl same ↦ rw (more, same) e
    | inr other ↦ elim (or_split (str_eq z y) (has m y) e) [
      | inl here ↦ rw (more, other, here) refl
      | inr there ↦ rw (more, other, has-put_name_other x y m there) (or_true (str_eq z y))
    ]
  ]
]

pub has-drop_name : (x : Str) (m : List Str) → has (drop_name x m) x ≡ false
unfolding has drop_name
has-drop_name x [] = refl
has-drop_name x (y ∷ m) = elim (Bool-cases (str_eq x y)) [
  | inl same ↦ rw same (has-drop_name x m)
  | inr other ↦ rw (other, has-drop_name x m) (or_false (str_eq_sym y x ∙ other) refl)
]

pub has-drop_name_less :
    (x y : Str) (m : List Str) → has m y ≡ false → has (drop_name x m) y ≡ false
unfolding has drop_name
has-drop_name_less x y [] e = refl
has-drop_name_less x y (z ∷ m) e =
    let (here, there) = or_none (str_eq z y) (has m y) e in
    elim (Bool-cases (str_eq x z)) [
      | inl same ↦ rw same (has-drop_name_less x y m there)
      | inr other ↦ rw other (or_false here (has-drop_name_less x y m there))
    ]

pub drop_names-has_less :
    (ws names : List Str) (x : Str) → has names x ≡ false → has (drop_names ws names) x ≡ false
unfolding drop_names
drop_names-has_less [] names x e = e
drop_names-has_less (w ∷ ws) names x e =
    drop_names-has_less ws (drop_name w names) x (has-drop_name_less w x names e)

pub drop_names-has :
    (ws names : List Str) (x : Str) → has ws x ≡ true → has (drop_names ws names) x ≡ false
unfolding has drop_names
drop_names-has [] names x e = absurd cc
drop_names-has (w ∷ ws) names x e = elim (or_split (str_eq w x) (has ws x) e) [
  | inl here ↦
      drop_names-has_less ws (drop_name w names) x
        (ap (λ y. has (drop_name y names) x) (str_eq→eq w x here) ∙ has-drop_name x names)
  | inr there ↦ drop_names-has ws (drop_name w names) x there
]

pub drop_kept-has :
    (own ws names : List Str) (x : Str)
    → has names x ≡ false
    → has (drop_kept own ws names) x ≡ false
unfolding drop_kept
drop_kept-has own [] names x e = e
drop_kept-has own (w ∷ ws) names x e = elim (Bool-cases (has own w)) [
  | inl kept ↦ rw kept (drop_kept-has own ws names x e)
  | inr gone ↦ rw gone (drop_kept-has own ws (drop_name w names) x (has-drop_name_less w x names e))
]

-- The markers in the writelayer's folder are gathered, and nothing is forgotten.
whiteouts_stay :
    (ns : List Str) (l : Listing) (x : Str)
    → has l.whiteouts x ≡ true
    → has (list_writelayer ns l).whiteouts x ≡ true
unfolding list_writelayer
whiteouts_stay [] l x e = e
whiteouts_stay (n ∷ ns) l x e = elim (Bool-cases (str_eq n opaque_name)) [
  | inl opq ↦ rw (opq, list_writelayer) (whiteouts_stay ns _ x e)
  | inr name ↦ elim (Bool-cases (is_marker n)) [
    | inl marker ↦
        rw (name, marker, list_writelayer)
          (whiteouts_stay ns _ x (has-put_name_other (drop 4 n) x l.whiteouts e))
    | inr plain ↦ rw (name, plain, list_writelayer) (whiteouts_stay ns _ x e)
  ]
]

pub whiteouts_found :
    (ns : List Str) (l : Listing) (x : Str)
    → has ns (wh_prefix ++ x) ≡ true
    → str_eq (wh_prefix ++ x) opaque_name ≡ false
    → has (list_writelayer ns l).whiteouts x ≡ true
unfolding list_writelayer has
whiteouts_found [] l x e name = absurd cc
whiteouts_found (n ∷ ns) l x e name =
    elim (or_split (str_eq n (wh_prefix ++ x)) (has ns (wh_prefix ++ x)) e) [
      | inl here ↦
          rw
            (
              str_eq→eq n (wh_prefix ++ x) here,
              name,
              starts_with-append wh_prefix x,
              list_writelayer,
            )
            (whiteouts_stay ns _ x (has-put_name x l.whiteouts))
      | inr there ↦ whiteouts_found ns _ x there name
    ]

has-put_name_less :
    (x y : Str) (m : List Str) → str_eq x y ≡ false → has m y ≡ false → has (put_name x m) y ≡ false
unfolding has put_name
has-put_name_less x y [] other e = or_false other refl
has-put_name_less x y (z ∷ m) other e =
    let (here, there) = or_none (str_eq z y) (has m y) e in
    elim (Bool-cases (str_lt x z)) [
      | inl less ↦ rw less (or_false other e)
      | inr more ↦ elim (Bool-cases (str_eq x z)) [
        | inl same ↦ rw (more, same) e
        | inr new ↦ rw (more, new) (or_false here (has-put_name_less x y m other there))
      ]
    ]

-- The names gathered are names of the folder.
pub names_from :
    (ns : List Str) (l : Listing) (x : Str)
    → has l.names x ≡ false
    → has ns x ≡ false
    → has (list_writelayer ns l).names x ≡ false
unfolding list_writelayer
names_from [] l x e missing = e
names_from (n ∷ ns) l x e missing =
    let (here, there) = or_none (str_eq n x) (has ns x) (unfold has in missing) in
    elim (Bool-cases (str_eq n opaque_name)) [
      | inl opq ↦ rw (opq, list_writelayer) (names_from ns _ x e there)
      | inr name ↦ elim (Bool-cases (is_marker n)) [
        | inl marker ↦ rw (name, marker, list_writelayer) (names_from ns _ x e there)
        | inr plain ↦
            rw (name, plain, list_writelayer)
              (names_from ns _ x (has-put_name_less n x l.names here e) there)
      ]
    ]

opaque_stays :
    (ns : List Str) (l : Listing) → l.opaque ≡ true → (list_writelayer ns l).opaque ≡ true
unfolding list_writelayer
opaque_stays [] l e = e
opaque_stays (n ∷ ns) l e = elim (Bool-cases (str_eq n opaque_name)) [
  | inl opq ↦ rw (opq, list_writelayer) (opaque_stays ns _ refl)
  | inr name ↦ elim (Bool-cases (is_marker n)) [
    | inl marker ↦ rw (name, marker, list_writelayer) (opaque_stays ns _ e)
    | inr plain ↦ rw (name, plain, list_writelayer) (opaque_stays ns _ e)
  ]
]

pub opaque_found :
    (ns : List Str) (l : Listing) → has ns opaque_name ≡ true → (list_writelayer ns l).opaque ≡ true
unfolding list_writelayer has
opaque_found [] l e = absurd cc
opaque_found (n ∷ ns) l e = elim (or_split (str_eq n opaque_name) (has ns opaque_name) e) [
  | inl here ↦ rw (here, list_writelayer) (opaque_stays ns _ refl)
  | inr there ↦ opaque_found ns _ there
]
