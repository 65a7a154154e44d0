-- ===== src/Overlay/Structure/Placed.antt =====
-- Which folders are structural (src/overlay.cpp): those above the place of a layer.
use vidya_god_fs.Prelude.{
  ℕ, zero, suc, ◌<◌, ◌≡◌, refl, sym, ap, ◌∙◌, arith, ◌↔◌, ◌⊎◌, inl, inr, Bool, true, false, List,
  [], ◌∷◌, length, if◌then◌else◌, Bool-cases, skip_if, take_if,
}
use vidya_god_fs.Prelude.Text.{Str, str_eq, str_eq_refl, str_eq_sym, str_eq→eq}
use vidya_god_fs.Paths.{parent_vrel, has, has_above}
use vidya_god_fs.Paths.Ancestors.{Above, has_above_iff, or_split, or_true, no_truth}
use vidya_god_fs.Overlay.Types.{Layer}
use vidya_god_fs.Overlay.Layers.{layer_masked}
use vidya_god_fs.Overlay.Masks.{insert, erase}
use vidya_god_fs.Overlay.Masks.Deleted.{has-insert, has-insert_other}
use vidya_god_fs.Overlay.Structure.{
  add_above, add_ancestors, root_mark, leaf_of, place_of, add_layers, structural_dirs,
}

has-insert_iff : (x y : Str) (m : List Str) → has (insert y m) x ≡ true → (y ≡ x) ⊎ (has m x ≡ true)
unfolding insert has
has-insert_iff x y m e = elim (Bool-cases (has m y)) [
  | inl member ↦ inr (sym (ap (λ l. has l x) (take_if _ _ member)) ∙ e)
  | inr new ↦
      elim (or_split (str_eq y x) (has m x) (sym (ap (λ l. has l x) (skip_if _ _ new)) ∙ e)) [
        | inl same ↦ inl (str_eq→eq y x same)
        | inr old ↦ inr old
      ]
]

only : (x y : Str) → has (x ∷ []) y ≡ true → x ≡ y
unfolding has
only x y e = elim (or_split (str_eq x y) false e) [
  | inl same ↦ str_eq→eq x y same
  | inr never ↦ absurd cc
]

-- The loop adds what the loop over ancestors meets.
add_above-has :
    (fuel : ℕ) (cur x : Str) (dst : List Str)
    → has (add_above fuel cur dst) x ≡ true
    → (has_above fuel (x ∷ []) cur ≡ true) ⊎ (has dst x ≡ true)
unfolding add_above has_above has
add_above-has zero cur x dst e = inr e
add_above-has (suc fuel) [] x dst e = inr e
add_above-has (suc fuel) (c ∷ cur) x dst e =
    elim (add_above-has fuel (parent_vrel (c ∷ cur)) x (insert (c ∷ cur) dst) e) [
      | inl higher ↦ inl (rw higher (or_true _))
      | inr there ↦ elim (has-insert_iff x (c ∷ cur) dst there) [
        | inl here ↦ inl (rw (ap (str_eq x) here ∙ str_eq_refl x) refl)
        | inr old ↦ inr old
      ]
    ]

add_above-kept :
    (fuel : ℕ) (cur x : Str) (dst : List Str)
    → has dst x ≡ true
    → has (add_above fuel cur dst) x ≡ true
unfolding add_above
add_above-kept zero cur x dst e = e
add_above-kept (suc fuel) [] x dst e = e
add_above-kept (suc fuel) (c ∷ cur) x dst e =
    add_above-kept fuel (parent_vrel (c ∷ cur)) x (insert (c ∷ cur) dst)
      (has-insert_other (c ∷ cur) x dst e)

add_above-met :
    (fuel : ℕ) (cur x : Str) (dst : List Str)
    → has_above fuel (x ∷ []) cur ≡ true
    → has (add_above fuel cur dst) x ≡ true
unfolding add_above has_above
add_above-met zero cur x dst e = absurd cc
add_above-met (suc fuel) [] x dst e = absurd cc
add_above-met (suc fuel) (c ∷ cur) x dst e =
    elim (or_split (has (x ∷ []) (c ∷ cur)) (has_above fuel (x ∷ []) (parent_vrel (c ∷ cur))) e) [
      | inl here ↦
          add_above-kept fuel (parent_vrel (c ∷ cur)) x (insert (c ∷ cur) dst)
            (ap (has (insert (c ∷ cur) dst)) (only x (c ∷ cur) here) ∙ has-insert (c ∷ cur) dst)
      | inr higher ↦ add_above-met fuel (parent_vrel (c ∷ cur)) x (insert (c ∷ cur) dst) higher
    ]

add_ancestors-Above :
    (dst : List Str) (leaf x : Str)
    → has (add_ancestors dst leaf) x ≡ true
    → ((0 < length x) × Above x leaf) ⊎ (has dst x ≡ true)
unfolding add_ancestors
add_ancestors-Above dst leaf x e = elim (add_above-has (length leaf) (parent_vrel leaf) x dst e) [
  | inl met ↦
      let (a, deep, member, above) = (has_above_iff (x ∷ []) leaf).0 met in
      inl (rw (only x a member) (deep, above))
  | inr there ↦ inr there
]

add_ancestors-met :
    (dst : List Str) (leaf x : Str)
    → 0 < length x
    → Above x leaf
    → has (add_ancestors dst leaf) x ≡ true
unfolding add_ancestors
add_ancestors-met dst leaf x deep above =
    add_above-met (length leaf) (parent_vrel leaf) x dst
      ((has_above_iff (x ∷ []) leaf).1 (x, deep, self, above))
  where
    self : has (x ∷ []) x ≡ true
    self = unfold has in rw (str_eq_refl x) refl

-- A layer that is not hidden at its place, and lies below `x`.
pub record LiesBelow (x : Str) (l : Layer) : Type 0 where
  pub unmasked : layer_masked l (place_of l) ≡ false
  pub above : Above x (leaf_of l)

abbrev pub SomeBelow : Str → List Layer → Type 0
SomeBelow x [] = ⊥
SomeBelow x (l ∷ layers) = LiesBelow x l ⊎ SomeBelow x layers

add_layers_sound :
    (layers : List Layer) (dst : List Str) (x : Str)
    → has (add_layers layers dst) x ≡ true
    → ((0 < length x) × SomeBelow x layers) ⊎ (has dst x ≡ true)
unfolding add_layers
add_layers_sound [] dst x e = inr e
add_layers_sound (l ∷ layers) dst x e = elim (add_layers_sound layers _ x e) [
  | inl (deep, later) ↦ inl (deep, inr later)
  | inr there ↦ elim (Bool-cases (layer_masked l (place_of l))) [
    | inl masked ↦ inr (sym (ap (λ d. has d x) (take_if _ _ masked)) ∙ there)
    | inr unmasked ↦
        elim (add_ancestors-Above dst (leaf_of l) x
          (sym (ap (λ d. has d x) (skip_if _ _ unmasked)) ∙ there)) [
            | inl (deep, above) ↦ inl (deep, inl (record { unmasked = unmasked; above = above }))
            | inr old ↦ inr old
          ]
  ]
]

add_ancestors-kept :
    (dst : List Str) (leaf x : Str) → has dst x ≡ true → has (add_ancestors dst leaf) x ≡ true
unfolding add_ancestors
add_ancestors-kept dst leaf x e = add_above-kept (length leaf) (parent_vrel leaf) x dst e

add_layers-kept :
    (layers : List Layer) (dst : List Str) (x : Str)
    → has dst x ≡ true
    → has (add_layers layers dst) x ≡ true
unfolding add_layers
add_layers-kept [] dst x e = e
add_layers-kept (l ∷ layers) dst x e =
    add_layers-kept layers _ x (either (layer_masked l (place_of l)))
  where
    either : (b : Bool) → has (if b then dst else add_ancestors dst (leaf_of l)) x ≡ true
    either true = e
    either false = add_ancestors-kept dst (leaf_of l) x e

add_layers_complete :
    (layers : List Layer) (dst : List Str) (x : Str)
    → 0 < length x
    → SomeBelow x layers
    → has (add_layers layers dst) x ≡ true
unfolding add_layers
add_layers_complete [] dst x deep none_there = absurd none_there
add_layers_complete (l ∷ layers) dst x deep (inl here) = add_layers-kept layers _ x (
    ap (λ d. has d x) (skip_if _ _ here.unmasked)
    ∙ add_ancestors-met dst (leaf_of l) x deep here.above)
add_layers_complete (l ∷ layers) dst x deep (inr later) = add_layers_complete layers _ x deep later

erase-less : (y x : Str) (m : List Str) → has (erase y m) x ≡ true → has m x ≡ true
unfolding has erase
erase-less y x [] e = e
erase-less y x (z ∷ m) e = elim (Bool-cases (str_eq z y)) [
  | inl gone ↦
      rw (erase-less y x m (sym (ap (λ l. has l x) (take_if _ _ gone)) ∙ e)) (or_true (str_eq z x))
  | inr stays ↦
      elim (or_split (str_eq z x) (has (erase y m) x)
        (sym (ap (λ l. has l x) (skip_if _ _ stays)) ∙ e)) [
          | inl here ↦ rw here refl
          | inr later ↦ rw (erase-less y x m later) (or_true (str_eq z x))
        ]
]

erase-other :
    (y x : Str) (m : List Str) → str_eq y x ≡ false → has m x ≡ true → has (erase y m) x ≡ true
unfolding has erase
erase-other y x [] other e = e
erase-other y x (z ∷ m) other e = elim (or_split (str_eq z x) (has m x) e) [
  | inl here ↦
      ap (λ l. has l x)
        (skip_if _ _ (ap (λ w. str_eq w y) (str_eq→eq z x here) ∙ (str_eq_sym x y ∙ other)))
      ∙ rw here refl
  | inr later ↦ elim (Bool-cases (str_eq z y)) [
    | inl gone ↦ ap (λ l. has l x) (take_if _ _ gone) ∙ erase-other y x m other later
    | inr stays ↦
        ap (λ l. has l x) (skip_if _ _ stays)
        ∙ rw (erase-other y x m other later) (or_true (str_eq z x))
  ]
]

not_root : (x : Str) → 0 < length x → str_eq [] x ≡ false
not_root [] deep = absurd (omega arith)
not_root (c ∷ x) deep = refl

-- `Init` makes a path structural exactly when it lies above the place of a layer that is not hidden
-- there, for every path but the root and the name that stands for it.
pub structural_dirs_iff :
    (layers : List Layer) (x : Str)
    → 0 < length x
    → str_eq root_mark x ≡ false
    → (has (structural_dirs layers) x ≡ true) ↔ SomeBelow x layers
unfolding structural_dirs
structural_dirs_iff layers x deep name = (sound, complete)
  where
    from_layers : ((0 < length x) × SomeBelow x layers) ⊎ (has [] x ≡ true) → SomeBelow x layers
    from_layers (inl (d, below)) = below
    from_layers (inr never) = absurd (no_truth (has [] x) (unfold has in refl) never)

    sound : has (erase [] (erase root_mark (add_layers layers []))) x ≡ true → SomeBelow x layers
    sound e =
        from_layers (add_layers_sound layers [] x (erase-less root_mark x _ (erase-less [] x _ e)))

    complete : SomeBelow x layers → has (erase [] (erase root_mark (add_layers layers []))) x ≡ true
    complete below =
        erase-other [] x _ (not_root x deep)
          (erase-other root_mark x _ name (add_layers_complete layers [] x deep below))
