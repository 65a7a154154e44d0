-- ===== src/Paths/Ancestors.antt =====
-- The loops over a path's ancestors and the prefix tests, against what they mean.
use mathlib.Core.Path.{subst, ap₂}
use vidya_god_fs.Prelude.{
  ℕ, zero, suc, ◌≤◌, ◌<◌, ◌≡◌, refl, sym, ap, ◌∙◌, arith, Bool, true, false, List, [], ◌∷◌, ◌++◌,
  length, drop, get_or, ◌||◌, ◌↔◌, ◌⊎◌, inl, inr, length-append, append_assoc,
}
use vidya_god_fs.Prelude.Text.{Str, str_eq, str_eq_refl, str_eq→eq, slash, starts_with}
use vidya_god_fs.Paths.{parent_vrel, base_name, has, within, has_above}
use vidya_god_fs.Paths.Split.{NoSlash, top, under, parent_vrel-Split, parent_shorter}

-- `a` is a folder above `v`: `v` is `a`, a slash and something more, perhaps nothing.
abbrev pub Above : Str → Str → Type 0
Above a v = (rest : Str) × (v ≡ a ++ (slash ∷ rest))

slash_found : (a rest : Str) → NoSlash (a ++ (slash ∷ rest)) → ⊥
slash_found [] rest (h, n) = absurd (ground (arith, h))
slash_found (c ∷ a) rest (h, n) = slash_found a rest n

tails : (c d : ℕ) (s t : Str) → c ∷ s ≡ d ∷ t → s ≡ t
tails c d s t e = ap (drop 1) e

heads : (c d : ℕ) (s t : Str) → c ∷ s ≡ d ∷ t → c ≡ d
heads c d s t e = ap (λ l. get_or l 0 0) e

-- A slash in a path is its last one or stands in its parent.
earlier_or_last :
    (a rest p b : Str) → a ++ (slash ∷ rest) ≡ p ++ (slash ∷ b) → NoSlash b → (a ≡ p) ⊎ Above a p
earlier_or_last [] rest [] b e n = inl refl
earlier_or_last [] rest (x ∷ p) b e n =
    inr (p, ap (λ (t : ℕ). t ∷ p) (sym (heads slash x rest (p ++ (slash ∷ b)) e)))
earlier_or_last (c ∷ a) rest [] b e n =
    absurd (slash_found a rest (subst NoSlash (sym (tails c slash _ b e)) n))
earlier_or_last (c ∷ a) rest (x ∷ p) b e n = elim (earlier_or_last a rest p b (tails c x _ _ e) n) [
  | inl same ↦ inl (ap₂ (λ (h : ℕ) t. h ∷ t) (heads c x _ _ e) same)
  | inr (r, q) ↦ inr (r, ap₂ (λ (h : ℕ) t. h ∷ t) (sym (heads c x _ _ e)) q)
]

-- The folders above a path are its parent, when it has a slash, and the folders above the parent.
Above-parent :
    (v a : Str)
    → Above a v
    → 0 < length a
    → (0 < length (parent_vrel v)) × ((a ≡ parent_vrel v) ⊎ Above a (parent_vrel v))
Above-parent v a (rest, e) pos = elim (parent_vrel-Split v) [
  | top n p b ↦ absurd (slash_found a rest (subst NoSlash e n))
  | under e' n ↦
      let h = earlier_or_last a rest (parent_vrel v) (base_name v) (sym e ∙ e') n in
      (
        elim h [
          | inl same ↦ omega (arith, ap length same)
          | inr (r, q) ↦ omega (arith, ap length q, length-append a (slash ∷ r))
        ],
        h,
      )
]

parent-Above : (v : Str) → 0 < length (parent_vrel v) → Above (parent_vrel v) v
parent-Above v pos = elim (parent_vrel-Split v) [
  | top n p b ↦ absurd (omega (arith, ap length p))
  | under e n ↦ (base_name v, e)
]

Above-trans : (a b c : Str) → Above a b → Above b c → Above a c
Above-trans a b c (r, e) (s, f) =
    (r ++ (slash ∷ s), f ∙ ap (λ t. t ++ (slash ∷ s)) e ∙ append_assoc a (slash ∷ r) (slash ∷ s))

has_above_step :
    (fuel : ℕ) (m : List Str) (cur : Str)
    → 0 < length cur
    → has_above (suc fuel) m cur ≡ (has m cur || has_above fuel m (parent_vrel cur))
unfolding has_above
has_above_step fuel m [] pos = absurd (omega arith)
has_above_step fuel m (c ∷ cur) pos = refl

has_above_root : (fuel : ℕ) (m : List Str) → has_above fuel m [] ≡ false
unfolding has_above
has_above_root zero m = refl
has_above_root (suc fuel) m = refl

-- What the loop over the ancestors, started at `cur`, looks for.
abbrev pub Hit : List Str → Str → Type 0
Hit m cur = (a : Str) × (0 < length a) × (has m a ≡ true) × ((a ≡ cur) ⊎ Above a cur)

pub or_split : (a b : Bool) → (a || b) ≡ true → (a ≡ true) ⊎ (b ≡ true)
or_split true b h = inl refl
or_split false b h = inr h

pub no_truth {ℓ} : {A : Type ℓ} (b : Bool) → b ≡ false → b ≡ true → A
no_truth b f t = absurd (cc)

step_up : (m : List Str) (cur : Str) → 0 < length cur → Hit m (parent_vrel cur) → Hit m cur
step_up m cur pos (a, some_len, member, inl same) = (
  a,
  some_len,
  member,
  inr (subst (λ p. Above p cur) (sym same) (parent-Above cur (omega (arith, ap length same)))),
)
step_up m cur pos (a, some_len, member, inr up) = (
  a,
  some_len,
  member,
  inr (Above-trans a (parent_vrel cur) cur up (parent-Above cur (longer up))),
)
  where
    longer : Above a (parent_vrel cur) → 0 < length (parent_vrel cur)
    longer (r, e) = omega (arith, ap length e, length-append a (slash ∷ r))

has_above-finds : (fuel : ℕ) (m : List Str) (cur : Str) → has_above fuel m cur ≡ true → Hit m cur
unfolding has_above
has_above-finds zero m cur h = no_truth false refl h
has_above-finds (suc fuel) m [] h = no_truth false refl h
has_above-finds (suc fuel) m (c ∷ cur) h = elim (or_split (has m (c ∷ cur)) _ h) [
  | inl here ↦ (c ∷ cur, omega arith, here, inl refl)
  | inr later ↦
      step_up m (c ∷ cur) (omega arith) (has_above-finds fuel m (parent_vrel (c ∷ cur)) later)
]

pub or_true : (b : Bool) → (b || true) ≡ true
or_true true = refl
or_true false = refl

has_above_complete :
    (fuel : ℕ) (m : List Str) (cur : Str)
    → length cur ≤ fuel
    → Hit m cur
    → has_above fuel m cur ≡ true
has_above_complete zero m cur enough (a, pos, member, inl same) =
    absurd (omega (arith, ap length same))
has_above_complete zero m cur enough (a, pos, member, inr (r, e)) =
    absurd (omega (arith, ap length e, length-append a (slash ∷ r)))
has_above_complete (suc fuel) m cur enough (a, pos, member, inl same) =
    has_above_step fuel m cur (omega (arith, ap length same))
    ∙ ap (λ b. b || has_above fuel m (parent_vrel cur)) (ap (has m) (sym same) ∙ member)
has_above_complete (suc fuel) m cur enough (a, pos, member, inr up) =
    let longer : 0 < length cur = omega (arith, ap length up.1, length-append a (slash ∷ up.0)) in
    let (parent_pos, at_parent) = Above-parent cur a up pos in
    has_above_step fuel m cur longer
    ∙ ap (λ b. has m cur || b)
        (has_above_complete fuel m (parent_vrel cur) (omega (arith, parent_shorter cur longer))
          (a, pos, member, at_parent))
    ∙ or_true (has m cur)

-- The loop over the ancestors of a path, run for as many rounds as the path is long, answers whether
-- the set holds a folder above the path other than the root.
pub has_above_iff :
    (m : List Str) (v : Str)
    → (has_above (length v) m (parent_vrel v) ≡ true)
      ↔ ((a : Str) × (0 < length a) × (has m a ≡ true) × Above a v)
has_above_iff m v = (sound, complete)
  where
    lift : (a : Str) → 0 < length a → (a ≡ parent_vrel v) ⊎ Above a (parent_vrel v) → Above a v
    lift a pos (inl same) =
        subst (λ p. Above p v) (sym same) (parent-Above v (omega (arith, ap length same)))
    lift a pos (inr (r, e)) =
        Above-trans a (parent_vrel v) v (r, e)
          (parent-Above v (omega (arith, ap length e, length-append a (slash ∷ r))))

    sound :
        has_above (length v) m (parent_vrel v) ≡ true
        → (a : Str) × (0 < length a) × (has m a ≡ true) × Above a v
    sound h =
        let (a, pos, member, at) = has_above-finds (length v) m (parent_vrel v) h in
        (a, pos, member, lift a pos at)

    complete :
        ((a : Str) × (0 < length a) × (has m a ≡ true) × Above a v)
        → has_above (length v) m (parent_vrel v) ≡ true
    complete (a, pos, member, up) =
        let (parent_pos, at_parent) = Above-parent v a up pos in
        has_above_complete (length v) m (parent_vrel v)
          (omega (
            arith,
            parent_shorter v (omega (arith, ap length up.1, length-append a (slash ∷ up.0))),
          ))
          (a, pos, member, at_parent)

pub starts_with-append : (p s : Str) → starts_with (p ++ s) p ≡ true
starts_with-append [] [] = refl
starts_with-append [] (c ∷ s) = refl
starts_with-append (c ∷ p) s = ground (arith, starts_with-append p s)

pub starts_with→append : (t p : Str) → starts_with t p ≡ true → (s : Str) × (t ≡ p ++ s)
starts_with→append t [] h = (t, refl)
starts_with→append [] (c ∷ p) h = no_truth false refl h
starts_with→append (a ∷ t) (c ∷ p) h =
    let (s, e) = starts_with→append t p (ground (arith, h)) in
    (s, ap₂ (λ (x : ℕ) y. x ∷ y) (ground (arith, h)) e)

-- `Within` holds of every path when the folder is the root, and otherwise exactly of the folder itself
-- and of the paths below it.
pub within_iff :
    (v root : Str) → (within v root ≡ true) ↔ ((root ≡ []) ⊎ ((v ≡ root) ⊎ Above root v))
unfolding within
within_iff v [] = ((λ h. inl refl), λ h. refl)
within_iff v (c ∷ root) = (sound, complete)
  where
    sound : within v (c ∷ root) ≡ true → ((c ∷ root) ≡ []) ⊎ ((v ≡ c ∷ root) ⊎ Above (c ∷ root) v)
    sound h = elim (or_split (str_eq v (c ∷ root)) _ h) [
      | inl same ↦ inr (inl (str_eq→eq v (c ∷ root) same))
      | inr below ↦
          let (s, e) = starts_with→append v (c ∷ root ++ (slash ∷ [])) below in
          inr (inr (s, e ∙ append_assoc (c ∷ root) (slash ∷ []) s))
    ]

    complete :
        ((c ∷ root) ≡ []) ⊎ ((v ≡ c ∷ root) ⊎ Above (c ∷ root) v) → within v (c ∷ root) ≡ true
    complete (inl e) = absurd (omega (arith, ap length e))
    complete (inr (inl e)) =
        subst (λ x. (str_eq x (c ∷ root) || starts_with x (c ∷ root ++ (slash ∷ []))) ≡ true)
          (sym e)
          (ap (λ b. b || starts_with (c ∷ root) (c ∷ root ++ (slash ∷ [])))
            (str_eq_refl (c ∷ root)))
    complete (inr (inr (s, e))) =
        subst (λ x. (str_eq x (c ∷ root) || starts_with x (c ∷ root ++ (slash ∷ []))) ≡ true)
          (append_assoc (c ∷ root) (slash ∷ []) s ∙ sym e)
          (ap (λ b. str_eq ((c ∷ root ++ (slash ∷ [])) ++ s) (c ∷ root) || b)
              (starts_with-append (c ∷ root ++ (slash ∷ [])) s)
            ∙ or_true (str_eq ((c ∷ root ++ (slash ∷ [])) ++ s) (c ∷ root)))
