-- ===== src/Overlay/Seed/Found.antt =====
-- The walk for marks of src/overlay.cpp and the markers that lie on disk.
use vidya_god_fs.Prelude.{
  ℕ, zero, suc, ◌<◌, ◌≡◌, refl, sym, ap, ◌∙◌, arith, true, false, List, [], ◌∷◌, ◌++◌, Option, none,
  some, drop, length, is_empty, Bool-cases, skip_if, take_if, inl, inr,
}
use vidya_god_fs.Prelude.Text.{Str, str_eq, str_eq→eq, slash}
use vidya_god_fs.Paths.{has}
use vidya_god_fs.Paths.Ancestors.{or_split, no_truth}
use vidya_god_fs.Overlay.Types.{KeptMasks, VfsState, HostIo}
use vidya_god_fs.Overlay.Layers.{wl_path, wh_prefix, opaque_name}
use vidya_god_fs.Overlay.Masks.{insert}
use vidya_god_fs.Overlay.Masks.Deleted.{has-insert, has-insert_other}
use vidya_god_fs.Overlay.CopyUp.{says_dir}
use vidya_god_fs.Overlay.Resolve.{resolve, no_result}
use vidya_god_fs.Overlay.Resolve.Priority.{resolve-Deleted}
use vidya_god_fs.Overlay.Seed.{no_marks, then_visit, visit_name, visit_names, walk, seed_masks}
use vidya_god_fs.Vfs.Types.{child_path}
use vidya_god_fs.Vfs.Children.{is_marker}

-- No deletion mark is lost.
record Grows (m t : KeptMasks) : Type 0 where
  still : (x : Str) → has m.deleted x ≡ true → has t.deleted x ≡ true

Grows-trans : {m t u : KeptMasks} → Grows m t → Grows t u → Grows m u
Grows-trans p q = record { still = λ x e. q.still x (p.still x e) }

then_some :
    (o : Option KeptMasks) (k : KeptMasks → Option KeptMasks) (t : KeptMasks)
    → then_visit o k ≡ some t
    → (m : KeptMasks) × (o ≡ some m) × (k m ≡ some t)
then_some none k t e = absurd cc
then_some (some m) k t e = (m, refl, e)

same_mask : {m t : KeptMasks} → some m ≡ some t → Grows m t
same_mask e = record { still = λ x p. ap (λ o. has (marks_of o) x) (sym e) ∙ p }
  where
    marks_of : Option KeptMasks → List Str
    marks_of none = []
    marks_of (some k) = k.deleted

child_long : (w x : Str) → 0 < length x → 0 < length (child_path w x)
child_long [] x deep = deep
child_long (c ∷ w) x deep = omega arith

-- The opaque marker's name is a marker's.
not_opaque : (n : Str) → is_marker n ≡ false → str_eq n opaque_name ≡ false
not_opaque n plain = elim (Bool-cases (str_eq n opaque_name)) [
  | inl opq ↦ no_truth (is_marker n) plain (ap is_marker (str_eq→eq n opaque_name opq))
  | inr name ↦ name
]

module _ {F : Type 0} (h : HostIo F) (f : F) (folder : Str → Str) where
  visit_name-Grows :
      (descend : Str → KeptMasks → Option KeptMasks) (v n : Str) (m t : KeptMasks)
      → ((w : Str) (a b : KeptMasks) → descend w a ≡ some b → Grows a b)
      → visit_name h f folder descend v n m ≡ some t
      → Grows m t
  unfolding visit_name
  visit_name-Grows descend v n m t deeper e = elim (Bool-cases (str_eq n opaque_name)) [
    | inl opq ↦ record { still = λ x p. (same_mask (sym (take_if _ _ opq) ∙ e)).still x p }
    | inr name ↦ elim (Bool-cases (is_marker n)) [
      | inl marker ↦ record {
        still = λ x p.
            (same_mask (sym (skip_if _ _ name ∙ take_if _ _ marker) ∙ e)).still x
              (has-insert_other (child_path v (drop 4 n)) x m.deleted p);
      }
      | inr plain ↦ elim (Bool-cases (says_dir (h.lstat f (folder v ++ (slash ∷ n))))) [
        | inl below ↦
            deeper (child_path v n) m t
              (sym (skip_if _ _ name ∙ (skip_if _ _ plain ∙ take_if _ _ below)) ∙ e)
        | inr file ↦ same_mask (sym (skip_if _ _ name ∙ (skip_if _ _ plain ∙ skip_if _ _ file)) ∙ e)
      ]
    ]
  ]

  visit_names-Grows :
      (descend : Str → KeptMasks → Option KeptMasks) (v : Str) (ns : List Str) (m t : KeptMasks)
      → ((w : Str) (a b : KeptMasks) → descend w a ≡ some b → Grows a b)
      → visit_names h f folder descend v ns m ≡ some t
      → Grows m t
  unfolding visit_names
  visit_names-Grows descend v [] m t deeper e = same_mask e
  visit_names-Grows descend v (n ∷ ns) m t deeper e =
      let (m1, first, rest) = then_some (visit_name h f folder descend v n m) _ t e in
      Grows-trans (visit_name-Grows descend v n m m1 deeper first)
        (visit_names-Grows descend v ns m1 t deeper rest)

  walk-Grows :
      (depth : ℕ) (v : Str) (m t : KeptMasks) → walk h f folder depth v m ≡ some t → Grows m t
  unfolding walk
  walk-Grows zero v m t e = absurd cc
  walk-Grows (suc depth) v m t e =
      visit_names-Grows (λ w m1. walk h f folder depth w m1) v (h.read_dir f (folder v)) m t
        (λ w a b. walk-Grows depth w a b) e

  -- A chain of folders below `v`, each a plain name in the one before, and where it ends.
  pub data FolderBelow : Str → Str → Type 0 where
    ends : {v : Str} → FolderBelow v v
    goes :
        {v w : Str} (n : Str)
        → has (h.read_dir f (folder v)) n ≡ true
        → is_marker n ≡ false
        → says_dir (h.lstat f (folder v ++ (slash ∷ n))) ≡ true
        → FolderBelow (child_path v n) w
        → FolderBelow v w

  visit_marker :
      (descend : Str → KeptMasks → Option KeptMasks) (v x : Str) (m : KeptMasks)
      → str_eq (wh_prefix ++ x) opaque_name ≡ false
      → visit_name h f folder descend v (wh_prefix ++ x) m
        ≡ some (record m { deleted = insert (child_path v x) m.deleted })
  unfolding visit_name
  visit_marker descend v x m name = skip_if _ _ name

  visit_folder :
      (descend : Str → KeptMasks → Option KeptMasks) (v n : Str) (m : KeptMasks)
      → is_marker n ≡ false
      → says_dir (h.lstat f (folder v ++ (slash ∷ n))) ≡ true
      → visit_name h f folder descend v n m ≡ descend (child_path v n) m
  unfolding visit_name
  visit_folder descend v n m plain below =
      skip_if _ _ (not_opaque n plain) ∙ (skip_if _ _ plain ∙ take_if _ _ below)

  marker_visit :
      (descend : Str → KeptMasks → Option KeptMasks) (v x : Str) (ns : List Str) (m t : KeptMasks)
      → ((w : Str) (a b : KeptMasks) → descend w a ≡ some b → Grows a b)
      → has ns (wh_prefix ++ x) ≡ true
      → str_eq (wh_prefix ++ x) opaque_name ≡ false
      → visit_names h f folder descend v ns m ≡ some t
      → has t.deleted (child_path v x) ≡ true
  unfolding visit_names has
  marker_visit descend v x [] m t deeper there name e = absurd cc
  marker_visit descend v x (n ∷ ns) m t deeper there name e =
      let (m1, first, rest) = then_some (visit_name h f folder descend v n m) _ t e in
      elim (or_split (str_eq n (wh_prefix ++ x)) (has ns (wh_prefix ++ x)) there) [
        | inl here ↦ (visit_names-Grows descend v ns m1 t deeper rest).still (child_path v x) (
            marked m1 (
              ap (λ y. visit_name h f folder descend v y m)
                (sym (str_eq→eq n (wh_prefix ++ x) here))
              ∙ first))
        | inr later ↦ marker_visit descend v x ns m1 t deeper later name rest
      ]
    where
      marked :
          (m1 : KeptMasks)
          → visit_name h f folder descend v (wh_prefix ++ x) m ≡ some m1
          → has m1.deleted (child_path v x) ≡ true
      marked m1 e1 =
          (same_mask (sym (visit_marker descend v x m name) ∙ e1)).still (child_path v x)
            (has-insert (child_path v x) m.deleted)

  folder_visit :
      (descend : Str → KeptMasks → Option KeptMasks) (v n : Str) (ns : List Str) (m t : KeptMasks)
      → ((w : Str) (a b : KeptMasks) → descend w a ≡ some b → Grows a b)
      → has ns n ≡ true
      → is_marker n ≡ false
      → says_dir (h.lstat f (folder v ++ (slash ∷ n))) ≡ true
      → visit_names h f folder descend v ns m ≡ some t
      → (a : KeptMasks) × (b : KeptMasks) × (descend (child_path v n) a ≡ some b) × Grows b t
  unfolding visit_names has
  folder_visit descend v n [] m t deeper there plain below e = absurd cc
  folder_visit descend v n (y ∷ ns) m t deeper there plain below e =
      let (m1, first, rest) = then_some (visit_name h f folder descend v y m) _ t e in
      elim (or_split (str_eq y n) (has ns n) there) [
        | inl here ↦ (
          m,
          m1,
          sym (visit_folder descend v n m plain below)
              ∙ (ap (λ z. visit_name h f folder descend v z m) (sym (str_eq→eq y n here)) ∙ first),
          visit_names-Grows descend v ns m1 t deeper rest,
        )
        | inr later ↦ folder_visit descend v n ns m1 t deeper later plain below rest
      ]

  -- A walk that ends has found every marker in the folders below its start.
  walk-marker :
      (depth : ℕ) {v w : Str} (x : Str) (m t : KeptMasks)
      → FolderBelow v w
      → has (h.read_dir f (folder w)) (wh_prefix ++ x) ≡ true
      → str_eq (wh_prefix ++ x) opaque_name ≡ false
      → walk h f folder depth v m ≡ some t
      → has t.deleted (child_path w x) ≡ true
  unfolding walk
  walk-marker zero x m t p there name e = absurd cc
  walk-marker (suc depth) {v} {w} x m t ends there name e =
      marker_visit (λ w m1. walk h f folder depth w m1) v x (h.read_dir f (folder v)) m t
        (λ w a b. walk-Grows depth w a b) there name e
  walk-marker (suc depth) {v} {w} x m t (goes n member plain below p) there name e =
      let (a, b, deeper, grows) =
        folder_visit (λ w m1. walk h f folder depth w m1) v n (h.read_dir f (folder v)) m t
          (λ w a b. walk-Grows depth w a b) member plain below e in
      grows.still (child_path w x) (walk-marker depth x a b p there name deeper)

module _ {F : Type 0} (h : HostIo F) (depth : ℕ) where
  seeded :
      (f : F) (s t : VfsState)
      → is_empty s.writelayer ≡ false
      → seed_masks h depth f s ≡ some t
      → (m : KeptMasks) × (walk h f (wl_path s) depth [] no_marks ≡ some m)
        × (t ≡ record s { whiteout_set = m.deleted; opaque_set = m.opaque })
  unfolding seed_masks
  seeded f s t wl e =
      from_walk (walk h f (wl_path s) depth [] no_marks) refl (sym (skip_if _ _ wl) ∙ e)
    where
      state_of : Option VfsState → VfsState
      state_of none = s
      state_of (some u) = u

      from_walk :
          (o : Option KeptMasks)
          → walk h f (wl_path s) depth [] no_marks ≡ o
          → (elim o as (λ x. Option VfsState) [
            | none ↦ none
            | some m ↦ some (record s { whiteout_set = m.deleted; opaque_set = m.opaque })
          ])
            ≡ some t
          → (m : KeptMasks) × (walk h f (wl_path s) depth [] no_marks ≡ some m)
            × (t ≡ record s { whiteout_set = m.deleted; opaque_set = m.opaque })
      from_walk none walked p = absurd cc
      from_walk (some m) walked p = (m, walked, ap state_of (sym p))

  -- Deletions outlast the mount: when the walk over the writelayer at the start has ended, a path whose
  -- whiteout lies in some folder of the writelayer, below other folders of it or not, resolves to nothing
  -- in the state that it gives, whatever the layers have there.
  pub seed_masks-Deleted :
      (f : F) (s t : VfsState) (w x : Str)
      → is_empty s.writelayer ≡ false
      → seed_masks h depth f s ≡ some t
      → FolderBelow h f (wl_path s) [] w
      → has (h.read_dir f (wl_path s w)) (wh_prefix ++ x) ≡ true
      → str_eq (wh_prefix ++ x) opaque_name ≡ false
      → 0 < length x
      → resolve h f t (child_path w x) ≡ no_result
  seed_masks-Deleted f s t w x wl seed below there name deep =
      let (m, walked, state) = seeded f s t wl seed in
      ap (λ u. resolve h f u (child_path w x)) state
      ∙ resolve-Deleted h f (record s { whiteout_set = m.deleted; opaque_set = m.opaque })
          (child_path w x) (child_path w x) wl (child_long w x deep)
          (walk-marker h f (wl_path s) depth x no_marks m below there name walked) (inl refl)
