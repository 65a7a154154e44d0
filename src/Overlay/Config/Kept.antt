-- ===== src/Overlay/Config/Kept.antt =====
-- The changes of the masks (the whiteout and `Kept...` functions of src/overlay.cpp) and the configuration.
use vidya_god_fs.Prelude.{
  ℕ, zero, suc, ◌≡◌, refl, ap, Bool, true, false, List, [], ◌∷◌, ◌++◌, map, Option, none, some,
  Result, ok, err, stuck, is_empty, if◌then◌else◌, enoent, ◌==◌,
}
use vidya_god_fs.Prelude.Text.{Str, slash}
use vidya_god_fs.Overlay.Types.{Layer, KeptMasks, VfsState, HostIo}
use vidya_god_fs.Overlay.Layers.{source_rel, opaque_name}
use vidya_god_fs.Overlay.Masks.{
  create_whiteout, remove_whiteout, mark_opaque, unmark_opaque, rename_mask_prefix,
}
use vidya_god_fs.Overlay.Kept.{
  kept_layer_for, kept_host, kept_marker, set_kept, change_kept, touch_marker, hide_lower,
  unhide_lower, kept_mark_opaque, kept_rename_prefix,
}
use vidya_god_fs.Overlay.Config.{bare, Config, Config-refl, Config-trans, Config-masks, Config-if}

state_if :
    (s : VfsState) (b : Bool) (t u : VfsState)
    → Config s t
    → Config s u
    → Config s (if b then t else u)
state_if s true t u p q = p
state_if s false t u p q = q

bare-changed :
    (change : KeptMasks → KeptMasks) (l : Layer) (k : Option KeptMasks) (rest : List Layer)
    → l.kept ≡ k
    → map bare (elim k [ none ↦ l ∷ rest | some m ↦ record l { kept = some (change m) } ∷ rest ])
      ≡ bare l ∷ map bare rest
unfolding bare
bare-changed change l none rest e = refl
bare-changed change l (some m) rest e = rw e refl

bare-set_kept :
    (i : ℕ) (change : KeptMasks → KeptMasks) (layers : List Layer)
    → map bare (set_kept i change layers) ≡ map bare layers
unfolding set_kept
bare-set_kept i change [] = refl
bare-set_kept zero change (l ∷ layers) = bare-changed change l l.kept layers refl
bare-set_kept (suc i) change (l ∷ layers) = ap (λ t. bare l ∷ t) (bare-set_kept i change layers)

pub change_kept-Config :
    (s : VfsState) (i : ℕ) (change : KeptMasks → KeptMasks) → Config s (change_kept s i change)
change_kept-Config s i change =
    Config-masks s (set_kept i change s.layers) s.whiteout_set s.opaque_set
      (bare-set_kept i change s.layers)

pub unmark_opaque-Config : (s : VfsState) (v : Str) → Config s (unmark_opaque s v)
unfolding unmark_opaque
unmark_opaque-Config s v = state_if s _ _ _ (Config-refl s) (Config-masks s s.layers _ _ refl)

pub rename_mask_prefix-Config : (s : VfsState) (v w : Str) → Config s (rename_mask_prefix s v w)
unfolding rename_mask_prefix
rename_mask_prefix-Config s v w =
    state_if s _ _ _ (Config-refl s) (Config-masks s s.layers _ _ refl)

state_found :
    (s : VfsState) (o : Option (ℕ × Layer)) (g : ℕ × Layer → VfsState)
    → ((x : ℕ × Layer) → Config s (g x))
    → Config s (elim o as (λ y. VfsState) [ none ↦ s | some x ↦ g x ])
state_found s none g q = Config-refl s
state_found s (some x) g q = q x

pub kept_rename_prefix-Config : (s : VfsState) (v w : Str) → Config s (kept_rename_prefix s v w)
unfolding kept_rename_prefix
kept_rename_prefix-Config s v w =
    state_found s (kept_layer_for s v) _
      (λ x. state_if s _ _ _ (Config-refl s) (change_kept-Config s x.0 _))

module _ {F : Type 0} (h : HostIo F) where
  pair_if :
      (s : VfsState) (b : Bool) (x y : F × VfsState)
      → Config s x.1
      → Config s y.1
      → Config s (if b then x else y).1
  pair_if s true x y p q = p
  pair_if s false x y p q = q

  pub create_whiteout-Config :
      (f : F) (s : VfsState) (v : Str) → Config s (create_whiteout h f s v).1
  unfolding create_whiteout
  create_whiteout-Config f s v = pair_if s _ _ _ (Config-refl s) (Config-masks s s.layers _ _ refl)

  pub remove_whiteout-Config :
      (f : F) (s : VfsState) (v : Str) → Config s (remove_whiteout h f s v).1
  unfolding remove_whiteout
  remove_whiteout-Config f s v = pair_if s _ _ _ (Config-refl s) (Config-masks s s.layers _ _ refl)

  pub mark_opaque-Config : (f : F) (s : VfsState) (v : Str) → Config s (mark_opaque h f s v).1
  unfolding mark_opaque
  mark_opaque-Config f s v = pair_if s _ _ _ (Config-refl s) (Config-masks s s.layers _ _ refl)

  -- What a marker's result decides.
  after_marker :
      {A : Type 0} (s t : VfsState) (rc : Result A) (f1 : F)
      → Config s t
      → Config s
          (elim rc as (λ r. Result ℕ × F × VfsState) [
            | ok n ↦ (ok 0, f1, t)
            | err e ↦ (err e, f1, s)
            | stuck ↦ (stuck, f1, s)
          ]).2
  after_marker s t (ok n) f1 p = p
  after_marker s t (err e) f1 p = Config-refl s
  after_marker s t stuck f1 p = Config-refl s

  layer_found :
      (s : VfsState) (o : Option (ℕ × Layer)) (r : Result ℕ × F × VfsState)
      (g : ℕ × Layer → Result ℕ × F × VfsState)
      → Config s r.2
      → ((x : ℕ × Layer) → Config s (g x).2)
      → Config s (elim o as (λ y. Result ℕ × F × VfsState) [ none ↦ r | some x ↦ g x ]).2
  layer_found s none r g p q = p
  layer_found s (some x) r g p q = q x

  pub hide_lower-Config : (f : F) (s : VfsState) (v : Str) → Config s (hide_lower h f s v).2
  unfolding hide_lower
  hide_lower-Config f s v =
      layer_found s (kept_layer_for s v) _ _ (create_whiteout-Config f s v) (λ x.
        Config-if s (is_empty (source_rel x.1 v)) _ _ (create_whiteout-Config f s v) (
          after_marker s _ (touch_marker h f (kept_marker x.1 (source_rel x.1 v))).0 _
            (change_kept-Config s x.0 _)))

  pub kept_mark_opaque-Config :
      (f : F) (s : VfsState) (v : Str) → Config s (kept_mark_opaque h f s v).2
  unfolding kept_mark_opaque
  kept_mark_opaque-Config f s v = layer_found s (kept_layer_for s v) _ _ (Config-refl s) (λ x.
      after_marker s _
        (touch_marker h f (kept_host x.1 (source_rel x.1 v) ++ (slash ∷ opaque_name))).0 _
        (change_kept-Config s x.0 _))

  after_unlink :
      (s t u : VfsState) (rc : Result ℕ) (f1 f2 : F)
      → Config s t
      → Config s
          (elim rc as (λ r. Result ℕ × F × VfsState) [
            | ok n ↦ (ok 0, f2, t)
            | err e ↦ if e == enoent then (ok 0, f2, t) else (err e, f1, s)
            | stuck ↦ (stuck, f1, s)
          ]).2
  after_unlink s t u (ok n) f1 f2 p = p
  after_unlink s t u (err e) f1 f2 p = Config-if s (e == enoent) _ _ p (Config-refl s)
  after_unlink s t u stuck f1 f2 p = Config-refl s

  pub unhide_lower-Config : (f : F) (s : VfsState) (v : Str) → Config s (unhide_lower h f s v).2
  unfolding unhide_lower
  unhide_lower-Config f s v =
      layer_found s (kept_layer_for s v) _ _ (remove_whiteout-Config f s v) (λ x.
        Config-if s _ _ _ (remove_whiteout-Config f s v) (
          after_unlink s _ s (h.unlink f (kept_marker x.1 (source_rel x.1 v))).0 _ _
            (Config-trans (change_kept-Config s x.0 _) (remove_whiteout-Config _ _ v))))
