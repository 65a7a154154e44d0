-- ===== src/Overlay/Kept.antt =====
-- Deletions under a kept folder, that is a read-write passthrough layer: `PassthroughHost` and the
-- `Kept...` functions, `HideLower` and `UnhideLower` of src/overlay.cpp.
pub mod Masked
use vidya_god_fs.Prelude.{
  ℕ, zero, suc, Bool, true, false, not, ◌&&◌, ◌||◌, List, [], ◌∷◌, ◌++◌, Option, none, some, Result,
  ok, err, stuck, einval, enoent, length, drop, is_empty, ◌==◌, if◌then◌else◌,
}
use vidya_god_fs.Prelude.Text.{Str, str_eq, slash, starts_with}
use vidya_god_fs.Paths.{parent_vrel, base_name, has, has_above, under_root}
use vidya_god_fs.Overlay.Types.{
  LayerType, dir, zip_archive, single_file, delta_archive, Layer, VfsState, KeptMasks, HostIo,
  create_file,
}
use vidya_god_fs.Overlay.Layers.{layer_covers, source_rel, wh_prefix, opaque_name}
use vidya_god_fs.Overlay.Masks.{insert, erase, create_whiteout, remove_whiteout}

abbrev pub is_dir_layer : Layer → Bool
is_dir_layer l = elim l.type [
  | dir ↦ true
  | zip_archive ↦ false
  | single_file ↦ false
  | delta_archive ↦ false
]

-- The highest layer that passes the test, with its index.
unfoldable pub last_layer : (Layer → Bool) → List Layer → Option (ℕ × Layer)
last_layer p [] = none
last_layer p (l ∷ layers) = elim (last_layer p layers) [
  | some (i, found) ↦ some (suc i, found)
  | none ↦ if p l then some (0, l) else none
]

unfoldable pub kept_layer_for : VfsState → Str → Option (ℕ × Layer)
kept_layer_for s vrel = last_layer (λ l. is_dir_layer l && (l.rw && layer_covers l vrel)) s.layers

abbrev pub kept_host : Layer → Str → Str
kept_host l rel = under_root l.source rel

unfoldable pub passthrough_host : VfsState → Str → Option Str
unfolding kept_layer_for
passthrough_host s vrel = elim (kept_layer_for s vrel) [
  | none ↦ none
  | some (i, l) ↦ some (kept_host l (source_rel l vrel))
]

unfoldable pub kept_marker : Layer → Str → Str
kept_marker l rel =
    if is_empty rel
    then []
    else kept_host l (parent_vrel rel) ++ (slash ∷ (wh_prefix ++ base_name rel))

abbrev deleted_of : Layer → List Str
deleted_of l = elim l.kept [ none ↦ [] | some k ↦ k.deleted ]

abbrev opaque_of : Layer → List Str
opaque_of l = elim l.kept [ none ↦ [] | some k ↦ k.opaque ]

unfoldable pub kept_hidden : VfsState → Str → Bool
kept_hidden s vrel = elim (kept_layer_for s vrel) [
  | none ↦ false
  | some (i, l) ↦ has (deleted_of l) (source_rel l vrel)
]

unfoldable pub kept_opaque_dir : Layer → Str → Bool
kept_opaque_dir l vrel = elim l.kept [ none ↦ false | some k ↦ has k.opaque (source_rel l vrel) ]

-- The loop of `KeptMasked` from `cur` on. The root may be opaque, but not deleted.
unfoldable pub masked_above : ℕ → List Str → List Str → Str → Bool
masked_above zero del opq cur = false
masked_above (suc fuel) del opq cur =
    let rest = masked_above fuel del opq (parent_vrel cur) in
    if not (is_empty cur) && has del cur
    then true
    else if has opq cur
    then true
    else if is_empty cur
    then false
    else rest

unfoldable pub kept_masked : Layer → Str → Bool
kept_masked l vrel = elim l.kept [
  | none ↦ false
  | some k ↦
      if is_empty k.deleted && is_empty k.opaque
      then false
      else (let rel = source_rel l vrel in
          if is_empty rel
          then false
          else if has k.deleted rel
          then true
          else masked_above (suc (length rel)) k.deleted k.opaque (parent_vrel rel))
]

-- `MutateMask` on the masks of layer `i`.
unfoldable pub set_kept : ℕ → (KeptMasks → KeptMasks) → List Layer → List Layer
set_kept i change [] = []
set_kept zero change (l ∷ layers) = elim l.kept [
  | none ↦ l ∷ layers
  | some k ↦ record l { kept = some (change k) } ∷ layers
]
set_kept (suc i) change (l ∷ layers) = l ∷ set_kept i change layers

abbrev pub change_kept : VfsState → ℕ → (KeptMasks → KeptMasks) → VfsState
change_kept s i change = record s { layers = set_kept i change s.layers }

module _ {ℓ} {F : Type ℓ} (h : HostIo F) where
  -- The marker's folder is its path up to the last slash.
  unfoldable pub touch_marker : F → Str → Result ℕ × F
  touch_marker f path =
      let (ec, f1) = h.create_directories f (parent_vrel path) in
      if not (ec == 0)
      then (err ec, f1)
      else (let (fd, f2) = create_file h f1 path in
          elim fd [ ok n ↦ (ok 0, f2) | err e ↦ (err e, f2) | stuck ↦ (stuck, f2) ])

  abbrev whiteout_instead : F → VfsState → Str → Result ℕ × F × VfsState
  whiteout_instead f s vrel = let (f1, s1) = create_whiteout h f s vrel in (ok 0, f1, s1)

  unfoldable pub hide_lower : F → VfsState → Str → Result ℕ × F × VfsState
  hide_lower f s vrel = elim (kept_layer_for s vrel) [
    | none ↦ whiteout_instead f s vrel
    | some (i, l) ↦
        let rel = source_rel l vrel in
        if is_empty rel
        then whiteout_instead f s vrel
        else (let (rc, f1) = touch_marker f (kept_marker l rel) in
            elim rc [
              | ok n ↦
                  (ok 0, f1, change_kept s i (λ k. record k { deleted = insert rel k.deleted }))
              | err e ↦ (err e, f1, s)
              | stuck ↦ (stuck, f1, s)
            ])
  ]

  abbrev unwhiteout_instead : F → VfsState → Str → Result ℕ × F × VfsState
  unwhiteout_instead f s vrel = let (f1, s1) = remove_whiteout h f s vrel in (ok 0, f1, s1)

  unfoldable pub unhide_lower : F → VfsState → Str → Result ℕ × F × VfsState
  unhide_lower f s vrel = elim (kept_layer_for s vrel) [
    | none ↦ unwhiteout_instead f s vrel
    | some (i, l) ↦
        let rel = source_rel l vrel in
        let erased = change_kept s i (λ k. record k { deleted = erase rel k.deleted }) in
        if is_empty rel || not (has (deleted_of l) rel)
        then unwhiteout_instead f s vrel
        else (let (rc, f1) = h.unlink f (kept_marker l rel) in
            elim rc [
              | ok n ↦ unwhiteout_instead f1 erased vrel
              | err e ↦ if e == enoent then unwhiteout_instead f1 erased vrel else (err e, f1, s)
              | stuck ↦ (stuck, f1, s)
            ])
  ]

  unfoldable pub kept_mark_opaque : F → VfsState → Str → Result ℕ × F × VfsState
  kept_mark_opaque f s vrel = elim (kept_layer_for s vrel) [
    | none ↦ (err einval, f, s)
    | some (i, l) ↦
        let rel = source_rel l vrel in
        let (rc, f1) = touch_marker f (kept_host l rel ++ (slash ∷ opaque_name)) in
        elim rc [
          | ok n ↦ (ok 0, f1, change_kept s i (λ k. record k { opaque = insert rel k.opaque }))
          | err e ↦ (err e, f1, s)
          | stuck ↦ (stuck, f1, s)
        ]
  ]

-- The loop of `RewritePrefix`.
unfoldable pub rewrite_set : Str → Str → List Str → List Str
rewrite_set o n [] = []
rewrite_set o n (x ∷ m) =
    let rest = rewrite_set o n m in
    if str_eq x o
    then insert n rest
    else if starts_with x (o ++ (slash ∷ []))
    then insert (n ++ drop (length o) x) rest
    else insert x rest

abbrev same_layer : Option (ℕ × Layer) → ℕ → Bool
same_layer none i = false
same_layer (some (j, l)) i = i == j

unfoldable pub kept_rename_prefix : VfsState → Str → Str → VfsState
kept_rename_prefix s oldv newv = elim (kept_layer_for s oldv) [
  | none ↦ s
  | some (i, l) ↦
      if not (same_layer (kept_layer_for s newv) i)
      then s
      else (let o = source_rel l oldv in
          let n = source_rel l newv in
          change_kept s i (λ k. record k {
            deleted = rewrite_set o n k.deleted;
            opaque = rewrite_set o n k.opaque;
          }))
]
