-- ===== src/Vfs/Children.antt =====
-- `SegmentAfter` and `CollectChildren` of src/vfsops.cpp. A set of names is a strictly ascending list, by
-- the bytes, since the order of the children is the order of `DeepCopyUp` and of a listing.
use vidya_god_fs.Prelude.{
  ℕ, suc, Bool, true, false, not, ◌&&◌, ◌||◌, List, [], ◌∷◌, ◌++◌, Option, none, some, length, drop,
  is_empty, ltb, ◌==◌, if◌then◌else◌,
}
use vidya_god_fs.Prelude.Text.{Str, str_eq, slash, starts_with}
use vidya_god_fs.Paths.{has, under_root}
use vidya_god_fs.Zip.{ZipIndex, lookup, resolve_zip_symlink}
use vidya_god_fs.Overlay.Types.{
  dir, zip_archive, single_file, delta_archive, Layer, VfsState, HostIo,
}
use vidya_god_fs.Overlay.Layers.{
  layer_covers, layer_masked, source_rel, wl_path, wh_prefix, opaque_name,
}
use vidya_god_fs.Overlay.Kept.{is_dir_layer, kept_opaque_dir}
use vidya_god_fs.Vfs.Types.{child_path}

-- `a < b` of two strings.
abbrev pub str_lt : Str → Str → Bool
str_lt [] [] = false
str_lt [] (b ∷ t) = true
str_lt (a ∷ s) [] = false
str_lt (a ∷ s) (b ∷ t) = if ltb a b then true else (a == b) && str_lt s t

unfoldable pub put_name : Str → List Str → List Str
put_name n [] = n ∷ []
put_name n (x ∷ m) =
    let rest = put_name n m in
    if str_lt n x then n ∷ x ∷ m else if str_eq n x then x ∷ m else x ∷ rest

unfoldable pub drop_name : Str → List Str → List Str
drop_name n [] = []
drop_name n (x ∷ m) = let rest = drop_name n m in if str_eq n x then rest else x ∷ rest

-- What stands in front of the first slash.
unfoldable pub first_segment : Str → Str
first_segment [] = []
first_segment (c ∷ s) = let rest = first_segment s in if c == slash then [] else c ∷ rest

-- The segment of `path` behind the folder `v`, or "".
unfoldable pub segment_after : Str → Str → Str
unfolding first_segment
segment_after [] path = first_segment path
segment_after (c ∷ v) path =
    if starts_with path (c ∷ v ++ (slash ∷ []))
    then first_segment (drop (suc (length (c ∷ v))) path)
    else []

abbrev pub put_segment : Str → List Str → List Str
put_segment seg out = if is_empty seg then out else put_name seg out

-- What the callbacks have gathered: the names, and what is to be hidden.
pub record Listing : Type 0 where
  pub names : List Str
  pub whiteouts : List Str
  pub opaque : Bool
  pub kept_whiteouts : List Str
  pub kept_own : List Str

-- `n.rfind(".wh.", 0) == 0`.
abbrev pub is_marker : Str → Bool
is_marker n = starts_with n wh_prefix

-- The writelayer's own folder.
unfoldable pub list_writelayer : List Str → Listing → Listing
list_writelayer [] l = l
list_writelayer (n ∷ ns) l = list_writelayer ns (
    if str_eq n opaque_name
    then record l { opaque = true }
    else if is_marker n
    then record l { whiteouts = put_name (drop 4 n) l.whiteouts }
    else record l { names = put_name n l.names })

-- A folder layer's folder.
unfoldable pub list_dir : Bool → List Str → Listing → Listing
list_dir rw [] l = l
list_dir rw (n ∷ ns) l = list_dir rw ns (
    if rw && is_marker n
    then (if str_eq n opaque_name
        then l
        else record l { kept_whiteouts = put_name (drop 4 n) l.kept_whiteouts })
    else record l {
      kept_own = if rw then put_name n l.kept_own else l.kept_own;
      names = put_name n l.names;
    })

-- A link entry that `Resolve` would not serve.
abbrev pub unserved : Bool → ZipIndex → Str → Bool
unserved flatten z path = elim (lookup path z.by_name) [
  | none ↦ false
  | some e ↦
      flatten
      && (e.symlink
          && ((ltb 4096 e.size || not e.stored)
              && (elim (resolve_zip_symlink z e) [ none ↦ true | some t ↦ false ])))
]

unfoldable pub list_zip : Bool → ZipIndex → Str → List Str → Listing → Listing
list_zip flatten z rel [] l = l
list_zip flatten z rel (c ∷ cs) l =
    list_zip flatten z rel cs
      (if unserved flatten z (child_path rel c) then l else record l { names = put_name c l.names })

-- `opaquePrio`: the highest priority of a kept layer whose folder for `v` was made again.
unfoldable pub opaque_prio : Str → List Layer → Option ℕ → Option ℕ
opaque_prio v [] best = best
opaque_prio v (l ∷ layers) best = opaque_prio v layers (
    if is_dir_layer l
      && (l.rw
          && (layer_covers l v
              && ((elim best [ none ↦ true | some p ↦ ltb p l.priority ]) && kept_opaque_dir l v)))
    then some l.priority
    else best)

abbrev pub is_file_layer : Layer → Bool
is_file_layer l = elim l.type [
  | single_file ↦ true
  | dir ↦ false
  | zip_archive ↦ false
  | delta_archive ↦ false
]

-- A layer's presence below `v`: a single file's name, and the way to a deeper target.
unfoldable pub list_structure : Str → Layer → Listing → Listing
list_structure v l out =
    let path = if is_file_layer l then l.file_vpath else l.target in
    let named =
      if is_file_layer l && str_eq (segment_after v l.file_vpath) l.file_base
      then put_name l.file_base out.names
      else out.names in
    record out { names = put_segment (segment_after v path) named }

unfoldable pub list_implicit : Str → List Str → List Str → List Str
list_implicit v [] names = names
list_implicit v (d ∷ dirs) names = list_implicit v dirs (put_segment (segment_after v d) names)

unfoldable pub drop_names : List Str → List Str → List Str
drop_names [] names = names
drop_names (w ∷ ws) names = drop_names ws (drop_name w names)

-- A kept folder's markers hide lower names, never its own.
unfoldable pub drop_kept : List Str → List Str → List Str → List Str
drop_kept own [] names = names
drop_kept own (w ∷ ws) names = drop_kept own ws (if has own w then names else drop_name w names)

abbrev pub no_listing : Listing
no_listing = record {
  names = [];
  whiteouts = [];
  opaque = false;
  kept_whiteouts = [];
  kept_own = [];
}

module _ {F : Type 0} (h : HostIo F) where
  unfoldable pub list_content : F → VfsState → Str → Layer → Listing → Listing
  list_content f s v l out = elim l.type [
    | dir ↦ list_dir l.rw (h.read_dir f (under_root l.source (source_rel l v))) out
    | single_file ↦ out
    | zip_archive ↦ elim l.zip [
      | none ↦ out
      | some z ↦ elim (lookup (source_rel l v) z.dir_children) [
        | none ↦ out
        | some cs ↦ list_zip s.flatten_symlinks z (source_rel l v) cs out
      ]
    ]
    | delta_archive ↦ out
  ]

  abbrev pub below_opaque : Option ℕ → Layer → Bool
  below_opaque best l = elim best [ none ↦ false | some p ↦ ltb l.priority p ]

  unfoldable pub list_layer : F → VfsState → Str → Option ℕ → Layer → Listing → Listing
  list_layer f s v best l out =
      if below_opaque best l || (layer_masked l v || out.opaque)
      then out
      else list_structure v l (if layer_covers l v then list_content f s v l out else out)

  unfoldable pub list_layers : F → VfsState → Str → Option ℕ → List Layer → Listing → Listing
  list_layers f s v best [] out = out
  list_layers f s v best (l ∷ layers) out =
      list_layers f s v best layers (list_layer f s v best l out)

  unfoldable pub own_listing : F → VfsState → Str → Listing
  own_listing f s v =
      if is_empty s.writelayer
      then no_listing
      else list_writelayer (h.read_dir f (wl_path s v)) no_listing

  unfoldable pub collect_children : F → VfsState → Str → List Str
  collect_children f s v =
      let own = own_listing f s v in
      let all = list_layers f s v (opaque_prio v s.layers none) s.layers own in
      let names = if all.opaque then all.names else list_implicit v s.implicit_dirs all.names in
      drop_kept all.kept_own all.kept_whiteouts (drop_names all.whiteouts names)
