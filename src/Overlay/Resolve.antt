-- ===== src/Overlay/Resolve.antt =====
-- `SymlinkContained` and `Resolve` of src/overlay.cpp. A lookup does not change the host's state.
pub mod Priority
use vidya_god_fs.Prelude.{
  ℕ, zero, suc, Bool, true, false, not, ◌&&◌, ◌||◌, List, [], ◌∷◌, ◌++◌, Option, none, some,
  is_empty, ltb, if◌then◌else◌,
}
use vidya_god_fs.Prelude.Text.{Str, str_eq, slash}
use vidya_god_fs.Paths.{has, under_root}
use vidya_god_fs.Zip.{ZipEntry, ZipIndex, lookup, resolve_zip_symlink}
use vidya_god_fs.Overlay.Types.{
  LayerType, dir, zip_archive, single_file, delta_archive, Layer, VfsState, HitKind, no_hit,
  implicit_dir, write_layer, dir_layer, file_layer, zip_hit, ResolveResult, Stat, HostIo,
}
use vidya_god_fs.Overlay.Layers.{layer_covers, layer_masked, source_rel, wl_path}
use vidya_god_fs.Overlay.Masks.{is_whiteouted, is_under_whiteout, is_under_opaque}
use vidya_god_fs.Overlay.Kept.{kept_masked}

abbrev pub no_result : ResolveResult
no_result = record {
  kind = no_hit;
  host_path = [];
  layer = none;
  zip_entry = none;
  rw_passthrough = false;
}

-- What one layer makes of the search: it serves the path, it hides it from the layers below, or the
-- search goes on.
pub data Answer : Type 0 where
  serves : ResolveResult → Answer
  hides : Answer
  passes : Answer

-- The lexical prefix check.
abbrev pub is_prefix : List Str → List Str → Bool
is_prefix [] resolved = true
is_prefix (r ∷ root) [] = false
is_prefix (r ∷ root) (p ∷ resolved) = str_eq p r && is_prefix root resolved

abbrev pub children_of : ZipIndex → Str → Bool
children_of z rel = elim (lookup rel z.dir_children) [ none ↦ false | some cs ↦ true ]

module _ {ℓ} {F : Type ℓ} (h : HostIo F) where
  unfoldable pub symlink_contained : F → Str → Str → Bool
  symlink_contained f host source = elim (h.canonical f host) [
    | none ↦ false
    | some resolved ↦ elim (h.canonical f source) [
      | none ↦ false
      | some root ↦ is_prefix root resolved
    ]
  ]

  abbrev pub follows : F → Str → Bool
  follows f path = elim (h.stat_follow f path) [ none ↦ false | some st ↦ true ]

  unfoldable pub resolve_dir : F → VfsState → Layer → Str → Answer
  resolve_dir f s l vrel =
      let host = under_root l.source (source_rel l vrel) in
      elim (h.lstat f host) [
        | none ↦ if l.rw && kept_masked l vrel then hides else passes
        | some st ↦
            if s.flatten_symlinks
              && (not l.rw
                  && (st.is_symlink
                      && (not (follows f host) || not (symlink_contained f host l.source))))
            then passes
            else serves (record {
              kind = dir_layer;
              host_path = host;
              layer = some l;
              zip_entry = none;
              rw_passthrough = l.rw;
            })
      ]

  unfoldable pub resolve_file : F → VfsState → Layer → Answer
  resolve_file f s l = elim (h.lstat f l.source) [
    | none ↦ passes
    | some st ↦
        if s.flatten_symlinks && (st.is_symlink && not (follows f l.source))
        then passes
        else serves (record {
          kind = file_layer;
          host_path = l.source;
          layer = some l;
          zip_entry = none;
          rw_passthrough = false;
        })
  ]

  abbrev zip_result : Layer → Option ZipEntry → Answer
  zip_result l e = serves (record {
    kind = zip_hit;
    host_path = [];
    layer = some l;
    zip_entry = e;
    rw_passthrough = false;
  })

  -- The entry found, or the folder that only its children imply.
  unfoldable pub resolve_zip : VfsState → Layer → ZipIndex → Str → Answer
  resolve_zip s l z rel = elim (lookup rel z.by_name) [
    | none ↦ if children_of z rel then zip_result l none else passes
    | some e ↦
        if s.flatten_symlinks && e.symlink
        then (elim (resolve_zip_symlink z e) [
          | some t ↦ zip_result l (some t)
          | none ↦ if ltb 4096 e.size || not e.stored then passes else zip_result l (some e)
        ])
        else zip_result l (some e)
  ]

  unfoldable pub layer_answer : F → VfsState → Str → Layer → Answer
  layer_answer f s vrel l =
      if not (layer_covers l vrel) || layer_masked l vrel then passes else (elim l.type [
        | dir ↦ resolve_dir f s l vrel
        | single_file ↦ resolve_file f s l
        | zip_archive ↦ elim l.zip [
          | none ↦ passes
          | some z ↦ resolve_zip s l z (source_rel l vrel)
        ]
        | delta_archive ↦ elim l.zip [
          | none ↦ passes
          | some z ↦ resolve_zip s l z (source_rel l vrel)
        ]
      ])

  -- `for (it = rbegin(); ...)`: the layers behind come first.
  unfoldable pub layers_answer : F → VfsState → Str → List Layer → Answer
  layers_answer f s vrel [] = passes
  layers_answer f s vrel (l ∷ layers) =
      let this = layer_answer f s vrel l in
      elim (layers_answer f s vrel layers) [ serves r ↦ serves r | hides ↦ hides | passes ↦ this ]

  -- The part of `Resolve` below the writelayer.
  unfoldable pub resolve_lower : F → VfsState → Str → ResolveResult
  resolve_lower f s vrel = elim (layers_answer f s vrel s.layers) [
    | serves r ↦ r
    | hides ↦ no_result
    | passes ↦
        if has s.implicit_dirs vrel then record no_result { kind = implicit_dir } else no_result
  ]

  unfoldable pub resolve : F → VfsState → Str → ResolveResult
  resolve f s vrel =
      if is_empty s.writelayer
      then resolve_lower f s vrel
      else if is_whiteouted s vrel
      then no_result
      else (elim (h.lstat f (wl_path s vrel)) [
        | some st ↦ record no_result { kind = write_layer; host_path = wl_path s vrel }
        | none ↦
            if is_under_opaque s vrel || is_under_whiteout s vrel
            then no_result
            else resolve_lower f s vrel
      ])
