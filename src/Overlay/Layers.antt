-- ===== src/Overlay/Layers.antt =====
-- Coverage and relative paths of layers: `LayerCovers`, `LayerMasked`, `RelUnder`, `SourceRel`, `WLPath`,
-- `WhiteoutPath`, `FoldCase` and `CanonicalCase` of src/overlay.cpp.
pub mod Case
use vidya_god_fs.Prelude.{
  ℕ, zero, suc, ◌+◌, ◌-◌, Bool, not, ◌&&◌, ◌||◌, List, [], ◌∷◌, ◌++◌, none, some, length, take,
  drop, any, is_empty, leb, if◌then◌else◌,
}
use vidya_god_fs.Prelude.Text.{Str, str_eq, slash, starts_with}
use vidya_god_fs.Paths.{find_last_slash, parent_vrel, base_name, within, under_root}
use vidya_god_fs.Zip.{lookup}
use vidya_god_fs.Overlay.Types.{dir, zip_archive, single_file, delta_archive, Layer, VfsState}

unfoldable pub layer_covers : Layer → Str → Bool
layer_covers l vrel = elim l.type [
  | single_file ↦ str_eq vrel l.file_vpath
  | dir ↦ is_empty l.target || (str_eq vrel l.target || starts_with vrel (l.target ++ (slash ∷ [])))
  | zip_archive ↦
      is_empty l.target || (str_eq vrel l.target || starts_with vrel (l.target ++ (slash ∷ [])))
  | delta_archive ↦
      is_empty l.target || (str_eq vrel l.target || starts_with vrel (l.target ++ (slash ∷ [])))
]

unfoldable pub layer_masked : Layer → Str → Bool
layer_masked l vrel = any (within vrel) l.masked_under

unfoldable pub rel_under : Layer → Str → Str
rel_under l vrel =
    if is_empty l.target
    then vrel
    else if str_eq vrel l.target
    then []
    else drop (suc (length l.target)) vrel

unfoldable pub source_rel : Layer → Str → Str
unfolding rel_under
source_rel l vrel =
    let rel = rel_under l vrel in
    if is_empty l.subpath
    then rel
    else if is_empty rel
    then l.subpath
    else l.subpath ++ (slash ∷ rel)

abbrev pub wl_path : VfsState → Str → Str
wl_path s vrel = under_root s.writelayer vrel

-- ".wh."
abbrev pub wh_prefix : Str
wh_prefix = 46 ∷ 119 ∷ 104 ∷ 46 ∷ []

-- ".wh..wh..opq"
abbrev pub opaque_name : Str
opaque_name = wh_prefix ++ (wh_prefix ++ (46 ∷ 111 ∷ 112 ∷ 113 ∷ []))

unfoldable pub whiteout_path : VfsState → Str → Str
whiteout_path s vrel = wl_path s (parent_vrel vrel) ++ (slash ∷ (wh_prefix ++ base_name vrel))

-- ASCII only.
unfoldable pub fold_case : Str → Str
fold_case [] = []
fold_case (c ∷ s) = (if leb 65 c && leb c 90 then c - 65 + 97 else c) ∷ fold_case s

-- `while (true)`: `cut` is the length of the prefix that is looked up. The cut at the last slash in
-- front of `cut` is the length of the prefix's parent.
unfoldable pub canonical_from : ℕ → List (Str × Str) → Str → Str → ℕ → Str
canonical_from zero m folded vrel cut = vrel
canonical_from (suc fuel) m folded vrel cut = elim (lookup (take cut folded) m) [
  | some spelled ↦ spelled ++ drop cut vrel
  | none ↦ elim (find_last_slash (take cut folded)) [
    | none ↦ vrel
    | some zero ↦ vrel
    | some (suc at) ↦ canonical_from fuel m folded vrel (suc at)
  ]
]

unfoldable pub canonical_case : VfsState → Str → Str
canonical_case s vrel =
    if not s.case_insensitive || (is_empty s.canon_case || is_empty vrel)
    then vrel
    else canonical_from (length vrel) s.canon_case (fold_case vrel) vrel (length (fold_case vrel))
