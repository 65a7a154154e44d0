-- ===== src/Paths.antt =====
-- Virtual paths: `NormalizeVPath` of src/layerspec.cpp, `ParentVRel`, `BaseName`, `Within` and the loops
-- over ancestors of src/overlay.cpp. A path is the list of its byte codes, without a leading slash, and
-- "" is the root. A `std::set<std::string>` is a list of which only the membership is observed.
pub mod Ancestors
pub mod Split
use vidya_god_fs.Prelude.{
  ℕ, zero, suc, ◌||◌, ◌&&◌, Bool, true, false, List, [], ◌∷◌, ◌++◌, Option, none, some, length,
  take, drop, any, is_empty, ◌==◌, if◌then◌else◌,
}
use vidya_god_fs.Prelude.Text.{Str, str_eq, slash, starts_with}

-- The loop that steps `a` over leading slashes.
unfoldable pub strip_front : Str → Str
strip_front [] = []
strip_front (c ∷ s) = let rest = strip_front s in if c == slash then rest else c ∷ s

-- The loop that steps `b` back over trailing slashes.
unfoldable pub strip_back : Str → Str
strip_back [] = []
strip_back (c ∷ s) =
    let rest = strip_back s in if is_empty rest && (c == slash) then [] else c ∷ rest

unfoldable pub normalize_vpath : Str → Str
unfolding strip_front strip_back
normalize_vpath s = strip_back (strip_front s)

-- `s.find_last_of('/')`.
unfoldable pub find_last_slash : Str → Option ℕ
find_last_slash [] = none
find_last_slash (c ∷ s) = elim (find_last_slash s) [
  | some i ↦ some (suc i)
  | none ↦ if c == slash then some 0 else none
]

unfoldable pub parent_vrel : Str → Str
parent_vrel v = elim (find_last_slash v) [ none ↦ [] | some i ↦ take i v ]

unfoldable pub base_name : Str → Str
base_name v = elim (find_last_slash v) [ none ↦ v | some i ↦ drop (suc i) v ]

-- `m.count(x) != 0`.
unfoldable pub has : List Str → Str → Bool
has m x = any (λ y. str_eq y x) m

unfoldable pub within : Str → Str → Bool
within v root = is_empty root || (str_eq v root || starts_with v (root ++ (slash ∷ [])))

-- `for (cur = ParentVRel(v); !cur.empty(); cur = ParentVRel(cur)) if (m.count(cur)) return true;`,
-- with `cur` the argument. A parent is shorter, so `length cur` rounds are enough.
unfoldable pub has_above : ℕ → List Str → Str → Bool
has_above zero m cur = false
has_above (suc fuel) m cur =
    let rest = has_above fuel m (parent_vrel cur) in
    if is_empty cur then false else has m cur || rest

-- `host.empty() ? root : root + "/" + rel`.
abbrev pub under_root : Str → Str → Str
under_root root [] = root
under_root root (c ∷ rel) = root ++ (slash ∷ c ∷ rel)
