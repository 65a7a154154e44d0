-- ===== src/Zip.antt =====
-- A zip layer: src/ziplayer.h, `OpenZipEntry`, `ReadZipEntry`, `JoinNormalized` and
-- `ResolveZipSymlink` of src/ziplayer.cpp, and `LocalDataOffset` of src/zipscan.cpp. The index is built
-- by libzip; here it is given. A map is an association list.
pub mod Entries
pub mod Links
pub mod Scan
use vidya_god_fs.Prelude.{
  ℕ, zero, suc, ◌+◌, ◌-◌, ◌*◌, ◌%◌, ◌^◌, ◌||◌, ◌&&◌, not, Bool, true, false, List, [], ◌∷◌, ◌++◌,
  Option, none, some, Result, ok, err, stuck, ℤ, pos, negsuc, eio, einval, length, take, drop,
  is_empty, ltb, leb, ◌==◌, if◌then◌else◌,
}
use vidya_god_fs.Prelude.Text.{Str, str_eq, slash}
use vidya_god_fs.Bytes.{add64, zip_rd16, zip_rd32}
use vidya_god_fs.Source.{ByteSource, pread_all}
use vidya_god_fs.Paths.{parent_vrel}

pub record ZipEntry : Type 0 where
  pub name : Str
  pub index : ℕ
  pub size : ℕ
  pub mtime : ℤ
  pub is_dir : Bool
  pub symlink : Bool
  pub stored : Bool
  pub data_offset : ℕ

pub record ZipIndex : Type 0 where
  pub src : ByteSource
  pub by_name : List (Str × ZipEntry)
  pub dir_children : List (Str × List Str)

pub record ZipReader : Type 0 where
  pub stored : Bool
  pub src : Option ByteSource
  pub data_offset : ℕ
  pub size : ℕ

-- `m.find(key)` of a map by path.
unfoldable pub lookup {ℓ} : {A : Type ℓ} → Str → List (Str × A) → Option A
lookup key [] = none
lookup key ((k, a) ∷ m) = let rest = lookup key m in if str_eq k key then some a else rest

unfoldable pub open_zip_entry : ZipIndex → ZipEntry → Result ZipReader
open_zip_entry z e =
    if e.stored
    then ok (record { stored = true; src = some z.src; data_offset = e.data_offset; size = e.size })
    else err eio

-- `(int)got`: the low 32 bits of the count, with a sign. A caller that gets a negative number takes it
-- for an error. An error number is below 2^31, so the conversion keeps it.
unfoldable pub int_count : Result (List ℕ) → Result (List ℕ)
int_count (ok got) =
    let low = length got % 2 ^ 32 in
    if ltb low (2 ^ 31) then ok (take low got) else err (2 ^ 32 - low)
int_count (err e) = err e
int_count stuck = stuck

unfoldable pub read_zip_entry : ZipReader → ℕ → ℤ → Result (List ℕ)
read_zip_entry r size (negsuc n) = err einval
read_zip_entry r size (pos off) = elim r.src [
  | none ↦ err eio
  | some src ↦
      if not r.stored
      then err eio
      else (if leb r.size off
          then ok []
          else (let avail = r.size - off in
              let want = if ltb size avail then size else avail in
              int_count (src.pread want (add64 r.data_offset off))))
]

-- The pieces of a path between its slashes.
unfoldable pub segments : Str → List Str
segments [] = [] ∷ []
segments (c ∷ s) = elim (segments s) [
  | [] ↦ (c ∷ []) ∷ []
  | t ∷ ts ↦ if c == slash then [] ∷ t ∷ ts else (c ∷ t) ∷ ts
]

abbrev pub dot : Str
dot = 46 ∷ []

abbrev pub dotdot : Str
dotdot = 46 ∷ 46 ∷ []

-- `segs.pop_back()`.
unfoldable pub drop_last : List Str → List Str
drop_last [] = []
drop_last (s ∷ segs) = let rest = drop_last segs in if is_empty segs then [] else s ∷ rest

-- `push`: the pieces of one path, one after the other, onto `segs`.
unfoldable pub push_segs : List Str → List Str → Option (List Str)
push_segs segs [] = some segs
push_segs segs (seg ∷ more) =
    let popped = push_segs (drop_last segs) more in
    let pushed = push_segs (segs ++ (seg ∷ [])) more in
    let kept = push_segs segs more in
    if str_eq seg dotdot
    then (if is_empty segs then none else popped)
    else if not (is_empty seg) && not (str_eq seg dot)
    then pushed
    else kept

-- `for (s : segs) { if (!out.empty()) out += '/'; out += s; }`.
unfoldable pub join_segs : Str → List Str → Str
join_segs out [] = out
join_segs out (s ∷ segs) = join_segs (if is_empty out then s else out ++ (slash ∷ s)) segs

unfoldable pub join_normalized : Str → Str → Option Str
join_normalized base target = elim (push_segs [] (segments base)) [
  | none ↦ none
  | some at ↦ elim (push_segs at (segments target)) [
    | none ↦ none
    | some segs ↦ some (join_segs [] segs)
  ]
]

abbrev is_absolute : Str → Bool
is_absolute [] = false
is_absolute (c ∷ s) = c == slash

-- One hop of the chase: the entry that the link `cur` names.
unfoldable pub link_target : ZipIndex → ZipEntry → Option ZipEntry
link_target z cur =
    if not cur.stored || ((cur.size == 0) || ltb 4096 cur.size)
    then none
    else (elim (z.src.pread cur.size cur.data_offset) [
      | err e ↦ none
      | stuck ↦ none
      | ok tgt ↦
          if not (length tgt == cur.size) || is_absolute tgt
          then none
          else (elim (join_normalized (parent_vrel cur.name) tgt) [
            | none ↦ none
            | some resolved ↦ lookup resolved z.by_name
          ])
    ])

-- `for (hop = 0; hop < 8 && cur->symlink; ++hop)`, with `hops` rounds left, and what follows it.
unfoldable pub chase : ℕ → ZipIndex → ZipEntry → Option ZipEntry
chase zero z cur = if cur.symlink || cur.is_dir then none else some cur
chase (suc hops) z cur =
    if cur.symlink
    then (elim (link_target z cur) [ none ↦ none | some next ↦ chase hops z next ])
    else if cur.is_dir
    then none
    else some cur

unfoldable pub resolve_zip_symlink : ZipIndex → ZipEntry → Option ZipEntry
resolve_zip_symlink z e = chase 8 z e

-- Where the data of the entry with the local header at `lh_offset` starts; `none` for UINT64_MAX.
unfoldable pub local_data_offset : ByteSource → ℕ → Option ℕ
local_data_offset src lh_offset = elim (pread_all src 30 lh_offset) [
  | none ↦ none
  | some lh ↦
      if zip_rd32 lh == 67324752
      then some (add64 (add64 lh_offset 30) (zip_rd16 (drop 26 lh) + zip_rd16 (drop 28 lh)))
      else none
]
