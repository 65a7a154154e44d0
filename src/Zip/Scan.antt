-- ===== src/Zip/Scan.antt =====
-- `WalkCentralDir`, `CentralDirOffsets` and `FirstCompressedEntry` of src/zipscan.cpp. The callback and
-- what it captures are a function on a state, whose second result tells to go on.
pub mod First
pub mod Laid
use vidya_god_fs.Prelude.{
  ℕ, zero, suc, ◌+◌, ◌-◌, ◌≡◌, Bool, true, false, not, ◌&&◌, ◌||◌, List, [], ◌∷◌, ◌++◌, Option,
  none, some, length, drop, is_empty, ltb, leb, ◌==◌, if◌then◌else◌,
}
use vidya_god_fs.Prelude.Text.{Str}
use vidya_god_fs.Bytes.{add64, zip_rd16, zip_rd32, zip_rd64}
use vidya_god_fs.Source.{ByteSource, pread_all}
use vidya_god_fs.Paths.{normalize_vpath}

-- The loop from `i` down to 0 over the tail of the file.
unfoldable pub find_eocd : ℕ → List ℕ → Option ℕ
find_eocd zero buf = if zip_rd32 buf == 101010256 then some 0 else none
find_eocd (suc i) buf =
    if zip_rd32 (drop (suc i) buf) == 101010256 then some (suc i) else find_eocd i buf

-- The number of entries and the offset of the directory, from the ZIP64 records.
unfoldable pub zip64_dir : ByteSource → ℕ → Option (ℕ × ℕ)
zip64_dir src eocd_off =
    if ltb eocd_off 20 then none else (elim (pread_all src 20 (eocd_off - 20)) [
      | none ↦ none
      | some loc ↦
          if not (zip_rd32 loc == 117853008)
          then none
          else (elim (pread_all src 56 (zip_rd64 (drop 8 loc))) [
            | none ↦ none
            | some z64 ↦
                if not (zip_rd32 z64 == 101075792)
                then none
                else some (zip_rd64 (drop 32 z64), zip_rd64 (drop 48 z64))
          ])
    ])

unfoldable pub locate_dir : ByteSource → Option (ℕ × ℕ)
locate_dir src =
    if ltb src.size 22
    then none
    else (let tail = if ltb (22 + 65535) src.size then 22 + 65535 else src.size in
        elim (pread_all src tail (src.size - tail)) [
          | none ↦ none
          | some buf ↦ elim (find_eocd (tail - 22) buf) [
            | none ↦ none
            | some eocd ↦
                let total = zip_rd16 (drop (eocd + 10) buf) in
                let cd = zip_rd32 (drop (eocd + 16) buf) in
                if (cd == 4294967295) || (total == 65535)
                then zip64_dir src (src.size - tail + eocd)
                else some (total, cd)
          ]
        ])

-- `while (e + 4 <= extraLen)`: every round moves `e` forward by 4 at least.
unfoldable pub zip64_offset : ℕ → List ℕ → ℕ → ℕ → ℕ → ℕ → ℕ
zip64_offset zero extra e comp uncomp lh = lh
zip64_offset (suc fuel) extra e comp uncomp lh =
    let id = zip_rd16 (drop e extra) in
    let sz = zip_rd16 (drop (e + 2) extra) in
    let end_at = e + 4 + sz in
    let f1 = if (uncomp == 4294967295) && leb (e + 4 + 8) end_at then e + 4 + 8 else e + 4 in
    let f2 = if (comp == 4294967295) && leb (f1 + 8) end_at then f1 + 8 else f1 in
    if not (leb (e + 4) (length extra))
    then lh
    else if ltb (length extra) end_at
    then lh
    else if id == 1
    then (if leb (f2 + 8) end_at then zip_rd64 (drop f2 extra) else lh)
    else zip64_offset fuel extra end_at comp uncomp lh

pub record DirEntry : Type 0 where
  pub name : Str
  pub method : ℕ
  pub lh_offset : ℕ
  pub next : ℕ

-- One record of the directory, at `at`.
unfoldable pub read_entry : ByteSource → ℕ → Option DirEntry
read_entry src at = elim (pread_all src 46 at) [
  | none ↦ none
  | some rec ↦
      let name_len = zip_rd16 (drop 28 rec) in
      let extra_len = zip_rd16 (drop 30 rec) in
      let lh = zip_rd32 (drop 42 rec) in
      if not (zip_rd32 rec == 33639248)
      then none
      else (elim (pread_all src name_len (add64 at 46)) [
        | none ↦ none
        | some name ↦ some (record {
          name = name;
          method = zip_rd16 (drop 10 rec);
          lh_offset =
              if not (lh == 4294967295)
              then lh
              else (elim (pread_all src extra_len (add64 at (46 + name_len))) [
                | none ↦ lh
                | some extra ↦
                    zip64_offset (length extra) extra 0 (zip_rd32 (drop 20 rec))
                      (zip_rd32 (drop 24 rec)) lh
              ]);
          next = add64 at (46 + name_len + extra_len + zip_rd16 (drop 32 rec));
        })
      ])
]

-- `for (i = 0; i < totalEntries; ++i)`: the state at the end, and `WalkCentralDir`'s result.
unfoldable pub walk_entries {ℓ} :
    {A : Type ℓ} → ByteSource → (A → DirEntry → A × Bool) → ℕ → ℕ → A → A × Bool
walk_entries src cb zero at a = (a, true)
walk_entries src cb (suc left) at a = elim (read_entry src at) [
  | none ↦ (a, false)
  | some e ↦
      let (a1, go_on) = cb a e in
      if not go_on then (a1, true) else walk_entries src cb left e.next a1
]

unfoldable pub walk_central_dir {ℓ} :
    {A : Type ℓ} → ByteSource → (A → DirEntry → A × Bool) → A → A × Bool
walk_central_dir src cb a = elim (locate_dir src) [
  | none ↦ (a, false)
  | some (total, cd) ↦ walk_entries src cb total cd a
]

-- A later entry of the same name takes the place of the earlier one.
unfoldable pub note_offset : List (Str × ℕ) → DirEntry → List (Str × ℕ) × Bool
note_offset out e =
    let vrel = normalize_vpath e.name in
    (if is_empty vrel then out else (vrel, e.lh_offset) ∷ out, true)

unfoldable pub central_dir_offsets : ByteSource → List (Str × ℕ)
central_dir_offsets src = (walk_central_dir src note_offset []).0

-- "(entry)"
abbrev pub unnamed : Str
unnamed = 40 ∷ 101 ∷ 110 ∷ 116 ∷ 114 ∷ 121 ∷ 41 ∷ []

unfoldable pub stop_compressed : Str → DirEntry → Str × Bool
stop_compressed result e =
    if e.method == 0 then (result, true) else (if is_empty e.name then unnamed else e.name, false)

unfoldable pub first_compressed_entry : ByteSource → Str
first_compressed_entry src = (walk_central_dir src stop_compressed []).0
