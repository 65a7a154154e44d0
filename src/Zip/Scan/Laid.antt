-- ===== src/Zip/Scan/Laid.antt =====
-- The records of a central directory as the ZIP format lays them out, and what `FirstCompressedEntry`
-- of src/zipscan.cpp gives on them.
use vidya_god_fs.Prelude.{
  ℕ, ◌+◌, ◌/◌, ◌%◌, ◌^◌, ◌≤◌, ◌<◌, ◌≡◌, ◌↔◌, refl, sym, ap, ◌∙◌, arith, Bool, true, false, List, [],
  ◌∷◌, ◌++◌, Option, none, some, length, take, drop, is_empty, ◌==◌, ==_iff, if◌then◌else◌, All,
  length-append, drop-append_ge, take-append_le, take_all, drop-drop, append_assoc,
}
use vidya_god_fs.Prelude.Bits.{bit_or_fields_low}
use vidya_god_fs.Prelude.Text.{Str}
use vidya_god_fs.Bytes.{add64, add64-eq, zip_rd16, zip_rd32}
use vidya_god_fs.Source.{ByteSource, pread_all}
use vidya_god_fs.Source.Exact.{Serves, pread_all-exact}
use vidya_god_fs.Zip.Scan.{DirEntry, read_entry, locate_dir, unnamed, first_compressed_entry}
use vidya_god_fs.Zip.Scan.First.{dir_entries, first_packed, first_compressed_entry-first_packed}

abbrev pub le16 : ℕ → List ℕ
le16 n = (n % 256) ∷ (n / 256 % 256) ∷ []

abbrev pub le32 : ℕ → List ℕ
le32 n = (n % 256) ∷ (n / 256 % 256) ∷ (n / 65536 % 256) ∷ (n / 16777216 % 256) ∷ []

-- The fields of a record, in the order of the format.
pub record DirRecord : Type 0 where
  pub made_by : ℕ
  pub needed : ℕ
  pub flags : ℕ
  pub method : ℕ
  pub time : ℕ
  pub date : ℕ
  pub crc : ℕ
  pub comp_size : ℕ
  pub size : ℕ
  pub disk : ℕ
  pub inner_attr : ℕ
  pub outer_attr : ℕ
  pub offset : ℕ
  pub name : Str
  pub extra : List ℕ
  pub comment : List ℕ

-- The part of fixed length: 46 bytes.
abbrev pub fixed_part : DirRecord → List ℕ
fixed_part r =
    80
    ∷ 75
    ∷ 1
    ∷ 2
    ∷ (le16 r.made_by
        ++ (le16 r.needed
            ++ (le16 r.flags
                ++ (le16 r.method
                    ++ (le16 r.time
                        ++ (le16 r.date
                            ++ (le32 r.crc
                                ++ (le32 r.comp_size
                                    ++ (le32 r.size
                                        ++ (le16 (length r.name)
                                            ++ (le16 (length r.extra)
                                                ++ (le16 (length r.comment)
                                                    ++ (le16 r.disk
                                                        ++ (le16 r.inner_attr
                                                            ++ (le32 r.outer_attr
                                                            ++ le32 r.offset)))))))))))))))

abbrev pub record_bytes : DirRecord → List ℕ
record_bytes r = fixed_part r ++ (r.name ++ (r.extra ++ r.comment))

abbrev pub dir_bytes : List DirRecord → List ℕ
dir_bytes [] = []
dir_bytes (r ∷ rs) = record_bytes r ++ dir_bytes rs

-- The fields that are read fit their 16 bits.
pub record RecordFits (r : DirRecord) : Type 0 where
  pub method_fits : r.method < 2 ^ 16
  pub name_fits : length r.name < 2 ^ 16
  pub extra_fits : length r.extra < 2 ^ 16
  pub comment_fits : length r.comment < 2 ^ 16

-- The archive's bytes hold the records from `cd` on.
pub record DirLaid (bytes : List ℕ) (cd : ℕ) (rs : List DirRecord) : Type 0 where
  pub behind : List ℕ
  pub laid : drop cd bytes ≡ dir_bytes rs ++ behind
  pub in_archive : cd + length (dir_bytes rs) ≤ length bytes
  pub records_fit : All RecordFits rs

-- The name of the first record of another method than "stored", or nothing.
abbrev pub packed_name : List DirRecord → Str
packed_name [] = []
packed_name (r ∷ rs) =
    if r.method == 0 then packed_name rs else if is_empty r.name then unnamed else r.name

zip_rd16-le16 : (n : ℕ) (rest : List ℕ) → n < 2 ^ 16 → zip_rd16 (le16 n ++ rest) ≡ n
unfolding zip_rd16
zip_rd16-le16 n rest h = bit_or_fields_low 8 (n / 256 % 256) (n % 256) (omega arith) ∙ omega arith

-- The entry that is read where a record lies.
record ReadsRecord (o : Option DirEntry) (at : ℕ) (r : DirRecord) : Type 0 where
  entry : DirEntry
  read_eq : o ≡ some entry
  name_eq : entry.name ≡ r.name
  method_eq : entry.method ≡ r.method
  next_eq : entry.next ≡ at + length (record_bytes r)

name_read :
    (o : Option Str) (f : Str → DirEntry) (at : ℕ) (r : DirRecord)
    → o ≡ some r.name
    → (f r.name).name ≡ r.name
    → (f r.name).method ≡ r.method
    → (f r.name).next ≡ at + length (record_bytes r)
    → ReadsRecord (elim o [ none ↦ none | some name ↦ some (f name) ]) at r
name_read o f at r e name_eq method_eq next_eq = record {
  entry = f r.name;
  read_eq = rw e refl;
  name_eq = name_eq;
  method_eq = method_eq;
  next_eq = next_eq;
}

length-record_bytes :
    (r : DirRecord)
    → length (record_bytes r) ≡ 46 + length r.name + length r.extra + length r.comment
length-record_bytes r =
    omega (arith, length-append r.name (r.extra ++ r.comment), length-append r.extra r.comment)

module _ (src : ByteSource) (bytes : List ℕ) (serves : Serves src bytes) where
  next_place :
      (at : ℕ) (r : DirRecord) (n x c : ℕ)
      → n ≡ length r.name
      → x ≡ length r.extra
      → c ≡ length r.comment
      → at + length (record_bytes r) ≤ length bytes
      → add64 at (46 + n + x + c) ≡ at + length (record_bytes r)
  next_place at r n x c en ex ec range =
      add64-eq at (46 + n + x + c)
        (omega (arith, serves.fits, range, length-record_bytes r, en, ex, ec))
      ∙ omega (arith, length-record_bytes r, en, ex, ec)

  read_entry-record :
      (at : ℕ) (r : DirRecord) (rest : List ℕ)
      → RecordFits r
      → drop at bytes ≡ record_bytes r ++ rest
      → at + length (record_bytes r) ≤ length bytes
      → ReadsRecord (read_entry src at) at r
  unfolding read_entry zip_rd32
  read_entry-record at r rest f laid range =
      rw (read_entry, fixed_eq)
        (rw (zip_rd16-le16 (length r.name) _ f.name_fits) (
          name_read _ _ at r name_eq refl (zip_rd16-le16 r.method _ f.method_fits) (
            next_place at r _ _ _ (zip_rd16-le16 (length r.name) _ f.name_fits)
              (zip_rd16-le16 (length r.extra) _ f.extra_fits)
              (zip_rd16-le16 (length r.comment) _ f.comment_fits) range)))
    where
      fixed_eq : pread_all src 46 at ≡ some (fixed_part r)
      fixed_eq =
          pread_all-exact src bytes serves 46 at (omega (arith, length-record_bytes r, range))
          ∙ ap (λ b. some (take 46 b)) laid

      place : add64 at 46 ≡ at + 46
      place = add64-eq at 46 (omega (arith, serves.fits, range, length-record_bytes r))

      taken : take (length r.name) ((r.name ++ (r.extra ++ r.comment)) ++ rest) ≡ r.name
      taken =
          take-append_le (length r.name) (r.name ++ (r.extra ++ r.comment)) rest
            (omega (arith, length-append r.name (r.extra ++ r.comment)))
          ∙ take-append_le (length r.name) r.name (r.extra ++ r.comment) (omega arith)
          ∙ take_all (length r.name) r.name (omega arith)

      name_eq : pread_all src (length r.name) (add64 at 46) ≡ some r.name
      name_eq =
          pread_all-exact src bytes serves (length r.name) (add64 at 46)
            (omega (arith, length-record_bytes r, range, place))
          ∙ ap some (
              ap (λ (k : ℕ). take (length r.name) (drop k bytes)) place
              ∙ ap (take (length r.name)) (sym (drop-drop 46 at bytes) ∙ ap (drop 46) laid)
              ∙ taken)

  walked-packed_name :
      (rs : List DirRecord) (at : ℕ) (behind : List ℕ)
      → All RecordFits rs
      → drop at bytes ≡ dir_bytes rs ++ behind
      → at + length (dir_bytes rs) ≤ length bytes
      → first_packed (dir_entries src (length rs) at) ≡ packed_name rs
  unfolding read_entry pread_all
  walked-packed_name [] at behind fit laid range = refl
  walked-packed_name (r ∷ rs) at behind (f, fit) laid range =
      let m =
        read_entry-record at r (dir_bytes rs ++ behind) f split
          (omega (arith, range, length-append (record_bytes r) (dir_bytes rs))) in
      rw (m.read_eq, m.method_eq, m.name_eq, m.next_eq)
        (ap (λ t. if r.method == 0 then t else if is_empty r.name then unnamed else r.name)
          (walked-packed_name rs (at + length (record_bytes r)) behind fit next_laid
            (omega (arith, range, length-append (record_bytes r) (dir_bytes rs)))))
    where
      split : drop at bytes ≡ record_bytes r ++ (dir_bytes rs ++ behind)
      split = laid ∙ append_assoc (record_bytes r) (dir_bytes rs) behind

      next_laid : drop (at + length (record_bytes r)) bytes ≡ dir_bytes rs ++ behind
      next_laid =
          sym (drop-drop (length (record_bytes r)) at bytes)
          ∙ ap (drop (length (record_bytes r))) split
          ∙ drop-append_ge (length (record_bytes r)) 0 (record_bytes r) (dir_bytes rs ++ behind)
              (omega arith)

name_given : (n : Str) → (if is_empty n then unnamed else n) ≡ [] → ⊥
name_given [] e = absurd (omega (arith, ap length e))
name_given (c ∷ n) e = absurd (omega (arith, ap length e))

none_packed : (rs : List DirRecord) → packed_name rs ≡ [] → All (λ r. r.method ≡ 0) rs
none_packed [] h = tt
none_packed (r ∷ rs) h = by_method (r.method == 0) refl h (none_packed rs)
  where
    by_method :
        (b : Bool)
        → (r.method == 0) ≡ b
        → (if b then packed_name rs else if is_empty r.name then unnamed else r.name) ≡ []
        → (packed_name rs ≡ [] → All (λ x. x.method ≡ 0) rs)
        → (r.method ≡ 0) × All (λ x. x.method ≡ 0) rs
    by_method true m p later = ((==_iff r.method 0).0 m, later p)
    by_method false m p later = absurd (name_given r.name p)

stored_only : (rs : List DirRecord) → All (λ r. r.method ≡ 0) rs → packed_name rs ≡ []
stored_only [] h = refl
stored_only (r ∷ rs) (m, h) = rw ((==_iff r.method 0).1 m) (stored_only rs h)

-- In an archive that holds the records `rs`, laid out as the format says, where its central directory
-- is located, `FirstCompressedEntry` gives the name of the first record whose method is not "stored"
-- ("(entry)" if that name is empty), and the empty string exactly when every record is stored.
pub first_compressed_entry-packed_name :
    (src : ByteSource) (bytes : List ℕ) (cd : ℕ) (rs : List DirRecord)
    → Serves src bytes
    → locate_dir src ≡ some (length rs, cd)
    → DirLaid bytes cd rs
    → (first_compressed_entry src ≡ packed_name rs)
      × ((first_compressed_entry src ≡ []) ↔ All (λ r. r.method ≡ 0) rs)
first_compressed_entry-packed_name src bytes cd rs serves found d =
    let given =
      first_compressed_entry-first_packed src (length rs) cd found
      ∙ walked-packed_name src bytes serves rs cd d.behind d.records_fit d.laid d.in_archive in
    (given, ((λ h. none_packed rs (sym given ∙ h)), λ h. given ∙ stored_only rs h))
