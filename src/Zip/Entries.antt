-- ===== src/Zip/Entries.antt =====
-- Reads of stored entries: the bytes of the archive where the entry's data lies.
use mathlib.Core.Path.{subst}
use vidya_god_fs.Prelude.{
  ℕ, ◌+◌, ◌-◌, ◌≤◌, ◌<◌, ◌≡◌, refl, sym, ap, ◌∙◌, arith, true, List, [], Result, ok, ℤ, pos, ◌>>=◌,
  ◌%◌, ◌^◌, length, take, drop, take_all, take_if, lt→ltb, ltb, leb, lt→leb, if◌then◌else◌,
  Bool-cases, inl, inr, ltb→lt, slice_in_slice, length-slice,
}
use vidya_god_fs.Bytes.{add64, add64-eq}
use vidya_god_fs.Source.Exact.{Serves, ReadsSome, Chunk, read-Chunk}
use vidya_god_fs.Zip.{ZipEntry, ZipIndex, int_count, open_zip_entry, read_zip_entry}

-- A stored entry whose data lies within the archive's bytes.
pub record StoredIn (bytes : List ℕ) (e : ZipEntry) : Type 0 where
  pub is_stored : e.stored ≡ true
  pub in_archive : e.data_offset + e.size ≤ length bytes

-- `OpenZipEntry`, then `ReadZipEntry`.
abbrev pub open_and_read : ZipIndex → ZipEntry → ℕ → ℤ → Result (List ℕ)
open_and_read z e size off = open_zip_entry z e >>= λ r. read_zip_entry r size off

-- The bytes of the entry.
abbrev pub entry_bytes : List ℕ → ZipEntry → List ℕ
entry_bytes bytes e = take e.size (drop e.data_offset bytes)

-- A count below 2^31 is kept.
int_count-small :
    (r : Result (List ℕ)) (bytes : List ℕ) (n off : ℕ)
    → n < 2 ^ 31
    → ReadsSome bytes n off r
    → int_count r ≡ r
unfolding int_count
int_count-small r bytes n off small s = rw s.read_eq (
    take_if _ _ (lt→ltb (length chunk % 2 ^ 32) (2 ^ 31) low)
    ∙ ap ok (take_all (length chunk % 2 ^ 32) chunk (omega (arith, len, s.got_le))))
  where
    chunk : List ℕ
    chunk = take s.got (drop off bytes)

    len : length chunk ≡ s.got
    len = length-slice s.got off bytes s.in_range

    low : length chunk % 2 ^ 32 < 2 ^ 31
    low = omega (arith, len, s.got_le)

module _ (z : ZipIndex) (e : ZipEntry) (bytes : List ℕ) (serves : Serves z.src bytes)
    (at : StoredIn bytes e) where
  abbrev wanted : ℕ → ℕ → ℕ
  wanted size off = if ltb size (e.size - off) then size else e.size - off

  read_inside :
      (size off : ℕ)
      → off < e.size
      → open_and_read z e size (pos off)
        ≡ int_count (z.src.pread (wanted size off) (add64 e.data_offset off))
  unfolding open_zip_entry read_zip_entry
  read_inside size off h = rw (at.is_stored, lt→leb e.size off h) refl

  read_past : (size off : ℕ) → e.size ≤ off → open_and_read z e size (pos off) ≡ ok []
  unfolding open_zip_entry read_zip_entry
  read_past size off h = rw (at.is_stored, past) refl
    where
      past : leb e.size off ≡ true
      past = ground arith

  entry_length : length (entry_bytes bytes e) ≡ e.size
  entry_length = length-slice e.size e.data_offset bytes at.in_archive

  place : (off : ℕ) → off < e.size → add64 e.data_offset off ≡ e.data_offset + off
  place off h = add64-eq e.data_offset off (omega (arith, at.in_archive, serves.fits))

  -- A read of a stored entry at any offset gives bytes of the entry from there on, never more than asked
  -- for and never past the entry's end, and at least one while any are left, provided that fewer than
  -- 2 GiB are asked for: the count is returned as an `int`.
  pub open_and_read-Chunk :
      (size off : ℕ)
      → off ≤ e.size
      → size < 2 ^ 31
      → Chunk (entry_bytes bytes e) size off (open_and_read z e size (pos off))
  open_and_read-Chunk size off h small = read-Chunk (elim (Bool-cases (ltb off e.size)) [
    | inl inside ↦
        subst (ReadsSome (entry_bytes bytes e) size off)
          (sym (read_inside size off (ltb→lt _ _ inside)))
          (from_archive size off (ltb→lt _ _ inside) small (
            serves.reads (wanted size off) (add64 e.data_offset off)
              (omega (arith, at.in_archive, place off (ltb→lt _ _ inside), ltb→lt _ _ inside))))
    | inr past ↦
        subst (ReadsSome (entry_bytes bytes e) size off) (sym (read_past size off (ground arith)))
          (record {
            got = 0;
            got_le = omega arith;
            in_range = omega (arith, entry_length, h);
            progress = λ p q. absurd (ground (arith, entry_length));
            read_eq = refl;
          })
  ])
    where
      from_archive :
          (size off : ℕ)
          → off < e.size
          → size < 2 ^ 31
          → ReadsSome bytes
              (wanted size off)
              (add64 e.data_offset off)
              (z.src.pread (wanted size off) (add64 e.data_offset off))
          → ReadsSome
              (entry_bytes bytes e)
              size
              off
              (int_count (z.src.pread (wanted size off) (add64 e.data_offset off)))
      from_archive size off h small r = record {
        got = r.got;
        got_le = ground (arith, r.got_le);
        in_range = ground (arith, entry_length, r.got_le, h);
        progress =
            λ p q. r.progress (ground (arith, h)) (omega (arith, place off h, at.in_archive, h));
        read_eq =
            int_count-small _ bytes (wanted size off) (add64 e.data_offset off) (ground arith) r
            ∙ r.read_eq
            ∙ ap ok (
                ap (λ (t : ℕ). take r.got (drop t bytes)) (place off h)
                ∙ sym (
                    slice_in_slice r.got off e.size e.data_offset bytes
                      (ground (arith, r.got_le, h))));
      }
