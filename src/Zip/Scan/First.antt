-- ===== src/Zip/Scan/First.antt =====
-- What the walk over the central directory gives to its callback, and what `FirstCompressedEntry` finds.
use vidya_god_fs.Prelude.{
  ℕ, zero, suc, ◌≡◌, refl, ap, ◌∙◌, Bool, true, false, not, List, [], ◌∷◌, Option, none, some, ◌==◌,
  is_empty, if◌then◌else◌,
}
use vidya_god_fs.Prelude.Text.{Str}
use vidya_god_fs.Source.{ByteSource}
use vidya_god_fs.Zip.Scan.{
  DirEntry, read_entry, locate_dir, walk_entries, walk_central_dir, unnamed, stop_compressed,
  first_compressed_entry,
}

-- The directory's records, up to the first that cannot be read.
abbrev pub dir_entries : ByteSource → ℕ → ℕ → List DirEntry
dir_entries src zero at = []
dir_entries src (suc left) at = elim (read_entry src at) [
  | none ↦ []
  | some e ↦ e ∷ dir_entries src left e.next
]

-- What `FirstCompressedEntry` should give for a list of entries.
abbrev pub first_packed : List DirEntry → Str
first_packed [] = []
first_packed (e ∷ es) =
    if e.method == 0 then first_packed es else if is_empty e.name then unnamed else e.name

on_record :
    (o : Option DirEntry) (f : DirEntry → Str × Bool) (g : DirEntry → List DirEntry)
    → ((e : DirEntry) → (f e).0 ≡ first_packed (e ∷ g e))
    → (elim o as (λ x. Str × Bool) [ none ↦ ([], false) | some e ↦ f e ]).0
      ≡ first_packed (elim o [ none ↦ [] | some e ↦ e ∷ g e ])
on_record none f g h = refl
on_record (some e) f g h = h e

abbrev noted : Bool → Str → Str × Bool
noted b name = if b then ([], true) else (name, false)

abbrev go_or_stop : Str × Bool → Str × Bool → Str × Bool
go_or_stop r rest = if not r.1 then (r.0, true) else rest

stepped :
    (b : Bool) (name : Str) (rest : Str × Bool) (packed : Str)
    → rest.0 ≡ packed
    → (go_or_stop (noted b name) rest).0 ≡ (if b then packed else name)
stepped true name rest packed e = e
stepped false name rest packed e = refl

state_kept :
    (b : Bool) (name : Str) (src : ByteSource) (left at : ℕ)
    → go_or_stop (noted b name) (walk_entries src stop_compressed left at (noted b name).0)
      ≡ go_or_stop (noted b name) (walk_entries src stop_compressed left at [])
state_kept true name src left at = refl
state_kept false name src left at = refl

walk-first_packed :
    (src : ByteSource) (left at : ℕ)
    → (walk_entries src stop_compressed left at []).0 ≡ first_packed (dir_entries src left at)
unfolding walk_entries stop_compressed
walk-first_packed src zero at = refl
walk-first_packed src (suc left) at =
    on_record (read_entry src at) _ (λ e. dir_entries src left e.next)
      (λ e.
        ap (λ r. r.0)
          (state_kept (e.method == 0) (if is_empty e.name then unnamed else e.name) src left e.next)
        ∙ stepped (e.method == 0) (if is_empty e.name then unnamed else e.name)
            (walk_entries src stop_compressed left e.next [])
            (first_packed (dir_entries src left e.next)) (walk-first_packed src left e.next))

-- What the walk leaves is what the list of the records gives.
pub first_compressed_entry-first_packed :
    (src : ByteSource) (total cd : ℕ)
    → locate_dir src ≡ some (total, cd)
    → first_compressed_entry src ≡ first_packed (dir_entries src total cd)
unfolding first_compressed_entry walk_central_dir
first_compressed_entry-first_packed src total cd found =
    rw (first_compressed_entry, walk_central_dir, found) (walk-first_packed src total cd)
