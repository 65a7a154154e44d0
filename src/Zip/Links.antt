-- ===== src/Zip/Links.antt =====
-- Links inside an archive: where a chase can end.
use vidya_god_fs.Prelude.{
  ℕ, zero, suc, ◌≡◌, refl, sym, ap, ◌∙◌, Bool, true, false, not, ◌||◌, ◌⊎◌, inl, inr, List, Option,
  none, some, Result, ok, err, stuck, length, ◌==◌, if◌then◌else◌,
}
use vidya_god_fs.Prelude.Text.{Str}
use vidya_god_fs.Paths.{parent_vrel}
use vidya_god_fs.Zip.{
  ZipEntry, ZipIndex, lookup, join_normalized, is_absolute, link_target, chase, resolve_zip_symlink,
}

-- An entry that the archive's index holds.
abbrev pub InIndex : ZipIndex → ZipEntry → Type 0
InIndex z t = (name : Str) × (lookup name z.by_name ≡ some t)

-- An optional entry is one of the index, when there is one.
data Indexed (z : ZipIndex) : Option ZipEntry → Type 0 where
  absent : Indexed z none
  held : (t : ZipEntry) → InIndex z t → Indexed z (some t)

looked_up :
    (z : ZipIndex) (name : Str) (o : Option ZipEntry) → lookup name z.by_name ≡ o → Indexed z o
looked_up z name none e = absent
looked_up z name (some t) e = held t (name, e)

after_join :
    (z : ZipIndex) (o : Option Str)
    → Indexed z (elim o [ none ↦ none | some r ↦ lookup r z.by_name ])
after_join z none = absent
after_join z (some r) = looked_up z r (lookup r z.by_name) refl

unless :
    (z : ZipIndex) (b : Bool) (o : Option ZipEntry)
    → Indexed z o
    → Indexed z (if b then none else o)
unless z true o i = absent
unless z false o i = i

after_read :
    (z : ZipIndex) (cur : ZipEntry) (r : Result (List ℕ))
    → Indexed z (elim r [
      | err e ↦ none
      | stuck ↦ none
      | ok tgt ↦
          if not (length tgt == cur.size) || is_absolute tgt
          then none
          else (elim (join_normalized (parent_vrel cur.name) tgt) [
            | none ↦ none
            | some resolved ↦ lookup resolved z.by_name
          ])
    ])
after_read z cur (err e) = absent
after_read z cur stuck = absent
after_read z cur (ok tgt) = unless z _ _ (after_join z (join_normalized (parent_vrel cur.name) tgt))

link_target-Indexed : (z : ZipIndex) (cur : ZipEntry) → Indexed z (link_target z cur)
unfolding link_target
link_target-Indexed z cur = unless z _ _ (after_read z cur (z.src.pread cur.size cur.data_offset))

Indexed-some :
    (z : ZipIndex) (o : Option ZipEntry) (t : ZipEntry) → o ≡ some t → Indexed z o → InIndex z t
Indexed-some z o t e absent = absurd cc
Indexed-some z o t e (held t' (name, f)) = (name, f ∙ e)

-- The end of a chase from `e`: no link, no folder, and `e` itself or an entry of the index.
pub record File (z : ZipIndex) (e t : ZipEntry) : Type 0 where
  pub no_link : t.symlink ≡ false
  pub no_dir : t.is_dir ≡ false
  pub of_archive : (t ≡ e) ⊎ InIndex z t

ended :
    (z : ZipIndex) (e t : ZipEntry)
    → e.symlink ≡ false
    → e.is_dir ≡ false
    → some e ≡ some t
    → File z e t
ended z e t p q h = record {
  no_link = ap (λ x. x.symlink) (sym same) ∙ p;
  no_dir = ap (λ x. x.is_dir) (sym same) ∙ q;
  of_archive = inl (sym same);
}
  where
    value : Option ZipEntry → ZipEntry
    value none = e
    value (some x) = x

    same : e ≡ t
    same = ap value h

stop :
    (z : ZipIndex) (e t : ZipEntry) (l d : Bool)
    → e.symlink ≡ l
    → e.is_dir ≡ d
    → (if l || d then none else some e) ≡ some t
    → File z e t
stop z e t true d p q h = absurd cc
stop z e t false true p q h = absurd cc
stop z e t false false p q h = ended z e t p q h

hop :
    (z : ZipIndex) (e t : ZipEntry) (l d : Bool) (o : Option ZipEntry)
    (g : ZipEntry → Option ZipEntry)
    → e.symlink ≡ l
    → e.is_dir ≡ d
    → (if l then (elim o [ none ↦ none | some n ↦ g n ]) else if d then none else some e) ≡ some t
    → ((n : ZipEntry) × (o ≡ some n) × (g n ≡ some t)) ⊎ File z e t
hop z e t true d none g p q h = absurd cc
hop z e t true d (some n) g p q h = inl (n, refl, h)
hop z e t false true o g p q h = absurd cc
hop z e t false false o g p q h = inr (ended z e t p q h)

chase-File : (hops : ℕ) (z : ZipIndex) (e t : ZipEntry) → chase hops z e ≡ some t → File z e t
unfolding chase
chase-File zero z e t h = stop z e t e.symlink e.is_dir refl refl h
chase-File (suc hops) z e t h =
    elim (hop z e t e.symlink e.is_dir (link_target z e) (chase hops z) refl refl h) [
      | inr here ↦ here
      | inl (n, next, rest) ↦
          let f = chase-File hops z n t rest in
          record {
            no_link = f.no_link;
            no_dir = f.no_dir;
            of_archive = inr (elim f.of_archive [
              | inr held_there ↦ held_there
              | inl same ↦
                  let (name, found) =
                    Indexed-some z (link_target z e) n next (link_target-Indexed z e) in
                  (name, found ∙ ap some (sym same))
            ]);
          }
    ]

-- What `ResolveZipSymlink` gives is a file and no link, and it is the entry it started from or an entry
-- of the same archive.
pub resolve_zip_symlink-File :
    (z : ZipIndex) (e t : ZipEntry) → resolve_zip_symlink z e ≡ some t → File z e t
unfolding resolve_zip_symlink
resolve_zip_symlink-File z e t h = chase-File 8 z e t h
