-- ===== src/Overlay/CopyUp.antt =====
-- `EnsureWriteParent` and `CopyUp` of src/overlay.cpp, and `FullWrite` of src/hostio.h. The lock on the path
-- is not modelled: one operation runs at a time. `rounds` bounds the reads of a host file and the
-- interrupted writes, which the code does not; a loop that needs more is `stuck`.
pub mod Content
use vidya_god_fs.Prelude.{
  ℕ, zero, suc, ◌+◌, ◌%◌, ◌&&◌, ◌||◌, Bool, true, false, not, List, [], ◌∷◌, Option, none, some,
  Result, ok, err, stuck, pos, eio, erofs, enametoolong, length, drop, take, is_empty, ltb, ◌==◌,
  if◌then◌else◌, bit_or,
}
use vidya_god_fs.Prelude.Text.{Str}
use vidya_god_fs.Paths.{parent_vrel}
use vidya_god_fs.Zip.{ZipEntry, ZipIndex, ZipReader, open_zip_entry, read_zip_entry}
use vidya_god_fs.Overlay.Types.{
  Layer, VfsState, HitKind, no_hit, implicit_dir, write_layer, dir_layer, file_layer, zip_hit,
  ResolveResult, Stat, OpenFlags, read_flags, create_flags, HostIo,
}
use vidya_god_fs.Overlay.Layers.{wl_path}
use vidya_god_fs.Overlay.Kept.{passthrough_host}
use vidya_god_fs.Overlay.Action.{
  Action, pure, fail, query, answer, host_call, host_do, attempt, give, ◌>>=◌, ◌>>◌,
}

abbrev pub eintr : ℕ
eintr = 4

abbrev pub is_write_layer : HitKind → Bool
is_write_layer k = elim k [
  | write_layer ↦ true
  | no_hit ↦ false
  | implicit_dir ↦ false
  | dir_layer ↦ false
  | file_layer ↦ false
  | zip_hit ↦ false
]

abbrev pub is_dir_hit : HitKind → Bool
is_dir_hit k = elim k [
  | dir_layer ↦ true
  | no_hit ↦ false
  | implicit_dir ↦ false
  | write_layer ↦ false
  | file_layer ↦ false
  | zip_hit ↦ false
]

abbrev pub is_file_hit : HitKind → Bool
is_file_hit k = elim k [
  | file_layer ↦ true
  | no_hit ↦ false
  | implicit_dir ↦ false
  | write_layer ↦ false
  | dir_layer ↦ false
  | zip_hit ↦ false
]

abbrev pub is_zip_hit : HitKind → Bool
is_zip_hit k = elim k [
  | zip_hit ↦ true
  | no_hit ↦ false
  | implicit_dir ↦ false
  | write_layer ↦ false
  | dir_layer ↦ false
  | file_layer ↦ false
]

-- A structural folder, or a folder of an archive.
abbrev pub shows_dir : ResolveResult → Bool
shows_dir r = elim r.kind [
  | implicit_dir ↦ true
  | zip_hit ↦ elim r.zip_entry [ none ↦ true | some e ↦ e.is_dir ]
  | no_hit ↦ false
  | write_layer ↦ false
  | dir_layer ↦ false
  | file_layer ↦ false
]

-- The entry of a hit in an archive, when it is one.
abbrev pub hit_entry : ResolveResult → Option ZipEntry
hit_entry r = if is_zip_hit r.kind then r.zip_entry else none

-- `rr.layer->zip`: a hit in an archive has its layer, and the layer its index.
abbrev pub hit_zip : ResolveResult → Option ZipIndex
hit_zip r = elim r.layer [ none ↦ none | some l ↦ l.zip ]

abbrev pub open_hit : ResolveResult → ZipEntry → Result ZipReader
open_hit r e = elim (hit_zip r) [ none ↦ err eio | some z ↦ open_zip_entry z e ]

abbrev pub says_dir : Option Stat → Bool
says_dir o = elim o [ none ↦ false | some st ↦ st.is_dir ]

abbrev pub says_link : Option Stat → Bool
says_link o = elim o [ none ↦ false | some st ↦ st.is_symlink ]

abbrev pub exists : Option Stat → Bool
exists o = elim o [ none ↦ false | some st ↦ true ]

-- The copy loops' buffer.
abbrev pub chunk_size : ℕ
chunk_size = 262144

-- Where a path is writable: in the kept folder that covers it, or else in the writelayer.
abbrev pub writable_path : VfsState → Str → Str
writable_path s vrel = elim (passthrough_host s vrel) [ none ↦ wl_path s vrel | some p ↦ p ]

module _ {F : Type 0} (h : HostIo F) (rounds : ℕ) where
  unfoldable pub ensure_write_parent : Str → Action F ℕ
  ensure_write_parent vrel f s =
      let (ec, f1) = h.create_directories f (wl_path s (parent_vrel vrel)) in
      (if ec == 0 then ok 0 else err eio, f1, s)

  -- `while (n > 0)`: a round writes a byte at least, or was interrupted.
  unfoldable pub full_write : ℕ → ℕ → List ℕ → F → Result ℕ × F
  full_write zero fd buf f = if is_empty buf then (ok 0, f) else (stuck, f)
  full_write (suc fuel) fd buf f =
      let (w, f1) = h.write f fd buf in
      if is_empty buf then (ok 0, f) else (elim w [
        | ok zero ↦ (err eio, f1)
        | ok (suc n) ↦ full_write fuel fd (drop (suc n) buf) f1
        | err e ↦ if e == eintr then full_write fuel fd buf f1 else (err e, f1)
        | stuck ↦ (stuck, f1)
      ])

  -- The loop over an entry of an archive, from `off` on.
  unfoldable pub copy_entry : ℕ → ZipReader → ℕ → ℕ → F → Result ℕ × F
  copy_entry zero r fd off f = (stuck, f)
  copy_entry (suc fuel) r fd off f = elim (read_zip_entry r chunk_size (pos off)) [
    | err e ↦ (err e, f)
    | stuck ↦ (stuck, f)
    | ok [] ↦ (ok 0, f)
    | ok (b ∷ got) ↦
        let (rc, f1) = full_write (rounds + length (b ∷ got)) fd (b ∷ got) f in
        elim rc [
          | ok n ↦ copy_entry fuel r fd (off + length (b ∷ got)) f1
          | err e ↦ (err e, f1)
          | stuck ↦ (stuck, f1)
        ]
  ]

  -- The loop over a host file.
  unfoldable pub copy_host : ℕ → ℕ → ℕ → F → Result ℕ × F
  copy_host zero src fd f = (stuck, f)
  copy_host (suc fuel) src fd f =
      let (got, f1) = h.read f src chunk_size in
      elim got [
        | err e ↦ (err e, f1)
        | stuck ↦ (stuck, f1)
        | ok [] ↦ (ok 0, f1)
        | ok (b ∷ bytes) ↦
            let (rc, f2) = full_write (rounds + length (b ∷ bytes)) fd (b ∷ bytes) f1 in
            elim rc [ ok n ↦ copy_host fuel src fd f2 | err e ↦ (err e, f2) | stuck ↦ (stuck, f2) ]
      ]

  -- The content of an entry, and the mode it was served with plus the owner's write bit.
  unfoldable pub fill_from_entry : ResolveResult → ZipEntry → ℕ → F → Result ℕ × F
  fill_from_entry rr e fd f = elim (open_hit rr e) [
    | err c ↦ (err c, f)
    | stuck ↦ (stuck, f)
    | ok r ↦
        let (rc, f1) = copy_entry (suc r.size) r fd 0 f in
        elim rc [
          | ok n ↦ let (ch, f2) = h.fchmod f1 fd 493 in (ok 0, f2)
          | err c ↦ (err c, f1)
          | stuck ↦ (stuck, f1)
        ]
  ]

  -- The content of a host file; its mode is set also after a failure.
  unfoldable pub fill_from_host : Str → ℕ → F → Result ℕ × F
  fill_from_host path fd f =
      let (src, f1) = h.open_file f path read_flags 0 in
      elim src [
        | err c ↦ (err c, f1)
        | stuck ↦ (stuck, f1)
        | ok in_fd ↦
            let (rc, f2) = copy_host rounds in_fd fd f1 in
            let f3 = h.close f2 in_fd in
            elim (h.lstat f3 path) [
              | none ↦ (rc, f3)
              | some st ↦ let (ch, f4) = h.fchmod f3 fd (bit_or (st.mode % 512) 128) in (rc, f4)
            ]
      ]

  -- The end of `CopyUp`: a partial copy is removed.
  unfoldable pub copy_content : ResolveResult → Str → F → Result ℕ × F
  copy_content rr dst f =
      let (out, f1) = h.open_file f dst (record create_flags { trunc = true }) 420 in
      elim out [
        | err c ↦ (err c, f1)
        | stuck ↦ (stuck, f1)
        | ok fd ↦
            let (rc, f2) = elim (hit_entry rr) as (λ o. Result ℕ × F) [
              | some e ↦ fill_from_entry rr e fd f1
              | none ↦ fill_from_host rr.host_path fd f1
            ] in
            let f3 = h.close f2 fd in
            elim rc [
              | ok n ↦ (ok 0, f3)
              | err c ↦ let (un, f4) = h.unlink f3 dst in (err c, f4)
              | stuck ↦ (stuck, f3)
            ]
      ]

  -- A link of an archive is made again as a link.
  unfoldable pub copy_link : ResolveResult → ZipEntry → Str → F → Result ℕ × F
  copy_link rr e dst f = if ltb 4096 e.size then (err enametoolong, f) else (elim (open_hit rr e) [
    | err c ↦ (err c, f)
    | stuck ↦ (stuck, f)
    | ok r ↦ elim (read_zip_entry r e.size (pos 0)) [
      | err c ↦ (err c, f)
      | stuck ↦ (stuck, f)
      | ok target ↦ h.symlink f target dst
    ]
  ])

  abbrev is_host_link : F → VfsState → ResolveResult → Bool
  is_host_link f s rr =
      not s.flatten_symlinks
      && ((is_dir_hit rr.kind || is_file_hit rr.kind) && says_link (h.lstat f rr.host_path))

  -- Whether the hit is a folder, by the view that served it.
  unfoldable pub copies_dir : F → VfsState → ResolveResult → Bool
  copies_dir f s rr =
      shows_dir rr
      || (is_dir_hit rr.kind
          && says_dir (
              if s.flatten_symlinks && not rr.rw_passthrough
              then h.stat_follow f rr.host_path
              else h.lstat f rr.host_path))

  -- What is made at `dst`, whose parent is there.
  unfoldable pub copy_to : ResolveResult → Str → VfsState → F → Result ℕ × F
  copy_to rr dst s f =
      if copies_dir f s rr
      then (let (ec, f1) = h.create_directories f dst in (if ec == 0 then ok 0 else err eio, f1))
      else (elim (hit_entry rr) [
        | some e ↦ if e.symlink then copy_link rr e dst f else copy_content rr dst f
        | none ↦
            if is_host_link f s rr
            then (elim (h.readlink f rr.host_path) [
              | ok target ↦ h.symlink f target dst
              | err c ↦ (err c, f)
              | stuck ↦ (stuck, f)
            ])
            else copy_content rr dst f
      ])

  unfoldable pub copy_parent : Option Str → Str → Str → Action F ℕ
  copy_parent kept dst vrel = elim kept as (λ x. Action F ℕ) [
    | none ↦ ensure_write_parent vrel
    | some p ↦ λ f s.
        let (ec, f1) = h.create_directories f (parent_vrel dst) in
        (if ec == 0 then ok 0 else err eio, f1, s)
  ]

  unfoldable pub copy_up : Str → ResolveResult → Action F ℕ
  copy_up vrel rr f s =
      if is_empty s.writelayer
      then (err erofs, f, s)
      else if is_write_layer rr.kind || rr.rw_passthrough
      then (ok 0, f, s)
      else if exists (h.lstat f (writable_path s vrel))
      then (ok 0, f, s)
      else (copy_parent (passthrough_host s vrel) (writable_path s vrel) vrel
            >> host_call (copy_to rr (writable_path s vrel) s))
          f s
