-- ===== src/Vfs/Reads.antt =====
-- From a path to the bytes: `VfsOpen` and `VfsRead` of src/vfsops.cpp on a file of an archive.
use vidya_god_fs.Prelude.{
  ℕ, ◌≤◌, ◌<◌, ◌^◌, ◌≡◌, refl, sym, ap, ◌∙◌, true, false, ◌&&◌, ◌||◌, List, [], Option, some, ok,
  pos, skip_if, take_if, lt→ltb, ◌>>=◌,
}
use mathlib.Core.Path.{subst}
use vidya_god_fs.Prelude.Text.{Str}
use vidya_god_fs.Source.Exact.{Serves, Chunk}
use vidya_god_fs.Zip.{ZipEntry, ZipIndex, ZipReader, open_zip_entry, read_zip_entry}
use vidya_god_fs.Zip.Entries.{StoredIn, entry_bytes, open_and_read-Chunk}
use vidya_god_fs.Overlay.Types.{Layer, VfsState, OpenFlags, zip_hit, ResolveResult, HostIo}
use vidya_god_fs.Overlay.Resolve.{resolve}
use vidya_god_fs.Overlay.Action.{Action, answer, pure, bind_ok}
use vidya_god_fs.Overlay.CopyUp.{open_hit}
use vidya_god_fs.Vfs.Types.{OpenFile}
use vidya_god_fs.Vfs.Files.{
  wants_write, to_off, zip_handle, open_hit_as, open_found, open_vfs, read_vfs,
}

-- The reader that `OpenZipEntry` fills in.
abbrev reader_of : ZipIndex → ZipEntry → ZipReader
reader_of z e = record {
  stored = true;
  src = some z.src;
  data_offset = e.data_offset;
  size = e.size;
}

opened : (z : ZipIndex) (e : ZipEntry) → e.stored ≡ true → open_zip_entry z e ≡ ok (reader_of z e)
unfolding open_zip_entry
opened z e stored = rw stored refl

small_off : (off : ℕ) → off < 2 ^ 63 → to_off off ≡ pos off
small_off off small = take_if _ _ (lt→ltb off (2 ^ 63) small)

-- What `Resolve` gives for an entry of an archive.
abbrev pub entry_hit : Layer → ZipEntry → ResolveResult
entry_hit l e = record {
  kind = zip_hit;
  host_path = [];
  layer = some l;
  zip_entry = some e;
  rw_passthrough = false;
}

module _ {F : Type 0} (h : HostIo F) (rounds : ℕ) where
  open_entry :
      (v : Str) (flags : OpenFlags) (f : F) (s : VfsState) (l : Layer) (z : ZipIndex) (e : ZipEntry)
      → wants_write flags ≡ false
      → l.zip ≡ some z
      → e.is_dir ≡ false
      → e.stored ≡ true
      → open_found h rounds v flags (entry_hit l e) f s ≡ (ok (zip_handle (reader_of z e)), f, s)
  unfolding open_found open_hit_as answer pure
  open_entry v flags f s l z e reads zip file stored =
      skip_if _ _ (ap (λ b. b || false) file)
      ∙ (skip_if _ _ (ap (λ b. b && s.read_only) reads)
          ∙ (ap (λ (m : Action F (Option OpenFile)). m f s) (skip_if _ _ reads)
              ∙ bind_ok (answer (λ f s. open_hit (entry_hit l e) e)) (λ r. pure (zip_handle r))
                  (ap (λ r. (r, f, s)) (rw zip (opened z e stored)))))

  -- Where a path resolves to a stored file of an archive whose bytes are served, `VfsOpen` for reading
  -- returns a handle and changes nothing, and `VfsRead` of that handle, at an offset up to the file's size
  -- and below 2^63, gives bytes of the entry from there on: at most as many as asked for, none behind the
  -- entry's end, and at least one while any are left, where fewer than 2 GiB are asked for.
  pub open_vfs-read :
      (v : Str) (flags : OpenFlags) (f : F) (s : VfsState) (l : Layer) (z : ZipIndex) (e : ZipEntry)
      (bytes : List ℕ) (size off : ℕ)
      → resolve h f s v ≡ entry_hit l e
      → wants_write flags ≡ false
      → l.zip ≡ some z
      → e.is_dir ≡ false
      → Serves z.src bytes
      → StoredIn bytes e
      → off ≤ e.size
      → off < 2 ^ 63
      → size < 2 ^ 31
      → (handle : Option OpenFile) × (open_vfs h rounds v flags f s ≡ (ok handle, f, s))
        × Chunk (entry_bytes bytes e) size off (read_vfs h rounds handle size off f)
  unfolding open_vfs read_vfs
  open_vfs-read v flags f s l z e bytes size off found reads zip file serves at le small few = (
    zip_handle (reader_of z e),
    ap (λ r. open_found h rounds v flags r f s) found
        ∙ open_entry v flags f s l z e reads zip file at.is_stored,
    subst (Chunk (entry_bytes bytes e) size off)
        (ap (λ r. r >>= λ d. read_zip_entry d size (pos off)) (opened z e at.is_stored)
          ∙ ap (read_zip_entry (reader_of z e) size) (sym (small_off off small)))
        (open_and_read-Chunk z e bytes serves at size off le few),
  )
