-- ===== src/Runs/Files.antt =====
-- The file operations on small hosts.
use vidya_god_fs.Prelude.{
  ℕ, ◌≤◌, ◌≡◌, refl, arith, true, false, ◌⊎◌, List, [], ◌∷◌, ◌++◌, append-nil, sym, none, some,
  Result, ok, pos,
}
use vidya_god_fs.Prelude.Text.{Str, slash}
use vidya_god_fs.Paths.{has}
use vidya_god_fs.Overlay.Types.{
  VfsState, HostIo, read_flags, create_flags, create_file, write_layer,
}
use vidya_god_fs.Overlay.Kept.{passthrough_host, kept_layer_for, last_layer}
use vidya_god_fs.Overlay.Layers.{layer_covers, layer_masked, wl_path, wh_prefix, opaque_name}
use vidya_god_fs.Overlay.Config.{Config}
use vidya_god_fs.Vfs.Requests.{
  Request, opens, makes_dir, unlinks, renames, asks_change, run, run_all, refusal,
}
use vidya_god_fs.Vfs.Requests.ReadOnly.{run-refusal, run_all_still}
use vidya_god_fs.Vfs.Keeps.{run_all-Config}
use vidya_god_fs.Overlay.Masks.{is_whiteouted, mark_opaque}
use vidya_god_fs.Overlay.Resolve.{resolve, no_result}
use vidya_god_fs.Overlay.CopyUp.{chunk_size, full_write, copy_entry}
use vidya_god_fs.Overlay.CopyUp.Content.{
  WriteAnswer, wrote, Copied, full_write-Copied, copy_entry-Copied,
}
use vidya_god_fs.Source.{mem_source}
use vidya_god_fs.Source.Exact.{mem_source-Serves, Chunk}
use vidya_god_fs.Zip.{ZipReader, open_zip_entry, read_zip_entry}
use vidya_god_fs.Zip.Entries.{open_and_read-Chunk}
use vidya_god_fs.Vfs.Children.{
  collect_children, own_listing, list_writelayer, list_layers, list_layer, list_content, list_dir,
  list_structure, segment_after, list_implicit, drop_names, drop_kept, opaque_prio,
}
use vidya_god_fs.Vfs.Files.{fd_handle, create_vfs}
use vidya_god_fs.Vfs.Folders.{fails_hard, mkdir_vfs, unlink_vfs, rmdir_vfs}
use vidya_god_fs.Vfs.Deletes.{Gone, unlink_vfs-Gone, rmdir_vfs-Gone}
use vidya_god_fs.Vfs.Makes.{shown_state, marked_host, create_vfs-Serves, mkdir_vfs-Empty}
use vidya_god_fs.Vfs.NoWritelayer.{unlink_vfs-Ignored, create_vfs-Escapes}
use vidya_god_fs.Vfs.Listing.{collect_children-Hidden, collect_children-Opaque}
use vidya_god_fs.Runs.Host.{quiet_host}
use vidya_god_fs.Runs.Overlays.{
  archive, archive_bytes, file_entry, a, ab, host, state, some_stat, if_there,
}

abbrev sealed_state : VfsState
sealed_state = record state { read_only = true }

run-refusal_example :
    run host 4 4 (renames ab a) tt sealed_state
    ≡ (refusal host 4 4 (renames ab a) tt sealed_state, tt, sealed_state)
run-refusal_example =
    run-refusal host 4 4 (renames ab a) tt sealed_state refl (unfold asks_change in refl)

abbrev requests : List Request
requests = unlinks ab ∷ makes_dir a 493 ∷ opens ab read_flags ∷ []

run_all_still_example : (run_all host 4 4 requests tt sealed_state).1 ≡ sealed_state
run_all_still_example = run_all_still host 4 4 requests tt sealed_state refl

run_all-Config_example : Config state (run_all host 4 4 requests tt state).1
run_all-Config_example = run_all-Config host 4 4 requests tt state

-- No layer is a kept folder.
not_kept : (v : Str) → passthrough_host state v ≡ none
unfolding passthrough_host kept_layer_for last_layer
not_kept v = refl

unlink_vfs-Gone_example :
    ((fails_hard (host.unlink tt (wl_path state ab)).0 ≡ true)
      × (unlink_vfs host 4 ab tt state ≡ ((host.unlink tt (wl_path state ab)).0, tt, state)))
    ⊎ ((fails_hard (host.unlink tt (wl_path state ab)).0 ≡ false)
        × ((unlink_vfs host 4 ab tt state).0 ≡ ok 0)
        × Gone host 4 ab (unlink_vfs host 4 ab tt state))
unlink_vfs-Gone_example = unlink_vfs-Gone host 4 ab tt state refl refl (not_kept ab) (omega arith)

nothing_in : collect_children host tt state ab ≡ []
unfolding collect_children own_listing list_writelayer list_layers list_layer layer_covers
    layer_masked list_content list_dir list_structure segment_after list_implicit drop_names
    drop_kept opaque_prio
nothing_in = refl

rmdir_vfs-Gone_example :
    ((rmdir_vfs host 4 ab tt state).0 ≡ ok 0) × Gone host 4 ab (rmdir_vfs host 4 ab tt state)
rmdir_vfs-Gone_example =
    rmdir_vfs-Gone host 4 ab tt state refl refl (not_kept ab) (omega arith) nothing_in

-- A host whose state is the paths that it has.
abbrev path_host : HostIo (List Str)
path_host = record quiet_host {
  lstat = λ f p. if_there (has f p);
  open_file = λ f p flags mode. (ok 3, p ∷ f);
  mkdir = λ f p mode. (ok 0, p ∷ f);
}

create_vfs-Serves_example :
    (create_vfs path_host 4 a 420 create_flags [] state
      ≡ (ok (fd_handle 3), wl_path state a ∷ [], shown_state path_host 4 state a))
    × (resolve path_host (wl_path state a ∷ []) (shown_state path_host 4 state a) a
        ≡ record no_result { kind = write_layer; host_path = wl_path state a })
create_vfs-Serves_example =
    create_vfs-Serves path_host 4 a 420 create_flags [] state 3 (wl_path state a ∷ []) some_stat
      refl refl (not_kept a) refl refl (unfold has in refl)

deleted_a : is_whiteouted state a ≡ true
unfolding is_whiteouted has
deleted_a = refl

missing_below :
    path_host.lstat (marked_host path_host 4 (wl_path state a ∷ []) state a) (wl_path state ab)
    ≡ none
unfolding mark_opaque create_file has
missing_below = refl

mkdir_vfs-Empty_example :
    ((mkdir_vfs path_host 4 a 493 [] state).0 ≡ ok 0)
    × (resolve path_host
          (mkdir_vfs path_host 4 a 493 [] state).1
          (mkdir_vfs path_host 4 a 493 [] state).2
          ab
        ≡ no_result)
mkdir_vfs-Empty_example =
    mkdir_vfs-Empty path_host 4 a 493 [] state 0 (wl_path state a ∷ []) ab refl refl (not_kept a)
      (omega arith) deleted_a refl refl ((98 ∷ [], refl)) missing_below

-- A host on which every folder has a file `q`, a deleted `a`, and the opaque marker.
abbrev listing_host : HostIo (Unit {0})
listing_host = record quiet_host {
  read_dir = λ f p. (113 ∷ []) ∷ (wh_prefix ++ a) ∷ opaque_name ∷ [];
}

collect_children-Hidden_example : has (collect_children listing_host tt state []) a ≡ false
collect_children-Hidden_example =
    collect_children-Hidden listing_host tt state [] a refl (unfold has in refl) refl

collect_children-Opaque_example : has (collect_children listing_host tt state []) ab ≡ false
collect_children-Opaque_example =
    collect_children-Opaque listing_host tt state [] ab refl (unfold has in refl)
      (unfold has in refl)

-- A host whose state is the one file's bytes, and which writes at most two of them at a time.
abbrev two_at_most : List ℕ → List ℕ → Result ℕ × List ℕ
two_at_most f [] = (ok 0, f)
two_at_most f (b ∷ []) = (ok 1, f ++ (b ∷ []))
two_at_most f (b ∷ c ∷ buf) = (ok 2, f ++ (b ∷ c ∷ []))

abbrev short_host : HostIo (List ℕ)
short_host = record quiet_host { write = λ f fd buf. two_at_most f buf }

abbrev the_file : List ℕ → ℕ → List ℕ
the_file f fd = f

abbrev no_interrupts : List ℕ → ℕ
no_interrupts f = 0

short_writes :
    (f : List ℕ) (fd : ℕ) (buf : List ℕ)
    → WriteAnswer short_host 4 the_file no_interrupts f fd buf (two_at_most f buf)
short_writes f fd [] = wrote 0 f (omega arith) (sym (append-nil f)) (omega arith)
short_writes f fd (b ∷ []) = wrote 1 (f ++ (b ∷ [])) (omega arith) refl (omega arith)
short_writes f fd (b ∷ c ∷ buf) = wrote 2 (f ++ (b ∷ c ∷ [])) (omega arith) refl (omega arith)

full_write-Copied_example :
    Copied short_host 4 the_file no_interrupts 3
      (9 ∷ 1 ∷ 2 ∷ 3 ∷ [])
      0
      (full_write short_host 4 3 3 (1 ∷ 2 ∷ 3 ∷ []) (9 ∷ []))
full_write-Copied_example =
    full_write-Copied short_host 4 the_file no_interrupts short_writes 3 3 (1 ∷ 2 ∷ 3 ∷ []) (9 ∷ [])
      (9 ∷ 1 ∷ 2 ∷ 3 ∷ []) 0 refl (omega arith) (omega arith)

abbrev entry_reader : ZipReader
entry_reader = record {
  stored = true;
  src = some (mem_source archive_bytes);
  data_offset = 2;
  size = 3;
}

entry_reads :
    (off : ℕ)
    → off ≤ 3
    → Chunk (1 ∷ 2 ∷ 3 ∷ []) chunk_size off (read_zip_entry entry_reader chunk_size (pos off))
unfolding open_zip_entry
entry_reads off le =
    open_and_read-Chunk archive file_entry archive_bytes
      (mem_source-Serves archive_bytes (omega arith))
      (record { is_stored = refl; in_archive = omega arith }) chunk_size off le (omega arith)

copy_entry-Copied_example :
    Copied short_host 4 the_file no_interrupts 3
      (1 ∷ 2 ∷ 3 ∷ [])
      4
      (copy_entry short_host 4 4 entry_reader 3 0 [])
copy_entry-Copied_example =
    copy_entry-Copied short_host 4 the_file no_interrupts short_writes entry_reader (1 ∷ 2 ∷ 3 ∷ [])
      3 [] entry_reads [] refl (omega arith)

abbrev bare_state : VfsState
bare_state = record state { writelayer = [] }

never_kept : (v : Str) → passthrough_host bare_state v ≡ none
unfolding passthrough_host kept_layer_for last_layer
never_kept v = refl

unlink_vfs-Ignored_example : unlink_vfs host 4 ab tt bare_state ≡ (ok 0, tt, bare_state)
unlink_vfs-Ignored_example = unlink_vfs-Ignored host 4 ab tt bare_state refl refl (never_kept ab)

create_vfs-Escapes_example :
    create_vfs path_host 4 ab 420 create_flags [] bare_state
    ≡ (ok (fd_handle 3), (slash ∷ ab) ∷ [], bare_state)
create_vfs-Escapes_example =
    create_vfs-Escapes path_host 4 ab 420 create_flags [] bare_state 3 ((slash ∷ ab) ∷ []) refl refl
      (never_kept ab) (omega arith) refl refl
