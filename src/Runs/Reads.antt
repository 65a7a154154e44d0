-- ===== src/Runs/Reads.antt =====
-- A file of an archive, opened and read.
use vidya_god_fs.Prelude.{◌≡◌, refl, arith, [], ◌∷◌, Option, some, ok}
use vidya_god_fs.Prelude.Text.{Str}
use vidya_god_fs.Paths.{has, has_above, parent_vrel, find_last_slash}
use vidya_god_fs.Source.Exact.{mem_source-Serves, Chunk}
use vidya_god_fs.Zip.{lookup}
use vidya_god_fs.Zip.Entries.{entry_bytes}
use vidya_god_fs.Overlay.Types.{zip_archive, Layer, VfsState, read_flags}
use vidya_god_fs.Overlay.Layers.{layer_covers, layer_masked, source_rel}
use vidya_god_fs.Overlay.Masks.{is_whiteouted, is_under_whiteout, is_under_opaque}
use vidya_god_fs.Overlay.Resolve.{resolve, resolve_lower, layers_answer, layer_answer, resolve_zip}
use vidya_god_fs.Vfs.Types.{OpenFile}
use vidya_god_fs.Vfs.Files.{open_vfs, read_vfs}
use vidya_god_fs.Vfs.Reads.{entry_hit, open_vfs-read}
use vidya_god_fs.Runs.Host.{quiet_host}
use vidya_god_fs.Runs.Overlays.{archive, archive_bytes, file_entry, layer, state}

abbrev b : Str
b = 98 ∷ []

abbrev zip_layer : Layer
zip_layer = record layer { type = zip_archive; zip = some archive }

abbrev zip_state : VfsState
zip_state = record state { layers = zip_layer ∷ [] }

b_found : resolve quiet_host tt zip_state b ≡ entry_hit zip_layer file_entry
unfolding resolve resolve_lower layers_answer layer_answer layer_covers layer_masked resolve_zip
    source_rel lookup is_whiteouted is_under_whiteout is_under_opaque has has_above parent_vrel
    find_last_slash
b_found = refl

open_vfs-read_example :
    (handle : Option OpenFile) × (open_vfs quiet_host 4 b read_flags tt zip_state
      ≡ (ok handle, tt, zip_state))
    × Chunk (entry_bytes archive_bytes file_entry) 2 1 (read_vfs quiet_host 4 handle 2 1 tt)
open_vfs-read_example =
    open_vfs-read quiet_host 4 b read_flags tt zip_state zip_layer archive file_entry archive_bytes
      2 1 b_found refl refl refl (mem_source-Serves archive_bytes (omega arith))
      (record { is_stored = refl; in_archive = omega arith }) (omega arith) (omega arith)
      (omega arith)
