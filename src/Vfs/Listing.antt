-- ===== src/Vfs/Listing.antt =====
-- What a listing shows and what it hides (`CollectChildren` of src/vfsops.cpp).
pub mod Names
pub mod Marks
use vidya_god_fs.Prelude.{
  ℕ, ◌≡◌, ◌≢◌, refl, sym, ap, ◌∙◌, Bool, true, false, not, ◌&&◌, ◌||◌, List, [], ◌∷◌, ◌++◌, Option,
  none, some, if◌then◌else◌, Bool-cases, skip_if, inl, inr, is_empty, drop, arith,
}
use vidya_god_fs.Prelude.Text.{Str, str_eq, str_eq_refl, str_eq→eq, str_eq_sym, starts_with}
use vidya_god_fs.Paths.{has}
use vidya_god_fs.Paths.Ancestors.{starts_with-append, or_true, or_split, no_truth}
use vidya_god_fs.Zip.{ZipIndex, lookup}
use vidya_god_fs.Overlay.Types.{
  LayerType, dir, zip_archive, single_file, delta_archive, Layer, VfsState, HostIo,
}
use vidya_god_fs.Overlay.Layers.{layer_covers, source_rel, wl_path, wh_prefix, opaque_name}
use vidya_god_fs.Vfs.Types.{child_path}
use vidya_god_fs.Vfs.Children.{
  put_name, drop_name, drop_names, drop_kept, Listing, no_listing, is_marker, list_writelayer,
  list_dir, list_zip, unserved, list_structure, list_content, list_layer, list_layers, own_listing,
  opaque_prio, list_implicit, collect_children, str_lt,
}
use vidya_god_fs.Vfs.Listing.Names.{
  names_from, opaque_found, drop_names-has_less, drop_names-has, drop_kept-has, whiteouts_found,
}
use vidya_god_fs.Vfs.Listing.Marks.{list_layers-opaque, list_layers-SameMarks}

module _ {F : Type 0} (h : HostIo F) where
  own_listing_state :
      (f : F) (s : VfsState) (v : Str)
      → is_empty s.writelayer ≡ false
      → own_listing h f s v ≡ list_writelayer (h.read_dir f (wl_path s v)) no_listing
  unfolding own_listing
  own_listing_state f s v wl = rw wl refl

  -- A name whose whiteout lies in the writelayer's folder is not listed, whatever the layers have there.
  pub collect_children-Hidden :
      (f : F) (s : VfsState) (v n : Str)
      → is_empty s.writelayer ≡ false
      → has (h.read_dir f (wl_path s v)) (wh_prefix ++ n) ≡ true
      → str_eq (wh_prefix ++ n) opaque_name ≡ false
      → has (collect_children h f s v) n ≡ false
  unfolding collect_children
  collect_children-Hidden f s v n wl marked name =
      let own = own_listing h f s v in
      let same = list_layers-SameMarks h f s v (opaque_prio v s.layers none) s.layers own in
      drop_kept-has _ _ _ n (
        drop_names-has _ _ n (
          ap (λ ws. has ws n) same.whiteouts_eq
          ∙ (ap (λ l. has l.whiteouts n) (own_listing_state f s v wl)
              ∙ whiteouts_found (h.read_dir f (wl_path s v)) no_listing n marked name)))

  own_names :
      (f : F) (s : VfsState) (v n : Str) (own : Listing)
      → own ≡ own_listing h f s v
      → own.opaque ≡ true
      → has own.names n ≡ false
      → has (collect_children h f s v) n ≡ false
  unfolding collect_children
  own_names f s v n own same opq missing =
      let all : list_layers h f s v (opaque_prio v s.layers none) s.layers (own_listing h f s v)
          ≡ own =
        ap (list_layers h f s v (opaque_prio v s.layers none) s.layers) (sym same)
        ∙ list_layers-opaque h f s v (opaque_prio v s.layers none) s.layers own opq in
      rw (all, opq) (drop_kept-has _ _ _ n (drop_names-has_less own.whiteouts own.names n missing))

  -- When the writelayer's folder has the opaque marker, only names of that folder are listed.
  pub collect_children-Opaque :
      (f : F) (s : VfsState) (v n : Str)
      → is_empty s.writelayer ≡ false
      → has (h.read_dir f (wl_path s v)) opaque_name ≡ true
      → has (h.read_dir f (wl_path s v)) n ≡ false
      → has (collect_children h f s v) n ≡ false
  collect_children-Opaque f s v n wl opq missing =
      own_names f s v n (list_writelayer (h.read_dir f (wl_path s v)) no_listing)
        (sym (own_listing_state f s v wl))
        (opaque_found (h.read_dir f (wl_path s v)) no_listing opq)
        (names_from (h.read_dir f (wl_path s v)) no_listing n (unfold has in refl) missing)
