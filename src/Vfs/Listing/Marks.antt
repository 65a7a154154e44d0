-- ===== src/Vfs/Listing/Marks.antt =====
-- What the layers' folders and archives leave alone in `CollectChildren` of src/vfsops.cpp.
use vidya_god_fs.Prelude.{
  take_if, ℕ, ◌≡◌, refl, ap, ◌∙◌, Bool, true, false, ◌&&◌, ◌||◌, List, [], ◌∷◌, Option, none, some,
  if◌then◌else◌,
}
use vidya_god_fs.Prelude.Text.{Str, str_eq}
use vidya_god_fs.Paths.Ancestors.{or_true}
use vidya_god_fs.Zip.{ZipIndex, lookup}
use vidya_god_fs.Overlay.Types.{
  LayerType, dir, zip_archive, single_file, delta_archive, Layer, VfsState, HostIo,
}
use vidya_god_fs.Overlay.Layers.{layer_covers, layer_masked, source_rel, opaque_name}
use vidya_god_fs.Vfs.Types.{child_path}
use vidya_god_fs.Vfs.Children.{
  put_name, Listing, is_marker, list_dir, list_zip, unserved, below_opaque, list_structure,
  list_content, list_layer, list_layers,
}

or_or_true : (a b : Bool) → (a || (b || true)) ≡ true
or_or_true true b = refl
or_or_true false b = or_true b

-- The writelayer's marks, which the layers' names do not touch.
pub record SameMarks (l t : Listing) : Type 0 where
  pub whiteouts_eq : t.whiteouts ≡ l.whiteouts
  pub opaque_eq : t.opaque ≡ l.opaque

SameMarks-refl : {l : Listing} → SameMarks l l
SameMarks-refl {l} = record { whiteouts_eq = refl; opaque_eq = refl }

SameMarks-trans : {l t u : Listing} → SameMarks l t → SameMarks t u → SameMarks l u
SameMarks-trans p q = record {
  whiteouts_eq = q.whiteouts_eq ∙ p.whiteouts_eq;
  opaque_eq = q.opaque_eq ∙ p.opaque_eq;
}

SameMarks-if :
    {l t u : Listing} (b : Bool) → SameMarks l t → SameMarks l u → SameMarks l (if b then t else u)
SameMarks-if true p q = p
SameMarks-if false p q = q

SameMarks-option {ℓ} :
    {A : Type ℓ} {l : Listing} (o : Option A) (g : A → Listing)
    → ((a : A) → SameMarks l (g a))
    → SameMarks l (elim o as (λ x. Listing) [ none ↦ l | some a ↦ g a ])
SameMarks-option none g q = SameMarks-refl
SameMarks-option (some a) g q = q a

list_dir-SameMarks : (rw : Bool) (ns : List Str) (l : Listing) → SameMarks l (list_dir rw ns l)
unfolding list_dir
list_dir-SameMarks kept [] l = SameMarks-refl
list_dir-SameMarks kept (n ∷ ns) l =
    SameMarks-trans
      (SameMarks-if (kept && is_marker n)
        (SameMarks-if (str_eq n opaque_name) SameMarks-refl
          (record { whiteouts_eq = refl; opaque_eq = refl }))
        (record { whiteouts_eq = refl; opaque_eq = refl }))
      (list_dir-SameMarks kept ns _)

list_zip-SameMarks :
    (flatten : Bool) (z : ZipIndex) (rel : Str) (cs : List Str) (l : Listing)
    → SameMarks l (list_zip flatten z rel cs l)
unfolding list_zip
list_zip-SameMarks flatten z rel [] l = SameMarks-refl
list_zip-SameMarks flatten z rel (c ∷ cs) l =
    SameMarks-trans
      (SameMarks-if {u = record l { names = put_name c l.names }}
        (unserved flatten z (child_path rel c)) SameMarks-refl
        (record { whiteouts_eq = refl; opaque_eq = refl }))
      (list_zip-SameMarks flatten z rel cs _)

module _ {F : Type 0} (h : HostIo F) where
  list_archive-SameMarks :
      (s : VfsState) (v : Str) (l : Layer) (out : Listing)
      → SameMarks out (elim l.zip as (λ x. Listing) [
        | none ↦ out
        | some z ↦ elim (lookup (source_rel l v) z.dir_children) as (λ x. Listing) [
          | none ↦ out
          | some cs ↦ list_zip s.flatten_symlinks z (source_rel l v) cs out
        ]
      ])
  list_archive-SameMarks s v l out = SameMarks-option l.zip _ (λ z.
      SameMarks-option (lookup (source_rel l v) z.dir_children) _
        (λ cs. list_zip-SameMarks s.flatten_symlinks z (source_rel l v) cs out))

  list_content-SameMarks :
      (f : F) (s : VfsState) (v : Str) (l : Layer) (out : Listing) (t : LayerType)
      → l.type ≡ t
      → SameMarks out (list_content h f s v l out)
  unfolding list_content source_rel
  list_content-SameMarks f s v l out dir e = rw e (list_dir-SameMarks l.rw _ out)
  list_content-SameMarks f s v l out single_file e = rw e SameMarks-refl
  list_content-SameMarks f s v l out zip_archive e = rw e (list_archive-SameMarks s v l out)
  list_content-SameMarks f s v l out delta_archive e = rw e SameMarks-refl

  list_structure-SameMarks :
      (v : Str) (l : Layer) (out : Listing) → SameMarks out (list_structure v l out)
  unfolding list_structure
  list_structure-SameMarks v l out = record { whiteouts_eq = refl; opaque_eq = refl }

  list_layer-SameMarks :
      (f : F) (s : VfsState) (v : Str) (best : Option ℕ) (l : Layer) (out : Listing)
      → SameMarks out (list_layer h f s v best l out)
  unfolding list_layer
  list_layer-SameMarks f s v best l out = SameMarks-if _ SameMarks-refl (
      SameMarks-trans
        (SameMarks-if (layer_covers l v) (list_content-SameMarks f s v l out l.type refl)
          SameMarks-refl)
        (list_structure-SameMarks v l _))

  pub list_layers-SameMarks :
      (f : F) (s : VfsState) (v : Str) (best : Option ℕ) (layers : List Layer) (out : Listing)
      → SameMarks out (list_layers h f s v best layers out)
  unfolding list_layers
  list_layers-SameMarks f s v best [] out = SameMarks-refl
  list_layers-SameMarks f s v best (l ∷ layers) out =
      SameMarks-trans (list_layer-SameMarks f s v best l out)
        (list_layers-SameMarks f s v best layers _)

  list_layer-opaque :
      (f : F) (s : VfsState) (v : Str) (best : Option ℕ) (l : Layer) (out : Listing)
      → out.opaque ≡ true
      → list_layer h f s v best l out ≡ out
  unfolding list_layer
  list_layer-opaque f s v best l out opq =
      take_if _ _ (ap (λ b. below_opaque h best l || (layer_masked l v || b)) opq ∙ or_or_true _ _)

  -- Below an opaque folder of the writelayer no layer adds anything.
  pub list_layers-opaque :
      (f : F) (s : VfsState) (v : Str) (best : Option ℕ) (layers : List Layer) (out : Listing)
      → out.opaque ≡ true
      → list_layers h f s v best layers out ≡ out
  unfolding list_layers
  list_layers-opaque f s v best [] out opq = refl
  list_layers-opaque f s v best (l ∷ layers) out opq =
      ap (list_layers h f s v best layers) (list_layer-opaque f s v best l out opq)
      ∙ list_layers-opaque f s v best layers out opq
