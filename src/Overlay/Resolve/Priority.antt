-- ===== src/Overlay/Resolve/Priority.antt =====
-- Which layer answers a lookup, and what deletions do to it.
use vidya_god_fs.Prelude.{
  ◌<◌, ◌≡◌, refl, sym, ap, ◌∙◌, Bool, true, false, not, ◌&&◌, ◌||◌, ◌⊎◌, inl, inr, List, [], ◌∷◌,
  ◌++◌, Option, none, some, length, All, is_empty, if◌then◌else◌, Bool-cases,
}
use vidya_god_fs.Prelude.Text.{Str}
use vidya_god_fs.Paths.{has, under_root}
use vidya_god_fs.Paths.Ancestors.{Above}
use vidya_god_fs.Zip.{ZipIndex, lookup, resolve_zip_symlink}
use vidya_god_fs.Overlay.Types.{
  LayerType, dir, zip_archive, single_file, delta_archive, Layer, VfsState, implicit_dir,
  ResolveResult, HostIo,
}
use vidya_god_fs.Overlay.Layers.{layer_covers, layer_masked, source_rel, wl_path}
use vidya_god_fs.Overlay.Masks.{
  is_whiteouted, is_under_whiteout, is_under_opaque, create_whiteout, insert,
}
use vidya_god_fs.Overlay.Masks.Deleted.{has-insert, is_whiteouted-at, is_under_whiteout-at}
use vidya_god_fs.Overlay.Kept.{kept_masked}
use vidya_god_fs.Overlay.Resolve.{
  no_result, Answer, serves, hides, passes, children_of, resolve_dir, resolve_file, resolve_zip,
  layer_answer, layers_answer, resolve_lower, resolve,
}

-- An answer that names a layer names this one.
data Names (l : Layer) : Answer → Type 0 where
  by_layer : (r : ResolveResult) → r.layer ≡ some l → Names l (serves r)
  hiding : Names l hides
  passing : Names l passes

Names-serves :
    (l : Layer) (a : Answer) (r : ResolveResult) → a ≡ serves r → Names l a → r.layer ≡ some l
Names-serves l a r e (by_layer r' n) = ap layer_of (sym e) ∙ n
  where
    layer_of : Answer → Option Layer
    layer_of (serves q) = q.layer
    layer_of hides = none
    layer_of passes = none
Names-serves l a r e hiding = absurd cc
Names-serves l a r e passing = absurd cc

not_passing :
    (b : Bool) (x : Answer) (r : ResolveResult) → (if b then passes else x) ≡ serves r → b ≡ false
not_passing true x r e = absurd cc
not_passing false x r e = refl

neither : (c m : Bool) → (not c || m) ≡ false → (c ≡ true) × (m ≡ false)
neither true m e = (refl, e)
neither false m e = absurd cc

module _ {ℓ} {F : Type ℓ} (h : HostIo F) where
  Names-if :
      (b : Bool) (l : Layer) (x y : Answer) → Names l x → Names l y → Names l (if b then x else y)
  Names-if true l x y p q = p
  Names-if false l x y p q = q

  Names-option {κ} :
      {A : Type κ} (o : Option A) (l : Layer) (x : Answer) (g : A → Answer)
      → Names l x
      → ((a : A) → Names l (g a))
      → Names l (elim o [ none ↦ x | some a ↦ g a ])
  Names-option none l x g p q = p
  Names-option (some a) l x g p q = q a

  resolve_dir-Names : (f : F) (s : VfsState) (l : Layer) (v : Str) → Names l (resolve_dir h f s l v)
  unfolding resolve_dir
  resolve_dir-Names f s l v =
      Names-option (h.lstat f (under_root l.source (source_rel l v))) l _ _
        (Names-if (l.rw && kept_masked l v) l hides passes hiding passing)
        (λ st. Names-if _ l passes _ passing (by_layer _ refl))

  resolve_file-Names : (f : F) (s : VfsState) (l : Layer) → Names l (resolve_file h f s l)
  unfolding resolve_file
  resolve_file-Names f s l =
      Names-option (h.lstat f l.source) l _ _ passing
        (λ st. Names-if _ l passes _ passing (by_layer _ refl))

  resolve_zip-Names :
      (s : VfsState) (l : Layer) (z : ZipIndex) (rel : Str) → Names l (resolve_zip h s l z rel)
  unfolding resolve_zip
  resolve_zip-Names s l z rel =
      Names-option (lookup rel z.by_name) l _ _
        (Names-if (children_of z rel) l _ passes (by_layer _ refl) passing)
        (λ e.
          Names-if _ l _ _
            (Names-option (resolve_zip_symlink z e) l _ _
              (Names-if _ l passes _ passing (by_layer _ refl)) (λ t. by_layer _ refl))
            (by_layer _ refl))

  by_type :
      (f : F) (s : VfsState) (v : Str) (l : Layer) (t : LayerType)
      → Names l (elim t [
        | dir ↦ resolve_dir h f s l v
        | single_file ↦ resolve_file h f s l
        | zip_archive ↦ elim l.zip [ none ↦ passes | some z ↦ resolve_zip h s l z (source_rel l v) ]
        | delta_archive ↦ elim l.zip [
          | none ↦ passes
          | some z ↦ resolve_zip h s l z (source_rel l v)
        ]
      ])
  by_type f s v l dir = resolve_dir-Names f s l v
  by_type f s v l single_file = resolve_file-Names f s l
  by_type f s v l zip_archive =
      Names-option l.zip l _ _ passing (λ z. resolve_zip-Names s l z (source_rel l v))
  by_type f s v l delta_archive =
      Names-option l.zip l _ _ passing (λ z. resolve_zip-Names s l z (source_rel l v))

  layer_answer-Names :
      (f : F) (s : VfsState) (v : Str) (l : Layer) → Names l (layer_answer h f s v l)
  unfolding layer_answer
  layer_answer-Names f s v l = Names-if _ l passes _ passing (by_type f s v l l.type)

  -- A layer that answers covers the path and is not masked there.
  answers_in_place :
      (f : F) (s : VfsState) (v : Str) (l : Layer) (r : ResolveResult)
      → layer_answer h f s v l ≡ serves r
      → (layer_covers l v ≡ true) × (layer_masked l v ≡ false)
  unfolding layer_answer
  answers_in_place f s v l r e = neither (layer_covers l v) (layer_masked l v) (not_passing _ _ r e)

  -- `l` is the highest layer that answers for `v`, with `r`.
  pub record Highest (f : F) (s : VfsState) (v : Str) (layers : List Layer) (r : ResolveResult)
      : Type 0 where
    pub below : List Layer
    pub l : Layer
    pub above : List Layer
    pub stack_eq : layers ≡ below ++ (l ∷ above)
    pub all_pass : All (λ m. layer_answer h f s v m ≡ passes) above
    pub answers : layer_answer h f s v l ≡ serves r
    pub covers : layer_covers l v ≡ true
    pub unmasked : layer_masked l v ≡ false
    pub named : r.layer ≡ some l

  over_passes :
      (a b : Answer)
      → (elim a [ serves r ↦ serves r | hides ↦ hides | passes ↦ b ]) ≡ passes
      → (a ≡ passes) × (b ≡ passes)
  over_passes (serves r) b e = absurd cc
  over_passes hides b e = absurd cc
  over_passes passes b e = (refl, e)

  over_serves :
      (a b : Answer) (r : ResolveResult)
      → (elim a [ serves r ↦ serves r | hides ↦ hides | passes ↦ b ]) ≡ serves r
      → (a ≡ serves r) ⊎ ((a ≡ passes) × (b ≡ serves r))
  over_serves (serves q) b r e = inl e
  over_serves hides b r e = absurd cc
  over_serves passes b r e = inr (refl, e)

  All-passed :
      (f : F) (s : VfsState) (v : Str) (layers : List Layer)
      → layers_answer h f s v layers ≡ passes
      → All (λ m. layer_answer h f s v m ≡ passes) layers
  unfolding layers_answer
  All-passed f s v [] e = tt
  All-passed f s v (l ∷ layers) e =
      let (rest, this) = over_passes (layers_answer h f s v layers) (layer_answer h f s v l) e in
      (this, All-passed f s v layers rest)

  layers_answer-Highest :
      (f : F) (s : VfsState) (v : Str) (layers : List Layer) (r : ResolveResult)
      → layers_answer h f s v layers ≡ serves r
      → Highest f s v layers r
  unfolding layers_answer
  layers_answer-Highest f s v [] r e = absurd cc
  layers_answer-Highest f s v (l ∷ layers) r e =
      elim (over_serves (layers_answer h f s v layers) (layer_answer h f s v l) r e) [
        | inl higher ↦
            let q = layers_answer-Highest f s v layers r higher in
            record {
              below = l ∷ q.below;
              l = q.l;
              above = q.above;
              stack_eq = ap (λ t. l ∷ t) q.stack_eq;
              all_pass = q.all_pass;
              answers = q.answers;
              covers = q.covers;
              unmasked = q.unmasked;
              named = q.named;
            }
        | inr (rest, this) ↦
            let (c, m) = answers_in_place f s v l r this in
            record {
              below = [];
              l = l;
              above = layers;
              stack_eq = refl;
              all_pass = All-passed f s v layers rest;
              answers = this;
              covers = c;
              unmasked = m;
              named = Names-serves l _ r this (layer_answer-Names f s v l);
            }
      ]

  no_layer : {A : Type 0} (r : ResolveResult) (l : Layer) → r.layer ≡ none → r.layer ≡ some l → A
  no_layer r l e n = absurd (clash (sym e ∙ n))
    where
      clash : none ≡ some l → ⊥
      clash q = cc

  lower_named :
      (b : Bool) (a : Answer) (r : ResolveResult) (l : Layer)
      → r ≡ (elim a [
        | serves q ↦ q
        | hides ↦ no_result
        | passes ↦ if b then record no_result { kind = implicit_dir } else no_result
      ])
      → r.layer ≡ some l
      → a ≡ serves r
  lower_named b (serves q) r l e n = ap serves (sym e)
  lower_named b hides r l e n = no_layer r l (ap (λ q. q.layer) e) n
  lower_named true passes r l e n = no_layer r l (ap (λ q. q.layer) e) n
  lower_named false passes r l e n = no_layer r l (ap (λ q. q.layer) e) n

  -- A lookup below the writelayer that names a layer was answered by it, and by no layer above it: the
  -- layer covers the path and is not masked there, and every layer above passes.
  pub resolve_lower-Highest :
      (f : F) (s : VfsState) (v : Str) (l : Layer)
      → (resolve_lower h f s v).layer ≡ some l
      → Highest f s v s.layers (resolve_lower h f s v)
  resolve_lower-Highest f s v l n = layers_answer-Highest f s v s.layers (resolve_lower h f s v) (
      lower_named (has s.implicit_dirs v) (layers_answer h f s v s.layers) (resolve_lower h f s v) l
        (unfold resolve_lower in refl) n)

  resolve_whiteouted :
      (f : F) (s : VfsState) (v : Str)
      → is_empty s.writelayer ≡ false
      → is_whiteouted s v ≡ true
      → resolve h f s v ≡ no_result
  unfolding resolve
  resolve_whiteouted f s v wl e = rw (wl, e) refl

  resolve_under :
      (f : F) (s : VfsState) (v : Str)
      → is_empty s.writelayer ≡ false
      → h.lstat f (wl_path s v) ≡ none
      → is_under_whiteout s v ≡ true
      → resolve h f s v ≡ no_result
  unfolding resolve
  resolve_under f s v wl missing e = elim (Bool-cases (is_whiteouted s v)) [
    | inl deleted ↦ rw (wl, deleted) refl
    | inr other ↦ rw (wl, other, missing, e) (whichever (is_under_opaque s v))
  ]
    where
      whichever : (b : Bool) → (if b || true then no_result else resolve_lower h f s v) ≡ no_result
      whichever true = refl
      whichever false = refl

  -- With a writelayer, a deleted path resolves to nothing, and so does every path below it that the
  -- writelayer does not hold, whatever the layers have there.
  pub resolve-Deleted :
      (f : F) (s : VfsState) (a v : Str)
      → is_empty s.writelayer ≡ false
      → 0 < length a
      → has s.whiteout_set a ≡ true
      → (v ≡ a) ⊎ (Above a v × (h.lstat f (wl_path s v) ≡ none))
      → resolve h f s v ≡ no_result
  resolve-Deleted f s a v wl pos member (inl same) =
      resolve_whiteouted f s v wl (ap (is_whiteouted s) same ∙ is_whiteouted-at s a wl pos member)
  resolve-Deleted f s a v wl pos member (inr (up, missing)) =
      resolve_under f s v wl missing (is_under_whiteout-at s a v wl pos member up)

  whiteout_state :
      (f : F) (s : VfsState) (a : Str)
      → is_empty s.writelayer ≡ false
      → (create_whiteout h f s a).1 ≡ record s { whiteout_set = insert a s.whiteout_set }
  unfolding create_whiteout
  whiteout_state f s a wl = rw wl refl

  -- After `CreateWhiteout` of a path, with a writelayer, the path resolves to nothing, and so does every
  -- path below it that the writelayer does not hold then.
  pub create_whiteout-Hides :
      (f : F) (s : VfsState) (a v : Str)
      → is_empty s.writelayer ≡ false
      → 0 < length a
      → (v ≡ a) ⊎ (Above a v × (h.lstat (create_whiteout h f s a).0 (wl_path s v) ≡ none))
      → resolve h (create_whiteout h f s a).0 (create_whiteout h f s a).1 v ≡ no_result
  create_whiteout-Hides f s a v wl pos below =
      ap (λ t. resolve h (create_whiteout h f s a).0 t v) (whiteout_state f s a wl)
      ∙ resolve-Deleted (create_whiteout h f s a).0
          (record s { whiteout_set = insert a s.whiteout_set }) a v wl pos
          (has-insert a s.whiteout_set) below
