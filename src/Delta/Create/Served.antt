-- ===== src/Delta/Create/Served.antt =====
-- `Create` of src/vgdelta.cpp, called again and again to stack deltas over one base, as
-- `VfsState::Init` of src/overlay.cpp does, and the reads of what comes out.
use mathlib.Core.Path.{subst, subst₂}
use vidya_god_fs.Prelude.{
  ℕ, suc, ◌+◌, ◌≤◌, ◌<◌, ◌^◌, ◌≡◌, refl, sym, ap, ◌∙◌, arith, false, List, [], ◌∷◌, ◌++◌, some,
  length, length-append,
}
use vidya_god_fs.Source.{ByteSource}
use vidya_god_fs.Source.Exact.{Serves}
use vidya_god_fs.Delta.Types.{Parsed, DeltaByteSource, plain, composed, Outcome, done, ◌>>=◌}
use vidya_god_fs.Delta.Zstd.{Zstd}
use vidya_god_fs.Delta.Parse.{parse_delta}
use vidya_god_fs.Delta.Flat.{create}
use vidya_god_fs.Delta.Read.{empty_cache, delta_preads}
use vidya_god_fs.Delta.Read.Serves.{exact_replies, delta_preads-exact}
use vidya_god_fs.Delta.Content.{content, AddHolds, Holds, AddsHold-length}
use vidya_god_fs.Delta.Stored.{AddStored, AddStored-AddHolds}
use vidya_god_fs.Delta.Create.{raw_content, AllRawFit, Rebuilds, create-plain}
use vidya_god_fs.Delta.Create.Chain.{create-composed}

-- One delta of a chain: the file and its bytes, what it parses to, and its literal stream.
pub record Link : Type 0 where
  pub delta : ByteSource
  pub file : List ℕ
  pub parsed : Parsed
  pub lit : List ℕ

-- What the delta makes of the bytes under it.
abbrev pub applied : List ℕ → Link → List ℕ
applied under l = raw_content under l.lit l.parsed.segs

abbrev pub applied_all : List ℕ → List Link → List ℕ
applied_all under [] = under
applied_all under (l ∷ links) = applied_all (applied under l) links

-- The file parses, is made for a base of this size, and holds its literals in frames where its block
-- index says; its segments read within the base and within the literals, and cover the target that the
-- header names.
pub record LinkFits (z : Zstd) (under : List ℕ) (l : Link) : Type 0 where
  pub parses : parse_delta z l.delta ≡ done l.parsed
  pub base_eq : l.parsed.base_size ≡ length under
  pub file_serves : Serves l.parsed.add.file l.file
  pub add_stored : AddStored z l.file l.parsed.add l.lit
  pub segs_fit : AllRawFit under l.lit l.parsed.segs
  pub target_eq : l.parsed.target_size ≡ length (applied under l)
  pub target_fits : length (applied under l) < 2 ^ 64

-- Every delta fits what the deltas before it make of the base.
abbrev pub ChainFits : Zstd → List ℕ → List Link → Type 0
ChainFits z under [] = Unit
ChainFits z under (l ∷ links) = LinkFits z under l × ChainFits z (applied under l) links

-- `Create` over `base`, then over what it returned, and so on.
unfoldable pub create_all : Zstd → DeltaByteSource → List Link → Outcome DeltaByteSource
create_all z d [] = done d
create_all z d (l ∷ links) =
    create z l.delta (some (composed d)) false >>= λ d1. create_all z d1 links

unfoldable pub create_chain : Zstd → ByteSource → Link → List Link → Outcome DeltaByteSource
create_chain z src l links = create z l.delta (some (plain src)) false >>= λ d. create_all z d links

-- A delta source over `count` files that stands for `bytes`.
record Stands (z : Zstd) (count : ℕ) (d : DeltaByteSource) (bytes : List ℕ) : Type 0 where
  base : List ℕ
  lits : List (List ℕ)
  holds : Holds z d base lits
  base_fits : length base < 2 ^ 64
  same_bytes : content base lits d.segs ≡ bytes
  count_eq : length lits ≡ count

record Made (z : Zstd) (count : ℕ) (r : Outcome DeltaByteSource) (bytes : List ℕ) : Type 0 where
  source : DeltaByteSource
  created : r ≡ done source
  stands : Stands z count source bytes

made_of :
    {z : Zstd} {count : ℕ} {r : Outcome DeltaByteSource} {base : List ℕ} {lits : List (List ℕ)}
    {bytes : List ℕ}
    → Rebuilds z r base lits bytes
    → length base < 2 ^ 64
    → length lits ≡ count
    → Made z count r bytes
made_of {base = base} {lits = lits} b small count = record {
  source = b.source;
  created = b.created;
  stands = record {
    base = base;
    lits = lits;
    holds = b.holds;
    base_fits = small;
    same_bytes = b.same_bytes;
    count_eq = count;
  };
}

module _ (z : Zstd) where
  add_holds : (under : List ℕ) (l : Link) → LinkFits z under l → AddHolds z l.parsed.add l.lit
  add_holds under l f = AddStored-AddHolds z l.file l.parsed.add l.lit f.file_serves f.add_stored

  first :
      (src : ByteSource) (under : List ℕ) (l : Link)
      → Serves src under
      → LinkFits z under l
      → Made z 1 (create z l.delta (some (plain src)) false) (applied under l)
  first src under l serves f =
      made_of
        (create-plain z l.delta l.parsed src under l.lit false f.parses f.base_eq (λ e. absurd cc)
          serves (add_holds under l f) f.segs_fit f.target_eq f.target_fits)
        serves.fits refl

  next :
      (count : ℕ) (d : DeltaByteSource) (under : List ℕ) (l : Link)
      → Stands z count d under
      → LinkFits z under l
      → suc count ≤ 2 ^ 24
      → Made z (suc count) (create z l.delta (some (composed d)) false) (applied under l)
  next count d under l s f short =
      subst (λ u. Made z (suc count) (create z l.delta (some (composed d)) false) (applied u l))
        s.same_bytes
        (made_of (over (subst (λ u. LinkFits z u l) (sym s.same_bytes) f)) s.base_fits
          (omega (arith, length-append s.lits (l.lit ∷ []), s.count_eq)))
    where
      over :
          LinkFits z (content s.base s.lits d.segs) l
          → Rebuilds z
              (create z l.delta (some (composed d)) false)
              s.base
              (s.lits ++ (l.lit ∷ []))
              (applied (content s.base s.lits d.segs) l)
      over f =
          create-composed z l.delta l.parsed d s.base l.lit s.lits false f.parses
            (s.holds.target_eq ∙ sym f.base_eq) s.holds s.base_fits (add_holds _ l f) f.segs_fit
            (omega
              (arith, short, s.count_eq, AddsHold-length z d.add_sources s.lits s.holds.adds_hold))
            f.target_eq f.target_fits

  all_made :
      (links : List Link) (count : ℕ) (d : DeltaByteSource) (under : List ℕ)
      → Stands z count d under
      → ChainFits z under links
      → count + length links ≤ 2 ^ 24
      → Made z (count + length links) (create_all z d links) (applied_all under links)
  unfolding create_all
  all_made [] count d under s h short = record {
    source = d;
    created = refl;
    stands = subst (λ n. Stands z n d under) (omega arith) s;
  }
  all_made (l ∷ links) count d under s (f, h) short =
      let m = next count d under l s f (omega arith) in
      subst₂ (λ n r. Made z n r (applied_all under (l ∷ links))) (omega arith)
        (sym (rw (m.created) refl))
        (all_made links (suc count) m.source (applied under l) m.stands h (omega arith))

  -- A chain of deltas over a base that is no delta: where every file parses, holds its literals in
  -- frames where its block index says and fits what the files before it make of the base, and there are
  -- at most 2 ^ 24 of them, `Create` succeeds at every step, and however many reads the last source serves
  -- from then on, with its block cache kept between them, every one gets the bytes, at its offset, that
  -- the deltas make of the base one after the other.
  pub create_chain-delta_preads :
      (src : ByteSource) (under : List ℕ) (l : Link) (links : List Link) (requests : List (ℕ × ℕ))
      → Serves src under
      → ChainFits z under (l ∷ links)
      → suc (length links) ≤ 2 ^ 24
      → (d : DeltaByteSource) × (create_chain z src l links ≡ done d)
        × ((delta_preads z d requests empty_cache).0
            ≡ exact_replies (applied_all under (l ∷ links)) requests)
  unfolding create_chain
  create_chain-delta_preads src under l links requests serves (f, h) short =
      let m = first src under l serves f in
      let n = all_made links 1 m.source (applied under l) m.stands h (omega arith) in
      (
        n.source,
        rw (m.created) n.created,
        delta_preads-exact z n.source n.stands.base n.stands.lits n.stands.holds requests
            ∙ ap (λ b. exact_replies b requests) n.stands.same_bytes,
      )
