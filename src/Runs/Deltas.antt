-- ===== src/Runs/Deltas.antt =====
-- A delta of two segments, over a base of three bytes, and a second delta over it.
use vidya_god_fs.Prelude.{
  ℕ, zero, suc, ◌*◌, ◌<◌, ◌≡◌, refl, arith, false, inl, inr, true, List, [], ◌∷◌, ◌++◌, some, ok,
  stuck, take, drop,
}
use vidya_god_fs.Source.{ByteSource, mem_source, pread_all}
use vidya_god_fs.Source.Exact.{mem_source-Serves}
use vidya_god_fs.Delta.Types.{
  kind_copy, kind_add, AddSource, Parsed, DeltaByteSource, plain, composed, done,
}
use vidya_god_fs.Delta.Zstd.{Zstd, z_decompress}
use vidya_god_fs.Delta.Flat.{create, seg_at}
use vidya_god_fs.Delta.Read.{
  BlockCache, empty_cache, find_block, block_key, load_block, get_add_block, read_add, delta_pread,
  delta_preads,
}
use vidya_god_fs.Delta.Read.Cache.{Coherent, get_add_block-Coherent}
use vidya_god_fs.Delta.Read.Serves.{delta_pread-exact, exact_replies}
use vidya_god_fs.Delta.Read.Hang.{read_add-stuck}
use vidya_god_fs.Delta.Content.{content, AddHolds, Holds, SegsLaid}
use vidya_god_fs.Delta.Locate.{Located, seg_at-Located}
use vidya_god_fs.Delta.Create.{Rebuilds, create-plain, raw_content}
use vidya_god_fs.Delta.Create.Chain.{create-composed}
use vidya_god_fs.Delta.Create.Served.{
  Link, ChainFits, applied_all, create_chain, create_chain-delta_preads,
}
use vidya_god_fs.Delta.Stored.{BlockStored, AddStored, AddStored-AddHolds}
use vidya_god_fs.Delta.Parse.{parse_delta, read_table, read_field, parse_segs, parse_blocks}
use vidya_god_fs.Bytes.{fnv1a64, rd32, rd64}
use vidya_god_fs.Source.Exact.{Serves}

-- Frames that hold the bytes as they are.
abbrev plain_frames : Zstd
plain_frames = record { compress = λ p level. some p; decompress = λ p n. some p }

abbrev base : List ℕ
base = 10 ∷ 20 ∷ 30 ∷ []

abbrev literal : List ℕ
literal = 7 ∷ 8 ∷ []

abbrev add : AddSource
add = record {
  file = mem_source literal;
  region_off = 0;
  block_size = 4;
  blocks = record { comp_off = 0; comp_len = 2; uncomp_len = 2 } ∷ [];
}

add_holds : AddHolds plain_frames add literal
unfolding pread_all mem_source
add_holds = record {
  block_pos = omega arith;
  block_fits = omega arith;
  lit_fits = omega arith;
  count_fits = omega arith;
  enough = omega arith;
  loads = loads;
}
  where
    loads :
        (blk : ℕ)
        → blk * 4 < 2
        → load_block plain_frames add blk ≡ some (take 4 (drop (blk * 4) literal))
    loads zero h = unfold load_block z_decompress in refl
    loads (suc blk) h = absurd (omega arith)

abbrev delta : DeltaByteSource
delta = record {
  base_src = mem_source base;
  add_sources = add ∷ [];
  segs =
      record { target_off = 0; len = 2; src_off = 1; add_src = 0; kind = kind_copy }
      ∷ record { target_off = 2; len = 2; src_off = 0; add_src = 0; kind = kind_add }
      ∷ [];
  target_size = 4;
}

abbrev lits : List (List ℕ)
lits = literal ∷ []

delta_laid : SegsLaid base lits 0 delta.segs
delta_laid = (
  refl,
  record { some_len = omega arith; in_range = omega arith },
  (refl, record { some_len = omega arith; in_range = omega arith }, tt),
)

delta-Holds : Holds plain_frames delta base lits
delta-Holds = record {
  base_serves = mem_source-Serves base (omega arith);
  adds_hold = (add_holds, tt);
  short_chain = omega arith;
  laid = delta_laid;
  target_eq = refl;
  target_fits = omega arith;
}

no_blocks : Coherent plain_frames delta.add_sources empty_cache
no_blocks a b raw p q e = unfold find_block in cc

delta_pread-exact_example :
    ((delta_pread plain_frames delta 3 1 empty_cache).0
      ≡ ok (take 3 (drop 1 (content base lits delta.segs))))
    × Coherent plain_frames delta.add_sources (delta_pread plain_frames delta 3 1 empty_cache).1
delta_pread-exact_example =
    delta_pread-exact plain_frames delta base lits delta-Holds 3 1 empty_cache no_blocks

seg_at-Located_example : Located base lits delta.segs 0 2 (seg_at delta.segs 2)
seg_at-Located_example = seg_at-Located base lits delta.segs 2 delta_laid (omega arith)

get_add_block-Coherent_example :
    ((get_add_block plain_frames 0 add 0 empty_cache).0 ≡ some literal)
    × Coherent plain_frames (add ∷ []) (get_add_block plain_frames 0 add 0 empty_cache).1
get_add_block-Coherent_example =
    get_add_block-Coherent plain_frames (add ∷ []) 0 0 literal empty_cache (omega arith)
      (omega arith) (omega arith) (add_holds.loads 0 (omega arith)) no_blocks

-- The file of those segments, made for a base of `n` bytes, whose hash is that of the three bytes.
abbrev delta_file : ℕ → List ℕ
delta_file n =
    86 ∷ 71 ∷ 68 ∷ 49 ∷ 1 ∷ 0 ∷ 0 ∷ 0 ∷ 4 ∷ 0 ∷ 0 ∷ 0 ∷ 4 ∷ 0 ∷ 0 ∷ 0 ∷ 0 ∷ 0 ∷ 0 ∷ 0 ∷ n ∷ 0 ∷ 0
    ∷ 0 ∷ 0 ∷ 0 ∷ 0 ∷ 0 ∷ 233 ∷ 19 ∷ 60 ∷ 88 ∷ 79 ∷ 37 ∷ 129 ∷ 221 ∷ 2 ∷ 0 ∷ 0 ∷ 0 ∷ 1 ∷ 0 ∷ 0 ∷ 0
    ∷ 34 ∷ 0 ∷ 0 ∷ 0 ∷ 0 ∷ 0 ∷ 0 ∷ 0 ∷ 34 ∷ 0 ∷ 0 ∷ 0 ∷ 0 ∷ 0 ∷ 0 ∷ 0 ∷ 0 ∷ 2 ∷ 0 ∷ 0 ∷ 0 ∷ 0 ∷ 0
    ∷ 0 ∷ 0 ∷ 1 ∷ 0 ∷ 0 ∷ 0 ∷ 0 ∷ 0 ∷ 0 ∷ 0 ∷ 1 ∷ 2 ∷ 0 ∷ 0 ∷ 0 ∷ 0 ∷ 0 ∷ 0 ∷ 0 ∷ 0 ∷ 0 ∷ 0 ∷ 0 ∷ 0
    ∷ 0 ∷ 0 ∷ 0 ∷ 16 ∷ 0 ∷ 0 ∷ 0 ∷ 0 ∷ 0 ∷ 0 ∷ 0 ∷ 16 ∷ 0 ∷ 0 ∷ 0 ∷ 0 ∷ 0 ∷ 0 ∷ 0 ∷ 0 ∷ 0 ∷ 0 ∷ 0
    ∷ 0 ∷ 0 ∷ 0 ∷ 0 ∷ 2 ∷ 0 ∷ 0 ∷ 0 ∷ 2 ∷ 0 ∷ 0 ∷ 0 ∷ 7 ∷ 8 ∷ []

abbrev file_add : ℕ → AddSource
file_add n = record add { file = mem_source (delta_file n); region_off = 126 }

abbrev parsed : ℕ → Parsed
parsed n = record {
  target_size = 4;
  base_size = n;
  base_hash = 15961079577090724841;
  segs =
      record { kind = kind_copy; len = 2; src_off = 1 }
      ∷ record { kind = kind_add; len = 2; src_off = 0 }
      ∷ [];
  add = file_add n;
}

parses_three : parse_delta plain_frames (mem_source (delta_file 3)) ≡ done (parsed 3)
unfolding parse_delta read_table read_field parse_segs parse_blocks pread_all mem_source rd32 rd64
    z_decompress
parses_three = refl

parses_four : parse_delta plain_frames (mem_source (delta_file 4)) ≡ done (parsed 4)
unfolding parse_delta read_table read_field parse_segs parse_blocks pread_all mem_source rd32 rd64
    z_decompress
parses_four = refl

file_stored : (n : ℕ) → AddStored plain_frames (delta_file n) (file_add n) literal
file_stored n = record {
  block_pos = omega arith;
  block_fits = omega arith;
  lit_fits = omega arith;
  count_fits = omega arith;
  enough = omega arith;
  stored = stored;
}
  where
    stored :
        (blk : ℕ) → blk * 4 < 2 → BlockStored plain_frames (delta_file n) (file_add n) literal blk
    stored zero h = record { in_file = omega arith; len_eq = refl; frame_eq = refl }
    stored (suc blk) h = absurd (omega arith)

served : (n : ℕ) → Serves (mem_source (delta_file n)) (delta_file n)
served n = mem_source-Serves (delta_file n) (omega arith)

file_holds : (n : ℕ) → AddHolds plain_frames (file_add n) literal
file_holds n =
    AddStored-AddHolds plain_frames (delta_file n) (file_add n) literal (served n) (file_stored n)

three_hash : fnv1a64 base ≡ 15961079577090724841
unfolding fnv1a64
three_hash = refl

abbrev base_bytes : ByteSource
base_bytes = mem_source base

create-plain_example :
    Rebuilds plain_frames
      (create plain_frames (mem_source (delta_file 3)) (some (plain base_bytes)) true)
      base
      (literal ∷ [])
      (raw_content base literal (parsed 3).segs)
create-plain_example =
    create-plain plain_frames (mem_source (delta_file 3)) (parsed 3) base_bytes base literal true
      parses_three refl (λ _. three_hash) (mem_source-Serves base (omega arith)) (file_holds 3)
      (
        record { known = inl refl; some_len = omega arith; in_range = omega arith },
        (record { known = inr refl; some_len = omega arith; in_range = omega arith }, tt),
      )
      refl (omega arith)

create-composed_example :
    Rebuilds plain_frames
      (create plain_frames (mem_source (delta_file 4)) (some (composed delta)) false)
      base
      (lits ++ (literal ∷ []))
      (raw_content (content base lits delta.segs) literal (parsed 4).segs)
create-composed_example =
    create-composed plain_frames (mem_source (delta_file 4)) (parsed 4) delta base literal lits
      false parses_four refl delta-Holds (omega arith) (file_holds 4)
      (
        record { known = inl refl; some_len = omega arith; in_range = omega arith },
        (record { known = inr refl; some_len = omega arith; in_range = omega arith }, tt),
      )
      (omega arith) refl (omega arith)

-- The first file over the three bytes, and the second over what it rebuilds.
abbrev link : ℕ → Link
link n = record {
  delta = mem_source (delta_file n);
  file = delta_file n;
  parsed = parsed n;
  lit = literal;
}

chain_fits : ChainFits plain_frames base (link 3 ∷ link 4 ∷ [])
chain_fits = (
  record {
    parses = parses_three;
    base_eq = refl;
    file_serves = served 3;
    add_stored = file_stored 3;
    segs_fit = (
      record { known = inl refl; some_len = omega arith; in_range = omega arith },
      (record { known = inr refl; some_len = omega arith; in_range = omega arith }, tt),
    );
    target_eq = refl;
    target_fits = omega arith;
  },
  (
    record {
      parses = parses_four;
      base_eq = refl;
      file_serves = served 4;
      add_stored = file_stored 4;
      segs_fit = (
        record { known = inl refl; some_len = omega arith; in_range = omega arith },
        (record { known = inr refl; some_len = omega arith; in_range = omega arith }, tt),
      );
      target_eq = refl;
      target_fits = omega arith;
    },
    tt,
  ),
)

create_chain-delta_preads_example :
    (d : DeltaByteSource) × (create_chain plain_frames base_bytes (link 3) (link 4 ∷ []) ≡ done d)
    × ((delta_preads plain_frames d ((3, 1) ∷ (2, 3) ∷ []) empty_cache).0
        ≡ exact_replies (applied_all base (link 3 ∷ link 4 ∷ [])) ((3, 1) ∷ (2, 3) ∷ []))
create_chain-delta_preads_example =
    create_chain-delta_preads plain_frames base_bytes base (link 3) (link 4 ∷ [])
      ((3, 1) ∷ (2, 3) ∷ []) (mem_source-Serves base (omega arith)) chain_fits (omega arith)

-- A cache that holds the file's one block; a read of three bytes at 2 asks for what no block has.
abbrev one_block : BlockCache
one_block = record { entries = (block_key 0 0, literal) ∷ []; fifo = block_key 0 0 ∷ [] }

read_add-stuck_example : read_add plain_frames 1000 0 add 3 2 [] one_block ≡ (stuck, one_block)
read_add-stuck_example =
    read_add-stuck plain_frames 0 add 3 2 one_block literal 1000 [] (omega arith) (omega arith)
      (omega arith) (unfold find_block block_key in refl) refl
